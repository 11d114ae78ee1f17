-- ===== src/Channel/Receiver.antt =====
-- A round of `CommBase::rx_thread` (EIBCommNEO/CommBase.cpp) on the bytes that `_recv_bytes` gave.
pub mod Room
pub mod Ends
use edifice.Base.{
  ℕ, zero, suc, ◌+◌, ◌%◌, ◌^◌, Bool, List, [], ◌∷◌, ◌++◌, length, Option, none, some, Outcome, ret,
  ◌>>=◌,
}
use edifice.Apdu.Types.{Env}
use edifice.Device.Manager.{IDevice, DeviceManager}
use edifice.Frame.Types.{Frame}
use edifice.Frame.Parse.{one_byte_from_buff}
use edifice.Frame.Extract.{get_apdu_type}
use edifice.Channel.Buffer.{buffered}
use edifice.Channel.Parser.{frame_parser}
use edifice.Channel.Queue.{RxData, clear_old_frames}

-- The state of the thread, the queue that it fills and the devices it asks; `ticks_read` counts the calls of
-- `GetTickCount`.
pub record Receiver (D : Type 0) : Type 0 where
  pub big_buff : List ℕ
  pub big_buff_occupied : ℕ
  pub rx_list : List RxData
  pub next_rx_id : ℕ
  pub ticks_read : ℕ
  pub devices : DeviceManager D

frame_or_none : Option Frame → List Frame
frame_or_none none = []
frame_or_none (some f) = f ∷ []

module _ {D : Type 0} (dev : IDevice D) (env : Env) (ticks : ℕ → ℕ) (life : ℕ)
    (check_address : Bool) where
  -- The entries of new frames, with the ids and the time stamps from some on.
  unfoldable pub entries : ℕ → ℕ → List Frame → Outcome (List RxData)
  entries id read [] = ret []
  entries id read (f ∷ fs) = do
    t ← get_apdu_type env f
    rest ← entries ((id + 1) % 2 ^ 32) (read + 1) fs
    ret (record { frame = f; type = t; time_stamp = ticks read; id = id } ∷ rest)

  -- The end of a round: the new frames enter the queue, and the old ones leave it.
  unfoldable pub queued : Receiver D → List Frame → Outcome (Receiver D)
  queued r frames = do
    data_list ← entries r.next_rx_id r.ticks_read frames
    let now = ticks (r.ticks_read + length frames)
    ret (record r {
      rx_list = clear_old_frames life now (r.rx_list ++ data_list);
      next_rx_id = (r.next_rx_id + length frames) % 2 ^ 32;
      ticks_read = r.ticks_read + length frames + 1;
    })

  abbrev pub parsed_round :
      Receiver D → ((List ℕ × ℕ) × List Frame) × DeviceManager D → Outcome (Receiver D)
  parsed_round r (((mem, mem_len), frames), m) =
      queued (record r { big_buff = mem; big_buff_occupied = mem_len; devices = m }) frames

  abbrev pub buffered_round : Receiver D → List ℕ × ℕ → Outcome (Receiver D)
  buffered_round r (mem, mem_len) =
      frame_parser dev env check_address mem mem_len r.devices >>= λ p. parsed_round r p

  -- No byte, one byte, which may be a short frame, or more.
  unfoldable pub rx_round : List ℕ → Receiver D → Outcome (Receiver D)
  unfolding frame_or_none
  rx_round [] r = ret r
  rx_round (b ∷ []) r =
      one_byte_from_buff (some (b ∷ [])) 1 >>= λ short. queued r (frame_or_none short)
  rx_round (b ∷ c ∷ bytes) r =
      buffered r.big_buff r.big_buff_occupied (b ∷ c ∷ bytes) >>= λ p. buffered_round r p
