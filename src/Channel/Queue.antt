-- ===== src/Channel/Queue.antt =====
-- The queue of received frames of CommBase (EIBCommNEO/CommBase.cpp, CommBase.h) and a round of `rx_thread`.
pub mod Age
pub mod Removal
use edifice.Base.{
  ℕ, zero, suc, ◌+◌, ◌-◌, ◌*◌, ◌%◌, ◌^◌, Bool, true, false, not, ltb, ◌==◌, List, [], ◌∷◌, ◌++◌,
  length, drop, Option, none, some, Outcome, ret, fault, ◌>>=◌, if◌then◌else◌,
}
use edifice.Apdu.Types.{Env, ApduType, Apdu}
use edifice.Device.Manager.{IDevice, DeviceManager}
use edifice.Frame.Types.{Frame}
use edifice.Frame.Parse.{one_byte_from_buff}
use edifice.Frame.Extract.{build_apdu_from_frame, get_apdu_type}
use edifice.Channel.Parser.{frame_parser}
use edifice.Channel.Buffer.{buffered}

pub record RxData : Type 0 where
  pub frame : Frame
  pub type : Option ApduType
  pub time_stamp : ℕ
  pub id : ℕ

-- The milliseconds since a time stamp: a `uint`, which wraps as the clock does.
unfoldable pub elapsed_time : ℕ → RxData → ℕ
elapsed_time now x = (now + 2 ^ 32 - x.time_stamp) % 2 ^ 32

-- The test of `ClearOldFrames`, with the life time in seconds.
unfoldable pub is_old : ℕ → ℕ → RxData → Bool
unfolding elapsed_time
is_old life now x = not (ltb (elapsed_time now x) (life * 1000 % 2 ^ 32))

-- How many frames stand before `ite_rm`.
unfoldable pub count_old : ℕ → ℕ → List RxData → ℕ
count_old life now [] = 0
count_old life now (x ∷ xs) =
    let rest = count_old life now xs in if is_old life now x then suc rest else 0

-- `ClearOldFrames`
unfoldable pub clear_old_frames : ℕ → ℕ → List RxData → List RxData
clear_old_frames life now rx_list = drop (count_old life now rx_list) rx_list

-- `RemoveFrameFromRxQueue_nolock`: `++ite` follows the removal of the element at `ite`.
unfoldable pub remove_frame_from_rx_queue : ℕ → List RxData → Outcome (List RxData)
remove_frame_from_rx_queue frame_id [] = ret []
remove_frame_from_rx_queue frame_id (x ∷ xs) =
    let rest = remove_frame_from_rx_queue frame_id xs in
    if x.id == frame_id then fault else rest >>= λ ys. ret (x ∷ ys)
