-- ===== src/Emulator/Comm.antt =====
-- What the emulator calls of its channel, and `CommBase::rx_sync_ex` (EIBCommNEO/CommBase.cpp).
pub mod Filter
pub mod Collected
use edifice.Base.{
  ℕ, zero, suc, Bool, List, [], ◌∷◌, ◌++◌, Option, none, some, Outcome, ret, fault, ◌>>=◌,
  if◌then◌else◌,
}
use edifice.Frame.Types.{Frame}
use edifice.Channel.Waiting.{Wanted, ResponseType, response_normal, response_recving_timeout}

-- The operations of a channel with the state `S`, and the two settings of its callers: the least time of an
-- answer and the time to wait for one. `rx_sync` takes the time to wait.
pub record Comm (S : Type 0) : Type 0 where
  pub response_time : ℕ
  pub rx_time_out : ℕ
  pub get_tick_count : S → ℕ × S
  pub tx_sync : S → Frame → ResponseType × S
  pub rx_sync : S → Wanted → ℕ → Outcome ((ResponseType × Option Frame) × S)

-- The frame of an answer, if it is a normal one.
unfoldable pub collected : ResponseType → Option Frame → List Frame
collected response_normal (some f) = f ∷ []
collected _ _ = []

abbrev pub is_time_out : ResponseType → Bool
is_time_out response_recving_timeout = Bool.true
is_time_out _ = Bool.false

module _ {S : Type 0} (c : Comm S) where
  -- The loop of `rx_sync_ex`, which only a time-out ends: the frames, for so many rounds.
  unfoldable pub rx_sync_ex : ℕ → S → Wanted → List Frame → Outcome (List Frame × S)
  unfolding collected
  rx_sync_ex zero s w recv_frames = fault
  rx_sync_ex (suc fuel) s w recv_frames = c.rx_sync s w c.rx_time_out >>= λ ((r, f), s').
      let rest = rx_sync_ex fuel s' w (recv_frames ++ collected r f) in
      if is_time_out r then ret (recv_frames, s') else rest
