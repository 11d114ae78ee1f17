-- ===== src/Channel/Peeker.antt =====
-- `CommBase::FramePeeker` (EIBCommNEO/CommBase.cpp): a look at the queue of received frames, by type.
pub mod ByType
use edifice.Base.{
  ℕ, Bool, true, false, ◌==◌, List, [], ◌∷◌, Option, none, some, Outcome, ret, ◌>>=◌, if◌then◌else◌,
}
use edifice.Apdu.Types.{Env, Apdu, ApduType}
use edifice.Frame.Types.{Frame}
use edifice.Frame.Extract.{build_apdu_from_frame}
use edifice.Channel.Queue.{RxData}
use edifice.Channel.Waiting.{type_value}

-- The copy of an entry that the caller gets.
pub record FramePeek : Type 0 where
  pub type : ApduType
  pub frame_handle : Frame
  pub frame_id : ℕ
  pub frame_time_stamp : ℕ

-- The test of the filter, which AT_UNAVAILABLE, here `none`, passes.
unfoldable pub passes : Option ApduType → ApduType → Bool
unfolding type_value
passes none type = true
passes (some filter) type = type_value type == type_value filter

-- An entry whose frame carries an APDU that passes the filter, before those behind it.
unfoldable pub peeked : Option ApduType → RxData → Option Apdu → List FramePeek → List FramePeek
unfolding passes
peeked filter x none rest = rest
peeked filter x (some apdu) rest =
    if passes filter apdu.type
    then record {
      type = apdu.type;
      frame_handle = x.frame;
      frame_id = x.id;
      frame_time_stamp = x.time_stamp;
    }
      ∷ rest
    else rest

unfoldable pub peeks : Env → Option ApduType → List RxData → Outcome (List FramePeek)
unfolding peeked
peeks env filter [] = ret []
peeks env filter (x ∷ xs) =
    let rest = peeks env filter xs in
    build_apdu_from_frame env x.frame >>= λ apdu. rest >>= λ ys. ret (peeked filter x apdu ys)

-- `FramePeeker`; `none` is FRAME_PEEKER_BUSY, when the lock is taken.
unfoldable pub frame_peeker :
    Env → Bool → Option ApduType → List RxData → Outcome (Option (List FramePeek))
unfolding peeks
frame_peeker env locked filter rx_list =
    if locked then ret none else peeks env filter rx_list >>= λ ys. ret (some ys)
