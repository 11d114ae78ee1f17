-- ===== src/Frame/Extract.antt =====
-- The APDU that a frame carries: `APDU::BuildAPDUFromFrame` and `Frame::GetAPDUType`.
use edifice.Base.{ℕ, true, List, [], ◌∷◌, Option, some, none, Outcome, ret, ◌>>=◌}
use edifice.Apdu.Types.{
  Env, Apdu, ApduType, Addr, ack, nack, busy, nackbusy, construct, set_host_addr, basic_info, spawn,
  apdu_vec,
}
use edifice.Frame.Types.{
  Frame, FrameClass, one_byte, standard, extended, get_apdu_mem, get_host_addr, get_peer_addr,
  OneByteFrameType, ack_frame, nack_frame, busy_frame, nackbusy_frame,
}

-- The loop over the container: the first class that recognises the bytes.
unfoldable pub spawn_first : Env → List ApduType → List ℕ → ℕ → Outcome (Option Apdu)
spawn_first env [] mem len = ret none
spawn_first env (t ∷ ts) mem len =
    let rest = spawn_first env ts mem len in
    spawn env (construct env t) mem len >>= λ o. elim o [ some a ↦ ret (some a) | none ↦ rest ]

short_type : OneByteFrameType → ApduType
short_type ack_frame = ack
short_type nack_frame = nack
short_type busy_frame = busy
short_type nackbusy_frame = nackbusy

-- A frame with no APDU bytes is a short one, and answers by its type.
short_apdu : Env → FrameClass → Option Apdu
unfolding construct short_type
short_apdu env (one_byte t) = some (construct env (short_type t))
short_apdu env standard = none
short_apdu env extended = none

-- The addresses of the frame, and the marks of a received APDU.
unfoldable pub received : Option Addr → Option Addr → Apdu → Apdu
unfolding set_host_addr basic_info
received host peer a = record (basic_info 0 0 7 peer (set_host_addr host a)) { recved_apdu = true }

-- `APDU::BuildAPDUFromFrame`
unfoldable pub build_apdu_from_frame : Env → Frame → Outcome (Option Apdu)
unfolding get_apdu_mem short_apdu received get_host_addr get_peer_addr
build_apdu_from_frame env f = elim (get_apdu_mem f) [
  | none ↦ ret (short_apdu env f.class)
  | some (mem, len) ↦ do
    o ← spawn_first env apdu_vec mem len
    host ← get_host_addr f
    peer ← get_peer_addr f
    ret (elim o [ none ↦ none | some a ↦ some (received host peer a) ])
]

-- `Frame::GetAPDUType`; `none` is AT_UNAVAILABLE.
unfoldable pub get_apdu_type : Env → Frame → Outcome (Option ApduType)
unfolding build_apdu_from_frame
get_apdu_type env f = do
  o ← build_apdu_from_frame env f
  ret (elim o [ none ↦ none | some a ↦ some a.type ])
