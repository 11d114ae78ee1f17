-- ===== src/Frame/Build.antt =====
-- The frame that an APDU is sent in: `Frame::BuildFrameFromAPDU` and the constructors that it calls.
use edifice.Base.{
  ℕ, ◌+◌, ◌-◌, ◌*◌, ◌%◌, bit_and, bit_or, if◌then◌else◌, ◌==◌, ltb, leb, ◌&&◌, Outcome, ret,
  aborted, ◌>>=◌, slice, memcpy, store, replicate,
}
use edifice.Pentagon.Checksum.{xor_check_sum}
use edifice.Apdu.Types.{Apdu, is_ack, is_nack, is_busy, is_nackbusy, get_priority}
use edifice.Frame.Types.{
  Frame, standard, extended, one_byte_frame, ack_frame, nack_frame, busy_frame, nackbusy_frame,
}

-- `OneByteFrame(const APDU&)`
unfoldable pub one_byte_from_apdu : Apdu → Outcome Frame
unfolding one_byte_frame
one_byte_from_apdu a =
    if is_ack a.type
    then ret (one_byte_frame ack_frame)
    else if is_nack a.type
    then ret (one_byte_frame nack_frame)
    else if is_busy a.type
    then ret (one_byte_frame busy_frame)
    else if is_nackbusy a.type
    then ret (one_byte_frame nackbusy_frame)
    else aborted

-- The control byte: class bit, not repeated, data frame, priority.
unfoldable pub standard_ctrl : Apdu → ℕ
unfolding get_priority
standard_ctrl a = bit_or (bit_or (bit_or (bit_or 0 0x80) 0x20) 0x10) (get_priority a * 4 % 256)

unfoldable pub extended_ctrl : Apdu → ℕ
unfolding get_priority
extended_ctrl a = bit_or (bit_or (bit_or (bit_and 0 0x7f) 0x20) 0x10) (get_priority a * 4 % 256)

-- Address type and hop count.
unfoldable pub route : Apdu → ℕ
route a = bit_or (if a.addrtype == 0 then 0 else bit_or 0 0x80) 0x70

-- `StandardFrame(const APDU&)`
unfoldable pub standard_from_apdu : Apdu → Outcome Frame
unfolding standard_ctrl route store memcpy slice xor_check_sum
standard_from_apdu a = do
  let len = (6 + a.apdu_len + 1) % 256
  let mem₀ = replicate len 0
  mem₁ ← store mem₀ 0 (standard_ctrl a)
  mem₂ ← store mem₁ 1 a.hostaddr.high
  mem₃ ← store mem₂ 2 a.hostaddr.low
  mem₄ ← store mem₃ 3 a.peeraddr.high
  mem₅ ← store mem₄ 4 a.peeraddr.low
  mem₆ ← store mem₅ 5 (bit_or (route a) a.apdu_len)
  bytes ← slice a.apdu_mem 0 a.apdu_len
  mem₇ ← memcpy mem₆ 6 bytes
  checksum ← xor_check_sum mem₇ (len - 1)
  mem₈ ← store mem₇ (len - 1) checksum
  ret (record { class = standard; frame_len = len; frame_mem = mem₈ })

-- `ExtendedFrame(const APDU&)`
unfoldable pub extended_from_apdu : Apdu → Outcome Frame
unfolding extended_ctrl route store memcpy slice xor_check_sum
extended_from_apdu a = do
  let len = (7 + a.apdu_len + 1) % 256
  let mem₀ = replicate len 0
  mem₁ ← store mem₀ 0 (extended_ctrl a)
  mem₂ ← store mem₁ 1 (route a)
  mem₃ ← store mem₂ 2 a.hostaddr.high
  mem₄ ← store mem₃ 3 a.hostaddr.low
  mem₅ ← store mem₄ 4 a.peeraddr.high
  mem₆ ← store mem₅ 5 a.peeraddr.low
  mem₇ ← store mem₆ 6 a.apdu_len
  bytes ← slice a.apdu_mem 0 a.apdu_len
  mem₈ ← memcpy mem₇ 7 bytes
  checksum ← xor_check_sum mem₈ (len - 1)
  mem₉ ← store mem₈ (len - 1) checksum
  ret (record { class = extended; frame_len = len; frame_mem = mem₉ })

-- `Frame::BuildFrameFromAPDU`
unfoldable pub build_frame_from_apdu : Apdu → Outcome Frame
unfolding one_byte_from_apdu standard_from_apdu extended_from_apdu
build_frame_from_apdu a =
    if a.apdu_len == 0
    then one_byte_from_apdu a
    else if ltb a.apdu_len 16 && leb 1 a.apdu_len
    then standard_from_apdu a
    else extended_from_apdu a
