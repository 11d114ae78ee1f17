-- ===== src/Apdu/UserMemory.antt =====
-- APDU_UserMemory_Read, APDU_UserMemory_Response and APDU_UserMemory_Write of EIBCommNEO/apdu.cpp:
-- the requests for a part of a device's memory, and the answer to one.
pub mod RoundTrip
use edifice.Base.{
  ℕ, zero, suc, ◌+◌, ◌-◌, ◌*◌, ◌/◌, ◌%◌, bit_and, bit_or, Bool, true, false, if◌then◌else◌, ◌==◌,
  ltb, List, [], ◌∷◌, Option, some, none, Outcome, ret, aborted, ◌>>=◌, load, slice, memcpy, store,
  Retcode, success, failure,
}
use edifice.Apdu.Types.{Env, Apdu, Addr, resize, basic_info}
use edifice.Apdu.PropertyValue.{Copied, too_small, copied}

-- `MAX_USER_MEMORY_SIZE`
abbrev pub max_user_memory_size : ℕ
max_user_memory_size = 0x10_0000

-- The count in the low four bits of byte 2, and the address of 20 bits around it.
unfoldable pub store_place : List ℕ → ℕ → ℕ → Outcome (List ℕ)
unfolding store load
store_place mem₀ number address = do
  mem₁ ← store mem₀ 2 (bit_and number 0x0f)
  b ← load mem₁ 2
  mem₂ ← store mem₁ 2 (bit_or b (bit_and address 0xf_0000 / 4096))
  mem₃ ← store mem₂ 3 (bit_and address 0xff00 / 256)
  store mem₃ 4 (bit_and address 0xff)

-- `APDU_UserMemory_Read::BuildMe`
unfoldable pub build_read : Env → Apdu → ℕ → ℕ → ℕ → Option Addr → ℕ → ℕ → Outcome (Apdu × Retcode)
unfolding resize basic_info
build_read env a ack_request priority hop_count_type none number address = ret (a, failure 1)
build_read env a ack_request priority hop_count_type (some asap) number address =
    let b = basic_info ack_request priority hop_count_type (some asap) (resize env 5 a).0 in
    store_place b.apdu_mem number address >>= λ mem. ret (record b { apdu_mem = mem }, success)

-- The high four bits of the address, as the read request takes them out of byte 2:
-- `(m_apdu_mem[2] & 0xF0) << 12`.
unfoldable pub high_bits : ℕ → ℕ
high_bits b = bit_and b 0xf0 * 4096

-- And as the other two do: `m_apdu_mem[2] & 0xF0 << 12`, where the shift binds more tightly.
unfoldable pub high_bits_unbracketed : ℕ → ℕ
high_bits_unbracketed b = bit_and b (0xf0 * 4096)

-- The count and the address, with either reading of the high bits.
unfoldable pub load_place : (ℕ → ℕ) → List ℕ → Outcome (ℕ × ℕ)
unfolding load
load_place high mem = do
  b₂ ← load mem 2
  b₃ ← load mem 3
  b₄ ← load mem 4
  ret (bit_and b₂ 0x0f, bit_or (bit_or (bit_or 0 b₄) (b₃ * 256)) (high b₂))

-- `APDU_UserMemory_Read::GetParams`; `none` is the return code -1.
unfoldable pub get_read_params : Apdu → Outcome (Option (ℕ × ℕ))
unfolding high_bits
get_read_params a =
    if a.apdu_len == 5 then (load_place high_bits a.apdu_mem >>= λ p. ret (some p)) else ret none

-- At most eleven bytes go into one request.
unfoldable pub capped : ℕ → ℕ
capped number = if ltb 11 number then 11 else number

-- `APDU_UserMemory_Write::BuildMe`, which takes a null address for no change.
unfoldable pub build_write :
    Env → Apdu → ℕ → ℕ → ℕ → Option Addr → ℕ → ℕ → List ℕ → Outcome (Apdu × Retcode)
unfolding resize basic_info capped
build_write env a ack_request priority hop_count_type asap number address buff =
    let place = bit_and address 0xf_ffff in
    let b =
      basic_info ack_request priority hop_count_type asap (resize env (5 + capped number) a).0 in
    let write = do
      mem₁ ← store_place b.apdu_mem (capped number) place
      bytes ← slice buff 0 (capped number)
      mem₂ ← memcpy mem₁ 5 bytes
      ret (record b { apdu_mem = mem₂ }, success)
    in if ltb max_user_memory_size (place + capped number) then ret (a, failure 1) else write

-- The copy of the data; the assertion is that its length is the count.
unfoldable pub copy_memory : Apdu → ℕ → ℕ → Outcome Copied
copy_memory a number room =
    let copied_num = a.apdu_len - 5 in
    let copy = slice a.apdu_mem 5 copied_num >>= λ bytes. ret (copied bytes) in
    if copied_num == number
    then if ltb room copied_num then ret (too_small copied_num) else copy
    else aborted

-- `GetParams` of APDU_UserMemory_Write and of APDU_UserMemory_Response. (With a buffer that is too
-- small the return code is -1, and the count and the address are there all the same.)
unfoldable pub get_write_params : Apdu → ℕ → Outcome (Option ((ℕ × ℕ) × Copied))
unfolding high_bits_unbracketed
get_write_params a room =
    let read = do
      p ← load_place high_bits_unbracketed a.apdu_mem
      c ← copy_memory a p.0 room
      ret (some (p, c))
    in if ltb a.apdu_len 5 then ret none else read
