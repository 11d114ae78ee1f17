-- ===== src/Apdu/GroupValue.antt =====
-- APDU_GroupValue_Read, APDU_GroupValue_Response and APDU_GroupValue_Write of EIBCommNEO/apdu.cpp:
-- values of group objects, in the low six bits of the second control byte or in bytes of their own.
pub mod RoundTrip
use edifice.Base.{
  ℕ, zero, suc, ◌+◌, ◌-◌, ◌*◌, ◌/◌, ◌%◌, bit_and, bit_or, Bool, true, false, if◌then◌else◌, ◌==◌,
  ltb, List, [], ◌∷◌, Option, some, none, Outcome, ret, ◌>>=◌, load, slice, memcpy, store, Retcode,
  success, failure,
}
use edifice.Apdu.Types.{Env, Apdu, Addr, resize, basic_info}

-- `APDU_GroupValue_Read::BuildMe`
unfoldable pub build_read : Env → Apdu → ℕ → ℕ → ℕ → Option Addr → Apdu × Retcode
unfolding resize basic_info
build_read env a ack_request priority hop_count_type none = (a, failure 1)
build_read env a ack_request priority hop_count_type (some asap) =
    (basic_info ack_request priority hop_count_type (some asap) (resize env 2 a).0, success)

-- How many bytes of their own a value of some bits gets.
unfoldable pub data_len : ℕ → ℕ
data_len data_len_in_bit =
    if ltb 6 data_len_in_bit
    then data_len_in_bit / 8 + (if data_len_in_bit % 8 == 0 then 0 else 1)
    else 0

-- A short value goes into the low six bits of the second control byte.
unfoldable pub store_short : List ℕ → List ℕ → Outcome (List ℕ)
unfolding load store
store_short mem₀ buff = do
  h ← load mem₀ 1
  mem₁ ← store mem₀ 1 (bit_and h 0xc0)
  h' ← load mem₁ 1
  b ← load buff 0
  store mem₁ 1 (bit_or h' (bit_and 0x3f b))

-- `APDU_GroupValue_Write::BuildMe`
unfoldable pub build_write :
    Env → Apdu → ℕ → ℕ → ℕ → Option Addr → List ℕ → ℕ → Outcome (Apdu × Retcode)
unfolding resize basic_info
build_write env a ack_request priority hop_count_type none buff data_len_in_bit = ret (a, failure 1)
build_write env a ack_request priority hop_count_type (some asap) buff data_len_in_bit =
    let n = data_len data_len_in_bit in
    let b = basic_info ack_request priority hop_count_type (some asap) (resize env (2 + n) a).0 in
    let long = slice buff 0 n >>= λ bytes. memcpy b.apdu_mem 2 bytes in
    let short = store_short b.apdu_mem buff in
    (if n == 0 then short else long) >>= λ mem. ret (record b { apdu_mem = mem }, success)

-- `APDU_GroupValue_Write::GetParams` with a buffer for so many bits: the bytes, and how many bits they
-- are; `none` is the return code -1.
unfoldable pub get_write_params : Apdu → ℕ → Outcome (Option (List ℕ × ℕ))
unfolding load slice
get_write_params a data_len_in_bit =
    let n = a.apdu_len - 2 in
    let long = slice a.apdu_mem 2 n >>= λ bytes. ret (some (bytes, n * 8)) in
    let short = load a.apdu_mem 1 >>= λ h. ret (some (bit_and h 0x3f ∷ [], 6)) in
    if ltb 2 a.apdu_len then if ltb data_len_in_bit (n * 8) then ret none else long else short

-- `APDU_GroupValue_Response::GetParams` with a buffer for so many bytes. The short value is looked for
-- in the byte behind the control bytes.
unfoldable pub get_response_params : Apdu → ℕ → Outcome (Option (List ℕ × ℕ))
unfolding load slice
get_response_params a buff_len =
    let n = a.apdu_len - 2 in
    let expected_len = if a.apdu_len == 2 then 1 else n in
    let long = slice a.apdu_mem 2 n >>= λ bytes. ret (some (bytes, n)) in
    let short = load a.apdu_mem 2 >>= λ b. ret (some (bit_and b 0x3f ∷ [], 1)) in
    if ltb buff_len expected_len then ret none else if ltb 2 a.apdu_len then long else short
