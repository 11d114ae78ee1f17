-- ===== src/Apdu/PropertyValue.antt =====
-- APDU_PropertyValue_Read, APDU_PropertyValue_Response and APDU_PropertyValue_Write of
-- EIBCommNEO/apdu.cpp: reading and writing elements of a property.
pub mod RoundTrip
use edifice.Base.{
  ℕ, zero, suc, ◌+◌, ◌-◌, ◌*◌, ◌/◌, ◌%◌, bit_and, bit_or, Bool, true, false, if◌then◌else◌, ◌==◌,
  ltb, ◌||◌, List, [], ◌∷◌, length, Option, some, none, Outcome, ret, ◌>>=◌, load, slice, memcpy,
  store, Retcode, success, failure,
}
use edifice.Pentagon.Mask.{mask_num, start_index_mask}
use edifice.Apdu.Types.{Env, Apdu, Addr, resize, basic_info}

-- What the four bytes behind the control bytes say.
pub record Position : Type 0 where
  pub object_index : ℕ
  pub property_id : ℕ
  pub no_of_elem : ℕ
  pub start_index : ℕ

-- What came of copying data out into a buffer: the room that would have been enough, or the data.
pub data Copied : Type 0 where
  too_small : ℕ → Copied
  copied : List ℕ → Copied

-- The count and the high bits of the start index in one byte.
unfoldable pub tedious : Position → ℕ
tedious p = bit_or (p.no_of_elem * 16) (bit_and (p.start_index / 256 % 256) 0x0f) % 256

-- The stores that the three `BuildMe` make behind the control bytes.
unfoldable pub store_position : List ℕ → Position → Outcome (List ℕ)
unfolding store tedious
store_position mem₀ p = do
  mem₁ ← store mem₀ 2 p.object_index
  mem₂ ← store mem₁ 3 p.property_id
  mem₃ ← store mem₂ 4 (tedious p)
  store mem₃ 5 (p.start_index % 256)

-- The reads that the three `GetParams` make.
unfoldable pub load_position : List ℕ → Outcome Position
unfolding load
load_position mem = do
  object_index ← load mem 2
  property_id ← load mem 3
  uc ← load mem 4
  start_index ← mask_num mem start_index_mask
  ret (record {
    object_index = object_index;
    property_id = property_id;
    no_of_elem = uc / 16;
    start_index = start_index % 65536;
  })

-- `APDU_PropertyValue_Read::BuildMe`
unfoldable pub build_read :
    Env → Apdu → ℕ → ℕ → ℕ → Option Addr → Position → Outcome (Apdu × Retcode)
unfolding resize basic_info
build_read env a ack_request priority hop_count_type none p = ret (a, failure 1)
build_read env a ack_request priority hop_count_type (some asap) p =
    let b = basic_info ack_request priority hop_count_type (some asap) (resize env 6 a).0 in
    if ltb 15 p.no_of_elem
    then ret (a, failure 1)
    else (store_position b.apdu_mem p >>= λ mem. ret (record b { apdu_mem = mem }, success))

-- `APDU_PropertyValue_Read::GetParams`; `none` is the return code -1.
unfoldable pub get_read_params : Apdu → Outcome (Option Position)
get_read_params a =
    if a.apdu_len == 6 then (load_position a.apdu_mem >>= λ p. ret (some p)) else ret none

-- `APDU_PropertyValue_Write::BuildMe`. The buffer is `none` where its pointer is null, and its
-- length is `buff_len`.
unfoldable pub build_write :
    Env → Apdu → ℕ → ℕ → ℕ → Option Addr → Position → Option (List ℕ) → Outcome (Apdu × Retcode)
unfolding resize basic_info
build_write env a ack_request priority hop_count_type none p buff = ret (a, failure 1)
build_write env a ack_request priority hop_count_type (some asap) p none = ret (a, failure 1)
build_write env a ack_request priority hop_count_type (some asap) p (some buff) =
    let b =
      basic_info ack_request priority hop_count_type (some asap)
        (resize env (6 + length buff) a).0 in
    let write = store_position b.apdu_mem p >>= λ mem. memcpy mem 6 buff in
    if length buff == 0 || ltb 15 p.no_of_elem
    then ret (a, failure 1)
    else (write >>= λ mem. ret (record b { apdu_mem = mem }, success))

-- The copy of the data behind the position, into a buffer for `room` bytes.
unfoldable pub copy_values : Apdu → ℕ → Outcome Copied
copy_values a room =
    let data_len = a.apdu_len - 6 in
    if ltb room data_len
    then ret (too_small data_len)
    else (slice a.apdu_mem 6 data_len >>= λ bytes. ret (copied bytes))

-- `GetParams` of APDU_PropertyValue_Write and of APDU_PropertyValue_Response, which differ only in
-- what they leave in `*len` when the buffer is too small: -1 and the negated length.
unfoldable pub get_write_params : Apdu → ℕ → Outcome (Option (Position × Copied))
get_write_params a room =
    let read = load_position a.apdu_mem >>= λ p. copy_values a room >>= λ c. ret (some (p, c)) in
    if ltb a.apdu_len 6 then ret none else read
