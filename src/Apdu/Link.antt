-- ===== src/Apdu/Link.antt =====
-- APDU_Link_Read, APDU_Link_Response and APDU_Link_Write of EIBCommNEO/apdu.cpp: the links between the
-- group objects of a device and group addresses.
use edifice.Base.{
  ℕ, ◌-◌, ◌*◌, ◌/◌, ◌%◌, bit_and, ◌≡◌, refl, if◌then◌else◌, ltb, [], ◌∷◌, Option, some, none,
  Outcome, ret, ◌>>=◌, load, slice, store, fill, Retcode, success, failure,
}
use edifice.Base.Bits.{IsByte, passes_below, agree_below, low_two}
use edifice.Apdu.Types.{Env, Apdu, Addr, resize, basic_info}
use edifice.Apdu.PropertyValue.{Copied, copied, too_small}

-- `APDU_Link_Read::BuildMe`
unfoldable pub build_link_read :
    Env → Apdu → ℕ → ℕ → ℕ → Option Addr → ℕ → ℕ → Outcome (Apdu × Retcode)
unfolding resize basic_info store
build_link_read env a ack_request priority hop_count_type none group_object_number start_index =
    ret (a, failure 1)
build_link_read env a ack_request priority hop_count_type (some asap) group_object_number
      start_index =
    do
      let b = basic_info ack_request priority hop_count_type (some asap) (resize env 4 a).0
      mem₁ ← store b.apdu_mem 2 group_object_number
      mem₂ ← store mem₁ 3 (bit_and 0x0f start_index)
      ret (record b { apdu_mem = mem₂ }, success)

-- `APDU_Link_Read::GetParams`, which does not look at the length.
unfoldable pub get_link_read_params : Apdu → Outcome (ℕ × ℕ)
unfolding load
get_link_read_params a = do
  group_object_number ← load a.apdu_mem 2
  start_index ← load a.apdu_mem 3
  ret (group_object_number, start_index)

-- `APDU_Link_Write::BuildMe`
unfoldable pub build_link_write :
    Env → Apdu → ℕ → ℕ → ℕ → Option Addr → ℕ → ℕ → Option Addr → Outcome (Apdu × Retcode)
unfolding resize basic_info store
build_link_write env a ack_request priority hop_count_type none group_object_number flags
      group_address =
    ret (a, failure 1)
build_link_write env a ack_request priority hop_count_type (some asap) group_object_number flags
      none =
    ret (a, failure 1)
build_link_write env a ack_request priority hop_count_type (some asap) group_object_number flags
      (some group_address) =
    do
      let b = basic_info ack_request priority hop_count_type (some asap) (resize env 6 a).0
      mem₁ ← store b.apdu_mem 2 group_object_number
      mem₂ ← store mem₁ 3 (bit_and flags 0x03)
      mem₃ ← store mem₂ 4 group_address.high
      mem₄ ← store mem₃ 5 group_address.low
      ret (record b { apdu_mem = mem₄ }, success)

-- `APDU_Link_Write::GetParams`; the address is a pointer into the block, read through here.
unfoldable pub get_link_write_params : Apdu → Outcome ((ℕ × ℕ) × Addr)
unfolding load
get_link_write_params a = do
  group_object_number ← load a.apdu_mem 2
  flags ← load a.apdu_mem 3
  high ← load a.apdu_mem 4
  low ← load a.apdu_mem 5
  ret ((group_object_number, flags), record { high = high; low = low })

-- `APDU_Link_Response::GetParams` on an APDU of four bytes or more, into a buffer for `room` bytes.
unfoldable pub get_link_response_params : Apdu → ℕ → Outcome ((ℕ × ℕ) × Copied)
unfolding load slice
get_link_response_params a room = do
  group_object_number ← load a.apdu_mem 2
  start_index ← load a.apdu_mem 3
  let link_count = (a.apdu_len - 4) / 2
  let copy = slice a.apdu_mem 4 (link_count * 2) >>= λ links. ret (copied links)
  c ← (if ltb room (2 * link_count) then ret (too_small (link_count * 2)) else copy)
  ret ((group_object_number, start_index), c)

low_four : (x : ℕ) → IsByte x → bit_and 0x0f x ≡ x % 16
unfolding passes_below
low_four x h = agree_below 256 (λ x. bit_and 0x0f x) (λ x. x % 16) refl x h

-- `GetParams` after `BuildMe` of Link_Read: the request is built, and it says the group object and the low
-- four bits of the start index.
link_read_round_trip :
    (env : Env) (a : Apdu) (ack_request priority hop_count_type : ℕ) (asap : Addr)
    (group_object_number start_index : ℕ)
    → IsByte start_index
    → (b : Apdu) × (build_link_read env a ack_request priority hop_count_type
          (some asap)
          group_object_number
          start_index
        ≡ ret (b, success))
      × (get_link_read_params b ≡ ret (group_object_number, start_index % 16))
unfolding build_link_read get_link_read_params fill
link_read_round_trip env a ack_request priority hop_count_type asap group_object_number start_index
      h =
    (
      record a {
        ack_request = ack_request;
        priority = priority;
        hop_count_type = hop_count_type;
        peeraddr = asap;
        apdu_mem = a.apci_l ∷ a.apci_h ∷ group_object_number ∷ (start_index % 16) ∷ [];
        apdu_len = 4;
      },
      rw (low_four start_index h),
      refl,
    )

-- `GetParams` after `BuildMe` of Link_Write: the request is built, and it says the group object, the two
-- lowest flags and the group address.
link_write_round_trip :
    (env : Env) (a : Apdu) (ack_request priority hop_count_type : ℕ) (asap : Addr)
    (group_object_number flags : ℕ) (group_address : Addr)
    → IsByte flags
    → (b : Apdu) × (build_link_write env a ack_request priority hop_count_type
          (some asap)
          group_object_number
          flags
          (some group_address)
        ≡ ret (b, success))
      × (get_link_write_params b ≡ ret ((group_object_number, flags % 4), group_address))
unfolding build_link_write get_link_write_params fill
link_write_round_trip env a ack_request priority hop_count_type asap group_object_number flags
      group_address h =
    (
      record a {
        ack_request = ack_request;
        priority = priority;
        hop_count_type = hop_count_type;
        peeraddr = asap;
        apdu_mem =
            a.apci_l
            ∷ a.apci_h
            ∷ group_object_number
            ∷ (flags % 4)
            ∷ group_address.high
            ∷ group_address.low
            ∷ [];
        apdu_len = 6;
      },
      rw (low_two flags h),
      refl,
    )
