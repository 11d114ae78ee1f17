-- ===== src/Apdu/Property.antt =====
-- APDU_Property_Read, APDU_Property_Response and APDU_Property_Write of EIBCommNEO/apdu.cpp: the
-- description of a property.
use edifice.Base.{
  ℕ, ◌+◌, ◌≡◌, refl, arith, if◌then◌else◌, ◌==◌, List, [], ◌∷◌, length, Option, some, none, Outcome,
  ret, ◌>>=◌, load, slice, memcpy, store, fill, Retcode, success, failure, memcpy_exact,
  slice_exact, length-fill,
}
use edifice.Apdu.Types.{Env, Apdu, Addr, resize, basic_info}

-- `sizeof(PropertyFields)`
abbrev pub sizeof_fields : ℕ
sizeof_fields = 16

-- `APDU_Property_Read::BuildMe`
unfoldable pub build_property_read :
    Env → Apdu → ℕ → ℕ → ℕ → Option Addr → ℕ → ℕ → Outcome (Apdu × Retcode)
unfolding resize basic_info store
build_property_read env a ack_request priority hop_count_type none object_index property_id =
    ret (a, failure 1)
build_property_read env a ack_request priority hop_count_type (some asap) object_index property_id =
    do
      let b = basic_info ack_request priority hop_count_type (some asap) (resize env 4 a).0
      mem₁ ← store b.apdu_mem 2 object_index
      mem₂ ← store mem₁ 3 property_id
      ret (record b { apdu_mem = mem₂ }, success)

-- `APDU_Property_Read::GetParams`; `none` is the return code -1.
unfoldable pub get_property_read_params : Apdu → Outcome (Option (ℕ × ℕ))
unfolding load
get_property_read_params a =
    let read = do
      object_index ← load a.apdu_mem 2
      property_id ← load a.apdu_mem 3
      ret (some (object_index, property_id))
    in if a.apdu_len == 4 then read else ret none

-- `APDU_Property_Write::BuildMe`, with the bytes of the structure; the two numbers that it is also given
-- are not used.
unfoldable pub build_property_write :
    Env → Apdu → ℕ → ℕ → ℕ → Option Addr → ℕ → ℕ → List ℕ → Outcome (Apdu × Retcode)
unfolding resize basic_info slice memcpy
build_property_write env a ack_request priority hop_count_type none object_index property_id
      fields =
    ret (a, failure 1)
build_property_write env a ack_request priority hop_count_type (some asap) object_index property_id
      fields =
    do
      let b =
          basic_info ack_request priority hop_count_type (some asap)
            (resize env (2 + sizeof_fields) a).0
      bytes ← slice fields 0 sizeof_fields
      mem ← memcpy b.apdu_mem 2 bytes
      ret (record b { apdu_mem = mem }, success)

-- `GetParams` of APDU_Property_Write and of APDU_Property_Response.
unfoldable pub get_property_write_params : Apdu → Outcome (Option ((ℕ × ℕ) × List ℕ))
unfolding load slice
get_property_write_params a =
    let read = do
      object_index ← load a.apdu_mem 2
      property_id ← load a.apdu_mem 3
      fields ← slice a.apdu_mem 2 sizeof_fields
      ret (some ((object_index, property_id), fields))
    in if a.apdu_len == 2 + sizeof_fields then read else ret none

-- `GetParams` after `BuildMe` of Property_Read: the request is built, and it says the object and the
-- property.
property_read_round_trip :
    (env : Env) (a : Apdu) (ack_request priority hop_count_type : ℕ) (asap : Addr)
    (object_index property_id : ℕ)
    → (b : Apdu) × (build_property_read env a ack_request priority hop_count_type
          (some asap)
          object_index
          property_id
        ≡ ret (b, success))
      × (get_property_read_params b ≡ ret (some (object_index, property_id)))
unfolding build_property_read get_property_read_params fill
property_read_round_trip env a ack_request priority hop_count_type asap object_index property_id = (
  record a {
    ack_request = ack_request;
    priority = priority;
    hop_count_type = hop_count_type;
    peeraddr = asap;
    apdu_mem = a.apci_l ∷ a.apci_h ∷ object_index ∷ property_id ∷ [];
    apdu_len = 4;
  },
  refl,
  refl,
)

-- `GetParams` after `BuildMe` of Property_Write: the request is built, and the whole structure comes back;
-- the object and the property are its first two bytes, whatever numbers `BuildMe` was given.
property_write_round_trip :
    (env : Env) (a : Apdu) (ack_request priority hop_count_type : ℕ) (asap : Addr)
    (object_index property_id f₀ f₁ : ℕ) (fs : List ℕ)
    → length fs ≡ 14
    → (b : Apdu) × (build_property_write env a ack_request priority hop_count_type
          (some asap)
          object_index
          property_id
          (f₀ ∷ f₁ ∷ fs)
        ≡ ret (b, success))
      × (get_property_write_params b ≡ ret (some ((f₀, f₁), f₀ ∷ f₁ ∷ fs)))
unfolding build_property_write get_property_write_params fill memcpy slice
property_write_round_trip env a ack_request priority hop_count_type asap object_index property_id f₀
      f₁ fs h =
    (
      record a {
        ack_request = ack_request;
        priority = priority;
        hop_count_type = hop_count_type;
        peeraddr = asap;
        apdu_mem = a.apci_l ∷ a.apci_h ∷ f₀ ∷ f₁ ∷ fs;
        apdu_len = 18;
      },
      rw (slice_exact 14 fs h)
          (rw (memcpy_exact (fill env.junk 4 14) fs (omega (arith, h, length-fill env.junk 4 14)))),
      rw (slice_exact 14 fs h),
    )
