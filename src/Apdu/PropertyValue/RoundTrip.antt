-- ===== src/Apdu/PropertyValue/RoundTrip.antt =====
-- What `BuildMe` writes, `GetParams` reads back.
use edifice.Base.{
  ℕ, suc, ◌+◌, ◌-◌, ◌*◌, ◌/◌, ◌%◌, ◌≤◌, ◌<◌, bit_and, ◌≡◌, refl, arith, false, ◌==◌, ltb, List, [],
  ◌∷◌, length, some, ret, success, memcpy, slice, fill, length-fill, memcpy_exact, slice_exact,
}
use edifice.Base.Bits.{IsByte, low_nibble, join_nibbles}
use edifice.Pentagon.Mask.{mask_num-start_index}
use edifice.Apdu.Types.{Env, Apdu, Addr}
use edifice.Apdu.PropertyValue.{
  Position, copied, tedious, store_position, load_position, build_read, get_read_params,
  build_write, get_write_params, copy_values,
}

-- A position that the service can express: bytes, a count of at most 15, a 16-bit start index.
pub record IsPosition (p : Position) : Type 0 where
  pub object_byte : IsByte p.object_index
  pub property_byte : IsByte p.property_id
  pub count : p.no_of_elem ≤ 15
  pub start : p.start_index < 65536

-- The position with the start index cut to the twelve bits that are sent.
abbrev pub sent : Position → Position
sent p = record p { start_index = p.start_index % 4096 }

pub tedious_value :
    (p : Position) → IsPosition p → tedious p ≡ p.no_of_elem * 16 + p.start_index / 256 % 16
unfolding tedious
tedious_value p v =
    let e : bit_and (p.start_index / 256 % 256) 0x0f ≡ p.start_index / 256 % 256 % 16 =
      low_nibble _ (omega arith) in
    let e' : p.start_index / 256 % 256 % 16 ≡ p.start_index / 256 % 16 = omega arith in
    rw
      (
        e,
        e',
        join_nibbles p.no_of_elem (p.start_index / 256 % 16) (omega (arith, v.count)) (omega arith),
      )
      (omega (arith, v.count))

-- A block with the control bytes and the position in place.
abbrev pub placed : ℕ → ℕ → Position → List ℕ → List ℕ
placed l h p rest =
    l ∷ h ∷ p.object_index ∷ p.property_id ∷ tedious p ∷ (p.start_index % 256) ∷ rest

pub store_position-placed :
    (p : Position) (l h x y z w : ℕ) (rest : List ℕ)
    → store_position (l ∷ h ∷ x ∷ y ∷ z ∷ w ∷ rest) p ≡ ret (placed l h p rest)
unfolding store_position
store_position-placed p l h x y z w rest = refl

pub load_position-placed :
    (p : Position) (l h : ℕ) (rest : List ℕ)
    → IsPosition p
    → IsByte l
    → IsByte h
    → load_position (placed l h p rest) ≡ ret (sent p)
unfolding load_position
load_position-placed p l h rest v hl hh =
    let byte : IsByte (tedious p) = omega (arith, tedious_value p v, v.count) in
    rw
      (mask_num-start_index l h p.object_index p.property_id (tedious p) (p.start_index % 256) rest
        hl hh v.object_byte v.property_byte byte (omega arith))
      (ground (arith, tedious_value p v))

-- `GetParams` after `BuildMe`, for a read request with a count of at most 15: the request is built, and
-- it says the object, the property, the count and the start index that it was built with; of
-- the start index only the low twelve bits are sent. The destination is the given one.
get_read_params-build_read :
    (env : Env) (a : Apdu) (ack_request priority hop_count_type : ℕ) (asap : Addr) (p : Position)
    → IsPosition p
    → IsByte a.apci_l
    → IsByte a.apci_h
    → (b : Apdu) × (build_read env a ack_request priority hop_count_type (some asap) p
        ≡ ret (b, success))
      × (get_read_params b ≡ ret (some (sent p)))
      × (b.peeraddr ≡ asap)
      × (b.type ≡ a.type)
unfolding build_read get_read_params fill
get_read_params-build_read env a ack_request priority hop_count_type asap p v hl hh =
    let few : ltb 15 p.no_of_elem ≡ false = ground (arith, v.count) in
    (
      record a {
        ack_request = ack_request;
        priority = priority;
        hop_count_type = hop_count_type;
        peeraddr = asap;
        apdu_mem = placed a.apci_l a.apci_h p [];
        apdu_len = 6;
      },
      rw (few, store_position-placed),
      rw (load_position-placed p a.apci_l a.apci_h [] v hl hh),
      refl,
      refl,
    )

-- `GetParams` after `BuildMe`, for a write request that carries 1 to 249 bytes of data and a count of at
-- most 15: with room for the data, the position and exactly the data come back; of the start
-- index only the low twelve bits are sent.
get_write_params-build_write :
    (env : Env) (a : Apdu) (ack_request priority hop_count_type : ℕ) (asap : Addr) (p : Position)
    (buff : List ℕ) (room : ℕ)
    → IsPosition p
    → IsByte a.apci_l
    → IsByte a.apci_h
    → 1 ≤ length buff
    → length buff ≤ 249
    → length buff ≤ room
    → (b : Apdu) × (build_write env a ack_request priority hop_count_type (some asap) p (some buff)
        ≡ ret (b, success))
      × (get_write_params b room ≡ ret (some (sent p, copied buff)))
      × (b.apdu_mem ≡ placed a.apci_l a.apci_h p buff)
unfolding build_write get_write_params copy_values fill memcpy slice
get_write_params-build_write env a ack_request priority hop_count_type asap p buff room v hl hh lo
      hi fits =
    let n : ℕ = length buff in
    let few : ltb 15 p.no_of_elem ≡ false = ground (arith, v.count) in
    let some_data : (length buff == 0) ≡ false = ground arith in
    let e : 6 + length buff ≡ suc (suc (suc (suc (suc (suc (length buff)))))) = omega arith in
    let e1 : suc (suc (suc (suc (suc (suc (length buff)))))) % 256 ≡ length buff + 6 =
      omega arith in
    let e2 : length buff + 6 - 6 ≡ length buff = omega arith in
    let e3 : ltb (length buff + 6) 6 ≡ false = ground arith in
    let e4 : ltb room (length buff) ≡ false = ground arith in
    (
      record a {
        ack_request = ack_request;
        priority = priority;
        hop_count_type = hop_count_type;
        peeraddr = asap;
        apdu_mem = placed a.apci_l a.apci_h p buff;
        apdu_len = length buff + 6;
      },
      rw (some_data, few, e)
          (rw store_position-placed (
            rw (
              memcpy_exact (fill env.junk 6 (length buff)) buff
                  (length-fill env.junk 6 (length buff)),
              e1,
            ))),
      rw (e3, load_position-placed p a.apci_l a.apci_h buff v hl hh)
          (rw (e2, e4) (rw (slice_exact (length buff) buff refl))),
      refl,
    )
