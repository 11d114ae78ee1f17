-- ===== src/Apdu/GroupValue/RoundTrip.antt =====
-- What is written as the value of a group object, and what is read of it.
use edifice.Base.{
  ℕ, suc, ◌+◌, ◌-◌, ◌*◌, ◌%◌, ◌≤◌, ◌<◌, bit_and, bit_or, ◌≡◌, refl, arith, true, false, ◌==◌, ltb,
  if◌then◌else◌, Bool-cases, inl, inr, List, [], ◌∷◌, length, some, ret, fault, success, memcpy,
  fill, length-fill, memcpy_exact, slice_exact, take, slice-take, length-take,
}
use edifice.Base.Bits.{IsByte, passes_below, agree_below₂}
use edifice.Apdu.Types.{Env, Apdu, Addr}
use edifice.Apdu.GroupValue.{
  data_len, store_short, build_write, get_write_params, get_response_params,
}

-- What arrives of a value of some bits: its bytes, or six bits of the only one.
abbrev pub arriving : ℕ → List ℕ → List ℕ × ℕ
arriving bits [] = ([], 0)
arriving bits (x ∷ xs) =
    if ltb 6 bits then (take (data_len bits) (x ∷ xs), data_len bits * 8) else (x % 64 ∷ [], 6)

short_kept :
    (h x : ℕ)
    → IsByte h
    → IsByte x
    → bit_and (bit_or (bit_and h 0xc0) (bit_and 0x3f x)) 0x3f ≡ x % 64
unfolding passes_below
short_kept =
    agree_below₂ 256 256 (λ h x. bit_and (bit_or (bit_and h 0xc0) (bit_and 0x3f x)) 0x3f)
      (λ h x. x % 64) refl

-- The length in bytes is the number of bits divided by eight, rounded up.
data_len_bounds :
    (bits : ℕ)
    → 6 < bits
    → (1 ≤ data_len bits) × (bits ≤ data_len bits * 8) × (data_len bits * 8 ≤ bits + 7)
unfolding data_len
data_len_bounds bits h = (ground arith, ground arith, ground arith)

data_len_short : (bits : ℕ) → bits ≤ 6 → data_len bits ≡ 0
unfolding data_len
data_len_short bits h = ground arith

-- `GetParams` after `BuildMe`, for a write request with a value of up to 2024 bits: the request is built,
-- and with enough room the value comes back. A value of more than six bits comes back as its
-- bytes, with the number of bits rounded up to whole bytes; a shorter one as six bits.
group_value_write_round_trip :
    (env : Env) (a : Apdu) (ack_request priority hop_count_type : ℕ) (asap : Addr) (x : ℕ)
    (xs : List ℕ) (bits room : ℕ)
    → IsByte a.apci_h
    → IsByte x
    → bits ≤ 2024
    → data_len bits ≤ suc (length xs)
    → bits + 7 ≤ room
    → (b : Apdu) × (build_write env a ack_request priority hop_count_type (some asap) (x ∷ xs) bits
        ≡ ret (b, success))
      × (get_write_params b room ≡ ret (some (arriving bits (x ∷ xs))))
unfolding build_write get_write_params fill memcpy store_short
group_value_write_round_trip env a ack_request priority hop_count_type asap x xs bits room hh hx hi
      long fits =
    let n : ℕ = data_len bits in
    let bytes = take n (x ∷ xs) in
    let el : length bytes ≡ n = length-take n (x ∷ xs) long in
    let e2 : 2 + n ≡ suc (suc n) = omega arith in
    elim (Bool-cases (ltb 6 bits)) [
      | inl many ↦
          let (lo, _, up) = data_len_bounds bits (ground arith) in
          let e3 : (n == 0) ≡ false = ground arith in
          let e4 : suc (suc n) % 256 ≡ suc (suc n) = omega arith in
          let e5 : ltb 2 (suc (suc n)) ≡ true = ground arith in
          let e6 : suc (suc n) - 2 ≡ n = omega arith in
          let e7 : ltb room (n * 8) ≡ false = ground arith in
          (
            record a {
              ack_request = ack_request;
              priority = priority;
              hop_count_type = hop_count_type;
              peeraddr = asap;
              apdu_mem = a.apci_l ∷ a.apci_h ∷ bytes;
              apdu_len = suc (suc n);
            },
            rw (e2, e3)
                (rw (slice-take n (x ∷ xs) long) (
                  rw (
                    memcpy_exact (fill env.junk 2 n) bytes
                        (omega (arith, el, length-fill env.junk 2 n)),
                    e4,
                  ))),
            rw (e5, e6, e7, many) (rw (slice_exact n bytes el)),
          )
      | inr few ↦
          let e : n ≡ 0 = data_len_short bits (ground arith) in
          (
            record a {
              ack_request = ack_request;
              priority = priority;
              hop_count_type = hop_count_type;
              peeraddr = asap;
              apdu_mem = a.apci_l ∷ bit_or (bit_and a.apci_h 0xc0) (bit_and 0x3f x) ∷ [];
              apdu_len = 2;
            },
            rw e,
            rw few (rw (short_kept a.apci_h x hh hx)),
          )
    ]

-- A short value is read by the write request's `GetParams` from the second control byte, but the
-- response's `GetParams`, on an APDU of exactly the same two bytes and with room for a byte or
-- more, reads behind the end of the block.
pub group_value_response_overrun :
    (a : Apdu) (l h room bits : ℕ)
    → a.apdu_mem ≡ l ∷ h ∷ []
    → a.apdu_len ≡ 2
    → 1 ≤ room
    → (get_write_params a bits ≡ ret (some (bit_and h 0x3f ∷ [], 6)))
      × (get_response_params a room ≡ fault)
unfolding get_write_params get_response_params
group_value_response_overrun a l h room bits em en lo =
    let e : ltb room 1 ≡ false = ground arith in (rw (em, en), rw (em, en, e))
