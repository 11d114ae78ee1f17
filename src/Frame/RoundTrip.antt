-- ===== src/Frame/RoundTrip.antt =====
-- A frame that was built is read back as the same frame.
use edifice.Base.{
  ℕ, suc, ◌+◌, ◌-◌, ◌*◌, ◌%◌, ◌≤◌, ◌<◌, bit_and, bit_or, ◌≡◌, refl, arith, Bool, true, false, ◌==◌,
  List, [], ◌∷◌, ◌++◌, length, length-append, ret, load, some, none, slice_exact, load_last,
  Bool-cases, inl, inr, ltb, leb, not,
}
use native.Mathlib.Decide.{dec_lt}
use edifice.Base.Bits.{IsByte, passes_below, agree_below}
use edifice.Pentagon.Checksum.{xor_all, xor_check_sum-append}
use edifice.Apdu.Types.{Apdu, Env}
use edifice.Device.Manager.{IDevice, DeviceManager}
use edifice.Frame.Types.{Frame, FrameClass, standard, extended}
use edifice.Frame.Build.{standard_ctrl, extended_ctrl, route, build_frame_from_apdu}
use edifice.Frame.Parse.{
  accept, group_bit, standard_from_buff, extended_from_buff, build_frame_from_buff,
}
use edifice.Frame.Layout.{
  standard_rest, extended_rest, standard_layout, extended_layout, standard_from_apdu-layout,
  extended_from_apdu-layout,
}

eq_refl : (n : ℕ) → (n == n) ≡ true
eq_refl n = ground arith

pub accept_summed :
    (c : FrameClass) (b k : ℕ) (bs : List ℕ)
    → length bs ≡ k
    → accept c ((b ∷ bs) ++ (xor_all b bs ∷ [])) (suc (suc k)) (suc (suc k))
      ≡ ret (
          some (record {
            class = c;
            frame_len = suc (suc k);
            frame_mem = (b ∷ bs) ++ (xor_all b bs ∷ []);
          }))
unfolding accept
accept_summed c b k bs h =
    let e : suc (suc k) - 1 ≡ suc k = omega arith in
    rw (eq_refl (suc (suc k)), e)
      (rw (load_last bs (xor_all b bs) k h) (
        rw (xor_check_sum-append b bs (xor_all b bs ∷ []) k h) (
          rw
            (slice_exact (suc (suc k)) ((b ∷ bs) ++ (xor_all b bs ∷ []))
              (omega (arith, length-append bs (xor_all b bs ∷ []))))
            (rw (eq_refl (xor_all b bs))))))

-- The fields of the header as the parsers read them.
pub standard_ctrl_class : (a : Apdu) → IsByte a.priority → bit_and (standard_ctrl a) 0x80 ≡ 0x80
unfolding standard_ctrl passes_below
standard_ctrl_class a h =
    agree_below 256 (λ p. bit_and (bit_or 0xb0 (bit_and p 0x03 * 4 % 256)) 0x80) (λ p. 0x80) refl
      a.priority h

pub extended_ctrl_class : (a : Apdu) → IsByte a.priority → bit_and (extended_ctrl a) 0x80 ≡ 0
unfolding extended_ctrl passes_below
extended_ctrl_class a h =
    agree_below 256 (λ p. bit_and (bit_or 0x30 (bit_and p 0x03 * 4 % 256)) 0x80) (λ p. 0) refl
      a.priority h

pub route_length : (a : Apdu) (n : ℕ) → n < 16 → bit_and (bit_or (route a) n) 0x0f ≡ n
unfolding route passes_below
route_length a n h = elim (Bool-cases (a.addrtype == 0)) [
  | inl e ↦ rw e (agree_below 16 (λ n. bit_and (bit_or 0x70 n) 0x0f) (λ n. n) refl n h)
  | inr e ↦ rw e (agree_below 16 (λ n. bit_and (bit_or 0xf0 n) 0x0f) (λ n. n) refl n h)
]

-- The group bit is read wherever its byte is there.
group_bit_defined :
    (recved : Bool) (buff : List ℕ) (k b : ℕ)
    → load buff k ≡ ret b
    → (g : Bool) × (group_bit recved buff k ≡ ret g)
unfolding group_bit
group_bit_defined true buff k b h = (not (bit_and b 0x80 == 0), rw h)
group_bit_defined false buff k b h = (false, refl)

-- Which layout an APDU of a length gets.
pub standard_built :
    (a : Apdu)
    → length a.apdu_mem ≡ a.apdu_len
    → 1 ≤ a.apdu_len
    → a.apdu_len < 16
    → build_frame_from_apdu a ≡ ret (standard_layout a)
unfolding build_frame_from_apdu
standard_built a h lo p =
    let e : ltb a.apdu_len 16 ≡ true = ground arith in
    let e' : leb 1 a.apdu_len ≡ true = ground arith in
    let e0 : (a.apdu_len == 0) ≡ false = ground arith in
    rw (e0, e, e') (standard_from_apdu-layout a h (omega arith))

pub extended_built :
    (a : Apdu)
    → length a.apdu_mem ≡ a.apdu_len
    → 16 ≤ a.apdu_len
    → a.apdu_len ≤ 247
    → build_frame_from_apdu a ≡ ret (extended_layout a)
unfolding build_frame_from_apdu
extended_built a h lo hi =
    let e : ltb a.apdu_len 16 ≡ false = ground arith in
    let e0 : (a.apdu_len == 0) ≡ false = ground arith in
    rw (e0, e) (extended_from_apdu-layout a h hi)

module _ {D : Type 0} (dev : IDevice D) (env : Env) where
  standard_parsed :
      (a : Apdu) (recved : Bool) (m : DeviceManager D)
      → length a.apdu_mem ≡ a.apdu_len
      → 1 ≤ a.apdu_len
      → a.apdu_len ≤ 15
      → IsByte a.priority
      → standard_from_buff dev env
          (some (standard_layout a).frame_mem)
          (standard_layout a).frame_len
          recved
          false
          m
        ≡ ret (some (standard_layout a), m)
  unfolding standard_from_buff standard_layout
  standard_parsed a recved m h lo hi hp =
      let n = a.apdu_len in
      let k : ℕ = suc (suc (suc (suc (suc n)))) in
      let e : n + 7 ≡ suc (suc k) = omega arith in
      let e' : ltb 22 (suc (suc k)) ≡ false = ground arith in
      let e'' : leb (suc (suc k)) 7 ≡ false = ground arith in
      let e3 : 6 + n + 1 ≡ suc (suc k) = omega arith in
      let (g, eg) =
        group_bit_defined recved (standard_layout a).frame_mem 5 (bit_or (route a) n) refl in
      rw (e, e', e'', standard_ctrl_class a hp)
        (rw eg (
          rw (route_length a n (omega arith), e3)
            (rw (accept_summed standard (standard_ctrl a) k (standard_rest a) (omega arith)))))

  extended_parsed :
      (a : Apdu) (recved : Bool) (m : DeviceManager D)
      → length a.apdu_mem ≡ a.apdu_len
      → 16 ≤ a.apdu_len
      → IsByte a.priority
      → extended_from_buff dev env
          (some (extended_layout a).frame_mem)
          (extended_layout a).frame_len
          recved
          false
          m
        ≡ ret (some (extended_layout a), m)
  unfolding extended_from_buff extended_layout
  extended_parsed a recved m h lo hp =
      let n = a.apdu_len in
      let k : ℕ = suc (suc (suc (suc (suc (suc n))))) in
      let e : n + 8 ≡ suc (suc k) = omega arith in
      let e' : leb (suc (suc k)) 22 ≡ false = ground arith in
      let e3 : 7 + n + 1 ≡ suc (suc k) = omega arith in
      let (g, eg) = group_bit_defined recved (extended_layout a).frame_mem 1 (route a) refl in
      rw (e, e', extended_ctrl_class a hp)
        (rw eg
          (rw e3 (rw (accept_summed extended (extended_ctrl a) k (extended_rest a) (omega arith)))))

  -- The standard parser passes over an extended frame.
  extended_not_standard :
      (a : Apdu) (recved : Bool) (m : DeviceManager D)
      → 16 ≤ a.apdu_len
      → standard_from_buff dev env
          (some (extended_layout a).frame_mem)
          (extended_layout a).frame_len
          recved
          false
          m
        ≡ ret (none, m)
  unfolding standard_from_buff extended_layout
  extended_not_standard a recved m lo =
      let e : ltb 22 (a.apdu_len + 8) ≡ true = ground arith in rw e

  pub standard_found :
      (a : Apdu) (recved : Bool) (m : DeviceManager D)
      → length a.apdu_mem ≡ a.apdu_len
      → 1 ≤ a.apdu_len
      → a.apdu_len < 16
      → IsByte a.priority
      → build_frame_from_buff dev env
          (some (standard_layout a).frame_mem)
          (standard_layout a).frame_len
          recved
          false
          m
        ≡ ret (some (standard_layout a), m)
  unfolding build_frame_from_buff
  standard_found a recved m h lo hi hp = rw (standard_parsed a recved m h lo (omega arith) hp)

  pub extended_found :
      (a : Apdu) (recved : Bool) (m : DeviceManager D)
      → length a.apdu_mem ≡ a.apdu_len
      → 16 ≤ a.apdu_len
      → IsByte a.priority
      → build_frame_from_buff dev env
          (some (extended_layout a).frame_mem)
          (extended_layout a).frame_len
          recved
          false
          m
        ≡ ret (some (extended_layout a), m)
  unfolding build_frame_from_buff
  extended_found a recved m h lo hp =
      rw (extended_not_standard a recved m lo) (rw (extended_parsed a recved m h lo hp))

  -- A frame built from an APDU of 1 to 247 bytes (of as many as its length member says, and with a
  -- priority that is a byte) exists, and read from its own bytes without the address test it
  -- is found again: same class, length and bytes; the device table is left as it was.
  build_frame_from_buff-build_frame_from_apdu :
      (a : Apdu) (recved : Bool) (m : DeviceManager D)
      → length a.apdu_mem ≡ a.apdu_len
      → 1 ≤ a.apdu_len
      → a.apdu_len ≤ 247
      → IsByte a.priority
      → (f : Frame) × (build_frame_from_apdu a ≡ ret f)
        × (build_frame_from_buff dev env (some f.frame_mem) f.frame_len recved false m
            ≡ ret (some f, m))
  build_frame_from_buff-build_frame_from_apdu a recved m h lo hi hp = elim (dec_lt a.apdu_len 16) [
    | yes p ↦ (standard_layout a, standard_built a h lo p, standard_found a recved m h lo p hp)
    | no p ↦ (
      extended_layout a,
      extended_built a h (omega arith) hi,
      extended_found a recved m h (omega arith) hp,
    )
  ]
