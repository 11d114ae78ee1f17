-- ===== src/Frame/Accepted.antt =====
-- What a byte sequence is like that `BuildFrameFromBuff` accepts.
use edifice.Base.{
  ℕ, ◌+◌, ◌-◌, ◌≤◌, ◌≡◌, ◌≢◌, refl, ap, sym, ◌∙◌, ◌||◌, bit_and, arith, Bool, true, false, ◌==◌,
  ==_iff, if◌then◌else◌, List, set, Outcome, ret, fault, aborted, load, slice, Option, some, none,
  >>=-eq-ret, Bool-cases, inl, inr, ltb, leb,
}
use edifice.Pentagon.Checksum.{xor_check_sum}
use edifice.Apdu.Types.{Env}
use edifice.Device.Manager.{IDevice, DeviceManager}
use edifice.Frame.Types.{Frame, FrameClass, standard, extended}
use edifice.Frame.Parse.{
  accept, checked_copy, finish, standard_from_buff, extended_from_buff, build_frame_from_buff,
  or_short, one_byte_from_buff, one_byte_of, group_bit, address_stage, standard_body, extended_body,
}

-- The frame is a copy of the first `len` bytes, and the last of them is the checksum of the others.
pub record IsCopy (c : FrameClass) (buff : List ℕ) (len : ℕ) (f : Frame) : Type 0 where
  pub of_class : f.class ≡ c
  pub of_len : f.frame_len ≡ len
  pub of_bytes : slice buff 0 len ≡ ret f.frame_mem
  pub summed : xor_check_sum buff (len - 1) ≡ load buff (len - 1)

checked_copy-IsCopy :
    (c : FrameClass) (buff : List ℕ) (len : ℕ) {f : Frame}
    → checked_copy c buff len ≡ ret (some f)
    → IsCopy c buff len f
unfolding checked_copy
checked_copy-IsCopy c buff len {f = f} e =
    let (last, el, e1) = >>=-eq-ret (load buff (len - 1)) _ e in
    let (checksum, es, e2) = >>=-eq-ret (xor_check_sum buff (len - 1)) _ e1 in
    let (mem, em, e3) = >>=-eq-ret (slice buff 0 len) _ e2 in
    let same : last ≡ checksum = ground arith in
    let bytes : mem ≡ f.frame_mem = ground arith in
    record {
      of_class = ground arith;
      of_len = ground arith;
      of_bytes = em ∙ ap ret bytes;
      summed = es ∙ ap ret (sym same) ∙ sym el;
    }

-- The shape that a standard frame has, and an extended one: the class bit of the control byte, the
-- range of the length, and a length field that says exactly this length.
pub record IsStandard (buff : List ℕ) (len : ℕ) : Type 0 where
  pub ctrl : ℕ
  pub octet5 : ℕ
  pub ctrl_read : load buff 0 ≡ ret ctrl
  pub class_bit : bit_and ctrl 0x80 ≢ 0
  pub octet5_read : load buff 5 ≡ ret octet5
  pub len_exact : len ≡ bit_and octet5 0x0f + 7
  pub at_least : 8 ≤ len
  pub at_most : len ≤ 22

pub record IsExtended (buff : List ℕ) (len : ℕ) : Type 0 where
  pub ctrl : ℕ
  pub octet6 : ℕ
  pub ctrl_read : load buff 0 ≡ ret ctrl
  pub class_bit : bit_and ctrl 0x80 ≡ 0
  pub octet6_read : load buff 6 ≡ ret octet6
  pub len_exact : len ≡ octet6 + 8
  pub at_least : 23 ≤ len

accept_checked :
    (c : FrameClass) (buff : List ℕ) (len expected : ℕ) {f : Frame}
    → accept c buff len expected ≡ ret (some f)
    → (expected ≡ len) × IsCopy c buff len f
unfolding accept
accept_checked c buff len expected e = elim (Bool-cases (expected == len)) [
  | inl p ↦ ((==_iff _ _).0 p, checked_copy-IsCopy c buff len (rw p at e))
  | inr p ↦ cc (rw p at e)
]

-- What was accepted, by the parser that accepted it.
pub data Accepted (buff : List ℕ) (len : ℕ) (f : Frame) : Type 0 where
  by_standard : IsStandard buff len → IsCopy standard buff len f → Accepted buff len f
  by_extended : IsExtended buff len → IsCopy extended buff len f → Accepted buff len f
  by_short : {b : ℕ} → len ≡ 1 → load buff 0 ≡ ret b → one_byte_of b ≡ some f → Accepted buff len f

module _ {D : Type 0} (dev : IDevice D) where
  finish_checked :
      (c : FrameClass) (buff : List ℕ) (len : ℕ) (expected : Outcome ℕ) (r : Bool × DeviceManager D)
      {f : Frame} {m' : DeviceManager D}
      → finish dev c buff len expected r ≡ ret (some f, m')
      → (r.0 ≡ true) × (expected ≡ ret len) × IsCopy c buff len f
  unfolding finish
  finish_checked c buff len expected (false, m) e = cc
  finish_checked c buff len expected (true, m) {f = f} {m' = m'} e =
      let (n, en, e1) = >>=-eq-ret expected _ e in
      let (g, eg, e2) = >>=-eq-ret (accept c buff len n) _ e1 in
      let same : g ≡ some f = ground arith in
      let (exact, copied) = accept_checked c buff len n (eg ∙ ap ret same) in
      (refl, en ∙ ap ret exact, copied)

  standard_body_checked :
      (env : Env) (buff : List ℕ) (len : ℕ) (recved check_address : Bool) (m : DeviceManager D)
      {f : Frame} {m' : DeviceManager D}
      → standard_body dev env buff len recved check_address m ≡ ret (some f, m')
      → (b : ℕ) × (load buff 5 ≡ ret b) × (bit_and b 0x0f + 7 ≡ len) × IsCopy standard buff len f
  unfolding standard_body
  standard_body_checked env buff len recved check_address m e =
      let (group, eg, e1) = >>=-eq-ret (group_bit recved buff 5) _ e in
      let (r, er, e2) =
        >>=-eq-ret (address_stage dev env check_address group buff (if recved then 3 else 1) m) _
          e1 in
      let (ok, ee, copied) = finish_checked standard buff len _ r e2 in
      let (b, eb, el) = >>=-eq-ret (load buff 5) _ ee in (b, eb, ground arith, copied)

  -- The standard parser accepts only bytes of the standard shape, copied under the checksum test.
  pub standard_checked :
      (env : Env) (buff : List ℕ) (len : ℕ) (recved check_address : Bool) (m : DeviceManager D)
      {f : Frame} {m' : DeviceManager D}
      → standard_from_buff dev env (some buff) len recved check_address m ≡ ret (some f, m')
      → IsStandard buff len × IsCopy standard buff len f
  unfolding standard_from_buff
  standard_checked env buff len recved check_address m e =
      elim (Bool-cases (ltb 22 len || leb len 7)) [
        | inl out ↦ cc (rw out at e)
        | inr within ↦
            let (ctrl, ec, e1) = >>=-eq-ret (load buff 0) _ (rw within at e) in
            elim (Bool-cases (bit_and ctrl 0x80 == 0)) [
              | inl clear ↦ cc (rw clear at e1)
              | inr set ↦
                  let (b, eb, el, copied) =
                    standard_body_checked env buff len recved check_address m (rw set at e1) in
                  (
                    record {
                      ctrl = ctrl;
                      octet5 = b;
                      ctrl_read = ec;
                      class_bit = ground arith;
                      octet5_read = eb;
                      len_exact = sym el;
                      at_least = ground arith;
                      at_most = ground arith;
                    },
                    copied,
                  )
            ]
      ]

  extended_body_checked :
      (env : Env) (buff : List ℕ) (len : ℕ) (recved check_address : Bool) (m : DeviceManager D)
      {f : Frame} {m' : DeviceManager D}
      → extended_body dev env buff len recved check_address m ≡ ret (some f, m')
      → (b : ℕ) × (load buff 6 ≡ ret b) × (b + 8 ≡ len) × IsCopy extended buff len f
  unfolding extended_body
  extended_body_checked env buff len recved check_address m e =
      let (group, eg, e1) = >>=-eq-ret (group_bit recved buff 1) _ e in
      let (r, er, e2) =
        >>=-eq-ret (address_stage dev env check_address group buff (if recved then 4 else 2) m) _
          e1 in
      let (ok, ee, copied) = finish_checked extended buff len _ r e2 in
      let (b, eb, el) = >>=-eq-ret (load buff 6) _ ee in (b, eb, ground arith, copied)

  -- The extended parser likewise.
  pub extended_checked :
      (env : Env) (buff : List ℕ) (len : ℕ) (recved check_address : Bool) (m : DeviceManager D)
      {f : Frame} {m' : DeviceManager D}
      → extended_from_buff dev env (some buff) len recved check_address m ≡ ret (some f, m')
      → IsExtended buff len × IsCopy extended buff len f
  unfolding extended_from_buff
  extended_checked env buff len recved check_address m e = elim (Bool-cases (leb len 22)) [
    | inl short ↦ cc (rw short at e)
    | inr long ↦
        let (ctrl, ec, e1) = >>=-eq-ret (load buff 0) _ (rw long at e) in
        elim (Bool-cases (bit_and ctrl 0x80 == 0)) [
          | inr set ↦ cc (rw set at e1)
          | inl clear ↦
              let (b, eb, el, copied) =
                extended_body_checked env buff len recved check_address m (rw clear at e1) in
              (
                record {
                  ctrl = ctrl;
                  octet6 = b;
                  ctrl_read = ec;
                  class_bit = ground arith;
                  octet6_read = eb;
                  len_exact = sym el;
                  at_least = ground arith;
                },
                copied,
              )
        ]
  ]

  or_short-Accepted :
      (env : Env) (buff : List ℕ) (len : ℕ) (recved check_address : Bool) (m : DeviceManager D)
      (r : Outcome (Option Frame × DeviceManager D)) {f : Frame} {m' : DeviceManager D}
      → extended_from_buff dev env (some buff) len recved check_address m ≡ r
      → or_short dev (some buff) len r ≡ ret (some f, m')
      → Accepted buff len f
  unfolding or_short one_byte_from_buff
  or_short-Accepted env buff len recved check_address m aborted h e = cc
  or_short-Accepted env buff len recved check_address m fault h e = cc
  or_short-Accepted env buff len recved check_address m (ret (some g, m1)) {f = f} {m' = m'} h e =
      let (shape, copied) =
        extended_checked env buff len recved check_address m {f = f} {m' = m'} (h ∙ e) in
      by_extended shape copied
  or_short-Accepted env buff len recved check_address m (ret (none, m1)) h e =
      elim (Bool-cases (len == 1)) [
        | inl one ↦
            let (o, eo, e1) =
              >>=-eq-ret (one_byte_from_buff (some buff) len) (λ o. ret (o, m1)) e in
            let (b, eb, e2) = >>=-eq-ret (load buff 0) (λ b. ret (one_byte_of b)) (rw one at eo) in
            by_short ((==_iff _ _).0 one) eb (ground arith)
        | inr other ↦ cc (rw other at e)
      ]

  after_standard-Accepted :
      (env : Env) (buff : List ℕ) (len : ℕ) (recved check_address : Bool) (m : DeviceManager D)
      (s : Option Frame × DeviceManager D) {f : Frame} {m' : DeviceManager D}
      → standard_from_buff dev env (some buff) len recved check_address m ≡ ret s
      → elim s.0 [
        | some f ↦ ret s
        | none ↦
            or_short dev
              (some buff)
              len
              (extended_from_buff dev env (some buff) len recved check_address s.1)
      ]
        ≡ ret (some f, m')
      → Accepted buff len f
  after_standard-Accepted env buff len recved check_address m (some g, m1) {f = f} {m' = m'} h e =
      let (shape, copied) =
        standard_checked env buff len recved check_address m {f = f} {m' = m'} (h ∙ e) in
      by_standard shape copied
  after_standard-Accepted env buff len recved check_address m (none, m1) h e =
      or_short-Accepted env buff len recved check_address m1 _ refl e

  -- `BuildFrameFromBuff` is sound, for every setting of the address test: a frame that it returns is
  -- of one of three kinds. A standard frame has 8 to 22 bytes, bit 7 of the first byte set, and a
  -- length field (four bits of byte 5) that gives exactly its length; an extended frame has 23 bytes
  -- or more, that bit clear and its length field in byte 6; in both cases the frame holds exactly
  -- the given bytes, and the last is the checksum of the others. Or it is a single byte that is
  -- one of the four short codes.
  pub build_frame_from_buff_sound :
      (env : Env) (buff : List ℕ) (len : ℕ) (recved check_address : Bool) (m : DeviceManager D)
      {f : Frame} {m' : DeviceManager D}
      → build_frame_from_buff dev env (some buff) len recved check_address m ≡ ret (some f, m')
      → Accepted buff len f
  unfolding build_frame_from_buff
  build_frame_from_buff_sound env buff len recved check_address m e =
      let (s, es, e1) =
        >>=-eq-ret (standard_from_buff dev env (some buff) len recved check_address m) _ e in
      after_standard-Accepted env buff len recved check_address m s es e1
