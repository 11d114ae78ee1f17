-- ===== src/Frame/Repeat.antt =====
-- `SetReptBit` changes the control byte and leaves the checksum as it was.
use edifice.Base.{
  ℕ, ◌+◌, ◌*◌, ◌%◌, ◌≤◌, ◌<◌, bit_and, bit_or, ◌≡◌, ◌≢◌, refl, arith, Bool, false, ◌==◌, List, [],
  ◌∷◌, ◌++◌, length-append, All, ret, some, Bool-cases, inl, inr, set,
}
use edifice.Base.Bits.{IsByte, passes_below, agree_below}
use edifice.Pentagon.Checksum.{xor_all, xor_all-IsByte}
use edifice.Apdu.Types.{Apdu, Env}
use edifice.Device.Manager.{IDevice, DeviceManager}
use edifice.Frame.Types.{Frame, set_rept_bit}
use edifice.Frame.Build.{standard_ctrl, extended_ctrl, route, build_frame_from_apdu}
use edifice.Frame.Parse.{build_frame_from_buff}
use edifice.Frame.Layout.{
  IsSendable, standard_rest, extended_rest, standard_layout, extended_layout,
}
use edifice.Frame.RoundTrip.{standard_found, extended_found, standard_built, extended_built}
use edifice.Frame.Corruption.{changed_byte_detected}
use native.Mathlib.Decide.{dec_lt}

All-append {ℓ} :
    {A : Type 0} (P : A → Type ℓ) (xs ys : List A) → All P xs → All P ys → All P (xs ++ ys)
All-append P [] ys h k = k
All-append P (x ∷ xs) ys (h, hs) k = (h, All-append P xs ys hs k)

standard_ctrl_repeat :
    (a : Apdu) → IsByte a.priority → bit_and (standard_ctrl a) 0xdf + 0x20 ≡ standard_ctrl a
unfolding standard_ctrl passes_below
standard_ctrl_repeat a h =
    agree_below 256 (λ p. bit_and (bit_or 0xb0 (bit_and p 0x03 * 4 % 256)) 0xdf + 0x20)
      (λ p. bit_or 0xb0 (bit_and p 0x03 * 4 % 256)) refl a.priority h

standard_ctrl_byte : (a : Apdu) → IsByte a.priority → standard_ctrl a ≡ standard_ctrl a % 256
unfolding standard_ctrl passes_below
standard_ctrl_byte a h =
    agree_below 256 (λ p. bit_or 0xb0 (bit_and p 0x03 * 4 % 256))
      (λ p. bit_or 0xb0 (bit_and p 0x03 * 4 % 256) % 256) refl a.priority h

extended_ctrl_repeat :
    (a : Apdu) → IsByte a.priority → bit_or (extended_ctrl a) 0x40 ≡ extended_ctrl a + 0x40
unfolding extended_ctrl passes_below
extended_ctrl_repeat a h =
    agree_below 256 (λ p. bit_or (bit_or 0x30 (bit_and p 0x03 * 4 % 256)) 0x40)
      (λ p. bit_or 0x30 (bit_and p 0x03 * 4 % 256) + 0x40) refl a.priority h

extended_ctrl_byte : (a : Apdu) → IsByte a.priority → extended_ctrl a ≡ extended_ctrl a % 128
unfolding extended_ctrl passes_below
extended_ctrl_byte a h =
    agree_below 256 (λ p. bit_or 0x30 (bit_and p 0x03 * 4 % 256))
      (λ p. bit_or 0x30 (bit_and p 0x03 * 4 % 256) % 128) refl a.priority h

route-IsByte : (a : Apdu) (n : ℕ) → n < 16 → IsByte (bit_or (route a) n)
unfolding route passes_below
route-IsByte a n h = elim (Bool-cases (a.addrtype == 0)) [
  | inl e ↦ rw e (
      let t : bit_or 0x70 n ≡ bit_or 0x70 n % 256 =
        agree_below 16 (λ n. bit_or 0x70 n) (λ n. bit_or 0x70 n % 256) refl n h in
      omega arith)
  | inr e ↦ rw e (
      let t : bit_or 0xf0 n ≡ bit_or 0xf0 n % 256 =
        agree_below 16 (λ n. bit_or 0xf0 n) (λ n. bit_or 0xf0 n % 256) refl n h in
      omega arith)
]

route_alone : (a : Apdu) → IsByte (route a)
unfolding route
route_alone a = elim (Bool-cases (a.addrtype == 0)) [
  | inl e ↦ rw e (omega arith)
  | inr e ↦ rw e (omega arith)
]

standard_bytes :
    (a : Apdu) → IsSendable a → a.apdu_len < 16 → All IsByte (standard_layout a).frame_mem
unfolding standard_layout
standard_bytes a s h =
    let c : IsByte (standard_ctrl a) = omega (arith, standard_ctrl_byte a s.priority) in
    let rest : All IsByte (standard_rest a) = (
      s.host_high,
      (s.host_low, (s.peer_high, (s.peer_low, (route-IsByte a a.apdu_len h, s.bytes)))),
    ) in
    All-append IsByte (standard_ctrl a ∷ standard_rest a) _ (c, rest)
      (xor_all-IsByte (standard_ctrl a) (standard_rest a) c rest, tt)

extended_bytes : (a : Apdu) → IsSendable a → All IsByte (extended_layout a).frame_mem
unfolding extended_layout
extended_bytes a s =
    let c : IsByte (extended_ctrl a) = omega (arith, extended_ctrl_byte a s.priority) in
    let rest : All IsByte (extended_rest a) = (
      route_alone a,
      (s.host_high, (s.host_low, (s.peer_high, (s.peer_low, (omega (arith, s.at_most), s.bytes))))),
    ) in
    All-append IsByte (extended_ctrl a ∷ extended_rest a) _ (c, rest)
      (xor_all-IsByte (extended_ctrl a) (extended_rest a) c rest, tt)

-- The two layouts with the control byte that `SetReptBit` leaves.
abbrev standard_repeated : Apdu → Frame
standard_repeated a =
    let f = standard_layout a in
    record f { frame_mem = set f.frame_mem 0 (bit_and (standard_ctrl a) 0xdf) }

abbrev extended_repeated : Apdu → Frame
extended_repeated a =
    let f = extended_layout a in
    record f { frame_mem = set f.frame_mem 0 (bit_or (extended_ctrl a) 0x40) }

set_rept_bit-standard : (a : Apdu) → set_rept_bit (standard_layout a) ≡ ret (standard_repeated a)
unfolding set_rept_bit standard_layout
set_rept_bit-standard a = refl

set_rept_bit-extended : (a : Apdu) → set_rept_bit (extended_layout a) ≡ ret (extended_repeated a)
unfolding set_rept_bit extended_layout
set_rept_bit-extended a = refl

module _ {D : Type 0} (dev : IDevice D) (env : Env) where
  standard_repeated_rejected :
      (a : Apdu) (recved check : Bool) (m : DeviceManager D) (g : Frame) (m' : DeviceManager D)
      → IsSendable a
      → a.apdu_len < 16
      → build_frame_from_buff dev env
          (some (standard_repeated a).frame_mem)
          (standard_repeated a).frame_len
          recved
          check
          m
        ≢ ret (some g, m')
  unfolding standard_layout
  standard_repeated_rejected a recved check m g m' s h =
      let f = standard_layout a in
      changed_byte_detected dev env f.frame_mem f.frame_len 0 (bit_and (standard_ctrl a) 0xdf)
        recved recved false check m m {f = f} {m' = m} {old = standard_ctrl a}
        (omega (
          arith,
          s.sized,
          length-append a.apdu_mem (xor_all (standard_ctrl a) (standard_rest a) ∷ []),
        ))
        (omega arith) (standard_bytes a s h)
        (omega (arith, standard_ctrl_repeat a s.priority, standard_ctrl_byte a s.priority)) refl
        (omega (arith, standard_ctrl_repeat a s.priority))
        (standard_found dev env a recved m s.sized s.at_least h s.priority) g m'

  extended_repeated_rejected :
      (a : Apdu) (recved check : Bool) (m : DeviceManager D) (g : Frame) (m' : DeviceManager D)
      → IsSendable a
      → 16 ≤ a.apdu_len
      → build_frame_from_buff dev env
          (some (extended_repeated a).frame_mem)
          (extended_repeated a).frame_len
          recved
          check
          m
        ≢ ret (some g, m')
  unfolding extended_layout
  extended_repeated_rejected a recved check m g m' s h =
      let f = extended_layout a in
      changed_byte_detected dev env f.frame_mem f.frame_len 0 (bit_or (extended_ctrl a) 0x40) recved
        recved false check m m {f = f} {m' = m} {old = extended_ctrl a}
        (omega (
          arith,
          s.sized,
          length-append a.apdu_mem (xor_all (extended_ctrl a) (extended_rest a) ∷ []),
        ))
        (omega arith) (extended_bytes a s)
        (omega (arith, extended_ctrl_repeat a s.priority, extended_ctrl_byte a s.priority)) refl
        (omega (arith, extended_ctrl_repeat a s.priority))
        (extended_found dev env a recved m s.sized h s.priority) g m'

  -- A frame whose repeat bit was set by `SetReptBit` is never accepted: for every APDU that can be
  -- sent (1 to 247 bytes, as many as its length member says, all of them, its addresses and its
  -- priority below 256), the call succeeds on the frame built from it, and `BuildFrameFromBuff` returns no
  -- frame for the result, in either direction, with or without the address test.
  pub set_rept_bit_rejected :
      (a : Apdu) (recved check : Bool) (m : DeviceManager D) (g : Frame) (m' : DeviceManager D)
      → IsSendable a
      → (f f' : Frame) × (build_frame_from_apdu a ≡ ret f)
        × (set_rept_bit f ≡ ret f')
        × (build_frame_from_buff dev env (some f'.frame_mem) f'.frame_len recved check m
            ≢ ret (some g, m'))
  set_rept_bit_rejected a recved check m g m' s = elim (dec_lt a.apdu_len 16) [
    | yes p ↦ (
      standard_layout a,
      standard_repeated a,
      standard_built a s.sized s.at_least p,
      set_rept_bit-standard a,
      standard_repeated_rejected a recved check m g m' s p,
    )
    | no p ↦ (
      extended_layout a,
      extended_repeated a,
      extended_built a s.sized (omega arith) s.at_most,
      set_rept_bit-extended a,
      extended_repeated_rejected a recved check m g m' s (omega arith),
    )
  ]
