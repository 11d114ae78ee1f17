-- ===== src/Frame/Addressed.antt =====
-- Which received frames pass the address test.
use edifice.Base.{
  ℕ, suc, ◌+◌, ◌≤◌, ◌<◌, bit_and, bit_or, ◌≡◌, refl, arith, Bool, true, false, if◌then◌else◌, ◌==◌,
  not, ◌||◌, ltb, leb, List, length, some, none, ret, Bool-cases, inl, inr,
}
use native.Mathlib.Decide.{dec_lt}
use edifice.Base.Bits.{passes_below, agree_below}
use edifice.Apdu.Types.{Apdu, Env}
use edifice.Device.Manager.{IDevice, DeviceManager, addr_eq, exist_group_addr}
use edifice.Device.Visits.{host_among, Answers, some_host_has-host_among}
use edifice.Frame.Types.{Frame, FrameClass, standard, extended}
use edifice.Frame.Build.{standard_ctrl, extended_ctrl, route, build_frame_from_apdu}
use edifice.Frame.Parse.{
  accept, finish, group_bit, address_matches, standard_from_buff, extended_from_buff,
  build_frame_from_buff, or_short, one_byte_from_buff,
}
use edifice.Frame.Layout.{
  IsSendable, standard_rest, extended_rest, standard_layout, extended_layout,
}
use edifice.Frame.RoundTrip.{
  standard_built, extended_built, accept_summed, route_length, standard_ctrl_class,
  extended_ctrl_class,
}

-- The group bit that `BuildFrameFromAPDU` writes, with the length in the same byte and without.
route_group :
    (a : Apdu) (n : ℕ) → n < 16 → (bit_and (bit_or (route a) n) 0x80 == 0) ≡ (a.addrtype == 0)
unfolding route passes_below
route_group a n h = elim (Bool-cases (a.addrtype == 0)) [
  | inl e ↦ rw e (
      let t : bit_and (bit_or 0x70 n) 0x80 ≡ 0 =
        agree_below 16 (λ n. bit_and (bit_or 0x70 n) 0x80) (λ n. 0) refl n h in
      ground arith)
  | inr e ↦ rw e (
      let t : bit_and (bit_or 0xf0 n) 0x80 ≡ 128 =
        agree_below 16 (λ n. bit_and (bit_or 0xf0 n) 0x80) (λ n. 128) refl n h in
      ground arith)
]

route_group_alone : (a : Apdu) → (bit_and (route a) 0x80 == 0) ≡ (a.addrtype == 0)
unfolding route
route_group_alone a = elim (Bool-cases (a.addrtype == 0)) [ inl e ↦ rw e | inr e ↦ rw e ]

module _ {D : Type 0} (dev : IDevice D) (env : Env) where
  -- Whom a frame concerns: some device that has joined the group, or some device with the address, or
  -- everybody.
  abbrev pub belongs : Apdu → List (ℕ × D) → Bool
  belongs a ds =
      if a.addrtype == 0
      then host_among dev a.peeraddr ds || addr_eq env.broadcast_addr a.peeraddr
      else exist_group_addr dev a.peeraddr ds

  address_matches-belongs :
      (a : Apdu) (m : DeviceManager D)
      → m.inited ≡ true
      → 1 ≤ length m.devs
      → Answers (address_matches dev env (not (a.addrtype == 0)) a.peeraddr m) (belongs a m.devs) m
  unfolding address_matches
  address_matches-belongs a m hi lo = elim (Bool-cases (a.addrtype == 0)) [
    | inl own ↦
        let (r, found, answer, kept, ready) = some_host_has-host_among dev a.peeraddr m hi lo in
        (
          (r.0 || addr_eq env.broadcast_addr a.peeraddr, r.1),
          rw own (rw found),
          rw (own, answer),
          kept,
          ready,
        )
    | inr group ↦ ((exist_group_addr dev a.peeraddr m.devs, m), rw group, rw group, refl, refl)
  ]

  -- What the parser makes of the test's answer.
  finish_accepted :
      (c : FrameClass) (mem : List ℕ) (len : ℕ) (f : Frame) (r : Bool × DeviceManager D)
      → accept c mem len len ≡ ret (some f)
      → finish dev c mem len (ret len) r ≡ ret (if r.0 then some f else none, r.1)
  unfolding finish
  finish_accepted c mem len f (true, m) e = rw e
  finish_accepted c mem len f (false, m) e = refl

  standard_addressed :
      (a : Apdu) (m : DeviceManager D) (r : Bool × DeviceManager D)
      → IsSendable a
      → a.apdu_len < 16
      → address_matches dev env (not (a.addrtype == 0)) a.peeraddr m ≡ ret r
      → standard_from_buff dev env
          (some (standard_layout a).frame_mem)
          (standard_layout a).frame_len
          true
          true
          m
        ≡ ret (if r.0 then some (standard_layout a) else none, r.1)
  unfolding standard_from_buff standard_layout group_bit
  standard_addressed a m r s h found =
      let n = a.apdu_len in
      let k : ℕ = suc (suc (suc (suc (suc n)))) in
      let e : n + 7 ≡ suc (suc k) = omega arith in
      let e' : ltb 22 (suc (suc k)) ≡ false = ground arith in
      let e'' : leb (suc (suc k)) 7 ≡ false = ground (arith, s.at_least) in
      let e3 : 6 + n + 1 ≡ suc (suc k) = omega arith in
      rw (e, e', e'', standard_ctrl_class a s.priority)
        (rw (route_group a n h) (
          rw found (
            rw (route_length a n h, e3)
              (finish_accepted standard _ (suc (suc k)) _ r (
                accept_summed standard (standard_ctrl a) k (standard_rest a)
                  (omega (arith, s.sized)))))))

  extended_addressed :
      (a : Apdu) (m : DeviceManager D) (r : Bool × DeviceManager D)
      → IsSendable a
      → 16 ≤ a.apdu_len
      → address_matches dev env (not (a.addrtype == 0)) a.peeraddr m ≡ ret r
      → extended_from_buff dev env
          (some (extended_layout a).frame_mem)
          (extended_layout a).frame_len
          true
          true
          m
        ≡ ret (if r.0 then some (extended_layout a) else none, r.1)
  unfolding extended_from_buff extended_layout group_bit
  extended_addressed a m r s h found =
      let n = a.apdu_len in
      let k : ℕ = suc (suc (suc (suc (suc (suc n))))) in
      let e : n + 8 ≡ suc (suc k) = omega arith in
      let e' : leb (suc (suc k)) 22 ≡ false = ground arith in
      let e3 : 7 + n + 1 ≡ suc (suc k) = omega arith in
      rw (e, e', extended_ctrl_class a s.priority)
        (rw (route_group_alone a) (
          rw found (
            rw e3 (
              finish_accepted extended _ (suc (suc k)) _ r (
                accept_summed extended (extended_ctrl a) k (extended_rest a)
                  (omega (arith, s.sized)))))))

  -- The attempts that a length rules out.
  extended_passes :
      (mem : List ℕ) (len : ℕ) (recved check : Bool) (m : DeviceManager D)
      → len ≤ 22
      → extended_from_buff dev env (some mem) len recved check m ≡ ret (none, m)
  unfolding extended_from_buff
  extended_passes mem len recved check m h = let e : leb len 22 ≡ true = ground arith in rw e

  standard_passes :
      (mem : List ℕ) (len : ℕ) (recved check : Bool) (m : DeviceManager D)
      → 22 < len
      → standard_from_buff dev env (some mem) len recved check m ≡ ret (none, m)
  unfolding standard_from_buff
  standard_passes mem len recved check m h = let e : ltb 22 len ≡ true = ground arith in rw e

  short_passes : (mem : List ℕ) (len : ℕ) → 2 ≤ len → one_byte_from_buff (some mem) len ≡ ret none
  unfolding one_byte_from_buff
  short_passes mem len h = let e : (len == 1) ≡ false = ground arith in rw e

  by_first_attempt :
      (mem : List ℕ) (len : ℕ) (m : DeviceManager D) (f : Frame) (r : Bool × DeviceManager D)
      → 2 ≤ len
      → len ≤ 22
      → standard_from_buff dev env (some mem) len true true m
        ≡ ret (if r.0 then some f else none, r.1)
      → build_frame_from_buff dev env (some mem) len true true m
        ≡ ret (if r.0 then some f else none, r.1)
  unfolding build_frame_from_buff or_short
  by_first_attempt mem len m f (true, m') lo hi e = rw e
  by_first_attempt mem len m f (false, m') lo hi e =
      rw e (rw (extended_passes mem len true true m' hi) (rw (short_passes mem len lo)))

  by_second_attempt :
      (mem : List ℕ) (len : ℕ) (m : DeviceManager D) (f : Frame) (r : Bool × DeviceManager D)
      → 22 < len
      → extended_from_buff dev env (some mem) len true true m
        ≡ ret (if r.0 then some f else none, r.1)
      → build_frame_from_buff dev env (some mem) len true true m
        ≡ ret (if r.0 then some f else none, r.1)
  unfolding build_frame_from_buff or_short
  by_second_attempt mem len m f (true, m') hi e = rw (standard_passes mem len true true m hi) (rw e)
  by_second_attempt mem len m f (false, m') hi e =
      rw (standard_passes mem len true true m hi) (rw e (rw (short_passes mem len (omega arith))))

  -- A received frame is taken exactly by those it concerns. For an APDU that can be sent (1 to 247
  -- bytes, as many as its length member says, all of them, its addresses and its priority below 256) and
  -- an initialised table with at least one device, the frame built from it is returned by
  -- `BuildFrameFromBuff`, with the address test, if its peer is the address of a device of the table
  -- or the broadcast address (or, for a group address, if a device has joined the group), and
  -- otherwise no frame is returned; the devices stay as they were.
  pub build_frame_from_buff-belongs :
      (a : Apdu) (m : DeviceManager D)
      → IsSendable a
      → m.inited ≡ true
      → 1 ≤ length m.devs
      → (f : Frame) × (m' : DeviceManager D) × (build_frame_from_apdu a ≡ ret f)
        × (build_frame_from_buff dev env (some f.frame_mem) f.frame_len true true m
            ≡ ret (if belongs a m.devs then some f else none, m'))
        × (m'.devs ≡ m.devs)
  unfolding standard_layout extended_layout
  build_frame_from_buff-belongs a m s hi lo =
      let (r, found, answer, kept, _) = address_matches-belongs a m hi lo in
      elim (dec_lt a.apdu_len 16) [
        | yes p ↦ (
          standard_layout a,
          r.1,
          standard_built a s.sized s.at_least p,
          rw (← answer) (
              by_first_attempt _ _ m (standard_layout a) r (omega arith) (omega arith)
                (standard_addressed a m r s p found)),
          kept,
        )
        | no p ↦ (
          extended_layout a,
          r.1,
          extended_built a s.sized (omega arith) s.at_most,
          rw (← answer) (
              by_second_attempt _ _ m (extended_layout a) r (omega arith)
                (extended_addressed a m r s (omega arith) found)),
          kept,
        )
      ]
