-- ===== src/Frame/Returns.antt =====
-- `BuildFrameFromBuff` of EIBCommNEO/Frame.cpp comes to its end, and reads only the bytes that it was given.
use edifice.Base.{
  ℕ, zero, suc, ◌+◌, ◌-◌, ◌≤◌, ◌<◌, ◌≡◌, refl, ap, ◌∙◌, arith, Bool, true, false, not, ltb, leb,
  ◌||◌, ◌==◌, bit_and, bit_xor, List, take, [], ◌∷◌, length, Option, none, some, Outcome, ret,
  ◌>>=◌, Bool-cases, inl, inr, load, load_defined, slice-take, if◌then◌else◌,
}
use edifice.Pentagon.Checksum.{xor_loop, xor_check_sum}
use edifice.Apdu.Types.{Env, Addr}
use edifice.Device.Manager.{IDevice, DeviceManager, addr_eq, exist_group_addr}
use edifice.Device.Visits.{some_host_has-host_among}
use edifice.Frame.Types.{Frame, FrameClass, standard, extended, read_addr}
use edifice.Frame.Parse.{
  accept, checked_copy, finish, address_matches, address_stage, group_bit, standard_body,
  extended_body, standard_from_buff, extended_from_buff, one_byte_from_buff, one_byte_of, or_short,
  build_frame_from_buff,
}

xor_loop_defined :
    (acc : ℕ) (xs : List ℕ) (n : ℕ) → n ≤ length xs → (c : ℕ) × (xor_loop acc xs n ≡ ret c)
unfolding xor_loop
xor_loop_defined acc xs zero h = (acc, refl)
xor_loop_defined acc [] (suc n) h = absurd (omega arith)
xor_loop_defined acc (x ∷ xs) (suc n) h = xor_loop_defined (bit_xor acc x) xs n (omega arith)

xor_check_sum_defined :
    (xs : List ℕ) (n : ℕ) → n ≤ length xs → (c : ℕ) × (xor_check_sum xs n ≡ ret c)
unfolding xor_check_sum
xor_check_sum_defined [] n h = (0, refl)
xor_check_sum_defined (x ∷ xs) zero h = (x, refl)
xor_check_sum_defined (x ∷ xs) (suc n) h = xor_loop_defined x xs n (omega arith)

pub read_addr_defined :
    (xs : List ℕ) (k : ℕ) → k + 1 < length xs → (a : Addr) × (read_addr xs k ≡ ret a)
unfolding read_addr
read_addr_defined xs k h =
    let (high, eh) = load_defined xs k (omega (arith, h)) in
    let (low, el) = load_defined xs (k + 1) h in
    (record { high = high; low = low }, rw (eh, el) refl)

checked_copy_defined :
    (c : FrameClass) (buff : List ℕ) (len : ℕ)
    → 1 ≤ len
    → len ≤ length buff
    → (f : Option Frame) × (checked_copy c buff len ≡ ret f)
unfolding checked_copy
checked_copy_defined c buff len some_bytes h =
    let (last, el) = load_defined buff (len - 1) (omega (arith, some_bytes, h)) in
    let (checksum, es) = xor_check_sum_defined buff (len - 1) (omega (arith, h)) in
    (
      if last == checksum
          then some (record { class = c; frame_len = len; frame_mem = take len buff })
          else none,
      rw (el, es, slice-take len buff h) refl,
    )

accept_defined :
    (c : FrameClass) (buff : List ℕ) (len expected : ℕ)
    → 1 ≤ len
    → len ≤ length buff
    → (f : Option Frame) × (accept c buff len expected ≡ ret f)
unfolding accept
accept_defined c buff len expected some_bytes h =
    let (f, copied) = checked_copy_defined c buff len some_bytes h in
    elim (Bool-cases (expected == len)) [
      | inl exact' ↦ (f, rw exact' copied)
      | inr other ↦ (none, rw other refl)
    ]

group_bit_defined :
    (recved : Bool) (buff : List ℕ) (k : ℕ)
    → k < length buff
    → (b : Bool) × (group_bit recved buff k ≡ ret b)
unfolding group_bit
group_bit_defined recved buff k h =
    let (b, read) = load_defined buff k h in
    elim (Bool-cases recved) [
      | inl yes' ↦ (not (bit_and b 0x80 == 0), rw (yes', read) refl)
      | inr no' ↦ (false, rw no' refl)
    ]

-- The address search comes to its end: the manager is set up, and has a device.
pub record IsReady {D : Type 0} (m : DeviceManager D) : Type 0 where
  pub inited : m.inited ≡ true
  pub some_device : 1 ≤ length m.devs

-- What comes to its end with a manager that is ready.
abbrev pub Returns : {A D : Type 0} → Outcome (A × DeviceManager D) → Type 0
Returns {A} {D} o = (x : A) × (m : DeviceManager D) × (o ≡ ret (x, m)) × IsReady m

pub >>=-Returns :
    {A B D : Type 0} (o : Outcome (A × DeviceManager D))
    (next : A × DeviceManager D → Outcome (B × DeviceManager D))
    → Returns o
    → ((x : A) (m : DeviceManager D) → IsReady m → Returns (next (x, m)))
    → Returns (o >>= next)
>>=-Returns o next (x, m, ended, ready) later =
    let (y, m', ended', ready') = later x m ready in
    (y, m', ap (λ p. p >>= next) ended ∙ ended', ready')

module _ {D : Type 0} (dev : IDevice D) (env : Env) where
  address_matches-Returns :
      (group : Bool) (addr : Addr) (m : DeviceManager D)
      → IsReady m
      → Returns (address_matches dev env group addr m)
  unfolding address_matches
  address_matches-Returns group addr m ready =
      let (r, found, answer, kept, set_up) =
        some_host_has-host_among dev addr m ready.inited ready.some_device in
      elim (Bool-cases group) [
        | inl yes' ↦ (exist_group_addr dev addr m.devs, m, rw yes' refl, ready)
        | inr no' ↦ (
          r.0 || addr_eq env.broadcast_addr addr,
          r.1,
          rw (no', found) refl,
          record {
            inited = set_up ∙ ready.inited;
            some_device = omega (arith, ready.some_device, ap length kept);
          },
        )
      ]

  address_stage-Returns :
      (check_address group : Bool) (buff : List ℕ) (pos : ℕ) (m : DeviceManager D)
      → pos + 1 < length buff
      → IsReady m
      → Returns (address_stage dev env check_address group buff pos m)
  unfolding address_stage
  address_stage-Returns check_address group buff pos m h ready =
      let (addr, read) = read_addr_defined buff pos h in
      let (b, m', matched, ready') = address_matches-Returns group addr m ready in
      elim (Bool-cases check_address) [
        | inl yes' ↦ (b, m', rw (yes', read) matched, ready')
        | inr no' ↦ (true, m, rw no' refl, ready)
      ]

  finish-Returns :
      (c : FrameClass) (buff : List ℕ) (len n : ℕ) (expected : Outcome ℕ) (b : Bool)
      (m : DeviceManager D)
      → 1 ≤ len
      → len ≤ length buff
      → expected ≡ ret n
      → IsReady m
      → Returns (finish dev c buff len expected (b, m))
  unfolding finish
  finish-Returns c buff len n expected false m some_bytes h e ready = (none, m, refl, ready)
  finish-Returns c buff len n expected true m some_bytes h e ready =
      let (f, accepted) = accept_defined c buff len n some_bytes h in
      (f, m, rw (e, accepted) refl, ready)

  standard_body-Returns :
      (buff : List ℕ) (len : ℕ) (recved check_address : Bool) (m : DeviceManager D)
      → 8 ≤ len
      → len ≤ length buff
      → IsReady m
      → Returns (standard_body dev env buff len recved check_address m)
  unfolding standard_body
  standard_body-Returns buff len recved check_address m long h ready =
      let (group, marked) = group_bit_defined recved buff 5 (omega (arith, long, h)) in
      let (octet5, read) = load_defined buff 5 (omega (arith, long, h)) in
      let place : (if recved then 3 else 1) + 1 < length buff = ground (arith, long, h) in
      let (ok, m', matched, ready') =
        address_stage-Returns check_address group buff (if recved then 3 else 1) m place ready in
      let (f, m₂, ended, ready₂) =
        finish-Returns standard buff len (5 + 1 + bit_and octet5 0x0f + 1)
          (load buff 5 >>= λ b. ret (5 + 1 + bit_and b 0x0f + 1)) ok m' (omega (arith, long)) h
          (rw read refl) ready' in
      (f, m₂, rw (marked, matched) ended, ready₂)

  extended_body-Returns :
      (buff : List ℕ) (len : ℕ) (recved check_address : Bool) (m : DeviceManager D)
      → 23 ≤ len
      → len ≤ length buff
      → IsReady m
      → Returns (extended_body dev env buff len recved check_address m)
  unfolding extended_body
  extended_body-Returns buff len recved check_address m long h ready =
      let (group, marked) = group_bit_defined recved buff 1 (omega (arith, long, h)) in
      let (octet6, read) = load_defined buff 6 (omega (arith, long, h)) in
      let place : (if recved then 4 else 2) + 1 < length buff = ground (arith, long, h) in
      let (ok, m', matched, ready') =
        address_stage-Returns check_address group buff (if recved then 4 else 2) m place ready in
      let (f, m₂, ended, ready₂) =
        finish-Returns extended buff len (6 + 1 + octet6 + 1)
          (load buff 6 >>= λ b. ret (6 + 1 + b + 1)) ok m' (omega (arith, long)) h (rw read refl)
          ready' in
      (f, m₂, rw (marked, matched) ended, ready₂)

  standard_from_buff-Returns :
      (buff : List ℕ) (len : ℕ) (recved check_address : Bool) (m : DeviceManager D)
      → len ≤ length buff
      → IsReady m
      → Returns (standard_from_buff dev env (some buff) len recved check_address m)
  unfolding standard_from_buff
  standard_from_buff-Returns buff len recved check_address m h ready =
      elim (Bool-cases (ltb 22 len || leb len 7)) [
        | inl out ↦ (none, m, rw out refl, ready)
        | inr in_range ↦
            (let long : 8 ≤ len = ground (arith, in_range) in
              let (ctrl, read) = load_defined buff 0 (omega (arith, long, h)) in
              let (f, m', ended, ready') =
                standard_body-Returns buff len recved check_address m long h ready in
              elim (Bool-cases (bit_and ctrl 0x80 == 0)) [
                | inl other ↦ (none, m, rw (in_range, read, other) refl, ready)
                | inr mine ↦ (f, m', rw (in_range, read, mine) ended, ready')
              ])
      ]

  extended_from_buff-Returns :
      (buff : List ℕ) (len : ℕ) (recved check_address : Bool) (m : DeviceManager D)
      → len ≤ length buff
      → IsReady m
      → Returns (extended_from_buff dev env (some buff) len recved check_address m)
  unfolding extended_from_buff
  extended_from_buff-Returns buff len recved check_address m h ready =
      elim (Bool-cases (leb len 22)) [
        | inl out ↦ (none, m, rw out refl, ready)
        | inr in_range ↦
            (let long : 23 ≤ len = ground (arith, in_range) in
              let (ctrl, read) = load_defined buff 0 (omega (arith, long, h)) in
              let (f, m', ended, ready') =
                extended_body-Returns buff len recved check_address m long h ready in
              elim (Bool-cases (bit_and ctrl 0x80 == 0)) [
                | inl mine ↦ (f, m', rw (in_range, read, mine) ended, ready')
                | inr other ↦ (none, m, rw (in_range, read, other) refl, ready)
              ])
      ]

  one_byte_from_buff_defined :
      (buff : List ℕ) (len : ℕ)
      → len ≤ length buff
      → (o : Option Frame) × (one_byte_from_buff (some buff) len ≡ ret o)
  unfolding one_byte_from_buff
  one_byte_from_buff_defined buff len h = elim (Bool-cases (len == 1)) [
    | inl one ↦
        (let (b, read) = load_defined buff 0 (ground (arith, one, h)) in
          (one_byte_of b, rw (one, read) refl))
    | inr other ↦ (none, rw other refl)
  ]

  or_short-Returns :
      (buff : List ℕ) (len : ℕ) (attempt : Outcome (Option Frame × DeviceManager D))
      → len ≤ length buff
      → Returns attempt
      → Returns (or_short dev (some buff) len attempt)
  unfolding or_short
  or_short-Returns buff len attempt h (some f, m, ended, ready) = (some f, m, rw ended refl, ready)
  or_short-Returns buff len attempt h (none, m, ended, ready) =
      let (o, read) = one_byte_from_buff_defined buff len h in (o, m, rw (ended, read) refl, ready)

  -- On as many bytes as the block has, or fewer, the parser of a frame returns.
  pub build_frame_from_buff-Returns :
      (buff : List ℕ) (len : ℕ) (recved check_address : Bool) (m : DeviceManager D)
      → len ≤ length buff
      → IsReady m
      → Returns (build_frame_from_buff dev env (some buff) len recved check_address m)
  unfolding build_frame_from_buff
  build_frame_from_buff-Returns buff len recved check_address m h ready =
      by_standard (standard_from_buff-Returns buff len recved check_address m h ready)
    where
      by_standard :
          Returns (standard_from_buff dev env (some buff) len recved check_address m)
          → Returns (build_frame_from_buff dev env (some buff) len recved check_address m)
      by_standard (some f, m', ended, ready') = (some f, m', rw ended refl, ready')
      by_standard (none, m', ended, ready') =
          let (f, m₂, ended₂, ready₂) =
            or_short-Returns buff len
              (extended_from_buff dev env (some buff) len recved check_address m') h
              (extended_from_buff-Returns buff len recved check_address m' h ready') in
          (f, m₂, rw ended ended₂, ready₂)
