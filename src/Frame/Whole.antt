-- ===== src/Frame/Whole.antt =====
-- The APDU of a frame that was accepted can be read (`APDU::BuildAPDUFromFrame`, EIBCommNEO/Frame.cpp).
use edifice.Base.{
  ℕ, zero, suc, ◌+◌, ◌-◌, ◌%◌, ◌≤◌, ◌≡◌, refl, ap, ◌∙◌, arith, ◌==◌, List, [], ◌∷◌, length,
  length-drop, length-take, drop, take, Option, none, some, ret, Bool-cases, inl, inr, slice-take,
}
use edifice.Apdu.Types.{
  Env, Apdu, ApduType, construct, is_standard, spawn, apdu_vec, ack, nack, busy, nackbusy,
}
use edifice.Frame.Types.{
  Frame, OneByteFrameType, FrameClass, one_byte, standard, extended, one_byte_frame, get_apdu_mem,
  get_host_addr, get_peer_addr, ack_frame, nack_frame, busy_frame, nackbusy_frame,
}
use edifice.Frame.Parse.{one_byte_of}
use edifice.Frame.Accepted.{IsCopy, Accepted, by_standard, by_extended, by_short}
use edifice.Frame.Extract.{spawn_first, received, build_apdu_from_frame, get_apdu_type}
use edifice.Frame.Dispatch.{carries, spawn-carries, spawned, spawn_copy-spawned}
use edifice.Frame.Returns.{read_addr_defined}

spawn_defined :
    (env : Env) (t : ApduType) (mem : List ℕ) (len : ℕ)
    → len ≤ length mem
    → (o : Option Apdu) × (spawn env (construct env t) mem len ≡ ret o)
unfolding spawn construct
spawn_defined env t mem zero h = elim (Bool-cases (is_standard t)) [
  | inl std ↦ (none, rw std refl)
  | inr other ↦ (none, rw other refl)
]
spawn_defined env t mem (suc zero) h = elim (Bool-cases (is_standard t)) [
  | inl std ↦ (none, rw std refl)
  | inr other ↦ (none, rw other refl)
]
spawn_defined env t [] (suc (suc n)) h = absurd (omega arith)
spawn_defined env t (l ∷ []) (suc (suc n)) h = absurd (omega arith)
spawn_defined env t (l ∷ r ∷ rest) (suc (suc n)) h =
    let tested = spawn-carries env t l r rest (suc (suc n)) (omega arith) in
    elim (Bool-cases (carries env t l r)) [
      | inl yes' ↦ (
        some (spawned env t (l ∷ r ∷ rest) (suc (suc n))),
        (rw yes' at tested) ∙ spawn_copy-spawned env t (l ∷ r ∷ rest) n (omega (arith, h)),
      )
      | inr no' ↦ (none, rw no' at tested)
    ]

spawn_first_defined :
    (env : Env) (ts : List ApduType) (mem : List ℕ) (len : ℕ)
    → len ≤ length mem
    → (o : Option Apdu) × (spawn_first env ts mem len ≡ ret o)
unfolding spawn_first
spawn_first_defined env [] mem len h = (none, refl)
spawn_first_defined env (t ∷ ts) mem len h =
    by_spawn (spawn_defined env t mem len h) (spawn_first_defined env ts mem len h)
  where
    by_spawn :
        (o : Option Apdu) × (spawn env (construct env t) mem len ≡ ret o)
        → (o : Option Apdu) × (spawn_first env ts mem len ≡ ret o)
        → (o : Option Apdu) × (spawn_first env (t ∷ ts) mem len ≡ ret o)
    by_spawn (some a, made) later = (some a, rw made refl)
    by_spawn (none, missed) (o, next) = (o, rw missed next)

-- A frame of one of the three classes whose bytes are as many as its length says, and enough for its class.
pub data IsWhole (f : Frame) : Type 0 where
  short : (t : OneByteFrameType) → f.class ≡ one_byte t → IsWhole f
  narrow : f.class ≡ standard → 8 ≤ f.frame_len → length f.frame_mem ≡ f.frame_len → IsWhole f
  wide : f.class ≡ extended → 23 ≤ f.frame_len → length f.frame_mem ≡ f.frame_len → IsWhole f

pub one_byte_of-IsWhole : (b : ℕ) (f : Frame) → one_byte_of b ≡ some f → IsWhole f
unfolding one_byte_of one_byte_frame
one_byte_of-IsWhole b f e = elim (Bool-cases (b == 0xcc)) [
  | inl p ↦ short ack_frame (cc (rw p at e))
  | inr p ↦ elim (Bool-cases (b == 0x0c)) [
    | inl q ↦ short nack_frame (cc (rw (p, q) at e))
    | inr q ↦ elim (Bool-cases (b == 0xc0)) [
      | inl r ↦ short busy_frame (cc (rw (p, q, r) at e))
      | inr r ↦ elim (Bool-cases (b == 0x00)) [
        | inl s ↦ short nackbusy_frame (cc (rw (p, q, r, s) at e))
        | inr s ↦ cc (rw (p, q, r, s) at e)
      ]
    ]
  ]
]

length-copied :
    (c : FrameClass) (buff : List ℕ) (len : ℕ) (f : Frame)
    → len ≤ length buff
    → IsCopy c buff len f
    → length f.frame_mem ≡ f.frame_len
length-copied c buff len f h copied =
    let bytes : take len buff ≡ f.frame_mem = cc (slice-take len buff h, copied.of_bytes) in
    omega (arith, ap length bytes, length-take len buff h, copied.of_len)

pub Accepted-IsWhole :
    (buff : List ℕ) (len : ℕ) (f : Frame) → len ≤ length buff → Accepted buff len f → IsWhole f
Accepted-IsWhole buff len f h (by_standard shape copied) =
    narrow copied.of_class (omega (arith, shape.at_least, copied.of_len))
      (length-copied standard buff len f h copied)
Accepted-IsWhole buff len f h (by_extended shape copied) =
    wide copied.of_class (omega (arith, shape.at_least, copied.of_len))
      (length-copied extended buff len f h copied)
Accepted-IsWhole buff len f h (by_short {b} one read found) = one_byte_of-IsWhole b f found

short_defined :
    (env : Env) (f : Frame) (t : OneByteFrameType)
    → f.class ≡ one_byte t
    → (o : Option Apdu) × (build_apdu_from_frame env f ≡ ret o)
unfolding build_apdu_from_frame get_apdu_mem
short_defined env f ack_frame e = (some (construct env ack), rw e refl)
short_defined env f nack_frame e = (some (construct env nack), rw e refl)
short_defined env f busy_frame e = (some (construct env busy), rw e refl)
short_defined env f nackbusy_frame e = (some (construct env nackbusy), rw e refl)

narrow_defined :
    (env : Env) (f : Frame)
    → f.class ≡ standard
    → 8 ≤ f.frame_len
    → length f.frame_mem ≡ f.frame_len
    → (o : Option Apdu) × (build_apdu_from_frame env f ≡ ret o)
unfolding build_apdu_from_frame get_apdu_mem get_host_addr get_peer_addr
narrow_defined env f e long same =
    let (host, eh) = read_addr_defined f.frame_mem 1 (omega (arith, long, same)) in
    let (peer, ep) = read_addr_defined f.frame_mem 3 (omega (arith, long, same)) in
    let (o, first) =
      spawn_first_defined env apdu_vec (drop 6 f.frame_mem) ((f.frame_len + 256 - 7) % 256)
        (omega (arith, long, same, length-drop 6 f.frame_mem)) in
    (
      elim o [ none ↦ none | some a ↦ some (received (some host) (some peer) a) ],
      rw (e, first, eh, ep) refl,
    )

wide_defined :
    (env : Env) (f : Frame)
    → f.class ≡ extended
    → 23 ≤ f.frame_len
    → length f.frame_mem ≡ f.frame_len
    → (o : Option Apdu) × (build_apdu_from_frame env f ≡ ret o)
unfolding build_apdu_from_frame get_apdu_mem get_host_addr get_peer_addr
wide_defined env f e long same =
    let (host, eh) = read_addr_defined f.frame_mem 2 (omega (arith, long, same)) in
    let (peer, ep) = read_addr_defined f.frame_mem 4 (omega (arith, long, same)) in
    let (o, first) =
      spawn_first_defined env apdu_vec (drop 7 f.frame_mem) ((f.frame_len + 256 - 8) % 256)
        (omega (arith, long, same, length-drop 7 f.frame_mem)) in
    (
      elim o [ none ↦ none | some a ↦ some (received (some host) (some peer) a) ],
      rw (e, first, eh, ep) refl,
    )

-- Whether a frame that is whole carries an APDU, and which, is found without a read outside its bytes.
pub get_apdu_type_defined :
    (env : Env) (f : Frame) → IsWhole f → (o : Option ApduType) × (get_apdu_type env f ≡ ret o)
unfolding get_apdu_type
get_apdu_type_defined env f whole =
    let (o, carried) = by_class whole in
    (elim o [ none ↦ none | some a ↦ some a.type ], rw carried refl)
  where
    by_class : IsWhole f → (o : Option Apdu) × (build_apdu_from_frame env f ≡ ret o)
    by_class (short t e) = short_defined env f t e
    by_class (narrow e long same) = narrow_defined env f e long same
    by_class (wide e long same) = wide_defined env f e long same
