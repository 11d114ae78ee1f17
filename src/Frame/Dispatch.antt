-- ===== src/Frame/Dispatch.antt =====
-- The control bytes of an APDU determine its class.
use edifice.Base.{
  ℕ, suc, ◌%◌, ◌≤◌, bit_and, ◌≡◌, refl, arith, Bool, false, ◌&&◌, ◌==◌, ltb, if◌then◌else◌, List,
  [], ◌∷◌, length, take, Option, some, none, Outcome, ret, fill, length-fill, memcpy_exact,
  Bool-cases, inl, inr, slice-take, length-take,
}
use edifice.Apdu.Types.{
  Env, Apdu, ApduType, apci_of, construct, is_standard, spawn, spawn_base, spawn_copy, resize,
}
use edifice.Frame.Extract.{spawn_first}

-- Whether a class recognises two control bytes.
abbrev pub carries : Env → ApduType → ℕ → ℕ → Bool
unfolding apci_of
carries env t l h =
    is_standard t
    && (bit_and l (apci_of env t).l_mask == (apci_of env t).l
        && bit_and h (apci_of env t).h_mask == (apci_of env t).h)

-- The object that a class makes of the bytes.
abbrev pub spawned : Env → ApduType → List ℕ → ℕ → Apdu
spawned env t mem len = record (construct env t) { apdu_mem = take len mem; apdu_len = len % 256 }

pub spawn_copy-spawned :
    (env : Env) (t : ApduType) (mem : List ℕ) (n : ℕ)
    → suc (suc n) ≤ length mem
    → spawn_copy env t mem (suc (suc n)) ≡ ret (some (spawned env t mem (suc (suc n))))
unfolding spawn_copy resize fill construct
spawn_copy-spawned env t mem n h =
    let fresh : List ℕ = (apci_of env t).l ∷ (apci_of env t).h ∷ fill env.junk 2 n in
    let same : length fresh ≡ length (take (suc (suc n)) mem) =
      omega (arith, length-fill env.junk 2 n, length-take (suc (suc n)) mem h) in
    rw (slice-take (suc (suc n)) mem h) (rw (memcpy_exact fresh (take (suc (suc n)) mem) same))

pub spawn-carries :
    (env : Env) (t : ApduType) (l h : ℕ) (rest : List ℕ) (len : ℕ)
    → 2 ≤ len
    → spawn env (construct env t) (l ∷ h ∷ rest) len
      ≡ (if carries env t l h then spawn_copy env t (l ∷ h ∷ rest) len else ret none)
unfolding spawn spawn_base construct apci_of
spawn-carries env t l h rest len lo =
    let e : ltb len 2 ≡ false = ground arith in
    elim (Bool-cases (is_standard t)) [ inl std ↦ rw (e, std) | inr short ↦ rw short ]

-- The first class of a list that recognises two control bytes.
abbrev pub first_carrying : Env → List ApduType → ℕ → ℕ → Option ApduType
first_carrying env [] l h = none
first_carrying env (t ∷ ts) l h = if carries env t l h then some t else first_carrying env ts l h

abbrev pub spawn_found : Env → List ℕ → ℕ → Option ApduType → Outcome (Option Apdu)
spawn_found env mem len none = ret none
spawn_found env mem len (some t) = ret (some (spawned env t mem len))

pub spawn_first-first_carrying :
    (env : Env) (ts : List ApduType) (l h : ℕ) (rest : List ℕ) (n : ℕ)
    → n ≤ length rest
    → spawn_first env ts (l ∷ h ∷ rest) (suc (suc n))
      ≡ spawn_found env (l ∷ h ∷ rest) (suc (suc n)) (first_carrying env ts l h)
unfolding spawn_first
spawn_first-first_carrying env [] l h rest n lo = refl
spawn_first-first_carrying env (t ∷ ts) l h rest n lo = elim (Bool-cases (carries env t l h)) [
  | inl yes' ↦
      rw (spawn-carries env t l h rest (suc (suc n)) (omega arith))
        (rw yes' (rw (spawn_copy-spawned env t (l ∷ h ∷ rest) n (omega arith))))
  | inr no' ↦
      rw (spawn-carries env t l h rest (suc (suc n)) (omega arith))
        (rw no' (spawn_first-first_carrying env ts l h rest n lo))
]
