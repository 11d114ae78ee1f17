-- ===== src/Frame/Unique.antt =====
-- No two classes recognise the same control bytes, with the standard codes and with the faulty ones.
use edifice.Base.{
  ℕ, suc, ◌≤◌, ◌≡◌, ap, sym, ◌∙◌, arith, true, ◌∷◌, List, length, Option, some, Outcome, ret,
  Bool-cases, inl, inr,
}
use edifice.Base.Bits.{IsByte, full_mask, low_two, high_two}
use edifice.Apdu.Types.{Env, Apdu, ApduType, apci_of, construct, is_standard, apdu_vec, ack, spawn}
use edifice.Frame.Extract.{spawn_first}
use edifice.Frame.Dispatch.{
  carries, first_carrying, spawned, spawn-carries, spawn_copy-spawned, spawn_first-first_carrying,
}

-- A class that recognises two bytes is the first in the container that does.
pub first_carrying_unique :
    (env : Env) (t : ApduType) (l h : ℕ)
    → IsByte l
    → IsByte h
    → carries env t l h ≡ true
    → first_carrying env apdu_vec l h ≡ some t
unfolding apci_of is_standard
first_carrying_unique env ack l h hl hh e = cc
first_carrying_unique env _ l h hl hh e =
    ground (arith, full_mask l, full_mask h, low_two l, high_two h)

made_of : {a b : Apdu} → ◌≡◌ {A = Outcome (Option Apdu)} (ret (some a)) (ret (some b)) → a ≡ b
made_of e = cc

-- The control bytes identify the class: where `Spawn` of one class makes an APDU of some bytes, two or more
-- of which the first two are its control bytes, the loop of `BuildAPDUFromFrame` over the container makes
-- the same APDU of them, and it is of that class. No other class takes the bytes before it.
pub spawn_first_unique :
    (env : Env) (t : ApduType) (l h : ℕ) (rest : List ℕ) (n : ℕ) (b : Apdu)
    → IsByte l
    → IsByte h
    → n ≤ length rest
    → spawn env (construct env t) (l ∷ h ∷ rest) (suc (suc n)) ≡ ret (some b)
    → (spawn_first env apdu_vec (l ∷ h ∷ rest) (suc (suc n)) ≡ ret (some b)) × (b.type ≡ t)
unfolding construct
spawn_first_unique env t l h rest n b hl hh lo e =
    let mem = l ∷ h ∷ rest in
    let made = sym (spawn-carries env t l h rest (suc (suc n)) (omega arith)) ∙ e in
    elim (Bool-cases (carries env t l h)) [
      | inl yes' ↦
          (let same : spawned env t mem (suc (suc n)) ≡ b =
              made_of (sym (spawn_copy-spawned env t mem n (omega arith)) ∙ rw yes' at made) in
            (
              rw
                  (
                    spawn_first-first_carrying env apdu_vec l h rest n lo,
                    first_carrying_unique env t l h hl hh yes',
                  )
                  (ap (λ x. ret (some x)) same),
              sym (ap (λ (x : Apdu). x.type) same),
            ))
      | inr no' ↦ cc (rw no' at made)
    ]
