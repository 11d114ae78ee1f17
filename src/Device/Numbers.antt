-- ===== src/Device/Numbers.antt =====
-- The next free device number, and what the lookups find.
use edifice.Base.{
  ℕ, zero, suc, ◌+◌, ◌%◌, ◌^◌, ◌≤◌, ◌<◌, ◌≡◌, ◌≢◌, refl, sym, ◌∙◌, ap, arith, false, ◌==◌, List, [],
  ◌∷◌, length, Option, some, none, Bool-cases, inl, inr, ◌⊎◌,
}
use edifice.Device.Manager.{find, erase, free_or, next_ava_id_loop}

option-cases : {A : Type 0} (o : Option A) → (o ≡ none) ⊎ ((x : A) × (o ≡ some x))
option-cases none = inl refl
option-cases (some x) = inr (x, refl)

module _ {D : Type 0} where
  pub find-erase : (i j : ℕ) (ds : List (ℕ × D)) → i ≢ j → find j (erase i ds) ≡ find j ds
  unfolding find erase
  find-erase i j [] ne = refl
  find-erase i j ((k, d) ∷ ds) ne = elim (Bool-cases (k == i)) [
    | inl e ↦ (let e' : (k == j) ≡ false = ground arith in rw (e, e'))
    | inr e ↦ elim (Bool-cases (k == j)) [
      | inl e' ↦ rw (e, e')
      | inr e' ↦ rw (e, e') (find-erase i j ds ne)
    ]
  ]

  length-erase :
      (i : ℕ) (ds : List (ℕ × D)) {d : D}
      → find i ds ≡ some d
      → suc (length (erase i ds)) ≡ length ds
  unfolding find erase
  length-erase i [] h = cc
  length-erase i ((k, x) ∷ ds) {d = d} h = elim (Bool-cases (k == i)) [
    | inl e ↦ rw e
    | inr e ↦ rw e (ap suc (length-erase i ds {d = d} (rw e at h)))
  ]

  loop_zero :
      (ds es : List (ℕ × D)) (id : ℕ) → next_ava_id_loop zero ds id ≡ next_ava_id_loop zero es id
  unfolding next_ava_id_loop
  loop_zero ds es id = refl

  -- One round of the search.
  loop_step :
      (fuel : ℕ) (ds : List (ℕ × D)) (id : ℕ)
      → next_ava_id_loop (suc fuel) ds id
        ≡ free_or (find id ds) id (next_ava_id_loop fuel ds ((id + 1) % 2 ^ 32))
  unfolding next_ava_id_loop
  loop_step fuel ds id = refl

  -- Numbers above `i` are searched alike without the entry `i`.
  loop-erase :
      (fuel i j : ℕ) (ds : List (ℕ × D))
      → i < j
      → j + fuel ≤ 2 ^ 32
      → next_ava_id_loop fuel (erase i ds) j ≡ next_ava_id_loop fuel ds j
  loop-erase zero i j ds lt room = loop_zero (erase i ds) ds j
  loop-erase (suc zero) i j ds lt room =
      rw (loop_step zero (erase i ds) j, loop_step zero ds j, find-erase i j ds (omega arith))
        (ap (free_or (find j ds) j) (loop_zero (erase i ds) ds _))
  loop-erase (suc (suc fuel)) i j ds lt room =
      let e : (j + 1) % 2 ^ 32 ≡ j + 1 = omega arith in
      rw
        (
          loop_step (suc fuel) (erase i ds) j,
          loop_step (suc fuel) ds j,
          find-erase i j ds (omega arith),
          e,
        )
        (ap (free_or (find j ds) j)
          (loop-erase (suc fuel) i (j + 1) ds (omega arith) (omega arith)))

  -- `NextAvaID` ends with a free number. With one round more than there are devices, and as long as the
  -- count does not run over 32 bits, the search from `id` answers a number that no device has,
  -- not below `id` and at most as many above it as there are devices.
  pub next_ava_id_free :
      (ds : List (ℕ × D)) (n id : ℕ)
      → length ds ≡ n
      → id + suc n ≤ 2 ^ 32
      → (free : ℕ) × (next_ava_id_loop (suc n) ds id ≡ some free)
        × (find free ds ≡ none)
        × (id ≤ free)
        × (free ≤ id + n)
  next_ava_id_free ds zero id size room = elim (option-cases (find id ds)) [
    | inl e ↦ (id, loop_step zero ds id ∙ rw e, e, omega arith, omega arith)
    | inr (d, e) ↦ absurd (omega (arith, length-erase id ds {d = d} e))
  ]
  next_ava_id_free ds (suc n) id size room = elim (option-cases (find id ds)) [
    | inl e ↦ (id, loop_step (suc n) ds id ∙ rw e, e, omega arith, omega arith)
    | inr (d, e) ↦
        let (free, found, absent, lo, hi) =
          next_ava_id_free (erase id ds) n (id + 1) (omega (arith, length-erase id ds {d = d} e))
            (omega arith) in
        let next : (id + 1) % 2 ^ 32 ≡ id + 1 = omega arith in
        (
          free,
          loop_step (suc n) ds id
              ∙ rw (e, next)
                  (sym (loop-erase (suc n) id (id + 1) ds (omega arith) (omega arith)) ∙ found),
          sym (find-erase id free ds (omega arith)) ∙ absent,
          omega arith,
          omega arith,
        )
  ]
