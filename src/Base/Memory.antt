-- ===== src/Base/Memory.antt =====
-- Blocks of bytes. An access past the end of a block is a `fault`.
use Prim.Native.Nat.{ℕ, zero, suc, ◌+◌, ◌<◌, ◌≤◌}
use mathlib.Core.Path.{◌≡◌, refl, ap}
use mathlib.Core.List.{List, [], ◌∷◌, ◌++◌}
use native.Mathlib.Omega.{arith}
use edifice.Base.Lists.{length, replicate, take}
use edifice.Base.Results.{Outcome, ret, fault, ◌>>=◌}

-- `mem[i]`
unfoldable pub load : List ℕ → ℕ → Outcome ℕ
load [] i = fault
load (x ∷ xs) zero = ret x
load (x ∷ xs) (suc i) = load xs i

-- The `n` bytes from `mem + k` on.
unfoldable pub slice : List ℕ → ℕ → ℕ → Outcome (List ℕ)
slice xs zero zero = ret []
slice [] zero (suc n) = fault
slice (x ∷ xs) zero (suc n) = do ys ← slice xs zero n; ret (x ∷ ys)
slice [] (suc k) n = fault
slice (x ∷ xs) (suc k) n = slice xs k n

-- `memcpy(mem + k, src, length src)`
unfoldable pub memcpy : List ℕ → ℕ → List ℕ → Outcome (List ℕ)
memcpy mem zero [] = ret mem
memcpy [] zero (y ∷ ys) = fault
memcpy (x ∷ xs) zero (y ∷ ys) = do zs ← memcpy xs zero ys; ret (y ∷ zs)
memcpy [] (suc k) ys = fault
memcpy (x ∷ xs) (suc k) ys = do zs ← memcpy xs k ys; ret (x ∷ zs)

-- `mem[i] = v`
unfoldable pub store : List ℕ → ℕ → ℕ → Outcome (List ℕ)
unfolding memcpy
store mem i v = memcpy mem i (v ∷ [])

-- A new block of `n` bytes, from offset `k` of what the allocator returned.
unfoldable pub fill : (ℕ → ℕ) → ℕ → ℕ → List ℕ
fill junk k zero = []
fill junk k (suc n) = junk k ∷ fill junk (k + 1) n

pub length-fill : (junk : ℕ → ℕ) (k n : ℕ) → length (fill junk k n) ≡ n
unfolding fill
length-fill junk k zero = refl
length-fill junk k (suc n) = ap suc (length-fill junk (k + 1) n)

-- A copy into the middle of a block.
pub memcpy_at :
    (front old src back : List ℕ)
    → length old ≡ length src
    → memcpy (front ++ (old ++ back)) (length front) src ≡ ret (front ++ (src ++ back))
unfolding memcpy
memcpy_at [] [] [] back h = refl
memcpy_at [] [] (y ∷ ys) back h = absurd (omega arith)
memcpy_at [] (x ∷ xs) [] back h = absurd (omega arith)
memcpy_at [] (x ∷ xs) (y ∷ ys) back h = rw (memcpy_at [] xs ys back (omega arith))
memcpy_at (x ∷ xs) old src back h = rw (memcpy_at xs old src back h)

pub slice_at :
    (front mid back : List ℕ) → slice (front ++ (mid ++ back)) (length front) (length mid) ≡ ret mid
unfolding slice
slice_at [] [] back = refl
slice_at [] (x ∷ xs) back = rw (slice_at [] xs back)
slice_at (x ∷ xs) mid back = slice_at xs mid back

-- A copy that covers a whole block.
pub memcpy_exact : (old src : List ℕ) → length old ≡ length src → memcpy old 0 src ≡ ret src
unfolding memcpy
memcpy_exact [] [] h = refl
memcpy_exact [] (y ∷ ys) h = absurd (omega arith)
memcpy_exact (x ∷ xs) [] h = absurd (omega arith)
memcpy_exact (x ∷ xs) (y ∷ ys) h = rw (memcpy_exact xs ys (omega arith))

pub slice_exact : (n : ℕ) (xs : List ℕ) → length xs ≡ n → slice xs 0 n ≡ ret xs
unfolding slice
slice_exact zero [] h = refl
slice_exact zero (x ∷ xs) h = absurd (omega arith)
slice_exact (suc n) [] h = absurd (omega arith)
slice_exact (suc n) (x ∷ xs) h = rw (slice_exact n xs (omega arith))

-- A copy into a cleared block that is one byte longer.
pub memcpy_cleared :
    (n v : ℕ) (src : List ℕ)
    → length src ≡ n
    → memcpy (v ∷ replicate n v) 0 src ≡ ret (src ++ (v ∷ []))
unfolding memcpy
memcpy_cleared zero v [] h = refl
memcpy_cleared zero v (y ∷ ys) h = absurd (omega arith)
memcpy_cleared (suc n) v [] h = absurd (omega arith)
memcpy_cleared (suc n) v (y ∷ ys) h = rw (memcpy_cleared n v ys (omega arith))

-- A store into the last byte of a block.
pub store_last :
    (front : List ℕ) (old v k : ℕ)
    → length front ≡ k
    → memcpy (front ++ (old ∷ [])) k (v ∷ []) ≡ ret (front ++ (v ∷ []))
store_last front old v k h = rw (← h) (memcpy_at front (old ∷ []) (v ∷ []) [] refl)

-- The last byte of a block.
pub load_last : (front : List ℕ) (v k : ℕ) → length front ≡ k → load (front ++ (v ∷ [])) k ≡ ret v
unfolding load
load_last [] v zero h = refl
load_last [] v (suc k) h = absurd (omega arith)
load_last (x ∷ front) v zero h = absurd (omega arith)
load_last (x ∷ front) v (suc k) h = load_last front v k (omega arith)

-- A read inside a block returns.
pub load_defined : (xs : List ℕ) (i : ℕ) → i < length xs → (b : ℕ) × (load xs i ≡ ret b)
unfolding load
load_defined [] i h = absurd (omega arith)
load_defined (x ∷ xs) zero h = (x, refl)
load_defined (x ∷ xs) (suc i) h = load_defined xs i (omega arith)

pub slice-take : (n : ℕ) (xs : List ℕ) → n ≤ length xs → slice xs 0 n ≡ ret (take n xs)
unfolding slice
slice-take zero [] h = refl
slice-take zero (x ∷ xs) h = refl
slice-take (suc n) [] h = absurd (omega arith)
slice-take (suc n) (x ∷ xs) h = rw (slice-take n xs (omega arith))

pub length-take : (n : ℕ) (xs : List ℕ) → n ≤ length xs → length (take n xs) ≡ n
length-take zero xs h = refl
length-take (suc n) [] h = absurd (omega arith)
length-take (suc n) (x ∷ xs) h = omega (arith, length-take n xs (omega arith))

pub take-append : (n : ℕ) (xs ys : List ℕ) → length xs ≡ n → take n (xs ++ ys) ≡ xs
take-append zero [] ys h = refl
take-append zero (x ∷ xs) ys h = absurd (omega arith)
take-append (suc n) [] ys h = absurd (omega arith)
take-append (suc n) (x ∷ xs) ys h = ap (λ zs. x ∷ zs) (take-append n xs ys (omega arith))
