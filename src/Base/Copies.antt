-- ===== src/Base/Copies.antt =====
-- What `memcpy` and the reading of some bytes leave, in terms of the lists of bytes.
use Prim.Native.Nat.{ℕ, zero, suc, ◌+◌, ◌-◌, ◌≤◌}
use mathlib.Core.Path.{◌≡◌, refl}
use mathlib.Core.List.{List, [], ◌∷◌, ◌++◌}
use native.Mathlib.Omega.{arith}
use edifice.Base.Lists.{length, drop}
use edifice.Base.Results.{ret, fault}
use edifice.Base.Memory.{slice, memcpy, slice_exact}

-- The bytes from some place on, to the end.
pub slice-drop : (k n : ℕ) (xs : List ℕ) → k + n ≡ length xs → slice xs k n ≡ ret (drop k xs)
unfolding slice
slice-drop zero n xs h = slice_exact n xs (omega (arith, h))
slice-drop (suc k) n [] h = absurd (omega arith)
slice-drop (suc k) n (x ∷ xs) h = slice-drop k n xs (omega (arith, h))

pub memcpy_front :
    (mem src : List ℕ)
    → length src ≤ length mem
    → memcpy mem 0 src ≡ ret (src ++ drop (length src) mem)
unfolding memcpy
memcpy_front mem [] h = refl
memcpy_front [] (y ∷ ys) h = absurd (omega arith)
memcpy_front (x ∷ mem) (y ∷ ys) h = rw (memcpy_front mem ys (omega arith))

-- A copy behind some bytes.
pub memcpy_behind :
    (held rest src : List ℕ)
    → length src ≤ length rest
    → memcpy (held ++ rest) (length held) src ≡ ret (held ++ (src ++ drop (length src) rest))
unfolding memcpy
memcpy_behind [] rest src h = memcpy_front rest src h
memcpy_behind (x ∷ held) rest src h = rw (memcpy_behind held rest src h)

-- A copy of some bytes that do not fit.
pub memcpy_past :
    (mem : List ℕ) (k : ℕ) (x : ℕ) (src : List ℕ)
    → length mem ≤ k + length src
    → memcpy mem k (x ∷ src) ≡ fault
unfolding memcpy
memcpy_past [] zero x src h = refl
memcpy_past (y ∷ mem) zero x [] h = absurd (omega arith)
memcpy_past (y ∷ mem) zero x (x' ∷ src) h = rw (memcpy_past mem zero x' src (omega arith)) refl
memcpy_past [] (suc k) x src h = refl
memcpy_past (y ∷ mem) (suc k) x src h = rw (memcpy_past mem k x src (omega arith)) refl

pub length-drop : (k : ℕ) (xs : List ℕ) → length (drop k xs) ≡ length xs - k
length-drop zero xs = omega arith
length-drop (suc k) [] = omega arith
length-drop (suc k) (x ∷ xs) = omega (arith, length-drop k xs)
