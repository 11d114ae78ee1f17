-- ===== src/Base/Digits.antt =====
-- `&` and `|` on numbers of any size: masks of ones, and parts that do not overlap.
use Prim.Native.Nat.{
  ℕ, zero, suc, ◌+◌, ◌*◌, ◌/◌, ◌%◌, ◌≤◌, ◌<◌, min, max, bit_and, bit_or, digits, bitwise,
  bit_and-bitwise, bit_or-bitwise,
}
use mathlib.Core.Path.{◌≡◌, refl, ap}
use native.Mathlib.Omega.{arith}

module _ (rest : ℕ → ℕ) (op : ℕ → ℕ → ℕ) where
  -- More fuel than digits changes nothing.
  enough_digits : (m n x y : ℕ) → x ≤ m → x ≤ n → digits rest op m x y ≡ digits rest op n x y
  enough_digits zero zero x y p q = refl
  enough_digits zero (suc n) zero y p q = refl
  enough_digits zero (suc n) (suc x) y p q = absurd (omega arith)
  enough_digits (suc m) zero zero y p q = refl
  enough_digits (suc m) zero (suc x) y p q = absurd (omega arith)
  enough_digits (suc m) (suc n) zero y p q = refl
  enough_digits (suc m) (suc n) (suc x) y p q =
      rw (enough_digits m n (suc x / 2) (y / 2) (omega arith) (omega arith))

  lowest_digit :
      (x y : ℕ)
      → bitwise rest op (suc x) y ≡ bitwise rest op (suc x / 2) (y / 2) * 2 + op (suc x % 2) (y % 2)
  lowest_digit x y =
      omega (arith, enough_digits x (suc x / 2) (suc x / 2) (y / 2) (omega arith) (omega arith))

and_step : (x y : ℕ) → bit_and x y ≡ bit_and (x / 2) (y / 2) * 2 + min (x % 2) (y % 2)
and_step zero y = simp bit_and-bitwise (omega arith)
and_step (suc x) y = simp bit_and-bitwise (lowest_digit (λ y. 0) min x y)

or_step : (x y : ℕ) → bit_or x y ≡ bit_or (x / 2) (y / 2) * 2 + max (x % 2) (y % 2)
or_step zero y = simp bit_or-bitwise (omega arith)
or_step (suc x) y = simp bit_or-bitwise (lowest_digit (λ y. y) max x y)

-- A mask with a zero at its end, and two numbers that do not share digits.
and_even : (x y : ℕ) → bit_and x (y * 2) ≡ bit_and (x / 2) y * 2
and_even x y =
    let e : y * 2 / 2 ≡ y = omega arith in
    let e' : y * 2 % 2 ≡ 0 = omega arith in
    let h = and_step x (y * 2) in
    let h' : bit_and x (y * 2) ≡ bit_and (x / 2) y * 2 + min (x % 2) 0 = (rw (e, e') at h) in
    omega (arith, h')

or_even : (x y : ℕ) → bit_or x (y * 2) ≡ bit_or (x / 2) y * 2 + x % 2
or_even x y =
    let e : y * 2 / 2 ≡ y = omega arith in
    let e' : y * 2 % 2 ≡ 0 = omega arith in
    let h = or_step x (y * 2) in
    let h' : bit_or x (y * 2) ≡ bit_or (x / 2) y * 2 + max (x % 2) 0 = (rw (e, e') at h) in
    omega (arith, h')

and_16 : (x y : ℕ) → bit_and x (y * 16) ≡ bit_and (x / 16) y * 16
and_16 x y =
    let e : y * 16 ≡ y * 2 * 2 * 2 * 2 = omega arith in
    let e' : x / 2 / 2 / 2 / 2 ≡ x / 16 = omega arith in
    rw
      (
        e,
        and_even x (y * 2 * 2 * 2),
        and_even (x / 2) (y * 2 * 2),
        and_even (x / 2 / 2) (y * 2),
        and_even (x / 2 / 2 / 2) y,
        e',
      )
      (omega arith)

or_16 : (x y : ℕ) → bit_or x (y * 16) ≡ bit_or (x / 16) y * 16 + x % 16
or_16 x y =
    let e : y * 16 ≡ y * 2 * 2 * 2 * 2 = omega arith in
    let e' : x / 2 / 2 / 2 / 2 ≡ x / 16 = omega arith in
    rw
      (
        e,
        or_even x (y * 2 * 2 * 2),
        or_even (x / 2) (y * 2 * 2),
        or_even (x / 2 / 2) (y * 2),
        or_even (x / 2 / 2 / 2) y,
        e',
      )
      (omega arith)

pub and_256 : (x y : ℕ) → bit_and x (y * 256) ≡ bit_and (x / 256) y * 256
and_256 x y =
    let e : y * 256 ≡ y * 16 * 16 = omega arith in
    let e' : x / 16 / 16 ≡ x / 256 = omega arith in
    rw (e, and_16 x (y * 16), and_16 (x / 16) y, e') (omega arith)

or_256 : (x y : ℕ) → bit_or x (y * 256) ≡ bit_or (x / 256) y * 256 + x % 256
or_256 x y =
    let e : y * 256 ≡ y * 16 * 16 = omega arith in
    let e' : x / 16 / 16 ≡ x / 256 = omega arith in
    rw (e, or_16 x (y * 16), or_16 (x / 16) y, e') (omega arith)

pub or_zero : (y : ℕ) → bit_or 0 y ≡ y
or_zero y = simp bit_or-bitwise

pub and_zero : (n x : ℕ) → x ≤ n → bit_and x 0 ≡ 0
and_zero zero zero h = simp bit_and-bitwise
and_zero zero (suc x) h = absurd (omega arith)
and_zero (suc n) zero h = simp bit_and-bitwise
and_zero (suc n) (suc x) h = omega (arith, and_step (suc x) 0, and_zero n (suc x / 2) (omega arith))

-- The masks of four and of eight ones.
pub and_0x0f : (x : ℕ) → bit_and x 0x0f ≡ x % 16
and_0x0f x = omega (
  arith,
  and_step x 15,
  and_step (x / 2) 7,
  and_step (x / 2 / 2) 3,
  and_step (x / 2 / 2 / 2) 1,
  and_zero (x / 2 / 2 / 2 / 2) (x / 2 / 2 / 2 / 2) (omega arith),
)

pub and_0xff : (x : ℕ) → bit_and x 0xff ≡ x % 256
and_0xff x = omega (
  arith,
  and_step x 255,
  and_step (x / 2) 127,
  and_step (x / 2 / 2) 63,
  and_step (x / 2 / 2 / 2) 31,
  and_0x0f (x / 2 / 2 / 2 / 2),
)

and_odd : (x y : ℕ) → bit_and x (y * 2 + 1) ≡ bit_and (x / 2) y * 2 + x % 2
and_odd x y =
    let e : (y * 2 + 1) / 2 ≡ y = omega arith in
    let e' : (y * 2 + 1) % 2 ≡ 1 = omega arith in
    let h = and_step x (y * 2 + 1) in
    let h' : bit_and x (y * 2 + 1) ≡ bit_and (x / 2) y * 2 + min (x % 2) 1 = (rw (e, e') at h) in
    omega (arith, h')

-- Four more ones.
four : (x m : ℕ) → bit_and x (m * 16 + 15) ≡ bit_and (x / 16) m * 16 + x % 16
four x m =
    let e : m * 16 + 15 ≡ (((m * 2 + 1) * 2 + 1) * 2 + 1) * 2 + 1 = omega arith in
    rw
      (
        e,
        and_odd x (((m * 2 + 1) * 2 + 1) * 2 + 1),
        and_odd (x / 2) ((m * 2 + 1) * 2 + 1),
        and_odd (x / 2 / 2) (m * 2 + 1),
        and_odd (x / 2 / 2 / 2) m,
      )
      (let e' : x / 2 / 2 / 2 / 2 ≡ x / 16 = omega arith in rw e' (omega arith))

pub and_0xfffff : (x : ℕ) → bit_and x 0xf_ffff ≡ x % 1048576
and_0xfffff x = omega (
  arith,
  four x 0xffff,
  four (x / 16) 0xfff,
  four (x / 16 / 16) 0xff,
  and_0xff (x / 16 / 16 / 16),
)

-- Bytes above bytes.
pub or_above : (x y : ℕ) → x < 256 → bit_or x (y * 256) ≡ x + y * 256
or_above x y h =
    let e : x / 256 ≡ 0 = omega arith in
    omega (arith, or_256 x y, ap (λ z. bit_or z y) e, or_zero y)

pub or_above₂ : (x y : ℕ) → x < 65536 → bit_or x (y * 65536) ≡ x + y * 65536
or_above₂ x y h =
    let e : y * 65536 ≡ y * 256 * 256 = omega arith in
    rw e (omega (arith, or_256 x (y * 256), or_above (x / 256) y (omega arith)))
