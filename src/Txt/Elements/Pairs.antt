-- ===== src/Txt/Elements/Pairs.antt =====
-- Writing one element of 16 bits: `SetElemValues_Ex` of EIBCommNEO/DeviceImpl_TXT.cpp puts its two bytes in place.
use edifice.Base.{
  ℕ, zero, suc, ◌+◌, ◌-◌, ◌*◌, ◌/◌, ◌%◌, ◌^◌, ◌<◌, ◌≤◌, bit_and, bit_or, ◌≡◌, refl, ap, arith,
  false, ◌==◌, List, [], ◌∷◌, ◌++◌, ret, load, store, slice, memcpy, length, length-append,
  memcpy_at,
}
use edifice.Base.Bits.{IsByte, passes_below, agree_below}
use edifice.Base.Digits.{and_zero, or_zero}
use edifice.Txt.Elements.{Window, window, copy_in, keep_bits, or_bytes, shifted_in, clear_window}
use edifice.Pentagon.Bitstream.{build_mask_code, ceil_divide, left_shift_bitstream}

load_here :
    (front : List ℕ) (x : ℕ) (back : List ℕ) → load (front ++ (x ∷ back)) (length front) ≡ ret x
unfolding load
load_here [] x back = refl
load_here (f ∷ front) x back = load_here front x back

keep_bits_here :
    (front : List ℕ) (x : ℕ) (back : List ℕ) (mask : ℕ)
    → keep_bits (front ++ (x ∷ back)) (length front) mask ≡ ret (front ++ (bit_and x mask ∷ back))
unfolding keep_bits store
keep_bits_here front x back mask =
    rw (load_here front x back) (memcpy_at front (x ∷ []) (bit_and x mask ∷ []) back refl)

-- The byte behind.
behind_one : (front : List ℕ) (x : ℕ) (ys : List ℕ) → (front ++ (x ∷ [])) ++ ys ≡ front ++ (x ∷ ys)
behind_one [] x ys = refl
behind_one (f ∷ front) x ys = ap (λ zs. f ∷ zs) (behind_one front x ys)

module _ (front : List ℕ) (x y : ℕ) (back : List ℕ) where
  length-front : length (front ++ (x ∷ [])) ≡ length front + 1
  length-front = length-append front (x ∷ [])

  keep_bits_next :
      (mask : ℕ)
      → keep_bits (front ++ (x ∷ y ∷ back)) (length front + 1) mask
        ≡ ret (front ++ (x ∷ bit_and y mask ∷ back))
  keep_bits_next mask =
      let here = keep_bits_here (front ++ (x ∷ [])) y back mask in
      rw (behind_one front x (y ∷ back), behind_one front x (bit_and y mask ∷ back), length-front)
        at here

  load_next : load (front ++ (x ∷ y ∷ back)) (length front + 1) ≡ ret y
  load_next =
      let here = load_here (front ++ (x ∷ [])) y back in
      rw (behind_one front x (y ∷ back), length-front) at here

  store_next :
      (v : ℕ) → store (front ++ (x ∷ y ∷ back)) (length front + 1) v ≡ ret (front ++ (x ∷ v ∷ back))
  unfolding store
  store_next v =
      let here = memcpy_at (front ++ (x ∷ [])) (y ∷ []) (v ∷ []) back refl in
      rw (behind_one front x (y ∷ back), behind_one front x (v ∷ back), length-front) at here

store_here :
    (front : List ℕ) (x : ℕ) (back : List ℕ) (v : ℕ)
    → store (front ++ (x ∷ back)) (length front) v ≡ ret (front ++ (v ∷ back))
unfolding store
store_here front x back v = memcpy_at front (x ∷ []) (v ∷ []) back refl

or_bytes_here :
    (front : List ℕ) (x y t u : ℕ) (back : List ℕ)
    → or_bytes (front ++ (x ∷ y ∷ back)) (length front) (t ∷ u ∷ [])
      ≡ ret (front ++ (bit_or x t ∷ bit_or y u ∷ back))
unfolding or_bytes
or_bytes_here front x y t u back =
    rw
      (
        load_here front x (y ∷ back),
        store_here front x (y ∷ back) (bit_or x t),
        load_next front (bit_or x t) y back,
        store_next front (bit_or x t) y back (bit_or y u),
      )
      refl

unfoldable pub pair_window : ℕ → Window
pair_window n = record {
  start_pos_inbyte = 2 * n;
  end_pos_inbyte = 2 * n + 1;
  coping_len_inbit = 16;
  coping_len_inbyte = 2;
  left_secede = 0;
  right_secede = 0;
}

pub window_of_pair : (n : ℕ) → n < 65535 → window (suc n) 1 16 ≡ pair_window n
unfolding pair_window
window_of_pair n h =
    let start : (suc n * 16 + 2 ^ 32 - 16) % 2 ^ 32 ≡ 16 * n = omega arith in
    let last : (16 * n + 16 + 2 ^ 32 - 1) % 2 ^ 32 ≡ 16 * n + 15 = omega arith in
    let e₁ : 16 * n / 8 ≡ 2 * n = omega arith in
    let e₂ : (16 * n + 15) / 8 ≡ 2 * n + 1 = omega arith in
    let e₃ : (2 * n + 1 + 2 ^ 32 - 2 * n + 1) % 2 ^ 32 ≡ 2 = omega arith in
    let e₄ : 16 * n % 8 ≡ 0 = omega arith in
    let e₅ : 8 - (16 * n + 15) % 8 - 1 ≡ 0 = omega arith in
    rw (start, last, e₁, e₂, e₃, e₄, e₅) refl

echo : (b : ℕ) → b < 256 → bit_and (bit_or 0 (bit_and 255 b * 1 % 256)) 255 ≡ b
unfolding passes_below
echo b h = agree_below 256 (λ b. bit_and (bit_or 0 (bit_and 255 b * 1 % 256)) 255) (λ b. b) refl b h

-- A pair of bytes is moved by a whole byte.
shifted_in_pair :
    (n g a : ℕ) → IsByte g → IsByte a → shifted_in (g ∷ a ∷ []) (pair_window n) ≡ ret (g ∷ a ∷ [])
unfolding shifted_in pair_window left_shift_bitstream build_mask_code keep_bits ceil_divide slice
    memcpy load store
shifted_in_pair n g a hg ha =
    let e : g / 256 ≡ 0 = omega arith in rw (echo g hg, e) (rw (echo a ha) refl)

memcpy_nothing : (mem : List ℕ) (k : ℕ) → k ≤ length mem → memcpy mem k [] ≡ ret mem
unfolding memcpy
memcpy_nothing mem zero h = refl
memcpy_nothing [] (suc k) h = absurd (omega arith)
memcpy_nothing (x ∷ mem) (suc k) h = rw (memcpy_nothing mem k (omega arith)) refl

-- The two bytes are cleared.
clear_pair :
    (front : List ℕ) (x y : ℕ) (back : List ℕ) (n : ℕ)
    → length front ≡ 2 * n
    → clear_window (front ++ (x ∷ y ∷ back)) (pair_window n)
      ≡ ret (front ++ (bit_and x 0 ∷ bit_and y 0 ∷ back))
unfolding clear_window pair_window build_mask_code
clear_pair front x y back n h =
    let apart : (2 * n == 2 * n + 1) ≡ false = ground arith in
    let none_between : 2 * n + 1 - 2 * n - 1 ≡ 0 = omega arith in
    let mem = front ++ (bit_and x 0 ∷ bit_and y 0 ∷ back) in
    let inside : length front + 1 ≤ length mem =
      omega (arith, length-append front (bit_and x 0 ∷ bit_and y 0 ∷ back)) in
    rw (apart, none_between, ← h)
      (rw
        (
          keep_bits_here front x (y ∷ back) 0,
          keep_bits_next front (bit_and x 0) y back 0,
          memcpy_nothing mem (length front + 1) inside,
        )
        refl)

-- The values of one element of 16 bits are its two bytes.
pub copy_in_pair :
    (front : List ℕ) (x y g a : ℕ) (back : List ℕ) (n : ℕ)
    → length front ≡ 2 * n
    → IsByte g
    → IsByte a
    → copy_in (front ++ (x ∷ y ∷ back)) (pair_window n) (g ∷ a ∷ []) ≡ ret (front ++ (g ∷ a ∷ back))
unfolding copy_in pair_window
copy_in_pair front x y g a back n h hg ha =
    rw
      (
        shifted_in_pair n g a hg ha,
        clear_pair front x y back n h,
        and_zero x x (omega arith),
        and_zero y y (omega arith),
        ← h,
        or_bytes_here front 0 0 g a back,
        or_zero g,
        or_zero a,
      )
      refl
