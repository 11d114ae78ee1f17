-- ===== src/Pentagon/Bitstream/Value.antt =====
-- A stream of bits as a number: `left_shift_bitstream` of pentagon/pentagon.cpp divides it, and
-- `right_shift_bitstream` multiplies it.
use native.Mathlib.Nat.{
  add-mul-div_left, add-mul-mod_self_left, div-lt_iff_lt-mul, mod-lt, div-add-mod, mod-eq_of_lt,
  div-eq_of_lt, one-le-pow, mul-le-mul_right, mul-add, add-mul, mul_assoc, mul_comm,
}
use edifice.Base.{
  ℕ, zero, suc, ◌+◌, ◌-◌, ◌*◌, ◌/◌, ◌%◌, ◌^◌, ◌≤◌, ◌<◌, bit_and, bit_or, ◌≡◌, refl, sym, ap, ◌∙◌,
  arith, List, [], ◌∷◌, ret, length, take, All, ◌++◌, load,
}
use edifice.Base.Bits.{IsByte, passes_below, agree_below, agree_below₂}
use edifice.Pentagon.Bitstream.{
  complement, build_mask_code, shift_loop, left_shift_bitstream, right_shift_bitstream,
}

-- The number whose lowest bits are the first byte.
unfoldable pub value : List ℕ → ℕ
value [] = 0
value (b ∷ bs) = b + 256 * value bs

mask_of : ℕ → ℕ
mask_of s = complement (build_mask_code (8 - s))

powers : (s : ℕ) → s < 9 → 2 ^ s * 2 ^ (8 - s) ≡ 256
unfolding passes_below
powers = agree_below 9 (λ s. 2 ^ s * 2 ^ (8 - s)) (λ s. 256) refl

masked_bits :
    (s b : ℕ)
    → s < 9
    → b < 256
    → bit_and (complement (build_mask_code (8 - s))) b * 2 ^ (8 - s) % 256 ≡ b % 2 ^ s * 2 ^ (8 - s)
unfolding passes_below build_mask_code
masked_bits =
    agree_below₂ 9 256 (λ s b. bit_and (complement (build_mask_code (8 - s))) b * 2 ^ (8 - s) % 256)
      (λ s b. b % 2 ^ s * 2 ^ (8 - s)) refl

joined_bits :
    (s k : ℕ) → s < 9 → k < 256 → bit_or (k % 2 ^ (8 - s)) (k / 2 ^ (8 - s) * 2 ^ (8 - s)) ≡ k
unfolding passes_below
joined_bits =
    agree_below₂ 9 256 (λ s k. bit_or (k % 2 ^ (8 - s)) (k / 2 ^ (8 - s) * 2 ^ (8 - s))) (λ s k. k)
      refl

positive : (s : ℕ) → 0 < 2 ^ s
positive s = one-le-pow s 2 (omega arith)

-- A quotient and a remainder put together.
recompose : (x c Q : ℕ) → x < Q → ((x + c * Q) % Q ≡ x) × ((x + c * Q) / Q ≡ c)
recompose x c Q h =
    let e : x + Q * c ≡ x + c * Q = ap (λ t. x + t) (mul_comm Q c) in
    let r = add-mul-mod_self_left x Q c in
    let d = add-mul-div_left x c {y = Q} (omega arith) in
    (
      (ap (λ t. t % Q) (sym e)) ∙ r ∙ mod-eq_of_lt h,
      let z = div-eq_of_lt h in let f = ap (λ t. t / Q) e in omega (arith, z, d, f),
    )

times_256 : (Q w : ℕ) → Q * (256 * w) ≡ 256 * (Q * w)
times_256 Q w = sym (mul_assoc Q 256 w) ∙ ap (λ t. t * w) (mul_comm Q 256) ∙ mul_assoc 256 Q w

-- The bits that a number keeps and the bits that it hands on.
carried : (P Q : ℕ) → P * Q ≡ 256 → (b : ℕ) → b % P * Q + 256 * (b / P) ≡ Q * b
carried P Q pq b =
    let whole : Q * (P * (b / P) + b % P) ≡ Q * b = ap (λ t. Q * t) (div-add-mod b P) in
    let front : Q * (P * (b / P)) ≡ 256 * (b / P) =
      sym (mul_assoc Q P (b / P)) ∙ ap (λ t. t * (b / P)) (mul_comm Q P ∙ pq) in
    omega (arith, whole, front, mul-add Q (P * (b / P)) (b % P), mul_comm Q (b % P))

module _ (s : ℕ) (small : s < 9) where
  quotient_small : (b : ℕ) → b < 256 → b / 2 ^ s < 2 ^ (8 - s)
  quotient_small b h =
      (div-lt_iff_lt-mul {x = b} (positive s)).1
        (rw (mul_comm (2 ^ (8 - s)) (2 ^ s), powers s small) h)

  join : (x c : ℕ) → x < 2 ^ (8 - s) → c < 2 ^ s → bit_or x (c * 2 ^ (8 - s)) ≡ x + c * 2 ^ (8 - s)
  join x c hx hc =
      let Q = 2 ^ (8 - s) in
      let most : suc c * Q ≤ 2 ^ s * Q = mul-le-mul_right Q hc in
      let inside : x + c * Q < 256 = omega (arith, most, powers s small, add-mul c 1 Q) in
      let both = joined_bits s (x + c * Q) small inside in
      let parts = recompose x c Q hx in rw (parts.0, parts.1) at both

  value-shift_loop :
      (previous : ℕ) (bs : List ℕ)
      → previous < 2 ^ (8 - s)
      → All IsByte bs
      → value (shift_loop (mask_of s) s previous bs) ≡ previous + 2 ^ (8 - s) * value bs
  unfolding value shift_loop mask_of
  value-shift_loop previous [] h bytes = omega arith
  value-shift_loop previous (b ∷ bs) h (byte, bytes) =
      let P = 2 ^ s in
      let Q = 2 ^ (8 - s) in
      let rest = value-shift_loop (b / P) bs (quotient_small b byte) bytes in
      rw (masked_bits s b small byte, join previous (b % P) h (mod-lt b (positive s)), rest)
        (omega (
          arith,
          carried P Q (powers s small) b,
          mul-add Q b (256 * value bs),
          times_256 Q (value bs),
        ))

length-shift_loop :
    (maskcode s previous : ℕ) (bs : List ℕ)
    → length (shift_loop maskcode s previous bs) ≡ suc (length bs)
unfolding shift_loop
length-shift_loop maskcode s previous [] = refl
length-shift_loop maskcode s previous (b ∷ bs) =
    ap suc (length-shift_loop maskcode s (b / 2 ^ s) bs)

left_shift_bitstream_runs :
    (b : ℕ) (bs : List ℕ) (s : ℕ)
    → 0 < s
    → s ≤ 8
    → left_shift_bitstream (b ∷ bs) s
      ≡ ret (
        shift_loop (mask_of s) s (b / 2 ^ s) bs,
        bit_and (complement (build_mask_code (8 - s))) b * 2 ^ (8 - s) % 256,
      )
unfolding left_shift_bitstream mask_of
left_shift_bitstream_runs b bs s positive small = ground arith

-- What the number of a stream is made of, for a shift.
module _ (s : ℕ) (small : s < 9) (b : ℕ) (bs : List ℕ) where
  carries : 256 * value bs ≡ 2 ^ s * (2 ^ (8 - s) * value bs)
  carries =
      ap (λ t. t * value bs) (sym (powers s small)) ∙ mul_assoc (2 ^ s) (2 ^ (8 - s)) (value bs)

  value-divided : value (b ∷ bs) / 2 ^ s ≡ b / 2 ^ s + 2 ^ (8 - s) * value bs
  unfolding value
  value-divided = rw carries (add-mul-div_left b (2 ^ (8 - s) * value bs) (positive s))

  value-remainder : value (b ∷ bs) % 2 ^ s ≡ b % 2 ^ s
  unfolding value
  value-remainder = rw carries (add-mul-mod_self_left b (2 ^ s) (2 ^ (8 - s) * value bs))

-- `left_shift_bitstream` by at most 8 of a block with a byte in it succeeds: the block keeps its length and
-- is, as a number, divided by the power of two, and what is returned is the remainder, moved up to the top
-- of a byte.
pub left_shift_bitstream_divides :
    (b : ℕ) (bs : List ℕ) (s : ℕ)
    → s ≤ 8
    → IsByte b
    → All IsByte bs
    → (out : List ℕ) × (shiftout : ℕ) × (left_shift_bitstream (b ∷ bs) s ≡ ret (out, shiftout))
      × (length out ≡ suc (length bs))
      × (value out ≡ value (b ∷ bs) / 2 ^ s)
      × (shiftout ≡ value (b ∷ bs) % 2 ^ s * 2 ^ (8 - s))
unfolding left_shift_bitstream
left_shift_bitstream_divides b bs zero small byte bytes =
    (b ∷ bs, 0, refl, refl, omega arith, omega arith)
left_shift_bitstream_divides b bs (suc s) small byte bytes =
    let small' : suc s < 9 = omega arith in
    (
      shift_loop (mask_of (suc s)) (suc s) (b / 2 ^ suc s) bs,
      bit_and (complement (build_mask_code (8 - suc s))) b * 2 ^ (8 - suc s) % 256,
      left_shift_bitstream_runs b bs (suc s) (omega arith) small,
      length-shift_loop (mask_of (suc s)) (suc s) (b / 2 ^ suc s) bs,
      value-shift_loop (suc s) small' (b / 2 ^ suc s) bs (quotient_small (suc s) small' b byte)
            bytes
          ∙ sym (value-divided (suc s) small' b bs),
      masked_bits (suc s) b small' byte
          ∙ ap (λ t. t * 2 ^ (8 - suc s)) (sym (value-remainder (suc s) small' b bs)),
    )

-- A block as its front and its last byte.
split_last :
    (n : ℕ) (xs : List ℕ)
    → length xs ≡ suc n
    → (last : ℕ) × (load xs n ≡ ret last)
      × (take n xs ++ (last ∷ []) ≡ xs)
      × (length (take n xs) ≡ n)
unfolding load
split_last n [] h = absurd (omega arith)
split_last zero (x ∷ []) h = (x, refl, refl, refl)
split_last zero (x ∷ y ∷ xs) h = absurd (omega arith)
split_last (suc n) (x ∷ xs) h =
    let (last, found, whole, same) = split_last n xs (omega arith) in
    (last, found, ap (λ ys. x ∷ ys) whole, ap suc same)

-- `right_shift_bitstream` by at most 8 of a block with a byte in it succeeds and multiplies: the block
-- keeps its length, and with the byte that is returned behind it, it is the number before times the power
-- of two.
right_shift_bitstream_multiplies :
    (b : ℕ) (bs : List ℕ) (s : ℕ)
    → s ≤ 8
    → IsByte b
    → All IsByte bs
    → (out : List ℕ) × (shiftout : ℕ) × (right_shift_bitstream (b ∷ bs) s ≡ ret (out, shiftout))
      × (length out ≡ suc (length bs))
      × (value (out ++ (shiftout ∷ [])) ≡ 2 ^ s * value (b ∷ bs))
unfolding right_shift_bitstream value
right_shift_bitstream_multiplies b bs s small byte bytes =
    let (shifted, o, runs, same, quotient, rest) =
      left_shift_bitstream_divides b bs (8 - s) (omega arith) byte bytes in
    let (last, found, whole, kept) = split_last (suc (length bs)) (o ∷ shifted) (ap suc same) in
    let V = value (b ∷ bs) in
    let eight : 8 - (8 - s) ≡ s = omega arith in
    let product =
      carried (2 ^ (8 - s)) (2 ^ s) (mul_comm (2 ^ (8 - s)) (2 ^ s) ∙ powers s (omega arith)) V in
    let remainder : o ≡ V % 2 ^ (8 - s) * 2 ^ s = (rw eight at rest) in
    (
      take (suc (length bs)) (o ∷ shifted),
      last,
      rw (runs, found) refl,
      kept,
      omega (arith, ap value whole, quotient, remainder, product),
    )
