-- ===== src/Pentagon/Bitstream.antt =====
-- `build_mask_code`, `left_shift_bitstream`, `right_shift_bitstream` and `ceil_divide` of
-- pentagon/pentagon.cpp. A stream of bits starts at the lowest bit of its first byte.
pub mod Value
use edifice.Base.{
  ℕ, zero, suc, ◌+◌, ◌-◌, ◌*◌, ◌/◌, ◌%◌, ◌^◌, ◌≤◌, ◌<◌, bit_and, bit_or, ◌≡◌, refl, arith, ◌||◌,
  ◌==◌, ltb, if◌then◌else◌, List, [], ◌∷◌, Outcome, ret, aborted, ◌>>=◌, length, take, drop, All,
  ◌++◌, load,
}
use edifice.Base.Bits.{IsByte, passes_below, agree_below₂}

-- The loop of `build_mask_code`, by the rounds left.
unfoldable pub mask_loop : ℕ → ℕ → ℕ → ℕ
mask_loop zero i maskcode = maskcode
mask_loop (suc rounds) i maskcode = mask_loop rounds (i + 1) (bit_or maskcode (0x80 / 2 ^ i))

-- The highest bits of a byte set, so many of them.
unfoldable pub build_mask_code : ℕ → ℕ
unfolding mask_loop
build_mask_code left_bit_num =
    if ltb 8 left_bit_num || ltb left_bit_num 1 then 0 else mask_loop left_bit_num 0 0

-- `~b` of a byte
abbrev pub complement : ℕ → ℕ
complement b = 255 - b

-- The loop of `left_shift_bitstream`, with the byte in front, which is shifted already.
unfoldable pub shift_loop : ℕ → ℕ → ℕ → List ℕ → List ℕ
shift_loop maskcode shift previous [] = previous ∷ []
shift_loop maskcode shift previous (b ∷ bs) =
    bit_or previous (bit_and maskcode b * 2 ^ (8 - shift) % 256)
    ∷ shift_loop maskcode shift (b / 2 ^ shift) bs

-- The block after the call, and the bits that are shifted out. An assertion guards the arguments.
unfoldable pub left_shift_bitstream : List ℕ → ℕ → Outcome (List ℕ × ℕ)
unfolding build_mask_code shift_loop
left_shift_bitstream [] shift = if shift == 0 then ret ([], 0) else aborted
left_shift_bitstream (b ∷ bs) shift =
    let maskcode = complement (build_mask_code (8 - shift)) in
    if shift == 0
    then ret (b ∷ bs, 0)
    else if ltb 8 shift
    then aborted
    else ret
        (shift_loop maskcode shift (b / 2 ^ shift) bs, bit_and maskcode b * 2 ^ (8 - shift) % 256)

-- `right_shift_bitstream` on the whole block, for a shift of at most 8: with a byte in front, it is the
-- other shift by what is left of 8.
unfoldable pub right_shift_bitstream : List ℕ → ℕ → Outcome (List ℕ × ℕ)
unfolding load
right_shift_bitstream bitstream shift = do
  (shifted, shiftout) ← left_shift_bitstream bitstream (8 - shift)
  last ← load (shiftout ∷ shifted) (length bitstream)
  ret (take (length bitstream) (shiftout ∷ shifted), last)

unfoldable pub ceil_divide : ℕ → ℕ → ℕ
ceil_divide dividend divisor = dividend / divisor + (if dividend % divisor == 0 then 0 else 1)
