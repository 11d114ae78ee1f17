-- ===== src/Pentagon/Mask.antt =====
-- `mask_num` of pentagon/pentagon.cpp: the bits of a block that a hexadecimal mask selects.
use edifice.Base.{
  ℕ, zero, suc, ◌+◌, ◌-◌, ◌*◌, ◌/◌, ◌%◌, ◌^◌, bit_and, ◌≡◌, refl, arith, ◌&&◌, ◌==◌, leb,
  if◌then◌else◌, List, [], ◌∷◌, Option, some, none, Outcome, ret, fault, ◌>>=◌,
}
use edifice.Base.Bits.{IsByte, low_nibble, full_mask, zero_mask, passes_below, agree_below}

-- The value of a hexadecimal digit.
unfoldable pub hex_digit : ℕ → Option ℕ
hex_digit c =
    if leb b'0' c && leb c b'9'
    then some (c - b'0')
    else if leb b'A' c && leb c b'F'
    then some (c - b'A' + 10)
    else if leb b'a' c && leb c b'f'
    then some (c - b'a' + 10)
    else none

-- `strtol` in base 16 on text with no sign and no space in front: the digits up to the first
-- character that is none.
unfoldable pub hex_prefix : ℕ → List ℕ → ℕ
unfolding hex_digit
hex_prefix acc [] = acc
hex_prefix acc (c ∷ cs) = elim (hex_digit c) [ none ↦ acc | some d ↦ hex_prefix (acc * 16 + d) cs ]

-- The mask without the zeros at its end.
unfoldable pub trim_zeros : List ℕ → List ℕ
trim_zeros [] = []
trim_zeros (c ∷ cs) = elim (trim_zeros cs) [
  | [] ↦ if c == b'0' then [] else c ∷ []
  | d ∷ ds ↦ c ∷ d ∷ ds
]

-- The loop over pairs of mask digits, and the odd digit behind it.
unfoldable pub mask_bytes : List ℕ → List ℕ → ℕ → Outcome ℕ
unfolding hex_prefix
mask_bytes mem [] acc = ret acc
mask_bytes [] (c ∷ cs) acc = fault
mask_bytes (b ∷ mem) (c ∷ []) acc =
    ret ((acc * 16 + bit_and (b / 16) (hex_prefix 0 (c ∷ []))) % 2 ^ 32)
mask_bytes (b ∷ mem) (c ∷ d ∷ cs) acc =
    mask_bytes mem cs ((acc * 256 + bit_and b (hex_prefix 0 (c ∷ d ∷ []))) % 2 ^ 32)

-- The last loop: the result is shifted while the last mask digit is even. A digit is below 16, so
-- four rounds are enough; for the digit 0, which would go round for ever, the fuel runs out.
unfoldable pub shift_out : ℕ → ℕ → ℕ → Outcome ℕ
shift_out zero code v = fault
shift_out (suc f) code v =
    let rest = shift_out f (code / 2) (v / 2) in if code % 2 == 0 then rest else ret v

unfoldable pub last_digit : List ℕ → ℕ
unfolding hex_prefix
last_digit [] = 0
last_digit (c ∷ []) = hex_prefix 0 (c ∷ [])
last_digit (c ∷ d ∷ cs) = last_digit (d ∷ cs)

unfoldable pub mask_num : List ℕ → List ℕ → Outcome ℕ
unfolding trim_zeros mask_bytes shift_out last_digit
mask_num mem mask = do
  let digits = trim_zeros mask
  v ← mask_bytes mem digits 0
  shift_out 4 (last_digit digits) v

-- The mask "000000000fff".
abbrev pub start_index_mask : List ℕ
start_index_mask =
    b'0' ∷ b'0' ∷ b'0' ∷ b'0' ∷ b'0' ∷ b'0' ∷ b'0' ∷ b'0' ∷ b'0' ∷ b'f' ∷ b'f' ∷ b'f' ∷ []

-- That mask selects the low twelve bits of bytes 4 and 5, high byte first.
pub mask_num-start_index :
    (b₀ b₁ b₂ b₃ b₄ b₅ : ℕ) (rest : List ℕ)
    → IsByte b₀
    → IsByte b₁
    → IsByte b₂
    → IsByte b₃
    → IsByte b₄
    → IsByte b₅
    → mask_num (b₀ ∷ b₁ ∷ b₂ ∷ b₃ ∷ b₄ ∷ b₅ ∷ rest) start_index_mask ≡ ret (b₄ % 16 * 256 + b₅)
unfolding mask_num
mask_num-start_index b₀ b₁ b₂ b₃ b₄ b₅ rest h₀ h₁ h₂ h₃ h₄ h₅ =
    rw
      (
        zero_mask b₀ h₀,
        zero_mask b₁ h₁,
        zero_mask b₂ h₂,
        zero_mask b₃ h₃,
        low_nibble b₄ h₄,
        full_mask b₅ h₅,
      )
      (ground arith)

-- The mask "e0" on a byte gives its three highest bits.
pub mask_num-unit :
    (b : ℕ) (rest : List ℕ) → IsByte b → mask_num (b ∷ rest) (b'e' ∷ b'0' ∷ []) ≡ ret (b / 32)
unfolding mask_num passes_below
mask_num-unit b rest h =
    ground (arith, agree_below 16 (λ d. bit_and d 14) (λ d. d / 2 * 2) refl (b / 16) (omega arith))
