-- ===== src/Base/Bits.antt =====
-- Bit operations on bytes as arithmetic: tables checked by evaluation, and laws of `^` by digits.
use Prim.Native.Nat.{ℕ, zero, suc, ◌+◌, ◌*◌, ◌/◌, ◌%◌, ◌<◌, bit_and, bit_or, bit_xor}
use mathlib.Core.Path.{◌≡◌, refl, ap, ◌∙◌}
use mathlib.Core.Bool.{Bool, true, ◌&&◌}
use native.Mathlib.Omega.{arith}
use edifice.Base.Tests.{◌==◌, ==_iff}

abbrev pub IsByte : ℕ → Type 0
IsByte b = b < 256

-- A table of test results up to a bound, the highest first.
unfoldable pub passes_below : (ℕ → Bool) → ℕ → Bool
passes_below test zero = true
passes_below test (suc bound) = passes_below test bound && test bound

passes_below-at :
    (test : ℕ → Bool) (bound : ℕ)
    → passes_below test bound ≡ true
    → (i : ℕ) → i < bound
    → test i ≡ true
unfolding passes_below
passes_below-at test zero table i inside = absurd (omega arith)
passes_below-at test (suc bound) table i inside =
    ground (arith, passes_below-at test bound (ground arith) i)

-- Two functions that agree at every number below a bound, and at every pair below two bounds.
pub agree_below :
    (bound : ℕ) (f g : ℕ → ℕ)
    → passes_below (λ i. f i == g i) bound ≡ true
    → (i : ℕ) → i < bound
    → f i ≡ g i
agree_below bound f g table i inside =
    (==_iff (f i) (g i)).0 (passes_below-at (λ i. f i == g i) bound table i inside)

pub agree_below₂ :
    (rows columns : ℕ) (f g : ℕ → ℕ → ℕ)
    → passes_below (λ i. passes_below (λ j. f i j == g i j) columns) rows ≡ true
    → (i j : ℕ) → i < rows
    → j < columns
    → f i j ≡ g i j
agree_below₂ rows columns f g table i j row column =
    let line = passes_below-at (λ i. passes_below (λ j. f i j == g i j) columns) rows table i row in
    agree_below columns (f i) (g i) line j column

pub low_nibble : (b : ℕ) → b < 256 → bit_and b 0x0f ≡ b % 16
unfolding passes_below
low_nibble b h = agree_below 256 (λ b. bit_and b 0x0f) (λ b. b % 16) refl b h

pub high_nibble : (b : ℕ) → b < 256 → bit_and b 0xf0 ≡ b / 16 * 16
unfolding passes_below
high_nibble b h = agree_below 256 (λ b. bit_and b 0xf0) (λ b. b / 16 * 16) refl b h

pub low_two : (b : ℕ) → b < 256 → bit_and b 0x03 ≡ b % 4
unfolding passes_below
low_two b h = agree_below 256 (λ b. bit_and b 0x03) (λ b. b % 4) refl b h

pub low_six : (b : ℕ) → b < 256 → bit_and 0x3f b ≡ b % 64
unfolding passes_below
low_six b h = agree_below 256 (λ b. bit_and 0x3f b) (λ b. b % 64) refl b h

pub top_bit : (b : ℕ) → b < 256 → bit_and b 0x80 ≡ b / 128 * 128
unfolding passes_below
top_bit b h = agree_below 256 (λ b. bit_and b 0x80) (λ b. b / 128 * 128) refl b h

-- A high nibble and a low nibble joined by `|`.
pub join_nibbles : (h l : ℕ) → h < 16 → l < 16 → bit_or (h * 16) l ≡ h * 16 + l
unfolding passes_below
join_nibbles = agree_below₂ 16 16 (λ h l. bit_or (h * 16) l) (λ h l. h * 16 + l) refl

-- Laws of `^` on bytes.
pub xor_byte : (a b : ℕ) → a < 256 → b < 256 → bit_xor a b < 256
unfolding passes_below
xor_byte a b ha hb =
    let e : bit_xor a b ≡ bit_xor a b % 256 =
      agree_below₂ 256 256 (λ a b. bit_xor a b) (λ a b. bit_xor a b % 256) refl a b ha hb in
    omega arith

pub xor_cancel : (a b : ℕ) → a < 256 → b < 256 → bit_xor (bit_xor a b) b ≡ a
unfolding passes_below
xor_cancel = agree_below₂ 256 256 (λ a b. bit_xor (bit_xor a b) b) (λ a b. a) refl

pub xor_cancel_left : (a b : ℕ) → a < 256 → b < 256 → bit_xor a (bit_xor a b) ≡ b
unfolding passes_below
xor_cancel_left = agree_below₂ 256 256 (λ a b. bit_xor a (bit_xor a b)) (λ a b. b) refl

pub xor_self : (a : ℕ) → a < 256 → bit_xor a a ≡ 0
unfolding passes_below
xor_self a h = agree_below 256 (λ a. bit_xor a a) (λ a. 0) refl a h

pub zero-xor : (a : ℕ) → a < 256 → bit_xor 0 a ≡ a
unfolding passes_below
zero-xor a h = agree_below 256 (λ a. bit_xor 0 a) (λ a. a) refl a h

pub high_two : (b : ℕ) → b < 256 → bit_and b 0xc0 ≡ b / 64 * 64
unfolding passes_below
high_two b h = agree_below 256 (λ b. bit_and b 0xc0) (λ b. b / 64 * 64) refl b h

pub full_mask : (b : ℕ) → b < 256 → bit_and b 255 ≡ b
unfolding passes_below
full_mask b h = agree_below 256 (λ b. bit_and b 255) (λ b. b) refl b h

pub zero_mask : (b : ℕ) → b < 256 → bit_and b 0 ≡ 0
unfolding passes_below
zero_mask b h = agree_below 256 (λ b. bit_and b 0) (λ b. 0) refl b h

pub low_twelve : (n : ℕ) → n < 65536 → bit_and n 0x0fff ≡ n % 4096
unfolding passes_below
low_twelve n h =
    let split : n ≡ n / 256 * 256 + n % 256 = omega arith in
    let masked : bit_and (n / 256 * 256 + n % 256) 0x0fff ≡ n / 256 % 16 * 256 + n % 256 =
      agree_below₂ 256 256 (λ h l. bit_and (h * 256 + l) 0x0fff) (λ h l. h % 16 * 256 + l) refl
        (n / 256) (n % 256) (omega arith) (omega arith) in
    ap (λ k. bit_and k 0x0fff) split ∙ masked ∙ (omega arith)
