-- ===== src/Pentagon/Hex.antt =====
-- `bins2hexs` and `hexs2bins` of pentagon/pentagon.cpp: bytes as hexadecimal text.
use edifice.Base.{
  ℕ, zero, suc, ◌+◌, ◌-◌, ◌*◌, ◌/◌, ◌%◌, ◌≤◌, ◌<◌, bit_and, ◌≡◌, ◌≢◌, refl, ap, ◌∙◌, arith, Bool,
  true, false, if◌then◌else◌, ◌==◌, ltb, leb, ◌&&◌, ◌||◌, not, List, [], ◌∷◌, ◌++◌, length, take,
  replicate, All, Option, none, some, Retcode, success, failure, take_all, Bool-cases, inl, inr,
}
use edifice.Base.Bits.{IsByte, passes_below, agree_below}
use edifice.Pentagon.Mask.{hex_prefix}

-- `%X` of a number below 16.
unfoldable pub hex_char : ℕ → ℕ
hex_char d = if ltb d 10 then b'0' + d else b'A' + (d - 10)

-- The loop of `bins2hexs`.
unfoldable pub hex_text : List ℕ → List ℕ
unfolding hex_char
hex_text [] = []
hex_text (b ∷ bs) = hex_char (bit_and b 0xf0 / 16) ∷ hex_char (bit_and b 0x0f) ∷ hex_text bs

-- `bins2hexs` with a buffer for `buff_len` characters: what the buffer then holds.
unfoldable pub bins2hexs : List ℕ → ℕ → Option (List ℕ)
bins2hexs mem zero = none
bins2hexs mem (suc n) =
    if leb (length mem * 2) (suc n)
    then some (hex_text mem ++ replicate (suc n - length mem * 2) 0)
    else some (replicate (suc n) 0)

-- The characters in front of the terminator.
unfoldable pub c_string : List ℕ → List ℕ
c_string [] = []
c_string (zero ∷ cs) = []
c_string (suc c ∷ cs) = suc c ∷ c_string cs

-- The test that `hexs2bins` makes of each character.
unfoldable pub is_error : ℕ → Bool
is_error ch =
    let err = if leb b'0' ch && leb ch b'9' then false else true in
    let err' = if not (leb ch b'F' && leb b'A' ch) then false else err in
    if not (leb ch b'f' && leb b'a' ch) then false else err'

unfoldable pub any_error : List ℕ → Bool
any_error [] = false
any_error (ch ∷ cs) = is_error ch || any_error cs

-- `(unsigned char)strtol(text, NULL, 16)` on at most two characters.
unfoldable pub strtol_byte : List ℕ → ℕ
strtol_byte [] = 0
strtol_byte (c ∷ cs) =
    let rest = strtol_byte cs in
    if leb 9 c && leb c 13 || c == b' '
    then rest
    else if c == b'-'
    then (256 - hex_prefix 0 cs) % 256
    else if c == b'+'
    then hex_prefix 0 cs
    else hex_prefix 0 (c ∷ cs)

-- The conversion in pairs; a last single character stands for the high half of its byte.
unfoldable pub pairs : List ℕ → List ℕ
pairs [] = []
pairs (c ∷ []) = strtol_byte (c ∷ b'0' ∷ []) ∷ []
pairs (c ∷ d ∷ cs) = strtol_byte (c ∷ d ∷ []) ∷ pairs cs

-- What `hexs2bins` returns, and leaves in `buff` and `*lenp`.
pub record Bins : Type 0 where
  pub code : Retcode
  pub buff : List ℕ
  pub len : ℕ

abbrev lesser : ℕ → ℕ → ℕ
lesser nlen len = if ltb len nlen then len else nlen

-- `hexs2bins` on pointers that are not null, with a buffer for `len` bytes.
unfoldable pub hexs2bins : List ℕ → ℕ → Bins
hexs2bins hexstr len =
    let text = c_string hexstr in
    let nlen = length (pairs text) in
    if any_error text
    then record { code = failure 2; buff = replicate len b'?'; len = len }
    else record {
      code = if ltb len nlen then failure 1 else success;
      buff = take (lesser nlen len) (pairs text) ++ replicate (len - lesser nlen len) 0;
      len = nlen;
    }

is_error_never : (ch : ℕ) → is_error ch ≡ false
unfolding is_error
is_error_never ch = ground arith

any_error_never : (cs : List ℕ) → any_error cs ≡ false
unfolding any_error
any_error_never [] = refl
any_error_never (c ∷ cs) = rw (is_error_never c) (any_error_never cs)

-- `hexs2bins` never refuses a character: the return code -2 that its description promises for text that is
-- not hexadecimal is given for no string at all, with any buffer.
pub hexs2bins_accepts : (hexstr : List ℕ) (len : ℕ) → (hexs2bins hexstr len).code ≢ failure 2
unfolding hexs2bins
hexs2bins_accepts hexstr len = elim (Bool-cases (ltb len (length (pairs (c_string hexstr))))) [
  | inl e ↦ rw (any_error_never (c_string hexstr), e) (λ same. ground (arith, same))
  | inr e ↦ rw (any_error_never (c_string hexstr), e) (λ same. cc)
]

pair-hex_char :
    (b : ℕ)
    → IsByte b
    → strtol_byte (hex_char (bit_and b 0xf0 / 16) ∷ hex_char (bit_and b 0x0f) ∷ []) ≡ b
unfolding strtol_byte hex_char hex_prefix passes_below
pair-hex_char b h =
    agree_below 256
      (λ b. strtol_byte (hex_char (bit_and b 0xf0 / 16) ∷ hex_char (bit_and b 0x0f) ∷ [])) (λ b. b)
      refl b h

pairs-hex_text : (mem : List ℕ) → All IsByte mem → pairs (hex_text mem) ≡ mem
unfolding pairs hex_text
pairs-hex_text [] hs = refl
pairs-hex_text (b ∷ bs) (h, hs) = rw (pair-hex_char b h, pairs-hex_text bs hs)

c_string_ends : (rest : List ℕ) → c_string (0 ∷ rest) ≡ []
unfolding c_string
c_string_ends rest = refl

c_string_keeps : (c : ℕ) (cs : List ℕ) → 1 ≤ c → c_string (c ∷ cs) ≡ c ∷ c_string cs
unfolding c_string
c_string_keeps zero cs h = absurd (omega arith)
c_string_keeps (suc c) cs h = refl

hex_char_visible : (d : ℕ) → 1 ≤ hex_char d
unfolding hex_char
hex_char_visible d = ground arith

c_string-hex_text : (mem rest : List ℕ) → c_string (hex_text mem ++ (0 ∷ rest)) ≡ hex_text mem
unfolding hex_text
c_string-hex_text [] rest = c_string_ends rest
c_string-hex_text (b ∷ bs) rest =
    let high = hex_char (bit_and b 0xf0 / 16) in
    let low = hex_char (bit_and b 0x0f) in
    let more = hex_text bs ++ (0 ∷ rest) in
    c_string_keeps high (low ∷ more) (hex_char_visible (bit_and b 0xf0 / 16))
    ∙ ap (λ cs. high ∷ cs)
        (c_string_keeps low more (hex_char_visible (bit_and b 0x0f))
          ∙ ap (λ cs. low ∷ cs) (c_string-hex_text bs rest))

-- `hexs2bins` after `bins2hexs`: for a block of bytes, a text buffer with room for the digits and the
-- terminator, and a buffer at least as long as the block, the text is made, and reading it back
-- succeeds with exactly the block, its length, and zeros behind it.
hexs2bins-bins2hexs :
    (mem : List ℕ) (room len : ℕ)
    → All IsByte mem
    → length mem * 2 < room
    → length mem ≤ len
    → (text : List ℕ) × (bins2hexs mem room ≡ some text)
      × (hexs2bins text len ≡ record {
        code = success;
        buff = mem ++ replicate (len - length mem) 0;
        len = length mem;
      })
unfolding bins2hexs hexs2bins
hexs2bins-bins2hexs mem zero len hs lo fits = absurd (omega arith)
hexs2bins-bins2hexs mem (suc n) len hs lo fits =
    let rest : List ℕ = replicate (n - length mem * 2) 0 in
    let e : suc n - length mem * 2 ≡ suc (n - length mem * 2) = omega arith in
    let e1 : leb (length mem * 2) (suc n) ≡ true = ground arith in
    let e2 : ltb len (length mem) ≡ false = ground arith in
    (
      hex_text mem ++ (0 ∷ rest),
      rw (e1, e),
      rw (c_string-hex_text mem rest, any_error_never (hex_text mem), pairs-hex_text mem hs, e2)
          (rw (take_all (length mem) mem refl)),
    )
