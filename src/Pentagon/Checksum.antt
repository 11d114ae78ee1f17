-- ===== src/Pentagon/Checksum.antt =====
-- `xor_check_sum` of pentagon/pentagon.cpp.
use edifice.Base.{
  ℕ, zero, suc, bit_xor, ◌≡◌, refl, ap, sym, ◌∙◌, arith, List, [], ◌∷◌, ◌++◌, length, All, set,
  get_elem?, some, Outcome, ret, fault, load,
}
use edifice.Base.Bits.{IsByte, xor_byte, xor_cancel, xor_cancel_left, xor_self, zero-xor}

-- The loop over `buff[1] ... buff[len - 1]`; the list is what it has not reached.
unfoldable pub xor_loop : ℕ → List ℕ → ℕ → Outcome ℕ
xor_loop checksum buff zero = ret checksum
xor_loop checksum [] (suc n) = fault
xor_loop checksum (b ∷ buff) (suc n) = xor_loop (bit_xor checksum b) buff n

-- `*buff` is read even for `len` 0. The empty list is the null pointer.
unfoldable pub xor_check_sum : List ℕ → ℕ → Outcome ℕ
unfolding xor_loop
xor_check_sum [] len = ret 0
xor_check_sum (b ∷ buff) zero = ret b
xor_check_sum (b ∷ buff) (suc n) = xor_loop b buff n

-- The exclusive or of a whole block.
unfoldable pub xor_all : ℕ → List ℕ → ℕ
xor_all acc [] = acc
xor_all acc (b ∷ bs) = xor_all (bit_xor acc b) bs

pub xor_loop-xor_all :
    (acc : ℕ) (bs more : List ℕ) → xor_loop acc (bs ++ more) (length bs) ≡ ret (xor_all acc bs)
unfolding xor_loop xor_all
xor_loop-xor_all acc [] more = refl
xor_loop-xor_all acc (b ∷ bs) more = xor_loop-xor_all (bit_xor acc b) bs more

-- The checksum over the first bytes of a block is their exclusive or.
pub xor_check_sum-append :
    (b : ℕ) (bs more : List ℕ) (k : ℕ)
    → length bs ≡ k
    → xor_check_sum ((b ∷ bs) ++ more) (suc k) ≡ ret (xor_all b bs)
unfolding xor_check_sum
xor_check_sum-append b bs more k h = rw (← h) (xor_loop-xor_all b bs more)

pub xor_all-IsByte : (acc : ℕ) (bs : List ℕ) → IsByte acc → All IsByte bs → IsByte (xor_all acc bs)
unfolding xor_all
xor_all-IsByte acc [] h hs = h
xor_all-IsByte acc (b ∷ bs) h (hb, hs) = xor_all-IsByte (bit_xor acc b) bs (xor_byte acc b h hb) hs

-- Different sums stay different under the same bytes.
pub xor_all-injective :
    (a b : ℕ) (bs : List ℕ)
    → IsByte a
    → IsByte b
    → All IsByte bs
    → xor_all a bs ≡ xor_all b bs
    → a ≡ b
unfolding xor_all
xor_all-injective a b [] ha hb hs e = e
xor_all-injective a b (c ∷ bs) ha hb (hc, hs) e =
    let same =
      xor_all-injective (bit_xor a c) (bit_xor b c) bs (xor_byte a c ha hc) (xor_byte b c hb hc) hs
        e in
    omega (arith, xor_cancel a c ha hc, xor_cancel b c hb hc, ap (λ (t : ℕ). bit_xor t c) same)

-- One changed byte changes the sum.
pub xor_all-set :
    (acc : ℕ) (bs : List ℕ) (i v : ℕ) {old : ℕ}
    → IsByte acc
    → All IsByte bs
    → IsByte v
    → get_elem? bs i ≡ some old
    → xor_all acc (set bs i v) ≡ xor_all acc bs
    → v ≡ old
unfolding xor_all
xor_all-set acc [] i v h hs hv g e = ground arith
xor_all-set acc (b ∷ bs) zero v h (hb, hs) hv g e =
    let same =
      xor_all-injective (bit_xor acc v) (bit_xor acc b) bs (xor_byte acc v h hv)
        (xor_byte acc b h hb) hs e in
    ground (
      arith,
      xor_cancel_left acc v h hv,
      xor_cancel_left acc b h hb,
      ap (λ (t : ℕ). bit_xor acc t) same,
    )
xor_all-set acc (b ∷ bs) (suc i) v h (hb, hs) hv g e =
    xor_all-set (bit_xor acc b) bs i v (xor_byte acc b h hb) hs hv g e

xor_loop_balanced :
    (acc : ℕ) (xs : List ℕ) (n : ℕ) {c : ℕ}
    → IsByte acc
    → All IsByte xs
    → length xs ≡ suc n
    → xor_loop acc xs n ≡ ret c
    → load xs n ≡ ret c
    → xor_all acc xs ≡ 0
unfolding xor_loop xor_all load
xor_loop_balanced acc [] n hb hs h e l = absurd (omega arith)
xor_loop_balanced acc (x ∷ []) zero hb hs h e l = ground (arith, xor_self acc hb)
xor_loop_balanced acc (x ∷ y ∷ xs) zero hb hs h e l = absurd (omega arith)
xor_loop_balanced acc (x ∷ xs) (suc n) hb (hx, hs) h e l =
    xor_loop_balanced (bit_xor acc x) xs n (xor_byte acc x hb hx) hs (omega arith) e l

-- A block whose last byte is the checksum of those before it sums up to 0.
pub balanced :
    (buff : List ℕ) (n : ℕ) {c : ℕ}
    → All IsByte buff
    → length buff ≡ suc (suc n)
    → xor_check_sum buff (suc n) ≡ ret c
    → load buff (suc n) ≡ ret c
    → xor_all 0 buff ≡ 0
unfolding xor_check_sum xor_all load
balanced [] n hs h e l = absurd (omega arith)
balanced (b ∷ bs) n (hb, hs) h e l =
    rw (zero-xor b hb) (xor_loop_balanced b bs n hb hs (omega arith) e l)

-- Two blocks that both sum up to 0 do not differ in one byte only.
pub balanced_set :
    (buff : List ℕ) (i v : ℕ) {old : ℕ}
    → All IsByte buff
    → IsByte v
    → get_elem? buff i ≡ some old
    → xor_all 0 buff ≡ 0
    → xor_all 0 (set buff i v) ≡ 0
    → v ≡ old
balanced_set buff i v hs hv g e e' = xor_all-set 0 buff i v (omega arith) hs hv g (e' ∙ sym e)

pub All-set : (buff : List ℕ) (i v : ℕ) → All IsByte buff → IsByte v → All IsByte (set buff i v)
All-set [] i v hs hv = tt
All-set (b ∷ bs) zero v (hb, hs) hv = (hv, hs)
All-set (b ∷ bs) (suc i) v (hb, hs) hv = (hb, All-set bs i v hs hv)
