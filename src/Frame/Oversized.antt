-- ===== src/Frame/Oversized.antt =====
-- An APDU that is too long for the length member of a frame.
use edifice.Base.{
  ℕ, zero, suc, ◌+◌, ◌%◌, ◌≤◌, ◌≡◌, refl, ◌∙◌, ap, arith, false, ◌==◌, ltb, List, [], ◌∷◌, length,
  ret, fault, slice, memcpy, store, slice_exact,
}
use edifice.Apdu.Types.{Apdu}
use edifice.Frame.Build.{build_frame_from_apdu, extended_from_apdu}

overrun :
    (a : Apdu) (x : ℕ) (xs : List ℕ) (len : ℕ)
    → a.apdu_mem ≡ x ∷ xs
    → slice a.apdu_mem 0 a.apdu_len ≡ ret (x ∷ xs)
    → (7 + a.apdu_len + 1) % 256 ≡ len
    → len ≤ 7
    → extended_from_apdu a ≡ fault
unfolding extended_from_apdu store memcpy
overrun a x xs zero em es e h = rw e
overrun a x xs (suc zero) em es e h = rw e
overrun a x xs (suc (suc zero)) em es e h = rw e
overrun a x xs (suc (suc (suc zero))) em es e h = rw e
overrun a x xs (suc (suc (suc (suc zero)))) em es e h = rw e
overrun a x xs (suc (suc (suc (suc (suc zero))))) em es e h = rw e
overrun a x xs (suc (suc (suc (suc (suc (suc zero)))))) em es e h = rw e
overrun a x xs (suc (suc (suc (suc (suc (suc (suc zero))))))) em es e h = rw (e, es)
overrun a x xs (suc (suc (suc (suc (suc (suc (suc (suc n)))))))) em es e h = absurd (omega arith)

-- An APDU of 248 to 255 bytes does not get a frame: the length member of the frame is one byte and
-- wraps, the block is allocated with at most 7 bytes, and the writes of the header or of the APDU run
-- behind its end.
pub build_frame_from_apdu_overrun :
    (a : Apdu)
    → length a.apdu_mem ≡ a.apdu_len
    → 248 ≤ a.apdu_len
    → a.apdu_len ≤ 255
    → build_frame_from_apdu a ≡ fault
unfolding build_frame_from_apdu
build_frame_from_apdu_overrun a h lo hi = by_mem a.apdu_mem refl
  where
    by_mem : (mem : List ℕ) → a.apdu_mem ≡ mem → build_frame_from_apdu a ≡ fault
    by_mem [] em = absurd (omega (arith, ap length em))
    by_mem (x ∷ xs) em =
        let e0 : (a.apdu_len == 0) ≡ false = ground arith in
        let e1 : ltb a.apdu_len 16 ≡ false = ground arith in
        rw (e0, e1)
          (overrun a x xs _ em (slice_exact a.apdu_len a.apdu_mem h ∙ ap ret em) refl (omega arith))
