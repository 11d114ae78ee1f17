-- ===== src/Frame/Layout.antt =====
-- The bytes of the frames that are built, in plain form.
use edifice.Base.{
  ℕ, suc, ◌+◌, ◌-◌, ◌%◌, ◌≤◌, bit_or, ◌≡◌, arith, List, [], ◌∷◌, ◌++◌, length, ret, memcpy, store,
  slice_exact, memcpy_cleared, store_last, All,
}
use edifice.Base.Bits.{IsByte}
use edifice.Pentagon.Checksum.{xor_all, xor_check_sum-append}
use edifice.Apdu.Types.{Apdu}
use edifice.Frame.Types.{Frame, standard, extended}
use edifice.Frame.Build.{
  standard_ctrl, extended_ctrl, route, standard_from_apdu, extended_from_apdu,
}

-- What makes an APDU ready to be sent: as many bytes as its length member says, 1 to 247 of them,
-- and every member that goes into the frame a byte.
pub record IsSendable (a : Apdu) : Type 0 where
  pub sized : length a.apdu_mem ≡ a.apdu_len
  pub at_least : 1 ≤ a.apdu_len
  pub at_most : a.apdu_len ≤ 247
  pub bytes : All IsByte a.apdu_mem
  pub priority : IsByte a.priority
  pub host_high : IsByte a.hostaddr.high
  pub host_low : IsByte a.hostaddr.low
  pub peer_high : IsByte a.peeraddr.high
  pub peer_low : IsByte a.peeraddr.low

-- The header after the control byte, and the APDU.
unfoldable pub standard_rest : Apdu → List ℕ
standard_rest a =
    a.hostaddr.high
    ∷ a.hostaddr.low
    ∷ a.peeraddr.high
    ∷ a.peeraddr.low
    ∷ bit_or (route a) a.apdu_len
    ∷ a.apdu_mem

unfoldable pub extended_rest : Apdu → List ℕ
extended_rest a =
    route a
    ∷ a.hostaddr.high
    ∷ a.hostaddr.low
    ∷ a.peeraddr.high
    ∷ a.peeraddr.low
    ∷ a.apdu_len
    ∷ a.apdu_mem

unfoldable pub standard_layout : Apdu → Frame
unfolding standard_rest
standard_layout a =
    let c = standard_ctrl a in
    record {
      class = standard;
      frame_len = a.apdu_len + 7;
      frame_mem = (c ∷ standard_rest a) ++ (xor_all c (standard_rest a) ∷ []);
    }

unfoldable pub extended_layout : Apdu → Frame
unfolding extended_rest
extended_layout a =
    let c = extended_ctrl a in
    record {
      class = extended;
      frame_len = a.apdu_len + 8;
      frame_mem = (c ∷ extended_rest a) ++ (xor_all c (extended_rest a) ∷ []);
    }

-- Each constructor writes that layout.
pub standard_from_apdu-layout :
    (a : Apdu)
    → length a.apdu_mem ≡ a.apdu_len
    → a.apdu_len ≤ 248
    → standard_from_apdu a ≡ ret (standard_layout a)
unfolding standard_from_apdu standard_layout store memcpy
standard_from_apdu-layout a h b =
    let n = a.apdu_len in
    let k = suc (suc (suc (suc (suc (suc n))))) in
    let e : (6 + n + 1) % 256 ≡ suc k = omega arith in
    let e' : suc k - 1 ≡ k = omega arith in
    let e'' : n + 7 ≡ suc k = omega arith in
    let c = standard_ctrl a in
    rw (e, e', e'', slice_exact n a.apdu_mem h)
      (rw (memcpy_cleared n 0 a.apdu_mem h) (
        rw
          (xor_check_sum-append c (standard_rest a) (0 ∷ []) (suc (suc (suc (suc (suc n)))))
            (omega arith))
          (rw (store_last a.apdu_mem 0 (xor_all c (standard_rest a)) n h))))

pub extended_from_apdu-layout :
    (a : Apdu)
    → length a.apdu_mem ≡ a.apdu_len
    → a.apdu_len ≤ 247
    → extended_from_apdu a ≡ ret (extended_layout a)
unfolding extended_from_apdu extended_layout store memcpy
extended_from_apdu-layout a h b =
    let n = a.apdu_len in
    let k = suc (suc (suc (suc (suc (suc (suc n)))))) in
    let e : (7 + n + 1) % 256 ≡ suc k = omega arith in
    let e' : suc k - 1 ≡ k = omega arith in
    let e'' : n + 8 ≡ suc k = omega arith in
    let c = extended_ctrl a in
    rw (e, e', e'', slice_exact n a.apdu_mem h)
      (rw (memcpy_cleared n 0 a.apdu_mem h) (
        rw
          (xor_check_sum-append c (extended_rest a) (0 ∷ []) (suc (suc (suc (suc (suc (suc n))))))
            (omega arith))
          (rw (store_last a.apdu_mem 0 (xor_all c (extended_rest a)) n h))))
