-- ===== src/Frame/Corruption.antt =====
-- What the checksum of a frame protects against, and how `SetReptBit` breaks it.
use edifice.Base.{
  ℕ, zero, suc, ◌-◌, ◌≤◌, ◌≡◌, ◌≢◌, ◌∙◌, arith, Bool, List, length, length-set, set, get_elem?, All,
  ret, load, load_defined, some,
}
use edifice.Base.Bits.{IsByte}
use edifice.Pentagon.Checksum.{xor_all, xor_check_sum, balanced, balanced_set, All-set}
use edifice.Apdu.Types.{Env}
use edifice.Device.Manager.{IDevice, DeviceManager}
use edifice.Frame.Types.{Frame}
use edifice.Frame.Parse.{build_frame_from_buff}
use edifice.Frame.Accepted.{
  Accepted, by_standard, by_extended, by_short, build_frame_from_buff_sound,
}

summed-balanced :
    (buff : List ℕ) (len : ℕ)
    → All IsByte buff
    → length buff ≡ len
    → 2 ≤ len
    → xor_check_sum buff (len - 1) ≡ load buff (len - 1)
    → xor_all 0 buff ≡ 0
summed-balanced buff zero hs h lo e = absurd (omega arith)
summed-balanced buff (suc zero) hs h lo e = absurd (omega arith)
summed-balanced buff (suc (suc n)) hs h lo e =
    let last : suc (suc n) - 1 ≡ suc n = omega arith in
    let (b, eb) = load_defined buff (suc n) (omega arith) in
    balanced buff n hs h ((rw last at e) ∙ eb) eb

Accepted-balanced :
    (buff : List ℕ) (len : ℕ) {f : Frame}
    → Accepted buff len f
    → len ≢ 1
    → All IsByte buff
    → length buff ≡ len
    → xor_all 0 buff ≡ 0
Accepted-balanced buff len (by_standard shape copy) ne hs h =
    summed-balanced buff len hs h (omega (arith, shape.at_least)) copy.summed
Accepted-balanced buff len (by_extended shape copy) ne hs h =
    summed-balanced buff len hs h (omega (arith, shape.at_least)) copy.summed
Accepted-balanced buff len (by_short one _ _) ne hs h = absurd (ne one)

module _ {D : Type 0} (dev : IDevice D) where
  -- Every change of a single byte is detected. If `BuildFrameFromBuff` accepted the `len` bytes of a
  -- buffer (all below 256, `len` not 1), then it does not accept the buffer in which one byte has
  -- another value, whatever the direction, the address test and the state of the device table.
  pub changed_byte_detected :
      (env : Env) (buff : List ℕ) (len i v : ℕ) (recved recved' check check' : Bool)
      (m n : DeviceManager D) {f : Frame} {m' : DeviceManager D} {old : ℕ}
      → length buff ≡ len
      → len ≢ 1
      → All IsByte buff
      → IsByte v
      → get_elem? buff i ≡ some old
      → v ≢ old
      → build_frame_from_buff dev env (some buff) len recved check m ≡ ret (some f, m')
      → (f' : Frame) (n' : DeviceManager D)
      → build_frame_from_buff dev env (some (set buff i v)) len recved' check' n ≢ ret (some f', n')
  changed_byte_detected env buff len i v recved recved' check check' m n {f = f} {m' = m'} h ne hs
        hv g changed e f' n' e' =
      let sum =
        Accepted-balanced buff len
          (build_frame_from_buff_sound dev env buff len recved check m {f = f} {m' = m'} e) ne hs
          h in
      let sum' =
        Accepted-balanced (set buff i v) len
          (build_frame_from_buff_sound dev env (set buff i v) len recved' check' n {f = f'}
            {m' = n'} e')
          ne (All-set buff i v hs hv) (length-set buff i v ∙ h) in
      changed (balanced_set buff i v hs hv g sum sum')
