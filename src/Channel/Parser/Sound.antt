-- ===== src/Channel/Parser/Sound.antt =====
-- What `FrameParser` of EIBCommNEO/CommBase.cpp takes out of the buffer.
use mathlib.Core.Path.{subst}
use edifice.Base.{
  ℕ, zero, suc, ◌+◌, ◌-◌, ◌%◌, ◌≤◌, ◌<◌, ◌≡◌, ◌⊎◌, inl, inr, refl, ap, ◌∙◌, arith, Bool, true, ltb,
  List, [], ◌∷◌, ◌++◌, length, length-append, drop, All, Option, none, some, Outcome, ret, fault,
  >>=-eq-ret, Bool-cases, ltb→lt,
}
use edifice.Apdu.Types.{Env}
use edifice.Device.Manager.{IDevice, DeviceManager}
use edifice.Frame.Types.{Frame}
use edifice.Frame.Accepted.{Accepted, build_frame_from_buff_sound}
use edifice.Channel.Parser.{attempt, parse_one, equal_frames, try_lengths, parse_recv_buff_ex}

-- A frame that starts at a received byte of the buffer and is what the frame parser accepts there. The length that
-- was tried is cut to an UCHAR for the frame parser.
pub record IsReceived (mem : List ℕ) (limit : ℕ) (f : Frame) : Type 0 where
  pub start : ℕ
  pub len : ℕ
  pub starts_inside : start < limit
  pub long : 9 ≤ len
  pub accepted : Accepted (drop start mem) (len % 256) f

All-snoc :
    {A : Type 0} (P : A → Type 0) (xs : List A) (x : A) → All P xs → P x → All P (xs ++ (x ∷ []))
All-snoc P [] x all p = (p, tt)
All-snoc P (y ∷ xs) x (q, all) p = (q, All-snoc P xs x all p)

pub All-weaken :
    (mem : List ℕ) (limit limit' : ℕ) (fs : List Frame)
    → limit ≤ limit'
    → All (IsReceived mem limit) fs
    → All (IsReceived mem limit') fs
All-weaken mem limit limit' [] h all = tt
All-weaken mem limit limit' (f ∷ fs) h (p, all) = (
  record {
    start = p.start;
    len = p.len;
    starts_inside = omega (arith, p.starts_inside);
    long = p.long;
    accepted = p.accepted;
  },
  All-weaken mem limit limit' fs h all,
)

module _ {D : Type 0} (dev : IDevice D) (env : Env) (check_address : Bool) where
  pub attempt-cases :
      {A B : Type 0} (r : Option A × DeviceManager D)
      (next : A → DeviceManager D → Outcome (Option B × DeviceManager D))
      (otherwise : DeviceManager D → Outcome (Option B × DeviceManager D))
      (b : Outcome (Option B × DeviceManager D))
      → attempt dev env check_address r next otherwise ≡ b
      → ((x : A) × (m : DeviceManager D) × (r ≡ (some x, m)) × (next x m ≡ b))
        ⊎ ((m : DeviceManager D) × (r ≡ (none, m)) × (otherwise m ≡ b))
  attempt-cases (some x, m) next otherwise b e = inl (x, m, refl, e)
  attempt-cases (none, m) next otherwise b e = inr (m, refl, e)

  parse_one-Accepted :
      (mem : List ℕ) (at flen : ℕ) (m : DeviceManager D) {f : Frame} {m' : DeviceManager D}
      → parse_one dev env check_address mem at flen m ≡ ret (some f, m')
      → Accepted (drop at mem) (flen % 256) f
  unfolding parse_one
  parse_one-Accepted mem at flen m {f} {m'} e =
      build_frame_from_buff_sound dev env (drop at mem) (flen % 256) true check_address m {f = f}
        {m' = m'} e

  -- The frames of a result.
  frames_of : Outcome (Option (List Frame) × DeviceManager D) → List Frame
  frames_of (ret (some frames, m)) = frames
  frames_of (ret (none, m)) = []
  frames_of Outcome.aborted = []
  frames_of fault = []

  equal_frames-IsReceived :
      (fuel : ℕ) (mem : List ℕ) (index pos len flen : ℕ) (before : List Frame) (m : DeviceManager D)
      {frames : List Frame} {m' : DeviceManager D}
      → 9 ≤ flen
      → All (IsReceived mem (index + len)) before
      → equal_frames dev env check_address fuel mem index pos len flen before m
        ≡ ret (some frames, m')
      → All (IsReceived mem (index + len)) frames
        × (length before ≤ length frames)
        × (pos < len → length before < length frames)
  unfolding equal_frames frames_of
  equal_frames-IsReceived zero mem index pos len flen before m long all e = cc
  equal_frames-IsReceived (suc fuel) mem index pos len flen before m {frames} {m'} long all e =
      elim (Bool-cases (ltb pos len)) [
        | inl inside ↦
            (let (r, parsed, e₁) =
                >>=-eq-ret (parse_one dev env check_address mem (index + pos) flen m) _
                  (rw inside at e) in
              elim (attempt-cases r _ _ (ret (some frames, m')) e₁) [
                | inl (f, m₁, found, e₂) ↦
                    (let below = ltb→lt pos len inside in
                      let ok : IsReceived mem (index + len) f = record {
                        start = index + pos;
                        len = flen;
                        starts_inside = omega (arith, below);
                        long = long;
                        accepted =
                            parse_one-Accepted mem (index + pos) flen m (parsed ∙ ap ret found);
                      } in
                      let (received, more, some_more) =
                        equal_frames-IsReceived fuel mem index (pos + flen) len flen
                          (before ++ (f ∷ [])) m₁ {frames = frames} {m' = m'} long
                          (All-snoc (IsReceived mem (index + len)) before f all ok) e₂ in
                      let one = length-append before (f ∷ []) in
                      (received, omega (arith, more, one), λ h. omega (arith, more, one)))
                | inr (m₁, nothing, e₂) ↦ cc
              ])
        | inr outside ↦
            (let same : before ≡ frames = ap frames_of (rw outside at e) in
              (
                subst (All (IsReceived mem (index + len))) same all,
                omega (arith, ap length same),
                λ h. absurd (ground (arith, outside, h)),
              ))
      ]

  try_lengths-IsReceived :
      (rounds : ℕ) (mem : List ℕ) (index len flen : ℕ) (m : DeviceManager D) {frames : List Frame}
      {m' : DeviceManager D}
      → 9 ≤ flen
      → 0 < len
      → try_lengths dev env check_address rounds mem index len flen m ≡ ret (some frames, m')
      → All (IsReceived mem (index + len)) frames × (0 < length frames)
  unfolding try_lengths frames_of
  try_lengths-IsReceived zero mem index len flen m long some_bytes e = cc
  try_lengths-IsReceived (suc rounds) mem index len flen m {frames} {m'} long some_bytes e =
      let (r, tried, e₁) =
        >>=-eq-ret (equal_frames dev env check_address (suc len) mem index 0 len flen [] m) _ e in
      elim (attempt-cases r _ _ (ret (some frames, m')) e₁) [
        | inl (fs, m₁, found, e₂) ↦
            (let same : fs ≡ frames = ap frames_of e₂ in
              let (received, least, more) =
                equal_frames-IsReceived (suc len) mem index 0 len flen [] m {frames = fs} {m' = m₁}
                  long tt (tried ∙ ap ret found) in
              (
                subst (All (IsReceived mem (index + len))) same received,
                omega (arith, more some_bytes, ap length same),
              ))
        | inr (m₁, nothing, e₂) ↦
            try_lengths-IsReceived rounds mem index len (flen + 1) m₁ {frames = frames} {m' = m'}
              (omega arith) some_bytes e₂
      ]

  -- Fewer than nine bytes are no frames.
  some_rounds :
      (rounds : ℕ) (mem : List ℕ) (index len flen : ℕ) (m : DeviceManager D) {frames : List Frame}
      {m' : DeviceManager D}
      → try_lengths dev env check_address rounds mem index len flen m ≡ ret (some frames, m')
      → 0 < rounds
  unfolding try_lengths
  some_rounds zero mem index len flen m e = cc
  some_rounds (suc rounds) mem index len flen m e = omega arith

  pub parse_recv_buff_ex-IsReceived :
      (mem : List ℕ) (index len : ℕ) (m : DeviceManager D) {frames : List Frame}
      {m' : DeviceManager D}
      → parse_recv_buff_ex dev env check_address mem index len m ≡ ret (some frames, m')
      → (9 ≤ len) × All (IsReceived mem (index + len)) frames × (0 < length frames)
  unfolding parse_recv_buff_ex
  parse_recv_buff_ex-IsReceived mem index len m {frames} {m'} e =
      let rounds = some_rounds (len + 1 - 9) mem index len 9 m {frames = frames} {m' = m'} e in
      let (received, some_frames) =
        try_lengths-IsReceived (len + 1 - 9) mem index len 9 m {frames = frames} {m' = m'}
          (omega arith) (omega (arith, rounds)) e in
      (omega (arith, rounds), received, some_frames)
