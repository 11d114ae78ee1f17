-- ===== src/Channel/Parser/Leaves.antt =====
-- All twigs of `FrameParser` of EIBCommNEO/CommBase.cpp, and what it leaves in the buffer.
use mathlib.Core.Path.{subst}
use edifice.Base.{
  ℕ, zero, suc, ◌+◌, ◌-◌, ◌≤◌, ◌<◌, ◌≡◌, ◌⊎◌, inl, inr, refl, ap, ◌∙◌, arith, Bool, List, [],
  length, All, Option, none, some, Outcome, ret, >>=-eq-ret, slice, memcpy,
}
use edifice.Apdu.Types.{Env}
use edifice.Device.Manager.{IDevice, DeviceManager}
use edifice.Frame.Types.{Frame}
use edifice.Channel.Parser.{
  Found, parse_recv_buff_ex, try_twigs, try_indices, cut, taken_or_not, frame_parser,
}
use edifice.Channel.Parser.Sound.{
  IsReceived, All-weaken, attempt-cases, parse_recv_buff_ex-IsReceived,
}

-- What is found: some frames, all received, in nine bytes or more that end before a limit.
pub record IsFound (mem : List ℕ) (limit : ℕ) (found : Found) : Type 0 where
  pub inside : found.index + found.len ≤ limit
  pub nine : 9 ≤ found.len
  pub nonempty : 0 < length found.frames
  pub all_received : All (IsReceived mem limit) found.frames

wider :
    (mem : List ℕ) (limit limit' : ℕ) (found : Found)
    → limit ≤ limit'
    → IsFound mem limit found
    → IsFound mem limit' found
wider mem limit limit' found h is_found = record {
  inside = omega (arith, is_found.inside);
  nine = is_found.nine;
  nonempty = is_found.nonempty;
  all_received = All-weaken mem limit limit' found.frames h is_found.all_received;
}

found_of :
    {M : Type 0} {f g : Found} {m m' : M}
    → ◌≡◌ {A = Outcome (Option Found × M)} (ret (some f, m)) (ret (some g, m'))
    → f ≡ g
found_of e = cc

-- What `FrameParser` leaves: no frames and everything as it was; or frames, and nine bytes less or more.
abbrev pub Leaves : List ℕ → ℕ → (List ℕ × ℕ) × List Frame → Type 0
Leaves mem mem_len ((mem', mem_len'), frames) =
    ((frames ≡ []) × (mem' ≡ mem) × (mem_len' ≡ mem_len))
    ⊎ ((0 < length frames) × All (IsReceived mem mem_len) frames × (mem_len' + 9 ≤ mem_len))

taken-Leaves :
    (mem : List ℕ) (mem_len : ℕ) (found : Found) (out : (List ℕ × ℕ) × List Frame)
    → IsFound mem mem_len found
    → cut mem mem_len found ≡ ret out
    → Leaves mem mem_len out
unfolding cut
taken-Leaves mem mem_len found out is_found e =
    let head = found.index + found.len in
    let (rest, read, e₁) = >>=-eq-ret (slice mem head (mem_len - head)) _ e in
    let (mem', moved, e₂) = >>=-eq-ret (memcpy mem 0 rest) _ e₁ in
    let same : ((mem', mem_len - head), found.frames) ≡ out = cc in
    subst (Leaves mem mem_len) same (
      inr (is_found.nonempty, is_found.all_received, omega (arith, is_found.inside, is_found.nine)))

module _ {D : Type 0} (dev : IDevice D) (env : Env) (check_address : Bool) where
  try_twigs-IsFound :
      (mem : List ℕ) (index j : ℕ) (m : DeviceManager D) {found : Found} {m' : DeviceManager D}
      → try_twigs dev env check_address mem index j m ≡ ret (some found, m')
      → IsFound mem (index + j) found
  unfolding try_twigs
  try_twigs-IsFound mem index zero m e = cc
  try_twigs-IsFound mem index (suc j) m {found} {m'} e =
      let (r, tried, e₁) =
        >>=-eq-ret (parse_recv_buff_ex dev env check_address mem index (suc j) m) _ e in
      elim (attempt-cases dev env check_address r _ _ (ret (some found, m')) e₁) [
        | inl (fs, m₁, parsed, e₂) ↦
            (let whole : record { index = index; len = suc j; frames = fs } ≡ found = found_of e₂ in
              let (nine, received, some_frames) =
                parse_recv_buff_ex-IsReceived dev env check_address mem index (suc j) m
                  {frames = fs} {m' = m₁} (tried ∙ ap ret parsed) in
              subst (IsFound mem (index + suc j)) whole (record {
                inside = omega arith;
                nine = nine;
                nonempty = some_frames;
                all_received = received;
              }))
        | inr (m₁, nothing, e₂) ↦
            wider mem (index + j) (index + suc j) found (omega arith)
              (try_twigs-IsFound mem index j m₁ {found = found} {m' = m'} e₂)
      ]

  pub try_indices-IsFound :
      (mem : List ℕ) (index left : ℕ) (m : DeviceManager D) {found : Found} {m' : DeviceManager D}
      → try_indices dev env check_address mem index left m ≡ ret (some found, m')
      → IsFound mem (index + left) found
  unfolding try_indices
  try_indices-IsFound mem index zero m e = cc
  try_indices-IsFound mem index (suc left) m {found} {m'} e =
      let (r, tried, e₁) =
        >>=-eq-ret (try_twigs dev env check_address mem index (suc left) m) _ e in
      elim (attempt-cases dev env check_address r _ _ (ret (some found, m')) e₁) [
        | inl (f, m₁, first, e₂) ↦
            (let same : f ≡ found = found_of e₂ in
              subst (IsFound mem (index + suc left)) same (
                try_twigs-IsFound mem index (suc left) m {found = f} {m' = m₁}
                  (tried ∙ ap ret first)))
        | inr (m₁, nothing, e₂) ↦
            wider mem (index + 1 + left) (index + suc left) found (omega arith)
              (try_indices-IsFound mem (index + 1) left m₁ {found = found} {m' = m'} e₂)
      ]

  -- What `FrameParser` makes of the first bytes of the buffer, if it comes to its end: either it finds
  -- nothing and leaves the buffer and the number of bytes as they are; or it gives frames, one or
  -- more, each of which is accepted by `BuildFrameFromBuff` at one of these bytes in a length that is
  -- the low byte of a tried length of nine or more, and at least nine bytes fewer are left.
  pub frame_parser-Leaves :
      (mem : List ℕ) (mem_len : ℕ) (m : DeviceManager D) (out : (List ℕ × ℕ) × List Frame)
      {m' : DeviceManager D}
      → frame_parser dev env check_address mem mem_len m ≡ ret (out, m')
      → Leaves mem mem_len out
  unfolding frame_parser
  frame_parser-Leaves mem mem_len m out {m' = m'} e =
      let (r, tried, e₁) = >>=-eq-ret (try_indices dev env check_address mem 0 mem_len m) _ e in
      by_result r tried e₁
    where
      by_result :
          (r : Option Found × DeviceManager D)
          → try_indices dev env check_address mem 0 mem_len m ≡ ret r
          → taken_or_not mem mem_len r ≡ ret (out, m')
          → Leaves mem mem_len out
      by_result (none, m₁) tried e₁ =
          let same : ((mem, mem_len), []) ≡ out = cc in
          subst (Leaves mem mem_len) same (inl (refl, refl, refl))
      by_result (some found, m₁) tried e₁ =
          let (t, cut_out, e₂) = >>=-eq-ret (cut mem mem_len found) _ e₁ in
          let same : t ≡ out = cc in
          subst (Leaves mem mem_len) same (
            taken-Leaves mem mem_len found t
              (wider mem (0 + mem_len) mem_len found (omega arith)
                (try_indices-IsFound mem 0 mem_len m {found = found} {m' = m₁} tried))
              cut_out)
