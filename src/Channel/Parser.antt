-- ===== src/Channel/Parser.antt =====
-- `CommBase::FrameParser`, `parse_recv_buff_ex` and `_parse_recv_buff` (EIBCommNEO/CommBase.cpp) on the buffer of
-- the receiving thread, whose bytes behind the received ones are what was there before.
pub mod Sound
pub mod Leaves
pub mod Ends
use edifice.Base.{
  ℕ, zero, suc, ◌+◌, ◌-◌, ◌%◌, Bool, true, false, ltb, List, [], ◌∷◌, ◌++◌, length, drop, Option,
  none, some, Outcome, ret, fault, ◌>>=◌, slice, memcpy, if◌then◌else◌,
}
use edifice.Apdu.Types.{Env}
use edifice.Device.Manager.{IDevice, DeviceManager}
use edifice.Frame.Types.{Frame}
use edifice.Frame.Parse.{build_frame_from_buff}

-- The frames that were found: from which byte of the buffer on, in how many bytes.
pub record Found : Type 0 where
  pub index : ℕ
  pub len : ℕ
  pub frames : List Frame

-- The buffer, how many of its bytes are received, and the frames, after a success.
unfoldable pub cut : List ℕ → ℕ → Found → Outcome ((List ℕ × ℕ) × List Frame)
cut mem mem_len found = do
  let head = found.index + found.len
  rest ← slice mem head (mem_len - head)
  mem' ← memcpy mem 0 rest
  ret ((mem', mem_len - head), found.frames)

abbrev pub taken_or_not :
    {M : Type 0} → List ℕ → ℕ → Option Found × M → Outcome (((List ℕ × ℕ) × List Frame) × M)
taken_or_not mem mem_len (none, m) = ret (((mem, mem_len), []), m)
taken_or_not mem mem_len (some found, m) = cut mem mem_len found >>= λ t. ret (t, m)

module _ {D : Type 0} (dev : IDevice D) (env : Env) (check_address : Bool) where
  abbrev pub Search : Type 0 → Type 0
  Search A = DeviceManager D → Outcome (Option A × DeviceManager D)

  -- What comes next, if an attempt finds something, and if it does not.
  abbrev pub attempt :
      {A B : Type 0}
      → Option A × DeviceManager D
      → (A → DeviceManager D → Outcome (Option B × DeviceManager D))
      → (DeviceManager D → Outcome (Option B × DeviceManager D))
      → Outcome (Option B × DeviceManager D)
  attempt (some x, m) next otherwise = next x m
  attempt (none, m) next otherwise = otherwise m

  -- `_parse_recv_buff` on `flen` bytes from a place of the buffer on. `BuildFrameFromBuff` takes the length
  -- as an UCHAR.
  unfoldable pub parse_one : List ℕ → ℕ → ℕ → Search Frame
  parse_one mem at flen m =
      build_frame_from_buff dev env (some (drop at mem)) (flen % 256) true check_address m

  -- The inner loop of `parse_recv_buff_ex`: frames of `flen` bytes, one behind the other. The fuel is the
  -- number of bytes.
  unfoldable pub equal_frames : ℕ → List ℕ → ℕ → ℕ → ℕ → ℕ → List Frame → Search (List Frame)
  equal_frames zero mem index pos len flen get_frames m = fault
  equal_frames (suc fuel) mem index pos len flen get_frames m =
      let parsed = parse_one mem (index + pos) flen m >>= λ r.
      attempt r
        (λ f m'. equal_frames fuel mem index (pos + flen) len flen (get_frames ++ (f ∷ [])) m')
        (λ m'. ret (none, m')) in
      if ltb pos len then parsed else ret (some get_frames, m)

  -- The outer loop: every length from nine bytes on, for so many rounds.
  unfoldable pub try_lengths : ℕ → List ℕ → ℕ → ℕ → ℕ → Search (List Frame)
  try_lengths zero mem index len flen m = ret (none, m)
  try_lengths (suc rounds) mem index len flen m =
      equal_frames (suc len) mem index 0 len flen [] m >>= λ r.
      attempt r (λ frames m'. ret (some frames, m'))
        (λ m'. try_lengths rounds mem index len (flen + 1) m')

  -- `parse_recv_buff_ex` on `len` bytes from `index` on; `none` is the return code -1.
  unfoldable pub parse_recv_buff_ex : List ℕ → ℕ → ℕ → Search (List Frame)
  parse_recv_buff_ex mem index len m = try_lengths (len + 1 - 9) mem index len 9 m

  -- The twigs with one index: the longest first.
  unfoldable pub try_twigs : List ℕ → ℕ → ℕ → Search Found
  try_twigs mem index zero m = ret (none, m)
  try_twigs mem index (suc j) m = parse_recv_buff_ex mem index (suc j) m >>= λ r.
      attempt r
        (λ frames m'. ret (some (record { index = index; len = suc j; frames = frames }), m'))
        (λ m'. try_twigs mem index j m')

  -- All twigs: the indices in their order, for so many bytes that are left.
  unfoldable pub try_indices : List ℕ → ℕ → ℕ → Search Found
  try_indices mem index zero m = ret (none, m)
  try_indices mem index (suc left) m = try_twigs mem index (suc left) m >>= λ r.
      attempt r (λ found m'. ret (some found, m')) (λ m'. try_indices mem (index + 1) left m')

  -- `FrameParser`; no frames are the return code -1, and change nothing.
  unfoldable pub frame_parser :
      List ℕ → ℕ → DeviceManager D → Outcome (((List ℕ × ℕ) × List Frame) × DeviceManager D)
  frame_parser mem mem_len m = try_indices mem 0 mem_len m >>= λ r. taken_or_not mem mem_len r
