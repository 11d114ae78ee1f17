-- ===== src/Txt/Memory.antt =====
-- The user memory of DeviceImpl_TXT, a megabyte in two properties: GetUserMemory and WriteUserMemory of
-- EIBCommNEO/DeviceImpl_TXT.cpp.
pub mod Upper
use edifice.Base.{
  ℕ, ◌+◌, ◌-◌, Bool, ◌==◌, ltb, leb, if◌then◌else◌, List, [], ◌∷◌, ◌++◌, Option, none, some,
  Outcome, ret, aborted, fault, ◌>>=◌, slice, memcpy, length, Retcode, success, failure,
}
use edifice.Apdu.UserMemory.{max_user_memory_size}
use edifice.Txt.Types.{
  Block, Duplex, Keyword, user_memory, TextDevice, find_block, with_block, duplex_at,
}

-- The block of the first or the second property; the code goes through the iterator before any test.
abbrev pub block_or_fault : Option Block → Outcome Block
block_or_fault none = fault
block_or_fault (some b) = ret b

unfoldable pub half_block : TextDevice → Duplex → Outcome Block
half_block d k = block_or_fault (find_block k d.blocks)

abbrev pub joined_halves : TextDevice → Option (List Duplex) → Outcome (Option (List ℕ))
joined_halves d none = ret none
joined_halves d (some duplexes) = do
  j ← duplex_at duplexes 0
  a ← half_block d j
  low ← slice a.value_mem 0 a.value_size
  k ← duplex_at duplexes 1
  b ← half_block d k
  high ← slice b.value_mem 0 b.value_size
  ret (some (low ++ high))

-- `GetUserMemory`: a copy of the bytes in use of both.
unfoldable pub get_user_memory : TextDevice → Outcome (Option (List ℕ))
unfolding half_block
get_user_memory d = joined_halves d (d.mediator user_memory)

-- A copy to an offset of one of the two, whose size an assertion fixes.
unfoldable pub write_half : TextDevice → Duplex → ℕ → List ℕ → Outcome TextDevice
unfolding half_block
write_half d k at bytes = do
  b ← half_block d k
  let written =
      memcpy b.value_mem at bytes >>= λ mem. ret (with_block d k (record b { value_mem = mem }))
  (if b.value_size == 0x8_0000 then written else aborted)

abbrev pub lesser_of : ℕ → ℕ → ℕ
lesser_of n most = if ltb most n then most else n

-- The first property, for a place in the first half.
unfoldable pub write_low : TextDevice → List Duplex → ℕ → List ℕ → Outcome TextDevice
write_low d duplexes shift buff =
    let written = (do
      k ← duplex_at duplexes 0
      bytes ← slice buff 0 (lesser_of (length buff) (0x8_0000 - shift))
      write_half d k shift bytes) in
    if ltb shift 0x8_0000 then written else ret d

-- The second property, if the end is not in the first half. The bytes go to its start, also when the place
-- is behind it.
unfoldable pub write_high : TextDevice → List Duplex → ℕ → List ℕ → Outcome TextDevice
write_high d duplexes shift buff =
    let from = (if ltb shift 0x8_0000 then 0x8_0000 - shift else 0) in
    let written = (do
      k ← duplex_at duplexes 1
      bytes ← slice buff from (length buff - from)
      write_half d k 0 bytes) in
    if leb 0x8_0000 (shift + length buff) then written else ret d

abbrev pub write_at :
    Option (List Duplex) → TextDevice → ℕ → List ℕ → Outcome (TextDevice × Retcode)
write_at none d shift buff = ret (d, failure 1)
write_at (some duplexes) d shift buff =
    let written = (do
      d₁ ← write_low d duplexes shift buff
      d₂ ← write_high d₁ duplexes shift buff
      ret (d₂, success)) in
    if leb (shift + length buff) max_user_memory_size then written else ret (d, success)

-- `WriteUserMemory`; a place behind the memory is not written and reported as a success.
unfoldable pub write_user_memory : TextDevice → ℕ → List ℕ → Outcome (TextDevice × Retcode)
unfolding write_low write_high write_half half_block
write_user_memory d shift buff = write_at (d.mediator user_memory) d shift buff
