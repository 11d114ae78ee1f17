-- ===== src/Txt/Memory/Upper.antt =====
-- The upper half of the user memory: where `WriteUserMemory` of EIBCommNEO/DeviceImpl_TXT.cpp puts bytes.
use edifice.Base.{
  ℕ, ◌+◌, ◌-◌, ◌≤◌, ◌≡◌, refl, arith, true, false, ◌==◌, ltb, leb, List, [], ◌∷◌, some, ret, slice,
  memcpy, length, success, slice_exact,
}
use edifice.Apdu.UserMemory.{max_user_memory_size}
use edifice.Txt.Types.{Block, Duplex, user_memory, TextDevice, find_block, with_block, duplex_at}
use edifice.Txt.Memory.{write_user_memory}

-- A copy from the start of a block on.
unfoldable pub overwritten : List ℕ → List ℕ → List ℕ
overwritten mem [] = mem
overwritten [] (y ∷ ys) = []
overwritten (x ∷ mem) (y ∷ ys) = y ∷ overwritten mem ys

memcpy-overwritten :
    (mem bytes : List ℕ)
    → length bytes ≤ length mem
    → memcpy mem 0 bytes ≡ ret (overwritten mem bytes)
unfolding memcpy overwritten
memcpy-overwritten mem [] h = refl
memcpy-overwritten [] (y ∷ ys) h = absurd (omega arith)
memcpy-overwritten (x ∷ mem) (y ∷ ys) h = rw (memcpy-overwritten mem ys (omega arith)) refl

pub record HasUpperHalf (d : TextDevice) (k : Duplex) (b : Block) : Type 0 where
  pub low : Duplex
  pub more : List Duplex
  pub mapped : d.mediator user_memory ≡ some (low ∷ k ∷ more)
  pub found : find_block k d.blocks ≡ some b
  pub half_size : b.value_size ≡ 0x8_0000
  pub allocated : 0x8_0000 ≤ length b.value_mem

-- `WriteUserMemory` to a place in the upper half, inside the memory, succeeds and writes the bytes over the
-- start of the second property, wherever in the half the place is.
pub write_user_memory_upper :
    (d : TextDevice) (k : Duplex) (b : Block) (shift : ℕ) (buff : List ℕ)
    → HasUpperHalf d k b
    → 0x8_0000 ≤ shift
    → shift + length buff ≤ max_user_memory_size
    → write_user_memory d shift buff
      ≡ ret (with_block d k (record b { value_mem = overwritten b.value_mem buff }), success)
unfolding write_user_memory duplex_at
write_user_memory_upper d k b shift buff h upper inside =
    let low : ltb shift 0x8_0000 ≡ false = ground (arith, upper) in
    let high : leb 0x8_0000 (shift + length buff) ≡ true = ground (arith, upper) in
    let all : leb (shift + length buff) max_user_memory_size ≡ true = ground (arith, inside) in
    let right_size : (b.value_size == 0x8_0000) ≡ true = ground (arith, h.half_size) in
    let whole : slice buff 0 (length buff - 0) ≡ ret buff =
      slice_exact (length buff - 0) buff (omega arith) in
    let copied = memcpy-overwritten b.value_mem buff (omega (arith, h.allocated)) in
    rw (h.mapped, all, low, high, whole, h.found, right_size, copied) refl
