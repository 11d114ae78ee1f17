-- ===== src/Txt/Links/Removing.antt =====
-- `RemoveLinkByIndex` of EIBCommNEO/DeviceImpl_TXT.cpp against the list of links.
use edifice.Base.{
  ℕ, zero, suc, ◌+◌, ◌-◌, ◌*◌, ◌<◌, ◌≤◌, ◌≡◌, ◌⊎◌, refl, ap, arith, true, false, ltb, List, [], ◌∷◌,
  ◌++◌, Outcome, ret, fault, ◌>>=◌, slice, memcpy, length, Bool-cases, inl, inr, ltb→lt, success,
  failure, length-append,
}
use edifice.Txt.Types.{Block, TextDevice, with_block, resize_values}
use edifice.Txt.Links.{close_gap, counted, remove_link_at, remove_link_by_index}
use edifice.Txt.Links.Table.{
  Link, flatten, IsTable, HasLinks, HasLinks-place, length-flatten, HasLinks-with_block,
}

-- The list without one of its elements.
abbrev pub without_at : ℕ → List Link → List Link
without_at i [] = []
without_at zero (l ∷ ls) = ls
without_at (suc i) (l ∷ ls) = l ∷ without_at i ls

length-without_at :
    (i : ℕ) (ls : List Link) → i < length ls → suc (length (without_at i ls)) ≡ length ls
length-without_at i [] h = absurd (omega arith)
length-without_at zero (l ∷ ls) h = refl
length-without_at (suc i) (l ∷ ls) h = ap suc (length-without_at i ls (omega arith))

-- A copy over the start of a longer block.
memcpy_over :
    (src mem : List ℕ)
    → length src ≤ length mem
    → (behind : List ℕ) × (memcpy mem 0 src ≡ ret (src ++ behind))
unfolding memcpy
memcpy_over [] mem h = (mem, refl)
memcpy_over (y ∷ ys) [] h = absurd (omega arith)
memcpy_over (y ∷ ys) (x ∷ xs) h =
    let (behind, e) = memcpy_over ys xs (omega arith) in (behind, rw e refl)

slice_front : (xs ys : List ℕ) → slice (xs ++ ys) 0 (length xs) ≡ ret xs
unfolding slice
slice_front [] [] = refl
slice_front [] (y ∷ ys) = refl
slice_front (x ∷ xs) ys = rw (slice_front xs ys) refl

two_in_front :
    (x y : ℕ) (m : Outcome (List ℕ))
    → ((m >>= λ zs. ret (y ∷ zs)) >>= λ zs. ret (x ∷ zs)) ≡ (m >>= λ zs. ret (x ∷ y ∷ zs))
two_in_front x y (ret zs) = refl
two_in_front x y Outcome.aborted = refl
two_in_front x y fault = refl

after_slice :
    (x y : ℕ) (f : List ℕ → Outcome (List ℕ)) (m : Outcome (List ℕ))
    → (m >>= λ b. (f b >>= λ zs. ret (y ∷ zs)) >>= λ zs. ret (x ∷ zs))
      ≡ ((m >>= f) >>= λ zs. ret (x ∷ y ∷ zs))
after_slice x y f (ret b) = two_in_front x y (f b)
after_slice x y f Outcome.aborted = refl
after_slice x y f fault = refl

close_gap-suc :
    (x y : ℕ) (mem : List ℕ) (i n : ℕ)
    → close_gap (x ∷ y ∷ mem) (suc i) (suc n) ≡ (close_gap mem i n >>= λ m. ret (x ∷ y ∷ m))
unfolding close_gap slice memcpy
close_gap-suc x y mem i n =
    let e : 2 * suc i + 2 ≡ suc (suc (2 * i + 2)) = omega arith in
    let e' : 2 * suc i ≡ suc (suc (2 * i)) = omega arith in
    let e'' : 2 * (suc n - suc i - 1) ≡ 2 * (n - i - 1) = omega arith in
    rw (e, e', e'')
      (after_slice x y (λ b. memcpy mem (2 * i) b) (slice mem (2 * i + 2) (2 * (n - i - 1))))

-- What `memmove` leaves: the bytes of the shorter list in front.
close_gap-flatten :
    (ls : List Link) (behind : List ℕ) (i : ℕ)
    → i < length ls
    → (behind' : List ℕ) × (close_gap (flatten ls ++ behind) i (length ls)
        ≡ ret (flatten (without_at i ls) ++ behind'))
unfolding close_gap slice
close_gap-flatten [] behind i h = absurd (omega arith)
close_gap-flatten ((g, a) ∷ ls) behind zero h =
    let e : 2 * (suc (length ls) - 0 - 1) ≡ length (flatten ls) =
      omega (arith, length-flatten ls) in
    let (behind', moved) =
      memcpy_over (flatten ls) (g ∷ a ∷ (flatten ls ++ behind))
        (omega (arith, length-append (flatten ls) behind)) in
    (behind', rw (e, slice_front (flatten ls) behind) moved)
close_gap-flatten ((g, a) ∷ ls) behind (suc i) h =
    let (behind', e) = close_gap-flatten ls behind i (omega arith) in
    (behind', rw (close_gap-suc g a (flatten ls ++ behind) i (length ls)) (rw e refl))

-- A block that is long enough keeps its bytes when it is resized.
pub resize_values_fits :
    (b : Block) (n : ℕ) → n ≤ length b.value_mem → resize_values n b ≡ record b { value_size = n }
unfolding resize_values
resize_values_fits b n h = ground arith

-- The block that `RemoveLinkByIndex` leaves.
shorter : Block → List ℕ → Block
shorter b mem =
    resize_values ((b.fields.elem_count - 1) * 2)
      (counted (record b { value_mem = mem }) (b.fields.elem_count - 1))

shorter-IsTable :
    (b : Block) (ls : List Link) (i : ℕ) (behind : List ℕ)
    → IsTable b ls
    → i < length ls
    → IsTable (shorter b (flatten (without_at i ls) ++ behind)) (without_at i ls)
unfolding shorter
shorter-IsTable b ls i behind h inside =
    let less = length-without_at i ls inside in
    let mem = flatten (without_at i ls) ++ behind in
    let n = b.fields.elem_count - 1 in
    let room : n * 2 ≤ length mem = omega (
      arith,
      less,
      h.counted,
      length-append (flatten (without_at i ls)) behind,
      length-flatten (without_at i ls),
    ) in
    rw (resize_values_fits (counted (record b { value_mem = mem }) n) (n * 2) room) (record {
      behind = behind;
      elements = refl;
      counted = omega (arith, less, h.counted);
      sized = omega (arith, less, h.counted);
      two_bytes = h.two_bytes;
    })

removed_at :
    (d : TextDevice) (ls : List Link) (i : ℕ) (h : HasLinks d ls)
    → i < length ls
    → (d' : TextDevice) × (remove_link_by_index d i ≡ ret (d', success))
      × HasLinks d' (without_at i ls)
unfolding remove_link_by_index remove_link_at shorter
removed_at d ls i h inside =
    let (behind, closed) = close_gap-flatten ls h.table.behind i inside in
    let yes_inside : ltb i h.block.fields.elem_count ≡ true = ground (arith, h.table.counted) in
    let moved : close_gap h.block.value_mem i h.block.fields.elem_count
        ≡ ret (flatten (without_at i ls) ++ behind) =
      rw (h.table.elements, h.table.counted) closed in
    let b = shorter h.block (flatten (without_at i ls) ++ behind) in
    (
      with_block d h.key b,
      rw (HasLinks-place h, yes_inside, moved) refl,
      HasLinks-with_block h b (shorter-IsTable h.block ls i behind h.table inside),
    )

not_removed :
    (d : TextDevice) (ls : List Link) (i : ℕ) (h : HasLinks d ls)
    → length ls ≤ i
    → remove_link_by_index d i ≡ ret (d, failure 1)
unfolding remove_link_by_index remove_link_at
not_removed d ls i h outside =
    let not_inside : ltb i h.block.fields.elem_count ≡ false = ground (arith, h.table.counted) in
    rw (HasLinks-place h, not_inside) refl

-- On a device that has these links, either the index is that of one and `RemoveLinkByIndex` succeeds and
-- leaves the links without that one, in their order; or the index is behind them and it fails and changes
-- nothing.
pub remove_link_by_index-without_at :
    (d : TextDevice) (ls : List Link) (i : ℕ)
    → HasLinks d ls
    → (i < length ls
        × ((d' : TextDevice) × (remove_link_by_index d i ≡ ret (d', success))
            × HasLinks d' (without_at i ls)))
      ⊎ (length ls ≤ i × (remove_link_by_index d i ≡ ret (d, failure 1)))
remove_link_by_index-without_at d ls i h = elim (Bool-cases (ltb i (length ls))) [
  | inl inside ↦ (let below = ltb→lt i (length ls) inside in inl (below, removed_at d ls i h below))
  | inr outside ↦
      (let above : length ls ≤ i = ground (arith, outside) in
        inr (above, not_removed d ls i h above))
]
