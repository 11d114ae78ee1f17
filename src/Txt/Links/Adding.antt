-- ===== src/Txt/Links/Adding.antt =====
-- `AddLink` of EIBCommNEO/DeviceImpl_TXT.cpp against the list of links.
use edifice.Base.{
  ℕ, zero, suc, ◌+◌, ◌-◌, ◌*◌, ◌%◌, ◌^◌, ◌<◌, ◌≡◌, refl, ap, sym, arith, Bool, true, false, not,
  ◌&&◌, ◌||◌, ◌==◌, ltb, if◌then◌else◌, List, [], ◌∷◌, ◌++◌, some, ret, load, length, replicate,
  Bool-cases, inl, inr, take, success, length-append, take-append,
}
use edifice.Base.Bits.{IsByte}
use edifice.Txt.Types.{
  Block, Duplex, TextDevice, with_block, get_len_in_bit, propfields_parser, resize_values,
}
use edifice.Txt.Fields.{get_prop_fields}
use edifice.Txt.Elements.{grown, append_elem_value, set_elem_values_ex, set_values, write_values}
use edifice.Txt.Elements.Pairs.{window_of_pair, copy_in_pair}
use edifice.Pentagon.Bitstream.{ceil_divide}
use edifice.Txt.Links.{link_exists, load_pair, add_link, add_link_at}
use edifice.Txt.Links.Table.{
  Link, flatten, IsTable, HasLinks, HasLinks-place, length-flatten, HasLinks-with_block,
  load_pair-suc,
}

abbrev pub same_link : Link → Link → Bool
same_link l m = l.0 == m.0 && l.1 == m.1

-- The list with a link behind it, unless it is there.
abbrev pub has_link : Link → List Link → Bool
has_link l [] = false
has_link l (m ∷ ls) = if same_link l m then true else has_link l ls

abbrev pub with_link : List Link → Link → List Link
with_link ls l = if has_link l ls then ls else ls ++ (l ∷ [])

link_exists-suc :
    (x y : ℕ) (mem : List ℕ) (i n : ℕ) (l : Link)
    → link_exists (x ∷ y ∷ mem) (suc i) n l ≡ link_exists mem i n l
unfolding link_exists
link_exists-suc x y mem i zero l = refl
link_exists-suc x y mem i (suc n) l =
    let e : suc i + 1 ≡ suc (i + 1) = omega arith in
    rw (e, load_pair-suc x y mem i, link_exists-suc x y mem (i + 1) n l) refl

test_then : (b c : Bool) → (if b then ret true else ret c) ≡ ret (if b then true else c)
test_then true c = refl
test_then false c = refl

-- The loop finds exactly the links of the list.
link_exists-has_link :
    (ls : List Link) (behind : List ℕ) (l : Link)
    → link_exists (flatten ls ++ behind) 0 (length ls) l ≡ ret (has_link l ls)
unfolding link_exists load_pair load
link_exists-has_link [] behind l = refl
link_exists-has_link ((g, a) ∷ ls) behind l =
    rw
      (link_exists-suc g a (flatten ls ++ behind) 0 (length ls) l, link_exists-has_link ls behind l)
      (test_then (same_link l (g, a)) (has_link l ls))

-- The memory of a resized block.
resized : ℕ → Block → List ℕ
resized n b =
    if ltb (length b.value_mem) n
    then take b.value_size b.value_mem ++ replicate (n - b.value_size) 0
    else b.value_mem

resize_values-resized :
    (n : ℕ) (b : Block) → resize_values n b ≡ record b { value_mem = resized n b; value_size = n }
unfolding resize_values resized
resize_values-resized n b = elim (Bool-cases (ltb (length b.value_mem) n)) [
  | inl e ↦ rw e refl
  | inr e ↦ rw e refl
]

-- There is room for two bytes behind the front that is in use: new ones, or some that were allocated.
room_for_two :
    (b : Block) (front behind : List ℕ)
    → b.value_mem ≡ front ++ behind
    → b.value_size ≡ length front
    → (x : ℕ) × (y : ℕ) × (back : List ℕ) × (resized (length front + 2) b ≡ front ++ (x ∷ y ∷ back))
unfolding resized
room_for_two b front [] e size =
    let short : ltb (length (front ++ [])) (length front + 2) ≡ true =
      ground (arith, length-append front []) in
    let two : length front + 2 - length front ≡ 2 = omega arith in
    (0, 0, [], rw (e, size, short, two, take-append (length front) front [] refl) refl)
room_for_two b front (x ∷ []) e size =
    let short : ltb (length (front ++ (x ∷ []))) (length front + 2) ≡ true =
      ground (arith, length-append front (x ∷ [])) in
    let two : length front + 2 - length front ≡ 2 = omega arith in
    (0, 0, [], rw (e, size, short, two, take-append (length front) front (x ∷ []) refl) refl)
room_for_two b front (x ∷ y ∷ back) e size =
    let long : ltb (length (front ++ (x ∷ y ∷ back))) (length front + 2) ≡ false =
      ground (arith, length-append front (x ∷ y ∷ back)) in
    (x, y, back, rw (e, long) refl)

-- A resized block that has room for one more pair behind its links.
grown_table :
    (b : Block) (ls : List Link)
    → IsTable b ls
    → (x : ℕ) × (y : ℕ) × (back : List ℕ) × (grown b (suc (length ls)) 16 ≡ record {
      fields = record b.fields { elem_count = suc (length ls) };
      value_mem = flatten ls ++ (x ∷ y ∷ back);
      value_size = 2 * suc (length ls);
    })
unfolding ceil_divide resized
grown_table b ls h =
    let n = length ls in
    let bytes : ceil_divide (16 * suc n) 8 ≡ length (flatten ls) + 2 =
      ground (arith, length-flatten ls) in
    let same_size : length (flatten ls) + 2 ≡ 2 * suc n = omega (arith, length-flatten ls) in
    let (x, y, back, e) =
      room_for_two b (flatten ls) h.behind h.elements (omega (arith, h.sized, length-flatten ls)) in
    let b' : Block = record b { fields = record b.fields { elem_count = suc n } } in
    let e' : resized (length (flatten ls) + 2) b' ≡ flatten ls ++ (x ∷ y ∷ back) = e in
    (
      x,
      y,
      back,
      rw (bytes, resize_values-resized (length (flatten ls) + 2) b', e') (rw same_size refl),
    )

-- The block that `AppendElemValue` leaves.
longer : Block → List Link → ℕ → ℕ → List ℕ → Block
longer b ls g a back = record {
  fields = record b.fields { elem_count = suc (length ls) };
  value_mem = flatten ls ++ (g ∷ a ∷ back);
  value_size = 2 * suc (length ls);
}

-- Writing the pair behind the links, in a block that has grown.
write_pair :
    (d : TextDevice) (k : Duplex) (b : Block) (ls : List Link) (x y g a : ℕ) (back : List ℕ)
    → get_len_in_bit b.fields.elem_type ≡ ret 16
    → length ls < 65535
    → IsByte g
    → IsByte a
    → write_values d k (longer b ls x y back) (suc (length ls)) 1 (g ∷ a ∷ []) 2
      ≡ ret (with_block d k (longer b ls g a back), success)
unfolding write_values longer propfields_parser
write_pair d k b ls x y g a back wide short hg ha =
    rw
      (
        wide,
        window_of_pair (length ls) short,
        copy_in_pair (flatten ls) x y g a back (length ls) (length-flatten ls) hg ha,
      )
      refl

HasLinks-get_prop_fields :
    {d : TextDevice} {ls : List Link} (h : HasLinks d ls)
    → get_prop_fields d h.key ≡ some h.block.fields
unfolding get_prop_fields
HasLinks-get_prop_fields h = rw (h.inited_ok, h.found) refl

append_pair :
    {d : TextDevice} {ls : List Link} (h : HasLinks d ls) (g a : ℕ)
    → length ls < 65535
    → IsByte g
    → IsByte a
    → (back : List ℕ) × (append_elem_value d h.key (g ∷ a ∷ []) 2
        ≡ ret (with_block d h.key (longer h.block ls g a back), success))
unfolding append_elem_value set_elem_values_ex set_values propfields_parser longer
append_pair {d} {ls} h g a short hg ha =
    let (x, y, back, e) = grown_table h.block ls h.table in
    let number : (h.block.fields.elem_count + 1) % 2 ^ 16 ≡ suc (length ls) =
      omega (arith, h.table.counted) in
    let ready : (not d.inited || ltb (suc (length ls) + 1) 1) ≡ false =
      rw h.inited_ok (ground arith) in
    let more : ltb h.block.fields.elem_count (suc (length ls) + 1 - 1) ≡ true =
      ground (arith, h.table.counted) in
    let new : (suc (length ls) + 1 - 1) % 2 ^ 16 ≡ suc (length ls) = omega arith in
    (
      back,
      rw (HasLinks-get_prop_fields h, number, ready, h.found, h.table.two_bytes, more, new, e)
          (write_pair d h.key h.block ls x y g a back h.table.two_bytes short hg ha),
    )

flatten-append :
    (ls : List Link) (g a : ℕ) (back : List ℕ)
    → flatten (ls ++ ((g, a) ∷ [])) ++ back ≡ flatten ls ++ (g ∷ a ∷ back)
flatten-append [] g a back = refl
flatten-append ((x, y) ∷ ls) g a back = ap (λ zs. x ∷ y ∷ zs) (flatten-append ls g a back)

longer-IsTable :
    (b : Block) (ls : List Link) (g a : ℕ) (back : List ℕ)
    → IsTable b ls
    → IsTable (longer b ls g a back) (ls ++ ((g, a) ∷ []))
unfolding longer
longer-IsTable b ls g a back h =
    let one_more : length (ls ++ ((g, a) ∷ [])) ≡ suc (length ls) =
      omega (arith, length-append ls ((g, a) ∷ [])) in
    record {
      behind = back;
      elements = sym (flatten-append ls g a back);
      counted = sym one_more;
      sized = ap (λ n. 2 * n) (sym one_more);
      two_bytes = h.two_bytes;
    }

-- A device that is inited and has these links, fewer than 65535, has them with a link behind them after
-- `AddLink`, which succeeds; if the link is among them already, the links stay as they are.
pub add_link-with_link :
    (d : TextDevice) (ls : List Link) (gobj_idx gaddr_idx : ℕ)
    → HasLinks d ls
    → length ls < 65535
    → IsByte gobj_idx
    → IsByte gaddr_idx
    → (d' : TextDevice) × (add_link d gobj_idx gaddr_idx ≡ ret (d', success))
      × HasLinks d' (with_link ls (gobj_idx, gaddr_idx))
unfolding add_link add_link_at
add_link-with_link d ls g a h short hg ha =
    let asked : link_exists h.block.value_mem 0 h.block.fields.elem_count (g, a)
        ≡ ret (has_link (g, a) ls) =
      rw (h.table.elements, h.table.counted) (link_exists-has_link ls h.table.behind (g, a)) in
    elim (Bool-cases (has_link (g, a) ls)) [
      | inl there ↦ (d, rw (HasLinks-place h, asked, there) refl, rw there h)
      | inr new ↦
          (let (back, appended) = append_pair h g a short hg ha in
            let b = longer h.block ls g a back in
            (
              with_block d h.key b,
              rw (HasLinks-place h, asked, new) appended,
              rw new (HasLinks-with_block h b (longer-IsTable h.block ls g a back h.table)),
            ))
    ]
