-- ===== src/Txt/Links/Table.antt =====
-- What the table of links of EIBCommNEO/DeviceImpl_TXT.cpp stands for, a list of pairs; and its readers.
use edifice.Base.{
  ℕ, zero, suc, ◌+◌, ◌*◌, ◌<◌, ◌≤◌, ◌≡◌, refl, arith, true, ltb, List, [], ◌∷◌, ◌++◌, none, some,
  ret, ◌>>=◌, load, length, get_elem?, Bool-cases, inl, inr, ltb→lt,
}
use edifice.Txt.Types.{
  Block, Duplex, duplex_eq, put_block, with_block, group_links, TextDevice, find_block,
  get_len_in_bit, duplex_at,
}
use edifice.Txt.Links.{place, block_at, load_pair, link_at, get_link_by_index, get_link_count}

abbrev pub Link : Type 0
Link = ℕ × ℕ

-- The bytes of a list of links.
abbrev pub flatten : List Link → List ℕ
flatten [] = []
flatten ((gobj, gaddr) ∷ ls) = gobj ∷ gaddr ∷ flatten ls

-- A block whose elements are 16 bits long and are these links.
pub record IsTable (b : Block) (ls : List Link) : Type 0 where
  pub behind : List ℕ
  pub elements : b.value_mem ≡ flatten ls ++ behind
  pub counted : b.fields.elem_count ≡ length ls
  pub sized : b.value_size ≡ 2 * length ls
  pub two_bytes : get_len_in_bit b.fields.elem_type ≡ ret 16

-- A device that is inited and has these links.
pub record HasLinks (d : TextDevice) (ls : List Link) : Type 0 where
  pub inited_ok : d.inited ≡ true
  pub key : Duplex
  pub more : List Duplex
  pub mapped : d.mediator group_links ≡ some (key ∷ more)
  pub block : Block
  pub found : find_block key d.blocks ≡ some block
  pub table : IsTable block ls

pub HasLinks-place :
    {d : TextDevice} {ls : List Link} (h : HasLinks d ls)
    → place d group_links ≡ ret (block_at h.key h.block)
unfolding place duplex_at
HasLinks-place h = rw (h.mapped, h.found) refl

pub length-flatten : (ls : List Link) → length (flatten ls) ≡ 2 * length ls
length-flatten [] = refl
length-flatten ((g, a) ∷ ls) = omega (arith, length-flatten ls)

pub load_pair-suc :
    (x y : ℕ) (mem : List ℕ) (i : ℕ) → load_pair (x ∷ y ∷ mem) (suc i) ≡ load_pair mem i
unfolding load_pair
load_pair-suc x y mem i =
    let e : suc i * 2 ≡ suc (suc (i * 2)) = omega arith in
    let e' : suc i * 2 + 1 ≡ suc (suc (i * 2 + 1)) = omega arith in rw (e', e) refl

-- Every link is where its index says.
load_pair-flatten :
    (ls : List Link) (behind : List ℕ) (i : ℕ)
    → i < length ls
    → (load_pair (flatten ls ++ behind) i >>= λ l. ret (some l)) ≡ ret (get_elem? ls i)
unfolding load_pair load
load_pair-flatten [] behind i h = absurd (omega arith)
load_pair-flatten ((g, a) ∷ ls) behind zero h = refl
load_pair-flatten ((g, a) ∷ ls) behind (suc i) h =
    rw (load_pair-suc g a (flatten ls ++ behind) i) (load_pair-flatten ls behind i (omega arith))

get_elem?_out : (ls : List Link) (i : ℕ) → length ls ≤ i → get_elem? ls i ≡ none
get_elem?_out [] i h = refl
get_elem?_out (l ∷ ls) zero h = absurd (omega arith)
get_elem?_out (l ∷ ls) (suc i) h = get_elem?_out ls i (omega arith)

link_at-get_elem? :
    {b : Block} {ls : List Link} (k : Duplex) (i : ℕ)
    → IsTable b ls
    → link_at (block_at k b) i ≡ ret (get_elem? ls i)
unfolding link_at
link_at-get_elem? {b} {ls} k i h = elim (Bool-cases (ltb i (length ls))) [
  | inl inside ↦
      (rw (h.counted, inside, h.elements)
        (load_pair-flatten ls h.behind i (ltb→lt i (length ls) inside)))
  | inr outside ↦ rw (h.counted, outside, get_elem?_out ls i (ground (arith, outside))) refl
]

-- On a device that has these links, `GetLinkByIndex` finds the link of every index and refuses an index behind
-- them, and `GetLinkCount` counts them.
pub get_link_by_index-get_elem? :
    (d : TextDevice) (ls : List Link) (i : ℕ)
    → HasLinks d ls
    → (get_link_by_index d i ≡ ret (get_elem? ls i)) × (get_link_count d ≡ ret (length ls))
unfolding get_link_by_index get_link_count
get_link_by_index-get_elem? d ls i h = (
  rw (HasLinks-place h) (link_at-get_elem? h.key i h.table),
  rw (HasLinks-place h, h.table.counted) refl,
)

-- A pointer's write is read back.
pub find_block-put_block :
    (k : Duplex) (b c : Block) (bs : List (Duplex × Block))
    → find_block k bs ≡ some b
    → find_block k (put_block k c bs) ≡ some c
unfolding find_block put_block
find_block-put_block k b c [] h = cc
find_block-put_block k b c ((j, x) ∷ bs) h = elim (Bool-cases (duplex_eq j k)) [
  | inl same ↦ rw (same, same) refl
  | inr other ↦ rw (other, other) (find_block-put_block k b c bs (rw other at h))
]

-- A device with a new block in the place of its table has the links of that one.
pub HasLinks-with_block :
    {d : TextDevice} {ls ls' : List Link} (h : HasLinks d ls) (b : Block)
    → IsTable b ls'
    → HasLinks (with_block d h.key b) ls'
HasLinks-with_block {d} h b new = record {
  inited_ok = h.inited_ok;
  key = h.key;
  more = h.more;
  mapped = h.mapped;
  block = b;
  found = find_block-put_block h.key h.block b d.blocks h.found;
  table = new;
}
