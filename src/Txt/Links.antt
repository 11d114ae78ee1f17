-- ===== src/Txt/Links.antt =====
-- The table of links of DeviceImpl_TXT, pairs of a group object and a group address by their indices:
-- GetLinkCount, GetLinkByIndex, AddLink and RemoveLinkByIndex of EIBCommNEO/DeviceImpl_TXT.cpp.
pub mod Table
pub mod Adding
pub mod Removing
use edifice.Base.{
  ℕ, zero, suc, ◌+◌, ◌-◌, ◌*◌, ◌%◌, ◌^◌, Bool, true, false, ◌&&◌, ◌==◌, ltb, if◌then◌else◌, List,
  [], ◌∷◌, Option, none, some, Outcome, ret, fault, ◌>>=◌, load, slice, memcpy, length, Retcode,
  success, failure,
}
use edifice.Txt.Types.{
  PropertyFields, Block, Duplex, Keyword, group_links, group_addrs, TextDevice, find_block,
  with_block, duplex_at, resize_values,
}
use edifice.Txt.Elements.{append_elem_value}

-- The first property of an entry of the mediator and its block: no entry, no block, or both.
pub data Place : Type 0 where
  no_entry : Place
  no_block : Duplex → Place
  block_at : Duplex → Block → Place

abbrev pub place_of : Option Block → Duplex → Place
place_of none k = no_block k
place_of (some b) k = block_at k b

abbrev pub first_place : Option (List Duplex) → List (Duplex × Block) → Outcome Place
first_place none blocks = ret no_entry
first_place (some duplexes) blocks =
    duplex_at duplexes 0 >>= λ k. ret (place_of (find_block k blocks) k)

-- `MapKeyword2DuplexesIte`, and `MapID2FairyIte` on its first property.
unfoldable pub place : TextDevice → Keyword → Outcome Place
place d keyword = first_place (d.mediator keyword) d.blocks

abbrev pub link_count_at : Place → ℕ
link_count_at no_entry = 0
link_count_at (no_block k) = 0
link_count_at (block_at k b) = b.fields.elem_count

-- `GetLinkCount`
unfoldable pub get_link_count : TextDevice → Outcome ℕ
get_link_count d = place d group_links >>= λ p. ret (link_count_at p)

-- The two bytes of an element.
unfoldable pub load_pair : List ℕ → ℕ → Outcome (ℕ × ℕ)
unfolding load
load_pair mem index = do
  first ← load mem (index * 2)
  second ← load mem (index * 2 + 1)
  ret (first, second)

unfoldable pub link_at : Place → ℕ → Outcome (Option (ℕ × ℕ))
unfolding load_pair
link_at no_entry index = ret none
link_at (no_block k) index = ret none
link_at (block_at k b) index =
    let found = load_pair b.value_mem index >>= λ l. ret (some l) in
    if ltb index b.fields.elem_count then found else ret none

-- `GetLinkByIndex`; `none` is the return code -1.
unfoldable pub get_link_by_index : TextDevice → ℕ → Outcome (Option (ℕ × ℕ))
unfolding link_at
get_link_by_index d index = place d group_links >>= λ p. link_at p index

-- `memmove` of the elements behind one over it, for so many elements.
unfoldable pub close_gap : List ℕ → ℕ → ℕ → Outcome (List ℕ)
unfolding slice memcpy
close_gap mem index count = do
  behind ← slice mem (2 * index + 2) (2 * (count - index - 1))
  memcpy mem (2 * index) behind

abbrev pub counted : Block → ℕ → Block
counted b n = record b { fields = record b.fields { elem_count = n } }

unfoldable pub remove_link_at : Place → TextDevice → ℕ → Outcome (TextDevice × Retcode)
remove_link_at no_entry d index = ret (d, failure 1)
remove_link_at (no_block k) d index = ret (d, failure 1)
remove_link_at (block_at k b) d index =
    let count = b.fields.elem_count in
    let removed = close_gap b.value_mem index count >>= λ mem. ret (
      with_block d k
          (resize_values ((count - 1) * 2) (counted (record b { value_mem = mem }) (count - 1))),
      success,
    ) in
    if ltb index count then removed else ret (d, failure 1)

-- `RemoveLinkByIndex`
unfoldable pub remove_link_by_index : TextDevice → ℕ → Outcome (TextDevice × Retcode)
unfolding remove_link_at
remove_link_by_index d index = place d group_links >>= λ p. remove_link_at p d index

-- The loop of `AddLink`: whether one of the next so many elements, from an index on, is the link.
unfoldable pub link_exists : List ℕ → ℕ → ℕ → ℕ × ℕ → Outcome Bool
unfolding load_pair
link_exists mem i zero link = ret false
link_exists mem i (suc n) link = do
  l ← load_pair mem i
  let rest = link_exists mem (i + 1) n link
  (if link.0 == l.0 && link.1 == l.1 then ret true else rest)

abbrev pub append_unless : Bool → TextDevice → Duplex → List ℕ → Outcome (TextDevice × Retcode)
append_unless true d k buff = ret (d, success)
append_unless false d k buff = append_elem_value d k buff 2

unfoldable pub add_link_at : Place → TextDevice → ℕ → ℕ → Outcome (TextDevice × Retcode)
unfolding link_exists
add_link_at no_entry d gobj_idx gaddr_idx = ret (d, success)
add_link_at (no_block k) d gobj_idx gaddr_idx = ret (d, failure 1)
add_link_at (block_at k b) d gobj_idx gaddr_idx = do
  exists ← link_exists b.value_mem 0 b.fields.elem_count (gobj_idx, gaddr_idx)
  append_unless exists d k (gobj_idx ∷ gaddr_idx ∷ [])

-- `AddLink`
unfoldable pub add_link : TextDevice → ℕ → ℕ → Outcome (TextDevice × Retcode)
unfolding add_link_at
add_link d gobj_idx gaddr_idx = place d group_links >>= λ p. add_link_at p d gobj_idx gaddr_idx
