-- ===== src/Txt/Addresses.antt =====
-- The group addresses of DeviceImpl_TXT and the links to them: ExistThisGroupAddr, GetGroupAddrCount,
-- GetGroupAddrByIndex, AddGroupAddr, RemoveGroupAddrByIndex and GetGaddrsOfGobjs of
-- EIBCommNEO/DeviceImpl_TXT.cpp.
use edifice.Base.{
  ℕ, zero, suc, ◌+◌, ◌-◌, ◌*◌, ◌/◌, Bool, false, ◌==◌, ltb, if◌then◌else◌, List, [], ◌∷◌, ◌++◌,
  Option, none, some, Outcome, ret, fault, ◌>>=◌, load, store, Retcode, success, failure,
}
use edifice.Apdu.Types.{Addr}
use edifice.Pentagon.Bitstream.{ceil_divide}
use edifice.Txt.Types.{
  PropertyFields, Block, group_addrs, group_links, TextDevice, with_block, resize_values,
}
use edifice.Txt.Fields.{get_prop_fields}
use edifice.Txt.Elements.{append_elem_value}
use edifice.Txt.Links.{
  Place, no_entry, no_block, block_at, place, load_pair, link_exists, close_gap, counted,
  remove_link_by_index,
}

-- The comparison of the loop of `ExistThisGroupAddr` is the one of `AddLink`: two bytes at a time.
abbrev pub addr_exists_at : Place → Addr → Outcome Bool
addr_exists_at no_entry addr = ret false
addr_exists_at (no_block k) addr = ret false
addr_exists_at (block_at k b) addr =
    link_exists b.value_mem 0 (ceil_divide b.value_size 2) (addr.high, addr.low)

-- `ExistThisGroupAddr`
unfoldable pub exist_this_group_addr : TextDevice → Option Addr → Outcome Bool
exist_this_group_addr d none = ret false
exist_this_group_addr d (some addr) = place d group_addrs >>= λ p. addr_exists_at p addr

-- The fields that were found; without them the code reads fields that it never set.
abbrev pub counted_or_fault : Option PropertyFields → Outcome ℕ
counted_or_fault none = fault
counted_or_fault (some fields) = ret fields.elem_count

abbrev pub addr_count_at : TextDevice → Place → Outcome ℕ
addr_count_at d no_entry = ret 0
addr_count_at d (no_block k) = counted_or_fault (get_prop_fields d k)
addr_count_at d (block_at k b) = counted_or_fault (get_prop_fields d k)

-- `GetGroupAddrCount`
unfoldable pub get_group_addr_count : TextDevice → Outcome ℕ
get_group_addr_count d = place d group_addrs >>= λ p. addr_count_at d p

abbrev pub addr_at : Place → ℕ → Outcome (Option (ℕ × ℕ))
addr_at no_entry index = ret none
addr_at (no_block k) index = ret none
addr_at (block_at k b) index =
    let found = load_pair b.value_mem index >>= λ a. ret (some a) in
    if ltb index b.fields.elem_count then found else ret none

-- `GetGroupAddrByIndex`, read through the pointer that it returns.
unfoldable pub get_group_addr_by_index : TextDevice → ℕ → Outcome (Option (ℕ × ℕ))
get_group_addr_by_index d index = place d group_addrs >>= λ p. addr_at p index

abbrev pub append_addr : TextDevice → Place → Addr → Outcome (TextDevice × Retcode)
append_addr d no_entry addr = ret (d, failure 1)
append_addr d (no_block k) addr = append_elem_value d k (addr.high ∷ addr.low ∷ []) 2
append_addr d (block_at k b) addr = append_elem_value d k (addr.high ∷ addr.low ∷ []) 2

-- `AddGroupAddr`
unfoldable pub add_group_addr : TextDevice → Option Addr → Outcome (TextDevice × Retcode)
add_group_addr d none = ret (d, failure 1)
add_group_addr d (some addr) = do
  exists ← exist_this_group_addr d (some addr)
  p ← place d group_addrs
  let appended = append_addr d p addr
  (if exists then ret (d, failure 1) else appended)

-- The loop over the links, from an element on, for so many: an address index above the removed one is one
-- less from now on, and one that is equal is recorded (the address index, where the index of the link is
-- wanted).
unfoldable pub adjust_links : List ℕ → ℕ → ℕ → ℕ → Outcome (List ℕ × List ℕ)
unfolding load store
adjust_links mem index i zero = ret (mem, [])
adjust_links mem index i (suc n) = do
  gaddr_idx ← load mem (i * 2 + 1)
  lowered ← (if ltb index gaddr_idx then store mem (i * 2 + 1) (gaddr_idx - 1) else ret mem)
  (mem', links2Bremoved) ← adjust_links lowered index (i + 1) n
  ret (mem', (if gaddr_idx == index then gaddr_idx ∷ links2Bremoved else links2Bremoved))

-- The loop of `RemoveLinkByIndex` calls.
unfoldable pub remove_links : List ℕ → TextDevice → Outcome TextDevice
remove_links [] d = ret d
remove_links (i ∷ is) d = do (d', retcode) ← remove_link_by_index d i; remove_links is d'

-- The second half of `RemoveGroupAddrByIndex`; the loop runs to the number of addresses that are left.
unfoldable pub drop_links : TextDevice → Place → ℕ → ℕ → Outcome (TextDevice × Retcode)
unfolding adjust_links remove_links
drop_links d no_entry index left = ret (d, success)
drop_links d (no_block k) index left = ret (d, failure 1)
drop_links d (block_at k b) index left = do
  (mem, links2Bremoved) ← adjust_links b.value_mem index 0 left
  d' ← remove_links links2Bremoved (with_block d k (record b { value_mem = mem }))
  ret (d', success)

unfoldable pub remove_addr_at : Place → TextDevice → ℕ → Outcome (TextDevice × Retcode)
unfolding drop_links
remove_addr_at no_entry d index = ret (d, failure 1)
remove_addr_at (no_block k) d index = ret (d, failure 1)
remove_addr_at (block_at k b) d index =
    let count = b.fields.elem_count in
    let removed = (do
      mem ← close_gap b.value_mem index count
      let b' = resize_values (b.value_size - 2) (counted (record b { value_mem = mem }) (count - 1))
      let d' = with_block d k b'
      links ← place d' group_links
      drop_links d' links index (count - 1)) in
    if ltb index count then removed else ret (d, failure 1)

-- `RemoveGroupAddrByIndex`
unfoldable pub remove_group_addr_by_index : TextDevice → ℕ → Outcome (TextDevice × Retcode)
unfolding remove_addr_at
remove_group_addr_by_index d index = place d group_addrs >>= λ p. remove_addr_at p d index

-- The first loop of `GetGaddrsOfGobjs`: how many links there are to the group object.
unfoldable pub count_links : List ℕ → ℕ → ℕ → ℕ → Outcome ℕ
unfolding load
count_links links gobj_idx i zero = ret 0
count_links links gobj_idx i (suc n) = do
  g ← load links (i * 2)
  rest ← count_links links gobj_idx (i + 1) n
  ret (if gobj_idx == g then suc rest else rest)

-- The second loop: their addresses, by the index into the table of addresses.
unfoldable pub linked_addrs : List ℕ → List ℕ → ℕ → ℕ → ℕ → Outcome (List ℕ)
unfolding load load_pair
linked_addrs addrs links gobj_idx i zero = ret []
linked_addrs addrs links gobj_idx i (suc n) = do
  (g, idx_of_gaddr) ← load_pair links i
  let addr = load_pair addrs idx_of_gaddr >>= λ a. ret (a.0 ∷ a.1 ∷ [])
  bytes ← (if gobj_idx == g then addr else ret [])
  rest ← linked_addrs addrs links gobj_idx (i + 1) n
  ret (bytes ++ rest)

-- The results of `GetGaddrsOfGobjs`: -1; -1 and the room wanted; the addresses, whose number is returned.
pub data LinkedAddrs : Type 0 where
  not_mapped : LinkedAddrs
  wants_room : ℕ → LinkedAddrs
  addresses : List ℕ → LinkedAddrs

unfoldable pub gaddrs_of : Block → Place → ℕ → ℕ → Outcome LinkedAddrs
unfolding count_links linked_addrs
gaddrs_of a no_entry gobj_idx buff_len = ret not_mapped
gaddrs_of a (no_block k) gobj_idx buff_len = ret not_mapped
gaddrs_of a (block_at k l) gobj_idx buff_len = do
  let count_of_link = l.value_size / 2
  n ← count_links l.value_mem gobj_idx 0 count_of_link
  let found =
      linked_addrs a.value_mem l.value_mem gobj_idx 0 count_of_link >>= λ out. ret (addresses out)
  (if ltb buff_len (n * 2) then ret (wants_room (n * 2)) else found)

abbrev pub gaddrs_at : TextDevice → Place → ℕ → ℕ → Outcome LinkedAddrs
gaddrs_at d no_entry gobj_idx buff_len = ret not_mapped
gaddrs_at d (no_block k) gobj_idx buff_len = ret not_mapped
gaddrs_at d (block_at k a) gobj_idx buff_len =
    place d group_links >>= λ links. gaddrs_of a links gobj_idx buff_len

-- `GetGaddrsOfGobjs`; the links are looked up when the addresses are there.
unfoldable pub get_gaddrs_of_gobjs : TextDevice → ℕ → ℕ → Outcome LinkedAddrs
unfolding gaddrs_of
get_gaddrs_of_gobjs d gobj_idx buff_len =
    place d group_addrs >>= λ addrs. gaddrs_at d addrs gobj_idx buff_len
