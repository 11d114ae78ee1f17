-- ===== src/Txt/Types.antt =====
-- The state of DeviceImpl_TXT (EIBCommNEO/DeviceImpl_TXT.h), PropertyFields and ElemTypeField
-- (public/prot_structs.h), mem_t (public/generic_helper.h) and `propfields_parser` (pentagon/pentagon.cpp).
use edifice.Base.{
  ℕ, ◌-◌, ◌*◌, bit_and, Bool, ◌&&◌, ◌==◌, ltb, if◌then◌else◌, List, [], ◌∷◌, ◌++◌, Option, none,
  some, Outcome, ret, fault, ◌>>=◌, length, take, replicate,
}
use edifice.Pentagon.Mask.{mask_num}
use edifice.Pentagon.Bitstream.{ceil_divide}

pub record PropertyFields : Type 0 where
  pub object_index : ℕ
  pub property_id : ℕ
  pub elem_type : ℕ
  pub perm : ℕ
  pub storage_manage : ℕ
  pub pid : ℕ
  pub data_length : ℕ
  pub elem_count : ℕ
  pub w_tag : List ℕ
  pub data_addr : List ℕ

-- A `mem_t` that starts with the fields of a property: all the bytes behind them that are allocated, and
-- how many of these are in use.
pub record Block : Type 0 where
  pub fields : PropertyFields
  pub value_mem : List ℕ
  pub value_size : ℕ

-- An object index and a property ID.
abbrev pub Duplex : Type 0
Duplex = ℕ × ℕ

abbrev pub duplex_eq : Duplex → Duplex → Bool
duplex_eq (o, p) (o', p') = o == o' && p == p'

-- The keywords under which the mediator finds properties.
pub data Keyword : Type 0 where
  group_obj_head : Keyword
  group_obj_value : Keyword
  group_addrs : Keyword
  group_links : Keyword
  user_memory : Keyword

pub record TextDevice : Type 0 where
  pub inited : Bool
  -- `m_data`, in the order of its keys
  pub blocks : List (Duplex × Block)
  -- `m_mediator`, which the operations here only read
  pub mediator : Keyword → Option (List Duplex)

-- `MapID2FairyIte`
unfoldable pub find_block : Duplex → List (Duplex × Block) → Option Block
find_block k [] = none
find_block k ((j, b) ∷ bs) = if duplex_eq j k then some b else find_block k bs

-- A change of a block through the pointer that was found.
unfoldable pub put_block : Duplex → Block → List (Duplex × Block) → List (Duplex × Block)
put_block k b [] = []
put_block k b ((j, c) ∷ bs) = if duplex_eq j k then (j, b) ∷ bs else (j, c) ∷ put_block k b bs

abbrev pub with_block : TextDevice → Duplex → Block → TextDevice
with_block d k b = record d { blocks = put_block k b d.blocks }

-- `ite->second[i]` of an entry of the mediator
unfoldable pub duplex_at : List Duplex → ℕ → Outcome Duplex
duplex_at [] i = fault
duplex_at (x ∷ xs) i = if i == 0 then ret x else duplex_at xs (i - 1)

-- `mem_t::resize` to the fields and `n` bytes behind them: bytes that are allocated anew are 0, and
-- bytes that were allocated before stay as they are.
unfoldable pub resize_values : ℕ → Block → Block
resize_values n b =
    if ltb (length b.value_mem) n
    then record b {
      value_mem = take b.value_size b.value_mem ++ replicate (n - b.value_size) 0;
      value_size = n;
    }
    else record b { value_size = n }

-- `ElemTypeField::get_len_in_bit`: the unit code from the high three bits, the value from the others.
unfoldable pub get_len_in_bit : ℕ → Outcome ℕ
get_len_in_bit elem_type = do
  unit ← mask_num (elem_type ∷ []) (b'e' ∷ b'0' ∷ [])
  let value = bit_and elem_type 0x1f
  ret (if unit == 0 then value else 8 * unit * value)

-- The results of `propfields_parser`.
pub record Parsed : Type 0 where
  pub count : ℕ
  pub elem_len_in_bit : ℕ
  pub total_elem_len_in_bit : ℕ
  pub total_elem_len_in_byte : ℕ

unfoldable pub propfields_parser : PropertyFields → Outcome Parsed
propfields_parser fields = do
  elem_len_in_bit ← get_len_in_bit fields.elem_type
  let total = elem_len_in_bit * fields.elem_count
  ret record {
    count = fields.elem_count;
    elem_len_in_bit = elem_len_in_bit;
    total_elem_len_in_bit = total;
    total_elem_len_in_byte = ceil_divide total 8;
  }
