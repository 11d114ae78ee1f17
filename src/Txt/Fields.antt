-- ===== src/Txt/Fields.antt =====
-- The properties of DeviceImpl_TXT and their fields: RemoveIObject, GetPropFields, SetPropFields, AddPropFields,
-- GetPerElemLen_inbit, GetElemCount and GetAllIDPairs of EIBCommNEO/DeviceImpl_TXT.cpp.
use edifice.Base.{
  ℕ, ◌*◌, Bool, ◌&&◌, ◌||◌, ◌==◌, ltb, leb, if◌then◌else◌, List, [], ◌∷◌, Option, none, some,
  Outcome, ret, ◌>>=◌, length, replicate, Retcode, success, failure,
}
use edifice.Pentagon.Bitstream.{ceil_divide}
use edifice.Txt.Types.{
  PropertyFields, Block, Duplex, duplex_eq, TextDevice, find_block, with_block, resize_values,
  get_len_in_bit, propfields_parser,
}

unfoldable pub erase_block : Duplex → List (Duplex × Block) → List (Duplex × Block)
erase_block k [] = []
erase_block k ((j, b) ∷ bs) = if duplex_eq j k then bs else (j, b) ∷ erase_block k bs

abbrev pub erased : Option Block → Duplex → TextDevice → TextDevice × Retcode
erased none k d = (d, failure 1)
erased (some b) k d = (record d { blocks = erase_block k d.blocks }, success)

-- `RemoveIObject`
unfoldable pub remove_i_object : TextDevice → Duplex → TextDevice × Retcode
unfolding erase_block
remove_i_object d k = erased (find_block k d.blocks) k d

abbrev pub fields_of : Option Block → Option PropertyFields
fields_of none = none
fields_of (some b) = some b.fields

-- `GetPropFields`; `none` is the return code -1.
unfoldable pub get_prop_fields : TextDevice → Duplex → Option PropertyFields
get_prop_fields d k = if d.inited then fields_of (find_block k d.blocks) else none

-- All fields of a block but its ids.
abbrev pub with_fields : Block → PropertyFields → Block
with_fields b fields = record b {
  fields = record fields {
    object_index = b.fields.object_index;
    property_id = b.fields.property_id;
  };
}

-- `SetPropFields` at the block that was found, or not found.
unfoldable pub set_fields :
    Option Block → TextDevice → Duplex → PropertyFields → Outcome (TextDevice × Retcode)
set_fields none d k fields = ret (d, failure 1)
set_fields (some b) d k fields = do
  elem_len ← get_len_in_bit fields.elem_type
  let new_length = ceil_divide (elem_len * fields.elem_count) 8
  ret (with_block d k (resize_values new_length (with_fields b fields)), success)

unfoldable pub set_prop_fields :
    TextDevice → Duplex → PropertyFields → Outcome (TextDevice × Retcode)
unfolding set_fields
set_prop_fields d k fields =
    if d.inited then set_fields (find_block k d.blocks) d k fields else ret (d, failure 1)

abbrev pub duplex_less : Duplex → Duplex → Bool
duplex_less (o, p) (o', p') = ltb o o' || (o == o' && ltb p p')

-- `m_data[key] = m`: the entry of the key is replaced, or a new one stands at its place in the order.
unfoldable pub assign_block : Duplex → Block → List (Duplex × Block) → List (Duplex × Block)
assign_block k b [] = (k, b) ∷ []
assign_block k b ((j, c) ∷ bs) =
    let rest = assign_block k b bs in
    if duplex_eq j k
    then (j, b) ∷ bs
    else if duplex_less k j
    then (k, b) ∷ (j, c) ∷ bs
    else (j, c) ∷ rest

-- `AddPropFields`: the test is on the ids that are passed, the new entry has those of the fields.
unfoldable pub add_fields :
    Option Block → TextDevice → PropertyFields → Outcome (TextDevice × Retcode)
unfolding assign_block
add_fields (some b) d fields = ret (d, failure 1)
add_fields none d fields = do
  p ← propfields_parser fields
  let n = p.total_elem_len_in_byte
  let b : Block = record { fields = fields; value_mem = replicate n 0; value_size = n }
  let key : Duplex = (fields.object_index, fields.property_id)
  ret (record d { blocks = assign_block key b d.blocks }, success)

unfoldable pub add_prop_fields :
    TextDevice → Duplex → PropertyFields → Outcome (TextDevice × Retcode)
unfolding add_fields
add_prop_fields d k fields =
    if d.inited then add_fields (find_block k d.blocks) d fields else ret (d, failure 1)

-- What is computed from the fields that were found, or `none` for -1.
abbrev pub len_of : Option PropertyFields → Outcome (Option ℕ)
len_of none = ret none
len_of (some fields) = get_len_in_bit fields.elem_type >>= λ len. ret (some len)

-- `GetPerElemLen_inbit`
unfoldable pub get_per_elem_len_inbit : TextDevice → Duplex → Outcome (Option ℕ)
unfolding get_prop_fields
get_per_elem_len_inbit d k = len_of (get_prop_fields d k)

abbrev pub count_of : Option PropertyFields → Option ℕ
count_of none = none
count_of (some fields) = some fields.elem_count

-- `GetElemCount`
unfoldable pub get_elem_count : TextDevice → Duplex → Option ℕ
unfolding get_prop_fields
get_elem_count d k = count_of (get_prop_fields d k)

unfoldable pub id_bytes : List (Duplex × Block) → List ℕ
id_bytes [] = []
id_bytes (((o, p), b) ∷ bs) = o ∷ p ∷ id_bytes bs

-- `GetAllIDPairs` with a buffer for `buff_len` bytes: the ids, or `none` when the room is too small; the
-- number of properties is returned in both cases.
unfoldable pub get_all_id_pairs : TextDevice → ℕ → Option (List ℕ) × ℕ
unfolding id_bytes
get_all_id_pairs d buff_len =
    if leb (2 * length d.blocks) buff_len
    then (some (id_bytes d.blocks), length d.blocks)
    else (none, length d.blocks)
