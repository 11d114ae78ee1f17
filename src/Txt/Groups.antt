-- ===== src/Txt/Groups.antt =====
-- The group objects of a device: GroupObjectHead (EIBCommNEO/group_object.cpp), and GetGroupObjectCount,
-- GetGroupObjectHeadByIndex, SetGroupObjectValue, GetGroupObjectValue and AddGroupObject of
-- EIBCommNEO/DeviceImpl_TXT.cpp.
use edifice.Base.{
  ℕ, ◌+◌, ◌*◌, ◌/◌, ◌%◌, Bool, true, leb, if◌then◌else◌, List, [], ◌∷◌, Option, none, some, Outcome,
  ret, aborted, fault, ◌>>=◌, Retcode, failure,
}
use edifice.Pentagon.Bitstream.{ceil_divide}
use edifice.Txt.Types.{
  Duplex, group_obj_head, group_obj_value, TextDevice, duplex_at, get_len_in_bit,
}
use edifice.Txt.Fields.{get_prop_fields}
use edifice.Txt.Elements.{
  Got, refused, too_small, values, get_elem_values, set_elem_values, set_elem_values_ex,
  append_elem_value,
}
use edifice.Txt.Addresses.{counted_or_fault}

pub record GroupObjectHead : Type 0 where
  pub m_type : ℕ
  pub m_state : ℕ
  pub m_start_pos : ℕ
  pub m_inited : Bool

-- `GroupObjectHead::Init`
abbrev pub init_head : ℕ → ℕ → ℕ → GroupObjectHead
init_head t state start = record {
  m_type = t;
  m_state = state;
  m_start_pos = start;
  m_inited = true;
}

-- `GroupObjectHead::GetLenInBit`; the process ends for a head that was never initialised.
unfoldable pub head_len_in_bit : GroupObjectHead → Outcome ℕ
head_len_in_bit head = if head.m_inited then get_len_in_bit head.m_type else aborted

-- `GroupObjectHead::GetLenInByte`
unfoldable pub head_len_in_byte : GroupObjectHead → Outcome ℕ
unfolding head_len_in_bit
head_len_in_byte head = head_len_in_bit head >>= λ bits. ret (ceil_divide bits 8)

-- The first property under a keyword, if the mediator has an entry.
abbrev pub first_duplex : Option (List Duplex) → Outcome (Option Duplex)
first_duplex none = ret none
first_duplex (some duplexes) = duplex_at duplexes 0 >>= λ k. ret (some k)

abbrev pub count_at : TextDevice → Option Duplex → Outcome ℕ
count_at d none = ret 0
count_at d (some k) = counted_or_fault (get_prop_fields d k)

-- `GetGroupObjectCount`
unfoldable pub get_group_object_count : TextDevice → Outcome ℕ
get_group_object_count d = first_duplex (d.mediator group_obj_head) >>= λ k. count_at d k

-- The four bytes of a head, low byte of the position first. The assertion is on the length; bytes that
-- were not copied are read as they are, uninitialised.
unfoldable pub head_of : Got → Outcome GroupObjectHead
head_of refused = fault
head_of (too_small n) = aborted
head_of (values (t ∷ s ∷ lo ∷ hi ∷ [])) = ret (init_head t s (hi * 256 + lo))
head_of (values other) = aborted

unfoldable pub head_at : TextDevice → Option Duplex → ℕ → Outcome (Option GroupObjectHead)
unfolding head_of
head_at d none index = ret none
head_at d (some k) index = do
  count ← counted_or_fault (get_prop_fields d k)
  let found = (do got ← get_elem_values d k (index + 1) 1 4; head ← head_of got; ret (some head))
  (if leb count index then ret none else found)

-- `GetGroupObjectHeadByIndex`; `none` is the return code -1.
unfoldable pub get_group_object_head_by_index : TextDevice → ℕ → Outcome (Option GroupObjectHead)
unfolding head_at
get_group_object_head_by_index d index =
    first_duplex (d.mediator group_obj_head) >>= λ k. head_at d k index

-- The number of bits of a value, which is passed on as an `unsigned char`.
abbrev pub bit_count : ℕ → ℕ
bit_count len_in_bit = len_in_bit % 256

unfoldable pub set_value_in :
    Option Duplex → TextDevice → GroupObjectHead → List ℕ → Outcome (TextDevice × Retcode)
set_value_in none d head val = ret (d, failure 1)
set_value_in (some k) d head val = do
  len_in_bit ← head_len_in_bit head
  len_in_byte ← head_len_in_byte head
  set_elem_values d k head.m_start_pos (bit_count len_in_bit) val len_in_byte

abbrev pub set_value_at :
    Option GroupObjectHead → TextDevice → List ℕ → Outcome (TextDevice × Retcode)
set_value_at none d val = ret (d, failure 1)
set_value_at (some head) d val =
    first_duplex (d.mediator group_obj_value) >>= λ k. set_value_in k d head val

-- `SetGroupObjectValue`
unfoldable pub set_group_object_value :
    TextDevice → ℕ → Option (List ℕ) → Outcome (TextDevice × Retcode)
unfolding set_value_in
set_group_object_value d index none = ret (d, failure 1)
set_group_object_value d index (some val) =
    get_group_object_head_by_index d index >>= λ head. set_value_at head d val

-- The results of `GetGroupObjectValue`: what `GetElemValues` gave, and the length in bits on success.
unfoldable pub get_value_in : Option Duplex → TextDevice → GroupObjectHead → ℕ → Outcome (Got × ℕ)
get_value_in none d head len = ret (refused, len)
get_value_in (some k) d head len = do
  len_in_bit ← head_len_in_bit head
  got ← get_elem_values d k head.m_start_pos (bit_count len_in_bit) len
  ret (got, len_in_bit)

abbrev pub get_value_at : Option GroupObjectHead → TextDevice → ℕ → Outcome (Got × ℕ)
get_value_at none d len = ret (refused, len)
get_value_at (some head) d len =
    first_duplex (d.mediator group_obj_value) >>= λ k. get_value_in k d head len

-- `GetGroupObjectValue` with a buffer for `len` bytes.
unfoldable pub get_group_object_value : TextDevice → ℕ → ℕ → Outcome (Got × ℕ)
unfolding get_value_in
get_group_object_value d index len =
    get_group_object_head_by_index d index >>= λ head. get_value_at head d len

unfoldable pub add_value :
    Option Duplex → TextDevice → GroupObjectHead → List ℕ → Outcome (TextDevice × Retcode)
add_value none d head val = ret (d, failure 1)
add_value (some k) d head val = do
  len_in_bit ← head_len_in_bit head
  len_in_byte ← head_len_in_byte head
  set_elem_values_ex d k head.m_start_pos (bit_count len_in_bit) val len_in_byte true

unfoldable pub add_head :
    Option Duplex → TextDevice → GroupObjectHead → List ℕ → Outcome (TextDevice × Retcode)
unfolding add_value
add_head none d head val = ret (d, failure 1)
add_head (some k) d head val = do
  let bytes =
      head.m_type ∷ head.m_state ∷ (head.m_start_pos % 256) ∷ (head.m_start_pos / 256 % 256) ∷ []
  (d', retcode) ← append_elem_value d k bytes 4
  place ← first_duplex (d'.mediator group_obj_value)
  add_value place d' head val

-- `AddGroupObject`; the return code of the first call is not looked at.
unfoldable pub add_group_object :
    TextDevice → Option GroupObjectHead → List ℕ → Outcome (TextDevice × Retcode)
unfolding add_head
add_group_object d none val = ret (d, failure 1)
add_group_object d (some head) val =
    first_duplex (d.mediator group_obj_head) >>= λ k. add_head k d head val
