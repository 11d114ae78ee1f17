-- ===== src/Txt/Elements.antt =====
-- The values of a property, bit by bit: GetElemValues, SetElemValues, SetElemValues_Ex and AppendElemValue of
-- EIBCommNEO/DeviceImpl_TXT.cpp.
pub mod Bounds
pub mod Pairs
use edifice.Base.{
  ℕ, zero, suc, ◌+◌, ◌-◌, ◌*◌, ◌/◌, ◌%◌, ◌^◌, bit_and, bit_or, Bool, true, false, not, ◌&&◌, ◌||◌,
  ◌==◌, ltb, leb, if◌then◌else◌, List, [], ◌∷◌, ◌++◌, Option, none, some, Outcome, ret, fault,
  ◌>>=◌, load, slice, store, memcpy, length, replicate, Retcode, success, failure,
}
use edifice.Pentagon.Bitstream.{ceil_divide, build_mask_code, complement, left_shift_bitstream}
use edifice.Txt.Types.{
  PropertyFields, Block, Duplex, TextDevice, find_block, with_block, resize_values, Parsed,
  propfields_parser,
}
use edifice.Txt.Fields.{get_prop_fields}

-- The bits that a call is about, and the bytes that these stand in. Bits before them in the first byte and
-- behind them in the last one do not belong to the call.
pub record Window : Type 0 where
  pub start_pos_inbyte : ℕ
  pub end_pos_inbyte : ℕ
  pub coping_len_inbit : ℕ
  pub coping_len_inbyte : ℕ
  pub left_secede : ℕ
  pub right_secede : ℕ

-- From the first bit and their number; a `uint` wraps.
abbrev pub window_at : ℕ → ℕ → Window
window_at start bits =
    let last = (start + bits + 2 ^ 32 - 1) % 2 ^ 32 in
    record {
      start_pos_inbyte = start / 8;
      end_pos_inbyte = last / 8;
      coping_len_inbit = bits;
      coping_len_inbyte = (last / 8 + 2 ^ 32 - start / 8 + 1) % 2 ^ 32;
      left_secede = start % 8;
      right_secede = 8 - last % 8 - 1;
    }

-- Elements are counted from 1.
abbrev pub window : ℕ → ℕ → ℕ → Window
window start_index count elem_len_in_bit =
    window_at ((start_index * elem_len_in_bit + 2 ^ 32 - elem_len_in_bit) % 2 ^ 32)
      (elem_len_in_bit * count)

-- What `GetElemValues` does to its buffer: -1 and nothing, -2 and the room wanted, 0 and the bytes.
pub data Got : Type 0 where
  refused : Got
  too_small : ℕ → Got
  values : List ℕ → Got

-- The number of bytes that are copied out.
abbrev pub out_len : Window → ℕ
out_len w =
    if not (0 == w.left_secede)
      && not (1 == w.coping_len_inbyte)
      && leb (8 - w.right_secede) w.left_secede
    then w.coping_len_inbyte - 1
    else w.coping_len_inbyte

-- The bits of a window, moved down to the first byte.
unfoldable pub copy_out : List ℕ → Window → Outcome (List ℕ)
unfolding slice
copy_out value_mem w = do
  tmp_mem ← slice value_mem w.start_pos_inbyte w.coping_len_inbyte
  (shifted, shiftout) ← left_shift_bitstream tmp_mem w.left_secede
  slice shifted 0 (out_len w)

unfoldable pub get_values : Option Block → ℕ → ℕ → ℕ → Outcome Got
get_values none start_index count buff_len = ret refused
get_values (some b) start_index count buff_len = do
  p ← propfields_parser b.fields
  let w = window start_index count p.elem_len_in_bit
  let copied = copy_out b.value_mem w >>= λ out. ret (values out)
  (if ltb p.count (start_index + count - 1)
      then ret refused
      else if ltb (buff_len * 8 % 2 ^ 32) w.coping_len_inbit
      then ret (too_small (ceil_divide w.coping_len_inbit 8))
      else copied)

-- `GetElemValues`
unfoldable pub get_elem_values : TextDevice → Duplex → ℕ → ℕ → ℕ → Outcome Got
get_elem_values d k start_index count buff_len =
    if d.inited then get_values (find_block k d.blocks) start_index count buff_len else ret refused

-- `mem[i] &= mask`
unfoldable pub keep_bits : List ℕ → ℕ → ℕ → Outcome (List ℕ)
unfolding load store
keep_bits mem i mask = do v ← load mem i; store mem i (bit_and v mask)

-- `value_mem[start + i] |= tmp_mem[i]` for the bytes of a block
unfoldable pub or_bytes : List ℕ → ℕ → List ℕ → Outcome (List ℕ)
unfolding load store
or_bytes mem start [] = ret mem
or_bytes mem start (t ∷ tmp) = do
  v ← load mem start
  mem' ← store mem start (bit_or v t)
  or_bytes mem' (start + 1) tmp

-- The bytes of the buffer, moved up to the first bit of the window, the bits outside it cleared.
unfoldable pub shifted_in : List ℕ → Window → Outcome (List ℕ)
shifted_in buff w = do
  from_buff ← slice buff 0 (ceil_divide w.coping_len_inbit 8)
  tmp_mem ← memcpy (replicate (w.coping_len_inbyte + 1) 0) 1 from_buff
  (tmp₁, shiftout) ← left_shift_bitstream tmp_mem (8 - w.left_secede)
  tmp₂ ← keep_bits tmp₁ 0 (complement (complement (build_mask_code (8 - w.left_secede))))
  tmp₃ ←
      (if w.coping_len_inbyte == 0
        then fault
        else keep_bits tmp₂ (w.coping_len_inbyte - 1) (complement (build_mask_code w.right_secede)))
  slice tmp₃ 0 w.coping_len_inbyte

-- The bits of the window cleared, those around it left: in one byte, or at both ends and between.
unfoldable pub clear_window : List ℕ → Window → Outcome (List ℕ)
clear_window value_mem w =
    let left_mask = complement (build_mask_code (8 - w.left_secede)) in
    let right_mask = build_mask_code w.right_secede in
    let start = w.start_pos_inbyte in
    let end = w.end_pos_inbyte in
    if start == end then keep_bits value_mem start (bit_or left_mask right_mask) else do
      mem₁ ← keep_bits value_mem start left_mask
      mem₂ ← keep_bits mem₁ end right_mask
      memcpy mem₂ (start + 1) (replicate (end - start - 1) 0)

unfoldable pub copy_in : List ℕ → Window → List ℕ → Outcome (List ℕ)
copy_in value_mem w buff = do
  tmp_mem ← shifted_in buff w
  cleared ← clear_window value_mem w
  or_bytes cleared w.start_pos_inbyte tmp_mem

-- Elements are added: the count in the fields, and the memory.
abbrev pub grown : Block → ℕ → ℕ → Block
grown b new_count elem_len_in_bit =
    resize_values (ceil_divide (elem_len_in_bit * new_count) 8)
      (record b { fields = record b.fields { elem_count = new_count } })

-- `SetElemValues_Ex` on a block with room: the values are written, or the data in the buffer are too few.
unfoldable pub write_values :
    TextDevice → Duplex → Block → ℕ → ℕ → List ℕ → ℕ → Outcome (TextDevice × Retcode)
write_values d k b start_index count buff buff_len = do
  p ← propfields_parser b.fields
  let w = window start_index count p.elem_len_in_bit
  let written = copy_in b.value_mem w buff >>= λ value_mem.
      ret (with_block d k (record b { value_mem = value_mem }), success)
  (if ltb (buff_len * 8 % 2 ^ 32) w.coping_len_inbit
      then ret (with_block d k b, failure 1)
      else written)

unfoldable pub set_values :
    Option Block → TextDevice → Duplex → ℕ → ℕ → List ℕ → ℕ → Bool → Outcome (TextDevice × Retcode)
set_values none d k start_index count buff buff_len enable_append = ret (d, failure 1)
set_values (some b) d k start_index count buff buff_len enable_append = do
  p ← propfields_parser b.fields
  let new_count = (start_index + count - 1) % 2 ^ 16
  (if ltb p.count (start_index + count - 1)
      then if enable_append
        then write_values d k (grown b new_count p.elem_len_in_bit) start_index count buff buff_len
        else ret (d, failure 1)
      else write_values d k b start_index count buff buff_len)

-- `SetElemValues_Ex`
unfoldable pub set_elem_values_ex :
    TextDevice → Duplex → ℕ → ℕ → List ℕ → ℕ → Bool → Outcome (TextDevice × Retcode)
set_elem_values_ex d k start_index count buff buff_len enable_append =
    if not d.inited || ltb (start_index + count) count
    then ret (d, failure 1)
    else set_values (find_block k d.blocks) d k start_index count buff buff_len enable_append

-- `SetElemValues`
unfoldable pub set_elem_values :
    TextDevice → Duplex → ℕ → ℕ → List ℕ → ℕ → Outcome (TextDevice × Retcode)
set_elem_values d k start_index count buff buff_len =
    set_elem_values_ex d k start_index count buff buff_len false

abbrev pub append_at :
    Option PropertyFields → TextDevice → Duplex → List ℕ → ℕ → Outcome (TextDevice × Retcode)
append_at none d k buff buff_len = ret (d, failure 1)
append_at (some fields) d k buff buff_len =
    set_elem_values_ex d k ((fields.elem_count + 1) % 2 ^ 16) 1 buff buff_len true

-- `AppendElemValue`; the new index is passed as a `ushort`.
unfoldable pub append_elem_value : TextDevice → Duplex → List ℕ → ℕ → Outcome (TextDevice × Retcode)
append_elem_value d k buff buff_len = append_at (get_prop_fields d k) d k buff buff_len
