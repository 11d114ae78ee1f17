-- ===== src/Tests/Txts.antt =====
-- The theorems about bit streams and about the device from a text description at concrete inputs.
use edifice.Base.{
  ℕ, List, [], ◌∷◌, some, none, Option, ret, true, refl, ◌≡◌, arith, success, failure, length,
  replicate, length-replicate, ◌⊎◌, ◌≤◌, ◌<◌, ◌*◌, ◌/◌, ◌%◌, ◌^◌, ◌-◌,
}
use edifice.Pentagon.Bitstream.{left_shift_bitstream, ceil_divide}
use edifice.Pentagon.Bitstream.Value.{value, left_shift_bitstream_divides}
use edifice.Pentagon.Mask.{mask_num}
use edifice.Txt.Types.{
  PropertyFields, Block, Duplex, Keyword, group_links, user_memory, TextDevice, find_block,
  with_block, get_len_in_bit,
}
use edifice.Txt.Elements.{get_elem_values, values}
use edifice.Txt.Elements.Bounds.{HasElements, get_elem_values_fits}
use edifice.Txt.Links.{get_link_by_index, get_link_count, add_link, remove_link_by_index}
use edifice.Txt.Links.Table.{Link, HasLinks, get_link_by_index-get_elem?}
use edifice.Txt.Links.Adding.{add_link-with_link}
use edifice.Txt.Links.Removing.{remove_link_by_index-without_at}
use edifice.Txt.Memory.{write_user_memory}
use edifice.Txt.Memory.Upper.{HasUpperHalf, overwritten, write_user_memory_upper}

left_shift_bitstream_divides_example :
    (out : List ℕ) × (shiftout : ℕ) × (left_shift_bitstream (0xa5 ∷ 0x3c ∷ []) 3
      ≡ ret (out, shiftout))
    × (length out ≡ 2)
    × (value out ≡ value (0xa5 ∷ 0x3c ∷ []) / 2 ^ 3)
    × (shiftout ≡ value (0xa5 ∷ 0x3c ∷ []) % 2 ^ 3 * 2 ^ (8 - 3))
left_shift_bitstream_divides_example =
    left_shift_bitstream_divides 0xa5 (0x3c ∷ []) 3 (omega arith) (omega arith) (omega arith)

-- Two links, in a block with two bytes to spare.
abbrev link_fields : PropertyFields
link_fields = record {
  object_index = 3;
  property_id = 23;
  elem_type = 0x22;
  perm = 0;
  storage_manage = 0;
  pid = 0;
  data_length = 0;
  elem_count = 2;
  w_tag = 0 ∷ 0 ∷ [];
  data_addr = 0 ∷ 0 ∷ 0 ∷ 0 ∷ [];
}

abbrev link_block : Block
link_block = record { fields = link_fields; value_mem = 0 ∷ 5 ∷ 1 ∷ 6 ∷ 9 ∷ 9 ∷ []; value_size = 4 }

abbrev two_links : List Link
two_links = (0, 5) ∷ (1, 6) ∷ []

abbrev keywords : Keyword → Option (List Duplex)
keywords group_links = some ((3, 23) ∷ [])
keywords user_memory = some ((4, 1) ∷ (4, 2) ∷ [])
keywords other = none

unfoldable zeros : ℕ → List ℕ
zeros n = replicate n 0

length-zeros : (n : ℕ) → length (zeros n) ≡ n
unfolding zeros
length-zeros n = length-replicate n 0

abbrev upper_half : Block
upper_half = record { fields = link_fields; value_mem = zeros 0x8_0000; value_size = 0x8_0000 }

abbrev text_device : TextDevice
text_device = record {
  inited = true;
  blocks = ((3, 23), link_block) ∷ ((4, 2), upper_half) ∷ [];
  mediator = keywords;
}

two_bytes_long : get_len_in_bit 0x22 ≡ ret 16
unfolding get_len_in_bit mask_num
two_bytes_long = refl

text_device-HasLinks : HasLinks text_device two_links
unfolding find_block
text_device-HasLinks = record {
  inited_ok = refl;
  key = (3, 23);
  more = [];
  mapped = refl;
  block = link_block;
  found = refl;
  table = record {
    behind = 9 ∷ 9 ∷ [];
    elements = refl;
    counted = refl;
    sized = refl;
    two_bytes = two_bytes_long;
  };
}

get_link_by_index-get_elem?_example :
    (get_link_by_index text_device 1 ≡ ret (some (1, 6))) × (get_link_count text_device ≡ ret 2)
get_link_by_index-get_elem?_example =
    get_link_by_index-get_elem? text_device two_links 1 text_device-HasLinks

add_link-with_link_example :
    (d' : TextDevice) × (add_link text_device 2 5 ≡ ret (d', success))
    × HasLinks d' ((0, 5) ∷ (1, 6) ∷ (2, 5) ∷ [])
add_link-with_link_example =
    add_link-with_link text_device two_links 2 5 text_device-HasLinks (omega arith) (omega arith)
      (omega arith)

remove_link_by_index-without_at_example :
    (0 < 2
      × ((d' : TextDevice) × (remove_link_by_index text_device 0 ≡ ret (d', success))
          × HasLinks d' ((1, 6) ∷ [])))
    ⊎ (2 ≤ 0 × (remove_link_by_index text_device 0 ≡ ret (text_device, failure 1)))
remove_link_by_index-without_at_example =
    remove_link_by_index-without_at text_device two_links 0 text_device-HasLinks

text_device-HasElements : HasElements text_device (3, 23) link_block 16
unfolding find_block
text_device-HasElements = record {
  inited_ok = refl;
  found = refl;
  element_len = two_bytes_long;
  some_bits = omega arith;
  memory_for_all = omega arith;
  of_bytes = omega arith;
  not_huge = omega arith;
}

get_elem_values_fits_example :
    (out : List ℕ) × (get_elem_values text_device (3, 23) 2 1 10 ≡ ret (values out))
    × (length out ≡ ceil_divide 16 8)
    × (length out ≤ 10)
get_elem_values_fits_example =
    get_elem_values_fits text_device (3, 23) link_block 16 2 1 10 text_device-HasElements
      (omega arith) (omega arith) (omega arith) (omega arith) (omega arith)

text_device-HasUpperHalf : HasUpperHalf text_device (4, 2) upper_half
unfolding find_block
text_device-HasUpperHalf = record {
  low = (4, 1);
  more = [];
  mapped = refl;
  found = refl;
  half_size = refl;
  allocated = omega (arith, length-zeros 0x8_0000);
}

write_user_memory_upper_example :
    write_user_memory text_device 0x8_0010 (7 ∷ 8 ∷ [])
    ≡ ret (
      with_block text_device
          (4, 2)
          (record upper_half { value_mem = overwritten (zeros 0x8_0000) (7 ∷ 8 ∷ []) }),
      success,
    )
write_user_memory_upper_example =
    write_user_memory_upper text_device (4, 2) upper_half 0x8_0010 (7 ∷ 8 ∷ [])
      text_device-HasUpperHalf (omega arith) (omega arith)
