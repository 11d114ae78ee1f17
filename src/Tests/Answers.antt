-- ===== src/Tests/Answers.antt =====
-- The theorems about the answers at concrete inputs.
use edifice.Base.{[], ◌∷◌, some, none, Option, ret, fault, true, refl, ◌≡◌, arith, Retcode}
use edifice.Apdu.Types.{Apdu, Addr, property_value_read, group_value_response, construct}
use edifice.Apdu.PropertyValue.{Position, load_position, get_read_params}
use edifice.Pentagon.Mask.{mask_num}
use edifice.Device.Manager.{get_device_by_daddr}
use edifice.Txt.Types.{get_len_in_bit}
use edifice.Txt.Elements.{values}
use edifice.Txt.Groups.{GroupObjectHead}
use edifice.Respond.Services.{Services}
use edifice.Respond.Properties.{respond_property_value_read}
use edifice.Respond.Answers.{Answers, respond_property_value_read-Answers}
use edifice.Respond.Groups.{object_value_into}
use edifice.Respond.Overrun.{object_value_into_overrun}
use edifice.Tests.Samples.{env, far, table, addr_device, apdu_with}

-- A head of one byte.
abbrev byte_head : GroupObjectHead
byte_head = record { m_type = 0x21; m_state = 0; m_start_pos = 1; m_inited = true }

-- A device with the same two bytes everywhere.
abbrev pub services : Services Addr
services = record {
  host = addr_device;
  get_elem_values = λ d k start n room. ret (values (0x12 ∷ 0x34 ∷ []));
  get_prop_fields = λ d k. none;
  get_link_count = λ d. ret 1;
  get_link_by_index = λ d i. ret (some (0, 0));
  get_group_addr_count = λ d. ret 1;
  get_group_addr_by_index = λ d i. ret (some (0x20, 0x01));
  get_group_object_head_by_index = λ d i. ret (some byte_head);
  get_group_object_value = λ d i room. ret (values (0x7f ∷ []), 8);
  get_authorize = λ d key. some 1;
  get_user_memory = λ d. ret none;
}

abbrev pub asked : Position
asked = record { object_index = 3; property_id = 23; no_of_elem = 1; start_index = 2 }

-- A received request, whose sender is `near` and whose destination is `far`.
abbrev request : Apdu
request = record (apdu_with property_value_read 0x03 0xd5 (0x03 ∷ 0xd5 ∷ 3 ∷ 23 ∷ 0x10 ∷ 2 ∷ [])) {
  recved_apdu = true;
}

request_says : get_read_params request ≡ ret (some asked)
unfolding get_read_params load_position mask_num
request_says = refl

pub far_is_there : get_device_by_daddr addr_device table (some far) ≡ some far
unfolding get_device_by_daddr
far_is_there = refl

respond_property_value_read-Answers_example :
    (r : Option Apdu × Retcode) × (respond_property_value_read services table env request ≡ ret r)
    × Answers env request asked (values (0x12 ∷ 0x34 ∷ [])) r
respond_property_value_read-Answers_example =
    respond_property_value_read-Answers services table env request asked far
      (values (0x12 ∷ 0x34 ∷ [])) refl request_says
      (record {
        object_byte = omega arith;
        property_byte = omega arith;
        count = omega arith;
        start = omega arith;
      })
      far_is_there refl (omega arith)

byte_long : get_len_in_bit 0x21 ≡ ret 8
unfolding get_len_in_bit mask_num
byte_long = refl

object_value_into_overrun_example :
    object_value_into services env far (construct env group_value_response) 0 0 7 0 (some byte_head)
    ≡ fault
object_value_into_overrun_example =
    object_value_into_overrun services env far (construct env group_value_response) 0 0 7 0 8
      byte_head (0x7f ∷ []) refl byte_long refl (omega arith)
