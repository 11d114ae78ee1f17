-- ===== src/Tests/Stores.antt =====
-- The theorems about requests that change a device, at concrete inputs.
use edifice.Apdu.Types.{
  individual_address_write, Apdu, Addr, construct, set_host_addr, spawn, is_standard, spawn_copy,
  property_value_write,
}
use edifice.Apdu.IndividualAddress.{load_address}
use edifice.Tests.Samples.{apdu_with, env, near, far}
use edifice.Respond.Individual.{respond_individual_address_write}
use edifice.Respond.Individual.Everywhere.{
  readdressed, respond_individual_address_write-readdressed,
}
use edifice.Base.{
  ℕ, ◌≡◌, refl, arith, true, false, List, [], ◌∷◌, take, none, some, ret, fault, success,
}
use edifice.Apdu.PropertyValue
use edifice.Apdu.PropertyValue.{Position, build_write}
use edifice.Pentagon.Mask.{mask_num}
use edifice.Device.Manager.{IDevice, DeviceManager}
use edifice.Frame.Types.{Frame, standard, one_byte_frame, ack_frame}
use edifice.Frame.Build.{build_frame_from_apdu}
use edifice.Frame.Extract.{build_apdu_from_frame, spawn_first}
use edifice.Txt.Elements.{values}
use edifice.Respond.Services.{Services}
use edifice.Respond.Writing.{Writers, ack_of, respond_property_value_write}
use edifice.Respond.Linking.{Linkers}
use edifice.Respond.Dispatch.{respond_frame}
use edifice.Respond.Dispatch.Numbers.{numbers}
use edifice.Respond.Dispatch.Frames.{numbers-respond_frame}
use edifice.Emulator.Values.Written.{property_value_write_arrives}

-- A device is its address and the bytes that were written to it last.
abbrev Store : Type 0
Store = Addr × List ℕ

abbrev store_device : IDevice Store
store_device = record { get_host_addr = λ d. some d.0; exist_this_group_addr = λ d b. false }

abbrev store_reads : Services Store
store_reads = record {
  host = store_device;
  get_elem_values = λ d k start n room. ret (values d.1);
  get_prop_fields = λ d k. none;
  get_link_count = λ d. ret 0;
  get_link_by_index = λ d i. ret none;
  get_group_addr_count = λ d. ret 0;
  get_group_addr_by_index = λ d i. ret none;
  get_group_object_head_by_index = λ d i. ret none;
  get_group_object_value = λ d i room. fault;
  get_authorize = λ d key. none;
  get_user_memory = λ d. ret none;
}

abbrev store_writers : Writers Store
store_writers = record {
  host = store_device;
  set_elem_values = λ d k start n buff buff_len. ret ((d.0, take buff_len buff), success);
  set_prop_fields = λ d k fields. ret (d, success);
  write_user_memory = λ d shift buff. ret (d, success);
  write_host_addr = λ d a. ((a, d.1), success);
  get_serial_num = λ d. none;
  is_individual_address_write_enabled = λ d. false;
  is_individual_address_read_enabled = λ d. true;
}

abbrev store_linkers : Linkers Store
store_linkers = record {
  reads = store_reads;
  remove_link_by_index = λ d i. ret (d, success);
  add_group_addr = λ d a. ret (d, success);
  add_link = λ d i k. ret (d, success);
  set_group_object_value = λ d i buff. ret (d, success);
}

abbrev stores : DeviceManager Store
stores = record {
  inited = true;
  devs = (1, (near, [])) ∷ (4, (far, [])) ∷ [];
  ite4nextdev = 0;
  next_ava_id = 5;
}

abbrev position : Position
position = record { object_index = 3; property_id = 23; no_of_elem = 1; start_index = 2 }

property_value_write_arrives_example :
    (a : Apdu) × (f : Frame) × (b : Apdu) × (build_write env
        (construct env property_value_write)
        0
        3
        7
        (some far)
        position
        (some (0x55 ∷ []))
      ≡ ret (a, success))
    × (build_frame_from_apdu (set_host_addr (some near) a) ≡ ret f)
    × (build_apdu_from_frame env f ≡ ret (some b))
    × (respond_property_value_write store_writers env b stores
        ≡ ret (
          (some (ack_of env (some success)), success),
          record stores { devs = (1, (near, [])) ∷ (4, (far, 0x55 ∷ [])) ∷ [] },
        ))
property_value_write_arrives_example =
    property_value_write_arrives store_writers env near far position (0x55 ∷ []) stores
      ((1, (near, [])) ∷ []) [] 4 (far, []) (far, 0x55 ∷ []) success
      (record { high_byte = omega arith; low_byte = omega arith })
      (record { high_byte = omega arith; low_byte = omega arith })
      (record {
        object_byte = omega arith;
        property_byte = omega arith;
        count = omega arith;
        start = omega arith;
      })
      (omega arith) (omega arith) (omega arith) (omega arith, tt) refl (refl, tt) refl refl

-- The frame of that request.
abbrev write_frame : Frame
write_frame = record {
  class = standard;
  frame_len = 14;
  frame_mem =
      0xbc ∷ 0x11 ∷ 0x02 ∷ 0x11 ∷ 0x07 ∷ 0x67 ∷ 0x03 ∷ 0xd7 ∷ 3 ∷ 23 ∷ 0x10 ∷ 2 ∷ 0x55 ∷ 0 ∷ [];
}

abbrev written_stores : DeviceManager Store
written_stores = record stores { devs = (1, (near, [])) ∷ (4, (far, 0x55 ∷ [])) ∷ [] }

frame_responded :
    respond_frame store_reads store_writers store_linkers env write_frame stores
    ≡ ret ((one_byte_frame ack_frame ∷ [], success), written_stores)
unfolding respond_frame spawn_first spawn is_standard spawn_copy respond_property_value_write
    PropertyValue.load_position mask_num PropertyValue.copy_values build_frame_from_apdu
    one_byte_frame
frame_responded = refl

numbers-respond_frame_example : numbers written_stores.devs ≡ numbers stores.devs
numbers-respond_frame_example =
    numbers-respond_frame store_reads store_writers store_linkers env write_frame stores
      written_stores (one_byte_frame ack_frame ∷ []) success frame_responded

-- A request to take the address of `far`, for devices that accept one.
abbrev open_writers : Writers Store
open_writers = record store_writers { is_individual_address_write_enabled = λ d. true }

abbrev address_request : Apdu
address_request =
    record (apdu_with individual_address_write 0x00 0xc2 (0x00 ∷ 0xc2 ∷ 0x11 ∷ 0x07 ∷ [])) {
      recved_apdu = true;
    }

address_says : load_address address_request.apdu_mem 2 ≡ ret far
unfolding load_address
address_says = refl

respond_individual_address_write-readdressed_example :
    respond_individual_address_write open_writers env address_request stores
    ≡ ret (([], success), record stores { devs = (1, (far, [])) ∷ (4, (far, [])) ∷ [] })
unfolding readdressed
respond_individual_address_write-readdressed_example =
    respond_individual_address_write-readdressed open_writers env far address_request stores refl
      address_says (omega arith) (omega arith, tt)
