-- ===== src/Respond/Properties.antt =====
-- `Response` of APDU_PropertyValue_Read and APDU_Property_Read, and `BuildMe` of APDU_PropertyValue_Response and
-- APDU_Property_Response (EIBCommNEO/apdu.cpp).
use edifice.Base.{
  ℕ, ◌+◌, if◌then◌else◌, ltb, List, length, Option, some, none, Outcome, ret, ◌>>=◌, slice, memcpy,
  Retcode, success, failure,
}
use edifice.Apdu.Types.{
  Env, Apdu, Addr, property_value_response, property_response, resize, basic_info,
}
use edifice.Apdu.PropertyValue.{Position, store_position, get_read_params}
use edifice.Apdu.Property.{sizeof_fields, get_property_read_params}
use edifice.Device.Manager.{DeviceManager, get_device_by_daddr}
use edifice.Txt.Elements.{Got, refused, too_small, values}
use edifice.Respond.Services.{Services, new_response, or_nack, or_fault}

-- What `APDU_PropertyValue_Response::BuildMe` makes of the values of the device.
unfoldable pub values_into :
    Env → Apdu → ℕ → ℕ → ℕ → Option Addr → Position → Got → Outcome (Apdu × Retcode)
unfolding resize basic_info
values_into env a ack_request priority hop_count_type asap p refused = ret (a, failure 1)
values_into env a ack_request priority hop_count_type asap p (too_small n) = ret (a, failure 2)
values_into env a ack_request priority hop_count_type asap p (values buff) = do
  let b = basic_info ack_request priority hop_count_type asap (resize env (6 + length buff) a).0
  mem₁ ← store_position b.apdu_mem p
  mem₂ ← memcpy mem₁ 6 buff
  ret (record b { apdu_mem = mem₂ }, success)

module _ {D : Type 0} (svc : Services D) (m : DeviceManager D) (env : Env) where
  open svc use {host, get_elem_values, get_prop_fields}

  -- The values of the device that was found, with room for 1024 bytes.
  abbrev pub device_values : Option D → Position → Outcome Got
  device_values none p = ret refused
  device_values (some dev) p =
      get_elem_values dev (p.object_index, p.property_id) p.start_index p.no_of_elem 1024

  -- `APDU_PropertyValue_Response::BuildMe`
  unfoldable pub build_property_value_response :
      Apdu → ℕ → ℕ → ℕ → Option Addr → Position → Outcome (Apdu × Retcode)
  build_property_value_response a ack_request priority hop_count_type none p = ret (a, failure 1)
  build_property_value_response a ack_request priority hop_count_type (some asap) p =
      let built = device_values (get_device_by_daddr host m (some a.hostaddr)) p >>= λ got.
      values_into env a ack_request priority hop_count_type (some asap) p got in
      if ltb 15 p.no_of_elem then ret (a, failure 1) else built

  -- `APDU_PropertyValue_Read::Response`
  unfoldable pub respond_property_value_read : Apdu → Outcome (Option Apdu × Retcode)
  unfolding get_read_params
  respond_property_value_read a =
      let answer = (do
        params ← get_read_params a
        p ← or_fault params
        built ←
            build_property_value_response (new_response env property_value_response a) 0 0 7
              (some a.hostaddr) p
        ret (or_nack env built)) in
      if a.recved_apdu then answer else ret (none, failure 2)

  abbrev pub device_fields : Option D → ℕ × ℕ → Option (List ℕ)
  device_fields none k = none
  device_fields (some dev) k = get_prop_fields dev k

  abbrev pub fields_into : Apdu → Option (List ℕ) → Outcome (Apdu × Retcode)
  fields_into b none = ret (b, failure 1)
  fields_into b (some fields) = do
    bytes ← slice fields 0 sizeof_fields
    mem ← memcpy b.apdu_mem 2 bytes
    ret (record b { apdu_mem = mem }, success)

  -- `APDU_Property_Response::BuildMe`; the object is sized before the device is asked.
  unfoldable pub build_property_response :
      Apdu → ℕ → ℕ → ℕ → Option Addr → ℕ × ℕ → Outcome (Apdu × Retcode)
  build_property_response a ack_request priority hop_count_type none k = ret (a, failure 1)
  build_property_response a ack_request priority hop_count_type (some asap) k =
      let b =
        basic_info ack_request priority hop_count_type (some asap)
          (resize env (2 + sizeof_fields) a).0 in
      fields_into b (device_fields (get_device_by_daddr host m (some a.hostaddr)) k)

  -- `APDU_Property_Read::Response`
  unfoldable pub respond_property_read : Apdu → Outcome (Option Apdu × Retcode)
  respond_property_read a =
      let answer = (do
        params ← get_property_read_params a
        k ← or_fault params
        built ←
            build_property_response (new_response env property_response a) 0 0 7 (some a.hostaddr) k
        ret (or_nack env built)) in
      if a.recved_apdu then answer else ret (none, failure 2)
