-- ===== src/Respond/Writing.antt =====
-- `Response` of APDU_PropertyValue_Write, APDU_Property_Write and APDU_UserMemory_Write (EIBCommNEO/apdu.cpp), which
-- change the device that is asked.
pub mod Found
use edifice.Base.{
  ℕ, ◌-◌, Bool, true, false, if◌then◌else◌, List, [], ◌∷◌, length, ◌++◌, Option, some, none,
  Outcome, ret, fault, ◌>>=◌, replicate, Retcode, success, failure,
}
use edifice.Apdu.Types.{Env, Apdu, Addr, ApduType, construct, ack, nack}
use edifice.Apdu.PropertyValue
use edifice.Apdu.PropertyValue.{Position, Copied, too_small, copied}
use edifice.Apdu.Property.{get_property_write_params}
use edifice.Apdu.UserMemory
use edifice.Device.Manager.{IDevice, DeviceManager, host_addr_is}
use edifice.Txt.Types.{Duplex}
use edifice.Respond.Services.{or_fault}

-- The operations of a device that the requests that write call. `none` is a null pointer.
pub record Writers (D : Type 0) : Type 0 where
  pub host : IDevice D
  pub set_elem_values : D → Duplex → ℕ → ℕ → List ℕ → ℕ → Outcome (D × Retcode)
  pub set_prop_fields : D → Duplex → List ℕ → Outcome (D × Retcode)
  pub write_user_memory : D → ℕ → List ℕ → Outcome (D × Retcode)
  pub write_host_addr : D → Addr → D × Retcode
  pub get_serial_num : D → Option (List ℕ)
  pub is_individual_address_write_enabled : D → Bool
  pub is_individual_address_read_enabled : D → Bool

-- What an operation on a device gives, with the device put back at its place.
abbrev pub put_back : {D A : Type 0} → ℕ → List (ℕ × D) → D × A → Option A × List (ℕ × D)
put_back j ds (d, r) = (some r, (j, d) ∷ ds)

abbrev pub keep_first : {D A : Type 0} → ℕ × D → Option A × List (ℕ × D) → Option A × List (ℕ × D)
keep_first entry (r, ds) = (r, entry ∷ ds)

-- An operation on the device that `GetDeviceByDAddr` finds; `none` is that it finds no device.
unfoldable pub at_daddr :
    {D A : Type 0}
    → IDevice D
    → Addr
    → (D → Outcome (D × A))
    → List (ℕ × D)
    → Outcome (Option A × List (ℕ × D))
at_daddr dev addr operation [] = ret (none, [])
at_daddr dev addr operation ((j, d) ∷ ds) =
    let here = operation d >>= λ done. ret (put_back j ds done) in
    let rest = at_daddr dev addr operation ds >>= λ done. ret (keep_first (j, d) done) in
    if host_addr_is (dev.get_host_addr d) addr then here else rest

-- An ACK for the return code 0, a NACK for another and where there is no device.
unfoldable pub ack_of : Env → Option Retcode → Apdu
ack_of env none = construct env nack
ack_of env (some success) = construct env ack
ack_of env (some (failure n)) = construct env nack

-- An ACK wherever there is a device.
unfoldable pub ack_if_found : Env → Option Retcode → Apdu
ack_if_found env none = construct env nack
ack_if_found env (some r) = construct env ack

-- The bytes that were read out; a length below 0 is read past every end.
abbrev pub bytes_of : Copied → Outcome (List ℕ)
bytes_of (too_small n) = fault
bytes_of (copied bytes) = ret bytes

module _ {D : Type 0} (svc : Writers D) (env : Env) where
  open svc use {host, set_elem_values, set_prop_fields, write_user_memory}

  -- The device at the peer address, changed, and the answer.
  unfoldable pub answered_by :
      (Option Retcode → Apdu)
      → Apdu
      → (D → Outcome (D × Retcode))
      → DeviceManager D
      → Outcome ((Option Apdu × Retcode) × DeviceManager D)
  unfolding at_daddr
  answered_by answer a operation m = do
    (r, ds) ← at_daddr host a.peeraddr operation m.devs
    ret ((some (answer r), success), record m { devs = ds })

  -- The values in a buffer of 1024 zeros, with their length.
  abbrev pub set_values_of : Position → List ℕ → D → Outcome (D × Retcode)
  set_values_of p bytes d =
      set_elem_values d (p.object_index, p.property_id) p.start_index p.no_of_elem
        (bytes ++ replicate (1024 - length bytes) 0) (length bytes)

  -- `APDU_PropertyValue_Write::Response`
  unfoldable pub respond_property_value_write :
      Apdu → DeviceManager D → Outcome ((Option Apdu × Retcode) × DeviceManager D)
  unfolding answered_by ack_of PropertyValue.get_write_params
  respond_property_value_write a m =
      let answer = (do
        params ← PropertyValue.get_write_params a 1024
        (p, c) ← or_fault params
        bytes ← bytes_of c
        answered_by (ack_of env) a (set_values_of p bytes) m) in
      if a.recved_apdu then answer else ret ((none, failure 1), m)

  -- `APDU_Property_Write::Response`
  unfoldable pub respond_property_write :
      Apdu → DeviceManager D → Outcome ((Option Apdu × Retcode) × DeviceManager D)
  unfolding answered_by ack_of get_property_write_params
  respond_property_write a m =
      let answer = (do
        params ← get_property_write_params a
        (k, fields) ← or_fault params
        answered_by (ack_of env) a (λ d. set_prop_fields d k fields) m) in
      if a.recved_apdu then answer else ret ((none, failure 1), m)

  -- `APDU_UserMemory_Write::Response`, which does not look at the return code of `WriteUserMemory`.
  unfoldable pub respond_user_memory_write :
      Apdu → DeviceManager D → Outcome ((Option Apdu × Retcode) × DeviceManager D)
  unfolding answered_by ack_if_found UserMemory.get_write_params
  respond_user_memory_write a m =
      let answer = (do
        params ← UserMemory.get_write_params a 56
        ((number, address), c) ← or_fault params
        bytes ← bytes_of c
        answered_by (ack_if_found env) a (λ d. write_user_memory d address bytes) m) in
      if a.recved_apdu then answer else ret ((none, failure 1), m)
