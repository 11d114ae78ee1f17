-- ===== src/Respond/Answers.antt =====
-- The answer to a read request for values of a property (EIBCommNEO/apdu.cpp), from the request to what the
-- requester reads out of the answer.
use edifice.Base.{
  ℕ, suc, ◌+◌, ◌-◌, ◌%◌, ◌≤◌, ◌≡◌, refl, ap, ◌∙◌, arith, true, false, ltb, List, length, Option,
  some, ret, ◌>>=◌, slice, memcpy, fill, length-fill, memcpy_exact, slice_exact, Retcode, success,
}
use edifice.Base.Bits.{IsByte}
use edifice.Apdu.Types.{
  Env, Apdu, Addr, property_value_response, nack, construct, apci_of, set_host_addr,
}
use edifice.Apdu.PropertyValue.{Position, copied, get_read_params, get_write_params, copy_values}
use edifice.Apdu.PropertyValue.RoundTrip.{
  IsPosition, sent, placed, store_position-placed, load_position-placed,
}
use edifice.Device.Manager.{DeviceManager, get_device_by_daddr}
use edifice.Txt.Elements.{Got, refused, too_small, values}
use edifice.Respond.Services.{Services, new_response, or_nack}
use edifice.Respond.Properties.{
  values_into, respond_property_value_read, build_property_value_response,
}

-- The response that carries the values.
abbrev pub carrying : Apdu → Addr → Position → List ℕ → Apdu
carrying a asap p out = record a {
  ack_request = 0;
  priority = 0;
  hop_count_type = 7;
  peeraddr = asap;
  apdu_mem = placed a.apci_l a.apci_h p out;
  apdu_len = length out + 6;
}

values_into-carrying :
    (env : Env) (a : Apdu) (asap : Addr) (p : Position) (out : List ℕ)
    → length out ≤ 249
    → values_into env a 0 0 7 (some asap) p (values out) ≡ ret (carrying a asap p out, success)
unfolding values_into fill memcpy
values_into-carrying env a asap p out hi =
    let e : 6 + length out ≡ suc (suc (suc (suc (suc (suc (length out)))))) = omega arith in
    let e1 : suc (suc (suc (suc (suc (suc (length out)))))) % 256 ≡ length out + 6 = omega arith in
    rw e (
      rw store_position-placed (
        rw
          (
            memcpy_exact (fill env.junk 6 (length out)) out (length-fill env.junk 6 (length out)),
            e1,
          )
          refl))

pub get_write_params-carrying :
    (a : Apdu) (asap : Addr) (p : Position) (out : List ℕ) (room : ℕ)
    → IsPosition p
    → IsByte a.apci_l
    → IsByte a.apci_h
    → length out ≤ 249
    → length out ≤ room
    → get_write_params (carrying a asap p out) room ≡ ret (some (sent p, copied out))
unfolding get_write_params copy_values slice
get_write_params-carrying a asap p out room v hl hh hi fits =
    let e2 : length out + 6 - 6 ≡ length out = omega arith in
    let e3 : ltb (length out + 6) 6 ≡ false = ground arith in
    let e4 : ltb room (length out) ≡ false = ground arith in
    rw (e3, load_position-placed p a.apci_l a.apci_h out v hl hh)
      (rw (e2, e4) (rw (slice_exact (length out) out refl) refl))

-- How many bytes the device gave.
abbrev pub size_given : Got → ℕ
size_given (values out) = length out
size_given other = 0

-- What is expected of the answer: a response that swaps the two addresses of the request and from which its
-- position and exactly the values are read, or a NACK.
abbrev pub Answers : Env → Apdu → Position → Got → Option Apdu × Retcode → Type 0
Answers env a p refused r = r ≡ (some (construct env nack), success)
Answers env a p (too_small n) r = r ≡ (some (construct env nack), success)
Answers env a p (values out) r =
    (b : Apdu) × (r ≡ (some b, success))
    × (b.type ≡ property_value_response)
    × (b.hostaddr ≡ a.peeraddr)
    × (b.peeraddr ≡ a.hostaddr)
    × (get_write_params b 1024 ≡ ret (some (sent p, copied out)))

-- The control bytes of the response are bytes, with either setting.
pub response_bytes :
    (env : Env)
    → IsByte (construct env property_value_response).apci_l
      × IsByte (construct env property_value_response).apci_h
unfolding construct apci_of
response_bytes env = (omega arith, ground arith)

module _ {D : Type 0} (svc : Services D) (m : DeviceManager D) (env : Env) where
  -- The steps up to the values of the device.
  respond_property_value_read_runs :
      (a : Apdu) (p : Position) (dev : D) (got : Got)
      → a.recved_apdu ≡ true
      → get_read_params a ≡ ret (some p)
      → p.no_of_elem ≤ 15
      → get_device_by_daddr svc.host m (some a.peeraddr) ≡ some dev
      → svc.get_elem_values dev (p.object_index, p.property_id) p.start_index p.no_of_elem 1024
        ≡ ret got
      → respond_property_value_read svc m env a ≡ (
          values_into env (new_response env property_value_response a) 0 0 7 (some a.hostaddr) p got
          >>= λ built. ret (or_nack env built))
  unfolding respond_property_value_read build_property_value_response set_host_addr
  respond_property_value_read_runs a p dev got received params count found given =
      let few : ltb 15 p.no_of_elem ≡ false = ground (arith, count) in
      rw (params, few, found, given, received) refl

  -- The response that carries the values of the device.
  pub respond_property_value_read-carrying :
      (a : Apdu) (p : Position) (dev : D) (out : List ℕ)
      → a.recved_apdu ≡ true
      → get_read_params a ≡ ret (some p)
      → IsPosition p
      → get_device_by_daddr svc.host m (some a.peeraddr) ≡ some dev
      → svc.get_elem_values dev (p.object_index, p.property_id) p.start_index p.no_of_elem 1024
        ≡ ret (values out)
      → length out ≤ 249
      → respond_property_value_read svc m env a
        ≡ ret
            (some (carrying (new_response env property_value_response a) a.hostaddr p out), success)
  respond_property_value_read-carrying a p dev out received params v found given small =
      let o = new_response env property_value_response a in
      respond_property_value_read_runs a p dev (values out) received params v.count found given
      ∙ ap (λ x. x >>= λ built. ret (or_nack env built))
          (values_into-carrying env o a.hostaddr p out small)

  -- A received read request that is well formed, for at most 15 elements of a device that is in the table, is
  -- answered: if the device gives values, of at most 249 bytes, by a response with host and peer
  -- of the request exchanged, from which the requester reads the position that it asked for, its start
  -- index cut to twelve bits, and exactly the values; if the device refuses, by a NACK.
  pub respond_property_value_read-Answers :
      (a : Apdu) (p : Position) (dev : D) (got : Got)
      → a.recved_apdu ≡ true
      → get_read_params a ≡ ret (some p)
      → IsPosition p
      → get_device_by_daddr svc.host m (some a.peeraddr) ≡ some dev
      → svc.get_elem_values dev (p.object_index, p.property_id) p.start_index p.no_of_elem 1024
        ≡ ret got
      → size_given got ≤ 249
      → (r : Option Apdu × Retcode) × (respond_property_value_read svc m env a ≡ ret r)
        × Answers env a p got r
  unfolding values_into set_host_addr construct
  respond_property_value_read-Answers a p dev refused received params v found given small =
      let runs =
        respond_property_value_read_runs a p dev refused received params v.count found given in
      ((some (construct env nack), success), runs, refl)
  respond_property_value_read-Answers a p dev (too_small n) received params v found given small =
      let runs =
        respond_property_value_read_runs a p dev (too_small n) received params v.count found
          given in
      ((some (construct env nack), success), runs, refl)
  respond_property_value_read-Answers a p dev (values out) received params v found given small =
      let o = new_response env property_value_response a in
      let (low, high) = response_bytes env in
      (
        (some (carrying o a.hostaddr p out), success),
        respond_property_value_read-carrying a p dev out received params v found given small,
        (
          carrying o a.hostaddr p out,
          refl,
          refl,
          refl,
          refl,
          get_write_params-carrying o a.hostaddr p out 1024 v low high small (omega arith),
        ),
      )
