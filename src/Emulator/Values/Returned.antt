-- ===== src/Emulator/Values/Returned.antt =====
-- What comes back for a request of `PropertyValue_Read` (EIBCommNEO/EIBEmulatorImpl.cpp), and what is made of it.
use mathlib.Core.Path.{subst}
use edifice.Base.{
  ℕ, ◌≤◌, ◌<◌, ◌≡◌, refl, ap, sym, ◌∙◌, arith, true, false, ◌&&◌, ◌==◌, All, List, length, some,
  Bool-cases, inl, inr, aborted, ret,
}
use edifice.Base.Bits.{IsByte}
use edifice.Apdu.Types.{Env, Apdu, Addr, construct, set_host_addr, property_value_response}
use edifice.Apdu.PropertyValue.{Position, copied, get_write_params}
use edifice.Apdu.PropertyValue.RoundTrip.{IsPosition, sent}
use edifice.Device.Manager.{DeviceManager, get_device_by_daddr}
use edifice.Frame.Types.{Frame}
use edifice.Frame.Extract.{build_apdu_from_frame}
use edifice.Frame.Header.{HasHeader, build_frame_from_apdu-HasHeader}
use edifice.Frame.Transmission.{IsReceived, transmitted}
use edifice.Txt.Elements.{values}
use edifice.Respond.Services.{Services, new_response}
use edifice.Respond.Answers.{
  get_write_params-carrying, response_bytes, respond_property_value_read-carrying,
}
use edifice.Emulator.Values.{got_values, reply_of, checked, values_of}
use edifice.Emulator.Values.Exchanged.{
  IsAddr, requesting, responding, sent_whole, responding-IsSendable, construct-type,
  response_carries, requesting_read, get_read_params-same, get_write_params-same,
}
use edifice.Emulator.Values.Connected.{byte_eq, AnsweredBy}

-- What comes back for the frame of a request: a frame that carries the values.
abbrev pub HasReturn :
    {D : Type 0} → Services D → DeviceManager D → Env → Apdu → Position → List ℕ → Frame → Type 0
HasReturn svc m env a p out f =
    (g : Frame) × (resp : Apdu) × (b : Apdu) × AnsweredBy svc m env f g
    × HasHeader resp g
    × (resp.hostaddr ≡ a.peeraddr)
    × (resp.peeraddr ≡ a.hostaddr)
    × (build_apdu_from_frame env g ≡ ret (some b))
    × (b.type ≡ property_value_response)
    × ((room : ℕ) → length out ≤ room → get_write_params b room ≡ ret (some (p, copied out)))

module _ {D : Type 0} (svc : Services D) (m : DeviceManager D) (env : Env) (host peer : Addr)
    (p q : Position) (dev : D) (out : List ℕ) (ho : IsAddr host) (pe : IsAddr peer)
    (u : IsPosition p) (v : IsPosition q) (cut_start : sent p ≡ q) (start : q.start_index < 4096)
    (found : get_device_by_daddr svc.host m (some peer) ≡ some dev)
    (given : svc.get_elem_values dev (q.object_index, q.property_id) q.start_index q.no_of_elem 1024
      ≡ ret (values out))
    (all : All IsByte out) (small : length out ≤ 241) where
  pub requesting-HasReturn :
      (f : Frame) (b : Apdu)
      → build_apdu_from_frame env f ≡ ret (some b)
      → IsReceived (requesting env host peer p) b
      → HasReturn svc m env (requesting env host peer p) q out f
  unfolding set_host_addr
  requesting-HasReturn f b carried same =
      let resp = responding env b q out in
      let reads =
        get_read_params-same (requesting env host peer p) b same.same_mem same.same_len
        ∙ requesting_read env host peer p u
        ∙ ap (λ r. ret (some r)) cut_start in
      let runs =
        respond_property_value_read-carrying svc m env b q dev out same.marked reads v
          (ap (λ d. get_device_by_daddr svc.host m (some d)) same.same_peer ∙ found) given
          (omega arith) in
      let sendable =
        responding-IsSendable env b q out (subst IsAddr (sym same.same_host) ho)
          (subst IsAddr (sym same.same_peer) pe) v small all in
      let (g, b', built, seen, carried', same') =
        transmitted svc.host env resp (construct env property_value_response).apci_l
          (construct env property_value_response).apci_h _ false m sendable refl
          (response_carries env) in
      let (low, high) = response_bytes env in
      (
        g,
        resp,
        b',
        (b, resp, carried, runs, built),
        build_frame_from_apdu-HasHeader resp g sendable built,
        same.same_peer,
        same.same_host,
        carried',
        same'.same_type ∙ construct-type env property_value_response,
        λ room fits.
            get_write_params-same resp b' room same'.same_mem same'.same_len
            ∙ get_write_params-carrying (new_response env property_value_response b) b.hostaddr q
                out room v low high (omega arith) fits
            ∙ ap (λ r. ret (some (r, copied out))) (sent_whole q start),
      )

same_position :
    (p : Position)
    → (p.object_index == p.object_index
        && p.property_id == p.property_id
        && p.start_index == p.start_index)
      ≡ true
same_position p = rw (byte_eq p.object_index, byte_eq p.property_id, byte_eq p.start_index) refl

-- What is made of a response that carries the values.
pub values_of_response :
    (p : Position) (out : List ℕ) (room : ℕ) (b : Apdu)
    → get_write_params b room ≡ ret (some (p, copied out))
    → values_of p room (some b) ≡ ret (got_values out)
unfolding values_of checked reply_of
values_of_response p out room b read = rw (read, same_position p) refl

-- What is made of a response that says another start index.
pub values_of_other_start :
    (p q : Position) (out : List ℕ) (room : ℕ) (b : Apdu)
    → get_write_params b room ≡ ret (some (q, copied out))
    → q.start_index < p.start_index
    → values_of p room (some b) ≡ aborted
unfolding values_of checked
values_of_other_start p q out room b read other =
    let differs : (q.start_index == p.start_index) ≡ false = ground (arith, other) in
    elim (Bool-cases (q.object_index == p.object_index && q.property_id == p.property_id)) [
      | inl yes' ↦ rw (read, yes', differs) refl
      | inr no' ↦ rw (read, no') refl
    ]

pub sent-IsPosition : (p : Position) → IsPosition p → IsPosition (sent p)
sent-IsPosition p u = record {
  object_byte = u.object_byte;
  property_byte = u.property_byte;
  count = u.count;
  start = omega arith;
}
