-- ===== src/Emulator/Values/Connected.antt =====
-- A channel with a station at its other end that answers read requests for values of a property
-- (EIBCommNEO/EIBEmulatorImpl.cpp, EIBCommNEO/apdu.cpp).
use edifice.Base.{
  ℕ, ◌≡◌, refl, ap, ◌∙◌, inl, inr, arith, Bool, true, false, ◌==◌, if◌then◌else◌, List, Option,
  some, ret, success, Bool-cases,
}
use edifice.Apdu.Types.{Env, Apdu, Addr, ApduType, property_value_read, property_value_response}
use edifice.Device.Manager.{DeviceManager, addr_eq}
use edifice.Frame.Types.{Frame, get_host_addr, get_peer_addr}
use edifice.Frame.Build.{build_frame_from_apdu}
use edifice.Frame.Extract.{build_apdu_from_frame, get_apdu_type}
use edifice.Frame.Header.{HasHeader}
use edifice.Channel.Queue.{RxData}
use edifice.Channel.Waiting.{
  Wanted, too_early, is_wanted, address_expected, address_equal, type_expected, got_ya, types_equal,
  response_normal,
}
use edifice.Respond.Services.{Services}
use edifice.Respond.Properties.{respond_property_value_read}
use edifice.Emulator.Comm.{Comm}
use edifice.Emulator.Restrictions.{
  Restrictions, get_expected_apdu_types, types_or_none, restricted, restrictions_of,
  impose_response_restrictions,
}
use edifice.Emulator.Exchange.{wanted_of, is_sending_timeout}

-- The frame `g` is the station's answer to the frame `f`.
abbrev pub AnsweredBy : {D : Type 0} → Services D → DeviceManager D → Env → Frame → Frame → Type 0
AnsweredBy svc m env f g =
    (b : Apdu) × (resp : Apdu) × (build_apdu_from_frame env f ≡ ret (some b))
    × (respond_property_value_read svc m env b ≡ ret (some resp, success))
    × (build_frame_from_apdu resp ≡ ret g)

-- Every entry with the frame `g`, if it is not too early, passes the tests of `rx_sync`.
abbrev pub Passes : Env → Wanted → Frame → Type 0
Passes env w g =
    (x : RxData)
    → x.frame ≡ g
    → get_apdu_type env g ≡ ret x.type
    → too_early w x ≡ false
    → is_wanted w x ≡ ret true

-- Every frame can be sent, and an answer that passes the tests arrives in time.
pub record IsConnected {S D : Type 0} (c : Comm S) (svc : Services D) (m : DeviceManager D)
    (env : Env) : Type 0 where
  pub sends : (s : S) (f : Frame) → is_sending_timeout (c.tx_sync s f).0 ≡ false
  pub delivers :
      (s : S) (f g : Frame) (w : Wanted)
      → AnsweredBy svc m env f g
      → Passes env w g
      → (s' : S) × (c.rx_sync (c.tx_sync s f).1 w c.rx_time_out
          ≡ ret ((response_normal, some g), s'))

-- The restrictions that the frame of a request imposes, for either value of its group bit.
abbrev pub imposed_by : Env → Apdu → Bool → Restrictions
imposed_by env a group =
    restricted (types_or_none (get_expected_apdu_types a.type)) group
      (if group then false else addr_eq env.broadcast_addr a.peeraddr) (some a.hostaddr)
      (some a.peeraddr)

pub impose_response_restrictions-imposed_by :
    (env : Env) (a b : Apdu) (f : Frame) (t : HasHeader a f)
    → build_apdu_from_frame env f ≡ ret (some b)
    → b.type ≡ a.type
    → impose_response_restrictions env f ≡ ret (imposed_by env a t.group)
unfolding impose_response_restrictions restrictions_of
impose_response_restrictions-imposed_by env a b f t carried same = elim (Bool-cases t.group) [
  | inl one ↦ rw (carried, t.host, t.peer, t.group_read, same, one) refl
  | inr other ↦ rw (carried, t.host, t.peer, t.group_read, same, other) refl
]

pub byte_eq : (n : ℕ) → (n == n) ≡ true
byte_eq n = ground arith

addr_eq_refl : (a : Addr) → addr_eq a a ≡ true
addr_eq_refl a = rw (byte_eq a.high, byte_eq a.low) refl

-- The addresses of an answer to a request pass the tests, whatever they are restricted to.
addresses_pass :
    (ts : List (Option ApduType)) (group broadcast : Bool) (host peer : Addr) (f : Frame)
    → get_host_addr f ≡ ret (some peer)
    → get_peer_addr f ≡ ret (some host)
    → (address_expected
          (restricted ts group broadcast (some host) (some peer)).check_from
          (get_host_addr f)
        ≡ ret true)
      × (address_expected
            (restricted ts group broadcast (some host) (some peer)).check_to
            (get_peer_addr f)
          ≡ ret true)
unfolding address_expected address_equal
addresses_pass ts true broadcast host peer f from to = (refl, refl)
addresses_pass ts false true host peer f from to = (refl, rw (to, addr_eq_refl host) refl)
addresses_pass ts false false host peer f from to =
    (rw (from, addr_eq_refl peer) refl, rw (to, addr_eq_refl host) refl)

types_of_restricted :
    (ts : List (Option ApduType)) (group broadcast : Bool) (host peer : Option Addr)
    → (restricted ts group broadcast host peer).expected_types ≡ ts
types_of_restricted ts true broadcast host peer = refl
types_of_restricted ts false true host peer = refl
types_of_restricted ts false false host peer = refl

-- A response from the peer of a read request to its host passes the tests.
pub response-Passes :
    (env : Env) (a resp b : Apdu) (g : Frame) (group : Bool) (response_time sending_time : ℕ)
    → a.type ≡ property_value_read
    → HasHeader resp g
    → resp.hostaddr ≡ a.peeraddr
    → resp.peeraddr ≡ a.hostaddr
    → build_apdu_from_frame env g ≡ ret (some b)
    → b.type ≡ property_value_response
    → Passes env (wanted_of response_time sending_time (imposed_by env a group)) g
unfolding is_wanted get_apdu_type wanted_of type_expected got_ya types_equal get_expected_apdu_types
response-Passes env a resp b g group response_time sending_time read t from to carried answer x same
      type late =
    let broadcast : Bool = if group then false else addr_eq env.broadcast_addr a.peeraddr in
    let typed : x.type ≡ some property_value_response = cc (rw carried at type) in
    let (from_ok, to_ok) =
      addresses_pass (types_or_none (get_expected_apdu_types a.type)) group broadcast a.hostaddr
        a.peeraddr x.frame (ap get_host_addr same ∙ t.host ∙ ap (λ h. ret (some h)) from)
        (ap get_peer_addr same ∙ t.peer ∙ ap (λ h. ret (some h)) to) in
    let types =
      types_of_restricted (types_or_none (get_expected_apdu_types a.type)) group broadcast
        (some a.hostaddr) (some a.peeraddr) in
    rw (late, from_ok, to_ok, types, read, typed) refl
