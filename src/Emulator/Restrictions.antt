-- ===== src/Emulator/Restrictions.antt =====
-- What an answer to a request must be: `GetExpectedAPDUTypes` of the classes of EIBCommNEO/apdu.cpp, and
-- `EIBEmulatorImpl::impose_response_restrictions` (EIBCommNEO/EIBEmulatorImpl.cpp).
use edifice.Base.{Bool, List, [], ◌∷◌, Option, none, some, Outcome, ret, ◌>>=◌, if◌then◌else◌}
use edifice.Apdu.Types.{
  Env, Addr, ApduType, ack, nack, busy, nackbusy, property_value_read, property_value_response,
  property_value_write, property_read, property_response, property_write, group_value_read,
  group_value_response, group_value_write, link_read, link_response, link_write, authorize_request,
  authorize_response, user_memory_read, user_memory_response, user_memory_write,
  individual_address_write, individual_address_read, individual_address_response,
  individual_address_serial_number_read, individual_address_serial_number_response,
  individual_address_serial_number_write,
}
use edifice.Frame.Types.{
  Frame, get_host_addr, get_peer_addr, does_peer_use_group_address, does_peer_use_broadcast_address,
}
use edifice.Frame.Extract.{build_apdu_from_frame}

-- A class of answers, or a refusal.
abbrev or_refused : ApduType → Option (List (Option ApduType))
or_refused t = some (some t ∷ some nack ∷ some busy ∷ some nackbusy ∷ [])

-- `GetExpectedAPDUTypes`; `none` is the return code -1, with the list empty.
unfoldable pub get_expected_apdu_types : ApduType → Option (List (Option ApduType))
get_expected_apdu_types property_value_read = or_refused property_value_response
get_expected_apdu_types property_value_write = or_refused ack
get_expected_apdu_types property_read = or_refused property_response
get_expected_apdu_types property_write = or_refused ack
get_expected_apdu_types group_value_read = or_refused group_value_response
get_expected_apdu_types group_value_write = or_refused ack
get_expected_apdu_types link_read = or_refused link_response
get_expected_apdu_types link_write = or_refused ack
get_expected_apdu_types authorize_request = or_refused authorize_response
get_expected_apdu_types user_memory_read = or_refused user_memory_response
get_expected_apdu_types user_memory_write = or_refused ack
get_expected_apdu_types individual_address_write = some []
get_expected_apdu_types individual_address_read = or_refused individual_address_response
get_expected_apdu_types individual_address_serial_number_read =
    or_refused individual_address_serial_number_response
get_expected_apdu_types individual_address_serial_number_write = some []
get_expected_apdu_types _ = none

abbrev pub types_or_none : Option (List (Option ApduType)) → List (Option ApduType)
types_or_none none = []
types_or_none (some ts) = ts

abbrev kept_for_listen :
    ApduType → Option (List (Option ApduType)) → List (Option ApduType) → List (Option ApduType)
kept_for_listen t none rest = rest
kept_for_listen t (some ts) rest = some t ∷ rest

-- `GetExpectedAPDUTypesForListen`: the classes that expect an answer.
unfoldable pub for_listen : List ApduType → List (Option ApduType)
unfolding get_expected_apdu_types
for_listen [] = []
for_listen (t ∷ ts) = kept_for_listen t (get_expected_apdu_types t) (for_listen ts)

-- The types that are expected, and the addresses that are asked for: from, to.
pub record Restrictions : Type 0 where
  pub expected_types : List (Option ApduType)
  pub check_from : Option Addr
  pub check_to : Option Addr

-- The addresses, by whether the peer is a group or the broadcast address.
abbrev pub restricted :
    List (Option ApduType) → Bool → Bool → Option Addr → Option Addr → Restrictions
restricted types Bool.true broadcast host peer = record {
  expected_types = types;
  check_from = none;
  check_to = none;
}
restricted types Bool.false Bool.true host peer = record {
  expected_types = types;
  check_from = none;
  check_to = host;
}
restricted types Bool.false Bool.false host peer = record {
  expected_types = types;
  check_from = peer;
  check_to = host;
}

-- The tests of the addresses; the second comparison with the broadcast address is made only if the first fails.
unfoldable pub restrictions_of : Env → Frame → ApduType → Outcome Restrictions
unfolding get_expected_apdu_types get_host_addr get_peer_addr does_peer_use_group_address
    does_peer_use_broadcast_address
restrictions_of env f t = do
  let types = types_or_none (get_expected_apdu_types t)
  host ← get_host_addr f
  peer ← get_peer_addr f
  group ← does_peer_use_group_address f
  broadcast ← (if group then ret Bool.false else does_peer_use_broadcast_address env f)
  ret (restricted types group broadcast host peer)

-- `impose_response_restrictions`; a frame without an APDU imposes none.
unfoldable pub impose_response_restrictions : Env → Frame → Outcome Restrictions
unfolding restrictions_of
impose_response_restrictions env f = build_apdu_from_frame env f >>= λ o. elim o [
  | none ↦ ret (record { expected_types = []; check_from = none; check_to = none })
  | some a ↦ restrictions_of env f a.type
]
