-- ===== src/Channel/Waiting.antt =====
-- The scan of the queue by `CommBase::rx_sync` (EIBCommNEO/CommBase.cpp) for the frame that a caller waits for.
pub mod First
pub mod Loop
use edifice.Base.{
  ℕ, suc, ◌+◌, ◌-◌, ◌%◌, ◌^◌, Bool, true, false, not, ◌&&◌, ◌||◌, ltb, ◌==◌, List, [], ◌∷◌, Option,
  none, some, Outcome, ret, ◌>>=◌, if◌then◌else◌,
}
use edifice.Apdu.Types.{
  Addr, ApduType, ack, nack, busy, nackbusy, property_value_read, property_value_response,
  property_value_write, property_read, property_response, property_write, group_value_read,
  group_value_response, group_value_write, link_read, link_response, link_write, authorize_request,
  authorize_response, user_memory_read, user_memory_response, user_memory_write,
  individual_address_write, individual_address_read, individual_address_response,
  individual_address_serial_number_read, individual_address_serial_number_response,
  individual_address_serial_number_write,
}
use edifice.Device.Manager.{addr_eq}
use edifice.Frame.Types.{get_host_addr, get_peer_addr, is_one_byte_frame}
use edifice.Channel.Queue.{RxData}

-- The arguments of `rx_sync`, and the setting that it reads; NULL is `none`.
pub record Wanted : Type 0 where
  pub sending_time : ℕ
  pub expected_types : Option (List (Option ApduType))
  pub from : Option Addr
  pub to : Option Addr
  pub response_time : ℕ

-- What sending and receiving answer.
pub data ResponseType : Type 0 where
  response_undefined : ResponseType
  response_sending_timeout response_sending_okay response_sending_inqueue : ResponseType
  response_recving_timeout response_normal response_short : ResponseType
  response_error_wait4object response_error_createevent : ResponseType
  response_bad_augument response_bad_query response_bad_resp response_quit_forced : ResponseType

-- The values of the enumeration `APDUType`, from 1 on.
unfoldable pub type_value : ApduType → ℕ
type_value ack = 1
type_value nack = 2
type_value busy = 3
type_value nackbusy = 4
type_value property_value_read = 5
type_value property_value_response = 6
type_value property_value_write = 7
type_value property_read = 8
type_value property_response = 9
type_value property_write = 10
type_value group_value_read = 11
type_value group_value_response = 12
type_value group_value_write = 13
type_value link_read = 14
type_value link_response = 15
type_value link_write = 16
type_value authorize_request = 17
type_value authorize_response = 18
type_value user_memory_read = 19
type_value user_memory_response = 20
type_value user_memory_write = 21
type_value individual_address_write = 22
type_value individual_address_read = 23
type_value individual_address_response = 24
type_value individual_address_serial_number_read = 25
type_value individual_address_serial_number_response = 26
type_value individual_address_serial_number_write = 27

-- `ite->_type == *ite2apdutype`, where `none` is AT_UNAVAILABLE.
unfoldable pub types_equal : Option ApduType → Option ApduType → Bool
unfolding type_value
types_equal none none = true
types_equal none (some b) = false
types_equal (some a) none = false
types_equal (some a) (some b) = type_value a == type_value b

-- `got_ya`
unfoldable pub got_ya : Option ApduType → List (Option ApduType) → Bool
unfolding types_equal
got_ya type [] = false
got_ya type (t ∷ ts) = types_equal type t || got_ya type ts

-- The test of the types, passed without a list and by an empty one.
unfoldable pub type_expected : Option (List (Option ApduType)) → Option ApduType → Bool
unfolding got_ya
type_expected none type = true
type_expected (some []) type = true
type_expected (some (t ∷ ts)) type = got_ya type (t ∷ ts)

-- Before the request, or too soon behind it: `&&` binds closer than `||`, and the difference is a `uint`.
unfoldable pub too_early : Wanted → RxData → Bool
too_early w x =
    (not (w.sending_time == 2 ^ 32 - 1) && ltb x.time_stamp w.sending_time)
    || ltb ((x.time_stamp + 2 ^ 32 - w.sending_time) % 2 ^ 32) w.response_time

-- The test of an address: passed where one of the two pointers is NULL.
unfoldable pub address_equal : Addr → Option Addr → Bool
address_equal a none = true
address_equal a (some b) = addr_eq a b

unfoldable pub address_expected : Option Addr → Outcome (Option Addr) → Outcome Bool
unfolding address_equal
address_expected none address = ret true
address_expected (some a) address = address >>= λ o. ret (address_equal a o)

-- The tests on one entry of the queue.
unfoldable pub is_wanted : Wanted → RxData → Outcome Bool
unfolding too_early address_expected type_expected
is_wanted w x =
    if too_early w x
    then ret false
    else (address_expected w.from (get_host_addr x.frame) >>= λ from_ok.
        address_expected w.to (get_peer_addr x.frame) >>= λ to_ok.
        ret (from_ok && to_ok && type_expected w.expected_types x.type))

-- The result of the scan of what comes behind an entry that is not wanted.
abbrev pub put_behind : RxData → Option (RxData × List RxData) → Option (RxData × List RxData)
put_behind x none = none
put_behind x (some (y, ys)) = some (y, x ∷ ys)

-- The scan: the entry that it takes, and the queue without it.
unfoldable pub take_wanted : Wanted → List RxData → Outcome (Option (RxData × List RxData))
take_wanted w [] = ret none
take_wanted w (x ∷ xs) =
    let rest = take_wanted w xs in
    is_wanted w x >>= λ wanted.
    if wanted then ret (some (x, xs)) else rest >>= λ o. ret (put_behind x o)

unfoldable pub response_of : RxData → ResponseType
unfolding is_one_byte_frame
response_of x = if is_one_byte_frame x.frame then response_short else response_normal
