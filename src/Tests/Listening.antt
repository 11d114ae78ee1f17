-- ===== src/Tests/Listening.antt =====
-- The theorems about the answers that a channel gives the emulator at concrete inputs.
use edifice.Base.{ℕ, zero, suc, ◌≡◌, refl, true, false, List, [], ◌∷◌, Option, none, some, ret}
use edifice.Apdu.Types.{
  Apdu, ApduType, nack, busy, nackbusy, construct, spawn, is_standard, spawn_copy,
  property_value_read, property_value_response,
}
use edifice.Device.Manager.{addr_eq}
use edifice.Frame.Types.{Frame, standard, get_host_addr, get_peer_addr, does_peer_use_group_address}
use edifice.Frame.Extract.{received, spawn_first, build_apdu_from_frame}
use edifice.Channel.Waiting.{
  Wanted, ResponseType, response_normal, response_short, response_recving_timeout, take_wanted,
  is_wanted, got_ya, too_early, response_of,
}
use edifice.Emulator.Comm.{Comm}
use edifice.Emulator.Restrictions.{
  impose_response_restrictions, get_expected_apdu_types, restricted,
}
use edifice.Channel.Waiting.Loop.{rx_sync, scanned_round}
use edifice.Channel.Queue.{RxData}
use edifice.Emulator.Comm.Filter.Waiting.{waiting_comm, waiting_comm-Filters}
use edifice.Emulator.Exchange.{wanted_of, tx_rx_sync}
use edifice.Emulator.Exchange.Answered.{tx_rx_sync_answered}
use edifice.Tests.Samples.{env, near, far}
use edifice.Tests.Emulators.{same_comm, other_response, memory_response, kept_addr}

-- A channel that answers, says that a short frame came, answers again and then no more.
abbrev twice : ℕ → ResponseType × Option Frame
twice zero = (response_normal, some other_response)
twice (suc zero) = (response_short, some memory_response)
twice (suc (suc zero)) = (response_normal, some memory_response)
twice _ = (response_recving_timeout, none)

abbrev twice_comm : Comm ℕ
twice_comm = record (same_comm other_response) {
  rx_sync = λ s w waiting_time. ret (twice s, suc s);
}

abbrev any_wanted : Wanted
any_wanted = record {
  sending_time = 0;
  expected_types = none;
  from = none;
  to = none;
  response_time = 0;
}

-- The frame of a read request, from `near` to `far`, and its APDU.
abbrev request_frame : Frame
request_frame = record {
  class = standard;
  frame_len = 13;
  frame_mem = 0xbc ∷ 0x11 ∷ 0x02 ∷ 0x11 ∷ 0x07 ∷ 0x66 ∷ 0x03 ∷ 0xd5 ∷ 3 ∷ 23 ∷ 0x10 ∷ 2 ∷ 0 ∷ [];
}

abbrev request_apdu : Apdu
request_apdu = received (some near) (some far) (record (construct env property_value_read) {
  apdu_mem = 0x03 ∷ 0xd5 ∷ 3 ∷ 23 ∷ 0x10 ∷ 2 ∷ [];
  apdu_len = 6;
})

request_carried : build_apdu_from_frame env request_frame ≡ ret (some request_apdu)
unfolding build_apdu_from_frame construct spawn_first received spawn is_standard spawn_copy
request_carried = refl

-- The queue holds the request itself, which was heard, and a response.
abbrev heard : List RxData
heard =
    record { id = 1; time_stamp = 110; type = some property_value_read; frame = request_frame }
    ∷ record {
      id = 2;
      time_stamp = 150;
      type = some property_value_response;
      frame = other_response;
    }
    ∷ []

abbrev hearing : Comm ℕ
hearing =
    waiting_comm (λ s. record { queue_at = λ i. heard; quit_at = λ i. false; tick_at = λ i. 200 })
      (λ s. 100) 3 20 250

request_answered :
    tx_rx_sync hearing kept_addr env 0 request_frame
    ≡ ret ((response_normal, some other_response), 3)
unfolding tx_rx_sync waiting_comm impose_response_restrictions build_apdu_from_frame spawn_first
    spawn is_standard spawn_copy rx_sync take_wanted is_wanted scanned_round response_of
request_answered = refl

frame_addresses :
    (get_host_addr request_frame ≡ ret (some near))
    × (get_peer_addr request_frame ≡ ret (some far))
    × (does_peer_use_group_address request_frame ≡ ret false)
    × (get_host_addr other_response ≡ ret (some far))
    × (get_peer_addr other_response ≡ ret (some near))
unfolding get_host_addr get_peer_addr does_peer_use_group_address
frame_addresses = (refl, refl, refl, refl, refl)

abbrev expected : List (Option ApduType)
expected = some property_value_response ∷ some nack ∷ some busy ∷ some nackbusy ∷ []

read_expects : get_expected_apdu_types property_value_read ≡ some expected
unfolding get_expected_apdu_types
read_expects = refl

tx_rx_sync_answered_example :
    (addr_eq far far ≡ true)
    × (addr_eq near near ≡ true)
    × (x : RxData) × (x.frame ≡ other_response)
    × (got_ya x.type expected ≡ true)
    × (too_early (wanted_of 20 100 (restricted expected false false (some near) (some far))) x
        ≡ false)
unfolding received construct waiting_comm
tx_rx_sync_answered_example =
    tx_rx_sync_answered hearing kept_addr env 0 request_frame other_response request_apdu near far
      far near (some property_value_response) (some nack ∷ some busy ∷ some nackbusy ∷ [])
      response_normal 3
      (waiting_comm-Filters
        (λ s. record { queue_at = λ i. heard; quit_at = λ i. false; tick_at = λ i. 200 }) (λ s. 100)
        3 20 250)
      request_carried frame_addresses.0 frame_addresses.1 frame_addresses.2 refl read_expects
      frame_addresses.3 frame_addresses.4 request_answered
