-- ===== src/Tests/Emulators.antt =====
-- The theorems about the emulator at concrete inputs.
use edifice.Base.{
  ℕ, suc, ◌≡◌, refl, arith, true, false, [], ◌∷◌, Option, none, some, Outcome, ret, fault, aborted,
  ◌>>=◌, Retcode, success,
}
use edifice.Apdu.Types.{Apdu, Addr}
use edifice.Apdu.PropertyValue.{Position}
use edifice.Apdu.PropertyValue.RoundTrip.{IsPosition}
use edifice.Frame.Types.{Frame, standard, one_byte_frame, ack_frame}
use edifice.Frame.Build.{build_frame_from_apdu}
use edifice.Frame.Extract.{build_apdu_from_frame}
use edifice.Channel.Waiting.{
  ResponseType, response_normal, response_recving_timeout, response_sending_okay,
}
use edifice.Respond.Properties.{respond_property_value_read}
use edifice.Emulator.Comm.{Comm}
use edifice.Emulator.Values.Failures.{in_word, property_value_write2_okay}
use edifice.Emulator.Exchange.{okay, minus, Emulator, set_dev_host_addr}
use edifice.Emulator.Values.{
  property_value_write_to, property_value_write2, got_values, property_value_read_from,
}
use edifice.Emulator.Raw.{send_rawdate}
use edifice.Emulator.Raw.Short.{send_rawdate_short}
use edifice.Frame.Parse.{build_frame_from_buff}
use edifice.Tests.Samples.{addr_device, env, near, far, table}
use edifice.Emulator.Values.Connected.{IsConnected}
use edifice.Emulator.Values.EndToEnd.{property_value_read_from_served, property_value_read_from_cut}
use edifice.Tests.Answers.{services, asked, far_is_there}

-- The answer of the station with the devices of `table` to an APDU.
abbrev station_answer : Option Apdu → Outcome (Option Apdu)
station_answer none = ret none
station_answer (some b) = respond_property_value_read services table env b >>= λ r. ret r.0

abbrev carried_back : Option Apdu → Outcome ((ResponseType × Option Frame) × Option Frame)
carried_back none = ret ((response_recving_timeout, none), none)
carried_back (some resp) = build_frame_from_apdu resp >>= λ g. ret ((response_normal, some g), none)

-- A channel to that station, whose state is the frame that is on its way.
abbrev on_its_way : Option Frame → Outcome ((ResponseType × Option Frame) × Option Frame)
on_its_way none = ret ((response_recving_timeout, none), none)
on_its_way (some f) = build_apdu_from_frame env f >>= λ o. station_answer o >>= λ r. carried_back r

abbrev station_comm : Comm (Option Frame)
station_comm = record {
  response_time = 0;
  rx_time_out = 250;
  get_tick_count = λ s. (100, s);
  tx_sync = λ s f. (response_sending_okay, some f);
  rx_sync = λ s w waiting_time. on_its_way s;
}

station_comm-IsConnected : IsConnected station_comm services table env
station_comm-IsConnected = record {
  sends = λ s f. refl;
  delivers =
      λ s f g w (b, resp, carried, runs, built) passes. (none, rw (carried, runs, built) refl);
}

abbrev pub kept_addr : Addr → Option Addr → Addr × Retcode
kept_addr d o = (d, success)

abbrev emulator : Emulator (Option Frame) Addr
emulator = record { inited = true; comm = none; dev_manager = table }

asked-IsPosition : IsPosition asked
asked-IsPosition = record {
  object_byte = omega arith;
  property_byte = omega arith;
  count = omega arith;
  start = omega arith;
}

property_value_read_from_served_example :
    (s' : Option Frame) × (property_value_read_from station_comm kept_addr env
        (some near)
        (some far)
        asked
        (some 10)
        emulator
      ≡ ret (
        got_values (0x12 ∷ 0x34 ∷ []),
        record (set_dev_host_addr station_comm kept_addr env 0xffff_ffff (some near) emulator).0 {
          comm = s';
        },
      ))
property_value_read_from_served_example =
    property_value_read_from_served station_comm kept_addr services table env
      station_comm-IsConnected near far asked far (0x12 ∷ 0x34 ∷ []) 10 emulator refl
      (record { high_byte = omega arith; low_byte = omega arith })
      (record { high_byte = omega arith; low_byte = omega arith }) asked-IsPosition (omega arith)
      far_is_there refl (omega arith, (omega arith, tt)) (omega arith) (omega arith) (omega arith)

-- A start index that does not fit into twelve bits.
abbrev too_high : Position
too_high = record asked { start_index = 0x1002 }

too_high-IsPosition : IsPosition too_high
too_high-IsPosition = record {
  object_byte = omega arith;
  property_byte = omega arith;
  count = omega arith;
  start = omega arith;
}

property_value_read_from_cut_example :
    property_value_read_from station_comm kept_addr env
      (some near)
      (some far)
      too_high
      (some 10)
      emulator
    ≡ aborted
property_value_read_from_cut_example =
    property_value_read_from_cut station_comm kept_addr services table env station_comm-IsConnected
      near far too_high far (0x12 ∷ 0x34 ∷ []) 10 emulator refl
      (record { high_byte = omega arith; low_byte = omega arith })
      (record { high_byte = omega arith; low_byte = omega arith }) too_high-IsPosition (omega arith)
      far_is_there refl (omega arith, (omega arith, tt)) (omega arith) (omega arith) (omega arith)

-- A channel whose next answers are all the same frame.
abbrev pub same_comm : Frame → Comm ℕ
same_comm g = record {
  response_time = 0;
  rx_time_out = 250;
  get_tick_count = λ s. (100, s);
  tx_sync = λ s f. (response_sending_okay, s);
  rx_sync = λ s w waiting_time. ret ((response_normal, some g), suc s);
}

-- An APDU of eight bytes from `far` to `near`, as a response for another property.
abbrev pub other_response : Frame
other_response = record {
  class = standard;
  frame_len = 15;
  frame_mem =
      0xbc ∷ 0x11 ∷ 0x07 ∷ 0x11 ∷ 0x02 ∷ 0x68 ∷ 0x03 ∷ 0xd6 ∷ 3 ∷ 24 ∷ 0x10 ∷ 2 ∷ 0x12 ∷ 0x34 ∷ 0
      ∷ [];
}

abbrev waiting : Emulator ℕ Addr
waiting = record { inited = true; comm = 0; dev_manager = table }

-- A response with four bytes of memory where one was asked for.
abbrev pub memory_response : Frame
memory_response = record {
  class = standard;
  frame_len = 16;
  frame_mem =
      0xbc ∷ 0x11 ∷ 0x07 ∷ 0x11 ∷ 0x02 ∷ 0x69 ∷ 0x02 ∷ 0xc1 ∷ 4 ∷ 0 ∷ 0x10 ∷ 1 ∷ 2 ∷ 3 ∷ 4 ∷ 0 ∷ [];
}

-- An emulator before `Init`.
abbrev asleep : Emulator ℕ Addr
asleep = record waiting { inited = false }

write_refused :
    property_value_write_to
      (same_comm memory_response)
      kept_addr
      env
      (some near)
      (some far)
      (in_word 3 23 0x1002)
      (some (7 ∷ []))
      asleep
    ≡ ret (minus 1, asleep)
unfolding property_value_write_to
write_refused = refl

property_value_write2_okay_example :
    property_value_write2
      (same_comm memory_response)
      kept_addr
      env
      (some near)
      (some far)
      3
      23
      0x1002
      (some (7 ∷ []))
      asleep
    ≡ ret (okay, asleep)
property_value_write2_okay_example =
    property_value_write2_okay (same_comm memory_response) kept_addr env (some near) (some far) 3 23
      0x1002 (some (7 ∷ [])) asleep asleep (minus 1) (omega arith) write_refused

ack_parsed :
    build_frame_from_buff addr_device env (some (0xcc ∷ [])) 1 false true table
    ≡ ret (some (one_byte_frame ack_frame), table)
unfolding build_frame_from_buff one_byte_frame
ack_parsed = refl

send_rawdate_short_example :
    send_rawdate
      (same_comm memory_response)
      kept_addr
      env
      addr_device
      (some (0xcc ∷ []))
      1
      (some 64)
      waiting
    ≡ fault
send_rawdate_short_example =
    send_rawdate_short (same_comm memory_response) kept_addr env addr_device (0xcc ∷ []) 1 64
      waiting table ack_frame refl ack_parsed refl
