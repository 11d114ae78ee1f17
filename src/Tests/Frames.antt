-- ===== src/Tests/Frames.antt =====
-- The theorems about frames at concrete inputs.
use edifice.Base.{
  ℕ, ◌≡◌, ◌≢◌, refl, arith, true, false, List, [], ◌∷◌, All, some, ret, fault, set, replicate, ltb,
  if◌then◌else◌,
}
use edifice.Base.Bits.{IsByte}
use edifice.Apdu.Types.{
  Addr, Apdu, is_standard, apci_of, construct, apdu_vec, property_value_write, group_value_write,
  busy, spawn, spawn_copy, link_read,
}
use edifice.Device.Manager.{DeviceManager}
use edifice.Frame.Types.{Frame, standard, set_rept_bit}
use edifice.Frame.Build.{build_frame_from_apdu}
use edifice.Frame.Parse.{build_frame_from_buff, group_bit, accept}
use edifice.Frame.Layout.{IsSendable}
use edifice.Frame.Accepted.{Accepted, build_frame_from_buff_sound}
use edifice.Frame.Corruption.{changed_byte_detected}
use edifice.Frame.Repeat.{set_rept_bit_rejected}
use edifice.Frame.Extract.{build_apdu_from_frame, spawn_first}
use edifice.Frame.Dispatch.{spawned}
use edifice.Frame.LinkRead.{link_read_received}
use edifice.Apdu.Link.{get_link_read_params}
use edifice.Frame.Unique.{spawn_first_unique}
use edifice.Frame.Short.{short_transmitted}
use edifice.Frame.Addressed.{build_frame_from_buff-belongs}
use edifice.Frame.Oversized.{build_frame_from_apdu_overrun}
use edifice.Frame.Transmission.{IsReceived, transmitted}
use edifice.Tests.Samples.{addr_device, env, table, apdu_with, short_apdu}

short_apdu-IsSendable : IsSendable short_apdu
short_apdu-IsSendable = record {
  sized = refl;
  at_least = omega arith;
  at_most = omega arith;
  bytes =
      (omega arith, (omega arith, (omega arith, (omega arith, (omega arith, (omega arith, tt))))));
  priority = omega arith;
  host_high = omega arith;
  host_low = omega arith;
  peer_high = omega arith;
  peer_low = omega arith;
}

transmitted_example :
    (f : Frame) × (b : Apdu) × (build_frame_from_apdu short_apdu ≡ ret f)
    × (build_frame_from_buff addr_device env (some f.frame_mem) f.frame_len true false table
        ≡ ret (some f, table))
    × (build_apdu_from_frame env f ≡ ret (some b))
    × IsReceived short_apdu b
unfolding is_standard apci_of
transmitted_example =
    transmitted addr_device env short_apdu 0x03 0xd5 (0x00 ∷ 0x0b ∷ 0x10 ∷ 0x01 ∷ []) true table
      short_apdu-IsSendable refl refl

-- The bytes of a short request in its frame.
abbrev frame_bytes : List ℕ
frame_bytes =
    0xbc ∷ 0x11 ∷ 0x02 ∷ 0x11 ∷ 0x07 ∷ 0x76 ∷ 0x03 ∷ 0xd5 ∷ 0x00 ∷ 0x0b ∷ 0x10 ∷ 0x01 ∷ 0x03 ∷ []

frame_bytes_lem :
    build_frame_from_apdu short_apdu
    ≡ ret (record { class = standard; frame_len = 13; frame_mem = frame_bytes })
unfolding build_frame_from_apdu
frame_bytes_lem = refl

abbrev short_frame : Frame
short_frame = record { class = standard; frame_len = 13; frame_mem = frame_bytes }

-- The address test finds the second device of the table, and leaves the iterator behind it.
accepted :
    build_frame_from_buff addr_device env (some frame_bytes) 13 false true table
    ≡ ret (some short_frame, record table { ite4nextdev = 2 })
unfolding build_frame_from_buff group_bit accept
accepted = refl

build_frame_from_buff_sound_example : Accepted frame_bytes 13 short_frame
build_frame_from_buff_sound_example =
    build_frame_from_buff_sound addr_device env frame_bytes 13 false true table accepted

frame_bytes-IsByte : All IsByte frame_bytes
frame_bytes-IsByte = (
  omega arith,
  (
    omega arith,
    (
      omega arith,
      (
        omega arith,
        (
          omega arith,
          (
            omega arith,
            (
              omega arith,
              (
                omega arith,
                (omega arith, (omega arith, (omega arith, (omega arith, (omega arith, tt))))),
              ),
            ),
          ),
        ),
      ),
    ),
  ),
)

changed_byte_detected_example :
    build_frame_from_buff addr_device env (some (set frame_bytes 7 0xd6)) 13 true false table
    ≢ ret (some short_frame, table)
changed_byte_detected_example =
    changed_byte_detected addr_device env frame_bytes 13 7 0xd6 false true true false table table
      refl (omega arith) frame_bytes-IsByte (omega arith) refl (omega arith) accepted short_frame
      table

set_rept_bit_rejected_example :
    (f f' : Frame) × (build_frame_from_apdu short_apdu ≡ ret f)
    × (set_rept_bit f ≡ ret f')
    × (build_frame_from_buff addr_device env (some f'.frame_mem) f'.frame_len true false table
        ≢ ret (some short_frame, table))
set_rept_bit_rejected_example =
    set_rept_bit_rejected addr_device env short_apdu true false table short_frame table
      short_apdu-IsSendable

abbrev switched_on : Apdu
switched_on = spawned env group_value_write (0x00 ∷ 0x85 ∷ 0x07 ∷ []) 2

spawn_first_unique_example :
    (spawn_first env apdu_vec (0x00 ∷ 0x85 ∷ 0x07 ∷ []) 2 ≡ ret (some switched_on))
    × (switched_on.type ≡ group_value_write)
unfolding spawn spawn_copy is_standard apci_of construct
spawn_first_unique_example =
    spawn_first_unique env group_value_write 0x00 0x85 (0x07 ∷ []) 0 switched_on (omega arith)
      (omega arith) (omega arith) refl

-- A request for the links of group object 5 that has no start index: it is taken for a request, and its reader
-- goes behind its end.
link_read_received_example :
    (b : Apdu) × (spawn_first env apdu_vec (0x03 ∷ 0xe5 ∷ 5 ∷ 0xba ∷ []) 3 ≡ ret (some b))
    × (b.type ≡ link_read)
    × (get_link_read_params b ≡ (if ltb 3 4 then fault else ret (5, 0xba)))
link_read_received_example = link_read_received env 5 0xba [] 1 (omega arith)

-- The table has the peer of the request, and a frame to it is taken.
build_frame_from_buff-belongs_example :
    (f : Frame) × (m' : DeviceManager Addr) × (build_frame_from_apdu short_apdu ≡ ret f)
    × (build_frame_from_buff addr_device env (some f.frame_mem) f.frame_len true true table
        ≡ ret (some f, m'))
    × (m'.devs ≡ table.devs)
build_frame_from_buff-belongs_example =
    build_frame_from_buff-belongs addr_device env short_apdu table short_apdu-IsSendable refl
      (omega arith)

abbrev oversized_apdu : Apdu
oversized_apdu = apdu_with property_value_write 0x03 0xd7 (replicate 250 0)

build_frame_from_apdu_overrun_example : build_frame_from_apdu oversized_apdu ≡ fault
build_frame_from_apdu_overrun_example =
    build_frame_from_apdu_overrun oversized_apdu refl (omega arith) (omega arith)

short_transmitted_example :
    (f : Frame) × (build_frame_from_apdu (construct env busy) ≡ ret f)
    × (build_frame_from_buff addr_device env (some f.frame_mem) f.frame_len true true table
        ≡ ret (some f, table))
    × (build_apdu_from_frame env f ≡ ret (some (construct env busy)))
unfolding is_standard
short_transmitted_example = short_transmitted addr_device env busy true true table refl
