-- ===== src/Tests/Channels.antt =====
-- The theorems about the channels at concrete inputs.
use edifice.Base.{
  ℕ, ◌+◌, ◌*◌, ◌≤◌, ◌≡◌, refl, arith, false, List, [], ◌∷◌, ◌++◌, length, some, none, ret, memcpy,
  replicate,
}
use edifice.Apdu.Types.{spawn, spawn_copy, Addr, property_value_read, is_standard, apci_of}
use edifice.Frame.Types.{Frame, standard, get_host_addr, get_peer_addr}
use edifice.Frame.Parse.{build_frame_from_buff, group_bit, accept}
use edifice.Frame.Extract.{spawn_first, get_apdu_type}
use edifice.Channel.Buffer.{make_room, buffered}
use edifice.Channel.Buffer.Room.{newest, buffered-newest}
use edifice.Channel.Parser.{
  frame_parser, equal_frames, try_indices, try_twigs, parse_recv_buff_ex, try_lengths, parse_one,
  cut,
}
use edifice.Channel.Parser.Leaves.{Leaves, frame_parser-Leaves}
use edifice.Channel.Queue.{RxData, is_old, count_old, clear_old_frames}
use edifice.Channel.Queue.Age.{young, Ordered, clear_old_frames-young}
use edifice.Channel.Receiver.{Receiver, entries, queued, rx_round}
use edifice.Channel.Receiver.Room.{HasRoom, rx_round-HasRoom}
use edifice.Channel.Waiting.{Wanted, is_wanted, take_wanted}
use edifice.Channel.Waiting.First.{Taken, take_wanted-Taken}
use edifice.Channel.Waiting.Loop.{Rounds, Answer, rx_sync}
use edifice.Channel.Waiting.Loop.Ends.{IsReadable, Answered, rx_sync_ends}
use edifice.Tests.Samples.{addr_device, env, table, near, far}

-- A frame of thirteen bytes.
abbrev frame_bytes : List ℕ
frame_bytes =
    0xbc ∷ 0x11 ∷ 0x02 ∷ 0x11 ∷ 0x07 ∷ 0x76 ∷ 0x03 ∷ 0xd5 ∷ 0x00 ∷ 0x0b ∷ 0x10 ∷ 0x01 ∷ 0x03 ∷ []

abbrev frame : Frame
frame = record { class = standard; frame_len = 13; frame_mem = frame_bytes }

found :
    frame_parser addr_device env false frame_bytes 13 table
    ≡ ret (((frame_bytes, 0), frame ∷ []), table)
unfolding frame_parser try_indices try_twigs parse_recv_buff_ex try_lengths equal_frames parse_one
    build_frame_from_buff group_bit accept cut memcpy
found = refl

frame_parser-Leaves_example : Leaves frame_bytes 13 ((frame_bytes, 0), frame ∷ [])
frame_parser-Leaves_example =
    frame_parser-Leaves addr_device env false frame_bytes 13 table ((frame_bytes, 0), frame ∷ [])
      {m' = table} found

abbrev held : List ℕ
held = replicate 700 1

abbrev bytes : List ℕ
bytes = replicate 100 2

-- Behind 700 bytes come 100.
buffered-newest_example :
    (rest' : List ℕ) × (buffered (held ++ replicate 324 0) (length held) bytes
      ≡ ret (newest (held ++ bytes) ++ rest', length (newest (held ++ bytes))))
    × (length (newest (held ++ bytes)) + length rest' ≡ 1024)
    × (length (newest (held ++ bytes)) ≤ 768)
buffered-newest_example =
    buffered-newest held (replicate 324 0) bytes refl (omega arith) (omega arith)

abbrev entry : ℕ → ℕ → RxData
entry stamp id = record {
  frame = frame;
  type = some property_value_read;
  time_stamp = stamp;
  id = id;
}

clear_old_frames-young_example :
    clear_old_frames 5 10000 (entry 1000 1 ∷ entry 6000 2 ∷ [])
    ≡ young 5 10000 (entry 1000 1 ∷ entry 6000 2 ∷ [])
unfolding Ordered
clear_old_frames-young_example =
    clear_old_frames-young 5 10000 (entry 1000 1 ∷ entry 6000 2 ∷ []) (omega arith)
      (omega arith, (omega arith, tt), (omega arith, tt, tt))

-- The second entry is wanted, from its sender.
abbrev wanted : Wanted
wanted = record {
  sending_time = 5000;
  expected_types = some (some property_value_read ∷ []);
  from = some near;
  to = none;
  response_time = 10;
}

taken :
    take_wanted wanted (entry 1000 1 ∷ entry 6000 2 ∷ entry 7000 3 ∷ [])
    ≡ ret (some (entry 6000 2, entry 1000 1 ∷ entry 7000 3 ∷ []))
unfolding take_wanted is_wanted get_host_addr
taken = refl

take_wanted-Taken_example :
    Taken wanted
      (entry 1000 1 ∷ entry 6000 2 ∷ entry 7000 3 ∷ [])
      (some (entry 6000 2, entry 1000 1 ∷ entry 7000 3 ∷ []))
take_wanted-Taken_example =
    take_wanted-Taken wanted (entry 1000 1 ∷ entry 6000 2 ∷ entry 7000 3 ∷ [])
      (some (entry 6000 2, entry 1000 1 ∷ entry 7000 3 ∷ [])) taken

-- A receiver with nothing yet, and with the frame.
abbrev before_round : Receiver Addr
before_round = record {
  big_buff = replicate 1024 0;
  big_buff_occupied = 0;
  rx_list = [];
  next_rx_id = 1;
  ticks_read = 0;
  devices = table;
}

abbrev after_round : Receiver Addr
after_round = record before_round {
  big_buff = frame_bytes ++ replicate 1011 0;
  rx_list = entry 0 1 ∷ [];
  next_rx_id = 2;
  ticks_read = 2;
}

round : rx_round addr_device env (λ n. n) 5 false frame_bytes before_round ≡ ret after_round
unfolding rx_round buffered make_room frame_parser try_indices try_twigs parse_recv_buff_ex
    try_lengths equal_frames parse_one build_frame_from_buff group_bit accept cut memcpy queued
    entries get_apdu_type apci_of is_standard clear_old_frames count_old is_old spawn_first spawn
    spawn_copy
round = refl

rx_round-HasRoom_example : HasRoom after_round
rx_round-HasRoom_example =
    rx_round-HasRoom addr_device env (λ n. n) 5 false frame_bytes before_round {r' = after_round}
      (record { whole = refl; room = omega arith }) (omega arith) round

-- A queue with an entry that is not wanted, and a clock that goes on by 100 in a round.
abbrev world : Rounds
world = record {
  queue_at = λ i. entry 1000 1 ∷ [];
  quit_at = λ i. false;
  tick_at = λ i. 5000 + 100 * i;
}

entry-IsReadable : IsReadable (entry 1000 1)
unfolding get_host_addr get_peer_addr
entry-IsReadable = record { host = some near; host_read = refl; peer = some far; peer_read = refl }

-- The fourth round is the first that ends with a limit of 250 reached.
rx_sync_ends_example :
    (i : ℕ) × (answer : Answer) × (i ≤ 3)
    × Answered world wanted 5000 250 (0 + i) answer
    × (rx_sync 4 world wanted 5000 250 0 ≡ ret (some answer))
rx_sync_ends_example =
    rx_sync_ends world wanted 5000 250 0 3 4 (λ i. (entry-IsReadable, tt)) (omega arith)
      (omega arith) (omega arith)
