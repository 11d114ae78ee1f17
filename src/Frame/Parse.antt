-- ===== src/Frame/Parse.antt =====
-- The frame that received bytes hold: `BuildFrameFromBuff` and its older form `BuildFrameFromMem`.
use edifice.Base.{
  ℕ, ◌+◌, ◌-◌, bit_and, Bool, true, false, if◌then◌else◌, ◌==◌, ltb, leb, ◌||◌, not, List, Option,
  none, some, Outcome, ret, ◌>>=◌, load, slice,
}
use edifice.Pentagon.Checksum.{xor_check_sum}
use edifice.Apdu.Types.{Addr, Env}
use edifice.Device.Manager.{IDevice, DeviceManager, addr_eq, some_host_has, exist_group_addr}
use edifice.Frame.Types.{
  Frame, FrameClass, standard, extended, one_byte_frame, read_addr, ack_frame, nack_frame,
  busy_frame, nackbusy_frame,
}

-- The switch of `OneByteFrame::BuildFrameFromBuff`.
unfoldable pub one_byte_of : ℕ → Option Frame
unfolding one_byte_frame
one_byte_of b =
    if b == 0xcc
    then some (one_byte_frame ack_frame)
    else if b == 0x0c
    then some (one_byte_frame nack_frame)
    else if b == 0xc0
    then some (one_byte_frame busy_frame)
    else if b == 0x00
    then some (one_byte_frame nackbusy_frame)
    else none

-- `OneByteFrame::BuildFrameFromBuff`
unfoldable pub one_byte_from_buff : Option (List ℕ) → ℕ → Outcome (Option Frame)
unfolding load one_byte_of
one_byte_from_buff none len = ret none
one_byte_from_buff (some buff) len =
    if len == 1 then (load buff 0 >>= λ b. ret (one_byte_of b)) else ret none

-- The last test of every parser, and the copy: the length is exactly what the frame's own length
-- field asks for, and the last byte is the checksum of those before it.
unfoldable pub checked_copy : FrameClass → List ℕ → ℕ → Outcome (Option Frame)
unfolding load slice xor_check_sum
checked_copy c buff len = do
  last ← load buff (len - 1)
  checksum ← xor_check_sum buff (len - 1)
  mem ← slice buff 0 len
  ret (
      if last == checksum
      then some (record { class = c; frame_len = len; frame_mem = mem })
      else none)

unfoldable pub accept : FrameClass → List ℕ → ℕ → ℕ → Outcome (Option Frame)
unfolding checked_copy
accept c buff len expected = if expected == len then checked_copy c buff len else ret none

-- Whether a bit that marks a group address is to be heeded: only on a received frame.
unfoldable pub group_bit : Bool → List ℕ → ℕ → Outcome Bool
unfolding load
group_bit recved buff k =
    if recved then (load buff k >>= λ b. ret (not (bit_and b 0x80 == 0))) else ret false

module _ {D : Type 0} (dev : IDevice D) where
  -- The address test: a group address is looked up in all devices; any other is compared with the
  -- devices' own addresses and then with the broadcast address.
  unfoldable pub address_matches :
      Env → Bool → Addr → DeviceManager D → Outcome (Bool × DeviceManager D)
  unfolding some_host_has exist_group_addr
  address_matches env group addr m =
      if group
      then ret (exist_group_addr dev addr m.devs, m)
      else (some_host_has dev addr m >>= λ r. ret (r.0 || addr_eq env.broadcast_addr addr, r.1))

  unfoldable pub address_stage :
      Env → Bool → Bool → List ℕ → ℕ → DeviceManager D → Outcome (Bool × DeviceManager D)
  unfolding address_matches read_addr
  address_stage env check_address group buff pos m =
      if check_address
      then (read_addr buff pos >>= λ addr. address_matches env group addr m)
      else ret (true, m)

  -- What follows the address test in each class: the length field, then `accept`.
  unfoldable pub finish :
      FrameClass
      → List ℕ
      → ℕ
      → Outcome ℕ
      → Bool × DeviceManager D
      → Outcome (Option Frame × DeviceManager D)
  finish c buff len expected (false, m) = ret (none, m)
  finish c buff len expected (true, m) = do n ← expected; f ← accept c buff len n; ret (f, m)

  unfoldable pub standard_body :
      Env → List ℕ → ℕ → Bool → Bool → DeviceManager D → Outcome (Option Frame × DeviceManager D)
  unfolding load address_stage finish
  standard_body env buff len recved check_address m = do
    group ← group_bit recved buff 5
    r ← address_stage env check_address group buff (if recved then 3 else 1) m
    finish standard buff len (load buff 5 >>= λ b. ret (5 + 1 + bit_and b 0x0f + 1)) r

  -- `StandardFrame::BuildFrameFromBuff`
  unfoldable pub standard_from_buff :
      Env
      → Option (List ℕ)
      → ℕ
      → Bool
      → Bool
      → DeviceManager D
      → Outcome (Option Frame × DeviceManager D)
  unfolding load standard_body
  standard_from_buff env none len recved check_address m = ret (none, m)
  standard_from_buff env (some buff) len recved check_address m =
      if ltb 22 len || leb len 7
      then ret (none, m)
      else (load buff 0 >>= λ ctrl.
          if bit_and ctrl 0x80 == 0
          then ret (none, m)
          else standard_body env buff len recved check_address m)

  unfoldable pub extended_body :
      Env → List ℕ → ℕ → Bool → Bool → DeviceManager D → Outcome (Option Frame × DeviceManager D)
  unfolding load address_stage finish
  extended_body env buff len recved check_address m = do
    group ← group_bit recved buff 1
    r ← address_stage env check_address group buff (if recved then 4 else 2) m
    finish extended buff len (load buff 6 >>= λ b. ret (6 + 1 + b + 1)) r

  -- `ExtendedFrame::BuildFrameFromBuff`
  unfoldable pub extended_from_buff :
      Env
      → Option (List ℕ)
      → ℕ
      → Bool
      → Bool
      → DeviceManager D
      → Outcome (Option Frame × DeviceManager D)
  unfolding load extended_body
  extended_from_buff env none len recved check_address m = ret (none, m)
  extended_from_buff env (some buff) len recved check_address m =
      if leb len 22
      then ret (none, m)
      else (load buff 0 >>= λ ctrl.
          if bit_and ctrl 0x80 == 0
          then extended_body env buff len recved check_address m
          else ret (none, m))

  -- The extended frame if there is one, else the short frame.
  unfoldable pub or_short :
      Option (List ℕ)
      → ℕ
      → Outcome (Option Frame × DeviceManager D)
      → Outcome (Option Frame × DeviceManager D)
  unfolding one_byte_from_buff
  or_short buff len attempt = do
    e ← attempt
    elim e.0 [ some f ↦ ret e | none ↦ (one_byte_from_buff buff len >>= λ o. ret (o, e.1)) ]

  -- `Frame::BuildFrameFromBuff`: the three classes in turn.
  unfoldable pub build_frame_from_buff :
      Env
      → Option (List ℕ)
      → ℕ
      → Bool
      → Bool
      → DeviceManager D
      → Outcome (Option Frame × DeviceManager D)
  unfolding standard_from_buff extended_from_buff or_short
  build_frame_from_buff env buff len recved check_address m = do
    s ← standard_from_buff env buff len recved check_address m
    elim s.0 [
      | some f ↦ ret s
      | none ↦ or_short buff len (extended_from_buff env buff len recved check_address s.1)
    ]

-- `StandardFrame::BuildFrameFromMem`: one address only, that of the configuration.
unfoldable pub standard_from_mem : Env → Option (List ℕ) → ℕ → Bool → Outcome (Option Frame)
unfolding load read_addr accept
standard_from_mem env none len recved = ret none
standard_from_mem env (some mem) len recved =
    if ltb 22 len || leb len 7
    then ret none
    else (load mem 0 >>= λ ctrl.
        if bit_and ctrl 0x80 == 0
        then ret none
        else (read_addr mem (if recved then 3 else 1) >>= λ addr.
            if addr_eq addr env.client_addr
            then (load mem 5 >>= λ b. accept standard mem len (5 + 1 + bit_and b 0x0f + 1))
            else ret none))

-- `ExtendedFrame::BuildFrameFromMem`
unfoldable pub extended_from_mem : Env → Option (List ℕ) → ℕ → Bool → Outcome (Option Frame)
unfolding load read_addr accept
extended_from_mem env none len recved = ret none
extended_from_mem env (some mem) len recved =
    if leb len 22
    then ret none
    else (load mem 0 >>= λ ctrl.
        if bit_and ctrl 0x80 == 0
        then (read_addr mem (if recved then 4 else 2) >>= λ addr.
            if addr_eq addr env.client_addr
            then (load mem 6 >>= λ b. accept extended mem len (6 + 1 + b + 1))
            else ret none)
        else ret none)
