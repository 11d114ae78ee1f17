-- ===== src/Frame/Types.antt =====
-- The class Frame and its three subclasses: their members and what can be read from them.
use edifice.Base.{
  ℕ, ◌+◌, ◌-◌, ◌%◌, bit_and, bit_or, Bool, false, ◌==◌, not, List, [], ◌∷◌, Option, none, some,
  Outcome, ret, fault, ◌>>=◌, load, store, drop,
}
use edifice.Apdu.Types.{Addr, Env}
use edifice.Device.Manager.{addr_eq}

pub data OneByteFrameType : Type 0 where
  ack_frame nack_frame busy_frame nackbusy_frame : OneByteFrameType

pub data FrameClass : Type 0 where
  one_byte : OneByteFrameType → FrameClass
  standard extended : FrameClass

pub record Frame : Type 0 where
  pub class : FrameClass
  pub frame_len : ℕ
  pub frame_mem : List ℕ

-- The two bytes at an offset.
unfoldable pub read_addr : List ℕ → ℕ → Outcome Addr
unfolding load
read_addr mem k = do h ← load mem k; l ← load mem (k + 1); ret (record { high = h; low = l })

-- The byte that stands for each short frame.
unfoldable pub one_byte_code : OneByteFrameType → ℕ
one_byte_code ack_frame = 0xcc
one_byte_code nack_frame = 0x0c
one_byte_code busy_frame = 0xc0
one_byte_code nackbusy_frame = 0x00

-- `OneByteFrame(OneByteFrameType)`
unfoldable pub one_byte_frame : OneByteFrameType → Frame
unfolding one_byte_code
one_byte_frame t = record { class = one_byte t; frame_len = 1; frame_mem = one_byte_code t ∷ [] }

-- `GetApduMem`: the bytes from the APDU on, and its length, a `UCHAR`; NULL for a short frame.
apdu_part : FrameClass → Frame → Option (List ℕ × ℕ)
apdu_part (one_byte t) f = none
apdu_part standard f = some (drop 6 f.frame_mem, (f.frame_len + 256 - 7) % 256)
apdu_part extended f = some (drop 7 f.frame_mem, (f.frame_len + 256 - 8) % 256)

unfoldable pub get_apdu_mem : Frame → Option (List ℕ × ℕ)
unfolding apdu_part
get_apdu_mem f = apdu_part f.class f

-- `GetPeerAddr`, read through; `none` is NULL.
peer_addr_part : FrameClass → Frame → Outcome (Option Addr)
unfolding read_addr
peer_addr_part (one_byte t) f = ret none
peer_addr_part standard f = do a ← read_addr f.frame_mem 3; ret (some a)
peer_addr_part extended f = do a ← read_addr f.frame_mem 4; ret (some a)

unfoldable pub get_peer_addr : Frame → Outcome (Option Addr)
unfolding peer_addr_part
get_peer_addr f = peer_addr_part f.class f

-- `GetHostAddr`
host_addr_part : FrameClass → Frame → Outcome (Option Addr)
unfolding read_addr
host_addr_part (one_byte t) f = ret none
host_addr_part standard f = do a ← read_addr f.frame_mem 1; ret (some a)
host_addr_part extended f = do a ← read_addr f.frame_mem 2; ret (some a)

unfoldable pub get_host_addr : Frame → Outcome (Option Addr)
unfolding host_addr_part
get_host_addr f = host_addr_part f.class f

-- `DoesPeerUseGroupAddress`
group_part : FrameClass → Frame → Outcome Bool
unfolding load
group_part (one_byte t) f = ret false
group_part standard f = do b ← load f.frame_mem 5; ret (not (bit_and b 0x80 == 0))
group_part extended f = do b ← load f.frame_mem 1; ret (not (bit_and b 0x80 == 0))

unfoldable pub does_peer_use_group_address : Frame → Outcome Bool
unfolding group_part
does_peer_use_group_address f = group_part f.class f

-- `DosePeerUseBroadcastAddress` compares through the peer's address, NULL for a short frame.
unfoldable pub does_peer_use_broadcast_address : Env → Frame → Outcome Bool
unfolding get_peer_addr
does_peer_use_broadcast_address env f =
    get_peer_addr f >>= λ p. elim p [ none ↦ fault | some a ↦ ret (addr_eq env.broadcast_addr a) ]

unfoldable pub is_one_byte_frame : Frame → Bool
is_one_byte_frame f = f.frame_len == 1

-- `SetReptBit`: bit 5 of the control byte is cleared in a standard frame, bit 6 set in an extended one.
rept_part : FrameClass → Frame → Outcome Frame
unfolding load store
rept_part (one_byte t) f = ret f
rept_part standard f = do
  b ← load f.frame_mem 0
  mem ← store f.frame_mem 0 (bit_and b 0xdf)
  ret (record f { frame_mem = mem })
rept_part extended f = do
  b ← load f.frame_mem 0
  mem ← store f.frame_mem 0 (bit_or b 0x40)
  ret (record f { frame_mem = mem })

unfoldable pub set_rept_bit : Frame → Outcome Frame
unfolding rept_part
set_rept_bit f = rept_part f.class f
