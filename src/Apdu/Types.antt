-- ===== src/Apdu/Types.antt =====
-- The base class APDU (EIBCommNEO/apdu.h, EIBCommNEO/apdu.cpp): its members, the constructors of
-- its subclasses, and the operations that every subclass inherits.
use edifice.Base.{
  ℕ, zero, suc, ◌%◌, bit_and, Bool, true, false, if◌then◌else◌, ◌==◌, ltb, ◌&&◌, List, [], ◌∷◌,
  Option, none, some, Outcome, ret, ◌>>=◌, load, slice, memcpy, fill, Retcode, success, failure,
}

-- The classes of apdu.h, by their member `m_type`; `AT_UNAVAILABLE` belongs to no class.
pub data ApduType : Type 0 where
  ack nack busy nackbusy : ApduType
  property_value_read property_value_response property_value_write : ApduType
  property_read property_response property_write : ApduType
  group_value_read group_value_response group_value_write : ApduType
  link_read link_response link_write : ApduType
  authorize_request authorize_response : ApduType
  user_memory_read user_memory_response user_memory_write : ApduType
  individual_address_write individual_address_read individual_address_response : ApduType
  individual_address_serial_number_read : ApduType
  individual_address_serial_number_response : ApduType
  individual_address_serial_number_write : ApduType

-- `UCHAR addr[2]`
pub record Addr : Type 0 where
  pub high : ℕ
  pub low : ℕ

-- What an APDU takes from outside: the configuration `g_myconfig`, and the bytes that a new
-- allocation or an uninitialised member happens to hold.
pub record Env : Type 0 where
  pub client_addr : Addr
  pub broadcast_addr : Addr
  pub faulty_apci : Bool
  pub faulty_authorize : Bool
  pub junk : ℕ → ℕ

pub record Apdu : Type 0 where
  pub type : ApduType
  pub recved_apdu : Bool
  pub ack_request : ℕ
  pub priority : ℕ
  pub hop_count_type : ℕ
  pub peeraddr : Addr
  pub hostaddr : Addr
  pub addrtype : ℕ
  pub apdu_mem : List ℕ
  pub apdu_len : ℕ
  pub apci_l : ℕ
  pub apci_h : ℕ
  pub apci_l_mask : ℕ
  pub apci_h_mask : ℕ

-- `m_apci_l`, `m_apci_h` and their masks, as the constructor of each class leaves them.
pub record Apci : Type 0 where
  pub l : ℕ
  pub h : ℕ
  pub l_mask : ℕ
  pub h_mask : ℕ

abbrev exact : ℕ → ℕ → Apci
exact l h = record { l = l; h = h; l_mask = 255; h_mask = 255 }

unfoldable pub apci_of : Env → ApduType → Apci
apci_of env ack = exact 0xff 0xff
apci_of env nack = exact 0xff 0xff
apci_of env busy = exact 0xff 0xff
apci_of env nackbusy = exact 0xff 0xff
apci_of env property_value_read = exact 0x03 (if env.faulty_apci then 0xb5 else 0xd5)
apci_of env property_value_response = exact 0x03 (if env.faulty_apci then 0xb6 else 0xd6)
apci_of env property_value_write = exact 0x03 (if env.faulty_apci then 0xb7 else 0xd7)
apci_of env property_read = exact 0x02 0xc7
apci_of env property_response = exact 0x02 0xc8
apci_of env property_write = exact 0x02 0xc9
apci_of env group_value_read = exact 0x00 0x00
apci_of env group_value_response = record { l = 0x00; h = 0x40; l_mask = 0x03; h_mask = 0xc0 }
apci_of env group_value_write = record { l = 0x00; h = 0x80; l_mask = 0x03; h_mask = 0xc0 }
apci_of env link_read = exact 0x03 0xe5
apci_of env link_response = exact 0x03 0xe6
apci_of env link_write = exact 0x03 0xe7
apci_of env authorize_request = exact 0x03 0xd1
apci_of env authorize_response = exact 0x03 0xd2
apci_of env user_memory_read = exact 0x02 0xc0
apci_of env user_memory_response = exact 0x02 0xc1
apci_of env user_memory_write = exact 0x02 0xc2
apci_of env individual_address_write = exact 0x00 0xc2
apci_of env individual_address_read = exact 0x01 0x00
apci_of env individual_address_response = exact 0x01 0x40
apci_of env individual_address_serial_number_read = exact 0x03 0xdc
apci_of env individual_address_serial_number_response = exact 0x03 0xdd
apci_of env individual_address_serial_number_write = exact 0x03 0xde

-- `new APDU_...`: the base constructor, then that of the class. The members that neither sets
-- hold what the memory held.
unfoldable pub construct : Env → ApduType → Apdu
unfolding apci_of
construct env t = record {
  type = t;
  recved_apdu = false;
  ack_request = env.junk 0;
  priority = env.junk 1;
  hop_count_type = env.junk 2;
  peeraddr = record { high = env.junk 3; low = env.junk 4 };
  hostaddr = env.client_addr;
  addrtype = 0;
  apdu_mem = [];
  apdu_len = 0;
  apci_l = (apci_of env t).l;
  apci_h = (apci_of env t).h;
  apci_l_mask = (apci_of env t).l_mask;
  apci_h_mask = (apci_of env t).h_mask;
}

-- `IsAck`, `IsNack`, `IsBusy`, `IsNackbusy`
abbrev pub is_ack : ApduType → Bool
is_ack ack = true
is_ack _ = false

abbrev pub is_nack : ApduType → Bool
is_nack nack = true
is_nack _ = false

abbrev pub is_busy : ApduType → Bool
is_busy busy = true
is_busy _ = false

abbrev pub is_nackbusy : ApduType → Bool
is_nackbusy nackbusy = true
is_nackbusy _ = false

unfoldable pub is_standard : ApduType → Bool
is_standard t =
    if is_ack t
    then false
    else if is_nack t
    then false
    else if is_busy t
    then false
    else if is_nackbusy t
    then false
    else true

-- `GetPriority` keeps the lowest two bits.
unfoldable pub get_priority : Apdu → ℕ
get_priority a = bit_and a.priority 0x03

-- `none` is the null pointer, which changes nothing.
unfoldable pub set_host_addr : Option Addr → Apdu → Apdu
set_host_addr none a = a
set_host_addr (some addr) a = record a { hostaddr = addr }

unfoldable pub set_peer_addr : Option Addr → Apdu → Apdu
set_peer_addr none a = a
set_peer_addr (some addr) a = record a { peeraddr = addr }

unfoldable pub basic_info : ℕ → ℕ → ℕ → Option Addr → Apdu → Apdu
unfolding set_peer_addr
basic_info ack_request priority hop_count_type asap a =
    set_peer_addr asap
      (record a { ack_request = ack_request; priority = priority; hop_count_type = hop_count_type })

-- The first two bytes of a new block, once `Resize` has written the control bytes there.
abbrev with_apci : ℕ → ℕ → List ℕ → List ℕ
with_apci l h (x ∷ y ∷ rest) = l ∷ h ∷ rest
with_apci l h mem = mem

-- `Resize`: a new block of `size` bytes; `m_apdu_len` is a `UCHAR`.
unfoldable pub resize : Env → ℕ → Apdu → Apdu × Retcode
unfolding fill
resize env zero a = (a, failure 1)
resize env (suc n) a = (
  record a {
    apdu_mem = with_apci a.apci_l a.apci_h (fill env.junk 0 (suc n));
    apdu_len = suc n % 256;
  },
  success,
)

-- `ApciMatch` on a pointer that is not null.
unfoldable pub apci_match : Apdu → List ℕ → Outcome Bool
unfolding load
apci_match a apci = do
  l ← load apci 0
  h ← load apci 1
  ret (bit_and l a.apci_l_mask == a.apci_l && bit_and h a.apci_h_mask == a.apci_h)

-- What `Spawn` makes: a new object of class `t`, sized by `Resize`, around a copy of the bytes.
unfoldable pub spawn_copy : Env → ApduType → List ℕ → ℕ → Outcome (Option Apdu)
unfolding construct resize slice memcpy
spawn_copy env t mem len = do
  let apdu = (resize env len (construct env t)).0
  bytes ← slice mem 0 len
  copied ← memcpy apdu.apdu_mem 0 bytes
  ret (some (record apdu { apdu_mem = copied }))

-- `Spawn` of the base class, called on the prototype `a`.
unfoldable pub spawn_base : Env → Apdu → List ℕ → ℕ → Outcome (Option Apdu)
unfolding apci_match
spawn_base env a mem len =
    if ltb len 2
    then ret none
    else (apci_match a mem >>= λ matched.
        if matched then spawn_copy env a.type mem len else ret none)

-- The four short classes override `Spawn` to answer NULL.
unfoldable pub spawn : Env → Apdu → List ℕ → ℕ → Outcome (Option Apdu)
unfolding spawn_base
spawn env a mem len = if is_standard a.type then spawn_base env a mem len else ret none

-- `GetAPCI`: both control bytes, or NULL for the short classes.
unfoldable pub get_apci : Apdu → Option (ℕ × ℕ)
get_apci a = if is_standard a.type then some (a.apci_l, a.apci_h) else none

-- `GetAPDUVec_nolock`: the classes in the order of the container.
abbrev pub apdu_vec : List ApduType
apdu_vec =
    ack ∷ nack ∷ busy ∷ nackbusy ∷ property_value_read ∷ property_value_response
    ∷ property_value_write ∷ property_read ∷ property_response ∷ property_write ∷ group_value_read
    ∷ group_value_response ∷ group_value_write ∷ link_read ∷ link_response ∷ link_write
    ∷ authorize_request ∷ authorize_response ∷ user_memory_read ∷ user_memory_response
    ∷ user_memory_write ∷ individual_address_write ∷ individual_address_read
    ∷ individual_address_response ∷ individual_address_serial_number_read
    ∷ individual_address_serial_number_response ∷ individual_address_serial_number_write ∷ []
