-- ===== src/Apdu/IndividualAddress.antt =====
-- The classes APDU_IndividualAddress_* and APDU_IndividualAddressSerialNumber_* of
-- EIBCommNEO/apdu.cpp: reading and giving the addresses of devices.
use edifice.Base.{
  ℕ, ◌+◌, ◌≡◌, refl, List, [], ◌∷◌, Option, some, none, Outcome, ret, ◌>>=◌, load, slice, memcpy,
  store, fill, Retcode, success, failure,
}
use edifice.Apdu.Types.{Env, Apdu, Addr, resize, basic_info}

-- `APDU_IndividualAddress_Write::BuildMe`: to the broadcast address.
unfoldable pub build_address_write : Env → Apdu → ℕ → ℕ → ℕ → Option Addr → Outcome (Apdu × Retcode)
unfolding resize basic_info store
build_address_write env a ack_request priority hop_count_type none = ret (a, failure 1)
build_address_write env a ack_request priority hop_count_type (some new_address) = do
  let b =
      basic_info ack_request priority hop_count_type (some env.broadcast_addr) (resize env 4 a).0
  mem₁ ← store b.apdu_mem 2 new_address.high
  mem₂ ← store mem₁ 3 new_address.low
  ret (record b { apdu_mem = mem₂ }, success)

-- The two bytes of an address.
unfoldable pub load_address : List ℕ → ℕ → Outcome Addr
unfolding load
load_address mem k = do
  high ← load mem k
  low ← load mem (k + 1)
  ret (record { high = high; low = low })

-- `APDU_IndividualAddress_Write::GetParams`
unfoldable pub get_address_write_params : Apdu → Outcome Addr
unfolding load_address
get_address_write_params a = load_address a.apdu_mem 2

-- `APDU_IndividualAddress_Read::BuildMe`
unfoldable pub build_address_read : Env → Apdu → ℕ → ℕ → ℕ → Apdu × Retcode
unfolding resize basic_info
build_address_read env a ack_request priority hop_count_type = (
  basic_info ack_request priority hop_count_type (some env.broadcast_addr) (resize env 2 a).0,
  success,
)

-- `APDU_IndividualAddress_Response::BuildMe`, which leaves the peer as it was.
unfoldable pub build_address_response : Env → Apdu → ℕ → ℕ → ℕ → Apdu × Retcode
unfolding resize basic_info
build_address_response env a ack_request priority hop_count_type =
    (basic_info ack_request priority hop_count_type none (resize env 2 a).0, success)

-- What the three `BuildMe` with a serial number of six bytes share: a block of `size` bytes with the
-- number behind the control bytes.
unfoldable pub build_serial : Env → ℕ → Apdu → ℕ → ℕ → ℕ → Option Addr → List ℕ → Outcome Apdu
unfolding resize basic_info slice memcpy
build_serial env size a ack_request priority hop_count_type peer serial_num = do
  let b = basic_info ack_request priority hop_count_type peer (resize env size a).0
  bytes ← slice serial_num 0 6
  mem ← memcpy b.apdu_mem 2 bytes
  ret (record b { apdu_mem = mem })

-- `APDU_IndividualAddressSerialNumber_Read::BuildMe`
unfoldable pub build_serial_read :
    Env → Apdu → ℕ → ℕ → ℕ → Option (List ℕ) → Outcome (Apdu × Retcode)
unfolding build_serial
build_serial_read env a ack_request priority hop_count_type none = ret (a, failure 1)
build_serial_read env a ack_request priority hop_count_type (some serial_num) = do
  b ← build_serial env 8 a ack_request priority hop_count_type (some env.broadcast_addr) serial_num
  ret (b, success)

-- `APDU_IndividualAddressSerialNumber_Response::BuildMe`
unfoldable pub build_serial_response :
    Env → Apdu → ℕ → ℕ → ℕ → Option (List ℕ) → Outcome (Apdu × Retcode)
unfolding build_serial
build_serial_response env a ack_request priority hop_count_type none = ret (a, failure 1)
build_serial_response env a ack_request priority hop_count_type (some serialnum) = do
  b ← build_serial env 12 a ack_request priority hop_count_type none serialnum
  ret (b, success)

-- `APDU_IndividualAddressSerialNumber_Write::BuildMe`
unfoldable pub build_serial_write :
    Env → Apdu → ℕ → ℕ → ℕ → Option (List ℕ) → Option Addr → Outcome (Apdu × Retcode)
unfolding build_serial memcpy
build_serial_write env a ack_request priority hop_count_type none new_address = ret (a, failure 1)
build_serial_write env a ack_request priority hop_count_type (some serial_num) none =
    ret (a, failure 1)
build_serial_write env a ack_request priority hop_count_type (some serial_num) (some new_address) =
    do
      b ← build_serial env 14 a ack_request priority hop_count_type none serial_num
      mem ← memcpy b.apdu_mem 8 (new_address.high ∷ new_address.low ∷ [])
      ret (record b { apdu_mem = mem }, success)

-- `GetParams` of the read request and of the response.
unfoldable pub get_serial_params : Apdu → Outcome (List ℕ)
unfolding slice
get_serial_params a = slice a.apdu_mem 2 6

-- `APDU_IndividualAddressSerialNumber_Write::GetParams`
unfoldable pub get_serial_write_params : Apdu → Outcome (List ℕ × Addr)
unfolding slice load_address
get_serial_write_params a = do
  serial_num ← slice a.apdu_mem 2 6
  new_address ← load_address a.apdu_mem 8
  ret (serial_num, new_address)

-- `GetParams` after `BuildMe` of IndividualAddress_Write: the request goes to the broadcast address, and
-- says the new address.
address_write_round_trip :
    (env : Env) (a : Apdu) (ack_request priority hop_count_type : ℕ) (new_address : Addr)
    → (b : Apdu) × (build_address_write env a ack_request priority hop_count_type (some new_address)
        ≡ ret (b, success))
      × (get_address_write_params b ≡ ret new_address)
      × (b.peeraddr ≡ env.broadcast_addr)
unfolding build_address_write get_address_write_params fill
address_write_round_trip env a ack_request priority hop_count_type new_address = (
  record a {
    ack_request = ack_request;
    priority = priority;
    hop_count_type = hop_count_type;
    peeraddr = env.broadcast_addr;
    apdu_mem = a.apci_l ∷ a.apci_h ∷ new_address.high ∷ new_address.low ∷ [];
    apdu_len = 4;
  },
  refl,
  refl,
  refl,
)

-- The six bytes of a serial number.
abbrev pub serial_bytes : ℕ → ℕ → ℕ → ℕ → ℕ → ℕ → List ℕ → List ℕ
serial_bytes s₀ s₁ s₂ s₃ s₄ s₅ rest = s₀ ∷ s₁ ∷ s₂ ∷ s₃ ∷ s₄ ∷ s₅ ∷ rest

-- `GetParams` after `BuildMe` of the write request by serial number: the request is built, and the serial
-- number and the new address come back; the peer is not set, and the last four of the fourteen
-- bytes are those that the new block happened to hold.
serial_write_round_trip :
    (env : Env) (a : Apdu) (ack_request priority hop_count_type s₀ s₁ s₂ s₃ s₄ s₅ : ℕ)
    (new_address : Addr)
    → (b : Apdu) × (build_serial_write env a ack_request priority hop_count_type
          (some (serial_bytes s₀ s₁ s₂ s₃ s₄ s₅ []))
          (some new_address)
        ≡ ret (b, success))
      × (get_serial_write_params b ≡ ret (serial_bytes s₀ s₁ s₂ s₃ s₄ s₅ [], new_address))
      × (b.peeraddr ≡ a.peeraddr)
      × (slice b.apdu_mem 10 4 ≡ ret (fill env.junk 10 4))
unfolding build_serial_write get_serial_write_params fill slice
serial_write_round_trip env a ack_request priority hop_count_type s₀ s₁ s₂ s₃ s₄ s₅ new_address = (
  record a {
    ack_request = ack_request;
    priority = priority;
    hop_count_type = hop_count_type;
    apdu_mem =
        a.apci_l
        ∷ a.apci_h
        ∷ serial_bytes s₀ s₁ s₂ s₃ s₄ s₅ (new_address.high ∷ new_address.low ∷ fill env.junk 10 4);
    apdu_len = 14;
  },
  refl,
  refl,
  refl,
  refl,
)

-- `GetParams` after `BuildMe` of the read request by serial number and of its response: each is built, the
-- request to the broadcast address, and the serial number comes back from both.
serial_round_trip :
    (env : Env) (a : Apdu) (ack_request priority hop_count_type s₀ s₁ s₂ s₃ s₄ s₅ : ℕ)
    → (b c : Apdu) × (build_serial_read env a ack_request priority hop_count_type
          (some (serial_bytes s₀ s₁ s₂ s₃ s₄ s₅ []))
        ≡ ret (b, success))
      × (get_serial_params b ≡ ret (serial_bytes s₀ s₁ s₂ s₃ s₄ s₅ []))
      × (b.peeraddr ≡ env.broadcast_addr)
      × (build_serial_response env a ack_request priority hop_count_type
            (some (serial_bytes s₀ s₁ s₂ s₃ s₄ s₅ []))
          ≡ ret (c, success))
      × (get_serial_params c ≡ ret (serial_bytes s₀ s₁ s₂ s₃ s₄ s₅ []))
unfolding build_serial_read build_serial_response get_serial_params fill
serial_round_trip env a ack_request priority hop_count_type s₀ s₁ s₂ s₃ s₄ s₅ = (
  record a {
    ack_request = ack_request;
    priority = priority;
    hop_count_type = hop_count_type;
    peeraddr = env.broadcast_addr;
    apdu_mem = a.apci_l ∷ a.apci_h ∷ serial_bytes s₀ s₁ s₂ s₃ s₄ s₅ [];
    apdu_len = 8;
  },
  record a {
    ack_request = ack_request;
    priority = priority;
    hop_count_type = hop_count_type;
    apdu_mem = a.apci_l ∷ a.apci_h ∷ serial_bytes s₀ s₁ s₂ s₃ s₄ s₅ (fill env.junk 8 4);
    apdu_len = 12;
  },
  refl,
  refl,
  refl,
  refl,
  refl,
)
