-- ===== src/Emulator/Values/Exchanged.antt =====
-- The request of `PropertyValue_Read` and the response to it as APDUs that can be sent (EIBCommNEO/apdu.cpp).
use edifice.Base.{
  ℕ, ◌%◌, ◌≤◌, ◌<◌, ◌≡◌, refl, ap, arith, inl, inr, true, false, ltb, All, List, [], length, some,
  ret, fill, success, Bool-cases,
}
use edifice.Base.Bits.{IsByte}
use edifice.Apdu.Types.{
  Env, Apdu, Addr, ApduType, construct, apci_of, set_host_addr, is_standard, property_value_read,
  property_value_response,
}
use edifice.Apdu.PropertyValue.{
  Position, build_read, get_read_params, get_write_params, copy_values,
}
use edifice.Apdu.PropertyValue.RoundTrip.{
  IsPosition, sent, placed, tedious_value, store_position-placed, load_position-placed,
}
use edifice.Frame.Layout.{IsSendable}
use edifice.Frame.Dispatch.{carries}
use edifice.Respond.Answers.{carrying, response_bytes}
use edifice.Respond.Services.{new_response}

-- An address of two bytes.
pub record IsAddr (a : Addr) : Type 0 where
  pub high_byte : IsByte a.high
  pub low_byte : IsByte a.low

-- The request that is sent.
abbrev pub requesting : Env → Addr → Addr → Position → Apdu
requesting env host peer p =
    let a = construct env property_value_read in
    record a {
      ack_request = 0;
      priority = 3;
      hop_count_type = 7;
      peeraddr = peer;
      hostaddr = host;
      apdu_mem = placed a.apci_l a.apci_h p [];
      apdu_len = 6;
    }

pub sent_whole : (p : Position) → p.start_index < 4096 → sent p ≡ p
sent_whole p small =
    let same : p.start_index % 4096 ≡ p.start_index = omega arith in
    ap (λ n. record p { start_index = n }) same

pub placed-IsByte :
    (l h : ℕ) (p : Position) (rest : List ℕ)
    → IsPosition p
    → IsByte l
    → IsByte h
    → All IsByte rest
    → All IsByte (placed l h p rest)
placed-IsByte l h p rest v hl hh all = (
  hl,
  (
    hh,
    (
      v.object_byte,
      (v.property_byte, (omega (arith, tedious_value p v, v.count), (omega arith, all))),
    ),
  ),
)

read_bytes :
    (env : Env)
    → IsByte (construct env property_value_read).apci_l
      × IsByte (construct env property_value_read).apci_h
unfolding construct apci_of
read_bytes env = (omega arith, ground arith)

pub requesting-IsSendable :
    (env : Env) (host peer : Addr) (p : Position)
    → IsAddr host
    → IsAddr peer
    → IsPosition p
    → IsSendable (requesting env host peer p)
requesting-IsSendable env host peer p ho pe v =
    let (low, high) = read_bytes env in
    record {
      sized = refl;
      at_least = omega arith;
      at_most = omega arith;
      bytes =
          placed-IsByte (construct env property_value_read).apci_l
            (construct env property_value_read).apci_h p [] v low high tt;
      priority = omega arith;
      host_high = ho.high_byte;
      host_low = ho.low_byte;
      peer_high = pe.high_byte;
      peer_low = pe.low_byte;
    }

pub construct-type : (env : Env) (t : ApduType) → (construct env t).type ≡ t
unfolding construct
construct-type env t = refl

-- The two control bytes are those of the class.
pub read_carries :
    (env : Env)
    → carries env
        (construct env property_value_read).type
        (construct env property_value_read).apci_l
        (construct env property_value_read).apci_h
      ≡ true
unfolding construct is_standard
read_carries env = elim (Bool-cases env.faulty_apci) [ inl b ↦ rw b refl | inr b ↦ rw b refl ]

pub response_carries :
    (env : Env)
    → carries env
        (construct env property_value_response).type
        (construct env property_value_response).apci_l
        (construct env property_value_response).apci_h
      ≡ true
unfolding construct is_standard
response_carries env = elim (Bool-cases env.faulty_apci) [ inl b ↦ rw b refl | inr b ↦ rw b refl ]

pub build_read-requesting :
    (env : Env) (host peer : Addr) (p : Position)
    → IsPosition p
    → (a : Apdu) × (build_read env (construct env property_value_read) 0 3 7 (some peer) p
        ≡ ret (a, success))
      × (set_host_addr (some host) a ≡ requesting env host peer p)
unfolding build_read fill set_host_addr construct
build_read-requesting env host peer p v =
    let few : ltb 15 p.no_of_elem ≡ false = ground (arith, v.count) in
    (
      record (requesting env host peer p) { hostaddr = env.client_addr },
      rw (few, store_position-placed),
      refl,
    )

-- What `GetParams` reads depends on the bytes and their number only.
pub get_read_params-same :
    (a b : Apdu)
    → b.apdu_mem ≡ a.apdu_mem
    → b.apdu_len ≡ a.apdu_len
    → get_read_params b ≡ get_read_params a
unfolding get_read_params
get_read_params-same a b em el = rw (em, el) refl

pub get_write_params-same :
    (a b : Apdu) (room : ℕ)
    → b.apdu_mem ≡ a.apdu_mem
    → b.apdu_len ≡ a.apdu_len
    → get_write_params b room ≡ get_write_params a room
unfolding get_write_params copy_values
get_write_params-same a b room em el = rw (em, el) refl

-- The start index of the request is the one that was asked for without its high bits.
pub requesting_read :
    (env : Env) (host peer : Addr) (p : Position)
    → IsPosition p
    → get_read_params (requesting env host peer p) ≡ ret (some (sent p))
unfolding get_read_params
requesting_read env host peer p v =
    let (low, high) = read_bytes env in rw (load_position-placed p _ _ [] v low high) refl

-- The response of a device to that request.
abbrev pub responding : Env → Apdu → Position → List ℕ → Apdu
responding env a p out = carrying (new_response env property_value_response a) a.hostaddr p out

pub responding-IsSendable :
    (env : Env) (a : Apdu) (p : Position) (out : List ℕ)
    → IsAddr a.hostaddr
    → IsAddr a.peeraddr
    → IsPosition p
    → length out ≤ 241
    → All IsByte out
    → IsSendable (responding env a p out)
unfolding set_host_addr
responding-IsSendable env a p out ho pe v small all =
    let (low, high) = response_bytes env in
    record {
      sized = omega arith;
      at_least = omega arith;
      at_most = omega arith;
      bytes =
          placed-IsByte (construct env property_value_response).apci_l
            (construct env property_value_response).apci_h p out v low high all;
      priority = omega arith;
      host_high = pe.high_byte;
      host_low = pe.low_byte;
      peer_high = ho.high_byte;
      peer_low = ho.low_byte;
    }
