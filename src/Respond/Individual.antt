-- ===== src/Respond/Individual.antt =====
-- `Response` of the requests about individual addresses, to all devices (EIBCommNEO/apdu.cpp).
pub mod Everywhere
use edifice.Base.{
  ℕ, Bool, true, false, if◌then◌else◌, ◌==◌, ◌&&◌, List, [], ◌∷◌, ◌++◌, Option, some, none, Outcome,
  ret, fault, ◌>>=◌, slice, Retcode, success, failure,
}
use edifice.Apdu.Types.{
  Env, Apdu, Addr, construct, set_host_addr, set_peer_addr, individual_address_response,
  individual_address_serial_number_response,
}
use edifice.Apdu.IndividualAddress.{
  load_address, build_address_response, build_serial_response, get_serial_write_params,
}
use edifice.Device.Manager.{DeviceManager, find, get_all_devices}
use edifice.Respond.Writing.{Writers}

-- The numbers in the buffer of 1024; with more devices than that, it is read behind its end.
abbrev pub all_ids : Option (List ℕ) × ℕ → Outcome (List ℕ)
all_ids (none, n) = fault
all_ids (some ids, n) = ret ids

-- `memcmp` of two serial numbers of six bytes.
unfoldable pub same_serial : List ℕ → List ℕ → Bool
same_serial [] [] = true
same_serial (x ∷ xs) (y ∷ ys) = x == y && same_serial xs ys
same_serial _ _ = false

-- The device of a number, changed.
unfoldable pub change_at : {D : Type 0} → ℕ → D → List (ℕ × D) → List (ℕ × D)
change_at k d' [] = []
change_at k d' ((j, d) ∷ ds) = if j == k then (j, d') ∷ ds else (j, d) ∷ change_at k d' ds

module _ {D : Type 0} (svc : Writers D) (env : Env) where
  open svc use {
    host, write_host_addr, get_serial_num, is_individual_address_write_enabled,
    is_individual_address_read_enabled,
  }

  -- The device gets the address if it is to have it.
  unfoldable pub given_addr :
      (D → Outcome Bool) → Outcome Addr → ℕ → Option D → List (ℕ × D) → Outcome (List (ℕ × D))
  unfolding change_at
  given_addr wants address id none ds = ret ds
  given_addr wants address id (some d) ds = do
    wanted ← wants d
    let changed = address >>= λ addr. ret (change_at id (write_host_addr d addr).0 ds)
    (if wanted then changed else ret ds)

  -- The loops of both `Response` that write an address.
  unfoldable pub write_addrs :
      (D → Outcome Bool) → Outcome Addr → List ℕ → List (ℕ × D) → Outcome (List (ℕ × D))
  unfolding given_addr
  write_addrs wants address [] ds = ret ds
  write_addrs wants address (id ∷ ids) ds = do
    ds' ← given_addr wants address id (find id ds) ds
    write_addrs wants address ids ds'

  -- `APDU_IndividualAddress_Write::Response`; nothing is answered.
  unfoldable pub respond_individual_address_write :
      Apdu → DeviceManager D → Outcome ((List Apdu × Retcode) × DeviceManager D)
  unfolding write_addrs load_address get_all_devices
  respond_individual_address_write a m =
      let done = (do
        ids ← all_ids (get_all_devices m 1024)
        ds ←
            write_addrs (λ d. ret (is_individual_address_write_enabled d))
              (load_address a.apdu_mem 2) ids m.devs
        ret (([], success), record m { devs = ds })) in
      if a.recved_apdu then done else ret (([], failure 1), m)

  -- Whether a device has a serial number, and that one.
  abbrev pub serial_is : Option (List ℕ) → Outcome (List ℕ) → Outcome Bool
  serial_is none asked = ret false
  serial_is (some own) asked = do
    mine ← slice own 0 6
    serial_num ← asked
    ret (same_serial mine serial_num)

  -- `APDU_IndividualAddressSerialNumber_Write::Response`
  unfoldable pub respond_serial_number_write :
      Apdu → DeviceManager D → Outcome ((List Apdu × Retcode) × DeviceManager D)
  unfolding write_addrs get_all_devices get_serial_write_params same_serial slice
  respond_serial_number_write a m =
      let done = (do
        (serial_num, new_addr) ← get_serial_write_params a
        ids ← all_ids (get_all_devices m 1024)
        ds ←
            write_addrs (λ d. serial_is (get_serial_num d) (ret serial_num)) (ret new_addr) ids
              m.devs
        ret (([], success), record m { devs = ds })) in
      if a.recved_apdu then done else ret (([], failure 1), m)

  -- The response of one device, from its own address to the sender of the request.
  abbrev pub from_device : Addr → D → Apdu → Apdu
  from_device peer d b = set_peer_addr (some peer) (set_host_addr (host.get_host_addr d) b)

  abbrev pub answer_if : Bool → Outcome Apdu → Outcome (List Apdu)
  answer_if true built = built >>= λ b. ret (b ∷ [])
  answer_if false built = ret []

  -- The loops of both `Response` that read addresses, over what a device answers.
  unfoldable pub read_addrs :
      (D → Outcome (List Apdu)) → List ℕ → List (ℕ × D) → Outcome (List Apdu)
  read_addrs answer [] ds = ret []
  read_addrs answer (id ∷ ids) ds = do
    mine ← elim (find id ds) [ none ↦ ret [] | some d ↦ answer d ]
    rest ← read_addrs answer ids ds
    ret (mine ++ rest)

  -- `APDU_IndividualAddress_Read::Response`
  unfoldable pub respond_individual_address_read :
      Apdu → DeviceManager D → Outcome (List Apdu × Retcode)
  unfolding read_addrs get_all_devices build_address_response set_host_addr set_peer_addr
  respond_individual_address_read a m =
      let b = (build_address_response env (construct env individual_address_response) 0 0 0).0 in
      let answers = (do
        ids ← all_ids (get_all_devices m 1024)
        bs ←
            read_addrs
              (λ d.
                answer_if (is_individual_address_read_enabled d) (ret (from_device a.hostaddr d b)))
              ids m.devs
        ret (bs, success)) in
      if a.recved_apdu then answers else ret ([], failure 1)

  -- A device with the serial number answers with it.
  abbrev pub serial_answer : Apdu → D → Outcome (List Apdu)
  unfolding build_serial_response slice same_serial
  serial_answer a d = do
    mine ← serial_is (get_serial_num d) (slice a.apdu_mem 2 6)
    answer_if mine (do
      (b, code) ←
          build_serial_response env (construct env individual_address_serial_number_response) 0 0 0
            (get_serial_num d)
      ret (from_device a.hostaddr d b))

  -- `APDU_IndividualAddressSerialNumber_Read::Response`
  unfoldable pub respond_serial_number_read : Apdu → DeviceManager D → Outcome (List Apdu × Retcode)
  unfolding read_addrs get_all_devices serial_answer
  respond_serial_number_read a m =
      let answers = (do
        ids ← all_ids (get_all_devices m 1024)
        bs ← read_addrs (serial_answer a) ids m.devs
        ret (bs, success)) in
      if a.recved_apdu then answers else ret ([], failure 1)
