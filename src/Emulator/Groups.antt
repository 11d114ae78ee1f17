-- ===== src/Emulator/Groups.antt =====
-- `GroupValue_Read`, `GroupValue_Write`, `IndividualAddress_*`, `IndividualAddressSerialNumber_*` of EIBEmulatorImpl
-- (EIBCommNEO/EIBEmulatorImpl.cpp): requests that many devices may answer.
use edifice.Base.{
  ℕ, ◌+◌, ◌%◌, Bool, true, false, not, if◌then◌else◌, ◌==◌, ltb, List, [], ◌∷◌, ◌++◌, length,
  Option, none, some, Outcome, ret, fault, ◌>>=◌, slice, Retcode,
}
use edifice.Apdu.Types.{
  Env, Apdu, Addr, construct, set_host_addr, set_peer_addr, group_value_read, group_value_response,
  group_value_write, individual_address_read, individual_address_response, individual_address_write,
  individual_address_serial_number_read, individual_address_serial_number_response,
  individual_address_serial_number_write,
}
use edifice.Apdu.GroupValue.{build_read, build_write, get_response_params}
use edifice.Apdu.IndividualAddress.{
  build_address_read, build_address_write, build_serial_read, build_serial_write, get_serial_params,
}
use edifice.Frame.Types.{Frame, get_host_addr}
use edifice.Frame.Build.{build_frame_from_apdu}
use edifice.Channel.Waiting.{ResponseType, response_sending_okay}
use edifice.Respond.Individual.{same_serial}
use edifice.Emulator.Comm.{Comm}
use edifice.Emulator.Exchange.{
  Emulator, Return, okay, minus, is_normal, opened, classed, set_dev_host_addr,
  tx_rx_till_timeout_sync,
}
use edifice.Emulator.Records.{Given, failed, given}

-- The last frame that was received.
unfoldable pub last_frame : List Frame → Option Frame
last_frame [] = none
last_frame (f ∷ []) = some f
last_frame (f ∷ g ∷ fs) = last_frame (g ∷ fs)

-- The value of a group answer.
unfoldable pub group_value_of : ℕ → Option Apdu → Outcome (Given (List ℕ))
unfolding get_response_params
group_value_of room none = ret (failed 1)
group_value_of room (some a) = get_response_params a room >>= λ o. ret (value_or o)
  where
    value_or : Option (List ℕ × ℕ) → Given (List ℕ)
    value_or none = failed 2
    value_or (some (bytes, n)) = if n == 0 then failed 2 else given bytes

-- `memcpy(buxx + buxx_used, frame->GetHostAddr(), 2)` into a buffer of 1024 bytes.
unfoldable pub add_host : List ℕ → Option Addr → Outcome (List ℕ)
add_host used none = fault
add_host used (some a) =
    if ltb 1024 (length used + 2) then fault else ret (used ++ (a.high ∷ a.low ∷ []))

-- The host of a frame, if its APDU is an answer that counts.
unfoldable pub host_of_answer : List ℕ → Frame → Bool → Outcome (List ℕ)
unfolding add_host get_host_addr
host_of_answer used f false = ret used
host_of_answer used f true = get_host_addr f >>= λ h. add_host used h

-- The loop over the received frames.
unfoldable pub collect_hosts :
    Env → (Option Apdu → Outcome Bool) → List Frame → List ℕ → Outcome (List ℕ)
unfolding host_of_answer opened
collect_hosts env counts [] used = ret used
collect_hosts env counts (f ∷ fs) used = do
  a ← opened env (some f)
  counted ← counts a
  used' ← host_of_answer used f counted
  collect_hosts env counts fs used'

unfoldable pub is_given : Option Apdu → Bool
is_given none = false
is_given (some a) = true

-- An answer to the request for addresses.
unfoldable pub counts_address : Option Apdu → Outcome Bool
unfolding classed is_given
counts_address a = ret (is_given (classed individual_address_response a))

-- An answer to the request for the address of a device by its serial number.
unfoldable pub counts_serial : List ℕ → Option Apdu → Outcome Bool
unfolding classed get_serial_params same_serial slice
counts_serial serial_num a = serial_counts (classed individual_address_serial_number_response a)
  where
    serial_counts : Option Apdu → Outcome Bool
    serial_counts none = ret false
    serial_counts (some b) = do
      serialno ← get_serial_params b
      asked ← slice serial_num 0 6
      ret (same_serial serialno asked)

-- The addresses, if there is room for them.
unfoldable pub hosts_given : ℕ → List ℕ → Given (List ℕ)
hosts_given room used = if ltb room (length used) then failed 3 else given used

-- The hosts of the answers, if there are any.
unfoldable pub hosts_of :
    Env → (Option Apdu → Outcome Bool) → ℕ → ResponseType → List Frame → Outcome (Given (List ℕ))
unfolding collect_hosts hosts_given
hosts_of env counts room r [] = ret (failed 1)
hosts_of env counts room r (f ∷ fs) =
    let hosts = collect_hosts env counts (f ∷ fs) [] >>= λ used. ret (hosts_given room used) in
    if is_normal r then hosts else ret (failed 1)

-- The return code of a request that nobody answers.
unfoldable pub sent_return : ResponseType → Return
sent_return response_sending_okay = okay
sent_return _ = minus 3

module _ {S D : Type 0} (c : Comm S) (write_host_addr : D → Option Addr → D × Retcode) (env : Env)
    (fuel : ℕ) where
  -- The part that the requests to many devices share.
  unfoldable pub exchange_all :
      Option Addr → Apdu → Emulator S D → Outcome ((ResponseType × List Frame) × Emulator S D)
  unfolding set_dev_host_addr tx_rx_till_timeout_sync
  exchange_all host a e = do
    let e₁ = (set_dev_host_addr c write_host_addr env 0xffff_ffff host e).0
    f ← build_frame_from_apdu (set_host_addr host a)
    (answers, s) ← tx_rx_till_timeout_sync c write_host_addr env fuel e₁.comm f
    ret (answers, record e₁ { comm = s })

  -- And the part that the requests without an answer share.
  unfoldable pub send_only : Option Addr → Apdu → Emulator S D → Outcome (Return × Emulator S D)
  unfolding set_dev_host_addr sent_return
  send_only host a e = do
    let e₁ = (set_dev_host_addr c write_host_addr env 0xffff_ffff host e).0
    f ← build_frame_from_apdu (set_host_addr host a)
    let (r, s) = c.tx_sync e₁.comm f
    ret (sent_return r, record e₁ { comm = s })

  abbrev pub group_value_read_with :
      Option Addr → Option Addr → Option ℕ → Emulator S D → Outcome (Given (List ℕ) × Emulator S D)
  unfolding exchange_all group_value_of classed opened
  group_value_read_with (some host) (some peer) (some room) e = do
    ((r, frames), e₁) ←
        exchange_all (some host)
          (build_read env (construct env group_value_read) 0 0 7 (some peer)).0 e
    a ← opened env (if is_normal r then last_frame frames else none)
    reply ← group_value_of room (classed group_value_response a)
    ret (reply, e₁)
  group_value_read_with _ _ _ e = ret (failed 2, e)

  -- `GroupValue_Read`
  unfoldable pub group_value_read_from :
      Option Addr → Option Addr → Option ℕ → Emulator S D → Outcome (Given (List ℕ) × Emulator S D)
  group_value_read_from host peer room e =
      let asked = group_value_read_with host peer room e in
      if not e.inited then ret (failed 1, e) else asked

  abbrev pub group_value_write_with :
      Option Addr
      → Option Addr
      → Option (List ℕ)
      → ℕ
      → Emulator S D
      → Outcome (Return × Emulator S D)
  unfolding send_only
  group_value_write_with (some host) (some peer) (some buff) buff_len_in_bit e = do
    (a, code) ←
        build_write env (construct env group_value_write) 0 0 7 (some peer) buff
          (buff_len_in_bit % 65536)
    send_only (some host) a e
  group_value_write_with _ _ _ buff_len_in_bit e = ret (minus 2, e)

  -- `GroupValue_Write`, whose length goes through a `USHORT`.
  unfoldable pub group_value_write_to :
      Option Addr
      → Option Addr
      → Option (List ℕ)
      → ℕ
      → Emulator S D
      → Outcome (Return × Emulator S D)
  group_value_write_to host peer buff buff_len_in_bit e =
      let sent = group_value_write_with host peer buff buff_len_in_bit e in
      if not e.inited then ret (minus 1, e) else sent

  abbrev pub individual_address_read_with :
      Option Addr → Option ℕ → Emulator S D → Outcome (Given (List ℕ) × Emulator S D)
  unfolding exchange_all hosts_of
  individual_address_read_with (some host) (some room) e = do
    let a = (build_address_read env (construct env individual_address_read) 0 0 7).0
    ((r, frames), e₁) ← exchange_all (some host) (set_peer_addr (some env.broadcast_addr) a) e
    reply ← hosts_of env counts_address room r frames
    ret (reply, e₁)
  individual_address_read_with _ _ e = ret (failed 2, e)

  -- `IndividualAddress_Read`
  unfoldable pub individual_address_read_from :
      Option Addr → Option ℕ → Emulator S D → Outcome (Given (List ℕ) × Emulator S D)
  individual_address_read_from host room e =
      let asked = individual_address_read_with host room e in
      if not e.inited then ret (failed 1, e) else asked

  abbrev pub individual_address_write_with :
      Option Addr → Option Addr → Emulator S D → Outcome (Return × Emulator S D)
  unfolding send_only
  individual_address_write_with (some host) (some new_address) e = do
    (a, code) ←
        build_address_write env (construct env individual_address_write) 0 0 7 (some new_address)
    send_only (some host) (set_peer_addr (some env.broadcast_addr) a) e
  individual_address_write_with _ _ e = ret (minus 2, e)

  -- `IndividualAddress_Write`
  unfoldable pub individual_address_write_to :
      Option Addr → Option Addr → Emulator S D → Outcome (Return × Emulator S D)
  individual_address_write_to host new_address e =
      let sent = individual_address_write_with host new_address e in
      if not e.inited then ret (minus 1, e) else sent

  abbrev pub serial_number_read_with :
      Option Addr
      → Option (List ℕ)
      → Option ℕ
      → Emulator S D
      → Outcome (Given (List ℕ) × Emulator S D)
  unfolding exchange_all hosts_of
  serial_number_read_with (some host) (some serial_num) (some room) e = do
    (a, code) ←
        build_serial_read env (construct env individual_address_serial_number_read) 0 0 7
          (some serial_num)
    ((r, frames), e₁) ← exchange_all (some host) (set_peer_addr (some env.broadcast_addr) a) e
    reply ← hosts_of env (counts_serial serial_num) room r frames
    ret (reply, e₁)
  serial_number_read_with _ _ _ e = ret (failed 2, e)

  -- `IndividualAddressSerialNumber_Read`
  unfoldable pub serial_number_read_from :
      Option Addr
      → Option (List ℕ)
      → Option ℕ
      → Emulator S D
      → Outcome (Given (List ℕ) × Emulator S D)
  serial_number_read_from host serial_num room e =
      let asked = serial_number_read_with host serial_num room e in
      if not e.inited then ret (failed 1, e) else asked

  abbrev pub serial_number_write_with :
      Option Addr → Option (List ℕ) → Option Addr → Emulator S D → Outcome (Return × Emulator S D)
  unfolding send_only
  serial_number_write_with (some host) serial_num (some new_addr) e = do
    (a, code) ←
        build_serial_write env (construct env individual_address_serial_number_write) 0 0 7
          serial_num (some new_addr)
    send_only (some host) (set_peer_addr (some env.broadcast_addr) a) e
  serial_number_write_with _ serial_num _ e = ret (minus 2, e)

  -- `IndividualAddressSerialNumber_Write`
  unfoldable pub serial_number_write_to :
      Option Addr → Option (List ℕ) → Option Addr → Emulator S D → Outcome (Return × Emulator S D)
  serial_number_write_to host serial_num new_addr e =
      let sent = serial_number_write_with host serial_num new_addr e in
      if not e.inited then ret (minus 1, e) else sent
