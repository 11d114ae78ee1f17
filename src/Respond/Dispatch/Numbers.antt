-- ===== src/Respond/Dispatch/Numbers.antt =====
-- The device numbers before and after a frame is answered (EIBCommNEO/Frame.cpp, EIBCommNEO/apdu.cpp).
use edifice.Base.{
  ℕ, zero, suc, ◌+◌, ◌-◌, ◌≡◌, refl, sym, ap, ◌∙◌, inl, inr, Bool, true, false, if◌then◌else◌, ◌==◌,
  List, [], ◌∷◌, length, Option, some, none, Outcome, ret, fault, ◌>>=◌, >>=-eq-ret, Bool-cases,
  get_elem?, Retcode, success, failure,
}
use edifice.Apdu.Types.{Env, Apdu, Addr}
use edifice.Device.Manager.{
  IDevice, DeviceManager, host_addr_is, next_device, find, get_all_devices,
}
use edifice.Respond.Services.{Services, or_fault}
use edifice.Respond.Writing.{
  Writers, bytes_of, set_values_of, ack_of, ack_if_found, put_back, keep_first, at_daddr,
  answered_by, respond_property_value_write, respond_property_write, respond_user_memory_write,
}
use edifice.Respond.Linking.{
  Linkers, link_written, set_at, value_to_device, value_to_devices, respond_link_write,
  respond_group_value_write,
}
use edifice.Respond.Individual.{
  all_ids, serial_is, change_at, given_addr, write_addrs, respond_individual_address_write,
  respond_serial_number_write,
}
use edifice.Apdu.PropertyValue
use edifice.Apdu.UserMemory
use edifice.Apdu.Property.{get_property_write_params}
use edifice.Apdu.Link.{get_link_write_params}
use edifice.Apdu.IndividualAddress.{load_address, get_serial_write_params}

-- The numbers of the devices in a table.
unfoldable pub numbers : {D : Type 0} → List (ℕ × D) → List ℕ
numbers [] = []
numbers ((j, d) ∷ ds) = j ∷ numbers ds

-- What an operation returns, if it does, has these numbers.
abbrev pub Gives : {Y : Type 0} → (Y → List ℕ) → List ℕ → Outcome Y → Type 0
Gives {Y = Y} f ns o = (y : Y) → o ≡ ret y → f y ≡ ns

pub Gives-ret : {Y : Type 0} (f : Y → List ℕ) (ns : List ℕ) (y : Y) → f y ≡ ns → Gives f ns (ret y)
Gives-ret f ns y same y' e = let end : y ≡ y' = cc in ap f (sym end) ∙ same

pub Gives-bind :
    {A Y : Type 0} (f : Y → List ℕ) (ns : List ℕ) (o : Outcome A) (k : A → Outcome Y)
    → ((a : A) → o ≡ ret a → Gives f ns (k a))
    → Gives f ns (o >>= k)
Gives-bind f ns o k each y e = let (a, first, next) = >>=-eq-ret o k e in each a first y next

pub Gives-if :
    {Y : Type 0} (f : Y → List ℕ) (ns : List ℕ) (b : Bool) (o p : Outcome Y)
    → Gives f ns o
    → Gives f ns p
    → Gives f ns (if b then o else p)
Gives-if f ns true o p t e = t
Gives-if f ns false o p t e = e

module _ {D : Type 0} where
  -- Of a result with a list of devices, and of one with a table.
  abbrev pub list_numbers : {X : Type 0} → X × List (ℕ × D) → List ℕ
  list_numbers x = numbers x.1

  abbrev pub table_numbers : {X : Type 0} → X × DeviceManager D → List ℕ
  table_numbers x = numbers x.1.devs

  at_daddr-Gives :
      {A : Type 0} (dev : IDevice D) (addr : Addr) (operation : D → Outcome (D × A))
      (ds : List (ℕ × D))
      → Gives list_numbers (numbers ds) (at_daddr dev addr operation ds)
  unfolding at_daddr numbers
  at_daddr-Gives dev addr operation [] = Gives-ret list_numbers [] (none, []) refl
  at_daddr-Gives dev addr operation ((j, d) ∷ ds) =
      Gives-if list_numbers (j ∷ numbers ds) (host_addr_is (dev.get_host_addr d) addr) _ _
        (Gives-bind list_numbers (j ∷ numbers ds) (operation d) _
          (λ done e. Gives-ret list_numbers (j ∷ numbers ds) (put_back j ds done) refl))
        (Gives-bind list_numbers (j ∷ numbers ds) (at_daddr dev addr operation ds) _ (λ done e.
          Gives-ret list_numbers (j ∷ numbers ds) (keep_first (j, d) done)
            (ap (λ ns. j ∷ ns) (at_daddr-Gives dev addr operation ds done e))))

  numbers-change_at :
      (k : ℕ) (d' : D) (ds : List (ℕ × D)) → numbers (change_at k d' ds) ≡ numbers ds
  unfolding numbers change_at
  numbers-change_at k d' [] = refl
  numbers-change_at k d' ((j, d) ∷ ds) = elim (Bool-cases (j == k)) [
    | inl same ↦ rw same refl
    | inr other ↦ rw other (ap (λ ns. j ∷ ns) (numbers-change_at k d' ds))
  ]

  numbers-set_at : (i : ℕ) (d' : D) (ds : List (ℕ × D)) → numbers (set_at i d' ds) ≡ numbers ds
  unfolding numbers set_at
  numbers-set_at i d' [] = refl
  numbers-set_at zero d' ((j, d) ∷ ds) = refl
  numbers-set_at (suc i) d' ((j, d) ∷ ds) = ap (λ ns. j ∷ ns) (numbers-set_at i d' ds)

  next_device-Gives :
      (restart : Bool) (m : DeviceManager D)
      → Gives table_numbers (numbers m.devs) (next_device restart m)
  unfolding next_device
  next_device-Gives restart m =
      let ns : List ℕ = numbers m.devs in
      Gives-if table_numbers ns m.inited _ _
        (Gives-if table_numbers ns restart _ _
          (λ y e.
            elim (get_elem? m.devs 0)
                as (λ o.
                  (elim o [
                    | none ↦ fault
                    | some (j, d) ↦ ret (some d, record m { ite4nextdev = 1 })
                  ])
                    ≡ ret y
                  → numbers y.1.devs ≡ ns) [
                    | none ↦ λ q. cc
                    | some (j, d) ↦ λ q.
                        Gives-ret table_numbers ns (some d, record m { ite4nextdev = 1 }) refl y q
                  ]
              e)
          (λ y e.
            elim (get_elem? m.devs m.ite4nextdev)
                as (λ o.
                  (elim o [
                    | none ↦ ret (none, record m { ite4nextdev = 0 })
                    | some (j, d) ↦ ret (some d, record m { ite4nextdev = m.ite4nextdev + 1 })
                  ])
                    ≡ ret y
                  → numbers y.1.devs ≡ ns) [
                    | none ↦ λ q.
                        Gives-ret table_numbers ns (none, record m { ite4nextdev = 0 }) refl y q
                    | some (j, d) ↦ λ q.
                        Gives-ret table_numbers ns
                          (some d, record m { ite4nextdev = m.ite4nextdev + 1 }) refl y q
                  ]
              e))
        (Gives-ret table_numbers ns (none, m) refl)

module _ {D : Type 0} (writers : Writers D) (linkers : Linkers D) (env : Env) where
  answered_by-Gives :
      (answer : Option Retcode → Apdu) (a : Apdu) (operation : D → Outcome (D × Retcode))
      (m : DeviceManager D)
      → Gives table_numbers (numbers m.devs) (answered_by writers env answer a operation m)
  unfolding answered_by
  answered_by-Gives answer a operation m =
      Gives-bind table_numbers (numbers m.devs) (at_daddr writers.host a.peeraddr operation m.devs)
        _
        (λ (r, ds) e.
          Gives-ret table_numbers (numbers m.devs) _
            (at_daddr-Gives writers.host a.peeraddr operation m.devs (r, ds) e))

  given_addr-Gives :
      (wants : D → Outcome Bool) (address : Outcome Addr) (id : ℕ) (o : Option D)
      (ds : List (ℕ × D)) (ns : List ℕ)
      → numbers ds ≡ ns
      → Gives numbers ns (given_addr writers env wants address id o ds)
  unfolding given_addr
  given_addr-Gives wants address id none ds ns same = Gives-ret numbers ns ds same
  given_addr-Gives wants address id (some d) ds ns same =
      Gives-bind numbers ns (wants d) _ (λ wanted e.
        Gives-if numbers ns wanted _ _
          (Gives-bind numbers ns address _ (λ addr e'.
            Gives-ret numbers ns (change_at id (writers.write_host_addr d addr).0 ds)
              (numbers-change_at id (writers.write_host_addr d addr).0 ds ∙ same)))
          (Gives-ret numbers ns ds same))

  write_addrs-Gives :
      (wants : D → Outcome Bool) (address : Outcome Addr) (ids : List ℕ) (ds : List (ℕ × D))
      (ns : List ℕ)
      → numbers ds ≡ ns
      → Gives numbers ns (write_addrs writers env wants address ids ds)
  unfolding write_addrs
  write_addrs-Gives wants address [] ds ns same = Gives-ret numbers ns ds same
  write_addrs-Gives wants address (id ∷ ids) ds ns same =
      Gives-bind numbers ns (given_addr writers env wants address id (find id ds) ds) _ (λ ds' e.
        write_addrs-Gives wants address ids ds' ns
          (given_addr-Gives wants address id (find id ds) ds ns same ds' e))

  value_to_devices-Gives :
      (fuel : ℕ) (a : Apdu) (o : Option D) (m : DeviceManager D) (ns : List ℕ)
      → numbers m.devs ≡ ns
      → Gives (λ m'. numbers m'.devs) ns (value_to_devices linkers env fuel a o m)
  unfolding value_to_devices
  value_to_devices-Gives fuel a none m ns same = Gives-ret (λ m'. numbers m'.devs) ns m same
  value_to_devices-Gives zero a (some d) m ns same = λ y e. cc
  value_to_devices-Gives (suc fuel) a (some d) m ns same =
      Gives-bind (λ m'. numbers m'.devs) ns (value_to_device linkers env a d) _
        (λ d' e.
          let m₁ = record m { devs = set_at (m.ite4nextdev - 1) d' m.devs } in
          Gives-bind (λ m'. numbers m'.devs) ns (next_device false m₁) _
            (λ (o, m₂) e'. value_to_devices-Gives fuel a o m₂ ns (
              next_device-Gives false m₁ (o, m₂) e'
              ∙ numbers-set_at (m.ite4nextdev - 1) d' m.devs
              ∙ same)))

  pub property_value_write-Gives :
      (a : Apdu) (m : DeviceManager D)
      → Gives table_numbers (numbers m.devs) (respond_property_value_write writers env a m)
  unfolding respond_property_value_write
  property_value_write-Gives a m =
      let ns : List ℕ = numbers m.devs in
      Gives-if table_numbers ns a.recved_apdu _ _
        (Gives-bind table_numbers ns (PropertyValue.get_write_params a 1024) _ (λ params e.
          Gives-bind table_numbers ns (or_fault params) _ (λ (p, c) e'.
            Gives-bind table_numbers ns (bytes_of c) _ (λ bytes e''.
              answered_by-Gives (ack_of env) a (set_values_of writers env p bytes) m))))
        (Gives-ret table_numbers ns ((none, failure 1), m) refl)

  pub property_write-Gives :
      (a : Apdu) (m : DeviceManager D)
      → Gives table_numbers (numbers m.devs) (respond_property_write writers env a m)
  unfolding respond_property_write
  property_write-Gives a m =
      let ns : List ℕ = numbers m.devs in
      Gives-if table_numbers ns a.recved_apdu _ _
        (Gives-bind table_numbers ns (get_property_write_params a) _ (λ params e.
          Gives-bind table_numbers ns (or_fault params) _ (λ (k, fields) e'.
            answered_by-Gives (ack_of env) a (λ d. writers.set_prop_fields d k fields) m)))
        (Gives-ret table_numbers ns ((none, failure 1), m) refl)

  pub user_memory_write-Gives :
      (a : Apdu) (m : DeviceManager D)
      → Gives table_numbers (numbers m.devs) (respond_user_memory_write writers env a m)
  unfolding respond_user_memory_write
  user_memory_write-Gives a m =
      let ns : List ℕ = numbers m.devs in
      Gives-if table_numbers ns a.recved_apdu _ _
        (Gives-bind table_numbers ns (UserMemory.get_write_params a 56) _ (λ params e.
          Gives-bind table_numbers ns (or_fault params) _ (λ ((number, address), c) e'.
            Gives-bind table_numbers ns (bytes_of c) _ (λ bytes e''.
              answered_by-Gives (ack_if_found env) a
                (λ d. writers.write_user_memory d address bytes) m))))
        (Gives-ret table_numbers ns ((none, failure 1), m) refl)

  pub link_write-Gives :
      (a : Apdu) (m : DeviceManager D)
      → Gives table_numbers (numbers m.devs) (respond_link_write linkers env a m)
  unfolding respond_link_write
  link_write-Gives a m =
      let ns : List ℕ = numbers m.devs in
      Gives-if table_numbers ns a.recved_apdu _ _
        (Gives-bind table_numbers ns (get_link_write_params a) _ (λ ((object, flags), addr) e.
          Gives-bind table_numbers ns
            (at_daddr (Services.host linkers.reads) a.peeraddr
              (link_written linkers env object flags addr) m.devs)
            _
            (λ (r, ds) e'. Gives-ret table_numbers ns _ (
              at_daddr-Gives (Services.host linkers.reads) a.peeraddr
                (link_written linkers env object flags addr) m.devs (r, ds) e'))))
        (Gives-ret table_numbers ns ((none, failure 1), m) refl)

  pub group_value_write-Gives :
      (a : Apdu) (m : DeviceManager D)
      → Gives table_numbers (numbers m.devs) (respond_group_value_write linkers env a m)
  unfolding respond_group_value_write
  group_value_write-Gives a m =
      let ns : List ℕ = numbers m.devs in
      Gives-if table_numbers ns a.recved_apdu _ _
        (Gives-bind table_numbers ns (next_device true m) _ (λ (o, m₁) e.
          Gives-bind table_numbers ns (value_to_devices linkers env (suc (length m.devs)) a o m₁) _
            (λ m₂ e'.
              Gives-ret table_numbers ns (([], success), m₂)
                (value_to_devices-Gives (suc (length m.devs)) a o m₁ ns
                  (next_device-Gives true m (o, m₁) e) m₂ e'))))
        (Gives-ret table_numbers ns (([], failure 1), m) refl)

  pub individual_address_write-Gives :
      (a : Apdu) (m : DeviceManager D)
      → Gives table_numbers (numbers m.devs) (respond_individual_address_write writers env a m)
  unfolding respond_individual_address_write
  individual_address_write-Gives a m =
      let ns : List ℕ = numbers m.devs in
      Gives-if table_numbers ns a.recved_apdu _ _
        (Gives-bind table_numbers ns (all_ids (get_all_devices m 1024)) _ (λ ids e.
          Gives-bind table_numbers ns
            (write_addrs writers env (λ d. ret (writers.is_individual_address_write_enabled d))
              (load_address a.apdu_mem 2) ids m.devs)
            _
            (λ ds e'. Gives-ret table_numbers ns _ (
              write_addrs-Gives (λ d. ret (writers.is_individual_address_write_enabled d))
                (load_address a.apdu_mem 2) ids m.devs ns refl ds e'))))
        (Gives-ret table_numbers ns (([], failure 1), m) refl)

  pub serial_number_write-Gives :
      (a : Apdu) (m : DeviceManager D)
      → Gives table_numbers (numbers m.devs) (respond_serial_number_write writers env a m)
  unfolding respond_serial_number_write
  serial_number_write-Gives a m =
      let ns : List ℕ = numbers m.devs in
      Gives-if table_numbers ns a.recved_apdu _ _
        (Gives-bind table_numbers ns (get_serial_write_params a) _ (λ (serial_num, new_addr) e.
          Gives-bind table_numbers ns (all_ids (get_all_devices m 1024)) _ (λ ids e'.
            Gives-bind table_numbers ns
              (write_addrs writers env
                (λ d. serial_is writers env (writers.get_serial_num d) (ret serial_num))
                (ret new_addr) ids m.devs)
              _
              (λ ds e''. Gives-ret table_numbers ns _ (
                write_addrs-Gives
                  (λ d. serial_is writers env (writers.get_serial_num d) (ret serial_num))
                  (ret new_addr) ids m.devs ns refl ds e'')))))
        (Gives-ret table_numbers ns (([], failure 1), m) refl)
