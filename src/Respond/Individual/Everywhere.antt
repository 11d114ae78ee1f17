-- ===== src/Respond/Individual/Everywhere.antt =====
-- Which devices get a new address by `Response` of APDU_IndividualAddress_Write (EIBCommNEO/apdu.cpp).
use edifice.Base.{
  ℕ, ◌≤◌, ◌≡◌, refl, ap, ◌∙◌, arith, inl, inr, true, false, leb, if◌then◌else◌, ◌==◌, All, List, [],
  ◌∷◌, length, Option, none, some, ret, ◌>>=◌, Bool-cases, success,
}
use edifice.Apdu.Types.{Env, Apdu, Addr}
use edifice.Apdu.IndividualAddress.{load_address}
use edifice.Device.Manager.{DeviceManager, find, reported_ids, get_all_devices}
use edifice.Device.Removal.{Above, IsAscending, Above-IsAscending}
use edifice.Respond.Writing.{Writers}
use edifice.Respond.Individual.{
  change_at, given_addr, write_addrs, respond_individual_address_write,
}

module _ {D : Type 0} (svc : Writers D) (env : Env) (addr : Addr) where
  -- A device that accepts an address has it, but for the emulator's own.
  abbrev readdressed_device : ℕ → D → D
  readdressed_device j d =
      if j == 0xffff_ffff
      then d
      else if svc.is_individual_address_write_enabled d
      then (svc.write_host_addr d addr).0
      else d

  -- All devices, at their numbers.
  unfoldable pub readdressed : List (ℕ × D) → List (ℕ × D)
  readdressed [] = []
  readdressed ((j, d) ∷ ds) = (j, readdressed_device j d) ∷ readdressed ds

  -- One round of the loop, and the loop, without failures.
  given_to : ℕ → Option D → List (ℕ × D) → List (ℕ × D)
  given_to id none ds = ds
  given_to id (some d) ds =
      if svc.is_individual_address_write_enabled d
      then change_at id (svc.write_host_addr d addr).0 ds
      else ds

  given_to_all : List ℕ → List (ℕ × D) → List (ℕ × D)
  unfolding given_to
  given_to_all [] ds = ds
  given_to_all (id ∷ ids) ds = given_to_all ids (given_to id (find id ds) ds)

  given_addr-given_to :
      (id : ℕ) (o : Option D) (ds : List (ℕ × D))
      → given_addr svc env (λ d. ret (svc.is_individual_address_write_enabled d)) (ret addr) id o ds
        ≡ ret (given_to id o ds)
  unfolding given_addr given_to
  given_addr-given_to id none ds = refl
  given_addr-given_to id (some d) ds =
      elim (Bool-cases (svc.is_individual_address_write_enabled d)) [
        | inl e ↦ rw e refl
        | inr e ↦ rw e refl
      ]

  write_addrs-given_to_all :
      (ids : List ℕ) (ds : List (ℕ × D))
      → write_addrs svc env (λ d. ret (svc.is_individual_address_write_enabled d)) (ret addr) ids ds
        ≡ ret (given_to_all ids ds)
  unfolding write_addrs given_to_all
  write_addrs-given_to_all [] ds = refl
  write_addrs-given_to_all (id ∷ ids) ds =
      ap
        (λ x. x >>= λ ds'.
          write_addrs svc env (λ d. ret (svc.is_individual_address_write_enabled d)) (ret addr) ids
            ds')
        (given_addr-given_to id (find id ds) ds)
      ∙ write_addrs-given_to_all ids (given_to id (find id ds) ds)

  -- A round leaves a device of another number in front.
  given_to-other :
      (i id : ℕ) (x : D) (o : Option D) (ds : List (ℕ × D))
      → (i == id) ≡ false
      → given_to id o ((i, x) ∷ ds) ≡ (i, x) ∷ given_to id o ds
  unfolding given_to change_at
  given_to-other i id x none ds other = refl
  given_to-other i id x (some d) ds other =
      elim (Bool-cases (svc.is_individual_address_write_enabled d)) [
        | inl e ↦ rw (e, other) refl
        | inr e ↦ rw e refl
      ]

  given_to_all-other :
      (i : ℕ) (x : D) (ids : List ℕ) (ds : List (ℕ × D))
      → All (λ id. (i == id) ≡ false) ids
      → given_to_all ids ((i, x) ∷ ds) ≡ (i, x) ∷ given_to_all ids ds
  unfolding given_to_all find
  given_to_all-other i x [] ds others = refl
  given_to_all-other i x (id ∷ ids) ds (other, others) = rw other (
      ap (given_to_all ids) (given_to-other i id x (find id ds) ds other)
      ∙ given_to_all-other i x ids (given_to id (find id ds) ds) others)

  reported_ids-other :
      (i k : ℕ) (ds : List (ℕ × D))
      → i ≤ k
      → Above k ds
      → All (λ id. (i == id) ≡ false) (reported_ids ds)
  unfolding reported_ids
  reported_ids-other i k [] le above = tt
  reported_ids-other i k ((j, d) ∷ ds) le (lt, above) = elim (Bool-cases (j == 0xffff_ffff)) [
    | inl e ↦ rw e (reported_ids-other i j ds (omega arith) above)
    | inr e ↦ rw e (ground arith, reported_ids-other i j ds (omega arith) above)
  ]

  given_to-own :
      (j : ℕ) (d : D) (ds : List (ℕ × D))
      → (j == 0xffff_ffff) ≡ false
      → given_to j (find j ((j, d) ∷ ds)) ((j, d) ∷ ds) ≡ (j, readdressed_device j d) ∷ ds
  unfolding given_to find change_at
  given_to-own j d ds special =
      let same : (j == j) ≡ true = ground arith in
      elim (Bool-cases (svc.is_individual_address_write_enabled d)) [
        | inl e ↦ rw (same, e, special) (rw same refl)
        | inr e ↦ rw (same, e, special) refl
      ]

  given_to_all-readdressed :
      (ds : List (ℕ × D)) → IsAscending ds → given_to_all (reported_ids ds) ds ≡ readdressed ds
  unfolding given_to_all reported_ids readdressed
  given_to_all-readdressed [] ordered = refl
  given_to_all-readdressed ((j, d) ∷ ds) above =
      let others = reported_ids-other j j ds (omega arith) above in
      let rest = given_to_all-readdressed ds (Above-IsAscending j ds above) in
      elim (Bool-cases (j == 0xffff_ffff)) [
        | inl e ↦
            rw e (given_to_all-other j d (reported_ids ds) ds others ∙ ap (λ l. (j, d) ∷ l) rest)
        | inr e ↦
            (let reported : reported_ids ((j, d) ∷ ds) ≡ j ∷ reported_ids ds = rw e refl in
              ap (λ ids. given_to_all ids ((j, d) ∷ ds)) reported
              ∙ ap (given_to_all (reported_ids ds)) (given_to-own j d ds e)
              ∙ given_to_all-other j (readdressed_device j d) (reported_ids ds) ds others
              ∙ ap (λ l. (j, readdressed_device j d) ∷ l) rest)
      ]

  -- A received request to set the individual address, with a table of at most 1024 devices in the order of their numbers:
  -- every device that accepts an address now gets the address of the request, but for the emulator's own device,
  -- whose number is 0xffffffff; every other device stays as it is, the order stays, and nothing is answered.
  pub respond_individual_address_write-readdressed :
      (a : Apdu) (m : DeviceManager D)
      → a.recved_apdu ≡ true
      → load_address a.apdu_mem 2 ≡ ret addr
      → length m.devs ≤ 1024
      → IsAscending m.devs
      → respond_individual_address_write svc env a m
        ≡ ret (([], success), record m { devs = readdressed m.devs })
  unfolding respond_individual_address_write get_all_devices
  respond_individual_address_write-readdressed a m received says room ordered =
      let fits : leb (length m.devs) 1024 ≡ true = ground arith in
      rw
        (
          received,
          says,
          fits,
          write_addrs-given_to_all (reported_ids m.devs) m.devs,
          given_to_all-readdressed m.devs ordered,
        )
        refl
