-- ===== src/Device/Visits.antt =====
-- The iterator of DeviceManager visits every device, and the search over it ends.
use edifice.Base.{
  ℕ, suc, ◌+◌, ◌≤◌, Bool, true, false, ◌||◌, List, [], ◌∷◌, ◌++◌, get_elem?, length, some, none,
  Outcome, ret, ◌≡◌, refl, sym, ap, ◌∙◌, arith, Bool-cases, inl, inr, length-append, Option,
}
use edifice.Device.Manager.{
  find_by_addr, get_device_by_daddr, IDevice, DeviceManager, host_addr_is, next_device, host_loop,
  some_host_has,
}
use edifice.Apdu.Types.{Addr}
use mathlib.Core.Path.{subst}

get_elem?-append :
    {A : Type 0} (front back : List A) (x : A)
    → get_elem? (front ++ (x ∷ back)) (length front) ≡ some x
get_elem?-append [] back x = refl
get_elem?-append (y ∷ front) back x = get_elem?-append front back x

get_elem?-end : {A : Type 0} (front : List A) → get_elem? (front ++ []) (length front) ≡ none
get_elem?-end [] = refl
get_elem?-end (y ∷ front) = get_elem?-end front

shift_front :
    {A : Type 0} (front back : List A) (x : A) → front ++ (x ∷ back) ≡ (front ++ (x ∷ [])) ++ back
shift_front [] back x = refl
shift_front (y ∷ front) back x = ap (λ zs. y ∷ zs) (shift_front front back x)

module _ {D : Type 0} where
  -- The search returned this answer, and kept the devices.
  abbrev pub Answers : Outcome (Bool × DeviceManager D) → Bool → DeviceManager D → Type 0
  Answers o b m =
      (r : Bool × DeviceManager D) × (o ≡ ret r)
      × (r.0 ≡ b)
      × (r.1.devs ≡ m.devs)
      × (r.1.inited ≡ m.inited)

module _ {D : Type 0} (dev : IDevice D) where
  -- Some device of the table has the address.
  abbrev pub host_among : Addr → List (ℕ × D) → Bool
  host_among addr [] = false
  host_among addr ((j, d) ∷ ds) = host_addr_is (dev.get_host_addr d) addr || host_among addr ds

  -- One step of the iterator, in front of an entry.
  step_at :
      (front ds : List (ℕ × D)) (k : ℕ) (x : D) (m : DeviceManager D)
      → m.inited ≡ true
      → m.devs ≡ front ++ ((k, x) ∷ ds)
      → m.ite4nextdev ≡ length front
      → next_device false m ≡ ret (some x, record m { ite4nextdev = m.ite4nextdev + 1 })
  unfolding next_device
  step_at front ds k x m hi hd hn =
      let e : get_elem? m.devs m.ite4nextdev ≡ some (k, x) =
        rw (hd, hn, get_elem?-append front ds (k, x)) in
      rw (hi, e) (rw hi)

  step_end :
      (front : List (ℕ × D)) (m : DeviceManager D)
      → m.inited ≡ true
      → m.devs ≡ front ++ []
      → m.ite4nextdev ≡ length front
      → next_device false m ≡ ret (none, record m { ite4nextdev = 0 })
  unfolding next_device
  step_end front m hi hd hn =
      let e : get_elem? m.devs m.ite4nextdev ≡ none = rw (hd, hn, get_elem?-end front) in
      rw (hi, e) (rw hi)

  host_loop-Answers :
      (addr : Addr) (front ds : List (ℕ × D)) (d : D) (m : DeviceManager D)
      → m.inited ≡ true
      → m.devs ≡ front ++ ds
      → m.ite4nextdev ≡ length front
      → Answers
          (host_loop dev (suc (suc (length ds))) addr (some d) m)
          (host_addr_is (dev.get_host_addr d) addr || host_among addr ds)
          m
  unfolding host_loop
  host_loop-Answers addr front [] d m hi hd hn =
      elim (Bool-cases (host_addr_is (dev.get_host_addr d) addr)) [
        | inl e ↦ ((true, m), rw e, rw e, refl, refl)
        | inr e ↦ (
          (false, record m { ite4nextdev = 0 }),
          rw (e, step_end front m hi hd hn),
          rw e,
          refl,
          refl,
        )
      ]
  host_loop-Answers addr front ((k, x) ∷ ds) d m hi hd hn =
      elim (Bool-cases (host_addr_is (dev.get_host_addr d) addr)) [
        | inl e ↦ ((true, m), rw e, rw e, refl, refl)
        | inr e ↦
            let m' = record m { ite4nextdev = m.ite4nextdev + 1 } in
            let (r, found, answer, kept, ready) =
              host_loop-Answers addr (front ++ ((k, x) ∷ [])) ds x m' hi
                (hd ∙ shift_front front ds (k, x))
                (omega (arith, hn, length-append front ((k, x) ∷ []))) in
            (r, rw (e, step_at front ds k x m hi hd hn) found, rw e answer, kept, ready)
      ]

  step_first :
      (m : DeviceManager D) (j : ℕ) (d : D) (ds : List (ℕ × D))
      → m.inited ≡ true
      → m.devs ≡ (j, d) ∷ ds
      → next_device true m ≡ ret (some d, record m { ite4nextdev = 1 })
  unfolding next_device
  step_first m j d ds hi hd = let e : get_elem? m.devs 0 ≡ some (j, d) = rw hd in rw (hi, e) (rw hi)

  search_over :
      (addr : Addr) (m : DeviceManager D) (j : ℕ) (d : D) (ds : List (ℕ × D))
      → m.inited ≡ true
      → m.devs ≡ (j, d) ∷ ds
      → Answers (some_host_has dev addr m) (host_among addr m.devs) m
  unfolding some_host_has
  search_over addr m j d ds hi hd =
      let m' = record m { ite4nextdev = 1 } in
      let (r, found, answer, kept, ready) =
        host_loop-Answers addr ((j, d) ∷ []) ds d m' hi hd refl in
      (
        r,
        rw (step_first m j d ds hi hd) (
            subst (λ n. host_loop dev (suc n) addr (some d) m' ≡ ret r) (sym (ap length hd)) found),
        rw hd answer,
        kept,
        ready,
      )

  -- The search that the frames make over an initialised table with at least one device: it ends, it
  -- answers whether any device of the table has the address, and it leaves the devices and the
  -- initialised flag as they were.
  pub some_host_has-host_among :
      (addr : Addr) (m : DeviceManager D)
      → m.inited ≡ true
      → 1 ≤ length m.devs
      → Answers (some_host_has dev addr m) (host_among addr m.devs) m
  some_host_has-host_among addr m hi lo = by_devs m.devs refl
    where
      by_devs :
          (l : List (ℕ × D))
          → m.devs ≡ l
          → Answers (some_host_has dev addr m) (host_among addr m.devs) m
      by_devs [] e = absurd (omega (arith, lo, ap length e))
      by_devs ((j, d) ∷ ds) e = search_over addr m j d ds hi e

  -- What a lookup by address found: a device with the address, or nothing because there is none.
  abbrev pub Finds : Addr → Option D → Bool → Type 0
  Finds addr none b = b ≡ false
  Finds addr (some d) b = (host_addr_is (dev.get_host_addr d) addr ≡ true) × (b ≡ true)

  find_by_addr-Finds :
      (addr : Addr) (ds : List (ℕ × D)) → Finds addr (find_by_addr dev addr ds) (host_among addr ds)
  unfolding find_by_addr
  find_by_addr-Finds addr [] = refl
  find_by_addr-Finds addr ((j, d) ∷ ds) =
      elim (Bool-cases (host_addr_is (dev.get_host_addr d) addr)) [
        | inl e ↦ rw e (e, refl)
        | inr e ↦ rw e (find_by_addr-Finds addr ds)
      ]

  -- The two searches agree: on an initialised table with at least one device, `GetDeviceByDAddr` finds a
  -- device, and then one with the address, exactly where the iterator's search answers true.
  get_device_by_daddr-some_host_has :
      (addr : Addr) (m : DeviceManager D)
      → m.inited ≡ true
      → 1 ≤ length m.devs
      → (r : Bool × DeviceManager D) × (some_host_has dev addr m ≡ ret r)
        × Finds addr (get_device_by_daddr dev m (some addr)) r.0
  unfolding get_device_by_daddr
  get_device_by_daddr-some_host_has addr m hi lo =
      let (r, found, answer, _, _) = some_host_has-host_among addr m hi lo in
      (r, found, rw answer (find_by_addr-Finds addr m.devs))
