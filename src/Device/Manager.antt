-- ===== src/Device/Manager.antt =====
-- The class DeviceManager over any implementation of IDevice. The map from device numbers to
-- devices is a list in the order of the keys, and an iterator is an index into it.
use edifice.Base.{
  ltb, ℕ, zero, suc, ◌+◌, ◌-◌, ◌%◌, ◌^◌, Bool, true, false, if◌then◌else◌, ◌==◌, leb, ◌&&◌, ◌||◌,
  List, [], ◌∷◌, Option, none, some, Outcome, ret, fault, ◌>>=◌, length, get_elem?,
}
use edifice.Apdu.Types.{Addr}

-- `memcmp(a, b, 2) == 0`
abbrev pub addr_eq : Addr → Addr → Bool
addr_eq a b = a.high == b.high && a.low == b.low

-- The operations of IDevice that the manager and the frames call.
pub record IDevice (D : Type 0) : Type 0 where
  pub get_host_addr : D → Option Addr
  pub exist_this_group_addr : D → Addr → Bool

pub record DeviceManager (D : Type 0) : Type 0 where
  pub inited : Bool
  pub devs : List (ℕ × D)
  pub ite4nextdev : ℕ
  pub next_ava_id : ℕ

-- Whether a device has an address, and that one.
abbrev pub host_addr_is : Option Addr → Addr → Bool
host_addr_is none addr = false
host_addr_is (some h) addr = addr_eq h addr

module _ {D : Type 0} where
  -- `m_devs.find(dev_id)`
  unfoldable pub find : ℕ → List (ℕ × D) → Option D
  find k [] = none
  find k ((j, d) ∷ ds) = if j == k then some d else find k ds

  unfoldable pub get_device_by_id : DeviceManager D → ℕ → Option D
  get_device_by_id m dev_id = find dev_id m.devs

  unfoldable pub erase : ℕ → List (ℕ × D) → List (ℕ × D)
  erase k [] = []
  erase k ((j, d) ∷ ds) = if j == k then ds else (j, d) ∷ erase k ds

  -- The index of a number among the keys.
  abbrev pub index_of : ℕ → List (ℕ × D) → ℕ
  index_of k [] = 0
  index_of k ((j, d) ∷ ds) = if j == k then 0 else suc (index_of k ds)

  -- What is done with the entry that was found, or not found. The iterator stays at its entry, whose index is
  -- one less if an earlier entry is taken out. (At the removed entry itself the iterator of the map is
  -- invalid until the next restart; here it goes on to the entry behind.)
  abbrev pub take_out : Option D → ℕ → DeviceManager D → DeviceManager D × Bool
  take_out none dev_id m = (m, false)
  take_out (some d) dev_id m = (
    record m {
      devs = erase dev_id m.devs;
      ite4nextdev =
          if ltb (index_of dev_id m.devs) m.ite4nextdev then m.ite4nextdev - 1 else m.ite4nextdev;
    },
    true,
  )

  -- `RemoveDev`: the device is taken out of the map; `false` if it is not there.
  unfoldable pub remove_dev : DeviceManager D → ℕ → DeviceManager D × Bool
  remove_dev m dev_id = take_out (find dev_id m.devs) dev_id m

  -- The numbers that `GetAllDevices` reports: all but the special one.
  unfoldable pub reported_ids : List (ℕ × D) → List ℕ
  reported_ids [] = []
  reported_ids ((j, d) ∷ ds) =
      let rest = reported_ids ds in if j == 0xffff_ffff then rest else j ∷ rest

  -- `GetAllDevices` with a buffer for `buff_len` numbers: the numbers, or `none` and the room wanted.
  unfoldable pub get_all_devices : DeviceManager D → ℕ → Option (List ℕ) × ℕ
  unfolding reported_ids
  get_all_devices m buff_len =
      if leb (length m.devs) buff_len
      then (some (reported_ids m.devs), length (reported_ids m.devs))
      else (none, length m.devs)

  -- A number that is not found is the answer.
  abbrev pub free_or : Option D → ℕ → Option ℕ → Option ℕ
  free_or none id rest = some id
  free_or (some d) id rest = rest

  -- The loop of `NextAvaID`; a `uint` wraps. Out of fuel it answers `none`.
  unfoldable pub next_ava_id_loop : ℕ → List (ℕ × D) → ℕ → Option ℕ
  next_ava_id_loop zero ds id = none
  next_ava_id_loop (suc fuel) ds id =
      let rest = next_ava_id_loop fuel ds ((id + 1) % 2 ^ 32) in free_or (find id ds) id rest

  -- `NextDevice`. Reading through the iterator at the end of the map is a fault.
  unfoldable pub next_device : Bool → DeviceManager D → Outcome (Option D × DeviceManager D)
  next_device restart m =
      if m.inited
      then if restart
        then elim (get_elem? m.devs 0) [
          | none ↦ fault
          | some (j, d) ↦ ret (some d, record m { ite4nextdev = 1 })
        ]
        else elim (get_elem? m.devs m.ite4nextdev) [
          | none ↦ ret (none, record m { ite4nextdev = 0 })
          | some (j, d) ↦ ret (some d, record m { ite4nextdev = m.ite4nextdev + 1 })
        ]
      else ret (none, m)

module _ {D : Type 0} (dev : IDevice D) where
  open dev use {get_host_addr, exist_this_group_addr}

  -- The search of `GetDeviceByDAddr`.
  unfoldable pub find_by_addr : Addr → List (ℕ × D) → Option D
  find_by_addr addr [] = none
  find_by_addr addr ((j, d) ∷ ds) =
      if host_addr_is (get_host_addr d) addr then some d else find_by_addr addr ds

  unfoldable pub get_device_by_daddr : DeviceManager D → Option Addr → Option D
  unfolding find_by_addr
  get_device_by_daddr m none = none
  get_device_by_daddr m (some addr) = find_by_addr addr m.devs

  -- `ExistThisGroupAddr` of the manager.
  unfoldable pub exist_group_addr : Addr → List (ℕ × D) → Bool
  exist_group_addr addr [] = false
  exist_group_addr addr ((j, d) ∷ ds) = exist_this_group_addr d addr || exist_group_addr addr ds

  -- `for (dev = NextDevice(true); dev; dev = NextDevice(false))` until a device has the address:
  -- the search that the frames make. Each round takes one step of the iterator.
  unfoldable pub host_loop :
      ℕ → Addr → Option D → DeviceManager D → Outcome (Bool × DeviceManager D)
  unfolding next_device
  host_loop fuel addr none m = ret (false, m)
  host_loop zero addr (some d) m = fault
  host_loop (suc fuel) addr (some d) m =
      let rest = next_device false m >>= λ p. host_loop fuel addr p.0 p.1 in
      if host_addr_is (get_host_addr d) addr then ret (true, m) else rest

  -- One round more than there are devices.
  unfoldable pub some_host_has : Addr → DeviceManager D → Outcome (Bool × DeviceManager D)
  unfolding host_loop next_device
  some_host_has addr m = next_device true m >>= λ p. host_loop (suc (length m.devs)) addr p.0 p.1
