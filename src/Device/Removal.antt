-- ===== src/Device/Removal.antt =====
-- Removing a device from the table.
use edifice.Base.{
  ℕ, ◌≤◌, ◌<◌, ◌≡◌, ◌≢◌, refl, arith, true, false, ◌==◌, List, [], ◌∷◌, some, none, Bool-cases, inl,
  inr,
}
use edifice.Device.Manager.{DeviceManager, find, erase, get_device_by_id, remove_dev, take_out}
use edifice.Device.Numbers.{find-erase}

module _ {D : Type 0} where
  -- The numbers ascend, from one above a bound.
  abbrev pub Above : ℕ → List (ℕ × D) → Type 0
  Above k [] = Unit
  Above k ((j, d) ∷ ds) = (k < j) × Above j ds

  -- The order of a map's keys, each of which stands there once.
  abbrev pub IsAscending : List (ℕ × D) → Type 0
  IsAscending [] = Unit
  IsAscending ((j, d) ∷ ds) = Above j ds

  find-Above : (k i : ℕ) (ds : List (ℕ × D)) → Above k ds → i ≤ k → find i ds ≡ none
  unfolding find
  find-Above k i [] h le = refl
  find-Above k i ((j, d) ∷ ds) (lt, h) le =
      let e : (j == i) ≡ false = ground arith in rw e (find-Above j i ds h (omega arith))

  Above-lower : (k l : ℕ) (ds : List (ℕ × D)) → l < k → Above k ds → Above l ds
  Above-lower k l [] lt h = tt
  Above-lower k l ((j, d) ∷ ds) lt (lt', h) = (omega arith, h)

  pub Above-IsAscending : (k : ℕ) (ds : List (ℕ × D)) → Above k ds → IsAscending ds
  Above-IsAscending k [] h = tt
  Above-IsAscending k ((j, d) ∷ ds) (lt, h) = h

  Above-erase : (k i : ℕ) (ds : List (ℕ × D)) → Above k ds → Above k (erase i ds)
  unfolding erase
  Above-erase k i [] h = tt
  Above-erase k i ((j, d) ∷ ds) (lt, h) = elim (Bool-cases (j == i)) [
    | inl e ↦ rw e (Above-lower j k ds lt h)
    | inr e ↦ rw e (lt, Above-erase j i ds h)
  ]

  erase-IsAscending : (i : ℕ) (ds : List (ℕ × D)) → IsAscending ds → IsAscending (erase i ds)
  unfolding erase
  erase-IsAscending i [] h = tt
  erase-IsAscending i ((j, d) ∷ ds) h = elim (Bool-cases (j == i)) [
    | inl e ↦ rw e (Above-IsAscending j ds h)
    | inr e ↦ rw e (Above-erase j i ds h)
  ]

  erased_absent : (i : ℕ) (ds : List (ℕ × D)) → IsAscending ds → find i (erase i ds) ≡ none
  unfolding find erase
  erased_absent i [] h = refl
  erased_absent i ((j, d) ∷ ds) h = elim (Bool-cases (j == i)) [
    | inl e ↦ rw e (find-Above j i ds h (ground arith))
    | inr e ↦ rw (e, e) (erased_absent i ds (Above-IsAscending j ds h))
  ]

  -- `RemoveDev` of a number that is in a table in the order of its numbers: it succeeds, the number is
  -- then in the table no more, every other number has the device it had, and the order of the table
  -- is kept.
  pub remove_dev-get_device_by_id :
      (m : DeviceManager D) (dev_id other : ℕ) {d : D}
      → IsAscending m.devs
      → get_device_by_id m dev_id ≡ some d
      → dev_id ≢ other
      → (m' : DeviceManager D) × (remove_dev m dev_id ≡ (m', true))
        × (get_device_by_id m' dev_id ≡ none)
        × (get_device_by_id m' other ≡ get_device_by_id m other)
        × IsAscending m'.devs
  unfolding remove_dev get_device_by_id
  remove_dev-get_device_by_id m dev_id other {d = d} h found ne = (
    (take_out (some d) dev_id m).0,
    rw found refl,
    erased_absent dev_id m.devs h,
    find-erase dev_id other m.devs ne,
    erase-IsAscending dev_id m.devs h,
  )
