-- ===== src/Tests/Devices.antt =====
-- The theorems about the device table and the masks at concrete inputs.
use edifice.Device.Manager.{DeviceManager, remove_dev, get_device_by_id, find, next_ava_id_loop}
use edifice.Device.Removal.{IsAscending, remove_dev-get_device_by_id}
use edifice.Apdu.Types.{Addr}
use edifice.Base.{true, none, refl, ◌≢◌, failure, ℕ, some, [], ◌≤◌, ◌≡◌, arith, ◌∷◌}
use edifice.Tests.Samples.{far, table}
use edifice.Pentagon.Hex.{hexs2bins, hexs2bins_accepts}
use edifice.Device.Numbers.{next_ava_id_free}

-- The number 4 is taken, 5 is free.
next_ava_id_free_example :
    (free : ℕ) × (next_ava_id_loop 3 table.devs 4 ≡ some free)
    × (find free table.devs ≡ none)
    × (4 ≤ free)
    × (free ≤ 6)
next_ava_id_free_example = next_ava_id_free table.devs 2 4 refl (omega arith)

-- Text that is not hexadecimal.
hexs2bins_accepts_example : (hexs2bins (b'x' ∷ b'y' ∷ 0 ∷ []) 4).code ≢ failure 2
hexs2bins_accepts_example = hexs2bins_accepts (b'x' ∷ b'y' ∷ 0 ∷ []) 4

remove_dev-get_device_by_id_example :
    (m' : DeviceManager Addr) × (remove_dev table 1 ≡ (m', true))
    × (get_device_by_id m' 1 ≡ none)
    × (get_device_by_id m' 4 ≡ get_device_by_id table 4)
    × IsAscending m'.devs
unfolding get_device_by_id find
remove_dev-get_device_by_id_example =
    remove_dev-get_device_by_id table 1 4 {d = far} (omega arith, tt) refl (omega arith)
