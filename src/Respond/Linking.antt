-- ===== src/Respond/Linking.antt =====
-- `Response` of APDU_Link_Write and APDU_GroupValue_Write (EIBCommNEO/apdu.cpp).
use edifice.Base.{
  ℕ, zero, suc, ◌+◌, ◌-◌, ◌%◌, Bool, true, false, ◌&&◌, if◌then◌else◌, ◌==◌, List, [], ◌∷◌, ◌++◌,
  length, Option, some, none, Outcome, ret, fault, ◌>>=◌, replicate, Retcode, success, failure,
}
use edifice.Apdu.Types.{Env, Apdu, Addr}
use edifice.Apdu.Link.{get_link_write_params}
use edifice.Apdu.GroupValue.{get_write_params}
use edifice.Device.Manager.{DeviceManager, next_device}
use edifice.Respond.Services.{Services, or_fault}
use edifice.Respond.Groups.{addr_index}
use edifice.Respond.Writing.{at_daddr, ack_if_found}

-- The operations of a device on its links that these answers call.
pub record Linkers (D : Type 0) : Type 0 where
  pub reads : Services D
  pub remove_link_by_index : D → ℕ → Outcome (D × Retcode)
  pub add_group_addr : D → Addr → Outcome (D × Retcode)
  pub add_link : D → ℕ → ℕ → Outcome (D × Retcode)
  pub set_group_object_value : D → ℕ → List ℕ → Outcome (D × Retcode)

-- `memcmp` with a group address, NULL is `none`.
abbrev pub is_group_addr : Addr → Option (ℕ × ℕ) → Outcome Bool
is_group_addr addr none = fault
is_group_addr addr (some (high, low)) = ret (high == addr.high && low == addr.low)

-- The value in the buffer of 256 zeros.
abbrev pub value_buff : Option (List ℕ × ℕ) → List ℕ
value_buff none = replicate 256 0
value_buff (some (bytes, n)) = bytes ++ replicate (256 - length bytes) 0

-- The device at an index of the table.
unfoldable pub set_at : {D : Type 0} → ℕ → D → List (ℕ × D) → List (ℕ × D)
set_at i d' [] = []
set_at zero d' ((j, d) ∷ ds) = (j, d') ∷ ds
set_at (suc i) d' ((j, d) ∷ ds) = (j, d) ∷ set_at i d' ds

module _ {D : Type 0} (svc : Linkers D) (env : Env) where
  open svc use {reads, remove_link_by_index, add_group_addr, add_link, set_group_object_value}

  -- The first link from an index on, for so many, from an object to an address. The address of a link is compared
  -- only if its object is the one.
  unfoldable pub find_link : D → ℕ → Addr → ℕ → ℕ → Outcome (Option ℕ)
  find_link d object addr i zero = ret none
  find_link d object addr i (suc n) = do
    link ← Services.get_link_by_index reads d (i % 256)
    (gobj_idx, gaddr_idx) ← or_fault link
    gaddr ← Services.get_group_addr_by_index reads d gaddr_idx
    let rest = find_link d object addr (i + 1) n
    let compared = is_group_addr addr gaddr >>= λ same. if same then ret (some i) else rest
    (if gobj_idx == object then compared else rest)

  -- The link that was found is removed, and what comes next.
  abbrev pub link_removed : (D → Outcome D) → D → Option ℕ → Outcome D
  link_removed next d none = ret d
  link_removed next d (some i) = remove_link_by_index d (i % 256) >>= λ (d', code). next d'

  -- The loop that removes links while there is one; for so many rounds.
  unfoldable pub remove_all_links : ℕ → ℕ → Addr → D → Outcome D
  unfolding find_link
  remove_all_links zero object addr d = fault
  remove_all_links (suc fuel) object addr d = do
    link_count ← Services.get_link_count reads d
    found ← find_link d object addr 0 link_count
    link_removed (remove_all_links fuel object addr) d found

  -- The address, added if it is new, and its index.
  abbrev pub with_addr : Addr → ℕ → D → Option ℕ → Outcome (D × ℕ)
  with_addr addr gaddr_count d (some i) = ret (d, i)
  with_addr addr gaddr_count d none = add_group_addr d addr >>= λ (d', code). ret (d', gaddr_count)

  unfoldable pub link_added : ℕ → Addr → D → Outcome (D × Retcode)
  unfolding addr_index
  link_added object addr d = do
    gaddr_count ← Services.get_group_addr_count reads d
    found ← addr_index reads d addr 0 gaddr_count
    (d', gaddr_index) ← with_addr addr gaddr_count d found
    add_link d' object (gaddr_index % 256)

  -- By bit 0 of the flags: the links are removed, or one is added. There is one round more than links, which is enough
  -- where each removal leaves fewer.
  unfoldable pub link_written : ℕ → ℕ → Addr → D → Outcome (D × Retcode)
  unfolding remove_all_links link_added
  link_written object flags addr d =
      let removed = (do
        link_count ← Services.get_link_count reads d
        d' ← remove_all_links (suc link_count) object addr d
        ret (d', success)) in
      if flags % 2 == 0 then removed else link_added object addr d

  -- `APDU_Link_Write::Response`
  unfoldable pub respond_link_write :
      Apdu → DeviceManager D → Outcome ((Option Apdu × Retcode) × DeviceManager D)
  unfolding at_daddr link_written ack_if_found get_link_write_params
  respond_link_write a m =
      let answer = (do
        ((object, flags), addr) ← get_link_write_params a
        (r, ds) ← at_daddr (Services.host reads) a.peeraddr (link_written object flags addr) m.devs
        ret ((some (ack_if_found env r), success), record m { devs = ds })) in
      if a.recved_apdu then answer else ret ((none, failure 1), m)

  -- The value goes to the object of every link to the address, from a link on, for so many.
  unfoldable pub value_to_links : Apdu → ℕ → ℕ → ℕ → D → Outcome D
  unfolding get_write_params
  value_to_links a gaddr_index i zero d = ret d
  value_to_links a gaddr_index i (suc n) d = do
    link ← Services.get_link_by_index reads d (i % 256)
    (gobj_idx, gaddr_idx) ← or_fault link
    let set = (do
      params ← get_write_params a 2048
      (d', code) ← set_group_object_value d gobj_idx (value_buff params)
      ret d')
    d' ← (if gaddr_index == gaddr_idx then set else ret d)
    value_to_links a gaddr_index (i + 1) n d'

  unfoldable pub value_to_device : Apdu → D → Outcome D
  unfolding addr_index value_to_links
  value_to_device a d = do
    gaddr_count ← Services.get_group_addr_count reads d
    found ← addr_index reads d a.peeraddr 0 gaddr_count
    linked a d found
    where
      linked : Apdu → D → Option ℕ → Outcome D
      linked a d none = ret d
      linked a d (some gaddr_index) = Services.get_link_count reads d >>= λ link_count.
          value_to_links a gaddr_index 0 link_count d

  -- The loop over the devices by the iterator, which stands behind the device.
  unfoldable pub value_to_devices :
      ℕ → Apdu → Option D → DeviceManager D → Outcome (DeviceManager D)
  unfolding value_to_device set_at next_device
  value_to_devices fuel a none m = ret m
  value_to_devices zero a (some d) m = fault
  value_to_devices (suc fuel) a (some d) m = do
    d' ← value_to_device a d
    (o, m') ← next_device false (record m { devs = set_at (m.ite4nextdev - 1) d' m.devs })
    value_to_devices fuel a o m'

  -- `APDU_GroupValue_Write::Response`; nothing is answered. One round more than there are devices.
  unfoldable pub respond_group_value_write :
      Apdu → DeviceManager D → Outcome ((List Apdu × Retcode) × DeviceManager D)
  unfolding value_to_devices next_device
  respond_group_value_write a m =
      let done = (do
        (o, m') ← next_device true m
        m'' ← value_to_devices (suc (length m.devs)) a o m'
        ret (([], success), m'')) in
      if a.recved_apdu then done else ret (([], failure 1), m)
