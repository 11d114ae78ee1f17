-- ===== src/Respond/Others.antt =====
-- `Response` of APDU_Link_Read, APDU_Authorize_Request and APDU_UserMemory_Read, and `BuildMe` of the responses
-- (EIBCommNEO/apdu.cpp).
use edifice.Base.{
  ℕ, zero, suc, ◌+◌, ◌*◌, ◌%◌, bit_and, not, ◌&&◌, ◌||◌, if◌then◌else◌, ltb, leb, ◌==◌, List, [],
  ◌∷◌, length, take, Option, some, none, Outcome, ret, ◌>>=◌, slice, memcpy, store, Retcode,
  success, failure,
}
use edifice.Apdu.Types.{
  Env, Apdu, Addr, link_response, authorize_response, user_memory_response, resize, basic_info,
}
use edifice.Apdu.Link.{get_link_read_params}
use edifice.Apdu.Authorize.{get_request_params}
use edifice.Apdu.UserMemory.{max_user_memory_size, store_place, get_read_params, capped}
use edifice.Device.Manager.{DeviceManager, get_device_by_daddr}
use edifice.Respond.Services.{Services, new_response, or_nack, or_fault}

-- The addresses of the links, one behind the other.
unfoldable pub store_addrs : List ℕ → ℕ → List (ℕ × ℕ) → Outcome (List ℕ)
unfolding memcpy
store_addrs mem at [] = ret mem
store_addrs mem at ((high, low) ∷ addrs) = do
  mem' ← memcpy mem at (high ∷ low ∷ [])
  store_addrs mem' (at + 2) addrs

-- The indices of a link that was found, or what they were.
abbrev pub kept_or : Option (ℕ × ℕ) → Option (ℕ × ℕ) → Option (ℕ × ℕ)
kept_or none old = old
kept_or (some l) old = some l

module _ {D : Type 0} (svc : Services D) (m : DeviceManager D) (env : Env) where
  open svc use {
    host, get_link_count, get_link_by_index, get_group_addr_by_index, get_authorize,
    get_user_memory,
  }

  -- The addresses of the links to the object, by index, that are not below the start; from a link on, for so
  -- many. A link that is not there leaves the indices of the one before, the first ones not set.
  unfoldable pub matching_links : D → ℕ → ℕ → Option (ℕ × ℕ) → ℕ → ℕ → Outcome (List ℕ)
  matching_links dev object start before i zero = ret []
  matching_links dev object start before i (suc n) = do
    found ← get_link_by_index dev (i % 256)
    let link = kept_or found before
    (gobj_idx, gaddr_idx) ← or_fault link
    rest ← matching_links dev object start link (i + 1) n
    ret (if gobj_idx == object && leb start gaddr_idx then gaddr_idx ∷ rest else rest)

  unfoldable pub addrs_at : D → List ℕ → Outcome (List (ℕ × ℕ))
  addrs_at dev [] = ret []
  addrs_at dev (i ∷ is) = do
    found ← get_group_addr_by_index dev i
    addr ← or_fault found
    rest ← addrs_at dev is
    ret (addr ∷ rest)

  unfoldable pub links_into : Option D → Apdu → ℕ → ℕ → ℕ → Addr → ℕ → ℕ → Outcome (Apdu × Retcode)
  unfolding matching_links addrs_at store_addrs resize basic_info store
  links_into none a ack_request priority hop_count_type asap object start = ret (a, failure 2)
  links_into (some dev) a ack_request priority hop_count_type asap object start = do
    link_count ← get_link_count dev
    gaddr_vec ← matching_links dev object start none 0 link_count
    let to_send = take 6 gaddr_vec
    let b =
        basic_info ack_request priority hop_count_type (some asap)
          (resize env (4 + 2 * length to_send) a).0
    mem₁ ← store b.apdu_mem 2 object
    mem₂ ← store mem₁ 3 start
    addrs ← addrs_at dev to_send
    mem₃ ← store_addrs mem₂ 4 addrs
    ret (record b { apdu_mem = mem₃ }, success)

  -- `APDU_Link_Response::BuildMe`
  unfoldable pub build_link_response :
      Apdu → ℕ → ℕ → ℕ → Option Addr → ℕ → ℕ → Outcome (Apdu × Retcode)
  unfolding links_into
  build_link_response a ack_request priority hop_count_type none object start_index =
      ret (a, failure 1)
  build_link_response a ack_request priority hop_count_type (some asap) object start_index =
      links_into (get_device_by_daddr host m (some a.hostaddr)) a ack_request priority
        hop_count_type asap object (bit_and start_index 0x0f)

  -- `APDU_Link_Read::Response`
  unfoldable pub respond_link_read : Apdu → Outcome (Option Apdu × Retcode)
  respond_link_read a =
      let answer = (do
        (object, start_index) ← get_link_read_params a
        built ←
            build_link_response (new_response env link_response a) 0 0 7 (some a.hostaddr) object
              start_index
        ret (or_nack env built)) in
      if a.recved_apdu then answer else ret (none, failure 1)

  abbrev pub device_level : Option D → List ℕ → Option ℕ
  device_level none key = none
  device_level (some dev) key = get_authorize dev key

  abbrev pub level_into : Apdu → Option ℕ → Outcome (Apdu × Retcode)
  level_into b none = ret (b, failure 1)
  level_into b (some level) =
      store b.apdu_mem 2 level >>= λ mem. ret (record b { apdu_mem = mem }, success)

  -- `APDU_Authorize_Response::BuildMe`; the object is sized before the device is asked.
  unfoldable pub build_authorize_response :
      Apdu → ℕ → ℕ → ℕ → Option Addr → List ℕ → Outcome (Apdu × Retcode)
  unfolding resize basic_info store
  build_authorize_response a ack_request priority hop_count_type none key = ret (a, failure 1)
  build_authorize_response a ack_request priority hop_count_type (some asap) key =
      level_into (basic_info ack_request priority hop_count_type (some asap) (resize env 3 a).0)
        (device_level (get_device_by_daddr host m (some a.hostaddr)) key)

  -- The key that was read; where it was not, the buffer of zeros.
  abbrev pub key_or_zeros : Option (List ℕ) → List ℕ
  key_or_zeros none = 0 ∷ 0 ∷ 0 ∷ 0 ∷ []
  key_or_zeros (some key) = key

  -- `APDU_Authorize_Request::Response`
  unfoldable pub respond_authorize_request : Apdu → Outcome (Option Apdu × Retcode)
  respond_authorize_request a =
      let answer = (do
        key ← get_request_params env a
        built ←
            build_authorize_response (new_response env authorize_response a) 0 0 7 (some a.hostaddr)
              (key_or_zeros key)
        ret (or_nack env built)) in
      if a.recved_apdu then answer else ret (none, failure 1)

  abbrev pub memory_into :
      Apdu → ℕ → ℕ → ℕ → Option Addr → ℕ → ℕ → Option (List ℕ) → Outcome (Apdu × Retcode)
  memory_into a ack_request priority hop_count_type asap number address none = ret (a, failure 1)
  memory_into a ack_request priority hop_count_type asap number address (some memory) = do
    let b = basic_info ack_request priority hop_count_type asap (resize env (5 + number) a).0
    mem₁ ← store_place b.apdu_mem number address
    bytes ← slice memory address number
    mem₂ ← memcpy mem₁ 5 bytes
    ret (record b { apdu_mem = mem₂ }, success)

  unfoldable pub device_memory_into :
      Option D → Apdu → ℕ → ℕ → ℕ → Option Addr → ℕ → ℕ → Outcome (Apdu × Retcode)
  unfolding resize basic_info slice memcpy
  device_memory_into none a ack_request priority hop_count_type asap number address =
      ret (a, failure 1)
  device_memory_into (some dev) a ack_request priority hop_count_type asap number address =
      let built = get_user_memory dev >>= λ memory.
      memory_into a ack_request priority hop_count_type asap number address memory in
      if ltb max_user_memory_size (address + number) then ret (a, failure 1) else built

  -- `APDU_UserMemory_Response::BuildMe`
  unfoldable pub build_user_memory_response :
      Apdu → ℕ → ℕ → ℕ → Option Addr → ℕ → ℕ → Outcome (Apdu × Retcode)
  unfolding device_memory_into capped
  build_user_memory_response a ack_request priority hop_count_type asap number address =
      device_memory_into (get_device_by_daddr host m (some a.hostaddr)) a ack_request priority
        hop_count_type asap (capped number) (bit_and address 0xf_ffff)

  -- The response, or none and the return code of `BuildMe`.
  abbrev pub or_none : Apdu × Retcode → Option Apdu × Retcode
  or_none (b, success) = (some b, success)
  or_none (b, failure n) = (none, failure n)

  -- `APDU_UserMemory_Read::Response`
  unfoldable pub respond_user_memory_read : Apdu → Outcome (Option Apdu × Retcode)
  respond_user_memory_read a =
      let answer = (do
        params ← get_read_params a
        (number, address) ← or_fault params
        built ←
            build_user_memory_response (new_response env user_memory_response a) 0 0 7
              (some a.hostaddr) number address
        ret (or_none built)) in
      if not (a.apdu_len == 5) || not a.recved_apdu then ret (none, failure 1) else answer
