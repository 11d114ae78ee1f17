-- ===== src/Respond/Groups.antt =====
-- `Response` of APDU_GroupValue_Read and `BuildMe` of APDU_GroupValue_Response (EIBCommNEO/apdu.cpp): every device
-- that is linked to the group address answers.
use edifice.Base.{
  ℕ, zero, suc, ◌+◌, ◌-◌, ◌/◌, ◌%◌, ◌&&◌, if◌then◌else◌, ltb, ◌==◌, List, [], ◌∷◌, ◌++◌, length,
  replicate, Option, some, none, Outcome, ret, fault, ◌>>=◌, slice, memcpy, Retcode, success,
  failure,
}
use edifice.Apdu.Types.{
  Env, Apdu, Addr, group_value_response, construct, resize, basic_info, set_host_addr,
  set_peer_addr,
}
use edifice.Apdu.GroupValue.{store_short}
use edifice.Device.Manager.{IDevice, DeviceManager, get_device_by_id, get_all_devices}
use edifice.Txt.Elements.{Got, refused, too_small, values}
use edifice.Txt.Groups.{GroupObjectHead, head_len_in_bit}
use edifice.Respond.Services.{Services, or_fault}

-- The buffer of 256 bytes after `GetGroupObjectValue`, and what its length says: bits on success. A
-- negative length is a copy of more bytes than there are.
abbrev pub buffer_after : Got × ℕ → Outcome (List ℕ × ℕ)
buffer_after (refused, len) = ret (replicate 256 0, 256)
buffer_after (too_small n, len) = fault
buffer_after (values out, len) = ret (out ++ replicate (256 - length out) 0, len)

-- The buffer's first byte, 0 where nothing was copied.
abbrev pub first_bytes : Got × ℕ → List ℕ
first_bytes (values out, len) = out ++ (0 ∷ [])
first_bytes (refused, len) = 0 ∷ []
first_bytes (too_small n, len) = 0 ∷ []

-- The length of the APDU for a value of more than six bits.
unfoldable pub long_len : ℕ → ℕ
long_len bits = let apdu_len = 2 + bits / 8 in if apdu_len == 2 then 3 else apdu_len

-- The value goes behind the control bytes, or into the second one.
unfoldable pub group_value_into : Env → Apdu → ℕ → ℕ → ℕ → ℕ → Got × ℕ → Outcome Apdu
unfolding long_len
group_value_into env a ack_request priority hop_count_type bits got =
    let long = (do
      let b = basic_info ack_request priority hop_count_type none (resize env (long_len bits) a).0
      (buff, buff_len) ← buffer_after got
      bytes ← slice buff 0 buff_len
      mem ← memcpy b.apdu_mem 2 bytes
      ret (record b { apdu_mem = mem })) in
    let short = (do
      let b = basic_info ack_request priority hop_count_type none (resize env 2 a).0
      mem ← store_short b.apdu_mem (first_bytes got)
      ret (record b { apdu_mem = mem })) in
    if ltb 6 bits then long else short

module _ {D : Type 0} (svc : Services D) where
  open svc use {
    host, get_link_count, get_link_by_index, get_group_addr_count, get_group_addr_by_index,
    get_group_object_head_by_index, get_group_object_value,
  }

  -- The index of the group address among those of the device, from one on, for so many.
  unfoldable pub addr_index : D → Addr → ℕ → ℕ → Outcome (Option ℕ)
  addr_index dev addr i zero = ret none
  addr_index dev addr i (suc n) = do
    found ← get_group_addr_by_index dev (i % 256)
    (high, low) ← or_fault found
    let rest = addr_index dev addr (i + 1) n
    (if high == addr.high && low == addr.low then ret (some i) else rest)

  -- A link that is not there leaves both indices at 255.
  abbrev pub or_minus_one : Option (ℕ × ℕ) → ℕ × ℕ
  or_minus_one none = (255, 255)
  or_minus_one (some l) = l

  -- The group object of the first link to that address.
  unfoldable pub object_of_addr : D → ℕ → ℕ → ℕ → Outcome (Option ℕ)
  object_of_addr dev grp_addr_index i zero = ret none
  object_of_addr dev grp_addr_index i (suc n) = do
    link ← get_link_by_index dev (i % 256)
    let rest = object_of_addr dev grp_addr_index (i + 1) n
    (if grp_addr_index == (or_minus_one link).1 then ret (some (or_minus_one link).0) else rest)

  -- `APDU_GroupValue_Response::BuildMe` for an object of the device, once it is found.
  unfoldable pub object_value_into :
      Env → D → Apdu → ℕ → ℕ → ℕ → ℕ → Option GroupObjectHead → Outcome (Apdu × Retcode)
  object_value_into env dev a ack_request priority hop_count_type object none = ret (a, failure 1)
  object_value_into env dev a ack_request priority hop_count_type object (some head) = do
    bits ← head_len_in_bit head
    got ← get_group_object_value dev object 256
    b ← group_value_into env a ack_request priority hop_count_type bits got
    ret (set_host_addr (IDevice.get_host_addr host dev) b, success)

  unfoldable pub linked_object_into :
      Env → D → Apdu → ℕ → ℕ → ℕ → Option ℕ → Outcome (Apdu × Retcode)
  unfolding object_value_into
  linked_object_into env dev a ack_request priority hop_count_type none = ret (a, failure 1)
  linked_object_into env dev a ack_request priority hop_count_type (some object) =
      get_group_object_head_by_index dev object >>= λ head.
      object_value_into env dev a ack_request priority hop_count_type object head

  unfoldable pub addressed_into : Env → D → Apdu → ℕ → ℕ → ℕ → Option ℕ → Outcome (Apdu × Retcode)
  unfolding object_of_addr linked_object_into
  addressed_into env dev a ack_request priority hop_count_type none = ret (a, failure 1)
  addressed_into env dev a ack_request priority hop_count_type (some grp_addr_index) = do
    link_count ← get_link_count dev
    object ← object_of_addr dev grp_addr_index 0 link_count
    linked_object_into env dev a ack_request priority hop_count_type object

  unfoldable pub device_value_into :
      Env → Option D → Apdu → ℕ → ℕ → ℕ → Addr → Outcome (Apdu × Retcode)
  unfolding addr_index addressed_into
  device_value_into env none a ack_request priority hop_count_type grp_addr = ret (a, failure 1)
  device_value_into env (some dev) a ack_request priority hop_count_type grp_addr = do
    grp_addr_count ← get_group_addr_count dev
    index ← addr_index dev grp_addr 0 grp_addr_count
    addressed_into env dev a ack_request priority hop_count_type index

  -- `APDU_GroupValue_Response::BuildMe`
  unfoldable pub build_group_value_response :
      DeviceManager D → Env → Apdu → ℕ → ℕ → ℕ → Option Addr → ℕ → Outcome (Apdu × Retcode)
  unfolding device_value_into
  build_group_value_response m env a ack_request priority hop_count_type none dev_id =
      ret (a, failure 1)
  build_group_value_response m env a ack_request priority hop_count_type (some grp_addr) dev_id =
      device_value_into env (get_device_by_id m dev_id) a ack_request priority hop_count_type
        grp_addr

  -- A response that was built is kept, with the group address as its peer.
  abbrev pub kept : Addr → Apdu × Retcode → List Apdu → List Apdu
  kept peer (b, success) rest = set_peer_addr (some peer) b ∷ rest
  kept peer (b, failure n) rest = rest

  -- The loop of `APDU_GroupValue_Read::Response`.
  unfoldable pub collect : DeviceManager D → Env → Addr → List ℕ → Outcome (List Apdu)
  collect m env peer [] = ret []
  collect m env peer (dev_id ∷ ids) = do
    built ←
        build_group_value_response m env (construct env group_value_response) 0 0 7 (some peer)
          dev_id
    rest ← collect m env peer ids
    ret (kept peer built rest)

  -- The numbers in the buffer of 56; more devices than that are read behind its end.
  abbrev pub ids_of : Option (List ℕ) × ℕ → Outcome (List ℕ)
  ids_of (none, count) = fault
  ids_of (some ids, count) = ret ids

  -- `APDU_GroupValue_Read::Response`
  unfoldable pub respond_group_value_read :
      DeviceManager D → Env → Apdu → Outcome (List Apdu × Retcode)
  unfolding collect
  respond_group_value_read m env a =
      let answers = (do
        ids ← ids_of (get_all_devices m 56)
        apdus ← collect m env a.peeraddr ids
        ret (apdus, success)) in
      if a.recved_apdu then answers else ret ([], failure 2)
