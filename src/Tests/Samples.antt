-- ===== src/Tests/Samples.antt =====
-- Inputs that the tests share: devices that are their addresses, a configuration, APDUs of both frame sizes.
use edifice.Base.{ℕ, true, false, List, [], ◌∷◌, length, some, ◌%◌}
use edifice.Apdu.Types.{Addr, Env, Apdu, ApduType, property_value_read, property_value_write}
use edifice.Device.Manager.{IDevice, DeviceManager}

abbrev pub near : Addr
near = record { high = 0x11; low = 0x02 }

abbrev pub far : Addr
far = record { high = 0x11; low = 0x07 }

-- A device is its address.
abbrev pub addr_device : IDevice Addr
addr_device = record { get_host_addr = λ a. some a; exist_this_group_addr = λ a b. false }

abbrev pub env : Env
env = record {
  client_addr = near;
  broadcast_addr = record { high = 0; low = 0 };
  faulty_apci = false;
  faulty_authorize = false;
  junk = λ i. i % 256;
}

abbrev pub env_faulty : Env
env_faulty = record env { faulty_authorize = true }

abbrev pub table : DeviceManager Addr
table = record { inited = true; devs = (1, far) ∷ (4, near) ∷ []; ite4nextdev = 0; next_ava_id = 5 }

-- An APDU of a class with given control bytes and bytes.
abbrev pub apdu_with : ApduType → ℕ → ℕ → List ℕ → Apdu
apdu_with t l h mem = record {
  type = t;
  recved_apdu = false;
  ack_request = 0;
  priority = 3;
  hop_count_type = 7;
  peeraddr = far;
  hostaddr = near;
  addrtype = 0;
  apdu_mem = mem;
  apdu_len = length mem;
  apci_l = l;
  apci_h = h;
  apci_l_mask = 0xff;
  apci_h_mask = 0xff;
}

abbrev pub short_mem : List ℕ
short_mem = 0x03 ∷ 0xd5 ∷ 0x00 ∷ 0x0b ∷ 0x10 ∷ 0x01 ∷ []

-- Sixteen bytes: the smallest APDU that needs an extended frame.
abbrev pub long_mem : List ℕ
long_mem = 0x03 ∷ 0xd7 ∷ 0 ∷ 1 ∷ 0x10 ∷ 1 ∷ 10 ∷ 20 ∷ 30 ∷ 40 ∷ 50 ∷ 60 ∷ 70 ∷ 80 ∷ 90 ∷ 100 ∷ []

abbrev pub short_apdu : Apdu
short_apdu = apdu_with property_value_read 0x03 0xd5 short_mem

abbrev pub long_apdu : Apdu
long_apdu = apdu_with property_value_write 0x03 0xd7 long_mem
