-- ===== src/Respond/Services.antt =====
-- What the answers call: the operations of IDevice (EIBCommNEO/IDevice.h), and the steps that the `Response`
-- operations of EIBCommNEO/apdu.cpp share.
use edifice.Base.{ℕ, List, Option, some, none, Outcome, ret, fault, Retcode, success, failure}
use edifice.Apdu.Types.{Env, Apdu, ApduType, nack, construct, set_host_addr}
use edifice.Device.Manager.{IDevice}
use edifice.Txt.Types.{Duplex}
use edifice.Txt.Elements.{Got}
use edifice.Txt.Groups.{GroupObjectHead}

-- The operations of a device that the answers read. `none` is a null pointer or the return code -1.
pub record Services (D : Type 0) : Type 0 where
  pub host : IDevice D
  pub get_elem_values : D → Duplex → ℕ → ℕ → ℕ → Outcome Got
  pub get_prop_fields : D → Duplex → Option (List ℕ)
  pub get_link_count : D → Outcome ℕ
  pub get_link_by_index : D → ℕ → Outcome (Option (ℕ × ℕ))
  pub get_group_addr_count : D → Outcome ℕ
  pub get_group_addr_by_index : D → ℕ → Outcome (Option (ℕ × ℕ))
  pub get_group_object_head_by_index : D → ℕ → Outcome (Option GroupObjectHead)
  pub get_group_object_value : D → ℕ → ℕ → Outcome (Got × ℕ)
  pub get_authorize : D → List ℕ → Option ℕ
  pub get_user_memory : D → Outcome (Option (List ℕ))

-- The new object of a response class, whose host is the peer of the request.
abbrev pub new_response : Env → ApduType → Apdu → Apdu
new_response env t request = set_host_addr (some request.peeraddr) (construct env t)

-- The response that was built, or a NACK.
abbrev pub or_nack : Env → Apdu × Retcode → Option Apdu × Retcode
or_nack env (b, success) = (some b, success)
or_nack env (b, failure n) = (some (construct env nack), success)

-- The parameters that were read; without them the code goes on with variables that it never set.
abbrev pub or_fault {ℓ} : {A : Type ℓ} → Option A → Outcome A
or_fault none = fault
or_fault (some x) = ret x
