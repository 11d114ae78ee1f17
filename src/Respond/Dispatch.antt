-- ===== src/Respond/Dispatch.antt =====
-- `Response` of whichever class an APDU has (EIBCommNEO/apdu.h), and of a received frame (EIBCommNEO/Frame.cpp).
pub mod Numbers
pub mod Frames
use edifice.Base.{
  ℕ, Bool, true, false, ◌&&◌, if◌then◌else◌, List, [], ◌∷◌, ◌++◌, Option, some, none, Outcome, ret,
  ◌>>=◌, Retcode, success, failure,
}
use edifice.Apdu.Types.{
  Env, Apdu, ApduType, property_value_read, property_value_write, property_read, property_write,
  group_value_read, group_value_write, link_read, link_write, authorize_request, user_memory_read,
  user_memory_write, individual_address_write, individual_address_read,
  individual_address_serial_number_read, individual_address_serial_number_write,
}
use edifice.Device.Manager.{DeviceManager}
use edifice.Frame.Types.{Frame}
use edifice.Frame.Build.{build_frame_from_apdu}
use edifice.Frame.Extract.{build_apdu_from_frame}
use edifice.Respond.Services.{Services}
use edifice.Respond.Properties.{respond_property_value_read, respond_property_read}
use edifice.Respond.Groups.{respond_group_value_read}
use edifice.Respond.Others.{respond_link_read, respond_authorize_request, respond_user_memory_read}
use edifice.Respond.Writing.{
  Writers, respond_property_value_write, respond_property_write, respond_user_memory_write,
}
use edifice.Respond.Linking.{Linkers, respond_link_write, respond_group_value_write}
use edifice.Respond.Individual.{
  respond_individual_address_write, respond_individual_address_read, respond_serial_number_read,
  respond_serial_number_write,
}

-- What `Response` gives: the one answer, the many, and the return code.
pub record Responded : Type 0 where
  pub apdu : Option Apdu
  pub apdus : List Apdu
  pub retcode : Retcode

abbrev pub one : Option Apdu × Retcode → Responded
one (o, r) = record { apdu = o; apdus = []; retcode = r }

abbrev pub many : List Apdu × Retcode → Responded
many (xs, r) = record { apdu = none; apdus = xs; retcode = r }

-- The frame of each answer.
unfoldable pub built_frames : List Apdu → Outcome (List Frame)
built_frames [] = ret []
built_frames (a ∷ rest) = do f ← build_frame_from_apdu a; fs ← built_frames rest; ret (f ∷ fs)

abbrev pub one_of : Option Apdu → List Apdu
one_of none = []
one_of (some a) = a ∷ []

-- Nothing that could be sent, and an error.
unfoldable pub is_refused : Option Apdu → List Apdu → Retcode → Bool
is_refused none [] (failure n) = true
is_refused o xs r = false

module _ {D : Type 0} (reads : Services D) (writers : Writers D) (linkers : Linkers D)
    (env : Env) where
  -- An answer that leaves the devices as they are, and one that does not.
  abbrev pub unchanged :
      DeviceManager D → Outcome (Option Apdu × Retcode) → Outcome (Responded × DeviceManager D)
  unchanged m answer = answer >>= λ x. ret (one x, m)

  abbrev pub all_unchanged :
      DeviceManager D → Outcome (List Apdu × Retcode) → Outcome (Responded × DeviceManager D)
  all_unchanged m answer = answer >>= λ x. ret (many x, m)

  abbrev pub changed :
      Outcome ((Option Apdu × Retcode) × DeviceManager D) → Outcome (Responded × DeviceManager D)
  changed answer = answer >>= λ (x, m'). ret (one x, m')

  abbrev pub all_changed :
      Outcome ((List Apdu × Retcode) × DeviceManager D) → Outcome (Responded × DeviceManager D)
  all_changed answer = answer >>= λ (x, m'). ret (many x, m')

  -- `Response` of a class; that of the base class refuses.
  unfoldable pub respond_of :
      ApduType → Apdu → DeviceManager D → Outcome (Responded × DeviceManager D)
  respond_of property_value_read a m = unchanged m (respond_property_value_read reads m env a)
  respond_of property_value_write a m = changed (respond_property_value_write writers env a m)
  respond_of property_read a m = unchanged m (respond_property_read reads m env a)
  respond_of property_write a m = changed (respond_property_write writers env a m)
  respond_of group_value_read a m = all_unchanged m (respond_group_value_read reads m env a)
  respond_of group_value_write a m = all_changed (respond_group_value_write linkers env a m)
  respond_of link_read a m = unchanged m (respond_link_read reads m env a)
  respond_of link_write a m = changed (respond_link_write linkers env a m)
  respond_of authorize_request a m = unchanged m (respond_authorize_request reads m env a)
  respond_of user_memory_read a m = unchanged m (respond_user_memory_read reads m env a)
  respond_of user_memory_write a m = changed (respond_user_memory_write writers env a m)
  respond_of individual_address_write a m =
      all_changed (respond_individual_address_write writers env a m)
  respond_of individual_address_read a m =
      all_unchanged m (respond_individual_address_read writers env a m)
  respond_of individual_address_serial_number_read a m =
      all_unchanged m (respond_serial_number_read writers env a m)
  respond_of individual_address_serial_number_write a m =
      all_changed (respond_serial_number_write writers env a m)
  respond_of _ a m = ret (one (none, failure 1), m)

  -- The frames of the answers, or the return code -12.
  unfoldable pub frames_or_refusal :
      Responded × DeviceManager D → Outcome ((List Frame × Retcode) × DeviceManager D)
  unfolding built_frames is_refused
  frames_or_refusal (x, m) =
      let built = built_frames (one_of x.apdu ++ x.apdus) >>= λ fs. ret ((fs, x.retcode), m) in
      if is_refused x.apdu x.apdus x.retcode then ret (([], failure 12), m) else built

  -- The answers to the APDU of a frame, or the return code -11.
  abbrev pub respond_opened :
      Option Apdu → DeviceManager D → Outcome ((List Frame × Retcode) × DeviceManager D)
  unfolding respond_of frames_or_refusal
  respond_opened none m = ret (([], failure 11), m)
  respond_opened (some a) m = respond_of a.type a m >>= λ x. frames_or_refusal x

  -- `Frame::Response`, all frames that answer a frame; its return code is 0, -11 or -12, or that of the class.
  unfoldable pub respond_frame :
      Frame → DeviceManager D → Outcome ((List Frame × Retcode) × DeviceManager D)
  unfolding respond_opened build_apdu_from_frame
  respond_frame f m = build_apdu_from_frame env f >>= λ o. respond_opened o m
