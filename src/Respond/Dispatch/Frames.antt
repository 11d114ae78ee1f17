-- ===== src/Respond/Dispatch/Frames.antt =====
-- Which devices there are before and after a frame is answered (EIBCommNEO/Frame.cpp, EIBCommNEO/apdu.cpp).
use edifice.Base.{
  ℕ, ◌≡◌, refl, List, [], ◌++◌, Option, some, none, Outcome, ret, ◌>>=◌, Retcode, failure,
}
use edifice.Apdu.Types.{
  Env, Apdu, ApduType, property_value_read, property_value_write, property_read, property_write,
  group_value_read, group_value_write, link_read, link_write, authorize_request, user_memory_read,
  user_memory_write, individual_address_write, individual_address_read,
  individual_address_serial_number_read, individual_address_serial_number_write,
}
use edifice.Device.Manager.{DeviceManager}
use edifice.Frame.Types.{Frame}
use edifice.Frame.Extract.{build_apdu_from_frame}
use edifice.Respond.Services.{Services}
use edifice.Respond.Properties.{respond_property_value_read, respond_property_read}
use edifice.Respond.Groups.{respond_group_value_read}
use edifice.Respond.Others.{respond_link_read, respond_authorize_request, respond_user_memory_read}
use edifice.Respond.Individual.{respond_individual_address_read, respond_serial_number_read}
use edifice.Respond.Writing.{Writers}
use edifice.Respond.Linking.{Linkers}
use edifice.Respond.Dispatch.{
  Responded, one, many, one_of, built_frames, is_refused, respond_of, frames_or_refusal,
  respond_opened, respond_frame,
}
use edifice.Respond.Dispatch.Numbers.{
  numbers, Gives, Gives-ret, Gives-bind, Gives-if, table_numbers, property_value_write-Gives,
  property_write-Gives, user_memory_write-Gives, link_write-Gives, group_value_write-Gives,
  individual_address_write-Gives, serial_number_write-Gives,
}

module _ {D : Type 0} (reads : Services D) (writers : Writers D) (linkers : Linkers D)
    (env : Env) where
  -- An answer that leaves the table as it is, and one that does not.
  still :
      {X : Type 0} (wrap : X → Responded) (o : Outcome X) (m : DeviceManager D)
      → Gives table_numbers (numbers m.devs) (o >>= λ x. ret (wrap x, m))
  still wrap o m =
      Gives-bind table_numbers (numbers m.devs) o _
        (λ x e. Gives-ret table_numbers (numbers m.devs) (wrap x, m) refl)

  wrapped :
      {X : Type 0} (wrap : X → Responded) (o : Outcome (X × DeviceManager D)) (ns : List ℕ)
      → Gives table_numbers ns o
      → Gives table_numbers ns (o >>= λ (x, m'). ret (wrap x, m'))
  wrapped wrap o ns gives =
      Gives-bind table_numbers ns o _
        (λ (x, m') e. Gives-ret table_numbers ns (wrap x, m') (gives (x, m') e))

  respond_of-Gives :
      (t : ApduType) (a : Apdu) (m : DeviceManager D)
      → Gives table_numbers (numbers m.devs) (respond_of reads writers linkers env t a m)
  unfolding respond_of
  respond_of-Gives property_value_read a m = still one (respond_property_value_read reads m env a) m
  respond_of-Gives property_value_write a m =
      wrapped one _ (numbers m.devs) (property_value_write-Gives writers linkers env a m)
  respond_of-Gives property_read a m = still one (respond_property_read reads m env a) m
  respond_of-Gives property_write a m =
      wrapped one _ (numbers m.devs) (property_write-Gives writers linkers env a m)
  respond_of-Gives group_value_read a m = still many (respond_group_value_read reads m env a) m
  respond_of-Gives group_value_write a m =
      wrapped many _ (numbers m.devs) (group_value_write-Gives writers linkers env a m)
  respond_of-Gives link_read a m = still one (respond_link_read reads m env a) m
  respond_of-Gives link_write a m =
      wrapped one _ (numbers m.devs) (link_write-Gives writers linkers env a m)
  respond_of-Gives authorize_request a m = still one (respond_authorize_request reads m env a) m
  respond_of-Gives user_memory_read a m = still one (respond_user_memory_read reads m env a) m
  respond_of-Gives user_memory_write a m =
      wrapped one _ (numbers m.devs) (user_memory_write-Gives writers linkers env a m)
  respond_of-Gives individual_address_write a m =
      wrapped many _ (numbers m.devs) (individual_address_write-Gives writers linkers env a m)
  respond_of-Gives individual_address_read a m =
      still many (respond_individual_address_read writers env a m) m
  respond_of-Gives individual_address_serial_number_read a m =
      still many (respond_serial_number_read writers env a m) m
  respond_of-Gives individual_address_serial_number_write a m =
      wrapped many _ (numbers m.devs) (serial_number_write-Gives writers linkers env a m)
  respond_of-Gives _ a m = Gives-ret table_numbers (numbers m.devs) (one (none, failure 1), m) refl

  frames_or_refusal-Gives :
      (x : Responded) (m : DeviceManager D) (ns : List ℕ)
      → numbers m.devs ≡ ns
      → Gives table_numbers ns (frames_or_refusal reads writers linkers env (x, m))
  unfolding frames_or_refusal
  frames_or_refusal-Gives x m ns same =
      Gives-if table_numbers ns (is_refused x.apdu x.apdus x.retcode) _ _
        (Gives-ret table_numbers ns (([], failure 12), m) same)
        (Gives-bind table_numbers ns (built_frames (one_of x.apdu ++ x.apdus)) _
          (λ fs e. Gives-ret table_numbers ns ((fs, x.retcode), m) same))

  respond_opened-Gives :
      (o : Option Apdu) (m : DeviceManager D)
      → Gives table_numbers (numbers m.devs) (respond_opened reads writers linkers env o m)
  unfolding respond_opened
  respond_opened-Gives none m = Gives-ret table_numbers (numbers m.devs) (([], failure 11), m) refl
  respond_opened-Gives (some a) m =
      Gives-bind table_numbers (numbers m.devs) (respond_of reads writers linkers env a.type a m) _
        (λ (x, m') e.
          frames_or_refusal-Gives x m' (numbers m.devs) (respond_of-Gives a.type a m (x, m') e))

  -- Answering a received frame, whatever it is and whatever its answer does to the devices, neither adds nor removes a
  -- device, and changes the number of none: where `Response` returns, the numbers of the table are the same,
  -- in the same order.
  pub numbers-respond_frame :
      (f : Frame) (m m' : DeviceManager D) (frames : List Frame) (r : Retcode)
      → respond_frame reads writers linkers env f m ≡ ret ((frames, r), m')
      → numbers m'.devs ≡ numbers m.devs
  unfolding respond_frame
  numbers-respond_frame f m m' frames r e =
      Gives-bind table_numbers (numbers m.devs) (build_apdu_from_frame env f) _
        (λ o opened. respond_opened-Gives o m) ((frames, r), m') e
