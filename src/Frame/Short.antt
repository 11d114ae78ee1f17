-- ===== src/Frame/Short.antt =====
-- The short frames: acknowledgements of one byte.
use edifice.Base.{◌≡◌, refl, Bool, false, some, ret}
use edifice.Apdu.Types.{Env, ApduType, construct, is_standard, ack, nack, busy, nackbusy}
use edifice.Device.Manager.{IDevice, DeviceManager}
use edifice.Frame.Types.{Frame}
use edifice.Frame.Build.{build_frame_from_apdu}
use edifice.Frame.Parse.{build_frame_from_buff}
use edifice.Frame.Extract.{build_apdu_from_frame}

-- A new acknowledgement of each of the four short classes is packed into a frame of one byte, that frame is
-- recognised from its byte, with or without the address test, and gives a new object of the same
-- class.
pub short_transmitted :
    {D : Type 0} (dev : IDevice D) (env : Env) (t : ApduType) (recved check : Bool)
    (m : DeviceManager D)
    → is_standard t ≡ false
    → (f : Frame) × (build_frame_from_apdu (construct env t) ≡ ret f)
      × (build_frame_from_buff dev env (some f.frame_mem) f.frame_len recved check m
          ≡ ret (some f, m))
      × (build_apdu_from_frame env f ≡ ret (some (construct env t)))
unfolding build_frame_from_apdu construct build_frame_from_buff build_apdu_from_frame is_standard
short_transmitted dev env ack recved check m h = (_, refl, refl, refl)
short_transmitted dev env nack recved check m h = (_, refl, refl, refl)
short_transmitted dev env busy recved check m h = (_, refl, refl, refl)
short_transmitted dev env nackbusy recved check m h = (_, refl, refl, refl)
short_transmitted dev env _ recved check m h = cc
