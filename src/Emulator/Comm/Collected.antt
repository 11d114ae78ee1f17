-- ===== src/Emulator/Comm/Collected.antt =====
-- What `CommBase::rx_sync_ex` (EIBCommNEO/CommBase.cpp) collects, and when it does not end.
use edifice.Base.{ℕ, zero, suc, ◌≡◌, ◌≢◌, refl, List, [], ◌∷◌, ◌++◌, Option, some, none, ret, fault}
use edifice.Frame.Types.{Frame}
use edifice.Channel.Waiting.{
  Wanted, ResponseType, response_normal, response_recving_timeout, response_quit_forced,
}
use edifice.Emulator.Comm.{Comm, collected, rx_sync_ex}

-- Calls of `rx_sync`, one after the other, up to the first that times out: their number, the states before and after
-- them, and the frames of the normal answers in their order. A normal answer gives its frame; every other
-- answer, and a normal one without a frame, gives none.
pub data Calls {S : Type 0} (c : Comm S) (w : Wanted) : ℕ → S → List Frame → S → Type 0 where
  times_out :
      (s s' : S) (o : Option Frame)
      → c.rx_sync s w c.rx_time_out ≡ ret ((response_recving_timeout, o), s')
      → Calls c w 1 s [] s'
  answers :
      (n : ℕ) (s s₁ s' : S) (f : Frame) (frames : List Frame)
      → c.rx_sync s w c.rx_time_out ≡ ret ((response_normal, some f), s₁)
      → Calls c w n s₁ frames s'
      → Calls c w (suc n) s (f ∷ frames) s'
  empty :
      (n : ℕ) (s s₁ s' : S) (frames : List Frame)
      → c.rx_sync s w c.rx_time_out ≡ ret ((response_normal, none), s₁)
      → Calls c w n s₁ frames s'
      → Calls c w (suc n) s frames s'
  others :
      (n : ℕ) (s s₁ s' : S) (r : ResponseType) (o : Option Frame) (frames : List Frame)
      → r ≢ response_normal
      → r ≢ response_recving_timeout
      → c.rx_sync s w c.rx_time_out ≡ ret ((r, o), s₁)
      → Calls c w n s₁ frames s'
      → Calls c w (suc n) s frames s'

module _ {S : Type 0} (c : Comm S) (w : Wanted) where
  -- Once every call of `rx_sync` only says that the channel was closed, `rx_sync_ex` does not end.
  pub rx_sync_ex_hangs :
      (fuel : ℕ) (s : S) (before : List Frame)
      → c.rx_sync s w c.rx_time_out ≡ ret ((response_quit_forced, none), s)
      → rx_sync_ex c fuel s w before ≡ fault
  unfolding rx_sync_ex collected
  rx_sync_ex_hangs zero s before quit = refl
  rx_sync_ex_hangs (suc fuel) s before quit = rw quit (rx_sync_ex_hangs fuel s (before ++ []) quit)
