-- ===== src/Emulator/Comm/Filter.antt =====
-- The law of a channel that the emulator relies on, and that it carries over to `CommBase::rx_sync_ex`
-- (EIBCommNEO/CommBase.cpp).
pub mod Waiting
use edifice.Base.{
  ℕ, zero, suc, ◌≡◌, refl, sym, ap, ◌∙◌, inl, inr, Bool, true, false, List, [], ◌∷◌, ◌++◌, All,
  Option, none, some, Outcome, ret, fault, ◌>>=◌, >>=-eq-ret, if◌then◌else◌, Bool-cases,
}
use mathlib.Core.Path.{subst}
use edifice.Frame.Types.{Frame}
use edifice.Channel.Queue.{RxData}
use edifice.Channel.Waiting.{Wanted, is_wanted, ResponseType, response_normal}
use edifice.Emulator.Comm.{Comm, collected, is_time_out, rx_sync_ex}

-- A frame that came in an entry that passes the tests of `rx_sync`.
abbrev pub WasWanted : Wanted → Frame → Type 0
WasWanted w f = (x : RxData) × (x.frame ≡ f) × (is_wanted w x ≡ ret true)

-- Every frame that the channel gives is a wanted one.
pub record Filters {S : Type 0} (c : Comm S) : Type 0 where
  pub wanted :
      (s : S) (w : Wanted) (waiting_time : ℕ) (r : ResponseType) (f : Frame) (s' : S)
      → c.rx_sync s w waiting_time ≡ ret ((r, some f), s')
      → WasWanted w f

All-join : {A : Type 0} (P : A → Type 0) (xs ys : List A) → All P xs → All P ys → All P (xs ++ ys)
All-join P [] ys all all' = all'
All-join P (x ∷ xs) ys (p, all) all' = (p, All-join P xs ys all all')

module _ {S : Type 0} (c : Comm S) (filters : Filters c) where
  collected-WasWanted :
      (s : S) (w : Wanted) (waiting_time : ℕ) (r : ResponseType) (o : Option Frame) (s' : S)
      → c.rx_sync s w waiting_time ≡ ret ((r, o), s')
      → All (WasWanted w) (collected r o)
  unfolding collected
  collected-WasWanted s w waiting_time response_normal (some f) s' e =
      (filters.wanted s w waiting_time response_normal f s' e, tt)
  collected-WasWanted s w waiting_time _ _ s' e = tt

  -- Every frame that `rx_sync_ex` gives, if a time-out ends it, is a wanted one.
  pub rx_sync_ex-WasWanted :
      (fuel : ℕ) (s : S) (w : Wanted) (before : List Frame) (frames : List Frame) (s' : S)
      → All (WasWanted w) before
      → rx_sync_ex c fuel s w before ≡ ret (frames, s')
      → All (WasWanted w) frames
  unfolding rx_sync_ex
  rx_sync_ex-WasWanted zero s w before frames s' all e = cc
  rx_sync_ex-WasWanted (suc fuel) s w before frames s' all e =
      let (((r, o), s₁), received, e₁) = >>=-eq-ret (c.rx_sync s w c.rx_time_out) _ e in
      elim (Bool-cases (is_time_out r)) [
        | inl late ↦
            (let same : before ≡ frames = cc (rw late at e₁) in subst (All (WasWanted w)) same all)
        | inr go ↦
            rx_sync_ex-WasWanted fuel s₁ w (before ++ collected r o) frames s'
              (All-join (WasWanted w) before (collected r o) all
                (collected-WasWanted s w c.rx_time_out r o s₁ received))
              (rw go at e₁)
      ]
