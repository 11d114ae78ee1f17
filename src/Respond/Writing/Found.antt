-- ===== src/Respond/Writing/Found.antt =====
-- The device that a request which writes changes (EIBCommNEO/apdu.cpp, EIBCommNEO/DeviceManager.cpp).
use edifice.Base.{
  ℕ, ◌≡◌, refl, ap, ◌∙◌, true, false, All, List, [], ◌∷◌, ◌++◌, Option, some, Outcome, ret, ◌>>=◌,
  Retcode, success,
}
use edifice.Apdu.Types.{Env, Apdu, Addr}
use edifice.Device.Manager.{IDevice, DeviceManager, host_addr_is}
use edifice.Respond.Writing.{Writers, at_daddr, answered_by}

-- The operation is done on the first device that has the address, and on no other.
pub at_daddr-found :
    {D A : Type 0} (dev : IDevice D) (addr : Addr) (operation : D → Outcome (D × A))
    (front back : List (ℕ × D)) (j : ℕ) (d d' : D) (r : A)
    → All (λ x. host_addr_is (dev.get_host_addr x.1) addr ≡ false) front
    → host_addr_is (dev.get_host_addr d) addr ≡ true
    → operation d ≡ ret (d', r)
    → at_daddr dev addr operation (front ++ ((j, d) ∷ back))
      ≡ ret (some r, front ++ ((j, d') ∷ back))
unfolding at_daddr
at_daddr-found dev addr operation [] back j d d' r others has done = rw (has, done) refl
at_daddr-found dev addr operation ((k, x) ∷ front) back j d d' r (other, others) has done =
    rw (other, at_daddr-found dev addr operation front back j d d' r others has done) refl

pub answered_by-found :
    {D : Type 0} (svc : Writers D) (env : Env) (answer : Option Retcode → Apdu) (a : Apdu)
    (operation : D → Outcome (D × Retcode)) (m : DeviceManager D) (front back : List (ℕ × D))
    (j : ℕ) (d d' : D) (r : Retcode)
    → m.devs ≡ front ++ ((j, d) ∷ back)
    → All (λ x. host_addr_is (svc.host.get_host_addr x.1) a.peeraddr ≡ false) front
    → host_addr_is (svc.host.get_host_addr d) a.peeraddr ≡ true
    → operation d ≡ ret (d', r)
    → answered_by svc env answer a operation m
      ≡ ret ((some (answer (some r)), success), record m { devs = front ++ ((j, d') ∷ back) })
unfolding answered_by
answered_by-found svc env answer a operation m front back j d d' r there others has done =
    ap
      (λ ds. at_daddr svc.host a.peeraddr operation ds >>= λ (q, ds').
        ret ((some (answer q), success), record m { devs = ds' }))
      there
    ∙ ap (λ x. x >>= λ (q, ds'). ret ((some (answer q), success), record m { devs = ds' }))
        (at_daddr-found svc.host a.peeraddr operation front back j d d' r others has done)
