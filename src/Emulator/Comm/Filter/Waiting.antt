-- ===== src/Emulator/Comm/Filter/Waiting.antt =====
-- The channel whose `rx_sync` is that of CommBase (EIBCommNEO/CommBase.cpp) fulfils the law of the interface.
use edifice.Base.{
  ℕ, zero, suc, ◌+◌, ◌*◌, ◌≡◌, inl, inr, Bool, true, false, List, Option, none, some, Outcome, ret,
  fault, ◌>>=◌, >>=-eq-ret, Bool-cases,
}
use mathlib.Core.Path.{subst}
use edifice.Frame.Types.{Frame}
use edifice.Channel.Queue.{RxData}
use edifice.Channel.Waiting.{
  Wanted, is_wanted, take_wanted, ResponseType, response_of, response_recving_timeout,
  response_quit_forced, response_sending_okay,
}
use edifice.Channel.Waiting.First.{Taken, take_wanted-Taken}
use edifice.Channel.Waiting.Loop.{Rounds, Answer, scanned_round, timed_out, rx_sync}
use edifice.Emulator.Comm.{Comm}
use edifice.Emulator.Comm.Filter.{WasWanted, Filters}

-- An answer that takes an entry takes a wanted one.
Wants : Wanted → Option Answer → Type 0
Wants w none = Unit
Wants w (some (r, none)) = Unit
Wants w (some (r, some (x, rest))) = is_wanted w x ≡ ret true

same_answer :
    (w : Wanted) (b a : Option Answer)
    → ◌≡◌ {A = Outcome (Option Answer)} (ret b) (ret a)
    → Wants w b
    → Wants w a
same_answer w b a e wants = let same : b ≡ a = cc in subst (Wants w) same wants

scanned_round-Wants :
    (w : Wanted) (xs : List RxData) (late : Bool) (next : Outcome (Option Answer))
    (o : Option (RxData × List RxData)) (a : Option Answer)
    → Taken w xs o
    → ((b : Option Answer) → next ≡ ret b → Wants w b)
    → scanned_round late next o ≡ ret a
    → Wants w a
unfolding scanned_round Taken Wants
scanned_round-Wants w xs late next (some (x, rest)) a taken later e =
    let (before, after, split, left, wanted, others) = taken in
    same_answer w (some (response_of x, some (x, rest))) a e wanted
scanned_round-Wants w xs true next none a taken later e =
    same_answer w (some (response_recving_timeout, none)) a e tt
scanned_round-Wants w xs false next none a taken later e = later a e

rx_sync-Wants :
    (fuel : ℕ) (world : Rounds) (w : Wanted) (time_ent waiting_time n : ℕ) (a : Option Answer)
    → rx_sync fuel world w time_ent waiting_time n ≡ ret a
    → Wants w a
unfolding rx_sync Wants
rx_sync-Wants zero world w time_ent waiting_time n a e = same_answer w none a e tt
rx_sync-Wants (suc fuel) world w time_ent waiting_time n a e =
    elim (Bool-cases (world.quit_at (2 * n))) [
      | inl quit ↦ same_answer w (some (response_quit_forced, none)) a (rw quit at e) tt
      | inr go ↦ elim (Bool-cases (world.quit_at (2 * n + 1))) [
        | inl quit ↦ same_answer w (some (response_quit_forced, none)) a (rw (go, quit) at e) tt
        | inr on ↦
            (let (o, scanned, e₁) =
                >>=-eq-ret (take_wanted w (world.queue_at n)) _ (rw (go, on) at e) in
              scanned_round-Wants w (world.queue_at n)
                (timed_out time_ent waiting_time (world.tick_at n))
                (rx_sync fuel world w time_ent waiting_time (n + 1)) o a
                (take_wanted-Taken w (world.queue_at n) o scanned)
                (rx_sync-Wants fuel world w time_ent waiting_time (n + 1)) e₁)
      ]
    ]

-- The frame of an answer, and the next state; a call that waits still has no end.
unfoldable pub answered : ℕ → Option Answer → Outcome ((ResponseType × Option Frame) × ℕ)
answered s none = fault
answered s (some (r, none)) = ret ((r, none), suc s)
answered s (some (r, some (x, rest))) = ret ((r, some x.frame), suc s)

-- A channel whose calls of `rx_sync` are that of CommBase: what each call meets, the time when it begins
-- and the rounds it has are given, and its state is the number of calls. A frame that is sent
-- is given to the sending thread.
unfoldable pub waiting_comm : (ℕ → Rounds) → (ℕ → ℕ) → ℕ → ℕ → ℕ → Comm ℕ
unfolding answered
waiting_comm world_of ticks fuel response_time rx_time_out = record {
  response_time = response_time;
  rx_time_out = rx_time_out;
  get_tick_count = λ s. (ticks s, suc s);
  tx_sync = λ s f. (response_sending_okay, suc s);
  rx_sync = λ s w waiting_time.
      rx_sync fuel (world_of s) w (ticks s) waiting_time 0 >>= λ a. answered s a;
}

answered_wanted :
    (w : Wanted) (a : Option Answer) (r : ResponseType) (f : Frame) (s s' : ℕ)
    → Wants w a
    → answered s a ≡ ret ((r, some f), s')
    → WasWanted w f
unfolding answered Wants
answered_wanted w none r f s s' wants e = cc
answered_wanted w (some (r', none)) r f s s' wants e = cc
answered_wanted w (some (r', some (x, rest))) r f s s' wants e = (x, cc, wants)

-- Every frame that it gives has passed the tests on the addresses, the time and the type.
pub waiting_comm-Filters :
    (world_of : ℕ → Rounds) (ticks : ℕ → ℕ) (fuel response_time rx_time_out : ℕ)
    → Filters (waiting_comm world_of ticks fuel response_time rx_time_out)
unfolding waiting_comm
waiting_comm-Filters world_of ticks fuel response_time rx_time_out = record {
  wanted = λ s w waiting_time r f s' e.
      let (a, waited, e₁) = >>=-eq-ret (rx_sync fuel (world_of s) w (ticks s) waiting_time 0) _ e in
      answered_wanted w a r f s s'
        (rx_sync-Wants fuel (world_of s) w (ticks s) waiting_time 0 a waited) e₁;
}
