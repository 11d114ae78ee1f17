-- ===== src/Channel/Waiting/Loop.antt =====
-- The waiting loop of `CommBase::rx_sync` (EIBCommNEO/CommBase.cpp).
pub mod Ends
use edifice.Base.{
  ℕ, zero, suc, ◌+◌, ◌-◌, ◌*◌, ◌%◌, ◌^◌, Bool, not, ◌&&◌, ltb, ◌==◌, List, Option, none, some,
  Outcome, ret, ◌>>=◌, if◌then◌else◌,
}
use edifice.Channel.Queue.{RxData}
use edifice.Channel.Waiting.{
  Wanted, ResponseType, response_quit_forced, response_recving_timeout, response_of, take_wanted,
}

-- What the loop meets: the queue in each round, the reads of `m_quit_listen`, two in a round, and the tick count at
-- the end of each round.
pub record Rounds : Type 0 where
  pub queue_at : ℕ → List RxData
  pub quit_at : ℕ → Bool
  pub tick_at : ℕ → ℕ

-- The answer, with the entry that was taken and the queue without it.
abbrev pub Answer : Type 0
Answer = ResponseType × Option (RxData × List RxData)

-- The test of the time at the end of a round: no limit is -1.
unfoldable pub timed_out : ℕ → ℕ → ℕ → Bool
timed_out time_ent waiting_time time_now =
    not (waiting_time == 2 ^ 32 - 1)
    && not (ltb ((time_now + 2 ^ 32 - time_ent) % 2 ^ 32) waiting_time)

-- The end of a round, with what the next rounds give.
unfoldable pub scanned_round :
    Bool → Outcome (Option Answer) → Option (RxData × List RxData) → Outcome (Option Answer)
scanned_round late next (some (x, rest)) = ret (some (response_of x, some (x, rest)))
scanned_round late next none = if late then ret (some (response_recving_timeout, none)) else next

-- `rx_sync` from a round on, for so many rounds; `none` is that it waits still.
unfoldable pub rx_sync : ℕ → Rounds → Wanted → ℕ → ℕ → ℕ → Outcome (Option Answer)
rx_sync zero world w time_ent waiting_time n = ret none
rx_sync (suc fuel) world w time_ent waiting_time n =
    let next = rx_sync fuel world w time_ent waiting_time (n + 1) in
    if world.quit_at (2 * n)
    then ret (some (response_quit_forced, none))
    else if world.quit_at (2 * n + 1)
    then ret (some (response_quit_forced, none))
    else (take_wanted w (world.queue_at n) >>= λ o.
        scanned_round (timed_out time_ent waiting_time (world.tick_at n)) next o)
