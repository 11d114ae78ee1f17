-- ===== src/Channel/Waiting/Loop/Ends.antt =====
-- That a caller of `CommBase::rx_sync` (EIBCommNEO/CommBase.cpp) with a time limit gets an answer.
use edifice.Base.{
  ℕ, zero, suc, ◌+◌, ◌-◌, ◌*◌, ◌%◌, ◌^◌, ◌≤◌, ◌<◌, ◌≡◌, ◌≢◌, ◌∙◌, ◌⊎◌, refl, inl, inr, arith, Bool,
  true, false, ◌&&◌, List, [], ◌∷◌, All, if◌then◌else◌, Option, none, some, Outcome, ret,
  Bool-cases,
}
use edifice.Apdu.Types.{Addr}
use edifice.Frame.Types.{get_host_addr, get_peer_addr, is_one_byte_frame}
use edifice.Channel.Queue.{RxData}
use edifice.Channel.Waiting.{
  Wanted, response_normal, response_short, response_quit_forced, response_recving_timeout,
  response_of, too_early, address_expected, type_expected, is_wanted, put_behind, take_wanted,
}
use edifice.Channel.Waiting.First.{Taken, take_wanted-Taken}
use edifice.Channel.Waiting.Loop.{Rounds, Answer, timed_out, scanned_round, rx_sync}

-- The addresses of the frame are inside its bytes.
pub record IsReadable (x : RxData) : Type 0 where
  pub host : Option Addr
  pub host_read : get_host_addr x.frame ≡ ret host
  pub peer : Option Addr
  pub peer_read : get_peer_addr x.frame ≡ ret peer

address_expected_ends :
    (a : Option Addr) (o : Option Addr) → (b : Bool) × (address_expected a (ret o) ≡ ret b)
unfolding address_expected
address_expected_ends none o = (true, refl)
address_expected_ends (some a) o = (_, refl)

is_wanted_ends : (w : Wanted) (x : RxData) → IsReadable x → (b : Bool) × (is_wanted w x ≡ ret b)
unfolding is_wanted
is_wanted_ends w x readable =
    let (from_ok, e) = address_expected_ends w.from readable.host in
    let (to_ok, e') = address_expected_ends w.to readable.peer in
    elim (Bool-cases (too_early w x)) [
      | inl early ↦ (false, rw early refl)
      | inr late ↦ (
        from_ok && to_ok && type_expected w.expected_types x.type,
        rw (late, readable.host_read, readable.peer_read, e, e') refl,
      )
    ]

take_wanted_ends :
    (w : Wanted) (xs : List RxData)
    → All IsReadable xs
    → (o : Option (RxData × List RxData)) × (take_wanted w xs ≡ ret o)
unfolding take_wanted
take_wanted_ends w [] all = (none, refl)
take_wanted_ends w (x ∷ xs) (readable, all) =
    let (b, tested) = is_wanted_ends w x readable in
    let (o, scanned) = take_wanted_ends w xs all in
    elim (Bool-cases b) [
      | inl wanted ↦ (some (x, xs), rw (tested, wanted) refl)
      | inr other ↦ (put_behind x o, rw (tested, other, scanned) refl)
    ]

-- What a call says by the end of a round: it was made to quit, at one of the two reads; or the scan took an entry of
-- the queue; or it took none, there is a time limit, and it is reached.
pub data Answered (world : Rounds) (w : Wanted) (time_ent waiting_time n : ℕ)
    : Answer → Type 0 where
  quits :
      (world.quit_at (2 * n) ≡ true) ⊎ (world.quit_at (2 * n + 1) ≡ true)
      → Answered world w time_ent waiting_time n (response_quit_forced, none)
  takes :
      (x : RxData) (rest : List RxData)
      → Taken w (world.queue_at n) (some (x, rest))
      → Answered world w time_ent waiting_time n
          (if is_one_byte_frame x.frame then response_short else response_normal, some (x, rest))
  gives_up :
      All (λ x. is_wanted w x ≡ ret false) (world.queue_at n)
      → waiting_time ≢ 2 ^ 32 - 1
      → waiting_time ≤ (world.tick_at n + 2 ^ 32 - time_ent) % 2 ^ 32
      → Answered world w time_ent waiting_time n (response_recving_timeout, none)

timed_out_iff :
    (time_ent waiting_time time_now : ℕ)
    → timed_out time_ent waiting_time time_now ≡ true
    → (waiting_time ≢ 2 ^ 32 - 1) × (waiting_time ≤ (time_now + 2 ^ 32 - time_ent) % 2 ^ 32)
unfolding timed_out
timed_out_iff time_ent waiting_time time_now e = ground (arith, e)

timed_out_late :
    (time_ent waiting_time time_now : ℕ)
    → waiting_time ≢ 2 ^ 32 - 1
    → waiting_time ≤ (time_now + 2 ^ 32 - time_ent) % 2 ^ 32
    → timed_out time_ent waiting_time time_now ≡ true
unfolding timed_out
timed_out_late time_ent waiting_time time_now h h' = ground (arith, h, h')

-- The answer that is given in a round, or by the next rounds where this one gives none.
module _ (world : Rounds) (w : Wanted) (time_ent waiting_time : ℕ) where
  abbrev HasAnswer : ℕ → Outcome (Option Answer) → Type 0
  HasAnswer n o =
      (answer : Answer) × Answered world w time_ent waiting_time n answer × (o ≡ ret (some answer))

  scanned_round_ends :
      (n : ℕ) (next : Outcome (Option Answer)) (o : Option (RxData × List RxData))
      → Taken w (world.queue_at n) o
      → HasAnswer n (scanned_round (timed_out time_ent waiting_time (world.tick_at n)) next o)
        ⊎ (scanned_round (timed_out time_ent waiting_time (world.tick_at n)) next o ≡ next)
          × (timed_out time_ent waiting_time (world.tick_at n) ≡ false)
  unfolding scanned_round Taken response_of is_one_byte_frame
  scanned_round_ends n next (some (x, rest)) taken = inl (_, takes x rest taken, refl)
  scanned_round_ends n next none skipped =
      elim (Bool-cases (timed_out time_ent waiting_time (world.tick_at n))) [
        | inl late ↦
            (let (limited, reached) = timed_out_iff time_ent waiting_time (world.tick_at n) late in
              inl
                ((response_recving_timeout, none), gives_up skipped limited reached, rw late refl))
        | inr soon ↦ inr (rw soon refl, soon)
      ]

  round_ends :
      (fuel n : ℕ)
      → All IsReadable (world.queue_at n)
      → HasAnswer n (rx_sync (suc fuel) world w time_ent waiting_time n)
        ⊎ (rx_sync (suc fuel) world w time_ent waiting_time n
            ≡ rx_sync fuel world w time_ent waiting_time (n + 1))
          × (timed_out time_ent waiting_time (world.tick_at n) ≡ false)
  unfolding rx_sync
  round_ends fuel n readable =
      let quit : Answer = (response_quit_forced, none) in
      let (o, scanned) = take_wanted_ends w (world.queue_at n) readable in
      let next = rx_sync fuel world w time_ent waiting_time (n + 1) in
      elim (Bool-cases (world.quit_at (2 * n))) [
        | inl first ↦ inl (quit, quits (inl first), rw first refl)
        | inr go ↦ elim (Bool-cases (world.quit_at (2 * n + 1))) [
          | inl second ↦ inl (quit, quits (inr second), rw (go, second) refl)
          | inr on ↦
              elim (scanned_round_ends n next o
                (take_wanted-Taken w (world.queue_at n) o scanned)) [
                  | inl (answer, why, ended) ↦ inl (answer, why, rw (go, on, scanned) ended)
                  | inr (later, soon) ↦ inr (rw (go, on, scanned) later, soon)
                ]
        ]
      ]

-- A call of `rx_sync` with a time limit gets an answer by the end of the first round in which the limit is
-- reached, whatever the queue and the requests to quit are in the rounds, if the addresses of every
-- frame in the queue can be read. The answer is one of three, by what is found in its round: that the call
-- was made to quit, where a read of `m_quit_listen` in this round says so; the first entry of the queue that
-- the tests accept, which leaves the queue, with the code of a short frame or of a normal one; or a time-out without a frame, where they accept none and the
-- limit is reached in this round.
pub rx_sync_ends :
    (world : Rounds) (w : Wanted) (time_ent waiting_time n k fuel : ℕ)
    → ((i : ℕ) → All IsReadable (world.queue_at i))
    → waiting_time ≢ 2 ^ 32 - 1
    → waiting_time ≤ (world.tick_at (n + k) + 2 ^ 32 - time_ent) % 2 ^ 32
    → k < fuel
    → (i : ℕ) × (answer : Answer) × (i ≤ k)
      × Answered world w time_ent waiting_time (n + i) answer
      × (rx_sync fuel world w time_ent waiting_time n ≡ ret (some answer))
rx_sync_ends world w time_ent waiting_time n k zero readable limited reached h =
    absurd (omega arith)
rx_sync_ends world w time_ent waiting_time n zero (suc fuel) readable limited reached h =
    let here : n + 0 ≡ n = omega arith in
    elim (round_ends world w time_ent waiting_time fuel n (readable n)) [
      | inl (answer, why, ended) ↦ (0, answer, omega arith, rw here why, ended)
      | inr (later, soon) ↦ cc (
          rw (timed_out_late time_ent waiting_time (world.tick_at n) limited (rw here at reached))
            at soon)
    ]
rx_sync_ends world w time_ent waiting_time n (suc k) (suc fuel) readable limited reached h =
    let here : n + 0 ≡ n = omega arith in
    let there : n + suc k ≡ n + 1 + k = omega arith in
    elim (round_ends world w time_ent waiting_time fuel n (readable n)) [
      | inl (answer, why, ended) ↦ (0, answer, omega arith, rw here why, ended)
      | inr (later, soon) ↦
          (let (i, answer, before, why, ended) =
              rx_sync_ends world w time_ent waiting_time (n + 1) k fuel readable limited
                (rw there at reached) (omega (arith, h)) in
            let round : n + suc i ≡ n + 1 + i = omega arith in
            (suc i, answer, omega (arith, before), rw round why, later ∙ ended))
    ]
