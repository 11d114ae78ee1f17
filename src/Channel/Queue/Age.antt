-- ===== src/Channel/Queue/Age.antt =====
-- The frames that `ClearOldFrames` of EIBCommNEO/CommBase.cpp keeps.
use edifice.Base.{
  ℕ, ◌+◌, ◌-◌, ◌*◌, ◌%◌, ◌^◌, ◌≤◌, ◌<◌, ◌≡◌, refl, inl, inr, arith, false, not, ltb, List, [], ◌∷◌,
  All, if◌then◌else◌, Bool-cases,
}
use edifice.Channel.Queue.{RxData, elapsed_time, is_old, count_old, clear_old_frames}

-- The frames that are not old.
pub young : ℕ → ℕ → List RxData → List RxData
young life now [] = []
young life now (x ∷ xs) = if is_old life now x then young life now xs else x ∷ young life now xs

-- The frames stand in the order of their time stamps, the last of which is not after `now`.
unfoldable pub Ordered : ℕ → List RxData → Type 0
Ordered now [] = Unit
Ordered now (x ∷ xs) =
    (x.time_stamp ≤ now) × All (λ y. x.time_stamp ≤ y.time_stamp) xs × Ordered now xs

wrapped : (now t : ℕ) → now < 2 ^ 32 → t ≤ now → (now + 2 ^ 32 - t) % 2 ^ 32 ≡ now - t
wrapped now t small past = omega arith

sooner : (a b limit : ℕ) → a ≤ b → not (ltb b limit) ≡ false → not (ltb a limit) ≡ false
sooner a b limit h e = ground arith

-- A frame that came after a young one is young.
later_young :
    (life now : ℕ) (x y : RxData)
    → now < 2 ^ 32
    → y.time_stamp ≤ now
    → x.time_stamp ≤ y.time_stamp
    → is_old life now x ≡ false
    → is_old life now y ≡ false
unfolding is_old elapsed_time
later_young life now x y small past after fresh =
    let ex = wrapped now x.time_stamp small (omega arith) in
    let ey = wrapped now y.time_stamp small past in
    sooner ((now + 2 ^ 32 - y.time_stamp) % 2 ^ 32) ((now + 2 ^ 32 - x.time_stamp) % 2 ^ 32)
      (life * 1000 % 2 ^ 32) (rw (ex, ey) (omega arith)) fresh

all_young :
    (life now : ℕ) (x : RxData) (xs : List RxData)
    → now < 2 ^ 32
    → is_old life now x ≡ false
    → Ordered now xs
    → All (λ y. x.time_stamp ≤ y.time_stamp) xs
    → x.time_stamp ≤ now
    → young life now xs ≡ xs
unfolding young Ordered
all_young life now x [] small fresh ordered after past = refl
all_young life now x (y ∷ ys) small fresh (y_past, later, ordered) (y_after, after) past =
    let y_fresh : is_old life now y ≡ false = later_young life now x y small y_past y_after fresh in
    rw (y_fresh, all_young life now x ys small fresh ordered after past) refl

-- In a queue in the order of the time stamps, none of which is after the present tick count, a `uint`,
-- `ClearOldFrames` keeps exactly the frames that are younger than the life time, in their order.
pub clear_old_frames-young :
    (life now : ℕ) (rx_list : List RxData)
    → now < 2 ^ 32
    → Ordered now rx_list
    → clear_old_frames life now rx_list ≡ young life now rx_list
unfolding clear_old_frames count_old young Ordered
clear_old_frames-young life now [] small ordered = refl
clear_old_frames-young life now (x ∷ xs) small (past, later, ordered) =
    elim (Bool-cases (is_old life now x)) [
      | inl old ↦ rw old (clear_old_frames-young life now xs small ordered)
      | inr fresh ↦ rw (fresh, all_young life now x xs small fresh ordered later past) refl
    ]
