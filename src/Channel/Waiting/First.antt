-- ===== src/Channel/Waiting/First.antt =====
-- Which entry of the queue the scan of `CommBase::rx_sync` (EIBCommNEO/CommBase.cpp) takes.
use mathlib.Core.Path.{subst}
use edifice.Base.{
  ◌+◌, ◌-◌, ◌%◌, ◌^◌, ◌<◌, ◌≡◌, refl, ap, arith, Bool, true, false, ltb, List, [], ◌∷◌, ◌++◌, All,
  Option, none, some, ret, ◌>>=◌, >>=-eq-ret, if◌then◌else◌,
}
use edifice.Channel.Queue.{RxData}
use edifice.Channel.Waiting.{Wanted, too_early, is_wanted, put_behind, take_wanted}

-- A scan that takes nothing has found no wanted entry; one that takes an entry takes the first wanted one.
unfoldable pub Taken : Wanted → List RxData → Option (RxData × List RxData) → Type 0
Taken w xs none = All (λ x. is_wanted w x ≡ ret false) xs
Taken w xs (some (x, rest)) =
    (before : List RxData) × (after : List RxData) × (xs ≡ before ++ (x ∷ after))
    × (rest ≡ before ++ after)
    × (is_wanted w x ≡ ret true)
    × All (λ y. is_wanted w y ≡ ret false) before

Taken-put_behind :
    (w : Wanted) (x : RxData) (xs : List RxData) (o : Option (RxData × List RxData))
    → is_wanted w x ≡ ret false
    → Taken w xs o
    → Taken w (x ∷ xs) (put_behind x o)
unfolding Taken
Taken-put_behind w x xs none e all = (e, all)
Taken-put_behind w x xs (some (y, ys)) e (before, after, split, left, wanted, others) =
    (x ∷ before, after, ap (λ l. x ∷ l) split, ap (λ l. x ∷ l) left, wanted, (e, others))

Taken-cons :
    (w : Wanted) (x : RxData) (xs : List RxData) (o : Option (RxData × List RxData)) (b : Bool)
    → ((r : Option (RxData × List RxData)) → take_wanted w xs ≡ ret r → Taken w xs r)
    → is_wanted w x ≡ ret b
    → (if b then ret (some (x, xs)) else take_wanted w xs >>= λ r. ret (put_behind x r)) ≡ ret o
    → Taken w (x ∷ xs) o
unfolding Taken
Taken-cons w x xs o true scan tested e =
    let same : some (x, xs) ≡ o = cc in
    subst (Taken w (x ∷ xs)) same ([], xs, refl, refl, tested, tt)
Taken-cons w x xs o false scan tested e =
    let (r, scanned, e₁) = >>=-eq-ret (take_wanted w xs) _ e in
    let same : put_behind x r ≡ o = cc in
    subst (Taken w (x ∷ xs)) same (Taken-put_behind w x xs r tested (scan r scanned))

-- The scan of `rx_sync`, if it comes to its end, takes the first entry of the queue that its tests accept,
-- and leaves the others in their order; where it takes none, they accept none.
pub take_wanted-Taken :
    (w : Wanted) (xs : List RxData) (o : Option (RxData × List RxData))
    → take_wanted w xs ≡ ret o
    → Taken w xs o
unfolding take_wanted Taken
take_wanted-Taken w [] o e = let nothing : none ≡ o = cc in subst (Taken w []) nothing tt
take_wanted-Taken w (x ∷ xs) o e =
    let (b, tested, e₁) = >>=-eq-ret (is_wanted w x) _ e in
    Taken-cons w x xs o b (take_wanted-Taken w xs) tested e₁

-- A caller that sets no sending time, -1, does not get a frame whose time stamp, one more, is below the
-- response time, whatever its addresses and its type.
unlimited_skips :
    (w : Wanted) (x : RxData)
    → w.sending_time ≡ 2 ^ 32 - 1
    → x.time_stamp + 1 < w.response_time
    → x.time_stamp < 2 ^ 32 - 1
    → is_wanted w x ≡ ret false
unfolding is_wanted too_early
unlimited_skips w x h early small =
    let wraps : (x.time_stamp + 2 ^ 32 - (2 ^ 32 - 1)) % 2 ^ 32 ≡ x.time_stamp + 1 = omega arith in
    let test : ltb (x.time_stamp + 1) w.response_time ≡ true = ground arith in
    rw (h, wraps, test) refl
