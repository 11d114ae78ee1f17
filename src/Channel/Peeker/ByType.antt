-- ===== src/Channel/Peeker/ByType.antt =====
-- The filter of `CommBase::FramePeeker` of EIBCommNEO/CommBase.cpp.
use edifice.Base.{
  ◌≡◌, refl, ap, false, List, [], ◌∷◌, Option, none, some, Outcome, ret, fault, ◌>>=◌,
  if◌then◌else◌,
}
use edifice.Apdu.Types.{Env, Apdu, ApduType}
use edifice.Frame.Extract.{build_apdu_from_frame}
use edifice.Channel.Queue.{RxData}
use edifice.Channel.Peeker.{FramePeek, passes, peeked, peeks, frame_peeker}

of_type : ApduType → List FramePeek → List FramePeek
of_type t [] = []
of_type t (y ∷ ys) = if passes (some t) y.type then y ∷ of_type t ys else of_type t ys

options_of_type : ApduType → Option (List FramePeek) → Option (List FramePeek)
options_of_type t none = none
options_of_type t (some ys) = some (of_type t ys)

peeked-of_type :
    (t : ApduType) (x : RxData) (apdu : Option Apdu) (ys : List FramePeek)
    → peeked (some t) x apdu (of_type t ys) ≡ of_type t (peeked none x apdu ys)
unfolding peeked of_type passes
peeked-of_type t x none ys = refl
peeked-of_type t x (some apdu) ys = refl

peeked_results :
    (t : ApduType) (x : RxData) (apdu : Outcome (Option Apdu)) (rest : Outcome (List FramePeek))
    → (apdu >>= λ a. (rest >>= λ ys. ret (of_type t ys)) >>= λ ys. ret (peeked (some t) x a ys))
      ≡ ((apdu >>= λ a. rest >>= λ ys. ret (peeked none x a ys)) >>= λ ys. ret (of_type t ys))
peeked_results t x (ret a) (ret ys) = ap ret (peeked-of_type t x a ys)
peeked_results t x (ret a) Outcome.aborted = refl
peeked_results t x (ret a) fault = refl
peeked_results t x Outcome.aborted rest = refl
peeked_results t x fault rest = refl

-- A look with a type as the filter gives, of what a look without one gives, what is of that type.
peeks-of_type :
    (env : Env) (t : ApduType) (xs : List RxData)
    → peeks env (some t) xs ≡ (peeks env none xs >>= λ ys. ret (of_type t ys))
unfolding peeks of_type
peeks-of_type env t [] = refl
peeks-of_type env t (x ∷ xs) =
    rw (peeks-of_type env t xs)
      (peeked_results t x (build_apdu_from_frame env x.frame) (peeks env none xs))

-- While nobody has locked the peeker: what a look with a type as the filter gives is, in its order, what of
-- a look without a filter is of that type.
frame_peeker-of_type :
    (env : Env) (t : ApduType) (rx_list : List RxData)
    → frame_peeker env false (some t) rx_list
      ≡ (frame_peeker env false none rx_list >>= λ o. ret (options_of_type t o))
unfolding frame_peeker options_of_type
frame_peeker-of_type env t rx_list =
    rw (peeks-of_type env t rx_list) (through (peeks env none rx_list))
  where
    through :
        (p : Outcome (List FramePeek))
        → ((p >>= λ ys. ret (of_type t ys)) >>= λ ys. ret (some ys))
          ≡ ((p >>= λ ys. ret (some ys)) >>= λ o. ret (options_of_type t o))
    through (ret ys) = refl
    through Outcome.aborted = refl
    through fault = refl
