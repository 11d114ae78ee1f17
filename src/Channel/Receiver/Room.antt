-- ===== src/Channel/Receiver/Room.antt =====
-- What every round of `CommBase::rx_thread` (EIBCommNEO/CommBase.cpp) keeps.
use edifice.Base.{
  ℕ, zero, suc, ◌+◌, ◌-◌, ◌≤◌, ◌≡◌, ◌∙◌, refl, sym, ap, arith, Bool, List, [], ◌∷◌, ◌++◌, length,
  length-append, take, length-take, drop, Option, none, some, Outcome, ret, fault, >>=-eq-ret,
  slice, memcpy,
}
use mathlib.Core.Path.{subst}
use edifice.Apdu.Types.{Env}
use edifice.Device.Manager.{IDevice, DeviceManager}
use edifice.Frame.Types.{Frame}
use edifice.Frame.Parse.{one_byte_from_buff}
use edifice.Channel.Buffer.{buff_size, buffered}
use edifice.Channel.Buffer.Room.{newest, buffered-newest}
use edifice.Channel.Parser.{Found, taken_or_not, cut, try_indices, frame_parser}
use edifice.Channel.Receiver.{Receiver, entries, queued, rx_round}

-- The buffer is whole, and has room for 256 bytes.
pub record HasRoom {D : Type 0} (r : Receiver D) : Type 0 where
  pub whole : length r.big_buff ≡ buff_size
  pub room : r.big_buff_occupied ≤ 768

length_of : Outcome (List ℕ) → ℕ
length_of (ret mem) = length mem
length_of Outcome.aborted = 0
length_of fault = 0

-- A copy leaves the length.
length-memcpy :
    (mem : List ℕ) (k : ℕ) (src : List ℕ) {mem' : List ℕ}
    → memcpy mem k src ≡ ret mem'
    → length mem' ≡ length mem
unfolding memcpy length_of
length-memcpy mem zero [] e = ap length_of (sym e)
length-memcpy [] zero (y ∷ ys) e = cc
length-memcpy (x ∷ mem) zero (y ∷ ys) {mem'} e =
    let (zs, copied, e₁) = >>=-eq-ret (memcpy mem zero ys) _ e in
    ap length_of (sym e₁) ∙ ap suc (length-memcpy mem zero ys copied)
length-memcpy [] (suc k) ys e = cc
length-memcpy (x ∷ mem) (suc k) ys {mem'} e =
    let (zs, copied, e₁) = >>=-eq-ret (memcpy mem k ys) _ e in
    ap length_of (sym e₁) ∙ ap suc (length-memcpy mem k ys copied)

-- What the parser leaves is no longer, in a buffer of the same length.
SameRoom : List ℕ → ℕ → (List ℕ × ℕ) × List Frame → Type 0
SameRoom mem mem_len ((mem', mem_len'), frames) = (length mem' ≡ length mem) × (mem_len' ≤ mem_len)

module _ {D : Type 0} (dev : IDevice D) (env : Env) (check_address : Bool) where
  frame_parser-SameRoom :
      (mem : List ℕ) (mem_len : ℕ) (m : DeviceManager D) (out : (List ℕ × ℕ) × List Frame)
      {m' : DeviceManager D}
      → frame_parser dev env check_address mem mem_len m ≡ ret (out, m')
      → SameRoom mem mem_len out
  unfolding frame_parser cut SameRoom
  frame_parser-SameRoom mem mem_len m out {m' = m'} e =
      let (r, tried, e₁) = >>=-eq-ret (try_indices dev env check_address mem 0 mem_len m) _ e in
      by_result r e₁
    where
      by_result :
          (r : Option Found × DeviceManager D)
          → taken_or_not mem mem_len r ≡ ret (out, m')
          → SameRoom mem mem_len out
      by_result (none, m₁) e₁ =
          let same : ((mem, mem_len), []) ≡ out = cc in
          subst (SameRoom mem mem_len) same (refl, omega arith)
      by_result (some found, m₁) e₁ =
          let head = found.index + found.len in
          let (t, cut_out, e₂) = >>=-eq-ret (cut mem mem_len found) _ e₁ in
          let (rest, read, e₃) = >>=-eq-ret (slice mem head (mem_len - head)) _ cut_out in
          let (mem', moved, e₄) = >>=-eq-ret (memcpy mem 0 rest) _ e₃ in
          let same : ((mem', mem_len - head), found.frames) ≡ out = cc in
          subst (SameRoom mem mem_len) same
            (length-memcpy mem 0 rest {mem' = mem'} moved, omega arith)

take-drop : (k : ℕ) (xs : List ℕ) → k ≤ length xs → xs ≡ take k xs ++ drop k xs
take-drop zero xs h = refl
take-drop (suc k) [] h = absurd (omega arith)
take-drop (suc k) (x ∷ xs) h = ap (λ l. x ∷ l) (take-drop k xs (omega (arith, h)))

receiver_of : {D : Type 0} → Outcome (Receiver D) → Receiver D → Receiver D
receiver_of (ret r) r' = r
receiver_of Outcome.aborted r' = r'
receiver_of fault r' = r'

parts_of : Outcome (List ℕ × ℕ) → List ℕ × ℕ
parts_of (ret p) = p
parts_of Outcome.aborted = ([], 0)
parts_of fault = ([], 0)

-- A reception of at most 256 bytes is copied, and keeps the buffer as it has to be.
buffered_fits :
    (mem : List ℕ) (occupied : ℕ) (bytes : List ℕ)
    → length mem ≡ buff_size
    → occupied ≤ 768
    → length bytes ≤ 256
    → (p : List ℕ × ℕ) × (buffered mem occupied bytes ≡ ret p)
      × (length p.0 ≡ buff_size)
      × (p.1 ≤ 768)
buffered_fits mem occupied bytes whole room few =
    let held = take occupied mem in
    let rest = drop occupied mem in
    let split = take-drop occupied mem (omega (arith, whole)) in
    let count = length-take occupied mem (omega (arith, whole)) in
    let all = length-append held rest in
    let (rest', made, sum, small) =
      buffered-newest held rest bytes (sym all ∙ ap length (sym split) ∙ whole)
        (omega (arith, count)) few in
    (
      (newest (held ++ bytes) ++ rest', length (newest (held ++ bytes))),
      ap (λ l. buffered l occupied bytes) split
          ∙ ap (λ n. buffered (held ++ rest) n bytes) (sym count)
          ∙ made,
      omega (arith, length-append (newest (held ++ bytes)) rest', sum),
      small,
    )

pub buffered_defined :
    (mem : List ℕ) (occupied : ℕ) (bytes : List ℕ)
    → length mem ≡ buff_size
    → occupied ≤ 768
    → length bytes ≤ 256
    → (p : List ℕ × ℕ) × (buffered mem occupied bytes ≡ ret p)
buffered_defined mem occupied bytes whole room few =
    let (p, made, kept, small) = buffered_fits mem occupied bytes whole room few in (p, made)

pub buffered-HasRoom :
    (mem : List ℕ) (occupied : ℕ) (bytes mem' : List ℕ) (occupied' : ℕ)
    → length mem ≡ buff_size
    → occupied ≤ 768
    → length bytes ≤ 256
    → buffered mem occupied bytes ≡ ret (mem', occupied')
    → (length mem' ≡ buff_size) × (occupied' ≤ 768)
unfolding parts_of
buffered-HasRoom mem occupied bytes mem' occupied' whole room few e =
    let (p, made, kept, small) = buffered_fits mem occupied bytes whole room few in
    let same : p ≡ (mem', occupied') = ap parts_of (sym made ∙ e) in
    (omega (arith, ap (λ p. length p.0) same, kept), omega (arith, ap (λ p. p.1) same, small))

module _ {D : Type 0} (dev : IDevice D) (env : Env) (ticks : ℕ → ℕ) (life : ℕ)
    (check_address : Bool) where
  queued-HasRoom :
      (r : Receiver D) (frames : List Frame) {r' : Receiver D}
      → HasRoom r
      → queued dev env ticks life check_address r frames ≡ ret r'
      → HasRoom r'
  unfolding queued receiver_of
  queued-HasRoom r frames {r'} has_room e =
      let (data_list, made, e₁) =
        >>=-eq-ret (entries dev env ticks life check_address r.next_rx_id r.ticks_read frames) _
          e in
      let same = ap (λ o. receiver_of o r) e₁ in
      subst HasRoom same (record { whole = has_room.whole; room = has_room.room })

  -- If a round comes to its end on at most 256 bytes, it leaves the buffer of 1024 bytes whole, and at most 768 of
  -- its bytes occupied, when that was so before.
  pub rx_round-HasRoom :
      (bytes : List ℕ) (r : Receiver D) {r' : Receiver D}
      → HasRoom r
      → length bytes ≤ 256
      → rx_round dev env ticks life check_address bytes r ≡ ret r'
      → HasRoom r'
  unfolding rx_round receiver_of SameRoom
  rx_round-HasRoom [] r {r'} has_room few e = subst HasRoom (ap (λ o. receiver_of o r) e) has_room
  rx_round-HasRoom (b ∷ []) r {r'} has_room few e =
      let (short, parsed, e₁) = >>=-eq-ret (one_byte_from_buff (some (b ∷ [])) 1) _ e in
      queued-HasRoom r _ {r' = r'} has_room e₁
  rx_round-HasRoom (b ∷ c ∷ bytes) r {r'} has_room few e =
      let ((mem, mem_len), filled, e₁) =
        >>=-eq-ret (buffered r.big_buff r.big_buff_occupied (b ∷ c ∷ bytes)) _ e in
      let ((((mem', mem_len'), frames), m), parsed, e₂) =
        >>=-eq-ret (frame_parser dev env check_address mem mem_len r.devices) _ e₁ in
      let (whole, room) =
        buffered-HasRoom r.big_buff r.big_buff_occupied (b ∷ c ∷ bytes) mem mem_len has_room.whole
          has_room.room few filled in
      let (length_kept, fewer) =
        frame_parser-SameRoom dev env check_address mem mem_len r.devices ((mem', mem_len'), frames)
          {m' = m} parsed in
      queued-HasRoom (record r { big_buff = mem'; big_buff_occupied = mem_len'; devices = m })
        frames {r' = r'} (record { whole = length_kept ∙ whole; room = omega (arith, fewer, room) })
        e₂
