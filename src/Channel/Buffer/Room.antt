-- ===== src/Channel/Buffer/Room.antt =====
-- Whether the buffer of `CommBase::rx_thread` (EIBCommNEO/CommBase.cpp) has room for what a channel receives.
use edifice.Base.{
  ℕ, zero, suc, ◌+◌, ◌≤◌, ◌≡◌, refl, inl, inr, ap, arith, false, ltb, List, [], ◌∷◌, ◌++◌, length,
  length-append, length-drop, drop, ret, slice-drop, memcpy_behind, if◌then◌else◌, Bool-cases,
  ltb→lt,
}
use edifice.Channel.Buffer.{buff_size, make_room, buffered}

drop-append : (k : ℕ) (xs ys : List ℕ) → k ≤ length xs → drop k (xs ++ ys) ≡ drop k xs ++ ys
drop-append zero xs ys h = refl
drop-append (suc k) [] ys h = absurd (omega arith)
drop-append (suc k) (x ∷ xs) ys h = drop-append k xs ys (omega (arith, h))

append_assoc : (xs ys zs : List ℕ) → xs ++ (ys ++ zs) ≡ (xs ++ ys) ++ zs
append_assoc [] ys zs = refl
append_assoc (x ∷ xs) ys zs = ap (λ l. x ∷ l) (append_assoc xs ys zs)

-- The newest of the bytes: without the oldest 256, if there are more than 768.
abbrev pub newest : List ℕ → List ℕ
newest held = if ltb 768 (length held) then drop 256 held else held

not_longer : (n : ℕ) → ltb 768 n ≡ false → n ≤ 768
not_longer n h = ground arith

make_room-newest :
    (held rest : List ℕ)
    → length held + length rest ≡ buff_size
    → (rest' : List ℕ) × (make_room (held ++ rest) (length held)
        ≡ ret (newest held ++ rest', length (newest held)))
      × (length (newest held) + length rest' ≡ buff_size)
      × (length (newest held) ≤ 768)
unfolding make_room
make_room-newest held rest h = elim (Bool-cases (ltb 768 (length held))) [
  | inl much ↦
      (let long = ltb→lt 768 (length held) much in
        let all = length-append held rest in
        let fewer = length-drop 256 held in
        let kept = drop-append 256 held rest (omega (arith, long)) in
        let count : length (drop 256 held ++ rest) ≡ 768 =
          omega (arith, length-append (drop 256 held) rest, fewer, h, long) in
        let read = slice-drop 256 768 (held ++ rest) (omega (arith, h, all)) in
        let moved =
          memcpy_behind [] (held ++ rest) (drop 256 held ++ rest) (omega (arith, count, all, h)) in
        let behind = length-drop (length (drop 256 held ++ rest)) (held ++ rest) in
        (
          rest ++ drop (length (drop 256 held ++ rest)) (held ++ rest),
          rw
              (
                much,
                read,
                kept,
                moved,
                fewer,
                append_assoc (drop 256 held) rest
                    (drop (length (drop 256 held ++ rest)) (held ++ rest)),
              )
              refl,
          rw much (
              omega (
                arith,
                h,
                long,
                fewer,
                count,
                behind,
                all,
                length-append rest (drop (length (drop 256 held ++ rest)) (held ++ rest)),
              )),
          rw much (omega (arith, fewer, h)),
        ))
  | inr little ↦ (rest, rw little refl, rw little h, rw little (not_longer (length held) little))
]

-- From 768 occupied bytes or fewer of the buffer of 1024, a reception of at most 256 bytes keeps within
-- the buffer. Behind the bytes that were held come the received ones; of these together the newest
-- are held, without the oldest 256 if they are more than 768; again they are 768 or fewer, and the
-- buffer is as long as before.
pub buffered-newest :
    (held rest bytes : List ℕ)
    → length held + length rest ≡ buff_size
    → length held ≤ 768
    → length bytes ≤ 256
    → (rest' : List ℕ) × (buffered (held ++ rest) (length held) bytes
        ≡ ret (newest (held ++ bytes) ++ rest', length (newest (held ++ bytes))))
      × (length (newest (held ++ bytes)) + length rest' ≡ buff_size)
      × (length (newest (held ++ bytes)) ≤ 768)
unfolding buffered
buffered-newest held rest bytes h room few =
    let left = drop (length bytes) rest in
    let count = length-append held bytes in
    let fewer = length-drop (length bytes) rest in
    let filled = memcpy_behind held rest bytes (omega (arith, h)) in
    let (rest', made, whole, small) =
      make_room-newest (held ++ bytes) left (omega (arith, count, fewer, h)) in
    (rest', rw (filled, append_assoc held bytes left, ← count, made) refl, whole, small)
