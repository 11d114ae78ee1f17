-- ===== src/Channel/Buffer.antt =====
-- The buffer `big_buff` of `CommBase::rx_thread` (EIBCommNEO/CommBase.cpp) and how received bytes enter it.
pub mod Room
use edifice.Base.{
  ℕ, ◌+◌, ◌-◌, ◌≤◌, ◌<◌, ◌≡◌, ◌∙◌, ap, arith, Bool, true, false, ltb, List, [], ◌∷◌, ◌++◌, length,
  drop, take, Outcome, ret, fault, ◌>>=◌, >>=-eq-ret, slice, memcpy, if◌then◌else◌, Bool-cases,
  ltb→lt,
}

-- `sizeof(big_buff)`
abbrev pub buff_size : ℕ
buff_size = 1024

-- The oldest 256 bytes go when more than 768 are occupied.
unfoldable pub make_room : List ℕ → ℕ → Outcome (List ℕ × ℕ)
make_room big_buff occupied =
    if ltb (buff_size - 256) occupied
    then (slice big_buff 256 (buff_size - 256) >>= λ kept.
        memcpy big_buff 0 kept >>= λ moved. ret (moved, occupied - 256))
    else ret (big_buff, occupied)

-- The received bytes behind the occupied ones.
unfoldable pub buffered : List ℕ → ℕ → List ℕ → Outcome (List ℕ × ℕ)
buffered big_buff occupied bytes = do
  filled ← memcpy big_buff occupied bytes
  make_room filled (occupied + length bytes)
