-- ===== src/Emulator/Values.antt =====
-- `PropertyValue_Read`, `PropertyValue_Write` and their second forms of EIBEmulatorImpl
-- (EIBCommNEO/EIBEmulatorImpl.cpp).
pub mod Failures
pub mod Written
pub mod Steps
pub mod Exchanged
pub mod Connected
pub mod Returned
pub mod EndToEnd
use edifice.Base.{
  ℕ, ◌+◌, ◌/◌, ◌%◌, bit_and, Bool, true, false, not, ◌&&◌, ◌||◌, if◌then◌else◌, ◌==◌, ltb, List, [],
  ◌∷◌, length, Option, none, some, Outcome, ret, aborted, fault, ◌>>=◌, Retcode,
}
use edifice.Pentagon.Mask.{mask_num}
use edifice.Apdu.Types.{
  Env, Apdu, Addr, construct, property_value_read, property_value_response, property_value_write,
}
use edifice.Apdu.PropertyValue.{
  Position, Copied, too_small, copied, build_read, build_write, get_write_params,
}
use edifice.Frame.Types.{Frame}
use edifice.Channel.Waiting.{ResponseType}
use edifice.Emulator.Comm.{Comm}
use edifice.Emulator.Exchange.{
  Emulator, Return, okay, minus, plus, Acknowledgement, acknowledged, denied, unanswered,
  short_answer, normal_answer, exchange,
}

-- What `PropertyValue_Read` gives: a return code below 0 with nothing changed; the code 1 with the count and the
-- length 0; the code -1 with the length that would have been enough, negated; or the values.
pub data Reply : Type 0 where
  refused : ℕ → Reply
  no_values : Reply
  too_short : ℕ → Reply
  got_values : List ℕ → Reply

unfoldable pub reply_of : Copied → Reply
reply_of (too_small n) = too_short n
reply_of (copied bytes) = got_values bytes

-- The three assertions on what the answer says; without the parameters they compare variables that are not set.
unfoldable pub checked : Position → Option (Position × Copied) → Outcome Reply
unfolding reply_of
checked p none = fault
checked p (some (q, c)) =
    if q.object_index == p.object_index
      && q.property_id == p.property_id
      && q.start_index == p.start_index
    then ret (reply_of c)
    else aborted

unfoldable pub values_of : Position → ℕ → Option Apdu → Outcome Reply
unfolding checked get_write_params
values_of p room none = ret no_values
values_of p room (some a) = get_write_params a room >>= λ got. checked p got

-- The return code by the answer to a write request.
unfoldable pub value_return : Acknowledgement → Return
value_return acknowledged = okay
value_return denied = minus 1
value_return unanswered = plus 1

-- The count and the start index in one word, whose low byte is the first in memory.
unfoldable pub word_position : ℕ → ℕ → ℕ → Outcome Position
unfolding mask_num
word_position object_index property_id start = do
  count ← mask_num (start % 256 ∷ (start / 256) ∷ []) (b'0' ∷ b'0' ∷ b'f' ∷ [])
  ret (record {
    object_index = object_index;
    property_id = property_id;
    no_of_elem = count % 256;
    start_index = bit_and start 0x0fff;
  })

module _ {S D : Type 0} (c : Comm S) (write_host_addr : D → Option Addr → D × Retcode)
    (env : Env) where
  -- `PropertyValue_Read` from `set_host_addr` on.
  unfoldable pub ask_values :
      Addr → Addr → Position → ℕ → Emulator S D → Outcome (Reply × Emulator S D)
  unfolding exchange normal_answer values_of
  ask_values host peer p room e = do
    (a, code) ← build_read env (construct env property_value_read) 0 3 7 (some peer) p
    ((r, o), e₁) ← exchange c write_host_addr env (some host) a e
    answer ← normal_answer env property_value_response r o
    reply ← values_of p room answer
    ret (reply, e₁)

  -- A buffer is given by its room, NULL is `none`.
  abbrev pub ask_values_with :
      Option Addr
      → Option Addr
      → Position
      → Option ℕ
      → Emulator S D
      → Outcome (Reply × Emulator S D)
  ask_values_with (some host) (some peer) p (some room) e =
      let asked = ask_values host peer p room e in if room == 0 then ret (refused 3, e) else asked
  ask_values_with _ _ p _ e = ret (refused 3, e)

  -- `PropertyValue_Read`
  unfoldable pub property_value_read_from :
      Option Addr
      → Option Addr
      → Position
      → Option ℕ
      → Emulator S D
      → Outcome (Reply × Emulator S D)
  unfolding ask_values
  property_value_read_from host peer p room e =
      let asked = ask_values_with host peer p room e in
      if not e.inited
      then ret (refused 1, e)
      else if ltb 15 p.no_of_elem
      then ret (refused 2, e)
      else asked

  -- `PropertyValue_Write` from `set_host_addr` on.
  unfoldable pub tell_values :
      Addr → Addr → Position → List ℕ → Emulator S D → Outcome (Return × Emulator S D)
  unfolding exchange short_answer value_return
  tell_values host peer p buff e = do
    (a, code) ← build_write env (construct env property_value_write) 0 3 7 (some peer) p (some buff)
    ((r, o), e₁) ← exchange c write_host_addr env (some host) a e
    answer ← short_answer env r o
    ret (value_return answer, e₁)

  abbrev pub tell_values_with :
      Option Addr
      → Option Addr
      → Position
      → Option (List ℕ)
      → Emulator S D
      → Outcome (Return × Emulator S D)
  tell_values_with (some host) (some peer) p (some buff) e =
      let told = tell_values host peer p buff e in
      if ltb 15 p.no_of_elem || ltb 249 (length buff) || length buff == 0
      then ret (minus 2, e)
      else told
  tell_values_with _ _ p _ e = ret (minus 2, e)

  -- `PropertyValue_Write`
  unfoldable pub property_value_write_to :
      Option Addr
      → Option Addr
      → Position
      → Option (List ℕ)
      → Emulator S D
      → Outcome (Return × Emulator S D)
  unfolding tell_values
  property_value_write_to host peer p buff e =
      let told = tell_values_with host peer p buff e in
      if not e.inited then ret (minus 1, e) else told

  -- `PropertyValue_Read2`, whose word `start` has the count in its high four bits.
  unfoldable pub property_value_read2 :
      Option Addr
      → Option Addr
      → ℕ
      → ℕ
      → ℕ
      → Option ℕ
      → Emulator S D
      → Outcome (Reply × Emulator S D)
  unfolding property_value_read_from word_position
  property_value_read2 host peer object_index property_id start room e = do
    p ← word_position object_index property_id start
    property_value_read_from host peer p room e

  -- `PropertyValue_Write2`, whose own return code is always 0.
  unfoldable pub property_value_write2 :
      Option Addr
      → Option Addr
      → ℕ
      → ℕ
      → ℕ
      → Option (List ℕ)
      → Emulator S D
      → Outcome (Return × Emulator S D)
  unfolding property_value_write_to word_position
  property_value_write2 host peer object_index property_id start buff e = do
    p ← word_position object_index property_id start
    (r, e₁) ← property_value_write_to host peer p buff e
    ret (okay, e₁)
