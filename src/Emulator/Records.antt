-- ===== src/Emulator/Records.antt =====
-- `Property_Read`, `Property_Write`, `Authorize_Query`, `Link_Read`, `Link_Write`, `UserMemory_Read` and
-- `UserMemory_Write` of EIBEmulatorImpl (EIBCommNEO/EIBEmulatorImpl.cpp).
use edifice.Base.{
  ℕ, bit_and, Bool, true, not, ◌||◌, if◌then◌else◌, ◌==◌, ltb, List, [], Option, none, some,
  Outcome, ret, fault, ◌>>=◌, load, fill, Retcode,
}
use edifice.Apdu.Types.{
  Env, Apdu, ApduType, Addr, construct, property_read, property_response, property_write,
  authorize_request, authorize_response, link_read, link_response, link_write, user_memory_read,
  user_memory_response, user_memory_write,
}
use edifice.Apdu.PropertyValue.{Copied, too_small, copied}
use edifice.Apdu.Property.{build_property_read, build_property_write, get_property_write_params}
use edifice.Apdu.Authorize.{build_request}
use edifice.Apdu.Link.{build_link_read, build_link_write, get_link_response_params}
use edifice.Apdu.UserMemory.{build_read, build_write, get_write_params}
use edifice.Emulator.Comm.{Comm}
use edifice.Emulator.Exchange.{
  Emulator, Return, okay, minus, Acknowledgement, acknowledged, denied, unanswered, short_answer,
  normal_answer, exchange,
}

-- A return code, and what is given with it.
pub data Given (A : Type 0) : Type 0 where
  failed : ℕ → Given A
  given : A → Given A

-- The return code by the answer to a write request.
unfoldable pub write_return : Acknowledgement → Return
write_return acknowledged = okay
write_return denied = minus 1
write_return unanswered = minus 1

-- The fields of the answer. Where `GetParams` refuses an answer of another length, `prop_fields` stays as it was,
-- and the return code is 0 all the same.
unfoldable pub answered_fields : List ℕ → Option Apdu → Outcome (Given (List ℕ))
unfolding get_property_write_params
answered_fields before none = ret (failed 1)
answered_fields before (some a) =
    get_property_write_params a >>= λ o. ret (given (fields_or before o))
  where
    fields_or : List ℕ → Option ((ℕ × ℕ) × List ℕ) → List ℕ
    fields_or before none = before
    fields_or before (some (k, fields)) = fields

unfoldable pub level_of : Option Apdu → Outcome (Given ℕ)
unfolding load
level_of none = ret (failed 1)
level_of (some a) = load a.apdu_mem 2 >>= λ level. ret (given level)

-- The links, or that the buffer is too small. Into a NULL buffer, a room of `none`, nothing is written.
unfoldable pub links_of : Option ℕ → Option Apdu → Outcome (Given (List ℕ))
unfolding get_link_response_params load
links_of room none = ret (failed 1)
links_of none (some a) =
    load a.apdu_mem 2 >>= λ object. load a.apdu_mem 3 >>= λ start. ret (given [])
links_of (some room) (some a) = get_link_response_params a room >>= λ (k, c). ret (links_given c)
  where
    links_given : Copied → Given (List ℕ)
    links_given (too_small n) = failed 2
    links_given (copied links) = given links

-- The bytes that are copied into the caller's buffer from one of 16 bytes: those of the answer, or, if
-- `GetParams` refuses it, whatever the sixteen are. A negative length is a copy past every end.
unfoldable pub memory_of : Env → Option Apdu → Outcome (Given (List ℕ))
unfolding get_write_params
memory_of env none = ret (failed 1)
memory_of env (some a) = get_write_params a 16 >>= λ o. memory_given o
  where
    memory_given : Option ((ℕ × ℕ) × Copied) → Outcome (Given (List ℕ))
    memory_given none = ret (given (fill env.junk 0 16))
    memory_given (some (p, too_small n)) = fault
    memory_given (some (p, copied bytes)) = ret (given bytes)

-- The arguments that the requests for memory refuse.
unfoldable pub bad_place : ℕ → ℕ → Bool
bad_place address number = not (bit_and address 0xfff0_0000 == 0) || number == 0 || ltb 11 number

module _ {S D : Type 0} (c : Comm S) (write_host_addr : D → Option Addr → D × Retcode)
    (env : Env) where
  -- A request that is to be acknowledged.
  unfoldable pub tell :
      Option Addr → Apdu × Retcode → Emulator S D → Outcome (Return × Emulator S D)
  unfolding exchange short_answer write_return
  tell host (a, code) e = do
    ((r, o), e₁) ← exchange c write_host_addr env host a e
    answer ← short_answer env r o
    ret (write_return answer, e₁)

  -- A request for an answer of a class, and what is made of the answer.
  unfoldable pub ask :
      {A : Type 0}
      → ApduType
      → (Option Apdu → Outcome (Given A))
      → Option Addr
      → Apdu × Retcode
      → Emulator S D
      → Outcome (Given A × Emulator S D)
  unfolding exchange normal_answer
  ask t read host (a, code) e = do
    ((r, o), e₁) ← exchange c write_host_addr env host a e
    answer ← normal_answer env t r o
    reply ← read answer
    ret (reply, e₁)

  -- `Property_Read`, into fields that hold something before.
  unfoldable pub property_read_from :
      Option Addr
      → Option Addr
      → ℕ
      → ℕ
      → List ℕ
      → Emulator S D
      → Outcome (Given (List ℕ) × Emulator S D)
  unfolding ask
  property_read_from host peer object_index property_id before e =
      let asked =
        build_property_read env (construct env property_read) 0 0 7 peer object_index property_id
        >>= λ a. ask property_response (answered_fields before) host a e in
      if not e.inited then ret (failed 1, e) else asked

  -- `Property_Write`
  unfoldable pub property_write_to :
      Option Addr → Option Addr → ℕ → ℕ → List ℕ → Emulator S D → Outcome (Return × Emulator S D)
  unfolding tell
  property_write_to host peer object_index property_id fields e =
      let told =
        build_property_write env (construct env property_write) 0 0 7 peer object_index property_id
          fields
        >>= λ a. tell host a e in
      if not e.inited then ret (minus 1, e) else told

  -- `Authorize_Query`, whose level is written to a pointer that is given or not.
  unfoldable pub authorize_query :
      Option Addr
      → Option Addr
      → Option (List ℕ)
      → Bool
      → Emulator S D
      → Outcome (Given ℕ × Emulator S D)
  unfolding ask
  authorize_query host peer none level e =
      if not e.inited then ret (failed 1, e) else ret (failed 7, e)
  authorize_query host peer (some key) level e =
      let asked = build_request env (construct env authorize_request) 0 0 7 peer (some key) >>= λ a.
      ask authorize_response level_of host a e in
      if not e.inited then ret (failed 1, e) else if level then asked else ret (failed 7, e)

  abbrev pub link_read_with :
      Option Addr
      → Option Addr
      → ℕ
      → ℕ
      → Option ℕ
      → Emulator S D
      → Outcome (Given (List ℕ) × Emulator S D)
  unfolding ask
  link_read_with (some host) (some peer) group_obj_num start_index room e =
      build_link_read env (construct env link_read) 0 0 7 (some peer) group_obj_num start_index
      >>= λ a. ask link_response (links_of room) (some host) a e
  link_read_with _ _ group_obj_num start_index room e = ret (failed 2, e)

  -- `Link_Read`
  unfoldable pub link_read_from :
      Option Addr
      → Option Addr
      → ℕ
      → ℕ
      → Option ℕ
      → Emulator S D
      → Outcome (Given (List ℕ) × Emulator S D)
  link_read_from host peer group_obj_num start_index room e =
      let asked = link_read_with host peer group_obj_num start_index room e in
      if not e.inited then ret (failed 1, e) else asked

  abbrev pub link_write_with :
      Option Addr
      → Option Addr
      → ℕ
      → ℕ
      → Option Addr
      → Emulator S D
      → Outcome (Return × Emulator S D)
  unfolding tell
  link_write_with (some host) (some peer) group_obj_num flags (some group_addr) e =
      build_link_write env (construct env link_write) 0 0 7 (some peer) group_obj_num flags
        (some group_addr)
      >>= λ a. tell (some host) a e
  link_write_with _ _ group_obj_num flags _ e = ret (minus 2, e)

  -- `Link_Write`
  unfoldable pub link_write_to :
      Option Addr
      → Option Addr
      → ℕ
      → ℕ
      → Option Addr
      → Emulator S D
      → Outcome (Return × Emulator S D)
  link_write_to host peer group_obj_num flags group_addr e =
      let told = link_write_with host peer group_obj_num flags group_addr e in
      if not e.inited then ret (minus 1, e) else told

  abbrev pub user_memory_read_with :
      Option Addr
      → Option Addr
      → ℕ
      → ℕ
      → Bool
      → Emulator S D
      → Outcome (Given (List ℕ) × Emulator S D)
  unfolding ask memory_of
  user_memory_read_with (some host) (some peer) address number true e =
      let asked =
        build_read env (construct env user_memory_read) 0 0 7 (some peer) number address >>= λ a.
        ask user_memory_response (memory_of env) (some host) a e in
      if bad_place address number then ret (failed 2, e) else asked
  user_memory_read_with _ _ address number _ e = ret (failed 2, e)

  -- `UserMemory_Read`, into a buffer that is given or not.
  unfoldable pub user_memory_read_from :
      Option Addr
      → Option Addr
      → ℕ
      → ℕ
      → Bool
      → Emulator S D
      → Outcome (Given (List ℕ) × Emulator S D)
  user_memory_read_from host peer address number buff e =
      let asked = user_memory_read_with host peer address number buff e in
      if not e.inited then ret (failed 1, e) else asked

  abbrev pub user_memory_write_with :
      Option Addr
      → Option Addr
      → ℕ
      → ℕ
      → Option (List ℕ)
      → Emulator S D
      → Outcome (Return × Emulator S D)
  unfolding tell
  user_memory_write_with (some host) (some peer) address number (some buff) e =
      let told =
        build_write env (construct env user_memory_write) 0 0 7 (some peer) number address buff
        >>= λ a. tell (some host) a e in
      if bad_place address number then ret (minus 2, e) else told
  user_memory_write_with _ _ address number _ e = ret (minus 2, e)

  -- `UserMemory_Write`
  unfoldable pub user_memory_write_to :
      Option Addr
      → Option Addr
      → ℕ
      → ℕ
      → Option (List ℕ)
      → Emulator S D
      → Outcome (Return × Emulator S D)
  user_memory_write_to host peer address number buff e =
      let told = user_memory_write_with host peer address number buff e in
      if not e.inited then ret (minus 1, e) else told
