-- ===== src/Frame/LinkRead.antt =====
-- What `APDU_Link_Read::GetParams` (EIBCommNEO/apdu.cpp) reads of an APDU that `BuildAPDUFromFrame`
-- (EIBCommNEO/Frame.cpp) has made of received bytes.
use edifice.Base.{
  ℕ, zero, suc, ◌+◌, ◌≤◌, ◌≡◌, refl, ◌∙◌, arith, false, ltb, if◌then◌else◌, ◌∷◌, List, length, some,
  ret, fault,
}
use edifice.Apdu.Types.{Env, Apdu, apci_of, is_standard, apdu_vec, link_read}
use edifice.Apdu.Link.{get_link_read_params}
use edifice.Frame.Extract.{spawn_first}
use edifice.Frame.Dispatch.{spawned, spawn-carries, spawn_copy-spawned}
use edifice.Frame.Unique.{spawn_first_unique}

-- `GetParams` of the object of a length.
get_link_read_params-spawned :
    (env : Env) (group_object_number start_index : ℕ) (rest : List ℕ) (n : ℕ)
    → get_link_read_params (
        spawned env link_read
          (0x03 ∷ 0xe5 ∷ group_object_number ∷ start_index ∷ rest)
          (suc (suc n)))
      ≡ (if ltb (suc (suc n)) 4 then fault else ret (group_object_number, start_index))
unfolding get_link_read_params
get_link_read_params-spawned env group_object_number start_index rest zero = refl
get_link_read_params-spawned env group_object_number start_index rest (suc zero) = refl
get_link_read_params-spawned env group_object_number start_index rest (suc (suc n)) =
    let long : ltb (suc (suc (suc (suc n)))) 4 ≡ false = ground arith in rw long refl

-- Of an APDU part with the control bytes of Link_Read the loop of `BuildAPDUFromFrame` makes an object of that
-- class in every length from two bytes on, whether the control bytes of the standard or the faulty codes are set.
-- `GetParams` on the object gives the two bytes that follow if the part has four bytes or more; on a part of two
-- or three bytes it reads behind the end of the object's block.
pub link_read_received :
    (env : Env) (group_object_number start_index : ℕ) (rest : List ℕ) (n : ℕ)
    → n ≤ length rest + 2
    → (b : Apdu) × (spawn_first env apdu_vec
          (0x03 ∷ 0xe5 ∷ group_object_number ∷ start_index ∷ rest)
          (suc (suc n))
        ≡ ret (some b))
      × (b.type ≡ link_read)
      × (get_link_read_params b
          ≡ (if ltb (suc (suc n)) 4 then fault else ret (group_object_number, start_index)))
unfolding apci_of is_standard
link_read_received env group_object_number start_index rest n lo =
    let behind = group_object_number ∷ start_index ∷ rest in
    let mem = 0x03 ∷ 0xe5 ∷ behind in
    let enough : n ≤ length behind = omega (arith, lo) in
    let b = spawned env link_read mem (suc (suc n)) in
    let (first, typed) =
      spawn_first_unique env link_read 0x03 0xe5 behind n b (omega arith) (omega arith) enough (
        spawn-carries env link_read 0x03 0xe5 behind (suc (suc n)) (omega arith)
        ∙ spawn_copy-spawned env link_read mem n (omega (arith, enough))) in
    (b, first, typed, get_link_read_params-spawned env group_object_number start_index rest n)
