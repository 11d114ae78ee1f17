-- ===== src/Respond/Overrun.antt =====
-- The answer to a request for the value of a group object (`APDU_GroupValue_Response::BuildMe` of
-- EIBCommNEO/apdu.cpp) for values of more than six bits.
use edifice.Base.{
  ℕ, zero, suc, ◌+◌, ◌-◌, ◌≤◌, ◌<◌, ◌≡◌, ◌⊎◌, inl, inr, refl, ap, arith, true, ltb, List, [], ◌∷◌,
  ◌++◌, length, replicate, some, ret, fault, slice, memcpy, memcpy_past, length-fill, fill,
}
use edifice.Apdu.Types.{Env, Apdu, resize, basic_info}
use edifice.Txt.Types.{get_len_in_bit}
use edifice.Txt.Elements.{values}
use edifice.Txt.Groups.{GroupObjectHead, head_len_in_bit}
use edifice.Respond.Services.{Services}
use edifice.Respond.Groups.{long_len, group_value_into, object_value_into}

-- Reading some bytes gives so many, or is a fault.
slice_cases :
    (mem : List ℕ) (n : ℕ)
    → (slice mem 0 n ≡ fault) ⊎ ((ys : List ℕ) × (slice mem 0 n ≡ ret ys) × (length ys ≡ n))
unfolding slice
slice_cases mem zero = inr ([], refl, refl)
slice_cases [] (suc n) = inl refl
slice_cases (x ∷ mem) (suc n) = elim (slice_cases mem n) [
  | inl e ↦ inl (rw e refl)
  | inr (ys, e, same) ↦ inr (x ∷ ys, rw e refl, ap suc same)
]

length-resize : (env : Env) (n : ℕ) (a : Apdu) → 0 < n → length (resize env n a).0.apdu_mem ≡ n
unfolding resize fill
length-resize env zero a h = absurd (omega arith)
length-resize env (suc zero) a h = refl
length-resize env (suc (suc n)) a h = ap (λ k. suc (suc k)) (length-fill env.junk 2 n)

-- The block for a long value has no room for as many bytes as the value has bits.
copy_past :
    (mem bytes : List ℕ) (bits : ℕ)
    → 6 < bits
    → length mem ≡ long_len bits
    → length bytes ≡ bits
    → memcpy mem 2 bytes ≡ fault
unfolding long_len
copy_past mem [] bits h e e' = absurd (omega arith)
copy_past mem (x ∷ bytes) bits h e e' =
    let small : long_len bits ≤ 2 + length bytes = ground arith in
    memcpy_past mem 2 x bytes (omega (arith, e, small))

group_value_into-fault :
    (env : Env) (a : Apdu) (ack_request priority hop_count_type bits : ℕ) (out : List ℕ)
    → 6 < bits
    → group_value_into env a ack_request priority hop_count_type bits (values out, bits) ≡ fault
unfolding group_value_into basic_info
group_value_into-fault env a ack_request priority hop_count_type bits out h =
    let long : ltb 6 bits ≡ true = ground arith in
    let room = length-resize env (long_len bits) a (long_len_positive bits) in
    elim (slice_cases (out ++ replicate (256 - length out) 0) bits) [
      | inl e ↦ rw (long, e) refl
      | inr (bytes, e, same) ↦
          (let past = copy_past (resize env (long_len bits) a).0.apdu_mem bytes bits h room same in
            rw (long, e, past) refl)
    ]
  where
    long_len_positive : (bits : ℕ) → 0 < long_len bits
    long_len_positive bits = ground arith

-- For a group object of more than six bits whose value the device gives, with its length in bits as
-- `GetGroupObjectValue` gives it, `BuildMe` writes behind the end of the new block.
pub object_value_into_overrun :
    {D : Type 0} (svc : Services D) (env : Env) (dev : D) (a : Apdu)
    (ack_request priority hop_count_type object bits : ℕ) (head : GroupObjectHead) (out : List ℕ)
    → head.m_inited ≡ true
    → get_len_in_bit head.m_type ≡ ret bits
    → svc.get_group_object_value dev object 256 ≡ ret (values out, bits)
    → 6 < bits
    → object_value_into svc env dev a ack_request priority hop_count_type object (some head) ≡ fault
unfolding object_value_into head_len_in_bit
object_value_into_overrun svc env dev a ack_request priority hop_count_type object bits head out
      inited_ok len given h =
    rw
      (
        len,
        inited_ok,
        given,
        group_value_into-fault env a ack_request priority hop_count_type bits out h,
      )
      refl
