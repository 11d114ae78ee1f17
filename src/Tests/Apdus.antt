-- ===== src/Tests/Apdus.antt =====
-- The theorems about the APDU classes at concrete inputs.
use edifice.Base.{ℕ, ◌≡◌, refl, arith, List, [], ◌∷◌, some, ret, fault, success}
use edifice.Apdu.Types.{Apdu, group_value_write, user_memory_write}
use edifice.Apdu.PropertyValue.{Position, copied}
use edifice.Apdu.PropertyValue.RoundTrip.{IsPosition}
use edifice.Apdu.UserMemory
use edifice.Apdu.UserMemory.{capped, max_user_memory_size}
use edifice.Apdu.UserMemory.RoundTrip.{user_memory_write_round_trip}
use edifice.Apdu.GroupValue
use edifice.Apdu.GroupValue.RoundTrip.{group_value_response_overrun}
use edifice.Tests.Samples.{far, env, apdu_with}

abbrev position : Position
position = record { object_index = 1; property_id = 56; no_of_elem = 2; start_index = 0x1234 }

position-IsPosition : IsPosition position
position-IsPosition = record {
  object_byte = omega arith;
  property_byte = omega arith;
  count = omega arith;
  start = omega arith;
}

abbrev memory_apdu : Apdu
memory_apdu = apdu_with user_memory_write 0x02 0xc2 []

-- The address 0x12345 comes back as 0x2345 from a write request, and as itself from a read request.
user_memory_write_round_trip_example :
    (b : Apdu) × (UserMemory.build_write env memory_apdu 0 3 7
        (some far)
        2
        0x1_2345
        (7 ∷ 8 ∷ 9 ∷ [])
      ≡ ret (b, success))
    × (UserMemory.get_write_params b 11 ≡ ret (some ((2, 0x2345), copied (7 ∷ 8 ∷ []))))
unfolding capped
user_memory_write_round_trip_example =
    user_memory_write_round_trip env memory_apdu 0 3 7 far 2 0x1_2345 (7 ∷ 8 ∷ 9 ∷ []) 11
      (omega arith) (omega arith) (omega arith)

abbrev group_apdu : Apdu
group_apdu = apdu_with group_value_write 0x00 0x80 []

abbrev group_bytes_apdu : Apdu
group_bytes_apdu = apdu_with group_value_write 0x00 0x80 (0x00 ∷ 0x85 ∷ [])

group_value_response_overrun_example :
    (GroupValue.get_write_params group_bytes_apdu 6 ≡ ret (some (5 ∷ [], 6)))
    × (GroupValue.get_response_params group_bytes_apdu 16 ≡ fault)
group_value_response_overrun_example =
    group_value_response_overrun group_bytes_apdu 0x00 0x85 16 6 refl refl (omega arith)

abbrev serial : List ℕ
serial = 1 ∷ 2 ∷ 3 ∷ 4 ∷ 5 ∷ 6 ∷ []
