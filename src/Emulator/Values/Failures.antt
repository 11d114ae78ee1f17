-- ===== src/Emulator/Values/Failures.antt =====
-- What `PropertyValue_Read` and `PropertyValue_Write2` of EIBEmulatorImpl (EIBCommNEO/EIBEmulatorImpl.cpp) do where
-- something went wrong.
use edifice.Base.{
  ◌<◌, ◌/◌, ◌%◌, arith, ◌+◌, ◌*◌, ◌^◌, ℕ, ◌≡◌, ap, ◌∙◌, List, Option, Outcome, ret, ◌>>=◌, Retcode,
}
use edifice.Base.Bits.{zero_mask, low_nibble, low_twelve}
use edifice.Pentagon.Mask.{mask_num}
use edifice.Apdu.Types.{Env, Addr}
use edifice.Apdu.PropertyValue.{Position}
use edifice.Emulator.Comm.{Comm}
use edifice.Emulator.Exchange.{Emulator, Return, okay}
use edifice.Emulator.Values.{word_position, property_value_write_to, property_value_write2}

-- The position in a word: the count in its high four bits, the start index in the others.
abbrev pub in_word : ℕ → ℕ → ℕ → Position
in_word object_index property_id start = record {
  object_index = object_index;
  property_id = property_id;
  no_of_elem = start / 4096;
  start_index = start % 4096;
}

word_position-in_word :
    (object_index property_id start : ℕ)
    → start < 65536
    → word_position object_index property_id start ≡ ret (in_word object_index property_id start)
unfolding word_position mask_num
word_position-in_word object_index property_id start h =
    rw
      (
        zero_mask (start % 256) (omega arith),
        low_nibble (start / 256 / 16) (omega arith),
        low_twelve start h,
      )
      (let count : ((0 * 256 + 0) % 2 ^ 32 * 16 + start / 256 / 16 % 16) % 2 ^ 32 % 256
            ≡ start / 4096 =
          omega arith in
        ap (λ n. ret (record (in_word object_index property_id start) { no_of_elem = n })) count)

module _ {S D : Type 0} (c : Comm S) (write_host_addr : D → Option Addr → D × Retcode)
    (env : Env) where
  -- Where `PropertyValue_Write` returns some code for the count in the high four bits of a word and the start index in
  -- its low twelve, `PropertyValue_Write2` for that word has done the same, and returns 0 whatever the code is.
  pub property_value_write2_okay :
      (host peer : Option Addr) (object_index property_id start : ℕ) (buff : Option (List ℕ))
      (e e₁ : Emulator S D) (r : Return)
      → start < 65536
      → property_value_write_to c write_host_addr env host peer
          (in_word object_index property_id start)
          buff
          e
        ≡ ret (r, e₁)
      → property_value_write2 c write_host_addr env host peer object_index property_id start buff e
        ≡ ret (okay, e₁)
  unfolding property_value_write2
  property_value_write2_okay host peer object_index property_id start buff e e₁ r h written =
      let second : Return × Emulator S D → Outcome (Return × Emulator S D) = λ x. ret (okay, x.1) in
      ap
        (λ w.
          w >>= λ p. property_value_write_to c write_host_addr env host peer p buff e >>= second)
        (word_position-in_word object_index property_id start h)
      ∙ ap (λ x. x >>= second) written
