-- ===== src/Emulator/Values/Steps.antt =====
-- The steps of `PropertyValue_Read` of EIBEmulatorImpl (EIBCommNEO/EIBEmulatorImpl.cpp).
use edifice.Base.{
  ℕ, ◌≡◌, refl, ap, ◌∙◌, ◌≤◌, arith, true, false, ltb, ◌==◌, Option, some, Outcome, ret, ◌>>=◌,
  Retcode,
}
use edifice.Apdu.Types.{Env, Apdu, Addr, construct, property_value_read, property_value_response}
use edifice.Apdu.PropertyValue.{Position, build_read}
use edifice.Frame.Types.{Frame}
use edifice.Channel.Waiting.{ResponseType}
use edifice.Emulator.Comm.{Comm}
use edifice.Emulator.Exchange.{Emulator, normal_answer, exchange}
use edifice.Emulator.Values.{Reply, values_of, ask_values, property_value_read_from}

module _ {S D : Type 0} (c : Comm S) (write_host_addr : D → Option Addr → D × Retcode) (env : Env)
    (host peer : Addr) (p : Position) (room : ℕ) (e : Emulator S D) where
  -- The end of the request is what is made of its answer.
  ask_values_runs :
      (a : Apdu) (code : Retcode) (r : ResponseType) (o : Option Frame) (e₁ : Emulator S D)
      (answer : Option Apdu)
      → build_read env (construct env property_value_read) 0 3 7 (some peer) p ≡ ret (a, code)
      → exchange c write_host_addr env (some host) a e ≡ ret ((r, o), e₁)
      → normal_answer env property_value_response r o ≡ ret answer
      → ask_values c write_host_addr env host peer p room e
        ≡ (values_of p room answer >>= λ reply. ret (reply, e₁))
  unfolding ask_values
  ask_values_runs a code r o e₁ answer built exchanged opens =
      let third : Emulator S D → Option Apdu → Outcome (Reply × Emulator S D) =
        λ e₂ b. values_of p room b >>= λ reply. ret (reply, e₂) in
      let second : (ResponseType × Option Frame) × Emulator S D → Outcome (Reply × Emulator S D) =
        λ x. normal_answer env property_value_response x.0.0 x.0.1 >>= third x.1 in
      ap (λ x. x >>= λ y. exchange c write_host_addr env (some host) y.0 e >>= second) built
      ∙ ap (λ x. x >>= second) exchanged
      ∙ ap (λ x. x >>= third e₁) opens

  -- With arguments that it accepts, the request is made.
  pub property_value_read_from_runs :
      (a : Apdu) (code : Retcode) (r : ResponseType) (o : Option Frame) (e₁ : Emulator S D)
      (answer : Option Apdu)
      → e.inited ≡ true
      → p.no_of_elem ≤ 15
      → 1 ≤ room
      → build_read env (construct env property_value_read) 0 3 7 (some peer) p ≡ ret (a, code)
      → exchange c write_host_addr env (some host) a e ≡ ret ((r, o), e₁)
      → normal_answer env property_value_response r o ≡ ret answer
      → property_value_read_from c write_host_addr env (some host) (some peer) p (some room) e
        ≡ (values_of p room answer >>= λ reply. ret (reply, e₁))
  unfolding property_value_read_from
  property_value_read_from_runs a code r o e₁ answer inited count space built exchanged opens =
      let few : ltb 15 p.no_of_elem ≡ false = ground (arith, count) in
      let some_room : (room == 0) ≡ false = ground (arith, space) in
      let made : property_value_read_from c write_host_addr env (some host) (some peer) p
            (some room) e
          ≡ ask_values c write_host_addr env host peer p room e =
        rw (inited, few, some_room) refl in
      made ∙ ask_values_runs a code r o e₁ answer built exchanged opens
