-- ===== src/Emulator/Values/Written.antt =====
-- The request of `PropertyValue_Write` (EIBCommNEO/EIBEmulatorImpl.cpp), from its APDU to the device of another station
-- (EIBCommNEO/apdu.cpp).
use mathlib.Core.Path.{subst}
use edifice.Base.{
  replicate, ℕ, suc, ◌+◌, ◌-◌, ◌%◌, ◌≤◌, ◌<◌, ◌==◌, ◌≡◌, refl, sym, ap, ◌∙◌, arith, inl, inr, true,
  false, ltb, All, List, ◌∷◌, ◌++◌, length, Option, some, none, Outcome, ret, ◌>>=◌, if◌then◌else◌,
  fill, memcpy, length-fill, memcpy_exact, Bool-cases, Retcode, success, failure,
}
use edifice.Base.Bits.{IsByte}
use edifice.Apdu.Types.{
  Env, Apdu, Addr, construct, apci_of, is_standard, set_host_addr, property_value_write,
}
use edifice.Apdu.PropertyValue.{Position, copied, build_write, get_write_params}
use edifice.Apdu.PropertyValue.RoundTrip.{IsPosition, placed, store_position-placed}
use edifice.Device.Manager.{DeviceManager, host_addr_is}
use edifice.Frame.Types.{Frame}
use edifice.Frame.Build.{build_frame_from_apdu}
use edifice.Frame.Extract.{build_apdu_from_frame}
use edifice.Frame.Layout.{IsSendable}
use edifice.Frame.Dispatch.{carries}
use edifice.Frame.Transmission.{transmitted}
use edifice.Respond.Services.{or_fault}
use edifice.Respond.Answers.{carrying, get_write_params-carrying}
use edifice.Respond.Writing.{
  Writers, bytes_of, ack_of, answered_by, set_values_of, respond_property_value_write,
}
use edifice.Respond.Writing.Found.{answered_by-found}
use edifice.Emulator.Values.Exchanged.{IsAddr, sent_whole, placed-IsByte, get_write_params-same}

-- The request that is sent.
abbrev writing : Env → Addr → Addr → Position → List ℕ → Apdu
writing env host peer p buff =
    let a = construct env property_value_write in
    record a {
      ack_request = 0;
      priority = 3;
      hop_count_type = 7;
      peeraddr = peer;
      hostaddr = host;
      apdu_mem = placed a.apci_l a.apci_h p buff;
      apdu_len = length buff + 6;
    }

write_bytes :
    (env : Env)
    → IsByte (construct env property_value_write).apci_l
      × IsByte (construct env property_value_write).apci_h
unfolding construct apci_of
write_bytes env = (omega arith, ground arith)

write_carries :
    (env : Env)
    → carries env
        (construct env property_value_write).type
        (construct env property_value_write).apci_l
        (construct env property_value_write).apci_h
      ≡ true
unfolding construct is_standard
write_carries env = elim (Bool-cases env.faulty_apci) [ inl b ↦ rw b refl | inr b ↦ rw b refl ]

writing-IsSendable :
    (env : Env) (host peer : Addr) (p : Position) (buff : List ℕ)
    → IsAddr host
    → IsAddr peer
    → IsPosition p
    → length buff ≤ 241
    → All IsByte buff
    → IsSendable (writing env host peer p buff)
writing-IsSendable env host peer p buff ho pe v small all =
    let (low, high) = write_bytes env in
    record {
      sized = omega arith;
      at_least = omega arith;
      at_most = omega arith;
      bytes =
          placed-IsByte (construct env property_value_write).apci_l
            (construct env property_value_write).apci_h p buff v low high all;
      priority = omega arith;
      host_high = ho.high_byte;
      host_low = ho.low_byte;
      peer_high = pe.high_byte;
      peer_low = pe.low_byte;
    }

build_write-writing :
    (env : Env) (peer : Addr) (p : Position) (buff : List ℕ)
    → IsPosition p
    → 1 ≤ length buff
    → length buff ≤ 241
    → build_write env (construct env property_value_write) 0 3 7 (some peer) p (some buff)
      ≡ ret
          (record (writing env env.client_addr peer p buff) { hostaddr = env.client_addr }, success)
unfolding build_write fill memcpy construct
build_write-writing env peer p buff v lo hi =
    let few : ltb 15 p.no_of_elem ≡ false = ground (arith, v.count) in
    let some_data : (length buff == 0) ≡ false = ground arith in
    let e : 6 + length buff ≡ suc (suc (suc (suc (suc (suc (length buff)))))) = omega arith in
    let e1 : suc (suc (suc (suc (suc (suc (length buff)))))) % 256 ≡ length buff + 6 =
      omega arith in
    rw (some_data, few, e)
      (rw store_position-placed (
        rw
          (
            memcpy_exact (fill env.junk 6 (length buff)) buff
                (length-fill env.junk 6 (length buff)),
            e1,
          )
          refl))

writing_says :
    (env : Env) (host peer : Addr) (p : Position) (buff : List ℕ)
    → IsPosition p
    → p.start_index < 4096
    → length buff ≤ 241
    → get_write_params (writing env host peer p buff) 1024 ≡ ret (some (p, copied buff))
writing_says env host peer p buff v start small =
    let (low, high) = write_bytes env in
    get_write_params-same (carrying (construct env property_value_write) peer p buff)
      (writing env host peer p buff) 1024 refl refl
    ∙ get_write_params-carrying (construct env property_value_write) peer p buff 1024 v low high
        (omega arith) (omega arith)
    ∙ ap (λ q. ret (some (q, copied buff))) (sent_whole p start)

module _ {D : Type 0} (svc : Writers D) (env : Env) where
  -- A received request that says a position and values.
  respond_property_value_write_runs :
      (b : Apdu) (p : Position) (buff : List ℕ) (m : DeviceManager D)
      → b.recved_apdu ≡ true
      → get_write_params b 1024 ≡ ret (some (p, copied buff))
      → respond_property_value_write svc env b m
        ≡ answered_by svc env (ack_of env) b (set_values_of svc env p buff) m
  unfolding respond_property_value_write
  respond_property_value_write_runs b p buff m received says =
      let run : Outcome (Option (Position × _))
          → Outcome ((Option Apdu × Retcode) × DeviceManager D) =
        λ x. x >>= λ params. or_fault params >>= λ (q, c). bytes_of c >>= λ bytes.
        answered_by svc env (ack_of env) b (set_values_of svc env q bytes) m in
      ap (λ t. if t then run (get_write_params b 1024) else ret ((none, failure 1), m)) received
      ∙ ap run says

  -- The request of `PropertyValue_Write` with 1 to 241 bytes, a count of at most 15 and a start index below 4096
  -- is built, packed into a frame and taken out of it, and its `Response` sets, in the first device of the table that has
  -- the peer address and in no other, exactly these bytes at exactly this position; the answer is an ACK if the
  -- device returns 0, a NACK if not.
  pub property_value_write_arrives :
      (host peer : Addr) (p : Position) (buff : List ℕ) (m : DeviceManager D)
      (front back : List (ℕ × D)) (j : ℕ) (d d' : D) (r : Retcode)
      → IsAddr host
      → IsAddr peer
      → IsPosition p
      → p.start_index < 4096
      → 1 ≤ length buff
      → length buff ≤ 241
      → All IsByte buff
      → m.devs ≡ front ++ ((j, d) ∷ back)
      → All (λ x. host_addr_is (svc.host.get_host_addr x.1) peer ≡ false) front
      → host_addr_is (svc.host.get_host_addr d) peer ≡ true
      → svc.set_elem_values d
          (p.object_index, p.property_id)
          p.start_index
          p.no_of_elem
          (buff ++ replicate (1024 - length buff) 0)
          (length buff)
        ≡ ret (d', r)
      → (a : Apdu) × (f : Frame) × (b : Apdu) × (build_write env
            (construct env property_value_write)
            0
            3
            7
            (some peer)
            p
            (some buff)
          ≡ ret (a, success))
        × (build_frame_from_apdu (set_host_addr (some host) a) ≡ ret f)
        × (build_apdu_from_frame env f ≡ ret (some b))
        × (respond_property_value_write svc env b m
            ≡ ret (
              (some (ack_of env (some r)), success),
              record m { devs = front ++ ((j, d') ∷ back) },
            ))
  unfolding set_host_addr
  property_value_write_arrives host peer p buff m front back j d d' r ho pe v start lo hi all there
        others has done =
      let a = writing env host peer p buff in
      let (f, b, built, seen, carried, same) =
        transmitted svc.host env a (construct env property_value_write).apci_l
          (construct env property_value_write).apci_h _ false m
          (writing-IsSendable env host peer p buff ho pe v hi all) refl (write_carries env) in
      let says =
        get_write_params-same a b 1024 same.same_mem same.same_len
        ∙ writing_says env host peer p buff v start hi in
      let at : b.peeraddr ≡ peer = same.same_peer in
      (
        record a { hostaddr = env.client_addr },
        f,
        b,
        build_write-writing env peer p buff v lo hi,
        built,
        carried,
        respond_property_value_write_runs b p buff m same.marked says
            ∙ answered_by-found svc env (ack_of env) b (set_values_of svc env p buff) m front back j
                d d' r there
                (subst (λ q. All (λ x. host_addr_is (svc.host.get_host_addr x.1) q ≡ false) front)
                  (sym at) others)
                (ap (host_addr_is (svc.host.get_host_addr d)) at ∙ has) done,
      )
