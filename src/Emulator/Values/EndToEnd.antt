-- ===== src/Emulator/Values/EndToEnd.antt =====
-- `PropertyValue_Read` of EIBEmulatorImpl (EIBCommNEO/EIBEmulatorImpl.cpp), from its caller to the device of another
-- station and back.
use edifice.Base.{
  ℕ, ◌≤◌, ◌<◌, ◌≡◌, refl, ap, ◌∙◌, arith, true, false, All, List, length, Option, some, ◌%◌,
  aborted, ret, ◌>>=◌, Retcode, success,
}
use edifice.Base.Bits.{IsByte}
use edifice.Apdu.Types.{Env, Apdu, Addr, construct, property_value_read, property_value_response}
use edifice.Apdu.PropertyValue.{Position, copied, get_write_params}
use edifice.Apdu.PropertyValue.RoundTrip.{IsPosition, sent}
use edifice.Device.Manager.{DeviceManager, get_device_by_daddr}
use edifice.Frame.Types.{Frame}
use edifice.Frame.Build.{build_frame_from_apdu}
use edifice.Frame.Extract.{build_apdu_from_frame}
use edifice.Frame.Header.{HasHeader, build_frame_from_apdu-HasHeader}
use edifice.Frame.Transmission.{transmitted}
use edifice.Txt.Elements.{values}
use edifice.Channel.Waiting.{response_normal, type_value}
use edifice.Respond.Services.{Services}
use edifice.Emulator.Comm.{Comm}
use edifice.Emulator.Exchange.{
  Emulator, wanted_of, is_of_class, opened, classed, normal_answer, tx_rx_sync, set_dev_host_addr,
}
use edifice.Emulator.Values.{got_values, values_of, property_value_read_from}
use edifice.Emulator.Exchange.Steps.{exchange_runs}
use edifice.Emulator.Values.Steps.{property_value_read_from_runs}
use edifice.Emulator.Values.Exchanged.{
  IsAddr, requesting, sent_whole, requesting-IsSendable, read_carries, construct-type,
  build_read-requesting,
}
use edifice.Emulator.Values.Returned.{
  HasReturn, requesting-HasReturn, values_of_response, values_of_other_start, sent-IsPosition,
}
use edifice.Emulator.Values.Connected.{
  IsConnected, imposed_by, impose_response_restrictions-imposed_by, response-Passes,
}

normal_response :
    (env : Env) (g : Frame) (b : Apdu)
    → build_apdu_from_frame env g ≡ ret (some b)
    → b.type ≡ property_value_response
    → normal_answer env property_value_response response_normal (some g) ≡ ret (some b)
unfolding normal_answer opened classed is_of_class type_value
normal_response env g b carried answer = rw (carried, answer) refl

module _ {S D T : Type 0} (c : Comm S) (write_host_addr : T → Option Addr → T × Retcode)
    (svc : Services D) (m : DeviceManager D) (env : Env) (connected : IsConnected c svc m env) where
  -- A read request is answered by what comes back for its frame.
  tx_rx_sync_answer :
      (s : S) (f : Frame) (a b : Apdu) (p : Position) (out : List ℕ) (t : HasHeader a f)
      (back : HasReturn svc m env a p out f)
      → a.type ≡ property_value_read
      → build_apdu_from_frame env f ≡ ret (some b)
      → b.type ≡ a.type
      → (s' : S) × (tx_rx_sync c write_host_addr env s f ≡ ret ((response_normal, some back.0), s'))
  unfolding tx_rx_sync
  tx_rx_sync_answer s f a b p out t
        (g, resp, b', answered, header, from, to, carried', answer, reads) read carried same =
      let imposed = impose_response_restrictions-imposed_by env a b f t carried same in
      let s₁ : S = (c.get_tick_count s).1 in
      let sent = connected.sends s₁ f in
      let (s', got) =
        connected.delivers s₁ f g
          (wanted_of c.response_time (c.get_tick_count s).0 (imposed_by env a t.group)) answered
          (response-Passes env a resp b' g t.group c.response_time (c.get_tick_count s).0 read
            header from to carried' answer) in
      (s', rw (sent, imposed, got) refl)

  -- The request is answered by a response that says the position that was sent, and carries the values.
  read_from_answer :
      (host peer : Addr) (p q : Position) (dev : D) (out : List ℕ) (room : ℕ) (e : Emulator S T)
      → e.inited ≡ true
      → IsAddr host
      → IsAddr peer
      → IsPosition p
      → IsPosition q
      → sent p ≡ q
      → q.start_index < 4096
      → get_device_by_daddr svc.host m (some peer) ≡ some dev
      → svc.get_elem_values dev (q.object_index, q.property_id) q.start_index q.no_of_elem 1024
        ≡ ret (values out)
      → All IsByte out
      → length out ≤ 241
      → length out ≤ room
      → 1 ≤ room
      → (s' : S) × (b : Apdu) × (property_value_read_from c write_host_addr env
            (some host)
            (some peer)
            p
            (some room)
            e
          ≡ (values_of p room (some b) >>= λ reply. ret (
            reply,
            record (set_dev_host_addr c write_host_addr env 0xffff_ffff (some host) e).0 {
              comm = s';
            },
          )))
        × (get_write_params b room ≡ ret (some (q, copied out)))
  read_from_answer host peer p q dev out room e inited ho pe u v cut_start start found given all
        small fits some_room =
      let a = requesting env host peer p in
      let sendable = requesting-IsSendable env host peer p ho pe u in
      let (f, b, built, seen, carried, same) =
        transmitted svc.host env a (construct env property_value_read).apci_l
          (construct env property_value_read).apci_h _ false m sendable refl (read_carries env) in
      let back =
        requesting-HasReturn svc m env host peer p q dev out ho pe u v cut_start start found given
          all small f b carried same in
      let (g, resp, b', answered, header, from, to, carried', answer, reads) = back in
      let e₁ = (set_dev_host_addr c write_host_addr env 0xffff_ffff (some host) e).0 in
      let (s', received) =
        tx_rx_sync_answer e₁.comm f a b q out (build_frame_from_apdu-HasHeader a f sendable built)
          back (construct-type env property_value_read) carried same.same_type in
      let (request, asked, addressed) = build_read-requesting env host peer p u in
      (
        s',
        b',
        property_value_read_from_runs c write_host_addr env host peer p room e request success
            response_normal (some g) _ (some b') inited u.count some_room asked
            (exchange_runs c write_host_addr env (some host) request e f response_normal (some g) s'
              (ap build_frame_from_apdu addressed ∙ built) received)
            (normal_response env g b' carried' answer),
        reads room fits,
      )

  -- End to end. Over a channel that sends every frame and delivers what the station at its other end answers, if it
  -- passes the tests of `rx_sync`: the emulator's request for values of a property of a device of
  -- that station (at most 15 elements from a start index below 4096 on, which the device gives in at most 241 bytes)
  -- gives its caller exactly the bytes that the device gave, if they fit into the caller's buffer. The emulator
  -- has changed in its channel's state, and in the host address of its own device.
  pub property_value_read_from_served :
      (host peer : Addr) (p : Position) (dev : D) (out : List ℕ) (room : ℕ) (e : Emulator S T)
      → e.inited ≡ true
      → IsAddr host
      → IsAddr peer
      → IsPosition p
      → p.start_index < 4096
      → get_device_by_daddr svc.host m (some peer) ≡ some dev
      → svc.get_elem_values dev (p.object_index, p.property_id) p.start_index p.no_of_elem 1024
        ≡ ret (values out)
      → All IsByte out
      → length out ≤ 241
      → length out ≤ room
      → 1 ≤ room
      → (s' : S) × (property_value_read_from c write_host_addr env
            (some host)
            (some peer)
            p
            (some room)
            e
          ≡ ret (
            got_values out,
            record (set_dev_host_addr c write_host_addr env 0xffff_ffff (some host) e).0 {
              comm = s';
            },
          ))
  property_value_read_from_served host peer p dev out room e inited ho pe v start found given all
        small fits some_room =
      let (s', b, read, says) =
        read_from_answer host peer p p dev out room e inited ho pe v v (sent_whole p start) start
          found given all small fits some_room in
      let e₁ = (set_dev_host_addr c write_host_addr env 0xffff_ffff (some host) e).0 in
      (
        s',
        read
            ∙ ap (λ x. x >>= λ reply. ret (reply, record e₁ { comm = s' }))
                (values_of_response p out room b says),
      )

  -- End to end. `PropertyValue_Read` takes a start index of 16 bits, and the request has twelve. Over a channel
  -- that sends every frame and delivers what the station at its other end answers, if it passes the tests of
  -- `rx_sync`: with a start index of 4096 or more, where the device of that station gives at most 241 bytes of
  -- values, which fit into the caller's buffer, from the start index without its high bits on, the program
  -- aborts, since an assertion compares the start index of the answer with that of the caller.
  pub property_value_read_from_cut :
      (host peer : Addr) (p : Position) (dev : D) (out : List ℕ) (room : ℕ) (e : Emulator S T)
      → e.inited ≡ true
      → IsAddr host
      → IsAddr peer
      → IsPosition p
      → 4096 ≤ p.start_index
      → get_device_by_daddr svc.host m (some peer) ≡ some dev
      → svc.get_elem_values dev
          (p.object_index, p.property_id)
          (p.start_index % 4096)
          p.no_of_elem
          1024
        ≡ ret (values out)
      → All IsByte out
      → length out ≤ 241
      → length out ≤ room
      → 1 ≤ room
      → property_value_read_from c write_host_addr env (some host) (some peer) p (some room) e
        ≡ aborted
  property_value_read_from_cut host peer p dev out room e inited ho pe u high found given all small
        fits some_room =
      let (s', b, read, says) =
        read_from_answer host peer p (sent p) dev out room e inited ho pe u (sent-IsPosition p u)
          refl (omega arith) found given all small fits some_room in
      let e₁ = (set_dev_host_addr c write_host_addr env 0xffff_ffff (some host) e).0 in
      read
      ∙ ap (λ x. x >>= λ reply. ret (reply, record e₁ { comm = s' }))
          (values_of_other_start p (sent p) out room b says (omega (arith, high)))
