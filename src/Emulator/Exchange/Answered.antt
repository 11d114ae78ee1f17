-- ===== src/Emulator/Exchange/Answered.antt =====
-- Which frames `tx_rx_sync` of EIBEmulatorImpl (EIBCommNEO/EIBEmulatorImpl.cpp) takes for an answer.
use edifice.Base.{
  ◌≡◌, refl, ap, ◌∙◌, inl, inr, Bool, true, false, ◌&&◌, List, ◌∷◌, Option, some, ret, Bool-cases,
  Retcode,
}
use edifice.Apdu.Types.{Env, Apdu, Addr, ApduType}
use edifice.Device.Manager.{addr_eq}
use edifice.Frame.Types.{Frame, get_host_addr, get_peer_addr, does_peer_use_group_address}
use edifice.Frame.Extract.{build_apdu_from_frame}
use edifice.Channel.Queue.{RxData}
use edifice.Channel.Waiting.{
  Wanted, is_wanted, too_early, got_ya, type_expected, address_expected, address_equal,
  ResponseType,
}
use edifice.Emulator.Comm.{Comm}
use edifice.Emulator.Comm.Filter.{WasWanted, Filters}
use edifice.Emulator.Restrictions.{
  Restrictions, get_expected_apdu_types, types_or_none, restricted, restrictions_of,
  impose_response_restrictions,
}
use edifice.Emulator.Exchange.{wanted_of, is_sending_timeout, tx_rx_sync}

-- Both tests of a conjunction.
both : (a b c : Bool) → a && b && c ≡ true → (a ≡ true) × (b ≡ true) × (c ≡ true)
both true true true e = (refl, refl, refl)
both true true false e = cc
both true false c e = cc
both false b c e = cc

-- The restrictions that a request to one device imposes.
to_device :
    (env : Env) (f : Frame) (a : Apdu) (host peer : Addr)
    → build_apdu_from_frame env f ≡ ret (some a)
    → get_host_addr f ≡ ret (some host)
    → get_peer_addr f ≡ ret (some peer)
    → does_peer_use_group_address f ≡ ret false
    → addr_eq env.broadcast_addr peer ≡ false
    → impose_response_restrictions env f
      ≡ ret (
          restricted
            (types_or_none (get_expected_apdu_types a.type))
            false
            false
            (some host)
            (some peer))
unfolding impose_response_restrictions restrictions_of
to_device env f a host peer carried from to group broadcast =
    rw (carried, from, to, group, broadcast) refl

-- What an entry that passes the tests of `rx_sync` says.
wanted_says :
    (w : Wanted) (x : RxData) (host peer : Addr) (p h : Addr) (t : Option ApduType)
    (ts : List (Option ApduType))
    → w.from ≡ some p
    → w.to ≡ some h
    → w.expected_types ≡ some (t ∷ ts)
    → get_host_addr x.frame ≡ ret (some host)
    → get_peer_addr x.frame ≡ ret (some peer)
    → is_wanted w x ≡ ret true
    → (addr_eq p host ≡ true)
      × (addr_eq h peer ≡ true)
      × (got_ya x.type (t ∷ ts) ≡ true)
      × (too_early w x ≡ false)
unfolding is_wanted address_expected address_equal type_expected
wanted_says w x host peer p h t ts from to types read_host read_peer e =
    elim (Bool-cases (too_early w x)) [
      | inl early ↦ cc (rw early at e)
      | inr late ↦
          (let tests : addr_eq p host && addr_eq h peer && got_ya x.type (t ∷ ts) ≡ true =
              cc (rw (late, from, to, types, read_host, read_peer) at e) in
            let (a, b, c) = both _ _ _ tests in (a, b, c, late))
    ]

module _ {S D : Type 0} (c : Comm S) (write_host_addr : D → Option Addr → D × Retcode)
    (env : Env) where
  -- A frame that `tx_rx_sync` gives has passed the tests of `rx_sync` under the request's restrictions.
  tx_rx_sync-WasWanted :
      (s : S) (f g : Frame) (x : Restrictions) (r : ResponseType) (s' : S)
      → Filters c
      → impose_response_restrictions env f ≡ ret x
      → tx_rx_sync c write_host_addr env s f ≡ ret ((r, some g), s')
      → WasWanted (wanted_of c.response_time (c.get_tick_count s).0 x) g
  unfolding tx_rx_sync
  tx_rx_sync-WasWanted s f g x r s' filters imposed e =
      let sent = c.tx_sync (c.get_tick_count s).1 f in
      elim (Bool-cases (is_sending_timeout sent.0)) [
        | inl late ↦ cc (rw late at e)
        | inr on ↦
            filters.wanted sent.1 (wanted_of c.response_time (c.get_tick_count s).0 x) c.rx_time_out
              r g s' (rw (on, imposed) at e)
      ]

  -- Over a channel that only gives frames that pass the tests of `rx_sync`: a frame with readable addresses that
  -- `tx_rx_sync` gives for a request to one device (neither a group nor the broadcast address), of a class that
  -- expects answers, is from that device and for the sender of the request; it
  -- came in an entry whose type is among those the class expects, and not too early.
  pub tx_rx_sync_answered :
      (s : S) (f g : Frame) (a : Apdu) (host peer host' peer' : Addr) (t : Option ApduType)
      (ts : List (Option ApduType)) (r : ResponseType) (s' : S)
      → Filters c
      → build_apdu_from_frame env f ≡ ret (some a)
      → get_host_addr f ≡ ret (some host)
      → get_peer_addr f ≡ ret (some peer)
      → does_peer_use_group_address f ≡ ret false
      → addr_eq env.broadcast_addr peer ≡ false
      → get_expected_apdu_types a.type ≡ some (t ∷ ts)
      → get_host_addr g ≡ ret (some host')
      → get_peer_addr g ≡ ret (some peer')
      → tx_rx_sync c write_host_addr env s f ≡ ret ((r, some g), s')
      → (addr_eq peer host' ≡ true)
        × (addr_eq host peer' ≡ true)
        × (x : RxData) × (x.frame ≡ g)
        × (got_ya x.type (t ∷ ts) ≡ true)
        × (too_early
              (wanted_of c.response_time
                (c.get_tick_count s).0
                (restricted (t ∷ ts) false false (some host) (some peer)))
              x
            ≡ false)
  unfolding wanted_of
  tx_rx_sync_answered s f g a host peer host' peer' t ts r s' filters carried from to group
        broadcast types read_host read_peer e =
      let imposed : impose_response_restrictions env f
          ≡ ret (restricted (t ∷ ts) false false (some host) (some peer)) =
        to_device env f a host peer carried from to group broadcast
        ∙ ap (λ o. ret (restricted (types_or_none o) false false (some host) (some peer))) types in
      let (x, same, wanted) = tx_rx_sync-WasWanted s f g _ r s' filters imposed e in
      let (is_from, is_to, got, late) =
        wanted_says
          (wanted_of c.response_time (c.get_tick_count s).0
            (restricted (t ∷ ts) false false (some host) (some peer)))
          x host' peer' peer host t ts refl refl refl (ap get_host_addr same ∙ read_host)
          (ap get_peer_addr same ∙ read_peer) wanted in
      (is_from, is_to, x, same, got, late)
