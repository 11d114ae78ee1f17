-- ===== src/Emulator/Raw/Short.antt =====
-- `Send_Rawdate` of EIBEmulatorImpl (EIBCommNEO/EIBEmulatorImpl.cpp) for a frame of one byte.
use edifice.Base.{
  ℕ, ◌≡◌, refl, ap, ◌∙◌, ◌%◌, false, true, List, Option, none, some, ret, fault, ◌>>=◌, Retcode,
}
use edifice.Apdu.Types.{Env, Addr}
use edifice.Frame.Types.{
  OneByteFrameType, one_byte_frame, get_host_addr, get_apdu_mem, get_peer_addr,
  does_peer_use_group_address, does_peer_use_broadcast_address,
}
use edifice.Frame.Parse.{build_frame_from_buff}
use edifice.Device.Manager.{IDevice, DeviceManager}
use edifice.Frame.Extract.{build_apdu_from_frame}
use edifice.Emulator.Comm.{Comm}
use edifice.Emulator.Restrictions.{impose_response_restrictions, restrictions_of}
use edifice.Emulator.Exchange.{Emulator, is_sending_timeout, set_dev_host_addr, tx_rx_sync}
use edifice.Emulator.Raw.{raw_answer, send_raw_frame, send_rawdate}

-- A short frame has no peer address to compare with the broadcast address.
impose_response_restrictions_short :
    (env : Env) (t : OneByteFrameType) → impose_response_restrictions env (one_byte_frame t) ≡ fault
unfolding impose_response_restrictions restrictions_of build_apdu_from_frame one_byte_frame
    get_host_addr get_peer_addr does_peer_use_group_address does_peer_use_broadcast_address
    get_apdu_mem
impose_response_restrictions_short env t = refl

module _ {S D : Type 0} (c : Comm S) (write_host_addr : D → Option Addr → D × Retcode)
    (env : Env) where
  -- The channel, once the emulator's device was told of the missing host address and the time was read.
  abbrev pub asked_time : Emulator S D → S
  asked_time e =
      (c.get_tick_count (set_dev_host_addr c write_host_addr env 0xffff_ffff none e).0.comm).1

  tx_rx_sync_short :
      (s : S) (t : OneByteFrameType)
      → is_sending_timeout (c.tx_sync (c.get_tick_count s).1 (one_byte_frame t)).0 ≡ false
      → tx_rx_sync c write_host_addr env s (one_byte_frame t) ≡ fault
  unfolding tx_rx_sync
  tx_rx_sync_short s t sent = rw (sent, impose_response_restrictions_short env t) refl

  send_raw_frame_short :
      (room : ℕ) (e : Emulator S D) (t : OneByteFrameType)
      → is_sending_timeout (c.tx_sync (asked_time e) (one_byte_frame t)).0 ≡ false
      → send_raw_frame c write_host_addr env room (some (one_byte_frame t)) e ≡ fault
  unfolding send_raw_frame get_host_addr one_byte_frame
  send_raw_frame_short room e t sent =
      let e₁ : Emulator S D = (set_dev_host_addr c write_host_addr env 0xffff_ffff none e).0 in
      ap (λ x. x >>= λ y. ret (raw_answer room y.0.1, record e₁ { comm = y.1 }))
        (tx_rx_sync_short (set_dev_host_addr c write_host_addr env 0xffff_ffff none e).0.comm t
          sent)

  -- `Send_Rawdate` of the byte of an ACK, a NACK, a BUSY or a NACKBUSY, with a buffer for an answer, does not return where the
  -- channel does not time out on sending: the tests of the answer read through the peer's address, which is NULL.
  pub send_rawdate_short :
      (dev : IDevice D) (raw_data : List ℕ) (raw_data_len room : ℕ) (e : Emulator S D)
      (m : DeviceManager D) (t : OneByteFrameType)
      → e.inited ≡ true
      → build_frame_from_buff dev env (some raw_data) (raw_data_len % 256) false true e.dev_manager
        ≡ ret (some (one_byte_frame t), m)
      → is_sending_timeout
          (c.tx_sync (asked_time (record e { dev_manager = m })) (one_byte_frame t)).0
        ≡ false
      → send_rawdate c write_host_addr env dev (some raw_data) raw_data_len (some room) e ≡ fault
  unfolding send_rawdate
  send_rawdate_short dev raw_data raw_data_len room e m t inited parsed sent =
      let made : send_rawdate c write_host_addr env dev (some raw_data) raw_data_len (some room) e
          ≡ (build_frame_from_buff dev env (some raw_data) (raw_data_len % 256) false true
                e.dev_manager
              >>= λ x.
                  send_raw_frame c write_host_addr env room x.0 (record e { dev_manager = x.1 })) =
        rw inited refl in
      made
      ∙ ap
          (λ b. b >>= λ x.
            send_raw_frame c write_host_addr env room x.0 (record e { dev_manager = x.1 }))
          parsed
      ∙ send_raw_frame_short room (record e { dev_manager = m }) t sent
