-- ===== src/Emulator/Raw.antt =====
-- `Send_Rawdate` of EIBEmulatorImpl (EIBCommNEO/EIBEmulatorImpl.cpp): a frame that is sent as it is.
pub mod Short
use edifice.Base.{
  ℕ, ◌%◌, Bool, true, false, not, if◌then◌else◌, ltb, List, Option, none, some, Outcome, ret, ◌>>=◌,
  Retcode,
}
use edifice.Apdu.Types.{Env, Addr}
use edifice.Apdu.PropertyValue.{Copied, too_small, copied}
use edifice.Device.Manager.{IDevice}
use edifice.Frame.Types.{Frame, get_host_addr}
use edifice.Frame.Parse.{build_frame_from_buff}
use edifice.Channel.Waiting.{ResponseType}
use edifice.Emulator.Comm.{Comm}
use edifice.Emulator.Exchange.{Emulator, Return, okay, plus, set_dev_host_addr, tx_rx_sync}

-- What `Send_Rawdate` copies out: the received frame, or the room it wants.
abbrev pub raw_answer : ℕ → Option Frame → Return × Option Copied
raw_answer room none = (plus 3, none)
raw_answer room (some f) =
    (okay, some (if ltb room f.frame_len then too_small f.frame_len else copied f.frame_mem))

module _ {S D : Type 0} (c : Comm S) (write_host_addr : D → Option Addr → D × Retcode)
    (env : Env) where
  abbrev pub send_raw_frame :
      ℕ → Option Frame → Emulator S D → Outcome ((Return × Option Copied) × Emulator S D)
  unfolding set_dev_host_addr tx_rx_sync get_host_addr
  send_raw_frame room none e = ret ((plus 2, none), e)
  send_raw_frame room (some f) e = do
    host ← get_host_addr f
    let e₁ = (set_dev_host_addr c write_host_addr env 0xffff_ffff host e).0
    ((r, o), s) ← tx_rx_sync c write_host_addr env e₁.comm f
    ret (raw_answer room o, record e₁ { comm = s })

  -- `Send_Rawdate`, over the device interface; `raw_data_len` goes through a `UCHAR`.
  unfoldable pub send_rawdate :
      IDevice D
      → Option (List ℕ)
      → ℕ
      → Option ℕ
      → Emulator S D
      → Outcome ((Return × Option Copied) × Emulator S D)
  send_rawdate dev (some raw_data) raw_data_len (some room) e =
      let sent =
        build_frame_from_buff dev env (some raw_data) (raw_data_len % 256) false true e.dev_manager
        >>= λ (o, m). send_raw_frame room o (record e { dev_manager = m }) in
      if not e.inited then ret ((plus 7, none), e) else sent
  send_rawdate dev _ raw_data_len _ e = ret ((plus 7, none), e)
