-- ===== src/Emulator/Exchange/Steps.antt =====
-- The steps of a request of EIBEmulatorImpl (EIBCommNEO/EIBEmulatorImpl.cpp), one after the other.
use edifice.Base.{◌≡◌, ap, ◌∙◌, Option, Outcome, ret, ◌>>=◌, Retcode}
use edifice.Apdu.Types.{Env, Apdu, Addr, set_host_addr}
use edifice.Frame.Types.{Frame}
use edifice.Frame.Build.{build_frame_from_apdu}
use edifice.Channel.Waiting.{ResponseType}
use edifice.Emulator.Comm.{Comm}
use edifice.Emulator.Exchange.{Emulator, set_dev_host_addr, tx_rx_sync, exchange}

-- The frame of the APDU is built, sent and answered.
pub exchange_runs :
    {S D : Type 0} (c : Comm S) (write_host_addr : D → Option Addr → D × Retcode) (env : Env)
    (host : Option Addr) (a : Apdu) (e : Emulator S D) (f : Frame) (r : ResponseType)
    (o : Option Frame) (s : S)
    → build_frame_from_apdu (set_host_addr host a) ≡ ret f
    → tx_rx_sync c write_host_addr env
        (set_dev_host_addr c write_host_addr env 0xffff_ffff host e).0.comm
        f
      ≡ ret ((r, o), s)
    → exchange c write_host_addr env host a e
      ≡ ret (
        (r, o),
        record (set_dev_host_addr c write_host_addr env 0xffff_ffff host e).0 { comm = s },
      )
unfolding exchange
exchange_runs {S = S} {D = D} c write_host_addr env host a e f r o s built received =
    let e₁ : Emulator S D = (set_dev_host_addr c write_host_addr env 0xffff_ffff host e).0 in
    let end : (ResponseType × Option Frame) × S
        → Outcome ((ResponseType × Option Frame) × Emulator S D) =
      λ x. ret (x.0, record e₁ { comm = x.1 }) in
    ap (λ x. x >>= λ g. tx_rx_sync c write_host_addr env e₁.comm g >>= end) built
    ∙ ap (λ x. x >>= end) received
