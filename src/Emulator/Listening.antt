-- ===== src/Emulator/Listening.antt =====
-- Answering the requests of other stations: `rx_tx_sync` of EIBEmulatorImpl (EIBCommNEO/EIBEmulatorImpl.cpp).
use edifice.Base.{
  ℕ, ◌-◌, ◌^◌, if◌then◌else◌, List, [], ◌∷◌, Option, none, some, Outcome, ret, ◌>>=◌, Retcode,
  success, failure,
}
use edifice.Apdu.Types.{Env, apdu_vec}
use edifice.Device.Manager.{DeviceManager}
use edifice.Frame.Types.{Frame}
use edifice.Channel.Waiting.{Wanted, ResponseType, response_normal, response_bad_query}
use edifice.Respond.Services.{Services}
use edifice.Respond.Writing.{Writers}
use edifice.Respond.Linking.{Linkers}
use edifice.Respond.Dispatch.{respond_frame}
use edifice.Emulator.Comm.{Comm, is_time_out}
use edifice.Emulator.Restrictions.{for_listen}
use edifice.Emulator.Exchange.{Emulator}

-- Every request that expects an answer is wanted, from any time and any address.
unfoldable pub wanted_for_listen : ℕ → Wanted
unfolding for_listen
wanted_for_listen response_time = record {
  sending_time = 2 ^ 32 - 1;
  expected_types = some (for_listen apdu_vec);
  from = none;
  to = none;
  response_time = response_time;
}

-- The loop that sends the answers.
unfoldable pub send_frames : {S : Type 0} → Comm S → List Frame → S → S
send_frames c [] s = s
send_frames c (f ∷ fs) s = send_frames c fs (c.tx_sync s f).1

module _ {S D : Type 0} (c : Comm S) (reads : Services D) (writers : Writers D)
    (linkers : Linkers D) (env : Env) where
  -- The answers to a received frame are sent if there was no error.
  abbrev pub answers_sent :
      (List Frame × Retcode) × DeviceManager D → Emulator S D → ResponseType × Emulator S D
  unfolding send_frames
  answers_sent ((fs, success), m) e =
      (response_normal, record e { comm = send_frames c fs e.comm; dev_manager = m })
  answers_sent ((fs, failure n), m) e = (response_bad_query, record e { dev_manager = m })

  abbrev pub frame_answered :
      ResponseType → Option Frame → Emulator S D → Outcome (ResponseType × Emulator S D)
  unfolding answers_sent respond_frame
  frame_answered r none e = ret (r, e)
  frame_answered r (some f) e =
      let answered =
        respond_frame reads writers linkers env f e.dev_manager >>= λ x. ret (answers_sent x e) in
      if is_time_out r then ret (r, e) else answered

  -- `rx_tx_sync`
  unfoldable pub rx_tx_sync : ℕ → Emulator S D → Outcome (ResponseType × Emulator S D)
  unfolding frame_answered wanted_for_listen
  rx_tx_sync waiting_time e = do
    ((r, o), s) ← c.rx_sync e.comm (wanted_for_listen c.response_time) waiting_time
    frame_answered r o (record e { comm = s })
