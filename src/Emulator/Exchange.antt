-- ===== src/Emulator/Exchange.antt =====
-- Sending a request and waiting for its answer: `tx_rx_sync`, `tx_rx_till_timeout_sync` and `set_host_addr` of
-- EIBEmulatorImpl (EIBCommNEO/EIBEmulatorImpl.cpp).
pub mod Answered
pub mod Steps
use edifice.Base.{
  ℕ, Bool, true, false, if◌then◌else◌, ◌==◌, List, [], ◌∷◌, Option, none, some, Outcome, ret, ◌>>=◌,
  Retcode, failure,
}
use edifice.Apdu.Types.{Env, Apdu, Addr, ApduType, is_ack, is_nack, set_host_addr}
use edifice.Device.Manager.{DeviceManager, get_device_by_id}
use edifice.Frame.Types.{Frame}
use edifice.Frame.Build.{build_frame_from_apdu}
use edifice.Frame.Extract.{build_apdu_from_frame}
use edifice.Channel.Waiting.{
  Wanted, type_value, ResponseType, response_sending_timeout, response_normal, response_short,
}
use edifice.Emulator.Comm.{Comm, rx_sync_ex}
use edifice.Emulator.Restrictions.{Restrictions, impose_response_restrictions}

-- The emulator: whether `Init` was called, its channel, its devices.
pub record Emulator (S D : Type 0) : Type 0 where
  pub inited : Bool
  pub comm : S
  pub dev_manager : DeviceManager D

abbrev pub is_sending_timeout : ResponseType → Bool
is_sending_timeout response_sending_timeout = true
is_sending_timeout _ = false

abbrev pub is_normal : ResponseType → Bool
is_normal response_normal = true
is_normal _ = false

abbrev pub is_short : ResponseType → Bool
is_short response_short = true
is_short _ = false

-- `dynamic_cast` to a class.
unfoldable pub is_of_class : ApduType → Apdu → Bool
unfolding type_value
is_of_class t a = type_value a.type == type_value t

-- What `rx_sync` is asked for.
unfoldable pub wanted_of : ℕ → ℕ → Restrictions → Wanted
wanted_of response_time sending_time x = record {
  sending_time = sending_time;
  expected_types = some x.expected_types;
  from = x.check_from;
  to = x.check_to;
  response_time = response_time;
}

-- The APDU of a received frame, NULL without a frame.
unfoldable pub opened : Env → Option Frame → Outcome (Option Apdu)
opened env none = ret none
opened env (some f) = build_apdu_from_frame env f

-- A return code: 0, or one below or above it.
pub data Return : Type 0 where
  okay : Return
  minus plus : ℕ → Return

-- What an answer says to a request that is to be acknowledged.
pub data Acknowledgement : Type 0 where
  acknowledged denied unanswered : Acknowledgement

unfoldable pub answer_of : Option Apdu → Acknowledgement
answer_of none = unanswered
answer_of (some a) =
    if is_ack a.type then acknowledged else if is_nack a.type then denied else unanswered

-- The test of a short answer.
unfoldable pub short_answer : Env → ResponseType → Option Frame → Outcome Acknowledgement
unfolding opened answer_of
short_answer env r o =
    let answer = opened env o >>= λ a. ret (answer_of a) in
    if is_short r then answer else ret unanswered

unfoldable pub classed : ApduType → Option Apdu → Option Apdu
unfolding is_of_class
classed t none = none
classed t (some a) = if is_of_class t a then some a else none

-- The answer's APDU, if it is a normal one of a class.
unfoldable pub normal_answer : Env → ApduType → ResponseType → Option Frame → Outcome (Option Apdu)
unfolding opened classed
normal_answer env t r o =
    let answer = opened env o >>= λ p. ret (classed t p) in if is_normal r then answer else ret none

module _ {S D : Type 0} (c : Comm S) (write_host_addr : D → Option Addr → D × Retcode)
    (env : Env) where
  -- `tx_rx_sync`, with the frame that it receives, if it does.
  unfoldable pub tx_rx_sync : S → Frame → Outcome ((ResponseType × Option Frame) × S)
  unfolding wanted_of
  tx_rx_sync s f =
      let (sending_time, s₁) = c.get_tick_count s in
      let (r, s₂) = c.tx_sync s₁ f in
      let received = impose_response_restrictions env f >>= λ x.
      c.rx_sync s₂ (wanted_of c.response_time sending_time x) c.rx_time_out in
      if is_sending_timeout r then ret ((r, none), s₂) else received

  -- `tx_rx_till_timeout_sync`: all normal answers until the time is out, for so many of them.
  unfoldable pub tx_rx_till_timeout_sync : ℕ → S → Frame → Outcome ((ResponseType × List Frame) × S)
  unfolding wanted_of
  tx_rx_till_timeout_sync fuel s f =
      let (sending_time, s₁) = c.get_tick_count s in
      let (r, s₂) = c.tx_sync s₁ f in
      let received = impose_response_restrictions env f >>= λ x.
      rx_sync_ex c fuel s₂ (wanted_of c.response_time sending_time x) [] >>= λ (fs, s₃).
      ret ((response_normal, fs), s₃) in
      if is_sending_timeout r then ret ((r, []), s₂) else received

  -- The device of a number, replaced.
  unfoldable pub replace : ℕ → D → List (ℕ × D) → List (ℕ × D)
  replace k d [] = []
  replace k d ((j, x) ∷ ds) = if j == k then (j, d) ∷ ds else (j, x) ∷ replace k d ds

  abbrev pub written : ℕ → Option Addr → Option D → Emulator S D → Emulator S D × Retcode
  written dev_id hostaddr none e = (e, failure 1)
  written dev_id hostaddr (some d) e = (
    record e {
      dev_manager = record e.dev_manager {
        devs = replace dev_id (write_host_addr d hostaddr).0 e.dev_manager.devs;
      };
    },
    (write_host_addr d hostaddr).1,
  )

  -- `EIBEmulatorImpl::set_host_addr`
  unfoldable pub set_dev_host_addr : ℕ → Option Addr → Emulator S D → Emulator S D × Retcode
  set_dev_host_addr dev_id hostaddr e =
      if e.inited
      then written dev_id hostaddr (get_device_by_id e.dev_manager dev_id) e
      else (e, failure 1)

  -- What the requests share: the emulator's own device gets the host's address, the APDU too, and its frame is
  -- sent and answered.
  unfoldable pub exchange :
      Option Addr → Apdu → Emulator S D → Outcome ((ResponseType × Option Frame) × Emulator S D)
  unfolding set_dev_host_addr tx_rx_sync
  exchange host a e = do
    let e₁ = (set_dev_host_addr 0xffff_ffff host e).0
    f ← build_frame_from_apdu (set_host_addr host a)
    (answer, s) ← tx_rx_sync e₁.comm f
    ret (answer, record e₁ { comm = s })
