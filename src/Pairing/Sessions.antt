-- ===== src/Pairing/Sessions.antt =====
-- src-tauri/src/pairing/mod.rs and src-tauri/src/pairing/discovery.rs: how a session begins, on
-- either side, what the events of its task do, and the attempts to join by a code.
use ai_usage_tracker.Prelude.{
  ℕ, ◌+◌, ◌%◌, Bool, true, false, not, ◌&&◌, Option, none, some, List, ◌∷◌, leb, ◌==◌,
  if◌then◌else◌, all_of, Text, codes, text_eq, trim, byte_len, is_ascii_digit, Result, ok, err,
}
use ai_usage_tracker.Prelude.Maps.{lookup, insert, remove}
use ai_usage_tracker.Prelude.Split.{u64_bound}
use ai_usage_tracker.Pairing.{
  PairingSessionManager, PairingHostInit, PairingStatus, ActiveSession, HostEvent, ClientEvent,
  PairingError, default_options, cancel, log_option, unregistered, network_bound, interrupted,
  invalid_code, too_many_attempts, passed_on,
}

abbrev pub new_session : Text → ℕ → ActiveSession
new_session session_id cancel_tx = record {
  session_id = session_id;
  cancel_tx = some cancel_tx;
  role_select_tx = none;
  sas_confirm_tx = none;
  advertisement = none;
}

-- The status that an event of the session leads to. `Connected` leads to none.
unfoldable pub host_status : Text → HostEvent → Option PairingStatus
host_status sid (HostEvent.connected fingerprint) = none
host_status sid (HostEvent.peer_connected sas_code fingerprint) =
    some (PairingStatus.peer_connected sid fingerprint sas_code)
host_status sid (HostEvent.sas_verification sas_code fingerprint role account_count) =
    some (PairingStatus.sas_verification sid sas_code fingerprint role (some account_count))
host_status sid HostEvent.transferring = some (PairingStatus.transferring sid)
host_status sid (HostEvent.completed summary) = some (PairingStatus.completed summary)
host_status sid HostEvent.cancelled = some PairingStatus.idle
host_status sid HostEvent.expired = some (PairingStatus.failed (codes "Pairing session timed out"))
host_status sid (HostEvent.failed e) = some (PairingStatus.failed e)

unfoldable pub client_status : Text → ClientEvent → Option PairingStatus
client_status sid (ClientEvent.connected sas_code account_count) = none
client_status sid (ClientEvent.role_selection sas_code fingerprint) =
    some (PairingStatus.role_selection sid fingerprint sas_code)
client_status sid (ClientEvent.sas_verification sas_code fingerprint role account_count) =
    some (PairingStatus.sas_verification sid sas_code fingerprint role (some account_count))
client_status sid ClientEvent.transferring = some (PairingStatus.transferring sid)
client_status sid (ClientEvent.completed summary) = some (PairingStatus.completed summary)
client_status sid ClientEvent.cancelled = some PairingStatus.idle
client_status sid (ClientEvent.failed e) = some (PairingStatus.failed e)

-- A status after which the task of the session handles no more events.
abbrev pub is_final : PairingStatus → Bool
is_final (PairingStatus.completed summary) = true
is_final (PairingStatus.failed e) = true
is_final PairingStatus.idle = true
is_final other = false

abbrev pub max_join_attempts : ℕ
max_join_attempts = 5

unfoldable pub is_valid_join_code : Text → Bool
is_valid_join_code code = byte_len code == 6 && all_of is_ascii_digit code

abbrev pub attempts_of : Text → List (Text × ℕ) → ℕ
attempts_of code attempts = elim (lookup code attempts) [ none ↦ 0 | some n ↦ n ]

module _ {V : Type 0} where
  -- `start_host` to the wait for the listener, with the epoch that it goes on with.
  unfoldable pub begin_host : PairingSessionManager V → PairingSessionManager V × ℕ
  unfolding cancel
  begin_host p =
      let c = cancel p in
      (
        record c { options = default_options; epoch = (p.epoch + 1) % u64_bound },
        (p.epoch + 1) % u64_bound,
      )

  -- `start_host` from there on, with what it has made.
  unfoldable pub open_host :
      ℕ
      → PairingHostInit
      → ℕ
      → PairingSessionManager V
      → PairingSessionManager V × Result PairingError PairingHostInit
  open_host epoch init cancel_tx p =
      if p.epoch == epoch
      then (
        record p {
          status =
              PairingStatus.host_waiting init.session_id init.qr_svg init.qr_uri init.fingerprint
                init.join_code init.expires_at;
          active = some (new_session init.session_id cancel_tx);
        },
        ok init,
      )
      else (p, err interrupted)

  -- The advertisement is made in a task of its own, which may end after the session.
  unfoldable pub advertised : Text → ℕ → PairingSessionManager V → PairingSessionManager V
  advertised sid adv p = elim p.active [
    | none ↦ record p { sent = unregistered adv ∷ p.sent }
    | some session ↦
        if text_eq session.session_id sid
        then record p { active = some (record session { advertisement = some adv }) }
        else record p { sent = unregistered adv ∷ p.sent }
  ]

  -- The session goes when it is the one whose task has ended.
  unfoldable pub close_session : Text → PairingSessionManager V → PairingSessionManager V
  close_session sid p = elim p.active [
    | none ↦ p
    | some session ↦
        if text_eq session.session_id sid
        then record p { active = none; sent = log_option unregistered session.advertisement p.sent }
        else p
  ]

  -- A turn of the event loop, and whether the loop goes on.
  unfoldable pub handle_status :
      Text → Option PairingStatus → PairingSessionManager V → PairingSessionManager V × Bool
  unfolding close_session
  handle_status sid none p = (p, true)
  handle_status sid (some status) p =
      let shown = record p { status = status } in
      let freed = record shown { sent = network_bound false ∷ p.sent } in
      if is_final status then (close_session sid freed, false) else (shown, true)

  unfoldable pub handle_host_event :
      Text → HostEvent → PairingSessionManager V → PairingSessionManager V × Bool
  unfolding host_status handle_status
  handle_host_event sid event p = handle_status sid (host_status sid event) p

  -- A client has no advertisement.
  unfoldable pub handle_client_event :
      Text → ClientEvent → PairingSessionManager V → PairingSessionManager V × Bool
  unfolding client_status handle_status
  handle_client_event sid event p = handle_status sid (client_status sid event) p

  -- `parsed` is the session of the address, or why it is none.
  unfoldable pub start_client :
      Result Text Text
      → ℕ
      → PairingSessionManager V
      → PairingSessionManager V × Result PairingError (Unit {0})
  unfolding begin_host
  start_client parsed cancel_tx p =
      let begun = (begin_host p).0 in
      elim parsed [
        | err e ↦ (begun, err (passed_on e))
        | ok session_id ↦ (
          record begun {
            status = PairingStatus.client_connecting session_id;
            active = some (new_session session_id cancel_tx);
          },
          ok tt,
        )
      ]

  -- `start_client_by_code` to the lookup of the code on the network: the code to look up.
  unfoldable pub check_join : Text → PairingSessionManager V → Result PairingError Text
  unfolding is_valid_join_code
  check_join typed p =
      let code = trim typed in
      if not (is_valid_join_code code)
      then err invalid_code
      else if leb max_join_attempts (attempts_of code p.join_attempts)
      then err too_many_attempts
      else ok code

  -- The change of the counts that follows the lookup, which waits without a lock: other calls may
  -- come in between. After it comes `start_client` with the address, or the error.
  unfoldable pub count_join :
      Text → Result Text Text → PairingSessionManager V → PairingSessionManager V
  count_join code (ok address) p = record p { join_attempts = remove code p.join_attempts }
  count_join code (err e) p = record p {
    join_attempts = insert code (attempts_of code p.join_attempts + 1) p.join_attempts;
  }
