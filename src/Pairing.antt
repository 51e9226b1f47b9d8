-- ===== src/Pairing.antt =====
-- src-tauri/src/pairing/mod.rs, with the options commands of src-tauri/src/commands/pairing.rs: the
-- session manager of a transfer between two devices. A `oneshot` sender is the number of its
-- channel, and what is sent on one is written to `sent`. An async function that waits between two
-- changes is one definition for each stretch between its waits. `V` is the layout that the page
-- supplies, a JSON value.
pub mod Sessions
pub mod History
pub mod Answers
pub mod Choice
pub mod Frame
pub mod Overtaken
use ai_usage_tracker.Prelude.{
  ℕ, ◌+◌, Bool, true, false, not, ◌&&◌, ◌||◌, Option, none, some, List, [], ◌∷◌, leb, ◌==◌,
  if◌then◌else◌, all_of, Text, codes, text_eq, trim, byte_len, is_ascii_digit, Result, ok, err,
}
use ai_usage_tracker.Prelude.Maps.{lookup, insert, remove}

pub record SyncSummary : Type 0 where
  pub added : ℕ
  pub updated : ℕ
  pub skipped : ℕ
  pub warnings : List Text

pub data PairingStatus : Type 0 where
  idle : PairingStatus
  host_waiting : (session_id qr_svg qr_uri fingerprint join_code : Text) → ℕ → PairingStatus
  client_connecting : Text → PairingStatus
  peer_connected : (session_id fingerprint sas_code : Text) → PairingStatus
  role_selection : (session_id fingerprint sas_code : Text) → PairingStatus
  sas_verification : (session_id sas_code fingerprint role : Text) → Option ℕ → PairingStatus
  transferring : Text → PairingStatus
  completed : SyncSummary → PairingStatus
  failed : Text → PairingStatus

pub record PairingHostInit : Type 0 where
  pub session_id : Text
  pub qr_svg : Text
  pub qr_uri : Text
  pub fingerprint : Text
  pub join_code : Text
  pub expires_at : ℕ

pub record FrozenExtras (V : Type 0) : Type 0 where
  pub include_settings : Bool
  pub pending_ui_state : Option V

pub record PairingTransferOptions (V : Type 0) : Type 0 where
  pub include_settings : Bool
  pub pending_ui_state : Option V
  pub frozen : Option (FrozenExtras V)

pub record ActiveSession : Type 0 where
  pub session_id : Text
  pub cancel_tx : Option ℕ
  pub role_select_tx : Option ℕ
  pub sas_confirm_tx : Option ℕ
  pub advertisement : Option ℕ

-- What goes out of the manager: messages on channels, and an advertisement that is withdrawn.
pub data Sent : Type 0 where
  cancel_sent : ℕ → Sent
  role_sent : ℕ → Text → Sent
  confirm_sent : ℕ → Bool → Sent
  unregistered : ℕ → Sent
  -- `configure_pairing_network`, which on Android ties the process to the Wi-Fi network or frees it.
  network_bound : Bool → Sent

-- `PairingSessionManager`, the options beside it, and what it has sent, the last first.
pub record PairingSessionManager (V : Type 0) : Type 0 where
  pub status : PairingStatus
  pub active : Option ActiveSession
  pub join_attempts : List (Text × ℕ)
  pub epoch : ℕ
  pub options : PairingTransferOptions V
  pub sent : List Sent

pub data PairingError : Type 0 where
  invalid_role no_session role_not_wanted no_longer_waiting session_mismatch : PairingError
  confirm_not_wanted interrupted invalid_code too_many_attempts : PairingError
  passed_on : Text → PairingError

pub data HostEvent : Type 0 where
  connected : Text → HostEvent
  peer_connected : (sas_code fingerprint : Text) → HostEvent
  sas_verification : (sas_code fingerprint role : Text) → ℕ → HostEvent
  transferring cancelled expired : HostEvent
  completed : SyncSummary → HostEvent
  failed : Text → HostEvent

pub data ClientEvent : Type 0 where
  connected : Text → ℕ → ClientEvent
  role_selection : (sas_code fingerprint : Text) → ClientEvent
  sas_verification : (sas_code fingerprint role : Text) → ℕ → ClientEvent
  transferring cancelled : ClientEvent
  completed : SyncSummary → ClientEvent
  failed : Text → ClientEvent

-- A send on a channel that may be gone, with what is sent on it.
abbrev pub log_option : (ℕ → Sent) → Option ℕ → List Sent → List Sent
log_option f none sent = sent
log_option f (some t) sent = f t ∷ sent

abbrev pub log_close : Option ActiveSession → List Sent → List Sent
log_close none sent = sent
log_close (some s) sent =
    log_option unregistered s.advertisement (log_option cancel_sent s.cancel_tx sent)

abbrev pub is_role : Text → Bool
is_role role = text_eq role (codes "send") || text_eq role (codes "receive")

module _ {V : Type 0} where
  abbrev pub default_options : PairingTransferOptions V
  default_options = record { include_settings = false; pending_ui_state = none; frozen = none }

  unfoldable pub freeze : PairingTransferOptions V → PairingTransferOptions V
  freeze o = elim o.frozen [
    | none ↦ record o {
      frozen =
          some (record {
            include_settings = o.include_settings;
            pending_ui_state = o.pending_ui_state;
          });
    }
    | some f ↦ o
  ]

  unfoldable pub unfreeze : PairingTransferOptions V → PairingTransferOptions V
  unfreeze o = record o { frozen = none }

  unfoldable pub exported_extras : PairingTransferOptions V → Bool × Option V
  exported_extras o = elim o.frozen [
    | some f ↦ (f.include_settings, f.pending_ui_state)
    | none ↦ (o.include_settings, o.pending_ui_state)
  ]

  unfoldable pub clear_after_export : PairingTransferOptions V → PairingTransferOptions V
  clear_after_export o = record o {
    include_settings = false;
    pending_ui_state = none;
    frozen = none;
  }

  unfoldable pub new : PairingSessionManager V
  new = record {
    status = idle;
    active = none;
    join_attempts = [];
    epoch = 0;
    options = default_options;
    sent = [];
  }

  unfoldable pub cancel : PairingSessionManager V → PairingSessionManager V
  cancel p = record p { active = none; sent = log_close p.active p.sent; status = idle }

  -- The command `pairing_cancel`.
  unfoldable pub pairing_cancel : PairingSessionManager V → PairingSessionManager V
  unfolding cancel
  pairing_cancel p =
      let c = cancel p in
      record c { options = default_options; sent = network_bound false ∷ c.sent }

  -- `listening` says whether the other end of the channel is still there.
  unfoldable pub select_role :
      Bool
      → Text
      → PairingSessionManager V
      → PairingSessionManager V × Result PairingError (Unit {0})
  select_role listening role p =
      if not (is_role role) then (p, err invalid_role) else elim p.active [
        | none ↦ (p, err no_session)
        | some session ↦ elim session.role_select_tx [
          | none ↦ (p, err role_not_wanted)
          | some role_tx ↦
              let taken = record p { active = some (record session { role_select_tx = none }) } in
              if listening
              then (record taken { sent = role_sent role_tx role ∷ p.sent }, ok tt)
              else (taken, err no_longer_waiting)
        ]
      ]

  -- The first part of `confirm_sas`, under the session's lock: the channel to answer on.
  unfoldable pub take_confirm :
      Text → PairingSessionManager V → PairingSessionManager V × Result PairingError ℕ
  take_confirm session_id p = elim p.active [
    | none ↦ (p, err no_session)
    | some session ↦
        if not (text_eq session.session_id session_id)
        then (p, err session_mismatch)
        else elim session.sas_confirm_tx [
          | none ↦ (p, err confirm_not_wanted)
          | some confirm_tx ↦
              (record p { active = some (record session { sas_confirm_tx = none }) }, ok confirm_tx)
        ]
  ]

  -- The second part, under the options' lock.
  unfoldable pub send_confirm : ℕ → Bool → PairingSessionManager V → PairingSessionManager V
  unfolding freeze
  send_confirm confirm_tx confirmed p = record p {
    options = if confirmed then freeze p.options else p.options;
    sent = confirm_sent confirm_tx confirmed ∷ p.sent;
  }

  unfoldable pub confirm_sas :
      Text
      → Bool
      → PairingSessionManager V
      → PairingSessionManager V × Result PairingError (Unit {0})
  unfolding take_confirm send_confirm
  confirm_sas session_id confirmed p = elim (take_confirm session_id p).1 [
    | ok confirm_tx ↦ (send_confirm confirm_tx confirmed (take_confirm session_id p).0, ok tt)
    | err e ↦ ((take_confirm session_id p).0, err e)
  ]

  -- A channel that is not installed is dropped.
  unfoldable pub offer_role_select : Text → ℕ → PairingSessionManager V → PairingSessionManager V
  offer_role_select session_id tx p = elim p.active [
    | none ↦ p
    | some session ↦ elim session.role_select_tx [
      | none ↦
          if text_eq session.session_id session_id
          then record p { active = some (record session { role_select_tx = some tx }) }
          else p
      | some other ↦ p
    ]
  ]

  unfoldable pub offer_sas_confirm : Text → ℕ → PairingSessionManager V → PairingSessionManager V
  offer_sas_confirm session_id tx p = elim p.active [
    | none ↦ p
    | some session ↦ elim session.sas_confirm_tx [
      | none ↦
          if text_eq session.session_id session_id
          then record p { active = some (record session { sas_confirm_tx = some tx }) }
          else p
      | some other ↦ p
    ]
  ]
