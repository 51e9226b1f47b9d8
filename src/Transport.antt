-- ===== src/Transport.antt =====
-- src-tauri/src/pairing/transport.rs, run_authenticated_transfer: what one device does once the two
-- are connected and their roles are chosen. It is a step on each thing that can happen: the user's
-- answer or cancellation, a frame or an error from the peer, and a timeout. The cipher, SHA-256, the
-- export and the import are parameters. A write that an event causes succeeds or fails as `io` says.
pub mod Steps
pub mod Secrecy
pub mod Agreement
pub mod Schedules
use ai_usage_tracker.Prelude.{
  ℕ, ◌+◌, ◌*◌, ◌/◌, ◌%◌, Bool, true, false, not, ◌&&◌, ◌||◌, Option, none, some, List, [], ◌∷◌,
  ◌++◌, ◌==◌, if◌then◌else◌, Text, codes, as_bytes, length, Result, ok, err,
}
use ai_usage_tracker.Pairing.{SyncSummary}
use ai_usage_tracker.Protocol.{msg_sas_confirm, msg_encrypted_payload, msg_ack, msg_abort}

abbrev pub confirm_receiver_info : List ℕ
confirm_receiver_info = codes "ai-usage-tracker-confirm-receiver"

abbrev pub confirm_sender_info : List ℕ
confirm_sender_info = codes "ai-usage-tracker-confirm-sender"

pub data TransferEvent : Type 0 where
  transferring : TransferEvent
  completed : SyncSummary → TransferEvent
  failed : Text → TransferEvent

-- The side's role and keys, and the parts of the program and the libraries that it calls.
pub record Side : Type 0 where
  pub is_sender : Bool
  pub encryption_key : List ℕ
  pub sas_code : Text
  pub sha256 : List ℕ → List ℕ
  pub create_export_payload : Result Text (List ℕ)
  pub encrypt_payload : List ℕ → Result Text (List ℕ)
  pub decrypt_payload : List ℕ → Result Text (List ℕ)
  pub import_sync_payload : List ℕ → Result Text SyncSummary

-- Whether this user and the peer have confirmed, then what is waited for.
pub data Phase : Type 0 where
  confirming : Bool → Bool → Phase
  awaiting_ack awaiting_payload finished : Phase

-- The phase, the frames written and the events sent, the last first, whether the options were
-- cleared, and what was handed to the import.
pub record Transfer : Type 0 where
  pub phase : Phase
  pub written : List (ℕ × List ℕ)
  pub events : List TransferEvent
  pub options_cleared : Bool
  pub imported : List (List ℕ)

-- The answer is none when the channel is gone.
pub data Happening : Type 0 where
  cancels : Happening
  answers : Option Bool → Happening
  receives : Result Text (ℕ × List ℕ) → Happening
  times_out : Happening

unfoldable pub compute_confirmation_tag : Side → List ℕ → List ℕ
compute_confirmation_tag side role_info =
    side.sha256 (role_info ++ side.encryption_key ++ as_bytes side.sas_code)

abbrev pub my_tag_info : Side → List ℕ
my_tag_info side = if side.is_sender then confirm_sender_info else confirm_receiver_info

abbrev pub peer_tag_info : Side → List ℕ
peer_tag_info side = if side.is_sender then confirm_receiver_info else confirm_sender_info

unfoldable pub same_bytes : List ℕ → List ℕ → Bool
same_bytes [] [] = true
same_bytes [] (b ∷ bs) = false
same_bytes (a ∷ as') [] = false
same_bytes (a ∷ as') (b ∷ bs) = a == b && same_bytes as' bs

unfoldable pub verify_confirmation_tag : Side → List ℕ → List ℕ → Bool
unfolding compute_confirmation_tag same_bytes
verify_confirmation_tag side role_info received_tag =
    same_bytes (compute_confirmation_tag side role_info) received_tag

unfoldable pub initial : Transfer
initial = record {
  phase = confirming false false;
  written = [];
  events = [];
  options_cleared = false;
  imported = [];
}

unfoldable pub fail : Text → Transfer → Transfer
fail e t = record t { phase = finished; events = failed e ∷ t.events }

-- A frame written whatever comes of it, as `let _ =` does.
unfoldable pub write_unchecked : Result Text (Unit {0}) → ℕ → List ℕ → Transfer → Transfer
write_unchecked (ok u) kind body t = record t { written = (kind, body) ∷ t.written }
write_unchecked (err e) kind body t = t

-- What the check of the peer's confirmation comes to.
unfoldable pub check_confirm : Side → Result Text (ℕ × List ℕ) → Result Text (Unit {0})
unfolding verify_confirmation_tag
check_confirm side (err e) = err e
check_confirm side (ok (kind, [])) =
    if not (kind == msg_sas_confirm)
    then err (codes "Expected MSG_SAS_CONFIRM from peer")
    else err (codes "Peer rejected verification code")
check_confirm side (ok (kind, first ∷ tag)) =
    if not (kind == msg_sas_confirm)
    then err (codes "Expected MSG_SAS_CONFIRM from peer")
    else if not (length tag == 32) || not (first == 1)
    then err (codes "Peer rejected verification code")
    else if not (verify_confirmation_tag side (peer_tag_info side) tag)
    then err (
        codes
          "The codes do not match. Compare all three groups. If the other device shows only two, update it and try again.")
    else ok tt

-- The sender's part up to the acknowledgement.
unfoldable pub send_payload : Side → Result Text (Unit {0}) → Transfer → Transfer
unfolding fail
send_payload side io t = elim side.create_export_payload [
  | err e ↦ fail e t
  | ok export_bytes ↦
      let cleared = record t { options_cleared = true } in
      elim (side.encrypt_payload export_bytes) [
        | err e ↦ fail e cleared
        | ok encrypted ↦ elim io [
          | err e ↦ fail e cleared
          | ok u ↦ record cleared {
            phase = awaiting_ack;
            written = (msg_encrypted_payload, encrypted) ∷ t.written;
          }
        ]
      ]
]

-- What follows when the user and the peer have both confirmed.
unfoldable pub after_confirmation : Side → Result Text (Unit {0}) → Transfer → Transfer
unfolding send_payload
after_confirmation side io t =
    let begun = record t { events = transferring ∷ t.events } in
    elim side.is_sender [
      | true ↦ send_payload side io begun
      | false ↦ record begun { phase = awaiting_payload }
    ]

-- The phase with what is confirmed by now.
unfoldable pub confirm_phase : Side → Result Text (Unit {0}) → Bool → Bool → Transfer → Transfer
unfolding after_confirmation
confirm_phase side io true true t = after_confirmation side io t
confirm_phase side io mine theirs t = record t { phase = confirming mine theirs }

unfoldable pub u16_bytes : ℕ → List ℕ
u16_bytes n = n / 256 % 256 ∷ (n % 256) ∷ []

unfoldable pub ack_body : SyncSummary → List ℕ
unfolding u16_bytes
ack_body summary =
    u16_bytes summary.added ++ (u16_bytes summary.updated ++ u16_bytes summary.skipped)

unfoldable pub read_ack : Result Text (ℕ × List ℕ) → Result Text SyncSummary
read_ack (err e) = err e
read_ack (ok (kind, a ∷ b ∷ c ∷ d ∷ e ∷ f ∷ [])) =
    if not (kind == msg_ack)
    then err (codes "Expected MSG_ACK")
    else ok (record {
      added = a * 256 + b;
      updated = c * 256 + d;
      skipped = e * 256 + f;
      warnings = [];
    })
read_ack (ok (kind, other)) =
    if not (kind == msg_ack)
    then err (codes "Expected MSG_ACK")
    else err (codes "Invalid ACK payload length")

unfoldable pub finish : SyncSummary → Transfer → Transfer
finish summary t = record t { phase = finished; events = completed summary ∷ t.events }
