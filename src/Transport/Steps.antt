-- ===== src/Transport/Steps.antt =====
-- src-tauri/src/pairing/transport.rs, run_authenticated_transfer: the step on each happening. Once
-- the user has confirmed, the channel for cancellations is no longer read.
use ai_usage_tracker.Prelude.{
  ℕ, Bool, true, false, not, Option, none, some, List, [], ◌∷◌, ◌==◌, if◌then◌else◌, Text, codes,
  Result, ok, err,
}
use ai_usage_tracker.Protocol.{msg_sas_confirm, msg_encrypted_payload, msg_ack, msg_abort}
use ai_usage_tracker.Transport.{
  Side, Phase, confirming, awaiting_ack, awaiting_payload, Transfer, Happening, cancels, answers,
  receives, times_out, compute_confirmation_tag, my_tag_info, fail, write_unchecked, check_confirm,
  confirm_phase, ack_body, read_ack, finish,
}

module _ (side : Side) where
  -- The user's answer, where none was given before.
  unfoldable pub on_answer :
      Result Text (Unit {0}) → Result Text (Unit {0}) → Option Bool → Bool → Transfer → Transfer
  unfolding fail write_unchecked confirm_phase compute_confirmation_tag
  on_answer io next (some true) theirs t = elim io [
    | err e ↦ fail e t
    | ok u ↦ confirm_phase side next true theirs (record t {
      written =
          (msg_sas_confirm, 0x01 ∷ compute_confirmation_tag side (my_tag_info side)) ∷ t.written;
    })
  ]
  on_answer io next (some false) theirs t =
      fail (codes "User rejected verification code") (write_unchecked io msg_abort (0x09 ∷ []) t)
  on_answer io next none theirs t =
      fail (codes "User rejected verification code") (write_unchecked io msg_abort (0x09 ∷ []) t)

  unfoldable pub on_peer :
      Result Text (Unit {0}) → Result Text (ℕ × List ℕ) → Bool → Transfer → Transfer
  unfolding fail check_confirm confirm_phase
  on_peer io frame mine t = elim (check_confirm side frame) [
    | err e ↦ fail e t
    | ok u ↦ confirm_phase side io mine true t
  ]

  unfoldable pub on_ack : Result Text (ℕ × List ℕ) → Transfer → Transfer
  unfolding read_ack fail finish
  on_ack frame t = elim (read_ack frame) [ err e ↦ fail e t | ok summary ↦ finish summary t ]

  unfoldable pub received_payload : Result Text (ℕ × List ℕ) → Result Text (List ℕ)
  received_payload (err e) = err e
  received_payload (ok (kind, payload)) =
      if not (kind == msg_encrypted_payload)
      then err (codes "Expected MSG_ENCRYPTED_PAYLOAD")
      else side.decrypt_payload payload

  unfoldable pub on_payload :
      Result Text (Unit {0}) → Result Text (ℕ × List ℕ) → Transfer → Transfer
  unfolding received_payload fail write_unchecked finish ack_body
  on_payload io frame t = elim (received_payload frame) [
    | err e ↦ fail e (write_unchecked io msg_abort (0x0A ∷ []) t)
    | ok bytes ↦
        let handed = record t { imported = bytes ∷ t.imported } in
        elim (side.import_sync_payload bytes) [
          | err e ↦ fail e (write_unchecked io msg_abort (0x0C ∷ []) handed)
          | ok summary ↦ finish summary (write_unchecked io msg_ack (ack_body summary) handed)
        ]
  ]

  -- `io` is the outcome of the first write of the step, `next` of the one after it.
  unfoldable pub step_in :
      Phase → Happening → Result Text (Unit {0}) → Result Text (Unit {0}) → Transfer → Transfer
  unfolding on_answer on_peer on_ack on_payload
  step_in (confirming false theirs) cancels io next t =
      fail (codes "Canceled by user") (write_unchecked io msg_abort (0x08 ∷ []) t)
  step_in (confirming false theirs) (answers answer) io next t = on_answer io next answer theirs t
  step_in (confirming mine false) (receives frame) io next t = on_peer io frame mine t
  step_in (confirming mine theirs) times_out io next t =
      fail (codes "Confirmation exchange timed out") t
  step_in awaiting_ack (receives frame) io next t = on_ack frame t
  step_in awaiting_ack times_out io next t = fail (codes "Timed out waiting for transfer ACK") t
  step_in awaiting_payload (receives frame) io next t = on_payload io frame t
  step_in awaiting_payload times_out io next t =
      fail (codes "Payload reception timed out") (write_unchecked io msg_abort (0x0B ∷ []) t)
  step_in other what io next t = t

  unfoldable pub step :
      Happening → Result Text (Unit {0}) → Result Text (Unit {0}) → Transfer → Transfer
  unfolding step_in
  step what io next t = step_in t.phase what io next t

  unfoldable pub run :
      List (Happening × Result Text (Unit {0}) × Result Text (Unit {0})) → Transfer → Transfer
  unfolding step
  run [] t = t
  run ((what, io, next) ∷ rest) t = run rest (step what io next t)
