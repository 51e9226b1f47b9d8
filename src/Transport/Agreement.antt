-- ===== src/Transport/Agreement.antt =====
-- src-tauri/src/pairing/transport.rs: the steps of two devices that both confirm, each given the
-- frames that the other writes.
use ai_usage_tracker.Prelude.{
  ℕ, ◌+◌, ◌*◌, ◌/◌, ◌%◌, ◌<◌, ◌≡◌, refl, sym, true, false, some, List, [], ◌∷◌, ◌++◌, Text,
  as_bytes, length, Result, ok, arith,
}
use ai_usage_tracker.Pairing.{SyncSummary}
use ai_usage_tracker.Transport.{
  Side, confirming, awaiting_ack, awaiting_payload, finished, Transfer, transferring, completed,
  answers, receives, initial, compute_confirmation_tag, verify_confirmation_tag, same_bytes,
  my_tag_info, peer_tag_info, finish, check_confirm, confirm_phase, after_confirmation,
  send_payload, write_unchecked, ack_body, u16_bytes, read_ack,
}
use ai_usage_tracker.Transport.Steps.{
  step_in, step, on_answer, on_peer, on_ack, on_payload, received_payload,
}

abbrev pub done : Result Text (Unit {0})
done = ok tt

same_bytes_refl : (xs : List ℕ) → same_bytes xs xs ≡ true
unfolding same_bytes
same_bytes_refl [] = refl
same_bytes_refl (x ∷ xs) = ground (arith, same_bytes_refl xs)

-- The acknowledgement carries the counts, and not the warnings.
pub read_ack-ack_body :
    (summary : SyncSummary)
    → summary.added < 65_536
    → summary.updated < 65_536
    → summary.skipped < 65_536
    → read_ack (ok (5, ack_body summary)) ≡ ok (record summary { warnings = [] })
unfolding read_ack ack_body u16_bytes
read_ack-ack_body summary a u s =
    let two : (n : ℕ) → n < 65_536 → n / 256 % 256 * 256 + n % 256 ≡ n = λ n h. omega arith in
    rw (two summary.added a, two summary.updated u, two summary.skipped s) refl

-- The side's own frame of confirmation.
abbrev pub proof_of : Side → ℕ × List ℕ
proof_of side = (3, 1 ∷ compute_confirmation_tag side (my_tag_info side))

-- A device whose user has not answered, and whose peer has confirmed.
abbrev pub heard : Transfer
heard = record {
  phase = confirming false true;
  written = [];
  events = [];
  options_cleared = false;
  imported = [];
}

abbrev pub waiting : Side → Transfer
waiting side = record {
  phase = confirming true false;
  written = proof_of side ∷ [];
  events = [];
  options_cleared = false;
  imported = [];
}

peer_step :
    (side : Side) (frame : Result Text (ℕ × List ℕ)) (t : Transfer)
    → t.phase ≡ confirming true false
    → check_confirm side frame ≡ ok tt
    → step side (receives frame) done done t ≡ after_confirmation side done t
unfolding step on_peer confirm_phase
peer_step side frame t e pass = rw (e, step_in) (rw (pass, on_peer) refl)

peer_heard :
    (side : Side) (frame : Result Text (ℕ × List ℕ))
    → check_confirm side frame ≡ ok tt
    → step side (receives frame) done done initial ≡ heard
unfolding step step_in on_peer confirm_phase initial
peer_heard side frame pass = rw (pass, on_peer) refl

after_sender :
    (side : Side) (payload ciphertext : List ℕ) (t : Transfer)
    → side.is_sender ≡ true
    → side.create_export_payload ≡ ok payload
    → side.encrypt_payload payload ≡ ok ciphertext
    → after_confirmation side done t ≡ record t {
      phase = awaiting_ack;
      written = (4, ciphertext) ∷ t.written;
      events = transferring ∷ t.events;
      options_cleared = true;
    }
unfolding after_confirmation send_payload
after_sender side payload ciphertext t s e c = ground (arith, s, e, c)

after_receiver :
    (side : Side) (t : Transfer)
    → side.is_sender ≡ false
    → after_confirmation side done t
      ≡ record t { phase = awaiting_payload; events = transferring ∷ t.events }
unfolding after_confirmation
after_receiver side t s = ground (arith, s)

pub payload_step :
    (side : Side) (ciphertext payload : List ℕ) (summary : SyncSummary) (t : Transfer)
    → t.phase ≡ awaiting_payload
    → side.decrypt_payload ciphertext ≡ ok payload
    → side.import_sync_payload payload ≡ ok summary
    → step side (receives (ok (4, ciphertext))) done done t ≡ record t {
      phase = finished;
      written = (5, ack_body summary) ∷ t.written;
      events = completed summary ∷ t.events;
      imported = payload ∷ t.imported;
    }
unfolding step on_payload received_payload write_unchecked finish
payload_step side ciphertext payload summary t e d i = rw (e, step_in) (ground (arith, d, i))

pub ack_step :
    (side : Side) (frame : Result Text (ℕ × List ℕ)) (summary : SyncSummary) (t : Transfer)
    → t.phase ≡ awaiting_ack
    → read_ack frame ≡ ok summary
    → step side (receives frame) done done t
      ≡ record t { phase = finished; events = completed summary ∷ t.events }
unfolding step on_ack finish
ack_step side frame summary t e a = rw (e, step_in) (rw (a, on_ack) refl)

pub agreed : (side : Side) → step side (answers (some true)) done done initial ≡ waiting side
unfolding step on_answer initial confirm_phase
agreed side = refl

-- The peer's confirmation passes where the two have the same key, code and digest.
proved :
    (side peer : Side)
    → peer_tag_info side ≡ my_tag_info peer
    → side.sha256 ≡ peer.sha256
    → side.encryption_key ≡ peer.encryption_key
    → side.sas_code ≡ peer.sas_code
    → length (compute_confirmation_tag peer (my_tag_info peer)) ≡ 32
    → check_confirm side (ok (proof_of peer)) ≡ ok tt
unfolding check_confirm verify_confirmation_tag compute_confirmation_tag
proved side peer info digest key code size =
    let same : compute_confirmation_tag side (peer_tag_info side)
        ≡ compute_confirmation_tag peer (my_tag_info peer) =
      λ i. digest i (info i ++ key i ++ as_bytes (code i)) in
    rw (size, same, same_bytes_refl (compute_confirmation_tag peer (my_tag_info peer))) refl

-- A sender and a receiver that share key, code and digest, of 32 bytes, where the receiver's cipher
-- opens what the sender's sealed, and export and import succeed.
pub record Facts (sender receiver : Side) (payload ciphertext : List ℕ) (summary : SyncSummary)
    : Type 0 where
  pub sends_ : sender.is_sender ≡ true
  pub takes_ : receiver.is_sender ≡ false
  pub same_digest : sender.sha256 ≡ receiver.sha256
  pub same_key : sender.encryption_key ≡ receiver.encryption_key
  pub same_code : sender.sas_code ≡ receiver.sas_code
  pub digest_length : (xs : List ℕ) → length (sender.sha256 xs) ≡ 32
  pub exported : sender.create_export_payload ≡ ok payload
  pub sealed : sender.encrypt_payload payload ≡ ok ciphertext
  pub opened : receiver.decrypt_payload ciphertext ≡ ok payload
  pub taken : receiver.import_sync_payload payload ≡ ok summary

-- The sender that waits for the acknowledgement, and the receiver that waits for the payload.
abbrev pub handed : Side → List ℕ → Transfer
handed sender ciphertext = record {
  phase = awaiting_ack;
  written = (4, ciphertext) ∷ proof_of sender ∷ [];
  events = transferring ∷ [];
  options_cleared = true;
  imported = [];
}

abbrev pub awaiting : Side → Transfer
awaiting receiver = record {
  phase = awaiting_payload;
  written = proof_of receiver ∷ [];
  events = transferring ∷ [];
  options_cleared = false;
  imported = [];
}

module _ {sender receiver : Side} {payload ciphertext : List ℕ} {summary : SyncSummary}
    (c : Facts sender receiver payload ciphertext summary) where
  sender_passes : check_confirm sender (ok (proof_of receiver)) ≡ ok tt
  unfolding compute_confirmation_tag
  sender_passes =
      proved sender receiver (rw (c.sends_, c.takes_) refl) c.same_digest c.same_key c.same_code
        (rw (← c.same_digest) (c.digest_length _))

  receiver_passes : check_confirm receiver (ok (proof_of sender)) ≡ ok tt
  unfolding compute_confirmation_tag
  receiver_passes =
      proved receiver sender (rw (c.sends_, c.takes_) refl) (sym c.same_digest) (sym c.same_key)
        (sym c.same_code) (c.digest_length _)

  pub sent :
      step sender (receives (ok (proof_of receiver))) done done (waiting sender)
      ≡ handed sender ciphertext
  sent =
      rw (peer_step sender (ok (proof_of receiver)) (waiting sender) refl sender_passes)
        (after_sender sender payload ciphertext (waiting sender) c.sends_ c.exported c.sealed)

  pub ready :
      step receiver (receives (ok (proof_of sender))) done done (waiting receiver)
      ≡ awaiting receiver
  ready =
      rw (peer_step receiver (ok (proof_of sender)) (waiting receiver) refl receiver_passes)
        (after_receiver receiver (waiting receiver) c.takes_)

  -- The peer's confirmation came before the user's.
  pub sent_late : step sender (answers (some true)) done done heard ≡ handed sender ciphertext
  unfolding step on_answer confirm_phase
  sent_late = after_sender sender payload ciphertext (waiting sender) c.sends_ c.exported c.sealed

  pub ready_late : step receiver (answers (some true)) done done heard ≡ awaiting receiver
  unfolding step on_answer confirm_phase
  ready_late = after_receiver receiver (waiting receiver) c.takes_

  pub heard_sender : step sender (receives (ok (proof_of receiver))) done done initial ≡ heard
  heard_sender = peer_heard sender (ok (proof_of receiver)) sender_passes

  pub heard_receiver : step receiver (receives (ok (proof_of sender))) done done initial ≡ heard
  heard_receiver = peer_heard receiver (ok (proof_of sender)) receiver_passes
