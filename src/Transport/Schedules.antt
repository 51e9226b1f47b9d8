-- ===== src/Transport/Schedules.antt =====
-- src-tauri/src/pairing/transport.rs: a transfer between two devices that both confirm, whatever the
-- order in which the users answer and the frames arrive.
use ai_usage_tracker.Prelude.{
  ℕ, ◌+◌, ◌<◌, ◌≡◌, refl, ap, ◌∙◌, Bool, true, false, not, ◌==◌, Option, none, some, List, [], ◌∷◌,
  ◌++◌, length, ok, if◌then◌else◌,
}
use ai_usage_tracker.Pairing.{SyncSummary}
use ai_usage_tracker.Transport.{
  Side, Phase, confirming, awaiting_ack, awaiting_payload, finished, Transfer, transferring,
  completed, answers, receives, initial, ack_body,
}
use ai_usage_tracker.Transport.Steps.{step, step_in}
use ai_usage_tracker.Transport.Agreement.{
  Facts, done, waiting, heard, proof_of, agreed, handed, awaiting, sent, ready, sent_late,
  ready_late, heard_sender, heard_receiver, payload_step, ack_step, read_ack-ack_body,
}

-- What happens next: a user confirms, or a device reads the next frame of the other.
pub data Turn : Type 0 where
  sender_confirms receiver_confirms sender_reads receiver_reads : Turn

-- The two devices, and how many frames of the other each has read.
pub record Exchange : Type 0 where
  pub sender : Transfer
  pub receiver : Transfer
  pub read_by_sender : ℕ
  pub read_by_receiver : ℕ

-- Does the device read from the stream? After the peer's confirmation it waits for its own user.
abbrev pub is_reading : Phase → Bool
is_reading (confirming mine theirs) = not theirs
is_reading awaiting_ack = true
is_reading awaiting_payload = true
is_reading finished = false

-- The frame with this many older ones, among those written, the last first.
abbrev pub frame_at : ℕ → List (ℕ × List ℕ) → Option (ℕ × List ℕ)
frame_at n [] = none
frame_at n (frame ∷ older) = if length older == n then some frame else frame_at n older

module _ (sender receiver : Side) where
  unfoldable pub turn : Turn → Exchange → Exchange
  turn sender_confirms x = record x {
    sender = step sender (answers (some true)) done done x.sender;
  }
  turn receiver_confirms x = record x {
    receiver = step receiver (answers (some true)) done done x.receiver;
  }
  turn sender_reads x = elim (is_reading x.sender.phase) [
    | false ↦ x
    | true ↦ elim (frame_at x.read_by_sender x.receiver.written) [
      | none ↦ x
      | some frame ↦ record x {
        sender = step sender (receives (ok frame)) done done x.sender;
        read_by_sender = x.read_by_sender + 1;
      }
    ]
  ]
  turn receiver_reads x = elim (is_reading x.receiver.phase) [
    | false ↦ x
    | true ↦ elim (frame_at x.read_by_receiver x.sender.written) [
      | none ↦ x
      | some frame ↦ record x {
        receiver = step receiver (receives (ok frame)) done done x.receiver;
        read_by_receiver = x.read_by_receiver + 1;
      }
    ]
  ]

  unfoldable pub turns : List Turn → Exchange → Exchange
  turns [] x = x
  turns (t ∷ rest) x = turns rest (turn t x)

-- Both users have answered, and each device reads what is there.
abbrev pub closing : List Turn
closing =
    sender_confirms ∷ receiver_confirms ∷ sender_reads ∷ receiver_reads ∷ receiver_reads
    ∷ sender_reads ∷ []

abbrev pub opening : Exchange
opening = record { sender = initial; receiver = initial; read_by_sender = 0; read_by_receiver = 0 }

-- How far an exchange has come. Named by who has confirmed, and who has read the confirmation.
data Stage : Type 0 where
  start s s_r r r_s both both_s both_r all stored over : Stage

abbrev next : Turn → Stage → Stage
next sender_confirms start = s
next sender_confirms r = both
next sender_confirms r_s = both_s
next sender_confirms other = other
next receiver_confirms start = r
next receiver_confirms s = both
next receiver_confirms s_r = both_r
next receiver_confirms other = other
next sender_reads r = r_s
next sender_reads both = both_s
next sender_reads both_r = all
next sender_reads stored = over
next sender_reads other = other
next receiver_reads s = s_r
next receiver_reads both = both_r
next receiver_reads both_s = all
next receiver_reads all = stored
next receiver_reads other = other

abbrev next_all : List Turn → Stage → Stage
next_all [] stage = stage
next_all (t ∷ ts) stage = next_all ts (next t stage)

closing-over : (h : List Turn) (stage : Stage) → next_all (h ++ closing) stage ≡ over
closing-over [] start = refl
closing-over [] s = refl
closing-over [] s_r = refl
closing-over [] r = refl
closing-over [] r_s = refl
closing-over [] both = refl
closing-over [] both_s = refl
closing-over [] both_r = refl
closing-over [] all = refl
closing-over [] stored = refl
closing-over [] over = refl
closing-over (t ∷ h) stage = closing-over h (next t stage)

abbrev finished_sender : Side → List ℕ → SyncSummary → Transfer
finished_sender sender ciphertext summary = record {
  phase = finished;
  written = (4, ciphertext) ∷ proof_of sender ∷ [];
  events = completed (record summary { warnings = [] }) ∷ transferring ∷ [];
  options_cleared = true;
  imported = [];
}

abbrev finished_receiver : Side → List ℕ → SyncSummary → Transfer
finished_receiver receiver payload summary = record {
  phase = finished;
  written = (5, ack_body summary) ∷ proof_of receiver ∷ [];
  events = completed summary ∷ transferring ∷ [];
  options_cleared = false;
  imported = payload ∷ [];
}

abbrev pair : Transfer → Transfer → ℕ → ℕ → Exchange
pair a b n m = record { sender = a; receiver = b; read_by_sender = n; read_by_receiver = m }

module _ {sender receiver : Side} {payload ciphertext : List ℕ} {summary : SyncSummary}
    (c : Facts sender receiver payload ciphertext summary) where
  abbrev at : Stage → Exchange
  at start = opening
  at s = pair (waiting sender) initial 0 0
  at s_r = pair (waiting sender) heard 0 1
  at r = pair initial (waiting receiver) 0 0
  at r_s = pair heard (waiting receiver) 1 0
  at both = pair (waiting sender) (waiting receiver) 0 0
  at both_s = pair (handed sender ciphertext) (waiting receiver) 1 0
  at both_r = pair (waiting sender) (awaiting receiver) 0 1
  at all = pair (handed sender ciphertext) (awaiting receiver) 1 1
  at stored = pair (handed sender ciphertext) (finished_receiver receiver payload summary) 1 2
  at over =
      pair (finished_sender sender ciphertext summary) (finished_receiver receiver payload summary)
        2 2

  sender_confirms-at :
      (stage : Stage)
      → turn sender receiver sender_confirms (at stage) ≡ at (next sender_confirms stage)
  unfolding turn step step_in
  sender_confirms-at start = ap (λ t. pair t initial 0 0) (agreed sender)
  sender_confirms-at r = ap (λ t. pair t (waiting receiver) 0 0) (agreed sender)
  sender_confirms-at r_s = ap (λ t. pair t (waiting receiver) 1 0) (sent_late c)
  sender_confirms-at other = refl

  receiver_confirms-at :
      (stage : Stage)
      → turn sender receiver receiver_confirms (at stage) ≡ at (next receiver_confirms stage)
  unfolding turn step step_in
  receiver_confirms-at start = ap (λ t. pair initial t 0 0) (agreed receiver)
  receiver_confirms-at s = ap (λ t. pair (waiting sender) t 0 0) (agreed receiver)
  receiver_confirms-at s_r = ap (λ t. pair (waiting sender) t 0 1) (ready_late c)
  receiver_confirms-at other = refl

  sender_reads-at :
      summary.added < 65_536
      → summary.updated < 65_536
      → summary.skipped < 65_536
      → (stage : Stage)
      → turn sender receiver sender_reads (at stage) ≡ at (next sender_reads stage)
  unfolding turn initial
  sender_reads-at a u k r = ap (λ t. pair t (waiting receiver) 1 0) (heard_sender c)
  sender_reads-at a u k both = ap (λ t. pair t (waiting receiver) 1 0) (sent c)
  sender_reads-at a u k both_r = ap (λ t. pair t (awaiting receiver) 1 1) (sent c)
  sender_reads-at a u k stored =
      ap (λ t. pair t (finished_receiver receiver payload summary) 2 2)
        (ack_step sender (ok (5, ack_body summary)) (record summary { warnings = [] })
          (handed sender ciphertext) refl (read_ack-ack_body summary a u k))
  sender_reads-at a u k other = refl

  receiver_reads-at :
      (stage : Stage)
      → turn sender receiver receiver_reads (at stage) ≡ at (next receiver_reads stage)
  unfolding turn initial
  receiver_reads-at s = ap (λ t. pair (waiting sender) t 0 1) (heard_receiver c)
  receiver_reads-at both = ap (λ t. pair (waiting sender) t 0 1) (ready c)
  receiver_reads-at both_s = ap (λ t. pair (handed sender ciphertext) t 1 1) (ready c)
  receiver_reads-at all =
      ap (λ t. pair (handed sender ciphertext) t 1 2)
        (payload_step receiver ciphertext payload summary (awaiting receiver) refl c.opened c.taken)
  receiver_reads-at other = refl

  turn-at :
      summary.added < 65_536
      → summary.updated < 65_536
      → summary.skipped < 65_536
      → (t : Turn) (stage : Stage) → turn sender receiver t (at stage) ≡ at (next t stage)
  turn-at a u k sender_confirms stage = sender_confirms-at stage
  turn-at a u k receiver_confirms stage = receiver_confirms-at stage
  turn-at a u k sender_reads stage = sender_reads-at a u k stage
  turn-at a u k receiver_reads stage = receiver_reads-at stage

  turns-at :
      summary.added < 65_536
      → summary.updated < 65_536
      → summary.skipped < 65_536
      → (h : List Turn) (stage : Stage) → turns sender receiver h (at stage) ≡ at (next_all h stage)
  unfolding turns
  turns-at a u k [] stage = refl
  turns-at a u k (t ∷ h) stage =
      ap (turns sender receiver h) (turn-at a u k t stage) ∙ turns-at a u k h (next t stage)

-- Two devices, one sender and one receiver, that share key, code and digest both finish once, after
-- any turns whatever, both users have confirmed and each device reads what is there: whoever
-- confirms first, and whether a frame comes in before the user's answer or after it. The receiver
-- imports what the sender exported, once, and the sender shows the receiver's counts, which are below
-- 65,536, without the warnings. Every write is done, the digest has 32 bytes, the receiver's cipher
-- opens what the sender's sealed, and export and import succeed.
pub exchange_completes :
    (sender receiver : Side) (payload ciphertext : List ℕ) (summary : SyncSummary) (h : List Turn)
    → sender.is_sender ≡ true
    → receiver.is_sender ≡ false
    → sender.sha256 ≡ receiver.sha256
    → sender.encryption_key ≡ receiver.encryption_key
    → sender.sas_code ≡ receiver.sas_code
    → ((xs : List ℕ) → length (sender.sha256 xs) ≡ 32)
    → sender.create_export_payload ≡ ok payload
    → sender.encrypt_payload payload ≡ ok ciphertext
    → receiver.decrypt_payload ciphertext ≡ ok payload
    → receiver.import_sync_payload payload ≡ ok summary
    → summary.added < 65_536
    → summary.updated < 65_536
    → summary.skipped < 65_536
    → turns sender receiver (h ++ closing) opening ≡ record {
      sender = record {
        phase = finished;
        written = (4, ciphertext) ∷ proof_of sender ∷ [];
        events = completed (record summary { warnings = [] }) ∷ transferring ∷ [];
        options_cleared = true;
        imported = [];
      };
      receiver = record {
        phase = finished;
        written = (5, ack_body summary) ∷ proof_of receiver ∷ [];
        events = completed summary ∷ transferring ∷ [];
        options_cleared = false;
        imported = payload ∷ [];
      };
      read_by_sender = 2;
      read_by_receiver = 2;
    }
exchange_completes sender receiver payload ciphertext summary h st rt d key code size e c o i a u
      k =
    let facts : Facts sender receiver payload ciphertext summary = record {
      sends_ = st;
      takes_ = rt;
      same_digest = d;
      same_key = key;
      same_code = code;
      digest_length = size;
      exported = e;
      sealed = c;
      opened = o;
      taken = i;
    } in
    turns-at facts a u k (h ++ closing) start ∙ ap (at facts) (closing-over h start)
