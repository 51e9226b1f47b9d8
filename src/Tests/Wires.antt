-- ===== src/Tests/Wires.antt =====
-- The frames between two devices, and a transfer that both confirm.
use ai_usage_tracker.Prelude.{
  ℕ, ◌+◌, ◌<◌, ◌≤◌, ◌≡◌, refl, Bool, true, false, Option, none, some, List, [], ◌∷◌, ◌++◌, Text,
  codes, Result, ok, err, is_ok, arith, length, ltb,
}
use ai_usage_tracker.Pairing.{SyncSummary}
use ai_usage_tracker.Protocol.{Writer, write_frame, read_frame_limited}
use ai_usage_tracker.Protocol.Frames.{
  frame_of, read_frame_limited-write_frame, read_frame_limited-bounded,
}
use ai_usage_tracker.Transport.{
  Side, Happening, answers, receives, cancels, initial, ack_body, completed, transferring, finished,
  check_confirm,
}
use ai_usage_tracker.Transport.Steps.{run}
use ai_usage_tracker.Transport.Secrecy.{
  has_payload, has_moved, said_yes, peer_proved, payload_needs_both,
}
use ai_usage_tracker.Transport.Agreement.{proof_of}
use ai_usage_tracker.Transport.Schedules.{
  Turn, sender_confirms, receiver_confirms, sender_reads, receiver_reads, turns, closing, opening,
  exchange_completes,
}

abbrev empty_wire : Writer
empty_wire = record { taken = []; left = 4096 }

abbrev short_payload : List ℕ
short_payload = 7 ∷ 8 ∷ 9 ∷ []

short_write : is_ok (write_frame 5 short_payload empty_wire).1 ≡ true
unfolding write_frame
short_write = refl

read_frame_limited-write_frame_example :
    ((write_frame 5 short_payload empty_wire).0.taken ≡ [] ++ frame_of 5 short_payload)
    × (read_frame_limited 1024 (frame_of 5 short_payload ++ 1 ∷ 2 ∷ [])
        ≡ ok ((5, short_payload), 1 ∷ 2 ∷ []))
read_frame_limited-write_frame_example =
    read_frame_limited-write_frame 5 1024 short_payload (1 ∷ 2 ∷ []) empty_wire short_write
      (omega arith)

abbrev wire : List ℕ
wire = 0 ∷ 0 ∷ 0 ∷ 3 ∷ 5 ∷ 7 ∷ 8 ∷ 9 ∷ []

wire_read : read_frame_limited 3 wire ≡ ok ((5, 7 ∷ 8 ∷ []), 9 ∷ [])
unfolding read_frame_limited
wire_read = refl

read_frame_limited-bounded_example : 2 < 3
read_frame_limited-bounded_example =
    read_frame_limited-bounded 3 wire (9 ∷ []) 5 (7 ∷ 8 ∷ []) wire_read

-- A digest of 32 bytes, the first of which tells texts of different lengths apart.
abbrev length_digest : List ℕ → List ℕ
length_digest xs =
    length xs
    ∷ 0
    ∷ 0
    ∷ 0
    ∷ 0
    ∷ 0
    ∷ 0
    ∷ 0
    ∷ 0
    ∷ 0
    ∷ 0
    ∷ 0
    ∷ 0
    ∷ 0
    ∷ 0
    ∷ 0
    ∷ 0
    ∷ 0
    ∷ 0
    ∷ 0
    ∷ 0
    ∷ 0
    ∷ 0
    ∷ 0
    ∷ 0
    ∷ 0
    ∷ 0
    ∷ 0
    ∷ 0
    ∷ 0
    ∷ 0
    ∷ 0
    ∷ []

abbrev counts : SyncSummary
counts = record { added = 2; updated = 1; skipped = 300; warnings = codes "note" ∷ [] }

abbrev one_side : Bool → Side
one_side sends = record {
  is_sender = sends;
  encryption_key = 1 ∷ 2 ∷ 3 ∷ [];
  sas_code = codes "4F2A-8B91-C3D2";
  sha256 = length_digest;
  create_export_payload = ok (10 ∷ 20 ∷ []);
  encrypt_payload = λ bytes. ok (99 ∷ bytes);
  decrypt_payload = λ bytes. ok (10 ∷ 20 ∷ []);
  import_sync_payload = λ bytes. ok counts;
}

-- The sender reads the receiver's confirmation before its own user confirms.
abbrev receiver_first : List Turn
receiver_first = receiver_confirms ∷ sender_reads ∷ receiver_reads ∷ sender_confirms ∷ []

exchange_completes_example :
    turns (one_side true) (one_side false) (receiver_first ++ closing) opening ≡ record {
      sender = record {
        phase = finished;
        written = (4, 99 ∷ 10 ∷ 20 ∷ []) ∷ proof_of (one_side true) ∷ [];
        events = completed (record counts { warnings = [] }) ∷ transferring ∷ [];
        options_cleared = true;
        imported = [];
      };
      receiver = record {
        phase = finished;
        written = (5, ack_body counts) ∷ proof_of (one_side false) ∷ [];
        events = completed counts ∷ transferring ∷ [];
        options_cleared = false;
        imported = (10 ∷ 20 ∷ []) ∷ [];
      };
      read_by_sender = 2;
      read_by_receiver = 2;
    }
exchange_completes_example =
    exchange_completes (one_side true) (one_side false) (10 ∷ 20 ∷ []) (99 ∷ 10 ∷ 20 ∷ []) counts
      receiver_first refl refl refl refl refl (λ xs. refl) refl refl refl refl (omega arith)
      (omega arith) (omega arith)

abbrev confirmed_late : List (Happening × Result Text (Unit {0}) × Result Text (Unit {0}))
confirmed_late =
    (answers (some true), ok tt, ok tt)
    ∷ (cancels, ok tt, ok tt)
    ∷ (receives (ok (proof_of (one_side false))), ok tt, ok tt)
    ∷ []

confirmed_late-moves : has_moved (run (one_side true) confirmed_late initial) ≡ true
unfolding run initial has_payload check_confirm ai_usage_tracker.Prelude.as_bytes
confirmed_late-moves = refl

payload_needs_both_example :
    (said_yes confirmed_late ≡ true) × (peer_proved (one_side true) confirmed_late ≡ true)
payload_needs_both_example = payload_needs_both (one_side true) confirmed_late confirmed_late-moves
