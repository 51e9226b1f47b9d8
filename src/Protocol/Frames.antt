-- ===== src/Protocol/Frames.antt =====
-- src-tauri/src/pairing/protocol.rs: a frame that is written and read.
use ai_usage_tracker.Prelude.{
  is_ok, ℕ, ◌+◌, ◌-◌, ◌<◌, ◌≤◌, ◌≡◌, refl, ap, true, List, [], ◌∷◌, ◌++◌, length, take, drop, ok,
  arith, length-take, length-append,
}
use ai_usage_tracker.Protocol.{
  FrameError, Writer, to_be_bytes, from_be_bytes, read_exact, read_frame_limited, write_all,
  write_frame, length_prefix, message_type, payload_read,
}

-- The bytes of a frame.
unfoldable pub frame_of : ℕ → List ℕ → List ℕ
unfolding to_be_bytes
frame_of msg_type payload = to_be_bytes (1 + length payload) ++ msg_type ∷ payload

take-all-append : (xs ys : List ℕ) → take (length xs) (xs ++ ys) ≡ xs
take-all-append [] ys = refl
take-all-append (x ∷ xs) ys = ap (◌∷◌ x) (take-all-append xs ys)

drop-all-append : (xs ys : List ℕ) → drop (length xs) (xs ++ ys) ≡ ys
drop-all-append [] ys = refl
drop-all-append (x ∷ xs) ys = drop-all-append xs ys

read_exact-append :
    (e : FrameError) (n : ℕ) (xs ys : List ℕ)
    → length xs ≡ n
    → read_exact e n (xs ++ ys) ≡ ok (xs, ys)
unfolding read_exact
read_exact-append e n xs ys h = ground (
  arith,
  h,
  length-append xs ys,
  ap (λ m. take m (xs ++ ys)) h,
  ap (λ m. drop m (xs ++ ys)) h,
  take-all-append xs ys,
  drop-all-append xs ys,
)

from-to_be_bytes : (n : ℕ) → n < 4_294_967_296 → from_be_bytes 0 (to_be_bytes n) ≡ n
unfolding from_be_bytes to_be_bytes
from-to_be_bytes n h = omega arith

length-to_be_bytes : (n : ℕ) → length (to_be_bytes n) ≡ 4
unfolding to_be_bytes
length-to_be_bytes n = refl

append_assoc : (xs ys zs : List ℕ) → (xs ++ ys) ++ zs ≡ xs ++ (ys ++ zs)
append_assoc [] ys zs = refl
append_assoc (x ∷ xs) ys zs = ap (◌∷◌ x) (append_assoc xs ys zs)

read_steps :
    (max : ℕ) (stream prefix after_prefix : List ℕ) (msg_type : ℕ)
    (after_type payload rest : List ℕ)
    → read_exact length_prefix 4 stream ≡ ok (prefix, after_prefix)
    → 1 ≤ from_be_bytes 0 prefix
    → from_be_bytes 0 prefix ≤ max
    → read_exact message_type 1 after_prefix ≡ ok (msg_type ∷ [], after_type)
    → read_exact payload_read (from_be_bytes 0 prefix - 1) after_type ≡ ok (payload, rest)
    → read_frame_limited max stream ≡ ok ((msg_type, payload), rest)
unfolding read_frame_limited
read_steps max stream prefix after_prefix msg_type after_type payload rest a low high b c =
    ground (arith, a, low, high, b, c)

read_frame :
    (max msg_type : ℕ) (payload rest : List ℕ)
    → 1 + length payload ≤ max
    → 1 + length payload < 4_294_967_296
    → read_frame_limited max (frame_of msg_type payload ++ rest) ≡ ok ((msg_type, payload), rest)
unfolding frame_of
read_frame max msg_type payload rest h k =
    let number = from-to_be_bytes (1 + length payload) k in
    let prefix =
      read_exact-append length_prefix 4 (to_be_bytes (1 + length payload))
        (msg_type ∷ payload ++ rest) (length-to_be_bytes (1 + length payload)) in
    let kind = read_exact-append message_type 1 (msg_type ∷ []) (payload ++ rest) refl in
    let body = read_exact-append payload_read (1 + length payload - 1) payload rest (omega arith) in
    read_steps max _ _ _ msg_type _ payload rest prefix (rw number (omega arith)) (rw number h) kind
      (rw number body)

write_all-taken :
    (bytes : List ℕ) (w : Writer)
    → is_ok (write_all bytes w).1 ≡ true
    → (write_all bytes w).0.taken ≡ w.taken ++ bytes
unfolding write_all
write_all-taken bytes w h = ground (arith, h)

written :
    (msg_type : ℕ) (payload : List ℕ) (w : Writer)
    → is_ok (write_frame msg_type payload w).1 ≡ true
    → ((write_frame msg_type payload w).0.taken ≡ w.taken ++ frame_of msg_type payload)
      × (1 + length payload ≤ 16_777_216)
unfolding write_frame frame_of write_all
written msg_type payload w h = ground (
  arith,
  h,
  append_assoc w.taken (to_be_bytes (1 + length payload)) (msg_type ∷ []),
  append_assoc w.taken (to_be_bytes (1 + length payload) ++ msg_type ∷ []) payload,
)

-- A frame whose write succeeds adds its bytes to the stream, and a reader whose budget it fits
-- reads its type and payload back from them and leaves what follows.
pub read_frame_limited-write_frame :
    (msg_type max : ℕ) (payload rest : List ℕ) (w : Writer)
    → is_ok (write_frame msg_type payload w).1 ≡ true
    → 1 + length payload ≤ max
    → ((write_frame msg_type payload w).0.taken ≡ w.taken ++ frame_of msg_type payload)
      × (read_frame_limited max (frame_of msg_type payload ++ rest)
          ≡ ok ((msg_type, payload), rest))
read_frame_limited-write_frame msg_type max payload rest w h fits =
    let sent = written msg_type payload w h in
    (sent.0, read_frame max msg_type payload rest fits (omega (arith, sent.1)))

-- Whatever bytes a peer sends, the payload of a frame that is read is shorter than the budget.
pub read_frame_limited-bounded :
    (max : ℕ) (stream rest : List ℕ) (msg_type : ℕ) (payload : List ℕ)
    → read_frame_limited max stream ≡ ok ((msg_type, payload), rest)
    → length payload < max
unfolding read_frame_limited read_exact
read_frame_limited-bounded max stream rest msg_type payload h =
    ground (arith, h, length-take (from_be_bytes 0 (take 4 stream) - 1) (drop 1 (drop 4 stream)))
