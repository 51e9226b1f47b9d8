-- ===== src/Protocol.antt =====
-- src-tauri/src/pairing/protocol.rs: the frames on the wire between two devices, with their budgets.
-- A byte is a number below 256, a stream to read the bytes that are still to come, and a stream to
-- write the bytes it has taken and how many it still takes before it fails.
pub mod Frames
use ai_usage_tracker.Prelude.{
  ℕ, suc, ◌+◌, ◌-◌, ◌*◌, ◌/◌, ◌%◌, ◌<◌, ◌≤◌, ◌≡◌, refl, ap, sym, ◌∙◌, true, false, Bool, ◌||◌, List,
  [], ◌∷◌, ◌++◌, ltb, leb, ◌==◌, if◌then◌else◌, length, take, drop, All, Result, ok, err, ◌>>=◌,
  is_ok, arith, inl, inr, Bool-cases, Result-cases, length-take, length-drop,
}

abbrev pub max_frame_size : ℕ
max_frame_size = 16_777_216

abbrev pub max_preauth_frame_size : ℕ
max_preauth_frame_size = 1024

abbrev pub max_control_frame_size : ℕ
max_control_frame_size = 1024

abbrev pub msg_sas_confirm : ℕ
msg_sas_confirm = 0x03

abbrev pub msg_encrypted_payload : ℕ
msg_encrypted_payload = 0x04

abbrev pub msg_ack : ℕ
msg_ack = 0x05

abbrev pub msg_abort : ℕ
msg_abort = 0xFF

pub data FrameError : Type 0 where
  length_prefix zero_length message_type payload_read write_failed : FrameError
  too_long : ℕ → ℕ → FrameError
  outgoing_too_long : ℕ → FrameError

unfoldable pub to_be_bytes : ℕ → List ℕ
to_be_bytes n = n / 16777216 % 256 ∷ (n / 65536 % 256) ∷ (n / 256 % 256) ∷ (n % 256) ∷ []

unfoldable pub from_be_bytes : ℕ → List ℕ → ℕ
from_be_bytes acc [] = acc
from_be_bytes acc (b ∷ bs) = from_be_bytes (acc * 256 + b) bs

-- `read_exact`: so many bytes, or the stream ends.
unfoldable pub read_exact : FrameError → ℕ → List ℕ → Result FrameError (List ℕ × List ℕ)
read_exact e n stream = if leb n (length stream) then ok (take n stream, drop n stream) else err e

abbrev first_byte : List ℕ → ℕ
first_byte [] = 0
first_byte (b ∷ bs) = b

-- The type and the payload of a frame, and what is left of the stream.
unfoldable pub read_frame_limited : ℕ → List ℕ → Result FrameError ((ℕ × List ℕ) × List ℕ)
unfolding read_exact from_be_bytes
read_frame_limited max stream = read_exact length_prefix 4 stream >>= λ prefix.
    let frame_len = from_be_bytes 0 prefix.0 in
    if ltb frame_len 1
    then err zero_length
    else if ltb max frame_len
    then err (too_long frame_len max)
    else read_exact message_type 1 prefix.1 >>= λ kind.
        read_exact payload_read (frame_len - 1) kind.1 >>= λ payload.
        ok ((first_byte kind.0, payload.0), payload.1)

pub record Writer : Type 0 where
  pub taken : List ℕ
  pub left : ℕ

unfoldable pub write_all : List ℕ → Writer → Writer × Result FrameError (Unit {0})
write_all bytes w =
    if leb (length bytes) w.left
    then (record { taken = w.taken ++ bytes; left = w.left - length bytes }, ok tt)
    else (record { taken = w.taken ++ take w.left bytes; left = 0 }, err write_failed)

abbrev then_write :
    List ℕ → Writer × Result FrameError (Unit {0}) → Writer × Result FrameError (Unit {0})
then_write bytes (w, ok u) = write_all bytes w
then_write bytes (w, err e) = (w, err e)

unfoldable pub write_frame : ℕ → List ℕ → Writer → Writer × Result FrameError (Unit {0})
unfolding write_all to_be_bytes
write_frame msg_type payload w =
    let frame_len = 1 + length payload in
    if ltb max_frame_size frame_len
    then (w, err (outgoing_too_long frame_len))
    else then_write payload (then_write (msg_type ∷ []) (write_all (to_be_bytes frame_len) w))
