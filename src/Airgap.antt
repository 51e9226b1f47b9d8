-- ===== src/Airgap.antt =====
-- src-tauri/src/pairing/airgap.rs: a transfer as a sequence of QR codes. The container of key and
-- ciphertext is cut into chunks, each chunk is written as a URI with a checksum, and the scanned
-- URIs are parsed, checked against each other and put together again. Bytes are numbers below 256.
-- SHA-256, base64, the URL parser, the cipher and the compressor are parameters, and so is the
-- picture of a QR code.
pub mod Receiving
pub mod Frames
pub mod Gathering
pub mod Addresses
pub mod Sizes
pub mod Transfer
pub mod Delivery
pub mod Oversized
use ai_usage_tracker.Prelude.{
  ℕ, zero, suc, ◌+◌, ◌/◌, ◌%◌, Bool, true, false, not, ◌||◌, Option, none, some, List, [], ◌∷◌,
  ◌++◌, ltb, ◌==◌, if◌then◌else◌, any_of, Text, codes, text_eq, trim, as_bytes, byte_len, Result,
  ok, err, ◌>>=◌, length, take, drop, get_or,
}
use ai_usage_tracker.Prelude.Split.{parse_u64}
use ai_usage_tracker.Prelude.Decimal.{decimal, hex_lower, hex_upper}
use ai_usage_tracker.Limits.{is_empty}

abbrev pub airgap_uri_scheme : Text
airgap_uri_scheme = codes "aiut-airgap"

abbrev pub chunk_binary_size : ℕ
chunk_binary_size = 350

abbrev pub airgap_verify_info : List ℕ
airgap_verify_info = codes "aiut-airgap-verify-v1"

abbrev pub max_airgap_frames_submitted : ℕ
max_airgap_frames_submitted = 1000

abbrev pub max_airgap_frame_uri_chars : ℕ
max_airgap_frame_uri_chars = 4096

-- What `Url` says of a parsed address.
pub record Url : Type 0 where
  pub scheme : Text
  pub host_str : Option Text
  pub path_segments : Option (List Text)
  pub query_pairs : List (Text × Text)

-- The libraries that the module calls. `decode` is URL_SAFE_NO_PAD and `decode_standard` STANDARD.
pub record Codec : Type 0 where
  pub sha256 : List ℕ → List ℕ
  pub encode : List ℕ → Text
  pub decode : Text → Option (List ℕ)
  pub decode_standard : Text → Option (List ℕ)
  pub parse_url : Text → Option Url
  pub generate_qr_svg : Text → Option Text

pub data AirgapError : Type 0 where
  qr_failed invalid_uri unsupported_scheme path_missing_components invalid_format : AirgapError
  invalid_chunk_index invalid_total_chunks missing_data checksum_mismatch : AirgapError
  no_frames frames_not_valid invalid_total mixed_sessions mismatched_total : AirgapError
  out_of_range : ℕ → AirgapError
  missing_frames : ℕ → ℕ → AirgapError
  missing_chunk corrupted_base64 : ℕ → AirgapError
  container_too_short corrupted_transfer decompression_failed encryption_failed : AirgapError

pub record AirgapExportFrame : Type 0 where
  pub chunk_index : ℕ
  pub total_chunks : ℕ
  pub uri : Text
  pub svg : Text

pub record AirgapExport : Type 0 where
  pub session_id : Text
  pub verify_code : Text
  pub total_chunks : ℕ
  pub frames : List AirgapExportFrame

pub record AirgapVerifyResult : Type 0 where
  pub session_id : Text
  pub verify_code : Text
  pub total_chunks : ℕ

pub record ParsedAirgapChunk : Type 0 where
  pub session_id : Text
  pub chunk_index : ℕ
  pub total_chunks : ℕ
  pub data_ : Text

-- `ok_or`
abbrev pub or_err : {A : Type 0} → Option A → AirgapError → Result AirgapError A
or_err none e = err e
or_err (some a) e = ok a

-- `or_else`
abbrev pub or_else : {A : Type 0} → Option A → Option A → Option A
or_else none o = o
or_else (some a) o = some a

abbrev hex_byte : (ℕ → ℕ) → ℕ → Text
hex_byte digit b = digit (b / 16) ∷ digit (b % 16) ∷ []

-- `{:02X}` of the bytes, in pairs joined by a dash.
unfoldable pub format_verification_code : List ℕ → Text
unfolding hex_upper
format_verification_code [] = []
format_verification_code (a ∷ []) = hex_byte hex_upper a
format_verification_code (a ∷ b ∷ []) = hex_byte hex_upper a ++ hex_byte hex_upper b
format_verification_code (a ∷ b ∷ c ∷ rest) =
    (hex_byte hex_upper a ++ hex_byte hex_upper b) ++ b'-' ∷ format_verification_code (c ∷ rest)

-- `slice.chunks(size)`; each chunk takes at least one byte, so the length is fuel enough.
unfoldable pub chunks_from : ℕ → ℕ → List ℕ → List (List ℕ)
chunks_from zero size bytes = []
chunks_from (suc fuel) size bytes =
    let rest = chunks_from fuel size (drop size bytes) in
    if is_empty bytes then [] else take size bytes ∷ rest

unfoldable pub chunks : ℕ → List ℕ → List (List ℕ)
unfolding chunks_from
chunks size bytes = chunks_from (length bytes) size bytes

unfoldable pub airgap_uri : Text → ℕ → ℕ → Text → Text → Text
airgap_uri session_id chunk_index total_chunks crc b64_data =
    let from_crc = crc ++ b'?' ∷ (codes "d=" ++ b64_data) in
    let from_index = decimal chunk_index ++ b'/' ∷ (decimal total_chunks ++ b'/' ∷ from_crc) in
    airgap_uri_scheme ++ (codes "://1/" ++ (session_id ++ b'/' ∷ from_index))

module _ (lib : Codec) where
  unfoldable pub compute_verify_code : Text → List ℕ → Text
  compute_verify_code session_id container =
      format_verification_code
        (take 6 (lib.sha256 (airgap_verify_info ++ as_bytes session_id ++ container)))

  unfoldable pub chunk_checksum : Text → Text
  unfolding hex_lower
  chunk_checksum data_ =
      let digest = lib.sha256 (as_bytes data_) in
      hex_byte hex_lower (get_or digest 0 0)
      ++ hex_byte hex_lower (get_or digest 1 0)
      ++ hex_byte hex_lower (get_or digest 2 0)
      ++ hex_byte hex_lower (get_or digest 3 0)

  -- The loop over the chunks, from the chunk with the given index.
  unfoldable pub export_frames :
      Text → ℕ → ℕ → List (List ℕ) → Result AirgapError (List AirgapExportFrame)
  unfolding airgap_uri chunk_checksum
  export_frames session_id total_chunks chunk_index [] = ok []
  export_frames session_id total_chunks chunk_index (slice ∷ slices) =
      let b64_data = lib.encode slice in
      let uri = airgap_uri session_id chunk_index total_chunks (chunk_checksum b64_data) b64_data in
      or_err (lib.generate_qr_svg uri) qr_failed >>= λ svg.
      export_frames session_id total_chunks (chunk_index + 1) slices >>= λ frames. ok (
        record { chunk_index = chunk_index; total_chunks = total_chunks; uri = uri; svg = svg }
        ∷ frames)

  -- Steps 5 and on of `prepare_airgap_export`, on the container.
  unfoldable pub export_container : Text → List ℕ → Result AirgapError AirgapExport
  unfolding export_frames compute_verify_code chunks
  export_container session_id container =
      let binary_chunks = chunks chunk_binary_size container in
      let total_chunks = length binary_chunks in
      export_frames session_id total_chunks 1 binary_chunks >>= λ frames. ok (record {
        session_id = session_id;
        verify_code = compute_verify_code session_id container;
        total_chunks = total_chunks;
        frames = frames;
      })

  -- `simple` is the new UUID as 32 hexadecimal digits, `key` the random key.
  unfoldable pub prepare_airgap_export :
      (List ℕ → List ℕ)
      → (List ℕ → List ℕ → Option (List ℕ))
      → Result AirgapError (List ℕ)
      → List ℕ
      → Text
      → Result AirgapError AirgapExport
  unfolding export_container
  prepare_airgap_export compress encrypt payload key simple = payload >>= λ raw_payload_bytes.
      or_err (encrypt key (compress raw_payload_bytes)) encryption_failed >>= λ ciphertext.
      export_container (take 8 simple) (key ++ ciphertext)
