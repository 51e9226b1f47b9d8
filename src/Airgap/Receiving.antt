-- ===== src/Airgap/Receiving.antt =====
-- src-tauri/src/pairing/airgap.rs, the receiving side: from the scanned URIs to the container.
use ai_usage_tracker.Prelude.{
  ℕ, zero, suc, ◌+◌, Bool, true, false, not, ◌||◌, Option, none, some, List, [], ◌∷◌, ◌++◌, ltb,
  ◌==◌, if◌then◌else◌, any_of, Text, codes, text_eq, trim, byte_len, Result, ok, err, ◌>>=◌, length,
  take, drop, get_or,
}
use ai_usage_tracker.Prelude.Split.{parse_u64}
use ai_usage_tracker.Limits.{is_empty}
use ai_usage_tracker.Airgap.{
  Url, Codec, AirgapError, AirgapVerifyResult, ParsedAirgapChunk, or_err, or_else,
  airgap_uri_scheme, max_airgap_frames_submitted, max_airgap_frame_uri_chars, compute_verify_code,
  chunk_checksum, invalid_uri, unsupported_scheme, path_missing_components, invalid_format,
  invalid_chunk_index, invalid_total_chunks, missing_data, checksum_mismatch, no_frames,
  frames_not_valid, invalid_total, mixed_sessions, mismatched_total, out_of_range, missing_frames,
  missing_chunk, corrupted_base64, container_too_short, corrupted_transfer, decompression_failed,
}

-- The pairs of the map `chunk_map`, the last one inserted under an index being the one kept.
unfoldable pub chunk_get : ℕ → List (ℕ × Text) → Option Text
chunk_get i [] = none
chunk_get i ((j, d) ∷ m) = if j == i then some d else chunk_get i m

unfoldable pub chunk_insert : ℕ → Text → List (ℕ × Text) → List (ℕ × Text)
chunk_insert i d [] = (i, d) ∷ []
chunk_insert i d ((j, e) ∷ m) = if j == i then (i, d) ∷ m else (j, e) ∷ chunk_insert i d m

-- The first value under the key `d`.
abbrev pub find_data : List (Text × Text) → Option Text
find_data [] = none
find_data ((k, v) ∷ rest) = if text_eq k (codes "d") then some v else find_data rest

abbrev pub segments_of : Option (List Text) → List Text
segments_of none = []
segments_of (some segments) = segments

-- The fields that stand in the path from position `at`.
unfoldable pub path_fields : List Text → ℕ → Result AirgapError (Text × ℕ × ℕ × Text)
path_fields segments at =
    or_err (parse_u64 (get_or segments (at + 1) [])) invalid_chunk_index >>= λ chunk_index.
    or_err (parse_u64 (get_or segments (at + 2) [])) invalid_total_chunks >>= λ total_chunks.
    ok (get_or segments at [], chunk_index, total_chunks, get_or segments (at + 3) [])

abbrev pub is_host_1 : Option Text → Bool
is_host_1 none = false
is_host_1 (some host) = text_eq host (codes "1")

unfoldable pub uri_fields : Url → Result AirgapError (Text × ℕ × ℕ × Text)
unfolding path_fields
uri_fields url =
    let segments = segments_of url.path_segments in
    elim (is_host_1 url.host_str) [
      | true ↦
          if ltb (length segments) 4 then err path_missing_components else path_fields segments 0
      | false ↦
          if ltb (length segments) 5 || not (text_eq (get_or segments 0 []) (codes "1"))
          then err invalid_format
          else path_fields segments 1
    ]

module _ (lib : Codec) where
  unfoldable pub chunk_of_url : Url → Result AirgapError ParsedAirgapChunk
  unfolding uri_fields chunk_checksum
  chunk_of_url url =
      if not (text_eq url.scheme airgap_uri_scheme)
      then err unsupported_scheme
      else uri_fields url >>= λ fields. or_err (find_data url.query_pairs) missing_data >>= λ data_.
          if not (text_eq (chunk_checksum lib data_) fields.3)
          then err checksum_mismatch
          else ok (record {
            session_id = fields.0;
            chunk_index = fields.1;
            total_chunks = fields.2;
            data_ = data_;
          })

  unfoldable pub parse_airgap_uri : Text → Result AirgapError ParsedAirgapChunk
  unfolding chunk_of_url
  parse_airgap_uri raw_uri =
      or_err (lib.parse_url (trim raw_uri)) invalid_uri >>= λ url. chunk_of_url url

  unfoldable pub parse_all : List Text → Result AirgapError (List ParsedAirgapChunk)
  unfolding parse_airgap_uri
  parse_all [] = ok []
  parse_all (raw ∷ rest) =
      parse_airgap_uri raw >>= λ chunk. parse_all rest >>= λ parsed. ok (chunk ∷ parsed)

  -- The loop over the indices from `i`, `left` of them.
  unfoldable pub assemble : List (ℕ × Text) → ℕ → ℕ → Result AirgapError (List ℕ)
  assemble chunk_map i zero = ok []
  assemble chunk_map i (suc left) = or_err (chunk_get i chunk_map) (missing_chunk i) >>= λ b64_data.
      or_err (or_else (lib.decode b64_data) (lib.decode_standard b64_data)) (corrupted_base64 i)
      >>= λ bytes. assemble chunk_map (i + 1) left >>= λ rest. ok (bytes ++ rest)

-- The loop over the parsed chunks, with the map so far.
unfoldable pub gather :
    Text → ℕ → List (ℕ × Text) → List ParsedAirgapChunk → Result AirgapError (List (ℕ × Text))
unfolding chunk_insert
gather expected_session total_chunks chunk_map [] = ok chunk_map
gather expected_session total_chunks chunk_map (chunk ∷ rest) =
    if not (text_eq chunk.session_id expected_session)
    then err mixed_sessions
    else if not (chunk.total_chunks == total_chunks)
    then err mismatched_total
    else if chunk.chunk_index == 0 || ltb total_chunks chunk.chunk_index
    then err (out_of_range chunk.chunk_index)
    else gather expected_session total_chunks (chunk_insert chunk.chunk_index chunk.data_ chunk_map)
        rest

unfoldable pub frames_bounded : List Text → Result AirgapError (Unit {0})
frames_bounded raw_chunks =
    if ltb max_airgap_frames_submitted (length raw_chunks)
      || any_of (λ chunk. ltb max_airgap_frame_uri_chars (byte_len chunk)) raw_chunks
    then err frames_not_valid
    else ok tt

module _ (lib : Codec) where
  -- From the parsed chunks on. No chunk is the case that the first check has refused.
  unfoldable pub reassemble_parsed : List ParsedAirgapChunk → Result AirgapError (Text × ℕ × List ℕ)
  unfolding gather assemble
  reassemble_parsed [] = err no_frames
  reassemble_parsed (first ∷ rest) =
      if first.total_chunks == 0 || ltb 100 first.total_chunks
      then err invalid_total
      else gather first.session_id first.total_chunks [] (first ∷ rest) >>= λ chunk_map.
          if ltb (length chunk_map) first.total_chunks
          then err (missing_frames (length chunk_map) first.total_chunks)
          else assemble lib chunk_map 1 first.total_chunks >>= λ container.
              ok (first.session_id, first.total_chunks, container)

  unfoldable pub reassemble_container : List Text → Result AirgapError (Text × ℕ × List ℕ)
  unfolding frames_bounded parse_all reassemble_parsed
  reassemble_container raw_chunks =
      if is_empty raw_chunks
      then err no_frames
      else frames_bounded raw_chunks >>= λ _.
          parse_all lib raw_chunks >>= λ parsed. reassemble_parsed parsed

  unfoldable pub verify_airgap_frames : List Text → Result AirgapError AirgapVerifyResult
  unfolding reassemble_container compute_verify_code
  verify_airgap_frames raw_chunks = reassemble_container raw_chunks >>= λ parts.
      if ltb (length parts.2) (32 + 40)
      then err container_too_short
      else ok (record {
        session_id = parts.0;
        verify_code = compute_verify_code lib parts.0 parts.2;
        total_chunks = parts.1;
      })

  -- `import` stands for `import_sync_payload` with the state that it changes.
  unfoldable pub import_airgap_payload :
      (List ℕ → List ℕ → Option (List ℕ))
      → (List ℕ → Option (List ℕ))
      → {Summary : Type 0} → (List ℕ → Result AirgapError Summary)
      → List Text
      → Result AirgapError Summary
  unfolding reassemble_container
  import_airgap_payload decrypt decompress import raw_chunks =
      reassemble_container raw_chunks >>= λ parts.
      if ltb (length parts.2) (32 + 40)
      then err container_too_short
      else or_err (decrypt (take 32 parts.2) (drop 32 parts.2)) corrupted_transfer >>= λ compressed.
          or_err (decompress compressed) decompression_failed >>= λ bytes. import bytes
