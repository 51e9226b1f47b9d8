-- ===== src/Airgap/Delivery.antt =====
-- src-tauri/src/pairing/airgap.rs: what the receiver gets of a transfer that is scanned whole.
use ai_usage_tracker.Prelude.{
  ℕ, suc, ◌+◌, ◌<◌, ◌≤◌, ◌≡◌, refl, ap, sym, ◌∙◌, true, Option, some, List, [], ◌∷◌, ◌++◌, all_of,
  All, Text, includes, includes-contains, length-append, length-take, Result, ok, arith,
  Result-cases, inl, inr, length, take, drop, get_or,
}
use ai_usage_tracker.Airgap.{
  Codec, AirgapError, AirgapExport, export_frames, export_container, prepare_airgap_export,
  compute_verify_code, chunks,
}
use ai_usage_tracker.Airgap.Receiving.{
  reassemble_container, verify_airgap_frames, import_airgap_payload,
}
use ai_usage_tracker.Airgap.Frames.{CodecLaws, IsByte, is_url_safe}
use ai_usage_tracker.Airgap.Gathering.{joined_chunks, length-chunks, All-chunks}
use ai_usage_tracker.Airgap.Addresses.{
  uris, uri_of, uris_from, export_frames-uris, frame_index, contains-uris_from,
}
use ai_usage_tracker.Airgap.Transfer.{reassemble_scan, IsScanOf}

module _ (lib : Codec) where
  -- What an export that succeeds holds.
  pub export_container_ok :
      (session_id : Text) (container : List ℕ) (export_ : AirgapExport)
      → export_container lib session_id container ≡ ok export_
      → (uris export_.frames
          ≡ uris_from lib session_id (length (chunks 350 container)) 1 (chunks 350 container))
        × (export_.total_chunks ≡ length (chunks 350 container))
        × (export_.session_id ≡ session_id)
        × (export_.verify_code ≡ compute_verify_code lib session_id container)
  unfolding export_container
  export_container_ok session_id container export_ h =
      let slices = chunks 350 container in
      elim (Result-cases (export_frames lib session_id (length slices) 1 slices)) [
        | inl (frames, r) ↦
            let addresses = export_frames-uris lib session_id (length slices) 1 slices frames r in
            ground (arith, h, r, addresses)
        | inr (e, r) ↦ ground (arith, h, r)
      ]

  -- The scanned texts are frames of the export, each of them at least once, and at most a thousand.
  abbrev pub IsWholeScan : AirgapExport → List Text → Type 0
  IsWholeScan export_ raw =
      (includes (uris export_.frames) raw ≡ true)
      × (includes raw (uris export_.frames) ≡ true)
      × (length raw ≤ 1000)

one_plus : (k : ℕ) → 1 + k ≡ suc k
one_plus k = omega arith

module _ (lib : Codec) (laws : CodecLaws lib) (session_id : Text) (container : List ℕ)
    (session_safe : all_of is_url_safe session_id ≡ true) (short : length session_id ≤ 8)
    (bytes : All IsByte container) (some_bytes : 0 < length container)
    (few_bytes : length container ≤ 35_000) where
  slices : List (List ℕ)
  slices = chunks 350 container

  IsScanOf-includes :
      (raw : List Text)
      → includes (uris_from lib session_id (length slices) 1 slices) raw ≡ true
      → IsScanOf lib session_id slices raw
  unfolding includes
  IsScanOf-includes [] h = tt
  IsScanOf-includes (u ∷ raw) h =
      let found = frame_index lib session_id (length slices) 1 slices u (ground (arith, h)) in
      (
        (
          found.0,
          found.1,
          found.2
              ∙ ap (λ j. uri_of lib session_id (length slices) j (get_or slices found.0 []))
                  (one_plus found.0),
        ),
        IsScanOf-includes raw (ground (arith, h)),
      )

  -- Of an export of at most 35,000 bytes, with a URL-safe session id of at most eight characters,
  -- a scan of at most a thousand texts that are all frames of the export and leave none out gives
  -- back the session, the number of chunks and the container, whatever the order of the frames and
  -- however often one is scanned. SHA-256, base64 and the URL parser keep the laws of CodecLaws.
  pub reassemble_container-export_container :
      (export_ : AirgapExport) (raw : List Text)
      → export_container lib session_id container ≡ ok export_
      → IsWholeScan lib export_ raw
      → reassemble_container lib raw ≡ ok (session_id, export_.total_chunks, container)
  unfolding slices
  reassemble_container-export_container export_ raw h w =
      let made = export_container_ok lib session_id container export_ h in
      let size = length-chunks container in
      let whole =
        reassemble_scan lib laws session_id slices session_safe (All-chunks IsByte container bytes)
          (omega (arith, size.1)) short raw w.2 (IsScanOf-includes raw (rw (← made.0) w.0))
          (omega (arith, size.0))
          (λ k lt.
            includes-contains raw (uris_from lib session_id (length slices) 1 slices) _
              (rw (← made.0) w.1)
              (rw (← one_plus k)
                (contains-uris_from lib session_id (length slices) 1 k slices lt))) in
      rw (made.1) (
        whole
        ∙ ap (λ c. ok (session_id, length slices, c)) (joined_chunks 350 container (omega arith)))

  -- The receiver of a whole scan shows the verification code that the sender shows, with the
  -- session and the number of chunks, for a container of 72 to 35,000 bytes and a URL-safe session
  -- id of at most eight characters, where SHA-256, base64 and the URL parser keep the laws of
  -- CodecLaws.
  pub verify_airgap_frames-export_container :
      (export_ : AirgapExport) (raw : List Text)
      → 72 ≤ length container
      → export_container lib session_id container ≡ ok export_
      → IsWholeScan lib export_ raw
      → verify_airgap_frames lib raw
        ≡ ok (record {
          session_id = export_.session_id;
          verify_code = export_.verify_code;
          total_chunks = export_.total_chunks;
        })
  unfolding verify_airgap_frames
  verify_airgap_frames-export_container export_ raw long h w =
      let made = export_container_ok lib session_id container export_ h in
      let whole = reassemble_container-export_container export_ raw h w in
      ground (arith, whole, made.2, made.3, long)

import_ok :
    (lib : Codec) (decrypt : List ℕ → List ℕ → Option (List ℕ))
    (decompress : List ℕ → Option (List ℕ)) {Summary : Type 0}
    (import_ : List ℕ → Result AirgapError Summary) (raw : List Text) (session_id : Text) (n : ℕ)
    (container compressed payload : List ℕ)
    → reassemble_container lib raw ≡ ok (session_id, n, container)
    → 72 ≤ length container
    → decrypt (take 32 container) (drop 32 container) ≡ some compressed
    → decompress compressed ≡ some payload
    → import_airgap_payload lib decrypt decompress import_ raw ≡ import_ payload
unfolding import_airgap_payload
import_ok lib decrypt decompress import_ raw session_id n container compressed payload whole long
      open_ inflate =
    ground (arith, whole, long, open_, inflate)

take-append : (xs ys : List ℕ) → take (length xs) (xs ++ ys) ≡ xs
take-append [] ys = refl
take-append (x ∷ xs) ys = ap (◌∷◌ x) (take-append xs ys)

drop-append : (xs ys : List ℕ) → drop (length xs) (xs ++ ys) ≡ ys
drop-append [] ys = refl
drop-append (x ∷ xs) ys = drop-append xs ys

-- An import of a whole scan of an export imports the payload that was exported, where the cipher
-- opens what it sealed under a 32-byte key, the compressor is undone by the decompressor, the
-- ciphertext has from 40 to 34,968 bytes, the session id is URL-safe, and SHA-256, base64 and the
-- URL parser keep the laws of CodecLaws.
pub import_airgap_payload-prepare_airgap_export :
    (lib : Codec)
    → CodecLaws lib
    → (compress : List ℕ → List ℕ) (encrypt : List ℕ → List ℕ → Option (List ℕ))
      (decompress : List ℕ → Option (List ℕ)) (decrypt : List ℕ → List ℕ → Option (List ℕ))
      (payload key ciphertext : List ℕ) (simple : Text) (export_ : AirgapExport) (raw : List Text)
      {Summary : Type 0} (import_ : List ℕ → Result AirgapError Summary)
    → decompress (compress payload) ≡ some payload
    → decrypt key ciphertext ≡ some (compress payload)
    → encrypt key (compress payload) ≡ some ciphertext
    → All IsByte (key ++ ciphertext)
    → length key ≡ 32
    → 40 ≤ length ciphertext
    → length ciphertext ≤ 34_968
    → all_of is_url_safe (take 8 simple) ≡ true
    → prepare_airgap_export lib compress encrypt (ok payload) key simple ≡ ok export_
    → IsWholeScan lib export_ raw
    → import_airgap_payload lib decrypt decompress import_ raw ≡ import_ payload
unfolding prepare_airgap_export
import_airgap_payload-prepare_airgap_export lib laws compress encrypt decompress decrypt payload key
      ciphertext simple export_ raw import_ inflate open_ seal bytes key_len long few safe h w =
    let size = length-append key ciphertext in
    let made : export_container lib (take 8 simple) (key ++ ciphertext) ≡ ok export_ =
      ground (arith, h, seal) in
    let whole =
      reassemble_container-export_container lib laws (take 8 simple) (key ++ ciphertext) safe
        (omega (arith, length-take 8 simple)) bytes (omega (arith, size, long))
        (omega (arith, size, few, key_len)) export_ raw made w in
    import_ok lib decrypt decompress import_ raw (take 8 simple) export_.total_chunks
      (key ++ ciphertext) (compress payload) payload whole (omega (arith, size, key_len, long))
      (rw
        (
          ap (λ n. take n (key ++ ciphertext)) (sym key_len),
          ap (λ n. drop n (key ++ ciphertext)) (sym key_len),
          take-append key ciphertext,
          drop-append key ciphertext,
        )
        open_)
      inflate
