-- ===== src/Airgap/Oversized.antt =====
-- src-tauri/src/pairing/airgap.rs: transfers of more than a hundred chunks. The sender makes the
-- frames of any number of chunks.
use ai_usage_tracker.Prelude.{
  ℕ, ◌+◌, ◌<◌, ◌≡◌, true, false, List, [], ◌∷◌, all_of, All, Text, includes, ok, arith, is_ok,
  Result-cases, inl, inr, length, get_or,
}
use ai_usage_tracker.Prelude.Split.{u64_bound}
use ai_usage_tracker.Airgap.{Codec, AirgapExport, ParsedAirgapChunk, export_container, chunks}
use ai_usage_tracker.Airgap.Receiving.{
  reassemble_container, reassemble_parsed, parse_airgap_uri, parse_all, frames_bounded,
}
use ai_usage_tracker.Airgap.Frames.{CodecLaws, IsByte, is_url_safe, parse_frame}
use ai_usage_tracker.Airgap.Gathering.{length-chunks, All-chunks, get_or-IsSlice}
use ai_usage_tracker.Airgap.Addresses.{uris, uri_of, frame_index}
use ai_usage_tracker.Airgap.Delivery.{export_container_ok}

too_many :
    (lib : Codec) (first : ParsedAirgapChunk) (u : Text) (raw : List Text)
    → parse_airgap_uri lib u ≡ ok first
    → 100 < first.total_chunks
    → is_ok (reassemble_container lib (u ∷ raw)) ≡ false
unfolding reassemble_container parse_all reassemble_parsed
too_many lib first u raw e many = elim (Result-cases (frames_bounded (u ∷ raw))) [
  | inl (x, f) ↦ elim (Result-cases (parse_all lib raw)) [
    | inl (rest, p) ↦ ground (arith, e, many, f, p)
    | inr (x, p) ↦ ground (arith, e, many, f, p)
  ]
  | inr (x, f) ↦ ground (arith, f)
]

-- An export of more than 35,000 bytes, and fewer than a u64 counts, with a URL-safe session id, is
-- one that no scan of its frames gives back: every scan that has a frame is refused. SHA-256,
-- base64 and the URL parser keep the laws of CodecLaws.
pub reassemble_container_oversized :
    (lib : Codec)
    → CodecLaws lib
    → (session_id : Text) (container : List ℕ) (export_ : AirgapExport) (u : Text) (raw : List Text)
    → all_of is_url_safe session_id ≡ true
    → All IsByte container
    → 35_000 < length container
    → length container < u64_bound
    → export_container lib session_id container ≡ ok export_
    → includes (uris export_.frames) (u ∷ raw) ≡ true
    → is_ok (reassemble_container lib (u ∷ raw)) ≡ false
unfolding includes uri_of
reassemble_container_oversized lib laws session_id container export_ u raw safe bytes large small h
      scan =
    let slices = chunks 350 container in
    let size = length-chunks container in
    let made = export_container_ok lib session_id container export_ h in
    let (k, lt, e) =
      frame_index lib session_id (length slices) 1 slices u
        (rw (← made.0) (ground (arith, scan))) in
    let slice = get_or-IsSlice IsByte slices k (All-chunks IsByte container bytes) in
    let read =
      parse_frame lib laws session_id (lib.encode (get_or slices k [])) (1 + k) (length slices) safe
        (laws.encode_safe (get_or slices k []) slice.0) (omega (arith, lt, size.1, small))
        (omega (arith, size.1, small)) in
    let chunk : ParsedAirgapChunk = record {
      session_id = session_id;
      chunk_index = 1 + k;
      total_chunks = length slices;
      data_ = lib.encode (get_or slices k []);
    } in
    too_many lib chunk u raw (rw (e, uri_of) read) (omega (arith, size.0, large))
