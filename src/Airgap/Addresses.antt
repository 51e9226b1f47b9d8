-- ===== src/Airgap/Addresses.antt =====
-- src-tauri/src/pairing/airgap.rs: the addresses of the frames of an export, each
-- the one of its chunk.
use ai_usage_tracker.Prelude.{
  ℕ, zero, suc, ◌+◌, ◌<◌, ◌≡◌, refl, ap, sym, ◌∙◌, Bool, true, ◌||◌, List, [], ◌∷◌, Text, text_eq,
  text_eq_refl, text_eq_iff, contains, ok, arith, Bool-cases, Result-cases, Option-cases, inl, inr,
  length, get_or,
}
use ai_usage_tracker.Airgap.{Codec, AirgapExportFrame, airgap_uri, chunk_checksum, export_frames}

-- The addresses of an export's frames.
abbrev pub uris : List AirgapExportFrame → List Text
uris [] = []
uris (frame ∷ frames) = frame.uri ∷ uris frames

plus_zero : (i : ℕ) → i ≡ i + 0
plus_zero i = omega arith

plus_suc : (i k : ℕ) → i + 1 + k ≡ i + suc k
plus_suc i k = omega arith

or_true : (b : Bool) → (b || true) ≡ true
or_true b = ground arith

module _ (lib : Codec) where
  -- The address of one chunk.
  unfoldable pub uri_of : Text → ℕ → ℕ → List ℕ → Text
  uri_of session_id n i slice =
      airgap_uri session_id i n (chunk_checksum lib (lib.encode slice)) (lib.encode slice)

  abbrev pub uris_from : Text → ℕ → ℕ → List (List ℕ) → List Text
  uris_from session_id n i [] = []
  uris_from session_id n i (slice ∷ slices) =
      uri_of session_id n i slice ∷ uris_from session_id n (i + 1) slices

  pub export_frames-uris :
      (session_id : Text) (n i : ℕ) (slices : List (List ℕ)) (frames : List AirgapExportFrame)
      → export_frames lib session_id n i slices ≡ ok frames
      → uris frames ≡ uris_from session_id n i slices
  unfolding export_frames uri_of
  export_frames-uris session_id n i [] frames h = ground (arith, h)
  export_frames-uris session_id n i (slice ∷ slices) frames h =
      elim (Option-cases (lib.generate_qr_svg (uri_of session_id n i slice))) [
        | inl e ↦ ground (arith, h, e)
        | inr (svg, e) ↦ elim (Result-cases (export_frames lib session_id n (i + 1) slices)) [
          | inl (rest, r) ↦
              let later = export_frames-uris session_id n (i + 1) slices rest r in
              ground (arith, h, e, r, later)
          | inr (x, r) ↦ ground (arith, h, e, r)
        ]
      ]

  -- A scanned text that is one of the frames is that of some chunk.
  pub frame_index :
      (session_id : Text) (n i : ℕ) (slices : List (List ℕ)) (raw : Text)
      → contains (uris_from session_id n i slices) raw ≡ true
      → (k : ℕ) × (k < length slices) × (raw ≡ uri_of session_id n (i + k) (get_or slices k []))
  unfolding contains
  frame_index session_id n i [] raw h = cc
  frame_index session_id n i (slice ∷ slices) raw h =
      elim (Bool-cases (text_eq (uri_of session_id n i slice) raw)) [
        | inl e ↦ (
          0,
          omega arith,
          sym ((text_eq_iff _ raw).0 e) ∙ ap (λ j. uri_of session_id n j slice) (plus_zero i),
        )
        | inr e ↦
            let later = frame_index session_id n (i + 1) slices raw (ground (arith, h, e)) in
            (
              suc later.0,
              omega (arith, later.1),
              later.2
                  ∙ ap (λ j. uri_of session_id n j (get_or slices later.0 [])) (plus_suc i later.0),
            )
      ]

  pub contains-uris_from :
      (session_id : Text) (n i k : ℕ) (slices : List (List ℕ))
      → k < length slices
      → contains
          (uris_from session_id n i slices)
          (uri_of session_id n (i + k) (get_or slices k []))
        ≡ true
  unfolding contains
  contains-uris_from session_id n i k [] h = absurd (omega arith)
  contains-uris_from session_id n i zero (slice ∷ slices) h = rw (← plus_zero i, text_eq_refl) refl
  contains-uris_from session_id n i (suc k) (slice ∷ slices) h =
      let later = contains-uris_from session_id n (i + 1) k slices (omega (arith, h)) in
      rw (← plus_suc i k, later) (or_true _)
