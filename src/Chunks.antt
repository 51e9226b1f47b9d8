-- ===== src/Chunks.antt =====
-- src-tauri/src/store/credentials/chunking.rs: the cut of a long credential into pieces that a
-- platform's store takes, and the checks on the manifest that names the pieces.
use ai_usage_tracker.Prelude.{
  ℕ, ◌+◌, ◌≡◌, ◌≤◌, refl, ap, true, false, not, ◌||◌, Option, none, some, List, [], ◌∷◌, ◌++◌, ltb,
  ◌==◌, if◌then◌else◌, all_of, All, Text, codes, text_eq, utf16_width, utf16_len, byte_len,
  is_ascii_alphanumeric, Result, ok, err, ◌>>=◌, inl, inr, Bool-cases, arith,
}
use ai_usage_tracker.Limits.{is_empty}

abbrev pub credential_chunk_utf16_units : ℕ
credential_chunk_utf16_units = 1200

abbrev pub max_credential_chunks : ℕ
max_credential_chunks = 32

abbrev pub credential_generation_length : ℕ
credential_generation_length = 16

pub record CredentialGeneration : Type 0 where
  pub generation : Text
  pub chunks : ℕ

pub record CredentialManifest : Type 0 where
  pub format : Text
  pub active : CredentialGeneration
  pub previous : Option CredentialGeneration

pub data ManifestError : Type 0 where
  invalid_chunk_count : ℕ → ManifestError
  invalid_generation : ManifestError

unfoldable pub validate_credential_generation :
    CredentialGeneration → Result ManifestError (Unit {0})
validate_credential_generation generation =
    if generation.chunks == 0 || ltb max_credential_chunks generation.chunks
    then err (invalid_chunk_count generation.chunks)
    else if not (byte_len generation.generation == credential_generation_length)
        || not (all_of is_ascii_alphanumeric generation.generation)
    then err invalid_generation
    else ok tt

unfoldable pub validate_previous : Option CredentialGeneration → Result ManifestError (Unit {0})
unfolding validate_credential_generation
validate_previous none = ok tt
validate_previous (some previous) = validate_credential_generation previous

-- `parsed` is what serde_json makes of the value. Another format, or none, is no manifest.
unfoldable pub parse_credential_manifest :
    Result Text CredentialManifest → Result ManifestError (Option CredentialManifest)
unfolding validate_credential_generation validate_previous
parse_credential_manifest (err e) = ok none
parse_credential_manifest (ok manifest) =
    if not (text_eq manifest.format (codes "chunked-v1"))
    then ok none
    else validate_credential_generation manifest.active >>= λ _.
        validate_previous manifest.previous >>= λ _. ok (some manifest)

-- The loop of `split_utf16_chunks`: the units used, and the text, of the piece that is not closed.
unfoldable pub split_from : ℕ → ℕ → Text → Text → List Text
split_from max used piece [] = piece ∷ []
split_from max used piece (c ∷ cs) = elim (ltb max (used + utf16_width c)) [
  | true ↦ piece ∷ split_from max (utf16_width c) (c ∷ []) cs
  | false ↦ split_from max (used + utf16_width c) (piece ++ c ∷ []) cs
]

unfoldable pub split_utf16_chunks : Text → ℕ → List Text
unfolding split_from
split_utf16_chunks value max = if is_empty value || max == 0 then [] else split_from max 0 [] value

-- The pieces put together.
abbrev pub joined : List Text → Text
joined [] = []
joined (piece ∷ pieces) = piece ++ joined pieces

append_assoc : (xs ys zs : Text) → (xs ++ ys) ++ zs ≡ xs ++ (ys ++ zs)
append_assoc [] ys zs = refl
append_assoc (x ∷ xs) ys zs = ap (◌∷◌ x) (append_assoc xs ys zs)

split_from_cut :
    (max used : ℕ) (piece : Text) (c : ℕ) (cs : Text)
    → ltb max (used + utf16_width c) ≡ true
    → split_from max used piece (c ∷ cs) ≡ piece ∷ split_from max (utf16_width c) (c ∷ []) cs
unfolding split_from
split_from_cut max used piece c cs h = ground (arith, h)

split_from_more :
    (max used : ℕ) (piece : Text) (c : ℕ) (cs : Text)
    → ltb max (used + utf16_width c) ≡ false
    → split_from max used piece (c ∷ cs)
      ≡ split_from max (used + utf16_width c) (piece ++ c ∷ []) cs
unfolding split_from
split_from_more max used piece c cs h = ground (arith, h)

joined-split_from :
    (cs : Text) (max used : ℕ) (piece : Text) → joined (split_from max used piece cs) ≡ piece ++ cs
unfolding split_from
joined-split_from [] max used piece = refl
joined-split_from (c ∷ cs) max used piece = elim (Bool-cases (ltb max (used + utf16_width c))) [
  | inl e ↦
      rw (split_from_cut max used piece c cs e, joined-split_from cs max (utf16_width c) (c ∷ []))
        refl
  | inr n ↦
      rw
        (
          split_from_more max used piece c cs n,
          joined-split_from cs max (used + utf16_width c) (piece ++ c ∷ []),
        )
        (append_assoc piece (c ∷ []) cs)
]

utf16_len-append : (xs ys : Text) → utf16_len (xs ++ ys) ≡ utf16_len xs + utf16_len ys
unfolding utf16_len
utf16_len-append [] ys = omega arith
utf16_len-append (x ∷ xs) ys = omega (arith, utf16_len-append xs ys)

utf16_width-le : (c : ℕ) → utf16_width c ≤ 2
unfolding utf16_width
utf16_width-le c = ground arith

last_piece :
    (max used : ℕ) (piece : Text)
    → utf16_len piece ≡ used
    → used ≤ max
    → All (λ (chunk : Text). utf16_len chunk ≤ max) (split_from max used piece [])
unfolding split_from
last_piece max used piece e n = (omega arith, tt)

split_from-le :
    (cs : Text) (max used : ℕ) (piece : Text)
    → 2 ≤ max
    → utf16_len piece ≡ used
    → used ≤ max
    → All (λ (chunk : Text). utf16_len chunk ≤ max) (split_from max used piece cs)
unfolding utf16_len
split_from-le [] max used piece m e n = last_piece max used piece e n
split_from-le (c ∷ cs) max used piece m e n = elim (Bool-cases (ltb max (used + utf16_width c))) [
  | inl h ↦ rw (split_from_cut max used piece c cs h) (
    omega arith,
    split_from-le cs max (utf16_width c) (c ∷ []) m (omega arith) (omega (arith, utf16_width-le c)),
  )
  | inr h ↦ rw (split_from_more max used piece c cs h) (
      split_from-le cs max (used + utf16_width c) (piece ++ c ∷ []) m
        (omega (arith, utf16_len-append piece (c ∷ []))) (ground (arith, h)))
]

-- The pieces of a credential put together are the credential, and each has at most `max` UTF-16
-- units, where `max` is 2 or more.
pub split_utf16_chunks_lem :
    (value : Text) (max : ℕ)
    → 2 ≤ max
    → (joined (split_utf16_chunks value max) ≡ value)
      × All (λ (chunk : Text). utf16_len chunk ≤ max) (split_utf16_chunks value max)
unfolding split_utf16_chunks utf16_len
split_utf16_chunks_lem [] max m = (refl, tt)
split_utf16_chunks_lem (c ∷ cs) max m = elim (Bool-cases (max == 0)) [
  | inl e ↦ absurd (ground (arith, e, m))
  | inr n ↦
      rw n
        (joined-split_from (c ∷ cs) max 0 [], split_from-le (c ∷ cs) max 0 [] m refl (omega arith))
]
