-- ===== src/Airgap/Transfer.antt =====
-- src-tauri/src/pairing/airgap.rs: a whole transfer, from the sender's frames to the receiver's
-- container, whatever the order in which the frames are scanned and however often.
use ai_usage_tracker.Prelude.{
  ℕ, zero, suc, ◌+◌, ◌<◌, ◌≤◌, ◌≡◌, refl, ap, sym, ◌∙◌, Bool, true, false, ◌||◌, some, List, [],
  ◌∷◌, ltb, any_of, all_of, All, Text, text_eq_refl, text_eq_iff, contains, byte_len, ok, arith,
  Option-cases, inl, inr, length, drop, get_or,
}
use ai_usage_tracker.Limits.{is_empty}
use ai_usage_tracker.Airgap.{Codec, ParsedAirgapChunk}
use ai_usage_tracker.Airgap.Receiving.{
  parse_airgap_uri, parse_all, gather, chunk_get, chunk_insert, assemble, reassemble_parsed,
  reassemble_container, frames_bounded,
}
use ai_usage_tracker.Airgap.Frames.{CodecLaws, IsByte, is_url_safe, parse_frame}
use ai_usage_tracker.Airgap.Gathering.{
  chunk_get-chunk_insert, is_present, length-of_present, joined_bytes, IsSlice, drop_past,
  drop_next, get_or-IsSlice,
}
use ai_usage_tracker.Airgap.Sizes.{byte_len-uri_of}
use ai_usage_tracker.Airgap.Addresses.{uri_of}

next_index : (k : ℕ) → suc k + 1 ≡ suc (suc k)
next_index k = omega arith

-- Every scanned text is the address of a chunk.
abbrev pub IsScanOf : Codec → Text → List (List ℕ) → List Text → Type 0
IsScanOf lib session_id slices raw =
    All
      (λ u.
        (k : ℕ) × (k < length slices)
        × (u ≡ uri_of lib session_id (length slices) (suc k) (get_or slices k [])))
      raw

no_chunk : (k : ℕ) (d : Text) → chunk_get k [] ≡ some d → ⊥
unfolding chunk_get
no_chunk k d h = cc

no_scan : false ≡ true → ⊥
no_scan h = cc

frames_pass :
    (raw : List Text)
    → length raw ≤ 1000
    → any_of (λ chunk. ltb 4096 (byte_len chunk)) raw ≡ false
    → frames_bounded raw ≡ ok tt
unfolding frames_bounded
frames_pass raw h k = ground (arith, h, k)

reassembled :
    (lib : Codec) (session_id : Text) (n : ℕ) (first : ParsedAirgapChunk)
    (rest : List ParsedAirgapChunk) (m : List (ℕ × Text)) (bytes : List ℕ)
    → first.session_id ≡ session_id
    → first.total_chunks ≡ n
    → 0 < n
    → n ≤ 100
    → gather session_id n [] (first ∷ rest) ≡ ok m
    → n ≤ length m
    → assemble lib m 1 n ≡ ok bytes
    → reassemble_parsed lib (first ∷ rest) ≡ ok (session_id, n, bytes)
unfolding reassemble_parsed
reassembled lib session_id n first rest m bytes s t pos few g enough a =
    ground (arith, s, t, pos, few, g, enough, a)

module _ (lib : Codec) (laws : CodecLaws lib) (session_id : Text) (slices : List (List ℕ))
    (session_safe : all_of is_url_safe session_id ≡ true) (slices_ok : All (IsSlice IsByte) slices)
    (few : length slices ≤ 100) (short : length session_id ≤ 8) where
  slice_at : ℕ → List ℕ
  slice_at k = get_or slices k []

  chunk_at : ℕ → ParsedAirgapChunk
  unfolding slice_at
  chunk_at k = record {
    session_id = session_id;
    chunk_index = suc k;
    total_chunks = length slices;
    data_ = lib.encode (slice_at k);
  }

  slice_at-ok : (k : ℕ) → IsSlice IsByte (slice_at k)
  unfolding slice_at
  slice_at-ok k = get_or-IsSlice IsByte slices k slices_ok

  address : ℕ → Text
  unfolding slice_at
  address k = uri_of lib session_id (length slices) (suc k) (slice_at k)

  parse_address : (k : ℕ) → k < length slices → parse_airgap_uri lib (address k) ≡ ok (chunk_at k)
  unfolding address chunk_at uri_of
  parse_address k h =
      parse_frame lib laws session_id (lib.encode (slice_at k)) (suc k) (length slices) session_safe
        (laws.encode_safe (slice_at k) (slice_at-ok k).0) (omega (arith, h, few))
        (omega (arith, few))

  -- Each entry of the map is the chunk of its index.
  IsCorrect : List (ℕ × Text) → Type 0
  IsCorrect m = (k : ℕ) (d : Text) → chunk_get (suc k) m ≡ some d → d ≡ lib.encode (slice_at k)

  insert-IsCorrect :
      (k : ℕ) (m : List (ℕ × Text))
      → IsCorrect m
      → IsCorrect (chunk_insert (suc k) (lib.encode (slice_at k)) m)
  unfolding IsCorrect
  insert-IsCorrect k m h j d e =
      let found = sym (chunk_get-chunk_insert (suc k) (suc j) (lib.encode (slice_at k)) m) ∙ e in
      ground (arith, found, h j d)

  address_injective :
      (j k : ℕ) → j < length slices → k < length slices → address j ≡ address k → j ≡ k
  unfolding chunk_at
  address_injective j k hj hk e =
      let same : ok (chunk_at j) ≡ ok (chunk_at k) =
        sym (parse_address j hj) ∙ ap (parse_airgap_uri lib) e ∙ parse_address k hk in
      cc

  gather_step :
      (k : ℕ) (m : List (ℕ × Text)) (rest : List ParsedAirgapChunk)
      → k < length slices
      → gather session_id (length slices) m (chunk_at k ∷ rest)
        ≡ gather session_id (length slices) (chunk_insert (suc k) (lib.encode (slice_at k)) m) rest
  unfolding gather chunk_at
  gather_step k m rest lt = ground (arith, text_eq_refl session_id, lt)

  -- The frames scanned so far.
  IsScan : List Text → Type 0
  IsScan raw = All (λ u. (k : ℕ) × (k < length slices) × (u ≡ address k)) raw

  -- A chunk is in the map or still to come.
  is_known : List Text → List (ℕ × Text) → ℕ → Bool
  is_known raw m k = contains raw (address k) || is_present (chunk_get (suc k) m)

  is_known-scan :
      (u : Text) (raw : List Text) (m : List (ℕ × Text)) (j k : ℕ)
      → j < length slices
      → k < length slices
      → u ≡ address k
      → is_known (u ∷ raw) m j ≡ true
      → is_known raw (chunk_insert (suc k) (lib.encode (slice_at k)) m) j ≡ true
  unfolding is_known contains is_present
  is_known-scan u raw m j k hj hk e h = ground (
    arith,
    h,
    e,
    text_eq_iff u (address j),
    address_injective j k hj hk,
    chunk_get-chunk_insert (suc k) (suc j) (lib.encode (slice_at k)) m,
  )

  scan :
      (raw : List Text) (m : List (ℕ × Text))
      → IsScan raw
      → IsCorrect m
      → (parsed : List ParsedAirgapChunk) × (parse_all lib raw ≡ ok parsed)
        × All (λ c. (c.session_id ≡ session_id) × (c.total_chunks ≡ length slices)) parsed
        × (is_empty parsed ≡ is_empty raw)
        × (m' : List (ℕ × Text)) × (gather session_id (length slices) m parsed ≡ ok m')
        × IsCorrect m'
        × ((k : ℕ)
            → k < length slices
            → is_known raw m k ≡ true
            → is_present (chunk_get (suc k) m') ≡ true)
  unfolding parse_all gather IsScan is_known contains chunk_at
  scan [] m s c = ([], refl, tt, refl, m, refl, c, λ k lt h. h)
  scan (u ∷ raw) m s c =
      let (k, lt, e) = s.0 in
      let later =
        scan raw (chunk_insert (suc k) (lib.encode (slice_at k)) m) s.1 (insert-IsCorrect k m c) in
      (
        chunk_at k ∷ later.0,
        (rw (e, parse_address k lt, later.1) refl),
        ((refl, refl), later.2),
        refl,
        later.4,
        gather_step k m later.0 lt ∙ later.5,
        later.6,
        λ j hj h. later.7 j hj (is_known-scan u raw m j k hj lt e h),
      )

  assemble_ok :
      (m : List (ℕ × Text)) (k left : ℕ)
      → IsCorrect m
      → ((j : ℕ) → j < length slices → is_present (chunk_get (suc j) m) ≡ true)
      → k + left ≡ length slices
      → assemble lib m (suc k) left ≡ ok (joined_bytes (drop k slices))
  unfolding assemble joined_bytes is_present slice_at IsCorrect
  assemble_ok m k zero c h e = rw (drop_past k slices (omega (arith, e))) refl
  assemble_ok m k (suc left) c h e = elim (Option-cases (chunk_get (suc k) m)) [
    | inl q ↦ ground (arith, q, h k (omega (arith, e)))
    | inr (d, q) ↦
        let rest : assemble lib m (suc (suc k)) left ≡ ok (joined_bytes (drop (suc k) slices)) =
          assemble_ok m (suc k) left c h (omega (arith, e)) in
        rw
          (
            q,
            c k d q,
            laws.decode_encode (slice_at k) (slice_at-ok k).0,
            drop_next k slices (omega (arith, e)),
          )
          (rw (next_index k, rest) refl)
  ]

  scan_bounded :
      (raw : List Text) → IsScan raw → any_of (λ chunk. ltb 4096 (byte_len chunk)) raw ≡ false
  unfolding IsScan address
  scan_bounded [] s = refl
  scan_bounded (u ∷ raw) s =
      let (k, lt, e) = s.0 in
      let small : byte_len (address k) ≤ 4096 =
        byte_len-uri_of lib laws session_id (length slices) (suc k) (slice_at k) session_safe short
          few (omega (arith, lt, few)) (slice_at-ok k).0 (slice_at-ok k).1 in
      ground (arith, scan_bounded raw s.1, ap byte_len e, small)

  reassemble_gathered :
      (parsed : List ParsedAirgapChunk) (m : List (ℕ × Text))
      → All (λ c. (c.session_id ≡ session_id) × (c.total_chunks ≡ length slices)) parsed
      → is_empty parsed ≡ false
      → 0 < length slices
      → gather session_id (length slices) [] parsed ≡ ok m
      → IsCorrect m
      → ((k : ℕ) → k < length slices → is_present (chunk_get (suc k) m) ≡ true)
      → reassemble_parsed lib parsed ≡ ok (session_id, length slices, joined_bytes slices)
  reassemble_gathered [] m all_same nonempty some_slice g c h = cc
  reassemble_gathered (first ∷ rest) m all_same nonempty some_slice g c h =
      let enough = length-of_present (length slices) m h in
      let bytes = assemble_ok m 0 (length slices) c h (omega arith) in
      reassembled lib session_id (length slices) first rest m (joined_bytes slices) all_same.0.0
        all_same.0.1 some_slice few g enough bytes

  -- Every frame is scanned, and nothing else.
  pub reassemble_scan :
      (raw : List Text)
      → length raw ≤ 1000
      → IsScanOf lib session_id slices raw
      → 0 < length slices
      → ((k : ℕ)
          → k < length slices
          → contains raw (uri_of lib session_id (length slices) (suc k) (get_or slices k []))
            ≡ true)
      → reassemble_container lib raw ≡ ok (session_id, length slices, joined_bytes slices)
  unfolding reassemble_container is_known contains IsScan address slice_at IsCorrect
  reassemble_scan [] bounded s some_slice all_seen = absurd (no_scan (all_seen 0 some_slice))
  reassemble_scan (u ∷ raw) bounded s some_slice all_seen =
      let done = scan (u ∷ raw) [] s (λ k d e. absurd (no_chunk (suc k) d e)) in
      let whole =
        reassemble_gathered done.0 done.4 done.2 done.3 some_slice done.5 done.6
          (λ k lt. done.7 k lt (rw (all_seen k lt) refl)) in
      let fits = scan_bounded (u ∷ raw) s in rw (frames_pass (u ∷ raw) bounded fits, done.1) whole
