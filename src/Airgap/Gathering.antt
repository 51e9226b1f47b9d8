-- ===== src/Airgap/Gathering.antt =====
-- src-tauri/src/pairing/airgap.rs: the map `chunk_map`, and the cut of the container into chunks.
use ai_usage_tracker.Prelude.{
  ℕ, zero, suc, ◌+◌, ◌*◌, ◌<◌, ◌≤◌, ◌≡◌, refl, ap, Bool, true, false, Option, none, some, List, [],
  ◌∷◌, ◌++◌, ◌==◌, if◌then◌else◌, All, Text, arith, length, take, drop, get_or, length-drop,
  length-take,
}
use ai_usage_tracker.Airgap.{chunks_from, chunks}
use ai_usage_tracker.Airgap.Receiving.{chunk_get, chunk_insert}

pub chunk_get-chunk_insert :
    (i j : ℕ) (d : Text) (m : List (ℕ × Text))
    → chunk_get j (chunk_insert i d m) ≡ (if i == j then some d else chunk_get j m)
unfolding chunk_get chunk_insert
chunk_get-chunk_insert i j d [] = refl
chunk_get-chunk_insert i j d ((k, e) ∷ m) = ground (arith, chunk_get-chunk_insert i j d m)

unfoldable pub is_present : Option Text → Bool
is_present none = false
is_present (some d) = true

drop_key : ℕ → List (ℕ × Text) → List (ℕ × Text)
drop_key i [] = []
drop_key i ((j, d) ∷ m) = let rest = drop_key i m in if j == i then rest else (j, d) ∷ rest

chunk_get-drop_key :
    (i j : ℕ) (m : List (ℕ × Text)) → (i == j) ≡ false → chunk_get j (drop_key i m) ≡ chunk_get j m
unfolding chunk_get drop_key
chunk_get-drop_key i j [] h = refl
chunk_get-drop_key i j ((k, e) ∷ m) h = ground (arith, chunk_get-drop_key i j m h)

length-drop_key-le : (i : ℕ) (m : List (ℕ × Text)) → length (drop_key i m) ≤ length m
unfolding drop_key
length-drop_key-le i [] = omega arith
length-drop_key-le i ((k, e) ∷ m) = ground (arith, length-drop_key-le i m)

length-drop_key :
    (i : ℕ) (m : List (ℕ × Text))
    → is_present (chunk_get i m) ≡ true
    → length (drop_key i m) < length m
unfolding chunk_get drop_key is_present
length-drop_key i [] h = cc
length-drop_key i ((k, e) ∷ m) h = ground (arith, length-drop_key i m, length-drop_key-le i m)

-- A map with an entry for each index up to `n` has at least `n` entries.
pub length-of_present :
    (n : ℕ) (m : List (ℕ × Text))
    → ((k : ℕ) → k < n → is_present (chunk_get (suc k) m) ≡ true)
    → n ≤ length m
length-of_present zero m h = omega arith
length-of_present (suc n) m h =
    let fewer : n ≤ length (drop_key (suc n) m) =
      length-of_present n (drop_key (suc n) m)
        (λ k lt. rw (chunk_get-drop_key (suc n) (suc k) m (ground arith)) (h k (omega arith))) in
    omega (arith, fewer, length-drop_key (suc n) m (h n (omega arith)))

unfoldable pub joined_bytes : List (List ℕ) → List ℕ
joined_bytes [] = []
joined_bytes (slice ∷ slices) = slice ++ joined_bytes slices

take-append-drop : (n : ℕ) (xs : List ℕ) → take n xs ++ drop n xs ≡ xs
take-append-drop zero xs = refl
take-append-drop (suc n) [] = refl
take-append-drop (suc n) (x ∷ xs) = ap (◌∷◌ x) (take-append-drop n xs)

joined_chunks_from :
    (fuel size : ℕ) (bytes : List ℕ)
    → length bytes ≤ fuel
    → 0 < size
    → joined_bytes (chunks_from fuel size bytes) ≡ bytes
unfolding joined_bytes chunks_from
joined_chunks_from zero size [] h p = refl
joined_chunks_from zero size (b ∷ bs) h p = absurd (omega arith)
joined_chunks_from (suc fuel) size [] h p = refl
joined_chunks_from (suc fuel) size (b ∷ bs) h p =
    rw
      (joined_chunks_from fuel size (drop size (b ∷ bs)) (omega (arith, length-drop size (b ∷ bs)))
        p)
      (take-append-drop size (b ∷ bs))

pub joined_chunks :
    (size : ℕ) (bytes : List ℕ) → 0 < size → joined_bytes (chunks size bytes) ≡ bytes
unfolding chunks
joined_chunks size bytes p = joined_chunks_from (length bytes) size bytes (omega arith) p

-- The chunks of a slice, each as long as the chunk size but the last.
length-chunks_from :
    (fuel : ℕ) (bytes : List ℕ)
    → length bytes ≤ fuel
    → (length bytes ≤ 350 * length (chunks_from fuel 350 bytes))
      × (350 * length (chunks_from fuel 350 bytes) < length bytes + 350)
unfolding chunks_from
length-chunks_from zero [] h = (omega arith, omega arith)
length-chunks_from zero (b ∷ bs) h = absurd (omega arith)
length-chunks_from (suc fuel) [] h = (omega arith, omega arith)
length-chunks_from (suc fuel) (b ∷ bs) h =
    let shorter = length-drop 350 (b ∷ bs) in
    let rest = length-chunks_from fuel (drop 350 (b ∷ bs)) (omega (arith, shorter)) in
    (omega (arith, shorter, rest.0), omega (arith, shorter, rest.1))

pub length-chunks :
    (bytes : List ℕ)
    → (length bytes ≤ 350 * length (chunks 350 bytes))
      × (350 * length (chunks 350 bytes) < length bytes + 350)
unfolding chunks
length-chunks bytes = length-chunks_from (length bytes) bytes (omega arith)

All-take {ℓ} : (P : ℕ → Type ℓ) (n : ℕ) (xs : List ℕ) → All P xs → All P (take n xs)
All-take P zero xs h = tt
All-take P (suc n) [] h = tt
All-take P (suc n) (x ∷ xs) h = (h.0, All-take P n xs h.1)

All-drop {ℓ} : (P : ℕ → Type ℓ) (n : ℕ) (xs : List ℕ) → All P xs → All P (drop n xs)
All-drop P zero xs h = h
All-drop P (suc n) [] h = tt
All-drop P (suc n) (x ∷ xs) h = All-drop P n xs h.1

abbrev pub IsSlice {ℓ} : (ℕ → Type ℓ) → List ℕ → Type ℓ
IsSlice P slice = All P slice × (length slice ≤ 350)

All-chunks_from {ℓ} :
    (P : ℕ → Type ℓ) (fuel : ℕ) (bytes : List ℕ)
    → All P bytes
    → All (IsSlice P) (chunks_from fuel 350 bytes)
unfolding chunks_from
All-chunks_from P zero bytes h = tt
All-chunks_from P (suc fuel) [] h = tt
All-chunks_from P (suc fuel) (b ∷ bs) h = (
  (All-take P 350 (b ∷ bs) h, omega (arith, length-take 350 (b ∷ bs))),
  All-chunks_from P fuel (drop 350 (b ∷ bs)) (All-drop P 350 (b ∷ bs) h),
)

pub drop_past : (k : ℕ) (xs : List (List ℕ)) → length xs ≤ k → drop k xs ≡ []
drop_past zero [] h = refl
drop_past zero (x ∷ xs) h = absurd (omega arith)
drop_past (suc k) [] h = refl
drop_past (suc k) (x ∷ xs) h = drop_past k xs (omega (arith, h))

pub drop_next :
    (k : ℕ) (xs : List (List ℕ)) → k < length xs → drop k xs ≡ get_or xs k [] ∷ drop (suc k) xs
drop_next k [] h = absurd (omega arith)
drop_next zero (x ∷ xs) h = refl
drop_next (suc k) (x ∷ xs) h = drop_next k xs (omega (arith, h))

pub All-chunks {ℓ} :
    (P : ℕ → Type ℓ) (bytes : List ℕ) → All P bytes → All (IsSlice P) (chunks 350 bytes)
unfolding chunks
All-chunks P bytes h = All-chunks_from P (length bytes) bytes h

pub get_or-IsSlice {ℓ} :
    (P : ℕ → Type ℓ) (xs : List (List ℕ)) (i : ℕ) → All (IsSlice P) xs → IsSlice P (get_or xs i [])
get_or-IsSlice P [] i h = (tt, omega arith)
get_or-IsSlice P (x ∷ xs) zero h = h.0
get_or-IsSlice P (x ∷ xs) (suc i) h = get_or-IsSlice P xs i h.1
