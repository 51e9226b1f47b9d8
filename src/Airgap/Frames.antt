-- ===== src/Airgap/Frames.antt =====
-- src-tauri/src/pairing/airgap.rs: what a scanned frame reads as. `CodecLaws` is what the module
-- relies on of its libraries: SHA-256 and base64 give bytes and URL-safe characters, base64 text is
-- at most twice as long as the bytes and is decoded to them, and the URL parser takes a URI of
-- URL-safe parts apart.
use ai_usage_tracker.Prelude.{
  ℕ, ◌*◌, ◌/◌, ◌%◌, ◌<◌, ◌≤◌, ◌≡◌, refl, Bool, true, ◌||◌, some, List, [], ◌∷◌, ◌==◌, all_of, All,
  Text, codes, text_eq, text_eq_refl, as_bytes, is_ascii_alphanumeric, is_ascii_digit, is_digit,
  is_upper, is_lower, is_whitespace, suc, zero, ok, length, get_or, arith,
}
use ai_usage_tracker.Prelude.Split.{u64_bound}
use ai_usage_tracker.Prelude.Decimal.{
  decimal, decimal-digits, parse_u64-decimal, hex_lower, all_of-append, all_of-imp,
}
use ai_usage_tracker.Prelude.Visible.{is_visible, trim_visible}
use ai_usage_tracker.Airgap.{Codec, airgap_uri_scheme, airgap_uri, chunk_checksum}
use ai_usage_tracker.Airgap.Receiving.{parse_airgap_uri, chunk_of_url, uri_fields, path_fields}

abbrev pub is_url_safe : ℕ → Bool
is_url_safe c = is_ascii_alphanumeric c || c == b'-' || c == b'_'

abbrev pub IsByte : ℕ → Type 0
IsByte b = b < 256

pub record CodecLaws (lib : Codec) : Type 0 where
  pub sha256_bytes : (xs : List ℕ) → All IsByte (lib.sha256 xs)
  pub encode_safe : (xs : List ℕ) → All IsByte xs → all_of is_url_safe (lib.encode xs) ≡ true
  pub encode_length : (xs : List ℕ) → length (lib.encode xs) ≤ 2 * length xs
  pub decode_encode : (xs : List ℕ) → All IsByte xs → lib.decode (lib.encode xs) ≡ some xs
  pub parse_uri :
      (session_id crc data_ : Text) (i n : ℕ)
      → all_of is_url_safe session_id ≡ true
      → all_of is_url_safe crc ≡ true
      → all_of is_url_safe data_ ≡ true
      → lib.parse_url (airgap_uri session_id i n crc data_)
        ≡ some (record {
          scheme = airgap_uri_scheme;
          host_str = some (codes "1");
          path_segments = some (session_id ∷ decimal i ∷ decimal n ∷ crc ∷ []);
          query_pairs = (codes "d", data_) ∷ [];
        })

safe_visible : (c : ℕ) → is_url_safe c ≡ true → is_visible c ≡ true
unfolding is_ascii_alphanumeric is_digit is_upper is_lower is_whitespace
safe_visible c h = ground (arith, h)

digit_safe : (c : ℕ) → is_ascii_digit c ≡ true → is_url_safe c ≡ true
unfolding is_ascii_alphanumeric is_ascii_digit is_digit is_upper is_lower
digit_safe c h = ground (arith, h)

pub decimal_safe : (n : ℕ) → all_of is_url_safe (decimal n) ≡ true
decimal_safe n = all_of-imp is_ascii_digit is_url_safe (decimal n) digit_safe (decimal-digits n)

pub hex_safe : (d : ℕ) → d < 16 → is_url_safe (hex_lower d) ≡ true
unfolding hex_lower is_ascii_alphanumeric is_digit is_upper is_lower
hex_safe d h = ground (arith, h)

get_or-IsByte : (xs : List ℕ) (i : ℕ) → All IsByte xs → IsByte (get_or xs i 0)
get_or-IsByte [] i h = omega arith
get_or-IsByte (x ∷ xs) zero h = h.0
get_or-IsByte (x ∷ xs) (suc i) h = get_or-IsByte xs i h.1

hex_high : (b : ℕ) → b < 256 → is_url_safe (hex_lower (b / 16)) ≡ true
hex_high b h = hex_safe (b / 16) (omega arith)

hex_low : (b : ℕ) → is_url_safe (hex_lower (b % 16)) ≡ true
hex_low b = hex_safe (b % 16) (omega arith)

pub checksum_safe :
    (lib : Codec)
    → CodecLaws lib
    → (data_ : Text) → all_of is_url_safe (chunk_checksum lib data_) ≡ true
unfolding chunk_checksum
checksum_safe lib laws data_ =
    let digest = lib.sha256 (as_bytes data_) in
    let byte : (i : ℕ) → IsByte (get_or digest i 0) =
      λ i. get_or-IsByte digest i (laws.sha256_bytes (as_bytes data_)) in
    ground (
      arith,
      hex_high (get_or digest 0 0) (byte 0),
      hex_low (get_or digest 0 0),
      hex_high (get_or digest 1 0) (byte 1),
      hex_low (get_or digest 1 0),
      hex_high (get_or digest 2 0) (byte 2),
      hex_low (get_or digest 2 0),
      hex_high (get_or digest 3 0) (byte 3),
      hex_low (get_or digest 3 0),
    )

pub uri_visible :
    (session_id crc data_ : Text) (i n : ℕ)
    → all_of is_url_safe session_id ≡ true
    → all_of is_url_safe crc ≡ true
    → all_of is_url_safe data_ ≡ true
    → all_of is_visible (airgap_uri session_id i n crc data_) ≡ true
unfolding airgap_uri is_whitespace
uri_visible session_id crc data_ i n s c d =
    let visible : (xs : Text) → all_of is_url_safe xs ≡ true → all_of is_visible xs ≡ true =
      λ xs. all_of-imp is_url_safe is_visible xs safe_visible in
    rw
      (
        all_of-append is_visible session_id,
        all_of-append is_visible (decimal i),
        all_of-append is_visible (decimal n),
        all_of-append is_visible crc,
      )
      (ground (
        arith,
        visible session_id s,
        visible (decimal i) (decimal_safe i),
        visible (decimal n) (decimal_safe n),
        visible crc c,
        visible data_ d,
      ))

read_url :
    (lib : Codec) (session_id data_ : Text) (i n : ℕ)
    → i < u64_bound
    → n < u64_bound
    → chunk_of_url lib (record {
      scheme = airgap_uri_scheme;
      host_str = some (codes "1");
      path_segments = some (session_id ∷ decimal i ∷ decimal n ∷ chunk_checksum lib data_ ∷ []);
      query_pairs = (codes "d", data_) ∷ [];
    })
      ≡ ok (record { session_id = session_id; chunk_index = i; total_chunks = n; data_ = data_ })
unfolding chunk_of_url uri_fields path_fields text_eq
read_url lib session_id data_ i n hi hn =
    rw (parse_u64-decimal i hi, parse_u64-decimal n hn, text_eq_refl) refl

-- A frame written with its own checksum reads as the chunk it was written for.
pub parse_frame :
    (lib : Codec)
    → CodecLaws lib
    → (session_id data_ : Text) (i n : ℕ) → all_of is_url_safe session_id ≡ true
    → all_of is_url_safe data_ ≡ true
    → i < u64_bound
    → n < u64_bound
    → parse_airgap_uri lib (airgap_uri session_id i n (chunk_checksum lib data_) data_)
      ≡ ok (record { session_id = session_id; chunk_index = i; total_chunks = n; data_ = data_ })
unfolding parse_airgap_uri
parse_frame lib laws session_id data_ i n s d hi hn =
    let crc = chunk_checksum lib data_ in
    let crc_safe = checksum_safe lib laws data_ in
    rw
      (
        trim_visible _ (uri_visible session_id crc data_ i n s crc_safe d),
        laws.parse_uri session_id crc data_ i n s crc_safe d,
      )
      (read_url lib session_id data_ i n hi hn)
