-- ===== src/Airgap/Sizes.antt =====
-- src-tauri/src/pairing/airgap.rs: how long the address of a frame is.
use ai_usage_tracker.Prelude.{
  ℕ, ◌+◌, ◌≤◌, ◌≡◌, refl, true, List, [], ◌∷◌, ◌++◌, all_of, All, Text, byte_len, utf8_width,
  is_ascii_alphanumeric, is_digit, is_upper, is_lower, arith, length,
}
use ai_usage_tracker.Prelude.Decimal.{decimal, length-decimal}
use ai_usage_tracker.Airgap.{Codec, airgap_uri, chunk_checksum}
use ai_usage_tracker.Airgap.Frames.{CodecLaws, IsByte, is_url_safe, decimal_safe, checksum_safe}
use ai_usage_tracker.Airgap.Addresses.{uri_of}

byte_len-append : (xs ys : Text) → byte_len (xs ++ ys) ≡ byte_len xs + byte_len ys
unfolding byte_len
byte_len-append [] ys = omega arith
byte_len-append (x ∷ xs) ys = omega (arith, byte_len-append xs ys)

byte_len_safe : (s : Text) → all_of is_url_safe s ≡ true → byte_len s ≡ length s
unfolding byte_len utf8_width is_ascii_alphanumeric is_digit is_upper is_lower
byte_len_safe [] h = refl
byte_len_safe (c ∷ cs) h = ground (arith, h, byte_len_safe cs)

length-chunk_checksum : (lib : Codec) (data_ : Text) → length (chunk_checksum lib data_) ≡ 8
unfolding chunk_checksum
length-chunk_checksum lib data_ = refl

-- A frame of a chunk of at most 350 bytes is within the bound on a scanned text.
pub byte_len-uri_of :
    (lib : Codec)
    → CodecLaws lib
    → (session_id : Text) (n i : ℕ) (slice : List ℕ) → all_of is_url_safe session_id ≡ true
    → length session_id ≤ 8
    → n ≤ 100
    → i ≤ 100
    → All IsByte slice
    → length slice ≤ 350
    → byte_len (uri_of lib session_id n i slice) ≤ 4096
unfolding uri_of airgap_uri byte_len utf8_width
byte_len-uri_of lib laws session_id n i slice safe short hn hi bytes small =
    let safe_data = laws.encode_safe slice bytes in
    rw
      (
        byte_len-append session_id,
        byte_len-append (decimal i),
        byte_len-append (decimal n),
        byte_len-append (chunk_checksum lib (lib.encode slice)),
        byte_len_safe session_id safe,
        byte_len_safe (decimal i) (decimal_safe i),
        byte_len_safe (decimal n) (decimal_safe n),
        byte_len_safe (chunk_checksum lib (lib.encode slice))
            (checksum_safe lib laws (lib.encode slice)),
        byte_len_safe (lib.encode slice) safe_data,
        length-chunk_checksum lib (lib.encode slice),
      )
      (omega
        (arith, length-decimal i, length-decimal n, laws.encode_length slice, short, hn, hi, small))
