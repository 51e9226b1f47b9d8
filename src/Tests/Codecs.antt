-- ===== src/Tests/Codecs.antt =====
-- A codec that keeps the laws of Airgap/Frames.antt: hexadecimal text for base64, a constant digest,
-- and a URL parser for addresses of one shape.
use ai_usage_tracker.Prelude.{
  ℕ, ◌+◌, ◌-◌, ◌*◌, ◌/◌, ◌%◌, ◌<◌, ◌≡◌, refl, ap, ◌∙◌, Bool, true, false, Option, none, some, List,
  [], ◌∷◌, ◌++◌, ltb, ◌==◌, if◌then◌else◌, all_of, All, Text, codes, is_ascii_alphanumeric,
  is_digit, is_upper, is_lower, arith, length, drop, Bool-cases, ==_iff, inl, inr,
}
use ai_usage_tracker.Prelude.Split.{split_once}
use ai_usage_tracker.Prelude.Decimal.{decimal, hex_lower}
use ai_usage_tracker.Airgap.{Url, Codec, airgap_uri, airgap_uri_scheme}
use ai_usage_tracker.Airgap.Frames.{CodecLaws, IsByte, is_url_safe, decimal_safe, hex_safe}

abbrev and_then : {A B : Type 0} → Option A → (A → Option B) → Option B
and_then none f = none
and_then (some a) f = f a

unfoldable hex_value : ℕ → ℕ
hex_value c = if ltb c b'a' then c - b'0' else c - b'a' + 10

unfoldable pub hex_encode : List ℕ → Text
unfolding hex_lower
hex_encode [] = []
hex_encode (b ∷ bs) = hex_lower (b / 16) ∷ hex_lower (b % 16) ∷ hex_encode bs

unfoldable pub hex_decode : Text → Option (List ℕ)
unfolding hex_value
hex_decode [] = some []
hex_decode (c ∷ []) = none
hex_decode (c ∷ d ∷ cs) =
    and_then (hex_decode cs) (λ bs. some ((hex_value c * 16 + hex_value d) ∷ bs))

unfoldable pub parse_address_text : Text → Option Url
parse_address_text text = and_then (split_once b':' text) (λ s.
    and_then (split_once b'/' (drop 2 s.1)) (λ host. and_then (split_once b'/' host.1) (λ one.
      and_then (split_once b'/' one.1) (λ two. and_then (split_once b'/' two.1) (λ three.
        and_then (split_once b'?' three.1) (λ four. and_then (split_once b'=' four.1) (λ query.
          some (record {
            scheme = s.0;
            host_str = some host.0;
            path_segments = some (one.0 ∷ two.0 ∷ three.0 ∷ four.0 ∷ []);
            query_pairs = (query.0, query.1) ∷ [];
          }))))))))

char_neq : (x c : ℕ) → is_url_safe x ≡ true → is_url_safe c ≡ false → (x == c) ≡ false
char_neq x c h k = elim (Bool-cases (x == c)) [
  | inl e ↦ absurd (both (is_url_safe x) h (ap is_url_safe ((==_iff x c).0 e) ∙ k))
  | inr e ↦ e
]
  where
    both : (b : Bool) → b ≡ true → b ≡ false → ⊥
    both b p q = cc

split_once_safe :
    (c : ℕ) (xs ys : Text)
    → is_url_safe c ≡ false
    → all_of is_url_safe xs ≡ true
    → split_once c (xs ++ c ∷ ys) ≡ some (xs, ys)
unfolding split_once
split_once_safe c [] ys h k = ground arith
split_once_safe c (x ∷ xs) ys h k =
    rw (char_neq x c (ground (arith, k)) h, split_once_safe c xs ys h (ground (arith, k))) refl

abbrev pub sample_codec : Codec
sample_codec = record {
  sha256 = λ bytes. 171 ∷ 205 ∷ 18 ∷ 52 ∷ 86 ∷ 120 ∷ [];
  encode = hex_encode;
  decode = hex_decode;
  decode_standard = λ text. none;
  parse_url = parse_address_text;
  generate_qr_svg = λ text. some text;
}

hex_value-hex_lower : (d : ℕ) → d < 16 → hex_value (hex_lower d) ≡ d
unfolding hex_value hex_lower
hex_value-hex_lower d h = ground (arith, h)

hex_decode-hex_encode : (xs : List ℕ) → All IsByte xs → hex_decode (hex_encode xs) ≡ some xs
unfolding hex_decode hex_encode
hex_decode-hex_encode [] h = refl
hex_decode-hex_encode (b ∷ bs) h =
    rw
      (
        hex_decode-hex_encode bs h.1,
        hex_value-hex_lower (b / 16) (omega (arith, h.0)),
        hex_value-hex_lower (b % 16) (omega arith),
      )
      (ap (λ a. some (a ∷ bs)) (omega arith))

hex_encode_safe : (xs : List ℕ) → All IsByte xs → all_of is_url_safe (hex_encode xs) ≡ true
unfolding hex_encode
hex_encode_safe [] h = refl
hex_encode_safe (b ∷ bs) h = ground (
  arith,
  hex_safe (b / 16) (omega (arith, h.0)),
  hex_safe (b % 16) (omega arith),
  hex_encode_safe bs h.1,
)

length-hex_encode : (xs : List ℕ) → length (hex_encode xs) ≡ 2 * length xs
unfolding hex_encode
length-hex_encode [] = refl
length-hex_encode (b ∷ bs) = omega (arith, length-hex_encode bs)

slash_unsafe : is_url_safe b'/' ≡ false
unfolding is_ascii_alphanumeric is_digit is_upper is_lower
slash_unsafe = refl

question_unsafe : is_url_safe b'?' ≡ false
unfolding is_ascii_alphanumeric is_digit is_upper is_lower
question_unsafe = refl

parse_parts :
    (text s r host r1 one r2 two r3 three r4 four r5 key value : Text)
    → split_once b':' text ≡ some (s, r)
    → split_once b'/' (drop 2 r) ≡ some (host, r1)
    → split_once b'/' r1 ≡ some (one, r2)
    → split_once b'/' r2 ≡ some (two, r3)
    → split_once b'/' r3 ≡ some (three, r4)
    → split_once b'?' r4 ≡ some (four, r5)
    → split_once b'=' r5 ≡ some (key, value)
    → parse_address_text text
      ≡ some (record {
        scheme = s;
        host_str = some host;
        path_segments = some (one ∷ two ∷ three ∷ four ∷ []);
        query_pairs = (key, value) ∷ [];
      })
unfolding parse_address_text
parse_parts text s r host r1 one r2 two r3 three r4 four r5 key value a b c d e f g =
    rw (a, b, c, d, e, f, g) refl

parse_sample :
    (session_id crc data_ : Text) (i n : ℕ)
    → all_of is_url_safe session_id ≡ true
    → all_of is_url_safe crc ≡ true
    → all_of is_url_safe data_ ≡ true
    → parse_address_text (airgap_uri session_id i n crc data_)
      ≡ some (record {
        scheme = airgap_uri_scheme;
        host_str = some (codes "1");
        path_segments = some (session_id ∷ decimal i ∷ decimal n ∷ crc ∷ []);
        query_pairs = (codes "d", data_) ∷ [];
      })
unfolding airgap_uri split_once
parse_sample session_id crc data_ i n s c d =
    let query : Text = codes "d=" ++ data_ in
    let four : Text = crc ++ b'?' ∷ query in
    let three : Text = decimal n ++ b'/' ∷ four in
    let two : Text = decimal i ++ b'/' ∷ three in
    let one : Text = session_id ++ b'/' ∷ two in
    parse_parts (codes "aiut-airgap://1/" ++ one) (codes "aiut-airgap") (codes "//1/" ++ one)
      (codes "1") one session_id two (decimal i) three (decimal n) four crc query (codes "d") data_
      refl refl (split_once_safe b'/' session_id two slash_unsafe s)
      (split_once_safe b'/' (decimal i) three slash_unsafe (decimal_safe i))
      (split_once_safe b'/' (decimal n) four slash_unsafe (decimal_safe n))
      (split_once_safe b'?' crc query question_unsafe c) refl

pub sample_codec_laws : CodecLaws sample_codec
sample_codec_laws = record {
  sha256_bytes = λ xs.
      (omega arith, (omega arith, (omega arith, (omega arith, (omega arith, (omega arith, tt))))));
  encode_safe = hex_encode_safe;
  encode_length = λ xs. omega (arith, length-hex_encode xs);
  decode_encode = hex_decode-hex_encode;
  parse_uri = parse_sample;
}
