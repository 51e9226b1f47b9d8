-- ===== src/Tests/Transfers.antt =====
-- A transfer of two frames, scanned out of order and one of them twice.
use ai_usage_tracker.Prelude.{
  ℕ, zero, suc, ◌+◌, ◌≡◌, ap, get_or, All-append, refl, true, false, Option, some, List, [], ◌∷◌,
  ◌++◌, all_of, All, Text, text_eq, codes, contains, includes, is_ascii_alphanumeric, is_digit,
  is_upper, is_lower, Result, ok, err, is_ok, arith, length, drop,
}
use ai_usage_tracker.Prelude.Decimal.{decimal, hex_lower, hex_upper}
use ai_usage_tracker.Airgap.{
  AirgapError, AirgapExport, export_frames, export_container, prepare_airgap_export, chunks,
}
use ai_usage_tracker.Airgap.Receiving.{
  reassemble_container, verify_airgap_frames, import_airgap_payload,
}
use ai_usage_tracker.Airgap.Frames.{IsByte, is_url_safe}
use ai_usage_tracker.Airgap.Addresses.{uris, uri_of, contains-uris_from}
use ai_usage_tracker.Airgap.Delivery.{
  IsWholeScan, export_container_ok, reassemble_container-export_container,
  verify_airgap_frames-export_container, import_airgap_payload-prepare_airgap_export,
}
use ai_usage_tracker.Airgap.Gathering.{length-chunks}
use ai_usage_tracker.Airgap.Oversized.{reassemble_container_oversized}
use ai_usage_tracker.Tests.Codecs.{sample_codec, sample_codec_laws, hex_encode}

abbrev replicate : ℕ → ℕ → List ℕ
replicate zero b = []
replicate (suc n) b = b ∷ replicate n b

All-replicate : (n b : ℕ) → IsByte b → All IsByte (replicate n b)
All-replicate zero b h = tt
All-replicate (suc n) b h = (h, All-replicate n b h)

abbrev two_chunks : List ℕ
two_chunks = replicate 400 7

abbrev no_export : AirgapExport
no_export = record { session_id = []; verify_code = []; total_chunks = 0; frames = [] }

abbrev or_no_export : Result AirgapError AirgapExport → AirgapExport
or_no_export (ok e) = e
or_no_export (err x) = no_export

unfoldable two_frames : AirgapExport
unfolding export_container hex_encode hex_lower hex_upper decimal
two_frames = or_no_export (export_container sample_codec (codes "deadbeef") two_chunks)

abbrev mixed : List Text → List Text
mixed [] = []
mixed (a ∷ []) = a ∷ []
mixed (a ∷ b ∷ rest) = b ∷ a ∷ b ∷ []

two_frames-length : length two_frames.frames ≡ 2
unfolding two_frames
two_frames-length = refl

unfoldable two_scans : List Text
unfolding two_frames
two_scans = mixed (uris two_frames.frames)

two_frames-made : export_container sample_codec (codes "deadbeef") two_chunks ≡ ok two_frames
unfolding two_frames
two_frames-made = refl

two_scans-IsWholeScan : IsWholeScan sample_codec two_frames two_scans
unfolding two_scans includes contains text_eq
two_scans-IsWholeScan = (refl, refl, omega arith)

session_safe : all_of is_url_safe (codes "deadbeef") ≡ true
unfolding is_ascii_alphanumeric is_digit is_upper is_lower
session_safe = refl

reassemble_container-export_container_example :
    reassemble_container sample_codec two_scans
    ≡ ok (codes "deadbeef", two_frames.total_chunks, two_chunks)
reassemble_container-export_container_example =
    reassemble_container-export_container sample_codec sample_codec_laws (codes "deadbeef")
      two_chunks session_safe (omega arith) (All-replicate 400 7 (omega arith)) (omega arith)
      (omega arith) two_frames two_scans two_frames-made two_scans-IsWholeScan

verify_airgap_frames-export_container_example :
    verify_airgap_frames sample_codec two_scans
    ≡ ok (record {
      session_id = two_frames.session_id;
      verify_code = two_frames.verify_code;
      total_chunks = two_frames.total_chunks;
    })
verify_airgap_frames-export_container_example =
    verify_airgap_frames-export_container sample_codec sample_codec_laws (codes "deadbeef")
      two_chunks session_safe (omega arith) (All-replicate 400 7 (omega arith)) (omega arith)
      (omega arith) two_frames two_scans (omega arith) two_frames-made two_scans-IsWholeScan

abbrev sample_key : List ℕ
sample_key = replicate 32 1

abbrev seal : List ℕ → List ℕ → Option (List ℕ)
seal key bytes = some (replicate 40 9 ++ bytes)

abbrev open_seal : List ℕ → List ℕ → Option (List ℕ)
open_seal key bytes = some (drop 40 bytes)

abbrev accounts_payload : List ℕ
accounts_payload = replicate 300 5

unfoldable sent : AirgapExport
unfolding prepare_airgap_export hex_encode hex_lower hex_upper decimal
sent = or_no_export (
    prepare_airgap_export sample_codec (λ xs. xs) seal (ok accounts_payload) sample_key
      (codes "deadbeefcafe"))

unfoldable received : List Text
unfolding sent
received = mixed (uris sent.frames)

received-IsWholeScan : IsWholeScan sample_codec sent received
unfolding received includes contains text_eq
received-IsWholeScan = (refl, refl, omega arith)

sent-made :
    prepare_airgap_export sample_codec
      (λ xs. xs)
      seal
      (ok accounts_payload)
      sample_key
      (codes "deadbeefcafe")
    ≡ ok sent
unfolding sent
sent-made = refl

import_airgap_payload-prepare_airgap_export_example :
    import_airgap_payload sample_codec open_seal (λ xs. some xs) (λ xs. ok (length xs)) received
    ≡ ok 300
import_airgap_payload-prepare_airgap_export_example =
    import_airgap_payload-prepare_airgap_export sample_codec sample_codec_laws (λ xs. xs) seal
      (λ xs. some xs) open_seal accounts_payload sample_key (replicate 40 9 ++ accounts_payload)
      (codes "deadbeefcafe") sent received (λ xs. ok (length xs)) refl refl refl
      (All-append IsByte sample_key (replicate 40 9 ++ accounts_payload)
        (All-replicate 32 1 (omega arith))
        (All-append IsByte (replicate 40 9) accounts_payload (All-replicate 40 9 (omega arith))
          (All-replicate 300 5 (omega arith))))
      refl (omega arith) (omega arith) session_safe sent-made received-IsWholeScan

unfoldable hundred_and_one : List ℕ
hundred_and_one = replicate 35_001 7

length-replicate : (n b : ℕ) → length (replicate n b) ≡ n
length-replicate zero b = refl
length-replicate (suc n) b = ap suc (length-replicate n b)

length-hundred_and_one : length hundred_and_one ≡ 35_001
unfolding hundred_and_one
length-hundred_and_one = length-replicate 35_001 7

hundred_and_one-bytes : All IsByte hundred_and_one
unfolding hundred_and_one
hundred_and_one-bytes = All-replicate 35_001 7 (omega arith)

export_frames-total :
    (session_id : Text) (n i : ℕ) (slices : List (List ℕ))
    → is_ok (export_frames sample_codec session_id n i slices) ≡ true
unfolding export_frames
export_frames-total session_id n i [] = refl
export_frames-total session_id n i (slice ∷ slices) =
    ground (arith, export_frames-total session_id n (i + 1) slices)

export_container-total :
    (session_id : Text) (container : List ℕ)
    → export_container sample_codec session_id container
      ≡ ok (or_no_export (export_container sample_codec session_id container))
unfolding export_container
export_container-total session_id container =
    ground (
      arith,
      export_frames-total session_id (length (chunks 350 container)) 1 (chunks 350 container),
    )

abbrev large_export : AirgapExport
large_export = or_no_export (export_container sample_codec (codes "deadbeef") hundred_and_one)

abbrev large_chunks : List (List ℕ)
large_chunks = chunks 350 hundred_and_one

abbrev first_frame : Text
first_frame =
    uri_of sample_codec (codes "deadbeef") (length large_chunks) (1 + 0) (get_or large_chunks 0 [])

first_frame-scanned : includes (uris large_export.frames) (first_frame ∷ []) ≡ true
unfolding includes
first_frame-scanned =
    rw
      (
        (export_container_ok sample_codec (codes "deadbeef") hundred_and_one large_export
            (export_container-total (codes "deadbeef") hundred_and_one)).0,
        contains-uris_from sample_codec (codes "deadbeef") (length large_chunks) 1 0 large_chunks
            (omega (arith, length-chunks hundred_and_one, length-hundred_and_one)),
      )
      refl

reassemble_container_oversized_example :
    is_ok (reassemble_container sample_codec (first_frame ∷ [])) ≡ false
reassemble_container_oversized_example =
    reassemble_container_oversized sample_codec sample_codec_laws (codes "deadbeef") hundred_and_one
      large_export first_frame [] session_safe hundred_and_one-bytes
      (omega (arith, length-hundred_and_one)) (omega (arith, length-hundred_and_one))
      (export_container-total (codes "deadbeef") hundred_and_one) first_frame-scanned
