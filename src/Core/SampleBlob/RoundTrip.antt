-- ===== src/Core/SampleBlob/RoundTrip.antt =====
-- `encode_samples` and `decode_samples` of crates/kemuri-core/src/sample_blob.rs together.
use kemuri.Base.{ℕ, zero, suc, ◌%◌, ◌^◌, ◌≤◌, ◌<◌, ◌≡◌, refl, ◌∙◌, arith}
use kemuri.Base.{Option, none, some, List, [], ◌∷◌, ◌++◌, length, take, drop, All}
use kemuri.Base.Bytes.{from_le_bytes-to_le_bytes}
use kemuri.Core.SampleBlob.{SampleRecord, ok}
use kemuri.Core.SampleBlob.{encode_record, encode_records, encode_samples}
use kemuri.Core.SampleBlob.{decode_record, decode_records, decode_version_1, decode_samples}
use kemuri.Core.SampleBlob.Records.{InRange, kept, left_over, take-length, drop-length}
use kemuri.Core.SampleBlob.Records.{decode_record-encode_record}
use mathlib.Core.List.{append_assoc}

-- The length of the metadata fits the two bytes that it is written in.
abbrev pub Fits : Option (List ℕ) → Type 0
Fits none = Unit
Fits (some m) = length m < 2 ^ 16

pub record Encodable (r : SampleRecord) : Type 0 where
  pub in_range : InRange r
  pub fits : Fits r.metadata

kept_self : (o : Option (List ℕ)) → Fits o → kept o ≡ o
kept_self none h = refl
kept_self (some m) h =
    let e : length m % 2 ^ 16 ≡ length m = omega arith in rw e (rw (take-length m) refl)

left_over_self : (o : Option (List ℕ)) (rest : List ℕ) → Fits o → left_over o rest ≡ rest
left_over_self none rest h = refl
left_over_self (some m) rest h =
    let e : length m % 2 ^ 16 ≡ length m = omega arith in rw e (rw (drop-length m) refl)

decode_record_fits :
    (r : SampleRecord) (rest : List ℕ)
    → Encodable r
    → decode_record (encode_record r ++ rest) ≡ ok (r, rest)
decode_record_fits r rest h =
    decode_record-encode_record r rest h.in_range
    ∙ rw (kept_self r.metadata h.fits) (rw (left_over_self r.metadata rest h.fits) refl)

pub decode_records-encode_records :
    (count : ℕ) (rs : List SampleRecord) (rest : List ℕ)
    → count ≤ length rs
    → All Encodable rs
    → decode_records count (encode_records rs ++ rest)
      ≡ ok (take count rs, encode_records (drop count rs) ++ rest)
unfolding decode_records encode_records
decode_records-encode_records zero rs rest h a = refl
decode_records-encode_records (suc n) [] rest h a = absurd (omega arith)
decode_records-encode_records (suc n) (r ∷ rs) rest h a = rw (append_assoc (encode_record r)) (
    rw (decode_record_fits r (encode_records rs ++ rest) a.0)
      (rw (decode_records-encode_records n rs rest (omega arith) a.1) refl))

-- A list of records, each with fields in range and metadata shorter than 2 ^ 16 bytes, is read back
-- from its encoding and any bytes behind it, up to the first `length % 2 ^ 16` records: all of them
-- if the list is shorter than 2 ^ 16.
pub decode_samples-encode_samples :
    (rs : List SampleRecord) (extra : List ℕ)
    → All Encodable rs
    → decode_samples (encode_samples rs ++ extra) ≡ ok (take (length rs % 2 ^ 16) rs)
unfolding decode_samples encode_samples decode_version_1
decode_samples-encode_samples rs extra a =
    rw (from_le_bytes-to_le_bytes 2 (length rs % 2 ^ 16) (omega arith))
      (rw (decode_records-encode_records (length rs % 2 ^ 16) rs extra (omega arith) a) refl)

-- A single record with fields in range comes back with only the first `length % 2 ^ 16` bytes of
-- its metadata, whatever their number, and without an error.
pub decode_samples-encode_samples_one :
    (r : SampleRecord)
    → InRange r
    → decode_samples (encode_samples (r ∷ [])) ≡ ok (record r { metadata = kept r.metadata } ∷ [])
unfolding decode_samples encode_samples decode_version_1 decode_records encode_records
decode_samples-encode_samples_one r h = rw (decode_record-encode_record r [] h) refl
