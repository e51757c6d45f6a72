-- ===== src/Core/SampleBlob/Records.antt =====
-- One record of crates/kemuri-core/src/sample_blob.rs, written and read.
use kemuri.Base.{ℕ, zero, suc, ◌%◌, ◌^◌, ◌≤◌, ◌<◌, ◌≡◌, refl, ap, ◌∙◌, arith}
use kemuri.Base.{Option, none, some, is_some, List, [], ◌∷◌, ◌++◌, length, take, drop}
use kemuri.Base.{length-append}
use mathlib.Core.List.{append_assoc}
use kemuri.Base.Bytes.{to_le_bytes, from_le_bytes-to_le_bytes, length-to_le_bytes}
use kemuri.Core.Kinds.{SampleClassification, healthy_response}
use kemuri.Core.Kinds.{SampleOutcome, success}
use kemuri.Core.SampleBlob.{SampleRecord, ok, read, has_flag}
use kemuri.Core.SampleBlob.{
  outcome_to_discriminant, outcome_from_discriminant, add_flag, record_flags,
}
use kemuri.Core.SampleBlob.{classification_to_discriminant, classification_from_discriminant}
use kemuri.Core.SampleBlob.{flag_has_latency, flag_has_elapsed, flag_has_metadata}
use kemuri.Core.SampleBlob.{encode_u64, encode_metadata, encode_record, read_u64, read_metadata}
use kemuri.Core.SampleBlob.{read_optional, decode_record}

-- The fields lie in the ranges of their Rust types.
abbrev pub IsU64 : Option ℕ → Type 0
IsU64 none = Unit
IsU64 (some v) = v < 2 ^ 64

pub record InRange (r : SampleRecord) : Type 0 where
  pub index_range : r.sample_index < 2 ^ 16
  pub offset_range : r.offset_us < 2 ^ 32
  pub latency_range : IsU64 r.latency_ns
  pub elapsed_range : IsU64 r.elapsed_ns

pub outcome_roundtrip :
    (o : SampleOutcome) → outcome_from_discriminant (outcome_to_discriminant o) ≡ some o
unfolding outcome_from_discriminant outcome_to_discriminant
outcome_roundtrip success = refl
outcome_roundtrip _ = refl

pub classification_roundtrip :
    (c : SampleClassification)
    → classification_from_discriminant (classification_to_discriminant c) ≡ some c
unfolding classification_from_discriminant classification_to_discriminant
classification_roundtrip healthy_response = refl
classification_roundtrip _ = refl

-- What `metadata` becomes: the length is written modulo 2 ^ 16, and reading goes by it.
abbrev pub kept : Option (List ℕ) → Option (List ℕ)
kept none = none
kept (some m) = some (take (length m % 2 ^ 16) m)

abbrev pub left_over : Option (List ℕ) → List ℕ → List ℕ
left_over none rest = rest
left_over (some m) rest = drop (length m % 2 ^ 16) m ++ rest

pub take-append : (n : ℕ) (xs ys : List ℕ) → n ≤ length xs → take n (xs ++ ys) ≡ take n xs
take-append zero xs ys h = refl
take-append (suc n) [] ys h = absurd (omega arith)
take-append (suc n) (x ∷ xs) ys h = ap (λ (t : List ℕ). x ∷ t) (take-append n xs ys (omega arith))

pub drop-append : (n : ℕ) (xs ys : List ℕ) → n ≤ length xs → drop n (xs ++ ys) ≡ drop n xs ++ ys
drop-append zero xs ys h = refl
drop-append (suc n) [] ys h = absurd (omega arith)
drop-append (suc n) (x ∷ xs) ys h = drop-append n xs ys (omega arith)

read-append :
    (n : ℕ) (xs ys : List ℕ) → n ≤ length xs → read n (xs ++ ys) ≡ ok (take n xs, drop n xs ++ ys)
unfolding read
read-append n xs ys h =
    ground (arith, length-append xs ys, take-append n xs ys h, drop-append n xs ys h)

pub take-length {ℓ} : {A : Type ℓ} (xs : List A) → take (length xs) xs ≡ xs
take-length [] = refl
take-length {A} (x ∷ xs) = ap (λ (t : List A). x ∷ t) (take-length xs)

pub drop-length {ℓ} : {A : Type ℓ} (xs : List A) → drop (length xs) xs ≡ []
drop-length [] = refl
drop-length (x ∷ xs) = drop-length xs

read-exact : (n : ℕ) (xs ys : List ℕ) → length xs ≡ n → read n (xs ++ ys) ≡ ok (xs, ys)
read-exact n xs ys e =
    rw (← e)
      (read-append (length xs) xs ys (omega arith) ∙ rw (take-length xs) (rw (drop-length xs) refl))

pub read-to_le_bytes :
    (w n : ℕ) (ys : List ℕ) → read w (to_le_bytes w n ++ ys) ≡ ok (to_le_bytes w n, ys)
read-to_le_bytes w n ys = read-exact w (to_le_bytes w n) ys (length-to_le_bytes w n)

read_u64-encode :
    (o : Option ℕ) (rest : List ℕ)
    → IsU64 o
    → read_u64 (is_some o) (encode_u64 o ++ rest) ≡ ok (o, rest)
unfolding read_u64 encode_u64
read_u64-encode none rest h = refl
read_u64-encode (some v) rest h =
    rw (read-to_le_bytes 8 v rest) (rw (from_le_bytes-to_le_bytes 8 v h))

read_metadata-encode :
    (o : Option (List ℕ)) (rest : List ℕ)
    → read_metadata (is_some o) (encode_metadata o ++ rest) ≡ ok (kept o, left_over o rest)
unfolding read_metadata encode_metadata
read_metadata-encode none rest = refl
read_metadata-encode (some m) rest = rw (read-to_le_bytes 2 (length m % 2 ^ 16) (m ++ rest)) (
    rw (from_le_bytes-to_le_bytes 2 (length m % 2 ^ 16) (omega arith))
      (rw (read-append (length m % 2 ^ 16) m rest (omega arith)) refl))

flags_read :
    {A : Type 0} (a b : Option ℕ) (c : Option A)
    → let flags =
        add_flag flag_has_metadata c
          (add_flag flag_has_elapsed b (add_flag flag_has_latency a 0)) in
      (has_flag flags flag_has_latency ≡ is_some a)
      × (has_flag flags flag_has_elapsed ≡ is_some b)
      × (has_flag flags flag_has_metadata ≡ is_some c)
flags_read none none none = (refl, refl, refl)
flags_read none none (some z) = (refl, refl, refl)
flags_read none (some y) none = (refl, refl, refl)
flags_read none (some y) (some z) = (refl, refl, refl)
flags_read (some x) none none = (refl, refl, refl)
flags_read (some x) none (some z) = (refl, refl, refl)
flags_read (some x) (some y) none = (refl, refl, refl)
flags_read (some x) (some y) (some z) = (refl, refl, refl)

abbrev flags_of : {A : Type 0} → Option ℕ → Option ℕ → Option A → ℕ
flags_of a b c =
    add_flag flag_has_metadata c (add_flag flag_has_elapsed b (add_flag flag_has_latency a 0))

read_optional-encode :
    (i o : ℕ) (oc : SampleOutcome) (cl : SampleClassification) (a b : Option ℕ)
    (m : Option (List ℕ)) (rest : List ℕ)
    → IsU64 a
    → IsU64 b
    → read_optional i o oc cl
        (flags_of a b m)
        (encode_u64 a ++ (encode_u64 b ++ (encode_metadata m ++ rest)))
      ≡ ok (
        record {
          sample_index = i;
          offset_us = o;
          outcome = oc;
          classification = cl;
          latency_ns = a;
          elapsed_ns = b;
          metadata = kept m;
        },
        left_over m rest,
      )
unfolding read_optional
read_optional-encode i o oc cl a b m rest ha hb =
    let (fa, fb, fm) = flags_read a b m in
    rw fa (
      rw (read_u64-encode a (encode_u64 b ++ (encode_metadata m ++ rest)) ha) (
        rw fb (
          rw (read_u64-encode b (encode_metadata m ++ rest) hb)
            (rw fm (rw (read_metadata-encode m rest) refl)))))

-- The bytes of a record are read back as the record with its metadata cut to the written length,
-- and what stands behind them is left.
pub decode_record-encode_record :
    (r : SampleRecord) (rest : List ℕ)
    → InRange r
    → decode_record (encode_record r ++ rest)
      ≡ ok (record r { metadata = kept r.metadata }, left_over r.metadata rest)
unfolding decode_record encode_record record_flags
decode_record-encode_record r rest h = rw (outcome_roundtrip r.outcome) (
    rw (classification_roundtrip r.classification) (
      rw (append_assoc (encode_u64 r.latency_ns)) (
        rw (append_assoc (encode_u64 r.elapsed_ns)) (
          rw (from_le_bytes-to_le_bytes 2 r.sample_index h.index_range) (
            rw (from_le_bytes-to_le_bytes 4 r.offset_us h.offset_range)
              (read_optional-encode _ _ _ _ _ _ _ _ h.latency_range h.elapsed_range))))))
