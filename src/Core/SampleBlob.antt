-- ===== src/Core/SampleBlob.antt =====
-- crates/kemuri-core/src/sample_blob.rs: the binary format of a round's samples. A byte is a number
-- below 256; the list that decoding reads is what stands at `offset` and behind it.
pub mod Records
pub mod RoundTrip
pub mod Prefix
mod Tests
use kemuri.Base.{ℕ, zero, suc, ◌+◌, ◌%◌, ◌^◌, Bool, true, false, if◌then◌else◌, ltb, ◌==◌}
use kemuri.Base.{Option, none, some, List, [], ◌∷◌, ◌++◌, length, take, drop}
use kemuri.Base.Bytes.{to_le_bytes, from_le_bytes}
use kemuri.Core.Kinds.{SampleClassification, healthy_response, unhealthy_response, measurement_loss}
use kemuri.Core.Kinds.{SampleOutcome, success, timeout, dns_error, network_unreachable}
use kemuri.Core.Kinds.{connection_refused, connection_reset, tls_error, protocol_error}
use kemuri.Core.Kinds.{unexpected_response, permission_denied, outcome_cancelled}
use kemuri.Core.Kinds.{outcome_internal_error}
use Prim.Native.Nat.{bit_and, bit_or}

pub record SampleRecord : Type 0 where
  pub sample_index : ℕ  -- u16
  pub offset_us : ℕ  -- u32
  pub outcome : SampleOutcome
  pub classification : SampleClassification
  pub latency_ns : Option ℕ  -- u64
  pub elapsed_ns : Option ℕ  -- u64
  pub metadata : Option (List ℕ)

abbrev pub encoding_version : ℕ
encoding_version = 1

abbrev pub flag_has_latency : ℕ
flag_has_latency = 0x01

abbrev pub flag_has_elapsed : ℕ
flag_has_elapsed = 0x02

abbrev pub flag_has_metadata : ℕ
flag_has_metadata = 0x04

pub outcome_to_discriminant : SampleOutcome → ℕ
outcome_to_discriminant success = 0
outcome_to_discriminant timeout = 1
outcome_to_discriminant dns_error = 2
outcome_to_discriminant network_unreachable = 3
outcome_to_discriminant connection_refused = 4
outcome_to_discriminant connection_reset = 5
outcome_to_discriminant tls_error = 6
outcome_to_discriminant protocol_error = 7
outcome_to_discriminant unexpected_response = 8
outcome_to_discriminant permission_denied = 9
outcome_to_discriminant outcome_cancelled = 10
outcome_to_discriminant outcome_internal_error = 11

pub outcome_from_discriminant : ℕ → Option SampleOutcome
outcome_from_discriminant v =
    if v == 0
    then some success
    else if v == 1
    then some timeout
    else if v == 2
    then some dns_error
    else if v == 3
    then some network_unreachable
    else if v == 4
    then some connection_refused
    else if v == 5
    then some connection_reset
    else if v == 6
    then some tls_error
    else if v == 7
    then some protocol_error
    else if v == 8
    then some unexpected_response
    else if v == 9
    then some permission_denied
    else if v == 10
    then some outcome_cancelled
    else if v == 11
    then some outcome_internal_error
    else none

pub classification_to_discriminant : SampleClassification → ℕ
classification_to_discriminant healthy_response = 0
classification_to_discriminant unhealthy_response = 1
classification_to_discriminant measurement_loss = 2

pub classification_from_discriminant : ℕ → Option SampleClassification
classification_from_discriminant v =
    if v == 0
    then some healthy_response
    else if v == 1
    then some unhealthy_response
    else if v == 2
    then some measurement_loss
    else none

-- `flags |= flag` if the value is there.
abbrev pub add_flag : {A : Type 0} → ℕ → Option A → ℕ → ℕ
add_flag flag none flags = flags
add_flag flag (some x) flags = bit_or flags flag

pub record_flags : SampleRecord → ℕ
record_flags r =
    add_flag flag_has_metadata r.metadata
      (add_flag flag_has_elapsed r.elapsed_ns (add_flag flag_has_latency r.latency_ns 0))

pub encode_u64 : Option ℕ → List ℕ
encode_u64 none = []
encode_u64 (some v) = to_le_bytes 8 v

-- `meta.len() as u16` keeps the low sixteen bits of the length.
pub encode_metadata : Option (List ℕ) → List ℕ
encode_metadata none = []
encode_metadata (some bytes) = to_le_bytes 2 (length bytes % 2 ^ 16) ++ bytes

-- One round of the loop of `encode_samples`.
pub encode_record : SampleRecord → List ℕ
encode_record r =
    to_le_bytes 2 r.sample_index
    ++ (to_le_bytes 4 r.offset_us
        ++ (outcome_to_discriminant r.outcome
            ∷ classification_to_discriminant r.classification
            ∷ record_flags r
            ∷ (encode_u64 r.latency_ns ++ (encode_u64 r.elapsed_ns ++ encode_metadata r.metadata))))

pub encode_records : List SampleRecord → List ℕ
encode_records [] = []
encode_records (r ∷ rs) = encode_record r ++ encode_records rs

-- `records.len() as u16` keeps the low sixteen bits of the count.
unfoldable pub encode_samples : List SampleRecord → List ℕ
unfolding encode_records encode_record
encode_samples records =
    encoding_version ∷ (to_le_bytes 2 (length records % 2 ^ 16) ++ encode_records records)

pub data SampleBlobError : Type 0 where
  unsupported_version : ℕ → SampleBlobError
  invalid_outcome : ℕ → SampleBlobError
  invalid_classification : ℕ → SampleBlobError
  truncated : SampleBlobError

pub data Result (A : Type 0) : Type 0 where
  ok : A → Result A
  err : SampleBlobError → Result A

infixl 5 ◌>>=◌
abbrev pub ◌>>=◌ : {A B : Type 0} → Result A → (A → Result B) → Result B
ok a >>= f = f a
err e >>= f = err e

-- `.ok_or(e)?`
abbrev pub ok_or : {A : Type 0} → Option A → SampleBlobError → Result A
ok_or none e = err e
ok_or (some a) e = ok a

-- The next `n` bytes and the rest, or `truncated`.
pub read : ℕ → List ℕ → Result (List ℕ × List ℕ)
read n bytes = if ltb (length bytes) n then err truncated else ok (take n bytes, drop n bytes)

abbrev pub has_flag : ℕ → ℕ → Bool
has_flag flags flag = if bit_and flags flag == 0 then false else true

pub read_u64 : Bool → List ℕ → Result (Option ℕ × List ℕ)
read_u64 false bytes = ok (none, bytes)
read_u64 true bytes = do (v, rest) ← read 8 bytes; ok (some (from_le_bytes v), rest)

pub read_metadata : Bool → List ℕ → Result (Option (List ℕ) × List ℕ)
read_metadata false bytes = ok (none, bytes)
read_metadata true bytes = do
  (len, rest) ← read 2 bytes
  (meta, rest') ← read (from_le_bytes len) rest
  ok (some meta, rest')

-- The fields behind the nine bytes that begin a record.
pub read_optional :
    ℕ → ℕ → SampleOutcome → SampleClassification → ℕ → List ℕ → Result (SampleRecord × List ℕ)
unfolding read_u64 read_metadata
read_optional sample_index offset_us outcome classification flags bytes = do
  (latency_ns, rest) ← read_u64 (has_flag flags flag_has_latency) bytes
  (elapsed_ns, rest') ← read_u64 (has_flag flags flag_has_elapsed) rest
  (metadata, rest'') ← read_metadata (has_flag flags flag_has_metadata) rest'
  ok (
    record {
      sample_index = sample_index;
      offset_us = offset_us;
      outcome = outcome;
      classification = classification;
      latency_ns = latency_ns;
      elapsed_ns = elapsed_ns;
      metadata = metadata;
    },
    rest'',
  )

-- One round of the loop of `decode_samples`.
pub decode_record : List ℕ → Result (SampleRecord × List ℕ)
unfolding read_optional
decode_record (i0 ∷ i1 ∷ o0 ∷ o1 ∷ o2 ∷ o3 ∷ outcome_disc ∷ class_disc ∷ flags ∷ bytes) = do
  outcome ← ok_or (outcome_from_discriminant outcome_disc) (invalid_outcome outcome_disc)
  classification ←
      ok_or (classification_from_discriminant class_disc) (invalid_classification class_disc)
  read_optional (from_le_bytes (i0 ∷ i1 ∷ [])) (from_le_bytes (o0 ∷ o1 ∷ o2 ∷ o3 ∷ [])) outcome
      classification flags bytes
decode_record _ = err truncated

-- The loop with `count` rounds left, and the bytes that it leaves.
pub decode_records : ℕ → List ℕ → Result (List SampleRecord × List ℕ)
decode_records zero bytes = ok ([], bytes)
decode_records (suc count) bytes = do
  (r, rest) ← decode_record bytes
  (rs, rest') ← decode_records count rest
  ok (r ∷ rs, rest')

pub decode_version_1 : List ℕ → Result (List SampleRecord)
unfolding decode_records
decode_version_1 (c0 ∷ c1 ∷ bytes) = do
  (records, rest) ← decode_records (from_le_bytes (c0 ∷ c1 ∷ [])) bytes
  ok records
decode_version_1 _ = err truncated

unfoldable pub decode_samples : List ℕ → Result (List SampleRecord)
unfolding decode_version_1
decode_samples [] = err truncated
decode_samples (version ∷ bytes) =
    if version == encoding_version
    then decode_version_1 bytes
    else err (unsupported_version version)
