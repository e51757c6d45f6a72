-- ===== src/Core/SampleBlob/Tests.antt =====
-- The theorems on crates/kemuri-core/src/sample_blob.rs at two records.
use kemuri.Base.{◌%◌, ◌^◌, ◌≡◌, refl, arith, none, some, [], ◌∷◌, ◌++◌, length, take, All}
use kemuri.Base.Bytes.{to_le_bytes}
use kemuri.Core.Kinds.{success, timeout, healthy_response, measurement_loss}
use kemuri.Core.SampleBlob.{
  SampleRecord, ok, err, truncated, encode_record, encode_records, encode_samples, decode_record,
  decode_samples,
}
use kemuri.Core.SampleBlob.{
  outcome_to_discriminant, classification_to_discriminant, record_flags, encode_u64,
  encode_metadata,
}
use kemuri.Core.SampleBlob.Records.{InRange, kept, left_over, decode_record-encode_record}
use kemuri.Core.SampleBlob.RoundTrip.{
  Encodable, decode_samples-encode_samples, decode_samples-encode_samples_one,
}
use kemuri.Core.SampleBlob.Prefix.{decode_samples_prefix}

abbrev reply : SampleRecord
reply = record {
  sample_index = 0;
  offset_us = 12;
  outcome = success;
  classification = healthy_response;
  latency_ns = some 1_500_000;
  elapsed_ns = some 1_600_000;
  metadata = some (200 ∷ 1 ∷ []);
}

abbrev lost : SampleRecord
lost = record {
  sample_index = 1;
  offset_us = 1_000_012;
  outcome = timeout;
  classification = measurement_loss;
  latency_ns = none;
  elapsed_ns = none;
  metadata = none;
}

reply-InRange : InRange reply
reply-InRange = record {
  index_range = omega arith;
  offset_range = omega arith;
  latency_range = omega arith;
  elapsed_range = omega arith;
}

lost-InRange : InRange lost
lost-InRange = record {
  index_range = omega arith;
  offset_range = omega arith;
  latency_range = tt;
  elapsed_range = tt;
}

both-Encodable : All Encodable (reply ∷ lost ∷ [])
both-Encodable = (
  record { in_range = reply-InRange; fits = omega arith },
  (record { in_range = lost-InRange; fits = tt }, tt),
)

decode_record-encode_record_example :
    decode_record (encode_record reply ++ (7 ∷ []))
    ≡ ok (record reply { metadata = kept reply.metadata }, left_over reply.metadata (7 ∷ []))
decode_record-encode_record_example = decode_record-encode_record reply (7 ∷ []) reply-InRange

decode_samples-encode_samples_example :
    decode_samples (encode_samples (reply ∷ lost ∷ []) ++ (9 ∷ []))
    ≡ ok (take (length (reply ∷ lost ∷ []) % 2 ^ 16) (reply ∷ lost ∷ []))
decode_samples-encode_samples_example =
    decode_samples-encode_samples (reply ∷ lost ∷ []) (9 ∷ []) both-Encodable

decode_samples-encode_samples_one_example :
    decode_samples (encode_samples (reply ∷ []))
    ≡ ok (record reply { metadata = kept reply.metadata } ∷ [])
decode_samples-encode_samples_one_example = decode_samples-encode_samples_one reply reply-InRange

-- The encoding of `lost` alone, less its last byte.
encoded :
    encode_samples (lost ∷ [])
    ≡ (1 ∷ to_le_bytes 2 1 ++ (1 ∷ 0 ∷ 76 ∷ 66 ∷ 15 ∷ 0 ∷ 1 ∷ 2 ∷ [])) ++ (0 ∷ [])
unfolding encode_samples encode_records encode_record outcome_to_discriminant
    classification_to_discriminant record_flags encode_u64 encode_metadata
encoded = refl

decode_samples_prefix_example :
    decode_samples (1 ∷ to_le_bytes 2 1 ++ (1 ∷ 0 ∷ 76 ∷ 66 ∷ 15 ∷ 0 ∷ 1 ∷ 2 ∷ [])) ≡ err truncated
decode_samples_prefix_example =
    decode_samples_prefix (lost ∷ [])
      (1 ∷ to_le_bytes 2 1 ++ (1 ∷ 0 ∷ 76 ∷ 66 ∷ 15 ∷ 0 ∷ 1 ∷ 2 ∷ [])) 0 [] (both-Encodable.1.0, tt)
      (omega arith) encoded
