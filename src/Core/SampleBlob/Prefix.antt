-- ===== src/Core/SampleBlob/Prefix.antt =====
-- How `decode_samples` of crates/kemuri-core/src/sample_blob.rs meets the end of its input.
use kemuri.Base.{ℕ, zero, suc, ◌/◌, ◌%◌, ◌^◌, ◌<◌, ◌≡◌, ◌⊎◌, inl, inr, refl, sym, ◌∙◌, arith}
use kemuri.Base.{Option, none, some, List, [], ◌∷◌, ◌++◌, length, All, Bool, true, false}
use kemuri.Base.{ltb, length-append, Bool-cases}
use kemuri.Base.Bytes.{to_le_bytes, from_le_bytes, from_le_bytes-to_le_bytes}
use kemuri.Core.Kinds.{SampleOutcome, SampleClassification}
use kemuri.Core.SampleBlob.{SampleRecord, Result, ok, err, ◌>>=◌, truncated, read, read_u64}
use kemuri.Core.SampleBlob.{has_flag, flag_has_latency, flag_has_elapsed, flag_has_metadata}
use kemuri.Core.SampleBlob.{outcome_from_discriminant, classification_from_discriminant}
use kemuri.Core.SampleBlob.{invalid_outcome, invalid_classification}
use kemuri.Core.SampleBlob.{ok_or, read_metadata, read_optional, SampleBlobError}
use kemuri.Core.SampleBlob.{encode_records, encode_samples}
use kemuri.Core.SampleBlob.{decode_record, decode_records, decode_version_1, decode_samples}
use kemuri.Core.SampleBlob.Records.{take-append, drop-append, take-length, drop-length}
use kemuri.Core.SampleBlob.RoundTrip.{Encodable, decode_records-encode_records}
use native.Mathlib.Nat.{mod-eq_of_lt}
use mathlib.Core.List.{append-nil}

-- A reader's answer on a longer input: what is added behind joins the rest.
abbrev extend : {A : Type 0} → Result (A × List ℕ) → List ℕ → Result (A × List ℕ)
extend (ok (a, rest)) more = ok (a, rest ++ more)
extend (err e) more = err e

-- Only `truncated` may become another answer when bytes are added.
abbrev Extends : {A : Type 0} → (List ℕ → Result (A × List ℕ)) → Type 0
Extends p = (xs more : List ℕ) → (p xs ≡ err truncated) ⊎ (p (xs ++ more) ≡ extend (p xs) more)

module _ {A B : Type 0} (p : List ℕ → Result (A × List ℕ)) (f : A → List ℕ → Result (B × List ℕ))
    (hp : Extends p) (hf : (a : A) → Extends (f a)) where
  go :
      (xs more : List ℕ) (q : Result (A × List ℕ))
      → p (xs ++ more) ≡ extend q more
      → ((q >>= λ x. f x.0 x.1) ≡ err truncated)
        ⊎ ((p (xs ++ more) >>= λ x. f x.0 x.1) ≡ extend (q >>= λ x. f x.0 x.1) more)
  go xs more (ok (a, r)) e = elim (hf a r more) [ inl h ↦ inl h | inr h ↦ inr (rw e h) ]
  go xs more (err x) e = inr (rw e refl)

  bind-Extends : Extends (λ xs. p xs >>= λ x. f x.0 x.1)
  bind-Extends xs more = elim (hp xs more) [ inl h ↦ inl (rw h refl) | inr h ↦ go xs more (p xs) h ]

ok-Extends : {A : Type 0} (a : A) → Extends (λ xs. ok (a, xs))
ok-Extends a xs more = inr refl

read-Extends : (n : ℕ) → Extends (read n)
unfolding read
read-Extends n xs more = elim (Bool-cases (ltb (length xs) n)) [
  | inl h ↦ inl (rw h refl)
  | inr h ↦
      inr (ground (arith, length-append xs more, take-append n xs more, drop-append n xs more))
]

read_u64-Extends : (b : Bool) → Extends (read_u64 b)
unfolding read_u64
read_u64-Extends false = ok-Extends none
read_u64-Extends true = bind-Extends (read 8) _ (read-Extends 8) (λ v. ok-Extends _)

read_metadata-Extends : (b : Bool) → Extends (read_metadata b)
unfolding read_metadata
read_metadata-Extends false = ok-Extends none
read_metadata-Extends true =
    bind-Extends (read 2) _ (read-Extends 2)
      (λ len. bind-Extends (read (from_le_bytes len)) _ (read-Extends _) (λ m. ok-Extends _))

read_optional-Extends :
    (i o : ℕ) (oc : SampleOutcome) (cl : SampleClassification) (flags : ℕ)
    → Extends (read_optional i o oc cl flags)
unfolding read_optional
read_optional-Extends i o oc cl flags =
    let l = has_flag flags flag_has_latency in
    let e = has_flag flags flag_has_elapsed in
    let m = has_flag flags flag_has_metadata in
    bind-Extends (read_u64 l) _ (read_u64-Extends l) (λ a.
      bind-Extends (read_u64 e) _ (read_u64-Extends e) (λ b.
        bind-Extends (read_metadata m) _ (read_metadata-Extends m) (λ c. ok-Extends (record {
          sample_index = i;
          offset_us = o;
          outcome = oc;
          classification = cl;
          latency_ns = a;
          elapsed_ns = b;
          metadata = c;
        }))))

-- A byte's meaning, or an error, before a reader.
ok_or-Extends :
    {A B : Type 0} (o : Option A) (e : SampleBlobError) (f : A → List ℕ → Result (B × List ℕ))
    → ((a : A) → Extends (f a))
    → Extends (λ xs. ok_or o e >>= λ a. f a xs)
ok_or-Extends none e f h xs more = inr refl
ok_or-Extends (some a) e f h xs more = h a xs more

decode_record-Extends : Extends decode_record
unfolding decode_record
decode_record-Extends (i0 ∷ i1 ∷ o0 ∷ o1 ∷ o2 ∷ o3 ∷ oc ∷ cl ∷ flags ∷ xs) more =
    ok_or-Extends (outcome_from_discriminant oc) (invalid_outcome oc)
      (λ o ys. ok_or (classification_from_discriminant cl) (invalid_classification cl) >>= λ c.
        read_optional (from_le_bytes (i0 ∷ i1 ∷ [])) (from_le_bytes (o0 ∷ o1 ∷ o2 ∷ o3 ∷ [])) o c
          flags ys)
      (λ o.
        ok_or-Extends (classification_from_discriminant cl) (invalid_classification cl) _
          (λ c. read_optional-Extends _ _ o c flags))
      xs more
decode_record-Extends _ more = inl refl

decode_records-Extends : (n : ℕ) → Extends (decode_records n)
unfolding decode_records
decode_records-Extends zero = ok-Extends []
decode_records-Extends (suc n) =
    bind-Extends decode_record _ decode_record-Extends (λ r.
      bind-Extends (decode_records n) _ (decode_records-Extends n) (λ rs. ok-Extends (r ∷ rs)))

-- A reader that takes all of a list answers `truncated` on every proper prefix of it.
Extends-prefix :
    {A : Type 0} (p : List ℕ → Result (A × List ℕ)) (front : List ℕ) (x : ℕ) (back : List ℕ) {a : A}
    → Extends p
    → p (front ++ (x ∷ back)) ≡ ok (a, [])
    → p front ≡ err truncated
Extends-prefix {A} p front x back {a} h e = elim (h front (x ∷ back)) [
  | inl t ↦ t
  | inr t ↦ absurd (whole (p front) (sym e ∙ t))
]
  where
    whole : (q : Result (A × List ℕ)) → ok (a, []) ≡ extend q (x ∷ back) → ⊥
    whole (ok (b, [])) d = cc
    whole (ok (b, (y ∷ ys))) d = cc
    whole (err w) d = cc

records_prefix :
    (rs : List SampleRecord) (front : List ℕ) (x : ℕ) (back : List ℕ)
    → All Encodable rs
    → length rs < 2 ^ 16
    → encode_records rs ≡ front ++ (x ∷ back)
    → decode_records (length rs) front ≡ err truncated
unfolding encode_records
records_prefix rs front x back a h e =
    Extends-prefix (decode_records (length rs)) front x back {a = rs} (decode_records-Extends _)
      (rw (← e) whole)
  where
    whole : decode_records (length rs) (encode_records rs) ≡ ok (rs, [])
    whole =
        rw (append-nil, take-length, drop-length) at
          (decode_records-encode_records (length rs) rs [] (omega arith) a)

body_prefix :
    (rs : List SampleRecord) (front : List ℕ) (x : ℕ) (back : List ℕ)
    → All Encodable rs
    → length rs < 2 ^ 16
    → to_le_bytes 2 (length rs % 2 ^ 16) ++ encode_records rs ≡ front ++ (x ∷ back)
    → decode_version_1 front ≡ err truncated
unfolding decode_version_1
body_prefix rs [] x back a h e = refl
body_prefix rs (c0 ∷ []) x back a h e = refl
body_prefix rs (c0 ∷ c1 ∷ front) x back a h e =
    let e0 : c0 ≡ length rs % 2 ^ 16 % 256 = cc in
    let e1 : c1 ≡ length rs % 2 ^ 16 / 256 % 256 = cc in
    let rest : encode_records rs ≡ front ++ (x ∷ back) = cc in
    rw (e0, e1)
      (rw (from_le_bytes-to_le_bytes 2 (length rs % 2 ^ 16) (omega arith))
        (rw (mod-eq_of_lt h) (rw (records_prefix rs front x back a h rest) refl)))

-- Every proper prefix of the encoding of a list of fewer than 2 ^ 16 records, whose fields are in
-- range and whose metadata is shorter than 2 ^ 16 bytes, is refused as truncated.
pub decode_samples_prefix :
    (rs : List SampleRecord) (front : List ℕ) (x : ℕ) (back : List ℕ)
    → All Encodable rs
    → length rs < 2 ^ 16
    → encode_samples rs ≡ front ++ (x ∷ back)
    → decode_samples front ≡ err truncated
unfolding decode_samples encode_samples
decode_samples_prefix rs [] x back a h e = refl
decode_samples_prefix rs (v ∷ front) x back a h e =
    let e0 : v ≡ 1 = cc in
    let rest : to_le_bytes 2 (length rs % 2 ^ 16) ++ encode_records rs ≡ front ++ (x ∷ back) = cc in
    rw e0 (body_prefix rs front x back a h rest)
