-- ===== src/Core/Histogram/Codec.antt =====
-- `encode` and `decode` of crates/kemuri-core/src/histogram.rs.
use kemuri.Base.{ℕ, ◌*◌, ◌%◌, ◌<◌, ◌≤◌, ◌≡◌, refl, ap, sym, ◌∙◌, arith}
use kemuri.Base.{List, [], ◌∷◌, ◌++◌, length, Option, none, some, unwrap_or, length-append, drop}
use kemuri.Base.Bytes.{to_le_bytes, from_le_bytes-to_le_bytes}
use kemuri.Core.Histogram.{Histogram, u64_bound, num_bins, present, u64_at}
use kemuri.Core.Histogram.{encode_bins, encode, decode_bins, decode_from, decode}
use kemuri.Core.Histogram.Bins.{total}
use kemuri.Core.Histogram.Record.{Extremes, IsConsistent}
use mathlib.Core.Path.{ap₂}

length-encode_bins : (bs : List ℕ) → length (encode_bins bs) ≡ 8 * length bs
unfolding encode_bins
length-encode_bins [] = omega arith
length-encode_bins (b ∷ bs) = omega (arith, length-encode_bins bs)

decode_bins-encode_bins :
    (bs : List ℕ) (rest : List ℕ)
    → total bs < u64_bound
    → decode_bins (length bs) (encode_bins bs ++ rest) ≡ bs
unfolding decode_bins encode_bins
decode_bins-encode_bins [] rest h = refl
decode_bins-encode_bins (b ∷ bs) rest h =
    rw (from_le_bytes-to_le_bytes 8 b (omega arith))
      (rw (decode_bins-encode_bins bs rest (omega arith)) refl)

present_min : (n : ℕ) (lo hi : Option ℕ) → Extremes n lo hi → present (unwrap_or lo 0) n ≡ lo
present_min n none none h = ground arith
present_min n none (some b) h = absurd h
present_min n (some a) none h = absurd h
present_min n (some a) (some b) h = ground arith

present_max : (n : ℕ) (lo hi : Option ℕ) → Extremes n lo hi → present (unwrap_or hi 0) n ≡ hi
present_max n none none h = ground arith
present_max n none (some b) h = absurd h
present_max n (some a) none h = absurd h
present_max n (some a) (some b) h = ground arith

min_fits : (n : ℕ) (lo hi : Option ℕ) → Extremes n lo hi → unwrap_or lo 0 < u64_bound
min_fits n none none h = omega arith
min_fits n none (some b) h = absurd h
min_fits n (some a) none h = absurd h
min_fits n (some a) (some b) h = omega arith

max_fits : (n : ℕ) (lo hi : Option ℕ) → Extremes n lo hi → unwrap_or hi 0 < u64_bound
max_fits n none none h = omega arith
max_fits n none (some b) h = absurd h
max_fits n (some a) none h = absurd h
max_fits n (some a) (some b) h = omega arith

module _ (h : Histogram) (c : IsConsistent h) (rest : List ℕ) where
  body : List ℕ
  body =
      to_le_bytes 8 h.count
      ++ (to_le_bytes 8 h.sum
          ++ (to_le_bytes 8 (unwrap_or h.min_ns 0)
              ++ (to_le_bytes 8 (unwrap_or h.max_ns 0) ++ encode_bins h.bins)))

  count_read : u64_at 0 (body ++ rest) ≡ h.count
  unfolding body
  count_read = from_le_bytes-to_le_bytes 8 h.count c.fits

  sum_read : u64_at 8 (body ++ rest) ≡ h.sum
  unfolding body
  sum_read = from_le_bytes-to_le_bytes 8 h.sum c.sum_fits

  min_read : u64_at 16 (body ++ rest) ≡ unwrap_or h.min_ns 0
  unfolding body
  min_read = from_le_bytes-to_le_bytes 8 _ (min_fits h.count h.min_ns h.max_ns c.extremes)

  max_read : u64_at 24 (body ++ rest) ≡ unwrap_or h.max_ns 0
  unfolding body
  max_read = from_le_bytes-to_le_bytes 8 _ (max_fits h.count h.min_ns h.max_ns c.extremes)

  bins_read : decode_bins num_bins (drop 32 (body ++ rest)) ≡ h.bins
  unfolding body
  bins_read = rw (← c.full) (decode_bins-encode_bins h.bins rest (omega (arith, c.counted, c.fits)))

  body-length : 816 ≤ length (body ++ rest)
  unfolding body
  body-length =
      rw (length-append (encode_bins h.bins) rest, length-encode_bins h.bins, c.full) (omega arith)

  decode_from-body : decode_from (body ++ rest) 1 ≡ h
  unfolding decode_from
  decode_from-body = λ i. record {
    version = sym c.versioned i;
    bins = bins_read i;
    min_ns = (ap₂ present min_read count_read ∙ present_min h.count h.min_ns h.max_ns c.extremes) i;
    max_ns = (ap₂ present max_read count_read ∙ present_max h.count h.min_ns h.max_ns c.extremes) i;
    sum = sum_read i;
    count = count_read i;
  }

decode-cons :
    (v : ℕ) (bytes : List ℕ) → 816 ≤ length bytes → decode (v ∷ bytes) ≡ some (decode_from bytes v)
unfolding decode
decode-cons v bytes h = ground arith

-- A consistent histogram is read back from its encoding, whatever bytes follow.
pub decode-encode :
    (h : Histogram) (rest : List ℕ) → IsConsistent h → decode (encode h ++ rest) ≡ some h
unfolding encode body
decode-encode h rest c =
    decode-cons (h.version % 256) (body h c rest ++ rest) (body-length h c rest)
    ∙ ap (λ (v : ℕ). some (decode_from (body h c rest ++ rest) (v % 256))) c.versioned
    ∙ ap {B = Option Histogram} some (decode_from-body h c rest)
