-- ===== src/Base/Text.antt =====
-- Rust text as the list of its Unicode scalar values, with `trim`, `str::len` and integer parsing
-- of the standard library.
use kemuri.Base.{ℕ, ◌+◌, ◌-◌, ◌*◌, ◌≤◌, ◌<◌, ◌≡◌, refl, arith, ltb, leb, ◌==◌}
use kemuri.Base.{if◌then◌else◌, Bool, true, false, ◌&&◌, ◌||◌, Option, none, some}
use kemuri.Base.{List, [], ◌∷◌, reverse, ◌↔◌, all}
use kemuri.Base.{◌++◌, ap, sym, ◌∙◌}
use mathlib.Core.List.{reverse-append, reverse-reverse}
use kemuri.Base.{zero, suc, ◌/◌, ◌%◌, ◌^◌, Bool-cases, inl, inr}
use native.Mathlib.Nat.{pow-suc}
use Prim.Native.Char.{code}
use Prim.Native.String.{String}

abbrev pub Text : Type 0
Text = List ℕ

abbrev pub codes : String → Text
codes String.[] = []
codes (String.◌∷◌ c s) = code c ∷ codes s

abbrev pub text_eq : Text → Text → Bool
text_eq [] [] = true
text_eq [] (d ∷ t) = false
text_eq (c ∷ s) [] = false
text_eq (c ∷ s) (d ∷ t) = c == d && text_eq s t

pub text_eq_iff : (s t : Text) → (text_eq s t ≡ true) ↔ (s ≡ t)
text_eq_iff [] [] = ground arith
text_eq_iff [] (d ∷ t) = ground arith
text_eq_iff (c ∷ s) [] = ground arith
text_eq_iff (c ∷ s) (d ∷ t) = ground (arith, text_eq_iff s t)

pub text_eq_refl : (s : Text) → text_eq s s ≡ true
text_eq_refl s = (text_eq_iff s s).1 refl

-- `char::is_ascii_digit`
abbrev pub is_ascii_digit : ℕ → Bool
is_ascii_digit c = leb 48 c && leb c 57

-- `char::is_whitespace`: the Unicode property White_Space.
abbrev pub is_whitespace : ℕ → Bool
is_whitespace c =
    (leb 9 c && leb c 13)
    || c == 32
    || c == 0x85
    || c == 0xA0
    || c == 0x1680
    || (leb 0x2000 c && leb c 0x200A)
    || c == 0x2028
    || c == 0x2029
    || c == 0x202F
    || c == 0x205F
    || c == 0x3000

unfoldable pub trim_start : Text → Text
trim_start [] = []
trim_start (c ∷ s) = if is_whitespace c then trim_start s else c ∷ s

-- `str::trim`
unfoldable pub trim : Text → Text
unfolding trim_start
trim s = reverse (trim_start (reverse (trim_start s)))

-- The bytes that UTF-8 takes for a scalar value, and `str::len`.
abbrev pub utf8_width : ℕ → ℕ
utf8_width c = if ltb c 0x80 then 1 else if ltb c 0x800 then 2 else if ltb c 0x10000 then 3 else 4

abbrev pub utf8_len : Text → ℕ
utf8_len [] = 0
utf8_len (c ∷ s) = utf8_width c + utf8_len s

-- The digits of `from_str_radix(10)` with its checked multiplication and addition.
unfoldable pub parse_digits : ℕ → ℕ → Text → Option ℕ
parse_digits bound acc [] = some acc
parse_digits bound acc (c ∷ s) =
    let acc' = acc * 10 + (c - 48) in
    let rest = parse_digits bound acc' s in
    if is_ascii_digit c then (if ltb acc' bound then rest else none) else none

-- `str::parse` for an unsigned type whose values lie below `bound`: one leading `+` is allowed.
unfoldable pub parse_uint : ℕ → Text → Option ℕ
unfolding parse_digits
parse_uint bound [] = none
parse_uint bound (c ∷ []) = parse_digits bound 0 (c ∷ [])
parse_uint bound (c ∷ d ∷ s) =
    if c == 43 then parse_digits bound 0 (d ∷ s) else parse_digits bound 0 (c ∷ d ∷ s)

-- The number that a row of decimal digits stands for, read after `acc`.
abbrev pub decimal : ℕ → Text → ℕ
decimal acc [] = acc
decimal acc (c ∷ s) = decimal (acc * 10 + (c - 48)) s

abbrev pub is_digits : Text → Bool
is_digits = all is_ascii_digit

decimal_grows : (acc : ℕ) (s : Text) → acc ≤ decimal acc s
decimal_grows acc [] = omega arith
decimal_grows acc (c ∷ s) = omega (arith, decimal_grows (acc * 10 + (c - 48)) s)

parse_digits-decimal :
    (bound acc : ℕ) (s : Text)
    → is_digits s ≡ true
    → acc < bound
    → parse_digits bound acc s ≡ (if ltb (decimal acc s) bound then some (decimal acc s) else none)
unfolding parse_digits
parse_digits-decimal bound acc [] h k = ground arith
parse_digits-decimal bound acc (c ∷ s) h k = ground (
  arith,
  decimal_grows (acc * 10 + (c - 48)) s,
  parse_digits-decimal bound (acc * 10 + (c - 48)) s,
)

-- On a non-empty row of digits the parser returns their value, unless it is out of range.
pub parse_uint-decimal :
    (bound : ℕ) (c : ℕ) (s : Text)
    → is_digits (c ∷ s) ≡ true
    → 0 < bound
    → parse_uint bound (c ∷ s)
      ≡ (if ltb (decimal 0 (c ∷ s)) bound then some (decimal 0 (c ∷ s)) else none)
unfolding parse_uint
parse_uint-decimal bound c [] h k = parse_digits-decimal bound 0 (c ∷ []) h k
parse_uint-decimal bound c (d ∷ s) h k = ground (arith, parse_digits-decimal bound 0 (c ∷ d ∷ s))

parse_digits-lt :
    (bound acc : ℕ) (s : Text) (n : ℕ) → acc < bound → parse_digits bound acc s ≡ some n → n < bound
unfolding parse_digits
parse_digits-lt bound acc [] n k h = ground arith
parse_digits-lt bound acc (c ∷ s) n k h =
    ground (arith, parse_digits-lt bound (acc * 10 + (c - 48)) s n)

-- What the parser returns is in range.
pub parse_uint-lt :
    (bound : ℕ) (s : Text) (n : ℕ) → 0 < bound → parse_uint bound s ≡ some n → n < bound
unfolding parse_uint
parse_uint-lt bound [] n k h = cc
parse_uint-lt bound (c ∷ []) n k h = parse_digits-lt bound 0 (c ∷ []) n k h
parse_uint-lt bound (c ∷ d ∷ s) n k h =
    ground (arith, parse_digits-lt bound 0 (d ∷ s) n k, parse_digits-lt bound 0 (c ∷ d ∷ s) n k)

trim_start_id : (c : ℕ) (t : Text) → is_whitespace c ≡ false → trim_start (c ∷ t) ≡ c ∷ t
unfolding trim_start
trim_start_id c t h = rw h

-- Text that begins and ends with other characters than white space is not trimmed.
pub trim_id :
    (c : ℕ) (t : Text) (d : ℕ)
    → is_whitespace c ≡ false
    → is_whitespace d ≡ false
    → trim (c ∷ (t ++ (d ∷ []))) ≡ c ∷ (t ++ (d ∷ []))
unfolding trim
trim_id c t d h k = rw (trim_start_id c (t ++ (d ∷ [])) h) (
    rw (reverse-append (c ∷ t) (d ∷ [])) (
      rw (trim_start_id d (reverse (c ∷ t)) k)
        (ap reverse (sym (reverse-append (c ∷ t) (d ∷ []))) ∙ reverse-reverse _)))

pub digit_not_space : (c : ℕ) → is_ascii_digit c ≡ true → is_whitespace c ≡ false
digit_not_space c h = ground arith

-- Decimal digits in front of `acc`, at most `fuel` of them.
print_digits : ℕ → ℕ → Text → Text
print_digits zero n acc = acc
print_digits (suc fuel) n acc =
    let rest = print_digits fuel (n / 10) ((48 + n % 10) ∷ acc) in
    if ltb n 10 then (48 + n) ∷ acc else rest

-- `Display` of an integer of 64 bits, which has 20 digits at most.
unfoldable pub print_decimal : ℕ → Text
unfolding print_digits
print_decimal n = print_digits 20 n []

decimal-print_digits :
    (fuel n : ℕ) (acc : Text) → n < 10 ^ fuel → decimal 0 (print_digits fuel n acc) ≡ decimal n acc
unfolding print_digits
decimal-print_digits zero n acc h = let e : n ≡ 0 = omega arith in rw e refl
decimal-print_digits (suc fuel) n acc h = elim (Bool-cases (ltb n 10)) [
  | inl small ↦ rw small (ap (λ (t : ℕ). decimal t acc) (omega arith))
  | inr large ↦
      let e : n / 10 * 10 + (48 + n % 10 - 48) ≡ n = omega arith in
      rw large (
        decimal-print_digits fuel (n / 10) ((48 + n % 10) ∷ acc) (omega (arith, pow-suc 10 fuel))
        ∙ ap (λ (t : ℕ). decimal t acc) e)
]

-- The printed digits of a 64-bit integer stand for it.
pub decimal-print_decimal : (n : ℕ) → n < 2 ^ 64 → decimal 0 (print_decimal n) ≡ n
unfolding print_decimal
decimal-print_decimal n h = decimal-print_digits 20 n [] (omega arith)
