-- ===== src/Core/Ids.antt =====
-- crates/kemuri-core/src/ids.rs: the identifiers that `define_id!` declares, which all have the
-- constructor `new` over `validate_id`. An error keeps which of the two messages it carries.
mod Tests
use kemuri.Base.{ℕ, ◌≤◌, ◌<◌, ◌≡◌, ◌↔◌, arith, ltb, leb, if◌then◌else◌, not, true, false}
use kemuri.Base.{
  List, [], ◌∷◌, ◌⊎◌, Bool, ◌&&◌, ◌||◌, ◌==◌, all, is_empty, length, All, refl, ap, sym,
}
use kemuri.Base.Text.{Text, is_ascii_digit, utf8_len, utf8_width}

-- `bad_length` names the identifier's type and the length in bytes, `bad_characters` its type.
pub data IdParseError : Type 0 where
  bad_length : Text → ℕ → IdParseError
  bad_characters : Text → IdParseError

pub record Identifier : Type 0 where
  pub text : Text

pub data Result (A : Type 0) : Type 0 where
  ok : A → Result A
  err : IdParseError → Result A

infixl 5 ◌>>◌
abbrev ◌>>◌ : {A : Type 0} → Result (Unit {0}) → Result A → Result A
ok u >> k = k
err e >> k = err e

id_char : ℕ → Bool
id_char c = (leb 97 c && leb c 122) || is_ascii_digit c || c == b'.' || c == b'_' || c == b'-'

validate_id : Text → Text → Result (Unit {0})
unfolding id_char
validate_id name value =
    if is_empty value || ltb 64 (utf8_len value)
    then err (bad_length name (utf8_len value))
    else if not (all id_char value)
    then err (bad_characters name)
    else ok tt

unfoldable pub new : Text → Text → Result Identifier
unfolding validate_id
new name value = do validate_id name value; ok (record { text = value })

-- `Result::is_ok`
abbrev pub accepted : {A : Type 0} → Result A → Bool
accepted (ok a) = true
accepted (err e) = false

-- The characters and the length, in characters, that the identifiers are documented to have.
abbrev pub IsIdChar : ℕ → Type 0
IsIdChar c = ((97 ≤ c) × (c ≤ 122)) ⊎ ((48 ≤ c) × (c ≤ 57)) ⊎ (c ≡ 46) ⊎ (c ≡ 95) ⊎ (c ≡ 45)

pub record IsValidId (s : Text) : Type 0 where
  pub long_enough : 1 ≤ length s
  pub short_enough : length s ≤ 64
  pub characters : All IsIdChar s

id_char_iff : (c : ℕ) → (id_char c ≡ true) ↔ IsIdChar c
unfolding id_char
id_char_iff c = (λ h. ground arith, λ h. ground arith)

all_iff : (s : Text) → (all id_char s ≡ true) ↔ All IsIdChar s
all_iff [] = (λ h. tt, λ h. refl)
all_iff (c ∷ s) =
    let (to, from) = id_char_iff c in
    let (tos, froms) = all_iff s in
    (λ h. (to (ground arith), tos (ground arith)), λ h. ground (arith, from h.0, froms h.1))

IsIdChar-width : (c : ℕ) → IsIdChar c → utf8_width c ≡ 1
IsIdChar-width c h = ground arith

utf8_len-length : (s : Text) → All IsIdChar s → utf8_len s ≡ length s
utf8_len-length [] h = refl
utf8_len-length (c ∷ s) h = omega (arith, IsIdChar-width c h.0, utf8_len-length s h.1)

length-le-utf8_len : (s : Text) → length s ≤ utf8_len s
length-le-utf8_len [] = omega arith
length-le-utf8_len (c ∷ s) = ground (arith, length-le-utf8_len s)

-- `new` returns an identifier exactly for the texts of 1 to 64 characters, each a lowercase ASCII
-- letter, an ASCII digit, a dot, an underscore or a dash, and this identifier keeps the text as it
-- is.
pub new_iff :
    (name s : Text) (id : Identifier) → (new name s ≡ ok id) ↔ (IsValidId s × (id.text ≡ s))
unfolding new validate_id
new_iff name [] id = (λ h. cc, λ v. absurd (omega (arith, v.0.long_enough)))
new_iff name (c ∷ s) id = (to, from)
  where
    to : new name (c ∷ s) ≡ ok id → IsValidId (c ∷ s) × (id.text ≡ c ∷ s)
    to h = (
      record {
        long_enough = omega arith;
        short_enough = ground (arith, length-le-utf8_len (c ∷ s));
        characters = (all_iff (c ∷ s)).0 (ground arith);
      },
      ground arith,
    )

    from : IsValidId (c ∷ s) × (id.text ≡ c ∷ s) → new name (c ∷ s) ≡ ok id
    from (v, e) =
        let short : ltb 64 (utf8_len (c ∷ s)) ≡ false =
          ground (arith, utf8_len-length (c ∷ s) v.characters, v.short_enough) in
        rw (short, (all_iff (c ∷ s)).1 v.characters)
          (ap (λ (t : Text). ok (record { text = t })) (sym e))
