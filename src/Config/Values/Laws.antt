-- ===== src/Config/Values/Laws.antt =====
-- What the checks of values in crates/kemuri-config/src/lib.rs ensure.
use kemuri.Base.{ℕ, ◌^◌, ◌≡◌, ◌≤◌, ◌∙◌, refl, sym, ap, arith, true, not, ◌||◌, ◌==◌, ltb}
use kemuri.Base.{Option, none, some, unwrap_or, [], ◌∷◌, ◌++◌, reverse, inl, inr, Bool-cases}
use kemuri.Base.Text.{Text, codes, parse_uint}
use kemuri.Base.Float.{Float}
use kemuri.Alerts.Rule.{parse_threshold, drop_percents, ends_with_percent}
use kemuri.Config.Error.{
  ok, refuse_if, or_refuse, ok-bind, ok-then, ok-refuse_if, ok-or_refuse, ok-injective,
}
use kemuri.Config.Types.{HttpStatusExpectation, status, range}
use kemuri.Config.Values.{
  strip_reversed, strip_percent, split_dash, is_status, resolve_status, parse_percentage_value,
  within_percent,
}
use mathlib.Core.List.{reverse-reverse, reverse-cons}

ends_with_percent-append : (s : Text) (c : ℕ) → ends_with_percent (s ++ (c ∷ [])) ≡ (c == 37)
unfolding ends_with_percent
ends_with_percent-append [] c = refl
ends_with_percent-append (d ∷ []) c = refl
ends_with_percent-append (d ∷ e ∷ s) c = ends_with_percent-append (e ∷ s) c

-- A text that has a percent sign to strip, from its end.
strip_reversed-some :
    (r digits : Text)
    → strip_reversed r ≡ some digits
    → (rest : Text) × (r ≡ 37 ∷ rest) × (reverse rest ≡ digits)
strip_reversed-some [] digits h = ground (arith, h)
strip_reversed-some (c ∷ r) digits h = elim (Bool-cases (c == 37)) [
  | inl e ↦
      let same : c ≡ 37 = ground (arith, e) in
      let kept : some (reverse r) ≡ some digits = (simp e at h) in
      (r, ap (λ d. d ∷ r) same, ap (λ o. unwrap_or o (reverse r)) kept)
  | inr e ↦ ground (arith, h, e)
]

module _ (f : Float) where
  open f use {F64, literal, div, parse}

  -- A number that is read has no percent sign at its end.
  drop_percents-reverse :
      (r : Text) (n : F64)
      → ((s : Text) → parse (s ++ (37 ∷ [])) ≡ none)
      → parse (reverse r) ≡ some n
      → drop_percents r ≡ r
  unfolding drop_percents
  drop_percents-reverse [] n sign h = refl
  drop_percents-reverse (c ∷ r) n sign h = elim (Bool-cases (c == 37)) [
    | inl e ↦
        let same : c ≡ 37 = ground (arith, e) in
        let refused : parse (reverse (c ∷ r)) ≡ none =
          ap parse (reverse-cons c r)
          ∙ ap (λ d. parse (reverse r ++ (d ∷ []))) same
          ∙ sign (reverse r) in
        let clash : none ≡ some n = sym refused ∙ h in ground (arith, clash)
    | inr e ↦ simp e refl
  ]

  parse_threshold-percent :
      (value metric rest : Text) (n : F64)
      → ((s : Text) → parse (s ++ (37 ∷ [])) ≡ none)
      → reverse value ≡ 37 ∷ rest
      → parse (reverse rest) ≡ some n
      → parse_threshold f value metric ≡ div n (literal 100 0)
  unfolding parse_threshold drop_percents
  parse_threshold-percent value metric rest n sign h e =
      let ends : ends_with_percent value ≡ true =
        ap ends_with_percent (sym (reverse-reverse value) ∙ ap reverse h ∙ reverse-cons 37 rest)
        ∙ ends_with_percent-append (reverse rest) 37 in
      let digits : reverse (drop_percents (reverse value)) ≡ reverse rest =
        ap (λ r. reverse (drop_percents r)) h ∙ ap reverse (drop_percents-reverse rest n sign e) in
      simp ends (
        ap (λ s. div (unwrap_or (parse s) (literal 0 0)) (literal 100 0)) digits
        ∙ ap (λ o. div (unwrap_or o (literal 0 0)) (literal 100 0)) e)

  -- A percentage that validation accepts is the threshold that the evaluator of the alerts reads from
  -- the same text, for any metric, if no text with a percent sign at its end is read as a number.
  pub parse_threshold-parse_percentage_value :
      (value metric path : Text) (x : F64)
      → ((s : Text) → parse (s ++ (37 ∷ [])) ≡ none)
      → parse_percentage_value f value path ≡ ok x
      → parse_threshold f value metric ≡ x
  unfolding parse_percentage_value
  parse_threshold-parse_percentage_value value metric path x sign h =
      let (digits, e, h1) =
        ok-bind (or_refuse (strip_percent value) path (codes "must be a percentage such as 10%")) _
          x h in
      let (n, e', h2) =
        ok-bind (or_refuse (parse digits) path (codes "must be a valid percentage")) _ x h1 in
      let ((u, c), h3) =
        ok-then (refuse_if (not (within_percent f n)) path (codes "must be between 0% and 100%")) _
          x h2 in
      let stripped = ok-or_refuse (strip_percent value) path _ digits e in
      let number = ok-or_refuse (parse digits) path _ n e' in
      let (rest, r, d) = strip_reversed-some (reverse value) digits stripped in
      parse_threshold-percent value metric rest n sign r (ap parse d ∙ number)
      ∙ ok-injective (div n (literal 100 0)) x h3

-- What a status expectation resolves to: a status, or an ordered range, between 100 and 599.
abbrev pub InStatuses : Option ℕ × Option (ℕ × ℕ) → Type 0
InStatuses (some n, none) = (100 ≤ n) × (n ≤ 599)
InStatuses (none, some (a, b)) = (100 ≤ a) × (a ≤ b) × (b ≤ 599)
InStatuses (some n, some r) = ⊥
InStatuses (none, none) = ⊥

-- A status expectation that is accepted is one status or one range, which is not empty, of statuses
-- between 100 and 599.
pub resolve_status-InStatuses :
    (e : HttpStatusExpectation) (r : Option ℕ × Option (ℕ × ℕ))
    → resolve_status e ≡ ok r
    → InStatuses r
unfolding resolve_status
resolve_status-InStatuses (status n) r h =
    let ((u, c), h1) =
      ok-then
        (refuse_if (not (is_status n)) (codes "expected_status")
          (codes "HTTP status must be between 100 and 599"))
        _ r h in
    let inside = ok-refuse_if (not (is_status n)) _ _ u c in
    rw (sym (ok-injective (some n, none) r h1)) (ground (arith, inside))
resolve_status-InStatuses (range value) r h =
    let path = codes "expected_status" in
    let ((from, to), s, h1) =
      ok-bind (or_refuse (split_dash value) path (codes "status range must use START-END")) _ r h in
    let (start, a, h2) =
      ok-bind (or_refuse (parse_uint (2 ^ 16) from) path (codes "invalid status range")) _ r h1 in
    let (end, b, h3) =
      ok-bind (or_refuse (parse_uint (2 ^ 16) to) path (codes "invalid status range")) _ r h2 in
    let bad = not (is_status start) || not (is_status end) || ltb end start in
    let ((u, c), h4) =
      ok-then (refuse_if bad path (codes "status range must be ordered and between 100 and 599")) _
        r h3 in
    let good = ok-refuse_if bad _ _ u c in
    rw (sym (ok-injective (none, some (start, end)) r h4)) (ground (arith, good))
