-- ===== src/BannedPatterns/Reports.antt =====
-- What the visitor reports in one place, and what a comment on the line of the place allows.
use self_improving_trading_s.Prelude.{
  ◌≡◌, refl, true, false, Bool, some, List, [], ◌∷◌, ◌++◌, String, Any, Option-cases, inl, inr, ◌⊎◌,
  if◌then◌else◌,
}
use self_improving_trading_s.BannedPatterns.Syntax.{Place, Node, Nodes, cons, place, mentions}
use self_improving_trading_s.BannedPatterns.{
  is_ticker_key, Violation, is_allowed, Checker, violation, report,
}
use self_improving_trading_s.BannedPatterns.Visitor.{
  is_random, report_if, check_annotation, check_names, check_keys,
}

abbrev pub Has : Violation → List Violation → Type 0
Has v = Any (λ (w : Violation). w ≡ v)

module _ (v : Violation) where
  pub append_left : (xs ys : List Violation) → Has v xs → Has v (xs ++ ys)
  append_left [] ys h = absurd h
  append_left (x ∷ xs) ys (inl e) = inl e
  append_left (x ∷ xs) ys (inr h) = inr (append_left xs ys h)

  pub append_right : (xs ys : List Violation) → Has v ys → Has v (xs ++ ys)
  append_right [] ys h = h
  append_right (x ∷ xs) ys h = inr (append_right xs ys h)

  pub append_split : (xs ys : List Violation) → Has v (xs ++ ys) → Has v xs ⊎ Has v ys
  append_split [] ys h = inr h
  append_split (x ∷ xs) ys (inl e) = inl (inl e)
  append_split (x ∷ xs) ys (inr h) = elim (append_split xs ys h) [
    | inl a ↦ inl (inr a)
    | inr b ↦ inr b
  ]

  kept : (b : Bool) {w : Violation} → Has v (if b then [] else w ∷ []) → (b ≡ false) × (w ≡ v)
  kept true h = absurd h
  kept false (inl e) = (refl, e)
  kept false (inr h) = absurd h

module _ (c : Checker) (v : Violation) where
  -- The violation is reported at a place, where no comment allows it.
  abbrev pub Shown : Place → String → Type 0
  Shown p code = (is_allowed c.lines p.line code ≡ false) × (violation c p code ≡ v)

  report→ : (p : Place) (code : String) → Has v (report c p code) → Shown p code
  unfolding report
  report→ p code h = kept v (is_allowed c.lines p.line code) h

  →report : (p : Place) (code : String) → Shown p code → Has v (report c p code)
  unfolding report
  →report p code (a, e) = rw (a) (inl e)

  pub report_if→ :
      (b : Bool) (p : Place) (code : String)
      → Has v (report_if c b p code)
      → (b ≡ true) × Shown p code
  unfolding report_if
  report_if→ true p code h = (refl, report→ p code h)
  report_if→ false p code h = absurd h

  pub →report_if :
      (b : Bool) (p : Place) (code : String)
      → (b ≡ true) × Shown p code
      → Has v (report_if c b p code)
  unfolding report_if
  →report_if b p code (t, a) = rw (t) (→report p code a)

  -- The offender of an annotation.
  pub annotation→ :
      (annotation : Node) (rest : Nodes)
      → Has v (check_annotation c (cons annotation rest))
      → (o : Node) × (mentions annotation ≡ some o) × Shown (place o) "TRD001"
  unfolding check_annotation
  annotation→ annotation rest h = elim (Option-cases (mentions annotation)) [
    | inl e ↦ absurd (rw (check_annotation, e) at h)
    | inr (o, e) ↦ (o, e, report→ (place o) "TRD001" (rw (check_annotation, e) at h))
  ]

  pub →annotation :
      (annotation : Node) (rest : Nodes) {o : Node} {q : Place}
      → mentions annotation ≡ some o
      → place o ≡ q
      → Shown q "TRD001"
      → Has v (check_annotation c (cons annotation rest))
  unfolding check_annotation
  →annotation annotation rest {o = o} e same a =
      rw (check_annotation, e, same) (→report _ "TRD001" a)

  pub names→ :
      (p : Place) (names : List String)
      → Has v (check_names c p names)
      → Any (λ (s : String). is_random s ≡ true) names × Shown p "TRD004"
  unfolding check_names
  names→ p [] h = absurd h
  names→ p (s ∷ names) h = elim (append_split v (report_if c (is_random s) p "TRD004") _ h) [
    | inl k ↦ let (b, t) = report_if→ (is_random s) p "TRD004" k in (inl b, t)
    | inr k ↦ let (b, t) = names→ p names k in (inr b, t)
  ]

  pub →names :
      (p : Place) (names : List String)
      → Any (λ (s : String). is_random s ≡ true) names
      → Shown p "TRD004"
      → Has v (check_names c p names)
  unfolding check_names
  →names p [] h a = absurd h
  →names p (s ∷ names) (inl b) a =
      append_left v _ (check_names c p names) (→report_if (is_random s) p "TRD004" (b, a))
  →names p (s ∷ names) (inr b) a =
      append_right v (report_if c (is_random s) p "TRD004") _ (→names p names b a)

  pub keys→ :
      (p : Place) (keys : List String)
      → Has v (check_keys c p keys)
      → Any (λ (s : String). is_ticker_key s ≡ true) keys × Shown p "TRD003"
  unfolding check_keys
  keys→ p [] h = absurd h
  keys→ p (s ∷ keys) h = elim (append_split v (report_if c (is_ticker_key s) p "TRD003") _ h) [
    | inl k ↦ let (b, t) = report_if→ (is_ticker_key s) p "TRD003" k in (inl b, t)
    | inr k ↦ let (b, t) = keys→ p keys k in (inr b, t)
  ]

  pub →keys :
      (p : Place) (keys : List String)
      → Any (λ (s : String). is_ticker_key s ≡ true) keys
      → Shown p "TRD003"
      → Has v (check_keys c p keys)
  unfolding check_keys
  →keys p [] h a = absurd h
  →keys p (s ∷ keys) (inl b) a =
      append_left v _ (check_keys c p keys) (→report_if (is_ticker_key s) p "TRD003" (b, a))
  →keys p (s ∷ keys) (inr b) a =
      append_right v (report_if c (is_ticker_key s) p "TRD003") _ (→keys p keys b a)
