-- ===== src/BannedPatterns/Calls.antt =====
-- What the visitor reports of a call is what the call breaks.
use self_improving_trading_s.Prelude.{
  ◌≡◌, refl, true, false, Bool, not, ◌&&◌, Option, none, some, [], String, in_names, Any, inl, inr,
  if◌then◌else◌, Bool-cases,
}
use self_improving_trading_s.BannedPatterns.Syntax.{
  Place, Node, name, attribute, text_constant, constant, display, call, ann_assign, arg,
  function_def, import, import_from, other, Nodes, Keywords, no_keywords, keyword, place,
  string_literals,
}
use self_improving_trading_s.BannedPatterns.{
  join_methods, join_key_args, generator_factories, parquet_writers, is_ticker_key, Violation,
  Checker,
}
use self_improving_trading_s.BannedPatterns.Visitor.{
  is_parquet_module, is_numpy_random, is_join_arg, check_join, check_generator, check_parquet_write,
  check_func, check_keys, check_join_keys,
}
use self_improving_trading_s.BannedPatterns.Rules.{
  HasKeyword, first, later, joined, generated, written, Reported,
}
use self_improving_trading_s.BannedPatterns.Reports.{
  Has, append_left, append_right, append_split, Shown, report_if→, keys→, →keys,
}

both_true : (a b : Bool) → (a && b) ≡ true → (a ≡ true) × (b ≡ true)
both_true true b h = (refl, h)
both_true false b h = cc

not-eq_true : (a : Bool) → not a ≡ true → a ≡ false
not-eq_true true h = cc
not-eq_true false h = refl

module _ (c : Checker) (v : Violation) where
  attribute→ :
      (p q : Place) (value : Node) (attr : String) (args : Nodes) (kws : Keywords)
      → Has v (check_func c p (attribute q value attr))
      → Reported c (call p (attribute q value attr) args kws) v
  unfolding check_func check_join check_generator check_parquet_write
  attribute→ p q value attr args kws h = elim (append_split v (check_join c p attr) _ h) [
    | inl k ↦
        let (b, (a, e)) =
          report_if→ c v (in_names attr join_methods && (c.in_features && not c.is_pit)) p "TRD002"
            k in
        let (m, rest) = both_true (in_names attr join_methods) _ b in
        let (f, n) = both_true c.in_features _ rest in
        (p, "TRD002", joined m f (not-eq_true c.is_pit n), a, e)
    | inr k ↦ elim (append_split v (check_generator c p value attr) _ k) [
      | inl k ↦
          let (b, (a, e)) =
            report_if→ c v
              (in_names attr generator_factories && (is_numpy_random value && not c.is_seeds)) p
              "TRD004" k in
          let (m, rest) = both_true (in_names attr generator_factories) _ b in
          let (f, n) = both_true (is_numpy_random value) _ rest in
          (p, "TRD004", generated m f (not-eq_true c.is_seeds n), a, e)
      | inr k ↦
          let (b, (a, e)) =
            report_if→ c v
              (in_names attr parquet_writers && (not c.is_io && is_parquet_module value)) p "TRD007"
              k in
          let (m, rest) = both_true (in_names attr parquet_writers) _ b in
          let (n, f) = both_true (not c.is_io) _ rest in
          (p, "TRD007", written m f (not-eq_true c.is_io n), a, e)
    ]
  ]

  pub func→ :
      (p : Place) (func : Node) (args : Nodes) (kws : Keywords)
      → Has v (check_func c p func)
      → Reported c (call p func args kws) v
  unfolding check_func
  func→ p (attribute q value attr) args kws h = attribute→ p q value attr args kws h
  func→ p (name q s) args kws h = absurd h
  func→ p (text_constant q s parsed) args kws h = absurd h
  func→ p (constant q) args kws h = absurd h
  func→ p (display q elts) args kws h = absurd h
  func→ p (call q func more ks) args kws h = absurd h
  func→ p (ann_assign q target annotation value) args kws h = absurd h
  func→ p (arg q annotation) args kws h = absurd h
  func→ p (function_def q before returns after) args kws h = absurd h
  func→ p (import q names) args kws h = absurd h
  func→ p (import_from q module_) args kws h = absurd h
  func→ p (other q e children) args kws h = absurd h

  -- A keyword with a text that is a ticker's key.
  abbrev pub IsKeyed : Keywords → Type 0
  IsKeyed kws =
      (arg_ : String) × (value : Node) × HasKeyword arg_ value kws
      × (in_names arg_ join_key_args ≡ true)
      × Any (λ (key : String). is_ticker_key key ≡ true) (string_literals value)
      × Shown c v (place value) "TRD003"

  first-IsKeyed :
      (a : Option String) (value : Node) (kws : Keywords)
      → Has v (if is_join_arg a then check_keys c (place value) (string_literals value) else [])
      → IsKeyed (keyword a value kws)
  unfolding is_join_arg
  first-IsKeyed none value kws h = absurd h
  first-IsKeyed (some s) value kws h = elim (Bool-cases (in_names s join_key_args)) [
    | inl e ↦
        let (k, shown) = keys→ c v (place value) (string_literals value) (rw (e) at h) in
        (s, value, first, e, k, shown)
    | inr e ↦ absurd (rw (e) at h)
  ]

  pub join_keys→ : (kws : Keywords) → Has v (check_join_keys c kws) → IsKeyed kws
  unfolding check_join_keys
  join_keys→ no_keywords h = absurd h
  join_keys→ (keyword a value kws) h =
      elim (append_split v
        (if is_join_arg a then check_keys c (place value) (string_literals value) else []) _ h) [
          | inl k ↦ first-IsKeyed a value kws k
          | inr k ↦
              let (s, w, has, m, keys, shown) = join_keys→ kws k in
              (s, w, later has, m, keys, shown)
        ]

  pub →join_keys :
      {arg_ : String} {value : Node} {kws : Keywords}
      → HasKeyword arg_ value kws
      → in_names arg_ join_key_args ≡ true
      → Any (λ (key : String). is_ticker_key key ≡ true) (string_literals value)
      → Shown c v (place value) "TRD003"
      → Has v (check_join_keys c kws)
  unfolding check_join_keys is_join_arg
  →join_keys {value = value} (first {kws = kws}) m k s =
      append_left v _ (check_join_keys c kws)
        (rw (m) (→keys c v (place value) (string_literals value) k s))
  →join_keys (later {a = a} {v = w} h) m k s =
      append_right v (if is_join_arg a then check_keys c (place w) (string_literals w) else []) _
        (→join_keys h m k s)
