-- ===== src/BannedPatterns/Checked.antt =====
-- What the visitor reports of a tree is what its nodes break.
use self_improving_trading_s.Prelude.{
  refl, Option, none, some, ◌++◌, String, inl, inr, str_eq, str_eq_iff,
}
use self_improving_trading_s.BannedPatterns.Syntax.{
  Place, Node, name, attribute, text_constant, constant, display, call, ann_assign, arg,
  function_def, import, import_from, other, Nodes, nil, cons, Keywords, no_keywords, keyword, place,
}
use self_improving_trading_s.BannedPatterns.{Violation, Checker}
use self_improving_trading_s.BannedPatterns.Visitor.{
  check_annotation, check_module, check_func, check_join_keys, visit, visit_each, visit_values,
}
use self_improving_trading_s.BannedPatterns.Rules.{
  datetime_value, datetime_arg, datetime_returns, keyed, random_imported, random_from, Within, here,
  in_value, in_display, in_func, in_args, in_keywords, in_target, in_annotation, in_assigned,
  in_arg, in_before, in_returns, in_after, in_other, Among, in_first, in_rest, AmongValues,
  in_first_value, in_rest_values, Reported,
}
use self_improving_trading_s.BannedPatterns.Reports.{
  Has, append_split, report_if→, annotation→, names→,
}
use self_improving_trading_s.BannedPatterns.Calls.{func→, join_keys→}

module _ (c : Checker) (v : Violation) where
  -- Some node of a tree, of a list of trees or of the values of keywords breaks a rule.
  abbrev pub Told : Node → Type 0
  Told n = (m : Node) × Within m n × Reported c m v

  abbrev ToldEach : Nodes → Type 0
  ToldEach ns = (m : Node) × Among m ns × Reported c m v

  abbrev ToldValues : Keywords → Type 0
  ToldValues kws = (m : Node) × AmongValues m kws × Reported c m v

  module_→ :
      (p : Place) (module_ : Option String)
      → Has v (check_module c p module_)
      → Reported c (import_from p module_) v
  unfolding check_module
  module_→ p none h = absurd h
  module_→ p (some s) h =
      let (b, (a, e)) = report_if→ c v (str_eq s "random") p "TRD004" h in
      rw ((str_eq_iff s "random").0 b) (p, "TRD004", random_from, a, e)

  returns→ :
      (p : Place) (before returns after : Nodes)
      → Has v (check_annotation c returns)
      → Reported c (function_def p before returns after) v
  unfolding check_annotation
  returns→ p before nil after h = absurd h
  returns→ p before (cons a rest) after h =
      let (o, m, (k, e)) = annotation→ c v a rest h in
      (place o, "TRD001", datetime_returns m refl, k, e)

  arg→ :
      (p : Place) (annotation : Nodes)
      → Has v (check_annotation c annotation)
      → Reported c (arg p annotation) v
  unfolding check_annotation
  arg→ p nil h = absurd h
  arg→ p (cons a rest) h =
      let (o, m, (k, e)) = annotation→ c v a rest h in
      (place o, "TRD001", datetime_arg m refl, k, e)

  call→ :
      (p : Place) (func : Node) (args : Nodes) (kws : Keywords)
      → Has v (check_func c p func ++ check_join_keys c kws)
      → Reported c (call p func args kws) v
  call→ p func args kws h = elim (append_split v (check_func c p func) _ h) [
    | inl k ↦ func→ c v p func args kws k
    | inr k ↦
        let (s, w, has, m, keys, (a, e)) = join_keys→ c v kws k in
        (place w, "TRD003", keyed has m keys refl, a, e)
  ]

  mutual
    unfolding visit

    pub visit→ : (n : Node) → Has v (visit c n) → Told n
    visit→ (name p s) h = absurd h
    visit→ (attribute p value attr) h = let (m, w, r) = visit→ value h in (m, in_value w, r)
    visit→ (text_constant p s parsed) h = absurd h
    visit→ (constant p) h = absurd h
    visit→ (display p elts) h = let (m, w, r) = each→ elts h in (m, in_display w, r)
    visit→ (call p func args kws) h =
        elim (append_split v (check_func c p func ++ check_join_keys c kws) _ h) [
          | inl k ↦ (call p func args kws, here, call→ p func args kws k)
          | inr k ↦ elim (append_split v (visit c func) _ k) [
            | inl k ↦ let (m, w, r) = visit→ func k in (m, in_func w, r)
            | inr k ↦ elim (append_split v (visit_each c args) _ k) [
              | inl k ↦ let (m, w, r) = each→ args k in (m, in_args w, r)
              | inr k ↦ let (m, w, r) = values→ kws k in (m, in_keywords w, r)
            ]
          ]
        ]
    visit→ (ann_assign p target annotation value) h =
        elim (append_split v (check_annotation c (cons annotation nil)) _ h) [
          | inl k ↦
              let (o, m, (a, e)) = annotation→ c v annotation nil k in
              (
                ann_assign p target annotation value,
                here,
                (place o, "TRD001", datetime_value m refl, a, e),
              )
          | inr k ↦ elim (append_split v (visit c target) _ k) [
            | inl k ↦ let (m, w, r) = visit→ target k in (m, in_target w, r)
            | inr k ↦ elim (append_split v (visit c annotation) _ k) [
              | inl k ↦ let (m, w, r) = visit→ annotation k in (m, in_annotation w, r)
              | inr k ↦ let (m, w, r) = each→ value k in (m, in_assigned w, r)
            ]
          ]
        ]
    visit→ (arg p annotation) h = elim (append_split v (check_annotation c annotation) _ h) [
      | inl k ↦ (arg p annotation, here, arg→ p annotation k)
      | inr k ↦ let (m, w, r) = each→ annotation k in (m, in_arg w, r)
    ]
    visit→ (function_def p before returns after) h =
        elim (append_split v (check_annotation c returns) _ h) [
          | inl k ↦ (function_def p before returns after, here, returns→ p before returns after k)
          | inr k ↦ elim (append_split v (visit_each c before) _ k) [
            | inl k ↦ let (m, w, r) = each→ before k in (m, in_before w, r)
            | inr k ↦ elim (append_split v (visit_each c returns) _ k) [
              | inl k ↦ let (m, w, r) = each→ returns k in (m, in_returns w, r)
              | inr k ↦ let (m, w, r) = each→ after k in (m, in_after w, r)
            ]
          ]
        ]
    visit→ (import p names) h =
        let (k, (a, e)) = names→ c v p names h in
        (import p names, here, (p, "TRD004", random_imported k, a, e))
    visit→ (import_from p module_) h = (import_from p module_, here, module_→ p module_ h)
    visit→ (other p e children) h = let (m, w, r) = each→ children h in (m, in_other w, r)

    each→ : (ns : Nodes) → Has v (visit_each c ns) → ToldEach ns
    each→ nil h = absurd h
    each→ (cons n ns) h = elim (append_split v (visit c n) _ h) [
      | inl k ↦ let (m, w, r) = visit→ n k in (m, in_first w, r)
      | inr k ↦ let (m, w, r) = each→ ns k in (m, in_rest w, r)
    ]

    values→ : (kws : Keywords) → Has v (visit_values c kws) → ToldValues kws
    values→ no_keywords h = absurd h
    values→ (keyword a value kws) h = elim (append_split v (visit c value) _ h) [
      | inl k ↦ let (m, w, r) = visit→ value k in (m, in_first_value w, r)
      | inr k ↦ let (m, w, r) = values→ kws k in (m, in_rest_values w, r)
    ]
