-- ===== src/BannedPatterns/Told.antt =====
-- What the nodes of a tree break is what the visitor reports of it.
use mathlib.Core.Path.{subst}
use self_improving_trading_s.Prelude.{◌↔◌, refl, sym, ◌++◌, String, str_eq}
use self_improving_trading_s.BannedPatterns.Syntax.{
  Place, Node, attribute, call, Nodes, nil, cons, Keywords,
}
use self_improving_trading_s.BannedPatterns.{Violation, Checker}
use self_improving_trading_s.BannedPatterns.Visitor.{
  check_annotation, check_module, check_func, check_join_keys, visit, visit_each, visit_values,
  check_join, check_generator, check_parquet_write,
}
use self_improving_trading_s.BannedPatterns.Rules.{
  Breaks, datetime_value, datetime_arg, datetime_returns, joined, keyed, random_imported,
  random_from, generated, written, Within, here, in_value, in_display, in_func, in_args,
  in_keywords, in_target, in_annotation, in_assigned, in_arg, in_before, in_returns, in_after,
  in_other, Among, in_first, in_rest, AmongValues, in_first_value, in_rest_values,
}
use self_improving_trading_s.BannedPatterns.Reports.{
  Has, append_left, append_right, Shown, →report_if, →annotation, →names,
}
use self_improving_trading_s.BannedPatterns.Calls.{→join_keys}
use self_improving_trading_s.BannedPatterns.Checked.{Told, visit→}

module _ (c : Checker) (v : Violation) where
  called :
      (p q : Place) (value : Node) (attr : String) (args : Nodes) (kws : Keywords)
      → Has v (check_func c p (attribute q value attr))
      → Has v (visit c (call p (attribute q value attr) args kws))
  unfolding visit
  called p q value attr args kws h =
      append_left v _ _
        (append_left v (check_func c p (attribute q value attr)) (check_join_keys c kws) h)

  own→ :
      {n : Node} {q : Place} {code : String}
      → Breaks c n q code
      → Shown c v q code
      → Has v (visit c n)
  unfolding visit check_func check_join check_generator check_parquet_write check_module
  own→ (datetime_value {annotation = annotation} m same) s =
      append_left v _ _ (→annotation c v annotation nil m same s)
  own→ (datetime_arg {annotation = annotation} {rest = rest} m same) s =
      append_left v _ _ (→annotation c v annotation rest m same s)
  own→ (datetime_returns {annotation = annotation} {rest = rest} m same) s =
      append_left v _ _ (→annotation c v annotation rest m same s)
  own→ (joined {p = p} {q = q} {value = value} {attr = attr} {args = args} {kws = kws} m f n) s =
      called p q value attr args kws
        (append_left v _ _ (→report_if c v _ p "TRD002" ((rw (m, f, n) refl), s)))
  own→ (keyed {p = p} {func = func} {kws = kws} has m keys same) s = append_left v _ _ (
      append_right v (check_func c p func) _
        (→join_keys c v has m keys (subst (λ q. Shown c v q "TRD003") (sym same) s)))
  own→ (random_imported {p = p} {names = names} k) s = →names c v p names k s
  own→ (random_from {p = p}) s = →report_if c v (str_eq "random" "random") p "TRD004" (refl, s)
  own→ (generated {p = p} {q = q} {value = value} {attr = attr} {args = args} {kws = kws} m f n) s =
      called p q value attr args kws (
        append_right v (check_join c p attr) _
          (append_left v _ _ (→report_if c v _ p "TRD004" ((rw (m, f, n) refl), s))))
  own→ (written {p = p} {q = q} {value = value} {attr = attr} {args = args} {kws = kws} m f n) s =
      called p q value attr args kws (
        append_right v (check_join c p attr) _ (
          append_right v (check_generator c p value attr) _
            (→report_if c v _ p "TRD007" ((rw (m, n, f) refl), s))))

  mutual
    unfolding visit

    →visit : {m n : Node} → Within m n → Has v (visit c m) → Has v (visit c n)
    →visit here h = h
    →visit (in_value w) h = →visit w h
    →visit (in_display w) h = →each w h
    →visit (in_func {p = p} {func = func} {kws = kws} w) h =
        append_right v (check_func c p func ++ check_join_keys c kws) _
          (append_left v _ _ (→visit w h))
    →visit (in_args {p = p} {func = func} {kws = kws} w) h =
        append_right v (check_func c p func ++ check_join_keys c kws) _
          (append_right v (visit c func) _ (append_left v _ _ (→each w h)))
    →visit (in_keywords {p = p} {func = func} {args = args} {kws = kws} w) h =
        append_right v (check_func c p func ++ check_join_keys c kws) _
          (append_right v (visit c func) _ (append_right v (visit_each c args) _ (→values w h)))
    →visit (in_target {annotation = annotation} w) h =
        append_right v (check_annotation c (cons annotation nil)) _ (append_left v _ _ (→visit w h))
    →visit (in_annotation {target = target} {annotation = annotation} w) h =
        append_right v (check_annotation c (cons annotation nil)) _
          (append_right v (visit c target) _ (append_left v _ _ (→visit w h)))
    →visit (in_assigned {target = target} {annotation = annotation} w) h =
        append_right v (check_annotation c (cons annotation nil)) _
          (append_right v (visit c target) _ (append_right v (visit c annotation) _ (→each w h)))
    →visit (in_arg {annotation = annotation} w) h =
        append_right v (check_annotation c annotation) _ (→each w h)
    →visit (in_before {returns = returns} w) h =
        append_right v (check_annotation c returns) _ (append_left v _ _ (→each w h))
    →visit (in_returns {before = before} {returns = returns} w) h =
        append_right v (check_annotation c returns) _
          (append_right v (visit_each c before) _ (append_left v _ _ (→each w h)))
    →visit (in_after {before = before} {returns = returns} w) h =
        append_right v (check_annotation c returns) _ (
          append_right v (visit_each c before) _
            (append_right v (visit_each c returns) _ (→each w h)))
    →visit (in_other w) h = →each w h

    →each : {m : Node} {ns : Nodes} → Among m ns → Has v (visit c m) → Has v (visit_each c ns)
    →each (in_first w) h = append_left v _ _ (→visit w h)
    →each (in_rest {n = n} w) h = append_right v (visit c n) _ (→each w h)

    →values :
        {m : Node} {kws : Keywords}
        → AmongValues m kws
        → Has v (visit c m)
        → Has v (visit_values c kws)
    →values (in_first_value w) h = append_left v _ _ (→visit w h)
    →values (in_rest_values {v = value} w) h = append_right v (visit c value) _ (→values w h)

  -- The visitor reports a violation of a tree exactly if some node within the tree breaks the rule there
  -- and no comment on the line allows it.
  pub visit_iff : (n : Node) → Has v (visit c n) ↔ Told c v n
  visit_iff n = (visit→ c v n, λ (m, w, (q, code, b, a, e)). →visit w (own→ b (a, e)))
