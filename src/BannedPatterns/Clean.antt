-- ===== src/BannedPatterns/Clean.antt =====
-- The sources that pass.
use mathlib.Core.Path.{subst}
use self_improving_trading_s.Prelude.{
  ℕ, ◌≡◌, ◌↔◌, refl, sym, ap, ◌∙◌, true, List, [], ◌∷◌, String, All, append-nil, sorted_by,
  sorted_by-length, length, arith, Bool-cases, inl, inr,
}
use self_improving_trading_s.BannedPatterns.Syntax.{Place, Node}
use self_improving_trading_s.BannedPatterns.{Violation, Checker, is_allowed, violation}
use self_improving_trading_s.BannedPatterns.Visitor.{visit}
use self_improving_trading_s.BannedPatterns.Files.{
  Parsed, module_tree, syntax_error, Source, checker, violation_key, violation_ord, check_source,
  check_paths, main,
}
use self_improving_trading_s.BannedPatterns.Rules.{Breaks, Within}
use self_improving_trading_s.BannedPatterns.Reports.{Has}
use self_improving_trading_s.BannedPatterns.Told.{visit_iff}

-- Whatever breaks a rule in a tree, a comment on the line of the offender allows it.
abbrev pub IsCleanTree : Checker → Node → Type 0
IsCleanTree c tree =
    (n : Node) (q : Place) (code : String)
    → Within n tree
    → Breaks c n q code
    → is_allowed c.lines q.line code ≡ true

-- A source is parsed, and its tree is clean.
abbrev pub IsClean : String → Source → Type 0
IsClean path source =
    (tree : Node) × (source.tree ≡ module_tree tree) × IsCleanTree (checker path source.lines) tree

nothing_reported : (vs : List Violation) → ((v : Violation) → Has v vs → ⊥) → vs ≡ []
nothing_reported [] h = refl
nothing_reported (v ∷ vs) h = absurd (h v (inl refl))

clean→ : (c : Checker) (tree : Node) → visit c tree ≡ [] → IsCleanTree c tree
clean→ c tree h n q code w b = elim (Bool-cases (is_allowed c.lines q.line code)) [
  | inl e ↦ e
  | inr e ↦ absurd (
      subst (λ vs. Has (violation c q code) vs) h
        ((visit_iff c (violation c q code) tree).1 (n, w, (q, code, b, e, refl))))
]

→clean : (c : Checker) (tree : Node) → IsCleanTree c tree → visit c tree ≡ []
→clean c tree h = nothing_reported (visit c tree) λ v has.
    let (n, w, (q, code, b, e, same)) = (visit_iff c v tree).0 has in cc (h n q code w b, e)

no_length : (vs : List Violation) → length vs ≡ 0 → vs ≡ []
no_length [] h = refl
no_length (v ∷ vs) h = absurd (omega (arith, h))

unsorted : (vs : List Violation) → sorted_by violation_ord violation_key vs ≡ [] → vs ≡ []
unsorted vs h = no_length vs (sym (sorted_by-length violation_ord violation_key vs) ∙ ap length h)

source→ :
    (path : String) (lines : List String) (tree : Parsed)
    → check_source path (record { lines = lines; tree = tree }) ≡ []
    → IsClean path (record { lines = lines; tree = tree })
unfolding check_source
source→ path lines (syntax_error line offset) h = cc
source→ path lines (module_tree tree) h =
    (tree, refl, clean→ (checker path lines) tree (unsorted (visit (checker path lines) tree) h))

→source :
    (path : String) (lines : List String) (tree : Parsed)
    → IsClean path (record { lines = lines; tree = tree })
    → check_source path (record { lines = lines; tree = tree }) ≡ []
unfolding check_source sorted_by
→source path lines tree (t, e, clean) = rw (e, →clean (checker path lines) t clean)

paths→ :
    (read : String → Source) (paths : List String)
    → check_paths read paths ≡ []
    → All (λ path. IsClean path (read path)) paths
unfolding check_paths
paths→ read [] h = tt
paths→ read (path ∷ paths) h =
    let (a, b) = append-nil (check_source path (read path)) _ h in
    (source→ path (read path).lines (read path).tree a, paths→ read paths b)

→paths :
    (read : String → Source) (paths : List String)
    → All (λ path. IsClean path (read path)) paths
    → check_paths read paths ≡ []
unfolding check_paths
→paths read [] h = refl
→paths read (path ∷ paths) (h, hs) =
    rw (→source path (read path).lines (read path).tree h, →paths read paths hs)

exit_code :
    (read : String → Source) (paths : List String)
    → ((main read paths).1 ≡ 0) ↔ (check_paths read paths ≡ [])
unfolding main
exit_code read paths = decided (check_paths read paths)
  where
    decided :
        (vs : List Violation)
        → ((elim vs as (λ _. List Violation × ℕ) [ [] ↦ ([], 0) | v ∷ ws ↦ (v ∷ ws, 1) ]).1 ≡ 0)
          ↔ (vs ≡ [])
    decided [] = (λ _. refl, λ _. refl)
    decided (v ∷ vs) = (λ h. absurd (omega (arith, h)), λ h. cc)

-- The exit code is 0 exactly if every file parses and whatever breaks a rule anywhere in its tree is
-- allowed by a comment on the line of the offender.
pub main_iff :
    (read : String → Source) (paths : List String)
    → ((main read paths).1 ≡ 0) ↔ All (λ (path : String). IsClean path (read path)) paths
main_iff read paths =
    let (exit→, →exit) = exit_code read paths in
    (λ h. paths→ read paths (exit→ h), λ h. →exit (→paths read paths h))
