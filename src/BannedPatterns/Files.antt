-- ===== src/BannedPatterns/Files.antt =====
-- tools/banned_patterns.py: the checks of a source and of the files that are found.
use self_improving_trading_s.Prelude.{
  has_part, same_codes, ℕ, ◌-◌, ◌==◌, Bool, if◌then◌else◌, Option, none, some, List, [], ◌∷◌, ◌++◌,
  String, codes, pos, ℤ, sorted_by, LinOrd, lex_ord, int_ord, text_ord,
}
use self_improving_trading_s.BannedPatterns.Syntax.{Node}
use self_improving_trading_s.BannedPatterns.{Violation, Checker}
use self_improving_trading_s.BannedPatterns.Visitor.{visit}

-- `ast.parse`, which gives a tree or raises a SyntaxError with its line and offset
pub data Parsed : Type 0 where
  module_tree : Node → Parsed
  syntax_error : Option ℕ → Option ℕ → Parsed

-- A source as its lines and its tree.
pub record Source : Type 0 where
  pub lines : List String
  pub tree : Parsed

-- `path.name`: what follows the last slash.
unfoldable pub last_part : List ℕ → List ℕ → List ℕ
last_part name [] = name
last_part name (c ∷ cs) = if c == b'/' then last_part [] cs else last_part (name ++ (c ∷ [])) cs

unfoldable pub is_called : String → String → Bool
unfolding last_part
is_called path name = same_codes (last_part [] (codes path)) (codes name)

-- `_Checker.__init__`
unfoldable pub checker : String → List String → Checker
unfolding has_part is_called
checker path lines = record {
  path = path;
  lines = lines;
  in_features = has_part (codes "packages/features/src") (codes path);
  is_pit = is_called path "pit.py";
  is_seeds = is_called path "seeds.py";
  is_io = is_called path "io.py";
}

-- `(v.line, v.col, v.code)`
abbrev pub violation_key : Violation → ℤ × (ℤ × String)
violation_key v = (pos v.line, (pos v.col, v.code))

abbrev pub violation_ord : LinOrd (ℤ × (ℤ × String))
violation_ord = lex_ord int_ord (lex_ord int_ord text_ord)

-- `n or m`
unfoldable pub or_number : Option ℕ → ℕ → ℕ
or_number none m = m
or_number (some n) m = if n == 0 then m else n

unfoldable pub check_source : String → Source → List Violation
unfolding or_number
check_source path source = elim source.tree [
  | syntax_error line offset ↦
      record { path = path; line = or_number line 0; col = or_number offset 1 - 1; code = "TRD000" }
      ∷ []
  | module_tree tree ↦
      sorted_by violation_ord violation_key (visit (checker path source.lines) tree)
]

-- `[v for path in paths for v in check_path(path)]`, with what the files hold
unfoldable pub check_paths : (String → Source) → List String → List Violation
check_paths read [] = []
check_paths read (path ∷ paths) = check_source path (read path) ++ check_paths read paths

-- `main`, of the files that are found: what is rendered and the exit code
unfoldable pub main : (String → Source) → List String → List Violation × ℕ
main read paths =
    let violations = check_paths read paths in
    elim violations [ [] ↦ ([], 0) | v ∷ vs ↦ (v ∷ vs, 1) ]
