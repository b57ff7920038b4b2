-- ===== src/BannedPatterns.antt =====
-- tools/banned_patterns.py: the checker. The lines of a source, its syntax tree and the files under the
-- roots are arguments; the texts of messages are not kept.
pub mod Syntax
pub mod Visitor
pub mod Rules
pub mod Reports
pub mod Calls
pub mod Checked
pub mod Files
pub mod Told
pub mod Clean
use Prim.Native.String
use self_improving_trading_s.Prelude.{
  same_codes, after_text, ℕ, zero, suc, ◌+◌, ◌-◌, ◌==◌, leb, ◌&&◌, ◌||◌, Bool, true, false, not,
  if◌then◌else◌, Option, none, some, List, [], ◌∷◌, ◌++◌, String, codes, str_eq, in_names, is_space,
  pos, sorted_by, LinOrd, lex_ord, int_ord, text_ord, ℤ,
}
use self_improving_trading_s.Time.Rfc3339.{decimal_digit}
use self_improving_trading_s.BannedPatterns.Syntax.{
  Place, Node, name, attribute, text_constant, constant, display, call, ann_assign, arg,
  function_def, import, import_from, other, Nodes, nil, cons, Keywords, no_keywords, keyword, place,
  is_name, mentions, string_literals,
}

abbrev pub join_methods : List String
join_methods = "join" ∷ "join_asof" ∷ "merge" ∷ "merge_sorted" ∷ []

abbrev pub join_key_args : List String
join_key_args = "on" ∷ "left_on" ∷ "right_on" ∷ "by" ∷ "by_left" ∷ "by_right" ∷ []

abbrev pub generator_factories : List String
generator_factories = "default_rng" ∷ "Generator" ∷ "RandomState" ∷ []

abbrev pub parquet_writers : List String
parquet_writers = "write_table" ∷ "write_dataset" ∷ "ParquetWriter" ∷ []

-- `str.lower` on the characters that become a letter of ASCII, one of which is the sign of the kelvin;
-- no other character becomes such letters alone.
unfoldable pub lower : ℕ → ℕ
lower c = if leb b'A' c && leb c b'Z' then c + 32 else if c == 0x212A then b'k' else c

unfoldable pub lowered : List ℕ → List ℕ
unfolding lower
lowered [] = []
lowered (c ∷ cs) = lower c ∷ lowered cs

-- `key.lower() in _TICKER_KEYS`
unfoldable pub is_ticker_key : String → Bool
unfolding same_codes lowered
is_ticker_key key =
    let k = lowered (codes key) in
    same_codes k (codes "symbol") || (same_codes k (codes "ticker") || same_codes k (codes "sym"))

pub record Violation : Type 0 where
  pub path : String
  pub line : ℕ
  pub col : ℕ
  pub code : String

unfoldable pub skip_spaces : List ℕ → List ℕ
skip_spaces [] = []
skip_spaces (c ∷ cs) = let later = skip_spaces cs in if is_space c then later else c ∷ cs

unfoldable pub is_digit : ℕ → Bool
is_digit c = elim (decimal_digit c) [ none ↦ false | some d ↦ true ]

-- `\s+(?P<reason>\S.*)$`: a reason follows. The lines of a source have no line feed within them.
unfoldable pub has_reason : List ℕ → Bool
unfolding skip_spaces
has_reason [] = false
has_reason (c ∷ cs) = elim (skip_spaces cs) [ [] ↦ false | d ∷ ds ↦ is_space c ]

-- `(TRD\d{3})\s+(?P<reason>\S.*)$`
unfoldable pub match_code : List ℕ → Option (List ℕ)
unfolding has_reason is_digit
match_code (t ∷ r ∷ d ∷ x ∷ y ∷ z ∷ rest) =
    if same_codes (t ∷ r ∷ d ∷ []) (codes "TRD")
      && (is_digit x && (is_digit y && (is_digit z && has_reason rest)))
    then some (t ∷ r ∷ d ∷ x ∷ y ∷ z ∷ [])
    else none
match_code cs = none

-- `_ALLOW_RE` at one place
unfoldable pub match_allow : List ℕ → Option (List ℕ)
unfolding after_text match_code skip_spaces
match_allow [] = none
match_allow (c ∷ cs) =
    if c == b'#'
    then elim (after_text (codes "allow:") (skip_spaces cs)) [
      | none ↦ none
      | some rest ↦ match_code (skip_spaces rest)
    ]
    else none

-- `_ALLOW_RE.search`: the first place counts.
unfoldable pub search_allow : List ℕ → Option (List ℕ)
unfolding match_allow
search_allow [] = none
search_allow (c ∷ cs) =
    let later = search_allow cs in
    elim (match_allow (c ∷ cs)) [ none ↦ later | some code ↦ some code ]

-- The line of a number, from 1.
unfoldable pub line_at : List String → ℕ → Option String
line_at lines zero = none
line_at [] (suc n) = none
line_at (line ∷ lines) (suc zero) = some line
line_at (line ∷ lines) (suc (suc n)) = line_at lines (suc n)

-- `code in _allowed_codes(source_lines, line)`
unfoldable pub is_allowed : List String → ℕ → String → Bool
unfolding line_at search_allow
is_allowed source_lines line code = elim (line_at source_lines line) [
  | none ↦ false
  | some text ↦ elim (search_allow (codes text)) [
    | none ↦ false
    | some allowed ↦ same_codes allowed (codes code)
  ]
]

-- `_Checker`
pub record Checker : Type 0 where
  pub path : String
  pub lines : List String
  pub in_features : Bool
  pub is_pit : Bool
  pub is_seeds : Bool
  pub is_io : Bool

unfoldable pub violation : Checker → Place → String → Violation
violation c p code = record { path = c.path; line = p.line; col = p.col; code = code }

-- `_report`
unfoldable pub report : Checker → Place → String → List Violation
unfolding is_allowed
report c p code = if is_allowed c.lines p.line code then [] else violation c p code ∷ []
