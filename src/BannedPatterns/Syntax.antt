-- ===== src/BannedPatterns/Syntax.antt =====
-- tools/banned_patterns.py: what it reads of the syntax trees of the module `ast`. The kinds of node that the
-- checker tells apart have constructors of their own; all others are one. An optional node is a list of
-- at most one node.
use self_improving_trading_s.Prelude.{
  ℕ, Bool, true, false, Option, none, some, List, [], ◌∷◌, ◌++◌, String, str_eq, if◌then◌else◌,
}

-- `lineno` and `col_offset`
pub record Place : Type 0 where
  pub line : ℕ
  pub col : ℕ

-- A constant text carries what `ast.parse` makes of it as an expression, nothing for a SyntaxError. A
-- display is a List, a Tuple or a Set; a definition of a function has what stands before its `returns`,
-- the `returns` and what stands after it; both kinds of it are treated alike.
mutual
  pub data Node : Type 0 where
    name : Place → String → Node
    attribute : Place → Node → String → Node
    text_constant : Place → String → Nodes → Node
    constant : Place → Node
    display : Place → Nodes → Node
    call : Place → Node → Nodes → Keywords → Node
    ann_assign : Place → Node → Node → Nodes → Node
    arg : Place → Nodes → Node
    function_def : Place → Nodes → Nodes → Nodes → Node
    import : Place → List String → Node
    import_from : Place → Option String → Node
    other : Place → Bool → Nodes → Node

  pub data Nodes : Type 0 where
    nil : Nodes
    cons : Node → Nodes → Nodes

  -- The name of a keyword is absent in `**mapping`.
  pub data Keywords : Type 0 where
    no_keywords : Keywords
    keyword : Option String → Node → Keywords → Keywords

unfoldable pub place : Node → Place
place (name p s) = p
place (attribute p value attr) = p
place (text_constant p s parsed) = p
place (constant p) = p
place (display p elts) = p
place (call p func args kws) = p
place (ann_assign p target annotation value) = p
place (arg p annotation) = p
place (function_def p before returns after) = p
place (import p names) = p
place (import_from p module_) = p
place (other p e children) = p

-- `isinstance(node, ast.expr)`
unfoldable pub is_expr : Node → Bool
is_expr (name p s) = true
is_expr (attribute p value attr) = true
is_expr (text_constant p s parsed) = true
is_expr (constant p) = true
is_expr (display p elts) = true
is_expr (call p func args kws) = true
is_expr (ann_assign p target annotation value) = false
is_expr (arg p annotation) = false
is_expr (function_def p before returns after) = false
is_expr (import p names) = false
is_expr (import_from p module_) = false
is_expr (other p e children) = e

-- `isinstance(node, ast.Name) and node.id in ids`
unfoldable pub is_name : Node → (String → Bool) → Bool
is_name (name p s) test = test s
is_name (attribute p value attr) test = false
is_name (text_constant p s parsed) test = false
is_name (constant p) test = false
is_name (display p elts) test = false
is_name (call p func args kws) test = false
is_name (ann_assign p target annotation value) test = false
is_name (arg p annotation) test = false
is_name (function_def p before returns after) test = false
is_name (import p names) test = false
is_name (import_from p module_) test = false
is_name (other p e children) test = false

unfoldable pub or_else {ℓ} : {A : Type ℓ} → Option A → Option A → Option A
or_else none later = later
or_else (some a) later = some a

-- What a child of an annotation counts for.
unfoldable pub if_expr : Node → Option Node → Option Node
if_expr n found = if is_expr n then found else none

unfoldable pub instead : Node → Option Node → Option Node
instead n none = none
instead n (some m) = some n

-- `_annotation_mentions_datetime`: the node of an annotation that permits a bare datetime.
unfoldable mutual
  pub mentions : Node → Option Node
  mentions (name p s) = if str_eq s "datetime" then some (name p s) else none
  mentions (attribute p value attr) =
      let inner = mentions value in
      if str_eq attr "datetime"
      then some (attribute p value attr)
      else if is_name value (λ s. str_eq s "datetime")
      then none
      else inner
  mentions (text_constant p s parsed) = instead (text_constant p s parsed) (mentions_in parsed)
  mentions (constant p) = none
  mentions (display p elts) = mentions_in elts
  mentions (call p func args kws) = or_else (if_expr func (mentions func)) (mentions_in args)
  mentions (ann_assign p target annotation value) =
      or_else (if_expr target (mentions target))
        (or_else (if_expr annotation (mentions annotation)) (mentions_in value))
  mentions (arg p annotation) = mentions_in annotation
  mentions (function_def p before returns after) =
      or_else (mentions_in before) (or_else (mentions_in returns) (mentions_in after))
  mentions (import p names) = none
  mentions (import_from p module_) = none
  mentions (other p e children) = mentions_in children

  pub mentions_in : Nodes → Option Node
  mentions_in nil = none
  mentions_in (cons n ns) = or_else (if_expr n (mentions n)) (mentions_in ns)

-- `_string_literals`
unfoldable mutual
  pub string_literals : Node → List String
  string_literals (text_constant p s parsed) = s ∷ []
  string_literals (display p elts) = literals_in elts
  string_literals (name p s) = []
  string_literals (attribute p value attr) = []
  string_literals (constant p) = []
  string_literals (call p func args kws) = []
  string_literals (ann_assign p target annotation value) = []
  string_literals (arg p annotation) = []
  string_literals (function_def p before returns after) = []
  string_literals (import p names) = []
  string_literals (import_from p module_) = []
  string_literals (other p e children) = []

  pub literals_in : Nodes → List String
  literals_in nil = []
  literals_in (cons n ns) = string_literals n ++ literals_in ns
