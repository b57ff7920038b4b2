-- ===== src/BannedPatterns/Visitor.antt =====
-- tools/banned_patterns.py: what the visitor reports of a tree, and the checks of files.
use self_improving_trading_s.Prelude.{
  after_text, Bool, true, false, not, ◌&&◌, ◌||◌, if◌then◌else◌, Option, none, some, List, [], ◌∷◌,
  ◌++◌, String, codes, str_eq, in_names,
}
use self_improving_trading_s.BannedPatterns.Syntax.{
  Place, Node, name, attribute, text_constant, constant, display, call, ann_assign, arg,
  function_def, import, import_from, other, Nodes, nil, cons, Keywords, no_keywords, keyword, place,
  is_name, mentions, string_literals,
}
use self_improving_trading_s.BannedPatterns.{
  join_methods, join_key_args, generator_factories, parquet_writers, is_ticker_key, Violation,
  Checker, report,
}

-- `node.attr == attr and isinstance(node.value, ast.Name) and node.value.id in ids`
unfoldable pub is_member : Node → String → (String → Bool) → Bool
is_member (attribute p value attr) member test = str_eq attr member && is_name value test
is_member (name p s) member test = false
is_member (text_constant p s parsed) member test = false
is_member (constant p) member test = false
is_member (display p elts) member test = false
is_member (call p func args kws) member test = false
is_member (ann_assign p target annotation value) member test = false
is_member (arg p annotation) member test = false
is_member (function_def p before returns after) member test = false
is_member (import p names) member test = false
is_member (import_from p module_) member test = false
is_member (other p e children) member test = false

-- `_is_parquet_module`
unfoldable pub is_parquet_module : Node → Bool
is_parquet_module node =
    is_name node (λ s. str_eq s "pq" || str_eq s "parquet")
    || is_member node "parquet" (λ s. str_eq s "pa" || str_eq s "pyarrow")

-- `_is_numpy_random`
unfoldable pub is_numpy_random : Node → Bool
is_numpy_random node =
    is_member node "random" (λ s. str_eq s "np" || str_eq s "numpy")
    || is_name node (λ s. str_eq s "random")

-- `name == "random" or name.startswith("random.")`
unfoldable pub is_random : String → Bool
is_random s =
    str_eq s "random"
    || elim (after_text (codes "random.") (codes s)) [ none ↦ false | some rest ↦ true ]

-- `keyword.arg in _JOIN_KEY_ARGS`
unfoldable pub is_join_arg : Option String → Bool
is_join_arg none = false
is_join_arg (some s) = in_names s join_key_args

module _ (c : Checker) where
  -- `_report`, under a condition
  unfoldable pub report_if : Bool → Place → String → List Violation
  report_if true p code = report c p code
  report_if false p code = []

  unfoldable pub check_annotation : Nodes → List Violation
  check_annotation nil = []
  check_annotation (cons annotation rest) = elim (mentions annotation) [
    | none ↦ []
    | some offender ↦ report c (place offender) "TRD001"
  ]

  unfoldable pub check_names : Place → List String → List Violation
  check_names p [] = []
  check_names p (s ∷ names) = report_if (is_random s) p "TRD004" ++ check_names p names

  unfoldable pub check_module : Place → Option String → List Violation
  check_module p none = []
  check_module p (some module_) = report_if (str_eq module_ "random") p "TRD004"

  unfoldable pub check_join : Place → String → List Violation
  check_join p attr =
      report_if (in_names attr join_methods && (c.in_features && not c.is_pit)) p "TRD002"

  unfoldable pub check_generator : Place → Node → String → List Violation
  check_generator p value attr =
      report_if (in_names attr generator_factories && (is_numpy_random value && not c.is_seeds)) p
        "TRD004"

  unfoldable pub check_parquet_write : Place → Node → String → List Violation
  check_parquet_write p value attr =
      report_if (in_names attr parquet_writers && (not c.is_io && is_parquet_module value)) p
        "TRD007"

  -- The checks of a call that are made of an attribute.
  unfoldable pub check_func : Place → Node → List Violation
  unfolding check_join check_generator check_parquet_write
  check_func p (attribute q value attr) =
      check_join p attr ++ (check_generator p value attr ++ check_parquet_write p value attr)
  check_func p (name q s) = []
  check_func p (text_constant q s parsed) = []
  check_func p (constant q) = []
  check_func p (display q elts) = []
  check_func p (call q func args kws) = []
  check_func p (ann_assign q target annotation value) = []
  check_func p (arg q annotation) = []
  check_func p (function_def q before returns after) = []
  check_func p (import q names) = []
  check_func p (import_from q module_) = []
  check_func p (other q e children) = []

  unfoldable pub check_keys : Place → List String → List Violation
  check_keys p [] = []
  check_keys p (key ∷ keys) = report_if (is_ticker_key key) p "TRD003" ++ check_keys p keys

  unfoldable pub check_join_keys : Keywords → List Violation
  check_join_keys no_keywords = []
  check_join_keys (keyword arg_ value kws) =
      (if is_join_arg arg_ then check_keys (place value) (string_literals value) else [])
      ++ check_join_keys kws

  -- `visit`: what the methods report of a node, then of its children, `generic_visit`.
  unfoldable mutual
    pub visit : Node → List Violation
    visit (name p s) = []
    visit (attribute p value attr) = visit value
    visit (text_constant p s parsed) = []
    visit (constant p) = []
    visit (display p elts) = visit_each elts
    visit (call p func args kws) =
        (check_func p func ++ check_join_keys kws)
        ++ (visit func ++ (visit_each args ++ visit_values kws))
    visit (ann_assign p target annotation value) =
        check_annotation (cons annotation nil)
        ++ (visit target ++ (visit annotation ++ visit_each value))
    visit (arg p annotation) = check_annotation annotation ++ visit_each annotation
    visit (function_def p before returns after) =
        check_annotation returns ++ (visit_each before ++ (visit_each returns ++ visit_each after))
    visit (import p names) = check_names p names
    visit (import_from p module_) = check_module p module_
    visit (other p e children) = visit_each children

    pub visit_each : Nodes → List Violation
    visit_each nil = []
    visit_each (cons n ns) = visit n ++ visit_each ns

    pub visit_values : Keywords → List Violation
    visit_values no_keywords = []
    visit_values (keyword arg_ value kws) = visit value ++ visit_values kws
