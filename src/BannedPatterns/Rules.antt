-- ===== src/BannedPatterns/Rules.antt =====
-- tools/banned_patterns.py: the rules of the checker, as what a node of a tree breaks, wherever it stands.
use self_improving_trading_s.Prelude.{
  ◌≡◌, true, false, Bool, Option, some, List, String, in_names, Any,
}
use self_improving_trading_s.BannedPatterns.Syntax.{
  Place, Node, attribute, display, call, ann_assign, arg, function_def, import, import_from, other,
  Nodes, cons, Keywords, keyword, place, mentions, string_literals,
}
use self_improving_trading_s.BannedPatterns.{
  join_methods, join_key_args, generator_factories, parquet_writers, is_ticker_key, Violation,
  is_allowed, Checker, violation,
}
use self_improving_trading_s.BannedPatterns.Visitor.{is_parquet_module, is_numpy_random, is_random}

-- A keyword argument stands among those of a call.
pub data HasKeyword (arg_ : String) (value : Node) : Keywords → Type 0 where
  first : {kws : Keywords} → HasKeyword arg_ value (keyword (some arg_) value kws)
  later :
      {a : Option String} {v : Node} {kws : Keywords}
      → HasKeyword arg_ value kws
      → HasKeyword arg_ value (keyword a v kws)

-- What a node breaks: the place of the offender and the code of the rule.
pub data Breaks (c : Checker) : Node → Place → String → Type 0 where
  -- an annotation permits a bare datetime
  datetime_value :
      {p q : Place} {target annotation offender : Node} {value : Nodes}
      → mentions annotation ≡ some offender
      → place offender ≡ q
      → Breaks c (ann_assign p target annotation value) q "TRD001"
  datetime_arg :
      {p q : Place} {annotation offender : Node} {rest : Nodes}
      → mentions annotation ≡ some offender
      → place offender ≡ q
      → Breaks c (arg p (cons annotation rest)) q "TRD001"
  datetime_returns :
      {p q : Place} {annotation offender : Node} {before rest after : Nodes}
      → mentions annotation ≡ some offender
      → place offender ≡ q
      → Breaks c (function_def p before (cons annotation rest) after) q "TRD001"
  -- a join of features outside pit.py
  joined :
      {p q : Place} {value : Node} {attr : String} {args : Nodes} {kws : Keywords}
      → in_names attr join_methods ≡ true
      → c.in_features ≡ true
      → c.is_pit ≡ false
      → Breaks c (call p (attribute q value attr) args kws) p "TRD002"
  -- a join on a ticker, by a text in the keyword's value
  keyed :
      {p q : Place} {func value : Node} {args : Nodes} {kws : Keywords} {arg_ : String}
      → HasKeyword arg_ value kws
      → in_names arg_ join_key_args ≡ true
      → Any (λ (key : String). is_ticker_key key ≡ true) (string_literals value)
      → place value ≡ q
      → Breaks c (call p func args kws) q "TRD003"
  -- the module of the standard library for random numbers
  random_imported :
      {p : Place} {names : List String}
      → Any (λ (s : String). is_random s ≡ true) names
      → Breaks c (import p names) p "TRD004"
  random_from : {p : Place} → Breaks c (import_from p (some "random")) p "TRD004"
  -- a generator that is made outside seeds.py
  generated :
      {p q : Place} {value : Node} {attr : String} {args : Nodes} {kws : Keywords}
      → in_names attr generator_factories ≡ true
      → is_numpy_random value ≡ true
      → c.is_seeds ≡ false
      → Breaks c (call p (attribute q value attr) args kws) p "TRD004"
  -- parquet that is written outside io.py
  written :
      {p q : Place} {value : Node} {attr : String} {args : Nodes} {kws : Keywords}
      → in_names attr parquet_writers ≡ true
      → is_parquet_module value ≡ true
      → c.is_io ≡ false
      → Breaks c (call p (attribute q value attr) args kws) p "TRD007"

-- A node stands in a tree. What a text is parsed to does not.
mutual
  pub data Within (m : Node) : Node → Type 0 where
    here : Within m m
    in_value :
        {p : Place} {value : Node} {attr : String}
        → Within m value
        → Within m (attribute p value attr)
    in_display : {p : Place} {elts : Nodes} → Among m elts → Within m (display p elts)
    in_func :
        {p : Place} {func : Node} {args : Nodes} {kws : Keywords}
        → Within m func
        → Within m (call p func args kws)
    in_args :
        {p : Place} {func : Node} {args : Nodes} {kws : Keywords}
        → Among m args
        → Within m (call p func args kws)
    in_keywords :
        {p : Place} {func : Node} {args : Nodes} {kws : Keywords}
        → AmongValues m kws
        → Within m (call p func args kws)
    in_target :
        {p : Place} {target annotation : Node} {value : Nodes}
        → Within m target
        → Within m (ann_assign p target annotation value)
    in_annotation :
        {p : Place} {target annotation : Node} {value : Nodes}
        → Within m annotation
        → Within m (ann_assign p target annotation value)
    in_assigned :
        {p : Place} {target annotation : Node} {value : Nodes}
        → Among m value
        → Within m (ann_assign p target annotation value)
    in_arg : {p : Place} {annotation : Nodes} → Among m annotation → Within m (arg p annotation)
    in_before :
        {p : Place} {before returns after : Nodes}
        → Among m before
        → Within m (function_def p before returns after)
    in_returns :
        {p : Place} {before returns after : Nodes}
        → Among m returns
        → Within m (function_def p before returns after)
    in_after :
        {p : Place} {before returns after : Nodes}
        → Among m after
        → Within m (function_def p before returns after)
    in_other :
        {p : Place} {e : Bool} {children : Nodes} → Among m children → Within m (other p e children)

  pub data Among (m : Node) : Nodes → Type 0 where
    in_first : {n : Node} {ns : Nodes} → Within m n → Among m (cons n ns)
    in_rest : {n : Node} {ns : Nodes} → Among m ns → Among m (cons n ns)

  pub data AmongValues (m : Node) : Keywords → Type 0 where
    in_first_value :
        {a : Option String} {v : Node} {kws : Keywords}
        → Within m v
        → AmongValues m (keyword a v kws)
    in_rest_values :
        {a : Option String} {v : Node} {kws : Keywords}
        → AmongValues m kws
        → AmongValues m (keyword a v kws)

-- A violation of a node that no comment of its line allows.
abbrev pub Reported : Checker → Node → Violation → Type 0
Reported c n v =
    (q : Place) × (code : String) × Breaks c n q code
    × (is_allowed c.lines q.line code ≡ false)
    × (violation c q code ≡ v)
