-- ===== src/Examples/Sources.antt =====
-- Sources under the checker of banned patterns.
use self_improving_trading_s.Prelude.{
  has_part, after_text, same_codes, ◌≡◌, ◌↔◌, refl, false, some, [], ◌∷◌, String, All, sorted_by,
  insert_by,
}
use self_improving_trading_s.BannedPatterns.Syntax.{
  Node, name, attribute, text_constant, call, other, nil, cons, no_keywords, keyword, place,
  is_name, string_literals,
}
use self_improving_trading_s.BannedPatterns.{
  Violation, violation, report, is_allowed, line_at, search_allow, match_allow, match_code,
  has_reason, skip_spaces, is_digit, is_ticker_key, lowered, lower,
}
use self_improving_trading_s.BannedPatterns.Visitor.{
  visit, check_func, check_join, check_generator, check_parquet_write, check_join_keys, check_keys,
  is_join_arg, report_if, is_parquet_module, is_numpy_random, is_member,
}
use self_improving_trading_s.BannedPatterns.Files.{
  Source, module_tree, checker, is_called, last_part, check_source, main,
}
use self_improving_trading_s.BannedPatterns.Reports.{Has}
use self_improving_trading_s.BannedPatterns.Checked.{Told}
use self_improving_trading_s.BannedPatterns.Told.{visit_iff}
use self_improving_trading_s.BannedPatterns.Clean.{IsClean, main_iff}
use self_improving_trading_s.Time.Rfc3339.{decimal_digit, digit_of}

-- left.merge(right, on="Ticker")
abbrev merge_call : Node
merge_call =
    call (record { line = 1; col = 0 })
      (attribute (record { line = 1; col = 0 }) (name (record { line = 1; col = 0 }) "left")
        "merge")
      (cons (name (record { line = 1; col = 11 }) "right") nil)
      (keyword (some "on") (text_constant (record { line = 1; col = 21 }) "Ticker" nil) no_keywords)

abbrev tree : Node
tree = other (record { line = 0; col = 0 }) false (cons merge_call nil)

abbrev feature_path : String
feature_path = "packages/features/src/trading/features/ratios.py"

abbrev bare : Source
bare = record { lines = "left.merge(right, on=\"Ticker\")" ∷ []; tree = module_tree tree }

abbrev allowed : Source
allowed = record {
  lines = "left.merge(right, on=\"Ticker\")  # allow: TRD003 a fixture" ∷ [];
  tree = module_tree tree;
}

abbrev ticker_key : Violation
ticker_key = record { path = feature_path; line = 1; col = 21; code = "TRD003" }

abbrev raw_join : Violation
raw_join = record { path = feature_path; line = 1; col = 0; code = "TRD002" }

bare_run : check_source feature_path bare ≡ raw_join ∷ ticker_key ∷ []
unfolding check_source visit check_func check_join check_generator check_parquet_write
    check_join_keys check_keys is_join_arg report_if is_parquet_module is_numpy_random is_member
    checker has_part is_called last_part report is_allowed line_at search_allow match_allow
    match_code after_text has_reason skip_spaces is_digit is_ticker_key same_codes lowered lower
    violation place is_name string_literals sorted_by insert_by decimal_digit digit_of
bare_run = refl

allowed_run : check_source feature_path allowed ≡ raw_join ∷ []
unfolding check_source visit check_func check_join check_generator check_parquet_write
    check_join_keys check_keys is_join_arg report_if is_parquet_module is_numpy_random is_member
    checker has_part is_called last_part report is_allowed line_at search_allow match_allow
    match_code after_text has_reason skip_spaces is_digit is_ticker_key same_codes lowered lower
    violation place is_name string_literals sorted_by insert_by decimal_digit digit_of
allowed_run = refl

visit_iff_example :
    Has ticker_key (visit (checker feature_path bare.lines) tree)
    ↔ Told (checker feature_path bare.lines) ticker_key tree
visit_iff_example = visit_iff (checker feature_path bare.lines) ticker_key tree

abbrev read : String → Source
read path = bare

main_iff_example :
    ((main read (feature_path ∷ [])).1 ≡ 0)
    ↔ All (λ (path : String). IsClean path (read path)) (feature_path ∷ [])
main_iff_example = main_iff read (feature_path ∷ [])
