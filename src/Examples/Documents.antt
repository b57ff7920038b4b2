-- ===== src/Examples/Documents.antt =====
-- Documents under the canonical encoder.
use self_improving_trading_s.Prelude.{
  ◌≡◌, refl, true, List, [], ◌∷◌, String, codes, pos, swapped, sorted_by, insert_by,
}
use self_improving_trading_s.Errors.{ok, err, canonical_encoding_error}
use self_improving_trading_s.CanonicalJson.{
  Value, int_value, float_value, text_value, list_value, and_value, no_values, truth_value, put,
  collect, canonicalize, dumps, encode, entry_texts, escape_each, escaped, joined_by_comma, quoted,
}
use self_improving_trading_s.CanonicalJson.Order.{
  entries_from, HoldExact, encode-Reordered, encode-IsExact,
}
use self_improving_trading_s.Examples.Sessions.{str_differ}

abbrev unchanged : String → String
unchanged s = s

abbrev items : List (String × Value)
items =
    ("version", int_value (pos 2))
    ∷ (
      "labels",
      list_value (and_value (text_value "a\"b") (and_value (truth_value true) no_values)),
    )
    ∷ []

abbrev reversed : List (String × Value)
reversed =
    ("labels", list_value (and_value (text_value "a\"b") (and_value (truth_value true) no_values)))
    ∷ ("version", int_value (pos 2))
    ∷ []

encode_run :
    encode unchanged (entries_from items)
    ≡ ok (codes "{\"labels\":[\"a\\\"b\",true],\"version\":2}")
unfolding encode entries_from canonicalize collect put dumps entry_texts quoted escape_each escaped
    joined_by_comma sorted_by insert_by self_improving_trading_s.Spec.Canonical.int_text
encode_run = refl

float_run :
    encode unchanged (entries_from (("rate", float_value) ∷ [])) ≡ err canonical_encoding_error
unfolding encode entries_from canonicalize collect put dumps entry_texts quoted escape_each escaped
    joined_by_comma sorted_by insert_by self_improving_trading_s.Spec.Canonical.int_text
float_run = refl

encode-Reordered_example :
    encode unchanged (entries_from items) ≡ encode unchanged (entries_from reversed)
encode-Reordered_example =
    encode-Reordered unchanged
      (swapped ("version", int_value (pos 2))
        (
          "labels",
          list_value (and_value (text_value "a\"b") (and_value (truth_value true) no_values)),
        )
        [])
      ((str_differ "version" "labels" refl, tt), (tt, tt))

encode-IsExact_example : HoldExact (entries_from items)
encode-IsExact_example = encode-IsExact unchanged (entries_from items) encode_run
