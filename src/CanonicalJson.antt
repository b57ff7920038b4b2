-- ===== src/CanonicalJson.antt =====
-- packages/schemas/src/trading/schemas/canonical_json.py: the encoder of hashed documents. The normal form
-- NFC of a text and the hash of a text are parameters; the path in a message is not kept.
pub mod Order
use self_improving_trading_s.Prelude.{
  ℕ, ◌+◌, ◌-◌, ◌/◌, ◌%◌, ◌==◌, ltb, Bool, true, false, if◌then◌else◌, List, [], ◌∷◌, ◌++◌, String,
  codes, str_eq, ℤ, sorted_by, text_ord,
}
use self_improving_trading_s.Errors.{Result, ok, err, canonical_encoding_error, ◌>>=◌}
use self_improving_trading_s.Spec.Canonical.{int_text}

-- A value of a document. A list and a tuple are alike; a value of any other class is foreign.
mutual
  pub data Value : Type 0 where
    none_value : Value
    truth_value : Bool → Value
    int_value : ℤ → Value
    float_value : Value
    text_value : String → Value
    list_value : Values → Value
    dict_value : Entries → Value
    foreign_value : Value

  pub data Values : Type 0 where
    no_values : Values
    and_value : Value → Values → Values

  pub data Entries : Type 0 where
    no_entries : Entries
    and_entry : String → Value → Entries → Entries

-- A dict that takes a key keeps the place of a key that it has.
unfoldable pub put : String → Value → Entries → Entries
put k v no_entries = and_entry k v no_entries
put k v (and_entry j w es) =
    let later = put k v es in if str_eq j k then and_entry j v es else and_entry j w later

module _ (nfc : String → String) where
  -- The dict comprehension over the sorted items, from a dict on.
  unfoldable pub collect : List (String × Result Value) → Entries → Result Entries
  collect [] dict = ok dict
  collect ((key, item) ∷ items) dict = do value ← item; collect items (put (nfc key) value dict)

  -- `_canonicalize`
  unfoldable mutual
    pub canonicalize : Value → Result Value
    canonicalize none_value = ok none_value
    canonicalize (truth_value b) = ok (truth_value b)
    canonicalize (int_value n) = ok (int_value n)
    canonicalize float_value = err canonical_encoding_error
    canonicalize (text_value s) = ok (text_value (nfc s))
    canonicalize (list_value vs) = do values ← canonicalize_each vs; ok (list_value values)
    canonicalize (dict_value es) = do
      dict ←
          collect (sorted_by text_ord (λ (e : String × Result Value). e.0) (canonical_items es))
            no_entries
      ok (dict_value dict)
    canonicalize foreign_value = err canonical_encoding_error

    pub canonicalize_each : Values → Result Values
    canonicalize_each no_values = ok no_values
    canonicalize_each (and_value v vs) = do
      value ← canonicalize v
      values ← canonicalize_each vs
      ok (and_value value values)

    -- Each item with what its value is canonicalized to.
    pub canonical_items : Entries → List (String × Result Value)
    canonical_items no_entries = []
    canonical_items (and_entry k v es) = (k, canonicalize v) ∷ canonical_items es

-- A digit in hexadecimal.
unfoldable pub hex_digit : ℕ → ℕ
hex_digit d = if ltb d 10 then b'0' + d else b'a' + (d - 10)

-- A character in a JSON text, with `ensure_ascii=False`.
unfoldable pub escaped : ℕ → List ℕ
unfolding hex_digit
escaped c =
    if c == b'"'
    then codes "\\\""
    else if c == 92
    then codes "\\\\"
    else if c == 10
    then codes "\\n"
    else if c == 13
    then codes "\\r"
    else if c == 9
    then codes "\\t"
    else if c == 12
    then codes "\\f"
    else if c == 8
    then codes "\\b"
    else if ltb c 32
    then codes "\\u00" ++ (hex_digit (c / 16) ∷ hex_digit (c % 16) ∷ [])
    else c ∷ []

unfoldable pub escape_each : List ℕ → List ℕ
unfolding escaped
escape_each [] = []
escape_each (c ∷ cs) = escaped c ++ escape_each cs

unfoldable pub quoted : String → List ℕ
unfolding escape_each
quoted s = b'"' ∷ (escape_each (codes s) ++ (b'"' ∷ []))

-- `",".join(parts)`
unfoldable pub joined_by_comma : List (List ℕ) → List ℕ
joined_by_comma [] = []
joined_by_comma (part ∷ []) = part
joined_by_comma (part ∷ next ∷ parts) = part ++ (b',' ∷ joined_by_comma (next ∷ parts))

unfoldable pub entry_texts : List (String × List ℕ) → List (List ℕ)
unfolding quoted
entry_texts [] = []
entry_texts ((k, v) ∷ es) = (quoted k ++ (b':' ∷ v)) ∷ entry_texts es

-- `json.dumps(value, sort_keys=True, separators=(",", ":"), ensure_ascii=False)`, of a canonical value
unfoldable mutual
  pub dumps : Value → List ℕ
  dumps none_value = codes "null"
  dumps (truth_value true) = codes "true"
  dumps (truth_value false) = codes "false"
  dumps (int_value n) = codes (int_text n)
  dumps float_value = []
  dumps (text_value s) = quoted s
  dumps (list_value vs) = b'[' ∷ (joined_by_comma (dumps_each vs) ++ (b']' ∷ []))
  dumps (dict_value es) =
      b'{'
      ∷ (joined_by_comma
            (entry_texts (sorted_by text_ord (λ (e : String × List ℕ). e.0) (dumps_items es)))
          ++ (b'}' ∷ []))
  dumps foreign_value = []

  pub dumps_each : Values → List (List ℕ)
  dumps_each no_values = []
  dumps_each (and_value v vs) = dumps v ∷ dumps_each vs

  pub dumps_items : Entries → List (String × List ℕ)
  dumps_items no_entries = []
  dumps_items (and_entry k v es) = (k, dumps v) ∷ dumps_items es

-- `encode`, as code points
unfoldable pub encode : (String → String) → Entries → Result (List ℕ)
encode nfc document = do value ← canonicalize nfc (dict_value document); ok (dumps value)

-- `document_hash`, of the hash of a text
unfoldable pub document_hash : (String → String) → (List ℕ → String) → Entries → Result String
document_hash nfc text_hash document = do text ← encode nfc document; ok (text_hash text)
