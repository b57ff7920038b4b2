-- ===== src/Vendor.antt =====
-- packages/market_data/src/trading/market_data/alpaca_raw.py: vendor records to raw trades and quotes. A
-- record is what `json.loads(..., parse_float=Decimal)` gives for an object, with keys that differ. What
-- `str` and `int` of Python make of values that no record should hold is a parameter.
pub mod Mapped
pub mod Files
use Prim.Native.String.{◌++◌}
use self_improving_trading_s.Prelude.{
  ◌+◌, Bool, true, false, Option, none, some, List, [], ◌∷◌, String, codes, lookup, ℤ, pos, negsuc,
}
use self_improving_trading_s.Errors.{
  Result, ok, err, type_error, value_error, overflow_error, raw_record_error, ◌>>=◌,
}
use self_improving_trading_s.Spec.Canonical.{int_text}
use self_improving_trading_s.Decimal.{Decimal, to_int}
use self_improving_trading_s.Ordering.{missing_sequence}
use self_improving_trading_s.Time.Rfc3339.{parse_rfc3339_ns}

pub record RawTrade : Type 0 where
  pub symbol : String
  pub event_time : ℤ
  pub price : Decimal
  pub size : ℤ
  pub exchange : String
  pub conditions : List String
  pub trade_id : String
  pub tape : String
  pub vendor_sequence : ℤ

pub record RawQuote : Type 0 where
  pub symbol : String
  pub event_time : ℤ
  pub bid_price : Decimal
  pub bid_size : ℤ
  pub bid_exchange : String
  pub ask_price : Decimal
  pub ask_size : ℤ
  pub ask_exchange : String
  pub conditions : List String
  pub tape : String
  pub vendor_sequence : ℤ

-- A value of a document. The literals NaN, Infinity and -Infinity are floats even so.
mutual
  pub data Json : Type 0 where
    null : Json
    bool : Bool → Json
    int : ℤ → Json
    decimal : Decimal → Json
    nan : Json
    infinity : Bool → Json
    text : String → Json
    array : Items → Json
    object : Fields → Json

  pub data Items : Type 0 where
    nil : Items
    cons : Json → Items → Items

  pub data Fields : Type 0 where
    end : Fields
    entry : String → Json → Fields → Fields

abbrev pub Record : Type 0
Record = List (String × Json)

-- What is relied on of `str` and `int`: the text of a decimal, an array or an object, and the number
-- that a text denotes.
pub record Builtins : Type 0 where
  pub repr : Json → String
  pub int_of_text : String → Result ℤ

-- `_require`
unfoldable pub require_key : Record → String → Result Json
require_key record_ key = elim (lookup key record_) [
  | none ↦ err raw_record_error
  | some value ↦ ok value
]

-- `Decimal(n)` of an int
unfoldable pub decimal_of_int : ℤ → Decimal
decimal_of_int (pos n) = record { negative = false; coefficient = n; exponent = pos 0 }
decimal_of_int (negsuc n) = record { negative = true; coefficient = n + 1; exponent = pos 0 }

-- `_decimal`; a bool is an int.
unfoldable pub as_decimal : Json → Result Decimal
as_decimal (decimal d) = ok d
as_decimal (int n) = ok (decimal_of_int n)
as_decimal (bool true) = ok (decimal_of_int (pos 1))
as_decimal (bool false) = ok (decimal_of_int (pos 0))
as_decimal null = err raw_record_error
as_decimal nan = err raw_record_error
as_decimal (infinity negative) = err raw_record_error
as_decimal (text s) = err raw_record_error
as_decimal (array xs) = err raw_record_error
as_decimal (object fs) = err raw_record_error

-- The characters of a text, each as a text.
unfoldable pub characters : String → List String
characters String.[] = []
characters (String.◌∷◌ c s) = (String.◌∷◌ c String.[]) ∷ characters s

unfoldable pub keys : Fields → List String
keys end = []
keys (entry k v fs) = k ∷ keys fs

module _ (builtins : Builtins) where
  open builtins use {repr, int_of_text}

  -- `str(value)`
  unfoldable pub str : Json → String
  str (text s) = s
  str (int n) = int_text n
  str null = "None"
  str (bool true) = "True"
  str (bool false) = "False"
  str nan = "nan"
  str (infinity true) = "-inf"
  str (infinity false) = "inf"
  str (decimal d) = repr (decimal d)
  str (array xs) = repr (array xs)
  str (object fs) = repr (object fs)

  -- `int(value)`
  unfoldable pub to_integer : Json → Result ℤ
  to_integer (int n) = ok n
  to_integer (bool true) = ok (pos 1)
  to_integer (bool false) = ok (pos 0)
  to_integer (decimal d) = ok (to_int d)
  to_integer (text s) = int_of_text s
  to_integer nan = err value_error
  to_integer (infinity negative) = err overflow_error
  to_integer null = err type_error
  to_integer (array xs) = err type_error
  to_integer (object fs) = err type_error

  unfoldable pub str_each : Items → List String
  str_each nil = []
  str_each (cons x xs) = str x ∷ str_each xs

  -- `tuple(str(c) for c in value)`
  unfoldable pub conditions_of : Json → Result (List String)
  unfolding characters keys
  conditions_of (array xs) = ok (str_each xs)
  conditions_of (text s) = ok (characters s)
  conditions_of (object fs) = ok (keys fs)
  conditions_of null = err type_error
  conditions_of (bool b) = err type_error
  conditions_of (int n) = err type_error
  conditions_of (decimal d) = err type_error
  conditions_of nan = err type_error
  conditions_of (infinity negative) = err type_error

  -- `record.get("c", ())`, taken through the loop
  unfoldable pub conditions_at : Record → Result (List String)
  unfolding conditions_of
  conditions_at record_ = elim (lookup "c" record_) [
    | none ↦ ok []
    | some value ↦ conditions_of value
  ]

  -- `str(record.get(key, ""))`
  unfoldable pub text_at : Record → String → String
  text_at record_ key = elim (lookup key record_) [ none ↦ "" | some value ↦ str value ]

  -- `int(record.get("q", MISSING_SEQUENCE))`
  unfoldable pub sequence_at : Record → Result ℤ
  sequence_at record_ = elim (lookup "q" record_) [
    | none ↦ ok missing_sequence
    | some value ↦ to_integer value
  ]

  unfoldable pub parse_trade : Record → Result RawTrade
  parse_trade record_ = do
    symbol ← require_key record_ "S"
    at ← require_key record_ "t"
    event_time ← parse_rfc3339_ns (codes (str at))
    p ← require_key record_ "p"
    price ← as_decimal p
    s ← require_key record_ "s"
    size ← to_integer s
    exchange ← require_key record_ "x"
    conditions ← conditions_at record_
    trade_id ← require_key record_ "i"
    vendor_sequence ← sequence_at record_
    ok (record {
      symbol = str symbol;
      event_time = event_time;
      price = price;
      size = size;
      exchange = str exchange;
      conditions = conditions;
      trade_id = str trade_id;
      tape = text_at record_ "z";
      vendor_sequence = vendor_sequence;
    })

  unfoldable pub parse_quote : Record → Result RawQuote
  parse_quote record_ = do
    symbol ← require_key record_ "S"
    at ← require_key record_ "t"
    event_time ← parse_rfc3339_ns (codes (str at))
    bp ← require_key record_ "bp"
    bid_price ← as_decimal bp
    bs ← require_key record_ "bs"
    bid_size ← to_integer bs
    ap_ ← require_key record_ "ap"
    ask_price ← as_decimal ap_
    as_ ← require_key record_ "as"
    ask_size ← to_integer as_
    conditions ← conditions_at record_
    vendor_sequence ← sequence_at record_
    ok (record {
      symbol = str symbol;
      event_time = event_time;
      bid_price = bid_price;
      bid_size = bid_size;
      bid_exchange = text_at record_ "bx";
      ask_price = ask_price;
      ask_size = ask_size;
      ask_exchange = text_at record_ "ax";
      conditions = conditions;
      tape = text_at record_ "z";
      vendor_sequence = vendor_sequence;
    })
