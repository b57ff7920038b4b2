-- ===== src/Reference.antt =====
-- packages/market_data/src/trading/market_data/reference.py: the reference bundle of a partition, and
-- the trading session. A number with a fraction is a float here, which the bundle does not hold.
-- `body[key]` and the truth of a value are those of Python.
use self_improving_trading_s.Prelude.{
  Bool, true, false, not, ◌&&◌, if◌then◌else◌, ◌==◌, Option, none, some, List, [], ◌∷◌, String,
  codes, str_eq, ℤ, pos, negsuc, leb_ℤ, ltb_ℤ,
}
use self_improving_trading_s.Errors.{Result, ok, err, key_error, type_error, ◌>>=◌}
use self_improving_trading_s.Instrument.{TickerAssignment}
use self_improving_trading_s.Time.Rfc3339.{parse_rfc3339_ns}
use self_improving_trading_s.Vendor.{
  Json, null, bool, int, decimal, nan, infinity, text, array, object, Items, nil, cons, Fields, end,
  entry, Builtins, str, to_integer, characters, keys,
}

pub record Session : Type 0 where
  pub session_date : String
  pub is_trading_day : Bool
  pub regular_open_ns : ℤ
  pub regular_close_ns : ℤ
  pub is_early_close : Bool

-- `Session.contains`
unfoldable pub contains : Session → ℤ → Bool
contains session at = leb_ℤ session.regular_open_ns at && ltb_ℤ at session.regular_close_ns

pub record ReferenceData : Type 0 where
  pub instrument_id : ℤ
  pub primary_exchange : String
  pub security_type : String
  pub lot_size : ℤ
  pub ticker_history : List TickerAssignment
  pub session : Session

unfoldable pub field_of : String → Fields → Option Json
field_of key end = none
field_of key (entry k v fields) =
    let later = field_of key fields in if str_eq k key then some v else later

-- `body[key]`
unfoldable pub item : Json → String → Result Json
unfolding field_of
item (object fields) key = elim (field_of key fields) [ none ↦ err key_error | some v ↦ ok v ]
item null key = err type_error
item (bool b) key = err type_error
item (int n) key = err type_error
item (decimal d) key = err type_error
item nan key = err type_error
item (infinity negative) key = err type_error
item (text s) key = err type_error
item (array xs) key = err type_error

-- `bool(value)`
unfoldable pub truth : Json → Bool
truth null = false
truth (bool b) = b
truth (int n) = elim n [ pos k ↦ not (k == 0) | negsuc k ↦ true ]
truth (decimal d) = not (d.coefficient == 0)
truth nan = true
truth (infinity negative) = true
truth (text s) = not (str_eq s "")
truth (array xs) = elim xs [ nil ↦ false | cons x more ↦ true ]
truth (object fields) = elim fields [ end ↦ false | entry k v more ↦ true ]

texts_of : List String → Items
texts_of [] = nil
texts_of (s ∷ ss) = cons (text s) (texts_of ss)

-- What a loop over a value goes through.
unfoldable pub iterate : Json → Result Items
unfolding texts_of
iterate (array xs) = ok xs
iterate (text s) = ok (texts_of (characters s))
iterate (object fields) = ok (texts_of (keys fields))
iterate null = err type_error
iterate (bool b) = err type_error
iterate (int n) = err type_error
iterate (decimal d) = err type_error
iterate nan = err type_error
iterate (infinity negative) = err type_error

module _ (builtins : Builtins) where
  -- `parse_rfc3339_ns(str(row[key]))`
  unfoldable pub instant_at : Json → String → Result ℤ
  instant_at row key = do value ← item row key; parse_rfc3339_ns (codes (str builtins value))

  -- `... if row.get("end_time") else None`, of a row that has passed `row[...]` and so is a dict
  unfoldable pub end_time_of : Json → Result (Option ℤ)
  unfolding instant_at
  end_time_of row =
      let ended : Result (Option ℤ) = (do at ← instant_at row "end_time"; ok (some at)) in
      elim (item row "end_time") [
        | err e ↦ ok none
        | ok value ↦ if truth value then ended else ok none
      ]

  unfoldable pub assignment_of : Json → Result TickerAssignment
  unfolding instant_at end_time_of
  assignment_of row = do
    id ← item row "instrument_id"
    instrument_id ← to_integer builtins id
    ticker ← item row "ticker"
    effective_time ← instant_at row "effective_time"
    end_time ← end_time_of row
    ok (record {
      instrument_id = instrument_id;
      ticker = str builtins ticker;
      effective_time = effective_time;
      end_time = end_time;
    })

  unfoldable pub history_of : Items → Result (List TickerAssignment)
  unfolding assignment_of
  history_of nil = ok []
  history_of (cons row rows) = do
    first ← assignment_of row
    rest ← history_of rows
    ok (first ∷ rest)

  unfoldable pub session_of : Json → Result Session
  session_of calendar = do
    session_date ← item calendar "session_date"
    is_trading_day ← item calendar "is_trading_day"
    open_ ← item calendar "regular_open_ns"
    regular_open_ns ← to_integer builtins open_
    close ← item calendar "regular_close_ns"
    regular_close_ns ← to_integer builtins close
    is_early_close ← item calendar "is_early_close"
    ok (record {
      session_date = str builtins session_date;
      is_trading_day = truth is_trading_day;
      regular_open_ns = regular_open_ns;
      regular_close_ns = regular_close_ns;
      is_early_close = truth is_early_close;
    })

  -- `load`, of the parsed document
  unfoldable pub load_reference : Json → Result ReferenceData
  unfolding history_of session_of
  load_reference body = do
    instrument ← item body "instrument"
    calendar ← item body "calendar"
    id ← item instrument "instrument_id"
    instrument_id ← to_integer builtins id
    primary_exchange ← item instrument "primary_exchange"
    security_type ← item instrument "security_type"
    lot ← item instrument "lot_size"
    lot_size ← to_integer builtins lot
    rows ← item body "ticker_history"
    assignments ← iterate rows
    ticker_history ← history_of assignments
    session ← session_of calendar
    ok (record {
      instrument_id = instrument_id;
      primary_exchange = str builtins primary_exchange;
      security_type = str builtins security_type;
      lot_size = lot_size;
      ticker_history = ticker_history;
      session = session;
    })
