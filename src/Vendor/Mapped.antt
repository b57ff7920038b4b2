-- ===== src/Vendor/Mapped.antt =====
-- What a record is mapped to, and the records that are refused.
use self_improving_trading_s.Prelude.{
  ◌≡◌, refl, ap, ◌∙◌, true, false, some, List, [], ◌∷◌, ◌++◌, String, codes, lookup, ℤ, pos, All,
  Option-cases, inl, inr,
}
use self_improving_trading_s.Errors.{ok, >>=-eq-ok, ok-injective}
use self_improving_trading_s.Decimal.{Decimal}
use self_improving_trading_s.Time.Rfc3339.{parse_rfc3339_ns}
use self_improving_trading_s.Vendor.{
  RawTrade, RawQuote, Json, null, bool, int, decimal, nan, infinity, text, array, object, Items,
  nil, cons, Record, Builtins, require_key, decimal_of_int, as_decimal, str, to_integer, str_each,
  conditions_of, conditions_at, text_at, sequence_at, parse_trade, parse_quote,
}

-- A list of texts, as the array of a document.
unfoldable pub items_of : List String → Items
items_of [] = nil
items_of (s ∷ ss) = cons (text s) (items_of ss)

-- A record of the vendor's for a trade, its time as a text.
unfoldable pub trade_record : RawTrade → String → Record
trade_record t at =
    ("S", text t.symbol)
    ∷ ("t", text at)
    ∷ ("p", decimal t.price)
    ∷ ("s", int t.size)
    ∷ ("x", text t.exchange)
    ∷ ("c", array (items_of t.conditions))
    ∷ ("i", text t.trade_id)
    ∷ ("z", text t.tape)
    ∷ ("q", int t.vendor_sequence)
    ∷ []

unfoldable pub quote_record : RawQuote → String → Record
quote_record q at =
    ("S", text q.symbol)
    ∷ ("t", text at)
    ∷ ("bp", decimal q.bid_price)
    ∷ ("bs", int q.bid_size)
    ∷ ("bx", text q.bid_exchange)
    ∷ ("ap", decimal q.ask_price)
    ∷ ("as", int q.ask_size)
    ∷ ("ax", text q.ask_exchange)
    ∷ ("c", array (items_of q.conditions))
    ∷ ("z", text q.tape)
    ∷ ("q", int q.vendor_sequence)
    ∷ []

-- The keys without which a record is refused.
abbrev pub trade_keys : List String
trade_keys = "S" ∷ "t" ∷ "p" ∷ "s" ∷ "x" ∷ "i" ∷ []

abbrev pub quote_keys : List String
quote_keys = "S" ∷ "t" ∷ "bp" ∷ "bs" ∷ "ap" ∷ "as" ∷ []

abbrev pub HasKey : Record → String → Type 0
HasKey r key = (value : Json) × (lookup key r ≡ some value)

-- A number of a document and the decimal that it is; a bool is an int.
pub data IsNumber : Json → Decimal → Type 0 where
  exact : (d : Decimal) → IsNumber (decimal d) d
  whole : (n : ℤ) → IsNumber (int n) (decimal_of_int n)
  one : IsNumber (bool true) (decimal_of_int (pos 1))
  nought : IsNumber (bool false) (decimal_of_int (pos 0))

require_key-eq :
    (r : Record) (key : String) {v : Json} → require_key r key ≡ ok v → lookup key r ≡ some v
unfolding require_key
require_key-eq r key {v} h = elim (Option-cases (lookup key r)) [
  | inl e ↦ cc (rw (e, require_key) at h)
  | inr (w, e) ↦ e ∙ ap some (ok-injective (rw (e, require_key) at h))
]

as_decimal-IsNumber : (v : Json) {d : Decimal} → as_decimal v ≡ ok d → IsNumber v d
unfolding as_decimal
as_decimal-IsNumber (decimal e) h = rw (← ok-injective h) (exact e)
as_decimal-IsNumber (int n) h = rw (← ok-injective h) (whole n)
as_decimal-IsNumber (bool true) h = rw (← ok-injective h) one
as_decimal-IsNumber (bool false) h = rw (← ok-injective h) nought
as_decimal-IsNumber null h = cc
as_decimal-IsNumber nan h = cc
as_decimal-IsNumber (infinity negative) h = cc
as_decimal-IsNumber (text s) h = cc
as_decimal-IsNumber (array xs) h = cc
as_decimal-IsNumber (object fs) h = cc

-- A key holds a number that is the decimal.
abbrev pub HoldsNumber : Record → String → Decimal → Type 0
HoldsNumber r key d = (v : Json) × (lookup key r ≡ some v) × IsNumber v d

module _ (builtins : Builtins) where
  str_each-items : (ss : List String) → str_each builtins (items_of ss) ≡ ss
  unfolding str_each items_of str
  str_each-items [] = refl
  str_each-items (s ∷ ss) = ap (λ ts. s ∷ ts) (str_each-items ss)

  -- The record of a trade is mapped to the trade, whatever other keys it has, if its text of the time is
  -- parsed to the trade's time.
  pub parse_trade-record :
      (t : RawTrade) (at : String) (others : Record)
      → parse_rfc3339_ns (codes at) ≡ ok t.event_time
      → parse_trade builtins (trade_record t at ++ others) ≡ ok t
  unfolding parse_trade trade_record require_key str to_integer as_decimal conditions_at
      conditions_of text_at sequence_at
  parse_trade-record t at others h = rw (h, str_each-items t.conditions)

  -- The record of a quote is mapped to the quote, whatever other keys it has, if its text of the time is
  -- parsed to the quote's time.
  pub parse_quote-record :
      (q : RawQuote) (at : String) (others : Record)
      → parse_rfc3339_ns (codes at) ≡ ok q.event_time
      → parse_quote builtins (quote_record q at ++ others) ≡ ok q
  unfolding parse_quote quote_record require_key str to_integer as_decimal conditions_at
      conditions_of text_at sequence_at
  parse_quote-record q at others h = rw (h, str_each-items q.conditions)

  -- A key holds an instant, as a text.
  abbrev pub HoldsTime : Record → String → ℤ → Type 0
  HoldsTime r key t =
      (v : Json) × (lookup key r ≡ some v) × (parse_rfc3339_ns (codes (str builtins v)) ≡ ok t)

  -- If a record is mapped to a trade, it has every key that is required, the text of the time is parsed
  -- to the trade's time, and the price is exactly the number of the record, which is no float.
  pub parse_trade_lem :
      (r : Record) {t : RawTrade}
      → parse_trade builtins r ≡ ok t
      → All (HasKey r) trade_keys × HoldsTime r "t" t.event_time × HoldsNumber r "p" t.price
  unfolding parse_trade
  parse_trade_lem r h =
      let (symbol, a, h1) = >>=-eq-ok (require_key r "S") _ h in
      let (at, b, h2) = >>=-eq-ok (require_key r "t") _ h1 in
      let (time, c, h3) = >>=-eq-ok (parse_rfc3339_ns (codes (str builtins at))) _ h2 in
      let (p, d, h4) = >>=-eq-ok (require_key r "p") _ h3 in
      let (price, e, h5) = >>=-eq-ok (as_decimal p) _ h4 in
      let (s, f, h6) = >>=-eq-ok (require_key r "s") _ h5 in
      let (size, g, h7) = >>=-eq-ok (to_integer builtins s) _ h6 in
      let (x, i, h8) = >>=-eq-ok (require_key r "x") _ h7 in
      let (conditions, j, h9) = >>=-eq-ok (conditions_at builtins r) _ h8 in
      let (id, k, h10) = >>=-eq-ok (require_key r "i") _ h9 in
      let (sequence, l, h11) = >>=-eq-ok (sequence_at builtins r) _ h10 in
      let key =
        λ (name : String) (v : Json) (m : require_key r name ≡ ok v). require_key-eq r name m in
      rw (← ok-injective h11) (
        (
          (symbol, key "S" symbol a),
          (
            (at, key "t" at b),
            ((p, key "p" p d), ((s, key "s" s f), ((x, key "x" x i), ((id, key "i" id k), tt)))),
          ),
        ),
        (at, key "t" at b, c),
        (p, key "p" p d, as_decimal-IsNumber p e),
      )

  -- If a record is mapped to a quote, it has every key that is required, the text of the time is parsed
  -- to the quote's time, and both prices are exactly the numbers of the record, which are no floats.
  pub parse_quote_lem :
      (r : Record) {q : RawQuote}
      → parse_quote builtins r ≡ ok q
      → All (HasKey r) quote_keys
        × HoldsTime r "t" q.event_time
        × HoldsNumber r "bp" q.bid_price
        × HoldsNumber r "ap" q.ask_price
  unfolding parse_quote
  parse_quote_lem r h =
      let (symbol, a, h1) = >>=-eq-ok (require_key r "S") _ h in
      let (at, b, h2) = >>=-eq-ok (require_key r "t") _ h1 in
      let (time, c, h3) = >>=-eq-ok (parse_rfc3339_ns (codes (str builtins at))) _ h2 in
      let (bp, d, h4) = >>=-eq-ok (require_key r "bp") _ h3 in
      let (bid, e, h5) = >>=-eq-ok (as_decimal bp) _ h4 in
      let (bs, f, h6) = >>=-eq-ok (require_key r "bs") _ h5 in
      let (bid_size, g, h7) = >>=-eq-ok (to_integer builtins bs) _ h6 in
      let (ask, i, h8) = >>=-eq-ok (require_key r "ap") _ h7 in
      let (ask_price, j, h9) = >>=-eq-ok (as_decimal ask) _ h8 in
      let (as_size, k, h10) = >>=-eq-ok (require_key r "as") _ h9 in
      let (ask_size, l, h11) = >>=-eq-ok (to_integer builtins as_size) _ h10 in
      let (conditions, m, h12) = >>=-eq-ok (conditions_at builtins r) _ h11 in
      let (sequence, n, h13) = >>=-eq-ok (sequence_at builtins r) _ h12 in
      let key =
        λ (name : String) (v : Json) (w : require_key r name ≡ ok v). require_key-eq r name w in
      rw (← ok-injective h13) (
        (
          (symbol, key "S" symbol a),
          (
            (at, key "t" at b),
            (
              (bp, key "bp" bp d),
              ((bs, key "bs" bs f), ((ask, key "ap" ask i), ((as_size, key "as" as_size k), tt))),
            ),
          ),
        ),
        (at, key "t" at b, c),
        (bp, key "bp" bp d, as_decimal-IsNumber bp e),
        (ask, key "ap" ask i, as_decimal-IsNumber ask j),
      )
