-- ===== src/Pipeline/Inputs.antt =====
-- packages/market_data/src/trading/market_data/pipeline.py: `_bars_from`, the trades of a stored table.
use self_improving_trading_s.Prelude.{List, [], ◌∷◌, String, ℤ, if◌then◌else◌, str_eq}
use self_improving_trading_s.Errors.{
  Result, ok, err, stop_iteration, type_error, value_error, ◌>>=◌,
}
use self_improving_trading_s.Arrow.{Arrow, Cell, null, int, text, texts, bool}
use self_improving_trading_s.Storage.{Formats, Files}
use self_improving_trading_s.Registry.{Contracts, get}
use self_improving_trading_s.Writer.Store.{WriteReceipt, read_contract_table}
use self_improving_trading_s.Bars.{TradeInput}

-- The receipt of a contract: `next(r for r in receipts if r.contract == name)`
unfoldable pub receipt_for : String → List WriteReceipt → Result WriteReceipt
receipt_for name [] = err stop_iteration
receipt_for name (r ∷ receipts) =
    let later = receipt_for name receipts in if str_eq r.contract name then ok r else later

-- A number of a column. None, which a column of numbers could hold, fails here and not where it is used.
unfoldable pub number : Cell → Result ℤ
number (int n) = ok n
number null = err type_error
number (text s) = err type_error
number (texts ss) = err type_error
number (bool b) = err type_error

-- `tuple(conditions or ())`
unfoldable pub condition_texts : Cell → Result (List String)
condition_texts (texts ss) = ok ss
condition_texts null = ok []
condition_texts (int n) = err type_error
condition_texts (text s) = err type_error
condition_texts (bool b) = err type_error

-- The tuples of the `zip`, which is strict.
unfoldable pub trade_inputs :
    List Cell → List Cell → List Cell → List Cell → List Cell → Result (List TradeInput)
unfolding number condition_texts
trade_inputs [] [] [] [] [] = ok []
trade_inputs (t ∷ ts) (p ∷ ps) (s ∷ ss) (c ∷ cs) (i ∷ is) = do
  event_time ← number t
  price_nano ← number p
  size_shares ← number s
  conditions ← condition_texts c
  instrument_id ← number i
  rest ← trade_inputs ts ps ss cs is
  ok (
      record {
        event_time = event_time;
        price_nano = price_nano;
        size_shares = size_shares;
        conditions = conditions;
        instrument_id = instrument_id;
      }
      ∷ rest)
trade_inputs ts ps ss cs is = err value_error

module _ (arrow : Arrow) where
  open arrow use {Table, column}

  unfoldable pub inputs_of : Table → Result (List TradeInput)
  inputs_of t =
      trade_inputs (column t "event_time") (column t "price_nano") (column t "size_shares")
        (column t "conditions") (column t "instrument_id")

  -- `_bars_from`
  unfoldable pub stored_trades :
      (formats : Formats arrow)
      → Contracts
      → List WriteReceipt
      → Files formats.Bytes
      → Result (List TradeInput)
  stored_trades formats contracts receipts files = do
    receipt ← receipt_for "normalized.trade" receipts
    spec ← get "normalized.trade" contracts
    t ← read_contract_table arrow formats receipt.path spec files
    inputs_of t
