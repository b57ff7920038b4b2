-- ===== src/Normalize/Partition.antt =====
-- packages/market_data/src/trading/market_data/normalize.py: `normalize_partition`, from the raw files of
-- a partition to the two contract tables. What the two directories list is an argument.
use Prim.Native.String.{◌++◌}
use self_improving_trading_s.Prelude.{List, [], ◌∷◌, String}
use self_improving_trading_s.Errors.{ok}
use self_improving_trading_s.Arrow.{Arrow}
use self_improving_trading_s.Storage.{Formats}
use self_improving_trading_s.Effects.{Effect, ◌>>=◌, lift, gets}
use self_improving_trading_s.Registry.{Contracts, get}
use self_improving_trading_s.Reference.{ReferenceData}
use self_improving_trading_s.Vendor.{Builtins, parse_trade, parse_quote}
use self_improving_trading_s.Vendor.Files.{Documents, read_partition}
use self_improving_trading_s.Writer.{KnowledgeTimePolicy}
use self_improving_trading_s.Writer.Store.{WriteReceipt, write_contract_table}
use self_improving_trading_s.Snapshot.Paths.{child_path}
use self_improving_trading_s.Normalize.{
  NormalizationContext, Row, normalize_trades, normalize_quotes, to_table,
}

-- `output_root / "normalized" / dataset / f"date={session_date}" / "part-000.parquet"`
unfoldable pub dataset_path : String → String → String → String
dataset_path output_root dataset session_date =
    child_path
      (child_path (child_path (child_path output_root "normalized") dataset)
        ("date=" ++ session_date))
      "part-000.parquet"

-- What `glob` finds in the two directories of a raw partition.
pub record RawListing : Type 0 where
  pub trades : List String
  pub quotes : List String

module _ (arrow : Arrow) (formats : Formats arrow) (contracts : Contracts) where
  open formats use {Bytes}

  -- `write_contract_table(to_table(rows, contract_name), get(contract_name), destination, ...)`
  unfoldable pub write_dataset :
      List Row → String → String → KnowledgeTimePolicy → Effect Bytes WriteReceipt
  write_dataset rows contract_name destination policy = do
    spec ← lift (get contract_name contracts)
    table ← lift (to_table arrow rows spec)
    write_contract_table arrow formats table spec destination policy

  -- The loop over the two datasets.
  unfoldable pub write_tables :
      List Row → List Row → String → String → KnowledgeTimePolicy → Effect Bytes (List WriteReceipt)
  write_tables trade_rows quote_rows output_root date policy = do
    first ←
        write_dataset trade_rows "normalized.trade" (dataset_path output_root "trade" date) policy
    second ←
        write_dataset quote_rows "normalized.quote" (dataset_path output_root "quote" date) policy
    lift (ok (first ∷ second ∷ []))

  unfoldable pub normalize_partition :
      Documents Bytes
      → Builtins
      → RawListing
      → ReferenceData
      → NormalizationContext
      → String
      → Effect Bytes (List WriteReceipt)
  normalize_partition documents builtins listing reference context output_root = do
    trades ← gets (read_partition documents (parse_trade builtins) listing.trades)
    quotes ← gets (read_partition documents (parse_quote builtins) listing.quotes)
    trade_rows ← lift (normalize_trades trades reference.ticker_history context)
    quote_rows ← lift (normalize_quotes quotes reference.ticker_history context)
    write_tables trade_rows quote_rows output_root reference.session.session_date
        context.knowledge_policy
