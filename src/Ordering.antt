-- ===== src/Ordering.antt =====
-- packages/schemas/src/trading/schemas/ordering.py: the key of the total order of events.
pub mod Total
use self_improving_trading_s.Prelude.{
  ℕ, ◌^◌, ◌-◌, ◌≡◌, Bool, true, false, ℤ, pos, negsuc, sub_ℕ, ltb_ℤ, LinOrd, int_ord, lex_lt,
  lex_ord, if◌then◌else◌,
}
use self_improving_trading_s.Errors.{Result, ok, err, value_error}

-- `SourceRank`
pub data SourceRank : Type 0 where
  session status luld reference quote trade bar synthetic : SourceRank

-- `int(rank)`
abbrev pub rank_value : SourceRank → ℤ
rank_value session = pos 0
rank_value status = pos 1
rank_value luld = pos 2
rank_value reference = pos 3
rank_value quote = pos 4
rank_value trade = pos 5
rank_value bar = pos 6
rank_value synthetic = pos 7

-- `MISSING_SEQUENCE`
abbrev pub missing_sequence : ℤ
missing_sequence = negsuc 0

-- The rank is kept as its int, which is what an `IntEnum` compares by and what a row stores.
pub record OrderingKey : Type 0 where
  pub event_time : ℤ
  pub source_rank : ℤ
  pub vendor_sequence : ℤ
  pub venue_sequence : ℤ
  pub ingest_index : ℤ

-- The tuple of the fields, by which a dataclass with `order=True` compares.
abbrev pub key_tuple : OrderingKey → ℤ × (ℤ × (ℤ × (ℤ × ℤ)))
key_tuple k =
    (k.event_time, (k.source_rank, (k.vendor_sequence, (k.venue_sequence, k.ingest_index))))

abbrev pub tuple_ord : LinOrd (ℤ × (ℤ × (ℤ × (ℤ × ℤ))))
tuple_ord = lex_ord int_ord (lex_ord int_ord (lex_ord int_ord (lex_ord int_ord int_ord)))

-- `BEFORE_ALL`
abbrev pub before_all : OrderingKey
before_all = record {
  event_time = sub_ℕ 0 (2 ^ 63);
  source_rank = rank_value session;
  vendor_sequence = missing_sequence;
  venue_sequence = missing_sequence;
  ingest_index = sub_ℕ 0 (2 ^ 62);
}

-- `AFTER_ALL`
abbrev pub after_all : OrderingKey
after_all = record {
  event_time = pos (2 ^ 63 - 1);
  source_rank = rank_value synthetic;
  vendor_sequence = pos (2 ^ 62);
  venue_sequence = pos (2 ^ 62);
  ingest_index = pos (2 ^ 62);
}

-- `candidate > reference`
unfoldable pub is_strictly_after : OrderingKey → OrderingKey → Bool
is_strictly_after candidate reference_key =
    tuple_ord.lt (key_tuple reference_key) (key_tuple candidate)

unfoldable pub assign_ingest_index : ℤ → Result ℤ
assign_ingest_index position = if ltb_ℤ position (pos 0) then err value_error else ok position
