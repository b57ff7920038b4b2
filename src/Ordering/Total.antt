-- ===== src/Ordering/Total.antt =====
-- `is_strictly_after` is a strict total order with its two ends.
use self_improving_trading_s.Prelude.{
  ◌≡◌, ◌⊎◌, inl, inr, true, false, arith, ap, ℤ, pos, ◌≤ℤ◌, ◌<ℤ◌, LinOrd, ◌^◌, order_by, lt_asymm,
  compare-cases, sym, ◌∙◌, ◌≢◌, sub_ℕ, int_ord,
}
use self_improving_trading_s.Ordering.{
  OrderingKey, key_tuple, tuple_ord, before_all, after_all, is_strictly_after, missing_sequence,
}

key_tuple-injective : (a b : OrderingKey) → key_tuple a ≡ key_tuple b → a ≡ b
key_tuple-injective a b e =
    ap
      (λ (t : ℤ × (ℤ × (ℤ × (ℤ × ℤ)))).
        let k : OrderingKey = record {
          event_time = t.0;
          source_rank = t.1.0;
          vendor_sequence = t.1.1.0;
          venue_sequence = t.1.1.1.0;
          ingest_index = t.1.1.1.1;
        } in
        k)
      e

key_ord : LinOrd OrderingKey
key_ord = order_by tuple_ord key_tuple key_tuple-injective

-- Exactly one of the three: `a` is after `b`, `b` is after `a`, or they are one key.
pub data Trichotomy (a b : OrderingKey) : Type 0 where
  after : is_strictly_after a b ≡ true → is_strictly_after b a ≡ false → a ≢ b → Trichotomy a b
  before : is_strictly_after b a ≡ true → is_strictly_after a b ≡ false → a ≢ b → Trichotomy a b
  same : a ≡ b → is_strictly_after a b ≡ false → is_strictly_after b a ≡ false → Trichotomy a b

after_self : (a : OrderingKey) → is_strictly_after a a ≡ false
unfolding is_strictly_after key_ord
after_self a = key_ord.irrefl a

after_ne : (a b : OrderingKey) → is_strictly_after a b ≡ true → a ≢ b
after_ne a b h e = cc (ap (is_strictly_after a) e, after_self a)

after_asymm : (a b : OrderingKey) → is_strictly_after a b ≡ true → is_strictly_after b a ≡ false
unfolding is_strictly_after key_ord
after_asymm a b h = lt_asymm key_ord b a h

after_cases :
    (a b : OrderingKey) → (is_strictly_after a b ≡ true) ⊎ (is_strictly_after b a ≡ true) ⊎ (b ≡ a)
unfolding is_strictly_after key_ord
after_cases a b = compare-cases key_ord b a

-- If one key is after another and that one after a third, the first is after the third.
pub after_trans :
    (a b c : OrderingKey)
    → is_strictly_after a b ≡ true
    → is_strictly_after b c ≡ true
    → is_strictly_after a c ≡ true
unfolding is_strictly_after
after_trans a b c h k = tuple_ord.trans (key_tuple c) (key_tuple b) (key_tuple a) k h

-- Of any two keys exactly one of three holds: the first is strictly after the second, the second is
-- strictly after the first, or they are one key in all five fields.
pub is_strictly_after_total : (a b : OrderingKey) → Trichotomy a b
is_strictly_after_total a b = elim (after_cases a b) [
  | inl h ↦ after h (after_asymm a b h) (after_ne a b h)
  | inr (inl h) ↦ before h (after_asymm b a h) (λ e. after_ne b a h (sym e))
  | inr (inr e) ↦
      same (sym e) (ap (is_strictly_after a) e ∙ after_self a)
        (ap (is_strictly_after b) (sym e) ∙ after_self b)
]

-- The fields of an event that a row can hold: int64 values, a known rank, and sequence numbers and an
-- index that are at least the ones that stand for none.
pub record IsReal (k : OrderingKey) : Type 0 where
  pub time_above : sub_ℕ 0 (2 ^ 63) ≤ℤ k.event_time
  pub time_below : k.event_time <ℤ pos (2 ^ 63)
  pub rank_above : pos 0 ≤ℤ k.source_rank
  pub rank_below : k.source_rank ≤ℤ pos 7
  pub vendor_above : missing_sequence ≤ℤ k.vendor_sequence
  pub vendor_below : k.vendor_sequence ≤ℤ pos (2 ^ 62)
  pub venue_above : missing_sequence ≤ℤ k.venue_sequence
  pub venue_below : k.venue_sequence ≤ℤ pos (2 ^ 62)
  pub index_above : pos 0 ≤ℤ k.ingest_index
  pub index_below : k.ingest_index <ℤ pos (2 ^ 62)

-- The key of a row, with an int64 event time, a rank from 0 to 7, sequence numbers from -1 to 2^62
-- and an index from 0 to below 2^62, is strictly after `BEFORE_ALL` and strictly before `AFTER_ALL`.
pub real_between :
    (k : OrderingKey)
    → IsReal k
    → (is_strictly_after k before_all ≡ true) × (is_strictly_after after_all k ≡ true)
unfolding is_strictly_after
real_between k h = (ground arith, ground arith)
