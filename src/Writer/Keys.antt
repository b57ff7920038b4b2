-- ===== src/Writer/Keys.antt =====
-- The tables whose ordering keys the writer accepts.
use self_improving_trading_s.Prelude.{
  ◌≡◌, refl, sym, ap, ◌∙◌, ◌↔◌, Bool, true, false, Option, some, List, [], ◌∷◌, map, arith, All,
  All-imp, ℤ, ltb_ℤ, if◌then◌else◌, in_names, int_ord,
}
use self_improving_trading_s.Errors.{ok}
use self_improving_trading_s.Ordering.{OrderingKey, is_strictly_after}
use self_improving_trading_s.Ordering.Total.{after_trans}
use self_improving_trading_s.Spec.{ContractSpec, field_names}
use self_improving_trading_s.Arrow.{Arrow}
use self_improving_trading_s.Writer.{
  tuple_gt, check_increasing, zip_keys, int_column, check_ordering,
}

-- The tuple of one row, where none of the five cells is null.
abbrev pub some_key : OrderingKey → List (Option ℤ)
some_key k =
    some k.event_time
    ∷ some k.source_rank
    ∷ some k.vendor_sequence
    ∷ some k.venue_sequence
    ∷ some k.ingest_index
    ∷ []

abbrev pub event_time : OrderingKey → ℤ
event_time k = k.event_time

abbrev pub source_rank : OrderingKey → ℤ
source_rank k = k.source_rank

abbrev pub vendor_sequence : OrderingKey → ℤ
vendor_sequence k = k.vendor_sequence

abbrev pub venue_sequence : OrderingKey → ℤ
venue_sequence k = k.venue_sequence

abbrev pub ingest_index : OrderingKey → ℤ
ingest_index k = k.ingest_index

-- Comparing two ints of a tuple and then the rest is one level of the lexicographic order.
tuple_gt-some :
    (a b : ℤ) (as' bs : List (Option ℤ)) (rest : Bool)
    → tuple_gt as' bs ≡ ok rest
    → tuple_gt (some a ∷ as') (some b ∷ bs)
      ≡ ok (if ltb_ℤ b a then true else if ltb_ℤ a b then false else rest)
unfolding tuple_gt
tuple_gt-some a b as' bs rest h = ground arith

-- On keys without nulls, the tuples of Python are ordered as `OrderingKey` is.
tuple_gt-key : (a b : OrderingKey) → tuple_gt (some_key b) (some_key a) ≡ ok (is_strictly_after b a)
unfolding is_strictly_after
tuple_gt-key a b = tuple_gt-some b.event_time a.event_time _ _ _ (
    tuple_gt-some b.source_rank a.source_rank _ _ _ (
      tuple_gt-some b.vendor_sequence a.vendor_sequence _ _ _ (
        tuple_gt-some b.venue_sequence a.venue_sequence _ _ _
          (tuple_gt-last b.ingest_index a.ingest_index))))
  where
    tuple_gt-last : (a b : ℤ) → tuple_gt (some a ∷ []) (some b ∷ []) ≡ ok (ltb_ℤ b a)
    tuple_gt-last a b = unfold tuple_gt in ground arith

-- Every key is strictly after all the keys before it.
abbrev pub Increasing : List OrderingKey → Type 0
Increasing [] = Unit
Increasing (k ∷ ks) = All (λ l. is_strictly_after l k ≡ true) ks × Increasing ks

increasing→ : (ks : List OrderingKey) → check_increasing (map some_key ks) ≡ ok tt → Increasing ks
unfolding check_increasing
increasing→ [] h = tt
increasing→ (a ∷ []) h = (tt, tt)
increasing→ (a ∷ b ∷ ks) h =
    let above : is_strictly_after b a ≡ true = ground (arith, tuple_gt-key a b) in
    let (after_b, rest) = increasing→ (b ∷ ks) (ground (arith, tuple_gt-key a b)) in
    ((above, All-imp (λ l k. after_trans l b a k above) ks after_b), (after_b, rest))

→increasing : (ks : List OrderingKey) → Increasing ks → check_increasing (map some_key ks) ≡ ok tt
unfolding check_increasing
→increasing [] h = refl
→increasing (a ∷ []) h = refl
→increasing (a ∷ b ∷ ks) ((above, _), h) =
    rw (tuple_gt-key a b ∙ ap ok above) (→increasing (b ∷ ks) h)

-- The five columns of a table hold the given keys, one for each row, with no null.
pub record KeyColumns (arrow : Arrow) (t : arrow.Table) (ks : List OrderingKey) : Type 0 where
  pub event_column : int_column arrow t "event_time" ≡ map some (map event_time ks)
  pub rank_column : int_column arrow t "source_rank" ≡ map some (map source_rank ks)
  pub vendor_column : int_column arrow t "vendor_sequence" ≡ map some (map vendor_sequence ks)
  pub venue_column : int_column arrow t "venue_sequence" ≡ map some (map venue_sequence ks)
  pub index_column : int_column arrow t "ingest_index" ≡ map some (map ingest_index ks)

zip_keys-some :
    (ks : List OrderingKey)
    → zip_keys
        (map some (map event_time ks))
        (map some (map source_rank ks))
        (map some (map vendor_sequence ks))
        (map some (map venue_sequence ks))
        (map some (map ingest_index ks))
      ≡ ok (map some_key ks)
unfolding zip_keys
zip_keys-some [] = refl
zip_keys-some (k ∷ ks) = rw (zip_keys-some ks)

module _ (arrow : Arrow) (t : arrow.Table) (ks : List OrderingKey)
    (columns : KeyColumns arrow t ks) where
  ordering-eq :
      (spec : ContractSpec)
      → in_names "ingest_index" (field_names spec) ≡ true
      → check_ordering arrow t spec ≡ check_increasing (map some_key ks)
  unfolding check_ordering
  ordering-eq spec e =
      rw
        (
          e, columns.event_column, columns.rank_column, columns.vendor_column, columns.venue_column,
          columns.index_column,
        )
        (rw (zip_keys-some ks))

  -- Of a contract with an `ingest_index`, and a table whose five key columns hold the given keys
  -- with no null, the writer accepts the ordering exactly if each row's key is strictly after the
  -- keys of all rows before it.
  pub check_ordering_iff :
      (spec : ContractSpec)
      → in_names "ingest_index" (field_names spec) ≡ true
      → (check_ordering arrow t spec ≡ ok tt) ↔ Increasing ks
  check_ordering_iff spec e = (
    λ h. increasing→ ks (sym (ordering-eq spec e) ∙ h),
    λ h. ordering-eq spec e ∙ →increasing ks h,
  )
