-- ===== src/Normalize/Rows.antt =====
-- The rows that a normalization builds: their order, and what each keeps of its raw record.
use self_improving_trading_s.Prelude.{
  ℕ, suc, ◌≡◌, ap, true, List, [], ◌∷◌, map, arith, All, All-imp, ℤ, pos, ◌≤ℤ◌, Distinct,
  IsIncreasing, sorted_by-IsIncreasing, All-sorted_by, sorted_by, ◌≢◌, int_ord,
}
use self_improving_trading_s.Errors.{Result, ok, ok-injective, >>=-eq-ok, ◌>>=◌}
use self_improving_trading_s.Ordering.{key_tuple, tuple_ord, is_strictly_after}
use self_improving_trading_s.Writer.Keys.{Increasing}
use self_improving_trading_s.Normalize.{Row, row_key, rows_from, sorted_by_key}

abbrev pub key_of : Row → ℤ × (ℤ × (ℤ × (ℤ × ℤ)))
key_of r = key_tuple (row_key r)

-- Rows from two positions have two keys.
differ :
    (n : ℕ) (r s : Row)
    → r.ordering.ingest_index ≡ pos n
    → pos (suc n) ≤ℤ s.ordering.ingest_index
    → key_of r ≢ key_of s
unfolding row_key
differ n r s i k e =
    let j : r.ordering.ingest_index ≡ s.ordering.ingest_index =
      ap (λ (t : ℤ × (ℤ × (ℤ × (ℤ × ℤ)))). t.1.1.1.1) e in
    absurd (le_of_eq n r.ordering.ingest_index s.ordering.ingest_index i j k)
  where
    le_of_eq : (n : ℕ) (a b : ℤ) → a ≡ pos n → a ≡ b → ¬ (pos (suc n) ≤ℤ b)
    le_of_eq n a b p q h = ground arith

at_position : (n : ℕ) (a : ℤ) → a ≡ pos n → pos n ≤ℤ a
at_position n a e = rw e (omega arith)

module _ {ℓ} {R : Type ℓ} (row : ℤ → R → Result Row) where
  -- What a row has because of its raw record and its position, all rows have.
  pub All-rows_from {κ μ} :
      (Q : R → Type κ) (P : Row → Type μ)
      → ((p : ℤ) (raw : R) (r : Row) → Q raw → row p raw ≡ ok r → P r)
      → (n : ℕ) (raws : List R) {rows : List Row} → All Q raws
      → rows_from row n raws ≡ ok rows
      → All P rows
  unfolding rows_from
  All-rows_from Q P f n [] {rows = []} q h = tt
  All-rows_from Q P f n [] {rows = r ∷ rs} q h = cc
  All-rows_from Q P f n (raw ∷ raws) {rows = rows} (q, qs) h =
      let (first, a, h1) = >>=-eq-ok (row (pos n) raw) _ h in
      let (rest, b, h2) = >>=-eq-ok (rows_from row (suc n) raws) _ h1 in
      let e : first ∷ rest ≡ rows = cc in
      rw (← e) (f (pos n) raw first q a, All-rows_from Q P f (suc n) raws qs b)

  module _
      (indexed : (p : ℤ) (raw : R) (r : Row) → row p raw ≡ ok r → r.ordering.ingest_index ≡ p) where
    from_position :
        (n : ℕ) (raws : List R) {rows : List Row}
        → rows_from row n raws ≡ ok rows
        → All (λ (r : Row). pos n ≤ℤ r.ordering.ingest_index) rows × Distinct tuple_ord key_of rows
    unfolding rows_from
    from_position n [] {rows = []} h = (tt, tt)
    from_position n [] {rows = r ∷ rs} h = cc
    from_position n (raw ∷ raws) {rows = rows} h =
        let (first, a, h1) = >>=-eq-ok (row (pos n) raw) _ h in
        let (rest, b, h2) = >>=-eq-ok (rows_from row (suc n) raws) _ h1 in
        let (above, distinct) = from_position (suc n) raws b in
        let i = indexed (pos n) raw first a in
        let e : first ∷ rest ≡ rows = cc in
        rw (← e) (
          (at_position n first.ordering.ingest_index i, All-imp (λ r k. omega arith) rest above),
          (All-imp (λ r k. differ n first r i k) rest above, distinct),
        )

    Increasing-keys :
        (rows : List Row) → IsIncreasing tuple_ord key_of rows → Increasing (map row_key rows)
    unfolding is_strictly_after
    Increasing-keys [] h = tt
    Increasing-keys (r ∷ rs) (h, hs) = (keys_after rs h, Increasing-keys rs hs)
      where
        keys_after :
            (ss : List Row)
            → All (λ s. tuple_ord.lt (key_of r) (key_of s) ≡ true) ss
            → All (λ k. is_strictly_after k (row_key r) ≡ true) (map row_key ss)
        keys_after [] h = tt
        keys_after (s ∷ ss) (h, hs) = (h, keys_after ss hs)

    -- Sorted rows that were built at their positions have keys that increase strictly.
    pub sorted_rows-Increasing :
        (n : ℕ) (raws : List R) {rows : List Row}
        → rows_from row n raws ≡ ok rows
        → Increasing (map row_key (sorted_by_key rows))
    unfolding sorted_by_key
    sorted_rows-Increasing n raws {rows = rows} h =
        Increasing-keys (sorted_by tuple_ord key_of rows)
          (sorted_by-IsIncreasing tuple_ord key_of rows (from_position n raws h).1)

    -- What both normalizations have in common: the sorted rows have what each row has because of its
    -- raw record, and their keys increase strictly.
    pub normalized {κ μ} :
        (Q : R → Type κ) (P : Row → Type μ)
        → ((p : ℤ) (raw : R) (r : Row) → Q raw → row p raw ≡ ok r → P r)
        → (raws : List R) {rows : List Row} → All Q raws
        → (rows_from row 0 raws >>= λ unsorted. ok (sorted_by_key unsorted)) ≡ ok rows
        → All P rows × Increasing (map row_key rows)
    unfolding sorted_by_key
    normalized Q P f raws q h =
        let (unsorted, a, same) = >>=-eq-ok (rows_from row 0 raws) _ h in
        rw (← ok-injective same) (
          All-sorted_by tuple_ord key_of P unsorted (All-rows_from Q P f 0 raws q a),
          sorted_rows-Increasing 0 raws a,
        )
