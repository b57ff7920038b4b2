-- ===== src/Migrate/Applied.antt =====
-- What is applied: nothing that the repository does not describe, each migration once.
use mathlib.Core.Path.{subst}
use self_improving_trading_s.Prelude.{
  ℕ, ◌≡◌, refl, sym, ap, ◌∙◌, true, false, ◌||◌, Option, none, some, List, [], ◌∷◌, ◌++◌, map,
  String, arith, All, All-imp, pos, Bool-cases, inl, inr, str_eq_iff, int_ord, All-sorted_by,
  All-of-sorted_by, Any, ◌≢◌, ◌==◌, Reordered, none_left, same_first, swapped, in_turn,
}
use self_improving_trading_s.Errors.{ok, >>=-eq-ok, ok-injective}
use self_improving_trading_s.Migrate.{
  Migration, discover, Database, find_version, in_rows, not_applied, applied_migrations,
  check_recorded, check_applied, by_row, pending, apply_all, apply,
}
use self_improving_trading_s.Migrate.Discovered.{InOrder, discover-InOrder, InOrder-found}

in_rows-append :
    (v : ℕ) (xs ys : List (ℕ × String)) → in_rows v (xs ++ ys) ≡ (in_rows v xs || in_rows v ys)
unfolding in_rows
in_rows-append v [] ys = refl
in_rows-append v ((w, h) ∷ xs) ys = ground (arith, in_rows-append v xs ys)

module _ (database : Database) (sha256 : String → String) where
  open database use {Db, ledger, execute, insert}

  -- The rows of the ledger, none where it does not exist.
  abbrev pub rows : Db → List (ℕ × String)
  rows = applied_migrations database sha256

  -- The row that is recorded of a migration.
  abbrev pub row_of : Migration → ℕ × String
  row_of m = (m.version, sha256 m.sql)

  -- A row of the ledger stands for a migration of the repository, with the hash of its text.
  abbrev pub IsDescribed : List Migration → ℕ × String → Type 0
  IsDescribed ms r = (m : Migration) × (find_version r.0 ms ≡ some m) × (sha256 m.sql ≡ r.1)

  check_one :
      (ms : List Migration) (found : Option Migration) (recorded : String)
      → check_recorded database sha256 found recorded ≡ ok tt
      → (m : Migration) × (found ≡ some m) × (sha256 m.sql ≡ recorded)
  unfolding check_recorded
  check_one ms none recorded h = cc
  check_one ms (some m) recorded h = (m, refl, ground (arith, str_eq_iff (sha256 m.sql) recorded))

  check_applied→ :
      (ms : List Migration) (rs : List (ℕ × String))
      → check_applied database sha256 ms rs ≡ ok tt
      → All (IsDescribed ms) rs
  unfolding check_applied
  check_applied→ ms [] h = tt
  check_applied→ ms ((v, d) ∷ rs) h =
      let (_, a, b) = >>=-eq-ok (check_recorded database sha256 (find_version v ms) d) _ h in
      (check_one ms (find_version v ms) d a, check_applied→ ms rs b)

  →check_applied :
      (ms : List Migration) (rs : List (ℕ × String))
      → All (IsDescribed ms) rs
      → check_applied database sha256 ms rs ≡ ok tt
  unfolding check_applied check_recorded
  →check_applied ms [] h = refl
  →check_applied ms ((v, d) ∷ rs) ((m, e, k), h) =
      rw e (rw k (rw ((str_eq_iff d d).1 refl) (→check_applied ms rs h)))

  -- The migrations whose version no row has are kept, in their order, and those with a row are left out.
  pub data Unrecorded (recorded : List (ℕ × String))
      : List Migration → List Migration → Type 0 where
    nothing_found : Unrecorded recorded [] []
    kept :
        (m : Migration) {ms missing : List Migration}
        → All (λ (r : ℕ × String). r.0 ≢ m.version) recorded
        → Unrecorded recorded ms missing
        → Unrecorded recorded (m ∷ ms) (m ∷ missing)
    dropped :
        (m : Migration) {ms missing : List Migration}
        → Any (λ (r : ℕ × String). r.0 ≡ m.version) recorded
        → Unrecorded recorded ms missing
        → Unrecorded recorded (m ∷ ms) missing

  in_rows→ :
      (v : ℕ) (rs : List (ℕ × String)) → in_rows v rs ≡ true → Any (λ (r : ℕ × String). r.0 ≡ v) rs
  unfolding in_rows
  in_rows→ v [] h = cc
  in_rows→ v ((w, d) ∷ rs) h = elim (Bool-cases (w == v)) [
    | inl e ↦ inl (ground arith)
    | inr e ↦ inr (in_rows→ v rs (rw e at h))
  ]

  not_in_rows→ :
      (v : ℕ) (rs : List (ℕ × String)) → in_rows v rs ≡ false → All (λ (r : ℕ × String). r.0 ≢ v) rs
  unfolding in_rows
  not_in_rows→ v [] h = tt
  not_in_rows→ v ((w, d) ∷ rs) h = elim (Bool-cases (w == v)) [
    | inl e ↦ cc (rw e at h)
    | inr e ↦ (λ same. ground arith, not_in_rows→ v rs (rw e at h))
  ]

  not_applied-Unrecorded :
      (ms : List Migration) (rs : List (ℕ × String)) → Unrecorded rs ms (not_applied ms rs)
  unfolding not_applied
  not_applied-Unrecorded [] rs = nothing_found
  not_applied-Unrecorded (m ∷ ms) rs = elim (Bool-cases (in_rows m.version rs)) [
    | inl e ↦ rw e (dropped m (in_rows→ m.version rs e) (not_applied-Unrecorded ms rs))
    | inr e ↦ rw e (kept m (not_in_rows→ m.version rs e) (not_applied-Unrecorded ms rs))
  ]

  -- What a successful `pending` says of the database and the repository.
  pub record IsPending (db : Db) (ms to_apply : List Migration) : Type 0 where
    pub in_order : InOrder ms
    pub described : All (IsDescribed ms) (rows db)
    pub missing : Unrecorded (rows db) ms to_apply

  -- What `pending` computes on the way.
  pending_parts :
      (db : Db) (directory : Option (List (String × String))) {to_apply : List Migration}
      → pending database sha256 db directory ≡ ok to_apply
      → (ms : List Migration) × (discover directory ≡ ok ms)
        × InOrder ms
        × All (IsDescribed ms) (rows db)
        × (to_apply ≡ not_applied ms (rows db))
  unfolding pending by_row
  pending_parts db directory h =
      let (ms, a, h1) = >>=-eq-ok (discover directory) _ h in
      let (_, b, h2) =
        >>=-eq-ok (check_applied database sha256 ms (by_row database sha256 (rows db))) _ h1 in
      (
        ms,
        a,
        discover-InOrder directory a,
        All-of-sorted_by int_ord (λ (r : ℕ × String). pos r.0) (IsDescribed ms) (rows db)
            (check_applied→ ms (by_row database sha256 (rows db)) b),
        sym (ok-injective h2),
      )

  -- If `pending` returns, every row of the ledger stands for a discovered migration with the recorded
  -- hash, and what is returned are the discovered migrations whose version no row has, in the order of
  -- versions, without those whose version a row has.
  pub pending_lem :
      (db : Db) (directory : Option (List (String × String))) {to_apply : List Migration}
      → pending database sha256 db directory ≡ ok to_apply
      → (ms : List Migration) × (discover directory ≡ ok ms) × IsPending db ms to_apply
  pending_lem db directory h =
      let (ms, a, order, described, missing) = pending_parts db directory h in
      (
        ms,
        a,
        record {
          in_order = order;
          described = described;
          missing = rw missing (not_applied-Unrecorded ms (rows db));
        },
      )

  -- What is relied on of the database: an insertion adds one row to those the ledger's query gives, and
  -- leaves the others.
  pub record LedgerLaws : Type 0 where
    pub inserts :
        (v : ℕ) (name digest : String) (db after : Db)
        → insert v name digest db ≡ ok after
        → Reordered (rows after) ((v, digest) ∷ rows db)

  -- The text of a migration, where it runs, leaves the rows of the ledger as they are.
  abbrev pub LeavesLedger : Migration → Type 0
  LeavesLedger m = (db after : Db) → execute m.sql db ≡ ok after → rows after ≡ rows db

  in_rows-Reordered :
      (v : ℕ) {xs ys : List (ℕ × String)} → Reordered xs ys → in_rows v xs ≡ in_rows v ys
  unfolding in_rows
  in_rows-Reordered v none_left = refl
  in_rows-Reordered v (same_first (w, d) p) = rw (in_rows-Reordered v p)
  in_rows-Reordered v (swapped (w, d) (u, e) rs) = ground arith
  in_rows-Reordered v (in_turn p q) = in_rows-Reordered v p ∙ in_rows-Reordered v q

  All-Reordered :
      {A : Type 0} (P : A → Type 0) {xs ys : List A} → Reordered xs ys → All P ys → All P xs
  All-Reordered P none_left h = tt
  All-Reordered P (same_first x p) (h, hs) = (h, All-Reordered P p hs)
  All-Reordered P (swapped x y rest) (h, (k, hs)) = (k, (h, hs))
  All-Reordered P (in_turn p q) h = All-Reordered P p (All-Reordered P q h)

  -- What holds of the rows of the ledger and of those to come holds of the rows in the end.
  apply_all-All :
      (P : ℕ × String → Type 0)
      → LedgerLaws
      → (ms : List Migration) (db : Db) {after : Db} → All LeavesLedger ms
      → apply_all database sha256 ms db ≡ ok after
      → All P (rows db)
      → All P (map row_of ms)
      → All P (rows after)
  unfolding apply_all
  apply_all-All P laws [] db leaves h old new = rw (← ok-injective h) old
  apply_all-All P laws (m ∷ ms) db (leave, leaves) h old (first, new) =
      let (changed, a, h1) = >>=-eq-ok (execute m.sql db) _ h in
      let (recorded, b, h2) = >>=-eq-ok (insert m.version m.name (sha256 m.sql) changed) _ h1 in
      apply_all-All P laws ms recorded leaves h2
        (All-Reordered P (laws.inserts m.version m.name (sha256 m.sql) changed recorded b)
          (first, rw (leave db changed a) old))
        new

  -- A version that has a row, or gets one, has a row in the end.
  apply_all-in_rows :
      (v : ℕ)
      → LedgerLaws
      → (ms : List Migration) (db : Db) {after : Db} → All LeavesLedger ms
      → apply_all database sha256 ms db ≡ ok after
      → (in_rows v (rows db) || in_rows v (map row_of ms)) ≡ true
      → in_rows v (rows after) ≡ true
  unfolding apply_all in_rows
  apply_all-in_rows v laws [] db leaves h known = rw (← ok-injective h) (ground arith)
  apply_all-in_rows v laws (m ∷ ms) db (leave, leaves) h known =
      let (changed, a, h1) = >>=-eq-ok (execute m.sql db) _ h in
      let (recorded, b, h2) = >>=-eq-ok (insert m.version m.name (sha256 m.sql) changed) _ h1 in
      let one : in_rows v (rows recorded) ≡ (m.version == v || in_rows v (rows db)) =
        in_rows-Reordered v (laws.inserts m.version m.name (sha256 m.sql) changed recorded b)
        ∙ ap (λ rs. m.version == v || in_rows v rs) (leave db changed a) in
      apply_all-in_rows v laws ms recorded leaves h2 (ground arith)

  missing-IsDescribed :
      (all : List Migration) (ms : List Migration) (rs : List (ℕ × String))
      → All (λ (m : Migration). find_version m.version all ≡ some m) ms
      → All (IsDescribed all) (map row_of (not_applied ms rs))
  unfolding not_applied
  missing-IsDescribed all [] rs h = tt
  missing-IsDescribed all (m ∷ ms) rs (h, hs) = elim (Bool-cases (in_rows m.version rs)) [
    | inl e ↦ rw e (missing-IsDescribed all ms rs hs)
    | inr e ↦ rw e ((m, h, refl), missing-IsDescribed all ms rs hs)
  ]

  not_applied-skip :
      (m : Migration) (ms : List Migration) (rs : List (ℕ × String))
      → in_rows m.version rs ≡ true
      → not_applied (m ∷ ms) rs ≡ not_applied ms rs
  unfolding not_applied
  not_applied-skip m ms rs e = rw e refl

  not_applied-keep :
      (m : Migration) (ms : List Migration) (rs : List (ℕ × String))
      → in_rows m.version rs ≡ false
      → not_applied (m ∷ ms) rs ≡ m ∷ not_applied ms rs
  unfolding not_applied
  not_applied-keep m ms rs e = rw e refl

  -- Each migration has a row among those given and those of `ta`.
  abbrev pub Recorded : List (ℕ × String) → List Migration → List Migration → Type 0
  Recorded rs ms ta = All (λ (m : Migration). in_rows m.version (rs ++ map row_of ta) ≡ true) ms

  -- Every migration has a row once those without one are recorded.
  each_recorded :
      (ms : List Migration) (rs : List (ℕ × String))
      → All (λ (m : Migration). in_rows m.version (rs ++ map row_of (not_applied ms rs)) ≡ true) ms
  each_recorded [] rs = tt
  each_recorded (m ∷ ms) rs = elim (Bool-cases (in_rows m.version rs)) [
    | inl e ↦ subst (Recorded rs (m ∷ ms)) (sym (not_applied-skip m ms rs e)) (
      in_rows-append m.version rs (map row_of (not_applied ms rs)) ∙ rw e refl,
      each_recorded ms rs,
    )
    | inr e ↦ subst (Recorded rs (m ∷ ms)) (sym (not_applied-keep m ms rs e)) (
      in_rows-append m.version rs (row_of m ∷ map row_of (not_applied ms rs))
          ∙ own m (map row_of (not_applied ms rs)) e,
      All-imp (λ x k. more x (row_of m) (map row_of (not_applied ms rs)) k) ms
          (each_recorded ms rs),
    )
  ]
    where
      own :
          (m : Migration) (later : List (ℕ × String))
          → in_rows m.version rs ≡ false
          → (in_rows m.version rs || in_rows m.version (row_of m ∷ later)) ≡ true
      own m later e = unfold in_rows in ground arith

      more :
          (x : Migration) (r : ℕ × String) (later : List (ℕ × String))
          → in_rows x.version (rs ++ later) ≡ true
          → in_rows x.version (rs ++ (r ∷ later)) ≡ true
      more x (v, d) later k =
          unfold in_rows in
          ground
            (arith, in_rows-append x.version rs ((v, d) ∷ later), in_rows-append x.version rs later)

  none_missing :
      (ms : List Migration) (rs : List (ℕ × String))
      → All (λ (m : Migration). in_rows m.version rs ≡ true) ms
      → not_applied ms rs ≡ []
  unfolding not_applied
  none_missing [] rs h = refl
  none_missing (m ∷ ms) rs (h, hs) = rw h (none_missing ms rs hs)

  nothing_pending :
      (after : Db) (directory : Option (List (String × String))) (ms : List Migration)
      → discover directory ≡ ok ms
      → All (IsDescribed ms) (rows after)
      → not_applied ms (rows after) ≡ []
      → pending database sha256 after directory ≡ ok []
  unfolding pending by_row
  nothing_pending after directory ms d described missing = rw d (
      rw
        (→check_applied ms (by_row database sha256 (rows after)) (
          All-sorted_by int_ord (λ (r : ℕ × String). pos r.0) (IsDescribed ms) (rows after)
            described))
        (ap ok missing))

  -- Applying the pending migrations leaves nothing pending: on a database where recording a migration
  -- adds its row to the ledger, if the texts of the migrations that were applied leave the rows of the
  -- ledger as they are, asking again right after a successful application finds the ledger in agreement
  -- with the repository and returns no migration.
  pub apply-pending :
      LedgerLaws
      → (db : Db) (directory : Option (List (String × String))) {done : List Migration} {after : Db}
      → All LeavesLedger done
      → apply database sha256 db directory ≡ ok (done, after)
      → pending database sha256 after directory ≡ ok []
  unfolding apply
  apply-pending laws db directory {done} {after} leaves h =
      let (to_apply, a, h1) = >>=-eq-ok (pending database sha256 db directory) _ h in
      let (last, b, h2) = >>=-eq-ok (apply_all database sha256 to_apply db) _ h1 in
      let (ms, d, order, described, missing) = pending_parts db directory a in
      let applied : apply_all database sha256 (not_applied ms (rows db)) db ≡ ok after =
        ap (λ xs. apply_all database sha256 xs db) (sym missing)
        ∙ b
        ∙ ap (λ w. ok (w.1)) (ok-injective h2) in
      let calm : All LeavesLedger (not_applied ms (rows db)) =
        subst (All LeavesLedger) (sym (ap (λ w. w.0) (ok-injective h2)) ∙ missing) leaves in
      nothing_pending after directory ms d
        (apply_all-All (IsDescribed ms) laws (not_applied ms (rows db)) db calm applied described
          (missing-IsDescribed ms ms (rows db) (InOrder-found ms order)))
        (none_missing ms (rows after) (
          All-imp
            (λ m known.
              apply_all-in_rows m.version laws (not_applied ms (rows db)) db calm applied (
                sym (in_rows-append m.version (rows db) (map row_of (not_applied ms (rows db))))
                ∙ known))
            ms (each_recorded ms (rows db))))
