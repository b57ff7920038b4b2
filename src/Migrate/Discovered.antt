-- ===== src/Migrate/Discovered.antt =====
-- What `discover` returns: every migration once, in the order of versions.
use self_improving_trading_s.Prelude.{
  ℕ, ◌≡◌, ap, ◌≢◌, true, false, Option, none, some, List, [], ◌∷◌, ◌++◌, String, arith, All, pos,
  pos_part, ltb_ℤ, int_ord, text_ord, sorted_by, Distinct, IsIncreasing, sorted_by-IsIncreasing,
}
use self_improving_trading_s.Errors.{ok, >>=-eq-ok, ok-injective}
use self_improving_trading_s.Migrate.{
  Migration, match_filename, has_version, add_found, found_in, by_version, discover, find_version,
}

-- No two migrations have one version.
abbrev pub OneEach : List Migration → Type 0
OneEach = Distinct int_ord (λ (m : Migration). pos m.version)

has_version-apart :
    (v : ℕ) (ms : List Migration)
    → has_version v ms ≡ false
    → All (λ (m : Migration). pos m.version ≢ pos v) ms
unfolding has_version
has_version-apart v [] h = tt
has_version-apart v (m ∷ ms) h = ((λ e. different e), has_version-apart v ms (ground arith))
  where
    different : pos m.version ≡ pos v → ⊥
    different e = ground (arith, ap pos_part e)

snoc-OneEach :
    (ms : List Migration) (n : Migration)
    → All (λ (m : Migration). pos m.version ≢ pos n.version) ms
    → OneEach ms
    → OneEach (ms ++ (n ∷ []))
snoc-OneEach [] n a d = (tt, tt)
snoc-OneEach (m ∷ ms) n (a, as') (d, ds) = (more ms d, snoc-OneEach ms n as' ds)
  where
    more :
        (ms : List Migration)
        → All (λ (x : Migration). pos m.version ≢ pos x.version) ms
        → All (λ (x : Migration). pos m.version ≢ pos x.version) (ms ++ (n ∷ []))
    more [] h = (a, tt)
    more (x ∷ xs) (h, hs) = (h, more xs hs)

add_found-OneEach :
    (file sql : String) (matched : Option (ℕ × String)) (found : List Migration)
    {more : List Migration}
    → add_found file sql matched found ≡ ok more
    → OneEach found
    → OneEach more
unfolding add_found
add_found-OneEach file sql none found h d = cc
add_found-OneEach file sql (some (version, name)) found {more} h d =
    rw (← added) (snoc-OneEach found _ (has_version-apart version found fresh) d)
  where
    fresh : has_version version found ≡ false
    fresh = ground arith

    added : found ++ (record { version = version; name = name; path = file; sql = sql } ∷ []) ≡ more
    added = ground arith

found_in-OneEach :
    (files : List (String × String)) (found : List Migration) {more : List Migration}
    → found_in files found ≡ ok more
    → OneEach found
    → OneEach more
unfolding found_in
found_in-OneEach [] found h d = rw (← ok-injective h) d
found_in-OneEach ((file, sql) ∷ files) found h d =
    let (next, a, b) = >>=-eq-ok (add_found file sql (match_filename file) found) _ h in
    found_in-OneEach files next b (add_found-OneEach file sql (match_filename file) found a d)

-- Every version is above those of all migrations before it.
abbrev pub InOrder : List Migration → Type 0
InOrder = IsIncreasing int_ord (λ (m : Migration). pos m.version)

-- If the discovery of migrations succeeds, they are in strictly increasing order of their versions.
pub discover-InOrder :
    (directory : Option (List (String × String))) {ms : List Migration}
    → discover directory ≡ ok ms
    → InOrder ms
unfolding discover by_version
discover-InOrder none h = cc
discover-InOrder (some files) h =
    let (found, a, b) =
      >>=-eq-ok (found_in (sorted_by text_ord (λ (f : String × String). f.0) files) []) _ h in
    rw (← ok-injective b) (
      sorted_by-IsIncreasing int_ord (λ (m : Migration). pos m.version) found
        (found_in-OneEach (sorted_by text_ord (λ (f : String × String). f.0) files) [] a tt))

skip_version :
    (n : Migration) (ms gs : List Migration)
    → All (λ (g : Migration). ltb_ℤ (pos n.version) (pos g.version) ≡ true) gs
    → All (λ (g : Migration). find_version g.version ms ≡ some g) gs
    → All (λ (g : Migration). find_version g.version (n ∷ ms) ≡ some g) gs
unfolding find_version
skip_version n ms [] h k = tt
skip_version n ms (g ∷ gs) (h, hs) (k, ks) = (ground arith, skip_version n ms gs hs ks)

pub InOrder-found :
    (ms : List Migration)
    → InOrder ms
    → All (λ (g : Migration). find_version g.version ms ≡ some g) ms
unfolding find_version
InOrder-found [] h = tt
InOrder-found (m ∷ ms) (h, hs) = (ground arith, skip_version m ms ms h (InOrder-found ms hs))
