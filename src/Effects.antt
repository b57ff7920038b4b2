-- ===== src/Effects.antt =====
-- Code that reads and writes files and may raise: what is returned or raised, and the files afterwards.
use self_improving_trading_s.Prelude.{◌≡◌, refl, ap}
use self_improving_trading_s.Errors.{Result, ok, err, ok-injective}
use self_improving_trading_s.Storage.{Files}

abbrev pub Effect : Type 0 → Type 0 → Type 0
Effect Bytes A = Files Bytes → Result A × Files Bytes

module _ {Bytes : Type 0} where
  after : {A B : Type 0} → Result A × Files Bytes → (A → Effect Bytes B) → Result B × Files Bytes
  after (err e, files) next = (err e, files)
  after (ok a, files) next = next a files

  infixl 5 ◌>>=◌
  unfoldable pub ◌>>=◌ : {A B : Type 0} → Effect Bytes A → (A → Effect Bytes B) → Effect Bytes B
  unfolding after
  ◌>>=◌ first next files = after (first files) next

  -- What only computes.
  unfoldable pub lift : {A : Type 0} → Result A → Effect Bytes A
  lift result files = (result, files)

  -- What only reads files.
  unfoldable pub gets : {A : Type 0} → (Files Bytes → Result A) → Effect Bytes A
  gets read files = (read files, files)

  -- A chain that returns has a first step that returns.
  pub >>=-eq-ok :
      {A B : Type 0} (first : Effect Bytes A) (next : A → Effect Bytes B) (files : Files Bytes)
      {b : B} {done : Files Bytes}
      → (first >>= next) files ≡ (ok b, done)
      → (a : A) × (mid : Files Bytes) × (first files ≡ (ok a, mid)) × (next a mid ≡ (ok b, done))
  unfolding ◌>>=◌ after
  >>=-eq-ok {A} {B} first next files {b} {done} h = go (first files) refl h
    where
      go :
          (r : Result A × Files Bytes)
          → first files ≡ r
          → after r next ≡ (ok b, done)
          → (a : A) × (mid : Files Bytes) × (first files ≡ (ok a, mid))
            × (next a mid ≡ (ok b, done))
      go (err e, mid) f k = cc
      go (ok a, mid) f k = (a, mid, f, k)

  pub lift-eq-ok :
      {A B : Type 0} (r : Result A) (next : A → Effect Bytes B) (files : Files Bytes) {b : B}
      {done : Files Bytes}
      → (lift r >>= next) files ≡ (ok b, done)
      → (a : A) × (r ≡ ok a) × (next a files ≡ (ok b, done))
  unfolding ◌>>=◌ after lift
  lift-eq-ok (err e) next files h = cc
  lift-eq-ok (ok a) next files h = (a, refl, h)

  pub gets-eq-ok :
      {A B : Type 0} (read : Files Bytes → Result A) (next : A → Effect Bytes B)
      (files : Files Bytes) {b : B} {done : Files Bytes}
      → (gets read >>= next) files ≡ (ok b, done)
      → (a : A) × (read files ≡ ok a) × (next a files ≡ (ok b, done))
  unfolding gets ◌>>=◌
  gets-eq-ok read next files h = lift-eq-ok (read files) next files (unfold lift in h)

  pub pure-eq-ok :
      {A : Type 0} (x : A) (files : Files Bytes) {a : A} {done : Files Bytes}
      → lift (ok x) files ≡ (ok a, done)
      → (x ≡ a) × (files ≡ done)
  unfolding lift
  pure-eq-ok x files h = (ok-injective (ap (λ p. p.0) h), ap (λ p. p.1) h)
