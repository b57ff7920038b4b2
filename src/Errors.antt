-- ===== src/Errors.antt =====
-- The exceptions that the modelled code raises, by class and, where the code has several, by cause;
-- a function that may raise returns a `Result`. Messages are not modelled.
use self_improving_trading_s.Prelude.{◌≡◌, refl, Bool, if◌then◌else◌, ◌⊎◌, inl, inr}

-- Why the contract writer refuses a table.
pub data WriteFault : Type 0 where
  columns_mismatch schema_mismatch null_value implausible_knowledge knowledge_before_event :
      WriteFault
  receive_before_event process_before_receive policy_mismatch : WriteFault
  keys_not_increasing money_out_of_range : WriteFault

pub data Error : Type 0 where
  money_overflow fractional_shares zero_division : Error
  value_error type_error key_error index_error registry_error : Error
  live_trading_not_enabled invalid_transition : Error
  overflow_error decimal_overflow raw_record_error stop_iteration : Error
  timestamp_error file_missing snapshot_error unlisted_path migration_error determinism_error
        provenance_error canonical_encoding_error :
      Error
  ticker_unheld ticker_ambiguous : Error
  contract_write : WriteFault → Error

-- What a function that may raise gives: the exception it raises, or the value it returns.
pub data Result {ℓ} (R : Type ℓ) : Type ℓ where
  err : Error → Result R
  ok : R → Result R

pub ok-injective {ℓ} : {A : Type ℓ} {a b : A} → ok a ≡ ok b → a ≡ b
ok-injective h = cc

pub err-ok {ℓ} : {A : Type ℓ} {e : Error} {a : A} → ◌≡◌ {A = Result A} (err e) (ok a) → ⊥
err-ok h = cc

-- A call raises or returns.
pub Result-cases {ℓ} :
    {A : Type ℓ} (r : Result A) → ((e : Error) × (r ≡ err e)) ⊎ ((a : A) × (r ≡ ok a))
Result-cases (err e) = inl (e, refl)
Result-cases (ok a) = inr (a, refl)

-- `if not condition: raise e`
abbrev pub require : Bool → Error → Result (Unit {0})
require condition e = if condition then ok tt else err e

infixl 5 ◌>>=◌ ◌>>◌
abbrev pub ◌>>=◌ {ℓ μ} : {R : Type ℓ} {S : Type μ} → Result R → (R → Result S) → Result S
err raised >>= next = err raised
ok returned >>= next = next returned

-- A chain that returns has a first step that returns.
pub >>=-eq-ok {ℓ μ} :
    {R : Type ℓ} {S : Type μ} (first : Result R) (next : R → Result S) {s : S}
    → (first >>= next) ≡ ok s
    → (r : R) × (first ≡ ok r) × (next r ≡ ok s)
>>=-eq-ok (err e) next h = cc
>>=-eq-ok (ok r) next h = (r, refl, h)

abbrev pub ◌>>◌ {ℓ} : {S : Type ℓ} → Result (Unit {0}) → Result S → Result S
check >> after = check >>= λ _. after
