-- ===== src/Registry/Registered.antt =====
-- Registering contracts, looking them up and listing them.
use self_improving_trading_s.Prelude.{
  ◌≡◌, refl, ◌≢◌, true, false, some, [], ◌∷◌, ◌++◌, map, String, arith, if◌then◌else◌, str_eq,
  str_eq_iff, lookup, All, Bool-cases, inl, inr, sorted_by, text_ord, Distinct, IsIncreasing,
  sorted_by-IsIncreasing, All-sorted_by,
}
use self_improving_trading_s.Errors.{ok}
use self_improving_trading_s.Spec.{ContractSpec}
use self_improving_trading_s.Registry.{
  Contracts, key_of, is_registered, register, get, all_contracts,
}

lookup-snoc :
    (cs : Contracts) (spec : ContractSpec) (n : String)
    → is_registered spec.name cs ≡ false
    → lookup n (cs ++ ((spec.name, spec) ∷ []))
      ≡ (if str_eq spec.name n then some spec else lookup n cs)
lookup-snoc [] spec n h = refl
lookup-snoc ((k, s) ∷ cs) spec n h = ground (
  arith,
  lookup-snoc cs spec n (ground arith),
  str_eq_iff k n,
  str_eq_iff spec.name n,
  str_eq_iff k spec.name,
)

registered :
    (spec : ContractSpec) (contracts : Contracts) {after : Contracts}
    → register spec contracts ≡ ok after
    → (is_registered spec.name contracts ≡ false) × (after ≡ contracts ++ ((spec.name, spec) ∷ []))
unfolding register
registered spec contracts h = ground arith

-- If a contract is registered successfully, looking up its name gives it, and looking up any other
-- name gives what it gave before.
pub register_lem :
    (spec : ContractSpec) (contracts : Contracts) (n : String) {after : Contracts}
    → register spec contracts ≡ ok after
    → get n after ≡ (if str_eq spec.name n then ok spec else get n contracts)
unfolding get
register_lem spec contracts n h =
    let (fresh, e) = registered spec contracts h in
    rw e (
      rw (get, lookup-snoc contracts spec n fresh)
        (elim (Bool-cases (str_eq spec.name n)) [ inl b ↦ rw b refl | inr b ↦ rw b refl ]))

-- Each contract stands under its own name, and no name stands twice.
pub record WellKept (contracts : Contracts) : Type 0 where
  pub own_names : All (λ (item : String × ContractSpec). item.0 ≡ item.1.name) contracts
  pub once : Distinct text_ord key_of contracts

-- If every contract stands under its own name and no name twice, this still holds after a contract
-- is registered successfully.
pub register-WellKept :
    (spec : ContractSpec) (contracts : Contracts) {after : Contracts}
    → register spec contracts ≡ ok after
    → WellKept contracts
    → WellKept after
register-WellKept spec contracts h w =
    let (fresh, e) = registered spec contracts h in
    rw e (record { own_names = own contracts w.own_names; once = different contracts fresh w.once })
  where
    own :
        (cs : Contracts)
        → All (λ (item : String × ContractSpec). item.0 ≡ item.1.name) cs
        → All
            (λ (item : String × ContractSpec). item.0 ≡ item.1.name)
            (cs ++ ((spec.name, spec) ∷ []))
    own [] h = (refl, tt)
    own ((k, s) ∷ cs) (h, hs) = (h, own cs hs)

    apart :
        (k : String) (cs : Contracts)
        → k ≢ spec.name
        → All (λ (item : String × ContractSpec). k ≢ item.0) cs
        → All (λ (item : String × ContractSpec). k ≢ item.0) (cs ++ ((spec.name, spec) ∷ []))
    apart k [] n h = (n, tt)
    apart k ((j, s) ∷ cs) n (h, hs) = (h, apart k cs n hs)

    different :
        (cs : Contracts)
        → is_registered spec.name cs ≡ false
        → Distinct text_ord key_of cs
        → Distinct text_ord key_of (cs ++ ((spec.name, spec) ∷ []))
    different [] f h = (tt, tt)
    different ((k, s) ∷ cs) f (h, hs) =
        (apart k cs (λ e. cc ((str_eq_iff k spec.name).1 e, f)) h, different cs (ground arith) hs)

-- If every contract stands under its own name and no name twice, the contracts are listed in the
-- strict order of their names.
pub all_contracts-IsIncreasing :
    (contracts : Contracts)
    → WellKept contracts
    → IsIncreasing text_ord (λ (spec : ContractSpec). spec.name) (all_contracts contracts)
unfolding all_contracts
all_contracts-IsIncreasing contracts w =
    listed (sorted_by text_ord key_of contracts)
      (All-sorted_by text_ord key_of _ contracts w.own_names)
      (sorted_by-IsIncreasing text_ord key_of contracts w.once)
  where
    one :
        (n : String) (items : Contracts)
        → All (λ (item : String × ContractSpec). item.0 ≡ item.1.name) items
        → All (λ (item : String × ContractSpec). text_ord.lt n item.0 ≡ true) items
        → All
            (λ (spec : ContractSpec). text_ord.lt n spec.name ≡ true)
            (map (λ (item : String × ContractSpec). item.1) items)
    one n [] o h = tt
    one n ((k, s) ∷ items) (o, os) (h, hs) = (rw (← o) h, one n items os hs)

    listed :
        (items : Contracts)
        → All (λ (item : String × ContractSpec). item.0 ≡ item.1.name) items
        → IsIncreasing text_ord key_of items
        → IsIncreasing text_ord
            (λ (spec : ContractSpec). spec.name)
            (map (λ (item : String × ContractSpec). item.1) items)
    listed [] o h = tt
    listed ((k, s) ∷ items) (o, os) (h, hs) = (one s.name items os (rw (← o) h), listed items os hs)
