-- ===== src/Registry.antt =====
-- packages/schemas/src/trading/schemas/registry.py: the registered contracts and the lock that pins
-- them. The hash of a text is a parameter, as is the emitter version, which is a hash too. The detail
-- of a finding is not modelled, nor is the JSON of the lock file.
pub mod Registered
pub mod Locked
use self_improving_trading_s.Prelude.{
  ◌≡◌, Bool, true, false, not, Option, none, some, List, [], ◌∷◌, ◌++◌, map, String, ℤ,
  if◌then◌else◌, str_eq, in_names, lookup, eqb_ℤ, without, sorted_by, text_ord,
}
use self_improving_trading_s.Errors.{Result, ok, err, registry_error, ◌>>=◌}
use self_improving_trading_s.Spec.{Maturity, ContractSpec}
use self_improving_trading_s.Spec.Canonical.{canonical_form, maturity_value}

-- `_CONTRACTS`, in the order of registration
abbrev pub Contracts : Type 0
Contracts = List (String × ContractSpec)

abbrev pub key_of {ℓ} : {V : Type ℓ} → String × V → String
key_of item = item.0

-- `name in _CONTRACTS`
abbrev pub is_registered : String → Contracts → Bool
is_registered name contracts = in_names name (map key_of contracts)

unfoldable pub register : ContractSpec → Contracts → Result Contracts
register spec contracts =
    if is_registered spec.name contracts
    then err registry_error
    else ok (contracts ++ ((spec.name, spec) ∷ []))

unfoldable pub get : String → Contracts → Result ContractSpec
get name contracts = elim (lookup name contracts) [
  | none ↦ err registry_error
  | some spec ↦ ok spec
]

-- `sorted(_CONTRACTS)`, each with its contract
unfoldable pub all_contracts : Contracts → List ContractSpec
all_contracts contracts =
    map (λ (item : String × ContractSpec). item.1) (sorted_by text_ord key_of contracts)

pub record LockEntry : Type 0 where
  pub version : ℤ
  pub maturity : String
  pub hash : String
  pub canonical : String

pub record Break : Type 0 where
  pub contracts : List String
  pub reason : String

pub record Lock : Type 0 where
  pub emitter_version : String
  pub contracts : List (String × LockEntry)
  pub breaks : List Break

pub data FindingKind : Type 0 where
  emitter added changed bumped removed : FindingKind

pub record Finding : Type 0 where
  pub contract : String
  pub kind : FindingKind

module _ (hash : String → String) (emitter_version : String) where
  unfoldable pub lock_entry : ContractSpec → LockEntry
  lock_entry spec = record {
    version = spec.version;
    maturity = maturity_value spec.maturity;
    hash = hash (canonical_form spec);
    canonical = canonical_form spec;
  }

  -- Of contracts with different names.
  unfoldable pub lock_body : List ContractSpec → List Break → Lock
  unfolding lock_entry
  lock_body specs breaks = record {
    emitter_version = emitter_version;
    contracts = map (λ (spec : ContractSpec). (spec.name, lock_entry spec)) specs;
    breaks = breaks;
  }

  -- What the loop adds for one contract and its locked entry.
  unfoldable pub finding_of : ContractSpec → Option LockEntry → List Finding
  finding_of spec none = record { contract = spec.name; kind = added } ∷ []
  finding_of spec (some entry) =
      if str_eq entry.hash (hash (canonical_form spec))
      then []
      else if eqb_ℤ entry.version spec.version
      then record { contract = spec.name; kind = changed } ∷ []
      else record { contract = spec.name; kind = bumped } ∷ []

  -- The loop over the contracts: the findings, and what is left of `locked`.
  unfoldable pub check_specs :
      List ContractSpec → List (String × LockEntry) → List Finding × List (String × LockEntry)
  unfolding finding_of
  check_specs [] locked = ([], locked)
  check_specs (spec ∷ specs) locked =
      let rest = check_specs specs (without spec.name locked) in
      (finding_of spec (lookup spec.name locked) ++ rest.0, rest.1)

  unfoldable pub removed_findings : List (String × LockEntry) → List Finding
  removed_findings locked =
      map (λ (item : String × LockEntry). record { contract = item.0; kind = removed })
        (sorted_by text_ord key_of locked)

  unfoldable pub emitter_findings : Lock → List Finding
  emitter_findings lock =
      if not (str_eq lock.emitter_version emitter_version)
      then record { contract = "<emitter>"; kind = emitter } ∷ []
      else []

  unfoldable pub check : Lock → List ContractSpec → List Finding
  unfolding check_specs removed_findings emitter_findings
  check lock specs =
      let found = check_specs specs lock.contracts in
      emitter_findings lock ++ (found.0 ++ removed_findings found.1)
