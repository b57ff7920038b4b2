-- ===== src/Registry/Locked.antt =====
-- What the check of the lock says.
use self_improving_trading_s.Prelude.{
  ◌≡◌, refl, sym, ap, ◌∙◌, true, false, Option, none, some, List, [], ◌∷◌, map, String, arith,
  str_eq, str_eq_iff, in_names, lookup, All, All-imp, Bool-cases, inl, inr, ◌⊎◌, without,
  lookup-without, lookup-without_self, sorted_by, text_ord, sorted_by-length, length, append-nil,
}
use self_improving_trading_s.Spec.{ContractSpec, no_duplicates}
use self_improving_trading_s.Spec.Canonical.{canonical_form}
use self_improving_trading_s.Registry.{
  key_of, LockEntry, Break, Lock, Finding, lock_entry, lock_body, finding_of, check_specs,
  removed_findings, emitter_findings, check, removed,
}

names : List ContractSpec → List String
names = map (λ (spec : ContractSpec). spec.name)

module _ (hash : String → String) (emitter_version : String) where
  entries : List ContractSpec → List (String × LockEntry)
  entries = map (λ (spec : ContractSpec). (spec.name, lock_entry hash emitter_version spec))

  without-entries :
      (n : String) (specs : List ContractSpec)
      → in_names n (names specs) ≡ false
      → without n (entries specs) ≡ entries specs
  unfolding without entries names
  without-entries n [] h = refl
  without-entries n (spec ∷ specs) h = ground (arith, without-entries n specs (ground arith))

  clean :
      (specs : List ContractSpec)
      → no_duplicates (names specs) ≡ true
      → check_specs hash emitter_version specs (entries specs) ≡ ([], [])
  unfolding check_specs entries names no_duplicates finding_of without lock_entry
  clean [] h = refl
  clean (spec ∷ specs) h =
      let own = hash (canonical_form spec) in
      rw ((str_eq_iff spec.name spec.name).1 refl) (
        rw (without-entries spec.name specs (ground arith))
          (rw (clean specs (ground arith), (str_eq_iff own own).1 refl) refl))

  -- Checking contracts with different names against the lock that is rendered from them finds nothing,
  -- whatever breaks the lock records.
  pub check-lock_body :
      (specs : List ContractSpec) (breaks : List Break)
      → no_duplicates (map (λ (spec : ContractSpec). spec.name) specs) ≡ true
      → check hash emitter_version (lock_body hash emitter_version specs breaks) specs ≡ []
  unfolding check lock_body emitter_findings removed_findings names entries sorted_by
  check-lock_body specs breaks h =
      rw (clean specs h)
        (rw (emitter_findings, (str_eq_iff emitter_version emitter_version).1 refl) refl)

  -- The lock has an entry with the contract's hash.
  abbrev pub IsLocked : List (String × LockEntry) → ContractSpec → Type 0
  IsLocked locked spec =
      (entry : LockEntry) × (lookup spec.name locked ≡ some entry)
      × (entry.hash ≡ hash (canonical_form spec))

  -- What a check without findings means.
  pub record Agrees (lock : Lock) (specs : List ContractSpec) : Type 0 where
    pub emitters : lock.emitter_version ≡ emitter_version
    pub locked : All (IsLocked lock.contracts) specs
    pub declared :
        (n : String)
        → (lookup n lock.contracts ≡ none)
          ⊎ (in_names n (map (λ (spec : ContractSpec). spec.name) specs) ≡ true)

  found-IsLocked :
      (locked : List (String × LockEntry)) (spec : ContractSpec)
      → finding_of hash emitter_version spec (lookup spec.name locked) ≡ []
      → IsLocked locked spec
  unfolding finding_of
  found-IsLocked locked spec h = go (lookup spec.name locked) refl h
    where
      go :
          (found : Option LockEntry)
          → lookup spec.name locked ≡ found
          → finding_of hash emitter_version spec found ≡ []
          → IsLocked locked spec
      go none e h = cc
      go (some entry) e h =
          (entry, e, ground (arith, str_eq_iff entry.hash (hash (canonical_form spec))))

  IsLocked-without :
      (k : String) (locked : List (String × LockEntry)) (spec : ContractSpec)
      → IsLocked (without k locked) spec
      → IsLocked locked spec
  IsLocked-without k locked spec (entry, e, h) = elim (Bool-cases (str_eq k spec.name)) [
    | inr n ↦ (entry, sym (lookup-without k spec.name locked n) ∙ e, h)
    | inl y ↦ cc ((str_eq_iff k spec.name).0 y, lookup-without_self k locked, e)
  ]

  agreed :
      (specs : List ContractSpec) (locked : List (String × LockEntry))
      → (check_specs hash emitter_version specs locked).0 ≡ []
      → All (IsLocked locked) specs
        × ((n : String)
            → lookup n (check_specs hash emitter_version specs locked).1 ≡ none
            → (lookup n locked ≡ none) ⊎ (in_names n (names specs) ≡ true))
  unfolding check_specs names
  agreed [] locked h = (tt, λ n e. inl e)
  agreed (spec ∷ specs) locked h =
      let (own, others) = append-nil _ _ h in
      let (each, left) = agreed specs (without spec.name locked) others in
      (
        (found-IsLocked locked spec own, All-imp (IsLocked-without spec.name locked) specs each),
        λ n e. elim (Bool-cases (str_eq spec.name n)) [
          | inl y ↦ inr (rw y refl)
          | inr y ↦ elim (left n e) [
            | inl z ↦ inl (sym (lookup-without spec.name n locked y) ∙ z)
            | inr z ↦ inr (rw y z)
          ]
        ],
      )

  nothing_removed :
      (locked : List (String × LockEntry))
      → removed_findings hash emitter_version locked ≡ []
      → locked ≡ []
  unfolding removed_findings
  nothing_removed locked h = no_items locked (
      sym (sorted_by-length text_ord key_of locked)
      ∙ no_findings (sorted_by text_ord key_of locked) h)
    where
      no_findings :
          (items : List (String × LockEntry))
          → map
              (λ (item : String × LockEntry).
                let f : Finding = record { contract = item.0; kind = removed } in f)
              items
            ≡ []
          → length items ≡ 0
      no_findings [] e = refl
      no_findings (i ∷ items) e = cc

      no_items : (items : List (String × LockEntry)) → length items ≡ 0 → items ≡ []
      no_items [] e = refl
      no_items (i ∷ items) e = ground arith

  -- If the check finds nothing, the emitter version is the locked one, every contract has an entry in
  -- the lock with the hash of its canonical form, and every entry of the lock belongs to a contract.
  pub check_lem :
      (lock : Lock) (specs : List ContractSpec)
      → check hash emitter_version lock specs ≡ []
      → Agrees lock specs
  unfolding check names emitter_findings
  check_lem lock specs h =
      let (same, h1) = append-nil _ _ h in
      let (found, gone) = append-nil _ _ h1 in
      let (each, left) = agreed specs lock.contracts found in
      record {
        emitters = ground (arith, str_eq_iff lock.emitter_version emitter_version);
        locked = each;
        declared = λ n. left n (ap (lookup n) (nothing_removed _ gone));
      }
