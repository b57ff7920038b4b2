-- ===== src/Fingerprint/Fields.antt =====
-- What a fingerprint identifies.
use mathlib.Core.List.{append_assoc}
use mathlib.Core.Path.{subst}
use self_improving_trading_s.Prelude.{
  ℕ, suc, length, sorted_by, text_ord, ◌≡◌, ◌≢◌, refl, sym, ap, ◌∙◌, Option, some, List, [], ◌∷◌,
  ◌++◌, String, codes, codes-injective, All,
}
use self_improving_trading_s.Errors.{ok, ok-injective}
use self_improving_trading_s.Fingerprint.{
  Hasher, EnvironmentFingerprint, field_text, or_empty, canonical_fields, fingerprint_form,
  compute_environment_fingerprint, text_sha256, file_sha256, pinned_env_sha256, read_loop,
  chunk_size, env_text,
}
use self_improving_trading_s.Determinism.{pinned_env}
use self_improving_trading_s.Fingerprint.Read.{UpdateLaws, file_sha256_lem}

-- A text of one line.
abbrev pub IsOneLine : String → Type 0
IsOneLine s = All (λ (c : ℕ). c ≢ 10) (codes s)

first_line :
    (a b r s : List ℕ)
    → All (λ (c : ℕ). c ≢ 10) a
    → All (λ (c : ℕ). c ≢ 10) b
    → a ++ (10 ∷ r) ≡ b ++ (10 ∷ s)
    → (a ≡ b) × (r ≡ s)
first_line [] [] r s h k e = (refl, cc)
first_line [] (d ∷ b) r s h (k, ks) e = absurd (k (cc))
first_line (c ∷ a) [] r s (h, hs) k e = absurd (h (cc))
first_line (c ∷ a) (d ∷ b) r s (h, hs) (k, ks) e =
    let (same, rest) = first_line a b r s hs ks (cc) in (cc, rest)

drop_same : (p a b : List ℕ) → p ++ a ≡ p ++ b → a ≡ b
drop_same [] a b h = h
drop_same (c ∷ p) a b h = drop_same p a b (cc)

field_text-append :
    (k v : String) (r : List ℕ) → field_text k v ++ r ≡ codes k ++ (b'=' ∷ (codes v ++ (10 ∷ r)))
unfolding field_text
field_text-append k v r =
    append_assoc (codes k) (b'=' ∷ (codes v ++ (10 ∷ []))) r
    ∙ ap (λ cs. codes k ++ (b'=' ∷ cs)) (append_assoc (codes v) (10 ∷ []) r)

-- One field and what follows it can be told from the text.
field_parts :
    (k a b : String) (r s : List ℕ)
    → IsOneLine a
    → IsOneLine b
    → field_text k a ++ r ≡ field_text k b ++ s
    → (a ≡ b) × (r ≡ s)
field_parts k a b r s h h' e =
    let behind =
      drop_same (codes k) (b'=' ∷ (codes a ++ (10 ∷ r))) (b'=' ∷ (codes b ++ (10 ∷ s)))
        (sym (field_text-append k a r) ∙ (e ∙ field_text-append k b s)) in
    let (same, rest) = first_line (codes a) (codes b) r s h h' (drop_same (b'=' ∷ []) _ _ behind) in
    (codes-injective a b same, rest)

-- The fields of a fingerprint that are texts of one line.
abbrev pub AreOneLine : EnvironmentFingerprint → Type 0
AreOneLine f =
    IsOneLine f.python_version
    × IsOneLine (or_empty f.base_image_digest)
    × IsOneLine f.lock_sha256
    × IsOneLine f.pinned_env_sha256

-- Fingerprints of one canonical form agree in every field; a base image that is absent is like an empty text.
pub fingerprint_form-injective :
    (f g : EnvironmentFingerprint)
    → AreOneLine f
    → AreOneLine g
    → fingerprint_form f ≡ fingerprint_form g
    → (f.python_version ≡ g.python_version)
      × (or_empty f.base_image_digest ≡ or_empty g.base_image_digest)
      × (f.lock_sha256 ≡ g.lock_sha256)
      × (f.pinned_env_sha256 ≡ g.pinned_env_sha256)
unfolding fingerprint_form canonical_fields
fingerprint_form-injective f g (p, b, l, n) (p', b', l', n') e =
    let (base, e1) =
      field_parts "base_image_digest" (or_empty f.base_image_digest) (or_empty g.base_image_digest)
        _ _ b b' e in
    let (lock, e2) = field_parts "lock_sha256" f.lock_sha256 g.lock_sha256 _ _ l l' e1 in
    let (pinned, e3) =
      field_parts "pinned_env_sha256" f.pinned_env_sha256 g.pinned_env_sha256 _ _ n n' e2 in
    let (python, e4) =
      field_parts "python_version" f.python_version g.python_version [] [] p p'
        (ap (λ cs. cs ++ []) e3) in
    (python, base, lock, pinned)

module _ (hasher : Hasher) where
  open hasher use {State, new, update, hexdigest, encode}

  abbrev Computed :
      List ℕ → Option String → Option String → String → EnvironmentFingerprint → Type 0
  Computed lock base python running f =
      compute_environment_fingerprint hasher (some lock) base python running ≡ ok f

  fields_of_result :
      (lock : List ℕ) (base python : Option String) (running : String) {f : EnvironmentFingerprint}
      → Computed lock base python running f
      → (f.value ≡ text_sha256 hasher (fingerprint_form f))
        × (f.lock_sha256 ≡ file_sha256 hasher lock)
        × (f.pinned_env_sha256 ≡ pinned_env_sha256 hasher)
  unfolding compute_environment_fingerprint fingerprint_form
  fields_of_result lock base python running {f} h = rw (← ok-injective h) (refl, refl, refl)

  hashed_fields :
      (lock : List ℕ) (base python : Option String) (running : String) {f : EnvironmentFingerprint}
      → ((s : State) → IsOneLine (hexdigest s))
      → Computed lock base python running f
      → IsOneLine f.lock_sha256 × IsOneLine f.pinned_env_sha256
  unfolding file_sha256 pinned_env_sha256 text_sha256
  hashed_fields lock base python running hex h =
      let (_, l, n) = fields_of_result lock base python running h in
      (
        subst IsOneLine (sym l) (hex (read_loop hasher chunk_size (suc (length lock)) new lock)),
        subst IsOneLine (sym n) (
            hex (
              update new (
                encode
                  (env_text (sorted_by text_ord (λ (pin : String × String). pin.0) pinned_env))))),
      )

  -- Two fingerprints that are computed with the same value agree in the version of the interpreter, the base
  -- image, where none is like an empty text, and the hash of the lock file, if a hash in hexadecimal is one
  -- line, the versions and base images are one line, and the hash does not collide on the two canonical forms.
  pub value-identifies :
      (lock lock' : List ℕ) (base base' python python' : Option String) (running running' : String)
      {f g : EnvironmentFingerprint}
      → UpdateLaws hasher
      → ((s : State) → IsOneLine (hexdigest s))
      → Computed lock base python running f
      → Computed lock' base' python' running' g
      → IsOneLine f.python_version × IsOneLine (or_empty f.base_image_digest)
      → IsOneLine g.python_version × IsOneLine (or_empty g.base_image_digest)
      → (text_sha256 hasher (fingerprint_form f) ≡ text_sha256 hasher (fingerprint_form g)
          → fingerprint_form f ≡ fingerprint_form g)
      → f.value ≡ g.value
      → (f.python_version ≡ g.python_version)
        × (or_empty f.base_image_digest ≡ or_empty g.base_image_digest)
        × (hexdigest (update new lock) ≡ hexdigest (update new lock'))
  value-identifies lock lock' base base' python python' running running' {f} {g} laws hex cf cg
        (p, b) (p', b') apart same =
      let (vf, lf, _) = fields_of_result lock base python running cf in
      let (vg, lg, _) = fields_of_result lock' base' python' running' cg in
      let (l, n) = hashed_fields lock base python running hex cf in
      let (l', n') = hashed_fields lock' base' python' running' hex cg in
      let (python_same, base_same, lock_same, _) =
        fingerprint_form-injective f g (p, b, l, n) (p', b', l', n')
          (apart (sym vf ∙ (same ∙ vg))) in
      (
        python_same,
        base_same,
        sym (file_sha256_lem hasher laws lock)
            ∙ (sym lf ∙ (lock_same ∙ (lg ∙ file_sha256_lem hasher laws lock'))),
      )
