-- ===== src/Fingerprint/Identity.antt =====
-- The images that a container reports.
use self_improving_trading_s.Prelude.{
  ℕ, zero, suc, ◌≤◌, ◌≡◌, ◌⊎◌, inl, inr, refl, ap, ◌∙◌, arith, Bool, true, Option, none, some, List,
  [], ◌∷◌, ◌++◌, String, codes, lookup, length, All, after_text, after_text-append, Bool-cases,
  Option-cases,
}
use self_improving_trading_s.Errors.{ok, ok-injective}
use self_improving_trading_s.Fingerprint.{
  container_digest_env, ContainerIdentity, is_reproducible_context, is_hex, hex_to_end, is_digest,
  is_containerized, container_digest, container_identity,
}

abbrev pub IsHexDigit : ℕ → Type 0
IsHexDigit c = (b'0' ≤ c × c ≤ b'9') ⊎ (b'a' ≤ c × c ≤ b'f')

-- `sha256:` and 64 digits, with at most a line feed behind them.
pub record IsImageDigest (raw : String) : Type 0 where
  pub digits : List ℕ
  pub all_hex : All IsHexDigit digits
  pub in_number : length digits ≡ 64
  pub text_is :
      (codes raw ≡ codes "sha256:" ++ digits)
      ⊎ (codes raw ≡ codes "sha256:" ++ (digits ++ (10 ∷ [])))

hex-IsHexDigit : (c : ℕ) → is_hex c ≡ true → IsHexDigit c
unfolding is_hex
hex-IsHexDigit c h = ground arith

hex_parts :
    (width : ℕ) (cs : List ℕ)
    → hex_to_end width cs ≡ true
    → (ds : List ℕ) × All IsHexDigit ds × (length ds ≡ width) × ((cs ≡ ds) ⊎ (cs ≡ ds ++ (10 ∷ [])))
unfolding hex_to_end
hex_parts zero [] h = ([], tt, refl, inl refl)
hex_parts zero (c ∷ []) h =
    let e : c ≡ 10 = ground arith in ([], tt, refl, inr (ap (λ d. d ∷ []) e))
hex_parts zero (c ∷ d ∷ cs) h = cc
hex_parts (suc width) [] h = cc
hex_parts (suc width) (c ∷ cs) h =
    let (ds, hex, n, is) = hex_parts width cs (ground arith) in
    (
      c ∷ ds,
      (hex-IsHexDigit c (ground arith), hex),
      ap suc n,
      elim is [ inl e ↦ inl (ap (λ es. c ∷ es) e) | inr e ↦ inr (ap (λ es. c ∷ es) e) ],
    )

is_digest-IsImageDigest : (raw : String) → is_digest (codes raw) ≡ true → IsImageDigest raw
unfolding is_digest
is_digest-IsImageDigest raw h = elim (Option-cases (after_text (codes "sha256:") (codes raw))) [
  | inl e ↦ cc (rw (is_digest, e) at h)
  | inr (rest, e) ↦
      let (ds, hex, n, is) = hex_parts 64 rest (rw (is_digest, e) at h) in
      let whole = after_text-append (codes "sha256:") (codes raw) e in
      record {
        digits = ds;
        all_hex = hex;
        in_number = n;
        text_is = elim is [
          | inl s ↦ inl (whole ∙ ap (λ es. codes "sha256:" ++ es) s)
          | inr s ↦ inr (whole ∙ ap (λ es. codes "sha256:" ++ es) s)
        ];
      }
]

digest_kept :
    (raw : Option String) {i : ContainerIdentity}
    → container_digest raw ≡ ok i
    → (text : String) × (raw ≡ some text)
      × (i.image_digest ≡ some text)
      × IsImageDigest text
      × (is_reproducible_context i ≡ true)
unfolding container_digest is_reproducible_context
digest_kept none h = cc
digest_kept (some raw) h = elim (Bool-cases (is_digest (codes raw))) [
  | inl e ↦ rw (← ok-injective (rw (e) at h)) (raw, refl, refl, is_digest-IsImageDigest raw e, refl)
  | inr e ↦ cc (rw (e) at h)
]

-- In a container, an identity that is returned carries the digest that the environment holds, which is
-- `sha256:` with 64 digits in hexadecimal and at most a line feed behind them, and is a context to
-- reproduce a result in.
pub container_identity_lem :
    (env : List (String × String)) (dockerenv : Bool) (cgroup : Option String)
    {i : ContainerIdentity}
    → is_containerized dockerenv cgroup ≡ true
    → container_identity env dockerenv cgroup ≡ ok i
    → (text : String) × (lookup container_digest_env env ≡ some text)
      × (i.image_digest ≡ some text)
      × IsImageDigest text
      × (is_reproducible_context i ≡ true)
unfolding container_identity
container_identity_lem env dockerenv cgroup c h =
    digest_kept (lookup container_digest_env env) (rw (c) at h)
