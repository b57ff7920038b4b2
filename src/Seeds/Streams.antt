-- ===== src/Seeds/Streams.antt =====
-- Streams of different names have different seeds.
use self_improving_trading_s.Prelude.{
  ℕ, ◌+◌, ◌*◌, ◌<◌, ◌≡◌, refl, arith, List, [], ◌∷◌, String, codes, length, All, str_eq, Bool-cases,
  inl, inr,
}
use self_improving_trading_s.Errors.{ok, ok-injective, >>=-eq-ok}
use self_improving_trading_s.Seeds.{
  from_bytes, SeedSequence, SeedEnvelope, stable_name_key, sequence,
}

from_bytes-injective :
    (a b : ℕ) (xs ys : List ℕ)
    → length xs ≡ length ys
    → All (λ (x : ℕ). x < 256) xs
    → All (λ (y : ℕ). y < 256) ys
    → from_bytes a xs ≡ from_bytes b ys
    → (a ≡ b) × (xs ≡ ys)
unfolding from_bytes
from_bytes-injective a b [] [] n h k e = (e, refl)
from_bytes-injective a b [] (y ∷ ys) n h k e = cc
from_bytes-injective a b (x ∷ xs) [] n h k e = cc
from_bytes-injective a b (x ∷ xs) (y ∷ ys) n (h, hs) (k, ks) e =
    let (same, rest) =
      from_bytes-injective (a * 256 + x) (b * 256 + y) xs ys (omega (arith, n)) hs ks e in
    let first : x ≡ y = omega (arith, same, h, k) in (omega (arith, same, h, k), cc (first, rest))

module _ (digest : List ℕ → List ℕ) where
  -- What the digests are relied on for: eight bytes.
  pub record IsDigest : Type 0 where
    pub in_number : (cs : List ℕ) → length (digest cs) ≡ 8
    pub are_bytes : (cs : List ℕ) → All (λ (b : ℕ). b < 256) (digest cs)

  key_is :
      (name : String) {k : ℕ}
      → stable_name_key digest name ≡ ok k
      → from_bytes 0 (digest (codes name)) ≡ k
  unfolding stable_name_key
  key_is name h = elim (Bool-cases (str_eq name "")) [
    | inl e ↦ cc (rw (e) at h)
    | inr e ↦ ok-injective (rw (e) at h)
  ]

  sequence_parts :
      (envelope : SeedEnvelope) (name : String) {s : SeedSequence}
      → sequence digest envelope name ≡ ok s
      → (s.entropy ≡ envelope.experiment_seed) × (from_bytes 0 (digest (codes name)) ≡ s.spawn_key)
  unfolding sequence
  sequence_parts envelope name h =
      let (k, a, e) = >>=-eq-ok (stable_name_key digest name) _ h in
      rw (← ok-injective e) (refl, key_is name a)

  -- The seed sequences of two names, even under two envelopes, are the same only if the envelopes have one
  -- seed and the names one digest.
  pub sequence-injective :
      (e f : SeedEnvelope) (m n : String) {s : SeedSequence}
      → IsDigest
      → sequence digest e m ≡ ok s
      → sequence digest f n ≡ ok s
      → (e.experiment_seed ≡ f.experiment_seed) × (digest (codes m) ≡ digest (codes n))
  sequence-injective e f m n d h k =
      let (a, b) = sequence_parts e m h in
      let (a', b') = sequence_parts f n k in
      let (_, same) =
        from_bytes-injective 0 0 (digest (codes m)) (digest (codes n))
          (cc (d.in_number (codes m), d.in_number (codes n))) (d.are_bytes (codes m))
          (d.are_bytes (codes n)) (cc (b, b')) in
      (cc (a, a'), same)
