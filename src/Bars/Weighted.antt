-- ===== src/Bars/Weighted.antt =====
-- Weighted sums of prices, and why an average that is rounded toward zero keeps their bounds.
use self_improving_trading_s.Prelude.{
  ℕ, zero, suc, ◌+◌, ◌*◌, ◌≤◌, ◌<◌, ◌≡◌, refl, ap, ◌∙◌, List, [], ◌∷◌, arith, int_laws, All, ℤ, pos,
  negsuc, pos_part, neg_part, ◌≤ℤ◌, ◌<ℤ◌, ◌+ℤ◌, ◌*ℤ◌, *ℤ-pos_parts, *ℤ-mono, le_of_*ℤ, +ℤ_parts,
  max_ℤ, min_ℤ, inl, inr, ◌⊎◌,
}
use self_improving_trading_s.Fraction.{Fraction, denominator}
use self_improving_trading_s.Money.Sides.{TowardZero}
use self_improving_trading_s.Bars.{TradeInput, total_size, total_notional, highest, lowest}

-- A number between two bounds.
abbrev pub Between : ℤ → ℤ → ℤ → Type 0
Between lo hi n = (lo ≤ℤ n) × (n ≤ℤ hi)

abbrev pub PriceBetween : ℤ → ℤ → TradeInput → Type 0
PriceBetween lo hi t = Between lo hi t.price_nano

abbrev pub HasSize : TradeInput → Type 0
HasSize t = pos 1 ≤ℤ t.size_shares

pub highest-ge : (p : ℤ) (ts : List TradeInput) → p ≤ℤ highest p ts
unfolding highest
highest-ge p [] = omega arith
highest-ge p (t ∷ ts) = ground (arith, highest-ge (max_ℤ p t.price_nano) ts)

pub lowest-le : (p : ℤ) (ts : List TradeInput) → lowest p ts ≤ℤ p
unfolding lowest
lowest-le p [] = omega arith
lowest-le p (t ∷ ts) = ground (arith, lowest-le (min_ℤ p t.price_nano) ts)

pub below_highest : (p : ℤ) (ts : List TradeInput) → All (λ t. t.price_nano ≤ℤ highest p ts) ts
unfolding highest
below_highest p [] = tt
below_highest p (t ∷ ts) =
    (ground (arith, highest-ge (max_ℤ p t.price_nano) ts), below_highest (max_ℤ p t.price_nano) ts)

pub above_lowest : (p : ℤ) (ts : List TradeInput) → All (λ t. lowest p ts ≤ℤ t.price_nano) ts
unfolding lowest
above_lowest p [] = tt
above_lowest p (t ∷ ts) =
    (ground (arith, lowest-le (min_ℤ p t.price_nano) ts), above_lowest (min_ℤ p t.price_nano) ts)

-- The weighted sum of prices lies between the bounds of the prices times the total weight.
pub record Weighed (lo hi : ℤ) (ts : List TradeInput) : Type 0 where
  pub weight : ℕ
  pub total : total_size ts ≡ pos weight
  pub lower : lo *ℤ pos weight ≤ℤ total_notional ts
  pub upper : total_notional ts ≤ℤ hi *ℤ pos weight

pub size_of : (s : ℤ) → pos 1 ≤ℤ s → (d : ℕ) × (s ≡ pos (suc d))
size_of (pos zero) h = absurd (omega arith)
size_of (pos (suc d)) h = (d, refl)
size_of (negsuc d) h = absurd (omega arith)

distribute : (a : ℤ) (m n : ℕ) → a *ℤ pos (m + n) ≡ a *ℤ pos m +ℤ a *ℤ pos n
distribute a m n =
    let (p, q) = *ℤ-pos_parts a m in
    let (r, s) = *ℤ-pos_parts a n in let (u, v) = *ℤ-pos_parts a (m + n) in omega int_laws

pub add_pos : (m n : ℕ) → pos m +ℤ pos n ≡ pos (m + n)
add_pos m n = omega int_laws

pub weighed :
    (lo hi : ℤ) (ts : List TradeInput)
    → All HasSize ts
    → All (PriceBetween lo hi) ts
    → Weighed lo hi ts
unfolding total_size total_notional
weighed lo hi [] h b = record {
  weight = 0;
  total = refl;
  lower = let (p, n) = *ℤ-pos_parts lo 0 in omega arith;
  upper = let (p, n) = *ℤ-pos_parts hi 0 in omega arith;
}
weighed lo hi (t ∷ ts) (s, h) ((l, u), b) =
    let w = weighed lo hi ts h b in
    let (d, e) = size_of t.size_shares s in
    record {
      weight = suc d + w.weight;
      total = rw (e, w.total) (add_pos (suc d) w.weight);
      lower =
          rw (e, distribute lo (suc d) w.weight)
            (omega (arith, +ℤ_parts, *ℤ-mono lo t.price_nano (suc d) l, w.lower));
      upper =
          rw (e, distribute hi (suc d) w.weight)
            (omega (arith, +ℤ_parts, *ℤ-mono t.price_nano hi (suc d) u, w.upper));
    }

times_zero : (m d : ℕ) → m ≡ 0 → m * d ≡ 0
times_zero m d e = ap (λ (t : ℕ). t * d) e ∙ omega arith

near_parts :
    (n v q : ℤ) (d : ℕ)
    → pos_part q ≡ pos_part v * d
    → neg_part q ≡ neg_part v * d
    → ((pos_part n ≡ 0) × (pos_part v ≡ 0)) ⊎ ((neg_part n ≡ 0) × (neg_part v ≡ 0))
    → (pos_part v + neg_part v) * d ≤ pos_part n + neg_part n
    → pos_part n + neg_part n < (pos_part v + neg_part v) * d + d
    → (q <ℤ n +ℤ pos d) × (n <ℤ q +ℤ pos d)
near_parts n v q d a b (inl (x, y)) c t =
    let z = times_zero (pos_part v) d y in (omega int_laws, omega int_laws)
near_parts n v q d a b (inr (x, y)) c t =
    let z = times_zero (neg_part v) d y in (omega int_laws, omega int_laws)

-- A quotient between two whole bounds, rounded toward zero, stays between them.
pub toward-Between :
    (lo hi : ℤ) (e : Fraction) (v : ℤ)
    → TowardZero e v
    → lo *ℤ pos (denominator e) ≤ℤ e.numerator
    → e.numerator ≤ℤ hi *ℤ pos (denominator e)
    → Between lo hi v
toward-Between lo hi e v t l u =
    let (p, n) = *ℤ-pos_parts v (denominator e) in
    let near : (v *ℤ pos (denominator e) <ℤ e.numerator +ℤ pos (denominator e))
        × (e.numerator <ℤ v *ℤ pos (denominator e) +ℤ pos (denominator e)) =
      near_parts e.numerator v (v *ℤ pos (denominator e)) (denominator e) p n t.same_sign t.covered
        t.tight in
    (
      le_of_*ℤ lo v (denominator e) (omega (arith, near.1, l)),
      le_of_*ℤ v hi (denominator e) (omega (int_laws, near.0, u)),
    )
