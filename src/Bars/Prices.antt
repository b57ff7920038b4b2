-- ===== src/Bars/Prices.antt =====
-- What one bar says of the trades of its window.
use mathlib.Core.Path.{subst₂}
use self_improving_trading_s.Prelude.{
  ℕ, suc, ◌+◌, ◌≡◌, refl, sym, ap, ◌∙◌, List, [], ◌∷◌, arith, All, ℤ, pos, pos_part, ◌≤ℤ◌, ◌*ℤ◌,
}
use self_improving_trading_s.Errors.{ok, >>=-eq-ok, ok-injective}
use self_improving_trading_s.Fraction.{Fraction, denominator, fraction}
use self_improving_trading_s.Money.{RoundedMoney, round_statistic}
use self_improving_trading_s.Ordering.{assign_ingest_index}
use self_improving_trading_s.Money.Rounding.{round_statistic_lem}
use self_improving_trading_s.Bars.{
  TradeInput, Bar, BarSettings, total_size, total_notional, highest, lowest, last_of, bar_of_window,
}
use self_improving_trading_s.Bars.Weighted.{
  Between, PriceBetween, HasSize, Weighed, highest-ge, lowest-le, below_highest, above_lowest,
  size_of, add_pos, weighed, toward-Between,
}

-- What holds of the prices of a bar whose prints all have a size of at least one.
pub record PricesHold (b : Bar) (first : TradeInput) (rest : List TradeInput) : Type 0 where
  pub opening : Between b.low_nano b.high_nano b.open_nano
  pub closing : Between b.low_nano b.high_nano b.close_nano
  pub average : Between b.low_nano b.high_nano b.vwap_nano
  pub all_prices : All (PriceBetween b.low_nano b.high_nano) (first ∷ rest)
  pub volume : b.volume_shares ≡ total_size (first ∷ rest)
  pub has_volume : pos 1 ≤ℤ b.volume_shares

bar-first :
    (settings : BarSettings) (position : ℕ) (start : ℤ) (first : TradeInput)
    (rest : List TradeInput) {b : Bar}
    → bar_of_window settings position start (first ∷ rest) ≡ ok b
    → (e : Fraction) × (m : RoundedMoney) × (fraction
          (total_notional (first ∷ rest))
          (total_size (first ∷ rest))
        ≡ ok e)
      × (round_statistic e ≡ ok m)
      × (b.vwap_nano ≡ m.value)
      × (b.open_nano ≡ first.price_nano)
      × (b.high_nano ≡ highest first.price_nano rest)
      × (b.low_nano ≡ lowest first.price_nano rest)
      × (b.close_nano ≡ (last_of first rest).price_nano)
      × (b.volume_shares ≡ total_size (first ∷ rest))
unfolding bar_of_window assign_ingest_index
bar-first settings position start first rest h =
    let (e, a, h1) =
      >>=-eq-ok (fraction (total_notional (first ∷ rest)) (total_size (first ∷ rest))) _ h in
    let (m, c, h2) = >>=-eq-ok (round_statistic e) _ h1 in
    let (i, d, h3) = >>=-eq-ok (assign_ingest_index (pos position)) _ h2 in
    rw (← ok-injective h3) (e, m, a, c, refl, refl, refl, refl, refl, refl)

All-last :
    (lo hi : ℤ) (t : TradeInput) (ts : List TradeInput)
    → PriceBetween lo hi t
    → All (PriceBetween lo hi) ts
    → PriceBetween lo hi (last_of t ts)
unfolding last_of
All-last lo hi t [] p h = p
All-last lo hi t (u ∷ ts) p (q, h) = All-last lo hi u ts q h

between-All : (p : ℤ) (ts : List TradeInput) → All (PriceBetween (lowest p ts) (highest p ts)) ts
between-All p ts = both (lowest p ts) (highest p ts) ts (above_lowest p ts) (below_highest p ts)
  where
    both :
        (lo hi : ℤ) (ts : List TradeInput)
        → All (λ t. lo ≤ℤ t.price_nano) ts
        → All (λ t. t.price_nano ≤ℤ hi) ts
        → All (PriceBetween lo hi) ts
    both lo hi [] h k = tt
    both lo hi (t ∷ ts) (h, hs) (k, ks) = ((h, k), both lo hi ts hs ks)

fraction_parts :
    (n : ℤ) (d : ℕ) {e : Fraction}
    → fraction n (pos (suc d)) ≡ ok e
    → (e.numerator ≡ n) × (denominator e ≡ suc d)
unfolding fraction
fraction_parts n d h = ground arith

-- The volume of a window with a first print, where all have a size.
volume_of :
    (lo hi : ℤ) (first : TradeInput) (rest : List TradeInput)
    → All HasSize (first ∷ rest)
    → Weighed lo hi (first ∷ rest)
    → Weighed lo hi rest
    → (k : ℕ) × (total_size (first ∷ rest) ≡ pos (suc k))
      × (lo *ℤ pos (suc k) ≤ℤ total_notional (first ∷ rest))
      × (total_notional (first ∷ rest) ≤ℤ hi *ℤ pos (suc k))
unfolding total_size
volume_of lo hi first rest (s, _) w r =
    let (d, e) = size_of first.size_shares s in
    let sum : total_size (first ∷ rest) ≡ pos (suc d + r.weight) =
      rw (e, r.total) (add_pos (suc d) r.weight) in
    let same : w.weight ≡ suc (d + r.weight) = omega (arith, ap pos_part (sym w.total ∙ sum)) in
    (d + r.weight, w.total ∙ ap pos same, rw same at w.lower, rw same at w.upper)

average-Between :
    (lo hi n : ℤ) (k : ℕ) {e : Fraction} {m : RoundedMoney}
    → fraction n (pos (suc k)) ≡ ok e
    → round_statistic e ≡ ok m
    → lo *ℤ pos (suc k) ≤ℤ n
    → n ≤ℤ hi *ℤ pos (suc k)
    → Between lo hi m.value
average-Between lo hi n k {e} {m} f r l u =
    let (num, den) = fraction_parts n k f in
    toward-Between lo hi e m.value (round_statistic_lem e r).1 (rw (num, den) l) (rw (num, den) u)

-- If every print of a window has a size of at least one, and the bar of the window is built, it
-- holds the volume of its prints, its low and high bound the price of each print, and the open, the
-- close and the rounded volume-weighted average lie between low and high.
pub bar_of_window_prices :
    (settings : BarSettings) (position : ℕ) (start : ℤ) (first : TradeInput)
    (rest : List TradeInput) {b : Bar}
    → All HasSize (first ∷ rest)
    → bar_of_window settings position start (first ∷ rest) ≡ ok b
    → PricesHold b first rest
bar_of_window_prices settings position start first rest {b} sizes h =
    let (e, m, a, c, vwap, open', high, low, close, volume) =
      bar-first settings position start first rest h in
    let p = first.price_nano in
    let lo = lowest p rest in
    let hi = highest p rest in
    let here : PriceBetween lo hi first = (lowest-le p rest, highest-ge p rest) in
    let prices : All (PriceBetween lo hi) (first ∷ rest) = (here, between-All p rest) in
    let w = weighed lo hi (first ∷ rest) sizes prices in
    let (k, total, lower, upper) =
      volume_of lo hi first rest sizes w (weighed lo hi rest sizes.1 prices.1) in
    record {
      opening = rw (low, high, open') here;
      closing = rw (low, high, close) (All-last lo hi first rest here prices.1);
      average =
          rw (low, high, vwap)
            (average-Between lo hi (total_notional (first ∷ rest)) k (rw total at a) c lower upper);
      all_prices =
          subst₂ (λ l h. All (PriceBetween l h) (first ∷ rest)) (sym low) (sym high) prices;
      volume = volume;
      has_volume = rw (volume, total) (omega arith);
    }
