-- ===== src/Bars/Conserved.antt =====
-- `build_bars` as a whole: the bars hold each eligible trade once, in the order of their windows.
use self_improving_trading_s.Prelude.{
  ℕ, suc, ◌≡◌, refl, sym, ap, ◌∙◌, true, List, [], ◌∷◌, int_laws, All, ℤ, pos, ◌+ℤ◌, ltb_ℤ, sum_by,
  length, IsIncreasing, int_ord, sorted_by-sum, sorted_by-length, sorted_by-IsIncreasing,
}
use self_improving_trading_s.Errors.{ok, >>=-eq-ok, ok-injective, err-ok}
use self_improving_trading_s.Fraction.{fraction}
use self_improving_trading_s.Money.{round_statistic}
use self_improving_trading_s.Ordering.{assign_ingest_index}
use self_improving_trading_s.Bars.{
  total_notional, TradeInput, Groups, Bar, BarSettings, total_size, by_time, bar_of_window,
  bars_from, by_start, build_bars, group_from,
}
use self_improving_trading_s.Bars.Grouping.{eligible, group_sum, group_from-sum, group_from-windows}

-- What the bar of a window takes from its start and its trades.
record Covers (b : Bar) (start : ℤ) (window : List TradeInput) : Type 0 where
  start_of : b.event_time ≡ start
  volume_of : b.volume_shares ≡ total_size window
  count_of : b.trade_count ≡ length window

bar_of_window-Covers :
    (settings : BarSettings) (position : ℕ) (start : ℤ) (window : List TradeInput) {b : Bar}
    → bar_of_window settings position start window ≡ ok b
    → Covers b start window
unfolding bar_of_window
bar_of_window-Covers settings position start [] h =
    let (average, _, h1) = >>=-eq-ok (fraction (total_notional []) (total_size [])) _ h in
    let (vwap, _, h2) = >>=-eq-ok (round_statistic average) _ h1 in
    let (index, _, h3) = >>=-eq-ok (assign_ingest_index (pos position)) _ h2 in absurd (err-ok h3)
bar_of_window-Covers settings position start (first ∷ rest) h =
    let (average, _, h1) =
      >>=-eq-ok (fraction (total_notional (first ∷ rest)) (total_size (first ∷ rest))) _ h in
    let (vwap, _, h2) = >>=-eq-ok (round_statistic average) _ h1 in
    let (index, _, h3) = >>=-eq-ok (assign_ingest_index (pos position)) _ h2 in
    rw (← ok-injective h3) (record { start_of = refl; volume_of = refl; count_of = refl })

-- Building the bars of some groups starts with the bar of the first.
bars_from-cons :
    (settings : BarSettings) (position : ℕ) (start : ℤ) (window : List TradeInput) (groups : Groups)
    {bars : List Bar}
    → bars_from settings position ((start, window) ∷ groups) ≡ ok bars
    → (first : Bar) × (rest : List Bar) × (bars ≡ first ∷ rest)
      × Covers first start (by_time window)
      × (bars_from settings (suc position) groups ≡ ok rest)
unfolding bars_from
bars_from-cons settings position start window groups h =
    let (first, a, h1) = >>=-eq-ok (bar_of_window settings position start (by_time window)) _ h in
    let (rest, b, h2) = >>=-eq-ok (bars_from settings (suc position) groups) _ h1 in
    (
      first,
      rest,
      sym (ok-injective h2),
      bar_of_window-Covers settings position start (by_time window) a,
      b,
    )

abbrev count : List TradeInput → ℤ
count = sum_by (λ (_ : TradeInput). pos 1)

count-length : (ts : List TradeInput) → count ts ≡ pos (length ts)
count-length [] = refl
count-length (t ∷ ts) = rw (count-length ts) (omega int_laws)

by_time-size :
    (ts : List TradeInput) → total_size (by_time ts) ≡ sum_by (λ (t : TradeInput). t.size_shares) ts
unfolding total_size by_time
by_time-size ts =
    sorted_by-sum int_ord (λ (t : TradeInput). t.event_time) (λ (t : TradeInput). t.size_shares) ts

by_time-length : (ts : List TradeInput) → pos (length (by_time ts)) ≡ count ts
unfolding by_time
by_time-length ts =
    ap pos (sorted_by-length int_ord (λ (t : TradeInput). t.event_time) ts) ∙ sym (count-length ts)

abbrev bars_volume : List Bar → ℤ
bars_volume = sum_by (λ (b : Bar). b.volume_shares)

abbrev bars_count : List Bar → ℤ
bars_count = sum_by (λ (b : Bar). pos b.trade_count)

bars_from-volume :
    (settings : BarSettings) (position : ℕ) (groups : Groups) {bars : List Bar}
    → bars_from settings position groups ≡ ok bars
    → bars_volume bars ≡ group_sum (λ (t : TradeInput). t.size_shares) groups
unfolding bars_from
bars_from-volume settings position [] h = rw (← ok-injective h) refl
bars_from-volume settings position ((start, window) ∷ groups) h =
    let (first, rest, e, c, k) = bars_from-cons settings position start window groups h in
    rw e (
      rw (c.volume_of, by_time-size window, bars_from-volume settings (suc position) groups k) refl)

bars_from-count :
    (settings : BarSettings) (position : ℕ) (groups : Groups) {bars : List Bar}
    → bars_from settings position groups ≡ ok bars
    → bars_count bars ≡ group_sum (λ (_ : TradeInput). pos 1) groups
unfolding bars_from
bars_from-count settings position [] h = rw (← ok-injective h) refl
bars_from-count settings position ((start, window) ∷ groups) h =
    let (first, rest, e, c, k) = bars_from-cons settings position start window groups h in
    rw e (
      rw (c.count_of, by_time-length window, bars_from-count settings (suc position) groups k) refl)

-- The starts of the groups bound those of the bars.
bars_from-All :
    (settings : BarSettings) (position : ℕ) (P : ℤ → Type 0) (groups : Groups) {bars : List Bar}
    → bars_from settings position groups ≡ ok bars
    → All (λ (g : ℤ × List TradeInput). P g.0) groups
    → All (λ (b : Bar). P b.event_time) bars
unfolding bars_from
bars_from-All settings position P [] h k = rw (← ok-injective h) tt
bars_from-All settings position P ((start, window) ∷ groups) h (p, ps) =
    let (first, rest, e, c, k) = bars_from-cons settings position start window groups h in
    rw e (rw c.start_of p, bars_from-All settings (suc position) P groups k ps)

bars_from-IsIncreasing :
    (settings : BarSettings) (position : ℕ) (groups : Groups) {bars : List Bar}
    → bars_from settings position groups ≡ ok bars
    → IsIncreasing int_ord (λ (g : ℤ × List TradeInput). g.0) groups
    → IsIncreasing int_ord (λ (b : Bar). b.event_time) bars
unfolding bars_from
bars_from-IsIncreasing settings position [] h k = rw (← ok-injective h) tt
bars_from-IsIncreasing settings position ((start, window) ∷ groups) h (p, ps) =
    let (first, rest, e, c, k) = bars_from-cons settings position start window groups h in
    rw e (
      rw c.start_of (bars_from-All settings (suc position) (λ z. ltb_ℤ start z ≡ true) groups k p),
      bars_from-IsIncreasing settings (suc position) groups k ps,
    )

-- What a call of `build_bars` keeps of its trades.
pub record Conserves (trades : List TradeInput) (bars : List Bar) : Type 0 where
  pub volumes : bars_volume bars ≡ sum_by (λ (t : TradeInput). t.size_shares) (eligible trades)
  pub counts : bars_count bars ≡ pos (length (eligible trades))
  pub increasing : IsIncreasing int_ord (λ (b : Bar). b.event_time) bars

-- When bars are built with a window of at least one nanosecond, the volumes of the bars add up to the
-- sizes of the eligible trades, their trade counts to the number of eligible trades, and the event times
-- of the bars increase strictly.
pub build_bars_lem :
    (trades : List TradeInput) (settings : BarSettings) (d : ℕ) {bars : List Bar}
    → settings.window_ns ≡ pos (suc d)
    → build_bars trades settings ≡ ok bars
    → Conserves trades bars
unfolding build_bars by_start
build_bars_lem trades settings d {bars} w h =
    let (groups, a, k) =
      >>=-eq-ok (group_from settings.window_ns settings.origin_ns [] trades) _ h in
    let by : ℤ × List TradeInput → ℤ = λ g. g.0 in
    let (_, once) = group_from-windows d settings.origin_ns [] trades (rw w at a) tt tt in
    let of_groups : (f : TradeInput → ℤ)
        → group_sum f (by_start groups) ≡ group_sum f [] +ℤ sum_by f (eligible trades) =
      λ f.
        sorted_by-sum int_ord by (λ g. sum_by f g.1) groups
        ∙ group_from-sum f settings.window_ns settings.origin_ns [] trades a in
    record {
      volumes =
          bars_from-volume settings 0 (by_start groups) k
          ∙ of_groups (λ t. t.size_shares)
          ∙ omega int_laws;
      counts =
          bars_from-count settings 0 (by_start groups) k
          ∙ of_groups (λ _. pos 1)
          ∙ rw (count-length (eligible trades)) (omega int_laws);
      increasing =
          bars_from-IsIncreasing settings 0 (by_start groups) k
            (sorted_by-IsIncreasing int_ord by groups once);
    }
