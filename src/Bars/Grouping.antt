-- ===== src/Bars/Grouping.antt =====
-- How trades are divided into windows: each in the one that contains it, none lost or counted twice.
use self_improving_trading_s.Prelude.{
  ℕ, suc, ◌≡◌, ap, ◌∙◌, ◌≢◌, true, false, List, [], ◌∷◌, ◌++◌, arith, int_laws, All, ℤ, pos, ◌≤ℤ◌,
  ◌<ℤ◌, ◌+ℤ◌, ◌-ℤ◌, eqb_ℤ, eq_of_parts, Bool-cases, inl, inr, sum_by, sum_by-append,
  floor_div_bounds, if◌then◌else◌, Distinct, int_ord,
}
use self_improving_trading_s.Errors.{ok, >>=-eq-ok, ok-injective}
use self_improving_trading_s.Bars.{
  TradeInput, Groups, is_bar_eligible, int_floor_div, window_start, append_to, group_from,
}

-- The trades that pass the filter, in their order.
abbrev pub eligible : List TradeInput → List TradeInput
eligible [] = []
eligible (t ∷ ts) = if is_bar_eligible t.conditions then t ∷ eligible ts else eligible ts

-- A sum over the trades of all groups.
abbrev pub group_sum : (TradeInput → ℤ) → Groups → ℤ
group_sum f = sum_by (λ (g : ℤ × List TradeInput). sum_by f g.1)

append_to-sum :
    (f : TradeInput → ℤ) (start : ℤ) (t : TradeInput) (groups : Groups)
    → group_sum f (append_to start t groups) ≡ f t +ℤ group_sum f groups
unfolding append_to
append_to-sum f start t [] = omega int_laws
append_to-sum f start t ((s, ts) ∷ groups) = elim (Bool-cases (eqb_ℤ s start)) [
  | inl e ↦ rw e (rw (sum_by-append f ts (t ∷ [])) (omega int_laws))
  | inr e ↦ rw e (rw (append_to-sum f start t groups) (omega int_laws))
]

-- Grouping adds each eligible trade to exactly one group.
pub group_from-sum :
    (f : TradeInput → ℤ) (window_ns origin_ns : ℤ) (groups : Groups) (trades : List TradeInput)
    {result : Groups}
    → group_from window_ns origin_ns groups trades ≡ ok result
    → group_sum f result ≡ group_sum f groups +ℤ sum_by f (eligible trades)
unfolding group_from
group_from-sum f w o groups [] h = rw (← ok-injective h) (omega int_laws)
group_from-sum f w o groups (t ∷ trades) h = elim (Bool-cases (is_bar_eligible t.conditions)) [
  | inr e ↦ rw e (group_from-sum f w o groups trades (rw (e, group_from) at h))
  | inl e ↦
      let (s, a, k) = >>=-eq-ok (window_start t.event_time w o) _ (rw (e, group_from) at h) in
      let ih = group_from-sum f w o (append_to s t groups) trades k in
      rw e (ih ∙ rw (append_to-sum f s t groups) (omega int_laws))
]

-- The trades of a group lie in its half-open window.
abbrev pub InWindow : ℕ → ℤ × List TradeInput → Type 0
InWindow d g =
    All (λ (t : TradeInput). (g.0 ≤ℤ t.event_time) × (t.event_time <ℤ g.0 +ℤ pos (suc d))) g.1

-- For a window of at least one nanosecond, the start that is computed is at most the time of the
-- event, and the event is before the start plus the window: it lies in the half-open window.
pub window_start_lem :
    (event_time origin_ns : ℤ) (d : ℕ) {s : ℤ}
    → window_start event_time (pos (suc d)) origin_ns ≡ ok s
    → (s ≤ℤ event_time) × (event_time <ℤ s +ℤ pos (suc d))
unfolding window_start int_floor_div
window_start_lem event_time o d h =
    let (lo, hi) = floor_div_bounds (event_time -ℤ o) (suc d) (omega arith) in
    rw (← ok-injective h) (omega int_laws, omega int_laws)

eqb_ℤ-eq : (a b : ℤ) → eqb_ℤ a b ≡ true → a ≡ b
eqb_ℤ-eq a b h = eq_of_parts a b (ground arith)

eqb_ℤ-ne : (a b : ℤ) → eqb_ℤ a b ≡ false → a ≢ b
eqb_ℤ-ne a b h e = ground (arith, ap (λ z. eqb_ℤ z b) e, h)

-- Appending a trade at a group's end keeps what holds of each trade.
All-snoc :
    (P : TradeInput → Type 0) (ts : List TradeInput) (t : TradeInput)
    → All P ts
    → P t
    → All P (ts ++ (t ∷ []))
All-snoc P [] t h p = (p, tt)
All-snoc P (u ∷ ts) t (q, h) p = (q, All-snoc P ts t h p)

append_to-InWindow :
    (d : ℕ) (start : ℤ) (t : TradeInput) (groups : Groups)
    → (start ≤ℤ t.event_time) × (t.event_time <ℤ start +ℤ pos (suc d))
    → All (InWindow d) groups
    → All (InWindow d) (append_to start t groups)
unfolding append_to
append_to-InWindow d start t [] p h = ((p, tt), tt)
append_to-InWindow d start t ((s, ts) ∷ groups) p (h, hs) = elim (Bool-cases (eqb_ℤ s start)) [
  | inl e ↦ rw e (All-snoc _ ts t h (rw (eqb_ℤ-eq s start e) p), hs)
  | inr e ↦ rw e (h, append_to-InWindow d start t groups p hs)
]

append_to-fresh :
    (k start : ℤ) (t : TradeInput) (groups : Groups)
    → k ≢ start
    → All (λ (g : ℤ × List TradeInput). k ≢ g.0) groups
    → All (λ (g : ℤ × List TradeInput). k ≢ g.0) (append_to start t groups)
unfolding append_to
append_to-fresh k start t [] n h = (n, tt)
append_to-fresh k start t ((s, ts) ∷ groups) n (h, hs) = elim (Bool-cases (eqb_ℤ s start)) [
  | inl e ↦ rw e (h, hs)
  | inr e ↦ rw e (h, append_to-fresh k start t groups n hs)
]

-- The starts of groups, which are distinct.
abbrev pub OneEach : Groups → Type 0
OneEach = Distinct int_ord (λ (g : ℤ × List TradeInput). g.0)

append_to-OneEach :
    (start : ℤ) (t : TradeInput) (groups : Groups)
    → OneEach groups
    → OneEach (append_to start t groups)
unfolding append_to
append_to-OneEach start t [] h = (tt, tt)
append_to-OneEach start t ((s, ts) ∷ groups) (h, hs) = elim (Bool-cases (eqb_ℤ s start)) [
  | inl e ↦ rw e (h, hs)
  | inr e ↦
      rw e (
        append_to-fresh s start t groups (eqb_ℤ-ne s start e) h,
        append_to-OneEach start t groups hs,
      )
]

-- Grouping keeps every trade in its window, and one group for each start.
pub group_from-windows :
    (d : ℕ) (origin_ns : ℤ) (groups : Groups) (trades : List TradeInput) {result : Groups}
    → group_from (pos (suc d)) origin_ns groups trades ≡ ok result
    → All (InWindow d) groups
    → OneEach groups
    → All (InWindow d) result × OneEach result
unfolding group_from
group_from-windows d o groups [] h p q = rw (← ok-injective h) (p, q)
group_from-windows d o groups (t ∷ trades) h p q =
    elim (Bool-cases (is_bar_eligible t.conditions)) [
      | inr e ↦ group_from-windows d o groups trades (rw (e, group_from) at h) p q
      | inl e ↦
          let (s, a, k) =
            >>=-eq-ok (window_start t.event_time (pos (suc d)) o) _ (rw (e, group_from) at h) in
          group_from-windows d o (append_to s t groups) trades k
            (append_to-InWindow d s t groups (window_start_lem t.event_time o d a) p)
            (append_to-OneEach s t groups q)
    ]
