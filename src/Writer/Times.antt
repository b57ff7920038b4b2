-- ===== src/Writer/Times.antt =====
-- The tables whose time columns the writer accepts.
use self_improving_trading_s.Prelude.{
  ◌≡◌, refl, ap, ◌∙◌, ◌↔◌, ◌⊎◌, inl, inr, true, Option, none, some, List, [], ◌∷◌, map, arith, All,
  ℤ, ◌≤ℤ◌, eq_of_parts, Bool-cases, Option-cases, if◌then◌else◌,
}
use self_improving_trading_s.Errors.{Result, ok, >>=-eq-ok, ◌>>=◌, ◌>>◌}
use self_improving_trading_s.Time.{min_plausible_ns, max_plausible_ns, is_plausible}
use self_improving_trading_s.Spec.{ContractSpec}
use self_improving_trading_s.Arrow.{Arrow}
use self_improving_trading_s.Writer.{
  KnowledgeTimePolicy, is_live, required_ints, check_plausible, check_order_of_times, check_live,
  int_column, required_int_column, check_time_fields,
}

-- Row by row: nothing is known, received or processed before it could be.
abbrev pub InOrder : List ℤ → List ℤ → List ℤ → List ℤ → Type 0
InOrder [] [] [] [] = Unit
InOrder (e ∷ es) (r ∷ rs) (p ∷ ps) (k ∷ ks) = (e ≤ℤ k) × (e ≤ℤ r) × (r ≤ℤ p) × InOrder es rs ps ks
InOrder _ _ _ _ = ⊥

abbrev pub IsPlausible : ℤ → Type 0
IsPlausible k = (min_plausible_ns ≤ℤ k) × (k ≤ℤ max_plausible_ns)

pub required_ints-some : (ns : List ℤ) → required_ints (map some ns) ≡ ok ns
unfolding required_ints
required_ints-some [] = refl
required_ints-some (n ∷ ns) = rw (required_ints-some ns)

required_ints-eq :
    (vs : List (Option ℤ)) (ns : List ℤ) → required_ints vs ≡ ok ns → vs ≡ map some ns
unfolding required_ints
required_ints-eq [] [] h = refl
required_ints-eq [] (n ∷ ns) h = cc
required_ints-eq (none ∷ vs) ns h = cc
required_ints-eq (some v ∷ vs) ns h =
    let (rest, r, e) = >>=-eq-ok (required_ints vs) (λ rest. ok (v ∷ rest)) h in
    let same : v ∷ rest ≡ ns = cc in
    ap (◌∷◌ (some v)) (required_ints-eq vs rest r) ∙ ap (map some) same

plausible→ : (ks : List ℤ) → check_plausible ks ≡ ok tt → All IsPlausible ks
unfolding check_plausible is_plausible
plausible→ [] h = tt
plausible→ (k ∷ ks) h = ((ground arith, ground arith), plausible→ ks (ground arith))

→plausible : (ks : List ℤ) → All IsPlausible ks → check_plausible ks ≡ ok tt
unfolding check_plausible is_plausible
→plausible [] h = refl
→plausible (k ∷ ks) (p, h) = ground (arith, →plausible ks h)

in_order→ : (es rs ps ks : List ℤ) → check_order_of_times es rs ps ks ≡ ok tt → InOrder es rs ps ks
unfolding check_order_of_times
in_order→ [] [] [] [] h = tt
in_order→ (e ∷ es) (r ∷ rs) (p ∷ ps) (k ∷ ks) h =
    (ground arith, ground arith, ground arith, in_order→ es rs ps ks (ground arith))
in_order→ _ _ _ _ h = cc

→in_order : (es rs ps ks : List ℤ) → InOrder es rs ps ks → check_order_of_times es rs ps ks ≡ ok tt
unfolding check_order_of_times
→in_order [] [] [] [] h = refl
→in_order (e ∷ es) (r ∷ rs) (p ∷ ps) (k ∷ ks) (a, b, c, h) = ground (arith, →in_order es rs ps ks h)
→in_order _ _ _ _ h = absurd h

live→ : (rs ks : List ℤ) → check_live rs ks ≡ ok tt → rs ≡ ks
unfolding check_live
live→ [] [] h = refl
live→ (r ∷ rs) (k ∷ ks) h =
    let e : r ≡ k = ground (arith, eq_of_parts r k) in let t = live→ rs ks (ground arith) in cc
live→ _ _ h = cc

→live : (rs : List ℤ) → check_live rs rs ≡ ok tt
unfolding check_live
→live [] = refl
→live (r ∷ rs) = ground (arith, →live rs)

-- What the writer asks of the time columns of a table under a policy: no null in the four columns, a
-- plausible knowledge time in each row, the four times of each row in order, and for live capture the
-- receive time as the knowledge time.
pub record TimesHold (arrow : Arrow) (t : arrow.Table) (policy : KnowledgeTimePolicy) : Type 0 where
  pub event : List ℤ
  pub receive : List ℤ
  pub process : List ℤ
  pub knowledge : List ℤ
  pub event_column : int_column arrow t "event_time" ≡ map some event
  pub receive_column : int_column arrow t "receive_time" ≡ map some receive
  pub process_column : int_column arrow t "process_time" ≡ map some process
  pub knowledge_column : int_column arrow t "knowledge_time" ≡ map some knowledge
  pub plausible : All IsPlausible knowledge
  pub in_order : InOrder event receive process knowledge
  pub live : is_live policy ≡ true → receive ≡ knowledge

module _ (arrow : Arrow) (t : arrow.Table) (policy : KnowledgeTimePolicy) where
  live_part : List ℤ → List ℤ → Result (Unit {0})
  live_part receive knowledge = if is_live policy then check_live receive knowledge else ok tt

  live_part→ : (rs ks : List ℤ) → live_part rs ks ≡ ok tt → is_live policy ≡ true → rs ≡ ks
  unfolding live_part
  live_part→ rs ks h l = live→ rs ks (rw l at h)

  →live_part : (rs ks : List ℤ) → (is_live policy ≡ true → rs ≡ ks) → live_part rs ks ≡ ok tt
  unfolding live_part
  →live_part rs ks h = elim (Bool-cases (is_live policy)) [
    | inl l ↦ rw (l, ← h l) (→live rs)
    | inr l ↦ rw l
  ]

  -- The body of `_check_time_fields` behind its first test.
  checks : Result (Unit {0})
  unfolding required_int_column live_part
  checks = do
    event ← required_int_column arrow t "event_time"
    receive ← required_int_column arrow t "receive_time"
    process ← required_int_column arrow t "process_time"
    knowledge ← required_int_column arrow t "knowledge_time"
    check_plausible knowledge
    check_order_of_times event receive process knowledge
    live_part receive knowledge

  checks→ : checks ≡ ok tt → TimesHold arrow t policy
  unfolding checks
  checks→ h =
      let (es, e, h1) = >>=-eq-ok (required_ints (int_column arrow t "event_time")) _ h in
      let (rs, r, h2) = >>=-eq-ok (required_ints (int_column arrow t "receive_time")) _ h1 in
      let (ps, p, h3) = >>=-eq-ok (required_ints (int_column arrow t "process_time")) _ h2 in
      let (ks, k, h4) = >>=-eq-ok (required_ints (int_column arrow t "knowledge_time")) _ h3 in
      let (_, a, h5) = >>=-eq-ok (check_plausible ks) _ h4 in
      let (_, b, h6) = >>=-eq-ok (check_order_of_times es rs ps ks) _ h5 in
      record {
        event = es;
        receive = rs;
        process = ps;
        knowledge = ks;
        event_column = required_ints-eq _ es e;
        receive_column = required_ints-eq _ rs r;
        process_column = required_ints-eq _ ps p;
        knowledge_column = required_ints-eq _ ks k;
        plausible = plausible→ ks a;
        in_order = in_order→ es rs ps ks b;
        live = live_part→ rs ks h6;
      }

  →checks : TimesHold arrow t policy → checks ≡ ok tt
  unfolding checks
  →checks v =
      rw (v.event_column, v.receive_column, v.process_column, v.knowledge_column)
        (simp
          (
            required_ints-some,
            →plausible v.knowledge v.plausible,
            →in_order v.event v.receive v.process v.knowledge v.in_order,
          )
          (→live_part v.receive v.knowledge v.live))

  -- The time check of the writer passes exactly for a contract without time columns, and for a table
  -- whose event, receive, process and knowledge columns have no null, whose knowledge times are
  -- plausible and not before the event, whose reception is not before the event nor processing
  -- before reception, and, under live capture, whose knowledge times are the reception times.
  pub check_time_fields_iff :
      (spec : ContractSpec)
      → (check_time_fields arrow t spec policy ≡ ok tt)
        ↔ ((spec.time_group ≡ none) ⊎ TimesHold arrow t policy)
  unfolding check_time_fields checks
  check_time_fields_iff spec = (there, back)
    where
      there :
          check_time_fields arrow t spec policy ≡ ok tt
          → (spec.time_group ≡ none) ⊎ TimesHold arrow t policy
      there h = elim (Option-cases spec.time_group) [
        | inl e ↦ inl e
        | inr (g, e) ↦ inr (checks→ (rw (e, check_time_fields) at h))
      ]

      back :
          (spec.time_group ≡ none) ⊎ TimesHold arrow t policy
          → check_time_fields arrow t spec policy ≡ ok tt
      back (inl e) = rw (e, check_time_fields)
      back (inr v) = elim (Option-cases spec.time_group) [
        | inl e ↦ rw (e, check_time_fields)
        | inr (g, e) ↦ rw (e, check_time_fields) (→checks v)
      ]
