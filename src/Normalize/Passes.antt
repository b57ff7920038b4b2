-- ===== src/Normalize/Passes.antt =====
-- Tables built from rows: when they pass the checks of the writer.
use self_improving_trading_s.Prelude.{
  ◌≡◌, refl, sym, ap, ◌∙◌, true, not, ◌||◌, some, List, [], ◌∷◌, map, String, arith, +ℤ_parts, All,
  all, ℤ, pos, ◌≤ℤ◌, in_names, inr,
}
use self_improving_trading_s.Errors.{ok}
use self_improving_trading_s.Ordering.{OrderingKey}
use self_improving_trading_s.Spec.{ContractSpec, FieldSpec, field_names}
use self_improving_trading_s.Arrow.{Arrow, int, as_int}
use self_improving_trading_s.Writer.{
  is_live, is_money, int_column, check_time_fields, check_ordering,
}
use self_improving_trading_s.Writer.Times.{InOrder, IsPlausible, check_time_fields_iff}
use self_improving_trading_s.Writer.Keys.{Increasing, check_ordering_iff}
use self_improving_trading_s.Writer.Amounts.{Storable, AmountsHold}
use self_improving_trading_s.Normalize.{
  NormalizationContext, knowledge_time, time_columns, Row, cells, row_key, to_table,
}
use self_improving_trading_s.Normalize.Tables.{cell_of, column-to_table}

-- A row whose times are in order, whose knowledge time is plausible and follows the context's policy.
pub record TimelyRow (context : NormalizationContext) (r : Row) : Type 0 where
  pub known : r.times.event_time ≤ℤ r.times.knowledge_time
  pub received : r.times.event_time ≤ℤ r.times.receive_time
  pub processed : r.times.receive_time ≤ℤ r.times.process_time
  pub plausible : IsPlausible r.times.knowledge_time
  pub live : is_live context.knowledge_policy ≡ true → r.times.receive_time ≡ r.times.knowledge_time

-- The context and an event fit: the event was received after it happened, and the knowledge time that
-- the policy gives it is plausible.
pub record IsTimely (context : NormalizationContext) (event_time : ℤ) : Type 0 where
  pub received : event_time ≤ℤ context.receive_time
  pub plausible : IsPlausible (knowledge_time context event_time)

-- Processing follows reception, and the declared lag is no lead.
pub record IsOrdered (context : NormalizationContext) : Type 0 where
  pub processed : context.receive_time ≤ℤ context.process_time
  pub lag : pos 0 ≤ℤ context.publication_lag_ns

known_after :
    (context : NormalizationContext) (e : ℤ)
    → IsOrdered context
    → e ≤ℤ context.receive_time
    → e ≤ℤ knowledge_time context e
unfolding knowledge_time
known_after context e c h = ground (arith, +ℤ_parts e context.publication_lag_ns, c.lag)

known_live :
    (context : NormalizationContext) (e : ℤ)
    → is_live context.knowledge_policy ≡ true
    → context.receive_time ≡ knowledge_time context e
unfolding knowledge_time
known_live context e h = rw h

pub timely_row :
    (context : NormalizationContext) (r : Row) (e : ℤ)
    → IsOrdered context
    → IsTimely context e
    → r.times ≡ time_columns e context
    → TimelyRow context r
unfolding time_columns
timely_row context r e c h same = rw same (record {
  known = known_after context e c h.received;
  received = h.received;
  processed = c.processed;
  plausible = h.plausible;
  live = known_live context e;
})

-- A contract has the columns that the time and the ordering check read.
pub record HasColumns (contract : ContractSpec) : Type 0 where
  pub event : in_names "event_time" (field_names contract) ≡ true
  pub receive : in_names "receive_time" (field_names contract) ≡ true
  pub process : in_names "process_time" (field_names contract) ≡ true
  pub knowledge : in_names "knowledge_time" (field_names contract) ≡ true
  pub rank : in_names "source_rank" (field_names contract) ≡ true
  pub vendor : in_names "vendor_sequence" (field_names contract) ≡ true
  pub venue : in_names "venue_sequence" (field_names contract) ≡ true
  pub index : in_names "ingest_index" (field_names contract) ≡ true

module _ (arrow : Arrow) (contract : ContractSpec) (context : NormalizationContext)
    (rows : List Row) (t : arrow.Table) (built : to_table arrow rows contract ≡ ok t)
    (has : HasColumns contract) where
  -- A column whose cell is an int in every row.
  int_cells :
      (name : String) (f : Row → ℤ)
      → in_names name (field_names contract) ≡ true
      → ((r : Row) → cell_of name r ≡ int (f r))
      → int_column arrow t name ≡ map some (map f rows)
  int_cells name f e h = column-to_table arrow rows contract name built e ∙ each rows
    where
      each : (rs : List Row) → map as_int (map (cell_of name) rs) ≡ map some (map f rs)
      each [] = refl
      each (r ∷ rs) = rw (h r) (ap (◌∷◌ (some (f r))) (each rs))

  in_order :
      (rs : List Row)
      → All (TimelyRow context) rs
      → InOrder
          (map (λ (r : Row). r.times.event_time) rs)
          (map (λ (r : Row). r.times.receive_time) rs)
          (map (λ (r : Row). r.times.process_time) rs)
          (map (λ (r : Row). r.times.knowledge_time) rs)
  in_order [] h = tt
  in_order (r ∷ rs) (h, hs) = (h.known, h.received, h.processed, in_order rs hs)

  All-IsPlausible :
      (rs : List Row)
      → All (TimelyRow context) rs
      → All IsPlausible (map (λ (r : Row). r.times.knowledge_time) rs)
  All-IsPlausible [] h = tt
  All-IsPlausible (r ∷ rs) (h, hs) = (h.plausible, All-IsPlausible rs hs)

  All-live :
      (rs : List Row)
      → All (TimelyRow context) rs
      → is_live context.knowledge_policy ≡ true
      → map (λ (r : Row). r.times.receive_time) rs ≡ map (λ (r : Row). r.times.knowledge_time) rs
  All-live [] h l = refl
  All-live (r ∷ rs) (h, hs) l = let a = h.live l in let b = All-live rs hs l in cc

  pub times_pass :
      All (TimelyRow context) rows
      → check_time_fields arrow t contract context.knowledge_policy ≡ ok tt
  unfolding cell_of cells
  times_pass h = (check_time_fields_iff arrow t context.knowledge_policy contract).1 (
      inr (record {
        event = map (λ (r : Row). r.times.event_time) rows;
        receive = map (λ (r : Row). r.times.receive_time) rows;
        process = map (λ (r : Row). r.times.process_time) rows;
        knowledge = map (λ (r : Row). r.times.knowledge_time) rows;
        event_column = int_cells "event_time" _ has.event (λ r. refl);
        receive_column = int_cells "receive_time" _ has.receive (λ r. refl);
        process_column = int_cells "process_time" _ has.process (λ r. refl);
        knowledge_column = int_cells "knowledge_time" _ has.knowledge (λ r. refl);
        plausible = All-IsPlausible rows h;
        in_order = in_order rows h;
        live = All-live rows h;
      }))

  map_keys :
      {A : Type 0} (f : OrderingKey → A) (rs : List Row)
      → map f (map row_key rs) ≡ map (λ r. f (row_key r)) rs
  map_keys f [] = refl
  map_keys f (r ∷ rs) = ap (◌∷◌ (f (row_key r))) (map_keys f rs)

  key_column :
      (name : String) (f : OrderingKey → ℤ)
      → in_names name (field_names contract) ≡ true
      → ((r : Row) → cell_of name r ≡ int (f (row_key r)))
      → int_column arrow t name ≡ map some (map f (map row_key rows))
  key_column name f e h =
      int_cells name (λ r. f (row_key r)) e h ∙ ap (map some) (sym (map_keys f rows))

  pub keys_pass : Increasing (map row_key rows) → check_ordering arrow t contract ≡ ok tt
  unfolding cell_of cells row_key
  keys_pass h =
      (check_ordering_iff arrow t (map row_key rows)
          (record {
            event_column = key_column "event_time" _ has.event (λ r. refl);
            rank_column = key_column "source_rank" _ has.rank (λ r. refl);
            vendor_column = key_column "vendor_sequence" _ has.vendor (λ r. refl);
            venue_column = key_column "venue_sequence" _ has.venue (λ r. refl);
            index_column = key_column "ingest_index" _ has.index (λ r. refl);
          })
          contract has.index).1
        h

  -- The amounts of a contract are in the named columns alone.
  pub amounts_in :
      (names : List String) (fs : List FieldSpec)
      → all (λ (f : FieldSpec). not (is_money f.kind) || in_names f.name names) fs ≡ true
      → ((n : String) → in_names n names ≡ true → All Storable (int_column arrow t n))
      → AmountsHold arrow t fs
  amounts_in names [] e h = tt
  amounts_in names (f ∷ fs) e h =
      (λ m. h f.name (ground arith), amounts_in names fs (ground arith) h)

  pub Storable-column :
      (name : String)
      → in_names name (field_names contract) ≡ true
      → All (λ (r : Row). Storable (as_int (cell_of name r))) rows
      → All Storable (int_column arrow t name)
  Storable-column name e h = rw (column-to_table arrow rows contract name built e) (each rows h)
    where
      each :
          (rs : List Row)
          → All (λ (r : Row). Storable (as_int (cell_of name r))) rs
          → All Storable (map as_int (map (cell_of name) rs))
      each [] h = tt
      each (r ∷ rs) (h, hs) = (h, each rs hs)
