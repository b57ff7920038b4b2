-- ===== src/CanonicalJson/Order.antt =====
-- The order of keys does not count, and nothing that is encoded holds a float.
use self_improving_trading_s.Prelude.{
  ℕ, ◌≡◌, ◌≢◌, none_left, same_first, swapped, in_turn, ap, List, [], ◌∷◌, String, text_ord,
  sorted_by, Distinct, Reordered, sorted_by-Reordered, All, All-of-sorted_by,
}
use self_improving_trading_s.Errors.{Result, ok, >>=-eq-ok, ◌>>=◌}
use self_improving_trading_s.CanonicalJson.{
  Value, none_value, truth_value, int_value, float_value, text_value, list_value, dict_value,
  foreign_value, Values, no_values, and_value, Entries, no_entries, and_entry, put, collect,
  canonicalize, canonicalize_each, canonical_items, dumps, encode,
}

-- A dict of items, as a literal writes it.
unfoldable pub entries_from : List (String × Value) → Entries
entries_from [] = no_entries
entries_from ((k, v) ∷ items) = and_entry k v (entries_from items)

module _ (nfc : String → String) where
  items-Reordered :
      {xs ys : List (String × Value)}
      → Reordered xs ys
      → Reordered (canonical_items nfc (entries_from xs)) (canonical_items nfc (entries_from ys))
  unfolding entries_from canonicalize
  items-Reordered none_left = none_left
  items-Reordered (same_first (k, v) p) = same_first (k, canonicalize nfc v) (items-Reordered p)
  items-Reordered (swapped (k, v) (l, w) items) =
      swapped (k, canonicalize nfc v) (l, canonicalize nfc w)
        (canonical_items nfc (entries_from items))
  items-Reordered (in_turn p q) = in_turn (items-Reordered p) (items-Reordered q)

  other_keys :
      (k : String) (items : List (String × Value))
      → All (λ (e : String × Value). k ≢ e.0) items
      → All (λ (e : String × Result Value). k ≢ e.0) (canonical_items nfc (entries_from items))
  unfolding entries_from canonicalize
  other_keys k [] h = tt
  other_keys k ((l, v) ∷ items) (h, hs) = (h, other_keys k items hs)

  items-Distinct :
      (items : List (String × Value))
      → Distinct text_ord (λ (e : String × Value). e.0) items
      → Distinct text_ord
          (λ (e : String × Result Value). e.0)
          (canonical_items nfc (entries_from items))
  unfolding entries_from canonicalize
  items-Distinct [] h = tt
  items-Distinct ((k, v) ∷ items) (h, hs) = (other_keys k items h, items-Distinct items hs)

  -- A document, whose keys are different, is encoded to the same text, or refused with the same error, in
  -- whatever order its items were put in.
  pub encode-Reordered :
      {xs ys : List (String × Value)}
      → Reordered xs ys
      → Distinct text_ord (λ (e : String × Value). e.0) xs
      → encode nfc (entries_from xs) ≡ encode nfc (entries_from ys)
  unfolding encode canonicalize
  encode-Reordered {xs} {ys} p d =
      ap
        (λ (items : List (String × Result Value)).
          (collect nfc items no_entries >>= λ dict. ok (dict_value dict)) >>= λ value.
          ok (dumps value))
        (sorted_by-Reordered text_ord (λ (e : String × Result Value). e.0) (items-Reordered p)
          (items-Distinct xs d))

-- No float and no value of a foreign class stands anywhere in a value.
mutual
  pub IsExact : Value → Type 0
  IsExact none_value = Unit
  IsExact (truth_value b) = Unit
  IsExact (int_value n) = Unit
  IsExact float_value = ⊥
  IsExact (text_value s) = Unit
  IsExact (list_value vs) = AreExact vs
  IsExact (dict_value es) = HoldExact es
  IsExact foreign_value = ⊥

  pub AreExact : Values → Type 0
  AreExact no_values = Unit
  AreExact (and_value v vs) = IsExact v × AreExact vs

  pub HoldExact : Entries → Type 0
  HoldExact no_entries = Unit
  HoldExact (and_entry k v es) = IsExact v × HoldExact es

module _ (nfc : String → String) where
  abbrev Returns : String × Result Value → Type 0
  Returns e = (w : Value) × (e.1 ≡ ok w)

  collect→ :
      (items : List (String × Result Value)) (dict : Entries) {d : Entries}
      → collect nfc items dict ≡ ok d
      → All Returns items
  unfolding collect
  collect→ [] dict h = tt
  collect→ ((k, item) ∷ items) dict h =
      let (w, a, more) = >>=-eq-ok item _ h in ((w, a), collect→ items (put (nfc k) w dict) more)

  mutual
    unfolding canonicalize IsExact

    canonicalize→ : (v : Value) {w : Value} → canonicalize nfc v ≡ ok w → IsExact v
    canonicalize→ none_value h = tt
    canonicalize→ (truth_value b) h = tt
    canonicalize→ (int_value n) h = tt
    canonicalize→ float_value h = cc
    canonicalize→ (text_value s) h = tt
    canonicalize→ (list_value vs) h =
        let (ws, a, _) = >>=-eq-ok (canonicalize_each nfc vs) _ h in each→ vs a
    canonicalize→ (dict_value es) h =
        let (d, a, _) =
          >>=-eq-ok
            (collect nfc
              (sorted_by text_ord (λ (e : String × Result Value). e.0) (canonical_items nfc es))
              no_entries)
            _ h in
        entries→ es (
          All-of-sorted_by text_ord (λ (e : String × Result Value). e.0) Returns
            (canonical_items nfc es)
            (collect→
              (sorted_by text_ord (λ (e : String × Result Value). e.0) (canonical_items nfc es))
              no_entries a))
    canonicalize→ foreign_value h = cc

    each→ : (vs : Values) {ws : Values} → canonicalize_each nfc vs ≡ ok ws → AreExact vs
    each→ no_values h = tt
    each→ (and_value v vs) h =
        let (w, a, h1) = >>=-eq-ok (canonicalize nfc v) _ h in
        let (ws, b, _) = >>=-eq-ok (canonicalize_each nfc vs) _ h1 in
        (canonicalize→ v a, each→ vs b)

    entries→ : (es : Entries) → All Returns (canonical_items nfc es) → HoldExact es
    entries→ no_entries h = tt
    entries→ (and_entry k v es) ((w, a), hs) = (canonicalize→ v a, entries→ es hs)

  -- A document that is encoded holds no float anywhere.
  pub encode-IsExact :
      (document : Entries) {text : List ℕ} → encode nfc document ≡ ok text → HoldExact document
  unfolding encode IsExact
  encode-IsExact document h =
      let (w, a, _) = >>=-eq-ok (canonicalize nfc (dict_value document)) _ h in
      canonicalize→ (dict_value document) a
