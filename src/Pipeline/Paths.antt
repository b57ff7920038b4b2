-- ===== src/Pipeline/Paths.antt =====
-- The files of a snapshot have different paths.
use Prim.Native.String.{◌++◌}
use text.Mathlib.TextLemmas.{cons-append, append_assoc, append_cancel_left, append_cancel_right}
use self_improving_trading_s.Prelude.{
  ◌≡◌, ◌≢◌, refl, sym, ap, ◌∙◌, false, String, str_eq, str_eq_iff, Bool-cases, inl, inr, arith,
  codes, [], ◌∷◌, ℕ,
}
use self_improving_trading_s.Snapshot.Paths.{is_absolute, child_path}
use self_improving_trading_s.Normalize.Partition.{dataset_path}

date_cons : (d : String) → "date=" ++ d ≡ String.◌∷◌ "d" ("ate=" ++ d)
date_cons d = cons-append "d" "ate=" d

-- A name that `/` appends.
abbrev pub IsName : String → Type 0
IsName name = (is_absolute name ≡ false) × (str_eq name "." ≡ false) × (str_eq name "" ≡ false)

not_equal : (s t : String) → s ≢ t → str_eq s t ≡ false
not_equal s t n = elim (Bool-cases (str_eq s t)) [
  | inl e ↦ absurd (n ((str_eq_iff s t).0 e))
  | inr e ↦ e
]

abbrev first_code : String → ℕ
first_code s = elim (codes s) [ [] ↦ 0 | c ∷ cs ↦ c ]

date-IsName : (d : String) → IsName ("date=" ++ d)
unfolding is_absolute
date-IsName d = (
  rw (date_cons d),
  not_equal _ _
      (λ (e : "date=" ++ d ≡ "."). absurd (omega (arith, ap first_code (sym (date_cons d) ∙ e)))),
  not_equal _ _
      (λ (e : "date=" ++ d ≡ ""). absurd (omega (arith, ap first_code (sym (date_cons d) ∙ e)))),
)

child_path-IsName :
    (root name : String) → IsName name → child_path root name ≡ root ++ ("/" ++ name)
unfolding child_path
child_path-IsName root name (a, b, c) = rw (a, b, c)

pub trade-IsName : IsName "trade"
unfolding is_absolute
trade-IsName = (refl, refl, refl)

pub quote-IsName : IsName "quote"
unfolding is_absolute
quote-IsName = (refl, refl, refl)

pub bar-IsName : IsName "bar"
unfolding is_absolute
bar-IsName = (refl, refl, refl)

normalized-IsName : IsName "normalized"
unfolding is_absolute
normalized-IsName = (refl, refl, refl)

part-IsName : IsName "part-000.parquet"
unfolding is_absolute
part-IsName = (refl, refl, refl)

manifest-IsName : IsName "manifest.json"
unfolding is_absolute
manifest-IsName = (refl, refl, refl)

-- The path of a dataset, as a text.
dataset_path-eq :
    (root dataset d : String)
    → IsName dataset
    → dataset_path root dataset d
      ≡ (((root ++ "/normalized") ++ ("/" ++ dataset)) ++ ("/" ++ ("date=" ++ d)))
        ++ "/part-000.parquet"
unfolding dataset_path
dataset_path-eq root dataset d h =
    rw
      (
        child_path-IsName root "normalized" normalized-IsName,
        child_path-IsName (root ++ "/normalized") dataset h,
        child_path-IsName ((root ++ "/normalized") ++ ("/" ++ dataset)) ("date=" ++ d)
            (date-IsName d),
      )
      (child_path-IsName _ "part-000.parquet" part-IsName)

-- Different datasets have different paths.
pub dataset_path-apart :
    (root a b d : String)
    → IsName a
    → IsName b
    → str_eq a b ≡ false
    → dataset_path root a d ≢ dataset_path root b d
dataset_path-apart root a b d h k differ e = cc ((str_eq_iff a b).1 same, differ)
  where
    same : a ≡ b
    same = append_cancel_left "/" a b (
        append_cancel_left (root ++ "/normalized") _ _ (
          append_cancel_right _ _ ("/" ++ ("date=" ++ d)) (
            append_cancel_right _ _ "/part-000.parquet"
              (sym (dataset_path-eq root a d h) ∙ (e ∙ dataset_path-eq root b d k)))))

normalized_cons :
    (w : String) → "/normalized" ++ w ≡ String.◌∷◌ "/" (String.◌∷◌ "n" ("ormalized" ++ w))
normalized_cons w =
    cons-append "/" "normalized" w ∙ ap (String.◌∷◌ "/") (cons-append "n" "ormalized" w)

regroup : (root x y z w : String) → (((root ++ x) ++ y) ++ z) ++ w ≡ root ++ (x ++ ((y ++ z) ++ w))
regroup root x y z w =
    append_assoc ((root ++ x) ++ y) z w
    ∙ (append_assoc (root ++ x) y (z ++ w)
        ∙ (append_assoc root x (y ++ (z ++ w))
            ∙ ap (λ t. root ++ (x ++ t)) (sym (append_assoc y z w))))

abbrev second_code : String → ℕ
second_code s = elim (codes s) [ [] ↦ 0 | c ∷ cs ↦ elim cs [ [] ↦ 0 | d ∷ ds ↦ d ] ]

-- The manifest stands elsewhere.
pub manifest_apart :
    (root dataset d : String)
    → IsName dataset
    → child_path root "manifest.json" ≢ dataset_path root dataset d
manifest_apart root dataset d h e =
    let whole = dataset_path-eq root dataset d h ∙ regroup root "/normalized" _ _ _ in
    let cut =
      append_cancel_left root "/manifest.json" _
        (sym (child_path-IsName root "manifest.json" manifest-IsName) ∙ (e ∙ whole)) in
    absurd (omega (arith, ap second_code (cut ∙ normalized_cons _)))
