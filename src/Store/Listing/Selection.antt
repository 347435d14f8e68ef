-- ===== src/Store/Listing/Selection.antt =====
-- What a label selector selects.
use kestrai.Prelude.{
  ◌≡◌, ◌↔◌, ◌⊎◌, inl, inr, refl, true, Option, none, some, [], ◌∷◌, arith, if◌then◌else◌, All,
  Option-cases,
}
use kestrai.Text.{Str, str_eq, str_eq_iff}
use kestrai.Store.{Labels, label_of}
use kestrai.Store.Listing.{matches_labels}

-- The value of a key in a map, if the key is present.
pub lookup_label : Labels → Str → Option Str
lookup_label [] k = none
lookup_label ((j, v) ∷ labels) k = if str_eq j k then some v else lookup_label labels k

label_of-present :
    (labels : Labels) (k v : Str) → lookup_label labels k ≡ some v → label_of labels k ≡ v
unfolding lookup_label label_of
label_of-present [] k v h = cc
label_of-present ((j, w) ∷ labels) k v h = ground (arith, label_of-present labels k v)

label_of-absent :
    (labels : Labels) (k : Str) → lookup_label labels k ≡ none → label_of labels k ≡ []
unfolding lookup_label label_of
label_of-absent [] k h = refl
label_of-absent ((j, w) ∷ labels) k h = ground (arith, label_of-absent labels k)

-- A pair of a selector: present, or an absent key with the empty value.
abbrev pub Selected : Labels → Str × Str → Type 0
Selected labels (k, v) =
    (lookup_label labels k ≡ some v) ⊎ ((lookup_label labels k ≡ none) × (v ≡ []))

Selected-iff : (labels : Labels) (k v : Str) → (label_of labels k ≡ v) ↔ Selected labels (k, v)
Selected-iff labels k v = elim (Option-cases (lookup_label labels k)) [
  | inl e ↦ (
    (λ h. let a = label_of-absent labels k e in inr (e, ground arith)),
    (λ h. let a = label_of-absent labels k e in ground arith),
  )
  | inr (w, e) ↦ (
    (λ h. let p = label_of-present labels k w e in inl (ground arith)),
    (λ h. let p = label_of-present labels k w e in ground arith),
  )
]

-- Labels match a selector exactly if each of its pairs is present among them, or has the empty value
-- and a key that is absent: a missing key reads as the empty string.
pub matches_labels_iff :
    (labels selector : Labels)
    → (matches_labels labels selector ≡ true) ↔ All (Selected labels) selector
unfolding matches_labels
matches_labels_iff labels [] = ((λ h. tt), (λ h. refl))
matches_labels_iff labels ((k, v) ∷ selector) =
    let first = Selected-iff labels k v in
    let rest = matches_labels_iff labels selector in
    let same = str_eq_iff (label_of labels k) v in
    (
      (λ h. (first.0 (same.0 (ground arith)), rest.0 (ground arith))),
      (λ (h, hs). let a = same.1 (first.1 h) in let c = rest.1 hs in ground arith),
    )
