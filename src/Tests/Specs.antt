-- ===== src/Tests/Specs.antt =====
-- Equality of project specs, field by field.
use kestrai.Prelude.{
  ◌≡◌, ◌↔◌, refl, subst, Bool, true, false, ◌&&◌, Option, none, some, List, [], ◌∷◌, arith,
}
use kestrai.Text.{Str, str_eq, str_eq_iff, str_eq_refl}
use kestrai.Api.{Budget, ProjectSpec}
use kestrai.Server.Wire.{ProtoEqual}

pub strs_eq : List Str → List Str → Bool
strs_eq [] [] = true
strs_eq (s ∷ ss) (t ∷ ts) = str_eq s t && strs_eq ss ts
strs_eq _ _ = false

pub strs_eq_iff : (ss ts : List Str) → (strs_eq ss ts ≡ true) ↔ (ss ≡ ts)
unfolding strs_eq
strs_eq_iff [] [] = ((λ h. refl), (λ h. refl))
strs_eq_iff [] (t ∷ ts) = ((λ h. cc), (λ h. cc))
strs_eq_iff (s ∷ ss) [] = ((λ h. cc), (λ h. cc))
strs_eq_iff (s ∷ ss) (t ∷ ts) = (
  (λ h. ground (arith, str_eq_iff s t, strs_eq_iff ss ts)),
  (λ h. ground (arith, str_eq_iff s t, strs_eq_iff ss ts)),
)

pub budget_eq : Option Budget → Option Budget → Bool
budget_eq none none = true
budget_eq (some a) (some b) = str_eq a.usd_cap b.usd_cap && str_eq a.window b.window
budget_eq _ _ = false

pub budget_eq_refl : (a : Option Budget) → budget_eq a a ≡ true
unfolding budget_eq
budget_eq_refl none = refl
budget_eq_refl (some a) = rw (str_eq_refl a.usd_cap) (str_eq_refl a.window)

pub budget_eq_same : (a b : Option Budget) → budget_eq a b ≡ true → a ≡ b
unfolding budget_eq
budget_eq_same none none h = refl
budget_eq_same none (some b) h = cc
budget_eq_same (some a) none h = cc
budget_eq_same (some a) (some b) h =
    ground (arith, str_eq_iff a.usd_cap b.usd_cap, str_eq_iff a.window b.window)

unfoldable pub spec_eq : Option ProjectSpec → Option ProjectSpec → Bool
unfolding budget_eq strs_eq
spec_eq none none = true
spec_eq (some a) (some b) =
    str_eq a.display_name b.display_name
    && str_eq a.description b.description
    && str_eq a.default_model_provider b.default_model_provider
    && budget_eq a.budget b.budget
    && strs_eq a.secret_refs b.secret_refs
spec_eq _ _ = false

pub spec_eq_refl : (s : Option ProjectSpec) → spec_eq s s ≡ true
unfolding spec_eq
spec_eq_refl none = refl
spec_eq_refl (some a) =
    rw
      (
        str_eq_refl a.display_name,
        str_eq_refl a.description,
        str_eq_refl a.default_model_provider,
        budget_eq_refl a.budget,
      )
      ((strs_eq_iff a.secret_refs a.secret_refs).1 refl)

pub spec_eq_same : (s t : Option ProjectSpec) → spec_eq s t ≡ true → s ≡ t
unfolding spec_eq
spec_eq_same none none h = refl
spec_eq_same none (some b) h = cc
spec_eq_same (some a) none h = cc
spec_eq_same (some a) (some b) h = ground (
  arith,
  str_eq_iff a.display_name b.display_name,
  str_eq_iff a.description b.description,
  str_eq_iff a.default_model_provider b.default_model_provider,
  budget_eq_same a.budget b.budget,
  strs_eq_iff a.secret_refs b.secret_refs,
)

abbrev pub spec_equal : ProtoEqual (Option ProjectSpec)
spec_equal = record {
  equal = spec_eq;
  equal_iff =
      λ s t. ((λ h. spec_eq_same s t h), (λ e. subst (λ x. spec_eq s x ≡ true) e (spec_eq_refl s)));
}
