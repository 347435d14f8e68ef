-- ===== src/Tests/WorkflowSpecs.antt =====
-- Equality of workflow specs, field by field.
use kestrai.Prelude.{
  ◌≡◌, ◌↔◌, refl, subst, Bool, true, false, ◌&&◌, ◌==◌, ==_iff, Option, none, some, List, [], ◌∷◌,
  arith,
}
use kestrai.Text.{str_eq, str_eq_iff, str_eq_refl}
use kestrai.Api.{WorkflowConstraints, WorkflowPhase, WorkflowSpec}
use kestrai.Server.Wire.{ProtoEqual}
use kestrai.Tests.Specs.{strs_eq, strs_eq_iff, budget_eq, budget_eq_refl, budget_eq_same}
use kestrai.Tests.Messages.{time_eq, time_eq_iff}

pub bool_eq : Bool → Bool → Bool
bool_eq true b = b
bool_eq false true = false
bool_eq false false = true

bool_eq_iff : (a b : Bool) → (bool_eq a b ≡ true) ↔ (a ≡ b)
unfolding bool_eq
bool_eq_iff true true = ((λ h. refl), (λ h. refl))
bool_eq_iff true false = ((λ h. cc), (λ h. cc))
bool_eq_iff false true = ((λ h. cc), (λ h. cc))
bool_eq_iff false false = ((λ h. refl), (λ h. refl))

pub constraints_eq : Option WorkflowConstraints → Option WorkflowConstraints → Bool
constraints_eq none none = true
constraints_eq (some a) (some b) =
    strs_eq a.stack b.stack && time_eq a.deadline b.deadline && budget_eq a.budget b.budget
constraints_eq _ _ = false

constraints_eq_refl : (a : Option WorkflowConstraints) → constraints_eq a a ≡ true
unfolding constraints_eq
constraints_eq_refl none = refl
constraints_eq_refl (some a) =
    rw ((strs_eq_iff a.stack a.stack).1 refl, (time_eq_iff a.deadline a.deadline).1 refl)
      (budget_eq_refl a.budget)

constraints_eq_same : (a b : Option WorkflowConstraints) → constraints_eq a b ≡ true → a ≡ b
unfolding constraints_eq
constraints_eq_same none none h = refl
constraints_eq_same none (some b) h = cc
constraints_eq_same (some a) none h = cc
constraints_eq_same (some a) (some b) h = ground (
  arith,
  strs_eq_iff a.stack b.stack,
  time_eq_iff a.deadline b.deadline,
  budget_eq_same a.budget b.budget,
)

pub phase_eq : WorkflowPhase → WorkflowPhase → Bool
phase_eq a b =
    str_eq a.name b.name
    && strs_eq a.agents b.agents
    && a.approval == b.approval
    && a.parallelism == b.parallelism
    && bool_eq a.gating b.gating

phase_eq_refl : (a : WorkflowPhase) → phase_eq a a ≡ true
unfolding phase_eq
phase_eq_refl a =
    rw
      (
        str_eq_refl a.name,
        (strs_eq_iff a.agents a.agents).1 refl,
        (==_iff a.approval a.approval).1 refl,
        (==_iff a.parallelism a.parallelism).1 refl,
      )
      ((bool_eq_iff a.gating a.gating).1 refl)

phase_eq_iff : (a b : WorkflowPhase) → (phase_eq a b ≡ true) ↔ (a ≡ b)
unfolding phase_eq
phase_eq_iff a b = (
  (λ h. ground (
    arith,
    str_eq_iff a.name b.name,
    strs_eq_iff a.agents b.agents,
    bool_eq_iff a.gating b.gating,
  )),
  (λ e. subst (λ x. phase_eq a x ≡ true) e (phase_eq_refl a)),
)

pub phases_eq : List WorkflowPhase → List WorkflowPhase → Bool
phases_eq [] [] = true
phases_eq (a ∷ phases) (b ∷ others) = phase_eq a b && phases_eq phases others
phases_eq _ _ = false

phases_eq_iff :
    (phases others : List WorkflowPhase) → (phases_eq phases others ≡ true) ↔ (phases ≡ others)
unfolding phases_eq
phases_eq_iff [] [] = ((λ h. refl), (λ h. refl))
phases_eq_iff [] (b ∷ others) = ((λ h. cc), (λ h. cc))
phases_eq_iff (a ∷ phases) [] = ((λ h. cc), (λ h. cc))
phases_eq_iff (a ∷ phases) (b ∷ others) = (
  (λ h. ground (arith, phase_eq_iff a b, phases_eq_iff phases others)),
  (λ h. ground (arith, phase_eq_iff a b, phases_eq_iff phases others)),
)

unfoldable pub workflow_spec_eq : Option WorkflowSpec → Option WorkflowSpec → Bool
unfolding constraints_eq phases_eq phase_eq bool_eq
workflow_spec_eq none none = true
workflow_spec_eq (some a) (some b) =
    str_eq a.goal b.goal
    && constraints_eq a.constraints b.constraints
    && phases_eq a.pipeline b.pipeline
workflow_spec_eq _ _ = false

pub workflow_spec_eq_refl : (s : Option WorkflowSpec) → workflow_spec_eq s s ≡ true
unfolding workflow_spec_eq
workflow_spec_eq_refl none = refl
workflow_spec_eq_refl (some a) =
    rw (str_eq_refl a.goal, constraints_eq_refl a.constraints)
      ((phases_eq_iff a.pipeline a.pipeline).1 refl)

pub workflow_spec_eq_same : (s t : Option WorkflowSpec) → workflow_spec_eq s t ≡ true → s ≡ t
unfolding workflow_spec_eq
workflow_spec_eq_same none none h = refl
workflow_spec_eq_same none (some b) h = cc
workflow_spec_eq_same (some a) none h = cc
workflow_spec_eq_same (some a) (some b) h = ground (
  arith,
  str_eq_iff a.goal b.goal,
  constraints_eq_same a.constraints b.constraints,
  phases_eq_iff a.pipeline b.pipeline,
)

abbrev pub workflow_spec_equal : ProtoEqual (Option WorkflowSpec)
workflow_spec_equal = record {
  equal = workflow_spec_eq;
  equal_iff = λ s t. (
    (λ h. workflow_spec_eq_same s t h),
    (λ e. subst (λ x. workflow_spec_eq s x ≡ true) e (workflow_spec_eq_refl s)),
  );
}
