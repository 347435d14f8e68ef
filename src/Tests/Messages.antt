-- ===== src/Tests/Messages.antt =====
-- Equality of messages, field by field, and messages that are their own encoding.
use kestrai.Prelude.{
  ℕ, ◌≡◌, ◌↔◌, refl, ap, sym, subst, Bool, true, false, ◌&&◌, Option, none, some, List, [], ◌∷◌, ok,
  arith, ◌==◌, ==_iff,
}
use kestrai.Text.{str_eq, str_eq_iff, str_eq_refl}
use kestrai.Api.{Condition, WorkflowStatus}
use kestrai.Server.Wire.{Wire, WireLaws, ProtoEqual}

abbrev pub plain_wire : {M : Type 0} → Wire M M
plain_wire = record { marshal = λ m. ok m; unmarshal = λ m. ok m }

pub plain_wire_laws : {M : Type 0} → WireLaws (plain_wire {M = M})
plain_wire_laws = record { unmarshal_marshal = λ m d e. let same : m ≡ d = cc in ap ok (sym same) }

pub time_eq : Option ℕ → Option ℕ → Bool
time_eq none none = true
time_eq (some s) (some t) = s == t
time_eq _ _ = false

pub time_eq_iff : (s t : Option ℕ) → (time_eq s t ≡ true) ↔ (s ≡ t)
unfolding time_eq
time_eq_iff none none = ((λ h. refl), (λ h. refl))
time_eq_iff none (some t) = ((λ h. cc), (λ h. cc))
time_eq_iff (some s) none = ((λ h. cc), (λ h. cc))
time_eq_iff (some s) (some t) = ((λ h. ground arith), (λ h. ground arith))

pub condition_eq : Condition → Condition → Bool
condition_eq c d =
    str_eq c.type d.type
    && str_eq c.status d.status
    && str_eq c.reason d.reason
    && str_eq c.message d.message
    && time_eq c.last_transition_time d.last_transition_time
    && c.observed_generation == d.observed_generation

condition_eq_refl : (c : Condition) → condition_eq c c ≡ true
unfolding condition_eq
condition_eq_refl c =
    rw
      (
        str_eq_refl c.type,
        str_eq_refl c.status,
        str_eq_refl c.reason,
        str_eq_refl c.message,
        (time_eq_iff c.last_transition_time c.last_transition_time).1 refl,
      )
      ((==_iff c.observed_generation c.observed_generation).1 refl)

condition_eq_iff : (c d : Condition) → (condition_eq c d ≡ true) ↔ (c ≡ d)
unfolding condition_eq
condition_eq_iff c d = (
  (λ h. ground (
    arith,
    str_eq_iff c.type d.type,
    str_eq_iff c.status d.status,
    str_eq_iff c.reason d.reason,
    str_eq_iff c.message d.message,
    time_eq_iff c.last_transition_time d.last_transition_time,
  )),
  (λ e. subst (λ x. condition_eq c x ≡ true) e (condition_eq_refl c)),
)

pub conditions_eq : List Condition → List Condition → Bool
conditions_eq [] [] = true
conditions_eq (c ∷ cs) (d ∷ ds) = condition_eq c d && conditions_eq cs ds
conditions_eq _ _ = false

conditions_eq_iff : (cs ds : List Condition) → (conditions_eq cs ds ≡ true) ↔ (cs ≡ ds)
unfolding conditions_eq
conditions_eq_iff [] [] = ((λ h. refl), (λ h. refl))
conditions_eq_iff [] (d ∷ ds) = ((λ h. cc), (λ h. cc))
conditions_eq_iff (c ∷ cs) [] = ((λ h. cc), (λ h. cc))
conditions_eq_iff (c ∷ cs) (d ∷ ds) = (
  (λ h. ground (arith, condition_eq_iff c d, conditions_eq_iff cs ds)),
  (λ h. ground (arith, condition_eq_iff c d, conditions_eq_iff cs ds)),
)

unfoldable pub status_eq : Option WorkflowStatus → Option WorkflowStatus → Bool
status_eq none none = true
status_eq (some x) (some y) =
    conditions_eq x.conditions y.conditions
    && x.observed_generation == y.observed_generation
    && x.active_run_count == y.active_run_count
    && str_eq x.last_run_ref y.last_run_ref
status_eq _ _ = false

pub status_eq_refl : (s : Option WorkflowStatus) → status_eq s s ≡ true
unfolding status_eq
status_eq_refl none = refl
status_eq_refl (some x) =
    rw
      (
        (conditions_eq_iff x.conditions x.conditions).1 refl,
        (==_iff x.observed_generation x.observed_generation).1 refl,
        (==_iff x.active_run_count x.active_run_count).1 refl,
      )
      (str_eq_refl x.last_run_ref)

pub status_eq_same : (s t : Option WorkflowStatus) → status_eq s t ≡ true → s ≡ t
unfolding status_eq
status_eq_same none none h = refl
status_eq_same none (some y) h = cc
status_eq_same (some x) none h = cc
status_eq_same (some x) (some y) h =
    ground
      (arith, conditions_eq_iff x.conditions y.conditions, str_eq_iff x.last_run_ref y.last_run_ref)

unfoldable pub status_equal : ProtoEqual (Option WorkflowStatus)
status_equal = record {
  equal = status_eq;
  equal_iff = λ s t.
      ((λ h. status_eq_same s t h), (λ e. subst (λ x. status_eq s x ≡ true) e (status_eq_refl s)));
}
