-- ===== src/Cli/Run/Stopping.antt =====
-- Where the loop of runApply stops, and what it has done by then.
use kestrai.Prelude.{
  ℕ, suc, ◌+◌, ◌≡◌, refl, ap, sym, ◌∙◌, Option, none, some, List, [], ◌∷◌, ◌++◌, Result, ok, err,
  arith, length,
}
use kestrai.Text.{Str}
use kestrai.Store.Contract.{Store}
use kestrai.Api.{Project, ProjectSpec, Workflow, WorkflowSpec}
use kestrai.Auth.{Identity}
use kestrai.Server.Wire.{Wire, ProtoEqual}
use kestrai.Cli.Codec.{Resource}
use kestrai.Cli.Run.{Failure, Turn, Progress, apply_resource, run_apply, resume, status_line}

module _ {S D : Type 0} (st : Store S D) (projects : Wire D Project) (workflows : Wire D Workflow)
    (same_project : ProtoEqual (Option ProjectSpec))
    (same_workflow : ProtoEqual (Option WorkflowSpec)) (id : Option Identity) where
  abbrev turn : (ℕ → Turn S) → ℕ → S → Resource → S × Result Failure Str
  turn turns i = apply_resource st projects workflows same_project same_workflow id (turns i)

  abbrev loop : (ℕ → Turn S) → ℕ → S → List Resource → Progress S
  loop = run_apply st projects workflows same_project same_workflow id

  -- Where a first part does not stop, the loop goes on after it.
  abbrev Continues :
      (ℕ → Turn S) → ℕ → Progress S → List Resource → List Resource → Progress S → Type 0
  Continues turns i done before after whole = whole ≡ (
      let later = loop turns (i + length before) done.store after in
      record later { lines = done.lines ++ later.lines })

  resume-stopped :
      (res : Resource) (x : S × Result Failure Str) (next : S → Progress S)
      → (resume st projects workflows same_project same_workflow id res x next).stopped ≡ none
      → (s' : S) × (verb : Str) × (x ≡ (s', ok verb)) × ((next s').stopped ≡ none)
  resume-stopped res (s, err e) next h = absurd cc
  resume-stopped res (s, ok verb) next h = (s, verb, refl, h)

  loop_step :
      (turns : ℕ → Turn S) (i : ℕ) (s s1 : S) (res : Resource) (verb : Str)
      (resources : List Resource)
      → turn turns i s res ≡ (s1, ok verb)
      → loop turns i s (res ∷ resources) ≡ (
          let later = loop turns (suc i) s1 resources in
          record later { lines = status_line res verb ∷ later.lines })
  unfolding run_apply
  loop_step turns i s s1 res verb resources e =
      ap
        (λ x.
          resume st projects workflows same_project same_workflow id res x
            λ s'. loop turns (suc i) s' resources)
        e

  -- The progress of a loop that did not stop, step by step.
  loop_first :
      (turns : ℕ → Turn S) (i : ℕ) (s : S) (res : Resource) (resources : List Resource)
      → (loop turns i s (res ∷ resources)).stopped ≡ none
      → (s1 : S) × (verb : Str) × (turn turns i s res ≡ (s1, ok verb))
        × ((loop turns (suc i) s1 resources).stopped ≡ none)
  unfolding run_apply
  loop_first turns i s res resources h =
      resume-stopped res (turn turns i s res) (λ s'. loop turns (suc i) s' resources) h

  stops_from :
      (turns : ℕ → Turn S) (i j : ℕ) (s s' : S) (before after : List Resource) (res : Resource)
      (e : Failure)
      → i + length before ≡ j
      → (loop turns i s before).stopped ≡ none
      → turn turns j (loop turns i s before).store res ≡ (s', err e)
      → (loop turns i s (before ++ res ∷ after)
          ≡ record { store = s'; lines = (loop turns i s before).lines; stopped = some (res, e) })
        × (length (loop turns i s before).lines ≡ length before)
  unfolding run_apply
  stops_from turns i j s s' [] after res e at h failed =
      let here : turn turns i s res ≡ (s', err e) =
        ap (λ n. turn turns n s res) (let same : i ≡ j = omega arith in same) ∙ failed in
      (
        ap
            (λ x.
              resume st projects workflows same_project same_workflow id res x
                λ s1. loop turns (suc i) s1 after)
            here,
        refl,
      )
  stops_from turns i j s s' (r ∷ before) after res e at h failed =
      let (s1, verb, went, h1) = loop_first turns i s r before h in
      let start = loop_step turns i s s1 r verb before went in
      let failed1 : turn turns j (loop turns (suc i) s1 before).store res ≡ (s', err e) =
        ap (λ (p : Progress S). turn turns j p.store res) (sym start) ∙ failed in
      let (ends, count) =
        stops_from turns (suc i) j s1 s' before after res e (omega arith) h1 failed1 in
      let line : Progress S → Progress S = λ p. record p { lines = status_line r verb ∷ p.lines } in
      (
        loop_step turns i s s1 r verb (before ++ res ∷ after) went
            ∙ ap line ends
            ∙ ap
                (λ (p : Progress S). record {
                  store = s';
                  lines = p.lines;
                  stopped = some (res, e);
                })
                (sym start),
        ap (λ (p : Progress S). length p.lines) start ∙ ap suc count,
      )

  -- The first resource that fails ends `kestrai apply`: the resources before it are applied, with
  -- one line printed for each, and none after it is tried.
  pub run_apply_stops :
      (turns : ℕ → Turn S) (s s' : S) (before after : List Resource) (res : Resource) (e : Failure)
      → (loop turns 0 s before).stopped ≡ none
      → turn turns (length before) (loop turns 0 s before).store res ≡ (s', err e)
      → (loop turns 0 s (before ++ res ∷ after)
          ≡ record { store = s'; lines = (loop turns 0 s before).lines; stopped = some (res, e) })
        × (length (loop turns 0 s before).lines ≡ length before)
  run_apply_stops turns s s' before after res e h failed =
      stops_from turns 0 (length before) s s' before after res e (omega arith) h failed
