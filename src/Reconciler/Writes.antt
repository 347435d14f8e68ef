-- ===== src/Reconciler/Writes.antt =====
-- What reconcileWorkflow writes to the store.
use kestrai.Prelude.{
  ◌≡◌, refl, ap, sym, ◌∙◌, ℕ, Bool, true, false, Option, none, some, Result, ok, err, ◌⊎◌, inl, inr,
  if◌then◌else◌, Bool-cases, Result-cases,
}
use kestrai.Text.{Str}
use kestrai.Store.{Record, Error}
use kestrai.Store.Contract.{Store, Contract, Changes}
use kestrai.Api.{Workflow, WorkflowStatus}
use kestrai.Server.Wire.{Wire, WireLaws, ProtoEqual}
use kestrai.Reconciler.{
  Clock, compute_workflow_status, swallow, write_status, with_status, converge, reconcile_workflow,
}
use kestrai.Reconciler.Convergence.{compute_workflow_status_idempotent}

swallow_cases :
    {S D : Type 0} (s' : S) (out : Option Error) (x : S × Result Error (Record D))
    → swallow x ≡ (s', out)
    → ((r : Record D) × (x ≡ (s', ok r))) ⊎ ((y : Error) × (x ≡ (s', err y)))
swallow_cases s' out (s, ok r) e = inl (r, (λ i. ((e i).0, ok r)))
swallow_cases s' out (s, err Error.conflict) e =
    inr (Error.conflict, (λ i. ((e i).0, err Error.conflict)))
swallow_cases s' out (s, err Error.not_found) e =
    inr (Error.not_found, (λ i. ((e i).0, err Error.not_found)))
swallow_cases s' out (s, err Error.already_exists) e =
    inr (Error.already_exists, (λ i. ((e i).0, err Error.already_exists)))
swallow_cases s' out (s, err (Error.other z)) e =
    inr (Error.other z, (λ i. ((e i).0, err (Error.other z))))

module _ {S D : Type 0} (st : Store S D) (wire : Wire D Workflow)
    (eq : ProtoEqual (Option WorkflowStatus)) (c : Contract st) (laws : WireLaws wire) where
  open c use {view, storable}

  -- The record `after` stands in the place of `rec`, with the status of its spec and nothing else
  -- changed, and the next pass leaves it alone whenever it runs.
  pub record Settled (clock : Clock) (s s' : S) (rec : Record D) (wf : Workflow) : Type 0 where
    pub after : Record D
    pub only : Changes (view s) rec.key (some (ok after)) (view s')
    pub key : after.key ≡ rec.key
    pub uid : after.uid ≡ rec.uid
    pub generation : after.generation ≡ rec.generation
    pub labels : after.labels ≡ rec.labels
    pub created_at : after.created_at ≡ rec.created_at
    pub body :
        wire.unmarshal after.body
        ≡ ok (
            with_status st wire eq wf
              (compute_workflow_status clock wf.spec wf.status rec.generation))
    pub idle : (later : Clock) → reconcile_workflow st wire eq later s' after ≡ (s', none)

  pub decoded_step :
      (clock : Clock) (s : S) (rec : Record D) (wf : Workflow)
      → wire.unmarshal rec.body ≡ ok wf
      → reconcile_workflow st wire eq clock s rec ≡ converge st wire eq clock s rec wf
  unfolding reconcile_workflow
  decoded_step clock s rec wf decoded =
      ap
        (λ (r : Result Str Workflow). elim r [
          | err e ↦ (s, some (Error.other e))
          | ok wf ↦ converge st wire eq clock s rec wf
        ])
        decoded

  pub converge_step :
      (clock : Clock) (s : S) (rec : Record D) (wf : Workflow) (same : Bool)
      → eq.equal wf.status (some (compute_workflow_status clock wf.spec wf.status rec.generation))
        ≡ same
      → converge st wire eq clock s rec wf ≡ (
          if same
          then (s, none)
          else write_status st wire eq s rec (
              with_status st wire eq wf
                (compute_workflow_status clock wf.spec wf.status rec.generation)))
  unfolding converge
  converge_step clock s rec wf same e =
      ap
        (λ (b : Bool).
          if b
          then (s, none)
          else write_status st wire eq s rec (
              with_status st wire eq wf
                (compute_workflow_status clock wf.spec wf.status rec.generation)))
        e

  settled_idle :
      (clock later : Clock) (s : S) (rec : Record D) (wf : Workflow) (generation : ℕ)
      → rec.generation ≡ generation
      → wire.unmarshal rec.body
        ≡ ok
            (with_status st wire eq wf (compute_workflow_status clock wf.spec wf.status generation))
      → reconcile_workflow st wire eq later s rec ≡ (s, none)
  unfolding with_status
  settled_idle clock later s rec wf generation eg body =
      let desired = compute_workflow_status clock wf.spec wf.status generation in
      let settled = with_status st wire eq wf desired in
      let again : compute_workflow_status later wf.spec (some desired) rec.generation ≡ desired =
        ap (compute_workflow_status later wf.spec (some desired)) eg
        ∙ compute_workflow_status_idempotent clock later wf.spec wf.status generation in
      decoded_step later s rec settled body
      ∙ converge_step later s rec settled true
          ((eq.equal_iff (some desired) _).1 (ap some (sym again)))

  pub encode_step :
      (s : S) (rec : Record D) (wf : Workflow) (r : Result Str D)
      → wire.marshal wf ≡ r
      → write_status st wire eq s rec wf ≡ elim r [
        | err e ↦ (s, some (Error.other e))
        | ok body ↦ swallow (st.update s (record rec { body = body }))
      ]
  unfolding write_status
  encode_step s rec wf r e =
      ap
        (λ (r : Result Str D). elim r [
          | err e ↦ (s, some (Error.other e))
          | ok body ↦ swallow (st.update s (record rec { body = body }))
        ])
        e

  pub update_Settled :
      (clock : Clock) (s s' : S) (rec r : Record D) (wf : Workflow) (body : D)
      → view s rec.key ≡ some (ok rec)
      → storable (record rec { body = body }) ≡ true
      → wire.marshal (
          with_status st wire eq wf
            (compute_workflow_status clock wf.spec wf.status rec.generation))
        ≡ ok body
      → st.update s (record rec { body = body }) ≡ (s', ok r)
      → Settled clock s s' rec wf
  update_Settled clock s s' rec r wf body held fits encoded written =
      let upd = record rec { body = body } in
      let (_, only) = c.update_effect s s' upd r rec written held fits in
      let (key, uid, generation, labels, stored) = c.update_result s s' upd r rec written held in
      let read = laws.unmarshal_marshal _ r.body (encoded ∙ ap ok (sym stored)) in
      record {
        after = record r { created_at = rec.created_at };
        only = only;
        key = key;
        uid = uid;
        generation = generation;
        labels = labels;
        created_at = refl;
        body = read;
        idle = λ later.
            settled_idle clock later s' (record r { created_at = rec.created_at }) wf rec.generation
              generation read;
      }

  write_status-Settled :
      (clock : Clock) (s s' : S) (rec : Record D) (wf : Workflow) (out : Option Error)
      → view s rec.key ≡ some (ok rec)
      → ((body : D) → storable (record rec { body = body }) ≡ true)
      → write_status st wire eq s rec (
          with_status st wire eq wf
            (compute_workflow_status clock wf.spec wf.status rec.generation))
        ≡ (s', out)
      → (s' ≡ s) ⊎ Settled clock s s' rec wf
  write_status-Settled clock s s' rec wf out held fits e =
      let desired = compute_workflow_status clock wf.spec wf.status rec.generation in
      let settled = with_status st wire eq wf desired in
      elim (Result-cases (wire.marshal settled)) [
        | inr (text, failed) ↦ inl (
            ap (λ (p : S × Option Error). p.0)
              (sym e ∙ encode_step s rec settled (err text) failed))
        | inl (body, encoded) ↦
            elim (swallow_cases s' out (st.update s (record rec { body = body }))
              (sym (encode_step s rec settled (ok body) encoded) ∙ e)) [
                | inr (y, failed) ↦ inl (c.update_failed s s' (record rec { body = body }) y failed)
                | inl (r, written) ↦
                    inr (update_Settled clock s s' rec r wf body held (fits body) encoded written)
              ]
      ]

  -- A pass over a stored Workflow that can be read either leaves the store as it was, also where its
  -- write fails or loses a race, or brings it to a steady state: the Workflow's record has the status
  -- of its spec, everything else is kept, and a later pass over it writes nothing. The condition is
  -- that the record can be stored whatever its body.
  pub reconcile_workflow-Settled :
      (clock : Clock) (s s' : S) (rec : Record D) (wf : Workflow) (out : Option Error)
      → view s rec.key ≡ some (ok rec)
      → wire.unmarshal rec.body ≡ ok wf
      → ((body : D) → storable (record rec { body = body }) ≡ true)
      → reconcile_workflow st wire eq clock s rec ≡ (s', out)
      → (s' ≡ s) ⊎ Settled clock s s' rec wf
  reconcile_workflow-Settled clock s s' rec wf out held decoded fits e =
      let run = sym (decoded_step clock s rec wf decoded) ∙ e in
      elim (Bool-cases (
        eq.equal wf.status
          (some (compute_workflow_status clock wf.spec wf.status rec.generation)))) [
            | inl same ↦ inl (
                ap (λ (p : S × Option Error). p.0)
                  (sym (sym (converge_step clock s rec wf true same) ∙ run)))
            | inr differs ↦
                write_status-Settled clock s s' rec wf out held fits
                  (sym (converge_step clock s rec wf false differs) ∙ run)
          ]
