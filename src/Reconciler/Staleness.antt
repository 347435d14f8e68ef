-- ===== src/Reconciler/Staleness.antt =====
-- What reconcileWorkflow does with a record that another client has changed since it was listed.
use kestrai.Prelude.{
  ◌≡◌, ◌≢◌, refl, ap, sym, subst, ◌∙◌, true, false, Option, none, some, Result, ok, err, ◌⊎◌, inl,
  inr, Bool-cases, Result-cases,
}
use kestrai.Text.{Str}
use kestrai.Store.{Record, Error, conflict, not_found}
use kestrai.Store.Operations.Reading.{OrFails}
use kestrai.Store.Contract.{Store, Contract}
use kestrai.Api.{Workflow, WorkflowStatus}
use kestrai.Server.Wire.{Wire, WireLaws, ProtoEqual}
use kestrai.Reconciler.{
  Clock, compute_workflow_status, swallow, write_status, with_status, converge, reconcile_workflow,
}
use kestrai.Reconciler.Writes.{decoded_step, converge_step, encode_step}

module _ {S D : Type 0} (st : Store S D) (wire : Wire D Workflow)
    (eq : ProtoEqual (Option WorkflowStatus)) (c : Contract st) (laws : WireLaws wire) where
  open c use {view}

  -- The store holds no record under the key, or one of another version.
  abbrev pub IsOutdated : S → Record D → Type 0
  IsOutdated s rec =
      (view s rec.key ≡ none)
      ⊎ ((now : Record D) × (view s rec.key ≡ some (ok now))
          × (rec.resource_version ≢ now.resource_version))

  -- Nothing is written: there is no error, or one that is not about the version.
  abbrev pub LeavesAlone : S → S × Option Error → Type 0
  LeavesAlone s out =
      (out.0 ≡ s) × ((out.1 ≡ none) ⊎ ((text : Str) × (out.1 ≡ some (Error.other text))))

  swallow-LeavesAlone :
      (s : S) (x : S × Result Error (Record D))
      → OrFails x.1 (err conflict) ⊎ OrFails x.1 (err not_found)
      → ((y : Error) → x ≡ (x.0, err y) → x.0 ≡ s)
      → LeavesAlone s (swallow x)
  swallow-LeavesAlone s (s', ok r) (inl (inl e)) kept = absurd cc
  swallow-LeavesAlone s (s', ok r) (inl (inr (t, e))) kept = absurd cc
  swallow-LeavesAlone s (s', ok r) (inr (inl e)) kept = absurd cc
  swallow-LeavesAlone s (s', ok r) (inr (inr (t, e))) kept = absurd cc
  swallow-LeavesAlone s (s', err Error.conflict) h kept = (kept Error.conflict refl, inl refl)
  swallow-LeavesAlone s (s', err Error.not_found) h kept = (kept Error.not_found refl, inl refl)
  swallow-LeavesAlone s (s', err (Error.other text)) h kept =
      (kept (Error.other text) refl, inr (text, refl))
  swallow-LeavesAlone s (s', err Error.already_exists) (inl (inl e)) kept = absurd cc
  swallow-LeavesAlone s (s', err Error.already_exists) (inl (inr (t, e))) kept = absurd cc
  swallow-LeavesAlone s (s', err Error.already_exists) (inr (inl e)) kept = absurd cc
  swallow-LeavesAlone s (s', err Error.already_exists) (inr (inr (t, e))) kept = absurd cc

  update_outdated :
      (s : S) (rec : Record D) (body : D)
      → IsOutdated s rec
      → LeavesAlone s (swallow (st.update s (record rec { body = body })))
  update_outdated s rec body outdated =
      let upd = record rec { body = body } in
      swallow-LeavesAlone s (st.update s upd)
        (elim outdated [
          | inl absent ↦ inr (c.update_missing s upd absent)
          | inr (now, held, stale) ↦ inl (c.update_stale s upd now held stale)
        ])
        (λ y e. c.update_failed s (st.update s upd).0 upd y e)

  write_status_outdated :
      (s : S) (rec : Record D) (wf : Workflow)
      → IsOutdated s rec
      → LeavesAlone s (write_status st wire eq s rec wf)
  write_status_outdated s rec wf outdated = elim (Result-cases (wire.marshal wf)) [
    | inr (text, failed) ↦
        subst (LeavesAlone s) (sym (encode_step st wire eq c laws s rec wf (err text) failed))
          (refl, inr (text, refl))
    | inl (body, encoded) ↦
        subst (LeavesAlone s) (sym (encode_step st wire eq c laws s rec wf (ok body) encoded))
          (update_outdated s rec body outdated)
  ]

  -- The reconciler does not overwrite another version than it listed: where the key of a record is
  -- gone or holds another version, it writes nothing, and the lost race is no error; what error there
  -- is comes from an encoding or the driver.
  pub reconcile_workflow_outdated :
      (clock : Clock) (s : S) (rec : Record D)
      → IsOutdated s rec
      → LeavesAlone s (reconcile_workflow st wire eq clock s rec)
  unfolding reconcile_workflow
  reconcile_workflow_outdated clock s rec outdated = elim (Result-cases (wire.unmarshal rec.body)) [
    | inr (text, failed) ↦
        subst (LeavesAlone s)
          (sym (
            ap
              (λ (r : Result Str Workflow). elim r [
                | err e ↦ (s, some (Error.other e))
                | ok wf ↦ converge st wire eq clock s rec wf
              ])
              failed))
          (refl, inr (text, refl))
    | inl (wf, decoded) ↦
        let desired = compute_workflow_status clock wf.spec wf.status rec.generation in
        let run = decoded_step st wire eq c laws clock s rec wf decoded in
        elim (Bool-cases (eq.equal wf.status (some desired))) [
          | inl same ↦
              subst (LeavesAlone s)
                (sym (run ∙ converge_step st wire eq c laws clock s rec wf true same))
                (refl, inl refl)
          | inr differs ↦
              subst (LeavesAlone s)
                (sym (run ∙ converge_step st wire eq c laws clock s rec wf false differs))
                (write_status_outdated s rec (with_status st wire eq wf desired) outdated)
        ]
  ]
