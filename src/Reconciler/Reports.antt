-- ===== src/Reconciler/Reports.antt =====
-- From `CreateWorkflow` over a pass of the reconciler to `GetWorkflow`.
use kestrai.Prelude.{
  ◌≡◌, refl, ap, sym, subst, ◌∙◌, true, false, Option, none, some, ok, inl, inr, ◌↔◌, Bool-cases,
}
use kestrai.Text.{codes}
use kestrai.Store.{Record, Error, key_eq_refl}
use kestrai.Store.Operations.{Ambient}
use kestrai.Store.Contract.{Store, Contract}
use kestrai.Api.{Workflow, WorkflowStatus, get_name, get_project}
use kestrai.Auth.{Identity}
use kestrai.Server.Wire.{Wire, WireLaws, ProtoEqual}
use kestrai.Server.Resources.{resolve_tenant, overlay_stored_meta}
use kestrai.Server.Projects.Creation.{OrUnavailable, OrUnavailable-eq}
use kestrai.Server.Workflows.{
  create_workflow, get_workflow, decode_workflow, new_workflow, workflow_key, created_meta, spec_of,
  stamped,
}
use kestrai.Server.Workflows.Creation.{Created, create_workflow-ok, get_workflow-view}
use kestrai.Reconciler.{Clock, compute_workflow_status, swallow, with_status, reconcile_workflow}
use kestrai.Reconciler.Validation.{IsRunnable}
use kestrai.Reconciler.Convergence.{holds_in, compute_workflow_status-IsRunnable}
use kestrai.Reconciler.Writes.{Settled, decoded_step, converge_step, encode_step, update_Settled}
use kestrai.Reconciler.Passes.{Reliable}

module _ {S D : Type 0} (st : Store S D) (wire : Wire D Workflow)
    (eq : ProtoEqual (Option WorkflowStatus)) (c : Contract st) (laws : WireLaws wire) where
  open c use {view, storable}

  module _ (reliable : Reliable st wire eq c laws) where
    status_differs :
        (wf : Workflow) (desired : WorkflowStatus)
        → wf.status ≡ none
        → eq.equal wf.status (some desired) ≡ false
    status_differs wf desired fresh = elim (Bool-cases (eq.equal wf.status (some desired))) [
      | inr differs ↦ differs
      | inl same ↦ let both = (eq.equal_iff wf.status (some desired)).0 same in cc
    ]

    -- A pass over a Workflow without a status gives it one.
    fresh_Settled :
        (clock : Clock) (s : S) (rec : Record D) (wf : Workflow)
        → view s rec.key ≡ some (ok rec)
        → wire.unmarshal rec.body ≡ ok wf
        → wf.status ≡ none
        → ((body : D) → storable (record rec { body = body }) ≡ true)
        → Settled st wire eq c laws clock s (reconcile_workflow st wire eq clock s rec).0 rec wf
    fresh_Settled clock s rec wf held decoded fresh fits =
        let desired = compute_workflow_status clock wf.spec wf.status rec.generation in
        let settled = with_status st wire eq wf desired in
        let (body, encoded) = reliable.encodes settled in
        let (s', r, written) =
          reliable.writes s (record rec { body = body }) rec held refl (fits body) in
        let ends : reconcile_workflow st wire eq clock s rec ≡ (s', none) =
          decoded_step st wire eq c laws clock s rec wf decoded
          ∙ converge_step st wire eq c laws clock s rec wf false (status_differs wf desired fresh)
          ∙ encode_step st wire eq c laws s rec settled (ok body) encoded
          ∙ ap swallow written in
        subst (λ (p : S × Option Error). Settled st wire eq c laws clock s p.0 rec wf) (sym ends)
          (update_Settled st wire eq c laws clock s s' rec r wf body held (fits body) encoded
            written)

    -- What `GetWorkflow` answers, where the store can answer: the spec of the request, with a status
    -- that says Ready exactly if the spec is runnable.
    pub record Reports (id : Option Identity) (s : S) (w : Option Workflow) (x : Workflow)
        : Type 0 where
      pub reply : Workflow
      pub report : WorkflowStatus
      pub answered :
          OrUnavailable
            (get_workflow st wire id s (get_project x.metadata) (get_name x.metadata))
            (ok reply)
      pub spec : reply.spec ≡ spec_of w
      pub status : reply.status ≡ some report
      pub verdict : (holds_in report (codes "Ready") ≡ true) ↔ IsRunnable (spec_of w)

    Settled-Reports :
        (id : Option Identity) (a : Ambient) (others : S → S) (s s' s'' : S) (w : Option Workflow)
        (x : Workflow) (clock : Clock) (made : Created st wire id a others s s' w x)
        → made.stored.key ≡ made.rec.key
        → Settled st wire eq c laws clock s' s'' made.stored
            (new_workflow (created_meta (resolve_tenant id) made.meta) w)
        → Reports id s'' w x
    unfolding decode_workflow with_status new_workflow overlay_stored_meta
    Settled-Reports id a others s s' s'' w x clock made same done =
        let wf = new_workflow (created_meta (resolve_tenant id) made.meta) w in
        let report = compute_workflow_status clock (spec_of w) none made.stored.generation in
        let key = same ∙ made.key in
        let after = done.after in
        let reply = stamped (with_status st wire eq wf report) after in
        let held : view s'' (workflow_key (resolve_tenant id) made.meta.project made.meta.name)
            ≡ some (ok after) =
          subst (λ k. view s'' k ≡ some (ok after)) key
            (done.only made.stored.key ∙ rw key_eq_refl refl) in
        let decoded : decode_workflow st wire after ≡ ok reply = rw done.body in
        let metadata = ap (λ (y : Workflow). y.metadata) made.answer in
        let name : get_name x.metadata ≡ made.meta.name =
          ap get_name metadata ∙ ap (λ k. k.name) key in
        let project : get_project x.metadata ≡ made.meta.project =
          ap get_project metadata ∙ ap (λ k. k.project) key in
        record {
          reply = reply;
          report = report;
          answered =
              rw (name, project)
                (OrUnavailable-eq
                  (get_workflow-view st wire c id s'' made.meta.project made.meta.name after
                    made.scoped made.named held)
                  decoded);
          spec = refl;
          status = refl;
          verdict =
              (compute_workflow_status-IsRunnable clock (spec_of w) none made.stored.generation).1;
        }

    -- A Workflow that was created is reported Ready after one pass of the reconciler over its record
    -- exactly if the request's spec is there, has a goal and at least one phase, and names every
    -- phase: `GetWorkflow` then answers that spec with that status, unless the store cannot answer.
    -- Other clients may come between the look-up of the project and the creation, but not between
    -- the creation and the read; the record can be stored whatever its body, and encodings and the
    -- writes of current versions do not fail.
    pub create_workflow-Reports :
        (id : Option Identity) (a : Ambient) (others : S → S) (s s' : S) (w : Option Workflow)
        (x : Workflow) (clock : Clock) (e : create_workflow st wire id a others s w ≡ (s', ok x))
        → ((body : D)
            → storable
                (record (create_workflow-ok st wire id a others s s' w x e).stored { body = body })
              ≡ true)
        → Reports id
            (reconcile_workflow st wire eq clock s'
              (create_workflow-ok st wire id a others s s' w x e).stored).0
            w
            x
    unfolding new_workflow
    create_workflow-Reports id a others s s' w x clock e fits =
        let made = create_workflow-ok st wire id a others s s' w x e in
        let stored = made.stored in
        let wf = new_workflow (created_meta (resolve_tenant id) made.meta) w in
        let (_, effect) =
          c.create_effect a (others s) s' made.rec stored made.written (fits stored.body) in
        let (key, _, _, _, _, body) =
          c.create_result a (others s) s' made.rec stored made.written in
        let held : view s' stored.key ≡ some (ok stored) =
          subst (λ k. view s' k ≡ some (ok stored)) (sym key)
            (effect made.rec.key ∙ rw key_eq_refl refl) in
        let decoded : wire.unmarshal stored.body ≡ ok wf =
          laws.unmarshal_marshal wf stored.body (made.encoded ∙ ap ok (sym body)) in
        Settled-Reports id a others s s' (reconcile_workflow st wire eq clock s' stored).0 w x clock
          made key (fresh_Settled clock s' stored wf held decoded refl fits)
