-- ===== src/Reconciler/Passes.antt =====
-- A whole pass of reconcileAll over a store that answers, and the passes after it.
use kestrai.Prelude.{
  ◌≡◌, refl, ap, sym, subst, ◌∙◌, true, false, Option, none, some, List, [], ◌∷◌, ok, inl, inr, ◌⊎◌,
  All, Bool-cases,
}
use kestrai.Store.{Key, Record, Error, key_eq, key_eq_iff, key_eq_refl}
use kestrai.Store.Contract.{Store, Contract}
use kestrai.Api.{Workflow, WorkflowStatus}
use kestrai.Server.Wire.{Wire, WireLaws, ProtoEqual}
use kestrai.Reconciler.{
  Clock, compute_workflow_status, swallow, write_status, with_status, reconcile_workflow,
  reconcile_records,
}
use kestrai.Reconciler.Convergence.{compute_workflow_status_idempotent}
use kestrai.Reconciler.Writes.{decoded_step, converge_step, encode_step, update_Settled}
use kestrai.Reconciler.Loop.{leave}

-- No two records have one key.
abbrev pub Apart : {D : Type 0} → List (Record D) → Type 0
Apart [] = Unit
Apart (rec ∷ recs) = All (λ r. key_eq rec.key r.key ≡ false) recs × Apart recs

module _ {S D : Type 0} (st : Store S D) (wire : Wire D Workflow)
    (eq : ProtoEqual (Option WorkflowStatus)) (c : Contract st) (laws : WireLaws wire) where
  open c use {view, storable}

  -- A store and an encoding that do not fail: every Workflow can be encoded, and an update of a
  -- record that can be stored succeeds if it was given the stored version.
  pub record Reliable : Type 0 where
    pub encodes : (wf : Workflow) → (d : D) × (wire.marshal wf ≡ ok d)
    pub writes :
        (s : S) (rec old : Record D)
        → view s rec.key ≡ some (ok old)
        → rec.resource_version ≡ old.resource_version
        → storable rec ≡ true
        → (s' : S) × (r : Record D) × (st.update s rec ≡ (s', ok r))

  -- The record's status is the one of its spec and generation, at any reading of the clock.
  pub record Converged (rec : Record D) : Type 0 where
    pub workflow : Workflow
    pub body : wire.unmarshal rec.body ≡ ok workflow
    pub status :
        (later : Clock)
        → workflow.status
          ≡ some (compute_workflow_status later workflow.spec workflow.status rec.generation)

  -- A record with a body that can be read and replaced.
  pub record Legible (rec : Record D) : Type 0 where
    pub workflow : Workflow
    pub body : wire.unmarshal rec.body ≡ ok workflow
    pub fits : (d : D) → storable (record rec { body = d }) ≡ true

  -- One that the store holds.
  pub record Ready (s : S) (rec : Record D) : Type 0 where
    pub workflow : Workflow
    pub held : view s rec.key ≡ some (ok rec)
    pub body : wire.unmarshal rec.body ≡ ok workflow
    pub fits : (d : D) → storable (record rec { body = d }) ≡ true

  pub Converged-idle :
      (later : Clock) (s : S) (rec : Record D)
      → Converged rec
      → reconcile_workflow st wire eq later s rec ≡ (s, none)
  Converged-idle later s rec h =
      decoded_step st wire eq c laws later s rec h.workflow h.body
      ∙ converge_step st wire eq c laws later s rec h.workflow true
          ((eq.equal_iff h.workflow.status _).1 (h.status later))

  -- What one turn of the loop does: the record's key holds a converged record, the rest is kept.
  record Turned (s s' : S) (rec : Record D) : Type 0 where
    after : Record D
    held : view s' rec.key ≡ some (ok after)
    converged : Converged after
    kept : (j : Key) → key_eq rec.key j ≡ false → view s' j ≡ view s j

  settled_status :
      (clock : Clock) (wf : Workflow) (old new : Record D)
      → new.generation ≡ old.generation
      → wire.unmarshal new.body
        ≡ ok (
            with_status st wire eq wf
              (compute_workflow_status clock wf.spec wf.status old.generation))
      → Converged new
  unfolding with_status
  settled_status clock wf old new generation body =
      let desired = compute_workflow_status clock wf.spec wf.status old.generation in
      record {
        workflow = with_status st wire eq wf desired;
        body = body;
        status = λ later. ap some (
            sym (
              ap (compute_workflow_status later wf.spec (some desired)) generation
              ∙ compute_workflow_status_idempotent clock later wf.spec wf.status old.generation));
      }

  same_status :
      (clock : Clock) (rec : Record D) (wf : Workflow)
      → wire.unmarshal rec.body ≡ ok wf
      → wf.status ≡ some (compute_workflow_status clock wf.spec wf.status rec.generation)
      → Converged rec
  same_status clock rec wf body same = record {
    workflow = wf;
    body = body;
    status = λ later.
        same
        ∙ ap some (
            sym (
              ap (λ z. compute_workflow_status later wf.spec z rec.generation) same
              ∙ compute_workflow_status_idempotent clock later wf.spec wf.status rec.generation));
  }

  module _ (reliable : Reliable) where
    written_turn :
        (clock : Clock) (s : S) (rec : Record D) (h : Ready s rec)
        → let wf = h.workflow in
          let settled =
            with_status st wire eq wf
              (compute_workflow_status clock wf.spec wf.status rec.generation) in
          Turned s (write_status st wire eq s rec settled).0 rec
    written_turn clock s rec h =
        let wf = h.workflow in
        let desired = compute_workflow_status clock wf.spec wf.status rec.generation in
        let settled = with_status st wire eq wf desired in
        let (body, encoded) = reliable.encodes settled in
        let upd = record rec { body = body } in
        let (s', r, written) = reliable.writes s upd rec h.held refl (h.fits body) in
        let ends : write_status st wire eq s rec settled ≡ (s', none) =
          encode_step st wire eq c laws s rec settled (ok body) encoded ∙ ap swallow written in
        let done =
          update_Settled st wire eq c laws clock s s' rec r wf body h.held (h.fits body) encoded
            written in
        subst (λ (p : S × Option Error). Turned s p.0 rec) (sym ends)
          (record {
            after = done.after;
            held = done.only rec.key ∙ rw key_eq_refl refl;
            converged = settled_status clock wf rec done.after done.generation done.body;
            kept = λ j other. done.only j ∙ rw other refl;
          })

    turn :
        (clock : Clock) (s : S) (rec : Record D)
        → Ready s rec
        → Turned s (reconcile_workflow st wire eq clock s rec).0 rec
    turn clock s rec h =
        let wf = h.workflow in
        let desired = compute_workflow_status clock wf.spec wf.status rec.generation in
        let run = decoded_step st wire eq c laws clock s rec wf h.body in
        elim (Bool-cases (eq.equal wf.status (some desired))) [
          | inl same ↦
              let stays = run ∙ converge_step st wire eq c laws clock s rec wf true same in
              subst (λ (p : S × Option Error). Turned s p.0 rec) (sym stays)
                (record {
                  after = rec;
                  held = h.held;
                  converged =
                      same_status clock rec wf h.body
                        ((eq.equal_iff wf.status (some desired)).0 same);
                  kept = λ j other. refl;
                })
          | inr differs ↦
              let writes = run ∙ converge_step st wire eq c laws clock s rec wf false differs in
              subst (λ (p : S × Option Error). Turned s p.0 rec) (sym writes)
                (written_turn clock s rec h)
        ]

    Ready-kept :
        (s s' : S) (rec : Record D) (recs : List (Record D))
        → Turned s s' rec
        → All (λ (r : Record D). key_eq rec.key r.key ≡ false) recs
        → All (Ready s) recs
        → All (Ready s') recs
    Ready-kept s s' rec [] t other h = tt
    Ready-kept s s' rec (r ∷ recs) t (o, other) (x, h) = (
      record {
        workflow = x.workflow;
        held = t.kept r.key o ∙ x.held;
        body = x.body;
        fits = x.fits;
      },
      Ready-kept s s' rec recs t other h,
    )

    -- What the loop does to a key: it leaves it, or the key is a record's and holds a converged one.
    abbrev pub Reached : List (Record D) → S → S → Key → Type 0
    Reached recs s s' k =
        (All (λ (r : Record D). key_eq r.key k ≡ false) recs × (view s' k ≡ view s k))
        ⊎ ((after : Record D) × (view s' k ≡ some (ok after)) × Converged after)

    pub loop_reaches :
        (clock : Record D → Clock) (s : S) (recs : List (Record D))
        → Apart recs
        → All (Ready s) recs
        → (k : Key) → Reached recs s (reconcile_records st wire eq clock leave s recs) k
    unfolding reconcile_records
    loop_reaches clock s [] apart ready k = inl (tt, refl)
    loop_reaches clock s (rec ∷ recs) (other, apart) (h, ready) k =
        let s1 = (reconcile_workflow st wire eq (clock rec) s rec).0 in
        let t = turn (clock rec) s rec h in
        let rest = loop_reaches clock s1 recs apart (Ready-kept s s1 rec recs t other ready) k in
        elim rest [
          | inr done ↦ inr done
          | inl (away, same) ↦ elim (Bool-cases (key_eq rec.key k)) [
            | inr off ↦ inl ((off, away), same ∙ t.kept k off)
            | inl on ↦
                let at : view s1 k ≡ some (ok t.after) =
                  ap (view s1) (sym ((key_eq_iff rec.key k).0 on)) ∙ t.held in
                inr (t.after, same ∙ at, t.converged)
          ]
        ]
