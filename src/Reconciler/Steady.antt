-- ===== src/Reconciler/Steady.antt =====
-- The passes after the first one, and the loop around them.
use kestrai.Prelude.{
  ◌≡◌, refl, ap, sym, subst, ◌∙◌, true, false, Option, some, List, [], ◌∷◌, Result, ok, err, inl,
  inr, All, In, Result-cases, map,
}
use kestrai.Text.{Str}
use kestrai.Store.{Key, Record, Error, key_eq, key_eq_iff}
use kestrai.Store.Contract.{Store, Contract}
use kestrai.Store.Engine.{selects}
use kestrai.Store.Listing.{matches_labels, project_filter}
use kestrai.Api.{Workflow, WorkflowStatus}
use kestrai.Server.Wire.{Wire, WireLaws, ProtoEqual}
use kestrai.Server.Resources.{kind_workflow}
use kestrai.Int64.{is_positive}
use kestrai.Reconciler.{
  Settings, Clock, reconcile_records, reconcile_all, all_workflows, after_list,
}
use kestrai.Reconciler.Passes.{
  Reliable, Converged, Legible, Ready, Apart, loop_reaches, Converged-idle,
}
use kestrai.Reconciler.Loop.{Signal, Phase, await, run, leave}

module _ {S D : Type 0} (st : Store S D) (wire : Wire D Workflow)
    (eq : ProtoEqual (Option WorkflowStatus)) (c : Contract st) (laws : WireLaws wire) where
  open c use {view, storable}

  module _ (reliable : Reliable st wire eq c laws) (cfg : Settings) where
    list_Ready :
        (s : S) (recs part : List (Record D)) (token : Str)
        → st.list s (all_workflows st wire eq cfg) ≡ ok (recs, token)
        → ((r : Record D) → In r part → In r recs)
        → All (Legible st wire eq c laws) part
        → All (Ready st wire eq c laws s) part
    list_Ready s recs [] token listed among h = tt
    list_Ready s recs (r ∷ part) token listed among (x, h) =
        let (k, held, _, _) =
          (c.list_answer s (all_workflows st wire eq cfg) recs token r listed).0
            (among r (inl refl)) in
        (
          record {
            workflow = x.workflow;
            held = ap (view s) (c.view_key s k r held) ∙ held;
            body = x.body;
            fits = x.fits;
          },
          list_Ready s recs part token listed (λ y m. among y (inr m)) h,
        )

    pass_step :
        (clock : Record D → Clock) (s : S) (answer : Result Error (List (Record D) × Str))
        → st.list s (all_workflows st wire eq cfg) ≡ answer
        → reconcile_all st wire eq cfg clock leave s ≡ after_list st wire eq clock leave s answer
    unfolding reconcile_all
    pass_step clock s answer e = ap (after_list st wire eq clock leave s) e

    loop_idle :
        (later : Record D → Clock) (s : S) (recs : List (Record D))
        → ((r : Record D) → In r recs → Converged st wire eq c laws r)
        → reconcile_records st wire eq later leave s recs ≡ s
    unfolding reconcile_records
    loop_idle later s [] h = refl
    loop_idle later s (rec ∷ recs) h =
        ap (λ (p : S × Option Error). reconcile_records st wire eq later leave p.0 recs)
          (Converged-idle st wire eq c laws (later rec) s rec (h rec (inl refl)))
        ∙ loop_idle later s recs (λ r m. h r (inr m))

    -- Every Workflow of the reconciler's tenant is at its steady state.
    abbrev pub IsSteady : S → Type 0
    IsSteady s =
        (k : Key) (r : Record D)
        → view s k ≡ some (ok r)
        → selects cfg.tenant kind_workflow (project_filter []) k ≡ true
        → Converged st wire eq c laws r

    All-apart :
        (recs : List (Record D)) (r : Record D) (k : Key)
        → r.key ≡ k
        → In r recs
        → All (λ (x : Record D). key_eq x.key k ≡ false) recs
        → ⊥
    All-apart [] r k same m away = m
    All-apart (x ∷ recs) r k same (inl e) (off, away) =
        let on = (key_eq_iff x.key k).1 (ap (λ (y : Record D). y.key) (sym e) ∙ same) in cc
    All-apart (x ∷ recs) r k same (inr m) (off, away) = All-apart recs r k same m away

    pass_IsSteady :
        (clock : Record D → Clock) (s : S) (recs : List (Record D)) (token : Str)
        → st.list s (all_workflows st wire eq cfg) ≡ ok (recs, token)
        → Apart recs
        → All (Legible st wire eq c laws) recs
        → IsSteady (reconcile_records st wire eq clock leave s recs)
    unfolding matches_labels
    pass_IsSteady clock s recs token listed apart legible k r held wanted =
        let ready = list_Ready s recs recs token listed (λ y m. m) legible in
        elim (loop_reaches st wire eq c laws reliable clock s recs apart ready k) [
          | inr (after, there, converged) ↦
              let same : after ≡ r = cc in subst (Converged st wire eq c laws) same converged
          | inl (away, same) ↦
              let before : view s k ≡ some (ok r) = sym same ∙ held in
              let member =
                (c.list_answer s (all_workflows st wire eq cfg) recs token r listed).1
                  (k, before, wanted, refl) in
              absurd (All-apart recs r k (c.view_key s k r before) member away)
        ]

    steady_pass :
        (later : Record D → Clock) (s : S)
        → IsSteady s
        → reconcile_all st wire eq cfg later leave s ≡ s
    unfolding after_list
    steady_pass later s steady = elim (Result-cases (st.list s (all_workflows st wire eq cfg))) [
      | inr (e, failed) ↦ pass_step later s (err e) failed
      | inl ((recs, token), listed) ↦
          pass_step later s (ok (recs, token)) listed
          ∙ loop_idle later s recs λ r m.
            let (k, held, wanted, _) =
              (c.list_answer s (all_workflows st wire eq cfg) recs token r listed).0 m in
            steady k r held wanted
    ]

    steady_ticks :
        (laters : List (Record D → Clock)) (s : S)
        → IsSteady s
        → await st wire eq cfg s (map (λ later. Signal.tick later leave) laters)
          ≡ (s, Phase.waiting)
    unfolding await
    steady_ticks [] s steady = refl
    steady_ticks (later ∷ laters) s steady =
        ap (λ z. await st wire eq cfg z (map (λ later. Signal.tick later leave) laters))
          (steady_pass later s steady)
        ∙ steady_ticks laters s steady

    -- The first pass of `Run` brings every Workflow of its tenant to its steady state, and the passes
    -- on the ticks after it change nothing, if the interval is positive, no other client writes, the
    -- list of the first pass is answered and has no key twice, the listed Workflows can be read and
    -- stored, and encodings and the writes of current versions do not fail.
    pub run_settles :
        (clock : Record D → Clock) (laters : List (Record D → Clock)) (s : S)
        (recs : List (Record D)) (token : Str)
        → is_positive cfg.interval ≡ true
        → st.list s (all_workflows st wire eq cfg) ≡ ok (recs, token)
        → Apart recs
        → All (Legible st wire eq c laws) recs
        → let s' = reconcile_all st wire eq cfg clock leave s in
          IsSteady s'
          × (run st wire eq cfg clock leave s (map (λ later. Signal.tick later leave) laters)
              ≡ (s', Phase.waiting))
    unfolding run after_list
    run_settles clock laters s recs token positive listed apart legible =
        let ends = pass_step clock s (ok (recs, token)) listed in
        let steady =
          subst IsSteady (sym ends) (pass_IsSteady clock s recs token listed apart legible) in
        (
          steady,
          rw positive (steady_ticks laters (reconcile_all st wire eq cfg clock leave s) steady),
        )
