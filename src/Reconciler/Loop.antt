-- ===== src/Reconciler/Loop.antt =====
-- The loop of internal/reconciler/reconciler.go around the passes: `Run`.
use kestrai.Prelude.{Option, List, [], ◌∷◌, if◌then◌else◌}
use kestrai.Store.{Record}
use kestrai.Store.Contract.{Store}
use kestrai.Api.{Workflow, WorkflowStatus}
use kestrai.Server.Wire.{Wire, ProtoEqual}
use kestrai.Int64.{is_positive}
use kestrai.Reconciler.{Clock, Settings, reconcile_all}

-- What the `select` of `Run` takes, one case after the other: the ticker's, with the readings of the
-- clock and what other clients do during the pass, or that of `ctx.Done()`. Where both are ready, Go
-- takes any of them, so a list may have ticks that came after the context was cancelled. Between two
-- cases other clients write.
pub data Signal (S D : Type 0) : Type 0 where
  tick : (Record D → Clock) → (Record D → S → S) → Signal S D
  client : (S → S) → Signal S D
  done : Signal S D

-- No other client comes during a pass.
abbrev pub leave : {S D : Type 0} → Record D → S → S
leave rec s = s

-- Where `Run` is: it waits, it has returned `ctx.Err()`, or it has panicked.
pub data Phase : Type 0 where
  waiting cancelled panicked : Phase

module _ {S D : Type 0} (st : Store S D) (wire : Wire D Workflow)
    (eq : ProtoEqual (Option WorkflowStatus)) (r : Settings) where
  -- The `for` loop: the store that it leaves, and where it is then. Without a case that is ready it
  -- waits.
  unfoldable pub await : S → List (Signal S D) → S × Phase
  await s [] = (s, Phase.waiting)
  await s (Signal.tick clock others ∷ signals) =
      await (reconcile_all st wire eq r clock others s) signals
  await s (Signal.client f ∷ signals) = await (f s) signals
  await s (Signal.done ∷ signals) = (s, Phase.cancelled)

  -- `Run`: a pass at once, then the loop. time.NewTicker panics on an interval that is not positive.
  unfoldable pub run : (Record D → Clock) → (Record D → S → S) → S → List (Signal S D) → S × Phase
  unfolding await
  run clock others s signals =
      let looped = await (reconcile_all st wire eq r clock others s) signals in
      if is_positive r.interval then looped else (s, Phase.panicked)
