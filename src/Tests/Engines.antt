-- ===== src/Tests/Engines.antt =====
-- crates/stroma-core/src/engine.rs at concrete inputs.
use stromadb.Base.{ℕ, ◌≡◌, refl, some, [], none}
use stromadb.Base.Int.{ℤ}
use stromadb.Base.Tests.{◌>>=◌, map_option, unwrap_or}
use stromadb.Base.Map.{get, insert, keys}
use stromadb.WriteKind.{WriteKind}
use stromadb.Fold.Keys.{ObjKey}
use stromadb.Fold.Gc.{observe}
use stromadb.Fold.Refresh.Observed.{refreshed, refreshed-observe}
use stromadb.Fold.Apply
use stromadb.Changelog.Ops
use stromadb.Fold.State.{empty_fold}
use stromadb.Tests.Data.{two_records}
use stromadb.Engine.Tail.{tracked-SameAt, tracked-node_attrs}
use stromadb.Changelog.Ops.{Tracked, replay_range_into_tracked, replay, unmaterialized}
use stromadb.Engine
use stromadb.Engine.{Engine, write_labeled, materialize, snapshot, snapshot_arc, unmerged}
use stromadb.Engine.Materialize.{IsCurrent, snapshot-materialize, materialize-IsCurrent}
use stromadb.Engine.Runs.{Reachable, Step, IsMaintained, Reachable-IsMaintained, snapshot-replay}

-- An engine that was written to, materialized and written to again.
abbrev hired : Engine
hired =
    (write_labeled 1 (WriteKind.set_one 10 2 (ObjKey.node 20) (ℤ.pos 100) none) (some 3)
      (Engine.new 3)).1

abbrev hashed : ObjKey → ℕ
hashed o = 0

hired_reached : Reachable hashed hired
hired_reached =
    Reachable.stepped (Reachable.fresh 3)
      (Step.wrote 1 (WriteKind.set_one 10 2 (ObjKey.node 20) (ℤ.pos 100) none) (some 3))

-- The engine after its tail is materialized.
abbrev refilled : Engine
refilled = unwrap_or (materialize hashed hired) hired

hired-refilled : materialize hashed hired ≡ some refilled
unfolding materialize Engine.materialize_tracked Engine.materialize_tracked_with_nodes unmerged
    write_labeled Engine.new Ops.replay_range_into_tracked Ops.append_labeled Ops.new
    Apply.apply_labeled Ops.record_to_op get Ops.mark_materialized
hired-refilled = refl

snapshot-replay_example :
    snapshot hashed hired ≡ (replay hired.changelog >>= λ f. some (observe hashed f))
snapshot-replay_example = snapshot-replay hashed hired_reached

hired-IsMaintained : IsMaintained hashed hired
hired-IsMaintained = Reachable-IsMaintained hashed hired_reached

Reachable-IsMaintained_example : IsMaintained hashed hired
Reachable-IsMaintained_example = Reachable-IsMaintained hashed hired_reached

snapshot-materialize_example :
    snapshot hashed hired ≡ map_option snapshot_arc (materialize hashed hired)
snapshot-materialize_example = snapshot-materialize hashed hired hired-IsMaintained.current

materialize-IsCurrent_example :
    IsCurrent hashed refilled
    × (unmerged refilled ≡ 0)
    × (snapshot hashed refilled ≡ some (snapshot_arc refilled))
materialize-IsCurrent_example =
    materialize-IsCurrent hashed hired refilled hired-IsMaintained.current hired-refilled

-- The replay of the two records from the empty fold.
abbrev told : Tracked
told =
    unwrap_or (replay_range_into_tracked 0 two_records empty_fold)
      (record { folded = empty_fold; keys = []; nodes = [] })

told_folds : replay_range_into_tracked 0 two_records empty_fold ≡ some told
unfolding replay_range_into_tracked Apply.apply_labeled Ops.record_to_op get insert
told_folds = refl

refreshed-observe_example :
    refreshed hashed told.folded (keys told.keys) (keys told.nodes) (observe hashed empty_fold)
    ≡ observe hashed told.folded
refreshed-observe_example =
    refreshed-observe hashed empty_fold told.folded (keys told.keys) (keys told.nodes)
      (λ k. tracked-SameAt 0 two_records empty_fold told k told_folds)
      (λ n. tracked-node_attrs 0 two_records empty_fold told n told_folds)
