-- ===== src/Engine.antt =====
-- crates/stroma-core/src/engine.rs: write to the log, read the materialized fold with the tail.
-- `none` is a panic of the fold. A snapshot is shared by reference in the program; here it is a
-- value. `open` takes what `read_snapshot` gave.
pub mod Tail
pub mod Materialize
pub mod Faithful
pub mod Runs
use stromadb.Base.{ℕ, ◌+◌, ◌-◌, Bool, true, false, not, ◌||◌, Option, none, some, List, [], ◌∷◌}
use stromadb.Base.Int.{ℤ}
use stromadb.Base.Tests.{if◌then◌else◌, ◌>>=◌}
use stromadb.Base.Lists.{is_empty}
use stromadb.Base.Map.{BTreeSet, keys}
use stromadb.Fact.{FieldId, NodeId}
use stromadb.WriteKind.{WriteKind}
use stromadb.Fold.Keys.{ObjKey, OrderKey}
use stromadb.Fold.State.{Key, Label, Fold, empty_fold}
use stromadb.Fold.Observe.{Snapshot, empty_snapshot, observe_keys_into}
use stromadb.Fold.Gc.{observe, observe_nodes_into}
use stromadb.Fold.Tags.{live_tags}
use stromadb.Changelog.Ops
use stromadb.Changelog.Ops.{
  Record, Changelog, Disk, Appended, Tracked, append, append_labeled, append_batch,
  append_batch_labeled, open_log, replay_range_into, replay_range_into_tracked, mark_materialized,
  head,
}

pub record Engine : Type 0 where
  pub changelog : Changelog
  pub base : Fold
  pub base_snap : Snapshot
  pub watermark : ℕ

-- `Engine::new`
unfoldable pub new : ℕ → Engine
new n_max = record {
  changelog = Ops.new n_max;
  base = empty_fold;
  base_snap = empty_snapshot;
  watermark = 0;
}

-- The materialized fold with the tail.
unfoldable pub effective_fold : Engine → Option Fold
effective_fold e = replay_range_into e.watermark e.changelog e.base

-- The fold that `open` starts from, and the number of records that it covers.
abbrev pub starting : Option (ℕ × Fold) → Changelog → Fold × ℕ
starting (some (upto, fold)) log = (fold, upto)
starting none log = (empty_fold, log.base)

module _ (value_hash : ObjKey → ℕ) where
  -- `Engine::open`, from the snapshot that was read, if there was one.
  unfoldable pub open_engine : Option (ℕ × Fold) → Disk → ℕ → Option (Engine × Disk)
  open_engine snapshot disk n_max = do
    let (log, left) = open_log disk n_max
    let (base, covered) = starting snapshot log
    f ← replay_range_into covered log base
    some (
      record { changelog = log; base = f; base_snap = observe value_hash f; watermark = head log },
      left,
    )

  -- The snapshot of the touched keys and nodes.
  abbrev pub refresh : Fold → BTreeSet Key → BTreeSet NodeId → Snapshot → Snapshot
  refresh f ks ns snap =
      if not (is_empty ks) || not (is_empty ns)
      then observe_nodes_into f (keys ns) (observe_keys_into value_hash f (keys ks) snap)
      else snap

  unfoldable pub materialize_tracked_with_nodes :
      Engine → Option (Engine × (BTreeSet Key × BTreeSet NodeId))
  materialize_tracked_with_nodes e = do
    t ← replay_range_into_tracked e.watermark e.changelog e.base
    let top = head e.changelog
    some (
      record {
        changelog = mark_materialized top e.changelog;
        base = t.folded;
        base_snap = refresh t.folded t.keys t.nodes e.base_snap;
        watermark = top;
      },
      (t.keys, t.nodes),
    )

  unfoldable pub materialize_tracked : Engine → Option (Engine × BTreeSet Key)
  unfolding materialize_tracked_with_nodes
  materialize_tracked e = do (after, (ks, ns)) ← materialize_tracked_with_nodes e; some (after, ks)

  unfoldable pub materialize : Engine → Option Engine
  unfolding materialize_tracked
  materialize e = do (after, ks) ← materialize_tracked e; some after

  unfoldable pub snapshot : Engine → Option Snapshot
  unfolding effective_fold
  snapshot e = do f ← effective_fold e; some (observe value_hash f)

abbrev pub snapshot_arc : Engine → Snapshot
snapshot_arc e = e.base_snap

unfoldable pub unmerged : Engine → ℕ
unmerged e = head e.changelog - e.watermark

unfoldable pub write_labeled : FieldId → WriteKind → Option Label → Engine → Appended ℕ × Engine
write_labeled source kind label e =
    let (reply, log) = append_labeled source kind label e.changelog in
    (reply, record e { changelog = log })

unfoldable pub write : FieldId → WriteKind → Engine → Appended ℕ × Engine
unfolding write_labeled
write source kind = write_labeled source kind none

unfoldable pub write_batch_labeled : List Record → Engine → Appended (List ℕ) × Engine
write_batch_labeled writes e =
    let (reply, log) = append_batch_labeled writes e.changelog in
    (reply, record e { changelog = log })

unfoldable pub write_batch : List (FieldId × WriteKind) → Engine → Appended (List ℕ) × Engine
write_batch writes e =
    let (reply, log) = append_batch writes e.changelog in (reply, record e { changelog = log })

pub data Retracted : Type 0 where
  absent : Retracted
  appended : Appended ℕ → Retracted

unfoldable pub retract_edge :
    FieldId → NodeId → FieldId → ObjKey → Engine → Option (Retracted × Engine)
unfolding effective_fold
retract_edge source subject predicate object e = do
  f ← effective_fold e
  let observed = live_tags subject predicate object f
  let (reply, log) = append source (WriteKind.remove_many subject predicate observed) e.changelog
  some (
      if is_empty observed
      then (Retracted.absent, e)
      else (Retracted.appended reply, record e { changelog = log }))

-- The whole of `Engine::sync`: the log and its file.
unfoldable pub sync : Engine → Disk → Engine × Disk
sync e disk = let (log, left) = Ops.sync e.changelog disk in (record e { changelog = log }, left)

abbrev pub durable_head : Engine → ℕ
durable_head e = Ops.durable_head e.changelog
