-- ===== src/Incremental.antt =====
-- crates/stroma-core/src/incremental.rs, `CompletenessRule` and `Maintained`: a standing rule whose gap
-- set is kept by a check of the subjects that a change can touch.
pub mod Recheck
pub mod Recompute
use stromadb.Base.{ℕ, Bool, true, false, not, ◌&&◌, List, [], ◌∷◌}
use stromadb.Base.Tests.{if◌then◌else◌}
use stromadb.Base.Map.{BTreeSet, keys, contains, set_insert, remove, extend}
use stromadb.Base.Order.{nat_ord}
use stromadb.Fact.{NodeId}
use stromadb.Fold.State.{Key}
use stromadb.Fold.Observe.{Snapshot}
use stromadb.Live.{Diff}

-- `trait CompletenessRule`
pub record CompletenessRule : Type 0 where
  pub seed : Snapshot → BTreeSet NodeId
  pub candidates : Snapshot → Key → List NodeId
  pub holds : Snapshot → NodeId → Bool

pub record Maintained : Type 0 where
  pub rule : CompletenessRule
  pub gaps : BTreeSet NodeId

-- `Maintained::new`
unfoldable pub new_maintained : CompletenessRule → Snapshot → Maintained
new_maintained rule snap = record { rule = rule; gaps = rule.seed snap }

-- The candidates of the touched keys.
abbrev pub gathered : CompletenessRule → Snapshot → List Key → BTreeSet NodeId → BTreeSet NodeId
gathered rule snap [] out = out
gathered rule snap (k ∷ ks) out = gathered rule snap ks (extend (rule.candidates snap k) out)

-- The gap set and the difference, after a check of one subject that holds `now` and is a gap if
-- `was`.
abbrev pub flipped : NodeId → Bool → Bool → BTreeSet NodeId × Diff → BTreeSet NodeId × Diff
flipped c true false (gaps, diff) =
    (set_insert c gaps, record diff { added = set_insert c diff.added })
flipped c false true (gaps, diff) =
    (remove c gaps, record diff { removed = set_insert c diff.removed })
flipped c _ _ out = out

abbrev pub recheck : (NodeId → Bool) → List NodeId → BTreeSet NodeId × Diff → BTreeSet NodeId × Diff
recheck now [] out = out
recheck now (c ∷ cs) out = recheck now cs (flipped c (now c) (contains c out.0) out)

-- `Maintained::apply`
unfoldable pub apply_touched : Maintained → Snapshot → BTreeSet Key → Maintained × Diff
apply_touched m snap touched =
    let candidates = gathered m.rule snap (keys touched) [] in
    let (gaps, diff) =
      recheck (m.rule.holds snap) (keys candidates) (m.gaps, record { added = []; removed = [] }) in
    (record m { gaps = gaps }, diff)
