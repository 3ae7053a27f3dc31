-- ===== src/Tests/Lives.antt =====
-- crates/stroma-core/src/live.rs at concrete inputs.
use stromadb.Base.{◌≡◌, refl, [], ◌∷◌}
use stromadb.Base.Map.{BTreeSet}
use stromadb.Base.Order.{nat_ord}
use stromadb.Fact.{NodeId}
use stromadb.Fold.Observe.{Snapshot, empty_snapshot}
use stromadb.Live.{LiveQueries, new_queries, register, on_change, between}
use stromadb.Live.Differences.{patched, patched-between}
use stromadb.Live.Registry.{
  pushed_of_all, at_snapshot_all, on_change_lem, Reachable, Step, IsBounded, Reachable-IsBounded,
}

patched-between_example :
    patched (between ((1, tt) ∷ (2, tt) ∷ []) ((2, tt) ∷ (5, tt) ∷ [])) ((1, tt) ∷ (2, tt) ∷ [])
    ≡ (2, tt) ∷ (5, tt) ∷ []
patched-between_example =
    patched-between ((1, tt) ∷ (2, tt) ∷ []) ((2, tt) ∷ (5, tt) ∷ []) ((refl, tt), (tt, tt))
      ((refl, tt), (tt, tt))

-- The nodes with a type.
abbrev typed : Snapshot → BTreeSet NodeId
typed snap = elim snap.node_types [ [] ↦ [] | (n, ty) ∷ rest ↦ (n, tt) ∷ [] ]

abbrev watched : LiveQueries
watched = (register empty_snapshot typed (new_queries 1)).1

abbrev grown : Snapshot
grown = record empty_snapshot { node_types = (7, 1) ∷ [] }

abbrev queries : LiveQueries
queries = record { next = 1; queries = record { id = 0; eval = typed; last = [] } ∷ []; max = 1 }

on_change_lem_example : on_change grown queries ≡ (
  pushed_of_all grown queries.queries,
  record queries { queries = at_snapshot_all grown queries.queries },
)
on_change_lem_example = on_change_lem grown queries ((tt, (tt, tt)), tt)

Reachable-IsBounded_example : IsBounded watched
Reachable-IsBounded_example =
    Reachable-IsBounded
      (Reachable.stepped (Reachable.fresh 1) (Step.registers empty_snapshot typed))
