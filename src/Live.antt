-- ===== src/Live.antt =====
-- crates/stroma-core/src/live.rs: registered queries whose differences are pushed as the graph
-- changes. The evaluator of a query is a parameter of the registry's entry, as it is in the program.
pub mod Differences
pub mod Registry
use stromadb.Base.{ℕ, ◌+◌, Bool, not, ◌&&◌, List, [], ◌∷◌, ◌++◌}
use stromadb.Base.Tests.{◌==◌, leb, if◌then◌else◌}
use stromadb.Base.Lists.{length, is_empty, filter}
use stromadb.Base.Map.{BTreeSet, retain, contains}
use stromadb.Base.Order.{nat_ord}
use stromadb.Fact.{NodeId}
use stromadb.Fold.Observe.{Snapshot}

pub record Diff : Type 0 where
  pub added : BTreeSet NodeId
  pub removed : BTreeSet NodeId

-- `Diff::is_empty`
unfoldable pub is_empty_diff : Diff → Bool
is_empty_diff d = is_empty d.added && is_empty d.removed

-- `BTreeSet::difference`
unfoldable pub difference : BTreeSet NodeId → BTreeSet NodeId → BTreeSet NodeId
difference a b = retain (λ n. not (contains n b)) a

unfoldable pub between : BTreeSet NodeId → BTreeSet NodeId → Diff
unfolding difference
between old new = record { added = difference new old; removed = difference old new }

abbrev pub QueryId : Type 0
QueryId = ℕ

pub record Live : Type 0 where
  pub id : QueryId
  pub eval : Snapshot → BTreeSet NodeId
  pub last : BTreeSet NodeId

pub record LiveQueries : Type 0 where
  pub next : QueryId
  pub queries : List Live
  pub max : ℕ

-- `LiveQueries::new`
abbrev pub new_queries : ℕ → LiveQueries
new_queries max = record { next = 0; queries = []; max = max }

-- `Result<(QueryId, Diff), AtCapacity>`
pub data Registered : Type 0 where
  at_capacity : Registered
  registered : QueryId → Diff → Registered

unfoldable pub register :
    Snapshot → (Snapshot → BTreeSet NodeId) → LiveQueries → Registered × LiveQueries
register snap eval r =
    let q : Live = record { id = r.next; eval = eval; last = eval snap } in
    if leb r.max (length r.queries) then (Registered.at_capacity, r) else (
      Registered.registered r.next (record { added = eval snap; removed = [] }),
      record r { next = r.next + 1; queries = r.queries ++ q ∷ [] },
    )

unfoldable pub deregister : QueryId → LiveQueries → LiveQueries
deregister id r = record r { queries = filter (λ q. not (q.id == id)) r.queries }

-- One turn of the loop of `on_change`: what is pushed, and the query as it is left.
unfoldable pub reevaluate : Snapshot → Live → List (QueryId × Diff) × Live
unfolding is_empty_diff between
reevaluate snap q =
    let new = q.eval snap in
    let diff = between q.last new in
    if is_empty_diff diff then ([], q) else ((q.id, diff) ∷ [], record q { last = new })

abbrev pub reevaluate_all : Snapshot → List Live → List (QueryId × Diff) × List Live
reevaluate_all snap [] = ([], [])
reevaluate_all snap (q ∷ qs) =
    let (pushed, left) = reevaluate snap q in
    let (rest, others) = reevaluate_all snap qs in (pushed ++ rest, left ∷ others)

unfoldable pub on_change : Snapshot → LiveQueries → List (QueryId × Diff) × LiveQueries
unfolding reevaluate
on_change snap r =
    let (pushed, left) = reevaluate_all snap r.queries in (pushed, record r { queries = left })
