-- ===== src/Live/Registry.antt =====
-- crates/stroma-core/src/live.rs, `LiveQueries`: the registry under its operations.
use mathlib.Core.Path.{subst}
use stromadb.Base.{
  ℕ, suc, ◌+◌, ◌<◌, ◌≤◌, ◌≡◌, refl, sym, ap, arith, Bool, not, List, [], ◌∷◌, ◌++◌, inl, inr,
}
use stromadb.Base.Tests.{◌==◌, if◌then◌else◌, leb, Bool-cases}
use stromadb.Base.Lists.{length, filter, All, length-append}
use stromadb.Base.Map.{BTreeSet}
use stromadb.Base.Map.Sorted.{IsSorted}
use stromadb.Base.Order.{nat_ord}
use stromadb.Fact.{NodeId}
use stromadb.Fold.Observe.{Snapshot}
use stromadb.Live.{
  Diff, Live, LiveQueries, QueryId, new_queries, register, deregister, is_empty_diff, between,
  reevaluate, reevaluate_all, on_change,
}
use stromadb.Live.Differences.{is_empty_diff-between}

-- The result of a query and its next result are in order.
abbrev pub HasOrder : Snapshot → Live → Type 0
HasOrder snap q = IsSorted q.last × IsSorted (q.eval snap)

-- What is pushed of one query: its difference, if there is one.
abbrev pub pushed_of : Snapshot → Live → List (QueryId × Diff)
pushed_of snap q =
    let diff = between q.last (q.eval snap) in if is_empty_diff diff then [] else (q.id, diff) ∷ []

abbrev pub pushed_of_all : Snapshot → List Live → List (QueryId × Diff)
pushed_of_all snap [] = []
pushed_of_all snap (q ∷ qs) = pushed_of snap q ++ pushed_of_all snap qs

-- The query with the result of a snapshot.
abbrev pub at_snapshot : Snapshot → Live → Live
at_snapshot snap q = record q { last = q.eval snap }

abbrev pub at_snapshot_all : Snapshot → List Live → List Live
at_snapshot_all snap [] = []
at_snapshot_all snap (q ∷ qs) = at_snapshot snap q ∷ at_snapshot_all snap qs

reevaluate_lem :
    (snap : Snapshot) (q : Live)
    → HasOrder snap q
    → reevaluate snap q ≡ (pushed_of snap q, at_snapshot snap q)
unfolding reevaluate
reevaluate_lem snap q (s, t) = elim (Bool-cases (is_empty_diff (between q.last (q.eval snap)))) [
  | inl e ↦ rw e (λ i. ([], record q { last = is_empty_diff-between q.last (q.eval snap) s t e i }))
  | inr e ↦ rw e refl
]

reevaluate_all_lem :
    (snap : Snapshot) (qs : List Live)
    → All (HasOrder snap) qs
    → reevaluate_all snap qs ≡ (pushed_of_all snap qs, at_snapshot_all snap qs)
reevaluate_all_lem snap [] h = refl
reevaluate_all_lem snap (q ∷ qs) h = λ i. (
  (reevaluate_lem snap q h.0 i).0 ++ (reevaluate_all_lem snap qs h.1 i).0,
  (reevaluate_lem snap q h.0 i).1 ∷ (reevaluate_all_lem snap qs h.1 i).1,
)

-- A change pushes the differences that are not empty, in the order of the queries, and leaves every
-- query with its result on the new snapshot, where the results are in order.
pub on_change_lem :
    (snap : Snapshot) (r : LiveQueries)
    → All (HasOrder snap) r.queries
    → on_change snap r
      ≡ (pushed_of_all snap r.queries, record r { queries = at_snapshot_all snap r.queries })
unfolding on_change
on_change_lem snap r h = λ i. (
  (reevaluate_all_lem snap r.queries h i).0,
  record r { queries = (reevaluate_all_lem snap r.queries h i).1 },
)

-- One operation of a registry.
pub data Step : LiveQueries → LiveQueries → Type 0 where
  registers :
      {r : LiveQueries} (snap : Snapshot) (eval : Snapshot → BTreeSet NodeId)
      → Step r ((register snap eval r).1)
  deregisters : {r : LiveQueries} (id : QueryId) → Step r (deregister id r)
  changes : {r : LiveQueries} (snap : Snapshot) → Step r ((on_change snap r).1)

pub data Reachable : LiveQueries → Type 0 where
  fresh : (max : ℕ) → Reachable (new_queries max)
  stepped : {r after : LiveQueries} → Reachable r → Step r after → Reachable after

abbrev pub ids : List Live → List QueryId
ids [] = []
ids (q ∷ qs) = q.id ∷ ids qs

-- Numbers that ascend and stay under a bound.
abbrev pub Ascends : ℕ → List ℕ → Type 0
Ascends top [] = Unit
Ascends top (n ∷ ns) = (n < top) × All (λ m. n < m) ns × Ascends top ns

-- The registry holds at most its maximum of queries, and their ids are distinct and given out.
pub record IsBounded (r : LiveQueries) : Type 0 where
  pub count : length r.queries ≤ r.max
  pub ascending : Ascends r.next (ids r.queries)

All-under :
    (n top : ℕ) (ns : List ℕ) → n < top → All (λ m. n < m) ns → All (λ m. n < m) (ns ++ top ∷ [])
All-under n top [] h a = (h, tt)
All-under n top (m ∷ ns) h a = (a.0, All-under n top ns h a.1)

Ascends-snoc : (top : ℕ) (ns : List ℕ) → Ascends top ns → Ascends (top + 1) (ns ++ top ∷ [])
Ascends-snoc top [] a = (omega arith, tt, tt)
Ascends-snoc top (n ∷ ns) a =
    (omega (arith, a.0), All-under n top ns a.0 a.1, Ascends-snoc top ns a.2)

ids-append : (qs rs : List Live) → ids (qs ++ rs) ≡ ids qs ++ ids rs
ids-append [] rs = refl
ids-append (q ∷ qs) rs = ap (◌∷◌ q.id) (ids-append qs rs)

register-IsBounded :
    (snap : Snapshot) (eval : Snapshot → BTreeSet NodeId) (r : LiveQueries)
    → IsBounded r
    → IsBounded (register snap eval r).1
unfolding register
register-IsBounded snap eval r b = elim (Bool-cases (leb r.max (length r.queries))) [
  | inl e ↦ rw e b
  | inr e ↦ rw e (record {
    count = ground (arith, e, length-append r.queries (entered ∷ []));
    ascending =
        subst (Ascends (r.next + 1)) (sym (ids-append r.queries (entered ∷ [])))
          (Ascends-snoc r.next (ids r.queries) b.ascending);
  })
]
  where
    entered : Live
    entered = record { id = r.next; eval = eval; last = eval snap }

All-filter :
    (P : ℕ → Type 0) (p : Live → Bool) (qs : List Live) → All P (ids qs) → All P (ids (filter p qs))
All-filter P p [] a = tt
All-filter P p (q ∷ qs) a = elim (Bool-cases (p q)) [
  | inl e ↦ rw e (a.0, All-filter P p qs a.1)
  | inr e ↦ rw e (All-filter P p qs a.1)
]

filter-Ascends :
    (top : ℕ) (p : Live → Bool) (qs : List Live)
    → Ascends top (ids qs)
    → Ascends top (ids (filter p qs))
filter-Ascends top p [] a = tt
filter-Ascends top p (q ∷ qs) a = elim (Bool-cases (p q)) [
  | inl e ↦ rw e (a.0, All-filter (λ m. q.id < m) p qs a.1, filter-Ascends top p qs a.2)
  | inr e ↦ rw e (filter-Ascends top p qs a.2)
]

length-filter : (p : Live → Bool) (qs : List Live) → length (filter p qs) ≤ length qs
length-filter p [] = omega arith
length-filter p (q ∷ qs) = ground (arith, length-filter p qs)

ids-reevaluate : (snap : Snapshot) (q : Live) → (reevaluate snap q).1.id ≡ q.id
unfolding reevaluate
ids-reevaluate snap q = elim (Bool-cases (is_empty_diff (between q.last (q.eval snap)))) [
  | inl e ↦ rw e refl
  | inr e ↦ rw e refl
]

ids-reevaluate_all : (snap : Snapshot) (qs : List Live) → ids (reevaluate_all snap qs).1 ≡ ids qs
ids-reevaluate_all snap [] = refl
ids-reevaluate_all snap (q ∷ qs) = λ i. ids-reevaluate snap q i ∷ ids-reevaluate_all snap qs i

length-ids : (qs : List Live) → length (ids qs) ≡ length qs
length-ids [] = refl
length-ids (q ∷ qs) = ap suc (length-ids qs)

-- A registry that any operations reached from a new one holds at most its maximum of queries, and
-- their ids are distinct and below the next one.
pub Reachable-IsBounded : {r : LiveQueries} → Reachable r → IsBounded r
unfolding deregister on_change
Reachable-IsBounded (fresh max) = record { count = omega arith; ascending = tt }
Reachable-IsBounded (stepped {r} reached (registers snap eval)) =
    register-IsBounded snap eval r (Reachable-IsBounded reached)
Reachable-IsBounded (stepped {r} reached (deregisters id)) =
    let b = Reachable-IsBounded reached in
    record {
      count = omega (arith, b.count, length-filter (λ q. not (q.id == id)) r.queries);
      ascending = filter-Ascends r.next (λ q. not (q.id == id)) r.queries b.ascending;
    }
Reachable-IsBounded (stepped {r} reached (changes snap)) =
    let b = Reachable-IsBounded reached in
    let same = ids-reevaluate_all snap r.queries in
    record {
      count = omega (
        arith,
        b.count,
        length-ids r.queries,
        length-ids (reevaluate_all snap r.queries).1,
        ap length same,
      );
      ascending = subst (Ascends r.next) (sym same) b.ascending;
    }
