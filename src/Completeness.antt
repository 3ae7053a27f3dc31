-- ===== src/Completeness.antt =====
-- crates/stroma-core/src/completeness.rs: the required predicates that a node of a type lacks.
pub mod Values
pub mod Reported
use stromadb.Base.{
  ℕ, ◌/◌, ◌%◌, ◌^◌, Bool, true, false, not, ◌&&◌, ◌||◌, Option, none, some, List, [], ◌∷◌,
}
use stromadb.Base.Tests.{◌==◌, ltb, leb, ◌>>=◌, if◌then◌else◌, is_some}
use stromadb.Base.Lists.{is_empty}
use stromadb.Base.Map.{BTreeMap, get}
use stromadb.Base.Order.{nat_ord}
use stromadb.Fact.{FieldId, NodeId, Str}
use stromadb.Catalog.{Catalog, field_id}
use stromadb.Fold.Observe.{Snapshot}
use stromadb.Mask.{Facts}
use stromadb.Query.{point_one}
use stromadb.Query.Expand.{expand}

pub record Incomplete : Type 0 where
  pub node : NodeId
  pub missing : List Str

abbrev pub unknown_names : Catalog → List Str → List Str
unknown_names cat [] = []
unknown_names cat (n ∷ ns) =
    let rest = unknown_names cat ns in if is_some (field_id cat n) then rest else n ∷ rest

unfoldable pub unresolved_names : Str → List Str → Catalog → List Str
unfolding field_id
unresolved_names type_name required cat = unknown_names cat (type_name ∷ required)

-- `(allowed_labels >> l) & 1 == 1`, where a shift by 32 or more overflows the word.
abbrev pub label_seen : ℕ → Option ℕ → Option Bool
label_seen allowed_labels none = some true
label_seen allowed_labels (some l) =
    if ltb l 32 then some (allowed_labels / 2 ^ l % 2 == 1) else none

unfoldable pub visible : Snapshot → NodeId → ℕ → Option Bool
visible snap node allowed_labels = label_seen allowed_labels (get node snap.node_labels)

unfoldable pub present : Facts → NodeId → Option FieldId → Bool
unfolding point_one expand
present facts node none = false
present facts node (some p) =
    is_some (point_one facts node p) || not (is_empty (expand facts node p))

-- `required.iter().map(|p| (p, cat.field_id(p)))`
abbrev pub resolved : Catalog → List Str → List (Str × Option FieldId)
resolved cat [] = []
resolved cat (p ∷ ps) = (p, field_id cat p) ∷ resolved cat ps

abbrev pub missing_of : Facts → NodeId → List (Str × Option FieldId) → List Str
missing_of facts n [] = []
missing_of facts n ((name, pid) ∷ ps) =
    let rest = missing_of facts n ps in if present facts n pid then rest else name ∷ rest

-- The visible nodes of a type; the labels of the others are not looked at.
abbrev pub nodes_of : Snapshot → FieldId → ℕ → List (NodeId × FieldId) → Option (List NodeId)
nodes_of snap ty allowed [] = some []
nodes_of snap ty allowed ((n, t) ∷ ts) =
    let rest = nodes_of snap ty allowed ts in
    if t == ty
    then (do seen ← visible snap n allowed; ns ← rest; some (if seen then n ∷ ns else ns))
    else rest

-- `sort_unstable`
abbrev pub insert_id : NodeId → List NodeId → List NodeId
insert_id n [] = n ∷ []
insert_id n (m ∷ ms) = let rest = insert_id n ms in if leb n m then n ∷ m ∷ ms else m ∷ rest

abbrev pub sort_ids : List NodeId → List NodeId
sort_ids [] = []
sort_ids (n ∷ ns) = insert_id n (sort_ids ns)

abbrev pub incompletes : Facts → List (Str × Option FieldId) → List NodeId → List Incomplete
incompletes facts required [] = []
incompletes facts required (n ∷ ns) =
    let rest = incompletes facts required ns in
    let missing = missing_of facts n required in
    if is_empty missing then rest else record { node = n; missing = missing } ∷ rest

unfoldable pub evaluate : Facts → Catalog → Str → List Str → ℕ → Option (List Incomplete)
unfolding field_id present visible
evaluate facts cat type_name required principal_labels = elim (field_id cat type_name) [
  | none ↦ some []
  | some ty ↦ do
    nodes ← nodes_of facts.underlying ty principal_labels facts.underlying.node_types
    some (incompletes facts (resolved cat required) (sort_ids nodes))
]
