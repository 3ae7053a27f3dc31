-- ===== src/Query/Closure.antt =====
-- crates/stroma-core/src/query.rs, `expand_rel_at`: the expansion of a predicate with its declared
-- properties. The loop of the program counts `hops` up to `max_depth`; here it counts down what is
-- left, so it needs no fuel.
pub mod Walks
pub mod Relation
use stromadb.Base.{
  ℕ, zero, suc, Bool, true, false, not, ◌&&◌, ◌||◌, Option, none, some, List, [], ◌∷◌,
}
use stromadb.Base.Int.{ℤ}
use stromadb.Base.Tests.{if◌then◌else◌, is_some, map_option}
use stromadb.Base.Lists.{is_empty}
use stromadb.Base.Map.{BTreeSet, get, get_or, keys, retain, contains, set_insert, extend}
use stromadb.Base.Order.{nat_ord}
use stromadb.Fact.{FieldId, NodeId}
use stromadb.Catalog
use stromadb.Catalog.{Catalog, PredicateDef, RelProps}
use stromadb.Mask.{Facts}
use stromadb.Query.Expand.{expand, expand_asof, Reverse, reverse_adjacency, reverse_adjacency_asof}

-- `if result.insert(*n) { newly.push(*n) }` for each node: the new ones, and the set with all.
abbrev pub insert_new : List NodeId → BTreeSet NodeId → List NodeId × BTreeSet NodeId
insert_new [] result = ([], result)
insert_new (n ∷ ns) result =
    let (newly, whole) = insert_new ns (set_insert n result) in
    (if contains n result then newly else n ∷ newly, whole)

module _ (step : NodeId → BTreeSet NodeId) where
  abbrev pub steps : List NodeId → BTreeSet NodeId → BTreeSet NodeId
  steps [] next = next
  steps (n ∷ ns) next = steps ns (extend (keys (step n)) next)

  -- The loop, with the number of hops that are left.
  unfoldable pub walk : ℕ → BTreeSet NodeId → BTreeSet NodeId → BTreeSet NodeId
  walk zero current result = (insert_new (keys current) result).1
  walk (suc left) current result =
      let (newly, whole) = insert_new (keys current) result in
      let rest = walk left (retain (λ v. not (contains v whole)) (steps newly [])) whole in
      if is_empty newly then whole else rest

  unfoldable pub closure : NodeId → ℕ → BTreeSet NodeId
  unfolding walk
  closure subject zero = []
  closure subject (suc left) = walk left (step subject) []

-- `hop`, `rev_of`
abbrev pub hop : Facts → Option ℤ → NodeId → FieldId → BTreeSet NodeId
hop snap none node p = expand snap node p
hop snap (some t) node p = expand_asof snap node p t

abbrev pub rev_of : Facts → Option ℤ → FieldId → Reverse
rev_of snap none p = reverse_adjacency snap p
rev_of snap (some t) p = reverse_adjacency_asof snap p t

abbrev pub no_props : RelProps
no_props = record { symmetric = false; transitive = false; inverse = none }

unfoldable pub props_of : Catalog → FieldId → RelProps
props_of catalog predicate = elim (Catalog.predicate catalog predicate) [
  | none ↦ no_props
  | some d ↦ d.props
]

-- `if let Some(r) = &rev && let Some(s) = r.get(&node) { out.extend(s) }`
abbrev pub extend_back : Option Reverse → NodeId → BTreeSet NodeId → BTreeSet NodeId
extend_back none node out = out
extend_back (some rev) node out = extend (keys (get_or [] node rev)) out

-- `props.symmetric.then(…)`
abbrev pub then_some : Bool → Reverse → Option Reverse
then_some true rev = some rev
then_some false rev = none

-- One hop of a predicate with its properties.
unfoldable pub rel_step : Facts → Option ℤ → FieldId → RelProps → NodeId → BTreeSet NodeId
rel_step snap at predicate props node =
    extend_back (map_option (rev_of snap at) props.inverse) node (
      extend_back (then_some props.symmetric (rev_of snap at predicate)) node
        (hop snap at node predicate))

-- The body of `expand_rel_at`, with the properties that the predicate declares.
unfoldable pub expand_with : Facts → Option ℤ → FieldId → RelProps → NodeId → ℕ → BTreeSet NodeId
unfolding rel_step closure
expand_with snap at predicate props subject max_depth =
    if not props.symmetric && not props.transitive && not (is_some props.inverse)
    then hop snap at subject predicate
    else (if props.transitive
        then closure (rel_step snap at predicate props) subject max_depth
        else rel_step snap at predicate props subject)

unfoldable pub expand_rel_at : Facts → Catalog → NodeId → FieldId → ℕ → Option ℤ → BTreeSet NodeId
unfolding props_of expand_with
expand_rel_at snap catalog subject predicate max_depth at =
    expand_with snap at predicate (props_of catalog predicate) subject max_depth

unfoldable pub expand_rel : Facts → Catalog → NodeId → FieldId → ℕ → BTreeSet NodeId
unfolding expand_rel_at
expand_rel snap catalog subject predicate max_depth =
    expand_rel_at snap catalog subject predicate max_depth none

unfoldable pub expand_rel_asof : Facts → Catalog → NodeId → FieldId → ℕ → ℤ → BTreeSet NodeId
unfolding expand_rel_at
expand_rel_asof snap catalog subject predicate max_depth at =
    expand_rel_at snap catalog subject predicate max_depth (some at)
