-- ===== src/Fold/Gc.antt =====
-- crates/stroma-core/src/fold.rs, `Fold::observe_node_into`, `Fold::observe` and `Fold::gc`.
mod Rows
mod State
mod Labels
pub mod Observed
use stromadb.Base.{ℕ, Bool, not, Option, none, some, List, [], ◌∷◌}
use stromadb.Base.Tests.{is_some, ◌>>=◌}
use stromadb.Base.Lists.{is_empty}
use stromadb.Base.Map.{
  BTreeMap, get, insert, remove, keys, retain, retain_values, map_values, extend,
}
use stromadb.Base.Order.{is_lt, nat_ord, pair_ord}
use stromadb.Fact.{FieldId, NodeId}
use stromadb.Fold.Keys.{ObjKey, OrderKey, obj_ord, order_ord}
use stromadb.Fold.State.{Key, Label, KeyState, NodeAttrState, Fold}
use stromadb.Fold.Observe.{Snapshot, empty_snapshot, above_floor, observe_keys_into}

-- A register with a value puts it in the map.
abbrev pub show {ℓ} :
    {A : Type ℓ} → NodeId → Option (OrderKey × A) → BTreeMap NodeId A → BTreeMap NodeId A
show n none m = m
show n (some (ok, a)) m = insert n a m

unfoldable pub observe_node_into : Fold → NodeId → Snapshot → Snapshot
observe_node_into f n snap =
    let types = remove n snap.node_types in
    let labels = remove n snap.node_labels in
    elim (get n f.node_attrs) [
      | none ↦ record snap { node_types = types; node_labels = labels }
      | some st ↦ record snap {
        node_types = show n st.ty types;
        node_labels = show n st.label labels;
      }
    ]

unfoldable pub observe_nodes_into : Fold → List NodeId → Snapshot → Snapshot
unfolding observe_node_into
observe_nodes_into f [] snap = snap
observe_nodes_into f (n ∷ ns) snap = observe_nodes_into f ns (observe_node_into f n snap)

-- The graph keys and the keys of edge properties, ascending.
abbrev pub observed_keys : Fold → List Key
observed_keys f = keys (extend (keys f.edge_props) (extend (keys f.keys) []))

unfoldable pub observe : (ObjKey → ℕ) → Fold → Snapshot
unfolding observe_keys_into observe_nodes_into
observe value_hash f =
    observe_nodes_into f (keys f.node_attrs)
      (observe_keys_into value_hash f (observed_keys f) empty_snapshot)

abbrev pub floor_of : KeyState → Option OrderKey
floor_of (KeyState.one s) = s.hd
floor_of (KeyState.many s) = s.hd

-- What `gc` keeps of the state of a key with a floor, and of a key with none.
unfoldable pub gc_state : KeyState → KeyState
gc_state (KeyState.one s) = elim s.hd [
  | none ↦ KeyState.one s
  | some h ↦ KeyState.one (record s { versions = retain (is_lt h) s.versions })
]
gc_state (KeyState.many s) = elim s.hd [
  | none ↦ KeyState.many s
  | some h ↦ KeyState.many (record s {
    elems =
        retain_values (λ rows. not (is_empty rows))
          (map_values (λ _ rows. retain (is_lt h) rows) s.elems);
    removes = retain (is_lt h) s.removes;
  })
]

-- The labels of one key, over the floor of its state.
unfoldable pub gc_labels : Option KeyState → BTreeMap OrderKey Label → BTreeMap OrderKey Label
gc_labels st rows = elim (st >>= floor_of) [ none ↦ rows | some h ↦ retain (is_lt h) rows ]

unfoldable pub gc : Fold → Fold
unfolding gc_state gc_labels
gc f =
    let ks = map_values (λ _ st. gc_state st) f.keys in
    record f {
      keys = ks;
      fact_labels =
          retain_values (λ rows. not (is_empty rows))
            (map_values (λ k rows. gc_labels (get k ks) rows) f.fact_labels);
    }
