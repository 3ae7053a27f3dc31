-- ===== src/Fold/Refresh/Nodes.antt =====
-- crates/stroma-core/src/fold.rs, `Fold::observe_node_into`: what a snapshot holds of one node.
use stromadb.Base.{ℕ, ◌≡◌, refl, arith, Option, none, some, inl, inr}
use stromadb.Base.Tests.{map_option, if◌then◌else◌, Bool-cases}
use stromadb.Base.Map.{BTreeMap, get, remove, get-insert}
use stromadb.Base.Map.Sorted.{IsSorted, insert-IsSorted}
use stromadb.Base.Map.Entries.{get-remove, remove-IsSorted}
use stromadb.Base.Order.{is_eq, nat_ord, pair_ord}
use stromadb.Fact.{FieldId, NodeId}
use stromadb.Fold.Keys.{ObjKey, OrderKey}
use stromadb.Fold.State.{Key, Label, NodeAttrState, Fold}
use stromadb.Fold.Observe.{Snapshot}
use stromadb.Fold.Gc.{show, observe_node_into}
use stromadb.Fold.Refresh.Entry.{entry}
use stromadb.Fold.Refresh.Indexed.{IsIndexed}

-- The attributes of one node.
pub record NodeEntry : Type 0 where
  pub ty : Option FieldId
  pub label : Option Label

abbrev pub node_entry : NodeId → Snapshot → NodeEntry
node_entry n s = record { ty = get n s.node_types; label = get n s.node_labels }

abbrev pub shown_node : Option NodeAttrState → NodeEntry
shown_node none = record { ty = none; label = none }
shown_node (some st) = record {
  ty = map_option (λ r. r.1) st.ty;
  label = map_option (λ r. r.1) st.label;
}

pub record NodesInOrder (s : Snapshot) : Type 0 where
  pub types : IsSorted s.node_types
  pub labels : IsSorted s.node_labels

-- The step of `observe_node_into` on the attributes that the fold stores.
abbrev node_step : NodeId → Option NodeAttrState → Snapshot → Snapshot
node_step n o snap =
    let types = remove n snap.node_types in
    let labels = remove n snap.node_labels in
    elim o [
      | none ↦ record snap { node_types = types; node_labels = labels }
      | some st ↦ record snap {
        node_types = show n st.ty types;
        node_labels = show n st.label labels;
      }
    ]

module _ {A : Type 0} (n : NodeId) where
  get-show :
      (j : NodeId) (r : Option (OrderKey × A)) (m : BTreeMap NodeId A)
      → IsSorted m
      → get j (show n r (remove n m)) ≡ (if is_eq n j then map_option (λ x. x.1) r else get j m)
  get-show j none m s = get-remove j n m s
  get-show j (some (ok, a)) m s = ground (arith, get-insert j n a (remove n m), get-remove j n m s)

  show-IsSorted :
      (r : Option (OrderKey × A)) (m : BTreeMap NodeId A) → IsSorted m → IsSorted (show n r m)
  show-IsSorted none m s = s
  show-IsSorted (some (ok, a)) m s = insert-IsSorted n a m s

node_entry-node_step :
    (n j : NodeId) (o : Option NodeAttrState) (s : Snapshot)
    → NodesInOrder s
    → node_entry j (node_step n o s) ≡ (if is_eq n j then shown_node o else node_entry j s)
node_entry-node_step n j none s h = elim (Bool-cases (is_eq n j)) [
  | inl e ↦ rw (get-remove j n s.node_types h.types, get-remove j n s.node_labels h.labels, e) refl
  | inr e ↦ rw (get-remove j n s.node_types h.types, get-remove j n s.node_labels h.labels, e) refl
]
node_entry-node_step n j (some st) s h = elim (Bool-cases (is_eq n j)) [
  | inl e ↦
      rw (get-show n j st.ty s.node_types h.types, get-show n j st.label s.node_labels h.labels, e)
        refl
  | inr e ↦
      rw (get-show n j st.ty s.node_types h.types, get-show n j st.label s.node_labels h.labels, e)
        refl
]

node_step-NodesInOrder :
    (n : NodeId) (o : Option NodeAttrState) (s : Snapshot)
    → NodesInOrder s
    → NodesInOrder (node_step n o s)
node_step-NodesInOrder n none s h = record {
  types = remove-IsSorted n s.node_types h.types;
  labels = remove-IsSorted n s.node_labels h.labels;
}
node_step-NodesInOrder n (some st) s h = record {
  types = show-IsSorted n st.ty (remove n s.node_types) (remove-IsSorted n s.node_types h.types);
  labels =
      show-IsSorted n st.label (remove n s.node_labels) (remove-IsSorted n s.node_labels h.labels);
}

entry-node_step :
    (k : Key) (n : NodeId) (o : Option NodeAttrState) (s : Snapshot)
    → entry k (node_step n o s) ≡ entry k s
entry-node_step k n none s = refl
entry-node_step k n (some st) s = refl

module _ (value_hash : ObjKey → ℕ) where
  -- The maps by key are as they were, so they stay in order and indexed.
  node_step-IsIndexed :
      (n : NodeId) (o : Option NodeAttrState) (s : Snapshot)
      → IsIndexed value_hash s
      → IsIndexed value_hash (node_step n o s)
  node_step-IsIndexed n none s h = record {
    ordered = record {
      one = h.ordered.one;
      one_history = h.ordered.one_history;
      many = h.ordered.many;
      many_history = h.ordered.many_history;
      edge_props = h.ordered.edge_props;
      fact_labels = h.ordered.fact_labels;
    };
    counts = h.counts;
    index = h.index;
  }
  node_step-IsIndexed n (some st) s h = record {
    ordered = record {
      one = h.ordered.one;
      one_history = h.ordered.one_history;
      many = h.ordered.many;
      many_history = h.ordered.many_history;
      edge_props = h.ordered.edge_props;
      fact_labels = h.ordered.fact_labels;
    };
    counts = h.counts;
    index = h.index;
  }

  pub observe_node_into-IsIndexed :
      (f : Fold) (n : NodeId) (s : Snapshot)
      → IsIndexed value_hash s
      → IsIndexed value_hash (observe_node_into f n s)
  unfolding observe_node_into
  observe_node_into-IsIndexed f n s h = node_step-IsIndexed n (get n f.node_attrs) s h

pub node_entry-observe_node_into :
    (f : Fold) (n j : NodeId) (s : Snapshot)
    → NodesInOrder s
    → node_entry j (observe_node_into f n s)
      ≡ (if is_eq n j then shown_node (get n f.node_attrs) else node_entry j s)
unfolding observe_node_into
node_entry-observe_node_into f n j s h = node_entry-node_step n j (get n f.node_attrs) s h

pub observe_node_into-NodesInOrder :
    (f : Fold) (n : NodeId) (s : Snapshot) → NodesInOrder s → NodesInOrder (observe_node_into f n s)
unfolding observe_node_into
observe_node_into-NodesInOrder f n s h = node_step-NodesInOrder n (get n f.node_attrs) s h

pub entry-observe_node_into :
    (f : Fold) (k : Key) (n : NodeId) (s : Snapshot) → entry k (observe_node_into f n s) ≡ entry k s
unfolding observe_node_into
entry-observe_node_into f k n s = entry-node_step k n (get n f.node_attrs) s
