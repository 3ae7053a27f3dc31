-- ===== src/Fold/Gc/Observed.antt =====
-- crates/stroma-core/src/fold.rs, `Fold::gc`: what it drops no observation shows.
use stromadb.Base.{ℕ, ◌≡◌, refl, ap, ◌∙◌, not, some, List, [], ◌∷◌}
use stromadb.Base.Tests.{map_option}
use stromadb.Base.Lists.{is_empty}
use stromadb.Base.Map.{BTreeMap, get, keys, extend, map_values, get-map_values}
use stromadb.Base.Map.Sorted.{
  IsSorted, get-retain_values, map_values-IsSorted, keys-map_values, keep_if,
}
use stromadb.Base.Order.{nat_ord, pair_ord}
use stromadb.Fold.Keys.{ObjKey, OrderKey, obj_ord, order_ord}
use stromadb.Fold.State.{Key, Label, Fold}
use stromadb.Fact.{NodeId}
use stromadb.Fold.Apply.{fold_labeled}
use stromadb.Fold.Parts.{Write}
use stromadb.Fold.Observe.{
  forget_key, observe_props, empty_snapshot, Snapshot, observe_state, observe_key_into,
  observe_keys_into,
}
use stromadb.Fold.Gc.{
  gc, gc_state, gc_labels, observe, observed_keys, observe_nodes_into, observe_node_into,
}
use stromadb.Fold.Gc.State.{stored_after, observe_state-gc}
use stromadb.Fold.Gc.Labels.{fact_labels-IsSorted}

edge_props-gc : (f : Fold) → (gc f).edge_props ≡ f.edge_props
unfolding gc
edge_props-gc f = refl

observe_nodes_into-gc :
    (f : Fold) (ns : List NodeId) (snap : Snapshot)
    → observe_nodes_into (gc f) ns snap ≡ observe_nodes_into f ns snap
unfolding observe_nodes_into gc
observe_nodes_into-gc f [] snap = refl
observe_nodes_into-gc f (n ∷ ns) snap = observe_nodes_into-gc f ns (observe_node_into f n snap)

module _ (value_hash : ObjKey → ℕ) where
  keys-gc : (f : Fold) (k : Key) → get k (gc f).keys ≡ map_option gc_state (get k f.keys)
  unfolding gc
  keys-gc f k = get-map_values (λ _ st. gc_state st) k f.keys

  labels-gc :
      (f : Fold) (k : Key)
      → IsSorted f.fact_labels
      → get k (gc f).fact_labels ≡ stored_after (get k f.keys) (get k f.fact_labels)
  unfolding gc
  labels-gc f k sorted =
      let ks = map_values (λ _ st. gc_state st) f.keys in
      let over : Key → BTreeMap OrderKey Label → BTreeMap OrderKey Label =
        λ j rows. gc_labels (get j ks) rows in
      get-retain_values k (λ rows. not (is_empty rows)) (map_values over f.fact_labels)
        (map_values-IsSorted over f.fact_labels sorted)
      ∙ ap (keep_if (λ rows. not (is_empty rows))) (get-map_values over k f.fact_labels)
      ∙ ap
          (λ st.
            keep_if (λ rows. not (is_empty rows)) (map_option (gc_labels st) (get k f.fact_labels)))
          (keys-gc f k)

  observe_key_into-gc :
      (f : Fold) (k : Key) (snap : Snapshot)
      → IsSorted f.fact_labels
      → observe_key_into value_hash (gc f) k snap ≡ observe_key_into value_hash f k snap
  unfolding observe_key_into
  observe_key_into-gc f k snap sorted =
      let before = observe_props value_hash (get k f.edge_props) k (forget_key value_hash k snap) in
      (λ i.
        observe_state value_hash (labels-gc f k sorted i) (keys-gc f k i) k
          (observe_props value_hash (get k (edge_props-gc f i)) k (forget_key value_hash k snap)))
      ∙ observe_state-gc value_hash (get k f.keys) (get k f.fact_labels) k before

  observe_keys_into-gc :
      (f : Fold) (ks : List Key) (snap : Snapshot)
      → IsSorted f.fact_labels
      → observe_keys_into value_hash (gc f) ks snap ≡ observe_keys_into value_hash f ks snap
  unfolding observe_keys_into
  observe_keys_into-gc f [] snap sorted = refl
  observe_keys_into-gc f (k ∷ ks) snap sorted =
      ap (observe_keys_into value_hash (gc f) ks) (observe_key_into-gc f k snap sorted)
      ∙ observe_keys_into-gc f ks (observe_key_into value_hash f k snap) sorted

  observed_keys-gc : (f : Fold) → observed_keys (gc f) ≡ observed_keys f
  unfolding gc
  observed_keys-gc f =
      ap (λ ks. keys (extend (keys f.edge_props) (extend ks [])))
        (keys-map_values (λ _ st. gc_state st) f.keys)

  observe-gc_sorted :
      (f : Fold) → IsSorted f.fact_labels → observe value_hash (gc f) ≡ observe value_hash f
  unfolding observe gc
  observe-gc_sorted f sorted =
      ap (λ snap. observe_nodes_into (gc f) (keys (gc f).node_attrs) snap)
        (ap (λ ks. observe_keys_into value_hash (gc f) ks empty_snapshot) (observed_keys-gc f)
          ∙ observe_keys_into-gc f (observed_keys f) empty_snapshot sorted)
      ∙ observe_nodes_into-gc f (keys f.node_attrs) _

-- `gc` does not change the observation of any fold that a stream of labeled operations built.
pub observe-gc :
    (value_hash : ObjKey → ℕ) (ws : List Write) (f : Fold)
    → fold_labeled ws ≡ some f
    → observe value_hash (gc f) ≡ observe value_hash f
observe-gc value_hash ws f e = observe-gc_sorted value_hash f (fact_labels-IsSorted ws f e)
