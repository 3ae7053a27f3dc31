-- ===== src/Fold/Refresh/Entry.antt =====
-- crates/stroma-core/src/fold.rs, `Fold::observe_key_into`: what a snapshot holds at one key.
use stromadb.Base.{ℕ, ◌≡◌, refl, Option, none, List, inl, inr}
use stromadb.Base.Tests.{if◌then◌else◌, Bool-cases}
use stromadb.Base.Map.{BTreeMap, BTreeSet, get}
use stromadb.Base.Map.Sorted.{IsSorted}
use stromadb.Base.Map.Entries.{get-remove, remove-IsSorted}
use stromadb.Base.Order.{is_eq, nat_ord, pair_ord}
use stromadb.Fact.{Str}
use stromadb.Fold.Keys.{ObjKey, OrderKey, obj_ord, order_ord}
use stromadb.Fold.State.{Key, Label}
use stromadb.Fold.Observe.{VersionRow, Snapshot, forget_key}

-- The entries of one key.
pub record Entry : Type 0 where
  pub one : Option (Option ObjKey)
  pub one_history : Option (List VersionRow)
  pub many : Option (BTreeSet ObjKey)
  pub many_history : Option (BTreeMap ObjKey (List VersionRow))
  pub edge_props : Option (BTreeMap ObjKey (BTreeMap Str ObjKey))
  pub fact_labels : Option (BTreeMap OrderKey Label)

abbrev pub entry : Key → Snapshot → Entry
entry k s = record {
  one = get k s.one;
  one_history = get k s.one_history;
  many = get k s.many;
  many_history = get k s.many_history;
  edge_props = get k s.edge_props;
  fact_labels = get k s.fact_labels;
}

-- Every map of the snapshot that is read by key is in order.
pub record InOrder (s : Snapshot) : Type 0 where
  pub one : IsSorted s.one
  pub one_history : IsSorted s.one_history
  pub many : IsSorted s.many
  pub many_history : IsSorted s.many_history
  pub edge_props : IsSorted s.edge_props
  pub fact_labels : IsSorted s.fact_labels

abbrev pub no_entry : Entry
no_entry = record {
  one = none;
  one_history = none;
  many = none;
  many_history = none;
  edge_props = none;
  fact_labels = none;
}

module _ (value_hash : ObjKey → ℕ) where
  pub forget_key-InOrder :
      (k : Key) (s : Snapshot) → InOrder s → InOrder (forget_key value_hash k s)
  unfolding forget_key
  forget_key-InOrder k s h = record {
    one = remove-IsSorted k s.one h.one;
    one_history = remove-IsSorted k s.one_history h.one_history;
    many = remove-IsSorted k s.many h.many;
    many_history = remove-IsSorted k s.many_history h.many_history;
    edge_props = remove-IsSorted k s.edge_props h.edge_props;
    fact_labels = remove-IsSorted k s.fact_labels h.fact_labels;
  }

  pub entry-forget_key :
      (j k : Key) (s : Snapshot)
      → InOrder s
      → entry j (forget_key value_hash k s) ≡ (if is_eq k j then no_entry else entry j s)
  unfolding forget_key
  entry-forget_key j k s h = elim (Bool-cases (is_eq k j)) [
    | inl e ↦
        rw
          (
            get-remove j k s.one h.one,
            get-remove j k s.one_history h.one_history,
            get-remove j k s.many h.many,
            get-remove j k s.many_history h.many_history,
            get-remove j k s.edge_props h.edge_props,
            get-remove j k s.fact_labels h.fact_labels,
            e,
          )
          refl
    | inr e ↦
        rw
          (
            get-remove j k s.one h.one,
            get-remove j k s.one_history h.one_history,
            get-remove j k s.many h.many,
            get-remove j k s.many_history h.many_history,
            get-remove j k s.edge_props h.edge_props,
            get-remove j k s.fact_labels h.fact_labels,
            e,
          )
          refl
  ]
