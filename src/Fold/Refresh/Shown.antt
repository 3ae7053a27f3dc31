-- ===== src/Fold/Refresh/Shown.antt =====
-- crates/stroma-core/src/fold.rs, `Fold::observe_key_into`: what a fold shows at one key.
use stromadb.Base.{ℕ, ◌≡◌, refl, sym, ap, ◌∙◌, Option, none, some, [], inl, inr}
use stromadb.Base.Tests.{if◌then◌else◌, Bool-cases}
use stromadb.Base.Map.{get}
use stromadb.Base.Order.{is_eq, is_eq_refl, is_eq→eq, nat_ord, pair_ord}
use stromadb.Fold.Keys.{ObjKey, obj_ord, order_ord}
use stromadb.Fold.State.{Key, KeyState, Fold}
use stromadb.Fold.Observe
use stromadb.Fold.Observe.{
  insert_values, row_value_hashes, VersionRow, Snapshot, Elements, empty_snapshot, forget_key,
  observe_props, observe_rows, observe_one, one_live, observe_many, observe_labels, observe_state,
  observe_key_into, observe_elements, no_elements, note_labels, project_props, version_rows,
}
use stromadb.Fold.Refresh.Entry.{
  Entry, entry, InOrder, no_entry, forget_key-InOrder, entry-forget_key,
}
use stromadb.Fold.Refresh.Writers.{
  with_props, with_rows, with_elements, with_labels, IsWriter, IsWriter-compose, IsWriter-id,
  observe_props-IsWriter, observe_rows-IsWriter, observe_labels-IsWriter, observe_many-IsWriter,
}

module _ (value_hash : ObjKey → ℕ) where
  -- What a fold shows at one key, in terms of what it stores there.
  abbrev pub with_state : Observe.LabelStore → Option KeyState → Entry → Entry
  with_state stored none e = e
  with_state stored (some (KeyState.one s)) e =
      with_labels value_hash (note_labels stored (one_live s) [])
        (with_rows value_hash (one_live s) e)
  with_state stored (some (KeyState.many s)) e =
      let els = observe_elements stored s s.elems no_elements in
      with_labels value_hash els.labels (with_elements value_hash els e)

  observe_state-IsWriter :
      (k : Key) (stored : Observe.LabelStore) (st : Option KeyState)
      → IsWriter value_hash k (with_state stored st) (observe_state value_hash stored st k)
  unfolding observe_state observe_one
  observe_state-IsWriter k stored none = IsWriter-id value_hash k
  observe_state-IsWriter k stored (some (KeyState.one s)) =
      IsWriter-compose value_hash k _ _ _ _ (observe_rows-IsWriter value_hash k (one_live s))
        (observe_labels-IsWriter value_hash k (note_labels stored (one_live s) []))
  observe_state-IsWriter k stored (some (KeyState.many s)) =
      let els = observe_elements stored s s.elems no_elements in
      IsWriter-compose value_hash k _ _ _ _ (observe_many-IsWriter value_hash k els)
        (observe_labels-IsWriter value_hash k els.labels)

  abbrev pub shown : Fold → Key → Entry
  shown f k =
      with_state (get k f.fact_labels) (get k f.keys)
        (with_props value_hash (get k f.edge_props) no_entry)

  written-IsWriter :
      (f : Fold) (k : Key)
      → IsWriter value_hash k
          (λ e.
            with_state
              (get k f.fact_labels)
              (get k f.keys)
              (with_props value_hash (get k f.edge_props) e))
          (λ s.
            observe_state value_hash
              (get k f.fact_labels)
              (get k f.keys)
              k
              (observe_props value_hash (get k f.edge_props) k s))
  written-IsWriter f k =
      IsWriter-compose value_hash k _ _ _ _
        (observe_props-IsWriter value_hash k (get k f.edge_props))
        (observe_state-IsWriter k (get k f.fact_labels) (get k f.keys))

  -- A key that is observed shows what the fold stores there, whatever the snapshot held.
  pub entry-observe_key_into :
      (f : Fold) (k j : Key) (s : Snapshot)
      → InOrder s
      → entry j (observe_key_into value_hash f k s) ≡ (if is_eq k j then shown f k else entry j s)
  unfolding observe_key_into
  entry-observe_key_into f k j s h = elim (Bool-cases (is_eq k j)) [
    | inl e ↦ rw e (
        ap (λ i. entry i (observe_key_into value_hash f k s)) (sym (is_eq→eq k j e))
        ∙ w.at before
        ∙ ap written (entry-forget_key value_hash k k s h ∙ rw (is_eq_refl k) refl))
    | inr e ↦ rw e (w.away j before e ∙ entry-forget_key value_hash j k s h ∙ rw e refl)
  ]
    where
      before : Snapshot
      before = forget_key value_hash k s

      written : Entry → Entry
      written x =
          with_state (get k f.fact_labels) (get k f.keys)
            (with_props value_hash (get k f.edge_props) x)

      w : IsWriter value_hash k written (λ s.
          observe_state value_hash
            (get k f.fact_labels)
            (get k f.keys)
            k
            (observe_props value_hash (get k f.edge_props) k s))
      w = written-IsWriter f k

  pub observe_key_into-InOrder :
      (f : Fold) (k : Key) (s : Snapshot) → InOrder s → InOrder (observe_key_into value_hash f k s)
  unfolding observe_key_into
  observe_key_into-InOrder f k s h =
      (written-IsWriter f k).ordered (forget_key value_hash k s)
        (forget_key-InOrder value_hash k s h)

  pub node_types-observe_key_into :
      (f : Fold) (k : Key) (s : Snapshot)
      → (observe_key_into value_hash f k s).node_types ≡ s.node_types
  unfolding observe_key_into forget_key
  node_types-observe_key_into f k s = (written-IsWriter f k).types (forget_key value_hash k s)

  pub node_labels-observe_key_into :
      (f : Fold) (k : Key) (s : Snapshot)
      → (observe_key_into value_hash f k s).node_labels ≡ s.node_labels
  unfolding observe_key_into forget_key
  node_labels-observe_key_into f k s =
      (written-IsWriter f k).node_labels (forget_key value_hash k s)
