-- ===== src/Fold/Refresh/Indexed.antt =====
-- crates/stroma-core/src/fold.rs, `Fold::observe_key_into`: the snapshot keeps its counts and its
-- reverse index in step with its maps.
use mathlib.Core.Path.{subst}
use stromadb.Base.{
  ℕ, ◌≡◌, refl, sym, ap, ◌∙◌, Bool, true, false, Option, none, some, List, [], inl, inr,
}
use stromadb.Base.Tests.{if◌then◌else◌, Bool-cases}
use stromadb.Base.Lists.{is_empty, last}
use stromadb.Base.Map.{BTreeMap, values, get, insert, remove}
use stromadb.Base.Map.Sorted.{IsSorted, insert-IsSorted}
use stromadb.Base.Map.Entries.{get-remove, remove-absent}
use stromadb.Base.Order.{is_eq_refl, nat_ord, pair_ord}
use stromadb.Fold.Keys.{ObjKey, OrderKey, obj_ord, order_ord}
use stromadb.Fold.State.{Key, Label, Rows, KeyState, EdgeProps, Fold}
use stromadb.Fold.Observe
use stromadb.Fold.Observe.{
  VersionRow, Snapshot, Elements, empty_snapshot, forget_key, observe_props, observe_rows,
  observe_one, one_live, observe_many, observe_labels, observe_state, observe_key_into,
  observe_elements, no_elements, note_labels, project_props, version_rows, add_counts, drop_counts,
  remove_values, insert_values,
}
use stromadb.Fold.Refresh.Entry.{InOrder, forget_key-InOrder}
use stromadb.Fold.Refresh.Writers.{
  observe_rows-IsWriter, observe_many-IsWriter, observe_props-IsWriter,
}
use stromadb.Fold.Refresh.Counts.{Counts, Labeled, counts_of, counts_of-insert, counts_of-remove}
use stromadb.Fold.Refresh.Values.{
  Index, Histories, hashes, values_of, values_of-insert, values_of-remove,
}

module _ (value_hash : ObjKey → ℕ) where
  pub record IsIndexed (s : Snapshot) : Type 0 where
    pub ordered : InOrder s
    pub counts : s.fact_label_counts ≡ counts_of s.fact_labels
    pub index : s.one_values ≡ values_of value_hash s.one_history

  dropped_counts :
      (k : Key) (m : Labeled) (c : Counts) (o : Option (BTreeMap OrderKey Label))
      → IsSorted m
      → c ≡ counts_of m
      → get k m ≡ o
      → (elim o [ none ↦ c | some old ↦ drop_counts (values old) c ]) ≡ counts_of (remove k m)
  dropped_counts k m c none s e g = e ∙ ap counts_of (sym (remove-absent k m g))
  dropped_counts k m c (some old) s e g =
      ap (drop_counts (values old)) e ∙ counts_of-remove k old m s g

  removed_values :
      (k : Key) (m : Histories) (c : Index) (o : Option (List VersionRow))
      → IsSorted m
      → c ≡ values_of value_hash m
      → get k m ≡ o
      → (elim o [ none ↦ c | some old ↦ remove_values value_hash k (hashes value_hash old) c ])
        ≡ values_of value_hash (remove k m)
  removed_values k m c none s e g = e ∙ ap (values_of value_hash) (sym (remove-absent k m g))
  removed_values k m c (some old) s e g =
      ap (remove_values value_hash k (hashes value_hash old)) e
      ∙ values_of-remove value_hash k old m s g

  forget_key-IsIndexed :
      (k : Key) (s : Snapshot) → IsIndexed s → IsIndexed (forget_key value_hash k s)
  unfolding forget_key
  forget_key-IsIndexed k s h = record {
    ordered = forget_key-InOrder value_hash k s h.ordered;
    counts =
        dropped_counts k s.fact_labels s.fact_label_counts (get k s.fact_labels)
          h.ordered.fact_labels h.counts refl;
    index =
        removed_values k s.one_history s.one_values (get k s.one_history) h.ordered.one_history
          h.index refl;
  }

  -- The two maps that are indexed lack the key.
  record IsForgotten (k : Key) (s : Snapshot) : Type 0 where
    pub history : get k s.one_history ≡ none
    pub labels : get k s.fact_labels ≡ none

  forget_key-IsForgotten :
      (k : Key) (s : Snapshot) → InOrder s → IsForgotten k (forget_key value_hash k s)
  unfolding forget_key
  forget_key-IsForgotten k s h = record {
    history = get-remove k k s.one_history h.one_history ∙ rw (is_eq_refl k) refl;
    labels = get-remove k k s.fact_labels h.fact_labels ∙ rw (is_eq_refl k) refl;
  }

  -- A step that touches neither the labels nor the histories.
  record IsAside (w : Snapshot → Snapshot) : Type 0 where
    pub counts : (s : Snapshot) → (w s).fact_label_counts ≡ s.fact_label_counts
    pub labels : (s : Snapshot) → (w s).fact_labels ≡ s.fact_labels
    pub values : (s : Snapshot) → (w s).one_values ≡ s.one_values
    pub history : (s : Snapshot) → (w s).one_history ≡ s.one_history

  IsAside-IsIndexed :
      (w : Snapshot → Snapshot) (s : Snapshot)
      → IsAside w
      → InOrder (w s)
      → IsIndexed s
      → IsIndexed (w s)
  IsAside-IsIndexed w s a o h = record {
    ordered = o;
    counts = a.counts s ∙ h.counts ∙ ap counts_of (sym (a.labels s));
    index = a.values s ∙ h.index ∙ ap (values_of value_hash) (sym (a.history s));
  }

  IsAside-IsForgotten :
      (w : Snapshot → Snapshot) (k : Key) (s : Snapshot)
      → IsAside w
      → IsForgotten k s
      → IsForgotten k (w s)
  IsAside-IsForgotten w k s a h = record {
    history = ap (get k) (a.history s) ∙ h.history;
    labels = ap (get k) (a.labels s) ∙ h.labels;
  }

  IsAside-if :
      (b : Bool) (w v : Snapshot → Snapshot)
      → IsAside w
      → IsAside v
      → IsAside (λ s. if b then w s else v s)
  IsAside-if true w v a c = a
  IsAside-if false w v a c = c

  observe_props-IsAside :
      (props : Option EdgeProps) (k : Key) → IsAside (observe_props value_hash props k)
  unfolding observe_props
  observe_props-IsAside none k = record {
    counts = λ s. refl;
    labels = λ s. refl;
    values = λ s. refl;
    history = λ s. refl;
  }
  observe_props-IsAside (some objs) k =
      IsAside-if (is_empty (project_props objs)) _ _
        (record { counts = λ s. refl; labels = λ s. refl; values = λ s. refl; history = λ s. refl })
        (record { counts = λ s. refl; labels = λ s. refl; values = λ s. refl; history = λ s. refl })

  observe_many-IsAside : (els : Elements) (k : Key) → IsAside (observe_many value_hash els k)
  unfolding observe_many
  observe_many-IsAside els k = record {
    counts = λ s. refl;
    labels = λ s. refl;
    values = λ s. refl;
    history = λ s. refl;
  }

  -- The step of `observe_rows` on the last row.
  abbrev last_row_step : Key → List VersionRow → Option VersionRow → Snapshot → Snapshot
  last_row_step k rows o snap = elim o [
    | none ↦ snap
    | some (ok, top, valid_from, valid_to) ↦ record snap {
      one = insert k top snap.one;
      one_history = insert k rows snap.one_history;
      one_values = insert_values value_hash k (hashes value_hash rows) snap.one_values;
    }
  ]

  last_row_step-IsIndexed :
      (k : Key) (rows : List VersionRow) (o : Option VersionRow) (s : Snapshot)
      → InOrder (last_row_step k rows o s)
      → IsForgotten k s
      → IsIndexed s
      → IsIndexed (last_row_step k rows o s)
  last_row_step-IsIndexed k rows none s ordered g h = h
  last_row_step-IsIndexed k rows (some (ok, top, vf, vt)) s ordered g h = record {
    ordered = ordered;
    counts = h.counts;
    index =
        ap (insert_values value_hash k (hashes value_hash rows)) h.index
        ∙ sym (values_of-insert value_hash k rows s.one_history g.history);
  }

  last_row_step-fact_labels :
      (k : Key) (rows : List VersionRow) (o : Option VersionRow) (s : Snapshot)
      → (last_row_step k rows o s).fact_labels ≡ s.fact_labels
  last_row_step-fact_labels k rows none s = refl
  last_row_step-fact_labels k rows (some (ok, top, vf, vt)) s = refl

  observe_rows-IsIndexed :
      (live : Rows) (k : Key) (s : Snapshot)
      → IsForgotten k s
      → IsIndexed s
      → IsIndexed (observe_rows value_hash live k s)
  unfolding observe_rows
  observe_rows-IsIndexed live k s g h =
      last_row_step-IsIndexed k (version_rows live) (last (version_rows live)) s
        ((observe_rows-IsWriter value_hash k live).ordered s h.ordered) g h

  observe_rows-fact_labels :
      (live : Rows) (k : Key) (s : Snapshot)
      → (observe_rows value_hash live k s).fact_labels ≡ s.fact_labels
  unfolding observe_rows
  observe_rows-fact_labels live k s =
      last_row_step-fact_labels k (version_rows live) (last (version_rows live)) s

  observe_labels-IsIndexed :
      (noted : BTreeMap OrderKey Label) (k : Key) (s : Snapshot)
      → get k s.fact_labels ≡ none
      → IsIndexed s
      → IsIndexed (observe_labels value_hash noted k s)
  unfolding observe_labels
  observe_labels-IsIndexed noted k s g h = elim (Bool-cases (is_empty noted)) [
    | inl e ↦ subst (λ b. IsIndexed (if b then s else noted_at)) (sym e) h
    | inr e ↦
        subst (λ b. IsIndexed (if b then s else noted_at)) (sym e)
          (record {
            ordered = record {
              one = h.ordered.one;
              one_history = h.ordered.one_history;
              many = h.ordered.many;
              many_history = h.ordered.many_history;
              edge_props = h.ordered.edge_props;
              fact_labels = insert-IsSorted k noted s.fact_labels h.ordered.fact_labels;
            };
            counts =
                ap (add_counts (values noted)) h.counts
                ∙ sym (counts_of-insert k noted s.fact_labels g);
            index = h.index;
          })
  ]
    where
      noted_at : Snapshot
      noted_at = record s {
        fact_label_counts = add_counts (values noted) s.fact_label_counts;
        fact_labels = insert k noted s.fact_labels;
      }

  observe_state-IsIndexed :
      (stored : Observe.LabelStore) (st : Option KeyState) (k : Key) (s : Snapshot)
      → IsForgotten k s
      → IsIndexed s
      → IsIndexed (observe_state value_hash stored st k s)
  unfolding observe_state observe_one
  observe_state-IsIndexed stored none k s g h = h
  observe_state-IsIndexed stored (some (KeyState.one st)) k s g h =
      let live = one_live st in
      observe_labels-IsIndexed (note_labels stored live []) k (observe_rows value_hash live k s)
        (ap (get k) (observe_rows-fact_labels live k s) ∙ g.labels)
        (observe_rows-IsIndexed live k s g h)
  observe_state-IsIndexed stored (some (KeyState.many st)) k s g h =
      let els = observe_elements stored st st.elems no_elements in
      let aside = observe_many-IsAside els k in
      observe_labels-IsIndexed els.labels k (observe_many value_hash els k s)
        (IsAside-IsForgotten (observe_many value_hash els k) k s aside g).labels
        (IsAside-IsIndexed (observe_many value_hash els k) s aside
          ((observe_many-IsWriter value_hash k els).ordered s h.ordered) h)

  -- `observe_key_into` keeps the maps of a snapshot in order, its counts the counts of its labels,
  -- and its reverse index the index of its histories.
  pub observe_key_into-IsIndexed :
      (f : Fold) (k : Key) (s : Snapshot)
      → IsIndexed s
      → IsIndexed (observe_key_into value_hash f k s)
  unfolding observe_key_into
  observe_key_into-IsIndexed f k s h =
      let gone = forget_key value_hash k s in
      let props = get k f.edge_props in
      let aside = observe_props-IsAside props k in
      let forgotten = forget_key-IsForgotten k s h.ordered in
      let before = forget_key-IsIndexed k s h in
      observe_state-IsIndexed (get k f.fact_labels) (get k f.keys) k
        (observe_props value_hash props k gone)
        (IsAside-IsForgotten (observe_props value_hash props k) k gone aside forgotten)
        (IsAside-IsIndexed (observe_props value_hash props k) gone aside
          ((observe_props-IsWriter value_hash k props).ordered gone before.ordered) before)

  pub empty_snapshot-IsIndexed : IsIndexed empty_snapshot
  unfolding counts_of values_of
  empty_snapshot-IsIndexed = record {
    ordered = record {
      one = tt;
      one_history = tt;
      many = tt;
      many_history = tt;
      edge_props = tt;
      fact_labels = tt;
    };
    counts = refl;
    index = refl;
  }
