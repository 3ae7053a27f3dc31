-- ===== src/Fold/Refresh/Writers.antt =====
-- crates/stroma-core/src/fold.rs, `Fold::observe_key_into`: what its parts write at one key.
use stromadb.Base.{ℕ, ◌≡◌, refl, ap, ◌∙◌, Bool, true, false, Option, none, some, List}
use stromadb.Base.Tests.{if◌then◌else◌}
use stromadb.Base.Lists.{is_empty, last}
use stromadb.Base.Map.{BTreeMap, keys, get, insert, get-insert, get-insert_self}
use stromadb.Base.Map.Sorted.{IsSorted, insert-IsSorted}
use stromadb.Base.Order.{is_eq, is_eq_refl, nat_ord, pair_ord}
use stromadb.Fold.Keys.{ObjKey, OrderKey, obj_ord, order_ord}
use stromadb.Fold.State.{Key, Label, Rows, EdgeProps}
use stromadb.Fold.Observe.{
  insert_values, row_value_hashes, VersionRow, Snapshot, Elements, observe_props, observe_rows,
  observe_many, observe_labels, project_props, version_rows,
}
use stromadb.Fold.Refresh.Entry.{Entry, entry, InOrder}

if_same {ℓ} : {A : Type ℓ} (b : Bool) (a : A) → (if b then a else a) ≡ a
if_same true a = refl
if_same false a = refl

module _ {V : Type 0} where
  get-insert_if :
      (j k : Key) (b : Bool) (v : V) (m : BTreeMap Key V)
      → get j (if b then m else insert k v m)
        ≡ (if b then get j m else (if is_eq k j then some v else get j m))
  get-insert_if j k true v m = refl
  get-insert_if j k false v m = get-insert j k v m

  insert_if-IsSorted :
      (k : Key) (b : Bool) (v : V) (m : BTreeMap Key V)
      → IsSorted m
      → IsSorted (if b then m else insert k v m)
  insert_if-IsSorted k true v m s = s
  insert_if-IsSorted k false v m s = insert-IsSorted k v m s

module _ (value_hash : ObjKey → ℕ) where
  -- What a key shows: its properties, then its rows.
  abbrev pub with_props : Option EdgeProps → Entry → Entry
  with_props none e = e
  with_props (some objs) e =
      if is_empty (project_props objs)
      then e
      else record e { edge_props = some (project_props objs) }

  abbrev pub with_rows : Rows → Entry → Entry
  with_rows live e = elim (last (version_rows live)) [
    | none ↦ e
    | some (ok, top, valid_from, valid_to) ↦ record e {
      one = some top;
      one_history = some (version_rows live);
    }
  ]

  abbrev pub with_elements : Elements → Entry → Entry
  with_elements els e = record e {
    many = if is_empty els.present then e.many else some els.present;
    many_history = if is_empty els.history then e.many_history else some els.history;
  }

  abbrev pub with_labels : BTreeMap OrderKey Label → Entry → Entry
  with_labels noted e = if is_empty noted then e else record e { fact_labels = some noted }

  -- A writer of one key: it leaves the entries of the other keys and keeps the maps in order.
  pub record IsWriter (k : Key) (effect : Entry → Entry) (w : Snapshot → Snapshot) : Type 0 where
    pub at : (s : Snapshot) → entry k (w s) ≡ effect (entry k s)
    pub away : (j : Key) (s : Snapshot) → is_eq k j ≡ false → entry j (w s) ≡ entry j s
    pub ordered : (s : Snapshot) → InOrder s → InOrder (w s)
    pub types : (s : Snapshot) → (w s).node_types ≡ s.node_types
    pub node_labels : (s : Snapshot) → (w s).node_labels ≡ s.node_labels

  pub IsWriter-compose :
      (k : Key) (e g : Entry → Entry) (w v : Snapshot → Snapshot)
      → IsWriter k e w
      → IsWriter k g v
      → IsWriter k (λ x. g (e x)) (λ s. v (w s))
  IsWriter-compose k e g w v a b = record {
    at = λ s. b.at (w s) ∙ ap g (a.at s);
    away = λ j s h. b.away j (w s) h ∙ a.away j s h;
    ordered = λ s h. b.ordered (w s) (a.ordered s h);
    types = λ s. b.types (w s) ∙ a.types s;
    node_labels = λ s. b.node_labels (w s) ∙ a.node_labels s;
  }

  pub IsWriter-id : (k : Key) → IsWriter k (λ e. e) (λ s. s)
  IsWriter-id k = record {
    at = λ s. refl;
    away = λ j s h. refl;
    ordered = λ s h. h;
    types = λ s. refl;
    node_labels = λ s. refl;
  }

  IsWriter-if :
      (k : Key) (b : Bool) (e g : Entry → Entry) (w v : Snapshot → Snapshot)
      → IsWriter k e w
      → IsWriter k g v
      → IsWriter k (λ x. if b then e x else g x) (λ s. if b then w s else v s)
  IsWriter-if k true e g w v a c = a
  IsWriter-if k false e g w v a c = c

  pub observe_props-IsWriter :
      (k : Key) (props : Option EdgeProps)
      → IsWriter k (with_props props) (observe_props value_hash props k)
  unfolding observe_props
  observe_props-IsWriter k none = IsWriter-id k
  observe_props-IsWriter k (some objs) =
      IsWriter-if k (is_empty (project_props objs)) _ _ _ _ (IsWriter-id k) (record {
        types = λ s. refl;
        node_labels = λ s. refl;
        at = λ s. rw (get-insert_self k (project_props objs) s.edge_props) refl;
        away = λ j s h. rw (get-insert j k (project_props objs) s.edge_props, h) refl;
        ordered = λ s h. record {
          one = h.one;
          one_history = h.one_history;
          many = h.many;
          many_history = h.many_history;
          edge_props = insert-IsSorted k (project_props objs) s.edge_props h.edge_props;
          fact_labels = h.fact_labels;
        };
      })

  last_row-IsWriter :
      (k : Key) (rows : List VersionRow) (o : Option VersionRow)
      → IsWriter k
          (λ e. elim o [
            | none ↦ e
            | some (ok, top, valid_from, valid_to) ↦ record e {
              one = some top;
              one_history = some rows;
            }
          ])
          (λ snap. elim o [
            | none ↦ snap
            | some (ok, top, valid_from, valid_to) ↦ record snap {
              one = insert k top snap.one;
              one_history = insert k rows snap.one_history;
              one_values =
                  insert_values value_hash k
                    (keys (row_value_hashes value_hash rows))
                    snap.one_values;
            }
          ])
  last_row-IsWriter k rows none = IsWriter-id k
  last_row-IsWriter k rows (some (ok, top, valid_from, valid_to)) = record {
    types = λ s. refl;
    node_labels = λ s. refl;
    at = λ s. rw (get-insert_self k top s.one, get-insert_self k rows s.one_history) refl;
    away = λ j s h. rw (get-insert j k top s.one, get-insert j k rows s.one_history, h) refl;
    ordered = λ s h. record {
      one = insert-IsSorted k top s.one h.one;
      one_history = insert-IsSorted k rows s.one_history h.one_history;
      many = h.many;
      many_history = h.many_history;
      edge_props = h.edge_props;
      fact_labels = h.fact_labels;
    };
  }

  pub observe_rows-IsWriter :
      (k : Key) (live : Rows) → IsWriter k (with_rows live) (observe_rows value_hash live k)
  unfolding observe_rows
  observe_rows-IsWriter k live = last_row-IsWriter k (version_rows live) (last (version_rows live))

  pub observe_labels-IsWriter :
      (k : Key) (noted : BTreeMap OrderKey Label)
      → IsWriter k (with_labels noted) (observe_labels value_hash noted k)
  unfolding observe_labels
  observe_labels-IsWriter k noted = IsWriter-if k (is_empty noted) _ _ _ _ (IsWriter-id k) (record {
    types = λ s. refl;
    node_labels = λ s. refl;
    at = λ s. rw (get-insert_self k noted s.fact_labels) refl;
    away = λ j s h. rw (get-insert j k noted s.fact_labels, h) refl;
    ordered = λ s h. record {
      one = h.one;
      one_history = h.one_history;
      many = h.many;
      many_history = h.many_history;
      edge_props = h.edge_props;
      fact_labels = insert-IsSorted k noted s.fact_labels h.fact_labels;
    };
  })

  pub observe_many-IsWriter :
      (k : Key) (els : Elements) → IsWriter k (with_elements els) (observe_many value_hash els k)
  unfolding observe_many
  observe_many-IsWriter k els = record {
    types = λ s. refl;
    node_labels = λ s. refl;
    at = λ s.
        rw
          (
            get-insert_if k k (is_empty els.present) els.present s.many,
            get-insert_if k k (is_empty els.history) els.history s.many_history,
            is_eq_refl k,
          )
          refl;
    away = λ j s h.
        rw
          (
            get-insert_if j k (is_empty els.present) els.present s.many,
            get-insert_if j k (is_empty els.history) els.history s.many_history,
            h,
            if_same (is_empty els.present) (get j s.many),
            if_same (is_empty els.history) (get j s.many_history),
          )
          refl;
    ordered = λ s h. record {
      one = h.one;
      one_history = h.one_history;
      many = insert_if-IsSorted k (is_empty els.present) els.present s.many h.many;
      many_history =
          insert_if-IsSorted k (is_empty els.history) els.history s.many_history h.many_history;
      edge_props = h.edge_props;
      fact_labels = h.fact_labels;
    };
  }
