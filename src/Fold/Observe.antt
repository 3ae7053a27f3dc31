-- ===== src/Fold/Observe.antt =====
-- crates/stroma-core/src/fold.rs, `Snapshot`, `Fold::observe` and `Fold::gc`.
-- The hash of a value is a parameter: it is the compiler's derived `Hash` of the key.
use stromadb.Base.{ℕ, ◌+◌, ◌-◌, Bool, true, not, ◌&&◌, Option, none, some, List, [], ◌∷◌}
use stromadb.Base.Int.{ℤ}
use stromadb.Base.Tests.{◌==◌, if◌then◌else◌, ◌>>=◌}
use stromadb.Base.Lists.{is_empty, last}
use stromadb.Base.Map.{
  BTreeMap, BTreeSet, get, insert, remove, get_or, keys, values, retain, map_values, set_insert,
  contains,
}
use stromadb.Base.Order.{is_lt, nat_ord, list_ord, pair_ord}
use stromadb.Fact.{FieldId, NodeId, Str}
use stromadb.Fold.Keys.{ObjKey, OrderKey, obj_ord, order_ord}
use stromadb.Fold.State.{Key, Label, Rows, OneState, ManyState, KeyState, EdgeProps, Fold}

-- `(order key, object, valid_from, valid_to)`
abbrev pub VersionRow : Type 0
VersionRow = OrderKey × Option ObjKey × ℤ × Option ℤ

abbrev pub ValueEntry : Type 0
ValueEntry = FieldId × (ℕ × NodeId)

pub record Snapshot : Type 0 where
  pub one : BTreeMap Key (Option ObjKey)
  pub one_history : BTreeMap Key (List VersionRow)
  pub many : BTreeMap Key (BTreeSet ObjKey)
  pub many_history : BTreeMap Key (BTreeMap ObjKey (List VersionRow))
  pub edge_props : BTreeMap Key (BTreeMap ObjKey (BTreeMap Str ObjKey))
  pub node_types : BTreeMap NodeId FieldId
  pub node_labels : BTreeMap NodeId Label
  pub fact_labels : BTreeMap Key (BTreeMap OrderKey Label)
  pub fact_label_counts : BTreeMap Label ℕ
  pub one_values : BTreeSet ValueEntry

-- `Snapshot::default`
abbrev pub empty_snapshot : Snapshot
empty_snapshot = record {
  one = [];
  one_history = [];
  many = [];
  many_history = [];
  edge_props = [];
  node_types = [];
  node_labels = [];
  fact_labels = [];
  fact_label_counts = [];
  one_values = [];
}

-- `hd.is_none_or(|h| ok > h)`
abbrev pub above_floor : Option OrderKey → OrderKey → Bool
above_floor none ok = true
above_floor (some h) ok = is_lt h ok

unfoldable pub one_live : OneState → Rows
one_live s = retain (above_floor s.hd) s.versions

-- Neither removed nor at or below the floor.
abbrev pub is_live : ManyState → OrderKey → Bool
is_live s ok = not (contains ok s.removes) && above_floor s.hd ok

unfoldable pub element_live : ManyState → Rows → Rows
element_live s rows = retain (is_live s) rows

unfoldable pub version_rows : Rows → List VersionRow
version_rows [] = []
version_rows ((ok, v) ∷ rows) = (ok, v.object, v.valid_from, v.valid_to) ∷ version_rows rows

abbrev pub LabelStore : Type 0
LabelStore = Option (BTreeMap OrderKey Label)

-- The closure `note`: the label of a row is noted if it has one.
abbrev pub note : OrderKey → Option Label → BTreeMap OrderKey Label → BTreeMap OrderKey Label
note ok none noted = noted
note ok (some l) noted = insert ok l noted

unfoldable pub note_labels : LabelStore → Rows → BTreeMap OrderKey Label → BTreeMap OrderKey Label
note_labels stored [] noted = noted
note_labels stored ((ok, v) ∷ rows) noted =
    note_labels stored rows (note ok (stored >>= get ok) noted)

-- The values of the property registers of one key.
unfoldable pub project_props : EdgeProps → BTreeMap ObjKey (BTreeMap Str ObjKey)
project_props = map_values (λ _ props. map_values (λ _ reg. reg.value) props)

pub record Elements : Type 0 where
  pub present : BTreeSet ObjKey
  pub history : BTreeMap ObjKey (List VersionRow)
  pub labels : BTreeMap OrderKey Label

abbrev pub present_if_add : ObjKey → Option ObjKey → BTreeSet ObjKey → BTreeSet ObjKey
present_if_add object none s = s
present_if_add object (some _) s = set_insert object s

-- What an element shows by its live rows.
unfoldable pub show_element : ObjKey → Rows → BTreeMap OrderKey Label → Elements → Elements
unfolding version_rows
show_element object live noted e = elim (last (version_rows live)) [
  | none ↦ record e { labels = noted }
  | some (ok, top, valid_from, valid_to) ↦ record {
    present = present_if_add object top e.present;
    history = insert object (version_rows live) e.history;
    labels = noted;
  }
]

-- One turn of the loop over the elements of a key.
unfoldable pub observe_element : LabelStore → ManyState → ObjKey → Rows → Elements → Elements
unfolding element_live show_element note_labels
observe_element stored s object rows e =
    let live = element_live s rows in show_element object live (note_labels stored live e.labels) e

unfoldable pub observe_elements :
    LabelStore → ManyState → BTreeMap ObjKey Rows → Elements → Elements
unfolding observe_element
observe_elements stored s [] e = e
observe_elements stored s ((object, rows) ∷ elems) e =
    observe_elements stored s elems (observe_element stored s object rows e)

abbrev pub no_elements : Elements
no_elements = record { present = []; history = []; labels = [] }

-- A count that reaches zero leaves the map.
abbrev pub drop_count : Label → BTreeMap Label ℕ → BTreeMap Label ℕ
drop_count l counts = elim (get l counts) [
  | none ↦ counts
  | some c ↦ if (c - 1) == 0 then remove l counts else insert l (c - 1) counts
]

unfoldable pub drop_counts : List Label → BTreeMap Label ℕ → BTreeMap Label ℕ
drop_counts [] counts = counts
drop_counts (l ∷ ls) counts = drop_counts ls (drop_count l counts)

unfoldable pub add_counts : List Label → BTreeMap Label ℕ → BTreeMap Label ℕ
add_counts [] counts = counts
add_counts (l ∷ ls) counts = add_counts ls (insert l (get_or 0 l counts + 1) counts)

module _ (value_hash : ObjKey → ℕ) where
  -- `row_value_hashes`: the distinct hashes of the values that the rows carry.
  unfoldable pub row_value_hashes : List VersionRow → BTreeSet ℕ
  row_value_hashes [] = []
  row_value_hashes ((ok, none, valid_from, valid_to) ∷ rows) = row_value_hashes rows
  row_value_hashes ((ok, some v, valid_from, valid_to) ∷ rows) =
      set_insert (value_hash v) (row_value_hashes rows)

  unfoldable pub remove_values : Key → List ℕ → BTreeSet ValueEntry → BTreeSet ValueEntry
  remove_values k [] s = s
  remove_values k (h ∷ hs) s = remove_values k hs (remove (k.1, (h, k.0)) s)

  unfoldable pub insert_values : Key → List ℕ → BTreeSet ValueEntry → BTreeSet ValueEntry
  insert_values k [] s = s
  insert_values k (h ∷ hs) s = insert_values k hs (set_insert (k.1, (h, k.0)) s)

  -- The first part of `observe_key_into`: the key leaves every map of the snapshot.
  unfoldable pub forget_key : Key → Snapshot → Snapshot
  unfolding row_value_hashes remove_values drop_counts
  forget_key k snap = record snap {
    one = remove k snap.one;
    one_history = remove k snap.one_history;
    one_values = elim (get k snap.one_history) [
      | none ↦ snap.one_values
      | some old ↦ remove_values k (keys (row_value_hashes old)) snap.one_values
    ];
    many = remove k snap.many;
    many_history = remove k snap.many_history;
    edge_props = remove k snap.edge_props;
    fact_labels = remove k snap.fact_labels;
    fact_label_counts = elim (get k snap.fact_labels) [
      | none ↦ snap.fact_label_counts
      | some old ↦ drop_counts (values old) snap.fact_label_counts
    ];
  }

  unfoldable pub observe_props : Option EdgeProps → Key → Snapshot → Snapshot
  unfolding project_props
  observe_props none k snap = snap
  observe_props (some objs) k snap =
      let projected = project_props objs in
      if is_empty projected
      then snap
      else record snap { edge_props = insert k projected snap.edge_props }

  -- What the live rows of a One key show.
  unfoldable pub observe_rows : Rows → Key → Snapshot → Snapshot
  unfolding version_rows row_value_hashes insert_values
  observe_rows live k snap =
      let rows = version_rows live in
      elim (last rows) [
        | none ↦ snap
        | some (ok, top, valid_from, valid_to) ↦ record snap {
          one = insert k top snap.one;
          one_history = insert k rows snap.one_history;
          one_values = insert_values k (keys (row_value_hashes rows)) snap.one_values;
        }
      ]

  unfoldable pub observe_one : OneState → Key → Snapshot → Snapshot
  unfolding one_live observe_rows
  observe_one s k snap = observe_rows (one_live s) k snap

  unfoldable pub observe_many : Elements → Key → Snapshot → Snapshot
  observe_many e k snap =
      let shown = if is_empty e.present then snap.many else insert k e.present snap.many in
      let told =
        if is_empty e.history then snap.many_history else insert k e.history snap.many_history in
      record snap { many = shown; many_history = told }

  unfoldable pub observe_labels : BTreeMap OrderKey Label → Key → Snapshot → Snapshot
  unfolding add_counts
  observe_labels noted k snap = if is_empty noted then snap else record snap {
    fact_label_counts = add_counts (values noted) snap.fact_label_counts;
    fact_labels = insert k noted snap.fact_labels;
  }

  unfoldable pub observe_state : LabelStore → Option KeyState → Key → Snapshot → Snapshot
  unfolding observe_one observe_elements observe_many observe_labels note_labels
  observe_state stored none k snap = snap
  observe_state stored (some (KeyState.one s)) k snap =
      observe_labels (note_labels stored (one_live s) []) k (observe_one s k snap)
  observe_state stored (some (KeyState.many s)) k snap =
      let e = observe_elements stored s s.elems no_elements in
      observe_labels e.labels k (observe_many e k snap)

  -- `Fold::observe_key_into`
  unfoldable pub observe_key_into : Fold → Key → Snapshot → Snapshot
  unfolding forget_key observe_props observe_state
  observe_key_into f k snap =
      observe_state (get k f.fact_labels) (get k f.keys) k
        (observe_props (get k f.edge_props) k (forget_key k snap))

  unfoldable pub observe_keys_into : Fold → List Key → Snapshot → Snapshot
  unfolding observe_key_into
  observe_keys_into f [] snap = snap
  observe_keys_into f (k ∷ ks) snap = observe_keys_into f ks (observe_key_into f k snap)
