-- ===== src/Fold/Gc/State.antt =====
-- crates/stroma-core/src/fold.rs, `Fold::gc`: the state of a key is shown as before.
use stromadb.Base.{ℕ, ◌≡◌, refl, ap, ◌∙◌, true, not, Option, none, some, [], ◌∷◌, inl, inr, arith}
use stromadb.Base.Tests.{◌>>=◌, map_option, Option-cases}
use stromadb.Base.Lists.{is_empty}
use stromadb.Base.Map.{BTreeMap, BTreeSet, get, get-retain}
use stromadb.Base.Map.Sorted.{retain-retain, keep_if}
use stromadb.Base.Order.{is_lt, nat_ord, pair_ord}
use stromadb.Fold.Keys.{ObjKey, OrderKey, obj_ord, order_ord}
use stromadb.Fold.State.{Key, Label, Rows, OneState, ManyState, KeyState}
use stromadb.Fold.Observe.{
  Snapshot, LabelStore, Elements, no_elements, above_floor, is_live, element_live, note_labels,
  show_element, observe_element, observe_elements, observe_rows, observe_one, observe_labels,
  observe_many, observe_state,
}
use stromadb.Fold.Gc.{gc_state, gc_labels, floor_of}
use stromadb.Fold.Gc.Rows.{AgreeAbove, note_labels_agree, live_above, observe_elements-collected}

keep_nonempty :
    (ok : OrderKey) (rows : BTreeMap OrderKey Label)
    → (keep_if (λ r. not (is_empty r)) (some rows) >>= get ok) ≡ get ok rows
unfolding get
keep_nonempty ok [] = refl
keep_nonempty ok (r ∷ rows) = refl

floor_of-gc_state : (st : KeyState) → floor_of (gc_state st) ≡ floor_of st
unfolding gc_state
floor_of-gc_state (KeyState.one s) = ground arith
floor_of-gc_state (KeyState.many s) = ground arith

-- The label store that `gc` leaves for a key with the given state.
abbrev pub stored_after : Option KeyState → LabelStore → LabelStore
stored_after st stored =
    keep_if (λ rows. not (is_empty rows)) (map_option (gc_labels (map_option gc_state st)) stored)

abbrev pub floor_at : Option KeyState → Option OrderKey
floor_at st = st >>= floor_of

floor_at-gc : (st : Option KeyState) → floor_at (map_option gc_state st) ≡ floor_at st
floor_at-gc none = refl
floor_at-gc (some st) = floor_of-gc_state st

get-gc_labels :
    (st : Option KeyState) (rows : BTreeMap OrderKey Label) (ok : OrderKey)
    → above_floor (floor_at st) ok ≡ true
    → get ok (gc_labels (map_option gc_state st) rows) ≡ get ok rows
unfolding gc_labels
get-gc_labels st rows ok a = elim (Option-cases (floor_at st)) [
  | inl e ↦ ground (arith, floor_at-gc st)
  | inr (h, e) ↦ ground (arith, floor_at-gc st, get-retain (is_lt h) ok rows)
]

stored_after-AgreeAbove :
    (st : Option KeyState) (stored : LabelStore)
    → AgreeAbove (floor_at st) (stored_after st stored) stored
stored_after-AgreeAbove st none ok a = refl
stored_after-AgreeAbove st (some rows) ok a =
    keep_nonempty ok (gc_labels (map_option gc_state st) rows) ∙ get-gc_labels st rows ok a

observe_elements_agree :
    (s : ManyState) (a b : LabelStore) (elems : BTreeMap ObjKey Rows) (e : Elements)
    → AgreeAbove s.hd a b
    → observe_elements a s elems e ≡ observe_elements b s elems e
unfolding observe_elements observe_element
observe_elements_agree s a b [] e agree = refl
observe_elements_agree s a b ((object, rows) ∷ elems) e agree =
    ap (λ noted. observe_elements a s elems (show_element object (element_live s rows) noted e))
      (note_labels_agree s.hd a b (is_live s) rows e.labels agree (live_above s))
    ∙ observe_elements_agree s a b elems _ agree

module _ (value_hash : ObjKey → ℕ) where
  observe_one-gc :
      (versions : Rows) (hd : Option OrderKey) (stored : LabelStore) (k : Key) (snap : Snapshot)
      → let st = some (KeyState.one (record { versions = versions; hd = hd })) in
        observe_state value_hash (stored_after st stored) (map_option gc_state st) k snap
        ≡ observe_state value_hash stored st k snap
  unfolding observe_state gc_state
  observe_one-gc versions none stored k snap =
      let s : OneState = record { versions = versions; hd = none } in
      ap (λ noted. observe_labels value_hash noted k (observe_one value_hash s k snap))
        (note_labels_agree none _ stored (above_floor none) versions []
          (stored_after-AgreeAbove (some (KeyState.one s)) stored) (λ ok l. l))
  observe_one-gc versions (some h) stored k snap =
      let s : OneState = record { versions = versions; hd = some h } in
      let a = stored_after (some (KeyState.one s)) stored in
      ap
        (λ rows.
          observe_labels value_hash (note_labels a rows []) k (observe_rows value_hash rows k snap))
        (retain-retain (is_lt h) (is_lt h) versions (λ ok l. l))
      ∙ ap (λ noted. observe_labels value_hash noted k (observe_one value_hash s k snap))
          (note_labels_agree (some h) a stored (is_lt h) versions []
            (stored_after-AgreeAbove (some (KeyState.one s)) stored) (λ ok l. l))

  observe_many-gc :
      (elems : BTreeMap ObjKey Rows) (removes : BTreeSet OrderKey) (hd : Option OrderKey)
      (stored : LabelStore) (k : Key) (snap : Snapshot)
      → let st = some (KeyState.many (record { elems = elems; removes = removes; hd = hd })) in
        observe_state value_hash (stored_after st stored) (map_option gc_state st) k snap
        ≡ observe_state value_hash stored st k snap
  unfolding observe_state gc_state
  observe_many-gc elems removes none stored k snap =
      let s : ManyState = record { elems = elems; removes = removes; hd = none } in
      ap (λ (e : Elements). observe_labels value_hash e.labels k (observe_many value_hash e k snap))
        (observe_elements_agree s _ stored elems no_elements
          (stored_after-AgreeAbove (some (KeyState.many s)) stored))
  observe_many-gc elems removes (some h) stored k snap =
      let s : ManyState = record { elems = elems; removes = removes; hd = some h } in
      ap (λ (e : Elements). observe_labels value_hash e.labels k (observe_many value_hash e k snap))
        (observe_elements-collected h s _ stored refl
          (stored_after-AgreeAbove (some (KeyState.many s)) stored) elems no_elements)

  pub observe_state-gc :
      (st : Option KeyState) (stored : LabelStore) (k : Key) (snap : Snapshot)
      → observe_state value_hash (stored_after st stored) (map_option gc_state st) k snap
        ≡ observe_state value_hash stored st k snap
  unfolding observe_state
  observe_state-gc none stored k snap = refl
  observe_state-gc (some (KeyState.one s)) stored k snap =
      observe_one-gc s.versions s.hd stored k snap
  observe_state-gc (some (KeyState.many s)) stored k snap =
      observe_many-gc s.elems s.removes s.hd stored k snap
