-- ===== src/Mask/Without.antt =====
-- crates/stroma-core/src/mask.rs, `Masked`: the fold without the rows that a mask hides.
use stromadb.Base.{◌≡◌, refl, sym, ap, ◌∙◌, arith, Bool, true, [], ◌∷◌, inl, inr}
use stromadb.Base.Tests.{if◌then◌else◌, ◌>>=◌, Bool-cases}
use stromadb.Base.Lists.{is_empty, All}
use stromadb.Base.Map.{BTreeMap, get, retain, map_values, contains_key}
use stromadb.Base.Order.{nat_ord, pair_ord}
use stromadb.Fold.Keys.{ObjKey, OrderKey, obj_ord, order_ord}
use stromadb.Fold.State.{Key, Label, Rows, OneState, ManyState, KeyState, Fold}
use stromadb.Fold.Observe.{Snapshot, version_rows}
use stromadb.Fold.Refresh.Counts.{counts_of}
use stromadb.Mask.{FactMask, row_visible, visible, non_empty}
use stromadb.Mask.View.{visible_elements}
use stromadb.Mask.Seen.{view, is_seen}
use stromadb.Mask.Elements.{shown_elements, empty-eq}
use stromadb.Mask.Reads.{AllShown, visible-version_rows}

-- Whether the mask shows the row of a key with this order key.
abbrev pub is_shown : FactMask → Fold → Key → OrderKey → Bool
is_shown mask f k ok = row_visible mask k.1 (get k f.fact_labels >>= get ok)

unfoldable pub without_rows : (OrderKey → Bool) → KeyState → KeyState
without_rows p (KeyState.one s) = KeyState.one (record s { versions = retain p s.versions })
without_rows p (KeyState.many s) =
    KeyState.many (record s { elems = map_values (λ _ rows. retain p rows) s.elems })

-- The fold without the hidden rows.
unfoldable pub without_hidden : FactMask → Fold → Fold
unfolding without_rows
without_hidden mask f = record f {
  keys = map_values (λ k st. without_rows (is_shown mask f k) st) f.keys;
}

pub retain_comm {ℓ κ} :
    {K : Type ℓ} {V : Type κ} (p q : K → Bool) (m : BTreeMap K V)
    → retain p (retain q m) ≡ retain q (retain p m)
unfolding retain
retain_comm p q [] = refl
retain_comm p q ((k, v) ∷ m) = ground (arith, retain_comm p q m)

pub found :
    (ok : OrderKey) (noted : BTreeMap OrderKey Label) → (non_empty noted >>= get ok) ≡ get ok noted
unfolding get
found ok [] = refl
found ok (l ∷ noted) = refl

pub is_empty-version_rows : (rows : Rows) → is_empty (version_rows rows) ≡ is_empty rows
unfolding version_rows
is_empty-version_rows [] = refl
is_empty-version_rows (r ∷ rows) = refl

pub shown_elements-AllShown :
    (live : OrderKey → Bool) (elems : BTreeMap ObjKey Rows) → AllShown (shown_elements live elems)
unfolding shown_elements
shown_elements-AllShown live [] = tt
shown_elements-AllShown live ((o, rows) ∷ elems) = elim (Bool-cases (is_empty (retain live rows))) [
  | inl e ↦ rw e (shown_elements-AllShown live elems)
  | inr e ↦ rw e (is_empty-version_rows (retain live rows) ∙ e, shown_elements-AllShown live elems)
]

-- The state without the rows that a test drops.
abbrev pub one_without : (OrderKey → Bool) → OneState → OneState
one_without p s = record s { versions = retain p s.versions }

abbrev pub many_without : (OrderKey → Bool) → ManyState → ManyState
many_without p s = record s { elems = map_values (λ _ rows. retain p rows) s.elems }

module _ (mask : FactMask) (snap : Snapshot) (k : Key)
    (counts : snap.fact_label_counts ≡ counts_of snap.fact_labels) (live p : OrderKey → Bool) where
  pub visible-rows :
      (rows : Rows)
      → ((ok : OrderKey)
          → contains_key ok (retain live rows) ≡ true
          → is_seen mask snap k counts ok ≡ p ok)
      → visible (view mask snap) k (version_rows (retain live rows))
        ≡ version_rows (retain live (retain p rows))
  visible-rows rows h =
      visible-version_rows mask snap k counts p (retain live rows) h
      ∙ ap version_rows (retain_comm p live rows)

  pub visible_elements-shown :
      (elems : BTreeMap ObjKey Rows)
      → All
          (λ x.
            (ok : OrderKey)
            → contains_key ok (retain live x.1) ≡ true
            → is_seen mask snap k counts ok ≡ p ok)
          elems
      → visible_elements (view mask snap) k (shown_elements live elems)
        ≡ shown_elements live (map_values (λ _ rows. retain p rows) elems)
  unfolding shown_elements map_values
  visible_elements-shown [] h = refl
  visible_elements-shown ((o, rows) ∷ elems) h =
      let same = visible-rows rows h.0 in
      let rest = visible_elements-shown elems h.1 in
      elim (Bool-cases (is_empty (retain live rows))) [
        | inl e ↦
            let nothing =
              sym (retain_comm p live rows)
              ∙ ap (retain p) (empty-eq (retain live rows) e)
              ∙ (unfold retain in refl) in
            rw (e, ap is_empty nothing) rest
        | inr e ↦
            let shown = retain live (retain p rows) in
            rw (e, same, is_empty-version_rows shown)
              (ap (λ r. if is_empty shown then r else (o, version_rows shown) ∷ r) rest)
      ]
