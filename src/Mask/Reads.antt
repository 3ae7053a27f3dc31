-- ===== src/Mask/Reads.antt =====
-- crates/stroma-core/src/mask.rs, `impl Facts for Masked`: each read of a key is a read of the visible
-- rows of the key, whether the mask affects the key or not.
use stromadb.Base.{◌≡◌, refl, sym, ap, ◌∙◌, arith, Bool, true, false, some, List, [], ◌∷◌, inl, inr}
use stromadb.Base.Tests.{if◌then◌else◌, ◌>>=◌, Bool-cases}
use stromadb.Base.Lists.{filter, is_empty, All}
use stromadb.Base.Map.{BTreeMap, get, retain, contains_key}
use stromadb.Base.Order.{is_eq_refl, nat_ord, pair_ord}
use stromadb.Fold.Keys.{ObjKey, OrderKey, obj_ord, order_ord}
use stromadb.Fold.State.{Key, Rows}
use stromadb.Fold.Observe.{Snapshot, VersionRow, version_rows}
use stromadb.Fold.Refresh.Counts.{counts_of}
use stromadb.Mask.{FactMask, affected, visible, non_empty}
use stromadb.Mask.View.{
  one_rows, one_value, last_object, many_rows, many_set, visible_elements, present,
}
use stromadb.Mask.Seen.{view, is_seen, unaffected-is_seen}

pub filter-all {ℓ} :
    {A : Type ℓ} (q : A → Bool) (l : List A) → ((a : A) → q a ≡ true) → filter q l ≡ l
filter-all q [] h = refl
filter-all q (a ∷ l) h = rw (h a, filter-all q l h) refl

non_empty-bind {ℓ} :
    {A : Type ℓ} (l : List A) (f : List A → List A)
    → f [] ≡ []
    → (non_empty l >>= λ m. non_empty (f m)) ≡ non_empty (f l)
non_empty-bind [] f h = ap non_empty (sym h)
non_empty-bind (a ∷ l) f h = refl

non_empty-some {ℓ} : {A : Type ℓ} (l : List A) → (non_empty l >>= λ m. some m) ≡ non_empty l
non_empty-some [] = refl
non_empty-some (a ∷ l) = refl

-- No element without a row.
abbrev pub AllShown : BTreeMap ObjKey (List VersionRow) → Type 0
AllShown elems = All (λ e. is_empty e.1 ≡ false) elems

module _ (mask : FactMask) (snap : Snapshot) (k : Key)
    (counts : snap.fact_label_counts ≡ counts_of snap.fact_labels) where
  visible-all :
      (rows : List VersionRow)
      → affected (view mask snap) k ≡ false
      → visible (view mask snap) k rows ≡ rows
  unfolding visible
  visible-all rows h =
      filter-all (λ row. is_seen mask snap k counts row.0) rows
        (λ row. unaffected-is_seen mask snap k counts row.0 h)

  pub one_rows_lem :
      (rows : List VersionRow)
      → get k snap.one_history ≡ non_empty rows
      → one_rows (view mask snap) k ≡ non_empty (visible (view mask snap) k rows)
  unfolding one_rows
  one_rows_lem rows h = elim (Bool-cases (affected (view mask snap) k)) [
    | inl e ↦ rw (h, e) (non_empty-bind rows (visible (view mask snap) k) (unfold visible in refl))
    | inr e ↦ rw (h, e) (non_empty-some rows ∙ ap non_empty (sym (visible-all rows e)))
  ]

  non_empty-last : (rows : List VersionRow) → (non_empty rows >>= last_object) ≡ last_object rows
  non_empty-last [] = refl
  non_empty-last (r ∷ rows) = refl

  pub one_value_lem :
      (rows : List VersionRow)
      → get k snap.one_history ≡ non_empty rows
      → get k snap.one ≡ last_object rows
      → one_value (view mask snap) k ≡ last_object (visible (view mask snap) k rows)
  unfolding one_value one_rows
  one_value_lem rows h g = elim (Bool-cases (affected (view mask snap) k)) [
    | inl e ↦
        ap (λ b. if b then (one_rows (view mask snap) k >>= last_object) else get k snap.one) e
        ∙ ap (λ o. o >>= last_object) (one_rows_lem rows h)
        ∙ non_empty-last (visible (view mask snap) k rows)
    | inr e ↦ rw (e, g) (ap last_object (sym (visible-all rows e)))
  ]

  visible_elements-all :
      (elems : BTreeMap ObjKey (List VersionRow))
      → AllShown elems
      → affected (view mask snap) k ≡ false
      → visible_elements (view mask snap) k elems ≡ elems
  visible_elements-all [] s h = refl
  visible_elements-all ((o, rows) ∷ elems) s h =
      rw (visible_elements-all elems s.1 h, visible-all rows h, s.0) refl

  pub many_rows_lem :
      (elems : BTreeMap ObjKey (List VersionRow))
      → AllShown elems
      → get k snap.many_history ≡ non_empty elems
      → many_rows (view mask snap) k ≡ non_empty (visible_elements (view mask snap) k elems)
  unfolding many_rows
  many_rows_lem elems s h = elim (Bool-cases (affected (view mask snap) k)) [
    | inl e ↦ rw (h, e) (non_empty-bind elems (visible_elements (view mask snap) k) refl)
    | inr e ↦ rw (h, e) (non_empty-some elems ∙ ap non_empty (sym (visible_elements-all elems s e)))
  ]

  non_empty-present :
      (elems : BTreeMap ObjKey (List VersionRow))
      → (non_empty elems >>= λ m. non_empty (present m)) ≡ non_empty (present elems)
  non_empty-present [] = refl
  non_empty-present (e ∷ elems) = refl

  pub many_set_lem :
      (elems : BTreeMap ObjKey (List VersionRow))
      → AllShown elems
      → get k snap.many_history ≡ non_empty elems
      → get k snap.many ≡ non_empty (present elems)
      → many_set (view mask snap) k
        ≡ non_empty (present (visible_elements (view mask snap) k elems))
  unfolding many_set many_rows
  many_set_lem elems s h g = elim (Bool-cases (affected (view mask snap) k)) [
    | inl e ↦
        ap
          (λ b.
            if b
            then (many_rows (view mask snap) k >>= λ m. non_empty (present m))
            else get k snap.many)
          e
        ∙ ap (λ o. o >>= λ m. non_empty (present m)) (many_rows_lem elems s h)
        ∙ non_empty-present (visible_elements (view mask snap) k elems)
    | inr e ↦ rw (e, g) (ap (λ m. non_empty (present m)) (sym (visible_elements-all elems s e)))
  ]

  -- The visible rows among the rows of a store.
  pub visible-version_rows :
      (p : OrderKey → Bool) (rows : Rows)
      → ((ok : OrderKey) → contains_key ok rows ≡ true → is_seen mask snap k counts ok ≡ p ok)
      → visible (view mask snap) k (version_rows rows) ≡ version_rows (retain p rows)
  unfolding visible version_rows retain get
  visible-version_rows p [] h = refl
  visible-version_rows p ((ok, v) ∷ rows) h =
      let here = h ok (ground (arith, is_eq_refl ok)) in
      let rest = visible-version_rows p rows (λ j m. h j (ground arith)) in
      elim (Bool-cases (p ok)) [
        | inl e ↦ rw (here ∙ e, e) (ap (◌∷◌ (ok, v.object, v.valid_from, v.valid_to)) rest)
        | inr e ↦ rw (here ∙ e, e) rest
      ]
