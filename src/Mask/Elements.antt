-- ===== src/Mask/Elements.antt =====
-- crates/stroma-core/src/fold.rs, `Fold::observe`: what a snapshot shows of a key with many values.
use Prim.Native.Nat.Ordering.{gt}
use mathlib.Core.Path.{subst}
use stromadb.Base.{
  ◌≡◌, refl, sym, ap, ◌∙◌, arith, Bool, true, false, none, some, List, [], ◌∷◌, ◌++◌, inl, inr,
  append-nil, append_assoc,
}
use stromadb.Base.Tests.{if◌then◌else◌, ◌>>=◌, Bool-cases, Option-cases}
use stromadb.Base.Lists.{last, is_empty, All}
use stromadb.Base.Map.{BTreeMap, BTreeSet, get, insert, retain, contains_key}
use stromadb.Base.Map.Sorted.{Above, IsSorted}
use stromadb.Base.Order.{Ord, nat_ord, pair_ord}
use stromadb.Fold.Keys.{ObjKey, OrderKey, obj_ord, order_ord}
use stromadb.Fold.State.{Label, Rows, ManyState}
use stromadb.Fold.Observe.{
  LabelStore, VersionRow, Elements, version_rows, is_live, element_live, note_labels, show_element,
  observe_element, observe_elements, present_if_add,
}
use stromadb.Mask.View.{present, is_add}
use stromadb.Mask.Labels.{Noted, note_labels-Noted, note_labels-kept, get-note_labels}
use stromadb.Mask.Shown.{last-cons}

module _ {ℓ κ} {K : Type ℓ} {V : Type κ} ⦃o : Ord K⦄ where
  -- Every key of the map is lower.
  abbrev pub Below : K → BTreeMap K V → Type 0
  Below k [] = Unit
  Below k ((j, v) ∷ m) = (o.cmp k j ≡ gt) × Below k m

  insert-Below : (k : K) (v : V) (m : BTreeMap K V) → Below k m → insert k v m ≡ m ++ (k, v) ∷ []
  unfolding insert
  insert-Below k v [] b = refl
  insert-Below k v ((j, w) ∷ m) b = ground (arith, insert-Below k v m b.1, b.0)

  Below-snoc :
      (k j : K) (v : V) (m : BTreeMap K V) → Below k m → o.cmp k j ≡ gt → Below k (m ++ (j, v) ∷ [])
  Below-snoc k j v [] b g = (g, tt)
  Below-snoc k j v ((i, w) ∷ m) b g = (b.0, Below-snoc k j v m b.1 g)

-- Every key of the second map is lower than every key of the first.
abbrev pub Under {κ μ} : {V : Type κ} {W : Type μ} → BTreeMap ObjKey V → BTreeMap ObjKey W → Type 0
Under [] m = Unit
Under ((k, v) ∷ elems) m = Below k m × Under elems m

Under-snoc {κ μ} :
    {V : Type κ} {W : Type μ} (j : ObjKey) (w : W) (elems : BTreeMap ObjKey V)
    (m : BTreeMap ObjKey W)
    → Under elems m
    → Above j elems
    → Under elems (m ++ (j, w) ∷ [])
Under-snoc j w [] m u a = tt
Under-snoc j w ((k, v) ∷ elems) m u a = (
  Below-snoc k j w m u.0 (ground (arith, obj_ord.flipped j k, a.0)),
  Under-snoc j w elems m u.1 a.1,
)

-- The elements with a live row, each with its live rows.
unfoldable pub shown_elements :
    (OrderKey → Bool) → BTreeMap ObjKey Rows → BTreeMap ObjKey (List VersionRow)
unfolding retain version_rows
shown_elements live [] = []
shown_elements live ((o, rows) ∷ elems) =
    let rest = shown_elements live elems in
    if is_empty (retain live rows) then rest else (o, version_rows (retain live rows)) ∷ rest

present-append :
    (a b : BTreeMap ObjKey (List VersionRow)) → present (a ++ b) ≡ present a ++ present b
present-append [] b = refl
present-append ((o, rows) ∷ a) b = elim (Bool-cases (is_add (last rows))) [
  | inl e ↦ rw e (ap (◌∷◌ (o, tt)) (present-append a b))
  | inr e ↦ rw e (present-append a b)
]

present_if_add_lem :
    (o : ObjKey) (row : VersionRow) (s : BTreeSet ObjKey)
    → Below o s
    → present_if_add o row.1 s ≡ s ++ (if is_add (some row) then (o, tt) ∷ [] else [])
present_if_add_lem o (ok, none, from, to) s b = sym (append-nil s)
present_if_add_lem o (ok, some top, from, to) s b = insert-Below o tt s b

-- An element with live rows is shown behind the lower ones.
show_element-some :
    (o : ObjKey) (rows : Rows) (noted : BTreeMap OrderKey Label) (e : Elements)
    → is_empty rows ≡ false
    → Below o e.history
    → Below o e.present
    → show_element o rows noted e ≡ record {
      present = e.present ++ present ((o, version_rows rows) ∷ []);
      history = e.history ++ (o, version_rows rows) ∷ [];
      labels = noted;
    }
unfolding show_element version_rows
show_element-some o [] noted e h a b = cc
show_element-some o ((ok, v) ∷ rows) noted e h a b =
    let (row, q) = last-cons (ok, v.object, v.valid_from, v.valid_to) (version_rows rows) in
    let shown = present_if_add_lem o row e.present b in
    let told =
      insert-Below o ((ok, v.object, v.valid_from, v.valid_to) ∷ version_rows rows) e.history a in
    rw q (λ i. record { present = shown i; history = told i; labels = noted })

pub empty-eq {ℓ} : {A : Type ℓ} (l : List A) → is_empty l ≡ true → l ≡ []
empty-eq [] h = refl
empty-eq (x ∷ l) h = cc

Under-present :
    (o : ObjKey) (rows : List VersionRow) (elems : BTreeMap ObjKey Rows) (m : BTreeSet ObjKey)
    → Under elems m
    → Above o elems
    → Under elems (m ++ present ((o, rows) ∷ []))
Under-present o rows elems m u a = elim (Bool-cases (is_add (last rows))) [
  | inl e ↦ rw e (Under-snoc o tt elems m u a)
  | inr e ↦ rw (e, append-nil m) u
]

-- The loop shows the elements with live rows, in order.
pub observe_elements-shown :
    (stored : LabelStore) (s : ManyState) (elems : BTreeMap ObjKey Rows) (e : Elements)
    → IsSorted elems
    → Under elems e.history
    → Under elems e.present
    → ((observe_elements stored s elems e).history ≡ e.history ++ shown_elements (is_live s) elems)
      × ((observe_elements stored s elems e).present
          ≡ e.present ++ present (shown_elements (is_live s) elems))
unfolding observe_elements observe_element shown_elements element_live show_element
observe_elements-shown stored s [] e o h p =
    (sym (append-nil e.history), sym (append-nil e.present))
observe_elements-shown stored s ((object, rows) ∷ elems) e o h p =
    let live = retain (is_live s) rows in
    let noted = note_labels stored live e.labels in
    elim (Bool-cases (is_empty live)) [
      | inl gone ↦
          let rest =
            observe_elements-shown stored s elems (record e { labels = noted }) o.1 h.1 p.1 in
          let step =
            ap (λ l. observe_elements stored s elems (show_element object l noted e))
              (empty-eq live gone) in
          rw gone (ap (λ x. x.history) step ∙ rest.0, ap (λ x. x.present) step ∙ rest.1)
      | inr kept ↦
          let rows' = version_rows live in
          let rest =
            observe_elements-shown stored s elems
              (record {
                present = e.present ++ present ((object, rows') ∷ []);
                history = e.history ++ (object, rows') ∷ [];
                labels = noted;
              })
              o.1 (Under-snoc object rows' elems e.history h.1 o.0)
              (Under-present object rows' elems e.present p.1 o.0) in
          let step =
            ap (observe_elements stored s elems)
              (show_element-some object live noted e kept h.0 p.0) in
          let shown = shown_elements (is_live s) elems in
          rw kept (
            ap (λ x. x.history) step ∙ rest.0 ∙ append_assoc e.history ((object, rows') ∷ []) shown,
            ap (λ x. x.present) step
                ∙ rest.1
                ∙ append_assoc e.present (present ((object, rows') ∷ [])) (present shown)
                ∙ ap (◌++◌ e.present) (sym (present-append ((object, rows') ∷ []) shown)),
          )
    ]

module _ (stored : LabelStore) (s : ManyState) where
  show_element-labels :
      (o : ObjKey) (rows : Rows) (noted : BTreeMap OrderKey Label) (e : Elements)
      → (show_element o rows noted e).labels ≡ noted
  unfolding show_element
  show_element-labels o rows noted e = elim (Option-cases (last (version_rows rows))) [
    | inl q ↦ rw (show_element, q) refl
    | inr (row, q) ↦ rw (show_element, q) refl
  ]

  labels-kept :
      (elems : BTreeMap ObjKey Rows) (e : Elements) (j : OrderKey)
      → get j e.labels ≡ (stored >>= get j)
      → get j (observe_elements stored s elems e).labels ≡ (stored >>= get j)
  unfolding observe_elements observe_element
  labels-kept [] e j h = h
  labels-kept ((object, rows) ∷ elems) e j h =
      labels-kept elems (observe_element stored s object rows e) j (
        ap (get j) (
          show_element-labels object (element_live s rows)
            (note_labels stored (element_live s rows) e.labels) e)
        ∙ note_labels-kept stored (element_live s rows) e.labels j h)

  -- Every live row of the elements is noted with its stored label.
  pub labels-Noted :
      (elems : BTreeMap ObjKey Rows) (e : Elements)
      → ((j : OrderKey) → Noted stored e.labels j)
      → All
          (λ x.
            (j : OrderKey)
            → contains_key j (element_live s x.1) ≡ true
            → get j (observe_elements stored s elems e).labels ≡ (stored >>= get j))
          elems
  unfolding observe_elements observe_element
  labels-Noted [] e h = tt
  labels-Noted ((object, rows) ∷ elems) e h =
      let live = element_live s rows in
      let same = show_element-labels object live (note_labels stored live e.labels) e in
      (
        λ j m.
            labels-kept elems (observe_element stored s object rows e) j
              (ap (get j) same ∙ get-note_labels stored live e.labels j m (h j)),
        labels-Noted elems (observe_element stored s object rows e) (λ j.
            subst (λ l. Noted stored l j) (sym same)
              (note_labels-Noted stored live e.labels j (h j))),
      )
