-- ===== src/Fold/Gc/Rows.antt =====
-- crates/stroma-core/src/fold.rs, `Fold::gc`: the rows that stay are the rows that are shown.
use mathlib.Core.Path.{fun_ext}
use stromadb.Base.{
  ◌≡◌, refl, sym, ap, ◌∙◌, Bool, true, not, Option, some, List, [], ◌∷◌, inl, inr, arith,
}
use stromadb.Base.Tests.{◌>>=◌, Bool-cases}
use stromadb.Base.Lists.{is_empty}
use stromadb.Base.Map.{BTreeMap, get, retain, retain_values, map_values, get-retain}
use stromadb.Base.Map.Sorted.{retain-retain}
use stromadb.Base.Order.{is_lt, nat_ord, pair_ord}
use stromadb.Fold.Keys.{ObjKey, OrderKey, obj_ord, order_ord}
use stromadb.Fold.State.{Label, Rows, ManyState}
use stromadb.Fold.Observe.{
  LabelStore, Elements, above_floor, is_live, element_live, note, note_labels, show_element,
  observe_element, observe_elements,
}

-- Two label stores that agree on the rows above a floor.
abbrev pub AgreeAbove : Option OrderKey → LabelStore → LabelStore → Type 0
AgreeAbove hd a b = (ok : OrderKey) → above_floor hd ok ≡ true → (a >>= get ok) ≡ (b >>= get ok)

pub note_labels_agree :
    (hd : Option OrderKey) (a b : LabelStore) (p : OrderKey → Bool) (rows : Rows)
    (noted : BTreeMap OrderKey Label)
    → AgreeAbove hd a b
    → ((ok : OrderKey) → p ok ≡ true → above_floor hd ok ≡ true)
    → note_labels a (retain p rows) noted ≡ note_labels b (retain p rows) noted
unfolding note_labels retain
note_labels_agree hd a b p [] noted h q = refl
note_labels_agree hd a b p ((ok, v) ∷ rows) noted h q = elim (Bool-cases (p ok)) [
  | inr e ↦ rw e (note_labels_agree hd a b p rows noted h q)
  | inl e ↦ rw e (
      note_labels_agree hd a b p rows (note ok (a >>= get ok) noted) h q
      ∙ ap (λ l. note_labels b (retain p rows) (note ok l noted)) (h ok (q ok e)))
]

-- The live rows of a collected state.
pub live_above : (s : ManyState) (ok : OrderKey) → is_live s ok ≡ true → above_floor s.hd ok ≡ true
live_above s ok h = ground arith

abbrev pub collected_elems : OrderKey → BTreeMap ObjKey Rows → BTreeMap ObjKey Rows
collected_elems h elems =
    retain_values (λ rows. not (is_empty rows)) (map_values (λ _ rows. retain (is_lt h) rows) elems)

abbrev pub collected : OrderKey → ManyState → ManyState
collected h s = record {
  elems = collected_elems h s.elems;
  removes = retain (is_lt h) s.removes;
  hd = some h;
}

is_live-collected :
    (h : OrderKey) (s : ManyState) (ok : OrderKey)
    → s.hd ≡ some h
    → is_live (collected h s) ok ≡ is_live s ok
is_live-collected h s ok e = ground (arith, get-retain (is_lt h) ok s.removes)

pub element_live-collected :
    (h : OrderKey) (s : ManyState) (rows : Rows)
    → s.hd ≡ some h
    → element_live (collected h s) (retain (is_lt h) rows) ≡ element_live s rows
unfolding element_live
element_live-collected h s rows e =
    ap (λ p. retain p (retain (is_lt h) rows)) (fun_ext (λ ok. is_live-collected h s ok e))
    ∙ retain-retain (is_live s) (is_lt h) rows (λ ok l. ground arith)

empty-eq {ℓ} : {A : Type ℓ} (l : List A) → is_empty l ≡ true → l ≡ []
empty-eq [] h = refl
empty-eq (x ∷ l) h = cc

-- An element with no row left shows nothing.
observe_element_gone :
    (stored : LabelStore) (s : ManyState) (object : ObjKey) (rows : Rows) (e : Elements)
    → element_live s rows ≡ []
    → observe_element stored s object rows e ≡ e
unfolding observe_element
observe_element_gone stored s object rows e h =
    ap (λ live. show_element object live (note_labels stored live e.labels) e) h

element_live-nil :
    (h : OrderKey) (s : ManyState) (rows : Rows)
    → s.hd ≡ some h
    → retain (is_lt h) rows ≡ []
    → element_live s rows ≡ []
element_live-nil h s rows e n =
    sym (element_live-collected h s rows e)
    ∙ ap (element_live (collected h s)) n
    ∙ (unfold element_live retain in refl)

module _ (h : OrderKey) (s : ManyState) (a b : LabelStore) (hd : s.hd ≡ some h)
    (agree : AgreeAbove (some h) a b) where
  observe_element-collected :
      (object : ObjKey) (rows : Rows) (e : Elements)
      → observe_element a (collected h s) object (retain (is_lt h) rows) e
        ≡ observe_element b s object rows e
  unfolding observe_element
  observe_element-collected object rows e =
      ap (λ live. show_element object live (note_labels a live e.labels) e)
        (element_live-collected h s rows hd)
      ∙ ap (λ noted. show_element object (element_live s rows) noted e)
          (unfold element_live in
            note_labels_agree (some h) a b (is_live s) rows e.labels agree
              (λ ok l. ground (arith, live_above s ok)))

  pub observe_elements-collected :
      (elems : BTreeMap ObjKey Rows) (e : Elements)
      → observe_elements a (collected h s) (collected_elems h elems) e
        ≡ observe_elements b s elems e
  unfolding observe_elements retain_values map_values
  observe_elements-collected [] e = refl
  observe_elements-collected ((object, rows) ∷ elems) e =
      elim (Bool-cases (is_empty (retain (is_lt h) rows))) [
        | inl gone ↦ rw gone (
            observe_elements-collected elems e
            ∙ ap (observe_elements b s elems) (
                sym (
                  observe_element_gone b s object rows e
                    (element_live-nil h s rows hd (empty-eq _ gone)))))
        | inr kept ↦ rw kept (
            ap (observe_elements a (collected h s) (collected_elems h elems))
              (observe_element-collected object rows e)
            ∙ observe_elements-collected elems (observe_element b s object rows e))
      ]
