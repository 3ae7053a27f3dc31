-- ===== src/Mask/Shown.antt =====
-- crates/stroma-core/src/fold.rs, `Fold::observe`: what a snapshot shows of the rows of one key.
use mathlib.Core.Path.{subst}
use stromadb.Base.{ℕ, ◌≡◌, refl, sym, ap, ◌∙◌, Option, none, some, List, [], ◌∷◌, inl, inr}
use stromadb.Base.Tests.{if◌then◌else◌, Bool-cases}
use stromadb.Base.Lists.{last, is_empty}
use stromadb.Base.Map.{BTreeMap, get}
use stromadb.Base.Order.{nat_ord, pair_ord}
use stromadb.Fold.Keys.{ObjKey, OrderKey, obj_ord, order_ord}
use stromadb.Fold.State.{Key, Label, Rows, OneState, ManyState, KeyState, EdgeProps, Fold}
use stromadb.Fold.Observe.{
  VersionRow, Elements, version_rows, one_live, note_labels, project_props, observe_elements,
  no_elements,
}
use stromadb.Fold.Gc.{observe}
use stromadb.Fold.Refresh.Entry.{Entry, entry, no_entry}
use stromadb.Fold.Refresh.Writers.{with_props, with_rows, with_labels, with_elements}
use stromadb.Fold.Refresh.Shown.{with_state}
use stromadb.Fold.Refresh.Observed.{entry-observe}
use stromadb.Mask.{non_empty}
use stromadb.Mask.View.{last_object, present}

-- An entry with properties only.
pub record IsBlank (e : Entry) : Type 0 where
  one : e.one ≡ none
  one_history : e.one_history ≡ none
  many : e.many ≡ none
  many_history : e.many_history ≡ none
  fact_labels : e.fact_labels ≡ none

no_entry-IsBlank : IsBlank no_entry
no_entry-IsBlank = record {
  one = refl;
  one_history = refl;
  many = refl;
  many_history = refl;
  fact_labels = refl;
}

pub last-cons {ℓ} : {A : Type ℓ} (x : A) (l : List A) → (y : A) × (last (x ∷ l) ≡ some y)
last-cons x [] = (x, refl)
last-cons x (z ∷ l) = last-cons z l

module _ (value_hash : ObjKey → ℕ) where
  with_props-IsBlank : (props : Option EdgeProps) → IsBlank (with_props value_hash props no_entry)
  with_props-IsBlank none = no_entry-IsBlank
  with_props-IsBlank (some objs) = elim (Bool-cases (is_empty (project_props objs))) [
    | inl e ↦ rw e no_entry-IsBlank
    | inr e ↦ rw e (record {
      one = refl;
      one_history = refl;
      many = refl;
      many_history = refl;
      fact_labels = refl;
    })
  ]

  -- What reads of rows see of an entry, for a key with one value at a time or with many.
  pub record Shows (e : Entry) (rows : List VersionRow) (elems : BTreeMap ObjKey (List VersionRow))
      (labels : BTreeMap OrderKey Label) : Type 0 where
    pub one : e.one ≡ last_object rows
    pub one_history : e.one_history ≡ non_empty rows
    pub many : e.many ≡ non_empty (present elems)
    pub many_history : e.many_history ≡ non_empty elems
    pub fact_labels : e.fact_labels ≡ non_empty labels

  blank-Shows : (e : Entry) → IsBlank e → Shows e [] [] []
  blank-Shows e b = record {
    one = b.one;
    one_history = b.one_history;
    many = b.many;
    many_history = b.many_history;
    fact_labels = b.fact_labels;
  }

  with_labels-Shows :
      (e : Entry) (rows : List VersionRow) (elems : BTreeMap ObjKey (List VersionRow))
      (noted : BTreeMap OrderKey Label)
      → Shows e rows elems []
      → Shows (with_labels value_hash noted e) rows elems noted
  with_labels-Shows e rows elems [] h = h
  with_labels-Shows e rows elems (l ∷ ls) h = record {
    one = h.one;
    one_history = h.one_history;
    many = h.many;
    many_history = h.many_history;
    fact_labels = refl;
  }

  with_rows-Shows :
      (live : Rows) (e : Entry)
      → IsBlank e
      → Shows (with_rows value_hash live e) (version_rows live) [] []
  unfolding version_rows
  with_rows-Shows [] e b = blank-Shows e b
  with_rows-Shows ((ok, v) ∷ live) e b =
      let (y, q) = last-cons (ok, v.object, v.valid_from, v.valid_to) (version_rows live) in
      record {
        one = rw q refl;
        one_history = rw q refl;
        many = rw q b.many;
        many_history = rw q b.many_history;
        fact_labels = rw q b.fact_labels;
      }

  with_elements-Shows :
      (els : Elements) (e : Entry)
      → IsBlank e
      → els.present ≡ present els.history
      → Shows (with_elements value_hash els e) [] els.history []
  with_elements-Shows els e b p = record {
    one = b.one;
    one_history = b.one_history;
    many = ap (λ o. if is_empty els.present then o else some els.present) b.many ∙ ap non_empty p;
    many_history = ap (λ o. if is_empty els.history then o else some els.history) b.many_history;
    fact_labels = b.fact_labels;
  }

  module _ (f : Fold) (k : Key) where
    abbrev props : Entry
    props = with_props value_hash (get k f.edge_props) no_entry

    entry-with :
        (o : Option KeyState)
        → get k f.keys ≡ o
        → entry k (observe value_hash f) ≡ with_state value_hash (get k f.fact_labels) o props
    entry-with o e =
        entry-observe value_hash f k
        ∙ ap (λ st. with_state value_hash (get k f.fact_labels) st props) e

    -- What the observation of a fold shows of a key with no state.
    pub observe-none : get k f.keys ≡ none → Shows (entry k (observe value_hash f)) [] [] []
    observe-none e =
        subst (λ x. Shows x [] [] []) (sym (entry-with none e))
          (blank-Shows props (with_props-IsBlank (get k f.edge_props)))

    -- What it shows of a key with one value at a time.
    pub observe-one :
        (s : OneState)
        → get k f.keys ≡ some (KeyState.one s)
        → Shows
            (entry k (observe value_hash f))
            (version_rows (one_live s))
            []
            (note_labels (get k f.fact_labels) (one_live s) [])
    observe-one s e =
        subst
          (λ x.
            Shows x (version_rows (one_live s)) []
              (note_labels (get k f.fact_labels) (one_live s) []))
          (sym (entry-with (some (KeyState.one s)) e))
          (with_labels-Shows (with_rows value_hash (one_live s) props) (version_rows (one_live s))
            [] (note_labels (get k f.fact_labels) (one_live s) [])
            (with_rows-Shows (one_live s) props (with_props-IsBlank (get k f.edge_props))))

    abbrev pub elements_of : ManyState → Elements
    elements_of s = observe_elements (get k f.fact_labels) s s.elems no_elements

    -- What it shows of a key with many values.
    pub observe-many :
        (s : ManyState)
        → get k f.keys ≡ some (KeyState.many s)
        → (elements_of s).present ≡ present (elements_of s).history
        → Shows (entry k (observe value_hash f)) [] (elements_of s).history (elements_of s).labels
    observe-many s e p =
        subst (λ x. Shows x [] (elements_of s).history (elements_of s).labels)
          (sym (entry-with (some (KeyState.many s)) e))
          (with_labels-Shows (with_elements value_hash (elements_of s) props) []
            (elements_of s).history (elements_of s).labels
            (with_elements-Shows (elements_of s) props (with_props-IsBlank (get k f.edge_props)) p))
