-- ===== src/Mask/Labels.antt =====
-- crates/stroma-core/src/fold.rs, `Fold::observe`: the labels that are noted of the rows of a key.
use mathlib.Core.Path.{subst}
use stromadb.Base.{
  ◌≡◌, refl, sym, ap, ◌∙◌, arith, true, false, Option, none, some, [], ◌∷◌, inl, inr, ◌⊎◌, ◌&&◌,
}
use stromadb.Base.Tests.{if◌then◌else◌, ◌>>=◌, is_some, Bool-cases, Option-cases}
use stromadb.Base.Map.{BTreeMap, get, contains_key, get-insert}
use stromadb.Base.Order.{is_eq, is_eq_refl, is_eq→eq, nat_ord, pair_ord}
use stromadb.Fold.Keys.{OrderKey, obj_ord, order_ord}
use stromadb.Fold.State.{Label, Rows}
use stromadb.Fold.Observe.{LabelStore, note, note_labels}

-- The label of an order key is noted as stored, or is not noted yet.
abbrev pub Noted : LabelStore → BTreeMap OrderKey Label → OrderKey → Type 0
Noted stored noted j = (get j noted ≡ (stored >>= get j)) ⊎ (get j noted ≡ none)

note-get :
    (ok j : OrderKey) (x : Option Label) (noted : BTreeMap OrderKey Label)
    → get j (note ok x noted) ≡ (if is_some x && is_eq ok j then x else get j noted)
note-get ok j none noted = refl
note-get ok j (some l) noted = get-insert j ok l noted

note_self :
    (stored : LabelStore) (noted : BTreeMap OrderKey Label) (j : OrderKey)
    → Noted stored noted j
    → get j (note j (stored >>= get j) noted) ≡ (stored >>= get j)
note_self stored noted j h = elim (Option-cases (stored >>= get j)) [
  | inl e ↦ rw e (elim h [ inl p ↦ p ∙ e | inr p ↦ p ])
  | inr (l, e) ↦ note-get j j (stored >>= get j) noted ∙ rw (e, is_eq_refl j) refl
]

note-eq :
    (stored : LabelStore) (ok j : OrderKey) (noted : BTreeMap OrderKey Label)
    → is_eq ok j ≡ true
    → Noted stored noted j
    → get j (note ok (stored >>= get ok) noted) ≡ (stored >>= get j)
note-eq stored ok j noted e h =
    ap (λ i. get j (note i (stored >>= get i) noted)) (is_eq→eq ok j e) ∙ note_self stored noted j h

note-ne :
    (stored : LabelStore) (ok j : OrderKey) (noted : BTreeMap OrderKey Label)
    → is_eq ok j ≡ false
    → get j (note ok (stored >>= get ok) noted) ≡ get j noted
note-ne stored ok j noted e = ground (arith, note-get ok j (stored >>= get ok) noted)

pub note_labels-kept :
    (stored : LabelStore) (rows : Rows) (noted : BTreeMap OrderKey Label) (j : OrderKey)
    → get j noted ≡ (stored >>= get j)
    → get j (note_labels stored rows noted) ≡ (stored >>= get j)
unfolding note_labels
note_labels-kept stored [] noted j h = h
note_labels-kept stored ((ok, v) ∷ rows) noted j h =
    note_labels-kept stored rows (note ok (stored >>= get ok) noted) j
      (elim (Bool-cases (is_eq ok j)) [
        | inl e ↦ note-eq stored ok j noted e (inl h)
        | inr e ↦ note-ne stored ok j noted e ∙ h
      ])

-- The label of a row that was noted is the stored one.
pub get-note_labels :
    (stored : LabelStore) (rows : Rows) (noted : BTreeMap OrderKey Label) (j : OrderKey)
    → contains_key j rows ≡ true
    → Noted stored noted j
    → get j (note_labels stored rows noted) ≡ (stored >>= get j)
unfolding note_labels get
get-note_labels stored [] noted j m h = cc
get-note_labels stored ((ok, v) ∷ rows) noted j m h = elim (Bool-cases (is_eq ok j)) [
  | inl e ↦
      note_labels-kept stored rows (note ok (stored >>= get ok) noted) j
        (note-eq stored ok j noted e h)
  | inr e ↦
      get-note_labels stored rows (note ok (stored >>= get ok) noted) j
        (ground (arith, order_ord.flipped ok j))
        (subst (λ o. (o ≡ (stored >>= get j)) ⊎ (o ≡ none)) (sym (note-ne stored ok j noted e)) h)
]

-- An order key that is not among the rows is noted as before.
pub note_labels-Noted :
    (stored : LabelStore) (rows : Rows) (noted : BTreeMap OrderKey Label) (j : OrderKey)
    → Noted stored noted j
    → Noted stored (note_labels stored rows noted) j
unfolding note_labels
note_labels-Noted stored [] noted j h = h
note_labels-Noted stored ((ok, v) ∷ rows) noted j h =
    note_labels-Noted stored rows (note ok (stored >>= get ok) noted) j
      (elim (Bool-cases (is_eq ok j)) [
        | inl e ↦ inl (note-eq stored ok j noted e h)
        | inr e ↦
            subst (λ o. (o ≡ (stored >>= get j)) ⊎ (o ≡ none)) (sym (note-ne stored ok j noted e)) h
      ])
