-- ===== src/Fold/Elements.antt =====
-- crates/stroma-core/src/fold.rs: the elements of a key with many values are kept in order.
use mathlib.Core.Path.{subst}
use mathlib.Core.Option.{some-injective}
use stromadb.Base.{◌≡◌, refl, sym, ap, ◌∙◌, Option, none, some, List, [], ◌∷◌, inl, inr}
use stromadb.Base.Tests.{◌>>=◌, Bool-cases, map_option, Option-cases}
use stromadb.Base.Map.{BTreeMap, get, get_or, insert, get-insert}
use stromadb.Base.Map.Sorted.{IsSorted, insert-IsSorted}
use stromadb.Base.Order.{is_eq, nat_ord, list_ord, pair_ord}
use stromadb.Catalog.{Cardinality}
use stromadb.Fold.Keys.{obj_ord, order_ord}
use stromadb.Fold.State.{Key, KeyState, new_state, Fold, empty_fold}
use stromadb.Fold.Apply.{apply_labeled, fold_labeled_from, fold_labeled}
use stromadb.Fold.Change.{Change, change}
use stromadb.Fold.Parts.{Write, change_of, keys_step}
use stromadb.Fold.Refresh.Touched.{applied-stepped}

-- The elements of a state are in order.
abbrev pub HasSorted : KeyState → Type 0
HasSorted (KeyState.one s) = Unit
HasSorted (KeyState.many s) = IsSorted s.elems

abbrev pub AllSorted : BTreeMap Key KeyState → Type 0
AllSorted m = (k : Key) (st : KeyState) → get k m ≡ some st → HasSorted st

change-HasSorted :
    (x : Change) (st st' : KeyState) → change x st ≡ some st' → HasSorted st → HasSorted st'
change-HasSorted (Change.row ok v) (KeyState.one s) st' e h =
    subst HasSorted (some-injective _ _ e) tt
change-HasSorted (Change.element object ok v) (KeyState.many s) st' e h =
    subst HasSorted (some-injective _ _ e)
      (insert-IsSorted object (insert ok v (get_or [] object s.elems)) s.elems h)
change-HasSorted (Change.drop observed) (KeyState.many s) st' e h =
    subst HasSorted (some-injective _ _ e) h
change-HasSorted (Change.floor ok) (KeyState.one s) st' e h =
    subst HasSorted (some-injective _ _ e) tt
change-HasSorted (Change.floor ok) (KeyState.many s) st' e h =
    subst HasSorted (some-injective _ _ e) h
change-HasSorted (Change.row ok v) (KeyState.many s) st' e h = cc
change-HasSorted (Change.element object ok v) (KeyState.one s) st' e h = cc
change-HasSorted (Change.drop observed) (KeyState.one s) st' e h = cc

new_state-HasSorted : (c : Cardinality) → HasSorted (new_state c)
new_state-HasSorted Cardinality.one = tt
new_state-HasSorted Cardinality.many = tt

get_or-HasSorted :
    (k : Key) (c : Cardinality) (m : BTreeMap Key KeyState)
    → AllSorted m
    → HasSorted (get_or (new_state c) k m)
get_or-HasSorted k c m h = elim (Option-cases (get k m)) [
  | inl e ↦ rw e (new_state-HasSorted c)
  | inr (st, e) ↦ rw e (h k st e)
]

insert-AllSorted :
    (k : Key) (st : KeyState) (m : BTreeMap Key KeyState)
    → AllSorted m
    → HasSorted st
    → AllSorted (insert k st m)
insert-AllSorted k st m h s j st' e = elim (Bool-cases (is_eq k j)) [
  | inl same ↦ subst HasSorted (some-injective _ _ (sym (get-insert j k st m ∙ rw same refl) ∙ e)) s
  | inr other ↦ h j st' (sym (get-insert j k st m ∙ rw other refl) ∙ e)
]

keys_step-AllSorted :
    (x : Option (Key × Cardinality × Change)) (m ks : BTreeMap Key KeyState)
    → keys_step x m ≡ some ks
    → AllSorted m
    → AllSorted ks
keys_step-AllSorted none m ks e h = subst AllSorted (some-injective _ _ e) h
keys_step-AllSorted (some (k, c, x)) m ks e h =
    elim (Option-cases (change x (get_or (new_state c) k m))) [
      | inl panics ↦ absurd (cc (e, ap (map_option (λ st. insert k st m)) panics))
      | inr (st, made) ↦
          subst AllSorted
            (some-injective _ _ (ap (map_option (λ st. insert k st m)) (sym made) ∙ e))
            (insert-AllSorted k st m h
              (change-HasSorted x (get_or (new_state c) k m) st made (get_or-HasSorted k c m h)))
    ]

fold_labeled_from-AllSorted :
    (ws : List Write) (f g : Fold)
    → fold_labeled_from f ws ≡ some g
    → AllSorted f.keys
    → AllSorted g.keys
unfolding fold_labeled_from
fold_labeled_from-AllSorted [] f g e h =
    subst (λ (x : Fold). AllSorted x.keys) (some-injective _ _ e) h
fold_labeled_from-AllSorted (w ∷ ws) f g e h = elim (Option-cases (apply_labeled w.0 w.1 f)) [
  | inl n ↦ absurd (cc (ap (λ o. o >>= λ x. fold_labeled_from x ws) n, e))
  | inr (x, n) ↦
      let (ks, made, is_x) = applied-stepped w f x n in
      fold_labeled_from-AllSorted ws x g (ap (λ o. o >>= λ y. fold_labeled_from y ws) (sym n) ∙ e) (
        subst (λ (y : Fold). AllSorted y.keys) is_x
          (keys_step-AllSorted (change_of w.0) f.keys ks made h))
]

pub fold_labeled-AllSorted :
    (ws : List Write) (f : Fold) → fold_labeled ws ≡ some f → AllSorted f.keys
unfolding fold_labeled get
fold_labeled-AllSorted ws f e =
    fold_labeled_from-AllSorted ws empty_fold f e (λ k st p. absurd (cc (p)))
