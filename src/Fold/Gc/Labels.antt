-- ===== src/Fold/Gc/Labels.antt =====
-- crates/stroma-core/src/fold.rs: the label store of a fold is kept in order.
use mathlib.Core.Path.{subst}
use mathlib.Core.Option.{some-injective}
use stromadb.Base.{◌≡◌, sym, ap, ◌∙◌, Option, none, some, List, [], ◌∷◌, inl, inr}
use stromadb.Base.Tests.{◌>>=◌, map_option, Option-cases}
use stromadb.Base.Map.{BTreeMap, get_or, insert}
use stromadb.Base.Map.Sorted.{IsSorted, insert-IsSorted}
use stromadb.Base.Order.{nat_ord, pair_ord}
use stromadb.Fold.Keys.{OrderKey, obj_ord, order_ord}
use stromadb.Fold.State.{Key, Label, Fold, empty_fold}
use stromadb.Fold.Apply.{apply_labeled, fold_labeled_from, fold_labeled}
use stromadb.Fold.Parts.{
  Write, change_of, keys_step, stepped, label_of, label_step, apply_labeled_parts,
}

label_step-IsSorted :
    (x : Option (Key × OrderKey × Label)) (m : BTreeMap Key (BTreeMap OrderKey Label))
    → IsSorted m
    → IsSorted (label_step x m)
label_step-IsSorted none m s = s
label_step-IsSorted (some (k, ok, l)) m s = insert-IsSorted k (insert ok l (get_or [] k m)) m s

apply_labeled-fact_labels :
    (w : Write) (f f' : Fold)
    → apply_labeled w.0 w.1 f ≡ some f'
    → IsSorted f.fact_labels
    → IsSorted f'.fact_labels
apply_labeled-fact_labels w f f' e s = elim (Option-cases (keys_step (change_of w.0) f.keys)) [
  | inl n ↦ cc (apply_labeled_parts w f, ap (map_option (stepped w f)) n, e)
  | inr (ks, n) ↦
      subst (λ (g : Fold). IsSorted g.fact_labels)
        (some-injective _ _
          (ap (map_option (stepped w f)) (sym n) ∙ sym (apply_labeled_parts w f) ∙ e))
        (label_step-IsSorted (label_of w) f.fact_labels s)
]

fact_labels_from-IsSorted :
    (ws : List Write) (f f' : Fold)
    → fold_labeled_from f ws ≡ some f'
    → IsSorted f.fact_labels
    → IsSorted f'.fact_labels
unfolding fold_labeled_from
fact_labels_from-IsSorted [] f f' e s =
    subst (λ (g : Fold). IsSorted g.fact_labels) (some-injective _ _ e) s
fact_labels_from-IsSorted (w ∷ ws) f f' e s = elim (Option-cases (apply_labeled w.0 w.1 f)) [
  | inl n ↦ cc (ap (λ o. o >>= λ g. fold_labeled_from g ws) n, e)
  | inr (g, n) ↦
      fact_labels_from-IsSorted ws g f' (ap (λ o. o >>= λ h. fold_labeled_from h ws) (sym n) ∙ e)
        (apply_labeled-fact_labels w f g n s)
]

pub fact_labels-IsSorted :
    (ws : List Write) (f : Fold) → fold_labeled ws ≡ some f → IsSorted f.fact_labels
unfolding fold_labeled
fact_labels-IsSorted ws f e = fact_labels_from-IsSorted ws empty_fold f e tt
