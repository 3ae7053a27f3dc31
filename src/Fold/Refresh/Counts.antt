-- ===== src/Fold/Refresh/Counts.antt =====
-- crates/stroma-core/src/fold.rs, `Snapshot::fact_label_counts`: the counts of the labels in the
-- snapshot, kept while keys are forgotten and observed.
use stromadb.Base.{
  ℕ, ◌+◌, ◌-◌, ◌<◌, ◌≡◌, refl, sym, ap, ◌∙◌, arith, none, some, List, [], ◌∷◌, inl, inr,
}
use stromadb.Base.Tests.{◌==◌, if◌then◌else◌, unwrap_or, Option-cases}
use stromadb.Base.Map.{
  BTreeMap, values, get, get_or, insert, remove, update_comm, get-insert, get-insert_self,
  insert-insert_self,
}
use stromadb.Base.Map.Sorted.{IsSorted, insert-IsSorted}
use stromadb.Base.Map.Entries.{insert-present, remove-insert, insert-remove, get-remove}
use stromadb.Base.Order.{is_eq_refl, nat_ord, pair_ord}
use stromadb.Fold.Keys.{OrderKey, obj_ord, order_ord}
use stromadb.Fold.State.{Key, Label}
use stromadb.Fold.Observe.{drop_count, drop_counts, add_counts}

abbrev pub Counts : Type 0
Counts = BTreeMap Label ℕ

abbrev pub Labeled : Type 0
Labeled = BTreeMap Key (BTreeMap OrderKey Label)

-- The counts of a map of labeled rows, from nothing.
unfoldable pub counts_of : Labeled → Counts
counts_of [] = []
counts_of ((k, rows) ∷ m) = add_counts (values rows) (counts_of m)

abbrev add : Label → Counts → Counts
add l c = insert l (get_or 0 l c + 1) c

add_comm : (l k : Label) (c : Counts) → add l (add k c) ≡ add k (add l c)
add_comm l k c = update_comm l k (λ o. unwrap_or o 0 + 1) (λ o. unwrap_or o 0 + 1) c (λ e v. refl)

add_counts-add :
    (ls : List Label) (l : Label) (c : Counts) → add_counts ls (add l c) ≡ add l (add_counts ls c)
unfolding add_counts
add_counts-add [] l c = refl
add_counts-add (k ∷ ls) l c = ap (add_counts ls) (add_comm k l c) ∙ add_counts-add ls l (add k c)

add_counts_comm :
    (ls ks : List Label) (c : Counts)
    → add_counts ls (add_counts ks c) ≡ add_counts ks (add_counts ls c)
unfolding add_counts
add_counts_comm [] ks c = refl
add_counts_comm (l ∷ ls) ks c =
    ap (add_counts ls) (sym (add_counts-add ks l c)) ∙ add_counts_comm ls ks (add l c)

pub counts_of-insert :
    (k : Key) (rows : BTreeMap OrderKey Label) (m : Labeled)
    → get k m ≡ none
    → counts_of (insert k rows m) ≡ add_counts (values rows) (counts_of m)
unfolding counts_of get insert
counts_of-insert k rows [] h = refl
counts_of-insert k rows ((i, old) ∷ m) h =
    ground
      (arith, counts_of-insert k rows m, add_counts_comm (values old) (values rows) (counts_of m))

-- Counts in order, none of them zero.
pub record IsCount (c : Counts) : Type 0 where
  pub ordered : IsSorted c
  pub positive : (l : Label) (n : ℕ) → get l c ≡ some n → 0 < n

add-IsCount : (l : Label) (c : Counts) → IsCount c → IsCount (add l c)
add-IsCount l c h = record {
  ordered = insert-IsSorted l (get_or 0 l c + 1) c h.ordered;
  positive = λ k n e. grind (arith, get-insert k l (get_or 0 l c + 1) c, h.positive k n, e);
}

add_counts-IsCount : (ls : List Label) (c : Counts) → IsCount c → IsCount (add_counts ls c)
unfolding add_counts
add_counts-IsCount [] c h = h
add_counts-IsCount (l ∷ ls) c h = add_counts-IsCount ls (add l c) (add-IsCount l c h)

pub counts_of-IsCount : (m : Labeled) → IsCount (counts_of m)
unfolding counts_of get
counts_of-IsCount [] = record { ordered = tt; positive = λ l n e. cc }
counts_of-IsCount ((k, rows) ∷ m) =
    add_counts-IsCount (values rows) (counts_of m) (counts_of-IsCount m)

drop_count-stored :
    (l : Label) (n : ℕ) (c : Counts)
    → get l c ≡ some n
    → drop_count l c ≡ (if (n - 1) == 0 then remove l c else insert l (n - 1) c)
drop_count-stored l n c e = ground arith

drop_count-insert :
    (l : Label) (n : ℕ) (c : Counts)
    → drop_count l (insert l (n + 1) c)
      ≡ (if n == 0 then remove l (insert l (n + 1) c) else insert l n c)
drop_count-insert l n c =
    drop_count-stored l (n + 1) (insert l (n + 1) c) (get-insert_self l (n + 1) c)
    ∙ ap (λ i. if i == 0 then remove l (insert l (n + 1) c) else insert l i (insert l (n + 1) c))
        same
    ∙ ap (λ d. if n == 0 then remove l (insert l (n + 1) c) else d)
        (insert-insert_self l n (n + 1) c)
  where
    same : n + 1 - 1 ≡ n
    same = omega arith

drop_count-add : (l : Label) (c : Counts) → IsCount c → drop_count l (add l c) ≡ c
drop_count-add l c h = elim (Option-cases (get l c)) [
  | inl e ↦
      ap (λ o. drop_count l (insert l (unwrap_or o 0 + 1) c)) e
      ∙ drop_count-insert l 0 c
      ∙ remove-insert l 1 c h.ordered e
  | inr (n, e) ↦
      ap (λ o. drop_count l (insert l (unwrap_or o 0 + 1) c)) e
      ∙ drop_count-insert l n c
      ∙ ground (arith, h.positive l n e, insert-present l n c h.ordered e)
]

drop_counts-add_counts :
    (ls : List Label) (c : Counts) → IsCount c → drop_counts ls (add_counts ls c) ≡ c
unfolding drop_counts add_counts
drop_counts-add_counts [] c h = refl
drop_counts-add_counts (l ∷ ls) c h =
    ap (λ d. drop_counts ls (drop_count l d)) (add_counts-add ls l c)
    ∙ ap (drop_counts ls) (drop_count-add l (add_counts ls c) (add_counts-IsCount ls c h))
    ∙ drop_counts-add_counts ls c h

-- The counts of a map without one of its keys.
pub counts_of-remove :
    (k : Key) (old : BTreeMap OrderKey Label) (m : Labeled)
    → IsSorted m
    → get k m ≡ some old
    → drop_counts (values old) (counts_of m) ≡ counts_of (remove k m)
counts_of-remove k old m s e =
    ap (λ x. drop_counts (values old) (counts_of x)) (sym (insert-remove k old m s e))
    ∙ ap (drop_counts (values old))
        (counts_of-insert k old (remove k m) (get-remove k k m s ∙ rw (is_eq_refl k) refl))
    ∙ drop_counts-add_counts (values old) (counts_of (remove k m)) (counts_of-IsCount (remove k m))
