-- ===== src/Tests/Folds.antt =====
-- crates/stroma-core/src/fold.rs at concrete inputs.
use mathlib.Core.Path.{subst, sym}
use mathlib.Core.Logic.Or
use mathlib.Core.List.{Mem, mem-cons, mem-cons_self, mem-cons_of_mem}
use stromadb.Base.{◌≡◌, ◌↔◌, ◌⊎◌, refl, arith, true, none, some, [], ◌∷◌}
use stromadb.Base.Int.{ℤ}
use stromadb.Base.Map.{get, get_or, insert, contains}
use stromadb.Base.Tests.{◌>>=◌}
use stromadb.Base.Lists.{All}
use stromadb.Base.Order.{nat_ord, pair_ord}
use stromadb.Fold.Keys.{ObjKey, OrderKey, obj_ord, order_ord}
use stromadb.Fold.State.{Op, Fold, KeyState, ManyState, empty_fold}
use stromadb.Fold.Apply.{apply, apply_labeled, fold_labeled}
use stromadb.Fold.Parts.{Write}
use stromadb.Fold.Commute.{Compatible, apply_labeled_comm}
use stromadb.Fold.Convergence.{fold_labeled-eq_of_same_writes}
use stromadb.Fold.Total.{Obeys, IsTyped, fold_labeled_total}
use stromadb.Fold.Gc.{gc, observe}
use stromadb.Fold.Gc.Observed.{observe-gc}
use stromadb.Fold.Tags.{LiveAdd, live_tags, live_tags-remove_many}
use stromadb.Changelog.Ops.{record_to_op, replay}
use stromadb.Changelog.Replay.{log_writes}
use stromadb.Changelog.Delivery.{log_writes-Coherent, replay-delivered}
use stromadb.Tests.Data.{
  works_at, moves_to, knows, schema, key_at, hired, met, delivered, two_records,
}

works_at-moves_to-Compatible : Compatible works_at moves_to
works_at-moves_to-Compatible = record {
  one_cardinality = λ k c d p q. cc;
  unique = λ ok p q. absurd (ground arith);
}

works_at-Compatible : Compatible works_at works_at
works_at-Compatible = record { one_cardinality = λ k c d p q. cc; unique = λ ok p q. refl }

apply_labeled_comm_example :
    (apply_labeled works_at.0 works_at.1 empty_fold >>= apply_labeled moves_to.0 moves_to.1)
    ≡ (apply_labeled moves_to.0 moves_to.1 empty_fold >>= apply_labeled works_at.0 works_at.1)
apply_labeled_comm_example =
    apply_labeled_comm works_at moves_to empty_fold works_at-moves_to-Compatible

fold_labeled_total_example :
    (f : Fold) × (fold_labeled (works_at ∷ knows ∷ []) ≡ some f) × IsTyped schema f.keys
fold_labeled_total_example =
    fold_labeled_total schema (works_at ∷ knows ∷ []) (works_at_obeys, (knows_obeys, _))
  where
    works_at_obeys : Obeys schema works_at.0
    works_at_obeys k c p = ground arith

    knows_obeys : Obeys schema knows.0
    knows_obeys k c p = ground arith

module _ {A : Type 0} (a b w : A) where
  swapped : Mem w (a ∷ b ∷ []) → Mem w (b ∷ a ∷ b ∷ [])
  swapped m = mem-cons_of_mem b m

  Mem-prop : IsProp (Mem w (a ∷ b ∷ []))
  Mem-prop = hlevel

  unswapped : Mem w (b ∷ a ∷ b ∷ []) → Mem w (a ∷ b ∷ [])
  unswapped m =
      Or.elim Mem-prop (mem-cons.0 m)
        (λ e. subst (λ v. Mem v (a ∷ b ∷ [])) (sym e) (mem-cons_of_mem a mem-cons_self)) (λ n. n)

two_records_obey : All (λ w. Obeys schema w.0) (log_writes 0 two_records.records)
unfolding log_writes record_to_op
two_records_obey = ((λ k c p. ground arith), ((λ k c p. ground arith), _))

same_writes : (w : Write) → Mem w delivered ↔ Mem w (log_writes 0 two_records.records)
unfolding log_writes record_to_op
same_writes w = (unswapped hired met w, swapped hired met w)

same_writes_back : (w : Write) → Mem w (log_writes 0 two_records.records) ↔ Mem w delivered
same_writes_back w = ((same_writes w).1, (same_writes w).0)

fold_labeled-eq_of_same_writes_example :
    fold_labeled (log_writes 0 two_records.records) ≡ fold_labeled delivered
fold_labeled-eq_of_same_writes_example =
    fold_labeled-eq_of_same_writes (log_writes 0 two_records.records) delivered
      (log_writes-Coherent schema 0 two_records.records two_records_obey) same_writes_back

replay-delivered_example :
    (f : Fold) × (replay two_records ≡ some f) × (fold_labeled delivered ≡ some f)
replay-delivered_example =
    replay-delivered schema two_records delivered two_records_obey same_writes

-- The fold of the two writes.
abbrev both : Fold
both = record {
  keys =
      (
        (10, 2),
        KeyState.one (record {
          versions =
              (
                key_at 0,
                record { object = some (ObjKey.node 20); valid_from = ℤ.pos 100; valid_to = none },
              )
              ∷ [];
          hd = none;
        }),
      )
      ∷ (
        (10, 4),
        KeyState.many (record {
          elems =
              (
                ObjKey.node 30,
                (
                  key_at 1,
                  record {
                    object = some (ObjKey.node 30);
                    valid_from = ℤ.pos 100;
                    valid_to = none;
                  },
                )
                    ∷ [],
              )
              ∷ [];
          removes = [];
          hd = none;
        }),
      )
      ∷ [];
  edge_props = [];
  node_attrs = [];
  fact_labels = ((10, 2), (key_at 0, 3) ∷ []) ∷ [];
}

both_folds : fold_labeled (hired ∷ met ∷ []) ≡ some both
unfolding fold_labeled get insert
both_folds = refl

observe-gc_example : observe (λ o. 0) (gc both) ≡ observe (λ o. 0) both
observe-gc_example = observe-gc (λ o. 0) (hired ∷ met ∷ []) both both_folds

abbrev friends : ManyState
friends = record {
  elems =
      (
        ObjKey.node 30,
        (
          key_at 1,
          record { object = some (ObjKey.node 30); valid_from = ℤ.pos 100; valid_to = none },
        )
            ∷ [],
      )
      ∷ [];
  removes = [];
  hd = none;
}

friends_stored : get (10, 4) both.keys ≡ some (KeyState.many friends)
unfolding get
friends_stored = refl

live_tags-remove_many_example :
    (t : ManyState) × (apply (Op.remove_many 10 4 (live_tags 10 4 (ObjKey.node 30) both)) both
      ≡ some (record both { keys = insert (10, 4) (KeyState.many t) both.keys }))
    × (t.elems ≡ friends.elems)
    × (t.hd ≡ friends.hd)
    × ((x : OrderKey)
        → (contains x t.removes ≡ true) ↔ (
            LiveAdd friends x (get_or [] (ObjKey.node 30) friends.elems)
            ⊎ (contains x friends.removes ≡ true)))
    × ((x : OrderKey) → LiveAdd t x (get_or [] (ObjKey.node 30) t.elems) → ⊥)
live_tags-remove_many_example =
    live_tags-remove_many both friends 10 4 (ObjKey.node 30) friends_stored

-- The element has a tag to remove.
friend_tagged : live_tags 10 4 (ObjKey.node 30) both ≡ key_at 1 ∷ []
unfolding live_tags get
friend_tagged = refl
