-- ===== src/Fold/Total.antt =====
-- crates/stroma-core/src/fold.rs, `Fold::apply_labeled`: no panic where each key keeps one
-- cardinality.
use stromadb.Base.{◌≡◌, refl, sym, ap, ◌∙◌, Option, none, some, List, [], ◌∷◌, inl, inr, arith}
use stromadb.Base.Tests.{Bool-cases, Option-cases}
use stromadb.Base.Lists.{All}
use stromadb.Base.Map.{BTreeMap, get, insert, get_or, get-insert}
use stromadb.Base.Order.{is_eq, is_eq→eq, nat_ord, pair_ord}
use stromadb.Catalog.{Cardinality}
use stromadb.Fold.State.{Key, Op, KeyState, new_state, Fold, empty_fold}
use stromadb.Fold.Apply.{on_key, apply_labeled, fold_labeled_from, fold_labeled}
use stromadb.Fold.Change.{Change, change}
use stromadb.Fold.Commute.{change_of-declares}
use stromadb.Fold.Parts.{Write, declares, change_of, keys_step, stepped, apply_labeled_parts}

abbrev pub cardinality_of : KeyState → Cardinality
cardinality_of (KeyState.one s) = Cardinality.one
cardinality_of (KeyState.many s) = Cardinality.many

-- The change that `change_of` gives for an operation suits the cardinality that it declares.
abbrev Suits : Change → Cardinality → Type 0
Suits (Change.row ok v) c = c ≡ Cardinality.one
Suits (Change.element o ok v) c = c ≡ Cardinality.many
Suits (Change.drop observed) c = c ≡ Cardinality.many
Suits (Change.floor ok) c = Unit

change_total :
    (x : Change) (st : KeyState)
    → Suits x (cardinality_of st)
    → (t : KeyState) × (change x st ≡ some t) × (cardinality_of t ≡ cardinality_of st)
change_total (Change.row ok v) (KeyState.one s) h = (_, refl, refl)
change_total (Change.row ok v) (KeyState.many s) h = cc
change_total (Change.element o ok v) (KeyState.one s) h = cc
change_total (Change.element o ok v) (KeyState.many s) h = (_, refl, refl)
change_total (Change.drop observed) (KeyState.one s) h = cc
change_total (Change.drop observed) (KeyState.many s) h = (_, refl, refl)
change_total (Change.floor ok) (KeyState.one s) h = (_, refl, refl)
change_total (Change.floor ok) (KeyState.many s) h = (_, refl, refl)

cardinality_of-new_state : (c : Cardinality) → cardinality_of (new_state c) ≡ c
cardinality_of-new_state Cardinality.one = refl
cardinality_of-new_state Cardinality.many = refl

abbrev SuitsItsKey : Option (Key × Cardinality × Change) → Type 0
SuitsItsKey none = Unit
SuitsItsKey (some (k, c, x)) = Suits x c

change_of-SuitsItsKey : (op : Op) → SuitsItsKey (change_of op)
change_of-SuitsItsKey (Op.set_one s p o vf vt ok) = refl
change_of-SuitsItsKey (Op.close_one s p vf ok) = refl
change_of-SuitsItsKey (Op.add_many s p o vf vt ok) = refl
change_of-SuitsItsKey (Op.close_many s p o vf ok) = refl
change_of-SuitsItsKey (Op.remove_many s p observed) = refl
change_of-SuitsItsKey _ = tt

module _ (cardinality : Key → Cardinality) where
  -- Every key of the fold has the state of its cardinality.
  pub record IsTyped (m : BTreeMap Key KeyState) : Type 0 where
    pub at : (k : Key) (st : KeyState) → get k m ≡ some st → cardinality_of st ≡ cardinality k

  -- The operation takes its key to have the cardinality that the key has.
  abbrev pub Obeys : Op → Type 0
  Obeys op = (k : Key) (c : Cardinality) → declares op ≡ some (k, c) → c ≡ cardinality k

  entry_cardinality :
      (k : Key) (c : Cardinality) (m : BTreeMap Key KeyState)
      → IsTyped m
      → c ≡ cardinality k
      → cardinality_of (get_or (new_state c) k m) ≡ c
  entry_cardinality k c m h e = elim (Option-cases (get k m)) [
    | inl n ↦ rw n (cardinality_of-new_state c)
    | inr (st, n) ↦ rw n (h.at k st n ∙ sym e)
  ]

  insert-IsTyped :
      (k : Key) (st : KeyState) (m : BTreeMap Key KeyState)
      → cardinality_of st ≡ cardinality k
      → IsTyped m
      → IsTyped (insert k st m)
  insert-IsTyped k st m e h = record {
    at = λ j t g. elim (Bool-cases (is_eq k j)) [
      | inl q ↦
          let p : k ≡ j = is_eq→eq k j q in
          let same : st ≡ t = ground (arith, get-insert j k st m) in
          sym (ap cardinality_of same) ∙ e ∙ ap cardinality p
      | inr q ↦ h.at j t (ground (arith, get-insert j k st m))
    ];
  }

  on_key_total :
      (k : Key) (c : Cardinality) (x : Change) (m : BTreeMap Key KeyState)
      → IsTyped m
      → c ≡ cardinality k
      → Suits x c
      → (m' : BTreeMap Key KeyState) × (on_key k c (change x) m ≡ some m') × IsTyped m'
  on_key_total k c x m h e s =
      let st = get_or (new_state c) k m in
      let kept = entry_cardinality k c m h e in
      let (t, made, same) = change_total x st (rw kept s) in
      (insert k t m, rw made refl, insert-IsTyped k t m (same ∙ kept ∙ e) h)

  keys_step_total :
      (x : Option (Key × Cardinality × Change)) (m : BTreeMap Key KeyState)
      → IsTyped m
      → SuitsItsKey x
      → ((k : Key) (c : Cardinality) (p : Change) → x ≡ some (k, c, p) → c ≡ cardinality k)
      → (m' : BTreeMap Key KeyState) × (keys_step x m ≡ some m') × IsTyped m'
  keys_step_total none m h s e = (m, refl, h)
  keys_step_total (some (k, c, p)) m h s e = on_key_total k c p m h (e k c p refl) s

  -- An operation that obeys the cardinalities does not panic, and leaves the fold typed.
  pub apply_labeled_total :
      (w : Write) (f : Fold)
      → IsTyped f.keys
      → Obeys w.0
      → (f' : Fold) × (apply_labeled w.0 w.1 f ≡ some f') × IsTyped f'.keys
  apply_labeled_total w f h e =
      let (ks, made, typed) =
        keys_step_total (change_of w.0) f.keys h (change_of-SuitsItsKey w.0)
          (λ k c p q. e k c (change_of-declares w.0 k c p q)) in
      (stepped w f ks, rw (apply_labeled_parts w f) (rw made refl), typed)

  fold_labeled_from_total :
      (ws : List Write) (f : Fold)
      → IsTyped f.keys
      → All (λ w. Obeys w.0) ws
      → (f' : Fold) × (fold_labeled_from f ws ≡ some f') × IsTyped f'.keys
  unfolding fold_labeled_from
  fold_labeled_from_total [] f h e = (f, refl, h)
  fold_labeled_from_total (w ∷ ws) f h (e, es) =
      let (g, made, typed) = apply_labeled_total w f h e in
      let (f', ran, last) = fold_labeled_from_total ws g typed es in (f', rw made ran, last)

  -- A stream whose operations obey one assignment of cardinalities to the keys folds without a
  -- panic, and every key of the fold has the state of its cardinality.
  pub fold_labeled_total :
      (ws : List Write)
      → All (λ w. Obeys w.0) ws
      → (f : Fold) × (fold_labeled ws ≡ some f) × IsTyped f.keys
  unfolding fold_labeled get
  fold_labeled_total ws e = fold_labeled_from_total ws empty_fold (record { at = λ k st h. cc }) e
