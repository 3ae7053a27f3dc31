-- ===== src/Base/Map/Entries.antt =====
-- A map in order is known by its lookups, and an entry can be taken out and put back.
use mathlib.Core.Path.{◌≡◌, refl, sym, ap, ◌∙◌, subst}
use mathlib.Core.Bool.{Bool, ◌||◌}
use mathlib.Core.Option.{none, some}
use mathlib.Core.List.{List, [], ◌∷◌}
use native.Mathlib.Omega.{arith}
use stromadb.Base.Tests.{if◌then◌else◌, is_some}
use stromadb.Base.Lists.{any}
use stromadb.Base.Order.{Ord, is_eq}
use stromadb.Base.Map.{
  BTreeMap, BTreeSet, keys, get, insert, remove, extend, get-insert, set_insert,
}
use stromadb.Base.Map.Sorted.{Above, Above-le, IsSorted, get-Above}

module _ {ℓ κ} {K : Type ℓ} {V : Type κ} ⦃o : Ord K⦄ where
  Above-remove : (k j : K) (m : BTreeMap K V) → Above k m → Above k (remove j m)
  unfolding remove
  Above-remove k j [] a = tt
  Above-remove k j ((i, w) ∷ m) a = ground (arith, Above-remove k j m a.1)

  pub remove-IsSorted : (k : K) (m : BTreeMap K V) → IsSorted m → IsSorted (remove k m)
  unfolding remove
  remove-IsSorted k [] s = tt
  remove-IsSorted k ((i, w) ∷ m) s = ground (arith, remove-IsSorted k m s.1, Above-remove i k m s.0)

  pub get-remove :
      (j k : K) (m : BTreeMap K V)
      → IsSorted m
      → get j (remove k m) ≡ (if is_eq k j then none else get j m)
  unfolding get remove
  get-remove j k [] s = ground arith
  get-remove j k ((i, w) ∷ m) s = ground (
    arith,
    get-remove j k m s.1,
    o.equal k i,
    o.equal j i,
    o.equal k j,
    o.same j,
    o.flipped j k,
    get-Above i m s.0,
  )

  pub insert-present :
      (k : K) (v : V) (m : BTreeMap K V) → IsSorted m → get k m ≡ some v → insert k v m ≡ m
  unfolding get insert
  insert-present k v [] s h = ground arith
  insert-present k v ((i, w) ∷ m) s h =
      ground (arith, insert-present k v m s.1, o.equal k i, Above-le k i m, get-Above k m)

  pub remove-insert :
      (k : K) (v : V) (m : BTreeMap K V) → IsSorted m → get k m ≡ none → remove k (insert k v m) ≡ m
  unfolding get insert remove
  remove-insert k v [] s h = ground (arith, o.same k)
  remove-insert k v ((i, w) ∷ m) s h = ground (arith, o.same k, remove-insert k v m s.1)

  pub remove-absent : (k : K) (m : BTreeMap K V) → get k m ≡ none → remove k m ≡ m
  unfolding get remove
  remove-absent k [] h = refl
  remove-absent k ((i, w) ∷ m) h = ground (arith, remove-absent k m)

  insert-Above : (k : K) (v : V) (m : BTreeMap K V) → Above k m → insert k v m ≡ (k, v) ∷ m
  unfolding insert
  insert-Above k v [] a = refl
  insert-Above k v ((i, w) ∷ m) a = ground (arith, a.0)

  pub insert-remove :
      (k : K) (v : V) (m : BTreeMap K V)
      → IsSorted m
      → get k m ≡ some v
      → insert k v (remove k m) ≡ m
  unfolding get insert remove
  insert-remove k v [] s h = ground arith
  insert-remove k v ((i, w) ∷ m) s h = ground (
    arith,
    insert-remove k v m s.1,
    o.equal k i,
    Above-le k i m,
    get-Above k m,
    insert-Above i v m s.0,
    o.same k,
  )

  -- the first keys of two maps with the same lookups agree
  heads_agree :
      (i j : K) (w x : V) (m n : BTreeMap K V)
      → IsSorted ((i, w) ∷ m)
      → IsSorted ((j, x) ∷ n)
      → ((k : K) → get k ((i, w) ∷ m) ≡ get k ((j, x) ∷ n))
      → (i ≡ j) × (w ≡ x)
  unfolding get
  heads_agree i j w x m n s t h = ground (
    arith,
    h i,
    h j,
    o.equal i j,
    o.flipped i j,
    o.same i,
    o.same j,
    Above-le i j n,
    Above-le j i m,
    get-Above i n,
    get-Above j m,
  )

  tails_agree :
      (i : K) (w : V) (m n : BTreeMap K V)
      → IsSorted ((i, w) ∷ m)
      → IsSorted ((i, w) ∷ n)
      → (k : K) → get k ((i, w) ∷ m) ≡ get k ((i, w) ∷ n)
      → get k m ≡ get k n
  unfolding get
  tails_agree i w m n s t k h = ground (arith, o.equal k i, get-Above i m s.0, get-Above i n t.0)

  pub IsSorted-ext :
      (m n : BTreeMap K V) → IsSorted m → IsSorted n → ((k : K) → get k m ≡ get k n) → m ≡ n
  IsSorted-ext [] [] s t h = refl
  IsSorted-ext [] ((i, w) ∷ n) s t h = unfold get in ground (arith, h i, o.same i)
  IsSorted-ext ((i, w) ∷ m) [] s t h = unfold get in ground (arith, h i, o.same i)
  IsSorted-ext ((i, w) ∷ m) ((j, x) ∷ n) s t h =
      let (p, q) = heads_agree i j w x m n s t h in
      let e : (i, w) ≡ (j, x) = (λ r. (p r, q r)) in
      let t' : IsSorted ((i, w) ∷ n) = subst (λ y. IsSorted (y ∷ n)) (sym e) t in
      let h' : (k : K) → get k ((i, w) ∷ m) ≡ get k ((i, w) ∷ n) =
        λ k. h k ∙ ap (λ y. get k (y ∷ n)) (sym e) in
      ap (λ l. (i, w) ∷ l) (IsSorted-ext m n s.1 t'.1 (λ k. tails_agree i w m n s t' k (h' k)))
      ∙ ap (λ y. y ∷ n) e

-- Membership of a key in a list, by the order's test.
abbrev pub elem {ℓ} : {K : Type ℓ} ⦃o : Ord K⦄ → K → List K → Bool
elem k = any (is_eq k)

module _ {ℓ κ} {K : Type ℓ} {V : Type κ} ⦃o : Ord K⦄ where
  pub elem-keys : (k : K) (m : BTreeMap K V) → elem k (keys m) ≡ is_some (get k m)
  unfolding get
  elem-keys k [] = refl
  elem-keys k ((i, w) ∷ m) = ground (arith, elem-keys k m)

module _ {ℓ} {K : Type ℓ} ⦃o : Ord K⦄ where
  pub contains-extend :
      (k : K) (ts : List K) (s : BTreeSet K)
      → is_some (get k (extend ts s)) ≡ (elem k ts || is_some (get k s))
  unfolding extend
  contains-extend k [] s = refl
  contains-extend k (t ∷ ts) s =
      contains-extend k ts (set_insert t s) ∙ ground (arith, get-insert k t tt s, o.flipped k t)
