-- ===== src/Base/Map.antt =====
-- The standard library's ordered collections as the program uses them: a `BTreeMap` is the list of
-- its entries in the order of the keys, and a `BTreeSet` is a map into the unit type.
pub mod Sorted
pub mod Entries
use Prim.Native.Nat.Ordering.{lt, eq, gt}
use mathlib.Core.Path.{◌≡◌, refl, sym, ap, ◌∙◌, subst, fun_ext}
use mathlib.Core.Logic.{◌≢◌, inl, inr}
use mathlib.Core.Bool.{Bool, true, false, ◌&&◌}
use mathlib.Core.Option.{Option, none, some}
use mathlib.Core.List.{List, [], ◌∷◌, ◌++◌, map}
use native.Mathlib.Omega.{arith}
use stromadb.Base.Tests.{if◌then◌else◌, is_some, unwrap_or, map_option, Bool-cases}
use stromadb.Base.Order.{Ord, is_eq, is_lt, is_eq_refl, is_eq→eq}

abbrev pub BTreeMap {ℓ κ} : Type ℓ → Type κ → Type (ℓ ⊔ κ)
BTreeMap K V = List (K × V)

abbrev pub BTreeSet {ℓ} : Type ℓ → Type ℓ
BTreeSet K = List (K × Unit {0})

module _ {ℓ κ} {K : Type ℓ} {V : Type κ} where
  abbrev pub keys : BTreeMap K V → List K
  keys [] = []
  keys ((k, v) ∷ m) = k ∷ keys m

  abbrev pub values : BTreeMap K V → List V
  values [] = []
  values ((k, v) ∷ m) = v ∷ values m

  -- `retain` with a test on the key
  unfoldable pub retain : (K → Bool) → BTreeMap K V → BTreeMap K V
  retain p [] = []
  retain p ((k, v) ∷ m) = let rest = retain p m in if p k then (k, v) ∷ rest else rest

  -- `retain` with a test on the value
  unfoldable pub retain_values : (V → Bool) → BTreeMap K V → BTreeMap K V
  retain_values p [] = []
  retain_values p ((k, v) ∷ m) = let rest = retain_values p m in if p v then (k, v) ∷ rest else rest

module _ {ℓ κ μ} {K : Type ℓ} {V : Type κ} {W : Type μ} where
  -- `for st in m.values_mut()`
  unfoldable pub map_values : (K → V → W) → BTreeMap K V → BTreeMap K W
  map_values f [] = []
  map_values f ((k, v) ∷ m) = (k, f k v) ∷ map_values f m

module _ {ℓ κ} {K : Type ℓ} {V : Type κ} ⦃o : Ord K⦄ where
  unfoldable pub get : K → BTreeMap K V → Option V
  get k [] = none
  get k ((j, v) ∷ m) = elim (o.cmp k j) [ eq ↦ some v | _ ↦ get k m ]

  unfoldable pub insert : K → V → BTreeMap K V → BTreeMap K V
  insert k v [] = (k, v) ∷ []
  insert k v ((j, w) ∷ m) = elim (o.cmp k j) [
    | lt ↦ (k, v) ∷ (j, w) ∷ m
    | eq ↦ (k, v) ∷ m
    | gt ↦ (j, w) ∷ insert k v m
  ]

  unfoldable pub remove : K → BTreeMap K V → BTreeMap K V
  remove k [] = []
  remove k ((j, w) ∷ m) = elim (o.cmp k j) [ eq ↦ m | _ ↦ (j, w) ∷ remove k m ]

  -- `entry(k).or_default()`, `or_insert(d)`
  abbrev pub get_or : V → K → BTreeMap K V → V
  get_or d k m = unwrap_or (get k m) d

  abbrev pub contains_key : K → BTreeMap K V → Bool
  contains_key k m = is_some (get k m)

  pub get-insert :
      (j k : K) (v : V) (m : BTreeMap K V)
      → get j (insert k v m) ≡ (if is_eq k j then some v else get j m)
  unfolding get insert
  get-insert j k v [] = ground (arith, o.flipped j k)
  get-insert j k v ((i, w) ∷ m) =
      ground
        (arith, get-insert j k v m, o.flipped j k, o.equal k i, o.equal j i, o.equal j k, o.same j)

  pub get-insert_self : (k : K) (v : V) (m : BTreeMap K V) → get k (insert k v m) ≡ some v
  get-insert_self k v m = ground (arith, get-insert k k v m, o.same k)

  pub get-insert_ne : (j k : K) (v : V) (m : BTreeMap K V) → k ≢ j → get j (insert k v m) ≡ get j m
  get-insert_ne j k v m n = ground (arith, get-insert j k v m, o.equal k j)

  -- the last write to a key is the one that stays
  pub insert-insert_self :
      (k : K) (v w : V) (m : BTreeMap K V) → insert k v (insert k w m) ≡ insert k v m
  unfolding insert
  insert-insert_self k v w [] = ground (arith, o.same k)
  insert-insert_self k v w ((j, x) ∷ m) = ground (arith, insert-insert_self k v w m, o.same k)

  -- writes to different keys commute
  pub insert_comm :
      (k j : K) (v w : V) (m : BTreeMap K V)
      → k ≢ j
      → insert k v (insert j w m) ≡ insert j w (insert k v m)
  unfolding insert
  insert_comm k j v w [] n = ground (arith, o.equal k j, o.flipped k j)
  insert_comm k j v w ((i, x) ∷ m) n = ground (
    arith,
    insert_comm k j v w m n,
    o.equal k j,
    o.flipped k j,
    o.equal k i,
    o.equal j i,
    o.flipped k i,
    o.flipped j i,
    o.chained k i j,
    o.chained j i k,
  )

  -- a write of what is there changes nothing
  pub get-retain :
      (p : K → Bool) (k : K) (m : BTreeMap K V)
      → get k (retain p m) ≡ (if p k then get k m else none)
  unfolding get retain
  get-retain p k [] = ground arith
  get-retain p k ((j, v) ∷ m) = elim (Bool-cases (p j)) [
    | inl e ↦ ground (arith, get-retain p k m, o.equal k j)
    | inr e ↦ ground (arith, get-retain p k m, o.equal k j)
  ]

module _ {ℓ κ} {K : Type ℓ} {V : Type κ} ⦃o : Ord K⦄ where
  -- `entry(k)`, then a change of the value that stands there, or of none.
  abbrev pub update : K → (Option V → V) → BTreeMap K V → BTreeMap K V
  update k f m = insert k (f (get k m)) m

  pub get-update_self :
      (k : K) (f : Option V → V) (m : BTreeMap K V) → get k (update k f m) ≡ some (f (get k m))
  get-update_self k f m = get-insert_self k (f (get k m)) m

  pub update-update_self :
      (k : K) (f g : Option V → V) (m : BTreeMap K V)
      → update k f (update k g m) ≡ update k (λ v. f (some (g v))) m
  update-update_self k f g m = rw (get-insert_self, insert-insert_self)

  update_comm_ne :
      (k j : K) (f g : Option V → V) (m : BTreeMap K V)
      → k ≢ j
      → update k f (update j g m) ≡ update j g (update k f m)
  update_comm_ne k j f g m n =
      rw (get-insert_ne k j (g (get j m)) m (λ e. n (sym e)))
        (rw (get-insert_ne j k (f (get k m)) m n) (insert_comm k j (f (get k m)) (g (get j m)) m n))

  -- two changes commute if they do so where their keys agree
  pub update_comm :
      (k j : K) (f g : Option V → V) (m : BTreeMap K V)
      → (k ≡ j → (v : Option V) → f (some (g v)) ≡ g (some (f v)))
      → update k f (update j g m) ≡ update j g (update k f m)
  update_comm k j f g m h = elim (Bool-cases (is_eq k j)) [
    | inr e ↦ update_comm_ne k j f g m (λ p. ground (arith, is_eq_refl k))
    | inl e ↦
        let p : k ≡ j = is_eq→eq k j e in
        subst (λ i. update k f (update i g m) ≡ update i g (update k f m)) p
          (update-update_self k f g m
            ∙ ap (λ u. insert k (u (get k m)) m) (fun_ext (h p))
            ∙ sym (update-update_self k g f m))
  ]

module _ {ℓ κ μ} {K : Type ℓ} {V : Type κ} {W : Type μ} ⦃o : Ord K⦄ where
  pub get-map_values :
      (f : K → V → W) (k : K) (m : BTreeMap K V)
      → get k (map_values f m) ≡ map_option (f k) (get k m)
  unfolding get map_values
  get-map_values f k [] = refl
  get-map_values f k ((j, v) ∷ m) = ground (arith, get-map_values f k m, o.equal k j)

module _ {ℓ} {K : Type ℓ} ⦃o : Ord K⦄ where
  abbrev pub set_insert : K → BTreeSet K → BTreeSet K
  set_insert k s = insert k tt s

  abbrev pub contains : K → BTreeSet K → Bool
  contains k s = is_some (get k s)

  -- `for t in ts { s.insert(t) }`
  unfoldable pub extend : List K → BTreeSet K → BTreeSet K
  extend [] s = s
  extend (t ∷ ts) s = extend ts (set_insert t s)
