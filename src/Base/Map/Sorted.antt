-- ===== src/Base/Map/Sorted.antt =====
-- The entries of a map stand in the order of their keys, each key once.
use Prim.Native.Nat.Ordering.{lt}
use mathlib.Core.Path.{◌≡◌, refl, ap}
use mathlib.Core.Logic.{inl, inr}
use mathlib.Core.Bool.{Bool, true}
use mathlib.Core.Option.{Option, none, some}
use mathlib.Core.List.{[], ◌∷◌}
use native.Mathlib.Omega.{arith}
use stromadb.Base.Tests.{if◌then◌else◌, Bool-cases}
use stromadb.Base.Order.{Ord}
use stromadb.Base.Map.{BTreeMap, keys, get, insert, retain, retain_values, map_values}

-- `Option::filter`
abbrev pub keep_if {ℓ} : {V : Type ℓ} → (V → Bool) → Option V → Option V
keep_if p none = none
keep_if p (some v) = if p v then some v else none

module _ {ℓ κ} {K : Type ℓ} {V : Type κ} ⦃o : Ord K⦄ where
  -- every key of the map is greater
  abbrev pub Above : K → BTreeMap K V → Type 0
  Above k [] = Unit
  Above k ((j, v) ∷ m) = (o.cmp k j ≡ lt) × Above k m

  abbrev pub IsSorted : BTreeMap K V → Type 0
  IsSorted [] = Unit
  IsSorted ((k, v) ∷ m) = Above k m × IsSorted m

  pub Above-le : (k j : K) (m : BTreeMap K V) → o.cmp k j ≡ lt → Above j m → Above k m
  Above-le k j [] h a = tt
  Above-le k j ((i, v) ∷ m) h a = (o.chained k j i h a.0, Above-le k j m h a.1)

  pub get-Above : (k : K) (m : BTreeMap K V) → Above k m → get k m ≡ none
  unfolding get
  get-Above k [] a = refl
  get-Above k ((i, v) ∷ m) a = ground (arith, get-Above k m a.1)

  Above-insert :
      (k j : K) (v : V) (m : BTreeMap K V) → o.cmp k j ≡ lt → Above k m → Above k (insert j v m)
  unfolding insert
  Above-insert k j v [] h a = (h, tt)
  Above-insert k j v ((i, w) ∷ m) h a = ground (arith, Above-insert k j v m h a.1)

  pub insert-IsSorted : (k : K) (v : V) (m : BTreeMap K V) → IsSorted m → IsSorted (insert k v m)
  unfolding insert
  insert-IsSorted k v [] s = (tt, tt)
  insert-IsSorted k v ((i, w) ∷ m) s = ground (
    arith,
    insert-IsSorted k v m s.1,
    Above-insert i k v m,
    Above-le k i m,
    o.flipped k i,
    o.equal k i,
  )

  Above-retain_values :
      (k : K) (p : V → Bool) (m : BTreeMap K V) → Above k m → Above k (retain_values p m)
  unfolding retain_values
  Above-retain_values k p [] a = tt
  Above-retain_values k p ((i, v) ∷ m) a = ground (arith, Above-retain_values k p m a.1)

  pub get-retain_values :
      (k : K) (p : V → Bool) (m : BTreeMap K V)
      → IsSorted m
      → get k (retain_values p m) ≡ keep_if p (get k m)
  unfolding get retain_values
  get-retain_values k p [] s = refl
  get-retain_values k p ((i, v) ∷ m) s =
      ground (arith, get-retain_values k p m s.1, get-Above k m, o.equal k i, get-Above i m s.0)

module _ {ℓ κ μ} {K : Type ℓ} {V : Type κ} {W : Type μ} ⦃o : Ord K⦄ where
  Above-map_values :
      (k : K) (f : K → V → W) (m : BTreeMap K V) → Above k m → Above k (map_values f m)
  unfolding map_values
  Above-map_values k f [] a = tt
  Above-map_values k f ((i, v) ∷ m) a = (a.0, Above-map_values k f m a.1)

  pub map_values-IsSorted :
      (f : K → V → W) (m : BTreeMap K V) → IsSorted m → IsSorted (map_values f m)
  unfolding map_values
  map_values-IsSorted f [] s = tt
  map_values-IsSorted f ((i, v) ∷ m) s = (Above-map_values i f m s.0, map_values-IsSorted f m s.1)

  pub keys-map_values : (f : K → V → W) (m : BTreeMap K V) → keys (map_values f m) ≡ keys m
  unfolding map_values
  keys-map_values f [] = refl
  keys-map_values f ((i, v) ∷ m) = ap (◌∷◌ i) (keys-map_values f m)

module _ {ℓ κ} {K : Type ℓ} {V : Type κ} where
  pub retain-retain :
      (p q : K → Bool) (m : BTreeMap K V)
      → ((k : K) → p k ≡ true → q k ≡ true)
      → retain p (retain q m) ≡ retain p m
  unfolding retain
  retain-retain p q [] h = refl
  retain-retain p q ((k, v) ∷ m) h = elim (Bool-cases (q k)) [
    | inl e ↦ ground (arith, retain-retain p q m h)
    | inr e ↦ ground (arith, retain-retain p q m h, h k)
  ]
