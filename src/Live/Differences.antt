-- ===== src/Live/Differences.antt =====
-- crates/stroma-core/src/live.rs, `Diff::between`.
use stromadb.Base.{
  ◌≡◌, refl, arith, Bool, true, false, not, ◌&&◌, Option, none, some, List, [], ◌∷◌,
}
use stromadb.Base.Tests.{is_some}
use stromadb.Base.Lists.{is_empty}
use stromadb.Base.Map.{BTreeMap, BTreeSet, keys, get, insert, retain, contains, extend, get-retain}
use stromadb.Base.Map.Sorted.{Above, IsSorted, insert-IsSorted}
use stromadb.Base.Map.Entries.{elem-keys, contains-extend, IsSorted-ext}
use stromadb.Base.Order.{Ord, nat_ord}
use stromadb.Fact.{NodeId}
use stromadb.Live.{Diff, is_empty_diff, difference, between}

-- A result that a receiver of a difference keeps.
abbrev pub patched : Diff → BTreeSet NodeId → BTreeSet NodeId
patched d s = extend (keys d.added) (retain (λ n. not (contains n d.removed)) s)

module _ {ℓ κ} {K : Type ℓ} {V : Type κ} ⦃o : Ord K⦄ where
  Above-retain : (k : K) (p : K → Bool) (m : BTreeMap K V) → Above k m → Above k (retain p m)
  unfolding retain
  Above-retain k p [] a = tt
  Above-retain k p ((j, v) ∷ m) a = ground (arith, Above-retain k p m a.1)

  pub retain-IsSorted : (p : K → Bool) (m : BTreeMap K V) → IsSorted m → IsSorted (retain p m)
  unfolding retain
  retain-IsSorted p [] s = tt
  retain-IsSorted p ((j, v) ∷ m) s = ground (arith, retain-IsSorted p m s.1, Above-retain j p m s.0)

extend-IsSorted : (ns : List NodeId) (s : BTreeSet NodeId) → IsSorted s → IsSorted (extend ns s)
unfolding extend
extend-IsSorted [] s h = h
extend-IsSorted (n ∷ ns) s h = extend-IsSorted ns (insert n tt s) (insert-IsSorted n tt s h)

same_units : (x y : Option (Unit {0})) → is_some x ≡ is_some y → x ≡ y
same_units none none e = refl
same_units (some x) (some y) e = refl
same_units none (some y) e = cc
same_units (some x) none e = cc

-- Two sets in order with the same members are the same.
pub set_ext :
    (a b : BTreeSet NodeId)
    → IsSorted a
    → IsSorted b
    → ((n : NodeId) → contains n a ≡ contains n b)
    → a ≡ b
set_ext a b s t h = IsSorted-ext a b s t (λ n. same_units (get n a) (get n b) (h n))

pub contains-difference :
    (n : NodeId) (a b : BTreeSet NodeId)
    → contains n (difference a b) ≡ (contains n a && not (contains n b))
unfolding difference
contains-difference n a b = ground (arith, get-retain (λ k. not (contains k b)) n a)

contains-empty : (n : NodeId) (s : BTreeSet NodeId) → is_empty s ≡ true → contains n s ≡ false
unfolding get
contains-empty n [] h = refl
contains-empty n (x ∷ s) h = cc

-- A receiver that has the old result and applies the difference has the new one, for results in
-- order.
pub patched-between :
    (old new : BTreeSet NodeId) → IsSorted old → IsSorted new → patched (between old new) old ≡ new
unfolding between
patched-between old new s t =
    set_ext (patched (between old new) old) new
      (extend-IsSorted (keys (difference new old)) _
        (retain-IsSorted (λ n. not (contains n (difference old new))) old s))
      t
      (λ n. ground (
        arith,
        contains-extend n (keys (difference new old))
            (retain (λ n. not (contains n (difference old new))) old),
        elem-keys n (difference new old),
        contains-difference n new old,
        get-retain (λ n. not (contains n (difference old new))) n old,
        contains-difference n old new,
      ))

-- A difference is empty only between results that are the same.
pub is_empty_diff-between :
    (old new : BTreeSet NodeId)
    → IsSorted old
    → IsSorted new
    → is_empty_diff (between old new) ≡ true
    → old ≡ new
unfolding is_empty_diff between
is_empty_diff-between old new s t h = set_ext old new s t (λ n. ground (
  arith,
  contains-empty n (difference new old),
  contains-empty n (difference old new),
  contains-difference n new old,
  contains-difference n old new,
))
