-- ===== src/Query/Lawful.antt =====
-- crates/stroma-core/src/mask.rs, `impl Facts for Snapshot`: the visits against the lookups.
use mathlib.Core.Path.{subst}
use mathlib.Core.Option.{some-injective}
use stromadb.Base.{
  ℕ, ◌≡◌, ◌↔◌, refl, sym, ap, ◌∙◌, arith, true, false, none, some, [], ◌∷◌, inl, inr,
}
use stromadb.Base.Tests.{is_some, Bool-cases}
use stromadb.Base.Map.{BTreeMap, get, keys, retain}
use stromadb.Base.Map.Sorted.{IsSorted, get-Above}
use stromadb.Base.Order.{Ord, is_eq, is_eq_refl, nat_ord, pair_ord}
use stromadb.Fold.Keys.{ObjKey, obj_ord}
use stromadb.Fold.State.{Fold}
use stromadb.Fold.Observe.{Snapshot}
use stromadb.Fold.Gc.{observe}
use stromadb.Fold.Refresh.Observed.{observe-IsKept}
use stromadb.Mask.{snapshot_facts}
use stromadb.Query.Pointers.{Among, IsLawful}

module _ {K V : Type 0} where
  retain-all : (m : BTreeMap K V) → retain (λ k. true) m ≡ m
  unfolding retain
  retain-all [] = refl
  retain-all ((k, v) ∷ m) = ap (λ t. (k, v) ∷ t) (retain-all m)

module _ {K V : Type 0} ⦃o : Ord K⦄ where
  pub get_here :
      (k j : K) (w : V) (m : BTreeMap K V)
      → is_eq k j ≡ true
      → (k ≡ j) × (get k ((j, w) ∷ m) ≡ some w)
  unfolding get
  get_here k j w m e = ground (arith, o.equal k j)

  pub get_there :
      (k j : K) (w : V) (m : BTreeMap K V) → is_eq k j ≡ false → get k ((j, w) ∷ m) ≡ get k m
  unfolding get
  get_there k j w m e = ground arith

  pub get-Among : (k : K) (v : V) (m : BTreeMap K V) → get k m ≡ some v → Among (k, v) m
  get-Among k v [] h = unfold get in absurd (cc h)
  get-Among k v ((j, w) ∷ m) h = elim (Bool-cases (is_eq k j)) [
    | inl e ↦
        let (at, found) = get_here k j w m e in
        let same = some-injective _ _ (sym found ∙ h) in inl (λ i. (sym at i, same i))
    | inr e ↦ inr (get-Among k v m (sym (get_there k j w m e) ∙ h))
  ]

  pub Among-get :
      (k : K) (v : V) (m : BTreeMap K V) → IsSorted m → Among (k, v) m → get k m ≡ some v
  Among-get k v [] s h = absurd h
  Among-get k v ((j, w) ∷ m) s (inl e) =
      let at : j ≡ k = ap (λ x. x.0) e in
      subst (λ x. get k ((j, w) ∷ m) ≡ some x) (ap (λ x. x.1) e)
        (get_here k j w m (subst (λ x. is_eq k x ≡ true) (sym at) (is_eq_refl k))).1
  Among-get k v ((j, w) ∷ m) s (inr a) =
      let rest = Among-get k v m s.1 a in
      elim (Bool-cases (is_eq k j)) [
        | inl e ↦ absurd (
            cc (rest, subst (λ x. get x m ≡ none) (sym (get_here k j w m e).0) (get-Above j m s.0)))
        | inr e ↦ get_there k j w m e ∙ rest
      ]

  pub Among-keys : (k : K) (m : BTreeMap K V) → is_some (get k m) ≡ true → Among k (keys m)
  Among-keys k [] h = unfold get in absurd (cc h)
  Among-keys k ((j, w) ∷ m) h = elim (Bool-cases (is_eq k j)) [
    | inl e ↦ inl (sym (get_here k j w m e).0)
    | inr e ↦ inr (Among-keys k m (ap is_some (sym (get_there k j w m e)) ∙ h))
  ]

  Among-retain :
      (k : K) (v : V) (m : BTreeMap K V)
      → IsSorted m
      → Among (k, v) (retain (λ j. true) m) ↔ (get k m ≡ some v)
  Among-retain k v m s = (
    λ a. Among-get k v m s (subst (Among (k, v)) (retain-all m) a),
    λ e. subst (Among (k, v)) (sym (retain-all m)) (get-Among k v m e),
  )

pub snapshot_facts-IsLawful :
    (s : Snapshot) → IsSorted s.one → IsSorted s.many → IsLawful (snapshot_facts s)
unfolding snapshot_facts
snapshot_facts-IsLawful s one many = record {
  ones = λ k v. Among-retain k v s.one one;
  manys = λ k v. Among-retain k v s.many many;
  one_keys = λ k h. Among-keys k s.one_history h;
  many_keys = λ k h. Among-keys k s.many_history h;
}

-- The snapshot of a fold is lawful to read.
pub observe-IsLawful :
    (value_hash : ObjKey → ℕ) (f : Fold) → IsLawful (snapshot_facts (observe value_hash f))
observe-IsLawful value_hash f =
    let ordered = (observe-IsKept value_hash f).indexed.ordered in
    snapshot_facts-IsLawful (observe value_hash f) ordered.one ordered.many
