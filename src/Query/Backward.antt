-- ===== src/Query/Backward.antt =====
-- crates/stroma-core/src/query.rs, `expand` against `reverse_adjacency`, now and as of an instant.
use stromadb.Base.{
  ◌≡◌, ◌↔◌, ◌⊎◌, refl, sym, ap, ◌∙◌, arith, true, Option, none, some, List, [], ◌∷◌, inl, inr,
}
use stromadb.Base.Int.{ℤ}
use stromadb.Base.Tests.{◌>>=◌, is_some, unwrap_or, map_option, Option-cases}
use stromadb.Base.Map.{BTreeMap, keys, contains}
use stromadb.Base.Map.Entries.{elem-keys}
use stromadb.Base.Order.{nat_ord, pair_ord}
use stromadb.Fact.{FieldId, NodeId}
use stromadb.Fold.Keys.{ObjKey, obj_ord}
use stromadb.Fold.State.{Key}
use stromadb.Mask.{Facts}
use stromadb.Fold.Observe.{VersionRow}
use stromadb.Query.{effective, in_effect, point_one, point_one_asof, point_many, point_many_asof}
use stromadb.Query.Expand.{
  expand, expand_asof, Reverse, point_back, point_back_all, reverse_ones, reverse_adjacency,
  reverse_ones_asof, reverse_manys_asof, reverse_adjacency_asof,
}
use stromadb.Query.Pointers.{
  Back, point_back_iff, point_back_all_iff, Among, IsLawful, reverse_ones_iff, reverse_manys_iff,
  values_iff, no-Back, holds_none,
}

module _ (snap : Facts) (lawful : IsLawful snap) where
  -- A node is among those that point to another over a predicate if and only if the other is among
  -- its neighbours over the predicate.
  pub reverse_adjacency_iff :
      (p : FieldId) (o s : NodeId)
      → Back o s (reverse_adjacency snap p) ↔ (contains o (expand snap s p) ≡ true)
  unfolding reverse_adjacency expand point_one point_many
  reverse_adjacency_iff p o s =
      let many =
        reverse_manys_iff p (snap.for_each_many (λ k. true))
          (reverse_ones p (snap.for_each_one (λ k. true)) []) o s in
      let one = reverse_ones_iff p (snap.for_each_one (λ k. true)) [] o s in
      let found = values_iff (point_one snap s p) (point_many snap s p) o in
      (
        λ b. found.1 (elim (many.0 b) [
          | inl (set, m, c) ↦ inr (
              ap (λ x. contains (ObjKey.node o) (unwrap_or x [])) ((lawful.manys (s, p) set).0 m)
              ∙ c)
          | inr back ↦ elim (one.0 back) [
            | inl m ↦ inl (ap (λ x. x >>= λ v. v) ((lawful.ones (s, p) _).0 m))
            | inr none_back ↦ absurd (no-Back o s none_back)
          ]
        ]),
        λ e. many.1 (elim (found.0 e) [
          | inl w ↦ inr (one.1 (inl ((lawful.ones (s, p) _).1 (held (snap.one_value (s, p)) w))))
          | inr c ↦ elim (Option-cases (snap.many_set (s, p))) [
            | inl q ↦
                absurd
                  (holds_none o (ap (λ x. contains (ObjKey.node o) (unwrap_or x [])) (sym q) ∙ c))
            | inr (set, q) ↦ inl (
              set,
              (lawful.manys (s, p) set).1 q,
              ap (λ x. contains (ObjKey.node o) (unwrap_or x [])) (sym q) ∙ c,
            )
          ]
        ]),
      )
    where
      held :
          (w : Option (Option ObjKey))
          → (w >>= λ v. v) ≡ some (ObjKey.node o)
          → w ≡ some (some (ObjKey.node o))
      held none h = cc
      held (some v) h = ap some h

module _ (snap : Facts) (p : FieldId) (at : ℤ) where
  reverse_ones_asof_iff :
      (ks : List Key) (rev : Reverse) (o s : NodeId)
      → Back o s (reverse_ones_asof snap p at ks rev)
        ↔ ((Among (s, p) ks × (point_one_asof snap s p at ≡ some (ObjKey.node o))) ⊎ Back o s rev)
  reverse_ones_asof_iff [] rev o s = ground arith
  reverse_ones_asof_iff ((t, q) ∷ ks) rev o s = elim (Option-cases (point_one_asof snap t q at)) [
    | inl none_there ↦ ground (arith, none_there, reverse_ones_asof_iff ks rev o s)
    | inr (obj, there) ↦ ground (
      arith,
      there,
      reverse_ones_asof_iff ks (point_back t obj rev) o s,
      reverse_ones_asof_iff ks rev o s,
      point_back_iff t obj rev o s,
    )
  ]

  reverse_manys_asof_iff :
      (ks : List Key) (rev : Reverse) (o s : NodeId)
      → Back o s (reverse_manys_asof snap p at ks rev) ↔ (
          (Among (s, p) ks × (contains (ObjKey.node o) (point_many_asof snap s p at) ≡ true))
          ⊎ Back o s rev)
  reverse_manys_asof_iff [] rev o s = ground arith
  reverse_manys_asof_iff ((t, q) ∷ ks) rev o s = ground (
    arith,
    reverse_manys_asof_iff ks (point_back_all t (keys (point_many_asof snap t q at)) rev) o s,
    reverse_manys_asof_iff ks rev o s,
    point_back_all_iff t (keys (point_many_asof snap t q at)) rev o s,
    elem-keys (ObjKey.node o) (point_many_asof snap t q at),
  )

module _ (snap : Facts) (lawful : IsLawful snap) where
  -- The same as of an instant.
  pub reverse_adjacency_asof_iff :
      (p : FieldId) (at : ℤ) (o s : NodeId)
      → Back o s (reverse_adjacency_asof snap p at) ↔ (contains o (expand_asof snap s p at) ≡ true)
  unfolding reverse_adjacency_asof expand_asof point_one_asof point_many_asof
  reverse_adjacency_asof_iff p at o s =
      let many =
        reverse_manys_asof_iff snap p at snap.for_each_many_key
          (reverse_ones_asof snap p at snap.for_each_one_key []) o s in
      let one = reverse_ones_asof_iff snap p at snap.for_each_one_key [] o s in
      let found = values_iff (point_one_asof snap s p at) (point_many_asof snap s p at) o in
      (
        λ b. found.1 (elim (many.0 b) [
          | inl (m, c) ↦ inr c
          | inr back ↦ elim (one.0 back) [
            | inl (m, w) ↦ inl w
            | inr none_back ↦ absurd (no-Back o s none_back)
          ]
        ]),
        λ e. many.1 (elim (found.0 e) [
          | inl w ↦ inr (one.1 (inl (lawful.one_keys (s, p) (rowed (snap.one_rows (s, p)) w), w)))
          | inr c ↦ inl (lawful.many_keys (s, p) (listed (snap.many_rows (s, p)) c), c)
        ]),
      )
    where
      rowed :
          (r : Option (List VersionRow))
          → (r >>= λ rows. effective at rows >>= λ row. row.1) ≡ some (ObjKey.node o)
          → is_some r ≡ true
      rowed none h = cc
      rowed (some rows) h = refl

      listed :
          (m : Option (BTreeMap ObjKey (List VersionRow)))
          → contains (ObjKey.node o) (unwrap_or (map_option (in_effect at) m) []) ≡ true
          → is_some m ≡ true
      listed none h = absurd (holds_none o h)
      listed (some elems) h = refl
