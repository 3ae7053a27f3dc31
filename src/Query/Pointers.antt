-- ===== src/Query/Pointers.antt =====
-- crates/stroma-core/src/query.rs, `reverse_adjacency`: what the visits of a predicate's edges point to,
-- and what a reader relies on.
use stromadb.Base.{
  ◌≡◌, ◌↔◌, ◌⊎◌, sym, ap, ◌∙◌, arith, true, false, Option, none, some, List, [], ◌∷◌, inl, inr,
}
use stromadb.Base.Tests.{◌==◌, is_some, Bool-cases, ==_iff}
use stromadb.Base.Map.{BTreeSet, get, get_or, keys, contains, set_insert, get-insert}
use stromadb.Base.Map.Entries.{elem, elem-keys}
use stromadb.Base.Order.{is_eq→eq, is_eq_refl, nat_ord, pair_ord}
use stromadb.Fact.{FieldId, NodeId}
use stromadb.Fold.Keys.{ObjKey, obj_ord}
use stromadb.Fold.State.{Key}
use stromadb.Mask.{Facts}
use stromadb.Query.Expand.{
  add_node, add_found, add_nodes, Reverse, point_back, point_back_all, reverse_ones, reverse_manys,
}

-- The reverse map points from `o` back to `s`.
abbrev pub Back : NodeId → NodeId → Reverse → Type 0
Back o s rev = contains s (get_or [] o rev) ≡ true

pub point_back_iff :
    (t : NodeId) (obj : ObjKey) (rev : Reverse) (o s : NodeId)
    → Back o s (point_back t obj rev) ↔ (((t ≡ s) × (obj ≡ ObjKey.node o)) ⊎ Back o s rev)
point_back_iff t (ObjKey.node n) rev o s = ground (
  arith,
  get-insert o n (set_insert t (get_or [] n rev)) rev,
  get-insert s t tt (get_or [] n rev),
)
point_back_iff t _ rev o s = ground arith

pub point_back_all_iff :
    (t : NodeId) (os : List ObjKey) (rev : Reverse) (o s : NodeId)
    → Back o s (point_back_all t os rev)
      ↔ (((t ≡ s) × (elem (ObjKey.node o) os ≡ true)) ⊎ Back o s rev)
point_back_all_iff t [] rev o s = ground arith
point_back_all_iff t (obj ∷ os) rev o s = ground (
  arith,
  point_back_all_iff t os (point_back t obj rev) o s,
  point_back_iff t obj rev o s,
  is_eq→eq (ObjKey.node o) obj,
  is_eq_refl (ObjKey.node o),
)

add_node_iff :
    (obj : ObjKey) (out : BTreeSet NodeId) (o : NodeId)
    → (contains o (add_node obj out) ≡ true) ↔ ((obj ≡ ObjKey.node o) ⊎ (contains o out ≡ true))
add_node_iff (ObjKey.node n) out o = ground (arith, get-insert o n tt out)
add_node_iff _ out o = ground arith

add_nodes_iff :
    (os : List ObjKey) (out : BTreeSet NodeId) (o : NodeId)
    → (contains o (add_nodes os out) ≡ true)
      ↔ ((elem (ObjKey.node o) os ≡ true) ⊎ (contains o out ≡ true))
add_nodes_iff [] out o = ground arith
add_nodes_iff (obj ∷ os) out o = ground (
  arith,
  add_nodes_iff os (add_node obj out) o,
  add_node_iff obj out o,
  is_eq→eq (ObjKey.node o) obj,
  is_eq_refl (ObjKey.node o),
)

-- An entry of a list.
abbrev pub Among : {A : Type 0} → A → List A → Type 0
Among x [] = ⊥
Among x (y ∷ ys) = (y ≡ x) ⊎ Among x ys

-- What a visitor lists is what the lookups give.
pub record IsLawful (snap : Facts) : Type 0 where
  pub ones :
      (k : Key) (v : Option ObjKey)
      → Among (k, v) (snap.for_each_one (λ j. true)) ↔ (snap.one_value k ≡ some v)
  pub manys :
      (k : Key) (s : BTreeSet ObjKey)
      → Among (k, s) (snap.for_each_many (λ j. true)) ↔ (snap.many_set k ≡ some s)
  pub one_keys : (k : Key) → is_some (snap.one_rows k) ≡ true → Among k snap.for_each_one_key
  pub many_keys : (k : Key) → is_some (snap.many_rows k) ≡ true → Among k snap.for_each_many_key

pub reverse_ones_iff :
    (p : FieldId) (ones : List (Key × Option ObjKey)) (rev : Reverse) (o s : NodeId)
    → Back o s (reverse_ones p ones rev)
      ↔ (Among ((s, p), some (ObjKey.node o)) ones ⊎ Back o s rev)
reverse_ones_iff p [] rev o s = ground arith
reverse_ones_iff p (((t, q), none) ∷ ones) rev o s = ground (arith, reverse_ones_iff p ones rev o s)
reverse_ones_iff p (((t, q), some obj) ∷ ones) rev o s = ground (
  arith,
  reverse_ones_iff p ones (point_back t obj rev) o s,
  reverse_ones_iff p ones rev o s,
  point_back_iff t obj rev o s,
)

unequal :
    (t s : NodeId) (p q : FieldId) (here set : BTreeSet ObjKey)
    → ◌≡◌ {A = Key × BTreeSet ObjKey} ((t, q), here) ((s, p), set)
    → (q == p) ≡ false
    → ⊥
unequal t s p q here set at e = ground (arith, e, ap (λ x. x.0.1) at)

pub reverse_manys_iff :
    (p : FieldId) (manys : List (Key × BTreeSet ObjKey)) (rev : Reverse) (o s : NodeId)
    → Back o s (reverse_manys p manys rev) ↔ (
        ((set : BTreeSet ObjKey) × Among ((s, p), set) manys
          × (contains (ObjKey.node o) set ≡ true))
        ⊎ Back o s rev)
reverse_manys_iff p [] rev o s =
    (λ b. inr b, λ h. elim h [ inl (set, m, c) ↦ absurd m | inr b ↦ b ])
reverse_manys_iff p (((t, q), here) ∷ manys) rev o s = elim (Bool-cases (q == p)) [
  | inl e ↦ rw e (
    λ b. elim ((reverse_manys_iff p manys (point_back_all t (keys here) rev) o s).0 b) [
      | inl (set, m, c) ↦ inl (set, inr m, c)
      | inr back ↦ elim ((point_back_all_iff t (keys here) rev o s).0 back) [
        | inl (same, m) ↦
            inl (here, inl (λ i. ((same i, (==_iff q p).0 e i), here)), sym (elem-keys _ here) ∙ m)
        | inr old ↦ inr old
      ]
    ],
    λ h. (reverse_manys_iff p manys (point_back_all t (keys here) rev) o s).1 (elim h [
      | inl (set, inl at, c) ↦ inr (
          (point_back_all_iff t (keys here) rev o s).1 (
            inl (
              ap (λ x. x.0.0) at,
              elem-keys (ObjKey.node o) here ∙ ap (λ x. contains (ObjKey.node o) x.1) at ∙ c,
            )))
      | inl (set, inr m, c) ↦ inl (set, m, c)
      | inr old ↦ inr ((point_back_all_iff t (keys here) rev o s).1 (inr old))
    ]),
  )
  | inr e ↦ rw e (
    λ b. elim ((reverse_manys_iff p manys rev o s).0 b) [
      | inl (set, m, c) ↦ inl (set, inr m, c)
      | inr old ↦ inr old
    ],
    λ h. (reverse_manys_iff p manys rev o s).1 (elim h [
      | inl (set, inl at, c) ↦ absurd (unequal t s p q here set at e)
      | inl (set, inr m, c) ↦ inl (set, m, c)
      | inr old ↦ inr old
    ]),
  )
]

add_found_iff :
    (w : Option ObjKey) (o : NodeId)
    → (contains o (add_found w []) ≡ true) ↔ (w ≡ some (ObjKey.node o))
unfolding get
add_found_iff none o = ground arith
add_found_iff (some obj) o = ground (arith, add_node_iff obj [] o)

-- The nodes that a value and a set of values hold.
pub values_iff :
    (w : Option ObjKey) (os : BTreeSet ObjKey) (o : NodeId)
    → (contains o (add_nodes (keys os) (add_found w [])) ≡ true)
      ↔ ((w ≡ some (ObjKey.node o)) ⊎ (contains (ObjKey.node o) os ≡ true))
values_iff w os o = ground (
  arith,
  add_nodes_iff (keys os) (add_found w []) o,
  add_found_iff w o,
  elem-keys (ObjKey.node o) os,
)

pub no-Back : (o s : NodeId) → Back o s [] → ⊥
unfolding get
no-Back o s b = cc b

pub holds_none : (o : NodeId) → contains (ObjKey.node o) [] ≡ true → ⊥
unfolding get
holds_none o h = cc h
