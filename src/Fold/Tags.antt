-- ===== src/Fold/Tags.antt =====
-- crates/stroma-core/src/fold.rs, `Fold::live_tags`: the live rows of one element, and what a
-- removal of its tags leaves.
use stromadb.Base.{
  ◌≡◌, ◌↔◌, ◌⊎◌, refl, sym, ap, ◌∙◌, arith, Bool, true, false, ◌&&◌, inl, inr, Option, none, some,
  List, [], ◌∷◌,
}
use stromadb.Base.Tests.{if◌then◌else◌, is_some, Bool-cases}
use stromadb.Base.Lists.{All}
use stromadb.Base.Map.{BTreeSet, get, get_or, insert, get-insert, contains, set_insert, extend}
use stromadb.Base.Map.Entries
use stromadb.Base.Map.Entries.{elem}
use stromadb.Base.Order.{is_eq, is_eq→eq, is_eq_refl, nat_ord, pair_ord}
use stromadb.Fact.{NodeId, FieldId}
use stromadb.Fold.Keys.{ObjKey, OrderKey, obj_ord, order_ord}
use stromadb.Fold.State.{Op, Version, Rows, ManyState, KeyState, Fold}
use stromadb.Fold.Apply.{apply, with_removes}
use stromadb.Fold.Observe.{is_live}

-- An add that is live.
abbrev is_tag : ManyState → OrderKey → Version → Bool
is_tag s ok v = is_some v.object && is_live s ok

unfoldable pub tags : ManyState → Rows → List OrderKey
tags s [] = []
tags s ((ok, v) ∷ rows) = let rest = tags s rows in if is_tag s ok v then ok ∷ rest else rest

-- The tags of an element of a key's state; a key with one value has none.
unfoldable pub state_tags : ObjKey → Option KeyState → List OrderKey
unfolding tags
state_tags object none = []
state_tags object (some (KeyState.one s)) = []
state_tags object (some (KeyState.many s)) = tags s (get_or [] object s.elems)

unfoldable pub live_tags : NodeId → FieldId → ObjKey → Fold → List OrderKey
unfolding state_tags
live_tags subject predicate object f = state_tags object (get (subject, predicate) f.keys)

contains-set_insert :
    (t x : OrderKey) (s : BTreeSet OrderKey)
    → contains x (set_insert t s) ≡ (if is_eq t x then true else contains x s)
contains-set_insert t x s = ground (arith, get-insert x t _ s)

contains-extend_old :
    (ts : List OrderKey) (x : OrderKey) (s : BTreeSet OrderKey)
    → contains x s ≡ true
    → contains x (extend ts s) ≡ true
unfolding extend
contains-extend_old [] x s h = h
contains-extend_old (t ∷ ts) x s h =
    contains-extend_old ts x (set_insert t s) (contains-set_insert t x s ∙ ground arith)

-- Every tag of a list is in the set that is extended by it.
contains-extend :
    (ts : List OrderKey) (s : BTreeSet OrderKey) → All (λ t. contains t (extend ts s) ≡ true) ts
unfolding extend
contains-extend [] s = _
contains-extend (t ∷ ts) s = (
  contains-extend_old ts t (set_insert t s)
      (contains-set_insert t t s ∙ ground (arith, is_eq_refl t)),
  contains-extend ts (set_insert t s),
)

module _ {A : Type 0} (P : A → Type 0) (x : A) (xs : List A) where
  All-if_true : (b : Bool) → b ≡ true → All P (if b then x ∷ xs else xs) → P x × All P xs
  All-if_true true e h = h
  All-if_true false e h = absurd (cc)

  All-if_false : (b : Bool) → b ≡ false → All P (if b then x ∷ xs else xs) → All P xs
  All-if_false true e h = absurd (cc)
  All-if_false false e h = h

-- A removed row is no tag.
is_tag-removed :
    (s : ManyState) (ok : OrderKey) (v : Version)
    → contains ok s.removes ≡ true
    → is_tag s ok v ≡ false
is_tag-removed s ok v h = rw h (Bool-cases_and (is_some v.object))
  where
    Bool-cases_and : (b : Bool) → (b && false) ≡ false
    Bool-cases_and true = refl
    Bool-cases_and false = refl

-- A removal makes no row a tag.
is_tag-with_removes :
    (s : ManyState) (observed : List OrderKey) (ok : OrderKey) (v : Version)
    → is_tag s ok v ≡ false
    → is_tag (with_removes observed s) ok v ≡ false
is_tag-with_removes s observed ok v h = elim (Bool-cases (contains ok s.removes)) [
  | inl gone ↦
      is_tag-removed (with_removes observed s) ok v (contains-extend_old observed ok s.removes gone)
  | inr kept ↦ elim (Bool-cases (contains ok (extend observed s.removes))) [
    | inl gone ↦ is_tag-removed (with_removes observed s) ok v gone
    | inr still ↦ ground (arith, h)
  ]
]

tags-with_removes :
    (s : ManyState) (observed : List OrderKey) (rows : Rows)
    → All (λ t. contains t (extend observed s.removes) ≡ true) (tags s rows)
    → tags (with_removes observed s) rows ≡ []
unfolding tags
tags-with_removes s observed [] h = refl
tags-with_removes s observed ((ok, v) ∷ rows) h = elim (Bool-cases (is_tag s ok v)) [
  | inl live ↦
      let (removed, rest) = All-if_true _ ok (tags s rows) (is_tag s ok v) live h in
      rw (is_tag-removed (with_removes observed s) ok v removed)
        (tags-with_removes s observed rows rest)
  | inr dead ↦
      rw (is_tag-with_removes s observed ok v dead)
        (tags-with_removes s observed rows (All-if_false _ ok (tags s rows) (is_tag s ok v) dead h))
]

-- A row of an element that adds it and is live.
abbrev pub LiveAdd : ManyState → OrderKey → Rows → Type 0
LiveAdd s x [] = ⊥
LiveAdd s x ((ok, v) ∷ rows) =
    ((ok ≡ x) × (is_some v.object ≡ true) × (is_live s ok ≡ true)) ⊎ LiveAdd s x rows

elem-tags :
    (s : ManyState) (x : OrderKey) (rows : Rows) → (elem x (tags s rows) ≡ true) ↔ LiveAdd s x rows
unfolding tags
elem-tags s x [] = (λ h. cc h, λ h. absurd h)
elem-tags s x ((ok, v) ∷ rows) = elim (Bool-cases (is_tag s ok v)) [
  | inl e ↦ rw e (ground (arith, elem-tags s x rows, is_eq→eq x ok, is_eq_refl x, e))
  | inr e ↦ rw e (ground (arith, elem-tags s x rows, e))
]

-- No row of an element that a state has stored is a live add once its tags are gone.
no_LiveAdd : (t : ManyState) (rows : Rows) (x : OrderKey) → tags t rows ≡ [] → LiveAdd t x rows → ⊥
no_LiveAdd t rows x e live = cc (ap (elem x) (sym e) ∙ (elem-tags t x rows).1 live)

-- A removal of the live tags of an element of a key with many values, as they stand, is never
-- refused. It keeps the rows, the floor and the other keys, it marks as removed exactly the rows of the
-- element that add it and are live, besides those that are removed already, and it leaves the element
-- without a row that adds it and is live.
pub live_tags-remove_many :
    (f : Fold) (s : ManyState) (subject : NodeId) (predicate : FieldId) (object : ObjKey)
    → get (subject, predicate) f.keys ≡ some (KeyState.many s)
    → (t : ManyState) × (apply
          (Op.remove_many subject predicate (live_tags subject predicate object f))
          f
        ≡ some (record f { keys = insert (subject, predicate) (KeyState.many t) f.keys }))
      × (t.elems ≡ s.elems)
      × (t.hd ≡ s.hd)
      × ((x : OrderKey)
          → (contains x t.removes ≡ true)
            ↔ (LiveAdd s x (get_or [] object s.elems) ⊎ (contains x s.removes ≡ true)))
      × ((x : OrderKey) → LiveAdd t x (get_or [] object t.elems) → ⊥)
unfolding apply live_tags
live_tags-remove_many f s subject predicate object e =
    let rows = get_or [] object s.elems in
    let observed = tags s rows in
    let t = with_removes observed s in
    (
      t,
      rw e refl,
      refl,
      refl,
      λ x. ground (arith, Entries.contains-extend x observed s.removes, elem-tags s x rows),
      λ x.
          no_LiveAdd t rows x
            (tags-with_removes s observed rows (contains-extend observed s.removes)),
    )
