-- ===== src/Query/Instants.antt =====
-- crates/stroma-core/src/query.rs, `point_one_timeline`: the segments by what they show at an instant.
use mathlib.Core.Path.{subst}
use mathlib.Core.Option.{some-injective}
use stromadb.Base.{
  ◌≡◌, ◌↔◌, ◌⊎◌, sym, ap, ◌∙◌, arith, true, ◌&&◌, Option, none, some, List, [], ◌∷◌, inl, inr,
}
use stromadb.Base.Int.{ℤ, lebℤ, ltbℤ}
use stromadb.Base.Tests.{Bool-cases, Option-cases}
use stromadb.Base.Lists.{All}
use stromadb.Base.Map.{BTreeSet, keys}
use stromadb.Base.Map.Sorted.{Above, IsSorted}
use stromadb.Base.Order.{is_eq, is_eq→eq, int_ord}
use stromadb.Fold.Keys.{ObjKey, obj_ord}
use stromadb.Query.{is_open_at}
use stromadb.Query.Timeline.{Segment, next_boundary, ends_at, push_segment, stitch}

-- A segment that covers an instant with a value.
abbrev pub ShowsAt : ℤ → ObjKey → Segment → Type 0
ShowsAt at v s = (lebℤ s.valid_from at ≡ true) × (is_open_at at s.valid_to ≡ true) × (s.value ≡ v)

abbrev pub SomeShows : ℤ → ObjKey → List Segment → Type 0
SomeShows at v [] = ⊥
SomeShows at v (s ∷ ss) = ShowsAt at v s ⊎ SomeShows at v ss

-- An interval that does not end before it begins.
abbrev pub Forward : ℤ → Option ℤ → Type 0
Forward from none = Unit
Forward from (some to) = lebℤ from to ≡ true

abbrev pub IsForward : Segment → Type 0
IsForward s = Forward s.valid_from s.valid_to

open_join :
    (at vf from : ℤ) (to : Option ℤ)
    → lebℤ vf from ≡ true
    → Forward from to
    → ((lebℤ vf at ≡ true) × (is_open_at at to ≡ true)) ↔ (
        ((lebℤ vf at ≡ true) × (ltbℤ at from ≡ true))
        ⊎ ((lebℤ from at ≡ true) × (is_open_at at to ≡ true)))
open_join at vf from none h f = ground arith
open_join at vf from (some to) h f = ground arith

ends_some : (o : Option ℤ) (from : ℤ) → ends_at o from ≡ true → o ≡ some from
ends_some none from e = absurd (cc e)
ends_some (some to) from e = ap some (is_eq→eq to from e)

joined_at :
    (at : ℤ) (v value was : ObjKey) (vf from : ℤ) (to : Option ℤ)
    → lebℤ vf from ≡ true
    → Forward from to
    → was ≡ value
    → ((lebℤ vf at ≡ true) × (is_open_at at to ≡ true) × (was ≡ v)) ↔ (
        ((lebℤ vf at ≡ true) × (ltbℤ at from ≡ true) × (was ≡ v))
        ⊎ ((lebℤ from at ≡ true) × (is_open_at at to ≡ true) × (value ≡ v)))
joined_at at v value was vf from to h f e =
    let (split, join) = open_join at vf from to h f in
    (
      λ x. elim (split (x.0, x.1)) [
        | inl (a, b) ↦ inl (a, b, x.2)
        | inr (a, b) ↦ inr (a, b, sym e ∙ x.2)
      ],
      λ y. elim y [
        | inl x ↦ let (a, b) = join (inl (x.0, x.1)) in (a, b, x.2)
        | inr x ↦ let (a, b) = join (inr (x.0, x.1)) in (a, b, e ∙ x.2)
      ],
    )

joined_iff :
    (at : ℤ) (v value : ObjKey) (from : ℤ) (to : Option ℤ) (s : Segment)
    → IsForward s
    → Forward from to
    → ends_at s.valid_to from ≡ true
    → is_eq s.value value ≡ true
    → ShowsAt at v (record s { valid_to = to })
      ↔ (ShowsAt at v s ⊎ ShowsAt at v (record { value = value; valid_from = from; valid_to = to }))
joined_iff at v value from to s f g e h =
    let to_from = ends_some s.valid_to from e in
    rw to_from (
      joined_at at v value s.value s.valid_from from to (subst (Forward s.valid_from) to_from f) g
        (is_eq→eq s.value value h))

pub push_segment_iff :
    (at : ℤ) (v value : ObjKey) (from : ℤ) (to : Option ℤ) (out : List Segment)
    → All IsForward out
    → Forward from to
    → SomeShows at v (push_segment value from to out) ↔ (
        SomeShows at v out
        ⊎ ShowsAt at v (record { value = value; valid_from = from; valid_to = to }))
unfolding push_segment
push_segment_iff at v value from to [] f g = ground arith
push_segment_iff at v value from to (s ∷ []) f g =
    elim (Bool-cases (ends_at s.valid_to from && is_eq s.value value)) [
      | inl e ↦
          let joined =
            joined_iff at v value from to s f.0 g (ground (arith, e)) (ground (arith, e)) in
          rw e (
            λ x. elim x [
              | inl a ↦ elim (joined.0 a) [ inl b ↦ inl (inl b) | inr b ↦ inr b ]
              | inr a ↦ absurd a
            ],
            λ x. elim x [
              | inl (inl a) ↦ inl (joined.1 (inl a))
              | inl (inr a) ↦ absurd a
              | inr b ↦ inl (joined.1 (inr b))
            ],
          )
      | inr e ↦ rw e (
        λ x. elim x [ inl a ↦ inl (inl a) | inr (inl b) ↦ inr b | inr (inr b) ↦ absurd b ],
        λ x. elim x [ inl (inl a) ↦ inl a | inl (inr a) ↦ absurd a | inr b ↦ inr (inl b) ],
      )
    ]
push_segment_iff at v value from to (s ∷ t ∷ out) f g =
    ground (arith, push_segment_iff at v value from to (t ∷ out) f.1 g)

Forward-join : (vf from : ℤ) (to : Option ℤ) → lebℤ vf from ≡ true → Forward from to → Forward vf to
Forward-join vf from none h g = tt
Forward-join vf from (some to) h g = ground arith

pub push_segment-IsForward :
    (value : ObjKey) (from : ℤ) (to : Option ℤ) (out : List Segment)
    → All IsForward out
    → Forward from to
    → All IsForward (push_segment value from to out)
unfolding push_segment
push_segment-IsForward value from to [] f g = (g, tt)
push_segment-IsForward value from to (s ∷ []) f g =
    elim (Bool-cases (ends_at s.valid_to from && is_eq s.value value)) [
      | inl e ↦ rw e (
        Forward-join s.valid_from from to
            (subst (Forward s.valid_from) (ends_some s.valid_to from (ground (arith, e))) f.0) g,
        tt,
      )
      | inr e ↦ rw e (f.0, (g, tt))
    ]
push_segment-IsForward value from to (s ∷ t ∷ out) f g =
    (f.0, push_segment-IsForward value from to (t ∷ out) f.1 g)

-- The value at the boundary that opens the piece of an instant.
abbrev pub InPiece : (ℤ → Option ObjKey) → ℤ → ObjKey → List ℤ → Type 0
InPiece asof at v [] = ⊥
InPiece asof at v (b ∷ bs) =
    ((lebℤ b at ≡ true) × (is_open_at at (next_boundary bs) ≡ true) × (asof b ≡ some v))
    ⊎ InPiece asof at v bs

next-Forward : (b : ℤ) (m : BTreeSet ℤ) → Above b m → Forward b (next_boundary (keys m))
next-Forward b [] a = tt
next-Forward b ((j, u) ∷ m) a = ground (arith, a.0)

pub stitch_iff :
    (asof : ℤ → Option ObjKey) (at : ℤ) (v : ObjKey) (m : BTreeSet ℤ) (out : List Segment)
    → IsSorted m
    → All IsForward out
    → SomeShows at v (stitch asof (keys m) out) ↔ (SomeShows at v out ⊎ InPiece asof at v (keys m))
unfolding stitch
stitch_iff asof at v [] out s f = ground arith
stitch_iff asof at v ((b, u) ∷ m) out s f = elim (Option-cases (asof b)) [
  | inl e ↦
      let rest = stitch_iff asof at v m out s.1 f in
      rw e (
        λ x. elim (rest.0 x) [ inl a ↦ inl a | inr a ↦ inr (inr a) ],
        λ x.
            rest.1 (elim x [
              | inl a ↦ inl a
              | inr (inl (l, o, h)) ↦ absurd (cc h)
              | inr (inr a) ↦ inr a
            ]),
      )
  | inr (value, e) ↦
      let to = next_boundary (keys m) in
      let forward = next-Forward b m s.0 in
      let rest =
        stitch_iff asof at v m (push_segment value b to out) s.1
          (push_segment-IsForward value b to out f forward) in
      let pushed = push_segment_iff at v value b to out f forward in
      rw e (
        λ x. elim (rest.0 x) [
          | inl a ↦ elim (pushed.0 a) [
            | inl c ↦ inl c
            | inr (l, o, h) ↦ inr (inl (l, o, ap some h))
          ]
          | inr a ↦ inr (inr a)
        ],
        λ x. rest.1 (elim x [
          | inl a ↦ inl (pushed.1 (inl a))
          | inr (inl (l, o, h)) ↦ inl (pushed.1 (inr (l, o, some-injective _ _ h)))
          | inr (inr a) ↦ inr a
        ]),
      )
]
