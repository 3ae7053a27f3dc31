-- ===== src/Query/Derived/Overlaps.antt =====
-- crates/stroma-core/src/query.rs, `derived_timeline`: the overlaps of segments, their order and their
-- coalescing, by what they show at an instant.
use mathlib.Core.Path.{subst}
use stromadb.Base.{
  ◌≡◌, ◌↔◌, ◌⊎◌, sym, arith, Bool, true, Option, none, some, List, [], ◌∷◌, ◌++◌, inl, inr,
}
use stromadb.Base.Int.{ℤ, lebℤ}
use stromadb.Base.Tests.{if◌then◌else◌, Bool-cases}
use stromadb.Base.Lists.{All, All-snoc}
use stromadb.Base.Order.{nat_ord}
use stromadb.Fold.Keys.{ObjKey}
use stromadb.Query.{is_open_at}
use stromadb.Query.Timeline.{Segment, push_segment}
use stromadb.Query.Instants.{
  ShowsAt, SomeShows, Forward, IsForward, push_segment_iff, push_segment-IsForward,
}
use stromadb.Query.Derived.{
  later, earlier_end, lasts, overlaps, insert_start, sort_starts, coalesce,
}

SomeShows-append :
    (at : ℤ) (v : ObjKey) (xs ys : List Segment)
    → SomeShows at v (xs ++ ys) ↔ (SomeShows at v xs ⊎ SomeShows at v ys)
SomeShows-append at v [] ys = ground arith
SomeShows-append at v (x ∷ xs) ys = ground (arith, SomeShows-append at v xs ys)

lasts-Forward : (from : ℤ) (to : Option ℤ) → lasts from to ≡ true → Forward from to
lasts-Forward from none h = tt
lasts-Forward from (some to) h = ground arith

-- An instant is in an overlap exactly if it is in both intervals.
overlap_ends :
    (at f g : ℤ) (t u : Option ℤ)
    → ((lasts (later f g) (earlier_end t u) ≡ true)
        × (lebℤ (later f g) at ≡ true)
        × (is_open_at at (earlier_end t u) ≡ true))
      ↔ (((lebℤ f at ≡ true) × (is_open_at at t ≡ true))
          × (lebℤ g at ≡ true)
          × (is_open_at at u ≡ true))
overlap_ends at f g none none = ground arith
overlap_ends at f g none (some b) = ground arith
overlap_ends at f g (some a) none = ground arith
overlap_ends at f g (some a) (some b) = ground arith

-- A segment covers an instant, with any value.
abbrev pub CoversAt : ℤ → Segment → Type 0
CoversAt at s = (lebℤ s.valid_from at ≡ true) × (is_open_at at s.valid_to ≡ true)

module _ (at : ℤ) (w : ObjKey) (seg is : Segment) where
  abbrev overlap : Segment
  overlap = record {
    value = is.value;
    valid_from = later seg.valid_from is.valid_from;
    valid_to = earlier_end seg.valid_to is.valid_to;
  }

  abbrev kept : List Segment → Bool → List Segment
  kept next b = if b then next ++ overlap ∷ [] else next

  kept_iff :
      (next : List Segment)
      → SomeShows at w (kept next (lasts overlap.valid_from overlap.valid_to))
        ↔ (SomeShows at w next ⊎ (CoversAt at seg × ShowsAt at w is))
  kept_iff next =
      let (split, join) = overlap_ends at seg.valid_from is.valid_from seg.valid_to is.valid_to in
      let (into, out) = SomeShows-append at w next (overlap ∷ []) in
      elim (Bool-cases (lasts overlap.valid_from overlap.valid_to)) [
        | inl e ↦ (
          λ x. elim (into (subst (λ b. SomeShows at w (kept next b)) e x)) [
            | inl a ↦ inl a
            | inr (inl (f, o, v)) ↦ let (c, d, g) = split (e, f, o) in inr (c, (d, g, v))
            | inr (inr a) ↦ absurd a
          ],
          λ x.
              subst (λ b. SomeShows at w (kept next b)) (sym e)
                (out (elim x [
                  | inl a ↦ inl a
                  | inr (c, (d, g, v)) ↦ let (_, f, o) = join (c, d, g) in inr (inl (f, o, v))
                ])),
        )
        | inr e ↦ (
          λ x. inl (subst (λ b. SomeShows at w (kept next b)) e x),
          λ x.
              subst (λ b. SomeShows at w (kept next b)) (sym e)
                (elim x [ inl a ↦ a | inr (c, (d, g, v)) ↦ absurd (cc (e, (join (c, d, g)).0)) ]),
        )
      ]

  kept-IsForward :
      (next : List Segment)
      → All IsForward next
      → All IsForward (kept next (lasts overlap.valid_from overlap.valid_to))
  kept-IsForward next f = elim (Bool-cases (lasts overlap.valid_from overlap.valid_to)) [
    | inl e ↦
        subst (λ b. All IsForward (kept next b)) (sym e)
          (All-snoc IsForward next overlap f (lasts-Forward overlap.valid_from overlap.valid_to e))
    | inr e ↦ subst (λ b. All IsForward (kept next b)) (sym e) f
  ]

pub overlaps_iff :
    (at : ℤ) (w : ObjKey) (seg : Segment) (inner next : List Segment)
    → SomeShows at w (overlaps seg inner next)
      ↔ (SomeShows at w next ⊎ (CoversAt at seg × SomeShows at w inner))
overlaps_iff at w seg [] next = ground arith
overlaps_iff at w seg (is ∷ inner) next = ground (
  arith,
  overlaps_iff at w seg inner (
      kept at w seg is next
        (lasts (overlap at w seg is).valid_from (overlap at w seg is).valid_to)),
  kept_iff at w seg is next,
)

pub overlaps-IsForward :
    (seg : Segment) (inner next : List Segment)
    → All IsForward next
    → All IsForward (overlaps seg inner next)
overlaps-IsForward seg [] next f = f
overlaps-IsForward seg (is ∷ inner) next f =
    overlaps-IsForward seg inner _ (kept-IsForward (ℤ.pos 0) (ObjKey.node 0) seg is next f)

insert_start_iff :
    (at : ℤ) (v : ObjKey) (s : Segment) (ts : List Segment)
    → SomeShows at v (insert_start s ts) ↔ (ShowsAt at v s ⊎ SomeShows at v ts)
insert_start_iff at v s [] = ground arith
insert_start_iff at v s (t ∷ ts) = elim (Bool-cases (lebℤ s.valid_from t.valid_from)) [
  | inl e ↦ rw e (λ x. x, λ x. x)
  | inr e ↦
      let (into, out) = insert_start_iff at v s ts in
      rw e (
        λ x. elim x [
          | inl a ↦ inr (inl a)
          | inr b ↦ elim (into b) [ inl c ↦ inl c | inr c ↦ inr (inr c) ]
        ],
        λ x. elim x [
          | inl a ↦ inr (out (inl a))
          | inr (inl b) ↦ inl b
          | inr (inr b) ↦ inr (out (inr b))
        ],
      )
]

insert_start-IsForward :
    (s : Segment) (ts : List Segment)
    → IsForward s
    → All IsForward ts
    → All IsForward (insert_start s ts)
insert_start-IsForward s [] f g = (f, tt)
insert_start-IsForward s (t ∷ ts) f g = elim (Bool-cases (lebℤ s.valid_from t.valid_from)) [
  | inl e ↦ rw e (f, g)
  | inr e ↦ rw e (g.0, insert_start-IsForward s ts f g.1)
]

pub sort_starts-IsForward : (ss : List Segment) → All IsForward ss → All IsForward (sort_starts ss)
sort_starts-IsForward [] f = tt
sort_starts-IsForward (s ∷ ss) f =
    insert_start-IsForward s (sort_starts ss) f.0 (sort_starts-IsForward ss f.1)

pub sort_starts_iff :
    (at : ℤ) (v : ObjKey) (ss : List Segment) → SomeShows at v (sort_starts ss) ↔ SomeShows at v ss
sort_starts_iff at v [] = ground arith
sort_starts_iff at v (s ∷ ss) =
    ground (arith, insert_start_iff at v s (sort_starts ss), sort_starts_iff at v ss)

pub coalesce_iff :
    (at : ℤ) (v : ObjKey) (ss merged : List Segment)
    → All IsForward ss
    → All IsForward merged
    → SomeShows at v (coalesce ss merged) ↔ (SomeShows at v merged ⊎ SomeShows at v ss)
coalesce_iff at v [] merged f g = ground arith
coalesce_iff at v (s ∷ ss) merged f g = ground (
  arith,
  coalesce_iff at v ss (push_segment s.value s.valid_from s.valid_to merged) f.1
      (push_segment-IsForward s.value s.valid_from s.valid_to merged g f.0),
  push_segment_iff at v s.value s.valid_from s.valid_to merged g f.0,
)
