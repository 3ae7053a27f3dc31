-- ===== src/Query/Settled.antt =====
-- crates/stroma-core/src/query.rs, `point_one_timeline`: the last boundary that is not after an instant.
use stromadb.Base.{
  ◌≡◌, ◌↔◌, ◌⊎◌, refl, sym, ap, ◌∙◌, arith, true, false, Option, none, some, List, [], ◌∷◌, inl,
  inr,
}
use stromadb.Base.Int.{ℤ, lebℤ, ltbℤ}
use stromadb.Base.Tests.{if◌then◌else◌, ◌>>=◌, Bool-cases, Option-cases}
use stromadb.Base.Map.{BTreeSet, get, keys, contains}
use stromadb.Base.Map.Sorted.{Above, IsSorted}
use stromadb.Base.Order.{is_eq, is_eq→eq, is_eq_refl, int_ord}
use stromadb.Fold.Keys.{ObjKey}
use stromadb.Query.{is_open_at}
use stromadb.Query.Timeline.{next_boundary}
use stromadb.Query.Instants.{InPiece}

-- The last boundary that is not after an instant.
abbrev pub settled : ℤ → List ℤ → Option ℤ
settled at [] = none
settled at (b ∷ bs) =
    let later = settled at bs in
    if lebℤ b at then (elim later [ none ↦ some b | some c ↦ some c ]) else none

-- Behind a boundary that is after an instant, all are.
settled-Above :
    (at b : ℤ) (m : BTreeSet ℤ) → Above b m → lebℤ b at ≡ false → settled at (keys m) ≡ none
settled-Above at b [] a h = refl
settled-Above at b ((j, u) ∷ m) a h = ground (arith, a.0)

InPiece-Above :
    (asof : ℤ → Option ObjKey) (at b : ℤ) (v : ObjKey) (m : BTreeSet ℤ)
    → Above b m
    → lebℤ b at ≡ false
    → InPiece asof at v (keys m)
    → ⊥
InPiece-Above asof at b v [] a h p = p
InPiece-Above asof at b v ((j, u) ∷ m) a h (inl (l, o, e)) = ground (arith, a.0)
InPiece-Above asof at b v ((j, u) ∷ m) a h (inr p) = InPiece-Above asof at b v m a.1 h p

settled-none :
    (at : ℤ) (m : BTreeSet ℤ)
    → settled at (keys m) ≡ none
    → is_open_at at (next_boundary (keys m)) ≡ true
settled-none at [] h = refl
settled-none at ((b, u) ∷ m) h =
    elim (settled at (keys m))
        as (λ l.
          (if lebℤ b at then (elim l [ none ↦ some b | some c ↦ some c ]) else none) ≡ none
          → ltbℤ at b ≡ true) [ none ↦ λ k. ground (arith, k) | some c ↦ λ k. ground (arith, k) ]
      h

settled-some :
    (at c : ℤ) (m : BTreeSet ℤ)
    → settled at (keys m) ≡ some c
    → is_open_at at (next_boundary (keys m)) ≡ false
settled-some at c [] h = absurd (cc h)
settled-some at c ((b, u) ∷ m) h = ground (arith, h)

-- The piece of an instant is the one that its last boundary opens.
pub piece_iff :
    (asof : ℤ → Option ObjKey) (at : ℤ) (v : ObjKey) (m : BTreeSet ℤ)
    → IsSorted m
    → InPiece asof at v (keys m) ↔ ((settled at (keys m) >>= asof) ≡ some v)
piece_iff asof at v [] s = (λ x. absurd x, λ e. absurd (cc e))
piece_iff asof at v ((b, u) ∷ m) s = elim (Bool-cases (lebℤ b at)) [
  | inr h ↦ rw h (
    λ x. elim x [
      | inl (l, o, e) ↦ absurd (cc l)
      | inr p ↦ absurd (InPiece-Above asof at b v m s.0 h p)
    ],
    λ e. absurd (cc e),
  )
  | inl h ↦
      let (into, out) = piece_iff asof at v m s.1 in
      elim (Option-cases (settled at (keys m))) [
        | inl e ↦
            let o = settled-none at m e in
            rw (h, e)
              (
                λ x. elim x [
                  | inl (l, o, f) ↦ f
                  | inr p ↦ absurd (cc (sym (ap (λ x. x >>= asof) e) ∙ into p))
                ],
                λ f. inl (refl, o, f),
              )
        | inr (c, e) ↦
            let o = settled-some at c m e in
            let found = ap (λ x. x >>= asof) e in
            rw (h, e)
              (
                λ x. elim x [ inl (l, f, g) ↦ absurd (cc (o, f)) | inr p ↦ sym found ∙ into p ],
                λ f. inr (out (found ∙ f)),
              )
      ]
]

member_cases :
    (x j : ℤ) (u : Unit {0}) (m : BTreeSet ℤ)
    → contains x ((j, u) ∷ m) ≡ true
    → (x ≡ j) ⊎ (contains x m ≡ true)
member_cases x j u m c = elim (Bool-cases (is_eq x j)) [
  | inl e ↦ inl (is_eq→eq x j e)
  | inr e ↦ inr (unfold get in ground (arith, e, c))
]

member-Above : (j x : ℤ) (m : BTreeSet ℤ) → Above j m → contains x m ≡ true → lebℤ x j ≡ false
member-Above j x [] a c = unfold get in absurd (cc c)
member-Above j x ((i, u) ∷ m) a c = elim (member_cases x i u m c) [
  | inl e ↦ ground (arith, e, a.0)
  | inr d ↦ member-Above j x m a.1 d
]

-- The last boundary of an instant, with one more boundary in front.
settled_cases :
    (at j : ℤ) (u : Unit {0}) (m : BTreeSet ℤ) (b : ℤ)
    → settled at (keys ((j, u) ∷ m)) ≡ some b
    → (lebℤ j at ≡ true)
      × ((settled at (keys m) ≡ some b) ⊎ ((settled at (keys m) ≡ none) × (j ≡ b)))
settled_cases at j u m b e = ground (arith, e)

settled_member : (at b : ℤ) (m : BTreeSet ℤ) → settled at (keys m) ≡ some b → contains b m ≡ true
unfolding get
settled_member at b [] e = absurd (cc e)
settled_member at b ((j, u) ∷ m) e = elim (settled_cases at j u m b e).1 [
  | inl later ↦ ground (arith, settled_member at b m later)
  | inr (n, same) ↦ ground (arith, same, is_eq_refl j)
]

pub le_unsettled :
    (at x : ℤ) (m : BTreeSet ℤ)
    → IsSorted m
    → settled at (keys m) ≡ none
    → contains x m ≡ true
    → lebℤ x at ≡ false
le_unsettled at x [] s e c = unfold get in absurd (cc c)
le_unsettled at x ((j, u) ∷ m) s e c =
    let first : lebℤ j at ≡ false = ground (arith, settled-none at ((j, u) ∷ m) e) in
    elim (member_cases x j u m c) [
      | inl same ↦ ap (λ y. lebℤ y at) same ∙ first
      | inr d ↦ ground (arith, first, member-Above j x m s.0 d)
    ]

-- A boundary is at most the instant exactly if it is at most the last boundary of the instant.
pub le_settled :
    (at b x : ℤ) (m : BTreeSet ℤ)
    → IsSorted m
    → settled at (keys m) ≡ some b
    → contains x m ≡ true
    → lebℤ x at ≡ lebℤ x b
le_settled at b x [] s e c = absurd (cc e)
le_settled at b x ((j, u) ∷ m) s e c =
    let (first, last) = settled_cases at j u m b e in
    elim last [
      | inl later ↦ elim (member_cases x j u m c) [
        | inl same ↦
            ground (arith, first, same, member-Above j b m s.0 (settled_member at b m later))
        | inr d ↦ le_settled at b x m s.1 later d
      ]
      | inr (n, here) ↦ elim (member_cases x j u m c) [
        | inl same ↦ ground (arith, first, same, here)
        | inr d ↦ ground (arith, le_unsettled at x m s.1 n d, member-Above j x m s.0 d, here)
      ]
    ]
