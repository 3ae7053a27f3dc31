-- ===== src/Query/Derived/Composed.antt =====
-- crates/stroma-core/src/query.rs: `derived_timeline` against the reads as of an instant, one after
-- the other.
use mathlib.Core.Path.{subst}
use mathlib.Core.Option.{some-injective}
use stromadb.Base.{
  ◌≡◌, ◌↔◌, ◌⊎◌, refl, sym, ap, ◌∙◌, arith, Option, none, some, List, [], ◌∷◌, inl, inr,
}
use stromadb.Base.Int.{ℤ}
use stromadb.Base.Tests.{Bool-cases}
use stromadb.Base.Lists.{All}
use stromadb.Base.Map.{get, insert, get-insert}
use stromadb.Base.Order.{is_eq, is_eq→eq, nat_ord}
use stromadb.Fact.{FieldId, NodeId}
use stromadb.Fold.Keys.{ObjKey}
use stromadb.Fold.State.{Key}
use stromadb.Mask.{Facts}
use stromadb.Query.{point_one_asof}
use stromadb.Query.Timeline.{Segment, point_one_timeline}
use stromadb.Query.Instants.{SomeShows, IsForward}
use stromadb.Query.Agreement.{point_one_timeline-asof}
use stromadb.Query.Derived.{
  Hop, read_found, read_inner, hop_segment, hop_segments, sort_starts, coalesce, hops_from,
  derived_timeline_traced, derived_timeline,
}
use stromadb.Query.Derived.Overlaps.{
  CoversAt, overlaps_iff, overlaps-IsForward, sort_starts_iff, sort_starts-IsForward, coalesce_iff,
}

-- The value that a read finds behind a node.
abbrev pub follow : Facts → ℤ → FieldId → Option ObjKey → Option ObjKey
follow snap at p (some (ObjKey.node n)) = point_one_asof snap n p at
follow snap at p _ = none

abbrev pub follow_all : Facts → ℤ → List FieldId → Option ObjKey → Option ObjKey
follow_all snap at [] v = v
follow_all snap at (p ∷ ps) v = follow_all snap at ps (follow snap at p v)

module _ (snap : Facts) (at : ℤ) (p : FieldId) where
  -- The memo holds what the reads give.
  abbrev IsMemo : Hop → Type 0
  IsMemo h =
      (n : NodeId) (segs : List Segment)
      → get n h.inner ≡ some segs
      → segs ≡ point_one_timeline snap n p

  inserted :
      (n : NodeId) (h : Hop)
      → IsMemo h
      → (k : NodeId) (segs : List Segment)
      → get k (insert n (point_one_timeline snap n p) h.inner) ≡ some segs
      → segs ≡ point_one_timeline snap k p
  inserted n h m k segs g = elim (Bool-cases (is_eq n k)) [
    | inl e ↦
        some-injective _ _
          (sym g ∙ ground (arith, get-insert k n (point_one_timeline snap n p) h.inner, e))
        ∙ ap (λ x. point_one_timeline snap x p) (is_eq→eq n k e)
    | inr e ↦ m k segs (ground (arith, get-insert k n (point_one_timeline snap n p) h.inner, e, g))
  ]

  read_inner_lem :
      (n : NodeId) (h : Hop)
      → IsMemo h
      → ((read_inner snap p n h).0 ≡ point_one_timeline snap n p)
        × IsMemo (read_inner snap p n h).1
        × ((read_inner snap p n h).1.next ≡ h.next)
  read_inner_lem n h m = found (get n h.inner) refl
    where
      found :
          (o : Option (List Segment))
          → get n h.inner ≡ o
          → ((read_found snap p n o h).0 ≡ point_one_timeline snap n p)
            × IsMemo (read_found snap p n o h).1
            × ((read_found snap p n o h).1.next ≡ h.next)
      found none e = (refl, inserted n h m, refl)
      found (some segs) e = (m n segs e, m, refl)

  -- What a hop adds: the value that is read behind a node that a segment shows.
  abbrev Behind : ObjKey → ObjKey → Segment → Type 0
  Behind w value seg =
      (n : NodeId) × (value ≡ ObjKey.node n)
      × CoversAt at seg
      × (point_one_asof snap n p at ≡ some w)

  unread :
      (w : ObjKey) (seg : Segment) (value : ObjKey) (h : Hop)
      → ((n : NodeId) → value ≡ ObjKey.node n → ⊥)
      → SomeShows at w h.next ↔ (SomeShows at w h.next ⊎ Behind w value seg)
  unread w seg value h never =
      (λ x. inl x, λ x. elim x [ inl a ↦ a | inr (n, e, c, r) ↦ absurd (never n e) ])

  hop_segment_iff :
      (w : ObjKey) (seg : Segment) (value : ObjKey) (h : Hop)
      → IsMemo h
      → SomeShows at w (hop_segment snap p seg value h).next
        ↔ (SomeShows at w h.next ⊎ Behind w value seg)
  hop_segment_iff w seg (ObjKey.node n) h m =
      let (read, memo, kept_next) = read_inner_lem n h m in
      let (into, out) =
        overlaps_iff at w seg (read_inner snap p n h).0 (read_inner snap p n h).1.next in
      let asof = point_one_timeline-asof snap n p at w in
      (
        λ x. elim (into x) [
          | inl a ↦ inl (subst (SomeShows at w) kept_next a)
          | inr (c, s) ↦ inr (n, refl, c, asof.0 (subst (SomeShows at w) read s))
        ],
        λ x. out (elim x [
          | inl a ↦ inl (subst (SomeShows at w) (sym kept_next) a)
          | inr (k, e, c, r) ↦
              inr (c, subst (SomeShows at w) (sym read) (asof.1 (same_node n k e ∙ r)))
        ]),
      )
    where
      same_node :
          (n k : NodeId)
          → ObjKey.node n ≡ ObjKey.node k
          → point_one_asof snap n p at ≡ point_one_asof snap k p at
      same_node n k e = ap (λ x. point_one_asof snap x p at) (cc e)
  hop_segment_iff w seg (ObjKey.int x) h m = unread w seg (ObjKey.int x) h (λ n e. cc e)
  hop_segment_iff w seg (ObjKey.float x) h m = unread w seg (ObjKey.float x) h (λ n e. cc e)
  hop_segment_iff w seg (ObjKey.text x) h m = unread w seg (ObjKey.text x) h (λ n e. cc e)
  hop_segment_iff w seg (ObjKey.boolean x) h m = unread w seg (ObjKey.boolean x) h (λ n e. cc e)

  hop_segment-IsMemo :
      (seg : Segment) (value : ObjKey) (h : Hop)
      → IsMemo h
      → IsMemo (hop_segment snap p seg value h)
  hop_segment-IsMemo seg (ObjKey.node n) h m = (read_inner_lem n h m).1
  hop_segment-IsMemo seg _ h m = m

  hop_segment-IsForward :
      (seg : Segment) (value : ObjKey) (h : Hop)
      → IsMemo h
      → All IsForward h.next
      → All IsForward (hop_segment snap p seg value h).next
  hop_segment-IsForward seg (ObjKey.node n) h m f =
      overlaps-IsForward seg (read_inner snap p n h).0 (read_inner snap p n h).1.next
        (subst (All IsForward) (sym (read_inner_lem n h m).2) f)
  hop_segment-IsForward seg _ h m f = f

  hop_segments-IsForward :
      (segs : List Segment) (h : Hop)
      → IsMemo h
      → All IsForward h.next
      → All IsForward (hop_segments snap p segs h).next
  hop_segments-IsForward [] h m f = f
  hop_segments-IsForward (seg ∷ segs) h m f =
      hop_segments-IsForward segs (hop_segment snap p seg seg.value h)
        (hop_segment-IsMemo seg seg.value h m) (hop_segment-IsForward seg seg.value h m f)

  -- What the segments of a hop add.
  abbrev SomeBehind : ObjKey → List Segment → Type 0
  SomeBehind w segs =
      (n : NodeId) × SomeShows at (ObjKey.node n) segs × (point_one_asof snap n p at ≡ some w)

  hop_segments_iff :
      (w : ObjKey) (segs : List Segment) (h : Hop)
      → IsMemo h
      → SomeShows at w (hop_segments snap p segs h).next
        ↔ (SomeShows at w h.next ⊎ SomeBehind w segs)
  hop_segments_iff w [] h m = (λ x. inl x, λ x. elim x [ inl a ↦ a | inr (n, s, r) ↦ absurd s ])
  hop_segments_iff w (seg ∷ segs) h m =
      let (into, out) =
        hop_segments_iff w segs (hop_segment snap p seg seg.value h)
          (hop_segment-IsMemo seg seg.value h m) in
      let (one, put) = hop_segment_iff w seg seg.value h m in
      (
        λ x. elim (into x) [
          | inl a ↦ elim (one a) [
            | inl b ↦ inl b
            | inr (n, e, c, r) ↦ inr (n, inl (c.0, c.1, e), r)
          ]
          | inr (n, s, r) ↦ inr (n, inr s, r)
        ],
        λ x. out (elim x [
          | inl a ↦ inl (put (inl a))
          | inr (n, inl (f, o, e), r) ↦ inl (put (inr (n, e, (f, o), r)))
          | inr (n, inr s, r) ↦ inr (n, s, r)
        ]),
      )

  -- The segments show one value at the instant, or none.
  abbrev Shows : List Segment → Option ObjKey → Type 0
  Shows segs cur = (v : ObjKey) → SomeShows at v segs ↔ (cur ≡ some v)

  behind_none :
      (segs : List Segment) (cur : Option ObjKey) (w : ObjKey)
      → Shows segs cur
      → ((n : NodeId) → cur ≡ some (ObjKey.node n) → ⊥)
      → SomeBehind w segs ↔ (none ≡ some w)
  behind_none segs cur w shows never =
      (λ x. absurd (never x.0 ((shows (ObjKey.node x.0)).0 x.1)), λ e. absurd (cc e))

  behind_iff :
      (segs : List Segment) (cur : Option ObjKey) (w : ObjKey)
      → Shows segs cur
      → SomeBehind w segs ↔ (follow snap at p cur ≡ some w)
  behind_iff segs none w shows = behind_none segs none w shows (λ n e. cc e)
  behind_iff segs (some (ObjKey.node n)) w shows = (
    λ x.
        ap (λ k. point_one_asof snap k p at) (is_same_node n x.0 ((shows (ObjKey.node x.0)).0 x.1))
        ∙ x.2,
    λ r. (n, (shows (ObjKey.node n)).1 refl, r),
  )
    where
      is_same_node : (n k : NodeId) → some (ObjKey.node n) ≡ some (ObjKey.node k) → n ≡ k
      is_same_node n k e = cc e
  behind_iff segs (some (ObjKey.int x)) w shows = behind_none segs _ w shows (λ n e. cc e)
  behind_iff segs (some (ObjKey.float x)) w shows = behind_none segs _ w shows (λ n e. cc e)
  behind_iff segs (some (ObjKey.text x)) w shows = behind_none segs _ w shows (λ n e. cc e)
  behind_iff segs (some (ObjKey.boolean x)) w shows = behind_none segs _ w shows (λ n e. cc e)

  -- A hop, sorted and coalesced, shows what the read behind the value gives.
  hop-Shows :
      (segs : List Segment) (cur : Option ObjKey) (reads : List Key)
      → Shows segs cur
      → Shows
          (coalesce
            (sort_starts
              (hop_segments snap p segs (record { inner = []; next = []; reads = reads })).next)
            [])
          (follow snap at p cur)
  hop-Shows segs cur reads shows w =
      let start : Hop = record { inner = []; next = []; reads = reads } in
      let memo : IsMemo start = λ n segs e. absurd (unfold get in cc e) in
      let h = hop_segments snap p segs start in
      let forward = hop_segments-IsForward segs start memo tt in
      let (a, b) =
        coalesce_iff at w (sort_starts h.next) [] (sort_starts-IsForward h.next forward) tt in
      let (c, d) = sort_starts_iff at w h.next in
      let (f, g) = hop_segments_iff w segs start memo in
      let (k, l) = behind_iff segs cur w shows in
      (
        λ x. elim (a x) [
          | inl y ↦ absurd y
          | inr y ↦ elim (f (c y)) [ inl z ↦ absurd z | inr z ↦ k z ]
        ],
        λ e. b (inr (d (g (inr (l e))))),
      )

module _ (snap : Facts) (at : ℤ) where
  hops_from-Shows :
      (ps : List FieldId) (segs : List Segment) (reads : List Key) (cur : Option ObjKey)
      → Shows snap at 0 segs cur
      → Shows snap at 0 (hops_from snap ps (segs, reads)).0 (follow_all snap at ps cur)
  hops_from-Shows [] segs reads cur shows = shows
  hops_from-Shows (p ∷ ps) segs reads cur shows =
      hops_from-Shows ps _ _ (follow snap at p cur) (hop-Shows snap at p segs cur reads shows)

-- At every instant the value that a segment of a derived timeline shows is the one that the reads as of
-- that instant give one after the other, each from the node that the one before it returns; where
-- they give none, no segment covers the instant.
pub derived_timeline-asof :
    (snap : Facts) (subject : NodeId) (first : FieldId) (rest : List FieldId) (at : ℤ) (v : ObjKey)
    → SomeShows at v (derived_timeline snap subject (first ∷ rest))
      ↔ (follow_all snap at rest (point_one_asof snap subject first at) ≡ some v)
unfolding derived_timeline derived_timeline_traced
derived_timeline-asof snap subject first rest at v =
    hops_from-Shows snap at rest (point_one_timeline snap subject first) _
      (point_one_asof snap subject first at) (λ w. point_one_timeline-asof snap subject first at w)
      v
