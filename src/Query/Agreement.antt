-- ===== src/Query/Agreement.antt =====
-- crates/stroma-core/src/query.rs: the segments of `point_one_timeline` against `point_one_asof`.
use mathlib.Core.Path.{subst}
use stromadb.Base.{
  ◌≡◌, ◌↔◌, refl, sym, ap, ◌∙◌, arith, true, false, Option, none, some, List, [], ◌∷◌, inl, inr,
}
use stromadb.Base.Int.{ℤ}
use stromadb.Base.Tests.{if◌then◌else◌, ◌>>=◌, Option-cases}
use stromadb.Base.Lists.{filter, All}
use stromadb.Base.Map.{BTreeSet, keys, contains, set_insert, get-insert}
use stromadb.Base.Map.Sorted.{IsSorted, insert-IsSorted}
use stromadb.Base.Order.{is_eq_refl, int_ord}
use stromadb.Fact.{FieldId, NodeId}
use stromadb.Fold.Keys.{ObjKey}
use stromadb.Fold.Observe.{VersionRow}
use stromadb.Mask.{Facts}
use stromadb.Query.{covers, latest, effective, point_one_asof}
use stromadb.Query.Timeline.{Segment, insert_end, boundaries, stitch, point_one_timeline}
use stromadb.Query.Instants.{SomeShows, stitch_iff}
use stromadb.Query.Settled.{settled, piece_iff, le_unsettled, le_settled}

-- A boundary of a row is a boundary of the rows.
insert_end-kept :
    (to : Option ℤ) (x : ℤ) (s : BTreeSet ℤ)
    → contains x s ≡ true
    → contains x (insert_end to s) ≡ true
insert_end-kept none x s h = h
insert_end-kept (some to) x s h = ground (arith, get-insert x to tt s)

boundaries-kept :
    (rows : List VersionRow) (x : ℤ) (s : BTreeSet ℤ)
    → contains x s ≡ true
    → contains x (boundaries rows s) ≡ true
boundaries-kept [] x s h = h
boundaries-kept ((ok, object, from, to) ∷ rows) x s h =
    boundaries-kept rows x (insert_end to (set_insert from s))
      (insert_end-kept to x (set_insert from s) (ground (arith, get-insert x from tt s)))

boundaries-IsSorted :
    (rows : List VersionRow) (s : BTreeSet ℤ) → IsSorted s → IsSorted (boundaries rows s)
boundaries-IsSorted [] s h = h
boundaries-IsSorted ((ok, object, from, none) ∷ rows) s h =
    boundaries-IsSorted rows (set_insert from s) (insert-IsSorted from tt s h)
boundaries-IsSorted ((ok, object, from, some to) ∷ rows) s h =
    boundaries-IsSorted rows (set_insert to (set_insert from s))
      (insert-IsSorted to tt (set_insert from s) (insert-IsSorted from tt s h))

-- The ends of a row are among the boundaries.
abbrev IsBounded : BTreeSet ℤ → VersionRow → Type 0
IsBounded m (ok, object, from, none) = contains from m ≡ true
IsBounded m (ok, object, from, some to) = (contains from m ≡ true) × (contains to m ≡ true)

boundaries-IsBounded :
    (rows : List VersionRow) (s : BTreeSet ℤ) → All (IsBounded (boundaries rows s)) rows
boundaries-IsBounded [] s = tt
boundaries-IsBounded ((ok, object, from, none) ∷ rows) s = (
  boundaries-kept rows from (set_insert from s)
      (ground (arith, get-insert from from tt s, is_eq_refl from)),
  boundaries-IsBounded rows (set_insert from s),
)
boundaries-IsBounded ((ok, object, from, some to) ∷ rows) s =
    let both = set_insert to (set_insert from s) in
    (
      (
        boundaries-kept rows from both (
            ground (
              arith,
              get-insert from to tt (set_insert from s),
              get-insert from from tt s,
              is_eq_refl from,
            )),
        boundaries-kept rows to both
            (ground (arith, get-insert to to tt (set_insert from s), is_eq_refl to)),
      ),
      boundaries-IsBounded rows both,
    )

module _ (m : BTreeSet ℤ) (sorted : IsSorted m) (at : ℤ) where
  covers-settled :
      (b : ℤ) (row : VersionRow)
      → settled at (keys m) ≡ some b
      → IsBounded m row
      → covers at row ≡ covers b row
  covers-settled b (ok, object, from, none) e i = ground (arith, le_settled at b from m sorted e i)
  covers-settled b (ok, object, from, some to) e i =
      ground (arith, le_settled at b from m sorted e i.0, le_settled at b to m sorted e i.1)

  covers_unsettled :
      (row : VersionRow) → settled at (keys m) ≡ none → IsBounded m row → covers at row ≡ false
  covers_unsettled (ok, object, from, none) e i = ground (arith, le_unsettled at from m sorted e i)
  covers_unsettled (ok, object, from, some to) e i =
      ground (arith, le_unsettled at from m sorted e i.0)

  filter-settled :
      (b : ℤ) (rows : List VersionRow)
      → settled at (keys m) ≡ some b
      → All (IsBounded m) rows
      → filter (covers at) rows ≡ filter (covers b) rows
  filter-settled b [] e i = refl
  filter-settled b (row ∷ rows) e i = λ j.
      if covers-settled b row e i.0 j
      then row ∷ filter-settled b rows e i.1 j
      else filter-settled b rows e i.1 j

  filter_unsettled :
      (rows : List VersionRow)
      → settled at (keys m) ≡ none
      → All (IsBounded m) rows
      → filter (covers at) rows ≡ []
  filter_unsettled [] e i = refl
  filter_unsettled (row ∷ rows) e i =
      ap (λ c. if c then row ∷ filter (covers at) rows else filter (covers at) rows)
        (covers_unsettled row e i.0)
      ∙ filter_unsettled rows e i.1

-- A value is in effect at an instant exactly if it is in effect at the last boundary of the instant.
settled_asof :
    (snap : Facts) (subject : NodeId) (predicate : FieldId) (at : ℤ) (rows : List VersionRow)
    → snap.one_rows (subject, predicate) ≡ some rows
    → (settled at (keys (boundaries rows [])) >>= point_one_asof snap subject predicate)
      ≡ point_one_asof snap subject predicate at
unfolding point_one_asof effective
settled_asof snap subject predicate at rows h =
    let bounds = boundaries rows [] in
    let sorted = boundaries-IsSorted rows [] tt in
    let bounded = boundaries-IsBounded rows [] in
    elim (Option-cases (settled at (keys bounds))) [
      | inl e ↦
          rw (e, h)
            (sym (
              ap (λ l. latest l >>= λ row. row.1)
                (filter_unsettled bounds sorted at rows e bounded)))
      | inr (b, e) ↦
          rw (e, h)
            (sym (
              ap (λ l. latest l >>= λ row. row.1)
                (filter-settled bounds sorted at b rows e bounded)))
    ]

unread :
    (snap : Facts) (subject : NodeId) (predicate : FieldId) (at : ℤ)
    → snap.one_rows (subject, predicate) ≡ none
    → point_one_asof snap subject predicate at ≡ none
unfolding point_one_asof
unread snap subject predicate at e = rw e refl

-- At every instant the value that a segment of the timeline shows is the one that the read as of that
-- instant returns, through any `Facts`; where that read returns none, no segment covers the instant.
pub point_one_timeline-asof :
    (snap : Facts) (subject : NodeId) (predicate : FieldId) (at : ℤ) (v : ObjKey)
    → SomeShows at v (point_one_timeline snap subject predicate)
      ↔ (point_one_asof snap subject predicate at ≡ some v)
unfolding point_one_timeline
point_one_timeline-asof snap subject predicate at v =
    let at_rows : Option (List VersionRow) → List Segment = λ found. elim found [
      | none ↦ []
      | some rows ↦ stitch (point_one_asof snap subject predicate) (keys (boundaries rows [])) []
    ] in
    elim (Option-cases (snap.one_rows (subject, predicate))) [
      | inl e ↦ (
        λ x. absurd (subst (SomeShows at v) (ap at_rows e) x),
        λ h. absurd (cc (unread snap subject predicate at e, h)),
      )
      | inr (rows, e) ↦
          let bounds = boundaries rows [] in
          let sorted = boundaries-IsSorted rows [] tt in
          let pieces =
            stitch_iff (point_one_asof snap subject predicate) at v bounds [] sorted tt in
          let piece = piece_iff (point_one_asof snap subject predicate) at v bounds sorted in
          let agreed = settled_asof snap subject predicate at rows e in
          (
            λ x. elim (pieces.0 (subst (SomeShows at v) (ap at_rows e) x)) [
              | inl a ↦ absurd a
              | inr p ↦ sym agreed ∙ piece.0 p
            ],
            λ h.
                subst (SomeShows at v) (sym (ap at_rows e)) (pieces.1 (inr (piece.1 (agreed ∙ h)))),
          )
    ]
