-- ===== src/Query/Derived.antt =====
-- crates/stroma-core/src/query.rs, `derived_timeline`: the timeline of a chain of reads. The callback of
-- the traced form is the list of its calls.
pub mod Overlaps
pub mod Composed
use stromadb.Base.{ℕ, Bool, true, ◌&&◌, Option, none, some, List, [], ◌∷◌, ◌++◌}
use stromadb.Base.Int.{ℤ, lebℤ, ltbℤ}
use stromadb.Base.Tests.{if◌then◌else◌}
use stromadb.Base.Map.{BTreeMap, get, insert}
use stromadb.Base.Order.{nat_ord}
use stromadb.Fact.{FieldId, NodeId}
use stromadb.Fold.Keys.{ObjKey}
use stromadb.Fold.State.{Key}
use stromadb.Mask.{Facts}
use stromadb.Query.Timeline.{Segment, push_segment, point_one_timeline}

-- `max`, `min` on instants
abbrev pub later : ℤ → ℤ → ℤ
later a b = if lebℤ a b then b else a

abbrev pub earlier : ℤ → ℤ → ℤ
earlier a b = if lebℤ a b then a else b

abbrev pub earlier_end : Option ℤ → Option ℤ → Option ℤ
earlier_end none x = x
earlier_end (some a) none = some a
earlier_end (some a) (some b) = some (earlier a b)

-- `to.is_none_or(|t| from < t)`
abbrev pub lasts : ℤ → Option ℤ → Bool
lasts from none = true
lasts from (some to) = ltbℤ from to

-- The overlaps of a segment with the segments of the next read, in front of `next`.
abbrev pub overlaps : Segment → List Segment → List Segment → List Segment
overlaps seg [] next = next
overlaps seg (is ∷ inner) next =
    let from = later seg.valid_from is.valid_from in
    let to = earlier_end seg.valid_to is.valid_to in
    overlaps seg inner (
      if lasts from to
      then next ++ record { value = is.value; valid_from = from; valid_to = to } ∷ []
      else next)

-- What a hop keeps: the segments that were read, the overlaps so far, and the reads.
pub record Hop : Type 0 where
  pub inner : BTreeMap NodeId (List Segment)
  pub next : List Segment
  pub reads : List Key

-- `inner.entry(*n).or_insert_with(…)`
abbrev pub read_found : Facts → FieldId → NodeId → Option (List Segment) → Hop → List Segment × Hop
read_found snap p n (some segs) h = (segs, h)
read_found snap p n none h =
    let segs = point_one_timeline snap n p in
    (segs, record h { inner = insert n segs h.inner; reads = h.reads ++ (n, p) ∷ [] })

abbrev pub read_inner : Facts → FieldId → NodeId → Hop → List Segment × Hop
read_inner snap p n h = read_found snap p n (get n h.inner) h

abbrev pub hop_segment : Facts → FieldId → Segment → ObjKey → Hop → Hop
hop_segment snap p seg (ObjKey.node n) h =
    let (segs, g) = read_inner snap p n h in record g { next = overlaps seg segs g.next }
hop_segment snap p seg _ h = h

abbrev pub hop_segments : Facts → FieldId → List Segment → Hop → Hop
hop_segments snap p [] h = h
hop_segments snap p (seg ∷ segs) h = hop_segments snap p segs (hop_segment snap p seg seg.value h)

-- `sort_by_key`: stable, by the start.
abbrev pub insert_start : Segment → List Segment → List Segment
insert_start s [] = s ∷ []
insert_start s (t ∷ ts) =
    let rest = insert_start s ts in if lebℤ s.valid_from t.valid_from then s ∷ t ∷ ts else t ∷ rest

abbrev pub sort_starts : List Segment → List Segment
sort_starts [] = []
sort_starts (s ∷ ss) = insert_start s (sort_starts ss)

abbrev pub coalesce : List Segment → List Segment → List Segment
coalesce [] merged = merged
coalesce (s ∷ ss) merged = coalesce ss (push_segment s.value s.valid_from s.valid_to merged)

-- The loop over the predicates behind the first.
abbrev pub hops_from : Facts → List FieldId → List Segment × List Key → List Segment × List Key
hops_from snap [] out = out
hops_from snap (p ∷ ps) (segs, reads) =
    let h = hop_segments snap p segs (record { inner = []; next = []; reads = reads }) in
    hops_from snap ps (coalesce (sort_starts h.next) [], h.reads)

unfoldable pub derived_timeline_traced : Facts → NodeId → List FieldId → List Segment × List Key
unfolding point_one_timeline push_segment
derived_timeline_traced snap subject [] = ([], [])
derived_timeline_traced snap subject (first ∷ rest) =
    hops_from snap rest (point_one_timeline snap subject first, (subject, first) ∷ [])

unfoldable pub derived_timeline : Facts → NodeId → List FieldId → List Segment
unfolding derived_timeline_traced
derived_timeline snap subject hops = (derived_timeline_traced snap subject hops).0
