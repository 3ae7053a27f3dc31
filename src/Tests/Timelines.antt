-- ===== src/Tests/Timelines.antt =====
-- crates/stroma-core/src/query.rs, the timelines, at concrete inputs.
use stromadb.Base.{◌≡◌, ◌↔◌, refl, none, some, [], ◌∷◌}
use stromadb.Base.Int.{ℤ}
use stromadb.Base.Map.{get, insert}
use stromadb.Fold.Keys.{ObjKey}
use stromadb.Fold.Observe.{empty_snapshot}
use stromadb.Mask.{Facts, snapshot_facts}
use stromadb.Query.{point_one_asof}
use stromadb.Query.Timeline.{push_segment, stitch, point_one_timeline}
use stromadb.Query.Instants.{SomeShows}
use stromadb.Query.Agreement.{point_one_timeline-asof}
use stromadb.Query.Derived.{derived_timeline, derived_timeline_traced}
use stromadb.Query.Derived.Composed.{follow_all, derived_timeline-asof}
use stromadb.Tests.Data.{key_at}

-- 10 works in 20 from 100, and in 21 from 200 to 300; 21 is led by 40 from 250.
abbrev offices : Facts
offices = snapshot_facts (record empty_snapshot {
  one_history =
      (
        (10, 2),
        (key_at 0, some (ObjKey.node 20), ℤ.pos 100, none)
            ∷ (key_at 1, some (ObjKey.node 21), ℤ.pos 200, some (ℤ.pos 300))
            ∷ [],
      )
      ∷ ((21, 3), (key_at 2, some (ObjKey.node 40), ℤ.pos 250, none) ∷ [])
      ∷ [];
})

point_one_timeline-asof_example :
    SomeShows (ℤ.pos 250) (ObjKey.node 21) (point_one_timeline offices 10 2)
    ↔ (point_one_asof offices 10 2 (ℤ.pos 250) ≡ some (ObjKey.node 21))
point_one_timeline-asof_example = point_one_timeline-asof offices 10 2 (ℤ.pos 250) (ObjKey.node 21)

-- The leader of the office of 10 is 40 from 250 to 300.
one_leader :
    derived_timeline offices 10 (2 ∷ 3 ∷ [])
    ≡ record { value = ObjKey.node 40; valid_from = ℤ.pos 250; valid_to = some (ℤ.pos 300) } ∷ []
unfolding derived_timeline derived_timeline_traced point_one_timeline stitch push_segment
    point_one_asof snapshot_facts get insert
one_leader = refl

derived_timeline-asof_example :
    SomeShows (ℤ.pos 275) (ObjKey.node 40) (derived_timeline offices 10 (2 ∷ 3 ∷ [])) ↔ (
      follow_all offices (ℤ.pos 275) (3 ∷ []) (point_one_asof offices 10 2 (ℤ.pos 275))
      ≡ some (ObjKey.node 40))
derived_timeline-asof_example =
    derived_timeline-asof offices 10 2 (3 ∷ []) (ℤ.pos 275) (ObjKey.node 40)
