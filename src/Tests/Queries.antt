-- ===== src/Tests/Queries.antt =====
-- crates/stroma-core/src/query.rs at concrete inputs.
use stromadb.Base.{◌^◌, ◌-◌, true, ◌≡◌, refl, none, some, [], ◌∷◌}
use stromadb.Base.Int.{ℤ}
use stromadb.Base.Map.{get, insert}
use stromadb.Fold.Keys.{ObjKey}
use stromadb.Fold.Observe.{VersionRow, empty_snapshot}
use stromadb.Mask.{Facts, snapshot_facts}
use stromadb.Base.Lists.{length}
use stromadb.Query.Timeline.{point_one_timeline}
use stromadb.Query.Confidence.{Tier, confidence_signals}
use stromadb.Tests.Data.{key_at}

abbrev first : VersionRow
first = (key_at 0, some (ObjKey.node 20), ℤ.pos 100, none)

abbrev second : VersionRow
second = (key_at 1, some (ObjKey.node 21), ℤ.pos 200, some (ℤ.pos 300))

abbrev employed : Facts
employed =
    snapshot_facts (record empty_snapshot { one_history = ((10, 2), first ∷ second ∷ []) ∷ [] })

-- Two rows give three segments.
three_segments : length (point_one_timeline employed 10 2) ≡ 3
unfolding snapshot_facts get insert point_one_timeline
three_segments = refl

-- Two sources with one value.
abbrev agreed : Facts
agreed = snapshot_facts (record empty_snapshot {
  one_history =
      (
        (10, 2),
        (record { tx = 0; source = 1; seq = 0 }, some (ObjKey.node 20), ℤ.pos 100, none)
            ∷ (record { tx = 1; source = 2; seq = 1 }, some (ObjKey.node 20), ℤ.pos 100, none)
            ∷ [],
      )
      ∷ [];
})

agreed_high :
    confidence_signals agreed 10 2 none none
    ≡ some (record { corroboration = 2; has_source = true; age = none; tier = Tier.high })
unfolding confidence_signals snapshot_facts get insert
agreed_high = refl

-- An age that leaves the word of an `i64` panics.
no_age : confidence_signals agreed 10 2 (some (ℤ.negsuc (2 ^ 63 - 1))) none ≡ none
unfolding confidence_signals snapshot_facts get insert
no_age = refl
