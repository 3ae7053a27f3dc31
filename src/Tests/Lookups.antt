-- ===== src/Tests/Lookups.antt =====
-- crates/stroma-core/src/query.rs, `lookup_one`, at a concrete fold.
use stromadb.Base.{ℕ, ◌≡◌, ◌↔◌, Bool, true, none, some, [], ◌∷◌}
use stromadb.Base.Int.{ℤ}
use stromadb.Fact.{NodeId}
use stromadb.Fold.Keys.{ObjKey}
use stromadb.Fold.State.{KeyState, Fold, empty_fold}
use stromadb.Fold.Gc.{observe}
use stromadb.Mask.{snapshot_facts}
use stromadb.Query.Pointers.{Among}
use stromadb.Query.Lookup.{value_now, lookup_one}
use stromadb.Query.Lookup.Found.{lookup_one_iff}
use stromadb.Tests.Data.{key_at}

-- 10 is in 20, and a hash that puts all values together.
abbrev in_office : Fold
in_office = record empty_fold {
  keys =
      (
        (10, 2),
        KeyState.one (record {
          versions =
              (
                key_at 0,
                record { object = some (ObjKey.node 20); valid_from = ℤ.pos 100; valid_to = none },
              )
              ∷ [];
          hd = none;
        }),
      )
      ∷ [];
}

abbrev one_bucket : ObjKey → ℕ
one_bucket v = 0

abbrev everyone : NodeId → Bool
everyone n = true

lookup_one_iff_example :
    let snap = snapshot_facts (observe one_bucket in_office) in
    Among 10 (lookup_one one_bucket snap 2 (ObjKey.node 20) none everyone)
    ↔ ((value_now snap 2 none 10 ≡ some (ObjKey.node 20)) × (everyone 10 ≡ true))
lookup_one_iff_example = lookup_one_iff one_bucket in_office 2 (ObjKey.node 20) none everyone 10
