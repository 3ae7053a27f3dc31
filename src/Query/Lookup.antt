-- ===== src/Query/Lookup.antt =====
-- crates/stroma-core/src/query.rs, `lookup_one`, over the reverse index of the snapshot of
-- crates/stroma-core/src/fold.rs. The hash of a value is a parameter.
pub mod Carried
pub mod Found
use stromadb.Base.{ℕ, Bool, false, ◌&&◌, Option, none, some, List, [], ◌∷◌}
use stromadb.Base.Int.{ℤ}
use stromadb.Base.Tests.{◌==◌, if◌then◌else◌}
use stromadb.Base.Lists.{filter}
use stromadb.Base.Map.{keys, retain}
use stromadb.Base.Order.{is_eq}
use stromadb.Fact.{FieldId, NodeId}
use stromadb.Fold.Keys.{ObjKey, obj_ord}
use stromadb.Fold.Observe.{Snapshot, ValueEntry}
use stromadb.Mask.{Facts}
use stromadb.Query.{point_one, point_one_asof}

abbrev pub subjects_of : List ValueEntry → List NodeId
subjects_of [] = []
subjects_of ((p, (h, n)) ∷ es) = n ∷ subjects_of es

-- `range((predicate, h, NodeId::MIN)..=(predicate, h, NodeId::MAX))`
abbrev pub in_range : FieldId → ℕ → ValueEntry → Bool
in_range predicate hash (p, (h, n)) = (p == predicate) && (h == hash)

-- `v.as_ref() == Some(value)`
abbrev pub is_value : ObjKey → Option ObjKey → Bool
is_value value none = false
is_value value (some v) = is_eq v value

-- The current value, or the one in effect at an instant.
abbrev pub value_now : Facts → FieldId → Option ℤ → NodeId → Option ObjKey
value_now snap predicate none n = point_one snap n predicate
value_now snap predicate (some at) n = point_one_asof snap n predicate at

module _ (value_hash : ObjKey → ℕ) where
  unfoldable pub one_value_subjects : Snapshot → FieldId → ObjKey → List NodeId
  one_value_subjects snap predicate value =
      subjects_of (keys (retain (in_range predicate (value_hash value)) snap.one_values))

  unfoldable pub lookup_one : Facts → FieldId → ObjKey → Option ℤ → (NodeId → Bool) → List NodeId
  unfolding one_value_subjects point_one point_one_asof
  lookup_one snap predicate value at keep =
      filter (λ n. is_value value (value_now snap predicate at n) && keep n)
        (one_value_subjects snap.underlying predicate value)
