-- ===== src/Mask/Idle.antt =====
-- crates/stroma-core/src/mask.rs: a mask of ordered tiers.
use stromadb.Base.{◌≤◌, ◌≡◌, refl, arith, true, ◌&&◌, Option, none, some}
use stromadb.Base.Order.{nat_ord, pair_ord}
use stromadb.Fact.{FieldId}
use stromadb.Fold.Keys.{obj_ord}
use stromadb.Fold.State.{Label}
use stromadb.Mask.{FactMask, row_visible, label_allowed, label_visible, effective_label, floor}

-- Under a mask that allows every label below one that it allows, a row is visible exactly when its
-- effective label, the greater of its own and the floor of its predicate, is allowed or it has none.
pub row_visible-effective_label :
    (mask : FactMask) (p : FieldId) (label : Option Label)
    → ((l m : Label)
        → l ≤ m
        → label_allowed mask.allowed m ≡ true
        → label_allowed mask.allowed l ≡ true)
    → row_visible mask p label ≡ label_visible mask.allowed (effective_label (floor mask p) label)
unfolding row_visible effective_label
row_visible-effective_label mask p label down = at (floor mask p) label
  where
    at :
        (f l : Option Label)
        → (label_visible mask.allowed f && label_visible mask.allowed l)
          ≡ label_visible mask.allowed (effective_label f l)
    at none l = refl
    at (some f) none = ground arith
    at (some f) (some l) = ground (arith, down f l, down l f)
