-- ===== src/Tests/Masks.antt =====
-- crates/stroma-core/src/mask.rs at concrete inputs.
use native.Mathlib.Nat.{div-lt_iff_lt-mul}
use stromadb.Base.{ℕ, zero, suc, ◌*◌, ◌^◌, ◌≤◌, ◌<◌, arith, true, ◌≡◌, refl, none, some, [], ◌∷◌}
use stromadb.Base.Map.{get, insert, extend, retain, remove}
use stromadb.Base.Tests.{unwrap_or}
use stromadb.Catalog.{empty_catalog}
use stromadb.Fold.Keys.{ObjKey}
use stromadb.Fold.State.{Label, Fold, empty_fold}
use stromadb.Fold.Gc.{observe}
use stromadb.Fold.Apply.{apply_labeled, fold_labeled}
use stromadb.Mask.{
  Facts, FactMask, new_mask, new_masked, snapshot_facts, label_allowed, label_visible, row_visible,
  effective_label, floor,
}
use stromadb.Mask.View
use stromadb.Mask.View.{masked_facts}
use stromadb.Mask.Without.{without_hidden}
use stromadb.Mask.Idle.{row_visible-effective_label}
use stromadb.Mask.Hidden.{masked_facts-without_hidden}
use stromadb.Tests.Data.{hired, met}

abbrev hashed : ObjKey → ℕ
hashed o = 0

abbrev both : Fold
both = unwrap_or (fold_labeled (hired ∷ met ∷ [])) empty_fold

both_folds : fold_labeled (hired ∷ met ∷ []) ≡ some both
unfolding fold_labeled apply_labeled get insert
both_folds = refl

abbrev seen : Facts
seen = masked_facts (new_masked (observe hashed both) empty_catalog 1)

abbrev kept : Facts
kept = snapshot_facts (observe hashed (without_hidden (new_mask empty_catalog 1) both))

-- The label 3 of the one row of the key is not allowed.
masked_facts-without_hidden_example :
    (seen.one_rows (10, 2) ≡ kept.one_rows (10, 2))
    × (seen.one_value (10, 2) ≡ kept.one_value (10, 2))
    × (seen.many_rows (10, 2) ≡ kept.many_rows (10, 2))
    × (seen.many_set (10, 2) ≡ kept.many_set (10, 2))
masked_facts-without_hidden_example =
    masked_facts-without_hidden hashed empty_catalog 1 (hired ∷ met ∷ []) both (10, 2) both_folds

-- So the read gives nothing.
hidden_read : seen.one_value (10, 2) ≡ none
unfolding masked_facts View.one_value new_masked observe fold_labeled get insert extend retain
    remove label_allowed
hidden_read = refl

-- Labels up to 3 are allowed.
abbrev tiered : FactMask
tiered = new_mask empty_catalog 15

wide : (n : ℕ) → 15 < 1 * 2 ^ suc (suc (suc (suc n)))
wide zero = omega arith
wide (suc n) = omega (arith, wide n)

label_allowed-le : (m : ℕ) → label_allowed 15 m ≡ true → m ≤ 3
unfolding label_allowed
label_allowed-le zero h = omega arith
label_allowed-le (suc zero) h = omega arith
label_allowed-le (suc (suc zero)) h = omega arith
label_allowed-le (suc (suc (suc zero))) h = omega arith
label_allowed-le (suc (suc (suc (suc n)))) h = ground (
  arith,
  wide n,
  (div-lt_iff_lt-mul {k = 2 ^ suc (suc (suc (suc n)))} {x = 15} {y = 1} (omega (arith, wide n))).1
      (wide n),
)

le-label_allowed : (l : ℕ) → l ≤ 3 → label_allowed 15 l ≡ true
unfolding label_allowed
le-label_allowed zero h = refl
le-label_allowed (suc zero) h = refl
le-label_allowed (suc (suc zero)) h = refl
le-label_allowed (suc (suc (suc zero))) h = refl
le-label_allowed (suc (suc (suc (suc n)))) h = absurd (omega arith)

tiered_down :
    (l m : Label)
    → l ≤ m
    → label_allowed tiered.allowed m ≡ true
    → label_allowed tiered.allowed l ≡ true
unfolding new_mask
tiered_down l m le h = le-label_allowed l (omega (arith, label_allowed-le m h))

row_visible-effective_label_example :
    row_visible tiered 2 (some 3)
    ≡ label_visible tiered.allowed (effective_label (floor tiered 2) (some 3))
row_visible-effective_label_example = row_visible-effective_label tiered 2 (some 3) tiered_down
