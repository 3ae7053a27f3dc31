-- ===== src/Ir/Sort.antt =====
-- `slice::sort_by`, a stable sort, with a comparison that may panic, as crates/stroma-core/src/ir.rs
-- uses it. A comparison panics there for a NaN, which every sort of two or more elements compares.
use Prim.Native.Nat.{Ordering}
use Prim.Native.Nat.Ordering.{lt, eq, gt}
use stromadb.Base.{suc, ◌≡◌, refl, ap, ◌∙◌, Option, some, List, [], ◌∷◌}
use stromadb.Base.Tests.{◌>>=◌, map_option}
use stromadb.Base.Lists.{length, All}

module _ {A : Type 0} (compare_by : A → A → Option Ordering) where
  -- In front of what is not lower.
  abbrev pub insert_by : A → List A → Option (List A)
  insert_by x [] = some (x ∷ [])
  insert_by x (y ∷ ys) =
      let rest = insert_by x ys in
      compare_by x y >>= λ o. elim o [ gt ↦ map_option (◌∷◌ y) rest | _ ↦ some (x ∷ y ∷ ys) ]

  unfoldable pub sort_by : List A → Option (List A)
  sort_by [] = some []
  sort_by (x ∷ xs) = do rest ← sort_by xs; insert_by x rest

  module _ {P : A → Type 0}
      (total : (x y : A) → P x → P y → (o : Ordering) × (compare_by x y ≡ some o)) where
    insert_by_total :
        (x : A) (ys : List A)
        → P x
        → All P ys
        → (zs : List A) × (insert_by x ys ≡ some zs) × All P zs × (length zs ≡ suc (length ys))
    insert_by_total x [] p a = (x ∷ [], refl, (p, tt), refl)
    insert_by_total x (y ∷ ys) p a =
        let (o, c) = total x y p a.0 in placed o c (insert_by_total x ys p a.1)
      where
        placed :
            (o : Ordering)
            → compare_by x y ≡ some o
            → (zs : List A) × (insert_by x ys ≡ some zs) × All P zs × (length zs ≡ suc (length ys))
            → (zs : List A) × (insert_by x (y ∷ ys) ≡ some zs)
              × All P zs
              × (length zs ≡ suc (suc (length ys)))
        placed lt c rest = (x ∷ y ∷ ys, rw c refl, (p, a), refl)
        placed eq c rest = (x ∷ y ∷ ys, rw c refl, (p, a), refl)
        placed gt c (zs, e, q, l) = (y ∷ zs, rw (c, e) refl, (a.0, q), ap suc l)

    -- A sort whose comparisons do not panic on the elements keeps them, as many.
    pub sort_by_total :
        (xs : List A)
        → All P xs
        → (ys : List A) × (sort_by xs ≡ some ys) × All P ys × (length ys ≡ length xs)
    unfolding sort_by
    sort_by_total [] a = ([], refl, tt, refl)
    sort_by_total (x ∷ xs) a =
        let (ys, e, q, l) = sort_by_total xs a.1 in
        let (zs, f, r, m) = insert_by_total x ys a.0 q in (zs, rw e f, r, m ∙ ap suc l)
