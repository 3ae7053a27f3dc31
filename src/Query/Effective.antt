-- ===== src/Query/Effective.antt =====
-- crates/stroma-core/src/query.rs, `point_one_asof`: the row in effect at an instant.
use stromadb.Base.{◌≡◌, arith, true, false, List, [], ◌∷◌, ◌⊎◌}
use stromadb.Base.Tests.{if◌then◌else◌}
use stromadb.Base.Lists.{All}
use stromadb.Base.Int.{ℤ}
use stromadb.Base.Order.{Ord, is_lt, nat_ord, int_ord, pair_ord}
use stromadb.Fold.Keys.{obj_ord, order_ord}
use stromadb.Fold.Observe.{VersionRow}
use stromadb.Query.{covers, rank}

-- A row is the other one, or lower.
abbrev pub UpTo : VersionRow → VersionRow → Type 0
UpTo row x = (x ≡ row) ⊎ (is_lt (rank x) (rank row) ≡ true)

-- A row is not below any row that covers an instant.
abbrev pub TopsAt : ℤ → VersionRow → List VersionRow → Type 0
TopsAt at row rows = All (λ x. covers at x ≡ true → UpTo row x) rows

abbrev pub Has : VersionRow → List VersionRow → Type 0
Has row [] = ⊥
Has row (x ∷ rows) = (x ≡ row) ⊎ Has row rows

is_lt_irrefl {ℓ} : {K : Type ℓ} ⦃o : Ord K⦄ (a : K) → is_lt a a ≡ false
is_lt_irrefl ⦃o⦄ a = ground (arith, o.same a)

abbrev greater_of : VersionRow → VersionRow → VersionRow
greater_of kept x = if is_lt (rank x) (rank kept) then kept else x
