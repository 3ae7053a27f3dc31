-- ===== src/Query/Lookup/Carried.antt =====
-- crates/stroma-core/src/query.rs: the rows that the reads of a value come from.
use mathlib.Core.Option.{some-injective}
use mathlib.Core.Path.{subst}
use stromadb.Base.{◌≡◌, ◌⊎◌, sym, ap, ◌∙◌, Bool, some, List, [], ◌∷◌, inl, inr}
use stromadb.Base.Tests.{if◌then◌else◌, ◌>>=◌, Bool-cases}
use stromadb.Base.Lists.{last, filter}
use stromadb.Base.Order.{is_lt, nat_ord, int_ord, pair_ord}
use stromadb.Fold.Keys.{ObjKey, obj_ord, order_ord}
use stromadb.Fold.Observe.{VersionRow}
use stromadb.Query.{rank, latest, latest_from}

-- A row of the list has the value.
abbrev pub Carries : ObjKey → List VersionRow → Type 0
Carries v [] = ⊥
Carries v (row ∷ rows) = (row.1 ≡ some v) ⊎ Carries v rows

latest_from-Carries :
    (v : ObjKey) (kept : VersionRow) (rows : List VersionRow)
    → (latest_from kept rows).1 ≡ some v
    → Carries v (kept ∷ rows)
latest_from-Carries v kept [] e = inl e
latest_from-Carries v kept (row ∷ rows) e = elim (Bool-cases (is_lt (rank row) (rank kept))) [
  | inl l ↦
      elim (latest_from-Carries v kept rows
        (ap (λ b. (latest_from (if b then kept else row) rows).1) (sym l) ∙ e)) [
          | inl k ↦ inl k
          | inr c ↦ inr (inr c)
        ]
  | inr l ↦ inr (
      latest_from-Carries v row rows
        (ap (λ b. (latest_from (if b then kept else row) rows).1) (sym l) ∙ e))
]

pub latest-Carries :
    (v : ObjKey) (rows : List VersionRow) → (latest rows >>= λ row. row.1) ≡ some v → Carries v rows
latest-Carries v [] e = absurd (cc e)
latest-Carries v (row ∷ rows) e = latest_from-Carries v row rows e

pub filter-Carries :
    (v : ObjKey) (p : VersionRow → Bool) (rows : List VersionRow)
    → Carries v (filter p rows)
    → Carries v rows
filter-Carries v p [] c = c
filter-Carries v p (row ∷ rows) c = elim (Bool-cases (p row)) [
  | inl e ↦ elim (subst (λ b. Carries v (if b then row ∷ filter p rows else filter p rows)) e c) [
    | inl k ↦ inl k
    | inr d ↦ inr (filter-Carries v p rows d)
  ]
  | inr e ↦ inr (
      filter-Carries v p rows
        (subst (λ b. Carries v (if b then row ∷ filter p rows else filter p rows)) e c))
]

pub last-Carries :
    (v : ObjKey) (rows : List VersionRow) (row : VersionRow)
    → last rows ≡ some row
    → row.1 ≡ some v
    → Carries v rows
last-Carries v [] row l e = absurd (cc l)
last-Carries v (x ∷ []) row l e = inl (ap (λ y. y.1) (some-injective _ _ l) ∙ e)
last-Carries v (x ∷ y ∷ rows) row l e = inr (last-Carries v (y ∷ rows) row l e)
