-- ===== src/Query/Confidence.antt =====
-- crates/stroma-core/src/query.rs: the confidence signals of a value. A panic is `none`.
use stromadb.Base.{
  ℕ, ◌+◌, ◌-◌, ◌^◌, ◌&&◌, Bool, true, false, not, ◌||◌, Option, none, some, List, [], ◌∷◌,
}
use stromadb.Base.Int.{ℤ, sub_ℕ, pos_part, neg_part, lebℤ, ltbℤ}
use stromadb.Base.Tests.{◌==◌, leb, if◌then◌else◌, map_option, unwrap_or}
use stromadb.Base.Lists.{length, last}
use stromadb.Base.Map.{BTreeSet, set_insert}
use stromadb.Base.Order.{is_eq, nat_ord}
use stromadb.Fact.{FieldId, NodeId}
use stromadb.Fold.Keys.{ObjKey, obj_ord}
use stromadb.Fold.Observe.{VersionRow}
use stromadb.Mask.{Facts}

pub data Tier : Type 0 where
  low : Tier
  medium : Tier
  high : Tier

pub record ConfidenceSignals : Type 0 where
  pub corroboration : ℕ
  pub has_source : Bool
  pub age : Option ℤ
  pub tier : Tier

abbrev pub same_object : Option ObjKey → Option ObjKey → Bool
same_object none none = true
same_object none (some b) = false
same_object (some a) none = false
same_object (some a) (some b) = is_eq a b

-- The distinct sources, but for the unset one, of the rows with an object.
abbrev pub sources_of : Option ObjKey → List VersionRow → BTreeSet FieldId
sources_of object [] = []
sources_of object ((ok, o, valid_from, valid_to) ∷ rows) =
    let rest = sources_of object rows in
    if same_object o object
    then (if ok.source == 0 then rest else set_insert ok.source rest)
    else rest

abbrev pub from_source : Option VersionRow → Bool
from_source none = false
from_source (some row) = not ((row.0).source == 0)

abbrev pub corroborated : Option VersionRow → List VersionRow → ℕ
corroborated none rows = 0
corroborated (some row) rows = length (sources_of row.1 rows)

abbrev pub is_i64 : ℤ → Bool
is_i64 i = lebℤ (ℤ.negsuc (2 ^ 63 - 1)) i && lebℤ i (ℤ.pos (2 ^ 63 - 1))

-- `n - valid_from`, a panic where it leaves the word.
abbrev pub elapsed : ℤ → ℤ → Option ℤ
elapsed now from =
    let age = sub_ℕ (pos_part now + neg_part from) (pos_part from + neg_part now) in
    if is_i64 age then some age else none

-- The age of the last row, where there are a row and an instant to compare it with.
abbrev pub age_of : Option VersionRow → Option ℤ → Option (Option ℤ)
age_of (some row) (some now) = map_option (λ age. some age) (elapsed now row.2)
age_of _ _ = some none

abbrev pub is_stale : Option ℤ → Option ℤ → Bool
is_stale (some age) (some limit) = ltbℤ limit age
is_stale _ _ = false

unfoldable pub tier_of : Bool → Bool → ℕ → Tier
tier_of has_source stale corroboration =
    if not has_source || stale
    then Tier.low
    else (if leb 2 corroboration then Tier.high else Tier.medium)

unfoldable pub confidence_signals :
    Facts → NodeId → FieldId → Option ℤ → Option ℤ → Option ConfidenceSignals
unfolding tier_of
confidence_signals snap subject predicate now max_age =
    let history = unwrap_or (snap.one_rows (subject, predicate)) [] in
    let winner = last history in
    let corroboration = corroborated winner history in
    map_option
      (λ age. record {
        corroboration = corroboration;
        has_source = from_source winner;
        age = age;
        tier = tier_of (from_source winner) (is_stale age max_age) corroboration;
      })
      (age_of winner now)
