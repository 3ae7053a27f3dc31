-- ===== src/Catalog/Interner.antt =====
-- crates/stroma-core/src/catalog.rs, `Interner`: names to stable field ids.
use stromadb.Base.{◌%◌, ◌^◌, Option, none, some, List, [], ◌∷◌, ◌++◌}
use stromadb.Base.Lists.{length, get_elem?}
use stromadb.Base.Map.{BTreeMap, get, insert}
use stromadb.Base.Order.{nat_ord, list_ord}
use stromadb.Fact.{FieldId, Str}

pub record Interner : Type 0 where
  pub by_name : BTreeMap Str FieldId
  pub names : List Str

-- `Interner::default`
abbrev pub empty_interner : Interner
empty_interner = record { by_name = []; names = [] }

-- A new name takes the number of names so far, cast to a `u32`.
unfoldable pub intern : Interner → Str → Interner × FieldId
intern t name = elim (get name t.by_name) [
  | some id ↦ (t, id)
  | none ↦
      let id = length t.names % 2 ^ 32 in
      (record { by_name = insert name id t.by_name; names = t.names ++ name ∷ [] }, id)
]

unfoldable pub find : Interner → Str → Option FieldId
find t name = get name t.by_name

unfoldable pub name_of : Interner → FieldId → Option Str
name_of t id = get_elem? t.names id
