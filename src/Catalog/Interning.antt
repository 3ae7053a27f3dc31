-- ===== src/Catalog/Interning.antt =====
-- crates/stroma-core/src/catalog.rs, `Interner::intern`: ids are stable and never shared.
use stromadb.Base.{◌^◌, ◌<◌, ◌≡◌, inl, inr, none, some, [], ◌∷◌, ◌++◌, arith}
use native.Mathlib.Nat.{mod-eq_of_lt}
use stromadb.Base.Tests.{◌==◌, if◌then◌else◌, Option-cases}
use stromadb.Base.Lists.{length, get_elem?-snoc, get_elem?-lt-length}
use stromadb.Base.Map.{get, insert, get-insert}
use stromadb.Base.Order.{nat_ord, list_ord, is_eq, is_eq→eq, is_eq_refl}
use stromadb.Fact.{FieldId, Str}
use stromadb.Catalog.Interner.{Interner, intern, find, name_of, empty_interner}

-- The table and the list of names say the same.
pub record IsConsistent (t : Interner) : Type 0 where
  pub listed : (name : Str) (id : FieldId) → find t name ≡ some id → name_of t id ≡ some name
  pub found : (name : Str) (id : FieldId) → name_of t id ≡ some name → find t name ≡ some id

pub empty_interner-IsConsistent : IsConsistent empty_interner
unfolding find name_of get
empty_interner-IsConsistent = record { listed = λ name id h. cc; found = λ name id h. cc }

module _ (t : Interner) (name : Str) where
  -- The table after a new name.
  abbrev extended : Interner
  extended = record {
    by_name = insert name (length t.names) t.by_name;
    names = t.names ++ name ∷ [];
  }

  intern_known : (id : FieldId) → find t name ≡ some id → intern t name ≡ (t, id)
  unfolding intern find
  intern_known id e = ground arith

  intern_new :
      length t.names < 2 ^ 32 → find t name ≡ none → intern t name ≡ (extended, length t.names)
  unfolding intern find
  intern_new fits e = ground (arith, mod-eq_of_lt fits)

  find-extended :
      (n : Str) → find extended n ≡ (if is_eq name n then some (length t.names) else find t n)
  unfolding find
  find-extended n = get-insert n name (length t.names) t.by_name

  name_of-extended :
      (i : FieldId) → name_of extended i ≡ (if i == length t.names then some name else name_of t i)
  unfolding name_of
  name_of-extended i = get_elem?-snoc t.names name i

  name_of-lt : (i : FieldId) (n : Str) → name_of t i ≡ some n → i < length t.names
  unfolding name_of
  name_of-lt i n h = get_elem?-lt-length t.names i h

  extended-IsConsistent : find t name ≡ none → IsConsistent t → IsConsistent extended
  extended-IsConsistent new c = record {
    listed = λ n i h.
        ground (
          arith,
          find-extended n,
          name_of-extended i,
          is_eq→eq name n,
          c.listed n i,
          name_of-lt i n,
        );
    found = λ n i h.
        ground (
          arith,
          find-extended n,
          name_of-extended i,
          is_eq→eq name n,
          is_eq_refl name,
          c.found n i,
        );
  }

module _ (t : Interner) (name : Str) (fits : length t.names < 2 ^ 32) where
  -- `intern` keeps the table and the list of names in step, as long as a new id fits in a `u32`.
  pub intern-IsConsistent : IsConsistent t → IsConsistent (intern t name).0
  intern-IsConsistent c = elim (Option-cases (find t name)) [
    | inr (id, e) ↦ rw (intern_known t name id e) c
    | inl new ↦ rw (intern_new t name fits new) (extended-IsConsistent t name new c)
  ]

  -- The name that is interned is found by the id that `intern` returns, and the id by the name,
  -- where the table and the list of names were in step and a new id fits in a `u32`.
  pub intern_lem :
      IsConsistent t
      → let (t', id) = intern t name in (find t' name ≡ some id) × (name_of t' id ≡ some name)
  intern_lem c = elim (Option-cases (find t name)) [
    | inr (id, e) ↦ rw (intern_known t name id e) (e, c.listed name id e)
    | inl new ↦ rw (intern_new t name fits new) (
      ground (arith, find-extended t name name, is_eq_refl name),
      ground (arith, name_of-extended t name (length t.names)),
    )
  ]

  -- A name that had an id before still has that id after another name is interned, and the id
  -- still stands for that name.
  pub intern-find_kept :
      (n : Str) (i : FieldId)
      → IsConsistent t
      → find t n ≡ some i
      → let t' = (intern t name).0 in (find t' n ≡ some i) × (name_of t' i ≡ some n)
  intern-find_kept n i c h = elim (Option-cases (find t name)) [
    | inr (id, e) ↦ rw (intern_known t name id e) (h, c.listed n i h)
    | inl new ↦ rw (intern_new t name fits new) (
      ground (arith, find-extended t name n, is_eq→eq name n),
      ground (arith, c.listed n i h, name_of-extended t name i, name_of-lt t name i n),
    )
  ]
