-- ===== src/Fact.antt =====
-- crates/stroma-core/src/fact.rs: the fact, the unit of the data model.
-- A text is the list of its UTF-8 bytes, a float its bit pattern, a `u64` or `u32` a number.
use stromadb.Base.{ℕ, List, Option, none, Bool}
use stromadb.Base.Int.{ℤ}

abbrev pub FieldId : Type 0
FieldId = ℕ

abbrev pub NodeId : Type 0
NodeId = ℕ

abbrev pub Str : Type 0
Str = List ℕ

pub data Value : Type 0 where
  int : ℤ → Value
  float : ℕ → Value
  text : Str → Value
  boolean : Bool → Value

pub data Object : Type 0 where
  node : NodeId → Object
  value : Value → Object

pub record ValidTime : Type 0 where
  pub from : ℤ
  pub to : Option ℤ

-- `ValidTime::from`
abbrev pub open_from : ℤ → ValidTime
open_from t = record { from = t; to = none }

pub data ProvenanceKind : Type 0 where
  asserted derived : ProvenanceKind

pub record Provenance : Type 0 where
  pub kind : ProvenanceKind
  pub source : FieldId

pub record Fact : Type 0 where
  pub subject : NodeId
  pub predicate : FieldId
  pub object : Object
  pub valid_time : ValidTime
  pub transaction_time : ℕ
  pub provenance : Provenance
  pub confidence : ℕ
