-- ===== src/Tests/Data.antt =====
-- Values for the runs.
use stromadb.Base.Tests.{◌==◌, if◌then◌else◌}
use stromadb.Base.{ℕ, false, none, some, List, [], ◌∷◌}
use stromadb.Base.Int.{ℤ}
use stromadb.Catalog.{Cardinality}
use stromadb.WriteKind.{WriteKind}
use stromadb.Fold.Keys.{ObjKey, OrderKey}
use stromadb.Fold.State.{Key, Op}
use stromadb.Fold.Parts.{Write}
use stromadb.Changelog.Ops.{Record, Changelog}

abbrev pub key_at : ℕ → OrderKey
key_at n = record { tx = n; source = 1; seq = n }

abbrev pub works_at : Write
works_at = (Op.set_one 10 2 (ObjKey.node 20) (ℤ.pos 100) none (key_at 0), some 3)

abbrev pub moves_to : Write
moves_to = (Op.set_one 10 2 (ObjKey.node 21) (ℤ.pos 200) none (key_at 1), none)

abbrev pub knows : Write
knows = (Op.add_many 10 4 (ObjKey.node 30) (ℤ.pos 100) none (key_at 2), none)

-- Predicate 2 has one value at a time, the others many.
abbrev pub schema : Key → Cardinality
schema k = if k.1 == 2 then Cardinality.one else Cardinality.many

abbrev pub hire : Record
hire = (1, WriteKind.set_one 10 2 (ObjKey.node 20) (ℤ.pos 100) none, some 3)

abbrev pub meet : Record
meet = (1, WriteKind.add_many 10 4 (ObjKey.node 30) (ℤ.pos 100) none, none)

abbrev pub two_records : Changelog
two_records = record {
  records = hire ∷ meet ∷ [];
  base = 0;
  materialized = 0;
  max_unmaterialized = 3;
  wal = false;
  durable_upto = 0;
}

-- The writes of `two_records`, and a delivery of them that repeats one and has the other first.
abbrev pub hired : Write
hired = (Op.set_one 10 2 (ObjKey.node 20) (ℤ.pos 100) none (key_at 0), some 3)

abbrev pub met : Write
met = (Op.add_many 10 4 (ObjKey.node 30) (ℤ.pos 100) none (key_at 1), none)

abbrev pub delivered : List Write
delivered = met ∷ hired ∷ met ∷ []
