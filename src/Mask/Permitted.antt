-- ===== src/Mask/Permitted.antt =====
-- The labels of the nodes of crates/stroma-core/src/fold.rs, as a reader of the pipelines and of the
-- report of absent predicates understands them.
use stromadb.Base.{ℕ, ◌/◌, ◌%◌, ◌^◌, ◌<◌, ◌≡◌, some}
use stromadb.Base.Map.{get}
use stromadb.Base.Order.{nat_ord}
use stromadb.Fact.{NodeId}
use stromadb.Fold.Observe.{Snapshot}

-- Every label of a node is one of the 32 bits of a principal.
abbrev pub LabelsFit : Snapshot → Type 0
LabelsFit snap = (n : NodeId) (l : ℕ) → get n snap.node_labels ≡ some l → l < 32

-- A node without a label is public, and one with a label is seen by who has its bit.
abbrev pub MaySee : Snapshot → ℕ → NodeId → Type 0
MaySee snap allowed n = (l : ℕ) → get n snap.node_labels ≡ some l → allowed / 2 ^ l % 2 ≡ 1
