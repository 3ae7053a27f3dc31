-- ===== src/Changelog/Ops.antt =====
-- crates/stroma-core/src/changelog.rs: the state of a `Changelog` and its operations.
use stromadb.Base.{
  ℕ, ◌+◌, ◌-◌, Bool, true, false, not, ◌||◌, Option, none, some, List, [], ◌∷◌, ◌++◌, min, max, map,
}
use stromadb.Base.Tests.{ltb, leb, if◌then◌else◌, ◌>>=◌, unwrap_or}
use stromadb.Base.Lists.{length, drop}
use stromadb.Base.Map.{BTreeSet, set_insert}
use stromadb.Base.Order.{nat_ord, pair_ord}
use stromadb.Fact.{FieldId, NodeId}
use stromadb.Fold.Keys.{OrderKey}
use stromadb.Fold.State.{Key, Label, Op, Fold, empty_fold}
use stromadb.Fold.Apply.{apply_labeled, op_key, node_attr_node}
use stromadb.WriteKind.{WriteKind}
use stromadb.Wal.Bytes.{Bytes}
use stromadb.Wal.Codec.{Recovered}
use stromadb.Wal.Recover.{framed, recover}

-- `(source, kind, label)`
abbrev pub Record : Type 0
Record = Recovered

pub record Backpressure : Type 0 where
  pub unmaterialized : ℕ
  pub limit : ℕ

pub data Appended {ℓ} (A : Type ℓ) : Type ℓ where
  ok : A → Appended A
  err : Backpressure → Appended A

-- `wal` says whether there is a file behind the log.
pub record Changelog : Type 0 where
  pub records : List Record
  pub base : ℕ
  pub materialized : ℕ
  pub max_unmaterialized : ℕ
  pub wal : Bool
  pub durable_upto : ℕ

abbrev pub Disk : Type 0
Disk = Option Bytes

unfoldable pub record_to_op : ℕ → FieldId → WriteKind → Op
record_to_op seqno source kind =
    let ok : OrderKey = record { tx = seqno; source = source; seq = seqno } in
    elim kind [
      | WriteKind.set_one s p object valid_from valid_to ↦
          Op.set_one s p object valid_from valid_to ok
      | WriteKind.close_one s p valid_from ↦ Op.close_one s p valid_from ok
      | WriteKind.add_many s p object valid_from valid_to ↦
          Op.add_many s p object valid_from valid_to ok
      | WriteKind.close_many s p object valid_from ↦ Op.close_many s p object valid_from ok
      | WriteKind.remove_many s p observed ↦ Op.remove_many s p observed
      | WriteKind.hard_delete s p cardinality ↦ Op.hard_delete s p ok cardinality
      | WriteKind.set_edge_prop s p object key value ↦ Op.set_edge_prop s p object key value ok
      | WriteKind.set_node_type n type_id ↦ Op.set_node_type n type_id ok
      | WriteKind.set_node_label n label ↦ Op.set_node_label n label ok
    ]

-- `Changelog::new`
unfoldable pub new : ℕ → Changelog
new max_unmaterialized = record {
  records = [];
  base = 0;
  materialized = 0;
  max_unmaterialized = max_unmaterialized;
  wal = false;
  durable_upto = 0;
}

-- `Changelog::open`: a missing file is created empty.
unfoldable pub open_log : Disk → ℕ → Changelog × Disk
open_log disk max_unmaterialized =
    let (base, records) = recover disk in
    let n = length records in
    (
      record {
        records = records;
        base = base;
        materialized = n;
        max_unmaterialized = max_unmaterialized;
        wal = true;
        durable_upto = n;
      },
      some (unwrap_or disk []),
    )

-- `Changelog::sync`
unfoldable pub sync : Changelog → Disk → Changelog × Disk
sync c disk = if not c.wal || leb (length c.records) c.durable_upto then (c, disk) else (
  record c { durable_upto = length c.records },
  some (unwrap_or disk [] ++ framed (drop c.durable_upto c.records)),
)

unfoldable pub durable_head : Changelog → ℕ
durable_head c = if c.wal then c.base + c.durable_upto else 0

unfoldable pub unmaterialized : Changelog → ℕ
unmaterialized c = length c.records - c.materialized

unfoldable pub head : Changelog → ℕ
head c = c.base + length c.records

unfoldable pub append_labeled :
    FieldId → WriteKind → Option Label → Changelog → Appended ℕ × Changelog
unfolding unmaterialized head
append_labeled source kind label c =
    if leb c.max_unmaterialized (unmaterialized c)
    then (
      Appended.err (record { unmaterialized = unmaterialized c; limit = c.max_unmaterialized }),
      c,
    )
    else (Appended.ok (head c), record c { records = c.records ++ (source, kind, label) ∷ [] })

unfoldable pub append : FieldId → WriteKind → Changelog → Appended ℕ × Changelog
unfolding append_labeled
append source kind = append_labeled source kind none

-- The loop of a batch that fits.
unfoldable pub push_all : List Record → Changelog → List ℕ × Changelog
unfolding head
push_all [] c = ([], c)
push_all (rec ∷ recs) c =
    let (seqnos, c') = push_all recs (record c { records = c.records ++ rec ∷ [] }) in
    (head c ∷ seqnos, c')

unfoldable pub append_batch_labeled : List Record → Changelog → Appended (List ℕ) × Changelog
unfolding unmaterialized push_all
append_batch_labeled writes c =
    if ltb c.max_unmaterialized (unmaterialized c + length writes)
    then (
      Appended.err (record {
        unmaterialized = unmaterialized c + length writes;
        limit = c.max_unmaterialized;
      }),
      c,
    )
    else let (seqnos, c') = push_all writes c in (Appended.ok seqnos, c')

unfoldable pub append_batch : List (FieldId × WriteKind) → Changelog → Appended (List ℕ) × Changelog
unfolding append_batch_labeled
append_batch writes = append_batch_labeled (map (λ w. (w.0, w.1, none)) writes)

unfoldable pub mark_materialized : ℕ → Changelog → Changelog
mark_materialized up_to c =
    let rel = up_to - c.base in
    record c { materialized = max (min rel (length c.records)) c.materialized }

-- What a range touched, and the fold after it.
pub record Tracked : Type 0 where
  pub keys : BTreeSet Key
  pub nodes : BTreeSet NodeId
  pub folded : Fold

abbrev pub track : Op → Tracked → Tracked
track op t = elim (node_attr_node op) [
  | some n ↦ record t { nodes = set_insert n t.nodes }
  | none ↦ record t { keys = set_insert (op_key op) t.keys }
]

unfoldable pub replay_loop : ℕ → List Record → Tracked → Option Tracked
replay_loop seqno [] t = some t
replay_loop seqno ((source, kind, label) ∷ recs) t = do
  let op = record_to_op seqno source kind
  f ← apply_labeled op label t.folded
  replay_loop (seqno + 1) recs (record (track op t) { folded = f })

unfoldable pub replay_range_into_tracked : ℕ → Changelog → Fold → Option Tracked
unfolding replay_loop
replay_range_into_tracked from c f =
    let start = min (from - c.base) (length c.records) in
    replay_loop (c.base + start) (drop start c.records)
      (record { keys = []; nodes = []; folded = f })

unfoldable pub replay_range_into : ℕ → Changelog → Fold → Option Fold
unfolding replay_range_into_tracked
replay_range_into from c f = do t ← replay_range_into_tracked from c f; some t.folded

unfoldable pub replay_into : Changelog → Fold → Option Fold
unfolding replay_range_into
replay_into c f = replay_range_into 0 c f

unfoldable pub replay : Changelog → Option Fold
unfolding replay_into
replay c = replay_into c empty_fold
