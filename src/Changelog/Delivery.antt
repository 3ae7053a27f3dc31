-- ===== src/Changelog/Delivery.antt =====
-- crates/stroma-core/src/changelog.rs: the writes of a log delivered again or in another order,
-- and the replay of a log that is opened again.
use mathlib.Core.Path.{subst}
use mathlib.Core.Logic.Or
use mathlib.Core.List.{Mem, mem-cons, not-mem-nil}
use native.Mathlib.Bridge.{le_prop}
use stromadb.Base.{ℕ, ◌+◌, ◌≤◌, ◌≡◌, ◌↔◌, refl, sym, ap, ◌∙◌, Option, some, List, [], ◌∷◌, arith}
use stromadb.Base.Lists.{All}
use stromadb.Fact.{FieldId}
use stromadb.Catalog.{Cardinality}
use stromadb.WriteKind.{WriteKind, row_label}
use stromadb.Fold.Keys.{OrderKey}
use stromadb.Fold.State.{Key, Label, Op, Fold}
use stromadb.Fold.Apply.{apply_labeled, fold_labeled}
use stromadb.Fold.Parts.{Write, order_key}
use stromadb.Fold.Convergence.{Coherent, fold_labeled-eq_of_same_writes}
use stromadb.Fold.Total.{Obeys, fold_labeled_total}
use stromadb.Changelog.Ops.{Record, Changelog, record_to_op, replay}
use stromadb.Changelog.Replay.{log_writes, replay-folds}

record_to_op-order_key :
    (seqno : ℕ) (source : FieldId) (kind : WriteKind) (ok : OrderKey)
    → order_key (record_to_op seqno source kind) ≡ some ok
    → ok.seq ≡ seqno
unfolding record_to_op
record_to_op-order_key seqno source kind ok h = ground arith

Write-set : IsSet Write
Write-set = hlevel

log_writes-later :
    (recs : List Record) (seqno : ℕ) (w : Write) (ok : OrderKey)
    → Mem w (log_writes seqno recs)
    → order_key w.0 ≡ some ok
    → seqno ≤ ok.seq
unfolding log_writes
log_writes-later [] seqno w ok m e = absurd (not-mem-nil m)
log_writes-later ((source, kind, label) ∷ recs) seqno w ok m e =
    Or.elim le_prop (mem-cons.0 m)
      (λ q. omega (
        arith,
        record_to_op-order_key seqno source kind ok (ap (λ (v : Write). order_key v.0) (sym q) ∙ e),
      ))
      (λ n. omega (arith, log_writes-later recs (seqno + 1) w ok n e))

log_writes_unique :
    (recs : List Record) (seqno : ℕ) (a b : Write) (ok : OrderKey)
    → Mem a (log_writes seqno recs)
    → Mem b (log_writes seqno recs)
    → order_key a.0 ≡ some ok
    → order_key b.0 ≡ some ok
    → a ≡ b
unfolding log_writes
log_writes_unique [] seqno a b ok m n e g = absurd (not-mem-nil m)
log_writes_unique ((source, kind, label) ∷ recs) seqno a b ok m n e g =
    Or.elim (Write-set a b) (mem-cons.0 m)
      (λ p.
        Or.elim (Write-set a b) (mem-cons.0 n) (λ q. p ∙ sym q)
          (λ q. absurd (omega (arith, at_front a p e, log_writes-later recs (seqno + 1) b ok q g))))
      (λ p.
        Or.elim (Write-set a b) (mem-cons.0 n)
          (λ q. absurd (omega (arith, at_front b q g, log_writes-later recs (seqno + 1) a ok p e)))
          (λ q. log_writes_unique recs (seqno + 1) a b ok p q e g))
  where
    at_front :
        (w : Write)
        → w ≡ (record_to_op seqno source kind, label)
        → order_key w.0 ≡ some ok
        → ok.seq ≡ seqno
    at_front w q h =
        record_to_op-order_key seqno source kind ok (ap (λ (v : Write). order_key v.0) (sym q) ∙ h)

module _ (cardinality : Key → Cardinality) where
  Obeys-prop : (op : Op) → IsProp (Obeys cardinality op)
  Obeys-prop op = hlevel

  Obeys-of_mem :
      (ws : List Write) (w : Write)
      → All (λ v. Obeys cardinality v.0) ws
      → Mem w ws
      → Obeys cardinality w.0
  Obeys-of_mem [] w h m = absurd (not-mem-nil m)
  Obeys-of_mem (v ∷ ws) w (h, hs) m =
      Or.elim (Obeys-prop w.0) (mem-cons.0 m)
        (λ q. subst (λ (u : Write). Obeys cardinality u.0) (sym q) h) (λ n. Obeys-of_mem ws w hs n)

  pub log_writes-Coherent :
      (seqno : ℕ) (recs : List Record)
      → All (λ v. Obeys cardinality v.0) (log_writes seqno recs)
      → Coherent (log_writes seqno recs)
  log_writes-Coherent seqno recs h a b m n = record {
    one_cardinality = λ k c d p q.
        Obeys-of_mem (log_writes seqno recs) a h m k c p
        ∙ sym (Obeys-of_mem (log_writes seqno recs) b h n k d q);
    unique = λ ok p q. log_writes_unique recs seqno a b ok m n p q;
  }

  -- Any stream that holds the writes of a log, in any order and each any number of times, folds
  -- without a panic, to the state that the replay of the log gives, where the records take each
  -- key to have one cardinality.
  pub replay-delivered :
      (c : Changelog) (delivered : List Write)
      → All (λ w. Obeys cardinality w.0) (log_writes c.base c.records)
      → ((w : Write) → Mem w delivered ↔ Mem w (log_writes c.base c.records))
      → (f : Fold) × (replay c ≡ some f) × (fold_labeled delivered ≡ some f)
  replay-delivered c delivered h same =
      let ws = log_writes c.base c.records in
      let (f, folds, typed) = fold_labeled_total cardinality ws h in
      (
        f,
        replay-folds c ∙ folds,
        sym (
              fold_labeled-eq_of_same_writes ws delivered (log_writes-Coherent c.base c.records h)
                (λ w. ((same w).1, (same w).0)))
            ∙ folds,
      )

-- The label that a record loses on the disk is one that no operation reads.
pub apply_labeled-row_label :
    (seqno : ℕ) (source : FieldId) (kind : WriteKind) (label : Option Label) (f : Fold)
    → apply_labeled (record_to_op seqno source kind) (row_label kind label) f
      ≡ apply_labeled (record_to_op seqno source kind) label f
unfolding record_to_op apply_labeled
apply_labeled-row_label seqno source (WriteKind.set_one s p o vf vt) label f = refl
apply_labeled-row_label seqno source (WriteKind.close_one s p vf) label f = refl
apply_labeled-row_label seqno source (WriteKind.add_many s p o vf vt) label f = refl
apply_labeled-row_label seqno source (WriteKind.close_many s p o vf) label f = refl
apply_labeled-row_label seqno source (WriteKind.remove_many s p observed) label f = ground arith
apply_labeled-row_label seqno source (WriteKind.hard_delete s p c) label f = ground arith
apply_labeled-row_label seqno source (WriteKind.set_edge_prop s p o k v) label f = ground arith
apply_labeled-row_label seqno source (WriteKind.set_node_type n t) label f = ground arith
apply_labeled-row_label seqno source (WriteKind.set_node_label n l) label f = ground arith
