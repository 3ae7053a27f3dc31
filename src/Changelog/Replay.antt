-- ===== src/Changelog/Replay.antt =====
-- crates/stroma-core/src/changelog.rs, `replay` and `replay_range_into`: what a replay folds.
use mathlib.Core.Path.{fun_ext}
use stromadb.Base.{
  ℕ, ◌+◌, ◌-◌, ◌≡◌, inl, inr, refl, sym, ap, ◌∙◌, Option, some, List, [], ◌∷◌, ◌++◌, min, arith,
}
use stromadb.Base.Tests.{◌>>=◌, Option-cases}
use stromadb.Base.Lists.{length, drop, drop-append, length-append}
use stromadb.Fold.State.{Fold, empty_fold}
use stromadb.Fold.Apply.{apply_labeled, fold_labeled_from, fold_labeled}
use stromadb.Fold.Parts.{Write}
use stromadb.Changelog.Ops.{
  Record, Changelog, Tracked, record_to_op, head, replay_loop, replay_range_into_tracked,
  replay_range_into, replay_into, replay,
}
use stromadb.Changelog.Appends.{extended}

-- The writes that records stand for, from a first number on.
unfoldable pub log_writes : ℕ → List Record → List Write
log_writes seqno [] = []
log_writes seqno ((source, kind, label) ∷ recs) =
    (record_to_op seqno source kind, label) ∷ log_writes (seqno + 1) recs

folded_of : Option Tracked → Option Fold
folded_of o = o >>= λ t. some t.folded

replay_loop-folds :
    (recs : List Record) (seqno : ℕ) (t : Tracked)
    → (replay_loop seqno recs t >>= λ u. some u.folded)
      ≡ fold_labeled_from t.folded (log_writes seqno recs)
unfolding replay_loop log_writes fold_labeled_from
replay_loop-folds [] seqno t = refl
replay_loop-folds ((source, kind, label) ∷ recs) seqno t =
    elim (Option-cases (apply_labeled (record_to_op seqno source kind) label t.folded)) [
      | inl panics ↦ rw panics refl
      | inr (f, applied) ↦ rw applied (replay_loop-folds recs (seqno + 1) _)
    ]

replay_range_into-folds :
    (from : ℕ) (c : Changelog) (f : Fold)
    → let start = min (from - c.base) (length c.records) in
      replay_range_into from c f
      ≡ fold_labeled_from f (log_writes (c.base + start) (drop start c.records))
unfolding replay_range_into replay_range_into_tracked
replay_range_into-folds from c f =
    let start = min (from - c.base) (length c.records) in
    replay_loop-folds (drop start c.records) (c.base + start)
      (record { keys = []; nodes = []; folded = f })

pub range_from :
    (start : ℕ) (from : ℕ) (c : Changelog) (f : Fold)
    → min (from - c.base) (length c.records) ≡ start
    → replay_range_into from c f
      ≡ fold_labeled_from f (log_writes (c.base + start) (drop start c.records))
range_from start from c f e =
    replay_range_into-folds from c f
    ∙ ap (λ i. fold_labeled_from f (log_writes (c.base + i) (drop i c.records))) e

pub replay-folds : (c : Changelog) → replay c ≡ fold_labeled (log_writes c.base c.records)
unfolding replay replay_into fold_labeled
replay-folds c =
    range_from 0 0 c empty_fold (omega arith)
    ∙ ap (λ i. fold_labeled_from empty_fold (log_writes i c.records)) at_base
  where
    at_base : c.base + 0 ≡ c.base
    at_base = omega arith

pub fold_labeled_from-append :
    (xs ys : List Write) (f : Fold)
    → fold_labeled_from f (xs ++ ys) ≡ (fold_labeled_from f xs >>= λ g. fold_labeled_from g ys)
unfolding fold_labeled_from
fold_labeled_from-append [] ys f = refl
fold_labeled_from-append ((op, label) ∷ xs) ys f = elim (Option-cases (apply_labeled op label f)) [
  | inl panics ↦ rw panics refl
  | inr (g, applied) ↦ rw applied (fold_labeled_from-append xs ys g)
]

pub log_writes-append :
    (xs ys : List Record) (seqno : ℕ)
    → log_writes seqno (xs ++ ys) ≡ log_writes seqno xs ++ log_writes (seqno + length xs) ys
unfolding log_writes
log_writes-append [] ys seqno = ap (λ i. log_writes i ys) (omega arith)
log_writes-append ((source, kind, label) ∷ xs) ys seqno =
    ap (λ ws. (record_to_op seqno source kind, label) ∷ ws)
      (log_writes-append xs ys (seqno + 1)
        ∙ ap (λ i. log_writes (seqno + 1) xs ++ log_writes i ys) (omega arith))

-- A store that has replayed a log and then folds in the records appended since, from the old head
-- on, has what a replay of the whole log gives.
pub replay_range_into-extended :
    (c : Changelog) (writes : List Record)
    → (replay c >>= replay_range_into (head c) (extended writes c)) ≡ replay (extended writes c)
unfolding head fold_labeled
replay_range_into-extended c writes =
    let d = extended writes c in
    let n = length c.records in
    ap (λ o. o >>= replay_range_into (head c) d) (replay-folds c)
    ∙ ap (λ k. fold_labeled (log_writes c.base c.records) >>= k)
        (fun_ext (λ f.
          range_from n (head c) d f (omega (arith, length-append c.records writes))
          ∙ ap (λ rs. fold_labeled_from f (log_writes (c.base + n) rs))
              (drop-append c.records writes)))
    ∙ sym (
        fold_labeled_from-append (log_writes c.base c.records) (log_writes (c.base + n) writes)
          empty_fold)
    ∙ ap fold_labeled (sym (log_writes-append c.records writes c.base))
    ∙ sym (replay-folds d)
