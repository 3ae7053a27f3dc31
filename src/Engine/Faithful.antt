-- ===== src/Engine/Faithful.antt =====
-- crates/stroma-core/src/engine.rs: the materialized fold and the log that it stands for.
use mathlib.Core.Option.{some-injective}
use mathlib.Core.Path.{subst}
use stromadb.Base.{
  ℕ, zero, suc, ◌+◌, ◌≤◌, ◌≡◌, refl, sym, ap, ◌∙◌, arith, Option, some, List, [], ◌∷◌, ◌++◌, inl,
  inr,
}
use stromadb.Base.Tests.{◌>>=◌, leb, Bool-cases, Option-cases}
use stromadb.Base.Lists.{length, take, drop, length-append}
use stromadb.Fact.{FieldId}
use stromadb.WriteKind.{WriteKind}
use stromadb.Fold.Keys.{ObjKey}
use stromadb.Fold.State.{Label, empty_fold}
use stromadb.Fold.Apply.{fold_labeled, fold_labeled_from}
use stromadb.Changelog.Ops.{
  Record, head, unmaterialized, append_labeled, append_batch_labeled, mark_materialized, replay,
  replay_range_into_tracked,
}
use stromadb.Changelog.Appends.{extended, append_batch_labeled_lem}
use stromadb.Changelog.Framing.{take-append_more, take-all, take-drop}
use stromadb.Changelog.Replay.{
  log_writes, log_writes-append, range_from, replay-folds, fold_labeled_from-append,
}
use stromadb.Engine.{Engine, materialize, effective_fold}
use stromadb.Engine.Materialize.{materialized, panicked}

-- The materialized fold is the fold of the log up to the watermark, which the log knows, and the
-- tail is within its limit.
pub record IsFaithful (e : Engine) : Type 0 where
  pub starts : e.changelog.base ≡ 0
  pub in_bounds : e.watermark ≤ length e.changelog.records
  pub known : e.changelog.materialized ≡ e.watermark
  pub backlog : unmaterialized e.changelog ≤ e.changelog.max_unmaterialized
  pub base_folds : fold_labeled (log_writes 0 (take e.watermark e.changelog.records)) ≡ some e.base

length-take : (n : ℕ) (xs : List Record) → n ≤ length xs → length (take n xs) ≡ n
length-take zero xs h = refl
length-take (suc n) [] h = absurd (omega arith)
length-take (suc n) (x ∷ xs) h = omega (arith, length-take n xs (omega arith))

-- The merged fold is the replay of the whole log.
pub effective_fold-replay : (e : Engine) → IsFaithful e → effective_fold e ≡ replay e.changelog
unfolding effective_fold fold_labeled
effective_fold-replay e h =
    let w = e.watermark in
    let c = e.changelog in
    let old = take w c.records in
    let tail = drop w c.records in
    range_from w w c e.base (omega (arith, h.starts, h.in_bounds))
    ∙ ap (λ i. fold_labeled_from e.base (log_writes i tail)) (omega (arith, h.starts))
    ∙ ap (λ o. o >>= λ g. fold_labeled_from g (log_writes w tail)) (sym h.base_folds)
    ∙ sym (fold_labeled_from-append (log_writes 0 old) (log_writes w tail) empty_fold)
    ∙ ap (λ i. fold_labeled_from empty_fold (log_writes 0 old ++ log_writes i tail)) before_tail
    ∙ ap fold_labeled (sym (log_writes-append old tail 0))
    ∙ ap (λ l. fold_labeled (log_writes 0 l)) (take-drop w c.records)
    ∙ ap (λ b. fold_labeled (log_writes b c.records)) (sym h.starts)
    ∙ sym (replay-folds c)
  where
    before_tail : e.watermark ≡ 0 + length (take e.watermark e.changelog.records)
    before_tail = omega (arith, length-take e.watermark e.changelog.records h.in_bounds)

extended-IsFaithful :
    (e : Engine) (writes : List Record)
    → IsFaithful e
    → unmaterialized e.changelog + length writes ≤ e.changelog.max_unmaterialized
    → IsFaithful (record e { changelog = extended writes e.changelog })
unfolding unmaterialized
extended-IsFaithful e writes h room = record {
  starts = h.starts;
  in_bounds = omega (arith, h.in_bounds, length-append e.changelog.records writes);
  known = h.known;
  backlog = omega (arith, length-append e.changelog.records writes);
  base_folds =
      ap (λ l. fold_labeled (log_writes 0 l))
        (take-append_more e.watermark e.changelog.records writes h.in_bounds)
      ∙ h.base_folds;
}

pub append_labeled-IsFaithful :
    (e : Engine) (source : FieldId) (kind : WriteKind) (label : Option Label)
    → IsFaithful e
    → IsFaithful (record e { changelog = (append_labeled source kind label e.changelog).1 })
unfolding append_labeled
append_labeled-IsFaithful e source kind label h =
    elim (Bool-cases (leb e.changelog.max_unmaterialized (unmaterialized e.changelog))) [
      | inl full ↦ rw full h
      | inr room ↦ rw room (extended-IsFaithful e ((source, kind, label) ∷ []) h (ground arith))
    ]

pub append_batch_labeled-IsFaithful :
    (e : Engine) (writes : List Record)
    → IsFaithful e
    → IsFaithful (record e { changelog = (append_batch_labeled writes e.changelog).1 })
append_batch_labeled-IsFaithful e writes h = elim (append_batch_labeled_lem writes e.changelog) [
  | inl (room, whole, each) ↦ rw whole (extended-IsFaithful e writes h room)
  | inr (full, refused) ↦ rw refused h
]

module _ (value_hash : ObjKey → ℕ) where
  pub materialize-IsFaithful :
      (e after : Engine) → IsFaithful e → materialize value_hash e ≡ some after → IsFaithful after
  unfolding head mark_materialized unmaterialized
  materialize-IsFaithful e after h made =
      elim (Option-cases (replay_range_into_tracked e.watermark e.changelog e.base)) [
        | inl p ↦ absurd (cc (made, (panicked value_hash e p).0))
        | inr (t, p) ↦
            let (m, f) = materialized value_hash e t p in
            subst IsFaithful (some-injective _ _ (sym m ∙ made)) (record {
              starts = h.starts;
              in_bounds = omega (arith, h.starts);
              known = omega (arith, h.starts, h.known, h.in_bounds);
              backlog = omega (arith, h.starts);
              base_folds =
                  ap (λ i. fold_labeled (log_writes 0 (take i e.changelog.records))) at_end
                  ∙ ap (λ l. fold_labeled (log_writes 0 l)) (take-all e.changelog.records)
                  ∙ ap (λ b. fold_labeled (log_writes b e.changelog.records)) (sym h.starts)
                  ∙ sym (replay-folds e.changelog)
                  ∙ sym (effective_fold-replay e h)
                  ∙ f;
            })
      ]
    where
      at_end : head e.changelog ≡ length e.changelog.records
      at_end = omega (arith, h.starts)
