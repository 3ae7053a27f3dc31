-- ===== src/Engine/Runs.antt =====
-- crates/stroma-core/src/engine.rs: any sequence of writes, retractions and materializations of an
-- engine that began empty in memory.
use mathlib.Core.Option.{some-injective}
use mathlib.Core.Path.{subst}
use stromadb.Base.{ℕ, ◌≡◌, refl, sym, ap, ◌∙◌, arith, Option, none, some, List, inl, inr}
use stromadb.Base.Tests.{if◌then◌else◌, ◌>>=◌, Bool-cases, Option-cases}
use stromadb.Base.Lists.{is_empty}
use stromadb.Fact.{FieldId, NodeId}
use stromadb.WriteKind.{WriteKind}
use stromadb.Fold.Keys.{ObjKey}
use stromadb.Fold.State.{Label, Fold}
use stromadb.Fold.Apply.{fold_labeled}
use stromadb.Fold.Gc.{observe}
use stromadb.Fold.Tags.{live_tags}
use stromadb.Changelog.Ops
use stromadb.Changelog.Ops.{
  Record, Changelog, Tracked, head, unmaterialized, append, append_labeled, append_batch_labeled,
  mark_materialized, replay, replay_range_into_tracked,
}
use stromadb.Changelog.Replay.{log_writes}
use stromadb.Engine
use stromadb.Engine.{
  Engine, Retracted, write_labeled, write_batch_labeled, retract_edge, materialize, effective_fold,
  snapshot, snapshot_arc,
}
use stromadb.Base.Map.{extend}
use stromadb.Engine.Faithful.{
  IsFaithful, effective_fold-replay, append_labeled-IsFaithful, append_batch_labeled-IsFaithful,
  materialize-IsFaithful,
}
use stromadb.Engine.Materialize.{IsCurrent, materialize-IsCurrent}

module _ (value_hash : ObjKey → ℕ) where
  -- One operation of an engine in memory; a materialize that panics is none.
  pub data Step : Engine → Engine → Type 0 where
    wrote :
        {e : Engine} (source : FieldId) (kind : WriteKind) (label : Option Label)
        → Step e ((write_labeled source kind label e).1)
    wrote_batch : {e : Engine} (writes : List Record) → Step e ((write_batch_labeled writes e).1)
    retracted :
        {e after : Engine} (source : FieldId) (subject : NodeId) (predicate : FieldId)
        (object : ObjKey) (reply : Retracted)
        → retract_edge source subject predicate object e ≡ some (reply, after)
        → Step e after
    materialized_tail : {e after : Engine} → materialize value_hash e ≡ some after → Step e after

  pub data Reachable : Engine → Type 0 where
    fresh : (n_max : ℕ) → Reachable (Engine.new n_max)
    stepped : {e after : Engine} → Reachable e → Step e after → Reachable after

  -- The cached snapshot is current and the materialized fold faithful.
  pub record IsMaintained (e : Engine) : Type 0 where
    pub current : IsCurrent value_hash e
    pub faithful : IsFaithful e

  retract_edge-IsMaintained :
      (e after : Engine) (source : FieldId) (subject : NodeId) (predicate : FieldId)
      (object : ObjKey) (reply : Retracted)
      → retract_edge source subject predicate object e ≡ some (reply, after)
      → IsMaintained e
      → IsMaintained after
  unfolding retract_edge append
  retract_edge-IsMaintained e after source subject predicate object reply h s =
      elim (Option-cases (effective_fold e)) [
        | inl p ↦ absurd (cc (h, ap (λ o. o >>= outcome) p))
        | inr (f, p) ↦ elim (Bool-cases (is_empty (live_tags subject predicate object f))) [
          | inl empty ↦
              subst IsMaintained
                (ap (λ r. r.1)
                  (some-injective _ _ (
                    ap (λ b. some (if b then (Retracted.absent, e) else appended_to f)) (sym empty)
                    ∙ ap (λ o. o >>= outcome) (sym p)
                    ∙ h)))
                s
          | inr some_tags ↦
              subst IsMaintained
                (ap (λ r. r.1)
                  (some-injective _ _ (
                    ap (λ b. some (if b then (Retracted.absent, e) else appended_to f))
                      (sym some_tags)
                    ∙ ap (λ o. o >>= outcome) (sym p)
                    ∙ h)))
                (record {
                  current = s.current;
                  faithful = append_labeled-IsFaithful e source (removal f) none s.faithful;
                })
        ]
      ]
    where
      removal : Fold → WriteKind
      removal f = WriteKind.remove_many subject predicate (live_tags subject predicate object f)

      appended_to : Fold → Retracted × Engine
      appended_to f =
          let (answer, log) = append source (removal f) e.changelog in
          (Retracted.appended answer, record e { changelog = log })

      outcome : Fold → Option (Retracted × Engine)
      outcome f = some (
          if is_empty (live_tags subject predicate object f)
          then (Retracted.absent, e)
          else appended_to f)

  Step-IsMaintained : {e after : Engine} → Step e after → IsMaintained e → IsMaintained after
  unfolding write_labeled write_batch_labeled
  Step-IsMaintained (wrote {e} source kind label) s = record {
    current = s.current;
    faithful = append_labeled-IsFaithful e source kind label s.faithful;
  }
  Step-IsMaintained (wrote_batch {e} writes) s = record {
    current = s.current;
    faithful = append_batch_labeled-IsFaithful e writes s.faithful;
  }
  Step-IsMaintained (retracted {e} {after} source subject predicate object reply h) s =
      retract_edge-IsMaintained e after source subject predicate object reply h s
  Step-IsMaintained (materialized_tail {e} {after} made) s = record {
    current = (materialize-IsCurrent value_hash e after s.current made).0;
    faithful = materialize-IsFaithful value_hash e after s.faithful made;
  }

  -- An engine that any writes, batches, retractions and materializations reached from an empty
  -- one in memory, without a compaction, has a cached snapshot that is the observation of its
  -- materialized fold; that fold is the fold of the log up to the watermark, and its tail is
  -- within its limit.
  pub Reachable-IsMaintained : {e : Engine} → Reachable e → IsMaintained e
  unfolding Engine.new Ops.new observe extend fold_labeled log_writes unmaterialized
  Reachable-IsMaintained (fresh n_max) = record {
    current = refl;
    faithful = record {
      starts = refl;
      in_bounds = omega arith;
      known = refl;
      backlog = omega arith;
      base_folds = refl;
    };
  }
  Reachable-IsMaintained (stepped r step) = Step-IsMaintained step (Reachable-IsMaintained r)

  -- A read of an engine that any operations reached from an empty one in memory gives the
  -- observation of the replay of its whole log, or panics where that replay does.
  pub snapshot-replay :
      {e : Engine}
      → Reachable e
      → snapshot value_hash e ≡ (replay e.changelog >>= λ f. some (observe value_hash f))
  unfolding snapshot
  snapshot-replay {e} r =
      ap (λ o. o >>= λ f. some (observe value_hash f))
        (effective_fold-replay e (Reachable-IsMaintained r).faithful)
