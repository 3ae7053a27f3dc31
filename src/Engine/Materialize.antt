-- ===== src/Engine/Materialize.antt =====
-- crates/stroma-core/src/engine.rs, `materialize` and `snapshot`: the cached snapshot is the
-- observation of the materialized fold, and a merged read is a read after a materialize.
use mathlib.Core.Option.{some-injective}
use mathlib.Core.Path.{subst}
use stromadb.Base.{ℕ, ◌+◌, ◌≡◌, refl, sym, ap, ◌∙◌, arith, none, some, List, [], ◌∷◌, inl, inr}
use stromadb.Base.Tests.{◌>>=◌, map_option, Option-cases}
use stromadb.Base.Lists.{length, drop}
use stromadb.Base.Map.{BTreeSet, keys}
use stromadb.Fact.{NodeId}
use stromadb.Fold.Keys.{ObjKey}
use stromadb.Fold.State.{Key, Fold}
use stromadb.Fold.Apply.{fold_labeled_from}
use stromadb.Fold.Observe.{Snapshot, observe_keys_into}
use stromadb.Fold.Gc.{observe, observe_nodes_into}
use stromadb.Fold.Refresh.Observed.{refreshed, refreshed-observe}
use stromadb.Changelog.Ops.{
  Changelog, Tracked, replay_range_into, replay_range_into_tracked, mark_materialized, head,
}
use stromadb.Changelog.Replay.{log_writes, range_from}
use stromadb.Engine.{
  Engine, refresh, materialize_tracked_with_nodes, materialize_tracked, materialize, effective_fold,
  snapshot, snapshot_arc, unmerged,
}
use stromadb.Engine.Tail.{tracked-SameAt, tracked-node_attrs}

-- The fold of a range that is past the end of the log is the fold it began with.
drop_all : (c : Changelog) → drop (length c.records) c.records ≡ []
drop_all c = drop-length c.records
  where
    drop-length : {A : Type 0} (xs : List A) → drop (length xs) xs ≡ []
    drop-length [] = refl
    drop-length (x ∷ xs) = drop-length xs

pub replay_range_into-head : (c : Changelog) (f : Fold) → replay_range_into (head c) c f ≡ some f
unfolding head fold_labeled_from log_writes
replay_range_into-head c f =
    range_from (length c.records) (head c) c f (omega arith)
    ∙ ap (λ rs. fold_labeled_from f (log_writes (c.base + length c.records) rs)) (drop_all c)

module _ (value_hash : ObjKey → ℕ) where
  refresh-refreshed :
      (f : Fold) (ks : BTreeSet Key) (ns : BTreeSet NodeId) (s : Snapshot)
      → refresh value_hash f ks ns s ≡ refreshed value_hash f (keys ks) (keys ns) s
  unfolding observe_nodes_into observe_keys_into
  refresh-refreshed f [] [] s = refl
  refresh-refreshed f [] (n ∷ ns) s = refl
  refresh-refreshed f (k ∷ ks) ns s = refl

  -- The cached snapshot is the observation of the materialized fold.
  abbrev pub IsCurrent : Engine → Type 0
  IsCurrent e = e.base_snap ≡ observe value_hash e.base

  refresh-observe :
      (from : ℕ) (c : Changelog) (f : Fold) (t : Tracked) (s : Snapshot)
      → replay_range_into_tracked from c f ≡ some t
      → s ≡ observe value_hash f
      → refresh value_hash t.folded t.keys t.nodes s ≡ observe value_hash t.folded
  refresh-observe from c f t s e h =
      ap (refresh value_hash t.folded t.keys t.nodes) h
      ∙ refresh-refreshed t.folded t.keys t.nodes (observe value_hash f)
      ∙ refreshed-observe value_hash f t.folded (keys t.keys) (keys t.nodes)
          (λ k. tracked-SameAt from c f t k e) (λ n. tracked-node_attrs from c f t n e)

  -- The engine after a tail is materialized, and the merged fold before it.
  pub materialized :
      (e : Engine) (t : Tracked)
      → replay_range_into_tracked e.watermark e.changelog e.base ≡ some t
      → (materialize value_hash e
          ≡ some (record {
            changelog = mark_materialized (head e.changelog) e.changelog;
            base = t.folded;
            base_snap = refresh value_hash t.folded t.keys t.nodes e.base_snap;
            watermark = head e.changelog;
          }))
        × (effective_fold e ≡ some t.folded)
  unfolding materialize materialize_tracked materialize_tracked_with_nodes effective_fold
      replay_range_into
  materialized e t h = (rw h refl, rw h refl)

  pub panicked :
      (e : Engine)
      → replay_range_into_tracked e.watermark e.changelog e.base ≡ none
      → (materialize value_hash e ≡ none) × (effective_fold e ≡ none)
  unfolding materialize materialize_tracked materialize_tracked_with_nodes effective_fold
      replay_range_into
  panicked e h = (rw h refl, rw h refl)

  -- A merged read of an engine whose cached snapshot is current gives what the cached snapshot is
  -- after the tail is materialized; the one panics if and only if the other does.
  pub snapshot-materialize :
      (e : Engine)
      → IsCurrent e
      → snapshot value_hash e ≡ map_option snapshot_arc (materialize value_hash e)
  unfolding snapshot
  snapshot-materialize e h =
      elim (Option-cases (replay_range_into_tracked e.watermark e.changelog e.base)) [
        | inl p ↦ let (m, f) = panicked e p in rw (m, f) refl
        | inr (t, p) ↦
            let (m, f) = materialized e t p in
            rw (m, f)
              (ap some (sym (refresh-observe e.watermark e.changelog e.base t e.base_snap p h)))
      ]

  -- After a materialize of an engine whose cached snapshot is current, the cached snapshot is
  -- current, no record is left unmerged, and a merged read gives the cached snapshot.
  pub materialize-IsCurrent :
      (e after : Engine)
      → IsCurrent e
      → materialize value_hash e ≡ some after
      → IsCurrent after
        × (unmerged after ≡ 0)
        × (snapshot value_hash after ≡ some (snapshot_arc after))
  unfolding snapshot effective_fold mark_materialized unmerged head
  materialize-IsCurrent e after h made =
      elim (Option-cases (replay_range_into_tracked e.watermark e.changelog e.base)) [
        | inl p ↦ absurd (cc (made, (panicked e p).0))
        | inr (t, p) ↦ subst P (some-injective _ _ (sym (materialized e t p).0 ∙ made)) (at t p)
      ]
    where
      P : Engine → Type 0
      P a = IsCurrent a × (unmerged a ≡ 0) × (snapshot value_hash a ≡ some (snapshot_arc a))

      at :
          (t : Tracked)
          → replay_range_into_tracked e.watermark e.changelog e.base ≡ some t
          → P (record {
            changelog = mark_materialized (head e.changelog) e.changelog;
            base = t.folded;
            base_snap = refresh value_hash t.folded t.keys t.nodes e.base_snap;
            watermark = head e.changelog;
          })
      at t p =
          let current = refresh-observe e.watermark e.changelog e.base t e.base_snap p h in
          (
            current,
            omega arith,
            ap (λ o. o >>= λ f. some (observe value_hash f))
                  (replay_range_into-head (mark_materialized (head e.changelog) e.changelog)
                    t.folded)
                ∙ ap some (sym current),
          )
