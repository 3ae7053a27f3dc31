-- ===== src/Incremental/Recompute.antt =====
-- crates/stroma-core/src/incremental.rs against a recomputation as in crates/stroma-core/src/live.rs.
use mathlib.Core.Path.{subst}
use stromadb.Base.{
  ◌≡◌, ◌⊎◌, sym, ap, ◌∙◌, arith, true, false, not, ◌&&◌, ◌||◌, List, [], ◌∷◌, inl, inr,
}
use stromadb.Base.Tests.{if◌then◌else◌, Bool-cases}
use stromadb.Base.Map.{BTreeSet, get, keys, contains, extend}
use stromadb.Base.Map.Sorted.{IsSorted}
use stromadb.Base.Map.Entries.{elem, elem-keys, contains-extend}
use stromadb.Base.Order.{nat_ord, pair_ord, is_eq, is_eq→eq}
use stromadb.Fact.{NodeId}
use stromadb.Fold.State.{Key}
use stromadb.Fold.Observe.{Snapshot}
use stromadb.Live.{Diff, between, difference}
use stromadb.Live.Differences.{set_ext, contains-difference, retain-IsSorted}
use stromadb.Incremental.{CompletenessRule, new_maintained, gathered, recheck, apply_touched}
use stromadb.Incremental.Recheck.{
  Ordered, recheck-Ordered, recheck-gaps, recheck-added, recheck-removed,
}

-- The full evaluation of a rule lists the subjects that hold, in order.
pub record IsSeeded (rule : CompletenessRule) (s : Snapshot) : Type 0 where
  pub ordered : IsSorted (rule.seed s)
  pub seeded : (n : NodeId) → contains n (rule.seed s) ≡ rule.holds s n

-- The candidates of the touched keys hold every subject that flips.
abbrev pub Covers : CompletenessRule → (old new : Snapshot) → BTreeSet Key → Type 0
Covers rule old new touched =
    (n : NodeId)
    → (rule.holds old n ≡ rule.holds new n)
      ⊎ ((k : Key) × (contains k touched ≡ true) × (elem n (rule.candidates new k) ≡ true))

-- The gathered candidates are those of a touched key.
gathered_mono :
    (rule : CompletenessRule) (snap : Snapshot) (ks : List Key) (n : NodeId) (out : BTreeSet NodeId)
    → contains n out ≡ true
    → contains n (gathered rule snap ks out) ≡ true
gathered_mono rule snap [] n out h = h
gathered_mono rule snap (k ∷ ks) n out h =
    gathered_mono rule snap ks n (extend (rule.candidates snap k) out)
      (ground (arith, contains-extend n (rule.candidates snap k) out))

gathered-elem :
    (rule : CompletenessRule) (snap : Snapshot) (k : Key) (ks : List Key) (n : NodeId)
    (out : BTreeSet NodeId)
    → elem k ks ≡ true
    → elem n (rule.candidates snap k) ≡ true
    → contains n (gathered rule snap ks out) ≡ true
gathered-elem rule snap k [] n out h e = absurd (cc h)
gathered-elem rule snap k (j ∷ ks) n out h e = elim (Bool-cases (is_eq k j)) [
  | inl s ↦ gathered_mono rule snap ks n (extend (rule.candidates snap j) out) (
      contains-extend n (rule.candidates snap j) out
      ∙ ap (λ b. b || contains n out)
          (subst (λ x. elem n (rule.candidates snap x) ≡ true) (is_eq→eq k j s) e))
  | inr s ↦
      gathered-elem rule snap k ks n (extend (rule.candidates snap j) out)
        (sym (ap (λ b. if b then true else elem k ks) s) ∙ h) e
]

module _ (rule : CompletenessRule) (old new : Snapshot) (touched : BTreeSet Key)
    (was : IsSeeded rule old) (is : IsSeeded rule new) (covers : Covers rule old new touched) where
  abbrev candidates : BTreeSet NodeId
  candidates = gathered rule new (keys touched) []

  abbrev rechecked : BTreeSet NodeId × Diff
  rechecked =
      recheck (rule.holds new) (keys candidates)
        (rule.seed old, record { added = []; removed = [] })

  rechecked-Ordered : Ordered rechecked
  rechecked-Ordered =
      recheck-Ordered (rule.holds new) (keys candidates) _
        (record { gaps = was.ordered; added = tt; removed = tt })

  -- A subject that is not a candidate does not flip.
  kept :
      (n : NodeId)
      → elem n (keys candidates) ≡ false
      → contains n (rule.seed old) ≡ rule.holds new n
  kept n h = elim (covers n) [
    | inl e ↦ was.seeded n ∙ e
    | inr (k, t, e) ↦ absurd (
        cc (
          h,
          elem-keys n candidates
              ∙ gathered-elem rule new k (keys touched) n [] (elem-keys k touched ∙ t) e,
        ))
  ]

  gaps_lem : rechecked.0 ≡ rule.seed new
  gaps_lem = set_ext rechecked.0 (rule.seed new) rechecked-Ordered.gaps is.ordered (λ n.
      recheck-gaps (rule.holds new) (keys candidates) n _
        (record { gaps = was.ordered; added = tt; removed = tt })
      ∙ ground (arith, kept n)
      ∙ sym (is.seeded n))

  added_lem : rechecked.1.added ≡ difference (rule.seed new) (rule.seed old)
  added_lem =
      set_ext rechecked.1.added _ rechecked-Ordered.added
        (unfold difference in
          retain-IsSorted (λ n. not (contains n (rule.seed old))) (rule.seed new) is.ordered)
        (λ n.
          recheck-added (rule.holds new) (keys candidates) n _
            (record { gaps = was.ordered; added = tt; removed = tt })
          ∙ unfold get in
            ground (arith, kept n)
            ∙ (λ i. sym (is.seeded n) i && not (contains n (rule.seed old)))
            ∙ sym (contains-difference n (rule.seed new) (rule.seed old)))

  removed_lem : rechecked.1.removed ≡ difference (rule.seed old) (rule.seed new)
  removed_lem =
      set_ext rechecked.1.removed _ rechecked-Ordered.removed
        (unfold difference in
          retain-IsSorted (λ n. not (contains n (rule.seed new))) (rule.seed old) was.ordered)
        (λ n.
          recheck-removed (rule.holds new) (keys candidates) n _
            (record { gaps = was.ordered; added = tt; removed = tt })
          ∙ unfold get in
            ground (arith, kept n)
            ∙ (λ i. contains n (rule.seed old) && not (sym (is.seeded n) i))
            ∙ sym (contains-difference n (rule.seed old) (rule.seed new)))

-- Where the full evaluation of a rule lists in order the subjects that hold, before a change and after
-- it, and the candidates of the touched keys hold every subject that flips, an apply leaves a new
-- maintained rule on the new snapshot, and returns the difference that a recomputation gives.
pub apply_touched-recomputed :
    (rule : CompletenessRule) (old new : Snapshot) (touched : BTreeSet Key)
    → IsSeeded rule old
    → IsSeeded rule new
    → Covers rule old new touched
    → let (m, diff) = apply_touched (new_maintained rule old) new touched in
      (m ≡ new_maintained rule new) × (diff ≡ between (rule.seed old) (rule.seed new))
unfolding new_maintained apply_touched between
apply_touched-recomputed rule old new touched was is covers = (
  λ i. record { rule = rule; gaps = gaps_lem rule old new touched was is covers i },
  λ i. record {
    added = added_lem rule old new touched was is covers i;
    removed = removed_lem rule old new touched was is covers i;
  },
)
