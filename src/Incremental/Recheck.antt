-- ===== src/Incremental/Recheck.antt =====
-- crates/stroma-core/src/incremental.rs: what a check of candidates does to the gap set and the
-- difference.
use stromadb.Base.{
  ◌≡◌, refl, sym, ap, ◌∙◌, arith, Bool, true, false, not, ◌&&◌, ◌||◌, List, [], ◌∷◌,
}
use stromadb.Base.Tests.{if◌then◌else◌}
use stromadb.Base.Map.{BTreeSet, contains, get-insert}
use stromadb.Base.Map.Sorted.{IsSorted, insert-IsSorted}
use stromadb.Base.Map.Entries.{elem, get-remove, remove-IsSorted}
use stromadb.Base.Order.{nat_ord, pair_ord, is_eq, is_eq_refl, is_eq→eq}
use stromadb.Fact.{NodeId}
use stromadb.Live.{Diff}
use stromadb.Incremental.{flipped, recheck}

-- The sets are in order.
pub record Ordered (out : BTreeSet NodeId × Diff) : Type 0 where
  pub gaps : IsSorted out.0
  pub added : IsSorted out.1.added
  pub removed : IsSorted out.1.removed

flipped-Ordered :
    (c : NodeId) (now was : Bool) (out : BTreeSet NodeId × Diff)
    → Ordered out
    → Ordered (flipped c now was out)
flipped-Ordered c true false (gaps, diff) h = record {
  gaps = insert-IsSorted c tt gaps h.gaps;
  added = insert-IsSorted c tt diff.added h.added;
  removed = h.removed;
}
flipped-Ordered c false true (gaps, diff) h = record {
  gaps = remove-IsSorted c gaps h.gaps;
  added = h.added;
  removed = insert-IsSorted c tt diff.removed h.removed;
}
flipped-Ordered c true true (gaps, diff) h = h
flipped-Ordered c false false (gaps, diff) h = h

pub recheck-Ordered :
    (now : NodeId → Bool) (cs : List NodeId) (out : BTreeSet NodeId × Diff)
    → Ordered out
    → Ordered (recheck now cs out)
recheck-Ordered now [] out h = h
recheck-Ordered now (c ∷ cs) out h =
    recheck-Ordered now cs (flipped c (now c) (contains c out.0) out)
      (flipped-Ordered c (now c) (contains c out.0) out h)

-- What a check of one subject does to each of the sets, read at a subject.
flipped-gaps :
    (c n : NodeId) (now was : Bool) (out : BTreeSet NodeId × Diff)
    → IsSorted out.0
    → contains c out.0 ≡ was
    → contains n (flipped c now was out).0 ≡ (if is_eq n c then now else contains n out.0)
flipped-gaps c n true false (gaps, diff) s e =
    ground (arith, get-insert n c tt gaps, is_eq→eq n c, is_eq_refl n)
flipped-gaps c n false true (gaps, diff) s e =
    ground (arith, get-remove n c gaps s, is_eq→eq n c, is_eq_refl n)
flipped-gaps c n true true (gaps, diff) s e = ground (arith, e, is_eq→eq n c)
flipped-gaps c n false false (gaps, diff) s e = ground (arith, e, is_eq→eq n c)

flipped-added :
    (c n : NodeId) (now was : Bool) (out : BTreeSet NodeId × Diff)
    → contains n (flipped c now was out).1.added
      ≡ (contains n out.1.added || (is_eq n c && (now && not was)))
flipped-added c n true false (gaps, diff) = ground (arith, get-insert n c tt diff.added)
flipped-added c n false true (gaps, diff) = ground arith
flipped-added c n true true (gaps, diff) = ground arith
flipped-added c n false false (gaps, diff) = ground arith

flipped-removed :
    (c n : NodeId) (now was : Bool) (out : BTreeSet NodeId × Diff)
    → contains n (flipped c now was out).1.removed
      ≡ (contains n out.1.removed || (is_eq n c && (was && not now)))
flipped-removed c n true false (gaps, diff) = ground arith
flipped-removed c n false true (gaps, diff) = ground (arith, get-insert n c tt diff.removed)
flipped-removed c n true true (gaps, diff) = ground arith
flipped-removed c n false false (gaps, diff) = ground arith

-- The three steps on the bits of one subject: `now_c` and `now_n` are what holds of the candidate and
-- of the subject, `in_c` and `in_n` whether they are gaps, `rest` whether it is a candidate after.
module _ (same rest now_c now_n in_c in_n : Bool) (n1 : same ≡ true → now_c ≡ now_n)
    (n2 : same ≡ true → in_c ≡ in_n) where
  gap_bits :
      (if rest then now_n else (if same then now_c else in_n))
      ≡ (if (if same then true else rest) then now_n else in_n)
  gap_bits = ground (arith, n1)

  added_bits :
      (a : Bool)
      → ((a || (same && (now_c && not in_c)))
          || (rest && (now_n && not (if same then now_c else in_n))))
        ≡ (a || ((if same then true else rest) && (now_n && not in_n)))
  added_bits a = ground (arith, n1, n2)

  removed_bits :
      (a : Bool)
      → ((a || (same && (in_c && not now_c)))
          || (rest && ((if same then now_c else in_n) && not now_n)))
        ≡ (a || ((if same then true else rest) && (in_n && not now_n)))
  removed_bits a = ground (arith, n1, n2)

module _ (now : NodeId → Bool) where
  -- The output after a check of the first candidate.
  abbrev checked : NodeId → BTreeSet NodeId × Diff → BTreeSet NodeId × Diff
  checked c out = flipped c (now c) (contains c out.0) out

  pub recheck-gaps :
      (cs : List NodeId) (n : NodeId) (out : BTreeSet NodeId × Diff)
      → Ordered out
      → contains n (recheck now cs out).0 ≡ (if elem n cs then now n else contains n out.0)
  recheck-gaps [] n out h = refl
  recheck-gaps (c ∷ cs) n out h =
      let one = flipped-gaps c n (now c) (contains c out.0) out h.gaps refl in
      let rest =
        recheck-gaps cs n (checked c out) (flipped-Ordered c (now c) (contains c out.0) out h) in
      rest
      ∙ ap (λ b. if elem n cs then now n else b) one
      ∙ gap_bits (is_eq n c) (elem n cs) (now c) (now n) (contains c out.0) (contains n out.0)
          (λ e. sym (ap now (is_eq→eq n c e)))
          (λ e. sym (ap (λ x. contains x out.0) (is_eq→eq n c e)))

  pub recheck-added :
      (cs : List NodeId) (n : NodeId) (out : BTreeSet NodeId × Diff)
      → Ordered out
      → contains n (recheck now cs out).1.added
        ≡ (contains n out.1.added || (elem n cs && (now n && not (contains n out.0))))
  recheck-added [] n out h = ground arith
  recheck-added (c ∷ cs) n out h =
      let gap = flipped-gaps c n (now c) (contains c out.0) out h.gaps refl in
      let one = flipped-added c n (now c) (contains c out.0) out in
      recheck-added cs n (checked c out) (flipped-Ordered c (now c) (contains c out.0) out h)
      ∙ (λ i. one i || (elem n cs && (now n && not (gap i))))
      ∙ added_bits (is_eq n c) (elem n cs) (now c) (now n) (contains c out.0) (contains n out.0)
          (λ e. sym (ap now (is_eq→eq n c e)))
          (λ e. sym (ap (λ x. contains x out.0) (is_eq→eq n c e))) (contains n out.1.added)

  pub recheck-removed :
      (cs : List NodeId) (n : NodeId) (out : BTreeSet NodeId × Diff)
      → Ordered out
      → contains n (recheck now cs out).1.removed
        ≡ (contains n out.1.removed || (elem n cs && (contains n out.0 && not (now n))))
  recheck-removed [] n out h = ground arith
  recheck-removed (c ∷ cs) n out h =
      let gap = flipped-gaps c n (now c) (contains c out.0) out h.gaps refl in
      let one = flipped-removed c n (now c) (contains c out.0) out in
      recheck-removed cs n (checked c out) (flipped-Ordered c (now c) (contains c out.0) out h)
      ∙ (λ i. one i || (elem n cs && (gap i && not (now n))))
      ∙ removed_bits (is_eq n c) (elem n cs) (now c) (now n) (contains c out.0) (contains n out.0)
          (λ e. sym (ap now (is_eq→eq n c e)))
          (λ e. sym (ap (λ x. contains x out.0) (is_eq→eq n c e))) (contains n out.1.removed)
