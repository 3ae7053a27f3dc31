-- ===== src/Ir/Good.antt =====
-- crates/stroma-core/src/ir.rs: the nodes and the scores that flow between the operators.
use Prim.Native.Nat.{compare, Ordering}
use stromadb.Base.{
  ℕ, zero, suc, ◌+◌, ◌≤◌, ◌<◌, ◌≡◌, refl, sym, ap, ◌∙◌, arith, Bool, true, false, not, ◌&&◌, Option,
  some, List, [], ◌∷◌, ◌++◌, inl, inr,
}
use stromadb.Base.Int.{compareℤ}
use stromadb.Base.Tests.{ltb, Bool-cases}
use stromadb.Base.Lists.{length, take, get_elem?, All, All-snoc}
use stromadb.Fact.{NodeId}
use stromadb.Ir.{
  cap, ones_for, has_node, push_new, filter_ok, indices_from, then_cmp, by_score, picked, keep_top,
  filtered,
}
use stromadb.Ir.Float.{F32, is_nan, place, partial_cmp}
use stromadb.Ir.Sort.{sort_by_total}

module _ {A : Type 0} (P : A → Type 0) where
  All-take : (k : ℕ) (xs : List A) → All P xs → All P (take k xs)
  All-take zero xs a = tt
  All-take (suc k) [] a = tt
  All-take (suc k) (x ∷ xs) a = (a.0, All-take k xs a.1)

module _ {A : Type 0} {P : A → Type 0} where
  -- An index in range finds an element.
  get_elem?_total :
      (xs : List A) (i : ℕ) → All P xs → i < length xs → (x : A) × (get_elem? xs i ≡ some x) × P x
  get_elem?_total [] i a h = absurd (omega (arith, h))
  get_elem?_total (x ∷ xs) zero a h = (x, refl, a.0)
  get_elem?_total (x ∷ xs) (suc i) a h = get_elem?_total xs i a.1 (omega (arith, h))

  picked_total :
      (xs : List A) (is : List ℕ)
      → All P xs
      → All (λ i. i < length xs) is
      → (ys : List A) × (picked xs is ≡ some ys) × All P ys × (length ys ≡ length is)
  picked_total xs [] a r = ([], refl, tt, refl)
  picked_total xs (i ∷ is) a r =
      let (x, e, p) = get_elem?_total xs i a r.0 in
      let (ys, f, q, l) = picked_total xs is a r.1 in (x ∷ ys, rw (e, f) refl, (p, q), ap suc l)

module _ {A B : Type 0} where
  length-take_same :
      (k : ℕ) (xs : List A) (ys : List B)
      → length xs ≡ length ys
      → length (take k xs) ≡ length (take k ys)
  length-take_same zero xs ys e = refl
  length-take_same (suc k) [] [] e = refl
  length-take_same (suc k) [] (y ∷ ys) e = absurd (omega (arith, e))
  length-take_same (suc k) (x ∷ xs) [] e = absurd (omega (arith, e))
  length-take_same (suc k) (x ∷ xs) (y ∷ ys) e =
      ap suc (length-take_same k xs ys (omega (arith, e)))

length-take_le : {A : Type 0} (k : ℕ) (xs : List A) → length (take k xs) ≤ k
length-take_le zero xs = omega arith
length-take_le (suc k) [] = omega arith
length-take_le (suc k) (x ∷ xs) = omega (arith, length-take_le k xs)

-- The nodes are seen, and each has a score that is a number.
pub record IsGood (seen : NodeId → Bool) (out : List NodeId × List F32) : Type 0 where
  pub parallel : length out.1 ≡ length out.0
  pub nodes : All (λ n. seen n ≡ true) out.0
  pub numbers : All (λ s. is_nan s ≡ false) out.1

module _ (seen : NodeId → Bool) where
  taken-IsGood :
      (k : ℕ) (out : List NodeId × List F32)
      → IsGood seen out
      → IsGood seen (take k out.0, take k out.1)
  taken-IsGood k out h = record {
    parallel = length-take_same k out.1 out.0 h.parallel;
    nodes = All-take _ k out.0 h.nodes;
    numbers = All-take _ k out.1 h.numbers;
  }

  pub cap-IsGood :
      (max_nodes : ℕ) (out : List NodeId × List F32)
      → IsGood seen out
      → IsGood seen (cap max_nodes out) × (length (cap max_nodes out).0 ≤ max_nodes)
  cap-IsGood max_nodes out h = elim (Bool-cases (ltb max_nodes (length out.0))) [
    | inl e ↦ rw e (taken-IsGood max_nodes out h, length-take_le max_nodes out.0)
    | inr e ↦ rw e (h, ground (arith, e))
  ]

  length-ones_for : (ns : List NodeId) → length (ones_for ns) ≡ length ns
  length-ones_for [] = refl
  length-ones_for (n ∷ ns) = ap suc (length-ones_for ns)

  ones_for-numbers : (ns : List NodeId) → All (λ s. is_nan s ≡ false) (ones_for ns)
  unfolding is_nan
  ones_for-numbers [] = tt
  ones_for-numbers (n ∷ ns) = (refl, ones_for-numbers ns)

  -- Seen nodes, each with the score 1.
  pub ones_for-IsGood :
      (ns : List NodeId) → All (λ n. seen n ≡ true) ns → IsGood seen (ns, ones_for ns)
  ones_for-IsGood ns a = record {
    parallel = length-ones_for ns;
    nodes = a;
    numbers = ones_for-numbers ns;
  }

  pub filtered-IsGood :
      (keep : NodeId → Bool) (ids : List NodeId) (scores : List F32)
      → IsGood seen (ids, scores)
      → (out : List NodeId × List F32) × (filtered keep ids scores ≡ some out) × IsGood seen out
  filtered-IsGood keep [] scores h =
      (([], []), refl, record { parallel = refl; nodes = tt; numbers = tt })
  filtered-IsGood keep (n ∷ ns) [] h = absurd (omega (arith, h.parallel))
  filtered-IsGood keep (n ∷ ns) (s ∷ ss) h =
      let (rest, e, g) = filtered-IsGood keep ns ss (record {
        parallel = omega (arith, h.parallel);
        nodes = h.nodes.1;
        numbers = h.numbers.1;
      }) in
      elim (Bool-cases (keep n)) [
        | inl k ↦ (
          (n ∷ rest.0, s ∷ rest.1),
          rw (e, k) refl,
          record {
            parallel = ap suc g.parallel;
            nodes = (h.nodes.0, g.nodes);
            numbers = (h.numbers.0, g.numbers);
          },
        )
        | inr k ↦ (rest, rw (e, k) refl, g)
      ]

  indices_from_lt :
      (i : ℕ) (ns : List NodeId) (m : ℕ) → i + length ns ≤ m → All (λ j. j < m) (indices_from i ns)
  indices_from_lt i [] m h = tt
  indices_from_lt i (n ∷ ns) m h =
      (omega (arith, h), indices_from_lt (i + 1) ns m (omega (arith, h)))

  partial_cmp_total :
      (a b : F32)
      → is_nan a ≡ false
      → is_nan b ≡ false
      → (o : Ordering) × (partial_cmp a b ≡ some o)
  unfolding partial_cmp
  partial_cmp_total a b p q = (compareℤ (place a) (place b), rw (p, q) refl)

  by_score_total :
      (ids : List NodeId) (scores : List F32)
      → IsGood seen (ids, scores)
      → (a b : ℕ) → a < length ids
      → b < length ids
      → (o : Ordering) × (by_score ids scores a b ≡ some o)
  unfolding by_score
  by_score_total ids scores h a b la lb =
      let (sa, ea, na) = get_elem?_total scores a h.numbers (omega (arith, la, h.parallel)) in
      let (sb, eb, nb) = get_elem?_total scores b h.numbers (omega (arith, lb, h.parallel)) in
      let (ia, fa, va) = get_elem?_total ids a h.nodes la in
      let (ib, fb, vb) = get_elem?_total ids b h.nodes lb in
      let (o, c) = partial_cmp_total sb sa nb na in
      (then_cmp o (compare ia ib), rw (ea, eb, c, fa, fb) refl)

  pub keep_top-IsGood :
      (k : ℕ) (ids : List NodeId) (scores : List F32)
      → IsGood seen (ids, scores)
      → (out : List NodeId × List F32) × (keep_top k ids scores ≡ some out) × IsGood seen out
  unfolding keep_top
  keep_top-IsGood k ids scores h =
      let (order, e, r, l) =
        sort_by_total (by_score ids scores) {P = λ i. i < length ids}
          (λ a b la lb. by_score_total ids scores h a b la lb) (indices_from 0 ids)
          (indices_from_lt 0 ids (length ids) (omega arith)) in
      let top = All-take _ k order r in
      let (ni, f, p, m) = picked_total ids (take k order) h.nodes top in
      let (ns, g, q, n) = picked_total scores (take k order) h.numbers (rw h.parallel top) in
      ((ni, ns), rw (e, f, g) refl, record { parallel = n ∙ sym m; nodes = p; numbers = q })

-- The tests of the nodes do not panic and are those of `pass`.
module _ (seen : NodeId → Option Bool) (pass : NodeId → Bool)
    (total : (n : NodeId) → seen n ≡ some (pass n)) where
  pub filter_ok_total :
      (ns : List NodeId)
      → (out : List NodeId) × (filter_ok seen ns ≡ some out) × All (λ n. pass n ≡ true) out
  filter_ok_total [] = ([], refl, tt)
  filter_ok_total (n ∷ ns) =
      let (rest, e, a) = filter_ok_total ns in
      elim (Bool-cases (pass n)) [
        | inl p ↦ (n ∷ rest, rw (total n, e, p) refl, (p, a))
        | inr p ↦ (rest, rw (total n, e, p) refl, a)
      ]

  pub push_new_total :
      (ns next : List NodeId)
      → All (λ n. pass n ≡ true) next
      → (out : List NodeId) × (push_new seen ns next ≡ some out) × All (λ n. pass n ≡ true) out
  push_new_total [] next a = (next, refl, a)
  push_new_total (n ∷ ns) next a = elim (Bool-cases (pass n && not (has_node next n))) [
    | inl e ↦
        let (out, f, b) =
          push_new_total ns (next ++ n ∷ []) (All-snoc _ next n a (ground (arith, e))) in
        (out, rw (total n, e) f, b)
    | inr e ↦ let (out, f, b) = push_new_total ns next a in (out, rw (total n, e) f, b)
  ]
