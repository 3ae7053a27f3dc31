-- ===== src/Base/Order.antt =====
-- Rust's `Ord`: a comparison with its laws, for the types that key the maps of the program.
use Prim.Native.Nat.{ℕ, compare, Ordering}
use Prim.Native.Nat.Ordering.{lt, eq, gt}
use mathlib.Core.Path.{◌≡◌, refl}
use mathlib.Core.Logic.{◌≢◌}
use mathlib.Core.Bool.{Bool, true, false}
use mathlib.Core.Option.{Option, none, some}
use mathlib.Core.List.{List, [], ◌∷◌}
use native.Mathlib.Omega.{arith}
use stromadb.Base.Tests.{if◌then◌else◌}
use stromadb.Base.Int.{ℤ, compareℤ, eq_of_parts}

abbrev pub flip : Ordering → Ordering
flip lt = gt
flip eq = eq
flip gt = lt

-- The second comparison decides where the first says `eq`.
abbrev pub followed_by : Ordering → Ordering → Ordering
followed_by lt o = lt
followed_by eq o = o
followed_by gt o = gt

-- `gt` is `lt` the other way round, by `flipped`.
pub record IsTotalOrder {ℓ} {Key : Type ℓ} (order : Key → Key → Ordering) : Type ℓ where
  pub flipped : (x y : Key) → order y x ≡ flip (order x y)
  pub chained : (x y z : Key) → order x y ≡ lt → order y z ≡ lt → order x z ≡ lt
  pub equal : (x y : Key) → order x y ≡ eq → x ≡ y
  pub same : (x : Key) → order x x ≡ eq

pub record Ord {ℓ} (K : Type ℓ) : Type ℓ where
  pub cmp : K → K → Ordering
  pub laws : IsTotalOrder cmp
  pub open laws use *

module _ {ℓ} {K : Type ℓ} ⦃o : Ord K⦄ where
  abbrev pub is_lt : K → K → Bool
  is_lt a b = elim (o.cmp a b) [ lt ↦ true | _ ↦ false ]

  abbrev pub is_eq : K → K → Bool
  is_eq a b = elim (o.cmp a b) [ eq ↦ true | _ ↦ false ]

  pub is_eq_refl : (a : K) → is_eq a a ≡ true
  is_eq_refl a = ground (arith, o.same a)

  pub is_eq→eq : (a b : K) → is_eq a b ≡ true → a ≡ b
  is_eq→eq a b h = ground (arith, o.equal a b)

  pub is_eq_ne : (a b : K) → a ≢ b → is_eq a b ≡ false
  is_eq_ne a b n = ground (arith, o.equal a b)

-- The greater of two keys, and the newer of two registers: the older stays on a tie.
module _ {ℓ} {K : Type ℓ} ⦃o : Ord K⦄ where
  abbrev pub greater : K → K → K
  greater a b = if is_lt b a then a else b

  pub greater_comm : (a b : K) → greater a b ≡ greater b a
  greater_comm a b = ground (arith, o.flipped a b, o.equal a b)

  pub greater_assoc : (a b c : K) → greater (greater a b) c ≡ greater a (greater b c)
  greater_assoc a b c = ground (
    arith,
    o.flipped a b,
    o.flipped b c,
    o.flipped a c,
    o.equal a b,
    o.equal b c,
    o.equal a c,
    o.chained a b c,
    o.chained b a c,
    o.chained c b a,
    o.chained a c b,
    o.chained b c a,
    o.chained c a b,
    o.same a,
  )

  pub greater_self : (a : K) → greater a a ≡ a
  greater_self a = ground (arith, o.same a)

module _ {ℓ κ} {K : Type ℓ} {R : Type κ} ⦃o : Ord K⦄ (key : R → K) where
  abbrev pub newer : R → Option R → R
  newer r none = r
  newer r (some cur) = if is_lt (key cur) (key r) then r else cur

  -- two registers whose keys differ, or that are the same, can be written in either order
  pub newer_comm :
      (r s : R) (c : Option R)
      → (key r ≡ key s → r ≡ s)
      → newer r (some (newer s c)) ≡ newer s (some (newer r c))
  newer_comm r s none h = ground (arith, o.flipped (key r) (key s), o.equal (key r) (key s))
  newer_comm r s (some c) h =
      let a = key r in
      let b = key s in
      let d = key c in
      ground (
        arith,
        o.flipped a b,
        o.flipped b d,
        o.flipped a d,
        o.equal a b,
        o.equal b d,
        o.equal a d,
        o.chained a b d,
        o.chained b a d,
        o.chained d b a,
        o.chained a d b,
        o.chained b d a,
        o.chained d a b,
        o.same a,
      )

  pub newer_again : (r : R) (c : Option R) → newer r (some (newer r c)) ≡ newer r c
  newer_again r none = ground (arith, o.same (key r))
  newer_again r (some c) = ground (arith, o.same (key r))

-- An order pulled back along an injection.
pub by_code-IsTotalOrder {ℓ κ} :
    {A : Type ℓ} {K : Type κ} ⦃o : Ord K⦄ (code : A → K)
    → ((a b : A) → code a ≡ code b → a ≡ b)
    → IsTotalOrder {Key = A} (λ a b. o.cmp (code a) (code b))
by_code-IsTotalOrder ⦃o⦄ code injective = record {
  same = λ a. o.same (code a);
  equal = λ a b h. injective a b (o.equal (code a) (code b) h);
  flipped = λ a b. o.flipped (code a) (code b);
  chained = λ a b c. o.chained (code a) (code b) (code c);
}

pub compare-IsTotalOrder : IsTotalOrder compare
compare-IsTotalOrder = ground arith

instance abbrev pub nat_ord : Ord ℕ
nat_ord = record { cmp = compare; laws = compare-IsTotalOrder }

pub compareℤ-IsTotalOrder : IsTotalOrder compareℤ
compareℤ-IsTotalOrder = record {
  same = λ a. ground arith;
  equal = λ a b h. eq_of_parts a b (ground arith);
  flipped = λ a b. ground arith;
  chained = λ a b c h k. ground arith;
}

instance abbrev pub int_ord : Ord ℤ
int_ord = record { cmp = compareℤ; laws = compareℤ-IsTotalOrder }

module _ {ℓ κ} {A : Type ℓ} {B : Type κ} ⦃a : Ord A⦄ ⦃b : Ord B⦄ where
  abbrev pub cmp_pair : A × B → A × B → Ordering
  cmp_pair x y = followed_by (a.cmp x.0 y.0) (b.cmp x.1 y.1)

  cmp_pair-equal : (x y : A × B) → cmp_pair x y ≡ eq → x ≡ y
  cmp_pair-equal x y h = ground (arith, a.equal x.0 y.0, b.equal x.1 y.1)

  cmp_pair-chained : (x y z : A × B) → cmp_pair x y ≡ lt → cmp_pair y z ≡ lt → cmp_pair x z ≡ lt
  cmp_pair-chained (x, x') (y, y') (z, z') h k =
      ground (arith, a.equal x y, a.equal y z, a.chained x y z, b.chained x' y' z', a.same x)

  pub cmp_pair-IsTotalOrder : IsTotalOrder {Key = A × B} cmp_pair
  cmp_pair-IsTotalOrder = record {
    same = λ x. ground (arith, a.same x.0, b.same x.1);
    equal = cmp_pair-equal;
    flipped = λ x y. ground (arith, a.flipped x.0 y.0, b.flipped x.1 y.1);
    chained = cmp_pair-chained;
  }

  instance abbrev pub pair_ord : Ord (A × B)
  pair_ord = record { cmp = cmp_pair; laws = cmp_pair-IsTotalOrder }

-- Byte strings compare lexicographically.
module _ {ℓ} {A : Type ℓ} ⦃o : Ord A⦄ where
  abbrev pub cmp_list : List A → List A → Ordering
  cmp_list [] [] = eq
  cmp_list [] (y ∷ ys) = lt
  cmp_list (x ∷ xs) [] = gt
  cmp_list (x ∷ xs) (y ∷ ys) = followed_by (o.cmp x y) (cmp_list xs ys)

  cmp_list-same : (xs : List A) → cmp_list xs xs ≡ eq
  cmp_list-same [] = refl
  cmp_list-same (x ∷ xs) = ground (arith, o.same x, cmp_list-same xs)

  cmp_list-equal : (xs ys : List A) → cmp_list xs ys ≡ eq → xs ≡ ys
  cmp_list-equal [] [] h = refl
  cmp_list-equal [] (y ∷ ys) h = cc
  cmp_list-equal (x ∷ xs) [] h = cc
  cmp_list-equal (x ∷ xs) (y ∷ ys) h = ground (arith, o.equal x y, cmp_list-equal xs ys)

  cmp_list-flipped : (xs ys : List A) → cmp_list ys xs ≡ flip (cmp_list xs ys)
  cmp_list-flipped [] [] = refl
  cmp_list-flipped [] (y ∷ ys) = refl
  cmp_list-flipped (x ∷ xs) [] = refl
  cmp_list-flipped (x ∷ xs) (y ∷ ys) = ground (arith, o.flipped x y, cmp_list-flipped xs ys)

  cmp_list-chained :
      (xs ys zs : List A) → cmp_list xs ys ≡ lt → cmp_list ys zs ≡ lt → cmp_list xs zs ≡ lt
  cmp_list-chained [] [] zs h k = k
  cmp_list-chained [] (y ∷ ys) [] h k = cc
  cmp_list-chained [] (y ∷ ys) (z ∷ zs) h k = refl
  cmp_list-chained (x ∷ xs) [] zs h k = cc
  cmp_list-chained (x ∷ xs) (y ∷ ys) [] h k = cc
  cmp_list-chained (x ∷ xs) (y ∷ ys) (z ∷ zs) h k =
      ground (arith, o.equal x y, o.equal y z, o.chained x y z, o.same x, cmp_list-chained xs ys zs)

  pub cmp_list-IsTotalOrder : IsTotalOrder {Key = List A} cmp_list
  cmp_list-IsTotalOrder = record {
    same = cmp_list-same;
    equal = cmp_list-equal;
    flipped = cmp_list-flipped;
    chained = cmp_list-chained;
  }

  instance abbrev pub list_ord : Ord (List A)
  list_ord = record { cmp = cmp_list; laws = cmp_list-IsTotalOrder }
