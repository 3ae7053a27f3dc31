-- ===== src/Mask/Seen.antt =====
-- crates/stroma-core/src/mask.rs, `Masked::affected`: a key that a mask does not affect has no hidden
-- row, so a read of it is a read of its visible rows all the same.
use stromadb.Base.{
  ◌+◌, ◌≡◌, refl, ap, ◌∙◌, arith, Bool, true, false, not, ◌||◌, some, List, [], ◌∷◌, inl, inr, ◌⊎◌,
}
use stromadb.Base.Tests.{◌>>=◌, is_some, Bool-cases, Option-cases}
use stromadb.Base.Lists.{any}
use stromadb.Base.Map.{BTreeMap, get, insert, keys, values, get_or, get-insert, get-insert_self}
use stromadb.Base.Order.{Ord, nat_ord, list_ord, pair_ord}
use stromadb.Fold.Keys.{OrderKey, obj_ord, order_ord}
use stromadb.Fold.State.{Key, Label}
use stromadb.Fold.Observe.{Snapshot, add_counts}
use stromadb.Fold.Refresh.Counts.{Counts, Labeled, counts_of}
use stromadb.Mask.{
  FactMask, Masked, floor, label_allowed, label_visible, row_visible, predicate_hidden, hides_any,
  key_affected, affected,
}

module _ {ℓ κ} {K : Type ℓ} {V : Type κ} ⦃o : Ord K⦄ where
  any-values :
      (p : V → Bool) (k : K) (v : V) (m : BTreeMap K V)
      → any p (values m) ≡ false
      → get k m ≡ some v
      → p v ≡ false
  unfolding get
  any-values p k v [] h e = cc
  any-values p k v ((j, w) ∷ m) h e = ground (arith, any-values p k v m)

  any-keys :
      (p : K → Bool) (k : K) (m : BTreeMap K V)
      → any p (keys m) ≡ false
      → is_some (get k m) ≡ true
      → p k ≡ false
  unfolding get
  any-keys p k [] h e = cc
  any-keys p k ((j, w) ∷ m) h e = ground (arith, any-keys p k m, o.equal k j)

or_false : (a b : Bool) → (a || b) ≡ false → (a ≡ false) × (b ≡ false)
or_false true b h = cc
or_false false b h = (refl, h)

add_counts-kept :
    (ls : List Label) (l : Label) (c : Counts)
    → is_some (get l c) ≡ true
    → is_some (get l (add_counts ls c)) ≡ true
unfolding add_counts
add_counts-kept [] l c h = h
add_counts-kept (m ∷ ls) l c h =
    add_counts-kept ls l (insert m (get_or 0 m c + 1) c)
      (ground (arith, get-insert l m (get_or 0 m c + 1) c))

add_counts-counted :
    (k : OrderKey) (l : Label) (rows : BTreeMap OrderKey Label) (c : Counts)
    → get k rows ≡ some l
    → is_some (get l (add_counts (values rows) c)) ≡ true
unfolding add_counts get
add_counts-counted k l [] c e = cc
add_counts-counted k l ((j, v) ∷ rows) c e = ground (
  arith,
  add_counts-counted k l rows (insert v (get_or 0 v c + 1) c),
  add_counts-kept (values rows) v (insert v (get_or 0 v c + 1) c),
  get-insert_self v (get_or 0 v c + 1) c,
)

-- A label of a row is counted.
counts_of-counted :
    (k : Key) (ok : OrderKey) (l : Label) (rows : BTreeMap OrderKey Label) (m : Labeled)
    → get k m ≡ some rows
    → get ok rows ≡ some l
    → is_some (get l (counts_of m)) ≡ true
unfolding counts_of get
counts_of-counted k ok l rows [] e g = cc
counts_of-counted k ok l rows ((j, here) ∷ m) e g = ground (
  arith,
  counts_of-counted k ok l rows m,
  add_counts-kept (values here) l (counts_of m),
  add_counts-counted ok l here (counts_of m),
)

-- The view of a snapshot through a mask.
abbrev pub view : FactMask → Snapshot → Masked
view mask snap = record { snap = snap; mask = mask; active = hides_any mask snap }

module _ (mask : FactMask) (snap : Snapshot) (k : Key)
    (counts : snap.fact_label_counts ≡ counts_of snap.fact_labels) where
  -- A row of the key by its order key.
  abbrev pub is_seen : OrderKey → Bool
  is_seen ok = row_visible mask k.1 (get k snap.fact_labels >>= get ok)

  idle_allowed :
      (f : Label)
      → hides_any mask snap ≡ false
      → floor mask k.1 ≡ some f
      → label_allowed mask.allowed f ≡ true
  unfolding hides_any
  idle_allowed f h e =
      ground
        (arith, any-values (λ l. not (label_allowed mask.allowed l)) k.1 f mask.floors floors e)
    where
      floors : any (λ l. not (label_allowed mask.allowed l)) (values mask.floors) ≡ false
      floors =
          (or_false (any (λ l. not (label_allowed mask.allowed l)) (keys snap.fact_label_counts)) _
            h).1

  idle_seen :
      (ok : OrderKey) (l : Label) (rows : BTreeMap OrderKey Label)
      → hides_any mask snap ≡ false
      → get k snap.fact_labels ≡ some rows
      → get ok rows ≡ some l
      → label_allowed mask.allowed l ≡ true
  unfolding hides_any
  idle_seen ok l rows h e g = ground (
    arith,
    any-keys (λ l. not (label_allowed mask.allowed l)) l snap.fact_label_counts (or_false _ _ h).0
        (ap (λ c. is_some (get l c)) counts ∙ counts_of-counted k ok l rows snap.fact_labels e g),
  )

  open_allowed :
      (f : Label)
      → key_affected mask snap k ≡ false
      → floor mask k.1 ≡ some f
      → label_allowed mask.allowed f ≡ true
  unfolding key_affected predicate_hidden
  open_allowed f h e = ground (arith, e, shown)
    where
      shown : predicate_hidden mask k.1 ≡ false
      shown = (or_false (predicate_hidden mask k.1) _ h).0

  open_seen :
      (ok : OrderKey) (l : Label) (rows : BTreeMap OrderKey Label)
      → key_affected mask snap k ≡ false
      → get k snap.fact_labels ≡ some rows
      → get ok rows ≡ some l
      → label_allowed mask.allowed l ≡ true
  unfolding key_affected row_visible
  open_seen ok l rows h e g = ground (
    arith,
    any-values (λ l. not (row_visible mask k.1 (some l))) ok l rows
        (ground (arith, e, (or_false (predicate_hidden mask k.1) _ h).1)) g,
  )

  unaffected-cases :
      affected (view mask snap) k ≡ false
      → (hides_any mask snap ≡ false) ⊎ (key_affected mask snap k ≡ false)
  unfolding affected
  unaffected-cases h = elim (Bool-cases (hides_any mask snap)) [
    | inl e ↦ inr (ground arith)
    | inr e ↦ inl e
  ]

  floor_visible :
      affected (view mask snap) k ≡ false → label_visible mask.allowed (floor mask k.1) ≡ true
  floor_visible h = elim (Option-cases (floor mask k.1)) [
    | inl e ↦ rw e refl
    | inr (f, e) ↦ rw e (elim (unaffected-cases h) [
      | inl idle ↦ idle_allowed f idle e
      | inr opened ↦ open_allowed f opened e
    ])
  ]

  label_seen :
      (ok : OrderKey)
      → affected (view mask snap) k ≡ false
      → label_visible mask.allowed (get k snap.fact_labels >>= get ok) ≡ true
  label_seen ok h = elim (Option-cases (get k snap.fact_labels)) [
    | inl e ↦ rw e refl
    | inr (rows, e) ↦ elim (Option-cases (get ok rows)) [
      | inl g ↦ rw (e, g) refl
      | inr (l, g) ↦
          rw (e, g)
            (elim (unaffected-cases h) [
              | inl idle ↦ idle_seen ok l rows idle e g
              | inr opened ↦ open_seen ok l rows opened e g
            ])
    ]
  ]

  -- Every row of a key that is not affected is visible.
  pub unaffected-is_seen : (ok : OrderKey) → affected (view mask snap) k ≡ false → is_seen ok ≡ true
  unfolding row_visible
  unaffected-is_seen ok h = rw (floor_visible h, label_seen ok h) refl
