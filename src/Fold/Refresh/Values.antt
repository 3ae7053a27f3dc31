-- ===== src/Fold/Refresh/Values.antt =====
-- crates/stroma-core/src/fold.rs, `Snapshot::one_values`: the reverse index of the One values, kept
-- while keys are forgotten and observed.
use stromadb.Base.{ℕ, ◌≡◌, ◌≢◌, refl, sym, ap, ◌∙◌, arith, false, none, some, List, [], ◌∷◌}
use stromadb.Base.Tests.{is_some}
use stromadb.Base.Map.{
  BTreeMap, BTreeSet, keys, get, insert, remove, set_insert, update_comm, get-insert_ne,
}
use stromadb.Base.Map.Sorted.{IsSorted, insert-IsSorted, get-Above}
use stromadb.Base.Map.Entries.{remove-insert, insert-remove, get-remove, elem, elem-keys}
use stromadb.Base.Order.{is_eq_refl, nat_ord, pair_ord}
use stromadb.Fold.Keys.{ObjKey}
use stromadb.Fold.State.{Key}
use stromadb.Fold.Observe.{VersionRow, ValueEntry, row_value_hashes, remove_values, insert_values}

abbrev pub Histories : Type 0
Histories = BTreeMap Key (List VersionRow)

abbrev pub Index : Type 0
Index = BTreeSet ValueEntry

abbrev at_key : Key → ℕ → ValueEntry
at_key k h = (k.1, (h, k.0))

set_insert_comm :
    (x y : ValueEntry) (c : Index) → set_insert x (set_insert y c) ≡ set_insert y (set_insert x c)
set_insert_comm x y c = update_comm x y (λ _. tt) (λ _. tt) c (λ e v. refl)

module _ (value_hash : ObjKey → ℕ) where
  insert_values-set_insert :
      (k : Key) (hs : List ℕ) (x : ValueEntry) (c : Index)
      → insert_values value_hash k hs (set_insert x c)
        ≡ set_insert x (insert_values value_hash k hs c)
  unfolding insert_values
  insert_values-set_insert k [] x c = refl
  insert_values-set_insert k (h ∷ hs) x c =
      ap (insert_values value_hash k hs) (set_insert_comm (at_key k h) x c)
      ∙ insert_values-set_insert k hs x (set_insert (at_key k h) c)

  insert_values_comm :
      (k j : Key) (hs gs : List ℕ) (c : Index)
      → insert_values value_hash k hs (insert_values value_hash j gs c)
        ≡ insert_values value_hash j gs (insert_values value_hash k hs c)
  unfolding insert_values
  insert_values_comm k j [] gs c = refl
  insert_values_comm k j (h ∷ hs) gs c =
      ap (insert_values value_hash k hs) (sym (insert_values-set_insert j gs (at_key k h) c))
      ∙ insert_values_comm k j hs gs (set_insert (at_key k h) c)

  abbrev pub hashes : List VersionRow → List ℕ
  hashes rows = keys (row_value_hashes value_hash rows)

  -- The index of a map of histories, from nothing.
  unfoldable pub values_of : Histories → Index
  values_of [] = []
  values_of ((k, rows) ∷ m) = insert_values value_hash k (hashes rows) (values_of m)

  pub values_of-insert :
      (k : Key) (rows : List VersionRow) (m : Histories)
      → get k m ≡ none
      → values_of (insert k rows m) ≡ insert_values value_hash k (hashes rows) (values_of m)
  unfolding values_of get insert
  values_of-insert k rows [] h = refl
  values_of-insert k rows ((i, old) ∷ m) h = ground (
    arith,
    values_of-insert k rows m,
    insert_values_comm i k (hashes old) (hashes rows) (values_of m),
  )

  insert_values-IsSorted :
      (k : Key) (hs : List ℕ) (c : Index) → IsSorted c → IsSorted (insert_values value_hash k hs c)
  unfolding insert_values
  insert_values-IsSorted k [] c s = s
  insert_values-IsSorted k (h ∷ hs) c s =
      insert_values-IsSorted k hs (set_insert (at_key k h) c) (insert-IsSorted (at_key k h) tt c s)

  values_of-IsSorted : (m : Histories) → IsSorted (values_of m)
  unfolding values_of
  values_of-IsSorted [] = tt
  values_of-IsSorted ((k, rows) ∷ m) =
      insert_values-IsSorted k (hashes rows) (values_of m) (values_of-IsSorted m)

  get-insert_values_other :
      (k j : Key) (h : ℕ) (hs : List ℕ) (c : Index)
      → k ≢ j
      → get (at_key k h) (insert_values value_hash j hs c) ≡ get (at_key k h) c
  unfolding insert_values
  get-insert_values_other k j h [] c n = refl
  get-insert_values_other k j h (g ∷ hs) c n =
      get-insert_values_other k j h hs (set_insert (at_key j g) c) n
      ∙ get-insert_ne (at_key k h) (at_key j g) tt c (λ e. n (cc))

  get-insert_values :
      (k : Key) (h : ℕ) (hs : List ℕ) (c : Index)
      → elem h hs ≡ false
      → get (at_key k h) (insert_values value_hash k hs c) ≡ get (at_key k h) c
  unfolding insert_values
  get-insert_values k h [] c n = refl
  get-insert_values k h (g ∷ hs) c n =
      get-insert_values k h hs (set_insert (at_key k g) c) (ground (arith, n))
      ∙ get-insert_ne (at_key k h) (at_key k g) tt c (λ e. ground (arith, n))

  values_of-lacks :
      (k : Key) (h : ℕ) (m : Histories) → get k m ≡ none → get (at_key k h) (values_of m) ≡ none
  unfolding values_of get
  values_of-lacks k h [] e = refl
  values_of-lacks k h ((i, rows) ∷ m) e =
      get-insert_values_other k i h (hashes rows) (values_of m) (λ q. ground (arith, is_eq_refl k))
      ∙ values_of-lacks k h m (ground (arith, e))

  -- What is inserted for a key that the index lacks is what is removed for it.
  remove_values-insert_values :
      (k : Key) (s : BTreeSet ℕ) (c : Index)
      → IsSorted s
      → IsSorted c
      → ((h : ℕ) → get (at_key k h) c ≡ none)
      → remove_values value_hash k (keys s) (insert_values value_hash k (keys s) c) ≡ c
  unfolding remove_values insert_values
  remove_values-insert_values k [] c t o lacks = refl
  remove_values-insert_values k ((h, _) ∷ s) c t o lacks =
      let x = at_key k h in
      let rest = insert_values value_hash k (keys s) c in
      let new : get x rest ≡ none =
        get-insert_values k h (keys s) c (elem-keys h s ∙ ap is_some (get-Above h s t.0))
        ∙ lacks h in
      ap (λ d. remove_values value_hash k (keys s) (remove x d))
        (insert_values-set_insert k (keys s) x c)
      ∙ ap (remove_values value_hash k (keys s))
          (remove-insert x tt rest (insert_values-IsSorted k (keys s) c o) new)
      ∙ remove_values-insert_values k s c t.1 o lacks

  row_value_hashes-IsSorted : (rows : List VersionRow) → IsSorted (row_value_hashes value_hash rows)
  unfolding row_value_hashes
  row_value_hashes-IsSorted [] = tt
  row_value_hashes-IsSorted ((ok, none, vf, vt) ∷ rows) = row_value_hashes-IsSorted rows
  row_value_hashes-IsSorted ((ok, some v, vf, vt) ∷ rows) =
      insert-IsSorted (value_hash v) tt (row_value_hashes value_hash rows)
        (row_value_hashes-IsSorted rows)

  -- The index of a map without one of its keys.
  pub values_of-remove :
      (k : Key) (old : List VersionRow) (m : Histories)
      → IsSorted m
      → get k m ≡ some old
      → remove_values value_hash k (hashes old) (values_of m) ≡ values_of (remove k m)
  values_of-remove k old m s e =
      let gone : get k (remove k m) ≡ none = get-remove k k m s ∙ rw (is_eq_refl k) refl in
      ap (λ x. remove_values value_hash k (hashes old) (values_of x))
        (sym (insert-remove k old m s e))
      ∙ ap (remove_values value_hash k (hashes old)) (values_of-insert k old (remove k m) gone)
      ∙ remove_values-insert_values k (row_value_hashes value_hash old) (values_of (remove k m))
          (row_value_hashes-IsSorted old) (values_of-IsSorted (remove k m))
          (λ h. values_of-lacks k h (remove k m) gone)
