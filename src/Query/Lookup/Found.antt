-- ===== src/Query/Lookup/Found.antt =====
-- crates/stroma-core/src/query.rs, `lookup_one` against the reads of each subject.
use mathlib.Core.Option.{some-injective}
use mathlib.Core.Path.{subst}
use stromadb.Base.{
  ℕ, ◌≡◌, ◌↔◌, refl, sym, ap, ◌∙◌, arith, Bool, true, false, ◌&&◌, Option, none, some, List, [],
  ◌∷◌, inl, inr,
}
use stromadb.Base.Int.{ℤ}
use stromadb.Base.Tests.{if◌then◌else◌, ◌>>=◌, is_some, Bool-cases}
use stromadb.Base.Lists.{is_empty, last, filter}
use stromadb.Base.Map.{
  BTreeMap, BTreeSet, get, keys, contains, retain, set_insert, get-insert, get-insert_self,
  get-retain,
}
use stromadb.Base.Map.Entries.{elem, elem-keys}
use stromadb.Base.Order.{is_eq, is_eq→eq, is_eq_refl, nat_ord, int_ord, pair_ord}
use stromadb.Fact.{FieldId, NodeId}
use stromadb.Fold.Keys.{ObjKey, OrderKey, obj_ord, order_ord}
use stromadb.Fold.State.{Key, Rows, KeyState, EdgeProps, Label, Fold}
use stromadb.Fold.Observe
use stromadb.Fold.Observe.{
  Snapshot, VersionRow, ValueEntry, Elements, row_value_hashes, insert_values, version_rows,
  observe_elements, no_elements, note_labels, one_live, project_props,
}
use stromadb.Fold.Gc.{observe}
use stromadb.Fold.Refresh.Entry.{Entry, entry, no_entry}
use stromadb.Fold.Refresh.Writers.{with_props, with_rows, with_labels}
use stromadb.Fold.Refresh.Shown.{with_state}
use stromadb.Fold.Refresh.Values.{Histories, hashes, values_of}
use stromadb.Fold.Refresh.Observed.{observe-IsKept, entry-observe}
use stromadb.Mask.{snapshot_facts}
use stromadb.Query.{covers, latest, effective, point_one, point_one_asof}
use stromadb.Query.Pointers.{Among}
use stromadb.Query.Lawful.{get_here, get_there, Among-keys}
use stromadb.Query.Lookup.{
  subjects_of, in_range, is_value, value_now, one_value_subjects, lookup_one,
}
use stromadb.Query.Lookup.Carried.{Carries, latest-Carries, filter-Carries, last-Carries}

module _ (value_hash : ObjKey → ℕ) where
  row_value_hashes-Carries :
      (v : ObjKey) (rows : List VersionRow)
      → Carries v rows
      → contains (value_hash v) (row_value_hashes value_hash rows) ≡ true
  unfolding row_value_hashes
  row_value_hashes-Carries v [] c = absurd c
  row_value_hashes-Carries v ((ok, none, vf, vt) ∷ rows) (inl e) = absurd (cc e)
  row_value_hashes-Carries v ((ok, none, vf, vt) ∷ rows) (inr c) = row_value_hashes-Carries v rows c
  row_value_hashes-Carries v ((ok, some w, vf, vt) ∷ rows) (inl e) =
      let rest = row_value_hashes value_hash rows in
      subst (λ x. contains (value_hash x) (set_insert (value_hash w) rest) ≡ true)
        (some-injective _ _ e)
        (ground
          (arith, get-insert (value_hash w) (value_hash w) tt rest, is_eq_refl (value_hash w)))
  row_value_hashes-Carries v ((ok, some w, vf, vt) ∷ rows) (inr c) =
      let rest = row_value_hashes value_hash rows in
      ground
        (arith, get-insert (value_hash v) (value_hash w) tt rest, row_value_hashes-Carries v rows c)

  insert_values_kept :
      (x : ValueEntry) (k : Key) (hs : List ℕ) (c : BTreeSet ValueEntry)
      → contains x c ≡ true
      → contains x (insert_values value_hash k hs c) ≡ true
  unfolding insert_values
  insert_values_kept x k [] c h = h
  insert_values_kept x k (g ∷ hs) c h =
      insert_values_kept x k hs (set_insert (k.1, (g, k.0)) c)
        (ground (arith, get-insert x (k.1, (g, k.0)) tt c, h))

  insert_values-elem :
      (k : Key) (h : ℕ) (hs : List ℕ) (c : BTreeSet ValueEntry)
      → elem h hs ≡ true
      → contains (k.1, (h, k.0)) (insert_values value_hash k hs c) ≡ true
  unfolding insert_values
  insert_values-elem k h [] c e = absurd (cc e)
  insert_values-elem k h (g ∷ hs) c e = elim (Bool-cases (is_eq h g)) [
    | inl same ↦
        insert_values_kept (k.1, (h, k.0)) k hs (set_insert (k.1, (g, k.0)) c)
          (subst (λ x. contains (k.1, (h, k.0)) (set_insert (k.1, (x, k.0)) c) ≡ true)
            (is_eq→eq h g same) (ap is_some (get-insert_self (k.1, (h, k.0)) tt c)))
    | inr ne ↦ insert_values-elem k h hs (set_insert (k.1, (g, k.0)) c) (ground (arith, ne, e))
  ]

  values_of-Carries :
      (k : Key) (v : ObjKey) (rows : List VersionRow) (m : Histories)
      → get k m ≡ some rows
      → Carries v rows
      → contains (k.1, (value_hash v, k.0)) (values_of value_hash m) ≡ true
  unfolding values_of get
  values_of-Carries k v rows [] h c = absurd (cc h)
  values_of-Carries k v rows ((i, old) ∷ m) h c = elim (Bool-cases (is_eq k i)) [
    | inl e ↦
        let (at, found) = get_here k i old m e in
        let same = some-injective _ _ (sym found ∙ h) in
        subst
          (λ x.
            contains (k.1, (value_hash v, k.0))
              (insert_values value_hash x (hashes value_hash old) (values_of value_hash m))
            ≡ true)
          at
          (insert_values-elem k (value_hash v) (hashes value_hash old) (values_of value_hash m) (
            elem-keys (value_hash v) (row_value_hashes value_hash old)
            ∙ row_value_hashes-Carries v old (subst (Carries v) (sym same) c)))
    | inr e ↦
        insert_values_kept (k.1, (value_hash v, k.0)) i (hashes value_hash old)
          (values_of value_hash m)
          (values_of-Carries k v rows m (sym (get_there k i old m e) ∙ h) c)
  ]

  -- A current value is that of a row of the history.
  abbrev HeadsCarried : Entry → Type 0
  HeadsCarried e =
      (v : ObjKey)
      → e.one ≡ some (some v)
      → (rows : List VersionRow) × (e.one_history ≡ some rows) × Carries v rows

  with_labels-HeadsCarried :
      (noted : BTreeMap OrderKey Label) (e : Entry)
      → HeadsCarried e
      → HeadsCarried (with_labels value_hash noted e)
  with_labels-HeadsCarried noted e h = elim (Bool-cases (is_empty noted)) [
    | inl b ↦
        subst (λ c. HeadsCarried (if c then e else record e { fact_labels = some noted })) (sym b) h
    | inr b ↦
        subst (λ c. HeadsCarried (if c then e else record e { fact_labels = some noted })) (sym b)
          (λ v k. h v k)
  ]

  with_rows-HeadsCarried :
      (live : Rows) (e : Entry) → HeadsCarried e → HeadsCarried (with_rows value_hash live e)
  with_rows-HeadsCarried live e h = headed (last (version_rows live)) refl
    where
      headed :
          (top : Option VersionRow)
          → last (version_rows live) ≡ top
          → HeadsCarried (elim top [
            | none ↦ e
            | some (ok, o, valid_from, valid_to) ↦ record e {
              one = some o;
              one_history = some (version_rows live);
            }
          ])
      headed none l v k = h v k
      headed (some (ok, o, f, u)) l v k = (
        version_rows live,
        refl,
        last-Carries v (version_rows live) (ok, o, f, u) l (some-injective _ _ k),
      )

  with_props-HeadsCarried :
      (props : Option EdgeProps) → HeadsCarried (with_props value_hash props no_entry)
  with_props-HeadsCarried none v k = absurd (cc k)
  with_props-HeadsCarried (some objs) v k =
      absurd (cc (sym (headless (is_empty (project_props objs))) ∙ k))
    where
      headless :
          (b : Bool)
          → (if b then no_entry else record no_entry { edge_props = some (project_props objs) }).one
            ≡ none
      headless true = refl
      headless false = refl

  with_state-HeadsCarried :
      (stored : Observe.LabelStore) (st : Option KeyState) (e : Entry)
      → HeadsCarried e
      → HeadsCarried (with_state value_hash stored st e)
  with_state-HeadsCarried stored none e h = h
  with_state-HeadsCarried stored (some (KeyState.one s)) e h =
      with_labels-HeadsCarried (note_labels stored (one_live s) []) _
        (with_rows-HeadsCarried (one_live s) e h)
  with_state-HeadsCarried stored (some (KeyState.many s)) e h =
      with_labels-HeadsCarried _ _ (λ v k. h v k)

  module _ (f : Fold) where
    abbrev observed : Snapshot
    observed = observe value_hash f

    observed-HeadsCarried : (k : Key) → HeadsCarried (entry k observed)
    observed-HeadsCarried k = subst HeadsCarried (sym (entry-observe value_hash f k)) (
        with_state-HeadsCarried (get k f.fact_labels) (get k f.keys) _
          (with_props-HeadsCarried (get k f.edge_props)))

    -- A value that is read is that of a row of the history.
    value_now-Carries :
        (at : Option ℤ) (p : FieldId) (n : NodeId) (v : ObjKey)
        → value_now (snapshot_facts observed) p at n ≡ some v
        → (rows : List VersionRow) × (get (n, p) observed.one_history ≡ some rows) × Carries v rows
    unfolding point_one point_one_asof effective snapshot_facts
    value_now-Carries none p n v e = headed (get (n, p) observed.one) refl e
      where
        headed :
            (o : Option (Option ObjKey))
            → get (n, p) observed.one ≡ o
            → (o >>= λ w. w) ≡ some v
            → (rows : List VersionRow) × (get (n, p) observed.one_history ≡ some rows)
              × Carries v rows
        headed none g k = absurd (cc k)
        headed (some w) g k = observed-HeadsCarried (n, p) v (g ∙ ap some k)
    value_now-Carries (some at) p n v e = rowed (get (n, p) observed.one_history) refl e
      where
        rowed :
            (o : Option (List VersionRow))
            → get (n, p) observed.one_history ≡ o
            → (o >>= λ rows. latest (filter (covers at) rows) >>= λ row. row.1) ≡ some v
            → (rows : List VersionRow) × (get (n, p) observed.one_history ≡ some rows)
              × Carries v rows
        rowed none g k = absurd (cc k)
        rowed (some rows) g k = (
          rows,
          g,
          filter-Carries v (covers at) rows (latest-Carries v (filter (covers at) rows) k),
        )

    indexed :
        (at : Option ℤ) (p : FieldId) (n : NodeId) (v : ObjKey)
        → value_now (snapshot_facts observed) p at n ≡ some v
        → contains (p, (value_hash v, n)) observed.one_values ≡ true
    indexed at p n v e =
        let (rows, g, c) = value_now-Carries at p n v e in
        ap (contains (p, (value_hash v, n))) (observe-IsKept value_hash f).indexed.index
        ∙ values_of-Carries (n, p) v rows observed.one_history g c

  subjects_of-Among :
      (p : FieldId) (h : ℕ) (n : NodeId) (es : List ValueEntry)
      → Among (p, (h, n)) es
      → Among n (subjects_of es)
  subjects_of-Among p h n [] a = a
  subjects_of-Among p h n (e ∷ es) (inl same) = inl (ap (λ x. x.1.1) same)
  subjects_of-Among p h n (e ∷ es) (inr a) = inr (subjects_of-Among p h n es a)

  one_value_subjects-Among :
      (s : Snapshot) (p : FieldId) (v : ObjKey) (n : NodeId)
      → contains (p, (value_hash v, n)) s.one_values ≡ true
      → Among n (one_value_subjects value_hash s p v)
  unfolding one_value_subjects
  one_value_subjects-Among s p v n h =
      let x : ValueEntry = (p, (value_hash v, n)) in
      let range = in_range p (value_hash v) in
      subjects_of-Among p (value_hash v) n (keys (retain range s.one_values)) (
        Among-keys x (retain range s.one_values)
          (ap is_some (get-retain range x s.one_values) ∙ ground (arith, h)))

filter-Among :
    (p : NodeId → Bool) (n : NodeId) (ns : List NodeId)
    → Among n (filter p ns) ↔ (Among n ns × (p n ≡ true))
filter-Among p n [] = (λ a. absurd a, λ a. a.0)
filter-Among p n (m ∷ ms) =
    let (into, out) = filter-Among p n ms in
    elim (Bool-cases (p m)) [
      | inl e ↦ rw e (
        λ a. elim a [
          | inl h ↦ (inl h, sym (ap p h) ∙ e)
          | inr h ↦ let (b, q) = into h in (inr b, q)
        ],
        λ a. elim a.0 [ inl h ↦ inl h | inr h ↦ inr (out (h, a.1)) ],
      )
      | inr e ↦ rw e (
        λ a. let (b, q) = into a in (inr b, q),
        λ a. elim a.0 [ inl h ↦ absurd (cc (e, a.1, ap p h)) | inr h ↦ out (h, a.1) ],
      )
    ]

is_value_iff : (v : ObjKey) (o : Option ObjKey) → (is_value v o ≡ true) ↔ (o ≡ some v)
is_value_iff v none = (λ h. cc h, λ h. cc h)
is_value_iff v (some w) = (
  λ h. ap some (is_eq→eq w v h),
  λ h. subst (λ x. is_eq x v ≡ true) (sym (some-injective _ _ h)) (is_eq_refl v),
)

-- The lookup of a value in the snapshot of a fold finds exactly the subjects that are kept and whose
-- value is this one, now or as of an instant, for every hash of the values.
pub lookup_one_iff :
    (value_hash : ObjKey → ℕ) (f : Fold) (p : FieldId) (v : ObjKey) (at : Option ℤ)
    (keep : NodeId → Bool) (n : NodeId)
    → let snap = snapshot_facts (observe value_hash f) in
      Among n (lookup_one value_hash snap p v at keep)
      ↔ ((value_now snap p at n ≡ some v) × (keep n ≡ true))
unfolding lookup_one snapshot_facts
lookup_one_iff value_hash f p v at keep n =
    let snap = snapshot_facts (observe value_hash f) in
    let (into, out) =
      filter-Among (λ m. is_value v (value_now snap p at m) && keep m) n
        (one_value_subjects value_hash (observe value_hash f) p v) in
    let (read, found) = is_value_iff v (value_now snap p at n) in
    (
      λ a. let (b, q) = into a in (read (ground (arith, q)), ground (arith, q)),
      λ a. out (
        one_value_subjects-Among value_hash (observe value_hash f) p v n
            (indexed value_hash f at p n v a.0),
        ground (arith, found a.0, a.1),
      ),
    )
