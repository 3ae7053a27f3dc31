-- ===== src/Mask/Hidden.antt =====
-- crates/stroma-core/src/mask.rs, `Masked`: a masked read of a fold is a read of the fold without its
-- hidden rows.
use mathlib.Core.Path.{subst}
use stromadb.Base.{ℕ, ◌≡◌, refl, sym, ap, ◌∙◌, Option, none, some, List, [], ◌∷◌, inr}
use stromadb.Base.Tests.{◌>>=◌, map_option}
use stromadb.Base.Lists.{All}
use stromadb.Base.Map.{BTreeMap, get, retain, get-map_values}
use stromadb.Base.Order.{nat_ord, pair_ord}
use stromadb.Fold.Keys.{ObjKey, OrderKey, obj_ord, order_ord}
use stromadb.Fold.State.{Key, Label, Rows, OneState, ManyState, KeyState, Fold}
use stromadb.Fold.Observe.{
  Snapshot, VersionRow, version_rows, one_live, is_live, element_live, no_elements, note_labels,
}
use stromadb.Fold.Gc.{observe}
use stromadb.Fold.Refresh.Counts.{counts_of}
use stromadb.Fold.Refresh.Observed.{observe-IsKept}
use stromadb.Base.Map.Sorted.{IsSorted, map_values-IsSorted}
use stromadb.Catalog.{Catalog}
use stromadb.Fold.Parts.{Write}
use stromadb.Fold.Apply.{fold_labeled}
use stromadb.Fold.Elements.{fold_labeled-AllSorted}
use stromadb.Mask.{
  Facts, snapshot_facts, new_mask, new_masked, FactMask, Masked, row_visible, visible, non_empty,
}
use stromadb.Fold.Refresh.Entry.{entry}
use stromadb.Mask.View
use stromadb.Mask.View.{
  masked_facts, one_rows, one_value, last_object, many_rows, many_set, visible_elements, present,
}
use stromadb.Mask.Seen.{view, is_seen}
use stromadb.Mask.Elements.{Under, shown_elements, observe_elements-shown, labels-Noted}
use stromadb.Mask.Reads.{AllShown, many_rows_lem, many_set_lem, one_rows_lem, one_value_lem}
use stromadb.Mask.Shown.{elements_of, observe-none, observe-many, Shows, observe-one}
use stromadb.Mask.Labels.{get-note_labels}
use stromadb.Mask.Without.{
  is_shown, without_rows, without_hidden, found, shown_elements-AllShown, one_without, many_without,
  visible-rows, visible_elements-shown,
}

All-imp {ℓ κ μ} :
    {A : Type ℓ} {P : A → Type κ} {Q : A → Type μ} (l : List A)
    → ((a : A) → P a → Q a)
    → All P l
    → All Q l
All-imp [] h a = tt
All-imp (x ∷ l) h a = (h x a.0, All-imp l h a.1)

Under-nil : (W : Type 0) (elems : BTreeMap ObjKey Rows) → Under {W = W} elems []
Under-nil W [] = tt
Under-nil W (x ∷ elems) = (tt, Under-nil W elems)

module _ (value_hash : ObjKey → ℕ) (mask : FactMask) (f : Fold) (k : Key) where
  abbrev counted :
      (observe value_hash f).fact_label_counts ≡ counts_of (observe value_hash f).fact_labels
  counted = (observe-IsKept value_hash f).indexed.counts

  -- A row that the snapshot shows has the label that the fold stores.
  seen-is_shown :
      (noted : BTreeMap OrderKey Label) (ok : OrderKey)
      → get k (observe value_hash f).fact_labels ≡ non_empty noted
      → get ok noted ≡ (get k f.fact_labels >>= get ok)
      → is_seen mask (observe value_hash f) k counted ok ≡ is_shown mask f k ok
  seen-is_shown noted ok h g =
      ap (row_visible mask k.1) (ap (λ o. o >>= get ok) h ∙ found ok noted ∙ g)

  stripped-state :
      (st : KeyState)
      → get k f.keys ≡ some st
      → get k (without_hidden mask f).keys ≡ some (without_rows (is_shown mask f k) st)
  unfolding without_hidden
  stripped-state st e =
      get-map_values (λ j s. without_rows (is_shown mask f j) s) k f.keys
      ∙ ap (map_option (without_rows (is_shown mask f k))) e

  -- The masked reads of the key are those of a snapshot.
  record SameReads (v : Masked) (snap : Snapshot) : Type 0 where
    pub one_rows : View.one_rows v k ≡ get k snap.one_history
    pub one_value : View.one_value v k ≡ get k snap.one
    pub many_rows : View.many_rows v k ≡ get k snap.many_history
    pub many_set : View.many_set v k ≡ get k snap.many

  shown-SameReads :
      (rows rows' : List VersionRow) (elems elems' : BTreeMap ObjKey (List VersionRow))
      (noted noted' : BTreeMap OrderKey Label) (g : Fold)
      → Shows value_hash (entry k (observe value_hash f)) rows elems noted
      → Shows value_hash (entry k (observe value_hash g)) rows' elems' noted'
      → AllShown elems
      → visible (view mask (observe value_hash f)) k rows ≡ rows'
      → visible_elements (view mask (observe value_hash f)) k elems ≡ elems'
      → SameReads (view mask (observe value_hash f)) (observe value_hash g)
  shown-SameReads rows rows' elems elems' noted noted' g a b s r x =
      let snap = observe value_hash f in
      record {
        one_rows =
            one_rows_lem mask snap k counted rows a.one_history
            ∙ ap non_empty r
            ∙ sym b.one_history;
        one_value =
            one_value_lem mask snap k counted rows a.one_history a.one
            ∙ ap last_object r
            ∙ sym b.one;
        many_rows =
            many_rows_lem mask snap k counted elems s a.many_history
            ∙ ap non_empty x
            ∙ sym b.many_history;
        many_set =
            many_set_lem mask snap k counted elems s a.many_history a.many
            ∙ ap (λ m. non_empty (present m)) x
            ∙ sym b.many;
      }

  one-SameReads :
      (s : OneState)
      → get k f.keys ≡ some (KeyState.one s)
      → SameReads (view mask (observe value_hash f)) (observe value_hash (without_hidden mask f))
  unfolding without_rows one_live
  one-SameReads s e =
      let g = without_hidden mask f in
      let noted = note_labels (get k f.fact_labels) (one_live s) [] in
      let shown = observe-one value_hash f k s e in
      shown-SameReads (version_rows (one_live s)) _ [] [] noted _ g shown
        (observe-one value_hash g k (one_without (is_shown mask f k) s)
          (stripped-state (KeyState.one s) e))
        tt
        (visible-rows mask (observe value_hash f) k counted _ (is_shown mask f k) s.versions
          (λ ok m. seen-is_shown noted ok shown.fact_labels (
            get-note_labels (get k f.fact_labels) (one_live s) [] ok m (inr (unfold get in refl)))))
        refl

  none-SameReads :
      get k f.keys ≡ none
      → SameReads (view mask (observe value_hash f)) (observe value_hash (without_hidden mask f))
  unfolding without_hidden visible
  none-SameReads e =
      shown-SameReads [] [] [] [] [] [] (without_hidden mask f) (observe-none value_hash f k e)
        (observe-none value_hash (without_hidden mask f) k (
          get-map_values (λ j s. without_rows (is_shown mask f j) s) k f.keys
          ∙ ap (map_option (without_rows (is_shown mask f k))) e))
        tt refl refl

many_shown :
    (value_hash : ObjKey → ℕ) (f : Fold) (k : Key) (s : ManyState)
    → get k f.keys ≡ some (KeyState.many s)
    → IsSorted s.elems
    → Shows value_hash
        (entry k (observe value_hash f))
        []
        (shown_elements (is_live s) s.elems)
        (elements_of value_hash f k s).labels
many_shown value_hash f k s e o =
    let els = elements_of value_hash f k s in
    let q =
      observe_elements-shown (get k f.fact_labels) s s.elems no_elements o (Under-nil _ s.elems)
        (Under-nil _ s.elems) in
    subst (λ h. Shows value_hash (entry k (observe value_hash f)) [] h els.labels) q.0
      (observe-many value_hash f k s e (q.1 ∙ ap present (sym q.0)))

module _ (value_hash : ObjKey → ℕ) (mask : FactMask) (f : Fold) (k : Key) where
  many-SameReads :
      (s : ManyState)
      → get k f.keys ≡ some (KeyState.many s)
      → IsSorted s.elems
      → SameReads value_hash mask f k
          (view mask (observe value_hash f))
          (observe value_hash (without_hidden mask f))
  unfolding without_rows visible element_live
  many-SameReads s e o =
      let p = is_shown mask f k in
      let g = without_hidden mask f in
      let shown = many_shown value_hash f k s e o in
      shown-SameReads value_hash mask f k [] [] (shown_elements (is_live s) s.elems) _ _ _ g shown
        (many_shown value_hash g k (many_without p s)
          (stripped-state value_hash mask f k (KeyState.many s) e)
          (map_values-IsSorted (λ _ rows. retain p rows) s.elems o))
        (shown_elements-AllShown (is_live s) s.elems) refl
        (visible_elements-shown mask (observe value_hash f) k (counted value_hash mask f k)
          (is_live s) p s.elems
          (All-imp s.elems
            (λ x h ok m.
              seen-is_shown value_hash mask f k (elements_of value_hash f k s).labels ok
                shown.fact_labels (h ok m))
            (labels-Noted (get k f.fact_labels) s s.elems no_elements
              (λ j. inr (unfold get in refl)))))

-- Every read of a key through the label mask of a principal, on the snapshot of a fold that a stream
-- of labeled operations built, is the read of a snapshot of the fold without the hidden rows.
pub masked_facts-without_hidden :
    (value_hash : ObjKey → ℕ) (cat : Catalog) (allowed : ℕ) (ws : List Write) (f : Fold) (k : Key)
    → fold_labeled ws ≡ some f
    → let m : Facts = masked_facts (new_masked (observe value_hash f) cat allowed) in
      let s : Facts =
        snapshot_facts (observe value_hash (without_hidden (new_mask cat allowed) f)) in
      (m.one_rows k ≡ s.one_rows k)
      × (m.one_value k ≡ s.one_value k)
      × (m.many_rows k ≡ s.many_rows k)
      × (m.many_set k ≡ s.many_set k)
unfolding masked_facts snapshot_facts new_masked
masked_facts-without_hidden value_hash cat allowed ws f k e =
    let same : SameReads value_hash (new_mask cat allowed) f k _ _ = at (get k f.keys) refl in
    (same.one_rows, same.one_value, same.many_rows, same.many_set)
  where
    mask : FactMask
    mask = new_mask cat allowed

    at :
        (o : Option KeyState)
        → get k f.keys ≡ o
        → SameReads value_hash mask f k
            (view mask (observe value_hash f))
            (observe value_hash (without_hidden mask f))
    at none h = none-SameReads value_hash mask f k h
    at (some (KeyState.one s)) h = one-SameReads value_hash mask f k s h
    at (some (KeyState.many s)) h =
        many-SameReads value_hash mask f k s h (fold_labeled-AllSorted ws f e k (KeyState.many s) h)
