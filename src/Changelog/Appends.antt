-- ===== src/Changelog/Appends.antt =====
-- crates/stroma-core/src/changelog.rs, `append` and `append_batch`: backpressure, the numbers that
-- the records get, and what a batch does.
use stromadb.Base.{
  ℕ, zero, suc, ◌+◌, ◌<◌, ◌≤◌, ◌≡◌, ◌⊎◌, inl, inr, refl, sym, ap, Option, List, [], ◌∷◌, ◌++◌,
  arith, append_assoc, append-nil, map,
}
use stromadb.Base.Tests.{ltb, Bool-cases}
use stromadb.Base.Lists.{length, length-append}
use stromadb.Fact.{FieldId}
use stromadb.Fold.State.{Label}
use stromadb.WriteKind.{WriteKind}
use stromadb.Changelog.Ops.{
  Record, Appended, Changelog, unmaterialized, head, append_labeled, push_all, append_batch_labeled,
}

-- The next `n` numbers.
unfoldable pub seqnos_from : ℕ → ℕ → List ℕ
seqnos_from seqno zero = []
seqnos_from seqno (suc n) = seqno ∷ seqnos_from (seqno + 1) n

abbrev pub extended : List Record → Changelog → Changelog
extended writes c = record c { records = c.records ++ writes }

head-extended : (rec : Record) (c : Changelog) → head (extended (rec ∷ []) c) ≡ head c + 1
unfolding head
head-extended rec c = omega (arith, length-append c.records (rec ∷ []))

extended_again :
    (rec : Record) (writes : List Record) (c : Changelog)
    → extended writes (extended (rec ∷ []) c) ≡ extended (rec ∷ writes) c
extended_again rec writes c =
    ap (λ rs. record c { records = rs }) (append_assoc c.records (rec ∷ []) writes)

extended_nil : (c : Changelog) → extended [] c ≡ c
extended_nil c = ap (λ rs. record c { records = rs }) (append-nil c.records)

pub push_all_lem :
    (writes : List Record) (c : Changelog)
    → push_all writes c ≡ (seqnos_from (head c) (length writes), extended writes c)
unfolding push_all seqnos_from
push_all_lem [] c = λ i. ([], sym (extended_nil c) i)
push_all_lem (rec ∷ writes) c =
    rw
      (
        push_all_lem writes (extended (rec ∷ []) c),
        head-extended rec c,
        extended_again rec writes c,
      )
      refl

-- Appending one after the other, with the reply to each.
unfoldable pub append_each : List Record → Changelog → List (Appended ℕ) × Changelog
append_each [] c = ([], c)
append_each ((source, kind, label) ∷ writes) c =
    let (reply, c') = append_labeled source kind label c in
    let (replies, c'') = append_each writes c' in (reply ∷ replies, c'')

unmaterialized-extended :
    (rec : Record) (writes : List Record) (c : Changelog)
    → unmaterialized c + length (rec ∷ writes) ≤ c.max_unmaterialized
    → unmaterialized (extended (rec ∷ []) c) + length writes ≤ c.max_unmaterialized
unfolding unmaterialized
unmaterialized-extended rec writes c h = omega (arith, length-append c.records (rec ∷ []))

append_labeled_fits :
    (source : FieldId) (kind : WriteKind) (label : Option Label) (c : Changelog)
    → unmaterialized c + 1 ≤ c.max_unmaterialized
    → append_labeled source kind label c
      ≡ (Appended.ok (head c), extended ((source, kind, label) ∷ []) c)
unfolding append_labeled
append_labeled_fits source kind label c h = ground arith

append_each_fits :
    (writes : List Record) (c : Changelog)
    → unmaterialized c + length writes ≤ c.max_unmaterialized
    → append_each writes c
      ≡ (map Appended.ok (seqnos_from (head c) (length writes)), extended writes c)
unfolding append_each seqnos_from
append_each_fits [] c h = λ i. ([], sym (extended_nil c) i)
append_each_fits ((source, kind, label) ∷ writes) c h =
    let rec : Record = (source, kind, label) in
    rw
      (
        append_labeled_fits source kind label c (omega arith),
        append_each_fits writes (extended (rec ∷ []) c) (unmaterialized-extended rec writes c h),
        head-extended rec c,
        extended_again rec writes c,
      )
      refl

-- A batch that fits gets the next numbers in order and is the same as appending its records one
-- after the other, each of which is accepted; one that does not fit is refused with the backlog it
-- would have made, and changes nothing.
pub append_batch_labeled_lem :
    (writes : List Record) (c : Changelog)
    → let seqnos = seqnos_from (head c) (length writes) in
      let backlog = unmaterialized c + length writes in
      ((backlog ≤ c.max_unmaterialized)
        × (append_batch_labeled writes c ≡ (Appended.ok seqnos, extended writes c))
        × (append_each writes c ≡ (map Appended.ok seqnos, extended writes c)))
      ⊎ ((c.max_unmaterialized < backlog)
          × (append_batch_labeled writes c ≡ (
            Appended.err (record { unmaterialized = backlog; limit = c.max_unmaterialized }),
            c,
          )))
unfolding append_batch_labeled
append_batch_labeled_lem writes c =
    elim (Bool-cases (ltb c.max_unmaterialized (unmaterialized c + length writes))) [
      | inl full ↦ inr (ground arith, rw full refl)
      | inr room ↦
          let fits : unmaterialized c + length writes ≤ c.max_unmaterialized = ground arith in
          inl (fits, rw (room, push_all_lem writes c) refl, append_each_fits writes c fits)
    ]
