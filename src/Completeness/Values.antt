-- ===== src/Completeness/Values.antt =====
-- crates/stroma-core/src/completeness.rs, `present`: which required predicates a node lacks.
use mathlib.Core.Path.{subst}
use stromadb.Base.{
  ◌≡◌, ◌↔◌, ◌⊎◌, refl, sym, ap, ◌∙◌, arith, true, false, not, ◌||◌, Option, none, some, List, [],
  ◌∷◌, inl, inr,
}
use stromadb.Base.Tests.{is_some, ◌>>=◌, Bool-cases, unwrap_or}
use stromadb.Base.Lists.{is_empty}
use stromadb.Base.Map.{BTreeSet, insert, set_insert, keys}
use stromadb.Base.Order.{nat_ord}
use stromadb.Fact.{FieldId, NodeId, Str}
use stromadb.Catalog.{Catalog, field_id}
use stromadb.Fold.Keys.{ObjKey}
use stromadb.Mask.{Facts}
use stromadb.Query.{point_one, point_many}
use stromadb.Query.Pointers.{Among}
use stromadb.Query.Expand.{expand, add_found, add_nodes}
use stromadb.Completeness.{present, resolved, missing_of}

-- A predicate of a node has a current single value, or a node among its many values.
abbrev pub Carries : Facts → NodeId → FieldId → Type 0
Carries facts n p =
    ((o : ObjKey) × (facts.one_value (n, p) ≡ some (some o)))
    ⊎ ((set : BTreeSet ObjKey) × (m : NodeId) × (facts.many_set (n, p) ≡ some set)
        × Among (ObjKey.node m) (keys set))

-- The same for the name of a predicate, which a catalog may not know.
abbrev pub CarriesName : Facts → Catalog → NodeId → Str → Type 0
CarriesName facts cat n name = (p : FieldId) × (field_id cat name ≡ some p) × Carries facts n p

-- A list of names has, in order, exactly those of the required names that a node does not carry.
abbrev pub Lacks : Facts → Catalog → NodeId → List Str → List Str → Type 0
Lacks facts cat n [] missing = missing ≡ []
Lacks facts cat n (name ∷ names) missing =
    (CarriesName facts cat n name × Lacks facts cat n names missing)
    ⊎ ((¬ CarriesName facts cat n name)
        × ((rest : List Str) × (missing ≡ name ∷ rest) × Lacks facts cat n names rest))

set_insert-is_empty : (n : NodeId) (s : BTreeSet NodeId) → is_empty (set_insert n s) ≡ false
unfolding insert
set_insert-is_empty n [] = refl
set_insert-is_empty n ((m, t) ∷ s) = ground (arith)

-- A value that is no node adds nothing.
skip :
    {A : Type 0} (o : ObjKey) (os : List ObjKey)
    → ((m : NodeId) → ¬ (o ≡ ObjKey.node m))
    → {E : Type 0} → E ↔ (A ⊎ ((m : NodeId) × Among (ObjKey.node m) os))
    → E ↔ (A ⊎ ((m : NodeId) × Among (ObjKey.node m) (o ∷ os)))
skip o os differ (into, out) = (
  λ e. elim (into e) [ inl a ↦ inl a | inr (m, h) ↦ inr (m, inr h) ],
  λ a. elim a [
    | inl b ↦ out (inl b)
    | inr (m, inl same) ↦ absurd (differ m same)
    | inr (m, inr h) ↦ out (inr (m, h))
  ],
)

-- Whether there is a node among the values that are added, or one before.
add_nodes_iff :
    (os : List ObjKey) (s : BTreeSet NodeId)
    → (is_empty (add_nodes os s) ≡ false)
      ↔ ((is_empty s ≡ false) ⊎ ((m : NodeId) × Among (ObjKey.node m) os))
add_nodes_iff [] s = (λ e. inl e, λ a. elim a [ inl e ↦ e | inr (m, h) ↦ absurd h ])
add_nodes_iff (ObjKey.node n ∷ os) s =
    let (into, out) = add_nodes_iff os (set_insert n s) in
    (λ e. inr (n, inl refl), λ a. out (inl (set_insert-is_empty n s)))
add_nodes_iff (ObjKey.int i ∷ os) s =
    skip (ObjKey.int i) os (λ m e. absurd (cc e)) (add_nodes_iff os s)
add_nodes_iff (ObjKey.float f ∷ os) s =
    skip (ObjKey.float f) os (λ m e. absurd (cc e)) (add_nodes_iff os s)
add_nodes_iff (ObjKey.text t ∷ os) s =
    skip (ObjKey.text t) os (λ m e. absurd (cc e)) (add_nodes_iff os s)
add_nodes_iff (ObjKey.boolean b ∷ os) s =
    skip (ObjKey.boolean b) os (λ m e. absurd (cc e)) (add_nodes_iff os s)

-- Without a single value, the many values decide.
many_iff :
    (v : Option (Option ObjKey))
    → ((o : ObjKey) → ¬ (v ≡ some (some o)))
    → (set : Option (BTreeSet ObjKey))
    → (not (is_empty (add_nodes (keys (unwrap_or set [])) [])) ≡ true) ↔ (
        ((o : ObjKey) × (v ≡ some (some o)))
        ⊎ ((held : BTreeSet ObjKey) × (m : NodeId) × (set ≡ some held)
            × Among (ObjKey.node m) (keys held)))
many_iff v lone none = (
  λ e. absurd (cc e),
  λ a. elim a [ inl (o, e) ↦ absurd (lone o e) | inr (held, m, e, h) ↦ absurd (cc e) ],
)
many_iff v lone (some set) =
    let (into, out) = add_nodes_iff (keys set) [] in
    (
      λ e. elim (into (ground (arith, e))) [
        | inl f ↦ absurd (cc f)
        | inr (m, h) ↦ inr (set, m, refl, h)
      ],
      λ a. elim a [
        | inl (o, e) ↦ absurd (lone o e)
        | inr (held, m, e, h) ↦
            ap not (out (inr (m, subst (λ s. Among (ObjKey.node m) (keys s)) (sym (cc e)) h)))
      ],
    )

-- `present` of a known predicate, by what the two reads return.
found_iff :
    (v : Option (Option ObjKey)) (set : Option (BTreeSet ObjKey))
    → ((is_some (v >>= λ o. o)
          || not (is_empty (add_nodes (keys (unwrap_or set [])) (add_found (v >>= λ o. o) []))))
        ≡ true)
      ↔ (((o : ObjKey) × (v ≡ some (some o)))
          ⊎ ((held : BTreeSet ObjKey) × (m : NodeId) × (set ≡ some held)
              × Among (ObjKey.node m) (keys held)))
found_iff (some (some o)) set = (λ e. inl (o, refl), λ a. refl)
found_iff none set = many_iff none (λ o e. absurd (cc e)) set
found_iff (some none) set = many_iff (some none) (λ o e. absurd (cc e)) set

present_iff :
    (facts : Facts) (n : NodeId) (p : Option FieldId)
    → (present facts n p ≡ true) ↔ ((q : FieldId) × (p ≡ some q) × Carries facts n q)
unfolding present point_one point_many expand
present_iff facts n none = (λ e. absurd (cc e), λ (q, same, c). absurd (cc same))
present_iff facts n (some p) =
    let (into, out) = found_iff (facts.one_value (n, p)) (facts.many_set (n, p)) in
    (λ e. (p, refl, into e), λ (q, same, c). out (subst (Carries facts n) (sym (some_inj same)) c))
  where
    some_inj : {a b : FieldId} → some a ≡ some b → a ≡ b
    some_inj e = cc e

-- The computed list is the one that is described, and the only one.
pub missing_of_iff :
    (facts : Facts) (cat : Catalog) (n : NodeId) (names missing : List Str)
    → (missing ≡ missing_of facts n (resolved cat names)) ↔ Lacks facts cat n names missing
missing_of_iff facts cat n [] missing = (λ e. e, λ e. e)
missing_of_iff facts cat n (name ∷ names) missing =
    let (carries, there) = present_iff facts n (field_id cat name) in
    elim (Bool-cases (present facts n (field_id cat name))) [
      | inl e ↦
          let (into, out) = missing_of_iff facts cat n names missing in
          rw e (
            λ m. inl (carries e, into m),
            λ a. elim a [ inl (c, l) ↦ out l | inr (c, l) ↦ absurd (c (carries e)) ],
          )
      | inr e ↦
          let rest : List Str = missing_of facts n (resolved cat names) in
          rw e (
            λ m. inr (
              λ c. absurd (cc (e, there c)),
              (rest, m, (missing_of_iff facts cat n names rest).0 refl),
            ),
            λ a. elim a [
              | inl (c, l) ↦ absurd (cc (e, there c))
              | inr (c, (ms, m, l)) ↦
                  m ∙ ap (λ y. name ∷ y) ((missing_of_iff facts cat n names ms).1 l)
            ],
          )
    ]
