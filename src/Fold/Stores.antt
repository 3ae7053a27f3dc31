-- ===== src/Fold/Stores.antt =====
-- crates/stroma-core/src/fold.rs: the steps of the four stores commute, and can be made again.
use stromadb.Base.{◌≡◌, ◌≢◌, refl, sym, ap, ◌∙◌, Option, none, some, [], inl, inr, arith}
use mathlib.Core.Path.{subst}
use stromadb.Base.Tests.{◌>>=◌, map_option, unwrap_or, Bool-cases, Option-cases}
use stromadb.Base.Map.{
  BTreeMap, get, insert, get_or, update_comm, update-update_self, insert_comm, insert-insert_self,
  get-insert_self, get-insert_ne,
}
use stromadb.Base.Order.{
  is_eq, is_eq→eq, is_eq_refl, newer_comm, newer_again, nat_ord, list_ord, pair_ord,
}
use stromadb.Fact.{FieldId, NodeId, Str}
use stromadb.Catalog.{Cardinality}
use stromadb.Fold.Keys.{ObjKey, OrderKey, obj_ord, order_ord}
use stromadb.Fold.State.{
  Key, Label, KeyState, new_state, PropReg, NodeAttrState, no_attrs, EdgeProps,
}
use stromadb.Fold.Apply.{on_key, newer_attr}
use stromadb.Fold.Change.{Change, change, Apart, change_comm, change_again, insert_either}
use stromadb.Fold.Parts.{
  keys_step, prop_step, AttrChange, attr_change, attr_step, set_reg, set_prop, set_edge, set_attr,
  label_step, LabelStore,
}

module _ (k : Key) (c : Cardinality) where
  on_key_twice :
      (f g : KeyState → Option KeyState) (m : BTreeMap Key KeyState)
      → (on_key k c f m >>= on_key k c g)
        ≡ map_option (λ st. insert k st m) (f (get_or (new_state c) k m) >>= g)
  on_key_twice f g m = elim (Option-cases (f (get_or (new_state c) k m))) [
    | inl e ↦ rw e refl
    | inr (st, e) ↦ rw e (
        rw get-insert_self (elim (Option-cases (g st)) [
          | inl n ↦ rw n refl
          | inr (u, n) ↦ rw n (ap some (insert-insert_self k u st m))
        ]))
  ]

on_key_comm_ne :
    (k j : Key) (c d : Cardinality) (f g : KeyState → Option KeyState) (m : BTreeMap Key KeyState)
    → k ≢ j
    → (on_key k c f m >>= on_key j d g) ≡ (on_key j d g m >>= on_key k c f)
on_key_comm_ne k j c d f g m n = elim (Option-cases (f (get_or (new_state c) k m))) [
  | inl e ↦ elim (Option-cases (g (get_or (new_state d) j m))) [
    | inl e' ↦ rw (e, e') refl
    | inr (u, e') ↦ rw (e, e') (rw (get-insert_ne k j u m (λ p. n (sym p))) (rw e refl))
  ]
  | inr (st, e) ↦ elim (Option-cases (g (get_or (new_state d) j m))) [
    | inl e' ↦ rw (e, e') (rw (get-insert_ne j k st m n) (rw e' refl))
    | inr (u, e') ↦
        rw (e, e')
          (rw (get-insert_ne j k st m n, get-insert_ne k j u m (λ p. n (sym p)))
            (rw (e, e') (ap some (insert_comm j k u st m (λ p. n (sym p))))))
  ]
]

pub keys_step_comm :
    (x y : Option (Key × Cardinality × Change)) (m : BTreeMap Key KeyState)
    → ((k : Key) (c d : Cardinality) (p q : Change)
        → x ≡ some (k, c, p)
        → y ≡ some (k, d, q)
        → (c ≡ d) × Apart p q)
    → (keys_step x m >>= keys_step y) ≡ (keys_step y m >>= keys_step x)
keys_step_comm none none m h = refl
keys_step_comm none (some (j, d, q)) m h = ground arith
keys_step_comm (some (k, c, p)) none m h = ground arith
keys_step_comm (some (k, c, p)) (some (j, d, q)) m h = elim (Bool-cases (is_eq k j)) [
  | inr e ↦ on_key_comm_ne k j c d (change p) (change q) m (λ r. ground (arith, is_eq_refl k))
  | inl e ↦
      let r : k ≡ j = is_eq→eq k j e in
      let (same, apart) = h k c d p q refl (λ i. some (sym r i, d, q)) in
      subst
        (λ i.
          (on_key k c (change p) m >>= on_key i d (change q))
          ≡ (on_key i d (change q) m >>= on_key k c (change p)))
        r
        (subst
          (λ z.
            (on_key k c (change p) m >>= on_key k z (change q))
            ≡ (on_key k z (change q) m >>= on_key k c (change p)))
          same
          (on_key_twice k c (change p) (change q) m
            ∙ ap (map_option (λ st. insert k st m))
                (change_comm p q (get_or (new_state c) k m) apart)
            ∙ sym (on_key_twice k c (change q) (change p) m)))
]

pub keys_step_again :
    (x : Option (Key × Cardinality × Change)) (m : BTreeMap Key KeyState)
    → (keys_step x m >>= keys_step x) ≡ keys_step x m
keys_step_again none m = refl
keys_step_again (some (k, c, p)) m =
    on_key_twice k c (change p) (change p) m
    ∙ ap (map_option (λ st. insert k st m)) (change_again p (get_or (new_state c) k m))

pub prop_step_comm :
    (x y : Option (Key × ObjKey × Str × PropReg)) (m : BTreeMap Key EdgeProps)
    → ((k j : Key) (o o' : ObjKey) (s s' : Str) (q r : PropReg)
        → x ≡ some (k, o, s, q)
        → y ≡ some (j, o', s', r)
        → q.ok ≡ r.ok
        → q ≡ r)
    → prop_step x (prop_step y m) ≡ prop_step y (prop_step x m)
prop_step_comm none y m h = refl
prop_step_comm (some x) none m h = refl
prop_step_comm (some (k, o, s, q)) (some (j, o', s', r)) m h =
    update_comm k j (set_edge o s q) (set_edge o' s' r) m (λ _ objs.
      (update_comm o o' (set_prop s q) (set_prop s' r) (unwrap_or objs []) (λ _ props.
        (update_comm s s' (set_reg q) (set_reg r) (unwrap_or props [])
          (λ _ reg. newer_comm (λ (z : PropReg). z.ok) q r reg (h k j o o' s s' q r refl refl))))))

newer_attr_comm {ℓ} :
    {A : Type ℓ} (a b : OrderKey) (t u : A) (o : Option (OrderKey × A))
    → (a ≡ b → t ≡ u)
    → newer_attr a t (newer_attr b u o) ≡ newer_attr b u (newer_attr a t o)
unfolding newer_attr
newer_attr_comm {A} a b t u o h =
    ap some (newer_comm (λ (r : OrderKey × A). r.0) (a, t) (b, u) o (λ e i. (e i, h e i)))

newer_attr_again {ℓ} :
    {A : Type ℓ} (a : OrderKey) (t : A) (o : Option (OrderKey × A))
    → newer_attr a t (newer_attr a t o) ≡ newer_attr a t o
unfolding newer_attr
newer_attr_again {A} a t o = ap some (newer_again (λ (r : OrderKey × A). r.0) (a, t) o)

attr_change_comm :
    (x y : AttrChange) (st : NodeAttrState)
    → ((ok : OrderKey) (t u : FieldId) → x ≡ AttrChange.ty ok t → y ≡ AttrChange.ty ok u → t ≡ u)
    → ((ok : OrderKey) (l m : Label)
        → x ≡ AttrChange.label ok l
        → y ≡ AttrChange.label ok m
        → l ≡ m)
    → attr_change x (attr_change y st) ≡ attr_change y (attr_change x st)
attr_change_comm (AttrChange.ty a t) (AttrChange.ty b u) st h g =
    let both = newer_attr_comm a b t u st.ty (λ e. h a t u refl (λ i. AttrChange.ty (sym e i) u)) in
    λ i. record st { ty = both i }
attr_change_comm (AttrChange.label a t) (AttrChange.label b u) st h g =
    let both =
      newer_attr_comm a b t u st.label (λ e. g a t u refl (λ i. AttrChange.label (sym e i) u)) in
    λ i. record st { label = both i }
attr_change_comm (AttrChange.ty a t) (AttrChange.label b u) st h g = refl
attr_change_comm (AttrChange.label a t) (AttrChange.ty b u) st h g = refl

attr_change_again :
    (x : AttrChange) (st : NodeAttrState) → attr_change x (attr_change x st) ≡ attr_change x st
attr_change_again (AttrChange.ty a t) st = λ i. record st { ty = newer_attr_again a t st.ty i }
attr_change_again (AttrChange.label a t) st =
    λ i. record st { label = newer_attr_again a t st.label i }

pub attr_step_comm :
    (x y : Option (NodeId × AttrChange)) (m : BTreeMap NodeId NodeAttrState)
    → ((n o : NodeId) (ok : OrderKey) (t u : FieldId)
        → x ≡ some (n, AttrChange.ty ok t)
        → y ≡ some (o, AttrChange.ty ok u)
        → t ≡ u)
    → ((n o : NodeId) (ok : OrderKey) (t u : Label)
        → x ≡ some (n, AttrChange.label ok t)
        → y ≡ some (o, AttrChange.label ok u)
        → t ≡ u)
    → attr_step x (attr_step y m) ≡ attr_step y (attr_step x m)
attr_step_comm none y m h g = refl
attr_step_comm (some x) none m h g = refl
attr_step_comm (some (n, x)) (some (o, y)) m h g =
    update_comm n o (set_attr x) (set_attr y) m (λ _ st.
      attr_change_comm x y (unwrap_or st no_attrs)
        (λ ok t u p q. h n o ok t u (λ i. some (n, p i)) (λ i. some (o, q i)))
        (λ ok t u p q. g n o ok t u (λ i. some (n, p i)) (λ i. some (o, q i))))

pub label_step_comm :
    (x y : Option (Key × OrderKey × Label)) (m : LabelStore)
    → ((k j : Key) (ok : OrderKey) (l l' : Label)
        → x ≡ some (k, ok, l)
        → y ≡ some (j, ok, l')
        → l ≡ l')
    → label_step x (label_step y m) ≡ label_step y (label_step x m)
label_step_comm none y m h = refl
label_step_comm (some x) none m h = refl
label_step_comm (some (k, a, l)) (some (j, b, l')) m h =
    update_comm k j (λ rows. insert a l (unwrap_or rows []))
      (λ rows. insert b l' (unwrap_or rows [])) m
      (λ _ rows.
        insert_either a b l l' (unwrap_or rows [])
          (λ e. h k j a l l' refl (λ i. some (j, sym e i, l'))))

pub prop_step_again :
    (x : Option (Key × ObjKey × Str × PropReg)) (m : BTreeMap Key EdgeProps)
    → prop_step x (prop_step x m) ≡ prop_step x m
prop_step_again none m = refl
prop_step_again (some (k, o, s, r)) m =
    let reg = newer_again (λ (z : PropReg). z.ok) r in
    update-update_self k (set_edge o s r) (set_edge o s r) m
    ∙ ap (λ objs. insert k objs m)
        (update-update_self o (set_prop s r) (set_prop s r) (get_or [] k m)
          ∙ ap (λ props. insert o props (get_or [] k m))
              (update-update_self s (set_reg r) (set_reg r) (get_or [] o (get_or [] k m))
                ∙ ap (λ q. insert s q (get_or [] o (get_or [] k m)))
                    (reg (get s (get_or [] o (get_or [] k m))))))

pub attr_step_again :
    (x : Option (NodeId × AttrChange)) (m : BTreeMap NodeId NodeAttrState)
    → attr_step x (attr_step x m) ≡ attr_step x m
attr_step_again none m = refl
attr_step_again (some (n, x)) m =
    update-update_self n (set_attr x) (set_attr x) m
    ∙ ap (λ st. insert n st m) (attr_change_again x (get_or no_attrs n m))

pub label_step_again :
    (x : Option (Key × OrderKey × Label)) (m : LabelStore)
    → label_step x (label_step x m) ≡ label_step x m
label_step_again none m = refl
label_step_again (some (k, a, l)) m =
    update-update_self k (λ rows. insert a l (unwrap_or rows []))
      (λ rows. insert a l (unwrap_or rows [])) m
    ∙ ap (λ rows. insert k rows m) (insert-insert_self a l l (get_or [] k m))
