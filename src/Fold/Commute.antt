-- ===== src/Fold/Commute.antt =====
-- crates/stroma-core/src/fold.rs, `Fold::apply_labeled`: writes commute, and a write that is
-- delivered again changes nothing.
use stromadb.Base.{◌≡◌, refl, sym, ap, ◌∙◌, some, inl, inr, arith}
use stromadb.Base.Tests.{◌>>=◌, map_option, Option-cases}
use stromadb.Base.Map.{BTreeMap}
use stromadb.Base.Order.{nat_ord, list_ord, pair_ord}
use stromadb.Fact.{NodeId, Str}
use stromadb.Catalog.{Cardinality}
use stromadb.Fold.Keys.{ObjKey, OrderKey, obj_ord, order_ord}
use stromadb.Fold.State.{Key, Label, Op, KeyState, PropReg, Fold}
use stromadb.Fold.Apply.{apply_labeled}
use stromadb.Fold.Change.{Change, row_of, Apart}
use stromadb.Fold.Parts.{
  Write, declares, order_key, change_of, keys_step, prop_of, prop_step, AttrChange, attr_of,
  attr_key, attr_step, label_of, label_step, stepped, apply_labeled_parts,
}
use stromadb.Fold.Stores.{
  keys_step_comm, keys_step_again, prop_step_comm, prop_step_again, attr_step_comm, attr_step_again,
  label_step_comm, label_step_again,
}

-- What the write engine guarantees of two writes: one cardinality for a key, and no order key
-- that two different writes share.
pub record Compatible (a b : Write) : Type 0 where
  pub one_cardinality :
      (k : Key) (c d : Cardinality)
      → declares a.0 ≡ some (k, c)
      → declares b.0 ≡ some (k, d)
      → c ≡ d
  pub unique : (ok : OrderKey) → order_key a.0 ≡ some ok → order_key b.0 ≡ some ok → a ≡ b

pub change_of-declares :
    (op : Op) (k : Key) (c : Cardinality) (p : Change)
    → change_of op ≡ some (k, c, p)
    → declares op ≡ some (k, c)
change_of-declares (Op.set_one s p o vf vt ok) k c q h = ground arith
change_of-declares _ k c q h = ground arith

change_of-order_key :
    (op : Op) (k : Key) (c : Cardinality) (p : Change) (ok : OrderKey)
    → change_of op ≡ some (k, c, p)
    → row_of p ≡ some ok
    → order_key op ≡ some ok
change_of-order_key (Op.set_one s p o vf vt a) k c q ok h r = ground arith
change_of-order_key _ k c q ok h r = ground arith

prop_of-order_key :
    (op : Op) (k : Key) (o : ObjKey) (s : Str) (r : PropReg)
    → prop_of op ≡ some (k, o, s, r)
    → order_key op ≡ some r.ok
prop_of-order_key (Op.set_edge_prop s p o key v ok) k o' s' r h = ground arith
prop_of-order_key _ k o s r h = cc

attr_of-order_key :
    (op : Op) (n : NodeId) (x : AttrChange) (ok : OrderKey)
    → attr_of op ≡ some (n, x)
    → attr_key x ≡ ok
    → order_key op ≡ some ok
attr_of-order_key (Op.set_node_type n t ok) m x a h e = ground arith
attr_of-order_key _ m x a h e = ground arith

label_of-order_key :
    (w : Write) (k : Key) (ok : OrderKey) (l : Label)
    → label_of w ≡ some (k, ok, l)
    → order_key w.0 ≡ some ok
label_of-order_key (Op.set_one s p o vf vt a, some m) k ok l h = ground arith
label_of-order_key (Op.close_one s p vf a, some m) k ok l h = ground arith
label_of-order_key (Op.add_many s p o vf vt a, some m) k ok l h = ground arith
label_of-order_key (Op.close_many s p o vf a, some m) k ok l h = ground arith
label_of-order_key _ k ok l h = cc

-- Both writes, one store at a time.
abbrev stepped_twice : Write → Write → Fold → BTreeMap Key KeyState → Fold
stepped_twice a b f ks = record {
  keys = ks;
  edge_props = prop_step (prop_of b.0) (prop_step (prop_of a.0) f.edge_props);
  node_attrs = attr_step (attr_of b.0) (attr_step (attr_of a.0) f.node_attrs);
  fact_labels = label_step (label_of b) (label_step (label_of a) f.fact_labels);
}

module _ (a b : Write) (f : Fold) where
  two_writes :
      (apply_labeled a.0 a.1 f >>= apply_labeled b.0 b.1)
      ≡ map_option
          (stepped_twice a b f)
          (keys_step (change_of a.0) f.keys >>= keys_step (change_of b.0))
  two_writes =
      rw (apply_labeled_parts a f) (elim (Option-cases (keys_step (change_of a.0) f.keys)) [
        | inl e ↦ rw e refl
        | inr (ks, e) ↦ rw e (apply_labeled_parts b (stepped a f ks))
      ])

module _ {a b : Write} (h : Compatible a b) where
  changes_agree :
      (k : Key) (c d : Cardinality) (p q : Change)
      → change_of a.0 ≡ some (k, c, p)
      → change_of b.0 ≡ some (k, d, q)
      → (c ≡ d) × Apart p q
  changes_agree k c d p q e g = (
    h.one_cardinality k c d (change_of-declares a.0 k c p e) (change_of-declares b.0 k d q g),
    (λ ok r s. cc (
      e,
      g,
      ap (λ (w : Write). change_of w.0)
          (h.unique ok (change_of-order_key a.0 k c p ok e r)
            (change_of-order_key b.0 k d q ok g s)),
    )),
  )

  props_agree :
      (k j : Key) (o o' : ObjKey) (s s' : Str) (q r : PropReg)
      → prop_of a.0 ≡ some (k, o, s, q)
      → prop_of b.0 ≡ some (j, o', s', r)
      → q.ok ≡ r.ok
      → q ≡ r
  props_agree k j o o' s s' q r e g same = cc (
    e,
    g,
    ap (λ (w : Write). prop_of w.0)
        (h.unique q.ok (prop_of-order_key a.0 k o s q e)
          (prop_of-order_key b.0 j o' s' r g ∙ ap some (sym same))),
  )

  attrs_agree :
      (n o : NodeId) (ok : OrderKey) (x y : AttrChange)
      → attr_of a.0 ≡ some (n, x)
      → attr_of b.0 ≡ some (o, y)
      → attr_key x ≡ ok
      → attr_key y ≡ ok
      → x ≡ y
  attrs_agree n o ok x y e g p q = cc (
    e,
    g,
    ap (λ (w : Write). attr_of w.0)
        (h.unique ok (attr_of-order_key a.0 n x ok e p) (attr_of-order_key b.0 o y ok g q)),
  )

  labels_agree :
      (k j : Key) (ok : OrderKey) (l l' : Label)
      → label_of a ≡ some (k, ok, l)
      → label_of b ≡ some (j, ok, l')
      → l ≡ l'
  labels_agree k j ok l l' e g = cc (
    e,
    g,
    ap label_of (h.unique ok (label_of-order_key a k ok l e) (label_of-order_key b j ok l' g)),
  )

-- Two compatible writes leave the same fold in either order, or panic in either order.
pub apply_labeled_comm :
    (a b : Write) (f : Fold)
    → Compatible a b
    → (apply_labeled a.0 a.1 f >>= apply_labeled b.0 b.1)
      ≡ (apply_labeled b.0 b.1 f >>= apply_labeled a.0 a.1)
apply_labeled_comm a b f h =
    two_writes a b f
    ∙ (λ i.
        map_option
          (λ ks. record {
            keys = ks;
            edge_props =
                prop_step_comm (prop_of b.0) (prop_of a.0) f.edge_props
                  (λ k j o o' s s' q r e g same.
                    sym (props_agree h j k o' o s' s r q g e (sym same)))
                  i;
            node_attrs =
                attr_step_comm (attr_of b.0) (attr_of a.0) f.node_attrs
                  (λ n o ok t u e g.
                    cc (
                      attrs_agree h o n ok (AttrChange.ty ok u) (AttrChange.ty ok t) g e refl refl))
                  (λ n o ok t u e g. cc (
                    attrs_agree h o n ok (AttrChange.label ok u) (AttrChange.label ok t) g e refl
                      refl))
                  i;
            fact_labels =
                label_step_comm (label_of b) (label_of a) f.fact_labels
                  (λ k j ok l l' e g. sym (labels_agree h j k ok l' l g e)) i;
          })
          (keys_step_comm (change_of a.0) (change_of b.0) f.keys (changes_agree h) i))
    ∙ sym (two_writes b a f)

-- A write that is delivered twice in a row changes what it changed the first time, and no more.
pub apply_labeled_again :
    (w : Write) (f : Fold)
    → (apply_labeled w.0 w.1 f >>= apply_labeled w.0 w.1) ≡ apply_labeled w.0 w.1 f
apply_labeled_again w f =
    two_writes w w f
    ∙ (λ i.
        map_option
          (λ ks. record {
            keys = ks;
            edge_props = prop_step_again (prop_of w.0) f.edge_props i;
            node_attrs = attr_step_again (attr_of w.0) f.node_attrs i;
            fact_labels = label_step_again (label_of w) f.fact_labels i;
          })
          (keys_step_again (change_of w.0) f.keys i))
    ∙ sym (apply_labeled_parts w f)
