-- ===== src/Fold/Refresh/Touched.antt =====
-- crates/stroma-core/src/fold.rs, `Fold::apply_labeled`: what an operation leaves as it was, by
-- `Op::key` and `Op::node_attr_node`.
use mathlib.Core.Path.{subst}
use mathlib.Core.Option.{some-injective}
use stromadb.Base.{◌≡◌, ◌≢◌, refl, sym, ap, ◌∙◌, arith, true, Option, none, some, ◌⊎◌, inl, inr}
use stromadb.Base.Tests.{map_option, is_some, Option-cases}
use stromadb.Base.Map.{BTreeMap, get, insert, get_or, get-insert_ne}
use stromadb.Base.Order.{nat_ord, list_ord, pair_ord}
use stromadb.Catalog.{Cardinality}
use stromadb.Fact.{NodeId, Str}
use stromadb.Fold.Keys.{ObjKey, OrderKey, obj_ord, order_ord}
use stromadb.Fold.State.{
  Key, Label, Op, KeyState, NodeAttrState, EdgeProps, PropReg, Fold, new_state,
}
use stromadb.Fold.Apply.{apply_labeled, op_key, node_attr_node}
use stromadb.Fold.Change.{Change, change}
use stromadb.Fold.Parts.{
  Write, LabelStore, AttrChange, change_of, keys_step, prop_of, prop_step, attr_of, attr_step,
  label_of, label_step, stepped, apply_labeled_parts,
}
use stromadb.Fold.Refresh.Observed.{SameAt}

-- The operation is one on a node, or on another key.
abbrev pub SparesKey : Op → Key → Type 0
SparesKey op j = (is_some (node_attr_node op) ≡ true) ⊎ (op_key op ≢ j)

-- The operation is one on a key, or on another node.
abbrev pub SparesNode : Op → NodeId → Type 0
SparesNode op n = (m : NodeId) → node_attr_node op ≡ some m → m ≢ n

change_of-spares :
    (op : Op) (j k : Key) (c : Cardinality) (x : Change)
    → SparesKey op j
    → change_of op ≡ some (k, c, x)
    → k ≢ j
unfolding op_key node_attr_node
change_of-spares op j k c x s e = ground arith

prop_of-spares :
    (op : Op) (j k : Key) (object : ObjKey) (name : Str) (r : PropReg)
    → SparesKey op j
    → prop_of op ≡ some (k, object, name, r)
    → k ≢ j
unfolding op_key node_attr_node
prop_of-spares op j k object name r s e = ground arith

label_of-spares :
    (w : Write) (j k : Key) (ok : OrderKey) (l : Label)
    → SparesKey w.0 j
    → label_of w ≡ some (k, ok, l)
    → k ≢ j
unfolding op_key node_attr_node
label_of-spares w j k ok l s e = ground arith

attr_of-node :
    (op : Op) (n : NodeId) (x : AttrChange) → attr_of op ≡ some (n, x) → node_attr_node op ≡ some n
unfolding node_attr_node
attr_of-node op n x e = ground arith

keys_step-away :
    (c : Option (Key × Cardinality × Change)) (m ks : BTreeMap Key KeyState) (j : Key)
    → ((k : Key) (d : Cardinality) (x : Change) → c ≡ some (k, d, x) → k ≢ j)
    → keys_step c m ≡ some ks
    → get j m ≡ get j ks
keys_step-away none m ks j away e = ap (get j) (some-injective _ _ e)
keys_step-away (some (k, d, x)) m ks j away e =
    elim (Option-cases (change x (get_or (new_state d) k m))) [
      | inl panics ↦ absurd (cc (e, ap (map_option (λ st. insert k st m)) panics))
      | inr (st, made) ↦
          sym (get-insert_ne j k st m (away k d x refl))
          ∙ ap (get j) (some-injective _ _ (ap (map_option (λ st. insert k st m)) (sym made) ∙ e))
    ]

prop_step-away :
    (c : Option (Key × ObjKey × Str × PropReg)) (m : BTreeMap Key EdgeProps) (j : Key)
    → ((k : Key) (object : ObjKey) (name : Str) (r : PropReg)
        → c ≡ some (k, object, name, r)
        → k ≢ j)
    → get j m ≡ get j (prop_step c m)
prop_step-away none m j away = refl
prop_step-away (some (k, object, name, r)) m j away =
    sym (get-insert_ne j k _ m (away k object name r refl))

label_step-away :
    (c : Option (Key × OrderKey × Label)) (m : LabelStore) (j : Key)
    → ((k : Key) (ok : OrderKey) (l : Label) → c ≡ some (k, ok, l) → k ≢ j)
    → get j m ≡ get j (label_step c m)
label_step-away none m j away = refl
label_step-away (some (k, ok, l)) m j away = sym (get-insert_ne j k _ m (away k ok l refl))

attr_step-away :
    (c : Option (NodeId × AttrChange)) (m : BTreeMap NodeId NodeAttrState) (n : NodeId)
    → ((k : NodeId) (x : AttrChange) → c ≡ some (k, x) → k ≢ n)
    → get n m ≡ get n (attr_step c m)
attr_step-away none m n away = refl
attr_step-away (some (k, x)) m n away = sym (get-insert_ne n k _ m (away k x refl))

-- An operation that is applied is the change of the four stores.
pub applied-stepped :
    (w : Write) (f g : Fold)
    → apply_labeled w.0 w.1 f ≡ some g
    → (ks : BTreeMap Key KeyState) × (keys_step (change_of w.0) f.keys ≡ some ks)
      × (stepped w f ks ≡ g)
applied-stepped w f g e = elim (Option-cases (keys_step (change_of w.0) f.keys)) [
  | inl panics ↦ absurd (cc (apply_labeled_parts w f, ap (map_option (stepped w f)) panics, e))
  | inr (ks, made) ↦ (
    ks,
    made,
    some-injective _ _
        (ap (map_option (stepped w f)) (sym made) ∙ sym (apply_labeled_parts w f) ∙ e),
  )
]

pub apply_labeled-SameAt :
    (w : Write) (f g : Fold) (j : Key)
    → apply_labeled w.0 w.1 f ≡ some g
    → SparesKey w.0 j
    → SameAt f g j
apply_labeled-SameAt w f g j e s =
    let (ks, made, is_g) = applied-stepped w f g e in
    subst (λ h. SameAt f h j) is_g
      (record {
        keys =
            keys_step-away (change_of w.0) f.keys ks j (λ k d x. change_of-spares w.0 j k d x s)
              made;
        edge_props =
            prop_step-away (prop_of w.0) f.edge_props j
              (λ k object name r. prop_of-spares w.0 j k object name r s);
        fact_labels =
            label_step-away (label_of w) f.fact_labels j (λ k ok l. label_of-spares w j k ok l s);
      })

pub apply_labeled-node_attrs :
    (w : Write) (f g : Fold) (n : NodeId)
    → apply_labeled w.0 w.1 f ≡ some g
    → SparesNode w.0 n
    → get n f.node_attrs ≡ get n g.node_attrs
apply_labeled-node_attrs w f g n e s =
    let (ks, made, is_g) = applied-stepped w f g e in
    attr_step-away (attr_of w.0) f.node_attrs n (λ m x p. s m (attr_of-node w.0 m x p))
    ∙ ap (λ (h : Fold). get n h.node_attrs) is_g
