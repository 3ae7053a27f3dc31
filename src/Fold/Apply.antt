-- ===== src/Fold/Apply.antt =====
-- crates/stroma-core/src/fold.rs, `Fold::apply`, `Fold::apply_labeled`, `fold`, `fold_labeled`.
-- `none` is the panic on a key whose state has the other cardinality.
use Prim.Native.Nat.{◌-◌, ◌^◌}
use stromadb.Base.{ℕ, Option, none, some, List, [], ◌∷◌}
use stromadb.Base.Tests.{◌>>=◌, unwrap_or, map_option}
use stromadb.Base.Map.{BTreeMap, insert, get_or, extend, update}
use stromadb.Base.Order.{newer, greater, nat_ord, list_ord, pair_ord}
use stromadb.Fact.{NodeId, Fact}
use stromadb.Catalog.{Cardinality, Catalog, predicate}
use stromadb.Fold.Keys.{ObjKey, OrderKey, of_object, obj_ord, order_ord}
use stromadb.Fold.State.{
  Key, Label, Op, Version, OneState, ManyState, KeyState, new_state, PropReg, no_attrs, Fold,
  empty_fold,
}

-- `Option::max`: `None` is below every order key.
unfoldable pub join_hd : Option OrderKey → Option OrderKey → Option OrderKey
join_hd none b = b
join_hd (some a) none = some a
join_hd (some a) (some b) = some (greater a b)

-- `st.entry(k).or_insert_with(new)`, then the change of the arm, which may panic.
abbrev pub on_key :
    Key
    → Cardinality
    → (KeyState → Option KeyState)
    → BTreeMap Key KeyState
    → Option (BTreeMap Key KeyState)
on_key k c f m = map_option (λ st. insert k st m) (f (get_or (new_state c) k m))

abbrev pub on_one : (OneState → OneState) → KeyState → Option KeyState
on_one f (KeyState.one s) = some (KeyState.one (f s))
on_one f (KeyState.many s) = none

abbrev pub on_many : (ManyState → ManyState) → KeyState → Option KeyState
on_many f (KeyState.one s) = none
on_many f (KeyState.many s) = some (KeyState.many (f s))

abbrev pub with_version : OrderKey → Version → OneState → OneState
with_version ok v s = record s { versions = insert ok v s.versions }

abbrev pub with_element : ObjKey → OrderKey → Version → ManyState → ManyState
with_element object ok v s = record s {
  elems = insert object (insert ok v (get_or [] object s.elems)) s.elems;
}

abbrev pub with_removes : List OrderKey → ManyState → ManyState
with_removes observed s = record s { removes = extend observed s.removes }

abbrev pub with_floor : OrderKey → KeyState → KeyState
with_floor ok (KeyState.one s) = KeyState.one (record s { hd = join_hd s.hd (some ok) })
with_floor ok (KeyState.many s) = KeyState.many (record s { hd = join_hd s.hd (some ok) })

-- The register of one property: the greater order key stays, the older write on a tie.
unfoldable pub newer_prop : PropReg → Option PropReg → PropReg
newer_prop = newer (λ r. r.ok)

-- `st.ty.is_none_or(|(cur, _)| *ok > cur)`, and the same for the label.
unfoldable pub newer_attr {ℓ} :
    {A : Type ℓ} → OrderKey → A → Option (OrderKey × A) → Option (OrderKey × A)
newer_attr ok a cur = some (newer (λ r. r.0) (ok, a) cur)

abbrev pub in_keys : Fold → Option (BTreeMap Key KeyState) → Option Fold
in_keys f = map_option (λ ks. record f { keys = ks })

unfoldable pub apply : Op → Fold → Option Fold
unfolding join_hd newer_prop newer_attr
apply (Op.set_one s p object valid_from valid_to ok) f =
    let v : Version = record {
      object = some object;
      valid_from = valid_from;
      valid_to = valid_to;
    } in
    in_keys f (on_key (s, p) Cardinality.one (on_one (with_version ok v)) f.keys)
apply (Op.close_one s p valid_from ok) f =
    let v : Version = record { object = none; valid_from = valid_from; valid_to = none } in
    in_keys f (on_key (s, p) Cardinality.one (on_one (with_version ok v)) f.keys)
apply (Op.add_many s p object valid_from valid_to ok) f =
    let v : Version = record {
      object = some object;
      valid_from = valid_from;
      valid_to = valid_to;
    } in
    in_keys f (on_key (s, p) Cardinality.many (on_many (with_element object ok v)) f.keys)
apply (Op.close_many s p object valid_from ok) f =
    let v : Version = record { object = none; valid_from = valid_from; valid_to = none } in
    in_keys f (on_key (s, p) Cardinality.many (on_many (with_element object ok v)) f.keys)
apply (Op.remove_many s p observed) f =
    in_keys f (on_key (s, p) Cardinality.many (on_many (with_removes observed)) f.keys)
apply (Op.hard_delete s p ok cardinality) f =
    in_keys f (on_key (s, p) cardinality (λ st. some (with_floor ok st)) f.keys)
apply (Op.set_edge_prop s p object key value ok) f =
    let r : PropReg = record { value = value; ok = ok } in
    some (record f {
      edge_props =
          update (s, p)
            (λ objs.
              update object (λ props. update key (newer_prop r) (unwrap_or props []))
                (unwrap_or objs []))
            f.edge_props;
    })
apply (Op.set_node_type n type_id ok) f =
    let st = get_or no_attrs n f.node_attrs in
    some (record f {
      node_attrs = insert n (record st { ty = newer_attr ok type_id st.ty }) f.node_attrs;
    })
apply (Op.set_node_label n label ok) f =
    let st = get_or no_attrs n f.node_attrs in
    some (record f {
      node_attrs = insert n (record st { label = newer_attr ok label st.label }) f.node_attrs;
    })

-- `Op::key`; a node attribute has the sentinel predicate `FieldId::MAX`.
unfoldable pub op_key : Op → Key
op_key (Op.set_one s p _ _ _ _) = (s, p)
op_key (Op.close_one s p _ _) = (s, p)
op_key (Op.add_many s p _ _ _ _) = (s, p)
op_key (Op.close_many s p _ _ _) = (s, p)
op_key (Op.remove_many s p _) = (s, p)
op_key (Op.hard_delete s p _ _) = (s, p)
op_key (Op.set_edge_prop s p _ _ _ _) = (s, p)
op_key (Op.set_node_type n _ _) = (n, 2 ^ 32 - 1)
op_key (Op.set_node_label n _ _) = (n, 2 ^ 32 - 1)

-- `Op::node_attr_node`
unfoldable pub node_attr_node : Op → Option NodeId
node_attr_node (Op.set_node_type n _ _) = some n
node_attr_node (Op.set_node_label n _ _) = some n
node_attr_node _ = none

-- The order key of the row that the operation writes, if it writes one.
unfoldable pub row_key : Op → Option OrderKey
row_key (Op.set_one _ _ _ _ _ ok) = some ok
row_key (Op.close_one _ _ _ ok) = some ok
row_key (Op.add_many _ _ _ _ _ ok) = some ok
row_key (Op.close_many _ _ _ _ ok) = some ok
row_key _ = none

abbrev pub label_row :
    Key
    → OrderKey
    → Label
    → BTreeMap Key (BTreeMap OrderKey Label)
    → BTreeMap Key (BTreeMap OrderKey Label)
label_row k ok l m = insert k (insert ok l (get_or [] k m)) m

-- What `apply_labeled` does after `apply`.
abbrev pub record_label :
    Op
    → Option Label
    → BTreeMap Key (BTreeMap OrderKey Label)
    → BTreeMap Key (BTreeMap OrderKey Label)
record_label op none m = m
record_label op (some l) m = elim (row_key op) [ none ↦ m | some ok ↦ label_row (op_key op) ok l m ]

unfoldable pub apply_labeled : Op → Option Label → Fold → Option Fold
unfolding apply op_key row_key
apply_labeled op label f = do
  f' ← apply op f
  some (record f' { fact_labels = record_label op label f'.fact_labels })

unfoldable pub fold_from : Fold → List Op → Option Fold
unfolding apply
fold_from f [] = some f
fold_from f (op ∷ ops) = do f' ← apply op f; fold_from f' ops

-- `fold`
unfoldable pub fold : List Op → Option Fold
unfolding fold_from
fold = fold_from empty_fold

unfoldable pub fold_labeled_from : Fold → List (Op × Option Label) → Option Fold
unfolding apply_labeled
fold_labeled_from f [] = some f
fold_labeled_from f ((op, label) ∷ ops) = do f' ← apply_labeled op label f; fold_labeled_from f' ops

-- `fold_labeled`
unfoldable pub fold_labeled : List (Op × Option Label) → Option Fold
unfolding fold_labeled_from
fold_labeled = fold_labeled_from empty_fold

-- `Op::assert_from`
unfoldable pub assert_from : Catalog → Fact → ℕ → Option Op
unfolding of_object predicate
assert_from c fact seq = do
  pred ← predicate c fact.predicate
  let ok : OrderKey = record {
    tx = fact.transaction_time;
    source = fact.provenance.source;
    seq = seq;
  }
  let object = of_object fact.object
  some (elim pred.cardinality [
    | Cardinality.one ↦
        Op.set_one fact.subject fact.predicate object fact.valid_time.from fact.valid_time.to ok
    | Cardinality.many ↦
        Op.add_many fact.subject fact.predicate object fact.valid_time.from fact.valid_time.to ok
  ])
