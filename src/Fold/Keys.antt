-- ===== src/Fold/Keys.antt =====
-- crates/stroma-core/src/fold.rs, `ObjKey` and `OrderKey`: the identities that key the folded state.
use Prim.Native.Nat.{Ordering}
use stromadb.Base.{ℕ, ◌≡◌, Bool, true, false, List, [], arith}
use stromadb.Base.Int.{ℤ, pos}
use stromadb.Base.Order.{
  Ord, IsTotalOrder, by_code-IsTotalOrder, pair_ord, nat_ord, int_ord, list_ord,
}
use stromadb.Fact.{FieldId, NodeId, Str, Value, Object}

pub data ObjKey : Type 0 where
  node : NodeId → ObjKey
  int : ℤ → ObjKey
  float : ℕ → ObjKey
  text : Str → ObjKey
  boolean : Bool → ObjKey

-- `ObjKey::of`
unfoldable pub of_object : Object → ObjKey
of_object (Object.node n) = node n
of_object (Object.value (Value.int i)) = int i
of_object (Object.value (Value.float b)) = float b
of_object (Object.value (Value.text t)) = text t
of_object (Object.value (Value.boolean b)) = boolean b

pub record OrderKey : Type 0 where
  pub tx : ℕ
  pub source : FieldId
  pub seq : ℕ

-- The derived order: by variant, then by payload. The code of a key is the pair of both.
abbrev pub ObjCode : Type 0
ObjCode = ℕ × (ℤ × List ℕ)

abbrev pub bit : Bool → ℕ
bit true = 1
bit false = 0

abbrev pub obj_code : ObjKey → ObjCode
obj_code (node n) = (0, (pos n, []))
obj_code (int i) = (1, (i, []))
obj_code (float b) = (2, (pos b, []))
obj_code (text t) = (3, (pos 0, t))
obj_code (boolean b) = (4, (pos (bit b), []))

obj_code_injective : (a b : ObjKey) → obj_code a ≡ obj_code b → a ≡ b
obj_code_injective (node n) b h = ground arith
obj_code_injective (int i) b h = ground arith
obj_code_injective (float f) b h = ground arith
obj_code_injective (text t) b h = ground arith
obj_code_injective (boolean b') b h = ground arith

abbrev pub cmp_obj : ObjKey → ObjKey → Ordering
cmp_obj a b = (pair_ord {A = ℕ} {B = ℤ × List ℕ}).cmp (obj_code a) (obj_code b)

pub cmp_obj-IsTotalOrder : IsTotalOrder cmp_obj
cmp_obj-IsTotalOrder = by_code-IsTotalOrder obj_code obj_code_injective

instance abbrev pub obj_ord : Ord ObjKey
obj_ord = record { cmp = cmp_obj; laws = cmp_obj-IsTotalOrder }

-- The derived order of the three fields.
abbrev pub order_code : OrderKey → ℕ × (ℕ × ℕ)
order_code k = (k.tx, (k.source, k.seq))

order_code_injective : (a b : OrderKey) → order_code a ≡ order_code b → a ≡ b
order_code_injective a b h = ground arith

abbrev pub cmp_order : OrderKey → OrderKey → Ordering
cmp_order a b = (pair_ord {A = ℕ} {B = ℕ × ℕ}).cmp (order_code a) (order_code b)

pub cmp_order-IsTotalOrder : IsTotalOrder cmp_order
cmp_order-IsTotalOrder = by_code-IsTotalOrder order_code order_code_injective

instance abbrev pub order_ord : Ord OrderKey
order_ord = record { cmp = cmp_order; laws = cmp_order-IsTotalOrder }
