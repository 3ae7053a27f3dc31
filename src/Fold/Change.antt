-- ===== src/Fold/Change.antt =====
-- crates/stroma-core/src/fold.rs: the state of one key under the operations that `Fold::apply` routes to it.
use stromadb.Base.{◌≡◌, refl, sym, ap, ◌∙◌, Option, none, some, List, [], ◌∷◌}
use stromadb.Base.Tests.{◌>>=◌, unwrap_or}
use stromadb.Base.Map.{
  BTreeMap, BTreeSet, insert, get_or, extend, update_comm, update-update_self, insert-insert_self,
  set_insert,
}
use stromadb.Base.Order.{
  Ord, greater, greater_comm, greater_assoc, greater_self, nat_ord, list_ord, pair_ord,
}
use stromadb.Fold.Keys.{ObjKey, OrderKey, obj_ord, order_ord}
use stromadb.Fold.State.{Version, Rows, OneState, ManyState, KeyState}
use stromadb.Fold.Apply.{
  join_hd, on_one, on_many, with_version, with_element, with_removes, with_floor,
}

-- What an operation does to the state of its key.
pub data Change : Type 0 where
  row : OrderKey → Version → Change
  element : ObjKey → OrderKey → Version → Change
  drop : List OrderKey → Change
  floor : OrderKey → Change

abbrev pub change : Change → KeyState → Option KeyState
change (row ok v) = on_one (with_version ok v)
change (element object ok v) = on_many (with_element object ok v)
change (drop observed) = on_many (with_removes observed)
change (floor ok) = λ st. some (with_floor ok st)

abbrev pub row_of : Change → Option OrderKey
row_of (row ok v) = some ok
row_of (element object ok v) = some ok
row_of _ = none

-- Two changes that write one row are the same change.
abbrev pub Apart : Change → Change → Type 0
Apart x y = (ok : OrderKey) → row_of x ≡ some ok → row_of y ≡ some ok → x ≡ y

join_hd_comm :
    (h : Option OrderKey) (a b : OrderKey)
    → join_hd (join_hd h (some a)) (some b) ≡ join_hd (join_hd h (some b)) (some a)
unfolding join_hd
join_hd_comm none a b = ap some (greater_comm a b)
join_hd_comm (some c) a b =
    ap some (greater_assoc c a b ∙ ap (greater c) (greater_comm a b) ∙ sym (greater_assoc c b a))

join_hd_again :
    (h : Option OrderKey) (a : OrderKey)
    → join_hd (join_hd h (some a)) (some a) ≡ join_hd h (some a)
unfolding join_hd
join_hd_again none a = ap some (greater_self a)
join_hd_again (some c) a = ap some (greater_assoc c a a ∙ ap (greater c) (greater_self a))

module _ {ℓ κ} {K : Type ℓ} {V : Type κ} ⦃o : Ord K⦄ where
  -- writes of equal values, or to different keys, commute
  pub insert_either :
      (k j : K) (v w : V) (m : BTreeMap K V)
      → (k ≡ j → v ≡ w)
      → insert k v (insert j w m) ≡ insert j w (insert k v m)
  insert_either k j v w m h = update_comm k j (λ _. v) (λ _. w) m (λ e _. h e)

module _ {ℓ} {K : Type ℓ} ⦃o : Ord K⦄ where
  set_insert-extend :
      (t : K) (ts : List K) (s : BTreeSet K)
      → extend ts (set_insert t s) ≡ set_insert t (extend ts s)
  unfolding extend
  set_insert-extend t [] s = refl
  set_insert-extend t (u ∷ ts) s =
      ap (extend ts) (insert_either u t tt tt s (λ _. refl))
      ∙ set_insert-extend t ts (set_insert u s)

  extend_comm :
      (ts us : List K) (s : BTreeSet K) → extend ts (extend us s) ≡ extend us (extend ts s)
  unfolding extend
  extend_comm [] us s = refl
  extend_comm (t ∷ ts) us s =
      ap (extend ts) (sym (set_insert-extend t us s)) ∙ extend_comm ts us (set_insert t s)

  extend_again : (ts : List K) (s : BTreeSet K) → extend ts (extend ts s) ≡ extend ts s
  unfolding extend
  extend_again [] s = refl
  extend_again (t ∷ ts) s =
      ap (extend ts) (sym (set_insert-extend t ts (set_insert t s)))
      ∙ extend_again ts (set_insert t (set_insert t s))
      ∙ ap (extend ts) (insert-insert_self t tt tt s)

with_version_comm :
    (a b : OrderKey) (v w : Version) (s : OneState)
    → (a ≡ b → v ≡ w)
    → with_version a v (with_version b w s) ≡ with_version b w (with_version a v s)
with_version_comm a b v w s h = λ i. record s { versions = insert_either a b v w s.versions h i }

with_element_comm :
    (o p : ObjKey) (a b : OrderKey) (v w : Version) (s : ManyState)
    → (o ≡ p → a ≡ b → v ≡ w)
    → with_element o a v (with_element p b w s) ≡ with_element p b w (with_element o a v s)
with_element_comm o p a b v w s h =
    let both : ◌≡◌ {A = BTreeMap ObjKey Rows} _ _ =
      update_comm o p (λ rows. insert a v (unwrap_or rows []))
        (λ rows. insert b w (unwrap_or rows [])) s.elems
        (λ e rows. insert_either a b v w (unwrap_or rows []) (h e)) in
    λ i. record s { elems = both i }

pub change_comm :
    (x y : Change) (st : KeyState)
    → Apart x y
    → (change x st >>= change y) ≡ (change y st >>= change x)
change_comm (row a v) (row b w) (KeyState.one s) h =
    ap (λ (t : OneState). some (KeyState.one t))
      (with_version_comm b a w v s (λ e. cc (h a refl (ap some e))))
change_comm (row a v) (row b w) (KeyState.many s) h = refl
change_comm (element o a v) (element p b w) (KeyState.many s) h =
    ap (λ (t : ManyState). some (KeyState.many t))
      (with_element_comm p o b a w v s (λ d e. cc (h a refl (ap some e))))
change_comm (element o a v) (element p b w) (KeyState.one s) h = refl
change_comm (drop ts) (drop us) (KeyState.many s) h =
    λ i. some (KeyState.many (record s { removes = extend_comm us ts s.removes i }))
change_comm (drop ts) (drop us) (KeyState.one s) h = refl
change_comm (floor a) (floor b) (KeyState.one s) h =
    λ i. some (KeyState.one (record s { hd = join_hd_comm s.hd a b i }))
change_comm (floor a) (floor b) (KeyState.many s) h =
    λ i. some (KeyState.many (record s { hd = join_hd_comm s.hd a b i }))
change_comm _ _ (KeyState.one s) h = refl
change_comm _ _ (KeyState.many s) h = refl

-- A change that is made twice is made once.
pub change_again : (x : Change) (st : KeyState) → (change x st >>= change x) ≡ change x st
change_again (row a v) (KeyState.one s) =
    λ i. some (KeyState.one (record s { versions = insert-insert_self a v v s.versions i }))
change_again (element o a v) (KeyState.many s) =
    let again : ◌≡◌ {A = BTreeMap ObjKey Rows} _ _ =
      update-update_self o (λ rows. insert a v (unwrap_or rows []))
        (λ rows. insert a v (unwrap_or rows [])) s.elems
      ∙ ap (λ rows. insert o rows s.elems) (insert-insert_self a v v (get_or [] o s.elems)) in
    λ i. some (KeyState.many (record s { elems = again i }))
change_again (drop ts) (KeyState.many s) =
    λ i. some (KeyState.many (record s { removes = extend_again ts s.removes i }))
change_again (floor a) (KeyState.one s) =
    λ i. some (KeyState.one (record s { hd = join_hd_again s.hd a i }))
change_again (floor a) (KeyState.many s) =
    λ i. some (KeyState.many (record s { hd = join_hd_again s.hd a i }))
change_again (row a v) (KeyState.many s) = refl
change_again (element o a v) (KeyState.one s) = refl
change_again (drop ts) (KeyState.one s) = refl
