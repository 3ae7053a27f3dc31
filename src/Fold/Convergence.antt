-- ===== src/Fold/Convergence.antt =====
-- crates/stroma-core/src/fold.rs, `fold_labeled`: the fold of a set of writes, whatever their
-- order and however often each of them is delivered.
use mathlib.Core.Path.{fun_ext}
use mathlib.Core.Logic.Or
use mathlib.Core.List.{Mem, mem-cons, mem-cons_self, mem-cons_of_mem, not-mem-nil}
use stromadb.Base.{◌≡◌, ◌↔◌, refl, sym, ap, Option, none, some, List, [], ◌∷◌, ◌≡⟨◌⟩◌, ◌∎}
use stromadb.Base.Tests.{◌>>=◌}
use stromadb.Fold.State.{Fold, empty_fold}
use stromadb.Fold.Apply.{apply_labeled, fold_labeled_from, fold_labeled}
use stromadb.Fold.Parts.{Write}
use stromadb.Fold.Commute.{Compatible, apply_labeled_comm, apply_labeled_again}

abbrev write : Write → Fold → Option Fold
write w f = apply_labeled w.0 w.1 f

abbrev run : List Write → Fold → Option Fold
run ws f = fold_labeled_from f ws

-- Any two of the writes are compatible.
abbrev pub Coherent : List Write → Type 0
Coherent ws = (a b : Write) → Mem a ws → Mem b ws → Compatible a b

>>=-some : (o : Option Fold) → (o >>= some) ≡ o
>>=-some none = refl
>>=-some (some f) = refl

>>=_assoc : (o : Option Fold) (g h : Fold → Option Fold) → (o >>= g >>= h) ≡ (o >>= λ f. g f >>= h)
>>=_assoc none g h = refl
>>=_assoc (some f) g h = refl

Option_Fold-set : IsSet (Option Fold)
Option_Fold-set = hlevel

-- A write that is compatible with all that follow can be made last.
write-run :
    (w : Write) (ws : List Write) (f : Fold)
    → ((b : Write) → Mem b ws → Compatible w b)
    → (write w f >>= run ws) ≡ (run ws f >>= write w)
unfolding fold_labeled_from
write-run w [] f h = >>=-some (write w f)
write-run w (b ∷ ws) f h =
    (write w f >>= λ g. write b g >>= run ws)
    ≡⟨ sym (>>=_assoc (write w f) (write b) (run ws)) ⟩ (write w f >>= write b >>= run ws)
    ≡⟨ ap (λ o. o >>= run ws) (apply_labeled_comm w b f (h b mem-cons_self)) ⟩
      (write b f >>= write w >>= run ws)
    ≡⟨ >>=_assoc (write b f) (write w) (run ws) ⟩ (write b f >>= λ g. write w g >>= run ws)
    ≡⟨ ap (λ k. write b f >>= k)
        (fun_ext (λ g. write-run w ws g (λ c m. h c (mem-cons_of_mem b m)))) ⟩
      (write b f >>= λ g. run ws g >>= write w)
    ≡⟨ sym (>>=_assoc (write b f) (run ws) (write w)) ⟩ (write b f >>= run ws >>= write w) ∎

-- A write that the run has made already changes nothing more.
run-absorb :
    (w : Write) (ws : List Write) (f : Fold)
    → Coherent ws
    → Mem w ws
    → (run ws f >>= write w) ≡ run ws f
unfolding fold_labeled_from
run-absorb w [] f c m = absurd (not-mem-nil m)
run-absorb w (x ∷ ws) f c m =
    Or.elim (Option_Fold-set _ _) (mem-cons.0 m)
      (λ e.
        (write x f >>= run ws >>= write w)
        ≡⟨ ap (λ v. write x f >>= run ws >>= write v) e ⟩ (write x f >>= run ws >>= write x)
        ≡⟨ ap (λ o. o >>= write x) (write-run x ws f later) ⟩ (run ws f >>= write x >>= write x)
        ≡⟨ >>=_assoc (run ws f) (write x) (write x) ⟩ (run ws f >>= λ g. write x g >>= write x)
        ≡⟨ ap (λ k. run ws f >>= k) (fun_ext (apply_labeled_again x)) ⟩ (run ws f >>= write x)
        ≡⟨ sym (write-run x ws f later) ⟩ (write x f >>= run ws) ∎)
      (λ n.
        (write x f >>= run ws >>= write w)
        ≡⟨ >>=_assoc (write x f) (run ws) (write w) ⟩ (write x f >>= λ g. run ws g >>= write w)
        ≡⟨ ap (λ k. write x f >>= k) (fun_ext (λ g. run-absorb w ws g tail_coherent n)) ⟩
          (write x f >>= run ws) ∎)
  where
    later : (b : Write) → Mem b ws → Compatible x b
    later b n = c x b mem-cons_self (mem-cons_of_mem x n)

    tail_coherent : Coherent ws
    tail_coherent a b p q = c a b (mem-cons_of_mem x p) (mem-cons_of_mem x q)

run-absorb_all :
    (ws vs : List Write) (f : Fold)
    → Coherent ws
    → ((v : Write) → Mem v vs → Mem v ws)
    → (run ws f >>= run vs) ≡ run ws f
unfolding fold_labeled_from
run-absorb_all ws [] f c s = >>=-some (run ws f)
run-absorb_all ws (v ∷ vs) f c s =
    (run ws f >>= λ g. write v g >>= run vs)
    ≡⟨ sym (>>=_assoc (run ws f) (write v) (run vs)) ⟩ (run ws f >>= write v >>= run vs)
    ≡⟨ ap (λ o. o >>= run vs) (run-absorb v ws f c (s v mem-cons_self)) ⟩ (run ws f >>= run vs)
    ≡⟨ run-absorb_all ws vs f c (λ u m. s u (mem-cons_of_mem v m)) ⟩ run ws f ∎

run-run_comm :
    (ws vs : List Write) (f : Fold)
    → ((v w : Write) → Mem v vs → Mem w ws → Compatible v w)
    → (run ws f >>= run vs) ≡ (run vs f >>= run ws)
unfolding fold_labeled_from
run-run_comm ws [] f c = >>=-some (run ws f)
run-run_comm ws (v ∷ vs) f c =
    (run ws f >>= λ g. write v g >>= run vs)
    ≡⟨ sym (>>=_assoc (run ws f) (write v) (run vs)) ⟩ (run ws f >>= write v >>= run vs)
    ≡⟨ ap (λ o. o >>= run vs) (sym (write-run v ws f (λ b m. c v b mem-cons_self m))) ⟩
      (write v f >>= run ws >>= run vs)
    ≡⟨ >>=_assoc (write v f) (run ws) (run vs) ⟩ (write v f >>= λ g. run ws g >>= run vs)
    ≡⟨ ap (λ k. write v f >>= k)
        (fun_ext (λ g. run-run_comm ws vs g (λ u w m n. c u w (mem-cons_of_mem v m) n))) ⟩
      (write v f >>= λ g. run vs g >>= run ws)
    ≡⟨ sym (>>=_assoc (write v f) (run vs) (run ws)) ⟩ (write v f >>= run vs >>= run ws) ∎

-- Two streams that hold the same writes fold to the same state, whatever the order of the writes
-- and the number of times that each is delivered, or both panic. The writes of a stream are
-- coherent: a key has one cardinality, and no order key belongs to two different writes.
pub fold_labeled-eq_of_same_writes :
    (xs ys : List Write)
    → Coherent xs
    → ((w : Write) → Mem w xs ↔ Mem w ys)
    → fold_labeled xs ≡ fold_labeled ys
unfolding fold_labeled
fold_labeled-eq_of_same_writes xs ys c same =
    run xs empty_fold
    ≡⟨ sym (run-absorb_all xs ys empty_fold c (λ v m. (same v).1 m)) ⟩
      (run xs empty_fold >>= run ys)
    ≡⟨ run-run_comm xs ys empty_fold (λ v w m n. c v w ((same v).1 m) n) ⟩
      (run ys empty_fold >>= run xs)
    ≡⟨ run-absorb_all ys xs empty_fold ys_coherent (λ v m. (same v).0 m) ⟩ run ys empty_fold ∎
  where
    ys_coherent : Coherent ys
    ys_coherent a b p q = c a b ((same a).1 p) ((same b).1 q)
