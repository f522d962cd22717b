-- ===== src/SortedMap/Extensional.antt =====
-- Two sorted maps that answer every `find` alike are equal.
use rasync.Prelude.{◌≡◌, refl, arith, [], ◌∷◌, none, some}
use rasync.Prelude.{subst}
use rasync.Prelude.Order.{StrictOrder, lt_asymm}
use rasync.SortedMap.{Map, find, IsSorted}
use rasync.SortedMap.Laws.{Above-trans, find-Above}

module _ {ℓ κ} {K : Type ℓ} {V : Type κ} ⦃o : StrictOrder K⦄ where
  abbrev SameFind : Map K V → Map K V → Type (ℓ ⊔ κ)
  SameFind m n = (k : K) → find k m ≡ find k n

  find_head : (k : K) (v : V) (m : Map K V) → find k ((k, v) ∷ m) ≡ some v
  unfolding find
  find_head k v m = ground (arith, o.irrefl k)

  find_nil : (k : K) → find {V = V} k [] ≡ none
  unfolding find
  find_nil k = refl

  -- The first keys agree, since each is found in the other map.
  heads :
      (j k : K) (v w : V) (m n : Map K V)
      → IsSorted ((j, v) ∷ m)
      → IsSorted ((k, w) ∷ n)
      → SameFind ((j, v) ∷ m) ((k, w) ∷ n)
      → j ≡ k
  unfolding find
  heads j k v w m n s t h =
      o.tri j k (ground (arith, h j, find_head j v m)) (ground (arith, h k, find_head k w n))

  tails :
      (k : K) (v w : V) (m n : Map K V)
      → IsSorted ((k, v) ∷ m)
      → IsSorted ((k, w) ∷ n)
      → SameFind ((k, v) ∷ m) ((k, w) ∷ n)
      → SameFind m n
  unfolding find
  tails k v w m n s t h i = ground (
    arith,
    h i,
    lt_asymm k i,
    o.tri i k,
    find-Above i m,
    find-Above i n,
    Above-trans i k m,
    Above-trans i k n,
  )

  equal_heads :
      (j k : K) (v w : V) (m n : Map K V)
      → j ≡ k
      → IsSorted ((j, v) ∷ m)
      → IsSorted ((k, w) ∷ n)
      → SameFind ((j, v) ∷ m) ((k, w) ∷ n)
      → (IsSorted n → SameFind m n → m ≡ n)
      → (j, v) ∷ m ≡ (k, w) ∷ n
  equal_heads j k v w m n e s t h rec =
      let s' : IsSorted ((k, v) ∷ m) = subst (λ x. IsSorted ((x, v) ∷ m)) e s in
      let h' : SameFind ((k, v) ∷ m) ((k, w) ∷ n) =
        subst (λ x. SameFind ((x, v) ∷ m) ((k, w) ∷ n)) e h in
      let p : m ≡ n = rec t.1 (tails k v w m n s' t h') in
      cc (e, p, h' k, find_head k v m, find_head k w n)

  pub eq_of_find : (m n : Map K V) → IsSorted m → IsSorted n → SameFind m n → m ≡ n
  eq_of_find [] [] s t h = refl
  eq_of_find [] ((k, w) ∷ n) s t h = cc (h k, find_head k w n, find_nil k)
  eq_of_find ((j, v) ∷ m) [] s t h = cc (h j, find_head j v m, find_nil j)
  eq_of_find ((j, v) ∷ m) ((k, w) ∷ n) s t h =
      let e : j ≡ k = heads j k v w m n s t h in
      equal_heads j k v w m n e s t h (λ t' h'. eq_of_find m n s.1 t' h')
