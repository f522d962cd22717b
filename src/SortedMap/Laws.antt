-- ===== src/SortedMap/Laws.antt =====
-- The operations keep the order, and each is known by what `find` gives afterwards.
use rasync.Prelude.{◌≡◌, refl, arith, true, false, [], ◌∷◌, none, some}
use rasync.Prelude.{if◌then◌else◌}
use rasync.Prelude.Order.{StrictOrder, lt_asymm}
use mathlib.Core.Option.{get_or}
use rasync.SortedMap.{Map, same, set, emplace, erase, find, Above, IsSorted}

module _ {ℓ} {K : Type ℓ} ⦃o : StrictOrder K⦄ where
  pub same_refl : (k : K) → same k k ≡ true
  same_refl k = ground (arith, o.irrefl k)

  pub same→eq : (j k : K) → same j k ≡ true → j ≡ k
  same→eq j k h = ground (arith, o.tri j k)

module _ {ℓ κ} {K : Type ℓ} {V : Type κ} ⦃o : StrictOrder K⦄ where
  pub Above-trans : (j k : K) (m : Map K V) → o.lt j k ≡ true → Above k m → Above j m
  Above-trans j k [] h a = tt
  Above-trans j k ((i, w) ∷ m) h a = (o.trans j k i h a.0, Above-trans j k m h a.1)

  pub find-Above : (k : K) (m : Map K V) → Above k m → find k m ≡ none
  unfolding find
  find-Above k [] a = refl
  find-Above k ((j, w) ∷ m) a = ground arith

  set-Above : (j k : K) (v : V) (m : Map K V) → o.lt j k ≡ true → Above j m → Above j (set k v m)
  unfolding set
  set-Above j k v [] h a = (h, tt)
  set-Above j k v ((i, w) ∷ m) h a = ground (arith, set-Above j k v m h a.1)

  pub set-IsSorted : (k : K) (v : V) (m : Map K V) → IsSorted m → IsSorted (set k v m)
  unfolding set
  set-IsSorted k v [] s = (tt, tt)
  set-IsSorted k v ((j, w) ∷ m) s =
      ground (arith, set-IsSorted k v m s.1, set-Above j k v m, Above-trans k j m)

  emplace-Above :
      (j k : K) (v : V) (m : Map K V) → o.lt j k ≡ true → Above j m → Above j (emplace k v m)
  unfolding emplace
  emplace-Above j k v [] h a = (h, tt)
  emplace-Above j k v ((i, w) ∷ m) h a = ground (arith, emplace-Above j k v m h a.1)

  pub emplace-IsSorted : (k : K) (v : V) (m : Map K V) → IsSorted m → IsSorted (emplace k v m)
  unfolding emplace
  emplace-IsSorted k v [] s = (tt, tt)
  emplace-IsSorted k v ((j, w) ∷ m) s =
      ground (arith, emplace-IsSorted k v m s.1, emplace-Above j k v m, Above-trans k j m)

  erase-Above : (j k : K) (m : Map K V) → Above j m → Above j (erase k m)
  unfolding erase
  erase-Above j k [] a = tt
  erase-Above j k ((i, w) ∷ m) a = ground (arith, erase-Above j k m a.1)

  pub erase-IsSorted : (k : K) (m : Map K V) → IsSorted m → IsSorted (erase k m)
  unfolding erase
  erase-IsSorted k [] s = tt
  erase-IsSorted k ((j, w) ∷ m) s = ground (arith, erase-IsSorted k m s.1, erase-Above j k m s.0)

  pub find-set :
      (j k : K) (v : V) (m : Map K V)
      → IsSorted m
      → find j (set k v m) ≡ (if same j k then some v else find j m)
  unfolding set find
  find-set j k v [] s = ground arith
  find-set j k v ((i, w) ∷ m) s = ground (
    arith,
    find-set j k v m s.1,
    o.trans j k i,
    o.trans k i j,
    o.trans j i k,
    o.trans i j k,
    o.trans i k j,
    o.trans k j i,
    o.tri j k,
    o.tri i k,
    o.tri i j,
    lt_asymm i j,
    lt_asymm j k,
    lt_asymm k i,
  )

  pub find-emplace :
      (j k : K) (v : V) (m : Map K V)
      → IsSorted m
      → find j (emplace k v m) ≡ (if same j k then some (get_or (find k m) v) else find j m)
  unfolding emplace find
  find-emplace j k v [] s = ground arith
  find-emplace j k v ((i, w) ∷ m) s = ground (
    arith,
    find-emplace j k v m s.1,
    o.trans j k i,
    o.trans k i j,
    o.trans j i k,
    o.trans i j k,
    o.trans i k j,
    o.trans k j i,
    o.tri j k,
    o.tri i k,
    o.tri i j,
    lt_asymm i j,
    lt_asymm j k,
    lt_asymm k i,
  )

  pub find-erase :
      (j k : K) (m : Map K V)
      → IsSorted m
      → find j (erase k m) ≡ (if same j k then none else find j m)
  unfolding erase find
  find-erase j k [] s = ground arith
  find-erase j k ((i, w) ∷ m) s = ground (
    arith,
    find-erase j k m s.1,
    find-Above k m,
    find-Above j m,
    Above-trans j i m,
    o.trans j k i,
    o.trans k i j,
    o.trans j i k,
    o.trans i j k,
    o.trans i k j,
    o.trans k j i,
    o.tri j k,
    o.tri i k,
    o.tri i j,
    lt_asymm i j,
    lt_asymm j k,
    lt_asymm k i,
  )

  pub find_other :
      (i j : K) (v : V) (m : Map K V)
      → same i j ≡ false
      → Above j m
      → find i ((j, v) ∷ m) ≡ find i m
  unfolding find
  find_other i j v m h a = ground (arith, find-Above i m, Above-trans i j m)

  pub find_this : (i j : K) (v : V) (m : Map K V) → same i j ≡ true → find i ((j, v) ∷ m) ≡ some v
  unfolding find
  find_this i j v m h = ground arith
