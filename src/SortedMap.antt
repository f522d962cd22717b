-- ===== src/SortedMap.antt =====
-- What the program uses of `std::map` and `std::set`: the entries in the order of their keys.
pub mod Laws
pub mod Extensional
use rasync.Prelude.{ℕ, Bool, true, false, not, ◌&&◌, ◌≡◌, List, [], ◌∷◌, Option, none, some}
use rasync.Prelude.{if◌then◌else◌}
use rasync.Prelude.Order.{StrictOrder}

abbrev pub Map {ℓ κ} : Type ℓ → Type κ → Type (ℓ ⊔ κ)
Map K V = List (K × V)

module _ {ℓ} {K : Type ℓ} ⦃o : StrictOrder K⦄ where
  -- The key comparison of a map: neither is less.
  abbrev pub same : K → K → Bool
  same a b = not (o.lt a b) && not (o.lt b a)

module _ {ℓ κ} {K : Type ℓ} {V : Type κ} ⦃o : StrictOrder K⦄ where
  -- `m[k] = v`
  unfoldable pub set : K → V → Map K V → Map K V
  set k v [] = (k, v) ∷ []
  set k v ((j, w) ∷ m) =
      if o.lt k j then (k, v) ∷ (j, w) ∷ m else if o.lt j k then (j, w) ∷ set k v m else (j, v) ∷ m

  -- `m.emplace(k, v)`, which keeps a value that is there.
  unfoldable pub emplace : K → V → Map K V → Map K V
  emplace k v [] = (k, v) ∷ []
  emplace k v ((j, w) ∷ m) =
      if o.lt k j
      then (k, v) ∷ (j, w) ∷ m
      else if o.lt j k
      then (j, w) ∷ emplace k v m
      else (j, w) ∷ m

  -- `m.erase(k)`
  unfoldable pub erase : K → Map K V → Map K V
  erase k [] = []
  erase k ((j, w) ∷ m) = if o.lt k j then (j, w) ∷ m else if o.lt j k then (j, w) ∷ erase k m else m

  -- `m.find(k)`
  unfoldable pub find : K → Map K V → Option V
  find k [] = none
  find k ((j, w) ∷ m) = if o.lt k j then none else if o.lt j k then find k m else some w

  -- Every key lies above `k`.
  abbrev pub Above : K → Map K V → Type 0
  Above k [] = Unit {0}
  Above k ((j, w) ∷ m) = (o.lt k j ≡ true) × Above k m

  -- The invariant of `std::map`.
  abbrev pub IsSorted : Map K V → Type 0
  IsSorted [] = Unit {0}
  IsSorted ((k, v) ∷ m) = Above k m × IsSorted m
