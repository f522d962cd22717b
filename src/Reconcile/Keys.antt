-- ===== src/Reconcile/Keys.antt =====
-- core/diff.cpp: the set of paths that `reconcile` goes through.
use rasync.Prelude.{◌≡◌, refl, sym, ◌∙◌, arith, Bool, true, false, [], ◌∷◌, Option, none, some}
use mathlib.Core.Option.{get_or}
use rasync.Prelude.{if◌then◌else◌, Bool-cases, inl, inr}
use rasync.Prelude.Order.{bytes_order}
use rasync.Codec.Writer.{Bytes}
use rasync.SortedMap.{same, emplace, find, IsSorted}
use rasync.SortedMap.Laws.{emplace-IsSorted, find-emplace, find_this, find_other}
use rasync.SortedMap.Extensional.{eq_of_find}
use rasync.Manifest.{Manifest}
use rasync.Reconcile.{KeySet, insert_keys, union_keys, is_none}

pub insert_keys-IsSorted :
    (m : Manifest) (keys : KeySet) → IsSorted keys → IsSorted (insert_keys m keys)
unfolding insert_keys
insert_keys-IsSorted [] keys s = s
insert_keys-IsSorted ((path, v) ∷ m) keys s =
    insert_keys-IsSorted m (emplace path tt keys) (emplace-IsSorted path tt keys s)

pub union_keys-IsSorted : (a b c : Manifest) → IsSorted (union_keys a b c)
unfolding union_keys
union_keys-IsSorted a b c =
    insert_keys-IsSorted c (insert_keys b (insert_keys a []))
      (insert_keys-IsSorted b (insert_keys a []) (insert_keys-IsSorted a [] tt))

abbrev pub member : Bytes → Manifest → Option (Unit {0}) → Option (Unit {0})
member k m rest = if is_none (find k m) then rest else some tt

one_value : (t : Bool) (u : Unit {0}) → (if t then some u else some tt) ≡ some tt
one_value true u = refl
one_value false u = refl

find-insert_keys :
    (k : Bytes) (m : Manifest) (keys : KeySet)
    → IsSorted m
    → IsSorted keys
    → find k (insert_keys m keys) ≡ member k m (find k keys)
unfolding insert_keys
find-insert_keys k [] keys s t = unfold find in refl
find-insert_keys k ((path, v) ∷ m) keys s t = elim (Bool-cases (same k path)) [
  | inl e ↦
      find-insert_keys k m (emplace path tt keys) s.1 (emplace-IsSorted path tt keys t)
      ∙ rw (find-emplace k path tt keys t, e, find_this k path v m e)
          (one_value (is_none (find k m)) (get_or (find path keys) tt))
  | inr e ↦
      find-insert_keys k m (emplace path tt keys) s.1 (emplace-IsSorted path tt keys t)
      ∙ rw (find-emplace k path tt keys t, e, find_other k path v m e s.0)
]

-- A path is in the set when one of the three manifests has it.
pub find-union_keys :
    (k : Bytes) (a b c : Manifest)
    → IsSorted a
    → IsSorted b
    → IsSorted c
    → find k (union_keys a b c) ≡ member k c (member k b (member k a none))
unfolding union_keys
find-union_keys k a b c s t u =
    let ka = insert_keys a [] in
    let sa = insert_keys-IsSorted a [] tt in
    find-insert_keys k c (insert_keys b ka) u (insert_keys-IsSorted b ka sa)
    ∙ rw (find-insert_keys k b ka t sa, find-insert_keys k a [] s tt, find_nil k)
  where
    find_nil : (k : Bytes) → find {V = Unit {0}} k [] ≡ none
    find_nil k = unfold find in refl

-- The two sides go through the same paths in the same order.
pub union_keys_swap :
    (a a' b c : Manifest)
    → IsSorted a
    → IsSorted a'
    → IsSorted b
    → IsSorted c
    → ((k : Bytes) → is_none (find k a) ≡ is_none (find k a'))
    → union_keys a b c ≡ union_keys a' c b
union_keys_swap a a' b c s s' t u h =
    eq_of_find (union_keys a b c) (union_keys a' c b) (union_keys-IsSorted a b c)
      (union_keys-IsSorted a' c b)
      (λ k. find-union_keys k a b c s t u ∙ swap k ∙ sym (find-union_keys k a' c b s' u t))
  where
    swap :
        (k : Bytes)
        → member k c (member k b (member k a none)) ≡ member k b (member k c (member k a' none))
    swap k = ground (arith, h k)
