-- ===== src/Reconcile/Tests.antt =====
-- core/diff.cpp at concrete trees.
use rasync.Prelude.{
  ℕ, ◌≡◌, ◌↔◌, refl, ap, sym, ◌∙◌, Option, get_or, true, false, [], ◌∷◌, some, none,
}
use rasync.Prelude.{Bool-cases, inl, inr}
use rasync.Prelude.Int.{pos}
use rasync.Prelude.Order.{bytes_order, bytes_lt}
use rasync.Prelude.Equality.{bytes_eq→eq}
use rasync.Codec.Writer.{Bytes}
use rasync.Meta.{FileMeta, same_content, same_content_refl}
use rasync.SortedMap.{IsSorted, emplace, find}
use rasync.Manifest.{Manifest}
use rasync.Reconcile.{
  SyncMode, ConflictPolicy, ReconcileOptions, complement, decide_two_way, reconcile, plan_is_empty,
}
use rasync.Reconcile.Decide.{HashTells, SameEntry, peer_options}
use rasync.Reconcile.Stuck.{After, here, round, Stuck, decide_two_way-Stuck}
use rasync.Reconcile.{classify, changed}
use rasync.Reconcile.Converge.{SameEntry-refl, Performed, decide_two_way_converges}
use rasync.Reconcile.Symmetry.{mirrored_plan, reconcile_mirrored}
use rasync.Reconcile.Plan.{reconcile_empty}

abbrev file : ℕ → FileMeta
file n = record { size = n; mtime = pos n; mode = 0; hash = n ∷ [] }

-- a, b, c were in step.
abbrev base : Manifest
base = (b'a' ∷ [], file 1) ∷ (b'b' ∷ [], file 2) ∷ (b'c' ∷ [], file 3) ∷ []

-- a is newer here, b is gone.
abbrev local : Manifest
local = (b'a' ∷ [], file 9) ∷ (b'c' ∷ [], file 3) ∷ []

-- a changed too, c is gone, d is new.
abbrev remote : Manifest
remote = (b'a' ∷ [], file 5) ∷ (b'b' ∷ [], file 2) ∷ (b'd' ∷ [], file 4) ∷ []

abbrev options : ReconcileOptions
options = record {
  mode = SyncMode.two_way;
  conflict = ConflictPolicy.newer;
  source = false;
  propagate_deletes = true;
}

abbrev additive : ReconcileOptions
additive = record options { propagate_deletes = false }

the_plan : reconcile base local remote options ≡ record {
  pull = (b'd' ∷ []) ∷ [];
  delete_local = (b'c' ∷ []) ∷ [];
  conflicts = (b'a' ∷ []) ∷ [];
  push = (b'a' ∷ []) ∷ [];
  delete_remote = (b'b' ∷ []) ∷ [];
}
unfolding reconcile emplace decide_two_way find same_content
the_plan = refl

-- The size of a file of this tree can be read off its digest.
abbrev Told : Option FileMeta → Type 0
Told none = Unit {0}
Told (some m) = m.size ≡ get_or m.hash 0 0

abbrev AllTold : Manifest → Type 0
AllTold [] = Unit {0}
AllTold ((path, m) ∷ rest) = Told (some m) × AllTold rest

Told-find : (k : Bytes) (m : Manifest) → AllTold m → Told (find k m)
unfolding find
Told-find k [] h = tt
Told-find k ((j, v) ∷ m) h = elim (Bool-cases (bytes_lt k j)) [
  | inl e ↦ rw (e, find) tt
  | inr e ↦ elim (Bool-cases (bytes_lt j k)) [
    | inl f ↦ rw (e, f, find) (Told-find k m h.1)
    | inr f ↦ rw (e, f, find) h.0
  ]
]

tells : (l r : Option FileMeta) → Told l → Told r → HashTells l r
tells (some l) (some r) h k = λ e. h ∙ ap (λ x. get_or x 0 0) (bytes_eq→eq l.hash r.hash e) ∙ sym k
tells (some l) none h k = tt
tells none r h k = tt

base-IsSorted : IsSorted base
base-IsSorted = ((refl, (refl, tt)), ((refl, tt), (tt, tt)))

local-IsSorted : IsSorted local
local-IsSorted = ((refl, tt), (tt, tt))

remote-IsSorted : IsSorted remote
remote-IsSorted = ((refl, (refl, tt)), ((refl, tt), (tt, tt)))

reconcile_mirrored_example :
    reconcile base remote local (peer_options options)
    ≡ mirrored_plan (reconcile base local remote options)
reconcile_mirrored_example =
    reconcile_mirrored base base local remote options base-IsSorted base-IsSorted local-IsSorted
      remote-IsSorted (λ k. SameEntry-refl (find k base))
      (λ k.
        tells (find k local) (find k remote) (Told-find k local (refl, (refl, tt)))
          (Told-find k remote (refl, (refl, (refl, tt)))))
      refl

reconcile_empty_example :
    (plan_is_empty (reconcile base local remote options) ≡ true)
    ↔ ((k : Bytes) → SameEntry (find k local) (find k remote))
reconcile_empty_example =
    reconcile_empty base local remote options base-IsSorted local-IsSorted remote-IsSorted refl

wins :
    Performed
      (decide_two_way (some (file 9)) (some (file 5)) (some (file 1)) options).kind
      (some (file 9))
      (some (file 5))
      (some (file 9))
unfolding decide_two_way same_content
wins = refl

loses :
    Performed
      (decide_two_way (some (file 5)) (some (file 9)) (some (file 1)) (peer_options options)).kind
      (some (file 5))
      (some (file 9))
      (some (file 9))
unfolding decide_two_way same_content complement
loses = refl

-- Path "a", which both sides changed: here it is newer.
decide_two_way_converges_example : SameEntry (some (file 9)) (some (file 9))
decide_two_way_converges_example =
    decide_two_way_converges (some (file 9)) (some (file 5)) (some (file 1)) (some (file 1))
      (some (file 9)) (some (file 9)) options refl (same_content_refl (file 1)) (λ e. cc) wins loses

-- Two rounds over a file that is gone here.
two_rounds : After additive (some (file 2)) none (some (file 2)) none (some (file 2))
unfolding decide_two_way classify changed same_content
two_rounds = round (round here refl refl) refl refl

decide_two_way-Stuck_example : Stuck additive (some (file 2)) (file 2) none (some (file 2))
decide_two_way-Stuck_example =
    decide_two_way-Stuck (file 2) (file 2) additive none (some (file 2)) refl
      (same_content_refl (file 2)) two_rounds
