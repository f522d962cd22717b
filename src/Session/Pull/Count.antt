-- ===== src/Session/Pull/Count.antt =====
-- net/sync_session.cpp: counting the paths of the pull window.
use rasync.Prelude.{
  suc, ◌+◌, ◌<◌, ◌≡◌, refl, ◌∙◌, ap, arith, true, false, Bool-cases, inl, inr, not, ◌&&◌, ◌||◌,
}
use rasync.Prelude.{List, [], ◌∷◌, ◌++◌, length, if◌then◌else◌}
use rasync.Prelude.Order.{bytes_order}
use rasync.Codec.Writer.{Bytes}
use rasync.SortedMap.{Map, same, find, emplace, erase, IsSorted}
use rasync.SortedMap.Laws.{find-emplace, find-erase, same→eq}
use rasync.Service.{present}
use rasync.Session.Pull.{times, without}

pub length-emplace :
    (k : Bytes) (m : Map Bytes (Unit {0}))
    → present (find k m) ≡ false
    → length (emplace k tt m) ≡ suc (length m)
unfolding emplace find
length-emplace k [] h = refl
length-emplace k ((j, w) ∷ m) h = ground (arith, length-emplace k m)

pub length-erase :
    (k : Bytes) (m : Map Bytes (Unit {0}))
    → present (find k m) ≡ true
    → length m ≡ suc (length (erase k m))
unfolding erase find
length-erase k [] h = cc
length-erase k ((j, w) ∷ m) h = ground (arith, length-erase k m)

pub times-append : (x : Bytes) (ps qs : List Bytes) → times x (ps ++ qs) ≡ times x ps + times x qs
times-append x [] qs = omega arith
times-append x (p ∷ ps) qs = rw (times-append x ps qs) (omega arith)

pub times-without :
    (x path : Bytes) (ps : List Bytes)
    → 0 < times path ps
    → times x ps ≡ times x (without path ps) + (if same x path then 1 else 0)
times-without x path [] h = absurd (omega (arith, h))
times-without x path (p ∷ ps) h = elim (Bool-cases (same path p)) [
  | inl e ↦ let k : path ≡ p = same→eq path p e in rw (e, k) (omega arith)
  | inr e ↦
      let below : 0 < times path ps = omega (arith, rw e at h) in
      rw (e, times-without x path ps below) (omega arith)
]

pub length-without :
    (path : Bytes) (ps : List Bytes)
    → 0 < times path ps
    → length ps ≡ suc (length (without path ps))
length-without path [] h = absurd (omega (arith, h))
length-without path (p ∷ ps) h = ground (arith, length-without path ps)

pub present-emplace :
    (x path : Bytes) (m : Map Bytes (Unit {0}))
    → IsSorted m
    → present (find x (emplace path tt m)) ≡ (same x path || present (find x m))
present-emplace x path m h = elim (Bool-cases (same x path)) [
  | inl e ↦ ap present (find-emplace x path tt m h) ∙ rw e
  | inr e ↦ ap present (find-emplace x path tt m h) ∙ rw e
]

pub present-erase :
    (x path : Bytes) (m : Map Bytes (Unit {0}))
    → IsSorted m
    → present (find x (erase path m)) ≡ (not (same x path) && present (find x m))
present-erase x path m h = elim (Bool-cases (same x path)) [
  | inl e ↦ ap present (find-erase x path m h) ∙ rw e
  | inr e ↦ ap present (find-erase x path m h) ∙ rw e
]
