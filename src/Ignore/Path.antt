-- ===== src/Ignore/Path.antt =====
-- core/ignore.cpp: cutting a path at its separators.
use rasync.Prelude.{ℕ, ◌≡◌, refl, sym, ◌∙◌, arith, false, List, [], ◌∷◌, ◌++◌, ◌==◌}
use rasync.Prelude.{Bool-cases, inl, inr, ap}
use rasync.Codec.Writer.{Bytes}
use rasync.Ignore.{split_loop, split, contains}
use mathlib.Core.List.{append-nil, append_assoc}

-- The segments, with a separator between any two.
abbrev pub join : ℕ → List Bytes → Bytes
join sep [] = []
join sep (s ∷ []) = s
join sep (s ∷ t ∷ rest) = s ++ sep ∷ join sep (t ∷ rest)

abbrev pub NoneHolds : ℕ → List Bytes → Type 0
NoneHolds sep [] = Unit {0}
NoneHolds sep (s ∷ rest) = (contains sep s ≡ false) × NoneHolds sep rest

split_loop_cons :
    (sep : ℕ) (s cur t : Bytes)
    → join sep (t ∷ split_loop sep cur s) ≡ t ++ sep ∷ join sep (split_loop sep cur s)
unfolding split_loop
split_loop_cons sep [] cur t = refl
split_loop_cons sep (c ∷ s) cur t = elim (Bool-cases (c == sep)) [
  | inl e ↦ rw (e, split_loop)
  | inr e ↦ rw (e, split_loop) (split_loop_cons sep s (cur ++ c ∷ []) t)
]

join-split_loop : (sep : ℕ) (s cur : Bytes) → join sep (split_loop sep cur s) ≡ cur ++ s
unfolding split_loop
join-split_loop sep [] cur = sym (append-nil cur)
join-split_loop sep (c ∷ s) cur = elim (Bool-cases (c == sep)) [
  | inl e ↦
      let same : c ≡ sep = ground arith in
      rw (e, split_loop)
        (split_loop_cons sep s [] cur
          ∙ rw (join-split_loop sep s []) (ap (λ x. cur ++ x ∷ s) (sym same)))
  | inr e ↦ rw (e, split_loop) (join-split_loop sep s (cur ++ c ∷ []) ∙ append_assoc cur (c ∷ []) s)
]

contains-snoc :
    (sep c : ℕ) (cur : Bytes)
    → (c == sep) ≡ false
    → contains sep cur ≡ false
    → contains sep (cur ++ c ∷ []) ≡ false
unfolding contains
contains-snoc sep c [] e h = ground arith
contains-snoc sep c (x ∷ cur) e h = ground (arith, contains-snoc sep c cur e)

split_loop-NoneHolds :
    (sep : ℕ) (s cur : Bytes) → contains sep cur ≡ false → NoneHolds sep (split_loop sep cur s)
unfolding split_loop
split_loop-NoneHolds sep [] cur h = (h, tt)
split_loop-NoneHolds sep (c ∷ s) cur h = elim (Bool-cases (c == sep)) [
  | inl e ↦ rw (e, split_loop) (h, split_loop-NoneHolds sep s [] (unfold contains in refl))
  | inr e ↦
      rw (e, split_loop) (split_loop-NoneHolds sep s (cur ++ c ∷ []) (contains-snoc sep c cur e h))
]

-- The segments of a text hold no separator, and joined by it they are the text.
pub join-split : (s : Bytes) (sep : ℕ) → NoneHolds sep (split s sep) × (join sep (split s sep) ≡ s)
unfolding split
join-split s sep =
    (split_loop-NoneHolds sep s [] (unfold contains in refl), join-split_loop sep s [])
