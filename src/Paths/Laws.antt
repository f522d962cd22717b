-- ===== src/Paths/Laws.antt =====
-- What core/path.h accepts, and where an accepted path leads.
use rasync.Prelude.{
  ℕ, zero, suc, ◌<◌, ◌≡◌, ◌≢◌, ◌↔◌, refl, arith, Bool, true, false, not, ◌||◌, ◌&&◌, List, [], ◌∷◌,
  ◌++◌, none, some,
}
use rasync.Prelude.{length, get_or, ◌==◌, if◌then◌else◌, inl, inr, Option-cases}
use rasync.Codec.Writer.{Bytes}
use rasync.Paths.{
  slash, backslash, colon, contains, cut_at, is_dots, segments_safe, is_safe_relpath,
}
use mathlib.Core.List.{append_assoc}

-- A file system's reading of a text: the components between separators.
abbrev prepend : ℕ → List Bytes → List Bytes
prepend c [] = (c ∷ []) ∷ []
prepend c (s ∷ ss) = (c ∷ s) ∷ ss

module _ (separates : ℕ → Bool) where
  unfoldable pub components : Bytes → List Bytes
  components [] = [] ∷ []
  components (c ∷ cs) =
      let rest = components cs in if separates c then [] ∷ rest else prepend c rest

abbrev posix : ℕ → Bool
posix c = c == slash

-- On Windows a backslash separates too.
abbrev either : ℕ → Bool
either c = c == slash || c == backslash

-- A place is the names from the innermost directory outwards. An empty component and "." stay,
-- and ".." goes up.
abbrev go : List Bytes → Bytes → List Bytes
go place [] = place
go place (c ∷ cs) = if is_dots (c ∷ cs) then up place cs else (c ∷ cs) ∷ place
  where
    parent : List Bytes → List Bytes
    parent [] = []
    parent (_ ∷ outer) = outer

    up : List Bytes → Bytes → List Bytes
    up place [] = place
    up place (_ ∷ _) = parent place

unfoldable pub walk : List Bytes → List Bytes → List Bytes
walk place [] = place
walk place (s ∷ ss) = walk (go place s) ss

-- An absolute path, or one with a drive letter, does not begin at the root that it is joined to.
abbrev leaves_root : Bytes → Bool
leaves_root p = either (get_or p 0 0) || get_or p 1 0 == colon

-- `root / p` on any platform.
unfoldable pub resolve : List Bytes → Bytes → List Bytes
unfolding walk components is_dots
resolve root p = walk (if leaves_root p then [] else root) (components either p)

abbrev plain : List Bytes → Bool
plain [] = true
plain (s ∷ ss) = not (is_dots s) && plain ss

components-cut_none : (p : Bytes) → cut_at slash p ≡ none → components posix p ≡ p ∷ []
unfolding cut_at components
components-cut_none [] h = refl
components-cut_none (c ∷ cs) h = ground (arith, components-cut_none cs)

components-cut_some :
    (p : Bytes) (a b : Bytes)
    → cut_at slash p ≡ some (a, b)
    → (components posix p ≡ a ∷ components posix b) × (length b < length p)
unfolding cut_at components
components-cut_some [] a b h = cc
components-cut_some (c ∷ cs) a b h = elim (Option-cases (cut_at slash cs)) [
  | inl n ↦ ground (arith, n)
  | inr ((a', b'), e) ↦ ground (arith, e, components-cut_some cs a' b' e)
]

segments_safe-plain :
    (fuel : ℕ) (p : Bytes) → length p < fuel → segments_safe fuel p ≡ plain (components posix p)
unfolding segments_safe
segments_safe-plain zero p h = elim h [ ]
segments_safe-plain (suc fuel) p h = elim (Option-cases (cut_at slash p)) [
  | inl n ↦ ground (arith, components-cut_none p n)
  | inr ((a, b), e) ↦
      let (q, l) = components-cut_some p a b e in
      ground (arith, q, segments_safe-plain fuel b (omega (arith, l)))
]

-- What an accepted path is, in words: not empty, not absolute, no backslash, no drive letter, and
-- no component that is "." or "..".
pub record IsSafe (p : Bytes) : Type 0 where
  pub stays : leaves_root p ≡ false
  pub nonempty : p ≢ []
  pub no_backslash : contains backslash p ≡ false
  pub no_dots : plain (components posix p) ≡ true

abbrev tests : ℕ → Bytes → Bool
tests c cs =
    not (leaves_root (c ∷ cs))
    && not (contains backslash (c ∷ cs))
    && plain (components posix (c ∷ cs))

is_safe_relpath-tests : (c : ℕ) (cs : Bytes) → is_safe_relpath (c ∷ cs) ≡ tests c cs
unfolding is_safe_relpath
is_safe_relpath-tests c [] = ground (arith, segments_safe-plain 2 (c ∷ []) (omega arith))
is_safe_relpath-tests c (d ∷ ds) =
    ground (arith, segments_safe-plain (suc (length (c ∷ d ∷ ds))) (c ∷ d ∷ ds) (omega arith))

-- The predicate accepts a path exactly when it is not empty, begins at the root that it is joined
-- to (it is not absolute, and has no drive letter), holds no backslash, and has no component that
-- is "." or "..".
pub is_safe_relpath_iff : (p : Bytes) → (is_safe_relpath p ≡ true) ↔ IsSafe p
is_safe_relpath_iff [] = (λ h. unfold is_safe_relpath in cc, λ s. absurd (s.nonempty refl))
is_safe_relpath_iff (c ∷ cs) = (
  λ h. record {
    stays = ground (arith, is_safe_relpath-tests c cs);
    nonempty = λ e. cc;
    no_backslash = ground (arith, is_safe_relpath-tests c cs);
    no_dots = ground (arith, is_safe_relpath-tests c cs);
  },
  λ s. ground (arith, is_safe_relpath-tests c cs),
)

-- With no backslash the platforms agree on the components.
components-either :
    (p : Bytes) → contains backslash p ≡ false → components either p ≡ components posix p
unfolding contains components
components-either [] h = refl
components-either (c ∷ cs) h = ground (arith, components-either cs)

walk-plain :
    (ss : List Bytes) (place : List Bytes)
    → plain ss ≡ true
    → (inside : List Bytes) × (walk place ss ≡ inside ++ place)
unfolding walk
walk-plain [] place h = ([], refl)
walk-plain ([] ∷ ss) place h = walk-plain ss place (ground arith)
walk-plain ((c ∷ cs) ∷ ss) place h =
    let (inside, e) = walk-plain ss ((c ∷ cs) ∷ place) (ground arith) in
    (inside ++ ((c ∷ cs) ∷ []), ground (arith, e, append_assoc inside ((c ∷ cs) ∷ []) place))

-- A path that is accepted leads, from whatever root it is joined to and on every platform, to a
-- place inside that root.
pub resolve-is_safe_relpath :
    (root : List Bytes) (p : Bytes)
    → is_safe_relpath p ≡ true
    → (inside : List Bytes) × (resolve root p ≡ inside ++ root)
unfolding resolve
resolve-is_safe_relpath root p h =
    let s = (is_safe_relpath_iff p).0 h in
    rw (s.stays, components-either p s.no_backslash)
      (walk-plain (components posix p) root s.no_dots)
