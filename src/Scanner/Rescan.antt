-- ===== src/Scanner/Rescan.antt =====
-- core/scanner.cpp: a scan, and later a scan that uses its hashes again.
use rasync.Prelude.{
  ℕ, zero, suc, ◌≡◌, sym, ◌∙◌, ap, subst, arith, Bool, false, not, ◌&&◌, ◌||◌, Bool-cases,
  Option-cases, inl, inr,
}
use rasync.Prelude.{List, [], ◌∷◌, none, some, if◌then◌else◌}
use rasync.Prelude.Order.{bytes_order}
use rasync.Codec.Writer.{Bytes}
use rasync.Meta.{FileMeta}
use rasync.SortedMap.{find, set, same, IsSorted}
use rasync.SortedMap.Laws.{find-set, set-IsSorted, same→eq}
use rasync.Manifest.{Manifest}
use rasync.Ignore.{Rule, matches}
use rasync.Scanner.{
  Entry, FileSystem, Pending, Walk, is_dots, join_rel, sort_entries, probe_entry, seen_meta,
  hash_of, visit_directory, visit_file, visit, visit_all, walk, scan,
}
use rasync.Scanner.Reuse.{Pending-cases, AllTrusted, scan-Trusted}

module _ (fs : FileSystem) (rules : List Rule) (follow : Bool) where
  -- Each entry has the hash that the file has.
  abbrev pub Hashed : Manifest → Type 0
  Hashed out =
      (rel : Bytes) (p : FileMeta) → find rel out ≡ some p → fs.sha256_file rel ≡ some p.hash

  abbrev Sound : Walk → Type 0
  Sound w = IsSorted w.out × Hashed w.out

  set-Sound :
      (rel : Bytes) (m : FileMeta) (w : Walk)
      → fs.sha256_file rel ≡ some m.hash
      → Sound w
      → Sound (record w { out = set rel m w.out })
  set-Sound rel m w h (s, k) = (
    set-IsSorted rel m w.out s,
    λ r p e. elim (Bool-cases (same r rel)) [
      | inl b ↦
          let j : some m ≡ some p = (rw (find-set r rel m w.out s, b) at e) in
          let q : m ≡ p = cc in rw (same→eq r rel b) (h ∙ ap (λ (x : FileMeta). some x.hash) q)
      | inr b ↦ k r p (rw (find-set r rel m w.out s, b) at e)
    ],
  )

  visit_directory-out :
      (item : Pending) (e : Entry) (w : Walk)
      → (visit_directory fs rules follow item e w).out ≡ w.out
  unfolding visit_directory
  visit_directory-out item e w = ground arith

  visit_file-Sound :
      (item : Pending) (e : Entry) (w : Walk)
      → Sound w
      → Sound (visit_file fs rules follow none item e w)
  unfolding visit_file hash_of
  visit_file-Sound item e w h =
      let rel = join_rel item.rel e.name in
      let info = probe_entry fs rules follow rel in
      let m = seen_meta fs rules follow e info in
      elim (Bool-cases (matches rules rel false)) [
        | inl a ↦ rw (a, visit_file) h
        | inr a ↦
            elim (Bool-cases (info.symlink && (not follow || info.broken || info.directory))) [
              | inl b ↦ rw (a, b, visit_file) h
              | inr b ↦ elim (Option-cases (fs.sha256_file rel)) [
                | inl c ↦ rw (a, b, c, visit_file, hash_of) h
                | inr (d, c) ↦
                    rw (a, b, c, visit_file, hash_of) (set-Sound rel (record m { hash = d }) w c h)
              ]
            ]
      ]

  visit-Sound :
      (item : Pending) (e : Entry) (w : Walk)
      → Sound w
      → Sound (visit fs rules follow none item e w)
  unfolding visit
  visit-Sound item e w h = elim (Bool-cases (is_dots e.name)) [
    | inl a ↦ rw (a, visit) h
    | inr a ↦ elim (Bool-cases e.is_directory) [
      | inl b ↦
          rw (a, b, visit)
            (subst (λ out. IsSorted out × Hashed out) (sym (visit_directory-out item e w)) h)
      | inr b ↦ rw (a, b, visit) (visit_file-Sound item e w h)
    ]
  ]

  visit_all-Sound :
      (item : Pending) (es : List Entry) (w : Walk)
      → Sound w
      → Sound (visit_all fs rules follow none item es w)
  unfolding visit_all
  visit_all-Sound item [] w h = h
  visit_all-Sound item (e ∷ es) w h =
      visit_all-Sound item es (visit fs rules follow none item e w) (visit-Sound item e w h)

  walk-Sound : (fuel : ℕ) (w : Walk) → Sound w → Sound (walk fs rules follow fuel none w)
  unfolding walk
  walk-Sound zero w h = h
  walk-Sound (suc fuel) w h = elim (Pending-cases w.pending) [
    | inl n ↦ rw (n, walk) h
    | inr (item, rest, n) ↦
        let popped : Walk = record { out = w.out; pending = rest } in
        elim (Option-cases (fs.list item.rel)) [
          | inl l ↦ rw (n, l, walk) (walk-Sound fuel popped h)
          | inr (es, l) ↦
              rw (n, l, walk)
                (walk-Sound fuel (visit_all fs rules follow none item (sort_entries es) popped)
                  (visit_all-Sound item (sort_entries es) popped h))
        ]
  ]

  pub scan-Hashed : (fuel : ℕ) → Hashed (scan fs rules follow fuel none).out
  unfolding scan find
  scan-Hashed fuel =
      (walk-Sound fuel
        (record {
          out = [];
          pending = record { rel = []; chain = if follow then fs.root_key ∷ [] else [] } ∷ [];
        })
        (tt, λ rel p e. let n : none ≡ some p = e in cc)).1

-- A listed file that the manifest has with the size and the time it has now, has the hash that it had.
abbrev pub Unchanged :
    FileSystem → FileSystem → List Rule → Bool → Manifest → Bytes → Entry → Type 0
Unchanged old fs rules follow previous dir e =
    let rel = join_rel dir e.name in
    let m = seen_meta fs rules follow e (probe_entry fs rules follow rel) in
    (p : FileMeta)
    → find rel previous ≡ some p
    → p.size ≡ m.size
    → p.mtime ≡ m.mtime
    → fs.sha256_file rel ≡ old.sha256_file rel

abbrev pub AllUnchanged :
    FileSystem → FileSystem → List Rule → Bool → Manifest → Bytes → List Entry → Type 0
AllUnchanged old fs rules follow previous dir [] = Unit {0}
AllUnchanged old fs rules follow previous dir (e ∷ es) =
    Unchanged old fs rules follow previous dir e × AllUnchanged old fs rules follow previous dir es

all_trusted :
    (old fs : FileSystem) (rules : List Rule) (follow : Bool) (previous : Manifest) (dir : Bytes)
    (es : List Entry)
    → Hashed old rules follow previous
    → AllUnchanged old fs rules follow previous dir es
    → AllTrusted fs rules follow previous dir es
all_trusted old fs rules follow previous dir [] h u = tt
all_trusted old fs rules follow previous dir (e ∷ es) h (u, us) = (
  λ p f a b. u p f a b ∙ h (join_rel dir e.name) p f,
  all_trusted old fs rules follow previous dir es h us,
)

-- A folder is scanned, with every file hashed, and files change. Where each file that the first scan
-- found, and that has the size and the time still, has the hash still: for as many directories as one
-- likes, a second scan that is given the first tree finds the tree that it finds if it hashes every
-- file.
pub rescan-Unchanged :
    (old fs : FileSystem) (rules : List Rule) (follow : Bool) (before now : ℕ)
    → let previous = (scan old rules follow before none).out in
      ((dir : Bytes) (es : List Entry)
        → fs.list dir ≡ some es
        → AllUnchanged old fs rules follow previous dir es)
      → scan fs rules follow now (some previous) ≡ scan fs rules follow now none
rescan-Unchanged old fs rules follow before now h =
    let previous = (scan old rules follow before none).out in
    scan-Trusted fs rules follow previous now (λ dir es l.
      all_trusted old fs rules follow previous dir es (scan-Hashed old rules follow before)
        (h dir es l))
