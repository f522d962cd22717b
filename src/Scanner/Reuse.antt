-- ===== src/Scanner/Reuse.antt =====
-- core/scanner.cpp: using the hashes of the last scan again, where they are the ones of the files.
use rasync.Prelude.{
  ℕ, zero, suc, ◌≡◌, refl, sym, ◌∙◌, ap, Bool, true, false, Bool-cases, Option-cases, inl, inr, ◌⊎◌,
}
use rasync.Prelude.{◌==◌, ==_iff}
use rasync.Prelude.Equality.{eq_ℤ→eq}
use rasync.Prelude.{List, [], ◌∷◌, none, some, if◌then◌else◌}
use rasync.Prelude.Order.{bytes_order, bytes_lt}
use rasync.Codec.Writer.{Bytes}
use rasync.Meta.{FileMeta}
use rasync.SortedMap.{find}
use rasync.Manifest.{Manifest}
use rasync.Ignore.{Rule}
use rasync.Scanner.{
  Entry, FileSystem, Pending, Walk, join_rel, insert_entry, sort_entries, probe_entry, seen_meta,
  same_signal, hash_of, visit_file, visit, visit_all, walk, scan,
}

pub Pending-cases :
    (ps : List Pending) → (ps ≡ []) ⊎ ((p : Pending) × (rest : List Pending) × (ps ≡ p ∷ rest))
Pending-cases [] = inl refl
Pending-cases (p ∷ rest) = inr (p, rest, refl)

module _ (fs : FileSystem) (rules : List Rule) (follow : Bool) (previous : Manifest) where
  -- Where the last scan has the size and the time of this entry, it has its hash.
  abbrev pub Trusted : Bytes → Entry → Type 0
  Trusted dir e =
      (p : FileMeta)
      → find (join_rel dir e.name) previous ≡ some p
      → let m = seen_meta fs rules follow e (probe_entry fs rules follow (join_rel dir e.name)) in
        p.size ≡ m.size → p.mtime ≡ m.mtime → fs.sha256_file (join_rel dir e.name) ≡ some p.hash

  abbrev pub AllTrusted : Bytes → List Entry → Type 0
  AllTrusted dir [] = Unit {0}
  AllTrusted dir (e ∷ es) = Trusted dir e × AllTrusted dir es

  insert_entry-AllTrusted :
      (dir : Bytes) (e : Entry) (es : List Entry)
      → Trusted dir e
      → AllTrusted dir es
      → AllTrusted dir (insert_entry e es)
  unfolding insert_entry
  insert_entry-AllTrusted dir e [] h k = (h, tt)
  insert_entry-AllTrusted dir e (f ∷ es) h k = elim (Bool-cases (bytes_lt e.name f.name)) [
    | inl b ↦ rw (b, insert_entry) (h, k)
    | inr b ↦ rw (b, insert_entry) (k.0, insert_entry-AllTrusted dir e es h k.1)
  ]

  sort_entries-AllTrusted :
      (dir : Bytes) (es : List Entry) → AllTrusted dir es → AllTrusted dir (sort_entries es)
  unfolding sort_entries
  sort_entries-AllTrusted dir [] h = tt
  sort_entries-AllTrusted dir (e ∷ es) h =
      insert_entry-AllTrusted dir e (sort_entries es) h.0 (sort_entries-AllTrusted dir es h.1)

  -- What the signal tells of two entries.
  same_signal-eq :
      (p m : FileMeta)
      → same_signal fs rules follow p m ≡ true
      → (p.size ≡ m.size) × (p.mtime ≡ m.mtime)
  unfolding same_signal
  same_signal-eq p m s = elim (Bool-cases (p.size == m.size)) [
    | inr a ↦ let n : false ≡ true = (rw (a, same_signal) at s) in cc
    | inl a ↦ ((==_iff p.size m.size).0 a, eq_ℤ→eq p.mtime m.mtime (rw (a, same_signal) at s))
  ]

  hash_of-Trusted :
      (dir : Bytes) (e : Entry)
      → Trusted dir e
      → let m = seen_meta fs rules follow e (probe_entry fs rules follow (join_rel dir e.name)) in
        hash_of fs rules follow (some previous) (join_rel dir e.name) m
        ≡ fs.sha256_file (join_rel dir e.name)
  unfolding hash_of
  hash_of-Trusted dir e h = elim (Option-cases (find (join_rel dir e.name) previous)) [
    | inl n ↦ rw (n, hash_of) refl
    | inr (p, f) ↦
        elim (Bool-cases (
          same_signal fs rules follow p
            (seen_meta fs rules follow e (probe_entry fs rules follow (join_rel dir e.name))))) [
              | inl s ↦
                  let m =
                    seen_meta fs rules follow e
                      (probe_entry fs rules follow (join_rel dir e.name)) in
                  let (a, b) = same_signal-eq p m s in rw (f, s, hash_of) (sym (h p f a b))
              | inr s ↦ rw (f, s, hash_of) refl
            ]
  ]

  visit-Trusted :
      (item : Pending) (e : Entry) (w : Walk)
      → Trusted item.rel e
      → visit fs rules follow (some previous) item e w ≡ visit fs rules follow none item e w
  unfolding visit visit_file hash_of
  visit-Trusted item e w h = rw (hash_of-Trusted item.rel e h, visit, visit_file)

  visit_all-AllTrusted :
      (item : Pending) (es : List Entry) (w : Walk)
      → AllTrusted item.rel es
      → visit_all fs rules follow (some previous) item es w
        ≡ visit_all fs rules follow none item es w
  unfolding visit_all
  visit_all-AllTrusted item [] w h = refl
  visit_all-AllTrusted item (e ∷ es) w h =
      ap (λ v. visit_all fs rules follow (some previous) item es v) (visit-Trusted item e w h.0)
      ∙ visit_all-AllTrusted item es (visit fs rules follow none item e w) h.1

  walk-Trusted :
      (fuel : ℕ) (w : Walk)
      → ((dir : Bytes) (es : List Entry) → fs.list dir ≡ some es → AllTrusted dir es)
      → walk fs rules follow fuel (some previous) w ≡ walk fs rules follow fuel none w
  unfolding walk
  walk-Trusted zero w h = refl
  walk-Trusted (suc fuel) w h = elim (Pending-cases w.pending) [
    | inl n ↦ rw (n, walk)
    | inr (item, rest, n) ↦ elim (Option-cases (fs.list item.rel)) [
      | inl l ↦ rw (n, l, walk) (walk-Trusted fuel (record { out = w.out; pending = rest }) h)
      | inr (es, l) ↦
          let popped : Walk = record { out = w.out; pending = rest } in
          let t = sort_entries-AllTrusted item.rel es (h item.rel es l) in
          rw (n, l, walk)
            (ap (λ v. walk fs rules follow fuel (some previous) v)
                (visit_all-AllTrusted item (sort_entries es) popped t)
              ∙ walk-Trusted fuel (visit_all fs rules follow none item (sort_entries es) popped) h)
    ]
  ]

  pub scan-Trusted :
      (fuel : ℕ)
      → ((dir : Bytes) (es : List Entry) → fs.list dir ≡ some es → AllTrusted dir es)
      → scan fs rules follow fuel (some previous) ≡ scan fs rules follow fuel none
  unfolding scan
  scan-Trusted fuel h =
      walk-Trusted fuel
        (record {
          out = [];
          pending = record { rel = []; chain = if follow then fs.root_key ∷ [] else [] } ∷ [];
        })
        h
