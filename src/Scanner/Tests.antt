-- ===== src/Scanner/Tests.antt =====
-- core/scanner.cpp on a small tree.
use rasync.Prelude.{◌≡◌, refl, sym, ap, subst, true, false, List, [], ◌∷◌, Option, none, some}
use rasync.Prelude.{◌∙◌, if◌then◌else◌}
use rasync.Prelude.Int.{pos}
use rasync.Prelude.Equality.{bytes_eq}
use rasync.Codec.Writer.{Bytes}
use rasync.Meta.{FileMeta}
use rasync.SortedMap.{find, set}
use rasync.Manifest.{Manifest}
use rasync.Ignore.{matches}
use rasync.Scanner.{
  Stat, Entry, FileSystem, join_rel, insert_entry, sort_entries, probe_entry, seen_meta,
  same_signal, hash_of, visit_file, visit, visit_all, walk, scan,
}
use rasync.Scanner.Rescan.{AllUnchanged, rescan-Unchanged}

abbrev plain : Stat
plain = record { there = true; link = false; directory = false; size = 3; mtime = pos 7; mode = 1 }

abbrev root_entries : List Entry
root_entries =
    record { name = b'b' ∷ []; is_directory = false; size = 3; modified_time = pos 7 }
    ∷ record { name = b'a' ∷ []; is_directory = false; size = 3; modified_time = pos 8 }
    ∷ []

abbrev list_root : Bytes → Option (List Entry)
list_root [] = some root_entries
list_root (c ∷ cs) = none

-- Two files with the same content.
abbrev disk : FileSystem
disk = record {
  list = list_root;
  stat_nofollow = λ path. plain;
  stat_follow = λ path. plain;
  real_key = λ path. none;
  sha256_file = λ path. some (9 ∷ []);
  child_key = λ key name. name;
  root_key = [];
}

abbrev file : FileMeta
file = record { size = 3; mtime = pos 7; mode = 1; hash = 9 ∷ [] }

-- The same folder when it was scanned: a was other then, and b was as it is.
abbrev old_entries : List Entry
old_entries =
    record { name = b'b' ∷ []; is_directory = false; size = 3; modified_time = pos 7 }
    ∷ record { name = b'a' ∷ []; is_directory = false; size = 3; modified_time = pos 7 }
    ∷ []

abbrev list_old : Bytes → Option (List Entry)
list_old [] = some old_entries
list_old (c ∷ cs) = none

abbrev old_hash : Bytes → Option Bytes
old_hash path = if bytes_eq path (b'a' ∷ []) then some (5 ∷ []) else some (9 ∷ [])

abbrev old_disk : FileSystem
old_disk = record disk { list = list_old; sha256_file = old_hash }

abbrev last_scan : Manifest
last_scan = (b'a' ∷ [], record file { hash = 5 ∷ [] }) ∷ (b'b' ∷ [], file) ∷ []

found_old : (scan old_disk [] false 4 none).out ≡ last_scan
unfolding scan walk visit_all visit visit_file hash_of seen_meta probe_entry join_rel sort_entries
    insert_entry find set matches
found_old = refl

root_unchanged : AllUnchanged old_disk disk [] false last_scan [] root_entries
unfolding join_rel find seen_meta probe_entry
root_unchanged = (
  λ p f a b. refl,
  (
    λ p f a b.
        let j : record file { hash = 5 ∷ [] } ≡ p = cc in
        let n : pos 7 ≡ pos 8 = ap (λ (x : FileMeta). x.mtime) j ∙ b in cc,
    tt,
  ),
)

unchanged :
    (dir : Bytes) (es : List Entry)
    → list_root dir ≡ some es
    → AllUnchanged old_disk disk [] false (scan old_disk [] false 4 none).out dir es
unchanged [] es e =
    let k : root_entries ≡ es = cc in
    subst (λ m. AllUnchanged old_disk disk [] false m [] es) (sym found_old)
      (subst (AllUnchanged old_disk disk [] false last_scan []) k root_unchanged)
unchanged (c ∷ cs) es e = let n : none ≡ some es = e in cc

rescan-Unchanged_example :
    scan disk [] false 4 (some (scan old_disk [] false 4 none).out) ≡ scan disk [] false 4 none
rescan-Unchanged_example = rescan-Unchanged old_disk disk [] false 4 4 unchanged

found_both :
    (scan disk [] false 4 (some last_scan)).out
    ≡ (b'a' ∷ [], record file { mtime = pos 8 }) ∷ (b'b' ∷ [], file) ∷ []
unfolding scan walk visit_all visit visit_file hash_of same_signal seen_meta probe_entry join_rel
    sort_entries insert_entry find set matches
found_both = refl
