-- ===== src/Scanner.antt =====
-- core/scanner.cpp: the walk over a folder.
pub mod Reuse
pub mod Rescan
mod Tests
use rasync.Prelude.{
  ℕ, zero, suc, Bool, true, false, not, ◌&&◌, ◌||◌, List, [], ◌∷◌, ◌++◌, Option, none, some,
}
use rasync.Prelude.{◌==◌, if◌then◌else◌}
use rasync.Prelude.Int.{ℤ}
use rasync.Prelude.Equality.{bytes_eq, eq_ℤ}
use rasync.Prelude.Order.{bytes_order, bytes_lt}
use rasync.Codec.Writer.{Bytes}
use rasync.Meta.{FileMeta}
use rasync.SortedMap.{find, set}
use rasync.Manifest.{Manifest}
use rasync.Ignore.{Rule, matches}
use rasync.Service.{listed}

-- `FileStat`
pub record Stat : Type 0 where
  pub there : Bool
  pub link : Bool
  pub directory : Bool
  pub size : ℕ
  pub mtime : ℤ
  pub mode : ℕ

-- A `librats::DirectoryEntry`.
pub record Entry : Type 0 where
  pub name : Bytes
  pub is_directory : Bool
  pub size : ℕ
  pub modified_time : ℤ

-- What librats and the system answer, each for a path below the root, which is itself the empty path:
-- `list_directory`, `stat_nofollow`, `stat_follow`, `canon_key` of `real_path` where there is one,
-- `sha256_file`, and the key of a directory's child.
pub record FileSystem : Type 0 where
  pub list : Bytes → Option (List Entry)
  pub stat_nofollow : Bytes → Stat
  pub stat_follow : Bytes → Stat
  pub real_key : Bytes → Option Bytes
  pub sha256_file : Bytes → Option Bytes
  pub child_key : Bytes → Bytes → Bytes
  pub root_key : Bytes

pub record EntryProbe : Type 0 where
  pub symlink : Bool
  pub broken : Bool
  pub directory : Bool
  pub size : ℕ
  pub mtime : ℤ
  pub mode : ℕ

abbrev pub no_probe : EntryProbe
no_probe = record {
  symlink = false;
  broken = false;
  directory = false;
  size = 0;
  mtime = ℤ.pos 0;
  mode = 0;
}

unfoldable pub join_rel : Bytes → Bytes → Bytes
join_rel [] name = name
join_rel (c ∷ cs) name = (c ∷ cs) ++ (b'/' ∷ name)

unfoldable pub insert_entry : Entry → List Entry → List Entry
insert_entry e [] = e ∷ []
insert_entry e (f ∷ fs) =
    let rest = insert_entry e fs in if bytes_lt e.name f.name then e ∷ f ∷ fs else f ∷ rest

-- `std::sort` by the name.
unfoldable pub sort_entries : List Entry → List Entry
unfolding insert_entry
sort_entries [] = []
sort_entries (e ∷ es) = insert_entry e (sort_entries es)

-- A directory to walk: its path, and the keys of the directories on the way, itself first.
pub record Pending : Type 0 where
  pub rel : Bytes
  pub chain : List Bytes

-- What was found, and the stack of directories.
pub record Walk : Type 0 where
  pub out : Manifest
  pub pending : List Pending

abbrev pub is_dots : Bytes → Bool
is_dots name = bytes_eq name (b'.' ∷ []) || bytes_eq name (b'.' ∷ b'.' ∷ [])

abbrev pub own_key : List Bytes → Bytes
own_key [] = []
own_key (k ∷ ks) = k

module _ (fs : FileSystem) (rules : List Rule) (follow : Bool) where
  unfoldable pub probe_entry : Bytes → EntryProbe
  probe_entry path =
      let self = fs.stat_nofollow path in
      let target = fs.stat_follow path in
      if not self.there
      then no_probe
      else if not self.link
      then record no_probe { directory = self.directory; mode = self.mode }
      else if not follow
      then record no_probe { symlink = true }
      else if not target.there
      then record no_probe { symlink = true; broken = true }
      else record {
        symlink = true;
        broken = false;
        directory = target.directory;
        size = target.size;
        mtime = target.mtime;
        mode = target.mode;
      }

  abbrev pub push : Bytes → List Bytes → Walk → Walk
  push rel chain w = record w { pending = record { rel = rel; chain = chain } ∷ w.pending }

  -- A directory of the listing.
  unfoldable pub visit_directory : Pending → Entry → Walk → Walk
  unfolding probe_entry join_rel
  visit_directory item e w =
      let rel = join_rel item.rel e.name in
      let info = probe_entry rel in
      if matches rules rel true
      then w
      else if not info.symlink
      then push rel (if follow then fs.child_key (own_key item.chain) e.name ∷ item.chain else []) w
      else if not follow || info.broken || not info.directory
      then w
      else elim (fs.real_key rel) [
        | none ↦ w
        | some key ↦ if listed key item.chain then w else push rel (key ∷ item.chain) w
      ]

  -- Size, modification time and mode of a file of the listing.
  unfoldable pub seen_meta : Entry → EntryProbe → FileMeta
  seen_meta e info = record {
    size = if info.symlink then info.size else e.size;
    mtime = if info.symlink then info.mtime else e.modified_time;
    mode = info.mode;
    hash = [];
  }

  -- The cheap signal by which a hash is used again.
  unfoldable pub same_signal : FileMeta → FileMeta → Bool
  same_signal p m = p.size == m.size && eq_ℤ p.mtime m.mtime

  unfoldable pub hash_of : Option Manifest → Bytes → FileMeta → Option Bytes
  unfolding same_signal
  hash_of none rel m = fs.sha256_file rel
  hash_of (some previous) rel m = elim (find rel previous) [
    | none ↦ fs.sha256_file rel
    | some p ↦ if same_signal p m then some p.hash else fs.sha256_file rel
  ]

  -- A file of the listing.
  unfoldable pub visit_file : Option Manifest → Pending → Entry → Walk → Walk
  unfolding probe_entry join_rel seen_meta hash_of
  visit_file previous item e w =
      let rel = join_rel item.rel e.name in
      let info = probe_entry rel in
      let m = seen_meta e info in
      if matches rules rel false
      then w
      else if info.symlink && (not follow || info.broken || info.directory)
      then w
      else elim (hash_of previous rel m) [
        | none ↦ w
        | some h ↦ record w { out = set rel (record m { hash = h }) w.out }
      ]

  unfoldable pub visit : Option Manifest → Pending → Entry → Walk → Walk
  unfolding visit_directory visit_file
  visit previous item e w =
      if is_dots e.name
      then w
      else if e.is_directory
      then visit_directory item e w
      else visit_file previous item e w

  unfoldable pub visit_all : Option Manifest → Pending → List Entry → Walk → Walk
  unfolding visit
  visit_all previous item [] w = w
  visit_all previous item (e ∷ es) w = visit_all previous item es (visit previous item e w)

  -- The loop over the stack, on fuel: a directory each round.
  unfoldable pub walk : ℕ → Option Manifest → Walk → Walk
  unfolding visit_all sort_entries
  walk zero previous w = w
  walk (suc fuel) previous w = elim w.pending [
    | [] ↦ w
    | item ∷ rest ↦
        let popped : Walk = record w { pending = rest } in
        elim (fs.list item.rel) [
          | none ↦ walk fuel previous popped
          | some es ↦ walk fuel previous (visit_all previous item (sort_entries es) popped)
        ]
  ]

  -- `Scanner::scan`, for as many directories as the fuel allows, without the counters for the log.
  unfoldable pub scan : ℕ → Option Manifest → Walk
  unfolding walk
  scan fuel previous = walk fuel previous (record {
    out = [];
    pending = record { rel = []; chain = if follow then fs.root_key ∷ [] else [] } ∷ [];
  })
