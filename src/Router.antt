-- ===== src/Router.antt =====
-- net/sync_router.h, net/sync_router.cpp: the table of folders, and reports of unknown ones.
pub mod Table
pub mod Reports
pub mod Dispatch
mod Tests
use rasync.Prelude.{ℕ, Bool, true, false, not, ◌&&◌, ◌||◌, List, [], ◌∷◌, ◌++◌, Option, none, some}
use rasync.Prelude.{length, get_or, leb, ltb, ◌==◌, if◌then◌else◌}
use rasync.Prelude.Equality.{bytes_eq}
use rasync.Codec.Writer.{Bytes}
use rasync.Codec.Reader
use rasync.Codec.Reader.{Reader, start}

-- A `SyncService`, by its tag and its name.
pub record Folder : Type 0 where
  pub tag : ℕ
  pub name : Bytes

-- A peer's key, and a tag it used.
abbrev pub Key : Type 0
Key = Bytes × ℕ

pub record Router : Type 0 where
  pub folders : List Folder
  pub by_tag : List (ℕ × Folder)
  pub attached : Bool
  pub stopped : Bool
  pub unknown_seen : List Key

abbrev pub empty_router : Router
empty_router = record {
  folders = [];
  by_tag = [];
  attached = false;
  stopped = false;
  unknown_seen = [];
}

-- `by_tag_.find(tag)`
unfoldable pub find_tag : ℕ → List (ℕ × Folder) → Option Folder
find_tag tag [] = none
find_tag tag ((t, f) ∷ rest) = let found = find_tag tag rest in if t == tag then some f else found

unfoldable pub folder_for : ℕ → Router → Option Folder
unfolding find_tag
folder_for tag r = find_tag tag r.by_tag

unfoldable pub find_name : Bytes → List Folder → Option Folder
find_name name [] = none
find_name name (f ∷ rest) =
    let found = find_name name rest in if bytes_eq f.name name then some f else found

unfoldable pub folder_named : Bytes → Router → Option Folder
unfolding find_name
folder_named name r = find_name name r.folders

-- `add_folder`: refused once attached, or where the tag is taken.
unfoldable pub add_folder : Folder → Router → Bool × Router
unfolding find_tag
add_folder f r = if r.attached then (false, r) else elim (find_tag f.tag r.by_tag) [
  | some g ↦ (false, r)
  | none ↦ (true, record r { by_tag = (f.tag, f) ∷ r.by_tag; folders = r.folders ++ f ∷ [] })
]

unfoldable pub seen : Key → List Key → Bool
seen k [] = false
seen (p, t) ((q, u) ∷ ks) = (bytes_eq p q && t == u) || seen (p, t) ks

abbrev pub max_remembered : ℕ
max_remembered = 256

-- `proto::Op::Hello`, and the place of the opcode.
abbrev pub is_hello : Bytes → Bool
is_hello payload = get_or payload 4 0 == 1

-- The name in a Hello, behind the tag, the opcode and three bytes.
unfoldable pub quoted_name : Bytes → Option Bytes
quoted_name payload =
    let (tag, r₁) = Reader.u32 (start payload) in
    let (op, r₂) = Reader.u8 r₁ in
    let (version, r₃) = Reader.u8 r₂ in
    let (mode, r₄) = Reader.u8 r₃ in
    let (conflict, r₅) = Reader.u8 r₄ in
    let (name, r₆) = Reader.str16 r₅ in if not r₆.ok || length name == 0 then none else some name

-- `report_unknown`: the name it logs, if it does.
unfoldable pub report_unknown : Bytes → ℕ → Bytes → Router → Option Bytes × Router
unfolding seen quoted_name
report_unknown from tag payload r =
    if not (is_hello payload)
    then (none, r)
    else if leb max_remembered (length r.unknown_seen)
    then (none, r)
    else if seen (from, tag) r.unknown_seen
    then (none, r)
    else (quoted_name payload, record r { unknown_seen = (from, tag) ∷ r.unknown_seen })
