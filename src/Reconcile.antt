-- ===== src/Reconcile.antt =====
-- core/diff.h, core/diff.cpp: the three-way merge that plans one side's actions.
pub mod Decide
pub mod Converge
pub mod Stuck
pub mod Keys
pub mod Symmetry
pub mod Plan
mod Tests
use rasync.Prelude.{ℕ, Bool, true, false, not, ◌||◌, ◌&&◌, List, [], ◌∷◌, ◌++◌, Option, none, some}
use rasync.Prelude.{ltb, ◌==◌, if◌then◌else◌}
use rasync.Prelude.Int.{ℤ, ltb_ℤ}
use rasync.Prelude.Equality.{eq_ℤ}
use rasync.Prelude.Order.{StrictOrder, bytes_order, bytes_lt}
use rasync.Codec.Writer.{Bytes}
use rasync.Meta.{FileMeta, same_content}
use rasync.SortedMap.{Map, emplace, find}
use rasync.Manifest.{Manifest}

pub data SyncMode : Type 0 where
  two_way mirror : SyncMode

pub data ConflictPolicy : Type 0 where
  newer larger prefer_local prefer_remote : ConflictPolicy

pub record ReconcileOptions : Type 0 where
  pub mode : SyncMode
  pub conflict : ConflictPolicy
  pub source : Bool
  pub propagate_deletes : Bool

unfoldable pub complement : ConflictPolicy → ConflictPolicy
complement ConflictPolicy.prefer_local = ConflictPolicy.prefer_remote
complement ConflictPolicy.prefer_remote = ConflictPolicy.prefer_local
complement ConflictPolicy.newer = ConflictPolicy.newer
complement ConflictPolicy.larger = ConflictPolicy.larger

-- A file's state relative to the baseline.
pub data Change : Type 0 where
  unchanged added modified deleted absent : Change

-- A pointer to a `FileMeta`, null where the path is not in the manifest.
abbrev pub Entry : Type 0
Entry = Option FileMeta

unfoldable pub classify : Entry → Entry → Change
classify (some cur) none = Change.added
classify (some cur) (some base) =
    if same_content cur base then Change.unchanged else Change.modified
classify none (some base) = Change.deleted
classify none none = Change.absent

unfoldable pub changed : Change → Bool
changed Change.added = true
changed Change.modified = true
changed Change.deleted = true
changed Change.unchanged = false
changed Change.absent = false

-- The cases of `local_wins` that compare two versions.
unfoldable pub newer_wins : FileMeta → FileMeta → Bool
newer_wins l r =
    if not (eq_ℤ l.mtime r.mtime) then ltb_ℤ r.mtime l.mtime else bytes_lt r.hash l.hash

unfoldable pub larger_wins : FileMeta → FileMeta → Bool
unfolding newer_wins
larger_wins l r = if not (l.size == r.size) then ltb r.size l.size else newer_wins l r

unfoldable pub local_wins : Entry → Entry → ConflictPolicy → Bool
unfolding newer_wins larger_wins
local_wins (some l) none p = elim p [ ConflictPolicy.prefer_remote ↦ false | _ ↦ true ]
local_wins none (some r) p = elim p [ ConflictPolicy.prefer_local ↦ true | _ ↦ false ]
local_wins none none p = true
local_wins (some l) (some r) ConflictPolicy.prefer_local = true
local_wins (some l) (some r) ConflictPolicy.prefer_remote = false
local_wins (some l) (some r) ConflictPolicy.larger = larger_wins l r
local_wins (some l) (some r) ConflictPolicy.newer = newer_wins l r

pub data DecisionKind : Type 0 where
  nothing pull delete_local push delete_remote : DecisionKind

pub record Decision : Type 0 where
  pub kind : DecisionKind
  pub conflict : Bool

abbrev pub decision : DecisionKind → Bool → Decision
decision k c = record { kind = k; conflict = c }

-- What a side does about a path that the other side's version wins.
abbrev pub yield_to : Entry → Bool → Bool → Decision
yield_to (some r) deletes conflict = decision DecisionKind.pull conflict
yield_to none deletes conflict =
    if deletes
    then decision DecisionKind.delete_local conflict
    else decision DecisionKind.nothing conflict

abbrev pub offer : Entry → Bool → Decision
offer (some l) conflict = decision DecisionKind.push conflict
offer none conflict = decision DecisionKind.delete_remote conflict

-- `L && R && L->same_content(*R)`
abbrev pub agree : Entry → Entry → Bool
agree (some l) (some r) = same_content l r
agree (some l) none = false
agree none r = false

abbrev pub is_none : Entry → Bool
is_none none = true
is_none (some m) = false

unfoldable pub decide_two_way : Entry → Entry → Entry → ReconcileOptions → Decision
unfolding classify changed local_wins
decide_two_way l r base o =
    let lc = changed (classify l base) in
    let rc = changed (classify r base) in
    if is_none l && is_none r
    then decision DecisionKind.nothing false
    else if agree l r
    then decision DecisionKind.nothing false
    else if lc && not rc
    then offer l false
    else if rc && not lc
    then yield_to r o.propagate_deletes false
    else if local_wins l r o.conflict
    then offer l true
    else yield_to r o.propagate_deletes true

unfoldable pub decide_mirror : Entry → Entry → ReconcileOptions → Decision
decide_mirror l r o =
    if o.source
    then (if is_none l
        then decision DecisionKind.delete_remote false
        else if agree r l
        then decision DecisionKind.nothing false
        else decision DecisionKind.push false)
    else if is_none r
    then (if o.propagate_deletes
        then decision DecisionKind.delete_local false
        else decision DecisionKind.nothing false)
    else if agree l r
    then decision DecisionKind.nothing false
    else decision DecisionKind.pull false

unfoldable pub decide : Bytes → Manifest → Manifest → Manifest → ReconcileOptions → Decision
decide path base local remote o = elim o.mode [
  | SyncMode.mirror ↦ decide_mirror (find path local) (find path remote) o
  | SyncMode.two_way ↦ decide_two_way (find path local) (find path remote) (find path base) o
]

-- `std::set<std::string>`
abbrev pub KeySet : Type 0
KeySet = Map Bytes (Unit {0})

-- `keys.insert(k)` for the keys of one manifest.
unfoldable pub insert_keys : Manifest → KeySet → KeySet
insert_keys [] keys = keys
insert_keys ((path, m) ∷ rest) keys = insert_keys rest (emplace path tt keys)

unfoldable pub union_keys : Manifest → Manifest → Manifest → KeySet
unfolding insert_keys
union_keys a b c = insert_keys c (insert_keys b (insert_keys a []))

pub record SyncPlan : Type 0 where
  pub pull : List Bytes
  pub delete_local : List Bytes
  pub conflicts : List Bytes
  pub push : List Bytes
  pub delete_remote : List Bytes

abbrev pub empty_plan : SyncPlan
empty_plan = record { pull = []; delete_local = []; conflicts = []; push = []; delete_remote = [] }

-- One round of the loop: the path joins the list of its decision, and the conflicts.
abbrev pub file_under : Bytes → DecisionKind → SyncPlan → SyncPlan
file_under path DecisionKind.pull p = record p { pull = p.pull ++ path ∷ [] }
file_under path DecisionKind.delete_local p = record p {
  delete_local = p.delete_local ++ path ∷ [];
}
file_under path DecisionKind.push p = record p { push = p.push ++ path ∷ [] }
file_under path DecisionKind.delete_remote p = record p {
  delete_remote = p.delete_remote ++ path ∷ [];
}
file_under path DecisionKind.nothing p = p

abbrev pub note_conflict : Bytes → Bool → SyncPlan → SyncPlan
note_conflict path conflict p =
    if conflict then record p { conflicts = p.conflicts ++ path ∷ [] } else p

unfoldable pub plan_loop : KeySet → (Bytes → Decision) → SyncPlan → SyncPlan
plan_loop [] d p = p
plan_loop ((path, _) ∷ rest) d p =
    plan_loop rest d (note_conflict path (d path).conflict (file_under path (d path).kind p))

-- In mirror mode the baseline counts as empty.
unfoldable pub reconcile : Manifest → Manifest → Manifest → ReconcileOptions → SyncPlan
unfolding decide union_keys plan_loop
reconcile base local remote o =
    let b : Manifest = elim o.mode [ SyncMode.mirror ↦ [] | SyncMode.two_way ↦ base ] in
    plan_loop (union_keys b local remote) (λ path. decide path b local remote o) empty_plan

abbrev pub no_paths : List Bytes → Bool
no_paths [] = true
no_paths (_ ∷ _) = false

-- `SyncPlan::empty`
unfoldable pub plan_is_empty : SyncPlan → Bool
plan_is_empty p =
    no_paths p.pull && no_paths p.delete_local && no_paths p.push && no_paths p.delete_remote
