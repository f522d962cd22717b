-- ===== src/Service.antt =====
-- net/sync_service.h, net/sync_service.cpp: the manifests of one folder, and its sessions.
pub mod Versions
pub mod Sessions
mod Tests
use rasync.Prelude.{
  ℕ, ◌+◌, ◌%◌, ◌^◌, Bool, true, false, not, ◌||◌, List, [], ◌∷◌, Option, none, some,
}
use rasync.Prelude.{if◌then◌else◌}
use rasync.Prelude.Equality.{bytes_eq}
use rasync.Prelude.Order.{bytes_order}
use rasync.Codec.Writer.{Bytes}
use rasync.Meta.{FileMeta}
use rasync.SortedMap.{Map, find, emplace, erase, set}
use rasync.Manifest.{Manifest, ManifestPatch, apply, is_empty}

-- `local_`, `base_` and `manifest_version_`, with what `baseline.man` holds where that is known.
pub record Store : Type 0 where
  pub local : Manifest
  pub base : Manifest
  pub version : ℕ
  pub saved : Option Manifest

-- `manifest_version_.fetch_add(1)`, in 64 bits.
abbrev pub bump : ℕ → ℕ
bump v = (v + 1) % 2 ^ 64

abbrev pub empty_store : Store
empty_store = record { local = []; base = []; version = 0; saved = none }

-- `load_baseline`, with what `Manifest::load` gives.
unfoldable pub load_baseline : Option Manifest → Store → Store
load_baseline none s = s
load_baseline (some m) s = record s { base = m; version = bump s.version }

-- The first argument is what `Manifest::save` returned, which nothing looks at. Where it failed, the
-- file may hold anything.
unfoldable pub set_base_manifest : Bool → Manifest → Store → Store
set_base_manifest saves m s = record s {
  base = m;
  version = bump s.version;
  saved = if saves then some m else none;
}

unfoldable pub note_local_set : Bytes → FileMeta → Store → Store
note_local_set path m s = record s { local = set path m s.local; version = bump s.version }

unfoldable pub note_local_removed : Bytes → Store → Store
note_local_removed path s = record s { local = erase path s.local; version = bump s.version }

-- These two say whether the sessions are told (`notify_sessions`).
unfoldable pub set_local_manifest : Manifest → Store → Bool × Store
set_local_manifest m s = (true, record s { local = m; version = bump s.version })

unfoldable pub apply_local_patch : ManifestPatch → Store → Bool × Store
apply_local_patch p s =
    if is_empty p
    then (false, s)
    else (true, record s { local = apply p s.local; version = bump s.version })

-- The ids of the peers that have a session, the allow-list, and `stopped_`.
pub record Service : Type 0 where
  pub allowed : List Bytes
  pub sessions : Map Bytes (Unit {0})
  pub stopped : Bool

unfoldable pub listed : Bytes → List Bytes → Bool
listed id [] = false
listed id (p ∷ ps) = bytes_eq id p || listed id ps

unfoldable pub peer_allowed : Bytes → Service → Bool
unfolding listed
peer_allowed id s = elim s.allowed [ [] ↦ true | p ∷ ps ↦ listed id (p ∷ ps) ]

abbrev pub present : Option (Unit {0}) → Bool
present none = false
present (some u) = true

abbrev pub has_session : Bytes → Service → Bool
has_session id s = present (find id s.sessions)

-- `session_for`: is there one now? A new one is started.
unfoldable pub session_for : Bytes → Service → Bool × Service
session_for id s =
    if s.stopped
    then (false, s)
    else if has_session id s
    then (true, s)
    else (true, record s { sessions = emplace id tt s.sessions })

-- `peer_connected`: is a Hello sent?
unfoldable pub peer_connected : Bytes → Service → Bool
unfolding peer_allowed
peer_connected id s = if s.stopped then false else peer_allowed id s

-- `peer_disconnected`: is a session stopped?
unfoldable pub peer_disconnected : Bytes → Service → Bool × Service
peer_disconnected id s =
    if has_session id s then (true, record s { sessions = erase id s.sessions }) else (false, s)

-- `handle_message`: does a session handle it?
unfoldable pub handle_message : Bytes → Service → Bool × Service
unfolding peer_allowed session_for
handle_message from s = if not (peer_allowed from s) then (false, s) else session_for from s

-- `shutdown`: the sessions that are stopped.
unfoldable pub shutdown : Service → Map Bytes (Unit {0}) × Service
shutdown s = if s.stopped then ([], s) else (s.sessions, record s { stopped = true; sessions = [] })
