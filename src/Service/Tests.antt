-- ===== src/Service/Tests.antt =====
-- net/sync_service.cpp at concrete peers and manifests.
use rasync.Prelude.{◌≡◌, refl, arith, true, false, List, [], ◌∷◌, none, replicate}
use rasync.Prelude.Int.{pos}
use rasync.Codec.Writer.{Bytes}
use rasync.Meta.{FileMeta}
use rasync.SortedMap.{find, emplace}
use rasync.Manifest.{no_change, is_empty}
use rasync.Service.{
  empty_store, load_baseline, note_local_set, apply_local_patch, has_session, peer_allowed,
  peer_connected, listed, session_for, peer_disconnected, handle_message, shutdown,
}
use rasync.Service.Versions.{change, change_all, version_unchanged, loaded, patched}
use rasync.Service.Sessions.{Event, step, run, service, run_guarded, message, disconnected, stop}

abbrev file : FileMeta
file = record { size = 4; mtime = pos 7; mode = 1; hash = replicate 32 9 }

version_unchanged_example :
    ((change_all
        (loaded none ∷ patched no_change ∷ [])
        (note_local_set (b'a' ∷ []) file empty_store)).local
      ≡ (note_local_set (b'a' ∷ []) file empty_store).local)
    × ((change_all
          (loaded none ∷ patched no_change ∷ [])
          (note_local_set (b'a' ∷ []) file empty_store)).base
        ≡ (note_local_set (b'a' ∷ []) file empty_store).base)
unfolding change load_baseline apply_local_patch note_local_set is_empty
version_unchanged_example =
    version_unchanged (loaded none ∷ patched no_change ∷ [])
      (note_local_set (b'a' ∷ []) file empty_store) (omega arith) (omega arith) refl

abbrev alice : Bytes
alice = b'a' ∷ []

abbrev mallory : Bytes
mallory = b'm' ∷ []

-- Mallory is not listed, and Alice is.
abbrev some_talk : List Event
some_talk = message mallory ∷ message alice ∷ disconnected mallory ∷ []

run_guarded_example :
    (peer_allowed alice (run some_talk (service (alice ∷ []) [] false)) ≡ true)
    × ((run some_talk (service (alice ∷ []) [] false)).stopped ≡ false)
unfolding step handle_message peer_disconnected session_for peer_allowed listed find emplace
run_guarded_example = run_guarded (alice ∷ []) some_talk alice refl

mallory_has_none : has_session mallory (run some_talk (service (alice ∷ []) [] false)) ≡ false
unfolding step handle_message peer_disconnected session_for peer_allowed listed find emplace
mallory_has_none = refl

none_after_stop :
    has_session alice (run (message alice ∷ stop ∷ message alice ∷ []) (service [] [] false))
    ≡ false
unfolding step handle_message session_for peer_allowed listed find emplace shutdown
none_after_stop = refl

hello_to_alice : peer_connected alice (service (alice ∷ []) [] false) ≡ true
unfolding peer_connected peer_allowed listed
hello_to_alice = refl
