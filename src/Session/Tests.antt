-- ===== src/Session/Tests.antt =====
-- net/sync_session.cpp at concrete messages.
use rasync.Prelude.{ℕ, ◌≡◌, refl, arith, true, false, none, List, [], ◌∷◌, ◌++◌, replicate}
use rasync.Prelude.Int.{pos}
use rasync.Codec.Writer
use rasync.Codec.Reader
use rasync.Codec.Reader.{start}
use rasync.Paths.{is_safe_relpath}
use rasync.Meta.{FileMeta, InRange}
use rasync.Manifest.{ManifestPatch}
use rasync.Manifest.Encoding.{encode_patch}
use rasync.Codec.Writer.{Bytes}
use rasync.Reconcile.{SyncMode, ConflictPolicy, complement}
use rasync.Session.{Config, HelloOutcome, View, handle_hello, hello_body, handle_manifest_update}
use rasync.Session.Handshake.{handle_hello_comm, handle_hello-complement}
use rasync.Session.Update.{SafeView, handle_manifest_update-SafeView}
use rasync.Service.{Store, note_local_set, note_local_removed}
use rasync.Service.Versions.{change, received, removed}
use rasync.Session.InStep.{
  Event, changed, advertised, step, run, linked, TidyEvents, advertised_tree,
}
use rasync.Prelude.{length, ◌≤◌, ◌<◌, ◌⊎◌}
use rasync.SortedMap.{find, set, emplace, erase}
use rasync.Session.Pull.{
  Session, Reached, start as fresh_session, next, planned, requested, idle, reserve, in_flight,
  may_request, next_request, release_pull,
}
use rasync.Session.Pull.Window.{in_flight_bounded, queued_goes}

abbrev keeper : Config
keeper = record {
  mode = SyncMode.two_way;
  conflict = ConflictPolicy.prefer_local;
  folder = b'd' ∷ [];
}

abbrev yielder : Config
yielder = record {
  mode = SyncMode.two_way;
  conflict = ConflictPolicy.prefer_remote;
  folder = b'd' ∷ [];
}

handle_hello_comm_example :
    handle_hello keeper (start (hello_body yielder ++ []))
    ≡ handle_hello yielder (start (hello_body keeper ++ 0 ∷ []))
handle_hello_comm_example = handle_hello_comm keeper yielder [] (0 ∷ []) (omega arith) (omega arith)

keeper_accepts : handle_hello keeper (start (hello_body yielder ++ [])) ≡ HelloOutcome.accepted
unfolding handle_hello hello_body Reader.str16 Reader.u8 Writer.str16 Writer.raw Writer.u16
    Writer.u8 Writer.be_bytes Reader.be_value complement
keeper_accepts = refl

keeper_refuses : handle_hello keeper (start (hello_body keeper ++ [])) ≡ HelloOutcome.refused
unfolding handle_hello hello_body Reader.str16 Reader.u8 Writer.str16 Writer.raw Writer.u16
    Writer.u8 Writer.be_bytes Reader.be_value complement
keeper_refuses = refl

handle_hello-complement_example :
    (yielder.folder ≡ keeper.folder)
    × (yielder.mode ≡ SyncMode.two_way)
    × (yielder.conflict ≡ complement keeper.conflict)
handle_hello-complement_example =
    handle_hello-complement keeper yielder [] (omega arith) refl keeper_accepts

abbrev meta_of : ℕ → FileMeta
meta_of n = record { size = n; mtime = pos 7; mode = 1; hash = replicate 32 n }

-- The peer is known to hold b.
abbrev known : View
known = record {
  remote = (b'b' ∷ [], meta_of 1) ∷ [];
  have_remote = true;
  remote_version = 3;
  staging = [];
  staging_active = false;
}

-- Sets a and ../c, and removes b.
abbrev patch : ManifestPatch
patch = record {
  sets = (b'a' ∷ [], meta_of 2) ∷ (b'.' ∷ b'.' ∷ b'/' ∷ b'c' ∷ [], meta_of 2) ∷ [];
  removed = (b'b' ∷ []) ∷ [];
}

known_safe : SafeView known
unfolding is_safe_relpath
known_safe = record { remote_safe = (refl, tt); staging_safe = tt }

handle_manifest_update-SafeView_example :
    SafeView (handle_manifest_update (start (0 ∷ encode_patch [] patch)) known).1
handle_manifest_update-SafeView_example =
    handle_manifest_update-SafeView (start (0 ∷ encode_patch [] patch)) known known_safe

meta_of_fits : (n : ℕ) → n < 256 → InRange (meta_of n)
meta_of_fits n h = record {
  size_fits = omega (arith, h);
  mtime_fits = omega arith;
  mode_fits = omega arith;
  hash_fits = refl;
}

-- Sets a, and removes b.
abbrev safe_patch : ManifestPatch
safe_patch = record { sets = (b'a' ∷ [], meta_of 2) ∷ []; removed = (b'b' ∷ []) ∷ [] }

abbrev small_store : Store
small_store = record { local = (b'c' ∷ [], meta_of 1) ∷ []; base = []; version = 1; saved = none }

-- A file arrives, the tree is advertised, and a file goes.
abbrev some_changes : List Event
some_changes =
    changed (received (b'a' ∷ []) (meta_of 2)) ∷ advertised ∷ changed (removed (b'c' ∷ [])) ∷ []

small_tidy : TidyEvents some_changes small_store
unfolding is_safe_relpath change note_local_set note_local_removed set erase
small_tidy = (
  record {
    fit = (
      record { nonempty = refl; short = omega arith },
      meta_of_fits 2 (omega arith),
      (record { nonempty = refl; short = omega arith }, meta_of_fits 1 (omega arith), tt),
    );
    safe = (refl, (refl, tt));
    few = omega arith;
  },
  record {
    fit = (record { nonempty = refl; short = omega arith }, meta_of_fits 2 (omega arith), tt);
    safe = (refl, tt);
    few = omega arith;
  },
)

advertised_tree_example :
    (step 60 advertised (run 60 some_changes (linked small_store known))).peer.remote
    ≡ (run 60 some_changes (linked small_store known)).store.local
advertised_tree_example =
    advertised_tree 60 small_store known some_changes (tt, tt) (omega arith) refl (omega arith)
      (tt, (tt, tt)) small_tidy

abbrev path_a : Bytes
path_a = b'a' ∷ []

abbrev path_b : Bytes
path_b = b'b' ∷ []

abbrev both_planned : Session
both_planned = record { pulls = reserve (path_a ∷ path_b ∷ []) idle.pulls; asked = [] }

-- Two paths are planned, and the first is asked for.
first_asked : Reached 1 (record {
  pulls = record { pulling = both_planned.pulls.pulling; queue = path_b ∷ [] };
  asked = path_a ∷ [];
})
unfolding reserve find emplace may_request next_request
first_asked = next (next fresh_session (planned (path_a ∷ path_b ∷ []))) (
    requested {s = both_planned} path_a
      (record { pulling = both_planned.pulls.pulling; queue = path_b ∷ [] }) refl refl)

in_flight_bounded_example :
    (length (path_a ∷ []) ≤ 1)
    × (in_flight (record { pulling = both_planned.pulls.pulling; queue = path_b ∷ [] }) ≡ 1)
in_flight_bounded_example =
    in_flight_bounded 1
      (record {
        pulls = record { pulling = both_planned.pulls.pulling; queue = path_b ∷ [] };
        asked = path_a ∷ [];
      })
      first_asked

queued_goes_example : (may_request 1 both_planned.pulls ≡ true) ⊎ (0 < length both_planned.asked)
unfolding reserve find emplace
queued_goes_example =
    queued_goes 1 both_planned (omega arith) (next fresh_session (planned (path_a ∷ path_b ∷ [])))
      (omega arith)

-- A peer gives back a path that waits in the queue: with one request open, and a window of one, the
-- requester may ask for another.
uncounted :
    may_request 1
      (record { pulling = (release_pull path_a both_planned.pulls).pulling; queue = path_b ∷ [] })
    ≡ true
unfolding reserve find emplace erase may_request release_pull
uncounted = refl
