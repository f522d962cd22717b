-- ===== src/Session/SyncedTests.antt =====
-- net/sync_session.cpp: the check for agreement, on concrete trees.
use rasync.Prelude.{ℕ, ◌≡◌, refl, true, false, [], ◌∷◌, none, replicate}
use rasync.Prelude.Int.{pos}
use rasync.Meta.{same_content}
use rasync.SortedMap.{find, emplace}
use rasync.Manifest.{Manifest}
use rasync.Reconcile.{
  reconcile, plan_is_empty, decide, union_keys, insert_keys, plan_loop, decide_two_way,
  ReconcileOptions, SyncMode, ConflictPolicy,
}
use rasync.Transfer.{Table}
use rasync.Session.Advert.{first_advert}
use rasync.Session.Pull.{Pulls}
use rasync.Session.Synced.{
  Tracked, evaluate, announce, Agreed, is_busy, maybe_synced, maybe_synced-Agreed,
}

abbrev tree : Manifest
tree = (b'a' ∷ [], record { size = 4; mtime = pos 7; mode = 1; hash = replicate 32 9 }) ∷ []

-- The peer holds the same file, and the baseline is still empty.
abbrev agreeing : Tracked
agreeing = record {
  store = record { local = tree; base = []; version = 1; saved = none };
  advert = first_advert;
  view = record {
    remote = tree;
    have_remote = true;
    remote_version = 1;
    staging = [];
    staging_active = false;
  };
  last_eval = none;
  last_synced = none;
}

abbrev options : ReconcileOptions
options = record {
  mode = SyncMode.two_way;
  conflict = ConflictPolicy.newer;
  source = false;
  propagate_deletes = true;
}

abbrev no_pulls : Pulls
no_pulls = record { pulling = []; queue = [] }

abbrev no_transfers : Table
no_transfers = []

abbrev no_serves : ℕ
no_serves = 0

maybe_synced-Agreed_example :
    ((no_pulls.pulling ≡ []) × (no_transfers ≡ []) × (no_serves ≡ 0))
    × Agreed options true agreeing
        (maybe_synced (λ xs. xs) options true no_pulls no_transfers no_serves agreeing).1.1
unfolding maybe_synced evaluate announce is_busy reconcile plan_is_empty decide union_keys
    insert_keys plan_loop decide_two_way find emplace same_content
maybe_synced-Agreed_example =
    maybe_synced-Agreed (λ xs. xs) options true no_pulls no_transfers no_serves agreeing refl
      (tt, (tt, tt), (tt, tt)) refl
