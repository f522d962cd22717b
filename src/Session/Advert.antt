-- ===== src/Session/Advert.antt =====
-- net/sync_session.cpp: `advertise_locked`, which tells the peer what it has not heard yet.
use rasync.Prelude.{ℕ, Bool, true, false, not, ◌&&◌, [], Option}
use rasync.Prelude.{none, some, ◌==◌, if◌then◌else◌}
use rasync.Prelude.Order.{bytes_order}
use rasync.Manifest.{Manifest, ManifestPatch, diff_manifests, is_empty}
use rasync.Service.{Store}

-- `last_sent_`, its version, and `advertise_pending_`.
pub record Advert : Type 0 where
  pub last_sent : Manifest
  pub last_sent_valid : Bool
  pub last_sent_version : ℕ
  pub advertise_pending : Bool

abbrev pub first_advert : Advert
first_advert = record {
  last_sent = [];
  last_sent_valid = false;
  last_sent_version = 0;
  advertise_pending = false;
}

-- An update: is it a reset, and what it carries.
abbrev pub Update : Type 0
Update = Bool × ManifestPatch

-- Every entry is set.
abbrev pub whole_tree : Manifest → ManifestPatch
whole_tree m = record { sets = m; removed = [] }

unfoldable pub advertise_locked : Store → Advert → Option Update × Advert
advertise_locked s a =
    let heard : Advert = record a { advertise_pending = false } in
    let now : Advert = record heard { last_sent_version = s.version } in
    let sent : Advert = record now { last_sent = s.local; last_sent_valid = true } in
    let patch = diff_manifests a.last_sent s.local in
    if a.last_sent_valid && s.version == a.last_sent_version
    then (none, heard)
    else if not a.last_sent_valid
    then (some (true, whole_tree s.local), sent)
    else if is_empty patch
    then (none, now)
    else (some (false, patch), sent)
