-- ===== src/Session.antt =====
-- net/sync_session.cpp, net/protocol.h: what a session does with the messages of its peer.
pub mod Handshake
pub mod Update
pub mod Chunks
pub mod Wire
pub mod Tidy
pub mod Advert
pub mod InStep
pub mod Pull
pub mod Synced
mod SyncedTests
mod Tests
use rasync.Prelude.{
  ℕ, suc, ◌+◌, ◌/◌, ◌%◌, Bool, true, false, not, ◌||◌, List, [], ◌∷◌, Option, none, some,
}
use rasync.Prelude.{◌==◌, if◌then◌else◌}
use rasync.Prelude.Equality.{bytes_eq}
use rasync.Codec.Writer
use rasync.Codec.Writer.{Bytes}
use rasync.Codec.Reader
use rasync.Codec.Reader.{Reader}
use rasync.Meta.{FileMeta}
use rasync.Paths.{is_safe_relpath}
use rasync.Manifest.{Manifest, ManifestPatch, apply}
use rasync.Manifest.Encoding.{decode_patch}
use rasync.Reconcile.{SyncMode, ConflictPolicy, complement}

-- `kVersion`
abbrev pub version : ℕ
version = 4

-- The parts of `SyncConfig` that a Hello carries.
pub record Config : Type 0 where
  pub mode : SyncMode
  pub conflict : ConflictPolicy
  pub folder : Bytes

unfoldable pub mode_byte : SyncMode → ℕ
mode_byte SyncMode.two_way = 0
mode_byte SyncMode.mirror = 1

unfoldable pub conflict_byte : ConflictPolicy → ℕ
conflict_byte ConflictPolicy.newer = 0
conflict_byte ConflictPolicy.larger = 1
conflict_byte ConflictPolicy.prefer_local = 2
conflict_byte ConflictPolicy.prefer_remote = 3

-- The body that `send_hello` writes behind the header.
unfoldable pub hello_body : Config → Bytes
unfolding mode_byte conflict_byte
hello_body c =
    Writer.str16
      (Writer.u8 (Writer.u8 (Writer.u8 [] version) (mode_byte c.mode)) (conflict_byte c.conflict))
      c.folder

-- What `handle_hello` does: nothing; go inert and send Bye; or send an advertisement, with a
-- warning before it or not.
pub data HelloOutcome : Type 0 where
  ignored refused warned accepted : HelloOutcome

abbrev pub is_two_way : SyncMode → Bool
is_two_way SyncMode.two_way = true
is_two_way SyncMode.mirror = false

-- The checks of `handle_hello` on the fields it has read.
unfoldable pub judge_hello : Config → ℕ → ℕ → ℕ → Bytes → HelloOutcome
unfolding mode_byte conflict_byte
judge_hello ours peer_version peer_mode peer_conflict peer_folder =
    if not (peer_version == version)
    then HelloOutcome.refused
    else if not (bytes_eq peer_folder ours.folder)
    then HelloOutcome.refused
    else if not (peer_mode == mode_byte ours.mode)
    then HelloOutcome.warned
    else if not (is_two_way ours.mode)
    then HelloOutcome.accepted
    else if not (peer_conflict == conflict_byte (complement ours.conflict))
    then HelloOutcome.refused
    else HelloOutcome.accepted

unfoldable pub handle_hello : Config → Reader → HelloOutcome
unfolding judge_hello
handle_hello ours r =
    let (peer_version, r₁) = Reader.u8 r in
    let (peer_mode, r₂) = Reader.u8 r₁ in
    let (peer_conflict, r₃) = Reader.u8 r₂ in
    let (peer_folder, r₄) = Reader.str16 r₃ in
    if not r₄.ok
    then HelloOutcome.ignored
    else judge_hello ours peer_version peer_mode peer_conflict peer_folder

-- The peer's tree as a session knows it.
pub record View : Type 0 where
  pub remote : Manifest
  pub have_remote : Bool
  pub remote_version : ℕ
  pub staging : Manifest
  pub staging_active : Bool

unfoldable pub safe_sets : List (Bytes × FileMeta) → List (Bytes × FileMeta)
safe_sets [] = []
safe_sets ((path, m) ∷ rest) =
    let kept = safe_sets rest in if is_safe_relpath path then (path, m) ∷ kept else kept

unfoldable pub sanitize : ManifestPatch → ManifestPatch
unfolding safe_sets
sanitize p = record p { sets = safe_sets p.sets }

-- `flags & kUpdateReset` and `flags & kUpdateMore`
unfoldable pub is_reset : ℕ → Bool
is_reset flags = flags % 2 == 1

unfoldable pub is_more : ℕ → Bool
is_more flags = flags / 2 % 2 == 1

-- `have_remote_ = true; ++remote_version_;`
abbrev pub published : Manifest → View → View
published m v = record {
  remote = m;
  have_remote = true;
  remote_version = suc v.remote_version;
  staging = [];
  staging_active = false;
}

-- The critical section of `handle_manifest_update`, on a patch that is sanitized. The Boolean says
-- whether a round of reconciliation follows.
unfoldable pub take_chunk : Bool → Bool → ManifestPatch → View → Bool × View
take_chunk reset more patch v =
    let base : Manifest = if reset then [] else v.staging in
    let staged : Manifest = apply patch base in
    if reset || v.staging_active
    then (if more
        then (false, record v { staging = staged; staging_active = true })
        else (true, published staged v))
    else if more
    then (false, record v { staging = apply patch v.remote; staging_active = true })
    else (
      true,
      record v {
        remote = apply patch v.remote;
        have_remote = true;
        remote_version = suc v.remote_version;
      },
    )

-- A message that does not decode changes nothing.
unfoldable pub handle_decoded : ℕ → Option ManifestPatch × Reader → View → Bool × View
unfolding take_chunk sanitize is_reset is_more
handle_decoded flags (none, r) v = (false, v)
handle_decoded flags (some patch, r) v =
    if not r.ok then (false, v) else take_chunk (is_reset flags) (is_more flags) (sanitize patch) v

unfoldable pub handle_manifest_update : Reader → View → Bool × View
unfolding handle_decoded
handle_manifest_update r v =
    let (flags, r') = Reader.u8 r in handle_decoded flags (decode_patch r') v
