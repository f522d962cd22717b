-- ===== src/Session/Handshake.antt =====
-- net/sync_session.cpp, `handle_hello`: both peers reach the same verdict.
use rasync.Prelude.{◌%◌, ◌^◌, ◌<◌, ◌≡◌, sym, ◌∙◌, arith, true, ◌∷◌, ◌++◌, length, ◌==◌}
use rasync.Prelude.Equality.{bytes_eq_comm, bytes_eq→eq}
use rasync.Codec.Writer
use rasync.Codec.Writer.{Bytes, be_bytes}
use rasync.Codec.Reader.{start}
use rasync.Codec.RoundTrip.{u8-Reads, str16-Reads}
use rasync.Reconcile.{SyncMode, ConflictPolicy, complement}
use rasync.Session.{
  Config, HelloOutcome, handle_hello, judge_hello, hello_body, version, mode_byte, conflict_byte,
  is_two_way,
}

mode_byte-lt : (m : SyncMode) → mode_byte m < 256
unfolding mode_byte
mode_byte-lt SyncMode.two_way = omega arith
mode_byte-lt SyncMode.mirror = omega arith

conflict_byte-lt : (p : ConflictPolicy) → conflict_byte p < 256
unfolding conflict_byte
conflict_byte-lt ConflictPolicy.newer = omega arith
conflict_byte-lt ConflictPolicy.larger = omega arith
conflict_byte-lt ConflictPolicy.prefer_local = omega arith
conflict_byte-lt ConflictPolicy.prefer_remote = omega arith

-- A peer's Hello is read as its configuration.
handle_hello-hello_body :
    (ours theirs : Config) (rest : Bytes)
    → length theirs.folder < 2 ^ 16
    → handle_hello ours (start (hello_body theirs ++ rest))
      ≡ judge_hello ours version
          (mode_byte theirs.mode)
          (conflict_byte theirs.conflict)
          theirs.folder
unfolding handle_hello hello_body Writer.str16 Writer.u8 Writer.u16 Writer.raw
handle_hello-hello_body ours theirs rest h =
    let name = be_bytes 2 (length theirs.folder % 2 ^ 16) ++ theirs.folder in
    let b₂ = (conflict_byte theirs.conflict % 256) ∷ (name ++ rest) in
    let b₁ = (mode_byte theirs.mode % 256) ∷ b₂ in
    rw (
      u8-Reads version (omega arith) b₁,
      u8-Reads (mode_byte theirs.mode) (mode_byte-lt theirs.mode) b₂,
      u8-Reads (conflict_byte theirs.conflict) (conflict_byte-lt theirs.conflict) (name ++ rest),
      str16-Reads theirs.folder h rest,
    )

pairs :
    (p q : ConflictPolicy)
    → (conflict_byte p == conflict_byte (complement q))
      ≡ (conflict_byte q == conflict_byte (complement p))
unfolding conflict_byte complement
pairs p q = ground arith

modes : (m n : SyncMode) → (mode_byte m == mode_byte n) ≡ (mode_byte n == mode_byte m)
modes m n = ground arith

same_mode : (m n : SyncMode) → (mode_byte m == mode_byte n) ≡ true → is_two_way m ≡ is_two_way n
unfolding mode_byte
same_mode m n h = ground arith

judged_alike :
    (a b : Config)
    → judge_hello a version (mode_byte b.mode) (conflict_byte b.conflict) b.folder
      ≡ judge_hello b version (mode_byte a.mode) (conflict_byte a.conflict) a.folder
unfolding judge_hello
judged_alike a b = ground (
  arith,
  bytes_eq_comm a.folder b.folder,
  modes a.mode b.mode,
  same_mode a.mode b.mode,
  pairs a.conflict b.conflict,
)

-- Two peers whose folder names are shorter than 2^16 bytes reach the same verdict on each other's
-- Hello, whatever follows it.
pub handle_hello_comm :
    (a b : Config) (rest rest' : Bytes)
    → length a.folder < 2 ^ 16
    → length b.folder < 2 ^ 16
    → handle_hello a (start (hello_body b ++ rest)) ≡ handle_hello b (start (hello_body a ++ rest'))
handle_hello_comm a b rest rest' h k =
    handle_hello-hello_body a b rest k
    ∙ judged_alike a b
    ∙ sym (handle_hello-hello_body b a rest' h)

mode_byte_inj : (m n : SyncMode) → (mode_byte m == mode_byte n) ≡ true → m ≡ n
unfolding mode_byte
mode_byte_inj m n h = ground arith

conflict_byte_inj : (p q : ConflictPolicy) → (conflict_byte p == conflict_byte q) ≡ true → p ≡ q
unfolding conflict_byte
conflict_byte_inj p q h = ground arith

accepted_means :
    (a b : Config)
    → judge_hello a version (mode_byte b.mode) (conflict_byte b.conflict) b.folder
      ≡ HelloOutcome.accepted
    → a.mode ≡ SyncMode.two_way
    → (b.folder ≡ a.folder) × (b.mode ≡ SyncMode.two_way) × (b.conflict ≡ complement a.conflict)
unfolding judge_hello
accepted_means a b h m = (
  ground (arith, bytes_eq→eq b.folder a.folder),
  ground (arith, mode_byte_inj b.mode a.mode),
  ground (arith, conflict_byte_inj b.conflict (complement a.conflict), m),
)

-- A two-way peer that accepts a Hello of the other peer, with no warning, has found the same folder
-- name, the same mode, and the complementary conflict policy.
pub handle_hello-complement :
    (ours theirs : Config) (rest : Bytes)
    → length theirs.folder < 2 ^ 16
    → ours.mode ≡ SyncMode.two_way
    → handle_hello ours (start (hello_body theirs ++ rest)) ≡ HelloOutcome.accepted
    → (theirs.folder ≡ ours.folder)
      × (theirs.mode ≡ SyncMode.two_way)
      × (theirs.conflict ≡ complement ours.conflict)
handle_hello-complement ours theirs rest h m e =
    accepted_means ours theirs (sym (handle_hello-hello_body ours theirs rest h) ∙ e) m
