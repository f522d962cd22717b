-- ===== src/Transfer.antt =====
-- net/sync_session.cpp: the messages that carry a file, and what their receiver does.
pub mod Serve
pub mod Window
pub mod Flow
pub mod Handlers
pub mod Verified
pub mod Fed
pub mod Body
pub mod Delivered
mod Tests
use rasync.Prelude.{
  ℕ, zero, suc, ◌+◌, ◌-◌, ◌*◌, ◌%◌, ◌^◌, ◌≤◌, ◌≡◌, min, Bool, true, false, not, ◌&&◌, List, [], ◌∷◌,
  ◌++◌,
}
use rasync.Prelude.{Option, none, some, length, leb, ◌==◌, if◌then◌else◌}
use rasync.Prelude.Int.{ℤ}
use rasync.Prelude.Equality.{bytes_eq}
use rasync.Prelude.Order.{nat_order}
use rasync.Codec.Writer.{Bytes}
use rasync.Codec.Reader
use rasync.Codec.Reader.{Reader}
use rasync.Meta.{FileMeta}
use rasync.Paths.{is_safe_relpath}
use rasync.SortedMap.{Map, find, set, erase}

-- The files of librats and the system, with its SHA-256: the copy that is open as a base; whether
-- the path of a transfer's temp file was cleared, and the file opened; a positioned write into a file;
-- a read at a position, as long as the source asks at most; whether a temp file that is at its path
-- was moved into place. An open file can be removed, and written on.
pub record Disk : Type 0 where
  pub base_of : Bytes → Option Bytes
  pub clears : ℕ → Bool
  pub opens : ℕ → Bool
  pub write_at : ℕ → Bytes → Bytes → Option Bytes
  pub read_at : ℕ → ℕ → Bytes → Option Bytes
  pub moves : Bytes → Bool
  pub sha256 : Bytes → Bytes
  -- A write at the end of a file extends it, and no write makes it shorter.
  pub write_end : (d f g : Bytes) → write_at (length f) d f ≡ some g → g ≡ f ++ d
  pub write_grows : (p : ℕ) (d f g : Bytes) → write_at p d f ≡ some g → length f ≤ length g

-- The bodies of FileStart, FileLiteral, FileCopy and FileEnd.
pub data Frame : Type 0 where
  file_start : ℕ → Bytes → ℕ → ℤ → ℕ → Bool → Frame
  file_literal : ℕ → Bytes → Frame
  file_copy : ℕ → ℕ → ℕ → Frame
  file_end : ℕ → Bytes → Frame

-- The bytes in the temp file, and those that went into the running hash, stand for the two
-- streams and the hash context, and `named` says whether the temp file is still at its path. A
-- transfer that has failed is no longer in the table.
pub record Incoming : Type 0 where
  pub rel_path : Bytes
  pub size : ℕ
  pub mtime : ℤ
  pub mode : ℕ
  pub is_delta : Bool
  pub base : Option Bytes
  pub out : Bytes
  pub hashed : Bytes
  pub written : ℕ
  pub on_wire : ℕ
  pub last_ack : ℕ
  pub named : Bool

-- What the receiver does besides: it acks, it asks for the whole file, it gives a pull back without
-- the file, or it has put a file in its place and in the local manifest.
pub data Effect : Type 0 where
  acked : ℕ → ℕ → Effect
  asked : Bytes → Effect
  abandoned : Bytes → Effect
  installed : Bytes → Bytes → FileMeta → Effect

abbrev pub Table : Type 0
Table = Map ℕ Incoming

abbrev pub Outcome : Type 0
Outcome = List Effect × Table

-- `kAckInterval`
abbrev pub ack_interval : ℕ
ack_interval = 256 * 1024

-- The buffer of `handle_file_copy`.
abbrev pub copy_buffer : ℕ
copy_buffer = 64 * 1024

-- `fail_incoming`
unfoldable pub fail_incoming : ℕ → Bytes → Bool → Table → Outcome
fail_incoming xid path keep_reservation m =
    (if keep_reservation then [] else abandoned path ∷ [], erase xid m)

-- `(a - b)` in 64 bits, for `a` and `b` that fit.
abbrev pub minus_64 : ℕ → ℕ → ℕ
minus_64 a b = (a + 2 ^ 64 - b) % 2 ^ 64

-- Is there an ack to send, for how much, and the counters after a literal of `n` bytes.
unfoldable pub wire_count : ℕ → Incoming → Option ℕ × Incoming
wire_count n i =
    let w = (i.on_wire + n) % 2 ^ 64 in
    if leb ack_interval (minus_64 w i.last_ack)
    then (some w, record i { on_wire = w; last_ack = w })
    else (none, record i { on_wire = w })

abbrev pub taken : Option Incoming → Bool
taken none = false
taken (some i) = true

-- The path of a transfer's temp file is cleared, also where it was that of a transfer under way.
unfoldable pub unnamed : ℕ → Table → Table
unnamed xid m = elim (find xid m) [ none ↦ m | some i ↦ set xid (record i { named = false }) m ]

abbrev pub acks_of : ℕ → Option ℕ → List Effect
acks_of xid none = []
acks_of xid (some w) = acked xid w ∷ []

module _ (disk : Disk) where
  -- `in->out.write_at` with the hash and the count after it.
  unfoldable pub write_out : Bytes → Incoming → Option Incoming
  write_out bytes i = elim (disk.write_at i.written bytes i.out) [
    | none ↦ none
    | some f ↦ some (record i {
      out = f;
      hashed = i.hashed ++ bytes;
      written = (i.written + length bytes) % 2 ^ 64;
    })
  ]

  abbrev pub fresh : Bytes → ℕ → ℤ → ℕ → Bool → Option Bytes → Incoming
  fresh path size mtime mode is_delta base = record {
    rel_path = path;
    size = size;
    mtime = mtime;
    mode = mode;
    is_delta = is_delta;
    base = base;
    out = [];
    hashed = [];
    written = 0;
    on_wire = 0;
    last_ack = 0;
    named = true;
  }

  -- The rest of `handle_file_start`, where the temp file is open. A transfer under way with the same id
  -- is replaced, and `~Incoming` removes the file at its path, which is the new one.
  unfoldable pub open_base : ℕ → Bytes → ℕ → ℤ → ℕ → Bool → Table → Outcome
  unfolding fail_incoming
  open_base xid path size mtime mode false m = (
    [],
    set xid (record (fresh path size mtime mode false none) { named = not (taken (find xid m)) }) m,
  )
  open_base xid path size mtime mode true m = elim (disk.base_of path) [
    | none ↦ fail_incoming xid path false m
    | some b ↦ (
      [],
      set xid
          (record (fresh path size mtime mode true (some b)) { named = not (taken (find xid m)) })
          m,
    )
  ]

  unfoldable pub handle_file_start : ℕ → Bytes → ℕ → ℤ → ℕ → Bool → Table → Outcome
  unfolding open_base unnamed
  handle_file_start xid path size mtime mode is_delta m =
      if not (is_safe_relpath path)
      then (abandoned path ∷ [], m)
      else if not (disk.clears xid)
      then (abandoned path ∷ [], m)
      else if not (disk.opens xid)
      then (abandoned path ∷ [], unnamed xid m)
      else open_base xid path size mtime mode is_delta m

  -- The bytes of a literal are counted, and acked now and then.
  unfoldable pub count_wire : ℕ → ℕ → Incoming → Table → Outcome
  unfolding wire_count
  count_wire xid n i m = let (ack, i') = wire_count n i in (acks_of xid ack, set xid i' m)

  unfoldable pub handle_file_literal : ℕ → Bytes → Table → Outcome
  unfolding write_out count_wire fail_incoming
  handle_file_literal xid bytes m = elim (find xid m) [
    | none ↦ ([], m)
    | some i ↦ elim (write_out bytes i) [
      | none ↦ fail_incoming xid i.rel_path false m
      | some i' ↦ count_wire xid (length bytes) i' m
    ]
  ]

  -- The loop of `handle_file_copy`, with `want` for the size of the buffer. Each round writes a byte
  -- at least, so a round for each byte is enough.
  unfoldable pub copy_loop : ℕ → ℕ → ℕ → ℕ → Bytes → Incoming → Option Incoming
  unfolding write_out
  copy_loop zero want left src base i = some i
  copy_loop (suc fuel) want zero src base i = some i
  copy_loop (suc fuel) want (suc n) src base i = elim (disk.read_at src (min want (suc n)) base) [
    | none ↦ none
    | some [] ↦ none
    | some (b ∷ bs) ↦ elim (write_out (b ∷ bs) i) [
      | none ↦ none
      | some i' ↦
          copy_loop fuel want (suc n - length (b ∷ bs)) ((src + length (b ∷ bs)) % 2 ^ 64) base i'
    ]
  ]

  unfoldable pub handle_file_copy : ℕ → ℕ → ℕ → Table → Outcome
  unfolding copy_loop fail_incoming
  handle_file_copy xid off len m = elim (find xid m) [
    | none ↦ ([], m)
    | some i ↦ elim i.base [
      | none ↦ ([], m)
      | some b ↦ elim (copy_loop len (min len copy_buffer) len off b i) [
        | none ↦ fail_incoming xid i.rel_path false m
        | some i' ↦ ([], set xid i' m)
      ]
    ]
  ]

  -- `finalize_incoming`, with what `note_local_set` is given.
  unfoldable pub finalize_incoming : ℕ → Incoming → Table → Outcome
  finalize_incoming xid i m =
      let meta : FileMeta = record {
        size = i.written;
        mtime = i.mtime;
        mode = i.mode;
        hash = disk.sha256 i.hashed;
      } in
      let last =
        if i.named && disk.moves i.rel_path
        then installed i.rel_path i.out meta
        else abandoned i.rel_path in
      (acked xid i.on_wire ∷ last ∷ [], erase xid m)

  unfoldable pub handle_file_end : ℕ → Bytes → Table → Outcome
  unfolding finalize_incoming fail_incoming
  handle_file_end xid expected m = elim (find xid m) [
    | none ↦ ([], m)
    | some i ↦
        let failed = fail_incoming xid i.rel_path i.is_delta m in
        if bytes_eq (disk.sha256 i.hashed) expected
        then finalize_incoming xid i m
        else if i.is_delta
        then (failed.0 ++ asked i.rel_path ∷ [], failed.1)
        else failed
  ]

  unfoldable pub handle_frame : Frame → Table → Outcome
  unfolding handle_file_start handle_file_literal handle_file_copy handle_file_end
  handle_frame (file_start xid path size mtime mode is_delta) m =
      handle_file_start xid path size mtime mode is_delta m
  handle_frame (file_literal xid bytes) m = handle_file_literal xid bytes m
  handle_frame (file_copy xid off len) m = handle_file_copy xid off len m
  handle_frame (file_end xid expected) m = handle_file_end xid expected m

  -- The frames of a peer, one after another.
  abbrev pub handle_all : List Frame → Table → Outcome
  handle_all [] m = ([], m)
  handle_all (f ∷ fs) m =
      let (now, m') = handle_frame f m in let (later, m'') = handle_all fs m' in (now ++ later, m'')

-- What the handlers read before they act: nothing where the body is cut short.
unfoldable pub read_file_start : Reader → Option Frame
read_file_start r =
    let (xid, r₁) = Reader.u64 r in
    let (path, r₂) = Reader.str16 r₁ in
    let (size, r₃) = Reader.u64 r₂ in
    let (mtime, r₄) = Reader.i64 r₃ in
    let (mode, r₅) = Reader.u32 r₄ in
    let (delta, r₆) = Reader.u8 r₅ in
    if r₆.ok then some (file_start xid path size mtime mode (not (delta == 0))) else none

unfoldable pub read_file_literal : Reader → Option Frame
read_file_literal r =
    let (xid, r₁) = Reader.u64 r in
    let (bytes, r₂) = Reader.blob32 r₁ in if r₂.ok then some (file_literal xid bytes) else none

unfoldable pub read_file_copy : Reader → Option Frame
read_file_copy r =
    let (xid, r₁) = Reader.u64 r in
    let (off, r₂) = Reader.u64 r₁ in
    let (len, r₃) = Reader.u32 r₂ in if r₃.ok then some (file_copy xid off len) else none

unfoldable pub read_file_end : Reader → Option Frame
read_file_end r =
    let (xid, r₁) = Reader.u64 r in
    let (expected, r₂) = Reader.bytes 32 r₁ in if r₂.ok then some (file_end xid expected) else none

-- The opcodes of FileStart to FileEnd.
unfoldable pub read_frame : ℕ → Reader → Option Frame
unfolding read_file_start read_file_literal read_file_copy read_file_end
read_frame op r =
    if op == 4
    then read_file_start r
    else if op == 5
    then read_file_literal r
    else if op == 6
    then read_file_copy r
    else if op == 7
    then read_file_end r
    else none

-- `handle` on these four: a body that does not decode changes nothing.
unfoldable pub handle_message : Disk → ℕ → Reader → Table → Outcome
unfolding handle_frame read_frame
handle_message disk op r m = elim (read_frame op r) [
  | none ↦ ([], m)
  | some f ↦ handle_frame disk f m
]
