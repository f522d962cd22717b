-- ===== src/Transfer/Serve.antt =====
-- net/sync_session.cpp: `serve_one`, which answers a request.
use rasync.Prelude.{
  ℕ, zero, suc, Bool, true, false, List, [], ◌∷◌, ◌++◌, Option, none, some, not, ◌&&◌, ◌||◌,
}
use rasync.Prelude.{length, take, drop, leb, if◌then◌else◌}
use rasync.Prelude.Int.{ℤ}
use rasync.Prelude.Order.{bytes_order}
use rasync.Codec.Writer.{Bytes}
use rasync.Meta.{FileMeta}
use rasync.SortedMap.{find}
use rasync.Manifest.{Manifest}
use rasync.Delta.{Signature, DeltaOp, compute_delta}
use rasync.Transfer.{Frame, file_start, file_literal, file_copy, file_end}

-- What `stat_follow` says of a file.
pub record FileStat : Type 0 where
  pub there : Bool
  pub directory : Bool
  pub size : ℕ
  pub mtime : ℤ

-- `Serve`, with the signature where the request has one.
pub record Job : Type 0 where
  pub xid : ℕ
  pub rel_path : Bytes
  pub sig : Option Signature

pub data Answer : Type 0 where
  not_found : Bytes → Answer
  frames : List Frame → Answer

-- The pieces of a text, each a chunk long but the last. A piece takes a byte at least, so a round for
-- each byte is enough.
unfoldable pub pieces : ℕ → ℕ → Bytes → List Bytes
pieces zero chunk xs = []
pieces (suc fuel) chunk [] = []
pieces (suc fuel) chunk (x ∷ xs) = take chunk (x ∷ xs) ∷ pieces fuel chunk (drop chunk (x ∷ xs))

abbrev pub literals : ℕ → List Bytes → List Frame
literals xid [] = []
literals xid (p ∷ ps) = file_literal xid p ∷ literals xid ps

-- The loop over `delta.ops`.
unfoldable pub op_frames : ℕ → ℕ → List DeltaOp → List Frame
unfolding pieces
op_frames xid chunk [] = []
op_frames xid chunk (op ∷ ops) =
    let rest = op_frames xid chunk ops in
    if op.copy
    then file_copy xid op.offset op.len ∷ rest
    else literals xid (pieces (length op.literal) chunk op.literal) ++ rest

abbrev pub mode_of : Option FileMeta → ℕ
mode_of none = 0
mode_of (some m) = m.mode

-- `sha256` and `strong` are the hashes of librats, and `arrange` is the order of
-- `std::unordered_multimap`.
module _ (sha256 : Bytes → Bytes) where
  -- `serve_whole`, on what reading the file gives.
  unfoldable pub serve_whole : ℕ → Job → ℕ → ℤ → ℕ → Option Bytes → Answer
  unfolding pieces
  serve_whole chunk job size mtime mode none = not_found job.rel_path
  serve_whole chunk job size mtime mode (some content) = frames (
      file_start job.xid job.rel_path size mtime mode false
      ∷ (literals job.xid (pieces (length content) chunk content)
          ++ file_end job.xid (sha256 content) ∷ []))

module _ (sha256 strong : Bytes → Bytes) (arrange : List ℕ → List ℕ) where
  -- `serve_delta`, which reads the file in one go, and falls back on reading it as a stream.
  unfoldable pub serve_delta :
      ℕ → Job → Signature → ℕ → ℤ → ℕ → Option Bytes → Option Bytes → Answer
  unfolding op_frames serve_whole
  serve_delta chunk job sig size mtime mode none stream =
      serve_whole sha256 chunk job size mtime mode stream
  serve_delta chunk job sig size mtime mode (some content) stream = frames (
      file_start job.xid job.rel_path (length content) mtime mode true
      ∷ (op_frames job.xid chunk (compute_delta strong arrange sig content).ops
          ++ file_end job.xid (sha256 content) ∷ []))

  -- `serve_one`, with `use_delta` and `delta_max_bytes`.
  unfoldable pub serve_one :
      ℕ → Bool → ℕ → Manifest → FileStat → Option Bytes → Option Bytes → Job → Answer
  unfolding serve_whole serve_delta
  serve_one chunk use_delta delta_max local st content stream job =
      let mode = mode_of (find job.rel_path local) in
      if not st.there || st.directory then not_found job.rel_path else elim job.sig [
        | none ↦ serve_whole sha256 chunk job st.size st.mtime mode stream
        | some sig ↦
            if use_delta && leb st.size delta_max
            then serve_delta chunk job sig st.size st.mtime mode content stream
            else serve_whole sha256 chunk job st.size st.mtime mode stream
      ]
