-- ===== src/Transfer/Delivered.antt =====
-- net/sync_session.cpp: a file that is served arrives.
use rasync.Prelude.{ℕ, zero, suc, ◌^◌, ◌<◌, ◌≤◌, ◌≡◌, refl, sym, ◌∙◌, subst, arith}
use rasync.Prelude.{Bool, ◌&&◌, true, false, Bool-cases, inl, inr, ◌⊎◌, List, [], ◌∷◌, none, some}
use rasync.Prelude.{length, length-drop, take-append-drop, drop, leb, Option}
use rasync.Prelude.Int.{ℤ}
use rasync.Prelude.Order.{nat_order, bytes_order}
use rasync.Codec.Writer.{Bytes}
use rasync.Manifest.{Manifest}
use rasync.Paths.{is_safe_relpath}
use rasync.SortedMap.{find, set, IsSorted}
use rasync.Delta.{DeltaOp, signature_of, compute_delta}
use rasync.Delta.Apply.{text_of, InBase}
use rasync.Delta.Scan.{NoCollision, effective, compute_delta-Rebuilds}
use rasync.Transfer.{
  Disk, Frame, Table, fresh, open_base, handle_file_start, handle_frame, handle_all,
}
use rasync.Transfer.Fed.{Reliable, Subject, installs}
use rasync.Transfer.Serve.{
  Job, Answer, frames, not_found, FileStat, mode_of, serve_one, pieces, literals, op_frames,
  serve_whole, serve_delta,
}
use mathlib.Core.List.{append-nil}
use rasync.Transfer.Body.{
  carried, carried-append, Body, literals-Body, closed, entry_of, closed-installs,
}

module _ (disk : Disk) (good : Reliable disk) where
  -- The pieces of a text are the text.
  pieces_lem :
      (xid fuel chunk : ℕ) (base xs : Bytes)
      → 0 < chunk
      → length xs ≤ fuel
      → carried base (literals xid (pieces fuel chunk xs)) ≡ xs
  unfolding pieces
  pieces_lem xid zero chunk base [] p h = refl
  pieces_lem xid zero chunk base (x ∷ xs) p h = absurd (omega (arith, h))
  pieces_lem xid (suc fuel) chunk base [] p h = refl
  pieces_lem xid (suc fuel) chunk base (x ∷ xs) p h =
      rw
        (pieces_lem xid fuel chunk base (drop chunk (x ∷ xs)) p
          (omega (arith, h, p, length-drop chunk (x ∷ xs))))
        (take-append-drop chunk (x ∷ xs))

  op_frames-Body :
      (s : Subject) (chunk : ℕ) (base : Bytes) (ops : List DeltaOp)
      → s.base ≡ some base
      → InBase base ops
      → Body s base (op_frames s.xid chunk ops)
  unfolding op_frames
  op_frames-Body s chunk base [] e i = tt
  op_frames-Body s chunk base (op ∷ ops) e (i, is) =
      let rest = op_frames-Body s chunk base ops e is in
      elim (Bool-cases op.copy) [
        | inl c ↦ rw (c, op_frames) (refl, e, i c, rest)
        | inr c ↦
            rw (c, op_frames)
              (literals-Body s base (pieces (length op.literal) chunk op.literal)
                (op_frames s.xid chunk ops) rest)
      ]

  op_frames-text_of :
      (xid chunk : ℕ) (base : Bytes) (ops : List DeltaOp)
      → 0 < chunk
      → carried base (op_frames xid chunk ops) ≡ text_of base ops
  unfolding op_frames
  op_frames-text_of xid chunk base [] p = refl
  op_frames-text_of xid chunk base (op ∷ ops) p =
      let rest = op_frames-text_of xid chunk base ops p in
      elim (Bool-cases op.copy) [
        | inl c ↦ rw (c, op_frames, rest)
        | inr c ↦ rw (
          c,
          op_frames,
          carried-append base (literals xid (pieces (length op.literal) chunk op.literal))
              (op_frames xid chunk ops),
          pieces_lem xid (length op.literal) chunk base op.literal p (omega arith),
          rest,
        )
      ]

  abbrev pub frames_of : Answer → List Frame
  frames_of (not_found path) = []
  frames_of (frames fs) = fs

  abbrev pub Arrives : Job → Bytes → ℤ → ℕ → Table → Answer → Type 0
  Arrives job content mtime mode m a =
      installs (handle_all disk (frames_of a) m).0
      ≡ (job.rel_path, content, entry_of disk good content mtime mode) ∷ []

  serve_whole-Arrives :
      (chunk : ℕ) (job : Job) (size : ℕ) (mtime : ℤ) (mode : ℕ) (content : Bytes) (m : Table)
      → 0 < chunk
      → is_safe_relpath job.rel_path ≡ true
      → IsSorted m
      → find job.xid m ≡ none
      → length content < 2 ^ 64
      → Arrives job content mtime mode m
          (serve_whole disk.sha256 chunk job size mtime mode (some content))
  unfolding serve_whole handle_frame handle_file_start open_base
  serve_whole-Arrives chunk job size mtime mode content m p safe h o l =
      let s : Subject = record {
        xid = job.xid;
        rel_path = job.rel_path;
        mtime = mtime;
        mode = mode;
        base = none;
      } in
      let body = literals job.xid (pieces (length content) chunk content) in
      let text = pieces_lem job.xid (length content) chunk [] content p (omega arith) in
      let b =
        subst (Body s []) (append-nil body)
          (literals-Body s [] (pieces (length content) chunk content) [] tt) in
      rw (safe, good.cleared job.xid, good.opened job.xid, o, handle_file_start, open_base)
        (subst
          (λ c.
            installs
              (handle_all disk (closed disk good s c body)
                (set s.xid (fresh disk s.rel_path size s.mtime s.mode false s.base) m)).0
            ≡ (s.rel_path, c, entry_of disk good c s.mtime s.mode) ∷ [])
          text
          (closed-installs disk good s [] body size false m h (omega arith) b
            (subst (λ c. length c < 2 ^ 64) (sym text) l)))

  -- The request has the signature of the receiver's copy.
  pub record OfCopy (strong : Bytes → Bytes) (block_size : ℕ) (base content : Bytes) (job : Job)
      : Type 0 where
    pub same : job.sig ≡ some (signature_of strong base block_size)
    pub held : disk.base_of job.rel_path ≡ some base
    pub small : length base < 2 ^ 32
    pub unique : NoCollision strong (effective block_size) base content

  serve_delta-Arrives :
      (strong : Bytes → Bytes) (arrange : List ℕ → List ℕ) (block_size : ℕ) (chunk : ℕ) (job : Job)
      (size : ℕ) (mtime : ℤ) (mode : ℕ) (base content : Bytes) (stream : Option Bytes) (m : Table)
      → 0 < chunk
      → is_safe_relpath job.rel_path ≡ true
      → disk.base_of job.rel_path ≡ some base
      → length base < 2 ^ 32
      → NoCollision strong (effective block_size) base content
      → IsSorted m
      → find job.xid m ≡ none
      → length content < 2 ^ 64
      → Arrives job content mtime mode m (
          serve_delta disk.sha256 strong arrange chunk job
            (signature_of strong base block_size)
            size
            mtime
            mode
            (some content)
            stream)
  unfolding serve_delta handle_frame handle_file_start open_base
  serve_delta-Arrives strong arrange block_size chunk job size mtime mode base content stream m p
        safe e small u h o l =
      let s : Subject = record {
        xid = job.xid;
        rel_path = job.rel_path;
        mtime = mtime;
        mode = mode;
        base = some base;
      } in
      let ops = (compute_delta strong arrange (signature_of strong base block_size) content).ops in
      let body = op_frames job.xid chunk ops in
      let r = compute_delta-Rebuilds strong arrange block_size base content small u in
      let text = op_frames-text_of job.xid chunk base ops p ∙ r.1 in
      rw (safe, good.cleared job.xid, good.opened job.xid, e, o, handle_file_start, open_base)
        (subst
          (λ c.
            installs
              (handle_all disk (closed disk good s c body)
                (set s.xid (fresh disk s.rel_path (length content) s.mtime s.mode true s.base) m)).0
            ≡ (s.rel_path, c, entry_of disk good c s.mtime s.mode) ∷ [])
          text
          (closed-installs disk good s base body (length content) true m h (omega (arith, small))
            (op_frames-Body s chunk base ops refl r.0)
            (subst (λ c. length c < 2 ^ 64) (sym text) l)))

  -- Where nothing fails on the receiver's disk, and the chunk size is positive: the answer to a request
  -- for a file that is there, has a safe path and fewer than 2^64 bytes, puts exactly that file in its
  -- place at the receiver, once, with its size and SHA-256, whatever transfers with other ids are under
  -- way; with a signature, where it is that of the receiver's copy of fewer than 2^32 bytes, and no window of the
  -- file collides with a block of the copy in the strong hash.
  pub serve_one-Arrives :
      (strong : Bytes → Bytes) (arrange : List ℕ → List ℕ) (block_size chunk : ℕ) (use_delta : Bool)
      (delta_max : ℕ) (local : Manifest) (st : FileStat) (job : Job) (base content : Bytes)
      (m : Table)
      → 0 < chunk
      → st.there ≡ true
      → st.directory ≡ false
      → is_safe_relpath job.rel_path ≡ true
      → (job.sig ≡ none) ⊎ OfCopy strong block_size base content job
      → IsSorted m
      → find job.xid m ≡ none
      → length content < 2 ^ 64
      → Arrives job content st.mtime (mode_of (find job.rel_path local)) m (
          serve_one disk.sha256 strong arrange chunk use_delta delta_max local st
            (some content)
            (some content)
            job)
  unfolding serve_one
  serve_one-Arrives strong arrange block_size chunk use_delta delta_max local st job base content m
        p t d safe (inl n) h o l =
      rw (t, d, n, serve_one)
        (serve_whole-Arrives chunk job st.size st.mtime (mode_of (find job.rel_path local)) content
          m p safe h o l)
  serve_one-Arrives strong arrange block_size chunk use_delta delta_max local st job base content m
        p t d safe (inr c) h o l =
      let mode = mode_of (find job.rel_path local) in
      elim (Bool-cases (use_delta && leb st.size delta_max)) [
        | inl e ↦
            rw (t, d, c.same, e, serve_one)
              (serve_delta-Arrives strong arrange block_size chunk job st.size st.mtime mode base
                content (some content) m p safe c.held c.small c.unique h o l)
        | inr e ↦
            rw (t, d, c.same, e, serve_one)
              (serve_whole-Arrives chunk job st.size st.mtime mode content m p safe h o l)
      ]
