-- ===== src/Transfer/Verified.antt =====
-- net/sync_session.cpp: what the handlers of FileStart, FileLiteral, FileCopy and FileEnd let through.
use rasync.Prelude.{◌≡◌, refl, arith}
use rasync.Prelude.{true, List, [], ◌∷◌}
use rasync.Prelude.Equality.{bytes_eq_refl}
use rasync.Prelude.Order.{nat_order}
use rasync.Codec.Writer.{Bytes}
use rasync.Service.{listed}
use rasync.Transfer.{
  Disk, Frame, Table, file_start, file_literal, file_copy, file_end, handle_frame, handle_all,
}
use rasync.Transfer.Handlers.{
  AllSound, AllGood, AllGood-append, Kept, handle_file_start-Kept, handle_file_literal-Kept,
  handle_file_copy-Kept, handle_file_end-Kept,
}

-- What a FileEnd claims.
abbrev ClaimOf : (Bytes → Type 0) → Frame → Type 0
ClaimOf Q (file_start xid path size mtime mode d) = Unit {0}
ClaimOf Q (file_literal xid bytes) = Unit {0}
ClaimOf Q (file_copy xid off len) = Unit {0}
ClaimOf Q (file_end xid digest) = Q digest

abbrev AllClaims : (Bytes → Type 0) → List Frame → Type 0
AllClaims Q [] = Unit {0}
AllClaims Q (f ∷ fs) = ClaimOf Q f × AllClaims Q fs

-- The digests of the FileEnd frames.
abbrev pub digests : List Frame → List Bytes
digests [] = []
digests (file_start xid path size mtime mode d ∷ fs) = digests fs
digests (file_literal xid bytes ∷ fs) = digests fs
digests (file_copy xid off len ∷ fs) = digests fs
digests (file_end xid digest ∷ fs) = digest ∷ digests fs

listed_later :
    (d digest : Bytes) (ds : List Bytes) → listed d ds ≡ true → listed d (digest ∷ ds) ≡ true
unfolding listed
listed_later d digest ds l = ground (arith, l)

claims_of :
    (Q : Bytes → Type 0) (fs : List Frame)
    → ((d : Bytes) → listed d (digests fs) ≡ true → Q d)
    → AllClaims Q fs
unfolding listed
claims_of Q [] h = tt
claims_of Q (file_start xid path size mtime mode d ∷ fs) h = (tt, claims_of Q fs h)
claims_of Q (file_literal xid bytes ∷ fs) h = (tt, claims_of Q fs h)
claims_of Q (file_copy xid off len ∷ fs) h = (tt, claims_of Q fs h)
claims_of Q (file_end xid digest ∷ fs) h = (
  h digest (rw (bytes_eq_refl digest) refl),
  claims_of Q fs (λ d l. h d (listed_later d digest (digests fs) l)),
)

module _ (disk : Disk) where
  handle_frame-Kept :
      (Q : Bytes → Type 0) (f : Frame) (m : Table)
      → ClaimOf Q f
      → AllSound m
      → Kept disk Q (handle_frame disk f m)
  unfolding handle_frame
  handle_frame-Kept Q (file_start xid path size mtime mode d) m q h =
      handle_file_start-Kept disk Q xid path size mtime mode d m h
  handle_frame-Kept Q (file_literal xid bytes) m q h = handle_file_literal-Kept disk Q xid bytes m h
  handle_frame-Kept Q (file_copy xid off len) m q h = handle_file_copy-Kept disk Q xid off len m h
  handle_frame-Kept Q (file_end xid digest) m q h = handle_file_end-Kept disk Q xid digest m q h

  handle_all-Kept :
      (Q : Bytes → Type 0) (fs : List Frame) (m : Table)
      → AllClaims Q fs
      → AllSound m
      → Kept disk Q (handle_all disk fs m)
  handle_all-Kept Q [] m q h = (tt, h)
  handle_all-Kept Q (f ∷ fs) m (q, qs) h =
      let now = handle_frame-Kept Q f m q h in
      let later = handle_all-Kept Q fs (handle_frame disk f m).1 qs now.1 in
      (
        AllGood-append disk Q (handle_frame disk f m).0
            (handle_all disk fs (handle_frame disk f m).1).0 now.0 later.0,
        later.1,
      )

  -- Whatever frames a peer sends, and whatever the disk answers to reads, writes and moves: each file
  -- put in its place has a safe path, the digest in its entry was sent in a FileEnd, and, below 2^64
  -- bytes, its entry has its size and its SHA-256.
  pub handle_all_verified :
      (fs : List Frame) → AllGood disk (λ d. listed d (digests fs) ≡ true) (handle_all disk fs []).0
  handle_all_verified fs =
      (handle_all-Kept (λ d. listed d (digests fs) ≡ true) fs []
        (claims_of (λ d. listed d (digests fs) ≡ true) fs (λ d l. l)) tt).0
