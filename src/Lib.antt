-- ===== src/Lib.antt =====
-- rasync: peer-to-peer folder synchronisation, as executable definitions with the theorems that make
-- them correct. Paths below are from the repository's root.
--
-- The program. A node keeps a manifest of each synchronised folder (path, size, mtime, mode and
-- SHA-256 of every file). On a connection, the two sides exchange a Hello for each folder, then
-- describe their trees to each other by manifest patches, cut into chunks. Each side merges its own
-- tree, the peer's and the last common baseline into a plan, deletes what the plan says, and pulls
-- the files it lacks; the peer serves them whole, or as a delta against the signature of the copy
-- that the puller has. The plans are made independently: the two sides agree because they are
-- complementary, and that is what most of the development is about.
--
-- The files, and the code each models:
--   Prelude       shared names, Boolean tests, lists, int64_t, byte order as an interface
--   Codec         src/rasync/core/serialize.h: BinaryWriter (Codec/Writer) is the buffer it has
--                 written, BinaryReader (Codec/Reader) the bytes left with its failure flag; each
--                 method is the function of its name. Codec/Value names one writer or reader call.
--   SortedMap     std::map and std::set as sorted association lists over an order
--   Meta          src/rasync/core/file_meta.h: FileMeta and its two comparisons
--   Manifest      src/rasync/core/manifest.h, manifest.cpp: a manifest is the map that
--                 Manifest::entries_ is; apply, diff_manifests and the codecs of both types
--   Paths         src/rasync/core/path.h: is_safe_relpath
--   Reconcile     src/rasync/core/diff.h, diff.cpp: classify, local_wins, decide_two_way,
--                 decide_mirror, and reconcile with its loop over the union of the paths
--   Delta         src/rasync/core/delta.h, delta.cpp: weak_checksum, signature_of, compute_delta with
--                 its scan state (position, start of the pending literal, both sums, instructions),
--                 apply_delta; Delta/Encoding is the codec of Signature
--   Ignore        src/rasync/core/ignore.h, ignore.cpp: seg_match, match_segs, glob_match, the
--                 parsing of rules, and matches
--   Service       src/rasync/net/sync_service.h, sync_service.cpp: the manifests of a folder with
--                 their version (Store; every function that changes them has its name), and the
--                 sessions with the allow-list (Service): session_for, handle_message, shutdown
--   Session       src/rasync/net/sync_session.cpp: handle_hello, handle_manifest_update with the
--                 staging of an update (View), send_update_locked (Session/Chunks, and its bytes
--                 in Session/Wire), advertise_locked (Session/Advert), the pull window
--                 (Session/Pull: pulling_ and pull_queue_, may_request_locked, requester_loop,
--                 release_pull), and maybe_synced (Session/Synced); send_hello is in
--                 src/rasync/net/sync_service.cpp
--   Transfer      src/rasync/net/sync_session.cpp: incoming_ as a table of transfers, and the handlers
--                 of FileStart, FileLiteral, FileCopy and FileEnd, each with what it does besides
--                 (Effect); serve_one, serve_whole and serve_delta give the frames of an answer
--                 (Transfer/Serve); note_sent, window_wait and handle_file_ack (Transfer/Window)
--   Router        src/rasync/net/sync_router.h, sync_router.cpp: the table of folders (add_folder,
--                 folder_for, folder_named), on_message (Router/Dispatch) with the header of
--                 src/rasync/net/protocol.h, and report_unknown; a folder is its tag and name
--   Redial        src/rasync/app/dial_retry.h: DialRetry, and a run of the watch loop over ticks
--   Scanner       src/rasync/core/scanner.h, scanner.cpp: Scanner::scan with its stack of directories
--                 (Walk), probe_entry, and the choice between an old hash and a new one (hash_of)
--   StateDir      src/rasync/core/state_dir.cpp: readable_leaf and state_dir_name, with to_hex of
--                 src/rasync/core/hash.cpp in Hash
--   Cli           src/rasync/app/cli.h, cli.cpp: the options, the tests on their values, parse_args
-- The codec carries manifests, patches and signatures; Session decodes patches by Manifest/Encoding,
-- filters them by Paths, and applies them by Manifest; Reconcile works on three manifests, and the
-- handshake of Session is what makes two sides run complementary policies. An advertisement of
-- Session goes out as the difference of two states of the Store, and comes in at the peer's View;
-- the plan of a round fills the pull window; a request is answered by Transfer/Serve, with an
-- instruction list of Delta where the request has a signature, and the frames are taken by Transfer.
--
-- Numbers. Bytes and unsigned integers are the native ℕ, with the wrap-around of the source written
-- out where a cast, a counter or a sum can reach it; int64_t is ℤ within its range. A size_t that counts bytes
-- in memory is not wrapped.
--
-- Bounds and fuel. Paths.segments_safe takes one round more than the path has bytes, and a round
-- takes a separator off. Delta.blocks_loop and Delta.scan take one round for each byte, and a round
-- takes a byte at least. Ignore.seg_loop takes (length of the text) * (length of the pattern + 1) +
-- (length of the pattern) rounds: each takes a byte off the pattern or moves the mark on.
-- Transfer.copy_loop and Transfer.Serve.pieces take one round for each byte, and a round reads or
-- cuts off a byte at least. Scanner.walk takes a directory from its stack in each round; its theorem
-- holds for any number of rounds.
--
-- Concurrency. The threads of a session are sequences of its critical sections: a run of Session/InStep
-- interleaves changes of the tree with advertisements, Session/Pull has a step relation for rounds,
-- requests and answers in any order, and Transfer/Flow delays literals and acks as long as it likes.
-- An advertisement there reads the version and the tree of the service at one moment.
--
-- Parameters. SHA-256 is in librats: Delta takes the strong hash of a block as a function, and
-- the order in which std::unordered_multimap walks equal keys as another. Transfer takes the
-- files and SHA-256 as one record (Disk) with the two laws of positioned writes that it needs;
-- Transfer/Fed names what a disk does that does not fail (Reliable). The fingerprint of a
-- manifest takes SHA-256 as a function. Service takes whether a save of the baseline succeeds,
-- which the source ignores. Scanner takes what the file system answers for each path below the
-- root as one record (FileSystem). File metadata carries digests as they are.
--
-- Not modelled: locks and the clock; sockets and the node of librats, with the send gate that paces
-- it; the choice and the migration of state directories and the file status, which are calls of the
-- system; the keys of the handshake and the tag of a folder, which are digests of texts; the
-- start and the watch loop of the daemon, and the terminal. Of a session, the local deletions of a
-- round, the resolution of links and the building of a request's signature from a file are such calls
-- too. The sender of a transfer is taken to keep running. Of a service, the temp directory, the
-- counters of the log and the messages to the sessions are left out; of the router, the callbacks of
-- the node. Texts for the user, and the counters of a scan, are left out.
pub mod Prelude
pub mod Codec
pub mod SortedMap
pub mod Meta
pub mod Manifest
pub mod Paths
pub mod Delta
pub mod Hash
pub mod StateDir
pub mod Ignore
pub mod Reconcile
pub mod Redial
pub mod Router
pub mod Cli
pub mod Scanner
pub mod Service
pub mod Session
pub mod Transfer
