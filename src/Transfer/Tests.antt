-- ===== src/Transfer/Tests.antt =====
-- The transfer of a file, at concrete frames.
use rasync.Prelude.{
  ℕ, ◌≤◌, ◌≡◌, refl, sym, ◌∙◌, ap, arith, true, false, List, [], ◌∷◌, ◌++◌, Option, none, some, inl,
  inr,
}
use rasync.Prelude.{
  replicate, length, length-append, take, drop, ◌==◌, ==_iff, if◌then◌else◌, Bool-cases,
}
use rasync.Prelude.Int.{pos}
use rasync.Prelude.Order.{nat_order, bytes_order}
use rasync.Codec.Writer.{Bytes}
use rasync.Paths.{is_safe_relpath}
use rasync.Service.{listed}
use rasync.SortedMap.{find, set}
use rasync.Delta.{signature_of}
use rasync.Delta.Apply.{slice-take}
use rasync.Codec.Reader
use rasync.Codec.Reader.{start}
use rasync.Transfer.{
  read_frame, read_file_literal, wire_count, Disk, Frame, Incoming, file_start, file_literal,
  file_end, handle_all, handle_file_literal, write_out, count_wire,
}
use rasync.Transfer.Fed.{Reliable}
use rasync.Transfer.Handlers.{AllGood}
use rasync.Transfer.Verified.{digests, handle_all_verified}
use rasync.Transfer.Serve.{Job, FileStat, serve_one}
use rasync.Transfer.Delivered.{OfCopy, Arrives, serve_one-Arrives}
use rasync.Transfer.Window.{note_sent, handle_file_ack, may_go}
use rasync.Transfer.Flow.{step, Event, sent, arrived, acknowledged, run, started, drained_goes}

abbrev old_copy : Bytes
old_copy = 1 ∷ 2 ∷ 3 ∷ 4 ∷ []

abbrev new_file : Bytes
new_file = 1 ∷ 2 ∷ 9 ∷ 3 ∷ 4 ∷ []

-- A write somewhere else than at the end fails.
abbrev write : ℕ → Bytes → Bytes → Option Bytes
write p d f = if p == length f then some (f ++ d) else none

wrote_lem : (d f : Bytes) → write (length f) d f ≡ some (f ++ d)
wrote_lem d f = rw ((==_iff (length f) (length f)).1 refl)

wrote_end : (d f g : Bytes) → write (length f) d f ≡ some g → g ≡ f ++ d
wrote_end d f g h = let k : some (f ++ d) ≡ some g = sym (wrote_lem d f) ∙ h in cc

wrote_more : (p : ℕ) (d f g : Bytes) → write p d f ≡ some g → length f ≤ length g
wrote_more p d f g h = elim (Bool-cases (p == length f)) [
  | inr e ↦ let k : none ≡ some g = (rw e at h) in cc
  | inl e ↦
      let k : some (f ++ d) ≡ some g = (rw e at h) in
      let l : f ++ d ≡ g = cc in omega (arith, ap length l, length-append f d)
]

-- A disk that holds the old copy, whatever the path, with the bytes themselves for a hash.
abbrev disk : Disk
disk = record {
  base_of = λ path. some old_copy;
  clears = λ xid. true;
  opens = λ xid. true;
  write_at = write;
  read_at = λ off want base. some (take want (drop off base));
  moves = λ path. true;
  sha256 = λ xs. xs;
  write_end = wrote_end;
  write_grows = wrote_more;
}

disk_reliable : Reliable disk
disk_reliable = record {
  cleared = λ xid. refl;
  opened = λ xid. refl;
  moved = λ path. refl;
  wrote = wrote_lem;
  reads = λ off want base p h. (want, p, omega arith, rw (slice-take off want base));
}

abbrev job : Job
job = record { xid = 7; rel_path = b'a' ∷ []; sig = some (signature_of (λ xs. xs) old_copy 2) }

abbrev stat : FileStat
stat = record { there = true; directory = false; size = 5; mtime = pos 3 }

job-OfCopy : OfCopy disk disk_reliable (λ xs. xs) 2 old_copy new_file job
job-OfCopy = record { same = refl; held = refl; small = omega arith; unique = λ i j h. h }

-- A delta of a file of five bytes against a copy of four, in blocks of two.
serve_one-Arrives_example : Arrives disk disk_reliable job new_file (pos 3) 0 [] (
    serve_one
      (λ xs. xs)
      (λ xs. xs)
      (λ is. is)
      2
      true
      100
      []
      stat
      (some new_file)
      (some new_file)
      job)
unfolding find is_safe_relpath
serve_one-Arrives_example =
    serve_one-Arrives disk disk_reliable (λ xs. xs) (λ is. is) 2 2 true 100 [] stat job old_copy
      new_file [] (omega arith) refl refl refl (inr job-OfCopy) tt refl (omega arith)

abbrev some_frames : List Frame
some_frames =
    file_start 1 (b'a' ∷ []) 2 (pos 3) 0 false
    ∷ file_literal 1 (8 ∷ 9 ∷ [])
    ∷ file_end 1 (8 ∷ 9 ∷ [])
    ∷ []

handle_all_verified_example :
    AllGood disk (λ d. listed d (digests some_frames) ≡ true) (handle_all disk some_frames []).0
handle_all_verified_example = handle_all_verified disk some_frames

abbrev waiting : Incoming
waiting = record {
  rel_path = b'a' ∷ [];
  size = 5;
  mtime = pos 3;
  mode = 0;
  is_delta = false;
  base = none;
  out = [];
  hashed = [];
  written = 0;
  on_wire = 0;
  last_ack = 0;
  named = true;
}

-- A write at the end of a file, wherever it is asked to be.
abbrev push : ℕ → Bytes → Bytes → Option Bytes
push p d f = some (f ++ d)

pushed_end : (d f g : Bytes) → push (length f) d f ≡ some g → g ≡ f ++ d
pushed_end d f g h = let k : f ++ d ≡ g = cc in sym k

pushed_more : (p : ℕ) (d f g : Bytes) → push p d f ≡ some g → length f ≤ length g
pushed_more p d f g h = let k : f ++ d ≡ g = cc in omega (arith, ap length k, length-append f d)

abbrev willing : Disk
willing = record disk { write_at = push; write_end = pushed_end; write_grows = pushed_more }

abbrev block : Bytes
block = replicate 65536 1

-- Five literals of 64 KiB, of which the fourth completes an ack's interval.
abbrev some_traffic : List Event
some_traffic =
    sent block
    ∷ sent block
    ∷ arrived
    ∷ sent block
    ∷ sent block
    ∷ arrived
    ∷ arrived
    ∷ arrived
    ∷ sent block
    ∷ acknowledged
    ∷ arrived
    ∷ []

drained_goes_example :
    may_go true 300000 7 (run willing 300000 7 some_traffic (started 7 waiting [])).window ≡ true
unfolding step note_sent may_go handle_file_ack handle_file_literal write_out count_wire wire_count
    find set
drained_goes_example =
    drained_goes willing 300000 7 some_traffic waiting [] (λ p d f. (f ++ d, refl)) tt (omega arith)
      (omega arith) refl refl

-- A literal of two bytes on the wire: the transfer 1, a length of 2, and the bytes.
literal_message :
    read_frame 5 (start (0 ∷ 0 ∷ 0 ∷ 0 ∷ 0 ∷ 0 ∷ 0 ∷ 1 ∷ 0 ∷ 0 ∷ 0 ∷ 2 ∷ 8 ∷ 9 ∷ []))
    ≡ some (file_literal 1 (8 ∷ 9 ∷ []))
unfolding read_frame read_file_literal Reader.u64 Reader.blob32 Reader.be_value
literal_message = refl

cut_message : read_frame 5 (start (0 ∷ 0 ∷ 0 ∷ [])) ≡ none
unfolding read_frame read_file_literal Reader.u64 Reader.blob32 Reader.be_value
cut_message = refl
