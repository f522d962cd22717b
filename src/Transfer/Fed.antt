-- ===== src/Transfer/Fed.antt =====
-- net/sync_session.cpp: what a literal and a copy add to a transfer, where nothing fails.
use rasync.Prelude.{
  ℕ, zero, suc, ◌+◌, ◌-◌, ◌%◌, ◌^◌, ◌<◌, ◌≤◌, ◌≡◌, refl, sym, ◌∙◌, ap, subst, arith, min,
}
use rasync.Prelude.{true, false, Bool-cases, inl, inr, ◌⊎◌, List, [], ◌∷◌, ◌++◌, none, some}
use rasync.Prelude.{length, length-append, length-take, length-drop, drop, leb, Option}
use rasync.Prelude.Int.{ℤ}
use rasync.Prelude.Order.{nat_order}
use rasync.Codec.Writer.{Bytes}
use rasync.Meta.{FileMeta}
use rasync.SortedMap.{find, set, IsSorted}
use rasync.SortedMap.Laws.{find-set, set-IsSorted, same_refl}
use rasync.Delta.{slice}
use rasync.Delta.Apply.{slice-take, slice_join}
use rasync.Transfer.{
  Disk, Incoming, Effect, Table, Outcome, acked, asked, abandoned, installed, fail_incoming,
  write_out, count_wire, wire_count, acks_of, handle_file_literal, copy_loop, handle_file_copy,
  ack_interval, copy_buffer, minus_64,
}
use native.Mathlib.Nat.{mod-eq_of_lt}
use mathlib.Core.List.{append-nil, append_assoc}

-- No file operation fails: a write at the end of a file extends it, and a read inside the base gives
-- the bytes there, one at least and not always all that were asked for.
pub record Reliable (disk : Disk) : Type 0 where
  pub cleared : (xid : ℕ) → disk.clears xid ≡ true
  pub opened : (xid : ℕ) → disk.opens xid ≡ true
  pub moved : (path : Bytes) → disk.moves path ≡ true
  pub wrote : (d f : Bytes) → disk.write_at (length f) d f ≡ some (f ++ d)
  pub reads :
      (off want : ℕ) (base : Bytes)
      → 0 < want
      → off + want ≤ length base
      → (n : ℕ) × (0 < n)
        × (n ≤ want)
        × (disk.read_at off want base ≡ some (slice off (off + n) base))

-- What a transfer is about.
pub record Subject : Type 0 where
  pub xid : ℕ
  pub rel_path : Bytes
  pub mtime : ℤ
  pub mode : ℕ
  pub base : Option Bytes

-- The transfer has this content so far.
pub record Fits (s : Subject) (content : Bytes) (i : Incoming) : Type 0 where
  pub same_path : i.rel_path ≡ s.rel_path
  pub same_mtime : i.mtime ≡ s.mtime
  pub same_mode : i.mode ≡ s.mode
  pub same_base : i.base ≡ s.base
  pub named : i.named ≡ true
  pub wrote : i.out ≡ content
  pub hashed : i.hashed ≡ content
  pub counted : i.written ≡ length content

pub record Has (s : Subject) (content : Bytes) (m : Table) : Type 0 where
  pub entry : Incoming
  pub found : find s.xid m ≡ some entry
  pub sorted : IsSorted m
  pub fits : Fits s content entry

pub found_after :
    (xid : ℕ) (i : Incoming) (m : Table) → IsSorted m → find xid (set xid i m) ≡ some i
found_after xid i m h = rw (find-set xid xid i m h, same_refl xid) refl

-- The files that were put in their place.
abbrev pub installs : List Effect → List (Bytes × Bytes × FileMeta)
installs [] = []
installs (acked xid n ∷ es) = installs es
installs (asked path ∷ es) = installs es
installs (abandoned path ∷ es) = installs es
installs (installed path content m ∷ es) = (path, content, m) ∷ installs es

pub installs-append : (xs ys : List Effect) → installs (xs ++ ys) ≡ installs xs ++ installs ys
installs-append [] ys = refl
installs-append (acked xid n ∷ xs) ys = installs-append xs ys
installs-append (asked path ∷ xs) ys = installs-append xs ys
installs-append (abandoned path ∷ xs) ys = installs-append xs ys
installs-append (installed path content m ∷ xs) ys = rw (installs-append xs ys)

-- Nothing is put in its place, and the transfer goes on.
abbrev pub Fed : Subject → Bytes → Outcome → Type 0
Fed s content (es, m) = (installs es ≡ []) × Has s content m

pub set-Has :
    (s : Subject) (i : Incoming) (m : Table) (content : Bytes)
    → IsSorted m
    → Fits s content i
    → Has s content (set s.xid i m)
set-Has s i m content h f = record {
  entry = i;
  found = found_after s.xid i m h;
  sorted = set-IsSorted s.xid i m h;
  fits = f;
}

-- The counters of the acks say nothing of the content.
recounted-Fits :
    (s : Subject) (content : Bytes) (i : Incoming) (w a : ℕ)
    → Fits s content i
    → Fits s content (record i { on_wire = w; last_ack = a })
recounted-Fits s content i w a f = record {
  same_path = f.same_path;
  same_mtime = f.same_mtime;
  same_mode = f.same_mode;
  same_base = f.same_base;
  named = f.named;
  wrote = f.wrote;
  hashed = f.hashed;
  counted = f.counted;
}

abbrev extended : Incoming → Bytes → Incoming
extended i d = record i { out = i.out ++ d; hashed = i.hashed ++ d; written = length (i.out ++ d) }

extended-Fits :
    (s : Subject) (content d : Bytes) (i : Incoming)
    → Fits s content i
    → Fits s (content ++ d) (extended i d)
extended-Fits s content d i f = record {
  same_path = f.same_path;
  same_mtime = f.same_mtime;
  same_mode = f.same_mode;
  same_base = f.same_base;
  named = f.named;
  wrote = ap (λ c. c ++ d) f.wrote;
  hashed = ap (λ c. c ++ d) f.hashed;
  counted = ap (λ c. length (c ++ d)) f.wrote;
}

abbrev SomeFits : Subject → Bytes → Option Incoming → Type 0
SomeFits s content none = false ≡ true
SomeFits s content (some i) = Fits s content i

length-slice :
    (from n : ℕ) (xs : Bytes) → from + n ≤ length xs → length (slice from (from + n) xs) ≡ n
length-slice from n xs h =
    rw (slice-take from n xs, length-take n (drop from xs), length-drop from xs) (omega arith)

no_more :
    (content : Bytes) (src : ℕ) (base : Bytes) (s : Subject) (i : Incoming)
    → Fits s content i
    → Fits s (content ++ slice src (src + 0) base) i
no_more content src base s i f =
    subst (λ c. Fits s c i) (sym (rw (slice-take src 0 base) (append-nil content))) f

List-cases : (xs : Bytes) → (xs ≡ []) ⊎ ((y : ℕ) × (ys : Bytes) × (xs ≡ y ∷ ys))
List-cases [] = inl refl
List-cases (y ∷ ys) = inr (y, ys, refl)

module _ (disk : Disk) (good : Reliable disk) where
  write_out_lem :
      (s : Subject) (content d : Bytes) (i : Incoming)
      → Fits s content i
      → length (content ++ d) < 2 ^ 64
      → write_out disk d i ≡ some (extended i d)
  unfolding write_out
  write_out_lem s content d i f h =
      let w : i.written ≡ length i.out = f.counted ∙ ap length (sym f.wrote) in
      let l : length (i.out ++ d) < 2 ^ 64 =
        subst (λ c. length (c ++ d) < 2 ^ 64) (sym f.wrote) h in
      let e : disk.write_at i.written d i.out ≡ some (i.out ++ d) =
        subst (λ p. disk.write_at p d i.out ≡ some (i.out ++ d)) (sym w) (good.wrote d i.out) in
      let n : (i.written + length d) % 2 ^ 64 ≡ length (i.out ++ d) =
        ap (λ p. (p + length d) % 2 ^ 64) w
        ∙ ap (λ k. k % 2 ^ 64) (sym (length-append i.out d))
        ∙ mod-eq_of_lt l in
      rw (e, write_out, n)

  wire_count-Fits :
      (s : Subject) (n : ℕ) (i : Incoming) (content : Bytes)
      → Fits s content i
      → Fits s content (wire_count n i).1
  unfolding wire_count
  wire_count-Fits s n i content f =
      let w = (i.on_wire + n) % 2 ^ 64 in
      elim (Bool-cases (leb ack_interval (minus_64 w i.last_ack))) [
        | inl e ↦ rw (e, wire_count) (recounted-Fits s content i w w f)
        | inr e ↦ rw (e, wire_count) (recounted-Fits s content i w i.last_ack f)
      ]

  acks_install : (xid : ℕ) (ack : Option ℕ) → installs (acks_of xid ack) ≡ []
  acks_install xid none = refl
  acks_install xid (some w) = refl

  count_wire-Fed :
      (s : Subject) (n : ℕ) (i : Incoming) (m : Table) (content : Bytes)
      → IsSorted m
      → Fits s content i
      → Fed s content (count_wire disk s.xid n i m)
  unfolding count_wire
  count_wire-Fed s n i m content h f = (
    acks_install s.xid (wire_count n i).0,
    set-Has s (wire_count n i).1 m content h (wire_count-Fits s n i content f),
  )

  pub handle_file_literal-Fed :
      (s : Subject) (content d : Bytes) (m : Table)
      → length (content ++ d) < 2 ^ 64
      → Has s content m
      → Fed s (content ++ d) (handle_file_literal disk s.xid d m)
  unfolding handle_file_literal
  handle_file_literal-Fed s content d m l h =
      rw (h.found, write_out_lem s content d h.entry h.fits l, handle_file_literal)
        (count_wire-Fed s (length d) (extended h.entry d) m (content ++ d) h.sorted
          (extended-Fits s content d h.entry h.fits))

  -- One round of the loop.
  copy_round :
      (fuel want n src : ℕ) (base d : Bytes) (i : Incoming)
      → 0 < length d
      → src + length d < 2 ^ 64
      → disk.read_at src (min want (suc n)) base ≡ some d
      → write_out disk d i ≡ some (extended i d)
      → copy_loop disk (suc fuel) want (suc n) src base i
        ≡ copy_loop disk fuel want (suc n - length d) (src + length d) base (extended i d)
  unfolding copy_loop
  copy_round fuel want n src base [] i p h e w = absurd (omega (arith, p))
  copy_round fuel want n src base (x ∷ xs) i p h e w =
      rw (e, w, copy_loop)
        (ap (λ at. copy_loop disk fuel want (suc n - length (x ∷ xs)) at base (extended i (x ∷ xs)))
          (mod-eq_of_lt h))

  slices :
      (src k n : ℕ) (base content : Bytes)
      → k ≤ n
      → (content ++ slice src (src + k) base) ++ slice (src + k) (src + k + (n - k)) base
        ≡ content ++ slice src (src + n) base
  slices src k n base content h =
      append_assoc content (slice src (src + k) base) (slice (src + k) (src + k + (n - k)) base)
      ∙ ap (λ t. content ++ t)
          (ap (λ e. slice src (src + k) base ++ slice (src + k) e base) (omega arith)
            ∙ slice_join src (src + k) (src + n) base (omega arith) (omega arith))

  copy_loop-SomeFits :
      (fuel want left src : ℕ) (base content : Bytes) (s : Subject) (i : Incoming)
      → 0 < want
      → left ≤ fuel
      → src + left ≤ length base
      → length base < 2 ^ 64
      → length (content ++ slice src (src + left) base) < 2 ^ 64
      → Fits s content i
      → SomeFits s
          (content ++ slice src (src + left) base)
          (copy_loop disk fuel want left src base i)
  unfolding copy_loop
  copy_loop-SomeFits zero want zero src base content s i p q r b l f =
      no_more content src base s i f
  copy_loop-SomeFits zero want (suc n) src base content s i p q r b l f = absurd (omega (arith, q))
  copy_loop-SomeFits (suc fuel) want zero src base content s i p q r b l f =
      no_more content src base s i f
  copy_loop-SomeFits (suc fuel) want (suc n) src base content s i p q r b l f =
      let (k, pos, most, e) =
        good.reads src (min want (suc n)) base (omega arith) (omega (arith, r)) in
      let d = slice src (src + k) base in
      let kn : k ≤ suc n = omega (arith, most) in
      let len : length d ≡ k = length-slice src k base (omega (arith, r, kn)) in
      let whole = slices src k (suc n) base content kn in
      let fits : length ((content ++ d) ++ slice (src + k) (src + k + (suc n - k)) base) < 2 ^ 64 =
        subst (λ c. length c < 2 ^ 64) (sym whole) l in
      let short : length (content ++ d) < 2 ^ 64 = omega (
        arith,
        fits,
        length-append (content ++ d) (slice (src + k) (src + k + (suc n - k)) base),
      ) in
      let w = write_out_lem s content d i f short in
      let step =
        copy_round fuel want n src base d i (omega (arith, len, pos)) (omega (arith, len, r, kn, b))
          e w in
      let rest =
        copy_loop-SomeFits fuel want (suc n - k) (src + k) base (content ++ d) s (extended i d) p
          (omega (arith, q, pos)) (omega (arith, r, kn)) b fits (extended-Fits s content d i f) in
      subst (SomeFits s (content ++ slice src (src + suc n) base))
        (sym
          (step ∙ ap (λ j. copy_loop disk fuel want (suc n - j) (src + j) base (extended i d)) len))
        (subst
          (λ c. SomeFits s c (copy_loop disk fuel want (suc n - k) (src + k) base (extended i d)))
          whole rest)

  copied-Fed :
      (s : Subject) (content : Bytes) (m : Table) (o : Option Incoming) (failed : Outcome)
      → IsSorted m
      → SomeFits s content o
      → Fed s content (elim o [ none ↦ failed | some i ↦ ([], set s.xid i m) ])
  copied-Fed s content m none failed h f = let n : false ≡ true = f in cc
  copied-Fed s content m (some i) failed h f = (refl, set-Has s i m content h f)

  copy_all-SomeFits :
      (len off : ℕ) (base content : Bytes) (s : Subject) (i : Incoming)
      → off + len ≤ length base
      → length base < 2 ^ 64
      → length (content ++ slice off (off + len) base) < 2 ^ 64
      → Fits s content i
      → SomeFits s
          (content ++ slice off (off + len) base)
          (copy_loop disk len (min len copy_buffer) len off base i)
  unfolding copy_loop
  copy_all-SomeFits zero off base content s i r b l f = no_more content off base s i f
  copy_all-SomeFits (suc n) off base content s i r b l f =
      copy_loop-SomeFits (suc n) (min (suc n) copy_buffer) (suc n) off base content s i
        (omega arith) (omega arith) r b l f

  pub handle_file_copy-Fed :
      (s : Subject) (content base : Bytes) (off len : ℕ) (m : Table)
      → s.base ≡ some base
      → off + len ≤ length base
      → length base < 2 ^ 64
      → length (content ++ slice off (off + len) base) < 2 ^ 64
      → Has s content m
      → Fed s (content ++ slice off (off + len) base) (handle_file_copy disk s.xid off len m)
  unfolding handle_file_copy
  handle_file_copy-Fed s content base off len m e r b l h =
      rw (h.found, h.fits.same_base ∙ e, handle_file_copy)
        (copied-Fed s (content ++ slice off (off + len) base) m
          (copy_loop disk len (min len copy_buffer) len off base h.entry)
          (fail_incoming s.xid h.entry.rel_path false m) h.sorted
          (copy_all-SomeFits len off base content s h.entry r b l h.fits))
