-- ===== src/Transfer/Handlers.antt =====
-- net/sync_session.cpp: what each file handler keeps of a sound table of transfers.
use rasync.Prelude.{
  ◌≤◌, ◌⊎◌, leb→le, leb, ℕ, zero, suc, ◌+◌, ◌-◌, ◌%◌, ◌^◌, ◌<◌, ◌≡◌, refl, sym, ◌∙◌, ap, subst,
  arith, min,
}
use rasync.Prelude.{
  ◌&&◌, not, Bool, true, false, Bool-cases, Option-cases, inl, inr, List, [], ◌∷◌, ◌++◌, none, some,
}
use rasync.Prelude.{length, length-append, leb, Option}
use rasync.Prelude.Int.{ℤ}
use rasync.Prelude.Equality.{bytes_eq, bytes_eq→eq}
use rasync.Prelude.Order.{nat_order}
use rasync.Codec.Writer.{Bytes}
use rasync.Paths.{is_safe_relpath}
use rasync.SortedMap.{find, set, erase}
use rasync.Transfer.{
  Disk, Incoming, Effect, Table, Outcome, acked, asked, abandoned, installed, fail_incoming,
  write_out, fresh, open_base, taken, unnamed, handle_file_start, count_wire, wire_count, acks_of,
  handle_file_literal, copy_loop, handle_file_copy, finalize_incoming, handle_file_end,
  ack_interval, copy_buffer, minus_64,
}
use native.Mathlib.Nat.{mod-eq_of_lt}

-- A temp file of fewer than 2^64 bytes has the bytes that were hashed, all of them counted.
abbrev pub Counted : Incoming → Type 0
Counted i = length i.out < 2 ^ 64 → (i.written ≡ length i.out) × (i.hashed ≡ i.out)

abbrev pub Sound : Incoming → Type 0
Sound i = (is_safe_relpath i.rel_path ≡ true) × Counted i

abbrev pub AllSound : Table → Type 0
AllSound [] = Unit {0}
AllSound ((xid, i) ∷ m) = Sound i × AllSound m

abbrev pub SoundAt : Option Incoming → Type 0
SoundAt none = Unit {0}
SoundAt (some i) = Sound i

pub find-SoundAt : (k : ℕ) (m : Table) → AllSound m → SoundAt (find k m)
unfolding find
find-SoundAt k [] s = tt
find-SoundAt k ((j, w) ∷ m) (s, ss) = ground (arith, find-SoundAt k m ss)

pub set-AllSound : (k : ℕ) (i : Incoming) (m : Table) → Sound i → AllSound m → AllSound (set k i m)
unfolding set
set-AllSound k i [] s h = (s, tt)
set-AllSound k i ((j, w) ∷ m) s h = ground (arith, set-AllSound k i m s h.1)

pub erase-AllSound : (k : ℕ) (m : Table) → AllSound m → AllSound (erase k m)
unfolding erase
erase-AllSound k [] h = tt
erase-AllSound k ((j, w) ∷ m) h = ground (arith, erase-AllSound k m h.1)

unnamed-AllSound : (k : ℕ) (m : Table) → AllSound m → AllSound (unnamed k m)
unfolding unnamed
unnamed-AllSound k m h = elim (Option-cases (find k m)) [
  | inl e ↦ rw (e, unnamed) h
  | inr (i, e) ↦
      rw (e, unnamed)
        (set-AllSound k (record i { named = false }) m (subst SoundAt e (find-SoundAt k m h)) h)
]

large_or_small : (n : ℕ) → (2 ^ 64 ≤ n) ⊎ (n < 2 ^ 64)
large_or_small n = elim (Bool-cases (leb (2 ^ 64) n)) [
  | inl e ↦ inl (leb→le (2 ^ 64) n e)
  | inr e ↦ inr (ground (arith, e))
]

module _ (disk : Disk) where
  -- A file that was put in its place has a safe path, its digest is one that `Q` holds of, and, below
  -- 2^64 bytes, its entry has its size and its SHA-256.
  abbrev pub Good : (Bytes → Type 0) → Effect → Type 0
  Good Q (acked xid n) = Unit {0}
  Good Q (asked path) = Unit {0}
  Good Q (abandoned path) = Unit {0}
  Good Q (installed path content m) =
      (is_safe_relpath path ≡ true)
      × Q m.hash
      × ((2 ^ 64 ≤ length content) ⊎ ((m.size ≡ length content) × (m.hash ≡ disk.sha256 content)))

  abbrev pub AllGood : (Bytes → Type 0) → List Effect → Type 0
  AllGood Q [] = Unit {0}
  AllGood Q (e ∷ es) = Good Q e × AllGood Q es

  pub AllGood-append :
      (Q : Bytes → Type 0) (xs ys : List Effect)
      → AllGood Q xs
      → AllGood Q ys
      → AllGood Q (xs ++ ys)
  AllGood-append Q [] ys h k = k
  AllGood-append Q (x ∷ xs) ys (h, hs) k = (h, AllGood-append Q xs ys hs k)

  abbrev pub Kept : (Bytes → Type 0) → Outcome → Type 0
  Kept Q (es, m) = AllGood Q es × AllSound m

  acks_good : (Q : Bytes → Type 0) (xid : ℕ) (ack : Option ℕ) → AllGood Q (acks_of xid ack)
  acks_good Q xid none = tt
  acks_good Q xid (some w) = (tt, tt)

  wire_count-Sound : (n : ℕ) (i : Incoming) → Sound i → Sound (wire_count n i).1
  unfolding wire_count
  wire_count-Sound n i s =
      let w = (i.on_wire + n) % 2 ^ 64 in
      elim (Bool-cases (leb ack_interval (minus_64 w i.last_ack))) [
        | inl e ↦ rw (e, wire_count) s
        | inr e ↦ rw (e, wire_count) s
      ]

  pub written_out :
      (d f : Bytes) (i : Incoming)
      → disk.write_at i.written d i.out ≡ some f
      → Counted i
      → length f < 2 ^ 64
      → ((i.written + length d) % 2 ^ 64 ≡ length f) × (i.hashed ++ d ≡ f)
  written_out d f i e c h =
      let g = disk.write_grows i.written d i.out f e in
      let w = c (omega (arith, g, h)) in
      let a = disk.write_end d i.out f (subst (λ p. disk.write_at p d i.out ≡ some f) w.0 e) in
      let n : i.written + length d ≡ length f =
        ap (λ p. p + length d) w.0 ∙ sym (ap length a ∙ length-append i.out d) in
      (rw n (mod-eq_of_lt h), rw w.1 (sym a))

  write_out-SoundAt : (d : Bytes) (i : Incoming) → Sound i → SoundAt (write_out disk d i)
  unfolding write_out
  write_out-SoundAt d i s = elim (Option-cases (disk.write_at i.written d i.out)) [
    | inl e ↦ rw (e, write_out) tt
    | inr (f, e) ↦ rw (e, write_out) (s.0, written_out d f i e s.1)
  ]

  pub copy_loop-SoundAt :
      (fuel want left src : ℕ) (base : Bytes) (i : Incoming)
      → Sound i
      → SoundAt (copy_loop disk fuel want left src base i)
  unfolding copy_loop
  copy_loop-SoundAt zero want left src base i s = s
  copy_loop-SoundAt (suc fuel) want zero src base i s = s
  copy_loop-SoundAt (suc fuel) want (suc n) src base i s =
      elim (Option-cases (disk.read_at src (min want (suc n)) base)) [
        | inl e ↦ rw (e, copy_loop) tt
        | inr ([], e) ↦ rw (e, copy_loop) tt
        | inr (b ∷ bs, e) ↦ elim (Option-cases (write_out disk (b ∷ bs) i)) [
          | inl w ↦ rw (e, w, copy_loop) tt
          | inr (i', w) ↦
              rw (e, w, copy_loop)
                (copy_loop-SoundAt fuel want (suc n - length (b ∷ bs))
                  ((src + length (b ∷ bs)) % 2 ^ 64) base i'
                  (subst SoundAt w (write_out-SoundAt (b ∷ bs) i s)))
        ]
      ]

  fail_incoming-Kept :
      (Q : Bytes → Type 0) (xid : ℕ) (path : Bytes) (keep : Bool) (m : Table)
      → AllSound m
      → Kept Q (fail_incoming xid path keep m)
  unfolding fail_incoming
  fail_incoming-Kept Q xid path true m h = (tt, erase-AllSound xid m h)
  fail_incoming-Kept Q xid path false m h = ((tt, tt), erase-AllSound xid m h)

  fresh-Sound :
      (path : Bytes) (size : ℕ) (mtime : ℤ) (mode : ℕ) (d : Bool) (base : Option Bytes)
      → is_safe_relpath path ≡ true
      → Sound (fresh disk path size mtime mode d base)
  fresh-Sound path size mtime mode d base p = (p, λ h. (refl, refl))

  open_base-Kept :
      (Q : Bytes → Type 0) (xid : ℕ) (path : Bytes) (size : ℕ) (mtime : ℤ) (mode : ℕ) (d : Bool)
      (m : Table)
      → is_safe_relpath path ≡ true
      → AllSound m
      → Kept Q (open_base disk xid path size mtime mode d m)
  unfolding open_base
  open_base-Kept Q xid path size mtime mode false m p h = (
    tt,
    set-AllSound xid
        (record (fresh disk path size mtime mode false none) { named = not (taken (find xid m)) }) m
        (fresh-Sound path size mtime mode false none p) h,
  )
  open_base-Kept Q xid path size mtime mode true m p h = elim (Option-cases (disk.base_of path)) [
    | inl e ↦ rw (e, open_base) (fail_incoming-Kept Q xid path false m h)
    | inr (b, e) ↦
        rw (e, open_base)
          (
            tt,
            set-AllSound xid
                (record (fresh disk path size mtime mode true (some b)) {
                  named = not (taken (find xid m));
                })
                m (fresh-Sound path size mtime mode true (some b) p) h,
          )
  ]

  pub handle_file_start-Kept :
      (Q : Bytes → Type 0) (xid : ℕ) (path : Bytes) (size : ℕ) (mtime : ℤ) (mode : ℕ) (d : Bool)
      (m : Table)
      → AllSound m
      → Kept Q (handle_file_start disk xid path size mtime mode d m)
  unfolding handle_file_start
  handle_file_start-Kept Q xid path size mtime mode d m h =
      elim (Bool-cases (is_safe_relpath path)) [
        | inr p ↦ rw (p, handle_file_start) ((tt, tt), h)
        | inl p ↦ elim (Bool-cases (disk.clears xid)) [
          | inr c ↦ rw (p, c, handle_file_start) ((tt, tt), h)
          | inl c ↦ elim (Bool-cases (disk.opens xid)) [
            | inr o ↦ rw (p, c, o, handle_file_start) ((tt, tt), unnamed-AllSound xid m h)
            | inl o ↦
                rw (p, c, o, handle_file_start) (open_base-Kept Q xid path size mtime mode d m p h)
          ]
        ]
      ]

  count_wire-Kept :
      (Q : Bytes → Type 0) (xid n : ℕ) (i : Incoming) (m : Table)
      → Sound i
      → AllSound m
      → Kept Q (count_wire disk xid n i m)
  unfolding count_wire
  count_wire-Kept Q xid n i m s h = (
    acks_good Q xid (wire_count n i).0,
    set-AllSound xid (wire_count n i).1 m (wire_count-Sound n i s) h,
  )

  pub handle_file_literal-Kept :
      (Q : Bytes → Type 0) (xid : ℕ) (d : Bytes) (m : Table)
      → AllSound m
      → Kept Q (handle_file_literal disk xid d m)
  unfolding handle_file_literal
  handle_file_literal-Kept Q xid d m h = elim (Option-cases (find xid m)) [
    | inl e ↦ rw (e, handle_file_literal) (tt, h)
    | inr (i, e) ↦ elim (Option-cases (write_out disk d i)) [
      | inl w ↦ rw (e, w, handle_file_literal) (fail_incoming-Kept Q xid i.rel_path false m h)
      | inr (i', w) ↦
          let s = subst SoundAt e (find-SoundAt xid m h) in
          rw (e, w, handle_file_literal)
            (count_wire-Kept Q xid (length d) i' m (subst SoundAt w (write_out-SoundAt d i s)) h)
    ]
  ]

  pub handle_file_copy-Kept :
      (Q : Bytes → Type 0) (xid off len : ℕ) (m : Table)
      → AllSound m
      → Kept Q (handle_file_copy disk xid off len m)
  unfolding handle_file_copy
  handle_file_copy-Kept Q xid off len m h = elim (Option-cases (find xid m)) [
    | inl e ↦ rw (e, handle_file_copy) (tt, h)
    | inr (i, e) ↦ elim (Option-cases i.base) [
      | inl n ↦ rw (e, n, handle_file_copy) (tt, h)
      | inr (b, n) ↦ elim (Option-cases (copy_loop disk len (min len copy_buffer) len off b i)) [
        | inl w ↦ rw (e, n, w, handle_file_copy) (fail_incoming-Kept Q xid i.rel_path false m h)
        | inr (i', w) ↦
            let s = subst SoundAt e (find-SoundAt xid m h) in
            let s' = copy_loop-SoundAt len (min len copy_buffer) len off b i s in
            rw (e, n, w, handle_file_copy) (tt, set-AllSound xid i' m (subst SoundAt w s') h)
      ]
    ]
  ]

  measured :
      (i : Incoming)
      → Counted i
      → (2 ^ 64 ≤ length i.out)
        ⊎ ((i.written ≡ length i.out) × (disk.sha256 i.hashed ≡ disk.sha256 i.out))
  measured i c = elim (large_or_small (length i.out)) [
    | inl l ↦ inl l
    | inr l ↦ let k = c l in inr (k.0, ap disk.sha256 k.1)
  ]

  finalize_incoming-Kept :
      (Q : Bytes → Type 0) (xid : ℕ) (i : Incoming) (m : Table)
      → Sound i
      → Q (disk.sha256 i.hashed)
      → AllSound m
      → Kept Q (finalize_incoming disk xid i m)
  unfolding finalize_incoming
  finalize_incoming-Kept Q xid i m s q h = elim (Bool-cases (i.named && disk.moves i.rel_path)) [
    | inr e ↦ rw (e, finalize_incoming) ((tt, (tt, tt)), erase-AllSound xid m h)
    | inl e ↦
        rw (e, finalize_incoming) ((tt, ((s.0, q, measured i s.1), tt)), erase-AllSound xid m h)
  ]

  pub handle_file_end-Kept :
      (Q : Bytes → Type 0) (xid : ℕ) (d : Bytes) (m : Table)
      → Q d
      → AllSound m
      → Kept Q (handle_file_end disk xid d m)
  unfolding handle_file_end
  handle_file_end-Kept Q xid d m q h = elim (Option-cases (find xid m)) [
    | inl e ↦ rw (e, handle_file_end) (tt, h)
    | inr (i, e) ↦ elim (Bool-cases (bytes_eq (disk.sha256 i.hashed) d)) [
      | inl k ↦
          rw (e, k, handle_file_end)
            (finalize_incoming-Kept Q xid i m (subst SoundAt e (find-SoundAt xid m h))
              (subst Q (sym (bytes_eq→eq (disk.sha256 i.hashed) d k)) q) h)
      | inr k ↦
          let f = fail_incoming-Kept Q xid i.rel_path i.is_delta m h in
          elim (Bool-cases i.is_delta) [
            | inl t ↦
                rw (e, k, handle_file_end, t)
                  (
                    AllGood-append Q (fail_incoming xid i.rel_path true m).0 (asked i.rel_path ∷ [])
                        (fail_incoming-Kept Q xid i.rel_path true m h).0 (tt, tt),
                    (fail_incoming-Kept Q xid i.rel_path true m h).1,
                  )
            | inr t ↦ rw (e, k, handle_file_end, t) (fail_incoming-Kept Q xid i.rel_path false m h)
          ]
    ]
  ]
