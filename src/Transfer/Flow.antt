-- ===== src/Transfer/Flow.antt =====
-- net/sync_session.cpp: the window of the sender against the acks of the receiver.
use rasync.Prelude.{ℕ, suc, ◌+◌, ◌-◌, ◌^◌, ◌<◌, ◌≤◌, ◌≡◌, refl, sym, ◌∙◌, ap, arith}
use rasync.Prelude.{true, Bool-cases, inl, inr, List, [], ◌∷◌, ◌++◌, Option, none, some}
use rasync.Prelude.{leb→le, leb, ltb, ◌==◌, if◌then◌else◌}
use rasync.Prelude.{length, ◌%◌}
use rasync.Prelude.Order.{nat_order}
use rasync.Codec.Writer.{Bytes}
use rasync.SortedMap.{find, set, IsSorted}
use rasync.SortedMap.Laws.{set-IsSorted}
use rasync.Transfer.{
  Disk, Effect, acked, asked, abandoned, installed, acks_of, Table, Incoming, wire_count,
  count_wire, write_out, handle_file_literal, ack_interval, minus_64,
}
use rasync.Transfer.Fed.{found_after}
use rasync.Transfer.Window.{Window, opened, note_sent, may_go, handle_file_ack}
use mathlib.Core.List.{append-nil}
use native.Mathlib.Nat.{mod-eq_of_lt}

-- The sender's window, the receiver's transfers, and what is on its way: the bytes of literals, and
-- acks.
pub record Flow : Type 0 where
  pub window : Window
  pub table : Table
  pub wire : List Bytes
  pub acks : List ℕ

-- A literal is sent, the next one arrives, or the next ack does.
pub data Event : Type 0 where
  sent : Bytes → Event
  arrived : Event
  acknowledged : Event

abbrev ack_of : Option ℕ → List ℕ
ack_of none = []
ack_of (some w) = w ∷ []

-- The acks that the receiver sends.
abbrev pub acks_in : List Effect → List ℕ
acks_in [] = []
acks_in (acked xid w ∷ es) = w ∷ acks_in es
acks_in (asked path ∷ es) = acks_in es
acks_in (abandoned path ∷ es) = acks_in es
acks_in (installed path content m ∷ es) = acks_in es

-- A literal is sent only when the wait before it is over. What cannot happen leaves all as it is.
unfoldable pub step : Disk → ℕ → ℕ → Event → Flow → Flow
unfolding note_sent may_go handle_file_ack handle_file_literal
step disk limit xid (sent d) f =
    if may_go true limit xid f.window
    then record f { window = note_sent xid (length d) f.window; wire = f.wire ++ d ∷ [] }
    else f
step disk limit xid arrived f = elim f.wire [
  | [] ↦ f
  | d ∷ rest ↦
      let (es, m) = handle_file_literal disk xid d f.table in
      record f { table = m; wire = rest; acks = f.acks ++ acks_in es }
]
step disk limit xid acknowledged f = elim f.acks [
  | [] ↦ f
  | a ∷ rest ↦ record f { window = handle_file_ack xid a f.window; acks = rest }
]

abbrev pub run : Disk → ℕ → ℕ → List Event → Flow → Flow
run disk limit xid [] f = f
run disk limit xid (e ∷ es) f = run disk limit xid es (step disk limit xid e f)

abbrev sum : List Bytes → ℕ
sum [] = 0
sum (d ∷ ds) = length d + sum ds

-- The bytes that the events send at most.
abbrev pub offered : List Event → ℕ
offered [] = 0
offered (sent d ∷ es) = length d + offered es
offered (arrived ∷ es) = offered es
offered (acknowledged ∷ es) = offered es

-- The last ack on its way, or else the one that is known.
abbrev newest : ℕ → List ℕ → ℕ
newest a [] = a
newest a (b ∷ bs) = newest b bs

abbrev Rising : ℕ → List ℕ → Type 0
Rising a [] = Unit {0}
Rising a (b ∷ bs) = (a < b) × Rising b bs

-- In terms of the counters: nothing is lost on the way, and less than an ack's interval is not acked.
record Level (xid sent acked on_wire last_ack : ℕ) (cur : ℕ) (wire : List Bytes) (acks : List ℕ)
    : Type 0 where
  same : cur ≡ xid
  total : sent ≡ on_wire + sum wire
  behind : last_ack ≤ on_wire
  close : on_wire < last_ack + ack_interval
  rising : Rising acked acks
  last : newest acked acks ≡ last_ack

-- And the transfer is open.
abbrev Levelled : ℕ → Flow → Type 0
Levelled xid f =
    (i : Incoming) × (find xid f.table ≡ some i)
    × IsSorted f.table
    × Level xid f.window.cur_sent f.window.cur_acked i.on_wire i.last_ack f.window.cur_xid f.wire
        f.acks

sum-append : (xs ys : List Bytes) → sum (xs ++ ys) ≡ sum xs + sum ys
sum-append [] ys = omega arith
sum-append (x ∷ xs) ys = rw (sum-append xs ys) (omega arith)

newest-append : (a b : ℕ) (xs : List ℕ) → newest a (xs ++ b ∷ []) ≡ b
newest-append a b [] = refl
newest-append a b (x ∷ xs) = newest-append x b xs

Rising-append : (a b : ℕ) (xs : List ℕ) → Rising a xs → newest a xs < b → Rising a (xs ++ b ∷ [])
Rising-append a b [] r h = (h, tt)
Rising-append a b (x ∷ xs) (h, r) k = (h, Rising-append x b xs r k)

-- No write of the receiver fails.
abbrev pub Writes : Disk → Type 0
Writes disk = (p : ℕ) (d f : Bytes) → (g : Bytes) × (disk.write_at p d f ≡ some g)

-- The counters of the receiver after a literal, and the ack for it.
counted-Level :
    (xid out known cur : ℕ) (i : Incoming) (d : Bytes) (rest : List Bytes) (acks : List ℕ)
    → out < 2 ^ 64
    → Level xid out known i.on_wire i.last_ack cur (d ∷ rest) acks
    → let (ack, j) = wire_count (length d) i in
      Level xid out known j.on_wire j.last_ack cur rest (acks ++ ack_of ack)
unfolding wire_count
counted-Level xid out known cur i d rest acks h l =
    let n = length d in
    let fits : i.on_wire + n < 2 ^ 64 = omega (arith, h, l.total) in
    let diff : minus_64 (i.on_wire + n) i.last_ack ≡ i.on_wire + n - i.last_ack =
      omega (arith, fits, l.behind) in
    elim (Bool-cases (leb ack_interval (i.on_wire + n - i.last_ack))) [
      | inl e ↦
          rw (mod-eq_of_lt fits, diff, e, wire_count)
            (record {
              same = l.same;
              total = omega (arith, l.total);
              behind = omega arith;
              close = omega arith;
              rising = Rising-append known (i.on_wire + n) acks l.rising (
                  rw (l.last)
                    (omega (arith, l.behind, leb→le ack_interval (i.on_wire + n - i.last_ack) e)));
              last = newest-append known (i.on_wire + n) acks;
            })
      | inr e ↦
          rw (mod-eq_of_lt fits, diff, e, wire_count)
            (record {
              same = l.same;
              total = omega (arith, l.total);
              behind = omega (arith, l.behind);
              close = ground (arith, e, l.close, l.behind);
              rising = rw (append-nil acks) l.rising;
              last = rw (append-nil acks) l.last;
            })
    ]

acks_in-acks_of : (xid : ℕ) (o : Option ℕ) → acks_in (acks_of xid o) ≡ ack_of o
acks_in-acks_of xid none = refl
acks_in-acks_of xid (some w) = refl

-- Only sending changes the count of what was sent.
Moved : ℕ → ℕ → Flow → Flow → Type 0
Moved xid n f g = Levelled xid g × (g.window.cur_sent ≤ f.window.cur_sent + n)

module _ (disk : Disk) (writes : Writes disk) where
  -- A literal for a transfer that is open.
  literal_lem :
      (xid : ℕ) (d : Bytes) (i : Incoming) (m : Table)
      → find xid m ≡ some i
      → (j : Incoming) × (j.on_wire ≡ i.on_wire)
        × (j.last_ack ≡ i.last_ack)
        × (handle_file_literal disk xid d m
            ≡ (acks_of xid (wire_count (length d) j).0, set xid (wire_count (length d) j).1 m))
  unfolding handle_file_literal count_wire write_out
  literal_lem xid d i m e =
      let (g, w) = writes i.written d i.out in
      let j : Incoming = record i {
        out = g;
        hashed = i.hashed ++ d;
        written = (i.written + length d) % 2 ^ 64;
      } in
      (j, refl, refl, rw (e, w, handle_file_literal, write_out, count_wire) refl)

  sent-Moved :
      (limit xid : ℕ) (d : Bytes) (f : Flow)
      → f.window.cur_sent + length d < 2 ^ 64
      → Levelled xid f
      → Moved xid (length d) f (step disk limit xid (sent d) f)
  unfolding step note_sent Moved
  sent-Moved limit xid d f h (i, e, s, l) =
      let k : f.window.cur_xid == xid ≡ true = ground (arith, l.same) in
      elim (Bool-cases (may_go true limit xid f.window)) [
        | inr b ↦ rw (b, step) ((i, e, s, l), omega arith)
        | inl b ↦
            rw (b, k, step, note_sent)
              (
                (
                  i,
                  e,
                  s,
                  record {
                    same = l.same;
                    total =
                        rw (sum-append f.wire (d ∷ []), mod-eq_of_lt h) (omega (arith, l.total));
                    behind = l.behind;
                    close = l.close;
                    rising = l.rising;
                    last = l.last;
                  },
                ),
                omega (arith, mod-eq_of_lt h),
              )
      ]

  arrived-Moved :
      (limit xid : ℕ) (w : Window) (m : Table) (wire : List Bytes) (acks : List ℕ)
      → w.cur_sent < 2 ^ 64
      → let f : Flow = record { window = w; table = m; wire = wire; acks = acks } in
        Levelled xid f → Moved xid 0 f (step disk limit xid arrived f)
  unfolding step Moved
  arrived-Moved limit xid w m [] acks h l = (l, omega arith)
  arrived-Moved limit xid w m (d ∷ rest) acks h (i, e, s, l) =
      let (j, on, last, r) = literal_lem xid d i m e in
      let l' : Level xid w.cur_sent w.cur_acked j.on_wire j.last_ack w.cur_xid (d ∷ rest) acks =
        rw (on, last) l in
      let c = counted-Level xid w.cur_sent w.cur_acked w.cur_xid j d rest acks h l' in
      let j' = (wire_count (length d) j).1 in
      rw (r, step, acks_in-acks_of xid (wire_count (length d) j).0)
        ((j', found_after xid j' m s, set-IsSorted xid j' m s, c), omega arith)

  acked_sent : (xid a : ℕ) (w : Window) → (handle_file_ack xid a w).cur_sent ≡ w.cur_sent
  unfolding handle_file_ack
  acked_sent xid a w = ground arith

  acknowledged-Moved :
      (limit xid : ℕ) (w : Window) (m : Table) (wire : List Bytes) (acks : List ℕ)
      → let f : Flow = record { window = w; table = m; wire = wire; acks = acks } in
        Levelled xid f → Moved xid 0 f (step disk limit xid acknowledged f)
  unfolding step Moved handle_file_ack
  acknowledged-Moved limit xid w m wire [] l = (l, omega arith)
  acknowledged-Moved limit xid w m wire (a ∷ rest) (i, e, s, l) =
      let k : w.cur_xid == xid ≡ true = ground (arith, l.same) in
      let b : ltb w.cur_acked a ≡ true = ground (arith, l.rising.0) in
      rw (k, b, step, handle_file_ack)
        (
          (
            i,
            e,
            s,
            record {
              same = l.same;
              total = l.total;
              behind = l.behind;
              close = l.close;
              rising = l.rising.1;
              last = l.last;
            },
          ),
          omega arith,
        )

  run-Levelled :
      (limit xid : ℕ) (es : List Event) (f : Flow)
      → f.window.cur_sent + offered es < 2 ^ 64
      → Levelled xid f
      → Levelled xid (run disk limit xid es f)
  unfolding Moved
  run-Levelled limit xid [] f h l = l
  run-Levelled limit xid (sent d ∷ es) f h l =
      let m = sent-Moved limit xid d f (omega (arith, h)) l in
      run-Levelled limit xid es (step disk limit xid (sent d) f) (omega (arith, h, m.1)) m.0
  run-Levelled limit xid (arrived ∷ es) f h l =
      let m = arrived-Moved limit xid f.window f.table f.wire f.acks (omega (arith, h)) l in
      run-Levelled limit xid es (step disk limit xid arrived f) (omega (arith, h, m.1)) m.0
  run-Levelled limit xid (acknowledged ∷ es) f h l =
      let m = acknowledged-Moved limit xid f.window f.table f.wire f.acks l in
      run-Levelled limit xid es (step disk limit xid acknowledged f) (omega (arith, h, m.1)) m.0

-- A transfer that has just been started, on both sides.
abbrev pub started : ℕ → Incoming → Table → Flow
started xid i m = record {
  window = opened xid;
  table = set xid (record i { on_wire = 0; last_ack = 0 }) m;
  wire = [];
  acks = [];
}

-- Where no write of the receiver fails, the window holds at least an ack's interval less a byte, and
-- fewer than 2^64 bytes are sent: however the literals of a transfer that was started and their acks
-- were sent, delayed and delivered, once nothing is on its way the sender need not wait.
pub drained_goes :
    (disk : Disk) (limit xid : ℕ) (es : List Event) (i : Incoming) (m : Table)
    → Writes disk
    → IsSorted m
    → ack_interval ≤ suc limit
    → offered es < 2 ^ 64
    → (run disk limit xid es (started xid i m)).wire ≡ []
    → (run disk limit xid es (started xid i m)).acks ≡ []
    → may_go true limit xid (run disk limit xid es (started xid i m)).window ≡ true
unfolding may_go
drained_goes disk limit xid es i m wr s h o w a =
    let f = run disk limit xid es (started xid i m) in
    let i₀ : Incoming = record i { on_wire = 0; last_ack = 0 } in
    let (j, e, s', l) = run-Levelled disk wr limit xid es (started xid i m) (omega (arith, o)) (
      i₀,
      found_after xid i₀ m s,
      set-IsSorted xid i₀ m s,
      record {
        same = refl;
        total = refl;
        behind = omega arith;
        close = omega arith;
        rising = tt;
        last = refl;
      },
    ) in
    let t : f.window.cur_sent ≡ j.on_wire + 0 = rw (ap sum w) at l.total in
    let k : f.window.cur_acked ≡ j.last_ack = ap (newest f.window.cur_acked) (sym a) ∙ l.last in
    ground (arith, t, k, l.close, l.same, h)
