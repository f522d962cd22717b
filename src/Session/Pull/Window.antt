-- ===== src/Session/Pull/Window.antt =====
-- net/sync_session.cpp: what the pull window counts.
use rasync.Prelude.{
  ℕ, ◌+◌, ◌≤◌, ◌<◌, ◌≡◌, refl, subst, ◌∙◌, arith, true, false, Bool-cases, inl, inr, ◌⊎◌,
}
use rasync.Prelude.{List, [], ◌∷◌, ◌++◌, Option, none, some, length, length-append, if◌then◌else◌}
use rasync.Prelude.Order.{bytes_order}
use rasync.Codec.Writer.{Bytes}
use rasync.SortedMap.{Map, same, find, emplace, erase, IsSorted}
use rasync.SortedMap.Laws.{emplace-IsSorted, erase-IsSorted, same→eq}
use rasync.Service.{present}
use rasync.Session.Pull.{
  Pulls, reserve, in_flight, may_request, next_request, release_pull, times, without, Session,
  planned, requested, answered, Reached, start, next,
}
use rasync.Session.Pull.Count.{
  length-emplace, length-erase, times-append, times-without, length-without, present-emplace,
  present-erase,
}

-- A reservation is for a path that waits in the queue or was asked for, once.
record Reserved (limit : ℕ) (pulling : Map Bytes (Unit {0})) (queue asked : List Bytes)
    : Type 0 where
  sorted : IsSorted pulling
  count : length pulling ≡ length queue + length asked
  one : (x : Bytes) → times x queue + times x asked ≡ (if present (find x pulling) then 1 else 0)
  bounded : length asked ≤ limit

one_more :
    (limit : ℕ) (path : Bytes) (m : Map Bytes (Unit {0})) (queue asked : List Bytes)
    → present (find path m) ≡ false
    → Reserved limit m queue asked
    → Reserved limit (emplace path tt m) (queue ++ path ∷ []) asked
one_more limit path m queue asked n r = record {
  sorted = emplace-IsSorted path tt m r.sorted;
  count = omega (arith, length-emplace path m n, length-append queue (path ∷ []), r.count);
  one = λ x. elim (Bool-cases (same x path)) [
    | inl e ↦
        let z : times x queue + times x asked ≡ 0 = r.one x ∙ rw (same→eq x path e, n) in
        rw (present-emplace x path m r.sorted, times-append x queue (path ∷ []), e)
          (omega (arith, z))
    | inr e ↦
        rw (present-emplace x path m r.sorted, times-append x queue (path ∷ []), e)
          (omega (arith, r.one x))
  ];
  bounded = r.bounded;
}

reserve-Reserved :
    (limit : ℕ) (paths : List Bytes) (p : Pulls) (asked : List Bytes)
    → Reserved limit p.pulling p.queue asked
    → Reserved limit (reserve paths p).pulling (reserve paths p).queue asked
unfolding reserve
reserve-Reserved limit [] p asked r = r
reserve-Reserved limit (path ∷ paths) p asked r =
    elim (Bool-cases (present (find path p.pulling))) [
      | inl e ↦ rw (e, reserve) (reserve-Reserved limit paths p asked r)
      | inr e ↦
          rw (e, reserve)
            (reserve-Reserved limit paths
              (record { pulling = emplace path tt p.pulling; queue = p.queue ++ path ∷ [] }) asked
              (one_more limit path p.pulling p.queue asked e r))
    ]

-- In flight is what was asked for.
in_flight_lem :
    (limit : ℕ) (m : Map Bytes (Unit {0})) (queue asked : List Bytes)
    → Reserved limit m queue asked
    → in_flight (record { pulling = m; queue = queue }) ≡ length asked
in_flight_lem limit m queue asked r = ground (arith, r.count)

requested-Reserved :
    (limit : ℕ) (m : Map Bytes (Unit {0})) (path : Bytes) (rest asked : List Bytes)
    → length asked < limit
    → Reserved limit m (path ∷ rest) asked
    → Reserved limit m rest (asked ++ path ∷ [])
requested-Reserved limit m path rest asked h r = record {
  sorted = r.sorted;
  count = omega (arith, r.count, length-append asked (path ∷ []));
  one = λ x. rw (times-append x asked (path ∷ [])) (omega (arith, r.one x));
  bounded = omega (arith, h, length-append asked (path ∷ []));
}

answered-Reserved :
    (limit : ℕ) (m : Map Bytes (Unit {0})) (path : Bytes) (queue asked : List Bytes)
    → 0 < times path asked
    → Reserved limit m queue asked
    → Reserved limit (erase path m) queue (without path asked)
answered-Reserved limit m path queue asked h r =
    let held : present (find path m) ≡ true = ground (arith, h, r.one path) in
    record {
      sorted = erase-IsSorted path m r.sorted;
      count = omega (arith, length-erase path m held, length-without path asked h, r.count);
      one = λ x. elim (Bool-cases (same x path)) [
        | inl e ↦
            let k : x ≡ path = same→eq x path e in
            let o : times x queue + times x asked ≡ 1 = r.one x ∙ rw (k, held) in
            let w = times-without x path asked h in
            let w' = (rw e at w) in rw (present-erase x path m r.sorted, e) (omega (arith, o, w'))
        | inr e ↦
            let w = times-without x path asked h in
            let w' = (rw e at w) in
            rw (present-erase x path m r.sorted, e) (omega (arith, r.one x, w'))
      ];
      bounded = omega (arith, length-without path asked h, r.bounded);
    }

in_limit :
    (limit : ℕ) (m : Map Bytes (Unit {0})) (queue asked : List Bytes)
    → Reserved limit m queue asked
    → may_request limit (record { pulling = m; queue = queue }) ≡ true
    → length asked < limit
unfolding may_request
in_limit limit m [] asked r h = let n : false ≡ true = h in cc
in_limit limit m (path ∷ rest) asked r h =
    ground (arith, h, in_flight_lem limit m (path ∷ rest) asked r)

-- After the next path was asked for.
abbrev After : ℕ → List Bytes → Option (Bytes × Pulls) → Type 0
After limit asked none = Unit {0}
After limit asked (some (path, p)) = Reserved limit p.pulling p.queue (asked ++ path ∷ [])

next_request-After :
    (limit : ℕ) (m : Map Bytes (Unit {0})) (queue asked : List Bytes)
    → length asked < limit
    → Reserved limit m queue asked
    → After limit asked (next_request (record { pulling = m; queue = queue }))
unfolding next_request
next_request-After limit m [] asked l r = tt
next_request-After limit m (q ∷ rest) asked l r = requested-Reserved limit m q rest asked l r

Reached-Reserved :
    (limit : ℕ) (s : Session)
    → Reached limit s
    → Reserved limit s.pulls.pulling s.pulls.queue s.asked
unfolding release_pull find
Reached-Reserved limit s start = record {
  sorted = tt;
  count = refl;
  one = λ x. refl;
  bounded = omega arith;
}
Reached-Reserved limit t (next {s} r (planned paths)) =
    reserve-Reserved limit paths s.pulls s.asked (Reached-Reserved limit s r)
Reached-Reserved limit t (next {s} r (requested path p may e)) =
    let k = Reached-Reserved limit s r in
    subst (After limit s.asked) e (
      next_request-After limit s.pulls.pulling s.pulls.queue s.asked
        (in_limit limit s.pulls.pulling s.pulls.queue s.asked k may) k)
Reached-Reserved limit t (next {s} r (answered path h)) =
    answered-Reserved limit s.pulls.pulling path s.pulls.queue s.asked h
      (Reached-Reserved limit s r)

-- As long as the peer answers only what it was asked for: the requests without an answer are no more
-- than the window, and the window counts exactly them.
pub in_flight_bounded :
    (limit : ℕ) (s : Session)
    → Reached limit s
    → (length s.asked ≤ limit) × (in_flight s.pulls ≡ length s.asked)
in_flight_bounded limit s r =
    let k = Reached-Reserved limit s r in
    (k.bounded, in_flight_lem limit s.pulls.pulling s.pulls.queue s.asked k)

waits :
    (limit : ℕ) (m : Map Bytes (Unit {0})) (queue asked : List Bytes)
    → Reserved limit m queue asked
    → 0 < limit
    → 0 < length queue
    → may_request limit (record { pulling = m; queue = queue }) ≡ false
    → 0 < length asked
unfolding may_request
waits limit m [] asked r p q e = absurd (omega (arith, q))
waits limit m (path ∷ rest) asked r p q e =
    ground (arith, e, p, in_flight_lem limit m (path ∷ rest) asked r)

-- As long as the peer answers only what it was asked for, and the window is not of size zero: where a
-- path is queued, the requester may ask for one, or a request is still without an answer.
pub queued_goes :
    (limit : ℕ) (s : Session)
    → 0 < limit
    → Reached limit s
    → 0 < length s.pulls.queue
    → (may_request limit s.pulls ≡ true) ⊎ (0 < length s.asked)
queued_goes limit s p r q = elim (Bool-cases (may_request limit s.pulls)) [
  | inl e ↦ inl e
  | inr e ↦
      inr (waits limit s.pulls.pulling s.pulls.queue s.asked (Reached-Reserved limit s r) p q e)
]
