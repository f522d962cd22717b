-- ===== src/Service/Sessions.antt =====
-- net/sync_service.cpp: which peers can have a session, and when.
use rasync.Prelude.{◌≡◌, refl, Bool, true, false, sym, ◌∙◌, ap, List, [], ◌∷◌, subst}
use rasync.Prelude.{Bool-cases, inl, inr, ◌⊎◌}
use rasync.Prelude.Order.{bytes_order}
use rasync.Codec.Writer.{Bytes}
use rasync.SortedMap.{Map, same, find, emplace, erase, IsSorted}
use rasync.SortedMap.Laws.{same→eq, find-emplace, find-erase, emplace-IsSorted, erase-IsSorted}
use rasync.Service.{
  Service, peer_allowed, session_for, peer_disconnected, handle_message, shutdown, has_session,
  present,
}

-- What the router tells a folder.
pub data Event : Type 0 where
  message : Bytes → Event
  disconnected : Bytes → Event
  stop : Event

-- The peers that handle something in the event, and the service after it.
unfoldable pub step : Event → Service → Bool × Service
unfolding handle_message peer_disconnected shutdown
step (message from) s = handle_message from s
step (disconnected id) s = (false, (peer_disconnected id s).1)
step stop s = (false, (shutdown s).1)

abbrev pub run : List Event → Service → Service
run [] s = s
run (e ∷ es) s = run es (step e s).1

-- Only allowed peers have a session, and none once the service is stopped.
pub record Guarded (s : Service) : Type 0 where
  pub sorted : IsSorted s.sessions
  pub all_allowed : (id : Bytes) → has_session id s ≡ true → peer_allowed id s ≡ true
  pub all_open : (id : Bytes) → has_session id s ≡ true → s.stopped ≡ false

-- A session found after one was started is an old one, or that one.
started :
    (j id : Bytes) (m : Map Bytes (Unit {0}))
    → IsSorted m
    → present (find j (emplace id tt m)) ≡ true
    → (j ≡ id) ⊎ (present (find j m) ≡ true)
started j id m h e =
    let f = sym (ap present (find-emplace j id tt m h)) ∙ e in
    elim (Bool-cases (same j id)) [ inl t ↦ inl (same→eq j id t) | inr t ↦ inr (rw t at f) ]

erased :
    (j id : Bytes) (m : Map Bytes (Unit {0}))
    → IsSorted m
    → present (find j (erase id m)) ≡ true
    → present (find j m) ≡ true
erased j id m h e =
    let f = sym (ap present (find-erase j id m h)) ∙ e in
    elim (Bool-cases (same j id)) [
      | inl t ↦ let n : false ≡ true = (rw t at f) in cc
      | inr t ↦ (rw t at f)
    ]

none_found : (id : Bytes) → present (find {V = Unit {0}} id []) ≡ false
unfolding find
none_found id = refl

-- The parts of a service.
abbrev pub service : List Bytes → Map Bytes (Unit {0}) → Bool → Service
service al m st = record { allowed = al; sessions = m; stopped = st }

with_session :
    (id : Bytes) (al : List Bytes) (m : Map Bytes (Unit {0}))
    → peer_allowed id (service al m false) ≡ true
    → Guarded (service al m false)
    → Guarded (service al (emplace id tt m) false)
unfolding peer_allowed
with_session id al m a g = record {
  sorted = emplace-IsSorted id tt m g.sorted;
  all_allowed = λ j h. elim (started j id m g.sorted h) [
    | inl e ↦ subst (λ k. peer_allowed k (service al m false) ≡ true) (sym e) a
    | inr k ↦ g.all_allowed j k
  ];
  all_open = λ j h. refl;
}

session_for-Guarded :
    (id : Bytes) (al : List Bytes) (m : Map Bytes (Unit {0})) (st : Bool)
    → peer_allowed id (service al m st) ≡ true
    → Guarded (service al m st)
    → Guarded (session_for id (service al m st)).1
unfolding session_for
session_for-Guarded id al m true a g = g
session_for-Guarded id al m false a g = elim (Bool-cases (present (find id m))) [
  | inl f ↦ rw (f, session_for) g
  | inr f ↦ rw (f, session_for) (with_session id al m a g)
]

no_sessions-Guarded : (al : List Bytes) (st : Bool) → Guarded (service al [] st)
no_sessions-Guarded al st = record {
  sorted = tt;
  all_allowed = λ j h. let n = sym (none_found j) ∙ h in cc;
  all_open = λ j h. let n = sym (none_found j) ∙ h in cc;
}

without_session :
    (id : Bytes) (al : List Bytes) (m : Map Bytes (Unit {0})) (st : Bool)
    → Guarded (service al m st)
    → Guarded (service al (erase id m) st)
unfolding peer_allowed
without_session id al m st g = record {
  sorted = erase-IsSorted id m g.sorted;
  all_allowed = λ j h. g.all_allowed j (erased j id m g.sorted h);
  all_open = λ j h. g.all_open j (erased j id m g.sorted h);
}

shutdown-Guarded :
    (al : List Bytes) (m : Map Bytes (Unit {0})) (st : Bool)
    → Guarded (service al m st)
    → Guarded (shutdown (service al m st)).1
unfolding shutdown
shutdown-Guarded al m true g = g
shutdown-Guarded al m false g = no_sessions-Guarded al true

step-Guarded : (e : Event) (s : Service) → Guarded s → Guarded (step e s).1
unfolding step handle_message peer_disconnected
step-Guarded (message from) s g = elim (Bool-cases (peer_allowed from s)) [
  | inl e ↦
      rw (e, step, handle_message) (session_for-Guarded from s.allowed s.sessions s.stopped e g)
  | inr e ↦ rw (e, step, handle_message) g
]
step-Guarded (disconnected id) s g = elim (Bool-cases (present (find id s.sessions))) [
  | inl e ↦ rw (e, step, peer_disconnected) (without_session id s.allowed s.sessions s.stopped g)
  | inr e ↦ rw (e, step, peer_disconnected) g
]
step-Guarded stop s g = shutdown-Guarded s.allowed s.sessions s.stopped g

run-Guarded : (es : List Event) (s : Service) → Guarded s → Guarded (run es s)
run-Guarded [] s g = g
run-Guarded (e ∷ es) s g = run-Guarded es (step e s).1 (step-Guarded e s g)

-- Whatever messages, disconnections and shutdowns a fresh service sees: each peer that has a session
-- is allowed, and the service is not stopped.
pub run_guarded :
    (allowed : List Bytes) (es : List Event) (id : Bytes)
    → has_session id (run es (service allowed [] false)) ≡ true
    → (peer_allowed id (run es (service allowed [] false)) ≡ true)
      × ((run es (service allowed [] false)).stopped ≡ false)
run_guarded allowed es id h =
    let g = run-Guarded es (service allowed [] false) (no_sessions-Guarded allowed false) in
    (g.all_allowed id h, g.all_open id h)
