-- ===== src/Session/Pull.antt =====
-- net/sync_session.cpp: the pull window, from the plan of a round to the requests.
pub mod Count
pub mod Window
use rasync.Prelude.{
  ℕ, zero, suc, ◌+◌, ◌-◌, ◌≤◌, ◌<◌, ◌≡◌, refl, sym, subst, ◌∙◌, ap, arith, Bool, true, false,
  Bool-cases, inl, inr, ◌⊎◌, not, ◌&&◌, ◌||◌,
}
use rasync.Prelude.{
  List, [], ◌∷◌, ◌++◌, Option, none, some, length, length-append, ltb, if◌then◌else◌,
}
use rasync.Prelude.Order.{bytes_order}
use rasync.Codec.Writer.{Bytes}
use rasync.SortedMap.{Map, same, find, emplace, erase, IsSorted}
use rasync.SortedMap.Laws.{
  find-emplace, find-erase, emplace-IsSorted, erase-IsSorted, same_refl, same→eq,
}
use rasync.Service.{present}

-- `pulling_` and `pull_queue_`
pub record Pulls : Type 0 where
  pub pulling : Map Bytes (Unit {0})
  pub queue : List Bytes

-- The loop over `plan.pull`.
unfoldable pub reserve : List Bytes → Pulls → Pulls
reserve [] p = p
reserve (path ∷ paths) p =
    let new : Pulls = record {
      pulling = emplace path tt p.pulling;
      queue = p.queue ++ path ∷ [];
    } in
    let old = reserve paths p in
    let taken = reserve paths new in if present (find path p.pulling) then old else taken

abbrev pub in_flight : Pulls → ℕ
in_flight p =
    if ltb (length p.queue) (length p.pulling) then length p.pulling - length p.queue else 0

-- `may_request_locked`, with `max_pending_pulls`.
unfoldable pub may_request : ℕ → Pulls → Bool
may_request limit p = elim p.queue [ [] ↦ false | path ∷ rest ↦ ltb (in_flight p) limit ]

-- The critical section of `requester_loop`: the path to ask for.
unfoldable pub next_request : Pulls → Option (Bytes × Pulls)
next_request p = elim p.queue [ [] ↦ none | path ∷ rest ↦ some (path, record p { queue = rest }) ]

unfoldable pub release_pull : Bytes → Pulls → Pulls
release_pull path p = record p { pulling = erase path p.pulling }

-- How often a path is there.
abbrev pub times : Bytes → List Bytes → ℕ
times path [] = 0
times path (p ∷ ps) = (if same path p then 1 else 0) + times path ps

-- Less one of them.
abbrev pub without : Bytes → List Bytes → List Bytes
without path [] = []
without path (p ∷ ps) = let rest = without path ps in if same path p then ps else p ∷ rest

-- The pulls, and the requests that are not answered.
pub record Session : Type 0 where
  pub pulls : Pulls
  pub asked : List Bytes

abbrev pub idle : Session
idle = record { pulls = record { pulling = []; queue = [] }; asked = [] }

-- A round plans pulls, the requester asks for the next path, and the peer answers a request, which
-- ends in `release_pull`, one way or another.
pub data Step (limit : ℕ) : Session → Session → Type 0 where
  planned :
      {s : Session} (paths : List Bytes) → Step limit s (record s { pulls = reserve paths s.pulls })
  requested :
      {s : Session} (path : Bytes) (p : Pulls)
      → may_request limit s.pulls ≡ true
      → next_request s.pulls ≡ some (path, p)
      → Step limit s (record { pulls = p; asked = s.asked ++ path ∷ [] })
  answered :
      {s : Session} (path : Bytes)
      → 0 < times path s.asked
      → Step limit s (record { pulls = release_pull path s.pulls; asked = without path s.asked })

pub data Reached (limit : ℕ) : Session → Type 0 where
  start : Reached limit idle
  next : {s t : Session} → Reached limit s → Step limit s t → Reached limit t
