-- ===== src/Redial.antt =====
-- app/dial_retry.h: when to dial the configured peers again.
pub mod Schedule
mod Tests
use rasync.Prelude.{ℕ, ◌+◌, ◌*◌, Bool, true, false, not, ltb, if◌then◌else◌}

-- Times and delays are in milliseconds.
pub record DialRetry : Type 0 where
  pub first : ℕ
  pub cap : ℕ
  pub delay : ℕ
  pub next : ℕ
  pub armed : Bool

unfoldable pub dial_retry : ℕ → ℕ → DialRetry
dial_retry first cap = record { first = first; cap = cap; delay = first; next = 0; armed = false }

-- `delay_ * 2 > cap_ ? cap_ : delay_ * 2`
unfoldable pub grown : DialRetry → ℕ
grown d = if ltb d.cap (d.delay * 2) then d.cap else d.delay * 2

-- One tick of the watch loop: does it dial?
unfoldable pub due : DialRetry → ℕ → ℕ → Bool × DialRetry
unfolding grown
due d now connected =
    if ltb 0 connected
    then (false, record d { armed = false; delay = d.first })
    else if not d.armed
    then (false, record d { armed = true; next = now + d.delay })
    else if ltb now d.next
    then (false, d)
    else (true, record d { delay = grown d; next = now + grown d })
