-- ===== src/Redial/Schedule.antt =====
-- app/dial_retry.h: the dials of a whole run of the watch loop.
use rasync.Prelude.{ℕ, ◌+◌, ◌≤◌, ◌≡◌, refl, arith}
use rasync.Prelude.{Bool, true, false, List, [], ◌∷◌, Bool-cases, inl, inr}
use rasync.Redial.{DialRetry, dial_retry, due, grown}

-- The ticks of the watch loop: the time, and the number of peers connected.
abbrev pub Ticks : Type 0
Ticks = List (ℕ × ℕ)

-- The ticks at which the loop dials, and the state it ends in.
abbrev pub with_dial : Bool → ℕ × ℕ → Ticks × DialRetry → Ticks × DialRetry
with_dial true tick (dials, d) = (tick ∷ dials, d)
with_dial false tick r = r

unfoldable pub watch : Ticks → DialRetry → Ticks × DialRetry
watch [] d = ([], d)
watch ((now, connected) ∷ ticks) d =
    let (dial, d') = due d now connected in with_dial dial (now, connected) (watch ticks d')

-- Between the first delay and the cap.
pub record InBounds (d : DialRetry) : Type 0 where
  pub low : d.first ≤ d.delay
  pub high : d.delay ≤ d.cap

due-InBounds : (d : DialRetry) (now connected : ℕ) → InBounds d → InBounds (due d now connected).1
unfolding due grown
due-InBounds d now connected b = record { low = ground arith; high = ground arith }

with_dial_state :
    (dial : Bool) (tick : ℕ × ℕ) (r : Ticks × DialRetry) → (with_dial dial tick r).1 ≡ r.1
with_dial_state true tick r = refl
with_dial_state false tick r = refl

watch-InBounds_from : (ticks : Ticks) (d : DialRetry) → InBounds d → InBounds (watch ticks d).1
unfolding watch
watch-InBounds_from [] d b = b
watch-InBounds_from ((now, connected) ∷ ticks) d b =
    let r = due d now connected in
    rw (with_dial_state r.0 (now, connected) (watch ticks r.1))
      (watch-InBounds_from ticks r.1 (due-InBounds d now connected b))

-- Where the first delay is at most the cap, the delay stays between the two through every run of the
-- watch loop.
pub watch-InBounds :
    (ticks : Ticks) (first cap : ℕ) → first ≤ cap → InBounds (watch ticks (dial_retry first cap)).1
unfolding dial_retry
watch-InBounds ticks first cap h =
    watch-InBounds_from ticks (dial_retry first cap) (record { low = omega arith; high = h })

-- Time does not run backwards.
abbrev pub Forward : ℕ → Ticks → Type 0
Forward from [] = Unit {0}
Forward from ((now, connected) ∷ ticks) = (from ≤ now) × Forward now ticks

-- Each dial is at a tick with nobody connected, at least `gap` after the one before it.
abbrev pub Paced : ℕ → ℕ → Ticks → Type 0
Paced gap from [] = Unit {0}
Paced gap from ((t, connected) ∷ ts) = (from + gap ≤ t) × (connected ≡ 0) × Paced gap t ts

-- No dial is due before `from + gap`.
record Waits (gap from : ℕ) (d : DialRetry) : Type 0 where
  first_is : d.first ≡ gap
  bounds : InBounds d
  later : d.armed ≡ true → from + gap ≤ d.next

due_quiet :
    (d : DialRetry) (gap from now connected : ℕ)
    → from ≤ now
    → Waits gap from d
    → (due d now connected).0 ≡ false
    → Waits gap from (due d now connected).1
unfolding due
due_quiet d gap from now connected h w q = record {
  first_is = ground (arith, w.first_is);
  bounds = due-InBounds d now connected w.bounds;
  later = λ a. ground (arith, w.first_is, w.later, w.bounds.low);
}

due_dials :
    (d : DialRetry) (gap from now connected : ℕ)
    → Waits gap from d
    → (due d now connected).0 ≡ true
    → (from + gap ≤ now) × (connected ≡ 0) × Waits gap now (due d now connected).1
unfolding due grown
due_dials d gap from now connected w q = (
  ground (arith, w.later),
  ground arith,
  record {
    first_is = ground (arith, w.first_is);
    bounds = due-InBounds d now connected w.bounds;
    later = λ a. ground (arith, w.first_is, w.bounds.low, w.bounds.high);
  },
)

watch-Paced_from :
    (ticks : Ticks) (gap from now : ℕ) (d : DialRetry)
    → from ≤ now
    → Forward now ticks
    → Waits gap from d
    → Paced gap from (watch ticks d).0
unfolding watch
watch-Paced_from [] gap from now d h f w = tt
watch-Paced_from ((t, connected) ∷ ticks) gap from now d h (g, f) w =
    elim (Bool-cases (due d t connected).0) [
      | inl e ↦
          let r = due_dials d gap from t connected w e in
          rw (e, watch)
            (r.0, r.1, watch-Paced_from ticks gap t t (due d t connected).1 (omega arith) f r.2)
      | inr e ↦
          rw (e, watch)
            (watch-Paced_from ticks gap from t (due d t connected).1 (omega arith) f
              (due_quiet d gap from t connected (omega arith) w e))
    ]

-- Where time does not run backwards and the first delay is at most the cap: every dial of the watch
-- loop is at a tick with nobody connected, and comes at least the first delay after the loop's start
-- and after the dial before it.
pub watch-Paced :
    (ticks : Ticks) (first cap now : ℕ)
    → first ≤ cap
    → Forward now ticks
    → Paced first now (watch ticks (dial_retry first cap)).0
unfolding dial_retry
watch-Paced ticks first cap now h f =
    watch-Paced_from ticks first now now (dial_retry first cap) (omega arith) f
      (record { first_is = refl; bounds = record { low = omega arith; high = h }; later = λ a. cc })
