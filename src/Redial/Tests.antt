-- ===== src/Redial/Tests.antt =====
-- app/dial_retry.h at some ticks.
use rasync.Prelude.{◌≡◌, refl, arith, [], ◌∷◌}
use rasync.Redial.{dial_retry, due}
use rasync.Redial.Schedule.{Ticks, watch, watch-Paced, Paced}

-- Nobody for 40 seconds, a peer at 41, then nobody again.
abbrev some_ticks : Ticks
some_ticks =
    (0, 0)
    ∷ (8000, 0)
    ∷ (23999, 0)
    ∷ (24000, 0)
    ∷ (41000, 1)
    ∷ (42000, 0)
    ∷ (49000, 0)
    ∷ (50000, 0)
    ∷ []

watch_run : (watch some_ticks (dial_retry 8000 120000)).0 ≡ (8000, 0) ∷ (24000, 0) ∷ (50000, 0) ∷ []
unfolding watch dial_retry due
watch_run = refl

watch-Paced_example : Paced 8000 0 (watch some_ticks (dial_retry 8000 120000)).0
watch-Paced_example = watch-Paced some_ticks 8000 120000 0 (omega arith) (
  omega arith,
  (
    omega arith,
    (omega arith, (omega arith, (omega arith, (omega arith, (omega arith, (omega arith, tt)))))),
  ),
)
