-- ===== src/Timer/Deadline.antt =====
-- The deadline that `lz_timer_call_after` computes, against the sum of the two times.
use lz_lib.Base.{ℕ, ◌+◌, ◌*◌, ◌/◌, ◌%◌, ◌<◌, ◌≤◌, ◌≡◌, arith}
use lz_lib.Timer.{Timeval, deadline}

-- Microseconds, as a number with no bound.
abbrev pub micros : Timeval → ℕ
micros tv = tv.sec * 1000000 + tv.usec

-- A `struct timeval` in normal form.
abbrev pub IsNormal : Timeval → Type 0
IsNormal tv = tv.usec < 1000000

-- The deadline differs from the sum of the two times by the difference of two carries, in seconds:
-- the code adds the carry of the reduced microseconds plus `delta`, where the carry of the
-- microseconds of the two times is due.
deadline-carry :
    (now delta : Timeval)
    → micros (deadline now delta) + 1000000 * ((now.usec + delta.usec) / 1000000)
      ≡ micros now
        + micros delta
        + 1000000 * (((now.usec + delta.usec) % 1000000 + delta.usec) / 1000000)
unfolding deadline
deadline-carry now delta = omega arith

-- If the microseconds of two normal times carry, and the rest plus those of `delta` does not, the
-- event is due one second too early.
pub deadline_early :
    (now delta : Timeval)
    → IsNormal now
    → IsNormal delta
    → 1000000 ≤ now.usec + delta.usec
    → now.usec + 2 * delta.usec < 2000000
    → micros (deadline now delta) + 1000000 ≡ micros now + micros delta
unfolding deadline
deadline_early now delta n d carry rest = omega arith

-- The deadline is in normal form, and is never off by more than a second either way.
deadline_bounds :
    (now delta : Timeval)
    → IsNormal now
    → IsNormal delta
    → IsNormal (deadline now delta)
      × (micros now + micros delta ≤ micros (deadline now delta) + 1000000)
      × (micros (deadline now delta) ≤ micros now + micros delta + 1000000)
unfolding deadline
deadline_bounds now delta n d = (omega arith, omega arith, omega arith)
