-- ===== src/Timer/Tests.antt =====
-- The timer registry on concrete events, and the theorems at these.
use mathlib.Core.List.{Perm}
use lz_lib.Base.{
  ℕ, ◌+◌, ◌≡◌, refl, false, true, some, List, [], ◌∷◌, ◌++◌, arith, ok, fault, deadlock,
}
use lz_lib.Timer.{
  Timeval, Event, stamp, deadline, find_event, unlink_event, lz_timer_call_after, dispatch, finish,
  lz_timer_proc,
}
use lz_lib.Timer.Deadline.{micros, deadline_early}
use lz_lib.Timer.Order.{Ascending, insert_sorted, new_event, call_after-insert_sorted}
use lz_lib.Timer.Dispatch.{idle, due, later, dispatch-due}
use lz_lib.Timer.Finish.{finish-deadlock}

abbrev at_ms : ℕ → ℕ → Timeval
at_ms s ms = record { sec = s; usec = ms }

abbrev event_at : ℕ → ℕ → Event
event_at id s = record { id = id; at = at_ms s 0; cbk = 1; payload = 2 }

abbrev three : List Event
three = event_at 1 5 ∷ event_at 2 7 ∷ event_at 3 9 ∷ []

three-Ascending : Ascending three
unfolding stamp
three-Ascending = omega arith

abbrev stored : List Event
stored = event_at 4 2 ∷ []

deadline_early_example : micros (deadline (at_ms 0 900000) (at_ms 0 150000)) + 1000000 ≡ 1050000
deadline_early_example =
    deadline_early (at_ms 0 900000) (at_ms 0 150000) (omega arith) (omega arith) (omega arith)
      (omega arith)

-- The event of `deadline_early_example` is due at 0.05 s.
deadline_at_once : deadline (at_ms 0 900000) (at_ms 0 150000) ≡ at_ms 0 50000
unfolding deadline
deadline_at_once = refl

call_after-insert_sorted_example :
    let e = new_event 8 (at_ms 6 0) (at_ms 1 0) 1 2 in
    let out = insert_sorted e three in
    (lz_timer_call_after (some (idle three stored false)) (some 8) (at_ms 6 0) (at_ms 1 0) 1 2
      ≡ ok (some 8, some (idle out stored false)))
    × Ascending out
    × Perm out (e ∷ three)
call_after-insert_sorted_example =
    call_after-insert_sorted (idle three stored false) 8 1 2 (at_ms 6 0) (at_ms 1 0) refl
      three-Ascending

dispatch-due_example :
    dispatch (λ e r. r) 4 8000000 (idle three stored false)
    ≡ ok (due 8000000 three, idle (later 8000000 three) (stored ++ due 8000000 three) false)
dispatch-due_example =
    dispatch-due (λ e r. r) (λ e r. refl) 8000000 false 4 three stored (omega arith) three-Ascending
      (omega arith) (omega arith)

fired : due 8000000 three ≡ event_at 1 5 ∷ event_at 2 7 ∷ []
unfolding stamp
fired = refl

finish-deadlock_example : finish 5 (idle three [] true) ≡ fault deadlock
finish-deadlock_example = finish-deadlock 4 three []

-- Two readings of the clock, with the end of the registry asked for after the first.
proc_runs :
    lz_timer_proc
      (λ e r. r)
      (λ r. record r { fin = true; active = []; stale = [] })
      4
      (at_ms 8 0 ∷ at_ms 9 0 ∷ [])
      (some (idle three [] false))
    ≡ ok (some (idle [] [] true))
unfolding lz_timer_proc stamp find_event unlink_event
proc_runs = refl
