-- ===== src/Timer/Finish.antt =====
-- The end of the timer thread, and cancellation.
use lz_lib.Base.{
  if◌then◌else◌, ℕ, suc, ◌≡◌, refl, inl, inr, Bool, true, none, some, List, [], ◌∷◌, arith, ◌==◌,
  Bool-cases, ok, fault, deadlock,
}
use lz_lib.Timer.{Event, find_event, unlink_event, locate, lz_timer_call_cancel, finish}
use lz_lib.Timer.Dispatch.{idle, Absent, Distinct}

-- The end of the thread holds the mutex while it calls `lz_timer_call_cancel`, which locks it again.
-- So it comes to an end when both lists are empty, and is stuck for good when either is not.
pub finish-deadlock :
    (fuel : ℕ) (active stale : List Event)
    → finish (suc fuel) (idle active stale true) ≡ (elim active [
      | [] ↦ elim stale [ [] ↦ ok (idle [] [] true) | f ∷ fs ↦ fault deadlock ]
      | e ∷ es ↦ fault deadlock
    ])
unfolding finish
finish-deadlock fuel [] [] = refl
finish-deadlock fuel [] (f ∷ fs) = refl
finish-deadlock fuel (e ∷ es) stale = refl

pub find_event-Absent : (id : ℕ) (xs : List Event) → Absent id xs → find_event id xs ≡ none
unfolding find_event
find_event-Absent id [] h = refl
find_event-Absent id (x ∷ xs) h = ground (arith, h.0, find_event-Absent id xs h.1)

find_event-unlink_event :
    (id j : ℕ) (xs : List Event)
    → Distinct xs
    → find_event j (unlink_event id xs) ≡ (if j == id then none else find_event j xs)
unfolding find_event unlink_event
find_event-unlink_event id j [] h = ground arith
find_event-unlink_event id j (x ∷ xs) h = elim (Bool-cases (x.id == id)) [
  | inl t ↦
      let e : x.id ≡ id = ground arith in ground (arith, find_event-Absent id xs (rw e at h.0))
  | inr f ↦ ground (arith, find_event-unlink_event id j xs h.1)
]

-- On a registry with its mutex free and all addresses different on each list, cancelling an event
-- that stands on either list succeeds and takes it from that list. Then the event is on neither
-- list, and every other event is found as before.
call_cancel-locate :
    (active stale : List Event) (fin : Bool) (id : ℕ) (e : Event)
    → Distinct active
    → Distinct stale
    → locate (idle active stale fin) id ≡ some e
    → let out = idle (unlink_event id active) (unlink_event id stale) fin in
      (lz_timer_call_cancel (some (idle active stale fin)) (some id) ≡ ok (some out))
      × ((j : ℕ) → locate out j ≡ (if j == id then none else locate (idle active stale fin) j))
unfolding lz_timer_call_cancel
call_cancel-locate active stale fin id e da ds h = (
  ground arith,
  λ j.
      ground (arith, find_event-unlink_event id j active da, find_event-unlink_event id j stale ds),
)
