-- ===== src/Timer.antt =====
-- The timer registry of src/timer.c and src/timer.h: an active list kept in order of deadline, a
-- stale list of the events that have fired, and the thread that moves events from one to the other.
--
-- A circular list with a sentinel is a `List`, the sentinel's `next` first. An event is known by the
-- address `id` that `calloc` gave it; what `gettimeofday` and `calloc` return are arguments.
pub mod Deadline
pub mod Order
pub mod Dispatch
pub mod Finish
mod Tests
use lz_lib.Base.{
  ℕ, zero, suc, ◌+◌, ◌*◌, ◌/◌, ◌%◌, Bool, true, false, ◌||◌, Option, none, some, List, [], ◌∷◌,
  ◌++◌, ltb, leb, ◌==◌, if◌then◌else◌, u64, Run, ok, fault, bad_access, deadlock, aborted,
  out_of_fuel, ◌>>=◌,
}
use mathlib.Core.List.{reverse}

-- `struct timeval`, after 1970.
pub record Timeval : Type 0 where
  pub sec : ℕ
  pub usec : ℕ

-- `struct _lz_timer`; `cbk` and `payload` name the callback and its argument.
pub record Event : Type 0 where
  pub id : ℕ
  pub at : Timeval
  pub cbk : ℕ
  pub payload : ℕ

-- `struct _lz_timer_registry`. `locked` is the state of the mutex.
pub record Registry : Type 0 where
  pub active : List Event
  pub stale : List Event
  pub fin : Bool
  pub locked : Bool

-- `TS (tv)`
pub stamp : Timeval → ℕ
stamp tv = u64 (tv.sec * 1000000 + tv.usec)

-- `pthread_mutex_lock` of a default mutex by the thread that may hold it already.
pub lock : Registry → Run Registry
lock reg = if reg.locked then fault deadlock else ok (record reg { locked = true })

pub unlock : Registry → Registry
unlock reg = record reg { locked = false }

-- The three assignments to `event->at`, in their order: the second reads the new `tv_usec`.
pub deadline : Timeval → Timeval → Timeval
deadline now delta =
    let usec = (now.usec + delta.usec) % 1000000 in
    record { sec = now.sec + (usec + delta.usec) / 1000000 + delta.sec; usec = usec }

-- The walk from `active.prev` towards the front, and the insertion behind the event where it stops.
-- The list is the active list from back to front.
pub insert_back : Event → List Event → List Event
insert_back e [] = e ∷ []
insert_back e (t ∷ ts) = if ltb (stamp t.at) (stamp e.at) then e ∷ t ∷ ts else t ∷ insert_back e ts

-- `lz_timer_call_after`; `event` is the address from `calloc`, none when it failed.
pub lz_timer_call_after :
    Option Registry → Option ℕ → Timeval → Timeval → ℕ → ℕ → Run (Option ℕ × Option Registry)
unfolding insert_back lock unlock
lz_timer_call_after none event now delta cbk payload = ok (none, none)
lz_timer_call_after (some reg) none now delta cbk payload = ok (none, some reg)
lz_timer_call_after (some reg) (some id) now delta cbk payload = do
  held ← lock reg
  let e : Event = record { id = id; at = deadline now delta; cbk = cbk; payload = payload }
  ok (
    some id,
    some (unlock (record held { active = reverse (insert_back e (reverse held.active)) })),
  )

pub find_event : ℕ → List Event → Option Event
find_event id [] = none
find_event id (e ∷ es) = if e.id == id then some e else find_event id es

-- `event->next->prev = event->prev; event->prev->next = event->next`
pub unlink_event : ℕ → List Event → List Event
unlink_event id [] = []
unlink_event id (e ∷ es) = if e.id == id then es else e ∷ unlink_event id es

-- The event behind a pointer, on whichever list it stands. On neither it has been freed.
pub locate : Registry → ℕ → Option Event
locate reg id = elim (find_event id reg.active) [ some e ↦ some e | none ↦ find_event id reg.stale ]

pub unlink : Registry → ℕ → Registry
unlink reg id = record reg {
  active = unlink_event id reg.active;
  stale = unlink_event id reg.stale;
}

-- `lz_timer_call_stale`: out of its list, to the tail of the stale list.
pub lz_timer_call_stale : Option Registry → Option ℕ → Run (Option Registry)
unfolding locate unlink
lz_timer_call_stale none event = ok none
lz_timer_call_stale (some reg) none = ok (some reg)
lz_timer_call_stale (some reg) (some id) = elim (locate reg id) [
  | none ↦ fault bad_access
  | some e ↦ let r = unlink reg id in ok (some (record r { stale = r.stale ++ e ∷ [] }))
]

-- `lz_timer_call_cancel`: out of its list, and freed.
pub lz_timer_call_cancel : Option Registry → Option ℕ → Run (Option Registry)
unfolding locate unlink lock unlock
lz_timer_call_cancel none event = ok none
lz_timer_call_cancel (some reg) none = ok (some reg)
lz_timer_call_cancel (some reg) (some id) = do
  held ← lock reg
  elim (locate held id) [ none ↦ fault bad_access | some e ↦ ok (some (unlock (unlink held id))) ]

-- One round of the inner loop of `lz_timer_proc` up to `need_cbk`: the event to call back, if any.
-- (The stamp that the code reads from the sentinel is not used.)
pub first_due : ℕ → Registry → List Event → Run (Option Event × Option Registry)
unfolding lz_timer_call_stale
first_due now reg [] = ok (none, some reg)
first_due now reg (e ∷ es) =
    if leb (stamp e.at) now
    then (lz_timer_call_stale (some reg) (some e.id) >>= λ r. ok (some e, r))
    else ok (none, some reg)

pub poll_round : ℕ → Registry → Run (Option Event × Registry)
unfolding first_due lock unlock
poll_round now reg = do
  held ← lock reg
  (due, reg') ← first_due now held held.active
  elim reg' [ none ↦ fault bad_access | some r ↦ ok (due, unlock r) ]

-- `while (1)` of `lz_timer_proc`. What a callback, and other threads meanwhile, do to the registry
-- is the parameter `call`. The events called back are listed in their order.
pub dispatch : (Event → Registry → Registry) → ℕ → ℕ → Registry → Run (List Event × Registry)
unfolding poll_round
dispatch call zero now reg = fault out_of_fuel
dispatch call (suc fuel) now reg = poll_round now reg >>= λ r. elim r.0 [
  | none ↦ ok ([], r.1)
  | some e ↦ dispatch call fuel now (call e r.1) >>= λ s. ok (e ∷ s.0, s.1)
]

-- The two loops behind `while (!reg->fin)`: `lz_timer_call_cancel` on the first event of the list.
pub cancel_active : ℕ → Registry → Run Registry
cancel_active zero reg = fault out_of_fuel
cancel_active (suc fuel) reg = elim reg.active [
  | [] ↦ ok reg
  | e ∷ es ↦ lz_timer_call_cancel (some reg) (some e.id) >>= λ r. elim r [
    | none ↦ fault bad_access
    | some reg' ↦ cancel_active fuel reg'
  ]
]

pub cancel_stale : ℕ → Registry → Run Registry
cancel_stale zero reg = fault out_of_fuel
cancel_stale (suc fuel) reg = elim reg.stale [
  | [] ↦ ok reg
  | e ∷ es ↦ lz_timer_call_cancel (some reg) (some e.id) >>= λ r. elim r [
    | none ↦ fault bad_access
    | some reg' ↦ cancel_stale fuel reg'
  ]
]

-- The end of `lz_timer_proc`, from `pthread_mutex_lock` to `pthread_mutex_unlock`.
pub finish : ℕ → Registry → Run Registry
unfolding cancel_active cancel_stale lock unlock lz_timer_call_cancel
finish fuel reg = do
  held ← lock reg
  r ← cancel_active fuel held
  s ← cancel_stale fuel r
  ok (unlock s)

-- `while (!reg->fin)`: a round for each reading of the clock, and then the end. `pause` is what other
-- threads do while the thread sleeps.
pub lz_timer_proc :
    (Event → Registry → Registry)
    → (Registry → Registry)
    → ℕ
    → List Timeval
    → Option Registry
    → Run (Option Registry)
unfolding dispatch finish
lz_timer_proc call pause fuel clock none = ok none
lz_timer_proc call pause fuel [] (some reg) =
    if reg.fin then (finish fuel reg >>= λ r. ok (some r)) else fault out_of_fuel
lz_timer_proc call pause fuel (now ∷ clock) (some reg) = elim reg.fin [
  | true ↦ finish fuel reg >>= λ r. ok (some r)
  | false ↦ dispatch call fuel (stamp now) reg >>= λ r.
      lz_timer_proc call pause fuel clock (some (pause r.1))
]

-- `lz_timer_registry_init`: `timer` is the pointer passed, and what it points to. The thread that is
-- started runs `lz_timer_proc`. `ERR_ABORT` ends the program when `calloc` failed.
pub lz_timer_registry_init : Option (Option Registry) → Bool → Run (Option Registry)
lz_timer_registry_init none alloc = ok none
lz_timer_registry_init (some (some reg)) alloc = ok (some reg)
lz_timer_registry_init (some none) alloc =
    if alloc
    then ok (some (record { active = []; stale = []; fin = false; locked = false }))
    else fault aborted
