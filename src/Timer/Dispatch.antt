-- ===== src/Timer/Dispatch.antt =====
-- What one waking of the timer thread fires.
use mathlib.Core.List.{append_assoc, append-nil}
use lz_lib.Base.{
  ℕ, zero, suc, ◌≤◌, ◌<◌, ◌≡◌, ◌≢◌, refl, sym, inl, inr, Bool, true, false, none, some, List, [],
  ◌∷◌, ◌++◌, arith, All, All-append, length, leb, if◌then◌else◌, Bool-cases, ok,
}
use lz_lib.Timer.{
  Event, Registry, stamp, find_event, unlink_event, lz_timer_call_stale, poll_round, dispatch,
}
use lz_lib.Timer.Order.{Ascending}

-- The events that are due, in the order of the list, and the others.
abbrev pub due : ℕ → List Event → List Event
due now [] = []
due now (e ∷ es) = let rest = due now es in if leb (stamp e.at) now then e ∷ rest else rest

abbrev pub later : ℕ → List Event → List Event
later now [] = []
later now (e ∷ es) = let rest = later now es in if leb (stamp e.at) now then rest else e ∷ rest

-- No event of the list has this address.
abbrev pub Absent : ℕ → List Event → Type 0
Absent id = All λ f. f.id ≢ id

-- Events at different addresses, within a list and between two lists.
abbrev pub Distinct : List Event → Type 0
Distinct [] = Unit {0}
Distinct (e ∷ es) = Absent e.id es × Distinct es

abbrev pub Apart : List Event → List Event → Type 0
Apart xs ys = All (λ e. Absent e.id ys) xs

-- A registry with its mutex free.
abbrev pub idle : List Event → List Event → Bool → Registry
idle active stale fin = record { active = active; stale = stale; fin = fin; locked = false }

pub unlink_event-Absent : (id : ℕ) (xs : List Event) → Absent id xs → unlink_event id xs ≡ xs
unfolding unlink_event
unlink_event-Absent id [] h = refl
unlink_event-Absent id (x ∷ xs) h = ground (arith, h.0, unlink_event-Absent id xs h.1)

pub call_stale-first :
    (e : Event) (es stale : List Event) (fin locked : Bool)
    → Absent e.id stale
    → lz_timer_call_stale
        (some (record { active = e ∷ es; stale = stale; fin = fin; locked = locked }))
        (some e.id)
      ≡ ok (some (record { active = es; stale = stale ++ e ∷ []; fin = fin; locked = locked }))
unfolding lz_timer_call_stale find_event unlink_event
call_stale-first e es stale fin locked h = ground (arith, unlink_event-Absent e.id stale h)

poll_round-due :
    (now : ℕ) (e : Event) (es stale : List Event) (fin : Bool)
    → Absent e.id stale
    → leb (stamp e.at) now ≡ true
    → poll_round now (idle (e ∷ es) stale fin) ≡ ok (some e, idle es (stale ++ e ∷ []) fin)
unfolding poll_round
poll_round-due now e es stale fin h t = rw (t, call_stale-first e es stale fin true h) refl

poll_round-later :
    (now : ℕ) (e : Event) (es stale : List Event) (fin : Bool)
    → leb (stamp e.at) now ≡ false
    → poll_round now (idle (e ∷ es) stale fin) ≡ ok (none, idle (e ∷ es) stale fin)
unfolding poll_round
poll_round-later now e es stale fin t = rw t

none_due :
    (now b : ℕ) (es : List Event)
    → now < b
    → All (λ f. b ≤ stamp f.at) es
    → (due now es ≡ []) × (later now es ≡ es)
none_due now b [] h k = (refl, refl)
none_due now b (e ∷ es) h k = ground (arith, none_due now b es h k.1)

Apart-move :
    (e : Event) (es stale : List Event)
    → Absent e.id es
    → Apart es stale
    → Apart es (stale ++ e ∷ [])
Apart-move e [] stale h k = tt
Apart-move e (f ∷ es) stale h k = (
  All-append (λ g. g.id ≢ f.id) stale (e ∷ []) k.0 ((λ q. h.0 (sym q)), tt),
  Apart-move e es stale h.1 k.1,
)

module _ (call : Event → Registry → Registry) (quiet : (e : Event) (r : Registry) → call e r ≡ r)
    (now : ℕ) (fin : Bool) where
  -- With callbacks that leave the registry alone, an active list in order, and all addresses
  -- different, one more round than there are active events is enough. The thread calls back all
  -- that is due, in order of deadline. It moves these events in that order behind the stale ones, and
  -- leaves the others active.
  pub dispatch-due :
      (fuel : ℕ) (active stale : List Event)
      → length active < fuel
      → Ascending active
      → Distinct active
      → Apart active stale
      → dispatch call fuel now (idle active stale fin)
        ≡ ok (due now active, idle (later now active) (stale ++ due now active) fin)
  unfolding dispatch
  dispatch-due zero active stale f up d a = absurd (omega arith)
  dispatch-due (suc fuel) [] stale f up d a = rw append-nil refl
  dispatch-due (suc fuel) (e ∷ es) stale f up d a = elim (Bool-cases (leb (stamp e.at) now)) [
    | inl t ↦
        rw
          (
            poll_round-due now e es stale fin a.0 t,
            dispatch,
            quiet,
            dispatch-due fuel es (stale ++ e ∷ []) (omega arith) up.1 d.1
                (Apart-move e es stale d.0 a.1),
            t,
            append_assoc,
          )
          refl
    | inr t ↦
        let none = none_due now (stamp e.at) es (ground arith) up.0 in
        rw (poll_round-later now e es stale fin t, dispatch, t, none.0, none.1, append-nil) refl
  ]
