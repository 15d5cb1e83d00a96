-- ===== src/Timer/Order.antt =====
-- The active list stays in order of deadline, and a new event goes in front of those that are due
-- at the same time.
use mathlib.Core.List.{reverse, reverse-append, reverse-reverse, reverse-cons, Perm}
use mathlib.Core.List.Perm
use lz_lib.Base.{
  ℕ, ◌≤◌, ◌≡◌, refl, ap, inl, inr, true, false, some, List, [], ◌∷◌, ◌++◌, arith, All, All-reverse,
  ltb, if◌then◌else◌, Bool-cases, ok,
}
use lz_lib.Timer.{Timeval, Event, Registry, stamp, deadline, insert_back, lz_timer_call_after}

-- Deadlines do not fall along the list.
abbrev pub Ascending : List Event → Type 0
Ascending [] = Unit {0}
Ascending (e ∷ es) = All (λ f. stamp e.at ≤ stamp f.at) es × Ascending es

-- The list with `e` behind all that is due strictly before it.
pub insert_sorted : Event → List Event → List Event
insert_sorted e [] = e ∷ []
insert_sorted e (x ∷ xs) =
    if ltb (stamp x.at) (stamp e.at) then x ∷ insert_sorted e xs else e ∷ x ∷ xs

insert_back-append :
    (e x : Event) (ys : List Event)
    → ltb (stamp x.at) (stamp e.at) ≡ true
    → insert_back e (ys ++ x ∷ []) ≡ insert_back e ys ++ x ∷ []
unfolding insert_back
insert_back-append e x [] h = rw h
insert_back-append e x (y ∷ ys) h = ground (arith, insert_back-append e x ys h)

insert_back_last :
    (e : Event) (ys : List Event)
    → All (λ f. stamp e.at ≤ stamp f.at) ys
    → insert_back e ys ≡ ys ++ e ∷ []
unfolding insert_back
insert_back_last e [] h = refl
insert_back_last e (y ∷ ys) h = ground (arith, insert_back_last e ys h.1)

All-le :
    (a b : ℕ) (xs : List Event)
    → a ≤ b
    → All (λ f. b ≤ stamp f.at) xs
    → All (λ f. a ≤ stamp f.at) xs
All-le a b [] h k = tt
All-le a b (x ∷ xs) h k = (omega arith, All-le a b xs h k.1)

pub insert_back-insert_sorted :
    (e : Event) (xs : List Event)
    → Ascending xs
    → reverse (insert_back e (reverse xs)) ≡ insert_sorted e xs
unfolding insert_sorted insert_back
insert_back-insert_sorted e [] h = refl
insert_back-insert_sorted e (x ∷ xs) h = elim (Bool-cases (ltb (stamp x.at) (stamp e.at))) [
  | inl t ↦
      rw (t, reverse-cons, insert_back-append e x (reverse xs) t, reverse-append)
        (ap (◌∷◌ x) (insert_back-insert_sorted e xs h.1))
  | inr f ↦
      let all =
        All-reverse _ (x ∷ xs) (ground arith, All-le (stamp e.at) _ xs (ground arith) h.0) in
      rw (f, insert_back_last e (reverse (x ∷ xs)) all, reverse-append, reverse-reverse)
]

insert_sorted-All :
    (P : Event → Type 0) (e : Event) (xs : List Event) → P e → All P xs → All P (insert_sorted e xs)
unfolding insert_sorted
insert_sorted-All P e [] p h = (p, tt)
insert_sorted-All P e (x ∷ xs) p h = elim (Bool-cases (ltb (stamp x.at) (stamp e.at))) [
  | inl t ↦ rw t (h.0, insert_sorted-All P e xs p h.1)
  | inr f ↦ rw f (p, h)
]

pub insert_sorted-Ascending :
    (e : Event) (xs : List Event) → Ascending xs → Ascending (insert_sorted e xs)
unfolding insert_sorted
insert_sorted-Ascending e [] h = (tt, tt)
insert_sorted-Ascending e (x ∷ xs) h = elim (Bool-cases (ltb (stamp x.at) (stamp e.at))) [
  | inl t ↦ rw t (insert_sorted-All _ e xs (ground arith) h.0, insert_sorted-Ascending e xs h.1)
  | inr f ↦ rw f ((ground arith, All-le (stamp e.at) _ xs (ground arith) h.0), h)
]

pub insert_sorted-perm : (e : Event) (xs : List Event) → Perm (insert_sorted e xs) (e ∷ xs)
unfolding insert_sorted
insert_sorted-perm e [] = Perm.refl (e ∷ [])
insert_sorted-perm e (x ∷ xs) = elim (Bool-cases (ltb (stamp x.at) (stamp e.at))) [
  | inl t ↦ rw t (Perm.trans (Perm.cons x (insert_sorted-perm e xs)) (Perm.swap e x xs))
  | inr f ↦ rw f (Perm.refl (e ∷ x ∷ xs))
]

-- The event that `lz_timer_call_after` builds.
abbrev pub new_event : ℕ → Timeval → Timeval → ℕ → ℕ → Event
new_event id now delta cbk payload = record {
  id = id;
  at = deadline now delta;
  cbk = cbk;
  payload = payload;
}

-- On a registry whose mutex is free and whose active list is in order, `lz_timer_call_after` returns
-- the event and leaves the mutex free. The active list is then in order, it is the old one with the
-- event inserted behind all that is due strictly before it, and so a permutation of the two; the
-- rest of the registry is unchanged.
pub call_after-insert_sorted :
    (reg : Registry) (id cbk payload : ℕ) (now delta : Timeval)
    → reg.locked ≡ false
    → Ascending reg.active
    → let e = new_event id now delta cbk payload in
      let out = insert_sorted e reg.active in
      (lz_timer_call_after (some reg) (some id) now delta cbk payload
        ≡ ok (some id, some (record reg { active = out })))
      × Ascending out
      × Perm out (e ∷ reg.active)
unfolding lz_timer_call_after
call_after-insert_sorted reg id cbk payload now delta free up =
    let e = new_event id now delta cbk payload in
    (
      rw (free, insert_back-insert_sorted e reg.active up) (ground arith),
      insert_sorted-Ascending e reg.active up,
      insert_sorted-perm e reg.active,
    )
