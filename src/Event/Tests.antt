-- ===== src/Event/Tests.antt =====
-- Registries of two descriptors, a kernel that accepts every call, and the theorems at these.
use lz_lib.Base.Int.{negsuc, ℤ, pos, eqb_ℤ}
use lz_lib.Base.{
  ◌≢◌, ◌<◌, ℕ, zero, suc, ◌≡◌, refl, true, false, Option, none, some, [], ◌∷◌, arith, if◌then◌else◌,
  get_elem?, take, ok,
}
use lz_lib.Event.{Pool, Reg, fd_at, scan, getindex, switch_flags}
use lz_lib.Event.Poll.{event_register_poll, no_flags}
use lz_lib.Event.Epoll.{event_select_on_epoll, event_register_epoll, Epoll, Watch, watch_of}
use lz_lib.Event.Index.{IsValid, event_register_poll-entry}
use lz_lib.Event.Register.{new_entry, event_register_epoll-entry, event_register_epoll-Mirrors}
use lz_lib.Event.Select.{event_select_on_epoll-Mirrors}
use lz_lib.Event.Watched.{Documented, Mirrors}
use lz_lib.Event.Mirror.{Unregisters, event_unregister_epoll-Mirrors}

abbrev entry : ℤ → Reg
entry fd = record { fd = fd; events = no_flags; handler = 1; payload = 2 }

abbrev two : Pool
two = record {
  fd = pos 3;
  count = 2;
  reg = entry (pos 5) ∷ entry (pos 6) ∷ [];
  used = 2;
  changed = false;
  evcache = [];
  evcache_size = 0;
}

two-IsValid : IsValid two
two-IsValid = record { sized = refl; within = omega arith }

getindex_runs : getindex two (pos 6) (pos 0) ≡ ok (some 1)
unfolding getindex scan fd_at
getindex_runs = refl

-- The array is full, and grows.
event_register_poll-entry_example :
    (pool' : Pool) × (event_register_poll (entry (pos 0)) (some two) (pos 7) 4 9 (pos 1) (pos 0)
      ≡ ok (pos 2, some pool'))
    × IsValid pool'
    × (pool'.used ≡ 3)
    × (get_elem? pool'.reg 2
        ≡ some (record {
          fd = pos 7;
          events = switch_flags (pos 1) (pos 0) no_flags;
          handler = 4;
          payload = 9;
        }))
    × (take 2 pool'.reg ≡ two.reg)
    × (getindex pool' (pos 7) (pos 2) ≡ ok (some 2))
event_register_poll-entry_example =
    event_register_poll-entry (entry (pos 0)) two (pos 7) 4 9 (pos 1) (pos 0) two-IsValid

-- A kernel that keeps what it is asked to watch.
abbrev kernel : Epoll
kernel = record {
  State = ℤ → Option Watch;
  add = λ s fd w. (true, λ f. if eqb_ℤ f fd then some w else s f);
  modify = λ s fd w. (true, λ f. if eqb_ℤ f fd then some w else s f);
  delete = λ s fd. (true, λ f. if eqb_ℤ f fd then none else s f);
}

abbrev documented : Documented kernel
documented = record {
  watched = λ s f. s f;
  watched-add = λ s fd f w e. refl;
  watched-modify = λ s fd f w e. refl;
  watched-delete = λ s fd f e. refl;
}

abbrev both : ℤ → Option Watch
both f =
    if eqb_ℤ f (pos 5)
    then some (watch_of (entry (pos 5)) 0)
    else (if eqb_ℤ f (pos 6) then some (watch_of (entry (pos 6)) 1) else none)

getindex_first : getindex two (pos 5) (pos 0) ≡ ok (some 0)
unfolding getindex scan fd_at
getindex_first = refl

two-Mirrors : Mirrors kernel documented both two
two-Mirrors zero low = (entry (pos 5), refl, refl)
two-Mirrors (suc zero) low = (entry (pos 6), refl, refl)
two-Mirrors (suc (suc i)) low = absurd (omega arith)

event_unregister_epoll-Mirrors_example : Unregisters kernel documented both two (pos 5) (pos 0)
event_unregister_epoll-Mirrors_example =
    event_unregister_epoll-Mirrors kernel documented both two (pos 5) (pos 0) 0 two-IsValid
      two-Mirrors getindex_first refl (λ f w. refl)

-- A kernel that refuses to watch anything more.
abbrev refusing : Epoll
refusing = record kernel { add = λ s fd w. (false, s) }

event_register_epoll-entry_example :
    (pool' : Pool) × (event_register_epoll refusing true
        (entry (pos 0))
        both
        (some two)
        (pos 7)
        4
        9
        (pos 1)
        (pos 0)
      ≡ ok (negsuc 0, some pool', both))
    × IsValid pool'
    × (pool'.used ≡ 3)
    × (get_elem? pool'.reg 2 ≡ some (new_entry (pos 7) 4 9 (pos 1) (pos 0)))
    × (getindex pool' (pos 7) (pos 2) ≡ ok (some 2))
event_register_epoll-entry_example =
    event_register_epoll-entry refusing (entry (pos 0)) both two (pos 7) 4 9 (pos 1) (pos 0)
      two-IsValid (omega arith)

two_fresh : (i : ℕ) (r : Reg) → i < 2 → get_elem? two.reg i ≡ some r → r.fd ≢ pos 7
two_fresh zero r low e same = ground arith
two_fresh (suc zero) r low e same = ground arith
two_fresh (suc (suc i)) r low e same = absurd (omega arith)

event_register_epoll-Mirrors_example :
    (pool' : Pool) × (s' : ℤ → Option Watch) × (event_register_epoll kernel true
        (entry (pos 0))
        both
        (some two)
        (pos 7)
        4
        9
        (pos 1)
        (pos 0)
      ≡ ok (pos 0, some pool', s'))
    × (pool'.used ≡ 3)
    × Mirrors kernel documented s' pool'
event_register_epoll-Mirrors_example =
    event_register_epoll-Mirrors kernel documented (entry (pos 0)) both two (pos 7) 4 9 (pos 1)
      (pos 0) two-IsValid (omega arith) two-Mirrors two_fresh refl

event_select_on_epoll-Mirrors_example :
    (r : Reg) × (pool' : Pool) × (s' : ℤ → Option Watch) × (event_select_on_epoll kernel both
        (some two)
        (pos 5)
        (pos 0)
        (pos 1)
        (pos 0)
      ≡ ok (pos 0, some pool', s'))
    × (get_elem? two.reg 0 ≡ some r)
    × (get_elem? pool'.reg 0 ≡ some (record r { events = switch_flags (pos 1) (pos 0) r.events }))
    × Mirrors kernel documented s' pool'
event_select_on_epoll-Mirrors_example =
    event_select_on_epoll-Mirrors kernel documented both two (pos 5) (pos 0) (pos 1) (pos 0) 0
      two-IsValid two-Mirrors getindex_first (λ w. refl)
