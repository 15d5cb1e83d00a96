-- ===== src/Event/Poll.antt =====
-- The functions of src/event.c on a registry that `poll` watches.
use lz_lib.Base.Int.{ℤ, pos, negsuc, ◌+ℤ◌, ltb_ℤ}
use lz_lib.Base.{
  ℕ, ◌+◌, ◌-◌, Bool, true, false, Option, none, some, [], ◌++◌, ltb, ◌==◌, if◌then◌else◌, get_elem?,
  set, take, replicate, Run, ok, fault, bad_access, ◌>>=◌,
}
use lz_lib.Event.{Pool, Reg, Flags, switch_flags, getindex}

-- What `pipe`, the two `fcntl` and `realloc` bring: whether they succeed, and what is in new memory.
pub record Kernel : Type 0 where
  pub pipe_ok : Bool
  pub first_ok : Bool
  pub second_ok : Bool
  pub breaker_in : ℤ
  pub garbage : Reg

abbrev pub no_flags : Flags
no_flags = record { pri = true; inward = false; outward = false }

-- `event_register_poll`: the index of the new entry. The array grows by 256 when it is full. (Its
-- `realloc` is not checked; here it succeeds.)
unfoldable pub event_register_poll : Reg → Option Pool → ℤ → ℕ → ℕ → ℤ → ℤ → Run (ℤ × Option Pool)
event_register_poll garbage none fd handler payload poll_in poll_out = ok (negsuc 0, none)
event_register_poll garbage (some pool) fd handler payload poll_in poll_out =
    let full = pool.count == pool.used in
    let count = if full then pool.count + 256 else pool.count in
    let reg = if full then pool.reg ++ replicate 256 garbage else pool.reg in
    let idx = pool.used in
    let entry : Reg = record {
      fd = fd;
      events = switch_flags poll_in poll_out no_flags;
      handler = handler;
      payload = payload;
    } in
    elim (get_elem? reg idx) [
      | none ↦ fault bad_access
      | some old ↦ ok (
        pos idx,
        some (record pool {
          count = count;
          reg = set reg idx entry;
          used = idx + 1;
          changed = true;
        }),
      )
    ]

-- `event_unregister_poll`: the last entry takes the place of the one that goes.
unfoldable pub event_unregister_poll : Option Pool → ℤ → ℤ → Run (ℤ × Option Pool)
event_unregister_poll none fd hint = ok (negsuc 0, none)
event_unregister_poll (some pool) fd hint = getindex pool fd hint >>= λ found. elim found [
  | none ↦ ok (negsuc 0, some pool)
  | some idx ↦ elim (get_elem? pool.reg (pool.used - 1)) [
    | none ↦ fault bad_access
    | some moved ↦ ok (
      pos idx,
      some (record pool { reg = set pool.reg idx moved; used = pool.used - 1; changed = true }),
    )
  ]
]

-- `event_select_on_poll`: the bits of an entry, and `changed` if `poll_in + poll_out > -2`.
unfoldable pub event_select_on_poll : Option Pool → ℤ → ℤ → ℤ → ℤ → Run (ℤ × Option Pool)
event_select_on_poll none fd hint poll_in poll_out = ok (negsuc 0, none)
event_select_on_poll (some pool) fd hint poll_in poll_out = getindex pool fd hint >>= λ found.
    elim found [
      | none ↦ ok (negsuc 0, some pool)
      | some idx ↦ elim (get_elem? pool.reg idx) [
        | none ↦ fault bad_access
        | some r ↦ ok (
          pos idx,
          some (record pool {
            reg = set pool.reg idx (record r { events = switch_flags poll_in poll_out r.events });
            changed = if ltb_ℤ (negsuc 1) (poll_in +ℤ poll_out) then true else pool.changed;
          }),
        )
      ]
    ]

-- `event_pool_new_poll`, of memory for `count` entries (none when an allocation fails). The handler
-- `0` stands for `__flush_fd`. A failure frees all and returns null.
unfoldable pub event_pool_new_poll : Kernel → Bool → ℕ → Run (Option Pool)
unfolding event_register_poll
event_pool_new_poll k alloc count =
    let blank : Reg = record {
      fd = pos 0;
      events = record { pri = false; inward = false; outward = false };
      handler = 0;
      payload = 0;
    } in
    let pool : Pool = record {
      fd = pos 0;
      count = count;
      reg = replicate count blank;
      used = 0;
      changed = false;
      evcache = [];
      evcache_size = 0;
    } in
    if alloc
    then (if k.pipe_ok
        then (if k.first_ok
            then (if k.second_ok
                then (event_register_poll k.garbage (some pool) k.breaker_in 0 0 (pos 1) (pos 0)
                    >>= λ r. ok r.1)
                else ok none)
            else ok none)
        else ok none)
    else ok none

-- `event_dispatch_poll_resize`: the array for `poll`, filled from the registry, and how many of its
-- entries `poll` is to read. It grows to `used`. (The entries are kept as those of the registry, of
-- which `poll` sees `fd` and `events`.)
unfoldable pub event_dispatch_poll_resize : Pool → ℕ → ℕ × Pool
event_dispatch_poll_resize pool size =
    if pool.changed
    then (if ltb pool.evcache_size pool.used
        then (
          pool.used,
          record pool { evcache = take pool.used pool.reg; evcache_size = pool.used },
        )
        else (pool.used, record pool { evcache = take pool.used pool.reg }))
    else (size, pool)

-- What the handler is called with: `fd`, `idx`, its argument, and the three sets of bits.
pub record Call : Type 0 where
  pub handler : ℕ
  pub fd : ℤ
  pub idx : ℕ
  pub payload : ℕ
  pub poll_in : Bool
  pub poll_out : Bool
  pub poll_err : Bool

-- `struct pollfd` as `poll` returns it, `revents` by its bits for reading, writing and errors.
pub record Ready : Type 0 where
  pub fd : ℤ
  pub readable : Bool
  pub writable : Bool
  pub failed : Bool

-- `event_dispatch_poll_handler`: the call that is made, none if the descriptor is gone.
unfoldable pub event_dispatch_poll_handler : Pool → Ready → ℤ → Run (Option Call)
event_dispatch_poll_handler pool u i = getindex pool u.fd i >>= λ found. elim found [
  | none ↦ ok none
  | some idx ↦ elim (get_elem? pool.reg idx) [
    | none ↦ fault bad_access
    | some r ↦ ok (
        some (record {
          handler = r.handler;
          fd = u.fd;
          idx = idx;
          payload = r.payload;
          poll_in = u.readable;
          poll_out = u.writable;
          poll_err = u.failed;
        }))
  ]
]
