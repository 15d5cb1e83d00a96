-- ===== src/Event/Epoll.antt =====
-- The functions of src/event.c on a registry that `epoll` watches. The kernel's side is a parameter:
-- a state, and `epoll_ctl` on it.
use lz_lib.Base.Int.{ℤ, pos, negsuc}
use lz_lib.Base.{
  ℕ, ◌+◌, ◌-◌, ◌*◌, Bool, true, false, Option, none, some, [], ◌++◌, ◌==◌, if◌then◌else◌, get_elem?,
  set, replicate, Run, ok, fault, bad_access, ◌>>=◌,
}
use lz_lib.Event.{Pool, Reg, Flags, switch_flags, getindex}
use lz_lib.Event.Poll.{Call, Ready, no_flags}

-- What the kernel keeps for a descriptor: the bits, and `struct event_data`.
pub record Watch : Type 0 where
  pub events : Flags
  pub fd : ℤ
  pub idx : ℕ

-- `epoll_ctl` with `EPOLL_CTL_ADD`, `EPOLL_CTL_MOD` and `EPOLL_CTL_DEL`: whether it succeeds, and the
-- state behind it.
pub record Epoll : Type 1 where
  pub State : Type 0
  pub add : State → ℤ → Watch → Bool × State
  pub modify : State → ℤ → Watch → Bool × State
  pub delete : State → ℤ → Bool × State

abbrev pub watch_of : Reg → ℕ → Watch
watch_of r idx = record { events = r.events; fd = r.fd; idx = idx }

-- 0 or -1
abbrev pub status : Bool → ℤ
status true = pos 0
status false = negsuc 0

module _ (k : Epoll) where
  -- `event_register_epoll`. The array doubles when it is full; `grown` is whether `realloc` succeeds,
  -- and a null array is an empty one.
  unfoldable pub event_register_epoll :
      Bool → Reg → k.State → Option Pool → ℤ → ℕ → ℕ → ℤ → ℤ → Run (ℤ × Option Pool × k.State)
  event_register_epoll grown garbage s none fd handler payload poll_in poll_out =
      ok (negsuc 0, none, s)
  event_register_epoll grown garbage s (some pool) fd handler payload poll_in poll_out =
      let full = pool.count == pool.used in
      let count = if full then pool.count * 2 else pool.count in
      let reg = if full then pool.reg ++ replicate pool.count garbage else pool.reg in
      let idx = pool.used in
      let entry : Reg = record {
        fd = fd;
        events = switch_flags poll_in poll_out no_flags;
        handler = handler;
        payload = payload;
      } in
      let added = k.add s fd (watch_of entry idx) in
      let refused : Run (ℤ × Option Pool × k.State) =
        ok (negsuc 0, some (record pool { count = count; reg = [] }), s) in
      let done : Run (ℤ × Option Pool × k.State) = elim (get_elem? reg idx) [
        | none ↦ fault bad_access
        | some old ↦ ok (
          status added.0,
          some (record pool {
            count = count;
            reg = set reg idx entry;
            used = idx + 1;
            changed = true;
          }),
          added.1,
        )
      ] in
      if full then (if grown then done else refused) else done

  -- `event_unregister_epoll` behind `EPOLL_CTL_DEL`, which succeeded: the last entry takes the place of
  -- the one that goes, in the kernel first.
  unfoldable pub replace_by_last : k.State → Pool → ℕ → Run (ℤ × Pool × k.State)
  replace_by_last s pool idx =
      let last = pool.used - 1 in
      if last == idx
      then ok (pos 0, record pool { used = last }, s)
      else elim (get_elem? pool.reg last) [
        | none ↦ fault bad_access
        | some moved ↦
            let modified = k.modify s moved.fd (watch_of moved idx) in
            if modified.0
            then ok (pos 0, record pool { reg = set pool.reg idx moved; used = last }, modified.1)
            else ok (negsuc 0, pool, modified.1)
      ]

  -- `event_unregister_epoll`
  unfoldable pub event_unregister_epoll :
      k.State → Option Pool → ℤ → ℤ → Run (ℤ × Option Pool × k.State)
  unfolding replace_by_last
  event_unregister_epoll s none fd hint = ok (negsuc 0, none, s)
  event_unregister_epoll s (some pool) fd hint = getindex pool fd hint >>= λ found. elim found [
    | none ↦ ok (negsuc 0, some pool, s)
    | some idx ↦ elim (get_elem? pool.reg idx) [
      | none ↦ fault bad_access
      | some r ↦
          let deleted = k.delete s fd in
          let cleared = record pool { reg = set pool.reg idx (record r { fd = negsuc 0 }) } in
          if deleted.0
          then (replace_by_last deleted.1 cleared idx >>= λ out. ok (out.0, some out.1, out.2))
          else ok (negsuc 0, some cleared, deleted.1)
    ]
  ]

  -- `event_select_on_epoll`
  unfoldable pub event_select_on_epoll :
      k.State → Option Pool → ℤ → ℤ → ℤ → ℤ → Run (ℤ × Option Pool × k.State)
  event_select_on_epoll s none fd hint poll_in poll_out = ok (negsuc 0, none, s)
  event_select_on_epoll s (some pool) fd hint poll_in poll_out = getindex pool fd hint >>= λ found.
      elim found [
        | none ↦ ok (negsuc 0, some pool, s)
        | some idx ↦ elim (get_elem? pool.reg idx) [
          | none ↦ fault bad_access
          | some r ↦
              let r' = record r { events = switch_flags poll_in poll_out r.events } in
              let watch : Watch = record { events = r'.events; fd = fd; idx = idx } in
              let modified = k.modify s fd watch in
              ok (status modified.0, some (record pool { reg = set pool.reg idx r' }), modified.1)
        ]
      ]

-- `event_pool_new_epoll`: `created` is what `epoll_create` returns, none for -1.
unfoldable pub event_pool_new_epoll : Bool → Option ℕ → Reg → ℕ → Option Pool
event_pool_new_epoll alloc created blank count =
    if alloc
    then elim created [
      | none ↦ none
      | some fd ↦ some (record {
        fd = pos fd;
        count = count;
        reg = replicate count blank;
        used = 0;
        changed = false;
        evcache = [];
        evcache_size = 0;
      })
    ]
    else none

-- `event_dispatch_epoll_handler`, of the descriptor and index that the kernel hands back.
unfoldable pub event_dispatch_epoll_handler : Pool → Ready → ℕ → Run (Option Call)
event_dispatch_epoll_handler pool u hint = getindex pool u.fd (pos hint) >>= λ found. elim found [
  | none ↦ ok none
  | some idx ↦ elim (get_elem? pool.reg idx) [
    | none ↦ fault bad_access
    | some r ↦ ok (
        some (record {
          handler = r.handler;
          fd = u.fd;
          idx = hint;
          payload = r.payload;
          poll_in = u.readable;
          poll_out = u.writable;
          poll_err = u.failed;
        }))
  ]
]
