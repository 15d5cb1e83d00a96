-- ===== src/Dict/Store.antt =====
-- `data_t` of src/dict.h and src/dict.c: reference-counted values on a heap.
use lz_lib.Base.{
  ℕ, ◌+◌, ◌-◌, Bool, false, Option, none, some, List, ◌==◌, if◌then◌else◌, Run, ok, fault,
  bad_access, inc32, dec32,
}

-- `struct _data`: `bytes` is what `data` points to, none if it is null; `vec` is the list of the
-- buffers of the iovec. `len` and `refcount` are the bit patterns of their `int32_t`.
pub record Data : Type 0 where
  pub is_static : Bool
  pub is_const : Bool
  pub len : ℕ
  pub vec : Option (List (List ℕ))
  pub bytes : Option (List ℕ)
  pub refcount : ℕ

-- The objects by address. `next` is the next address that `calloc` returns, one that is not in use;
-- `room` is the number of allocations that still succeed.
pub record Heap : Type 0 where
  pub objects : ℕ → Option Data
  pub next : ℕ
  pub room : ℕ

abbrev pub update : (ℕ → Option Data) → ℕ → Option Data → ℕ → Option Data
update f p d q = if q == p then d else f q

abbrev pub put : Heap → ℕ → Option Data → Heap
put h p d = record h { objects = update h.objects p d }

-- `CALLOC`, the address that it returns; none when it fails.
unfoldable pub calloc : Heap → Option (ℕ × Heap)
calloc h =
    if h.room == 0 then none else some (h.next, record h { next = h.next + 1; room = h.room - 1 })

abbrev pub blank_data : Data
blank_data = record {
  is_static = false;
  is_const = false;
  len = 0;
  vec = none;
  bytes = none;
  refcount = 0;
}

-- `get_new_data`
unfoldable pub get_new_data : Heap → Option (ℕ × Heap)
unfolding calloc
get_new_data h = elim (calloc h) [
  | none ↦ none
  | some (p, h') ↦ some (p, put h' p (some blank_data))
]

-- `data_destroy`. A constant object stays, its buffers freed and its length marked.
unfoldable pub data_destroy : Heap → ℕ → Run Heap
data_destroy h p = elim (h.objects p) [
  | none ↦ fault bad_access
  | some d ↦ ok (
      if d.is_const
      then (if d.is_static
          then put h p (some (record d { len = 0xbabababa }))
          else put h p (some (record d { len = 0xbabababa; bytes = none; vec = none })))
      else put h p none)
]

-- `data_ref`
unfoldable pub data_ref : Heap → ℕ → Run Heap
data_ref h p = elim (h.objects p) [
  | none ↦ fault bad_access
  | some d ↦ ok (put h p (some (record d { refcount = inc32 d.refcount })))
]

-- `data_unref`
unfoldable pub data_unref : Heap → ℕ → Run Heap
unfolding data_destroy
data_unref h p = elim (h.objects p) [
  | none ↦ fault bad_access
  | some d ↦
      let h' = put h p (some (record d { refcount = dec32 d.refcount })) in
      if dec32 d.refcount == 0 then data_destroy h' p else ok h'
]
