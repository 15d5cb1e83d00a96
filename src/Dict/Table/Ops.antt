-- ===== src/Dict/Table/Ops.antt =====
-- The operations on a valid dictionary: each keeps it valid, and acts on its view as a map does.
use lz_lib.Base.Int.{pos}
use lz_lib.Base.{
  ℕ, ◌+◌, ◌-◌, ◌%◌, ◌^◌, ◌<◌, ◌≤◌, ◌≡◌, ◌≢◌, refl, subst, ◌∙◌, inl, inr, Option, none, some, List,
  [], ◌∷◌, arith, All, ◌==◌, if◌then◌else◌, Bool-cases, Option-cases, get_elem?, set,
  get_elem?-set_self, get_elem?-set_ne, length-set, eq_bytes, ok, inc32, ◌>>=◌,
}
use lz_lib.Hash.{super_fast_hash}
use lz_lib.Dict.Store.{Data, Heap, calloc}
use lz_lib.Dict.Table.{Dict, Node, link_pair, dict_set_key, dict_set, dict_get}
use lz_lib.Dict.Table.Nodes.{
  find_key, view, view-find_key, assign_key, assign_value-assign_key, Distinct-assign_key,
  length-assign_key, All-assign_key, view-assign_key, Fresh-absent,
}
use lz_lib.Dict.Table.Chains.{homed, homed-assign_key}
use lz_lib.Dict.Table.Refs.{
  bytes_of, data_ref-bytes_of, refs, holders, holders-assign_key, holders-pos, data_ref-Counts,
  data_unref-Counts,
}
use lz_lib.Dict.Table.Valid.{IsValid, Owns, LinksHome, chain-home, dict_lookup-find_key}

-- `dict_get` on a valid dictionary returns the value of the key, and null if no pair has the key.
pub dict_get-view :
    {d : Dict} (key : List ℕ)
    → IsValid d
    → dict_get (some d) (some key) ≡ ok (view key d.members_list)
unfolding dict_get
dict_get-view {d} key v =
    rw (dict_lookup-find_key key v, view-find_key)
      (elim (Option-cases (find_key key d.members_list)) [
        | inl e ↦ rw e refl
        | inr (n, e) ↦ rw e refl
      ])

-- Every object's references beyond those that the pairs hold are as many as before.
abbrev pub Balanced : Heap → List Node → Heap → List Node → Type 0
Balanced h ns h' ns' = (p : ℕ) → refs h' p + holders p ns ≡ refs h p + holders p ns'

-- A dictionary and heap after an operation that makes the view `f`.
pub record After (h : Heap) (d : Dict) (f : List ℕ → Option ℕ) (h' : Heap) (d' : Dict)
    : Type 0 where
  pub valid : IsValid d'
  pub owns : Owns h' d'.members_list
  pub reads : (q : List ℕ) → view q d'.members_list ≡ f q
  pub balanced : Balanced h d.members_list h' d'.members_list

-- What a new pair leaves besides: one pair more in front, two addresses taken, and the bytes of all values.
pub record Adds (h : Heap) (d : Dict) (key : List ℕ) (value : ℕ) (h' : Heap) (d' : Dict)
    : Type 0 where
  pub list : d'.members_list ≡ record { id = h.next; key = key; value = value } ∷ d.members_list
  pub next : h'.next ≡ h.next + 2
  pub room : h'.room + 2 ≡ h.room
  pub width : d'.hash_size ≡ d.hash_size
  pub bytes : (q : ℕ) → bytes_of h' q ≡ bytes_of h q
  pub unused : (q : ℕ) → h.objects q ≡ none → h'.objects q ≡ none

-- The view with one key changed.
abbrev pub update_key : List ℕ → Option ℕ → List Node → List ℕ → Option ℕ
update_key key v ns q = if eq_bytes key q then v else view q ns

pub calloc-some :
    (h : Heap)
    → 0 < h.room
    → calloc h ≡ some (h.next, record h { next = h.next + 1; room = h.room - 1 })
unfolding calloc
calloc-some h room = ground arith

pub All-below : (b : ℕ) (ns : List Node) → All (λ n. n.id < b) ns → All (λ n. n.id ≢ b) ns
All-below b [] h = tt
All-below b (n ∷ ns) h = (omega arith, All-below b ns h.1)

pub All-raise : (a b : ℕ) (ns : List Node) → a ≤ b → All (λ n. n.id < a) ns → All (λ n. n.id < b) ns
All-raise a b [] le h = tt
All-raise a b (n ∷ ns) le h = (omega arith, All-raise a b ns le h.1)

module _ {h : Heap} {d : Dict} (key : List ℕ) (valid : IsValid d)
    (owns : Owns h d.members_list) where
  module _ (value : ℕ) (x : Data) (live : h.objects value ≡ some x)
      (small : x.refcount + 1 < 2 ^ 32) where
    -- The value of a pair that is there is replaced: the new one is referenced, and then the old one
    -- given back.
    replace-After :
        (n : Node)
        → find_key key d.members_list ≡ some n
        → (h' : Heap) × (d' : Dict) × (dict_set_key h d key value ≡ ok (pos 0, h', d'))
          × After h d (update_key key (some value) d.members_list) h' d'
    unfolding dict_set_key
    replace-After n e =
        let ns = d.members_list in
        let (h1, run1, c1) = data_ref-Counts h value x live small in
        let old = holders-pos key ns n e in
        let more : 0 < refs h1 n.value = ground (arith, c1.counts n.value, owns.held n.value) in
        let fits : refs h1 n.value < 2 ^ 32 =
          ground (arith, c1.counts n.value, owns.words n.value) in
        let (h2, run2, c2) = data_unref-Counts h1 n.value more fits in
        let same = assign_value-assign_key key value ns n valid.distinct e in
        let balance : (p : ℕ)
            → refs h2 p + holders p ns ≡ refs h p + holders p (assign_key key value ns) =
          λ p. ground (
            arith,
            c2.counts p,
            c1.counts p,
            c1.counts n.value,
            holders-assign_key p key value ns n e,
            owns.held p,
            owns.held n.value,
          ) in
        (
          h2,
          record d { members_list = assign_key key value ns },
          rw (dict_lookup-find_key key valid, e, dict_set_key, run1, run2, same) refl,
          record {
            valid = record {
              width = valid.width;
              sized = valid.sized;
              chains = λ i low. rw homed-assign_key (valid.chains i low);
              distinct = Distinct-assign_key key value ns valid.distinct;
              counted = rw length-assign_key valid.counted;
            };
            owns = record {
              held = λ p. omega (arith, balance p, owns.held p);
              words = λ p. ground (arith, c2.counts p, c1.counts p, owns.words p);
              used =
                  rw (c2.next, c1.next) (All-assign_key (λ i. i < h.next) key value ns owns.used);
            };
            reads = λ q. view-assign_key key q value ns n e;
            balanced = balance;
          },
        )

    -- The dictionary with a new pair in front.
    linked : ℕ → Dict
    linked p = record d {
      members =
          set d.members (super_fast_hash key % d.hash_size)
            (p ∷ homed d.hash_size (super_fast_hash key % d.hash_size) d.members_list);
      members_list = record { id = p; key = key; value = value } ∷ d.members_list;
      count = inc32 d.count;
    }

    linked-chain :
        (p i : ℕ)
        → i < d.hash_size
        → get_elem? (linked p).members i ≡ some (homed d.hash_size i (linked p).members_list)
    unfolding linked homed
    linked-chain p i low =
        let home = super_fast_hash key % d.hash_size in
        let (homely, _, _) = chain-home key valid in
        elim (Bool-cases (home == i)) [
          | inl t ↦
              let e : home ≡ i = ground arith in
              let chain = homed d.hash_size home d.members_list in
              rw t (
                subst
                  (λ k.
                    get_elem? (set d.members home (p ∷ chain)) k
                    ≡ some (p ∷ homed d.hash_size k d.members_list))
                  e (get_elem?-set_self d.members home (p ∷ chain) (omega (arith, valid.width))))
          | inr f ↦
              let ne : home ≢ i = λ e. ground arith in
              rw f (get_elem?-set_ne d.members home i _ ne ∙ valid.chains i low)
        ]

    link_pair-linked : (p : ℕ) → LinksHome d key → link_pair d p key value ≡ ok (linked p)
    unfolding link_pair linked
    link_pair-linked p home = rw (home, link_pair, (chain-home key valid).2) refl

    -- A key that is not there gets a new pair, with a reference to the value.
    pub insert-After :
        find_key key d.members_list ≡ none
        → LinksHome d key
        → 2 ≤ h.room
        → (h' : Heap) × (d' : Dict) × (dict_set_key h d key value ≡ ok (pos 0, h', d'))
          × After h d (update_key key (some value) d.members_list) h' d'
          × Adds h d key value h' d'
    unfolding dict_set_key calloc linked holders view
    insert-After absent home room =
        let ns = d.members_list in
        let h2 : Heap = record h { next = h.next + 1 + 1; room = h.room - 1 - 1 } in
        let (h3, run, c) = data_ref-Counts h2 value x live small in
        let (homely, b, at) = chain-home key valid in
        let fresh = Fresh-absent h.next key ns absent (All-below h.next ns owns.used) in
        (
          h3,
          linked h.next,
          rw
              (
                dict_lookup-find_key key valid,
                absent,
                ◌>>=◌,
                calloc-some h (omega arith),
                calloc-some (record h { next = h.next + 1; room = h.room - 1 }) (omega arith),
                run,
                link_pair-linked h.next home,
              )
              refl,
          record {
            valid = record {
              width = length-set d.members _ _ ∙ valid.width;
              sized = valid.sized;
              chains = linked-chain h.next;
              distinct = (fresh, valid.distinct);
              counted = omega (arith, valid.counted);
            };
            owns = record {
              held = λ p. ground (arith, c.counts p, owns.held p);
              words = λ p. ground (arith, c.counts p, owns.words p);
              used = (
                omega (arith, c.next),
                All-raise h.next h3.next ns (omega (arith, c.next)) owns.used,
              );
            };
            reads = λ q. refl;
            balanced = λ p. ground (arith, c.counts p);
          },
          record {
            list = refl;
            next = omega (arith, c.next);
            room = omega (arith, c.room, room);
            width = refl;
            bytes = λ q. (data_ref-bytes_of h2 h3 value run q).0;
            unused = λ q. (data_ref-bytes_of h2 h3 value run q).1;
          },
        )

-- On a valid dictionary, with a live value, room for two allocations, and a key that is linked where
-- it is looked up, `dict_set` returns 0. The dictionary stays valid and reads the value at the key and
-- what it read before at every other key; each object keeps the references that others hold.
pub dict_set-After :
    (ref_name : ℕ → List ℕ) {h : Heap} {d : Dict} (key : List ℕ) (value : ℕ) (x : Data)
    → IsValid d
    → Owns h d.members_list
    → h.objects value ≡ some x
    → x.refcount + 1 < 2 ^ 32
    → LinksHome d key
    → 2 ≤ h.room
    → (h' : Heap) × (d' : Dict) × (dict_set ref_name h (some d) (some key) (some value)
        ≡ ok (pos 0, h', some d'))
      × After h d (update_key key (some value) d.members_list) h' d'
unfolding dict_set
dict_set-After ref_name {h} {d} key value x valid owns live small home room =
    elim (Option-cases (find_key key d.members_list)) [
      | inl absent ↦
          let (h', d', run, a, _) =
            insert-After key valid owns value x live small absent home room in
          (h', d', rw (run, ◌>>=◌), a)
      | inr (n, e) ↦
          let (h', d', run, a) = replace-After key valid owns value x live small n e in
          (h', d', rw (run, ◌>>=◌), a)
    ]
