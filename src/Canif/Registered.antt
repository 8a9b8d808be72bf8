-- ===== src/Canif/Registered.antt =====
-- src/canif.c: what registering and removing keep of the list of interfaces, and that an interface
-- is found by its index.
use lwcan.Common.{
  ℕ, ◌+◌, ◌%◌, ◌-◌, ◌≤◌, ◌<◌, ◌≡◌, ◌≢◌, ◌⊎◌, refl, ap, ◌∙◌, inl, inr, some, List, [], ◌∷◌, ◌++◌,
  arith, All, All-remove, length, length-append, ◌==◌, ltb, ◌||◌, if◌then◌else◌, Bool-cases, false,
}
use lwcan.Can.{LwcanErr, ok, arg, canif_max, interface, is_ok}
use lwcan.Pool.Owners.{Apart, Apart-remove}
use lwcan.Pool.Slots.{unlink_addr-split, unlink_addr-none}
use lwcan.Canif.{Canif, get_index, find_index, get_by_index}
use lwcan.Canif.Registry.{
  Registry, max_canif_num, name_size, addr_of, new_canif, overwrite, link, initialised, canif_add,
  canif_remove,
}
use lwcan.Canif.Numbering.{HasOther, choose_num_lem, dist}

abbrev pub num_of : Canif → ℕ
num_of x = x.num

-- The numbers are below 254 and distinct, the interfaces are distinct and at most 254, and the next
-- number to try is below 254.
pub record IsValid (s : Registry) : Type 0 where
  pub small : All (λ x. x.num < max_canif_num) s.list
  pub nums : Apart num_of s.list
  pub addrs : Apart addr_of s.list
  pub room : length s.list ≤ max_canif_num
  pub next : s.canif_num < max_canif_num

-- The driver's `init` leaves the number as it is, and the memory where it is.
abbrev pub Keeps : (Canif → LwcanErr × Canif) → Type 0
Keeps init = (c : Canif) → ((init c).1.addr ≡ c.addr) × ((init c).1.num ≡ c.num)

pub overwrite-absent :
    (c : Canif) (list : List Canif) → All (λ x. x.addr ≢ c.addr) list → overwrite c list ≡ list
unfolding overwrite
overwrite-absent c [] a = refl
overwrite-absent c (x ∷ next) a =
    let e : (x.addr == c.addr) ≡ false = ground (arith, a.0) in
    rw (e, overwrite-absent c next a.1) refl

abbrev pub registered : Canif → ℕ → Registry → Registry
registered c num s = record {
  list = record c { num = num } ∷ s.list;
  canif_num = (num + 1) % max_canif_num;
}

-- The registry with an interface more, under a number that no other has
linked-IsValid :
    (c : Canif) (num : ℕ) (s : Registry)
    → IsValid s
    → num < max_canif_num
    → HasOther num s.list
    → All (λ x. x.addr ≢ c.addr) s.list
    → length s.list < max_canif_num
    → IsValid (registered c num s)
linked-IsValid c num s v small others apart room = record {
  small = (small, v.small);
  nums = (others, v.nums);
  addrs = (apart, v.addrs);
  room = room;
  next = omega arith;
}

link_lem :
    (c : Canif) (num : ℕ) (s : Registry)
    → num < max_canif_num
    → link c s.list s (ok, num) ≡ (ok, registered c num s)
unfolding link
link_lem c num s h =
    ap (λ n. (ok, record { list = record c { num = num } ∷ s.list; canif_num = n })) next
  where
    next : (if num == max_canif_num - 1 then 0 else (num + 1) % 256) ≡ (num + 1) % max_canif_num
    next = ground arith

-- How a registration may end: the first number in turn that no other interface has, a full list,
-- or an error of the driver
abbrev pub Ending : LwcanErr × Canif → Registry → LwcanErr × Registry → Type 0
Ending made s r =
    ((num : ℕ) × (r ≡ (ok, registered made.1 num s))
      × HasOther num s.list
      × (num < max_canif_num)
      × ((i : ℕ)
          → i < dist s.canif_num num
          → ¬ HasOther ((s.canif_num + i) % max_canif_num) s.list))
    ⊎ (((r ≡ (canif_max, s)) × (length s.list ≡ max_canif_num))
        ⊎ ((r ≡ (interface, s)) × (is_ok made.0 ≡ false)))

-- Of an interface that is not in the list
initialised-cases :
    (error : LwcanErr) (c : Canif) (s : Registry)
    → IsValid s
    → c.num ≡ s.canif_num
    → All (λ x. x.addr ≢ c.addr) s.list
    → (r : LwcanErr × Registry) × (initialised (error, c) s ≡ some r)
      × IsValid r.1
      × Ending (error, c) s r
unfolding initialised
initialised-cases error c s v hint apart = elim (Bool-cases (is_ok error)) [
  | inr failed ↦ (
    (interface, s),
    rw (failed, overwrite-absent c s.list apart) refl,
    v,
    inr (inr (refl, failed)),
  )
  | inl done ↦
      let (error', num, e, small, chosen) = choose_num_lem c.addr s.canif_num s.list v.next in
      let here : overwrite c s.list ≡ s.list = overwrite-absent c s.list apart in
      let found : initialised (error, c) s ≡ some (link c s.list s (error', num)) =
        rw (done, here, hint, e, initialised) refl in
      elim chosen [
        | inl (is_ok', others, absent, room, first) ↦
            let found' : initialised (error, c) s ≡ some (ok, registered c num s) =
              rw is_ok' at found ∙ ap some (link_lem c num s small) in
            (
              (ok, registered c num s),
              found',
              linked-IsValid c num s v small others apart room,
              inl (num, refl, others, small, first),
            )
        | inr (inl (_, (pre, x, post, split, at, _))) ↦
            absurd ((All-remove (λ y. y.addr ≢ c.addr) pre x post (rw split at apart)).0 at)
        | inr (inr (is_max, many)) ↦
            let found' : initialised (error, c) s ≡ some (link c s.list s (canif_max, num)) =
              rw is_max at found in
            let there : overwrite (record c { num = num }) s.list ≡ s.list =
              overwrite-absent (record c { num = num }) s.list apart in
            (
              (canif_max, s),
              rw (found', there, link) refl,
              v,
              inr (inl (refl, omega (arith, many, v.room))),
            )
      ]
]

-- Where an interface is not registered yet and its driver's init keeps its number and its address,
-- canif_add always returns, and keeps it so that the interfaces' numbers are below 254 and
-- distinct, that the interfaces are distinct and at most 254, and that the next number to try is
-- below 254; it refuses an empty name and one of more than four bytes, and otherwise puts the
-- interface in front of the list under the first number, in turn from the one to try next, that no
-- other has, or fails because there are 254 interfaces or because init failed, and changes nothing
-- then.
pub canif_add-IsValid :
    (addr : ℕ) (name : List ℕ) (init : Canif → LwcanErr × Canif) (s : Registry)
    → IsValid s
    → Keeps init
    → All (λ x. x.addr ≢ addr) s.list
    → (r : LwcanErr × Registry) × (canif_add (some addr) (some name) (some init) s ≡ some r)
      × IsValid r.1
      × (((length name ≡ 0) ⊎ (name_size < length name)) × (r ≡ (arg, s))
          ⊎ Ending (init (new_canif addr name s.canif_num)) s r)
unfolding canif_add
canif_add-IsValid addr name init s v keeps apart =
    elim (Bool-cases ((length name == 0) || ltb name_size (length name))) [
      | inl bad ↦ ((arg, s), rw bad refl, v, inl (ground arith, refl))
      | inr good ↦
          let made = init (new_canif addr name s.canif_num) in
          let kept = keeps (new_canif addr name s.canif_num) in
          let (r, e, v', ending) = initialised-cases made.0 made.1 s v kept.1 (rw kept.0 apart) in
          (r, rw good e, v', inr ending)
    ]

-- Canif_remove keeps it so that the numbers are below 254 and distinct, that the interfaces are
-- distinct and at most 254, and that the next number to try is below 254; and no interface at the
-- address is left.
pub canif_remove-IsValid :
    (addr : ℕ) (s : Registry)
    → IsValid s
    → IsValid (canif_remove (some addr) s).1
      × All (λ x. x.addr ≢ addr) (canif_remove (some addr) s).1.list
unfolding canif_remove
canif_remove-IsValid addr s v = elim (unlink_addr-split addr_of addr s.list) [
  | inl e ↦ rw (e, canif_remove) (v, unlink_addr-none addr_of addr s.list e)
  | inr (pre, x, post, split, at, e) ↦
      let small = All-remove (λ y. y.num < max_canif_num) pre x post (rw split at v.small) in
      let nums = Apart-remove num_of pre x post (rw split at v.nums) in
      let addrs = Apart-remove addr_of pre x post (rw split at v.addrs) in
      rw (e, canif_remove)
        (
          record {
            small = small.1;
            nums = nums.1;
            addrs = addrs.1;
            room = omega (
              arith,
              v.room,
              ap length split,
              length-append pre (x ∷ post),
              length-append pre post,
            );
            next = v.next;
          },
          rw at at addrs.0,
        )
]

find_index-split :
    (pre : List Canif) (x : Canif) (post : List Canif)
    → All (λ y. y.num < max_canif_num) (pre ++ (x ∷ post))
    → Apart num_of (pre ++ (x ∷ post))
    → find_index (x.num + 1) (pre ++ (x ∷ post)) ≡ some x
unfolding find_index get_index
find_index-split [] x post small apart = ground (arith, small.0)
find_index-split (y ∷ pre) x post small apart =
    let other : x.num ≢ y.num = (All-remove (λ u. u.num ≢ y.num) pre x post apart.0).0 in
    let miss : (x.num + 1 == (y.num + 1) % 256) ≡ false = ground (arith, small.0, other) in
    rw miss (find_index-split pre x post small.1 apart.1)

-- Where the numbers of the interfaces are below 254 and distinct, the interfaces are distinct and
-- at most 254, and the next number to try is below 254, every interface is found by its index.
pub get_by_index-get_index :
    (pre : List Canif) (x : Canif) (post : List Canif) (s : Registry)
    → IsValid s
    → s.list ≡ pre ++ (x ∷ post)
    → get_by_index (get_index (some x)) s.list ≡ some x
unfolding get_by_index get_index
get_by_index-get_index pre x post s v split =
    let small = rw split at v.small in
    let mine = (All-remove (λ y. y.num < max_canif_num) pre x post small).0 in
    let index : (x.num + 1) % 256 ≡ x.num + 1 = omega (arith, mine) in
    let some_index : (x.num + 1 == 0) ≡ false = ground arith in
    rw (index, split, some_index) (find_index-split pre x post small (rw split at v.nums))
