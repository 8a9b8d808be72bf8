-- ===== src/Canif/Registry.antt =====
-- src/canif.c: registering an interface and removing one, its name, and the calls of its driver.
use lwcan.Common.{
  ℕ, zero, suc, ◌+◌, ◌-◌, ◌%◌, Bool, Option, none, some, List, [], ◌∷◌, ◌++◌, ltb, leb, ◌==◌, ◌||◌,
  ◌&&◌, true, length, replicate, if◌then◌else◌, ◌>>=◌,
}
use lwcan.Can.{LwcanErr, ok, arg, canif, canif_max, interface, is_ok}
use lwcan.Pool.Slots.{unlink_addr}
use lwcan.Canif.{Canif, get_index, get_by_index}

-- `canif_list`, and `canif_num`: the number that is tried first for the next interface
pub record Registry : Type 0 where
  pub list : List Canif
  pub canif_num : ℕ

abbrev pub max_canif_num : ℕ
max_canif_num = 254

abbrev pub name_size : ℕ
name_size = 4

abbrev pub addr_of : Canif → ℕ
addr_of c = c.addr

-- What `memset`, the name and the number make of the interface
abbrev pub new_canif : ℕ → List ℕ → ℕ → Canif
new_canif addr name num = record {
  addr = addr;
  num = num;
  name = name ++ replicate (name_size - length name) 0;
  set_bitrate = none;
  set_filter = none;
}

-- The list when the interface's own memory is written: where it is in the list already, its `next`
-- is NULL after `memset`.
unfoldable pub overwrite : Canif → List Canif → List Canif
overwrite c [] = []
overwrite c (x ∷ next) = if x.addr == c.addr then c ∷ [] else x ∷ overwrite c next

-- How the walk of `canif_add` for one number ends
pub data Walk : Type 0 where
  unused registered full clash : Walk

unfoldable pub walk : ℕ → ℕ → ℕ → List Canif → Walk
walk addr num num_canifs [] = unused
walk addr num num_canifs (x ∷ next) =
    if x.addr == addr
    then registered
    else (if leb max_canif_num ((num_canifs + 1) % 256)
        then full
        else (if x.num == num then clash else walk addr num ((num_canifs + 1) % 256) next))

abbrev pub wrapped : ℕ → ℕ
wrapped num = if num == max_canif_num then 0 else num

-- The loop of `canif_add`, for at most so many numbers: `none` is out of fuel.
unfoldable pub choose_num : ℕ → ℕ → ℕ → List Canif → Option (LwcanErr × ℕ)
unfolding walk
choose_num zero addr num list = none
choose_num (suc fuel) addr num list = elim (walk addr (wrapped num) 0 list) [
  | unused ↦ some (ok, wrapped num)
  | registered ↦ some (canif, wrapped num)
  | full ↦ some (canif_max, wrapped num)
  | clash ↦ choose_num fuel addr ((wrapped num + 1) % 256) list
]

-- Behind the loop: the interface in front of the list, and the number that is next
unfoldable pub link : Canif → List Canif → Registry → LwcanErr × ℕ → LwcanErr × Registry
unfolding overwrite
link c list s (ok, num) = (
  ok,
  record {
    list = record c { num = num } ∷ list;
    canif_num = if num == max_canif_num - 1 then 0 else (num + 1) % 256;
  },
)
link c list s (error, num) = (error, record s { list = overwrite (record c { num = num }) list })

-- `canif_add` behind the driver's `init`
unfoldable pub initialised : LwcanErr × Canif → Registry → Option (LwcanErr × Registry)
unfolding choose_num link
initialised (error, c) s =
    let list = overwrite c s.list in
    if is_ok error
    then (choose_num max_canif_num c.addr c.num list >>= λ r. some (link c list s r))
    else some (interface, record s { list = list })

-- A name is the string in front of its NUL.
unfoldable pub canif_add :
    Option ℕ
    → Option (List ℕ)
    → Option (Canif → LwcanErr × Canif)
    → Registry
    → Option (LwcanErr × Registry)
unfolding initialised
canif_add (some addr) (some name) (some init) s =
    if (length name == 0) || ltb name_size (length name)
    then some (arg, s)
    else initialised (init (new_canif addr name s.canif_num)) s
canif_add _ _ _ s = some (arg, s)

unfoldable pub canif_remove : Option ℕ → Registry → LwcanErr × Registry
unfolding unlink_addr
canif_remove none s = (arg, s)
canif_remove (some addr) s = elim (unlink_addr addr_of addr s.list) [
  | none ↦ (ok, s)
  | some rest ↦ (ok, record s { list = rest })
]

-- `memcmp` of two blocks from their starts: `none` is a read past the end of the second.
same_bytes : List ℕ → List ℕ → Option Bool
same_bytes [] ys = some true
same_bytes (x ∷ xs) [] = none
same_bytes (x ∷ xs) (y ∷ ys) = same_bytes xs ys >>= λ rest. some ((x == y) && rest)

find_name : List ℕ → List Canif → Option (Option Canif)
unfolding same_bytes
find_name name [] = some none
find_name name (c ∷ next) = do
  same ← same_bytes c.name name
  let rest = find_name name next
  if same then some (some c) else rest

-- `name` is the whole block of memory from the pointer on, with the NUL and what is behind it.
unfoldable get_by_name : Option (List ℕ) → List Canif → Option (Option Canif)
unfolding find_name
get_by_name none list = some none
get_by_name (some name) list = find_name name list

unfoldable name_to_index : Option (List ℕ) → List Canif → Option ℕ
name_to_index name list = get_by_name name list >>= λ c. some (get_index c)

abbrev pub get_name : Option Canif → Option (List ℕ)
get_name none = none
get_name (some c) = some c.name

unfoldable index_to_name : ℕ → List Canif → Option (List ℕ)
index_to_name index list = get_name (get_by_index index list)

-- The driver's functions, by their addresses
module _ {E Filter : Type 0} (bitrate_fn : ℕ → Canif → ℕ → E → LwcanErr × E)
    (filter_fn : ℕ → Canif → Filter → E → LwcanErr × E) where
  unfoldable canif_set_bitrate : Option Canif → ℕ → E → LwcanErr × E
  canif_set_bitrate none bitrate e = (arg, e)
  canif_set_bitrate (some c) bitrate e =
      if bitrate == 0
      then (arg, e)
      else elim c.set_bitrate [ none ↦ (canif, e) | some fn ↦ bitrate_fn fn c bitrate e ]

  unfoldable canif_set_filter : Option Canif → Option Filter → E → LwcanErr × E
  canif_set_filter (some c) (some filter) e = elim c.set_filter [
    | none ↦ (canif, e)
    | some fn ↦ filter_fn fn c filter e
  ]
  canif_set_filter _ _ e = (arg, e)
