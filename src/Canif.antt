-- ===== src/Canif.antt =====
-- src/canif.c: the CAN interfaces. `canif_list` with its `next` pointers is a list.
-- Registry has the operations that change the list, Numbering and Registered what they keep.
pub mod Registry
pub mod Numbering
pub mod Registered
pub mod Again
mod Tests
use lwcan.Common.{ℕ, ◌+◌, ◌%◌, Option, none, some, List, [], ◌∷◌, ◌==◌, if◌then◌else◌}

-- `struct canif` at the address `addr`, with its four bytes of name. `set_bitrate` and
-- `set_filter` are the addresses of the driver's functions, or NULL.
pub record Canif : Type 0 where
  pub addr : ℕ
  pub num : ℕ
  pub name : List ℕ
  pub set_bitrate : Option ℕ
  pub set_filter : Option ℕ

-- The index of an interface, 0 for NULL
pub get_index : Option Canif → ℕ
get_index none = 0
get_index (some canif) = (canif.num + 1) % 256

pub find_index : ℕ → List Canif → Option Canif
unfolding get_index
find_index index [] = none
find_index index (c ∷ rest) = if index == get_index (some c) then some c else find_index index rest

unfoldable pub get_by_index : ℕ → List Canif → Option Canif
unfolding find_index
get_by_index index list = if index == 0 then none else find_index index list
