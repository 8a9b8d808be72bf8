-- ===== src/Pool.antt =====
-- The pools of fixed-size chunks in src/timeouts.c (`timeout_malloc`, `timeout_free`), which
-- src/isotp.c and src/raw.c repeat for their control blocks. A pool is its service bytes, one to
-- a chunk; where it starts and how large a chunk is depend on the target, and are a `Layout`.
pub mod Laws
pub mod Owners
pub mod Slots
pub mod Calls
pub mod Aliasing
pub mod Filling
mod Tests
use mathlib.Core.Option
use lwcan.Common.{
  ℕ, suc, ◌+◌, ◌-◌, ◌*◌, ◌/◌, ◌%◌, ◌||◌, Option, none, some, List, [], ◌∷◌, ltb, ◌==◌,
  if◌then◌else◌, length, set,
}

pub record Layout : Type 0 where
  pub begin_addr : ℕ
  pub chunk_size : ℕ

abbrev pub taken : ℕ
taken = 0xaa

-- The index of the first free chunk.
unfoldable pub scan : List ℕ → Option ℕ
scan [] = none
scan (f ∷ fs) = if f == 0 then some 0 else Option.map suc (scan fs)

-- The pointer is `none` for NULL.
unfoldable pub malloc : Layout → List ℕ → Option ℕ × List ℕ
malloc l flags = elim (scan flags) [
  | none ↦ (none, flags)
  | some i ↦ (some (l.begin_addr + i * l.chunk_size), set flags i taken)
]

-- `addr` is a `uint8_t`.
unfoldable pub free : Layout → Option ℕ → List ℕ → List ℕ
free l none flags = flags
free l (some mem) flags =
    if ltb mem l.begin_addr || ltb (l.begin_addr + l.chunk_size * length flags - 1) mem
    then flags
    else (let addr = (mem - l.begin_addr) % 256 in
        if addr % l.chunk_size == 0 then set flags (addr / l.chunk_size) 0 else flags)
