-- ===== src/Pool/Aliasing.antt =====
-- `uint8_t addr` in `timeout_free`, `isotp_pcb_free` and `canraw_pcb_free` when the pool is longer
-- than 256 bytes, as `timeout_mem_pool` is with ten chunks of 32 bytes (64-bit pointers).
use native.Mathlib.Nat.{mul-div_cancel, mul-mod_left}
use lwcan.Common.{
  ℕ, ◌+◌, ◌-◌, ◌*◌, ◌/◌, ◌%◌, ◌≤◌, ◌<◌, ◌≡◌, ap, some, List, arith, length, set, ltb, ◌==◌, ◌||◌,
  true, false,
}
use lwcan.Pool.{Layout, free}
use lwcan.Pool.Laws.{chunk_addr, offset-lt}

-- Where 256 bytes hold exactly k chunks and the pool has more, freeing chunk i of the second 256
-- bytes clears the mark of chunk i - k instead.
pub free-aliased :
    (l : Layout) (flags : List ℕ) (k i : ℕ)
    → 0 < l.chunk_size
    → l.chunk_size * k ≡ 256
    → k ≤ i
    → i < k + k
    → i < length flags
    → free l (some (chunk_addr l i)) flags ≡ set flags (i - k) 0
unfolding free
free-aliased l flags k i p e h h' bound = rw (below, addr_eq, whole, slot)
  where
    inside : i * l.chunk_size < l.chunk_size * length flags
    inside = offset-lt l (length flags) i p bound

    again : i ≡ i - k + k
    again = omega arith

    split : i * l.chunk_size ≡ (i - k) * l.chunk_size + 256
    split = omega (arith, e, ap (λ (t : ℕ). t * l.chunk_size) again)

    short : (i - k) * l.chunk_size < 256
    short = grind arith

    addr_eq : (chunk_addr l i - l.begin_addr) % 256 ≡ (i - k) * l.chunk_size
    addr_eq = omega (arith, split, short)

    whole : ((i - k) * l.chunk_size % l.chunk_size == 0) ≡ true
    whole = ground (arith, mul-mod_left (i - k) l.chunk_size)

    slot : (i - k) * l.chunk_size / l.chunk_size ≡ i - k
    slot = mul-div_cancel (i - k) p

    below :
        (ltb (chunk_addr l i) l.begin_addr
          || ltb (l.begin_addr + l.chunk_size * length flags - 1) (chunk_addr l i))
        ≡ false
    below = ground (arith, inside)
