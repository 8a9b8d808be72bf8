-- ===== src/Pool/Laws.antt =====
-- What `malloc` and `free` of a pool do, where the pool is at most 256 bytes long.
use native.Mathlib.Nat.{mul-div_cancel, mul-mod_left}
use lwcan.Common.{
  ℕ, zero, suc, ◌+◌, ◌-◌, ◌*◌, ◌/◌, ◌%◌, ◌≤◌, ◌<◌, ◌≡◌, ◌≢◌, ◌⊎◌, inl, inr, none, some, List, [],
  ◌∷◌, arith, length, get_elem?, set, All, ltb, ◌==◌, set-set_back, length-set, ◌||◌, true, false,
  Option-cases,
}
use lwcan.Pool.{Layout, taken, scan, malloc, free}

-- The bytes of the pool are numbered by a `uint8_t`.
pub record IsSmall (l : Layout) (flags : List ℕ) : Type 0 where
  pub chunk_pos : 0 < l.chunk_size
  pub fits : l.chunk_size * length flags ≤ 256

abbrev pub chunk_addr : Layout → ℕ → ℕ
chunk_addr l i = l.begin_addr + i * l.chunk_size

pub scan-none : (flags : List ℕ) → scan flags ≡ none → All (λ f. f ≢ 0) flags
unfolding scan
scan-none [] e = tt
scan-none (f ∷ fs) e = (ground arith, scan-none fs (ground arith))

pub scan-some :
    (flags : List ℕ) (i : ℕ)
    → scan flags ≡ some i
    → (i < length flags) × (get_elem? flags i ≡ some 0)
unfolding scan
scan-some [] i e = absurd (ground arith)
scan-some (f ∷ fs) zero e = (omega arith, ground arith)
scan-some (f ∷ fs) (suc i) e = ground (arith, scan-some fs i)

-- Distinct chunks have distinct addresses.
pub chunk_addr-injective :
    (l : Layout) (i j : ℕ) → 0 < l.chunk_size → chunk_addr l i ≡ chunk_addr l j → i ≡ j
chunk_addr-injective l i j h e = grind arith

pub offset-lt :
    (l : Layout) (n i : ℕ) → 0 < l.chunk_size → i < n → i * l.chunk_size < l.chunk_size * n
offset-lt l n i p h = grind arith

-- In a small pool `free` clears the service byte of the chunk that it is given.
pub free-chunk :
    (l : Layout) (flags : List ℕ) (i : ℕ)
    → IsSmall l flags
    → i < length flags
    → free l (some (chunk_addr l i)) flags ≡ set flags i 0
unfolding free
free-chunk l flags i s h = rw (below, addr_eq, whole, slot)
  where
    inside : i * l.chunk_size < l.chunk_size * length flags
    inside = offset-lt l (length flags) i s.chunk_pos h

    addr_eq : (chunk_addr l i - l.begin_addr) % 256 ≡ i * l.chunk_size
    addr_eq = omega (arith, s.fits, inside)

    whole : (i * l.chunk_size % l.chunk_size == 0) ≡ true
    whole = ground (arith, mul-mod_left i l.chunk_size)

    slot : i * l.chunk_size / l.chunk_size ≡ i
    slot = mul-div_cancel i s.chunk_pos

    below :
        (ltb (chunk_addr l i) l.begin_addr
          || ltb (l.begin_addr + l.chunk_size * length flags - 1) (chunk_addr l i))
        ≡ false
    below = ground (arith, inside)

pub IsSmall-set :
    {l : Layout} {flags : List ℕ} (i v : ℕ) → IsSmall l flags → IsSmall l (set flags i v)
IsSmall-set {l} {flags} i v s = record {
  chunk_pos = s.chunk_pos;
  fits = rw (length-set flags i v) s.fits;
}

-- Where a pool is at most 256 bytes long, freeing the chunk that malloc returned restores the pool
-- as it was.
pub free-malloc :
    (l : Layout) (flags : List ℕ) {mem : ℕ} {flags' : List ℕ}
    → IsSmall l flags
    → malloc l flags ≡ (some mem, flags')
    → free l (some mem) flags' ≡ flags
unfolding malloc
free-malloc l flags {mem} {flags'} s e = elim (Option-cases (scan flags)) [
  | inl p ↦ absurd (ground arith)
  | inr (i, p) ↦
      let got : (mem ≡ chunk_addr l i) × (flags' ≡ set flags i taken) = ground arith in
      let (bound, zero_flag) = scan-some flags i p in
      let bound' : i < length (set flags i taken) = rw (length-set flags i taken) bound in
      let cleared : free l (some (chunk_addr l i)) (set flags i taken)
          ≡ set (set flags i taken) i 0 =
        free-chunk l (set flags i taken) i (IsSmall-set i taken s) bound' in
      rw (got.0, got.1, cleared) (set-set_back flags i taken 0 zero_flag)
]

-- `malloc` finds a chunk or leaves the pool as it is.
pub malloc-cases :
    (l : Layout) (flags : List ℕ)
    → ((flags' : List ℕ) × (malloc l flags ≡ (none, flags')))
      ⊎ ((mem : ℕ) × (flags' : List ℕ) × (malloc l flags ≡ (some mem, flags')))
unfolding malloc
malloc-cases l flags = elim (Option-cases (scan flags)) [
  | inl e ↦ inl (flags, rw (e, malloc))
  | inr (i, e) ↦ inr (chunk_addr l i, set flags i taken, rw (e, malloc))
]

-- A chunk that malloc returns was free, is marked as taken, and the other chunks' marks stay.
pub malloc_some :
    (l : Layout) (flags : List ℕ) {mem : ℕ} {flags' : List ℕ}
    → malloc l flags ≡ (some mem, flags')
    → (i : ℕ) × (i < length flags)
      × (get_elem? flags i ≡ some 0)
      × (mem ≡ chunk_addr l i)
      × (flags' ≡ set flags i taken)
unfolding malloc
malloc_some l flags e = elim (Option-cases (scan flags)) [
  | inl p ↦ absurd (ground arith)
  | inr (i, p) ↦
      let (bound, zero_flag) = scan-some flags i p in
      (i, bound, zero_flag, ground arith, ground arith)
]
