-- ===== src/Timeouts/Order.antt =====
-- The order of the list of src/timeouts.c. Times wrap at 2 ^ 32, so they are compared from a base
-- `b` in the past: all that are less than 2 ^ 31 after it are ordered by how long after it they are.
use lwcan.Common.{
  ℕ, ◌+◌, ◌%◌, ◌^◌, ◌≤◌, ◌<◌, ◌≡◌, ◌⊎◌, refl, sym, ap, inl, inr, Bool, true, false, not, none, some,
  List, [], ◌∷◌, ◌++◌, arith, ltb, ltb→lt, if◌then◌else◌, All, Bool-cases,
}
use lwcan.Common.Bytes.{sub32}
use lwcan.Pool.{Layout, malloc}
use lwcan.Pool.Laws.{malloc-cases}
use lwcan.Timeouts.{
  Timeout, Timers, Handler, time_less_than, max_timeout, insert_behind, enqueue, timeout,
}

-- How long after `b` the time `t` is.
abbrev pub since : ℕ → ℕ → ℕ
since b t = sub32 t b

-- `t` is less than 2 ^ 31 ms after `b`.
abbrev pub InWindow : ℕ → ℕ → Type 0
InWindow b t = (t < 2 ^ 32) × (since b t ≤ max_timeout)

-- Every entry is in the window, and none is before the one ahead of it.
abbrev pub IsOrdered : ℕ → List Timeout → Type 0
IsOrdered b [] = Unit {0}
IsOrdered b (t ∷ rest) =
    InWindow b t.time × All (λ u. since b t.time ≤ since b u.time) rest × IsOrdered b rest

-- In the window the macro compares the distances from the base.
pub time_less_than-since :
    (b t u : ℕ)
    → b < 2 ^ 32
    → InWindow b t
    → InWindow b u
    → time_less_than t u ≡ ltb (since b t) (since b u)
time_less_than-since b t u hb ht hu = ground arith

pub select : (Timeout → Bool) → List Timeout → List Timeout
select p [] = []
select p (t ∷ rest) = if p t then t ∷ select p rest else select p rest

-- The entries after the new one.
pub after : ℕ → Timeout → Timeout → Bool
after b new t = ltb (since b new.time) (since b t.time)

-- The new entry behind all that are not after it, in front of those that are.
pub split_at : ℕ → Timeout → List Timeout → List Timeout
split_at b new q = select (λ t. not (after b new t)) q ++ (new ∷ select (after b new) q)

module _ (b : ℕ) (new : Timeout) where
  split_at-nil : split_at b new [] ≡ new ∷ []
  unfolding split_at select
  split_at-nil = refl

  -- Where all entries are after the new one, none is selected as not after it.
  select_whole :
      (d : ℕ) (q : List Timeout)
      → since b new.time < d
      → All (λ u. d ≤ since b u.time) q
      → (select (after b new) q ≡ q) × (select (λ t. not (after b new t)) q ≡ [])
  unfolding select after
  select_whole d [] h a = (refl, refl)
  select_whole d (t ∷ rest) h a = ground (arith, select_whole d rest h a.1)

  after-lt : (q : Timeout) → after b new q ≡ true → since b new.time < since b q.time
  unfolding after
  after-lt q h = ltb→lt _ _ h

  after-le : (q : Timeout) → after b new q ≡ false → since b q.time ≤ since b new.time
  unfolding after
  after-le q h = ground arith

  split_at-first :
      (q : Timeout) (rest : List Timeout)
      → IsOrdered b (q ∷ rest)
      → after b new q ≡ true
      → split_at b new (q ∷ rest) ≡ new ∷ q ∷ rest
  unfolding split_at
  split_at-first q rest o h =
      let e = select_whole (since b q.time) (q ∷ rest) (after-lt q h) (omega arith, o.1) in
      rw (e.0, e.1)

  split_at-cons :
      (q : Timeout) (rest : List Timeout)
      → after b new q ≡ false
      → split_at b new (q ∷ rest) ≡ q ∷ split_at b new rest
  unfolding split_at select
  split_at-cons q rest h = rw h

module _ (b : ℕ) (new : Timeout) (hb : b < 2 ^ 32) (hn : InWindow b new.time) where
  less-after : (q : Timeout) → InWindow b q.time → time_less_than new.time q.time ≡ after b new q
  unfolding after
  less-after q h = time_less_than-since b new.time q.time hb hn h

  insert_behind-split_at :
      (q : Timeout) (rest : List Timeout)
      → IsOrdered b (q ∷ rest)
      → after b new q ≡ false
      → insert_behind new q rest ≡ split_at b new (q ∷ rest)
  unfolding insert_behind
  insert_behind-split_at q [] o h = rw (split_at-cons b new q [] h, split_at-nil b new)
  insert_behind-split_at q (r ∷ rest) o h = elim (Bool-cases (after b new r)) [
    | inl p ↦ rw (
      split_at-cons b new q (r ∷ rest) h,
      less-after r o.2.0,
      p,
      split_at-first b new r rest o.2 p,
    )
    | inr p ↦
        rw (split_at-cons b new q (r ∷ rest) h, less-after r o.2.0, p)
          (ap (λ l. q ∷ l) (insert_behind-split_at r rest o.2 p))
  ]

  -- The new entry goes behind all that are due no later, and before all that are due later.
  pub enqueue-split_at : (q : List Timeout) → IsOrdered b q → enqueue new q ≡ split_at b new q
  unfolding enqueue
  enqueue-split_at [] o = sym (split_at-nil b new)
  enqueue-split_at (q ∷ rest) o = elim (Bool-cases (after b new q)) [
    | inl p ↦ rw (less-after q o.0, p, split_at-first b new q rest o p)
    | inr p ↦ rw (less-after q o.0, p) (insert_behind-split_at q rest o p)
  ]

  All-split_at :
      (d : ℕ) (q : List Timeout)
      → d ≤ since b new.time
      → IsOrdered b q
      → All (λ u. d ≤ since b u.time) q
      → All (λ u. d ≤ since b u.time) (split_at b new q)
  All-split_at d [] h o a = rw (split_at-nil b new) (h, tt)
  All-split_at d (t ∷ rest) h o a = elim (Bool-cases (after b new t)) [
    | inl p ↦ rw (split_at-first b new t rest o p) (h, a)
    | inr p ↦ rw (split_at-cons b new t rest p) (a.0, All-split_at d rest h o.2 a.1)
  ]

  before_every :
      (d e : ℕ) (q : List Timeout)
      → e ≤ d
      → All (λ u. d ≤ since b u.time) q
      → All (λ u. e ≤ since b u.time) q
  before_every d e [] h a = tt
  before_every d e (t ∷ rest) h a = (omega (arith, a.0), before_every d e rest h a.1)

  IsOrdered-split_at : (q : List Timeout) → IsOrdered b q → IsOrdered b (split_at b new q)
  IsOrdered-split_at [] o = rw (split_at-nil b new) (hn, tt, tt)
  IsOrdered-split_at (q ∷ rest) o = elim (Bool-cases (after b new q)) [
    | inl p ↦
        let lt = after-lt b new q p in
        rw (split_at-first b new q rest o p) (
          hn,
          (
            omega (arith, lt),
            before_every (since b q.time) (since b new.time) rest (omega (arith, lt)) o.1,
          ),
          o,
        )
    | inr p ↦ rw (split_at-cons b new q rest p) (
      o.0,
      All-split_at (since b q.time) rest (after-le b new q p) o.2 o.1,
      IsOrdered-split_at rest o.2,
    )
  ]

  pub enqueue-IsOrdered : (q : List Timeout) → IsOrdered b q → IsOrdered b (enqueue new q)
  enqueue-IsOrdered q o = rw (enqueue-split_at q o) (IsOrdered-split_at q o)

-- The entry that `lwcan_timeout` makes of a chunk.
abbrev pub entry : ℕ → ℕ → ℕ → Handler → ℕ → Timeout
entry addr now time_ms handler arg = record {
  addr = addr;
  time = (now + time_ms) % 2 ^ 32;
  handler = handler;
  arg = arg;
}

pub timeout_registers :
    (l : Layout) (now time_ms : ℕ) (handler : Handler) (arg : ℕ) (s : Timers) {addr : ℕ}
    {pool : List ℕ}
    → malloc l s.pool ≡ (some addr, pool)
    → timeout l now time_ms handler arg s
      ≡ record { pool = pool; queue = enqueue (entry addr now time_ms handler arg) s.queue }
unfolding timeout
timeout_registers l now time_ms handler arg s e = rw (e, timeout)

-- Where it finds none, nothing is registered.
pub timeout_dropped :
    (l : Layout) (now time_ms : ℕ) (handler : Handler) (arg : ℕ) (s : Timers) {pool : List ℕ}
    → malloc l s.pool ≡ (none, pool)
    → timeout l now time_ms handler arg s ≡ s
unfolding timeout
timeout_dropped l now time_ms handler arg s e = rw (e, timeout)

-- Where the times are within 2 ^ 31 ms from a base and the list is ordered, registering a timeout
-- either finds a chunk and puts the entry behind all that are due no later and in front of all
-- that are due later, or finds none and changes nothing.
pub timeout-split_at :
    (l : Layout) (b now time_ms : ℕ) (handler : Handler) (arg : ℕ) (s : Timers)
    → b < 2 ^ 32
    → InWindow b ((now + time_ms) % 2 ^ 32)
    → IsOrdered b s.queue
    → ((addr : ℕ) × (pool : List ℕ) × (malloc l s.pool ≡ (some addr, pool))
        × (timeout l now time_ms handler arg s ≡ record {
          pool = pool;
          queue = split_at b (entry addr now time_ms handler arg) s.queue;
        }))
      ⊎ (((malloc l s.pool).0 ≡ none) × (timeout l now time_ms handler arg s ≡ s))
timeout-split_at l b now time_ms handler arg s hb hn o = elim (malloc-cases l s.pool) [
  | inl (pool, e) ↦ inr (rw e, timeout_dropped l now time_ms handler arg s e)
  | inr (addr, pool, e) ↦ inl (
    addr,
    pool,
    e,
    rw (
      timeout_registers l now time_ms handler arg s e,
      enqueue-split_at b (entry addr now time_ms handler arg) hb hn s.queue o,
    ),
  )
]

-- Where the times are within 2 ^ 31 ms from a base, registering a timeout keeps the list ordered.
pub timeout-IsOrdered :
    (l : Layout) (b now time_ms : ℕ) (handler : Handler) (arg : ℕ) (s : Timers)
    → b < 2 ^ 32
    → InWindow b ((now + time_ms) % 2 ^ 32)
    → IsOrdered b s.queue
    → IsOrdered b (timeout l now time_ms handler arg s).queue
unfolding timeout
timeout-IsOrdered l b now time_ms handler arg s hb hn o = elim (malloc-cases l s.pool) [
  | inl (pool, e) ↦ rw (timeout_dropped l now time_ms handler arg s e) o
  | inr (addr, pool, e) ↦
      rw (timeout_registers l now time_ms handler arg s e)
        (enqueue-IsOrdered b (entry addr now time_ms handler arg) hb hn s.queue o)
]
