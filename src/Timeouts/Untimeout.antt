-- ===== src/Timeouts/Untimeout.antt =====
-- `lwcan_untimeout` in src/timeouts.c.
use lwcan.Common.{
  ℕ, ◌≡◌, refl, ap, ◌∙◌, ◌⊎◌, inl, inr, true, false, none, some, List, [], ◌∷◌, ◌++◌, arith, All,
  Bool-cases,
}
use lwcan.Pool.{Layout, free}
use lwcan.Pool.Laws.{IsSmall, free-malloc, malloc-cases}
use lwcan.Timeouts.Order.{timeout_dropped, timeout_registers, entry}
use lwcan.Timeouts.{
  Timeout, Timers, Handler, is_for, unlink, untimeout, take_expired, timeout, enqueue,
  insert_behind, time_less_than,
}

-- The list is searched from the front, and one entry at most is taken out.
abbrev pub Unlinks : Handler → ℕ → List Timeout → Type 0
Unlinks handler arg q =
    ((unlink handler arg q ≡ none) × All (λ t. is_for handler arg t ≡ false) q)
    ⊎ ((t : Timeout) × (pre : List Timeout) × (post : List Timeout) × (unlink handler arg q
          ≡ some (t, pre ++ post))
        × (q ≡ pre ++ (t ∷ post))
        × (is_for handler arg t ≡ true)
        × All (λ u. is_for handler arg u ≡ false) pre)

pub unlink-Unlinks : (handler : Handler) (arg : ℕ) (q : List Timeout) → Unlinks handler arg q
unfolding unlink
unlink-Unlinks handler arg [] = inl (refl, tt)
unlink-Unlinks handler arg (t ∷ rest) = elim (Bool-cases (is_for handler arg t)) [
  | inl hit ↦ inr (t, [], rest, rw hit, refl, hit, tt)
  | inr miss ↦ elim (unlink-Unlinks handler arg rest) [
    | inl (e, a) ↦ inl (rw (miss, e), (miss, a))
    | inr (u, pre, post, e, split, hit, a) ↦
        inr (u, t ∷ pre, post, rw (miss, e), ap (λ l. t ∷ l) split, hit, (miss, a))
  ]
]

unlink-none :
    (handler : Handler) (arg : ℕ) (q : List Timeout)
    → All (λ t. is_for handler arg t ≡ false) q
    → unlink handler arg q ≡ none
unfolding unlink
unlink-none handler arg [] a = refl
unlink-none handler arg (t ∷ rest) a = rw (a.0, unlink-none handler arg rest a.1)

-- Behind entries of other handlers, a new entry is found again and the rest is as before.
unlink-insert_behind :
    (handler : Handler) (arg : ℕ) (new q : Timeout) (rest : List Timeout)
    → is_for handler arg new ≡ true
    → All (λ t. is_for handler arg t ≡ false) (q ∷ rest)
    → unlink handler arg (insert_behind new q rest) ≡ some (new, q ∷ rest)
unfolding unlink insert_behind
unlink-insert_behind handler arg new q [] h a = rw (a.0, h)
unlink-insert_behind handler arg new q (r ∷ rest) h a =
    elim (Bool-cases (time_less_than new.time r.time)) [
      | inl p ↦ rw (p, a.0, h)
      | inr p ↦ rw (p, a.0, unlink-insert_behind handler arg new r rest h a.1)
    ]

unlink-first :
    (handler : Handler) (arg : ℕ) (new : Timeout) (q : List Timeout)
    → is_for handler arg new ≡ true
    → unlink handler arg (new ∷ q) ≡ some (new, q)
unfolding unlink
unlink-first handler arg new q h = rw h

unlink-enqueue :
    (handler : Handler) (arg : ℕ) (new : Timeout) (q : List Timeout)
    → is_for handler arg new ≡ true
    → All (λ t. is_for handler arg t ≡ false) q
    → unlink handler arg (enqueue new q) ≡ some (new, q)
unfolding enqueue
unlink-enqueue handler arg new [] h a = unlink-first handler arg new [] h
unlink-enqueue handler arg new (q ∷ rest) h a = elim (Bool-cases (time_less_than new.time q.time)) [
  | inl p ↦ rw p (unlink-first handler arg new (q ∷ rest) h)
  | inr p ↦ rw p (unlink-insert_behind handler arg new q rest h a)
]

is_for_self :
    (handler : Handler) (t : Timeout) → t.handler ≡ handler → is_for handler t.arg t ≡ true
is_for_self handler t e = rw e (ground arith)

-- Where the pool is at most 256 bytes long and no entry has the handler and the argument,
-- registering a timeout for them and cancelling it leaves the list and the pool as they were,
-- whether or not a chunk was free.
pub untimeout-timeout :
    (l : Layout) (now time_ms : ℕ) (handler : Handler) (arg : ℕ) (s : Timers)
    → IsSmall l s.pool
    → All (λ t. is_for handler arg t ≡ false) s.queue
    → untimeout l handler arg (timeout l now time_ms handler arg s) ≡ s
unfolding untimeout timeout
untimeout-timeout l now time_ms handler arg s small a = elim (malloc-cases l s.pool) [
  | inl (pool, e) ↦
      ap (untimeout l handler arg) (timeout_dropped l now time_ms handler arg s e)
      ∙ rw (unlink-none handler arg s.queue a, untimeout)
  | inr (addr, pool, e) ↦
      let new : Timeout = entry addr now time_ms handler arg in
      ap (untimeout l handler arg) (timeout_registers l now time_ms handler arg s e)
      ∙ rw (
        unlink-enqueue handler arg new s.queue (is_for_self handler new refl) a,
        untimeout,
        free-malloc l s.pool small e,
      )
]

-- Cancelling takes out the first entry of the handler and argument and frees its chunk, and every
-- other entry stays in its place; where there is none, nothing changes.
pub untimeout-first :
    (l : Layout) (handler : Handler) (arg : ℕ) (s : Timers)
    → (All (λ t. is_for handler arg t ≡ false) s.queue × (untimeout l handler arg s ≡ s))
      ⊎ ((t : Timeout) × (pre : List Timeout) × (post : List Timeout) × (s.queue
            ≡ pre ++ (t ∷ post))
          × (is_for handler arg t ≡ true)
          × All (λ u. is_for handler arg u ≡ false) pre
          × (untimeout l handler arg s
              ≡ record { pool = free l (some t.addr) s.pool; queue = pre ++ post }))
unfolding untimeout
untimeout-first l handler arg s = elim (unlink-Unlinks handler arg s.queue) [
  | inl (e, a) ↦ inl (a, rw (e, untimeout))
  | inr (t, pre, post, e, split, hit, a) ↦ inr (t, pre, post, split, hit, a, rw (e, untimeout))
]

take_expired-some_lem :
    (l : Layout) (now : ℕ) (pool : List ℕ) (q : List Timeout) {t : Timeout} {s' : Timers}
    → take_expired l now (record { pool = pool; queue = q }) ≡ some (t, s')
    → (rest : List Timeout) × (q ≡ t ∷ rest)
      × (s' ≡ record { pool = free l (some t.addr) pool; queue = rest })
      × (time_less_than now t.time ≡ false)
unfolding take_expired
take_expired-some_lem l now pool [] e = absurd (ground arith)
take_expired-some_lem l now pool (q ∷ rest) e = (rest, ground arith, ground arith, ground arith)

-- What expires is the first entry, and its chunk is freed.
pub take_expired-some :
    (l : Layout) (now : ℕ) (s : Timers) {t : Timeout} {s' : Timers}
    → take_expired l now s ≡ some (t, s')
    → (rest : List Timeout) × (s.queue ≡ t ∷ rest)
      × (s' ≡ record { pool = free l (some t.addr) s.pool; queue = rest })
      × (time_less_than now t.time ≡ false)
take_expired-some l now s e = take_expired-some_lem l now s.pool s.queue e
