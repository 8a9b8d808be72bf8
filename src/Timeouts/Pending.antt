-- ===== src/Timeouts/Pending.antt =====
-- src/timeouts.c: how many timeouts of a handler and an argument are pending, and what
-- `lwcan_timeout` and `lwcan_untimeout` make of that.
use lwcan.Common.{
  ℕ, ◌+◌, ◌-◌, ◌≤◌, ◌≡◌, refl, ap, Bool, true, false, List, [], ◌∷◌, ◌++◌, arith, All, ◌==◌, ◌&&◌,
  if◌then◌else◌, inl, inr, Bool-cases,
}
use lwcan.Pool.{Layout}
use lwcan.Pool.Laws.{malloc-cases}
use lwcan.Timeouts.{
  Timeout, Timers, Handler, handler_addr, is_for, timeout, untimeout, enqueue, insert_behind,
  time_less_than, register,
}
use lwcan.Timeouts.Untimeout.{unlink-Unlinks}

abbrev pub one_if : Bool → ℕ
one_if t = if t then 1 else 0

pub one_if_le : (t : Bool) → one_if t ≤ 1
one_if_le true = omega arith
one_if_le false = omega arith

abbrev pub pending : Handler → ℕ → List Timeout → ℕ
pending handler arg [] = 0
pending handler arg (t ∷ rest) = one_if (is_for handler arg t) + pending handler arg rest

-- Two registrations that are told apart
abbrev pub differ : Handler → ℕ → Handler → ℕ → Bool
differ handler arg handler' arg' = (handler_addr handler' == handler_addr handler) && (arg' == arg)

module _ (handler : Handler) (arg : ℕ) where
  pending-append :
      (pre post : List Timeout)
      → pending handler arg (pre ++ post) ≡ pending handler arg pre + pending handler arg post
  pending-append [] post = omega arith
  pending-append (t ∷ pre) post = omega (arith, pending-append pre post)

  pending-insert_behind :
      (new q : Timeout) (rest : List Timeout)
      → pending handler arg (insert_behind new q rest) ≡ pending handler arg (new ∷ q ∷ rest)
  unfolding insert_behind
  pending-insert_behind new q [] = omega arith
  pending-insert_behind new q (r ∷ rest) = elim (Bool-cases (time_less_than new.time r.time)) [
    | inl e ↦ rw e (omega arith)
    | inr e ↦ rw e (omega (arith, pending-insert_behind new r rest))
  ]

  pending-enqueue :
      (new : Timeout) (q : List Timeout)
      → pending handler arg (enqueue new q) ≡ pending handler arg (new ∷ q)
  unfolding enqueue
  pending-enqueue new [] = refl
  pending-enqueue new (q ∷ rest) = elim (Bool-cases (time_less_than new.time q.time)) [
    | inl e ↦ rw e refl
    | inr e ↦ rw e (pending-insert_behind new q rest)
  ]

  -- One is registered at most.
  pub pending-timeout :
      (l : Layout) (now time_ms : ℕ) (handler' : Handler) (arg' : ℕ) (s : Timers)
      → pending handler arg (timeout l now time_ms handler' arg' s).queue
        ≤ one_if (differ handler arg handler' arg') + pending handler arg s.queue
  unfolding timeout register
  pending-timeout l now time_ms handler' arg' s = elim (malloc-cases l s.pool) [
    | inl (pool, e) ↦ rw (e, timeout) (omega arith)
    | inr (addr, pool, e) ↦ rw (e, timeout) (omega (arith, pending-enqueue _ s.queue))
  ]

  pub pending-timeout_other :
      (l : Layout) (now time_ms : ℕ) (handler' : Handler) (arg' : ℕ) (s : Timers)
      → differ handler arg handler' arg' ≡ false
      → pending handler arg (timeout l now time_ms handler' arg' s).queue
        ≤ pending handler arg s.queue
  pending-timeout_other l now time_ms handler' arg' s apart =
      omega (arith, pending-timeout l now time_ms handler' arg' s, none_more)
    where
      none_more : one_if (differ handler arg handler' arg') ≡ 0
      none_more = rw apart refl

  pending-none :
      (q : List Timeout) → All (λ t. is_for handler arg t ≡ false) q → pending handler arg q ≡ 0
  pending-none [] a = refl
  pending-none (t ∷ rest) a = rw a.0 (omega (arith, pending-none rest a.1))

  -- The first is taken out.
  pub pending-untimeout :
      (l : Layout) (s : Timers)
      → pending handler arg (untimeout l handler arg s).queue ≡ pending handler arg s.queue - 1
  unfolding untimeout
  pending-untimeout l s = elim (unlink-Unlinks handler arg s.queue) [
    | inl (e, others) ↦ rw (e, untimeout) (omega (arith, pending-none s.queue others))
    | inr (t, pre, post, e, split, hit, others) ↦
        let one : one_if (is_for handler arg t) ≡ 1 = rw hit refl in
        rw (e, untimeout)
          (omega (
            arith,
            ap (pending handler arg) split,
            pending-append pre (t ∷ post),
            pending-append pre post,
            one,
          ))
  ]

  pub pending-untimeout_le :
      (l : Layout) (handler' : Handler) (arg' : ℕ) (s : Timers)
      → pending handler arg (untimeout l handler' arg' s).queue ≤ pending handler arg s.queue
  unfolding untimeout
  pending-untimeout_le l handler' arg' s = elim (unlink-Unlinks handler' arg' s.queue) [
    | inl (e, others) ↦ rw (e, untimeout) (omega arith)
    | inr (t, pre, post, e, split, hit, others) ↦
        rw (e, untimeout)
          (omega (
            arith,
            ap (pending handler arg) split,
            pending-append pre (t ∷ post),
            pending-append pre post,
          ))
  ]
