-- ===== src/Timeouts/Filling.antt =====
-- src/timeouts.c: registrations one after the other, while the pool has chunks.
use lwcan.Common.{
  ℕ, zero, suc, ◌+◌, ◌≤◌, ◌≡◌, refl, ap, ◌∙◌, some, List, [], ◌∷◌, arith, length, Bool-cases, inl,
  inr,
}
use lwcan.Pool.{Layout, malloc}
use lwcan.Pool.Laws.{chunk_addr}
use lwcan.Pool.Filling.{used, malloc-used}
use lwcan.Timeouts.{
  Timeout, Timers, Handler, timeout, timeouts_init, enqueue, insert_behind, register,
  time_less_than,
}

length-insert_behind :
    (new q : Timeout) (rest : List Timeout)
    → length (insert_behind new q rest) ≡ suc (suc (length rest))
unfolding insert_behind
length-insert_behind new q [] = refl
length-insert_behind new q (r ∷ rest) = elim (Bool-cases (time_less_than new.time r.time)) [
  | inl less ↦ rw less refl
  | inr more ↦ rw more (ap suc (length-insert_behind new r rest))
]

length-enqueue :
    (new : Timeout) (queue : List Timeout) → length (enqueue new queue) ≡ suc (length queue)
unfolding enqueue
length-enqueue new [] = refl
length-enqueue new (q ∷ rest) = elim (Bool-cases (time_less_than new.time q.time)) [
  | inl less ↦ rw less refl
  | inr more ↦ rw more (length-insert_behind new q rest)
]

-- A registration: the time, the delay, the handler and its argument
abbrev pub Request : Type 0
Request = ℕ × ℕ × Handler × ℕ

module _ (l : Layout) where
  unfoldable pub start_all : List Request → Timers → Timers
  start_all [] s = s
  start_all ((now, time_ms, handler, arg) ∷ rest) s =
      start_all rest (timeout l now time_ms handler arg s)

  timeout-used :
      (now time_ms : ℕ) (handler : Handler) (arg : ℕ) (s : Timers) (k n : ℕ)
      → s.pool ≡ used k (suc n)
      → ((timeout l now time_ms handler arg s).pool ≡ used (suc k) n)
        × (length (timeout l now time_ms handler arg s).queue ≡ suc (length s.queue))
  unfolding timeout register
  timeout-used now time_ms handler arg s k n e =
      let got : malloc l s.pool ≡ (some (chunk_addr l k), used (suc k) n) =
        ap (malloc l) e ∙ malloc-used l k n in
      rw got (refl, length-enqueue _ s.queue)

  start_all-used :
      (rs : List Request) (s : Timers) (k n : ℕ)
      → s.pool ≡ used k n
      → length rs ≤ n
      → length (start_all rs s).queue ≡ length rs + length s.queue
  unfolding start_all
  start_all-used [] s k n e h = omega arith
  start_all-used (r ∷ rest) s k zero e h = absurd (omega arith)
  start_all-used ((now, time_ms, handler, arg) ∷ rest) s k (suc n) e h =
      let (pool, more) = timeout-used now time_ms handler arg s k n e in
      omega (
        arith,
        more,
        start_all-used rest (timeout l now time_ms handler arg s) (suc k) n pool (omega arith),
      )

  pub start_all-timeouts_init :
      (rs : List Request) (timeouts_num : ℕ)
      → length rs ≤ timeouts_num
      → length (start_all rs (timeouts_init timeouts_num)).queue ≡ length rs
  unfolding timeouts_init
  start_all-timeouts_init rs timeouts_num h =
      omega (arith, start_all-used rs (timeouts_init timeouts_num) 0 timeouts_num refl h)
