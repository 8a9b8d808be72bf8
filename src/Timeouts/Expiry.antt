-- ===== src/Timeouts/Expiry.antt =====
-- The loop of `lwcan_timeouts_handler` in src/timeouts.c: how it ends, and that it does.
use lwcan.Common.{
  ℕ, zero, suc, ◌+◌, ◌^◌, ◌≤◌, ◌<◌, ◌≡◌, ap, inl, inr, true, Option, none, some, List, [], ◌∷◌, ◌∙◌,
  arith, All, if◌then◌else◌, Bool-cases, Option-cases, ◌==◌,
}
use lwcan.Pool.{Layout}
use lwcan.Timeouts.{
  Timeout, Timers, Handler, handler_addr, time_less_than, take_expired, fire, timeouts_handler,
  done,
}
use lwcan.Timeouts.Order.{since, InWindow, IsOrdered}
use lwcan.Timeouts.Untimeout.{take_expired-some}

-- How many entries have expired.
abbrev pub expired : ℕ → List Timeout → ℕ
expired now [] = 0
expired now (t ∷ rest) = (if time_less_than now t.time then 0 else 1) + expired now rest

-- In an ordered list whose first entry is not due, none is.
not_due_lem :
    (l : Layout) (b now : ℕ) (pool : List ℕ) (q : List Timeout)
    → b < 2 ^ 32
    → InWindow b now
    → IsOrdered b q
    → take_expired l now (record { pool = pool; queue = q }) ≡ none
    → All (λ t. time_less_than now t.time ≡ true) q
unfolding take_expired
not_due_lem l b now pool [] hb hn o e = tt
not_due_lem l b now pool (t ∷ rest) hb hn o e = (ground arith, later rest (ground arith) o.1 o.2)
  where
    later :
        (q : List Timeout)
        → time_less_than now t.time ≡ true
        → All (λ u. since b t.time ≤ since b u.time) q
        → IsOrdered b q
        → All (λ u. time_less_than now u.time ≡ true) q
    later [] h a o = tt
    later (u ∷ q) h a p = (ground arith, later q h a.1 p.2)

pub not_due :
    (l : Layout) (b now : ℕ) (s : Timers)
    → b < 2 ^ 32
    → InWindow b now
    → IsOrdered b s.queue
    → take_expired l now s ≡ none
    → All (λ t. time_less_than now t.time ≡ true) s.queue
not_due l b now s hb hn o e = not_due_lem l b now s.pool s.queue hb hn o e

-- What is asked of the program's state and of the handlers: the timers in the state can be
-- replaced, and a handler returns, keeps the list ordered, and adds no timeout that has expired.
pub record Calls (b now : ℕ) {S : Type 0} (get : S → Timers) (put : Timers → S → S)
    (call : Handler → ℕ → S → Option S) : Type 0 where
  pub get-put : (t : Timers) (s : S) → get (put t s) ≡ t
  pub returns :
      (h : Handler) (arg : ℕ) (s : S)
      → IsOrdered b (get s).queue
      → (s' : S) × (call h arg s ≡ some s')
        × IsOrdered b (get s').queue
        × (expired now (get s').queue ≤ expired now (get s).queue)

module _ (l : Layout) (b now : ℕ) {S : Type 0} (get : S → Timers) (put : Timers → S → S)
    (call : Handler → ℕ → S → Option S) (c : Calls b now get put call) where
  fire_lem :
      (t : Timeout) (s : S)
      → IsOrdered b (get s).queue
      → (s' : S) × (fire l get put call t s ≡ some s')
        × IsOrdered b (get s').queue
        × (expired now (get s').queue ≤ expired now (get s).queue)
  unfolding fire
  fire_lem t s o = elim (Bool-cases (handler_addr t.handler == 0)) [
    | inl e ↦ (s, rw e, o, omega arith)
    | inr e ↦ let r = c.returns t.handler t.arg s o in (r.0, rw e r.1, r.2, r.3)
  ]

  -- Where the times are within 2 ^ 31 ms from a base, the list is ordered, and a handler returns,
  -- keeps it so and adds no expired timeout, the loop of the timeouts handler ends within one
  -- iteration more than there are expired entries, and leaves no entry that has expired.
  pub timeouts_handler_done :
      (fuel : ℕ) (s : S)
      → b < 2 ^ 32
      → InWindow b now
      → IsOrdered b (get s).queue
      → expired now (get s).queue < fuel
      → (s' : S) × (timeouts_handler l get put call fuel now s ≡ done s')
        × All (λ t. time_less_than now t.time ≡ true) (get s').queue
  unfolding timeouts_handler
  timeouts_handler_done zero s hb hn o h = absurd (omega arith)
  timeouts_handler_done (suc fuel) s hb hn o h = elim (Option-cases (take_expired l now (get s))) [
    | inl e ↦ (s, rw (e, timeouts_handler), not_due l b now (get s) hb hn o e)
    | inr ((t, s₁), e) ↦
        let (rest, split, popped, due) = take_expired-some l now (get s) e in
        let ordered : IsOrdered b (t ∷ rest) = rw split at o in
        let queue : (get (put s₁ s)).queue ≡ rest =
          ap (λ (x : Timers). x.queue) (c.get-put s₁ s ∙ popped) in
        let (s₂, fired, o₂, fewer) = fire_lem t (put s₁ s) (rw queue (ordered.2)) in
        let counted : expired now (get s).queue ≡ 1 + expired now rest = rw (split, due) in
        let less : expired now (get s₂).queue ≤ expired now rest = rw queue at fewer in
        let r = timeouts_handler_done fuel s₂ hb hn o₂ (omega (arith, counted, less)) in
        (r.0, rw (e, timeouts_handler, fired) r.1, r.2)
  ]
