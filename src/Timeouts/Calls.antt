-- ===== src/Timeouts/Calls.antt =====
-- src/timeouts.c: any sequence of registrations, cancellations and expiries.
use lwcan.Common.{
  ℕ, ◌<◌, ◌≤◌, ◌*◌, inl, inr, Option, none, some, List, [], ◌∷◌, length-replicate, Option-cases,
}
use lwcan.Pool.{Layout}
use lwcan.Timeouts.{Timeout, Timers, Handler, timeouts_init, timeout, untimeout, take_expired}
use lwcan.Timeouts.Chunks.{IsValid, timeout-IsValid, untimeout-IsValid, take_expired-IsValid}

-- A call, at a time where it needs one
pub data Call : Type 0 where
  start : ℕ → ℕ → Handler → ℕ → Call
  stop : Handler → ℕ → Call
  expire : ℕ → Call

module _ (l : Layout) where
  -- What an expiry leaves, whether or not an entry was due
  pub rest_of : Timers → Option (Timeout × Timers) → Timers
  rest_of s none = s
  rest_of s (some (t, rest)) = rest

  pub on_call : Call → Timers → Timers
  unfolding rest_of
  on_call (start now time_ms handler arg) s = timeout l now time_ms handler arg s
  on_call (stop handler arg) s = untimeout l handler arg s
  on_call (expire now) s = rest_of s (take_expired l now s)

  pub run_timers : List Call → Timers → Timers
  run_timers [] s = s
  run_timers (call ∷ calls) s = run_timers calls (on_call call s)

  on_call-IsValid : (call : Call) (s : Timers) → IsValid l s → IsValid l (on_call call s)
  unfolding on_call rest_of
  on_call-IsValid (start now time_ms handler arg) s v =
      timeout-IsValid l now time_ms handler arg s v
  on_call-IsValid (stop handler arg) s v = untimeout-IsValid l handler arg s v
  on_call-IsValid (expire now) s v = elim (Option-cases (take_expired l now s)) [
    | inl e ↦ rw (e, rest_of) v
    | inr (r, e) ↦ rw (e, rest_of) (take_expired-IsValid l now s e v)
  ]

  run_timers-from : (calls : List Call) (s : Timers) → IsValid l s → IsValid l (run_timers calls s)
  unfolding run_timers
  run_timers-from [] s v = v
  run_timers-from (call ∷ calls) s v =
      run_timers-from calls (on_call call s) (on_call-IsValid call s v)

  pub timeouts_init-IsValid :
      (timeouts_num : ℕ)
      → 0 < l.chunk_size
      → l.chunk_size * timeouts_num ≤ 256
      → IsValid l (timeouts_init timeouts_num)
  unfolding timeouts_init
  timeouts_init-IsValid timeouts_num chunk_pos fits = record {
    small = record {
      chunk_pos = chunk_pos;
      fits = rw (length-replicate {A = ℕ} timeouts_num 0) fits;
    };
    held = tt;
    distinct = tt;
  }

  -- Where a chunk is not empty and the pool is at most 256 bytes long, any sequence of
  -- registrations, cancellations and expiries from the initialised list on keeps it so that each
  -- entry owns a chunk marked as taken, and that no two entries own the same chunk.
  pub run_timers-IsValid :
      (timeouts_num : ℕ) (calls : List Call)
      → 0 < l.chunk_size
      → l.chunk_size * timeouts_num ≤ 256
      → IsValid l (run_timers calls (timeouts_init timeouts_num))
  run_timers-IsValid timeouts_num calls chunk_pos fits =
      run_timers-from calls (timeouts_init timeouts_num)
        (timeouts_init-IsValid timeouts_num chunk_pos fits)
