-- ===== src/Timeouts/Tests.antt =====
-- Two pending timeouts across the wrap of the clock: one is due at 4294967290, one at 5.
use lwcan.Common.{ℕ, ◌≡◌, ◌⊎◌, refl, none, some, List, ◌∷◌, [], arith, All, true, replicate}
use lwcan.Pool.{Layout, malloc, taken}
use lwcan.Timeouts.{
  Timeout, Timers, out_flow_output, input_error_handler, timeout, untimeout, timeouts_handler,
  timeouts_init, done, time_less_than,
}
use lwcan.Timeouts.Order.{IsOrdered, entry, split_at, timeout-split_at}
use lwcan.Timeouts.Untimeout.{untimeout-timeout}
use lwcan.Timeouts.Chunks.{IsValid}
use lwcan.Timeouts.Calls.{Call, start, stop, expire, run_timers, run_timers-IsValid}
use lwcan.Timeouts.Expiry.{Calls, timeouts_handler_done}

abbrev layout : Layout
layout = record { begin_addr = 1000; chunk_size = 20 }

abbrev base : ℕ
base = 4294967280

abbrev late : Timeout
late = record { addr = 1000; time = 4294967290; handler = input_error_handler; arg = 600 }

abbrev later : Timeout
later = record { addr = 1020; time = 5; handler = out_flow_output; arg = 600 }

abbrev timers : Timers
timers = record { pool = taken ∷ taken ∷ replicate 8 0; queue = late ∷ later ∷ [] }

abbrev timers-IsOrdered : IsOrdered base timers.queue
timers-IsOrdered =
    ((omega arith, ground arith), (ground arith, tt), ((omega arith, ground arith), tt, tt))

abbrev timers-IsValid : IsValid layout timers
timers-IsValid = record {
  small = record { chunk_pos = omega arith; fits = omega arith };
  held = ((0, omega arith, refl, refl), ((1, omega arith, refl, refl), tt));
  distinct = ((λ e. omega (arith, e), tt), (tt, tt));
}

timeout-split_at_example :
    ((addr : ℕ) × (pool : List ℕ) × (malloc layout timers.pool ≡ (some addr, pool))
      × (timeout layout 4294967285 12 out_flow_output 640 timers ≡ record {
        pool = pool;
        queue = split_at base (entry addr 4294967285 12 out_flow_output 640) timers.queue;
      }))
    ⊎ (((malloc layout timers.pool).0 ≡ none)
        × (timeout layout 4294967285 12 out_flow_output 640 timers ≡ timers))
timeout-split_at_example =
    timeout-split_at layout base 4294967285 12 out_flow_output 640 timers (omega arith)
      (omega arith, ground arith) timers-IsOrdered

untimeout-timeout_example :
    untimeout layout out_flow_output 640 (timeout layout 4294967285 12 out_flow_output 640 timers)
    ≡ timers
untimeout-timeout_example =
    untimeout-timeout layout 4294967285 12 out_flow_output 640 timers timers-IsValid.small
      (refl, (refl, tt))

-- A program whose handlers do nothing
abbrev calls : Calls base 2 (λ s. s) (λ t s. t) (λ h arg s. some s)
calls = record { get-put = λ t s. refl; returns = λ h arg s o. (s, refl, o, omega arith) }

timeouts_handler_done_example :
    (s : Timers) × (timeouts_handler layout (λ s. s) (λ t s. t) (λ h arg s. some s) 2 2 timers
      ≡ done s)
    × All (λ t. time_less_than 2 t.time ≡ true) s.queue
timeouts_handler_done_example =
    timeouts_handler_done layout base 2 (λ s. s) (λ t s. t) (λ h arg s. some s) calls 2 timers
      (omega arith) (omega arith, ground arith) timers-IsOrdered (omega arith)

abbrev some_calls : List Call
some_calls =
    start 100 5 out_flow_output 600
    ∷ start 101 1000 input_error_handler 600
    ∷ stop input_error_handler 600
    ∷ expire 105
    ∷ []

run_timers-IsValid_example : IsValid layout (run_timers layout some_calls (timeouts_init 10))
run_timers-IsValid_example = run_timers-IsValid layout 10 some_calls (omega arith) (omega arith)
