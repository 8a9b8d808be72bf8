-- ===== src/Timeouts.antt =====
-- src/timeouts.c: the list of timeouts, earliest first, over a pool of chunks.
-- `next_timeout` with its `next` pointers is a list; an entry keeps the address of its chunk.
-- `system_now()` is an argument, `now`. A function pointer is a `Handler`.
pub mod Order
pub mod Chunks
pub mod Untimeout
pub mod Expiry
pub mod Pending
pub mod Filling
pub mod Calls
mod Tests
use lwcan.Common.{
  ℕ, zero, suc, ◌+◌, ◌%◌, ◌^◌, Bool, true, false, ◌&&◌, Option, none, some, List, [], ◌∷◌, ltb,
  ◌==◌, if◌then◌else◌, replicate, ◌>>=◌,
}
use lwcan.Common.Bytes.{sub32}
use lwcan.Pool.{Layout, malloc, free}

-- The functions that the library registers, NULL, and those of its user.
pub data Handler : Type 0 where
  null out_flow_output in_flow_output output_error_handler input_error_handler : Handler
  p2_timer_handler p2_star_timer_handler s3_timer_handler connect_try : Handler
  other : ℕ → Handler

-- The address of a function: these are distinct.
abbrev pub handler_addr : Handler → ℕ
handler_addr null = 0
handler_addr out_flow_output = 1
handler_addr in_flow_output = 2
handler_addr output_error_handler = 3
handler_addr input_error_handler = 4
handler_addr p2_timer_handler = 5
handler_addr p2_star_timer_handler = 6
handler_addr s3_timer_handler = 7
handler_addr connect_try = 8
handler_addr (other n) = n + 9

-- `struct lwcan_timeout`
pub record Timeout : Type 0 where
  pub addr : ℕ
  pub time : ℕ
  pub handler : Handler
  pub arg : ℕ

-- `timeout_mem_pool`'s service bytes and `next_timeout`
pub record Timers : Type 0 where
  pub pool : List ℕ
  pub queue : List Timeout

abbrev pub max_timeout : ℕ
max_timeout = 0x7fffffff

-- TIME_LESS_THAN
abbrev pub time_less_than : ℕ → ℕ → Bool
time_less_than t compare_to = ltb max_timeout (sub32 t compare_to)

unfoldable pub timeouts_init : ℕ → Timers
timeouts_init timeouts_num = record { pool = replicate timeouts_num 0; queue = [] }

-- The walk of `lwcan_timeout`: behind the entry that is last, or whose successor is later.
pub insert_behind : Timeout → Timeout → List Timeout → List Timeout
insert_behind new q [] = q ∷ new ∷ []
insert_behind new q (r ∷ rest) =
    if time_less_than new.time r.time then q ∷ new ∷ r ∷ rest else q ∷ insert_behind new r rest

pub enqueue : Timeout → List Timeout → List Timeout
enqueue new [] = new ∷ []
enqueue new (q ∷ rest) =
    if time_less_than new.time q.time then new ∷ q ∷ rest else insert_behind new q rest

abbrev pub is_for : Handler → ℕ → Timeout → Bool
is_for handler arg t = (handler_addr t.handler == handler_addr handler) && (t.arg == arg)

-- The first entry of a handler and its argument, and the list without it.
pub unlink : Handler → ℕ → List Timeout → Option (Timeout × List Timeout)
unlink handler arg [] = none
unlink handler arg (t ∷ rest) =
    if is_for handler arg t
    then some (t, rest)
    else (unlink handler arg rest >>= λ r. some (r.0, t ∷ r.1))

-- How the loop of `lwcan_timeouts_handler` ends: `fault` is that of a handler.
pub data Run (S : Type 0) : Type 0 where
  done : S → Run S
  fault : Run S
  out_of_fuel : Run S

-- What `lwcan_timeout` does with the result of `timeout_malloc`.
pub register : ℕ → Handler → ℕ → Timers → Option ℕ × List ℕ → Timers
register time handler arg s (none, pool) = s
register time handler arg s (some addr, pool) = record {
  pool = pool;
  queue = enqueue (record { addr = addr; time = time; handler = handler; arg = arg }) s.queue;
}

module _ (l : Layout) where
  -- Where the pool is used up, nothing is registered.
  unfoldable pub timeout : ℕ → ℕ → Handler → ℕ → Timers → Timers
  unfolding enqueue insert_behind register
  timeout now time_ms handler arg s =
      register ((now + time_ms) % 2 ^ 32) handler arg s (malloc l s.pool)

  unfoldable pub untimeout : Handler → ℕ → Timers → Timers
  unfolding unlink
  untimeout handler arg s = elim (unlink handler arg s.queue) [
    | none ↦ s
    | some (t, rest) ↦ record { pool = free l (some t.addr) s.pool; queue = rest }
  ]

  -- The first entry, if it has expired, and the state without it.
  unfoldable pub take_expired : ℕ → Timers → Option (Timeout × Timers)
  take_expired now s = elim s.queue [
    | [] ↦ none
    | t ∷ rest ↦
        if time_less_than now t.time
        then none
        else some (t, record { pool = free l (some t.addr) s.pool; queue = rest })
  ]

  -- The state `S` of the program holds the timers, and `call` runs a handler.
  module _ {S : Type 0} (get : S → Timers) (put : Timers → S → S)
      (call : Handler → ℕ → S → Option S) where
    pub fire : Timeout → S → Option S
    fire t s = if handler_addr t.handler == 0 then some s else call t.handler t.arg s

    -- `lwcan_timeouts_handler`, for at most so many entries
    unfoldable pub timeouts_handler : ℕ → ℕ → S → Run S
    unfolding fire
    timeouts_handler zero now s = out_of_fuel
    timeouts_handler (suc fuel) now s = elim (take_expired now (get s)) [
      | none ↦ done s
      | some (t, rest) ↦ elim (fire t (put rest s)) [
        | none ↦ fault
        | some s' ↦ timeouts_handler fuel now s'
      ]
    ]
