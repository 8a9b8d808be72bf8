-- ===== src/Uds/Calm.antt =====
-- src/apps/uds/uds_client.c: which of the client's timers are pending in which state.
use lwcan.Common.{ℕ, ◌≤◌, ◌≡◌, refl, false, Option, none, some, List, arith}
use lwcan.Can.{LwcanErr}
use lwcan.Timeouts.{Timers, p2_timer_handler, p2_star_timer_handler, s3_timer_handler}
use lwcan.Timeouts.Pending.{
  pending, one_if, pending-timeout, pending-timeout_other, pending-untimeout, pending-untimeout_le,
}
use lwcan.Isotp.Types.{Ctx, Platform}
use lwcan.Uds.{
  UdsPhase, uds_idle, connecting, sending_request, wait_response, wait_segmented, response_pending,
  World, App, in_phase, set_phase,
}
use lwcan.Uds.Requests.{uds_timeout, uds_untimeout, then_idle, call_error, call_if}
use lwcan.Uds.Responses.{stop_response_timer, stop_receive_timer, call_positive, call_negative}

abbrev pub p2_pending : Timers → ℕ
p2_pending s = pending p2_timer_handler 0 s.queue

abbrev pub p2_star_pending : Timers → ℕ
p2_star_pending s = pending p2_star_timer_handler 0 s.queue

-- The P2 timer is pending while a response is awaited only, and once at most; the P2* timer while
-- one is announced.
abbrev pub Fits : UdsPhase → Timers → Type 0
Fits state s =
    (p2_pending s ≤ one_if (in_phase state wait_response))
    × (p2_star_pending s ≤ one_if (in_phase state response_pending))

-- The client is not connecting, and its timers fit its state.
pub record Calm {E : Type 0} (c : Ctx (World E)) : Type 0 where
  pub apart : in_phase c.ext.uds.state connecting ≡ false
  pub fits : Fits c.ext.uds.state c.timers

-- A callback leaves the client's state and the timers alone.
abbrev pub Same : {E : Type 0} → Ctx (World E) → Ctx (World E) → Type 0
Same c c' = (c'.timers ≡ c.timers) × (c'.ext.uds ≡ c.ext.uds)

pub record Quiet {E : Type 0} (a : App E) : Type 0 where
  pub connects :
      (fn arg : ℕ) (error : LwcanErr) (c : Ctx (World E))
      → (c' : Ctx (World E)) × (a.connect_fn fn arg error c ≡ some c') × Same c c'
  pub positive :
      (fn handle : ℕ) (payload : List ℕ) (size : ℕ) (c : Ctx (World E))
      → (c' : Ctx (World E)) × (a.positive_fn fn handle payload size c ≡ some c') × Same c c'
  pub negative :
      (fn handle sid nrc : ℕ) (c : Ctx (World E))
      → (c' : Ctx (World E)) × (a.negative_fn fn handle sid nrc c ≡ some c') × Same c c'
  pub error :
      (fn handle : ℕ) (error : LwcanErr) (c : Ctx (World E))
      → (c' : Ctx (World E)) × (a.error_fn fn handle error c ≡ some c') × Same c c'

-- A call that leaves the client in a state with fitting timers
abbrev pub Moves : {E : Type 0} → Option (Ctx (World E)) → UdsPhase → Type 0
Moves {E} called state =
    (c : Ctx (World E)) × (called ≡ some c) × (c.ext.uds.state ≡ state) × Fits state c.timers

module _ {E : Type 0} (p : Platform (World E)) where
  -- Once the timer of its state is cancelled, none is pending.
  pub stop-Fits :
      (s : UdsPhase) (c : Ctx (World E))
      → Fits s c.timers
      → Fits uds_idle (stop_response_timer p s c).timers
  stop-Fits wait_response c f = (
    omega (arith, f.0, pending-untimeout p2_timer_handler 0 p.layout c.timers),
    omega (
      arith,
      f.1,
      pending-untimeout_le p2_star_timer_handler 0 p.layout p2_timer_handler 0 c.timers,
    ),
  )
  stop-Fits response_pending c f = (
    omega (
      arith,
      f.0,
      pending-untimeout_le p2_timer_handler 0 p.layout p2_star_timer_handler 0 c.timers,
    ),
    omega (arith, f.1, pending-untimeout p2_star_timer_handler 0 p.layout c.timers),
  )
  stop-Fits uds_idle c f = f
  stop-Fits connecting c f = f
  stop-Fits sending_request c f = f
  stop-Fits wait_segmented c f = f

  -- `uds_receive` cancels the same timers while it is not connecting.
  pub stop_receive_lem :
      (s : UdsPhase) (c : Ctx (World E))
      → in_phase s connecting ≡ false
      → stop_receive_timer p s c ≡ stop_response_timer p s c
  stop_receive_lem uds_idle c e = refl
  stop_receive_lem connecting c e = absurd (ground arith)
  stop_receive_lem sending_request c e = refl
  stop_receive_lem wait_response c e = refl
  stop_receive_lem wait_segmented c e = refl
  stop_receive_lem response_pending c e = refl

  pub stop-uds :
      (s : UdsPhase) (c : Ctx (World E)) → (stop_response_timer p s c).ext.uds ≡ c.ext.uds
  stop-uds wait_response c = refl
  stop-uds response_pending c = refl
  stop-uds uds_idle c = refl
  stop-uds connecting c = refl
  stop-uds sending_request c = refl
  stop-uds wait_segmented c = refl

  -- Starting a timer of a state, where none is pending
  pub start-p2 :
      (time : ℕ) (c : Ctx (World E))
      → Fits uds_idle c.timers
      → Fits wait_response (uds_timeout p time p2_timer_handler c).timers
  start-p2 time c f = (
    omega (
      arith,
      f.0,
      pending-timeout p2_timer_handler 0 p.layout (p.system_now c.ext) time p2_timer_handler 0
          c.timers,
    ),
    omega (
      arith,
      f.1,
      pending-timeout_other p2_star_timer_handler 0 p.layout (p.system_now c.ext) time
          p2_timer_handler 0 c.timers refl,
    ),
  )

  pub start-p2_star :
      (time : ℕ) (c : Ctx (World E))
      → Fits uds_idle c.timers
      → Fits response_pending (uds_timeout p time p2_star_timer_handler c).timers
  start-p2_star time c f = (
    omega (
      arith,
      f.0,
      pending-timeout_other p2_timer_handler 0 p.layout (p.system_now c.ext) time
          p2_star_timer_handler 0 c.timers refl,
    ),
    omega (
      arith,
      f.1,
      pending-timeout p2_star_timer_handler 0 p.layout (p.system_now c.ext) time
          p2_star_timer_handler 0 c.timers,
    ),
  )

  -- The session timer is another.
  pub restart-s3 :
      (s : UdsPhase) (time : ℕ) (c : Ctx (World E))
      → Fits s c.timers
      → Fits s (uds_timeout p time s3_timer_handler (uds_untimeout p s3_timer_handler c)).timers
  restart-s3 s time c f =
      let stopped = uds_untimeout p s3_timer_handler c in
      (
        omega (
          arith,
          f.0,
          pending-timeout_other p2_timer_handler 0 p.layout (p.system_now c.ext) time
              s3_timer_handler 0 stopped.timers refl,
          pending-untimeout_le p2_timer_handler 0 p.layout s3_timer_handler 0 c.timers,
        ),
        omega (
          arith,
          f.1,
          pending-timeout_other p2_star_timer_handler 0 p.layout (p.system_now c.ext) time
              s3_timer_handler 0 stopped.timers refl,
          pending-untimeout_le p2_star_timer_handler 0 p.layout s3_timer_handler 0 c.timers,
        ),
      )

-- What is called, if anything, leaves the client alone.
call_if-Same :
    {E : Type 0} (fn : Option ℕ) (call : ℕ → Option (Ctx (World E))) (c : Ctx (World E))
    → ((n : ℕ) → (c' : Ctx (World E)) × (call n ≡ some c') × Same c c')
    → (c' : Ctx (World E)) × (call_if fn call c ≡ some c') × Same c c'
call_if-Same none call c quiet = (c, refl, (refl, refl))
call_if-Same (some n) call c quiet = quiet n

module _ {E : Type 0} (a : App E) (q : Quiet a) where
  pub call_error-Same :
      (error : LwcanErr) (c : Ctx (World E))
      → (c' : Ctx (World E)) × (call_error a error c ≡ some c') × Same c c'
  call_error-Same error c = call_if-Same _ _ c (λ fn. q.error fn c.ext.uds.handle error c)

  pub call_positive-Same :
      (payload : List ℕ) (size : ℕ) (c : Ctx (World E))
      → (c' : Ctx (World E)) × (call_positive a payload size c ≡ some c') × Same c c'
  call_positive-Same payload size c =
      call_if-Same _ _ c (λ fn. q.positive fn c.ext.uds.handle payload size c)

  pub call_negative-Same :
      (sid nrc : ℕ) (c : Ctx (World E))
      → (c' : Ctx (World E)) × (call_negative a sid nrc c ≡ some c') × Same c c'
  call_negative-Same sid nrc c = call_if-Same _ _ c (λ fn. q.negative fn c.ext.uds.handle sid nrc c)

-- Behind a callback that leaves the client alone, it is idle.
pub then_idle-Moves :
    {E : Type 0} (called : Option (Ctx (World E))) (c c' : Ctx (World E))
    → called ≡ some c'
    → Same c c'
    → Fits uds_idle c.timers
    → Moves (then_idle called) uds_idle
then_idle-Moves called c c' e same f = (set_phase uds_idle c', rw e refl, refl, rw same.0 f)
