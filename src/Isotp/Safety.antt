-- ===== src/Isotp/Safety.antt =====
-- When an ISO-TP connection is safe: what its flows hold and which of its timeouts are pending in
-- which state (src/isotp.c, src/isotp_in.c, src/isotp_out.c). What is asked of the surroundings.
pub mod Steps
pub mod Sending
pub mod Sent
pub mod Reports
pub mod Starting
pub mod Control
pub mod Receiving
pub mod First
pub mod Consecutive
pub mod Answering
pub mod Behind
pub mod Events
pub mod Together
pub mod Layered
pub mod Reached
use lwcan.Common.{
  ℕ, suc, ◌+◌, ◌≤◌, ◌<◌, ◌^◌, ◌≡◌, ◌≢◌, ◌⊎◌, Option, none, some, List, [], ◌∷◌, length, true, false,
  if◌then◌else◌,
}
use lwcan.Can.{LwcanErr, is_ok, Frame}
use lwcan.Timeouts.{Timers, Handler, timeout, untimeout, out_flow_output, output_error_handler}
use lwcan.Timeouts.Pending.{pending}
use lwcan.Buffer.{Buffer}
use lwcan.Buffer.Keeping.{HeapKeeps, GivesRoom}
use lwcan.Canif.{Canif}
use lwcan.Isotp.Types.{
  State, idle, tx_sf, tx_ff, tx_cf, tx_fc, wait_cf, wait_fc, Flow, Options, max_dlen, Direction,
  output, input, Ctx, Platform, fs_ready,
}

-- The first buffer of a flow is whole, and has what is left of the message.
pub record Holds (chain : List Buffer) (remaining : ℕ) (head : Buffer) (next : List Buffer)
    : Type 0 where
  pub first : chain ≡ head ∷ next
  pub left : remaining ≤ head.length
  pub whole : head.length ≤ length head.payload.bytes
  pub small : head.length < 2 ^ 32

abbrev pub HoldsOne : Flow → Type 0
HoldsOne flow = (b : Buffer) × Holds flow.buffer flow.remaining_data b []

abbrev pub HoldsFirst : Flow → Type 0
HoldsFirst flow = (b : Buffer) × (next : List Buffer) × Holds flow.buffer flow.remaining_data b next

-- The longest message of a single frame
abbrev pub longest_single : Options → ℕ
longest_single o = if o.canfd then 62 else 7

-- The output flow in a state, with so many frames that the driver has not reported, so many
-- timeouts that output a frame, and so many that give up. An idle flow has no buffer, no frame
-- under way and no timeout. A flow in another state has one buffer. A frame is output by one
-- timeout, and only while no other frame is under way; what gives up is pending while a flow
-- control frame is awaited.
abbrev pub Outgoing : Options → State → Flow → ℕ → ℕ → ℕ → Type 0
Outgoing o idle flow u q e = (flow.buffer ≡ []) × (u + q ≤ 0) × (e ≤ 0)
Outgoing o tx_sf flow u q e =
    HoldsOne flow × (u + q ≤ 1) × (e ≤ 0) × (flow.remaining_data ≤ longest_single o)
Outgoing o tx_ff flow u q e =
    HoldsOne flow × (u + q ≤ 1) × (e ≤ 0) × ((q ≤ 0) ⊎ (longest_single o < flow.remaining_data))
Outgoing o tx_cf flow u q e = HoldsOne flow × (u + q ≤ 1) × (e ≤ 0)
Outgoing o wait_fc flow u q e = HoldsOne flow × (u + q ≤ 0) × (e ≤ 1)
Outgoing o tx_fc flow u q e = ⊥
Outgoing o wait_cf flow u q e = ⊥

-- The input flow in a state: a message that is being received has its buffer in front.
abbrev pub Incoming : State → Flow → Type 0
Incoming idle flow = Unit {0}
Incoming wait_cf flow = HoldsFirst flow
Incoming tx_fc flow = (flow.fs ≢ fs_ready) ⊎ HoldsFirst flow
Incoming tx_sf flow = ⊥
Incoming tx_ff flow = ⊥
Incoming tx_cf flow = ⊥
Incoming wait_fc flow = ⊥

-- What is known of the surroundings of a connection: how many frames of its output flow the driver
-- has taken and not reported, its address, and what holds of the timeouts and of what is outside.
pub record View (Ext : Type 0) : Type 1 where
  pub unreported : Ext → ℕ
  pub home : ℕ
  pub World : Timers → Ext → Type 0

module _ {Ext : Type 0} (p : Platform Ext) (o : Options) (v : View Ext) where
  abbrev pub outputs : Ctx Ext → ℕ
  outputs c = pending out_flow_output c.pcb.addr c.timers.queue

  abbrev pub give_ups : Ctx Ext → ℕ
  give_ups c = pending output_error_handler c.pcb.addr c.timers.queue

  abbrev pub Sends : State → Ctx Ext → Type 0
  Sends s c = Outgoing o s c.pcb.output_flow (v.unreported c.ext) (outputs c) (give_ups c)

  -- No frame is under way, and no timeout of the output flow is pending.
  abbrev pub Still : Ctx Ext → Type 0
  Still c = (v.unreported c.ext + outputs c ≤ 0) × (give_ups c ≤ 0)

  -- What does not depend on the output flow
  abbrev pub Rest : Ctx Ext → Type 0
  Rest c =
      Incoming c.pcb.input_flow.state c.pcb.input_flow
      × (c.pcb.addr ≡ v.home)
      × v.World c.timers c.ext

  pub record IsSafe (c : Ctx Ext) : Type 0 where
    pub outgoing : Sends c.pcb.output_flow.state c
    pub rest : Rest c

  -- A call that does not fault and leaves the connection safe
  abbrev pub Safe : Option (Ctx Ext) → Type 0
  Safe called = (c : Ctx Ext) × (called ≡ some c) × IsSafe c

  -- The heap gives blocks as large as it is asked for, a frame has the bytes of the build, the
  -- driver has at most one more frame to report for each that it takes, and the callbacks leave the
  -- connection safe; the error callback leaves the flows alone.
  pub record Surroundings : Type 0 where
    pub keeps : HeapKeeps p.alloc v.unreported
    pub room : GivesRoom p.alloc
    pub blank : (e : Ext) → max_dlen o ≤ length (p.uninit e).payload
    pub accepts :
        (canif : Canif) (f : Frame) (time_ms : ℕ) (e : Ext)
        → v.unreported (p.send canif f time_ms output e).1 ≤ suc (v.unreported e)
    pub refuses :
        (canif : Canif) (f : Frame) (time_ms : ℕ) (e : Ext)
        → is_ok (p.send canif f time_ms output e).0 ≡ false
        → v.unreported (p.send canif f time_ms output e).1 ≤ v.unreported e
    pub answers :
        (canif : Canif) (f : Frame) (time_ms : ℕ) (e : Ext)
        → v.unreported (p.send canif f time_ms input e).1 ≤ v.unreported e
    pub starts :
        (now time_ms : ℕ) (handler : Handler) (t : Timers) (e : Ext)
        → v.World t e
        → v.World (timeout p.layout now time_ms handler v.home t) e
    pub stops :
        (handler : Handler) (t : Timers) (e : Ext)
        → v.World t e
        → v.World (untimeout p.layout handler v.home t) e
    pub mallocs : (n : ℕ) (t : Timers) (e : Ext) → v.World t e → v.World t (p.alloc.malloc n e).1
    pub frees : (addr : ℕ) (t : Timers) (e : Ext) → v.World t e → v.World t (p.alloc.free addr e)
    pub sends :
        (canif : Canif) (f : Frame) (time_ms : ℕ) (d : Direction) (t : Timers) (e : Ext)
        → v.World t e
        → v.World t (p.send canif f time_ms d e).1
    pub receives :
        (fn arg : ℕ) (buffer : Option ℕ) (c : Ctx Ext)
        → IsSafe c
        → Safe (p.receive_cb fn arg buffer c)
    pub begins : (fn arg : ℕ) (c : Ctx Ext) → IsSafe c → Safe (p.receive_ff_cb fn arg c)
    pub finishes : (fn arg length : ℕ) (c : Ctx Ext) → IsSafe c → Safe (p.sent_cb fn arg length c)
    pub fails :
        (fn arg : ℕ) (error : LwcanErr) (c : Ctx Ext)
        → IsSafe c
        → (c' : Ctx Ext) × (p.error_cb fn arg error c ≡ some c')
          × IsSafe c'
          × (c'.pcb.output_flow ≡ c.pcb.output_flow)
          × (c'.pcb.input_flow ≡ c.pcb.input_flow)
