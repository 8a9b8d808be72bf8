-- ===== src/Isotp/Safety/Events.antt =====
-- All that can happen to an ISO-TP connection, in any order: calls of the application, frames, the
-- driver's reports and timeouts (src/isotp.c, src/isotp_in.c, src/isotp_out.c).
use lwcan.Common.{
  ℕ, suc, ◌≤◌, ◌<◌, ◌^◌, ◌≡◌, ◌≢◌, refl, ap, inl, inr, Option, some, List, arith, Option-cases,
  ◌>>=◌, length,
}
use lwcan.Can.{LwcanErr, Frame}
use lwcan.Timeouts.{out_flow_output, in_flow_output, output_error_handler, input_error_handler}
use lwcan.Buffer.{buffer_delete}
use lwcan.Buffer.Keeping.{buffer_delete-keeps}
use lwcan.Isotp.Types
use lwcan.Isotp.Types.{
  State, idle, tx_sf, tx_ff, tx_cf, tx_fc, wait_cf, wait_fc, Flow, Options, output, input, Ctx,
  Platform, set_flow, stop_timeout, head_addr, unlink_buffer, remove_buffer,
}
use lwcan.Isotp.Output.{isotp_out_flow_output, isotp_send, isotp_sent}
use lwcan.Isotp.Input.{dispatch, isotp_in_flow_output, isotp_received}
use lwcan.Isotp.Safety.{View, IsSafe, Surroundings, outputs, give_ups}
use lwcan.Isotp.Safety.Steps.{delete-World, input-IsSafe, stop-IsSafe}
use lwcan.Isotp.Safety.Sending.{fired_output-Safe}
use lwcan.Isotp.Safety.Reports.{sent_output-Safe, sent_input-Safe}
use lwcan.Isotp.Safety.Starting.{isotp_send-Safe}
use lwcan.Isotp.Safety.Control.{fired_give_up-Safe}
use lwcan.Isotp.Safety.Receiving.{Carries}
use lwcan.Isotp.Safety.Answering.{dispatch-Safe, in_flow_output-Safe, input_error-Safe}
use lwcan.Isotp.Safety.Behind.{behind-Incoming}

-- What can happen to a connection. With the report of a frame of the output flow comes what is
-- outside of the library, as it is then.
pub data Event (Ext : Type 0) : Type 0 where
  send : List ℕ → ℕ → Event Ext
  give_back : ℕ → Event Ext
  frame : Frame → Event Ext
  reported : LwcanErr → Ext → Event Ext
  answer_reported : LwcanErr → Event Ext
  output_due answer_due give_up_due silence_due : Event Ext

module _ {Ext : Type 0} (p : Platform Ext) (o : Options) where
  unfoldable pub on_event : Event Ext → Ctx Ext → Option (Ctx Ext)
  on_event (send bytes n) c = isotp_send p o (some bytes) n c >>= λ r. some r.1
  on_event (give_back addr) c = some (isotp_received p o (some addr) c).1
  on_event (frame f) c = dispatch p o f c
  on_event (reported error e) c = isotp_sent p o output error (record c { ext = e })
  on_event (answer_reported error) c = isotp_sent p o input error c
  on_event output_due c = isotp_out_flow_output p o (stop_timeout p out_flow_output c)
  on_event answer_due c = isotp_in_flow_output p o (stop_timeout p in_flow_output c)
  on_event give_up_due c = Types.output_error_handler p (stop_timeout p output_error_handler c)
  on_event silence_due c = Types.input_error_handler p (stop_timeout p input_error_handler c)

  module _ (v : View Ext) where
    -- The caller's bytes are there, a frame carries what it announces, the driver reports a frame
    -- that it has taken, a timeout of the output flow is pending, and the buffer of a message that
    -- is being received is not given back.
    abbrev pub Allowed : Event Ext → Ctx Ext → Type 0
    Allowed (send bytes n) c = (n ≤ length bytes) × (n < 2 ^ 32)
    Allowed (give_back addr) c = head_addr c.pcb.input_flow.buffer ≢ some addr
    Allowed (frame f) c = Carries o f
    Allowed (reported error e) c = (suc (v.unreported e) ≤ v.unreported c.ext) × v.World c.timers e
    Allowed (answer_reported error) c = Unit {0}
    Allowed output_due c = 0 < outputs p o v c
    Allowed answer_due c = Unit {0}
    Allowed give_up_due c = 0 < give_ups p o v c
    Allowed silence_due c = Unit {0}

    module _ (h : Surroundings p o v) where
      give_back-Safe :
          (addr : ℕ) (c : Ctx Ext)
          → head_addr c.pcb.input_flow.buffer ≢ some addr
          → IsSafe p o v c
          → IsSafe p o v (isotp_received p o (some addr) c).1
      unfolding isotp_received remove_buffer
      give_back-Safe addr c other safe =
          elim (Option-cases (unlink_buffer addr c.pcb.input_flow.buffer)) [
            | inl e ↦ rw (e, remove_buffer) safe
            | inr (r, e) ↦
                rw (e, remove_buffer)
                  (input-IsSafe p o v h (record (c.pcb.input_flow) { buffer = r.1 })
                    (buffer_delete p.alloc r.0 c.ext) c
                    (omega
                      (arith, buffer_delete-keeps p.alloc v.unreported h.keeps h.room r.0 c.ext))
                    (delete-World p o v h r.0 c.timers c.ext safe.rest.2)
                    (behind-Incoming addr c.pcb.input_flow.state c.pcb.input_flow r other e
                      safe.rest.0)
                    safe)
          ]

      pub on_event-Safe :
          (event : Event Ext) (c : Ctx Ext)
          → IsSafe p o v c
          → Allowed event c
          → (c' : Ctx Ext) × (on_event event c ≡ some c') × IsSafe p o v c'
      unfolding on_event
      on_event-Safe (send bytes n) c safe (given, small) =
          let (error, c', e, safe') = isotp_send-Safe p o v h bytes n c given small safe in
          (c', ap (λ m. m >>= λ r. some r.1) e, safe')
      on_event-Safe (give_back addr) c safe other = (_, refl, give_back-Safe addr c other safe)
      on_event-Safe (frame f) c safe carries = dispatch-Safe p o v h f c carries safe
      on_event-Safe (reported error e) c safe (fewer, world) =
          sent_output-Safe p o v h error e c safe fewer (λ before. world)
      on_event-Safe (answer_reported error) c safe allowed = sent_input-Safe p o v h error c safe
      on_event-Safe output_due c safe due = fired_output-Safe p o v h c safe due
      on_event-Safe answer_due c safe allowed =
          in_flow_output-Safe p o v h (stop_timeout p in_flow_output c)
            (stop-IsSafe p o v h in_flow_output c safe)
      on_event-Safe give_up_due c safe due = fired_give_up-Safe p o v h c safe due
      on_event-Safe silence_due c safe allowed =
          input_error-Safe p o v h (stop_timeout p input_error_handler c)
            (stop-IsSafe p o v h input_error_handler c safe)
