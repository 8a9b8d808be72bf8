-- ===== src/Isotp/Safety/Steps.antt =====
-- What timeouts, callbacks and dropped buffers do to the conditions of Safety.
use lwcan.Common.{
  ℕ, suc, ◌≤◌, ◌≡◌, refl, inl, inr, Option, none, some, List, arith, false, Option-cases,
}
use lwcan.Can.{LwcanErr}
use lwcan.Timeouts.{Timers, Handler, out_flow_output, output_error_handler}
use lwcan.Timeouts.Pending.{
  pending-timeout, pending-timeout_other, pending-untimeout_le, one_if_le, differ,
}
use lwcan.Buffer.{Buffer, buffer_new, buffer_delete}
use lwcan.Buffer.Keeping.{buffer_delete-keeps, buffer_new-kept}
use lwcan.Isotp.Types.{
  State, idle, tx_sf, tx_ff, tx_cf, tx_fc, wait_cf, wait_fc, Flow, Options, input, Ctx, Platform,
  set_flow, start_timeout, stop_timeout, report, remove_buffer, unlink_buffer,
}
use lwcan.Isotp.Safety.{
  View, Rest, Outgoing, Incoming, IsSafe, Safe, Surroundings, outputs, give_ups,
}

-- Fewer frames under way and fewer timeouts do no harm.
pub Outgoing-less :
    (o : Options) (s : State) (flow : Flow) (u q e u' q' e' : ℕ)
    → u' ≤ u
    → q' ≤ q
    → e' ≤ e
    → Outgoing o s flow u q e
    → Outgoing o s flow u' q' e'
Outgoing-less o idle flow u q e u' q' e' hu hq he (empty, quiet, calm) =
    (empty, omega arith, omega arith)
Outgoing-less o tx_sf flow u q e u' q' e' hu hq he (held, one, calm, short) =
    (held, omega arith, omega arith, short)
Outgoing-less o tx_ff flow u q e u' q' e' hu hq he (held, one, calm, inl none_left) =
    (held, omega arith, omega arith, inl (omega arith))
Outgoing-less o tx_ff flow u q e u' q' e' hu hq he (held, one, calm, inr long) =
    (held, omega arith, omega arith, inr long)
Outgoing-less o tx_cf flow u q e u' q' e' hu hq he (held, one, calm) =
    (held, omega arith, omega arith)
Outgoing-less o wait_fc flow u q e u' q' e' hu hq he (held, quiet, one) =
    (held, omega arith, omega arith)
Outgoing-less o tx_fc flow u q e u' q' e' hu hq he bad = bad
Outgoing-less o wait_cf flow u q e u' q' e' hu hq he bad = bad

module _ {Ext : Type 0} (p : Platform Ext) (o : Options) (v : View Ext) where
  -- A timeout of the output flow adds one pending entry at most, any other none.
  pub outputs-start :
      (time_ms : ℕ) (handler : Handler) (c : Ctx Ext)
      → outputs p o v (start_timeout p time_ms handler c) ≤ suc (outputs p o v c)
  outputs-start time_ms handler c = omega (
    arith,
    pending-timeout out_flow_output c.pcb.addr p.layout (p.system_now c.ext) time_ms handler
        c.pcb.addr c.timers,
    one_if_le (differ out_flow_output c.pcb.addr handler c.pcb.addr),
  )

  pub give_ups-start :
      (time_ms : ℕ) (handler : Handler) (c : Ctx Ext)
      → give_ups p o v (start_timeout p time_ms handler c) ≤ suc (give_ups p o v c)
  give_ups-start time_ms handler c = omega (
    arith,
    pending-timeout output_error_handler c.pcb.addr p.layout (p.system_now c.ext) time_ms handler
        c.pcb.addr c.timers,
    one_if_le (differ output_error_handler c.pcb.addr handler c.pcb.addr),
  )

  pub outputs-start_other :
      (time_ms : ℕ) (handler : Handler) (c : Ctx Ext)
      → differ out_flow_output c.pcb.addr handler c.pcb.addr ≡ false
      → outputs p o v (start_timeout p time_ms handler c) ≤ outputs p o v c
  outputs-start_other time_ms handler c apart =
      pending-timeout_other out_flow_output c.pcb.addr p.layout (p.system_now c.ext) time_ms handler
        c.pcb.addr c.timers apart

  pub give_ups-start_other :
      (time_ms : ℕ) (handler : Handler) (c : Ctx Ext)
      → differ output_error_handler c.pcb.addr handler c.pcb.addr ≡ false
      → give_ups p o v (start_timeout p time_ms handler c) ≤ give_ups p o v c
  give_ups-start_other time_ms handler c apart =
      pending-timeout_other output_error_handler c.pcb.addr p.layout (p.system_now c.ext) time_ms
        handler c.pcb.addr c.timers apart

  pub optional-Safe :
      (fn : Option ℕ) (call : ℕ → Option (Ctx Ext)) (c : Ctx Ext)
      → IsSafe p o v c
      → ((n : ℕ) → Safe p o v (call n))
      → Safe p o v (elim fn [ none ↦ some c | some n ↦ call n ])
  optional-Safe none call c safe called = (c, refl, safe)
  optional-Safe (some n) call c safe called = called n

  module _ (h : Surroundings p o v) where
    pub start-Rest :
        (time_ms : ℕ) (handler : Handler) (c : Ctx Ext)
        → Rest p o v c
        → Rest p o v (start_timeout p time_ms handler c)
    start-Rest time_ms handler c (incoming, at, world) =
        (incoming, at, rw at (h.starts (p.system_now c.ext) time_ms handler c.timers c.ext world))

    pub stop-Rest :
        (handler : Handler) (c : Ctx Ext) → Rest p o v c → Rest p o v (stop_timeout p handler c)
    stop-Rest handler c (incoming, at, world) =
        (incoming, at, rw at (h.stops handler c.timers c.ext world))

    pub delete-World :
        (b : Buffer) (t : Timers) (e : Ext) → v.World t e → v.World t (buffer_delete p.alloc b e)
    unfolding buffer_delete
    delete-World b t e world = h.frees b.addr t _ (h.frees b.payload.addr t e world)

    pub new-World :
        (n : ℕ) (c : Ctx Ext) (r : Option Buffer) (e : Ext)
        → buffer_new p.alloc n c.ext ≡ (r, e)
        → v.World c.timers c.ext
        → v.World c.timers e
    new-World n c r e made world =
        buffer_new-kept p.alloc (v.World c.timers) (λ size outside. h.mallocs size c.timers outside)
          (λ addr outside. h.frees addr c.timers outside) n c.ext r e made world

    -- A timeout that is none of the output flow's leaves the connection safe.
    pub start-IsSafe :
        (time_ms : ℕ) (handler : Handler) (c : Ctx Ext)
        → differ out_flow_output c.pcb.addr handler c.pcb.addr ≡ false
        → differ output_error_handler c.pcb.addr handler c.pcb.addr ≡ false
        → IsSafe p o v c
        → IsSafe p o v (start_timeout p time_ms handler c)
    start-IsSafe time_ms handler c apart apart' safe = record {
      outgoing =
          Outgoing-less o c.pcb.output_flow.state c.pcb.output_flow _ _ _ _ _ _ (omega arith)
            (outputs-start_other time_ms handler c apart)
            (give_ups-start_other time_ms handler c apart') safe.outgoing;
      rest = start-Rest time_ms handler c safe.rest;
    }

    pub stop-IsSafe :
        (handler : Handler) (c : Ctx Ext) → IsSafe p o v c → IsSafe p o v (stop_timeout p handler c)
    stop-IsSafe handler c safe = record {
      outgoing =
          Outgoing-less o c.pcb.output_flow.state c.pcb.output_flow _ _ _ _ _ _ (omega arith)
            (pending-untimeout_le out_flow_output c.pcb.addr p.layout handler c.pcb.addr c.timers)
            (pending-untimeout_le output_error_handler c.pcb.addr p.layout handler c.pcb.addr
              c.timers)
            safe.outgoing;
      rest = stop-Rest handler c safe.rest;
    }

    -- What is outside changes, and the input flow: the driver has no more to report.
    pub input-IsSafe :
        (flow : Flow) (e : Ext) (c : Ctx Ext)
        → v.unreported e ≤ v.unreported c.ext
        → v.World c.timers e
        → Incoming flow.state flow
        → IsSafe p o v c
        → IsSafe p o v (set_flow input flow (record c { ext = e }))
    input-IsSafe flow e c less world incoming safe = record {
      outgoing =
          Outgoing-less o c.pcb.output_flow.state c.pcb.output_flow _ _ _ _ _ _ less (omega arith)
            (omega arith) safe.outgoing;
      rest = (incoming, safe.rest.1, world);
    }

    pub report-Safe :
        (arg : ℕ) (error : LwcanErr) (c : Ctx Ext)
        → IsSafe p o v c
        → Safe p o v (report p arg error c)
    report-Safe arg error c safe =
        optional-Safe c.pcb.error (λ fn. p.error_cb fn arg error c) c safe
          (λ fn.
            let (c', e, safe', out_same, in_same) = h.fails fn arg error c safe in (c', e, safe'))

    -- The error callback leaves the flows as they are, too.
    pub report-Keeps :
        (fn : Option ℕ) (arg : ℕ) (error : LwcanErr) (c : Ctx Ext)
        → IsSafe p o v c
        → (c' : Ctx Ext) × ((elim fn [ none ↦ some c | some n ↦ p.error_cb n arg error c ])
            ≡ some c')
          × IsSafe p o v c'
          × (c'.pcb.output_flow ≡ c.pcb.output_flow)
          × (c'.pcb.input_flow ≡ c.pcb.input_flow)
    report-Keeps none arg error c safe = (c, refl, safe, refl, refl)
    report-Keeps (some fn) arg error c safe = h.fails fn arg error c safe

    -- Removing a buffer of the input flow leaves the other fields, and what the driver has.
    pub remove_input :
        (buffer : Option ℕ) (c : Ctx Ext)
        → (rest : List Buffer) × (e : Ext) × (remove_buffer p input buffer c
            ≡ set_flow input (record (c.pcb.input_flow) { buffer = rest }) (record c { ext = e }))
          × (v.unreported e ≤ v.unreported c.ext)
          × (v.World c.timers c.ext → v.World c.timers e)
    unfolding remove_buffer
    remove_input none c = (c.pcb.input_flow.buffer, c.ext, refl, omega arith, λ world. world)
    remove_input (some addr) c = elim (Option-cases (unlink_buffer addr c.pcb.input_flow.buffer)) [
      | inl e ↦
          (c.pcb.input_flow.buffer, c.ext, rw (e, remove_buffer) refl, omega arith, λ world. world)
      | inr (r, e) ↦ (
        r.1,
        buffer_delete p.alloc r.0 c.ext,
        rw (e, remove_buffer) refl,
        omega (arith, buffer_delete-keeps p.alloc v.unreported h.keeps h.room r.0 c.ext),
        delete-World r.0 c.timers c.ext,
      )
    ]
