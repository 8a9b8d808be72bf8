-- ===== src/Isotp/Safety/Control.antt =====
-- The start of a message, flow control frames and the output flow's give-up (src/isotp_out.c,
-- src/isotp_in.c, src/isotp.c) leave a safe connection safe and do not fault.
use lwcan.Common.{
  ℕ, ◌+◌, ◌-◌, ◌≤◌, ◌<◌, ◌≡◌, refl, ◌∙◌, inl, inr, arith, true, Bool-cases, if_true, if_false, ◌==◌,
  ◌&&◌, not, bit_and,
}
use lwcan.Can.{aborted, transmit_timeout, Frame}
use lwcan.Timeouts.{out_flow_output, output_error_handler}
use lwcan.Timeouts.Pending.{pending-untimeout, pending-untimeout_le}
use lwcan.Isotp.Types
use lwcan.Isotp.Types.{
  State, idle, tx_sf, tx_ff, tx_cf, tx_fc, wait_cf, wait_fc, Flow, Options, Direction, output,
  input, Ctx, Platform, set_flow, set_state, start_timeout, stop_timeout, report, remove_first,
  in_state, fs_ready, fs_wait,
}
use lwcan.Isotp.Frames.{byte, low_mask}
use lwcan.Isotp.Input.{fc_accept, received_fc, separation}
use lwcan.Isotp.Safety.{
  View, Rest, Still, HoldsOne, Outgoing, IsSafe, Safe, Surroundings, outputs, give_ups,
}
use lwcan.Isotp.Safety.Steps.{
  start-Rest, stop-Rest, report-Safe, outputs-start, outputs-start_other, give_ups-start,
  give_ups-start_other,
}
use lwcan.Isotp.Safety.Sending.{dropped-IsSafe}

relabel :
    (o : Options) (s t : State) (flow : Flow) (u q e : ℕ)
    → s ≡ t
    → Outgoing o t flow u q e
    → Outgoing o s flow u q e
relabel o s t flow u q e same sends = rw same sends

module _ {Ext : Type 0} (p : Platform Ext) (o : Options) (v : View Ext)
    (h : Surroundings p o v) where
  -- While something is to give up, a flow control frame is awaited.
  awaiting :
      (s : State) (flow : Flow) (u q e : ℕ)
      → Outgoing o s flow u q e
      → 0 < e
      → HoldsOne flow × (u + q ≤ 0) × (e ≤ 1)
  awaiting idle flow u q e (empty, quiet, calm) due = absurd (omega arith)
  awaiting tx_sf flow u q e (held, one, calm, short) due = absurd (omega arith)
  awaiting tx_ff flow u q e (held, one, calm, unsent) due = absurd (omega arith)
  awaiting tx_cf flow u q e (held, one, calm) due = absurd (omega arith)
  awaiting wait_fc flow u q e sends due = sends
  awaiting tx_fc flow u q e bad due = absurd bad
  awaiting wait_cf flow u q e bad due = absurd bad

  -- Once the give-up of the output flow is taken from the list, nothing of the flow is pending.
  stopped-Still :
      (c : Ctx Ext)
      → v.unreported c.ext + outputs p o v c ≤ 0
      → give_ups p o v c ≤ 1
      → Still p o v (stop_timeout p output_error_handler c)
  stopped-Still c quiet one = (
    omega (
      arith,
      quiet,
      pending-untimeout_le out_flow_output c.pcb.addr p.layout output_error_handler c.pcb.addr
          c.timers,
    ),
    omega (arith, one, pending-untimeout output_error_handler c.pcb.addr p.layout c.timers),
  )

  -- `output_error_handler`, when its timeout has just been taken from the list
  pub fired_give_up-Safe :
      (c : Ctx Ext)
      → IsSafe p o v c
      → 0 < give_ups p o v c
      → Safe p o v (Types.output_error_handler p (stop_timeout p output_error_handler c))
  unfolding Types.output_error_handler
  fired_give_up-Safe c safe due =
      let fired = stop_timeout p output_error_handler c in
      let (held, quiet, one) =
        awaiting c.pcb.output_flow.state c.pcb.output_flow _ _ _ safe.outgoing due in
      report-Safe p o v h c.pcb.addr transmit_timeout
        (set_state output idle (remove_first p output fired))
        (dropped-IsSafe p o v h fired held.0 held.1.first (stopped-Still c quiet one)
          (stop-Rest p o v h output_error_handler c safe.rest))

  fc_accept-Safe :
      (frame : Frame) (c : Ctx Ext)
      → c.pcb.output_flow.state ≡ wait_fc
      → HoldsOne c.pcb.output_flow
      → Still p o v c
      → Rest p o v c
      → Safe p o v (fc_accept p o frame c)
  unfolding fc_accept
  fc_accept-Safe frame c is (b, held) still incoming =
      let fs = bit_and (byte frame.payload 0) low_mask in
      let flow = record (c.pcb.output_flow) { fs = fs } in
      elim (Bool-cases ((fs == fs_wait) && not (flow.n_wft == 0))) [
        | inl wait ↦
            let waiting = set_flow output (record flow { n_wft = flow.n_wft - 1 }) c in
            (
              start_timeout p o.n_bs output_error_handler waiting,
              if_true _ _ _ wait,
              record {
                outgoing =
                    relabel o c.pcb.output_flow.state wait_fc
                      (record flow { n_wft = flow.n_wft - 1 }) _ _ _ is
                      (
                        (b, held),
                        omega (
                          arith,
                          still.0,
                          outputs-start_other p o v o.n_bs output_error_handler waiting refl,
                        ),
                        omega (
                          arith,
                          still.1,
                          give_ups-start p o v o.n_bs output_error_handler waiting,
                        ),
                      );
                rest = start-Rest p o v h o.n_bs output_error_handler waiting incoming;
              },
            )
        | inr no_wait ↦ elim (Bool-cases (fs == fs_ready)) [
          | inl ready ↦
              let going =
                set_flow output
                  (record flow {
                    bs = byte frame.payload 1;
                    st = separation p o (byte frame.payload 2);
                    state = tx_cf;
                  })
                  c in
              (
                start_timeout p 0 out_flow_output going,
                if_false _ _ _ no_wait ∙ if_true _ _ _ ready,
                record {
                  outgoing = (
                    (b, held),
                    omega (arith, still.0, outputs-start p o v 0 out_flow_output going),
                    omega (arith, still.1, give_ups-start_other p o v 0 out_flow_output going refl),
                  );
                  rest = start-Rest p o v h 0 out_flow_output going incoming;
                },
              )
          | inr refused ↦
              let told = set_flow output flow c in
              let (c', e, safe) =
                report-Safe p o v h c.pcb.callback_arg aborted
                  (set_state output idle (remove_first p output told))
                  (dropped-IsSafe p o v h told b held.first still incoming) in
              (c', if_false _ _ _ no_wait ∙ (if_false _ _ _ refused ∙ e), safe)
        ]
      ]

  at_wait_fc :
      (s : State) (flow : Flow) (u q e : ℕ)
      → in_state s wait_fc ≡ true
      → Outgoing o s flow u q e
      → (s ≡ wait_fc) × HoldsOne flow × (u + q ≤ 0) × (e ≤ 1)
  at_wait_fc wait_fc flow u q e is (held, quiet, one) = (refl, held, quiet, one)
  at_wait_fc idle flow u q e is sends = absurd (ground arith)
  at_wait_fc tx_sf flow u q e is sends = absurd (ground arith)
  at_wait_fc tx_ff flow u q e is sends = absurd (ground arith)
  at_wait_fc tx_cf flow u q e is sends = absurd (ground arith)
  at_wait_fc tx_fc flow u q e is sends = absurd (ground arith)
  at_wait_fc wait_cf flow u q e is sends = absurd (ground arith)

  pub received_fc-Safe :
      (frame : Frame) (c : Ctx Ext) → IsSafe p o v c → Safe p o v (received_fc p o frame c)
  unfolding received_fc
  received_fc-Safe frame c safe = elim (Bool-cases (in_state c.pcb.output_flow.state wait_fc)) [
    | inl waits ↦
        let (is, held, quiet, one) =
          at_wait_fc c.pcb.output_flow.state c.pcb.output_flow _ _ _ waits safe.outgoing in
        let (c', e, safe') =
          fc_accept-Safe frame (stop_timeout p output_error_handler c) is held
            (stopped-Still c quiet one) (stop-Rest p o v h output_error_handler c safe.rest) in
        (c', if_true _ _ _ waits ∙ e, safe')
    | inr other ↦ (c, if_false _ _ _ other, safe)
  ]
