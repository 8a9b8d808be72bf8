-- ===== src/Isotp/Safety/Sending.antt =====
-- The output flow (src/isotp_out.c) leaves a safe connection safe and does not fault.
use lwcan.Common.{
  ℕ, ◌+◌, ◌-◌, ◌≤◌, ◌<◌, ◌≡◌, ◌⊎◌, refl, sym, ap, ◌∙◌, inl, inr, Option, none, some, List, [], ◌∷◌,
  arith, false, Bool-cases, Option-cases, length, ◌>>=◌, if_true, if_false,
}
use lwcan.Can.{is_ok, Frame}
use lwcan.Timeouts.{out_flow_output, output_error_handler}
use lwcan.Timeouts.Pending.{pending-untimeout, pending-untimeout_le}
use lwcan.Buffer.{Buffer}
use lwcan.Buffer.Keeping.{buffer_delete-keeps}
use lwcan.Canif.{Canif, get_by_index}
use lwcan.Isotp.Types
use lwcan.Isotp.Types.{
  State, idle, tx_sf, tx_ff, tx_cf, tx_fc, wait_cf, wait_fc, Flow, Options, Direction, output,
  input, Ctx, Platform, flow_of, set_flow, set_state, start_timeout, stop_timeout, report,
  remove_first, in_state,
}
use lwcan.Isotp.Frames.Inside.{fill_sf_inside, fill_ff_inside}
use lwcan.Isotp.Frames.Later.{fill_cf_inside}
use lwcan.Isotp.Output.{
  transmit, after_output, blank, output_in, isotp_out_flow_output, call_sent, finish_output,
}
use lwcan.Isotp.Errors.{remove_first-dropped}
use lwcan.Isotp.Safety.{
  View, Rest, Still, Holds, Outgoing, IsSafe, Safe, Surroundings, outputs, longest_single,
}
use lwcan.Isotp.Safety.Steps.{delete-World, stop-IsSafe, Outgoing-less, optional-Safe, report-Safe}

module _ {Ext : Type 0} (p : Platform Ext) (o : Options) (v : View Ext)
    (h : Surroundings p o v) where
  pub blank_room : (c : Ctx Ext) → Types.max_dlen o ≤ length (blank p o c).payload
  blank_room c = elim (Bool-cases o.canfd) [
    | inl fd ↦ rw fd (rw fd at (h.blank c.ext))
    | inr classic ↦ rw classic (rw classic at (h.blank c.ext))
  ]

  -- The buffer is dropped and the flow is idle.
  pub dropped-IsSafe :
      (c : Ctx Ext) (b : Buffer)
      → c.pcb.output_flow.buffer ≡ b ∷ []
      → Still p o v c
      → Rest p o v c
      → IsSafe p o v (set_state output idle (remove_first p output c))
  dropped-IsSafe c b first still incoming =
      rw (remove_first-dropped p o output c b [] first) (record {
        outgoing = (
          refl,
          omega (arith, still.0, buffer_delete-keeps p.alloc v.unreported h.keeps h.room b c.ext),
          still.1,
        );
        rest = (incoming.0, incoming.1, delete-World p o v h b c.timers c.ext incoming.2);
      })

  call_sent-Safe : (n : ℕ) (c : Ctx Ext) → IsSafe p o v c → Safe p o v (call_sent p o n c)
  call_sent-Safe n c safe =
      optional-Safe p o v c.pcb.sent (λ fn. p.sent_cb fn c.pcb.callback_arg n c) c safe
        (λ fn. h.finishes fn c.pcb.callback_arg n c safe)

  pub finish_output-Safe :
      (c : Ctx Ext) (b : Buffer)
      → c.pcb.output_flow.buffer ≡ b ∷ []
      → Still p o v c
      → Rest p o v c
      → Safe p o v (finish_output p o c)
  finish_output-Safe c b first still incoming =
      let finished = set_state output idle (remove_first p output c) in
      let (c', e, safe) =
        call_sent-Safe b.length finished (dropped-IsSafe c b first still incoming) in
      (
        c',
        ap {B = Option (Ctx Ext)}
              (λ (l : List Buffer). elim l [
                | [] ↦ none
                | head ∷ next ↦ call_sent p o head.length finished
              ])
              first
            ∙ e,
        safe,
      )

  -- A filled frame goes to the driver.
  transmit-Safe :
      (canif : Canif) (time_ms : ℕ) (c : Ctx Ext) (frame : Frame) (flow : Flow) (b : Buffer)
      → flow.buffer ≡ b ∷ []
      → Still p o v c
      → Rest p o v c
      → Outgoing o flow.state flow 1 0 0
      → Safe p o v (transmit p o output canif time_ms c (frame, flow))
  unfolding after_output
  transmit-Safe canif time_ms c frame flow b first still incoming sends =
      let answer = p.send canif frame time_ms output c.ext in
      let sent = record (set_flow output flow c) { ext = answer.1 } in
      elim (Bool-cases (is_ok answer.0)) [
        | inl accepted ↦ (
          sent,
          if_true _ _ _ accepted,
          record {
            outgoing =
                Outgoing-less o flow.state flow 1 0 0 _ _ _
                  (omega (arith, still.0, h.accepts canif frame time_ms c.ext))
                  (omega (arith, still.0)) still.1 sends;
            rest = (
              incoming.0,
              incoming.1,
              h.sends canif frame time_ms output c.timers c.ext incoming.2,
            );
          },
        )
        | inr refused ↦
            let (c', e, safe) =
              report-Safe p o v h c.pcb.callback_arg answer.0
                (set_state output idle (remove_first p output sent))
                (dropped-IsSafe sent b first
                  (omega (arith, still.0, h.refuses canif frame time_ms c.ext refused), still.1)
                  (
                    incoming.0,
                    incoming.1,
                    h.sends canif frame time_ms output c.timers c.ext incoming.2,
                  )) in
            (c', if_false _ _ _ refused ∙ e, safe)
      ]

  -- A frame is filled, and the flow is left with what remains of the message.
  output-Safe :
      (s : State) (filled : Option (Frame × Flow)) (canif : Canif) (time_ms : ℕ) (c : Ctx Ext)
      (frame : Frame) (rest : ℕ) (b : Buffer)
      → filled ≡ some (frame, record (c.pcb.output_flow) { remaining_data = rest })
      → c.pcb.output_flow.state ≡ s
      → rest ≤ c.pcb.output_flow.remaining_data
      → Holds c.pcb.output_flow.buffer c.pcb.output_flow.remaining_data b []
      → Still p o v c
      → Rest p o v c
      → (Holds c.pcb.output_flow.buffer rest b []
          → Outgoing o s (record (c.pcb.output_flow) { remaining_data = rest }) 1 0 0)
      → Safe p o v (filled >>= transmit p o output canif time_ms c)
  output-Safe s filled canif time_ms c frame rest b e is less held still incoming sends =
      let flow = record (c.pcb.output_flow) { remaining_data = rest } in
      let (c', e', safe) = transmit-Safe canif time_ms c frame flow b held.first still incoming (
        rw (sym is) at (
          sends (record {
            first = held.first;
            left = omega (arith, held.left);
            whole = held.whole;
            small = held.small;
          }))) in
      (c', ap (λ m. m >>= transmit p o output canif time_ms c) e ∙ e', safe)

  output_in-Safe :
      (s : State) (canif : Canif) (c : Ctx Ext)
      → c.pcb.output_flow.state ≡ s
      → IsSafe p o v c
      → Outgoing o s c.pcb.output_flow 0 0 0
      → (in_state s idle ≡ false → in_state s wait_fc ≡ false → Still p o v c)
      → (in_state s tx_ff ≡ false) ⊎ (longest_single o < c.pcb.output_flow.remaining_data)
      → Safe p o v (output_in p o s canif c)
  unfolding output_in
  output_in-Safe idle canif c is safe sends still long = (c, refl, safe)
  output_in-Safe wait_fc canif c is safe sends still long = (c, refl, safe)
  output_in-Safe tx_fc canif c is safe sends still long = (c, refl, safe)
  output_in-Safe wait_cf canif c is safe sends still long = (c, refl, safe)
  output_in-Safe tx_sf canif c is safe ((b, held), one, calm, short) still long =
      let (frame, e) =
        fill_sf_inside o c.pcb.output_flow (blank p o c) b [] held.first (blank_room c) short
          (omega (arith, held.left, held.whole)) in
      output-Safe tx_sf _ canif o.n_as c frame 0 b e is (omega arith) held (still refl refl)
        safe.rest (λ held'. ((b, held'), omega arith, omega arith, omega arith))
  output_in-Safe tx_ff canif c is safe ((b, held), one, calm, unsent) still (inl other) =
      absurd (ground arith)
  output_in-Safe tx_ff canif c is safe ((b, held), one, calm, unsent) still (inr long) =
      let (frame, left, e, less) =
        fill_ff_inside o c.pcb.output_flow (blank p o c) b [] held.first (blank_room c) long
          (omega (arith, held.left, held.small)) (omega (arith, held.left, held.whole)) in
      output-Safe tx_ff _ canif o.n_as c frame left b e is less held (still refl refl) safe.rest
        (λ held'. ((b, held'), omega arith, omega arith, inl (omega arith)))
  output_in-Safe tx_cf canif c is safe ((b, held), one, calm) still long =
      let (frame, left, e, less) =
        fill_cf_inside o c.pcb.output_flow (blank p o c) b [] held.first (blank_room c) held.left
          held.whole held.small in
      output-Safe tx_cf _ canif o.n_cs c frame left b e is less held (still refl refl) safe.rest
        (λ held'. ((b, held'), omega arith, omega arith))

  -- Where a timeout that outputs a frame is pending, it is the only one, no frame is under way, and
  -- a first frame has not been sent.
  primed :
      (s : State) (flow : Flow) (u q e : ℕ)
      → Outgoing o s flow u q e
      → 0 < q
      → (u + (q - 1) ≤ 0)
        × (e ≤ 0)
        × ((in_state s tx_ff ≡ false) ⊎ (longest_single o < flow.remaining_data))
  primed idle flow u q e (empty, quiet, calm) due = absurd (omega arith)
  primed tx_sf flow u q e (held, one, calm, short) due = (omega arith, calm, inl refl)
  primed tx_ff flow u q e (held, one, calm, inl sent) due = absurd (omega arith)
  primed tx_ff flow u q e (held, one, calm, inr long) due = (omega arith, calm, inr long)
  primed tx_cf flow u q e (held, one, calm) due = (omega arith, calm, inl refl)
  primed wait_fc flow u q e (held, quiet, one) due = absurd (omega arith)
  primed tx_fc flow u q e bad due = absurd bad
  primed wait_cf flow u q e bad due = absurd bad

  -- `out_flow_output`, when its timeout has just been taken from the list
  pub fired_output-Safe :
      (c : Ctx Ext)
      → IsSafe p o v c
      → 0 < outputs p o v c
      → Safe p o v (isotp_out_flow_output p o (stop_timeout p out_flow_output c))
  unfolding isotp_out_flow_output
  fired_output-Safe c safe due =
      let fired = stop_timeout p out_flow_output c in
      let by_canif : Option Canif → Option (Ctx Ext) = (λ m. elim m [
        | none ↦ some fired
        | some canif ↦ output_in p o c.pcb.output_flow.state canif fired
      ]) in
      elim (Option-cases (get_by_index c.pcb.if_index c.canifs)) [
        | inl missing ↦ (
          fired,
          ap {B = Option (Ctx Ext)} by_canif missing,
          stop-IsSafe p o v h out_flow_output c safe,
        )
        | inr (canif, found) ↦
            let (still, calm, long) =
              primed c.pcb.output_flow.state c.pcb.output_flow _ _ _ safe.outgoing due in
            let (c', e, safe') =
              output_in-Safe c.pcb.output_flow.state canif fired refl
                (stop-IsSafe p o v h out_flow_output c safe)
                (Outgoing-less o c.pcb.output_flow.state c.pcb.output_flow _ _ _ 0 0 0 (omega arith)
                  (omega arith) (omega arith) safe.outgoing)
                (λ busy started. (
                  omega (
                    arith,
                    still,
                    pending-untimeout out_flow_output c.pcb.addr p.layout c.timers,
                  ),
                  omega (
                    arith,
                    calm,
                    pending-untimeout_le output_error_handler c.pcb.addr p.layout out_flow_output
                        c.pcb.addr c.timers,
                  ),
                ))
                long in
            (c', ap {B = Option (Ctx Ext)} by_canif found ∙ e, safe')
      ]
