-- ===== src/Isotp/Safety/Reports.antt =====
-- `isotp_sent` (src/isotp_out.c), of either flow, leaves a safe connection safe and does not fault.
use lwcan.Common.{
  ℕ, suc, ◌+◌, ◌-◌, ◌≤◌, ◌<◌, ◌≡◌, refl, ap, ◌∙◌, inl, inr, Option, some, arith, false, true,
  Bool-cases, ◌>>=◌, if_true, if_false,
}
use lwcan.Can.{LwcanErr, is_ok}
use lwcan.Isotp.Types.{
  State, idle, tx_sf, tx_ff, tx_cf, tx_fc, wait_cf, wait_fc, Flow, Options, Direction, output,
  input, Ctx, Platform, flow_of, set_state, remove_first, head_addr,
}
use lwcan.Isotp.Output.{sent_in, isotp_sent}
use lwcan.Isotp.Safety.{View, HoldsOne, Outgoing, Incoming, IsSafe, Safe, Surroundings}
use lwcan.Isotp.Safety.Steps.{report-Keeps, remove_input, input-IsSafe}
use lwcan.Isotp.Safety.Sending.{dropped-IsSafe}
use lwcan.Isotp.Safety.Sent.{sent_out-Safe, sent_fc-Safe}

module _ {Ext : Type 0} (p : Platform Ext) (o : Options) (v : View Ext)
    (h : Surroundings p o v) where
  sent_idle : (s : State) (c : Ctx Ext) → s ≡ idle → sent_in p o s c ≡ some c
  unfolding sent_in
  sent_idle s c is = ap (λ t. sent_in p o t c) is

  still_idle :
      (d : Direction) (c c' : Ctx Ext)
      → c'.pcb.output_flow ≡ (set_state d idle c).pcb.output_flow
      → c'.pcb.input_flow ≡ (set_state d idle c).pcb.input_flow
      → (flow_of d c').state ≡ idle
  still_idle output c c' same_out same_in = ap (λ (f : Flow). f.state) same_out
  still_idle input c c' same_out same_in = ap (λ (f : Flow). f.state) same_in

  sent_ok :
      (d : Direction) (error : LwcanErr) (c : Ctx Ext)
      → is_ok error ≡ true
      → isotp_sent p o d error c ≡ sent_in p o (flow_of d c).state c
  unfolding isotp_sent
  sent_ok d error c done =
      ap {B = Option (Ctx Ext)} (λ m. m >>= λ r. sent_in p o (flow_of d r).state r)
        (if_true _ _ _ done)

  -- While a frame is under way, the flow has its buffer and no timeout of the flow is pending.
  under_way :
      (s : State) (flow : Flow) (u q e : ℕ)
      → Outgoing o s flow u q e
      → 0 < u
      → HoldsOne flow × (u - 1 + q ≤ 0) × (e ≤ 0)
  under_way idle flow u q e (empty, quiet, calm) some_sent = absurd (omega arith)
  under_way tx_sf flow u q e (held, one, calm, short) some_sent = (held, omega arith, calm)
  under_way tx_ff flow u q e (held, one, calm, unsent) some_sent = (held, omega arith, calm)
  under_way tx_cf flow u q e (held, one, calm) some_sent = (held, omega arith, calm)
  under_way wait_fc flow u q e (held, quiet, one) some_sent = absurd (omega arith)
  under_way tx_fc flow u q e bad some_sent = absurd bad
  under_way wait_cf flow u q e bad some_sent = absurd bad

  sent_in-Safe :
      (s : State) (c : Ctx Ext)
      → IsSafe p o v c
      → Incoming s c.pcb.input_flow
      → Safe p o v (sent_in p o s c)
  unfolding sent_in
  sent_in-Safe idle c safe incoming = (c, refl, safe)
  sent_in-Safe wait_cf c safe incoming = (c, refl, safe)
  sent_in-Safe tx_fc c safe incoming = sent_fc-Safe p o v h c safe incoming
  sent_in-Safe tx_sf c safe bad = absurd bad
  sent_in-Safe tx_ff c safe bad = absurd bad
  sent_in-Safe tx_cf c safe bad = absurd bad
  sent_in-Safe wait_fc c safe bad = absurd bad

  pub drop_input-IsSafe :
      (c : Ctx Ext) → IsSafe p o v c → IsSafe p o v (set_state input idle (remove_first p input c))
  drop_input-IsSafe c safe =
      let (rest, e, removed, fewer, kept) =
        remove_input p o v h (head_addr c.pcb.input_flow.buffer) c in
      rw removed (
        input-IsSafe p o v h (record (c.pcb.input_flow) { buffer = rest; state = idle }) e c fewer
          (kept safe.rest.2) tt safe)

  -- One flow's failure: the buffer is dropped, the flow is idle, and it is reported.
  failed-Safe :
      (d : Direction) (error : LwcanErr) (c : Ctx Ext)
      → is_ok error ≡ false
      → IsSafe p o v (set_state d idle (remove_first p d c))
      → Safe p o v (isotp_sent p o d error c)
  unfolding isotp_sent
  failed-Safe d error c failed dropped =
      let left = set_state d idle (remove_first p d c) in
      let (c', e, safe, same_out, same_in) =
        report-Keeps p o v h left.pcb.error c.pcb.callback_arg error left dropped in
      (
        c',
        ap {B = Option (Ctx Ext)} (λ m. m >>= λ r. sent_in p o (flow_of d r).state r)
              (if_false _ _ _ failed ∙ e)
            ∙ sent_idle (flow_of d c').state c'
                (still_idle d (remove_first p d c) c' same_out same_in),
        safe,
      )

  -- The report of a frame of the output flow, which the driver has no longer to report
  pub sent_output-Safe :
      (error : LwcanErr) (e : Ext) (c : Ctx Ext)
      → IsSafe p o v c
      → suc (v.unreported e) ≤ v.unreported c.ext
      → (v.World c.timers c.ext → v.World c.timers e)
      → Safe p o v (isotp_sent p o output error (record c { ext = e }))
  sent_output-Safe error e c safe fewer kept = elim (Bool-cases (is_ok error)) [
    | inl done ↦
        let (c', ran, safe') =
          sent_out-Safe p o v h c.pcb.output_flow.state (record c { ext = e }) _ _ _ refl
            safe.outgoing (omega arith) (omega arith) (omega arith) (omega arith)
            (safe.rest.0, safe.rest.1, kept safe.rest.2) in
        (c', sent_ok output error (record c { ext = e }) done ∙ ran, safe')
    | inr failed ↦
        let (held, still, calm) =
          under_way c.pcb.output_flow.state c.pcb.output_flow _ _ _ safe.outgoing (omega arith) in
        failed-Safe output error (record c { ext = e }) failed
          (dropped-IsSafe p o v h (record c { ext = e }) held.0 held.1.first
            (omega (arith, still), omega (arith, calm))
            (safe.rest.0, safe.rest.1, kept safe.rest.2))
  ]

  -- The report of a frame of the input flow
  pub sent_input-Safe :
      (error : LwcanErr) (c : Ctx Ext) → IsSafe p o v c → Safe p o v (isotp_sent p o input error c)
  sent_input-Safe error c safe = elim (Bool-cases (is_ok error)) [
    | inl done ↦
        let (c', ran, safe') = sent_in-Safe c.pcb.input_flow.state c safe safe.rest.0 in
        (c', sent_ok input error c done ∙ ran, safe')
    | inr failed ↦ failed-Safe input error c failed (drop_input-IsSafe c safe)
  ]
