-- ===== src/Isotp/Safety/Sent.antt =====
-- A driver's report of a frame (`isotp_sent` of src/isotp_out.c) leaves a safe connection safe and
-- does not fault.
use lwcan.Common.{
  ℕ, ◌-◌, ◌≤◌, ◌<◌, ◌≡◌, refl, ap, ◌∙◌, inl, inr, arith, Bool-cases, if_true, if_false, ◌==◌, ◌||◌,
}
use lwcan.Can.{aborted}
use lwcan.Timeouts.{out_flow_output, output_error_handler, input_error_handler}
use lwcan.Isotp.Types.{
  State, idle, tx_sf, tx_ff, tx_cf, tx_fc, wait_cf, wait_fc, Options, output, input, Ctx, Platform,
  set_flow, set_state, start_timeout, in_state, fs_ready, cf_left_pos, next_sn,
}
use lwcan.Isotp.Output.{sent_sf, sent_ff, sent_cf, sent_fc, sent_in}
use lwcan.Isotp.Safety.{
  View, Rest, Still, HoldsOne, HoldsFirst, Outgoing, Incoming, IsSafe, Safe, Surroundings, outputs,
  give_ups,
}
use lwcan.Isotp.Safety.Steps.{
  start-Rest, report-Safe, outputs-start, outputs-start_other, give_ups-start, give_ups-start_other,
  start-IsSafe,
}
use lwcan.Isotp.Safety.Sending.{finish_output-Safe}

module _ {Ext : Type 0} (p : Platform Ext) (o : Options) (v : View Ext)
    (h : Surroundings p o v) where
  -- What holds of a flow with a frame under way, once it has been reported
  Reported : State → Ctx Ext → Type 0
  Reported s c = Still p o v c × HoldsOne c.pcb.output_flow × Rest p o v c

  sent_sf-Safe : (s : State) (c : Ctx Ext) → Reported s c → Safe p o v (sent_sf p o c)
  unfolding sent_sf Reported
  sent_sf-Safe s c (still, (b, held), incoming) =
      finish_output-Safe p o v h c b held.first still incoming

  sent_ff-Safe :
      (c : Ctx Ext)
      → c.pcb.output_flow.state ≡ tx_ff
      → Reported tx_ff c
      → Safe p o v (sent_ff p o c)
  unfolding sent_ff Reported
  sent_ff-Safe c is (still, held, incoming) =
      let waiting = set_state output wait_fc c in
      (
        start_timeout p o.n_bs output_error_handler waiting,
        if_true _ _ _ (ap (λ s. in_state s tx_ff) is),
        record {
          outgoing = (
            held,
            omega (
              arith,
              still.0,
              outputs-start_other p o v o.n_bs output_error_handler waiting refl,
            ),
            omega (arith, still.1, give_ups-start p o v o.n_bs output_error_handler waiting),
          );
          rest = start-Rest p o v h o.n_bs output_error_handler waiting incoming;
        },
      )

  sent_cf-Safe : (c : Ctx Ext) → Reported tx_cf c → Safe p o v (sent_cf p o c)
  unfolding sent_cf Reported
  sent_cf-Safe c (still, (b, held), incoming) =
      let flow = c.pcb.output_flow in
      elim (Bool-cases (flow.remaining_data == 0)) [
        | inl all ↦
            let (c', e, safe) = finish_output-Safe p o v h c b held.first still incoming in
            (c', if_true _ _ _ all ∙ e, safe)
        | inr more ↦ elim (Bool-cases (flow.bs == 0 || cf_left_pos flow.bs flow.cf_sn)) [
          | inl go_on ↦
              let ready =
                set_flow output (record flow { cf_sn = next_sn flow.cf_sn; state = tx_cf }) c in
              (
                start_timeout p flow.st out_flow_output ready,
                if_false _ _ _ more ∙ if_true _ _ _ go_on,
                record {
                  outgoing = (
                    (b, held),
                    omega (arith, still.0, outputs-start p o v flow.st out_flow_output ready),
                    omega (
                      arith,
                      still.1,
                      give_ups-start_other p o v flow.st out_flow_output ready refl,
                    ),
                  );
                  rest = start-Rest p o v h flow.st out_flow_output ready incoming;
                },
              )
          | inr block_over ↦
              let waiting =
                set_flow output (record flow { cf_sn = next_sn flow.cf_sn; state = wait_fc }) c in
              (
                start_timeout p o.n_bs output_error_handler waiting,
                if_false _ _ _ more ∙ if_false _ _ _ block_over,
                record {
                  outgoing = (
                    (b, held),
                    omega (
                      arith,
                      still.0,
                      outputs-start_other p o v o.n_bs output_error_handler waiting refl,
                    ),
                    omega
                        (arith, still.1, give_ups-start p o v o.n_bs output_error_handler waiting),
                  );
                  rest = start-Rest p o v h o.n_bs output_error_handler waiting incoming;
                },
              )
        ]
      ]

  pub sent_fc-Safe :
      (c : Ctx Ext) → IsSafe p o v c → Incoming tx_fc c.pcb.input_flow → Safe p o v (sent_fc p o c)
  unfolding sent_fc
  sent_fc-Safe c safe answered = elim (Bool-cases (c.pcb.input_flow.fs == fs_ready)) [
    | inl ready ↦
        let held : HoldsFirst c.pcb.input_flow = elim answered [
          | inl unready ↦ absurd (ground arith)
          | inr held ↦ held
        ] in
        let waiting = set_state input wait_cf c in
        (
          start_timeout p o.n_cr input_error_handler waiting,
          if_true _ _ _ ready,
          start-IsSafe p o v h o.n_cr input_error_handler waiting refl refl
              (record { outgoing = safe.outgoing; rest = (held, safe.rest.1, safe.rest.2) }),
        )
    | inr unready ↦
        let (c', e, safe') =
          report-Safe p o v h c.pcb.callback_arg aborted (set_state input idle c)
            (record { outgoing = safe.outgoing; rest = (tt, safe.rest.1, safe.rest.2) }) in
        (c', if_false _ _ _ unready ∙ e, safe')
  ]

  pub sent_out-Safe :
      (s : State) (c : Ctx Ext) (u q e : ℕ)
      → c.pcb.output_flow.state ≡ s
      → Outgoing o s c.pcb.output_flow u q e
      → 0 < u
      → v.unreported c.ext ≤ u - 1
      → outputs p o v c ≤ q
      → give_ups p o v c ≤ e
      → Rest p o v c
      → Safe p o v (sent_in p o s c)
  unfolding sent_in Reported
  sent_out-Safe idle c u q e is (empty, quiet, calm) some_sent hu hq he incoming =
      absurd (omega arith)
  sent_out-Safe tx_sf c u q e is (held, one, calm, short) some_sent hu hq he incoming =
      sent_sf-Safe tx_sf c ((omega arith, omega arith), held, incoming)
  sent_out-Safe tx_ff c u q e is (held, one, calm, unsent) some_sent hu hq he incoming =
      sent_ff-Safe c is ((omega arith, omega arith), held, incoming)
  sent_out-Safe tx_cf c u q e is (held, one, calm) some_sent hu hq he incoming =
      sent_cf-Safe c ((omega arith, omega arith), held, incoming)
  sent_out-Safe wait_fc c u q e is (held, quiet, one) some_sent hu hq he incoming =
      absurd (omega arith)
  sent_out-Safe tx_fc c u q e is bad some_sent hu hq he incoming = absurd bad
  sent_out-Safe wait_cf c u q e is bad some_sent hu hq he incoming = absurd bad
