-- ===== src/Isotp/Safety/Answering.antt =====
-- The dispatcher, the output of flow control frames and the input flow's timeout (src/isotp_in.c,
-- src/isotp.c) leave a safe connection safe and do not fault.
use lwcan.Common.{
  ◌≡◌, refl, ap, ◌∙◌, inl, inr, Option, none, some, Bool-cases, Option-cases, ◌>>=◌, if_true,
  if_false, ◌==◌, ==_iff, bit_and,
}
use lwcan.Can.{receive_timeout, is_ok, Frame}
use lwcan.Canif.{Canif, get_by_index}
use lwcan.Isotp.Types
use lwcan.Isotp.Types.{
  State, idle, tx_sf, tx_ff, tx_cf, tx_fc, wait_cf, wait_fc, Flow, Options, output, input, Ctx,
  Platform, set_flow, set_state, stop_timeout, report, remove_first, in_state, max_dlen, head_addr,
}
use lwcan.Isotp.Frames.{byte, sf, ff, cf, fc}
use lwcan.Isotp.Frames.Later.{fill_fc_inside}
use lwcan.Isotp.Output.{transmit, after_output, blank}
use lwcan.Isotp.Input.{dispatch, output_fc, isotp_in_flow_output}
use lwcan.Isotp.Safety.{View, IsSafe, Safe, Surroundings}
use lwcan.Isotp.Safety.Steps.{report-Safe, input-IsSafe}
use lwcan.Isotp.Safety.Sending.{blank_room}
use lwcan.Isotp.Safety.Reports.{drop_input-IsSafe}
use lwcan.Isotp.Safety.Control.{received_fc-Safe}
use lwcan.Isotp.Safety.Receiving.{Carries, received_sf-Safe}
use lwcan.Isotp.Safety.First.{received_ff-Safe}
use lwcan.Isotp.Safety.Consecutive.{received_cf-Safe}

module _ {Ext : Type 0} (p : Platform Ext) (o : Options) (v : View Ext)
    (h : Surroundings p o v) where
  pub dispatch-Safe :
      (frame : Frame) (c : Ctx Ext)
      → Carries o frame
      → IsSafe p o v c
      → Safe p o v (dispatch p o frame c)
  unfolding dispatch
  dispatch-Safe frame c carries safe =
      let kind = bit_and (byte frame.payload 0) 0xf0 in
      elim (Bool-cases (kind == sf)) [
        | inl is ↦
            let (c', e, safe') =
              received_sf-Safe p o v h frame c carries (carries.single ((==_iff _ _).0 is)) safe in
            (c', if_true _ _ _ is ∙ e, safe')
        | inr no_sf ↦ elim (Bool-cases (kind == ff)) [
          | inl is ↦
              let kind_is : kind ≡ ff = (==_iff _ _).0 is in
              let (c', e, safe') =
                received_ff-Safe p o v h frame c carries (carries.starts kind_is)
                  (carries.announced kind_is) (carries.small kind_is) safe in
              (c', if_false _ _ _ no_sf ∙ (if_true _ _ _ is ∙ e), safe')
          | inr no_ff ↦ elim (Bool-cases (kind == cf)) [
            | inl is ↦
                let (c', e, safe') = received_cf-Safe p o v h frame c carries safe in
                (c', if_false _ _ _ no_sf ∙ (if_false _ _ _ no_ff ∙ (if_true _ _ _ is ∙ e)), safe')
            | inr no_cf ↦ elim (Bool-cases (kind == fc)) [
              | inl is ↦
                  let (c', e, safe') = received_fc-Safe p o v h frame c safe in
                  (
                    c',
                    if_false _ _ _ no_sf
                        ∙ (if_false _ _ _ no_ff ∙ (if_false _ _ _ no_cf ∙ (if_true _ _ _ is ∙ e))),
                    safe',
                  )
              | inr no_fc ↦ (
                c,
                if_false _ _ _ no_sf
                    ∙ (if_false _ _ _ no_ff ∙ (if_false _ _ _ no_cf ∙ if_false _ _ _ no_fc)),
                safe,
              )
            ]
          ]
        ]
      ]

  output_fc-Safe :
      (s : State) (canif : Canif) (c : Ctx Ext)
      → IsSafe p o v c
      → Safe p o v (output_fc p o s canif c)
  unfolding output_fc after_output
  output_fc-Safe tx_fc canif c safe =
      let (frame, e) = fill_fc_inside o c.pcb.input_flow (blank p o c) (blank_room p o v h c) in
      let answer = p.send canif frame o.n_br input c.ext in
      let answered = record c { ext = answer.1 } in
      let safe' =
        input-IsSafe p o v h c.pcb.input_flow answer.1 c (h.answers canif frame o.n_br c.ext)
          (h.sends canif frame o.n_br input c.timers c.ext safe.rest.2) safe.rest.0 safe in
      elim (Bool-cases (is_ok answer.0)) [
        | inl accepted ↦ (
          answered,
          ap (λ m. m >>= transmit p o input canif o.n_br c) e ∙ if_true _ _ _ accepted,
          safe',
        )
        | inr refused ↦
            let (c', r, left) =
              report-Safe p o v h c.pcb.callback_arg answer.0
                (set_state input idle (remove_first p input answered))
                (drop_input-IsSafe p o v h answered safe') in
            (
              c',
              ap (λ m. m >>= transmit p o input canif o.n_br c) e ∙ (if_false _ _ _ refused ∙ r),
              left,
            )
      ]
  output_fc-Safe idle canif c safe = (c, refl, safe)
  output_fc-Safe tx_sf canif c safe = (c, refl, safe)
  output_fc-Safe tx_ff canif c safe = (c, refl, safe)
  output_fc-Safe tx_cf canif c safe = (c, refl, safe)
  output_fc-Safe wait_cf canif c safe = (c, refl, safe)
  output_fc-Safe wait_fc canif c safe = (c, refl, safe)

  pub in_flow_output-Safe : (c : Ctx Ext) → IsSafe p o v c → Safe p o v (isotp_in_flow_output p o c)
  unfolding isotp_in_flow_output
  in_flow_output-Safe c safe =
      let by_canif : Option Canif → Option (Ctx Ext) = (λ m. elim m [
        | none ↦ some c
        | some canif ↦ output_fc p o c.pcb.input_flow.state canif c
      ]) in
      elim (Option-cases (get_by_index c.pcb.if_index c.canifs)) [
        | inl missing ↦ (c, ap {B = Option (Ctx Ext)} by_canif missing, safe)
        | inr (canif, found) ↦
            let (c', e, safe') = output_fc-Safe c.pcb.input_flow.state canif c safe in
            (c', ap {B = Option (Ctx Ext)} by_canif found ∙ e, safe')
      ]

  pub input_error-Safe : (c : Ctx Ext) → IsSafe p o v c → Safe p o v (Types.input_error_handler p c)
  unfolding Types.input_error_handler
  input_error-Safe c safe =
      report-Safe p o v h c.pcb.addr receive_timeout (set_state input idle (remove_first p input c))
        (drop_input-IsSafe p o v h c safe)
