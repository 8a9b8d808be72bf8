-- ===== src/Isotp/Safety/Consecutive.antt =====
-- A consecutive frame (src/isotp_in.c) leaves a safe connection safe and does not fault.
use lwcan.Common.{
  ◌≡◌, refl, ap, ◌∙◌, inl, inr, Option, some, ◌∷◌, arith, true, Bool-cases, ◌>>=◌, if_true,
  if_false, ◌==◌, ◌||◌, bit_and,
}
use lwcan.Can.{Frame}
use lwcan.Timeouts.{in_flow_output, input_error_handler}
use lwcan.Buffer.{with_bytes}
use lwcan.Isotp.Types.{
  State, idle, tx_sf, tx_ff, tx_cf, tx_fc, wait_cf, wait_fc, Flow, Options, input, Ctx, Platform,
  set_flow, start_timeout, stop_timeout, in_state, fs_ready, fs_overflow, head_addr, cf_left_pos,
  next_sn, cf_sn_mask,
}
use lwcan.Isotp.Frames.{byte}
use lwcan.Isotp.Frames.Stored.{store_cf_inside}
use lwcan.Isotp.Input.{cf_stored, cf_accept, answer_cf, received_cf}
use lwcan.Isotp.Safety.{View, HoldsFirst, Incoming, IsSafe, Safe, Surroundings}
use lwcan.Isotp.Safety.Steps.{input-IsSafe, start-IsSafe, stop-IsSafe, remove_input}
use lwcan.Isotp.Safety.Receiving.{Carries, flow-IsSafe, deliver-Safe, answer-IsSafe}

at_wait_cf :
    (s : State) (flow : Flow) → in_state s wait_cf ≡ true → Incoming s flow → HoldsFirst flow
at_wait_cf wait_cf flow is held = held
at_wait_cf idle flow is held = absurd (ground arith)
at_wait_cf tx_sf flow is held = absurd (ground arith)
at_wait_cf tx_ff flow is held = absurd (ground arith)
at_wait_cf tx_cf flow is held = absurd (ground arith)
at_wait_cf tx_fc flow is held = absurd (ground arith)
at_wait_cf wait_fc flow is held = absurd (ground arith)

module _ {Ext : Type 0} (p : Platform Ext) (o : Options) (v : View Ext)
    (h : Surroundings p o v) where
  cf_stored-Safe :
      (flow : Flow) (c : Ctx Ext)
      → HoldsFirst flow
      → IsSafe p o v c
      → Safe p o v (cf_stored p o flow c)
  unfolding cf_stored
  cf_stored-Safe flow c held safe = elim (Bool-cases (flow.remaining_data == 0)) [
    | inl all ↦
        let whole = record flow { state = idle } in
        let (c', e, safe') =
          deliver-Safe p o v h (set_flow input whole c) refl
            (flow-IsSafe p o v h whole c tt safe) in
        (c', if_true _ _ _ all ∙ e, safe')
    | inr more ↦ elim (Bool-cases (flow.bs == 0 || cf_left_pos flow.bs flow.cf_sn)) [
      | inl go_on ↦
          let next = record flow { cf_sn = next_sn flow.cf_sn; state = wait_cf } in
          (
            start_timeout p o.n_cr input_error_handler (set_flow input next c),
            if_false _ _ _ more ∙ if_true _ _ _ go_on,
            start-IsSafe p o v h o.n_cr input_error_handler (set_flow input next c) refl refl
                (flow-IsSafe p o v h next c held safe),
          )
      | inr block_over ↦
          let next = record flow { cf_sn = next_sn flow.cf_sn; fs = fs_ready } in
          (
            answer_cf p o (set_flow input next c),
            if_false _ _ _ more ∙ if_false _ _ _ block_over,
            answer-IsSafe p o v h (record next { state = tx_fc }) c (inr held) safe,
          )
    ]
  ]

  cf_accept-Safe :
      (frame : Frame) (c : Ctx Ext)
      → Carries o frame
      → HoldsFirst c.pcb.input_flow
      → IsSafe p o v c
      → Safe p o v (cf_accept p o frame c)
  unfolding cf_accept
  cf_accept-Safe frame c carries (b, next, held) safe =
      let flow = c.pcb.input_flow in
      elim (Bool-cases (flow.cf_sn == bit_and (byte frame.payload 0) cf_sn_mask)) [
        | inl expected ↦
            let (bytes, rest, copied, same, less) =
              store_cf_inside o flow b next held.first frame.payload frame.len carries.room
                carries.some_bytes carries.short held.left held.whole held.small in
            let stored = record flow {
              buffer = with_bytes b bytes ∷ next;
              remaining_data = rest;
            } in
            let (c', e, safe') =
              cf_stored-Safe stored c
                (
                  with_bytes b bytes,
                  next,
                  record {
                    first = refl;
                    left = omega (arith, held.left, less);
                    whole = omega (arith, held.whole, same);
                    small = held.small;
                  },
                )
                safe in
            (
              c',
              if_true _ _ _ expected ∙ (ap (λ m. m >>= λ r. cf_stored p o r c) copied ∙ e),
              safe',
            )
        | inr wrong ↦
            let (rest, e, removed, fewer, kept) = remove_input p o v h (head_addr flow.buffer) c in
            let refused = record flow { buffer = rest; fs = fs_overflow; state = tx_fc } in
            (
              answer_cf p o (
                  set_flow input (record flow { buffer = rest; fs = fs_overflow })
                    (record c { ext = e })),
              if_false _ _ _ wrong
                  ∙ ap {B = Option (Ctx Ext)}
                      (λ (r : Ctx Ext). some (
                        answer_cf p o
                          (set_flow input (record (r.pcb.input_flow) { fs = fs_overflow }) r)))
                      removed,
              start-IsSafe p o v h 0 in_flow_output (set_flow input refused (record c { ext = e }))
                  refl refl
                  (input-IsSafe p o v h refused e c fewer (kept safe.rest.2)
                    (inl (λ ready. absurd (omega (arith, ready)))) safe),
            )
      ]

  pub received_cf-Safe :
      (frame : Frame) (c : Ctx Ext)
      → Carries o frame
      → IsSafe p o v c
      → Safe p o v (received_cf p o frame c)
  unfolding received_cf
  received_cf-Safe frame c carries safe =
      elim (Bool-cases (in_state c.pcb.input_flow.state wait_cf)) [
        | inr other ↦ (c, if_false _ _ _ other, safe)
        | inl waits ↦
            let (c', e, safe') =
              cf_accept-Safe frame (stop_timeout p input_error_handler c) carries
                (at_wait_cf c.pcb.input_flow.state c.pcb.input_flow waits safe.rest.0)
                (stop-IsSafe p o v h input_error_handler c safe) in
            (c', if_true _ _ _ waits ∙ e, safe')
      ]
