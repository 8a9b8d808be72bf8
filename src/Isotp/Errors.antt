-- ===== src/Isotp/Errors.antt =====
-- What ends a message early: a wrong serial number, a refusal, a timeout, a driver that does not
-- take the frame (src/isotp.c, src/isotp_in.c, src/isotp_out.c).
use lwcan.Common.{
  ℕ, ◌+◌, ◌<◌, ◌≡◌, ◌≢◌, ◌⊎◌, ap, ◌∙◌, false, bit_and, Option, some, none, inl, inr, List, ◌∷◌,
  arith, ◌==◌, ◌&&◌, not, if◌then◌else◌, if_true, if_false, ==_self,
}
use lwcan.Common.Bytes.{bit_and_low, bit_and_high}
use lwcan.Can.{is_ok, aborted, transmit_timeout, receive_timeout, Frame}
use lwcan.Timeouts.{in_flow_output, output_error_handler, input_error_handler}
use lwcan.Buffer.{Buffer, buffer_delete}
use lwcan.Canif.{Canif}
use lwcan.Isotp.Types
use lwcan.Isotp.Types.{
  Options, Flow, Ctx, Platform, Direction, input, output, State, idle, wait_cf, wait_fc, tx_fc,
  tx_cf, in_state, set_flow, set_state, flow_of, start_timeout, stop_timeout, report, remove_first,
  remove_buffer, unlink_buffer, next_sn, cf_left_pos, cf_sn_mask,
}
use lwcan.Isotp.Frames.{byte}
use lwcan.Isotp.Output.{transmit, after_output}
use lwcan.Isotp.Input.{
  dispatch, received_sf, received_ff, received_cf, received_fc, fc_accept, cf_accept, answer_cf,
}
use lwcan.Isotp.Receive.{with_payload, dispatch-received_cf, received_cf-cf_accept}
use lwcan.Isotp.Start.{fc_payload}

module _ {Ext : Type 0} (p : Platform Ext) (o : Options) where
  -- The connection without the first buffer of a flow, which is freed
  abbrev pub dropped : Direction → Buffer → List Buffer → Ctx Ext → Ctx Ext
  dropped d b next c =
      set_flow d (record (flow_of d c) { buffer = next })
        (record c { ext = buffer_delete p.alloc b c.ext })

  pub remove_first-dropped :
      (d : Direction) (c : Ctx Ext) (b : Buffer) (next : List Buffer)
      → (flow_of d c).buffer ≡ b ∷ next
      → remove_first p d c ≡ dropped d b next c
  unfolding remove_buffer unlink_buffer
  remove_first-dropped d c b next e =
      ap (λ l. remove_buffer p d (Types.head_addr l) c) e
      ∙ ap {B = Ctx Ext}
          (λ (m : Option (Buffer × List Buffer)). elim m [
            | none ↦ c
            | some (found, rest) ↦
                set_flow d (record (flow_of d c) { buffer = rest })
                  (record c { ext = buffer_delete p.alloc found c.ext })
          ])
          (ap (unlink_buffer b.addr) e ∙ if_true (b.addr == b.addr) _ _ (==_self b.addr))

  -- Where the receiver waits for a consecutive frame, one with another serial number than the
  -- expected one cancels the timeout, frees the message's buffer, and registers the output of a
  -- flow control frame with status 2.
  pub dispatch-cf_wrong :
      (frame : Frame) (c : Ctx Ext) (b : Buffer) (next : List Buffer) (sn : ℕ) (bytes : List ℕ)
      → c.pcb.input_flow.state ≡ wait_cf
      → c.pcb.input_flow.buffer ≡ b ∷ next
      → sn < 16
      → sn ≢ c.pcb.input_flow.cf_sn
      → dispatch p o (with_payload frame ((0x20 + sn) ∷ bytes)) c
        ≡ some (
            start_timeout p 0 in_flow_output (
              set_flow input
                (record (c.pcb.input_flow) { buffer = next; fs = 2; state = tx_fc })
                (record (stop_timeout p input_error_handler c) {
                  ext = buffer_delete p.alloc b c.ext;
                })))
  unfolding cf_accept
  dispatch-cf_wrong frame c b next sn bytes w first small wrong =
      let f = with_payload frame ((0x20 + sn) ∷ bytes) in
      let s = stop_timeout p input_error_handler c in
      let read : bit_and (0x20 + sn) cf_sn_mask ≡ sn =
        bit_and_low (0x20 + sn) (omega arith) ∙ omega arith in
      dispatch-received_cf p o f c (bit_and_high (0x20 + sn) (omega arith) ∙ omega arith)
      ∙ (received_cf-cf_accept p o f c w
          ∙ (if_false (c.pcb.input_flow.cf_sn == bit_and (0x20 + sn) cf_sn_mask) _ _
                (ap (λ (n : ℕ). c.pcb.input_flow.cf_sn == n) read ∙ ground arith)
              ∙ ap
                  (λ (r : Ctx Ext).
                    some (answer_cf p o (set_flow input (record (r.pcb.input_flow) { fs = 2 }) r)))
                  (remove_first-dropped input s b next first)))

  dispatch-received_fc :
      (frame : Frame) (c : Ctx Ext)
      → bit_and (byte frame.payload 0) 0xf0 ≡ 0x30
      → dispatch p o frame c ≡ received_fc p o frame c
  unfolding dispatch
  dispatch-received_fc frame c e =
      ap
        (λ (kind : ℕ).
          if kind == 0x00
          then received_sf p o frame c
          else if kind == 0x10
          then received_ff p o frame c
          else if kind == 0x20
          then received_cf p o frame c
          else if kind == 0x30
          then received_fc p o frame c
          else some c)
        e

  received_fc-fc_accept :
      (frame : Frame) (c : Ctx Ext)
      → c.pcb.output_flow.state ≡ wait_fc
      → received_fc p o frame c ≡ fc_accept p o frame (stop_timeout p output_error_handler c)
  unfolding received_fc
  received_fc-fc_accept frame c w = if_true _ _ _ (ap (λ s. in_state s wait_fc) w)

  not_waiting : (fs n : ℕ) → (fs ≢ 1) ⊎ (n ≡ 0) → ((fs == 1) && not (n == 0)) ≡ false
  not_waiting fs n (inl h) = ground arith
  not_waiting fs n (inr h) = ground arith

  fc_accept-refused :
      (frame : Frame) (c : Ctx Ext) (b : Buffer) (next : List Buffer) (fs bs st : ℕ)
      → c.pcb.output_flow.buffer ≡ b ∷ next
      → fs < 16
      → fs ≢ 0
      → (fs ≢ 1) ⊎ (c.pcb.output_flow.n_wft ≡ 0)
      → fc_accept p o (with_payload frame (fc_payload o fs bs st)) c
        ≡ report p c.pcb.callback_arg aborted (
            set_flow output
              (record (c.pcb.output_flow) { buffer = next; fs = fs; state = idle })
              (record c { ext = buffer_delete p.alloc b c.ext }))
  unfolding fc_accept
  fc_accept-refused frame c b next fs bs st first small refused last =
      let read : bit_and (0x30 + fs) 0x0f ≡ fs =
        bit_and_low (0x30 + fs) (omega arith) ∙ omega arith in
      let unready : (fs == 0) ≡ false = ground arith in
      rw (read, not_waiting fs c.pcb.output_flow.n_wft last, unready)
        (ap (λ (r : Ctx Ext). report p c.pcb.callback_arg aborted (set_state output idle r))
          (remove_first-dropped output (set_flow output (record (c.pcb.output_flow) { fs = fs }) c)
            b next first))

  -- Where the sender waits for a flow control frame, one with a status other than 0, and other
  -- than 1 unless no waits are left, cancels the timeout, frees the message's buffer, leaves the
  -- flow idle and reports an aborted operation with the application's argument.
  pub dispatch-fc_refused :
      (frame : Frame) (c : Ctx Ext) (b : Buffer) (next : List Buffer) (fs bs st : ℕ)
      → c.pcb.output_flow.state ≡ wait_fc
      → c.pcb.output_flow.buffer ≡ b ∷ next
      → fs < 16
      → fs ≢ 0
      → (fs ≢ 1) ⊎ (c.pcb.output_flow.n_wft ≡ 0)
      → dispatch p o (with_payload frame (fc_payload o fs bs st)) c
        ≡ report p c.pcb.callback_arg aborted (
            set_flow output
              (record (c.pcb.output_flow) { buffer = next; fs = fs; state = idle })
              (record (stop_timeout p output_error_handler c) {
                ext = buffer_delete p.alloc b c.ext;
              }))
  dispatch-fc_refused frame c b next fs bs st w first small refused last =
      let f = with_payload frame (fc_payload o fs bs st) in
      dispatch-received_fc f c (bit_and_high (0x30 + fs) (omega arith) ∙ omega arith)
      ∙ (received_fc-fc_accept f c w
          ∙ fc_accept-refused frame (stop_timeout p output_error_handler c) b next fs bs st first
              small refused last)

  -- Where the output flow has a buffer, its timeout frees it, leaves the flow idle, and reports a
  -- transmit timeout with the address of the connection as the callback's argument.
  pub output_error_handler_lem :
      (c : Ctx Ext) (b : Buffer) (next : List Buffer)
      → c.pcb.output_flow.buffer ≡ b ∷ next
      → Types.output_error_handler p c
        ≡ report p c.pcb.addr transmit_timeout (
            set_flow output
              (record (c.pcb.output_flow) { buffer = next; state = idle })
              (record c { ext = buffer_delete p.alloc b c.ext }))
  unfolding Types.output_error_handler
  output_error_handler_lem c b next first =
      ap (λ (r : Ctx Ext). report p c.pcb.addr transmit_timeout (set_state output idle r))
        (remove_first-dropped output c b next first)

  -- Where the input flow has a buffer, its timeout frees it, leaves the flow idle, and reports a
  -- receive timeout with the address of the connection as the callback's argument.
  pub input_error_handler_lem :
      (c : Ctx Ext) (b : Buffer) (next : List Buffer)
      → c.pcb.input_flow.buffer ≡ b ∷ next
      → Types.input_error_handler p c
        ≡ report p c.pcb.addr receive_timeout (
            set_flow input
              (record (c.pcb.input_flow) { buffer = next; state = idle })
              (record c { ext = buffer_delete p.alloc b c.ext }))
  unfolding Types.input_error_handler
  input_error_handler_lem c b next first =
      ap (λ (r : Ctx Ext). report p c.pcb.addr receive_timeout (set_state input idle r))
        (remove_first-dropped input c b next first)

  -- Where the driver does not accept the frame of a flow that has a buffer, the buffer is freed,
  -- the flow is idle, and the driver's error is reported with the application's argument.
  pub transmit_refused :
      (d : Direction) (c : Ctx Ext) (canif : Canif) (time_ms : ℕ) (f : Frame) (flow : Flow)
      (b : Buffer) (next : List Buffer)
      → flow.buffer ≡ b ∷ next
      → is_ok (p.send canif f time_ms d c.ext).0 ≡ false
      → transmit p o d canif time_ms c (f, flow)
        ≡ report p c.pcb.callback_arg (p.send canif f time_ms d c.ext).0 (
            set_flow d
              (record flow { buffer = next; state = idle })
              (record c { ext = buffer_delete p.alloc b (p.send canif f time_ms d c.ext).1 }))
  unfolding after_output
  transmit_refused output c canif time_ms f flow b next first refused =
      if_false _ _ _ refused
      ∙ ap
          (λ (r : Ctx Ext).
            report p c.pcb.callback_arg (p.send canif f time_ms output c.ext).0
              (set_state output idle r))
          (remove_first-dropped output
            (record (set_flow output flow c) { ext = (p.send canif f time_ms output c.ext).1 }) b
            next first)
  transmit_refused input c canif time_ms f flow b next first refused =
      if_false _ _ _ refused
      ∙ ap
          (λ (r : Ctx Ext).
            report p c.pcb.callback_arg (p.send canif f time_ms input c.ext).0
              (set_state input idle r))
          (remove_first-dropped input
            (record (set_flow input flow c) { ext = (p.send canif f time_ms input c.ext).1 }) b next
            first)
