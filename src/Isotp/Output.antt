-- ===== src/Isotp/Output.antt =====
-- src/isotp_out.c: sending a message. A handler returns `none` for a fault.
use lwcan.Common.{ℕ, Option, none, some, List, [], ◌∷◌, ◌==◌, if◌then◌else◌, ◌>>=◌, ◌||◌, ltb, ◌-◌}
use lwcan.Can.{
  LwcanErr, ok, arg, memory, in_progress, aborted, is_ok, Frame, canfd_brs, canfd_max_dlen,
  can_max_dlen,
}
use lwcan.Timeouts.{out_flow_output, output_error_handler, input_error_handler}
use lwcan.Buffer.{Buffer, buffer_new, copy_to}
use lwcan.Canif.{Canif, get_by_index}
use lwcan.Isotp.Types.{
  State, idle, tx_sf, tx_ff, tx_cf, tx_fc, wait_cf, wait_fc, Flow, Options, Direction, output,
  input, Ctx, Platform, flow_of, set_flow, set_state, in_state, next_sn, cf_left_pos, fs_ready,
  remove_first, start_timeout, report,
}
use lwcan.Isotp.Frames.{fill_sf, fill_ff, fill_cf}

module _ {Ext : Type 0} (p : Platform Ext) (o : Options) where
  -- `if (pcb->sent != NULL) pcb->sent(pcb->callback_arg, pcb, length)`
  abbrev pub call_sent : ℕ → Ctx Ext → Option (Ctx Ext)
  call_sent length c = elim c.pcb.sent [
    | none ↦ some c
    | some fn ↦ p.sent_cb fn c.pcb.callback_arg length c
  ]

  -- The message is sent: `flow->buffer->length` faults on NULL.
  abbrev pub finish_output : Ctx Ext → Option (Ctx Ext)
  finish_output c = elim c.pcb.output_flow.buffer [
    | [] ↦ none
    | b ∷ next ↦ call_sent b.length (set_state output idle (remove_first p output c))
  ]

  unfoldable pub sent_sf : Ctx Ext → Option (Ctx Ext)
  sent_sf c = finish_output c

  unfoldable pub sent_ff : Ctx Ext → Option (Ctx Ext)
  sent_ff c =
      if in_state c.pcb.output_flow.state tx_ff
      then some (start_timeout p o.n_bs output_error_handler (set_state output wait_fc c))
      else some c

  unfoldable pub sent_cf : Ctx Ext → Option (Ctx Ext)
  sent_cf c =
      let flow = c.pcb.output_flow in
      if flow.remaining_data == 0
      then finish_output c
      else (if flow.bs == 0 || cf_left_pos flow.bs flow.cf_sn
          then some (
              start_timeout p flow.st out_flow_output
                (set_flow output (record flow { cf_sn = next_sn flow.cf_sn; state = tx_cf }) c))
          else some (
              start_timeout p o.n_bs output_error_handler
                (set_flow output (record flow { cf_sn = next_sn flow.cf_sn; state = wait_fc }) c)))

  unfoldable pub sent_fc : Ctx Ext → Option (Ctx Ext)
  sent_fc c =
      if c.pcb.input_flow.fs == fs_ready
      then some (start_timeout p o.n_cr input_error_handler (set_state input wait_cf c))
      else report p c.pcb.callback_arg aborted (set_state input idle c)

  -- The `switch` of `isotp_sent`
  unfoldable pub sent_in : State → Ctx Ext → Option (Ctx Ext)
  unfolding sent_sf sent_ff sent_cf sent_fc
  sent_in tx_sf c = sent_sf c
  sent_in tx_ff c = sent_ff c
  sent_in tx_cf c = sent_cf c
  sent_in tx_fc c = sent_fc c
  sent_in _ c = some c

  -- `isotp_sent`, which the driver calls with the flow that it was given. Behind an error the
  -- state is read again, after the callback.
  unfoldable pub isotp_sent : Direction → LwcanErr → Ctx Ext → Option (Ctx Ext)
  unfolding sent_in
  isotp_sent d error c =
      (if is_ok error
        then some c
        else report p c.pcb.callback_arg error (set_state d idle (remove_first p d c)))
      >>= λ c'. sent_in (flow_of d c').state c'

  -- How the driver's answer is handled: the frame is dropped where it refuses.
  unfoldable pub after_output : Direction → LwcanErr → Ctx Ext → Option (Ctx Ext)
  after_output d ret c =
      if is_ok ret
      then some c
      else report p c.pcb.callback_arg ret (set_state d idle (remove_first p d c))

  -- `canif->output(canif, &frame, …, timeout, isotp_sent, flow)`
  abbrev pub transmit : Direction → Canif → ℕ → Ctx Ext → Frame × Flow → Option (Ctx Ext)
  transmit d canif timeout c (frame, flow) =
      let answer = p.send canif frame timeout d c.ext in
      after_output d answer.0 (record (set_flow d flow c) { ext = answer.1 })

  -- The frame before it is filled
  abbrev pub blank : Ctx Ext → Frame
  blank c =
      let frame = p.uninit c.ext in
      if o.canfd
      then record frame {
        can_id = c.pcb.tx_id;
        flags = if o.canfd_brs then canfd_brs else frame.flags;
      }
      else record frame { can_id = c.pcb.tx_id }

  unfoldable pub output_in : State → Canif → Ctx Ext → Option (Ctx Ext)
  unfolding after_output
  output_in tx_sf canif c = fill_sf o c.pcb.output_flow (blank c) >>= transmit output canif o.n_as c
  output_in tx_ff canif c = fill_ff o c.pcb.output_flow (blank c) >>= transmit output canif o.n_as c
  output_in tx_cf canif c = fill_cf o c.pcb.output_flow (blank c) >>= transmit output canif o.n_cs c
  output_in _ canif c = some c

  unfoldable pub isotp_out_flow_output : Ctx Ext → Option (Ctx Ext)
  unfolding output_in
  isotp_out_flow_output c = elim (get_by_index c.pcb.if_index c.canifs) [
    | none ↦ some c
    | some canif ↦ output_in c.pcb.output_flow.state canif c
  ]

  -- The longest message of a single frame
  abbrev pub sf_max : ℕ
  sf_max = if o.canfd then canfd_max_dlen - 2 else can_max_dlen - 1

  -- The flow of a message that has been copied to a new buffer
  abbrev pub start_output : List Buffer → ℕ → Flow → Flow
  start_output buffer length flow =
      if ltb sf_max length
      then record flow {
        buffer = buffer;
        remaining_data = length;
        state = tx_ff;
        cf_sn = 1;
        n_wft = o.n_wft;
      }
      else record flow { buffer = buffer; remaining_data = length; state = tx_sf }

  unfoldable pub send_buffer :
      List ℕ → ℕ → Ctx Ext → Option Buffer × Ext → Option (LwcanErr × Ctx Ext)
  send_buffer bytes length c (none, e) = some (memory, record c { ext = e })
  send_buffer bytes length c (some b, e) = do
    copied ← copy_to (b ∷ c.pcb.output_flow.buffer) bytes 0 length
    let started =
        set_flow output (start_output copied.1 length c.pcb.output_flow) (record c { ext = e })
    some (ok, start_timeout p 0 out_flow_output started)

  -- `isotp_send`; `bytes` is what `data` points to, and NULL is refused (`none`).
  unfoldable pub isotp_send : Option (List ℕ) → ℕ → Ctx Ext → Option (LwcanErr × Ctx Ext)
  unfolding send_buffer
  isotp_send none length c = some (arg, c)
  isotp_send (some bytes) length c =
      if length == 0
      then some (arg, c)
      else (if in_state c.pcb.output_flow.state idle
          then send_buffer bytes length c (buffer_new p.alloc length c.ext)
          else some (in_progress, c))
