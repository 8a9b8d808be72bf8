-- ===== src/Isotp/Input.antt =====
-- src/isotp_in.c: receiving a message, and the flow control frames of both directions. A handler
-- returns `none` for a fault.
use lwcan.Common.{
  ℕ, Option, none, some, ◌∷◌, ◌==◌, if◌then◌else◌, ◌>>=◌, ◌||◌, ◌&&◌, ltb, ◌-◌, not, bit_and,
}
use lwcan.Can.{LwcanErr, ok, arg, memory, aborted, Frame}
use lwcan.Timeouts.{out_flow_output, in_flow_output, output_error_handler, input_error_handler}
use lwcan.Buffer.{Buffer, buffer_new}
use lwcan.Canif.{Canif, get_by_index}
use lwcan.Isotp.Types.{
  State, idle, tx_cf, tx_fc, wait_cf, wait_fc, Flow, Options, output, input, Ctx, Platform,
  set_flow, set_state, in_state, next_sn, cf_left_pos, fs_ready, fs_wait, fs_overflow, cf_sn_mask,
  st_ms_range_max, head_addr, remove_buffer, remove_first, start_timeout, stop_timeout, report,
}
use lwcan.Isotp.Frames.{
  sf, ff, cf, fc, low_mask, byte, get_sf_dl, get_ff_dl, fill_fc, store_sf_data, store_ff_data,
  store_cf_data,
}
use lwcan.Isotp.Output.{blank, transmit}

module _ {Ext : Type 0} (p : Platform Ext) (o : Options) where
  unfoldable pub isotp_received : Option ℕ → Ctx Ext → LwcanErr × Ctx Ext
  isotp_received none c = (arg, c)
  isotp_received (some buffer) c = (ok, remove_buffer p input (some buffer) c)

  -- A whole message goes to the application, or is dropped where no callback is set.
  unfoldable pub deliver : Ctx Ext → Option (Ctx Ext)
  unfolding isotp_received
  deliver c =
      let buffer = head_addr c.pcb.input_flow.buffer in
      elim c.pcb.receive [
        | none ↦ some (isotp_received buffer c).1
        | some fn ↦ p.receive_cb fn c.pcb.callback_arg buffer c
      ]

  unfoldable pub output_fc : State → Canif → Ctx Ext → Option (Ctx Ext)
  output_fc tx_fc canif c =
      fill_fc o c.pcb.input_flow (blank p o c) >>= transmit p o input canif o.n_br c
  output_fc _ canif c = some c

  unfoldable pub isotp_in_flow_output : Ctx Ext → Option (Ctx Ext)
  unfolding output_fc
  isotp_in_flow_output c = elim (get_by_index c.pcb.if_index c.canifs) [
    | none ↦ some c
    | some canif ↦ output_fc c.pcb.input_flow.state canif c
  ]

  unfoldable pub sf_into : Frame → ℕ → Ctx Ext → Option Buffer × Ext → Option (Ctx Ext)
  unfolding deliver
  sf_into frame length c (none, e) = report p c.pcb.callback_arg memory (record c { ext = e })
  sf_into frame length c (some b, e) = do
    let flow = c.pcb.input_flow
    stored ←
        store_sf_data o (record flow { buffer = b ∷ flow.buffer; remaining_data = length })
          frame.payload frame.len
    deliver (set_flow input stored (record c { ext = e }))

  unfoldable pub received_sf : Frame → Ctx Ext → Option (Ctx Ext)
  unfolding sf_into
  received_sf frame c =
      let length = get_sf_dl o frame.payload in
      if in_state c.pcb.input_flow.state idle
      then sf_into frame length c (buffer_new p.alloc length c.ext)
      else some c

  -- The label `output` of `received_ff`
  abbrev pub answer_ff : Ctx Ext → Ctx Ext
  answer_ff c = start_timeout p 0 in_flow_output (
      set_flow input
        (record (c.pcb.input_flow) { bs = o.receive_bs; st = o.receive_st; state = tx_fc }) c)

  unfoldable pub ff_into : Frame → ℕ → Ctx Ext → Option Buffer × Ext → Option (Ctx Ext)
  ff_into frame length c (none, e) = do
    let refused =
        set_flow input (record (c.pcb.input_flow) { fs = fs_overflow }) (record c { ext = e })
    reported ← report p c.pcb.callback_arg memory refused
    some (answer_ff reported)
  ff_into frame length c (some b, e) = do
    let allocated = record c { ext = e }
    c' ← elim c.pcb.receive_ff [
      | none ↦ some allocated
      | some fn ↦ p.receive_ff_cb fn c.pcb.callback_arg allocated
    ]
    let flow = c'.pcb.input_flow
    stored ←
        store_ff_data o (record flow { buffer = b ∷ flow.buffer; remaining_data = length })
          frame.payload frame.len
    some (answer_ff (set_flow input (record stored { cf_sn = 1; fs = fs_ready }) c'))

  unfoldable pub received_ff : Frame → Ctx Ext → Option (Ctx Ext)
  unfolding ff_into
  received_ff frame c =
      let length = get_ff_dl o frame.payload in
      if in_state c.pcb.input_flow.state idle
      then ff_into frame length c (buffer_new p.alloc length c.ext)
      else some c

  -- The label `output` of `received_cf`
  abbrev pub answer_cf : Ctx Ext → Ctx Ext
  answer_cf c = start_timeout p 0 in_flow_output (set_state input tx_fc c)

  -- `received_cf` behind `store_cf_data`
  unfoldable pub cf_stored : Flow → Ctx Ext → Option (Ctx Ext)
  unfolding deliver
  cf_stored flow c =
      if flow.remaining_data == 0
      then deliver (set_flow input (record flow { state = idle }) c)
      else (if flow.bs == 0 || cf_left_pos flow.bs flow.cf_sn
          then some (
              start_timeout p o.n_cr input_error_handler
                (set_flow input (record flow { cf_sn = next_sn flow.cf_sn; state = wait_cf }) c))
          else some (
              answer_cf
                (set_flow input (record flow { cf_sn = next_sn flow.cf_sn; fs = fs_ready }) c)))

  unfoldable pub cf_accept : Frame → Ctx Ext → Option (Ctx Ext)
  unfolding cf_stored
  cf_accept frame c =
      if c.pcb.input_flow.cf_sn == bit_and (byte frame.payload 0) cf_sn_mask
      then (store_cf_data o c.pcb.input_flow frame.payload frame.len >>= λ flow. cf_stored flow c)
      else (let dropped = remove_first p input c in
          some (
            answer_cf
              (set_flow input (record (dropped.pcb.input_flow) { fs = fs_overflow }) dropped)))

  unfoldable pub received_cf : Frame → Ctx Ext → Option (Ctx Ext)
  unfolding cf_accept
  received_cf frame c =
      if in_state c.pcb.input_flow.state wait_cf
      then cf_accept frame (stop_timeout p input_error_handler c)
      else some c

  -- The separation time, where the frame's is a number of milliseconds
  abbrev pub separation : ℕ → ℕ
  separation st = if ltb st_ms_range_max st then 1 else st

  unfoldable pub fc_accept : Frame → Ctx Ext → Option (Ctx Ext)
  fc_accept frame c =
      let fs = bit_and (byte frame.payload 0) low_mask in
      let flow = record (c.pcb.output_flow) { fs = fs } in
      if (fs == fs_wait) && not (flow.n_wft == 0)
      then some (
          start_timeout p o.n_bs output_error_handler
            (set_flow output (record flow { n_wft = flow.n_wft - 1 }) c))
      else (if fs == fs_ready
          then some (
              start_timeout p 0 out_flow_output (
                set_flow output
                  (record flow {
                    bs = byte frame.payload 1;
                    st = separation (byte frame.payload 2);
                    state = tx_cf;
                  })
                  c))
          else report p c.pcb.callback_arg aborted
              (set_state output idle (remove_first p output (set_flow output flow c))))

  unfoldable pub received_fc : Frame → Ctx Ext → Option (Ctx Ext)
  unfolding fc_accept
  received_fc frame c =
      if in_state c.pcb.output_flow.state wait_fc
      then fc_accept frame (stop_timeout p output_error_handler c)
      else some c

  -- The `switch` of `isotp_input`, for the connection that the frame is for
  unfoldable pub dispatch : Frame → Ctx Ext → Option (Ctx Ext)
  dispatch frame c =
      let kind = bit_and (byte frame.payload 0) 0xf0 in
      if kind == sf
      then received_sf frame c
      else if kind == ff
      then received_ff frame c
      else if kind == cf
      then received_cf frame c
      else if kind == fc
      then received_fc frame c
      else some c
