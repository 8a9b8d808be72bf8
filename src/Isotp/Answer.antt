-- ===== src/Isotp/Answer.antt =====
-- How a segmented message starts on the receiver's side, in the classic build: the first frame, and
-- the flow control frame that answers it (src/isotp_in.c, `sent_fc` of src/isotp_out.c).
use lwcan.Common.{
  ℕ, ◌+◌, ◌-◌, ◌%◌, ◌/◌, ◌≤◌, ◌<◌, ◌≡◌, refl, sym, ap, ◌∙◌, false, bit_and, Option, some, none,
  List, [], ◌∷◌, ◌++◌, arith, length, drop, ◌>>=◌, if◌then◌else◌, ◌==◌, if_true,
}
use lwcan.Common.Bytes.{bit_and_high, memset_rest}
use lwcan.Can.{ok, Frame}
use lwcan.Timeouts.{in_flow_output, input_error_handler}
use lwcan.Buffer.{Buffer, buffer_new, with_bytes}
use lwcan.Canif.{Canif, get_by_index}
use lwcan.Isotp.Types.{
  Options, Flow, Ctx, Platform, input, idle, tx_fc, wait_cf, in_state, set_flow, set_state,
  start_timeout, stop_timeout,
}
use lwcan.Isotp.Frames.{fill_fc, byte, add_padding, get_ff_dl, store_ff_data}
use lwcan.Isotp.Output.{blank, transmit, isotp_sent, sent_in, sent_fc}
use lwcan.Isotp.Input.{
  dispatch, received_sf, received_ff, received_cf, received_fc, ff_into, answer_ff,
  isotp_in_flow_output, output_fc,
}
use lwcan.Isotp.First.{ff_payload, get_ff_dl_lem, store_ff_lem}
use lwcan.Isotp.Receive.{with_payload}
use lwcan.Isotp.Rounds.{Bus, answer_round, transmit_ok, blank-room}
use lwcan.Isotp.Start.{fc_payload}

pub kind_of : (n : ℕ) → bit_and (0x10 + n / 256 % 16) 0xf0 ≡ 0x10
kind_of n = bit_and_high (0x10 + n / 256 % 16) (omega arith) ∙ omega arith

module _ {Ext : Type 0} (p : Platform Ext) (o : Options) where
  pub dispatch-received_ff :
      (frame : Frame) (c : Ctx Ext)
      → bit_and (byte frame.payload 0) 0xf0 ≡ 0x10
      → dispatch p o frame c ≡ received_ff p o frame c
  unfolding dispatch
  dispatch-received_ff frame c e =
      ap
        (λ (kind : ℕ).
          if kind == 0x00
          then received_sf p o frame c
          else if kind == 0x10
          then received_ff p o frame c
          else if kind == 0x20
          then received_cf p o frame c
          else if kind == 0x30
          then received_fc p o frame c
          else some c)
        e

  -- The connection once the first frame is stored
  abbrev pub opened : ℕ → List ℕ → Buffer → Ext → Ctx Ext → Ctx Ext
  opened n bytes b e c = start_timeout p 0 in_flow_output (
      set_flow input
        (record (c.pcb.input_flow) {
          buffer = with_bytes b (bytes ++ drop 6 b.payload.bytes) ∷ c.pcb.input_flow.buffer;
          remaining_data = n - 6;
          cf_sn = 1;
          fs = 0;
          bs = o.receive_bs;
          st = o.receive_st;
          state = tx_fc;
        })
        (record c { ext = e }))

  pub received_ff-ff_into :
      (frame : Frame) (c : Ctx Ext) (n : ℕ)
      → c.pcb.input_flow.state ≡ idle
      → get_ff_dl o frame.payload ≡ n
      → received_ff p o frame c ≡ ff_into p o frame n c (buffer_new p.alloc n c.ext)
  unfolding received_ff
  received_ff-ff_into frame c n free e =
      if_true _ _ _ (ap (λ s. in_state s idle) free)
      ∙ ap (λ m. ff_into p o frame m c (buffer_new p.alloc m c.ext)) e

  ff_into-opened :
      (frame : Frame) (c : Ctx Ext) (n : ℕ) (bytes : List ℕ) (b : Buffer) (e : Ext)
      → o.canfd ≡ false
      → c.pcb.receive_ff ≡ none
      → length b.payload.bytes ≡ n
      → length bytes ≡ 6
      → 6 ≤ n
      → n < 4096
      → ff_into p o (with_payload frame (ff_payload n bytes)) n c (some b, e)
        ≡ some (opened n bytes b e c)
  unfolding ff_into
  ff_into-opened frame c n bytes b e classic quiet room six long small =
      let f = with_payload frame (ff_payload n bytes) in
      let allocated = record c { ext = e } in
      let behind = λ (c' : Ctx Ext).
        store_ff_data o
          (record (c'.pcb.input_flow) { buffer = b ∷ c'.pcb.input_flow.buffer; remaining_data = n })
          f.payload f.len
        >>= λ stored.
            some (answer_ff p o (set_flow input (record stored { cf_sn = 1; fs = 0 }) c')) in
      ap {B = Option (Ctx Ext)}
        (λ (m : Option ℕ).
          (elim m [
            | none ↦ some allocated
            | some fn ↦ p.receive_ff_cb fn c.pcb.callback_arg allocated
          ])
          >>= behind)
        quiet
      ∙ ap
          (λ m. m >>= λ stored.
            some (answer_ff p o (set_flow input (record stored { cf_sn = 1; fs = 0 }) allocated)))
          (store_ff_lem o
            (record (c.pcb.input_flow) { buffer = b ∷ c.pcb.input_flow.buffer; remaining_data = n })
            b c.pcb.input_flow.buffer n bytes classic refl six (omega (arith, room)) long
            (omega arith))

  -- In the classic build, where the input flow is idle, there is no callback for first frames and
  -- a buffer of the announced length can be allocated, a first frame that announces 6 to 4095
  -- bytes stores its six bytes in the buffer, expects serial number 1, and registers the output of
  -- a flow control frame with status 0 and the options' block size and separation time.
  pub dispatch-ff :
      (frame : Frame) (c : Ctx Ext) (n : ℕ) (bytes : List ℕ) (b : Buffer) (e : Ext)
      → o.canfd ≡ false
      → c.pcb.input_flow.state ≡ idle
      → c.pcb.receive_ff ≡ none
      → buffer_new p.alloc n c.ext ≡ (some b, e)
      → length b.payload.bytes ≡ n
      → length bytes ≡ 6
      → 6 ≤ n
      → n < 4096
      → dispatch p o (with_payload frame (ff_payload n bytes)) c ≡ some (opened n bytes b e c)
  dispatch-ff frame c n bytes b e classic free quiet new room six long small =
      let f = with_payload frame (ff_payload n bytes) in
      let announced : get_ff_dl o (ff_payload n bytes) ≡ n =
        get_ff_dl_lem o n bytes classic ∙ omega arith in
      dispatch-received_ff f c (kind_of n)
      ∙ (received_ff-ff_into f c n free announced
          ∙ (ap (ff_into p o f n c) new
              ∙ ff_into-opened frame c n bytes b e classic quiet room six long small))

module _ {Ext : Type 0} (p : Platform Ext) (o : Options) (log : Ext → List (List ℕ))
    (bus : Bus p log) where
  fill_fc-bytes :
      (flow : Flow) (frame : Frame) (l : List ℕ)
      → flow.fs ≡ 0
      → frame.payload ≡ l
      → length l ≡ 8
      → fill_fc o flow frame
        ≡ some (record frame { len = 8; payload = fc_payload o 0 flow.bs flow.st }, flow)
  unfolding fill_fc add_padding
  fill_fc-bytes flow frame (x ∷ y ∷ z ∷ l) ready ef room =
      let five : length l ≡ 5 = omega (arith, room) in
      rw (
        ef,
        ready,
        memset_rest (0x30 ∷ flow.bs ∷ flow.st ∷ []) l 3 o.padding_byte 5 refl (sym five),
      )
  fill_fc-bytes flow frame [] ready ef room = absurd (omega (arith, room))
  fill_fc-bytes flow frame (x ∷ []) ready ef room = absurd (omega (arith, room))
  fill_fc-bytes flow frame (x ∷ y ∷ []) ready ef room = absurd (omega (arith, room))

  -- The connection behind its flow control frame
  abbrev pub answered : Ctx Ext → Canif → Ctx Ext
  answered c canif =
      let frame = record (blank p o c) {
        len = 8;
        payload = fc_payload o 0 c.pcb.input_flow.bs c.pcb.input_flow.st;
      } in
      record c { ext = (p.send canif frame o.n_br input c.ext).1 }

  output-tx_fc :
      (c : Ctx Ext) (canif : Canif)
      → get_by_index c.pcb.if_index c.canifs ≡ some canif
      → c.pcb.input_flow.state ≡ tx_fc
      → c.pcb.input_flow.fs ≡ 0
      → isotp_in_flow_output p o c ≡ some (answered c canif)
  unfolding isotp_in_flow_output
  output-tx_fc c canif found w ready =
      ap {B = Option (Ctx Ext)}
        (λ (m : Option Canif). elim m [
          | none ↦ some c
          | some canif ↦ output_fc p o c.pcb.input_flow.state canif c
        ])
        found
      ∙ (ap (λ s. output_fc p o s canif c) w
          ∙ (ap (λ m. m >>= transmit p o input canif o.n_br c)
                (fill_fc-bytes c.pcb.input_flow (blank p o c) (blank p o c).payload ready refl
                  (blank-room p o log bus c))
              ∙ transmit_ok p o log bus input c canif o.n_br
                  (record (blank p o c) {
                    len = 8;
                    payload = fc_payload o 0 c.pcb.input_flow.bs c.pcb.input_flow.st;
                  })
                  c.pcb.input_flow))

  sent-tx_fc :
      (c : Ctx Ext)
      → c.pcb.input_flow.state ≡ tx_fc
      → c.pcb.input_flow.fs ≡ 0
      → isotp_sent p o input ok c
        ≡ some (start_timeout p o.n_cr input_error_handler (set_state input wait_cf c))
  unfolding isotp_sent sent_fc
  sent-tx_fc c w ready =
      ap (λ s. sent_in p o s c) w
      ∙ if_true (c.pcb.input_flow.fs == 0) _ _ (ap (λ (n : ℕ). n == 0) ready)

  -- The flow control frame goes out, and the receiver waits for the consecutive frames.
  pub answer_round-ready :
      (c : Ctx Ext) (canif : Canif)
      → get_by_index c.pcb.if_index c.canifs ≡ some canif
      → c.pcb.input_flow.state ≡ tx_fc
      → c.pcb.input_flow.fs ≡ 0
      → answer_round p o c
        ≡ some (
            start_timeout p o.n_cr input_error_handler
              (set_state input wait_cf (answered (stop_timeout p in_flow_output c) canif)))
  unfolding answer_round
  answer_round-ready c canif found w ready =
      ap (λ m. m >>= isotp_sent p o input ok)
        (output-tx_fc (stop_timeout p in_flow_output c) canif found w ready)
      ∙ sent-tx_fc (answered (stop_timeout p in_flow_output c) canif) w ready
