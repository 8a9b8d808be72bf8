-- ===== src/Isotp/Overflow.antt =====
-- Where src/isotp_in.c and src/isotp_out.c leave the protocol: a first frame that announces fewer
-- bytes than it carries, and block sizes that a serial number cannot count.
use lwcan.Common.{
  ℕ, ◌≤◌, ◌<◌, ◌≡◌, refl, ap, ◌∙◌, false, true, Option, some, none, List, ◌∷◌, arith, length, ◌-◌,
  ◌^◌, drop, ◌==◌, ◌||◌, ◌>>=◌,
}
use lwcan.Common.Bytes.{memcpy_past}
use lwcan.Can.{Frame}
use lwcan.Buffer.{Buffer, buffer_new, copy_to}
use lwcan.Isotp.Types.{Options, Flow, Ctx, Platform, input, idle, tx_cf, set_flow, cf_left_pos}
use lwcan.Isotp.Frames.{store_ff_data, get_ff_dl}
use lwcan.Canif.{Canif, get_by_index}
use lwcan.Isotp.Output.{call_sent}
use lwcan.Isotp.Message.{payloads}
use lwcan.Isotp.Rounds.{Bus, send_rounds}
use lwcan.Isotp.Send.{Sending, Out, finished, finish_output-call_sent, send-payloads}
use lwcan.Isotp.Input.{dispatch, ff_into, answer_ff}
use lwcan.Isotp.First.{ff_payload, get_ff_dl_lem}
use lwcan.Isotp.Receive.{with_payload}
use lwcan.Isotp.Answer.{kind_of, dispatch-received_ff, received_ff-ff_into}

module _ {Ext : Type 0} (p : Platform Ext) (o : Options) where
  store_ff_past :
      (flow : Flow) (b : Buffer) (next : List Buffer) (n : ℕ) (bytes : List ℕ)
      → o.canfd ≡ false
      → flow.buffer ≡ b ∷ next
      → length b.payload.bytes < 6
      → store_ff_data o flow (ff_payload n bytes) 8 ≡ none
  unfolding store_ff_data copy_to
  store_ff_past flow b next n bytes classic first short =
      rw (classic, first, memcpy_past b.payload.bytes 0 (ff_payload n bytes) 2 6 short)

  ff_into-none :
      (frame : Frame) (c : Ctx Ext) (n : ℕ) (bytes : List ℕ) (b : Buffer) (e : Ext)
      → o.canfd ≡ false
      → c.pcb.receive_ff ≡ none
      → length b.payload.bytes < 6
      → ff_into p o (with_payload frame (ff_payload n bytes)) n c (some b, e) ≡ none
  unfolding ff_into
  ff_into-none frame c n bytes b e classic quiet short =
      let f = with_payload frame (ff_payload n bytes) in
      let allocated = record c { ext = e } in
      let behind = λ (c' : Ctx Ext).
        store_ff_data o
          (record (c'.pcb.input_flow) { buffer = b ∷ c'.pcb.input_flow.buffer; remaining_data = n })
          f.payload f.len
        >>= λ stored.
            some (answer_ff p o (set_flow input (record stored { cf_sn = 1; fs = 0 }) c')) in
      ap {B = Option (Ctx Ext)}
        (λ (m : Option ℕ).
          (elim m [
            | none ↦ some allocated
            | some fn ↦ p.receive_ff_cb fn c.pcb.callback_arg allocated
          ])
          >>= behind)
        quiet
      ∙ ap
          (λ m. m >>= λ stored.
            some (answer_ff p o (set_flow input (record stored { cf_sn = 1; fs = 0 }) allocated)))
          (store_ff_past
            (record (c.pcb.input_flow) { buffer = b ∷ c.pcb.input_flow.buffer; remaining_data = n })
            b c.pcb.input_flow.buffer n bytes classic refl short)

  -- In the classic build, where the input flow is idle, there is no callback for first frames, and
  -- a buffer of the announced length is allocated, a first frame that announces fewer than six
  -- bytes makes the handler write past the end of the buffer.
  pub dispatch-ff_past :
      (frame : Frame) (c : Ctx Ext) (n : ℕ) (bytes : List ℕ) (b : Buffer) (e : Ext)
      → o.canfd ≡ false
      → c.pcb.input_flow.state ≡ idle
      → c.pcb.receive_ff ≡ none
      → buffer_new p.alloc n c.ext ≡ (some b, e)
      → length b.payload.bytes ≡ n
      → n < 6
      → dispatch p o (with_payload frame (ff_payload n bytes)) c ≡ none
  dispatch-ff_past frame c n bytes b e classic free quiet new room short =
      let f = with_payload frame (ff_payload n bytes) in
      let announced : get_ff_dl o (ff_payload n bytes) ≡ n =
        get_ff_dl_lem o n bytes classic ∙ omega arith in
      dispatch-received_ff p o f c (kind_of n)
      ∙ (received_ff-ff_into p o f c n free announced
          ∙ (ap (ff_into p o f n c) new
              ∙ ff_into-none frame c n bytes b e classic quiet (omega (arith, room))))

-- A sender of which the receiver has asked for blocks of 16 to 127 frames
pub record InBlocks {Ext : Type 0} (c : Ctx Ext) (b : Buffer) (next : List Buffer) : Type 0 where
  pub state : c.pcb.output_flow.state ≡ tx_cf
  pub first : c.pcb.output_flow.buffer ≡ b ∷ next
  pub whole : b.length ≡ length b.payload.bytes
  pub small : b.length < 2 ^ 32
  pub some_left : 0 < c.pcb.output_flow.remaining_data
  pub within : c.pcb.output_flow.remaining_data ≤ b.length
  pub sn_small : c.pcb.output_flow.cf_sn < 16
  pub low : 16 ≤ c.pcb.output_flow.bs
  pub high : c.pcb.output_flow.bs ≤ 127

-- The frames of all that is left of a message
abbrev pub left_to_send : {Ext : Type 0} → Options → Ctx Ext → Buffer → List (List ℕ)
left_to_send o c b =
    payloads o c.pcb.output_flow.remaining_data c.pcb.output_flow.cf_sn
      (drop (b.length - c.pcb.output_flow.remaining_data) b.payload.bytes)

uncounted : (bs sn : ℕ) → 16 ≤ bs → bs ≤ 127 → sn < 16 → ((bs == 0) || cf_left_pos bs sn) ≡ true
uncounted bs sn low high small = ground arith

InBlocks-Sending :
    {Ext : Type 0} (c : Ctx Ext) (b : Buffer) (next : List Buffer)
    → InBlocks c b next
    → Sending c b next
InBlocks-Sending c b next s = record {
  state = s.state;
  first = s.first;
  whole = s.whole;
  small = s.small;
  some_left = s.some_left;
  within = s.within;
  sn_small = s.sn_small;
  unlimited = λ sn below. uncounted c.pcb.output_flow.bs sn s.low s.high below;
}

-- In the classic build, where the receiver has asked for blocks of 16 to 127 frames, and the
-- sender is about to send a consecutive frame with a serial number below 16, its message whole in
-- its first buffer, its interface exists, and the driver accepts every frame and reports it sent:
-- the sender puts all frames of what is left of the message on the bus, however many, in rounds of
-- output and report without a flow control frame in between, and ends with nothing left to send;
-- all that it does then is to free the message, leave the flow idle and call the callback that it
-- had, if any, with the length of the message.
pub send-unblocked :
    {Ext : Type 0} (p : Platform Ext) (o : Options) (classic : o.canfd ≡ false)
    (log : Ext → List (List ℕ)) (bus : Bus p log) (c : Ctx Ext) (canif : Canif) (b : Buffer)
    (next : List Buffer)
    → get_by_index c.pcb.if_index c.canifs ≡ some canif
    → InBlocks c b next
    → (d : Ctx Ext) × (send_rounds p o (length (left_to_send o c b)) c
        ≡ call_sent p o b.length (finished p o b next d))
      × Out p o classic log bus c d b next (left_to_send o c b)
send-unblocked p o classic log bus c canif b next found s =
    let rest = drop (b.length - c.pcb.output_flow.remaining_data) b.payload.bytes in
    let (d, run, out) =
      send-payloads p o classic log bus c.pcb.output_flow.remaining_data rest c canif b next found
        (InBlocks-Sending c b next s) refl (omega arith) in
    (d, run ∙ finish_output-call_sent p o d b next out.message, out)
