-- ===== src/Isotp/Single/Message.antt =====
-- A message of one to seven bytes in the classic build, from `isotp_send` on one node to the
-- delivery on the other (src/isotp_out.c, src/isotp_in.c).
use lwcan.Common.{
  ℕ, ◌≤◌, ◌<◌, ◌≡◌, refl, ap, ◌∙◌, false, Option, some, none, List, [], ◌∷◌, ◌++◌, arith, length,
  ◌>>=◌, ltb, ◌==◌, if_true, if_false,
}
use lwcan.Can.{ok, Frame}
use lwcan.Timeouts.{out_flow_output}
use lwcan.Buffer.{Buffer, buffer_new, with_bytes}
use lwcan.Canif.{Canif, get_by_index}
use lwcan.Isotp.Types.{
  Options, Ctx, Platform, output, idle, tx_sf, in_state, set_flow, start_timeout,
}
use lwcan.Isotp.Output.{
  sent_sf, isotp_send, send_buffer, sf_max, blank, transmit, output_in, isotp_out_flow_output,
  isotp_sent, sent_in, finish_output,
}
use lwcan.Isotp.Input.{dispatch, deliver}
use lwcan.Isotp.Receive.{with_payload}
use lwcan.Isotp.Rounds.{Bus, fired, send_round, transmit_ok, blank-room}
use lwcan.Isotp.Start.{copied}
use lwcan.Isotp.Single.{sf_payload, CanFillSingle, fill_sf_lem}
use lwcan.Isotp.Single.Arrival.{arrived, dispatch-sf}
use lwcan.Isotp.Conversation.{Provides}

module _ {Ext : Type 0} (p : Platform Ext) (o : Options) where
  -- The connection once `isotp_send` has returned
  abbrev pub queued : List ℕ → Buffer → Ext → Ctx Ext → Ctx Ext
  queued bytes b e c = start_timeout p 0 out_flow_output (
      set_flow output
        (record (c.pcb.output_flow) {
          buffer = with_bytes b bytes ∷ c.pcb.output_flow.buffer;
          remaining_data = length bytes;
          state = tx_sf;
        })
        (record c { ext = e }))

  send_buffer-queued :
      (bytes : List ℕ) (c : Ctx Ext) (b : Buffer) (e : Ext)
      → o.canfd ≡ false
      → length b.payload.bytes ≡ length bytes
      → 0 < length bytes
      → length bytes ≤ 7
      → send_buffer p o bytes (length bytes) c (some b, e) ≡ some (ok, queued bytes b e c)
  unfolding send_buffer
  send_buffer-queued bytes c b e classic room pos short =
      let fits : ltb (sf_max p o) (length bytes) ≡ false = rw classic (ground arith) in
      rw (copied p o bytes b c.pcb.output_flow.buffer room pos, fits)

  pub isotp_send-queued :
      (bytes : List ℕ) (c : Ctx Ext) (b : Buffer) (e : Ext)
      → o.canfd ≡ false
      → c.pcb.output_flow.state ≡ idle
      → buffer_new p.alloc (length bytes) c.ext ≡ (some b, e)
      → length b.payload.bytes ≡ length bytes
      → 0 < length bytes
      → length bytes ≤ 7
      → isotp_send p o (some bytes) (length bytes) c ≡ some (ok, queued bytes b e c)
  unfolding isotp_send
  isotp_send-queued bytes c b e classic free new room pos short =
      if_false (length bytes == 0) _ _ (ground arith)
      ∙ (if_true _ _ _ (ap (λ s. in_state s idle) free)
          ∙ (ap (send_buffer p o bytes (length bytes) c) new
              ∙ send_buffer-queued bytes c b e classic room pos short))

module _ {Ext : Type 0} (p : Platform Ext) (o : Options) (log : Ext → List (List ℕ))
    (bus : Bus p log) where
  -- The connection behind its frame
  abbrev pub behind_single : Ctx Ext → Canif → Buffer → Ctx Ext
  behind_single c canif b =
      let frame = record (blank p o c) { len = 8; payload = sf_payload o b.payload.bytes } in
      record (set_flow output (record (c.pcb.output_flow) { remaining_data = 0 }) c) {
        ext = (p.send canif frame o.n_as output c.ext).1;
      }

  output_single :
      (c : Ctx Ext) (canif : Canif) (b : Buffer) (next : List Buffer)
      → o.canfd ≡ false
      → get_by_index c.pcb.if_index c.canifs ≡ some canif
      → c.pcb.output_flow.state ≡ tx_sf
      → CanFillSingle c.pcb.output_flow (blank p o c) b next
      → isotp_out_flow_output p o c ≡ some (behind_single c canif b)
  unfolding isotp_out_flow_output
  output_single c canif b next classic found w can =
      ap {B = Option (Ctx Ext)}
        (λ (m : Option Canif). elim m [
          | none ↦ some c
          | some canif ↦ output_in p o c.pcb.output_flow.state canif c
        ])
        found
      ∙ (ap (λ s. output_in p o s canif c) w
          ∙ (ap (λ m. m >>= transmit p o output canif o.n_as c)
                (fill_sf_lem o c.pcb.output_flow (blank p o c) b next classic can)
              ∙ transmit_ok p o log bus output c canif o.n_as
                  (record (blank p o c) { len = 8; payload = sf_payload o b.payload.bytes })
                  (record (c.pcb.output_flow) { remaining_data = 0 })))

  sent-tx_sf :
      (c : Ctx Ext)
      → c.pcb.output_flow.state ≡ tx_sf
      → isotp_sent p o output ok c ≡ finish_output p o c
  unfolding isotp_sent sent_sf
  sent-tx_sf c w = ap (λ s. sent_in p o s c) w

  send_round-single :
      (c : Ctx Ext) (canif : Canif) (b : Buffer) (next : List Buffer)
      → o.canfd ≡ false
      → get_by_index c.pcb.if_index c.canifs ≡ some canif
      → c.pcb.output_flow.state ≡ tx_sf
      → CanFillSingle c.pcb.output_flow (blank p o c) b next
      → send_round p o c ≡ finish_output p o (behind_single (fired p o c) canif b)
  unfolding send_round
  send_round-single c canif b next classic found w can =
      ap (λ m. m >>= isotp_sent p o output ok)
        (output_single (fired p o c) canif b next classic found w (record {
          first = can.first;
          whole = can.whole;
          some_data = can.some_data;
          short = can.short;
          room = can.room;
        }))
      ∙ sent-tx_sf (behind_single (fired p o c) canif b) w

-- The steps of the two nodes, and what the sender puts on the bus
pub record Exchange {Ext Ext' : Type 0} (p : Platform Ext) (p' : Platform Ext') (o : Options)
    (frame : Frame) (log : Ext → List (List ℕ)) (bytes : List ℕ) (c : Ctx Ext) (b : Buffer)
    (e : Ext) (c' : Ctx Ext') (b' : Buffer) : Type 0 where
  pub sender_started : Ctx Ext
  pub sender_done : Ctx Ext
  pub receiver_done : Ctx Ext'
  pub start : isotp_send p o (some bytes) (length bytes) c ≡ some (ok, sender_started)
  pub round : send_round p o sender_started ≡ finish_output p o sender_done
  pub buffer : sender_done.pcb.output_flow.buffer ≡ with_bytes b bytes ∷ c.pcb.output_flow.buffer
  pub on_bus : log sender_done.ext ≡ log e ++ (sf_payload o bytes ∷ [])
  pub received :
      dispatch p' o (with_payload frame (sf_payload o bytes)) c' ≡ deliver p' o receiver_done
  pub message : receiver_done.pcb.input_flow.buffer ≡ with_bytes b' bytes ∷ c'.pcb.input_flow.buffer
  pub state : receiver_done.pcb.input_flow.state ≡ idle

-- In the classic build, where a message has one to seven bytes, the sender's output flow and the
-- receiver's input flow are idle, both nodes can allocate the message, and the sender's interface
-- exists and its driver accepts every frame and reports it sent: isotp_send queues the message,
-- one round puts one single frame on the bus and goes on to finish the message, and the receiver's
-- dispatcher delivers a buffer that holds exactly the bytes given to isotp_send.
pub exchange :
    {Ext Ext' : Type 0} (p : Platform Ext) (p' : Platform Ext') (o : Options) (frame : Frame)
    (log : Ext → List (List ℕ)) (bus : Bus p log) (bytes : List ℕ) (c : Ctx Ext) (b : Buffer)
    (e : Ext) (canif : Canif) (c' : Ctx Ext') (b' : Buffer) (e' : Ext')
    → o.canfd ≡ false
    → 0 < length bytes
    → length bytes ≤ 7
    → c.pcb.output_flow.state ≡ idle
    → c'.pcb.input_flow.state ≡ idle
    → Provides p (length bytes) c b e canif
    → buffer_new p'.alloc (length bytes) c'.ext ≡ (some b', e')
    → length b'.payload.bytes ≡ length bytes
    → Exchange p p' o frame log bytes c b e c' b'
exchange p p' o frame log bus bytes c b e canif c' b' e' classic pos short free free' has new room =
    let c1 = queued p o bytes b e c in
    record {
      sender_started = c1;
      sender_done = behind_single p o log bus (fired p o c1) canif (with_bytes b bytes);
      receiver_done = arrived p' o bytes b' e' c';
      start = isotp_send-queued p o bytes c b e classic free has.new has.room pos short;
      round =
          send_round-single p o log bus c1 canif (with_bytes b bytes) c.pcb.output_flow.buffer
            classic has.found refl
            (record {
              first = refl;
              whole = refl;
              some_data = pos;
              short = short;
              room = blank-room p o log bus c1;
            });
      buffer = refl;
      on_bus = bus.logs canif _ o.n_as output e;
      received = dispatch-sf p' o frame c' bytes b' e' classic free' new room pos short;
      message = refl;
      state = free';
    }
