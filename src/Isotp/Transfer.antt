-- ===== src/Isotp/Transfer.antt =====
-- A segmented message from one connection to another, in the classic build: the frames that
-- src/isotp_out.c puts on the bus are given to src/isotp_in.c of the other node.
use lwcan.Common.{
  ℕ, ◌-◌, ◌≡◌, refl, ap, ◌∙◌, false, some, List, ◌∷◌, ◌++◌, arith, length, take, drop,
  take-append-drop, length-drop,
}
use lwcan.Can.{Frame}
use lwcan.Buffer.{Buffer, with_bytes}
use lwcan.Canif.{Canif, get_by_index}
use lwcan.Isotp.Types.{Options, Ctx, Platform, idle}
use lwcan.Isotp.Output.{call_sent}
use lwcan.Isotp.Input.{deliver}
use lwcan.Isotp.Receive.{Receiving}
use lwcan.Isotp.Message.{payloads, feed, feed-payloads}
use lwcan.Isotp.Rounds.{Bus, send_rounds}
use lwcan.Isotp.Send.{Sending, finished, finish_output-call_sent, send-payloads}

-- Both nodes are behind the same byte of the same message: the serial numbers and the lengths
-- agree, and the receiver has the bytes that the sender counts as sent.
pub record InStep {Ext Ext' : Type 0} (c : Ctx Ext) (b : Buffer) (c' : Ctx Ext') (b' : Buffer)
    : Type 0 where
  pub sn : c.pcb.output_flow.cf_sn ≡ c'.pcb.input_flow.cf_sn
  pub left : c.pcb.output_flow.remaining_data ≡ c'.pcb.input_flow.remaining_data
  pub size : b.length ≡ b'.length
  pub got :
      take (b.length - c.pcb.output_flow.remaining_data) b'.payload.bytes
      ≡ take (b.length - c.pcb.output_flow.remaining_data) b.payload.bytes

module _ {Ext Ext' : Type 0} (p : Platform Ext) (p' : Platform Ext') (o : Options) (frame : Frame)
    (classic : o.canfd ≡ false) (log : Ext → List (List ℕ)) (bus : Bus p log) where
  -- What the two nodes have done once the frames `frames` are sent and received: `d` is the sender
  -- when the last of them is reported, with nothing left to send. All that is to do then is to free
  -- the message, leave the flow idle, and call the callback that the sender had at first.
  pub record Transferred (c : Ctx Ext) (b : Buffer) (next : List Buffer) (c' : Ctx Ext')
      (b' : Buffer) (next' : List Buffer) (frames : List (List ℕ)) (d : Ctx Ext) (d' : Ctx Ext')
      : Type 0 where
    pub sent : send_rounds p o (length frames) c ≡ call_sent p o b.length (finished p o b next d)
    pub nothing_left : d.pcb.output_flow.remaining_data ≡ 0
    pub still_held : d.pcb.output_flow.buffer ≡ b ∷ next
    pub sent_callback : d.pcb.sent ≡ c.pcb.sent
    pub sent_arg : d.pcb.callback_arg ≡ c.pcb.callback_arg
    pub on_bus : log d.ext ≡ log c.ext ++ frames
    pub received : feed p' o frame frames c' ≡ deliver p' o d'
    pub message : d'.pcb.input_flow.buffer ≡ with_bytes b' b.payload.bytes ∷ next'
    pub state : d'.pcb.input_flow.state ≡ idle
    pub receive_callback : d'.pcb.receive ≡ c'.pcb.receive
    pub receive_arg : d'.pcb.callback_arg ≡ c'.pcb.callback_arg

  -- In the classic build with no block size, where a sender and a receiver are behind the same
  -- byte of a message, the sender's interface exists and its driver accepts every frame and
  -- reports it sent, as many rounds of output and report as there are frames put these on the bus,
  -- and end with nothing left to send and the message in front of the sender's buffers, where all
  -- that it does is to free it, leave the flow idle and call the callback that it had, if any,
  -- with the length of the message; and these frames make the receiver deliver exactly the
  -- sender's bytes to the callback that it had, with its flow idle.
  pub transfer :
      (c : Ctx Ext) (canif : Canif) (b : Buffer) (next : List Buffer) (c' : Ctx Ext') (b' : Buffer)
      (next' : List Buffer)
      → get_by_index c.pcb.if_index c.canifs ≡ some canif
      → Sending c b next
      → Receiving c' b' next'
      → InStep c b c' b'
      → (frames : List (List ℕ)) × (d : Ctx Ext) × (d' : Ctx Ext') × Transferred c b next c' b'
          next' frames d d'
  transfer c canif b next c' b' next' found s r step =
      let n : ℕ = c.pcb.output_flow.remaining_data in
      let rest = drop (b.length - n) b.payload.bytes in
      let size : length rest ≡ n =
        omega (arith, length-drop (b.length - n) b.payload.bytes, s.whole, s.within) in
      let (d, run, out) =
        send-payloads p o classic log bus n rest c canif b next found s refl (omega arith) in
      let (d', run', done) =
        feed-payloads p' o frame n rest c' b' next' r (size ∙ step.left) (omega (arith, size)) in
      (
        payloads o n c.pcb.output_flow.cf_sn rest,
        d,
        d',
        record {
          sent = run ∙ finish_output-call_sent p o d b next out.message;
          nothing_left = out.done;
          still_held = out.message;
          sent_callback = out.callback;
          sent_arg = out.callback_arg;
          on_bus = out.bus_log;
          received = ap (λ sn. feed p' o frame (payloads o n sn rest) c') step.sn ∙ run';
          message =
              done.message
              ∙ ap (λ l. with_bytes b' l ∷ next')
                  (ap (λ m. take m b'.payload.bytes ++ rest) (omega (arith, size, step.size))
                    ∙ (ap (λ l. l ++ rest) step.got
                        ∙ take-append-drop (b.length - n) b.payload.bytes));
          state = done.state;
          receive_callback = done.callback;
          receive_arg = done.callback_arg;
        },
      )
