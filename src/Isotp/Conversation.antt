-- ===== src/Isotp/Conversation.antt =====
-- A whole segmented message in the classic build, from `isotp_send` on one node to the delivery on
-- the other: the first frame, the flow control frame, and the consecutive frames.
use lwcan.Common.{
  ℕ, ◌-◌, ◌<◌, ◌≡◌, refl, sym, ap, ◌∙◌, false, some, none, List, [], ◌∷◌, ◌++◌, arith, length, take,
  drop, length-take, length-drop, length-append, take-append,
}
use lwcan.Can.{Frame, ok}
use lwcan.Timeouts.{out_flow_output, in_flow_output, output_error_handler, input_error_handler}
use lwcan.Buffer.{Buffer, buffer_new, with_bytes}
use lwcan.Canif.{Canif, get_by_index}
use lwcan.Isotp.Types.{
  Options, Ctx, Platform, idle, tx_cf, wait_fc, wait_cf, input, output, start_timeout, stop_timeout,
  set_flow, set_state,
}
use lwcan.Isotp.Output.{isotp_send, call_sent}
use lwcan.Isotp.Input.{dispatch, deliver, separation}
use lwcan.Isotp.First.{ff_payload}
use lwcan.Isotp.Receive.{with_payload, Receiving}
use lwcan.Isotp.Message.{feed}
use lwcan.Isotp.Rounds.{Bus, fired, send_round, answer_round, send_rounds}
use lwcan.Isotp.Send.{Sending, finished}
use lwcan.Isotp.Start.{
  fc_payload, started, isotp_send_lem, send_round-first, dispatch-fc_ready, behind_first,
}
use lwcan.Isotp.Answer.{opened, dispatch-ff, answer_round-ready, answered}
use lwcan.Isotp.Transfer.{InStep, transfer}

-- A buffer for `n` bytes can be allocated, and the interface of the connection is there.
pub record Provides {Ext : Type 0} (p : Platform Ext) (n : ℕ) (c : Ctx Ext) (b : Buffer) (e : Ext)
    (canif : Canif) : Type 0 where
  pub new : buffer_new p.alloc n c.ext ≡ (some b, e)
  pub room : length b.payload.bytes ≡ n
  pub size : b.length ≡ n
  pub found : get_by_index c.pcb.if_index c.canifs ≡ some canif

-- The two nodes and the message
pub record IsReady {Ext Ext' : Type 0} (o : Options) (bytes : List ℕ) (c : Ctx Ext) (c' : Ctx Ext')
    : Type 0 where
  pub classic : o.canfd ≡ false
  pub no_blocks : o.receive_bs ≡ 0
  pub long : 7 < length bytes
  pub short : length bytes < 4096
  pub output_idle : c.pcb.output_flow.state ≡ idle
  pub input_idle : c'.pcb.input_flow.state ≡ idle
  pub quiet : c'.pcb.receive_ff ≡ none

module _ {Ext Ext' : Type 0} (p : Platform Ext) (p' : Platform Ext') (o : Options) (frame : Frame)
    (log : Ext → List (List ℕ)) (log' : Ext' → List (List ℕ)) (bus : Bus p log)
    (bus' : Bus p' log') where
  -- The steps of the two nodes, each from the state that the one before left, and what they put on
  -- the bus: `frames` are the consecutive frames. `sender_done` is the sender when the last of them
  -- is reported: it frees the message, leaves the flow idle, and calls the callback that it had at
  -- first. `receiver_done` delivers a buffer with the sender's bytes to the callback that it had.
  pub record Conversation (bytes : List ℕ) (c : Ctx Ext) (e : Ext) (c' : Ctx Ext') (b' : Buffer)
      (e' : Ext') : Type 0 where
    pub sender_started : Ctx Ext
    pub sender_waiting : Ctx Ext
    pub sender_cleared : Ctx Ext
    pub sender_done : Ctx Ext
    pub sender_buffer : Buffer
    pub receiver_opened : Ctx Ext'
    pub receiver_waiting : Ctx Ext'
    pub receiver_done : Ctx Ext'
    pub frames : List (List ℕ)
    pub start : isotp_send p o (some bytes) (length bytes) c ≡ some (ok, sender_started)
    pub first : send_round p o sender_started ≡ some sender_waiting
    pub first_on_bus :
        log sender_waiting.ext ≡ log e ++ (ff_payload (length bytes) (take 6 bytes) ∷ [])
    pub open_message :
        dispatch p' o (with_payload frame (ff_payload (length bytes) (take 6 bytes))) c'
        ≡ some receiver_opened
    pub answer : answer_round p' o receiver_opened ≡ some receiver_waiting
    pub answer_on_bus : log' receiver_waiting.ext ≡ log' e' ++ (fc_payload o 0 0 o.receive_st ∷ [])
    pub clear :
        dispatch p o (with_payload frame (fc_payload o 0 0 o.receive_st)) sender_waiting
        ≡ some sender_cleared
    pub rounds :
        send_rounds p o (length frames) sender_cleared
        ≡ call_sent p o
            (length bytes)
            (finished p o sender_buffer c.pcb.output_flow.buffer sender_done)
    pub nothing_left : sender_done.pcb.output_flow.remaining_data ≡ 0
    pub still_held : sender_done.pcb.output_flow.buffer ≡ sender_buffer ∷ c.pcb.output_flow.buffer
    pub sent_bytes : sender_buffer.payload.bytes ≡ bytes
    pub sent_callback : sender_done.pcb.sent ≡ c.pcb.sent
    pub sent_arg : sender_done.pcb.callback_arg ≡ c.pcb.callback_arg
    pub frames_on_bus : log sender_done.ext ≡ log sender_waiting.ext ++ frames
    pub received : feed p' o frame frames receiver_waiting ≡ deliver p' o receiver_done
    pub message :
        receiver_done.pcb.input_flow.buffer ≡ with_bytes b' bytes ∷ c'.pcb.input_flow.buffer
    pub state : receiver_done.pcb.input_flow.state ≡ idle
    pub receive_callback : receiver_done.pcb.receive ≡ c'.pcb.receive
    pub receive_arg : receiver_done.pcb.callback_arg ≡ c'.pcb.callback_arg

  -- The contexts that the steps leave
  module _ (bytes : List ℕ) (c : Ctx Ext) (b : Buffer) (e : Ext) (canif : Canif) (c' : Ctx Ext')
      (b' : Buffer) (e' : Ext') (canif' : Canif) where
    abbrev whole : Buffer
    whole = with_bytes b bytes

    abbrev part : Buffer
    part = with_bytes b' (take 6 bytes ++ drop 6 b'.payload.bytes)

    abbrev at_first : Ctx Ext
    at_first = start_timeout p o.n_bs output_error_handler (
        set_state output wait_fc
          (behind_first p o log bus (fired p o (started p o bytes b e c)) canif whole))

    abbrev at_clear : Ctx Ext
    at_clear = start_timeout p 0 out_flow_output (
        set_flow output
          (record (at_first.pcb.output_flow) {
            fs = 0;
            bs = 0;
            st = separation p o o.receive_st;
            state = tx_cf;
          })
          (stop_timeout p output_error_handler at_first))

    abbrev at_open : Ctx Ext'
    at_open = opened p' o (length bytes) (take 6 bytes) b' e' c'

    abbrev at_answer : Ctx Ext'
    at_answer = start_timeout p' o.n_cr input_error_handler (
        set_state input wait_cf
          (answered p' o log' bus' (stop_timeout p' in_flow_output at_open) canif'))

    length-first : 7 < length bytes → length (take 6 bytes) ≡ 6
    length-first long = omega (arith, length-take 6 bytes)

    at_clear-Sending :
        IsReady o bytes c c'
        → Provides p (length bytes) c b e canif
        → Sending at_clear whole c.pcb.output_flow.buffer
    at_clear-Sending r has = record {
      state = refl;
      first = refl;
      whole = has.size;
      small = omega (arith, has.size, r.short);
      some_left = omega (arith, r.long);
      within = omega (arith, has.size);
      sn_small = omega arith;
      unlimited = λ sn small. refl;
    }

    at_answer-Receiving :
        IsReady o bytes c c'
        → Provides p' (length bytes) c' b' e' canif'
        → Receiving at_answer part c'.pcb.input_flow.buffer
    at_answer-Receiving r has = record {
      waiting = refl;
      can_store = record {
        first = refl;
        whole = omega (
          arith,
          has.size,
          has.room,
          length-first r.long,
          length-append (take 6 bytes) (drop 6 b'.payload.bytes),
          length-drop 6 b'.payload.bytes,
          r.long,
        );
        small = omega (arith, has.size, r.short);
        some_left = omega (arith, r.long);
        within = omega (arith, has.size);
      };
      sn_small = omega arith;
      no_blocks = r.no_blocks;
    }

    at_clear-InStep :
        IsReady o bytes c c'
        → Provides p (length bytes) c b e canif
        → Provides p' (length bytes) c' b' e' canif'
        → InStep at_clear whole at_answer part
    at_clear-InStep r has has' =
        let ahead : b.length - (length bytes - 6) ≡ 6 = omega (arith, has.size, r.long) in
        record {
          sn = refl;
          left = refl;
          size = has.size ∙ sym has'.size;
          got =
              ap (λ m. take m (take 6 bytes ++ drop 6 b'.payload.bytes)) ahead
              ∙ (take-append 6 (take 6 bytes) (drop 6 b'.payload.bytes) (sym (length-first r.long))
                  ∙ ap (λ m. take m bytes) (sym ahead));
        }

  -- In the classic build with no block size, where a message has 8 to 4095 bytes, the sender's
  -- output flow and the receiver's input flow are idle, the receiver has no callback for first
  -- frames, each node can allocate the message and finds its interface, and the drivers accept
  -- every frame and report it sent: isotp_send, the first frame, the flow control frame and the
  -- consecutive frames, each given to the other node's dispatcher, run without a fault up to the
  -- callbacks of the two nodes. When the last frame is reported, the sender has nothing left to
  -- send and holds the bytes given to isotp_send in front of its buffers; all that it does then is
  -- to free these, leave the flow idle and call the callback that it had, if any, with the length
  -- of the message. The receiver's flow is idle then, and it delivers a buffer that holds exactly
  -- the bytes given to isotp_send to the callback that it had.
  pub conversation :
      (bytes : List ℕ) (c : Ctx Ext) (b : Buffer) (e : Ext) (canif : Canif) (c' : Ctx Ext')
      (b' : Buffer) (e' : Ext') (canif' : Canif)
      → IsReady o bytes c c'
      → Provides p (length bytes) c b e canif
      → Provides p' (length bytes) c' b' e' canif'
      → Conversation bytes c e c' b' e'
  conversation bytes c b e canif c' b' e' canif' r has has' =
      let c1 = started p o bytes b e c in
      let d1 = at_open bytes c b e canif c' b' e' canif' in
      let c2 = at_first bytes c b e canif c' b' e' canif' in
      let (frames, d, d', done) =
        transfer p p' o frame r.classic log bus (at_clear bytes c b e canif c' b' e' canif') canif
          (whole bytes c b e canif c' b' e' canif') c.pcb.output_flow.buffer
          (at_answer bytes c b e canif c' b' e' canif') (part bytes c b e canif c' b' e' canif')
          c'.pcb.input_flow.buffer has.found
          (at_clear-Sending bytes c b e canif c' b' e' canif' r has)
          (at_answer-Receiving bytes c b e canif c' b' e' canif' r has')
          (at_clear-InStep bytes c b e canif c' b' e' canif' r has has') in
      record {
        sender_started = c1;
        sender_waiting = c2;
        sender_cleared = at_clear bytes c b e canif c' b' e' canif';
        sender_done = d;
        sender_buffer = with_bytes b bytes;
        receiver_opened = d1;
        receiver_waiting = at_answer bytes c b e canif c' b' e' canif';
        receiver_done = d';
        frames = frames;
        start = isotp_send_lem p o bytes c b e r.classic r.output_idle has.new has.room r.long;
        first =
            send_round-first p o log bus c1 canif (with_bytes b bytes) c.pcb.output_flow.buffer
              r.classic has.found refl refl refl r.long (omega (arith, r.short));
        first_on_bus = bus.logs canif _ o.n_as output e;
        open_message =
            dispatch-ff p' o frame c' (length bytes) (take 6 bytes) b' e' r.classic r.input_idle
              r.quiet has'.new has'.room (length-first bytes c b e canif c' b' e' canif' r.long)
              (omega (arith, r.long)) r.short;
        answer = answer_round-ready p' o log' bus' d1 canif' has'.found refl refl;
        answer_on_bus =
            bus'.logs canif' _ o.n_br input e'
            ∙ ap (λ n. log' e' ++ (fc_payload o 0 n o.receive_st ∷ [])) r.no_blocks;
        clear = dispatch-fc_ready p o frame c2 0 o.receive_st refl;
        rounds =
            done.sent
            ∙ ap
                (λ n.
                  call_sent p o n (finished p o (with_bytes b bytes) c.pcb.output_flow.buffer d))
                has.size;
        nothing_left = done.nothing_left;
        still_held = done.still_held;
        sent_bytes = refl;
        sent_callback = done.sent_callback;
        sent_arg = done.sent_arg;
        frames_on_bus = done.on_bus;
        received = done.received;
        message = done.message;
        state = done.state;
        receive_callback = done.receive_callback;
        receive_arg = done.receive_arg;
      }
