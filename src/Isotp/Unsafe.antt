-- ===== src/Isotp/Unsafe.antt =====
-- Where a connection of src/isotp_in.c and src/isotp_out.c is not safe, or comes to a stop: a single
-- frame that announces more than it has, an error callback that sends, a full list of timeouts.
use lwcan.Common.{
  ℕ, ◌≤◌, ◌<◌, ◌≡◌, refl, ap, ◌∙◌, false, Option, some, none, List, [], ◌∷◌, arith, length, ◌==◌,
  ◌>>=◌, if_true, if_false,
}
use lwcan.Common.Bytes.{memcpy_past_source, bit_and_high, bit_and_low}
use lwcan.Can.{LwcanErr, ok, in_progress, is_ok, Frame}
use lwcan.Pool.{malloc}
use lwcan.Timeouts.{out_flow_output, timeout}
use lwcan.Buffer.{Buffer, buffer_new, copy_to, with_bytes}
use lwcan.Buffer.Inside.{copy_to_inside}
use lwcan.Isotp.Types.{
  Options, Flow, Ctx, Platform, input, output, idle, tx_sf, set_flow, set_state, in_state,
  start_timeout, flow_of, report, remove_first,
}
use lwcan.Isotp.Frames.{get_sf_dl, store_sf_data}
use lwcan.Isotp.Output.{
  isotp_send, send_buffer, start_output, isotp_sent, sent_in, sent_sf, call_sent,
}
use lwcan.Isotp.Input.{dispatch, sf_into, deliver}
use lwcan.Isotp.Receive.{with_payload}
use lwcan.Isotp.Single.Arrival.{dispatch-received_sf, received_sf-sf_into}
use lwcan.Isotp.Errors.{remove_first-dropped, dropped}

module _ {Ext : Type 0} (p : Platform Ext) (o : Options) where
  store_sf_past :
      (flow : Flow) (b : Buffer) (next : List Buffer) (n : ℕ) (bytes : List ℕ)
      → o.canfd ≡ false
      → flow.buffer ≡ b ∷ next
      → flow.remaining_data ≡ n
      → length bytes < n
      → store_sf_data o flow (n ∷ bytes) 8 ≡ none
  unfolding store_sf_data copy_to
  store_sf_past flow b next n bytes classic first left short =
      let some_data : (n == 0) ≡ false = ground arith in
      rw (
        classic,
        first,
        left,
        some_data,
        memcpy_past_source b.payload.bytes 0 (n ∷ bytes) 1 n (omega arith),
      )

  -- In the classic build, where the input flow is idle and a buffer of the announced length is
  -- allocated, a single frame of eight bytes that announces 8 to 15 bytes makes the handler read
  -- past the end of the frame.
  pub dispatch-sf_past :
      (frame : Frame) (c : Ctx Ext) (n : ℕ) (bytes : List ℕ) (b : Buffer) (e : Ext)
      → o.canfd ≡ false
      → c.pcb.input_flow.state ≡ idle
      → length bytes ≡ 7
      → 7 < n
      → n < 16
      → buffer_new p.alloc n c.ext ≡ (some b, e)
      → dispatch p o (with_payload frame (n ∷ bytes)) c ≡ none
  unfolding get_sf_dl sf_into
  dispatch-sf_past frame c n bytes b e classic free seven long small new =
      let f = with_payload frame (n ∷ bytes) in
      let announced : get_sf_dl o (n ∷ bytes) ≡ n =
        rw (classic, bit_and_low n (omega arith)) (omega arith) in
      let flow = record (c.pcb.input_flow) {
        buffer = b ∷ c.pcb.input_flow.buffer;
        remaining_data = n;
      } in
      dispatch-received_sf p o f c (bit_and_high n (omega arith) ∙ omega arith)
      ∙ (received_sf-sf_into p o f c n free announced
          ∙ (ap (sf_into p o f n c) new
              ∙ ap (λ m. m >>= λ r. deliver p o (set_flow input r (record c { ext = e })))
                  (store_sf_past flow b c.pcb.input_flow.buffer n bytes classic refl refl
                    (omega arith))))

  -- Where the driver reports an error for a flow that has a buffer, and the error callback leaves
  -- the output flow with a new single frame and its buffer, isotp_sent goes on to drop the new
  -- buffer, make the flow idle, and report the new message as sent.
  pub isotp_sent-resent :
      (error : LwcanErr) (c c' : Ctx Ext) (b₀ b : Buffer) (next rest : List Buffer) (fn : ℕ)
      → is_ok error ≡ false
      → c.pcb.output_flow.buffer ≡ b₀ ∷ next
      → c.pcb.error ≡ some fn
      → p.error_cb fn c.pcb.callback_arg error
          (set_state output idle (dropped p o output b₀ next c))
        ≡ some c'
      → c'.pcb.output_flow.state ≡ tx_sf
      → c'.pcb.output_flow.buffer ≡ b ∷ rest
      → isotp_sent p o output error c
        ≡ call_sent p o b.length (set_state output idle (dropped p o output b rest c'))
  unfolding isotp_sent sent_in sent_sf
  isotp_sent-resent error c c' b₀ b next rest fn failed held listens again queued first =
      ap {B = Option (Ctx Ext)} (λ m. m >>= λ r. sent_in p o (flow_of output r).state r)
        (if_false _ _ _ failed
          ∙ (ap (λ r. report p c.pcb.callback_arg error (set_state output idle r))
                (remove_first-dropped p o output c b₀ next held)
              ∙ (ap {B = Option (Ctx Ext)}
                    (λ (m : Option ℕ). elim m [
                      | none ↦ some (set_state output idle (dropped p o output b₀ next c))
                      | some n ↦
                          p.error_cb n c.pcb.callback_arg error
                            (set_state output idle (dropped p o output b₀ next c))
                    ])
                    listens
                  ∙ again)))
      ∙ (ap (λ s. sent_in p o s c') queued
          ∙ (ap {B = Option (Ctx Ext)}
                (λ (l : List Buffer). elim l [
                  | [] ↦ none
                  | head ∷ behind ↦
                      call_sent p o head.length (set_state output idle (remove_first p output c'))
                ])
                first
              ∙ ap (λ r. call_sent p o b.length (set_state output idle r))
                  (remove_first-dropped p o output c' b rest first)))

  unregistered :
      (time_ms : ℕ) (c : Ctx Ext) (pool : List ℕ)
      → malloc p.layout c.timers.pool ≡ (none, pool)
      → start_timeout p time_ms out_flow_output c ≡ c
  unfolding timeout
  unregistered time_ms c pool full = rw (full, timeout) refl

  busy_send :
      (bytes : List ℕ) (n : ℕ) (c : Ctx Ext)
      → 0 < n
      → in_state c.pcb.output_flow.state idle ≡ false
      → isotp_send p o (some bytes) n c ≡ some (in_progress, c)
  unfolding isotp_send
  busy_send bytes n c some_data busy = if_false (n == 0) _ _ (ground arith) ∙ if_false _ _ _ busy

  started_busy :
      (buffer : List Buffer) (n : ℕ) (flow : Flow)
      → in_state (start_output p o buffer n flow).state idle ≡ false
  started_busy buffer n flow = ground arith

  -- Where all timeouts are in use, the output flow is idle, the message has a byte at least, no
  -- more than the caller has, and a buffer for it is allocated: isotp_send returns success and
  -- registers no timeout, and every message after it is refused as one in progress.
  pub isotp_send-unqueued :
      (bytes later : List ℕ) (n m : ℕ) (c : Ctx Ext) (b : Buffer) (e : Ext) (pool : List ℕ)
      → malloc p.layout c.timers.pool ≡ (none, pool)
      → c.pcb.output_flow.state ≡ idle
      → 0 < n
      → n ≤ length bytes
      → buffer_new p.alloc n c.ext ≡ (some b, e)
      → n ≤ length b.payload.bytes
      → 0 < m
      → (c' : Ctx Ext) × (isotp_send p o (some bytes) n c ≡ some (ok, c'))
        × (c'.timers ≡ c.timers)
        × (isotp_send p o (some later) m c' ≡ some (in_progress, c'))
  unfolding isotp_send send_buffer
  isotp_send-unqueued bytes later n m c b e pool full free some_data given new room more =
      let (error, stored, copied, same) =
        copy_to_inside b c.pcb.output_flow.buffer bytes 0 n (omega (arith, given)) room in
      let flow =
        start_output p o (with_bytes b stored ∷ c.pcb.output_flow.buffer) n c.pcb.output_flow in
      let started = set_flow output flow (record c { ext = e }) in
      (
        started,
        if_false (n == 0) _ _ (ground arith)
            ∙ (if_true _ _ _ (ap (λ s. in_state s idle) free)
                ∙ (ap (send_buffer p o bytes n c) new
                    ∙ (ap
                          (λ m. m >>= λ (r : LwcanErr × List Buffer). some (
                            ok,
                            start_timeout p 0 out_flow_output (
                                set_flow output (start_output p o r.1 n c.pcb.output_flow)
                                  (record c { ext = e })),
                          ))
                          copied
                        ∙ ap (λ r. some (ok, r)) (unregistered 0 started pool full)))),
        refl,
        busy_send later m started more
            (started_busy (with_bytes b stored ∷ c.pcb.output_flow.buffer) n c.pcb.output_flow),
      )
