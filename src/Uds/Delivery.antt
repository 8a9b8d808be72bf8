-- ===== src/Uds/Delivery.antt =====
-- A response of one frame, from the dispatcher of src/isotp_in.c through `uds_receive` of
-- src/apps/uds/uds_client.c to the application.
use lwcan.Common.{
  ℕ, ◌≡◌, ◌≤◌, refl, ap, ◌∙◌, false, Option, none, some, List, ◌∷◌, arith, ◌==◌, ==_self, length,
  get_elem?, ◌>>=◌, if_false,
}
use lwcan.Can.{Frame}
use lwcan.Timeouts.{p2_timer_handler}
use lwcan.Buffer.{Buffer, buffer_new, with_bytes}
use lwcan.Isotp.Types.{Ctx, Platform, Options, idle, unlink_buffer}
use lwcan.Isotp.Input.{dispatch, deliver, isotp_received}
use lwcan.Isotp.Receive.{with_payload}
use lwcan.Isotp.Single.{sf_payload}
use lwcan.Isotp.Single.Arrival.{arrived, dispatch-sf}
use lwcan.Uds.{UdsOptions, UdsContext, World, App, connecting, in_phase, uds_idle, wait_response}
use lwcan.Uds.Requests.{uds_untimeout, then_idle, call_if}
use lwcan.Uds.Responses.{
  negative_response_sid, buffer_at, stop_receive_timer, call_positive, positive_fn_of,
  handle_response, handle_positive_response, uds_receive,
}

module _ {E : Type 0} (p : Platform (World E)) (o : Options) (u : UdsOptions) (a : App E) where
  -- The callback that `uds_client_init` sets
  abbrev pub Wired : ℕ → Type 0
  Wired fn =
      (callback_arg : ℕ) (buffer : Option ℕ) (c : Ctx (World E))
      → p.receive_cb fn callback_arg buffer c ≡ uds_receive p o u a buffer c

  -- What the application is called with, and what follows
  abbrev pub answered_with : ℕ → Buffer → Ctx (World E) → Option (Ctx (World E))
  answered_with fn b c =
      then_idle (
        a.positive_fn fn c.ext.uds.handle b.payload.bytes b.length
          (uds_untimeout p p2_timer_handler c))
      >>= λ c'. some (isotp_received p o (some b.addr) c').1

  uds_receive-positive :
      (b : Buffer) (next : List Buffer) (c : Ctx (World E)) (sid : ℕ) (rest : List ℕ)
      (x : UdsContext) (fn : ℕ)
      → c.pcb.input_flow.buffer ≡ b ∷ next
      → b.payload.bytes ≡ sid ∷ rest
      → (sid == negative_response_sid) ≡ false
      → c.ext.uds.state ≡ wait_response
      → c.ext.uds.context ≡ some x
      → x.positive_response ≡ some fn
      → uds_receive p o u a (some b.addr) c ≡ answered_with fn b c
  unfolding uds_receive handle_response handle_positive_response unlink_buffer
  uds_receive-positive b next c sid rest x fn chain bytes positive waits context set =
      let stopped = uds_untimeout p p2_timer_handler c in
      let busy : in_phase c.ext.uds.state uds_idle ≡ false = ap (λ s. in_phase s uds_idle) waits in
      let apart : in_phase c.ext.uds.state connecting ≡ false =
        ap (λ s. in_phase s connecting) waits in
      let found : buffer_at (some b.addr) c.pcb.input_flow.buffer ≡ some b =
        ap (buffer_at (some b.addr)) chain ∙ rw (==_self b.addr, unlink_buffer) refl in
      let has : get_elem? b.payload.bytes 0 ≡ some sid = ap (λ l. get_elem? l 0) bytes in
      let called : call_positive a b.payload.bytes b.length stopped
          ≡ a.positive_fn fn c.ext.uds.handle b.payload.bytes b.length stopped =
        ap
          (λ m.
            call_if m (λ n. a.positive_fn n c.ext.uds.handle b.payload.bytes b.length stopped)
              stopped)
          (ap positive_fn_of context ∙ set) in
      let handled : handle_response p o u a b (get_elem? b.payload.bytes 0) stopped
          ≡ then_idle (a.positive_fn fn c.ext.uds.handle b.payload.bytes b.length stopped) =
        ap (λ m. handle_response p o u a b m stopped) has
        ∙ (if_false _ _ _ positive ∙ (if_false _ _ _ apart ∙ ap then_idle called)) in
      let stop : stop_receive_timer p c.ext.uds.state c ≡ stopped =
        ap (λ s. stop_receive_timer p s c) waits in
      ap {B = Option (Ctx (World E))}
        (λ m. m >>= λ c'. some (isotp_received p o (some b.addr) c').1)
        (if_false _ _ _ busy
          ∙ (ap
                (λ m. m >>= λ y.
                  handle_response p o u a y (get_elem? y.payload.bytes 0)
                    (stop_receive_timer p c.ext.uds.state c))
                found
              ∙ (ap (λ s. handle_response p o u a b (get_elem? b.payload.bytes 0) s) stop
                  ∙ handled)))

  -- In the classic build, where the input flow of the client's connection is idle, its callback is
  -- that of the client, a buffer for a response of one to seven bytes can be allocated, the client
  -- waits for a response then, its context has a callback for positive ones, and the response does
  -- not start with 0x7f: the dispatcher's handling of the single frame of the response is the call
  -- of that callback with exactly these bytes, the P2 timer cancelled, then the idle state, and
  -- the buffer given back.
  pub dispatch-answered_with :
      (frame : Frame) (c : Ctx (World E)) (sid : ℕ) (rest : List ℕ) (b : Buffer) (e : World E)
      (receive : ℕ) (x : UdsContext) (fn : ℕ)
      → o.canfd ≡ false
      → c.pcb.input_flow.state ≡ idle
      → c.pcb.receive ≡ some receive
      → Wired receive
      → buffer_new p.alloc (length (sid ∷ rest)) c.ext ≡ (some b, e)
      → length b.payload.bytes ≡ length (sid ∷ rest)
      → length (sid ∷ rest) ≤ 7
      → (sid == negative_response_sid) ≡ false
      → e.uds.state ≡ wait_response
      → e.uds.context ≡ some x
      → x.positive_response ≡ some fn
      → dispatch p o (with_payload frame (sf_payload o (sid ∷ rest))) c
        ≡ answered_with fn (with_bytes b (sid ∷ rest)) (arrived p o (sid ∷ rest) b e c)
  unfolding deliver
  dispatch-answered_with frame c sid rest b e receive x fn classic free registered wired new room
        short positive waits context set =
      let c₁ = arrived p o (sid ∷ rest) b e c in
      let delivered : deliver p o c₁ ≡ p.receive_cb receive c.pcb.callback_arg (some b.addr) c₁ =
        ap
          (λ (m : Option ℕ). elim m [
            | none ↦ some (isotp_received p o (some b.addr) c₁).1
            | some f ↦ p.receive_cb f c.pcb.callback_arg (some b.addr) c₁
          ])
          registered in
      dispatch-sf p o frame c (sid ∷ rest) b e classic free new room (omega arith) short
      ∙ (delivered
          ∙ (wired c.pcb.callback_arg (some b.addr) c₁
              ∙ uds_receive-positive (with_bytes b (sid ∷ rest)) c.pcb.input_flow.buffer c₁ sid rest
                  x fn refl refl positive waits context set))
