-- ===== src/Uds/Responses.antt =====
-- src/apps/uds/uds_client.c: what the client does with what it receives, and with errors of the
-- ISO-TP connection.
use lwcan.Common.{ℕ, true, Option, none, some, List, ◌==◌, get_elem?, if◌then◌else◌, ◌>>=◌}
use lwcan.Can.{LwcanErr, ok, aborted}
use lwcan.Timeouts.{p2_timer_handler, p2_star_timer_handler, connect_try}
use lwcan.Buffer.{Buffer}
use lwcan.Isotp.Types.{Options, Ctx, Platform, unlink_buffer}
use lwcan.Isotp.Input.{isotp_received}
use lwcan.Uds.{
  UdsPhase, uds_idle, connecting, wait_response, wait_segmented, response_pending, UdsContext,
  UdsOptions, World, App, in_phase, set_uds, set_phase,
}
use lwcan.Uds.Requests.{
  uds_timeout, uds_untimeout, call_connect, then_idle, call_error, connect_timeout, call_if,
}

abbrev pub negative_response_sid : ℕ
negative_response_sid = 0x7f

abbrev pub response_pending_nrc : ℕ
response_pending_nrc = 0x78

-- The buffer that a pointer leads to: a pointer to none that the connection has is a fault.
abbrev pub buffer_at : Option ℕ → List Buffer → Option Buffer
buffer_at none chain = none
buffer_at (some addr) chain = unlink_buffer addr chain >>= λ r. some r.0

abbrev negative_fn_of : Option UdsContext → Option ℕ
negative_fn_of none = none
negative_fn_of (some x) = x.negative_response

abbrev pub positive_fn_of : Option UdsContext → Option ℕ
positive_fn_of none = none
positive_fn_of (some x) = x.positive_response

module _ {E : Type 0} (p : Platform (World E)) where
  -- The timer of the state is cancelled.
  abbrev pub stop_response_timer : UdsPhase → Ctx (World E) → Ctx (World E)
  stop_response_timer wait_response c = uds_untimeout p p2_timer_handler c
  stop_response_timer response_pending c = uds_untimeout p p2_star_timer_handler c
  stop_response_timer _ c = c

  abbrev pub stop_receive_timer : UdsPhase → Ctx (World E) → Ctx (World E)
  stop_receive_timer connecting c = uds_untimeout p p2_timer_handler c
  stop_receive_timer s c = stop_response_timer s c

module _ {E : Type 0} (a : App E) where
  abbrev pub call_negative : ℕ → ℕ → Ctx (World E) → Option (Ctx (World E))
  call_negative rejected_sid nrc c =
      call_if (negative_fn_of c.ext.uds.context)
        (λ fn. a.negative_fn fn c.ext.uds.handle rejected_sid nrc c) c

  abbrev pub call_positive : List ℕ → ℕ → Ctx (World E) → Option (Ctx (World E))
  call_positive payload length c =
      call_if (positive_fn_of c.ext.uds.context)
        (λ fn. a.positive_fn fn c.ext.uds.handle payload length c) c

module _ {E : Type 0} (p : Platform (World E)) (o : Options) (u : UdsOptions) (a : App E) where
  -- Behind the bytes that the function reads: `none` is a read past the end of the payload.
  unfoldable pub negative_read : Option ℕ → Option ℕ → Ctx (World E) → Option (Ctx (World E))
  negative_read sid none c = none
  negative_read sid (some nrc) c =
      if nrc == response_pending_nrc
      then some
          (uds_timeout p c.ext.uds.p2_star p2_star_timer_handler (set_phase response_pending c))
      else then_idle (sid >>= λ rejected_sid. call_negative a rejected_sid nrc c)

  unfoldable pub handle_negative_response : Buffer → Ctx (World E) → Option (Ctx (World E))
  unfolding negative_read
  handle_negative_response b c =
      if in_phase c.ext.uds.state connecting
      then then_idle (call_connect a aborted c)
      else negative_read (get_elem? b.payload.bytes 1) (get_elem? b.payload.bytes 2) c

  unfoldable pub handle_positive_response : Buffer → Ctx (World E) → Option (Ctx (World E))
  handle_positive_response b c =
      if in_phase c.ext.uds.state connecting
      then then_idle (call_connect a ok (set_uds (record (c.ext.uds) { is_connected = true }) c))
      else then_idle (call_positive a b.payload.bytes b.length c)

  unfoldable pub handle_response : Buffer → Option ℕ → Ctx (World E) → Option (Ctx (World E))
  unfolding handle_negative_response handle_positive_response
  handle_response b none c = none
  handle_response b (some sid) c =
      if sid == negative_response_sid
      then handle_negative_response b c
      else handle_positive_response b c

  unfoldable pub uds_receive : Option ℕ → Ctx (World E) → Option (Ctx (World E))
  unfolding handle_response
  uds_receive buffer c = do
    let s = c.ext.uds.state
    let read = buffer_at buffer c.pcb.input_flow.buffer
    let answered =
        read >>= λ b. handle_response b (get_elem? b.payload.bytes 0) (stop_receive_timer p s c)
    c' ← if in_phase s uds_idle then some c else answered
    some (isotp_received p o buffer c').1

  unfoldable pub uds_receive_ff : Ctx (World E) → Option (Ctx (World E))
  uds_receive_ff c =
      if in_phase c.ext.uds.state uds_idle
      then some c
      else some (set_phase wait_segmented (stop_response_timer p c.ext.uds.state c))

  unfoldable pub uds_error : LwcanErr → Ctx (World E) → Option (Ctx (World E))
  uds_error error c =
      if in_phase c.ext.uds.state connecting
      then some (uds_timeout p (connect_timeout p u c) connect_try c)
      else if in_phase c.ext.uds.state uds_idle
      then some c
      else then_idle (call_error a error (stop_response_timer p c.ext.uds.state c))
