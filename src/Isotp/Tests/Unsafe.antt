-- ===== src/Isotp/Tests/Unsafe.antt =====
-- Connections that are not safe or come to a stop, on the small inputs of Isotp.Tests.
use lwcan.Common.{ℕ, ◌≡◌, refl, some, none, List, [], ◌∷◌, arith, replicate, take, ◌>>=◌}
use lwcan.Common.Bytes.{memcpy}
use lwcan.Can.{aborted, ok, in_progress}
use lwcan.Pool.{malloc, scan}
use lwcan.Timeouts.{out_flow_output}
use lwcan.Buffer.{Buffer, buffer_new, copy_to}
use lwcan.Isotp.Types.{
  Ctx, Platform, idle, tx_sf, tx_cf, output, set_flow, set_state, start_timeout,
}
use lwcan.Isotp.Output.{isotp_send, isotp_sent, send_buffer, call_sent}
use lwcan.Isotp.Input.{dispatch}
use lwcan.Isotp.Receive.{with_payload}
use lwcan.Isotp.Errors.{dropped}
use lwcan.Isotp.Unsafe.{dispatch-sf_past, isotp_sent-resent, isotp_send-unqueued}
use lwcan.Isotp.Tests.{
  options, bus, frame, message, sent_buffer, flow_at, ctx_at, idle_flow, idle_ctx,
}

abbrev buffer_of : List ℕ → ℕ → Buffer
buffer_of bytes size = record {
  addr = 4096;
  payload = record { addr = 4096; bytes = bytes };
  length = size;
}

dispatch-sf_past_example :
    dispatch bus options (with_payload frame (9 ∷ take 7 message)) idle_ctx ≡ none
unfolding buffer_new
dispatch-sf_past_example =
    dispatch-sf_past bus options frame idle_ctx 9 (take 7 message) (buffer_of (replicate 9 0xcc) 9)
      [] refl refl refl (omega arith) (omega arith) refl

-- An application that sends three bytes when it is told of an error
abbrev resending : Platform (List (List ℕ))
resending = record bus {
  error_cb = λ fn arg error c. isotp_send bus options (some message) 3 c >>= λ r. some r.1;
}

abbrev sending_ctx : Ctx (List (List ℕ))
sending_ctx =
    let c = ctx_at (flow_at tx_cf (sent_buffer ∷ []) 10 1) idle_flow in
    record c { pcb = record (c.pcb) { error = some 2 } }

abbrev failed_ctx : Ctx (List (List ℕ))
failed_ctx = set_state output idle (dropped resending options output sent_buffer [] sending_ctx)

abbrev resent_ctx : Ctx (List (List ℕ))
resent_ctx = start_timeout bus 0 out_flow_output (
    set_flow output (record (flow_at tx_sf (buffer_of (take 3 message) 3 ∷ []) 3 1) { n_wft = 10 })
      failed_ctx)

resent : resending.error_cb 2 3 aborted failed_ctx ≡ some resent_ctx
unfolding isotp_send send_buffer buffer_new copy_to memcpy
resent = refl

isotp_sent-resent_example :
    isotp_sent resending options output aborted sending_ctx
    ≡ call_sent resending options 3 (
        set_state output idle
          (dropped resending options output (buffer_of (take 3 message) 3) [] resent_ctx))
isotp_sent-resent_example =
    isotp_sent-resent resending options aborted sending_ctx resent_ctx sent_buffer
      (buffer_of (take 3 message) 3) [] [] 2 refl refl refl resent refl refl

-- A connection whose timeouts are all in use
abbrev full_ctx : Ctx (List (List ℕ))
full_ctx = record idle_ctx { timers = record { pool = replicate 10 170; queue = [] } }

isotp_send-unqueued_example :
    (c : Ctx (List (List ℕ))) × (isotp_send bus options (some message) 16 full_ctx ≡ some (ok, c))
    × (c.timers ≡ full_ctx.timers)
    × (isotp_send bus options (some message) 3 c ≡ some (in_progress, c))
unfolding buffer_new malloc scan
isotp_send-unqueued_example =
    isotp_send-unqueued bus options message message 16 3 full_ctx (buffer_of (replicate 16 0xcc) 16)
      [] (replicate 10 170) refl refl (omega arith) (omega arith) refl (omega arith) (omega arith)
