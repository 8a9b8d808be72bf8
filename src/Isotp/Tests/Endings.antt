-- ===== src/Isotp/Tests/Endings.antt =====
-- Messages that end early, and single frames, on the small inputs of Isotp.Tests.
use lwcan.Common.{ℕ, ◌+◌, ◌≡◌, refl, some, none, List, [], ◌∷◌, arith, replicate, take, length, inl}
use lwcan.Can.{aborted, interface}
use lwcan.Timeouts.{in_flow_output, output_error_handler, input_error_handler}
use lwcan.Buffer.{Buffer, buffer_new, buffer_delete}
use lwcan.Canif.{get_by_index}
use lwcan.Isotp.Types
use lwcan.Isotp.Types.{
  Ctx, Platform, Flow, State, idle, wait_cf, wait_fc, tx_cf, tx_fc, input, output, set_flow,
  start_timeout, stop_timeout, report, next_sn,
}
use lwcan.Isotp.Output.{call_sent}
use lwcan.Isotp.Input.{dispatch}
use lwcan.Isotp.First.{ff_payload}
use lwcan.Isotp.Receive.{with_payload}
use lwcan.Isotp.Start.{fc_payload}
use lwcan.Isotp.Single.Message.{Exchange, exchange}
use lwcan.Isotp.Errors.{dispatch-cf_wrong, dispatch-fc_refused}
use lwcan.Isotp.Ended.{TurnedDown, send-refused}
use lwcan.Isotp.Send.{Out, finished}
use lwcan.Isotp.Rounds.{send_rounds}
use lwcan.Isotp.Overflow.{dispatch-ff_past, left_to_send, send-unblocked}
use lwcan.Isotp.Tests.{
  options, can0, bus, bus-Bus, frame, message, sent_buffer, part_buffer, flow_at, ctx_at, idle_flow,
  receiving, idle_ctx, fresh,
}

abbrev three : List ℕ
three = 0x3e ∷ 0x80 ∷ 1 ∷ []

abbrev small_buffer : Buffer
small_buffer = record {
  addr = 4096;
  payload = record { addr = 4096; bytes = replicate 3 0xcc };
  length = 3;
}

exchange_example :
    Exchange bus bus options frame (λ e. e) three idle_ctx small_buffer [] idle_ctx small_buffer
unfolding buffer_new get_by_index
exchange_example =
    exchange bus bus options frame (λ e. e) bus-Bus three idle_ctx small_buffer [] can0 idle_ctx
      small_buffer [] refl (omega arith) (omega arith) refl refl
      (record { new = refl; room = refl; size = refl; found = refl }) refl refl

dispatch-cf_wrong_example :
    dispatch bus options (with_payload frame ((0x20 + 2) ∷ take 7 message)) (receiving 10)
    ≡ some (
        start_timeout bus 0 in_flow_output (
          set_flow input
            (record (flow_at wait_cf (part_buffer ∷ []) 10 1) {
              buffer = [];
              fs = 2;
              state = tx_fc;
            })
            (record (stop_timeout bus input_error_handler (receiving 10)) {
              ext = buffer_delete bus.alloc part_buffer [];
            })))
dispatch-cf_wrong_example =
    dispatch-cf_wrong bus options frame (receiving 10) part_buffer [] 2 (take 7 message) refl refl
      (omega arith) (λ e. omega (arith, e))

abbrev waiting : Ctx (List (List ℕ))
waiting = ctx_at (flow_at wait_fc (sent_buffer ∷ []) 10 1) idle_flow

dispatch-fc_refused_example :
    dispatch bus options (with_payload frame (fc_payload options 2 0 0)) waiting
    ≡ report bus 3 aborted (
        set_flow output
          (record (flow_at wait_fc (sent_buffer ∷ []) 10 1) { buffer = []; fs = 2; state = idle })
          (record (stop_timeout bus output_error_handler waiting) {
            ext = buffer_delete bus.alloc sent_buffer [];
          }))
dispatch-fc_refused_example =
    dispatch-fc_refused bus options frame waiting sent_buffer [] 2 0 0 refl refl (omega arith)
      (λ e. omega (arith, e)) (inl (λ e. omega (arith, e)))

-- A driver that refuses every frame
abbrev down : Platform (List (List ℕ))
down = record bus { send = λ canif f time_ms d e. (interface, e) }

send-refused_example : TurnedDown down options message idle_ctx fresh [] can0
unfolding buffer_new get_by_index
send-refused_example =
    send-refused down options message idle_ctx fresh [] can0 refl refl refl refl (omega arith)
      (omega arith) refl (record { refuses = λ f. refl; room = refl })

-- A sender with a block size of 20
abbrev in_blocks : Flow
in_blocks = record (flow_at tx_cf (sent_buffer ∷ []) 10 1) { bs = 20 }

send-unblocked_example :
    (d : Ctx (List (List ℕ))) × (send_rounds bus options
        (length (left_to_send options (ctx_at in_blocks idle_flow) sent_buffer))
        (ctx_at in_blocks idle_flow)
      ≡ call_sent bus options 16 (finished bus options sent_buffer [] d))
    × Out bus options refl
        (λ e. e)
        bus-Bus
        (ctx_at in_blocks idle_flow)
        d
        sent_buffer
        []
        (left_to_send options (ctx_at in_blocks idle_flow) sent_buffer)
unfolding get_by_index
send-unblocked_example =
    send-unblocked bus options refl (λ e. e) bus-Bus (ctx_at in_blocks idle_flow) can0 sent_buffer
      [] refl
      (record {
        state = refl;
        first = refl;
        whole = refl;
        small = omega arith;
        some_left = omega arith;
        within = omega arith;
        sn_small = omega arith;
        low = omega arith;
        high = omega arith;
      })

dispatch-ff_past_example :
    dispatch bus options (with_payload frame (ff_payload 3 (take 6 message))) idle_ctx ≡ none
unfolding buffer_new
dispatch-ff_past_example =
    dispatch-ff_past bus options frame idle_ctx 3 (take 6 message) small_buffer [] refl refl refl
      refl refl (omega arith)
