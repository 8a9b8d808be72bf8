-- ===== src/Isotp/Tests.antt =====
-- Runs of the ISO-TP layer on small inputs: a bus that takes every frame, and messages of a few
-- bytes more than a single frame holds.
mod Bounds
mod Connecting
mod Drivers
mod Endings
mod Frames
mod Handshake
mod Safety
mod Unsafe
use lwcan.Common.{
  ℕ, ◌≡◌, refl, some, none, List, [], ◌∷◌, ◌++◌, arith, replicate, false, length, take, drop,
}
use lwcan.Can.{Frame, ok}
use lwcan.Timeouts.{out_flow_output, output_error_handler, input_error_handler}
use lwcan.Buffer.{Buffer, buffer_new, with_bytes}
use lwcan.Canif.{Canif, get_by_index}
use lwcan.Isotp.Start.{started, fc_payload, isotp_send_lem, dispatch-fc_ready}
use lwcan.Isotp.Answer.{opened, dispatch-ff}
use lwcan.Isotp.Transfer.{Transferred, transfer}
use lwcan.Isotp.Conversation.{Provides, Conversation, conversation}
use lwcan.Isotp.Types.{
  wait_fc, output, Options, Flow, Ctx, Platform, State, idle, tx_cf, wait_cf, start_timeout,
  stop_timeout, set_flow, input,
}
use lwcan.Isotp.Frames.{fill_cf, fill_ff, store_cf_data, store_ff_data, get_ff_dl}
use lwcan.Isotp.Output.{isotp_send, finish_output}
use lwcan.Isotp.Input.{deliver, dispatch}
use lwcan.Isotp.Consecutive.{filled, fill_cf_lem, cf_payload}
use lwcan.Isotp.Storing.{CanStore, overwrite, store_cf_lem}
use lwcan.Isotp.First.{ff_payload, fill_ff_lem, get_ff_dl_lem, store_ff_lem}
use lwcan.Isotp.Receive.{cf_more, cf_last, with_payload, stored}
use lwcan.Isotp.Message.{payloads, feed, Complete, feed-payloads}
use lwcan.Isotp.Rounds.{Bus, send_rounds}
use lwcan.Isotp.Send.{Out, send-payloads}

abbrev options : Options
options = record {
  canfd = false;
  canfd_brs = false;
  padding_byte = 0xaa;
  receive_bs = 0;
  receive_st = 0;
  n_wft = 10;
  n_as = 1000;
  n_bs = 1000;
  n_cs = 1000;
  n_br = 1000;
  n_cr = 1000;
}

abbrev bus : Platform (List (List ℕ))
bus = record {
  alloc = record {
    malloc = λ size e. (some (record { addr = 4096; bytes = replicate size 0xcc }), e);
    free = λ addr e. e;
    buffer_size = 16;
  };
  layout = record { begin_addr = 100; chunk_size = 20 };
  system_now = λ e. 7;
  uninit = λ e. record { can_id = 0; len = 0; flags = 0; payload = replicate 8 0xcc };
  send = λ canif f time_ms d e. (ok, e ++ (f.payload ∷ []));
  receive_cb = λ fn arg buffer c. some c;
  receive_ff_cb = λ fn arg c. some c;
  sent_cb = λ fn arg size c. some c;
  error_cb = λ fn arg error c. some c;
}

abbrev frame : Frame
frame = record { can_id = 0x7e0; len = 8; flags = 0; payload = replicate 8 0xcc }

abbrev message : List ℕ
message = 1 ∷ 2 ∷ 3 ∷ 4 ∷ 5 ∷ 6 ∷ 7 ∷ 8 ∷ 9 ∷ 10 ∷ 11 ∷ 12 ∷ 13 ∷ 14 ∷ 15 ∷ 16 ∷ []

abbrev sent_buffer : Buffer
sent_buffer = record { addr = 512; payload = record { addr = 544; bytes = message }; length = 16 }

abbrev part_buffer : Buffer
part_buffer = record {
  addr = 512;
  payload = record { addr = 544; bytes = take 6 message ++ replicate 10 0xcc };
  length = 16;
}

abbrev flow_at : State → List Buffer → ℕ → ℕ → Flow
flow_at state buffer remaining_data cf_sn = record {
  state = state;
  buffer = buffer;
  remaining_data = remaining_data;
  cf_sn = cf_sn;
  fs = 0;
  bs = 0;
  st = 0;
  n_wft = 10;
}

abbrev pub can0 : Canif
can0 = record {
  addr = 700;
  num = 0;
  name = 99 ∷ 97 ∷ 110 ∷ 48 ∷ [];
  set_bitrate = none;
  set_filter = none;
}

abbrev ctx_at : Flow → Flow → Ctx (List (List ℕ))
ctx_at output_flow input_flow = record {
  pcb = record {
    addr = 600;
    if_index = 1;
    receive = some 1;
    receive_ff = none;
    sent = none;
    error = none;
    callback_arg = 3;
    tx_id = 0x7e0;
    rx_id = 0x7e8;
    output_flow = output_flow;
    input_flow = input_flow;
  };
  timers = record { pool = replicate 10 0; queue = [] };
  canifs = can0 ∷ [];
  ext = [];
}

abbrev idle_flow : Flow
idle_flow = flow_at idle [] 0 0

abbrev receiving : ℕ → Ctx (List (List ℕ))
receiving left = ctx_at idle_flow (flow_at wait_cf (part_buffer ∷ []) left 1)

abbrev sending : Ctx (List (List ℕ))
sending = ctx_at (flow_at tx_cf (sent_buffer ∷ []) 10 1) idle_flow

-- A connection that has received the first six bytes of sixteen
abbrev can_store : CanStore (flow_at wait_cf (part_buffer ∷ []) 10 1) part_buffer []
can_store = record {
  first = refl;
  whole = refl;
  small = omega arith;
  some_left = omega arith;
  within = omega arith;
}

abbrev bus-Bus : Bus bus (λ e. e)
bus-Bus = record {
  accepts = λ canif f time_ms d e. refl;
  logs = λ canif f time_ms d e. refl;
  room = λ e. refl;
}

abbrev idle_ctx : Ctx (List (List ℕ))
idle_ctx = ctx_at idle_flow idle_flow

abbrev fresh : Buffer
fresh = record {
  addr = 4096;
  payload = record { addr = 4096; bytes = replicate 16 0xcc };
  length = 16;
}
