-- ===== src/Isotp/Tests/Safety.antt =====
-- Two connections that send a single frame each, from fresh ones, with common timeouts.
use lwcan.Common.{ℕ, ◌≡◌, ◌≤◌, ◌+◌, refl, some, none, take, Option, [], ◌∷◌, arith, replicate}
use lwcan.Common.Bytes.{memcpy}
use lwcan.Can.{ok}
use lwcan.Timeouts.{Timers, Timeout, timeout, untimeout, out_flow_output}
use lwcan.Pool.{malloc, free, scan}
use lwcan.Buffer.{buffer_new, buffer_delete, copy_to, copy_from}
use lwcan.Canif.{get_by_index}
use lwcan.Isotp.Types.{Flow, Pcb, tx_sf, remove_buffer, unlink_buffer}
use lwcan.Isotp.Layer.{Layer}
use lwcan.Isotp.Frames.{fill_sf}
use lwcan.Isotp.Output.{isotp_send, isotp_out_flow_output, isotp_sent}
use lwcan.Isotp.Safety.Events.{send, output_due, reported, on_event}
use lwcan.Isotp.Safety.Layered.{
  outputs_of, give_ups_of, Fresh, AllSafe, happen, Reaches, begin, more,
}
use lwcan.Isotp.Safety.Reached.{Reaches-handled, Reaches-settled, Reaches-one}
use lwcan.Isotp.Tests.{options, message, idle_flow, flow_at, can0}
use lwcan.Isotp.Tests.Drivers.{Counts, unreported, took, resending, resends}

abbrev pcb : ℕ → Option ℕ → Flow → Pcb
pcb addr sent flow = record {
  addr = addr;
  if_index = 1;
  receive = some 1;
  receive_ff = none;
  sent = sent;
  error = none;
  callback_arg = 3;
  tx_id = 0x7e0;
  rx_id = 0x7e8;
  output_flow = flow;
  input_flow = idle_flow;
}

-- A message of seven bytes of which so many are left
abbrev sending : ℕ → Flow
sending left =
    flow_at tx_sf
      (record { addr = 4096; payload = record { addr = 4096; bytes = take 7 message }; length = 7 }
        ∷ [])
      left 0

abbrev due : ℕ → ℕ → Timeout
due addr arg = record { addr = addr; time = 7; handler = out_flow_output; arg = arg }

abbrev first : Flow → Pcb
first flow = pcb 600 (some 1) flow

abbrev second : Flow → Pcb
second flow = pcb 700 none flow

abbrev layer : Flow → Flow → Timers → Counts → Layer Counts
layer one other timers count = record {
  connections = record { pool = []; list = first one ∷ second other ∷ []; num = 2 };
  timers = timers;
  canifs = can0 ∷ [];
  ext = count;
}

abbrev none_unreported : Counts
none_unreported = λ b. 0

abbrev no_timers : Timers
no_timers = record { pool = replicate 10 0; queue = [] }

abbrev resting : Layer Counts
resting = layer idle_flow idle_flow no_timers none_unreported

resting-Fresh : Fresh resending options unreported resting
resting-Fresh = record {
  quiet = (
    (refl, refl, refl, omega arith, omega arith),
    ((refl, refl, refl, omega arith, omega arith), tt),
  );
  apart = ((omega arith, tt), (tt, tt));
}

abbrev one_queued : Layer Counts
one_queued =
    layer (sending 7) idle_flow (record { pool = 170 ∷ replicate 9 0; queue = due 100 600 ∷ [] })
      none_unreported

abbrev both_queued : Layer Counts
both_queued =
    layer (sending 7) (sending 7)
      (record { pool = 170 ∷ 170 ∷ replicate 8 0; queue = due 100 600 ∷ due 120 700 ∷ [] })
      none_unreported

abbrev one_sent : Layer Counts
one_sent =
    layer (sending 0) (sending 7)
      (record { pool = 0 ∷ 170 ∷ replicate 8 0; queue = due 120 700 ∷ [] })
      (took 600 none_unreported)

abbrev both_sent : Layer Counts
both_sent = layer (sending 0) (sending 0) no_timers (took 700 (took 600 none_unreported))

abbrev second_done : Layer Counts
second_done = layer (sending 0) idle_flow no_timers (took 600 none_unreported)

first_send :
    happen resending options unreported
      (send message 7)
      []
      (first idle_flow)
      (second idle_flow ∷ [])
      resting
    ≡ some one_queued
unfolding happen on_event isotp_send buffer_new copy_to timeout malloc scan memcpy
first_send = refl

second_send :
    happen resending options unreported
      (send message 7)
      (first (sending 7) ∷ [])
      (second idle_flow)
      []
      one_queued
    ≡ some both_queued
unfolding happen on_event isotp_send buffer_new copy_to timeout malloc scan memcpy
second_send = refl

first_output :
    happen resending options unreported output_due []
      (first (sending 7))
      (second (sending 7) ∷ [])
      both_queued
    ≡ some one_sent
unfolding happen on_event isotp_out_flow_output untimeout free get_by_index fill_sf copy_from memcpy
first_output = refl

second_output :
    happen resending options unreported output_due
      (first (sending 0) ∷ [])
      (second (sending 7))
      []
      one_sent
    ≡ some both_sent
unfolding happen on_event isotp_out_flow_output untimeout free get_by_index fill_sf copy_from memcpy
second_output = refl

second_report :
    happen resending options unreported
      (reported ok (took 600 none_unreported))
      (first (sending 0) ∷ [])
      (second (sending 0))
      []
      both_sent
    ≡ some second_done
unfolding happen on_event isotp_sent remove_buffer unlink_buffer buffer_delete
second_report = refl

-- The report on the first one, whose callback sends the message again
first_report :
    happen resending options unreported
      (reported ok (took 700 none_unreported))
      []
      (first (sending 0))
      (second (sending 0) ∷ [])
      both_sent
    ≡ some (
        layer
          (sending 7)
          (sending 0)
          (record { pool = 170 ∷ replicate 9 0; queue = due 100 600 ∷ [] })
          (took 700 none_unreported))
unfolding happen on_event isotp_sent remove_buffer unlink_buffer buffer_delete isotp_send buffer_new
    copy_to timeout malloc scan memcpy
first_report = refl

both_sent-Reaches : Reaches resending options unreported resting both_sent
both_sent-Reaches =
    more output_due (first (sending 0) ∷ []) (second (sending 7)) []
      (more output_due [] (first (sending 7)) (second (sending 7) ∷ [])
        (more (send message 7) (first (sending 7) ∷ []) (second idle_flow) []
          (more (send message 7) [] (first idle_flow) (second idle_flow ∷ []) begin refl
            (omega arith, omega arith) first_send)
          refl (omega arith, omega arith) second_send)
        refl (omega arith) first_output)
      refl (omega arith) second_output

fewer_second : (b : ℕ) → took 600 none_unreported b ≤ took 700 (took 600 none_unreported) b
fewer_second b = ground arith

fewer_first : (b : ℕ) → took 700 none_unreported b ≤ took 700 (took 600 none_unreported) b
fewer_first b = ground arith

Reaches-handled_example :
    (s : Layer Counts) × (happen resending options unreported
        (reported ok (took 700 none_unreported))
        []
        (first (sending 0))
        (second (sending 0) ∷ [])
        both_sent
      ≡ some s)
    × AllSafe resending options unreported s
Reaches-handled_example =
    Reaches-handled resending options unreported resends resting both_sent
      (reported ok (took 700 none_unreported)) [] (first (sending 0)) (second (sending 0) ∷ [])
      resting-Fresh both_sent-Reaches refl (omega arith, fewer_first)

Reaches-settled_example :
    (idle_flow.buffer ≡ [])
    × (second_done.ext 700 ≡ 0)
    × (outputs_of resending options unreported (second idle_flow) second_done ≡ 0)
    × (give_ups_of resending options unreported (second idle_flow) second_done ≡ 0)
Reaches-settled_example =
    Reaches-settled resending options unreported resends resting second_done
      (first (sending 0) ∷ []) (second idle_flow) [] resting-Fresh
      (more (reported ok (took 600 none_unreported)) (first (sending 0) ∷ []) (second (sending 0))
        [] both_sent-Reaches refl (omega arith, fewer_second) second_report)
      refl refl

Reaches-one_example :
    (both_sent.ext 600 + outputs_of resending options unreported (first (sending 0)) both_sent ≤ 1)
    × (give_ups_of resending options unreported (first (sending 0)) both_sent ≤ 1)
Reaches-one_example =
    Reaches-one resending options unreported resends resting both_sent [] (first (sending 0))
      (second (sending 0) ∷ []) resting-Fresh both_sent-Reaches refl
