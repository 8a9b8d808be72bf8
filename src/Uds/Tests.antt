-- ===== src/Uds/Tests.antt =====
-- A client of one connection, whose heap gives what it is asked for.
use lwcan.Common.{
  ℕ, ◌+◌, ◌≤◌, ◌<◌, ◌≡◌, refl, ap, true, false, Option, none, some, List, [], ◌∷◌, arith, length,
  replicate, length-replicate,
}
use mathlib.Core.Option.{some-injective}
use lwcan.Can.{ok, in_progress, Frame}
use lwcan.Timeouts.{p2_timer_handler}
use lwcan.Buffer.{Buffer, Block, Alloc, buffer_new, with_bytes}
use lwcan.Isotp.Types.{tx_cf, Ctx, Platform, Options, unlink_buffer, remove_buffer}
use lwcan.Isotp.Output.{isotp_send}
use lwcan.Isotp.Connections.{new_flow, new_pcb}
use lwcan.Uds.{
  UdsPhase, uds_idle, wait_response, sending_request, connecting, UdsState, UdsOptions, World, App,
}
use lwcan.Isotp.Input.{dispatch, isotp_received}
use lwcan.Isotp.Receive.{with_payload}
use lwcan.Isotp.Single.{sf_payload}
use lwcan.Isotp.Single.Arrival.{arrived}
use lwcan.Uds.Responses.{
  uds_receive, handle_response, handle_positive_response, handle_negative_response, negative_read,
}
use lwcan.Uds.Delivery.{Wired, answered_with, dispatch-answered_with}
use lwcan.Uds.Session.{zero_uds, uds_client_disconnect}
use lwcan.Uds.Closing.{uds_client_disconnect-Calm}
use lwcan.Uds.Requests.{uds_send_request, call_connect}
use lwcan.Uds.Calm.{Calm, Quiet}
use lwcan.Uds.Heap.{Heap}
use lwcan.Uds.Machine.{deferred, next, observe_bytes, observe_nrc}
use lwcan.Uds.Refinement.{response, on_event, observe, on_event-next}
use lwcan.Uds.Attempts.{attempts, attempts-uds_idle}
use lwcan.Uds.Stuck.{uds_send_request-refused}

abbrev heap : Alloc (World ℕ)
heap = record {
  malloc = λ n e. (some (record { addr = 9000; bytes = replicate n 0 }), e);
  free = λ addr e. e;
  buffer_size = 24;
}

abbrev platform : Platform (World ℕ)
platform = record {
  alloc = heap;
  layout = record { begin_addr = 2000; chunk_size = 24 };
  system_now = λ e. 1000;
  uninit = λ e. record { can_id = 0; len = 0; flags = 0; payload = replicate 8 0 };
  send = λ canif f time_ms d e. (ok, e);
  receive_cb = λ fn arg buffer c. some c;
  receive_ff_cb = λ fn arg c. some c;
  sent_cb = λ fn arg length c. some c;
  error_cb = λ fn arg error c. some c;
}

-- The application counts the calls of its functions.
abbrev counted : Ctx (World ℕ) → Option (Ctx (World ℕ))
counted c = some (record c { ext = record (c.ext) { app = c.ext.app + 1 } })

abbrev app : App ℕ
app = record {
  connect_fn = λ fn arg error c. counted c;
  positive_fn = λ fn handle payload size c. counted c;
  negative_fn = λ fn handle sid nrc c. counted c;
  error_fn = λ fn handle error c. counted c;
}

app-Quiet : Quiet app
app-Quiet = record {
  connects = λ fn arg error c. (_, refl, (refl, refl));
  positive = λ fn handle payload size c. (_, refl, (refl, refl));
  negative = λ fn handle sid nrc c. (_, refl, (refl, refl));
  error = λ fn handle error c. (_, refl, (refl, refl));
}

platform-Heap : Heap platform
platform-Heap = record {
  keeps = record { malloc = λ n e. refl; free = λ addr e. refl };
  room = λ n e b e' got. room n e b e' got;
}
  where
    room :
        (n : ℕ) (e : World ℕ) (b : Block) (e' : World ℕ)
        → heap.malloc n e ≡ (some b, e')
        → n ≤ length b.bytes
    room n e b e' got =
        let is : record { addr = 9000; bytes = replicate n 0 } ≡ b =
          some-injective _ _ (ap (λ r. r.0) got) in
        omega (arith, ap (λ x. length x.bytes) is, length-replicate {A = ℕ} n 0)

abbrev uds_options : UdsOptions
uds_options = record {
  s3_client = 9000;
  p2_default = 50;
  p2_star_default = 500;
  connect_retry_num = 20;
  connect_retry_timeout = 50;
  keep_session = true;
  keep_session_suppress = 0x80;
}

abbrev options : Options
options = record {
  canfd = false;
  canfd_brs = false;
  padding_byte = 0xaa;
  receive_bs = 0;
  receive_st = 0;
  n_wft = 10;
  n_as = 1000;
  n_bs = 1000;
  n_cs = 5;
  n_br = 5;
  n_cr = 1000;
}

abbrev client : UdsPhase → UdsState
client state = record zero_uds {
  state = state;
  is_connected = true;
  with_response = 1;
  p2 = 50;
  p2_star = 500;
  isotp_pcb = some 600;
}

-- The response is announced: 7f 22 78.
abbrev announced_later : Buffer
announced_later = record {
  addr = 4000;
  payload = record { addr = 4100; bytes = 0x7f ∷ 0x22 ∷ 0x78 ∷ [] };
  length = 3;
}

abbrev waiting : Ctx (World ℕ)
waiting = record {
  pcb = record (new_pcb 600) { input_flow = record new_flow { buffer = announced_later ∷ [] } };
  timers = record {
    pool = 0xaa ∷ 0 ∷ 0 ∷ [];
    queue = record { addr = 2000; time = 1050; handler = p2_timer_handler; arg = 0 } ∷ [];
  };
  canifs = [];
  ext = record { uds = client wait_response; app = 0 };
}

abbrev waiting-Calm : Calm waiting
waiting-Calm = record { apart = refl; fits = (omega arith, omega arith) }

on_event-next_example :
    (c' : Ctx (World ℕ)) × (on_event platform options uds_options app (response (some 4000)) waiting
      ≡ some c')
    × (c'.ext.uds.state ≡ next wait_response deferred)
    × Calm c'
unfolding observe observe_bytes observe_nrc unlink_buffer
on_event-next_example =
    on_event-next platform options uds_options app app-Quiet platform-Heap (response (some 4000))
      waiting deferred waiting-Calm refl

abbrev fresh : Ctx (World ℕ)
fresh = record {
  pcb = record (new_pcb 600) { output_flow = record new_flow { state = tx_cf } };
  timers = record { pool = 0 ∷ 0 ∷ 0 ∷ []; queue = [] };
  canifs = [];
  ext = record { uds = client uds_idle; app = 0 };
}

abbrev stuck : Ctx (World ℕ)
stuck = record fresh { ext = record { uds = client sending_request; app = 0 } }

uds_send_request-refused_example :
    (stuck.ext.uds.state ≡ sending_request)
    × ((later : List ℕ) (with_response' : ℕ)
        → 0 < length later
        → uds_send_request platform options uds_options app (some later) with_response' stuck
          ≡ some (in_progress, stuck))
unfolding uds_send_request isotp_send
uds_send_request-refused_example =
    uds_send_request-refused platform options uds_options app (0x22 ∷ 0xf1 ∷ 0x90 ∷ []) 1 fresh
      stuck in_progress platform-Heap (omega arith) refl refl refl

abbrev trying : Ctx (World ℕ)
trying = record fresh {
  ext = record {
    uds = record (client connecting) {
      is_connected = false;
      connect_try_num = 3;
      connect_cb = some 77;
    };
    app = 0;
  };
}

attempts-uds_idle_example :
    (c' : Ctx (World ℕ)) × (attempts platform options uds_options app (λ c. c) 4 trying ≡ some c')
    × (c'.ext.uds.state ≡ uds_idle)
attempts-uds_idle_example =
    attempts-uds_idle platform options uds_options app (λ c. c) app-Quiet platform-Heap 3 trying
      (omega arith) (λ c. refl) (refl, refl, refl, (77, refl))

-- The connection's callback is the client's.
abbrev wired : Platform (World ℕ)
wired = record platform {
  receive_cb = λ fn arg buffer c. uds_receive platform options uds_options app buffer c;
}

wired-Wired : Wired wired options uds_options app 66
unfolding uds_receive handle_response handle_positive_response handle_negative_response
    negative_read call_connect isotp_received remove_buffer
wired-Wired callback_arg buffer c = refl

abbrev answer : Buffer
answer = record { addr = 9000; payload = record { addr = 9000; bytes = replicate 3 0 }; length = 3 }

abbrev asked : Ctx (World ℕ)
asked = record {
  pcb = record (new_pcb 600) { receive = some 66 };
  timers = waiting.timers;
  canifs = [];
  ext = record {
    uds = record (client wait_response) {
      context =
          some (record { positive_response = some 5; negative_response = none; error = none });
    };
    app = 0;
  };
}

abbrev frame : Frame
frame = record { can_id = 0x7e8; len = 8; flags = 0; payload = replicate 8 0 }

dispatch-answered_with_example :
    dispatch wired options (with_payload frame (sf_payload options (0x62 ∷ 0xf1 ∷ 0x90 ∷ []))) asked
    ≡ answered_with wired options uds_options app 5
        (with_bytes answer (0x62 ∷ 0xf1 ∷ 0x90 ∷ []))
        (arrived wired options (0x62 ∷ 0xf1 ∷ 0x90 ∷ []) answer asked.ext asked)
unfolding buffer_new
dispatch-answered_with_example =
    dispatch-answered_with wired options uds_options app frame asked 0x62 (0xf1 ∷ 0x90 ∷ []) answer
      asked.ext 66 (record { positive_response = some 5; negative_response = none; error = none }) 5
      refl refl refl wired-Wired refl refl (omega arith) refl refl refl refl

uds_client_disconnect-Calm_example :
    Calm (uds_client_disconnect platform options uds_options app waiting)
    × ((uds_client_disconnect platform options uds_options app waiting).ext.uds.state ≡ uds_idle)
    × ((uds_client_disconnect platform options uds_options app waiting).ext.uds.is_connected
        ≡ false)
uds_client_disconnect-Calm_example =
    uds_client_disconnect-Calm platform options uds_options app waiting refl waiting-Calm
