-- ===== src/Stack/Tests.antt =====
-- The default pools, and a frame for a raw connection.
use lwcan.Common.{
  ℕ, ◌≡◌, ◌⊎◌, ◌≢◌, length, ◌>>=◌, ◌++◌, refl, All, true, false, none, some, List, [], ◌∷◌,
  replicate,
}
use lwcan.Can.{ok, Frame}
use lwcan.Pool.{Layout}
use lwcan.Canif.{Canif, get_index}
use lwcan.Isotp.Types.{Pcb, Platform, Options}
use lwcan.Isotp.Input.{dispatch}
use lwcan.Isotp.Connections.{new_pcb, is_pcb_for}
use lwcan.Isotp.Layer.{Layer, focused, put_back, isotp_input, isotp_input_lem}
use lwcan.Raw.{CanrawPcb, new_canraw}
use lwcan.Stack.{StackOptions, Pools, Stack, canif_input}
use lwcan.Stack.Input.{IsLeft, IsRouted, canif_input-IsRouted}
use lwcan.Timeouts.{timeout, other, s3_timer_handler, p2_timer_handler}
use lwcan.Timeouts.Filling.{Request}

abbrev both : StackOptions
both = record {
  with_raw = true;
  with_isotp = true;
  canraw_max_pcb_num = 2;
  isotp_max_pcb_num = 2;
  timeouts_num = 10;
}

abbrev chunks : ℕ → ℕ → Layout
chunks begin_addr chunk_size = record { begin_addr = begin_addr; chunk_size = chunk_size }

abbrev used : Pools
used = record {
  isotp = record { pool = 170 ∷ 0 ∷ []; list = new_pcb 2000 ∷ []; num = 1 };
  raw = record { pool = 0 ∷ 0 ∷ []; list = []; num = 0 };
  timers = record { pool = []; queue = [] };
}

abbrev requests : List Request
requests = (5, 1000, s3_timer_handler, 700) ∷ (6, 100, p2_timer_handler, 700) ∷ []

abbrev platform : Platform ℕ
platform = record {
  alloc = record {
    malloc = λ n e. (some (record { addr = 9000; bytes = replicate n 0 }), e);
    free = λ addr e. e;
    buffer_size = 24;
  };
  layout = chunks 4000 24;
  system_now = λ e. 0;
  uninit = λ e. record { can_id = 0; len = 0; flags = 0; payload = replicate 8 0 };
  send = λ canif f time_ms d e. (ok, e);
  receive_cb = λ fn arg buffer c. some c;
  receive_ff_cb = λ fn arg c. some c;
  sent_cb = λ fn arg length c. some c;
  error_cb = λ fn arg error c. some c;
}

abbrev options : Options
options = record {
  canfd = false;
  canfd_brs = false;
  padding_byte = 0xaa;
  receive_bs = 0;
  receive_st = 0;
  n_wft = 10;
  n_as = 1000;
  n_bs = 1000;
  n_cs = 5;
  n_br = 5;
  n_cr = 1000;
}

abbrev iface : Canif
iface = record { addr = 700; num = 0; name = []; set_bitrate = none; set_filter = none }

abbrev frame : Frame
frame = record { can_id = 0x7e8; len = 8; flags = 0; payload = 2 ∷ 0x7e ∷ replicate 6 0 }

-- A callback that registers a timeout and leaves the frame
abbrev taker : ℕ → ℕ → CanrawPcb → Frame → Layer ℕ → ℕ × Layer ℕ
taker fn callback_arg pcb f l =
    (0, record l { timers = timeout (chunks 4000 24) 0 100 (other 3) callback_arg l.timers })

abbrev layer : Layer ℕ
layer = record {
  connections = record {
    pool = 170 ∷ 170 ∷ [];
    list = new_pcb 2120 ∷ record (new_pcb 2000) { if_index = 1; rx_id = 0x7e8 } ∷ [];
    num = 2;
  };
  timers = record { pool = replicate 10 0; queue = [] };
  canifs = iface ∷ [];
  ext = 0;
}

abbrev stack : Stack ℕ
stack = record {
  raw = record {
    pool = 170 ∷ 0 ∷ [];
    list = record (new_canraw 3000) { if_index = 1; receive = some 9 } ∷ [];
    num = 1;
  };
  layer = layer;
}

isotp_input_lem_example :
    (All (λ u. is_pcb_for (get_index (some iface)) frame.can_id u ≡ false) layer.connections.list
      × (isotp_input platform options iface frame layer ≡ some layer))
    ⊎ ((pre : List Pcb) × (pcb : Pcb) × (post : List Pcb) × (layer.connections.list
          ≡ pre ++ (pcb ∷ post))
        × (pcb.if_index ≡ get_index (some iface))
        × (pcb.rx_id ≡ frame.can_id)
        × All (λ u. is_pcb_for (get_index (some iface)) frame.can_id u ≡ false) pre
        × (isotp_input platform options iface frame layer ≡ (
            dispatch platform options frame (focused pcb layer) >>= λ c.
            some (put_back pre post layer c))))
isotp_input_lem_example = isotp_input_lem platform options iface frame layer

canif_input-IsRouted_example :
    ((pre : List CanrawPcb) × (pcb : CanrawPcb) × (next : List CanrawPcb) × (fn : ℕ)
      × (stack.raw.list ≡ pre ++ (pcb ∷ next))
      × (pcb.if_index ≡ get_index (some iface))
      × All (λ u. u.if_index ≢ get_index (some iface)) pre
      × (pcb.receive ≡ some fn)
      × ((taker fn pcb.callback_arg pcb frame stack.layer).0 ≢ 0)
      × (canif_input both platform options taker (some iface) (some frame) stack
          ≡ some (
            ok,
            record {
              raw = record (stack.raw) { list = pcb ∷ (pre ++ next) };
              layer = (taker fn pcb.callback_arg pcb frame stack.layer).1;
            },
          )))
    ⊎ ((l : Layer ℕ) × IsLeft both platform options taker iface frame stack.raw.list stack.layer l
        × IsRouted both platform options taker iface frame stack.raw l
            (canif_input both platform options taker (some iface) (some frame) stack))
canif_input-IsRouted_example =
    canif_input-IsRouted both platform options taker iface frame stack refl refl
