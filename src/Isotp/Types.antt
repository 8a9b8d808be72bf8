-- ===== src/Isotp/Types.antt =====
-- The state of an ISO-TP connection (include/lwcan/isotp.h, include/lwcan/private/isotp_private.h),
-- the options of include/lwcan/options.h, and what the layer calls that is not its own.
use lwcan.Common.{
  ℕ, Bool, Option, none, some, List, [], ◌∷◌, if◌then◌else◌, ◌==◌, ◌&&◌, ltb, ◌>>=◌, ◌+◌, ◌%◌,
}
use lwcan.Common.Bytes.{sub8}
use lwcan.Can.{LwcanErr, transmit_timeout, receive_timeout, Frame, can_max_dlen, canfd_max_dlen}
use lwcan.Pool.{Layout}
use lwcan.Timeouts.{Timers, Handler, timeout, untimeout}
use lwcan.Buffer.{Buffer, Alloc, buffer_delete}
use lwcan.Canif.{Canif}

-- `isotp_state_t`
pub data State : Type 0 where
  idle tx_sf tx_ff tx_cf tx_fc wait_cf wait_fc : State

abbrev pub state_code : State → ℕ
state_code idle = 0
state_code tx_sf = 1
state_code tx_ff = 2
state_code tx_cf = 3
state_code tx_fc = 4
state_code wait_cf = 5
state_code wait_fc = 6

-- `flow->state == state`
abbrev pub in_state : State → State → Bool
in_state s t = state_code s == state_code t

-- Flow status of a flow control frame
abbrev pub fs_ready : ℕ
fs_ready = 0

abbrev pub fs_wait : ℕ
fs_wait = 1

abbrev pub fs_overflow : ℕ
fs_overflow = 2

abbrev pub cf_sn_mask : ℕ
cf_sn_mask = 0x0f

abbrev pub st_ms_range_max : ℕ
st_ms_range_max = 0x7f

-- `struct isotp_flow`; `buffer` is the chain that starts at its pointer.
pub record Flow : Type 0 where
  pub state : State
  pub buffer : List Buffer
  pub remaining_data : ℕ
  pub cf_sn : ℕ
  pub fs : ℕ
  pub bs : ℕ
  pub st : ℕ
  pub n_wft : ℕ

-- `struct isotp_pcb` at the address `addr`. A callback is the address of a function, or NULL.
pub record Pcb : Type 0 where
  pub addr : ℕ
  pub if_index : ℕ
  pub receive : Option ℕ
  pub receive_ff : Option ℕ
  pub sent : Option ℕ
  pub error : Option ℕ
  pub callback_arg : ℕ
  pub tx_id : ℕ
  pub rx_id : ℕ
  pub output_flow : Flow
  pub input_flow : Flow

-- The compile-time options
pub record Options : Type 0 where
  pub canfd : Bool
  pub canfd_brs : Bool
  pub padding_byte : ℕ
  pub receive_bs : ℕ
  pub receive_st : ℕ
  pub n_wft : ℕ
  pub n_as : ℕ
  pub n_bs : ℕ
  pub n_cs : ℕ
  pub n_br : ℕ
  pub n_cr : ℕ

-- The length of `data` in the frames of the build
abbrev pub max_dlen : Options → ℕ
max_dlen o = if o.canfd then canfd_max_dlen else can_max_dlen

-- One of the two flows of a connection
pub data Direction : Type 0 where
  output input : Direction

-- What a handler works on: one connection, the timers, the interfaces, and all outside the model
-- (the heap, the drivers, the application, the clock).
pub record Ctx (Ext : Type 0) : Type 0 where
  pub pcb : Pcb
  pub timers : Timers
  pub canifs : List Canif
  pub ext : Ext

-- What the layer calls. A callback of the application may do to the context what it likes, and
-- `none` is a fault in it. `uninit` is what a local `frame` holds before it is filled.
pub record Platform (Ext : Type 0) : Type 0 where
  pub alloc : Alloc Ext
  pub layout : Layout
  pub system_now : Ext → ℕ
  pub uninit : Ext → Frame
  pub send : Canif → Frame → ℕ → Direction → Ext → LwcanErr × Ext
  pub receive_cb : ℕ → ℕ → Option ℕ → Ctx Ext → Option (Ctx Ext)
  pub receive_ff_cb : ℕ → ℕ → Ctx Ext → Option (Ctx Ext)
  pub sent_cb : ℕ → ℕ → ℕ → Ctx Ext → Option (Ctx Ext)
  pub error_cb : ℕ → ℕ → LwcanErr → Ctx Ext → Option (Ctx Ext)

module _ {Ext : Type 0} where
  abbrev pub flow_of : Direction → Ctx Ext → Flow
  flow_of output c = c.pcb.output_flow
  flow_of input c = c.pcb.input_flow

  abbrev pub set_flow : Direction → Flow → Ctx Ext → Ctx Ext
  set_flow output f c = record c { pcb = record (c.pcb) { output_flow = f } }
  set_flow input f c = record c { pcb = record (c.pcb) { input_flow = f } }

  abbrev pub set_state : Direction → State → Ctx Ext → Ctx Ext
  set_state d s c = set_flow d (record (flow_of d c) { state = s }) c

-- `pcb->cf_sn += 1`, back to 0 after 15
abbrev pub next_sn : ℕ → ℕ
next_sn sn = let next = (sn + 1) % 256 in if ltb cf_sn_mask next then 0 else next

-- `cf_left > 0` for `int8_t cf_left = bs - cf_sn`
abbrev pub cf_left_pos : ℕ → ℕ → Bool
cf_left_pos bs sn = let left = sub8 bs sn in ltb 0 left && ltb left 128

-- The buffer at an address, and the chain without it
unfoldable pub unlink_buffer : ℕ → List Buffer → Option (Buffer × List Buffer)
unlink_buffer addr [] = none
unlink_buffer addr (b ∷ next) =
    if b.addr == addr
    then some (b, next)
    else (unlink_buffer addr next >>= λ r. some (r.0, b ∷ r.1))

-- The address that a pointer to a chain holds
abbrev pub head_addr : List Buffer → Option ℕ
head_addr [] = none
head_addr (b ∷ next) = some b.addr

module _ {Ext : Type 0} (p : Platform Ext) where
  -- `isotp_remove_buffer`
  unfoldable pub remove_buffer : Direction → Option ℕ → Ctx Ext → Ctx Ext
  unfolding unlink_buffer
  remove_buffer d none c = c
  remove_buffer d (some addr) c = elim (unlink_buffer addr (flow_of d c).buffer) [
    | none ↦ c
    | some (b, rest) ↦
        set_flow d (record (flow_of d c) { buffer = rest })
          (record c { ext = buffer_delete p.alloc b c.ext })
  ]

  -- `isotp_remove_buffer(flow, flow->buffer)`
  abbrev pub remove_first : Direction → Ctx Ext → Ctx Ext
  remove_first d c = remove_buffer d (head_addr (flow_of d c).buffer) c

  abbrev pub start_timeout : ℕ → Handler → Ctx Ext → Ctx Ext
  start_timeout time_ms handler c = record c {
    timers = timeout p.layout (p.system_now c.ext) time_ms handler c.pcb.addr c.timers;
  }

  abbrev pub stop_timeout : Handler → Ctx Ext → Ctx Ext
  stop_timeout handler c = record c { timers = untimeout p.layout handler c.pcb.addr c.timers }

  -- `if (pcb->error != NULL) pcb->error(arg, error)`
  abbrev pub report : ℕ → LwcanErr → Ctx Ext → Option (Ctx Ext)
  report arg error c = elim c.pcb.error [ none ↦ some c | some fn ↦ p.error_cb fn arg error c ]

  -- `isotp_output_error_handler`, `isotp_input_error_handler`: the callback is given `pcb`.
  unfoldable pub output_error_handler : Ctx Ext → Option (Ctx Ext)
  output_error_handler c =
      report c.pcb.addr transmit_timeout (set_state output idle (remove_first output c))

  unfoldable pub input_error_handler : Ctx Ext → Option (Ctx Ext)
  input_error_handler c =
      report c.pcb.addr receive_timeout (set_state input idle (remove_first input c))
