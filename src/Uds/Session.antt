-- ===== src/Uds/Session.antt =====
-- src/apps/uds/uds_client.c: opening and closing the client, connecting, and its settings.
use lwcan.Common.{ℕ, false, ◌%◌, ◌^◌, Option, none, some, List, not, if◌then◌else◌, ◌>>=◌}
use lwcan.Can.{LwcanErr, ok, arg, in_progress, memory, is_ok, AddrCan}
use lwcan.Pool.{Layout}
use lwcan.Pool.Slots.{Slots}
use lwcan.Pool.Calls.{call_on}
use lwcan.Timeouts.{Timers, p2_timer_handler, p2_star_timer_handler, s3_timer_handler, untimeout}
use lwcan.Isotp.Types.{Pcb, Options, Ctx, Platform}
use lwcan.Isotp.Connections.{
  addr_of, isotp_new, isotp_remove, bind_pcb, isotp_set_receive_callback,
  isotp_set_receive_ff_callback, isotp_set_sent_callback, isotp_set_error_callback,
}
use lwcan.Uds.{
  uds_idle, connecting, UdsState, UdsContext, UdsOptions, World, App, in_phase, set_uds,
}
use lwcan.Uds.Requests.{uds_untimeout, uds_connect_try}

-- What `memset` leaves of the state
abbrev pub zero_uds : UdsState
zero_uds = record {
  state = uds_idle;
  is_connected = false;
  connect_try_num = 0;
  connect_try_time = 0;
  with_response = 0;
  p2 = 0;
  p2_star = 0;
  connect_cb = none;
  connect_cb_arg = 0;
  context = none;
  handle = 0;
  isotp_pcb = none;
}

-- The addresses of the four callbacks
pub record Callbacks : Type 0 where
  pub receive : ℕ
  pub receive_ff : ℕ
  pub sent : ℕ
  pub error : ℕ

-- The setters of `uds_client_init`, on the connection at an address
abbrev pub register_callbacks : Callbacks → ℕ → List Pcb → List Pcb
register_callbacks fns addr list =
    call_on addr_of addr (isotp_set_error_callback (some fns.error)) (
      call_on addr_of addr (isotp_set_sent_callback (some fns.sent)) (
        call_on addr_of addr (isotp_set_receive_ff_callback (some fns.receive_ff))
          (call_on addr_of addr (isotp_set_receive_callback (some fns.receive)) list)))

-- Behind `isotp_new`
unfoldable pub init_with :
    UdsOptions → Callbacks → UdsState → Option ℕ × Slots Pcb → LwcanErr × Slots Pcb × UdsState
init_with u fns s (none, slots) = (memory, slots, s)
init_with u fns s (some addr, slots) = (
  ok,
  record slots { list = register_callbacks fns addr slots.list },
  record zero_uds { isotp_pcb = some addr; p2 = u.p2_default; p2_star = u.p2_star_default },
)

unfoldable pub uds_client_init :
    Layout → ℕ → UdsOptions → Callbacks → Slots Pcb → UdsState → LwcanErr × Slots Pcb × UdsState
unfolding init_with
uds_client_init l max_pcb_num u fns slots s = init_with u fns s (isotp_new l max_pcb_num slots)

-- The pools of the connections and of the timeouts
unfoldable uds_client_deinit :
    Layout → Layout → Slots Pcb → Timers → UdsState → LwcanErr × Slots Pcb × Timers × UdsState
uds_client_deinit l timers_layout slots timers s =
    if not (in_phase s.state uds_idle) then (in_progress, slots, timers, s) else (
      ok,
      isotp_remove l s.isotp_pcb slots,
      if s.is_connected then untimeout timers_layout s3_timer_handler 0 timers else timers,
      zero_uds,
    )

module _ {E : Type 0} (p : Platform (World E)) (o : Options) (u : UdsOptions) (a : App E) where
  -- Behind `isotp_bind`
  connect_bound : ℕ → ℕ → Ctx (World E) → LwcanErr × Pcb → Option (LwcanErr × Ctx (World E))
  connect_bound cb cb_arg c (error, pcb) =
      if is_ok error
      then (uds_connect_try p o u a (
            set_uds
              (record (c.ext.uds) {
                state = connecting;
                connect_try_num = u.connect_retry_num % 256;
                connect_cb = some cb;
                connect_cb_arg = cb_arg;
              })
              (record c { pcb = pcb }))
          >>= λ c'. some (ok, c'))
      else some (error, c)

  unfoldable uds_client_connect :
      Option AddrCan → Option ℕ → ℕ → Ctx (World E) → Option (LwcanErr × Ctx (World E))
  unfolding connect_bound
  uds_client_connect addr none cb_arg c = some (arg, c)
  uds_client_connect addr (some cb) cb_arg c =
      if not (in_phase c.ext.uds.state uds_idle)
      then some (in_progress, c)
      else elim c.ext.uds.isotp_pcb [
        | none ↦ some (arg, c)
        | some pcb ↦ elim addr [
          | none ↦ some (arg, c)
          | some to ↦ connect_bound cb cb_arg c (bind_pcb to c.pcb)
        ]
      ]

  unfoldable pub uds_client_disconnect : Ctx (World E) → Ctx (World E)
  uds_client_disconnect c =
      if not c.ext.uds.is_connected
      then c
      else set_uds
          (record (c.ext.uds) {
            state = uds_idle;
            is_connected = false;
            p2 = u.p2_default;
            p2_star = u.p2_star_default;
          })
          (uds_untimeout p s3_timer_handler
            (uds_untimeout p p2_star_timer_handler (uds_untimeout p p2_timer_handler c)))

-- A setting changes where no communication is going on.
when_idle : (UdsState → UdsState) → UdsState → LwcanErr × UdsState
when_idle change s = if not (in_phase s.state uds_idle) then (in_progress, s) else (ok, change s)

unfoldable uds_set_context : Option UdsContext → ℕ → UdsState → LwcanErr × UdsState
unfolding when_idle
uds_set_context context handle s =
    when_idle (λ t. record t { context = context; handle = handle }) s

-- The timers are `uint16_t`.
unfoldable uds_set_p2_timer : ℕ → UdsState → LwcanErr × UdsState
unfolding when_idle
uds_set_p2_timer time s = when_idle (λ t. record t { p2 = time % 2 ^ 16 }) s

unfoldable uds_set_p2_star_timer : ℕ → UdsState → LwcanErr × UdsState
unfolding when_idle
uds_set_p2_star_timer time s = when_idle (λ t. record t { p2_star = time % 2 ^ 16 }) s
