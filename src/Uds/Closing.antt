-- ===== src/Uds/Closing.antt =====
-- src/apps/uds/uds_client.c: opening the client, and disconnecting it.
use lwcan.Common.{ℕ, ◌≡◌, ◌<◌, refl, ap, true, false, Option, none, some, arith, not}
use lwcan.Pool.{Layout}
use lwcan.Pool.Slots.{Slots, IsValid, new_slot-IsValid}
use lwcan.Pool.Calls.{call_on-IsValid}
use lwcan.Timeouts.{p2_timer_handler, p2_star_timer_handler, s3_timer_handler, untimeout}
use lwcan.Timeouts.Pending.{one_if_le, pending-untimeout, pending-untimeout_le}
use lwcan.Isotp.Types.{Pcb, Ctx, Platform, Options}
use lwcan.Isotp.Connections.{
  addr_of, isotp_new, isotp_set_receive_callback, isotp_set_receive_ff_callback,
  isotp_set_sent_callback, isotp_set_error_callback,
}
use lwcan.Uds.{
  UdsState, UdsOptions, World, App, uds_idle, wait_response, response_pending, in_phase,
}
use lwcan.Uds.Calm.{Calm, Fits}
use lwcan.Uds.Requests.{uds_untimeout}
use lwcan.Uds.Session.{Callbacks, init_with, uds_client_init, uds_client_disconnect}

init_with-IsValid :
    (l : Layout) (max_pcb_num : ℕ) (u : UdsOptions) (fns : Callbacks) (s : UdsState)
    (made : Option ℕ × Slots Pcb)
    → IsValid addr_of l max_pcb_num made.1
    → IsValid addr_of l max_pcb_num (init_with u fns s made).1
unfolding init_with isotp_set_receive_callback isotp_set_receive_ff_callback isotp_set_sent_callback
    isotp_set_error_callback
init_with-IsValid l max_pcb_num u fns s (none, slots) v = v
init_with-IsValid l max_pcb_num u fns s (some addr, slots) v =
    call_on-IsValid addr_of l max_pcb_num addr (isotp_set_error_callback (some fns.error)) _
      (λ pcb. (_, refl, refl))
      (call_on-IsValid addr_of l max_pcb_num addr (isotp_set_sent_callback (some fns.sent)) _
        (λ pcb. (_, refl, refl))
        (call_on-IsValid addr_of l max_pcb_num addr
          (isotp_set_receive_ff_callback (some fns.receive_ff)) _ (λ pcb. (_, refl, refl))
          (call_on-IsValid addr_of l max_pcb_num addr
            (isotp_set_receive_callback (some fns.receive)) slots (λ pcb. (_, refl, refl)) v)))

-- uds_client_init
uds_client_init-IsValid :
    (l : Layout) (max_pcb_num : ℕ) (u : UdsOptions) (fns : Callbacks) (slots : Slots Pcb)
    (s : UdsState)
    → max_pcb_num < 256
    → IsValid addr_of l max_pcb_num slots
    → IsValid addr_of l max_pcb_num (uds_client_init l max_pcb_num u fns slots s).1
unfolding uds_client_init
uds_client_init-IsValid l max_pcb_num u fns slots s small v =
    init_with-IsValid l max_pcb_num u fns s (isotp_new l max_pcb_num slots)
      (new_slot-IsValid addr_of l _ max_pcb_num slots (λ addr. refl) small v)

module _ {E : Type 0} (p : Platform (World E)) (o : Options) (u : UdsOptions) (a : App E) where
  -- Where the client is connected and not connecting anew, its P2 timer is pending once at most
  -- and only while a response is awaited, and its P2* timer once at most and only while one is
  -- announced, uds_client_disconnect leaves it idle and not connected, with neither of the two
  -- timers pending.
  pub uds_client_disconnect-Calm :
      (c : Ctx (World E))
      → c.ext.uds.is_connected ≡ true
      → Calm c
      → Calm (uds_client_disconnect p o u a c)
        × ((uds_client_disconnect p o u a c).ext.uds.state ≡ uds_idle)
        × ((uds_client_disconnect p o u a c).ext.uds.is_connected ≡ false)
  unfolding uds_client_disconnect
  uds_client_disconnect-Calm c connected calm =
      let closes : not c.ext.uds.is_connected ≡ false = ap not connected in
      let t₁ = (uds_untimeout p p2_timer_handler c).timers in
      let t₂ = untimeout p.layout p2_star_timer_handler 0 t₁ in
      let fits : Fits uds_idle (untimeout p.layout s3_timer_handler 0 t₂) = (
        omega (
          arith,
          calm.fits.0,
          one_if_le (in_phase c.ext.uds.state wait_response),
          pending-untimeout p2_timer_handler 0 p.layout c.timers,
          pending-untimeout_le p2_timer_handler 0 p.layout p2_star_timer_handler 0 t₁,
          pending-untimeout_le p2_timer_handler 0 p.layout s3_timer_handler 0 t₂,
        ),
        omega (
          arith,
          calm.fits.1,
          one_if_le (in_phase c.ext.uds.state response_pending),
          pending-untimeout_le p2_star_timer_handler 0 p.layout p2_timer_handler 0 c.timers,
          pending-untimeout p2_star_timer_handler 0 p.layout t₁,
          pending-untimeout_le p2_star_timer_handler 0 p.layout s3_timer_handler 0 t₂,
        ),
      ) in
      rw (closes, uds_client_disconnect) (record { apart = refl; fits = fits }, refl, refl)
