-- ===== src/Uds/Requests.antt =====
-- src/apps/uds/uds_client.c: what the client sends, and what it does when it is sent.
use lwcan.Common.{
  ℕ, ◌-◌, false, Option, none, some, List, [], ◌∷◌, ◌==◌, ◌&&◌, not, leb, length, if◌then◌else◌,
  ◌>>=◌,
}
use lwcan.Common.Bytes.{sub8, sub32}
use lwcan.Can.{LwcanErr, arg, in_progress, aborted, connect, is_ok, receive_timeout}
use lwcan.Timeouts.{Handler, p2_timer_handler, s3_timer_handler, connect_try, timeout, untimeout}
use lwcan.Isotp.Types.{Options, Ctx, Platform}
use lwcan.Isotp.Output.{isotp_send}
use lwcan.Uds.{
  uds_idle, connecting, sending_request, wait_response, UdsContext, UdsOptions, World, App,
  in_phase, set_uds, set_phase,
}

abbrev pub tester_present_sid : ℕ
tester_present_sid = 0x3e

-- `if (fn != NULL) fn(...)`
abbrev pub call_if {ℓ} : {S : Type ℓ} → Option ℕ → (ℕ → Option S) → S → Option S
call_if none call c = some c
call_if (some fn) call c = call fn

abbrev error_fn_of : Option UdsContext → Option ℕ
error_fn_of none = none
error_fn_of (some x) = x.error

module _ {E : Type 0} (p : Platform (World E)) where
  -- `lwcan_timeout(time, handler, NULL)` and `lwcan_untimeout(handler, NULL)`
  abbrev pub uds_timeout : ℕ → Handler → Ctx (World E) → Ctx (World E)
  uds_timeout time handler c = record c {
    timers = timeout p.layout (p.system_now c.ext) time handler 0 c.timers;
  }

  abbrev pub uds_untimeout : Handler → Ctx (World E) → Ctx (World E)
  uds_untimeout handler c = record c { timers = untimeout p.layout handler 0 c.timers }

  -- What is left of the time between two attempts
  abbrev pub connect_timeout : UdsOptions → Ctx (World E) → ℕ
  connect_timeout u c =
      let passed = sub32 (p.system_now c.ext) c.ext.uds.connect_try_time in
      if leb u.connect_retry_timeout passed then 0 else u.connect_retry_timeout - passed

module _ {E : Type 0} (a : App E) where
  unfoldable pub call_connect : LwcanErr → Ctx (World E) → Option (Ctx (World E))
  call_connect error c = elim c.ext.uds.connect_cb [
    | none ↦ none
    | some fn ↦ a.connect_fn fn c.ext.uds.connect_cb_arg error c
  ]

  -- `if (context != NULL && context->error != NULL) context->error(handle, error)`
  abbrev pub call_error : LwcanErr → Ctx (World E) → Option (Ctx (World E))
  call_error error c =
      call_if (error_fn_of c.ext.uds.context) (λ fn. a.error_fn fn c.ext.uds.handle error c) c

module _ {E : Type 0} where
  -- A callback, and then the idle state
  abbrev pub then_idle : Option (Ctx (World E)) → Option (Ctx (World E))
  then_idle called = called >>= λ c. some (set_phase uds_idle c)

module _ {E : Type 0} (p : Platform (World E)) (o : Options) where
  -- `isotp_send(pcb, ...)`, and of `uds_state.isotp_pcb`
  abbrev pub send_to : Option ℕ → List ℕ → Ctx (World E) → Option (LwcanErr × Ctx (World E))
  send_to none request c = some (arg, c)
  send_to (some pcb) request c = isotp_send p o (some request) (length request) c

  abbrev pub uds_isotp_send : List ℕ → Ctx (World E) → Option (LwcanErr × Ctx (World E))
  uds_isotp_send request c = send_to c.ext.uds.isotp_pcb request c

module _ {E : Type 0} (p : Platform (World E)) (o : Options) (u : UdsOptions) (a : App E) where
  unfoldable pub connect_try_sent : LwcanErr × Ctx (World E) → Option (Ctx (World E))
  unfolding call_connect
  connect_try_sent (error, c) = if is_ok error then some c else then_idle (call_connect a error c)

  unfoldable pub uds_connect_try : Ctx (World E) → Option (Ctx (World E))
  unfolding connect_try_sent
  uds_connect_try c =
      let s = c.ext.uds in
      if not s.is_connected && (s.connect_try_num == 0)
      then then_idle (call_connect a aborted c)
      else (uds_isotp_send p o (tester_present_sid ∷ 0 ∷ []) (
            set_uds
              (record s {
                connect_try_time = p.system_now c.ext;
                connect_try_num = sub8 s.connect_try_num 1;
              })
              c)
          >>= connect_try_sent)

  -- The request, NULL (`none`) or so many bytes
  unfoldable pub uds_send_request :
      Option (List ℕ) → ℕ → Ctx (World E) → Option (LwcanErr × Ctx (World E))
  uds_send_request none with_response c = some (arg, c)
  uds_send_request (some request) with_response c =
      let s = c.ext.uds in
      if length request == 0
      then some (arg, c)
      else if not s.is_connected
      then some (connect, c)
      else if not (in_phase s.state uds_idle)
      then some (in_progress, c)
      else uds_isotp_send p o request
          (set_uds (record s { with_response = with_response; state = sending_request }) c)

  unfoldable pub uds_s3_timer_handler : Ctx (World E) → Option (Ctx (World E))
  unfolding uds_send_request
  uds_s3_timer_handler c =
      if u.keep_session
      then (uds_send_request (some (tester_present_sid ∷ u.keep_session_suppress ∷ [])) 0 c >>= λ r.
          some r.1)
      else some (
          set_uds
            (record (c.ext.uds) {
              is_connected = false;
              p2 = u.p2_default;
              p2_star = u.p2_star_default;
            })
            c)

  unfoldable pub uds_sent : Ctx (World E) → Option (Ctx (World E))
  uds_sent c =
      let s = c.ext.uds in
      if in_phase s.state connecting
      then some (uds_timeout p s.p2 p2_timer_handler c)
      else if not (in_phase s.state sending_request)
      then some c
      else (let c' =
            if s.with_response == 0
            then set_phase uds_idle c
            else uds_timeout p s.p2 p2_timer_handler (set_phase wait_response c) in
          some (uds_timeout p u.s3_client s3_timer_handler (uds_untimeout p s3_timer_handler c')))

  unfoldable pub uds_p2_timer_handler : Ctx (World E) → Option (Ctx (World E))
  uds_p2_timer_handler c =
      if in_phase c.ext.uds.state connecting
      then some (uds_timeout p (connect_timeout p u c) connect_try c)
      else then_idle (call_error a receive_timeout c)

  unfoldable pub uds_p2_star_timer_handler : Ctx (World E) → Option (Ctx (World E))
  uds_p2_star_timer_handler c = then_idle (call_error a receive_timeout c)
