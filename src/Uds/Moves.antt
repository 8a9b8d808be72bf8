-- ===== src/Uds/Moves.antt =====
-- src/apps/uds/uds_client.c: each function of the client, while it is not connecting, moves it as the
-- state machine does.
use lwcan.Common.{
  ℕ, ◌≡◌, refl, ap, false, some, List, ◌==◌, not, inl, inr, Bool-cases, length, ◌>>=◌,
}
use lwcan.Can.{LwcanErr, receive_timeout}
use lwcan.Timeouts.{p2_timer_handler, p2_star_timer_handler, s3_timer_handler}
use lwcan.Isotp.Types.{Ctx, Platform, Options}
use lwcan.Uds.{
  uds_idle, sending_request, wait_response, wait_segmented, response_pending, UdsOptions, World,
  App, in_phase, set_uds, set_phase,
}
use lwcan.Uds.Requests.{
  uds_timeout, uds_untimeout, call_error, uds_send_request, uds_sent, uds_p2_timer_handler,
  uds_p2_star_timer_handler,
}
use lwcan.Uds.Responses.{stop_response_timer, uds_receive_ff, uds_error}
use lwcan.Uds.Calm.{
  Calm, Fits, Moves, Quiet, p2_pending, p2_star_pending, stop-Fits, start-p2, restart-s3,
  then_idle-Moves, call_error-Same,
}
use lwcan.Uds.Heap.{Heap, uds_isotp_send-Returns}
use lwcan.Uds.Machine.{
  asked, announced, delivered, next, observe_request, idle-eq, sending-eq, next-busy,
  next-not_sending, next-asked_busy, p2-wait, p2_star-pending,
}

module _ {E : Type 0} (p : Platform (World E)) (o : Options) (u : UdsOptions) (a : App E)
    (q : Quiet a) where
  pub uds_error-Moves :
      (error : LwcanErr) (c : Ctx (World E)) → Calm c → Moves (uds_error p o u a error c) uds_idle
  unfolding uds_error
  uds_error-Moves error c calm = elim (Bool-cases (in_phase c.ext.uds.state uds_idle)) [
    | inl idle ↦
        let at : c.ext.uds.state ≡ uds_idle = idle-eq c.ext.uds.state idle in
        (c, rw (calm.apart, idle, uds_error) refl, at, rw at at calm.fits)
    | inr busy ↦
        let stopped = stop_response_timer p c.ext.uds.state c in
        let (c', e, same) = call_error-Same a q error stopped in
        rw (calm.apart, busy, uds_error)
          (then_idle-Moves (call_error a error stopped) stopped c' e same
            (stop-Fits p c.ext.uds.state c calm.fits))
  ]

  pub uds_receive_ff-Moves :
      (c : Ctx (World E))
      → Calm c
      → Moves (uds_receive_ff p o u a c) (next c.ext.uds.state announced)
  unfolding uds_receive_ff next
  uds_receive_ff-Moves c calm = elim (Bool-cases (in_phase c.ext.uds.state uds_idle)) [
    | inl idle ↦
        let at : c.ext.uds.state ≡ uds_idle = idle-eq c.ext.uds.state idle in
        let to : next c.ext.uds.state announced ≡ uds_idle = rw at refl in
        rw to (c, rw (idle, uds_receive_ff) refl, at, rw at at calm.fits)
    | inr busy ↦
        let (_, to) = next-busy c.ext.uds.state busy in
        let stopped = stop_response_timer p c.ext.uds.state c in
        rw to (
          set_phase wait_segmented stopped,
          rw (busy, uds_receive_ff) refl,
          refl,
          stop-Fits p c.ext.uds.state c calm.fits,
        )
  ]

  pub uds_sent-Moves :
      (c : Ctx (World E))
      → Calm c
      → Moves
          (uds_sent p o u a c)
          (next c.ext.uds.state (delivered (not (c.ext.uds.with_response == 0))))
  unfolding uds_sent next
  uds_sent-Moves c calm = elim (Bool-cases (in_phase c.ext.uds.state sending_request)) [
    | inl sending ↦
        let at : c.ext.uds.state ≡ sending_request = sending-eq c.ext.uds.state sending in
        let silent : Fits uds_idle c.timers = rw at at calm.fits in
        elim (Bool-cases (c.ext.uds.with_response == 0)) [
          | inl unanswered ↦
              let to : next c.ext.uds.state (delivered (not (c.ext.uds.with_response == 0)))
                  ≡ uds_idle =
                rw (at, unanswered) refl in
              let s3 = uds_untimeout p s3_timer_handler (set_phase uds_idle c) in
              rw to (
                uds_timeout p u.s3_client s3_timer_handler s3,
                rw (calm.apart, sending, unanswered, uds_sent) refl,
                refl,
                restart-s3 p uds_idle u.s3_client (set_phase uds_idle c) silent,
              )
          | inr wanted ↦
              let to : next c.ext.uds.state (delivered (not (c.ext.uds.with_response == 0)))
                  ≡ wait_response =
                rw (at, wanted) refl in
              let c' = uds_timeout p c.ext.uds.p2 p2_timer_handler (set_phase wait_response c) in
              let s3 = uds_untimeout p s3_timer_handler c' in
              rw to (
                uds_timeout p u.s3_client s3_timer_handler s3,
                rw (calm.apart, sending, wanted, uds_sent) refl,
                refl,
                restart-s3 p wait_response u.s3_client c'
                    (start-p2 p c.ext.uds.p2 (set_phase wait_response c) silent),
              )
        ]
    | inr other ↦
        let to = next-not_sending c.ext.uds.state (not (c.ext.uds.with_response == 0)) other in
        rw to (c, rw (calm.apart, other, uds_sent) refl, refl, calm.fits)
  ]

  pub uds_p2-Moves :
      (c : Ctx (World E))
      → Calm c
      → (p2_pending c.timers == 0) ≡ false
      → Moves (uds_p2_timer_handler p o u a (uds_untimeout p p2_timer_handler c)) uds_idle
  unfolding uds_p2_timer_handler
  uds_p2-Moves c calm due =
      let at : c.ext.uds.state ≡ wait_response = p2-wait c.ext.uds.state c.timers calm.fits due in
      let fired = uds_untimeout p p2_timer_handler c in
      let silent : Fits uds_idle fired.timers = stop-Fits p wait_response c (rw at at calm.fits) in
      let (c', e, same) = call_error-Same a q receive_timeout fired in
      rw (calm.apart, uds_p2_timer_handler)
        (then_idle-Moves (call_error a receive_timeout fired) fired c' e same silent)

  pub uds_p2_star-Moves :
      (c : Ctx (World E))
      → Calm c
      → (p2_star_pending c.timers == 0) ≡ false
      → Moves (uds_p2_star_timer_handler p o u a (uds_untimeout p p2_star_timer_handler c)) uds_idle
  unfolding uds_p2_star_timer_handler
  uds_p2_star-Moves c calm due =
      let at : c.ext.uds.state ≡ response_pending =
        p2_star-pending c.ext.uds.state c.timers calm.fits due in
      let fired = uds_untimeout p p2_star_timer_handler c in
      let silent : Fits uds_idle fired.timers =
        stop-Fits p response_pending c (rw at at calm.fits) in
      let (c', e, same) = call_error-Same a q receive_timeout fired in
      then_idle-Moves (call_error a receive_timeout fired) fired c' e same silent

  pub uds_send_request-Moves :
      Heap p
      → (request : List ℕ) (with_response : ℕ) (c : Ctx (World E)) → Calm c
      → Moves
          (uds_send_request p o u a (some request) with_response c >>= λ r. some r.1)
          (next c.ext.uds.state (observe_request request c))
  unfolding uds_send_request next
  uds_send_request-Moves h request with_response c calm = elim (Bool-cases (length request == 0)) [
    | inl empty ↦ rw empty (c, refl, refl, calm.fits)
    | inr bytes ↦ elim (Bool-cases (not c.ext.uds.is_connected)) [
      | inl apart ↦ rw (bytes, apart) (c, refl, refl, calm.fits)
      | inr connected ↦ elim (Bool-cases (in_phase c.ext.uds.state uds_idle)) [
        | inr busy ↦
            rw (bytes, connected, busy, next-asked_busy c.ext.uds.state busy)
              (c, refl, refl, calm.fits)
        | inl idle ↦
            let at : c.ext.uds.state ≡ uds_idle = idle-eq c.ext.uds.state idle in
            let to : next c.ext.uds.state asked ≡ sending_request = rw at refl in
            let started =
              set_uds
                (record (c.ext.uds) { with_response = with_response; state = sending_request }) c in
            let (error, c', sent, kept, fits) = uds_isotp_send-Returns p o h request started in
            rw (bytes, connected, idle, to)
              (c', rw sent refl, ap (λ w. w.state) kept, fits sending_request (rw at at calm.fits))
      ]
    ]
  ]
