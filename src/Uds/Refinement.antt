-- ===== src/Uds/Refinement.antt =====
-- src/apps/uds/uds_client.c: what may happen to the client while it is not connecting, and the
-- theorem that it moves as the state machine of Machine does.
use lwcan.Common.{
  ℕ, ◌≡◌, refl, Option, none, some, List, [], ◌∷◌, arith, ◌==◌, not, inl, inr, Bool-cases, ◌>>=◌,
  if◌then◌else◌,
}
use mathlib.Core.Option.{some-injective, none-ne-some}
use lwcan.Can.{LwcanErr}
use lwcan.Timeouts.{p2_timer_handler, p2_star_timer_handler, s3_timer_handler}
use lwcan.Timeouts.Pending.{pending-untimeout_le}
use lwcan.Isotp.Types.{Ctx, Platform, Options}
use lwcan.Uds.{UdsPhase, UdsOptions, World, App}
use lwcan.Uds.Requests.{
  tester_present_sid, uds_untimeout, uds_send_request, uds_sent, uds_s3_timer_handler,
  uds_p2_timer_handler, uds_p2_star_timer_handler,
}
use lwcan.Uds.Responses.{uds_receive, uds_receive_ff, uds_error}
use lwcan.Uds.Calm.{Calm, Fits, Moves, Quiet, p2_pending, p2_star_pending}
use lwcan.Uds.Heap.{Heap}
use lwcan.Uds.Machine.{
  Observed, announced, failed, expired, ignored, delivered, next, observe_response, observe_request,
  next-apart,
}
use lwcan.Uds.Moves.{
  uds_error-Moves, uds_receive_ff-Moves, uds_sent-Moves, uds_p2-Moves, uds_p2_star-Moves,
  uds_send_request-Moves,
}
use lwcan.Uds.Receiving.{uds_receive-Moves}

-- A call of the application, of the ISO-TP connection, or of a timer that is due
pub data Event : Type 0 where
  request : List ℕ → ℕ → Event
  sent first_frame : Event
  response : Option ℕ → Event
  failure : LwcanErr → Event
  p2_due p2_star_due s3_due : Event

module _ {E : Type 0} (p : Platform (World E)) (o : Options) (u : UdsOptions) (a : App E) where
  -- The request of `s3_timer_handler`
  abbrev pub keep_alive : List ℕ
  keep_alive = tester_present_sid ∷ u.keep_session_suppress ∷ []

  pub on_event : Event → Ctx (World E) → Option (Ctx (World E))
  on_event (request bytes with_response) c =
      uds_send_request p o u a (some bytes) with_response c >>= λ r. some r.1
  on_event sent c = uds_sent p o u a c
  on_event first_frame c = uds_receive_ff p o u a c
  on_event (response buffer) c = uds_receive p o u a buffer c
  on_event (failure error) c = uds_error p o u a error c
  on_event p2_due c = uds_p2_timer_handler p o u a (uds_untimeout p p2_timer_handler c)
  on_event p2_star_due c =
      uds_p2_star_timer_handler p o u a (uds_untimeout p p2_star_timer_handler c)
  on_event s3_due c = uds_s3_timer_handler p o u a (uds_untimeout p s3_timer_handler c)

  -- `none` cannot happen: a response that is not in a buffer or is too short, or a timer that is not
  -- pending.
  unfoldable pub observe : Event → Ctx (World E) → Option Observed
  observe (request bytes with_response) c = some (observe_request bytes c)
  observe sent c = some (delivered (not (c.ext.uds.with_response == 0)))
  observe first_frame c = some announced
  observe (response buffer) c = observe_response buffer c
  observe (failure error) c = some failed
  observe p2_due c = if p2_pending c.timers == 0 then none else some expired
  observe p2_star_due c = if p2_star_pending c.timers == 0 then none else some expired
  observe s3_due c = some (if u.keep_session then observe_request keep_alive c else ignored)

  module _ (q : Quiet a) (h : Heap p) where
    s3-Moves :
        (c : Ctx (World E))
        → Calm c
        → Moves (uds_s3_timer_handler p o u a (uds_untimeout p s3_timer_handler c)) (
            next c.ext.uds.state (if u.keep_session then observe_request keep_alive c else ignored))
    unfolding uds_s3_timer_handler next
    s3-Moves c calm =
        let fired = uds_untimeout p s3_timer_handler c in
        let fits : Fits c.ext.uds.state fired.timers = (
          omega (
            arith,
            calm.fits.0,
            pending-untimeout_le p2_timer_handler 0 p.layout s3_timer_handler 0 c.timers,
          ),
          omega (
            arith,
            calm.fits.1,
            pending-untimeout_le p2_star_timer_handler 0 p.layout s3_timer_handler 0 c.timers,
          ),
        ) in
        elim (Bool-cases u.keep_session) [
          | inl keep ↦
              rw (keep, uds_s3_timer_handler)
                (uds_send_request-Moves p o u a q h keep_alive 0 fired
                  (record { apart = calm.apart; fits = fits }))
          | inr drop ↦ rw (drop, uds_s3_timer_handler) (_, refl, refl, fits)
        ]

    relabel :
        (called : Option (Ctx (World E))) (s : UdsPhase) (x y : Observed)
        → x ≡ y
        → Moves called (next s x)
        → Moves called (next s y)
    relabel called s x y e moves = rw e at moves

    event-Moves :
        (event : Event) (c : Ctx (World E)) (happened : Observed)
        → Calm c
        → observe event c ≡ some happened
        → Moves (on_event event c) (next c.ext.uds.state happened)
    unfolding on_event observe next
    event-Moves (request bytes with_response) c happened calm e =
        relabel _ _ _ _ (some-injective _ _ e)
          (uds_send_request-Moves p o u a q h bytes with_response c calm)
    event-Moves sent c happened calm e =
        relabel _ _ _ _ (some-injective _ _ e) (uds_sent-Moves p o u a q c calm)
    event-Moves first_frame c happened calm e =
        relabel _ _ _ _ (some-injective _ _ e) (uds_receive_ff-Moves p o u a q c calm)
    event-Moves (response buffer) c happened calm e =
        uds_receive-Moves p o u a q h buffer c happened calm e
    event-Moves (failure error) c happened calm e =
        rw⁻¹ (some-injective _ _ e) (uds_error-Moves p o u a q error c calm)
    event-Moves p2_due c happened calm e = elim (Bool-cases (p2_pending c.timers == 0)) [
      | inl quiet ↦ absurd (none-ne-some _ (rw quiet at e))
      | inr due ↦
          let is : expired ≡ happened = some-injective _ _ (rw due at e) in
          relabel _ _ _ _ is (uds_p2-Moves p o u a q c calm due)
    ]
    event-Moves p2_star_due c happened calm e = elim (Bool-cases (p2_star_pending c.timers == 0)) [
      | inl quiet ↦ absurd (none-ne-some _ (rw quiet at e))
      | inr due ↦
          let is : expired ≡ happened = some-injective _ _ (rw due at e) in
          relabel _ _ _ _ is (uds_p2_star-Moves p o u a q c calm due)
    ]
    event-Moves s3_due c happened calm e = relabel _ _ _ _ (some-injective _ _ e) (s3-Moves c calm)

    -- Where the client is not connecting, its P2 timer is pending once at most and only while a
    -- response is awaited, and its P2* timer once at most and only while one is announced; where
    -- the application's functions leave the client's state and the timers alone, and the heap
    -- leaves the client's state alone and gives blocks as large as it is asked for: a request, the
    -- report that it is sent, a response in a buffer with the bytes that are read, a first frame,
    -- an error of the connection, or a timer that is pending and due is handled without a fault,
    -- takes the client to the state that the state machine gives, and keeps all that of the client
    -- and its timers.
    pub on_event-next :
        (event : Event) (c : Ctx (World E)) (happened : Observed)
        → Calm c
        → observe event c ≡ some happened
        → (c' : Ctx (World E)) × (on_event event c ≡ some c')
          × (c'.ext.uds.state ≡ next c.ext.uds.state happened)
          × Calm c'
    on_event-next event c happened calm e =
        let (c', done, to, fits) = event-Moves event c happened calm e in
        (
          c',
          done,
          to,
          record {
            apart = rw to (next-apart c.ext.uds.state happened calm.apart);
            fits = rw to fits;
          },
        )
