-- ===== src/Uds/Receiving.antt =====
-- src/apps/uds/uds_client.c: a response, while the client is not connecting, moves it as the state
-- machine does.
use lwcan.Common.{
  ℕ, ◌≡◌, refl, ap, ◌∙◌, false, Option, some, ◌==◌, inl, inr, Bool-cases, Option-cases, ◌>>=◌,
  get_elem?, if_true, if_false,
}
use mathlib.Core.Option.{some-injective, none-ne-some}
use lwcan.Timeouts.{p2_star_timer_handler}
use lwcan.Buffer.{Buffer}
use lwcan.Isotp.Types.{Ctx, Platform, Options}
use lwcan.Isotp.Input.{isotp_received}
use lwcan.Uds.{
  UdsPhase, uds_idle, connecting, response_pending, UdsOptions, World, App, in_phase, set_phase,
}
use lwcan.Uds.Requests.{uds_timeout}
use lwcan.Uds.Responses.{
  response_pending_nrc, buffer_at, stop_response_timer, call_positive, call_negative, negative_read,
  handle_negative_response, handle_positive_response, handle_response, uds_receive,
}
use lwcan.Uds.Calm.{
  Calm, Fits, Moves, Quiet, stop-Fits, stop-uds, stop_receive_lem, start-p2_star, then_idle-Moves,
  call_positive-Same, call_negative-Same,
}
use lwcan.Uds.Heap.{Heap, isotp_received-Same}
use lwcan.Uds.Machine.{
  Observed, answered, deferred, next, observe_bytes, observe_bytes-cases, observe_response, idle-eq,
  next-busy,
}

module _ {E : Type 0} (p : Platform (World E)) (o : Options) (u : UdsOptions) (a : App E)
    (q : Quiet a) where
  -- A response that is read
  handle_response-Moves :
      (b : Buffer) (s : UdsPhase) (c : Ctx (World E)) (happened : Observed)
      → c.ext.uds.state ≡ s
      → in_phase s connecting ≡ false
      → in_phase s uds_idle ≡ false
      → Fits uds_idle c.timers
      → observe_bytes b.payload.bytes ≡ some happened
      → Moves (handle_response p o u a b (get_elem? b.payload.bytes 0) c) (next s happened)
  unfolding handle_response handle_positive_response handle_negative_response negative_read next
  handle_response-Moves b s c happened at apart busy silent e =
      let apart' : in_phase c.ext.uds.state connecting ≡ false = rw at apart in
      elim (observe_bytes-cases b.payload.bytes happened e) [
        | inl (sid, has, positive, is) ↦
            let (c', called, same) = call_positive-Same a q b.payload.bytes b.length c in
            rw (is, has, positive, apart', handle_response, handle_positive_response)
              (then_idle-Moves (call_positive a b.payload.bytes b.length c) c c' called same silent)
        | inr (sid, rejected_sid, nrc, has, negative, has₁, has₂, is) ↦
            let read : handle_response p o u a b (get_elem? b.payload.bytes 0) c
                ≡ negative_read p o u a (some rejected_sid) (some nrc) c =
              ap (λ m. handle_response p o u a b m c) has
              ∙ (if_true _ _ _ negative
                  ∙ (if_false _ _ _ apart'
                      ∙ (ap (λ m. negative_read p o u a m (get_elem? b.payload.bytes 2) c) has₁
                          ∙ ap (λ m. negative_read p o u a (some rejected_sid) m c) has₂))) in
            elim (Bool-cases (nrc == response_pending_nrc)) [
              | inl pending ↦
                  let is' : happened ≡ deferred = some-injective _ _ (rw pending at is) in
                  let (to, _) = next-busy s busy in
                  rw (is', to)
                    (
                      uds_timeout p c.ext.uds.p2_star p2_star_timer_handler
                          (set_phase response_pending c),
                      read ∙ if_true _ _ _ pending,
                      refl,
                      start-p2_star p c.ext.uds.p2_star (set_phase response_pending c) silent,
                    )
              | inr final ↦
                  let is' : happened ≡ answered = some-injective _ _ (rw final at is) in
                  let (c', called, same) = call_negative-Same a q rejected_sid nrc c in
                  let (c₁, e₁, to, fits) =
                    then_idle-Moves (call_negative a rejected_sid nrc c) c c' called same silent in
                  rw is' (c₁, read ∙ (if_false _ _ _ final ∙ e₁), to, fits)
            ]
      ]

  -- The buffer is given back.
  received-Moves :
      Heap p
      → (buffer : Option ℕ) (handled : Option (Ctx (World E))) (s : UdsPhase) → Moves handled s
      → Moves (handled >>= λ c. some (isotp_received p o buffer c).1) s
  received-Moves h buffer handled s (c, e, to, fits) =
      let (same, same') = isotp_received-Same p o h buffer c in
      ((isotp_received p o buffer c).1, rw e refl, ap (λ w. w.state) same' ∙ to, rw same fits)

  pub uds_receive-Moves :
      Heap p
      → (buffer : Option ℕ) (c : Ctx (World E)) (happened : Observed) → Calm c
      → observe_response buffer c ≡ some happened
      → Moves (uds_receive p o u a buffer c) (next c.ext.uds.state happened)
  unfolding uds_receive next
  uds_receive-Moves h buffer c happened calm e =
      elim (Bool-cases (in_phase c.ext.uds.state uds_idle)) [
        | inl idle ↦
            let at : c.ext.uds.state ≡ uds_idle = idle-eq c.ext.uds.state idle in
            let is : answered ≡ happened = some-injective _ _ (rw idle at e) in
            let (same, same') = isotp_received-Same p o h buffer c in
            rw⁻¹ is (
              (isotp_received p o buffer c).1,
              rw (idle, uds_receive) refl,
              ap (λ w. w.state) same' ∙ at,
              rw same (rw at at calm.fits),
            )
        | inr busy ↦ elim (Option-cases (buffer_at buffer c.pcb.input_flow.buffer)) [
          | inl lost ↦ absurd (none-ne-some _ (rw (busy, lost) at e))
          | inr (b, found) ↦
              let stopped = stop_response_timer p c.ext.uds.state c in
              let moves =
                handle_response-Moves b c.ext.uds.state stopped happened
                  (ap (λ w. w.state) (stop-uds p c.ext.uds.state c)) calm.apart busy
                  (stop-Fits p c.ext.uds.state c calm.fits) (rw (busy, found) at e) in
              let (c', handled, to, fits) = received-Moves h buffer _ _ moves in
              (
                c',
                rw (busy, found, stop_receive_lem p c.ext.uds.state c calm.apart, uds_receive)
                    handled,
                to,
                fits,
              )
        ]
      ]
