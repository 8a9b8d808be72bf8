-- ===== src/Uds/Stuck.antt =====
-- src/apps/uds/uds_client.c: `uds_send_request` where `isotp_send` refuses the request.
use lwcan.Common.{
  ℕ, ◌≡◌, ◌<◌, ap, ◌∙◌, sym, true, false, some, List, arith, ◌==◌, not, length, if_true, if_false,
}
use mathlib.Core.Option.{some-injective}
use lwcan.Can.{LwcanErr, in_progress}
use lwcan.Isotp.Types.{Ctx, Platform, Options}
use lwcan.Uds.{UdsOptions, World, App, in_phase, uds_idle, sending_request, set_uds}
use lwcan.Uds.Requests.{uds_send_request}
use lwcan.Uds.Heap.{Heap, uds_isotp_send-Returns}

module _ {E : Type 0} (p : Platform (World E)) (o : Options) (u : UdsOptions) (a : App E) where
  -- While the client sends, a request is refused.
  request-in_progress :
      (request : List ℕ) (with_response : ℕ) (c : Ctx (World E))
      → 0 < length request
      → c.ext.uds.is_connected ≡ true
      → c.ext.uds.state ≡ sending_request
      → uds_send_request p o u a (some request) with_response c ≡ some (in_progress, c)
  unfolding uds_send_request
  request-in_progress request with_response c bytes connected sending =
      let some_bytes : (length request == 0) ≡ false = ground arith in
      if_false _ _ _ some_bytes
      ∙ (if_false _ _ _ (ap not connected)
          ∙ if_true _ _ _ (ap (λ s. not (in_phase s uds_idle)) sending))

  -- Where the client is connected and idle, a request has at least a byte, and the heap leaves the
  -- client's state alone and gives blocks as large as it is asked for, uds_send_request leaves the
  -- client in the state of sending a request whatever error it returns, and every later request of
  -- at least a byte in that state is refused as one in progress.
  pub uds_send_request-refused :
      (request : List ℕ) (with_response : ℕ) (c c' : Ctx (World E)) (error : LwcanErr)
      → Heap p
      → 0 < length request
      → c.ext.uds.is_connected ≡ true
      → c.ext.uds.state ≡ uds_idle
      → uds_send_request p o u a (some request) with_response c ≡ some (error, c')
      → (c'.ext.uds.state ≡ sending_request)
        × ((later : List ℕ) (with_response' : ℕ)
            → 0 < length later
            → uds_send_request p o u a (some later) with_response' c' ≡ some (in_progress, c'))
  unfolding uds_send_request
  uds_send_request-refused request with_response c c' error h bytes connected idle returned =
      let started =
        set_uds (record (c.ext.uds) { with_response = with_response; state = sending_request }) c in
      let (error', c₁, sent, kept, _) = uds_isotp_send-Returns p o h request started in
      let some_bytes : (length request == 0) ≡ false = ground arith in
      let ran : uds_send_request p o u a (some request) with_response c ≡ some (error', c₁) =
        if_false _ _ _ some_bytes
        ∙ (if_false _ _ _ (ap not connected)
            ∙ (if_false _ _ _ (ap (λ s. not (in_phase s uds_idle)) idle) ∙ sent)) in
      let same : c₁ ≡ c' = ap (λ r. r.1) (some-injective _ _ (sym ran ∙ returned)) in
      let sending : c'.ext.uds.state ≡ sending_request =
        ap (λ x. x.ext.uds.state) (sym same) ∙ ap (λ w. w.state) kept in
      let connected' : c'.ext.uds.is_connected ≡ true =
        ap (λ x. x.ext.uds.is_connected) (sym same) ∙ (ap (λ w. w.is_connected) kept ∙ connected) in
      (
        sending,
        λ later with_response' some_later.
            request-in_progress later with_response' c' some_later connected' sending,
      )
