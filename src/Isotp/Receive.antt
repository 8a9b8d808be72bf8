-- ===== src/Isotp/Receive.antt =====
-- Receiving a segmented message in the classic build (src/isotp_in.c): what the handlers do with
-- the consecutive frames of a message, one after the other, up to the delivery.
use lwcan.Common.{
  ℕ, ◌+◌, ◌-◌, ◌≤◌, ◌<◌, ◌≡◌, ap, ◌∙◌, bit_and, some, List, ◌∷◌, arith, length, ◌>>=◌,
  if◌then◌else◌, ◌==◌, ◌||◌, ==_self, if_true, if_false,
}
use lwcan.Common.Bytes.{bit_and_low, bit_and_high}
use lwcan.Can.{Frame}
use lwcan.Timeouts.{input_error_handler}
use lwcan.Buffer.{Buffer, with_bytes}
use lwcan.Isotp.Types.{
  Options, Flow, Ctx, Platform, input, idle, wait_cf, next_sn, set_flow, start_timeout,
  stop_timeout, in_state, cf_sn_mask, cf_left_pos,
}
use lwcan.Isotp.Frames.{byte, store_cf_data}
use lwcan.Isotp.Input.{
  deliver, cf_stored, cf_accept, received_sf, received_ff, received_cf, received_fc, dispatch,
}
use lwcan.Isotp.Consecutive.{cf_payload}
use lwcan.Isotp.Storing.{CanStore, overwrite, store_cf_lem}

-- A frame of eight bytes
abbrev pub with_payload : Frame → List ℕ → Frame
with_payload frame bytes = record frame { len = 8; payload = bytes }

sn_of : (sn : ℕ) → sn < 16 → bit_and (0x20 + sn) cf_sn_mask ≡ sn
sn_of sn h = bit_and_low (0x20 + sn) (omega arith) ∙ omega arith

kind_of : (sn : ℕ) → sn < 16 → bit_and (0x20 + sn) 0xf0 ≡ 0x20
kind_of sn h = bit_and_high (0x20 + sn) (omega arith) ∙ omega arith

-- A connection in the middle of a message: `b` is its buffer.
pub record Receiving {Ext : Type 0} (c : Ctx Ext) (b : Buffer) (next : List Buffer) : Type 0 where
  pub waiting : c.pcb.input_flow.state ≡ wait_cf
  pub can_store : CanStore c.pcb.input_flow b next
  pub sn_small : c.pcb.input_flow.cf_sn < 16
  pub no_blocks : c.pcb.input_flow.bs ≡ 0

module _ {Ext : Type 0} (p : Platform Ext) (o : Options) where
  pub dispatch-received_cf :
      (frame : Frame) (c : Ctx Ext)
      → bit_and (byte frame.payload 0) 0xf0 ≡ 0x20
      → dispatch p o frame c ≡ received_cf p o frame c
  unfolding dispatch
  dispatch-received_cf frame c e =
      ap
        (λ (kind : ℕ).
          if kind == 0x00
          then received_sf p o frame c
          else if kind == 0x10
          then received_ff p o frame c
          else if kind == 0x20
          then received_cf p o frame c
          else if kind == 0x30
          then received_fc p o frame c
          else some c)
        e

  pub received_cf-cf_accept :
      (frame : Frame) (c : Ctx Ext)
      → c.pcb.input_flow.state ≡ wait_cf
      → received_cf p o frame c ≡ cf_accept p o frame (stop_timeout p input_error_handler c)
  unfolding received_cf
  received_cf-cf_accept frame c w = if_true _ _ _ (ap (λ s. in_state s wait_cf) w)

  cf_accept-cf_stored :
      (frame : Frame) (c : Ctx Ext)
      → bit_and (byte frame.payload 0) cf_sn_mask ≡ c.pcb.input_flow.cf_sn
      → cf_accept p o frame c ≡ (
          store_cf_data o c.pcb.input_flow frame.payload frame.len >>= λ flow. cf_stored p o flow c)
  unfolding cf_accept
  cf_accept-cf_stored frame c e =
      if_true _ _ _ (ap (λ s. c.pcb.input_flow.cf_sn == s) e ∙ ==_self c.pcb.input_flow.cf_sn)

  -- The frame of type CF with the expected serial number goes to `store_cf_data`.
  dispatch-cf :
      (frame : Frame) (c : Ctx Ext) (bytes : List ℕ)
      → c.pcb.input_flow.state ≡ wait_cf
      → c.pcb.input_flow.cf_sn < 16
      → dispatch p o (with_payload frame (cf_payload o c.pcb.input_flow.cf_sn bytes)) c ≡ (
          store_cf_data o c.pcb.input_flow (cf_payload o c.pcb.input_flow.cf_sn bytes) 8 >>= λ flow.
          cf_stored p o flow (stop_timeout p input_error_handler c))
  dispatch-cf frame c bytes w small =
      let sn = c.pcb.input_flow.cf_sn in
      let f = with_payload frame (cf_payload o sn bytes) in
      dispatch-received_cf f c (kind_of sn small)
      ∙ (received_cf-cf_accept f c w
          ∙ cf_accept-cf_stored f (stop_timeout p input_error_handler c) (sn_of sn small))

  cf_stored_more :
      (flow : Flow) (c : Ctx Ext)
      → 0 < flow.remaining_data
      → flow.bs ≡ 0
      → cf_stored p o flow c
        ≡ some (
            start_timeout p o.n_cr input_error_handler
              (set_flow input (record flow { cf_sn = next_sn flow.cf_sn; state = wait_cf }) c))
  unfolding cf_stored
  cf_stored_more flow c left e =
      if_false (flow.remaining_data == 0) _ _ (ground arith)
      ∙ if_true _ _ _ (ap (λ (n : ℕ). (n == 0) || cf_left_pos flow.bs flow.cf_sn) e)

  cf_stored_last :
      (flow : Flow) (c : Ctx Ext)
      → flow.remaining_data ≡ 0
      → cf_stored p o flow c ≡ deliver p o (set_flow input (record flow { state = idle }) c)
  unfolding cf_stored
  cf_stored_last flow c e = if_true _ _ _ (ap (λ (n : ℕ). n == 0) e)

  -- What the flow is behind a frame that carries `bytes`
  abbrev pub stored : Flow → Buffer → List Buffer → List ℕ → Flow
  stored flow b next bytes = record flow {
    buffer = with_bytes b (overwrite b.payload.bytes (b.length - flow.remaining_data) bytes) ∷ next;
    remaining_data = flow.remaining_data - length bytes;
  }

  -- In the classic build's frames, a consecutive frame that is expected and is not the last is
  -- stored behind what has been received; the serial number is advanced, the connection waits for
  -- the next, and the receive timeout is started anew.
  pub cf_more :
      (frame : Frame) (c : Ctx Ext) (b : Buffer) (next : List Buffer) (bytes : List ℕ)
      → Receiving c b next
      → length bytes ≡ 7
      → 7 < c.pcb.input_flow.remaining_data
      → dispatch p o (with_payload frame (cf_payload o c.pcb.input_flow.cf_sn bytes)) c
        ≡ some (
            start_timeout p o.n_cr input_error_handler (
              set_flow input
                (record (stored c.pcb.input_flow b next bytes) {
                  cf_sn = next_sn c.pcb.input_flow.cf_sn;
                  state = wait_cf;
                })
                (stop_timeout p input_error_handler c)))
  cf_more frame c b next bytes r seven more =
      dispatch-cf frame c bytes r.waiting r.sn_small
      ∙ (ap (λ m. m >>= λ flow. cf_stored p o flow (stop_timeout p input_error_handler c))
            (store_cf_lem o c.pcb.input_flow b next c.pcb.input_flow.cf_sn bytes r.can_store
              (ground arith))
          ∙ cf_stored_more (stored c.pcb.input_flow b next bytes)
              (stop_timeout p input_error_handler c) (omega (arith, seven)) r.no_blocks)

  -- A consecutive frame that is expected and carries all missing bytes completes the message: the
  -- receive timeout is cancelled, the flow is idle, and the message is delivered.
  pub cf_last :
      (frame : Frame) (c : Ctx Ext) (b : Buffer) (next : List Buffer) (bytes : List ℕ)
      → Receiving c b next
      → length bytes ≡ c.pcb.input_flow.remaining_data
      → length bytes ≤ 7
      → dispatch p o (with_payload frame (cf_payload o c.pcb.input_flow.cf_sn bytes)) c
        ≡ deliver p o (
            set_flow input
              (record (stored c.pcb.input_flow b next bytes) { state = idle })
              (stop_timeout p input_error_handler c))
  cf_last frame c b next bytes r all few =
      dispatch-cf frame c bytes r.waiting r.sn_small
      ∙ (ap (λ m. m >>= λ flow. cf_stored p o flow (stop_timeout p input_error_handler c))
            (store_cf_lem o c.pcb.input_flow b next c.pcb.input_flow.cf_sn bytes r.can_store
              (ground arith))
          ∙ cf_stored_last (stored c.pcb.input_flow b next bytes)
              (stop_timeout p input_error_handler c) (omega (arith, all)))
