-- ===== src/Isotp/Start.antt =====
-- How a segmented message starts on the sender's side, in the classic build: `isotp_send`, the
-- first frame, and the flow control frame that answers it (src/isotp_out.c, `received_fc`).
use mathlib.Core.List.{append-nil}
use lwcan.Common.{
  ℕ, ◌+◌, ◌-◌, ◌^◌, ◌<◌, ◌≡◌, ap, ◌∙◌, false, true, Option, some, none, List, ◌∷◌, ◌++◌, arith,
  length, take, replicate, drop_all, take_all, ◌>>=◌, ltb, ◌==◌, if_true, if_false,
}
use lwcan.Can.{ok, Frame}
use lwcan.Timeouts.{out_flow_output, output_error_handler}
use lwcan.Buffer.{Buffer, buffer_new, with_bytes, copy_to}
use lwcan.Buffer.Laws.{piece, copy_to-ok}
use lwcan.Canif.{Canif, get_by_index}
use lwcan.Isotp.Types.{
  Options, Ctx, Platform, output, idle, tx_ff, tx_cf, wait_fc, in_state, set_flow, set_state,
  start_timeout, stop_timeout,
}
use lwcan.Isotp.Output.{
  isotp_send, send_buffer, sf_max, blank, transmit, output_in, isotp_out_flow_output, isotp_sent,
  sent_in, sent_ff,
}
use lwcan.Isotp.Input.{dispatch, received_fc, fc_accept, separation}
use lwcan.Isotp.First.{ff_payload, CanFillFirst, fill_ff_lem}
use lwcan.Isotp.Receive.{with_payload}
use lwcan.Isotp.Rounds.{Bus, fired, send_round, transmit_ok, blank-room}

-- A flow control frame
abbrev pub fc_payload : Options → ℕ → ℕ → ℕ → List ℕ
fc_payload o fs bs st = (0x30 + fs) ∷ bs ∷ st ∷ replicate 5 o.padding_byte

module _ {Ext : Type 0} (p : Platform Ext) (o : Options) where
  -- The connection once `isotp_send` has returned
  abbrev pub started : List ℕ → Buffer → Ext → Ctx Ext → Ctx Ext
  started bytes b e c = start_timeout p 0 out_flow_output (
      set_flow output
        (record (c.pcb.output_flow) {
          buffer = with_bytes b bytes ∷ c.pcb.output_flow.buffer;
          remaining_data = length bytes;
          state = tx_ff;
          cf_sn = 1;
          n_wft = o.n_wft;
        })
        (record c { ext = e }))

  pub copied :
      (bytes : List ℕ) (b : Buffer) (chain : List Buffer)
      → length b.payload.bytes ≡ length bytes
      → 0 < length bytes
      → copy_to (b ∷ chain) bytes 0 (length bytes) ≡ some (ok, with_bytes b bytes ∷ chain)
  copied bytes b chain room pos =
      copy_to-ok b chain bytes 0 (length bytes) pos (omega arith) (omega arith)
      ∙ ap (λ l. some (ok, with_bytes b l ∷ chain))
          (ap (λ l. take (length bytes) bytes ++ l)
              (drop_all (length bytes) b.payload.bytes (omega arith))
            ∙ (append-nil (take (length bytes) bytes)
                ∙ take_all (length bytes) bytes (omega arith)))

  send_buffer_lem :
      (bytes : List ℕ) (c : Ctx Ext) (b : Buffer) (e : Ext)
      → o.canfd ≡ false
      → length b.payload.bytes ≡ length bytes
      → 7 < length bytes
      → send_buffer p o bytes (length bytes) c (some b, e) ≡ some (ok, started bytes b e c)
  unfolding send_buffer
  send_buffer_lem bytes c b e classic room long =
      let longer : ltb (sf_max p o) (length bytes) ≡ true = rw classic (ground arith) in
      rw (copied bytes b c.pcb.output_flow.buffer room (omega arith), longer)

  -- In the classic build, where the output flow is idle and a buffer of the message's length can
  -- be allocated, isotp_send of more than seven bytes returns ok with the message copied to the
  -- buffer, the buffer in front of the chain, the flow set to send a first frame, and the output
  -- registered.
  pub isotp_send_lem :
      (bytes : List ℕ) (c : Ctx Ext) (b : Buffer) (e : Ext)
      → o.canfd ≡ false
      → c.pcb.output_flow.state ≡ idle
      → buffer_new p.alloc (length bytes) c.ext ≡ (some b, e)
      → length b.payload.bytes ≡ length bytes
      → 7 < length bytes
      → isotp_send p o (some bytes) (length bytes) c ≡ some (ok, started bytes b e c)
  unfolding isotp_send
  isotp_send_lem bytes c b e classic free new room long =
      if_false (length bytes == 0) _ _ (ground arith)
      ∙ (if_true _ _ _ (ap (λ s. in_state s idle) free)
          ∙ (ap (send_buffer p o bytes (length bytes) c) new
              ∙ send_buffer_lem bytes c b e classic room long))

  -- A flow control frame with status 0, where the sender waits for one, cancels the timeout, sets
  -- the block size and the separation time (1 where it is above 127), and registers the output of
  -- the consecutive frames.
  pub dispatch-fc_ready :
      (frame : Frame) (c : Ctx Ext) (bs st : ℕ)
      → c.pcb.output_flow.state ≡ wait_fc
      → dispatch p o (with_payload frame (fc_payload o 0 bs st)) c
        ≡ some (
            start_timeout p 0 out_flow_output (
              set_flow output
                (record (c.pcb.output_flow) {
                  fs = 0;
                  bs = bs;
                  st = separation p o st;
                  state = tx_cf;
                })
                (stop_timeout p output_error_handler c)))
  unfolding dispatch received_fc fc_accept
  dispatch-fc_ready frame c bs st w =
      if_true (in_state c.pcb.output_flow.state wait_fc) _ _ (ap (λ s. in_state s wait_fc) w)

module _ {Ext : Type 0} (p : Platform Ext) (o : Options) (log : Ext → List (List ℕ))
    (bus : Bus p log) where
  -- The connection behind its first frame
  abbrev pub behind_first : Ctx Ext → Canif → Buffer → Ctx Ext
  behind_first c canif b =
      let frame = record (blank p o c) {
        len = 8;
        payload = ff_payload c.pcb.output_flow.remaining_data (piece b 0 6);
      } in
      record (set_flow output
        (record (c.pcb.output_flow) { remaining_data = c.pcb.output_flow.remaining_data - 6 }) c) {
          ext = (p.send canif frame o.n_as output c.ext).1;
        }

  output_first :
      (c : Ctx Ext) (canif : Canif) (b : Buffer) (next : List Buffer)
      → o.canfd ≡ false
      → get_by_index c.pcb.if_index c.canifs ≡ some canif
      → c.pcb.output_flow.state ≡ tx_ff
      → CanFillFirst c.pcb.output_flow (blank p o c) b next
      → isotp_out_flow_output p o c ≡ some (behind_first c canif b)
  unfolding isotp_out_flow_output
  output_first c canif b next classic found w can =
      ap {B = Option (Ctx Ext)}
        (λ (m : Option Canif). elim m [
          | none ↦ some c
          | some canif ↦ output_in p o c.pcb.output_flow.state canif c
        ])
        found
      ∙ (ap (λ s. output_in p o s canif c) w
          ∙ (ap (λ m. m >>= transmit p o output canif o.n_as c)
                (fill_ff_lem o c.pcb.output_flow (blank p o c) b next classic can)
              ∙ transmit_ok p o log bus output c canif o.n_as
                  (record (blank p o c) {
                    len = 8;
                    payload = ff_payload c.pcb.output_flow.remaining_data (piece b 0 6);
                  })
                  (record (c.pcb.output_flow) {
                    remaining_data = c.pcb.output_flow.remaining_data - 6;
                  })))

  sent-tx_ff :
      (c : Ctx Ext)
      → c.pcb.output_flow.state ≡ tx_ff
      → isotp_sent p o output ok c
        ≡ some (start_timeout p o.n_bs output_error_handler (set_state output wait_fc c))
  unfolding isotp_sent sent_ff
  sent-tx_ff c w =
      ap (λ s. sent_in p o s c) w
      ∙ if_true (in_state c.pcb.output_flow.state tx_ff) _ _ (ap (λ s. in_state s tx_ff) w)

  -- The first frame goes out, and the sender waits for the flow control frame.
  pub send_round-first :
      (c : Ctx Ext) (canif : Canif) (b : Buffer) (next : List Buffer)
      → o.canfd ≡ false
      → get_by_index c.pcb.if_index c.canifs ≡ some canif
      → c.pcb.output_flow.state ≡ tx_ff
      → c.pcb.output_flow.buffer ≡ b ∷ next
      → c.pcb.output_flow.remaining_data ≡ length b.payload.bytes
      → 7 < c.pcb.output_flow.remaining_data
      → c.pcb.output_flow.remaining_data < 2 ^ 32
      → send_round p o c
        ≡ some (
            start_timeout p o.n_bs output_error_handler
              (set_state output wait_fc (behind_first (fired p o c) canif b)))
  unfolding send_round
  send_round-first c canif b next classic found w first whole long small =
      ap (λ m. m >>= isotp_sent p o output ok)
        (output_first (fired p o c) canif b next classic found w (record {
          first = first;
          whole = whole;
          small = small;
          long = long;
          room = blank-room p o log bus c;
        }))
      ∙ sent-tx_ff (behind_first (fired p o c) canif b) w
