-- ===== src/Isotp/Send.antt =====
-- Sending a segmented message in the classic build (src/isotp_out.c): what the handlers put on the
-- bus when the driver accepts each frame and reports it sent.
use mathlib.Core.List.{append_assoc}
use lwcan.Common.{
  ℕ, zero, suc, ◌-◌, ◌^◌, ◌≤◌, ◌<◌, ◌≡◌, refl, ap, ◌∙◌, false, Option, some, none, inl, inr, List,
  [], ◌∷◌, ◌++◌, true, arith, length, take, drop, ◌>>=◌, leb, ◌==◌, ◌||◌, Bool-cases, leb→le,
  length-drop, drop-drop, take_all, >>=-some, if_true, if_false,
}
use lwcan.Can.{ok, Frame}
use lwcan.Timeouts.{out_flow_output}
use lwcan.Buffer.{Buffer}
use lwcan.Buffer.Laws.{piece}
use lwcan.Canif.{Canif, get_by_index}
use lwcan.Isotp.Types.{
  Options, Flow, Ctx, Platform, output, idle, tx_cf, next_sn, set_state, remove_first, set_flow,
  start_timeout, cf_left_pos,
}
use lwcan.Isotp.Frames.{fill_cf}
use lwcan.Isotp.Output.{
  blank, transmit, output_in, isotp_out_flow_output, isotp_sent, sent_in, sent_cf, finish_output,
  call_sent,
}
use lwcan.Isotp.Errors.{dropped, remove_first-dropped}
use lwcan.Isotp.Consecutive.{carried, cf_payload, filled, fill_cf_lem}
use lwcan.Isotp.Message.{payloads, payloads_last, payloads_more, next_sn-small}
use lwcan.Isotp.Rounds.{Bus, fired, send_round, send_rounds, transmit_ok, blank-room}

-- A connection in the middle of sending the message in `b`, where no serial number ends a block
pub record Sending {Ext : Type 0} (c : Ctx Ext) (b : Buffer) (next : List Buffer) : Type 0 where
  pub state : c.pcb.output_flow.state ≡ tx_cf
  pub first : c.pcb.output_flow.buffer ≡ b ∷ next
  pub whole : b.length ≡ length b.payload.bytes
  pub small : b.length < 2 ^ 32
  pub some_left : 0 < c.pcb.output_flow.remaining_data
  pub within : c.pcb.output_flow.remaining_data ≤ b.length
  pub sn_small : c.pcb.output_flow.cf_sn < 16
  pub unlimited :
      (sn : ℕ)
      → sn < 16
      → ((c.pcb.output_flow.bs == 0) || cf_left_pos c.pcb.output_flow.bs sn) ≡ true

module _ {Ext : Type 0} (p : Platform Ext) (o : Options) where
  -- The connection when its message is sent: the flow is idle, and the message is freed.
  abbrev pub finished : Buffer → List Buffer → Ctx Ext → Ctx Ext
  finished b next d = set_state output idle (dropped p o output b next d)

  pub finish_output-call_sent :
      (d : Ctx Ext) (b : Buffer) (next : List Buffer)
      → d.pcb.output_flow.buffer ≡ b ∷ next
      → finish_output p o d ≡ call_sent p o b.length (finished b next d)
  finish_output-call_sent d b next e =
      ap {B = Option (Ctx Ext)}
        (λ (l : List Buffer). elim l [
          | [] ↦ none
          | x ∷ rest ↦ call_sent p o x.length (set_state output idle (remove_first p output d))
        ])
        e
      ∙ ap (λ (r : Ctx Ext). call_sent p o b.length (set_state output idle r))
          (remove_first-dropped p o output d b next e)

module _ {Ext : Type 0} (p : Platform Ext) (o : Options) (classic : o.canfd ≡ false)
    (log : Ext → List (List ℕ)) (bus : Bus p log) where
  output-tx_cf :
      (c : Ctx Ext) (canif : Canif)
      → get_by_index c.pcb.if_index c.canifs ≡ some canif
      → c.pcb.output_flow.state ≡ tx_cf
      → isotp_out_flow_output p o c
        ≡ (fill_cf o c.pcb.output_flow (blank p o c) >>= transmit p o output canif o.n_cs c)
  unfolding isotp_out_flow_output
  output-tx_cf c canif found w =
      ap {B = Option (Ctx Ext)}
        (λ (m : Option Canif). elim m [
          | none ↦ some c
          | some canif ↦ output_in p o c.pcb.output_flow.state canif c
        ])
        found
      ∙ ap (λ s. output_in p o s canif c) w

  sent-tx_cf :
      (c : Ctx Ext) → c.pcb.output_flow.state ≡ tx_cf → isotp_sent p o output ok c ≡ sent_cf p o c
  unfolding isotp_sent
  sent-tx_cf c w = ap (λ s. sent_in p o s c) w

  sent_cf_more :
      (c : Ctx Ext)
      → 0 < c.pcb.output_flow.remaining_data
      → ((c.pcb.output_flow.bs == 0) || cf_left_pos c.pcb.output_flow.bs c.pcb.output_flow.cf_sn)
        ≡ true
      → sent_cf p o c
        ≡ some (
            start_timeout p c.pcb.output_flow.st out_flow_output (
              set_flow output
                (record (c.pcb.output_flow) {
                  cf_sn = next_sn c.pcb.output_flow.cf_sn;
                  state = tx_cf;
                })
                c))
  unfolding sent_cf
  sent_cf_more c left e =
      if_false (c.pcb.output_flow.remaining_data == 0) _ _ (ground arith) ∙ if_true _ _ _ e

  sent_cf_last :
      (c : Ctx Ext) → c.pcb.output_flow.remaining_data ≡ 0 → sent_cf p o c ≡ finish_output p o c
  unfolding sent_cf
  sent_cf_last c e = if_true _ _ _ (ap (λ (n : ℕ). n == 0) e)

  -- The frame that goes out, and the state behind it
  abbrev out_frame : Ctx Ext → Buffer → Frame × Flow
  out_frame c b = filled o c.pcb.output_flow (blank p o c) b

  abbrev behind : Ctx Ext → Canif → Buffer → Ctx Ext
  behind c canif b = record (set_flow output (out_frame c b).1 c) {
    ext = (p.send canif (out_frame c b).0 o.n_cs output c.ext).1;
  }

  output_round :
      (c : Ctx Ext) (canif : Canif) (b : Buffer) (next : List Buffer)
      → get_by_index c.pcb.if_index c.canifs ≡ some canif
      → Sending c b next
      → isotp_out_flow_output p o c ≡ some (behind c canif b)
  output_round c canif b next found s =
      output-tx_cf c canif found s.state
      ∙ (ap (λ m. m >>= transmit p o output canif o.n_cs c)
            (fill_cf_lem o c.pcb.output_flow (blank p o c) b next classic (record {
              first = s.first;
              whole = s.whole;
              small = s.small;
              some_left = s.some_left;
              within = s.within;
              sn_small = s.sn_small;
              room = blank-room p o log bus c;
            }))
          ∙ transmit_ok p o log bus output c canif o.n_cs (out_frame c b).0 (out_frame c b).1)

  send_round-sent_cf :
      (c : Ctx Ext) (canif : Canif) (b : Buffer) (next : List Buffer)
      → get_by_index c.pcb.if_index c.canifs ≡ some canif
      → Sending c b next
      → send_round p o c ≡ sent_cf p o (behind (fired p o c) canif b)
  unfolding send_round
  send_round-sent_cf c canif b next found s =
      ap (λ m. m >>= isotp_sent p o output ok)
        (output_round (fired p o c) canif b next found (record {
          state = s.state;
          first = s.first;
          whole = s.whole;
          small = s.small;
          some_left = s.some_left;
          within = s.within;
          sn_small = s.sn_small;
          unlimited = s.unlimited;
        }))
      ∙ sent-tx_cf (behind (fired p o c) canif b) s.state

  -- What is sent when the last frame is out: the message is still in its buffer.
  pub record Out (c d : Ctx Ext) (b : Buffer) (next : List Buffer) (bytes : List (List ℕ))
      : Type 0 where
    pub done : d.pcb.output_flow.remaining_data ≡ 0
    pub message : d.pcb.output_flow.buffer ≡ b ∷ next
    pub input_flow : d.pcb.input_flow ≡ c.pcb.input_flow
    pub callback : d.pcb.sent ≡ c.pcb.sent
    pub callback_arg : d.pcb.callback_arg ≡ c.pcb.callback_arg
    pub bus_log : log d.ext ≡ log c.ext ++ bytes

  -- The state for the next frame
  abbrev advanced : Ctx Ext → Canif → Buffer → Ctx Ext
  advanced c canif b = start_timeout p c.pcb.output_flow.st out_flow_output (
      set_flow output
        (record ((behind (fired p o c) canif b).pcb.output_flow) {
          cf_sn = next_sn c.pcb.output_flow.cf_sn;
          state = tx_cf;
        })
        (behind (fired p o c) canif b))

  carried_seven : (r : ℕ) → 7 ≤ r → carried r ≡ 7
  carried_seven r h = ground arith

  carried_all : (r : ℕ) → r ≤ 7 → carried r ≡ r
  carried_all r h = ground arith

  advanced-Sending :
      (c : Ctx Ext) (canif : Canif) (b : Buffer) (next : List Buffer)
      → Sending c b next
      → 7 < c.pcb.output_flow.remaining_data
      → Sending (advanced c canif b) b next
  advanced-Sending c canif b next s more =
      let seven = carried_seven c.pcb.output_flow.remaining_data (omega arith) in
      record {
        state = refl;
        first = s.first;
        whole = s.whole;
        small = s.small;
        some_left = omega (arith, seven);
        within = omega (arith, s.within);
        sn_small = next_sn-small c.pcb.output_flow.cf_sn;
        unlimited = s.unlimited;
      }

  -- In the classic build, where a connection is sending consecutive frames and none ends a block,
  -- its interface exists, and the driver accepts each frame and reports it sent, as many rounds of
  -- output and report as the missing bytes need frames put exactly these frames on the bus, in
  -- order, and go on to finish the message with nothing left to send and the message still in its
  -- buffer.
  pub send-payloads :
      (k : ℕ) (rest : List ℕ) (c : Ctx Ext) (canif : Canif) (b : Buffer) (next : List Buffer)
      → get_by_index c.pcb.if_index c.canifs ≡ some canif
      → Sending c b next
      → rest ≡ drop (b.length - c.pcb.output_flow.remaining_data) b.payload.bytes
      → c.pcb.output_flow.remaining_data ≤ k
      → (d : Ctx Ext) × (send_rounds p o (length (payloads o k c.pcb.output_flow.cf_sn rest)) c
          ≡ finish_output p o d)
        × Out c d b next (payloads o k c.pcb.output_flow.cf_sn rest)
  unfolding send_rounds
  send-payloads zero rest c canif b next found s e h = absurd (omega (arith, s.some_left))
  send-payloads (suc k) rest c canif b next found s e h = elim (Bool-cases (leb (length rest) 7)) [
    | inl last ↦
        let few : length rest ≤ 7 = leb→le _ _ last in
        let all = carried_all c.pcb.output_flow.remaining_data (omega (arith, size, few)) in
        let same : piece b (b.length - c.pcb.output_flow.remaining_data)
              (carried c.pcb.output_flow.remaining_data)
            ≡ rest =
          rw (← e) (take_all _ rest (omega (arith, size, all))) in
        rw (payloads_last o k c.pcb.output_flow.cf_sn rest few) (
          behind (fired p o c) canif b,
          >>=-some (send_round p o c)
              ∙ (send_round-sent_cf c canif b next found s
                  ∙ sent_cf_last (behind (fired p o c) canif b) (omega (arith, all))),
          record {
            done = omega (arith, all);
            message = s.first;
            input_flow = refl;
            callback = refl;
            callback_arg = refl;
            bus_log =
                bus.logs canif (out_frame c b).0 o.n_cs output c.ext
                ∙ ap (λ l. log c.ext ++ (cf_payload o c.pcb.output_flow.cf_sn l ∷ [])) same;
          },
        )
    | inr more ↦
        let many : 7 < length rest = ground arith in
        let seven = carried_seven c.pcb.output_flow.remaining_data (omega (arith, size, many)) in
        let same : piece b (b.length - c.pcb.output_flow.remaining_data)
              (carried c.pcb.output_flow.remaining_data)
            ≡ take 7 rest =
          rw (← e) (ap (λ n. take n rest) seven) in
        let next_rest : drop 7 rest
            ≡ drop (b.length - (advanced c canif b).pcb.output_flow.remaining_data)
                b.payload.bytes =
          ap (drop 7) e
          ∙ drop-drop 7 (b.length - c.pcb.output_flow.remaining_data) _ b.payload.bytes
              (omega (arith, seven, s.within, size, many)) in
        let (d, run, out) =
          send-payloads k (drop 7 rest) (advanced c canif b) canif b next found
            (advanced-Sending c canif b next s (omega (arith, size, many))) next_rest
            (omega (arith, seven, size, many)) in
        rw (payloads_more o k c.pcb.output_flow.cf_sn rest many) (
          d,
          ap
                (λ m.
                  m
                  >>= send_rounds p o
                      (length (payloads o k (next_sn c.pcb.output_flow.cf_sn) (drop 7 rest))))
                (send_round-sent_cf c canif b next found s
                  ∙ sent_cf_more (behind (fired p o c) canif b) (omega (arith, seven, size, many))
                      (s.unlimited c.pcb.output_flow.cf_sn s.sn_small))
              ∙ run,
          record {
            done = out.done;
            message = out.message;
            input_flow = out.input_flow;
            callback = out.callback;
            callback_arg = out.callback_arg;
            bus_log =
                out.bus_log
                ∙ (ap (λ l. l ++ payloads o k (next_sn c.pcb.output_flow.cf_sn) (drop 7 rest))
                      (bus.logs canif (out_frame c b).0 o.n_cs output c.ext
                        ∙ ap (λ l. log c.ext ++ (cf_payload o c.pcb.output_flow.cf_sn l ∷ [])) same)
                    ∙ append_assoc (log c.ext)
                        (cf_payload o c.pcb.output_flow.cf_sn (take 7 rest) ∷ [])
                        (payloads o k (next_sn c.pcb.output_flow.cf_sn) (drop 7 rest)));
          },
        )
  ]
    where
      size : length rest ≡ c.pcb.output_flow.remaining_data
      size = omega (
        arith,
        ap length e,
        length-drop (b.length - c.pcb.output_flow.remaining_data) b.payload.bytes,
        s.whole,
        s.within,
      )
