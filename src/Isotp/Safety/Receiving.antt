-- ===== src/Isotp/Safety/Receiving.antt =====
-- The input flow (src/isotp_in.c) leaves a safe connection safe and does not fault, where a frame
-- carries what it announces.
use lwcan.Common.{
  ℕ, ◌+◌, ◌-◌, ◌≤◌, ◌<◌, ◌^◌, ◌≡◌, refl, ap, ◌∙◌, inl, inr, Option, none, some, ◌∷◌, arith, true,
  Bool-cases, ◌>>=◌, if_true, if_false, bit_and, length,
}
use lwcan.Can.{memory, Frame}
use lwcan.Timeouts.{in_flow_output}
use lwcan.Buffer.{Buffer, with_bytes}
use lwcan.Buffer.Keeping.{buffer_new-cases}
use lwcan.Isotp.Types.{
  State, idle, tx_sf, tx_ff, tx_cf, tx_fc, wait_cf, wait_fc, Flow, Options, input, Ctx, Platform,
  set_flow, start_timeout, in_state, head_addr,
}
use lwcan.Isotp.Frames.{byte, sf, ff, get_sf_dl, get_ff_dl}
use lwcan.Isotp.Frames.Stored.{sf_offset, ff_offset, store_sf_inside}
use lwcan.Isotp.Input.{isotp_received, deliver, sf_into, received_sf}
use lwcan.Isotp.Safety.{View, Incoming, IsSafe, Safe, Surroundings}
use lwcan.Isotp.Safety.Steps.{new-World, report-Safe, input-IsSafe, start-IsSafe, remove_input}

-- A frame has the bytes that its length says, and a single frame or a first frame no less than the
-- part of the message that it announces; a first frame announces what it carries, at least.
pub record Carries (o : Options) (frame : Frame) : Type 0 where
  pub some_bytes : 0 < frame.len
  pub short : frame.len < 256
  pub room : frame.len ≤ length frame.payload
  pub single :
      bit_and (byte frame.payload 0) 0xf0 ≡ sf
      → sf_offset o frame.payload + get_sf_dl o frame.payload ≤ frame.len
  pub starts : bit_and (byte frame.payload 0) 0xf0 ≡ ff → ff_offset o frame.payload ≤ frame.len
  pub announced :
      bit_and (byte frame.payload 0) 0xf0 ≡ ff
      → frame.len - ff_offset o frame.payload ≤ get_ff_dl o frame.payload
  pub small : bit_and (byte frame.payload 0) 0xf0 ≡ ff → get_ff_dl o frame.payload < 2 ^ 32

pub idle-Incoming : (s : State) (flow : Flow) → in_state s idle ≡ true → Incoming s flow
idle-Incoming idle flow is = tt
idle-Incoming tx_sf flow is = absurd (ground arith)
idle-Incoming tx_ff flow is = absurd (ground arith)
idle-Incoming tx_cf flow is = absurd (ground arith)
idle-Incoming tx_fc flow is = absurd (ground arith)
idle-Incoming wait_cf flow is = absurd (ground arith)
idle-Incoming wait_fc flow is = absurd (ground arith)

module _ {Ext : Type 0} (p : Platform Ext) (o : Options) (v : View Ext)
    (h : Surroundings p o v) where
  -- The input flow alone changes.
  pub flow-IsSafe :
      (flow : Flow) (c : Ctx Ext)
      → Incoming flow.state flow
      → IsSafe p o v c
      → IsSafe p o v (set_flow input flow c)
  flow-IsSafe flow c incoming safe =
      input-IsSafe p o v h flow c.ext c (omega arith) safe.rest.2 incoming safe

  pub removed-IsSafe :
      (buffer : Option ℕ) (c : Ctx Ext)
      → in_state c.pcb.input_flow.state idle ≡ true
      → IsSafe p o v c
      → IsSafe p o v (isotp_received p o buffer c).1
  unfolding isotp_received
  removed-IsSafe none c is safe = safe
  removed-IsSafe (some addr) c is safe =
      let (rest, e, removed, fewer, kept) = remove_input p o v h (some addr) c in
      let flow = record (c.pcb.input_flow) { buffer = rest } in
      rw removed (
        input-IsSafe p o v h flow e c fewer (kept safe.rest.2) (idle-Incoming flow.state flow is)
          safe)

  delivered-Safe :
      (fn : Option ℕ) (c : Ctx Ext)
      → in_state c.pcb.input_flow.state idle ≡ true
      → IsSafe p o v c
      → Safe p o v (elim fn [
        | none ↦ some (isotp_received p o (head_addr c.pcb.input_flow.buffer) c).1
        | some n ↦ p.receive_cb n c.pcb.callback_arg (head_addr c.pcb.input_flow.buffer) c
      ])
  delivered-Safe none c is safe =
      (_, refl, removed-IsSafe (head_addr c.pcb.input_flow.buffer) c is safe)
  delivered-Safe (some fn) c is safe =
      h.receives fn c.pcb.callback_arg (head_addr c.pcb.input_flow.buffer) c safe

  pub deliver-Safe :
      (c : Ctx Ext)
      → in_state c.pcb.input_flow.state idle ≡ true
      → IsSafe p o v c
      → Safe p o v (deliver p o c)
  unfolding deliver
  deliver-Safe c is safe = delivered-Safe c.pcb.receive c is safe

  sf_into-Safe :
      (frame : Frame) (n : ℕ) (c : Ctx Ext) (b : Buffer) (e : Ext)
      → Carries o frame
      → sf_offset o frame.payload + n ≤ frame.len
      → n ≤ length b.payload.bytes
      → v.unreported e ≡ v.unreported c.ext
      → v.World c.timers e
      → in_state c.pcb.input_flow.state idle ≡ true
      → IsSafe p o v c
      → Safe p o v (sf_into p o frame n c (some b, e))
  unfolding sf_into
  sf_into-Safe frame n c b e carries carried room kept world is safe =
      let flow = record (c.pcb.input_flow) {
        buffer = b ∷ c.pcb.input_flow.buffer;
        remaining_data = n;
      } in
      let (stored, copied, same) =
        store_sf_inside o flow b c.pcb.input_flow.buffer refl frame.payload frame.len carries.room
          carried room in
      let filled = record flow { buffer = with_bytes b stored ∷ c.pcb.input_flow.buffer } in
      let (c', e', safe') = deliver-Safe (set_flow input filled (record c { ext = e })) is (
        input-IsSafe p o v h filled e c (omega (arith, kept)) world
          (idle-Incoming filled.state filled is) safe) in
      (
        c',
        ap (λ m. m >>= λ r. deliver p o (set_flow input r (record c { ext = e }))) copied ∙ e',
        safe',
      )

  pub received_sf-Safe :
      (frame : Frame) (c : Ctx Ext)
      → Carries o frame
      → sf_offset o frame.payload + get_sf_dl o frame.payload ≤ frame.len
      → IsSafe p o v c
      → Safe p o v (received_sf p o frame c)
  unfolding received_sf sf_into
  received_sf-Safe frame c carries carried safe =
      let n = get_sf_dl o frame.payload in
      elim (Bool-cases (in_state c.pcb.input_flow.state idle)) [
        | inr busy ↦ (c, if_false _ _ _ busy, safe)
        | inl free ↦ elim (buffer_new-cases p.alloc v.unreported h.keeps h.room n c.ext) [
          | inl (e, m, kept) ↦
              let (c', r, safe') =
                report-Safe p o v h c.pcb.callback_arg memory (record c { ext = e })
                  (input-IsSafe p o v h c.pcb.input_flow e c (omega (arith, kept))
                    (new-World p o v h n c none e m safe.rest.2) safe.rest.0 safe) in
              (c', if_true _ _ _ free ∙ (ap (sf_into p o frame n c) m ∙ r), safe')
          | inr (b, e, m, room, kept) ↦
              let (c', r, safe') =
                sf_into-Safe frame n c b e carries carried room kept
                  (new-World p o v h n c (some b) e m safe.rest.2) free safe in
              (c', if_true _ _ _ free ∙ (ap (sf_into p o frame n c) m ∙ r), safe')
        ]
      ]

  -- A flow control frame is to be sent.
  pub answer-IsSafe :
      (flow : Flow) (c : Ctx Ext)
      → Incoming flow.state flow
      → IsSafe p o v c
      → IsSafe p o v (start_timeout p 0 in_flow_output (set_flow input flow c))
  answer-IsSafe flow c incoming safe =
      start-IsSafe p o v h 0 in_flow_output (set_flow input flow c) refl refl
        (flow-IsSafe flow c incoming safe)
