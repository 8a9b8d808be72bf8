-- ===== src/Isotp/Safety/Starting.antt =====
-- The start of a message (src/isotp_out.c) leaves a safe connection safe and does not fault.
use lwcan.Common.{
  none, ℕ, ◌≤◌, ◌<◌, ◌^◌, ◌≡◌, refl, sym, ap, inl, inr, some, List, [], ◌∷◌, arith, false, true,
  Bool-cases, ◌==◌, ltb, ltb→lt, length,
}
use lwcan.Can.{LwcanErr, arg, ok, memory, in_progress}
use lwcan.Timeouts.{out_flow_output}
use lwcan.Buffer.{Buffer, with_bytes}
use lwcan.Buffer.Keeping.{buffer_new-cases, buffer_new-length}
use lwcan.Buffer.Inside.{copy_to_inside}
use lwcan.Isotp.Types.{
  State, idle, tx_sf, tx_ff, tx_cf, tx_fc, wait_cf, wait_fc, Flow, Options, output, Ctx, Platform,
  set_flow, start_timeout, in_state,
}
use lwcan.Isotp.Output.{isotp_send, send_buffer, start_output, sf_max}
use lwcan.Isotp.Safety.{View, Rest, Holds, Outgoing, IsSafe, Surroundings, outputs, give_ups}
use lwcan.Isotp.Safety.Steps.{
  start-Rest, new-World, Outgoing-less, input-IsSafe, outputs-start, give_ups-start_other,
}

not_longer : (m n : ℕ) → ltb m n ≡ false → n ≤ m
not_longer m n e = ground arith

at_idle :
    (o : Options) (s : State) (flow : Flow) (u q e : ℕ)
    → in_state s idle ≡ true
    → Outgoing o s flow u q e
    → Outgoing o idle flow u q e
at_idle o idle flow u q e is sends = sends
at_idle o tx_sf flow u q e is sends = absurd (ground arith)
at_idle o tx_ff flow u q e is sends = absurd (ground arith)
at_idle o tx_cf flow u q e is sends = absurd (ground arith)
at_idle o tx_fc flow u q e is sends = absurd (ground arith)
at_idle o wait_cf flow u q e is sends = absurd (ground arith)
at_idle o wait_fc flow u q e is sends = absurd (ground arith)

module _ {Ext : Type 0} (p : Platform Ext) (o : Options) (v : View Ext)
    (h : Surroundings p o v) where
  start_output-Outgoing :
      (b : Buffer) (n q : ℕ) (flow : Flow)
      → n ≡ b.length
      → b.length ≤ length b.payload.bytes
      → n < 2 ^ 32
      → flow.buffer ≡ []
      → q ≤ 1
      → Outgoing o
          (start_output p o (b ∷ flow.buffer) n flow).state
          (start_output p o (b ∷ flow.buffer) n flow)
          0
          q
          0
  start_output-Outgoing b n q flow same whole small empty one =
      let held : Holds (b ∷ flow.buffer) n b [] = record {
        first = ap (λ l. b ∷ l) empty;
        left = omega (arith, same);
        whole = whole;
        small = omega (arith, same);
      } in
      elim (Bool-cases (ltb (sf_max p o) n)) [
        | inl long ↦ rw long ((b, held), omega (arith, one), omega arith, inr (ltb→lt _ _ long))
        | inr short ↦ rw short ((b, held), omega (arith, one), omega arith, not_longer _ _ short)
      ]

  send_buffer-IsSafe :
      (bytes : List ℕ) (n : ℕ) (c : Ctx Ext) (b : Buffer) (e : Ext)
      → n ≤ length bytes
      → n < 2 ^ 32
      → n ≡ b.length
      → n ≤ length b.payload.bytes
      → v.unreported e ≡ v.unreported c.ext
      → Outgoing o idle c.pcb.output_flow (v.unreported c.ext) (outputs p o v c) (give_ups p o v c)
      → Rest p o v c
      → v.World c.timers e
      → (error : LwcanErr) × (c' : Ctx Ext) × (send_buffer p o bytes n c (some b, e)
          ≡ some (error, c'))
        × IsSafe p o v c'
  unfolding send_buffer
  send_buffer-IsSafe bytes n c b e given small same room kept (empty, quiet, calm) incoming world =
      let (error, stored, copied, same_room) =
        copy_to_inside b c.pcb.output_flow.buffer bytes 0 n (omega (arith, given)) room in
      let flow =
        start_output p o (with_bytes b stored ∷ c.pcb.output_flow.buffer) n c.pcb.output_flow in
      let started = set_flow output flow (record c { ext = e }) in
      (
        ok,
        start_timeout p 0 out_flow_output started,
        rw (copied, send_buffer) refl,
        record {
          outgoing =
              Outgoing-less o flow.state flow 0 1 0 _ _ _ (omega (arith, kept, quiet))
                (omega (arith, quiet, outputs-start p o v 0 out_flow_output started))
                (omega (arith, calm, give_ups-start_other p o v 0 out_flow_output started refl))
                (start_output-Outgoing (with_bytes b stored) n 1 c.pcb.output_flow same
                  (omega (arith, same, same_room, room)) small empty (omega arith));
          rest = start-Rest p o v h 0 out_flow_output started (incoming.0, incoming.1, world);
        },
      )

  pub isotp_send-Safe :
      (bytes : List ℕ) (n : ℕ) (c : Ctx Ext)
      → n ≤ length bytes
      → n < 2 ^ 32
      → IsSafe p o v c
      → (error : LwcanErr) × (c' : Ctx Ext) × (isotp_send p o (some bytes) n c ≡ some (error, c'))
        × IsSafe p o v c'
  unfolding isotp_send
  isotp_send-Safe bytes n c given small safe = elim (Bool-cases (n == 0)) [
    | inl empty ↦ (arg, c, rw empty refl, safe)
    | inr some_bytes ↦ elim (Bool-cases (in_state c.pcb.output_flow.state idle)) [
      | inr busy ↦ (in_progress, c, rw (some_bytes, busy) refl, safe)
      | inl free ↦ elim (buffer_new-cases p.alloc v.unreported h.keeps h.room n c.ext) [
        | inl (e, m, kept) ↦ (
          memory,
          record c { ext = e },
          rw (some_bytes, free, m, send_buffer) refl,
          input-IsSafe p o v h c.pcb.input_flow e c (omega (arith, kept))
              (new-World p o v h n c none e m safe.rest.2) safe.rest.0 safe,
        )
        | inr (b, e, m, room, kept) ↦
            let (error, c', sent, safe') =
              send_buffer-IsSafe bytes n c b e given small
                (sym (buffer_new-length p.alloc n c.ext b e m)) room kept
                (at_idle o c.pcb.output_flow.state c.pcb.output_flow _ _ _ free safe.outgoing)
                safe.rest (new-World p o v h n c (some b) e m safe.rest.2) in
            (error, c', rw (some_bytes, free, m) sent, safe')
      ]
    ]
  ]
