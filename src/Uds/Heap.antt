-- ===== src/Uds/Heap.antt =====
-- src/apps/uds/uds_client.c: what the calls of the ISO-TP layer leave of the client.
use lwcan.Common.{
  ℕ, ◌≡◌, ◌<◌, ◌≤◌, take, drop, refl, Option, none, some, List, ◌∷◌, arith, inl, inr, length,
  Bool-cases, Option-cases, ◌==◌, ◌++◌,
}
use lwcan.Can.{LwcanErr, ok, arg, memory, in_progress}
use lwcan.Timeouts.{out_flow_output, p2_timer_handler, p2_star_timer_handler}
use lwcan.Timeouts.Pending.{pending-timeout_other}
use lwcan.Buffer.{Buffer, copy_to, with_bytes}
use lwcan.Buffer.Laws.{copy_to-ok}
use lwcan.Buffer.Keeping.{HeapKeeps, GivesRoom, buffer_new-cases, buffer_delete-keeps}
use lwcan.Isotp.Types.{
  Ctx, Platform, Options, idle, in_state, unlink_buffer, remove_buffer, set_flow, output,
  start_timeout,
}
use lwcan.Isotp.Output.{isotp_send, send_buffer, start_output}
use lwcan.Isotp.Input.{isotp_received}
use lwcan.Uds.{UdsPhase, UdsState, World}
use lwcan.Uds.Calm.{Fits, Same}
use lwcan.Uds.Requests.{send_to, uds_isotp_send}

abbrev pub uds_in : {E : Type 0} → World E → UdsState
uds_in w = w.uds

-- The heap does not touch the client's state, and gives as much as it is asked for.
pub record Heap {E : Type 0} (p : Platform (World E)) : Type 0 where
  pub keeps : HeapKeeps p.alloc uds_in
  pub room : GivesRoom p.alloc

module _ {E : Type 0} (p : Platform (World E)) (o : Options) (h : Heap p) where
  pub isotp_received-Same :
      (buffer : Option ℕ) (c : Ctx (World E)) → Same c (isotp_received p o buffer c).1
  unfolding isotp_received remove_buffer
  isotp_received-Same none c = (refl, refl)
  isotp_received-Same (some addr) c =
      elim (Option-cases (unlink_buffer addr c.pcb.input_flow.buffer)) [
        | inl e ↦ rw (e, remove_buffer) (refl, refl)
        | inr (r, e) ↦
            rw (e, remove_buffer)
              (refl, buffer_delete-keeps p.alloc uds_in h.keeps h.room r.0 c.ext)
      ]

  -- The timeout of the output flow is none of the client's.
  start_timeout-Fits :
      (s : UdsPhase) (time : ℕ) (c : Ctx (World E))
      → Fits s c.timers
      → Fits s (start_timeout p time out_flow_output c).timers
  start_timeout-Fits s time c f = (
    omega (
      arith,
      f.0,
      pending-timeout_other p2_timer_handler 0 p.layout (p.system_now c.ext) time out_flow_output
          c.pcb.addr c.timers refl,
    ),
    omega (
      arith,
      f.1,
      pending-timeout_other p2_star_timer_handler 0 p.layout (p.system_now c.ext) time
          out_flow_output c.pcb.addr c.timers refl,
    ),
  )

  -- What a call returns, where the client's state is as it was and its timers fit as before
  abbrev pub Returns : Option (LwcanErr × Ctx (World E)) → Ctx (World E) → Type 0
  Returns called c =
      (error : LwcanErr) × (c' : Ctx (World E)) × (called ≡ some (error, c'))
      × (c'.ext.uds ≡ c.ext.uds)
      × ((s : UdsPhase) → Fits s c.timers → Fits s c'.timers)

  send_buffer-Returns :
      (bytes : List ℕ) (c : Ctx (World E)) (b : Buffer) (e : World E)
      → 0 < length bytes
      → length bytes ≤ length b.payload.bytes
      → e.uds ≡ c.ext.uds
      → (c' : Ctx (World E)) × (send_buffer p o bytes (length bytes) c (some b, e) ≡ some (ok, c'))
        × (c'.ext.uds ≡ c.ext.uds)
        × ((s : UdsPhase) → Fits s c.timers → Fits s c'.timers)
  unfolding send_buffer
  send_buffer-Returns bytes c b e pos room kept =
      let copied =
        copy_to-ok b c.pcb.output_flow.buffer bytes 0 (length bytes) pos (omega arith)
          (omega (arith, room)) in
      let started =
        set_flow output
          (start_output p o
            (with_bytes b
                (take (length bytes) (drop 0 bytes) ++ drop (length bytes) b.payload.bytes)
              ∷ c.pcb.output_flow.buffer)
            (length bytes) c.pcb.output_flow)
          (record c { ext = e }) in
      (
        start_timeout p 0 out_flow_output started,
        rw (copied, send_buffer) refl,
        kept,
        λ s f. start_timeout-Fits s 0 started f,
      )

  isotp_send-Returns :
      (bytes : List ℕ) (c : Ctx (World E))
      → Returns (isotp_send p o (some bytes) (length bytes) c) c
  unfolding isotp_send send_buffer copy_to
  isotp_send-Returns bytes c = elim (Bool-cases (length bytes == 0)) [
    | inl empty ↦ (arg, c, rw empty refl, refl, λ s f. f)
    | inr some_bytes ↦ elim (Bool-cases (in_state c.pcb.output_flow.state idle)) [
      | inr busy ↦ (in_progress, c, rw (some_bytes, busy) refl, refl, λ s f. f)
      | inl free ↦ elim (buffer_new-cases p.alloc uds_in h.keeps h.room (length bytes) c.ext) [
        | inl (e, m, kept) ↦ (
          memory,
          record c { ext = e },
          rw (some_bytes, free, m, send_buffer) refl,
          kept,
          λ s f. f,
        )
        | inr (b, e, m, room, kept) ↦
            let (c', sent, kept', fits) =
              send_buffer-Returns bytes c b e (ground arith) room kept in
            (ok, c', rw (some_bytes, free, m) sent, kept', fits)
      ]
    ]
  ]

  send_to-Returns :
      (pcb : Option ℕ) (bytes : List ℕ) (c : Ctx (World E)) → Returns (send_to p o pcb bytes c) c
  send_to-Returns none bytes c = (arg, c, refl, refl, λ s f. f)
  send_to-Returns (some pcb) bytes c = isotp_send-Returns bytes c

  pub uds_isotp_send-Returns :
      (bytes : List ℕ) (c : Ctx (World E)) → Returns (uds_isotp_send p o bytes c) c
  uds_isotp_send-Returns bytes c = send_to-Returns c.ext.uds.isotp_pcb bytes c
