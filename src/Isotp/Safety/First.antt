-- ===== src/Isotp/Safety/First.antt =====
-- A first frame (src/isotp_in.c) leaves a safe connection safe and does not fault, where it carries
-- what it announces.
use lwcan.Common.{
  ℕ, ◌-◌, ◌≤◌, ◌<◌, ◌^◌, ◌≡◌, refl, ap, ◌∙◌, inl, inr, Option, none, some, ◌∷◌, arith, true,
  Bool-cases, ◌>>=◌, if_true, if_false, length,
}
use lwcan.Can.{memory, Frame}
use lwcan.Buffer.{Buffer, with_bytes}
use lwcan.Buffer.Keeping.{buffer_new-cases, buffer_new-length}
use lwcan.Isotp.Types.{
  idle, tx_fc, Flow, Options, input, Ctx, Platform, set_flow, in_state, fs_ready, fs_overflow,
}
use lwcan.Isotp.Frames.{get_ff_dl, store_ff_data}
use lwcan.Isotp.Frames.Stored.{ff_offset, store_ff_inside}
use lwcan.Isotp.Input.{ff_into, received_ff, answer_ff}
use lwcan.Isotp.Safety.{View, HoldsFirst, IsSafe, Safe, Surroundings}
use lwcan.Isotp.Safety.Steps.{new-World, report-Keeps, input-IsSafe, optional-Safe}
use lwcan.Isotp.Safety.Receiving.{Carries, idle-Incoming, answer-IsSafe}

module _ {Ext : Type 0} (p : Platform Ext) (o : Options) (v : View Ext)
    (h : Surroundings p o v) where
  ff_refused-Safe :
      (frame : Frame) (n : ℕ) (c : Ctx Ext) (e : Ext)
      → v.unreported e ≡ v.unreported c.ext
      → v.World c.timers e
      → in_state c.pcb.input_flow.state idle ≡ true
      → IsSafe p o v c
      → Safe p o v (ff_into p o frame n c (none, e))
  unfolding ff_into
  ff_refused-Safe frame n c e kept world is safe =
      let flow = record (c.pcb.input_flow) { fs = fs_overflow } in
      let refused = set_flow input flow (record c { ext = e }) in
      let (c', r, safe', same_out, same_in) =
        report-Keeps p o v h c.pcb.error c.pcb.callback_arg memory refused (
          input-IsSafe p o v h flow e c (omega (arith, kept)) world
            (idle-Incoming flow.state flow is) safe) in
      let overflow : c'.pcb.input_flow.fs ≡ fs_overflow = ap (λ (f : Flow). f.fs) same_in in
      (
        answer_ff p o c',
        ap {B = Option (Ctx Ext)} (λ m. m >>= λ reported. some (answer_ff p o reported)) r,
        answer-IsSafe p o v h
            (record (c'.pcb.input_flow) { bs = o.receive_bs; st = o.receive_st; state = tx_fc }) c'
            (inl (λ ready. absurd (omega (arith, ready, overflow)))) safe',
      )

  ff_accepted-Safe :
      (frame : Frame) (n : ℕ) (c : Ctx Ext) (b : Buffer) (e : Ext)
      → Carries o frame
      → ff_offset o frame.payload ≤ frame.len
      → frame.len - ff_offset o frame.payload ≤ n
      → n < 2 ^ 32
      → n ≤ length b.payload.bytes
      → b.length ≡ n
      → v.unreported e ≡ v.unreported c.ext
      → v.World c.timers e
      → IsSafe p o v c
      → Safe p o v (ff_into p o frame n c (some b, e))
  unfolding ff_into
  ff_accepted-Safe frame n c b e carries starts announced small room same kept world safe =
      let allocated = record c { ext = e } in
      let safe_allocated =
        input-IsSafe p o v h c.pcb.input_flow e c (omega (arith, kept)) world safe.rest.0 safe in
      let (c', r, safe') =
        optional-Safe p o v c.pcb.receive_ff (λ fn. p.receive_ff_cb fn c.pcb.callback_arg allocated)
          allocated safe_allocated
          (λ fn. h.begins fn c.pcb.callback_arg allocated safe_allocated) in
      let flow = record (c'.pcb.input_flow) {
        buffer = b ∷ c'.pcb.input_flow.buffer;
        remaining_data = n;
      } in
      let (bytes, rest, copied, same_room, less) =
        store_ff_inside o flow b c'.pcb.input_flow.buffer refl frame.payload frame.len carries.room
          starts (omega (arith, carries.short)) announced small room in
      let stored = record flow {
        buffer = with_bytes b bytes ∷ c'.pcb.input_flow.buffer;
        remaining_data = rest;
      } in
      let ready = record stored { cf_sn = 1; fs = fs_ready } in
      let held : HoldsFirst ready = (
        with_bytes b bytes,
        c'.pcb.input_flow.buffer,
        record {
          first = refl;
          left = omega (arith, same, less);
          whole = omega (arith, same, same_room, room);
          small = omega (arith, same, small);
        },
      ) in
      (
        answer_ff p o (set_flow input ready c'),
        ap {B = Option (Ctx Ext)}
              (λ m. m >>= λ r.
                store_ff_data o
                  (record (r.pcb.input_flow) {
                    buffer = b ∷ r.pcb.input_flow.buffer;
                    remaining_data = n;
                  })
                  frame.payload frame.len
                >>= λ kept.
                    some
                      (answer_ff p o (set_flow input (record kept { cf_sn = 1; fs = fs_ready }) r)))
              r
            ∙ ap {B = Option (Ctx Ext)}
                (λ m. m >>= λ kept.
                  some
                    (answer_ff p o (set_flow input (record kept { cf_sn = 1; fs = fs_ready }) c')))
                copied,
        answer-IsSafe p o v h (record ready { bs = o.receive_bs; st = o.receive_st; state = tx_fc })
            c' (inr held) safe',
      )

  pub received_ff-Safe :
      (frame : Frame) (c : Ctx Ext)
      → Carries o frame
      → ff_offset o frame.payload ≤ frame.len
      → frame.len - ff_offset o frame.payload ≤ get_ff_dl o frame.payload
      → get_ff_dl o frame.payload < 2 ^ 32
      → IsSafe p o v c
      → Safe p o v (received_ff p o frame c)
  unfolding received_ff
  received_ff-Safe frame c carries starts announced small safe =
      let n = get_ff_dl o frame.payload in
      elim (Bool-cases (in_state c.pcb.input_flow.state idle)) [
        | inr busy ↦ (c, if_false _ _ _ busy, safe)
        | inl free ↦ elim (buffer_new-cases p.alloc v.unreported h.keeps h.room n c.ext) [
          | inl (e, m, kept) ↦
              let (c', r, safe') =
                ff_refused-Safe frame n c e kept (new-World p o v h n c none e m safe.rest.2) free
                  safe in
              (c', if_true _ _ _ free ∙ (ap (ff_into p o frame n c) m ∙ r), safe')
          | inr (b, e, m, room, kept) ↦
              let (c', r, safe') =
                ff_accepted-Safe frame n c b e carries starts announced small room
                  (buffer_new-length p.alloc n c.ext b e m) kept
                  (new-World p o v h n c (some b) e m safe.rest.2) safe in
              (c', if_true _ _ _ free ∙ (ap (ff_into p o frame n c) m ∙ r), safe')
        ]
      ]
