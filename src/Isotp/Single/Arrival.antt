-- ===== src/Isotp/Single/Arrival.antt =====
-- A single frame of the classic build at the receiver: `received_sf` of src/isotp_in.c.
use mathlib.Core.List.{append-nil}
use lwcan.Common.{
  ℕ, ◌-◌, ◌≤◌, ◌<◌, ◌≡◌, refl, ap, ◌∙◌, false, bit_and, some, List, ◌∷◌, arith, length, replicate,
  drop_all, ◌>>=◌, if◌then◌else◌, ◌==◌, if_true, length-append, length-replicate, take-append,
}
use lwcan.Common.Bytes.{bit_and_low, bit_and_high}
use lwcan.Can.{Frame}
use lwcan.Buffer.{Buffer, buffer_new, with_bytes}
use lwcan.Buffer.Laws.{copy_to-ok}
use lwcan.Isotp.Types.{Options, Flow, Ctx, Platform, input, idle, in_state, set_flow}
use lwcan.Isotp.Frames.{byte, get_sf_dl, store_sf_data}
use lwcan.Isotp.Input.{
  dispatch, received_sf, received_ff, received_cf, received_fc, sf_into, deliver,
}
use lwcan.Isotp.Receive.{with_payload}
use lwcan.Isotp.Single.{sf_payload}

module _ {Ext : Type 0} (p : Platform Ext) (o : Options) where
  -- The connection that delivers
  abbrev pub arrived : List ℕ → Buffer → Ext → Ctx Ext → Ctx Ext
  arrived bytes b e c =
      set_flow input
        (record (c.pcb.input_flow) {
          buffer = with_bytes b bytes ∷ c.pcb.input_flow.buffer;
          remaining_data = length bytes;
        })
        (record c { ext = e })

  pub dispatch-received_sf :
      (frame : Frame) (c : Ctx Ext)
      → bit_and (byte frame.payload 0) 0xf0 ≡ 0x00
      → dispatch p o frame c ≡ received_sf p o frame c
  unfolding dispatch
  dispatch-received_sf frame c e =
      ap
        (λ (kind : ℕ).
          if kind == 0x00
          then received_sf p o frame c
          else if kind == 0x10
          then received_ff p o frame c
          else if kind == 0x20
          then received_cf p o frame c
          else if kind == 0x30
          then received_fc p o frame c
          else some c)
        e

  pub received_sf-sf_into :
      (frame : Frame) (c : Ctx Ext) (n : ℕ)
      → c.pcb.input_flow.state ≡ idle
      → get_sf_dl o frame.payload ≡ n
      → received_sf p o frame c ≡ sf_into p o frame n c (buffer_new p.alloc n c.ext)
  unfolding received_sf
  received_sf-sf_into frame c n free e =
      if_true _ _ _ (ap (λ s. in_state s idle) free)
      ∙ ap (λ m. sf_into p o frame m c (buffer_new p.alloc m c.ext)) e

  get_sf_dl_lem :
      (bytes : List ℕ)
      → o.canfd ≡ false
      → length bytes ≤ 7
      → get_sf_dl o (sf_payload o bytes) ≡ length bytes
  unfolding get_sf_dl
  get_sf_dl_lem bytes classic short =
      rw (classic, bit_and_low (length bytes) (omega arith)) (omega arith)

  store_sf_lem :
      (flow : Flow) (bytes : List ℕ) (b : Buffer) (next : List Buffer)
      → o.canfd ≡ false
      → flow.buffer ≡ b ∷ next
      → flow.remaining_data ≡ length bytes
      → length b.payload.bytes ≡ length bytes
      → 0 < length bytes
      → length bytes ≤ 7
      → store_sf_data o flow (sf_payload o bytes) 8
        ≡ some (record flow { buffer = with_bytes b bytes ∷ next })
  unfolding store_sf_data
  store_sf_lem flow bytes b next classic eb er room pos short = rw (
    classic,
    eb,
    er,
    copy_to-ok b next (sf_payload o bytes) 1 (length bytes) pos
        (omega (
          arith,
          length-append bytes (replicate (7 - length bytes) o.padding_byte),
          length-replicate (7 - length bytes) o.padding_byte,
        ))
        (omega (arith, room)),
    take-append (length bytes) bytes (replicate (7 - length bytes) o.padding_byte) refl,
    drop_all (length bytes) b.payload.bytes (omega (arith, room)),
    append-nil,
  )

  sf_into-deliver :
      (frame : Frame) (c : Ctx Ext) (bytes : List ℕ) (b : Buffer) (e : Ext)
      → o.canfd ≡ false
      → length b.payload.bytes ≡ length bytes
      → 0 < length bytes
      → length bytes ≤ 7
      → sf_into p o (with_payload frame (sf_payload o bytes)) (length bytes) c (some b, e)
        ≡ deliver p o (arrived bytes b e c)
  unfolding sf_into
  sf_into-deliver frame c bytes b e classic room pos short =
      ap (λ m. m >>= λ stored. deliver p o (set_flow input stored (record c { ext = e })))
        (store_sf_lem
          (record (c.pcb.input_flow) {
            buffer = b ∷ c.pcb.input_flow.buffer;
            remaining_data = length bytes;
          })
          bytes b c.pcb.input_flow.buffer classic refl refl room pos short)

  -- The frame makes an idle receiver deliver the bytes.
  pub dispatch-sf :
      (frame : Frame) (c : Ctx Ext) (bytes : List ℕ) (b : Buffer) (e : Ext)
      → o.canfd ≡ false
      → c.pcb.input_flow.state ≡ idle
      → buffer_new p.alloc (length bytes) c.ext ≡ (some b, e)
      → length b.payload.bytes ≡ length bytes
      → 0 < length bytes
      → length bytes ≤ 7
      → dispatch p o (with_payload frame (sf_payload o bytes)) c ≡ deliver p o (arrived bytes b e c)
  dispatch-sf frame c bytes b e classic free new room pos short =
      let f = with_payload frame (sf_payload o bytes) in
      dispatch-received_sf f c (bit_and_high (length bytes) (omega arith) ∙ omega arith)
      ∙ (received_sf-sf_into f c (length bytes) free (get_sf_dl_lem bytes classic short)
          ∙ (ap (sf_into p o f (length bytes) c) new
              ∙ sf_into-deliver frame c bytes b e classic room pos short))
