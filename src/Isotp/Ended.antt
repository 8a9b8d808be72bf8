-- ===== src/Isotp/Ended.antt =====
-- How a message ends that `isotp_send` has accepted and that does not go through, in the classic
-- build: the driver refuses its first frame, or nobody answers it (src/isotp.c, src/isotp_out.c).
use lwcan.Common.{
  ℕ, ◌-◌, ◌^◌, ◌≤◌, ◌<◌, ◌≡◌, refl, sym, ap, ◌∙◌, false, Option, some, none, inl, inr, List, arith,
  length, take, ◌>>=◌, leb, leb→le, if◌then◌else◌, if_true, if_false, Bool-cases,
}
use lwcan.Can.{ok, is_ok, Frame}
use lwcan.Timeouts.{out_flow_output}
use lwcan.Buffer.{Buffer, buffer_new, buffer_delete, with_bytes}
use lwcan.Buffer.Laws.{piece}
use lwcan.Canif.{Canif, get_by_index}
use lwcan.Timeouts
use lwcan.Isotp.Types
use lwcan.Isotp.Types.{Options, Flow, Ctx, Platform, State, output, idle, tx_sf, tx_ff, report}
use lwcan.Isotp.Output.{isotp_send, blank, transmit, output_in, isotp_out_flow_output}
use lwcan.Isotp.First.{ff_payload, fill_ff_lem}
use lwcan.Isotp.Rounds.{fired}
use lwcan.Isotp.Start.{started, isotp_send_lem}
use lwcan.Isotp.Single.{sf_payload, fill_sf_lem}
use lwcan.Isotp.Single.Message.{queued, isotp_send-queued}
use lwcan.Isotp.Errors.{transmit_refused}

-- Behind the end of a message: its buffer is freed, as `ext` shows, and the flow is idle with the
-- buffers that it had before.
pub record IsOver {Ext : Type 0} (before : Ctx Ext) (ext : Ext) (after : Ctx Ext) : Type 0 where
  pub state : after.pcb.output_flow.state ≡ idle
  pub buffer : after.pcb.output_flow.buffer ≡ before.pcb.output_flow.buffer
  pub input_flow : after.pcb.input_flow ≡ before.pcb.input_flow
  pub freed : after.ext ≡ ext

module _ {Ext : Type 0} (p : Platform Ext) (o : Options) where
  -- The driver refuses whatever frame it is given first.
  pub record Refuses (canif : Canif) (e : Ext) : Type 0 where
    pub refuses : (f : Frame) → is_ok (p.send canif f o.n_as output e).0 ≡ false
    pub room : length (p.uninit e).payload ≡ 8

  blank-eight :
      (c : Ctx Ext)
      → o.canfd ≡ false
      → length (p.uninit c.ext).payload ≡ 8
      → length (blank p o c).payload ≡ 8
  blank-eight c classic room = rw classic room

  output_by :
      (c : Ctx Ext) (canif : Canif)
      → get_by_index c.pcb.if_index c.canifs ≡ some canif
      → isotp_out_flow_output p o c ≡ output_in p o c.pcb.output_flow.state canif c
  unfolding isotp_out_flow_output
  output_by c canif found =
      ap {B = Option (Ctx Ext)}
        (λ (m : Option Canif). elim m [
          | none ↦ some c
          | some canif ↦ output_in p o c.pcb.output_flow.state canif c
        ])
        found

  -- The bytes of the first frame of a message
  abbrev pub first_payload : List ℕ → List ℕ
  first_payload bytes =
      if leb (length bytes) 7 then sf_payload o bytes else ff_payload (length bytes) (take 6 bytes)

  -- What a message has come to, of which `f` was the first frame, and whose buffer was `b`
  pub record TurnedDown (bytes : List ℕ) (c : Ctx Ext) (b : Buffer) (e : Ext) (canif : Canif)
      : Type 0 where
    pub c₁ : Ctx Ext
    pub f : Frame
    pub d : Ctx Ext
    pub accepted : isotp_send p o (some bytes) (length bytes) c ≡ some (ok, c₁)
    pub reported :
        isotp_out_flow_output p o (fired p o c₁)
        ≡ report p c.pcb.callback_arg (p.send canif f o.n_as output e).0 d
    pub addressed : f.can_id ≡ c.pcb.tx_id
    pub carries : f.payload ≡ first_payload bytes
    pub over :
        IsOver c (buffer_delete p.alloc (with_bytes b bytes) (p.send canif f o.n_as output e).1) d

  first_payload_long :
      (bytes : List ℕ)
      → 7 < length bytes
      → ff_payload (length bytes) (take 6 bytes) ≡ first_payload bytes
  first_payload_long bytes long = sym (if_false (leb (length bytes) 7) _ _ (ground arith))

  first_payload_short :
      (bytes : List ℕ) → length bytes ≤ 7 → sf_payload o bytes ≡ first_payload bytes
  first_payload_short bytes short = sym (if_true (leb (length bytes) 7) _ _ (ground arith))

  addressed_to : (c : Ctx Ext) → o.canfd ≡ false → (blank p o c).can_id ≡ c.pcb.tx_id
  addressed_to c classic = rw classic refl

  refused_long :
      (bytes : List ℕ) (c : Ctx Ext) (b : Buffer) (e : Ext) (canif : Canif)
      → o.canfd ≡ false
      → c.pcb.output_flow.state ≡ idle
      → buffer_new p.alloc (length bytes) c.ext ≡ (some b, e)
      → length b.payload.bytes ≡ length bytes
      → 7 < length bytes
      → length bytes < 2 ^ 32
      → get_by_index c.pcb.if_index c.canifs ≡ some canif
      → Refuses canif e
      → TurnedDown bytes c b e canif
  unfolding output_in
  refused_long bytes c b e canif classic free new room long small found r =
      let c₁ = started p o bytes b e c in
      let from = fired p o c₁ in
      let f = record (blank p o from) {
        len = 8;
        payload = ff_payload (length bytes) (piece (with_bytes b bytes) 0 6);
      } in
      let flow = record (from.pcb.output_flow) { remaining_data = length bytes - 6 } in
      record {
        c₁ = c₁;
        f = f;
        d = _;
        accepted = isotp_send_lem p o bytes c b e classic free new room long;
        reported =
            output_by from canif found
            ∙ (ap (λ m. m >>= transmit p o output canif o.n_as from)
                  (fill_ff_lem o from.pcb.output_flow (blank p o from) (with_bytes b bytes)
                    c.pcb.output_flow.buffer classic
                    (record {
                      first = refl;
                      whole = refl;
                      small = small;
                      long = long;
                      room = blank-eight from classic r.room;
                    }))
                ∙ transmit_refused p o output from canif o.n_as f flow (with_bytes b bytes)
                    c.pcb.output_flow.buffer refl (r.refuses f));
        addressed = addressed_to from classic;
        carries = first_payload_long bytes long;
        over = record { state = refl; buffer = refl; input_flow = refl; freed = refl };
      }

  refused_short :
      (bytes : List ℕ) (c : Ctx Ext) (b : Buffer) (e : Ext) (canif : Canif)
      → o.canfd ≡ false
      → c.pcb.output_flow.state ≡ idle
      → buffer_new p.alloc (length bytes) c.ext ≡ (some b, e)
      → length b.payload.bytes ≡ length bytes
      → 0 < length bytes
      → length bytes ≤ 7
      → get_by_index c.pcb.if_index c.canifs ≡ some canif
      → Refuses canif e
      → TurnedDown bytes c b e canif
  unfolding output_in
  refused_short bytes c b e canif classic free new room pos short found r =
      let c₁ = queued p o bytes b e c in
      let from = fired p o c₁ in
      let f = record (blank p o from) { len = 8; payload = sf_payload o bytes } in
      let flow = record (from.pcb.output_flow) { remaining_data = 0 } in
      record {
        c₁ = c₁;
        f = f;
        d = _;
        accepted = isotp_send-queued p o bytes c b e classic free new room pos short;
        reported =
            output_by from canif found
            ∙ (ap (λ m. m >>= transmit p o output canif o.n_as from)
                  (fill_sf_lem o from.pcb.output_flow (blank p o from) (with_bytes b bytes)
                    c.pcb.output_flow.buffer classic
                    (record {
                      first = refl;
                      whole = refl;
                      some_data = pos;
                      short = short;
                      room = blank-eight from classic r.room;
                    }))
                ∙ transmit_refused p o output from canif o.n_as f flow (with_bytes b bytes)
                    c.pcb.output_flow.buffer refl (r.refuses f));
        addressed = addressed_to from classic;
        carries = first_payload_short bytes short;
        over = record { state = refl; buffer = refl; input_flow = refl; freed = refl };
      }

  -- In the classic build, where the output flow is idle, a message of 1 to 2 ^ 32 - 1 bytes can be
  -- allocated, the interface exists, its driver refuses every frame that it is given first, and a
  -- frame to be filled has eight bytes: isotp_send accepts the message, and the timeout that
  -- outputs its first frame, a single frame for up to 7 bytes, hands that to the driver with the
  -- connection's identifier and reports the driver's error with the application's argument, where
  -- the message's buffer is freed, the output flow is idle with the buffers that it had before,
  -- and the input flow is as it was.
  pub send-refused :
      (bytes : List ℕ) (c : Ctx Ext) (b : Buffer) (e : Ext) (canif : Canif)
      → o.canfd ≡ false
      → c.pcb.output_flow.state ≡ idle
      → buffer_new p.alloc (length bytes) c.ext ≡ (some b, e)
      → length b.payload.bytes ≡ length bytes
      → 0 < length bytes
      → length bytes < 2 ^ 32
      → get_by_index c.pcb.if_index c.canifs ≡ some canif
      → Refuses canif e
      → TurnedDown bytes c b e canif
  send-refused bytes c b e canif classic free new room pos small found r =
      elim (Bool-cases (leb (length bytes) 7)) [
        | inl few ↦
            refused_short bytes c b e canif classic free new room pos (leb→le _ _ few) found r
        | inr many ↦
            refused_long bytes c b e canif classic free new room (ground arith) small found r
      ]
