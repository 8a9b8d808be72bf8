-- ===== src/Isotp/Message.antt =====
-- A whole segmented message in the classic build, as the receiver of src/isotp_in.c sees it.
use mathlib.Core.List.{append-nil, append_assoc}
use lwcan.Common.{
  ℕ, zero, suc, ◌+◌, ◌-◌, ◌≤◌, ◌<◌, ◌≡◌, refl, sym, ap, ◌∙◌, Option, some, inl, inr, List, [], ◌∷◌,
  ◌++◌, arith, length, take, drop, drop_all, take-append, take-append-drop, ◌>>=◌, if◌then◌else◌,
  leb, leb→le, if_true, if_false, >>=-some, Bool-cases, length-take, length-drop, length-append,
}
use lwcan.Can.{Frame}
use lwcan.Timeouts.{input_error_handler}
use lwcan.Buffer.{Buffer, with_bytes}
use lwcan.Isotp.Types.{
  Options, Ctx, Platform, idle, wait_cf, next_sn, input, start_timeout, stop_timeout, set_flow,
}
use lwcan.Isotp.Input.{deliver, dispatch}
use lwcan.Isotp.Consecutive.{cf_payload}
use lwcan.Isotp.Storing.{overwrite}
use lwcan.Isotp.Receive.{Receiving, stored, with_payload, cf_more, cf_last}

-- The consecutive frames of the bytes behind the first frame, from a serial number on; fuel for
-- as many frames as there are bytes is enough.
pub payloads : Options → ℕ → ℕ → List ℕ → List (List ℕ)
payloads o zero sn rest = []
payloads o (suc k) sn rest =
    let more = payloads o k (next_sn sn) (drop 7 rest) in
    if leb (length rest) 7 then cf_payload o sn rest ∷ [] else cf_payload o sn (take 7 rest) ∷ more

pub payloads_last :
    (o : Options) (k sn : ℕ) (rest : List ℕ)
    → length rest ≤ 7
    → payloads o (suc k) sn rest ≡ cf_payload o sn rest ∷ []
unfolding payloads
payloads_last o k sn rest h = if_true (leb (length rest) 7) _ _ (ground arith)

pub payloads_more :
    (o : Options) (k sn : ℕ) (rest : List ℕ)
    → 7 < length rest
    → payloads o (suc k) sn rest
      ≡ cf_payload o sn (take 7 rest) ∷ payloads o k (next_sn sn) (drop 7 rest)
unfolding payloads
payloads_more o k sn rest h = if_false (leb (length rest) 7) _ _ (ground arith)

-- A block written over behind its first part
overwrite-take :
    (old : List ℕ) (offset : ℕ) (bytes : List ℕ) (n : ℕ)
    → offset ≤ length old
    → n ≡ offset + length bytes
    → take n (overwrite old offset bytes) ≡ take offset old ++ bytes
overwrite-take old offset bytes n h e =
    ap (take n) (sym (append_assoc (take offset old) bytes (drop (offset + length bytes) old)))
    ∙ take-append n (take offset old ++ bytes) (drop (offset + length bytes) old)
        (omega (arith, length-append (take offset old) bytes, length-take offset old))

length-overwrite :
    (old : List ℕ) (offset : ℕ) (bytes : List ℕ)
    → offset + length bytes ≤ length old
    → length (overwrite old offset bytes) ≡ length old
length-overwrite old offset bytes h = omega (
  arith,
  length-append (take offset old) (bytes ++ drop (offset + length bytes) old),
  length-append bytes (drop (offset + length bytes) old),
  length-take offset old,
  length-drop (offset + length bytes) old,
)

overwrite_end :
    (old : List ℕ) (offset : ℕ) (bytes : List ℕ)
    → offset + length bytes ≡ length old
    → overwrite old offset bytes ≡ take offset old ++ bytes
overwrite_end old offset bytes h =
    let end : drop (offset + length bytes) old ≡ [] =
      drop_all (offset + length bytes) old (omega (arith, h)) in
    rw (end, append-nil)

pub next_sn-small : (sn : ℕ) → next_sn sn < 16
next_sn-small sn = ground arith

-- The bytes of a message in parts: what has been received, the next frame's, and the rest.
regroup :
    (old rest : List ℕ) (n : ℕ)
    → n + length rest ≡ length old
    → 7 < length rest
    → take (n + 7) (overwrite old n (take 7 rest)) ++ drop 7 rest ≡ take n old ++ rest
regroup old rest n e h =
    ap (λ l. l ++ drop 7 rest)
      (overwrite-take old n (take 7 rest) (n + 7) (omega (arith, e))
        (omega (arith, length-take 7 rest)))
    ∙ (append_assoc (take n old) (take 7 rest) (drop 7 rest)
        ∙ ap (λ l. take n old ++ l) (take-append-drop 7 rest))

module _ {Ext : Type 0} (p : Platform Ext) (o : Options) (frame : Frame) where
  -- The frames reach `dispatch` one after the other.
  pub feed : List (List ℕ) → Ctx Ext → Option (Ctx Ext)
  feed [] c = some c
  feed (bytes ∷ more) c = dispatch p o (with_payload frame bytes) c >>= feed more

  -- What is delivered: the message, in front of what the application still holds.
  pub record Complete (c d : Ctx Ext) (b : Buffer) (next : List Buffer) (bytes : List ℕ)
      : Type 0 where
    pub message : d.pcb.input_flow.buffer ≡ with_bytes b bytes ∷ next
    pub state : d.pcb.input_flow.state ≡ idle
    pub callback : d.pcb.receive ≡ c.pcb.receive
    pub callback_arg : d.pcb.callback_arg ≡ c.pcb.callback_arg
    pub output_flow : d.pcb.output_flow ≡ c.pcb.output_flow
    pub ext : d.ext ≡ c.ext

  feed_one :
      (bytes : List ℕ) (c : Ctx Ext)
      → feed (bytes ∷ []) c ≡ dispatch p o (with_payload frame bytes) c
  unfolding feed
  feed_one bytes c = >>=-some (dispatch p o (with_payload frame bytes) c)

  -- The state behind a frame that is not the last one
  abbrev advanced : Ctx Ext → Buffer → List Buffer → List ℕ → Ctx Ext
  advanced c b next bytes = start_timeout p o.n_cr input_error_handler (
      set_flow input
        (record (stored p o c.pcb.input_flow b next bytes) {
          cf_sn = next_sn c.pcb.input_flow.cf_sn;
          state = wait_cf;
        })
        (stop_timeout p input_error_handler c))

  advanced-Receiving :
      (c : Ctx Ext) (b : Buffer) (next : List Buffer) (bytes : List ℕ)
      → Receiving c b next
      → length bytes ≡ 7
      → 7 < c.pcb.input_flow.remaining_data
      → Receiving
          (advanced c b next bytes)
          (with_bytes b
            (overwrite b.payload.bytes (b.length - c.pcb.input_flow.remaining_data) bytes))
          next
  advanced-Receiving c b next bytes r seven more = record {
    waiting = refl;
    can_store = record {
      first = refl;
      whole =
          r.can_store.whole
          ∙ sym (
              length-overwrite b.payload.bytes (b.length - c.pcb.input_flow.remaining_data) bytes
                (omega (arith, seven, r.can_store.whole, r.can_store.within)));
      small = r.can_store.small;
      some_left = omega (arith, seven);
      within = omega (arith, r.can_store.within);
    };
    sn_small = next_sn-small c.pcb.input_flow.cf_sn;
    no_blocks = r.no_blocks;
  }

  -- In the classic build, where a connection waits for consecutive frames of a message with no
  -- block size set, the frames of the missing bytes, given to the dispatcher one after the other,
  -- all are accepted and end in the delivery of a buffer that holds what had been received before
  -- followed by these bytes; the input flow is idle then, and the output flow is as it was.
  pub feed-payloads :
      (k : ℕ) (rest : List ℕ) (c : Ctx Ext) (b : Buffer) (next : List Buffer)
      → Receiving c b next
      → length rest ≡ c.pcb.input_flow.remaining_data
      → length rest ≤ k
      → (d : Ctx Ext) × (feed (payloads o k c.pcb.input_flow.cf_sn rest) c ≡ deliver p o d)
        × Complete c d b next (take (b.length - length rest) b.payload.bytes ++ rest)
  unfolding payloads feed
  feed-payloads zero rest c b next r e h = absurd (omega (arith, r.can_store.some_left))
  feed-payloads (suc k) rest c b next r e h = elim (Bool-cases (leb (length rest) 7)) [
    | inl last ↦
        let few : length rest ≤ 7 = leb→le _ _ last in
        let d =
          set_flow input (record (stored p o c.pcb.input_flow b next rest) { state = idle })
            (stop_timeout p input_error_handler c) in
        (
          d,
          rw last (
              feed_one (cf_payload o c.pcb.input_flow.cf_sn rest) c
              ∙ cf_last p o frame c b next rest r e few),
          record {
            message =
                ap (λ l. with_bytes b l ∷ next)
                  (overwrite_end b.payload.bytes (b.length - c.pcb.input_flow.remaining_data) rest
                      (omega (arith, e, r.can_store.whole, r.can_store.within))
                    ∙ ap (λ (n : ℕ). take (b.length - n) b.payload.bytes ++ rest) (sym e));
            state = refl;
            callback = refl;
            callback_arg = refl;
            output_flow = refl;
            ext = refl;
          },
        )
    | inr more ↦
        let many : 7 < length rest = ground arith in
        let m : ℕ = b.length - c.pcb.input_flow.remaining_data in
        let later : b.length - length (drop 7 rest) ≡ m + 7 =
          omega (arith, e, length-drop 7 rest, r.can_store.within) in
        let seven : length (take 7 rest) ≡ 7 = omega (arith, length-take 7 rest) in
        let fewer : length (drop 7 rest) ≡ c.pcb.input_flow.remaining_data - length (take 7 rest) =
          omega (arith, e, length-drop 7 rest, seven) in
        let (d, run, done) =
          feed-payloads k (drop 7 rest) (advanced c b next (take 7 rest))
            (with_bytes b (
              overwrite b.payload.bytes (b.length - c.pcb.input_flow.remaining_data) (take 7 rest)))
            next (advanced-Receiving c b next (take 7 rest) r seven (omega (arith, e))) fewer
            (omega (arith, length-drop 7 rest)) in
        (
          d,
          rw more (
              ap (λ m. m >>= feed (payloads o k (next_sn c.pcb.input_flow.cf_sn) (drop 7 rest)))
                (cf_more p o frame c b next (take 7 rest) r seven (omega (arith, e)))
              ∙ run),
          record {
            message =
                done.message
                ∙ ap (λ l. with_bytes b l ∷ next)
                    (ap (λ n. take n (overwrite b.payload.bytes m (take 7 rest)) ++ drop 7 rest)
                        later
                      ∙ (regroup b.payload.bytes rest m
                            (omega (arith, e, r.can_store.whole, r.can_store.within)) many
                          ∙ ap (λ (n : ℕ). take (b.length - n) b.payload.bytes ++ rest) (sym e)));
            state = done.state;
            callback = done.callback;
            callback_arg = done.callback_arg;
            output_flow = done.output_flow;
            ext = done.ext;
          },
        )
  ]
