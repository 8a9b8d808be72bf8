-- ===== src/Isotp/Safety/Together.antt =====
-- Several ISO-TP connections that share the timeouts, the heap and the driver: what is asked of
-- these, and that what happens to one connection leaves the others sound.
use lwcan.Common.{ℕ, suc, ◌≤◌, ◌≡◌, ◌≢◌, Option, some, List, arith, length, false, All, All-map}
use lwcan.Can.{LwcanErr, is_ok, Frame}
use lwcan.Canif.{Canif}
use lwcan.Timeouts.{Timers, Handler, timeout, untimeout, out_flow_output, output_error_handler}
use lwcan.Timeouts.Pending.{pending, pending-timeout_other, pending-untimeout_le, differ}
use lwcan.Buffer.Keeping.{HeapKeeps, GivesRoom}
use lwcan.Isotp.Types.{Pcb, Options, Direction, output, input, Ctx, Platform, max_dlen}
use lwcan.Isotp.Safety.{View, Outgoing, Incoming, IsSafe, Safe, Surroundings}
use lwcan.Isotp.Safety.Steps.{Outgoing-less}

differ_apart : (handler handler' : Handler) (a b : ℕ) → b ≢ a → differ handler b handler' a ≡ false
differ_apart handler handler' a b apart = ground arith

-- `p` is the platform as each connection sees it, and `u` counts the frames of its output flow that
-- its driver has taken and not reported.
module _ {Ext : Type 0} (p : ℕ → Platform Ext) (o : Options) (u : ℕ → Ext → ℕ) where
  abbrev pub Sound : Timers → Ext → Pcb → Type 0
  Sound t e q =
      (Outgoing o q.output_flow.state q.output_flow (u q.addr e)
        (pending out_flow_output q.addr t.queue) (pending output_error_handler q.addr t.queue))
      × (Incoming q.input_flow.state q.input_flow)

  -- What a connection at an address sees of the others
  abbrev pub view : ℕ → List Pcb → View Ext
  view a others = record {
    unreported = u a;
    home = a;
    World = λ t e. All (λ q. (Sound t e q) × (q.addr ≢ a)) others;
  }

  -- The heap gives blocks as large as it is asked for and leaves the drivers alone, a frame has the
  -- bytes of the build, a driver has at most one more frame of a connection to report for each that
  -- it takes from it, and none of another. A callback leaves its connection safe and the others
  -- sound; the error callback leaves the flows of its connection as they are.
  pub record Environment : Type 0 where
    pub heap : (a b : ℕ) → HeapKeeps (p a).alloc (u b)
    pub room : (a : ℕ) → GivesRoom (p a).alloc
    pub blank : (a : ℕ) (e : Ext) → max_dlen o ≤ length ((p a).uninit e).payload
    pub accepts :
        (a : ℕ) (canif : Canif) (f : Frame) (time_ms : ℕ) (e : Ext)
        → u a ((p a).send canif f time_ms output e).1 ≤ suc (u a e)
    pub refuses :
        (a : ℕ) (canif : Canif) (f : Frame) (time_ms : ℕ) (e : Ext)
        → is_ok ((p a).send canif f time_ms output e).0 ≡ false
        → u a ((p a).send canif f time_ms output e).1 ≤ u a e
    pub answers :
        (a : ℕ) (canif : Canif) (f : Frame) (time_ms : ℕ) (e : Ext)
        → u a ((p a).send canif f time_ms input e).1 ≤ u a e
    pub aside :
        (a b : ℕ) (canif : Canif) (f : Frame) (time_ms : ℕ) (d : Direction) (e : Ext)
        → b ≢ a
        → u b ((p a).send canif f time_ms d e).1 ≤ u b e
    pub receives :
        (a : ℕ) (others : List Pcb) (fn arg : ℕ) (buffer : Option ℕ) (c : Ctx Ext)
        → IsSafe (p a) o (view a others) c
        → Safe (p a) o (view a others) ((p a).receive_cb fn arg buffer c)
    pub begins :
        (a : ℕ) (others : List Pcb) (fn arg : ℕ) (c : Ctx Ext)
        → IsSafe (p a) o (view a others) c
        → Safe (p a) o (view a others) ((p a).receive_ff_cb fn arg c)
    pub finishes :
        (a : ℕ) (others : List Pcb) (fn arg size : ℕ) (c : Ctx Ext)
        → IsSafe (p a) o (view a others) c
        → Safe (p a) o (view a others) ((p a).sent_cb fn arg size c)
    pub fails :
        (a : ℕ) (others : List Pcb) (fn arg : ℕ) (error : LwcanErr) (c : Ctx Ext)
        → IsSafe (p a) o (view a others) c
        → (c' : Ctx Ext) × ((p a).error_cb fn arg error c ≡ some c')
          × IsSafe (p a) o (view a others) c'
          × (c'.pcb.output_flow ≡ c.pcb.output_flow)
          × (c'.pcb.input_flow ≡ c.pcb.input_flow)

  -- Others stay sound where no more of their frames and timeouts are there.
  pub still_sound :
      (a : ℕ) (others : List Pcb) (t t' : Timers) (e e' : Ext)
      → ((b : ℕ) → b ≢ a → u b e' ≤ u b e)
      → ((b : ℕ) → b ≢ a → pending out_flow_output b t'.queue ≤ pending out_flow_output b t.queue)
      → ((b : ℕ)
          → b ≢ a
          → pending output_error_handler b t'.queue ≤ pending output_error_handler b t.queue)
      → (view a others).World t e
      → (view a others).World t' e'
  still_sound a others t t' e e' fewer outs errs sound =
      All-map (λ q. (Sound t e q) × (q.addr ≢ a)) (λ q. (Sound t' e' q) × (q.addr ≢ a)) others
        (λ q held. (
          (
            Outgoing-less o q.output_flow.state q.output_flow _ _ _ _ _ _ (fewer q.addr held.1)
                (outs q.addr held.1) (errs q.addr held.1) held.0.0,
            held.0.1,
          ),
          held.1,
        ))
        sound

  pub surroundings :
      (a : ℕ) (others : List Pcb) → Environment → Surroundings (p a) o (view a others)
  surroundings a others env = record {
    keeps = env.heap a a;
    room = env.room a;
    blank = env.blank a;
    accepts = env.accepts a;
    refuses = env.refuses a;
    answers = env.answers a;
    starts = λ now time_ms handler t e.
        still_sound a others t (timeout (p a).layout now time_ms handler a t) e e
          (λ b ne. omega arith)
          (λ b ne.
            pending-timeout_other out_flow_output b (p a).layout now time_ms handler a t
              (differ_apart out_flow_output handler a b ne))
          (λ b ne.
            pending-timeout_other output_error_handler b (p a).layout now time_ms handler a t
              (differ_apart output_error_handler handler a b ne));
    stops = λ handler t e.
        still_sound a others t (untimeout (p a).layout handler a t) e e (λ b ne. omega arith)
          (λ b ne. pending-untimeout_le out_flow_output b (p a).layout handler a t)
          (λ b ne. pending-untimeout_le output_error_handler b (p a).layout handler a t);
    mallocs = λ n t e.
        still_sound a others t t e ((p a).alloc.malloc n e).1
          (λ b ne. omega (arith, (env.heap a b).malloc n e)) (λ b ne. omega arith)
          (λ b ne. omega arith);
    frees = λ addr t e.
        still_sound a others t t e ((p a).alloc.free addr e)
          (λ b ne. omega (arith, (env.heap a b).free addr e)) (λ b ne. omega arith)
          (λ b ne. omega arith);
    sends = λ canif f time_ms d t e.
        still_sound a others t t e ((p a).send canif f time_ms d e).1
          (λ b ne. env.aside a b canif f time_ms d e ne) (λ b ne. omega arith)
          (λ b ne. omega arith);
    receives = env.receives a others;
    begins = env.begins a others;
    finishes = env.finishes a others;
    fails = env.fails a others;
  }
