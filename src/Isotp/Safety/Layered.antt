-- ===== src/Isotp/Safety/Layered.antt =====
-- All that can happen to the ISO-TP connections of a node, in any order, where they share the
-- timeouts, the heap and the driver (src/isotp.c, src/isotp_in.c, src/isotp_out.c).
use lwcan.Common.{
  ℕ, suc, ◌+◌, ◌≤◌, ◌<◌, ◌≡◌, ◌≢◌, refl, sym, ap, ◌∙◌, Option, some, List, [], ◌∷◌, ◌++◌, ◌>>=◌,
  arith, All, All-map, All-map₂, All-remove, All-insert,
}
use lwcan.Timeouts.{out_flow_output, output_error_handler}
use lwcan.Timeouts.Pending.{pending}
use lwcan.Pool.Owners.{Apart, Apart-remove}
use lwcan.Isotp.Types.{idle, Pcb, Options, Ctx, Platform}
use lwcan.Isotp.Layer.{Layer, focused, put_back}
use lwcan.Isotp.Safety.{IsSafe}
use lwcan.Isotp.Safety.Steps.{Outgoing-less}
use lwcan.Isotp.Safety.Events.{
  Event, send, give_back, frame, reported, answer_reported, output_due, answer_due, give_up_due,
  silence_due, on_event, Allowed, on_event-Safe,
}
use lwcan.Isotp.Safety.Together.{Sound, view, Environment, still_sound, surroundings}

abbrev addr_of : Pcb → ℕ
addr_of q = q.addr

Apart-insert :
    (pre : List Pcb) (y : Pcb) (post : List Pcb)
    → All (λ q. q.addr ≢ y.addr) (pre ++ post)
    → Apart addr_of (pre ++ post)
    → Apart addr_of (pre ++ (y ∷ post))
Apart-insert [] y post alone apart = (alone, apart)
Apart-insert (q ∷ pre) y post alone apart = (
  All-insert (λ r. r.addr ≢ q.addr) pre y post (λ e. alone.0 (sym e)) apart.0,
  Apart-insert pre y post alone.1 apart.1,
)

module _ {Ext : Type 0} (p : ℕ → Platform Ext) (o : Options) (u : ℕ → Ext → ℕ) where
  -- The timeouts of a connection that output a frame, and those that give up
  abbrev pub outputs_of : Pcb → Layer Ext → ℕ
  outputs_of x s = pending out_flow_output x.addr s.timers.queue

  abbrev pub give_ups_of : Pcb → Layer Ext → ℕ
  give_ups_of x s = pending output_error_handler x.addr s.timers.queue

  -- A connection with nothing to do
  abbrev pub IsQuiet : Layer Ext → Pcb → Type 0
  IsQuiet s q =
      (q.output_flow.state ≡ idle)
      × (q.output_flow.buffer ≡ [])
      × (q.input_flow.state ≡ idle)
      × (u q.addr s.ext + outputs_of q s ≤ 0)
      × (give_ups_of q s ≤ 0)

  -- Connections at addresses of their own, with nothing to do
  pub record Fresh (s : Layer Ext) : Type 0 where
    pub quiet : All (IsQuiet s) s.connections.list
    pub apart : Apart addr_of s.connections.list

  -- Connections at addresses of their own, whose flows and timeouts fit their states
  pub record AllSafe (s : Layer Ext) : Type 0 where
    pub each : All (Sound p o u s.timers s.ext) s.connections.list
    pub apart : Apart addr_of s.connections.list

  -- An event of the connection `x` of a layer, the others being `pre` and `post`
  unfoldable pub happen : Event Ext → List Pcb → Pcb → List Pcb → Layer Ext → Option (Layer Ext)
  happen event pre x post s =
      on_event (p x.addr) o event (focused x s) >>= λ c. some (put_back pre post s c)

  -- As for a connection by itself. A report is of a frame of the connection, and adds no frame to
  -- what another one has to be told.
  abbrev pub Permitted : Event Ext → Pcb → Layer Ext → Type 0
  Permitted (reported error e) x s =
      (suc (u x.addr e) ≤ u x.addr s.ext) × ((b : ℕ) → u b e ≤ u b s.ext)
  Permitted (send bytes n) x s =
      Allowed (p x.addr) o (view p o u x.addr []) (send bytes n) (focused x s)
  Permitted (give_back addr) x s =
      Allowed (p x.addr) o (view p o u x.addr []) (give_back addr) (focused x s)
  Permitted (frame f) x s = Allowed (p x.addr) o (view p o u x.addr []) (frame f) (focused x s)
  Permitted (answer_reported error) x s = Unit {0}
  Permitted output_due x s = 0 < outputs_of x s
  Permitted answer_due x s = Unit {0}
  Permitted give_up_due x s = 0 < give_ups_of x s
  Permitted silence_due x s = Unit {0}

  -- What a layer comes to by permitted events of its connections
  pub data Reaches (s : Layer Ext) : Layer Ext → Type 0 where
    begin : Reaches s s
    more :
        {s₁ s₂ : Layer Ext} (event : Event Ext) (pre : List Pcb) (x : Pcb) (post : List Pcb)
        → Reaches s s₁
        → s₁.connections.list ≡ pre ++ (x ∷ post)
        → Permitted event x s₁
        → happen event pre x post s₁ ≡ some s₂
        → Reaches s s₂

  allowed :
      (event : Event Ext) (x : Pcb) (others : List Pcb) (s : Layer Ext)
      → (view p o u x.addr others).World s.timers s.ext
      → Permitted event x s
      → Allowed (p x.addr) o (view p o u x.addr others) event (focused x s)
  allowed (reported error e) x others s sound (fewer, none_more) = (
    fewer,
    still_sound p o u x.addr others s.timers s.timers s.ext e (λ b ne. none_more b)
        (λ b ne. omega arith) (λ b ne. omega arith) sound,
  )
  allowed (send bytes n) x others s sound h = h
  allowed (give_back addr) x others s sound h = h
  allowed (frame f) x others s sound h = h
  allowed (answer_reported error) x others s sound h = h
  allowed output_due x others s sound h = h
  allowed answer_due x others s sound h = h
  allowed give_up_due x others s sound h = h
  allowed silence_due x others s sound h = h

  pub Fresh-AllSafe : (s : Layer Ext) → Fresh s → AllSafe s
  Fresh-AllSafe s f = record {
    each =
        All-map (IsQuiet s) (Sound p o u s.timers s.ext) s.connections.list
          (λ q (resting, empty, listening, still, calm).
            (rw resting (empty, still, calm), rw listening tt))
          f.quiet;
    apart = f.apart;
  }

  IsSafe-Sound :
      (a : ℕ) (others : List Pcb) (c : Ctx Ext)
      → IsSafe (p a) o (view p o u a others) c
      → Sound p o u c.timers c.ext c.pcb
  IsSafe-Sound a others c safe =
      let mine : u c.pcb.addr c.ext ≡ u a c.ext = ap (λ b. u b c.ext) safe.rest.1 in
      (
        Outgoing-less o c.pcb.output_flow.state c.pcb.output_flow _ _ _ _ _ _ (omega arith)
            (omega arith) (omega arith) safe.outgoing,
        safe.rest.0,
      )

  module _ (env : Environment p o u) where
    pub happen-AllSafe :
        (event : Event Ext) (pre : List Pcb) (x : Pcb) (post : List Pcb) (s : Layer Ext)
        → AllSafe s
        → s.connections.list ≡ pre ++ (x ∷ post)
        → Permitted event x s
        → (s' : Layer Ext) × (happen event pre x post s ≡ some s') × AllSafe s'
    unfolding happen
    happen-AllSafe event pre x post s safe split h =
        let others = pre ++ post in
        let (mine, sound) =
          All-remove (Sound p o u s.timers s.ext) pre x post (rw split at safe.each) in
        let (alone, apart) = Apart-remove addr_of pre x post (rw split at safe.apart) in
        let world =
          All-map₂ (Sound p o u s.timers s.ext) (λ q. q.addr ≢ x.addr)
            (λ q. (Sound p o u s.timers s.ext q) × (q.addr ≢ x.addr)) others (λ q a b. (a, b)) sound
            alone in
        let (c, e, kept) =
          on_event-Safe (p x.addr) o (view p o u x.addr others)
            (surroundings p o u x.addr others env) event (focused x s)
            (record { outgoing = mine.0; rest = (mine.1, refl, world) })
            (allowed event x others s world h) in
        let held =
          All-map (λ q. (Sound p o u c.timers c.ext q) × (q.addr ≢ x.addr))
            (Sound p o u c.timers c.ext) others (λ q r. r.0) kept.rest.2 in
        let away =
          All-map (λ q. q.addr ≢ x.addr) (λ q. q.addr ≢ c.pcb.addr) others
            (λ q ne same. ne (same ∙ kept.rest.1)) alone in
        (
          put_back pre post s c,
          ap (λ m. m >>= λ c. some (put_back pre post s c)) e,
          record {
            each =
                All-insert (Sound p o u c.timers c.ext) pre c.pcb post
                  (IsSafe-Sound x.addr others c kept) held;
            apart = Apart-insert pre c.pcb post away apart;
          },
        )
