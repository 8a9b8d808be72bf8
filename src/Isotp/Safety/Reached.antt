-- ===== src/Isotp/Safety/Reached.antt =====
-- What the ISO-TP connections of a node come to, by calls, frames, reports and timeouts in any order
-- (src/isotp.c, src/isotp_in.c, src/isotp_out.c).
use lwcan.Common.{ℕ, ◌+◌, ◌≤◌, ◌≡◌, sym, ◌∙◌, some, List, [], ◌∷◌, ◌++◌, arith, All-remove}
use mathlib.Core.Option.{some-injective}
use lwcan.Isotp.Types.{
  State, idle, tx_sf, tx_ff, tx_cf, tx_fc, wait_cf, wait_fc, Pcb, Flow, Options, Platform,
}
use lwcan.Isotp.Layer.{Layer}
use lwcan.Isotp.Safety.{Outgoing}
use lwcan.Isotp.Safety.Events.{Event}
use lwcan.Isotp.Safety.Together.{Sound, Environment}
use lwcan.Isotp.Safety.Layered.{
  outputs_of, give_ups_of, Fresh, AllSafe, happen, Permitted, Reaches, begin, more, happen-AllSafe,
  Fresh-AllSafe,
}

relabel :
    (o : Options) (s : State) (flow : Flow) (u q e : ℕ)
    → s ≡ idle
    → Outgoing o s flow u q e
    → Outgoing o idle flow u q e
relabel o s flow u q e is sends = rw is at sends

settled :
    (o : Options) (s : State) (flow : Flow) (u q e : ℕ)
    → s ≡ idle
    → Outgoing o s flow u q e
    → (flow.buffer ≡ []) × (u ≡ 0) × (q ≡ 0) × (e ≡ 0)
settled o s flow u q e is sends =
    let (empty, quiet, calm) = relabel o s flow u q e is sends in
    (empty, omega arith, omega arith, omega arith)

at_most_one :
    (o : Options) (s : State) (flow : Flow) (u q e : ℕ)
    → Outgoing o s flow u q e
    → (u + q ≤ 1) × (e ≤ 1)
at_most_one o idle flow u q e (empty, quiet, calm) = (omega arith, omega arith)
at_most_one o tx_sf flow u q e (held, one, calm, short) = (one, omega arith)
at_most_one o tx_ff flow u q e (held, one, calm, unsent) = (one, omega arith)
at_most_one o tx_cf flow u q e (held, one, calm) = (one, omega arith)
at_most_one o wait_fc flow u q e (held, quiet, one) = (omega arith, one)
at_most_one o tx_fc flow u q e bad = absurd bad
at_most_one o wait_cf flow u q e bad = absurd bad

module _ {Ext : Type 0} (p : ℕ → Platform Ext) (o : Options) (u : ℕ → Ext → ℕ)
    (env : Environment p o u) where
  Reaches-AllSafe : (s s' : Layer Ext) → Fresh p o u s → Reaches p o u s s' → AllSafe p o u s'
  Reaches-AllSafe s s' f begin = Fresh-AllSafe p o u s f
  Reaches-AllSafe s s' f (more event pre x post before split permitted done) =
      let (s₃, e, safe) =
        happen-AllSafe p o u env event pre x post _ (Reaches-AllSafe s _ f before) split
          permitted in
      rw (some-injective _ _ (sym e ∙ done)) at safe

  Reaches-Sound :
      (s s' : Layer Ext) (pre : List Pcb) (x : Pcb) (post : List Pcb)
      → Fresh p o u s
      → Reaches p o u s s'
      → s'.connections.list ≡ pre ++ (x ∷ post)
      → Sound p o u s'.timers s'.ext x
  Reaches-Sound s s' pre x post f reached split =
      (All-remove (Sound p o u s'.timers s'.ext) pre x post
        (rw split at (Reaches-AllSafe s s' f reached).each)).0

  -- In both builds, where connections at addresses of their own share the timeouts, the heap and
  -- the drivers, and each begins with both flows idle, no buffer in its output flow, no timeout of
  -- that flow pending and no frame that its driver has yet to report; where the heap gives blocks
  -- as large as it is asked for and leaves the drivers' counts of unreported frames alone, a
  -- driver has one more frame of a connection to report at most for each frame of its output flow
  -- that it takes from it, none more for one that it refuses or that answers, and none more of
  -- another connection, a frame to be filled has the bytes of the build, the callbacks leave their
  -- connection safe and the others sound and the error callback leaves the flows alone: after any
  -- sequence of events of these connections, in any order and interleaved in any way, which are
  -- calls of isotp_send with bytes that are there, buffers given back other than the first of the
  -- input flow, frames that carry what they announce, reports of frames that the driver has taken,
  -- which leave it no more to report of any connection, and timeouts, those of the output flow
  -- only if they are pending, each such event of one of them is handled without a fault, which no
  -- access outside a frame or a buffer is, and leaves all of them safe: what their flows hold and
  -- which timeouts are pending fits their states, and their addresses differ.
  pub Reaches-handled :
      (s s' : Layer Ext) (event : Event Ext) (pre : List Pcb) (x : Pcb) (post : List Pcb)
      → Fresh p o u s
      → Reaches p o u s s'
      → s'.connections.list ≡ pre ++ (x ∷ post)
      → Permitted p o u event x s'
      → (s'' : Layer Ext) × (happen p o u event pre x post s' ≡ some s'') × AllSafe p o u s''
  Reaches-handled s s' event pre x post f reached split permitted =
      happen-AllSafe p o u env event pre x post s' (Reaches-AllSafe s s' f reached) split permitted

  -- In both builds, where connections at addresses of their own share the timeouts, the heap and
  -- the drivers, and each begins with both flows idle, no buffer in its output flow, no timeout of
  -- that flow pending and no frame that its driver has yet to report; where the heap gives blocks
  -- as large as it is asked for and leaves the drivers' counts of unreported frames alone, a
  -- driver has one more frame of a connection to report at most for each frame of its output flow
  -- that it takes from it, none more for one that it refuses or that answers, and none more of
  -- another connection, a frame to be filled has the bytes of the build, the callbacks leave their
  -- connection safe and the others sound and the error callback leaves the flows alone: whenever
  -- the output flow of one of them is idle after any sequence of events of these connections, in
  -- any order and interleaved in any way, which are calls of isotp_send with bytes that are there,
  -- buffers given back other than the first of the input flow, frames that carry what they
  -- announce, reports of frames that the driver has taken, which leave it no more to report of any
  -- connection, and timeouts, those of the output flow only if they are pending, that flow holds
  -- no buffer, no frame of it is under way, and neither of its timeouts is pending.
  pub Reaches-settled :
      (s s' : Layer Ext) (pre : List Pcb) (x : Pcb) (post : List Pcb)
      → Fresh p o u s
      → Reaches p o u s s'
      → s'.connections.list ≡ pre ++ (x ∷ post)
      → x.output_flow.state ≡ idle
      → (x.output_flow.buffer ≡ [])
        × (u x.addr s'.ext ≡ 0)
        × (outputs_of p o u x s' ≡ 0)
        × (give_ups_of p o u x s' ≡ 0)
  Reaches-settled s s' pre x post f reached split is =
      settled o x.output_flow.state x.output_flow _ _ _ is
        (Reaches-Sound s s' pre x post f reached split).0

  -- In both builds, where connections at addresses of their own share the timeouts, the heap and
  -- the drivers, and each begins with both flows idle, no buffer in its output flow, no timeout of
  -- that flow pending and no frame that its driver has yet to report; where the heap gives blocks
  -- as large as it is asked for and leaves the drivers' counts of unreported frames alone, a
  -- driver has one more frame of a connection to report at most for each frame of its output flow
  -- that it takes from it, none more for one that it refuses or that answers, and none more of
  -- another connection, a frame to be filled has the bytes of the build, the callbacks leave their
  -- connection safe and the others sound and the error callback leaves the flows alone: after any
  -- sequence of events of these connections, in any order and interleaved in any way, which are
  -- calls of isotp_send with bytes that are there, buffers given back other than the first of the
  -- input flow, frames that carry what they announce, reports of frames that the driver has taken,
  -- which leave it no more to report of any connection, and timeouts, those of the output flow
  -- only if they are pending, the frames of the output flow of each of them that are under way and
  -- the timeouts of it that output one are at most one together, and at most one timeout of it is
  -- pending that gives up.
  pub Reaches-one :
      (s s' : Layer Ext) (pre : List Pcb) (x : Pcb) (post : List Pcb)
      → Fresh p o u s
      → Reaches p o u s s'
      → s'.connections.list ≡ pre ++ (x ∷ post)
      → (u x.addr s'.ext + outputs_of p o u x s' ≤ 1) × (give_ups_of p o u x s' ≤ 1)
  Reaches-one s s' pre x post f reached split =
      at_most_one o x.output_flow.state x.output_flow _ _ _
        (Reaches-Sound s s' pre x post f reached split).0
