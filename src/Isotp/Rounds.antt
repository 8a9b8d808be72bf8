-- ===== src/Isotp/Rounds.antt =====
-- One frame on its way out, in both directions: the timeout's handler fills it, the driver takes
-- it, and `isotp_sent` is called (src/isotp_out.c, src/isotp_in.c).
use lwcan.Common.{
  ℕ, zero, suc, ◌≡◌, ap, Option, some, inl, inr, List, [], ◌∷◌, ◌++◌, length, ◌>>=◌, Bool-cases,
  if_true,
}
use lwcan.Can.{ok, Frame, is_ok}
use lwcan.Timeouts.{in_flow_output, out_flow_output}
use lwcan.Canif.{Canif}
use lwcan.Isotp.Types.{
  Options, Flow, Ctx, Platform, Direction, output, set_flow, stop_timeout, input,
}
use lwcan.Isotp.Output.{blank, transmit, after_output, isotp_out_flow_output, isotp_sent}
use lwcan.Isotp.Input.{isotp_in_flow_output}

-- A driver that accepts every frame and puts it on a bus, where `log` reads the frames' bytes; and
-- a local frame has the eight bytes of its type.
pub record Bus {Ext : Type 0} (p : Platform Ext) (log : Ext → List (List ℕ)) : Type 0 where
  pub accepts :
      (canif : Canif) (f : Frame) (time_ms : ℕ) (d : Direction) (e : Ext)
      → (p.send canif f time_ms d e).0 ≡ ok
  pub logs :
      (canif : Canif) (f : Frame) (time_ms : ℕ) (d : Direction) (e : Ext)
      → log (p.send canif f time_ms d e).1 ≡ log e ++ (f.payload ∷ [])
  pub room : (e : Ext) → length (p.uninit e).payload ≡ 8

module _ {Ext : Type 0} (p : Platform Ext) (o : Options) where
  -- A timeout is taken from the list when it fires.
  abbrev pub fired : Ctx Ext → Ctx Ext
  fired c = stop_timeout p out_flow_output c

  -- The handler of the output flow runs, and the driver reports the frame sent.
  unfoldable pub send_round : Ctx Ext → Option (Ctx Ext)
  send_round c = isotp_out_flow_output p o (fired c) >>= isotp_sent p o output ok

  -- The same for the flow control frames of the input flow
  unfoldable pub answer_round : Ctx Ext → Option (Ctx Ext)
  answer_round c =
      isotp_in_flow_output p o (stop_timeout p in_flow_output c) >>= isotp_sent p o input ok

  unfoldable pub send_rounds : ℕ → Ctx Ext → Option (Ctx Ext)
  send_rounds zero c = some c
  send_rounds (suc k) c = send_round c >>= send_rounds k

module _ {Ext : Type 0} (p : Platform Ext) (o : Options) (log : Ext → List (List ℕ))
    (bus : Bus p log) where
  pub transmit_ok :
      (d : Direction) (c : Ctx Ext) (canif : Canif) (time_ms : ℕ) (f : Frame) (flow : Flow)
      → transmit p o d canif time_ms c (f, flow)
        ≡ some (record (set_flow d flow c) { ext = (p.send canif f time_ms d c.ext).1 })
  unfolding after_output
  transmit_ok d c canif time_ms f flow =
      if_true _ _ _ (ap is_ok (bus.accepts canif f time_ms d c.ext))

  pub blank-room : (c : Ctx Ext) → length (blank p o c).payload ≡ 8
  blank-room c = elim (Bool-cases o.canfd) [
    | inl e ↦ rw e (bus.room c.ext)
    | inr e ↦ rw e (bus.room c.ext)
  ]
