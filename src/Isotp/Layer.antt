-- ===== src/Isotp/Layer.antt =====
-- `isotp_input` in src/isotp_in.c: a frame of an interface, for one of the connections. What the
-- handler of the frame calls works on its own connection, and leaves the list alone.
use lwcan.Common.{All, ◌≡◌, ◌⊎◌, false, refl, inl, inr, Option, none, some, List, ◌∷◌, ◌++◌, ◌>>=◌}
use lwcan.Can.{Frame}
use lwcan.Timeouts.{Timers}
use lwcan.Canif.{Canif, get_index}
use lwcan.Pool.Slots.{Slots}
use lwcan.Isotp.Types.{Pcb, Ctx, Platform, Options}
use lwcan.Isotp.Input.{dispatch}
use lwcan.Isotp.Connections.{is_pcb_for, find_pcb, find_pcb_lem}

-- The connections with what they share
pub record Layer (Ext : Type 0) : Type 0 where
  pub connections : Slots Pcb
  pub timers : Timers
  pub canifs : List Canif
  pub ext : Ext

-- A connection with what it shares, and the layer when it is back in the list
abbrev pub focused : {Ext : Type 0} → Pcb → Layer Ext → Ctx Ext
focused pcb s = record { pcb = pcb; timers = s.timers; canifs = s.canifs; ext = s.ext }

abbrev pub put_back : {Ext : Type 0} → List Pcb → List Pcb → Layer Ext → Ctx Ext → Layer Ext
put_back pre post s c = record {
  connections = record (s.connections) { list = pre ++ (c.pcb ∷ post) };
  timers = c.timers;
  canifs = c.canifs;
  ext = c.ext;
}

module _ {Ext : Type 0} (p : Platform Ext) (o : Options) where
  pub isotp_input : Canif → Frame → Layer Ext → Option (Layer Ext)
  unfolding find_pcb
  isotp_input iface frame s =
      elim (find_pcb (get_index (some iface)) frame.can_id s.connections.list) [
        | none ↦ some s
        | some (pre, pcb, post) ↦
            dispatch p o frame (focused pcb s) >>= λ c. some (put_back pre post s c)
      ]

  -- isotp_input changes nothing where no connection has the interface and the identifier of the
  -- frame; otherwise it dispatches the frame to the first that has them, and what that leaves is
  -- put back to the same place of the list, where the other connections are as they were.
  pub isotp_input_lem :
      (iface : Canif) (frame : Frame) (s : Layer Ext)
      → (All (λ u. is_pcb_for (get_index (some iface)) frame.can_id u ≡ false) s.connections.list
          × (isotp_input iface frame s ≡ some s))
        ⊎ ((pre : List Pcb) × (pcb : Pcb) × (post : List Pcb) × (s.connections.list
              ≡ pre ++ (pcb ∷ post))
            × (pcb.if_index ≡ get_index (some iface))
            × (pcb.rx_id ≡ frame.can_id)
            × All (λ u. is_pcb_for (get_index (some iface)) frame.can_id u ≡ false) pre
            × (isotp_input iface frame s
                ≡ (dispatch p o frame (focused pcb s) >>= λ c. some (put_back pre post s c))))
  unfolding isotp_input
  isotp_input_lem iface frame s =
      elim (find_pcb_lem (get_index (some iface)) frame.can_id s.connections.list) [
        | inl (e, others) ↦ inl (others, rw (e, isotp_input) refl)
        | inr (pre, pcb, post, e, split, at, id, others) ↦
            inr (pre, pcb, post, split, at, id, others, rw (e, isotp_input) refl)
      ]
