-- ===== src/Stack.antt =====
-- The parts together: `lwcan_init` of src/init.c, and `canif_input` of src/canif.c, by which a driver
-- hands a frame to the raw connections and to the ISO-TP layer.
pub mod Start
pub mod Input
mod Tests
use lwcan.Common.{
  ℕ, Bool, true, false, ◌≡◌, ◌⊎◌, ◌<◌, ◌≤◌, ◌*◌, refl, sym, inl, inr, ◌≢◌, ◌∷◌, ◌++◌, All, Option,
  none, some, List, ◌>>=◌, if◌then◌else◌, length, arith, ap, ◌∙◌, if_true, [],
}
use lwcan.Can.{LwcanErr, ok, arg, Frame}
use lwcan.Pool.{Layout}
use lwcan.Pool.Laws.{chunk_addr}
use lwcan.Pool.Slots.{Slots}
use lwcan.Pool.Filling.{new_slots, new_slot-no_slots}
use lwcan.Timeouts.{Timers, timeouts_init}
use lwcan.Timeouts.Filling.{Request, start_all, start_all-timeouts_init}
use lwcan.Canif.{Canif, get_index}
use lwcan.Isotp.Types.{Pcb, Platform, Options}
use lwcan.Isotp.Connections.{addr_of, new_pcb, isotp_init, isotp_new, is_pcb_for}
use lwcan.Isotp.Input.{dispatch}
use lwcan.Isotp.Layer.{Layer, focused, put_back, isotp_input, isotp_input_lem}
use lwcan.Raw.{
  CanrawPcb, canraw_addr, new_canraw, canraw_init, canraw_new, canraw_input, InputState, eaten,
  unmatched,
}
use lwcan.Raw.Receiving.{canraw_input_lem}

-- LWCAN_RAW, LWCAN_ISOTP, and the sizes of the pools
pub record StackOptions : Type 0 where
  pub with_raw : Bool
  pub with_isotp : Bool
  pub canraw_max_pcb_num : ℕ
  pub isotp_max_pcb_num : ℕ
  pub timeouts_num : ℕ

-- What `lwcan_init` sets, where both parts are built in
pub record Pools : Type 0 where
  pub isotp : Slots Pcb
  pub raw : Slots CanrawPcb
  pub timers : Timers

unfoldable pub lwcan_init : StackOptions → Pools → Pools
lwcan_init so s = record {
  isotp = if so.with_isotp then isotp_init so.isotp_max_pcb_num else s.isotp;
  raw = if so.with_raw then canraw_init so.canraw_max_pcb_num else s.raw;
  timers = timeouts_init so.timeouts_num;
}

-- All that a frame may change
pub record Stack (Ext : Type 0) : Type 0 where
  pub raw : Slots CanrawPcb
  pub layer : Layer Ext

-- `receive` is a callback of a raw connection. It may call what the application may: it is given
-- the ISO-TP connections, the timeouts and the interfaces, and leaves them as it likes.
module _ {Ext : Type 0} (so : StackOptions) (p : Platform Ext) (o : Options)
    (receive : ℕ → ℕ → CanrawPcb → Frame → Layer Ext → ℕ × Layer Ext) where
  -- Behind `canraw_input`
  unfoldable pub input_behind_raw :
      Canif → Frame → InputState × Slots CanrawPcb × Layer Ext → Option (LwcanErr × Stack Ext)
  input_behind_raw iface frame (eaten, raw, layer) = some (ok, record { raw = raw; layer = layer })
  input_behind_raw iface frame (unmatched, raw, layer) =
      if so.with_isotp
      then (isotp_input p o iface frame layer >>= λ layer.
          some (ok, record { raw = raw; layer = layer }))
      else some (ok, record { raw = raw; layer = layer })

  unfoldable pub canif_input :
      Option Canif → Option Frame → Stack Ext → Option (LwcanErr × Stack Ext)
  unfolding input_behind_raw
  canif_input (some iface) (some frame) s = input_behind_raw iface frame (
      if so.with_raw
      then canraw_input receive iface frame s.raw s.layer
      else (unmatched, s.raw, s.layer))
  canif_input _ _ s = some (arg, s)
