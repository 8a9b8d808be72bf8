-- ===== src/Stack/Start.antt =====
-- `lwcan_init` of src/init.c: what can be opened and registered behind it.
use lwcan.Common.{ℕ}
use lwcan.Pool.{Layout}
use lwcan.Pool.Slots.{Slots}
use lwcan.Pool.Filling.{new_slots}
use lwcan.Isotp.Types.{Pcb}
use lwcan.Isotp.Connections.{addr_of, new_pcb}
use lwcan.Raw.{CanrawPcb, canraw_addr, new_canraw}

-- So many connections one after the other
abbrev pub isotp_news : Layout → ℕ → ℕ → Slots Pcb → Slots Pcb
isotp_news l max_num k s = new_slots addr_of l new_pcb max_num k s

abbrev pub canraw_news : Layout → ℕ → ℕ → Slots CanrawPcb → Slots CanrawPcb
canraw_news l max_num k s = new_slots canraw_addr l new_canraw max_num k s
