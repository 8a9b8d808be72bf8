-- ===== src/Isotp/Tests/Connecting.antt =====
-- Two connections in a pool of three: one is bound, and the other is removed.
use lwcan.Common.{some, [], ◌∷◌, List, arith}
use lwcan.Pool.{Layout}
use lwcan.Pool.Slots.{IsValid}
use lwcan.Isotp.Connections.{addr_of, isotp_init}
use lwcan.Isotp.Calls.{Call, create, destroy, bind, set_receive, steps, steps-IsValid}

abbrev layout : Layout
layout = record { begin_addr = 2000; chunk_size = 84 }

abbrev calls : List Call
calls =
    create
    ∷ create
    ∷ bind 2084 (some (record { can_ifindex = 1; tx_id = 0x7e0; rx_id = 0x7e8 }))
    ∷ set_receive 2084 (some 4)
    ∷ destroy (some 2000)
    ∷ []

steps-IsValid_example : IsValid addr_of layout 3 (steps layout 3 calls (isotp_init 3))
steps-IsValid_example = steps-IsValid layout 3 calls (omega arith) (omega arith) (omega arith)
