-- ===== src/Raw/Tests.antt =====
-- Raw connections in a pool of three, on two interfaces.
use lwcan.Common.{ℕ, ◌+◌, ◌≡◌, ◌≢◌, ◌⊎◌, ◌++◌, refl, Option, none, some, List, [], ◌∷◌, arith, All}
use lwcan.Can.{LwcanErr, ok, aborted, Frame}
use lwcan.Canif.{Canif, get_index, get_by_index}
use lwcan.Pool.{Layout}
use lwcan.Pool.Slots.{Slots, IsValid}
use lwcan.Raw.{
  CanrawPcb, new_canraw, canraw_addr, canraw_init, unmatched, eaten, canraw_input, canraw_send,
}
use lwcan.Raw.Receiving.{canraw_input_lem}
use lwcan.Raw.Sending.{canraw_send-stale, send_all, send_all_lem}
use lwcan.Raw.Calls.{Call, create, destroy, bind, set_receive, arrive, run_calls, run_calls-IsValid}

abbrev layout : Layout
layout = record { begin_addr = 5000; chunk_size = 40 }

abbrev iface : Canif
iface = record { addr = 700; num = 0; name = []; set_bitrate = none; set_filter = none }

abbrev frame : Frame
frame = record { can_id = 0x123; len = 2; flags = 0; payload = 1 ∷ 2 ∷ 0 ∷ 0 ∷ 0 ∷ 0 ∷ 0 ∷ 0 ∷ [] }

-- It counts the frames that it is given, and takes each.
abbrev taker : ℕ → ℕ → CanrawPcb → Frame → ℕ → ℕ × ℕ
taker fn callback_arg pcb f e = (1, e + 1)

abbrev driver : Canif → Frame → ℕ → ℕ → Option (ℕ × ℕ) → ℕ → LwcanErr × ℕ
driver c f frame_size timeout sent e = (ok, e + 1)

abbrev listener : CanrawPcb
listener = record (new_canraw 5040) { if_index = 1; receive = some 9 }

abbrev two : Slots CanrawPcb
two = record { pool = 170 ∷ 170 ∷ 0 ∷ []; list = new_canraw 5000 ∷ listener ∷ []; num = 2 }

canraw_input_lem_example :
    (All (λ u. u.if_index ≢ get_index (some iface)) two.list
      × (canraw_input taker iface frame two 0 ≡ (unmatched, two, 0)))
    ⊎ ((pre : List CanrawPcb) × (pcb : CanrawPcb) × (next : List CanrawPcb) × (two.list
          ≡ pre ++ (pcb ∷ next))
        × (pcb.if_index ≡ get_index (some iface))
        × All (λ u. u.if_index ≢ get_index (some iface)) pre
        × (((pcb.receive ≡ none) × (canraw_input taker iface frame two 0 ≡ (unmatched, two, 0)))
            ⊎ ((fn : ℕ) × (pcb.receive ≡ some fn)
                × (let r = taker fn pcb.callback_arg pcb frame 0 in
                    ((r.0 ≡ 0) × (canraw_input taker iface frame two 0 ≡ (unmatched, two, r.1)))
                    ⊎ ((r.0 ≢ 0)
                        × (canraw_input taker iface frame two 0
                            ≡ (eaten, record two { list = pcb ∷ (pre ++ next) }, r.1)))))))
canraw_input_lem_example = canraw_input_lem taker iface frame two 0

abbrev calls : List Call
calls =
    create
    ∷ create
    ∷ bind 5000 (some (record { can_ifindex = 1; tx_id = 0; rx_id = 0 }))
    ∷ set_receive 5000 (some 9)
    ∷ arrive iface frame
    ∷ destroy (some 5040)
    ∷ []

run_calls-IsValid_example :
    IsValid canraw_addr layout 3 (run_calls taker layout 3 calls (canraw_init 3, 0)).0
run_calls-IsValid_example =
    run_calls-IsValid taker layout 3 calls 0 (omega arith) (omega arith) (omega arith)

send_all_lem_example :
    (pcb' : CanrawPcb) × (send_all driver
        (iface ∷ [])
        iface
        16
        5
        (frame ∷ frame ∷ [])
        listener
        ((ok ∷ aborted ∷ []) ++ [])
        0
      ≡ some (ok ∷ aborted ∷ [], pcb', []))
    × (pcb'.sent ≡ 0)
unfolding get_by_index
send_all_lem_example =
    send_all_lem driver (iface ∷ []) iface 16 5 (frame ∷ frame ∷ []) listener (ok ∷ aborted ∷ []) []
      0 refl (λ f e. refl) refl refl

canraw_send-stale_example :
    canraw_send driver
      (iface ∷ [])
      (some (record listener { sent = 1; sent_error = aborted }))
      (some frame)
      16
      5
      none
      (ok ∷ [])
      0
    ≡ some (record {
      ret = aborted;
      pcb = some (record listener { sent = 0; sent_error = aborted });
      reports = ok ∷ [];
      ext = 1;
    })
unfolding get_by_index
canraw_send-stale_example =
    canraw_send-stale driver (iface ∷ []) iface 16 5
      (record listener { sent = 1; sent_error = aborted }) frame (ok ∷ []) 0 refl refl
      (λ e. omega (arith, e))
