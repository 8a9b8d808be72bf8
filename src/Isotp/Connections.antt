-- ===== src/Isotp/Connections.antt =====
-- The list of connections of src/isotp.c: opening, binding and removing one, and the search of
-- `isotp_input` (src/isotp_in.c) for the connection that a frame is for.
use lwcan.Common.{
  All, Bool, false, ℕ, ◌≡◌, ◌⊎◌, refl, ap, inl, inr, Option, none, some, List, [], ◌∷◌, ◌++◌, arith,
  ◌==◌, ◌&&◌, ◌||◌, not, if◌then◌else◌, ◌>>=◌, bit_and, bit_or, Bool-cases,
}
use lwcan.Can.{LwcanErr, ok, arg, canif, AddrCan, can_eff_flag, can_eff_mask, can_sff_mask}
use lwcan.Pool.{Layout}
use lwcan.Pool.Slots.{Slots, no_slots, new_slot, remove_slot}
use lwcan.Isotp.Types.{Pcb, Flow, idle}

-- `isotp_mem_pool`'s service bytes, `isotp_pcb_list` and `isotp_pcb_num`
abbrev pub Connections : Type 0
Connections = Slots Pcb

abbrev pub isotp_init : ℕ → Connections
isotp_init max_pcb_num = no_slots max_pcb_num

abbrev pub new_flow : Flow
new_flow = record {
  state = idle;
  buffer = [];
  remaining_data = 0;
  cf_sn = 0;
  fs = 0;
  bs = 0;
  st = 0;
  n_wft = 0;
}

-- What `memset` leaves of a connection
abbrev pub new_pcb : ℕ → Pcb
new_pcb addr = record {
  addr = addr;
  if_index = 0;
  receive = none;
  receive_ff = none;
  sent = none;
  error = none;
  callback_arg = 0;
  tx_id = 0;
  rx_id = 0;
  output_flow = new_flow;
  input_flow = new_flow;
}

abbrev pub addr_of : Pcb → ℕ
addr_of pcb = pcb.addr

module _ (l : Layout) where
  abbrev pub isotp_new : ℕ → Connections → Option ℕ × Connections
  isotp_new max_pcb_num s = new_slot addr_of l new_pcb max_pcb_num s

  abbrev pub isotp_remove : Option ℕ → Connections → Connections
  isotp_remove none s = s
  isotp_remove (some addr) s = remove_slot addr_of l addr s

-- The bits of an identifier that its frame format has
abbrev pub masked : ℕ → ℕ
masked id =
    if bit_and id can_eff_flag == 0
    then bit_and id can_sff_mask
    else bit_and id (bit_or can_eff_flag can_eff_mask)

-- `isotp_bind`, behind the tests for NULL
abbrev pub bind_pcb : AddrCan → Pcb → LwcanErr × Pcb
bind_pcb addr pcb =
    if addr.can_ifindex == 0
    then (canif, pcb)
    else (if not (masked addr.tx_id == addr.tx_id) || not (masked addr.rx_id == addr.rx_id)
        then (arg, pcb)
        else (
          ok,
          record pcb {
            if_index = addr.can_ifindex;
            tx_id = masked addr.tx_id;
            rx_id = masked addr.rx_id;
          },
        ))

unfoldable pub isotp_bind : Option AddrCan → Option Pcb → LwcanErr × Option Pcb
isotp_bind (some addr) (some pcb) = let r = bind_pcb addr pcb in (r.0, some r.1)
isotp_bind _ pcb = (arg, pcb)

-- The setters, on a connection that a pointer leads to, or NULL
unfoldable pub isotp_set_receive_callback : Option ℕ → Option Pcb → LwcanErr × Option Pcb
isotp_set_receive_callback fn none = (arg, none)
isotp_set_receive_callback fn (some pcb) = (ok, some (record pcb { receive = fn }))

unfoldable pub isotp_set_receive_ff_callback : Option ℕ → Option Pcb → LwcanErr × Option Pcb
isotp_set_receive_ff_callback fn none = (arg, none)
isotp_set_receive_ff_callback fn (some pcb) = (ok, some (record pcb { receive_ff = fn }))

unfoldable pub isotp_set_sent_callback : Option ℕ → Option Pcb → LwcanErr × Option Pcb
isotp_set_sent_callback fn none = (arg, none)
isotp_set_sent_callback fn (some pcb) = (ok, some (record pcb { sent = fn }))

unfoldable pub isotp_set_error_callback : Option ℕ → Option Pcb → LwcanErr × Option Pcb
isotp_set_error_callback fn none = (arg, none)
isotp_set_error_callback fn (some pcb) = (ok, some (record pcb { error = fn }))

unfoldable pub isotp_set_callback_arg : ℕ → Option Pcb → LwcanErr × Option Pcb
isotp_set_callback_arg to none = (arg, none)
isotp_set_callback_arg to (some pcb) = (ok, some (record pcb { callback_arg = to }))

-- A connection is for the frames of an interface and an identifier.
abbrev pub is_pcb_for : ℕ → ℕ → Pcb → Bool
is_pcb_for if_index can_id pcb = (pcb.if_index == if_index) && (pcb.rx_id == can_id)

-- The search of `isotp_input`: the connection, with those in front of it and behind it
unfoldable pub find_pcb : ℕ → ℕ → List Pcb → Option (List Pcb × Pcb × List Pcb)
find_pcb if_index can_id [] = none
find_pcb if_index can_id (pcb ∷ next) =
    if is_pcb_for if_index can_id pcb
    then some ([], pcb, next)
    else (find_pcb if_index can_id next >>= λ r. some (pcb ∷ r.0, r.1, r.2))

-- The search ends at the first connection with the interface and the identifier of the frame, or
-- finds none where no connection has them.
pub find_pcb_lem :
    (if_index can_id : ℕ) (pcbs : List Pcb)
    → ((find_pcb if_index can_id pcbs ≡ none)
        × All (λ u. is_pcb_for if_index can_id u ≡ false) pcbs)
      ⊎ ((pre : List Pcb) × (pcb : Pcb) × (post : List Pcb) × (find_pcb if_index can_id pcbs
            ≡ some (pre, pcb, post))
          × (pcbs ≡ pre ++ (pcb ∷ post))
          × (pcb.if_index ≡ if_index)
          × (pcb.rx_id ≡ can_id)
          × All (λ u. is_pcb_for if_index can_id u ≡ false) pre)
unfolding find_pcb
find_pcb_lem if_index can_id [] = inl (refl, tt)
find_pcb_lem if_index can_id (pcb ∷ next) = elim (Bool-cases (is_pcb_for if_index can_id pcb)) [
  | inl hit ↦ inr ([], pcb, next, rw hit, refl, ground arith, ground arith, tt)
  | inr miss ↦ elim (find_pcb_lem if_index can_id next) [
    | inl (e, others) ↦ inl (rw (miss, e), (miss, others))
    | inr (pre, x, post, e, split, at, id, others) ↦
        inr (pcb ∷ pre, x, post, rw (miss, e), ap (λ t. pcb ∷ t) split, at, id, (miss, others))
  ]
]
