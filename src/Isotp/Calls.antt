-- ===== src/Isotp/Calls.antt =====
-- src/isotp.c: any sequence of calls on the list of ISO-TP connections.
use lwcan.Common.{
  ℕ, ◌<◌, ◌≤◌, ◌*◌, ◌≡◌, refl, Option, none, some, List, [], ◌∷◌, ◌==◌, ◌||◌, not, inl, inr,
  Bool-cases,
}
use lwcan.Can.{AddrCan}
use lwcan.Pool.{Layout}
use lwcan.Pool.Calls.{call_on, InPlace, call_on-IsValid}
use lwcan.Pool.Slots.{IsValid, new_slot-IsValid, remove_slot-IsValid, no_slots-IsValid}
use lwcan.Isotp.Types.{Pcb}
use lwcan.Isotp.Connections.{
  Connections, addr_of, new_pcb, masked, bind_pcb, isotp_init, isotp_new, isotp_remove, isotp_bind,
  isotp_set_receive_callback, isotp_set_receive_ff_callback, isotp_set_sent_callback,
  isotp_set_error_callback, isotp_set_callback_arg,
}

-- A call of the application; a connection is named by its address.
pub data Call : Type 0 where
  create : Call
  destroy : Option ℕ → Call
  bind : ℕ → Option AddrCan → Call
  set_receive set_receive_ff set_sent set_error : ℕ → Option ℕ → Call
  set_arg : ℕ → ℕ → Call

bind_pcb-addr : (addr : AddrCan) (pcb : Pcb) → (bind_pcb addr pcb).1.addr ≡ pcb.addr
bind_pcb-addr addr pcb = elim (Bool-cases (addr.can_ifindex == 0)) [
  | inl zero_index ↦ rw zero_index refl
  | inr index ↦
      elim (Bool-cases
        (not (masked addr.tx_id == addr.tx_id) || not (masked addr.rx_id == addr.rx_id))) [
          | inl other_bits ↦ rw (index, other_bits) refl
          | inr same ↦ rw (index, same) refl
        ]
]

isotp_bind-InPlace : (addr : Option AddrCan) → InPlace addr_of (isotp_bind addr)
unfolding isotp_bind
isotp_bind-InPlace none pcb = (pcb, refl, refl)
isotp_bind-InPlace (some addr) pcb = ((bind_pcb addr pcb).1, refl, bind_pcb-addr addr pcb)

module _ (l : Layout) (max_pcb_num : ℕ) where
  pub step : Call → Connections → Connections
  step create s = (isotp_new l max_pcb_num s).1
  step (destroy addr) s = isotp_remove l addr s
  step (bind addr to) s = record s { list = call_on addr_of addr (isotp_bind to) s.list }
  step (set_receive addr fn) s = record s {
    list = call_on addr_of addr (isotp_set_receive_callback fn) s.list;
  }
  step (set_receive_ff addr fn) s = record s {
    list = call_on addr_of addr (isotp_set_receive_ff_callback fn) s.list;
  }
  step (set_sent addr fn) s = record s {
    list = call_on addr_of addr (isotp_set_sent_callback fn) s.list;
  }
  step (set_error addr fn) s = record s {
    list = call_on addr_of addr (isotp_set_error_callback fn) s.list;
  }
  step (set_arg addr arg) s = record s {
    list = call_on addr_of addr (isotp_set_callback_arg arg) s.list;
  }

  pub steps : List Call → Connections → Connections
  steps [] s = s
  steps (call ∷ calls) s = steps calls (step call s)

  step-IsValid :
      (call : Call) (s : Connections)
      → max_pcb_num < 256
      → IsValid addr_of l max_pcb_num s
      → IsValid addr_of l max_pcb_num (step call s)
  unfolding step isotp_set_receive_callback isotp_set_receive_ff_callback isotp_set_sent_callback
      isotp_set_error_callback isotp_set_callback_arg
  step-IsValid create s small v =
      new_slot-IsValid addr_of l new_pcb max_pcb_num s (λ addr. refl) small v
  step-IsValid (destroy none) s small v = v
  step-IsValid (destroy (some addr)) s small v =
      remove_slot-IsValid addr_of l max_pcb_num addr s small v
  step-IsValid (bind addr to) s small v =
      call_on-IsValid addr_of l max_pcb_num addr (isotp_bind to) s (isotp_bind-InPlace to) v
  step-IsValid (set_receive addr fn) s small v =
      call_on-IsValid addr_of l max_pcb_num addr (isotp_set_receive_callback fn) s
        (λ pcb. (record pcb { receive = fn }, refl, refl)) v
  step-IsValid (set_receive_ff addr fn) s small v =
      call_on-IsValid addr_of l max_pcb_num addr (isotp_set_receive_ff_callback fn) s
        (λ pcb. (record pcb { receive_ff = fn }, refl, refl)) v
  step-IsValid (set_sent addr fn) s small v =
      call_on-IsValid addr_of l max_pcb_num addr (isotp_set_sent_callback fn) s
        (λ pcb. (record pcb { sent = fn }, refl, refl)) v
  step-IsValid (set_error addr fn) s small v =
      call_on-IsValid addr_of l max_pcb_num addr (isotp_set_error_callback fn) s
        (λ pcb. (record pcb { error = fn }, refl, refl)) v
  step-IsValid (set_arg addr arg) s small v =
      call_on-IsValid addr_of l max_pcb_num addr (isotp_set_callback_arg arg) s
        (λ pcb. (record pcb { callback_arg = arg }, refl, refl)) v

  steps-from :
      (calls : List Call) (s : Connections)
      → max_pcb_num < 256
      → IsValid addr_of l max_pcb_num s
      → IsValid addr_of l max_pcb_num (steps calls s)
  unfolding steps
  steps-from [] s small v = v
  steps-from (call ∷ calls) s small v =
      steps-from calls (step call s) small (step-IsValid call s small v)

  -- Where at most 255 connections are configured, their chunks are not empty and the pool is at
  -- most 256 bytes long, any sequence of isotp_new, isotp_remove, isotp_bind and setters from
  -- isotp_init on keeps it so that each connection owns a chunk marked as taken, that no two own
  -- the same chunk, and that the connections are counted and no more than configured.
  pub steps-IsValid :
      (calls : List Call)
      → max_pcb_num < 256
      → 0 < l.chunk_size
      → l.chunk_size * max_pcb_num ≤ 256
      → IsValid addr_of l max_pcb_num (steps calls (isotp_init max_pcb_num))
  steps-IsValid calls small chunk_pos fits =
      steps-from calls (isotp_init max_pcb_num) small
        (no_slots-IsValid addr_of l max_pcb_num chunk_pos fits)
