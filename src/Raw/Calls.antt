-- ===== src/Raw/Calls.antt =====
-- src/raw.c: any sequence of calls on the list of raw connections.
use lwcan.Common.{
  ℕ, ◌<◌, refl, Option, none, some, List, [], ◌∷◌, ◌==◌, inl, inr, Bool-cases, ◌*◌, ◌≤◌,
}
use lwcan.Can.{Frame, AddrCan}
use lwcan.Canif.{Canif}
use lwcan.Pool.{Layout}
use lwcan.Pool.Calls.{call_on, InPlace, call_on-IsValid}
use lwcan.Pool.Slots.{Slots, IsValid, new_slot-IsValid, remove_slot-IsValid, no_slots-IsValid}
use lwcan.Raw.{
  CanrawPcb, canraw_addr, new_canraw, canraw_init, canraw_new, canraw_remove, canraw_bind,
  canraw_set_receive_callback, canraw_set_callback_arg, canraw_input,
}
use lwcan.Raw.Receiving.{canraw_input-IsValid}

-- A call of the application or the driver; a connection is named by its address.
pub data Call : Type 0 where
  create : Call
  destroy : Option ℕ → Call
  bind : ℕ → Option AddrCan → Call
  set_receive : ℕ → Option ℕ → Call
  set_arg : ℕ → ℕ → Call
  arrive : Canif → Frame → Call

canraw_bind-InPlace : (addr : Option AddrCan) → InPlace canraw_addr (canraw_bind addr)
unfolding canraw_bind
canraw_bind-InPlace none pcb = (pcb, refl, refl)
canraw_bind-InPlace (some addr) pcb = elim (Bool-cases (addr.can_ifindex == 0)) [
  | inl zero_index ↦ (pcb, rw zero_index refl, refl)
  | inr index ↦ (record pcb { if_index = addr.can_ifindex }, rw index refl, refl)
]

module _ {E : Type 0} (receive : ℕ → ℕ → CanrawPcb → Frame → E → ℕ × E) (l : Layout)
    (max_pcb_num : ℕ) where
  pub on_call : Call → Slots CanrawPcb × E → Slots CanrawPcb × E
  on_call create (s, e) = ((canraw_new l max_pcb_num s).1, e)
  on_call (destroy addr) (s, e) = (canraw_remove l addr s, e)
  on_call (bind addr to) (s, e) =
      (record s { list = call_on canraw_addr addr (canraw_bind to) s.list }, e)
  on_call (set_receive addr fn) (s, e) =
      (record s { list = call_on canraw_addr addr (canraw_set_receive_callback fn) s.list }, e)
  on_call (set_arg addr arg) (s, e) =
      (record s { list = call_on canraw_addr addr (canraw_set_callback_arg arg) s.list }, e)
  on_call (arrive iface frame) (s, e) = let r = canraw_input receive iface frame s e in (r.1, r.2)

  pub run_calls : List Call → Slots CanrawPcb × E → Slots CanrawPcb × E
  run_calls [] s = s
  run_calls (call ∷ calls) s = run_calls calls (on_call call s)

  on_call-IsValid :
      (call : Call) (s : Slots CanrawPcb × E)
      → max_pcb_num < 256
      → IsValid canraw_addr l max_pcb_num s.0
      → IsValid canraw_addr l max_pcb_num (on_call call s).0
  unfolding on_call canraw_set_receive_callback canraw_set_callback_arg
  on_call-IsValid create s small v =
      new_slot-IsValid canraw_addr l new_canraw max_pcb_num s.0 (λ addr. refl) small v
  on_call-IsValid (destroy none) s small v = v
  on_call-IsValid (destroy (some addr)) s small v =
      remove_slot-IsValid canraw_addr l max_pcb_num addr s.0 small v
  on_call-IsValid (bind addr to) s small v =
      call_on-IsValid canraw_addr l max_pcb_num addr (canraw_bind to) s.0 (canraw_bind-InPlace to) v
  on_call-IsValid (set_receive addr fn) s small v =
      call_on-IsValid canraw_addr l max_pcb_num addr (canraw_set_receive_callback fn) s.0
        (λ pcb. (record pcb { receive = fn }, refl, refl)) v
  on_call-IsValid (set_arg addr arg) s small v =
      call_on-IsValid canraw_addr l max_pcb_num addr (canraw_set_callback_arg arg) s.0
        (λ pcb. (record pcb { callback_arg = arg }, refl, refl)) v
  on_call-IsValid (arrive iface frame) s small v =
      canraw_input-IsValid receive l max_pcb_num iface frame s.0 s.1 v

  run_calls-from :
      (calls : List Call) (s : Slots CanrawPcb × E)
      → max_pcb_num < 256
      → IsValid canraw_addr l max_pcb_num s.0
      → IsValid canraw_addr l max_pcb_num (run_calls calls s).0
  unfolding run_calls
  run_calls-from [] s small v = v
  run_calls-from (call ∷ calls) s small v =
      run_calls-from calls (on_call call s) small (on_call-IsValid call s small v)

  -- Where at most 255 raw connections are configured, their chunks are not empty and the pool is
  -- at most 256 bytes long, any sequence of canraw_new, canraw_remove, canraw_bind, setters and
  -- canraw_input from canraw_init on keeps it so that each connection owns a chunk marked as
  -- taken, that no two own the same chunk, and that the connections are counted and no more than
  -- configured.
  pub run_calls-IsValid :
      (calls : List Call) (e : E)
      → max_pcb_num < 256
      → 0 < l.chunk_size
      → l.chunk_size * max_pcb_num ≤ 256
      → IsValid canraw_addr l max_pcb_num (run_calls calls (canraw_init max_pcb_num, e)).0
  run_calls-IsValid calls e small chunk_pos fits =
      run_calls-from calls (canraw_init max_pcb_num, e) small
        (no_slots-IsValid canraw_addr l max_pcb_num chunk_pos fits)
