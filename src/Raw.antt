-- ===== src/Raw.antt =====
-- src/raw.c: raw connections. `canraw_pcb_list` with its `next` pointers is a list; the pool and
-- the list are the slots of Pool. `E` is all else that there is, the ISO-TP connections and the
-- timeouts included: a callback of the application may change it as it likes, but is taken to leave
-- the list of raw connections alone.
pub mod Receiving
pub mod Sending
pub mod Calls
mod Tests
use lwcan.Common.{
  ℕ, ◌+◌, ◌%◌, Bool, Option, none, some, List, [], ◌∷◌, ◌++◌, ◌==◌, if◌then◌else◌, ◌>>=◌,
}
use lwcan.Can.{LwcanErr, ok, arg, canif, is_ok, Frame, AddrCan}
use lwcan.Canif.{Canif, get_index, get_by_index}
use lwcan.Pool.{Layout}
use lwcan.Pool.Slots.{Slots, no_slots, new_slot, remove_slot}

-- `struct canraw_pcb` at the address `addr`. `receive` is the address of a function, or NULL.
pub record CanrawPcb : Type 0 where
  pub addr : ℕ
  pub if_index : ℕ
  pub receive : Option ℕ
  pub callback_arg : ℕ
  pub sent : ℕ
  pub sent_error : LwcanErr

-- What `memset` leaves of a connection
abbrev pub new_canraw : ℕ → CanrawPcb
new_canraw addr = record {
  addr = addr;
  if_index = 0;
  receive = none;
  callback_arg = 0;
  sent = 0;
  sent_error = ok;
}

abbrev pub canraw_addr : CanrawPcb → ℕ
canraw_addr pcb = pcb.addr

abbrev pub canraw_init : ℕ → Slots CanrawPcb
canraw_init max_pcb_num = no_slots max_pcb_num

abbrev pub canraw_new : Layout → ℕ → Slots CanrawPcb → Option ℕ × Slots CanrawPcb
canraw_new l max_pcb_num s = new_slot canraw_addr l new_canraw max_pcb_num s

abbrev pub canraw_remove : Layout → Option ℕ → Slots CanrawPcb → Slots CanrawPcb
canraw_remove l none s = s
canraw_remove l (some addr) s = remove_slot canraw_addr l addr s

-- A pointer to a connection, or NULL, with what the call leaves in it
pub canraw_bind : Option AddrCan → Option CanrawPcb → LwcanErr × Option CanrawPcb
canraw_bind (some addr) (some pcb) =
    if addr.can_ifindex == 0
    then (canif, some pcb)
    else (ok, some (record pcb { if_index = addr.can_ifindex }))
canraw_bind _ pcb = (arg, pcb)

pub canraw_set_receive_callback : Option ℕ → Option CanrawPcb → LwcanErr × Option CanrawPcb
canraw_set_receive_callback receive none = (arg, none)
canraw_set_receive_callback receive (some pcb) = (ok, some (record pcb { receive = receive }))

pub canraw_set_callback_arg : ℕ → Option CanrawPcb → LwcanErr × Option CanrawPcb
canraw_set_callback_arg callback_arg none = (arg, none)
canraw_set_callback_arg callback_arg (some pcb) =
    (ok, some (record pcb { callback_arg = callback_arg }))

-- `canraw_input_state_t`
pub data InputState : Type 0 where
  unmatched eaten : InputState

-- The first connection of an interface, with those in front of it and behind it
pub find_canraw : ℕ → List CanrawPcb → Option (List CanrawPcb × CanrawPcb × List CanrawPcb)
find_canraw if_index [] = none
find_canraw if_index (pcb ∷ next) =
    if pcb.if_index == if_index
    then some ([], pcb, next)
    else (find_canraw if_index next >>= λ r. some (pcb ∷ r.0, r.1, r.2))

-- `if (prev != NULL)`: the connection moves to the front.
pub to_front : List CanrawPcb → CanrawPcb → List CanrawPcb → List CanrawPcb
to_front [] pcb next = pcb ∷ next
to_front (first ∷ pre) pcb next = pcb ∷ ((first ∷ pre) ++ next)

-- `receive` returns 0 where it leaves the frame.
module _ {E : Type 0} (receive : ℕ → ℕ → CanrawPcb → Frame → E → ℕ × E) where
  pub offer :
      Frame
      → Slots CanrawPcb
      → List CanrawPcb × CanrawPcb × List CanrawPcb
      → E
      → InputState × Slots CanrawPcb × E
  unfolding to_front
  offer frame s (pre, pcb, next) e = elim pcb.receive [
    | none ↦ (unmatched, s, e)
    | some fn ↦
        let r = receive fn pcb.callback_arg pcb frame e in
        if r.0 == 0
        then (unmatched, s, r.1)
        else (eaten, record s { list = to_front pre pcb next }, r.1)
  ]

  pub canraw_input : Canif → Frame → Slots CanrawPcb → E → InputState × Slots CanrawPcb × E
  unfolding offer find_canraw
  canraw_input iface frame s e = elim (find_canraw (get_index (some iface)) s.list) [
    | none ↦ (unmatched, s, e)
    | some found ↦ offer frame s found e
  ]

-- The report of the driver
abbrev pub raw_sent : LwcanErr → CanrawPcb → CanrawPcb
raw_sent error pcb = record pcb { sent = 1; sent_error = error }

-- `while (!pcb->sent)`, where the driver reports these errors in turn: `none` waits for another.
pub await_sent : List LwcanErr → CanrawPcb → Option (CanrawPcb × List LwcanErr)
await_sent [] pcb = if pcb.sent == 0 then none else some (pcb, [])
await_sent (error ∷ reports) pcb =
    let rest = await_sent reports (raw_sent error pcb) in
    if pcb.sent == 0 then rest else some (pcb, error ∷ reports)

-- What a call of `canraw_send` leaves: its result, the connection, the driver, and the reports that
-- are still to come
pub record Sent (E : Type 0) : Type 0 where
  pub ret : LwcanErr
  pub pcb : Option CanrawPcb
  pub reports : List LwcanErr
  pub ext : E

-- `output` is the driver's: it is given the caller's function and argument, or `none` for
-- `raw_sent` and the connection.
module _ {E : Type 0} (output : Canif → Frame → ℕ → ℕ → Option (ℕ × ℕ) → E → LwcanErr × E) where
  pub send_through :
      Canif → CanrawPcb → Frame → ℕ → ℕ → Option (ℕ × ℕ) → List LwcanErr → E → Option (Sent E)
  unfolding await_sent
  send_through iface pcb frame frame_size timeout (some sent) reports e =
      let r = output iface frame frame_size timeout (some sent) e in
      some (record { ret = r.0; pcb = some pcb; reports = reports; ext = r.1 })
  send_through iface pcb frame frame_size timeout none reports e =
      let r = output iface frame frame_size timeout none e in
      if is_ok r.0
      then (await_sent reports pcb >>= λ w. some (record {
        ret = w.0.sent_error;
        pcb = some (record (w.0) { sent = 0 });
        reports = w.1;
        ext = r.1;
      }))
      else some (record { ret = r.0; pcb = some pcb; reports = reports; ext = r.1 })

  pub canraw_send :
      List Canif
      → Option CanrawPcb
      → Option Frame
      → ℕ
      → ℕ
      → Option (ℕ × ℕ)
      → List LwcanErr
      → E
      → Option (Sent E)
  unfolding send_through
  canraw_send canifs (some pcb) (some frame) frame_size timeout sent reports e =
      elim (get_by_index pcb.if_index canifs) [
        | none ↦ some (record { ret = canif; pcb = some pcb; reports = reports; ext = e })
        | some iface ↦ send_through iface pcb frame frame_size timeout sent reports e
      ]
  canraw_send canifs pcb _ frame_size timeout sent reports e =
      some (record { ret = arg; pcb = pcb; reports = reports; ext = e })
