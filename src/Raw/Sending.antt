-- ===== src/Raw/Sending.antt =====
-- src/raw.c: `canraw_send` without a function of the caller's, which waits for the driver's report.
use lwcan.Common.{ℕ, ◌≡◌, ◌≢◌, refl, Option, none, some, List, [], ◌∷◌, ◌++◌, arith, ◌>>=◌, length}
use lwcan.Can.{LwcanErr, ok, Frame}
use lwcan.Canif.{Canif, get_by_index}
use lwcan.Raw.{CanrawPcb, raw_sent, await_sent, send_through, canraw_send}

-- The wait ends with the first report, or with one that is there already.
await_sent-first :
    (error : LwcanErr) (reports : List LwcanErr) (pcb : CanrawPcb)
    → pcb.sent ≡ 0
    → await_sent (error ∷ reports) pcb ≡ some (raw_sent error pcb, reports)
unfolding await_sent
await_sent-first error [] pcb fresh = ground arith
await_sent-first error (r ∷ reports) pcb fresh = ground arith

await_sent-stale :
    (reports : List LwcanErr) (pcb : CanrawPcb)
    → pcb.sent ≢ 0
    → await_sent reports pcb ≡ some (pcb, reports)
unfolding await_sent
await_sent-stale [] pcb stale = ground arith
await_sent-stale (r ∷ reports) pcb stale = ground arith

module _ {E : Type 0} (output : Canif → Frame → ℕ → ℕ → Option (ℕ × ℕ) → E → LwcanErr × E)
    (canifs : List Canif) (iface : Canif) (frame_size timeout : ℕ) where
  send_through-first :
      (pcb : CanrawPcb) (frame : Frame) (error : LwcanErr) (reports : List LwcanErr) (e : E)
      → (output iface frame frame_size timeout none e).0 ≡ ok
      → pcb.sent ≡ 0
      → send_through output iface pcb frame frame_size timeout none (error ∷ reports) e
        ≡ some (record {
          ret = error;
          pcb = some (record pcb { sent = 0; sent_error = error });
          reports = reports;
          ext = (output iface frame frame_size timeout none e).1;
        })
  unfolding send_through
  send_through-first pcb frame error reports e accepted fresh =
      simp (send_through, accepted, await_sent-first error reports pcb fresh) refl

  -- Where the interface is found, the driver accepts the frame, and a report is left over from
  -- before, canraw_send without a callback of the caller's returns the old report's error and does
  -- not wait for the new one.
  pub canraw_send-stale :
      (pcb : CanrawPcb) (frame : Frame) (reports : List LwcanErr) (e : E)
      → get_by_index pcb.if_index canifs ≡ some iface
      → (output iface frame frame_size timeout none e).0 ≡ ok
      → pcb.sent ≢ 0
      → canraw_send output canifs (some pcb) (some frame) frame_size timeout none reports e
        ≡ some (record {
          ret = pcb.sent_error;
          pcb = some (record pcb { sent = 0 });
          reports = reports;
          ext = (output iface frame frame_size timeout none e).1;
        })
  unfolding canraw_send send_through
  canraw_send-stale pcb frame reports e found accepted stale =
      simp (canraw_send, found, send_through, accepted, await_sent-stale reports pcb stale) refl

  -- The frames are sent one after the other, and the results are noted.
  pub send_all :
      List Frame
      → CanrawPcb
      → List LwcanErr
      → E
      → Option (List LwcanErr × CanrawPcb × List LwcanErr)
  send_all [] pcb reports e = some ([], pcb, reports)
  send_all (frame ∷ frames) pcb reports e = do
    let sent = canraw_send output canifs (some pcb) (some frame) frame_size timeout none reports e
    s ← sent
    pcb' ← s.pcb
    rest ← send_all frames pcb' s.reports s.ext
    some (s.ret ∷ rest.0, rest.1, rest.2)

  -- Where the interface is found, the driver accepts every frame, and no report is left over,
  -- sending frames one after the other without a callback of the caller's returns the driver's
  -- reports for them in order, each call ends the wait with one report, and none is left over.
  pub send_all_lem :
      (frames : List Frame) (pcb : CanrawPcb) (reports later : List LwcanErr) (e : E)
      → get_by_index pcb.if_index canifs ≡ some iface
      → ((frame : Frame) (e : E) → (output iface frame frame_size timeout none e).0 ≡ ok)
      → pcb.sent ≡ 0
      → length reports ≡ length frames
      → (pcb' : CanrawPcb) × (send_all frames pcb (reports ++ later) e
          ≡ some (reports, pcb', later))
        × (pcb'.sent ≡ 0)
  unfolding send_all canraw_send
  send_all_lem [] pcb [] later e found accepts fresh same = (pcb, refl, fresh)
  send_all_lem [] pcb (r ∷ reports) later e found accepts fresh same = absurd (omega (arith, same))
  send_all_lem (frame ∷ frames) pcb [] later e found accepts fresh same =
      absurd (omega (arith, same))
  send_all_lem (frame ∷ frames) pcb (error ∷ reports) later e found accepts fresh same =
      let first = send_through-first pcb frame error (reports ++ later) e (accepts frame e) fresh in
      let (pcb', rest, clear) =
        send_all_lem frames (record pcb { sent = 0; sent_error = error }) reports later
          (output iface frame frame_size timeout none e).1 found accepts refl
          (omega (arith, same)) in
      (pcb', simp (canraw_send, found, first, rest) refl, clear)
