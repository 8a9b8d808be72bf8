-- ===== src/Isotp/Safety/Behind.antt =====
-- What a message that is being received keeps when another buffer is given back
-- (`isotp_remove_buffer` of src/isotp.c).
use lwcan.Common.{
  ℕ, ◌≡◌, ◌≢◌, sym, ap, ◌∙◌, inl, inr, some, List, ◌∷◌, arith, false, Bool-cases, Option-cases,
  ◌==◌, ==_iff,
}
use lwcan.Buffer.{Buffer}
use lwcan.Isotp.Types.{
  State, idle, tx_sf, tx_ff, tx_cf, tx_fc, wait_cf, wait_fc, Flow, head_addr, unlink_buffer,
}
use lwcan.Isotp.Safety.{HoldsFirst, Incoming}

unlink_behind :
    (addr : ℕ) (b : Buffer) (next : List Buffer) (r : Buffer × List Buffer)
    → (b.addr == addr) ≡ false
    → unlink_buffer addr (b ∷ next) ≡ some r
    → (rest : List Buffer) × (r.1 ≡ b ∷ rest)
unfolding unlink_buffer
unlink_behind addr b next r other found = elim (Option-cases (unlink_buffer addr next)) [
  | inl missing ↦ absurd (ground arith)
  | inr (q, e) ↦ (q.1, ground arith)
]

first_behind :
    (addr : ℕ) (flow : Flow) (r : Buffer × List Buffer)
    → head_addr flow.buffer ≢ some addr
    → unlink_buffer addr flow.buffer ≡ some r
    → HoldsFirst flow
    → HoldsFirst (record flow { buffer = r.1 })
first_behind addr flow r other found (b, next, held) = elim (Bool-cases (b.addr == addr)) [
  | inl same ↦ absurd (other (ap head_addr held.first ∙ ap some ((==_iff _ _).0 same)))
  | inr apart ↦
      let (rest, kept) =
        unlink_behind addr b next r apart (ap (unlink_buffer addr) (sym held.first) ∙ found) in
      (b, rest, record { first = kept; left = held.left; whole = held.whole; small = held.small })
]

-- What a message that is being received needs stays, when another buffer is given back.
pub behind-Incoming :
    (addr : ℕ) (s : State) (flow : Flow) (r : Buffer × List Buffer)
    → head_addr flow.buffer ≢ some addr
    → unlink_buffer addr flow.buffer ≡ some r
    → Incoming s flow
    → Incoming s (record flow { buffer = r.1 })
behind-Incoming addr idle flow r other found held = tt
behind-Incoming addr wait_cf flow r other found held = first_behind addr flow r other found held
behind-Incoming addr tx_fc flow r other found (inl unready) = inl unready
behind-Incoming addr tx_fc flow r other found (inr held) =
    inr (first_behind addr flow r other found held)
behind-Incoming addr tx_sf flow r other found bad = bad
behind-Incoming addr tx_ff flow r other found bad = bad
behind-Incoming addr tx_cf flow r other found bad = bad
behind-Incoming addr wait_fc flow r other found bad = bad
