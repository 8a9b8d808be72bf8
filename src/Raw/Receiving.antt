-- ===== src/Raw/Receiving.antt =====
-- src/raw.c: `canraw_input` and the list of raw connections.
use lwcan.Common.{
  ℕ, ◌≡◌, ◌≢◌, ◌⊎◌, refl, ap, inl, inr, none, some, List, [], ◌∷◌, ◌++◌, arith, All, All-remove,
  length, length-append, ◌==◌, Bool-cases, Option-cases,
}
use lwcan.Can.{Frame}
use lwcan.Canif.{Canif, get_index}
use lwcan.Pool.{Layout}
use lwcan.Pool.Owners.{Apart-remove}
use lwcan.Pool.Slots.{Slots, IsValid}
use lwcan.Raw.{CanrawPcb, canraw_addr, unmatched, eaten, find_canraw, to_front, offer, canraw_input}

pub find_canraw_lem :
    (if_index : ℕ) (list : List CanrawPcb)
    → ((find_canraw if_index list ≡ none) × All (λ u. u.if_index ≢ if_index) list)
      ⊎ ((pre : List CanrawPcb) × (pcb : CanrawPcb) × (next : List CanrawPcb) × (find_canraw
              if_index list
            ≡ some (pre, pcb, next))
          × (list ≡ pre ++ (pcb ∷ next))
          × (pcb.if_index ≡ if_index)
          × All (λ u. u.if_index ≢ if_index) pre)
unfolding find_canraw
find_canraw_lem if_index [] = inl (refl, tt)
find_canraw_lem if_index (pcb ∷ next) = elim (Bool-cases (pcb.if_index == if_index)) [
  | inl hit ↦ inr ([], pcb, next, rw hit refl, refl, ground arith, tt)
  | inr miss ↦ elim (find_canraw_lem if_index next) [
    | inl (e, others) ↦ inl (rw (miss, e) refl, (ground arith, others))
    | inr (pre, x, post, e, split, at, others) ↦
        inr (
          pcb ∷ pre,
          x,
          post,
          rw (miss, e) refl,
          ap (λ t. pcb ∷ t) split,
          at,
          (ground arith, others),
        )
  ]
]

to_front_lem :
    (pre : List CanrawPcb) (pcb : CanrawPcb) (next : List CanrawPcb)
    → to_front pre pcb next ≡ pcb ∷ (pre ++ next)
unfolding to_front
to_front_lem [] pcb next = refl
to_front_lem (first ∷ pre) pcb next = refl

-- Moving an entry to the front keeps the pool.
front-IsValid :
    (l : Layout) (max_pcb_num : ℕ) (s : Slots CanrawPcb) (pre : List CanrawPcb) (pcb : CanrawPcb)
    (next : List CanrawPcb)
    → s.list ≡ pre ++ (pcb ∷ next)
    → IsValid canraw_addr l max_pcb_num s
    → IsValid canraw_addr l max_pcb_num (record s { list = pcb ∷ (pre ++ next) })
front-IsValid l max_pcb_num s pre pcb next split v = record {
  owned = record {
    small = v.owned.small;
    held = All-remove _ pre pcb next (rw split at v.owned.held);
    apart = Apart-remove canraw_addr pre pcb next (rw split at v.owned.apart);
  };
  counted =
      omega
        (arith, v.counted, ap length split, length-append pre (pcb ∷ next), length-append pre next);
  bounded = v.bounded;
}

module _ {E : Type 0} (receive : ℕ → ℕ → CanrawPcb → Frame → E → ℕ × E) where
  -- Canraw_input leaves the frame and the list as they are where no connection has the index of
  -- the interface; otherwise it offers the frame to the first that has it only: where that has no
  -- callback or its callback returns 0, the frame is left and the list is as it was, and where the
  -- callback returns another value, the frame is eaten and the connection moves to the front.
  pub canraw_input_lem :
      (iface : Canif) (frame : Frame) (s : Slots CanrawPcb) (e : E)
      → (All (λ u. u.if_index ≢ get_index (some iface)) s.list
          × (canraw_input receive iface frame s e ≡ (unmatched, s, e)))
        ⊎ ((pre : List CanrawPcb) × (pcb : CanrawPcb) × (next : List CanrawPcb) × (s.list
              ≡ pre ++ (pcb ∷ next))
            × (pcb.if_index ≡ get_index (some iface))
            × All (λ u. u.if_index ≢ get_index (some iface)) pre
            × (((pcb.receive ≡ none) × (canraw_input receive iface frame s e ≡ (unmatched, s, e)))
                ⊎ ((fn : ℕ) × (pcb.receive ≡ some fn)
                    × (let r = receive fn pcb.callback_arg pcb frame e in
                        ((r.0 ≡ 0) × (canraw_input receive iface frame s e ≡ (unmatched, s, r.1)))
                        ⊎ ((r.0 ≢ 0)
                            × (canraw_input receive iface frame s e
                                ≡ (eaten, record s { list = pcb ∷ (pre ++ next) }, r.1)))))))
  unfolding canraw_input offer
  canraw_input_lem iface frame s e = elim (find_canraw_lem (get_index (some iface)) s.list) [
    | inl (found, others) ↦ inl (others, rw (found, canraw_input) refl)
    | inr (pre, pcb, next, found, split, at, others) ↦ inr (
      pre,
      pcb,
      next,
      split,
      at,
      others,
      elim (Option-cases pcb.receive) [
        | inl no_fn ↦ inl (no_fn, rw (found, no_fn, canraw_input, offer) refl)
        | inr (fn, set) ↦
            let r = receive fn pcb.callback_arg pcb frame e in
            inr (
              fn,
              set,
              elim (Bool-cases (r.0 == 0)) [
                | inl left ↦ inl (ground arith, simp (canraw_input, found, offer, set, left) refl)
                | inr taken ↦ inr (
                  ground arith,
                  simp (canraw_input, found, offer, set, taken, to_front_lem pre pcb next) refl,
                )
              ],
            )
      ],
    )
  ]

  -- canraw_input keeps
  pub canraw_input-IsValid :
      (l : Layout) (max_pcb_num : ℕ) (iface : Canif) (frame : Frame) (s : Slots CanrawPcb) (e : E)
      → IsValid canraw_addr l max_pcb_num s
      → IsValid canraw_addr l max_pcb_num (canraw_input receive iface frame s e).1
  canraw_input-IsValid l max_pcb_num iface frame s e v = elim (canraw_input_lem iface frame s e) [
    | inl (_, r) ↦ rw r v
    | inr (pre, pcb, next, split, _, _, inl (_, r)) ↦ rw r v
    | inr (pre, pcb, next, split, _, _, inr (_, _, inl (_, r))) ↦ rw r v
    | inr (pre, pcb, next, split, _, _, inr (_, _, inr (_, r))) ↦
        rw r (front-IsValid l max_pcb_num s pre pcb next split v)
  ]
