-- ===== src/Pool/Filling.antt =====
-- A pool, and a list of control blocks in it, that are used up from the first chunk on
-- (`timeout_malloc` of src/timeouts.c, and its copies in src/isotp.c and src/raw.c).
use lwcan.Common.{
  ℕ, zero, suc, ◌+◌, ◌%◌, ◌≤◌, ◌<◌, ◌≡◌, refl, ap, ◌∙◌, ◌-◌, none, some, List, ◌∷◌, ◌++◌, arith,
  replicate, set, leb, Bool-cases, inl, inr, false,
}
use lwcan.Pool.{Layout, taken, scan, malloc}
use lwcan.Pool.Laws.{chunk_addr}
use lwcan.Pool.Slots.{Slots, no_slots, new_slot, add_slot}

-- The first chunks are taken, and so many behind them are free.
abbrev pub used : ℕ → ℕ → List ℕ
used k free = replicate k taken ++ replicate free 0

scan-used : (k n : ℕ) → scan (used k (suc n)) ≡ some k
unfolding scan
scan-used zero n = refl
scan-used (suc k) n = rw (scan-used k n) refl

scan-used_up : (k : ℕ) → scan (used k 0) ≡ none
unfolding scan
scan-used_up zero = refl
scan-used_up (suc k) = rw (scan-used_up k) refl

set-used : (k n : ℕ) → set (used k (suc n)) k taken ≡ used (suc k) n
set-used zero n = refl
set-used (suc k) n = ap (λ l. taken ∷ l) (set-used k n)

malloc_at :
    (l : Layout) (flags : List ℕ) (i : ℕ)
    → scan flags ≡ some i
    → malloc l flags ≡ (some (chunk_addr l i), set flags i taken)
unfolding malloc
malloc_at l flags i e = rw (e, malloc)

malloc_full : (l : Layout) (flags : List ℕ) → scan flags ≡ none → malloc l flags ≡ (none, flags)
unfolding malloc
malloc_full l flags e = rw (e, malloc)

pub malloc-used :
    (l : Layout) (k n : ℕ) → malloc l (used k (suc n)) ≡ (some (chunk_addr l k), used (suc k) n)
malloc-used l k n =
    malloc_at l (used k (suc n)) k (scan-used k n)
    ∙ ap (λ p. (some (chunk_addr l k), p)) (set-used k n)

pub malloc-used_up : (l : Layout) (k : ℕ) → malloc l (used k 0) ≡ (none, used k 0)
malloc-used_up l k = malloc_full l (used k 0) (scan-used_up k)

module _ {A : Type 0} (addr_of : A → ℕ) (l : Layout) (new_entry : ℕ → A) (max_num : ℕ) where
  -- So many blocks one after the other
  pub new_slots : ℕ → Slots A → Slots A
  new_slots zero s = s
  new_slots (suc k) s = (new_slot addr_of l new_entry max_num (new_slots k s)).1

  record IsFilled (k n : ℕ) (s : Slots A) : Type 0 where
    pool : s.pool ≡ used k n
    num : s.num ≡ k % 256

  next-IsFilled :
      (k n : ℕ) (s : Slots A)
      → k + suc n ≡ max_num
      → max_num ≤ 256
      → IsFilled k (suc n) s
      → ((new_slot addr_of l new_entry max_num s).0 ≡ some (chunk_addr l k))
        × IsFilled (suc k) n (new_slot addr_of l new_entry max_num s).1
  unfolding new_slot add_slot
  next-IsFilled k n s total small f =
      let room : leb max_num s.num ≡ false = ground (arith, f.num) in
      let got : malloc l s.pool ≡ (some (chunk_addr l k), used (suc k) n) =
        ap (malloc l) f.pool ∙ malloc-used l k n in
      rw (room, got) (refl, record { pool = refl; num = omega (arith, f.num) })

  no_more : (s : Slots A) → IsFilled max_num 0 s → (new_slot addr_of l new_entry max_num s).0 ≡ none
  unfolding new_slot add_slot
  no_more s f =
      let got : malloc l s.pool ≡ (none, used max_num 0) =
        ap (malloc l) f.pool ∙ malloc-used_up l max_num in
      elim (Bool-cases (leb max_num s.num)) [
        | inl full ↦ rw full refl
        | inr room ↦ rw (room, got) refl
      ]

  new_slots-IsFilled :
      (k n : ℕ) → k + n ≡ max_num → max_num ≤ 256 → IsFilled k n (new_slots k (no_slots max_num))
  unfolding new_slots no_slots
  new_slots-IsFilled zero n total small = record {
    pool = ap (λ (m : ℕ). replicate {A = ℕ} m 0) (omega arith);
    num = refl;
  }
  new_slots-IsFilled (suc k) n total small =
      (next-IsFilled k n (new_slots k (no_slots max_num)) (omega arith) small
        (new_slots-IsFilled k (suc n) (omega arith) small)).1

  -- The blocks are given out in the order of their chunks, until all are given out.
  pub new_slot-no_slots :
      (k : ℕ)
      → k < max_num
      → max_num ≤ 256
      → ((new_slot addr_of l new_entry max_num (new_slots k (no_slots max_num))).0
          ≡ some (chunk_addr l k))
        × ((new_slot addr_of l new_entry max_num (new_slots max_num (no_slots max_num))).0 ≡ none)
  new_slot-no_slots k fewer small = (
    (next-IsFilled k (max_num - suc k) _ (omega arith) small
        (new_slots-IsFilled k (suc (max_num - suc k)) (omega arith) small)).0,
    no_more _ (new_slots-IsFilled max_num 0 (omega arith) small),
  )
