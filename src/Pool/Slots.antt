-- ===== src/Pool/Slots.antt =====
-- A list of control blocks in a pool, with their number: what src/isotp.c keeps of its connections,
-- and src/raw.c of its own. The two differ in the type of the blocks.
use lwcan.Common.{
  ℕ, ◌+◌, ◌%◌, ◌*◌, length-replicate, ◌≤◌, ◌<◌, All, Option-cases, ◌≢◌, ◌≡◌, ◌⊎◌, refl, ap, ◌∙◌,
  inl, inr, Option, none, some, List, [], ◌∷◌, ◌++◌, arith, length, leb, ◌==◌, if◌then◌else◌, ◌>>=◌,
  replicate, Bool-cases, length-append,
}
use lwcan.Common.Bytes.{sub8}
use lwcan.Pool.{Layout, malloc, free}
use lwcan.Pool.Owners.{IsOwned, IsOwned-malloc, IsOwned-free}
use lwcan.Pool.Laws.{malloc-cases}

-- The service bytes, the list, and the counter, a `uint8_t`
pub record Slots (A : Type 0) : Type 0 where
  pub pool : List ℕ
  pub list : List A
  pub num : ℕ

unfoldable pub no_slots : {A : Type 0} → ℕ → Slots A
no_slots max_num = record { pool = replicate max_num 0; list = []; num = 0 }

module _ {A : Type 0} (addr_of : A → ℕ) where
  -- The list without the first entry at an address
  unfoldable pub unlink_addr : ℕ → List A → Option (List A)
  unlink_addr addr [] = none
  unlink_addr addr (x ∷ next) =
      if addr_of x == addr then some next else (unlink_addr addr next >>= λ rest. some (x ∷ rest))

  -- Behind the allocation of a chunk; `new_entry` is what `memset` leaves in it.
  unfoldable pub add_slot : (ℕ → A) → Slots A → Option ℕ × List ℕ → Option ℕ × Slots A
  add_slot new_entry s (none, pool) = (none, s)
  add_slot new_entry s (some addr, pool) =
      (some addr, record { pool = pool; list = new_entry addr ∷ s.list; num = (s.num + 1) % 256 })

  unfoldable pub new_slot : Layout → (ℕ → A) → ℕ → Slots A → Option ℕ × Slots A
  unfolding add_slot
  new_slot l new_entry max_num s =
      if leb max_num s.num then (none, s) else add_slot new_entry s (malloc l s.pool)

  pub remove_slot : Layout → ℕ → Slots A → Slots A
  unfolding unlink_addr
  remove_slot l addr s = elim (unlink_addr addr s.list) [
    | none ↦ s
    | some rest ↦ record { pool = free l (some addr) s.pool; list = rest; num = sub8 s.num 1 }
  ]

  -- Each entry owns a chunk of its own, and they are counted.
  pub record IsValid (l : Layout) (max_num : ℕ) (s : Slots A) : Type 0 where
    pub owned : IsOwned addr_of l s.pool s.list
    pub counted : s.num ≡ length s.list
    pub bounded : s.num ≤ max_num

  pub no_slots-IsValid :
      (l : Layout) (max_num : ℕ)
      → 0 < l.chunk_size
      → l.chunk_size * max_num ≤ 256
      → IsValid l max_num (no_slots max_num)
  unfolding no_slots
  no_slots-IsValid l max_num chunk_pos fits = record {
    owned = record {
      small = record { chunk_pos = chunk_pos; fits = rw (length-replicate {A = ℕ} max_num 0) fits };
      held = tt;
      apart = tt;
    };
    counted = refl;
    bounded = omega arith;
  }

  pub new_slot-IsValid :
      (l : Layout) (new_entry : ℕ → A) (max_num : ℕ) (s : Slots A)
      → ((addr : ℕ) → addr_of (new_entry addr) ≡ addr)
      → max_num < 256
      → IsValid l max_num s
      → IsValid l max_num (new_slot l new_entry max_num s).1
  unfolding new_slot
  new_slot-IsValid l new_entry max_num s placed small v = elim (Bool-cases (leb max_num s.num)) [
    | inl full ↦ rw full v
    | inr vacant ↦ elim (malloc-cases l s.pool) [
      | inl (pool, e) ↦ rw (vacant, e) v
      | inr (addr, pool, e) ↦
          let more : (s.num + 1) % 256 ≡ s.num + 1 = ground (arith, v.bounded) in
          let e' : malloc l s.pool ≡ (some (addr_of (new_entry addr)), pool) = rw (placed addr) e in
          rw (vacant, e, more)
            (record {
              owned = IsOwned-malloc addr_of l s.pool (new_entry addr) s.list e' v.owned;
              counted = omega (arith, v.counted);
              bounded = ground arith;
            })
    ]
  ]

  pub unlink_addr-split :
      (addr : ℕ) (xs : List A)
      → (unlink_addr addr xs ≡ none)
        ⊎ ((pre : List A) × (x : A) × (post : List A) × (xs ≡ pre ++ (x ∷ post))
            × (addr_of x ≡ addr)
            × (unlink_addr addr xs ≡ some (pre ++ post)))
  unfolding unlink_addr
  unlink_addr-split addr [] = inl refl
  unlink_addr-split addr (x ∷ next) = elim (Bool-cases (addr_of x == addr)) [
    | inl same ↦ inr ([], x, next, refl, ground arith, rw same)
    | inr other ↦ elim (unlink_addr-split addr next) [
      | inl e ↦ inl (rw (other, e))
      | inr (pre, y, post, split, at, e) ↦
          inr (x ∷ pre, y, post, ap (λ t. x ∷ t) split, at, rw (other, e))
    ]
  ]

  -- Nothing is taken out where nothing is at the address.
  pub unlink_addr-none :
      (addr : ℕ) (xs : List A) → unlink_addr addr xs ≡ none → All (λ x. addr_of x ≢ addr) xs
  unfolding unlink_addr
  unlink_addr-none addr [] e = tt
  unlink_addr-none addr (x ∷ next) e = elim (Bool-cases (addr_of x == addr)) [
    | inl same ↦ absurd (ground arith)
    | inr other ↦ elim (Option-cases (unlink_addr addr next)) [
      | inl e' ↦ (ground arith, unlink_addr-none addr next e')
      | inr (rest, e') ↦ absurd (ground arith)
    ]
  ]

  pub remove_slot-IsValid :
      (l : Layout) (max_num addr : ℕ) (s : Slots A)
      → max_num < 256
      → IsValid l max_num s
      → IsValid l max_num (remove_slot l addr s)
  unfolding remove_slot
  remove_slot-IsValid l max_num addr s small v = elim (unlink_addr-split addr s.list) [
    | inl e ↦ rw (e, remove_slot) v
    | inr (pre, x, post, split, at, e) ↦
        let owned : IsOwned addr_of l s.pool (pre ++ (x ∷ post)) = rw split at v.owned in
        let count : length s.list ≡ length (pre ++ post) + 1 =
          ap length split ∙ omega (arith, length-append pre (x ∷ post), length-append pre post) in
        let fewer : sub8 s.num 1 ≡ length (pre ++ post) =
          omega (arith, v.counted, v.bounded, count) in
        rw (e, remove_slot)
          (record {
            owned = rw at at (IsOwned-free addr_of l s.pool pre x post owned);
            counted = fewer;
            bounded = omega (arith, fewer, v.counted, v.bounded, count);
          })
  ]
