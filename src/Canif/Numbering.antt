-- ===== src/Canif/Numbering.antt =====
-- src/canif.c: the choice of a number in `canif_add`. The numbers are tried in turn from a hint on,
-- and after 253 comes 0; entries are counted by the distance of their numbers from the hint.
use lwcan.Common.{
  ℕ, zero, suc, ◌+◌, ◌-◌, ◌%◌, ◌≤◌, ◌<◌, ◌≡◌, ◌≢◌, ◌⊎◌, refl, ap, ◌∙◌, inl, inr, true, false, some,
  List, [], ◌∷◌, ◌++◌, arith, All, leb, ◌==◌, length, if◌then◌else◌, Bool-cases,
}
use lwcan.Can.{LwcanErr, ok, canif, canif_max}
use lwcan.Canif.{Canif}
use lwcan.Canif.Registry.{
  max_canif_num, wrapped, Walk, unused, registered, full, clash, walk, choose_num,
}

abbrev pub HasOther : ℕ → List Canif → Type 0
HasOther num list = All (λ x. x.num ≢ num) list

-- The entry of an interface at an address, behind others with other numbers
abbrev pub Listed : ℕ → ℕ → List Canif → Type 0
Listed addr num list =
    (pre : List Canif) × (x : Canif) × (post : List Canif) × (list ≡ pre ++ (x ∷ post))
    × (x.addr ≡ addr)
    × HasOther num pre

walk-unused :
    (addr num k : ℕ) (list : List Canif)
    → k < max_canif_num
    → walk addr num k list ≡ unused
    → HasOther num list × All (λ x. x.addr ≢ addr) list × (k + length list < max_canif_num)
unfolding walk
walk-unused addr num k [] h e = (tt, tt, omega arith)
walk-unused addr num k (x ∷ next) h e =
    let r : HasOther num next
        × All (λ y. y.addr ≢ addr) next
        × ((k + 1) % 256 + length next < max_canif_num) =
      walk-unused addr num ((k + 1) % 256) next (ground arith) (ground arith) in
    ((ground arith, r.0), (ground arith, r.1), ground (arith, r.2))

walk-registered :
    (addr num k : ℕ) (list : List Canif) → walk addr num k list ≡ registered → Listed addr num list
unfolding walk
walk-registered addr num k [] e = absurd (ground arith)
walk-registered addr num k (x ∷ next) e = elim (Bool-cases (x.addr == addr)) [
  | inl same ↦ ([], x, next, refl, ground arith, tt)
  | inr other ↦
      let (pre, y, post, split, at, others) =
        walk-registered addr num ((k + 1) % 256) next (ground arith) in
      (x ∷ pre, y, post, ap (λ t. x ∷ t) split, at, (ground arith, others))
]

walk-full :
    (addr num k : ℕ) (list : List Canif)
    → k < max_canif_num
    → walk addr num k list ≡ full
    → max_canif_num ≤ k + length list
unfolding walk
walk-full addr num k [] h e = absurd (ground arith)
walk-full addr num k (x ∷ next) h e = elim (Bool-cases (leb max_canif_num ((k + 1) % 256))) [
  | inl last ↦ ground arith
  | inr more ↦
      let r : max_canif_num ≤ (k + 1) % 256 + length next =
        walk-full addr num ((k + 1) % 256) next (ground arith) (ground arith) in
      ground (arith, r)
]

walk-clash :
    (addr num k : ℕ) (list : List Canif) → walk addr num k list ≡ clash → ¬ HasOther num list
unfolding walk
walk-clash addr num k [] e a = absurd (ground arith)
walk-clash addr num k (x ∷ next) e a =
    walk-clash addr num ((k + 1) % 256) next (ground (arith, a.0)) a.1

-- How far a number is behind the hint, in the order of the attempts
abbrev pub dist : ℕ → ℕ → ℕ
dist hint num = (num % max_canif_num + max_canif_num - hint) % max_canif_num

-- The entries among the first `n` whose numbers are at least `i` behind the hint
far : ℕ → ℕ → ℕ → List Canif → ℕ
far hint i zero list = 0
far hint i (suc n) [] = 0
far hint i (suc n) (x ∷ next) = (if leb i (dist hint x.num) then 1 else 0) + far hint i n next

far_le : (hint i n : ℕ) (list : List Canif) → far hint i n list ≤ n
unfolding far
far_le hint i zero list = omega arith
far_le hint i (suc n) [] = omega arith
far_le hint i (suc n) (x ∷ next) = ground (arith, far_le hint i n next)

far-suc : (hint i n : ℕ) (list : List Canif) → far hint (suc i) n list ≤ far hint i n list
unfolding far
far-suc hint i zero list = omega arith
far-suc hint i (suc n) [] = omega arith
far-suc hint i (suc n) (x ∷ next) = ground (arith, far-suc hint i n next)

-- A walk looks at the numbers of 253 entries at most; one that clashes is not so far any more.
walk-far :
    (addr num hint i k n : ℕ) (list : List Canif)
    → k + n ≡ max_canif_num - 1
    → dist hint num ≡ i
    → walk addr num k list ≡ clash
    → far hint (suc i) n list < far hint i n list
unfolding walk far
walk-far addr num hint i k n [] s d e = absurd (ground arith)
walk-far addr num hint i k zero (x ∷ next) s d e = absurd (ground arith)
walk-far addr num hint i k (suc n) (x ∷ next) s d e = elim (Bool-cases (x.num == num)) [
  | inl same ↦
      let at : x.num ≡ num = ground arith in
      let less : leb (suc i) (dist hint x.num) ≡ false = rw (at, d) (ground arith) in
      let more : leb i (dist hint x.num) ≡ true = rw (at, d) (ground arith) in
      rw (less, more) (omega (arith, far-suc hint i n next))
  | inr other ↦
      let r : far hint (suc i) n next < far hint i n next =
        walk-far addr num hint i ((k + 1) % 256) n next (ground arith) d (ground arith) in
      ground (arith, r)
]

-- What `canif_add` may find: the first number in turn that no entry has, the interface itself in
-- the list, or a full list.
abbrev pub Chosen : ℕ → ℕ → List Canif → LwcanErr → ℕ → Type 0
Chosen addr hint list error num =
    ((error ≡ ok)
      × HasOther num list
      × All (λ x. x.addr ≢ addr) list
      × (length list < max_canif_num)
      × ((i : ℕ) → i < dist hint num → ¬ HasOther ((hint + i) % max_canif_num) list))
    ⊎ (((error ≡ canif) × Listed addr num list)
        ⊎ ((error ≡ canif_max) × (max_canif_num ≤ length list)))

Walk-cases : (w : Walk) → (w ≡ clash) ⊎ ((w ≡ unused) ⊎ ((w ≡ registered) ⊎ (w ≡ full)))
Walk-cases clash = inl refl
Walk-cases unused = inr (inl refl)
Walk-cases registered = inr (inr (inl refl))
Walk-cases full = inr (inr (inr refl))

wrapped-suc : (n : ℕ) → n < max_canif_num → wrapped ((n + 1) % 256) ≡ (n + 1) % max_canif_num
wrapped-suc n h = ground arith

-- From the attempt with number `i` on
choose_num_from :
    (fuel addr hint i num : ℕ) (list : List Canif)
    → hint < max_canif_num
    → wrapped num ≡ (hint + i) % max_canif_num
    → num ≤ max_canif_num
    → i + fuel ≡ max_canif_num
    → far hint i (max_canif_num - 1) list + i ≤ max_canif_num - 1
    → ((j : ℕ) → j < i → ¬ HasOther ((hint + j) % max_canif_num) list)
    → (error : LwcanErr) × (chosen : ℕ) × (choose_num fuel addr num list ≡ some (error, chosen))
      × (chosen < max_canif_num)
      × Chosen addr hint list error chosen
unfolding choose_num
choose_num_from zero addr hint i num list hs at range total few before =
    absurd (omega (arith, few, total))
choose_num_from (suc fuel) addr hint i num list hs at range total few before =
    elim (Walk-cases (walk addr (wrapped num) 0 list)) [
      | inl e ↦
          let less : far hint (suc i) 253 list < far hint i 253 list =
            walk-far addr (wrapped num) hint i 0 253 list refl away e in
          let (error, chosen, found, small, r) =
            choose_num_from fuel addr hint (suc i) ((wrapped num + 1) % 256) list hs next_at
              (omega (arith, in_range)) (omega (arith, total)) (omega (arith, less, few))
              (later e) in
          (error, chosen, rw (e, choose_num) found, small, r)
      | inr (inl e) ↦
          let (others, apart, room) = walk-unused addr (wrapped num) 0 list (omega arith) e in
          (
            ok,
            wrapped num,
            rw (e, choose_num) refl,
            in_range,
            inl (
              refl,
              others,
              apart,
              omega (arith, room),
              λ j h. before j (omega (arith, away, h)),
            ),
          )
      | inr (inr (inl e)) ↦ (
        canif,
        wrapped num,
        rw (e, choose_num) refl,
        in_range,
        inr (inl (refl, walk-registered addr (wrapped num) 0 list e)),
      )
      | inr (inr (inr e)) ↦ (
        canif_max,
        wrapped num,
        rw (e, choose_num) refl,
        in_range,
        inr (inr (refl, omega (arith, walk-full addr (wrapped num) 0 list (omega arith) e))),
      )
    ]
  where
    away : dist hint (wrapped num) ≡ i
    away = rw at (ground arith)

    in_range : wrapped num < max_canif_num
    in_range = omega (arith, at)

    next_at : wrapped ((wrapped num + 1) % 256) ≡ (hint + suc i) % max_canif_num
    next_at = wrapped-suc (wrapped num) in_range ∙ omega (arith, at)

    later :
        walk addr (wrapped num) 0 list ≡ clash
        → (j : ℕ) → j < suc i
        → ¬ HasOther ((hint + j) % max_canif_num) list
    later e j h = elim (Bool-cases (j == i)) [
      | inl same ↦
          let now : (hint + j) % max_canif_num ≡ wrapped num = ground (arith, at) in
          rw now (walk-clash addr (wrapped num) 0 list e)
      | inr other ↦ before j (ground arith)
    ]

pub choose_num_lem :
    (addr hint : ℕ) (list : List Canif)
    → hint < max_canif_num
    → (error : LwcanErr) × (chosen : ℕ) × (choose_num max_canif_num addr hint list
        ≡ some (error, chosen))
      × (chosen < max_canif_num)
      × Chosen addr hint list error chosen
choose_num_lem addr hint list hs =
    choose_num_from max_canif_num addr hint 0 hint list hs (ground arith) (omega arith) refl
      (omega (arith, far_le hint 0 253 list)) (λ j h. absurd (omega arith))
