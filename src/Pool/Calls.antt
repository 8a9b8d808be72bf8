-- ===== src/Pool/Calls.antt =====
-- Calls on one entry of a list in a pool, which is found by its address.
use lwcan.Common.{
  ℕ, ◌≡◌, ◌≢◌, refl, Option, none, some, List, [], ◌∷◌, arith, All, length, ◌==◌, inl, inr,
  if◌then◌else◌, Bool-cases,
}
use lwcan.Can.{LwcanErr}
use lwcan.Pool.{Layout}
use lwcan.Pool.Owners.{Apart, Held}
use lwcan.Pool.Slots.{Slots, IsValid}

module _ {A : Type 0} (addr_of : A → ℕ) where
  -- A call on the entry at an address, with what it leaves there
  pub call_on : ℕ → (Option A → LwcanErr × Option A) → List A → List A
  call_on addr f [] = []
  call_on addr f (x ∷ next) =
      if addr_of x == addr
      then elim (f (some x)).1 [ none ↦ x ∷ next | some y ↦ y ∷ next ]
      else x ∷ call_on addr f next

  -- A call keeps the entry where it is.
  abbrev pub InPlace : (Option A → LwcanErr × Option A) → Type 0
  InPlace f = (x : A) → (y : A) × ((f (some x)).1 ≡ some y) × (addr_of y ≡ addr_of x)

  call_on-head :
      (f : Option A → LwcanErr × Option A) (x : A) (next : List A)
      → InPlace f
      → (y : A) × (elim (f (some x)).1 as (λ m. List A) [ none ↦ x ∷ next | some z ↦ z ∷ next ]
          ≡ y ∷ next)
        × (addr_of y ≡ addr_of x)
  call_on-head f x next keeps = let (y, e, at) = keeps x in (y, rw e refl, at)

  call_on-All :
      (P : ℕ → Type 0) (addr : ℕ) (f : Option A → LwcanErr × Option A) (list : List A)
      → InPlace f
      → All (λ u. P (addr_of u)) list
      → All (λ u. P (addr_of u)) (call_on addr f list)
  unfolding call_on
  call_on-All P addr f [] keeps a = tt
  call_on-All P addr f (x ∷ next) keeps a = elim (Bool-cases (addr_of x == addr)) [
    | inl hit ↦ let (y, e, at) = call_on-head f x next keeps in rw (hit, e) (rw at a.0, a.1)
    | inr miss ↦ rw miss (a.0, call_on-All P addr f next keeps a.1)
  ]

  call_on-Apart :
      (addr : ℕ) (f : Option A → LwcanErr × Option A) (list : List A)
      → InPlace f
      → Apart addr_of list
      → Apart addr_of (call_on addr f list)
  unfolding call_on
  call_on-Apart addr f [] keeps a = a
  call_on-Apart addr f (x ∷ next) keeps a = elim (Bool-cases (addr_of x == addr)) [
    | inl hit ↦ let (y, e, at) = call_on-head f x next keeps in rw (hit, e) (rw at a.0, a.1)
    | inr miss ↦ rw miss (
      call_on-All (λ i. i ≢ addr_of x) addr f next keeps a.0,
      call_on-Apart addr f next keeps a.1,
    )
  ]

  length-call_on :
      (addr : ℕ) (f : Option A → LwcanErr × Option A) (list : List A)
      → InPlace f
      → length (call_on addr f list) ≡ length list
  unfolding call_on
  length-call_on addr f [] keeps = refl
  length-call_on addr f (x ∷ next) keeps = elim (Bool-cases (addr_of x == addr)) [
    | inl hit ↦ let (y, e, at) = call_on-head f x next keeps in rw (hit, e) refl
    | inr miss ↦ rw miss (omega (arith, length-call_on addr f next keeps))
  ]

  pub call_on-IsValid :
      (l : Layout) (max_x_num addr : ℕ) (f : Option A → LwcanErr × Option A) (s : Slots A)
      → InPlace f
      → IsValid addr_of l max_x_num s
      → IsValid addr_of l max_x_num (record s { list = call_on addr f s.list })
  call_on-IsValid l max_x_num addr f s keeps v = record {
    owned = record {
      small = v.owned.small;
      held = call_on-All (λ i. Held l s.pool i) addr f s.list keeps v.owned.held;
      apart = call_on-Apart addr f s.list keeps v.owned.apart;
    };
    counted = omega (arith, v.counted, length-call_on addr f s.list keeps);
    bounded = v.bounded;
  }
