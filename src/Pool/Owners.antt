-- ===== src/Pool/Owners.antt =====
-- Who owns the chunks of a pool: each entry of a list has one of its own, marked as taken.
use lwcan.Common.{
  ℕ, ◌≡◌, ◌≢◌, sym, ◌∙◌, some, List, [], ◌∷◌, ◌++◌, ◌<◌, arith, length, length-set, get_elem?,
  get_elem?-set_self, get_elem?-set_ne, set, All, All-map, All-map₂, All-remove,
}
use lwcan.Pool.{Layout, malloc, free, taken}
use lwcan.Pool.Laws.{
  IsSmall, IsSmall-set, chunk_addr, chunk_addr-injective, free-chunk, malloc_some,
}

-- The chunk at an address, marked as taken.
abbrev pub Held : Layout → List ℕ → ℕ → Type 0
Held l pool addr =
    (i : ℕ) × (i < length pool) × (addr ≡ chunk_addr l i) × (get_elem? pool i ≡ some taken)

-- Marking or clearing another chunk leaves a taken chunk taken.
pub Held-set :
    (l : Layout) (pool : List ℕ) (addr i v : ℕ)
    → addr ≢ chunk_addr l i
    → Held l pool addr
    → Held l (set pool i v) addr
Held-set l pool addr i v ne (j, bound, e, mark) =
    (j, rw (length-set pool i v) bound, e, rw (get_elem?-set_ne pool i j v (λ p. ne (rw p e))) mark)

-- A free chunk is none of those that are taken.
pub Held-ne-free :
    (l : Layout) (pool : List ℕ) (addr i : ℕ)
    → 0 < l.chunk_size
    → get_elem? pool i ≡ some 0
    → Held l pool addr
    → addr ≢ chunk_addr l i
Held-ne-free l pool addr i pos vacant (j, bound, e, mark) p =
    let same : i ≡ j = chunk_addr-injective l i j pos (sym p ∙ e) in ground arith

module _ {A : Type 0} (addr_of : A → ℕ) where
  abbrev pub Apart : List A → Type 0
  Apart [] = Unit {0}
  Apart (x ∷ rest) = All (λ y. addr_of y ≢ addr_of x) rest × Apart rest

  pub record IsOwned (l : Layout) (pool : List ℕ) (xs : List A) : Type 0 where
    pub small : IsSmall l pool
    pub held : All (λ x. Held l pool (addr_of x)) xs
    pub apart : Apart xs

  -- An entry in front, at a new chunk
  pub IsOwned-malloc :
      (l : Layout) (pool : List ℕ) (x : A) (xs : List A) {pool' : List ℕ}
      → malloc l pool ≡ (some (addr_of x), pool')
      → IsOwned l pool xs
      → IsOwned l pool' (x ∷ xs)
  IsOwned-malloc l pool x xs {pool'} e v =
      let (i, bound, vacant, at, marked) = malloc_some l pool e in
      let others : All (λ y. addr_of y ≢ chunk_addr l i) xs =
        All-map (λ y. Held l pool (addr_of y)) (λ y. addr_of y ≢ chunk_addr l i) xs
          (λ y. Held-ne-free l pool (addr_of y) i v.small.chunk_pos vacant) v.held in
      let kept : All (λ y. Held l pool' (addr_of y)) xs =
        All-map (λ y. Held l pool (addr_of y)) (λ y. Held l pool' (addr_of y)) xs
          (λ y h. rw marked (
            Held-set l pool (addr_of y) i taken
              (Held-ne-free l pool (addr_of y) i v.small.chunk_pos vacant h) h))
          v.held in
      record {
        small = rw marked (IsSmall-set i taken v.small);
        held = (
          rw marked
              (i, rw (length-set pool i taken) bound, at, get_elem?-set_self pool i taken bound),
          kept,
        );
        apart = (
          All-map (λ y. addr_of y ≢ chunk_addr l i) (λ y. addr_of y ≢ addr_of x) xs
              (λ y ne same. ne (same ∙ at)) others,
          v.apart,
        );
      }

  pub Apart-remove :
      (pre : List A) (x : A) (post : List A)
      → Apart (pre ++ (x ∷ post))
      → All (λ y. addr_of y ≢ addr_of x) (pre ++ post) × Apart (pre ++ post)
  Apart-remove [] x post d = d
  Apart-remove (y ∷ pre) x post d =
      let r = Apart-remove pre x post d.1 in
      let a = All-remove (λ u. addr_of u ≢ addr_of y) pre x post d.0 in
      ((λ e. a.0 (sym e), r.0), (a.1, r.1))

  -- An entry taken out, and its chunk freed
  pub IsOwned-free :
      (l : Layout) (pool : List ℕ) (pre : List A) (x : A) (post : List A)
      → IsOwned l pool (pre ++ (x ∷ post))
      → IsOwned l (free l (some (addr_of x)) pool) (pre ++ post)
  IsOwned-free l pool pre x post v =
      let ((i, bound, at, mark), others) =
        All-remove (λ y. Held l pool (addr_of y)) pre x post v.held in
      let (alone, rest) = Apart-remove pre x post v.apart in
      let freed : free l (some (addr_of x)) pool ≡ set pool i 0 =
        rw at (free-chunk l pool i v.small bound) in
      let kept : All (λ y. Held l (set pool i 0) (addr_of y)) (pre ++ post) =
        All-map₂ (λ y. addr_of y ≢ addr_of x) (λ y. Held l pool (addr_of y))
          (λ y. Held l (set pool i 0) (addr_of y)) (pre ++ post)
          (λ y ne h. Held-set l pool (addr_of y) i 0 (λ same. ne (same ∙ sym at)) h) alone others in
      rw freed (record { small = IsSmall-set i 0 v.small; held = kept; apart = rest })
