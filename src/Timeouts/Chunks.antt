-- ===== src/Timeouts/Chunks.antt =====
-- The chunks of the pending timeouts: each entry owns one of its own, and gives it back.
use lwcan.Common.{
  ℕ, ◌≡◌, ◌≢◌, sym, inl, inr, some, List, [], ◌∷◌, ◌++◌, length-set, get_elem?-set_self, set, All,
  All-map, All-map₂, All-remove, Bool-cases,
}
use lwcan.Pool.{Layout, free, taken}
use lwcan.Pool.Laws.{IsSmall, IsSmall-set, chunk_addr, free-chunk, malloc-cases, malloc_some}
use lwcan.Pool.Owners.{Held, Held-set, Held-ne-free}
use lwcan.Timeouts.{
  Timeout, Timers, Handler, untimeout, timeout, enqueue, insert_behind, time_less_than,
  take_expired,
}
use lwcan.Timeouts.Order.{timeout_dropped, timeout_registers, entry}
use lwcan.Timeouts.Untimeout.{untimeout-first, take_expired-some}

abbrev pub Distinct : List Timeout → Type 0
Distinct [] = Unit {0}
Distinct (t ∷ rest) = All (λ u. u.addr ≢ t.addr) rest × Distinct rest

pub record IsValid (l : Layout) (s : Timers) : Type 0 where
  pub small : IsSmall l s.pool
  pub held : All (λ t. Held l s.pool t.addr) s.queue
  pub distinct : Distinct s.queue

module _ (P : Timeout → Type 0) (new : Timeout) where
  All-insert_behind :
      (q : Timeout) (rest : List Timeout)
      → P new
      → All P (q ∷ rest)
      → All P (insert_behind new q rest)
  unfolding insert_behind
  All-insert_behind q [] p a = (a.0, (p, tt))
  All-insert_behind q (r ∷ rest) p a = elim (Bool-cases (time_less_than new.time r.time)) [
    | inl e ↦ rw e (a.0, (p, a.1))
    | inr e ↦ rw e (a.0, All-insert_behind r rest p a.1)
  ]

  All-enqueue : (q : List Timeout) → P new → All P q → All P (enqueue new q)
  unfolding enqueue
  All-enqueue [] p a = (p, tt)
  All-enqueue (q ∷ rest) p a = elim (Bool-cases (time_less_than new.time q.time)) [
    | inl e ↦ rw e (p, a)
    | inr e ↦ rw e (All-insert_behind q rest p a)
  ]

Distinct-insert_behind :
    (new q : Timeout) (rest : List Timeout)
    → All (λ u. u.addr ≢ new.addr) (q ∷ rest)
    → Distinct (q ∷ rest)
    → Distinct (insert_behind new q rest)
unfolding insert_behind
Distinct-insert_behind new q [] a d = ((λ e. a.0 (sym e), tt), (tt, tt))
Distinct-insert_behind new q (r ∷ rest) a d = elim (Bool-cases (time_less_than new.time r.time)) [
  | inl e ↦ rw e ((λ e. a.0 (sym e), d.0), (a.1, d.1))
  | inr e ↦ rw e (
    All-insert_behind (λ u. u.addr ≢ q.addr) new r rest (λ e. a.0 (sym e)) d.0,
    Distinct-insert_behind new r rest a.1 d.1,
  )
]

Distinct-enqueue :
    (new : Timeout) (q : List Timeout)
    → All (λ u. u.addr ≢ new.addr) q
    → Distinct q
    → Distinct (enqueue new q)
unfolding enqueue
Distinct-enqueue new [] a d = (tt, tt)
Distinct-enqueue new (q ∷ rest) a d = elim (Bool-cases (time_less_than new.time q.time)) [
  | inl e ↦ rw e (a, d)
  | inr e ↦ rw e (Distinct-insert_behind new q rest a d)
]

-- Registering a timeout keeps it so that the pool is at most 256 bytes long, that each entry owns
-- a chunk marked as taken, and that no two entries own the same chunk.
pub timeout-IsValid :
    (l : Layout) (now time_ms : ℕ) (handler : Handler) (arg : ℕ) (s : Timers)
    → IsValid l s
    → IsValid l (timeout l now time_ms handler arg s)
timeout-IsValid l now time_ms handler arg s v = elim (malloc-cases l s.pool) [
  | inl (pool, e) ↦ rw (timeout_dropped l now time_ms handler arg s e) v
  | inr (addr, pool, e) ↦
      let (i, bound, vacant, at, marked) = malloc_some l s.pool e in
      let others : All (λ u. u.addr ≢ chunk_addr l i) s.queue =
        All-map (λ u. Held l s.pool u.addr) (λ u. u.addr ≢ chunk_addr l i) s.queue
          (λ u. Held-ne-free l s.pool u.addr i v.small.chunk_pos vacant) v.held in
      let kept : All (λ u. Held l pool u.addr) s.queue =
        All-map (λ u. Held l s.pool u.addr) (λ u. Held l pool u.addr) s.queue
          (λ u h. rw marked (
            Held-set l s.pool u.addr i taken
              (Held-ne-free l s.pool u.addr i v.small.chunk_pos vacant h) h))
          v.held in
      let new : Held l pool addr =
        rw marked
          (i, rw (length-set s.pool i taken) bound, at, get_elem?-set_self s.pool i taken bound) in
      rw (timeout_registers l now time_ms handler arg s e) (record {
        small = rw marked (IsSmall-set i taken v.small);
        held =
            All-enqueue (λ u. Held l pool u.addr) (entry addr now time_ms handler arg) s.queue new
              kept;
        distinct =
            Distinct-enqueue (entry addr now time_ms handler arg) s.queue (rw at others) v.distinct;
      })
]

Distinct-remove :
    (pre : List Timeout) (t : Timeout) (post : List Timeout)
    → Distinct (pre ++ (t ∷ post))
    → All (λ u. u.addr ≢ t.addr) (pre ++ post) × Distinct (pre ++ post)
Distinct-remove [] t post d = d
Distinct-remove (y ∷ pre) t post d =
    let r = Distinct-remove pre t post d.1 in
    let a = All-remove (λ u. u.addr ≢ y.addr) pre t post d.0 in
    ((λ e. a.0 (sym e), r.0), (a.1, r.1))

-- Taking an entry out and freeing its chunk leaves the others theirs.
removed-IsValid :
    (l : Layout) (s : Timers) (pre : List Timeout) (t : Timeout) (post : List Timeout)
    → s.queue ≡ pre ++ (t ∷ post)
    → IsValid l s
    → IsValid l (record { pool = free l (some t.addr) s.pool; queue = pre ++ post })
removed-IsValid l s pre t post e v =
    let held : All (λ u. Held l s.pool u.addr) (pre ++ (t ∷ post)) = rw e at v.held in
    let distinct : Distinct (pre ++ (t ∷ post)) = rw e at v.distinct in
    let ((i, bound, at, mark), others) = All-remove (λ u. Held l s.pool u.addr) pre t post held in
    let (apart, rest) = Distinct-remove pre t post distinct in
    let freed : free l (some t.addr) s.pool ≡ set s.pool i 0 =
      rw at (free-chunk l s.pool i v.small bound) in
    let kept : All (λ u. Held l (set s.pool i 0) u.addr) (pre ++ post) =
      All-map₂ (λ u. u.addr ≢ t.addr) (λ u. Held l s.pool u.addr)
        (λ u. Held l (set s.pool i 0) u.addr) (pre ++ post)
        (λ u ne h. Held-set l s.pool u.addr i 0 (rw at at ne) h) apart others in
    rw freed (record { small = IsSmall-set i 0 v.small; held = kept; distinct = rest })

-- Cancelling a timeout keeps it so that the pool is at most 256 bytes long, that each entry owns a
-- chunk marked as taken, and that no two entries own the same chunk.
pub untimeout-IsValid :
    (l : Layout) (handler : Handler) (arg : ℕ) (s : Timers)
    → IsValid l s
    → IsValid l (untimeout l handler arg s)
untimeout-IsValid l handler arg s v = elim (untimeout-first l handler arg s) [
  | inl (a, e) ↦ rw e v
  | inr (t, pre, post, split, hit, a, e) ↦ rw e (removed-IsValid l s pre t post split v)
]

-- Taking the first entry out when it has expired keeps it so that the pool is at most 256 bytes
-- long, that each entry owns a chunk marked as taken, and that no two entries own the same chunk.
pub take_expired-IsValid :
    (l : Layout) (now : ℕ) (s : Timers) {t : Timeout} {s' : Timers}
    → take_expired l now s ≡ some (t, s')
    → IsValid l s
    → IsValid l s'
take_expired-IsValid l now s {t} {s'} e v =
    let (rest, split, after, old) = take_expired-some l now s e in
    rw after (removed-IsValid l s [] t rest split v)
