-- ===== src/Buffer/Laws.antt =====
-- What the copies of src/buffer.c do inside the blocks, and the calls of the allocator.
use lwcan.Common.{
  ℕ, suc, ◌+◌, ◌≤◌, ◌<◌, ◌≡◌, some, List, ◌∷◌, ◌++◌, arith, length, take, drop, ◌==◌, false,
}
use lwcan.Common.Bytes.{memcpy_lem, memcpy_tail}
use lwcan.Can.{ok}
use lwcan.Buffer.{Buffer, with_bytes, copy_to, copy_to_offset, copy_from, copy_from_offset}

-- The first `n` bytes behind `offset`
abbrev pub piece : Buffer → ℕ → ℕ → List ℕ
piece b offset n = take n (drop offset b.payload.bytes)

pos_test : (n : ℕ) → 0 < n → (n == 0) ≡ false
pos_test n h = ground arith

-- Out of a buffer, behind the first byte of a frame
pub copy_from_offset-tail :
    (b : Buffer) (next : List Buffer) (h : ℕ) (rest : List ℕ) (n offset : ℕ)
    → 0 < n
    → offset + n ≤ length b.payload.bytes
    → n ≤ length rest
    → copy_from_offset (b ∷ next) (h ∷ rest) 1 n offset
      ≡ some (ok, h ∷ (piece b offset n ++ drop n rest))
unfolding copy_from_offset
copy_from_offset-tail b next h rest n offset pos p q =
    rw (pos_test n pos, memcpy_tail h rest b.payload.bytes offset n p q)

-- Into a buffer, at an offset
pub copy_to_offset-ok :
    (b : Buffer) (next : List Buffer) (source : List ℕ) (from n offset : ℕ)
    → 0 < n
    → from + n ≤ length source
    → offset + n ≤ length b.payload.bytes
    → copy_to_offset (b ∷ next) source from n offset
      ≡ some (
        ok,
        with_bytes b (
              take offset b.payload.bytes
              ++ (take n (drop from source) ++ drop (offset + n) b.payload.bytes))
            ∷ next,
      )
unfolding copy_to_offset
copy_to_offset-ok b next source from n offset pos p q =
    rw (pos_test n pos, memcpy_lem b.payload.bytes offset source from n p q)

-- From the start of a buffer, behind the first byte of a frame
pub copy_from-tail :
    (b : Buffer) (next : List Buffer) (h : ℕ) (rest : List ℕ) (n : ℕ)
    → 0 < n
    → n ≤ length b.payload.bytes
    → n ≤ length rest
    → copy_from (b ∷ next) (h ∷ rest) 1 n ≡ some (ok, h ∷ (piece b 0 n ++ drop n rest))
unfolding copy_from
copy_from-tail b next h rest n pos p q =
    rw (pos_test n pos, memcpy_tail h rest b.payload.bytes 0 n (omega (arith, p)) q)

-- Out of a buffer, behind the first two bytes of a frame
pub copy_from-two :
    (b : Buffer) (next : List Buffer) (g h : ℕ) (rest : List ℕ) (n : ℕ)
    → 0 < n
    → n ≤ length b.payload.bytes
    → n ≤ length rest
    → copy_from (b ∷ next) (g ∷ h ∷ rest) 2 n ≡ some (ok, g ∷ h ∷ (piece b 0 n ++ drop n rest))
unfolding copy_from
copy_from-two b next g h rest n pos p q =
    let two : 2 + n ≡ suc (suc n) = omega arith in
    rw (
      pos_test n pos,
      memcpy_lem (g ∷ h ∷ rest) 2 b.payload.bytes 0 n (omega (arith, p)) (omega (arith, q)),
      two,
    )

-- Into a buffer, from its start
pub copy_to-ok :
    (b : Buffer) (next : List Buffer) (source : List ℕ) (from n : ℕ)
    → 0 < n
    → from + n ≤ length source
    → n ≤ length b.payload.bytes
    → copy_to (b ∷ next) source from n
      ≡ some (ok, with_bytes b (take n (drop from source) ++ drop n b.payload.bytes) ∷ next)
unfolding copy_to
copy_to-ok b next source from n pos p q =
    let none_before : 0 + n ≡ n = omega arith in
    rw
      (pos_test n pos, memcpy_lem b.payload.bytes 0 source from n p (omega (arith, q)), none_before)
