-- ===== src/Common/Bytes.antt =====
-- Bytes and blocks of memory: masks over a byte as arithmetic, wrap-around subtraction, and the
-- `memcpy` and `memset` of the C library, which fault (`none`) outside the blocks that they are given.
use Prim.Native.Nat.{ℕ, zero, suc, ◌+◌, ◌-◌, ◌*◌, ◌/◌, ◌%◌, ◌^◌, ◌≤◌, ◌<◌, bit_and, bit_or}
use mathlib.Core.Path.{◌≡◌, refl, ap, ◌∙◌}
use mathlib.Core.Bool.{Bool, true, ◌&&◌}
use mathlib.Core.Option.{Option, none, some}
use mathlib.Core.List.{List, ◌∷◌, ◌++◌, append-nil}
use native.Mathlib.Omega.{arith}
use lwcan.Common.Tests.{◌==◌, ==_iff, leb, if◌then◌else◌}
use lwcan.Common.Lists.{
  length, take, drop, replicate, length-append, length-take, length-drop, length-replicate,
  take-append, drop_all,
}

-- (uint8_t)(a - b) and (uint32_t)(a - b), for a and b in range.
abbrev pub sub8 : ℕ → ℕ → ℕ
sub8 a b = (a + 256 - b) % 256

abbrev pub sub32 : ℕ → ℕ → ℕ
sub32 a b = (a + 2 ^ 32 - b) % 2 ^ 32

pub sub32-sub : (a b : ℕ) → a < 2 ^ 32 → b ≤ a → sub32 a b ≡ a - b
sub32-sub a b h k = omega arith

-- memcpy(dst + at, src + from, len)
unfoldable pub memcpy : List ℕ → ℕ → List ℕ → ℕ → ℕ → Option (List ℕ)
memcpy dst at src from len =
    if leb (from + len) (length src) && leb (at + len) (length dst)
    then some (take at dst ++ (take len (drop from src) ++ drop (at + len) dst))
    else none

-- memset(dst + at, byte, len)
pub memset : List ℕ → ℕ → ℕ → ℕ → Option (List ℕ)
memset dst at byte len =
    if leb (at + len) (length dst)
    then some (take at dst ++ (replicate len byte ++ drop (at + len) dst))
    else none

pub memcpy_lem :
    (dst : List ℕ) (at : ℕ) (src : List ℕ) (from len : ℕ)
    → from + len ≤ length src
    → at + len ≤ length dst
    → memcpy dst at src from len
      ≡ some (take at dst ++ (take len (drop from src) ++ drop (at + len) dst))
unfolding memcpy
memcpy_lem dst at src from len h k = ground arith

-- A copy past the end of the destination faults.
pub memcpy_past :
    (dst : List ℕ) (at : ℕ) (src : List ℕ) (from len : ℕ)
    → length dst < at + len
    → memcpy dst at src from len ≡ none
unfolding memcpy
memcpy_past dst at src from len h = ground arith

pub memset_lem :
    (dst : List ℕ) (at byte len : ℕ)
    → at + len ≤ length dst
    → memset dst at byte len ≡ some (take at dst ++ (replicate len byte ++ drop (at + len) dst))
unfolding memset
memset_lem dst at byte len h = ground arith

unfoldable pub every : ℕ → (ℕ → Bool) → Bool
every zero p = true
every (suc n) p = p n && every n p

pub every_lem : (n : ℕ) (p : ℕ → Bool) (x : ℕ) → every n p ≡ true → x < n → p x ≡ true
unfolding every
every_lem zero p x h lt = absurd (omega arith)
every_lem (suc n) p x h lt = ground (arith, every_lem n p x)

low_table : every 256 (λ x. bit_and x 0x0f == x % 16) ≡ true
unfolding every
low_table = refl

high_table : every 256 (λ x. bit_and x 0xf0 == x / 16 * 16) ≡ true
unfolding every
high_table = refl

whole_table : every 256 (λ x. bit_and x 0xff == x) ≡ true
unfolding every
whole_table = refl

or_table : every 16 (λ x. every 16 (λ t. bit_or (t * 16) x == t * 16 + x)) ≡ true
unfolding every
or_table = refl

shift_table : every 16 (λ x. every 256 (λ y. bit_or (x * 256) y == x * 256 + y)) ≡ true
unfolding every
shift_table = refl

-- The masks and joins of a byte as arithmetic.
pub bit_and_low : (x : ℕ) → x < 256 → bit_and x 0x0f ≡ x % 16
bit_and_low x h = (==_iff _ _).0 (every_lem 256 _ x low_table h)

pub bit_and_high : (x : ℕ) → x < 256 → bit_and x 0xf0 ≡ x / 16 * 16
bit_and_high x h = (==_iff _ _).0 (every_lem 256 _ x high_table h)

pub bit_and_whole : (x : ℕ) → x < 256 → bit_and x 0xff ≡ x
bit_and_whole x h = (==_iff _ _).0 (every_lem 256 _ x whole_table h)

pub bit_or_nibble : (t x : ℕ) → t < 16 → x < 16 → bit_or (t * 16) x ≡ t * 16 + x
bit_or_nibble t x ht hx = (==_iff _ _).0 (
    every_lem 16 _ t
      (every_lem 16 (λ x. every 16 (λ t. bit_or (t * 16) x == t * 16 + x)) x or_table hx) ht)

pub bit_or_byte : (x y : ℕ) → x < 16 → y < 256 → bit_or (x * 256) y ≡ x * 256 + y
bit_or_byte x y hx hy = (==_iff _ _).0 (
    every_lem 256 _ y
      (every_lem 16 (λ x. every 256 (λ y. bit_or (x * 256) y == x * 256 + y)) x shift_table hx) hy)

-- A copy behind the first byte of a block
pub memcpy_tail :
    (h : ℕ) (rest src : List ℕ) (from len : ℕ)
    → from + len ≤ length src
    → len ≤ length rest
    → memcpy (h ∷ rest) 1 src from len ≡ some (h ∷ (take len (drop from src) ++ drop len rest))
memcpy_tail h rest src from len p q =
    memcpy_lem (h ∷ rest) 1 src from len p (omega (arith, q))
    ∙ ap (λ n. some (h ∷ (take len (drop from src) ++ drop n (h ∷ rest)))) (one_more len)
  where
    one_more : (n : ℕ) → 1 + n ≡ suc n
    one_more n = omega arith

-- A block filled up behind its first part
pub memset_rest :
    (pre post : List ℕ) (at byte len : ℕ)
    → at ≡ length pre
    → len ≡ length post
    → memset (pre ++ post) at byte len ≡ some (pre ++ replicate len byte)
memset_rest pre post at byte len p q =
    memset_lem (pre ++ post) at byte len (omega (arith, length-append pre post))
    ∙ rw (
      take-append at pre post p,
      drop_all (at + len) (pre ++ post) (omega (arith, length-append pre post)),
      append-nil,
    )

spliced_length :
    (dst : List ℕ) (at : ℕ) (middle : List ℕ)
    → at + length middle ≤ length dst
    → length (take at dst ++ (middle ++ drop (at + length middle) dst)) ≡ length dst
spliced_length dst at middle h = omega (
  arith,
  length-append (take at dst) (middle ++ drop (at + length middle) dst),
  length-append middle (drop (at + length middle) dst),
  length-take at dst,
  length-drop (at + length middle) dst,
)

-- Inside the blocks a copy gives a block of the same length.
pub memcpy_inside :
    (dst : List ℕ) (at : ℕ) (src : List ℕ) (from len : ℕ)
    → from + len ≤ length src
    → at + len ≤ length dst
    → (bytes : List ℕ) × (memcpy dst at src from len ≡ some bytes) × (length bytes ≡ length dst)
memcpy_inside dst at src from len h k =
    let middle = take len (drop from src) in
    let size : length middle ≡ len =
      omega (arith, length-take len (drop from src), length-drop from src) in
    (
      _,
      memcpy_lem dst at src from len h k,
      rw size at (spliced_length dst at middle (omega (arith, size))),
    )

pub memset_inside :
    (dst : List ℕ) (at byte len : ℕ)
    → at + len ≤ length dst
    → (bytes : List ℕ) × (memset dst at byte len ≡ some bytes) × (length bytes ≡ length dst)
memset_inside dst at byte len k =
    let size = length-replicate len byte in
    (
      _,
      memset_lem dst at byte len k,
      rw size at (spliced_length dst at (replicate len byte) (omega (arith, size))),
    )

-- So does one past the end of the source.
pub memcpy_past_source :
    (dst : List ℕ) (at : ℕ) (src : List ℕ) (from len : ℕ)
    → length src < from + len
    → memcpy dst at src from len ≡ none
unfolding memcpy
memcpy_past_source dst at src from len h = ground arith
