-- ===== src/Buffer/Inside.antt =====
-- The copies of src/buffer.c and a new buffer, where they stay inside the blocks: that they do not
-- fault, and how long what they leave is.
use lwcan.Common.{
  ℕ, ◌+◌, ◌≤◌, ◌≡◌, refl, some, List, ◌∷◌, arith, length, ◌==◌, inl, inr, Bool-cases,
}
use lwcan.Common.Bytes.{memcpy_inside}
use lwcan.Can.{LwcanErr, ok, arg}
use lwcan.Buffer.{Buffer, with_bytes, copy_to, copy_to_offset, copy_from, copy_from_offset}

module _ (b : Buffer) (next : List Buffer) where
  pub copy_to_inside :
      (source : List ℕ) (from n : ℕ)
      → from + n ≤ length source
      → n ≤ length b.payload.bytes
      → (error : LwcanErr) × (bytes : List ℕ) × (copy_to (b ∷ next) source from n
          ≡ some (error, with_bytes b bytes ∷ next))
        × (length bytes ≡ length b.payload.bytes)
  unfolding copy_to
  copy_to_inside source from n p q = elim (Bool-cases (n == 0)) [
    | inl empty ↦ (arg, b.payload.bytes, rw empty refl, refl)
    | inr full ↦
        let (bytes, copied, same) =
          memcpy_inside b.payload.bytes 0 source from n p (omega (arith, q)) in
        (ok, bytes, rw (full, copied) refl, same)
  ]

  pub copy_to_offset_inside :
      (source : List ℕ) (from n offset : ℕ)
      → from + n ≤ length source
      → offset + n ≤ length b.payload.bytes
      → (error : LwcanErr) × (bytes : List ℕ) × (copy_to_offset (b ∷ next) source from n offset
          ≡ some (error, with_bytes b bytes ∷ next))
        × (length bytes ≡ length b.payload.bytes)
  unfolding copy_to_offset
  copy_to_offset_inside source from n offset p q = elim (Bool-cases (n == 0)) [
    | inl empty ↦ (arg, b.payload.bytes, rw empty refl, refl)
    | inr full ↦
        let (bytes, copied, same) = memcpy_inside b.payload.bytes offset source from n p q in
        (ok, bytes, rw (full, copied) refl, same)
  ]

  pub copy_from_inside :
      (destination : List ℕ) (at n : ℕ)
      → n ≤ length b.payload.bytes
      → at + n ≤ length destination
      → (error : LwcanErr) × (bytes : List ℕ) × (copy_from (b ∷ next) destination at n
          ≡ some (error, bytes))
        × (length bytes ≡ length destination)
  unfolding copy_from
  copy_from_inside destination at n p q = elim (Bool-cases (n == 0)) [
    | inl empty ↦ (arg, destination, rw empty refl, refl)
    | inr full ↦
        let (bytes, copied, same) =
          memcpy_inside destination at b.payload.bytes 0 n (omega (arith, p)) q in
        (ok, bytes, rw (full, copied) refl, same)
  ]

  pub copy_from_offset_inside :
      (destination : List ℕ) (at n offset : ℕ)
      → offset + n ≤ length b.payload.bytes
      → at + n ≤ length destination
      → (error : LwcanErr) × (bytes : List ℕ) × (copy_from_offset (b ∷ next) destination at n offset
          ≡ some (error, bytes))
        × (length bytes ≡ length destination)
  unfolding copy_from_offset
  copy_from_offset_inside destination at n offset p q = elim (Bool-cases (n == 0)) [
    | inl empty ↦ (arg, destination, rw empty refl, refl)
    | inr full ↦
        let (bytes, copied, same) = memcpy_inside destination at b.payload.bytes offset n p q in
        (ok, bytes, rw (full, copied) refl, same)
  ]
