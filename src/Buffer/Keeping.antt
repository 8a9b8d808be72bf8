-- ===== src/Buffer/Keeping.antt =====
-- src/buffer.c: what a new buffer has, and what creation and deletion leave alone where the heap
-- does.
use lwcan.Common.{
  ℕ, ◌≤◌, ◌≡◌, ◌⊎◌, refl, ap, sym, ◌∙◌, inl, inr, Option, none, some, ◌==◌, length, Bool-cases,
  arith,
}
use lwcan.Buffer.{Alloc, Block, Buffer, buffer_new, buffer_delete, with_struct, with_payload}

-- A pair with an option in front is one of two.
Result-cases :
    {A B : Type 0} (r : Option A × B)
    → ((b : B) × (r ≡ (none, b))) ⊎ ((a : A) × (b : B) × (r ≡ (some a, b)))
Result-cases (none, b) = inl (b, refl)
Result-cases (some a, b) = inr (a, b, refl)

-- What the heap leaves alone
pub record HeapKeeps {Ext S : Type 0} (al : Alloc Ext) (get : Ext → S) : Type 0 where
  pub malloc : (n : ℕ) (e : Ext) → get (al.malloc n e).1 ≡ get e
  pub free : (addr : ℕ) (e : Ext) → get (al.free addr e) ≡ get e

-- A block is as large as was asked for.
abbrev pub GivesRoom : {Ext : Type 0} → Alloc Ext → Type 0
GivesRoom {Ext} al =
    (n : ℕ) (e : Ext) (b : Block) (e' : Ext) → al.malloc n e ≡ (some b, e') → n ≤ length b.bytes

module _ {Ext S : Type 0} (al : Alloc Ext) (get : Ext → S) (keeps : HeapKeeps al get)
    (room : GivesRoom al) where
  -- A new buffer has room for the message, and what the heap leaves alone is as it was.
  pub buffer_new-cases :
      (n : ℕ) (e : Ext)
      → ((e' : Ext) × (buffer_new al n e ≡ (none, e')) × (get e' ≡ get e))
        ⊎ ((b : Buffer) × (e' : Ext) × (buffer_new al n e ≡ (some b, e'))
            × (n ≤ length b.payload.bytes)
            × (get e' ≡ get e))
  unfolding buffer_new with_struct with_payload
  buffer_new-cases n e = elim (Bool-cases (n == 0)) [
    | inl empty ↦ inl (e, rw empty refl, refl)
    | inr some_bytes ↦ elim (Result-cases (al.malloc al.buffer_size e)) [
      | inl (e₁, m₁) ↦ inl (
        e₁,
        rw (some_bytes, m₁, with_struct) refl,
        ap (λ r. get r.1) (sym m₁) ∙ keeps.malloc al.buffer_size e,
      )
      | inr (b₁, e₁, m₁) ↦
          let kept : get e₁ ≡ get e = ap (λ r. get r.1) (sym m₁) ∙ keeps.malloc al.buffer_size e in
          elim (Result-cases (al.malloc n e₁)) [
            | inl (e₂, m₂) ↦ inl (
              al.free b₁.addr e₂,
              rw (some_bytes, m₁, with_struct, m₂, with_payload) refl,
              keeps.free b₁.addr e₂ ∙ ap (λ r. get r.1) (sym m₂) ∙ keeps.malloc n e₁ ∙ kept,
            )
            | inr (b₂, e₂, m₂) ↦ inr (
              record { addr = b₁.addr; payload = b₂; length = n },
              e₂,
              rw (some_bytes, m₁, with_struct, m₂, with_payload) refl,
              room n e₁ b₂ e₂ m₂,
              ap (λ r. get r.1) (sym m₂) ∙ keeps.malloc n e₁ ∙ kept,
            )
          ]
    ]
  ]

  pub buffer_delete-keeps : (b : Buffer) (e : Ext) → get (buffer_delete al b e) ≡ get e
  unfolding buffer_delete
  buffer_delete-keeps b e = keeps.free b.addr _ ∙ keeps.free b.payload.addr e

-- A new buffer has the length that was asked for.
pub buffer_new-length :
    {Ext : Type 0} (al : Alloc Ext) (n : ℕ) (e : Ext) (b : Buffer) (e' : Ext)
    → buffer_new al n e ≡ (some b, e')
    → b.length ≡ n
unfolding buffer_new with_struct with_payload
buffer_new-length al n e b e' made = ground arith

-- What the heap's calls keep of what is outside, a new buffer keeps.
module _ {Ext : Type 0} (al : Alloc Ext) (P : Ext → Type 0)
    (mallocs : (n : ℕ) (e : Ext) → P e → P (al.malloc n e).1)
    (frees : (addr : ℕ) (e : Ext) → P e → P (al.free addr e)) where
  with_payload-kept :
      (n : ℕ) (b : Block) (r : Option Block × Ext) → P r.1 → P (with_payload al n b r).1
  unfolding with_payload
  with_payload-kept n b (none, e) kept = frees b.addr e kept
  with_payload-kept n b (some payload, e) kept = kept

  with_struct-kept : (n : ℕ) (r : Option Block × Ext) → P r.1 → P (with_struct al n r).1
  unfolding with_struct
  with_struct-kept n (none, e) kept = kept
  with_struct-kept n (some b, e) kept = with_payload-kept n b (al.malloc n e) (mallocs n e kept)

  pub buffer_new-kept :
      (n : ℕ) (e : Ext) (r : Option Buffer) (e' : Ext) → buffer_new al n e ≡ (r, e') → P e → P e'
  unfolding buffer_new
  buffer_new-kept n e r e' made kept = elim (Bool-cases (n == 0)) [
    | inl empty ↦ rw (sym (ap (λ (q : Option Buffer × Ext). q.1) made)) (rw empty kept)
    | inr full ↦
        rw (sym (ap (λ (q : Option Buffer × Ext). q.1) made)) (
          rw full (with_struct-kept n (al.malloc al.buffer_size e) (mallocs al.buffer_size e kept)))
  ]
