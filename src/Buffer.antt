-- ===== src/Buffer.antt =====
-- src/buffer.c: the buffers that hold a message while it is sent or received. A pointer to a
-- buffer stands for the chain that its `next` pointers lead through: `[]` is NULL. The allocator
-- of src/memory.c is a parameter, `Alloc`. A call returns `none` where the C code would read or
-- write outside a block. A source or destination is never NULL here: its callers pass a frame's
-- bytes, or have checked.
pub mod Laws
pub mod Keeping
pub mod Inside
use lwcan.Common.{ℕ, Option, none, some, List, [], ◌∷◌, ◌==◌, if◌then◌else◌, ◌>>=◌}
use lwcan.Common.Bytes.{memcpy}
use lwcan.Can.{LwcanErr, ok, arg}

-- What `lwcan_malloc` returns: an address, and the bytes there, whatever they hold.
pub record Block : Type 0 where
  pub addr : ℕ
  pub bytes : List ℕ

-- `lwcan_malloc`, `lwcan_free` and `sizeof(struct lwcan_buffer)`. The heap is part of what is
-- outside the model, `Ext`.
pub record Alloc (Ext : Type 0) : Type 0 where
  pub malloc : ℕ → Ext → Option Block × Ext
  pub free : ℕ → Ext → Ext
  pub buffer_size : ℕ

-- `struct lwcan_buffer` at the address `addr`; `payload` is the block that its pointer leads to.
pub record Buffer : Type 0 where
  pub addr : ℕ
  pub payload : Block
  pub length : ℕ

module _ {Ext : Type 0} (al : Alloc Ext) where
  with_payload : ℕ → Block → Option Block × Ext → Option Buffer × Ext
  with_payload length buffer (none, e) = (none, al.free buffer.addr e)
  with_payload length buffer (some payload, e) =
      (some (record { addr = buffer.addr; payload = payload; length = length }), e)

  with_struct : ℕ → Option Block × Ext → Option Buffer × Ext
  unfolding with_payload
  with_struct length (none, e) = (none, e)
  with_struct length (some buffer, e) = with_payload length buffer (al.malloc length e)

  unfoldable pub buffer_new : ℕ → Ext → Option Buffer × Ext
  unfolding with_struct
  buffer_new length e =
      if length == 0 then (none, e) else with_struct length (al.malloc al.buffer_size e)

  unfoldable pub buffer_delete : Buffer → Ext → Ext
  buffer_delete b e = al.free b.addr (al.free b.payload.addr e)

abbrev pub with_bytes : Buffer → List ℕ → Buffer
with_bytes b bytes = record b { payload = record { addr = b.payload.addr; bytes = bytes } }

-- From `source + from`, `length` bytes.
unfoldable pub copy_to : List Buffer → List ℕ → ℕ → ℕ → Option (LwcanErr × List Buffer)
copy_to [] source from length = some (arg, [])
copy_to (b ∷ next) source from length =
    if length == 0
    then some (arg, b ∷ next)
    else (memcpy b.payload.bytes 0 source from length >>= λ bytes.
        some (ok, with_bytes b bytes ∷ next))

unfoldable pub copy_to_offset : List Buffer → List ℕ → ℕ → ℕ → ℕ → Option (LwcanErr × List Buffer)
copy_to_offset [] source from length offset = some (arg, [])
copy_to_offset (b ∷ next) source from length offset =
    if length == 0
    then some (arg, b ∷ next)
    else (memcpy b.payload.bytes offset source from length >>= λ bytes.
        some (ok, with_bytes b bytes ∷ next))

-- To `destination + at`, `length` bytes.
unfoldable pub copy_from : List Buffer → List ℕ → ℕ → ℕ → Option (LwcanErr × List ℕ)
copy_from [] destination at length = some (arg, destination)
copy_from (b ∷ next) destination at length =
    if length == 0
    then some (arg, destination)
    else (memcpy destination at b.payload.bytes 0 length >>= λ bytes. some (ok, bytes))

unfoldable pub copy_from_offset : List Buffer → List ℕ → ℕ → ℕ → ℕ → Option (LwcanErr × List ℕ)
copy_from_offset [] destination at length offset = some (arg, destination)
copy_from_offset (b ∷ next) destination at length offset =
    if length == 0
    then some (arg, destination)
    else (memcpy destination at b.payload.bytes offset length >>= λ bytes. some (ok, bytes))
