-- ===== src/Isotp/First.antt =====
-- A first frame of the classic build (ISOTP_CANFD 0): what `isotp_fill_ff` makes, the length that
-- `isotp_get_ff_dl` reads in it, and what `store_ff_data` takes from it.
use mathlib.Core.List.{append-nil}
use lwcan.Common.{
  ℕ, ◌+◌, ◌-◌, ◌/◌, ◌%◌, ◌^◌, ◌≤◌, ◌<◌, ◌≡◌, refl, ap, ◌∙◌, false, bit_and, bit_or, some, List, [],
  ◌∷◌, ◌++◌, arith, length, drop, drop_all, take_all, take, length-take,
}
use lwcan.Common.Bytes.{sub32-sub, bit_and_low, bit_and_whole, bit_or_nibble, bit_or_byte}
use lwcan.Can.{Frame}
use lwcan.Buffer.{Buffer, with_bytes}
use lwcan.Buffer.Laws.{piece, copy_from-two, copy_to-ok}
use lwcan.Isotp.Types.{Options, Flow}
use lwcan.Isotp.Frames.{fill_ff, get_ff_dl, store_ff_data}

-- The frame that announces `n` bytes and carries the first six
abbrev pub ff_payload : ℕ → List ℕ → List ℕ
ff_payload n bytes = (0x10 + n / 256 % 16) ∷ (n % 256) ∷ bytes

high_byte : (n : ℕ) → bit_or 0x10 (bit_and (n / 2 ^ 8 % 256) 0x0f) ≡ 0x10 + n / 256 % 16
high_byte n =
    ap (bit_or 0x10) (bit_and_low (n / 256 % 256) (omega arith))
    ∙ (bit_or_nibble 1 (n / 256 % 256 % 16) (omega arith) (omega arith) ∙ omega arith)

low_byte : (n : ℕ) → bit_and (n % 256) 0xff ≡ n % 256
low_byte n = bit_and_whole (n % 256) (omega arith)

-- What the sender's flow and the frame have to be
pub record CanFillFirst (flow : Flow) (frame : Frame) (b : Buffer) (next : List Buffer)
    : Type 0 where
  pub first : flow.buffer ≡ b ∷ next
  pub whole : flow.remaining_data ≡ length b.payload.bytes
  pub small : flow.remaining_data < 2 ^ 32
  pub long : 7 < flow.remaining_data
  pub room : length frame.payload ≡ 8

fill_ff-bytes :
    (o : Options) (flow : Flow) (frame : Frame) (b : Buffer) (next : List Buffer) (l : List ℕ)
    → o.canfd ≡ false
    → frame.payload ≡ l
    → CanFillFirst flow frame b next
    → fill_ff o flow frame
      ≡ some (
        record frame { len = 8; payload = ff_payload flow.remaining_data (piece b 0 6) },
        record flow { remaining_data = flow.remaining_data - 6 },
      )
unfolding fill_ff
fill_ff-bytes o flow frame b next [] classic ef c = absurd (omega (arith, c.room, ap length ef))
fill_ff-bytes o flow frame b next (x ∷ []) classic ef c =
    absurd (omega (arith, c.room, ap length ef))
fill_ff-bytes o flow frame b next (x ∷ y ∷ xs) classic ef c = rw (
  classic,
  ef,
  high_byte flow.remaining_data,
  low_byte flow.remaining_data,
  c.first,
  copy_from-two b next (0x10 + flow.remaining_data / 256 % 16) (flow.remaining_data % 256) xs 6
      (omega arith) (omega (arith, c.whole, c.long)) (omega (arith, c.room, ap length ef)),
  drop_all 6 xs (omega (arith, c.room, ap length ef)),
  append-nil,
  sub32-sub flow.remaining_data 6 c.small (omega (arith, c.long)),
)

-- In the classic build, for a message of more than 7 and less than 2 ^ 32 bytes, isotp_fill_ff
-- makes a frame with the length modulo 4096 and the first six bytes, and counts these off.
pub fill_ff_lem :
    (o : Options) (flow : Flow) (frame : Frame) (b : Buffer) (next : List Buffer)
    → o.canfd ≡ false
    → CanFillFirst flow frame b next
    → fill_ff o flow frame
      ≡ some (
        record frame { len = 8; payload = ff_payload flow.remaining_data (piece b 0 6) },
        record flow { remaining_data = flow.remaining_data - 6 },
      )
fill_ff_lem o flow frame b next classic c =
    fill_ff-bytes o flow frame b next frame.payload classic refl c

-- In the classic build, the length that isotp_get_ff_dl reads in the first frame of a message is
-- the message's length modulo 4096.
pub get_ff_dl_lem :
    (o : Options) (n : ℕ) (bytes : List ℕ)
    → o.canfd ≡ false
    → get_ff_dl o (ff_payload n bytes) ≡ n % 4096
unfolding get_ff_dl
get_ff_dl_lem o n bytes classic =
    rw
      (
        classic,
        bit_and_low (0x10 + n / 256 % 16) (omega arith),
        bit_or_byte ((0x10 + n / 256 % 16) % 16) (n % 256) (omega arith) (omega arith),
      )
      (omega arith)

-- In the classic build, where the buffer and the announced length are at least six bytes,
-- store_ff_data writes the six bytes of a first frame to the start of the buffer and counts them
-- off.
pub store_ff_lem :
    (o : Options) (flow : Flow) (b : Buffer) (next : List Buffer) (n : ℕ) (bytes : List ℕ)
    → o.canfd ≡ false
    → flow.buffer ≡ b ∷ next
    → length bytes ≡ 6
    → 6 ≤ length b.payload.bytes
    → 6 ≤ flow.remaining_data
    → flow.remaining_data < 2 ^ 32
    → store_ff_data o flow (ff_payload n bytes) 8
      ≡ some (record flow {
        buffer = with_bytes b (bytes ++ drop 6 b.payload.bytes) ∷ next;
        remaining_data = flow.remaining_data - 6;
      })
unfolding store_ff_data
store_ff_lem o flow b next n bytes classic eb six room enough small = rw (
  classic,
  eb,
  copy_to-ok b next (ff_payload n bytes) 2 6 (omega arith) (omega (arith, six)) room,
  take_all 6 bytes (omega (arith, six)),
  sub32-sub flow.remaining_data 6 small enough,
)

-- In the classic build, where a flow has a message of more than 7 and less than 2 ^ 32 bytes in
-- its first buffer, all of it left to send, and the frame has eight bytes: isotp_fill_ff makes a
-- frame and counts six bytes off, the length that isotp_get_ff_dl reads in this frame is the
-- message's length modulo 4096, and store_ff_data, where the receiver's first buffer and what it
-- awaits have at least six bytes and the latter is below 2 ^ 32, takes the first six bytes of the
-- message from this frame to the start of the buffer and counts them off.
pub get_ff_dl-fill_ff :
    (o : Options) (flow flow' : Flow) (frame : Frame) (b b' : Buffer) (next next' : List Buffer)
    → o.canfd ≡ false
    → CanFillFirst flow frame b next
    → flow'.buffer ≡ b' ∷ next'
    → 6 ≤ length b'.payload.bytes
    → 6 ≤ flow'.remaining_data
    → flow'.remaining_data < 2 ^ 32
    → (f : Frame) × (sent : Flow) × (fill_ff o flow frame ≡ some (f, sent))
      × (sent.remaining_data ≡ flow.remaining_data - 6)
      × (get_ff_dl o f.payload ≡ flow.remaining_data % 4096)
      × (store_ff_data o flow' f.payload f.len
          ≡ some (record flow' {
            buffer = with_bytes b' (take 6 b.payload.bytes ++ drop 6 b'.payload.bytes) ∷ next';
            remaining_data = flow'.remaining_data - 6;
          }))
get_ff_dl-fill_ff o flow flow' frame b b' next next' classic can first room enough small =
    let six : length (piece b 0 6) ≡ 6 =
      omega (arith, length-take 6 b.payload.bytes, can.whole, can.long) in
    (
      record frame { len = 8; payload = ff_payload flow.remaining_data (piece b 0 6) },
      record flow { remaining_data = flow.remaining_data - 6 },
      fill_ff_lem o flow frame b next classic can,
      refl,
      get_ff_dl_lem o flow.remaining_data (piece b 0 6) classic,
      store_ff_lem o flow' b' next' flow.remaining_data (piece b 0 6) classic first six room enough
          small,
    )
