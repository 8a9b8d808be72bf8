-- ===== src/Isotp/Single.antt =====
-- A single frame of the classic build: what `isotp_fill_sf` of src/isotp.c makes.
pub mod Arrival
pub mod Message
use mathlib.Core.List.{append-nil}
use lwcan.Common.{
  ℕ, ◌+◌, ◌-◌, ◌^◌, ◌%◌, ◌≤◌, ◌<◌, ◌≡◌, refl, sym, ap, ◌∙◌, Bool, false, true, bit_and, bit_or,
  Option, some, none, inl, inr, List, [], ◌∷◌, ◌++◌, arith, length, take, drop, replicate, drop_all,
  take_all, ◌>>=◌, if◌then◌else◌, ltb, ◌==◌, if_true, if_false, Bool-cases, ltb→lt, length-append,
  length-replicate, length-drop, take-append,
}
use lwcan.Common.Bytes.{sub8, sub32, bit_and_low, bit_and_high, bit_or_nibble, memset_rest}
use lwcan.Can.{LwcanErr, ok, Frame}
use lwcan.Timeouts.{out_flow_output}
use lwcan.Buffer.{Buffer, buffer_new, with_bytes, copy_to}
use lwcan.Buffer.Laws.{piece, copy_to-ok, copy_from-tail}
use lwcan.Canif.{Canif, get_by_index}
use lwcan.Isotp.Types.{
  Options, Flow, Ctx, Platform, input, output, State, idle, tx_sf, in_state, set_flow, set_state,
  start_timeout, stop_timeout,
}
use lwcan.Isotp.Frames.{fill_sf, add_padding, byte, get_sf_dl, store_sf_data}
use lwcan.Isotp.Output.{
  isotp_send, send_buffer, sf_max, blank, transmit, output_in, isotp_out_flow_output, isotp_sent,
  sent_in, finish_output,
}
use lwcan.Isotp.Input.{
  dispatch, received_sf, received_ff, received_cf, received_fc, sf_into, deliver,
}
use lwcan.Isotp.Receive.{with_payload}
use lwcan.Isotp.Rounds.{Bus, fired, send_round, transmit_ok, blank-room}
use lwcan.Isotp.Start.{copied}

-- The frame's bytes for a message
abbrev pub sf_payload : Options → List ℕ → List ℕ
sf_payload o bytes = length bytes ∷ (bytes ++ replicate (7 - length bytes) o.padding_byte)

head_byte : (n : ℕ) → n < 16 → bit_or 0 (bit_and n 0x0f) ≡ n
head_byte n h =
    ap (bit_or 0) (bit_and_low n (omega arith) ∙ omega arith)
    ∙ (bit_or_nibble 0 n (omega arith) h ∙ omega arith)

padded :
    (o : Options) (h : ℕ) (bytes xs : List ℕ)
    → length bytes < 7
    → length xs ≡ 7
    → add_padding o
        (h ∷ (bytes ++ drop (length bytes) xs))
        (1 + length bytes)
        (sub32 8 (1 + length bytes))
      ≡ some (h ∷ (bytes ++ replicate (7 - length bytes) o.padding_byte))
unfolding add_padding
padded o h bytes xs hn hx =
    let e : sub32 8 (1 + length bytes) % 256 ≡ 7 - length bytes = omega arith in
    memset_rest (h ∷ bytes) (drop (length bytes) xs) (1 + length bytes) o.padding_byte
      (sub32 8 (1 + length bytes) % 256) (omega arith)
      (omega (arith, length-drop (length bytes) xs))
    ∙ ap (λ k. some (h ∷ (bytes ++ replicate k o.padding_byte))) e

full :
    (o : Options) (h : ℕ) (bytes xs : List ℕ)
    → length bytes ≡ 7
    → length xs ≡ 7
    → h ∷ (bytes ++ drop (length bytes) xs)
      ≡ h ∷ (bytes ++ replicate (7 - length bytes) o.padding_byte)
full o h bytes xs hn hx =
    let e : 7 - length bytes ≡ 0 = omega (arith, hn) in
    rw (e, drop_all (length bytes) xs (omega arith))

-- What the sender's flow and the frame have to be
pub record CanFillSingle (flow : Flow) (frame : Frame) (b : Buffer) (next : List Buffer)
    : Type 0 where
  pub first : flow.buffer ≡ b ∷ next
  pub whole : flow.remaining_data ≡ length b.payload.bytes
  pub some_data : 0 < length b.payload.bytes
  pub short : length b.payload.bytes ≤ 7
  pub room : length frame.payload ≡ 8

fill_sf-bytes :
    (o : Options) (flow : Flow) (frame : Frame) (b : Buffer) (next : List Buffer) (l : List ℕ)
    → o.canfd ≡ false
    → frame.payload ≡ l
    → CanFillSingle flow frame b next
    → fill_sf o flow frame
      ≡ some (
        record frame { len = 8; payload = sf_payload o b.payload.bytes },
        record flow { remaining_data = 0 },
      )
unfolding fill_sf
fill_sf-bytes o flow frame b next [] classic ef c = absurd (omega (arith, c.room, ap length ef))
fill_sf-bytes o flow frame b next (x ∷ xs) classic ef c =
    let seven : length xs ≡ 7 = omega (arith, c.room, ap length ef) in
    elim (Bool-cases (ltb (length b.payload.bytes) 7)) [
      | inl less ↦ rw (
        classic,
        c.whole,
        ef,
        head_byte (length b.payload.bytes) (omega (arith, c.short)),
        c.first,
        copy_from-tail b next (length b.payload.bytes) xs (length b.payload.bytes) c.some_data
            (omega arith) (omega (arith, c.short, seven)),
        take_all (length b.payload.bytes) b.payload.bytes (omega arith),
        less,
        padded o (length b.payload.bytes) b.payload.bytes xs (ltb→lt _ _ less) seven,
      )
      | inr all ↦ rw (
        classic,
        c.whole,
        ef,
        head_byte (length b.payload.bytes) (omega (arith, c.short)),
        c.first,
        copy_from-tail b next (length b.payload.bytes) xs (length b.payload.bytes) c.some_data
            (omega arith) (omega (arith, c.short, seven)),
        take_all (length b.payload.bytes) b.payload.bytes (omega arith),
        all,
        full o (length b.payload.bytes) b.payload.bytes xs (ground (arith, c.short)) seven,
      )
    ]

-- In the classic build, for a message of one to seven bytes, isotp_fill_sf makes a frame of eight
-- bytes: the length, the message, and padding; and nothing is left to send.
pub fill_sf_lem :
    (o : Options) (flow : Flow) (frame : Frame) (b : Buffer) (next : List Buffer)
    → o.canfd ≡ false
    → CanFillSingle flow frame b next
    → fill_sf o flow frame
      ≡ some (
        record frame { len = 8; payload = sf_payload o b.payload.bytes },
        record flow { remaining_data = 0 },
      )
fill_sf_lem o flow frame b next classic c =
    fill_sf-bytes o flow frame b next frame.payload classic refl c
