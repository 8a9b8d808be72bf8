-- ===== src/Isotp/Consecutive.antt =====
-- A consecutive frame of the classic build (ISOTP_CANFD 0): what `isotp_fill_cf` makes, and what
-- `store_cf_data` takes from it.
use lwcan.Common.{
  ℕ, ◌+◌, ◌-◌, ◌^◌, ◌≤◌, ◌<◌, ◌≡◌, refl, ap, ◌∙◌, false, bit_and, bit_or, some, List, [], ◌∷◌, ◌++◌,
  arith, length, drop, replicate, ltb, if◌then◌else◌, Bool-cases, inl, inr, lt→ltb, le→ltb, ltb→lt,
  length-take, length-drop, drop_all, ◌%◌,
}
use lwcan.Common.Bytes.{memset_rest, sub32, sub32-sub, bit_and_low, bit_or_nibble}
use lwcan.Can.{Frame}
use lwcan.Buffer.{Buffer}
use lwcan.Buffer.Laws.{piece, copy_from_offset-tail}
use lwcan.Isotp.Types.{Options, Flow, cf_sn_mask}
use lwcan.Isotp.Frames.{cf_body, fill_cf, add_padding}

-- How many bytes of the message the frame carries.
abbrev pub carried : ℕ → ℕ
carried remaining = if ltb remaining 7 then remaining else 7

-- The frame's bytes for a piece of the message
abbrev pub cf_payload : Options → ℕ → List ℕ → List ℕ
cf_payload o sn bytes = (0x20 + sn) ∷ (bytes ++ replicate (7 - length bytes) o.padding_byte)

first_byte : (sn : ℕ) → sn < 16 → bit_or 0x20 (bit_and sn cf_sn_mask) ≡ 0x20 + sn
first_byte sn h =
    ap (bit_or 0x20) (bit_and_low sn (omega arith) ∙ omega arith)
    ∙ bit_or_nibble 2 sn (omega arith) h

length-piece :
    (b : Buffer) (offset n : ℕ)
    → offset + n ≤ length b.payload.bytes
    → length (piece b offset n) ≡ n
length-piece b offset n h =
    omega (arith, length-take n (drop offset b.payload.bytes), length-drop offset b.payload.bytes)

-- What the sender's flow and the frame before it is filled have to be
pub record CanFill (flow : Flow) (frame : Frame) (b : Buffer) (next : List Buffer) : Type 0 where
  pub first : flow.buffer ≡ b ∷ next
  pub whole : b.length ≡ length b.payload.bytes
  pub small : b.length < 2 ^ 32
  pub some_left : 0 < flow.remaining_data
  pub within : flow.remaining_data ≤ b.length
  pub sn_small : flow.cf_sn < 16
  pub room : length frame.payload ≡ 8

-- The bytes of the frame: nothing is left to pad behind seven of the message,
full_tail :
    (o : Options) (bytes xs : List ℕ)
    → length bytes ≡ 7
    → length xs ≡ 7
    → bytes ++ drop 7 xs ≡ bytes ++ replicate (7 - length bytes) o.padding_byte
full_tail o bytes xs hb hx =
    let e : 7 - length bytes ≡ 0 = omega (arith, hb) in
    rw e (ap (λ l. bytes ++ l) (drop_all 7 xs (omega (arith, hx))))

-- and behind fewer the rest is padding.
last_tail :
    (o : Options) (h : ℕ) (bytes xs : List ℕ) (n : ℕ)
    → length bytes ≡ n
    → n < 7
    → length xs ≡ 7
    → add_padding o (h ∷ (bytes ++ drop n xs)) (n + 1) (sub32 8 (1 + n))
      ≡ some (h ∷ (bytes ++ replicate (7 - length bytes) o.padding_byte))
unfolding add_padding
last_tail o h bytes xs n hb hn hx =
    let e : sub32 8 (1 + n) % 256 ≡ 7 - length bytes = omega (arith, hb) in
    memset_rest (h ∷ bytes) (drop n xs) (n + 1) o.padding_byte (sub32 8 (1 + n) % 256)
      (omega (arith, hb)) (omega (arith, length-drop n xs))
    ∙ ap (λ k. some (h ∷ (bytes ++ replicate k o.padding_byte))) e

module _ (o : Options) (flow : Flow) (frame : Frame) (b : Buffer) (next : List Buffer) (x : ℕ)
    (xs : List ℕ) (c : CanFill flow frame b next) (ef : frame.payload ≡ x ∷ xs) where
  room : length xs ≡ 7
  room = omega (arith, c.room, ap length ef)

  cf_body_last :
      flow.remaining_data < 7
      → cf_body o 8 b flow frame
        ≡ some (
          record frame {
            len = 8;
            payload =
                cf_payload o flow.cf_sn
                  (piece b (b.length - flow.remaining_data) flow.remaining_data);
          },
          record flow { remaining_data = 0 },
        )
  unfolding cf_body
  cf_body_last h = rw (
    lt→ltb _ _ h,
    ef,
    first_byte flow.cf_sn c.sn_small,
    sub32-sub b.length flow.remaining_data c.small c.within,
    c.first,
    copy_from_offset-tail b next (0x20 + flow.cf_sn) xs flow.remaining_data
        (b.length - flow.remaining_data) c.some_left (omega (arith, c.whole)) (omega (arith, room)),
    last_tail o (0x20 + flow.cf_sn) (piece b (b.length - flow.remaining_data) flow.remaining_data)
        xs flow.remaining_data (length-piece b _ _ (omega (arith, c.whole))) h room,
  )

  cf_body_full :
      7 ≤ flow.remaining_data
      → cf_body o 8 b flow frame
        ≡ some (
          record frame {
            len = 8;
            payload = cf_payload o flow.cf_sn (piece b (b.length - flow.remaining_data) 7);
          },
          record flow { remaining_data = flow.remaining_data - 7 },
        )
  unfolding cf_body
  cf_body_full h = rw (
    le→ltb _ _ h,
    ef,
    first_byte flow.cf_sn c.sn_small,
    sub32-sub b.length flow.remaining_data c.small c.within,
    c.first,
    copy_from_offset-tail b next (0x20 + flow.cf_sn) xs 7 (b.length - flow.remaining_data)
        (omega arith) (omega (arith, c.whole)) (omega (arith, room)),
    sub32-sub flow.remaining_data 7 (omega (arith, c.within, c.small)) h,
    full_tail o (piece b (b.length - flow.remaining_data) 7) xs
        (length-piece b _ _ (omega (arith, c.whole, h))) room,
  )

-- What `isotp_fill_cf` is to return
abbrev pub filled : Options → Flow → Frame → Buffer → Frame × Flow
filled o flow frame b = (
  record frame {
    len = 8;
    payload =
        cf_payload o flow.cf_sn
          (piece b (b.length - flow.remaining_data) (carried flow.remaining_data));
  },
  record flow { remaining_data = flow.remaining_data - carried flow.remaining_data },
)

fill_cf-body :
    (o : Options) (flow : Flow) (frame : Frame) (b : Buffer) (next : List Buffer)
    → o.canfd ≡ false
    → flow.buffer ≡ b ∷ next
    → fill_cf o flow frame ≡ cf_body o 8 b flow frame
unfolding fill_cf
fill_cf-body o flow frame b next classic e = rw (e, fill_cf, classic, e)

cf_body-filled :
    (o : Options) (flow : Flow) (frame : Frame) (b : Buffer) (next : List Buffer) (bytes : List ℕ)
    → frame.payload ≡ bytes
    → CanFill flow frame b next
    → cf_body o 8 b flow frame ≡ some (filled o flow frame b)
cf_body-filled o flow frame b next [] ef c = absurd (omega (arith, c.room, ap length ef))
cf_body-filled o flow frame b next (x ∷ xs) ef c = elim (Bool-cases (ltb flow.remaining_data 7)) [
  | inl last ↦
      let nothing : flow.remaining_data - flow.remaining_data ≡ 0 = omega arith in
      rw (last, nothing) (cf_body_last o flow frame b next x xs c ef (ltb→lt _ _ last))
  | inr more ↦ rw more (cf_body_full o flow frame b next x xs c ef (ground arith))
]

-- In the classic build, where some of a message of less than 2 ^ 32 bytes is left and the serial
-- number is below 16, isotp_fill_cf makes a frame of eight bytes: the type and serial number, the
-- next seven bytes of the message or all that are left, and padding; and it counts these bytes
-- off.
pub fill_cf_lem :
    (o : Options) (flow : Flow) (frame : Frame) (b : Buffer) (next : List Buffer)
    → o.canfd ≡ false
    → CanFill flow frame b next
    → fill_cf o flow frame ≡ some (filled o flow frame b)
fill_cf_lem o flow frame b next classic c =
    fill_cf-body o flow frame b next classic c.first
    ∙ cf_body-filled o flow frame b next frame.payload refl c
