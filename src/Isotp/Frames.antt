-- ===== src/Isotp/Frames.antt =====
-- The frames of src/isotp.c: `isotp_get_sf_dl`, `isotp_get_ff_dl` and the `isotp_fill_…` functions,
-- and the `store_…_data` functions of src/isotp_in.c. The builds with and without ISOTP_CANFD are
-- two cases of each. A result of `none` is an access outside a frame or a buffer.
pub mod Bounds
pub mod Inside
pub mod Later
pub mod Stored
use lwcan.Common.{
  ℕ, ◌+◌, ◌-◌, ◌*◌, ◌/◌, ◌%◌, ◌^◌, bit_and, bit_or, Option, none, some, List, [], ◌∷◌, ltb, ◌==◌,
  if◌then◌else◌, ◌>>=◌, get_or, set, replicate, ◌++◌, ◌&&◌,
}
use lwcan.Common.Bytes.{memset, sub8, sub32}
use lwcan.Can.{Frame, can_max_dlen}
use lwcan.Buffer.{Buffer, copy_to, copy_to_offset, copy_from, copy_from_offset}
use lwcan.Isotp.Types.{Options, Flow, cf_sn_mask}

-- The type of a frame, in the upper half of its first byte
abbrev pub sf : ℕ
sf = 0x00

abbrev pub ff : ℕ
ff = 0x10

abbrev pub cf : ℕ
cf = 0x20

abbrev pub fc : ℕ
fc = 0x30

abbrev pub low_mask : ℕ
low_mask = 0x0f

abbrev pub padding_length : List ℕ
padding_length =
    replicate 9 8
    ++ (replicate 4 12
        ++ (replicate 4 16
            ++ (replicate 4 20 ++ (replicate 4 24 ++ (replicate 8 32 ++ replicate 16 48)))))

unfoldable pub get_padding_length : ℕ → ℕ
get_padding_length length = if ltb 48 length then 64 else get_or padding_length length 0

-- The value of byte `i` of a frame
abbrev pub byte : List ℕ → ℕ → ℕ
byte bytes i = get_or bytes i 0

-- `data[i] |= v`
abbrev pub or_at : List ℕ → ℕ → ℕ → List ℕ
or_at bytes i v = set bytes i (bit_or (byte bytes i) v)

-- `add_padding`; `num` is a `uint8_t`.
unfoldable pub add_padding : Options → List ℕ → ℕ → ℕ → Option (List ℕ)
add_padding o bytes at num = memset bytes at o.padding_byte (num % 256)

unfoldable pub get_sf_dl : Options → List ℕ → ℕ
get_sf_dl o bytes =
    if o.canfd && (bit_and (byte bytes 0) low_mask == 0)
    then byte bytes 1
    else bit_and (byte bytes 0) low_mask

-- Of the four assignments in the CAN FD case the last one stays.
unfoldable pub get_ff_dl : Options → List ℕ → ℕ
get_ff_dl o bytes =
    if o.canfd && (byte bytes 1 == 0)
    then byte bytes 5
    else bit_or (bit_and (byte bytes 0) low_mask * 256) (byte bytes 1)

module _ (o : Options) where
  -- `isotp_fill_sf`
  fill_sf_fd : Flow → Frame → Option (Frame × Flow)
  unfolding add_padding
  fill_sf_fd flow frame = do
    let len = get_padding_length flow.remaining_data
    let remaining = flow.remaining_data
    let head = set (set frame.payload 0 sf) 1 (bit_and remaining 0xff)
    copied ← copy_from flow.buffer head 2 remaining
    filled ←
        if ltb remaining (sub8 len 2)
        then add_padding o copied.1 (2 + remaining) (sub32 len (2 + remaining))
        else some copied.1
    some (record frame { len = len; payload = filled }, record flow { remaining_data = 0 })

  fill_sf_classic : Flow → Frame → Option (Frame × Flow)
  unfolding add_padding
  fill_sf_classic flow frame = do
    let remaining = flow.remaining_data
    let head = or_at (set frame.payload 0 sf) 0 (bit_and remaining low_mask)
    copied ← copy_from flow.buffer head 1 remaining
    filled ←
        if ltb remaining (sub8 can_max_dlen 1)
        then add_padding o copied.1 (1 + remaining) (sub32 can_max_dlen (1 + remaining))
        else some copied.1
    some (record frame { len = can_max_dlen; payload = filled }, record flow { remaining_data = 0 })

  unfoldable pub fill_sf : Flow → Frame → Option (Frame × Flow)
  unfolding fill_sf_fd fill_sf_classic
  fill_sf flow frame = if o.canfd then fill_sf_fd flow frame else fill_sf_classic flow frame

  -- `isotp_fill_ff`
  fill_ff_fd : Flow → Frame → Option (Frame × Flow)
  fill_ff_fd flow frame = do
    let len = get_padding_length flow.remaining_data
    let remaining = flow.remaining_data
    let d = set (set frame.payload 0 ff) 1 0
    let e =
        set (set d 2 (bit_and (remaining / 2 ^ 24 % 256) 0xff)) 3
          (bit_and (remaining / 2 ^ 16 % 256) 0xff)
    let head =
        set (set e 4 (bit_and (remaining / 2 ^ 8 % 256) 0xff)) 5 (bit_and (remaining % 256) 0xff)
    copied ← copy_from flow.buffer head 6 (sub32 len 6)
    some (
      record frame { len = len; payload = copied.1 },
      record flow { remaining_data = sub32 remaining (sub32 len 6) },
    )

  fill_ff_classic : Flow → Frame → Option (Frame × Flow)
  fill_ff_classic flow frame = do
    let remaining = flow.remaining_data
    let d = or_at (set frame.payload 0 ff) 0 (bit_and (remaining / 2 ^ 8 % 256) low_mask)
    let head = set d 1 (bit_and (remaining % 256) 0xff)
    copied ← copy_from flow.buffer head 2 (sub32 can_max_dlen 2)
    some (
      record frame { len = can_max_dlen; payload = copied.1 },
      record flow { remaining_data = sub32 remaining (sub32 can_max_dlen 2) },
    )

  unfoldable pub fill_ff : Flow → Frame → Option (Frame × Flow)
  unfolding fill_ff_fd fill_ff_classic
  fill_ff flow frame = if o.canfd then fill_ff_fd flow frame else fill_ff_classic flow frame

  -- `isotp_fill_cf`, once the length of the frame is known. `flow->buffer->length` faults on NULL.
  unfoldable pub cf_body : ℕ → Buffer → Flow → Frame → Option (Frame × Flow)
  unfolding add_padding
  cf_body len b flow frame =
      let remaining = flow.remaining_data in
      let head = or_at (set frame.payload 0 cf) 0 (bit_and flow.cf_sn cf_sn_mask) in
      if ltb remaining (sub8 len 1)
      then (do
        copied ← copy_from_offset flow.buffer head 1 remaining (sub32 b.length remaining)
        filled ← add_padding o copied.1 (remaining + 1) (sub32 len (1 + remaining))
        some (record frame { len = len; payload = filled }, record flow { remaining_data = 0 }))
      else (do
        copied ← copy_from_offset flow.buffer head 1 (sub32 len 1) (sub32 b.length remaining)
        some (
          record frame { len = len; payload = copied.1 },
          record flow { remaining_data = sub32 remaining (sub32 len 1) },
        ))

  unfoldable pub fill_cf : Flow → Frame → Option (Frame × Flow)
  unfolding cf_body
  fill_cf flow frame = elim flow.buffer [
    | [] ↦ none
    | b ∷ next ↦
        cf_body (if o.canfd then get_padding_length flow.remaining_data else can_max_dlen) b flow
          frame
  ]

  -- `isotp_fill_fc`
  unfoldable pub fill_fc : Flow → Frame → Option (Frame × Flow)
  unfolding add_padding
  fill_fc flow frame = do
    let d = or_at (set frame.payload 0 fc) 0 (bit_and flow.fs low_mask)
    let head = set (set d 1 flow.bs) 2 flow.st
    filled ← add_padding o head 3 (can_max_dlen - 3)
    some (record frame { len = can_max_dlen; payload = filled }, flow)

  -- `store_sf_data`, `store_ff_data`, `store_cf_data`: the bytes of a frame and its `len`
  unfoldable pub store_sf_data : Flow → List ℕ → ℕ → Option Flow
  store_sf_data flow bytes length = do
    copied ←
        if o.canfd && (bit_and (byte bytes 0) low_mask == 0)
        then copy_to flow.buffer bytes 2 flow.remaining_data
        else copy_to flow.buffer bytes 1 flow.remaining_data
    some (record flow { buffer = copied.1 })

  unfoldable pub store_ff_data : Flow → List ℕ → ℕ → Option Flow
  store_ff_data flow bytes length = do
    let offset = if o.canfd && (bit_and (byte bytes 1) 0xff == 0) then 6 else 2
    copied ← copy_to flow.buffer bytes offset (sub32 length offset)
    some (record flow {
      buffer = copied.1;
      remaining_data = sub32 flow.remaining_data (sub32 length offset);
    })

  unfoldable pub store_cf_into : Buffer → Flow → List ℕ → ℕ → Option Flow
  store_cf_into b flow bytes length =
      let remaining = flow.remaining_data in
      if ltb remaining (sub8 length 1)
      then (do
        copied ← copy_to_offset flow.buffer bytes 1 remaining (sub32 b.length remaining)
        some (record flow { buffer = copied.1; remaining_data = 0 }))
      else (do
        copied ← copy_to_offset flow.buffer bytes 1 (sub32 length 1) (sub32 b.length remaining)
        some (record flow { buffer = copied.1; remaining_data = sub32 remaining (sub32 length 1) }))

  unfoldable pub store_cf_data : Flow → List ℕ → ℕ → Option Flow
  unfolding store_cf_into
  store_cf_data flow bytes length = elim flow.buffer [
    | [] ↦ none
    | b ∷ next ↦ store_cf_into b flow bytes length
  ]
