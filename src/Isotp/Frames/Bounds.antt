-- ===== src/Isotp/Frames/Bounds.antt =====
-- How long the frames are that src/isotp.c fills, in both builds, against the table of
-- `get_padding_length` and the DLC tables of src/length.c.
use lwcan.Common.{
  ℕ, ◌≤◌, ◌≡◌, refl, ◌∙◌, true, Bool, some, arith, leb, ltb, ◌&&◌, if◌then◌else◌, Bool-cases, inl,
  inr, if_true, if_false, ◌==◌, ==_iff,
}
use lwcan.Common.Bytes.{every, every_lem}
use lwcan.Can.{Frame}
use lwcan.Length.{can_fd_dlc2len, can_fd_len2dlc}
use lwcan.Isotp.Types.{Options, Flow, max_dlen}
use lwcan.Isotp.Frames.{
  get_padding_length, fill_sf, fill_sf_fd, fill_sf_classic, fill_ff, fill_ff_fd, fill_ff_classic,
  cf_body, fill_cf, fill_fc,
}

-- Eight bytes at least, else the length of the DLC of `n`
abbrev dlc_room : ℕ → ℕ
dlc_room n = if ltb n 8 then 8 else can_fd_dlc2len (can_fd_len2dlc n)

agrees_table : every 65 (λ n. get_padding_length n == dlc_room n) ≡ true
unfolding every get_padding_length can_fd_dlc2len can_fd_len2dlc
agrees_table = refl

-- For at most 64 bytes get_padding_length gives 8 below 8 bytes, and otherwise the length of the
-- DLC that can_fd_len2dlc gives: the table of isotp.c agrees with the two tables of length.c.
pub get_padding_length-dlc2len :
    (n : ℕ)
    → n ≤ 64
    → get_padding_length n ≡ (if ltb n 8 then 8 else can_fd_dlc2len (can_fd_len2dlc n))
get_padding_length-dlc2len n h =
    (==_iff _ _).0
      (every_lem 65 (λ n. get_padding_length n == dlc_room n) n agrees_table (omega arith))

-- A length that a frame of a build can have: that of a DLC
abbrev is_dlc_length : ℕ → Bool
is_dlc_length n = can_fd_dlc2len (can_fd_len2dlc n) == n

table_lengths :
    every 49 (λ n. leb (get_padding_length n) 64 && is_dlc_length (get_padding_length n)) ≡ true
unfolding every get_padding_length can_fd_dlc2len can_fd_len2dlc
table_lengths = refl

get_padding_length_fits :
    (n : ℕ) → (leb (get_padding_length n) 64 && is_dlc_length (get_padding_length n)) ≡ true
unfolding get_padding_length can_fd_dlc2len can_fd_len2dlc
get_padding_length_fits n = elim (Bool-cases (ltb 48 n)) [
  | inl long ↦ rw (long, get_padding_length) refl
  | inr short ↦
      every_lem 49 (λ m. leb (get_padding_length m) 64 && is_dlc_length (get_padding_length m)) n
        table_lengths (ground arith)
]

module _ (o : Options) where
  -- The frames and flows that the four functions leave
  pub data Fills (flow : Flow) (frame : Frame) : Frame × Flow → Type 0 where
    fills_sf : {r : Frame × Flow} → fill_sf o flow frame ≡ some r → Fills flow frame r
    fills_ff : {r : Frame × Flow} → fill_ff o flow frame ≡ some r → Fills flow frame r
    fills_cf : {r : Frame × Flow} → fill_cf o flow frame ≡ some r → Fills flow frame r
    fills_fc : {r : Frame × Flow} → fill_fc o flow frame ≡ some r → Fills flow frame r

  FitsIn : ℕ → Type 0
  FitsIn len = (len ≤ max_dlen o) × (can_fd_dlc2len (can_fd_len2dlc len) ≡ len)

  classic_fits : FitsIn 8
  unfolding FitsIn can_fd_dlc2len can_fd_len2dlc
  classic_fits = (
    elim (Bool-cases o.canfd) [
      | inl fd ↦ rw fd (omega arith)
      | inr classic ↦ rw classic (omega arith)
    ],
    refl,
  )

  padded_fits : (n : ℕ) → o.canfd ≡ true → FitsIn (get_padding_length n)
  unfolding FitsIn
  padded_fits n fd = (let fits = get_padding_length_fits n in (rw fd (ground arith), ground arith))

  fill_fc-len :
      (flow : Flow) (frame : Frame) (r : Frame × Flow) → fill_fc o flow frame ≡ some r → r.0.len ≡ 8
  unfolding fill_fc
  fill_fc-len flow frame r filled = ground arith

  fill_sf-len :
      (flow : Flow) (frame : Frame) (r : Frame × Flow)
      → fill_sf o flow frame ≡ some r
      → r.0.len ≡ (if o.canfd then get_padding_length flow.remaining_data else 8)
  unfolding fill_sf fill_sf_fd fill_sf_classic
  fill_sf-len flow frame r filled = ground arith

  fill_ff-len :
      (flow : Flow) (frame : Frame) (r : Frame × Flow)
      → fill_ff o flow frame ≡ some r
      → r.0.len ≡ (if o.canfd then get_padding_length flow.remaining_data else 8)
  unfolding fill_ff fill_ff_fd fill_ff_classic
  fill_ff-len flow frame r filled = ground arith

  fill_cf-len :
      (flow : Flow) (frame : Frame) (r : Frame × Flow)
      → fill_cf o flow frame ≡ some r
      → r.0.len ≡ (if o.canfd then get_padding_length flow.remaining_data else 8)
  unfolding fill_cf cf_body
  fill_cf-len flow frame r filled = ground arith

  len_fits : (n len : ℕ) → len ≡ (if o.canfd then get_padding_length n else 8) → FitsIn len
  len_fits n len built = elim (Bool-cases o.canfd) [
    | inl fd ↦ (let same = built ∙ if_true _ _ _ fd in rw same (padded_fits n fd))
    | inr classic ↦ (let same = built ∙ if_false _ _ _ classic in rw same classic_fits)
  ]

  -- In both builds, a frame that isotp_fill_sf, isotp_fill_ff, isotp_fill_cf or isotp_fill_fc
  -- fills is at most as long as the build's frames can be, 64 bytes with CAN FD and 8 without, and
  -- its length is that of a DLC: turning it into a DLC and back gives the same length.
  pub fill-fits :
      (flow : Flow) (frame : Frame) (r : Frame × Flow)
      → Fills flow frame r
      → (r.0.len ≤ max_dlen o) × (can_fd_dlc2len (can_fd_len2dlc r.0.len) ≡ r.0.len)
  unfolding FitsIn
  fill-fits flow frame r (fills_sf filled) = len_fits _ _ (fill_sf-len flow frame r filled)
  fill-fits flow frame r (fills_ff filled) = len_fits _ _ (fill_ff-len flow frame r filled)
  fill-fits flow frame r (fills_cf filled) = len_fits _ _ (fill_cf-len flow frame r filled)
  fill-fits flow frame r (fills_fc filled) = rw (fill_fc-len flow frame r filled) classic_fits
