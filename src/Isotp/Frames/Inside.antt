-- ===== src/Isotp/Frames/Inside.antt =====
-- The frames of src/isotp.c, filled in both builds from a buffer that holds what is left of the
-- message: that no access leaves the frame or the buffer, and what becomes of the flow.
use lwcan.Common.{
  ℕ, ◌+◌, ◌-◌, ◌%◌, ◌^◌, ◌≤◌, ◌<◌, ◌≡◌, refl, true, false, some, List, ◌∷◌, arith, length, set,
  length-set, ltb, leb, lt→ltb, ◌&&◌, if◌then◌else◌, Bool-cases, inl, inr, bit_and, if_true,
  if_false, ◌/◌, ◌∙◌,
}
use lwcan.Common.Bytes.{every, every_lem, memset_inside, sub8, sub32, sub32-sub}
use lwcan.Can.{Frame}
use lwcan.Buffer.{Buffer}
use lwcan.Buffer.Inside.{copy_from_inside}
use lwcan.Isotp.Types.{Options, Flow, max_dlen}
use lwcan.Isotp.Frames.{
  get_padding_length, fill_sf, fill_sf_fd, fill_sf_classic, fill_ff, fill_ff_fd, fill_ff_classic,
  add_padding, or_at,
}

padding_table : every 49 (λ n. leb 8 (get_padding_length n) && leb (get_padding_length n) 64) ≡ true
unfolding every get_padding_length
padding_table = refl

read_bounds : (v : ℕ) → (leb 8 v && leb v 64) ≡ true → (8 ≤ v) × (v ≤ 64)
read_bounds v e = ground arith

pub padding_bounds : (n : ℕ) → (8 ≤ get_padding_length n) × (get_padding_length n ≤ 64)
unfolding get_padding_length
padding_bounds n = elim (Bool-cases (ltb 48 n)) [
  | inl long ↦ rw (long, get_padding_length) (omega arith)
  | inr short ↦ read_bounds _ (
      every_lem 49 (λ m. leb 8 (get_padding_length m) && leb (get_padding_length m) 64) n
        padding_table (ground arith))
]

padding_long : (n : ℕ) → 48 < n → get_padding_length n ≡ 64
unfolding get_padding_length
padding_long n h = rw (lt→ltb _ _ h) refl

module _ (o : Options) where
  pub add_padding_inside :
      (bytes : List ℕ) (at num : ℕ)
      → num < 256
      → at + num ≤ length bytes
      → (r : List ℕ) × (add_padding o bytes at num ≡ some r) × (length r ≡ length bytes)
  unfolding add_padding
  add_padding_inside bytes at num small room =
      memset_inside bytes at o.padding_byte (num % 256) (omega arith)

  module _ (flow : Flow) (frame : Frame) (b : Buffer) (next : List Buffer)
      (first : flow.buffer ≡ b ∷ next) (room : max_dlen o ≤ length frame.payload) where
    fill_sf_classic_inside :
        o.canfd ≡ false
        → flow.remaining_data ≤ 7
        → flow.remaining_data ≤ length b.payload.bytes
        → (filled : Frame) × (fill_sf_classic o flow frame
            ≡ some (filled, record flow { remaining_data = 0 }))
    unfolding fill_sf_classic
    fill_sf_classic_inside classic short whole =
        let wide : 8 ≤ length frame.payload = rw classic at room in
        let n = flow.remaining_data in
        let head = or_at (set frame.payload 0 0) 0 (bit_and n 0x0f) in
        let size : length head ≡ length frame.payload = length-set _ _ _ ∙ length-set _ _ _ in
        let (error, bytes, copied, same) =
          copy_from_inside b next head 1 n whole (omega (arith, size)) in
        let (full, padded, size') =
          add_padding_inside bytes (1 + n) (sub32 8 (1 + n)) (omega arith)
            (omega (arith, same, size)) in
        elim (Bool-cases (ltb n 7)) [
          | inl less ↦
              (record frame { len = 8; payload = full }, rw (first, copied, less, padded) refl)
          | inr all ↦ (record frame { len = 8; payload = bytes }, rw (first, copied, all) refl)
        ]

    fill_sf_fd_inside :
        o.canfd ≡ true
        → flow.remaining_data ≤ 62
        → flow.remaining_data ≤ length b.payload.bytes
        → (filled : Frame) × (fill_sf_fd o flow frame
            ≡ some (filled, record flow { remaining_data = 0 }))
    unfolding fill_sf_fd
    fill_sf_fd_inside fd short whole =
        let wide : 64 ≤ length frame.payload = rw fd at room in
        let n = flow.remaining_data in
        let len = get_padding_length n in
        let bounds = padding_bounds n in
        let head = set (set frame.payload 0 0) 1 (bit_and n 0xff) in
        let size : length head ≡ length frame.payload = length-set _ _ _ ∙ length-set _ _ _ in
        let (error, bytes, copied, same) =
          copy_from_inside b next head 2 n whole (omega (arith, size)) in
        elim (Bool-cases (ltb n (sub8 len 2))) [
          | inl less ↦
              let fits : 2 + n < len = ground (arith, bounds.0, bounds.1) in
              let (full, padded, size') =
                add_padding_inside bytes (2 + n) (sub32 len (2 + n)) (omega (arith, bounds.1))
                  (omega (arith, bounds.1, same, size)) in
              (record frame { len = len; payload = full }, rw (first, copied, less, padded) refl)
          | inr all ↦ (record frame { len = len; payload = bytes }, rw (first, copied, all) refl)
        ]

    pub fill_sf_inside :
        flow.remaining_data ≤ (if o.canfd then 62 else 7)
        → flow.remaining_data ≤ length b.payload.bytes
        → (filled : Frame) × (fill_sf o flow frame
            ≡ some (filled, record flow { remaining_data = 0 }))
    unfolding fill_sf
    fill_sf_inside short whole = elim (Bool-cases o.canfd) [
      | inl fd ↦
          let (filled, e) = fill_sf_fd_inside fd (rw fd at short) whole in
          (filled, if_true _ _ _ fd ∙ e)
      | inr classic ↦
          let (filled, e) = fill_sf_classic_inside classic (rw classic at short) whole in
          (filled, if_false _ _ _ classic ∙ e)
    ]

    fill_ff_classic_inside :
        o.canfd ≡ false
        → 7 < flow.remaining_data
        → flow.remaining_data < 2 ^ 32
        → flow.remaining_data ≤ length b.payload.bytes
        → (filled : Frame) × (fill_ff_classic o flow frame
            ≡ some (filled, record flow { remaining_data = flow.remaining_data - 6 }))
    unfolding fill_ff_classic
    fill_ff_classic_inside classic long small whole =
        let wide : 8 ≤ length frame.payload = rw classic at room in
        let n = flow.remaining_data in
        let head =
          set (or_at (set frame.payload 0 0x10) 0 (bit_and (n / 2 ^ 8 % 256) 0x0f)) 1
            (bit_and (n % 256) 0xff) in
        let size : length head ≡ length frame.payload =
          length-set _ _ _ ∙ length-set _ _ _ ∙ length-set _ _ _ in
        let (error, bytes, copied, same) =
          copy_from_inside b next head 2 6 (omega arith) (omega (arith, size)) in
        (
          record frame { len = 8; payload = bytes },
          rw (first, copied, sub32-sub n 6 small (omega arith)) refl,
        )

    fill_ff_fd_inside :
        o.canfd ≡ true
        → 62 < flow.remaining_data
        → flow.remaining_data < 2 ^ 32
        → flow.remaining_data ≤ length b.payload.bytes
        → (filled : Frame) × (fill_ff_fd o flow frame
            ≡ some (filled, record flow { remaining_data = flow.remaining_data - 58 }))
    unfolding fill_ff_fd
    fill_ff_fd_inside fd long small whole =
        let wide : 64 ≤ length frame.payload = rw fd at room in
        let n = flow.remaining_data in
        let longest : get_padding_length n ≡ 64 = padding_long n (omega arith) in
        let d = set (set frame.payload 0 0x10) 1 0 in
        let e =
          set (set d 2 (bit_and (n / 2 ^ 24 % 256) 0xff)) 3 (bit_and (n / 2 ^ 16 % 256) 0xff) in
        let head = set (set e 4 (bit_and (n / 2 ^ 8 % 256) 0xff)) 5 (bit_and (n % 256) 0xff) in
        let size : length head ≡ length frame.payload =
          length-set _ _ _
          ∙ length-set _ _ _
          ∙ length-set _ _ _
          ∙ length-set _ _ _
          ∙ length-set _ _ _
          ∙ length-set _ _ _ in
        let (error, bytes, copied, same) =
          copy_from_inside b next head 6 58 (omega arith) (omega (arith, size)) in
        (
          record frame { len = 64; payload = bytes },
          rw (longest, first, copied, sub32-sub n 58 small (omega arith)) refl,
        )

    pub fill_ff_inside :
        (if o.canfd then 62 else 7) < flow.remaining_data
        → flow.remaining_data < 2 ^ 32
        → flow.remaining_data ≤ length b.payload.bytes
        → (filled : Frame) × (rest : ℕ) × (fill_ff o flow frame
            ≡ some (filled, record flow { remaining_data = rest }))
          × (rest ≤ flow.remaining_data)
    unfolding fill_ff
    fill_ff_inside long small whole = elim (Bool-cases o.canfd) [
      | inl fd ↦
          let (filled, e) = fill_ff_fd_inside fd (rw fd at long) small whole in
          (filled, flow.remaining_data - 58, if_true _ _ _ fd ∙ e, omega arith)
      | inr classic ↦
          let (filled, e) = fill_ff_classic_inside classic (rw classic at long) small whole in
          (filled, flow.remaining_data - 6, if_false _ _ _ classic ∙ e, omega arith)
    ]
