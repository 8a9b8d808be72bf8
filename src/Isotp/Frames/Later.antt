-- ===== src/Isotp/Frames/Later.antt =====
-- Consecutive frames and flow control frames of src/isotp.c, filled in both builds: that no access
-- leaves the frame or the buffer, and what becomes of the flow.
use lwcan.Common.{
  ℕ, ◌+◌, ◌-◌, ◌^◌, ◌≤◌, ◌<◌, ◌≡◌, refl, Option, some, List, [], ◌∷◌, none, ap, arith, length, set,
  length-set, ltb, if◌then◌else◌, Bool-cases, inl, inr, bit_and, ◌∙◌,
}
use lwcan.Common.Bytes.{sub8, sub32, sub32-sub}
use lwcan.Can.{Frame}
use lwcan.Buffer.{Buffer}
use lwcan.Buffer.Inside.{copy_from_offset_inside}
use lwcan.Isotp.Types.{Options, Flow, max_dlen}
use lwcan.Isotp.Frames.{get_padding_length, cf_body, fill_cf, fill_fc, or_at}
use lwcan.Isotp.Frames.Inside.{padding_bounds, add_padding_inside}

eight : (o : Options) → 8 ≤ max_dlen o
eight o = elim (Bool-cases o.canfd) [
  | inl fd ↦ rw fd (omega arith)
  | inr classic ↦ rw classic (omega arith)
]

cf_len_bounds :
    (o : Options) (n : ℕ)
    → (8 ≤ (if o.canfd then get_padding_length n else 8))
      × ((if o.canfd then get_padding_length n else 8) ≤ 64)
      × ((if o.canfd then get_padding_length n else 8) ≤ max_dlen o)
cf_len_bounds o n = elim (Bool-cases o.canfd) [
  | inl fd ↦ rw fd ((padding_bounds n).0, (padding_bounds n).1, (padding_bounds n).1)
  | inr classic ↦ rw classic (omega arith, omega arith, omega arith)
]

module _ (o : Options) where
  module _ (flow : Flow) (frame : Frame) (b : Buffer) (next : List Buffer)
      (first : flow.buffer ≡ b ∷ next) (room : max_dlen o ≤ length frame.payload) where
    cf_body_inside :
        (len : ℕ)
        → 8 ≤ len
        → len ≤ 64
        → len ≤ max_dlen o
        → flow.remaining_data ≤ b.length
        → b.length ≤ length b.payload.bytes
        → b.length < 2 ^ 32
        → (filled : Frame) × (rest : ℕ) × (cf_body o len b flow frame
            ≡ some (filled, record flow { remaining_data = rest }))
          × (rest ≤ flow.remaining_data)
    unfolding cf_body
    cf_body_inside len low high fits left whole small =
        let n = flow.remaining_data in
        let head = or_at (set frame.payload 0 0x20) 0 (bit_and flow.cf_sn 0x0f) in
        let size : length head ≡ length frame.payload = length-set _ _ _ ∙ length-set _ _ _ in
        let offset : sub32 b.length n ≡ b.length - n = sub32-sub b.length n small left in
        elim (Bool-cases (ltb n (sub8 len 1))) [
          | inl less ↦
              let fits' : 1 + n < len = ground (arith, low, high) in
              let (error, bytes, copied, same) =
                copy_from_offset_inside b next head 1 n (sub32 b.length n)
                  (omega (arith, whole, offset)) (omega (arith, size)) in
              let (full, padded, size') =
                add_padding_inside o bytes (n + 1) (sub32 len (1 + n)) (omega arith)
                  (omega (arith, same, size)) in
              (
                record frame { len = len; payload = full },
                0,
                rw (first, less, copied, padded) refl,
                omega arith,
              )
          | inr more ↦
              let enough : len - 1 ≤ n = ground (arith, low, high) in
              let one_less : sub32 len 1 ≡ len - 1 = omega arith in
              let (error, bytes, copied, same) =
                copy_from_offset_inside b next head 1 (sub32 len 1) (sub32 b.length n)
                  (omega (arith, whole, offset, one_less)) (omega (arith, size, one_less)) in
              (
                record frame { len = len; payload = bytes },
                sub32 n (sub32 len 1),
                rw (first, more, copied) refl,
                omega (
                  arith,
                  one_less,
                  enough,
                  sub32-sub n (sub32 len 1) (omega arith) (omega arith),
                ),
              )
        ]

    pub fill_cf_inside :
        flow.remaining_data ≤ b.length
        → b.length ≤ length b.payload.bytes
        → b.length < 2 ^ 32
        → (filled : Frame) × (rest : ℕ) × (fill_cf o flow frame
            ≡ some (filled, record flow { remaining_data = rest }))
          × (rest ≤ flow.remaining_data)
    unfolding fill_cf
    fill_cf_inside left whole small =
        let len = if o.canfd then get_padding_length flow.remaining_data else 8 in
        let bounds = cf_len_bounds o flow.remaining_data in
        let (filled, rest, e, less) =
          cf_body_inside len bounds.0 bounds.1 bounds.2 left whole small in
        (
          filled,
          rest,
          ap {B = Option (Frame × Flow)}
                (λ (l : List Buffer). elim l [
                  | [] ↦ none
                  | first ∷ behind ↦ cf_body o len first flow frame
                ])
                first
              ∙ e,
          less,
        )

  pub fill_fc_inside :
      (flow : Flow) (frame : Frame)
      → max_dlen o ≤ length frame.payload
      → (filled : Frame) × (fill_fc o flow frame ≡ some (filled, flow))
  unfolding fill_fc
  fill_fc_inside flow frame room =
      let wide : 8 ≤ max_dlen o = eight o in
      let d = or_at (set frame.payload 0 0x30) 0 (bit_and flow.fs 0x0f) in
      let head = set (set d 1 flow.bs) 2 flow.st in
      let size : length head ≡ length frame.payload =
        length-set _ _ _ ∙ length-set _ _ _ ∙ length-set _ _ _ ∙ length-set _ _ _ in
      let (full, padded, size') =
        add_padding_inside o head 3 5 (omega arith) (omega (arith, size)) in
      (record frame { len = 8; payload = full }, rw padded refl)
