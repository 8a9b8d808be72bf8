-- ===== src/Isotp/Frames/Stored.antt =====
-- The `store_…_data` functions of src/isotp_in.c in both builds, where a frame carries what it
-- announces: that no access leaves the frame or the buffer, and what becomes of the flow.
use lwcan.Common.{
  ℕ, ◌+◌, ◌-◌, ◌^◌, ◌≤◌, ◌<◌, ◌≡◌, refl, some, List, [], ◌∷◌, none, Option, ap, ◌∙◌, arith, length,
  ltb, ◌==◌, ◌&&◌, if◌then◌else◌, Bool-cases, inl, inr, bit_and,
}
use lwcan.Common.Bytes.{sub8, sub32, sub32-sub}
use lwcan.Can.{LwcanErr}
use lwcan.Buffer.{Buffer, with_bytes, copy_to}
use lwcan.Buffer.Inside.{copy_to_inside, copy_to_offset_inside}
use lwcan.Isotp.Types.{Options, Flow}
use lwcan.Isotp.Frames.{byte, low_mask, store_sf_data, store_ff_data, store_cf_data, store_cf_into}

module _ (o : Options) where
  -- Where the data start in a single frame and in a first frame
  abbrev pub sf_offset : List ℕ → ℕ
  sf_offset bytes = if o.canfd && (bit_and (byte bytes 0) low_mask == 0) then 2 else 1

  abbrev pub ff_offset : List ℕ → ℕ
  ff_offset bytes = if o.canfd && (bit_and (byte bytes 1) 0xff == 0) then 6 else 2

  module _ (flow : Flow) (b : Buffer) (next : List Buffer) (first : flow.buffer ≡ b ∷ next)
      (bytes : List ℕ) (len : ℕ) (room : len ≤ length bytes) where
    -- `store_sf_data`, once the copy is known
    store_sf_copied :
        (error : LwcanErr) (stored : List ℕ)
        → copy_to (b ∷ next) bytes (sf_offset bytes) flow.remaining_data
          ≡ some (error, with_bytes b stored ∷ next)
        → store_sf_data o flow bytes len
          ≡ some (record flow { buffer = with_bytes b stored ∷ next })
    unfolding store_sf_data
    store_sf_copied error stored copied =
        elim (Bool-cases (o.canfd && (bit_and (byte bytes 0) low_mask == 0))) [
          | inl long ↦ (let found = rw long at copied in rw (first, long, found) refl)
          | inr short ↦ (let found = rw short at copied in rw (first, short, found) refl)
        ]

    pub store_sf_inside :
        sf_offset bytes + flow.remaining_data ≤ len
        → flow.remaining_data ≤ length b.payload.bytes
        → (stored : List ℕ) × (store_sf_data o flow bytes len
            ≡ some (record flow { buffer = with_bytes b stored ∷ next }))
          × (length stored ≡ length b.payload.bytes)
    store_sf_inside carried whole =
        let (error, stored, copied, same) =
          copy_to_inside b next bytes (sf_offset bytes) flow.remaining_data (omega arith) whole in
        (stored, store_sf_copied error stored copied, same)

    pub store_ff_inside :
        ff_offset bytes ≤ len
        → len < 2 ^ 32
        → len - ff_offset bytes ≤ flow.remaining_data
        → flow.remaining_data < 2 ^ 32
        → flow.remaining_data ≤ length b.payload.bytes
        → (stored : List ℕ) × (rest : ℕ) × (store_ff_data o flow bytes len
            ≡ some (record flow { buffer = with_bytes b stored ∷ next; remaining_data = rest }))
          × (length stored ≡ length b.payload.bytes)
          × (rest ≤ flow.remaining_data)
    unfolding store_ff_data
    store_ff_inside starts short announced small whole =
        let n = sub32 len (ff_offset bytes) in
        let part : n ≡ len - ff_offset bytes = sub32-sub len (ff_offset bytes) short starts in
        let (error, stored, copied, same) =
          copy_to_inside b next bytes (ff_offset bytes) n (omega (arith, part))
            (omega (arith, part)) in
        (
          stored,
          sub32 flow.remaining_data n,
          rw (first, copied) refl,
          same,
          omega (arith, part, sub32-sub flow.remaining_data n small (omega (arith, part))),
        )

    store_cf_into_inside :
        0 < len
        → len < 256
        → flow.remaining_data ≤ b.length
        → b.length ≤ length b.payload.bytes
        → b.length < 2 ^ 32
        → (stored : List ℕ) × (rest : ℕ) × (store_cf_into o b flow bytes len
            ≡ some (record flow { buffer = with_bytes b stored ∷ next; remaining_data = rest }))
          × (length stored ≡ length b.payload.bytes)
          × (rest ≤ flow.remaining_data)
    unfolding store_cf_into
    store_cf_into_inside some_data short left whole small =
        let n = flow.remaining_data in
        let offset : sub32 b.length n ≡ b.length - n = sub32-sub b.length n small left in
        let one_less : sub8 len 1 ≡ len - 1 = omega arith in
        let one_less' : sub32 len 1 ≡ len - 1 = omega arith in
        elim (Bool-cases (ltb n (sub8 len 1))) [
          | inl less ↦
              let fits : n < len - 1 = ground (arith, one_less) in
              let (error, stored, copied, same) =
                copy_to_offset_inside b next bytes 1 n (sub32 b.length n) (omega arith)
                  (omega (arith, offset)) in
              (stored, 0, rw (first, less, copied) refl, same, omega arith)
          | inr more ↦
              let enough : len - 1 ≤ n = ground (arith, one_less) in
              let (error, stored, copied, same) =
                copy_to_offset_inside b next bytes 1 (sub32 len 1) (sub32 b.length n)
                  (omega (arith, one_less')) (omega (arith, offset, one_less')) in
              (
                stored,
                sub32 n (sub32 len 1),
                rw (first, more, copied) refl,
                same,
                omega (arith, one_less', sub32-sub n (sub32 len 1) (omega arith) (omega arith)),
              )
        ]

    pub store_cf_inside :
        0 < len
        → len < 256
        → flow.remaining_data ≤ b.length
        → b.length ≤ length b.payload.bytes
        → b.length < 2 ^ 32
        → (stored : List ℕ) × (rest : ℕ) × (store_cf_data o flow bytes len
            ≡ some (record flow { buffer = with_bytes b stored ∷ next; remaining_data = rest }))
          × (length stored ≡ length b.payload.bytes)
          × (rest ≤ flow.remaining_data)
    unfolding store_cf_data
    store_cf_inside some_data short left whole small =
        let (stored, rest, e, same, less) = store_cf_into_inside some_data short left whole small in
        (
          stored,
          rest,
          ap {B = Option Flow}
                (λ (l : List Buffer). elim l [
                  | [] ↦ none
                  | head ∷ behind ↦ store_cf_into o head flow bytes len
                ])
                first
              ∙ e,
          same,
          less,
        )
