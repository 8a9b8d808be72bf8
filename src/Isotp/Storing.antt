-- ===== src/Isotp/Storing.antt =====
-- A consecutive frame of the classic build at the receiver: what `store_cf_data` of
-- src/isotp_in.c takes from it.
use lwcan.Common.{
  ℕ, ◌+◌, ◌-◌, ◌^◌, ◌≤◌, ◌<◌, ◌≡◌, sym, ◌∙◌, some, List, ◌∷◌, ◌++◌, arith, length, take, drop,
  replicate, ltb, Bool-cases, inl, inr, ltb→lt, length-append, length-replicate, take-append,
}
use lwcan.Common.Bytes.{sub32-sub}
use lwcan.Can.{ok}
use lwcan.Buffer.{Buffer, copy_to_offset, with_bytes}
use lwcan.Buffer.Laws.{copy_to_offset-ok}
use lwcan.Isotp.Types.{Options, Flow}
use lwcan.Isotp.Frames.{store_cf_data, store_cf_into}
use lwcan.Isotp.Consecutive.{carried, cf_payload}

-- What the receiver's flow has to be
pub record CanStore (flow : Flow) (b : Buffer) (next : List Buffer) : Type 0 where
  pub first : flow.buffer ≡ b ∷ next
  pub whole : b.length ≡ length b.payload.bytes
  pub small : b.length < 2 ^ 32
  pub some_left : 0 < flow.remaining_data
  pub within : flow.remaining_data ≤ b.length

-- A block with a piece written over it at an offset
abbrev pub overwrite : List ℕ → ℕ → List ℕ → List ℕ
overwrite old offset bytes = take offset old ++ (bytes ++ drop (offset + length bytes) old)

store_copy :
    (o : Options) (b : Buffer) (next : List Buffer) (sn : ℕ) (bytes : List ℕ) (n offset : ℕ)
    → length bytes ≡ n
    → 0 < n
    → n ≤ 7
    → offset + n ≤ length b.payload.bytes
    → copy_to_offset (b ∷ next) (cf_payload o sn bytes) 1 n offset
      ≡ some (ok, with_bytes b (overwrite b.payload.bytes offset bytes) ∷ next)
store_copy o b next sn bytes n offset e pos small within =
    copy_to_offset-ok b next (cf_payload o sn bytes) 1 n offset pos
      (omega (
        arith,
        e,
        length-append bytes (replicate (7 - length bytes) o.padding_byte),
        length-replicate (7 - length bytes) o.padding_byte,
      ))
      within
    ∙ rw (take-append n bytes (replicate (7 - length bytes) o.padding_byte) (sym e), e)

store_cf_into_lem :
    (o : Options) (flow : Flow) (b : Buffer) (next : List Buffer) (sn : ℕ) (bytes : List ℕ)
    → CanStore flow b next
    → length bytes ≡ carried flow.remaining_data
    → store_cf_into o b flow (cf_payload o sn bytes) 8
      ≡ some (record flow {
        buffer =
            with_bytes b (overwrite b.payload.bytes (b.length - flow.remaining_data) bytes) ∷ next;
        remaining_data = flow.remaining_data - length bytes;
      })
unfolding store_cf_into
store_cf_into_lem o flow b next sn bytes c e = elim (Bool-cases (ltb flow.remaining_data 7)) [
  | inl last ↦
      let all : length bytes ≡ flow.remaining_data = rw last at e in
      let nothing : flow.remaining_data - length bytes ≡ 0 = omega (arith, all) in
      rw (
        last,
        nothing,
        c.first,
        sub32-sub b.length flow.remaining_data c.small c.within,
        store_copy o b next sn bytes flow.remaining_data (b.length - flow.remaining_data) all
            c.some_left (omega (arith, ltb→lt _ _ last)) (omega (arith, c.whole, c.within)),
      )
  | inr more ↦
      let seven : length bytes ≡ 7 = rw more at e in
      let enough : 7 ≤ flow.remaining_data = ground arith in
      rw (
        more,
        c.first,
        sub32-sub b.length flow.remaining_data c.small c.within,
        sub32-sub flow.remaining_data 7 (omega (arith, c.within, c.small)) enough,
        store_copy o b next sn bytes 7 (b.length - flow.remaining_data) seven (omega arith)
            (omega arith) (omega (arith, c.whole, c.within, enough)),
        seven,
      )
]

-- store_cf_data takes as many bytes as are missing, and seven at most, out of a consecutive frame,
-- writes them behind what has been received without touching other bytes of the buffer, and counts
-- them off.
pub store_cf_lem :
    (o : Options) (flow : Flow) (b : Buffer) (next : List Buffer) (sn : ℕ) (bytes : List ℕ)
    → CanStore flow b next
    → length bytes ≡ carried flow.remaining_data
    → store_cf_data o flow (cf_payload o sn bytes) 8
      ≡ some (record flow {
        buffer =
            with_bytes b (overwrite b.payload.bytes (b.length - flow.remaining_data) bytes) ∷ next;
        remaining_data = flow.remaining_data - length bytes;
      })
unfolding store_cf_data
store_cf_lem o flow b next sn bytes c e =
    rw (c.first, store_cf_data) (store_cf_into_lem o flow b next sn bytes c e)
