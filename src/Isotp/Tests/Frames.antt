-- ===== src/Isotp/Tests/Frames.antt =====
-- The first frame of a message that is longer than a first frame can announce.
use lwcan.Common.{◌≡◌, refl, some, [], ◌∷◌, ◌++◌, take, drop, arith, replicate}
use lwcan.Can.{Frame}
use lwcan.Buffer.{Buffer, with_bytes}
use lwcan.Isotp.Types.{Flow, tx_ff, idle}
use lwcan.Isotp.Frames.{fill_ff, get_ff_dl, store_ff_data}
use lwcan.Isotp.First.{get_ff_dl-fill_ff}
use lwcan.Isotp.Tests.{options, frame, flow_at, part_buffer}

abbrev long_buffer : Buffer
long_buffer = record {
  addr = 512;
  payload = record { addr = 544; bytes = 1 ∷ 2 ∷ 3 ∷ 4 ∷ 5 ∷ 6 ∷ replicate 4094 9 };
  length = 4100;
}

abbrev announcing : Flow
announcing = flow_at tx_ff (long_buffer ∷ []) 4100 1

abbrev opening : Flow
opening = flow_at idle (part_buffer ∷ []) 16 0

get_ff_dl-fill_ff_example :
    (f : Frame) × (sent : Flow) × (fill_ff options announcing frame ≡ some (f, sent))
    × (sent.remaining_data ≡ 4094)
    × (get_ff_dl options f.payload ≡ 4)
    × (store_ff_data options opening f.payload f.len
        ≡ some (record opening {
          buffer =
              with_bytes part_buffer
                (take 6 long_buffer.payload.bytes ++ drop 6 part_buffer.payload.bytes)
              ∷ [];
          remaining_data = 10;
        }))
get_ff_dl-fill_ff_example =
    get_ff_dl-fill_ff options announcing opening frame long_buffer part_buffer [] [] refl
      (record { first = refl; whole = refl; small = omega arith; long = omega arith; room = refl })
      refl (omega arith) (omega arith) (omega arith)
