-- ===== src/Isotp/Tests/Bounds.antt =====
-- The lengths of frames at concrete flows of Isotp.Tests, in a build with CAN FD.
use lwcan.Common.{ℕ, ◌≡◌, refl, some, [], ◌∷◌, ◌++◌, List, ◌≤◌, arith, true, take, replicate}
use lwcan.Common.Bytes.{memcpy}
use lwcan.Can.{Frame}
use lwcan.Buffer.{copy_from_offset}
use lwcan.Isotp.Types.{Options, tx_cf}
use lwcan.Length.{can_fd_dlc2len, can_fd_len2dlc}
use lwcan.Isotp.Frames.{fill_cf, cf_body, get_padding_length}
use lwcan.Isotp.Frames.Bounds.{fill-fits, fills_cf, get_padding_length-dlc2len}
use lwcan.Isotp.Tests.{options, frame, message, sent_buffer, flow_at}

abbrev fd_options : Options
fd_options = record options { canfd = true }

abbrev fd_frame : Frame
fd_frame = record frame { payload = replicate 64 0 }

abbrev full_payload : List ℕ
full_payload = 33 ∷ (take 15 message ++ replicate 48 0)

full_filled :
    fill_cf fd_options (flow_at tx_cf (sent_buffer ∷ []) 16 1) fd_frame
    ≡ some
        (record fd_frame { len = 16; payload = full_payload }, flow_at tx_cf (sent_buffer ∷ []) 1 1)
unfolding fill_cf cf_body get_padding_length copy_from_offset memcpy
full_filled = refl

fill-fits_example : (16 ≤ 64) × (can_fd_dlc2len (can_fd_len2dlc 16) ≡ 16)
fill-fits_example =
    fill-fits fd_options (flow_at tx_cf (sent_buffer ∷ []) 16 1) fd_frame
      (record fd_frame { len = 16; payload = full_payload }, flow_at tx_cf (sent_buffer ∷ []) 1 1)
      (fills_cf full_filled)

get_padding_length-dlc2len_example : get_padding_length 13 ≡ can_fd_dlc2len (can_fd_len2dlc 13)
get_padding_length-dlc2len_example = get_padding_length-dlc2len 13 (omega arith)
