-- ===== src/Isotp/Tests/Handshake.antt =====
-- Whole messages, and how they start, on the small inputs of Isotp.Tests.
use lwcan.Common.{ℕ, refl, List, [], arith}
use lwcan.Buffer.{buffer_new}
use lwcan.Canif.{get_by_index}
use lwcan.Isotp.Transfer.{Transferred, transfer}
use lwcan.Isotp.Conversation.{Provides, Conversation, conversation}
use lwcan.Isotp.Types.{Ctx}
use lwcan.Isotp.Tests.{
  options, can0, bus, bus-Bus, frame, message, sent_buffer, part_buffer, receiving, sending,
  idle_ctx, can_store, fresh,
}

abbrev provides : Provides bus 16 idle_ctx fresh [] can0
unfolding buffer_new get_by_index
provides = record { new = refl; room = refl; size = refl; found = refl }

conversation_example :
    Conversation bus bus options frame
      (λ e. e)
      (λ e. e)
      bus-Bus
      bus-Bus
      message
      idle_ctx
      []
      idle_ctx
      fresh
      []
conversation_example =
    conversation bus bus options frame (λ e. e) (λ e. e) bus-Bus bus-Bus message idle_ctx fresh []
      can0 idle_ctx fresh [] can0
      (record {
        classic = refl;
        no_blocks = refl;
        long = omega arith;
        short = omega arith;
        output_idle = refl;
        input_idle = refl;
        quiet = refl;
      })
      provides provides

transfer_example :
    (frames : List (List ℕ)) × (d : Ctx (List (List ℕ))) × (d' : Ctx (List (List ℕ))) × Transferred
      bus bus options frame refl
      (λ e. e)
      bus-Bus
      sending
      sent_buffer
      []
      (receiving 10)
      part_buffer
      []
      frames
      d
      d'
unfolding get_by_index
transfer_example =
    transfer bus bus options frame refl (λ e. e) bus-Bus sending can0 sent_buffer [] (receiving 10)
      part_buffer [] refl
      (record {
        state = refl;
        first = refl;
        whole = refl;
        small = omega arith;
        some_left = omega arith;
        within = omega arith;
        sn_small = omega arith;
        unlimited = λ sn small. refl;
      })
      (record { waiting = refl; can_store = can_store; sn_small = omega arith; no_blocks = refl })
      (record { sn = refl; left = refl; size = refl; got = refl })
