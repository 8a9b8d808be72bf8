-- ===== src/Lib.antt =====
-- lwcan, a CAN and ISO-TP stack for small targets: a model of its parts, and what holds of them.
--
-- The program. A driver registers an interface (src/canif.c) and hands it the frames that arrive.
-- `canif_input` offers a frame to the raw connections (src/raw.c), and what none of them eats to the
-- ISO-TP layer. An ISO-TP connection (src/isotp.c) has an output flow and an input flow, two state
-- machines. `isotp_send` copies a message to a buffer (src/buffer.c) and starts a timeout
-- (src/timeouts.c) that outputs the frames one by one through an interface; the driver reports each
-- frame through `isotp_sent`, which registers the next timeout (src/isotp_out.c). Frames that arrive
-- are dispatched on their type to the handlers of src/isotp_in.c, which store the parts of a
-- message, answer with flow control frames, and deliver the whole message to a callback. The UDS
-- client (src/apps/uds/uds_client.c) is such a callback's owner: it sends requests over one ISO-TP
-- connection and awaits their responses under its own timers.
--
-- The model.
--   Common, Can     shared names, lists, bytes and bits; include/lwcan/error.h, can.h
--   Pool            the chunk pools (`timeout_malloc`, `timeout_free`, and their copies in
--                   src/isotp.c and src/raw.c). Slots: a list of control blocks in a pool, which
--                   both kinds of connections are. Calls: a call on one block of such a list.
--                   Filling: chunks and blocks that are given out one after the other.
--   Timeouts        src/timeouts.c. The list of timeouts is a list; an entry knows its chunk.
--                   Order, Chunks, Untimeout, Expiry, Pending and Filling prove what they are named for;
--                   Calls is about any sequence of calls.
--   Buffer          src/buffer.c. A chain of buffers is a list; a copy outside a block is `none`.
--   Canif           src/canif.c. Registry: `canif_add`, `canif_remove`, the names and the driver's
--                   calls. Numbering, Registered, Again: proofs about them.
--   Raw             src/raw.c. Receiving, Sending, Calls: proofs about it.
--   Length          src/length.c
--   Isotp.Types     include/lwcan/isotp.h: a connection, its flows, the options, the platform
--   Isotp.Frames    src/isotp.c: `isotp_fill_...`, `isotp_get_...`; and `store_..._data`
--   Isotp.Output    src/isotp_out.c     Isotp.Input   src/isotp_in.c
--   Isotp.Connections   src/isotp.c: `isotp_new`, `isotp_bind`, `isotp_remove`, the setters.
--                   Isotp.Calls is about any sequence of these.
--   Isotp.Layer     `isotp_input` of src/isotp_in.c, over the list of connections
--   Isotp.Safety    when a connection is safe, what is asked of its surroundings, and, in Events,
--                   all that can happen to it. Together, Layered and Reached are about several
--                   connections with common timeouts, heap and drivers, and their events in any
--                   order. Its other modules prove that each handler does not fault and leaves its
--                   connection safe, on the lemmas of Buffer.Inside and Isotp.Frames.Inside, Later
--                   and Stored.
--   Isotp.Unsafe    where a connection is not safe, or comes to a stop
--   Isotp.Frames.Bounds  how long the frames are that are filled, against the DLC tables
--   Isotp.Consecutive, Storing, First, Receive, Message, Rounds, Send, Start, Answer,
--   Isotp.Transfer, Conversation, Single, Errors, Ended, Overflow    proofs about these
--   Uds             src/apps/uds/uds_client.c. Requests: what it sends, and its timers' handlers.
--                   Responses: `uds_receive`, `uds_receive_ff`, `uds_error`. Session: opening,
--                   connecting, settings. Machine: an abstract description of the client, which
--                   Moves, Receiving and Refinement compare with its functions. Calm, Heap,
--                   Delivery, Attempts, Stuck, Closing: proofs.
--   Stack           `lwcan_init` of src/init.c and `canif_input` of src/canif.c. Start, Input: proofs.
-- A handler takes a context, `Ctx`: the connection, the timers, the interfaces, and `Ext`, all that
-- is not the library's; for the UDS client `Ext` holds its state. It returns the context that it
-- leaves, or `none` for a fault. The functions of `Platform` stand for what the library calls: the
-- heap of src/memory.c, the driver, the clock and the callbacks, each of which may change the
-- context as it likes; those of `App` for the UDS client's application. The library runs to
-- completion between calls, so that a run is a sequence of handler calls. The busy wait of
-- `canraw_send` walks along the reports that the driver gives meanwhile.
--
-- Numbers. Bytes, 32-bit lengths and times are natural numbers with the wrap-around written out
-- (`sub8`, `sub32`, `% 2 ^ 32`). The options of include/lwcan/options.h and of
-- include/lwcan/apps/uds_options.h are records, so that the builds with and without ISOTP_CANFD are
-- cases of the same definitions.
--
-- Fuel. `timeouts_handler` takes one unit of it for each entry that it runs; one more than the
-- entries that have expired is enough. `choose_num`, the loop of `canif_add`, takes one for each
-- number that it tries; 254 are enough for any list. `payloads` takes a unit for each frame; as many
-- as there are bytes are enough.
--
-- Not modelled: src/memory.c (a copy of a FreeRTOS heap, behind `Alloc`). The assertions of
-- include/lwcan/debug.h only print. A callback works on its own connection: that it opens, removes
-- or binds another while a frame is being handled is outside the model, as is that a raw callback
-- changes the list of raw connections; what else it does to the ISO-TP connections and the
-- timeouts is part of the model.
pub mod Common
pub mod Can
pub mod Pool
pub mod Raw
pub mod Stack
pub mod Timeouts
pub mod Uds
pub mod Buffer
pub mod Canif
pub mod Length
pub mod Isotp
