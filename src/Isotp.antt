-- ===== src/Isotp.antt =====
-- The ISO-TP layer: src/isotp.c, src/isotp_in.c, src/isotp_out.c.
pub mod Types
pub mod Frames
pub mod Consecutive
pub mod Storing
pub mod First
pub mod Output
pub mod Input
pub mod Receive
pub mod Message
pub mod Rounds
pub mod Send
pub mod Start
pub mod Answer
pub mod Transfer
pub mod Conversation
pub mod Single
pub mod Errors
pub mod Ended
pub mod Overflow
pub mod Safety
pub mod Unsafe
pub mod Connections
pub mod Calls
pub mod Layer
mod Tests
