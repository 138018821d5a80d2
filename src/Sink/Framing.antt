-- ===== src/Sink/Framing.antt =====
-- The loop of `_ReadCallback` (server/DataSink.cpp) against the frames of daemon/StreamItem.cpp.
pub mod Step
pub mod Loop
pub mod Stream
