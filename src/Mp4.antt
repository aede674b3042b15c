-- ===== src/Mp4.antt =====
-- Mp4.h and Mp4.cpp: the MP4 demuxer, which reads the boxes of a file into tracks and cuts the
-- samples of hint tracks into RTP packets.
pub mod State
pub mod Track
pub mod Boxes
pub mod Walk
pub mod Hint
pub mod Source
mod Tests
