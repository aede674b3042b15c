-- ===== src/Http.antt =====
-- Http.h and Http.cpp: the requests that the RTSP sessions parse, and the responses that they print.
pub mod Request
pub mod Response
mod Tests
