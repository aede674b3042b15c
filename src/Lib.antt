-- ===== src/Lib.antt =====
-- A model of the RTSP server in src/: it streams hinted MP4 files over RTSP, with RTP packets
-- interleaved on the connection.
--
-- The parts and how they meet. The demuxer (src/Mp4.cpp, src/Mp4.h) walks over the boxes of a file,
-- builds the sample table of each track, seeks in it, and cuts the samples of hint tracks into RTP
-- packets (src/Rtp.h), which a player sends. A session reads RTSP requests and answers them with the
-- message classes (src/Http.cpp, src/Http.h); the RTCP frames that a client puts between requests
-- are skipped (src/Rtcp.cpp). Error codes (src/core/Error.h) are shared by all.
--
-- Each engine (src/Server.cpp) runs a thread over epoll (src/core/Event.cpp), which calls the virtual
-- functions of the events that are ready, and gives new connections to its idle sessions. A session
-- (src/RtspSession.cpp) reads its connection, answers requests, and drives one of two players through
-- the interface of src/Rtp.h: the player of files (src/Mp4Player.cpp), which takes its samples from
-- the demuxer, and the live player (src/LivePlayer.cpp), which passes on the datagrams of a channel
-- of the live server (src/LiveServer.cpp). All use the sockets of src/core/Socket.cpp and the threads
-- of src/core/Thread.cpp. Several engines share one lock, which decides who accepts connections.
--
-- The process starts in src/Main.cpp, which reads the options and the configuration file and hands over
-- to the keeper (src/Daemon.cpp); the keeper forks the worker that runs the server, and forks it again
-- when it dies.
--
-- Files. Mp4/State holds CMp4Demuxer, CTrack and CSample and the monad in which the demuxer's
-- functions are written: ok and fail are the results true and false, fault is what ends the process
-- or has no meaning in C++, stuck means that fuel ran out. Mp4/Boxes has one function for each box
-- parser, Mp4/Walk has ParseDefault, ParseAtom, ParseTrak, Parse, Close and the small accessors,
-- Mp4/Track the sample table and CTrack::Seek, Mp4/Hint has GetRtpSample. Http/Request and
-- Http/Response are CHttpRequest and CHttpResponse over the byte strings of Text, Rtcp is
-- CRtcp::Parse. Event has the registration of CEvent and the round of CEventEngin::Thread,
-- Event/Timer has CTimer, and Event/Life the start and the stop of the engine over the CThread of
-- Thread; epoll, timerfd and pthread are parameters. Process counts what the system has given out.
-- Server is CEngin, with the steps of a run in Server/Runs; Server/Lock has several engines on their
-- shared lock, statement by statement, and Server/Life the start and the destructors of CEngin and
-- CServer over the system's calls. Main is main with CDiskIO::AddPath, over lines that
-- Main/Entries writes out; Daemon is CDaemon. Session is CRtspSession with its handlers, Session/Stream its reading and
-- writing. Player is CRtpPlayer as a record of operations, which mp4_player of Mp4Player and
-- live_player of LivePlayer fill; Rtp has CRtpSource as such a record, which Mp4/Source fills with the
-- demuxer. LiveServer has CChannelTrack, CLiveChannel and CLiveChannels. Socket has CTcp, CUdp and
-- their servers and clients, over the calls of the system as a parameter (Net). Disk is the
-- asynchronous reader (src/io/Disk.cpp) with its buffer (src/io/IO.cpp). FileSystem is what the
-- demuxer calls of the operating system, as a parameter;
-- FileSystem/InMemory is an instance for tests. Prelude has the helpers that all share: Boolean
-- tests, lists over native numbers, machine words, and std::map as an ordered list.
--
-- Numbers are natural numbers with the wrap-around of size_t (2^64) and UInt32 (2^32) written out.
-- Fuel. ParseDefault takes a unit for each round and each level of nesting; each
-- round and each level reads a header of 8 bytes, so that a unit for each byte and one more is enough
-- where no size lies below 8. ParseParam takes the length of the
-- query and one. CRtcp::Parse needs two rounds at a frame that is not empty.
--
-- The loop of OnRead takes a unit for each byte twice and two more; OnTimer takes a unit for each
-- sample that is due and one more.
--
-- The calls that the kernel answers differently from time to time (recv, send, epoll_wait) are lists
-- of results; the others are functions of a world. The clock, the printing of a duration, the reading
-- of a float and the time stamp of a new sample, which the source leaves unset, are parameters.
--
-- In Server/Lock a step is one statement of one engine's thread, and the threads take their steps in any
-- order; m_Free of an engine is read and written by its own thread only. In Daemon each round of the
-- keeper is given what fork and wait return and what m_Run is then.
--
-- Not modelled: logging (with the copy of log4cplus in include/), the loop of a thread (__Thread), which
-- calls the round of the engine until it is stopped, the destructors other than those of CEngin and
-- CServer, and the locks that nothing uses (CAutoMutex, CRWLock). The engine of a live channel is a parameter of
-- the channel. The players' reports to
-- their session (ReturnEvent) are a field. Allocation by new and by the containers never fails in the
-- model.
pub mod Daemon
pub mod Disk
pub mod Error
pub mod Event
pub mod FileSystem
pub mod Http
pub mod LivePlayer
pub mod LiveServer
pub mod Main
pub mod Mp4
pub mod Mp4Player
pub mod Player
pub mod Prelude
pub mod Process
pub mod Rtcp
pub mod Rtp
pub mod Server
pub mod Session
pub mod Socket
pub mod Text
pub mod Thread
