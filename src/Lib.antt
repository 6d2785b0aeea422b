-- ===== src/Lib.antt =====
-- libfgw carries TCP sessions over several link channels at once. An Inport accepts local clients,
-- a DataStream cuts their bytes into numbered segments and sends each over more than one channel,
-- a Transit may hand the frames on, and the DataStream of an Outport puts the segments in order
-- again for a SOCKS5 relay, which dials the target.
--
-- Prelude: Boolean tests, lists, std::map as an ordered association list, laws of bit operations.
-- Codes (src/zfgw.h): error codes, results, roles and versions.
-- Segment (src/zfgw_segment.h, src/zfgw_segment.cpp): Header is FgwSegmentHeader, Crc the table
--   and fgwCrc32, Encode fgwSegmentEncode, Decode fgwSegmentPeekHeader and fgwSegmentVerifyCrc.
--   A buffer is a list of bytes. Layout, Flags, Prefix, Received, RoundTrip and Crc/Detect hold
--   the lemmas.
-- Link (src/zfgw_channel.h, src/zfgw_channel.cpp, src/zfgw_channel_manager.h and .cpp): Channel is
--   IFgwChannel with the two transports, Selector is LinkSelector, Pool the table of channels. An
--   object is known by its address, so that two streams or two tables may share one. Fpu is the
--   double arithmetic, a parameter. Socket is FgwTcpChannel with the handlers of its sockets, Utp
--   FgwUtpChannel and FgwUtpContextHolder without libutp; OneSocket and Handlers are about who still
--   hears of a socket.
-- Stream (src/zfgw_datastream.h, src/zfgw_datastream.cpp): State is the DataStream and what it
--   calls, Send openSession, closeSession, sendSessionData and sendSegment, Receive onChannelBytes,
--   Deliver deliverInOrder, Arbiter pickPrimaryLocked and emitFeedback. The state is passed on from
--   call to call. A call on a session handler is put in a log, and `react` of Env says what the
--   handler does to the stream meanwhile. The block pool, the sockets' writes, std::sort and the
--   zds codec are fields of Env. Send/Wire, Send/Chunks and Send/Pieces are about what
--   sendSessionData leaves on the wire, Tunnel about both ends of a session, Receive/Keeps and
--   Receive/Buffer about what onChannelBytes keeps and leaves in its buffers.
-- Inport (src/zfgw_inport.h, src/zfgw_inport.cpp): FgwSession and InportService over a DataStream.
--   Log is the order of what is done to the clients' sockets, Lifecycle what holds of the sessions and
--   the table, Closing and Serving that every operation keeps it.
-- Relay (src/zfgw_outport.h, src/zfgw_outport.cpp): Socks reads a request, Session is
--   FgwRelaySession with a log of what it does to the stream and the outbound connection, Service
--   the table of OutportService. Stable, Buffered, Request and Chunks are about how the client's
--   bytes are cut, Lifecycle about a session from its greeting to its end.
-- Transit (src/zfgw_transit.h, src/zfgw_transit.cpp): State, Forward the bytes of a link, Dial
--   dialling, accepting and losing one; timers are put in a list. Routes, Routed and Serving are
--   about where the routing tables lead, Steps lists what a transit does as a relation.
-- Config (src/zfgw.cpp, src/zfgw_proto.h): the configuration, its path, saving and loading.
-- Codec (src/zfgw_pack.cpp, src/zfgw_proto.h): Fields packs and unpacks a structure by the list of
--   its members, which is the code that the source repeats for each structure; Configs, Status,
--   Requests and Control give the members of each. The builtin types and arrays are zce's: Zds is
--   their codec, a parameter, and ZdsLaws what is relied on. Messages has the structures, Sample a
--   codec for which the laws hold.
-- Manager (src/zfgw_channel_manager.h and .cpp): State is ChannelManager, Channels adds, removes and
--   accepts channels, Traffic has the hello, the heartbeat, the subscribers, the listener, start and
--   stop, Events the callbacks of the channels and the timers. Steps lists what a manager does as a
--   relation; Table, Order, Streams and Invariant are about the channel table. Registry is what the table
--   promises, without objects: which ids are taken; Refines compares the two. Greeting follows a
--   hello to the stream of the peer.
-- Machine (src/zfgw_vm.h, src/zfgw_vm.cpp, src/zfgw_inc.h): State is ZfgwMachine, Bringup doBringup
--   and doTeardown, Rpc the handlers and call_dblock. It owns a ChannelManager, whose stream at
--   address 0 is the DataStream of the machine, and an Inport, an Outport or a Transit. Shape and
--   Requests are about the parts that it has, Answers about what a bring-up answers, Configured
--   about a configuration that is set.
--
-- Fuel: the receive loops (consume, transit_loop) run on the number of bytes; a frame has at least
-- 16 bytes, so it is enough. feed_rx of a relay has three turns: the greeting, the request, and a
-- turn that ends. send_chunks runs on the payload's length; a chunk has at least one byte.
-- skip_unknown has 64 turns for the 64 bits of a presence prefix.
-- Machine integers are natural numbers with the wrap written out; a byte is below 2 ^ 8.
--
-- Not modelled: uTP with libutp (it is built without, as by default), the registration with the host in
-- src/zfgw.cpp, packing into a null buffer, which only asks for the size, locks (each operation runs
-- whole), time stamps and log output.
pub mod Prelude
pub mod Codes
pub mod Segment
pub mod Link
pub mod Config
pub mod Stream
pub mod Inport
pub mod Relay
pub mod Transit
pub mod Codec
pub mod Manager
pub mod Machine
