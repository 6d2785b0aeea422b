-- ===== src/Manager/Traffic.antt =====
-- src/zfgw_channel_manager.cpp: hello and heartbeat segments, the heartbeat's tick, the subscribers,
-- the link listener, and starting and stopping.
use libfgw.Prelude.{
  ℕ, ◌*◌, ◌%◌, ◌^◌, Bool, true, false, List, [], ◌∷◌, ◌++◌, none, some, if◌then◌else◌, Map, nat_ord,
  length, ◌==◌, take, replicate,
}
use libfgw.Codes.{Result, ok, err, pos, busy, listen_fail, proto_version}
use libfgw.Config.{FgwConfig, any_address}
use libfgw.Segment.Header.{default_header, flag_hello, flag_heartbeat}
use libfgw.Segment.Encode.{fgw_segment_encode}
use libfgw.Codec.Control.{pack_hello}
use libfgw.Codec.Messages.{FgwLinkQuality}
use libfgw.Link.Channel.{FgwChannel, close_channel, evaluate_stall}
use libfgw.Link.Selector.{mode_of}
use libfgw.Stream.State.{DataStream, Env, FgwHello}
use libfgw.Stream.Arbiter.{emit_feedback}
use libfgw.Stream.Receive.{on_channel_bytes}
use libfgw.Manager.State.{ChannelManager, ManagerEnv, change_object, send_frame}
use libfgw.Manager.Channels.{add_channels}

unfoldable pub hello_of : ManagerEnv → ℕ → ChannelManager → FgwHello
hello_of env p m = record {
  proto_version = proto_version;
  role = m.config.role;
  ingress_id = m.config.ingress_id;
  outport_id = 0;
  channel_id = (m.links.objects p).channel_id;
  generation = env.generation;
}

-- What was encoded is sent; nothing is if that failed.
unfoldable pub send_encoded : ManagerEnv → ℕ → Result (ℕ × List ℕ) → ChannelManager → ChannelManager
unfolding send_frame
send_encoded env p (err e) m = m
send_encoded env p (ok (wrote, bytes)) m = send_frame env p (take wrote bytes) m

-- A hello's payload framed in 128 bytes.
unfoldable pub hello_frame : FgwConfig → List ℕ → Result (ℕ × List ℕ)
hello_frame config payload =
    let hdr = record default_header {
      flags = flag_hello;
      payload_len = length payload % 2 ^ 16;
      ingress_id = config.ingress_id;
    } in
    fgw_segment_encode (some (replicate 128 0)) hdr (some payload) (pos (length payload))

unfoldable pub send_hello_payload :
    ManagerEnv → ℕ → Result (List ℕ) → ChannelManager → ChannelManager
unfolding send_encoded hello_frame
send_hello_payload env p (err e) m = m
send_hello_payload env p (ok payload) m = send_encoded env p (hello_frame m.config payload) m

-- The hello is packed into 64 bytes.
unfoldable pub send_hello : ManagerEnv → ℕ → ChannelManager → ChannelManager
unfolding hello_of pack_hello send_hello_payload
send_hello env p m = send_hello_payload env p (pack_hello env.zds true 64 (hello_of env p m)) m

unfoldable pub heartbeat_frame : FgwConfig → Result (ℕ × List ℕ)
heartbeat_frame config =
    let hdr = record default_header { flags = flag_heartbeat; ingress_id = config.ingress_id } in
    fgw_segment_encode (some (replicate 64 0)) hdr none (pos 0)

unfoldable pub send_heartbeat : ManagerEnv → ℕ → ChannelManager → ChannelManager
unfolding send_encoded heartbeat_frame
send_heartbeat env p m = send_encoded env p (heartbeat_frame m.config) m

-- link_timeout in milliseconds, 15 seconds if it is not set.
unfoldable pub link_timeout_ms : FgwConfig → ℕ
link_timeout_ms config = (if config.link_timeout == 0 then 15 else config.link_timeout) * 1000

-- A connected channel is sent a heartbeat and judged by the clock that evaluateStall reads for it.
unfoldable pub beat : ManagerEnv → (ℕ → ℕ) → ℕ → ℕ → ChannelManager → ChannelManager
unfolding send_heartbeat change_object evaluate_stall
beat env now timeout_ms p m =
    if (m.links.objects p).connected
    then change_object p (evaluate_stall (now p) timeout_ms) (send_heartbeat env p m)
    else m

-- The channels of the snapshot.
unfoldable pub heartbeat_channels :
    ManagerEnv → (ℕ → ℕ) → ℕ → Map ℕ ℕ → ChannelManager → ChannelManager
unfolding beat
heartbeat_channels env now timeout_ms [] m = m
heartbeat_channels env now timeout_ms ((id, p) ∷ rest) m =
    heartbeat_channels env now timeout_ms rest (beat env now timeout_ms p m)

-- A call of the stream at `q`: it works on the manager's links and sockets.
unfoldable pub with_stream : ℕ → (DataStream → DataStream) → ChannelManager → ChannelManager
with_stream q call m =
    let s = call (record (m.streams q) { links = m.links; wire = m.wire }) in
    record m { links = s.links; wire = s.wire; streams = λ r. if r == q then s else m.streams r }

unfoldable pub each_stream : (DataStream → DataStream) → List ℕ → ChannelManager → ChannelManager
unfolding with_stream
each_stream call [] m = m
each_stream call (q ∷ qs) m = each_stream call qs (with_stream q call m)

-- onHeartbeatTick. `stream_env q` is what the stream at `q` calls.
unfoldable pub on_heartbeat_tick : ManagerEnv → Env → (ℕ → ℕ) → ChannelManager → ChannelManager
unfolding heartbeat_channels link_timeout_ms each_stream emit_feedback
on_heartbeat_tick env stream_env now m =
    each_stream (emit_feedback stream_env) m.bytes_subscribers
      (heartbeat_channels env now (link_timeout_ms m.config) m.links.channels m)

-- dispatchChannelBytes: every subscriber is given the bytes that came over the channel at `p`.
unfoldable pub dispatch_channel_bytes : Env → ℕ → List ℕ → ChannelManager → ChannelManager
unfolding each_stream on_channel_bytes
dispatch_channel_bytes stream_env p bytes m =
    each_stream (on_channel_bytes stream_env p bytes) m.bytes_subscribers m

unfoldable pub subscribed : ℕ → List ℕ → Bool
subscribed q [] = false
subscribed q (r ∷ rs) = let rest = subscribed q rs in if r == q then true else rest

unfoldable pub add_bytes_subscriber : ℕ → ChannelManager → ChannelManager
unfolding subscribed
add_bytes_subscriber q m =
    if subscribed q m.bytes_subscribers
    then m
    else record m { bytes_subscribers = m.bytes_subscribers ++ q ∷ [] }

-- std::remove and erase
unfoldable pub without_stream : ℕ → List ℕ → List ℕ
without_stream q [] = []
without_stream q (r ∷ rs) = let rest = without_stream q rs in if r == q then rest else r ∷ rest

unfoldable pub remove_bytes_subscriber : ℕ → ChannelManager → ChannelManager
unfolding without_stream
remove_bytes_subscriber q m = record m { bytes_subscribers = without_stream q m.bytes_subscribers }

-- collectLinkQualities, in the order of the channel ids.
unfoldable pub collect_link_qualities : (ℕ → FgwChannel) → Map ℕ ℕ → List FgwLinkQuality
collect_link_qualities objects [] = []
collect_link_qualities objects ((id, p) ∷ m) =
    let ch = objects p in
    record {
      channel_id = ch.channel_id;
      connected = if ch.connected then 1 else 0;
      rtt_ms = ch.quality.rtt_ms;
      loss_rate = ch.quality.loss_rate;
      bytes_sent = ch.quality.bytes_sent;
      bytes_recv = ch.quality.bytes_recv;
      send_segments = ch.quality.send_segments;
      recv_segments = ch.quality.recv_segments;
      rexmit_segments = ch.quality.rexmit_segments;
    }
    ∷ collect_link_qualities objects m

unfoldable pub start_link_listener :
    ManagerEnv → List ℕ → ℕ → ChannelManager → Result ℕ × ChannelManager
unfolding any_address
start_link_listener env bind_ip bind_port m =
    if m.link_acceptor
    then (err busy, m)
    else if env.listen (any_address bind_ip) bind_port
    then (ok 0, record m { link_acceptor = true })
    else (err listen_fail, m)

unfoldable pub stop_link_listener : ChannelManager → ChannelManager
stop_link_listener m = record m { link_acceptor = false }

-- start: a channel that cannot be added is passed over.
unfoldable pub manager_start : ManagerEnv → FgwConfig → ChannelManager → Result ℕ × ChannelManager
unfolding add_channels mode_of
manager_start env cfg m =
    let configured = record m {
      config = cfg;
      links = record (m.links) {
        selector = record (m.links.selector) { mode = mode_of cfg.multipath_mode };
      };
    } in
    (ok 0, record (add_channels env cfg.channels configured) { heartbeat_timer = true })

unfoldable pub close_all : Map ℕ ℕ → ChannelManager → ChannelManager
unfolding change_object close_channel
close_all [] m = m
close_all ((id, p) ∷ rest) m = close_all rest (change_object p close_channel m)

-- stop. The one-shot timers are not cancelled.
unfoldable pub manager_stop : ChannelManager → ChannelManager
unfolding stop_link_listener close_all
manager_stop m =
    let closed = close_all m.links.channels (stop_link_listener m) in
    record closed {
      heartbeat_timer = false;
      bytes_subscribers = [];
      links = record (closed.links) { channels = [] };
      shared_utp = false;
    }
