-- ===== src/Link/Channel.antt =====
-- src/zfgw_channel.h: IFgwChannel; src/zfgw_channel.cpp: FgwTcpChannel's and FgwUtpChannel's
-- sendBytes, close and callbacks. Built without libutp, as by default.
use libfgw.Prelude.{
  ℕ, ◌+◌, ◌-◌, ◌%◌, ◌^◌, Bool, true, false, not, ◌&&◌, List, ltb, ◌==◌, if◌then◌else◌,
}
use libfgw.Codes.{
  Result, ok, err, ℤ, pos, negsuc, zce, not_running, no_channel, memory, invalid_config,
}

pub data ChannelKind : Type 0 where
  tcp utp : ChannelKind

pub record LinkQuality : Type 0 where
  pub rtt_ms : ℕ
  -- A double's bit pattern.
  pub loss_rate : ℕ
  pub bytes_sent : ℕ
  pub bytes_recv : ℕ
  pub send_segments : ℕ
  pub recv_segments : ℕ
  pub rexmit_segments : ℕ
  pub last_rx_tick : ℕ

pub record FgwEndpoint : Type 0 where
  pub host : List ℕ
  pub port : ℕ

-- `has_tcp`: `tcp_ptr_` is not null.
pub record FgwChannel : Type 0 where
  pub channel_id : ℕ
  pub kind : ChannelKind
  pub priority : ℕ
  pub connected : Bool
  pub accepted : Bool
  pub stalled : Bool
  pub peer_channel_id : ℕ
  pub peer_ingress_id : ℕ
  pub peer_outport_id : ℕ
  pub quality : LinkQuality
  pub has_tcp : Bool

abbrev pub fresh_quality : LinkQuality
fresh_quality = record {
  rtt_ms = 0;
  loss_rate = 0;
  bytes_sent = 0;
  bytes_recv = 0;
  send_segments = 0;
  recv_segments = 0;
  rexmit_segments = 0;
  last_rx_tick = 0;
}

-- The constructors of IFgwChannel, FgwTcpChannel and FgwUtpChannel.
abbrev pub new_channel : ℕ → ChannelKind → ℕ → FgwChannel
new_channel id kind priority = record {
  channel_id = id;
  kind = kind;
  priority = priority;
  connected = false;
  accepted = false;
  stalled = false;
  peer_channel_id = 0;
  peer_ingress_id = 0;
  peer_outport_id = 0;
  quality = fresh_quality;
  has_tcp = false;
}

-- All three are uint32; the subtraction wraps.
unfoldable pub fgw_link_stalled : ℕ → ℕ → ℕ → Bool
fgw_link_stalled now_tick last_rx_tick timeout_ms =
    ltb timeout_ms ((now_tick + 2 ^ 32 - last_rx_tick) % 2 ^ 32)

unfoldable pub is_live : FgwChannel → Bool
is_live ch = ch.connected && not ch.stalled

unfoldable pub evaluate_stall : ℕ → ℕ → FgwChannel → FgwChannel
evaluate_stall now timeout_ms ch = record ch {
  stalled = fgw_link_stalled now ch.quality.last_rx_tick timeout_ms;
}

unfoldable pub mark_accepted : FgwChannel → FgwChannel
mark_accepted ch = record ch { accepted = true }

unfoldable pub set_peer_identity : ℕ → ℕ → ℕ → FgwChannel → FgwChannel
set_peer_identity peer_channel peer_ingress peer_outport ch = record ch {
  peer_channel_id = peer_channel;
  peer_ingress_id = peer_ingress;
  peer_outport_id = peer_outport;
}

-- markConnected: the caller then runs the connected callback with 0 or CHANNELFAIL.
unfoldable pub mark_connected : ℕ → Bool → FgwChannel → FgwChannel
mark_connected now true ch = record ch {
  connected = true;
  quality = record (ch.quality) { last_rx_tick = now };
}
mark_connected now false ch = record ch { connected = false }

-- markClosed: the caller then runs the closed callback.
unfoldable pub mark_closed : FgwChannel → FgwChannel
mark_closed ch = record ch { connected = false }

unfoldable pub add_sent_bytes : ℕ → FgwChannel → FgwChannel
add_sent_bytes n ch = record ch {
  quality = record (ch.quality) { bytes_sent = (ch.quality.bytes_sent + n) % 2 ^ 64 };
}

unfoldable pub add_recv_bytes : ℕ → ℕ → FgwChannel → FgwChannel
add_recv_bytes now n ch = record ch {
  stalled = false;
  quality = record (ch.quality) {
    bytes_recv = (ch.quality.bytes_recv + n) % 2 ^ 64;
    last_rx_tick = now;
  };
}

unfoldable pub note_segment_recv : FgwChannel → FgwChannel
note_segment_recv ch = record ch {
  quality = record (ch.quality) { recv_segments = (ch.quality.recv_segments + 1) % 2 ^ 32 };
}

-- FgwTcpChannel::close and FgwUtpChannel::close. No callback runs.
unfoldable pub close_channel : FgwChannel → FgwChannel
close_channel ch = record ch { connected = false; has_tcp = false }

-- The write of zce::Tcp: a count, or -(n + 1).
unfoldable pub after_write : ℕ → ℤ → FgwChannel → Result ℕ × FgwChannel
after_write len (pos n) ch = (ok len, add_sent_bytes len ch)
after_write len (negsuc n) ch = (err (zce n), ch)

-- FgwTcpChannel::sendBytes. `space` is the room of the block that the pool hands out, and
-- `written` what zce::Tcp's write returns; the Bool says whether it was called.
unfoldable pub tcp_send_bytes : ℕ → ℤ → ℕ → FgwChannel → Result ℕ × Bool × FgwChannel
unfolding after_write
tcp_send_bytes space written len ch =
    let (r, ch') = after_write len written ch in
    if not ch.has_tcp
    then (err not_running, false, ch)
    else if not ch.connected
    then (err no_channel, false, ch)
    else if len == 0
    then (ok 0, false, ch)
    else if ltb space len
    then (err memory, false, ch)
    else (r, true, ch')

-- The virtual call: FgwUtpChannel::sendBytes refuses.
unfoldable pub send_bytes : ℕ → ℤ → ℕ → FgwChannel → Result ℕ × Bool × FgwChannel
unfolding tcp_send_bytes
send_bytes space written len ch = elim ch.kind [
  | tcp ↦ tcp_send_bytes space written len ch
  | utp ↦ (err invalid_config, false, ch)
]
