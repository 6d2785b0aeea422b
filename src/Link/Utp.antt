-- ===== src/Link/Utp.antt =====
-- src/zfgw_channel.cpp: FgwUtpChannel; src/zfgw_channel_manager.cpp: FgwUtpContextHolder. Both as
-- they are built without libutp.
use libfgw.Prelude.{
  ℕ, ◌+◌, Bool, true, false, List, [], ◌∷◌, ◌++◌, Option, none, some, if◌then◌else◌, length,
}
use libfgw.Codes.{Result, ok, err, invalid_config, listen_fail}
use libfgw.Link.Channel.{FgwChannel, FgwEndpoint, utp, new_channel, mark_closed, add_recv_bytes}

-- The callbacks that run.
pub data UtpCall : Type 0 where
  closed_callback : UtpCall
  bytes_callback : List ℕ → UtpCall

-- `utp_socket_` is never set.
pub record UtpChannel : Type 0 where
  pub channel : FgwChannel
  pub remote : FgwEndpoint
  pub closed_hook : Bool
  pub bytes_hook : Bool
  pub calls : List UtpCall

unfoldable pub utp_channel : ℕ → ℕ → UtpChannel
utp_channel id priority = record {
  channel = new_channel id utp priority;
  remote = record { host = []; port = 0 };
  closed_hook = true;
  bytes_hook = true;
  calls = [];
}

-- FgwUtpChannel::connect
unfoldable pub utp_connect : FgwEndpoint → UtpChannel → Result ℕ × UtpChannel
utp_connect remote u = (err invalid_config, record u { remote = remote })

-- FgwUtpChannel::close
unfoldable pub utp_close : UtpChannel → UtpChannel
utp_close u = record u { channel = record (u.channel) { connected = false } }

-- FgwUtpChannel::deliverBytes
unfoldable pub deliver_bytes : ℕ → List ℕ → UtpChannel → UtpChannel
unfolding add_recv_bytes
deliver_bytes now bytes u = record u {
  channel = add_recv_bytes now (length bytes) u.channel;
  calls = if u.bytes_hook then u.calls ++ bytes_callback bytes ∷ [] else u.calls;
}

-- FgwUtpChannel::onUtpState
unfoldable pub on_utp_state : ℕ → UtpChannel → UtpChannel
on_utp_state state u = u

-- FgwUtpChannel::onUtpError
unfoldable pub on_utp_error : ℕ → UtpChannel → UtpChannel
unfolding mark_closed
on_utp_error error_code u = record u {
  channel = mark_closed u.channel;
  calls = if u.closed_hook then u.calls ++ closed_callback ∷ [] else u.calls;
}

-- What is done to the UDP sockets and the timers, known by the holder's numbers for them.
pub data HolderCall : Type 0 where
  udp_close : ℕ → HolderCall
  timer_start : ℕ → HolderCall
  timer_cancel : ℕ → HolderCall

pub record FgwUtpContextHolder : Type 0 where
  pub udp_ptr : Option ℕ
  pub tick_timer : Option ℕ
  pub next_handle : ℕ
  pub calls : List HolderCall

unfoldable pub fgw_utp_context_holder : FgwUtpContextHolder
fgw_utp_context_holder = record { udp_ptr = none; tick_timer = none; next_handle = 0; calls = [] }

-- FgwUtpContextHolder::start, with what listen says. What was there before is not closed.
unfoldable pub holder_start : Bool → FgwUtpContextHolder → Result ℕ × FgwUtpContextHolder
holder_start listens h =
    let udp = h.next_handle in
    if listens
    then (
      ok 0,
      record h {
        udp_ptr = some udp;
        tick_timer = some (udp + 1);
        next_handle = udp + 2;
        calls = h.calls ++ timer_start (udp + 1) ∷ [];
      },
    )
    else (err listen_fail, record h { udp_ptr = none; next_handle = udp + 1 })

unfoldable pub cancel_timer : Option ℕ → List HolderCall → List HolderCall
cancel_timer none calls = calls
cancel_timer (some k) calls = calls ++ timer_cancel k ∷ []

unfoldable pub close_udp : Option ℕ → List HolderCall → List HolderCall
close_udp none calls = calls
close_udp (some k) calls = calls ++ udp_close k ∷ []

-- FgwUtpContextHolder::stop
unfoldable pub holder_stop : FgwUtpContextHolder → FgwUtpContextHolder
unfolding cancel_timer close_udp
holder_stop h = record h {
  udp_ptr = none;
  tick_timer = none;
  calls = close_udp h.udp_ptr (cancel_timer h.tick_timer h.calls);
}

-- FgwUtpContextHolder::onTick and UdpHandler::on_read_data
unfoldable pub on_tick : FgwUtpContextHolder → FgwUtpContextHolder
on_tick h = h

-- FgwUtpContextHolder::connectChannel and closeChannel
unfoldable pub connect_channel : FgwUtpContextHolder → FgwEndpoint → Result ℕ × FgwUtpContextHolder
connect_channel h remote = (err invalid_config, h)
