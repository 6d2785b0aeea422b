-- ===== src/Link/Socket.antt =====
-- src/zfgw_channel.cpp: FgwTcpChannel with the handlers of its sockets, TcpHandler.
use libfgw.Prelude.{
  ℕ, ◌+◌, Bool, true, false, List, [], ◌∷◌, ◌++◌, Option, none, some, ◌==◌, if◌then◌else◌, length,
}
use libfgw.Codes.{Result, err, ℤ, invalid_config}
use libfgw.Link.Channel.{
  FgwChannel, FgwEndpoint, tcp, new_channel, close_channel, mark_accepted, mark_connected,
  mark_closed, add_recv_bytes, tcp_send_bytes,
}

-- What is done to a socket, known by the number of its handler, and the callbacks that run.
pub data SocketCall : Type 0 where
  start_connect : ℕ → FgwEndpoint → SocketCall
  socket_close : ℕ → SocketCall
  socket_write : List ℕ → SocketCall
  connected_callback : ℕ → SocketCall
  closed_callback : SocketCall
  bytes_callback : List ℕ → SocketCall

-- `owners`: whether the handler's `owner_` is not null; `connecting`: `connector_` is not null. The
-- three hooks say whether the callback of that name is set.
pub record TcpChannel : Type 0 where
  pub channel : FgwChannel
  pub tcp_ptr : Option ℕ
  pub connecting : Bool
  pub remote : FgwEndpoint
  pub owners : ℕ → Bool
  pub next_handler : ℕ
  pub connected_hook : Bool
  pub closed_hook : Bool
  pub bytes_hook : Bool
  pub calls : List SocketCall

-- The constructor of FgwTcpChannel, with the callbacks that are set at once.
unfoldable pub tcp_channel : ℕ → ℕ → TcpChannel
tcp_channel id priority = record {
  channel = new_channel id tcp priority;
  tcp_ptr = none;
  connecting = false;
  remote = record { host = []; port = 0 };
  owners = λ k. false;
  next_handler = 0;
  connected_hook = true;
  closed_hook = true;
  bytes_hook = true;
  calls = [];
}

-- A callback that runs if it is set.
unfoldable pub run_hook : Bool → SocketCall → List SocketCall → List SocketCall
run_hook hook call calls = if hook then calls ++ call ∷ [] else calls

-- What close does to the socket that is there.
unfoldable pub drop_socket : Option ℕ → TcpChannel → TcpChannel
drop_socket none t = t
drop_socket (some p) t = record t {
  owners = λ k. if k == p then false else t.owners k;
  calls = t.calls ++ socket_close p ∷ [];
}

-- FgwTcpChannel::close; tcp_ptr_ is null then. The handler's own on_close finds no owner any more.
unfoldable pub tcp_close : TcpChannel → TcpChannel
unfolding drop_socket close_channel
tcp_close t = record (drop_socket t.tcp_ptr t) {
  channel = close_channel t.channel;
  tcp_ptr = none;
  connecting = false;
}

-- A new TcpHandler in tcp_ptr_.
unfoldable pub tcp_handler : TcpChannel → TcpChannel
tcp_handler t =
    let n = t.next_handler in
    record t {
      channel = record (t.channel) { has_tcp = true };
      tcp_ptr = some n;
      owners = λ k. if k == n then true else t.owners k;
      next_handler = n + 1;
    }

-- FgwTcpChannel::connect, with what the connector says.
unfoldable pub tcp_connect : Result ℕ → FgwEndpoint → TcpChannel → Result ℕ × TcpChannel
unfolding tcp_close tcp_handler
tcp_connect ret remote t =
    let closed = tcp_close t in
    let t1 = tcp_handler (record closed { remote = remote }) in
    (
      ret,
      record t1 {
        connecting = true;
        calls = closed.calls ++ start_connect closed.next_handler remote ∷ [];
      },
    )

-- FgwTcpChannel::adoptAcceptedTcp
unfoldable pub adopt_accepted_tcp : TcpChannel → Result ℕ × TcpChannel
adopt_accepted_tcp t = (err invalid_config, t)

-- FgwTcpChannel::createAcceptedHandler
unfoldable pub create_accepted_handler : TcpChannel → TcpChannel
unfolding mark_accepted tcp_handler
create_accepted_handler t = tcp_handler (record t { channel = mark_accepted t.channel })

-- FgwTcpChannel::sendBytes
unfoldable pub tcp_send : ℕ → ℤ → List ℕ → TcpChannel → Result ℕ × TcpChannel
unfolding tcp_send_bytes
tcp_send space written bytes t =
    let (ret, wrote, ch) = tcp_send_bytes space written (length bytes) t.channel in
    (
      ret,
      record t {
        channel = ch;
        calls = if wrote then t.calls ++ socket_write bytes ∷ [] else t.calls;
      },
    )

-- TcpHandler::on_open of the handler `k`
unfoldable pub socket_opened : ℕ → ℕ → TcpChannel → TcpChannel
unfolding mark_connected run_hook
socket_opened now k t =
    if t.owners k
    then record t {
      channel = mark_connected now true t.channel;
      calls = run_hook t.connected_hook (connected_callback 0) t.calls;
    }
    else t

-- TcpHandler::on_close
unfoldable pub socket_closed : ℕ → TcpChannel → TcpChannel
unfolding mark_closed run_hook
socket_closed k t =
    if t.owners k
    then record t {
      channel = mark_closed t.channel;
      calls = run_hook t.closed_hook closed_callback t.calls;
    }
    else t

-- TcpHandler::on_read_data
unfoldable pub socket_read : ℕ → ℕ → List ℕ → TcpChannel → TcpChannel
unfolding add_recv_bytes run_hook
socket_read now k bytes t =
    if t.owners k
    then record t {
      channel = add_recv_bytes now (length bytes) t.channel;
      calls = run_hook t.bytes_hook (bytes_callback bytes) t.calls;
    }
    else t
