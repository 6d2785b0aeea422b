-- ===== src/Inport.antt =====
-- src/zfgw_inport.h and src/zfgw_inport.cpp: the entry side, one FgwSession for each TCP client,
-- over the DataStream of Stream.
pub mod Log
pub mod Lifecycle
pub mod Closing
pub mod Serving
pub mod Tests
use libfgw.Prelude.{
  ℕ, ◌+◌, ◌%◌, ◌^◌, Bool, true, false, not, ◌||◌, List, [], ◌∷◌, ◌++◌, some, ltb, ◌==◌,
  if◌then◌else◌, length, Map, insert, erase, nat_ord,
}
use libfgw.Codes.{Result, ok, err, busy, listen_fail, wire_ingress_use_local}
use libfgw.Stream.State.{DataStream, Env}
use libfgw.Stream.Send.{open_session, close_session, send_session_data}

-- `has_client`: `client_tcp_` is not null.
pub record FgwSession : Type 0 where
  pub session_id : ℕ
  pub has_client : Bool
  pub bytes_sent : ℕ
  pub bytes_recv : ℕ
  pub closed : Bool

-- What is done to the clients' sockets, with the session's id.
pub data ClientAction : Type 0 where
  client_write : ℕ → List ℕ → ClientAction
  client_close : ℕ → ClientAction

-- `sessions` holds every session object, known by its id; `registered` is the service's table,
-- whose values are not read.
pub record InportService : Type 0 where
  pub stream : DataStream
  pub sessions : ℕ → FgwSession
  pub registered : Map ℕ Bool
  pub next_session_id : ℕ
  pub listening : Bool
  pub client_actions : List ClientAction

unfoldable pub fgw_session : ℕ → FgwSession
fgw_session sid = record {
  session_id = sid;
  has_client = true;
  bytes_sent = 0;
  bytes_recv = 0;
  closed = false;
}

-- A new InportService; no session of it is there yet.
abbrev pub inport_service : DataStream → InportService
inport_service stream = record {
  stream = stream;
  sessions = λ sid. record (fgw_session sid) { has_client = false; closed = true };
  registered = [];
  next_session_id = 1;
  listening = false;
  client_actions = [];
}

unfoldable pub put_session : FgwSession → InportService → InportService
put_session s t = record t { sessions = λ sid. if sid == s.session_id then s else t.sessions sid }

-- allocateSessionId and the acceptor's factory: a session for a new client. The handler's address
-- is `handler`.
unfoldable pub accept_client : Env → ℕ → InportService → InportService
unfolding fgw_session put_session open_session
accept_client env handler t =
    let sid = t.next_session_id in
    let t1 = put_session (fgw_session sid) t in
    record t1 {
      next_session_id = (sid + 1) % 2 ^ 32;
      registered = insert sid true t.registered;
      stream = (open_session env sid (some handler) t.stream).1;
    }

-- FgwSession::onClientBytes
unfoldable pub on_client_bytes : Env → ℕ → List ℕ → InportService → InportService
unfolding put_session send_session_data
on_client_bytes env sid bytes t =
    let s = t.sessions sid in
    let t1 = put_session (record s { bytes_recv = (s.bytes_recv + length bytes) % 2 ^ 64 }) t in
    if s.closed
    then t
    else record t1 { stream = (send_session_data env sid bytes wire_ingress_use_local t.stream).1 }

-- FgwSession::close
unfoldable pub close_client : Env → ℕ → InportService → InportService
unfolding put_session close_session
close_client env sid t =
    let s = t.sessions sid in
    let t1 = put_session (record s { closed = true; has_client = false }) t in
    if s.closed then t else record t1 {
      stream = close_session env sid wire_ingress_use_local t.stream;
      client_actions =
          if s.has_client then t.client_actions ++ client_close sid ∷ [] else t.client_actions;
      registered = erase sid t.registered;
    }

-- FgwSession::onSessionData
unfoldable pub on_session_data : Env → ℕ → List ℕ → InportService → InportService
unfolding put_session
on_session_data env sid bytes t =
    let s = t.sessions sid in
    let t1 = put_session (record s { bytes_sent = (s.bytes_sent + length bytes) % 2 ^ 64 }) t in
    if not s.has_client || s.closed
    then t
    else if ltb (length (env.acquire (length bytes))) (length bytes)
    then t
    else record t1 { client_actions = t.client_actions ++ client_write sid bytes ∷ [] }

-- start, with what the acceptor's listen says.
unfoldable pub inport_start : Bool → InportService → Result ℕ × InportService
inport_start listens t =
    if t.listening
    then (err busy, t)
    else if listens
    then (ok 0, record t { listening = true })
    else (err listen_fail, t)

unfoldable pub close_clients : Env → Map ℕ Bool → InportService → InportService
unfolding close_client
close_clients env [] t = t
close_clients env ((sid, known) ∷ m) t = close_clients env m (close_client env sid t)

-- stop: the table is emptied, then each session of the copy is closed.
unfoldable pub inport_stop : Env → InportService → InportService
unfolding close_clients
inport_stop env t = close_clients env t.registered (record t { listening = false; registered = [] })

unfoldable pub remove_session : ℕ → InportService → InportService
remove_session sid t = record t { registered = erase sid t.registered }
