-- ===== src/Relay/Session.antt =====
-- src/zfgw_outport.h and src/zfgw_outport.cpp: FgwRelaySession.
use libfgw.Prelude.{
  ℕ, zero, suc, ◌+◌, ◌%◌, ◌^◌, Bool, true, false, not, ◌&&◌, List, [], ◌∷◌, ◌++◌, ltb, ◌==◌,
  if◌then◌else◌, length, drop, get_or,
}
use libfgw.Relay.Socks.{socks5_ver, partial, unsupported, target, parse_target, target_text}

pub data RelayState : Type 0 where
  await_methods await_request connecting relaying closed : RelayState

-- What a session does to the stream, to the outbound connection and to its service.
pub data Action : Type 0 where
  to_peer : List ℕ → Action
  dial : List ℕ → ℕ → Action
  to_remote : List ℕ → Action
  close_remote : Action
  close_stream : Action
  remove_session : Action

-- `has_remote`: `remote_tcp_` is not null. `actions` is what was done, oldest first.
pub record RelaySession : Type 0 where
  pub peer_ingress_id : ℕ
  pub session_id : ℕ
  pub state : RelayState
  pub rx_buffer : List ℕ
  pub target_addr : List ℕ
  pub has_remote : Bool
  pub bytes_sent : ℕ
  pub bytes_recv : ℕ
  pub actions : List Action

-- What the code relies on: the room of a block of the pool, and whether start_connect succeeds.
pub record RelayEnv : Type 0 where
  pub space : ℕ → ℕ
  pub start_connect : List ℕ → ℕ → Bool

unfoldable pub relay_session : ℕ → ℕ → RelaySession
relay_session peer_ingress session_id = record {
  peer_ingress_id = peer_ingress;
  session_id = session_id;
  state = await_methods;
  rx_buffer = [];
  target_addr = [];
  has_remote = false;
  bytes_sent = 0;
  bytes_recv = 0;
  actions = [];
}

unfoldable pub act : Action → RelaySession → RelaySession
act a s = record s { actions = s.actions ++ a ∷ [] }

abbrev pub is_closed : RelayState → Bool
is_closed closed = true
is_closed await_methods = false
is_closed await_request = false
is_closed connecting = false
is_closed relaying = false

-- FgwRelaySession::close
unfoldable pub close : RelaySession → RelaySession
unfolding act
close s =
    let s1 = record s { state = closed } in
    let s2 = if s.has_remote then record (act close_remote s1) { has_remote = false } else s1 in
    if is_closed s.state then s else act remove_session (act close_stream s2)

-- sendToPeer
unfoldable pub send_to_peer : List ℕ → RelaySession → RelaySession
unfolding act
send_to_peer bytes s = act (to_peer bytes) s

unfoldable pub write_reply : ℕ → RelaySession → RelaySession
unfolding send_to_peer
write_reply rep s = send_to_peer (socks5_ver ∷ rep ∷ 0 ∷ 1 ∷ 0 ∷ 0 ∷ 0 ∷ 0 ∷ 0 ∷ 0 ∷ []) s

-- A parse that goes on, with the bytes used, or one that ends the loop.
pub data Parsed : Type 0 where
  go_on : RelaySession → Parsed
  stop : RelaySession → Parsed

unfoldable pub try_parse_methods : RelaySession → Parsed
unfolding close send_to_peer
try_parse_methods s =
    let nmethods = get_or s.rx_buffer 1 0 in
    let rest = record s { rx_buffer = drop (2 + nmethods) s.rx_buffer } in
    if ltb (length s.rx_buffer) 2
    then stop s
    else if not (get_or s.rx_buffer 0 0 == socks5_ver)
    then stop (close s)
    else if ltb (length s.rx_buffer) (2 + nmethods)
    then stop s
    else go_on (record (send_to_peer (socks5_ver ∷ 0 ∷ []) rest) { state = await_request })

unfoldable pub start_connect : RelayEnv → List ℕ → ℕ → RelaySession → RelaySession
unfolding act write_reply close
start_connect env host port s =
    let s1 = record (act (dial host port) s) { has_remote = true } in
    if env.start_connect host port then s1 else close (write_reply 4 s1)

unfoldable pub try_parse_request : RelayEnv → RelaySession → Parsed
unfolding parse_target target_text start_connect write_reply close
try_parse_request env s =
    let buf = s.rx_buffer in
    if ltb (length buf) 5
    then stop s
    else if not (get_or buf 0 0 == socks5_ver)
    then stop (close s)
    else elim (parse_target buf) [
      | partial ↦ stop s
      | unsupported ↦ stop (close (write_reply 7 s))
      | target host port need ↦
          let rest = record s { rx_buffer = drop need buf } in
          if not (get_or buf 1 0 == 1)
          then stop (close (write_reply 7 rest))
          else go_on (
              start_connect env host port
                (record rest { target_addr = target_text host port; state = connecting }))
    ]

-- The write of what is buffered, if a block can be had; `counted` is whether bytes_sent_ grows.
unfoldable pub flush : RelayEnv → Bool → RelaySession → RelaySession
unfolding act
flush env counted s =
    let leftover = s.rx_buffer in
    let s1 = record s { rx_buffer = [] } in
    let wrote = act (to_remote leftover) s1 in
    if not (length leftover == 0)
      && (s.has_remote && not (ltb (env.space (length leftover)) (length leftover)))
    then (if counted
        then record wrote { bytes_sent = (s.bytes_sent + length leftover) % 2 ^ 64 }
        else wrote)
    else s1

-- The loop of feedRx, by the state.
unfoldable pub feed_loop : ℕ → RelayEnv → RelaySession → RelaySession
unfolding try_parse_methods try_parse_request flush
feed_loop zero env s = s
feed_loop (suc fuel) env s = elim s.state [
  | await_methods ↦ elim (try_parse_methods s) [ go_on s' ↦ feed_loop fuel env s' | stop s' ↦ s' ]
  | await_request ↦ elim (try_parse_request env s) [
    | go_on s' ↦ feed_loop fuel env s'
    | stop s' ↦ s'
  ]
  | relaying ↦ flush env true s
  | connecting ↦ s
  | closed ↦ s
]

-- feedRx; the loop takes at most three turns.
unfoldable pub feed_rx : RelayEnv → List ℕ → RelaySession → RelaySession
unfolding feed_loop
feed_rx env bytes s = feed_loop 3 env (record s { rx_buffer = s.rx_buffer ++ bytes })

unfoldable pub on_remote_open : RelayEnv → RelaySession → RelaySession
unfolding write_reply flush
on_remote_open env s = flush env false (record (write_reply 0 s) { state = relaying })

unfoldable pub on_remote_bytes : List ℕ → RelaySession → RelaySession
unfolding send_to_peer
on_remote_bytes bytes s =
    send_to_peer bytes (record s { bytes_recv = (s.bytes_recv + length bytes) % 2 ^ 64 })

-- What happens to a session: onSessionData, onSessionClose, onRemoteOpen, onRemoteBytes and
-- onRemoteClose. The connection's callbacks come only while it has its owner.
pub data Input : Type 0 where
  session_data : List ℕ → Input
  session_close : Input
  remote_open : Input
  remote_bytes : List ℕ → Input
  remote_close : Input

unfoldable pub handle : RelayEnv → Input → RelaySession → RelaySession
unfolding feed_rx close on_remote_open on_remote_bytes
handle env (session_data bytes) s = feed_rx env bytes s
handle env session_close s = close s
handle env remote_open s = if s.has_remote then on_remote_open env s else s
handle env (remote_bytes bytes) s = if s.has_remote then on_remote_bytes bytes s else s
handle env remote_close s = if s.has_remote then close s else s
