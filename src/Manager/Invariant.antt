-- ===== src/Manager/Invariant.antt =====
-- src/zfgw_channel_manager.cpp: the channel table stays in order, whatever a ChannelManager does.
use libfgw.Prelude.{
  ℕ, ◌≡◌, refl, sym, subst, ◌∙◌, true, false, List, [], ◌∷◌, Option, some, none, Map, lookup,
  nat_ord, arith, some_inj, ◌++◌, take, length, if_either,
}
use libfgw.Codes.{Result, ok, err}
use libfgw.Config.{any_address, FgwConfig, FgwChannelConfig}
use libfgw.Link.Channel.{
  FgwChannel, close_channel, mark_connected, mark_closed, mark_accepted, evaluate_stall,
  add_recv_bytes,
}
use libfgw.Link.Pool.{change}
use libfgw.Manager.State.{
  ChannelManager, ManagerEnv, Timer, reconnect, drop_channel, channel_manager, change_object,
}
use libfgw.Manager.Channels.{put_channel, add_channel, release, make_accepted_channel, add_channels}
use libfgw.Manager.Traffic.{
  send_hello, send_heartbeat, heartbeat_channels, link_timeout_ms, start_link_listener,
  manager_start, stop_link_listener, add_bytes_subscriber, remove_bytes_subscriber, subscribed,
  on_heartbeat_tick,
}
use libfgw.Manager.Events.{on_channel_connected, on_channel_closed, on_timer, on_read_data}
use libfgw.Manager.Table.{Tame, changed-TableOk}
use libfgw.Manager.Steps.{
  InOrder, Step, Reaches, started, stopped, added, removed, accepted, listened, connected, closed,
  fired, beaten, here, and_then, unlistened, subscribed_to, unsubscribed, received, used, Gentle,
}
use libfgw.Manager.State.{channel_opened}
use libfgw.Manager.Traffic.{
  send_encoded, send_hello_payload, hello_frame, heartbeat_frame, hello_of, beat,
}
use libfgw.Codec.Control.{pack_hello}
use libfgw.Manager.Order.{
  close-InOrder, send_frame-InOrder, closed_object, remove_channel-InOrder, put-InOrder,
  add_channel-InOrder,
}
use libfgw.Manager.Streams.{
  Tame-received, dispatch_channel_bytes-InOrder, feedback-InOrder, with_stream-InOrder,
}
use libfgw.Stream.State.{DataStream, Env}
use libfgw.Manager.Stopping.{manager_stop-InOrder}

-- The object that the id had is closed when it is released.
accept-InOrder :
    (id : ℕ) (ch : FgwChannel) (m : ChannelManager) (o : Option ℕ)
    → ch.channel_id ≡ id
    → lookup id m.links.channels ≡ o
    → InOrder m
    → InOrder (put_channel id ch (release o m))
unfolding release
accept-InOrder id ch m none same held inv =
    put-InOrder id ch m same (λ p found. ground (arith, held)) inv
accept-InOrder id ch m (some q) same held inv =
    put-InOrder id ch (change_object q close_channel m) same free (close-InOrder q m inv)
  where
    free :
        (p : ℕ)
        → lookup id (change_object q close_channel m).links.channels ≡ some p
        → ((change_object q close_channel m).links.objects p).has_tcp ≡ false
    free p found =
        subst (λ (r : ℕ). ((change_object q close_channel m).links.objects r).has_tcp ≡ false)
          (some_inj q p (sym held ∙ unfold change_object change in found)) (closed_object q m)

make_accepted_channel-InOrder : (m : ChannelManager) → InOrder m → InOrder (make_accepted_channel m)
unfolding make_accepted_channel mark_accepted
make_accepted_channel-InOrder m inv =
    accept-InOrder m.accepted_id_seq _ m (lookup m.accepted_id_seq m.links.channels) refl refl inv

add_channels-InOrder :
    (env : ManagerEnv) (cs : List FgwChannelConfig) (m : ChannelManager)
    → InOrder m
    → InOrder (add_channels env cs m)
unfolding add_channels
add_channels-InOrder env [] m inv = inv
add_channels-InOrder env (c ∷ cs) m inv =
    add_channels-InOrder env cs (add_channel env c m).1 (add_channel-InOrder env c m inv)

manager_start-InOrder :
    (env : ManagerEnv) (cfg : FgwConfig) (m : ChannelManager)
    → InOrder m
    → InOrder (manager_start env cfg m).1
unfolding manager_start
manager_start-InOrder env cfg m inv = add_channels-InOrder env cfg.channels _ inv

Tame-connected : (now : ℕ) (c : FgwChannel) → Tame c (mark_connected now true c)
unfolding mark_connected
Tame-connected now c = record { same_id = refl; no_socket = λ h. h }

Tame-stall : (now timeout : ℕ) (c : FgwChannel) → Tame c (evaluate_stall now timeout c)
unfolding evaluate_stall
Tame-stall now timeout c = record { same_id = refl; no_socket = λ h. h }

Tame-closed : (c : FgwChannel) → Tame c (mark_closed c)
unfolding mark_closed
Tame-closed c = record { same_id = refl; no_socket = λ h. h }

change-InOrder :
    (p : ℕ) (f : FgwChannel → FgwChannel) (m : ChannelManager)
    → Tame (m.links.objects p) (f (m.links.objects p))
    → InOrder m
    → InOrder (change_object p f m)
unfolding change_object change
change-InOrder p f m t inv = changed-TableOk p f _ _ _ t inv

send_encoded-InOrder :
    (env : ManagerEnv) (p : ℕ) (r : Result (ℕ × List ℕ)) (m : ChannelManager)
    → InOrder m
    → InOrder (send_encoded env p r m)
unfolding send_encoded
send_encoded-InOrder env p (err e) m inv = inv
send_encoded-InOrder env p (ok (wrote, bytes)) m inv =
    send_frame-InOrder env p (take wrote bytes) m inv

send_hello_payload-InOrder :
    (env : ManagerEnv) (p : ℕ) (r : Result (List ℕ)) (m : ChannelManager)
    → InOrder m
    → InOrder (send_hello_payload env p r m)
unfolding send_hello_payload
send_hello_payload-InOrder env p (err e) m inv = inv
send_hello_payload-InOrder env p (ok payload) m inv =
    send_encoded-InOrder env p (hello_frame m.config payload) m inv

send_hello-InOrder :
    (env : ManagerEnv) (p : ℕ) (m : ChannelManager) → InOrder m → InOrder (send_hello env p m)
unfolding send_hello
send_hello-InOrder env p m inv =
    send_hello_payload-InOrder env p (pack_hello env.zds true 64 (hello_of env p m)) m inv

send_heartbeat-InOrder :
    (env : ManagerEnv) (p : ℕ) (m : ChannelManager) → InOrder m → InOrder (send_heartbeat env p m)
unfolding send_heartbeat
send_heartbeat-InOrder env p m inv = send_encoded-InOrder env p (heartbeat_frame m.config) m inv

heartbeat_channels-InOrder :
    (env : ManagerEnv) (now : ℕ → ℕ) (timeout : ℕ) (rest : Map ℕ ℕ) (m : ChannelManager)
    → InOrder m
    → InOrder (heartbeat_channels env now timeout rest m)
unfolding heartbeat_channels beat
heartbeat_channels-InOrder env now timeout [] m inv = inv
heartbeat_channels-InOrder env now timeout ((id, p) ∷ rest) m inv =
    heartbeat_channels-InOrder env now timeout rest (beat env now timeout p m) (
      if_either InOrder (m.links.objects p).connected _ _
        (change-InOrder p (evaluate_stall (now p) timeout) (send_heartbeat env p m)
          (Tame-stall (now p) timeout ((send_heartbeat env p m).links.objects p))
          (send_heartbeat-InOrder env p m inv))
        inv)

on_timer-InOrder :
    (env : ManagerEnv) (t : Timer) (m : ChannelManager) → InOrder m → InOrder (on_timer env t m)
unfolding on_timer
on_timer-InOrder env (reconnect seconds cfg) m inv =
    add_channel-InOrder env cfg _ (remove_channel-InOrder cfg.channel_id m inv)
on_timer-InOrder env (drop_channel id) m inv = remove_channel-InOrder id m inv

add_bytes_subscriber-InOrder :
    (q : ℕ) (m : ChannelManager) → InOrder m → InOrder (add_bytes_subscriber q m)
unfolding add_bytes_subscriber
add_bytes_subscriber-InOrder q m inv =
    if_either InOrder (subscribed q m.bytes_subscribers) m _ inv inv

on_read_data-InOrder :
    (stream_env : Env) (now p : ℕ) (bytes : List ℕ) (m : ChannelManager)
    → Gentle stream_env
    → InOrder m
    → InOrder (on_read_data stream_env now p bytes m)
unfolding on_read_data
on_read_data-InOrder stream_env now p bytes m gentle inv =
    dispatch_channel_bytes-InOrder stream_env p bytes
      (change_object p (add_recv_bytes now (length bytes)) m) gentle
      (change-InOrder p (add_recv_bytes now (length bytes)) m
        (Tame-received now (length bytes) (m.links.objects p)) inv)

on_heartbeat_tick-InOrder :
    (env : ManagerEnv) (stream_env : Env) (now : ℕ → ℕ) (m : ChannelManager)
    → InOrder m
    → InOrder (on_heartbeat_tick env stream_env now m)
unfolding on_heartbeat_tick
on_heartbeat_tick-InOrder env stream_env now m inv =
    feedback-InOrder stream_env
      (heartbeat_channels env now (link_timeout_ms m.config) m.links.channels m)
      (heartbeat_channels-InOrder env now (link_timeout_ms m.config) m.links.channels m inv)
      m.bytes_subscribers

Step-InOrder :
    (env : ManagerEnv) (stream_env : Env) {m m' : ChannelManager}
    → Gentle stream_env
    → Step env stream_env m m'
    → InOrder m
    → InOrder m'
unfolding start_link_listener stop_link_listener remove_bytes_subscriber on_channel_connected
    on_channel_closed
Step-InOrder env stream_env gentle (started cfg m) inv = manager_start-InOrder env cfg m inv
Step-InOrder env stream_env gentle (stopped m) inv = manager_stop-InOrder m inv
Step-InOrder env stream_env gentle (added cfg m) inv = add_channel-InOrder env cfg m inv
Step-InOrder env stream_env gentle (removed id m) inv = remove_channel-InOrder id m inv
Step-InOrder env stream_env gentle (accepted m) inv = make_accepted_channel-InOrder m inv
Step-InOrder env stream_env gentle (listened ip port m) inv =
    if_either (λ (x : Result ℕ × ChannelManager). InOrder x.1) m.link_acceptor _ _ inv
      (if_either (λ (x : Result ℕ × ChannelManager). InOrder x.1) (env.listen (any_address ip) port)
        _ _ inv inv)
Step-InOrder env stream_env gentle (connected now p m) inv =
    send_hello-InOrder env p
      (record (change_object p (mark_connected now true) m) {
        notices = m.notices ++ channel_opened p ∷ [];
      })
      (change-InOrder p (mark_connected now true) m (Tame-connected now (m.links.objects p)) inv)
Step-InOrder env stream_env gentle (closed p m) inv =
    change-InOrder p mark_closed m (Tame-closed (m.links.objects p)) inv
Step-InOrder env stream_env gentle (fired t m) inv = on_timer-InOrder env t m inv
Step-InOrder env stream_env gentle (beaten now m) inv =
    on_heartbeat_tick-InOrder env stream_env now m inv
Step-InOrder env stream_env gentle (unlistened m) inv = inv
Step-InOrder env stream_env gentle (subscribed_to q m) inv = add_bytes_subscriber-InOrder q m inv
Step-InOrder env stream_env gentle (unsubscribed q m) inv = inv
Step-InOrder env stream_env gentle (received now p bytes m) inv =
    on_read_data-InOrder stream_env now p bytes m gentle inv
Step-InOrder env stream_env gentle (used q call m mild) inv = with_stream-InOrder q call m mild inv

new-InOrder : (streams : ℕ → DataStream) → InOrder (channel_manager streams)
unfolding lookup
new-InOrder streams = record {
  keyed = λ id p h. absurd (ground arith);
  fresh = λ id p h. absurd (ground arith);
  owned = λ p h. absurd (ground arith);
}

Reaches-InOrder_from :
    (env : ManagerEnv) (stream_env : Env) {m m' : ChannelManager}
    → Gentle stream_env
    → InOrder m
    → Reaches env stream_env m m'
    → InOrder m'
Reaches-InOrder_from env stream_env gentle inv (here m) = inv
Reaches-InOrder_from env stream_env gentle inv (and_then r step) =
    Step-InOrder env stream_env gentle step (Reaches-InOrder_from env stream_env gentle inv r)

-- Whatever a new manager does, bytes received, ticks, timers and subscribers included, in whatever
-- order: each key of its table leads to an object with that channel id, and every object with a
-- socket is the one that the table has for its channel id. The handlers of the sessions, while they
-- are called, and the calls of the streams from outside in between add and remove no channel and
-- open and close no socket.
pub Reaches-InOrder :
    (env : ManagerEnv) (stream_env : Env) (streams : ℕ → DataStream) (m : ChannelManager)
    → Gentle stream_env
    → Reaches env stream_env (channel_manager streams) m
    → InOrder m
Reaches-InOrder env stream_env streams m gentle r =
    Reaches-InOrder_from env stream_env gentle (new-InOrder streams) r
