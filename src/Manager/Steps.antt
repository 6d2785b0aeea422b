-- ===== src/Manager/Steps.antt =====
-- src/zfgw_channel_manager.cpp: what a ChannelManager does, as steps, and that the channel table
-- stays in order.
use libfgw.Prelude.{ℕ, ◌≡◌, List, nat_ord}
use libfgw.Config.{FgwConfig, FgwChannelConfig}
use libfgw.Manager.State.{ChannelManager, ManagerEnv, Timer}
use libfgw.Manager.Channels.{add_channel, remove_channel, make_accepted_channel}
use libfgw.Manager.Traffic.{
  start_link_listener, stop_link_listener, manager_start, manager_stop, add_bytes_subscriber,
  remove_bytes_subscriber, on_heartbeat_tick, with_stream,
}
use libfgw.Manager.Events.{on_channel_connected, on_channel_closed, on_timer, on_read_data}
use libfgw.Stream.State.{DataStream, Env, Event}
use libfgw.Manager.Table.{TableOk}

abbrev pub InOrder : ChannelManager → Type 0
InOrder m = TableOk m.links.objects m.links.channels m.next_object

-- A call of a stream may send on the channels, but adds and removes none, and opens and closes no socket.
pub record Mild (call : DataStream → DataStream) : Type 0 where
  pub keeps_channels : (s : DataStream) → (call s).links.channels ≡ s.links.channels
  pub keeps_ids :
      (s : DataStream) (p : ℕ)
      → ((call s).links.objects p).channel_id ≡ (s.links.objects p).channel_id
  pub keeps_sockets :
      (s : DataStream) (p : ℕ) → ((call s).links.objects p).has_tcp ≡ (s.links.objects p).has_tcp

-- So may a session handler, while it is called.
abbrev pub Gentle : Env → Type 0
Gentle env = (ev : Event) → Mild (env.react ev)

-- What a manager does, and between it the calls of its streams from outside. `stream_env` is what the
-- streams call.
pub data Step (env : ManagerEnv) (stream_env : Env) : ChannelManager → ChannelManager → Type 0 where
  started :
      (cfg : FgwConfig) (m : ChannelManager) → Step env stream_env m (manager_start env cfg m).1
  stopped : (m : ChannelManager) → Step env stream_env m (manager_stop m)
  added :
      (cfg : FgwChannelConfig) (m : ChannelManager)
      → Step env stream_env m (add_channel env cfg m).1
  removed : (id : ℕ) (m : ChannelManager) → Step env stream_env m (remove_channel id m).1
  accepted : (m : ChannelManager) → Step env stream_env m (make_accepted_channel m)
  listened :
      (ip : List ℕ) (port : ℕ) (m : ChannelManager)
      → Step env stream_env m (start_link_listener env ip port m).1
  unlistened : (m : ChannelManager) → Step env stream_env m (stop_link_listener m)
  subscribed_to : (q : ℕ) (m : ChannelManager) → Step env stream_env m (add_bytes_subscriber q m)
  unsubscribed : (q : ℕ) (m : ChannelManager) → Step env stream_env m (remove_bytes_subscriber q m)
  connected :
      (now p : ℕ) (m : ChannelManager) → Step env stream_env m (on_channel_connected env now p m)
  closed : (p : ℕ) (m : ChannelManager) → Step env stream_env m (on_channel_closed p m)
  received :
      (now p : ℕ) (bytes : List ℕ) (m : ChannelManager)
      → Step env stream_env m (on_read_data stream_env now p bytes m)
  fired : (t : Timer) (m : ChannelManager) → Step env stream_env m (on_timer env t m)
  beaten :
      (now : ℕ → ℕ) (m : ChannelManager)
      → Step env stream_env m (on_heartbeat_tick env stream_env now m)
  used :
      (q : ℕ) (call : DataStream → DataStream) (m : ChannelManager)
      → Mild call
      → Step env stream_env m (with_stream q call m)

pub data Reaches (env : ManagerEnv) (stream_env : Env)
    : ChannelManager → ChannelManager → Type 0 where
  here : (m : ChannelManager) → Reaches env stream_env m m
  and_then :
      {m m' m'' : ChannelManager}
      → Reaches env stream_env m m'
      → Step env stream_env m' m''
      → Reaches env stream_env m m''
