-- ===== src/Manager/Events.antt =====
-- src/zfgw_channel_manager.cpp: what happens to a channel: connected, closed, dialled again.
use libfgw.Prelude.{
  ℕ, zero, suc, Bool, true, false, List, [], ◌∷◌, ◌++◌, Option, none, some, if◌then◌else◌, ◌==◌,
}
use libfgw.Config.{FgwConfig, FgwChannelConfig}
use libfgw.Codec.Zds.{empty_endpoint}
use libfgw.Stream.State.{Env}
use libfgw.Link.Channel.{mark_connected, mark_closed, add_recv_bytes}
use libfgw.Manager.State.{
  ChannelManager, ManagerEnv, Timer, reconnect, drop_channel, channel_opened, channel_closed,
  change_object,
}
use libfgw.Manager.Channels.{add_channel, remove_channel}
use libfgw.Manager.Traffic.{send_hello, dispatch_channel_bytes}

-- TcpHandler::on_open: markConnected(true) and onChannelConnected with 0.
unfoldable pub on_channel_connected : ManagerEnv → ℕ → ℕ → ChannelManager → ChannelManager
unfolding mark_connected change_object send_hello
on_channel_connected env now p m =
    let marked = change_object p (mark_connected now true) m in
    send_hello env p (record marked { notices = m.notices ++ channel_opened p ∷ [] })

-- The configuration of the channel id, if there is one; std::find_if.
unfoldable pub configured : ℕ → List FgwChannelConfig → Option FgwChannelConfig
configured id [] = none
configured id (c ∷ cs) = let rest = configured id cs in if c.channel_id == id then some c else rest

-- What a channel is dialled with again.
unfoldable pub redial_config : ℕ → List FgwChannelConfig → FgwChannelConfig
unfolding configured
redial_config id cs = elim (configured id cs) [
  | none ↦ record { channel_id = id; kind = 0; remote = empty_endpoint; priority = 100 }
  | some c ↦ record { channel_id = id; kind = c.kind; remote = c.remote; priority = c.priority }
]

-- reconnect_max in seconds, 30 if it is not set.
unfoldable pub backoff_seconds : FgwConfig → ℕ
backoff_seconds config = if config.reconnect_max == 0 then 30 else config.reconnect_max

-- TcpHandler::on_close: markClosed and onChannelClosed.
unfoldable pub on_channel_closed : ℕ → ChannelManager → ChannelManager
unfolding mark_closed change_object redial_config backoff_seconds
on_channel_closed p m =
    let marked = change_object p mark_closed m in
    let noticed = record marked { notices = m.notices ++ channel_closed p ∷ [] } in
    let ch = m.links.objects p in
    let timer : Timer =
      if ch.accepted
      then drop_channel ch.channel_id
      else reconnect (backoff_seconds m.config) (redial_config ch.channel_id m.config.channels) in
    record noticed { timers = m.timers ++ timer ∷ [] }

-- A one-shot timer fires.
unfoldable pub on_timer : ManagerEnv → Timer → ChannelManager → ChannelManager
unfolding remove_channel add_channel
on_timer env (reconnect seconds cfg) m = (add_channel env cfg (remove_channel cfg.channel_id m).1).1
on_timer env (drop_channel id) m = (remove_channel id m).1

-- TcpHandler::on_read_data: the bytes are counted and handed to the subscribers.
unfoldable pub on_read_data : Env → ℕ → ℕ → List ℕ → ChannelManager → ChannelManager
unfolding add_recv_bytes change_object dispatch_channel_bytes
on_read_data stream_env now p bytes m =
    dispatch_channel_bytes stream_env p bytes
      (change_object p (add_recv_bytes now (libfgw.Prelude.length bytes)) m)
