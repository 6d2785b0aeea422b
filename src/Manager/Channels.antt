-- ===== src/Manager/Channels.antt =====
-- src/zfgw_channel_manager.cpp: the channels of the table: adding, removing and accepting one, and
-- the connect of src/zfgw_channel.cpp.
use libfgw.Prelude.{
  ℕ, zero, suc, ◌+◌, ◌%◌, ◌^◌, true, List, [], ◌∷◌, Option, none, some, if◌then◌else◌, lookup,
  insert, erase, has_key, nat_ord,
}
use libfgw.Codes.{Result, ok, err, channel_exists, channel_not_found, invalid_config}
use libfgw.Config.{FgwChannelConfig}
use libfgw.Link.Channel.{
  FgwChannel, FgwEndpoint, ChannelKind, tcp, utp, new_channel, close_channel, mark_accepted,
}
use libfgw.Manager.State.{ChannelManager, ManagerEnv, change_object}

-- connect: what it does to the channel, and its result. FgwTcpChannel closes what it has, makes a
-- handler and starts the connector; FgwUtpChannel refuses, built without libutp.
unfoldable pub connect : ManagerEnv → FgwEndpoint → FgwChannel → Result ℕ × FgwChannel
unfolding close_channel
connect env remote ch = elim ch.kind [
  | tcp ↦ (env.start_connect remote, record (close_channel ch) { has_tcp = true })
  | utp ↦ (err invalid_config, ch)
]

-- ZFGW_CHANNEL_KIND of a configuration's byte.
unfoldable pub kind_of : ℕ → Option ChannelKind
kind_of zero = some tcp
kind_of (suc zero) = some utp
kind_of (suc (suc n)) = none

-- sharedUtpContext, without address: the context is kept if its socket listens.
unfoldable pub shared_utp_context : ManagerEnv → ChannelManager → ChannelManager
shared_utp_context env m = record m {
  shared_utp = if m.shared_utp then true else env.udp_listen [] 0;
}

-- A new channel object in the table.
unfoldable pub put_channel : ℕ → FgwChannel → ChannelManager → ChannelManager
unfolding change_object
put_channel id ch m =
    let placed = change_object m.next_object (λ old. ch) m in
    record placed {
      next_object = m.next_object + 1;
      links = record (placed.links) { channels = insert id m.next_object m.links.channels };
    }

-- The new channel is in the table before it is connected, and stays there if that fails.
unfoldable pub add_new :
    ManagerEnv → ChannelKind → FgwChannelConfig → ChannelManager → Result ℕ × ChannelManager
unfolding connect put_channel
add_new env kind cfg m =
    let (ret, ch) = connect env cfg.remote (new_channel cfg.channel_id kind cfg.priority) in
    (ret, put_channel cfg.channel_id ch m)

-- A uTP channel takes the shared context first.
unfoldable pub with_context : ManagerEnv → ChannelKind → ChannelManager → ChannelManager
unfolding shared_utp_context
with_context env tcp m = m
with_context env utp m = shared_utp_context env m

unfoldable pub add_channel :
    ManagerEnv → FgwChannelConfig → ChannelManager → Result ℕ × ChannelManager
unfolding kind_of with_context add_new
add_channel env cfg m =
    if has_key cfg.channel_id m.links.channels
    then (err channel_exists, m)
    else elim (kind_of cfg.kind) [
      | none ↦ (err invalid_config, m)
      | some kind ↦ add_new env kind cfg (with_context env kind m)
    ]

unfoldable pub remove_channel : ℕ → ChannelManager → Result ℕ × ChannelManager
unfolding change_object close_channel
remove_channel id m = elim (lookup id m.links.channels) [
  | none ↦ (err channel_not_found, m)
  | some p ↦
      let closed = change_object p close_channel m in
      (
        ok 0,
        record closed { links = record (closed.links) { channels = erase id m.links.channels } },
      )
]

-- The object that an id had, if any, is released, and its destructor closes it.
unfoldable pub release : Option ℕ → ChannelManager → ChannelManager
unfolding change_object close_channel
release none m = m
release (some p) m = change_object p close_channel m

-- makeAcceptedChannel, then createAcceptedHandler.
unfoldable pub make_accepted_channel : ChannelManager → ChannelManager
unfolding put_channel mark_accepted release
make_accepted_channel m =
    let id = m.accepted_id_seq in
    let ch = record (mark_accepted (new_channel id tcp 100)) { has_tcp = true } in
    let placed = put_channel id ch (release (lookup id m.links.channels) m) in
    record placed { accepted_id_seq = (id + 1) % 2 ^ 32 }

unfoldable pub add_channels : ManagerEnv → List FgwChannelConfig → ChannelManager → ChannelManager
unfolding add_channel
add_channels env [] m = m
add_channels env (c ∷ cs) m = add_channels env cs (add_channel env c m).1
