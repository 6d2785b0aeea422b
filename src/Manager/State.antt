-- ===== src/Manager/State.antt =====
-- src/zfgw_channel_manager.h: the state of a ChannelManager, and what it uses of other code.
use libfgw.Prelude.{ℕ, Bool, false, List, [], ◌∷◌, ◌++◌, if◌then◌else◌, length}
use libfgw.Codes.{ℤ, Result}
use libfgw.Config.{FgwConfig, FgwChannelConfig}
use libfgw.Codec.Zds.{Zds, empty_config}
use libfgw.Link.Channel.{FgwChannel, FgwEndpoint, tcp, new_channel, send_bytes}
use libfgw.Link.Selector.{fresh_selector}
use libfgw.Link.Pool.{Links, change}
use libfgw.Stream.State.{DataStream}

-- A one-shot timer of the reactor: after so many seconds a channel is dialled again, or, on the next
-- turn, a closed inbound channel is removed.
pub data Timer : Type 0 where
  reconnect : ℕ → FgwChannelConfig → Timer
  drop_channel : ℕ → Timer

-- The calls of the two callbacks that setCallbacks sets, with the channel object.
pub data Notice : Type 0 where
  channel_opened : ℕ → Notice
  channel_closed : ℕ → Notice

-- Objects are known by their addresses: `links` holds the channels, `streams` the DataStreams.
-- `wire` is what was handed to a socket and `timers` what was scheduled, oldest first.
pub record ChannelManager : Type 0 where
  pub config : FgwConfig
  pub links : Links
  pub next_object : ℕ
  pub accepted_id_seq : ℕ
  pub link_acceptor : Bool
  pub heartbeat_timer : Bool
  pub shared_utp : Bool
  pub streams : ℕ → DataStream
  pub bytes_subscribers : List ℕ
  pub wire : List (ℕ × List ℕ)
  pub timers : List Timer
  pub notices : List Notice

-- The code that a ChannelManager calls and that is not its own: zds, the room of a block for a size,
-- zce::Tcp's write, the connector's start, whether an address can be listened on, and the nonce of
-- the process.
pub record ManagerEnv : Type 1 where
  pub zds : Zds
  pub space : ℕ → ℕ
  pub tcp_write : List (ℕ × List ℕ) → ℕ → List ℕ → ℤ
  pub start_connect : FgwEndpoint → Result ℕ
  pub listen : List ℕ → ℕ → Bool
  pub udp_listen : List ℕ → ℕ → Bool
  pub generation : ℕ

abbrev pub no_channel_object : FgwChannel
no_channel_object = new_channel 0 tcp 0

-- The constructor.
abbrev pub channel_manager : (ℕ → DataStream) → ChannelManager
channel_manager streams = record {
  config = empty_config;
  links = record { objects = λ p. no_channel_object; channels = []; selector = fresh_selector };
  next_object = 0;
  accepted_id_seq = 0x80000000;
  link_acceptor = false;
  heartbeat_timer = false;
  shared_utp = false;
  streams = streams;
  bytes_subscribers = [];
  wire = [];
  timers = [];
  notices = [];
}

-- What a call changes in the object at `p`.
unfoldable pub change_object : ℕ → (FgwChannel → FgwChannel) → ChannelManager → ChannelManager
unfolding change
change_object p f m = record m { links = change p f m.links }

-- sendBytes on the channel at `p`
unfoldable pub send_frame : ManagerEnv → ℕ → List ℕ → ChannelManager → ChannelManager
unfolding send_bytes change_object
send_frame env p frame m =
    let (r, called, ch) =
      send_bytes (env.space (length frame)) (env.tcp_write m.wire p frame) (length frame)
        (m.links.objects p) in
    let sent = change_object p (λ old. ch) m in
    record sent { wire = if called then m.wire ++ (p, frame) ∷ [] else m.wire }
