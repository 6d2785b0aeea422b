-- ===== src/Codec/Configs.antt =====
-- src/zfgw_pack.cpp: the configuration and its parts.
pub mod Laws
use libfgw.Prelude.{ℕ, Bool, true, false, List, [], ◌∷◌, ◌++◌, ◌≡◌, refl, arith}
use libfgw.Codes.{Result, ok, ◌>>=◌, ℤ}
use libfgw.Link.Channel.{FgwEndpoint}
use libfgw.Config.{FgwChannelConfig, FgwConfig}
use libfgw.Stream.State.{FgwHello, FgwLinkFeedback}
use libfgw.Codec.Messages.{
  FgwLinkQuality, FgwSessionStat, FgwStatus, FgwEmpty, FgwStartRequest, FgwStartResult,
  FgwAddChannelRequest, FgwRemoveChannelRequest, FgwSetConfigRequest,
}
use libfgw.Codec.Zds.{
  Zds, Member, array, byte, uint16, uint32, uint64, double, astring, int32, empty_endpoint,
  empty_channel_config, empty_config,
}
use libfgw.Codec.Fields.{Fields, stop, member, Values, count, pack_struct, unpack_struct}
use libfgw.Codec.RoundTrip.{AllHold}

abbrev pub endpoint_fields : Zds → Fields
endpoint_fields z = member (astring z) (member (uint16 z) stop)

abbrev pub endpoint_values : (z : Zds) → FgwEndpoint → Values (endpoint_fields z)
endpoint_values z t = (t.host, (t.port, tt))

unfoldable pub pack_endpoint : Zds → Bool → ℕ → FgwEndpoint → Result (List ℕ)
unfolding pack_struct
pack_endpoint z has_prefix size t =
    pack_struct z (endpoint_fields z) has_prefix size (endpoint_values z t)

abbrev endpoint_of : (z : Zds) → Values (endpoint_fields z) → FgwEndpoint
endpoint_of z v = record { host = v.0; port = v.1.0 }

unfoldable pub unpack_endpoint : Zds → Bool → List ℕ → Result (FgwEndpoint × List ℕ)
unfolding unpack_struct
unpack_endpoint z has_prefix bytes =
    unpack_struct z (endpoint_fields z) has_prefix bytes >>= λ (v, rest). ok (endpoint_of z v, rest)

abbrev pub EndpointInRange : Zds → FgwEndpoint → Type 0
EndpointInRange z t = AllHold (endpoint_fields z) (endpoint_values z t)

abbrev pub endpoint_member : Zds → Member FgwEndpoint
endpoint_member z = record {
  Holds = EndpointInRange z;
  empty = empty_endpoint;
  is_empty = z.is_empty_endpoint;
  pack = pack_endpoint z true;
  unpack = unpack_endpoint z true;
}

abbrev pub channel_config_fields : Zds → Fields
channel_config_fields z =
    member (uint32 z) (member (byte z) (member (endpoint_member z) (member (uint32 z) stop)))

abbrev pub channel_config_values : (z : Zds) → FgwChannelConfig → Values (channel_config_fields z)
channel_config_values z t = (t.channel_id, (t.kind, (t.remote, (t.priority, tt))))

unfoldable pub pack_channel_config : Zds → Bool → ℕ → FgwChannelConfig → Result (List ℕ)
unfolding pack_struct
pack_channel_config z has_prefix size t =
    pack_struct z (channel_config_fields z) has_prefix size (channel_config_values z t)

abbrev channel_config_of : (z : Zds) → Values (channel_config_fields z) → FgwChannelConfig
channel_config_of z v = record {
  channel_id = v.0;
  kind = v.1.0;
  remote = v.1.1.0;
  priority = v.1.1.1.0;
}

unfoldable pub unpack_channel_config : Zds → Bool → List ℕ → Result (FgwChannelConfig × List ℕ)
unfolding unpack_struct
unpack_channel_config z has_prefix bytes =
    unpack_struct z (channel_config_fields z) has_prefix bytes >>= λ (v, rest).
    ok (channel_config_of z v, rest)

abbrev pub ChannelConfigInRange : Zds → FgwChannelConfig → Type 0
ChannelConfigInRange z t = AllHold (channel_config_fields z) (channel_config_values z t)

abbrev pub channel_config_member : Zds → Member FgwChannelConfig
channel_config_member z = record {
  Holds = ChannelConfigInRange z;
  empty = empty_channel_config;
  is_empty = z.is_empty_channel_config;
  pack = pack_channel_config z true;
  unpack = unpack_channel_config z true;
}

abbrev pub config_fields : Zds → Fields
config_fields z = member (byte z) (
    member (uint32 z) (
      member (uint16 z) (
        member (astring z) (
          member (uint16 z) (
            member
              (array z (ChannelConfigInRange z) (pack_channel_config z) (unpack_channel_config z))
              (member (uint16 z) (
                member (uint16 z) (
                  member (uint16 z) (
                    member (uint16 z) (
                      member (uint16 z) (
                        member (byte z)
                          (member (byte z) (member (uint32 z) (member (uint32 z) stop))))))))))))))

abbrev pub config_values : (z : Zds) → FgwConfig → Values (config_fields z)
config_values z t = (
  t.role,
  (
    t.ingress_id,
    (
      t.inport_listen_port,
      (
        t.outport_listen_host,
        (
          t.outport_listen_port,
          (
            t.channels,
            (
              t.segment_size,
              (
                t.recv_window,
                (
                  t.heartbeat_interval,
                  (
                    t.link_timeout,
                    (
                      t.reconnect_max,
                      (
                        t.multipath_mode,
                        (t.enable_crc, (t.route_outport_id, (t.config_version, tt))),
                      ),
                    ),
                  ),
                ),
              ),
            ),
          ),
        ),
      ),
    ),
  ),
)

unfoldable pub pack_config : Zds → Bool → ℕ → FgwConfig → Result (List ℕ)
unfolding pack_struct
pack_config z has_prefix size t =
    pack_struct z (config_fields z) has_prefix size (config_values z t)

abbrev config_of : (z : Zds) → Values (config_fields z) → FgwConfig
config_of z v = record {
  role = v.0;
  ingress_id = v.1.0;
  inport_listen_port = v.1.1.0;
  outport_listen_host = v.1.1.1.0;
  outport_listen_port = v.1.1.1.1.0;
  channels = v.1.1.1.1.1.0;
  segment_size = v.1.1.1.1.1.1.0;
  recv_window = v.1.1.1.1.1.1.1.0;
  heartbeat_interval = v.1.1.1.1.1.1.1.1.0;
  link_timeout = v.1.1.1.1.1.1.1.1.1.0;
  reconnect_max = v.1.1.1.1.1.1.1.1.1.1.0;
  multipath_mode = v.1.1.1.1.1.1.1.1.1.1.1.0;
  enable_crc = v.1.1.1.1.1.1.1.1.1.1.1.1.0;
  route_outport_id = v.1.1.1.1.1.1.1.1.1.1.1.1.1.0;
  config_version = v.1.1.1.1.1.1.1.1.1.1.1.1.1.1.0;
}

unfoldable pub unpack_config : Zds → Bool → List ℕ → Result (FgwConfig × List ℕ)
unfolding unpack_struct
unpack_config z has_prefix bytes =
    unpack_struct z (config_fields z) has_prefix bytes >>= λ (v, rest). ok (config_of z v, rest)

abbrev pub ConfigInRange : Zds → FgwConfig → Type 0
ConfigInRange z t = AllHold (config_fields z) (config_values z t)

abbrev pub config_member : Zds → Member FgwConfig
config_member z = record {
  Holds = ConfigInRange z;
  empty = empty_config;
  is_empty = z.is_empty_config;
  pack = pack_config z true;
  unpack = unpack_config z true;
}
