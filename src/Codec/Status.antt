-- ===== src/Codec/Status.antt =====
-- src/zfgw_pack.cpp: the status report.
pub mod Laws
use libfgw.Prelude.{ℕ, Bool, true, false, List, [], ◌∷◌, ◌++◌, ◌≡◌, refl, arith}
use libfgw.Codes.{Result, ok, ◌>>=◌, ℤ}
use libfgw.Link.Channel.{FgwEndpoint}
use libfgw.Config.{FgwChannelConfig, FgwConfig}
use libfgw.Stream.State.{FgwHello, FgwLinkFeedback}
use libfgw.Codec.Messages.{
  FgwLinkQuality, FgwSessionStat, FgwStatus, FgwEmpty, FgwStartRequest, FgwStartResult,
  FgwAddChannelRequest, FgwRemoveChannelRequest, FgwSetConfigRequest,
}
use libfgw.Codec.Zds.{
  Zds, Member, array, byte, uint16, uint32, uint64, double, astring, int32, empty_endpoint,
  empty_channel_config, empty_config,
}
use libfgw.Codec.Fields.{Fields, stop, member, Values, count, pack_struct, unpack_struct}
use libfgw.Codec.RoundTrip.{AllHold}
use libfgw.Codec.Configs.{
  endpoint_fields, endpoint_values, pack_endpoint, unpack_endpoint, EndpointInRange,
  endpoint_member, channel_config_fields, channel_config_values, pack_channel_config,
  unpack_channel_config, ChannelConfigInRange, channel_config_member, config_fields, config_values,
  pack_config, unpack_config, ConfigInRange, config_member,
}

abbrev pub link_quality_fields : Zds → Fields
link_quality_fields z = member (uint32 z) (
    member (byte z) (
      member (uint32 z) (
        member (double z) (
          member (uint64 z)
            (member (uint64 z) (member (uint32 z) (member (uint32 z) (member (uint32 z) stop))))))))

abbrev pub link_quality_values : (z : Zds) → FgwLinkQuality → Values (link_quality_fields z)
link_quality_values z t = (
  t.channel_id,
  (
    t.connected,
    (
      t.rtt_ms,
      (
        t.loss_rate,
        (
          t.bytes_sent,
          (t.bytes_recv, (t.send_segments, (t.recv_segments, (t.rexmit_segments, tt)))),
        ),
      ),
    ),
  ),
)

unfoldable pub pack_link_quality : Zds → Bool → ℕ → FgwLinkQuality → Result (List ℕ)
unfolding pack_struct
pack_link_quality z has_prefix size t =
    pack_struct z (link_quality_fields z) has_prefix size (link_quality_values z t)

abbrev link_quality_of : (z : Zds) → Values (link_quality_fields z) → FgwLinkQuality
link_quality_of z v = record {
  channel_id = v.0;
  connected = v.1.0;
  rtt_ms = v.1.1.0;
  loss_rate = v.1.1.1.0;
  bytes_sent = v.1.1.1.1.0;
  bytes_recv = v.1.1.1.1.1.0;
  send_segments = v.1.1.1.1.1.1.0;
  recv_segments = v.1.1.1.1.1.1.1.0;
  rexmit_segments = v.1.1.1.1.1.1.1.1.0;
}

unfoldable pub unpack_link_quality : Zds → Bool → List ℕ → Result (FgwLinkQuality × List ℕ)
unfolding unpack_struct
unpack_link_quality z has_prefix bytes =
    unpack_struct z (link_quality_fields z) has_prefix bytes >>= λ (v, rest).
    ok (link_quality_of z v, rest)

abbrev pub LinkQualityInRange : Zds → FgwLinkQuality → Type 0
LinkQualityInRange z t = AllHold (link_quality_fields z) (link_quality_values z t)

abbrev pub session_stat_fields : Zds → Fields
session_stat_fields z = member (uint32 z) (
    member (uint32 z) (
      member (astring z)
        (member (astring z) (member (uint64 z) (member (uint64 z) (member (uint32 z) stop))))))

abbrev pub session_stat_values : (z : Zds) → FgwSessionStat → Values (session_stat_fields z)
session_stat_values z t = (
  t.session_id,
  (
    t.ingress_id,
    (t.client_addr, (t.target_addr, (t.bytes_sent, (t.bytes_recv, (t.open_timestamp, tt))))),
  ),
)

unfoldable pub pack_session_stat : Zds → Bool → ℕ → FgwSessionStat → Result (List ℕ)
unfolding pack_struct
pack_session_stat z has_prefix size t =
    pack_struct z (session_stat_fields z) has_prefix size (session_stat_values z t)

abbrev session_stat_of : (z : Zds) → Values (session_stat_fields z) → FgwSessionStat
session_stat_of z v = record {
  session_id = v.0;
  ingress_id = v.1.0;
  client_addr = v.1.1.0;
  target_addr = v.1.1.1.0;
  bytes_sent = v.1.1.1.1.0;
  bytes_recv = v.1.1.1.1.1.0;
  open_timestamp = v.1.1.1.1.1.1.0;
}

unfoldable pub unpack_session_stat : Zds → Bool → List ℕ → Result (FgwSessionStat × List ℕ)
unfolding unpack_struct
unpack_session_stat z has_prefix bytes =
    unpack_struct z (session_stat_fields z) has_prefix bytes >>= λ (v, rest).
    ok (session_stat_of z v, rest)

abbrev pub SessionStatInRange : Zds → FgwSessionStat → Type 0
SessionStatInRange z t = AllHold (session_stat_fields z) (session_stat_values z t)

abbrev pub status_fields : Zds → Fields
status_fields z = member (byte z) (
    member (byte z) (
      member (uint32 z) (
        member (array z (LinkQualityInRange z) (pack_link_quality z) (unpack_link_quality z)) (
          member (array z (SessionStatInRange z) (pack_session_stat z) (unpack_session_stat z))
            stop))))

abbrev pub status_values : (z : Zds) → FgwStatus → Values (status_fields z)
status_values z t = (t.running, (t.role, (t.session_count, (t.links, (t.sessions, tt)))))

unfoldable pub pack_status : Zds → Bool → ℕ → FgwStatus → Result (List ℕ)
unfolding pack_struct
pack_status z has_prefix size t =
    pack_struct z (status_fields z) has_prefix size (status_values z t)

abbrev status_of : (z : Zds) → Values (status_fields z) → FgwStatus
status_of z v = record {
  running = v.0;
  role = v.1.0;
  session_count = v.1.1.0;
  links = v.1.1.1.0;
  sessions = v.1.1.1.1.0;
}

unfoldable pub unpack_status : Zds → Bool → List ℕ → Result (FgwStatus × List ℕ)
unfolding unpack_struct
unpack_status z has_prefix bytes =
    unpack_struct z (status_fields z) has_prefix bytes >>= λ (v, rest). ok (status_of z v, rest)

abbrev pub StatusInRange : Zds → FgwStatus → Type 0
StatusInRange z t = AllHold (status_fields z) (status_values z t)
