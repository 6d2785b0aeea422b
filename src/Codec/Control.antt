-- ===== src/Codec/Control.antt =====
-- src/zfgw_pack.cpp: the payloads of hello and feedback segments.
pub mod Laws
use libfgw.Prelude.{ℕ, Bool, true, false, List, [], ◌∷◌, ◌++◌, ◌≡◌, refl, arith}
use libfgw.Codes.{Result, ok, ◌>>=◌, ℤ}
use libfgw.Link.Channel.{FgwEndpoint}
use libfgw.Config.{FgwChannelConfig, FgwConfig}
use libfgw.Stream.State.{FgwHello, FgwLinkFeedback}
use libfgw.Codec.Messages.{
  FgwLinkQuality, FgwSessionStat, FgwStatus, FgwEmpty, FgwStartRequest, FgwStartResult,
  FgwAddChannelRequest, FgwRemoveChannelRequest, FgwSetConfigRequest,
}
use libfgw.Codec.Zds.{
  Zds, Member, array, byte, uint16, uint32, uint64, double, astring, int32, empty_endpoint,
  empty_channel_config, empty_config,
}
use libfgw.Codec.Fields.{Fields, stop, member, Values, count, pack_struct, unpack_struct}
use libfgw.Codec.RoundTrip.{AllHold}
use libfgw.Codec.Configs.{
  endpoint_fields, endpoint_values, pack_endpoint, unpack_endpoint, EndpointInRange,
  endpoint_member, channel_config_fields, channel_config_values, pack_channel_config,
  unpack_channel_config, ChannelConfigInRange, channel_config_member, config_fields, config_values,
  pack_config, unpack_config, ConfigInRange, config_member,
}

abbrev pub hello_fields : Zds → Fields
hello_fields z = member (uint16 z) (
    member (byte z)
      (member (uint32 z) (member (uint32 z) (member (uint32 z) (member (uint32 z) stop)))))

abbrev pub hello_values : (z : Zds) → FgwHello → Values (hello_fields z)
hello_values z t =
    (t.proto_version, (t.role, (t.ingress_id, (t.outport_id, (t.channel_id, (t.generation, tt))))))

unfoldable pub pack_hello : Zds → Bool → ℕ → FgwHello → Result (List ℕ)
unfolding pack_struct
pack_hello z has_prefix size t = pack_struct z (hello_fields z) has_prefix size (hello_values z t)

abbrev hello_of : (z : Zds) → Values (hello_fields z) → FgwHello
hello_of z v = record {
  proto_version = v.0;
  role = v.1.0;
  ingress_id = v.1.1.0;
  outport_id = v.1.1.1.0;
  channel_id = v.1.1.1.1.0;
  generation = v.1.1.1.1.1.0;
}

unfoldable pub unpack_hello : Zds → Bool → List ℕ → Result (FgwHello × List ℕ)
unfolding unpack_struct
unpack_hello z has_prefix bytes =
    unpack_struct z (hello_fields z) has_prefix bytes >>= λ (v, rest). ok (hello_of z v, rest)

abbrev pub HelloInRange : Zds → FgwHello → Type 0
HelloInRange z t = AllHold (hello_fields z) (hello_values z t)

abbrev pub feedback_fields : Zds → Fields
feedback_fields z =
    member (uint32 z) (member (uint32 z) (member (uint32 z) (member (uint32 z) stop)))

abbrev pub feedback_values : (z : Zds) → FgwLinkFeedback → Values (feedback_fields z)
feedback_values z t =
    (t.decision_epoch, (t.recommended_primary, (t.alive_bitmap, (t.highest_seq, tt))))

unfoldable pub pack_feedback : Zds → Bool → ℕ → FgwLinkFeedback → Result (List ℕ)
unfolding pack_struct
pack_feedback z has_prefix size t =
    pack_struct z (feedback_fields z) has_prefix size (feedback_values z t)

abbrev feedback_of : (z : Zds) → Values (feedback_fields z) → FgwLinkFeedback
feedback_of z v = record {
  decision_epoch = v.0;
  recommended_primary = v.1.0;
  alive_bitmap = v.1.1.0;
  highest_seq = v.1.1.1.0;
}

unfoldable pub unpack_feedback : Zds → Bool → List ℕ → Result (FgwLinkFeedback × List ℕ)
unfolding unpack_struct
unpack_feedback z has_prefix bytes =
    unpack_struct z (feedback_fields z) has_prefix bytes >>= λ (v, rest). ok (feedback_of z v, rest)

abbrev pub FeedbackInRange : Zds → FgwLinkFeedback → Type 0
FeedbackInRange z t = AllHold (feedback_fields z) (feedback_values z t)
