-- ===== src/Codec/Configs/Laws.antt =====
-- src/zfgw_pack.cpp: the configuration and its parts come back as they were packed.
use libfgw.Prelude.{ℕ, Bool, true, List, ◌++◌, ◌≡◌, arith}
use libfgw.Codes.{ok}
use libfgw.Link.Channel.{FgwEndpoint}
use libfgw.Config.{FgwChannelConfig, FgwConfig}
use libfgw.Codec.Zds.{Zds, MemberLaws, ZdsLaws, array-laws}
use libfgw.Codec.Fields.{stop, count}
use libfgw.Codec.RoundTrip.{AllLaws}
use libfgw.Codec.Newer.{unpack_newer}
use libfgw.Codec.Configs.{
  endpoint_fields, endpoint_values, pack_endpoint, unpack_endpoint, EndpointInRange,
  endpoint_member, channel_config_fields, channel_config_values, pack_channel_config,
  unpack_channel_config, ChannelConfigInRange, channel_config_member, config_fields, config_values,
  pack_config, unpack_config, ConfigInRange, config_member,
}

pub endpoint_laws : {z : Zds} → ZdsLaws z → AllLaws (endpoint_fields z)
endpoint_laws {z} zl = (zl.astring_laws, (zl.uint16_laws, tt))

-- What is packed of a FgwEndpoint is unpacked to it, whatever follows.
pub unpack_endpoint-pack_endpoint :
    (z : Zds)
    → ZdsLaws z
    → (has_prefix : Bool) (size : ℕ) (t : FgwEndpoint) (bytes rest : List ℕ) → EndpointInRange z t
    → pack_endpoint z has_prefix size t ≡ ok bytes
    → unpack_endpoint z has_prefix (bytes ++ rest) ≡ ok (t, rest)
unfolding pack_endpoint unpack_endpoint
unpack_endpoint-pack_endpoint z zl has_prefix size t bytes rest holds packed = rw (
    unpack_newer z zl (endpoint_fields z) stop (endpoint_values z t) tt (endpoint_laws zl) tt holds
      tt (unfold count in omega arith) has_prefix size bytes rest packed)

pub endpoint_member-laws : {z : Zds} → ZdsLaws z → MemberLaws (endpoint_member z)
endpoint_member-laws {z} zl = record {
  empty_only = λ t h e. zl.endpoint_empty_only t e;
  unpack_packed = λ t h size bytes rest packed.
      unpack_endpoint-pack_endpoint z zl true size t bytes rest h packed;
}

pub channel_config_laws : {z : Zds} → ZdsLaws z → AllLaws (channel_config_fields z)
channel_config_laws {z} zl =
    (zl.uint32_laws, (zl.byte_laws, (endpoint_member-laws zl, (zl.uint32_laws, tt))))

-- What is packed of a FgwChannelConfig is unpacked to it, whatever follows.
pub unpack_channel_config-pack_channel_config :
    (z : Zds)
    → ZdsLaws z
    → (has_prefix : Bool) (size : ℕ) (t : FgwChannelConfig) (bytes rest : List ℕ)
    → ChannelConfigInRange z t
    → pack_channel_config z has_prefix size t ≡ ok bytes
    → unpack_channel_config z has_prefix (bytes ++ rest) ≡ ok (t, rest)
unfolding pack_channel_config unpack_channel_config
unpack_channel_config-pack_channel_config z zl has_prefix size t bytes rest holds packed = rw (
    unpack_newer z zl (channel_config_fields z) stop (channel_config_values z t) tt
      (channel_config_laws zl) tt holds tt (unfold count in omega arith) has_prefix size bytes rest
      packed)

pub channel_config_member-laws : {z : Zds} → ZdsLaws z → MemberLaws (channel_config_member z)
channel_config_member-laws {z} zl = record {
  empty_only = λ t h e. zl.channel_config_empty_only t e;
  unpack_packed = λ t h size bytes rest packed.
      unpack_channel_config-pack_channel_config z zl true size t bytes rest h packed;
}

pub config_laws : {z : Zds} → ZdsLaws z → AllLaws (config_fields z)
config_laws {z} zl = (
  zl.byte_laws,
  (
    zl.uint32_laws,
    (
      zl.uint16_laws,
      (
        zl.astring_laws,
        (
          zl.uint16_laws,
          (
            array-laws zl (ChannelConfigInRange z) (pack_channel_config z) (unpack_channel_config z)
                (λ has_prefix x h size bytes rest packed.
                  unpack_channel_config-pack_channel_config z zl has_prefix size x bytes rest h
                    packed),
            (
              zl.uint16_laws,
              (
                zl.uint16_laws,
                (
                  zl.uint16_laws,
                  (
                    zl.uint16_laws,
                    (
                      zl.uint16_laws,
                      (zl.byte_laws, (zl.byte_laws, (zl.uint32_laws, (zl.uint32_laws, tt)))),
                    ),
                  ),
                ),
              ),
            ),
          ),
        ),
      ),
    ),
  ),
)

-- What is packed of a FgwConfig with its values in range, by a codec for which zce's laws hold, is
-- unpacked to it with or without the presence prefix, and what follows is left over.
pub unpack_config-pack_config :
    (z : Zds)
    → ZdsLaws z
    → (has_prefix : Bool) (size : ℕ) (t : FgwConfig) (bytes rest : List ℕ) → ConfigInRange z t
    → pack_config z has_prefix size t ≡ ok bytes
    → unpack_config z has_prefix (bytes ++ rest) ≡ ok (t, rest)
unfolding pack_config unpack_config
unpack_config-pack_config z zl has_prefix size t bytes rest holds packed = rw (
    unpack_newer z zl (config_fields z) stop (config_values z t) tt (config_laws zl) tt holds tt
      (unfold count in omega arith) has_prefix size bytes rest packed)

pub config_member-laws : {z : Zds} → ZdsLaws z → MemberLaws (config_member z)
config_member-laws {z} zl = record {
  empty_only = λ t h e. zl.config_empty_only t e;
  unpack_packed =
      λ t h size bytes rest packed. unpack_config-pack_config z zl true size t bytes rest h packed;
}
