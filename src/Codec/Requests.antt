-- ===== src/Codec/Requests.antt =====
-- src/zfgw_pack.cpp: the requests of the machine and their answer.
pub mod Laws
use libfgw.Prelude.{ℕ, Bool, true, false, List, [], ◌∷◌, ◌++◌, ◌≡◌, refl, arith}
use libfgw.Codes.{Result, ok, ◌>>=◌, ℤ}
use libfgw.Link.Channel.{FgwEndpoint}
use libfgw.Config.{FgwChannelConfig, FgwConfig}
use libfgw.Stream.State.{FgwHello, FgwLinkFeedback}
use libfgw.Codec.Messages.{
  FgwLinkQuality, FgwSessionStat, FgwStatus, FgwEmpty, FgwStartRequest, FgwStartResult,
  FgwAddChannelRequest, FgwRemoveChannelRequest, FgwSetConfigRequest,
}
use libfgw.Codec.Zds.{
  Zds, Member, array, byte, uint16, uint32, uint64, double, astring, int32, empty_endpoint,
  empty_channel_config, empty_config,
}
use libfgw.Codec.Fields.{Fields, stop, member, Values, count, pack_struct, unpack_struct}
use libfgw.Codec.RoundTrip.{AllHold}
use libfgw.Codec.Configs.{
  endpoint_fields, endpoint_values, pack_endpoint, unpack_endpoint, EndpointInRange,
  endpoint_member, channel_config_fields, channel_config_values, pack_channel_config,
  unpack_channel_config, ChannelConfigInRange, channel_config_member, config_fields, config_values,
  pack_config, unpack_config, ConfigInRange, config_member,
}

abbrev pub empty_fields : Zds → Fields
empty_fields z = member (byte z) stop

abbrev pub empty_values : (z : Zds) → FgwEmpty → Values (empty_fields z)
empty_values z t = (t.placeholder, tt)

unfoldable pub pack_empty : Zds → Bool → ℕ → FgwEmpty → Result (List ℕ)
unfolding pack_struct
pack_empty z has_prefix size t = pack_struct z (empty_fields z) has_prefix size (empty_values z t)

abbrev empty_of : (z : Zds) → Values (empty_fields z) → FgwEmpty
empty_of z v = record { placeholder = v.0 }

unfoldable pub unpack_empty : Zds → Bool → List ℕ → Result (FgwEmpty × List ℕ)
unfolding unpack_struct
unpack_empty z has_prefix bytes =
    unpack_struct z (empty_fields z) has_prefix bytes >>= λ (v, rest). ok (empty_of z v, rest)

abbrev pub EmptyInRange : Zds → FgwEmpty → Type 0
EmptyInRange z t = AllHold (empty_fields z) (empty_values z t)

abbrev pub start_request_fields : Zds → Fields
start_request_fields z = member (byte z) stop

abbrev pub start_request_values : (z : Zds) → FgwStartRequest → Values (start_request_fields z)
start_request_values z t = (t.force_restart, tt)

unfoldable pub pack_start_request : Zds → Bool → ℕ → FgwStartRequest → Result (List ℕ)
unfolding pack_struct
pack_start_request z has_prefix size t =
    pack_struct z (start_request_fields z) has_prefix size (start_request_values z t)

abbrev start_request_of : (z : Zds) → Values (start_request_fields z) → FgwStartRequest
start_request_of z v = record { force_restart = v.0 }

unfoldable pub unpack_start_request : Zds → Bool → List ℕ → Result (FgwStartRequest × List ℕ)
unfolding unpack_struct
unpack_start_request z has_prefix bytes =
    unpack_struct z (start_request_fields z) has_prefix bytes >>= λ (v, rest).
    ok (start_request_of z v, rest)

abbrev pub StartRequestInRange : Zds → FgwStartRequest → Type 0
StartRequestInRange z t = AllHold (start_request_fields z) (start_request_values z t)

abbrev pub start_result_fields : Zds → Fields
start_result_fields z = member (int32 z) (member (astring z) stop)

abbrev pub start_result_values : (z : Zds) → FgwStartResult → Values (start_result_fields z)
start_result_values z t = (t.errcode, (t.message, tt))

unfoldable pub pack_start_result : Zds → Bool → ℕ → FgwStartResult → Result (List ℕ)
unfolding pack_struct
pack_start_result z has_prefix size t =
    pack_struct z (start_result_fields z) has_prefix size (start_result_values z t)

abbrev start_result_of : (z : Zds) → Values (start_result_fields z) → FgwStartResult
start_result_of z v = record { errcode = v.0; message = v.1.0 }

unfoldable pub unpack_start_result : Zds → Bool → List ℕ → Result (FgwStartResult × List ℕ)
unfolding unpack_struct
unpack_start_result z has_prefix bytes =
    unpack_struct z (start_result_fields z) has_prefix bytes >>= λ (v, rest).
    ok (start_result_of z v, rest)

abbrev pub StartResultInRange : Zds → FgwStartResult → Type 0
StartResultInRange z t = AllHold (start_result_fields z) (start_result_values z t)

abbrev pub add_channel_request_fields : Zds → Fields
add_channel_request_fields z = member (channel_config_member z) stop

abbrev pub add_channel_request_values :
    (z : Zds) → FgwAddChannelRequest → Values (add_channel_request_fields z)
add_channel_request_values z t = (t.channel, tt)

unfoldable pub pack_add_channel_request : Zds → Bool → ℕ → FgwAddChannelRequest → Result (List ℕ)
unfolding pack_struct
pack_add_channel_request z has_prefix size t =
    pack_struct z (add_channel_request_fields z) has_prefix size (add_channel_request_values z t)

abbrev add_channel_request_of :
    (z : Zds) → Values (add_channel_request_fields z) → FgwAddChannelRequest
add_channel_request_of z v = record { channel = v.0 }

unfoldable pub unpack_add_channel_request :
    Zds → Bool → List ℕ → Result (FgwAddChannelRequest × List ℕ)
unfolding unpack_struct
unpack_add_channel_request z has_prefix bytes =
    unpack_struct z (add_channel_request_fields z) has_prefix bytes >>= λ (v, rest).
    ok (add_channel_request_of z v, rest)

abbrev pub AddChannelRequestInRange : Zds → FgwAddChannelRequest → Type 0
AddChannelRequestInRange z t =
    AllHold (add_channel_request_fields z) (add_channel_request_values z t)

abbrev pub remove_channel_request_fields : Zds → Fields
remove_channel_request_fields z = member (uint32 z) stop

abbrev pub remove_channel_request_values :
    (z : Zds) → FgwRemoveChannelRequest → Values (remove_channel_request_fields z)
remove_channel_request_values z t = (t.channel_id, tt)

unfoldable pub pack_remove_channel_request :
    Zds → Bool → ℕ → FgwRemoveChannelRequest → Result (List ℕ)
unfolding pack_struct
pack_remove_channel_request z has_prefix size t =
    pack_struct z (remove_channel_request_fields z) has_prefix size
      (remove_channel_request_values z t)

abbrev remove_channel_request_of :
    (z : Zds) → Values (remove_channel_request_fields z) → FgwRemoveChannelRequest
remove_channel_request_of z v = record { channel_id = v.0 }

unfoldable pub unpack_remove_channel_request :
    Zds → Bool → List ℕ → Result (FgwRemoveChannelRequest × List ℕ)
unfolding unpack_struct
unpack_remove_channel_request z has_prefix bytes =
    unpack_struct z (remove_channel_request_fields z) has_prefix bytes >>= λ (v, rest).
    ok (remove_channel_request_of z v, rest)

abbrev pub RemoveChannelRequestInRange : Zds → FgwRemoveChannelRequest → Type 0
RemoveChannelRequestInRange z t =
    AllHold (remove_channel_request_fields z) (remove_channel_request_values z t)

abbrev pub set_config_request_fields : Zds → Fields
set_config_request_fields z = member (config_member z) stop

abbrev pub set_config_request_values :
    (z : Zds) → FgwSetConfigRequest → Values (set_config_request_fields z)
set_config_request_values z t = (t.config, tt)

unfoldable pub pack_set_config_request : Zds → Bool → ℕ → FgwSetConfigRequest → Result (List ℕ)
unfolding pack_struct
pack_set_config_request z has_prefix size t =
    pack_struct z (set_config_request_fields z) has_prefix size (set_config_request_values z t)

abbrev set_config_request_of :
    (z : Zds) → Values (set_config_request_fields z) → FgwSetConfigRequest
set_config_request_of z v = record { config = v.0 }

unfoldable pub unpack_set_config_request :
    Zds → Bool → List ℕ → Result (FgwSetConfigRequest × List ℕ)
unfolding unpack_struct
unpack_set_config_request z has_prefix bytes =
    unpack_struct z (set_config_request_fields z) has_prefix bytes >>= λ (v, rest).
    ok (set_config_request_of z v, rest)

abbrev pub SetConfigRequestInRange : Zds → FgwSetConfigRequest → Type 0
SetConfigRequestInRange z t = AllHold (set_config_request_fields z) (set_config_request_values z t)
