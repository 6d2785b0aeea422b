-- ===== src/Codec/Requests/Laws.antt =====
-- src/zfgw_pack.cpp: the requests of the machine and their answer come back as they were packed.
use libfgw.Prelude.{ℕ, Bool, List, ◌++◌, ◌≡◌, arith}
use libfgw.Codes.{ok}
use libfgw.Codec.Messages.{
  FgwEmpty, FgwStartRequest, FgwStartResult, FgwAddChannelRequest, FgwRemoveChannelRequest,
  FgwSetConfigRequest,
}
use libfgw.Codec.Zds.{Zds, ZdsLaws}
use libfgw.Codec.Fields.{stop, count}
use libfgw.Codec.RoundTrip.{AllLaws}
use libfgw.Codec.Newer.{unpack_newer}
use libfgw.Codec.Requests.{
  empty_fields, empty_values, pack_empty, unpack_empty, EmptyInRange, start_request_fields,
  start_request_values, pack_start_request, unpack_start_request, StartRequestInRange,
  start_result_fields, start_result_values, pack_start_result, unpack_start_result,
  StartResultInRange, add_channel_request_fields, add_channel_request_values,
  pack_add_channel_request, unpack_add_channel_request, AddChannelRequestInRange,
  remove_channel_request_fields, remove_channel_request_values, pack_remove_channel_request,
  unpack_remove_channel_request, RemoveChannelRequestInRange, set_config_request_fields,
  set_config_request_values, pack_set_config_request, unpack_set_config_request,
  SetConfigRequestInRange,
}
use libfgw.Codec.Configs.Laws.{channel_config_member-laws, config_member-laws}

pub empty_laws : {z : Zds} → ZdsLaws z → AllLaws (empty_fields z)
empty_laws {z} zl = (zl.byte_laws, tt)

-- What is packed of a FgwEmpty is unpacked to it, whatever follows.
pub unpack_empty-pack_empty :
    (z : Zds)
    → ZdsLaws z
    → (has_prefix : Bool) (size : ℕ) (t : FgwEmpty) (bytes rest : List ℕ) → EmptyInRange z t
    → pack_empty z has_prefix size t ≡ ok bytes
    → unpack_empty z has_prefix (bytes ++ rest) ≡ ok (t, rest)
unfolding pack_empty unpack_empty
unpack_empty-pack_empty z zl has_prefix size t bytes rest holds packed = rw (
    unpack_newer z zl (empty_fields z) stop (empty_values z t) tt (empty_laws zl) tt holds tt
      (unfold count in omega arith) has_prefix size bytes rest packed)

pub start_request_laws : {z : Zds} → ZdsLaws z → AllLaws (start_request_fields z)
start_request_laws {z} zl = (zl.byte_laws, tt)

-- What is packed of a FgwStartRequest is unpacked to it, whatever follows.
pub unpack_start_request-pack_start_request :
    (z : Zds)
    → ZdsLaws z
    → (has_prefix : Bool) (size : ℕ) (t : FgwStartRequest) (bytes rest : List ℕ)
    → StartRequestInRange z t
    → pack_start_request z has_prefix size t ≡ ok bytes
    → unpack_start_request z has_prefix (bytes ++ rest) ≡ ok (t, rest)
unfolding pack_start_request unpack_start_request
unpack_start_request-pack_start_request z zl has_prefix size t bytes rest holds packed = rw (
    unpack_newer z zl (start_request_fields z) stop (start_request_values z t) tt
      (start_request_laws zl) tt holds tt (unfold count in omega arith) has_prefix size bytes rest
      packed)

pub start_result_laws : {z : Zds} → ZdsLaws z → AllLaws (start_result_fields z)
start_result_laws {z} zl = (zl.int32_laws, (zl.astring_laws, tt))

-- What is packed of a FgwStartResult is unpacked to it, whatever follows.
pub unpack_start_result-pack_start_result :
    (z : Zds)
    → ZdsLaws z
    → (has_prefix : Bool) (size : ℕ) (t : FgwStartResult) (bytes rest : List ℕ)
    → StartResultInRange z t
    → pack_start_result z has_prefix size t ≡ ok bytes
    → unpack_start_result z has_prefix (bytes ++ rest) ≡ ok (t, rest)
unfolding pack_start_result unpack_start_result
unpack_start_result-pack_start_result z zl has_prefix size t bytes rest holds packed = rw (
    unpack_newer z zl (start_result_fields z) stop (start_result_values z t) tt
      (start_result_laws zl) tt holds tt (unfold count in omega arith) has_prefix size bytes rest
      packed)

pub add_channel_request_laws : {z : Zds} → ZdsLaws z → AllLaws (add_channel_request_fields z)
add_channel_request_laws {z} zl = (channel_config_member-laws zl, tt)

-- What is packed of a FgwAddChannelRequest is unpacked to it, whatever follows.
pub unpack_add_channel_request-pack_add_channel_request :
    (z : Zds)
    → ZdsLaws z
    → (has_prefix : Bool) (size : ℕ) (t : FgwAddChannelRequest) (bytes rest : List ℕ)
    → AddChannelRequestInRange z t
    → pack_add_channel_request z has_prefix size t ≡ ok bytes
    → unpack_add_channel_request z has_prefix (bytes ++ rest) ≡ ok (t, rest)
unfolding pack_add_channel_request unpack_add_channel_request
unpack_add_channel_request-pack_add_channel_request z zl has_prefix size t bytes rest holds packed =
    rw (
      unpack_newer z zl (add_channel_request_fields z) stop (add_channel_request_values z t) tt
        (add_channel_request_laws zl) tt holds tt (unfold count in omega arith) has_prefix size
        bytes rest packed)

pub remove_channel_request_laws : {z : Zds} → ZdsLaws z → AllLaws (remove_channel_request_fields z)
remove_channel_request_laws {z} zl = (zl.uint32_laws, tt)

-- What is packed of a FgwRemoveChannelRequest is unpacked to it, whatever follows.
pub unpack_remove_channel_request-pack_remove_channel_request :
    (z : Zds)
    → ZdsLaws z
    → (has_prefix : Bool) (size : ℕ) (t : FgwRemoveChannelRequest) (bytes rest : List ℕ)
    → RemoveChannelRequestInRange z t
    → pack_remove_channel_request z has_prefix size t ≡ ok bytes
    → unpack_remove_channel_request z has_prefix (bytes ++ rest) ≡ ok (t, rest)
unfolding pack_remove_channel_request unpack_remove_channel_request
unpack_remove_channel_request-pack_remove_channel_request z zl has_prefix size t bytes rest holds
      packed =
    rw (
      unpack_newer z zl (remove_channel_request_fields z) stop (remove_channel_request_values z t)
        tt (remove_channel_request_laws zl) tt holds tt (unfold count in omega arith) has_prefix
        size bytes rest packed)

pub set_config_request_laws : {z : Zds} → ZdsLaws z → AllLaws (set_config_request_fields z)
set_config_request_laws {z} zl = (config_member-laws zl, tt)

-- What is packed of a FgwSetConfigRequest is unpacked to it, whatever follows.
pub unpack_set_config_request-pack_set_config_request :
    (z : Zds)
    → ZdsLaws z
    → (has_prefix : Bool) (size : ℕ) (t : FgwSetConfigRequest) (bytes rest : List ℕ)
    → SetConfigRequestInRange z t
    → pack_set_config_request z has_prefix size t ≡ ok bytes
    → unpack_set_config_request z has_prefix (bytes ++ rest) ≡ ok (t, rest)
unfolding pack_set_config_request unpack_set_config_request
unpack_set_config_request-pack_set_config_request z zl has_prefix size t bytes rest holds packed =
    rw (
      unpack_newer z zl (set_config_request_fields z) stop (set_config_request_values z t) tt
        (set_config_request_laws zl) tt holds tt (unfold count in omega arith) has_prefix size bytes
        rest packed)
