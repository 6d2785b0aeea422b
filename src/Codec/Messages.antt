-- ===== src/Codec/Messages.antt =====
-- src/zfgw_proto.h: the status report, the requests of ZfgwMachine and their answer.
use libfgw.Prelude.{ℕ, List}
use libfgw.Codes.{ℤ}
use libfgw.Config.{FgwChannelConfig, FgwConfig}

-- loss_rate is a double's bit pattern.
pub record FgwLinkQuality : Type 0 where
  pub channel_id : ℕ
  pub connected : ℕ
  pub rtt_ms : ℕ
  pub loss_rate : ℕ
  pub bytes_sent : ℕ
  pub bytes_recv : ℕ
  pub send_segments : ℕ
  pub recv_segments : ℕ
  pub rexmit_segments : ℕ

pub record FgwSessionStat : Type 0 where
  pub session_id : ℕ
  pub ingress_id : ℕ
  pub client_addr : List ℕ
  pub target_addr : List ℕ
  pub bytes_sent : ℕ
  pub bytes_recv : ℕ
  pub open_timestamp : ℕ

pub record FgwStatus : Type 0 where
  pub running : ℕ
  pub role : ℕ
  pub session_count : ℕ
  pub links : List FgwLinkQuality
  pub sessions : List FgwSessionStat

pub record FgwEmpty : Type 0 where
  pub placeholder : ℕ

pub record FgwStartRequest : Type 0 where
  pub force_restart : ℕ

pub record FgwStartResult : Type 0 where
  pub errcode : ℤ
  pub message : List ℕ

pub record FgwAddChannelRequest : Type 0 where
  pub channel : FgwChannelConfig

pub record FgwRemoveChannelRequest : Type 0 where
  pub channel_id : ℕ

pub record FgwSetConfigRequest : Type 0 where
  pub config : FgwConfig
