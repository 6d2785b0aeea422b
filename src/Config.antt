-- ===== src/Config.antt =====
-- src/zfgw_proto.h: FgwConfig and FgwChannelConfig; src/zfgw.cpp: where a configuration is kept,
-- and how it is saved and loaded. The files and the zds codec are parameters.
use libfgw.Prelude.{
  ℕ, ◌≡◌, arith, Bool, false, not, ◌||◌, List, [], ◌∷◌, ◌++◌, Option, none, some, ltb, ◌==◌,
  if◌then◌else◌, length, take,
}
use libfgw.Codes.{
  Result, ok, err, Errcode, memory, invalid_config, path_file_write, path_file_read, config_version,
  config_version_ok,
}
use libfgw.Link.Channel.{FgwEndpoint}

pub record FgwChannelConfig : Type 0 where
  pub channel_id : ℕ
  pub kind : ℕ
  pub remote : FgwEndpoint
  pub priority : ℕ

pub record FgwConfig : Type 0 where
  pub role : ℕ
  pub ingress_id : ℕ
  pub inport_listen_port : ℕ
  pub outport_listen_host : List ℕ
  pub outport_listen_port : ℕ
  pub channels : List FgwChannelConfig
  pub segment_size : ℕ
  pub recv_window : ℕ
  pub heartbeat_interval : ℕ
  pub link_timeout : ℕ
  pub reconnect_max : ℕ
  pub multipath_mode : ℕ
  pub enable_crc : ℕ
  pub route_outport_id : ℕ
  pub config_version : ℕ

-- An empty address stands for "0.0.0.0", for the link listener and for a transit.
unfoldable pub any_address : List ℕ → List ℕ
any_address [] = 48 ∷ 46 ∷ 48 ∷ 46 ∷ 48 ∷ 46 ∷ 48 ∷ []
any_address (c ∷ cs) = c ∷ cs

-- The codec, the pool's room for a size, and whether a file opens for writing and how much of the
-- bytes is written.
pub record Store : Type 0 where
  pub pack : FgwConfig → Result (List ℕ)
  pub unpack : List ℕ → Result FgwConfig
  pub space : ℕ → ℕ
  pub writable : List ℕ → Bool
  pub written : List ℕ → List ℕ → ℕ

-- dir.back() is '/' or a backslash
unfoldable pub ends_in_separator : List ℕ → Bool
ends_in_separator [] = false
ends_in_separator (c ∷ []) = c == 47 || c == 92
ends_in_separator (c ∷ d ∷ cs) = ends_in_separator (d ∷ cs)

unfoldable pub with_separator : List ℕ → List ℕ
unfolding ends_in_separator
with_separator dir = if ends_in_separator dir then dir else dir ++ 47 ∷ []

-- fgwConfigFilePath. The last part is "/config.zds".
unfoldable pub config_file_path : List ℕ → List ℕ → List ℕ → List ℕ
unfolding with_separator
config_file_path host_dir vmname vmpath =
    let dir = if length host_dir == 0 then host_dir else with_separator host_dir in
    let dir' = if length vmpath == 0 then dir else with_separator (dir ++ vmpath) in
    dir' ++ (vmname ++ 47 ∷ 99 ∷ 111 ∷ 110 ∷ 102 ∷ 105 ∷ 103 ∷ 46 ∷ 122 ∷ 100 ∷ 115 ∷ [])

-- zfgw_save_config: the file's new content if it was opened, and the result.
unfoldable pub save_config : Store → List ℕ → FgwConfig → Result ℕ × Option (List ℕ)
save_config store path config =
    let stamped = record config { config_version = libfgw.Codes.config_version } in
    elim (store.pack stamped) [
      | err e ↦ (err e, none)
      | ok bytes ↦
          if ltb (store.space (length bytes)) (length bytes)
          then (err memory, none)
          else if not (store.writable path)
          then (err path_file_write, none)
          else if store.written path bytes == length bytes
          then (ok 0, some bytes)
          else (err path_file_write, some (take (store.written path bytes) bytes))
    ]

-- zfgw_load_config, with the file's content if it opens.
unfoldable pub load_config : Store → Option (List ℕ) → Result FgwConfig
load_config store none = err path_file_read
load_config store (some []) = err path_file_read
load_config store (some (b ∷ bs)) =
    if ltb (store.space (length (b ∷ bs))) (length (b ∷ bs))
    then err memory
    else elim (store.unpack (b ∷ bs)) [
      | err e ↦ err e
      | ok decoded ↦
          if config_version_ok decoded.config_version then ok decoded else err invalid_config
    ]

-- A configuration that is loaded has this build's version.
pub load_config-version :
    (store : Store) (content : Option (List ℕ)) (config : FgwConfig)
    → load_config store content ≡ ok config
    → config.config_version ≡ libfgw.Codes.config_version
unfolding load_config config_version_ok
load_config-version store none config h = ground arith
load_config-version store (some []) config h = ground arith
load_config-version store (some (b ∷ bs)) config h = ground arith
