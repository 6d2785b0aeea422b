-- ===== src/Codec/Stored.antt =====
-- src/zfgw.cpp with src/zfgw_pack.cpp: a configuration that was saved is loaded again.
use libfgw.Prelude.{
  ℕ, ◌≤◌, ◌≡◌, refl, ◌≢◌, Bool, true, List, [], ◌∷◌, append-nil, some, length, arith,
}
use libfgw.Codes.{Result, ok, err, config_version, config_version_ok, ◌>>=◌}
use libfgw.Config.{FgwConfig, Store, save_config, load_config}
use libfgw.Codec.Zds.{Zds, ZdsLaws}
use libfgw.Codec.Configs.{pack_config, unpack_config, ConfigInRange}
use libfgw.Codec.Configs.Laws.{unpack_config-pack_config}

-- The store whose codec is that of the configuration. `room` is the block that is packed into.
unfoldable pub zds_store : Zds → ℕ → (ℕ → ℕ) → (List ℕ → Bool) → (List ℕ → List ℕ → ℕ) → Store
unfolding pack_config unpack_config
zds_store z room space writable written = record {
  pack = pack_config z true room;
  unpack = λ bytes. unpack_config z true bytes >>= λ (config, rest). ok config;
  space = space;
  writable = writable;
  written = written;
}

-- The version of the running build, stamped on a configuration that is saved.
abbrev pub stamped : FgwConfig → FgwConfig
stamped config = record config { config_version = libfgw.Codes.config_version }

packed_of :
    (store : Store) (path : List ℕ) (config : FgwConfig) (bytes : List ℕ)
    → save_config store path config ≡ (ok 0, some bytes)
    → store.pack (stamped config) ≡ ok bytes
unfolding save_config
packed_of store path config bytes h = ground arith

load-unpacked :
    (store : Store) (config : FgwConfig) (bytes : List ℕ)
    → length bytes ≢ 0
    → length bytes ≤ store.space (length bytes)
    → store.unpack bytes ≡ ok (stamped config)
    → load_config store (some bytes) ≡ ok (stamped config)
unfolding load_config config_version_ok
load-unpacked store config [] some_byte room unpacked = absurd (some_byte refl)
load-unpacked store config (b ∷ bs) some_byte room unpacked = ground arith

-- The bytes that zfgw_save_config put in the file with success, if there is any, are loaded again
-- as the configuration with the version of the running build, if its values are in range, zce's
-- laws hold for the codec and the pool has room for the file.
pub load_config-save_config :
    (z : Zds)
    → ZdsLaws z
    → (room : ℕ) (space : ℕ → ℕ) (writable : List ℕ → Bool) (written : List ℕ → List ℕ → ℕ)
    → (path : List ℕ) (config : FgwConfig) (bytes : List ℕ) → ConfigInRange z (stamped config)
    → length bytes ≢ 0
    → length bytes ≤ space (length bytes)
    → save_config (zds_store z room space writable written) path config ≡ (ok 0, some bytes)
    → load_config (zds_store z room space writable written) (some bytes) ≡ ok (stamped config)
unfolding zds_store
load_config-save_config z zl room space writable written path config bytes holds some_byte fits
      saved =
    let store = zds_store z room space writable written in
    load-unpacked store config bytes some_byte fits
      (reads (packed_of store path config bytes saved))
  where
    reads :
        (zds_store z room space writable written).pack (stamped config) ≡ ok bytes
        → (zds_store z room space writable written).unpack bytes ≡ ok (stamped config)
    reads packed = rw (
        rw (append-nil) at
          (unpack_config-pack_config z zl true room (stamped config) bytes [] holds packed))
