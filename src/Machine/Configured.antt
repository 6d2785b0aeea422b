-- ===== src/Machine/Configured.antt =====
-- src/zfgw_vm.cpp with src/zfgw.cpp: the configuration that a request sets and a later start reads.
use libfgw.Prelude.{
  ℕ, ◌≤◌, ◌≢◌, ◌≡◌, sym, ◌∙◌, ap, subst, Bool, true, not, List, Option, some, if◌then◌else◌, ==_iff,
  length,
}
use libfgw.Codes.{Result, ok, err, config_version_ok}
use libfgw.Config.{FgwConfig, Store, save_config, load_config}
use libfgw.Codec.Zds.{Zds, ZdsLaws}
use libfgw.Codec.Configs.{ConfigInRange}
use libfgw.Codec.Stored.{zds_store, stamped, load_config-save_config}
use libfgw.Machine.State.{ZfgwMachine, MachineEnv, zfgw_machine}
use libfgw.Machine.Bringup.{do_bringup, machine_start}
use libfgw.Machine.Rpc.{mlf_set_config}

set_config-file :
    (env : MachineEnv) (config : FgwConfig) (v : ZfgwMachine) (bytes : List ℕ)
    → env.has_stub ≡ true
    → config_version_ok config.config_version ≡ true
    → save_config env.store env.config_path config ≡ (ok 0, some bytes)
    → (mlf_set_config env (record { config = config }) v).1.file ≡ some bytes
set_config-file env config v bytes stub version saved =
    unfold mlf_set_config in rw (version, stub, saved)

loaded_start :
    {A : Type 0} (stub : Bool) (r : Result FgwConfig) (config : FgwConfig) (x y : A)
    (f : FgwConfig → A)
    → stub ≡ true
    → r ≡ ok config
    → (if not stub then x else elim r [ err e ↦ y | ok c ↦ f c ]) ≡ f config
loaded_start stub r config x y f hs hr = rw (hs, hr)

start-loaded :
    (env : MachineEnv) (v : ZfgwMachine) (config : FgwConfig)
    → env.has_stub ≡ true
    → load_config env.store v.file ≡ ok config
    → machine_start env v ≡ do_bringup env (record v { config = config })
unfolding machine_start
start-loaded env v config stub loaded =
    loaded_start env.has_stub (load_config env.store v.file) config _ _
      (λ c. do_bringup env (record v { config = c })) stub loaded

stamped_again :
    (config : FgwConfig) → config_version_ok config.config_version ≡ true → stamped config ≡ config
unfolding config_version_ok
stamped_again config version =
    ap (λ (n : ℕ). record config { config_version = n })
      (sym ((==_iff config.config_version libfgw.Codes.config_version).0 version))

-- A configuration in range and of this build's version that a request sets, on a host with a stub,
-- and that is saved as a whole and with a byte at least, is the one that a machine made from the
-- file is brought up with, by a codec for which zce's laws hold, if the pool has room for the file.
pub mlf_set_config-machine_start :
    (env : MachineEnv) (z : Zds)
    → ZdsLaws z
    → (room : ℕ) (space : ℕ → ℕ) (writable : List ℕ → Bool) (written : List ℕ → List ℕ → ℕ)
    → (config : FgwConfig) (v : ZfgwMachine) (bytes : List ℕ) → env.has_stub ≡ true
    → env.store ≡ zds_store z room space writable written
    → ConfigInRange z config
    → config_version_ok config.config_version ≡ true
    → length bytes ≢ 0
    → length bytes ≤ space (length bytes)
    → save_config env.store env.config_path config ≡ (ok 0, some bytes)
    → machine_start env (zfgw_machine (mlf_set_config env (record { config = config }) v).1.file)
      ≡ do_bringup env (record (zfgw_machine (some bytes)) { config = config })
mlf_set_config-machine_start env z zl room space writable written config v bytes stub store holds
      version some_byte fits saved =
    ap (λ (f : Option (List ℕ)). machine_start env (zfgw_machine f))
      (set_config-file env config v bytes stub version saved)
    ∙ start-loaded env (zfgw_machine (some bytes)) config stub loads
  where
    again : stamped config ≡ config
    again = stamped_again config version

    loads : load_config env.store (some bytes) ≡ ok config
    loads =
        subst (λ (s : Store). load_config s (some bytes) ≡ ok config) (sym store)
          (load_config-save_config z zl room space writable written env.config_path config bytes
              (subst (ConfigInRange z) (sym again) holds) some_byte fits
              (subst (λ (s : Store). save_config s env.config_path config ≡ (ok 0, some bytes))
                store saved)
            ∙ ap ok again)
