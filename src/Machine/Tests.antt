-- ===== src/Machine/Tests.antt =====
-- The theorems on ZfgwMachine at concrete machines.
use libfgw.Prelude.{◌≡◌, refl, true, [], ◌∷◌, some, none, length, arith}
use libfgw.Codes.{role_of, unknown, config_version_ok}
use libfgw.Codec.Zds.{empty_config}
use libfgw.Codec.Sample.{sample, sample-ZdsLaws}
use libfgw.Codec.Tests.{
  one_channel, one_channel_bytes, one_channel-ConfigInRange, disk, one_channel_saved,
}
use libfgw.Stream.Tests.{test_env}
use libfgw.Transit.Tests.{test_env as transit_test_env}
use libfgw.Manager.Tests.{manager_test_env, idle_streams}
use libfgw.Machine.State.{ZfgwMachine, MachineEnv, zfgw_machine}
use libfgw.Machine.Bringup.{do_bringup, machine_start}
use libfgw.Machine.Rpc.{call_dblock, start, mlf_set_config}
use libfgw.Machine.Shape.{parts, WellFormed, BroughtUp, do_bringup-BroughtUp}
use libfgw.Machine.Answers.{bringup_answer, do_bringup-bringup_answer}
use libfgw.Machine.Requests.{call_dblock-WellFormed}
use libfgw.Machine.Configured.{mlf_set_config-machine_start}

abbrev machine_test_env : MachineEnv
machine_test_env = record {
  manager_env = manager_test_env;
  stream_env = test_env;
  transit_env = transit_test_env;
  store = disk;
  has_stub = true;
  has_reactor = true;
  config_path = 47 ∷ [];
  inport_listens = λ port. true;
  client_addr = λ sid. [];
  client_opened = λ sid. 0;
  relay_opened = λ key. 0;
  new_stream = idle_streams;
}

abbrev new_machine : ZfgwMachine
new_machine = zfgw_machine none

do_bringup-BroughtUp_example :
    BroughtUp
      (role_of 0)
      (do_bringup machine_test_env new_machine).0
      (parts (do_bringup machine_test_env new_machine).1)
do_bringup-BroughtUp_example = do_bringup-BroughtUp machine_test_env new_machine refl

-- A forced start, by the bytes of its request.
call_dblock-WellFormed_example :
    WellFormed (call_dblock machine_test_env start (1 ∷ 1 ∷ []) new_machine).1
call_dblock-WellFormed_example =
    call_dblock-WellFormed machine_test_env start (1 ∷ 1 ∷ []) new_machine (unknown, refl)

this_version : config_version_ok one_channel.config_version ≡ true
unfolding config_version_ok
this_version = refl

mlf_set_config-machine_start_example :
    machine_start machine_test_env (
      zfgw_machine
        (mlf_set_config machine_test_env (record { config = one_channel }) new_machine).1.file)
    ≡ do_bringup machine_test_env
        (record (zfgw_machine (some one_channel_bytes)) { config = one_channel })
mlf_set_config-machine_start_example =
    mlf_set_config-machine_start machine_test_env sample sample-ZdsLaws 200 (λ n. 300)
      (λ path. true) (λ path bytes. length bytes) one_channel new_machine one_channel_bytes refl
      refl one_channel-ConfigInRange this_version (λ e. absurd (omega arith)) (omega arith)
      one_channel_saved

-- An Outport that listens on port 900.
abbrev outport_machine : ZfgwMachine
outport_machine = record new_machine {
  config = record empty_config { role = 1; outport_listen_port = 900 };
}

do_bringup-bringup_answer_example :
    (do_bringup machine_test_env outport_machine).0
    ≡ bringup_answer machine_test_env outport_machine.config (role_of 1)
do_bringup-bringup_answer_example =
    do_bringup-bringup_answer machine_test_env outport_machine refl refl
