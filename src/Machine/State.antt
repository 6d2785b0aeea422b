-- ===== src/Machine/State.antt =====
-- src/zfgw_vm.h: the state of a ZfgwMachine, and what it uses of the host.
use libfgw.Prelude.{ℕ, Bool, false, List, [], Option, none, Map}
use libfgw.Config.{FgwConfig, Store}
use libfgw.Codec.Zds.{empty_config}
use libfgw.Stream.State.{DataStream, Env}
use libfgw.Inport.{InportService}
use libfgw.Relay.Session.{RelaySession}
use libfgw.Transit.State.{TransitService, TransitEnv}
use libfgw.Manager.State.{ChannelManager, ManagerEnv}

-- Null pointers are `none`. The stream is the manager's at address 0. `file` is the content of the
-- configuration file. `retired` holds the managers that were stopped, last one first: their one-shot
-- timers hold on to them. `ended_relays` and `ended_transits` hold what the services closed when they
-- were stopped.
pub record ZfgwMachine : Type 0 where
  pub config : FgwConfig
  pub manager : Option ChannelManager
  pub has_stream : Bool
  pub inport : Option InportService
  pub outport : Option (Map (ℕ × ℕ) RelaySession)
  pub transit : Option TransitService
  pub running : Bool
  pub file : Option (List ℕ)
  pub retired : List ChannelManager
  pub ended_relays : List RelaySession
  pub ended_transits : List TransitService

-- The constructor. The source leaves the numbers of the configuration without a value until one is
-- loaded or set; here they are zero.
abbrev pub zfgw_machine : Option (List ℕ) → ZfgwMachine
zfgw_machine file = record {
  config = empty_config;
  manager = none;
  has_stream = false;
  inport = none;
  outport = none;
  transit = none;
  running = false;
  file = file;
  retired = [];
  ended_relays = [];
  ended_transits = [];
}

-- What the parts call, and the host: whether there is a stub and a reactor, the file's path, the
-- ports that can be listened on, and the texts and times of a session that the status reports.
pub record MachineEnv : Type 1 where
  pub manager_env : ManagerEnv
  pub stream_env : Env
  pub transit_env : TransitEnv
  pub store : Store
  pub has_stub : Bool
  pub has_reactor : Bool
  pub config_path : List ℕ
  pub inport_listens : ℕ → Bool
  pub client_addr : ℕ → List ℕ
  pub client_opened : ℕ → ℕ
  pub relay_opened : ℕ × ℕ → ℕ
  pub new_stream : ℕ → DataStream
