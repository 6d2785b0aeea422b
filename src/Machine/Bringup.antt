-- ===== src/Machine/Bringup.antt =====
-- src/zfgw_vm.cpp: doBringup and doTeardown, start and stop.
use libfgw.Prelude.{
  ℕ, true, false, not, List, [], ◌∷◌, ◌++◌, Map, Option, none, some, if◌then◌else◌, ◌==◌,
}
use libfgw.Codes.{
  Result, ok, err, not_running, invalid_role, Role, role_of, inport, outport, transit, unknown,
}
use libfgw.Config.{FgwConfig, load_config}
use libfgw.Stream.State.{DataStream}
use libfgw.Stream.Send.{data_stream}
use libfgw.Inport.{InportService, inport_service, inport_start, inport_stop}
use libfgw.Transit.State.{TransitService, transit_service}
use libfgw.Transit.Dial.{transit_start, transit_stop}
use libfgw.Relay.Session.{RelaySession}
use libfgw.Relay.Service.{stop_relays}
use libfgw.Manager.State.{ChannelManager, channel_manager}
use libfgw.Manager.Traffic.{
  manager_start, manager_stop, start_link_listener, add_bytes_subscriber, remove_bytes_subscriber,
}
use libfgw.Machine.State.{ZfgwMachine, MachineEnv}

-- The stream works on the manager's links and sockets.
unfoldable pub borrow_stream : ChannelManager → DataStream
borrow_stream m = record (m.streams 0) { links = m.links; wire = m.wire }

unfoldable pub give_back : DataStream → ChannelManager → ChannelManager
give_back s m = record m {
  links = s.links;
  wire = s.wire;
  streams = λ q. if q == 0 then s else m.streams q;
}

-- inport_->stop(), over the stream.
unfoldable pub stop_inport : MachineEnv → Option InportService → ChannelManager → ChannelManager
unfolding inport_stop borrow_stream give_back
stop_inport env none m = m
stop_inport env (some t) m =
    give_back (inport_stop env.stream_env (record t { stream = borrow_stream m })).stream m

-- The manager is stopped when the services and the stream are gone.
unfoldable pub retire_manager :
    MachineEnv
    → Option InportService
    → Option ChannelManager
    → List ChannelManager
    → List ChannelManager
unfolding stop_inport remove_bytes_subscriber manager_stop
retire_manager env service none retired = retired
retire_manager env service (some m) retired =
    manager_stop (remove_bytes_subscriber 0 (stop_inport env service m)) ∷ retired

-- outport_->stop() closes each session.
unfoldable pub end_relays :
    Option (Map (ℕ × ℕ) RelaySession) → List RelaySession → List RelaySession
unfolding stop_relays
end_relays none ended = ended
end_relays (some relays) ended = stop_relays relays ++ ended

unfoldable pub end_transit : Option TransitService → List TransitService → List TransitService
unfolding transit_stop
end_transit none ended = ended
end_transit (some t) ended = transit_stop t ∷ ended

unfoldable pub do_teardown : MachineEnv → ZfgwMachine → ZfgwMachine
unfolding retire_manager end_relays end_transit
do_teardown env v = record v {
  inport = none;
  outport = none;
  transit = none;
  has_stream = false;
  manager = none;
  running = false;
  retired = retire_manager env v.inport v.manager v.retired;
  ended_relays = end_relays v.outport v.ended_relays;
  ended_transits = end_transit v.transit v.ended_transits;
}

-- What doBringup does with the result of a service's start.
unfoldable pub finish : MachineEnv → Result ℕ → ZfgwMachine → Result ℕ × ZfgwMachine
unfolding do_teardown
finish env (err e) made = (err e, do_teardown env made)
finish env (ok n) made = (ok 0, record made { running = true })

unfoldable pub bringup_transit : MachineEnv → ZfgwMachine → Result ℕ × ZfgwMachine
unfolding transit_start finish
bringup_transit env v =
    let (ret, t) = transit_start env.transit_env (transit_service v.config) in
    finish env ret (record v { transit = some t })

-- The manager and the stream of the other roles.
unfoldable pub make_manager : MachineEnv → FgwConfig → Result ℕ × ChannelManager
unfolding manager_start data_stream add_bytes_subscriber
make_manager env config =
    let (ret, m) = manager_start env.manager_env config (channel_manager env.new_stream) in
    let stream =
      data_stream m.links config.ingress_id config.segment_size config.recv_window
        (not (config.enable_crc == 0)) config.route_outport_id in
    (
      ret,
      add_bytes_subscriber 0 (record m { streams = λ q. if q == 0 then stream else m.streams q }),
    )

unfoldable pub bringup_inport : MachineEnv → ChannelManager → ZfgwMachine → Result ℕ × ZfgwMachine
unfolding inport_start borrow_stream finish
bringup_inport env m v =
    let (ret, t) =
      inport_start (env.inport_listens v.config.inport_listen_port)
        (inport_service (borrow_stream m)) in
    finish env ret (record v { inport = some t })

-- OutportService::start hooks the stream and succeeds; the link listener needs a port.
unfoldable pub bringup_outport : MachineEnv → ChannelManager → ZfgwMachine → Result ℕ × ZfgwMachine
unfolding start_link_listener finish
bringup_outport env m v =
    let made = record v { outport = some [] } in
    let (ret, m') =
      start_link_listener env.manager_env v.config.outport_listen_host v.config.outport_listen_port
        m in
    if v.config.outport_listen_port == 0
    then finish env (ok 0) made
    else finish env ret (record made { manager = some m' })

-- The service of a role with a manager and a stream.
unfoldable pub bringup_service :
    MachineEnv → Role → ChannelManager → ZfgwMachine → Result ℕ × ZfgwMachine
unfolding bringup_inport bringup_outport finish
bringup_service env inport m v = bringup_inport env m v
bringup_service env outport m v = bringup_outport env m v
bringup_service env transit m v = finish env (err invalid_role) v
bringup_service env unknown m v = finish env (err invalid_role) v

-- A manager that does not start is left as it is.
unfoldable pub bringup_stream : MachineEnv → Role → ZfgwMachine → Result ℕ × ZfgwMachine
unfolding make_manager bringup_service
bringup_stream env role v =
    let (ret, m) = make_manager env v.config in
    elim ret [
      | err e ↦ (err e, record v { manager = some m })
      | ok n ↦ bringup_service env role m (record v { manager = some m; has_stream = true })
    ]

unfoldable pub bringup_role : MachineEnv → Role → ZfgwMachine → Result ℕ × ZfgwMachine
unfolding bringup_transit bringup_stream
bringup_role env transit v = bringup_transit env v
bringup_role env inport v = bringup_stream env inport v
bringup_role env outport v = bringup_stream env outport v
bringup_role env unknown v = bringup_stream env unknown v

unfoldable pub do_bringup : MachineEnv → ZfgwMachine → Result ℕ × ZfgwMachine
unfolding bringup_role
do_bringup env v =
    if v.running
    then (ok 0, v)
    else if not env.has_reactor
    then (err not_running, v)
    else bringup_role env (role_of v.config.role) v

-- start: without a configuration file the machine waits for one.
unfoldable pub machine_start : MachineEnv → ZfgwMachine → Result ℕ × ZfgwMachine
unfolding load_config do_bringup
machine_start env v =
    if not env.has_stub then do_bringup env v else elim (load_config env.store v.file) [
      | err e ↦ (ok 0, v)
      | ok config ↦ do_bringup env (record v { config = config })
    ]

unfoldable pub machine_stop : MachineEnv → ZfgwMachine → ZfgwMachine
unfolding do_teardown
machine_stop env v = do_teardown env v
