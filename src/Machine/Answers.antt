-- ===== src/Machine/Answers.antt =====
-- src/zfgw_vm.cpp: what doBringup answers.
use libfgw.Prelude.{
  ℕ, ◌≡◌, refl, ap, ap₂, ◌∙◌, Bool, true, false, not, List, [], ◌∷◌, some, if◌then◌else◌, ◌==◌,
  has_key, nat_ord, both_if, if_either, option_cases,
}
use libfgw.Codes.{
  Result, ok, err, busy, not_running, listen_fail, invalid_role, Role, role_of, inport, outport,
  transit, unknown,
}
use libfgw.Config.{any_address, FgwConfig, FgwChannelConfig}
use libfgw.Link.Channel.{ChannelKind, tcp, utp}
use libfgw.Inport.{InportService, inport_start}
use libfgw.Stream.State.{DataStream}
use libfgw.Transit.State.{TransitService}
use libfgw.Transit.Dial.{transit_start}
use libfgw.Link.Selector.{mode_of}
use libfgw.Manager.State.{ChannelManager, ManagerEnv, channel_manager, change_object}
use libfgw.Manager.Channels.{
  kind_of, with_context, shared_utp_context, put_channel, add_new, add_channel, add_channels,
}
use libfgw.Manager.Traffic.{manager_start, start_link_listener, add_bytes_subscriber, subscribed}
use libfgw.Machine.State.{ZfgwMachine, MachineEnv}
use libfgw.Machine.Bringup.{
  do_bringup, bringup_transit, bringup_stream, bringup_inport, bringup_outport, make_manager,
  finish, bringup_service, bringup_role,
}

-- Listening decides.
abbrev listened : Bool → Result ℕ
listened b = if b then ok 0 else err listen_fail

-- What a bring-up answers in each role: an Inport must listen, an Outport and a Transit if a port is
-- set, and an unknown role is refused.
unfoldable pub bringup_answer : MachineEnv → FgwConfig → Role → Result ℕ
unfolding any_address
bringup_answer env config inport = listened (env.inport_listens config.inport_listen_port)
bringup_answer env config outport =
    if config.outport_listen_port == 0
    then ok 0
    else listened
        (env.manager_env.listen (any_address config.outport_listen_host) config.outport_listen_port)
bringup_answer env config transit =
    if config.outport_listen_port == 0
    then ok 0
    else listened
        (env.transit_env.listen (any_address config.outport_listen_host) config.outport_listen_port)
bringup_answer env config unknown = err invalid_role

bringup_transit-answer :
    (env : MachineEnv) (v : ZfgwMachine)
    → (bringup_transit env v).0 ≡ bringup_answer env v.config transit
unfolding bringup_transit transit_start bringup_answer finish
bringup_transit-answer env v = both_if answer (v.config.outport_listen_port == 0) _ _ _ _ refl (
    both_if answer
      (env.transit_env.listen (any_address v.config.outport_listen_host)
        v.config.outport_listen_port)
      _ _ _ _ refl refl)
  where
    answer : Result ℕ × TransitService → Result ℕ
    answer x = (finish env x.0 (record v { transit = some x.1 })).0

bringup_inport-answer :
    (env : MachineEnv) (m : ChannelManager) (v : ZfgwMachine)
    → (bringup_inport env m v).0 ≡ bringup_answer env v.config inport
unfolding bringup_inport inport_start bringup_answer finish
bringup_inport-answer env m v =
    both_if answer (env.inport_listens v.config.inport_listen_port) _ _ _ _ refl refl
  where
    answer : Result ℕ × InportService → Result ℕ
    answer x = (finish env x.0 (record v { inport = some x.1 })).0

finish-listened :
    (env : MachineEnv) (b : Bool) (made : ZfgwMachine)
    → (finish env (listened b) made).0 ≡ listened b
unfolding finish
finish-listened env true made = refl
finish-listened env false made = refl

-- A manager that listens not yet listens if it can.
start_link_listener-listened :
    (env : ManagerEnv) (ip : List ℕ) (port : ℕ) (m : ChannelManager)
    → m.link_acceptor ≡ false
    → (start_link_listener env ip port m).0 ≡ listened (env.listen (any_address ip) port)
unfolding start_link_listener
start_link_listener-listened env ip port m idle =
    both_if (λ (x : Result ℕ × ChannelManager). x.0) m.link_acceptor _ _ (err busy)
      (listened (env.listen (any_address ip) port)) refl
      (both_if (λ (x : Result ℕ × ChannelManager). x.0) (env.listen (any_address ip) port) _ _ _ _
        refl refl)
    ∙ ap (λ (b : Bool). if b then err busy else listened (env.listen (any_address ip) port)) idle

bringup_outport-answer :
    (env : MachineEnv) (m : ChannelManager) (v : ZfgwMachine)
    → m.link_acceptor ≡ false
    → (bringup_outport env m v).0 ≡ bringup_answer env v.config outport
unfolding bringup_outport bringup_answer
bringup_outport-answer env m v idle =
    both_if (λ (x : Result ℕ × ZfgwMachine). x.0) (v.config.outport_listen_port == 0) _ _ _ _
      (unfold finish in refl)
      (ap
          (λ (r : Result ℕ).
            (finish env r (record v {
              outport = some [];
              manager =
                  some
                    (start_link_listener env.manager_env v.config.outport_listen_host
                      v.config.outport_listen_port m).1;
            })).0)
          (start_link_listener-listened env.manager_env v.config.outport_listen_host
            v.config.outport_listen_port m idle)
        ∙ finish-listened env _ _)

-- Adding channels does not listen.
add_new-idle :
    (env : ManagerEnv) (kind : ChannelKind) (cfg : FgwChannelConfig) (m : ChannelManager)
    → (add_new env kind cfg (with_context env kind m)).1.link_acceptor ≡ m.link_acceptor
unfolding add_new put_channel change_object with_context shared_utp_context
add_new-idle env tcp cfg m = refl
add_new-idle env utp cfg m = refl

add_channel-idle :
    (env : ManagerEnv) (cfg : FgwChannelConfig) (m : ChannelManager)
    → (add_channel env cfg m).1.link_acceptor ≡ m.link_acceptor
unfolding add_channel
add_channel-idle env cfg m =
    if_either same (has_key cfg.channel_id m.links.channels) _ _ refl
      (option_cases same (kind_of cfg.kind) _ _ (λ e. refl) (λ kind e. add_new-idle env kind cfg m))
  where
    same : Result ℕ × ChannelManager → Type 0
    same x = x.1.link_acceptor ≡ m.link_acceptor

add_channels-idle :
    (env : ManagerEnv) (cs : List FgwChannelConfig) (m : ChannelManager)
    → (add_channels env cs m).link_acceptor ≡ m.link_acceptor
unfolding add_channels
add_channels-idle env [] m = refl
add_channels-idle env (c ∷ cs) m =
    add_channels-idle env cs (add_channel env c m).1 ∙ add_channel-idle env c m

manager_start-idle :
    (env : ManagerEnv) (cfg : FgwConfig) (m : ChannelManager)
    → (manager_start env cfg m).1.link_acceptor ≡ m.link_acceptor
unfolding manager_start
manager_start-idle env cfg m = add_channels-idle env cfg.channels (record m {
  config = cfg;
  links = record (m.links) {
    selector = record (m.links.selector) { mode = mode_of cfg.multipath_mode };
  };
})

subscribed-idle :
    (q : ℕ) (streams : ℕ → DataStream) (m : ChannelManager)
    → (add_bytes_subscriber q (record m { streams = streams })).link_acceptor ≡ m.link_acceptor
unfolding add_bytes_subscriber
subscribed-idle q streams m =
    if_either (λ (x : ChannelManager). x.link_acceptor ≡ m.link_acceptor)
      (subscribed q m.bytes_subscribers) _ _ refl refl

make_manager-idle :
    (env : MachineEnv) (config : FgwConfig) → (make_manager env config).1.link_acceptor ≡ false
unfolding make_manager
make_manager-idle env config =
    subscribed-idle 0 _ (manager_start env.manager_env config (channel_manager env.new_stream)).1
    ∙ manager_start-idle env.manager_env config (channel_manager env.new_stream)

-- The machine with its manager and stream.
abbrev managed : MachineEnv → ZfgwMachine → ZfgwMachine
managed env v = record v { manager = some (make_manager env v.config).1; has_stream = true }

-- The manager's start cannot fail.
bringup_stream-answer :
    (env : MachineEnv) (r : Role) (v : ZfgwMachine)
    → (bringup_stream env r v).0
      ≡ (bringup_service env r (make_manager env v.config).1 (managed env v)).0
unfolding bringup_stream make_manager manager_start
bringup_stream-answer env r v = refl

bringup_role-answer :
    (env : MachineEnv) (r : Role) (v : ZfgwMachine)
    → (bringup_role env r v).0 ≡ bringup_answer env v.config r
unfolding bringup_role bringup_service bringup_answer
bringup_role-answer env transit v = bringup_transit-answer env v
bringup_role-answer env inport v =
    bringup_stream-answer env inport v
    ∙ bringup_inport-answer env (make_manager env v.config).1 (managed env v)
bringup_role-answer env outport v =
    bringup_stream-answer env outport v
    ∙ bringup_outport-answer env (make_manager env v.config).1 (managed env v)
        (make_manager-idle env v.config)
bringup_role-answer env unknown v = bringup_stream-answer env unknown v ∙ unfold finish in refl

-- A machine that does not run and has a reactor is brought up with success if it can listen: on the
-- port of an Inport, and on the address, 0.0.0.0 for an empty one, of an Outport or a Transit if
-- its port is not 0. Else the bring-up fails with LISTENFAIL, and with INVALIDROLE in an unknown
-- role.
pub do_bringup-bringup_answer :
    (env : MachineEnv) (v : ZfgwMachine)
    → v.running ≡ false
    → env.has_reactor ≡ true
    → (do_bringup env v).0 ≡ bringup_answer env v.config (role_of v.config.role)
unfolding do_bringup
do_bringup-bringup_answer env v stopped reactor =
    ap₂
      (λ (running has_reactor : Bool).
        (if running
          then (ok 0, v)
          else if not has_reactor
          then (err not_running, v)
          else bringup_role env (role_of v.config.role) v).0)
      stopped reactor
    ∙ bringup_role-answer env (role_of v.config.role) v
