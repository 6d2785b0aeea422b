-- ===== src/Machine/Rpc.antt =====
-- src/zfgw_vm.cpp: the RPC handlers, and call_dblock with the macros of src/zfgw_inc.h.
use libfgw.Prelude.{
  ℕ, ◌%◌, ◌^◌, Bool, true, false, not, ◌&&◌, List, [], ◌∷◌, ◌++◌, Option, none, some, if◌then◌else◌,
  ◌==◌, length, Map, keep_if,
}
use libfgw.Codes.{Result, ok, err, Errcode, not_running, busy, invalid_config, config_version_ok}
use libfgw.Config.{save_config}
use libfgw.Codec.Messages.{
  FgwLinkQuality, FgwSessionStat, FgwStatus, FgwStartRequest, FgwAddChannelRequest,
  FgwRemoveChannelRequest, FgwSetConfigRequest,
}
use libfgw.Codec.Requests.{
  unpack_empty, unpack_start_request, unpack_add_channel_request, unpack_remove_channel_request,
  unpack_set_config_request,
}
use libfgw.Inport.{InportService}
use libfgw.Relay.Session.{RelaySession}
use libfgw.Relay.Service.{snapshot_relays}
use libfgw.Manager.State.{ChannelManager}
use libfgw.Manager.Channels.{add_channel, remove_channel}
use libfgw.Manager.Traffic.{collect_link_qualities}
use libfgw.Machine.State.{ZfgwMachine, MachineEnv}
use libfgw.Machine.Bringup.{do_bringup, do_teardown}

-- FgwStartResult.message.
pub data Message : Type 0 where
  already_running failed fine stopped incompatible_config_version config_updated : Message

-- What a handler answers: a status, an FgwStartResult with its code and message, or an error code
-- without a block.
pub data Reply : Type 0 where
  status : FgwStatus → Reply
  start_result : Result ℕ → Message → Reply
  refused : Errcode → Reply

abbrev pub flag_of : Bool → ℕ
flag_of true = 1
flag_of false = 0

unfoldable pub link_qualities : Option ChannelManager → List FgwLinkQuality
unfolding collect_link_qualities
link_qualities none = []
link_qualities (some m) = collect_link_qualities m.links.objects m.links.channels

unfoldable pub client_stats : MachineEnv → ℕ → InportService → Map ℕ Bool → List FgwSessionStat
client_stats env ingress t [] = []
client_stats env ingress t ((sid, known) ∷ m) =
    let s = t.sessions sid in
    record {
      session_id = s.session_id;
      ingress_id = ingress;
      client_addr = env.client_addr sid;
      target_addr = [];
      bytes_sent = s.bytes_sent;
      bytes_recv = s.bytes_recv;
      open_timestamp = env.client_opened sid;
    }
    ∷ client_stats env ingress t m

unfoldable pub relay_stats : MachineEnv → List RelaySession → List FgwSessionStat
relay_stats env [] = []
relay_stats env (s ∷ ss) =
    record {
      session_id = s.session_id;
      ingress_id = s.peer_ingress_id;
      client_addr = [];
      target_addr = s.target_addr;
      bytes_sent = s.bytes_sent;
      bytes_recv = s.bytes_recv;
      open_timestamp = env.relay_opened (s.peer_ingress_id, s.session_id);
    }
    ∷ relay_stats env ss

unfoldable pub session_stats : MachineEnv → ZfgwMachine → List FgwSessionStat
unfolding client_stats relay_stats snapshot_relays
session_stats env v = elim v.inport [
  | some t ↦ client_stats env v.config.ingress_id t t.registered
  | none ↦ elim v.outport [ some relays ↦ relay_stats env (snapshot_relays relays) | none ↦ [] ]
]

unfoldable pub mlf_get_status : MachineEnv → ZfgwMachine → Reply
unfolding session_stats link_qualities
mlf_get_status env v =
    let sessions = session_stats env v in
    status (record {
      running = flag_of v.running;
      role = v.config.role;
      session_count = length sessions % 2 ^ 32;
      links = link_qualities v.manager;
      sessions = sessions;
    })

-- ret < 0 ? "failed" : "ok"
abbrev pub outcome : Result ℕ → Reply
outcome (ok n) = start_result (ok n) fine
outcome (err e) = start_result (err e) failed

unfoldable pub mlf_start : MachineEnv → FgwStartRequest → ZfgwMachine → Reply × ZfgwMachine
unfolding do_bringup do_teardown
mlf_start env req v =
    let force = not (req.force_restart == 0) in
    let (ret, v') = do_bringup env (if v.running then do_teardown env v else v) in
    if v.running && not force
    then (start_result (err busy) already_running, v)
    else (outcome ret, v')

unfoldable pub mlf_stop : MachineEnv → ZfgwMachine → Reply × ZfgwMachine
unfolding do_teardown
mlf_stop env v = (start_result (ok 0) stopped, do_teardown env v)

-- What is in the file when it was written.
abbrev pub now_in_file : Option (List ℕ) → Option (List ℕ) → Option (List ℕ)
now_in_file none old = old
now_in_file (some bytes) old = some bytes

unfoldable pub mlf_set_config : MachineEnv → FgwSetConfigRequest → ZfgwMachine → Reply × ZfgwMachine
unfolding config_version_ok save_config
mlf_set_config env req v =
    let (ret, content) = save_config env.store env.config_path req.config in
    if not (config_version_ok req.config.config_version)
    then (start_result (err invalid_config) incompatible_config_version, v)
    else (
      start_result (ok 0) config_updated,
      record v {
        config = req.config;
        file = if env.has_stub then now_in_file content v.file else v.file;
      },
    )

unfoldable pub mlf_add_channel :
    MachineEnv → FgwAddChannelRequest → ZfgwMachine → Reply × ZfgwMachine
unfolding add_channel
mlf_add_channel env req v = elim v.manager [
  | none ↦ (outcome (err not_running), v)
  | some m ↦
      let (ret, m') = add_channel env.manager_env req.channel m in
      let added = record v { manager = some m' } in
      elim ret [
        | err e ↦ (outcome (err e), added)
        | ok n ↦ (
          outcome (ok n),
          record added {
            config = record (v.config) { channels = v.config.channels ++ req.channel ∷ [] };
          },
        )
      ]
]

unfoldable pub mlf_remove_channel :
    MachineEnv → FgwRemoveChannelRequest → ZfgwMachine → Reply × ZfgwMachine
unfolding remove_channel keep_if
mlf_remove_channel env req v = elim v.manager [
  | none ↦ (outcome (err not_running), v)
  | some m ↦
      let (ret, m') = remove_channel req.channel_id m in
      let removed = record v { manager = some m' } in
      elim ret [
        | err e ↦ (outcome (err e), removed)
        | ok n ↦ (
          outcome (ok n),
          record removed {
            config = record (v.config) {
              channels = keep_if (λ c. not (c.channel_id == req.channel_id)) v.config.channels;
            };
          },
        )
      ]
]

-- The names that call_dblock compares with.
pub data Method : Type 0 where
  get_status start stop set_config add_channel_method remove_channel_method unknown_method : Method

-- FGW_UNPACK_ARG: the request is unpacked from the block, or its error answered.
abbrev pub with_request {ℓ} :
    {A : Type ℓ}
    → Result (A × List ℕ)
    → ZfgwMachine
    → (A → Reply × ZfgwMachine)
    → Reply × ZfgwMachine
with_request (err e) v handler = (refused e, v)
with_request (ok (req, rest)) v handler = handler req

unfoldable pub call_dblock : MachineEnv → Method → List ℕ → ZfgwMachine → Reply × ZfgwMachine
unfolding mlf_get_status mlf_start mlf_stop mlf_set_config mlf_add_channel mlf_remove_channel
call_dblock env method block v =
    let z = env.manager_env.zds in
    elim method [
      | get_status ↦ with_request (unpack_empty z true block) v (λ req. (mlf_get_status env v, v))
      | start ↦ with_request (unpack_start_request z true block) v (λ req. mlf_start env req v)
      | stop ↦ with_request (unpack_empty z true block) v (λ req. mlf_stop env v)
      | set_config ↦
          with_request (unpack_set_config_request z true block) v (λ req. mlf_set_config env req v)
      | add_channel_method ↦
          with_request (unpack_add_channel_request z true block) v
            (λ req. mlf_add_channel env req v)
      | remove_channel_method ↦
          with_request (unpack_remove_channel_request z true block) v
            (λ req. mlf_remove_channel env req v)
      | unknown_method ↦ (refused invalid_config, v)
    ]
