-- ===== src/Machine/Requests.antt =====
-- src/zfgw_vm.cpp: no request leaves a ZfgwMachine with the parts of no role.
use libfgw.Prelude.{
  ℕ, ◌≡◌, refl, sym, ◌∙◌, ap, Bool, true, false, List, some, if◌then◌else◌, arith, if_either,
  option_both,
}
use libfgw.Codes.{Result, ok, err, Role, inport, outport, transit, unknown, result_both}
use libfgw.Codec.Messages.{
  FgwStartRequest, FgwAddChannelRequest, FgwRemoveChannelRequest, FgwSetConfigRequest,
}
use libfgw.Codec.Requests.{unpack_set_config_request}
use libfgw.Manager.State.{ChannelManager}
use libfgw.Machine.State.{ZfgwMachine, MachineEnv}
use libfgw.Machine.Bringup.{do_bringup, do_teardown}
use libfgw.Machine.Rpc.{
  Reply, Method, mlf_start, mlf_stop, mlf_set_config, mlf_add_channel, mlf_remove_channel,
  call_dblock, with_request, get_status, start, stop, set_config, add_channel_method,
  remove_channel_method, unknown_method,
}
use libfgw.Machine.Shape.{
  is_there, Parts, parts, idle, parts_of, WellFormed, BroughtUp, do_teardown-idle,
  do_bringup-BroughtUp,
}

clash : {A : Type 0} (b : Bool) → b ≡ true → b ≡ false → A
clash b h k = absurd (ground arith)

idle_if_stopped : (r : Role) (p : Parts) → p ≡ parts_of r → p.runs ≡ false → p ≡ idle
idle_if_stopped inport p h stopped = clash p.runs (ap (λ q. q.runs) h) stopped
idle_if_stopped outport p h stopped = clash p.runs (ap (λ q. q.runs) h) stopped
idle_if_stopped transit p h stopped = clash p.runs (ap (λ q. q.runs) h) stopped
idle_if_stopped unknown p h stopped = h

shaped : (r : Role) (ret : Result ℕ) (p : Parts) → BroughtUp r ret p → (q : Role) × (p ≡ parts_of q)
shaped r (ok n) p h = (r, h)
shaped r (err e) p h = (unknown, h)

do_bringup-WellFormed :
    (env : MachineEnv) (v : ZfgwMachine) → parts v ≡ idle → WellFormed (do_bringup env v).1
do_bringup-WellFormed env v h = shaped _ _ _ (do_bringup-BroughtUp env v h)

mlf_start-WellFormed :
    (env : MachineEnv) (req : FgwStartRequest) (v : ZfgwMachine)
    → WellFormed v
    → WellFormed (mlf_start env req v).1
unfolding mlf_start
mlf_start-WellFormed env req v (r, h) =
    if_either (λ (x : Reply × ZfgwMachine). WellFormed x.1) _ _ _ (r, h)
      (do_bringup-WellFormed env _ (rested v.running refl))
  where
    rested : (b : Bool) → v.running ≡ b → parts (if b then do_teardown env v else v) ≡ idle
    rested true e = do_teardown-idle env v
    rested false e = idle_if_stopped r (parts v) h e

-- Another manager in the place of the one that is there.
same_parts :
    (v : ZfgwMachine) (r : Role) (m : ChannelManager)
    → parts v ≡ parts_of r
    → v.manager ≡ some m
    → record (parts v) { manages = true } ≡ parts_of r
same_parts v r m h e = ap (λ (b : Bool). record (parts v) { manages = b }) (sym (ap is_there e)) ∙ h

mlf_add_channel-WellFormed :
    (env : MachineEnv) (req : FgwAddChannelRequest) (v : ZfgwMachine)
    → WellFormed v
    → WellFormed (mlf_add_channel env req v).1
unfolding mlf_add_channel
mlf_add_channel-WellFormed env req v (r, h) =
    option_both (λ (x : Reply × ZfgwMachine). WellFormed x.1) v.manager _ _ (r, h)
      (λ m e.
        result_both (λ (x : Reply × ZfgwMachine). WellFormed x.1) _ _ _
          (λ c. (r, same_parts v r m h e)) (λ n. (r, same_parts v r m h e)))

mlf_remove_channel-WellFormed :
    (env : MachineEnv) (req : FgwRemoveChannelRequest) (v : ZfgwMachine)
    → WellFormed v
    → WellFormed (mlf_remove_channel env req v).1
unfolding mlf_remove_channel
mlf_remove_channel-WellFormed env req v (r, h) =
    option_both (λ (x : Reply × ZfgwMachine). WellFormed x.1) v.manager _ _ (r, h)
      (λ m e.
        result_both (λ (x : Reply × ZfgwMachine). WellFormed x.1) _ _ _
          (λ c. (r, same_parts v r m h e)) (λ n. (r, same_parts v r m h e)))

mlf_set_config-WellFormed :
    (env : MachineEnv) (req : FgwSetConfigRequest) (v : ZfgwMachine)
    → WellFormed v
    → WellFormed (mlf_set_config env req v).1
unfolding mlf_set_config
mlf_set_config-WellFormed env req v (r, h) =
    if_either (λ (x : Reply × ZfgwMachine). WellFormed x.1) _ _ _ (r, h) (r, h)

requested :
    {A : Type 0} (o : Result (A × List ℕ)) (v : ZfgwMachine) (handler : A → Reply × ZfgwMachine)
    → WellFormed v
    → ((req : A) → WellFormed (handler req).1)
    → WellFormed (with_request o v handler).1
requested (err e) v handler wf each = wf
requested (ok (req, rest)) v handler wf each = each req

-- Whatever is called, with whatever bytes, and whatever the services do, a machine that has
-- nothing, or runs with the parts of one role, has nothing or runs with the parts of one role
-- afterwards.
pub call_dblock-WellFormed :
    (env : MachineEnv) (method : Method) (block : List ℕ) (v : ZfgwMachine)
    → WellFormed v
    → WellFormed (call_dblock env method block v).1
unfolding call_dblock mlf_stop
call_dblock-WellFormed env get_status block v wf = requested _ v _ wf (λ req. wf)
call_dblock-WellFormed env start block v wf =
    requested _ v _ wf (λ req. mlf_start-WellFormed env req v wf)
call_dblock-WellFormed env stop block v wf =
    requested _ v _ wf (λ req. (unknown, do_teardown-idle env v))
call_dblock-WellFormed env set_config block v wf =
    requested (unpack_set_config_request env.manager_env.zds true block) v
      (λ req. mlf_set_config env req v) wf (λ req. mlf_set_config-WellFormed env req v wf)
call_dblock-WellFormed env add_channel_method block v wf =
    requested _ v _ wf (λ req. mlf_add_channel-WellFormed env req v wf)
call_dblock-WellFormed env remove_channel_method block v wf =
    requested _ v _ wf (λ req. mlf_remove_channel-WellFormed env req v wf)
call_dblock-WellFormed env unknown_method block v wf = wf
