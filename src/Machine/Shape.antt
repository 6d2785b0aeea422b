-- ===== src/Machine/Shape.antt =====
-- src/zfgw_vm.cpp: which parts a ZfgwMachine has.
use libfgw.Prelude.{
  ℕ, ◌≡◌, refl, ap, Bool, true, false, not, [], Option, none, some, if◌then◌else◌, ◌==◌, arith,
  if_either,
}
use libfgw.Codes.{Result, ok, err, Role, role_of, inport, outport, transit, unknown}
use libfgw.Manager.State.{ChannelManager}
use libfgw.Manager.Traffic.{start_link_listener, manager_start}
use libfgw.Machine.State.{ZfgwMachine, MachineEnv}
use libfgw.Machine.Bringup.{
  do_bringup, do_teardown, bringup_transit, bringup_stream, bringup_inport, bringup_outport,
  make_manager, finish, bringup_service, bringup_role,
}

abbrev pub is_there {ℓ} : {A : Type ℓ} → Option A → Bool
is_there none = false
is_there (some a) = true

-- Which parts a machine has, and whether it says that it runs.
pub record Parts : Type 0 where
  pub runs : Bool
  pub manages : Bool
  pub streams : Bool
  pub enters : Bool
  pub leaves : Bool
  pub passes : Bool

abbrev pub parts : ZfgwMachine → Parts
parts v = record {
  runs = v.running;
  manages = is_there v.manager;
  streams = v.has_stream;
  enters = is_there v.inport;
  leaves = is_there v.outport;
  passes = is_there v.transit;
}

abbrev pub idle : Parts
idle = record {
  runs = false;
  manages = false;
  streams = false;
  enters = false;
  leaves = false;
  passes = false;
}

abbrev pub as_inport : Parts
as_inport = record {
  runs = true;
  manages = true;
  streams = true;
  enters = true;
  leaves = false;
  passes = false;
}

abbrev pub as_outport : Parts
as_outport = record {
  runs = true;
  manages = true;
  streams = true;
  enters = false;
  leaves = true;
  passes = false;
}

abbrev pub as_transit : Parts
as_transit = record {
  runs = true;
  manages = false;
  streams = false;
  enters = false;
  leaves = false;
  passes = true;
}

-- The parts of a machine that was brought up in a role; a role that is unknown cannot be.
abbrev pub parts_of : Role → Parts
parts_of inport = as_inport
parts_of outport = as_outport
parts_of transit = as_transit
parts_of unknown = idle

-- A machine has nothing, or the parts of one role and runs.
abbrev pub WellFormed : ZfgwMachine → Type 0
WellFormed v = (r : Role) × (parts v ≡ parts_of r)

-- What a bring-up leaves: the parts of the role, or none and an error.
abbrev pub BroughtUp : Role → Result ℕ → Parts → Type 0
BroughtUp r (ok n) p = p ≡ parts_of r
BroughtUp r (err e) p = p ≡ idle

pub do_teardown-idle : (env : MachineEnv) (v : ZfgwMachine) → parts (do_teardown env v) ≡ idle
unfolding do_teardown
do_teardown-idle env v = refl

with_parts : (f : Parts → Parts) {p q : Parts} → p ≡ q → f p ≡ f q
with_parts f h = ap f h

finish-BroughtUp :
    (env : MachineEnv) (r : Role) (ret : Result ℕ) (made : ZfgwMachine)
    → parts (record made { running = true }) ≡ parts_of r
    → BroughtUp r (finish env ret made).0 (parts (finish env ret made).1)
unfolding finish do_teardown
finish-BroughtUp env r (ok n) made h = h
finish-BroughtUp env r (err e) made h = refl

bringup_transit-BroughtUp :
    (env : MachineEnv) (v : ZfgwMachine)
    → parts v ≡ idle
    → BroughtUp transit (bringup_transit env v).0 (parts (bringup_transit env v).1)
unfolding bringup_transit
bringup_transit-BroughtUp env v h =
    finish-BroughtUp env transit _ _ (with_parts (λ p. record p { passes = true; runs = true }) h)

bringup_inport-BroughtUp :
    (env : MachineEnv) (m : ChannelManager) (v : ZfgwMachine)
    → parts (record v { inport = none }) ≡ record idle { manages = true; streams = true }
    → BroughtUp inport (bringup_inport env m v).0 (parts (bringup_inport env m v).1)
unfolding bringup_inport
bringup_inport-BroughtUp env m v h =
    finish-BroughtUp env inport _ _ (with_parts (λ p. record p { enters = true; runs = true }) h)

bringup_outport-BroughtUp :
    (env : MachineEnv) (m : ChannelManager) (v : ZfgwMachine)
    → parts (record v { outport = none }) ≡ record idle { manages = true; streams = true }
    → BroughtUp outport (bringup_outport env m v).0 (parts (bringup_outport env m v).1)
unfolding bringup_outport start_link_listener
bringup_outport-BroughtUp env m v h =
    if_either (λ (x : Result ℕ × ZfgwMachine). BroughtUp outport x.0 (parts x.1))
      (v.config.outport_listen_port == 0) _ _
      (finish-BroughtUp env outport (ok 0) (record v { outport = some [] })
        (with_parts (λ p. record p { leaves = true; runs = true }) h))
      (finish-BroughtUp env outport listened.0
        (record v { outport = some []; manager = some listened.1 })
        (with_parts (λ p. record p { leaves = true; manages = true; runs = true }) h))
  where
    listened : Result ℕ × ChannelManager
    listened =
        start_link_listener env.manager_env v.config.outport_listen_host
          v.config.outport_listen_port m

bringup_service-BroughtUp :
    (env : MachineEnv) (r : Role) (m : ChannelManager) (v : ZfgwMachine)
    → parts v ≡ record idle { manages = true; streams = true }
    → BroughtUp r (bringup_service env r m v).0 (parts (bringup_service env r m v).1)
unfolding bringup_service
bringup_service-BroughtUp env inport m v h =
    bringup_inport-BroughtUp env m v (with_parts (λ p. record p { enters = false }) h)
bringup_service-BroughtUp env outport m v h =
    bringup_outport-BroughtUp env m v (with_parts (λ p. record p { leaves = false }) h)
bringup_service-BroughtUp env transit m v h = unfold finish do_teardown in refl
bringup_service-BroughtUp env unknown m v h = unfold finish do_teardown in refl

-- The manager's start cannot fail.
bringup_stream-BroughtUp :
    (env : MachineEnv) (r : Role) (v : ZfgwMachine)
    → parts v ≡ idle
    → BroughtUp r (bringup_stream env r v).0 (parts (bringup_stream env r v).1)
unfolding bringup_stream make_manager manager_start
bringup_stream-BroughtUp env r v h =
    bringup_service-BroughtUp env r _ _
      (with_parts (λ p. record p { manages = true; streams = true }) h)

bringup_role-BroughtUp :
    (env : MachineEnv) (r : Role) (v : ZfgwMachine)
    → parts v ≡ idle
    → BroughtUp r (bringup_role env r v).0 (parts (bringup_role env r v).1)
unfolding bringup_role
bringup_role-BroughtUp env transit v h = bringup_transit-BroughtUp env v h
bringup_role-BroughtUp env inport v h = bringup_stream-BroughtUp env inport v h
bringup_role-BroughtUp env outport v h = bringup_stream-BroughtUp env outport v h
bringup_role-BroughtUp env unknown v h = bringup_stream-BroughtUp env unknown v h

by_flags :
    {A : Type 0} (P : A → Type 0) (running reactor : Bool) (x y z : A)
    → running ≡ false
    → P y
    → P z
    → P (if running then x else if not reactor then y else z)
by_flags P true reactor x y z h py pz = ground arith
by_flags P false true x y z h py pz = pz
by_flags P false false x y z h py pz = py

-- A machine without parts that is brought up has the parts of its configuration's role and runs, or
-- the bring-up failed and it has no parts again.
pub do_bringup-BroughtUp :
    (env : MachineEnv) (v : ZfgwMachine)
    → parts v ≡ idle
    → BroughtUp (role_of v.config.role) (do_bringup env v).0 (parts (do_bringup env v).1)
unfolding do_bringup
do_bringup-BroughtUp env v h =
    by_flags (λ (x : Result ℕ × ZfgwMachine). BroughtUp (role_of v.config.role) x.0 (parts x.1))
      v.running env.has_reactor _ _ _ (ap (λ p. p.runs) h) h
      (bringup_role-BroughtUp env (role_of v.config.role) v h)
