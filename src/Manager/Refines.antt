-- ===== src/Manager/Refines.antt =====
-- src/zfgw_channel_manager.cpp: the channel table does what the registry of ids says.
use libfgw.Prelude.{
  both_if, both_option, option_if, ℕ, ◌+◌, ◌%◌, ◌^◌, ◌≡◌, refl, ap, ◌∙◌, Bool, true, false, List,
  [], ◌∷◌, Option, none, some, if◌then◌else◌, ◌==◌, Map, lookup, insert, erase, has_key, nat_ord,
  lookup-insert, lookup-erase, arith,
}
use mathlib.Core.Path.{fun_ext}
use libfgw.Codes.{Result, ok}
use libfgw.Config.{FgwConfig, FgwChannelConfig}
use libfgw.Manager.Traffic.{manager_start, manager_stop, close_all, stop_link_listener}
use libfgw.Link.Channel.{ChannelKind, tcp, utp, new_channel, mark_accepted}
use libfgw.Link.Pool.{change}
use libfgw.Manager.State.{ChannelManager, ManagerEnv, change_object}
use libfgw.Manager.Channels.{
  connect, kind_of, with_context, shared_utp_context, put_channel, add_new, add_channel,
  remove_channel, make_accepted_channel, release, add_channels,
}
use libfgw.Manager.Registry.{
  Registry, Command, add, remove, redial, accept, take_id, registry_add, registry_remove,
  registry_do, registry_run, registry_add_all, start, stop,
}

-- What the registry sees of a manager.
abbrev pub view : ChannelManager → Registry
view m = record { taken = λ j. has_key j m.links.channels; next_accepted = m.accepted_id_seq }

abbrev pub seen : Result ℕ × ChannelManager → Result ℕ × Registry
seen x = (x.0, view x.1)

-- What connecting answers.
unfoldable pub connecting : ManagerEnv → ChannelKind → FgwChannelConfig → Result ℕ
unfolding connect
connecting env kind cfg = (connect env cfg.remote (new_channel cfg.channel_id kind cfg.priority)).0

-- The calls of the manager. The timer's callback gives the answer of its addChannel to no one;
-- stop has no answer.
unfoldable pub do_command : ManagerEnv → Command → ChannelManager → Result ℕ × ChannelManager
unfolding add_channel remove_channel make_accepted_channel manager_start manager_stop
do_command env (add cfg) m = add_channel env cfg m
do_command env (remove id) m = remove_channel id m
do_command env (redial cfg) m = add_channel env cfg (remove_channel cfg.channel_id m).1
do_command env accept m = (ok 0, make_accepted_channel m)
do_command env (start cfg) m = manager_start env cfg m
do_command env stop m = (ok 0, manager_stop m)

unfoldable pub run_commands :
    ManagerEnv → List Command → ChannelManager → List (Result ℕ) × ChannelManager
unfolding do_command
run_commands env [] m = ([], m)
run_commands env (c ∷ cs) m =
    let (answer, m') = do_command env c m in
    let (answers, m'') = run_commands env cs m' in (answer ∷ answers, m'')

same_registry : (r : Registry) (taken : ℕ → Bool) → r.taken ≡ taken → r ≡ record r { taken = taken }
same_registry r taken h = ap (λ (t : ℕ → Bool). record r { taken = t }) h

has_key-inserted :
    (id p j : ℕ) (channels : Map ℕ ℕ)
    → has_key j (insert id p channels) ≡ (if id == j then true else has_key j channels)
unfolding has_key
has_key-inserted id p j channels = ground (arith, lookup-insert id j p channels)

has_key-erased :
    (id j : ℕ) (channels : Map ℕ ℕ)
    → has_key j (erase id channels) ≡ (if id == j then false else has_key j channels)
unfolding has_key
has_key-erased id j channels = ground (arith, lookup-erase id j channels)

view-put_channel :
    (id : ℕ) (ch : libfgw.Link.Channel.FgwChannel) (m : ChannelManager)
    → view (put_channel id ch m) ≡ take_id id (view m)
unfolding put_channel change_object change
view-put_channel id ch m =
    same_registry (view (put_channel id ch m)) (take_id id (view m)).taken
      (fun_ext (λ j. has_key-inserted id m.next_object j m.links.channels))

view-with_context :
    (env : ManagerEnv) (kind : ChannelKind) (m : ChannelManager)
    → view (with_context env kind m) ≡ view m
unfolding with_context shared_utp_context
view-with_context env tcp m = refl
view-with_context env utp m = refl

seen-add_new :
    (env : ManagerEnv) (kind : ChannelKind) (cfg : FgwChannelConfig) (m : ChannelManager)
    → seen (add_new env kind cfg m) ≡ (connecting env kind cfg, take_id cfg.channel_id (view m))
unfolding add_new connecting
seen-add_new env kind cfg m =
    ap (λ (r : Registry). (connecting env kind cfg, r))
      (view-put_channel cfg.channel_id
        (connect env cfg.remote (new_channel cfg.channel_id kind cfg.priority)).1 m)

seen-add_channel :
    (env : ManagerEnv) (cfg : FgwChannelConfig) (m : ChannelManager)
    → seen (add_channel env cfg m) ≡ registry_add (connecting env) cfg (view m)
unfolding add_channel registry_add
seen-add_channel env cfg m = both_if seen (has_key cfg.channel_id m.links.channels) _ _ _ _ refl (
    both_option seen (kind_of cfg.kind) _ _ _ _ refl (λ kind.
      seen-add_new env kind cfg (with_context env kind m)
      ∙ ap (λ (r : Registry). (connecting env kind cfg, take_id cfg.channel_id r))
          (view-with_context env kind m)))

seen-remove_channel :
    (id : ℕ) (m : ChannelManager) → seen (remove_channel id m) ≡ registry_remove id (view m)
unfolding remove_channel registry_remove change_object change has_key
seen-remove_channel id m = option_if seen (lookup id m.links.channels) _ _ _ _ refl (λ p.
    ap (λ (t : ℕ → Bool). (ok 0, record (view m) { taken = t }))
      (fun_ext (λ j. has_key-erased id j m.links.channels)))

view-release : (o : Option ℕ) (m : ChannelManager) → view (release o m) ≡ view m
unfolding release change_object change
view-release none m = refl
view-release (some p) m = refl

view-make_accepted_channel :
    (m : ChannelManager)
    → view (make_accepted_channel m) ≡ record (take_id m.accepted_id_seq (view m)) {
      next_accepted = (m.accepted_id_seq + 1) % 2 ^ 32;
    }
unfolding make_accepted_channel
view-make_accepted_channel m =
    ap (λ (r : Registry). record r { next_accepted = (m.accepted_id_seq + 1) % 2 ^ 32 })
      (view-put_channel m.accepted_id_seq
          (record (mark_accepted (new_channel m.accepted_id_seq tcp 100)) { has_tcp = true })
          (release (lookup m.accepted_id_seq m.links.channels) m)
        ∙ ap (take_id m.accepted_id_seq)
            (view-release (lookup m.accepted_id_seq m.links.channels) m))

view-add_channels :
    (env : ManagerEnv) (cfgs : List FgwChannelConfig) (m : ChannelManager)
    → view (add_channels env cfgs m) ≡ registry_add_all (connecting env) cfgs (view m)
unfolding add_channels registry_add_all
view-add_channels env [] m = refl
view-add_channels env (cfg ∷ cfgs) m =
    view-add_channels env cfgs (add_channel env cfg m).1
    ∙ ap (λ (x : Result ℕ × Registry). registry_add_all (connecting env) cfgs x.1)
        (seen-add_channel env cfg m)

close_all-accepted :
    (rest : Map ℕ ℕ) (m : ChannelManager) → (close_all rest m).accepted_id_seq ≡ m.accepted_id_seq
unfolding close_all change_object
close_all-accepted [] m = refl
close_all-accepted ((id, p) ∷ rest) m = close_all-accepted rest _

view-manager_stop :
    (m : ChannelManager) → view (manager_stop m) ≡ record (view m) { taken = λ j. false }
unfolding manager_stop stop_link_listener has_key lookup
view-manager_stop m =
    ap (λ (n : ℕ). record (view (manager_stop m)) { next_accepted = n })
      (close_all-accepted m.links.channels (stop_link_listener m))

view-manager_start :
    (env : ManagerEnv) (cfg : FgwConfig) (m : ChannelManager)
    → view (manager_start env cfg m).1 ≡ registry_add_all (connecting env) cfg.channels (view m)
unfolding manager_start
view-manager_start env cfg m = view-add_channels env cfg.channels _

seen-do_command :
    (env : ManagerEnv) (c : Command) (m : ChannelManager)
    → seen (do_command env c m) ≡ registry_do (connecting env) c (view m)
unfolding do_command registry_do
seen-do_command env (add cfg) m = seen-add_channel env cfg m
seen-do_command env (remove id) m = seen-remove_channel id m
seen-do_command env (redial cfg) m =
    seen-add_channel env cfg (remove_channel cfg.channel_id m).1
    ∙ ap (λ (x : Result ℕ × Registry). registry_add (connecting env) cfg x.1)
        (seen-remove_channel cfg.channel_id m)
seen-do_command env (start cfg) m = ap (λ (r : Registry). (ok 0, r)) (view-manager_start env cfg m)
seen-do_command env stop m = ap (λ (r : Registry). (ok 0, r)) (view-manager_stop m)
seen-do_command env accept m = ap (λ (r : Registry). (ok 0, r)) (view-make_accepted_channel m)

-- A manager, whatever its state, is started, stopped, has channels added, removed or accepted, or
-- the timer of a reconnection fires, in whatever order and any number of times. The answers are
-- those of the registry that starts with the taken ids of the manager, stop answering success in
-- both, and the ids taken at the end are those of the registry.
pub run_commands-registry_run :
    (env : ManagerEnv) (cs : List Command) (m : ChannelManager)
    → ((run_commands env cs m).0, view (run_commands env cs m).1)
      ≡ registry_run (connecting env) cs (view m)
unfolding run_commands registry_run
run_commands-registry_run env [] m = refl
run_commands-registry_run env (c ∷ cs) m =
    ap (λ (x : List (Result ℕ) × Registry). ((do_command env c m).0 ∷ x.0, x.1))
      (run_commands-registry_run env cs (do_command env c m).1)
    ∙ ap
        (λ (x : Result ℕ × Registry).
          let (answers, r) = registry_run (connecting env) cs x.1 in (x.0 ∷ answers, r))
        (seen-do_command env c m)
