-- ===== src/Manager/Registry.antt =====
-- What the channel table of src/zfgw_channel_manager.cpp promises, without objects and sockets: which
-- channel ids are taken, and which id the next accepted channel gets.
use libfgw.Prelude.{
  ℕ, ◌+◌, ◌%◌, ◌^◌, Bool, true, false, List, [], ◌∷◌, none, some, if◌then◌else◌, ◌==◌,
}
use libfgw.Codes.{Result, ok, err, channel_exists, channel_not_found, invalid_config}
use libfgw.Config.{FgwConfig, FgwChannelConfig}
use libfgw.Link.Channel.{ChannelKind}
use libfgw.Manager.Channels.{kind_of}

pub record Registry : Type 0 where
  pub taken : ℕ → Bool
  pub next_accepted : ℕ

-- Every call that changes which ids are taken, and the timer of a reconnection. The timer of an accepted
-- channel that was closed is `remove`.
pub data Command : Type 0 where
  add : FgwChannelConfig → Command
  remove : ℕ → Command
  redial : FgwChannelConfig → Command
  accept : Command
  start : FgwConfig → Command
  stop : Command

abbrev pub take_id : ℕ → Registry → Registry
take_id id r = record r { taken = λ j. if id == j then true else r.taken j }

abbrev pub free_id : ℕ → Registry → Registry
free_id id r = record r { taken = λ j. if id == j then false else r.taken j }

-- A free id of a known kind is taken; the answer is that of connecting.
unfoldable pub registry_add :
    (ChannelKind → FgwChannelConfig → Result ℕ) → FgwChannelConfig → Registry → Result ℕ × Registry
unfolding kind_of
registry_add connecting cfg r =
    if r.taken cfg.channel_id then (err channel_exists, r) else elim (kind_of cfg.kind) [
      | none ↦ (err invalid_config, r)
      | some kind ↦ (connecting kind cfg, take_id cfg.channel_id r)
    ]

unfoldable pub registry_remove : ℕ → Registry → Result ℕ × Registry
registry_remove id r = if r.taken id then (ok 0, free_id id r) else (err channel_not_found, r)

-- The channels of a configuration, whatever is answered for each.
unfoldable pub registry_add_all :
    (ChannelKind → FgwChannelConfig → Result ℕ) → List FgwChannelConfig → Registry → Registry
unfolding registry_add
registry_add_all connecting [] r = r
registry_add_all connecting (cfg ∷ cfgs) r =
    registry_add_all connecting cfgs (registry_add connecting cfg r).1

-- An accepted channel takes the next id, whether or not it is free.
unfoldable pub registry_do :
    (ChannelKind → FgwChannelConfig → Result ℕ) → Command → Registry → Result ℕ × Registry
unfolding registry_add registry_remove registry_add_all
registry_do connecting (add cfg) r = registry_add connecting cfg r
registry_do connecting (remove id) r = registry_remove id r
registry_do connecting (redial cfg) r =
    registry_add connecting cfg (registry_remove cfg.channel_id r).1
registry_do connecting accept r =
    (ok 0, record (take_id r.next_accepted r) { next_accepted = (r.next_accepted + 1) % 2 ^ 32 })
registry_do connecting (start cfg) r = (ok 0, registry_add_all connecting cfg.channels r)
registry_do connecting stop r = (ok 0, record r { taken = λ j. false })

unfoldable pub registry_run :
    (ChannelKind → FgwChannelConfig → Result ℕ)
    → List Command
    → Registry
    → List (Result ℕ) × Registry
unfolding registry_do
registry_run connecting [] r = ([], r)
registry_run connecting (c ∷ cs) r =
    let (answer, r') = registry_do connecting c r in
    let (answers, r'') = registry_run connecting cs r' in (answer ∷ answers, r'')
