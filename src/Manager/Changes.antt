-- ===== src/Manager/Changes.antt =====
-- src/zfgw_channel_manager.cpp: adding a channel, removing it and dialling it again.
use libfgw.Prelude.{
  ℕ, ◌≡◌, refl, sym, ap, ◌∙◌, Bool, true, false, some, none, option_known, option_cases, if_cases,
  if◌then◌else◌, Map, lookup, insert, has_key, nat_ord, lookup-insert, lookup-insert_self,
  lookup-erase, has_key-insert_self, Bool-cases, ==_iff, inl, inr, ◌==◌, arith,
}
use libfgw.Codes.{Result, ok, err, channel_exists}
use libfgw.Config.{FgwChannelConfig}
use libfgw.Link.Channel.{ChannelKind, tcp, utp, new_channel}
use libfgw.Link.Pool.{change}
use libfgw.Manager.State.{ChannelManager, ManagerEnv, change_object}
use libfgw.Manager.Channels.{
  connect, kind_of, shared_utp_context, with_context, put_channel, add_new, add_channel,
  remove_channel,
}

-- What adding a channel does to a table without its id.
record Added (env : ManagerEnv) (cfg : FgwChannelConfig) (kind : ChannelKind)
    (m m' : ChannelManager) : Type 0 where
  in_table : m'.links.channels ≡ insert cfg.channel_id m.next_object m.links.channels
  object :
      m'.links.objects m.next_object
      ≡ (connect env cfg.remote (new_channel cfg.channel_id kind cfg.priority)).1

add_new-Added :
    (env : ManagerEnv) (cfg : FgwChannelConfig) (kind : ChannelKind) (m : ChannelManager)
    → Added env cfg kind m (add_new env kind cfg m).1
unfolding add_new put_channel change_object change
add_new-Added env cfg kind m = record { in_table = refl; object = at_itself m.next_object _ _ }
  where
    at_itself : {A : Type 0} (p : ℕ) (x y : A) → (if p == p then x else y) ≡ x
    at_itself p x y = rw ((==_iff p p).1 refl)

context-Added :
    (env : ManagerEnv) (cfg : FgwChannelConfig) (kind : ChannelKind) (m : ChannelManager)
    → Added env cfg kind m (add_new env kind cfg (with_context env kind m)).1
unfolding with_context shared_utp_context
context-Added env cfg tcp m = add_new-Added env cfg tcp m
context-Added env cfg utp m = again (add_new-Added env cfg utp (shared_utp_context env m))
  where
    again :
        Added env cfg utp
          (shared_utp_context env m)
          (add_new env utp cfg (shared_utp_context env m)).1
        → Added env cfg utp m (add_new env utp cfg (shared_utp_context env m)).1
    again a = record { in_table = a.in_table; object = a.object }

add_channel-Added :
    (env : ManagerEnv) (cfg : FgwChannelConfig) (kind : ChannelKind) (m : ChannelManager)
    → has_key cfg.channel_id m.links.channels ≡ false
    → kind_of cfg.kind ≡ some kind
    → Added env cfg kind m (add_channel env cfg m).1
unfolding add_channel
add_channel-Added env cfg kind m free known =
    if_cases P (has_key cfg.channel_id m.links.channels) _ _ (λ e. absurd (ground arith))
      (λ e. option_known P (kind_of cfg.kind) kind _ _ known (context-Added env cfg kind m))
  where
    P : Result ℕ × ChannelManager → Type 0
    P x = Added env cfg kind m x.1

when_true : {A : Type 0} (b : Bool) (x y : A) → b ≡ true → (if b then x else y) ≡ x
when_true b x y h = rw h

refused :
    (env : ManagerEnv) (cfg : FgwChannelConfig) (m : ChannelManager)
    → has_key cfg.channel_id m.links.channels ≡ true
    → add_channel env cfg m ≡ (err channel_exists, m)
unfolding add_channel
refused env cfg m there = when_true (has_key cfg.channel_id m.links.channels) _ _ there

tried-has_key :
    (env : ManagerEnv) (cfg : FgwChannelConfig) (kind : ChannelKind) (m : ChannelManager)
    → kind_of cfg.kind ≡ some kind
    → has_key cfg.channel_id (add_channel env cfg m).1.links.channels ≡ true
tried-has_key env cfg kind m known = elim (Bool-cases (has_key cfg.channel_id m.links.channels)) [
  | inl there ↦
      ap (λ (x : Result ℕ × ChannelManager). has_key cfg.channel_id x.1.links.channels)
        (refused env cfg m there)
      ∙ there
  | inr free ↦
      ap (has_key cfg.channel_id) (add_channel-Added env cfg kind m free known).in_table
      ∙ has_key-insert_self cfg.channel_id m.next_object m.links.channels
]

-- After a channel of a known kind was tried to add, adding a channel with its id is refused and the
-- manager stays as it is, whatever connecting the first said and whether or not it was in the table
-- before.
pub add_channel-again :
    (env : ManagerEnv) (cfg cfg' : FgwChannelConfig) (kind : ChannelKind) (m : ChannelManager)
    → kind_of cfg.kind ≡ some kind
    → cfg'.channel_id ≡ cfg.channel_id
    → add_channel env cfg' (add_channel env cfg m).1
      ≡ (err channel_exists, (add_channel env cfg m).1)
add_channel-again env cfg cfg' kind m known same = refused env cfg' (add_channel env cfg m).1 (
    ap (λ (id : ℕ). has_key id (add_channel env cfg m).1.links.channels) same
    ∙ tried-has_key env cfg kind m known)

lookup_removed :
    (id j : ℕ) (m : ChannelManager)
    → lookup j (remove_channel id m).1.links.channels
      ≡ (if id == j then none else lookup j m.links.channels)
unfolding remove_channel change_object change
lookup_removed id j m =
    option_cases
      (λ (x : Result ℕ × ChannelManager).
        lookup j x.1.links.channels ≡ (if id == j then none else lookup j m.links.channels))
      (lookup id m.links.channels) _ _
      (λ gone.
        missing (id == j)
          (λ e. ap (λ (k : ℕ). lookup k m.links.channels) (sym ((==_iff id j).0 e)) ∙ gone))
      (λ p found. lookup-erase id j m.links.channels)
  where
    missing :
        (b : Bool)
        → (b ≡ true → lookup j m.links.channels ≡ none)
        → lookup j m.links.channels ≡ (if b then none else lookup j m.links.channels)
    missing true h = h refl
    missing false h = refl

lookup_free :
    (id : ℕ) (channels : Map ℕ ℕ) → has_key id channels ≡ false → lookup id channels ≡ none
unfolding has_key
lookup_free id channels h = ground arith

lookup_added :
    (env : ManagerEnv) (cfg : FgwChannelConfig) (kind : ChannelKind) (m : ChannelManager)
    → has_key cfg.channel_id m.links.channels ≡ false
    → kind_of cfg.kind ≡ some kind
    → lookup cfg.channel_id (add_channel env cfg m).1.links.channels ≡ some m.next_object
lookup_added env cfg kind m free known =
    ap (lookup cfg.channel_id) (add_channel-Added env cfg kind m free known).in_table
    ∙ lookup-insert_self cfg.channel_id m.next_object m.links.channels

removed_ok :
    (id p : ℕ) (m : ChannelManager)
    → lookup id m.links.channels ≡ some p
    → (remove_channel id m).0 ≡ ok 0
unfolding remove_channel
removed_ok id p m found =
    option_known (λ (x : Result ℕ × ChannelManager). x.0 ≡ ok 0) (lookup id m.links.channels) p _ _
      found refl

-- A channel of a known kind that was added to a table without its id is removed again with success,
-- whatever connecting it said, and every id leads to what it led to before.
pub remove_channel-add_channel :
    (env : ManagerEnv) (cfg : FgwChannelConfig) (kind : ChannelKind) (m : ChannelManager) (j : ℕ)
    → has_key cfg.channel_id m.links.channels ≡ false
    → kind_of cfg.kind ≡ some kind
    → ((remove_channel cfg.channel_id (add_channel env cfg m).1).0 ≡ ok 0)
      × (lookup j (remove_channel cfg.channel_id (add_channel env cfg m).1).1.links.channels
          ≡ lookup j m.links.channels)
remove_channel-add_channel env cfg kind m j free known = (
  removed_ok cfg.channel_id m.next_object (add_channel env cfg m).1
      (lookup_added env cfg kind m free known),
  lookup_removed cfg.channel_id j (add_channel env cfg m).1 ∙ back,
)
  where
    inserted :
        lookup j (add_channel env cfg m).1.links.channels
        ≡ (if cfg.channel_id == j then some m.next_object else lookup j m.links.channels)
    inserted =
        ap (lookup j) (add_channel-Added env cfg kind m free known).in_table
        ∙ lookup-insert cfg.channel_id j m.next_object m.links.channels

    back :
        (if cfg.channel_id == j then none else lookup j (add_channel env cfg m).1.links.channels)
        ≡ lookup j m.links.channels
    back =
        ground (
          arith,
          inserted,
          lookup_free cfg.channel_id m.links.channels free,
          ==_iff cfg.channel_id j,
        )
