-- ===== src/Link/Pool.antt =====
-- The channel objects and the part of ChannelManager that a DataStream uses: `channels_`, the
-- selector, liveChannels and findChannel (src/zfgw_channel_manager.cpp).
use libfgw.Prelude.{ℕ, List, [], ◌∷◌, Option, none, some, ◌==◌, if◌then◌else◌, Map, lookup, nat_ord}
use libfgw.Link.Channel.{FgwChannel, is_live}
use libfgw.Link.Selector.{LinkSelector}

-- An object is known by its address; `channels` maps a channel id to an object.
pub record Links : Type 0 where
  pub objects : ℕ → FgwChannel
  pub channels : Map ℕ ℕ
  pub selector : LinkSelector

unfoldable pub change : ℕ → (FgwChannel → FgwChannel) → Links → Links
change p f l = record l { objects = λ q. if q == p then f (l.objects q) else l.objects q }

unfoldable pub live_addresses : (ℕ → FgwChannel) → Map ℕ ℕ → List ℕ
live_addresses objects [] = []
live_addresses objects ((id, p) ∷ m) =
    let rest = live_addresses objects m in if is_live (objects p) then p ∷ rest else rest

unfoldable pub live_channels : Links → List ℕ
unfolding live_addresses
live_channels l = live_addresses l.objects l.channels

unfoldable pub find_channel : ℕ → Links → Option ℕ
find_channel id l = lookup id l.channels

-- std::find_if over the live channels by their id.
unfoldable pub find_live : (ℕ → FgwChannel) → ℕ → List ℕ → Option ℕ
find_live objects id [] = none
find_live objects id (p ∷ ps) =
    let rest = find_live objects id ps in if (objects p).channel_id == id then some p else rest
