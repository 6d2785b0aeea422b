-- ===== src/Transit/Steps.antt =====
-- src/zfgw_transit.cpp: what a TransitService does, in whatever order.
use libfgw.Prelude.{ℕ, List}
use libfgw.Config.{FgwConfig}
use libfgw.Transit.State.{TransitService, TransitEnv, transit_service}
use libfgw.Transit.Forward.{on_link_bytes}
use libfgw.Transit.Dial.{
  on_redial, make_inbound_channel, transit_start, transit_stop, on_link_closed, on_drop_link,
  on_heartbeat_tick,
}
use libfgw.Transit.Routed.{InRoute}
use libfgw.Transit.Serving.{
  empty-Routed, transit_start-InRoute, on_redial-InRoute, on_link_bytes-InRoute,
  make_inbound_channel-InRoute, on_drop_link-InRoute, heartbeat_links-InRoute,
}

-- The timers fire at any time, for any outport and any link.
pub data Step (env : TransitEnv) : TransitService → TransitService → Type 0 where
  started : (t : TransitService) → Step env t (transit_start env t).1
  stopped : (t : TransitService) → Step env t (transit_stop t)
  redialled : (id : ℕ) (t : TransitService) → Step env t (on_redial env id t)
  accepted : (t : TransitService) → Step env t (make_inbound_channel t)
  arrived :
      (ch : ℕ) (bytes : List ℕ) (t : TransitService) → Step env t (on_link_bytes env ch bytes t)
  lost : (ch : ℕ) (t : TransitService) → Step env t (on_link_closed ch t)
  dropped : (ch : ℕ) (t : TransitService) → Step env t (on_drop_link ch t)
  ticked : (t : TransitService) → Step env t (on_heartbeat_tick env t)

pub data Reaches (env : TransitEnv) : TransitService → TransitService → Type 0 where
  here : (t : TransitService) → Reaches env t t
  and_then : {t t' t'' : TransitService} → Reaches env t t' → Step env t' t'' → Reaches env t t''

Step-InRoute : (env : TransitEnv) {t t' : TransitService} → Step env t t' → InRoute t → InRoute t'
unfolding transit_stop on_link_closed on_heartbeat_tick
Step-InRoute env (started t) r = transit_start-InRoute env t r
Step-InRoute env (stopped t) r = empty-Routed t.next_object
Step-InRoute env (redialled id t) r = on_redial-InRoute env id t r
Step-InRoute env (accepted t) r = make_inbound_channel-InRoute t r
Step-InRoute env (arrived ch bytes t) r = on_link_bytes-InRoute env ch bytes t r
Step-InRoute env (lost ch t) r = r
Step-InRoute env (dropped ch t) r = on_drop_link-InRoute ch t r
Step-InRoute env (ticked t) r = heartbeat_links-InRoute env t.links t r

Reaches-InRoute_from :
    (env : TransitEnv) {t t' : TransitService} → InRoute t → Reaches env t t' → InRoute t'
Reaches-InRoute_from env r (here t) = r
Reaches-InRoute_from env r (and_then path step) =
    Step-InRoute env step (Reaches-InRoute_from env r path)

-- Whatever a new transit does, in whatever order and whenever its timers fire: each route to an
-- outport leads to a link that is in the table and was dialled, and no two of them to the same one;
-- each route to an ingress leads to a link that is in the table and was accepted.
pub Reaches-InRoute :
    (env : TransitEnv) (config : FgwConfig) (t : TransitService)
    → Reaches env (transit_service config) t
    → InRoute t
Reaches-InRoute env config t path =
    Reaches-InRoute_from env {t = transit_service config} {t' = t} (empty-Routed 0) path
