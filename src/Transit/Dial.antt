-- ===== src/Transit/Dial.antt =====
-- src/zfgw_transit.cpp: dialling, accepting, closing and the heartbeat of a TransitService.
use libfgw.Prelude.{
  ℕ, ◌+◌, ◌%◌, ◌^◌, true, false, List, [], ◌∷◌, ◌++◌, Option, none, some, ◌==◌, if◌then◌else◌,
  replicate, take, Map, lookup, insert, erase, nat_ord,
}
use libfgw.Codes.{Result, ok, err, listen_fail, pos}
use libfgw.Config.{FgwChannelConfig, any_address}
use libfgw.Segment.Header.{default_header, flag_heartbeat}
use libfgw.Segment.Encode.{fgw_segment_encode}
use libfgw.Link.Channel.{FgwChannel, tcp, new_channel, mark_accepted, close_channel}
use libfgw.Transit.State.{
  Link, redial, drop_link, TransitService, TransitEnv, put_object, send_frame,
}

unfoldable pub schedule_redial : ℕ → TransitService → TransitService
schedule_redial outport_id t = record t { timers = t.timers ++ redial outport_id ∷ [] }

-- links_.erase of the channel that the outport has now, if any.
unfoldable pub drop_stale : ℕ → TransitService → Map ℕ Link
drop_stale outport_id t = elim (lookup outport_id t.outbound_by_outport) [
  | none ↦ t.links
  | some p ↦ erase p t.links
]

-- dialOneOutport
unfoldable pub dial_one_outport : TransitEnv → FgwChannelConfig → TransitService → TransitService
unfolding drop_stale put_object schedule_redial
dial_one_outport env ccfg t =
    let p = t.next_object in
    let ch = record (new_channel ccfg.channel_id tcp ccfg.priority) { has_tcp = true } in
    let t1 = record t {
      objects = put_object p ch t.objects;
      next_object = p + 1;
      links = insert p (record { outbound = true; buffer = [] }) (drop_stale ccfg.channel_id t);
      outbound_by_outport = insert ccfg.channel_id p t.outbound_by_outport;
    } in
    if env.start_connect ccfg.remote then t1 else schedule_redial ccfg.channel_id t1

unfoldable pub dial_outports : TransitEnv → List FgwChannelConfig → TransitService → TransitService
unfolding dial_one_outport
dial_outports env [] t = t
dial_outports env (ccfg ∷ rest) t = dial_outports env rest (dial_one_outport env ccfg t)

-- The first configuration with the id.
unfoldable pub config_of : ℕ → List FgwChannelConfig → Option FgwChannelConfig
config_of id [] = none
config_of id (c ∷ cs) = let rest = config_of id cs in if c.channel_id == id then some c else rest

-- The timer of scheduleOutportRedial.
unfoldable pub on_redial : TransitEnv → ℕ → TransitService → TransitService
unfolding config_of dial_one_outport
on_redial env outport_id t = elim (config_of outport_id t.config.channels) [
  | none ↦ t
  | some ccfg ↦ dial_one_outport env ccfg t
]

-- makeInboundChannel, then createAcceptedHandler.
unfoldable pub make_inbound_channel : TransitService → TransitService
unfolding put_object mark_accepted
make_inbound_channel t =
    let p = t.next_object in
    let ch = record (mark_accepted (new_channel t.accepted_id_seq tcp 100)) { has_tcp = true } in
    record t {
      objects = put_object p ch t.objects;
      next_object = p + 1;
      links = insert p (record { outbound = false; buffer = [] }) t.links;
      accepted_id_seq = (t.accepted_id_seq + 1) % 2 ^ 32;
    }

unfoldable pub transit_start : TransitEnv → TransitService → Result ℕ × TransitService
unfolding dial_outports any_address
transit_start env t =
    let t1 = dial_outports env t.config.channels t in
    let running = record t1 { heartbeat = true } in
    if t.config.outport_listen_port == 0
    then (ok 0, running)
    else if env.listen (any_address t.config.outport_listen_host) t.config.outport_listen_port
    then (ok 0, record running { listening = true })
    else (err listen_fail, t1)

-- Each link's channel is closed.
unfoldable pub close_links : Map ℕ Link → (ℕ → FgwChannel) → ℕ → FgwChannel
unfolding put_object close_channel
close_links [] objects = objects
close_links ((p, link) ∷ m) objects =
    close_links m (put_object p (close_channel (objects p)) objects)

unfoldable pub transit_stop : TransitService → TransitService
unfolding close_links
transit_stop t = record t {
  objects = close_links t.links t.objects;
  links = [];
  outbound_by_outport = [];
  inbound_by_ingress = [];
  listening = false;
  heartbeat = false;
}

-- The routes that lead to `ch` are removed.
unfoldable pub without : ℕ → Map ℕ ℕ → Map ℕ ℕ
without ch [] = []
without ch ((id, p) ∷ m) = let rest = without ch m in if p == ch then rest else (id, p) ∷ rest

-- The last outport in the table that `ch` serves.
unfoldable pub served_by : ℕ → Map ℕ ℕ → Option ℕ
served_by ch [] = none
served_by ch ((id, p) ∷ m) = elim (served_by ch m) [
  | some later ↦ some later
  | none ↦ if p == ch then some id else none
]

-- onLinkClosed only schedules the removal.
unfoldable pub on_link_closed : ℕ → TransitService → TransitService
on_link_closed ch t = record t { timers = t.timers ++ drop_link ch ∷ [] }

-- The timer of onLinkClosed.
unfoldable pub on_drop_link : ℕ → TransitService → TransitService
unfolding without served_by schedule_redial
on_drop_link ch t = elim (lookup ch t.links) [
  | none ↦ t
  | some link ↦
      let t1 = record t {
        links = erase ch t.links;
        outbound_by_outport = without ch t.outbound_by_outport;
        inbound_by_ingress = without ch t.inbound_by_ingress;
      } in
      if link.outbound
      then elim (served_by ch t.outbound_by_outport) [ none ↦ t1 | some id ↦ schedule_redial id t1 ]
      else t1
]

unfoldable pub send_heartbeat : TransitEnv → ℕ → TransitService → TransitService
unfolding send_frame
send_heartbeat env p t =
    let hdr = record default_header { flags = flag_heartbeat; ingress_id = t.config.ingress_id } in
    elim (fgw_segment_encode (some (replicate 64 0)) hdr none (pos 0)) [
      | err e ↦ t
      | ok (wrote, bytes) ↦ send_frame env p (take wrote bytes) t
    ]

-- onHeartbeatTick over the links of the snapshot.
unfoldable pub heartbeat_links : TransitEnv → Map ℕ Link → TransitService → TransitService
unfolding send_heartbeat
heartbeat_links env [] t = t
heartbeat_links env ((p, link) ∷ m) t =
    heartbeat_links env m (if (t.objects p).connected then send_heartbeat env p t else t)

unfoldable pub on_heartbeat_tick : TransitEnv → TransitService → TransitService
unfolding heartbeat_links
on_heartbeat_tick env t = heartbeat_links env t.links t
