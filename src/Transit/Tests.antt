-- ===== src/Transit/Tests.antt =====
-- A frame on its way through a transit.
use libfgw.Prelude.{
  ℕ, ◌≡◌, ◌⊎◌, refl, List, true, false, [], ◌∷◌, some, none, length, lookup, insert, nat_ord,
}
use libfgw.Codes.{pos}
use libfgw.Config.{FgwConfig}
use libfgw.Segment.Header.{FgwSegmentHeader, default_header, has_flag}
use libfgw.Segment.Decode.{fgw_segment_peek_header}
use libfgw.Link.Channel.{new_channel, tcp}
use libfgw.Transit.State.{TransitService, TransitEnv, transit_service}
use libfgw.Transit.Forward.{transit_frame, route, on_link_bytes, transit_frame-route}
use libfgw.Transit.Dial.{make_inbound_channel, transit_start, on_drop_link, on_redial}
use libfgw.Transit.Routed.{InRoute}
use libfgw.Transit.Steps.{
  Reaches, here, and_then, started, accepted, arrived, dropped, redialled, Reaches-InRoute,
}

abbrev test_config : FgwConfig
test_config = record {
  role = 2;
  ingress_id = 0;
  inport_listen_port = 0;
  outport_listen_host = [];
  outport_listen_port = 0;
  channels = [];
  segment_size = 1200;
  recv_window = 1024;
  heartbeat_interval = 5;
  link_timeout = 15;
  reconnect_max = 60;
  multipath_mode = 2;
  enable_crc = 1;
  route_outport_id = 0;
  config_version = 0xF6C00003;
}

abbrev pub test_env : TransitEnv
test_env = record {
  space = λ n. n;
  tcp_write = λ wire p frame. pos (length frame);
  unpack_hello = λ bytes. none;
  start_connect = λ remote. true;
  listen = λ host port. true;
}

-- The outport 3 is at the link 8.
abbrev test_transit : TransitService
test_transit = record {
  config = test_config;
  objects = λ p. record (new_channel p tcp 100) { connected = true; has_tcp = true };
  next_object = 9;
  links = [];
  outbound_by_outport = (3, 8) ∷ [];
  inbound_by_ingress = [];
  accepted_id_seq = 0;
  listening = true;
  heartbeat = true;
  wire = [];
  timers = [];
}

abbrev test_header : FgwSegmentHeader
test_header = record default_header { flags = 0xC4; session_id = 5; ingress_id = 1; outport_id = 3 }

transit_frame-route_example :
    ((transit_frame test_env 2 false 24 test_header (1 ∷ 2 ∷ []) test_transit).wire ≡ [])
    ⊎ ((p : ℕ) × (route false test_header test_transit ≡ some p)
        × ((transit_frame test_env 2 false 24 test_header (1 ∷ 2 ∷ []) test_transit).wire
            ≡ (p, 1 ∷ 2 ∷ []) ∷ []))
transit_frame-route_example =
    transit_frame-route test_env 2 false 24 test_header (1 ∷ 2 ∷ []) test_transit

abbrev one_outport : FgwConfig
one_outport = record test_config {
  channels =
      record {
        channel_id = 3;
        kind = 0;
        remote = record { host = []; port = 7000 };
        priority = 100;
      }
      ∷ [];
}

-- A transit that dialled its outport and accepted an inport.
abbrev linked : TransitService
linked = make_inbound_channel (transit_start test_env (transit_service one_outport)).1

-- A frame without payload, from ingress 1 to outport 3, has come over the accepted link.
abbrev frame : List ℕ
frame =
    0xF6 ∷ 0xC0 ∷ 0 ∷ 0 ∷ 0 ∷ 0 ∷ 0 ∷ 5 ∷ 0 ∷ 0 ∷ 0 ∷ 0 ∷ 0 ∷ 0 ∷ 0 ∷ 1 ∷ 0 ∷ 0 ∷ 0 ∷ 3 ∷ 0 ∷ 0 ∷ 0
    ∷ 0 ∷ []

abbrev forwarded : TransitService
forwarded = on_link_bytes test_env 1 frame linked

learned_ingress : forwarded.inbound_by_ingress ≡ (1, 1) ∷ []
unfolding on_link_bytes lookup make_inbound_channel insert transit_start fgw_segment_peek_header
    has_flag
learned_ingress = refl

-- Its outport is lost and dialled again.
abbrev healed : TransitService
healed = on_redial test_env 3 (on_drop_link 0 forwarded)

healing : Reaches test_env (transit_service one_outport) healed
unfolding transit_start
healing =
    and_then
      (and_then
        (and_then
          (and_then (and_then (here _) (started (transit_service one_outport))) (accepted _))
          (arrived 1 frame linked))
        (dropped 0 forwarded))
      (redialled 3 _)

Reaches-InRoute_example : InRoute healed
Reaches-InRoute_example = Reaches-InRoute test_env one_outport healed healing
