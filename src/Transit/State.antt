-- ===== src/Transit/State.antt =====
-- src/zfgw_transit.h: the state of a TransitService.
use libfgw.Prelude.{
  ℕ, Bool, false, List, [], ◌∷◌, ◌++◌, Option, ◌==◌, if◌then◌else◌, length, Map, lookup, nat_ord,
}
use libfgw.Codes.{ℤ}
use libfgw.Config.{FgwConfig}
use libfgw.Link.Channel.{FgwChannel, FgwEndpoint, tcp, new_channel, send_bytes}
use libfgw.Stream.State.{FgwHello}

pub record Link : Type 0 where
  pub outbound : Bool
  pub buffer : List ℕ

-- A one-shot timer of the reactor: a re-dial of an outport, or the removal of a closed link.
pub data Timer : Type 0 where
  redial : ℕ → Timer
  drop_link : ℕ → Timer

-- A channel is known by its object's address; `next_object` is the next one's. `wire` is what was
-- handed to a socket, oldest first; `timers` what was scheduled.
pub record TransitService : Type 0 where
  pub config : FgwConfig
  pub objects : ℕ → FgwChannel
  pub next_object : ℕ
  pub links : Map ℕ Link
  pub outbound_by_outport : Map ℕ ℕ
  pub inbound_by_ingress : Map ℕ ℕ
  pub accepted_id_seq : ℕ
  pub listening : Bool
  pub heartbeat : Bool
  pub wire : List (ℕ × List ℕ)
  pub timers : List Timer

-- The code that a TransitService calls and that is not its own.
pub record TransitEnv : Type 0 where
  pub space : ℕ → ℕ
  pub tcp_write : List (ℕ × List ℕ) → ℕ → List ℕ → ℤ
  pub unpack_hello : List ℕ → Option FgwHello
  pub start_connect : FgwEndpoint → Bool
  pub listen : List ℕ → ℕ → Bool

-- A new TransitService.
abbrev pub transit_service : FgwConfig → TransitService
transit_service config = record {
  config = config;
  objects = λ p. new_channel 0 tcp 0;
  next_object = 0;
  links = [];
  outbound_by_outport = [];
  inbound_by_ingress = [];
  accepted_id_seq = 0x80000000;
  listening = false;
  heartbeat = false;
  wire = [];
  timers = [];
}

unfoldable pub put_object : ℕ → FgwChannel → (ℕ → FgwChannel) → ℕ → FgwChannel
put_object p ch objects q = if q == p then ch else objects q

-- sendBytes on the channel at `p`
unfoldable pub send_frame : TransitEnv → ℕ → List ℕ → TransitService → TransitService
unfolding send_bytes put_object
send_frame env p frame t =
    let (r, called, ch') =
      send_bytes (env.space (length frame)) (env.tcp_write t.wire p frame) (length frame)
        (t.objects p) in
    record t {
      objects = put_object p ch' t.objects;
      wire = if called then t.wire ++ (p, frame) ∷ [] else t.wire;
    }

unfoldable pub find_outbound : ℕ → TransitService → Option ℕ
find_outbound outport_id t = lookup outport_id t.outbound_by_outport

unfoldable pub find_inbound : ℕ → TransitService → Option ℕ
find_inbound ingress_id t = lookup ingress_id t.inbound_by_ingress
