-- ===== src/Stream/State.antt =====
-- src/zfgw_datastream.h: the state of a DataStream, and what it uses of other code.
use libfgw.Prelude.{
  ℕ, ◌≡◌, ◌↔◌, Bool, true, false, ◌&&◌, List, [], ◌∷◌, ◌++◌, Option, none, ltb, ◌==◌, if◌then◌else◌,
  Map, Ord, arith,
}
use libfgw.Codes.{ℤ}
use libfgw.Link.Fpu.{Fpu}
use libfgw.Link.Selector.{Entry}
use libfgw.Link.Pool.{Links}

-- A handler is known by its address.
pub record SessionState : Type 0 where
  pub session_id : ℕ
  pub wire_ingress_id : ℕ
  pub next_send_seq : ℕ
  pub expected_rx_seq : ℕ
  pub rx_buffer : Map ℕ (List ℕ)
  pub handler : Option ℕ
  pub opened : Bool
  pub closed : Bool

abbrev pub fresh_session : SessionState
fresh_session = record {
  session_id = 0;
  wire_ingress_id = 0;
  next_send_seq = 0;
  expected_rx_seq = 0;
  rx_buffer = [];
  handler = none;
  opened = false;
  closed = false;
}

pub record DedupKey : Type 0 where
  pub ingress : ℕ
  pub session : ℕ
  pub seq : ℕ
  pub kind : ℕ

abbrev pub dedup_eq : DedupKey → DedupKey → Bool
dedup_eq a b =
    a.ingress == b.ingress && (a.session == b.session && (a.seq == b.seq && a.kind == b.kind))

-- DedupKey::operator<
abbrev pub dedup_lt : DedupKey → DedupKey → Bool
dedup_lt a o =
    if a.ingress == o.ingress
    then if a.session == o.session
      then if a.seq == o.seq then ltb a.kind o.kind else ltb a.seq o.seq
      else ltb a.session o.session
    else ltb a.ingress o.ingress

pub dedup_eq_iff : (a b : DedupKey) → (dedup_eq a b ≡ true) ↔ (a ≡ b)
dedup_eq_iff a b = (λ h. ground arith, λ h. ground arith)

instance abbrev pub dedup_ord : Ord DedupKey
dedup_ord = record { eq = dedup_eq; lt = dedup_lt; eq_iff = dedup_eq_iff }

-- The calls on session handlers: onSessionOpen, onSessionData and onSessionClose.
pub data Event : Type 0 where
  session_open : ℕ → ℕ → Event
  session_data : ℕ → ℕ → List ℕ → Event
  session_close : ℕ → ℕ → Event

pub record FgwHello : Type 0 where
  pub proto_version : ℕ
  pub role : ℕ
  pub ingress_id : ℕ
  pub outport_id : ℕ
  pub channel_id : ℕ
  pub generation : ℕ

pub record FgwLinkFeedback : Type 0 where
  pub decision_epoch : ℕ
  pub recommended_primary : ℕ
  pub alive_bitmap : ℕ
  pub highest_seq : ℕ

-- `links` is the manager. `wire` lists what was handed to a socket, with the channel object;
-- `calls` lists the calls on handlers. Both are oldest first, and the code reads neither.
pub record DataStream : Type 0 where
  pub local_ingress_id : ℕ
  pub segment_size : ℕ
  pub recv_window : ℕ
  pub verify_crc : Bool
  pub route_outport_id : ℕ
  pub sessions : Map (ℕ × ℕ) SessionState
  pub scratch : Map ℕ (List ℕ)
  pub dedup_queue : List DedupKey
  pub dedup_map : Map DedupKey Bool
  pub peer_win_count : Map ℕ ℕ
  pub peer_part_count : Map ℕ ℕ
  pub feedback_epoch : ℕ
  pub applied_epoch : ℕ
  pub peer_generation : ℕ
  pub links : Links
  pub wire : List (ℕ × List ℕ)
  pub calls : List Event

-- The code that a DataStream calls and that is not its own.
pub record Env : Type 0 where
  pub fpu : Fpu
  -- std::sort with a comparison
  pub sort : (Entry → Entry → Bool) → List Entry → List Entry
  -- What ZCE_MBACQUIRE hands out for a size: the bytes of the block, too few if it fails.
  pub acquire : ℕ → List ℕ
  -- The result of zce::Tcp's write on a channel's socket, after the writes so far.
  pub tcp_write : List (ℕ × List ℕ) → ℕ → List ℕ → ℤ
  -- zds_pack and zds_unpack of the two control payloads.
  pub pack_feedback : FgwLinkFeedback → Option (List ℕ)
  pub unpack_feedback : List ℕ → Option FgwLinkFeedback
  pub unpack_hello : List ℕ → Option FgwHello
  -- unknown_cb_, if it is set: the handler for an ingress and a session, or null.
  pub unknown_cb : Option (ℕ → ℕ → Option ℕ)
  -- What a handler does to the stream while it is called.
  pub react : Event → DataStream → DataStream

-- A call on a handler.
unfoldable pub notify : Env → Event → DataStream → DataStream
notify env ev s = env.react ev (record s { calls = s.calls ++ ev ∷ [] })
