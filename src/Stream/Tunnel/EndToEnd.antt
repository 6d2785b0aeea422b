-- ===== src/Stream/Tunnel/EndToEnd.antt =====
-- src/zfgw_datastream.cpp: sendSessionData at one end and onChannelBytes at the other.
use libfgw.Prelude.{
  ℕ, ◌^◌, ◌<◌, ◌≤◌, ◌≡◌, refl, sym, arith, ◌++◌, ap, subst, ◌∙◌, false, List, some, length, drop,
  drop-append, concat, All, All-map, lookup, nat_ord, pair_ord,
}
use libfgw.Segment.Header.{max_payload}
use libfgw.Stream.State.{SessionState, DataStream, Env, Event}
use libfgw.Stream.Send.{send_session_data, resolve_ingress_key}
use libfgw.Stream.Send.Wire.{Emits}
use libfgw.Stream.Send.Chunks.{data_frame, IsPiece, send_session_data-Emits}
use libfgw.Stream.Send.Pieces.{pieces, below-pieces}
use libfgw.Stream.Receive.Quiet.{Quiet, delivered}
use libfgw.Stream.Receive.Buffer.{Clear}
use libfgw.Stream.Receive.InOrder.{Starts}
use libfgw.Stream.Tunnel.{receive_frames, Among, Among-IsPiece}
use libfgw.Stream.Tunnel.Delivery.{transfer, frames-delivered}

-- What sendSessionData added to the wire.
abbrev pub new_frames : Env → ℕ → List ℕ → ℕ → DataStream → List (ℕ × List ℕ)
new_frames env sid bytes arg s = drop (length s.wire) (send_session_data env sid bytes arg s).1.wire

-- The frame of one of the segments of the bytes.
abbrev pub IsSegmentOf : DataStream → ℕ → ℕ → List ℕ → ℕ × List ℕ → Type 0
IsSegmentOf s wi sid bytes x =
    (k : ℕ) × (k < pieces (length bytes) s.segment_size (length bytes))
    × (x.1 ≡ data_frame s wi sid bytes k)

-- For an open session that sent no data before, sendSessionData only adds to the wire, and every
-- frame that it adds is that of one of the segments of its bytes. If whole frames of these are
-- given to onChannelBytes at the other end, in any order, on any channels and any number of times,
-- and the frame of every segment is among them, then the handler there, whose session starts empty,
-- is given exactly the bytes that were sent. The segment size is not 0 and fits the format, the ids
-- and the number of bytes fit 32 bits, the segments fit the receive window and the window is below
-- 2^16; no bytes wait in a buffer of the receiver; its handler ends no session and touches neither
-- the tables, the buffers nor the log of calls while it is called, and blocks can be had.
pub tunnel :
    (env peer : Env) (s t : DataStream) (st : SessionState) (sid arg h w : ℕ) (bytes : List ℕ)
    (ys : List (ℕ × List ℕ)) (ample : 0 < s.segment_size) (fits : s.segment_size ≤ max_payload)
    (short : length bytes < 2 ^ 32) (wi_small : st.wire_ingress_id < 2 ^ 32)
    (sid_small : sid < 2 ^ 32) (route_small : s.route_outport_id < 2 ^ 32)
    (quiet : Quiet peer (st.wire_ingress_id, sid))
    (in_window : pieces (length bytes) s.segment_size (length bytes) ≤ w) (small : w < 2 ^ 16)
    (room : (n : ℕ) → n ≤ length (peer.acquire n))
    → lookup (resolve_ingress_key s arg, sid) s.sessions ≡ some st
    → st.closed ≡ false
    → st.next_send_seq ≡ 0
    → Starts
        (transfer s st.wire_ingress_id sid bytes ample fits short wi_small sid_small route_small
          peer h w quiet in_window small room)
        t
    → All (λ y. Among y.1 (new_frames env sid bytes arg s)) ys
    → ((k : ℕ)
        → k < pieces (length bytes) s.segment_size (length bytes)
        → Among (data_frame s st.wire_ingress_id sid bytes k) ys)
    → Clear t
    → ((ev : Event) (u : DataStream) → (peer.react ev u).scratch ≡ u.scratch)
    → ((send_session_data env sid bytes arg s).1.wire ≡ s.wire ++ new_frames env sid bytes arg s)
      × All (IsSegmentOf s st.wire_ingress_id sid bytes) (new_frames env sid bytes arg s)
      × (concat (delivered h sid (receive_frames peer ys t).calls) ≡ bytes)
tunnel env peer s t st sid arg h w bytes ys ample fits short wi_small sid_small route_small quiet
      in_window small room found not_closed fresh start from_wire all clear apart =
    (
      emitted.on_wire ∙ ap (λ (ws : List (ℕ × List ℕ)). s.wire ++ ws) (sym as_sent),
      subst (All (IsSegmentOf s st.wire_ingress_id sid bytes)) (sym as_sent) (
          All-map _ (IsSegmentOf s st.wire_ingress_id sid bytes) emitted.sent
            (λ x piece. (
              piece.0,
              below-pieces (length bytes) s.segment_size (length bytes) piece.0 ample (omega arith)
                  piece.1,
              piece.2,
            ))
            emitted.each),
      frames-delivered s st.wire_ingress_id sid bytes ample fits short wi_small sid_small
          route_small peer h w quiet in_window small room env ys t start
          (All-map (λ y. Among y.1 (new_frames env sid bytes arg s)) _ ys
            (λ y among.
              Among-IsPiece s st.wire_ingress_id sid bytes ample fits short wi_small sid_small
                route_small env y.1 emitted.sent emitted.each
                (subst (λ (ws : List (ℕ × List ℕ)). Among y.1 ws) as_sent among))
            from_wire)
          all apart clear,
    )
  where
    emitted :
        Emits
          (IsPiece env s (resolve_ingress_key s arg, sid) st.wire_ingress_id bytes ample fits short)
          s
          (send_session_data env sid bytes arg s).1
    emitted =
        send_session_data-Emits env s (resolve_ingress_key s arg, sid) st.wire_ingress_id bytes
          ample fits short st arg refl found not_closed fresh refl

    as_sent : new_frames env sid bytes arg s ≡ emitted.sent
    as_sent =
        ap (drop (length s.wire)) emitted.on_wire
        ∙ drop-append s.wire emitted.sent (length s.wire) refl
