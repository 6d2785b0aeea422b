-- ===== src/Stream/Tunnel.antt =====
-- src/zfgw_datastream.cpp, both ends: what sendSessionData of one DataStream puts on the wire, and
-- what the handler at the other end is given of it.
pub mod Delivery
pub mod EndToEnd
pub mod Tests
use libfgw.Prelude.{
  ℕ, ◌*◌, ◌^◌, bit_or, ◌<◌, ◌≤◌, ◌≡◌, ◌⊎◌, inl, inr, refl, sym, ap, subst, ◌∙◌, Bool, true, false,
  not, List, [], ◌∷◌, ◌++◌, some, ltb, lt→ltb, ltb→lt, ◌==◌, if◌then◌else◌, Bool-cases, length,
  take, drop, drop-append, length-take, concat, All, append-nil, lookup, pair_ord, nat_ord, arith,
}
use libfgw.Segment.Header.{
  FgwSegmentHeader, InRange, max_payload, has_flag, flag_data, flag_syn, flag_fin, flag_hello,
  flag_heartbeat, flag_ack, flag_hdr_route,
}
use libfgw.Segment.Encode.{wire_header_size}
use libfgw.Segment.Decode.{Peek, found, fgw_segment_peek_header}
use libfgw.Segment.Flags.{wire_flags}
use libfgw.Segment.RoundTrip.{frame_of, wire_header, peek-frame_of}
use libfgw.Link.Channel.{note_segment_recv}
use libfgw.Link.Pool.{change}
use libfgw.Stream.State.{SessionState, DataStream, Env}
use libfgw.Stream.Send.{segment_header, send_session_data, resolve_ingress_key}
use libfgw.Stream.Send.Wire.{data_header}
use libfgw.Stream.Send.Chunks.{le_mul, chunk, data_frame, IsPiece, send_session_data-Emits}
use libfgw.Stream.Send.Pieces.{
  pieces, pieces-below, pieces-enough, below-pieces, chunk-full, concat-pieces,
}
use libfgw.Stream.Receive.{consume, on_channel_bytes, on_frame, on_segment}
use libfgw.Stream.Receive.Quiet.{Quiet, delivered}
use libfgw.Stream.Receive.Frames.{Sent, consume_one, on_frame_session}
use libfgw.Stream.Receive.Receiving.{Transfer, Receiving, Took, Got, IsDataOf, same-Receiving}
use libfgw.Stream.Receive.InOrder.{Starts, Starts-Receiving, step-Took, all_taken}

-- Whole frames, each given to onChannelBytes with the channel that it comes in on.
unfoldable pub receive_frames : Env → List (ℕ × List ℕ) → DataStream → DataStream
unfolding on_channel_bytes
receive_frames env [] t = t
receive_frames env ((ch, frame) ∷ ys) t = receive_frames env ys (on_channel_bytes env ch frame t)

-- A frame is among those on a wire.
abbrev pub Among : List ℕ → List (ℕ × List ℕ) → Type 0
Among frame [] = ⊥
Among frame (x ∷ xs) = (x.1 ≡ frame) ⊎ Among frame xs

-- The flags of a data segment, routed or not.
abbrev data_flags : Bool → ℕ
data_flags routed = if routed then bit_or flag_data flag_hdr_route else flag_data

pub record DataFlags (f : ℕ) : Type 0 where
  pub small : f < 2 ^ 8
  pub has_data : has_flag f flag_data ≡ true
  pub no_syn : has_flag f flag_syn ≡ false
  pub no_fin : has_flag f flag_fin ≡ false
  pub no_hello : has_flag f flag_hello ≡ false
  pub no_beat : has_flag f flag_heartbeat ≡ false
  pub no_ack : has_flag f flag_ack ≡ false

data_flags-DataFlags : (routed : Bool) → DataFlags (data_flags routed)
unfolding has_flag
data_flags-DataFlags true = record {
  small = omega arith;
  has_data = refl;
  no_syn = refl;
  no_fin = refl;
  no_hello = refl;
  no_beat = refl;
  no_ack = refl;
}
data_flags-DataFlags false = record {
  small = omega arith;
  has_data = refl;
  no_syn = refl;
  no_fin = refl;
  no_hello = refl;
  no_beat = refl;
  no_ack = refl;
}

pub header-DataFlags :
    (s : DataStream) (wi sid k : ℕ) (payload : List ℕ)
    → DataFlags (data_header s wi sid k payload).flags
unfolding segment_header
header-DataFlags s wi sid k payload = data_flags-DataFlags (not (s.route_outport_id == 0))

pub header-InRange :
    (s : DataStream) (wi sid k : ℕ) (payload : List ℕ)
    → wi < 2 ^ 32
    → sid < 2 ^ 32
    → k < 2 ^ 32
    → s.route_outport_id < 2 ^ 32
    → InRange (data_header s wi sid k payload)
unfolding segment_header
header-InRange s wi sid k payload wi_small sid_small k_small route_small = record {
  flags_lt = (data_flags-DataFlags (not (s.route_outport_id == 0))).small;
  payload_len_lt = omega arith;
  session_id_lt = sid_small;
  seq_num_lt = k_small;
  ingress_id_lt = wi_small;
  outport_id_lt = ground arith;
}

abbrev seq_of : Peek → ℕ
seq_of (found hr hdr) = hdr.seq_num
seq_of _ = 0

module _ (s : DataStream) (wi sid : ℕ) (bytes : List ℕ) (ample : 0 < s.segment_size)
    (fits : s.segment_size ≤ max_payload) (short : length bytes < 2 ^ 32) (wi_small : wi < 2 ^ 32)
    (sid_small : sid < 2 ^ 32) (route_small : s.route_outport_id < 2 ^ 32) where
  -- Segment `k`, as it was handed to the encoder.
  abbrev pub piece : (k : ℕ) → k * s.segment_size < length bytes → Sent
  piece k lt = record {
    header = data_header s wi sid k (chunk s.segment_size bytes k);
    payload = chunk s.segment_size bytes k;
    in_range =
        header-InRange s wi sid k (chunk s.segment_size bytes k) wi_small sid_small
          (omega (arith, le_mul k s.segment_size ample)) route_small;
    fits = omega (arith, length-take s.segment_size (drop (k * s.segment_size) bytes));
  }

  seq-piece :
      (k : ℕ)
      → k * s.segment_size < length bytes
      → seq_of (fgw_segment_peek_header (data_frame s wi sid bytes k ++ [])) ≡ k
  unfolding segment_header
  seq-piece k lt =
      let x = piece k lt in ap seq_of (peek-frame_of x.header x.payload [] x.in_range x.fits)

  -- Frames of different segments differ.
  pub data_frame_inj :
      (j k : ℕ)
      → j * s.segment_size < length bytes
      → k * s.segment_size < length bytes
      → data_frame s wi sid bytes j ≡ data_frame s wi sid bytes k
      → j ≡ k
  data_frame_inj j k hj hk same =
      sym (seq-piece j hj)
      ∙ ap (λ (f : List ℕ). seq_of (fgw_segment_peek_header (f ++ []))) same
      ∙ seq-piece k hk

  -- The header at the other end is that of a data segment of the session.
  pub piece-IsDataOf :
      (k : ℕ) (lt : k * s.segment_size < length bytes)
      → IsDataOf
          (wi, sid)
          k
          (chunk s.segment_size bytes k)
          (wire_header (piece k lt).header (piece k lt).payload)
  unfolding segment_header
  piece-IsDataOf k lt =
      let x = piece k lt in
      let of_flags = data_flags-DataFlags (not (s.route_outport_id == 0)) in
      let kept = wire_flags x.header.flags of_flags.small in
      record {
        of_key = rw kept.extended refl;
        of_seq = refl;
        with_data = kept.data_kept ∙ of_flags.has_data;
        no_syn = kept.syn_kept ∙ of_flags.no_syn;
        no_fin = kept.fin_kept ∙ of_flags.no_fin;
        of_len = refl;
      }

  -- Every frame on the new part of the wire is one of them.
  pub Among-IsPiece :
      (env : Env) (frame : List ℕ) (sent : List (ℕ × List ℕ))
      → All (IsPiece env s (wi, sid) wi bytes ample fits short) sent
      → Among frame sent
      → IsPiece env s (wi, sid) wi bytes ample fits short (0, frame)
  Among-IsPiece env frame [] each none = absurd none
  Among-IsPiece env frame (x ∷ xs) each (inl here) = (each.0.0, each.0.1, sym here ∙ each.0.2)
  Among-IsPiece env frame (x ∷ xs) each (inr there) = Among-IsPiece env frame xs each.1 there
