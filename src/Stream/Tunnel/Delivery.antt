-- ===== src/Stream/Tunnel/Delivery.antt =====
-- src/zfgw_datastream.cpp: the bytes that one end sends are those that the handler at the other end is
-- given.
use libfgw.Prelude.{
  ℕ, ◌*◌, ◌^◌, ◌<◌, ◌≤◌, ◌≡◌, inl, inr, refl, sym, ap, subst, ◌∙◌, List, [], ◌∷◌, ltb, lt→ltb,
  ltb→lt, if◌then◌else◌, if_cases, length, concat, All, pair_ord, nat_ord, arith,
}
use libfgw.Segment.Header.{max_payload}
use libfgw.Segment.RoundTrip.{wire_header}
use libfgw.Link.Channel.{note_segment_recv}
use libfgw.Link.Pool.{change}
use libfgw.Stream.State.{DataStream, Env, Event}
use libfgw.Stream.Send.Chunks.{chunk, data_frame, IsPiece}
use libfgw.Stream.Send.Pieces.{
  pieces, pieces-below, pieces-enough, below-pieces, chunk-full, concat-pieces,
}
use libfgw.Stream.Deliver.Order.{segments}
use libfgw.Stream.Receive.Buffer.{settle, Clear, on_channel_bytes_lem, Clear-settle, consume-Clear}
use libfgw.Stream.Receive.{consume, on_channel_bytes, on_segment}
use libfgw.Stream.Receive.Quiet.{Quiet, delivered}
use libfgw.Stream.Receive.Frames.{Sent, consume_one, on_frame_session}
use libfgw.Stream.Receive.Receiving.{Transfer, Receiving, Took, Got, IsDataOf, same-Receiving}
use libfgw.Stream.Receive.InOrder.{Starts, Starts-Receiving, step-Took, all_taken}
use libfgw.Stream.Tunnel.{
  receive_frames, Among, piece, DataFlags, header-DataFlags, data_frame_inj, piece-IsDataOf,
}

-- A transfer of the bytes in segments of `size`, as the receiver sees it.
abbrev pub piece_or : ℕ → List ℕ → ℕ → List ℕ
piece_or size bytes k =
    if ltb k (pieces (length bytes) size (length bytes)) then chunk size bytes k else 0 ∷ []

piece_or-chunk :
    (size : ℕ) (bytes : List ℕ) (k : ℕ)
    → k < pieces (length bytes) size (length bytes)
    → piece_or size bytes k ≡ chunk size bytes k
piece_or-chunk size bytes k h = rw (lt→ltb k _ h) refl

pub piece_or-full :
    (size : ℕ) (bytes : List ℕ) (k : ℕ) → 0 < size → 0 < length (piece_or size bytes k)
piece_or-full size bytes k ample =
    if_cases (λ (p : List ℕ). 0 < length p) (ltb k (pieces (length bytes) size (length bytes))) _ _
      (λ inside.
        chunk-full size bytes k ample
          (pieces-below (length bytes) size (length bytes) k (ltb→lt k _ inside)))
      (λ outside. omega arith)

module _ (s : DataStream) (wi sid : ℕ) (bytes : List ℕ) (ample : 0 < s.segment_size)
    (fits : s.segment_size ≤ max_payload) (short : length bytes < 2 ^ 32) (wi_small : wi < 2 ^ 32)
    (sid_small : sid < 2 ^ 32) (route_small : s.route_outport_id < 2 ^ 32) (peer : Env) (h w : ℕ)
    (quiet : Quiet peer (wi, sid))
    (in_window : pieces (length bytes) s.segment_size (length bytes) ≤ w) (small : w < 2 ^ 16)
    (room : (n : ℕ) → n ≤ length (peer.acquire n)) where
  abbrev pub transfer : Transfer
  transfer = record {
    env = peer;
    key = (wi, sid);
    p = piece_or s.segment_size bytes;
    n = pieces (length bytes) s.segment_size (length bytes);
    w = w;
    h = h;
    sid = sid;
    quiet = quiet;
    full = λ k. piece_or-full s.segment_size bytes k ample;
    in_window = in_window;
    small = small;
    room = λ k. room (length (piece_or s.segment_size bytes k));
  }

  -- What the frame of a segment does to the receiver.
  frame-Took :
      (k ch : ℕ) (t : DataStream) (r : Receiving transfer t)
      → k * s.segment_size < length bytes
      → k < pieces (length bytes) s.segment_size (length bytes)
      → Took transfer k t
          (consume (length (data_frame s wi sid bytes k)) peer ch (data_frame s wi sid bytes k) t).0
          r
  frame-Took k ch t r lt below =
      subst (λ (u : DataStream). Took transfer k t u r)
        (sym (
          ap (λ (x : DataStream × List ℕ). x.0) (consume_one peer ch x t)
          ∙ on_frame_session peer ch x t of_flags.no_hello of_flags.no_beat of_flags.no_ack))
        (record { after = done.after; took = done.took; keeps = done.keeps })
    where
      x : Sent
      x = piece s wi sid bytes ample fits short wi_small sid_small route_small k lt

      of_flags : DataFlags x.header.flags
      of_flags = header-DataFlags s wi sid k (chunk s.segment_size bytes k)

      noted : DataStream
      noted = record t { links = change ch note_segment_recv t.links }

      done :
          Took transfer k noted
            (on_segment peer ch (wire_header x.header x.payload) x.payload noted)
            (same-Receiving transfer t noted r refl refl refl r.seen)
      done =
          subst
            (λ (p : List ℕ).
              Took transfer k noted (on_segment peer ch (wire_header x.header x.payload) p noted)
                (same-Receiving transfer t noted r refl refl refl r.seen))
            (piece_or-chunk s.segment_size bytes k below)
            (step-Took transfer k ch (wire_header x.header x.payload) noted
              (same-Receiving transfer t noted r refl refl refl r.seen)
              (subst (λ (p : List ℕ). IsDataOf (wi, sid) k p (wire_header x.header x.payload))
                (sym (piece_or-chunk s.segment_size bytes k below))
                (piece-IsDataOf s wi sid bytes ample fits short wi_small sid_small route_small k
                  lt))
              below)

  -- The buffer is not among what the session reads.
  settle-Took :
      (k ch : ℕ) (t u : DataStream) (r : Receiving transfer t)
      → Took transfer k t u r
      → Took transfer k t (settle ch (u, [])) r
  settle-Took k ch t u r done = record {
    after = same-Receiving transfer u (settle ch (u, [])) done.after refl refl refl done.after.seen;
    took = done.took;
    keeps = done.keeps;
  }

  -- Of the frame of a segment no bytes are left over.
  arrives :
      (k ch : ℕ) (t : DataStream)
      → k * s.segment_size < length bytes
      → Clear t
      → on_channel_bytes peer ch (data_frame s wi sid bytes k) t
        ≡ settle ch (
          (consume
              (length (data_frame s wi sid bytes k))
              peer
              ch
              (data_frame s wi sid bytes k)
              t).0,
          [],
        )
  arrives k ch t lt clear =
      on_channel_bytes_lem peer ch (data_frame s wi sid bytes k) t (clear ch)
      ∙ ap
          (λ (left : List ℕ). settle ch (
            (consume (length (data_frame s wi sid bytes k)) peer ch (data_frame s wi sid bytes k)
                t).0,
            left,
          ))
          (ap (λ (x : DataStream × List ℕ). x.1)
            (consume_one peer ch
              (piece s wi sid bytes ample fits short wi_small sid_small route_small k lt) t))

  arrived-Took :
      (k ch : ℕ) (t : DataStream) (r : Receiving transfer t)
      → k * s.segment_size < length bytes
      → k < pieces (length bytes) s.segment_size (length bytes)
      → Clear t
      → Took transfer k t (on_channel_bytes peer ch (data_frame s wi sid bytes k) t) r
  arrived-Took k ch t r lt below clear =
      subst (λ (u : DataStream). Took transfer k t u r) (sym (arrives k ch t lt clear))
        (settle-Took k ch t _ r (frame-Took k ch t r lt below))

  arrived-Clear :
      (k ch : ℕ) (t : DataStream)
      → ((ev : Event) (u : DataStream) → (peer.react ev u).scratch ≡ u.scratch)
      → k * s.segment_size < length bytes
      → Clear t
      → Clear (on_channel_bytes peer ch (data_frame s wi sid bytes k) t)
  arrived-Clear k ch t apart lt clear =
      subst Clear (sym (arrives k ch t lt clear))
        (Clear-settle ch _ (consume-Clear peer ch (data_frame s wi sid bytes k) t apart clear))

  abbrev pub count_pieces : ℕ
  count_pieces = pieces (length bytes) s.segment_size (length bytes)

  frames-Got :
      (env : Env) (ys : List (ℕ × List ℕ)) (t : DataStream) (r : Receiving transfer t)
      → All (λ y. IsPiece env s (wi, sid) wi bytes ample fits short (0, y.1)) ys
      → ((ev : Event) (u : DataStream) → (peer.react ev u).scratch ≡ u.scratch)
      → Clear t
      → (r' : Receiving transfer (receive_frames peer ys t)) × ((j : ℕ) → Got j r.st → Got j r'.st)
        × ((j : ℕ) → j < count_pieces → Among (data_frame s wi sid bytes j) ys → Got j r'.st)
  unfolding receive_frames
  frames-Got env [] t r each apart clear = (r, λ j x. x, λ j lt none. absurd none)
  frames-Got env ((ch, frame) ∷ ys) t r ((k, lt, is), each) apart clear =
      let one = read in
      let rest = frames-Got env ys (on_channel_bytes peer ch frame t) one.after each apart still in
      (
        rest.0,
        λ j x. rest.1 j (one.keeps j x),
        λ j below among. elim among [
          | inl same ↦ rest.1 j (subst (λ (i : ℕ). Got i one.after.st) (this j below same) one.took)
          | inr later ↦ rest.2 j below later
        ],
      )
    where
      read : Took transfer k t (on_channel_bytes peer ch frame t) r
      read =
          subst (λ (f : List ℕ). Took transfer k t (on_channel_bytes peer ch f t) r) (sym is)
            (arrived-Took k ch t r lt
              (below-pieces (length bytes) s.segment_size (length bytes) k ample (omega arith) lt)
              clear)

      still : Clear (on_channel_bytes peer ch frame t)
      still =
          subst (λ (f : List ℕ). Clear (on_channel_bytes peer ch f t)) (sym is)
            (arrived-Clear k ch t apart lt clear)

      this : (j : ℕ) → j < count_pieces → frame ≡ data_frame s wi sid bytes j → k ≡ j
      this j below same =
          data_frame_inj s wi sid bytes ample fits short wi_small sid_small route_small k j lt
            (pieces-below (length bytes) s.segment_size (length bytes) j below) (sym is ∙ same)

  -- Whole frames of the segments, each number among them.
  pub frames-delivered :
      (env : Env) (ys : List (ℕ × List ℕ)) (t : DataStream)
      → Starts transfer t
      → All (λ y. IsPiece env s (wi, sid) wi bytes ample fits short (0, y.1)) ys
      → ((k : ℕ) → k < count_pieces → Among (data_frame s wi sid bytes k) ys)
      → ((ev : Event) (u : DataStream) → (peer.react ev u).scratch ≡ u.scratch)
      → Clear t
      → concat (delivered h sid (receive_frames peer ys t).calls) ≡ bytes
  frames-delivered env ys t start each all apart clear =
      let done = frames-Got env ys t (Starts-Receiving transfer t start) each apart clear in
      let r : Receiving transfer (receive_frames peer ys t) = done.0 in
      let past : count_pieces ≤ r.st.expected_rx_seq =
        all_taken transfer count_pieces (receive_frames peer ys t) r
          (λ k below. done.2 k below (all k below)) in
      let whole : r.st.expected_rx_seq ≡ count_pieces = omega (arith, r.up_to) in
      ap concat (r.logged ∙ ap (segments (piece_or s.segment_size bytes) 0) whole)
      ∙ concat-pieces s.segment_size bytes (piece_or s.segment_size bytes) count_pieces
          (λ k below. piece_or-chunk s.segment_size bytes k below)
          (pieces-enough (length bytes) s.segment_size (length bytes) ample (omega arith))
