-- ===== src/Stream/Receive.antt =====
-- src/zfgw_datastream.cpp: onChannelBytes, by the kind of segment.
pub mod Dedup
pub mod Quiet
pub mod Receiving
pub mod InOrder
pub mod Framing
pub mod Frames
pub mod Keeps
pub mod Buffer
use libfgw.Prelude.{
  ℕ, zero, suc, ◌+◌, ◌-◌, ◌%◌, ◌^◌, Bool, true, not, ◌&&◌, List, [], ◌∷◌, ◌++◌, none, some, ltb,
  leb, ◌==◌, if◌then◌else◌, length, take, drop, Map, lookup, insert, emplace, erase, has_key,
  nat_ord, pair_ord,
}
use libfgw.Codes.{proto_version}
use libfgw.Segment.Header.{
  FgwSegmentHeader, is_data, is_hello, is_heartbeat, is_fin, is_syn, is_ack, is_hdr_ext,
}
use libfgw.Segment.Decode.{need_more, bad, found, fgw_segment_peek_header, fgw_segment_verify_crc}
use libfgw.Link.Channel.{set_peer_identity, note_segment_recv}
use libfgw.Link.Pool.{change}
use libfgw.Stream.State.{
  SessionState, fresh_session, DedupKey, dedup_ord, DataStream, Env, FgwHello, session_open,
  session_close, notify,
}
use libfgw.Stream.Deliver.{deliver_in_order}

-- kDedupRing
abbrev pub dedup_ring : ℕ
dedup_ring = 4096

-- A hello of another incarnation of the peer resets the arbiter.
unfoldable pub note_generation : FgwHello → DataStream → DataStream
note_generation hello s =
    if not (hello.generation == 0) && not (hello.generation == s.peer_generation)
    then record s {
      peer_win_count = [];
      peer_part_count = [];
      applied_epoch = 0;
      peer_generation = hello.generation;
    }
    else s

unfoldable pub on_hello : Env → ℕ → List ℕ → DataStream → DataStream
unfolding note_generation
on_hello env ch payload s = elim (env.unpack_hello payload) [
  | none ↦ s
  | some hello ↦
      let identified = record s {
        links =
            change ch (set_peer_identity hello.channel_id hello.ingress_id hello.outport_id)
              s.links;
      } in
      if hello.proto_version == proto_version then note_generation hello identified else s
]

unfoldable pub on_ack : Env → List ℕ → DataStream → DataStream
on_ack env payload s = elim (env.unpack_feedback payload) [
  | none ↦ s
  | some fb ↦
      let applied = record s { applied_epoch = fb.decision_epoch } in
      let switched = record applied {
        links = record (s.links) {
          selector = record (s.links.selector) { primary_channel_id = fb.recommended_primary };
        };
      } in
      if ltb s.applied_epoch fb.decision_epoch
      then (if fb.recommended_primary == 0 then applied else switched)
      else s
]

unfoldable pub dedup_key : FgwSegmentHeader → DedupKey
dedup_key hdr = record {
  ingress = if is_hdr_ext hdr then hdr.ingress_id else 0;
  session = hdr.session_id;
  seq = hdr.seq_num;
  kind = if is_syn hdr then 1 else if is_fin hdr then 2 else 0;
}

abbrev pub session_key : FgwSegmentHeader → ℕ × ℕ
session_key hdr = (if is_hdr_ext hdr then hdr.ingress_id else 0, hdr.session_id)

-- ++m[id]
unfoldable pub bump : ℕ → Map ℕ ℕ → Map ℕ ℕ
bump id m = elim (lookup id m) [ none ↦ insert id 1 m | some n ↦ insert id ((n + 1) % 2 ^ 32) m ]

-- A copy that came late: the channel raced and lost.
unfoldable pub note_loss : ℕ → DataStream → DataStream
unfolding bump
note_loss ch s =
    let pc = (s.links.objects ch).peer_channel_id in
    if pc == 0 then s else record s { peer_part_count = bump pc s.peer_part_count }

unfoldable pub note_win : ℕ → DataStream → DataStream
unfolding bump
note_win ch s =
    let pc = (s.links.objects ch).peer_channel_id in
    if pc == 0 then s else record s {
      peer_win_count = bump pc s.peer_win_count;
      peer_part_count = bump pc s.peer_part_count;
    }

-- The sequence number that the window guard starts from.
unfoldable pub expected_of : ℕ × ℕ → Map (ℕ × ℕ) SessionState → ℕ
expected_of key sessions = elim (lookup key sessions) [ none ↦ 0 | some st ↦ st.expected_rx_seq ]

-- hdr.isData() && hdr.payload_len > 0
unfoldable pub carries_data : FgwSegmentHeader → Bool
carries_data hdr = is_data hdr && ltb 0 hdr.payload_len

-- The receive-window guard: (seq - expected) >= recv_window in uint32.
unfoldable pub outside_window : DataStream → FgwSegmentHeader → Bool
unfolding expected_of carries_data
outside_window s hdr =
    carries_data hdr
    && leb s.recv_window
        ((hdr.seq_num + 2 ^ 32 - expected_of (session_key hdr) s.sessions) % 2 ^ 32)

-- dedup_map_.erase(dedup_queue_.front()); dedup_queue_.pop_front();
unfoldable pub evict : List DedupKey → Map DedupKey Bool → List DedupKey × Map DedupKey Bool
evict [] seen = ([], seen)
evict (oldest ∷ rest) seen = (rest, erase oldest seen)

-- Records a key, and forgets the oldest one past the ring's size.
unfoldable pub record_key : DedupKey → DataStream → DataStream
unfolding evict
record_key dk s =
    let queue = s.dedup_queue ++ dk ∷ [] in
    let seen = insert dk true s.dedup_map in
    let (kept, known) = if ltb dedup_ring (length queue) then evict queue seen else (queue, seen) in
    record s { dedup_queue = kept; dedup_map = known }

-- The entry of the session, made if it is not there.
unfoldable pub ensure_session : Env → FgwSegmentHeader → DataStream → SessionState × DataStream
ensure_session env hdr s =
    let key = session_key hdr in
    let made : SessionState = record fresh_session {
      session_id = hdr.session_id;
      wire_ingress_id = key.0;
      handler = elim env.unknown_cb [ none ↦ none | some cb ↦ cb key.0 hdr.session_id ];
    } in
    elim (lookup key s.sessions) [
      | none ↦ (made, record s { sessions = insert key made s.sessions })
      | some st ↦ (st, s)
    ]

unfoldable pub on_syn : Env → FgwSegmentHeader → DataStream → DataStream
unfolding ensure_session notify
on_syn env hdr s =
    let (st, s') = ensure_session env hdr s in
    elim st.handler [ none ↦ s' | some h ↦ notify env (session_open h hdr.session_id) s' ]

unfoldable pub on_fin : Env → FgwSegmentHeader → DataStream → DataStream
unfolding notify
on_fin env hdr s =
    let drop_session =
      λ (t : DataStream). record t { sessions = erase (session_key hdr) t.sessions } in
    elim (lookup (session_key hdr) s.sessions) [
      | none ↦ s
      | some st ↦ elim st.handler [
        | none ↦ drop_session s
        | some h ↦ drop_session (notify env (session_close h hdr.session_id) s)
      ]
    ]

unfoldable pub on_data : Env → FgwSegmentHeader → List ℕ → DataStream → DataStream
unfolding ensure_session deliver_in_order
on_data env hdr payload s =
    let (st, s') = ensure_session env hdr s in
    let room = length (env.acquire hdr.payload_len) in
    let st' =
      if ltb room hdr.payload_len
      then st
      else record st { rx_buffer = emplace hdr.seq_num payload st.rx_buffer } in
    deliver_in_order env (session_key hdr) st'
      (record s' { sessions = insert (session_key hdr) st' s'.sessions })

-- A session segment that is new and inside the window. FIN ends the turn.
unfoldable pub accept_segment : Env → FgwSegmentHeader → List ℕ → DataStream → DataStream
unfolding on_syn on_fin on_data carries_data
accept_segment env hdr payload s =
    let s1 = if is_syn hdr then on_syn env hdr s else s in
    if is_fin hdr
    then on_fin env hdr s1
    else if carries_data hdr
    then on_data env hdr payload s1
    else s1

unfoldable pub on_segment : Env → ℕ → FgwSegmentHeader → List ℕ → DataStream → DataStream
unfolding dedup_key note_loss outside_window record_key note_win accept_segment
on_segment env ch hdr payload s =
    if has_key (dedup_key hdr) s.dedup_map
    then note_loss ch s
    else if outside_window s hdr
    then s
    else accept_segment env hdr payload (note_win ch (record_key (dedup_key hdr) s))

-- A whole frame of `hr` header bytes.
unfoldable pub on_frame : Env → ℕ → ℕ → FgwSegmentHeader → List ℕ → DataStream → DataStream
unfolding on_hello on_ack on_segment
on_frame env ch hr hdr frame s =
    let payload = drop hr frame in
    let noted = record s { links = change ch note_segment_recv s.links } in
    if s.verify_crc && not (fgw_segment_verify_crc frame hdr hr)
    then s
    else if is_hello hdr
    then on_hello env ch payload noted
    else if is_heartbeat hdr
    then noted
    else if is_ack hdr
    then on_ack env payload noted
    else on_segment env ch hdr payload noted

-- The loop over the buffered bytes, with their number as fuel: the state and the bytes left over.
unfoldable pub consume : ℕ → Env → ℕ → List ℕ → DataStream → DataStream × List ℕ
unfolding on_frame
consume zero env ch bytes s = (s, bytes)
consume (suc fuel) env ch bytes s = elim (fgw_segment_peek_header bytes) [
  | need_more ↦ (s, bytes)
  | bad ↦ (s, [])
  | found hr hdr ↦
      let total = hr + hdr.payload_len in
      let next =
        consume fuel env ch (drop total bytes) (on_frame env ch hr hdr (take total bytes) s) in
      if ltb (length bytes) total then (s, bytes) else next
]

unfoldable pub on_channel_bytes : Env → ℕ → List ℕ → DataStream → DataStream
unfolding consume
on_channel_bytes env ch arrived s =
    let held : List ℕ = elim (lookup ch s.scratch) [ none ↦ [] | some bytes ↦ bytes ] in
    let bytes = held ++ arrived in
    let (s', left) = consume (length bytes) env ch bytes s in
    record s' { scratch = insert ch left s'.scratch }
