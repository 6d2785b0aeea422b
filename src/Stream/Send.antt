-- ===== src/Stream/Send.antt =====
-- src/zfgw_datastream.cpp: the constructor, openSession, closeSession, sendSessionData and
-- sendSegment.
pub mod Wire
pub mod Chunks
pub mod Pieces
use libfgw.Prelude.{
  ℕ, zero, suc, ◌+◌, ◌%◌, ◌^◌, bit_or, Bool, true, not, ◌||◌, List, [], ◌∷◌, ◌++◌, map, Option,
  none, some, ltb, ◌==◌, if◌then◌else◌, length, take, drop, min, lookup, insert, erase, has_key,
  nat_ord, pair_ord,
}
use libfgw.Codes.{Result, ok, err, pos, busy, no_channel, memory, wire_ingress_use_local}
use libfgw.Segment.Header.{
  FgwSegmentHeader, default_header, max_payload, header_size, routed_header_size, flag_syn,
  flag_fin, flag_data, flag_hdr_route,
}
use libfgw.Segment.Encode.{fgw_segment_encode}
use libfgw.Link.Channel.{send_bytes}
use libfgw.Link.Selector.{select}
use libfgw.Link.Pool.{Links, change, live_channels, find_live}
use libfgw.Stream.State.{SessionState, fresh_session, DataStream, Env}

-- DataStream::DataStream: sizes of 0 or too large get a default.
unfoldable pub data_stream : Links → ℕ → ℕ → ℕ → Bool → ℕ → DataStream
data_stream links local_ingress_id segment_size recv_window verify_crc route_outport_id = record {
  local_ingress_id = local_ingress_id;
  segment_size = if segment_size == 0 || ltb max_payload segment_size then 1200 else segment_size;
  recv_window = if recv_window == 0 then 1024 else recv_window;
  verify_crc = verify_crc;
  route_outport_id = route_outport_id;
  sessions = [];
  scratch = [];
  dedup_queue = [];
  dedup_map = [];
  peer_win_count = [];
  peer_part_count = [];
  feedback_epoch = 0;
  applied_epoch = 0;
  peer_generation = 0;
  links = links;
  wire = [];
  calls = [];
}

-- One sendBytes on the channel object at `p`, with its effect on the channel and the wire.
unfoldable pub send_on : Env → ℕ → List ℕ → DataStream → Result ℕ × DataStream
unfolding send_bytes
send_on env p frame s =
    let (r, called, ch') =
      send_bytes (length (env.acquire (length frame))) (env.tcp_write s.wire p frame) (length frame)
        (s.links.objects p) in
    (
      r,
      record s {
        links = change p (λ _. ch') s.links;
        wire = if called then s.wire ++ (p, frame) ∷ [] else s.wire;
      },
    )

-- One turn of the loop over the selected ids: an id that is not live is passed over.
unfoldable pub send_to_id : Env → List ℕ → List ℕ → ℕ → DataStream → Result ℕ × DataStream
unfolding send_on
send_to_id env live frame id s = elim (find_live s.links.objects id live) [
  | none ↦ (ok 0, s)
  | some p ↦ send_on env p frame s
]

unfoldable pub send_rest : Env → List ℕ → List ℕ → List ℕ → DataStream → DataStream
unfolding send_to_id
send_rest env live frame [] s = s
send_rest env live frame (id ∷ ids) s =
    send_rest env live frame ids (send_to_id env live frame id s).1

-- `best > 0 ? best : payload_len`, where `best` is what the first channel took.
unfoldable pub best_or : Result ℕ → ℕ → ℕ
best_or (ok n) payload_len = if n == 0 then payload_len else n
best_or (err e) payload_len = payload_len

unfoldable pub send_to_all : Env → List ℕ → List ℕ → List ℕ → ℕ → DataStream → Result ℕ × DataStream
unfolding send_to_id send_rest best_or
send_to_all env live frame [] payload_len s = (err no_channel, s)
send_to_all env live frame (id ∷ ids) payload_len s =
    let (r, s') = send_to_id env live frame id s in
    (ok (best_or r payload_len), send_rest env live frame ids s')

-- The header that sendSegment fills in.
unfoldable pub segment_header : DataStream → ℕ → ℕ → ℕ → ℕ → ℕ → FgwSegmentHeader
segment_header s wire_ingress session_id seq flags payload_len =
    let routed = not (s.route_outport_id == 0) in
    record default_header {
      flags = if routed then bit_or flags flag_hdr_route else flags;
      payload_len = payload_len % 2 ^ 16;
      session_id = session_id;
      seq_num = seq;
      ingress_id = wire_ingress;
      outport_id = if routed then s.route_outport_id else 0;
    }

unfoldable pub dispatch : Env → List ℕ → ℕ → DataStream → Result ℕ × DataStream
unfolding send_to_all
dispatch env frame payload_len s =
    let live = live_channels s.links in
    let (ids, sel) = select env.fpu env.sort s.links.selector (map s.links.objects live) in
    send_to_all env live frame ids payload_len
      (record s { links = record (s.links) { selector = sel } })

-- A null payload comes with length 0.
unfoldable pub send_segment :
    Env → ℕ → ℕ → ℕ → ℕ → Option (List ℕ) → ℕ → DataStream → Result ℕ × DataStream
unfolding segment_header dispatch
send_segment env wire_ingress session_id seq flags payload payload_len s =
    let hdr = segment_header s wire_ingress session_id seq flags payload_len in
    let hdr_sz = if s.route_outport_id == 0 then header_size else routed_header_size in
    let total = hdr_sz + payload_len in
    let block = env.acquire total in
    let sent : Result ℕ × DataStream =
      elim (fgw_segment_encode (some block) hdr payload (pos payload_len)) [
        | err e ↦ (err e, s)
        | ok (wrote, bytes) ↦ dispatch env (take wrote bytes) payload_len s
      ] in
    if ltb (length block) total then (err memory, s) else sent

unfoldable pub open_session : Env → ℕ → Option ℕ → DataStream → Result ℕ × DataStream
unfolding send_segment
open_session env session_id handler s =
    let key : ℕ × ℕ = (s.local_ingress_id, session_id) in
    let st : SessionState = record fresh_session {
      session_id = session_id;
      wire_ingress_id = s.local_ingress_id;
      handler = handler;
      opened = true;
    } in
    let s1 = record s { sessions = insert key st s.sessions } in
    if has_key key s.sessions
    then (err busy, s)
    else (ok 0, (send_segment env s.local_ingress_id session_id 0 flag_syn none 0 s1).1)

unfoldable pub resolve_ingress_key : DataStream → ℕ → ℕ
resolve_ingress_key s key_arg =
    if key_arg == wire_ingress_use_local then s.local_ingress_id else key_arg

-- next_send_seq++
unfoldable pub take_seq : SessionState → SessionState
take_seq st = record st { next_send_seq = (st.next_send_seq + 1) % 2 ^ 32 }

unfoldable pub close_session : Env → ℕ → ℕ → DataStream → DataStream
unfolding resolve_ingress_key send_segment take_seq
close_session env session_id ingress_key s =
    let key : ℕ × ℕ = (resolve_ingress_key s ingress_key, session_id) in
    elim (lookup key s.sessions) [
      | none ↦ s
      | some st ↦
          let st' = take_seq st in
          let s1 = record s { sessions = insert key st' s.sessions } in
          let s2 =
            (send_segment env st.wire_ingress_id session_id st.next_send_seq flag_fin none 0
              s1).1 in
          let s3 = if st.closed then s else s2 in record s3 { sessions = erase key s3.sessions }
    ]

-- The chunks of the loop: at most `size` bytes each, with the payload's length as fuel.
unfoldable pub send_chunks :
    ℕ → Env → ℕ × ℕ → SessionState → List ℕ → ℕ → DataStream → Result ℕ × DataStream
unfolding send_segment take_seq
send_chunks zero env key st rest written s = (ok written, s)
send_chunks (suc fuel) env key st rest written s =
    let chunk = min (length rest) s.segment_size in
    let st' = take_seq st in
    let s1 = record s { sessions = insert key st' s.sessions } in
    let (r, s2) =
      send_segment env st.wire_ingress_id key.1 st.next_send_seq flag_data (some (take chunk rest))
        chunk s1 in
    let more = send_chunks fuel env key st' (drop chunk rest) (written + chunk) s2 in
    let turn : Result ℕ × DataStream = elim r [ err e ↦ (err e, s2) | ok n ↦ more ] in
    if length rest == 0 then (ok written, s) else turn

unfoldable pub send_session_data : Env → ℕ → List ℕ → ℕ → DataStream → Result ℕ × DataStream
unfolding resolve_ingress_key send_chunks
send_session_data env session_id bytes ingress_key s =
    let key : ℕ × ℕ = (resolve_ingress_key s ingress_key, session_id) in
    elim (lookup key s.sessions) [
      | none ↦ (err no_channel, s)
      | some st ↦
          if st.closed then (err no_channel, s) else send_chunks (length bytes) env key st bytes 0 s
    ]
