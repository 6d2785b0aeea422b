-- ===== src/Stream/Tests.antt =====
-- Runs of the receiver, and the theorems on it at concrete states.
use libfgw.Prelude.{
  ℕ, ◌+◌, ◌≤◌, ◌<◌, ◌≡◌, refl, true, List, [], ◌∷◌, ◌++◌, some, none, ltb, ◌==◌, length, replicate,
  lookup, has_key, pair_ord, arith,
}
use libfgw.Codes.{pos}
use libfgw.Segment.Header.{FgwSegmentHeader, default_header, has_flag}
use libfgw.Link.Fpu.{Fpu}
use libfgw.Link.Channel.{new_channel, tcp}
use libfgw.Link.Selector.{fresh_selector}
use libfgw.Link.Pool.{Links}
use libfgw.Segment.Decode.{fgw_segment_peek_header}
use libfgw.Stream.State.{DedupKey, dedup_ord, SessionState, fresh_session, DataStream, Env}
use libfgw.Stream.Send.{data_stream}
use libfgw.Stream.Deliver.Order.{segments}
use libfgw.Stream.Receive.{consume, record_key}
use libfgw.Stream.Receive.Quiet.{Quiet, delivered}
use libfgw.Stream.Receive.Receiving.{Transfer, IsDataOf}
use libfgw.Stream.Receive.InOrder.{Arrival, Starts, receive, in_order_delivery}
use libfgw.Stream.Receive.Framing.{consume-fuel, well_framed, consume_chunks}
use libfgw.Stream.Receive.Frames.{Sent, wire_bytes, handle_each, consume_frames}
use libfgw.Stream.Receive.Dedup.{DedupAgrees, contains, record_key-DedupAgrees}

-- A stand-in for double arithmetic on numbers.
abbrev pub test_fpu : Fpu
test_fpu = record {
  of_uint = λ n. n;
  hundredths = λ n. n;
  add = λ a b. a + b;
  mul = λ a b. a;
  div = λ a b. a;
  lt = λ a b. ltb a b;
  eq = λ a b. a == b;
  minus_one = 0;
}

abbrev pub test_env : Env
test_env = record {
  fpu = test_fpu;
  sort = λ before xs. xs;
  acquire = λ n. replicate n 0;
  tcp_write = λ written p frame. pos (length frame);
  pack_feedback = λ fb. none;
  unpack_feedback = λ bytes. none;
  unpack_hello = λ bytes. none;
  unknown_cb = none;
  react = λ ev s. s;
}

abbrev pub test_links : Links
test_links = record {
  objects = λ p. new_channel p tcp 100;
  channels = [];
  selector = fresh_selector;
}

abbrev pub test_session : SessionState
test_session = record fresh_session { session_id = 5; wire_ingress_id = 1; handler = some 7 }

abbrev pub test_stream : DataStream
test_stream = record (data_stream test_links 0 1200 4 true 0) {
  sessions = ((1, 5), test_session) ∷ [];
}

pub test_env-Quiet : Quiet test_env (1, 5)
test_env-Quiet = record {
  keeps_session = λ ev s st found. (
    st,
    found,
    record { same_id = refl; same_expected = refl; same_buffer = refl; same_handler = refl },
  );
  keeps_calls = λ ev s. refl;
  keeps_dedup = λ ev s. refl;
  keeps_window = λ ev s. refl;
}

abbrev test_transfer : Transfer
test_transfer = record {
  env = test_env;
  key = (1, 5);
  p = λ k. k ∷ [];
  n = 2;
  w = 4;
  h = 7;
  sid = 5;
  quiet = test_env-Quiet;
  full = λ k. omega arith;
  in_window = omega arith;
  small = omega arith;
  room = λ k. omega arith;
}

abbrev data_header : ℕ → FgwSegmentHeader
data_header k = record default_header {
  flags = 0x84;
  payload_len = 1;
  session_id = 5;
  seq_num = k;
  ingress_id = 1;
}

data_header-IsDataOf : (k : ℕ) → IsDataOf (1, 5) k (k ∷ []) (data_header k)
data_header-IsDataOf k = record {
  of_key = unfold has_flag in refl;
  of_seq = refl;
  with_data = unfold has_flag in refl;
  no_syn = unfold has_flag in refl;
  no_fin = unfold has_flag in refl;
  of_len = refl;
}

abbrev arrival : (ch k : ℕ) → k < 2 → Arrival test_transfer
arrival ch k below = record {
  channel = ch;
  seq = k;
  hdr = data_header k;
  below = below;
  is_data_of = data_header-IsDataOf k;
}

abbrev arrivals : List (Arrival test_transfer)
arrivals = arrival 2 1 (omega arith) ∷ arrival 1 0 (omega arith) ∷ arrival 1 1 (omega arith) ∷ []

test_stream-Starts : Starts test_transfer test_stream
test_stream-Starts = record {
  st = test_session;
  found_at = unfold lookup data_stream in refl;
  handled = refl;
  id_is = refl;
  from_zero = refl;
  empty = refl;
  window_is = unfold data_stream in refl;
  unseen = λ k. unfold has_key data_stream in refl;
  silent = unfold delivered data_stream in refl;
}

in_order_delivery_example :
    (e : ℕ) × (2 ≤ e)
    × (e ≤ 2)
    × (delivered 7 5 (receive test_transfer arrivals test_stream).calls
        ≡ segments (λ k. k ∷ []) 0 e)
in_order_delivery_example =
    in_order_delivery test_transfer 2 arrivals test_stream (omega arith) test_stream-Starts
      (λ k lt. ground arith)

-- A frame cut in two, and one whole.
abbrev test_sent : Sent
test_sent = record {
  header = data_header 0;
  payload = 0 ∷ [];
  in_range = record {
    flags_lt = omega arith;
    payload_len_lt = omega arith;
    session_id_lt = omega arith;
    seq_num_lt = omega arith;
    ingress_id_lt = omega arith;
    outport_id_lt = omega arith;
  };
  fits = omega arith;
}

consume_frames_example :
    consume
      (length (wire_bytes (test_sent ∷ test_sent ∷ [])))
      test_env
      2
      (wire_bytes (test_sent ∷ test_sent ∷ []))
      test_stream
    ≡ (handle_each test_env 2 (test_sent ∷ test_sent ∷ []) test_stream, [])
consume_frames_example = consume_frames test_env 2 (test_sent ∷ test_sent ∷ []) test_stream

-- A heartbeat of 16 bytes, and the first five bytes of another.
abbrev heartbeat : List ℕ
heartbeat = 0xF6 ∷ 0x10 ∷ replicate 14 0

abbrev cut : List ℕ
cut = heartbeat ++ 0xF6 ∷ 0x10 ∷ 0 ∷ 0 ∷ 0 ∷ []

consume_chunks_example :
    let (s1, left) = consume (length cut) test_env 2 cut test_stream in
    consume (length (left ++ replicate 11 0)) test_env 2 (left ++ replicate 11 0) s1
    ≡ consume (length (cut ++ replicate 11 0)) test_env 2 (cut ++ replicate 11 0) test_stream
consume_chunks_example =
    consume_chunks test_env 2 cut (replicate 11 0) test_stream
      (unfold well_framed fgw_segment_peek_header has_flag in refl)

consume-fuel_example :
    consume 100 test_env 2 cut test_stream ≡ consume (length cut) test_env 2 cut test_stream
consume-fuel_example =
    consume-fuel test_env 2 100 (length cut) cut test_stream (omega arith) (omega arith)

abbrev test_key : ℕ → DedupKey
test_key seq = record { ingress = 1; session = 5; seq = seq; kind = 0 }

abbrev seen_stream : DataStream
seen_stream = record test_stream {
  dedup_queue = test_key 0 ∷ [];
  dedup_map = (test_key 0, true) ∷ [];
}

seen_stream-DedupAgrees : DedupAgrees seen_stream
seen_stream-DedupAgrees = record {
  bounded = omega arith;
  distinct = unfold contains in (refl, tt);
  agree = λ k. unfold has_key contains in ground arith;
}

record_key-DedupAgrees_example : DedupAgrees (record_key (test_key 3) seen_stream)
record_key-DedupAgrees_example =
    record_key-DedupAgrees (test_key 3) seen_stream (unfold has_key in refl) seen_stream-DedupAgrees
