-- ===== src/Stream/Receive/Frames.antt =====
-- What fgwSegmentEncode wrote on the far side, as the receive loop of onChannelBytes takes it.
use libfgw.Prelude.{
  ℕ, suc, ◌+◌, ◌≤◌, ◌≡◌, refl, sym, subst, ◌∙◌, Bool, true, false, ◌&&◌, List, [], ◌∷◌, ◌++◌,
  append-nil, ltb, length, length-drop, take, drop, take-append, drop-append, take-length,
  length-append, arith,
}
use libfgw.Segment.Header.{
  FgwSegmentHeader, InRange, max_payload, has_flag, flag_hello, flag_heartbeat, flag_ack,
}
use libfgw.Segment.Encode.{wire_header_size}
use libfgw.Segment.Decode.{fgw_segment_verify_crc}
use libfgw.Segment.Flags.{wire_flags}
use libfgw.Segment.RoundTrip.{
  frame_of, wire_header, length-frame_of, peek-frame_of, verify-frame_of, payload_of_frame,
}
use libfgw.Link.Channel.{note_segment_recv}
use libfgw.Link.Pool.{change}
use libfgw.Stream.State.{DataStream, Env}
use libfgw.Stream.Receive.{consume, on_frame, on_segment, on_hello}
use libfgw.Stream.Receive.Framing.{consume-frame, consume-fuel}

-- A header and a payload that were handed to the encoder.
pub record Sent : Type 0 where
  pub header : FgwSegmentHeader
  pub payload : List ℕ
  pub in_range : InRange header
  pub fits : length payload ≤ max_payload

-- The frames of the list, back to back.
abbrev pub wire_bytes : List Sent → List ℕ
wire_bytes [] = []
wire_bytes (x ∷ xs) = frame_of x.header x.payload ++ wire_bytes xs

-- Each frame handled, in order.
abbrev pub handle_each : Env → ℕ → List Sent → DataStream → DataStream
handle_each env ch [] s = s
handle_each env ch (x ∷ xs) s = handle_each env ch xs (
    on_frame env ch (wire_header_size x.header) (wire_header x.header x.payload)
      (frame_of x.header x.payload) s)

consume-cons :
    (env : Env) (ch : ℕ) (x : Sent) (rest : List ℕ) (s : DataStream)
    → consume
        (length (frame_of x.header x.payload ++ rest))
        env
        ch
        (frame_of x.header x.payload ++ rest)
        s
      ≡ consume (length rest) env ch rest (
          on_frame env ch
            (wire_header_size x.header)
            (wire_header x.header x.payload)
            (frame_of x.header x.payload)
            s)
consume-cons env ch x rest s =
    let frame = frame_of x.header x.payload in
    let bytes = frame ++ rest in
    let hr = wire_header_size x.header in
    let wire = wire_header x.header x.payload in
    let size : hr + length x.payload ≡ length frame = sym (length-frame_of x.header x.payload) in
    let long : ltb (length bytes) (hr + length x.payload) ≡ false =
      ground (arith, size, length-append frame rest) in
    consume-fuel env ch (length bytes) (suc (length bytes)) bytes s (omega arith) (omega arith)
    ∙ consume-frame env ch (length bytes) bytes s hr wire
        (peek-frame_of x.header x.payload rest x.in_range x.fits) long
    ∙ rw
        (
          take-append frame rest (hr + length x.payload) size,
          drop-append frame rest (hr + length x.payload) size,
        )
        (consume-fuel env ch (length bytes) (length rest) rest (on_frame env ch hr wire frame s)
          (omega (arith, length-append frame rest)) (omega arith))

-- Frames back to back, encoded from headers in range and payloads that fit, are handled one by one,
-- in order, with the headers that were encoded, and nothing is left over.
pub consume_frames :
    (env : Env) (ch : ℕ) (xs : List Sent) (s : DataStream)
    → consume (length (wire_bytes xs)) env ch (wire_bytes xs) s ≡ (handle_each env ch xs s, [])
unfolding consume
consume_frames env ch [] s = refl
consume_frames env ch (x ∷ xs) s =
    consume-cons env ch x (wire_bytes xs) s ∙ consume_frames env ch xs _

verified :
    (x : Sent)
    → fgw_segment_verify_crc
        (frame_of x.header x.payload)
        (wire_header x.header x.payload)
        (wire_header_size x.header)
      ≡ true
verified x =
    subst
      (λ (b : List ℕ).
        fgw_segment_verify_crc b (wire_header x.header x.payload) (wire_header_size x.header)
        ≡ true)
      (append-nil (frame_of x.header x.payload)) (verify-frame_of x.header x.payload [])

payload_back :
    (x : Sent) → drop (wire_header_size x.header) (frame_of x.header x.payload) ≡ x.payload
payload_back x =
    sym (
      take-length (drop (wire_header_size x.header) (frame_of x.header x.payload))
        (length x.payload)
        (omega (
          arith,
          length-drop (wire_header_size x.header) (frame_of x.header x.payload),
          length-frame_of x.header x.payload,
        )))
    ∙ subst
        (λ (b : List ℕ). take (length x.payload) (drop (wire_header_size x.header) b) ≡ x.payload)
        (append-nil (frame_of x.header x.payload)) (payload_of_frame x.header x.payload [])

never_fails : (check : Bool) → (check && false) ≡ false
never_fails true = refl
never_fails false = refl

-- One frame, that arrives whole.
pub consume_one :
    (env : Env) (ch : ℕ) (x : Sent) (s : DataStream)
    → consume (length (frame_of x.header x.payload)) env ch (frame_of x.header x.payload) s ≡ (
      on_frame env ch
          (wire_header_size x.header)
          (wire_header x.header x.payload)
          (frame_of x.header x.payload)
          s,
      [],
    )
consume_one env ch x s =
    subst
      (λ (b : List ℕ). consume (length b) env ch b s ≡ (
        on_frame env ch (wire_header_size x.header) (wire_header x.header x.payload)
            (frame_of x.header x.payload) s,
        [],
      ))
      (append-nil (frame_of x.header x.payload)) (consume_frames env ch (x ∷ []) s)

-- A frame of a session passes the checksum test, and is handled with the payload that was sent.
pub on_frame_session :
    (env : Env) (ch : ℕ) (x : Sent) (s : DataStream)
    → has_flag x.header.flags flag_hello ≡ false
    → has_flag x.header.flags flag_heartbeat ≡ false
    → has_flag x.header.flags flag_ack ≡ false
    → on_frame env ch
        (wire_header_size x.header)
        (wire_header x.header x.payload)
        (frame_of x.header x.payload)
        s
      ≡ on_segment env ch
          (wire_header x.header x.payload)
          x.payload
          (record s { links = change ch note_segment_recv s.links })
unfolding on_frame
on_frame_session env ch x s no_hello no_beat no_ack =
    let flags = wire_flags x.header.flags x.in_range.flags_lt in
    rw
      (
        verified x,
        never_fails s.verify_crc,
        flags.hello_kept ∙ no_hello,
        flags.heartbeat_kept ∙ no_beat,
        flags.ack_kept ∙ no_ack,
        payload_back x,
      )
      refl

-- A hello passes the checksum test, and is handled with the payload that was sent.
pub on_frame_hello :
    (env : Env) (ch : ℕ) (x : Sent) (s : DataStream)
    → has_flag x.header.flags flag_hello ≡ true
    → on_frame env ch
        (wire_header_size x.header)
        (wire_header x.header x.payload)
        (frame_of x.header x.payload)
        s
      ≡ on_hello env ch x.payload (record s { links = change ch note_segment_recv s.links })
unfolding on_frame
on_frame_hello env ch x s hello =
    let flags = wire_flags x.header.flags x.in_range.flags_lt in
    rw (verified x, never_fails s.verify_crc, flags.hello_kept ∙ hello, payload_back x) refl
