-- ===== src/Manager/Greeting.antt =====
-- src/zfgw_channel_manager.cpp with src/zfgw_datastream.cpp: the hello that a manager sends on a
-- channel, as the stream of the peer takes it.
use libfgw.Prelude.{
  ℕ, ◌+◌, ◌%◌, ◌^◌, ◌≤◌, ◌<◌, ◌≡◌, refl, sym, ap, subst, ◌∙◌, ◌≢◌, true, List, [], ◌++◌, append-nil,
  ==_iff, Option, none, some, option_known, length, drop, take-append, replicate, arith,
}
use libfgw.Codes.{Result, ok, err}
use libfgw.Config.{FgwConfig}
use libfgw.Segment.Header.{FgwSegmentHeader, default_header, flag_hello, has_flag}
use libfgw.Segment.Encode.{wire_header_size}
use libfgw.Segment.RoundTrip.{frame_of, length-frame_of, fgw_segment_encode_lem}
use libfgw.Codec.Zds.{Zds, ZdsLaws}
use libfgw.Codec.Control.{pack_hello, unpack_hello, HelloInRange}
use libfgw.Codec.Control.Laws.{unpack_hello-pack_hello}
use libfgw.Link.Channel.{FgwChannel, set_peer_identity, note_segment_recv}
use libfgw.Link.Pool.{change}
use libfgw.Stream.State.{DataStream, Env, FgwHello}
use libfgw.Stream.Receive.{consume, on_hello, note_generation, on_channel_bytes}
use libfgw.Stream.Receive.Buffer.{pending, settle, on_channel_bytes_lem, pending-settle}
use libfgw.Stream.Receive.Frames.{Sent, consume_one, on_frame_hello}
use libfgw.Manager.State.{ChannelManager, ManagerEnv, send_frame}
use libfgw.Manager.Traffic.{hello_of, send_encoded, hello_frame, send_hello_payload, send_hello}

abbrev pub hello_header : FgwConfig → List ℕ → FgwSegmentHeader
hello_header config payload = record default_header {
  flags = flag_hello;
  payload_len = length payload % 2 ^ 16;
  ingress_id = config.ingress_id;
}

-- A hello's payload, handed to the encoder.
abbrev sent_hello :
    (config : FgwConfig) (payload : List ℕ)
    → config.ingress_id < 2 ^ 32
    → length payload ≤ 64
    → Sent
sent_hello config payload small short = record {
  header = hello_header config payload;
  payload = payload;
  in_range = record {
    flags_lt = omega arith;
    payload_len_lt = omega arith;
    session_id_lt = omega arith;
    seq_num_lt = omega arith;
    ingress_id_lt = small;
    outport_id_lt = omega arith;
  };
  fits = omega arith;
}

hello_size :
    (config : FgwConfig) (payload : List ℕ) → wire_header_size (hello_header config payload) ≡ 20
unfolding wire_header_size has_flag
hello_size config payload = refl

hello_frame_lem :
    (config : FgwConfig) (payload : List ℕ)
    → length payload ≤ 64
    → hello_frame config payload
      ≡ ok (
        wire_header_size (hello_header config payload) + length payload,
        frame_of (hello_header config payload) payload
            ++ drop
                (wire_header_size (hello_header config payload) + length payload)
                (replicate 128 0),
      )
unfolding hello_frame
hello_frame_lem config payload short =
    fgw_segment_encode_lem (replicate 128 0) (hello_header config payload) payload (omega arith)
      (omega (arith, hello_size config payload))

send_hello_lem :
    (env : ManagerEnv) (p : ℕ) (m : ChannelManager) (payload : List ℕ)
    → pack_hello env.zds true 64 (hello_of env p m) ≡ ok payload
    → length payload ≤ 64
    → send_hello env p m ≡ send_frame env p (frame_of (hello_header m.config payload) payload) m
unfolding send_hello send_hello_payload send_encoded
send_hello_lem env p m payload packed short =
    let hdr = hello_header m.config payload in
    ap (λ (r : Result (List ℕ)). send_hello_payload env p r m) packed
    ∙ ap (λ (r : Result (ℕ × List ℕ)). send_encoded env p r m)
        (hello_frame_lem m.config payload short)
    ∙ ap (λ (b : List ℕ). send_frame env p b m)
        (take-append (frame_of hdr payload) _ _ (sym (length-frame_of hdr payload)))

-- The stream at the other end takes the frame whole, and handles the hello.
hello_taken :
    (env : Env) (ch : ℕ) (x : Sent) (s : DataStream)
    → has_flag x.header.flags flag_hello ≡ true
    → consume (length (frame_of x.header x.payload)) env ch (frame_of x.header x.payload) s
      ≡ (on_hello env ch x.payload (record s { links = change ch note_segment_recv s.links }), [])
hello_taken env ch x s hello =
    consume_one env ch x s ∙ ap (λ (t : DataStream). (t, [])) (on_frame_hello env ch x s hello)

-- What the stream at the other end knows of the sender.
pub record Greeted (env : ManagerEnv) (p ch : ℕ) (m : ChannelManager) (s : DataStream)
    : Type 0 where
  pub channel : (s.links.objects ch).peer_channel_id ≡ (m.links.objects p).channel_id
  pub ingress : (s.links.objects ch).peer_ingress_id ≡ m.config.ingress_id
  pub generation : s.peer_generation ≡ env.generation

note_generation-links :
    (hello : FgwHello) (s : DataStream) → (note_generation hello s).links ≡ s.links
unfolding note_generation
note_generation-links hello s = ground arith

note_generation-generation :
    (hello : FgwHello) (s : DataStream)
    → hello.generation ≢ 0
    → (note_generation hello s).peer_generation ≡ hello.generation
unfolding note_generation
note_generation-generation hello s ne = ground (arith, ==_iff hello.generation s.peer_generation)

identified :
    (hello : FgwHello) (ch : ℕ) (l : libfgw.Link.Pool.Links)
    → (change ch (set_peer_identity hello.channel_id hello.ingress_id hello.outport_id) l).objects
        ch
      ≡ set_peer_identity hello.channel_id hello.ingress_id hello.outport_id (l.objects ch)
unfolding change
identified hello ch l = rw ((==_iff ch ch).1 refl) refl

on_hello-Greeted :
    (env : ManagerEnv) (stream_env : Env) (p ch : ℕ) (payload : List ℕ) (m : ChannelManager)
    (s : DataStream)
    → stream_env.unpack_hello payload ≡ some (hello_of env p m)
    → env.generation ≢ 0
    → Greeted env p ch m (on_hello stream_env ch payload s)
unfolding on_hello hello_of set_peer_identity
on_hello-Greeted env stream_env p ch payload m s read ne =
    option_known (Greeted env p ch m) (stream_env.unpack_hello payload) (hello_of env p m) _ _ read
      (let links = note_generation-links (hello_of env p m) (named s) in
        record {
          channel =
              ap (λ (l : libfgw.Link.Pool.Links). (l.objects ch).peer_channel_id) links
              ∙ ap (λ (c : FgwChannel). c.peer_channel_id)
                  (identified (hello_of env p m) ch s.links);
          ingress =
              ap (λ (l : libfgw.Link.Pool.Links). (l.objects ch).peer_ingress_id) links
              ∙ ap (λ (c : FgwChannel). c.peer_ingress_id)
                  (identified (hello_of env p m) ch s.links);
          generation = note_generation-generation (hello_of env p m) (named s) ne;
        })
  where
    named : DataStream → DataStream
    named t = record t {
      links =
          change ch (set_peer_identity (m.links.objects p).channel_id m.config.ingress_id 0)
            t.links;
    }

abbrev pub unpacked : Result (FgwHello × List ℕ) → Option FgwHello
unpacked (ok (hello, rest)) = some hello
unpacked (err e) = none

hello_flagged : has_flag flag_hello flag_hello ≡ true
unfolding has_flag
hello_flagged = refl

-- What was packed, read without anything behind it.
read_back :
    (z : Zds)
    → ZdsLaws z
    → (hello : FgwHello) (payload : List ℕ) → HelloInRange z hello
    → pack_hello z true 64 hello ≡ ok payload
    → unpacked (unpack_hello z true payload) ≡ some hello
read_back z zl hello payload holds packed =
    subst (λ (b : List ℕ). unpacked (unpack_hello z true b) ≡ some hello) (append-nil payload)
      (ap unpacked (unpack_hello-pack_hello z zl true 64 hello payload [] holds packed))

-- The hello that a manager sends on a channel is one frame. A stream that is given it by
-- onChannelBytes on a channel of its own, of which no bytes wait for more, has no bytes of that
-- channel waiting afterwards, and then knows that channel by the sender's channel id and ingress
-- id, and the sender's generation, whatever else its state was. The hello is in range and packed
-- into 64 bytes, the generation is not 0, zce's laws hold for the codec and the stream unpacks with
-- it.
pub send_hello-Greeted :
    (env : ManagerEnv)
    → ZdsLaws env.zds
    → (stream_env : Env) (p ch : ℕ) (m : ChannelManager) (s : DataStream) (payload : List ℕ)
    → pack_hello env.zds true 64 (hello_of env p m) ≡ ok payload
    → length payload ≤ 64
    → HelloInRange env.zds (hello_of env p m)
    → m.config.ingress_id < 2 ^ 32
    → env.generation ≢ 0
    → ((bytes : List ℕ)
        → stream_env.unpack_hello bytes ≡ unpacked (unpack_hello env.zds true bytes))
    → pending ch s ≡ []
    → (frame : List ℕ) × (send_hello env p m ≡ send_frame env p frame m)
      × (pending ch (on_channel_bytes stream_env ch frame s) ≡ [])
      × Greeted env p ch m (on_channel_bytes stream_env ch frame s)
send_hello-Greeted env zl stream_env p ch m s payload packed short holds small ne codec clear = (
  frame_of (hello_header m.config payload) payload,
  send_hello_lem env p m payload packed short,
  subst (λ (t : DataStream). pending ch t ≡ []) (sym taken)
      (pending-settle ch ch [] heard ∙ ground arith),
  subst (Greeted env p ch m) (sym taken) (
      settled (
        on_hello-Greeted env stream_env p ch payload m
          (record s { links = change ch note_segment_recv s.links })
          (codec payload ∙ read_back env.zds zl (hello_of env p m) payload holds packed) ne)),
)
  where
    heard : DataStream
    heard =
        on_hello stream_env ch payload (record s { links = change ch note_segment_recv s.links })

    settled : Greeted env p ch m heard → Greeted env p ch m (settle ch (heard, []))
    settled g = record { channel = g.channel; ingress = g.ingress; generation = g.generation }

    taken :
        on_channel_bytes stream_env ch (frame_of (hello_header m.config payload) payload) s
        ≡ settle ch (heard, [])
    taken =
        on_channel_bytes_lem stream_env ch (frame_of (hello_header m.config payload) payload) s
          clear
        ∙ ap (settle ch)
            (hello_taken stream_env ch (sent_hello m.config payload small short) s hello_flagged)
