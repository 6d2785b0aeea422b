-- ===== src/Stream/Send/Wire.antt =====
-- src/zfgw_datastream.cpp: what sendSegment hands to the sockets.
use libfgw.Prelude.{
  ℕ, ◌+◌, ◌≤◌, ◌≡◌, refl, sym, ap, subst, ◌∙◌, Bool, true, false, List, [], ◌∷◌, ◌++◌, append-nil,
  append_assoc, some, ltb, ◌==◌, if◌then◌else◌, Bool-cases, inl, inr, if_cases, option_both, length,
  map, take, take-append, All, All-append, arith,
}
use libfgw.Codes.{Result, ok, err}
use libfgw.Segment.Header.{
  FgwSegmentHeader, max_payload, header_size, routed_header_size, has_flag, flag_data,
}
use libfgw.Segment.Encode.{wire_header_size, is_routed}
use libfgw.Segment.RoundTrip.{frame_of, length-frame_of, fgw_segment_encode_lem}
use libfgw.Link.Channel.{send_bytes}
use libfgw.Link.Selector.{select}
use libfgw.Link.Pool.{live_channels, find_live}
use libfgw.Stream.State.{DataStream, Env}
use libfgw.Stream.Send.{
  send_on, send_to_id, send_rest, send_to_all, dispatch, segment_header, send_segment,
}

-- What was added to the wire satisfies `P`, and the sender's format is the same.
pub record Emits (P : ℕ × List ℕ → Type 0) (s s' : DataStream) : Type 0 where
  pub sent : List (ℕ × List ℕ)
  pub on_wire : s'.wire ≡ s.wire ++ sent
  pub each : All P sent
  pub same_route : s'.route_outport_id ≡ s.route_outport_id
  pub same_size : s'.segment_size ≡ s.segment_size

module _ (P : ℕ × List ℕ → Type 0) where
  pub Emits-none :
      (s s' : DataStream)
      → s'.wire ≡ s.wire
      → s'.route_outport_id ≡ s.route_outport_id
      → s'.segment_size ≡ s.segment_size
      → Emits P s s'
  Emits-none s s' wire route size = record {
    sent = [];
    on_wire = wire ∙ sym (append-nil s.wire);
    each = tt;
    same_route = route;
    same_size = size;
  }

  pub Emits-trans : (s t u : DataStream) → Emits P s t → Emits P t u → Emits P s u
  Emits-trans s t u a b = record {
    sent = a.sent ++ b.sent;
    on_wire =
        b.on_wire
        ∙ ap (λ (w : List (ℕ × List ℕ)). w ++ b.sent) a.on_wire
        ∙ append_assoc s.wire a.sent b.sent;
    each = All-append P a.sent b.sent a.each b.each;
    same_route = b.same_route ∙ a.same_route;
    same_size = b.same_size ∙ a.same_size;
  }

  wire_if :
      (called : Bool) (w : List (ℕ × List ℕ)) (x : ℕ × List ℕ)
      → (if called then w ++ x ∷ [] else w) ≡ w ++ (if called then x ∷ [] else [])
  wire_if true w x = refl
  wire_if false w x = sym (append-nil w)

  each_if : (called : Bool) (x : ℕ × List ℕ) → P x → All P (if called then x ∷ [] else [])
  each_if true x h = (h, tt)
  each_if false x h = tt

  module _ (env : Env) (frame : List ℕ) (holds : (p : ℕ) → P (p, frame)) where
    send_on-Emits : (p : ℕ) (s : DataStream) → Emits P s (send_on env p frame s).1
    unfolding send_on
    send_on-Emits p s =
        let called =
          (send_bytes (length (env.acquire (length frame))) (env.tcp_write s.wire p frame)
            (length frame) (s.links.objects p)).1 in
        record {
          sent = if called then (p, frame) ∷ [] else [];
          on_wire = wire_if called s.wire (p, frame);
          each = each_if called (p, frame) (holds p);
          same_route = refl;
          same_size = refl;
        }

    send_to_id-Emits :
        (live : List ℕ) (id : ℕ) (s : DataStream) → Emits P s (send_to_id env live frame id s).1
    unfolding send_to_id
    send_to_id-Emits live id s =
        option_both (λ (x : Result ℕ × DataStream). Emits P s x.1)
          (find_live s.links.objects id live) _ _ (Emits-none s s refl refl refl)
          (λ p found. send_on-Emits p s)

    send_rest-Emits :
        (live ids : List ℕ) (s : DataStream) → Emits P s (send_rest env live frame ids s)
    unfolding send_rest
    send_rest-Emits live [] s = Emits-none s s refl refl refl
    send_rest-Emits live (id ∷ ids) s =
        let s' = (send_to_id env live frame id s).1 in
        Emits-trans s s' (send_rest env live frame ids s') (send_to_id-Emits live id s)
          (send_rest-Emits live ids s')

    send_to_all-Emits :
        (live ids : List ℕ) (len : ℕ) (s : DataStream)
        → Emits P s (send_to_all env live frame ids len s).1
    unfolding send_to_all
    send_to_all-Emits live [] len s = Emits-none s s refl refl refl
    send_to_all-Emits live (id ∷ ids) len s =
        let s' = (send_to_id env live frame id s).1 in
        Emits-trans s s' (send_rest env live frame ids s') (send_to_id-Emits live id s)
          (send_rest-Emits live ids s')

    dispatch-Emits : (len : ℕ) (s : DataStream) → Emits P s (dispatch env frame len s).1
    unfolding dispatch
    dispatch-Emits len s =
        let live = live_channels s.links in
        let picked = select env.fpu env.sort s.links.selector (map s.links.objects live) in
        let t = record s { links = record (s.links) { selector = picked.1 } } in
        Emits-trans s t (send_to_all env live frame picked.0 len t).1
          (Emits-none s t refl refl refl) (send_to_all-Emits live picked.0 len t)

-- A data segment's header: only its number and length change from segment to segment.
abbrev pub data_header : DataStream → ℕ → ℕ → ℕ → List ℕ → FgwSegmentHeader
data_header s wire_ingress session_id seq payload =
    segment_header s wire_ingress session_id seq flag_data (length payload)

data_header-size :
    (s : DataStream) (wi sid seq : ℕ) (payload : List ℕ)
    → wire_header_size (data_header s wi sid seq payload)
      ≡ (if s.route_outport_id == 0 then header_size else routed_header_size)
unfolding segment_header wire_header_size is_routed has_flag
data_header-size s wi sid seq payload = elim (Bool-cases (s.route_outport_id == 0)) [
  | inl e ↦ rw e refl
  | inr e ↦ rw e refl
]

-- A data segment puts its frame on the wire, on some channels or on none.
pub send_segment-Emits :
    (P : ℕ × List ℕ → Type 0) (env : Env) (wi sid seq : ℕ) (payload : List ℕ) (s : DataStream)
    → length payload ≤ max_payload
    → ((p : ℕ) → P (p, frame_of (data_header s wi sid seq payload) payload))
    → Emits P s (send_segment env wi sid seq flag_data (some payload) (length payload) s).1
unfolding send_segment
send_segment-Emits P env wi sid seq payload s fits holds =
    let hdr = data_header s wi sid seq payload in
    let total =
      (if s.route_outport_id == 0 then header_size else routed_header_size) + length payload in
    let block = env.acquire total in
    if_cases (λ (x : Result ℕ × DataStream). Emits P s x.1) (ltb (length block) total) _ _
      (λ small. Emits-none P s s refl refl refl)
      (λ large.
        subst (λ (r : Result (ℕ × List ℕ)). Emits P s (sent_of r).1)
          (sym (
            fgw_segment_encode_lem block hdr payload fits
              (ground (arith, data_header-size s wi sid seq payload))))
          (subst (λ (f : List ℕ). Emits P s (dispatch env f (length payload) s).1)
            (sym (take-append (frame_of hdr payload) _ _ (sym (length-frame_of hdr payload))))
            (dispatch-Emits P env (frame_of hdr payload) holds (length payload) s)))
  where
    sent_of : Result (ℕ × List ℕ) → Result ℕ × DataStream
    sent_of (err e) = (err e, s)
    sent_of (ok (wrote, bytes)) = dispatch env (take wrote bytes) (length payload) s
