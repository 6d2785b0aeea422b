-- ===== src/Transit/Forward.antt =====
-- src/zfgw_transit.cpp: onLinkBytes.
use libfgw.Prelude.{
  ℕ, zero, suc, ◌+◌, ◌≡◌, ◌⊎◌, refl, inl, inr, Bool, true, false, ◌||◌, List, [], ◌∷◌, ◌++◌, Option,
  none, some, ltb, ◌==◌, if◌then◌else◌, length, take, drop, lookup, insert, nat_ord, arith,
}
use libfgw.Codes.{proto_version}
use libfgw.Segment.Header.{FgwSegmentHeader, is_hello, is_heartbeat, is_ack}
use libfgw.Segment.Decode.{need_more, bad, found, fgw_segment_peek_header}
use libfgw.Link.Channel.{send_bytes}
use libfgw.Stream.State.{FgwHello}
use libfgw.Transit.State.{TransitService, TransitEnv, send_frame, find_outbound, find_inbound}

-- An inbound link's hello names its ingress.
unfoldable pub learn_hello : TransitEnv → ℕ → List ℕ → TransitService → TransitService
learn_hello env ch payload t = elim (env.unpack_hello payload) [
  | none ↦ t
  | some hello ↦
      if hello.proto_version == proto_version
      then record t { inbound_by_ingress = insert hello.ingress_id ch t.inbound_by_ingress }
      else t
]

unfoldable pub forward_to : TransitEnv → Option ℕ → List ℕ → TransitService → TransitService
unfolding send_frame
forward_to env none frame t = t
forward_to env (some p) frame t = send_frame env p frame t

-- A whole frame of `hr` header bytes from the link at `ch`.
unfoldable pub transit_frame :
    TransitEnv → ℕ → Bool → ℕ → FgwSegmentHeader → List ℕ → TransitService → TransitService
unfolding learn_hello forward_to find_outbound find_inbound
transit_frame env ch outbound hr hdr frame t =
    let learned = record t { inbound_by_ingress = insert hdr.ingress_id ch t.inbound_by_ingress } in
    if is_hello hdr
    then (if outbound then t else learn_hello env ch (drop hr frame) t)
    else if is_heartbeat hdr || is_ack hdr
    then t
    else if outbound
    then forward_to env (find_inbound hdr.ingress_id t) frame t
    else forward_to env (find_outbound hdr.outport_id learned) frame learned

-- The loop over the buffered bytes, with their number as fuel.
unfoldable pub transit_loop :
    ℕ → TransitEnv → ℕ → Bool → List ℕ → TransitService → TransitService × List ℕ
unfolding transit_frame
transit_loop zero env ch outbound bytes t = (t, bytes)
transit_loop (suc fuel) env ch outbound bytes t = elim (fgw_segment_peek_header bytes) [
  | need_more ↦ (t, bytes)
  | bad ↦ (t, [])
  | found hr hdr ↦
      let total = hr + hdr.payload_len in
      let next =
        transit_loop fuel env ch outbound (drop total bytes)
          (transit_frame env ch outbound hr hdr (take total bytes) t) in
      if ltb (length bytes) total then (t, bytes) else next
]

unfoldable pub on_link_bytes : TransitEnv → ℕ → List ℕ → TransitService → TransitService
unfolding transit_loop
on_link_bytes env ch arrived t = elim (lookup ch t.links) [
  | none ↦ t
  | some link ↦
      let bytes = link.buffer ++ arrived in
      let (t', left) = transit_loop (length bytes) env ch link.outbound bytes t in
      record t' { links = insert ch (record link { buffer = left }) t'.links }
]

-- The route of a frame: hop-local frames have none.
unfoldable pub route : Bool → FgwSegmentHeader → TransitService → Option ℕ
unfolding find_outbound find_inbound
route outbound hdr t =
    if is_hello hdr || (is_heartbeat hdr || is_ack hdr)
    then none
    else if outbound
    then find_inbound hdr.ingress_id t
    else find_outbound hdr.outport_id t

-- What a step did to the wire: nothing, or one frame to the link that `to` names.
abbrev Sent : Option ℕ → List ℕ → TransitService → TransitService → Type 0
Sent to frame t t' =
    (t'.wire ≡ t.wire) ⊎ ((p : ℕ) × (to ≡ some p) × (t'.wire ≡ t.wire ++ (p, frame) ∷ []))

appended :
    (b : Bool) (xs : List (ℕ × List ℕ)) (p : ℕ) (frame : List ℕ)
    → ((if b then xs ++ (p, frame) ∷ [] else xs) ≡ xs)
      ⊎ ((if b then xs ++ (p, frame) ∷ [] else xs) ≡ xs ++ (p, frame) ∷ [])
appended true xs p frame = inr refl
appended false xs p frame = inl refl

forward_to-Sent :
    (env : TransitEnv) (to : Option ℕ) (frame : List ℕ) (t : TransitService)
    → Sent to frame t (forward_to env to frame t)
unfolding forward_to send_frame
forward_to-Sent env none frame t = inl refl
forward_to-Sent env (some p) frame t =
    elim (appended
      (send_bytes (env.space (length frame)) (env.tcp_write t.wire p frame) (length frame)
        (t.objects p)).1
      t.wire p frame) [ inl same ↦ inl same | inr more ↦ inr (p, refl, more) ]

learn_hello-wire :
    (env : TransitEnv) (ch : ℕ) (payload : List ℕ) (t : TransitService)
    → (learn_hello env ch payload t).wire ≡ t.wire
unfolding learn_hello
learn_hello-wire env ch payload t = by_hello (env.unpack_hello payload)
  where
    by_hello :
        (o : Option FgwHello)
        → (elim o as (λ x. TransitService) [
          | none ↦ t
          | some hello ↦
              if hello.proto_version == proto_version
              then record t { inbound_by_ingress = insert hello.ingress_id ch t.inbound_by_ingress }
              else t
        ]).wire
          ≡ t.wire
    by_hello none = refl
    by_hello (some hello) = ground arith

-- A frame is handed on unchanged, to the one link that its ingress or outport names, or not at all;
-- a hello, a heartbeat and a feedback are handed on to none.
pub transit_frame-route :
    (env : TransitEnv) (ch : ℕ) (outbound : Bool) (hr : ℕ) (hdr : FgwSegmentHeader) (frame : List ℕ)
    (t : TransitService)
    → let t' = transit_frame env ch outbound hr hdr frame t in
      (t'.wire ≡ t.wire)
      ⊎ ((p : ℕ) × (route outbound hdr t ≡ some p) × (t'.wire ≡ t.wire ++ (p, frame) ∷ []))
unfolding transit_frame route
transit_frame-route env ch outbound hr hdr frame t =
    by_kind (is_hello hdr) (is_heartbeat hdr || is_ack hdr) outbound
  where
    by_kind :
        (hello control out : Bool)
        → Sent
            (if hello || control
              then none
              else if out
              then find_inbound hdr.ingress_id t
              else find_outbound hdr.outport_id t)
            frame
            t
            (if hello
              then (if out then t else learn_hello env ch (drop hr frame) t)
              else if control
              then t
              else if out
              then forward_to env (find_inbound hdr.ingress_id t) frame t
              else forward_to env
                  (find_outbound hdr.outport_id t)
                  frame
                  (record t { inbound_by_ingress = insert hdr.ingress_id ch t.inbound_by_ingress }))
    by_kind true control true = inl refl
    by_kind true control false = inl (learn_hello-wire env ch (drop hr frame) t)
    by_kind false true out = inl refl
    by_kind false false true = forward_to-Sent env (find_inbound hdr.ingress_id t) frame t
    by_kind false false false =
        forward_to-Sent env (find_outbound hdr.outport_id t) frame
          (record t { inbound_by_ingress = insert hdr.ingress_id ch t.inbound_by_ingress })
