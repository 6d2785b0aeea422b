-- ===== src/Transit/Serving.antt =====
-- src/zfgw_transit.cpp: a TransitService that is started and stopped, whose links are dialled,
-- accepted and lost, and that hands on what they send.
use libfgw.Prelude.{
  ℕ, ◌+◌, ◌≡◌, refl, subst, ◌∙◌, Bool, true, false, ◌||◌, List, [], ◌∷◌, ◌++◌, Option, none, some,
  ◌==◌, length, take, drop, replicate, ltb, if◌then◌else◌, Map, lookup, insert, nat_ord, arith,
  Bool-cases, inl, inr, ==_iff, if_either, zero, suc, option_both,
}
use libfgw.Codes.{Result, result_both, proto_version, pos}
use libfgw.Config.{FgwChannelConfig, any_address}
use libfgw.Segment.Header.{
  FgwSegmentHeader, is_hello, is_heartbeat, is_ack, default_header, flag_heartbeat,
}
use libfgw.Segment.Encode.{fgw_segment_encode}
use libfgw.Segment.Decode.{Peek, need_more, bad, found, fgw_segment_peek_header}
use libfgw.Transit.State.{Link, TransitService, TransitEnv, send_frame, find_outbound, find_inbound}
use libfgw.Transit.Forward.{learn_hello, forward_to, transit_frame, transit_loop, on_link_bytes}
use libfgw.Transit.Dial.{
  schedule_redial, drop_stale, dial_one_outport, dial_outports, config_of, on_redial,
  make_inbound_channel, transit_start, on_drop_link, served_by, send_heartbeat, heartbeat_links,
}
use libfgw.Transit.Routes.{direction, direction-insert}
use libfgw.Transit.Routed.{
  Routed, InRoute, learned-Routed, same-Routed, accepted-Routed, dropped-Routed, dialled-Routed,
}

dial_one_outport-InRoute :
    (env : TransitEnv) (ccfg : FgwChannelConfig) (t : TransitService)
    → InRoute t
    → InRoute (dial_one_outport env ccfg t)
unfolding dial_one_outport drop_stale schedule_redial
dial_one_outport-InRoute env ccfg t r =
    let dialled =
      dialled-Routed t.links t.outbound_by_outport t.inbound_by_ingress t.next_object
        ccfg.channel_id (record { outbound = true; buffer = [] }) refl r in
    if_either InRoute (env.start_connect ccfg.remote) _ _ dialled dialled

dial_outports-InRoute :
    (env : TransitEnv) (ccfgs : List FgwChannelConfig) (t : TransitService)
    → InRoute t
    → InRoute (dial_outports env ccfgs t)
unfolding dial_outports
dial_outports-InRoute env [] t r = r
dial_outports-InRoute env (ccfg ∷ rest) t r =
    dial_outports-InRoute env rest (dial_one_outport env ccfg t)
      (dial_one_outport-InRoute env ccfg t r)

pub on_redial-InRoute :
    (env : TransitEnv) (id : ℕ) (t : TransitService) → InRoute t → InRoute (on_redial env id t)
unfolding on_redial
on_redial-InRoute env id t r =
    option_both InRoute (config_of id t.config.channels) t _ r
      (λ ccfg e. dial_one_outport-InRoute env ccfg t r)

pub transit_start-InRoute :
    (env : TransitEnv) (t : TransitService) → InRoute t → InRoute (transit_start env t).1
unfolding transit_start
transit_start-InRoute env t r =
    let dialled = dial_outports-InRoute env t.config.channels t r in
    if_either (λ (x : Result ℕ × TransitService). InRoute x.1) (t.config.outport_listen_port == 0) _
      _ dialled
      (if_either (λ (x : Result ℕ × TransitService). InRoute x.1)
        (env.listen (any_address t.config.outport_listen_host) t.config.outport_listen_port) _ _
        dialled dialled)

-- A service whose tables are empty.
pub empty-Routed : (next : ℕ) → Routed [] [] [] next
unfolding lookup direction
empty-Routed next = record {
  outports = λ id p h. absurd (ground arith);
  ingresses = λ id p h. absurd (ground arith);
  alone = λ a b p g h. absurd (ground arith);
  young = λ p b h. absurd (ground arith);
  sorted_outports = tt;
  sorted_ingresses = tt;
}

-- The link that bytes come from stays in the table.
From : ℕ → Bool → TransitService → Type 0
From ch outbound t = InRoute t × (direction ch t.links ≡ some outbound)

learn_hello-From :
    (env : TransitEnv) (ch : ℕ) (payload : List ℕ) (t : TransitService)
    → From ch false t
    → From ch false (learn_hello env ch payload t)
unfolding learn_hello From
learn_hello-From env ch payload t (r, known) =
    option_both (From ch false) (env.unpack_hello payload) t _ (r, known)
      (λ hello e.
        if_either (From ch false) (hello.proto_version == proto_version) _ t
          (
            learned-Routed t.links t.outbound_by_outport t.inbound_by_ingress t.next_object
                hello.ingress_id ch known r,
            known,
          )
          (r, known))

forward_to-From :
    (env : TransitEnv) (to : Option ℕ) (frame : List ℕ) (ch : ℕ) (outbound : Bool)
    (t : TransitService)
    → From ch outbound t
    → From ch outbound (forward_to env to frame t)
unfolding forward_to send_frame From
forward_to-From env none frame ch outbound t f = f
forward_to-From env (some p) frame ch outbound t f = f

abbrev learn : ℕ → ℕ → TransitService → TransitService
learn id ch t = record t { inbound_by_ingress = insert id ch t.inbound_by_ingress }

learn-From : (id ch : ℕ) (t : TransitService) → From ch false t → From ch false (learn id ch t)
unfolding From
learn-From id ch t (r, known) = (
  learned-Routed t.links t.outbound_by_outport t.inbound_by_ingress t.next_object id ch known r,
  known,
)

transit_frame-From :
    (env : TransitEnv) (ch : ℕ) (outbound : Bool) (hr : ℕ) (hdr : FgwSegmentHeader) (frame : List ℕ)
    (t : TransitService)
    → From ch outbound t
    → From ch outbound (transit_frame env ch outbound hr hdr frame t)
unfolding transit_frame
transit_frame-From env ch true hr hdr frame t f = if_either (From ch true) (is_hello hdr) t _ f (
    if_either (From ch true) (is_heartbeat hdr || is_ack hdr) t _ f
      (forward_to-From env (find_inbound hdr.ingress_id t) frame ch true t f))
transit_frame-From env ch false hr hdr frame t f =
    if_either (From ch false) (is_hello hdr) _ _ (learn_hello-From env ch (drop hr frame) t f) (
      if_either (From ch false) (is_heartbeat hdr || is_ack hdr) t _ f (
        forward_to-From env (find_outbound hdr.outport_id (learn hdr.ingress_id ch t)) frame ch
          false (learn hdr.ingress_id ch t) (learn-From hdr.ingress_id ch t f)))

transit_loop-From :
    (fuel : ℕ) (env : TransitEnv) (ch : ℕ) (outbound : Bool) (bytes : List ℕ) (t : TransitService)
    → From ch outbound t
    → From ch outbound (transit_loop fuel env ch outbound bytes t).0
unfolding transit_loop
transit_loop-From zero env ch outbound bytes t f = f
transit_loop-From (suc fuel) env ch outbound bytes t f =
    by_peek (λ more t' g. transit_loop-From fuel env ch outbound more t' g)
      (fgw_segment_peek_header bytes)
  where
    by_peek :
        ((more : List ℕ) (t' : TransitService)
          → From ch outbound t'
          → From ch outbound (transit_loop fuel env ch outbound more t').0)
        → (answer : Peek)
        → From ch outbound
            (elim answer as (λ x. TransitService × List ℕ) [
              | need_more ↦ (t, bytes)
              | bad ↦ (t, [])
              | found hr hdr ↦
                  let total = hr + hdr.payload_len in
                  let next =
                    transit_loop fuel env ch outbound
                      (drop total bytes)
                      (transit_frame env ch outbound hr hdr (take total bytes) t) in
                  if ltb (length bytes) total then (t, bytes) else next
            ]).0
    by_peek rest need_more = f
    by_peek rest bad = f
    by_peek rest (found hr hdr) =
        let total = hr + hdr.payload_len in
        if_either (λ (x : TransitService × List ℕ). From ch outbound x.0) (ltb (length bytes) total)
          (t, bytes) _ f
          (rest (drop total bytes) (transit_frame env ch outbound hr hdr (take total bytes) t)
            (transit_frame-From env ch outbound hr hdr (take total bytes) t f))

-- The link's buffer is put back.
buffered-InRoute :
    (ch : ℕ) (link : Link) (t : TransitService)
    → From ch link.outbound t
    → InRoute (record t { links = insert ch link t.links })
unfolding From
buffered-InRoute ch link t (r, known) =
    same-Routed t.links (insert ch link t.links) t.outbound_by_outport t.inbound_by_ingress
      t.next_object same r
  where
    same : (p : ℕ) → direction p (insert ch link t.links) ≡ direction p t.links
    same p = elim (Bool-cases (ch == p)) [
      | inl e ↦
          direction-insert ch p link t.links
          ∙ ground (
            arith,
            known,
            subst (λ (q : ℕ). direction q t.links ≡ some link.outbound) ((==_iff ch p).0 e) known,
          )
      | inr e ↦ ground (arith, direction-insert ch p link t.links)
    ]

pub on_link_bytes-InRoute :
    (env : TransitEnv) (ch : ℕ) (arrived : List ℕ) (t : TransitService)
    → InRoute t
    → InRoute (on_link_bytes env ch arrived t)
unfolding on_link_bytes From direction
on_link_bytes-InRoute env ch arrived t r = option_both InRoute (lookup ch t.links) t _ r (λ link e.
    let bytes = link.buffer ++ arrived in
    let ran = transit_loop (length bytes) env ch link.outbound bytes t in
    buffered-InRoute ch (record link { buffer = ran.1 }) ran.0
      (transit_loop-From (length bytes) env ch link.outbound bytes t (r, ground arith)))

pub make_inbound_channel-InRoute :
    (t : TransitService) → InRoute t → InRoute (make_inbound_channel t)
unfolding make_inbound_channel
make_inbound_channel-InRoute t r =
    accepted-Routed t.links t.outbound_by_outport t.inbound_by_ingress t.next_object
      (record { outbound = false; buffer = [] }) r

pub on_drop_link-InRoute : (ch : ℕ) (t : TransitService) → InRoute t → InRoute (on_drop_link ch t)
unfolding on_drop_link schedule_redial
on_drop_link-InRoute ch t r =
    let dropped =
      dropped-Routed t.links t.outbound_by_outport t.inbound_by_ingress t.next_object ch r in
    option_both InRoute (lookup ch t.links) t _ r (λ link e.
      if_either InRoute link.outbound _ _
        (option_both InRoute (served_by ch t.outbound_by_outport) _ _ dropped (λ id f. dropped))
        dropped)

send_heartbeat-InRoute :
    (env : TransitEnv) (p : ℕ) (t : TransitService) → InRoute t → InRoute (send_heartbeat env p t)
unfolding send_heartbeat send_frame
send_heartbeat-InRoute env p t r =
    result_both InRoute
      (fgw_segment_encode (some (replicate 64 0))
        (record default_header { flags = flag_heartbeat; ingress_id = t.config.ingress_id }) none
        (pos 0))
      _ _ (λ x. r) (λ e. r)

pub heartbeat_links-InRoute :
    (env : TransitEnv) (m : Map ℕ Link) (t : TransitService)
    → InRoute t
    → InRoute (heartbeat_links env m t)
unfolding heartbeat_links
heartbeat_links-InRoute env [] t r = r
heartbeat_links-InRoute env ((p, link) ∷ m) t r =
    heartbeat_links-InRoute env m (if (t.objects p).connected then send_heartbeat env p t else t) (
      if_either InRoute (t.objects p).connected (send_heartbeat env p t) t
        (send_heartbeat-InRoute env p t r) r)
