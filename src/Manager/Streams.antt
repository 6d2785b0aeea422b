-- ===== src/Manager/Streams.antt =====
-- src/zfgw_channel_manager.cpp with src/zfgw_datastream.cpp: what the streams do to the manager's channels
-- when it hands them bytes or asks them for feedback.
use libfgw.Prelude.{
  ℕ, ◌+◌, ◌≡◌, refl, sym, ap, subst, ◌∙◌, List, [], ◌∷◌, take, length, replicate, some, ◌==◌,
  if_either, lookup, nat_ord, ◌++◌, ◌%◌, ◌^◌, option_both,
}
use libfgw.Codes.{result_both, pos}
use libfgw.Segment.Header.{default_header, flag_ack}
use libfgw.Segment.Encode.{fgw_segment_encode}
use libfgw.Link.Channel.{FgwChannel, set_peer_identity, note_segment_recv, add_recv_bytes}
use libfgw.Link.Pool.{Links, change, live_channels}
use libfgw.Stream.State.{DataStream, Env, FgwLinkFeedback, notify}
use libfgw.Stream.Send.{send_on}
use libfgw.Stream.Arbiter.{send_to_live, send_feedback, emit_feedback, recommended_primary, halve}
use libfgw.Stream.Receive.{on_channel_bytes}
use libfgw.Stream.Receive.Keeps.{Lasting, consume_keeps}
use libfgw.Manager.State.{ChannelManager}
use libfgw.Manager.Traffic.{with_stream, each_stream, dispatch_channel_bytes}
use libfgw.Manager.Table.{TableOk, Tame, changed-TableOk}
use libfgw.Manager.Steps.{InOrder, Mild, Gentle}
use libfgw.Manager.Order.{Tame-send}

abbrev pub LinksOk : ℕ → Links → Type 0
LinksOk next l = TableOk l.objects l.channels next

-- Links with the same channels, ids and sockets.
alike-LinksOk :
    (next : ℕ) (l l' : Links)
    → l'.channels ≡ l.channels
    → ((p : ℕ) → (l'.objects p).channel_id ≡ (l.objects p).channel_id)
    → ((p : ℕ) → (l'.objects p).has_tcp ≡ (l.objects p).has_tcp)
    → LinksOk next l
    → LinksOk next l'
alike-LinksOk next l l' channels ids sockets table = record {
  keyed = λ id p h. ids p ∙ table.keyed id p (sym (ap (lookup id) channels) ∙ h);
  fresh = λ id p h. table.fresh id p (sym (ap (lookup id) channels) ∙ h);
  owned = λ p h.
      ap (lookup (l'.objects p).channel_id) channels
      ∙ ap (λ (id : ℕ). lookup id l.channels) (ids p)
      ∙ table.owned p (sym (sockets p) ∙ h);
}

change-LinksOk :
    (next p : ℕ) (f : FgwChannel → FgwChannel) (l : Links)
    → Tame (l.objects p) (f (l.objects p))
    → LinksOk next l
    → LinksOk next (change p f l)
unfolding change
change-LinksOk next p f l t table = changed-TableOk p f l.objects l.channels next t table

Tame-renamed : (a b c : ℕ) (ch : FgwChannel) → Tame ch (set_peer_identity a b c ch)
unfolding set_peer_identity
Tame-renamed a b c ch = record { same_id = refl; no_socket = λ h. h }

Tame-counted : (ch : FgwChannel) → Tame ch (note_segment_recv ch)
unfolding note_segment_recv
Tame-counted ch = record { same_id = refl; no_socket = λ h. h }

pub Tame-received : (now n : ℕ) (ch : FgwChannel) → Tame ch (add_recv_bytes now n ch)
unfolding add_recv_bytes
Tame-received now n ch = record { same_id = refl; no_socket = λ h. h }

links-Lasting : (env : Env) (next : ℕ) → Gentle env → Lasting env (λ s. LinksOk next s.links)
unfolding notify
links-Lasting env next gentle = record {
  same = λ s s' links scratch table. subst (LinksOk next) (sym links) table;
  renamed = λ ch a b c s table.
      change-LinksOk next ch (set_peer_identity a b c) s.links
        (Tame-renamed a b c (s.links.objects ch)) table;
  counted = λ ch s table.
      change-LinksOk next ch note_segment_recv s.links (Tame-counted (s.links.objects ch)) table;
  switched = λ id s table. table;
  called = λ ev s table.
      let logged : DataStream = record s { calls = s.calls ++ ev ∷ [] } in
      alike-LinksOk next s.links (env.react ev logged).links ((gentle ev).keeps_channels logged)
        ((gentle ev).keeps_ids logged) ((gentle ev).keeps_sockets logged) table;
}

on_channel_bytes-LinksOk :
    (env : Env) (next p : ℕ) (bytes : List ℕ) (s : DataStream)
    → Gentle env
    → LinksOk next s.links
    → LinksOk next (on_channel_bytes env p bytes s).links
unfolding on_channel_bytes
on_channel_bytes-LinksOk env next p bytes s gentle table =
    consume_keeps env (λ t. LinksOk next t.links) (links-Lasting env next gentle) _ p _ s table

send_to_live-LinksOk :
    (env : Env) (next : ℕ) (frame : List ℕ) (ps : List ℕ) (s : DataStream)
    → LinksOk next s.links
    → LinksOk next (send_to_live env frame ps s).links
unfolding send_to_live send_on
send_to_live-LinksOk env next frame [] s table = table
send_to_live-LinksOk env next frame (p ∷ ps) s table =
    send_to_live-LinksOk env next frame ps (send_on env p frame s).1 (
      change-LinksOk next p _ s.links
        (Tame-send (length (env.acquire (length frame))) (length frame)
          (env.tcp_write s.wire p frame) (s.links.objects p))
        table)

send_feedback-LinksOk :
    (env : Env) (next : ℕ) (fb : FgwLinkFeedback) (s : DataStream)
    → LinksOk next s.links
    → LinksOk next (send_feedback env fb s).links
unfolding send_feedback
send_feedback-LinksOk env next fb s table =
    let kept : DataStream → Type 0 = λ t. LinksOk next t.links in
    option_both kept (env.pack_feedback fb) s _ table (λ payload e.
      result_both kept
        (fgw_segment_encode (some (replicate 128 0))
          (record default_header {
            flags = flag_ack;
            payload_len = length payload % 2 ^ 16;
            ingress_id = s.local_ingress_id;
          })
          (some payload) (pos (length payload)))
        _ _ (λ f. table)
        (λ x. send_to_live-LinksOk env next (take x.0 x.1) (live_channels s.links) s table))

list_both :
    {A B : Type 0} (P : A → Type 0) (xs : List B) (a : A) (f : B → List B → A)
    → P a
    → ((b : B) (bs : List B) → P (f b bs))
    → P (elim xs [ [] ↦ a | b ∷ bs ↦ f b bs ])
list_both P [] a f pa pf = pa
list_both P (b ∷ bs) a f pa pf = pf b bs

emit_feedback-LinksOk :
    (env : Env) (next : ℕ) (s : DataStream)
    → LinksOk next s.links
    → LinksOk next (emit_feedback env s).links
unfolding emit_feedback
emit_feedback-LinksOk env next s table =
    let kept : DataStream → Type 0 = λ t. LinksOk next t.links in
    let decayed : DataStream = record s {
      peer_win_count = halve s.peer_win_count;
      peer_part_count = halve s.peer_part_count;
    } in
    list_both kept s.peer_part_count s _ table (λ kv m.
      if_either kept (recommended_primary env s == 0) decayed _ table (
        send_feedback-LinksOk env next _
          (record decayed { feedback_epoch = (s.feedback_epoch + 1) % 2 ^ 32 }) table))

-- A call of each stream.
each_stream-InOrder :
    (call : DataStream → DataStream) (qs : List ℕ) (m : ChannelManager)
    → ((s : DataStream) → LinksOk m.next_object s.links → LinksOk m.next_object (call s).links)
    → InOrder m
    → InOrder (each_stream call qs m)
unfolding each_stream with_stream
each_stream-InOrder call [] m keeps inv = inv
each_stream-InOrder call (q ∷ qs) m keeps inv =
    each_stream-InOrder call qs (with_stream q call m) keeps
      (keeps (record (m.streams q) { links = m.links; wire = m.wire }) inv)

pub dispatch_channel_bytes-InOrder :
    (env : Env) (p : ℕ) (bytes : List ℕ) (m : ChannelManager)
    → Gentle env
    → InOrder m
    → InOrder (dispatch_channel_bytes env p bytes m)
unfolding dispatch_channel_bytes
dispatch_channel_bytes-InOrder env p bytes m gentle inv =
    each_stream-InOrder (on_channel_bytes env p bytes) m.bytes_subscribers m
      (λ s table. on_channel_bytes-LinksOk env m.next_object p bytes s gentle table) inv

pub feedback-InOrder :
    (env : Env) (m : ChannelManager)
    → InOrder m
    → (qs : List ℕ) → InOrder (each_stream (emit_feedback env) qs m)
feedback-InOrder env m inv qs =
    each_stream-InOrder (emit_feedback env) qs m
      (λ s table. emit_feedback-LinksOk env m.next_object s table) inv

pub with_stream-InOrder :
    (q : ℕ) (call : DataStream → DataStream) (m : ChannelManager)
    → Mild call
    → InOrder m
    → InOrder (with_stream q call m)
unfolding with_stream
with_stream-InOrder q call m mild inv =
    let s : DataStream = record (m.streams q) { links = m.links; wire = m.wire } in
    alike-LinksOk m.next_object m.links (call s).links (mild.keeps_channels s) (mild.keeps_ids s)
      (mild.keeps_sockets s) inv
