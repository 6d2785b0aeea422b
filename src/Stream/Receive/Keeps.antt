-- ===== src/Stream/Receive/Keeps.antt =====
-- src/zfgw_datastream.cpp: what the receive loop keeps, whatever bytes arrive.
use libfgw.Prelude.{
  ℕ, zero, suc, ◌+◌, ◌≡◌, refl, not, ◌&&◌, List, [], ◌∷◌, ltb, ◌==◌, if◌then◌else◌, if_either,
  option_both, length, take, drop, lookup, insert, emplace, has_key, nat_ord, pair_ord,
}
use libfgw.Codes.{proto_version}
use libfgw.Segment.Header.{FgwSegmentHeader, is_hello, is_heartbeat, is_fin, is_syn, is_ack}
use libfgw.Segment.Decode.{
  Peek, need_more, bad, found, fgw_segment_peek_header, fgw_segment_verify_crc,
}
use libfgw.Link.Channel.{set_peer_identity, note_segment_recv}
use libfgw.Link.Pool.{change}
use libfgw.Stream.State.{
  SessionState, DataStream, Env, Event, FgwHello, session_open, session_close, session_data, notify,
  dedup_ord,
}
use libfgw.Stream.Deliver.{deliver_blocks, deliver_in_order, collect}
use libfgw.Stream.Receive.{
  note_generation, on_hello, on_ack, dedup_key, session_key, note_loss, note_win, carries_data,
  outside_window, record_key, ensure_session, on_syn, on_fin, on_data, accept_segment, on_segment,
  on_frame, consume,
}

-- A property of the links and the buffers of a stream that the calls on handlers keep, and the changes
-- that the receive loop makes to the links.
pub record Lasting (env : Env) (I : DataStream → Type 0) : Type 0 where
  pub same : (s s' : DataStream) → s'.links ≡ s.links → s'.scratch ≡ s.scratch → I s → I s'
  pub renamed :
      (ch a b c : ℕ) (s : DataStream)
      → I s
      → I (record s { links = change ch (set_peer_identity a b c) s.links })
  pub counted :
      (ch : ℕ) (s : DataStream) → I s → I (record s { links = change ch note_segment_recv s.links })
  pub switched :
      (id : ℕ) (s : DataStream)
      → I s
      → I (record s {
        links = record (s.links) {
          selector = record (s.links.selector) { primary_channel_id = id };
        };
      })
  pub called : (ev : Event) (s : DataStream) → I s → I (notify env ev s)

module _ (env : Env) (I : DataStream → Type 0) (lasts : Lasting env I) where
  deliver_blocks_keeps :
      (h sid : ℕ) (blocks : List (List ℕ)) (s : DataStream)
      → I s
      → I (deliver_blocks env h sid blocks s)
  unfolding deliver_blocks
  deliver_blocks_keeps h sid [] s i = i
  deliver_blocks_keeps h sid ([] ∷ blocks) s i = deliver_blocks_keeps h sid blocks s i
  deliver_blocks_keeps h sid ((b ∷ bs) ∷ blocks) s i =
      deliver_blocks_keeps h sid blocks (notify env (session_data h sid (b ∷ bs)) s)
        (lasts.called (session_data h sid (b ∷ bs)) s i)

  deliver_in_order_keeps :
      (key : ℕ × ℕ) (st : SessionState) (s : DataStream) → I s → I (deliver_in_order env key st s)
  unfolding deliver_in_order
  deliver_in_order_keeps key st s i =
      let out = collect st.expected_rx_seq st.rx_buffer in
      let taken : DataStream = record s {
        sessions = insert key (record st { expected_rx_seq = out.1; rx_buffer = out.2 }) s.sessions;
      } in
      option_both I st.handler s _ i
        (λ h e. deliver_blocks_keeps h st.session_id out.0 taken (lasts.same s taken refl refl i))

  ensure_session_keeps :
      (hdr : FgwSegmentHeader) (s : DataStream) → I s → I (ensure_session env hdr s).1
  unfolding ensure_session
  ensure_session_keeps hdr s i =
      option_both (λ (x : SessionState × DataStream). I x.1) (lookup (session_key hdr) s.sessions) _
        _ (lasts.same s _ refl refl i) (λ st e. i)

  on_syn_keeps : (hdr : FgwSegmentHeader) (s : DataStream) → I s → I (on_syn env hdr s)
  unfolding on_syn
  on_syn_keeps hdr s i =
      let made = ensure_session env hdr s in
      option_both I made.0.handler made.1 _ (ensure_session_keeps hdr s i)
        (λ h e. lasts.called (session_open h hdr.session_id) made.1 (ensure_session_keeps hdr s i))

  on_fin_keeps : (hdr : FgwSegmentHeader) (s : DataStream) → I s → I (on_fin env hdr s)
  unfolding on_fin
  on_fin_keeps hdr s i = option_both I (lookup (session_key hdr) s.sessions) s _ i (λ st e.
      option_both I st.handler _ _ (lasts.same s _ refl refl i) (λ h f.
        lasts.same (notify env (session_close h hdr.session_id) s) _ refl refl
          (lasts.called (session_close h hdr.session_id) s i)))

  on_data_keeps :
      (hdr : FgwSegmentHeader) (payload : List ℕ) (s : DataStream)
      → I s
      → I (on_data env hdr payload s)
  unfolding on_data
  on_data_keeps hdr payload s i =
      let made = ensure_session env hdr s in
      let st : SessionState =
        if ltb (length (env.acquire hdr.payload_len)) hdr.payload_len
        then made.0
        else record (made.0) { rx_buffer = emplace hdr.seq_num payload made.0.rx_buffer } in
      let placed : DataStream = record (made.1) {
        sessions = insert (session_key hdr) st made.1.sessions;
      } in
      deliver_in_order_keeps (session_key hdr) st placed
        (lasts.same made.1 placed refl refl (ensure_session_keeps hdr s i))

  accept_segment_keeps :
      (hdr : FgwSegmentHeader) (payload : List ℕ) (s : DataStream)
      → I s
      → I (accept_segment env hdr payload s)
  unfolding accept_segment
  accept_segment_keeps hdr payload s i =
      let s1 : DataStream = if is_syn hdr then on_syn env hdr s else s in
      let i1 : I s1 = if_either I (is_syn hdr) (on_syn env hdr s) s (on_syn_keeps hdr s i) i in
      if_either I (is_fin hdr) (on_fin env hdr s1) _ (on_fin_keeps hdr s1 i1) (
        if_either I (carries_data hdr) (on_data env hdr payload s1) s1
          (on_data_keeps hdr payload s1 i1) i1)

  note_loss_keeps : (ch : ℕ) (s : DataStream) → I s → I (note_loss ch s)
  unfolding note_loss
  note_loss_keeps ch s i =
      if_either I ((s.links.objects ch).peer_channel_id == 0) s _ i (lasts.same s _ refl refl i)

  note_win_keeps : (ch : ℕ) (s : DataStream) → I s → I (note_win ch s)
  unfolding note_win
  note_win_keeps ch s i =
      if_either I ((s.links.objects ch).peer_channel_id == 0) s _ i (lasts.same s _ refl refl i)

  pub on_segment_keeps :
      (ch : ℕ) (hdr : FgwSegmentHeader) (payload : List ℕ) (s : DataStream)
      → I s
      → I (on_segment env ch hdr payload s)
  unfolding on_segment record_key
  on_segment_keeps ch hdr payload s i =
      if_either I (has_key (dedup_key hdr) s.dedup_map) (note_loss ch s) _ (note_loss_keeps ch s i)
        (if_either I (outside_window s hdr) s _ i (
          accept_segment_keeps hdr payload (note_win ch (record_key (dedup_key hdr) s)) (
            note_win_keeps ch (record_key (dedup_key hdr) s)
              (lasts.same s (record_key (dedup_key hdr) s) refl refl i))))

  note_generation_keeps : (hello : FgwHello) (s : DataStream) → I s → I (note_generation hello s)
  unfolding note_generation
  note_generation_keeps hello s i =
      if_either I (not (hello.generation == 0) && not (hello.generation == s.peer_generation)) _ s
        (lasts.same s _ refl refl i) i

  on_hello_keeps :
      (ch : ℕ) (payload : List ℕ) (s : DataStream) → I s → I (on_hello env ch payload s)
  unfolding on_hello
  on_hello_keeps ch payload s i = option_both I (env.unpack_hello payload) s _ i (λ hello e.
      if_either I (hello.proto_version == proto_version) _ s
        (note_generation_keeps hello _
          (lasts.renamed ch hello.channel_id hello.ingress_id hello.outport_id s i))
        i)

  on_ack_keeps : (payload : List ℕ) (s : DataStream) → I s → I (on_ack env payload s)
  unfolding on_ack
  on_ack_keeps payload s i = option_both I (env.unpack_feedback payload) s _ i (λ fb e.
      let applied : DataStream = record s { applied_epoch = fb.decision_epoch } in
      let i1 : I applied = lasts.same s applied refl refl i in
      if_either I (ltb s.applied_epoch fb.decision_epoch) _ s
        (if_either I (fb.recommended_primary == 0) applied _ i1
          (lasts.switched fb.recommended_primary applied i1))
        i)

  pub on_frame_keeps :
      (ch hr : ℕ) (hdr : FgwSegmentHeader) (frame : List ℕ) (s : DataStream)
      → I s
      → I (on_frame env ch hr hdr frame s)
  unfolding on_frame
  on_frame_keeps ch hr hdr frame s i =
      let noted : DataStream = record s { links = change ch note_segment_recv s.links } in
      let i1 : I noted = lasts.counted ch s i in
      if_either I (s.verify_crc && not (fgw_segment_verify_crc frame hdr hr)) s _ i (
        if_either I (is_hello hdr) _ _ (on_hello_keeps ch (drop hr frame) noted i1) (
          if_either I (is_heartbeat hdr) noted _ i1 (
            if_either I (is_ack hdr) _ _ (on_ack_keeps (drop hr frame) noted i1)
              (on_segment_keeps ch hdr (drop hr frame) noted i1))))

  pub consume_keeps :
      (fuel ch : ℕ) (bytes : List ℕ) (s : DataStream) → I s → I (consume fuel env ch bytes s).0
  unfolding consume
  consume_keeps zero ch bytes s i = i
  consume_keeps (suc fuel) ch bytes s i =
      by_peek (λ more t j. consume_keeps fuel ch more t j) (fgw_segment_peek_header bytes)
    where
      by_peek :
          ((more : List ℕ) (t : DataStream) → I t → I (consume fuel env ch more t).0)
          → (answer : Peek)
          → I
              (elim answer as (λ x. DataStream × List ℕ) [
                | need_more ↦ (s, bytes)
                | bad ↦ (s, [])
                | found hr hdr ↦
                    let total = hr + hdr.payload_len in
                    let next =
                      consume fuel env ch
                        (drop total bytes)
                        (on_frame env ch hr hdr (take total bytes) s) in
                    if ltb (length bytes) total then (s, bytes) else next
              ]).0
      by_peek rest need_more = i
      by_peek rest bad = i
      by_peek rest (found hr hdr) =
          let total = hr + hdr.payload_len in
          if_either (λ (x : DataStream × List ℕ). I x.0) (ltb (length bytes) total) (s, bytes) _ i
            (rest (drop total bytes) (on_frame env ch hr hdr (take total bytes) s)
              (on_frame_keeps ch hr hdr (take total bytes) s i))
