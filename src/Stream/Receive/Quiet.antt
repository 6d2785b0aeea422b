-- ===== src/Stream/Receive/Quiet.antt =====
-- What the delivery theorems ask of the session handlers, and what deliverInOrder then does.
use libfgw.Prelude.{
  ℕ, zero, suc, ◌+◌, ◌<◌, ◌≤◌, ◌≡◌, refl, sym, ap, ◌∙◌, false, ◌&&◌, List, [], ◌∷◌, ◌++◌,
  append_assoc, append-nil, Option, some, none, ltb, ◌==◌, if◌then◌else◌, length, lookup, insert,
  emplace, nat_ord, pair_ord, arith,
}
use libfgw.Segment.Header.{FgwSegmentHeader}
use libfgw.Stream.State.{
  SessionState, DataStream, Env, Event, session_open, session_data, session_close, notify,
}
use libfgw.Stream.Deliver.{collect, deliver_blocks, deliver_in_order}
use libfgw.Stream.Deliver.Order.{segments}
use libfgw.Stream.Receive.{ensure_session, on_data, session_key}

-- The payloads that the handler `h` was given for the session id `sid`.
unfoldable pub delivered : ℕ → ℕ → List Event → List (List ℕ)
delivered h sid [] = []
delivered h sid (session_open a b ∷ evs) = delivered h sid evs
delivered h sid (session_data a b bytes ∷ evs) =
    let rest = delivered h sid evs in if a == h && b == sid then bytes ∷ rest else rest
delivered h sid (session_close a b ∷ evs) = delivered h sid evs

delivered-append :
    (h sid : ℕ) (xs : List Event) (bytes : List ℕ)
    → delivered h sid (xs ++ session_data h sid bytes ∷ []) ≡ delivered h sid xs ++ bytes ∷ []
unfolding delivered
delivered-append h sid [] bytes = ground arith
delivered-append h sid (session_open a b ∷ evs) bytes = delivered-append h sid evs bytes
delivered-append h sid (session_data a b xs ∷ evs) bytes =
    ground (arith, delivered-append h sid evs bytes)
delivered-append h sid (session_close a b ∷ evs) bytes = delivered-append h sid evs bytes

-- The receiving half of a session is the same.
pub record SameRx (a b : SessionState) : Type 0 where
  pub same_id : b.session_id ≡ a.session_id
  pub same_expected : b.expected_rx_seq ≡ a.expected_rx_seq
  pub same_buffer : b.rx_buffer ≡ a.rx_buffer
  pub same_handler : b.handler ≡ a.handler

-- A handler, called for the session of `key`, may send on the stream, but does not end the
-- session; it makes no calls on handlers itself and does not touch the receiver's tables.
pub record Quiet (env : Env) (key : ℕ × ℕ) : Type 0 where
  pub keeps_session :
      (ev : Event) (s : DataStream) (st : SessionState)
      → lookup key s.sessions ≡ some st
      → (st' : SessionState) × (lookup key (env.react ev s).sessions ≡ some st') × SameRx st st'
  pub keeps_calls : (ev : Event) (s : DataStream) → (env.react ev s).calls ≡ s.calls
  pub keeps_dedup : (ev : Event) (s : DataStream) → (env.react ev s).dedup_map ≡ s.dedup_map
  pub keeps_window : (ev : Event) (s : DataStream) → (env.react ev s).recv_window ≡ s.recv_window

module _ (env : Env) (key : ℕ × ℕ) (quiet : Quiet env key) (p : ℕ → List ℕ)
    (full : (k : ℕ) → 0 < length (p k)) (h sid : ℕ) where
  -- What is left as it was, and what was delivered, by a row of calls.
  pub record Delivered (st : SessionState) (more : List (List ℕ)) (t t' : DataStream) : Type 0 where
    pub now : SessionState
    pub at : lookup key t'.sessions ≡ some now
    pub same : SameRx st now
    pub log : delivered h sid t'.calls ≡ delivered h sid t.calls ++ more
    pub dedup : t'.dedup_map ≡ t.dedup_map
    pub window : t'.recv_window ≡ t.recv_window

  SameRx-trans : {a b c : SessionState} → SameRx a b → SameRx b c → SameRx a c
  SameRx-trans f g = record {
    same_id = g.same_id ∙ f.same_id;
    same_expected = g.same_expected ∙ f.same_expected;
    same_buffer = g.same_buffer ∙ f.same_buffer;
    same_handler = g.same_handler ∙ f.same_handler;
  }

  -- One call, and then those of `rest`.
  Delivered-cons :
      (b : List ℕ) (blocks : List (List ℕ)) (st : SessionState) (t : DataStream)
      → 0 < length b
      → lookup key t.sessions ≡ some st
      → ((st1 : SessionState) (t1 : DataStream)
          → lookup key t1.sessions ≡ some st1
          → Delivered st1 blocks t1 (deliver_blocks env h sid blocks t1))
      → Delivered st (b ∷ blocks) t (deliver_blocks env h sid (b ∷ blocks) t)
  unfolding deliver_blocks notify
  Delivered-cons [] blocks st t pos found rest = absurd (omega arith)
  Delivered-cons (x ∷ xs) blocks st t pos found rest =
      let ev = session_data h sid (x ∷ xs) in
      let t0 : DataStream = record t { calls = t.calls ++ ev ∷ [] } in
      let (st1, found1, same1) = quiet.keeps_session ev t0 st found in
      let done = rest st1 (env.react ev t0) found1 in
      record {
        now = done.now;
        at = done.at;
        same = SameRx-trans same1 done.same;
        log =
            done.log
            ∙ ap (λ l. l ++ blocks)
                (ap (delivered h sid) (quiet.keeps_calls ev t0)
                  ∙ delivered-append h sid t.calls (x ∷ xs))
            ∙ append_assoc (delivered h sid t.calls) ((x ∷ xs) ∷ []) blocks;
        dedup = done.dedup ∙ quiet.keeps_dedup ev t0;
        window = done.window ∙ quiet.keeps_window ev t0;
      }

  pub deliver_segments :
      (e n : ℕ) (st : SessionState) (t : DataStream)
      → lookup key t.sessions ≡ some st
      → Delivered st (segments p e n) t (deliver_blocks env h sid (segments p e n) t)
  unfolding deliver_blocks
  deliver_segments e zero st t found = record {
    now = st;
    at = found;
    same = record { same_id = refl; same_expected = refl; same_buffer = refl; same_handler = refl };
    log = sym (append-nil _);
    dedup = refl;
    window = refl;
  }
  deliver_segments e (suc n) st t found =
      Delivered-cons (p e) (segments p (e + 1) n) st t (full e) found
        (λ st1 t1 found1. deliver_segments (e + 1) n st1 t1 found1)

deliver_handled :
    (env : Env) (key : ℕ × ℕ) (st : SessionState) (s : DataStream) (h : ℕ)
    → st.handler ≡ some h
    → let out = collect st.expected_rx_seq st.rx_buffer in
      deliver_in_order env key st s
      ≡ deliver_blocks env h st.session_id out.0 (record s {
        sessions = insert key (record st { expected_rx_seq = out.1; rx_buffer = out.2 }) s.sessions;
      })
unfolding deliver_in_order
deliver_handled env key st s h handled =
    ap
      (λ (o : Option ℕ).
        let out = collect st.expected_rx_seq st.rx_buffer in
        let t : DataStream = elim o [
          | none ↦ s
          | some a ↦ deliver_blocks env a st.session_id out.0 (record s {
            sessions =
                insert key (record st { expected_rx_seq = out.1; rx_buffer = out.2 }) s.sessions;
          })
        ] in
        t)
      handled

-- A data segment of a session that is there: the payload is buffered, then the run from the
-- expected number on is handed over.
pub on_data_lem :
    (env : Env) (hdr : FgwSegmentHeader) (payload : List ℕ) (s : DataStream) (st : SessionState)
    (h : ℕ)
    → lookup (session_key hdr) s.sessions ≡ some st
    → st.handler ≡ some h
    → hdr.payload_len ≤ length (env.acquire hdr.payload_len)
    → let buffer = emplace hdr.seq_num payload st.rx_buffer in
      let out = collect st.expected_rx_seq buffer in
      on_data env hdr payload s
      ≡ deliver_blocks env h st.session_id out.0 (record s {
        sessions =
            insert
              (session_key hdr)
              (record st { expected_rx_seq = out.1; rx_buffer = out.2 })
              (insert (session_key hdr) (record st { rx_buffer = buffer }) s.sessions);
      })
unfolding on_data ensure_session deliver_in_order
on_data_lem env hdr payload s st h found handled room =
    let fits : ltb (length (env.acquire hdr.payload_len)) hdr.payload_len ≡ false = ground arith in
    rw (found, on_data, ensure_session)
      (rw (fits, on_data)
        (deliver_handled env (session_key hdr)
          (record st { rx_buffer = emplace hdr.seq_num payload st.rx_buffer }) _ h handled))
