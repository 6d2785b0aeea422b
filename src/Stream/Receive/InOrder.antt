-- ===== src/Stream/Receive/InOrder.antt =====
-- Data segments of one session, in any order, with copies, over any channels: the handler gets
-- the payloads in the order of their sequence numbers, each once.
use libfgw.Prelude.{
  ℕ, ◌+◌, ◌<◌, ◌≤◌, ◌≡◌, ◌⊎◌, inl, inr, refl, sym, ap, subst, ap₂, has_key-emplace_self,
  has_key-emplace_old, ◌∙◌, true, false, List, [], ◌∷◌, ◌++◌, some, ltb, Bool-cases, length, Map,
  lookup, insert, emplace, has_key, lookup-insert_self, nat_ord, pair_ord, arith,
}
use libfgw.Segment.Header.{FgwSegmentHeader}
use libfgw.Stream.State.{SessionState, DataStream, dedup_ord}
use libfgw.Stream.Deliver.{collect, deliver_blocks}
use libfgw.Stream.Deliver.Order.{
  segments, segments-append, Buffered, Buffered-weaken, Buffered-absent, emplace-Buffered,
  Collected, collect-Collected,
}
use libfgw.Stream.Receive.{
  on_segment, on_data, accept_segment, note_loss, outside_window, carries_data,
}
use libfgw.Stream.Receive.Quiet.{Delivered, delivered, deliver_segments, on_data_lem}
use libfgw.Stream.Receive.Receiving.{
  data_key, IsDataOf, Got, Transfer, Receiving, Took, data_key_lem, copy-Took, outside_past,
  inside_ahead, before, before_same, seen-before,
}

module _ (g : Transfer) where
  -- The buffer with the new payload, and the run that the first loop takes from it.
  abbrev buffer : ℕ → SessionState → Map ℕ (List ℕ)
  buffer k st = emplace k (g.p k) st.rx_buffer

  abbrev run : ℕ → SessionState → List (List ℕ) × ℕ × Map ℕ (List ℕ)
  run k st = collect st.expected_rx_seq (buffer k st)

  abbrev after_run : ℕ → SessionState → SessionState
  after_run k st = record st { expected_rx_seq = (run k st).1; rx_buffer = (run k st).2 }

  abbrev stored : ℕ → SessionState → DataStream → DataStream
  stored k st t = record t {
    sessions =
        insert g.key (after_run k st)
          (insert g.key (record st { rx_buffer = buffer k st }) t.sessions);
  }

  run-Collected :
      (k : ℕ) (s : DataStream) (r : Receiving g s)
      → k < g.n
      → r.st.expected_rx_seq ≤ k
      → Collected g.p g.n r.st.expected_rx_seq (buffer k r.st) (run k r.st)
  run-Collected k s r kn ek =
      collect-Collected g.p g.n r.st.expected_rx_seq (buffer k r.st) (omega arith) (
        emplace-Buffered (g.p) g.n r.st.expected_rx_seq k r.st.rx_buffer ek kn (
          Buffered-weaken g.p g.n r.st.expected_rx_seq (r.st.expected_rx_seq + 1) r.st.rx_buffer
            (omega arith) r.waiting))

  on_data_at :
      (k : ℕ) (hdr : FgwSegmentHeader) (s : DataStream) (st : SessionState)
      → IsDataOf g.key k (g.p k) hdr
      → lookup g.key s.sessions ≡ some st
      → st.handler ≡ some g.h
      → st.session_id ≡ g.sid
      → on_data g.env hdr (g.p k) s ≡ deliver_blocks g.env g.h g.sid ((run k st).0) (stored k st s)
  on_data_at k hdr s st d at handled id =
      rw (sym d.of_key, sym d.of_seq, sym id)
        (on_data_lem g.env hdr (g.p hdr.seq_num) s st g.h
          (ap (λ x. lookup x s.sessions) d.of_key ∙ at) handled reserved)
    where
      reserved : hdr.payload_len ≤ length (g.env.acquire hdr.payload_len)
      reserved = rw d.of_len (g.room k)

  -- What the calls leave is a receiver again, further on by the run.
  ran-Receiving :
      (k : ℕ) (s t t' : DataStream) (r : Receiving g s)
      → k < g.n
      → r.st.expected_rx_seq ≤ k
      → t.calls ≡ s.calls
      → t.recv_window ≡ s.recv_window
      → ((j : ℕ)
          → has_key (data_key g.key j) t.dedup_map ≡ true
          → (k ≡ j) ⊎ (has_key (data_key g.key j) s.dedup_map ≡ true))
      → Delivered g.env g.key g.quiet g.p g.full g.h g.sid (after_run k r.st) ((run k r.st).0) t t'
      → Took g k s t' r
  ran-Receiving k s t t' r kn ek tc tw td done = record {
    after = record {
      st = done.now;
      found_at = done.at;
      handled = done.same.same_handler ∙ r.handled;
      id_is = done.same.same_id ∙ r.id_is;
      waiting =
          subst (λ (b : Map ℕ (List ℕ)). Buffered (g.p) g.n (done.now.expected_rx_seq + 1) b)
            (sym done.same.same_buffer)
            (subst (λ (e : ℕ). Buffered (g.p) g.n (e + 1) (run k r.st).2)
              (sym done.same.same_expected) c.left);
      up_to = omega (arith, c.bounded, done.same.same_expected, r.up_to);
      logged =
          done.log
          ∙ ap₂ ◌++◌ (ap (delivered g.h g.sid) tc ∙ r.logged) c.ready
          ∙ segments-append g.p 0 r.st.expected_rx_seq r.st.expected_rx_seq (length (run k r.st).0)
              (omega arith)
          ∙ ap (segments g.p 0) (sym (done.same.same_expected ∙ c.next));
      seen = λ j e. elim (td j (ap (has_key (data_key g.key j)) (sym done.dedup) ∙ e)) [
        | inl same ↦ subst (λ x. Got x done.now) same got
        | inr old ↦ keep j (r.seen j old)
      ];
      window_is = done.window ∙ tw ∙ r.window_is;
    };
    took = got;
    keeps = keep;
  }
    where
      c : Collected g.p g.n r.st.expected_rx_seq (buffer k r.st) (run k r.st)
      c = run-Collected k s r kn ek

      moved : (j : ℕ) → Got j (after_run k r.st) → Got j done.now
      moved j (inl lt) = inl (rw done.same.same_expected lt)
      moved j (inr has) = inr (rw done.same.same_buffer has)

      got : Got k done.now
      got = moved k (c.kept k (has_key-emplace_self k (g.p k) r.st.rx_buffer))

      keep : (j : ℕ) → Got j r.st → Got j done.now
      keep j (inl lt) = moved j (inl (omega (arith, c.next)))
      keep j (inr has) = moved j (c.kept j (has_key-emplace_old k j (g.p k) r.st.rx_buffer has))

  -- A new segment inside the window.
  fresh-Took :
      (k ch : ℕ) (hdr : FgwSegmentHeader) (s : DataStream) (r : Receiving g s)
      → IsDataOf g.key k (g.p k) hdr
      → k < g.n
      → r.st.expected_rx_seq ≤ k
      → Took g k s (on_data g.env hdr (g.p k) (before g k ch s)) r
  fresh-Took k ch hdr s r d kn ek =
      let same = before_same g k ch s in
      let t = before g k ch s in
      let found : lookup g.key t.sessions ≡ some r.st = ap (lookup g.key) same.0 ∙ r.found_at in
      rw (on_data_at k hdr t r.st d found r.handled r.id_is) (
        ran-Receiving k s (stored k r.st t) _ r kn ek same.1 same.2
          (λ j e. seen-before g k j ch s e)
          (subst
            (λ l.
              Delivered g.env g.key g.quiet g.p g.full g.h g.sid (after_run k r.st) l
                (stored k r.st t) (deliver_blocks g.env g.h g.sid l (stored k r.st t)))
            (sym (run-Collected k s r kn ek).ready)
            (deliver_segments g.env g.key g.quiet g.p g.full g.h g.sid r.st.expected_rx_seq
              (length (run k r.st).0) (after_run k r.st) (stored k r.st t)
              (lookup-insert_self g.key (after_run k r.st)
                (insert g.key (record (r.st) { rx_buffer = buffer k r.st }) t.sessions)))))

  on_segment_copy :
      (k ch : ℕ) (hdr : FgwSegmentHeader) (s : DataStream)
      → IsDataOf g.key k (g.p k) hdr
      → has_key (data_key g.key k) s.dedup_map ≡ true
      → on_segment g.env ch hdr (g.p k) s ≡ note_loss ch s
  unfolding on_segment
  on_segment_copy k ch hdr s d dup = rw (data_key_lem g k hdr d, dup) refl

  on_segment_late :
      (k ch : ℕ) (hdr : FgwSegmentHeader) (s : DataStream)
      → IsDataOf g.key k (g.p k) hdr
      → has_key (data_key g.key k) s.dedup_map ≡ false
      → outside_window s hdr ≡ true
      → on_segment g.env ch hdr (g.p k) s ≡ s
  unfolding on_segment
  on_segment_late k ch hdr s d new out = rw (data_key_lem g k hdr d, new, out) refl

  on_segment_new :
      (k ch : ℕ) (hdr : FgwSegmentHeader) (s : DataStream)
      → IsDataOf g.key k (g.p k) hdr
      → has_key (data_key g.key k) s.dedup_map ≡ false
      → outside_window s hdr ≡ false
      → on_segment g.env ch hdr (g.p k) s ≡ on_data g.env hdr (g.p k) (before g k ch s)
  unfolding on_segment accept_segment before
  on_segment_new k ch hdr s d new inside =
      let carries : carries_data hdr ≡ true =
        unfold carries_data in ground (arith, g.full k, d.of_len, d.with_data) in
      rw (data_key_lem g k hdr d, new, inside, d.no_syn, d.no_fin, carries) refl

  -- One segment, however often it came before g.
  pub step-Took :
      (k ch : ℕ) (hdr : FgwSegmentHeader) (s : DataStream) (r : Receiving g s)
      → IsDataOf g.key k (g.p k) hdr
      → k < g.n
      → Took g k s (on_segment g.env ch hdr (g.p k) s) r
  step-Took k ch hdr s r d kn = elim (Bool-cases (has_key (data_key g.key k) s.dedup_map)) [
    | inl dup ↦ rw (on_segment_copy k ch hdr s d dup) (copy-Took g k ch s r dup)
    | inr new ↦ elim (Bool-cases (outside_window s hdr)) [
      | inl out ↦
          rw (on_segment_late k ch hdr s d new out)
            (record { after = r; took = inl (outside_past g k hdr s r d kn out); keeps = λ j g. g })
      | inr inside ↦
          rw (on_segment_new k ch hdr s d new inside)
            (fresh-Took k ch hdr s r d kn (inside_ahead g k hdr s r d kn inside))
    ]
  ]

  -- A segment on its way: the channel that it comes in on, and its header.
  pub record Arrival : Type 0 where
    pub channel : ℕ
    pub seq : ℕ
    pub hdr : FgwSegmentHeader
    pub below : seq < g.n
    pub is_data_of : IsDataOf g.key seq (g.p seq) hdr

  -- The segments of `xs`, one after the other.
  abbrev pub receive : List Arrival → DataStream → DataStream
  receive [] s = s
  receive (a ∷ xs) s = receive xs (on_segment g.env a.channel a.hdr (g.p a.seq) s)

  -- Number `k` is among them.
  abbrev pub Comes : ℕ → List Arrival → Type 0
  Comes k [] = ⊥
  Comes k (a ∷ xs) = (a.seq ≡ k) ⊎ Comes k xs

  receive-Got :
      (xs : List Arrival) (s : DataStream) (r : Receiving g s)
      → (r' : Receiving g (receive xs s)) × ((j : ℕ) → Got j r.st → Got j r'.st)
        × ((j : ℕ) → Comes j xs → Got j r'.st)
  receive-Got [] s r = (r, λ j x. x, λ j c. absurd c)
  receive-Got (a ∷ xs) s r =
      let one = step-Took a.seq a.channel a.hdr s r a.is_data_of a.below in
      let rest = receive-Got xs (on_segment g.env a.channel a.hdr (g.p a.seq) s) one.after in
      (
        rest.0,
        λ j x. rest.1 j (one.keeps j x),
        λ j c. elim c [
          | inl same ↦ rest.1 j (subst (λ x. Got x one.after.st) same one.took)
          | inr later ↦ rest.2 j later
        ],
      )

  -- The session at its start: nothing delivered, nothing buffered, none of its segments known.
  pub record Starts (s : DataStream) : Type 0 where
    pub st : SessionState
    pub found_at : lookup g.key s.sessions ≡ some st
    pub handled : st.handler ≡ some g.h
    pub id_is : st.session_id ≡ g.sid
    pub from_zero : st.expected_rx_seq ≡ 0
    pub empty : st.rx_buffer ≡ []
    pub window_is : s.recv_window ≡ g.w
    pub unseen : (k : ℕ) → has_key (data_key g.key k) s.dedup_map ≡ false
    pub silent : delivered g.h g.sid s.calls ≡ []

  pub Starts-Receiving : (s : DataStream) → Starts s → Receiving g s
  Starts-Receiving s i = record {
    st = i.st;
    found_at = i.found_at;
    handled = i.handled;
    id_is = i.id_is;
    waiting = rw i.empty tt;
    up_to = rw i.from_zero (omega arith);
    logged = i.silent ∙ ap (segments g.p 0) (sym i.from_zero);
    seen = λ k e. ground (arith, i.unseen k, e);
    window_is = i.window_is;
  }

  -- Past the last segment that was taken in, nothing waits.
  pub all_taken :
      (m : ℕ) (s : DataStream) (r : Receiving g s)
      → ((k : ℕ) → k < m → Got k r.st)
      → m ≤ r.st.expected_rx_seq
  all_taken m s r got = elim (Bool-cases (ltb r.st.expected_rx_seq m)) [
    | inl short ↦ elim (got r.st.expected_rx_seq (ground arith)) [
      | inl lt ↦ omega arith
      | inr has ↦
          let absent =
            Buffered-absent g.p g.n (r.st.expected_rx_seq + 1) r.st.expected_rx_seq r.st.rx_buffer
              (omega arith) r.waiting in
          ground (arith, absent, has)
    ]
    | inr past ↦ ground arith
  ]

  -- A session that starts empty is sent segments of one transfer, in any order, over any channels
  -- and with any number of copies: its window is below 2 ^ 16 and not smaller than the transfer, no
  -- payload is empty, blocks can be had for all, and the handlers, while called, end no session of
  -- this key and leave the duplicate table, the window and the log of calls alone. When every
  -- segment below `m` has come, the handler has been given the payloads from the first on, in order
  -- and each once, at least those `m`.
  pub in_order_delivery :
      (m : ℕ) (xs : List Arrival) (s : DataStream)
      → m ≤ g.n
      → Starts s
      → ((k : ℕ) → k < m → Comes k xs)
      → (e : ℕ) × (m ≤ e)
        × (e ≤ g.n)
        × (delivered g.h g.sid (receive xs s).calls ≡ segments g.p 0 e)
  in_order_delivery m xs s mn start all =
      let done = receive-Got xs s (Starts-Receiving s start) in
      let r : Receiving g (receive xs s) = done.0 in
      (
        r.st.expected_rx_seq,
        all_taken m (receive xs s) r (λ k km. done.2 k (all k km)),
        r.up_to,
        r.logged,
      )
