-- ===== src/Stream/Receive/Receiving.antt =====
-- A session that receives the data segments of one transfer: what holds of it between segments,
-- and what a copy, a late segment and the recording of a new one do to it.
use libfgw.Prelude.{
  ℕ, ◌+◌, ◌-◌, ◌%◌, ◌^◌, ◌<◌, ◌≤◌, ◌≡◌, ◌⊎◌, inl, inr, refl, sym, ap, ◌∙◌, true, false, List, some,
  leb, length, lookup, has_key, nat_ord, pair_ord, arith,
}
use libfgw.Segment.Header.{FgwSegmentHeader, is_data, is_syn, is_fin}
use libfgw.Stream.State.{SessionState, DataStream, DedupKey, dedup_ord, Env}
use libfgw.Stream.Deliver.Order.{segments, Buffered}
use libfgw.Stream.Receive.{
  note_loss, note_win, record_key, dedup_key, session_key, outside_window, carries_data,
  expected_of,
}
use libfgw.Stream.Receive.Dedup.{record_key-Recorded}
use libfgw.Stream.Receive.Quiet.{Quiet, delivered}

-- The dedup key of the session's data segment `k`.
abbrev pub data_key : ℕ × ℕ → ℕ → DedupKey
data_key key k = record { ingress = key.0; session = key.1; seq = k; kind = 0 }

-- A data segment of the session `key` with number `k`, and neither SYN nor FIN.
pub record IsDataOf (key : ℕ × ℕ) (k : ℕ) (payload : List ℕ) (hdr : FgwSegmentHeader) : Type 0 where
  pub of_key : session_key hdr ≡ key
  pub of_seq : hdr.seq_num ≡ k
  pub with_data : is_data hdr ≡ true
  pub no_syn : is_syn hdr ≡ false
  pub no_fin : is_fin hdr ≡ false
  pub of_len : hdr.payload_len ≡ length payload

-- Taken in: handed over, or waiting in the buffer.
abbrev pub Got : ℕ → SessionState → Type 0
Got k st = (k < st.expected_rx_seq) ⊎ (has_key k st.rx_buffer ≡ true)

-- A transfer: the handler `h` of the session `key` is due the payloads p 0, …, p (n - 1), none of
-- them empty, with the receive window `w`. Blocks can be had for the payloads.
pub record Transfer : Type 0 where
  pub env : Env
  pub key : ℕ × ℕ
  pub p : ℕ → List ℕ
  pub n : ℕ
  pub w : ℕ
  pub h : ℕ
  pub sid : ℕ
  pub quiet : Quiet env key
  pub full : (k : ℕ) → 0 < length (p k)
  pub in_window : n ≤ w
  pub small : w < 2 ^ 16
  pub room : (k : ℕ) → length (p k) ≤ length (env.acquire (length (p k)))

module _ (g : Transfer) where
  -- The receiver of the session, part of the way through.
  pub record Receiving (s : DataStream) : Type 0 where
    pub st : SessionState
    pub found_at : lookup g.key s.sessions ≡ some st
    pub handled : st.handler ≡ some g.h
    pub id_is : st.session_id ≡ g.sid
    pub waiting : Buffered (g.p) g.n (st.expected_rx_seq + 1) st.rx_buffer
    pub up_to : st.expected_rx_seq ≤ g.n
    pub logged : delivered g.h g.sid s.calls ≡ segments g.p 0 st.expected_rx_seq
    pub seen : (k : ℕ) → has_key (data_key g.key k) s.dedup_map ≡ true → Got k st
    pub window_is : s.recv_window ≡ g.w

  -- What a step achieves: the segment is taken in, and nothing that was taken in is lost.
  pub record Took (k : ℕ) (s s' : DataStream) (r : Receiving s) : Type 0 where
    pub after : Receiving s'
    pub took : Got k after.st
    pub keeps : (j : ℕ) → Got j r.st → Got j after.st

  -- Only what the receiver of the session reads has to agree.
  abbrev pub same-Receiving :
      (s s' : DataStream) (r : Receiving s)
      → s'.sessions ≡ s.sessions
      → s'.calls ≡ s.calls
      → s'.recv_window ≡ s.recv_window
      → ((k : ℕ) → has_key (data_key g.key k) s'.dedup_map ≡ true → Got k r.st)
      → Receiving s'
  same-Receiving s s' r es ec ew seen' = record {
    st = r.st;
    found_at = ap (lookup g.key) es ∙ r.found_at;
    handled = r.handled;
    id_is = r.id_is;
    waiting = r.waiting;
    up_to = r.up_to;
    logged = ap (delivered g.h g.sid) ec ∙ r.logged;
    seen = seen';
    window_is = ew ∙ r.window_is;
  }

  pub data_key_lem :
      (k : ℕ) (hdr : FgwSegmentHeader)
      → IsDataOf g.key k (g.p k) hdr
      → dedup_key hdr ≡ data_key g.key k
  unfolding dedup_key
  data_key_lem k hdr d = ground arith

  -- A copy: only the arbiter's counts change.
  pub copy-Took :
      (k ch : ℕ) (s : DataStream) (r : Receiving s)
      → has_key (data_key g.key k) s.dedup_map ≡ true
      → Took k s (note_loss ch s) r
  unfolding note_loss
  copy-Took k ch s r dup = record {
    after =
        same-Receiving s (note_loss ch s) r (ground arith) (ground arith) (ground arith)
          (λ j e. r.seen j (ap (has_key (data_key g.key j)) same_map ∙ e));
    took = r.seen k dup;
    keeps = λ j g. g;
  }
    where
      same_map : s.dedup_map ≡ (note_loss ch s).dedup_map
      same_map = ground arith

  guard_at :
      (k : ℕ) (hdr : FgwSegmentHeader) (s : DataStream) (r : Receiving s)
      → IsDataOf g.key k (g.p k) hdr
      → outside_window s hdr ≡ leb g.w ((k + 2 ^ 32 - r.st.expected_rx_seq) % 2 ^ 32)
  unfolding outside_window carries_data
  guard_at k hdr s r d =
      let expected : expected_of (session_key hdr) s.sessions ≡ r.st.expected_rx_seq =
        rw (d.of_key, r.found_at, expected_of) refl in
      let carries : carries_data hdr ≡ true = ground (arith, g.full k, d.of_len, d.with_data) in
      rw (d.of_seq, expected, r.window_is, d.with_data) (ground arith)

  -- A segment that the guard turns away was delivered before.
  pub outside_past :
      (k : ℕ) (hdr : FgwSegmentHeader) (s : DataStream) (r : Receiving s)
      → IsDataOf g.key k (g.p k) hdr
      → k < g.n
      → outside_window s hdr ≡ true
      → k < r.st.expected_rx_seq
  outside_past k hdr s r d kn out =
      ground (arith, guard_at k hdr s r d, out, r.up_to, g.in_window, g.small, kn)

  -- A segment that the guard lets through was not.
  pub inside_ahead :
      (k : ℕ) (hdr : FgwSegmentHeader) (s : DataStream) (r : Receiving s)
      → IsDataOf g.key k (g.p k) hdr
      → k < g.n
      → outside_window s hdr ≡ false
      → r.st.expected_rx_seq ≤ k
  inside_ahead k hdr s r d kn inside =
      ground (arith, guard_at k hdr s r d, inside, r.up_to, g.in_window, g.small, kn)

  -- What comes before the segment is handled: the key is recorded, the channel has won.
  unfoldable pub before : ℕ → ℕ → DataStream → DataStream
  unfolding note_win record_key
  before k ch s = note_win ch (record_key (data_key g.key k) s)

  pub before_same :
      (k ch : ℕ) (s : DataStream)
      → ((before k ch s).sessions ≡ s.sessions)
        × ((before k ch s).calls ≡ s.calls)
        × ((before k ch s).recv_window ≡ s.recv_window)
        × ((before k ch s).dedup_map ≡ (record_key (data_key g.key k) s).dedup_map)
  unfolding before note_win
  before_same k ch s =
      let rec = record_key-Recorded (data_key g.key k) s in
      (
        ground (arith, rec.same_sessions),
        ground (arith, rec.same_calls),
        ground (arith, rec.same_window),
        ground arith,
      )

  -- The key joins the table; the oldest one may leave it.
  pub seen-before :
      (k j ch : ℕ) (s : DataStream)
      → has_key (data_key g.key j) (before k ch s).dedup_map ≡ true
      → (k ≡ j) ⊎ (has_key (data_key g.key j) s.dedup_map ≡ true)
  seen-before k j ch s e =
      elim ((record_key-Recorded (data_key g.key k) s).only_old (data_key g.key j)
        (ap (has_key (data_key g.key j)) (sym (before_same k ch s).3) ∙ e)) [
          | inl same ↦ inl (ap (λ (x : DedupKey). x.seq) same)
          | inr old ↦ inr old
        ]
