-- ===== src/Stream/Tunnel/Tests.antt =====
-- The theorem on both ends of a session, at concrete streams.
use libfgw.Prelude.{
  ℕ, zero, suc, ◌<◌, length-replicate, ◌≡◌, refl, sym, subst, inl, inr, true, List, [], ◌∷◌, ◌++◌,
  All, some, concat, lookup, has_key, nat_ord, pair_ord, arith,
}
use libfgw.Segment.Header.{has_flag}
use libfgw.Segment.Encode.{fgw_segment_encode}
use libfgw.Link.Channel.{tcp, new_channel, is_live, add_sent_bytes}
use libfgw.Link.Selector.{fresh_selector, select}
use libfgw.Link.Pool.{live_channels, find_live, change}
use libfgw.Stream.State.{SessionState, fresh_session, DataStream}
use libfgw.Stream.Send.{data_stream, send_session_data, resolve_ingress_key}
use libfgw.Stream.Send.Pieces.{pieces}
use libfgw.Stream.Send.Chunks.{data_frame}
use libfgw.Stream.Receive.Quiet.{delivered}
use libfgw.Stream.Receive.Buffer.{pending}
use libfgw.Stream.Tests.{test_env, test_env-Quiet, test_stream, test_session}
use libfgw.Stream.Tunnel.{receive_frames, Among}
use libfgw.Stream.Tunnel.EndToEnd.{new_frames, IsSegmentOf, tunnel}

abbrev open_session_state : SessionState
open_session_state = record fresh_session { session_id = 5; wire_ingress_id = 1; handler = some 3 }

-- A sender with one connected channel, that sends two bytes at most in a segment.
abbrev sender : DataStream
sender =
    record (data_stream
      (record {
        objects = λ p. record (new_channel 6 tcp 100) { connected = true; has_tcp = true };
        channels = (6, 0) ∷ [];
        selector = fresh_selector;
      })
      1 2 4 true 0) { sessions = ((1, 5), open_session_state) ∷ [] }

abbrev three_bytes : List ℕ
three_bytes = 10 ∷ 20 ∷ 30 ∷ []

two_frames :
    ◌≡◌ {A = List (ℕ × List ℕ)}
      (new_frames test_env 5 three_bytes 1 sender)
      ((0, data_frame sender 1 5 three_bytes 0) ∷ (0, data_frame sender 1 5 three_bytes 1) ∷ [])
unfolding send_session_data lookup data_stream fgw_segment_encode has_flag select live_channels
    is_live find_live change add_sent_bytes
two_frames = refl

-- Both frames arrive, the second one first and twice, over two channels.
abbrev arriving : List (ℕ × List ℕ)
arriving =
    (9, data_frame sender 1 5 three_bytes 1)
    ∷ (4, data_frame sender 1 5 three_bytes 0)
    ∷ (4, data_frame sender 1 5 three_bytes 1)
    ∷ []

all_arrive : (k : ℕ) → k < 2 → Among (data_frame sender 1 5 three_bytes k) arriving
all_arrive zero h = inr (inl refl)
all_arrive (suc zero) h = inl refl
all_arrive (suc (suc k)) h = absurd (omega arith)

sent_of :
    (frame : List ℕ) (sent : List (ℕ × List ℕ))
    → sent ≡ new_frames test_env 5 three_bytes 1 sender
    → Among frame sent
    → Among frame (new_frames test_env 5 three_bytes 1 sender)
sent_of frame sent same among = subst (λ (ws : List (ℕ × List ℕ)). Among frame ws) same among

tunnel_example :
    ((send_session_data test_env 5 three_bytes 1 sender).1.wire
      ≡ sender.wire ++ new_frames test_env 5 three_bytes 1 sender)
    × All (IsSegmentOf sender 1 5 three_bytes) (new_frames test_env 5 three_bytes 1 sender)
    × (concat (delivered 7 5 (receive_frames test_env arriving test_stream).calls) ≡ three_bytes)
tunnel_example =
    tunnel test_env test_env sender test_stream open_session_state 5 1 7 4 three_bytes arriving
      (unfold data_stream in omega arith) (unfold data_stream in omega arith) (omega arith)
      (omega arith) (omega arith) (unfold data_stream in omega arith) test_env-Quiet
      (unfold pieces data_stream in omega arith) (omega arith)
      (λ n. omega (arith, length-replicate {A = ℕ} n 0)) (unfold resolve_ingress_key lookup in refl)
      refl refl
      (record {
        st = test_session;
        found_at = unfold lookup data_stream in refl;
        handled = refl;
        id_is = refl;
        from_zero = refl;
        empty = refl;
        window_is = unfold data_stream in refl;
        unseen = λ k. unfold has_key data_stream in refl;
        silent = unfold delivered data_stream in refl;
      })
      (
        sent_of _ _ (sym two_frames) (inr (inl refl)),
        (
          sent_of _ _ (sym two_frames) (inl refl),
          (sent_of _ _ (sym two_frames) (inr (inl refl)), tt),
        ),
      )
      (λ k h. all_arrive k (unfold pieces data_stream in h))
      (λ ch. unfold pending lookup data_stream in refl) (λ ev u. refl)
