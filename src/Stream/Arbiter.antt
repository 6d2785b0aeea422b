-- ===== src/Stream/Arbiter.antt =====
-- src/zfgw_datastream.cpp: pickPrimaryLocked, recommendedPrimary and emitFeedback.
use libfgw.Prelude.{
  ℕ, ◌+◌, ◌/◌, ◌%◌, ◌^◌, ◌&&◌, ◌||◌, List, [], ◌∷◌, none, some, ltb, ◌==◌, if◌then◌else◌, length,
  take, Map, lookup, nat_ord,
}
use libfgw.Prelude.{replicate}
use libfgw.Codes.{ok, err, pos}
use libfgw.Segment.Header.{default_header, flag_ack}
use libfgw.Segment.Encode.{fgw_segment_encode}
use libfgw.Link.Fpu.{Fpu}
use libfgw.Link.Pool.{live_channels}
use libfgw.Stream.State.{DataStream, Env, FgwLinkFeedback}
use libfgw.Stream.Send.{send_on}

-- The best link so far.
pub record Best : Type 0 where
  pub best_id : ℕ
  pub best_part : ℕ
  pub best_rate : ℕ

unfoldable pub wins_of : Map ℕ ℕ → ℕ → ℕ
wins_of wins id = elim (lookup id wins) [ none ↦ 0 | some n ↦ n ]

unfoldable pub pick_step : Fpu → Map ℕ ℕ → Best → ℕ × ℕ → Best
unfolding wins_of
pick_step fpu wins best (id, part) =
    let rate = fpu.div (fpu.of_uint (wins_of wins id)) (fpu.of_uint part) in
    if part == 0
    then best
    else if fpu.lt best.best_rate rate || (fpu.eq rate best.best_rate && ltb best.best_part part)
    then record { best_id = id; best_part = part; best_rate = rate }
    else best

unfoldable pub pick_from : Fpu → Map ℕ ℕ → Best → Map ℕ ℕ → Best
unfolding pick_step
pick_from fpu wins best [] = best
pick_from fpu wins best (kv ∷ m) = pick_from fpu wins (pick_step fpu wins best kv) m

unfoldable pub recommended_primary : Env → DataStream → ℕ
unfolding pick_from
recommended_primary env s =
    (pick_from env.fpu s.peer_win_count
      (record { best_id = 0; best_part = 0; best_rate = env.fpu.minus_one })
      s.peer_part_count).best_id

-- kv.second >>= 1
unfoldable pub halve : Map ℕ ℕ → Map ℕ ℕ
halve [] = []
halve ((id, n) ∷ m) = (id, n / 2) ∷ halve m

unfoldable pub send_to_live : Env → List ℕ → List ℕ → DataStream → DataStream
send_to_live env frame [] s = s
send_to_live env frame (p ∷ ps) s = send_to_live env frame ps (send_on env p frame s).1

-- Packs the feedback into 64 bytes, frames it in 128 and sends it over every live link.
unfoldable pub send_feedback : Env → FgwLinkFeedback → DataStream → DataStream
unfolding send_to_live
send_feedback env fb s = elim (env.pack_feedback fb) [
  | none ↦ s
  | some payload ↦
      let hdr = record default_header {
        flags = flag_ack;
        payload_len = length payload % 2 ^ 16;
        ingress_id = s.local_ingress_id;
      } in
      elim (fgw_segment_encode (some (replicate 128 0)) hdr (some payload) (pos (length payload))) [
        | err e ↦ s
        | ok (wrote, bytes) ↦ send_to_live env (take wrote bytes) (live_channels s.links) s
      ]
]

unfoldable pub emit_feedback : Env → DataStream → DataStream
unfolding recommended_primary halve send_feedback
emit_feedback env s = elim s.peer_part_count [
  | [] ↦ s
  | kv ∷ m ↦
      let best_id = recommended_primary env s in
      let epoch = (s.feedback_epoch + 1) % 2 ^ 32 in
      let decayed = record s {
        peer_win_count = halve s.peer_win_count;
        peer_part_count = halve s.peer_part_count;
      } in
      let fb : FgwLinkFeedback = record {
        decision_epoch = epoch;
        recommended_primary = best_id;
        alive_bitmap = 0;
        highest_seq = 0;
      } in
      if best_id == 0
      then decayed
      else send_feedback env fb (record decayed { feedback_epoch = epoch })
]
