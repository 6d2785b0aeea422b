-- ===== src/Manager/Heartbeat.antt =====
-- src/zfgw_channel_manager.cpp: what the heartbeat finds out about the channels.
use libfgw.Prelude.{
  ℕ, ◌≡◌, refl, sym, ap, subst, inl, inr, true, List, [], ◌∷◌, some, if_either, if_cases, Map,
  lookup, nat_ord, ==_iff, ◌==◌, arith, take, length,
}
use libfgw.Codes.{Result, ok, err}
use libfgw.Link.Channel.{FgwChannel, fgw_link_stalled, evaluate_stall, add_sent_bytes}
use libfgw.Link.Pool.{change}
use libfgw.Manager.State.{ChannelManager, ManagerEnv, change_object, send_frame}
use libfgw.Manager.Order.{after_send}
use libfgw.Manager.Stopping.{head_or_rest}
use libfgw.Manager.Traffic.{send_encoded, send_heartbeat, heartbeat_frame, beat, heartbeat_channels}

module _ (env : ManagerEnv) (now : ℕ → ℕ) (timeout p last : ℕ) where
  -- The channel at `p` is connected and was last heard at `last`.
  abbrev Heard : FgwChannel → Type 0
  Heard c = (c.connected ≡ true) × (c.quality.last_rx_tick ≡ last)

  -- And it was judged.
  abbrev Judged : FgwChannel → Type 0
  Judged c = Heard c × (c.stalled ≡ fgw_link_stalled (now p) last timeout)

  -- What sending does not change.
  at_object :
      (T : FgwChannel → Type 0)
      → ((c : FgwChannel) (len : ℕ) → T c → T (add_sent_bytes len c))
      → (q : ℕ) (r : Result (ℕ × List ℕ)) (m : ChannelManager) → T (m.links.objects p)
      → T ((send_encoded env q r m).links.objects p)
  unfolding send_encoded send_frame change_object change
  at_object T more q (err e) m h = h
  at_object T more q (ok (wrote, bytes)) m h =
      if_cases T (p == q) _ _
        (λ same.
          let here = subst (λ (r : ℕ). T (m.links.objects r)) ((==_iff p q).0 same) h in
          after_send T (env.space (length (take wrote bytes))) (length (take wrote bytes))
            (env.tcp_write m.wire q (take wrote bytes)) (m.links.objects q) here
            (more (m.links.objects q) (length (take wrote bytes)) here))
        (λ other. h)

  -- What a beat of the channel at `q` does not change.
  beat_keeps :
      (T : FgwChannel → Type 0)
      → ((c : FgwChannel) (len : ℕ) → T c → T (add_sent_bytes len c))
      → ((c : FgwChannel) → T c → T (evaluate_stall (now p) timeout c))
      → (q : ℕ) (m : ChannelManager) → T (m.links.objects p)
      → T ((beat env now timeout q m).links.objects p)
  unfolding beat send_heartbeat change_object change
  beat_keeps T more judge q m h =
      if_either (λ (m' : ChannelManager). T (m'.links.objects p)) (m.links.objects q).connected _ _
        (if_cases T (p == q) _ _
          (λ same.
            subst
              (λ (r : ℕ).
                T (evaluate_stall (now r) timeout ((send_heartbeat env q m).links.objects p)))
              ((==_iff p q).0 same) (judge _ (at_object T more q (heartbeat_frame m.config) m h)))
          (λ other. at_object T more q (heartbeat_frame m.config) m h))
        h

  Heard-more : (c : FgwChannel) (len : ℕ) → Heard c → Heard (add_sent_bytes len c)
  unfolding add_sent_bytes
  Heard-more c len h = h

  Judged-more : (c : FgwChannel) (len : ℕ) → Judged c → Judged (add_sent_bytes len c)
  unfolding add_sent_bytes
  Judged-more c len h = h

  judge-Heard : (c : FgwChannel) → Heard c → Judged (evaluate_stall (now p) timeout c)
  unfolding evaluate_stall
  judge-Heard c (on, heard) =
      ((on, heard), ap (λ (t : ℕ). fgw_link_stalled (now p) t timeout) heard)

  beat_judges :
      (m : ChannelManager)
      → Heard (m.links.objects p)
      → Judged ((beat env now timeout p m).links.objects p)
  unfolding beat send_heartbeat change_object change
  beat_judges m h =
      if_cases (λ (m' : ChannelManager). Judged (m'.links.objects p)) (m.links.objects p).connected
        _ _
        (λ on.
          if_cases Judged (p == p) _ _
            (λ same.
              judge-Heard ((send_heartbeat env p m).links.objects p)
                (at_object Heard Heard-more p (heartbeat_frame m.config) m h))
            (λ other. absurd (ground (arith, ==_iff p p))))
        (λ off. absurd (ground (arith, h.0)))

  stays-Judged :
      (rest : Map ℕ ℕ) (m : ChannelManager)
      → Judged (m.links.objects p)
      → Judged ((heartbeat_channels env now timeout rest m).links.objects p)
  unfolding heartbeat_channels
  stays-Judged [] m h = h
  stays-Judged ((id, q) ∷ rest) m h =
      stays-Judged rest (beat env now timeout q m)
        (beat_keeps Judged Judged-more (λ c judged. judge-Heard c judged.0) q m h)

  all-Judged :
      (id : ℕ) (rest : Map ℕ ℕ) (m : ChannelManager)
      → lookup id rest ≡ some p
      → Heard (m.links.objects p)
      → Judged ((heartbeat_channels env now timeout rest m).links.objects p)
  unfolding heartbeat_channels lookup
  all-Judged id [] m found h = absurd (ground arith)
  all-Judged id ((j, q) ∷ rest) m found h = elim (head_or_rest id j q p rest found) [
    | inl e ↦ stays-Judged rest (beat env now timeout q m) (
        subst (λ (r : ℕ). Judged ((beat env now timeout r m).links.objects p)) (sym e)
          (beat_judges m h))
    | inr e ↦
        all-Judged id rest (beat env now timeout q m) e
          (beat_keeps Heard Heard-more (λ c heard. (judge-Heard c heard).0) q m h)
  ]

-- The heartbeat leaves a connected channel of the table connected, and stalled exactly if it was
-- silent for longer than the timeout by the clock that is read for it.
pub heartbeat_channels-stalled :
    (env : ManagerEnv) (now : ℕ → ℕ) (timeout id p : ℕ) (m : ChannelManager)
    → lookup id m.links.channels ≡ some p
    → (m.links.objects p).connected ≡ true
    → (((heartbeat_channels env now timeout m.links.channels m).links.objects p).connected ≡ true)
      × (((heartbeat_channels env now timeout m.links.channels m).links.objects p).stalled
          ≡ fgw_link_stalled (now p) (m.links.objects p).quality.last_rx_tick timeout)
heartbeat_channels-stalled env now timeout id p m found on =
    let judged =
      all-Judged env now timeout p (m.links.objects p).quality.last_rx_tick id m.links.channels m
        found (on, refl) in
    (judged.0.0, judged.1)
