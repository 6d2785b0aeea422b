-- ===== src/Stream/Receive/Buffer.antt =====
-- src/zfgw_datastream.cpp: onChannelBytes on a channel of which no bytes wait in its buffer.
use libfgw.Prelude.{
  ℕ, ◌≡◌, refl, ap, ◌∙◌, Bool, true, false, List, [], ◌++◌, none, some, ◌==◌, if◌then◌else◌,
  if_either, length, lookup, insert, lookup-insert, nat_ord, arith,
}
use libfgw.Stream.State.{DataStream, Env, Event, notify}
use libfgw.Stream.Receive.{consume, on_channel_bytes}
use libfgw.Stream.Receive.Keeps.{Lasting, consume_keeps}

-- The bytes of the channel at `ch` that wait for more.
unfoldable pub pending : ℕ → DataStream → List ℕ
pending ch s = elim (lookup ch s.scratch) [ none ↦ [] | some bytes ↦ bytes ]

-- What is left over goes back to the buffer.
abbrev pub settle : ℕ → DataStream × List ℕ → DataStream
settle ch (s, left) = record s { scratch = insert ch left s.scratch }

pub on_channel_bytes_lem :
    (env : Env) (ch : ℕ) (arrived : List ℕ) (s : DataStream)
    → pending ch s ≡ []
    → on_channel_bytes env ch arrived s ≡ settle ch (consume (length arrived) env ch arrived s)
unfolding on_channel_bytes pending
on_channel_bytes_lem env ch arrived s h =
    ap
      (λ (held : List ℕ). settle ch (consume (length (held ++ arrived)) env ch (held ++ arrived) s))
      h

pub pending-settle :
    (ch j : ℕ) (left : List ℕ) (s : DataStream)
    → pending j (settle ch (s, left)) ≡ (if ch == j then left else pending j s)
unfolding pending
pending-settle ch j left s = ground (arith, lookup-insert ch j left s.scratch)

-- No bytes wait on any channel.
abbrev pub Clear : DataStream → Type 0
Clear s = (ch : ℕ) → pending ch s ≡ []

pub Clear-settle : (ch : ℕ) (s : DataStream) → Clear s → Clear (settle ch (s, []))
Clear-settle ch s clear j =
    pending-settle ch j [] s
    ∙ if_either (λ (b : List ℕ). b ≡ []) (ch == j) [] (pending j s) refl (clear j)

Clear-Lasting :
    (env : Env)
    → ((ev : Event) (s : DataStream) → (env.react ev s).scratch ≡ s.scratch)
    → Lasting env Clear
unfolding notify pending
Clear-Lasting env apart = record {
  same = λ s s' links scratch clear ch.
      ap (λ (m : libfgw.Prelude.Map ℕ (List ℕ)). elim (lookup ch m) [ none ↦ [] | some b ↦ b ])
        scratch
      ∙ clear ch;
  renamed = λ ch a b c s clear. clear;
  counted = λ ch s clear. clear;
  switched = λ id s clear. clear;
  called = λ ev s clear ch.
      ap (λ (m : libfgw.Prelude.Map ℕ (List ℕ)). elim (lookup ch m) [ none ↦ [] | some b ↦ b ])
        (apart ev _)
      ∙ clear ch;
}

-- Handlers that leave the buffers alone: the receive loop does.
pub consume-Clear :
    (env : Env) (ch : ℕ) (bytes : List ℕ) (s : DataStream)
    → ((ev : Event) (u : DataStream) → (env.react ev u).scratch ≡ u.scratch)
    → Clear s
    → Clear (consume (length bytes) env ch bytes s).0
consume-Clear env ch bytes s apart clear =
    consume_keeps env Clear (Clear-Lasting env apart) (length bytes) ch bytes s clear
