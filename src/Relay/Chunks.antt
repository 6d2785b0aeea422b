-- ===== src/Relay/Chunks.antt =====
-- src/zfgw_outport.cpp: how the bytes of a SOCKS5 client are cut into chunks makes no difference to
-- feedRx, until the session relays.
use libfgw.Prelude.{
  ℕ, suc, ◌≡◌, ◌≢◌, ◌⊎◌, inl, inr, refl, sym, subst, ap, ◌∙◌, true, List, [], ◌++◌, append_assoc,
}
use libfgw.Relay.Session.{
  RelayState, await_methods, await_request, connecting, relaying, closed, RelaySession, RelayEnv,
  Parsed, go_on, stop, try_parse_methods, try_parse_request, flush, feed_loop, feed_rx,
}
use libfgw.Relay.Buffered.{
  push, push_parsed, result, Idle, MethodsDone, RequestDone, feed_loop-Idle,
  try_parse_methods-Settled,
}
use libfgw.Relay.Request.{try_parse_request-Waits}

-- What the loop makes of a parse, with turns left.
abbrev go : ℕ → RelayEnv → Parsed → RelaySession
go n env p = elim p [ go_on s ↦ feed_loop n env s | stop s ↦ s ]

abbrev turn : ℕ → RelayEnv → RelaySession → RelayState → RelaySession
turn n env s st = elim st [
  | await_methods ↦ go n env (try_parse_methods s)
  | await_request ↦ go n env (try_parse_request env s)
  | relaying ↦ flush env true s
  | connecting ↦ s
  | closed ↦ s
]

loop_turn :
    (n : ℕ) (env : RelayEnv) (s : RelaySession) (st : RelayState)
    → s.state ≡ st
    → feed_loop (suc n) env s ≡ turn n env s st
unfolding feed_loop
loop_turn n env s st h = ap (turn n env s) h

done_loop : (n : ℕ) (env : RelayEnv) (p : Parsed) → RequestDone p → go n env p ≡ result p
done_loop n env (go_on s) done = feed_loop-Idle n env s done
done_loop n env (stop s) done = refl

-- A request takes one turn.
loop_request :
    (n : ℕ) (env : RelayEnv) (s : RelaySession)
    → s.state ≡ await_request
    → feed_loop (suc n) env s ≡ result (try_parse_request env s)
loop_request n env s h =
    loop_turn n env s await_request h ∙ elim (try_parse_request-Waits env [] s) [
      | inl waits ↦ ap (go n env) waits ∙ sym (ap result waits)
      | inr (same, done) ↦ done_loop n env (try_parse_request env s) done
    ]

result-push : (more : List ℕ) (p : Parsed) → result (push_parsed more p) ≡ push more (result p)
result-push more (go_on s) = refl
result-push more (stop s) = refl

request_phase :
    (n m k : ℕ) (env : RelayEnv) (more : List ℕ) (s : RelaySession)
    → s.state ≡ await_request
    → feed_loop (suc m) env (push more (feed_loop (suc n) env s))
      ≡ feed_loop (suc k) env (push more s)
request_phase n m k env more s h = elim (try_parse_request-Waits env more s) [
  | inl waits ↦
      ap (λ (x : RelaySession). feed_loop (suc m) env (push more x))
        (loop_request n env s h ∙ ap result waits)
      ∙ loop_request m env (push more s) h
      ∙ sym (loop_request k env (push more s) h)
  | inr (same, done) ↦
      ap (λ (x : RelaySession). feed_loop (suc m) env (push more x)) (loop_request n env s h)
      ∙ feed_loop-Idle (suc m) env (push more (result (try_parse_request env s))) done
      ∙ sym (result-push more (try_parse_request env s))
      ∙ sym (loop_request k env (push more s) h ∙ ap result same)
]

methods_done :
    (env : RelayEnv) (more : List ℕ) (p : Parsed)
    → MethodsDone p
    → feed_loop 3 env (push more (go 2 env p)) ≡ go 2 env (push_parsed more p)
methods_done env more (go_on s) done = request_phase 1 2 1 env more s done
methods_done env more (stop s) done = feed_loop-Idle 3 env (push more s) (subst Idle (sym done) tt)

methods_phase :
    (env : RelayEnv) (more : List ℕ) (s : RelaySession)
    → s.state ≡ await_methods
    → feed_loop 3 env (push more (feed_loop 3 env s)) ≡ feed_loop 3 env (push more s)
methods_phase env more s h =
    let once = loop_turn 2 env s await_methods h in
    elim (try_parse_methods-Settled more s) [
      | inl waits ↦
          ap (λ (x : RelaySession). feed_loop 3 env (push more x)) (once ∙ ap (go 2 env) waits)
      | inr (same, done) ↦
          ap (λ (x : RelaySession). feed_loop 3 env (push more x)) once
          ∙ methods_done env more (try_parse_methods s) done
          ∙ sym (loop_turn 2 env (push more s) await_methods h ∙ ap (go 2 env) same)
    ]

State-cases :
    (st : RelayState) → (st ≡ await_methods) ⊎ ((st ≡ await_request) ⊎ ((st ≡ relaying) ⊎ Idle st))
State-cases await_methods = inl refl
State-cases await_request = inr (inl refl)
State-cases relaying = inr (inr (inl refl))
State-cases connecting = inr (inr (inr tt))
State-cases closed = inr (inr (inr tt))

fed_twice :
    (env : RelayEnv) (more : List ℕ) (s : RelaySession)
    → s.state ≢ relaying
    → feed_loop 3 env (push more (feed_loop 3 env s)) ≡ feed_loop 3 env (push more s)
fed_twice env more s not_yet = elim (State-cases s.state) [
  | inl h ↦ methods_phase env more s h
  | inr (inl h) ↦ request_phase 2 2 2 env more s h
  | inr (inr (inl h)) ↦ absurd (not_yet h)
  | inr (inr (inr idle)) ↦
      ap (λ (x : RelaySession). feed_loop 3 env (push more x)) (feed_loop-Idle 3 env s idle)
]

-- Two chunks of a client's bytes, fed one after the other to a session that does not relay yet, do
-- what they do as one chunk: the same replies, the same dialling, the same state and buffer.
pub feed_rx-append :
    (env : RelayEnv) (a b : List ℕ) (s : RelaySession)
    → s.state ≢ relaying
    → feed_rx env b (feed_rx env a s) ≡ feed_rx env (a ++ b) s
unfolding feed_rx
feed_rx-append env a b s not_yet =
    fed_twice env b (push a s) not_yet
    ∙ ap (λ (xs : List ℕ). feed_loop 3 env (record s { rx_buffer = xs }))
        (append_assoc s.rx_buffer a b)
