-- ===== src/Relay/Buffered.antt =====
-- src/zfgw_outport.cpp: what more bytes at the end of rx_buffer_ change of what a relay session does.
use libfgw.Prelude.{
  ℕ, zero, suc, ◌+◌, ◌≡◌, inl, inr, refl, sym, subst, ap, ap₂, Bool, true, not, List, [], ◌∷◌, ◌++◌,
  ltb, ◌==◌, if◌then◌else◌, Bool-cases, both_if, if_cases, if_either, length, drop, get_or,
  get_or-append_left, drop-append_left, arith,
}
use libfgw.Relay.Socks.{socks5_ver}
use libfgw.Relay.Session.{
  RelayState, await_methods, await_request, connecting, relaying, closed, RelaySession, RelayEnv,
  is_closed, act, dial, close_stream, remove_session, close, send_to_peer, write_reply, Parsed,
  go_on, stop, try_parse_methods, start_connect, try_parse_request, flush, feed_loop,
}
use libfgw.Relay.Stable.{Settled, if_less-Settled, if-Settled}

-- Bytes that wait in the buffer.
abbrev pub push : List ℕ → RelaySession → RelaySession
push more s = record s { rx_buffer = s.rx_buffer ++ more }

abbrev pub push_parsed : List ℕ → Parsed → Parsed
push_parsed more (go_on s) = go_on (push more s)
push_parsed more (stop s) = stop (push more s)

abbrev pub result : Parsed → RelaySession
result (go_on s) = s
result (stop s) = s

-- A session in whose state feedRx only buffers.
abbrev pub Idle : RelayState → Type 0
Idle connecting = Unit
Idle closed = Unit
Idle await_methods = ⊥
Idle await_request = ⊥
Idle relaying = ⊥

pub close-push : (more : List ℕ) (s : RelaySession) → close (push more s) ≡ push more (close s)
unfolding close act
close-push more s = sym (
    both_if (push more) (is_closed s.state) _ _ _ _ refl (
      ap (λ x. act remove_session (act close_stream x))
        (both_if (push more) s.has_remote _ _ _ _ refl refl)))

close-closed : (s : RelaySession) → (close s).state ≡ closed
unfolding close act
close-closed s =
    if_cases (λ (x : RelaySession). x.state ≡ closed) (is_closed s.state) _ _
      (λ e. was_closed s.state e)
      (λ e. if_either (λ (x : RelaySession). x.state ≡ closed) s.has_remote _ _ refl refl)
  where
    was_closed : (st : RelayState) → is_closed st ≡ true → st ≡ closed
    was_closed closed e = refl
    was_closed await_methods e = absurd (ground arith)
    was_closed await_request e = absurd (ground arith)
    was_closed connecting e = absurd (ground arith)
    was_closed relaying e = absurd (ground arith)

pub closed-Idle : (s : RelaySession) → Idle (close s).state
closed-Idle s = subst Idle (sym (close-closed s)) tt

abbrev dialled : List ℕ → ℕ → RelaySession → RelaySession
dialled host port s = record (act (dial host port) s) { has_remote = true }

pub start_connect-push :
    (env : RelayEnv) (host : List ℕ) (port : ℕ) (more : List ℕ) (s : RelaySession)
    → start_connect env host port (push more s) ≡ push more (start_connect env host port s)
unfolding start_connect act write_reply
start_connect-push env host port more s =
    let tried = dialled host port s in
    sym (
      both_if (push more) (env.start_connect host port) tried (close (write_reply 4 tried))
        (push more tried) (close (write_reply 4 (push more tried))) refl
        (sym (close-push more (write_reply 4 tried))))

pub start_connect-Idle :
    (env : RelayEnv) (host : List ℕ) (port : ℕ) (s : RelaySession)
    → s.state ≡ connecting
    → Idle (start_connect env host port s).state
unfolding start_connect act
start_connect-Idle env host port s h =
    if_either (λ (x : RelaySession). Idle x.state) (env.start_connect host port) _ _
      (subst Idle (sym h) tt) (closed-Idle (write_reply 4 (dialled host port s)))

pub feed_loop-Idle :
    (n : ℕ) (env : RelayEnv) (s : RelaySession) → Idle s.state → feed_loop n env s ≡ s
unfolding feed_loop
feed_loop-Idle zero env s h = refl
feed_loop-Idle (suc n) env s h = by_state s.state h
  where
    by_state :
        (st : RelayState)
        → Idle st
        → elim st [
          | await_methods ↦ elim (try_parse_methods s) [
            | go_on s' ↦ feed_loop n env s'
            | stop s' ↦ s'
          ]
          | await_request ↦ elim (try_parse_request env s) [
            | go_on s' ↦ feed_loop n env s'
            | stop s' ↦ s'
          ]
          | relaying ↦ flush env true s
          | connecting ↦ s
          | closed ↦ s
        ]
          ≡ s
    by_state connecting i = refl
    by_state closed i = refl
    by_state await_methods i = absurd i
    by_state await_request i = absurd i
    by_state relaying i = absurd i

-- What a parse leaves of a session that did not wait: what the loop goes on with.
abbrev pub MethodsDone : Parsed → Type 0
MethodsDone (go_on s) = s.state ≡ await_request
MethodsDone (stop s) = s.state ≡ closed

abbrev pub RequestDone : Parsed → Type 0
RequestDone p = Idle (result p).state

-- try_parse_methods, with the two bytes that it decides by.
abbrev methods_by : ℕ → ℕ → RelaySession → Parsed
methods_by ver nmethods s =
    if ltb (length s.rx_buffer) 2
    then stop s
    else if not (ver == socks5_ver)
    then stop (close s)
    else if ltb (length s.rx_buffer) (2 + nmethods)
    then stop s
    else go_on
        (record (send_to_peer (socks5_ver ∷ 0 ∷ [])
          (record s { rx_buffer = drop (2 + nmethods) s.rx_buffer })) { state = await_request })

methods-Settled :
    (more : List ℕ) (ver nmethods : ℕ) (s : RelaySession)
    → Settled
        (push_parsed more)
        (stop s)
        MethodsDone
        s.rx_buffer
        more
        (methods_by ver nmethods s)
        (methods_by ver nmethods (push more s))
unfolding send_to_peer act
methods-Settled more ver nmethods s =
    if_less-Settled (push_parsed more) (stop s) MethodsDone s.rx_buffer more 2 _ _ _ (λ long.
      if-Settled (push_parsed more) (stop s) MethodsDone s.rx_buffer more (not (ver == socks5_ver))
        _ _ _ _ (inr (ap stop (close-push more s), close-closed s))
        (if_less-Settled (push_parsed more) (stop s) MethodsDone s.rx_buffer more (2 + nmethods) _ _
          _
          (λ whole. inr (
            ap
                (λ (xs : List ℕ).
                  go_on (record (send_to_peer (socks5_ver ∷ 0 ∷ []) (record s { rx_buffer = xs })) {
                    state = await_request;
                  }))
                (drop-append_left s.rx_buffer more (2 + nmethods) whole),
            refl,
          ))))

pub try_parse_methods-Settled :
    (more : List ℕ) (s : RelaySession)
    → Settled
        (push_parsed more)
        (stop s)
        MethodsDone
        s.rx_buffer
        more
        (try_parse_methods s)
        (try_parse_methods (push more s))
unfolding try_parse_methods
try_parse_methods-Settled more s = elim (Bool-cases (ltb (length s.rx_buffer) 2)) [
  | inl short ↦ inl (
      ap
        (λ (b : Bool).
          if b
          then stop s
          else if not (get_or s.rx_buffer 0 0 == socks5_ver)
          then stop (close s)
          else if ltb (length s.rx_buffer) (2 + get_or s.rx_buffer 1 0)
          then stop s
          else go_on
              (record (send_to_peer (socks5_ver ∷ 0 ∷ [])
                (record s { rx_buffer = drop (2 + get_or s.rx_buffer 1 0) s.rx_buffer })) {
                  state = await_request;
                }))
        short)
  | inr long ↦
      subst (Settled (push_parsed more) (stop s) MethodsDone s.rx_buffer more (try_parse_methods s))
        (sym (
          ap₂ (λ (ver nmethods : ℕ). methods_by ver nmethods (push more s))
            (get_or-append_left s.rx_buffer more 0 0 (ground arith))
            (get_or-append_left s.rx_buffer more 1 0 (ground arith))))
        (methods-Settled more (get_or s.rx_buffer 0 0) (get_or s.rx_buffer 1 0) s)
]
