-- ===== src/Relay/Lifecycle.antt =====
-- The life of a relay session: one dial at most, one end at most, and nothing after the end.
use libfgw.Prelude.{
  ℕ, zero, suc, ◌+◌, ◌≡◌, refl, sym, subst, Bool, true, false, not, List, [], ◌∷◌, ◌++◌, ltb, ◌==◌,
  if◌then◌else◌, length, drop, get_or, arith,
}
use libfgw.Relay.Socks.{Target, partial, unsupported, target, parse_target, target_text}
use libfgw.Relay.Session.{
  RelayState, await_methods, await_request, connecting, relaying, closed, to_peer, dial, to_remote,
  RelaySession, RelayEnv, act, close, send_to_peer, write_reply, Parsed, go_on, stop,
  try_parse_methods, start_connect, try_parse_request, flush, feed_loop, feed_rx, on_remote_open,
  Input, session_data, session_close, remote_open, remote_bytes, remote_close, handle,
}
use libfgw.Relay.Counts.{
  is_dial, is_close_remote, is_close_stream, is_removal, times-act, Counts, Held, Lifecycle,
  close-Lifecycle, close-over, Held-same, act-SameCounts, send_to_peer-SameCounts,
}

write_reply-Lifecycle : (rep : ℕ) (s : RelaySession) → Lifecycle s → Lifecycle (write_reply rep s)
unfolding write_reply send_to_peer act
write_reply-Lifecycle rep s l =
    Held-same s.state s.has_remote s.actions (write_reply rep s).actions
      (act-SameCounts (to_peer (5 ∷ rep ∷ 0 ∷ 1 ∷ 0 ∷ 0 ∷ 0 ∷ 0 ∷ 0 ∷ 0 ∷ [])) s refl refl refl
        refl)
      l

if_both : {A : Type 0} (P : A → Type 0) (b : Bool) {x y : A} → P x → P y → P (if b then x else y)
if_both P true px py = px
if_both P false px py = py

if_known :
    {A : Type 0} (P : A → Type 0) (b : Bool) {x y : A}
    → (b ≡ true → P x)
    → P y
    → P (if b then x else y)
if_known P true px py = px refl
if_known P false px py = py

flush-Lifecycle :
    (env : RelayEnv) (counted : Bool) (s : RelaySession)
    → Lifecycle s
    → Lifecycle (flush env counted s)
unfolding flush act
flush-Lifecycle env counted s l =
    let wrote =
      Held-same s.state s.has_remote s.actions (s.actions ++ to_remote s.rx_buffer ∷ [])
        (act-SameCounts (to_remote s.rx_buffer) s refl refl refl refl) l in
    if_both Lifecycle _ (if_both Lifecycle counted wrote wrote) l

abbrev parsed_session : Parsed → RelaySession
parsed_session (go_on s) = s
parsed_session (stop s) = s

record ParsedLifecycle (p : Parsed) : Type 0 where
  lives : Lifecycle (parsed_session p)

stopped : (s : RelaySession) → Lifecycle s → ParsedLifecycle (stop s)
stopped s l = record { lives = l }

gone_on : (s : RelaySession) → Lifecycle s → ParsedLifecycle (go_on s)
gone_on s l = record { lives = l }

try_parse_methods-Lifecycle :
    (s : RelaySession)
    → s.state ≡ await_methods
    → Lifecycle s
    → ParsedLifecycle (try_parse_methods s)
unfolding try_parse_methods send_to_peer act
try_parse_methods-Lifecycle s e l =
    let rest : RelaySession = record s {
      rx_buffer = drop (2 + get_or s.rx_buffer 1 0) s.rx_buffer;
    } in
    if_both ParsedLifecycle (ltb (length s.rx_buffer) 2) (stopped s l) (
      if_both ParsedLifecycle (not (get_or s.rx_buffer 0 0 == 5))
        (stopped (close s) (close-Lifecycle s l))
        (if_both ParsedLifecycle (ltb (length s.rx_buffer) (2 + get_or s.rx_buffer 1 0))
          (stopped s l)
          (gone_on (record (send_to_peer (5 ∷ 0 ∷ []) rest) { state = await_request }) answered)))
  where
    answered : Held await_request s.has_remote (s.actions ++ to_peer (5 ∷ 0 ∷ []) ∷ [])
    answered =
        Held-same await_request s.has_remote s.actions (s.actions ++ to_peer (5 ∷ 0 ∷ []) ∷ [])
          (act-SameCounts (to_peer (5 ∷ 0 ∷ [])) s refl refl refl refl)
          (subst (λ st. Held st s.has_remote s.actions) e l)

start_connect-Lifecycle :
    (env : RelayEnv) (host : List ℕ) (port : ℕ) (s : RelaySession)
    → s.state ≡ connecting
    → s.has_remote ≡ false
    → Counts 0 0 0 s.actions
    → Lifecycle (start_connect env host port s)
unfolding start_connect
start_connect-Lifecycle env host port s e none c =
    let s1 : RelaySession = record (act (dial host port) s) { has_remote = true } in
    let dialled : Held connecting true s1.actions = (
      refl,
      (
        omega (arith, times-act is_dial (dial host port) s, c.0),
        omega (arith, times-act is_close_remote (dial host port) s, c.1),
        omega (arith, times-act is_close_stream (dial host port) s, c.2),
        omega (arith, times-act is_removal (dial host port) s, c.3),
      ),
    ) in
    let l : Lifecycle s1 = subst (λ st. Held st true s1.actions) (sym e) dialled in
    if_both Lifecycle (env.start_connect host port) l
      (close-Lifecycle (write_reply 4 s1) (write_reply-Lifecycle 4 s1 l))

try_parse_request-Lifecycle :
    (env : RelayEnv) (s : RelaySession)
    → s.state ≡ await_request
    → Lifecycle s
    → ParsedLifecycle (try_parse_request env s)
unfolding try_parse_request
try_parse_request-Lifecycle env s e l =
    if_both ParsedLifecycle (ltb (length s.rx_buffer) 5) (stopped s l) (
      if_both ParsedLifecycle (not (get_or s.rx_buffer 0 0 == 5))
        (stopped (close s) (close-Lifecycle s l)) (by_target (parse_target s.rx_buffer)))
  where
    held : Held await_request s.has_remote s.actions
    held = subst (λ st. Held st s.has_remote s.actions) e l

    by_target :
        (t : Target)
        → ParsedLifecycle (elim t [
          | partial ↦ stop s
          | unsupported ↦ stop (close (write_reply 7 s))
          | target host port need ↦
              let rest = record s { rx_buffer = drop need s.rx_buffer } in
              if not (get_or s.rx_buffer 1 0 == 1)
              then stop (close (write_reply 7 rest))
              else go_on (
                  start_connect env host port
                    (record rest { target_addr = target_text host port; state = connecting }))
        ])
    by_target partial = stopped s l
    by_target unsupported =
        stopped (close (write_reply 7 s))
          (close-Lifecycle (write_reply 7 s) (write_reply-Lifecycle 7 s l))
    by_target (target host port need) =
        let rest : RelaySession = record s { rx_buffer = drop need s.rx_buffer } in
        if_both ParsedLifecycle (not (get_or s.rx_buffer 1 0 == 1))
          (stopped (close (write_reply 7 rest))
            (close-Lifecycle (write_reply 7 rest) (write_reply-Lifecycle 7 rest l)))
          (gone_on
            (start_connect env host port
              (record rest { target_addr = target_text host port; state = connecting }))
            (start_connect-Lifecycle env host port
              (record rest { target_addr = target_text host port; state = connecting }) refl held.0
              held.1))

feed_loop-Lifecycle :
    (fuel : ℕ) (env : RelayEnv) (s : RelaySession) → Lifecycle s → Lifecycle (feed_loop fuel env s)
unfolding feed_loop
feed_loop-Lifecycle zero env s l = l
feed_loop-Lifecycle (suc fuel) env s l = by_state (feed_loop-Lifecycle fuel env) s.state refl
  where
    after :
        ((t : RelaySession) → Lifecycle t → Lifecycle (feed_loop fuel env t))
        → (p : Parsed) → ParsedLifecycle p
        → Lifecycle (elim p [ go_on s' ↦ feed_loop fuel env s' | stop s' ↦ s' ])
    after further (go_on t) ok = further t ok.lives
    after further (stop t) ok = ok.lives

    by_state :
        ((t : RelaySession) → Lifecycle t → Lifecycle (feed_loop fuel env t))
        → (st : RelayState) → s.state ≡ st
        → Lifecycle (elim st [
          | await_methods ↦ elim (try_parse_methods s) [
            | go_on s' ↦ feed_loop fuel env s'
            | stop s' ↦ s'
          ]
          | await_request ↦ elim (try_parse_request env s) [
            | go_on s' ↦ feed_loop fuel env s'
            | stop s' ↦ s'
          ]
          | relaying ↦ flush env true s
          | connecting ↦ s
          | closed ↦ s
        ])
    by_state further await_methods e =
        after further (try_parse_methods s) (try_parse_methods-Lifecycle s e l)
    by_state further await_request e =
        after further (try_parse_request env s) (try_parse_request-Lifecycle env s e l)
    by_state further relaying e = flush-Lifecycle env true s l
    by_state further connecting e = l
    by_state further closed e = l

-- A session that holds the outbound connection is connecting or relaying.
holding-Counts :
    (s : RelaySession) → s.has_remote ≡ true → Lifecycle s → Held relaying s.has_remote s.actions
holding-Counts s has l = by_state s.state l
  where
    by_state :
        (st : RelayState) → Held st s.has_remote s.actions → Held relaying s.has_remote s.actions
    by_state await_methods h = ground (arith, h.0, has)
    by_state await_request h = ground (arith, h.0, has)
    by_state connecting h = h
    by_state relaying h = h
    by_state closed h = ground (arith, h.0, has)

on_remote_open-Lifecycle :
    (env : RelayEnv) (s : RelaySession)
    → s.has_remote ≡ true
    → Lifecycle s
    → Lifecycle (on_remote_open env s)
unfolding on_remote_open write_reply send_to_peer act
on_remote_open-Lifecycle env s has l =
    flush-Lifecycle env false (record (write_reply 0 s) { state = relaying })
      (Held-same relaying s.has_remote s.actions (write_reply 0 s).actions
        (act-SameCounts (to_peer (5 ∷ 0 ∷ 0 ∷ 1 ∷ 0 ∷ 0 ∷ 0 ∷ 0 ∷ 0 ∷ 0 ∷ [])) s refl refl refl
          refl)
        (holding-Counts s has l))

-- Whatever happens to a relay session, the invariant holds again if it held: it dials at most
-- once, holds the outbound connection from then to its end, and tells its end once to the stream,
-- to the service and, if it dialled, to the outbound connection.
pub handle-Lifecycle :
    (env : RelayEnv) (i : Input) (s : RelaySession) → Lifecycle s → Lifecycle (handle env i s)
unfolding handle
handle-Lifecycle env (session_data bytes) s l =
    feed_loop-Lifecycle 3 env (record s { rx_buffer = s.rx_buffer ++ bytes }) l
handle-Lifecycle env session_close s l = close-Lifecycle s l
handle-Lifecycle env remote_open s l =
    if_known Lifecycle s.has_remote (λ has. on_remote_open-Lifecycle env s has l) l
handle-Lifecycle env (remote_bytes bytes) s l =
    if_both Lifecycle s.has_remote
      (Held-same s.state s.has_remote s.actions (send_to_peer bytes s).actions
        (send_to_peer-SameCounts bytes s) l)
      l
handle-Lifecycle env remote_close s l = if_both Lifecycle s.has_remote (close-Lifecycle s l) l

feed_loop-closed :
    (env : RelayEnv) (s : RelaySession)
    → s.state ≡ closed
    → (((feed_loop 3 env s).state ≡ closed) × ((feed_loop 3 env s).actions ≡ s.actions))
unfolding feed_loop
feed_loop-closed env s e = (rw (e, feed_loop) e, rw (e, feed_loop) refl)

-- A session that is over, and for which the invariant holds, stays over and does nothing more.
pub closed_silent :
    (env : RelayEnv) (i : Input) (s : RelaySession)
    → s.state ≡ closed
    → Lifecycle s
    → ((handle env i s).state ≡ closed) × ((handle env i s).actions ≡ s.actions)
unfolding handle feed_rx feed_loop
closed_silent env i s e l = by_input i
  where
    none_held : s.has_remote ≡ false
    none_held = (subst (λ st. Held st s.has_remote s.actions) e l).0

    by_input :
        (i : Input) → ((handle env i s).state ≡ closed) × ((handle env i s).actions ≡ s.actions)
    by_input (session_data bytes) =
        feed_loop-closed env (record s { rx_buffer = s.rx_buffer ++ bytes }) e
    by_input session_close = rw (close-over s (rw e refl)) (e, refl)
    by_input remote_open = rw none_held (e, refl)
    by_input (remote_bytes bytes) = rw none_held (e, refl)
    by_input remote_close = rw none_held (e, refl)
