-- ===== src/Relay/Tests.antt =====
-- A relay session at work: a greeting and a request in one read, then the connection's end.
use libfgw.Prelude.{◌≢◌, arith, ◌≡◌, refl, true, [], ◌∷◌}
use libfgw.Relay.Session.{
  closed, relaying, feed_rx, RelaySession, RelayEnv, relay_session, Input, session_data,
  session_close, remote_bytes, handle,
}
use libfgw.Relay.Counts.{Lifecycle, times}
use libfgw.Relay.Chunks.{feed_rx-append}
use libfgw.Relay.Lifecycle.{handle-Lifecycle, closed_silent}

abbrev test_env : RelayEnv
test_env = record { space = λ n. n; start_connect = λ host port. true }

-- A greeting with one method, and a request for 10.0.0.1:80.
abbrev hello_and_connect : Input
hello_and_connect = session_data (5 ∷ 1 ∷ 0 ∷ 5 ∷ 1 ∷ 0 ∷ 1 ∷ 10 ∷ 0 ∷ 0 ∷ 1 ∷ 0 ∷ 80 ∷ [])

fresh-Lifecycle : Lifecycle (relay_session 1 5)
fresh-Lifecycle = unfold relay_session times in (refl, (refl, refl, refl, refl))

handle-Lifecycle_example : Lifecycle (handle test_env hello_and_connect (relay_session 1 5))
handle-Lifecycle_example =
    handle-Lifecycle test_env hello_and_connect (relay_session 1 5) fresh-Lifecycle

abbrev over : RelaySession
over = handle test_env session_close (handle test_env hello_and_connect (relay_session 1 5))

over-Lifecycle : Lifecycle over
over-Lifecycle =
    handle-Lifecycle test_env session_close (handle test_env hello_and_connect (relay_session 1 5))
      greeted
  where
    greeted : Lifecycle (handle test_env hello_and_connect (relay_session 1 5))
    greeted = handle-Lifecycle test_env hello_and_connect (relay_session 1 5) fresh-Lifecycle

over_closed : over.state ≡ closed
unfolding handle relay_session
over_closed = refl

closed_silent_example :
    ((handle test_env (remote_bytes (1 ∷ [])) over).state ≡ closed)
    × ((handle test_env (remote_bytes (1 ∷ [])) over).actions ≡ over.actions)
closed_silent_example =
    closed_silent test_env (remote_bytes (1 ∷ [])) over over_closed over-Lifecycle

awaits : (relay_session 1 5).state ≢ relaying
unfolding relay_session
awaits e = absurd (ground arith)

-- The greeting, with the request in the next chunk but for its first byte, and the first data.
feed_rx-append_example :
    feed_rx test_env
      (1 ∷ 0 ∷ 1 ∷ 10 ∷ 0 ∷ 0 ∷ 1 ∷ 0 ∷ 80 ∷ 7 ∷ 8 ∷ [])
      (feed_rx test_env (5 ∷ 1 ∷ 0 ∷ 5 ∷ []) (relay_session 1 5))
    ≡ feed_rx test_env
        (5 ∷ 1 ∷ 0 ∷ 5 ∷ 1 ∷ 0 ∷ 1 ∷ 10 ∷ 0 ∷ 0 ∷ 1 ∷ 0 ∷ 80 ∷ 7 ∷ 8 ∷ [])
        (relay_session 1 5)
feed_rx-append_example =
    feed_rx-append test_env (5 ∷ 1 ∷ 0 ∷ 5 ∷ []) (1 ∷ 0 ∷ 1 ∷ 10 ∷ 0 ∷ 0 ∷ 1 ∷ 0 ∷ 80 ∷ 7 ∷ 8 ∷ [])
      (relay_session 1 5) awaits
