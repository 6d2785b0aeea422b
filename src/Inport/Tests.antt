-- ===== src/Inport/Tests.antt =====
-- The theorems on an InportService at concrete runs of it.
use libfgw.Prelude.{ℕ, ◌<◌, ◌≤◌, ◌^◌, ◌≡◌, [], ◌∷◌, true, arith}
use libfgw.Stream.Tests.{test_env, test_stream}
use libfgw.Inport.{
  InportService, inport_service, inport_start, accept_client, on_client_bytes, on_session_data,
  close_client, inport_stop,
}
use libfgw.Inport.Log.{has_closed}
use libfgw.Inport.Lifecycle.{InService}
use libfgw.Inport.Serving.{
  Reaches, here, and_then, started, accepted, client_sent, peer_sent, client_left,
  Reaches-InService, Reaches-inport_stop,
}

abbrev listening_service : InportService
listening_service = (inport_start true (inport_service test_stream)).1

abbrev one_client : InportService
one_client = accept_client test_env 7 listening_service

abbrev two_clients : InportService
two_clients = accept_client test_env 8 one_client

-- Both clients talk, and the first one leaves.
abbrev after_talk : InportService
after_talk =
    close_client test_env 1
      (on_session_data test_env 1 (9 ∷ []) (on_client_bytes test_env 2 (4 ∷ 5 ∷ []) two_clients))

talk : Reaches test_env (inport_service test_stream) after_talk
unfolding accept_client inport_start
talk =
    and_then
      (and_then
        (and_then
          (and_then
            (and_then (and_then (here _) (started true _))
              (accepted 7 listening_service (room 2 (omega arith))))
            (accepted 8 one_client (room 3 (omega arith))))
          (client_sent 2 (4 ∷ 5 ∷ []) two_clients))
        (peer_sent 1 (9 ∷ []) _))
      (client_left 1 _)
  where
    room : (n : ℕ) → n ≤ 3 → n < 2 ^ 32
    room n h = omega arith

Reaches-InService_example : InService after_talk
Reaches-InService_example = Reaches-InService test_env test_stream after_talk talk

third : 2 < after_talk.next_session_id
unfolding accept_client inport_start on_client_bytes on_session_data close_client
third = omega arith

Reaches-inport_stop_example :
    ((inport_stop test_env after_talk).sessions 2).closed ≡ true
    × has_closed 2 (inport_stop test_env after_talk).client_actions ≡ true
Reaches-inport_stop_example =
    Reaches-inport_stop test_env test_stream after_talk 2 talk (omega arith) third
