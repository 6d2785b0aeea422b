-- ===== src/Link/SocketTests.antt =====
-- The theorems on a TCP channel's sockets at a concrete run.
use libfgw.Prelude.{ℕ, ◌≡◌, ◌≢◌, refl, sym, ◌∙◌, [], ◌∷◌, some, some_inj, arith}
use libfgw.Codes.{ok}
use libfgw.Link.Channel.{FgwEndpoint}
use libfgw.Link.Socket.{
  TcpChannel, tcp_channel, tcp_connect, socket_opened, socket_closed, socket_read,
}
use libfgw.Link.OneSocket.{OneSocket}
use libfgw.Link.Handlers.{
  Reaches, here, and_then, dialled, opened, lost, Reaches-OneSocket, stale_handler,
}

abbrev peer : FgwEndpoint
peer = record { host = 49 ∷ []; port = 7000 }

-- Dialled, open, lost, and dialled again.
abbrev redialled : TcpChannel
redialled =
    (tcp_connect (ok 0) peer
      (socket_closed 0 (socket_opened 50 0 (tcp_connect (ok 0) peer (tcp_channel 3 100)).1))).1

redial : Reaches (tcp_channel 3 100) redialled
redial =
    and_then
      (and_then (and_then (and_then (here _) (dialled (ok 0) peer _)) (opened 50 0 _)) (lost 0 _))
      (dialled (ok 0) peer _)

Reaches-OneSocket_example : OneSocket redialled
Reaches-OneSocket_example = Reaches-OneSocket 3 100 redialled redial

second : redialled.tcp_ptr ≡ some 1
unfolding tcp_connect socket_closed socket_opened tcp_channel
second = refl

stale_handler_example :
    (socket_opened 90 0 redialled ≡ redialled)
    × (socket_closed 0 redialled ≡ redialled)
    × (socket_read 90 0 (4 ∷ []) redialled ≡ redialled)
stale_handler_example = stale_handler 3 100 redialled 90 0 (4 ∷ []) redial not_first
  where
    two_of : ◌≡◌ {A = ℕ} 1 0 → ⊥
    two_of e = omega arith

    not_first : redialled.tcp_ptr ≢ some 0
    not_first h = absurd (two_of (some_inj {A = ℕ} 1 0 (sym second ∙ h)))
