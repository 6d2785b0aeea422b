-- ===== src/Link/Handlers.antt =====
-- src/zfgw_channel.cpp: a FgwTcpChannel that is dialled, accepted, written to and closed, while the
-- handlers of its sockets, also of earlier ones, report.
use libfgw.Prelude.{
  ℕ, ◌+◌, ◌≡◌, refl, sym, subst, ◌∙◌, ap, Bool, true, false, List, [], ◌∷◌, ◌++◌, Option, none,
  some, ◌==◌, ltb, if_cases, if_either, length, arith, not, ◌≢◌, ==_iff,
}
use libfgw.Codes.{Result, ℤ, pos, negsuc}
use libfgw.Link.Channel.{FgwChannel, FgwEndpoint, tcp_send_bytes, after_write, add_sent_bytes}
use libfgw.Link.Socket.{
  SocketCall, start_connect, socket_write, connected_callback, closed_callback, bytes_callback,
  TcpChannel, tcp_channel, tcp_close, tcp_connect, create_accepted_handler, tcp_send, socket_opened,
  socket_closed, socket_read,
}
use libfgw.Link.OneSocket.{
  Owned, OneSocket, is_held, has_socket, times_closed, tcp_close-OneSocket, new_handler-Owned,
  noted-Owned, hooked-Owned, turned-Owned,
}

-- What a channel does. It is accepted only while it has no socket: the manager makes a new channel
-- for each accepted connection. The callbacks come last in a handler, so what they do to the
-- channel are further steps.
pub data Step : TcpChannel → TcpChannel → Type 0 where
  dialled :
      (ret : Result ℕ) (remote : FgwEndpoint) (t : TcpChannel) → Step t (tcp_connect ret remote t).1
  accepted : (t : TcpChannel) → t.tcp_ptr ≡ none → Step t (create_accepted_handler t)
  sent :
      (space : ℕ) (written : ℤ) (bytes : List ℕ) (t : TcpChannel)
      → Step t (tcp_send space written bytes t).1
  shut : (t : TcpChannel) → Step t (tcp_close t)
  opened : (now k : ℕ) (t : TcpChannel) → Step t (socket_opened now k t)
  lost : (k : ℕ) (t : TcpChannel) → Step t (socket_closed k t)
  read : (now k : ℕ) (bytes : List ℕ) (t : TcpChannel) → Step t (socket_read now k bytes t)

pub data Reaches : TcpChannel → TcpChannel → Type 0 where
  here : (t : TcpChannel) → Reaches t t
  and_then : {t t' t'' : TcpChannel} → Reaches t t' → Step t' t'' → Reaches t t''

tcp_connect-OneSocket :
    (ret : Result ℕ) (remote : FgwEndpoint) (t : TcpChannel)
    → OneSocket t
    → OneSocket (tcp_connect ret remote t).1
unfolding tcp_connect
tcp_connect-OneSocket ret remote t w =
    let c = tcp_close t in
    noted-Owned true false (some c.next_handler) _ (c.next_handler + 1) c.calls
      (start_connect c.next_handler remote) (λ k. refl)
      (new_handler-Owned false c.owners c.next_handler c.calls (tcp_close-OneSocket t w))

create_accepted_handler-OneSocket :
    (t : TcpChannel) → t.tcp_ptr ≡ none → OneSocket t → OneSocket (create_accepted_handler t)
unfolding create_accepted_handler
create_accepted_handler-OneSocket t empty w =
    new_handler-Owned t.channel.connected t.owners t.next_handler t.calls (
      subst (λ (has : Bool). Owned has t.channel.connected none t.owners t.next_handler t.calls)
        (w.has_is ∙ ap has_socket empty)
        (subst
          (λ (o : Option ℕ).
            Owned t.channel.has_tcp t.channel.connected o t.owners t.next_handler t.calls)
          empty w))

-- Sending changes the counters alone.
SameSocket : FgwChannel → FgwChannel → Type 0
SameSocket ch ch' = (ch.has_tcp ≡ ch'.has_tcp) × (ch.connected ≡ ch'.connected)

after_write-SameSocket :
    (len : ℕ) (written : ℤ) (ch : FgwChannel) → SameSocket ch (after_write len written ch).1
unfolding after_write SameSocket add_sent_bytes
after_write-SameSocket len (pos n) ch = (refl, refl)
after_write-SameSocket len (negsuc n) ch = (refl, refl)

tcp_send_bytes-SameSocket :
    (space : ℕ) (written : ℤ) (len : ℕ) (ch : FgwChannel)
    → SameSocket ch (tcp_send_bytes space written len ch).2
unfolding tcp_send_bytes SameSocket
tcp_send_bytes-SameSocket space written len ch =
    let same : Result ℕ × Bool × FgwChannel → Type 0 = λ x. SameSocket ch x.2 in
    if_either same (not ch.has_tcp) _ _ (refl, refl)
      (if_either same (not ch.connected) _ _ (refl, refl)
        (if_either same (len == 0) _ _ (refl, refl)
          (if_either same (ltb space len) _ _ (refl, refl)
            (after_write-SameSocket len written ch))))

moved-Owned :
    (ch ch' : FgwChannel) (ptr : Option ℕ) (owners : ℕ → Bool) (next : ℕ) (calls : List SocketCall)
    → SameSocket ch ch'
    → Owned ch.has_tcp ch.connected ptr owners next calls
    → Owned ch'.has_tcp ch'.connected ptr owners next calls
unfolding SameSocket
moved-Owned ch ch' ptr owners next calls same w = record {
  has_is = sym same.0 ∙ w.has_is;
  up = λ h. sym same.0 ∙ w.up (same.1 ∙ h);
  owners_are = w.owners_are;
  made = w.made;
  closes = w.closes;
}

tcp_send-OneSocket :
    (space : ℕ) (written : ℤ) (bytes : List ℕ) (t : TcpChannel)
    → OneSocket t
    → OneSocket (tcp_send space written bytes t).1
unfolding tcp_send
tcp_send-OneSocket space written bytes t w =
    let sent = tcp_send_bytes space written (length bytes) t.channel in
    let same = tcp_send_bytes-SameSocket space written (length bytes) t.channel in
    moved-Owned t.channel sent.2 t.tcp_ptr t.owners t.next_handler _ same (
      if_either (Owned t.channel.has_tcp t.channel.connected t.tcp_ptr t.owners t.next_handler)
        sent.1 (t.calls ++ socket_write bytes ∷ []) t.calls
        (noted-Owned t.channel.has_tcp t.channel.connected t.tcp_ptr t.owners t.next_handler t.calls
          (socket_write bytes) (λ k. refl) w)
        w)

-- The handler with the channel for its owner is that of the channel's socket.
owner-has : (t : TcpChannel) (k : ℕ) → OneSocket t → t.owners k ≡ true → t.channel.has_tcp ≡ true
owner-has t k w h = w.has_is ∙ some_held t.tcp_ptr (sym (w.owners_are k) ∙ h)
  where
    some_held : (o : Option ℕ) → is_held o k ≡ true → has_socket o ≡ true
    some_held none e = e
    some_held (some p) e = refl

socket_opened-OneSocket :
    (now k : ℕ) (t : TcpChannel) → OneSocket t → OneSocket (socket_opened now k t)
unfolding socket_opened
socket_opened-OneSocket now k t w =
    if_cases OneSocket (t.owners k) _ t
      (λ h.
        hooked-Owned t.connected_hook t.channel.has_tcp true t.tcp_ptr t.owners t.next_handler
          t.calls (connected_callback 0) (λ j. refl)
          (turned-Owned t.channel.has_tcp t.channel.connected true t.tcp_ptr t.owners t.next_handler
            t.calls (λ e. owner-has t k w h) w))
      (λ h. w)

socket_closed-OneSocket : (k : ℕ) (t : TcpChannel) → OneSocket t → OneSocket (socket_closed k t)
unfolding socket_closed
socket_closed-OneSocket k t w =
    if_either OneSocket (t.owners k) _ t
      (hooked-Owned t.closed_hook t.channel.has_tcp false t.tcp_ptr t.owners t.next_handler t.calls
        closed_callback (λ j. refl)
        (turned-Owned t.channel.has_tcp t.channel.connected false t.tcp_ptr t.owners t.next_handler
          t.calls (λ e. ground arith) w))
      w

socket_read-OneSocket :
    (now k : ℕ) (bytes : List ℕ) (t : TcpChannel)
    → OneSocket t
    → OneSocket (socket_read now k bytes t)
unfolding socket_read
socket_read-OneSocket now k bytes t w =
    if_either OneSocket (t.owners k) _ t
      (hooked-Owned t.bytes_hook t.channel.has_tcp t.channel.connected t.tcp_ptr t.owners
        t.next_handler t.calls (bytes_callback bytes) (λ j. refl) w)
      w

Step-OneSocket : {t t' : TcpChannel} → Step t t' → OneSocket t → OneSocket t'
Step-OneSocket (dialled ret remote t) w = tcp_connect-OneSocket ret remote t w
Step-OneSocket (accepted t empty) w = create_accepted_handler-OneSocket t empty w
Step-OneSocket (sent space written bytes t) w = tcp_send-OneSocket space written bytes t w
Step-OneSocket (shut t) w = tcp_close-OneSocket t w
Step-OneSocket (opened now k t) w = socket_opened-OneSocket now k t w
Step-OneSocket (lost k t) w = socket_closed-OneSocket k t w
Step-OneSocket (read now k bytes t) w = socket_read-OneSocket now k bytes t w

new-OneSocket : (id priority : ℕ) → OneSocket (tcp_channel id priority)
unfolding tcp_channel times_closed
new-OneSocket id priority = record {
  has_is = refl;
  up = λ h. h;
  owners_are = λ k. refl;
  made = λ k h. ground arith;
  closes = λ k. ground arith;
}

Reaches-OneSocket_from : {t t' : TcpChannel} → OneSocket t → Reaches t t' → OneSocket t'
Reaches-OneSocket_from w (here t) = w
Reaches-OneSocket_from w (and_then r step) = Step-OneSocket step (Reaches-OneSocket_from w r)

-- Whatever a new TCP channel does and whatever the handlers of its sockets report, in whatever
-- order, if it is accepted only while it has no socket: it is connected only if it has a socket;
-- the handler of that socket is the only one with the channel for its owner; and each earlier
-- socket was closed once, this one not.
pub Reaches-OneSocket :
    (id priority : ℕ) (t : TcpChannel) → Reaches (tcp_channel id priority) t → OneSocket t
Reaches-OneSocket id priority t r = Reaches-OneSocket_from (new-OneSocket id priority) r

-- In a TCP channel after whatever it did and the handlers of its sockets reported, in whatever
-- order, accepted only while it had no socket: what the handler of a socket reports that is not the
-- channel's now, that it is open, closed or has bytes, changes nothing and runs no callback.
pub stale_handler :
    (id priority : ℕ) (t : TcpChannel) (now k : ℕ) (bytes : List ℕ)
    → Reaches (tcp_channel id priority) t
    → t.tcp_ptr ≢ some k
    → (socket_opened now k t ≡ t) × (socket_closed k t ≡ t) × (socket_read now k bytes t ≡ t)
unfolding socket_opened socket_closed socket_read
stale_handler id priority t now k bytes r other = (
  if_cases (λ (x : TcpChannel). x ≡ t) (t.owners k) _ t (λ h. absurd (other (holds h))) (λ h. refl),
  if_cases (λ (x : TcpChannel). x ≡ t) (t.owners k) _ t (λ h. absurd (other (holds h))) (λ h. refl),
  if_cases (λ (x : TcpChannel). x ≡ t) (t.owners k) _ t (λ h. absurd (other (holds h))) (λ h. refl),
)
  where
    held : (o : Option ℕ) → is_held o k ≡ true → o ≡ some k
    held none h = absurd (ground arith)
    held (some p) h = ap some ((==_iff p k).0 h)

    holds : t.owners k ≡ true → t.tcp_ptr ≡ some k
    holds h = held t.tcp_ptr (sym ((Reaches-OneSocket id priority t r).owners_are k) ∙ h)
