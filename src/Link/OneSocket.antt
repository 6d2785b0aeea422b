-- ===== src/Link/OneSocket.antt =====
-- src/zfgw_channel.cpp: the sockets that a FgwTcpChannel had, and who still hears of them.
use libfgw.Prelude.{
  ℕ, ◌+◌, ◌<◌, ◌≡◌, refl, Bool, true, false, List, [], ◌∷◌, ◌++◌, Option, none, some, ◌==◌, ltb,
  if◌then◌else◌, if_either, arith,
}
use libfgw.Link.Socket.{
  SocketCall, start_connect, socket_close, socket_write, connected_callback, closed_callback,
  bytes_callback, TcpChannel, run_hook, drop_socket, tcp_close,
}

abbrev pub is_close_of : ℕ → SocketCall → Bool
is_close_of k (socket_close p) = p == k
is_close_of k (start_connect p remote) = false
is_close_of k (socket_write bytes) = false
is_close_of k (connected_callback e) = false
is_close_of k closed_callback = false
is_close_of k (bytes_callback bytes) = false

-- How often the socket of the handler `k` was closed.
unfoldable pub times_closed : ℕ → List SocketCall → ℕ
times_closed k [] = 0
times_closed k (c ∷ calls) = (if is_close_of k c then 1 else 0) + times_closed k calls

times_closed-add :
    (k : ℕ) (calls : List SocketCall) (c : SocketCall)
    → times_closed k (calls ++ c ∷ []) ≡ times_closed k calls + (if is_close_of k c then 1 else 0)
unfolding times_closed
times_closed-add k [] c = omega arith
times_closed-add k (d ∷ calls) c = ground (arith, times_closed-add k calls c)

abbrev pub is_held : Option ℕ → ℕ → Bool
is_held none k = false
is_held (some p) k = p == k

abbrev pub has_socket : Option ℕ → Bool
has_socket none = false
has_socket (some p) = true

-- Each handler that was made and is not the current one had its socket closed once.
abbrev pub retired : Option ℕ → ℕ → ℕ → ℕ
retired o next k = if is_held o k then 0 else if ltb k next then 1 else 0

-- The channel knows whether it has a socket, and is connected only if it has; just the handler of
-- that socket has the channel for its owner; every earlier socket was closed, once.
pub record Owned (has connected : Bool) (ptr : Option ℕ) (owners : ℕ → Bool) (next : ℕ)
    (calls : List SocketCall) : Type 0 where
  pub has_is : has ≡ has_socket ptr
  pub up : connected ≡ true → has ≡ true
  pub owners_are : (k : ℕ) → owners k ≡ is_held ptr k
  pub made : (k : ℕ) → is_held ptr k ≡ true → k < next
  pub closes : (k : ℕ) → times_closed k calls ≡ retired ptr next k

abbrev pub OneSocket : TcpChannel → Type 0
OneSocket t = Owned t.channel.has_tcp t.channel.connected t.tcp_ptr t.owners t.next_handler t.calls

drop_socket-Owned :
    (o : Option ℕ) (has connected : Bool) (t : TcpChannel)
    → Owned has connected o t.owners t.next_handler t.calls
    → Owned false false none
        (drop_socket o t).owners
        (drop_socket o t).next_handler
        (drop_socket o t).calls
unfolding drop_socket
drop_socket-Owned none has connected t w = record {
  has_is = refl;
  up = λ h. h;
  owners_are = w.owners_are;
  made = w.made;
  closes = w.closes;
}
drop_socket-Owned (some p) has connected t w = record {
  has_is = refl;
  up = λ h. h;
  owners_are = λ k. ground (arith, w.owners_are k);
  made = λ k h. ground arith;
  closes = λ k. ground (arith, times_closed-add k t.calls (socket_close p), w.closes k, w.made p);
}

pub tcp_close-OneSocket : (t : TcpChannel) → OneSocket t → OneSocket (tcp_close t)
unfolding tcp_close
tcp_close-OneSocket t w = drop_socket-Owned t.tcp_ptr t.channel.has_tcp t.channel.connected t w

-- A new handler, where there was none.
pub new_handler-Owned :
    (connected : Bool) (owners : ℕ → Bool) (next : ℕ) (calls : List SocketCall)
    → Owned false connected none owners next calls
    → Owned true connected (some next) (λ k. if k == next then true else owners k) (next + 1) calls
new_handler-Owned connected owners next calls w = record {
  has_is = refl;
  up = λ h. refl;
  owners_are = λ k. ground (arith, w.owners_are k);
  made = λ k h. ground arith;
  closes = λ k. ground (arith, w.closes k);
}

-- A call that closes nothing.
pub noted-Owned :
    (has connected : Bool) (ptr : Option ℕ) (owners : ℕ → Bool) (next : ℕ) (calls : List SocketCall)
    (c : SocketCall)
    → ((k : ℕ) → is_close_of k c ≡ false)
    → Owned has connected ptr owners next calls
    → Owned has connected ptr owners next (calls ++ c ∷ [])
noted-Owned has connected ptr owners next calls c none_closed w = record {
  has_is = w.has_is;
  up = w.up;
  owners_are = w.owners_are;
  made = w.made;
  closes = λ k. ground (arith, times_closed-add k calls c, none_closed k, w.closes k);
}

pub hooked-Owned :
    (hook : Bool) (has connected : Bool) (ptr : Option ℕ) (owners : ℕ → Bool) (next : ℕ)
    (calls : List SocketCall) (c : SocketCall)
    → ((k : ℕ) → is_close_of k c ≡ false)
    → Owned has connected ptr owners next calls
    → Owned has connected ptr owners next (run_hook hook c calls)
unfolding run_hook
hooked-Owned hook has connected ptr owners next calls c none_closed w =
    if_either (Owned has connected ptr owners next) hook (calls ++ c ∷ []) calls
      (noted-Owned has connected ptr owners next calls c none_closed w) w

-- Whether the channel is connected, where it has a socket.
pub turned-Owned :
    (has connected connected' : Bool) (ptr : Option ℕ) (owners : ℕ → Bool) (next : ℕ)
    (calls : List SocketCall)
    → (connected' ≡ true → has ≡ true)
    → Owned has connected ptr owners next calls
    → Owned has connected' ptr owners next calls
turned-Owned has connected connected' ptr owners next calls h w = record {
  has_is = w.has_is;
  up = h;
  owners_are = w.owners_are;
  made = w.made;
  closes = w.closes;
}
