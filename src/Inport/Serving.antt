-- ===== src/Inport/Serving.antt =====
-- src/zfgw_inport.cpp: an InportService through clients, peer, start and stop, in whatever order.
use libfgw.Prelude.{
  ℕ, ◌+◌, ◌%◌, ◌^◌, ◌≤◌, ◌<◌, ◌≡◌, refl, sym, subst, ◌∙◌, Bool, true, false, not, ◌||◌, List, [],
  ◌∷◌, ◌++◌, ◌==◌, ==_iff, ltb, if_cases, if_either, Map, insert, has_key, lookup, has_key-insert,
  has_key-insert_self, has_key-insert_old, length, nat_ord, has_key-erase_ne, arith, ◌⊎◌,
}
use libfgw.Codes.{Result}
use libfgw.Stream.State.{DataStream, Env}
use libfgw.Inport.{
  FgwSession, InportService, ClientAction, client_write, fgw_session, put_session, inport_service,
  accept_client, on_client_bytes, close_client, on_session_data, inport_start, inport_stop,
}
use libfgw.Inport.Log.{has_closed, orderly, has_closed-write, orderly-action}
use libfgw.Inport.Lifecycle.{Kept, InService, put_at, counted-Kept}
use libfgw.Inport.Closing.{close_client-Serves, inport_stop-InService, inport_stop-hung_up}

-- What an InportService does. Fewer than 2 ^ 32 clients are accepted.
pub data Step (env : Env) : InportService → InportService → Type 0 where
  started : (listens : Bool) (t : InportService) → Step env t (inport_start listens t).1
  accepted :
      (handler : ℕ) (t : InportService)
      → t.next_session_id + 1 < 2 ^ 32
      → Step env t (accept_client env handler t)
  client_sent :
      (sid : ℕ) (bytes : List ℕ) (t : InportService) → Step env t (on_client_bytes env sid bytes t)
  client_left : (sid : ℕ) (t : InportService) → Step env t (close_client env sid t)
  peer_sent :
      (sid : ℕ) (bytes : List ℕ) (t : InportService) → Step env t (on_session_data env sid bytes t)
  stopped : (t : InportService) → Step env t (inport_stop env t)

pub data Reaches (env : Env) : InportService → InportService → Type 0 where
  here : (t : InportService) → Reaches env t t
  and_then : {t t' t'' : InportService} → Reaches env t t' → Step env t' t'' → Reaches env t t''

on_client_bytes-InService :
    (env : Env) (sid : ℕ) (bytes : List ℕ) (t : InportService)
    → InService t
    → InService (on_client_bytes env sid bytes t)
unfolding on_client_bytes
on_client_bytes-InService env sid bytes t k =
    let s = t.sessions sid in
    if_either InService s.closed t _ k (
      counted-Kept t.registered (record s { bytes_recv = (s.bytes_recv + length bytes) % 2 ^ 64 }) t
        sid refl refl refl k)

-- A write to the socket of an open session.
written-Kept :
    (table : Map ℕ Bool) (sessions : ℕ → FgwSession) (registered : Map ℕ Bool) (next : ℕ)
    (actions : List ClientAction) (sid : ℕ) (bytes : List ℕ)
    → (sessions sid).closed ≡ false
    → Kept table sessions registered next actions
    → Kept table sessions registered next (actions ++ client_write sid bytes ∷ [])
written-Kept table sessions registered next actions sid bytes was_open k = record {
  own = k.own;
  open_known = k.open_known;
  known_open = k.known_open;
  with_client = k.with_client;
  unused = k.unused;
  not_closed = λ j h. has_closed-write j sid bytes actions ∙ k.not_closed j h;
  never_closed = λ j h. has_closed-write j sid bytes actions ∙ k.never_closed j h;
  hung_up = λ j first below h. has_closed-write j sid bytes actions ∙ k.hung_up j first below h;
  tidy = λ j.
      orderly-action j (client_write sid bytes) actions
        (λ e.
          subst (λ (i : ℕ). has_closed i actions ≡ false) ((==_iff sid j).0 e)
            (k.not_closed sid was_open))
        (k.tidy j);
}

on_session_data-InService :
    (env : Env) (sid : ℕ) (bytes : List ℕ) (t : InportService)
    → InService t
    → InService (on_session_data env sid bytes t)
unfolding on_session_data
on_session_data-InService env sid bytes t k =
    let s = t.sessions sid in
    let s' = record s { bytes_sent = (s.bytes_sent + length bytes) % 2 ^ 64 } in
    if_cases InService (not s.has_client || s.closed) t _ (λ e. k)
      (λ e. if_either InService (ltb (length (env.acquire (length bytes))) (length bytes)) t _ k (
        counted-Kept t.registered s'
          (record t { client_actions = t.client_actions ++ client_write sid bytes ∷ [] }) sid refl
          refl refl
          (written-Kept t.registered t.sessions t.registered t.next_session_id t.client_actions sid
            bytes (is_open e) k)))
  where
    is_open :
        (not (t.sessions sid).has_client || (t.sessions sid).closed) ≡ false
        → (t.sessions sid).closed ≡ false
    is_open e = ground arith

accept_client-InService :
    (env : Env) (handler : ℕ) (t : InportService)
    → t.next_session_id + 1 < 2 ^ 32
    → InService t
    → InService (accept_client env handler t)
unfolding accept_client fgw_session
accept_client-InService env handler t room k = record {
  own = λ j. at j (λ (x : FgwSession). x.session_id ≡ j) (λ e. sym e) (λ e. k.own j);
  open_known = λ j.
      at j (λ (x : FgwSession). x.closed ≡ false → has_key j (insert sid true t.registered) ≡ true)
        (λ e h.
          subst (λ (i : ℕ). has_key i (insert sid true t.registered) ≡ true) (sym e)
            (has_key-insert_self sid true t.registered))
        (λ e h. has_key-insert_old sid j true t.registered (k.open_known j h));
  known_open = λ j h.
      at j (λ (x : FgwSession). x.closed ≡ false) (λ e. refl)
        (λ e. k.known_open j (kept j e (has_key-insert sid j true t.registered h)));
  with_client = λ j.
      at j (λ (x : FgwSession). x.closed ≡ false → x.has_client ≡ true) (λ e h. refl)
        (λ e. k.with_client j);
  unused = λ j h.
      at j (λ (x : FgwSession). x.closed ≡ true) (λ e. absurd (above j h e))
        (λ e. k.unused j (older j h));
  not_closed = λ j.
      at j (λ (x : FgwSession). x.closed ≡ false → has_closed j t.client_actions ≡ false)
        (λ e h.
          subst (λ (i : ℕ). has_closed i t.client_actions ≡ false) (sym e)
            (k.never_closed sid (omega arith)))
        (λ e. k.not_closed j);
  never_closed = λ j h. k.never_closed j (older j h);
  hung_up = λ j first below.
      at j (λ (x : FgwSession). x.closed ≡ true → has_closed j t.client_actions ≡ true)
        (λ e h. absurd (still_open h)) (λ e. k.hung_up j first (younger j below e));
  tidy = k.tidy;
}
  where
    sid : ℕ
    sid = t.next_session_id

    at :
        (j : ℕ) (Q : FgwSession → Type 0)
        → (j ≡ sid → Q (fgw_session sid))
        → ((sid == j) ≡ false → Q (t.sessions j))
        → Q ((put_session (fgw_session sid) t).sessions j)
    at j Q = put_at Q (fgw_session sid) t sid j refl

    next_is : (sid + 1) % 2 ^ 32 ≡ sid + 1
    next_is = omega arith

    older : (j : ℕ) → (sid + 1) % 2 ^ 32 ≤ j → sid ≤ j
    older j h = omega arith

    above : (j : ℕ) → (sid + 1) % 2 ^ 32 ≤ j → j ≡ sid → ⊥
    above j h e = omega arith

    younger : (j : ℕ) → j < (sid + 1) % 2 ^ 32 → (sid == j) ≡ false → j < sid
    younger j h e = ground arith

    kept :
        (j : ℕ)
        → (sid == j) ≡ false
        → (sid ≡ j) ⊎ (has_key j t.registered ≡ true)
        → has_key j t.registered ≡ true
    kept j e h = ground arith

    still_open : false ≡ true → ⊥
    still_open h = ground arith

close_client-InService :
    (env : Env) (sid : ℕ) (t : InportService) → InService t → InService (close_client env sid t)
close_client-InService env sid t k =
    close_client-Serves env t.registered (close_client env sid t).registered sid t kept k
  where
    kept :
        (j : ℕ)
        → (sid == j) ≡ false
        → has_key j t.registered ≡ true
        → has_key j (close_client env sid t).registered ≡ true
    kept j other h =
        unfold close_client in
        if_either (λ (x : InportService). has_key j x.registered ≡ true) (t.sessions sid).closed t _
          h (has_key-erase_ne sid j t.registered (λ e. ground arith) h)

Step-InService : (env : Env) {t t' : InportService} → Step env t t' → InService t → InService t'
unfolding inport_start
Step-InService env (started listens t) k =
    if_either (λ (x : Result ℕ × InportService). InService x.1) t.listening _ _ k
      (if_either (λ (x : Result ℕ × InportService). InService x.1) listens _ _ k k)
Step-InService env (accepted handler t room) k = accept_client-InService env handler t room k
Step-InService env (client_sent sid bytes t) k = on_client_bytes-InService env sid bytes t k
Step-InService env (client_left sid t) k = close_client-InService env sid t k
Step-InService env (peer_sent sid bytes t) k = on_session_data-InService env sid bytes t k
Step-InService env (stopped t) k = inport_stop-InService env t k

new-InService : (stream : DataStream) → InService (inport_service stream)
unfolding has_key lookup has_closed orderly fgw_session
new-InService stream = record {
  own = λ sid. refl;
  open_known = λ sid h. ground arith;
  known_open = λ sid h. ground arith;
  with_client = λ sid h. ground arith;
  unused = λ sid h. refl;
  not_closed = λ sid h. refl;
  never_closed = λ sid h. refl;
  hung_up = λ sid first below h. absurd (none_yet sid first below);
  tidy = λ sid. refl;
}
  where
    none_yet : (sid : ℕ) → 1 ≤ sid → sid < 1 → ⊥
    none_yet sid first below = omega arith

Reaches-InService_from :
    (env : Env) {t t' : InportService} → InService t → Reaches env t t' → InService t'
Reaches-InService_from env k (here t) = k
Reaches-InService_from env k (and_then r step) =
    Step-InService env step (Reaches-InService_from env k r)

-- Whatever a new InportService does, in whatever order, as long as fewer than 2 ^ 32 clients are
-- accepted: the sessions that are not closed are those of its table, and have a client; no session
-- has a number that is still to be given; the client's socket of each session that is closed was
-- closed, of each other one it was not; and nothing is done to a socket after it was closed.
pub Reaches-InService :
    (env : Env) (stream : DataStream) (t : InportService)
    → Reaches env (inport_service stream) t
    → InService t
Reaches-InService env stream t r = Reaches-InService_from env (new-InService stream) r

-- When a new InportService has done whatever it does, in whatever order, with fewer than 2 ^ 32
-- clients accepted, and then is stopped, every session that it ever gave a number to is closed and
-- its client's socket was closed.
pub Reaches-inport_stop :
    (env : Env) (stream : DataStream) (t : InportService) (sid : ℕ)
    → Reaches env (inport_service stream) t
    → 1 ≤ sid
    → sid < t.next_session_id
    → ((inport_stop env t).sessions sid).closed ≡ true
      × has_closed sid (inport_stop env t).client_actions ≡ true
Reaches-inport_stop env stream t sid r first below =
    inport_stop-hung_up env t sid (Reaches-InService env stream t r) first below
