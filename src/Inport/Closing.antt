-- ===== src/Inport/Closing.antt =====
-- src/zfgw_inport.cpp: FgwSession::close and InportService::stop, and what becomes of the sessions.
use libfgw.Prelude.{
  ℕ, ◌<◌, Bool-cases, inl, inr, ◌≡◌, refl, sym, subst, ◌∙◌, Bool, true, false, List, [], ◌∷◌, ◌++◌,
  ◌==◌, ==_iff, if◌then◌else◌, if_cases, if_either, ==_ne, Map, erase, has_key, has_key-erase,
  lookup, nat_ord, arith, ◌≤◌, ◌<◌,
}
use libfgw.Stream.State.{Env}
use libfgw.Inport.{
  FgwSession, InportService, ClientAction, client_close, put_session, close_client, close_clients,
  inport_stop,
}
use libfgw.Inport.Log.{has_closed, orderly, has_closed-close, has_closed-other, orderly-action}
use libfgw.Inport.Lifecycle.{Kept, Serves, InService, put_at}

-- What close writes to the list of actions.
abbrev closing : ℕ → FgwSession → List ClientAction → List ClientAction
closing sid s log = if s.has_client then log ++ client_close sid ∷ [] else log

has_closed-closing :
    (sid j : ℕ) (s : FgwSession) (log : List ClientAction) (b : Bool)
    → (sid == j) ≡ false
    → has_closed j log ≡ b
    → has_closed j (closing sid s log) ≡ b
has_closed-closing sid j s log b other h =
    if_either (λ (x : List ClientAction). has_closed j x ≡ b) s.has_client
      (log ++ client_close sid ∷ []) log (has_closed-other j (client_close sid) log other ∙ h) h

has_closed-closing_self :
    (sid : ℕ) (s : FgwSession) (log : List ClientAction)
    → s.has_client ≡ true
    → has_closed sid (closing sid s log) ≡ true
has_closed-closing_self sid s log h =
    if_cases (λ (x : List ClientAction). has_closed sid x ≡ true) s.has_client
      (log ++ client_close sid ∷ []) log (λ e. has_closed-close sid log) (λ e. ground arith)

orderly-closing :
    (sid j : ℕ) (s : FgwSession) (log : List ClientAction)
    → has_closed sid log ≡ false
    → orderly j log ≡ true
    → orderly j (closing sid s log) ≡ true
orderly-closing sid j s log h o =
    if_either (λ (x : List ClientAction). orderly j x ≡ true) s.has_client
      (log ++ client_close sid ∷ []) log
      (orderly-action j (client_close sid) log
        (λ e. subst (λ (i : ℕ). has_closed i log ≡ false) ((==_iff sid j).0 e) h) o)
      o

-- An open session that is closed: `table` without it keeps the rest.
shut-Kept :
    (table table' : Map ℕ Bool) (s : FgwSession) (t : InportService) (sid : ℕ)
    → s.session_id ≡ sid
    → s.closed ≡ true
    → (t.sessions sid).closed ≡ false
    → ((j : ℕ) → (sid == j) ≡ false → has_key j table ≡ true → has_key j table' ≡ true)
    → Serves table t
    → Kept table'
        (put_session s t).sessions
        (erase sid t.registered)
        t.next_session_id
        (closing sid (t.sessions sid) t.client_actions)
shut-Kept table table' s t sid id_is shut was_open rest k = record {
  own = λ j. at j (λ (x : FgwSession). x.session_id ≡ j) (λ e. id_is ∙ sym e) (λ e. k.own j);
  open_known = λ j.
      at j (λ (x : FgwSession). x.closed ≡ false → has_key j table' ≡ true)
        (λ e h. absurd (not_open h)) (λ e h. rest j e (k.open_known j h));
  known_open = λ j h.
      at j (λ (x : FgwSession). x.closed ≡ false)
        (λ e. absurd ((has_key-erase sid j t.registered h).0 (sym e)))
        (λ e. k.known_open j (has_key-erase sid j t.registered h).1);
  with_client = λ j.
      at j (λ (x : FgwSession). x.closed ≡ false → x.has_client ≡ true) (λ e h. absurd (not_open h))
        (λ e. k.with_client j);
  unused = λ j h. at j (λ (x : FgwSession). x.closed ≡ true) (λ e. shut) (λ e. k.unused j h);
  not_closed = λ j.
      at j
        (λ (x : FgwSession).
          x.closed ≡ false → has_closed j (closing sid (t.sessions sid) t.client_actions) ≡ false)
        (λ e h. absurd (not_open h))
        (λ e h.
          has_closed-closing sid j (t.sessions sid) t.client_actions false e (k.not_closed j h));
  never_closed = λ j h.
      has_closed-closing sid j (t.sessions sid) t.client_actions false (used j h)
        (k.never_closed j h);
  hung_up = λ j first below.
      at j
        (λ (x : FgwSession).
          x.closed ≡ true → has_closed j (closing sid (t.sessions sid) t.client_actions) ≡ true)
        (λ e h.
          subst (λ (i : ℕ). has_closed i (closing sid (t.sessions sid) t.client_actions) ≡ true)
            (sym e)
            (has_closed-closing_self sid (t.sessions sid) t.client_actions
              (k.with_client sid was_open)))
        (λ e h.
          has_closed-closing sid j (t.sessions sid) t.client_actions true e
            (k.hung_up j first below h));
  tidy = λ j.
      orderly-closing sid j (t.sessions sid) t.client_actions (k.not_closed sid was_open)
        (k.tidy j);
}
  where
    at :
        (j : ℕ) (Q : FgwSession → Type 0)
        → (j ≡ sid → Q s)
        → ((sid == j) ≡ false → Q (t.sessions j))
        → Q ((put_session s t).sessions j)
    at j Q = put_at Q s t sid j id_is

    not_open : s.closed ≡ false → ⊥
    not_open h = ground arith

    used : (j : ℕ) → t.next_session_id ≤ j → (sid == j) ≡ false
    used j h =
        ==_ne sid j
          (λ e. two_ways (subst (λ (i : ℕ). (t.sessions i).closed ≡ true) (sym e) (k.unused j h)))
      where
        two_ways : (t.sessions sid).closed ≡ true → ⊥
        two_ways e = ground arith

has_key-none : (j : ℕ) → has_key {V = Bool} j [] ≡ true → ⊥
unfolding has_key lookup
has_key-none j h = ground arith

pub close_client-Serves :
    (env : Env) (table table' : Map ℕ Bool) (sid : ℕ) (t : InportService)
    → ((j : ℕ) → (sid == j) ≡ false → has_key j table ≡ true → has_key j table' ≡ true)
    → Serves table t
    → Serves table' (close_client env sid t)
unfolding close_client
close_client-Serves env table table' sid t rest k =
    if_cases (λ (x : InportService). Serves table' x) (t.sessions sid).closed t _
      (λ shut. record {
        own = k.own;
        open_known = λ j h.
            rest j
              (==_ne sid j
                (λ e. no_way (subst (λ (i : ℕ). (t.sessions i).closed ≡ false) (sym e) h) shut))
              (k.open_known j h);
        known_open = k.known_open;
        with_client = k.with_client;
        unused = k.unused;
        not_closed = k.not_closed;
        never_closed = k.never_closed;
        hung_up = k.hung_up;
        tidy = k.tidy;
      })
      (λ was_open.
        shut-Kept table table' (record (t.sessions sid) { closed = true; has_client = false }) t sid
          (k.own sid) refl was_open rest k)
  where
    no_way : (t.sessions sid).closed ≡ false → (t.sessions sid).closed ≡ true → ⊥
    no_way h e = ground arith

-- Closing the sessions of a map that has all open ones leaves none open.
close_clients-Serves :
    (env : Env) (m : Map ℕ Bool) (t : InportService)
    → Serves m t
    → Serves [] (close_clients env m t)
unfolding close_clients has_key lookup
close_clients-Serves env [] t k = k
close_clients-Serves env ((sid, known) ∷ m) t k =
    close_clients-Serves env m (close_client env sid t)
      (close_client-Serves env ((sid, known) ∷ m) m sid t others k)
  where
    others : (j : ℕ) → (sid == j) ≡ false → has_key j ((sid, known) ∷ m) ≡ true → has_key j m ≡ true
    others j ne h = ground arith

close_client-next :
    (env : Env) (sid : ℕ) (t : InportService)
    → (close_client env sid t).next_session_id ≡ t.next_session_id
unfolding close_client
close_client-next env sid t =
    if_either (λ (x : InportService). x.next_session_id ≡ t.next_session_id) (t.sessions sid).closed
      t _ refl refl

close_clients-next :
    (env : Env) (m : Map ℕ Bool) (t : InportService)
    → (close_clients env m t).next_session_id ≡ t.next_session_id
unfolding close_clients
close_clients-next env [] t = refl
close_clients-next env ((sid, known) ∷ m) t =
    close_clients-next env m (close_client env sid t) ∙ close_client-next env sid t

inport_stop-next :
    (env : Env) (t : InportService) → (inport_stop env t).next_session_id ≡ t.next_session_id
unfolding inport_stop
inport_stop-next env t =
    close_clients-next env t.registered (record t { listening = false; registered = [] })

inport_stop-Serves : (env : Env) (t : InportService) → InService t → Serves [] (inport_stop env t)
unfolding inport_stop
inport_stop-Serves env t k =
    close_clients-Serves env t.registered (record t { listening = false; registered = [] })
      record {
        own = k.own;
        open_known = k.open_known;
        known_open = λ j h. absurd (has_key-none j h);
        with_client = k.with_client;
        unused = k.unused;
        not_closed = k.not_closed;
        never_closed = k.never_closed;
        hung_up = k.hung_up;
        tidy = k.tidy;
      }

pub inport_stop-InService :
    (env : Env) (t : InportService) → InService t → InService (inport_stop env t)
inport_stop-InService env t k =
    let s = inport_stop-Serves env t k in
    record {
      own = s.own;
      open_known = λ j h. absurd (has_key-none j (s.open_known j h));
      known_open = s.known_open;
      with_client = s.with_client;
      unused = s.unused;
      not_closed = s.not_closed;
      never_closed = s.never_closed;
      hung_up = s.hung_up;
      tidy = s.tidy;
    }

-- After stop no session is open: each one's socket was closed.
pub inport_stop-hung_up :
    (env : Env) (t : InportService) (sid : ℕ)
    → InService t
    → 1 ≤ sid
    → sid < t.next_session_id
    → ((inport_stop env t).sessions sid).closed ≡ true
      × has_closed sid (inport_stop env t).client_actions ≡ true
inport_stop-hung_up env t sid k first below = (shut, s.hung_up sid first used shut)
  where
    s : Serves [] (inport_stop env t)
    s = inport_stop-Serves env t k

    used : sid < (inport_stop env t).next_session_id
    used = subst (λ (n : ℕ). sid < n) (sym (inport_stop-next env t)) below

    shut : ((inport_stop env t).sessions sid).closed ≡ true
    shut = elim (Bool-cases ((inport_stop env t).sessions sid).closed) [
      | inl e ↦ e
      | inr e ↦ absurd (has_key-none sid (s.open_known sid e))
    ]
