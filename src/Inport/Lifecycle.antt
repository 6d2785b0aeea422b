-- ===== src/Inport/Lifecycle.antt =====
-- src/zfgw_inport.cpp: the sessions of an InportService and its table, whatever clients and peer do.
use libfgw.Prelude.{
  ◌<◌, ℕ, ◌≤◌, ◌≡◌, sym, subst, ◌∙◌, Bool, true, false, List, ◌==◌, ==_iff, if_cases, Map, has_key,
  nat_ord, arith,
}
use libfgw.Inport.{FgwSession, InportService, ClientAction, put_session}
use libfgw.Inport.Log.{has_closed, orderly}

-- The open sessions are those of the table, each with its client's socket, which was not closed; the
-- numbers from the next one on are new; nothing is done to a socket after it was closed. `table` is
-- where the open sessions are found: the service's table, or the copy that stop goes through.
pub record Kept (table : Map ℕ Bool) (sessions : ℕ → FgwSession) (registered : Map ℕ Bool)
    (next : ℕ) (actions : List ClientAction) : Type 0 where
  pub own : (sid : ℕ) → (sessions sid).session_id ≡ sid
  pub open_known : (sid : ℕ) → (sessions sid).closed ≡ false → has_key sid table ≡ true
  pub known_open : (sid : ℕ) → has_key sid registered ≡ true → (sessions sid).closed ≡ false
  pub with_client : (sid : ℕ) → (sessions sid).closed ≡ false → (sessions sid).has_client ≡ true
  pub unused : (sid : ℕ) → next ≤ sid → (sessions sid).closed ≡ true
  pub not_closed : (sid : ℕ) → (sessions sid).closed ≡ false → has_closed sid actions ≡ false
  pub never_closed : (sid : ℕ) → next ≤ sid → has_closed sid actions ≡ false
  pub hung_up :
      (sid : ℕ)
      → 1 ≤ sid
      → sid < next
      → (sessions sid).closed ≡ true
      → has_closed sid actions ≡ true
  pub tidy : (sid : ℕ) → orderly sid actions ≡ true

abbrev pub Serves : Map ℕ Bool → InportService → Type 0
Serves table t = Kept table t.sessions t.registered t.next_session_id t.client_actions

abbrev pub InService : InportService → Type 0
InService t = Serves t.registered t

-- The session at `j` after that of `sid` was changed.
pub put_at :
    (Q : FgwSession → Type 0) (s : FgwSession) (t : InportService) (sid j : ℕ)
    → s.session_id ≡ sid
    → (j ≡ sid → Q s)
    → ((sid == j) ≡ false → Q (t.sessions j))
    → Q ((put_session s t).sessions j)
unfolding put_session
put_at Q s t sid j is new old =
    if_cases Q (j == s.session_id) _ _ (λ e. new ((==_iff j s.session_id).0 e ∙ is))
      (λ e. old (ground arith))

-- Counting bytes changes nothing of this.
pub counted-Kept :
    (table : Map ℕ Bool) (s : FgwSession) (t : InportService) (sid : ℕ)
    → s.session_id ≡ (t.sessions sid).session_id
    → s.closed ≡ (t.sessions sid).closed
    → s.has_client ≡ (t.sessions sid).has_client
    → Kept table t.sessions t.registered t.next_session_id t.client_actions
    → Kept table (put_session s t).sessions t.registered t.next_session_id t.client_actions
counted-Kept table s t sid same_id same_closed same_client k = record {
  own = λ j. at j (λ (x : FgwSession). x.session_id ≡ j) (λ e. id_is ∙ sym e) (λ e. k.own j);
  open_known = λ j.
      at j (λ (x : FgwSession). x.closed ≡ false → has_key j table ≡ true)
        (λ e h.
          subst (λ (i : ℕ). has_key i table ≡ true) (sym e)
            (k.open_known sid (sym same_closed ∙ h)))
        (λ e. k.open_known j);
  known_open = λ j h.
      at j (λ (x : FgwSession). x.closed ≡ false)
        (λ e. same_closed ∙ k.known_open sid (subst (λ (i : ℕ). has_key i t.registered ≡ true) e h))
        (λ e. k.known_open j h);
  with_client = λ j.
      at j (λ (x : FgwSession). x.closed ≡ false → x.has_client ≡ true)
        (λ e h. same_client ∙ k.with_client sid (sym same_closed ∙ h)) (λ e. k.with_client j);
  unused = λ j h.
      at j (λ (x : FgwSession). x.closed ≡ true)
        (λ e. same_closed ∙ k.unused sid (subst (λ (i : ℕ). t.next_session_id ≤ i) e h))
        (λ e. k.unused j h);
  not_closed = λ j.
      at j (λ (x : FgwSession). x.closed ≡ false → has_closed j t.client_actions ≡ false)
        (λ e h.
          subst (λ (i : ℕ). has_closed i t.client_actions ≡ false) (sym e)
            (k.not_closed sid (sym same_closed ∙ h)))
        (λ e. k.not_closed j);
  never_closed = k.never_closed;
  hung_up = λ j first below.
      at j (λ (x : FgwSession). x.closed ≡ true → has_closed j t.client_actions ≡ true)
        (λ e h.
          k.hung_up j first below
            (subst (λ (i : ℕ). (t.sessions i).closed ≡ true) (sym e) (sym same_closed ∙ h)))
        (λ e. k.hung_up j first below);
  tidy = k.tidy;
}
  where
    id_is : s.session_id ≡ sid
    id_is = same_id ∙ k.own sid

    at :
        (j : ℕ) (Q : FgwSession → Type 0)
        → (j ≡ sid → Q s)
        → ((sid == j) ≡ false → Q (t.sessions j))
        → Q ((put_session s t).sessions j)
    at j Q = put_at Q s t sid j id_is
