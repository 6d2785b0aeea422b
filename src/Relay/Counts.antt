-- ===== src/Relay/Counts.antt =====
-- What a relay session holds and has told in each of its states.
use libfgw.Prelude.{
  ℕ, ◌+◌, ◌≤◌, ◌≡◌, refl, inl, inr, ◌∙◌, Bool, true, false, List, [], ◌∷◌, ◌++◌, Bool-cases,
  if◌then◌else◌, arith,
}
use libfgw.Relay.Session.{
  RelayState, await_methods, await_request, connecting, relaying, closed, Action, to_peer, dial,
  to_remote, close_remote, close_stream, remove_session, RelaySession, is_closed, act, close,
  send_to_peer,
}

abbrev pub is_dial : Action → Bool
is_dial (dial host port) = true
is_dial (to_peer bytes) = false
is_dial (to_remote bytes) = false
is_dial close_remote = false
is_dial close_stream = false
is_dial remove_session = false

abbrev pub is_close_remote : Action → Bool
is_close_remote close_remote = true
is_close_remote (dial host port) = false
is_close_remote (to_peer bytes) = false
is_close_remote (to_remote bytes) = false
is_close_remote close_stream = false
is_close_remote remove_session = false

abbrev pub is_close_stream : Action → Bool
is_close_stream close_stream = true
is_close_stream (dial host port) = false
is_close_stream (to_peer bytes) = false
is_close_stream (to_remote bytes) = false
is_close_stream close_remote = false
is_close_stream remove_session = false

abbrev pub is_removal : Action → Bool
is_removal remove_session = true
is_removal (dial host port) = false
is_removal (to_peer bytes) = false
is_removal (to_remote bytes) = false
is_removal close_remote = false
is_removal close_stream = false

unfoldable pub times : (Action → Bool) → List Action → ℕ
times p [] = 0
times p (a ∷ actions) = (if p a then 1 else 0) + times p actions

times-snoc :
    (p : Action → Bool) (a : Action) (actions : List Action)
    → times p (actions ++ a ∷ []) ≡ times p actions + (if p a then 1 else 0)
unfolding times
times-snoc p a [] = omega arith
times-snoc p a (x ∷ actions) = omega (arith, times-snoc p a actions)

pub times-act :
    (p : Action → Bool) (a : Action) (s : RelaySession)
    → times p (act a s).actions ≡ times p s.actions + (if p a then 1 else 0)
unfolding act
times-act p a s = times-snoc p a s.actions

-- The numbers of dials, of closes of the outbound connection and of the stream's session, and of
-- removals from the service.
abbrev pub Counts : ℕ → ℕ → ℕ → List Action → Type 0
Counts dials remote ended actions =
    (times is_dial actions ≡ dials)
    × (times is_close_remote actions ≡ remote)
    × (times is_close_stream actions ≡ ended)
    × (times is_removal actions ≡ ended)

-- What holds in each state: the dial comes with the connecting state, the outbound connection is
-- held from then to the end, and the end is told once, to the stream, the service and the remote.
abbrev pub Held : RelayState → Bool → List Action → Type 0
Held await_methods has actions = (has ≡ false) × Counts 0 0 0 actions
Held await_request has actions = (has ≡ false) × Counts 0 0 0 actions
Held connecting has actions = (has ≡ true) × Counts 1 0 0 actions
Held relaying has actions = (has ≡ true) × Counts 1 0 0 actions
Held closed has actions = (has ≡ false) × (n : ℕ) × (n ≤ 1) × Counts n n 1 actions

abbrev pub Lifecycle : RelaySession → Type 0
Lifecycle s = Held s.state s.has_remote s.actions

times-close :
    (p : Action → Bool) (s : RelaySession)
    → is_closed s.state ≡ false
    → times p (close s).actions
      ≡ times p s.actions
        + ((if s.has_remote then (if p close_remote then 1 else 0) else 0)
            + ((if p close_stream then 1 else 0) + (if p remove_session then 1 else 0)))
unfolding close
times-close p s up = elim (Bool-cases s.has_remote) [
  | inl e ↦
      let s1 : RelaySession = record s { state = closed } in
      let s2 : RelaySession = record (act close_remote s1) { has_remote = false } in
      rw (up, e)
        (omega (
          arith,
          times-act p remove_session (act close_stream s2),
          times-act p close_stream s2,
          times-act p close_remote s1,
        ))
  | inr e ↦
      let s1 : RelaySession = record s { state = closed } in
      rw (up, e)
        (omega
          (arith, times-act p remove_session (act close_stream s1), times-act p close_stream s1))
]

close-state :
    (s : RelaySession)
    → is_closed s.state ≡ false
    → ((close s).state ≡ closed) × ((close s).has_remote ≡ false)
unfolding close act
close-state s up = elim (Bool-cases s.has_remote) [
  | inl e ↦ rw (up, e) (refl, refl)
  | inr e ↦ rw (up, e) (refl, refl)
]

-- Ends a session that is not over: it holds the outbound connection if it dialled.
close-Counts :
    (s : RelaySession) (n : ℕ)
    → is_closed s.state ≡ false
    → n ≤ 1
    → (if s.has_remote then 1 else 0) ≡ n
    → Counts n 0 0 s.actions
    → Lifecycle (close s)
close-Counts s n up small held c = rw ((close-state s up).0) (
  (close-state s up).1,
  n,
  small,
  (
    ground (arith, held, times-close is_dial s up, c.0),
    ground (arith, times-close is_close_remote s up, c.1, held),
    ground (arith, held, times-close is_close_stream s up, c.2),
    ground (arith, held, times-close is_removal s up, c.3),
  ),
)

pub close-over : (s : RelaySession) → is_closed s.state ≡ true → close s ≡ s
unfolding close
close-over s over = rw over refl

pub close-Lifecycle : (s : RelaySession) → Lifecycle s → Lifecycle (close s)
close-Lifecycle s l = by_state s.state refl l
  where
    by_state :
        (st : RelayState) → s.state ≡ st → Held st s.has_remote s.actions → Lifecycle (close s)
    by_state await_methods e h = close-Counts s 0 (rw e refl) (omega arith) (rw h.0 refl) h.1
    by_state await_request e h = close-Counts s 0 (rw e refl) (omega arith) (rw h.0 refl) h.1
    by_state connecting e h = close-Counts s 1 (rw e refl) (omega arith) (rw h.0 refl) h.1
    by_state relaying e h = close-Counts s 1 (rw e refl) (omega arith) (rw h.0 refl) h.1
    by_state closed e h = rw (close-over s (rw e refl)) l

-- The counts that matter are the same.
abbrev pub SameCounts : List Action → List Action → Type 0
SameCounts xs ys =
    (times is_dial ys ≡ times is_dial xs)
    × (times is_close_remote ys ≡ times is_close_remote xs)
    × (times is_close_stream ys ≡ times is_close_stream xs)
    × (times is_removal ys ≡ times is_removal xs)

Counts-same :
    (a b c : ℕ) (xs ys : List Action) → SameCounts xs ys → Counts a b c xs → Counts a b c ys
Counts-same a b c xs ys e h = (e.0 ∙ h.0, e.1 ∙ h.1, e.2 ∙ h.2, e.3 ∙ h.3)

pub Held-same :
    (st : RelayState) (has : Bool) (xs ys : List Action)
    → SameCounts xs ys
    → Held st has xs
    → Held st has ys
Held-same await_methods has xs ys e h = (h.0, Counts-same 0 0 0 xs ys e h.1)
Held-same await_request has xs ys e h = (h.0, Counts-same 0 0 0 xs ys e h.1)
Held-same connecting has xs ys e h = (h.0, Counts-same 1 0 0 xs ys e h.1)
Held-same relaying has xs ys e h = (h.0, Counts-same 1 0 0 xs ys e h.1)
Held-same closed has xs ys e h = (h.0, h.1, h.2, Counts-same h.1 h.1 1 xs ys e h.3)

pub act-SameCounts :
    (a : Action) (s : RelaySession)
    → is_dial a ≡ false
    → is_close_remote a ≡ false
    → is_close_stream a ≡ false
    → is_removal a ≡ false
    → SameCounts s.actions (act a s).actions
act-SameCounts a s d r c m = (
  ground (arith, d, times-act is_dial a s),
  ground (arith, r, times-act is_close_remote a s),
  ground (arith, c, times-act is_close_stream a s),
  ground (arith, m, times-act is_removal a s),
)

-- Bytes to the peer or to the remote change no count.
pub send_to_peer-SameCounts :
    (bytes : List ℕ) (s : RelaySession) → SameCounts s.actions (send_to_peer bytes s).actions
unfolding send_to_peer
send_to_peer-SameCounts bytes s = act-SameCounts (to_peer bytes) s refl refl refl refl
