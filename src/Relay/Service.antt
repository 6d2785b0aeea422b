-- ===== src/Relay/Service.antt =====
-- src/zfgw_outport.cpp: OutportService's table of sessions.
use libfgw.Prelude.{ℕ, List, [], ◌∷◌, none, some, Map, lookup, insert, erase, pair_ord}
use libfgw.Relay.Session.{RelaySession, relay_session, close}

-- ensureSession, which the stream calls for a session that it does not know.
unfoldable pub ensure_relay :
    ℕ → ℕ → Map (ℕ × ℕ) RelaySession → RelaySession × Map (ℕ × ℕ) RelaySession
ensure_relay peer_ingress session_id sessions =
    let key : ℕ × ℕ = (peer_ingress, session_id) in
    let made = relay_session peer_ingress session_id in
    elim (lookup key sessions) [ none ↦ (made, insert key made sessions) | some s ↦ (s, sessions) ]

unfoldable pub remove_relay : ℕ → ℕ → Map (ℕ × ℕ) RelaySession → Map (ℕ × ℕ) RelaySession
remove_relay peer_ingress session_id sessions = erase (peer_ingress, session_id) sessions

unfoldable pub snapshot_relays : Map (ℕ × ℕ) RelaySession → List RelaySession
snapshot_relays [] = []
snapshot_relays ((key, s) ∷ m) = s ∷ snapshot_relays m

-- stop: the table is emptied, and each session closed.
unfoldable pub stop_relays : Map (ℕ × ℕ) RelaySession → List RelaySession
stop_relays [] = []
stop_relays ((key, s) ∷ m) = close s ∷ stop_relays m
