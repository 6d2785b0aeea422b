-- ===== src/Inport/Log.antt =====
-- src/zfgw_inport.cpp: the order of what FgwSession does to a client's socket.
use libfgw.Prelude.{
  ℕ, ◌≡◌, refl, Bool, true, false, not, ◌||◌, List, [], ◌∷◌, ◌++◌, ◌==◌, if◌then◌else◌, Bool-cases,
  inl, inr, arith,
}
use libfgw.Inport.{ClientAction, client_write, client_close}

-- The session that an action is of.
abbrev pub of_session : ClientAction → ℕ
of_session (client_write sid bytes) = sid
of_session (client_close sid) = sid

abbrev pub is_close : ClientAction → Bool
is_close (client_write sid bytes) = false
is_close (client_close sid) = true

unfoldable pub touches : ℕ → List ClientAction → Bool
touches sid [] = false
touches sid (a ∷ log) = (of_session a == sid) || touches sid log

unfoldable pub has_closed : ℕ → List ClientAction → Bool
has_closed sid [] = false
has_closed sid (client_write s bytes ∷ log) = has_closed sid log
has_closed sid (client_close s ∷ log) = (s == sid) || has_closed sid log

-- Nothing is done to the socket of a session after it was closed.
unfoldable pub orderly : ℕ → List ClientAction → Bool
unfolding touches
orderly sid [] = true
orderly sid (client_write s bytes ∷ log) = orderly sid log
orderly sid (client_close s ∷ log) =
    let rest = orderly sid log in if s == sid then not (touches sid log) else rest

touches-other :
    (sid : ℕ) (a : ClientAction) (log : List ClientAction)
    → (of_session a == sid) ≡ false
    → touches sid (log ++ a ∷ []) ≡ touches sid log
unfolding touches
touches-other sid a [] h = ground arith
touches-other sid a (b ∷ log) h = ground (arith, touches-other sid a log)

pub has_closed-other :
    (sid : ℕ) (a : ClientAction) (log : List ClientAction)
    → (of_session a == sid) ≡ false
    → has_closed sid (log ++ a ∷ []) ≡ has_closed sid log
unfolding has_closed
has_closed-other sid (client_write s bytes) [] h = refl
has_closed-other sid (client_close s) [] h = ground arith
has_closed-other sid a (client_write s bytes ∷ log) h = has_closed-other sid a log h
has_closed-other sid a (client_close s ∷ log) h = ground (arith, has_closed-other sid a log)

pub has_closed-close :
    (sid : ℕ) (log : List ClientAction) → has_closed sid (log ++ client_close sid ∷ []) ≡ true
unfolding has_closed
has_closed-close sid [] = ground arith
has_closed-close sid (client_write s bytes ∷ log) = has_closed-close sid log
has_closed-close sid (client_close s ∷ log) = ground (arith, has_closed-close sid log)

pub has_closed-write :
    (sid s : ℕ) (bytes : List ℕ) (log : List ClientAction)
    → has_closed sid (log ++ client_write s bytes ∷ []) ≡ has_closed sid log
unfolding has_closed
has_closed-write sid s bytes [] = refl
has_closed-write sid s bytes (client_write t more ∷ log) = has_closed-write sid s bytes log
has_closed-write sid s bytes (client_close t ∷ log) =
    ground (arith, has_closed-write sid s bytes log)

-- An action of a session that was not closed, or of another one.
pub orderly-action :
    (sid : ℕ) (a : ClientAction) (log : List ClientAction)
    → ((of_session a == sid) ≡ true → has_closed sid log ≡ false)
    → orderly sid log ≡ true
    → orderly sid (log ++ a ∷ []) ≡ true
unfolding orderly has_closed
orderly-action sid (client_write s bytes) [] h o = refl
orderly-action sid (client_close s) [] h o = unfold touches in ground arith
orderly-action sid a (client_write s bytes ∷ log) h o = orderly-action sid a log h o
orderly-action sid a (client_close s ∷ log) h o = elim (Bool-cases (of_session a == sid)) [
  | inl mine ↦ ground (arith, orderly-action sid a log)
  | inr other ↦ ground (arith, orderly-action sid a log, touches-other sid a log)
]
