-- ===== src/Relay/Request.antt =====
-- src/zfgw_outport.cpp: what more bytes behind a request change of tryParseRequest.
use libfgw.Prelude.{
  ℕ, ◌≤◌, ◌≡◌, inl, inr, refl, sym, subst, ap, ap₂, ◌∙◌, not, List, ◌++◌, ◌==◌, if◌then◌else◌,
  both_if, if_either, length, drop, get_or, get_or-append_left, drop-append_left, arith,
}
use libfgw.Relay.Socks.{Target, partial, unsupported, target, parse_target, target_text, socks5_ver}
use libfgw.Relay.Session.{
  connecting, RelaySession, RelayEnv, close, write_reply, Parsed, go_on, stop, start_connect,
  try_parse_request,
}
use libfgw.Relay.Stable.{Settled, if_less-Settled, if-Settled, Inside, parse_target-append}
use libfgw.Relay.Buffered.{
  push, push_parsed, RequestDone, close-push, closed-Idle, start_connect-push, start_connect-Idle,
}

-- A request for `host` and `port`, with what is behind it in the buffer.
abbrev requested : RelayEnv → ℕ → List ℕ → ℕ → RelaySession → Parsed
requested env cmd host port rest =
    if not (cmd == 1)
    then stop (close (write_reply 7 rest))
    else go_on (
        start_connect env host port
          (record rest { target_addr = target_text host port; state = connecting }))

requested-push :
    (env : RelayEnv) (cmd : ℕ) (host : List ℕ) (port : ℕ) (more : List ℕ) (rest : RelaySession)
    → requested env cmd host port (push more rest)
      ≡ push_parsed more (requested env cmd host port rest)
unfolding write_reply
requested-push env cmd host port more rest =
    let dialling = record rest { target_addr = target_text host port; state = connecting } in
    sym (
      both_if (push_parsed more) (not (cmd == 1)) (stop (close (write_reply 7 rest)))
        (go_on (start_connect env host port dialling))
        (stop (close (write_reply 7 (push more rest))))
        (go_on (start_connect env host port (push more dialling)))
        (ap stop (sym (close-push more (write_reply 7 rest))))
        (ap go_on (sym (start_connect-push env host port more dialling))))

requested-RequestDone :
    (env : RelayEnv) (cmd : ℕ) (host : List ℕ) (port : ℕ) (rest : RelaySession)
    → RequestDone (requested env cmd host port rest)
requested-RequestDone env cmd host port rest =
    if_either RequestDone (not (cmd == 1)) _ _ (closed-Idle (write_reply 7 rest)) (
      start_connect-Idle env host port
        (record rest { target_addr = target_text host port; state = connecting }) refl)

-- A reply and the end.
refused : RelaySession → Parsed
refused s = stop (close (write_reply 7 s))

refused-push :
    (more : List ℕ) (s : RelaySession) → refused (push more s) ≡ push_parsed more (refused s)
unfolding refused write_reply
refused-push more s = ap stop (close-push more (write_reply 7 s))

abbrev asked : RelayEnv → ℕ → Target → RelaySession → Parsed
asked env cmd t s = elim t [
  | partial ↦ stop s
  | unsupported ↦ stop (close (write_reply 7 s))
  | target host port need ↦
      requested env cmd host port (record s { rx_buffer = drop need s.rx_buffer })
]

-- try_parse_request on five bytes at least, with what it decides by.
abbrev request_by : RelayEnv → ℕ → ℕ → Target → RelaySession → Parsed
request_by env ver cmd t s = if not (ver == socks5_ver) then stop (close s) else asked env cmd t s

module _ (env : RelayEnv) (more : List ℕ) (s : RelaySession) where
  abbrev pub Waits : Parsed → Parsed → Type 0
  Waits = Settled (push_parsed more) (stop s) RequestDone s.rx_buffer more

  asked-Waits :
      (cmd : ℕ) (t : Target)
      → Inside s.rx_buffer t
      → Waits (asked env cmd t s) (asked env cmd t (push more s))
  unfolding refused
  asked-Waits cmd partial i = inl refl
  asked-Waits cmd unsupported i = inr (refused-push more s, closed-Idle (write_reply 7 s))
  asked-Waits cmd (target host port need) i = inr (
    ap (λ (xs : List ℕ). requested env cmd host port (record s { rx_buffer = xs }))
          (drop-append_left s.rx_buffer more need i)
        ∙ requested-push env cmd host port more (record s { rx_buffer = drop need s.rx_buffer }),
    requested-RequestDone env cmd host port (record s { rx_buffer = drop need s.rx_buffer }),
  )

  by_target :
      (cmd : ℕ) (t t' : Target)
      → Settled (λ x. x) partial (Inside s.rx_buffer) s.rx_buffer more t t'
      → Waits (asked env cmd t s) (asked env cmd t' (push more s))
  by_target cmd t t' (inl waits) = inl (ap (λ (x : Target). asked env cmd x s) waits)
  by_target cmd t t' (inr (same, inside)) =
      subst (λ (x : Target). Waits (asked env cmd t s) (asked env cmd x (push more s))) (sym same)
        (asked-Waits cmd t inside)

  -- The bytes that decide are those of the longer buffer too.
  long-Waits :
      5 ≤ length s.rx_buffer
      → Waits
          (request_by env
            (get_or s.rx_buffer 0 0)
            (get_or s.rx_buffer 1 0)
            (parse_target s.rx_buffer)
            s)
          (request_by env
            (get_or (s.rx_buffer ++ more) 0 0)
            (get_or (s.rx_buffer ++ more) 1 0)
            (parse_target (s.rx_buffer ++ more))
            (push more s))
  long-Waits long =
      subst
        (Waits (
          request_by env (get_or s.rx_buffer 0 0) (get_or s.rx_buffer 1 0)
            (parse_target s.rx_buffer) s))
        (sym (
          ap₂
            (λ (ver cmd : ℕ).
              request_by env ver cmd (parse_target (s.rx_buffer ++ more)) (push more s))
            (get_or-append_left s.rx_buffer more 0 0 (omega arith))
            (get_or-append_left s.rx_buffer more 1 0 (omega arith))))
        (if-Settled (push_parsed more) (stop s) RequestDone s.rx_buffer more
          (not (get_or s.rx_buffer 0 0 == socks5_ver)) _ _ _ _
          (inr (ap stop (close-push more s), closed-Idle s))
          (by_target (get_or s.rx_buffer 1 0) (parse_target s.rx_buffer)
            (parse_target (s.rx_buffer ++ more)) (parse_target-append s.rx_buffer more long)))

  pub try_parse_request-Waits :
      Waits (try_parse_request env s) (try_parse_request env (push more s))
  unfolding try_parse_request
  try_parse_request-Waits =
      if_less-Settled (push_parsed more) (stop s) RequestDone s.rx_buffer more 5 _ _ _ long-Waits
