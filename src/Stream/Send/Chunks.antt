-- ===== src/Stream/Send/Chunks.antt =====
-- src/zfgw_datastream.cpp: the segments that sendSessionData cuts the bytes into.
use libfgw.Prelude.{
  ℕ, zero, suc, ◌+◌, ◌*◌, ◌^◌, ◌<◌, ◌≤◌, ◌≡◌, refl, sym, ap, subst, ◌∙◌, false, List, some, min,
  ◌==◌, if_cases, option_known, length, take, drop, take_same, drop_same, drop-drop, length-take,
  length-drop, ap₂, lookup, insert, pair_ord, nat_ord, arith,
}
use libfgw.Codes.{Result, result_both}
use libfgw.Segment.Header.{max_payload, flag_data}
use libfgw.Segment.RoundTrip.{frame_of}
use libfgw.Stream.State.{SessionState, DataStream, Env}
use libfgw.Stream.Send.{
  segment_header, send_segment, take_seq, send_chunks, send_session_data, resolve_ingress_key,
}
use libfgw.Stream.Send.Wire.{Emits, Emits-none, Emits-trans, data_header, send_segment-Emits}

-- The bytes of segment `k`, where each has `size` bytes and the last one at most so many.
abbrev pub chunk : ℕ → List ℕ → ℕ → List ℕ
chunk size bytes k = take size (drop (k * size) bytes)

-- The frame of segment `k` of a session.
abbrev pub data_frame : DataStream → ℕ → ℕ → List ℕ → ℕ → List ℕ
data_frame s wire_ingress session_id bytes k =
    let payload = chunk s.segment_size bytes k in
    frame_of (data_header s wire_ingress session_id k payload) payload

same_header :
    (s t : DataStream) (wi sid seq : ℕ) (payload : List ℕ)
    → s.route_outport_id ≡ t.route_outport_id
    → data_header s wi sid seq payload ≡ data_header t wi sid seq payload
unfolding segment_header
same_header s t wi sid seq payload h = rw h refl

pub le_mul : (k n : ℕ) → 0 < n → k ≤ k * n
le_mul zero n h = omega arith
le_mul (suc k) n h = omega (arith, le_mul k n h)

module _ (env : Env) (s0 : DataStream) (key : ℕ × ℕ) (wi : ℕ) (bytes : List ℕ)
    (ample : 0 < s0.segment_size) (fits : s0.segment_size ≤ max_payload)
    (short : length bytes < 2 ^ 32) where
  -- The frame of one of the segments.
  abbrev pub IsPiece : ℕ × List ℕ → Type 0
  IsPiece x =
      (k : ℕ) × (k * s0.segment_size < length bytes) × (x.1 ≡ data_frame s0 wi key.1 bytes k)

  some_left : (rest : List ℕ) → (length rest == 0) ≡ false → 0 < length rest
  some_left rest h = ground arith

  segment-Emits :
      (k : ℕ) (rest : List ℕ) (s : DataStream)
      → s.route_outport_id ≡ s0.route_outport_id
      → s.segment_size ≡ s0.segment_size
      → rest ≡ drop (k * s0.segment_size) bytes
      → 0 < length rest
      → Emits IsPiece s
          (send_segment env wi key.1 k flag_data
            (some (take (min (length rest) s.segment_size) rest))
            (min (length rest) s.segment_size)
            s).1
  segment-Emits k rest s route size at more =
      let payload = take s.segment_size rest in
      subst
        (λ (x : List ℕ × ℕ).
          Emits IsPiece s (send_segment env wi key.1 k flag_data (some x.0) x.1 s).1)
        (sym cut)
        (send_segment-Emits IsPiece env wi key.1 k payload s
          (omega (arith, length-take s.segment_size rest))
          (λ p. (k, omega (arith, length-drop (k * s0.segment_size) bytes, ap length at), same)))
    where
      as_taken : take (min (length rest) s.segment_size) rest ≡ take s.segment_size rest
      as_taken = take_same rest (min (length rest) s.segment_size) s.segment_size refl

      cut :
          ◌≡◌ {A = List ℕ × ℕ}
            (take (min (length rest) s.segment_size) rest, min (length rest) s.segment_size)
            (take s.segment_size rest, length (take s.segment_size rest))
      cut =
          ap₂ (λ (a : List ℕ) (b : ℕ). (a, b)) as_taken
            (omega (arith, length-take s.segment_size rest))

      same :
          frame_of (data_header s wi key.1 k (take s.segment_size rest)) (take s.segment_size rest)
          ≡ data_frame s0 wi key.1 bytes k
      same =
          ap (λ (p : List ℕ). frame_of (data_header s wi key.1 k p) p)
            (ap₂ (λ (n : ℕ) (xs : List ℕ). take n xs) size at)
          ∙ ap (λ h. frame_of h (chunk s0.segment_size bytes k))
              (same_header s s0 wi key.1 k (chunk s0.segment_size bytes k) route)

  pub send_chunks-Emits :
      (fuel k : ℕ) (st : SessionState) (rest : List ℕ) (written : ℕ) (s : DataStream)
      → s.route_outport_id ≡ s0.route_outport_id
      → s.segment_size ≡ s0.segment_size
      → st.next_send_seq ≡ k
      → st.wire_ingress_id ≡ wi
      → rest ≡ drop (k * s0.segment_size) bytes
      → Emits IsPiece s (send_chunks fuel env key st rest written s).1
  unfolding send_chunks
  send_chunks-Emits zero k st rest written s route size seq ingress at =
      Emits-none IsPiece s s refl refl refl
  send_chunks-Emits (suc fuel) k st rest written s route size seq ingress at =
      if_cases (λ (x : Result ℕ × DataStream). Emits IsPiece s x.1) (length rest == 0) _ _
        (λ done. Emits-none IsPiece s s refl refl refl)
        (λ more.
          result_both (λ (x : Result ℕ × DataStream). Emits IsPiece s x.1) sent.0 _ _
            (λ e. one more)
            (λ n. Emits-trans IsPiece s sent.1 _ (one more) (
              send_chunks-Emits fuel (k + 1) (take_seq st) (drop taken rest) (written + taken)
                sent.1 ((one more).same_route ∙ route) ((one more).same_size ∙ size) (next more)
                ingress rest_at)))
    where
      taken : ℕ
      taken = min (length rest) s.segment_size

      s1 : DataStream
      s1 = record s { sessions = insert key (take_seq st) s.sessions }

      sent : Result ℕ × DataStream
      sent =
          send_segment env st.wire_ingress_id key.1 st.next_send_seq flag_data
            (some (take taken rest)) taken s1

      one : (length rest == 0) ≡ false → Emits IsPiece s sent.1
      one more = Emits-trans IsPiece s s1 sent.1 (Emits-none IsPiece s s1 refl refl refl) (
          subst
            (λ (x : ℕ × ℕ).
              Emits IsPiece s1
                (send_segment env x.0 key.1 x.1 flag_data (some (take taken rest)) taken s1).1)
            (sym (ap₂ (λ (a b : ℕ). (a, b)) ingress seq))
            (segment-Emits k rest s1 route size at (ground arith)))

      next : (length rest == 0) ≡ false → (take_seq st).next_send_seq ≡ k + 1
      next more =
          unfold take_seq in
          omega (
            arith,
            seq,
            le_mul k s0.segment_size ample,
            length-drop (k * s0.segment_size) bytes,
            ap length at,
            some_left rest more,
          )

      rest_at : drop taken rest ≡ drop ((k + 1) * s0.segment_size) bytes
      rest_at =
          drop_same rest taken s.segment_size refl
          ∙ ap₂ (λ (n : ℕ) (xs : List ℕ). drop n xs) size at
          ∙ drop-drop (k * s0.segment_size) s0.segment_size ((k + 1) * s0.segment_size) bytes
              (omega arith)

  -- Whatever sendSessionData puts on the wire for a new session is a frame of one of the segments.
  pub send_session_data-Emits :
      (st : SessionState) (session_key : ℕ)
      → key ≡ (resolve_ingress_key s0 session_key, key.1)
      → lookup key s0.sessions ≡ some st
      → st.closed ≡ false
      → st.next_send_seq ≡ 0
      → st.wire_ingress_id ≡ wi
      → Emits IsPiece s0 (send_session_data env key.1 bytes session_key s0).1
  unfolding send_session_data
  send_session_data-Emits st session_key at found not_closed fresh ingress =
      option_known (λ (x : Result ℕ × DataStream). Emits IsPiece s0 x.1)
        (lookup (resolve_ingress_key s0 session_key, key.1) s0.sessions) st _ _
        (ap (λ (k : ℕ × ℕ). lookup k s0.sessions) (sym at) ∙ found)
        (if_cases (λ (x : Result ℕ × DataStream). Emits IsPiece s0 x.1) st.closed _ _
          (λ e. Emits-none IsPiece s0 s0 refl refl refl)
          (λ e.
            subst
              (λ (k : ℕ × ℕ). Emits IsPiece s0 (send_chunks (length bytes) env k st bytes 0 s0).1)
              at
              (send_chunks-Emits (length bytes) 0 st bytes 0 s0 refl refl fresh ingress
                from_start)))
    where
      from_start : bytes ≡ drop (0 * s0.segment_size) bytes
      from_start = let z : 0 ≡ 0 * s0.segment_size = omega arith in ap (λ (n : ℕ). drop n bytes) z
