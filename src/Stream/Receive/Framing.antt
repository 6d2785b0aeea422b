-- ===== src/Stream/Receive/Framing.antt =====
-- The receive loop of onChannelBytes: how the bytes are cut into chunks makes no difference.
use libfgw.Prelude.{
  ℕ, zero, suc, ◌+◌, ◌≤◌, ◌≡◌, ◌⊎◌, inl, inr, refl, sym, ◌∙◌, Bool, true, false, List, [], ◌++◌,
  ltb, if◌then◌else◌, Bool-cases, length, take, drop, take-append_left, drop-append_left,
  length-append, length-drop, arith,
}
use libfgw.Segment.Header.{FgwSegmentHeader}
use libfgw.Segment.Decode.{Peek, need_more, bad, found, fgw_segment_peek_header}
use libfgw.Segment.Prefix.{peek-append, peek-bounds}
use libfgw.Stream.State.{DataStream, Env}
use libfgw.Stream.Receive.{consume, on_frame}

-- The kinds of answer, with what is found.
abbrev Answered : Peek → Type 0
Answered pk =
    (pk ≡ need_more) ⊎ ((pk ≡ bad) ⊎ ((hr : ℕ) × (hdr : FgwSegmentHeader) × (pk ≡ found hr hdr)))

Peek-cases : (pk : Peek) → Answered pk
Peek-cases need_more = inl refl
Peek-cases bad = inr (inl refl)
Peek-cases (found hr hdr) = inr (inr (hr, hdr, refl))

-- No frame of the bytes has a wrong magic or a payload that is too long.
unfoldable pub well_framed : ℕ → List ℕ → Bool
well_framed zero bytes = true
well_framed (suc fuel) bytes = elim (fgw_segment_peek_header bytes) [
  | need_more ↦ true
  | bad ↦ false
  | found hr hdr ↦
      let rest = well_framed fuel (drop (hr + hdr.payload_len) bytes) in
      if ltb (length bytes) (hr + hdr.payload_len) then true else rest
]

module _ (env : Env) (ch : ℕ) where
  consume-need_more :
      (fuel : ℕ) (bytes : List ℕ) (s : DataStream)
      → fgw_segment_peek_header bytes ≡ need_more
      → consume fuel env ch bytes s ≡ (s, bytes)
  unfolding consume
  consume-need_more zero bytes s e = refl
  consume-need_more (suc fuel) bytes s e = rw (e, consume) refl

  consume-bad :
      (fuel : ℕ) (bytes : List ℕ) (s : DataStream)
      → fgw_segment_peek_header bytes ≡ bad
      → consume (suc fuel) env ch bytes s ≡ (s, [])
  unfolding consume
  consume-bad fuel bytes s e = rw (e, consume) refl

  consume-wait :
      (fuel : ℕ) (bytes : List ℕ) (s : DataStream) (hr : ℕ) (hdr : FgwSegmentHeader)
      → fgw_segment_peek_header bytes ≡ found hr hdr
      → ltb (length bytes) (hr + hdr.payload_len) ≡ true
      → consume fuel env ch bytes s ≡ (s, bytes)
  unfolding consume
  consume-wait zero bytes s hr hdr e short = refl
  consume-wait (suc fuel) bytes s hr hdr e short = rw (e, consume) (rw short refl)

  pub consume-frame :
      (fuel : ℕ) (bytes : List ℕ) (s : DataStream) (hr : ℕ) (hdr : FgwSegmentHeader)
      → fgw_segment_peek_header bytes ≡ found hr hdr
      → ltb (length bytes) (hr + hdr.payload_len) ≡ false
      → consume (suc fuel) env ch bytes s
        ≡ consume fuel env ch
            (drop (hr + hdr.payload_len) bytes)
            (on_frame env ch hr hdr (take (hr + hdr.payload_len) bytes) s)
  unfolding consume
  consume-frame fuel bytes s hr hdr e long = rw (e, consume) (rw long refl)

  consume-empty :
      (fuel : ℕ) (bytes : List ℕ) (s : DataStream)
      → length bytes ≤ 0
      → consume fuel env ch bytes s ≡ (s, bytes)
  consume-empty fuel bytes s h =
      consume-need_more fuel bytes s (unfold fgw_segment_peek_header in ground arith)

  -- The receive loop ends: with as many turns as there are bytes, or with any larger number, it does
  -- the same, for whatever bytes arrive.
  pub consume-fuel :
      (f k : ℕ) (bytes : List ℕ) (s : DataStream)
      → length bytes ≤ f
      → length bytes ≤ k
      → consume f env ch bytes s ≡ consume k env ch bytes s
  consume-fuel zero k bytes s hf hk =
      consume-empty zero bytes s hf ∙ sym (consume-empty k bytes s hf)
  consume-fuel (suc f) zero bytes s hf hk =
      consume-empty (suc f) bytes s hk ∙ sym (consume-empty zero bytes s hk)
  consume-fuel (suc f) (suc k) bytes s hf hk = elim (Peek-cases (fgw_segment_peek_header bytes)) [
    | inl e ↦ consume-need_more (suc f) bytes s e ∙ sym (consume-need_more (suc k) bytes s e)
    | inr (inl e) ↦ consume-bad f bytes s e ∙ sym (consume-bad k bytes s e)
    | inr (inr (hr, hdr, e)) ↦ elim (Bool-cases (ltb (length bytes) (hr + hdr.payload_len))) [
      | inl short ↦
          consume-wait (suc f) bytes s hr hdr e short
          ∙ sym (consume-wait (suc k) bytes s hr hdr e short)
      | inr long ↦
          let b = peek-bounds bytes hr hdr e in
          let l = length-drop (hr + hdr.payload_len) bytes in
          consume-frame f bytes s hr hdr e long
          ∙ consume-fuel f k (drop (hr + hdr.payload_len) bytes)
              (on_frame env ch hr hdr (take (hr + hdr.payload_len) bytes) s) (omega arith)
              (omega arith)
          ∙ sym (consume-frame k bytes s hr hdr e long)
    ]
  ]

  malformed :
      (f : ℕ) (a : List ℕ) → fgw_segment_peek_header a ≡ bad → well_framed (suc f) a ≡ true → ⊥
  unfolding well_framed
  malformed f a e ok = ground (arith, e, ok)

  well_framed-rest :
      (f : ℕ) (a : List ℕ) (hr : ℕ) (hdr : FgwSegmentHeader)
      → fgw_segment_peek_header a ≡ found hr hdr
      → ltb (length a) (hr + hdr.payload_len) ≡ false
      → well_framed (suc f) a ≡ true
      → well_framed f (drop (hr + hdr.payload_len) a) ≡ true
  unfolding well_framed
  well_framed-rest f a hr hdr e long ok = ground (arith, e, long, ok)

  -- The statement, for fuel `f` and any rest.
  abbrev Splits : ℕ → Type 0
  Splits f =
      (k : ℕ) (a b : List ℕ) (s : DataStream)
      → length a ≤ f
      → length (a ++ b) ≤ k
      → well_framed f a ≡ true
      → let first = consume f env ch a s in
        consume k env ch (first.1 ++ b) first.0 ≡ consume k env ch (a ++ b) s

  split-frame :
      (f k : ℕ) (a b : List ℕ) (s : DataStream) (hr : ℕ) (hdr : FgwSegmentHeader)
      → length a ≤ suc f
      → length (a ++ b) ≤ k
      → fgw_segment_peek_header a ≡ found hr hdr
      → ltb (length a) (hr + hdr.payload_len) ≡ false
      → well_framed (suc f) a ≡ true
      → Splits f
      → let first = consume (suc f) env ch a s in
        consume k env ch (first.1 ++ b) first.0 ≡ consume k env ch (a ++ b) s
  split-frame f zero a b s hr hdr hf hk e long ok rest =
      absurd (omega (arith, peek-bounds a hr hdr e, length-append a b))
  split-frame f (suc k) a b s hr hdr hf hk e long ok rest =
      let total = hr + hdr.payload_len in
      let s1 : DataStream = on_frame env ch hr hdr (take total a) s in
      let fits : total ≤ length a = ground arith in
      let e' : fgw_segment_peek_header (a ++ b) ≡ found hr hdr =
        ground (arith, peek-append a b, e) in
      let long' : ltb (length (a ++ b)) total ≡ false = ground (arith, length-append a b, long) in
      let same : consume (suc k) env ch (a ++ b) s ≡ consume k env ch (drop total a ++ b) s1 =
        rw
          (
            consume-frame k (a ++ b) s hr hdr e' long',
            take-append_left a b total fits,
            drop-append_left a b total fits,
          )
          refl in
      let bound : length (drop total a ++ b) ≤ k = omega (
        arith,
        peek-bounds a hr hdr e,
        length-append a b,
        length-append (drop total a) b,
        length-drop total a,
      ) in
      rw (consume-frame f a s hr hdr e long) (
        rest (suc k) (drop total a) b s1
          (omega (arith, peek-bounds a hr hdr e, length-drop total a)) (omega (arith, bound))
          (well_framed-rest f a hr hdr e long ok)
        ∙ consume-fuel (suc k) k (drop total a ++ b) s1 (omega (arith, bound)) bound
        ∙ sym same)

  -- The loop over `a`, then over what it left and `b`, does what the loop over both does, when no
  -- frame in `a` is malformed.
  consume-split :
      (f k : ℕ) (a b : List ℕ) (s : DataStream)
      → length a ≤ f
      → length (a ++ b) ≤ k
      → well_framed f a ≡ true
      → let first = consume f env ch a s in
        consume k env ch (first.1 ++ b) first.0 ≡ consume k env ch (a ++ b) s
  consume-split zero k a b s hf hk ok = rw (consume-empty zero a s hf) refl
  consume-split (suc f) k a b s hf hk ok = elim (Peek-cases (fgw_segment_peek_header a)) [
    | inl e ↦ rw (consume-need_more (suc f) a s e) refl
    | inr (inl e) ↦ absurd (malformed f a e ok)
    | inr (inr (hr, hdr, e)) ↦ elim (Bool-cases (ltb (length a) (hr + hdr.payload_len))) [
      | inl short ↦ rw (consume-wait (suc f) a s hr hdr e short) refl
      | inr long ↦ split-frame f k a b s hr hdr hf hk e long ok (consume-split f)
    ]
  ]

-- onChannelBytes with two chunks, one after the other, consumes what it consumes of both at once,
-- in the same order, and leaves the same bytes over. The first chunk, with what was held before
-- it, has no malformed frame.
pub consume_chunks :
    (env : Env) (ch : ℕ) (a b : List ℕ) (s : DataStream)
    → well_framed (length a) a ≡ true
    → let (s1, left) = consume (length a) env ch a s in
      consume (length (left ++ b)) env ch (left ++ b) s1
      ≡ consume (length (a ++ b)) env ch (a ++ b) s
consume_chunks env ch a b s ok =
    let first = consume (length a) env ch a s in
    let enough = length (first.1 ++ b) + length (a ++ b) in
    consume-fuel env ch (length (first.1 ++ b)) enough (first.1 ++ b) first.0 (omega arith)
      (omega arith)
    ∙ consume-split env ch (length a) enough a b s (omega arith) (omega arith) ok
    ∙ consume-fuel env ch enough (length (a ++ b)) (a ++ b) s (omega arith) (omega arith)
