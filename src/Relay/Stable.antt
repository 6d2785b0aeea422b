-- ===== src/Relay/Stable.antt =====
-- src/zfgw_outport.cpp: a SOCKS5 request that is whole is read the same with more bytes behind it.
use libfgw.Prelude.{
  ℕ, zero, suc, ◌+◌, ◌*◌, ◌≤◌, ◌≡◌, ◌⊎◌, inl, inr, refl, sym, subst, ap, ap₂, ◌∙◌, Bool, true,
  false, List, ◌++◌, ltb, ◌==◌, if◌then◌else◌, Bool-cases, length, take, drop, length-append,
  get_or, get_or-append_left, take-append_left, drop-append_left, length-drop, arith,
}
use libfgw.Relay.Socks.{
  Target, partial, unsupported, target, ipv4_text, ipv6_groups, port_at, parse_target,
}

-- What is computed of some bytes waits for more, or is of a kind `Q` and stays so, up to `f`, with more
-- bytes behind them.
module _ {A : Type 0} (f : A → A) (wait : A) (Q : A → Type 0) (buf more : List ℕ) where
  abbrev pub Settled : A → A → Type 0
  Settled x x' = (x ≡ wait) ⊎ ((x' ≡ f x) × Q x)

  pub if_less-Settled :
      (need : ℕ) (z y y' : A)
      → (need ≤ length buf → Settled y y')
      → Settled
          (if ltb (length buf) need then wait else y)
          (if ltb (length (buf ++ more)) need then z else y')
  if_less-Settled need z y y' settled = elim (Bool-cases (ltb (length buf) need)) [
    | inl short ↦ inl (ap (λ (b : Bool). if b then wait else y) short)
    | inr long ↦
        let still : ltb (length (buf ++ more)) need ≡ false =
          ground (arith, length-append buf more) in
        subst
          (λ (b : Bool).
            Settled (if b then wait else y) (if ltb (length (buf ++ more)) need then z else y'))
          (sym long)
          (subst (λ (b : Bool). Settled y (if b then z else y')) (sym still)
            (settled (ground arith)))
  ]

  pub if-Settled :
      (b : Bool) (x y x' y' : A)
      → Settled x x'
      → Settled y y'
      → Settled (if b then x else y) (if b then x' else y')
  if-Settled true x y x' y' hx hy = hx
  if-Settled false x y x' y' hx hy = hy

-- A target's request is inside the bytes.
abbrev pub Inside : List ℕ → Target → Type 0
Inside xs partial = Unit
Inside xs unsupported = Unit
Inside xs (target host port need) = need ≤ length xs

module _ (buf more : List ℕ) where
  at_front : (i : ℕ) → i + 1 ≤ length buf → get_or (buf ++ more) i 0 ≡ get_or buf i 0
  at_front i h = get_or-append_left buf more i 0 (omega arith)

  ipv4_text-append : (p : ℕ) → p + 4 ≤ length buf → ipv4_text (buf ++ more) p ≡ ipv4_text buf p
  unfolding ipv4_text
  ipv4_text-append p h =
      rw
        (
          at_front p (omega arith),
          at_front (p + 1) (omega arith),
          at_front (p + 2) (omega arith),
          at_front (p + 3) (omega arith),
        )
        refl

  ipv6_groups-append :
      (n p : ℕ) → p + 2 * n ≤ length buf → ipv6_groups n (buf ++ more) p ≡ ipv6_groups n buf p
  unfolding ipv6_groups
  ipv6_groups-append zero p h = refl
  ipv6_groups-append (suc zero) p h =
      rw (at_front p (omega arith), at_front (p + 1) (omega arith)) refl
  ipv6_groups-append (suc (suc n)) p h =
      rw
        (
          at_front p (omega arith),
          at_front (p + 1) (omega arith),
          ipv6_groups-append (suc n) (p + 2) (omega arith),
        )
        refl

  port_at-append : (p : ℕ) → p + 2 ≤ length buf → port_at (buf ++ more) p ≡ port_at buf p
  unfolding port_at
  port_at-append p h = rw (at_front p (omega arith), at_front (p + 1) (omega arith)) refl

  -- parse_target with the two bytes that it decides by.
  abbrev parse_by : ℕ → ℕ → List ℕ → Target
  parse_by atyp dlen xs =
      if atyp == 1
      then (if ltb (length xs) 10 then partial else target (ipv4_text xs 4) (port_at xs 8) 10)
      else if atyp == 3
      then (if ltb (length xs) (4 + 1 + dlen + 2)
          then partial
          else target (take dlen (drop 5 xs)) (port_at xs (5 + dlen)) (4 + 1 + dlen + 2))
      else if atyp == 4
      then (if ltb (length xs) 22 then partial else target (ipv6_groups 8 xs 4) (port_at xs 20) 22)
      else unsupported

  domain-append :
      (dlen : ℕ) → 5 + dlen ≤ length buf → take dlen (drop 5 (buf ++ more)) ≡ take dlen (drop 5 buf)
  domain-append dlen long =
      ap (take dlen) (drop-append_left buf more 5 (omega arith))
      ∙ take-append_left (drop 5 buf) more dlen (omega (arith, length-drop 5 buf))

  abbrev Same : Target → Target → Type 0
  Same = Settled (λ t. t) partial (Inside buf) buf more

  parse_by-append :
      (atyp dlen : ℕ) → Same (parse_by atyp dlen buf) (parse_by atyp dlen (buf ++ more))
  parse_by-append atyp dlen =
      if-Settled (λ t. t) partial (Inside buf) buf more (atyp == 1) _ _ _ _
        (if_less-Settled (λ t. t) partial (Inside buf) buf more 10 _ _ _
          (λ long. inr (
            ap₂ (λ (host : List ℕ) (port : ℕ). target host port 10)
                (ipv4_text-append 4 (omega arith)) (port_at-append 8 (omega arith)),
            long,
          )))
        (if-Settled (λ t. t) partial (Inside buf) buf more (atyp == 3) _ _ _ _
          (if_less-Settled (λ t. t) partial (Inside buf) buf more (4 + 1 + dlen + 2) _ _ _
            (λ long. inr (
              ap₂ (λ (host : List ℕ) (port : ℕ). target host port (4 + 1 + dlen + 2))
                  (domain-append dlen (omega arith)) (port_at-append (5 + dlen) (omega arith)),
              long,
            )))
          (if-Settled (λ t. t) partial (Inside buf) buf more (atyp == 4) _ _ _ _
            (if_less-Settled (λ t. t) partial (Inside buf) buf more 22 _ _ _
              (λ long. inr (
                ap₂ (λ (host : List ℕ) (port : ℕ). target host port 22)
                    (ipv6_groups-append 8 4 (omega arith)) (port_at-append 20 (omega arith)),
                long,
              )))
            (inr (refl, tt))))

  -- More bytes behind a request change nothing, unless it is not whole.
  pub parse_target-append : 5 ≤ length buf → Same (parse_target buf) (parse_target (buf ++ more))
  unfolding parse_target
  parse_target-append h =
      subst (Same (parse_target buf))
        (sym (
          ap₂ (λ (atyp dlen : ℕ). parse_by atyp dlen (buf ++ more)) (at_front 3 (omega arith))
            (at_front 4 (omega arith))))
        (parse_by-append (get_or buf 3 0) (get_or buf 4 0))
