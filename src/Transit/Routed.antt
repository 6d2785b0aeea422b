-- ===== src/Transit/Routed.antt =====
-- src/zfgw_transit.cpp: where the routes of a TransitService lead, whatever it does.
use libfgw.Prelude.{
  ℕ, ◌+◌, ◌<◌, ◌≡◌, ◌≢◌, ◌⊎◌, refl, sym, ap, subst, ◌∙◌, Bool, true, false, Option, none, some,
  ◌==◌, Map, lookup, insert, erase, lookup-insert, nat_ord, some_inj, arith, Bool-cases, inl, inr,
  ==_iff,
}
use libfgw.Transit.State.{Link, TransitService}
use libfgw.Transit.Dial.{without}
use libfgw.Transit.Routes.{
  direction, direction-insert, direction-erase, Sorted, insert-Sorted, without-Sorted,
  lookup-without,
}

-- A route to an outport leads to a link of the table that was dialled, two of them never to the
-- same link; a route to an ingress leads to one that was accepted. The links' addresses are below
-- the next one.
pub record Routed (links : Map ℕ Link) (to_outport to_ingress : Map ℕ ℕ) (next : ℕ) : Type 0 where
  pub outports : (id p : ℕ) → lookup id to_outport ≡ some p → direction p links ≡ some true
  pub ingresses : (id p : ℕ) → lookup id to_ingress ≡ some p → direction p links ≡ some false
  pub alone : (a b p : ℕ) → lookup a to_outport ≡ some p → lookup b to_outport ≡ some p → a ≡ b
  pub young : (p : ℕ) (b : Bool) → direction p links ≡ some b → p < next
  pub sorted_outports : Sorted to_outport
  pub sorted_ingresses : Sorted to_ingress

abbrev pub InRoute : TransitService → Type 0
InRoute t = Routed t.links t.outbound_by_outport t.inbound_by_ingress t.next_object

-- An ingress is learned from a link that was accepted.
pub learned-Routed :
    (links : Map ℕ Link) (to_outport to_ingress : Map ℕ ℕ) (next id ch : ℕ)
    → direction ch links ≡ some false
    → Routed links to_outport to_ingress next
    → Routed links to_outport (insert id ch to_ingress) next
learned-Routed links to_outport to_ingress next id ch known r = record {
  outports = r.outports;
  ingresses = λ j p h. elim (Bool-cases (id == j)) [
    | inl e ↦ subst (λ (q : ℕ). direction q links ≡ some false) (new j p e h) known
    | inr e ↦ r.ingresses j p (old j p e h)
  ];
  alone = r.alone;
  young = r.young;
  sorted_outports = r.sorted_outports;
  sorted_ingresses = insert-Sorted id ch to_ingress r.sorted_ingresses;
}
  where
    new : (j p : ℕ) → (id == j) ≡ true → lookup j (insert id ch to_ingress) ≡ some p → ch ≡ p
    new j p e h = ground (arith, lookup-insert id j ch to_ingress, some_inj ch p)

    old :
        (j p : ℕ)
        → (id == j) ≡ false
        → lookup j (insert id ch to_ingress) ≡ some p
        → lookup j to_ingress ≡ some p
    old j p e h = ground (arith, lookup-insert id j ch to_ingress)

-- Tables of links that agree on what is in them and on the directions.
pub same-Routed :
    (links links' : Map ℕ Link) (to_outport to_ingress : Map ℕ ℕ) (next : ℕ)
    → ((p : ℕ) → direction p links' ≡ direction p links)
    → Routed links to_outport to_ingress next
    → Routed links' to_outport to_ingress next
same-Routed links links' to_outport to_ingress next same r = record {
  outports = λ id p h. same p ∙ r.outports id p h;
  ingresses = λ id p h. same p ∙ r.ingresses id p h;
  alone = r.alone;
  young = λ p b h. r.young p b (sym (same p) ∙ h);
  sorted_outports = r.sorted_outports;
  sorted_ingresses = r.sorted_ingresses;
}

-- A new link at the next address.
pub accepted-Routed :
    (links : Map ℕ Link) (to_outport to_ingress : Map ℕ ℕ) (next : ℕ) (link : Link)
    → Routed links to_outport to_ingress next
    → Routed (insert next link links) to_outport to_ingress (next + 1)
accepted-Routed links to_outport to_ingress next link r = record {
  outports = λ id p h. kept p true (r.outports id p h);
  ingresses = λ id p h. kept p false (r.ingresses id p h);
  alone = r.alone;
  young = λ p b h. below p b h;
  sorted_outports = r.sorted_outports;
  sorted_ingresses = r.sorted_ingresses;
}
  where
    kept :
        (p : ℕ) (b : Bool)
        → direction p links ≡ some b
        → direction p (insert next link links) ≡ some b
    kept p b h = ground (arith, direction-insert next p link links, r.young p b)

    below : (p : ℕ) (b : Bool) → direction p (insert next link links) ≡ some b → p < next + 1
    below p b h = ground (arith, direction-insert next p link links, r.young p b)

-- A link that is dropped with every route that leads to it.
pub dropped-Routed :
    (links : Map ℕ Link) (to_outport to_ingress : Map ℕ ℕ) (next ch : ℕ)
    → Routed links to_outport to_ingress next
    → Routed (erase ch links) (without ch to_outport) (without ch to_ingress) next
dropped-Routed links to_outport to_ingress next ch r = record {
  outports = λ id p h. kept p true (outport id p h).0 (r.outports id p (outport id p h).1);
  ingresses = λ id p h. kept p false (ingress id p h).0 (r.ingresses id p (ingress id p h).1);
  alone = λ a b p g h. r.alone a b p (outport a p g).1 (outport b p h).1;
  young = λ p b h. r.young p b (older p b h);
  sorted_outports = without-Sorted ch to_outport r.sorted_outports;
  sorted_ingresses = without-Sorted ch to_ingress r.sorted_ingresses;
}
  where
    outport :
        (id p : ℕ)
        → lookup id (without ch to_outport) ≡ some p
        → (p ≢ ch) × (lookup id to_outport ≡ some p)
    outport id p h = lookup-without ch id p to_outport r.sorted_outports h

    ingress :
        (id p : ℕ)
        → lookup id (without ch to_ingress) ≡ some p
        → (p ≢ ch) × (lookup id to_ingress ≡ some p)
    ingress id p h = lookup-without ch id p to_ingress r.sorted_ingresses h

    kept :
        (p : ℕ) (b : Bool)
        → p ≢ ch
        → direction p links ≡ some b
        → direction p (erase ch links) ≡ some b
    kept p b ne h = ground (arith, direction-erase ch p links)

    older : (p : ℕ) (b : Bool) → direction p (erase ch links) ≡ some b → direction p links ≡ some b
    older p b h = ground (arith, direction-erase ch p links)

-- The links that are left when an outport is dialled again.
abbrev unstale : Option ℕ → Map ℕ Link → Map ℕ Link
unstale o links = elim o [ none ↦ links | some p ↦ erase p links ]

direction-unstale :
    (o : Option ℕ) (p : ℕ) (links : Map ℕ Link)
    → o ≢ some p
    → direction p (unstale o links) ≡ direction p links
direction-unstale none p links ne = refl
direction-unstale (some q) p links ne = ground (arith, direction-erase q p links, differs)
  where
    differs : (q == p) ≡ true → ⊥
    differs e = ne (ap some ((==_iff q p).0 e))

direction-unstale_old :
    (o : Option ℕ) (p : ℕ) (links : Map ℕ Link) (b : Bool)
    → direction p (unstale o links) ≡ some b
    → direction p links ≡ some b
direction-unstale_old none p links b h = h
direction-unstale_old (some q) p links b h = ground (arith, direction-erase q p links)

-- An outport's new link takes the place of its old one.
pub dialled-Routed :
    (links : Map ℕ Link) (to_outport to_ingress : Map ℕ ℕ) (next id : ℕ) (link : Link)
    → link.outbound ≡ true
    → Routed links to_outport to_ingress next
    → Routed
        (insert next link (unstale (lookup id to_outport) links))
        (insert id next to_outport)
        to_ingress
        (next + 1)
dialled-Routed links to_outport to_ingress next id link out r = record {
  outports = λ j p h. elim (routes j p h) [
    | inl (e, f) ↦ subst (λ (q : ℕ). direction q (insert next link left) ≡ some true) f placed
    | inr (ne, g) ↦ kept p true (λ e. ne (r.alone id j p e g)) (r.outports j p g)
  ];
  ingresses = λ j p h.
      kept p false (λ e. two_ways p (r.outports id p e) (r.ingresses j p h)) (r.ingresses j p h);
  alone = λ a b p g h. elim (routes a p g) [
    | inl (e, f) ↦ elim (routes b p h) [
      | inl (e', f') ↦ sym e ∙ e'
      | inr (ne, h') ↦ absurd (too_new p f (r.outports b p h'))
    ]
    | inr (ne, g') ↦ elim (routes b p h) [
      | inl (e', f') ↦ absurd (too_new p f' (r.outports a p g'))
      | inr (ne', h') ↦ r.alone a b p g' h'
    ]
  ];
  young = λ p b h. below p b h;
  sorted_outports = insert-Sorted id next to_outport r.sorted_outports;
  sorted_ingresses = r.sorted_ingresses;
}
  where
    left : Map ℕ Link
    left = unstale (lookup id to_outport) links

    kept :
        (p : ℕ) (b : Bool)
        → lookup id to_outport ≢ some p
        → direction p links ≡ some b
        → direction p (insert next link left) ≡ some b
    kept p b ne h = ground (
      arith,
      direction-insert next p link left,
      r.young p b,
      direction-unstale (lookup id to_outport) p links ne,
    )

    routes :
        (j p : ℕ)
        → lookup j (insert id next to_outport) ≡ some p
        → ((id ≡ j) × (next ≡ p)) ⊎ ((id ≢ j) × (lookup j to_outport ≡ some p))
    routes j p h = by_key (Bool-cases (id == j))
      where
        by_key :
            ((id == j) ≡ true) ⊎ ((id == j) ≡ false)
            → ((id ≡ j) × (next ≡ p)) ⊎ ((id ≢ j) × (lookup j to_outport ≡ some p))
        by_key (inl e) =
            inl (
              (==_iff id j).0 e,
              ground (arith, lookup-insert id j next to_outport, some_inj next p),
            )
        by_key (inr e) =
            inr
              (λ f. ground (arith, ==_iff id j), ground (arith, lookup-insert id j next to_outport))

    placed : direction next (insert next link left) ≡ some true
    placed = ground (arith, direction-insert next next link left)

    two_ways : (p : ℕ) → direction p links ≡ some true → direction p links ≡ some false → ⊥
    two_ways p g h = ground (arith, some_inj true false)

    too_new : (p : ℕ) → next ≡ p → direction p links ≡ some true → ⊥
    too_new p e h = ground (arith, r.young p true)

    below : (p : ℕ) (b : Bool) → direction p (insert next link left) ≡ some b → p < next + 1
    below p b h = ground (
      arith,
      direction-insert next p link left,
      direction-unstale_old (lookup id to_outport) p links b,
      r.young p b,
    )
