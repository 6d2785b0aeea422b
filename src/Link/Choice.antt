-- ===== src/Link/Choice.antt =====
-- What LinkSelector::select picks in its default mode.
use libfgw.Prelude.{
  ℕ, suc, ◌+◌, ◌-◌, ◌%◌, ◌≤◌, ◌<◌, ◌≡◌, ◌≢◌, ◌⊎◌, refl, inl, inr, Bool, true, false, ◌||◌, List, [],
  ◌∷◌, ltb, ◌==◌, ==_iff, Bool-cases, length, arith,
}
use native.Mathlib.Nat.{mod-lt, mod-eq_of_lt}
use libfgw.Link.Selector.{
  LinkSelector, Entry, index_of, id_at, primary_index, probe_index, select_weighted,
}

-- A link with the id is among the entries.
unfoldable pub has_id : ℕ → List Entry → Bool
has_id want [] = false
has_id want (e ∷ es) = e.id == want || has_id want es

index_of-found :
    (i want : ℕ) (es : List Entry)
    → has_id want es ≡ true
    → (j : ℕ) × (j < length es) × (index_of i want es ≡ i + j) × (id_at es j ≡ want)
unfolding has_id index_of id_at
index_of-found i want [] h = ground arith
index_of-found i want (e ∷ es) h = elim (Bool-cases (e.id == want)) [
  | inl same ↦ (0, omega arith, rw same (omega arith), (==_iff e.id want).0 same)
  | inr other ↦
      let (j, below, at, is) = index_of-found (i + 1) want es (ground (arith, h, other)) in
      (suc j, omega arith, rw other (omega (arith, at)), is)
]

index_of-absent : (i want : ℕ) (es : List Entry) → has_id want es ≡ false → index_of i want es ≡ 0
unfolding has_id index_of
index_of-absent i want [] h = refl
index_of-absent i want (e ∷ es) h = ground (arith, index_of-absent (i + 1) want es, h)

-- The primary is one of the links, and the wanted one if it is there.
primary_index-lt :
    (sel : LinkSelector) (e : Entry) (es : List Entry)
    → (primary_index sel (e ∷ es) < length (e ∷ es))
      × ((sel.primary_channel_id ≡ 0)
          ⊎ ((has_id sel.primary_channel_id (e ∷ es) ≡ false)
              ⊎ (id_at (e ∷ es) (primary_index sel (e ∷ es)) ≡ sel.primary_channel_id)))
unfolding primary_index
primary_index-lt sel e es = elim (Bool-cases (sel.primary_channel_id == 0)) [
  | inl unset ↦ (rw unset (omega arith), inl ((==_iff sel.primary_channel_id 0).0 unset))
  | inr set ↦ elim (Bool-cases (has_id sel.primary_channel_id (e ∷ es))) [
    | inr absent ↦
        let at : index_of 0 sel.primary_channel_id (e ∷ es) ≡ 0 =
          index_of-absent 0 sel.primary_channel_id (e ∷ es) absent in
        (rw (set, at) (omega arith), inr (inl absent))
    | inl there ↦
        let (j, below, at, is) = index_of-found 0 sel.primary_channel_id (e ∷ es) there in
        let at' : index_of 0 sel.primary_channel_id (e ∷ es) ≡ j = omega (arith, at) in
        (rw (set, at') below, inr (inr (rw (set, at') is)))
  ]
]

probe_index-lt :
    (rotation p : ℕ) (ranked : List Entry)
    → 2 ≤ length ranked
    → p < length ranked
    → (probe_index rotation p ranked < length ranked) × (p ≢ probe_index rotation p ranked)
unfolding probe_index
probe_index-lt rotation p ranked two below =
    let r : rotation % (length ranked - 1) < length ranked - 1 = mod-lt rotation (omega arith) in
    (ground (arith, r), λ e. ground (arith, r, e))

-- Every link but the primary is the probe for a value of the counter below the number of others.
pub probe_index-covers :
    (p j : ℕ) (ranked : List Entry)
    → p < length ranked
    → j < length ranked
    → p ≢ j
    → (rotation : ℕ) × (rotation < length ranked - 1) × (probe_index rotation p ranked ≡ j)
unfolding probe_index
probe_index-covers p j ranked hp hj ne = elim (Bool-cases (ltb j p)) [
  | inl low ↦ (
    j,
    ground arith,
    let r : j % (length ranked - 1) ≡ j = mod-eq_of_lt (ground arith) in rw (r, low) refl,
  )
  | inr high ↦ (
    j - 1,
    ground arith,
    let r : (j - 1) % (length ranked - 1) ≡ j - 1 = mod-eq_of_lt (ground arith) in
        ground (arith, r, high),
  )
]

-- With two live links or more, two different ones are picked; the first is the fed-back primary,
-- unless none is set or it is not live.
pub select_weighted-two :
    (sel : LinkSelector) (e f : Entry) (es : List Entry)
    → let ranked = e ∷ f ∷ es in
      (p q : ℕ) × (p < length ranked)
      × (q < length ranked)
      × (p ≢ q)
      × ((select_weighted sel ranked).0 ≡ id_at ranked p ∷ id_at ranked q ∷ [])
      × ((sel.primary_channel_id ≡ 0)
          ⊎ ((has_id sel.primary_channel_id ranked ≡ false)
              ⊎ (id_at ranked p ≡ sel.primary_channel_id)))
unfolding select_weighted
select_weighted-two sel e f es =
    let ranked = e ∷ f ∷ es in
    let p = primary_index sel ranked in
    let first = primary_index-lt sel e (f ∷ es) in
    let second = probe_index-lt sel.probe_rotation p ranked (omega arith) first.0 in
    (p, probe_index sel.probe_rotation p ranked, first.0, second.0, second.1, refl, first.1)
