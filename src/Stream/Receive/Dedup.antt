-- ===== src/Stream/Receive/Dedup.antt =====
-- The duplicate table: a ring of recent keys, in a queue and in a map.
use libfgw.Prelude.{
  ◌≤◌, ◌≡◌, ◌⊎◌, inl, inr, refl, sym, ◌∙◌, Bool, true, false, not, ◌&&◌, ◌||◌, List, [], ◌∷◌, ◌++◌,
  ltb, if◌then◌else◌, Bool-cases, length, length-append, Map, insert, erase, has_key, lookup-insert,
  lookup-erase, has_key-insert, has_key-erase, arith,
}
use libfgw.Stream.State.{DataStream, DedupKey, dedup_eq, dedup_eq_iff, dedup_ord}
use libfgw.Stream.Receive.{record_key, evict, dedup_ring}

unfoldable pub contains : DedupKey → List DedupKey → Bool
contains k [] = false
contains k (x ∷ xs) = dedup_eq x k || contains k xs

abbrev pub Distinct : List DedupKey → Type 0
Distinct [] = Unit {0}
Distinct (x ∷ xs) = (contains x xs ≡ false) × Distinct xs

-- The map holds the keys of the queue and no others, and the queue holds each once.
pub record DedupAgrees (s : DataStream) : Type 0 where
  pub bounded : length s.dedup_queue ≤ dedup_ring
  pub distinct : Distinct s.dedup_queue
  pub agree : (k : DedupKey) → has_key k s.dedup_map ≡ contains k s.dedup_queue

contains-snoc :
    (k dk : DedupKey) (q : List DedupKey)
    → contains k (q ++ dk ∷ []) ≡ (contains k q || dedup_eq dk k)
unfolding contains
contains-snoc k dk [] = ground arith
contains-snoc k dk (x ∷ xs) = ground (arith, contains-snoc k dk xs)

snoc-Distinct :
    (dk : DedupKey) (q : List DedupKey)
    → contains dk q ≡ false
    → Distinct q
    → Distinct (q ++ dk ∷ [])
unfolding contains
snoc-Distinct dk [] new d = (refl, tt)
snoc-Distinct dk (x ∷ xs) new d = (
  ground (arith, contains-snoc x dk xs, dedup_eq_iff x dk, dedup_eq_iff dk x, d.0),
  snoc-Distinct dk xs (ground arith) d.1,
)

has_key-insert_lem :
    (k dk : DedupKey) (m : Map DedupKey Bool)
    → has_key k (insert dk true m) ≡ (dedup_eq dk k || has_key k m)
unfolding has_key
has_key-insert_lem k dk m = ground (arith, lookup-insert dk k true m)

has_key-erase_lem :
    (k dk : DedupKey) (m : Map DedupKey Bool)
    → has_key k (erase dk m) ≡ (not (dedup_eq dk k) && has_key k m)
unfolding has_key
has_key-erase_lem k dk m = ground (arith, lookup-erase dk k m)

-- The table after `dk` joins the queue `q` and the map `m`.
abbrev table : DedupKey → List DedupKey → Map DedupKey Bool → List DedupKey × Map DedupKey Bool
table dk q m =
    let queue = q ++ dk ∷ [] in
    if ltb dedup_ring (length queue)
    then evict queue (insert dk true m)
    else (queue, insert dk true m)

table-old :
    (k dk : DedupKey) (q : List DedupKey) (m : Map DedupKey Bool)
    → has_key k ((table dk q m).1) ≡ true
    → (dk ≡ k) ⊎ (has_key k m ≡ true)
unfolding evict
table-old k dk [] m h = has_key-insert dk k true m h
table-old k dk (x ∷ xs) m h = elim (Bool-cases (ltb dedup_ring (length (x ∷ xs ++ dk ∷ [])))) [
  | inl e ↦
      has_key-insert dk k true m (has_key-erase x k (insert dk true m) (ground (arith, e, h))).1
  | inr e ↦ has_key-insert dk k true m (ground (arith, e, h))
]

-- The state after `dk` is recorded: nothing but the table changes, the table gains the key and
-- loses at most the oldest one.
pub record Recorded (dk : DedupKey) (s t : DataStream) : Type 0 where
  pub same_sessions : t.sessions ≡ s.sessions
  pub same_calls : t.calls ≡ s.calls
  pub same_window : t.recv_window ≡ s.recv_window
  pub same_links : t.links ≡ s.links
  pub only_old :
      (k : DedupKey) → has_key k t.dedup_map ≡ true → (dk ≡ k) ⊎ (has_key k s.dedup_map ≡ true)

pub record_key-Recorded : (dk : DedupKey) (s : DataStream) → Recorded dk s (record_key dk s)
unfolding record_key
record_key-Recorded dk s = record {
  same_sessions = refl;
  same_calls = refl;
  same_window = refl;
  same_links = refl;
  only_old = λ k h. table-old k dk s.dedup_queue s.dedup_map h;
}

-- A queue and a map that agree.
abbrev TableAgrees : List DedupKey × Map DedupKey Bool → Type 0
TableAgrees (q, m) =
    (length q ≤ dedup_ring) × Distinct q × ((k : DedupKey) → has_key k m ≡ contains k q)

grown-TableAgrees :
    (dk : DedupKey) (q : List DedupKey) (m : Map DedupKey Bool)
    → has_key dk m ≡ false
    → TableAgrees (q, m)
    → Distinct (q ++ dk ∷ [])
      × ((k : DedupKey) → has_key k (insert dk true m) ≡ contains k (q ++ dk ∷ []))
grown-TableAgrees dk q m new inv = (
  snoc-Distinct dk q (sym (inv.2 dk) ∙ new) inv.1,
  λ k. ground (arith, has_key-insert_lem k dk m, contains-snoc k dk q, inv.2 k),
)

evict-agrees :
    (oldest : DedupKey) (rest : List DedupKey) (m : Map DedupKey Bool)
    → Distinct (oldest ∷ rest)
    → ((k : DedupKey) → has_key k m ≡ contains k (oldest ∷ rest))
    → (k : DedupKey) → has_key k (erase oldest m) ≡ contains k rest
unfolding contains
evict-agrees oldest rest m d same k =
    ground (arith, has_key-erase_lem k oldest m, same k, d.0, dedup_eq_iff oldest k)

table-TableAgrees :
    (dk : DedupKey) (q : List DedupKey) (m : Map DedupKey Bool)
    → has_key dk m ≡ false
    → TableAgrees (q, m)
    → TableAgrees (table dk q m)
unfolding evict
table-TableAgrees dk [] m new inv =
    let grown = grown-TableAgrees dk [] m new inv in (omega arith, grown.0, grown.1)
table-TableAgrees dk (x ∷ xs) m new inv =
    let grown = grown-TableAgrees dk (x ∷ xs) m new inv in
    elim (Bool-cases (ltb dedup_ring (length (x ∷ xs ++ dk ∷ [])))) [
      | inl e ↦ rw e (
        ground (arith, length-append xs (dk ∷ [])),
        grown.0.1,
        evict-agrees x (xs ++ dk ∷ []) (insert dk true m) grown.0 grown.1,
      )
      | inr e ↦ rw e (ground (arith, e), grown.0, grown.1)
    ]

-- Recording a key that is not in the table keeps the table consistent and within the ring.
pub record_key-DedupAgrees :
    (dk : DedupKey) (s : DataStream)
    → has_key dk s.dedup_map ≡ false
    → DedupAgrees s
    → DedupAgrees (record_key dk s)
unfolding record_key
record_key-DedupAgrees dk s new inv =
    let done =
      table-TableAgrees dk s.dedup_queue s.dedup_map new (inv.bounded, inv.distinct, inv.agree) in
    record { bounded = done.0; distinct = done.1; agree = done.2 }
