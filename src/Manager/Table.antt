-- ===== src/Manager/Table.antt =====
-- src/zfgw_channel_manager.cpp: the channel table and the channel objects agree.
use libfgw.Prelude.{
  ℕ, ◌+◌, ◌<◌, ◌≡◌, true, false, some, ◌==◌, if◌then◌else◌, Map, lookup, insert, erase, nat_ord,
  lookup-insert, lookup-erase, arith,
}
use libfgw.Link.Channel.{FgwChannel}

-- A key leads to an object with that channel id that was made before; an object with a socket is the
-- one that its channel id leads to.
pub record TableOk (objects : ℕ → FgwChannel) (channels : Map ℕ ℕ) (next : ℕ) : Type 0 where
  pub keyed : (id p : ℕ) → lookup id channels ≡ some p → (objects p).channel_id ≡ id
  pub fresh : (id p : ℕ) → lookup id channels ≡ some p → p < next
  pub owned : (p : ℕ) → (objects p).has_tcp ≡ true → lookup (objects p).channel_id channels ≡ some p

abbrev pub changed : ℕ → (FgwChannel → FgwChannel) → (ℕ → FgwChannel) → ℕ → FgwChannel
changed p f objects q = if q == p then f (objects q) else objects q

-- What becomes of an object keeps the channel id and opens no socket.
pub record Tame (old new : FgwChannel) : Type 0 where
  pub same_id : new.channel_id ≡ old.channel_id
  pub no_socket : new.has_tcp ≡ true → old.has_tcp ≡ true

pub changed-TableOk :
    (p : ℕ) (f : FgwChannel → FgwChannel) (objects : ℕ → FgwChannel) (channels : Map ℕ ℕ) (next : ℕ)
    → Tame (objects p) (f (objects p))
    → TableOk objects channels next
    → TableOk (changed p f objects) channels next
changed-TableOk p f objects channels next t ok = record {
  keyed = λ id q h. ground (arith, t.same_id, ok.keyed id q h);
  fresh = ok.fresh;
  owned = λ q h. ground (arith, t.same_id, t.no_socket, ok.owned q, ok.owned p);
}

-- A new object under its channel id; what the id led to has no socket.
pub put-TableOk :
    (id : ℕ) (ch : FgwChannel) (objects : ℕ → FgwChannel) (channels : Map ℕ ℕ) (next : ℕ)
    → ch.channel_id ≡ id
    → ((p : ℕ) → lookup id channels ≡ some p → (objects p).has_tcp ≡ false)
    → TableOk objects channels next
    → TableOk (changed next (λ old. ch) objects) (insert id next channels) (next + 1)
put-TableOk id ch objects channels next same closed ok = record {
  keyed =
      λ j q h. ground (arith, lookup-insert id j next channels, ok.keyed j q, ok.fresh j q, same);
  fresh = λ j q h. ground (arith, lookup-insert id j next channels, ok.fresh j q);
  owned = λ q h. ground (
    arith,
    lookup-insert id (changed next (λ old. ch) objects q).channel_id next channels,
    ok.owned q,
    ok.fresh id q,
    closed q,
    same,
  );
}

pub erase-TableOk :
    (id p : ℕ) (objects : ℕ → FgwChannel) (channels : Map ℕ ℕ) (next : ℕ)
    → lookup id channels ≡ some p
    → (objects p).has_tcp ≡ false
    → TableOk objects channels next
    → TableOk objects (erase id channels) next
erase-TableOk id p objects channels next found closed ok = record {
  keyed = λ j q h. ground (arith, lookup-erase id j channels, ok.keyed j q);
  fresh = λ j q h. ground (arith, lookup-erase id j channels, ok.fresh j q);
  owned = λ q h. ground (arith, lookup-erase id (objects q).channel_id channels, ok.owned q h);
}
