-- ===== src/Manager/Stopping.antt =====
-- src/zfgw_channel_manager.cpp: stopping a ChannelManager closes every socket.
use libfgw.Prelude.{
  ℕ, ◌≡◌, refl, subst, ◌⊎◌, Bool, true, false, [], ◌∷◌, some, Map, lookup, nat_ord, inl, inr, arith,
}
use libfgw.Link.Channel.{close_channel}
use libfgw.Link.Pool.{change}
use libfgw.Manager.State.{ChannelManager, change_object}
use libfgw.Manager.Traffic.{stop_link_listener, close_all, manager_stop}
use libfgw.Manager.Steps.{InOrder}
use libfgw.Manager.Order.{close-InOrder, closed_object}

close_all-InOrder : (rest : Map ℕ ℕ) (m : ChannelManager) → InOrder m → InOrder (close_all rest m)
unfolding close_all
close_all-InOrder [] m inv = inv
close_all-InOrder ((id, p) ∷ rest) m inv =
    close_all-InOrder rest (change_object p close_channel m) (close-InOrder p m inv)

close_all-channels :
    (rest : Map ℕ ℕ) (m : ChannelManager) → (close_all rest m).links.channels ≡ m.links.channels
unfolding close_all change_object change
close_all-channels [] m = refl
close_all-channels ((id, p) ∷ rest) m = close_all-channels rest (change_object p close_channel m)

stays_closed :
    (q p : ℕ) (m : ChannelManager)
    → (m.links.objects q).has_tcp ≡ false
    → ((change_object p close_channel m).links.objects q).has_tcp ≡ false
unfolding change_object change close_channel
stays_closed q p m h = ground arith

close_all-keeps :
    (q : ℕ) (rest : Map ℕ ℕ) (m : ChannelManager)
    → (m.links.objects q).has_tcp ≡ false
    → ((close_all rest m).links.objects q).has_tcp ≡ false
unfolding close_all
close_all-keeps q [] m h = h
close_all-keeps q ((id, p) ∷ rest) m h =
    close_all-keeps q rest (change_object p close_channel m) (stays_closed q p m h)

pub head_or_rest :
    (id j p q : ℕ) (rest : Map ℕ ℕ)
    → lookup id ((j, p) ∷ rest) ≡ some q
    → (p ≡ q) ⊎ (lookup id rest ≡ some q)
unfolding lookup
head_or_rest id j p q rest h = ground arith

close_all-closes :
    (id q : ℕ) (rest : Map ℕ ℕ) (m : ChannelManager)
    → lookup id rest ≡ some q
    → ((close_all rest m).links.objects q).has_tcp ≡ false
unfolding close_all lookup
close_all-closes id q [] m h = absurd (ground arith)
close_all-closes id q ((j, p) ∷ rest) m h = elim (head_or_rest id j p q rest h) [
  | inl e ↦ close_all-keeps q rest (change_object p close_channel m) (
      subst (λ (r : ℕ). ((change_object p close_channel m).links.objects r).has_tcp ≡ false) e
        (closed_object p m))
  | inr e ↦ close_all-closes id q rest (change_object p close_channel m) e
]

no_socket : (b : Bool) → (b ≡ true → b ≡ false) → b ≡ false
no_socket true h = h refl
no_socket false h = refl

-- A manager whose channel table is in order, as every one is that a new manager gets to, leaves no
-- channel object with a socket when it is stopped.
pub manager_stop-closed :
    (m : ChannelManager) → InOrder m → (p : ℕ) → ((manager_stop m).links.objects p).has_tcp ≡ false
unfolding manager_stop
manager_stop-closed m inv p =
    no_socket ((close_all m.links.channels (stop_link_listener m)).links.objects p).has_tcp
      (λ socket. close_all-closes _ p m.links.channels (stop_link_listener m) (
        subst
          (λ (c : Map ℕ ℕ).
            lookup ((close_all m.links.channels (stop_link_listener m)).links.objects p).channel_id
              c
            ≡ some p)
          (close_all-channels m.links.channels (stop_link_listener m))
          ((close_all-InOrder m.links.channels (stop_link_listener m)
              (unfold stop_link_listener in inv)).owned
            p socket)))

pub manager_stop-InOrder : (m : ChannelManager) → InOrder m → InOrder (manager_stop m)
unfolding manager_stop lookup
manager_stop-InOrder m inv = record {
  keyed = λ id p h. absurd (ground arith);
  fresh = λ id p h. absurd (ground arith);
  owned = λ p h. absurd (ground (arith, manager_stop-closed m inv p));
}
