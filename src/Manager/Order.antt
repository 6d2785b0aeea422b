-- ===== src/Manager/Order.antt =====
-- src/zfgw_channel_manager.cpp: the channel table stays in order.
use libfgw.Prelude.{
  ℕ, ◌≡◌, refl, Bool, false, not, List, some, ◌==◌, Map, lookup, has_key, nat_ord, arith, if_either,
  if_cases, option_both, ltb, length,
}
use libfgw.Codes.{Result}
use libfgw.Config.{FgwChannelConfig}
use libfgw.Link.Channel.{
  FgwChannel, ChannelKind, tcp, utp, new_channel, close_channel, after_write, tcp_send_bytes,
  send_bytes,
}
use libfgw.Link.Pool.{change}
use libfgw.Manager.State.{ChannelManager, ManagerEnv, change_object, send_frame}
use libfgw.Manager.Channels.{
  connect, kind_of, shared_utp_context, with_context, put_channel, add_new, add_channel,
  remove_channel,
}
use libfgw.Manager.Table.{Tame, changed-TableOk, put-TableOk, erase-TableOk}
use libfgw.Link.Channel.{add_sent_bytes}
use libfgw.Codes.{ℤ, pos, negsuc}
use libfgw.Manager.Steps.{InOrder}

pub Tame-refl : (c : FgwChannel) → Tame c c
Tame-refl c = record { same_id = refl; no_socket = λ h. h }

Tame-close : (c : FgwChannel) → Tame c (close_channel c)
unfolding close_channel
Tame-close c = record { same_id = refl; no_socket = λ h. ground arith }

pub kind_both :
    {A : Type 0} (P : A → Type 0) (k : ChannelKind) (x y : A)
    → P x
    → P y
    → P (elim k [ tcp ↦ x | utp ↦ y ])
kind_both P tcp x y px py = px
kind_both P utp x y px py = py

-- What holds of a channel and of it with more bytes sent holds of it after sendBytes.
pub after_send :
    (T : FgwChannel → Type 0) (space len : ℕ) (written : ℤ) (c : FgwChannel)
    → T c
    → T (add_sent_bytes len c)
    → T (send_bytes space written len c).2
unfolding send_bytes tcp_send_bytes
after_send T space len written c old more =
    kind_both S c.kind _ _
      (if_either S (not c.has_tcp) _ _ old (
        if_either S (not c.connected) _ _ old
          (if_either S (len == 0) _ _ old (if_either S (ltb space len) _ _ old (wrote written)))))
      old
  where
    S : Result ℕ × Bool × FgwChannel → Type 0
    S r = T r.2

    wrote : (w : ℤ) → T (after_write len w c).1
    wrote (pos n) = unfold after_write in more
    wrote (negsuc n) = unfold after_write in old

pub Tame-send :
    (space len : ℕ) (written : ℤ) (c : FgwChannel) → Tame c (send_bytes space written len c).2
Tame-send space len written c =
    after_send (Tame c) space len written c (Tame-refl c)
      (unfold add_sent_bytes in record { same_id = refl; no_socket = λ h. h })

pub close-InOrder :
    (p : ℕ) (m : ChannelManager) → InOrder m → InOrder (change_object p close_channel m)
unfolding change_object change
close-InOrder p m inv = changed-TableOk p close_channel _ _ _ (Tame-close _) inv

pub send_frame-InOrder :
    (env : ManagerEnv) (p : ℕ) (frame : List ℕ) (m : ChannelManager)
    → InOrder m
    → InOrder (send_frame env p frame m)
unfolding send_frame change_object change
send_frame-InOrder env p frame m inv =
    changed-TableOk p (λ old. sent.2) _ _ _
      (Tame-send (env.space (length frame)) (length frame) (env.tcp_write m.wire p frame)
        (m.links.objects p))
      inv
  where
    sent : (Result ℕ × Bool × FgwChannel)
    sent =
        send_bytes (env.space (length frame)) (env.tcp_write m.wire p frame) (length frame)
          (m.links.objects p)

pub closed_object :
    (p : ℕ) (m : ChannelManager)
    → ((change_object p close_channel m).links.objects p).has_tcp ≡ false
unfolding change_object change close_channel
closed_object p m = ground arith

pub remove_channel-InOrder :
    (id : ℕ) (m : ChannelManager) → InOrder m → InOrder (remove_channel id m).1
unfolding remove_channel change_object change
remove_channel-InOrder id m inv =
    option_both (λ (x : Result ℕ × ChannelManager). InOrder x.1) (lookup id m.links.channels) _ _
      inv
      (λ p found.
        erase-TableOk id p (change_object p close_channel m).links.objects m.links.channels
          m.next_object found (closed_object p m) (close-InOrder p m inv))

pub put-InOrder :
    (id : ℕ) (ch : FgwChannel) (m : ChannelManager)
    → ch.channel_id ≡ id
    → ((p : ℕ) → lookup id m.links.channels ≡ some p → (m.links.objects p).has_tcp ≡ false)
    → InOrder m
    → InOrder (put_channel id ch m)
unfolding put_channel change_object change
put-InOrder id ch m same free inv =
    put-TableOk id ch m.links.objects m.links.channels m.next_object same free inv

pub no_holder :
    (id p : ℕ) (channels : Map ℕ ℕ) (objects : ℕ → FgwChannel)
    → has_key id channels ≡ false
    → lookup id channels ≡ some p
    → (objects p).has_tcp ≡ false
unfolding has_key
no_holder id p channels objects free held = absurd (ground arith)

connect-id :
    (env : ManagerEnv) (kind : ChannelKind) (cfg : FgwChannelConfig)
    → (connect env cfg.remote (new_channel cfg.channel_id kind cfg.priority)).1.channel_id
      ≡ cfg.channel_id
unfolding connect close_channel
connect-id env tcp cfg = refl
connect-id env utp cfg = refl

add_new-InOrder :
    (env : ManagerEnv) (kind : ChannelKind) (cfg : FgwChannelConfig) (m : ChannelManager)
    → has_key cfg.channel_id m.links.channels ≡ false
    → InOrder m
    → InOrder (add_new env kind cfg m).1
unfolding add_new
add_new-InOrder env kind cfg m free inv =
    put-InOrder cfg.channel_id _ m (connect-id env kind cfg)
      (λ p held. no_holder cfg.channel_id p m.links.channels m.links.objects free held) inv

context-InOrder :
    (env : ManagerEnv) (kind : ChannelKind) (cfg : FgwChannelConfig) (m : ChannelManager)
    → has_key cfg.channel_id m.links.channels ≡ false
    → InOrder m
    → InOrder (add_new env kind cfg (with_context env kind m)).1
unfolding with_context shared_utp_context
context-InOrder env tcp cfg m free inv = add_new-InOrder env tcp cfg m free inv
context-InOrder env utp cfg m free inv =
    add_new-InOrder env utp cfg (shared_utp_context env m) free inv

pub add_channel-InOrder :
    (env : ManagerEnv) (cfg : FgwChannelConfig) (m : ChannelManager)
    → InOrder m
    → InOrder (add_channel env cfg m).1
unfolding add_channel
add_channel-InOrder env cfg m inv =
    if_cases P (has_key cfg.channel_id m.links.channels) _ _ (λ e. inv)
      (λ free.
        option_both P (kind_of cfg.kind) _ _ inv
          (λ kind known. context-InOrder env kind cfg m free inv))
  where
    P : Result ℕ × ChannelManager → Type 0
    P x = InOrder x.1
