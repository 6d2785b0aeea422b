-- ===== src/Manager/Tests.antt =====
-- The theorems on ChannelManager at concrete states.
use libfgw.Prelude.{
  arith, ℕ, List, ◌≡◌, refl, true, false, [], ◌∷◌, some, length, lookup, has_key, nat_ord,
}
use libfgw.Codes.{proto_version, ok, err, pos, channel_exists}
use libfgw.Config.{FgwChannelConfig}
use libfgw.Codec.Sample.{sample}
use libfgw.Link.Channel.{tcp, new_channel, fgw_link_stalled}
use libfgw.Link.Selector.{fresh_selector}
use libfgw.Stream.State.{DataStream}
use libfgw.Stream.Send.{data_stream}
use libfgw.Manager.State.{ChannelManager, ManagerEnv, channel_manager, no_channel_object}
use libfgw.Manager.Channels.{kind_of, add_channel, remove_channel, make_accepted_channel}
use libfgw.Manager.Traffic.{manager_stop, heartbeat_channels, add_bytes_subscriber}
use libfgw.Manager.Events.{on_channel_connected, on_read_data}
use libfgw.Manager.Steps.{
  InOrder, Gentle, Reaches, here, and_then, added, accepted, subscribed_to, connected, received,
}
use libfgw.Manager.Stopping.{manager_stop-closed}
use libfgw.Manager.Invariant.{Reaches-InOrder}
use libfgw.Manager.Changes.{add_channel-again, remove_channel-add_channel}
use libfgw.Manager.Registry.{Command, add, remove, redial, accept, start, stop, registry_run}
use libfgw.Manager.Refines.{view, connecting, run_commands, run_commands-registry_run}
use libfgw.Manager.Greeting.{Greeted, unpacked, send_hello-Greeted}
use libfgw.Stream.State.{Env}
use libfgw.Stream.Receive.{on_channel_bytes}
use libfgw.Stream.Receive.Buffer.{pending}
use libfgw.Stream.Tests.{test_env}
use libfgw.Codec.Zds.{empty_config}
use libfgw.Codec.Sample.{sample-ZdsLaws}
use libfgw.Codec.Fields.{pack_struct, struct_prefix, pack_members, has_bit}
use libfgw.Codec.Control.{pack_hello, unpack_hello, HelloInRange}
use libfgw.Manager.State.{send_frame}
use libfgw.Manager.Traffic.{hello_of, send_hello}
use libfgw.Manager.Heartbeat.{heartbeat_channels-stalled}

abbrev pub manager_test_env : ManagerEnv
manager_test_env = record {
  zds = sample;
  space = λ n. n;
  tcp_write = λ wire p frame. pos (length frame);
  start_connect = λ remote. ok 0;
  listen = λ ip port. true;
  udp_listen = λ ip port. true;
  generation = 99;
}

abbrev pub idle_streams : ℕ → DataStream
idle_streams q =
    data_stream
      (record { objects = λ p. no_channel_object; channels = []; selector = fresh_selector }) 7 1200
      1024 true 0

abbrev fresh_manager : ChannelManager
fresh_manager = channel_manager idle_streams

abbrev link_four : FgwChannelConfig
link_four = record {
  channel_id = 4;
  kind = 0;
  remote = record { host = 49 ∷ []; port = 80 };
  priority = 100;
}

test_env-Gentle : Gentle test_env
test_env-Gentle ev = record {
  keeps_channels = λ s. refl;
  keeps_ids = λ s p. refl;
  keeps_sockets = λ s p. refl;
}

abbrev one_added : ChannelManager
one_added =
    add_bytes_subscriber 0 (add_channel manager_test_env link_four (channel_manager idle_streams)).1

-- A channel was added, connected and sent a byte, and another one was accepted.
abbrev after_two : ChannelManager
after_two =
    make_accepted_channel
      (on_read_data test_env 50 0 (7 ∷ []) (on_channel_connected manager_test_env 40 0 one_added))

after_two_reached : Reaches manager_test_env test_env fresh_manager after_two
after_two_reached =
    and_then
      (and_then
        (and_then
          (and_then (and_then (here fresh_manager) (added link_four fresh_manager))
            (subscribed_to 0 _))
          (connected 40 0 one_added))
        (received 50 0 (7 ∷ []) _))
      (accepted _)

Reaches-InOrder_example : InOrder after_two
Reaches-InOrder_example =
    Reaches-InOrder manager_test_env test_env idle_streams after_two test_env-Gentle
      after_two_reached

manager_stop-closed_example : ((manager_stop after_two).links.objects 0).has_tcp ≡ false
manager_stop-closed_example =
    manager_stop-closed after_two
      (Reaches-InOrder manager_test_env test_env idle_streams after_two test_env-Gentle
        after_two_reached)
      0

four_is_tcp : kind_of 0 ≡ some tcp
unfolding kind_of
four_is_tcp = refl

four_is_free : has_key 4 fresh_manager.links.channels ≡ false
unfolding has_key lookup
four_is_free = refl

add_channel-again_example :
    add_channel manager_test_env
      (record link_four { kind = 1 })
      (add_channel manager_test_env link_four fresh_manager).1
    ≡ (err channel_exists, (add_channel manager_test_env link_four fresh_manager).1)
add_channel-again_example =
    add_channel-again manager_test_env link_four (record link_four { kind = 1 }) tcp fresh_manager
      four_is_tcp refl

remove_channel-add_channel_example :
    ((remove_channel 4 (add_channel manager_test_env link_four fresh_manager).1).0 ≡ ok 0)
    × (lookup 4
          (remove_channel 4
            (add_channel manager_test_env link_four fresh_manager).1).1.links.channels
        ≡ lookup 4 fresh_manager.links.channels)
remove_channel-add_channel_example =
    remove_channel-add_channel manager_test_env link_four tcp fresh_manager 4 four_is_free
      four_is_tcp

abbrev one_link : ChannelManager
one_link = record fresh_manager {
  links = record {
    objects = λ p. record (new_channel 4 tcp 100) { connected = true; has_tcp = true };
    channels = (4, 0) ∷ [];
    selector = fresh_selector;
  };
}

link_found : lookup 4 one_link.links.channels ≡ some 0
unfolding lookup
link_found = refl

heartbeat_channels-stalled_example :
    (((heartbeat_channels manager_test_env
          (λ p. 20000)
          15000
          one_link.links.channels
          one_link).links.objects
        0).connected
      ≡ true)
    × (((heartbeat_channels manager_test_env
            (λ p. 20000)
            15000
            one_link.links.channels
            one_link).links.objects
          0).stalled
        ≡ fgw_link_stalled 20000 0 15000)
heartbeat_channels-stalled_example =
    heartbeat_channels-stalled manager_test_env (λ p. 20000) 15000 4 0 one_link link_found refl

-- Started, added, accepted, removed, dialled again, accepted, added, stopped.
abbrev script : List Command
script =
    start (record empty_config { channels = link_four ∷ [] })
    ∷ add link_four
    ∷ accept
    ∷ remove 4
    ∷ remove 4
    ∷ redial link_four
    ∷ accept
    ∷ add link_four
    ∷ stop
    ∷ []

run_commands-registry_run_example :
    (
      (run_commands manager_test_env script fresh_manager).0,
      view (run_commands manager_test_env script fresh_manager).1,
    )
    ≡ registry_run (connecting manager_test_env) script (view fresh_manager)
run_commands-registry_run_example = run_commands-registry_run manager_test_env script fresh_manager

abbrev greeter : ChannelManager
greeter = record one_link { config = record empty_config { role = 1; ingress_id = 7 } }

abbrev hello_bytes : List ℕ
hello_bytes = 0x37 ∷ proto_version ∷ 1 ∷ 7 ∷ 4 ∷ 99 ∷ []

hello_packed : pack_hello sample true 64 (hello_of manager_test_env 0 greeter) ≡ ok hello_bytes
unfolding pack_hello hello_of pack_struct struct_prefix pack_members has_bit
hello_packed = refl

abbrev greeted_env : Env
greeted_env = record test_env { unpack_hello = λ bytes. unpacked (unpack_hello sample true bytes) }

hello_in_range : HelloInRange sample (hello_of manager_test_env 0 greeter)
unfolding hello_of
hello_in_range =
    (omega arith, (omega arith, (omega arith, (omega arith, (omega arith, (omega arith, tt))))))

send_hello-Greeted_example :
    (frame : List ℕ) × (send_hello manager_test_env 0 greeter
      ≡ send_frame manager_test_env 0 frame greeter)
    × (pending 3 (on_channel_bytes greeted_env 3 frame (idle_streams 0)) ≡ [])
    × Greeted manager_test_env 0 3 greeter (on_channel_bytes greeted_env 3 frame (idle_streams 0))
send_hello-Greeted_example =
    send_hello-Greeted manager_test_env sample-ZdsLaws greeted_env 0 3 greeter (idle_streams 0)
      hello_bytes hello_packed (omega arith) hello_in_range (omega arith)
      (λ e. absurd (omega arith)) (λ bytes. refl) (unfold pending lookup data_stream in refl)
