-- ===== src/Codec/Tests.antt =====
-- The theorems on the serialisation of src/zfgw_pack.cpp at concrete messages.
use libfgw.Prelude.{ℕ, ◌≡◌, refl, true, false, List, [], ◌∷◌, ◌++◌, length, arith, some}
use libfgw.Codes.{ℤ, Result, ok, err, memory, bad_segment, ◌>>=◌}
use libfgw.Config.{FgwConfig}
use libfgw.Codec.Zds.{empty_config}
use libfgw.Codec.Messages.{FgwLinkQuality, FgwSessionStat, FgwStatus}
use libfgw.Codec.Fields.{
  Fields, stop, member, pack_struct, unpack_struct, struct_prefix, has_bit, pack_members,
  skip_unknown, count,
}
use libfgw.Codec.Zds.{byte, uint16, uint32}
use libfgw.Codec.Configs.{
  pack_config, unpack_config, pack_channel_config, pack_endpoint, ConfigInRange,
}
use libfgw.Codec.Configs.Laws.{unpack_config-pack_config}
use libfgw.Codec.Status.{pack_status, unpack_status, pack_link_quality, pack_session_stat}
use libfgw.Codec.Status.Laws.{unpack_status-pack_status}
use libfgw.Codec.Newer.{unpack_newer, skip_unknown-fuel}
use libfgw.Codec.Stored.{zds_store, load_config-save_config}
use libfgw.Config.{Store, save_config, load_config}
use libfgw.Codec.RoundTrip.{◌⊕◌}
use libfgw.Codec.Sample.{sample, sample-ZdsLaws}

-- FgwHello as a reader knows it that was built before `generation` was added.
abbrev old_hello : Fields
old_hello = member (uint16 sample) (
    member (byte sample)
      (member (uint32 sample) (member (uint32 sample) (member (uint32 sample) stop))))

abbrev generation_field : Fields
generation_field = member (uint32 sample) stop

new_hello_packed :
    pack_struct sample (old_hello ⊕ generation_field) true 64 (2, (0, (7, (0, (3, (99, tt))))))
    ≡ ok (0x35 ∷ 2 ∷ 7 ∷ 3 ∷ 99 ∷ [])
unfolding pack_struct struct_prefix pack_members has_bit
new_hello_packed = refl

unpack_newer_example :
    unpack_struct sample old_hello true (0x35 ∷ 2 ∷ 7 ∷ 3 ∷ 99 ∷ 5 ∷ [])
    ≡ ok ((2, (0, (7, (0, (3, tt))))), 5 ∷ [])
unfolding count
unpack_newer_example =
    unpack_newer sample sample-ZdsLaws old_hello generation_field (2, (0, (7, (0, (3, tt)))))
      (99, tt)
      (
        sample-ZdsLaws.uint16_laws,
        (
          sample-ZdsLaws.byte_laws,
          (
            sample-ZdsLaws.uint32_laws,
            (sample-ZdsLaws.uint32_laws, (sample-ZdsLaws.uint32_laws, tt)),
          ),
        ),
      )
      (sample-ZdsLaws.uint32_skips, tt)
      (omega arith, (omega arith, (omega arith, (omega arith, (omega arith, tt)))))
      (omega arith, tt) (omega arith) true 64 (0x35 ∷ 2 ∷ 7 ∷ 3 ∷ 99 ∷ []) (5 ∷ []) new_hello_packed

skip_unknown-fuel_example :
    skip_unknown sample 70 5 (8 ∷ 9 ∷ 4 ∷ []) ≡ skip_unknown sample 64 5 (8 ∷ 9 ∷ 4 ∷ [])
skip_unknown-fuel_example =
    skip_unknown-fuel sample 64 70 5 (8 ∷ 9 ∷ 4 ∷ []) (omega arith) (omega arith)

abbrev pub one_channel : FgwConfig
one_channel = record empty_config {
  role = 1;
  channels =
      record {
        channel_id = 4;
        kind = 1;
        remote = record { host = 49 ∷ []; port = 80 };
        priority = 0;
      }
      ∷ [];
  config_version = libfgw.Codes.config_version;
}

abbrev pub one_channel_bytes : List ℕ
one_channel_bytes =
    24549 ∷ 1 ∷ 1080 ∷ 1 ∷ 7 ∷ 4 ∷ 1 ∷ 3 ∷ 1 ∷ 49 ∷ 80 ∷ 1200 ∷ 1024 ∷ 5 ∷ 15 ∷ 60 ∷ 2 ∷ 1
    ∷ 4139778051 ∷ []

one_channel_packed : pack_config sample true 200 one_channel ≡ ok one_channel_bytes
unfolding pack_config pack_channel_config pack_endpoint pack_struct struct_prefix pack_members
    has_bit
one_channel_packed = refl

pub one_channel-ConfigInRange : ConfigInRange sample one_channel
one_channel-ConfigInRange = (
  omega arith,
  (
    omega arith,
    (
      omega arith,
      (
        tt,
        (
          omega arith,
          (
            (
              (
                omega arith,
                (omega arith, (((omega arith, tt), (omega arith, tt)), (omega arith, tt))),
              ),
              tt,
            ),
            (
              omega arith,
              (
                omega arith,
                (
                  omega arith,
                  (
                    omega arith,
                    (omega arith, (omega arith, (omega arith, (omega arith, (omega arith, tt))))),
                  ),
                ),
              ),
            ),
          ),
        ),
      ),
    ),
  ),
)

unpack_config-pack_config_example :
    unpack_config sample true (one_channel_bytes ++ 7 ∷ []) ≡ ok (one_channel, 7 ∷ [])
unpack_config-pack_config_example =
    unpack_config-pack_config sample sample-ZdsLaws true 200 one_channel one_channel_bytes (7 ∷ [])
      one_channel-ConfigInRange one_channel_packed

abbrev pub disk : Store
disk = zds_store sample 200 (λ n. 300) (λ path. true) (λ path bytes. length bytes)

pub one_channel_saved : save_config disk (47 ∷ []) one_channel ≡ (ok 0, some one_channel_bytes)
unfolding save_config zds_store pack_config pack_channel_config pack_endpoint pack_struct
    struct_prefix pack_members has_bit
one_channel_saved = refl

load_config-save_config_example : load_config disk (some one_channel_bytes) ≡ ok one_channel
load_config-save_config_example =
    load_config-save_config sample sample-ZdsLaws 200 (λ n. 300) (λ path. true)
      (λ path bytes. length bytes) (47 ∷ []) one_channel one_channel_bytes one_channel-ConfigInRange
      (λ e. absurd (omega arith)) (omega arith) one_channel_saved

abbrev one_link : FgwLinkQuality
one_link = record {
  channel_id = 4;
  connected = 1;
  rtt_ms = 0;
  loss_rate = 0;
  bytes_sent = 10;
  bytes_recv = 0;
  send_segments = 0;
  recv_segments = 2;
  rexmit_segments = 0;
}

abbrev one_session : FgwSessionStat
one_session = record {
  session_id = 1;
  ingress_id = 9;
  client_addr = 58 ∷ [];
  target_addr = [];
  bytes_sent = 1;
  bytes_recv = 2;
  open_timestamp = 3;
}

abbrev report : FgwStatus
report = record {
  running = 1;
  role = 0;
  session_count = 1;
  links = one_link ∷ [];
  sessions = one_session ∷ [];
}

abbrev report_bytes : List ℕ
report_bytes = 29 ∷ 1 ∷ 1 ∷ 1 ∷ 147 ∷ 4 ∷ 1 ∷ 10 ∷ 2 ∷ 1 ∷ 119 ∷ 1 ∷ 9 ∷ 1 ∷ 58 ∷ 1 ∷ 2 ∷ 3 ∷ []

report_packed : pack_status sample false 100 report ≡ ok report_bytes
unfolding pack_status pack_link_quality pack_session_stat pack_struct struct_prefix pack_members
    has_bit
report_packed = refl

unpack_status-pack_status_example :
    unpack_status sample false (report_bytes ++ []) ≡ ok (report, [])
unpack_status-pack_status_example =
    unpack_status-pack_status sample sample-ZdsLaws false 100 report report_bytes []
      (
        omega arith,
        (
          omega arith,
          (
            omega arith,
            (
              (
                (
                  omega arith,
                  (
                    omega arith,
                    (
                      omega arith,
                      (
                        λ e. absurd (omega arith),
                        (
                          omega arith,
                          (omega arith, (omega arith, (omega arith, (omega arith, tt)))),
                        ),
                      ),
                    ),
                  ),
                ),
                tt,
              ),
              (
                (
                  (
                    omega arith,
                    (
                      omega arith,
                      ((omega arith, tt), (tt, (omega arith, (omega arith, (omega arith, tt))))),
                    ),
                  ),
                  tt,
                ),
                tt,
              ),
            ),
          ),
        ),
      )
      report_packed
