-- ===== src/Codec/Control/Laws.antt =====
-- src/zfgw_pack.cpp: the payloads of hello and feedback segments come back as they were packed.
use libfgw.Prelude.{ℕ, Bool, List, ◌++◌, ◌≡◌, arith}
use libfgw.Codes.{ok}
use libfgw.Stream.State.{FgwHello, FgwLinkFeedback}
use libfgw.Codec.Zds.{Zds, ZdsLaws}
use libfgw.Codec.Fields.{stop, count}
use libfgw.Codec.RoundTrip.{AllLaws}
use libfgw.Codec.Newer.{unpack_newer}
use libfgw.Codec.Control.{
  hello_fields, hello_values, pack_hello, unpack_hello, HelloInRange, feedback_fields,
  feedback_values, pack_feedback, unpack_feedback, FeedbackInRange,
}

pub hello_laws : {z : Zds} → ZdsLaws z → AllLaws (hello_fields z)
hello_laws {z} zl = (
  zl.uint16_laws,
  (zl.byte_laws, (zl.uint32_laws, (zl.uint32_laws, (zl.uint32_laws, (zl.uint32_laws, tt))))),
)

-- What is packed of a FgwHello is unpacked to it, whatever follows.
pub unpack_hello-pack_hello :
    (z : Zds)
    → ZdsLaws z
    → (has_prefix : Bool) (size : ℕ) (t : FgwHello) (bytes rest : List ℕ) → HelloInRange z t
    → pack_hello z has_prefix size t ≡ ok bytes
    → unpack_hello z has_prefix (bytes ++ rest) ≡ ok (t, rest)
unfolding pack_hello unpack_hello
unpack_hello-pack_hello z zl has_prefix size t bytes rest holds packed = rw (
    unpack_newer z zl (hello_fields z) stop (hello_values z t) tt (hello_laws zl) tt holds tt
      (unfold count in omega arith) has_prefix size bytes rest packed)

pub feedback_laws : {z : Zds} → ZdsLaws z → AllLaws (feedback_fields z)
feedback_laws {z} zl = (zl.uint32_laws, (zl.uint32_laws, (zl.uint32_laws, (zl.uint32_laws, tt))))

-- What is packed of a FgwLinkFeedback is unpacked to it, whatever follows.
pub unpack_feedback-pack_feedback :
    (z : Zds)
    → ZdsLaws z
    → (has_prefix : Bool) (size : ℕ) (t : FgwLinkFeedback) (bytes rest : List ℕ)
    → FeedbackInRange z t
    → pack_feedback z has_prefix size t ≡ ok bytes
    → unpack_feedback z has_prefix (bytes ++ rest) ≡ ok (t, rest)
unfolding pack_feedback unpack_feedback
unpack_feedback-pack_feedback z zl has_prefix size t bytes rest holds packed = rw (
    unpack_newer z zl (feedback_fields z) stop (feedback_values z t) tt (feedback_laws zl) tt holds
      tt (unfold count in omega arith) has_prefix size bytes rest packed)
