-- ===== src/Codec/Status/Laws.antt =====
-- src/zfgw_pack.cpp: the status report come back as they were packed.
use libfgw.Prelude.{ℕ, Bool, List, ◌++◌, ◌≡◌, arith}
use libfgw.Codes.{ok}
use libfgw.Codec.Messages.{FgwLinkQuality, FgwSessionStat, FgwStatus}
use libfgw.Codec.Zds.{Zds, ZdsLaws, array-laws}
use libfgw.Codec.Fields.{stop, count}
use libfgw.Codec.RoundTrip.{AllLaws}
use libfgw.Codec.Newer.{unpack_newer}
use libfgw.Codec.Status.{
  link_quality_fields, link_quality_values, pack_link_quality, unpack_link_quality,
  LinkQualityInRange, session_stat_fields, session_stat_values, pack_session_stat,
  unpack_session_stat, SessionStatInRange, status_fields, status_values, pack_status, unpack_status,
  StatusInRange,
}

pub link_quality_laws : {z : Zds} → ZdsLaws z → AllLaws (link_quality_fields z)
link_quality_laws {z} zl = (
  zl.uint32_laws,
  (
    zl.byte_laws,
    (
      zl.uint32_laws,
      (
        zl.double_laws,
        (
          zl.uint64_laws,
          (zl.uint64_laws, (zl.uint32_laws, (zl.uint32_laws, (zl.uint32_laws, tt)))),
        ),
      ),
    ),
  ),
)

-- What is packed of a FgwLinkQuality is unpacked to it, whatever follows.
pub unpack_link_quality-pack_link_quality :
    (z : Zds)
    → ZdsLaws z
    → (has_prefix : Bool) (size : ℕ) (t : FgwLinkQuality) (bytes rest : List ℕ)
    → LinkQualityInRange z t
    → pack_link_quality z has_prefix size t ≡ ok bytes
    → unpack_link_quality z has_prefix (bytes ++ rest) ≡ ok (t, rest)
unfolding pack_link_quality unpack_link_quality
unpack_link_quality-pack_link_quality z zl has_prefix size t bytes rest holds packed = rw (
    unpack_newer z zl (link_quality_fields z) stop (link_quality_values z t) tt
      (link_quality_laws zl) tt holds tt (unfold count in omega arith) has_prefix size bytes rest
      packed)

pub session_stat_laws : {z : Zds} → ZdsLaws z → AllLaws (session_stat_fields z)
session_stat_laws {z} zl = (
  zl.uint32_laws,
  (
    zl.uint32_laws,
    (zl.astring_laws, (zl.astring_laws, (zl.uint64_laws, (zl.uint64_laws, (zl.uint32_laws, tt))))),
  ),
)

-- What is packed of a FgwSessionStat is unpacked to it, whatever follows.
pub unpack_session_stat-pack_session_stat :
    (z : Zds)
    → ZdsLaws z
    → (has_prefix : Bool) (size : ℕ) (t : FgwSessionStat) (bytes rest : List ℕ)
    → SessionStatInRange z t
    → pack_session_stat z has_prefix size t ≡ ok bytes
    → unpack_session_stat z has_prefix (bytes ++ rest) ≡ ok (t, rest)
unfolding pack_session_stat unpack_session_stat
unpack_session_stat-pack_session_stat z zl has_prefix size t bytes rest holds packed = rw (
    unpack_newer z zl (session_stat_fields z) stop (session_stat_values z t) tt
      (session_stat_laws zl) tt holds tt (unfold count in omega arith) has_prefix size bytes rest
      packed)

pub status_laws : {z : Zds} → ZdsLaws z → AllLaws (status_fields z)
status_laws {z} zl = (
  zl.byte_laws,
  (
    zl.byte_laws,
    (
      zl.uint32_laws,
      (
        array-laws zl (LinkQualityInRange z) (pack_link_quality z) (unpack_link_quality z)
            (λ has_prefix x h size bytes rest packed.
              unpack_link_quality-pack_link_quality z zl has_prefix size x bytes rest h packed),
        (
          array-laws zl (SessionStatInRange z) (pack_session_stat z) (unpack_session_stat z)
              (λ has_prefix x h size bytes rest packed.
                unpack_session_stat-pack_session_stat z zl has_prefix size x bytes rest h packed),
          tt,
        ),
      ),
    ),
  ),
)

-- What is packed of a FgwStatus with its values in range, by a codec for which zce's laws hold, is
-- unpacked to it with or without the presence prefix, with all links and sessions in it, and what
-- follows is left over.
pub unpack_status-pack_status :
    (z : Zds)
    → ZdsLaws z
    → (has_prefix : Bool) (size : ℕ) (t : FgwStatus) (bytes rest : List ℕ) → StatusInRange z t
    → pack_status z has_prefix size t ≡ ok bytes
    → unpack_status z has_prefix (bytes ++ rest) ≡ ok (t, rest)
unfolding pack_status unpack_status
unpack_status-pack_status z zl has_prefix size t bytes rest holds packed = rw (
    unpack_newer z zl (status_fields z) stop (status_values z t) tt (status_laws zl) tt holds tt
      (unfold count in omega arith) has_prefix size bytes rest packed)
