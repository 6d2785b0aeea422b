-- ===== src/Link/Liveness.antt =====
-- When a link is stalled.
use libfgw.Prelude.{ℕ, ◌+◌, ◌-◌, ◌%◌, ◌^◌, ◌<◌, ◌≡◌, ap, ltb, arith}
use libfgw.Link.Channel.{fgw_link_stalled}

-- The clock and the last receive tick are 32 bits wide and wrap. With a silence of `silence`
-- milliseconds, less than 2 ^ 32, a link is stalled if that is more than the timeout, whether or
-- not the clock wrapped meanwhile.
pub fgw_link_stalled-wrap :
    (last silence timeout : ℕ)
    → last < 2 ^ 32
    → silence < 2 ^ 32
    → fgw_link_stalled ((last + silence) % 2 ^ 32) last timeout ≡ ltb timeout silence
unfolding fgw_link_stalled
fgw_link_stalled-wrap last silence timeout hl hs =
    let delta : ((last + silence) % 2 ^ 32 + 2 ^ 32 - last) % 2 ^ 32 ≡ silence = omega arith in
    ap (ltb timeout) delta
