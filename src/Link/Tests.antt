-- ===== src/Link/Tests.antt =====
-- A choice among three links.
use libfgw.Link.Channel.{fgw_link_stalled}
use libfgw.Link.Liveness.{fgw_link_stalled-wrap}
use libfgw.Prelude.{ltb, ◌+◌, ◌%◌, ◌^◌, ℕ, ◌<◌, ◌≡◌, ◌≢◌, ◌⊎◌, false, List, [], ◌∷◌, arith}
use libfgw.Link.Selector.{LinkSelector, fresh_selector, Entry, id_at, probe_index, select_weighted}
use libfgw.Link.Choice.{has_id, probe_index-covers, select_weighted-two}

abbrev entry : ℕ → Entry
entry id = record { id = id; weight = 0 }

abbrev three : List Entry
three = entry 4 ∷ entry 5 ∷ entry 6 ∷ []

abbrev favours_five : LinkSelector
favours_five = record fresh_selector { primary_channel_id = 5; probe_rotation = 1 }

select_weighted-two_example :
    (p q : ℕ) × (p < 3)
    × (q < 3)
    × (p ≢ q)
    × ((select_weighted favours_five three).0 ≡ id_at three p ∷ id_at three q ∷ [])
    × ((favours_five.primary_channel_id ≡ 0) ⊎ ((has_id 5 three ≡ false) ⊎ (id_at three p ≡ 5)))
select_weighted-two_example = select_weighted-two favours_five (entry 4) (entry 5) (entry 6 ∷ [])

probe_index-covers_example : (rotation : ℕ) × (rotation < 2) × (probe_index rotation 1 three ≡ 2)
probe_index-covers_example = probe_index-covers 1 2 three (omega arith) (omega arith) (omega arith)

fgw_link_stalled-wrap_example :
    fgw_link_stalled ((0xFFFFFFF0 + 20000) % 2 ^ 32) 0xFFFFFFF0 15000 ≡ ltb 15000 20000
fgw_link_stalled-wrap_example =
    fgw_link_stalled-wrap 0xFFFFFFF0 20000 15000 (omega arith) (omega arith)
