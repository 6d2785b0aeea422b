-- ===== src/Link/Selector.antt =====
-- src/zfgw_channel_manager.h and src/zfgw_channel_manager.cpp: LinkSelector.
use libfgw.Prelude.{
  ℕ, zero, suc, ◌+◌, ◌-◌, ◌%◌, ◌^◌, Bool, List, [], ◌∷◌, map, ltb, ◌==◌, if◌then◌else◌, length,
  get_or,
}
use libfgw.Link.Fpu.{Fpu}
use libfgw.Link.Channel.{FgwChannel, is_live}

-- ZFGW_MULTIPATH_MODE, cast from a byte of the configuration; 2 and all others are the default.
pub data MultipathMode : Type 0 where
  best all weighted : MultipathMode

unfoldable pub mode_of : ℕ → MultipathMode
mode_of zero = best
mode_of (suc zero) = all
mode_of (suc (suc n)) = weighted

pub record LinkSelector : Type 0 where
  pub mode : MultipathMode
  pub primary_channel_id : ℕ
  pub probe_rotation : ℕ

abbrev pub fresh_selector : LinkSelector
fresh_selector = record { mode = weighted; primary_channel_id = 0; probe_rotation = 0 }

pub record Entry : Type 0 where
  pub id : ℕ
  pub weight : ℕ

module _ (fpu : Fpu) (sort : (Entry → Entry → Bool) → List Entry → List Entry) where
  -- priority / (rtt * (1 + 10 * loss)), with the loss clamped and an unknown rtt taken as 50.
  unfoldable pub weight_of : FgwChannel → ℕ
  weight_of ch =
      let q = ch.quality in
      let rtt = if q.rtt_ms == 0 then fpu.hundredths 5000 else fpu.of_uint q.rtt_ms in
      let loss0 = if fpu.lt q.loss_rate (fpu.hundredths 0) then fpu.hundredths 0 else q.loss_rate in
      let loss = if fpu.lt (fpu.hundredths 99) loss0 then fpu.hundredths 99 else loss0 in
      fpu.div (fpu.of_uint ch.priority)
        (fpu.mul rtt (fpu.add (fpu.hundredths 100) (fpu.mul (fpu.hundredths 1000) loss)))

  unfoldable pub entries : List FgwChannel → List Entry
  unfolding weight_of
  entries [] = []
  entries (ch ∷ chs) =
      let rest = entries chs in
      if is_live ch then record { id = ch.channel_id; weight = weight_of ch } ∷ rest else rest

  unfoldable pub ranked_entries : List FgwChannel → List Entry
  unfolding entries
  ranked_entries pool = sort (λ a b. fpu.lt b.weight a.weight) (entries pool)

-- The index of the wanted link, or 0.
unfoldable pub index_of : ℕ → ℕ → List Entry → ℕ
index_of i want [] = 0
index_of i want (e ∷ es) = let rest = index_of (i + 1) want es in if e.id == want then i else rest

abbrev pub no_entry : Entry
no_entry = record { id = 0; weight = 0 }

unfoldable pub id_at : List Entry → ℕ → ℕ
id_at ranked i = (get_or ranked i no_entry).id

unfoldable pub primary_index : LinkSelector → List Entry → ℕ
unfolding index_of
primary_index sel ranked =
    if sel.primary_channel_id == 0 then 0 else index_of 0 sel.primary_channel_id ranked

-- The index of the probe, for a counter value and the primary's index.
unfoldable pub probe_index : ℕ → ℕ → List Entry → ℕ
probe_index rotation primary_idx ranked =
    let others = length ranked - 1 in
    let r = rotation % others in if ltb r primary_idx then r else r + 1

unfoldable pub select_weighted : LinkSelector → List Entry → List ℕ × LinkSelector
unfolding primary_index probe_index id_at
select_weighted sel [] = ([], sel)
select_weighted sel (e ∷ []) = (id_at (e ∷ []) (primary_index sel (e ∷ [])) ∷ [], sel)
select_weighted sel (e ∷ f ∷ es) =
    let ranked = e ∷ f ∷ es in
    let primary_idx = primary_index sel ranked in
    (
      id_at ranked primary_idx
          ∷ id_at ranked (probe_index sel.probe_rotation primary_idx ranked)
          ∷ [],
      record sel { probe_rotation = (sel.probe_rotation + 1) % 2 ^ 64 },
    )

unfoldable pub select_best : List Entry → List ℕ
select_best [] = []
select_best (e ∷ es) = e.id ∷ []

module _ (fpu : Fpu) (sort : (Entry → Entry → Bool) → List Entry → List Entry) where
  -- LinkSelector::select. An empty pool gives no entries, hence the empty result.
  unfoldable pub select : LinkSelector → List FgwChannel → List ℕ × LinkSelector
  unfolding select_weighted select_best ranked_entries
  select sel pool =
      let ranked = ranked_entries fpu sort pool in
      elim sel.mode [
        | best ↦ (select_best ranked, sel)
        | all ↦ (map (λ e. e.id) ranked, sel)
        | weighted ↦ select_weighted sel ranked
      ]
